-- ===== src/Editor/Documents.antt =====
-- The statements on `documents` and the first revision of a document
-- (documents_v2/repository/repository.go), with the unique indexes of migrations/0110 and the
-- transition trigger of migrations/0144.
use metal_docs.Prelude.{
  ℕ, suc, String, Bool, true, false, not, ◌&&◌, ◌||◌, Option, none, some, List, [], ◌∷◌, ◌++◌, ◌+◌,
}
use metal_docs.Prelude.Tests.{ltb, ◌==◌}
use metal_docs.Prelude.Text.{str_eq}
use metal_docs.Prelude.Lists.{any, count_if, keep_if, find_if, update_where, order_by}
use metal_docs.Prelude.Result.{Result, ok}
use metal_docs.Prelude.Sql.{
  Env, domain, ◌>>=◌, ◌>>◌, pure, fail_if, or_fail, query, exec, write, never,
}
use metal_docs.Approval.State.{DocState, StateError, state_from_string, trigger_allows}
use metal_docs.Editor.Tables.{
  Document, DocumentStatus, finalized, archived, status_text, Session, active, Revision, Tables,
  Edit, invalid_state_transition, not_found, key_already_set, is_active,
}

-- `coalesce(…::text, '')`
abbrev pub coalesce : Option String → String
coalesce none = ""
coalesce (some a) = a

-- `now() + interval '5 minutes'`, in seconds.
abbrev pub lease_seconds : ℕ
lease_seconds = 300

abbrev pub nil_uuid : String
nil_uuid = "00000000-0000-0000-0000-000000000000"

-- The primary key and the index idx_one_active_session_per_doc.
abbrev pub session_conflict : Session → Session → Bool
session_conflict new s =
    str_eq s.id new.id || (str_eq s.document_id new.document_id && is_active s && is_active new)

unfoldable pub insert_session : Env → ℕ → Session → Edit (Unit {0})
insert_session env k new =
    write env k (λ t. any (session_conflict new) t.sessions) "idx_one_active_session_per_doc"
      (λ _. tt) (λ t. record t { sessions = t.sessions ++ (new ∷ []) })

abbrev pub new_session : Env → ℕ → String → String → String → Session
new_session env k doc_id user_id ack = record {
  id = env.uuid k;
  document_id = doc_id;
  user_id = user_id;
  acquired_at = env.now;
  expires_at = env.now + lease_seconds;
  released_at = none;
  last_acknowledged_revision_id = ack;
  status = active;
}

-- The primary key and UNIQUE (document_id, content_hash).
abbrev pub same_content : String → String → Revision → Bool
same_content doc_id hash r = str_eq r.document_id doc_id && str_eq r.content_hash hash

abbrev pub revision_conflict : Revision → Revision → Bool
revision_conflict new r = str_eq r.id new.id || same_content new.document_id new.content_hash r

-- An INSERT takes the next number of the sequence, and returns it.
abbrev pub append_revision : Revision → Tables → Tables
append_revision new t = record t {
  revisions = t.revisions ++ (record new { revision_num = t.next_revision_num } ∷ []);
  next_revision_num = suc t.next_revision_num;
}

unfoldable pub insert_revision : Env → ℕ → Revision → Edit ℕ
insert_revision env k new =
    write env k (λ t. any (revision_conflict new) t.revisions)
      "document_revisions_document_id_content_hash_key" (λ t. t.next_revision_num)
      (append_revision new)

abbrev pub set_documents : (Document → Bool) → (Document → Document) → Tables → Tables
set_documents where_ set t = record t { documents = update_where where_ set t.documents }

abbrev pub set_sessions : (Session → Bool) → (Session → Session) → Tables → Tables
set_sessions where_ set t = record t { sessions = update_where where_ set t.sessions }

abbrev pub new_document : Env → Document → Document
new_document env d = record d {
  id = env.uuid 0;
  status = "draft";
  current_revision_id = none;
  active_session_id = none;
  finalized_at = none;
  archived_at = none;
  created_at = env.now;
  updated_at = env.now;
}

abbrev pub first_revision : Env → Document → String → Revision
first_revision env d hash = record {
  id = env.uuid 2;
  document_id = env.uuid 0;
  revision_num = 0;
  parent_revision_id = none;
  session_id = env.uuid 1;
  storage_key = "";
  content_hash = hash;
  form_data_snapshot = d.form_data_json;
  created_at = env.now;
}

-- `CreateDocument`, inside its transaction: the document, its session and its first revision.
unfoldable pub create_document : Env → Document → String → Edit (String × String × String)
create_document env d hash = do
  write env 1 (λ t. any (λ (row : Document). str_eq row.id (env.uuid 0)) t.documents)
      "documents_pkey" (λ _. tt)
      (λ t. record t { documents = t.documents ++ (new_document env d ∷ []) })
  insert_session env 2 (new_session env 1 (env.uuid 0) d.created_by nil_uuid)
  insert_revision env 3 (first_revision env d hash)
  exec env 4 (
      set_sessions (λ s. str_eq s.id (env.uuid 1))
        (λ s. record s { last_acknowledged_revision_id = env.uuid 2 }))
  exec env 5 (
      set_documents (λ d. str_eq d.id (env.uuid 0))
        (λ d. record d {
          current_revision_id = some (env.uuid 2);
          active_session_id = some (env.uuid 1);
          updated_at = env.now;
        }))
  pure (env.uuid 0, env.uuid 2, env.uuid 1)

abbrev pub lacks_key : String → Revision → Bool
lacks_key id r = str_eq r.id id && str_eq r.storage_key ""

-- `SetRevisionStorageKey`. Where the code reports that no row was changed, none was.
unfoldable pub set_revision_storage_key : Env → String → String → Edit (Unit {0})
set_revision_storage_key env id key = do
  n ←
      write env 1 never "" (λ t. count_if (lacks_key id) t.revisions)
        (λ t. record t {
          revisions = update_where (lacks_key id) (λ r. record r { storage_key = key }) t.revisions;
        })
  fail_if (n == 0) (domain key_already_set)

abbrev pub is_document : String → String → Document → Bool
is_document tenant_id id d = str_eq d.id id && str_eq d.tenant_id tenant_id

-- `GetDocument`
unfoldable pub get_document : Env → ℕ → String → String → Edit Document
get_document env k tenant_id id = do
  found ← query env k (λ t. find_if (is_document tenant_id id) t.documents)
  or_fail found (domain not_found)

-- `UpdateDocumentName`
unfoldable pub update_document_name : Env → String → String → String → Edit (Unit {0})
update_document_name env tenant_id id name = do
  n ←
      write env 2 never "" (λ t. count_if (is_document tenant_id id) t.documents)
        (set_documents (is_document tenant_id id)
          (λ d. record d { name = name; updated_at = env.now }))
  fail_if (n == 0) (domain not_found)

-- ORDER BY updated_at DESC; rows with one time keep their order.
abbrev pub is_newer : Document → Document → Bool
is_newer a b = ltb b.updated_at a.updated_at

-- `ListDocuments`
unfoldable pub list_documents : Env → String → Edit (List Document)
list_documents env tenant_id =
    query env 1 (λ t. order_by is_newer (keep_if (λ d. str_eq d.tenant_id tenant_id) t.documents))

-- `ListDocumentsForUser`
unfoldable pub list_documents_for_user : Env → String → String → Edit (List Document)
list_documents_for_user env tenant_id user_id = query env 1 (λ t.
    order_by is_newer
      (keep_if (λ d. str_eq d.tenant_id tenant_id && str_eq d.created_by user_id) t.documents))

-- The transition trigger on the texts of the column: a changed status is legal only between two
-- states that it knows.
abbrev pub states_allow : Result StateError DocState → Result StateError DocState → Bool
states_allow (ok a) (ok b) = trigger_allows false a b
states_allow _ _ = false

abbrev pub column_allows : String → String → Bool
column_allows old new =
    str_eq old new || states_allow (state_from_string old) (state_from_string new)

-- The SET of `UpdateDocumentStatus`.
abbrev pub stamp_status : ℕ → DocumentStatus → Bool → Document → Document
stamp_status now finalized true d = record d {
  status = "finalized";
  finalized_at = some now;
  updated_at = now;
}
stamp_status now archived true d = record d {
  status = "archived";
  archived_at = some now;
  updated_at = now;
}
stamp_status now next _ d = record d { status = status_text next; updated_at = now }

abbrev pub has_status : String → String → DocumentStatus → Document → Bool
has_status tenant_id id cur d = is_document tenant_id id d && str_eq d.status (status_text cur)

-- `UpdateDocumentStatus`
unfoldable pub update_document_status :
    Env → String → String → DocumentStatus → DocumentStatus → Bool → Edit (Unit {0})
update_document_status env tenant_id id cur next stamp = do
  n ←
      write env 1
        (λ t.
          any
            (λ d. has_status tenant_id id cur d && not (column_allows d.status (status_text next)))
            t.documents)
        "enforce_document_transition" (λ t. count_if (has_status tenant_id id cur) t.documents)
        (set_documents (has_status tenant_id id cur) (stamp_status env.now next stamp))
  fail_if (n == 0) (domain invalid_state_transition)

-- `IsDocumentOwner`
unfoldable pub is_document_owner : Env → String → String → String → Edit Bool
is_document_owner env tenant_id id user_id =
    query env 1
      (λ t. any (λ d. is_document tenant_id id d && str_eq d.created_by user_id) t.documents)
