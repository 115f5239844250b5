-- ===== src/Editor/Checkpoints.antt =====
-- The statements on `document_checkpoints` and the reads of revisions
-- (documents_v2/repository/repository.go).
use metal_docs.Prelude.{
  ℕ, suc, String, Bool, true, false, not, ◌&&◌, ◌||◌, Option, none, some, List, [], ◌∷◌, ◌++◌,
}
use metal_docs.Prelude.Tests.{if◌then◌else◌, ltb, ◌==◌}
use metal_docs.Prelude.Text.{str_eq}
use metal_docs.Prelude.Lists.{any, keep_if, find_if, order_by}
use metal_docs.Prelude.Sql.{
  Env, database, domain, no_rows, ◌>>=◌, ◌>>◌, pure, fail_if, or_fail, query, exec, write,
}
use metal_docs.Editor.Tables.{
  Document, Revision, Checkpoint, Tables, Edit, session_inactive, session_not_holder,
  checkpoint_not_found, not_found, no_current_revision, is_active,
}
use metal_docs.Editor.Documents.{
  coalesce, set_documents, set_sessions, insert_revision, same_content,
}

-- `max(version_num)` of the checkpoints of a document, 0 without one.
abbrev pub max_version : String → List Checkpoint → ℕ
max_version doc_id [] = 0
max_version doc_id (c ∷ rows) =
    let rest = max_version doc_id rows in
    if str_eq c.document_id doc_id && ltb rest c.version_num then c.version_num else rest

-- The primary key and UNIQUE (document_id, version_num).
abbrev pub checkpoint_conflict : Checkpoint → Checkpoint → Bool
checkpoint_conflict new c =
    str_eq c.id new.id
    || (str_eq c.document_id new.document_id && (c.version_num == new.version_num))

-- `CreateCheckpoint`. A NULL head cannot be scanned into a text, which is an error of the driver.
unfoldable pub create_checkpoint : Env → String → String → String → Edit Checkpoint
create_checkpoint env doc_id actor_id label = do
  found ← query env 1 (λ t. find_if (λ (d : Document). str_eq d.id doc_id) t.documents)
  d ← or_fail found no_rows
  head ← or_fail d.current_revision_id (database 1)
  fail_if (str_eq head "") (domain no_current_revision)
  next ← query env 2 (λ t. suc (max_version doc_id t.checkpoints))
  let new : Checkpoint = record {
    id = env.uuid 0;
    document_id = doc_id;
    revision_id = head;
    version_num = next;
    label = label;
    created_at = env.now;
    created_by = actor_id;
  }
  write env 3 (λ t. any (checkpoint_conflict new) t.checkpoints)
      "document_checkpoints_document_id_version_num_key" (λ _. new)
      (λ t. record t { checkpoints = t.checkpoints ++ (new ∷ []) })

-- `ListCheckpoints`: ORDER BY version_num DESC
unfoldable pub list_checkpoints : Env → String → Edit (List Checkpoint)
list_checkpoints env doc_id = query env 1 (λ t.
    order_by (λ a b. ltb b.version_num a.version_num)
      (keep_if (λ (c : Checkpoint). str_eq c.document_id doc_id) t.checkpoints))

abbrev pub is_revision : String → String → Revision → Bool
is_revision doc_id id r = str_eq r.id id && str_eq r.document_id doc_id

-- `GetRevision`
unfoldable pub get_revision : Env → String → String → Edit Revision
get_revision env doc_id id = do
  found ← query env 1 (λ t. find_if (is_revision doc_id id) t.revisions)
  or_fail found (domain not_found)

pub record RestoreResult : Type 0 where
  pub new_revision_id : String
  pub new_revision_num : ℕ
  pub checkpoint_rev_id : String
  pub idempotent : Bool

-- The join of a checkpoint with its revision.
abbrev pub join_revision : List Revision → Option Checkpoint → Option Revision
join_revision revisions none = none
join_revision revisions (some c) = find_if (λ (r : Revision). str_eq r.id c.revision_id) revisions

abbrev pub is_checkpoint : String → ℕ → Checkpoint → Bool
is_checkpoint doc_id version c = str_eq c.document_id doc_id && (c.version_num == version)

abbrev pub checkpoint_revision : String → ℕ → Tables → Option Revision
checkpoint_revision doc_id version t =
    join_revision t.revisions (find_if (is_checkpoint doc_id version) t.checkpoints)

abbrev pub restored_revision : Env → String → String → String → Revision → Revision
restored_revision env doc_id head session_id r = record r {
  id = env.uuid 0;
  document_id = doc_id;
  parent_revision_id = some head;
  session_id = session_id;
  created_at = env.now;
}

-- INSERT … ON CONFLICT (document_id, content_hash) DO UPDATE, which leaves the row that is there and
-- takes a number of the sequence all the same; only a fresh row moves the head.
unfoldable pub restore_revision :
    Env → String → String → String → Revision → Option Revision → Edit RestoreResult
restore_revision env doc_id head session_id r (some row) = do
  exec env 4 (λ t. record t { next_revision_num = suc t.next_revision_num })
  pure (record {
    new_revision_id = row.id;
    new_revision_num = row.revision_num;
    checkpoint_rev_id = r.id;
    idempotent = true;
  })
restore_revision env doc_id head session_id r none = do
  num ← insert_revision env 4 (restored_revision env doc_id head session_id r)
  exec env 5 (
      set_documents (λ d. str_eq d.id doc_id)
        (λ d. record d {
          current_revision_id = some (env.uuid 0);
          form_data_json = r.form_data_snapshot;
          updated_at = env.now;
        }))
  exec env 6 (
      set_sessions (λ s. str_eq s.id session_id)
        (λ s. record s { last_acknowledged_revision_id = env.uuid 0 }))
  pure (record {
    new_revision_id = env.uuid 0;
    new_revision_num = num;
    checkpoint_rev_id = r.id;
    idempotent = false;
  })

-- `RestoreCheckpoint`
unfoldable pub restore_checkpoint : Env → String → String → ℕ → Edit RestoreResult
restore_checkpoint env doc_id actor_id version = do
  found ← query env 1 (λ t. find_if (λ (d : Document). str_eq d.id doc_id) t.documents)
  d ← or_fail found no_rows
  let session_id = coalesce d.active_session_id
  fail_if (str_eq session_id "") (domain session_inactive)
  holder ← query env 2 (λ t. find_if (λ s. str_eq s.id session_id) t.sessions)
  s ← or_fail holder no_rows
  fail_if (not (is_active s)) (domain session_inactive)
  fail_if (not (str_eq s.user_id actor_id)) (domain session_not_holder)
  joined ← query env 3 (checkpoint_revision doc_id version)
  r ← or_fail joined (domain checkpoint_not_found)
  row ← query env 4 (λ t. find_if (same_content doc_id r.content_hash) t.revisions)
  restore_revision env doc_id (coalesce d.current_revision_id) session_id r row
