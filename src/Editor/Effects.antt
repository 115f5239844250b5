-- ===== src/Editor/Effects.antt =====
-- What the success of a method of the repository has done to the tables, method by method.
pub mod Uploads
pub mod Checkpoints
pub mod Calls
use metal_docs.Prelude.{
  ℕ, suc, String, ◌≡◌, refl, sym, ◌⊎◌, inl, inr, Bool, true, false, not, ◌&&◌, ◌||◌, Option, none,
  some, List, [], ◌∷◌, ◌++◌,
}
use metal_docs.Prelude.Tests.{if◌then◌else◌, ◌==◌}
use metal_docs.Prelude.Text.{str_eq}
use metal_docs.Prelude.Lists.{any, count_if, find_if, update_where}
use metal_docs.Prelude.Result.{Result, ok}
use metal_docs.Prelude.Sql.{Env, ◌>>=◌, pure, write}
use metal_docs.Prelude.Committed.{
  past_query, past_exec, past_write, past_fail_if, past_or_fail, pure-ok, fail_if-ok, write-ok,
}
use metal_docs.Editor.Tables.{
  status_text, Document, DocumentStatus, Session, Revision, PendingUpload, Checkpoint, Tables,
  is_active,
}
use metal_docs.Editor.Documents.{
  nil_uuid, new_document, new_session, first_revision, session_conflict, revision_conflict,
  append_revision, set_documents, set_sessions, lacks_key, is_document, has_status, stamp_status,
  create_document, set_revision_storage_key, update_document_name, update_document_status,
  insert_session, insert_revision, column_allows,
}

-- The tables after `CreateDocument`.
abbrev pub created : Env → Document → String → Tables → Tables
created env d hash t =
    set_documents (λ d. str_eq d.id (env.uuid 0))
      (λ d. record d {
        current_revision_id = some (env.uuid 2);
        active_session_id = some (env.uuid 1);
        updated_at = env.now;
      })
      (set_sessions (λ s. str_eq s.id (env.uuid 1))
        (λ s. record s { last_acknowledged_revision_id = env.uuid 2 })
        (append_revision (first_revision env d hash) (record t {
          documents = t.documents ++ (new_document env d ∷ []);
          sessions = t.sessions ++ (new_session env 1 (env.uuid 0) d.created_by nil_uuid ∷ []);
        })))

pub record IsCreated (env : Env) (d : Document) (hash : String) (t after : Tables) : Type 0 where
  pub fresh_document : any (λ (row : Document). str_eq row.id (env.uuid 0)) t.documents ≡ false
  pub fresh_session :
      any (session_conflict (new_session env 1 (env.uuid 0) d.created_by nil_uuid)) t.sessions
      ≡ false
  pub fresh_revision : any (revision_conflict (first_revision env d hash)) t.revisions ≡ false
  pub tables : after ≡ created env d hash t

pub create_document-ok :
    (env : Env) (d : Document) (hash : String) (t : Tables) {a : String × String × String}
    {after : Tables}
    → create_document env d hash t ≡ ok (a, after)
    → IsCreated env d hash t after
unfolding create_document insert_session insert_revision
create_document-ok env d hash t h =
    let (fresh_document, h) = past_write env 1 _ _ _ _ _ t h in
    let (fresh_session, h) = past_write env 2 _ _ _ _ _ _ h in
    let (fresh_revision, h) = past_write env 3 _ _ _ _ _ _ h in
    let (_, tables) = pure-ok _ _ (past_exec env 5 _ _ _ (past_exec env 4 _ _ _ h)) in
    record {
      fresh_document = fresh_document;
      fresh_session = fresh_session;
      fresh_revision = fresh_revision;
      tables = sym tables;
    }

pub set_revision_storage_key-ok :
    (env : Env) (id key : String) (t : Tables) {a : Unit {0}} {after : Tables}
    → set_revision_storage_key env id key t ≡ ok (a, after)
    → after ≡ record t {
      revisions = update_where (lacks_key id) (λ r. record r { storage_key = key }) t.revisions;
    }
unfolding set_revision_storage_key
set_revision_storage_key-ok env id key t h =
    sym (fail_if-ok _ _ _ (past_write env 1 _ _ _ _ _ t h).1).1

pub update_document_name-ok :
    (env : Env) (tenant id name : String) (t : Tables) {a : Unit {0}} {after : Tables}
    → update_document_name env tenant id name t ≡ ok (a, after)
    → after
      ≡ set_documents
          (is_document tenant id)
          (λ d. record d { name = name; updated_at = env.now })
          t
unfolding update_document_name
update_document_name-ok env tenant id name t h =
    sym (fail_if-ok _ _ _ (past_write env 2 _ _ _ _ _ t h).1).1

pub update_document_status-ok :
    (env : Env) (tenant id : String) (cur next : DocumentStatus) (stamp : Bool) (t : Tables)
    {a : Unit {0}} {after : Tables}
    → update_document_status env tenant id cur next stamp t ≡ ok (a, after)
    → (any
          (λ d. has_status tenant id cur d && not (column_allows d.status (status_text next)))
          t.documents
        ≡ false)
      × ((count_if (has_status tenant id cur) t.documents == 0) ≡ false)
      × (after ≡ set_documents (has_status tenant id cur) (stamp_status env.now next stamp) t)
unfolding update_document_status
update_document_status-ok env tenant id cur next stamp t h =
    let (legal, h) = past_write env 1 _ _ _ _ _ t h in
    let (some_row, tables) = fail_if-ok _ _ _ h in (legal, some_row, sym tables)
