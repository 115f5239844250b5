-- ===== src/Editor/System.antt =====
-- The editor as a system: any sequence of calls of the repository, each with its own clock, generated
-- identifiers and failures.
use metal_docs.Prelude.{ℕ, String, Bool, List, [], ◌∷◌}
use metal_docs.Prelude.Int.{ℤ}
use metal_docs.Prelude.Sql.{Env, autocommit, transaction}
use metal_docs.Editor.Tables.{
  Document, DocumentStatus, Tables, Edit, CommentCreateInput, CommentUpdateInput,
}
use metal_docs.Editor.Documents.{
  create_document, set_revision_storage_key, update_document_name, update_document_status,
}
use metal_docs.Editor.Sessions.{
  acquire_session, heartbeat_session, release_session, force_release_session, expire_stale_sessions,
}
use metal_docs.Editor.Uploads.{presign_reserve, commit_upload, delete_expired_pending}
use metal_docs.Editor.Checkpoints.{create_checkpoint, restore_checkpoint}
use metal_docs.Editor.Comments.{create_comment, update_comment, delete_comment}

-- The calls that change the tables, with the arguments of the methods.
pub data Call : Type 0 where
  creates : Document → String → Call
  sets_key : String → String → Call
  renames : String → String → String → Call
  sets_status : String → String → DocumentStatus → DocumentStatus → Bool → Call
  acquires : String → String → String → Call
  heartbeats : String → String → Call
  releases : String → String → Call
  force_releases : String → Call
  expires : ℕ → Call
  presigns : String → String → String → String → String → String → ℕ → Call
  commits : String → String → String → String → String → String → Call
  deletes_pending : ℕ → Call
  checkpoints : String → String → String → Call
  restores : String → String → ℕ → Call
  comments : String → String → String → CommentCreateInput → Call
  edits_comment : String → String → ℤ → String → CommentUpdateInput → Call
  deletes_comment : String → String → ℤ → Call

abbrev last_statement : ℕ
last_statement = 9

-- A method that opens a transaction, and one that is a statement of its own.
unfoldable pub in_transaction : {A : Type 0} → Env → Edit A → Tables → Tables
in_transaction env m t = (transaction env last_statement m t).1

unfoldable pub at_once : {A : Type 0} → Edit A → Tables → Tables
at_once m t = (autocommit m t).1

-- The tables after a call.
unfoldable pub perform : Env → Call → Tables → Tables
perform env (creates d hash) = in_transaction env (create_document env d hash)
perform env (sets_key id key) = at_once (set_revision_storage_key env id key)
perform env (renames tenant id name) = at_once (update_document_name env tenant id name)
perform env (sets_status tenant id cur next stamp) =
    at_once (update_document_status env tenant id cur next stamp)
perform env (acquires tenant doc user) = in_transaction env (acquire_session env tenant doc user)
perform env (heartbeats id user) = at_once (heartbeat_session env id user)
perform env (releases id user) = in_transaction env (release_session env id user)
perform env (force_releases id) = in_transaction env (force_release_session env id)
perform env (expires now) = λ t. (expire_stale_sessions env now t).1
perform env (presigns session user doc base hash key at) =
    in_transaction env (presign_reserve env session user doc base hash key at)
perform env (commits session user doc id hash form) =
    in_transaction env (commit_upload env session user doc id hash form)
perform env (deletes_pending older) = at_once (delete_expired_pending env older)
perform env (checkpoints doc actor label) =
    in_transaction env (create_checkpoint env doc actor label)
perform env (restores doc actor version) =
    in_transaction env (restore_checkpoint env doc actor version)
perform env (comments tenant doc author input) =
    at_once (create_comment env tenant doc author input)
perform env (edits_comment tenant doc id user input) =
    at_once (update_comment env tenant doc id user input)
perform env (deletes_comment tenant doc id) = at_once (delete_comment env tenant doc id)

unfoldable pub perform_all : List (Env × Call) → Tables → Tables
perform_all [] t = t
perform_all ((env, call) ∷ calls) t = perform_all calls (perform env call t)
