-- ===== src/Editor/Service/Autosave.antt =====
-- Autosave (documents_v2/application/service.go): an upload is presigned, put into the storage by the
-- client, and committed once the service has hashed the object. The storage is a parameter.
use metal_docs.Prelude.{ℕ, String, Bool, true, false, ◌+◌}
use metal_docs.Prelude.Text.{str_eq}
use metal_docs.Prelude.Result.{Result, ok, err}
use metal_docs.Prelude.Sql.{Env, domain}
use metal_docs.Editor.Tables.{upload_missing, content_hash_mismatch, hash_failed, presign_failed}
use metal_docs.Editor.Uploads.{CommitResult, presign_reserve, get_pending_for_commit, commit_upload}
use metal_docs.Editor.Checkpoints.{get_revision}
use metal_docs.Editor.Service.{
  Serv, ◌>>=◌, ◌>>◌, done, stop_if, transact, execute, audit, delete_object, get_draft, autosaved,
}

-- What the object storage answers; `missing` is the error ErrUploadMissing.
pub data StorageError : Type 0 where
  missing other : StorageError

pub record Storage : Type 0 where
  pub hash_object : String → Result StorageError String
  pub presign_revision_put : String → String → String → Result StorageError (String × String)
  pub presign_object_get : String → Result StorageError String

pub record PresignAutosaveCmd : Type 0 where
  pub tenant_id : String
  pub actor_user_id : String
  pub document_id : String
  pub session_id : String
  pub base_revision_id : String
  pub content_hash : String

pub record PresignAutosaveResult : Type 0 where
  pub upload_url : String
  pub pending_upload_id : String
  pub expires_at : ℕ

unfoldable pub presigned : Result StorageError (String × String) → Serv (String × String)
presigned (ok p) w = (ok p, w)
presigned (err e) w = (err (domain presign_failed), w)

-- Fifteen minutes.
abbrev pub upload_seconds : ℕ
upload_seconds = 900

-- `PresignAutosave`
unfoldable pub presign_autosave :
    (ℕ → Env) → Storage → PresignAutosaveCmd → Serv PresignAutosaveResult
presign_autosave calls storage cmd = do
  get_draft (calls 0) cmd.tenant_id cmd.document_id
  put ← presigned (storage.presign_revision_put cmd.tenant_id cmd.document_id cmd.content_hash)
  let expires_at = (calls 1).now + upload_seconds
  id ← transact (calls 1) (
      presign_reserve (calls 1) cmd.session_id cmd.actor_user_id cmd.document_id
        cmd.base_revision_id cmd.content_hash put.1 expires_at)
  done (record { upload_url = put.0; pending_upload_id = id; expires_at = expires_at })

pub record CommitAutosaveCmd : Type 0 where
  pub tenant_id : String
  pub actor_user_id : String
  pub document_id : String
  pub session_id : String
  pub pending_upload_id : String
  pub form_data_snapshot : String

unfoldable pub hashed : Result StorageError String → Serv String
hashed (ok hash) w = (ok hash, w)
hashed (err missing) w = (err (domain upload_missing), w)
hashed (err other) w = (err (domain hash_failed), w)

-- An object whose content is not the one that was announced is deleted.
unfoldable pub check_hash : Bool → String → Serv (Unit {0})
check_hash true key = done tt
check_hash false key = do delete_object key; stop_if true content_hash_mismatch

-- Only a fresh commit is audited.
unfoldable pub audit_commit : CommitAutosaveCmd → CommitResult → Bool → Serv (Unit {0})
audit_commit cmd r true = done tt
audit_commit cmd r false =
    audit cmd.tenant_id cmd.actor_user_id cmd.document_id (autosaved r.revision_id r.revision_num)

-- `CommitAutosave`
unfoldable pub commit_autosave : (ℕ → Env) → Storage → CommitAutosaveCmd → Serv CommitResult
commit_autosave calls storage cmd = do
  get_draft (calls 0) cmd.tenant_id cmd.document_id
  meta ← execute (get_pending_for_commit (calls 1) cmd.pending_upload_id)
  hash ← hashed (storage.hash_object meta.storage_key)
  check_hash (str_eq hash meta.content_hash) meta.storage_key
  r ← transact (calls 2) (
      commit_upload (calls 2) cmd.session_id cmd.actor_user_id cmd.document_id cmd.pending_upload_id
        hash cmd.form_data_snapshot)
  audit_commit cmd r r.already_consumed
  done r

unfoldable pub presigned_get : Result StorageError String → Serv String
presigned_get (ok url) w = (ok url, w)
presigned_get (err e) w = (err (domain presign_failed), w)

-- `SignedRevisionURL`
unfoldable pub signed_revision_url : (ℕ → Env) → Storage → String → String → Serv String
signed_revision_url calls storage doc_id rev_id = do
  r ← execute (get_revision (calls 0) doc_id rev_id)
  presigned_get (storage.presign_object_get r.storage_key)
