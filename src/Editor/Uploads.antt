-- ===== src/Editor/Uploads.antt =====
-- The statements on `autosave_pending_uploads` (documents_v2/repository/repository.go): an upload is
-- reserved against the revision that the session has seen, and committed as the next revision.
use metal_docs.Prelude.{
  ℕ, String, Bool, true, false, not, ◌&&◌, ◌||◌, Option, none, some, [], ◌∷◌, ◌++◌,
}
use metal_docs.Prelude.Tests.{ltb}
use metal_docs.Prelude.Text.{str_eq}
use metal_docs.Prelude.Lists.{any, count_if, keep_if, find_if, update_where}
use metal_docs.Prelude.Sql.{
  Env, domain, no_rows, ◌>>=◌, ◌>>◌, pure, fail_if, or_fail, query, exec, write, never,
}
use metal_docs.Editor.Tables.{
  Revision, PendingUpload, Edit, pending_not_found, misbound, expired_upload, session_inactive,
  session_not_holder, stale_base, content_hash_mismatch, is_active,
}
use metal_docs.Editor.Documents.{set_documents, set_sessions, insert_revision, same_content}

-- UNIQUE (session_id, base_revision_id, content_hash)
abbrev pub same_upload : String → String → String → PendingUpload → Bool
same_upload session_id base hash p =
    str_eq p.session_id session_id && str_eq p.base_revision_id base && str_eq p.content_hash hash

-- INSERT … ON CONFLICT DO UPDATE, which leaves the row as it is and returns its id.
unfoldable pub reserve_upload : Env → PendingUpload → Option PendingUpload → Edit String
reserve_upload env new (some row) = write env 2 never "" (λ _. row.id) (λ t. t)
reserve_upload env new none =
    write env 2 (λ t. any (λ (p : PendingUpload). str_eq p.id new.id) t.pending_uploads)
      "autosave_pending_uploads_pkey" (λ _. new.id)
      (λ t. record t { pending_uploads = t.pending_uploads ++ (new ∷ []) })

-- `PresignReserve`
unfoldable pub presign_reserve :
    Env → String → String → String → String → String → String → ℕ → Edit String
presign_reserve env session_id user_id doc_id base hash storage_key expires_at = do
  found ← query env 1 (λ t. find_if (λ s. str_eq s.id session_id) t.sessions)
  s ← or_fail found no_rows
  fail_if (not (is_active s)) (domain session_inactive)
  fail_if (not (str_eq s.user_id user_id) || not (str_eq s.document_id doc_id))
      (domain session_not_holder)
  fail_if (not (str_eq s.last_acknowledged_revision_id base)) (domain stale_base)
  row ← query env 2 (λ t. find_if (same_upload session_id base hash) t.pending_uploads)
  reserve_upload env
      (record {
        id = env.uuid 0;
        session_id = session_id;
        document_id = doc_id;
        base_revision_id = base;
        content_hash = hash;
        storage_key = storage_key;
        presigned_at = env.now;
        expires_at = expires_at;
        consumed_at = none;
      })
      row

abbrev pub is_upload : String → PendingUpload → Bool
is_upload id p = str_eq p.id id

-- `GetPendingForCommit`
unfoldable pub get_pending_for_commit : Env → String → Edit PendingUpload
get_pending_for_commit env id = do
  found ← query env 1 (λ t. find_if (is_upload id) t.pending_uploads)
  or_fail found (domain pending_not_found)

pub record CommitResult : Type 0 where
  pub revision_id : String
  pub revision_num : ℕ
  pub already_consumed : Bool

abbrev pub is_past : ℕ → ℕ → Bool
is_past now at = ltb at now

abbrev pub revision_of_upload : Env → PendingUpload → String → Revision
revision_of_upload env p form_data = record {
  id = env.uuid 0;
  document_id = p.document_id;
  revision_num = 0;
  parent_revision_id = some p.base_revision_id;
  session_id = p.session_id;
  storage_key = p.storage_key;
  content_hash = p.content_hash;
  form_data_snapshot = form_data;
  created_at = env.now;
}

-- The writes of a fresh commit. `CommitUpload` has compared the caller's session and document with
-- those of the upload, so the row's own are written here.
unfoldable pub advance_head : Env → PendingUpload → String → Edit CommitResult
advance_head env p form_data = do
  num ← insert_revision env 3 (revision_of_upload env p form_data)
  exec env 4 (
      set_documents (λ d. str_eq d.id p.document_id)
        (λ d. record d {
          current_revision_id = some (env.uuid 0);
          form_data_json = form_data;
          updated_at = env.now;
        }))
  exec env 5 (
      set_sessions (λ s. str_eq s.id p.session_id)
        (λ s. record s { last_acknowledged_revision_id = env.uuid 0 }))
  exec env 6 (λ t. record t {
    pending_uploads =
        update_where (is_upload p.id) (λ p. record p { consumed_at = some env.now })
          t.pending_uploads;
  })
  pure (record { revision_id = env.uuid 0; revision_num = num; already_consumed = false })

-- An upload that was committed before: the revision is looked up by its content.
unfoldable pub replay_upload : Env → PendingUpload → Edit CommitResult
replay_upload env p = do
  found ← query env 2 (λ t. find_if (same_content p.document_id p.content_hash) t.revisions)
  r ← or_fail found no_rows
  pure (record { revision_id = r.id; revision_num = r.revision_num; already_consumed = true })

-- An upload that was not committed before.
unfoldable pub commit_fresh : Env → String → String → String → PendingUpload → Edit CommitResult
commit_fresh env user_id server_hash form_data p = do
  fail_if (is_past env.now p.expires_at) (domain expired_upload)
  found ← query env 2 (λ t. find_if (λ s. str_eq s.id p.session_id) t.sessions)
  s ← or_fail found no_rows
  fail_if (not (is_active s)) (domain session_inactive)
  fail_if (not (str_eq s.user_id user_id)) (domain session_not_holder)
  fail_if (not (str_eq s.last_acknowledged_revision_id p.base_revision_id)) (domain stale_base)
  fail_if (not (str_eq server_hash p.content_hash)) (domain content_hash_mismatch)
  advance_head env p form_data

unfoldable pub commit_or_replay :
    Env → String → String → String → PendingUpload → Option ℕ → Edit CommitResult
commit_or_replay env user_id server_hash form_data p (some _) = replay_upload env p
commit_or_replay env user_id server_hash form_data p none =
    commit_fresh env user_id server_hash form_data p

-- `CommitUpload`
unfoldable pub commit_upload :
    Env → String → String → String → String → String → String → Edit CommitResult
commit_upload env session_id user_id doc_id pending_id server_hash form_data = do
  found ← query env 1 (λ t. find_if (is_upload pending_id) t.pending_uploads)
  p ← or_fail found (domain pending_not_found)
  fail_if (not (str_eq p.session_id session_id) || not (str_eq p.document_id doc_id))
      (domain misbound)
  commit_or_replay env user_id server_hash form_data p p.consumed_at

abbrev pub is_orphan : ℕ → PendingUpload → Bool
is_orphan older_than p =
    ltb p.expires_at older_than && elim p.consumed_at [ none ↦ true | some _ ↦ false ]

-- `DeleteExpiredPending`
unfoldable pub delete_expired_pending : Env → ℕ → Edit ℕ
delete_expired_pending env older_than =
    write env 1 never "" (λ t. count_if (is_orphan older_than) t.pending_uploads)
      (λ t. record t {
        pending_uploads = keep_if (λ p. not (is_orphan older_than p)) t.pending_uploads;
      })
