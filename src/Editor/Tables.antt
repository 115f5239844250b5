-- ===== src/Editor/Tables.antt =====
-- The tables of the editor (migrations/0110_docx_v2_documents.sql, 0118_docx_v2_document_comments.sql)
-- with the types of documents_v2/domain/model.go and comment.go. JSON documents are opaque texts, a
-- NULL is `none`, and a time is a number.
use metal_docs.Prelude.{ℕ, String, Bool, true, false, Option, List}
use metal_docs.Prelude.Int.{ℤ}
use metal_docs.Registry.{ResolutionError}
use metal_docs.Prelude.Sql.{Tx}

-- The statuses that the editor writes, and their texts in the column.
pub data DocumentStatus : Type 0 where
  draft finalized archived : DocumentStatus

abbrev pub status_text : DocumentStatus → String
status_text draft = "draft"
status_text finalized = "finalized"
status_text archived = "archived"

pub data SessionStatus : Type 0 where
  active expired released force_released : SessionStatus

-- A row of `documents`. The approval engine writes further statuses to the same column, so it is
-- a text here.
pub record Document : Type 0 where
  pub id : String
  pub tenant_id : String
  pub template_version_id : String
  pub name : String
  pub status : String
  pub form_data_json : String
  pub current_revision_id : Option String
  pub active_session_id : Option String
  pub finalized_at : Option ℕ
  pub archived_at : Option ℕ
  pub created_at : ℕ
  pub updated_at : ℕ
  pub created_by : String
  pub controlled_document_id : Option String
  pub profile_code_snapshot : Option String
  pub process_area_code_snapshot : Option String

pub record Session : Type 0 where
  pub id : String
  pub document_id : String
  pub user_id : String
  pub acquired_at : ℕ
  pub expires_at : ℕ
  pub released_at : Option ℕ
  pub last_acknowledged_revision_id : String
  pub status : SessionStatus

pub record Revision : Type 0 where
  pub id : String
  pub document_id : String
  pub revision_num : ℕ
  pub parent_revision_id : Option String
  pub session_id : String
  pub storage_key : String
  pub content_hash : String
  pub form_data_snapshot : String
  pub created_at : ℕ

pub record PendingUpload : Type 0 where
  pub id : String
  pub session_id : String
  pub document_id : String
  pub base_revision_id : String
  pub content_hash : String
  pub storage_key : String
  pub presigned_at : ℕ
  pub expires_at : ℕ
  pub consumed_at : Option ℕ

pub record Checkpoint : Type 0 where
  pub id : String
  pub document_id : String
  pub revision_id : String
  pub version_num : ℕ
  pub label : String
  pub created_at : ℕ
  pub created_by : String

pub record Comment : Type 0 where
  pub id : String
  pub tenant_id : String
  pub document_id : String
  pub library_comment_id : ℤ
  pub parent_library_id : Option ℤ
  pub author_id : String
  pub author_display : String
  pub content_json : String
  pub resolved_at : Option ℕ
  pub resolved_by : Option String
  pub created_at : ℕ
  pub updated_at : ℕ

pub record CommentCreateInput : Type 0 where
  pub library_comment_id : ℤ
  pub parent_library_id : Option ℤ
  pub author_display : String
  pub content_json : String

pub record CommentUpdateInput : Type 0 where
  pub content_json : Option String
  pub done : Option Bool

-- The errors of the domain. `no_current_revision` and `key_already_set` are those
-- that the repository builds in place; `hash_failed`, `presign_failed` and `outside` are errors of other
-- components, numbered by the call.
pub data EditorError : Type 0 where
  invalid_state_transition session_inactive session_not_holder stale_base misbound : EditorError
  expired_upload content_hash_mismatch pending_not_found upload_missing : EditorError
  checkpoint_not_found not_found invalid_name comment_not_found comment_invalid : EditorError
  no_current_revision key_already_set : EditorError
  hash_failed presign_failed : EditorError
  controlled_document_required cd_not_active form_data_invalid : EditorError
  not_configured : String → EditorError
  unresolved : ResolutionError → EditorError
  outside : ℕ → EditorError

-- `next_revision_num` is the sequence of the BIGSERIAL column `revision_num`: one for all documents.
pub record Tables : Type 0 where
  pub documents : List Document
  pub sessions : List Session
  pub revisions : List Revision
  pub pending_uploads : List PendingUpload
  pub checkpoints : List Checkpoint
  pub comments : List Comment
  pub next_revision_num : ℕ

abbrev pub Edit : Type 0 → Type 0
Edit A = Tx EditorError Tables A

abbrev pub is_active : Session → Bool
is_active s = elim s.status [ active ↦ true | _ ↦ false ]
