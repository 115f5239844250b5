-- ===== src/Editor/Service/Documents.antt =====
-- Names, comments, statuses and checkpoints (documents_v2/application/service.go). The comments'
-- JSON is an opaque text.
use metal_docs.Prelude.{
  ℕ, String, Bool, true, false, not, ◌&&◌, ◌||◌, Option, none, some, List, [], ◌∷◌, ◌+◌,
}
use metal_docs.Prelude.Tests.{if◌then◌else◌, ltb, leb, ◌==◌}
use metal_docs.Prelude.Text.{str_eq, codes}
use metal_docs.Prelude.Lists.{any}
use metal_docs.Prelude.Int.{ℤ, pos, ltb_ℤ}
use Prim.Native.Char.{Char, code}
use metal_docs.Prelude.Sql.{Env}
use metal_docs.Editor.Tables.{
  DocumentStatus, draft, finalized, archived, Checkpoint, Comment, CommentCreateInput,
  CommentUpdateInput, invalid_name, comment_invalid,
}
use metal_docs.Editor.Documents.{update_document_name, update_document_status}
use metal_docs.Editor.Checkpoints.{RestoreResult, create_checkpoint, restore_checkpoint}
use metal_docs.Editor.Comments.{create_comment, update_comment, delete_comment}
use metal_docs.Editor.Service.{
  Serv, ◌>>=◌, ◌>>◌, done, stop_if, transact, execute, audit, get_draft, renamed,
  checkpoint_created, checkpoint_restored, document_finalized, document_archived,
}

-- `unicode.IsSpace`
abbrev pub is_space : ℕ → Bool
is_space c =
    any (λ s. c == s)
      (9 ∷ 10 ∷ 11 ∷ 12 ∷ 13 ∷ 32 ∷ 133 ∷ 160 ∷ 5760 ∷ 8232 ∷ 8233 ∷ 8239 ∷ 8287 ∷ 12288 ∷ [])
    || (leb 8192 c && leb c 8202)

abbrev pub trim_left : String → String
trim_left String.[] = ""
trim_left (String.◌∷◌ c s) =
    let rest = trim_left s in if is_space (code c) then rest else String.◌∷◌ c s

-- A space that no other character follows is dropped.
abbrev pub drop_if_last : Char → String → String
drop_if_last c String.[] = if is_space (code c) then "" else String.◌∷◌ c String.[]
drop_if_last c (String.◌∷◌ d s) = String.◌∷◌ c (String.◌∷◌ d s)

abbrev pub trim_right : String → String
trim_right String.[] = ""
trim_right (String.◌∷◌ c s) = drop_if_last c (trim_right s)

-- `strings.TrimSpace`
abbrev pub trim_space : String → String
trim_space s = trim_right (trim_left s)

-- `len` of a text: the bytes of its UTF-8 form.
abbrev pub utf8_bytes : ℕ → ℕ
utf8_bytes c = if ltb c 128 then 1 else if ltb c 2048 then 2 else if ltb c 65536 then 3 else 4

abbrev pub sum_bytes : List ℕ → ℕ
sum_bytes [] = 0
sum_bytes (c ∷ rest) = utf8_bytes c + sum_bytes rest

abbrev pub byte_length : String → ℕ
byte_length s = sum_bytes (codes s)

abbrev pub is_bad_label : String → Bool
is_bad_label s = str_eq s "" || ltb 255 (byte_length s)

-- `RenameDocument`
unfoldable pub rename_document : (ℕ → Env) → String → String → String → String → Serv (Unit {0})
rename_document calls tenant_id user_id doc_id new_name = do
  let name = trim_space new_name
  stop_if (is_bad_label name) invalid_name
  get_draft (calls 0) tenant_id doc_id
  execute (update_document_name (calls 1) tenant_id doc_id name)
  audit tenant_id user_id doc_id (renamed name)

abbrev pub is_not_positive : ℤ → Bool
is_not_positive n = not (ltb_ℤ (pos 0) n)

-- `AddDocumentComment`
unfoldable pub add_document_comment :
    (ℕ → Env) → String → String → String → String → CommentCreateInput → Serv Comment
add_document_comment calls tenant_id user_id author_display doc_id input = do
  stop_if (is_not_positive input.library_comment_id) comment_invalid
  stop_if (byte_length input.content_json == 0) comment_invalid
  let author = trim_space author_display
  stop_if (is_bad_label author) comment_invalid
  execute
      (create_comment (calls 0) tenant_id doc_id user_id (record input { author_display = author }))

abbrev pub is_empty_content : Option String → Bool
is_empty_content none = false
is_empty_content (some content) = byte_length content == 0

-- `UpdateDocumentComment`
unfoldable pub update_document_comment :
    (ℕ → Env) → String → String → String → ℤ → CommentUpdateInput → Serv Comment
update_document_comment calls tenant_id user_id doc_id library_id input = do
  stop_if (is_not_positive library_id) comment_invalid
  stop_if (is_empty_content input.content_json) comment_invalid
  execute (update_comment (calls 0) tenant_id doc_id library_id user_id input)

-- `DeleteDocumentComment`
unfoldable pub delete_document_comment : (ℕ → Env) → String → String → ℤ → Serv (Unit {0})
delete_document_comment calls tenant_id doc_id library_id = do
  stop_if (is_not_positive library_id) comment_invalid
  execute (delete_comment (calls 0) tenant_id doc_id library_id)

-- `Finalize`
unfoldable pub finalize : (ℕ → Env) → String → String → String → Serv (Unit {0})
finalize calls tenant_id doc_id actor_id = do
  execute (update_document_status (calls 0) tenant_id doc_id draft finalized true)
  audit tenant_id actor_id doc_id document_finalized

-- `Archive`
abbrev pub archived_from : Bool → DocumentStatus
archived_from true = finalized
archived_from false = draft

unfoldable pub archive : (ℕ → Env) → String → String → String → Bool → Serv (Unit {0})
archive calls tenant_id doc_id actor_id from_finalized = do
  execute (
      update_document_status (calls 0) tenant_id doc_id (archived_from from_finalized) archived
        true)
  audit tenant_id actor_id doc_id document_archived

-- `CreateCheckpoint`
unfoldable pub create_document_checkpoint :
    (ℕ → Env) → String → String → String → String → Serv Checkpoint
create_document_checkpoint calls tenant_id doc_id actor_id label = do
  c ← transact (calls 0) (create_checkpoint (calls 0) doc_id actor_id label)
  audit tenant_id actor_id doc_id (checkpoint_created c.version_num label)
  done c

-- `RestoreCheckpoint`
unfoldable pub restore_document_checkpoint :
    (ℕ → Env) → String → String → String → ℕ → Serv RestoreResult
restore_document_checkpoint calls tenant_id doc_id actor_id version = do
  r ← transact (calls 0) (restore_checkpoint (calls 0) doc_id actor_id version)
  audit tenant_id actor_id doc_id (
      checkpoint_restored version r.new_revision_id r.new_revision_num r.checkpoint_rev_id
        r.idempotent)
  done r
