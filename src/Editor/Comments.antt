-- ===== src/Editor/Comments.antt =====
-- The statements on `document_comments` (documents_v2/repository/repository.go), with the unique
-- index of migrations/0118_docx_v2_document_comments.sql.
use metal_docs.Prelude.{
  ℕ, String, Bool, true, false, not, ◌&&◌, ◌||◌, Option, none, some, List, [], ◌∷◌, ◌++◌,
}
use metal_docs.Prelude.Tests.{ltb, ◌==◌}
use metal_docs.Prelude.Text.{str_eq}
use metal_docs.Prelude.Lists.{any, count_if, keep_if, find_if, update_where, order_by}
use metal_docs.Prelude.Int.{ℤ, eqb_ℤ}
use metal_docs.Prelude.Sql.{Env, domain, ◌>>=◌, fail_if, pure, or_fail, query, write, never}
use metal_docs.Editor.Tables.{
  Comment, CommentCreateInput, CommentUpdateInput, Edit, comment_not_found,
}

-- The primary key and the index idx_document_comments_doc_lib.
abbrev pub comment_conflict : Comment → Comment → Bool
comment_conflict new c =
    str_eq c.id new.id
    || (str_eq c.document_id new.document_id && eqb_ℤ c.library_comment_id new.library_comment_id)

-- `CreateComment`
unfoldable pub create_comment : Env → String → String → String → CommentCreateInput → Edit Comment
create_comment env tenant_id doc_id author_id input =
    let new : Comment = record {
      id = env.uuid 0;
      tenant_id = tenant_id;
      document_id = doc_id;
      library_comment_id = input.library_comment_id;
      parent_library_id = input.parent_library_id;
      author_id = author_id;
      author_display = input.author_display;
      content_json = input.content_json;
      resolved_at = none;
      resolved_by = none;
      created_at = env.now;
      updated_at = env.now;
    } in
    write env 1 (λ t. any (comment_conflict new) t.comments) "idx_document_comments_doc_lib"
      (λ _. new) (λ t. record t { comments = t.comments ++ (new ∷ []) })

-- `ListComments`: ORDER BY created_at
unfoldable pub list_comments : Env → String → String → Edit (List Comment)
list_comments env tenant_id doc_id = query env 1 (λ t.
    order_by (λ a b. ltb a.created_at b.created_at)
      (keep_if (λ (c : Comment). str_eq c.tenant_id tenant_id && str_eq c.document_id doc_id)
        t.comments))

abbrev pub is_comment : String → String → ℤ → Comment → Bool
is_comment tenant_id doc_id library_id c =
    str_eq c.tenant_id tenant_id
    && str_eq c.document_id doc_id
    && eqb_ℤ c.library_comment_id library_id

abbrev pub resolve_comment : ℕ → String → Option Bool → Comment → Comment
resolve_comment now user_id none c = c
resolve_comment now user_id (some true) c = record c {
  resolved_at = some now;
  resolved_by = some user_id;
}
resolve_comment now user_id (some false) c = record c { resolved_at = none; resolved_by = none }

abbrev pub update_content : Option String → Comment → Comment
update_content none c = c
update_content (some content) c = record c { content_json = content }

abbrev pub edit_comment : ℕ → String → CommentUpdateInput → Comment → Comment
edit_comment now user_id input c =
    record (resolve_comment now user_id input.done (update_content input.content_json c)) {
      updated_at = now;
    }

-- `UpdateComment`. Where the code reports that no row was changed, none was.
unfoldable pub update_comment :
    Env → String → String → ℤ → String → CommentUpdateInput → Edit Comment
update_comment env tenant_id doc_id library_id user_id input = do
  found ←
      write env 1 never "" (λ t. find_if (is_comment tenant_id doc_id library_id) t.comments)
        (λ t. record t {
          comments =
              update_where (is_comment tenant_id doc_id library_id)
                (edit_comment env.now user_id input) t.comments;
        })
  c ← or_fail found (domain comment_not_found)
  pure (edit_comment env.now user_id input c)

abbrev pub is_thread : String → String → ℤ → Comment → Bool
is_thread tenant_id doc_id library_id c =
    str_eq c.tenant_id tenant_id
    && str_eq c.document_id doc_id
    && (eqb_ℤ c.library_comment_id library_id
        || elim c.parent_library_id [ none ↦ false | some parent ↦ eqb_ℤ parent library_id ])

-- `DeleteComment`: the comment and its replies.
unfoldable pub delete_comment : Env → String → String → ℤ → Edit (Unit {0})
delete_comment env tenant_id doc_id library_id = do
  n ←
      write env 1 never "" (λ t. count_if (is_thread tenant_id doc_id library_id) t.comments)
        (λ t. record t {
          comments = keep_if (λ c. not (is_thread tenant_id doc_id library_id c)) t.comments;
        })
  fail_if (n == 0) (domain comment_not_found)
