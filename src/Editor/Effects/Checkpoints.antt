-- ===== src/Editor/Effects/Checkpoints.antt =====
-- What the success of a checkpoint, of a restore and of a comment requires, and what it has done to
-- the tables.
use metal_docs.Prelude.{
  ℕ, suc, String, ◌≡◌, refl, sym, ap, ◌∙◌, ◌⊎◌, inl, inr, true, false, Option, none, some, List, [],
  ◌∷◌, ◌++◌,
}
use metal_docs.Prelude.Tests.{not-false}
use metal_docs.Prelude.Text.{str_eq, str_eq_iff}
use metal_docs.Prelude.Lists.{any, find_if}
use metal_docs.Prelude.Int.{ℤ}
use metal_docs.Prelude.Result.{ok}
use metal_docs.Prelude.Sql.{Env}
use metal_docs.Prelude.Committed.{
  past_query, past_exec, past_write, past_fail_if, past_or_fail, pure-ok, write-ok, fail_if-ok,
}
use metal_docs.Editor.Tables.{
  Document, Session, Revision, Checkpoint, Comment, Tables, CommentCreateInput, CommentUpdateInput,
  is_active,
}
use metal_docs.Editor.Documents.{
  coalesce, revision_conflict, append_revision, set_documents, set_sessions, insert_revision,
  same_content,
}
use metal_docs.Editor.Checkpoints.{
  RestoreResult, max_version, create_checkpoint, checkpoint_revision, restored_revision,
  restore_revision, restore_checkpoint,
}
use metal_docs.Editor.Comments.{create_comment, update_comment, delete_comment}

abbrev pub checkpoint_of : Env → String → String → String → String → Tables → Checkpoint
checkpoint_of env doc_id head actor_id label t = record {
  id = env.uuid 0;
  document_id = doc_id;
  revision_id = head;
  version_num = suc (max_version doc_id t.checkpoints);
  label = label;
  created_at = env.now;
  created_by = actor_id;
}

pub record IsCheckpointed (env : Env) (doc_id actor_id label : String) (t : Tables) (a : Checkpoint)
    (after : Tables) : Type 0 where
  pub document : Document
  pub found : find_if (λ (d : Document). str_eq d.id doc_id) t.documents ≡ some document
  pub head : String
  pub at_head : document.current_revision_id ≡ some head
  pub value : a ≡ checkpoint_of env doc_id head actor_id label t
  pub tables : after ≡ record t { checkpoints = t.checkpoints ++ (a ∷ []) }

pub create_checkpoint-ok :
    (env : Env) (doc_id actor_id label : String) (t : Tables) {a : Checkpoint} {after : Tables}
    → create_checkpoint env doc_id actor_id label t ≡ ok (a, after)
    → IsCheckpointed env doc_id actor_id label t a after
unfolding create_checkpoint
create_checkpoint-ok env doc_id actor_id label t h =
    let (d, found, h) = past_or_fail _ _ _ t (past_query env 1 _ _ t h) in
    let (head, at_head, h) = past_or_fail _ _ _ t h in
    let (_, h) = past_fail_if _ _ _ t h in
    let (_, value, tables) = write-ok env 3 _ _ _ _ t (past_query env 2 _ _ t h) in
    record {
      document = d;
      found = found;
      head = head;
      at_head = at_head;
      value = sym value;
      tables = sym tables ∙ ap (λ c. record t { checkpoints = t.checkpoints ++ (c ∷ []) }) value;
    }

-- The tables after a restore that made a revision.
abbrev pub restored : Env → String → String → String → Revision → Tables → Tables
restored env doc_id head session_id r t =
    set_sessions (λ s. str_eq s.id session_id)
      (λ s. record s { last_acknowledged_revision_id = env.uuid 0 })
      (set_documents (λ d. str_eq d.id doc_id)
        (λ d. record d {
          current_revision_id = some (env.uuid 0);
          form_data_json = r.form_data_snapshot;
          updated_at = env.now;
        })
        (append_revision (restored_revision env doc_id head session_id r) t))

pub record IsRestored (env : Env) (doc_id actor_id : String) (version : ℕ) (t : Tables)
    (a : RestoreResult) (after : Tables) : Type 0 where
  pub document : Document
  pub found : find_if (λ (d : Document). str_eq d.id doc_id) t.documents ≡ some document
  pub session : Session
  pub holder :
      find_if (λ s. str_eq s.id (coalesce document.active_session_id)) t.sessions ≡ some session
  pub alive : is_active session ≡ true
  pub user : session.user_id ≡ actor_id
  pub revision : Revision
  pub joined : checkpoint_revision doc_id version t ≡ some revision
  pub outcome :
      ((row : Revision) × (find_if (same_content doc_id revision.content_hash) t.revisions
          ≡ some row)
        × (a ≡ record {
          new_revision_id = row.id;
          new_revision_num = row.revision_num;
          checkpoint_rev_id = revision.id;
          idempotent = true;
        })
        × (after ≡ record t { next_revision_num = suc t.next_revision_num }))
      ⊎ ((find_if (same_content doc_id revision.content_hash) t.revisions ≡ none)
          × (any
                (revision_conflict (
                  restored_revision env doc_id
                    (coalesce document.current_revision_id)
                    (coalesce document.active_session_id)
                    revision))
                t.revisions
              ≡ false)
          × (after
              ≡ restored env doc_id
                  (coalesce document.current_revision_id)
                  (coalesce document.active_session_id)
                  revision
                  t))

restore_revision-ok :
    (env : Env) (doc_id head session_id : String) (r : Revision) (o : Option Revision) (t : Tables)
    {a : RestoreResult} {after : Tables}
    → restore_revision env doc_id head session_id r o t ≡ ok (a, after)
    → ((row : Revision) × (o ≡ some row)
        × (a ≡ record {
          new_revision_id = row.id;
          new_revision_num = row.revision_num;
          checkpoint_rev_id = r.id;
          idempotent = true;
        })
        × (after ≡ record t { next_revision_num = suc t.next_revision_num }))
      ⊎ ((o ≡ none)
          × (any (revision_conflict (restored_revision env doc_id head session_id r)) t.revisions
              ≡ false)
          × (after ≡ restored env doc_id head session_id r t))
unfolding restore_revision insert_revision
restore_revision-ok env doc_id head session_id r (some row) t h =
    let (value, tables) = pure-ok _ _ (past_exec env 4 _ _ t h) in
    inl (row, refl, sym value, sym tables)
restore_revision-ok env doc_id head session_id r none t h =
    let (fresh, h) = past_write env 4 _ _ _ _ _ t h in
    let (_, tables) = pure-ok _ _ (past_exec env 6 _ _ _ (past_exec env 5 _ _ _ h)) in
    inr (refl, fresh, sym tables)

pub restore_checkpoint-ok :
    (env : Env) (doc_id actor_id : String) (version : ℕ) (t : Tables) {a : RestoreResult}
    {after : Tables}
    → restore_checkpoint env doc_id actor_id version t ≡ ok (a, after)
    → IsRestored env doc_id actor_id version t a after
unfolding restore_checkpoint
restore_checkpoint-ok env doc_id actor_id version t h =
    let (d, found, h) = past_or_fail _ _ _ t (past_query env 1 _ _ t h) in
    let (_, h) = past_fail_if _ _ _ t h in
    let (s, holder, h) = past_or_fail _ _ _ t (past_query env 2 _ _ t h) in
    let (alive, h) = past_fail_if _ _ _ t h in
    let (user, h) = past_fail_if _ _ _ t h in
    let (r, joined, h) = past_or_fail _ _ _ t (past_query env 3 _ _ t h) in
    record {
      document = d;
      found = found;
      session = s;
      holder = holder;
      alive = not-false _ alive;
      user = (str_eq_iff s.user_id actor_id).0 (not-false _ user);
      revision = r;
      joined = joined;
      outcome =
          restore_revision-ok env doc_id (coalesce d.current_revision_id)
            (coalesce d.active_session_id) r _ t (past_query env 4 _ _ t h);
    }

-- A change of a comment leaves every other table as it is.
pub create_comment-ok :
    (env : Env) (tenant doc author : String) (input : CommentCreateInput) (t : Tables) {a : Comment}
    {after : Tables}
    → create_comment env tenant doc author input t ≡ ok (a, after)
    → (rows : List Comment) × (after ≡ record t { comments = rows })
unfolding create_comment
create_comment-ok env tenant doc author input t h = (_, sym (write-ok env 1 _ _ _ _ t h).2)

pub update_comment-ok :
    (env : Env) (tenant doc : String) (id : ℤ) (user : String) (input : CommentUpdateInput)
    (t : Tables) {a : Comment} {after : Tables}
    → update_comment env tenant doc id user input t ≡ ok (a, after)
    → (rows : List Comment) × (after ≡ record t { comments = rows })
unfolding update_comment
update_comment-ok env tenant doc id user input t h =
    let (_, h) = past_write env 1 _ _ _ _ _ t h in
    let (c, found, h) = past_or_fail _ _ _ _ h in (_, sym (pure-ok _ _ h).1)

pub delete_comment-ok :
    (env : Env) (tenant doc : String) (id : ℤ) (t : Tables) {a : Unit {0}} {after : Tables}
    → delete_comment env tenant doc id t ≡ ok (a, after)
    → (rows : List Comment) × (after ≡ record t { comments = rows })
unfolding delete_comment
delete_comment-ok env tenant doc id t h =
    (_, sym (fail_if-ok _ _ _ (past_write env 1 _ _ _ _ _ t h).1).1)
