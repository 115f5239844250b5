-- ===== src/Editor/Effects/Calls.antt =====
-- The effect of a call, whatever it reports: one case for each way in which the methods change the
-- tables.
use metal_docs.Prelude.{
  ℕ, String, ◌≡◌, refl, sym, inl, inr, Bool, true, false, not, Option, none, some, List,
}
use metal_docs.Prelude.Tests.{if◌then◌else◌, ◌==◌}
use metal_docs.Prelude.Text.{str_eq, str_eq_iff}
use mathlib.Core.Path.{subst}
use metal_docs.Prelude.Lists.{count_if, find_if, find_if-holds, keep_if, update_where}
use metal_docs.Prelude.Result.{Result, ok, err}
use metal_docs.Prelude.Sql.{Env, pure, autocommit, follow, write, settle, Fault, no_rows, database}
use metal_docs.Prelude.Committed.{past_query, pure-ok, transaction-relates, autocommit-relates}
use metal_docs.Editor.Tables.{
  Document, DocumentStatus, finalized, archived, draft, Session, released, force_released, Comment,
  PendingUpload, Checkpoint, Tables, Edit, EditorError,
}
use metal_docs.Editor.Documents.{lacks_key, set_documents, set_sessions, stamp_status}
use metal_docs.Editor.Sessions.{
  Acquired, taken, held_session, refresh_session, acquire_session, take_or_refresh,
  expire_stale_sessions, is_session_of, is_open_session, clear_pointers, end_session, sweep,
  first_count, points_to_stale, is_stale,
}
use metal_docs.Editor.Uploads.{CommitResult, is_upload, is_orphan, commit_upload}
use metal_docs.Editor.Checkpoints.{RestoreResult}
use metal_docs.Editor.System.{
  Call, creates, sets_key, renames, sets_status, acquires, heartbeats, releases, force_releases,
  expires, presigns, commits, deletes_pending, checkpoints, restores, comments, edits_comment,
  deletes_comment, perform, in_transaction, at_once,
}
use metal_docs.Editor.Invariant.{head_of}
use metal_docs.Editor.Leases.Refines.{extended}
use metal_docs.Editor.Leases.Effects.{
  IsOpened, open_session-ok, refresh_session-ok, heartbeat_session-ok, release_session-ok,
  force_release_session-ok,
}
use metal_docs.Editor.Effects.{
  IsCreated, create_document-ok, set_revision_storage_key-ok, update_document_name-ok,
  update_document_status-ok,
}
use metal_docs.Editor.Effects.Uploads.{
  IsReserved, presign_reserve-ok, IsCommitted, commit_upload-ok, delete_expired_pending-ok,
}
use metal_docs.Editor.Effects.Checkpoints.{
  IsCheckpointed, create_checkpoint-ok, IsRestored, restore_checkpoint-ok, create_comment-ok,
  update_comment-ok, delete_comment-ok,
}

pub data Effect (env : Env) (t after : Tables) : Type 0 where
  still : after ≡ t → Effect env t after
  created : (d : Document) (hash : String) → IsCreated env d hash t after → Effect env t after
  keyed :
      (id key : String)
      → after ≡ record t {
        revisions = update_where (lacks_key id) (λ r. record r { storage_key = key }) t.revisions;
      }
      → Effect env t after
  marked :
      (p : Document → Bool) (f : Document → Document)
      → ((d : Document) → head_of (f d) ≡ head_of d)
      → after ≡ set_documents p f t
      → Effect env t after
  opened :
      (tenant doc user : String) (a : Acquired)
      → IsOpened env tenant doc user t a after
      → Effect env t after
  extended_by :
      (p : Session → Bool) → after ≡ set_sessions p (extended env.now) t → Effect env t after
  released_by :
      (id user : String)
      → (count_if (is_session_of id user) t.sessions == 0) ≡ false
      → after
        ≡ clear_pointers env.now
            (str_eq id)
            (set_sessions (is_session_of id user) (end_session released env.now) t)
      → Effect env t after
  forced :
      (id : String)
      → after
        ≡ clear_pointers env.now
            (str_eq id)
            (set_sessions (is_open_session id) (end_session force_released env.now) t)
      → Effect env t after
  swept : (now : ℕ) → after ≡ sweep env now t → Effect env t after
  reserved :
      (session user doc base : String)
      → IsReserved session user doc base t after
      → Effect env t after
  committed :
      (user hash form : String) (p : PendingUpload) (a : CommitResult)
      → find_if (is_upload p.id) t.pending_uploads ≡ some p
      → IsCommitted env user hash form p t a after
      → Effect env t after
  purged :
      (older : ℕ)
      → after
        ≡ record t { pending_uploads = keep_if (λ p. not (is_orphan older p)) t.pending_uploads }
      → Effect env t after
  checkpointed :
      (doc actor label : String) (a : Checkpoint)
      → IsCheckpointed env doc actor label t a after
      → Effect env t after
  restored :
      (doc actor : String) (version : ℕ) (a : RestoreResult)
      → IsRestored env doc actor version t a after
      → Effect env t after
  commented : (rows : List Comment) → after ≡ record t { comments = rows } → Effect env t after

acquired :
    (env : Env) (tenant doc user : String) (o : Option Session) (t : Tables) {a : Acquired}
    {after : Tables}
    → take_or_refresh env tenant doc user o t ≡ ok (a, after)
    → Effect env t after
unfolding take_or_refresh
acquired env tenant doc user none t h =
    opened tenant doc user _ (open_session-ok env tenant doc user t h)
acquired env tenant doc user (some s) t h = found (str_eq s.user_id user) h
  where
    found :
        (same : Bool) {a : Acquired} {after : Tables}
        → (if same then refresh_session env doc s else pure (taken (held_session s doc 0 ""))) t
          ≡ ok (a, after)
        → Effect env t after
    found true h = extended_by _ (refresh_session-ok env doc s t h).1
    found false h = still (sym (pure-ok _ _ h).1)

stamped :
    (now : ℕ) (next : DocumentStatus) (stamp : Bool) (d : Document)
    → head_of (stamp_status now next stamp d) ≡ head_of d
stamped now draft true d = refl
stamped now draft false d = refl
stamped now finalized true d = refl
stamped now finalized false d = refl
stamped now archived true d = refl
stamped now archived false d = refl

committed_or_replayed :
    (env : Env) (session user doc id hash form : String) (t : Tables) {a : CommitResult}
    {after : Tables}
    → commit_upload env session user doc id hash form t ≡ ok (a, after)
    → Effect env t after
committed_or_replayed env session user doc id hash form t h =
    let (p, bound, cases) = commit_upload-ok env session user doc id hash form t h in
    elim cases [
      | inl (fresh, done) ↦
          committed user hash form p _
            (subst (λ i. find_if (is_upload i) t.pending_uploads ≡ some p)
              (sym (
                (str_eq_iff p.id id).0
                  (find_if-holds (is_upload id) t.pending_uploads bound.found)))
              bound.found)
            done
      | inr (_, _, replayed) ↦ still replayed.tables
    ]

reported :
    (b : Bool) (n : ℕ) (t : Tables)
    → (if◌then◌else◌ {A = Result (Fault EditorError) ℕ × Tables} b (err no_rows, t) (ok n, t)).1 ≡ t
reported true n t = refl
reported false n t = refl

swept_or_failed :
    (env : Env) (now : ℕ) (t : Tables) → Effect env t (expire_stale_sessions env now t).1
unfolding expire_stale_sessions autocommit write settle follow first_count
swept_or_failed env now t = failed (env.fails 1)
  where
    failed :
        (b : Bool)
        → Effect env t
            (follow
              (settle t (
                if b
                then err (database 1)
                else ok (
                  (
                    count_if (points_to_stale now t) t.documents,
                    count_if (is_stale now) t.sessions,
                  ),
                  sweep env now t,
                )))
              first_count).1
    failed true = still refl
    failed false = swept now (reported (count_if (points_to_stale now t) t.documents == 0) _ _)

acquire_session-effect :
    (env : Env) (tenant doc user : String) (t : Tables) {a : Acquired} {after : Tables}
    → acquire_session env tenant doc user t ≡ ok (a, after)
    → Effect env t after
unfolding acquire_session
acquire_session-effect env tenant doc user t h =
    acquired env tenant doc user _ t (past_query env 1 _ _ t h)

-- A method that fails leaves the tables as they are.
transacted :
    {A : Type 0} (env : Env) (m : Edit A) (t : Tables)
    → ((a : A) (after : Tables) → m t ≡ ok (a, after) → Effect env t after)
    → Effect env t (in_transaction env m t)
unfolding in_transaction
transacted env m t k = transaction-relates (Effect env) env _ m t (still refl) k

executed :
    {A : Type 0} (env : Env) (m : Edit A) (t : Tables)
    → ((a : A) (after : Tables) → m t ≡ ok (a, after) → Effect env t after)
    → Effect env t (at_once m t)
unfolding at_once
executed env m t k = autocommit-relates (Effect env) m t (still refl) k

pub perform-Effect : (env : Env) (call : Call) (t : Tables) → Effect env t (perform env call t)
unfolding perform
perform-Effect env (creates d hash) t =
    transacted env _ t (λ a after h. created d hash (create_document-ok env d hash t h))
perform-Effect env (sets_key id key) t =
    executed env _ t (λ a after h. keyed id key (set_revision_storage_key-ok env id key t h))
perform-Effect env (renames tenant id name) t =
    executed env _ t
      (λ a after h. marked _ _ (λ d. refl) (update_document_name-ok env tenant id name t h))
perform-Effect env (sets_status tenant id cur next stamp) t = executed env _ t (λ a after h.
    marked _ _ (stamped env.now next stamp)
      (update_document_status-ok env tenant id cur next stamp t h).2)
perform-Effect env (acquires tenant doc user) t =
    transacted env _ t (λ a after h. acquire_session-effect env tenant doc user t h)
perform-Effect env (heartbeats id user) t =
    executed env _ t (λ a after h. extended_by _ (heartbeat_session-ok env id user t h).1)
perform-Effect env (releases id user) t = transacted env _ t (λ a after h.
    let (some_row, tables) = release_session-ok env id user t h in
    released_by id user some_row tables)
perform-Effect env (force_releases id) t =
    transacted env _ t (λ a after h. forced id (force_release_session-ok env id t h).1)
perform-Effect env (expires now) t = swept_or_failed env now t
perform-Effect env (presigns session user doc base hash key at) t = transacted env _ t (λ a after h.
    reserved session user doc base (presign_reserve-ok env session user doc base hash key at t h))
perform-Effect env (commits session user doc id hash form) t =
    transacted env _ t (λ a after h. committed_or_replayed env session user doc id hash form t h)
perform-Effect env (deletes_pending older) t =
    executed env _ t (λ a after h. purged older (delete_expired_pending-ok env older t h))
perform-Effect env (checkpoints doc actor label) t =
    transacted env _ t
      (λ a after h. checkpointed doc actor label a (create_checkpoint-ok env doc actor label t h))
perform-Effect env (restores doc actor version) t =
    transacted env _ t
      (λ a after h. restored doc actor version a (restore_checkpoint-ok env doc actor version t h))
perform-Effect env (comments tenant doc author input) t = executed env _ t (λ a after h.
    let (rows, tables) = create_comment-ok env tenant doc author input t h in commented rows tables)
perform-Effect env (edits_comment tenant doc id user input) t = executed env _ t (λ a after h.
    let (rows, tables) = update_comment-ok env tenant doc id user input t h in
    commented rows tables)
perform-Effect env (deletes_comment tenant doc id) t = executed env _ t (λ a after h.
    let (rows, tables) = delete_comment-ok env tenant doc id t h in commented rows tables)
