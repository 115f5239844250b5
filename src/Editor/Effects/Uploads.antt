-- ===== src/Editor/Effects/Uploads.antt =====
-- What the success of a reservation and of a commit requires, and what it has done to the tables.
use metal_docs.Prelude.{
  ℕ, String, ◌≡◌, refl, sym, ◌⊎◌, inl, inr, true, false, not, Option, none, some, [], ◌∷◌, ◌++◌,
}
use metal_docs.Prelude.Tests.{neither, not-false}
use metal_docs.Prelude.Text.{str_eq, str_eq_iff}
use metal_docs.Prelude.Lists.{any, find_if, keep_if, update_where}
use metal_docs.Prelude.Result.{ok}
use metal_docs.Prelude.Sql.{Env}
use metal_docs.Prelude.Committed.{
  past_query, past_exec, past_write, past_fail_if, past_or_fail, pure-ok, write-ok,
}
use metal_docs.Editor.Tables.{Session, Revision, PendingUpload, Tables, is_active}
use metal_docs.Editor.Documents.{
  revision_conflict, append_revision, set_documents, set_sessions, insert_revision, same_content,
}
use metal_docs.Editor.Uploads.{
  CommitResult, same_upload, is_upload, is_orphan, presign_reserve, reserve_upload, commit_upload,
  commit_or_replay, commit_fresh, replay_upload, advance_head, revision_of_upload, is_past,
  delete_expired_pending,
}

-- A session that may write: it is active, its user's, and has seen the given revision.
pub record MayWrite (session_id user_id base : String) (t : Tables) (s : Session) : Type 0 where
  pub found : find_if (λ s. str_eq s.id session_id) t.sessions ≡ some s
  pub alive : is_active s ≡ true
  pub user : s.user_id ≡ user_id
  pub ack : s.last_acknowledged_revision_id ≡ base

pub record IsReserved (session_id user_id doc_id base : String) (t after : Tables) : Type 0 where
  pub session : Session
  pub writer : MayWrite session_id user_id base t session
  pub document : session.document_id ≡ doc_id
  pub kept_or_new :
      (after ≡ t)
      ⊎ ((p : PendingUpload) × (p.session_id ≡ session_id)
          × (p.document_id ≡ doc_id)
          × (p.base_revision_id ≡ base)
          × (after ≡ record t { pending_uploads = t.pending_uploads ++ (p ∷ []) }))

reserved :
    (env : Env) (new : PendingUpload) (o : Option PendingUpload) (t : Tables) {a : String}
    {after : Tables}
    → reserve_upload env new o t ≡ ok (a, after)
    → (after ≡ t)
      ⊎ ((p : PendingUpload) × (p.session_id ≡ new.session_id)
          × (p.document_id ≡ new.document_id)
          × (p.base_revision_id ≡ new.base_revision_id)
          × (after ≡ record t { pending_uploads = t.pending_uploads ++ (p ∷ []) }))
unfolding reserve_upload
reserved env new (some row) t h = inl (sym (write-ok env 2 _ _ _ _ t h).2)
reserved env new none t h = inr (new, refl, refl, refl, sym (write-ok env 2 _ _ _ _ t h).2)

pub presign_reserve-ok :
    (env : Env) (session_id user_id doc_id base hash key : String) (at : ℕ) (t : Tables)
    {a : String} {after : Tables}
    → presign_reserve env session_id user_id doc_id base hash key at t ≡ ok (a, after)
    → IsReserved session_id user_id doc_id base t after
unfolding presign_reserve
presign_reserve-ok env session_id user_id doc_id base hash key at t h =
    let (s, found, h) = past_or_fail _ _ _ t (past_query env 1 _ _ t h) in
    let (alive, h) = past_fail_if _ _ _ t h in
    let (holder, h) = past_fail_if _ _ _ t h in
    let (ack, h) = past_fail_if _ _ _ t h in
    let (user, doc) = neither _ _ holder in
    record {
      session = s;
      writer = record {
        found = found;
        alive = not-false _ alive;
        user = (str_eq_iff s.user_id user_id).0 (not-false _ user);
        ack = (str_eq_iff s.last_acknowledged_revision_id base).0 (not-false _ ack);
      };
      document = (str_eq_iff s.document_id doc_id).0 (not-false _ doc);
      kept_or_new =
          reserved env _ (find_if (same_upload session_id base hash) t.pending_uploads) t
            (past_query env 2 _ _ t h);
    }

-- The tables after a fresh commit.
abbrev pub committed : Env → PendingUpload → String → Tables → Tables
committed env p form_data t =
    let advanced =
      set_sessions (λ s. str_eq s.id p.session_id)
        (λ s. record s { last_acknowledged_revision_id = env.uuid 0 })
        (set_documents (λ d. str_eq d.id p.document_id)
          (λ d. record d {
            current_revision_id = some (env.uuid 0);
            form_data_json = form_data;
            updated_at = env.now;
          })
          (append_revision (revision_of_upload env p form_data) t)) in
    record advanced {
      pending_uploads =
          update_where (is_upload p.id) (λ p. record p { consumed_at = some env.now })
            t.pending_uploads;
    }

-- A commit that makes a revision.
pub record IsCommitted (env : Env) (user_id server_hash form_data : String) (p : PendingUpload)
    (t : Tables) (a : CommitResult) (after : Tables) : Type 0 where
  pub in_time : is_past env.now p.expires_at ≡ false
  pub session : Session
  pub writer : MayWrite p.session_id user_id p.base_revision_id t session
  pub hash : server_hash ≡ p.content_hash
  pub fresh : any (revision_conflict (revision_of_upload env p form_data)) t.revisions ≡ false
  pub value : a ≡ record {
    revision_id = env.uuid 0;
    revision_num = t.next_revision_num;
    already_consumed = false;
  }
  pub tables : after ≡ committed env p form_data t

commit_fresh-ok :
    (env : Env) (user_id server_hash form_data : String) (p : PendingUpload) (t : Tables)
    {a : CommitResult} {after : Tables}
    → commit_fresh env user_id server_hash form_data p t ≡ ok (a, after)
    → IsCommitted env user_id server_hash form_data p t a after
unfolding commit_fresh advance_head insert_revision
commit_fresh-ok env user_id server_hash form_data p t h =
    let (in_time, h) = past_fail_if _ _ _ t h in
    let (s, found, h) = past_or_fail _ _ _ t (past_query env 2 _ _ t h) in
    let (alive, h) = past_fail_if _ _ _ t h in
    let (user, h) = past_fail_if _ _ _ t h in
    let (ack, h) = past_fail_if _ _ _ t h in
    let (hash, h) = past_fail_if _ _ _ t h in
    let (fresh, h) = past_write env 3 _ _ _ _ _ t h in
    let (value, tables) =
      pure-ok _ _ (past_exec env 6 _ _ _ (past_exec env 5 _ _ _ (past_exec env 4 _ _ _ h))) in
    record {
      in_time = in_time;
      session = s;
      writer = record {
        found = found;
        alive = not-false _ alive;
        user = (str_eq_iff s.user_id user_id).0 (not-false _ user);
        ack = (str_eq_iff s.last_acknowledged_revision_id p.base_revision_id).0 (not-false _ ack);
      };
      hash = (str_eq_iff server_hash p.content_hash).0 (not-false _ hash);
      fresh = fresh;
      value = sym value;
      tables = sym tables;
    }

-- A commit of an upload that was committed before.
pub record IsReplayed (p : PendingUpload) (t : Tables) (a : CommitResult) (after : Tables)
    : Type 0 where
  pub revision : Revision
  pub found : find_if (same_content p.document_id p.content_hash) t.revisions ≡ some revision
  pub value : a ≡ record {
    revision_id = revision.id;
    revision_num = revision.revision_num;
    already_consumed = true;
  }
  pub tables : after ≡ t

decided :
    (env : Env) (user_id server_hash form_data : String) (p : PendingUpload) (o : Option ℕ)
    (t : Tables) {a : CommitResult} {after : Tables}
    → commit_or_replay env user_id server_hash form_data p o t ≡ ok (a, after)
    → ((o ≡ none) × IsCommitted env user_id server_hash form_data p t a after)
      ⊎ ((at : ℕ) × (o ≡ some at) × IsReplayed p t a after)
unfolding commit_or_replay replay_upload
decided env user_id server_hash form_data p none t h =
    inl (refl, commit_fresh-ok env user_id server_hash form_data p t h)
decided env user_id server_hash form_data p (some at) t h =
    let (r, found, h) = past_or_fail _ _ _ t (past_query env 2 _ _ t h) in
    let (value, tables) = pure-ok _ _ h in
    inr (at, refl, record { revision = r; found = found; value = sym value; tables = sym tables })

pub record IsBound (session_id doc_id pending_id : String) (t : Tables) (p : PendingUpload)
    : Type 0 where
  pub found : find_if (is_upload pending_id) t.pending_uploads ≡ some p
  pub session : p.session_id ≡ session_id
  pub document : p.document_id ≡ doc_id

pub commit_upload-ok :
    (env : Env) (session_id user_id doc_id pending_id server_hash form_data : String) (t : Tables)
    {a : CommitResult} {after : Tables}
    → commit_upload env session_id user_id doc_id pending_id server_hash form_data t ≡ ok (a, after)
    → (p : PendingUpload) × IsBound session_id doc_id pending_id t p
      × (((p.consumed_at ≡ none) × IsCommitted env user_id server_hash form_data p t a after)
          ⊎ ((at : ℕ) × (p.consumed_at ≡ some at) × IsReplayed p t a after))
unfolding commit_upload
commit_upload-ok env session_id user_id doc_id pending_id server_hash form_data t h =
    let (p, found, h) = past_or_fail _ _ _ t (past_query env 1 _ _ t h) in
    let (bound, h) = past_fail_if _ _ _ t h in
    let (session, doc) = neither _ _ bound in
    (
      p,
      record {
        found = found;
        session = (str_eq_iff p.session_id session_id).0 (not-false _ session);
        document = (str_eq_iff p.document_id doc_id).0 (not-false _ doc);
      },
      decided env user_id server_hash form_data p p.consumed_at t h,
    )

pub delete_expired_pending-ok :
    (env : Env) (older : ℕ) (t : Tables) {a : ℕ} {after : Tables}
    → delete_expired_pending env older t ≡ ok (a, after)
    → after
      ≡ record t { pending_uploads = keep_if (λ p. not (is_orphan older p)) t.pending_uploads }
unfolding delete_expired_pending
delete_expired_pending-ok env older t h = sym (write-ok env 1 _ _ _ _ t h).2
