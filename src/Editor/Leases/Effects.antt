-- ===== src/Editor/Leases/Effects.antt =====
-- What the success of a statement on sessions has done to the tables.
use metal_docs.Prelude.{String, ◌≡◌, sym, false, some, [], ◌∷◌, ◌++◌, ◌+◌}
use metal_docs.Prelude.Tests.{◌==◌}
use metal_docs.Prelude.Text.{str_eq}
use metal_docs.Prelude.Lists.{any, count_if, find_if}
use metal_docs.Prelude.Result.{ok}
use metal_docs.Prelude.Sql.{Env}
use metal_docs.Prelude.Committed.{
  past_query, past_exec, past_write, past_fail_if, past_or_fail, pure-ok, fail_if-ok,
}
use metal_docs.Editor.Tables.{Document, Session, released, force_released, Tables}
use metal_docs.Editor.Documents.{
  coalesce, lease_seconds, insert_session, new_session, session_conflict, set_documents,
  set_sessions, is_document,
}
use metal_docs.Editor.Sessions.{
  Acquired, held, held_session, open_session, refresh_session, heartbeat_session, release_session,
  force_release_session, is_session_of, is_open_session, clear_pointers, end_session,
}

-- The tables after a document was taken.
abbrev pub opened : Env → String → Session → Tables → Tables
opened env doc_id new t =
    set_documents (λ d. str_eq d.id doc_id)
      (λ d. record d { active_session_id = some new.id; updated_at = env.now })
      (record t { sessions = t.sessions ++ (new ∷ []) })

pub record IsOpened (env : Env) (tenant_id doc_id user_id : String) (t : Tables) (a : Acquired)
    (after : Tables) : Type 0 where
  pub document : Document
  pub found : find_if (is_document tenant_id doc_id) t.documents ≡ some document
  pub headed : str_eq (coalesce document.current_revision_id) "" ≡ false
  pub fresh :
      any
        (session_conflict
          (new_session env 0 doc_id user_id (coalesce document.current_revision_id)))
        t.sessions
      ≡ false
  pub value :
      a
      ≡ held (record (new_session env 0 doc_id user_id (coalesce document.current_revision_id)) {
        acquired_at = 0;
      })
  pub tables :
      after
      ≡ opened env doc_id
          (new_session env 0 doc_id user_id (coalesce document.current_revision_id))
          t

pub open_session-ok :
    (env : Env) (tenant_id doc_id user_id : String) (t : Tables) {a : Acquired} {after : Tables}
    → open_session env tenant_id doc_id user_id t ≡ ok (a, after)
    → IsOpened env tenant_id doc_id user_id t a after
unfolding open_session insert_session
open_session-ok env tenant_id doc_id user_id t h =
    let (d, found, h) = past_or_fail _ _ _ t (past_query env 2 _ _ t h) in
    let (headed, h) = past_fail_if _ _ _ t h in
    let (fresh, h) = past_write env 3 _ _ _ _ _ t h in
    let (value, tables) = pure-ok _ _ (past_exec env 4 _ _ _ h) in
    record {
      document = d;
      found = found;
      headed = headed;
      fresh = fresh;
      value = sym value;
      tables = sym tables;
    }

pub refresh_session-ok :
    (env : Env) (doc_id : String) (s : Session) (t : Tables) {a : Acquired} {after : Tables}
    → refresh_session env doc_id s t ≡ ok (a, after)
    → (a ≡ held (held_session s doc_id (env.now + lease_seconds) s.last_acknowledged_revision_id))
      × (after
          ≡ set_sessions
              (λ row. str_eq row.id s.id)
              (λ row. record row { expires_at = env.now + lease_seconds })
              t)
unfolding refresh_session
refresh_session-ok env doc_id s t h =
    let (value, tables) = pure-ok _ _ (past_exec env 2 _ _ t h) in (sym value, sym tables)

pub heartbeat_session-ok :
    (env : Env) (id user_id : String) (t : Tables) {a : Unit {0}} {after : Tables}
    → heartbeat_session env id user_id t ≡ ok (a, after)
    → ((count_if (is_session_of id user_id) t.sessions == 0) ≡ false)
      × (after
          ≡ set_sessions
              (is_session_of id user_id)
              (λ s. record s { expires_at = env.now + lease_seconds })
              t)
unfolding heartbeat_session
heartbeat_session-ok env id user_id t h =
    let (_, h) = past_write env 1 _ _ _ _ _ t h in
    let (found, tables) = fail_if-ok _ _ _ h in (found, sym tables)

pub release_session-ok :
    (env : Env) (id user_id : String) (t : Tables) {a : Unit {0}} {after : Tables}
    → release_session env id user_id t ≡ ok (a, after)
    → ((count_if (is_session_of id user_id) t.sessions == 0) ≡ false)
      × (after
          ≡ clear_pointers env.now
              (str_eq id)
              (set_sessions (is_session_of id user_id) (end_session released env.now) t))
unfolding release_session
release_session-ok env id user_id t h =
    let (_, h) = past_write env 1 _ _ _ _ _ t h in
    let (found, h) = past_fail_if _ _ _ _ h in
    let (_, tables) = pure-ok _ _ (past_exec env 2 _ _ _ h) in (found, sym tables)

pub force_release_session-ok :
    (env : Env) (id : String) (t : Tables) {a : Unit {0}} {after : Tables}
    → force_release_session env id t ≡ ok (a, after)
    → ((count_if (is_open_session id) t.sessions == 0) ≡ false)
      × (after
          ≡ clear_pointers env.now
              (str_eq id)
              (set_sessions (is_open_session id) (end_session force_released env.now) t))
unfolding force_release_session
force_release_session-ok env id t h =
    let (_, h) = past_write env 1 _ _ _ _ _ t h in
    let (found, h) = past_fail_if _ _ _ _ h in
    let (_, tables) = pure-ok _ _ (past_exec env 2 _ _ _ h) in (found, sym tables)
