-- ===== src/Editor/Sessions.antt =====
-- The statements on `editor_sessions` (documents_v2/repository/repository.go): one active session
-- holds a document.
use metal_docs.Prelude.{ℕ, String, Bool, false, ◌&&◌, Option, none, some, ◌+◌}
use metal_docs.Prelude.Tests.{if◌then◌else◌, ltb, ◌==◌}
use metal_docs.Prelude.Text.{str_eq}
use metal_docs.Prelude.Lists.{any, count_if, find_if}
use metal_docs.Prelude.Result.{Result, ok, err}
use metal_docs.Prelude.Sql.{
  Fault, Env, domain, no_rows, ◌>>=◌, ◌>>◌, pure, fail_if, or_fail, query, exec, write, never,
  follow, autocommit,
}
use metal_docs.Editor.Tables.{
  Document, Session, SessionStatus, active, expired, released, force_released, Tables, Edit,
  EditorError, session_inactive, no_current_revision, is_active,
}
use metal_docs.Editor.Documents.{
  coalesce, lease_seconds, insert_session, new_session, set_documents, set_sessions, is_document,
}

-- What `AcquireSession` returns without an error, and its session with ErrSessionTaken.
pub data Acquired : Type 0 where
  held : Session → Acquired
  taken : Session → Acquired

abbrev pub holds_document : String → Session → Bool
holds_document doc_id s = str_eq s.document_id doc_id && is_active s

-- The `Session` that the code builds for a holder it found; a time that it leaves out is 0, a text "".
abbrev pub held_session : Session → String → ℕ → String → Session
held_session s doc_id expires_at ack = record {
  id = s.id;
  document_id = doc_id;
  user_id = s.user_id;
  acquired_at = 0;
  expires_at = expires_at;
  released_at = none;
  last_acknowledged_revision_id = ack;
  status = active;
}

-- No active session: take the document with a new one.
unfoldable pub open_session : Env → String → String → String → Edit Acquired
open_session env tenant_id doc_id user_id = do
  found ← query env 2 (λ t. find_if (is_document tenant_id doc_id) t.documents)
  d ← or_fail found no_rows
  fail_if (str_eq (coalesce d.current_revision_id) "") (domain no_current_revision)
  let ack = coalesce d.current_revision_id
  insert_session env 3 (new_session env 0 doc_id user_id ack)
  exec env 4 (
      set_documents (λ d. str_eq d.id doc_id)
        (λ d. record d { active_session_id = some (env.uuid 0); updated_at = env.now }))
  pure (held (record (new_session env 0 doc_id user_id ack) { acquired_at = 0 }))

-- The caller holds it already: its lease is extended.
unfoldable pub refresh_session : Env → String → Session → Edit Acquired
refresh_session env doc_id s = do
  exec env 2 (
      set_sessions (λ row. str_eq row.id s.id)
        (λ row. record row { expires_at = env.now + lease_seconds }))
  pure (held (held_session s doc_id (env.now + lease_seconds) s.last_acknowledged_revision_id))

unfoldable pub take_or_refresh : Env → String → String → String → Option Session → Edit Acquired
take_or_refresh env tenant_id doc_id user_id none = open_session env tenant_id doc_id user_id
take_or_refresh env tenant_id doc_id user_id (some s) =
    if str_eq s.user_id user_id
    then refresh_session env doc_id s
    else pure (taken (held_session s doc_id 0 ""))

-- `AcquireSession`
unfoldable pub acquire_session : Env → String → String → String → Edit Acquired
acquire_session env tenant_id doc_id user_id = do
  found ← query env 1 (λ t. find_if (holds_document doc_id) t.sessions)
  take_or_refresh env tenant_id doc_id user_id found

abbrev pub is_session_of : String → String → Session → Bool
is_session_of id user_id s = str_eq s.id id && str_eq s.user_id user_id && is_active s

-- `HeartbeatSession`
unfoldable pub heartbeat_session : Env → String → String → Edit (Unit {0})
heartbeat_session env id user_id = do
  n ←
      write env 1 never "" (λ t. count_if (is_session_of id user_id) t.sessions)
        (set_sessions (is_session_of id user_id)
          (λ s. record s { expires_at = env.now + lease_seconds }))
  fail_if (n == 0) (domain session_inactive)

abbrev pub clear_pointers : ℕ → (String → Bool) → Tables → Tables
clear_pointers now is_closed =
    set_documents (λ d. elim d.active_session_id [ none ↦ false | some id ↦ is_closed id ])
      (λ d. record d { active_session_id = none; updated_at = now })

abbrev pub end_session : SessionStatus → ℕ → Session → Session
end_session status now s = record s { status = status; released_at = some now }

-- `ReleaseSession`
unfoldable pub release_session : Env → String → String → Edit (Unit {0})
release_session env id user_id = do
  n ←
      write env 1 never "" (λ t. count_if (is_session_of id user_id) t.sessions)
        (set_sessions (is_session_of id user_id) (end_session released env.now))
  fail_if (n == 0) (domain session_inactive)
  exec env 2 (clear_pointers env.now (str_eq id))
  pure tt

abbrev pub is_open_session : String → Session → Bool
is_open_session id s = str_eq s.id id && is_active s

-- `ForceReleaseSession`
unfoldable pub force_release_session : Env → String → Edit (Unit {0})
force_release_session env id = do
  n ←
      write env 1 never "" (λ t. count_if (is_open_session id) t.sessions)
        (set_sessions (is_open_session id) (end_session force_released env.now))
  fail_if (n == 0) (domain session_inactive)
  exec env 2 (clear_pointers env.now (str_eq id))
  pure tt

abbrev pub is_stale : ℕ → Session → Bool
is_stale now s = is_active s && ltb s.expires_at now

-- The identifiers that the CTE `expired` returns.
abbrev pub expires_id : ℕ → Tables → String → Bool
expires_id now t id = any (λ s. is_stale now s && str_eq s.id id) t.sessions

abbrev pub points_to_stale : ℕ → Tables → Document → Bool
points_to_stale now t d = elim d.active_session_id [ none ↦ false | some id ↦ expires_id now t id ]

abbrev pub sweep : Env → ℕ → Tables → Tables
sweep env now t =
    set_sessions (is_stale now) (λ s. record s { status = expired })
      (clear_pointers env.now (expires_id now t) t)

-- The statement returns a row for each document that it updates, and the code scans the first: with
-- none it reports `sql.ErrNoRows`, after the server has committed the statement.
unfoldable pub first_count : ℕ × ℕ → Tables → Result (Fault EditorError) ℕ × Tables
first_count (rows, n) t = if rows == 0 then (err no_rows, t) else (ok n, t)

-- `ExpireStaleSessions`
unfoldable pub expire_stale_sessions : Env → ℕ → Tables → Result (Fault EditorError) ℕ × Tables
expire_stale_sessions env now t =
    follow
      (autocommit
        (write env 1 never ""
          (λ t. (count_if (points_to_stale now t) t.documents, count_if (is_stale now) t.sessions))
          (sweep env now))
        t)
      first_count
