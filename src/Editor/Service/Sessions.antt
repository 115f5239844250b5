-- ===== src/Editor/Service/Sessions.antt =====
-- The sessions of the editor (documents_v2/application/service.go): a document that somebody else
-- holds is opened for reading.
use metal_docs.Prelude.{ℕ, String, Bool, true, false}
use metal_docs.Prelude.Sql.{Env}
use metal_docs.Editor.Tables.{Session}
use metal_docs.Editor.Sessions.{
  Acquired, held, taken, acquire_session, heartbeat_session, release_session, force_release_session,
}
use metal_docs.Editor.Service.{
  Serv, ◌>>=◌, ◌>>◌, done, transact, execute, audit, session_acquired, session_released,
  session_force_released,
}

-- The session, and whether it is for reading only.
unfoldable pub answer_acquired : String → String → String → Acquired → Serv (Session × Bool)
answer_acquired tenant_id doc_id user_id (taken s) = done (s, true)
answer_acquired tenant_id doc_id user_id (held s) = do
  audit tenant_id user_id doc_id (session_acquired s.id)
  done (s, false)

-- `AcquireSession`
unfoldable pub acquire_document : (ℕ → Env) → String → String → String → Serv (Session × Bool)
acquire_document calls tenant_id doc_id user_id = do
  a ← transact (calls 0) (acquire_session (calls 0) tenant_id doc_id user_id)
  answer_acquired tenant_id doc_id user_id a

-- `HeartbeatSession`
unfoldable pub heartbeat_document : (ℕ → Env) → String → String → Serv (Unit {0})
heartbeat_document calls session_id user_id =
    execute (heartbeat_session (calls 0) session_id user_id)

-- `ReleaseSession`
unfoldable pub release_document : (ℕ → Env) → String → String → String → String → Serv (Unit {0})
release_document calls tenant_id session_id user_id doc_id = do
  transact (calls 0) (release_session (calls 0) session_id user_id)
  audit tenant_id user_id doc_id (session_released session_id)

-- `ForceReleaseSession`
unfoldable pub force_release_document :
    (ℕ → Env) → String → String → String → String → Serv (Unit {0})
force_release_document calls tenant_id admin_id session_id doc_id = do
  transact (calls 0) (force_release_session (calls 0) session_id)
  audit tenant_id admin_id doc_id (session_force_released session_id)
