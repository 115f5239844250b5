-- ===== src/Editor/Leases/Refines.antt =====
-- The statements on sessions implement the operations on leases.
use metal_docs.Prelude.{
  ℕ, String, ◌≡◌, refl, ap, ◌∙◌, sym, Bool, true, false, ◌&&◌, Option, none, some, ◌+◌,
}
use mathlib.Core.Bool.{and-true}
use metal_docs.Prelude.Tests.{ltb, if◌then◌else◌, both}
use metal_docs.Prelude.Text.{str_eq, str_eq_iff}
use metal_docs.Prelude.Lists.{find_if, find_if-holds}
use metal_docs.Prelude.Result.{ok}
use metal_docs.Prelude.Sql.{Env, pure}
use metal_docs.Prelude.Committed.{past_query, pure-ok}
use metal_docs.Editor.Tables.{Session, released, force_released, expired, Tables, is_active}
use metal_docs.Editor.Documents.{set_sessions, lease_seconds, coalesce, new_session}
use metal_docs.Editor.Sessions.{
  Acquired, taken, refresh_session, held_session, acquire_session, take_or_refresh,
  heartbeat_session, release_session, force_release_session, clear_pointers, holds_document,
  is_session_of, is_open_session, end_session, is_stale, sweep,
}
use metal_docs.Editor.Leases.{
  Lease, lease_of, leases, renew, outcome_of, answer, acquire_found, acquire, is_lease_of,
  heartbeat, release, force_release, expire,
}
use metal_docs.Editor.Leases.Rows.{
  leases_of-append, leases_of-update, leases_of-close, lease_of_found, find_if-leases_of,
}
use metal_docs.Editor.Leases.Effects.{
  open_session-ok, refresh_session-ok, heartbeat_session-ok, release_session-ok,
  force_release_session-ok,
}

abbrev pub extended : ℕ → Session → Session
extended now s = record s { expires_at = now + lease_seconds }

-- What the caller of a found session gets, and what that leaves of the leases.
answered :
    (env : Env) (doc_id user_id : String) (t : Tables) (s : Session) (same : Bool) {a : Acquired}
    {after : Tables}
    → s.document_id ≡ doc_id
    → (if same then refresh_session env doc_id s else pure (taken (held_session s doc_id 0 ""))) t
      ≡ ok (a, after)
    → (outcome_of a, leases after) ≡ answer env.now same (lease_of s) (leases t)
answered env doc_id user_id t s true on h =
    let (value, tables) = refresh_session-ok env doc_id s t h in
    let shown =
      leases_of-update (λ row. str_eq row.id s.id) (extended env.now)
        (λ (l : Lease). str_eq l.session s.id) (renew env.now) (λ row. refl) (λ row. refl)
        (λ row alive. refl) t.sessions in
    rw (value, tables, shown, on) refl
answered env doc_id user_id t s false on h =
    let (value, tables) = pure-ok _ _ h in rw (sym value, sym tables) refl

-- A successful `AcquireSession` gives the answer of the lock, and changes the leases as the lock does:
-- a free document gets a lease, the holder's lease is renewed, and everybody else is told who holds
-- the document.
pub acquire_session-acquire :
    (env : Env) (tenant_id doc_id user_id : String) (t : Tables) {a : Acquired} {after : Tables}
    → acquire_session env tenant_id doc_id user_id t ≡ ok (a, after)
    → (outcome_of a, leases after) ≡ acquire env.now (env.uuid 0) doc_id user_id (leases t)
unfolding acquire_session take_or_refresh
acquire_session-acquire env tenant_id doc_id user_id t h =
    rw (find_if-leases_of doc_id t.sessions) (
      found (find_if (holds_document doc_id) t.sessions)
        (λ s e. find_if-holds (holds_document doc_id) t.sessions e) (past_query env 1 _ _ t h))
  where
    found :
        (o : Option Session) {a : Acquired} {after : Tables}
        → ((s : Session) → o ≡ some s → holds_document doc_id s ≡ true)
        → take_or_refresh env tenant_id doc_id user_id o t ≡ ok (a, after)
        → (outcome_of a, leases after)
          ≡ acquire_found env.now (env.uuid 0) doc_id user_id (lease_of_found o) (leases t)
    found none holds h =
        let r = open_session-ok env tenant_id doc_id user_id t h in
        rw
          (
            r.value,
            r.tables,
            leases_of-append t.sessions
                (new_session env 0 doc_id user_id (coalesce r.document.current_revision_id)) refl,
          )
          refl
    found (some s) holds h =
        let on = (both _ _ (holds s refl)).0 in
        answered env doc_id user_id t s (str_eq s.user_id user_id)
          ((str_eq_iff s.document_id doc_id).0 on) h

of_session :
    (id user_id : String) (s : Session)
    → is_active s ≡ true
    → is_session_of id user_id s ≡ is_lease_of id user_id (lease_of s)
of_session id user_id s alive =
    rw (alive, and-true (str_eq s.id id && str_eq s.user_id user_id)) refl

-- A successful heartbeat renews the caller's leases.
heartbeat_session-heartbeat :
    (env : Env) (id user_id : String) (t : Tables) {a : Unit {0}} {after : Tables}
    → heartbeat_session env id user_id t ≡ ok (a, after)
    → leases after ≡ heartbeat env.now id user_id (leases t)
heartbeat_session-heartbeat env id user_id t h = rw ((heartbeat_session-ok env id user_id t h).1) (
    leases_of-update (is_session_of id user_id) (extended env.now) (is_lease_of id user_id)
      (renew env.now) (λ s. refl) (λ s. refl) (λ s alive. of_session id user_id s alive) t.sessions)

pub leases-release :
    (now : ℕ) (is_closed : String → Bool) (id user_id : String) (t : Tables)
    → leases (
        clear_pointers now is_closed
          (set_sessions (is_session_of id user_id) (end_session released now) t))
      ≡ release id user_id (leases t)
leases-release now is_closed id user_id t =
    leases_of-close (is_session_of id user_id) (end_session released now) (is_lease_of id user_id)
      (λ s. refl) (λ s alive. of_session id user_id s alive) t.sessions

pub leases-force_release :
    (now : ℕ) (is_closed : String → Bool) (id : String) (t : Tables)
    → leases (
        clear_pointers now is_closed
          (set_sessions (is_open_session id) (end_session force_released now) t))
      ≡ force_release id (leases t)
leases-force_release now is_closed id t =
    leases_of-close (is_open_session id) (end_session force_released now)
      (λ (l : Lease). str_eq l.session id) (λ s. refl)
      (λ s alive. rw alive (and-true (str_eq s.id id))) t.sessions

-- A successful release drops the caller's leases, and nobody else's; a forced one drops the leases of
-- the session, whoever holds them.
pub release_session-release :
    (env env' : Env) (id user_id : String) (t : Tables) {a b : Unit {0}} {after forced : Tables}
    → release_session env id user_id t ≡ ok (a, after)
    → force_release_session env' id t ≡ ok (b, forced)
    → (leases after ≡ release id user_id (leases t)) × (leases forced ≡ force_release id (leases t))
release_session-release env env' id user_id t h k = (
  ap leases (release_session-ok env id user_id t h).1
      ∙ leases-release env.now (str_eq id) id user_id t,
  ap leases (force_release_session-ok env' id t k).1
      ∙ leases-force_release env'.now (str_eq id) id t,
)

-- The sweep drops the leases that have run out, and no others, whatever it reports.
pub sweep-expire :
    (env : Env) (now : ℕ) (t : Tables) → leases (sweep env now t) ≡ expire now (leases t)
sweep-expire env now t =
    leases_of-close (is_stale now) (λ s. record s { status = expired })
      (λ (l : Lease). ltb l.expires_at now) (λ s. refl) (λ s alive. rw alive refl) t.sessions
