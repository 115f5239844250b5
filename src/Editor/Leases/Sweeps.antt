-- ===== src/Editor/Leases/Sweeps.antt =====
-- What `ExpireStaleSessions` reports.
use metal_docs.Prelude.{ℕ, ◌≡◌, refl, sym, ap, Bool, true, false}
use mathlib.Core.Path.{subst}
use metal_docs.Prelude.Committed.{write-passes}
use metal_docs.Prelude.Tests.{if◌then◌else◌, ◌==◌}
use metal_docs.Prelude.Lists.{count_if}
use metal_docs.Prelude.Result.{Result, ok, err}
use metal_docs.Prelude.Sql.{Fault, no_rows, never, Env, autocommit, settle, follow}
use metal_docs.Editor.Tables.{Tables, EditorError}
use metal_docs.Editor.Sessions.{
  expire_stale_sessions, first_count, points_to_stale, is_stale, sweep,
}
use metal_docs.Editor.Leases.{leases, expire}
use metal_docs.Editor.Leases.Refines.{sweep-expire}

abbrev counts : ℕ → Tables → ℕ × ℕ
counts now t = (count_if (points_to_stale now t) t.documents, count_if (is_stale now) t.sessions)

ran :
    (env : Env) (now : ℕ) (t : Tables)
    → env.fails 1 ≡ false
    → expire_stale_sessions env now t ≡ first_count (counts now t) (sweep env now t)
unfolding expire_stale_sessions autocommit settle follow
ran env now t works =
    ap (λ r. follow (settle t r) first_count)
      (write-passes t env 1 never "" (counts now) (sweep env now) works refl)

counted :
    (env : Env) (now : ℕ) (t : Tables) (b : Bool) (n : ℕ)
    → (leases
          (if◌then◌else◌ {A = Result (Fault EditorError) ℕ × Tables} b
            (err no_rows, sweep env now t)
            (ok n, sweep env now t)).1
        ≡ expire now (leases t))
      × ((if◌then◌else◌ {A = Result (Fault EditorError) ℕ × Tables} b
            (err no_rows, sweep env now t)
            (ok n, sweep env now t)).0
          ≡ (if b then err no_rows else ok n))
counted env now t true n = (sweep-expire env now t, refl)
counted env now t false n = (sweep-expire env now t, refl)

-- When the database answers, `ExpireStaleSessions` drops exactly the leases that have run out; but it
-- reports `sql.ErrNoRows` when no document points to one of them, so on every run that finds nothing
-- to do, and the number of expired sessions otherwise.
pub expire_stale_sessions-expire :
    (env : Env) (now : ℕ) (t : Tables)
    → env.fails 1 ≡ false
    → (leases (expire_stale_sessions env now t).1 ≡ expire now (leases t))
      × ((expire_stale_sessions env now t).0 ≡ (
          if count_if (points_to_stale now t) t.documents == 0
          then err no_rows
          else ok (count_if (is_stale now) t.sessions)))
unfolding first_count
expire_stale_sessions-expire env now t works =
    subst
      (λ r.
        (leases r.1 ≡ expire now (leases t))
        × (r.0 ≡ (
            if count_if (points_to_stale now t) t.documents == 0
            then err no_rows
            else ok (count_if (is_stale now) t.sessions))))
      (sym (ran env now t works))
      (counted env now t (count_if (points_to_stale now t) t.documents == 0) _)
