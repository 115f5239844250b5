-- ===== src/Editor/Invariant/Closings.antt =====
-- A release, a forced release and the sweep close the sessions whose pointers they clear, and no
-- others.
use metal_docs.Prelude.{
  ℕ, String, ◌≡◌, refl, sym, Bool, true, false, ◌&&◌, ◌⊎◌, inl, inr, List, [], ◌∷◌, ◌+◌,
}
use mathlib.Core.Path.{subst}
use mathlib.Core.Bool.{or-true}
use metal_docs.Prelude.{arith}
use metal_docs.Prelude.Tests.{if◌then◌else◌, Bool-cases, both, ◌==◌}
use metal_docs.Prelude.Text.{str_eq, str_eq_iff, str_eq-sym, str_eq-clash}
use metal_docs.Prelude.Lists.{any, find_if-holds, count_if, All, All-imp}
use metal_docs.Prelude.Rows.{AreDistinct, find_if-only, All-members, any-find}
use metal_docs.Prelude.Sql.{Env}
use metal_docs.Editor.Tables.{Session, released, force_released, expired, Tables, is_active}
use metal_docs.Editor.Documents.{set_sessions}
use metal_docs.Editor.Sessions.{
  clear_pointers, end_session, is_session_of, is_open_session, is_stale, expires_id, sweep,
}
use metal_docs.Editor.Invariant.{IsConsistent, session_ids}
use metal_docs.Editor.Invariant.Seats.{IsApart, IsConsistent-close}

forced-IsApart : (id : String) (s : Session) → IsApart (is_open_session id) (str_eq id) s
forced-IsApart id s = elim (Bool-cases (str_eq s.id id)) [
  | inl same ↦ elim (Bool-cases (is_active s)) [
    | inl alive ↦ inr (inl (rw (same, alive) refl))
    | inr idle ↦ inl idle
  ]
  | inr other ↦ inr (inr (str_eq-sym s.id id other))
]

pub IsConsistent-force :
    (now : ℕ) (id : String) (t : Tables)
    → IsConsistent t
    → IsConsistent (
        clear_pointers now
          (str_eq id)
          (set_sessions (is_open_session id) (end_session force_released now) t))
IsConsistent-force now id t c =
    IsConsistent-close (is_open_session id) (end_session force_released now) (str_eq id) now t
      (λ s. refl) (λ s. refl) (λ s. refl) (all_apart t.sessions) c
  where
    all_apart : (rows : List Session) → All (IsApart (is_open_session id) (str_eq id)) rows
    all_apart [] = tt
    all_apart (s ∷ rows) = (forced-IsApart id s, all_apart rows)

counted_here :
    (b : Bool) (n : ℕ) → (((if b then 1 else 0) + n) == 0) ≡ false → (b ≡ true) ⊎ ((n == 0) ≡ false)
counted_here true n h = inl refl
counted_here false n h = inr (ground arith)

pub count_if-any :
    {A : Type 0} (p : A → Bool) (rows : List A) → (count_if p rows == 0) ≡ false → any p rows ≡ true
count_if-any p [] h = cc
count_if-any p (x ∷ rows) h = elim (counted_here (p x) (count_if p rows) h) [
  | inl hit ↦ rw hit refl
  | inr later ↦ rw (count_if-any p rows later) (or-true (p x))
]

pub IsConsistent-release :
    (now : ℕ) (id user : String) (t : Tables)
    → (count_if (is_session_of id user) t.sessions == 0) ≡ false
    → IsConsistent t
    → IsConsistent (
        clear_pointers now
          (str_eq id)
          (set_sessions (is_session_of id user) (end_session released now) t))
IsConsistent-release now id user t counted c =
    let (mine, found) =
      any-find (is_session_of id user) t.sessions (count_if-any _ t.sessions counted) in
    let hit = find_if-holds (is_session_of id user) t.sessions found in
    let is_id = (str_eq_iff mine.id id).0 (both _ _ (both _ _ hit).0).0 in
    IsConsistent-close (is_session_of id user) (end_session released now) (str_eq id) now t
      (λ s. refl) (λ s. refl) (λ s. refl)
      (All-imp _ _ t.sessions
        (λ s only. elim only [
          | inl other ↦
              inr (inr (str_eq-sym s.id id (subst (λ i. str_eq s.id i ≡ false) is_id other)))
          | inr same ↦ inr (inl (subst (λ s. is_session_of id user s ≡ true) (sym same) hit))
        ])
        (find_if-only (λ (s : Session). s.id) (is_session_of id user) t.sessions c.sessions found))
      c

-- A session that is not stale is not swept under the identifier of another one.
stale-IsApart :
    (now : ℕ) (t : Tables)
    → AreDistinct (session_ids t.sessions)
    → All (IsApart (is_stale now) (expires_id now t)) t.sessions
stale-IsApart now t distinct = All-members _ t.sessions (λ s self.
    elim (Bool-cases (expires_id now t s.id)) [
      | inr kept ↦ inr (inr kept)
      | inl gone ↦
          let named = λ (r : Session). is_stale now r && str_eq r.id s.id in
          let (r, found) = any-find named t.sessions gone in
          let (stale, same) = both _ _ (find_if-holds named t.sessions found) in
          let only : All (λ (y : Session). (str_eq y.id r.id ≡ false) ⊎ (y ≡ r)) t.sessions =
            find_if-only (λ (s : Session). s.id) named t.sessions distinct found in
          elim (self _ only) [
            | inl other ↦
                let differs =
                  subst (λ i. str_eq s.id i ≡ false) ((str_eq_iff r.id s.id).0 same) other in
                str_eq-clash s.id s.id refl differs
            | inr is_r ↦ inr (inl (subst (λ s. is_stale now s ≡ true) (sym is_r) stale))
          ]
    ])

pub IsConsistent-sweep :
    (env : Env) (now : ℕ) (t : Tables) → IsConsistent t → IsConsistent (sweep env now t)
IsConsistent-sweep env now t c =
    IsConsistent-close (is_stale now) (λ s. record s { status = expired }) (expires_id now t)
      env.now t (λ s. refl) (λ s. refl) (λ s. refl) (stale-IsApart now t c.sessions) c
