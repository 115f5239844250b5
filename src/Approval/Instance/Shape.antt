-- ===== src/Approval/Instance/Shape.antt =====
-- The order of the stages of an instance under review: finished ones, the active one, waiting ones.
use metal_docs.Prelude.{ℕ, ◌+◌, ◌≡◌, ◌⊎◌, refl, none, some, List, [], ◌∷◌, ◌++◌, arith}
use metal_docs.Prelude.Lists.{All, count_if}
use metal_docs.Approval.Instance.{
  StageInstance, pending, active, completed, skipped, is_pending, split_active, activate_next,
}

-- A stage that is over: completed, or skipped.
abbrev pub IsDone : StageInstance → Type 0
IsDone s = (s.status ≡ completed) ⊎ (s.status ≡ skipped)

abbrev pub IsWaiting : StageInstance → Type 0
IsWaiting s = s.status ≡ pending

-- The stages as they are while the instance is in progress.
pub record IsRunning (stages : List StageInstance) : Type 0 where
  pub before : List StageInstance
  pub current : StageInstance
  pub after : List StageInstance
  pub split : stages ≡ before ++ (current ∷ after)
  pub before_done : All IsDone before
  pub current_active : current.status ≡ active
  pub after_waiting : All IsWaiting after

-- How many stages wait for their turn.
abbrev pub waiting : List StageInstance → ℕ
waiting = count_if (λ (s : StageInstance). is_pending s.status)

pub split_active-append :
    (before : List StageInstance) (a : StageInstance) (after : List StageInstance)
    → All IsDone before
    → a.status ≡ active
    → split_active (before ++ (a ∷ after)) ≡ some (before, a, after)
unfolding split_active
split_active-append [] a after d e = rw e
split_active-append (s ∷ before) a after d e =
    ground (arith, split_active-append before a after d.1 e)

split_active-finished :
    (stages : List StageInstance) → All IsDone stages → split_active stages ≡ none
unfolding split_active
split_active-finished [] d = refl
split_active-finished (s ∷ stages) d = ground (arith, split_active-finished stages d.1)

pub activate_next-waiting :
    (now : ℕ) (s : StageInstance) (stages : List StageInstance)
    → s.status ≡ pending
    → activate_next now (s ∷ stages)
      ≡ some (record s { status = active; opened_at = some now } ∷ stages)
unfolding activate_next
activate_next-waiting now s stages e = rw (e, activate_next)

pub waiting-append : (xs ys : List StageInstance) → waiting (xs ++ ys) ≡ waiting xs + waiting ys
waiting-append [] ys = omega arith
waiting-append (x ∷ xs) ys = omega (arith, waiting-append xs ys)

pub waiting-done : (xs : List StageInstance) → All IsDone xs → waiting xs ≡ 0
waiting-done [] d = refl
waiting-done (x ∷ xs) d = ground (arith, waiting-done xs d.1)
