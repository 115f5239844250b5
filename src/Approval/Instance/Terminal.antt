-- ===== src/Approval/Instance/Terminal.antt =====
-- Instances that are over (approval/domain/instance.go).
use mathlib.Core.Path.{subst}
use metal_docs.Prelude.{
  ℕ, String, ◌≡◌, ◌⊎◌, inl, inr, refl, sym, ◌∙◌, true, false, none, some, List, [], ◌∷◌, ◌++◌,
  arith,
}
use metal_docs.Prelude.Result.{ok, err, ok-injective}
use metal_docs.Prelude.Lists.{All, All-append, All-imp}
use metal_docs.Approval.Instance.{
  Instance, StageInstance, completed, rejected_here, cancelled, is_active, no_active_stage,
  instance_terminal, in_progress, approved, rejected, is_terminal, split_active, activate_next,
  advance_stage, reject_here, skip_stage, cancel,
}
use metal_docs.Approval.Instance.Shape.{IsDone, IsWaiting, IsRunning, waiting}
use metal_docs.Approval.Instance.Progress.{
  Finishes, split_active-IsRunning, advance_stage-IsRunning,
}

-- The instance has ended, and none of its stages is active.
pub record IsClosed (inst : Instance) : Type 0 where
  pub ended : is_terminal inst.status ≡ true
  pub idle : split_active inst.stages ≡ none

-- There is no active stage to advance, reject or skip, and nothing to cancel.
pub record Refuses (now : ℕ) (reason : String) (inst : Instance) : Type 0 where
  pub advance : advance_stage now inst ≡ err no_active_stage
  pub reject : reject_here now reason inst ≡ err no_active_stage
  pub skip : skip_stage now reason inst ≡ err no_active_stage
  pub stop : cancel now inst ≡ err instance_terminal

IsClosed-Refuses :
    (now : ℕ) (reason : String) (inst : Instance) → IsClosed inst → Refuses now reason inst
unfolding advance_stage reject_here skip_stage cancel
IsClosed-Refuses now reason inst c = record {
  advance = rw (c.idle, advance_stage);
  reject = rw (c.idle, reject_here);
  skip = rw (c.idle, skip_stage);
  stop = rw (c.ended, cancel);
}

abbrev IsIdle : StageInstance → Type 0
IsIdle s = is_active s.status ≡ false

split_active_idle : (stages : List StageInstance) → All IsIdle stages → split_active stages ≡ none
unfolding split_active
split_active_idle [] h = refl
split_active_idle (s ∷ stages) h = ground (arith, split_active_idle stages h.1)

done-IsIdle : (stages : List StageInstance) → All IsDone stages → All IsIdle stages
done-IsIdle stages d = All-imp IsDone IsIdle stages (λ s h. ground arith) d

waiting-IsIdle : (stages : List StageInstance) → All IsWaiting stages → All IsIdle stages
waiting-IsIdle stages w = All-imp IsWaiting IsIdle stages (λ s h. rw h) w

-- `RejectHere` ends an instance in progress: it succeeds, the instance is rejected, and it is closed.
pub reject_here-IsClosed :
    (now : ℕ) (reason : String) (inst : Instance)
    → IsRunning inst.stages
    → (next : Instance) × (reject_here now reason inst ≡ ok next)
      × (next.status ≡ rejected)
      × IsClosed next
unfolding reject_here
reject_here-IsClosed now reason inst r =
    let out : StageInstance = record r.current {
      status = rejected_here;
      skip_reason = reason;
      completed_at = some now;
    } in
    (
      record inst {
        stages = r.before ++ (out ∷ r.after);
        status = rejected;
        completed_at = some now;
      },
      rw (split_active-IsRunning inst.stages r, reject_here),
      refl,
      record {
        ended = refl;
        idle = split_active_idle (r.before ++ (out ∷ r.after)) (
            All-append IsIdle r.before (out ∷ r.after) (done-IsIdle r.before r.before_done)
              (refl, waiting-IsIdle r.after r.after_waiting));
      },
    )

-- The step that approves an instance closes it.
Finishes-IsClosed : (inst next : Instance) → Finishes inst next → IsClosed next
Finishes-IsClosed inst next f = record {
  ended = rw f.now_approved;
  idle = split_active_idle next.stages (done-IsIdle next.stages f.all_done);
}

-- An instance in progress that has ended, because `RejectHere` rejected it or because `AdvanceStage`
-- completed its last stage, refuses every later operation: to advance, to reject and to skip a
-- stage, since none is active, and to be cancelled, since it is over.
pub ended-Refuses :
    (now later : ℕ) (reason why : String) (inst next : Instance)
    → IsRunning inst.stages
    → inst.status ≡ in_progress
    → (reject_here now reason inst ≡ ok next)
      ⊎ ((advance_stage now inst ≡ ok next) × (waiting inst.stages ≡ 0))
    → Refuses later why next
ended-Refuses now later reason why inst next r st (inl rejects) =
    let (closed, rejects', _, is_closed) = reject_here-IsClosed now reason inst r in
    IsClosed-Refuses later why next
      (subst IsClosed (ok-injective (sym rejects' ∙ rejects)) is_closed)
ended-Refuses now later reason why inst next r st (inr (advances, last)) =
    let (closed, advances', how) = advance_stage-IsRunning now inst r st in
    IsClosed-Refuses later why next (
      subst IsClosed (ok-injective (sym advances' ∙ advances)) (elim how [
        | inl more ↦ absurd (omega (arith, more.one_less, last))
        | inr finishes ↦ Finishes-IsClosed inst closed finishes
      ]))

activate_next_last :
    (now : ℕ) (after : List StageInstance) → after ≡ [] → activate_next now after ≡ none
unfolding activate_next
activate_next_last now after e = rw e

-- `Cancel` does not close an instance: its last active stage stays active, `AdvanceStage` does not
-- look at the status, and the cancelled instance becomes an approved one.
pub cancel-advance_stage_approves :
    (now : ℕ) (inst : Instance) (r : IsRunning inst.stages)
    → inst.status ≡ in_progress
    → r.after ≡ []
    → (stopped last : Instance) × (cancel now inst ≡ ok stopped)
      × (stopped.status ≡ cancelled)
      × (advance_stage now stopped ≡ ok last)
      × (last.status ≡ approved)
unfolding cancel advance_stage
cancel-advance_stage_approves now inst r st e =
    let stopped : Instance = record inst { status = cancelled; completed_at = some now } in
    let done : StageInstance = record r.current { status = completed; completed_at = some now } in
    (
      stopped,
      record stopped {
        stages = r.before ++ (done ∷ r.after);
        status = approved;
        completed_at = some now;
      },
      rw (st, cancel),
      refl,
      rw (split_active-IsRunning inst.stages r, advance_stage, activate_next_last now r.after e),
      refl,
    )
