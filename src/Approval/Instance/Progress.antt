-- ===== src/Approval/Instance/Progress.antt =====
-- `AdvanceStage` and `SkipStage` (approval/domain/instance.go) on an instance in progress.
use mathlib.Core.List.{append_assoc}
use metal_docs.Prelude.{
  ℕ, zero, suc, ◌+◌, String, ◌≡◌, ◌⊎◌, inl, inr, refl, ap, ◌∙◌, some, List, [], ◌∷◌, ◌++◌, map,
  arith,
}
use metal_docs.Prelude.Result.{Result, ok, err, and_then}
use metal_docs.Prelude.Lists.{All, All-append, List-cases}
use metal_docs.Approval.Instance.{
  Instance, StageInstance, InstanceError, cannot_skip_last_stage, in_progress, approved, active,
  completed, skipped, split_active, advance_stage, skip_stage,
}
use metal_docs.Approval.Instance.Shape.{
  IsDone, IsWaiting, IsRunning, waiting, split_active-append, activate_next-waiting, waiting-append,
  waiting-done,
}

abbrev pub stage_ids : List StageInstance → List String
stage_ids = map (λ (s : StageInstance). s.id)

stage_ids-append :
    (xs ys zs : List StageInstance)
    → stage_ids ys ≡ stage_ids zs
    → stage_ids (xs ++ ys) ≡ stage_ids (xs ++ zs)
stage_ids-append [] ys zs h = h
stage_ids-append (x ∷ xs) ys zs h = cc (stage_ids-append xs ys zs h)

pub split_active-IsRunning :
    (stages : List StageInstance) (r : IsRunning stages)
    → split_active stages ≡ some (r.before, r.current, r.after)
split_active-IsRunning stages r =
    rw r.split (split_active-append r.before r.current r.after r.before_done r.current_active)

-- The stages with the current one replaced by a finished one and the next one active.
module _ (now : ℕ) (done : StageInstance) where
  abbrev handed_over :
      (before : List StageInstance) (n : StageInstance) (rest : List StageInstance)
      → List StageInstance
  handed_over before n rest =
      before ++ (done ∷ record n { status = active; opened_at = some now } ∷ rest)

  handed_over-IsRunning :
      (before : List StageInstance) (n : StageInstance) (rest : List StageInstance)
      → All IsDone before
      → IsDone done
      → All IsWaiting rest
      → IsRunning (handed_over before n rest)
  handed_over-IsRunning before n rest b d w = record {
    before = before ++ (done ∷ []);
    current = record n { status = active; opened_at = some now };
    after = rest;
    split = simp append_assoc;
    before_done = All-append IsDone before (done ∷ []) b (d, tt);
    current_active = refl;
    after_waiting = w;
  }

-- What a step that ends the current stage makes of a running instance.
pub record Continues (inst next : Instance) : Type 0 where
  pub one_less : waiting inst.stages ≡ suc (waiting next.stages)
  pub still_running : IsRunning next.stages
  pub still_in_progress : next.status ≡ in_progress
  pub same_stages : stage_ids next.stages ≡ stage_ids inst.stages

pub record Finishes (inst next : Instance) : Type 0 where
  pub none_left : waiting inst.stages ≡ 0
  pub all_done : All IsDone next.stages
  pub now_approved : next.status ≡ approved
  pub same_stages : stage_ids next.stages ≡ stage_ids inst.stages

waiting_falls :
    (now : ℕ) (a done : StageInstance) (before : List StageInstance) (n : StageInstance)
    (rest : List StageInstance)
    → IsDone done
    → a.status ≡ active
    → IsWaiting n
    → waiting (before ++ (a ∷ n ∷ rest)) ≡ suc (waiting (handed_over now done before n rest))
waiting_falls now a done before n rest d act wn = rw (waiting-append, waiting-append) (ground arith)

waiting_current :
    {stages : List StageInstance} (r : IsRunning stages) → 0 + waiting (r.current ∷ []) ≡ 0
waiting_current r = ground (arith, r.current_active)

module _ (now : ℕ) (inst : Instance) (before : List StageInstance) (a : StageInstance) where
  abbrev finished : StageInstance
  finished = record a { status = completed; completed_at = some now }

  abbrev left_out : String → StageInstance
  left_out reason = record a { status = skipped; skip_reason = reason; completed_at = some now }

  stages_split :
      (after : List StageInstance)
      → inst.stages ≡ before ++ (a ∷ after)
      → All IsDone before
      → a.status ≡ active
      → split_active inst.stages ≡ some (before, a, after)
  stages_split after e b act = rw e (split_active-append before a after b act)

  continues :
      (done : StageInstance) (n : StageInstance) (rest : List StageInstance)
      → inst.stages ≡ before ++ (a ∷ n ∷ rest)
      → All IsDone before
      → IsDone done
      → a.status ≡ active
      → done.id ≡ a.id
      → IsWaiting n
      → All IsWaiting rest
      → inst.status ≡ in_progress
      → Continues inst (record inst { stages = handed_over now done before n rest })
  continues done n rest e b d act same wn wr st = record {
    one_less = rw e (waiting_falls now a done before n rest d act wn);
    still_running = handed_over-IsRunning now done before n rest b d wr;
    still_in_progress = st;
    same_stages = rw e (stage_ids-append before _ _ (cc same));
  }

  advance_split :
      (after : List StageInstance)
      → inst.stages ≡ before ++ (a ∷ after)
      → All IsDone before
      → a.status ≡ active
      → All IsWaiting after
      → inst.status ≡ in_progress
      → (next : Instance) × (advance_stage now inst ≡ ok next)
        × (Continues inst next ⊎ Finishes inst next)
  unfolding advance_stage
  advance_split [] e b act w st = (
    record inst { stages = before ++ (finished ∷ []); status = approved; completed_at = some now },
    rw (stages_split [] e b act, advance_stage),
    inr (record {
      none_left = rw (e, waiting-append, waiting-done before b) (ground arith);
      all_done = All-append IsDone before (finished ∷ []) b (inl refl, tt);
      now_approved = refl;
      same_stages = rw e (stage_ids-append before (finished ∷ []) (a ∷ []) refl);
    }),
  )
  advance_split (n ∷ rest) e b act w st = (
    record inst { stages = handed_over now finished before n rest },
    rw (stages_split (n ∷ rest) e b act, advance_stage, activate_next-waiting now n rest w.0),
    inl (continues finished n rest e b (inl refl) act refl w.0 w.1 st),
  )

  skip_split :
      (reason : String) (n : StageInstance) (rest : List StageInstance)
      → inst.stages ≡ before ++ (a ∷ n ∷ rest)
      → All IsDone before
      → a.status ≡ active
      → All IsWaiting (n ∷ rest)
      → inst.status ≡ in_progress
      → (next : Instance) × (skip_stage now reason inst ≡ ok next) × Continues inst next
  unfolding skip_stage
  skip_split reason n rest e b act w st = (
    record inst { stages = handed_over now (left_out reason) before n rest },
    rw (stages_split (n ∷ rest) e b act, skip_stage, activate_next-waiting now n rest w.0),
    continues (left_out reason) n rest e b (inr refl) act refl w.0 w.1 st,
  )

  skip_last :
      (reason : String)
      → inst.stages ≡ before ++ (a ∷ [])
      → All IsDone before
      → a.status ≡ active
      → skip_stage now reason inst ≡ err cannot_skip_last_stage
  unfolding skip_stage
  skip_last reason e b act = rw (stages_split [] e b act, skip_stage)

-- While an instance is in progress, `AdvanceStage` succeeds. If a stage is waiting, the next one
-- becomes the active one, and one fewer waits; if none is, every stage is done and the instance is
-- approved. No stage is added, lost or moved.
pub advance_stage-IsRunning :
    (now : ℕ) (inst : Instance)
    → IsRunning inst.stages
    → inst.status ≡ in_progress
    → (next : Instance) × (advance_stage now inst ≡ ok next)
      × (Continues inst next ⊎ Finishes inst next)
advance_stage-IsRunning now inst r st =
    advance_split now inst r.before r.current r.after r.split r.before_done r.current_active
      r.after_waiting st

-- While an instance is in progress, `SkipStage` either succeeds, and then the next stage is the
-- active one and one fewer waits, or no stage waits, and then it refuses to skip the last stage.
pub skip_stage-IsRunning :
    (now : ℕ) (reason : String) (inst : Instance)
    → IsRunning inst.stages
    → inst.status ≡ in_progress
    → ((next : Instance) × (skip_stage now reason inst ≡ ok next) × Continues inst next)
      ⊎ ((waiting inst.stages ≡ 0) × (skip_stage now reason inst ≡ err cannot_skip_last_stage))
skip_stage-IsRunning now reason inst r st = elim (List-cases r.after) [
  | inl last ↦
      let e : inst.stages ≡ r.before ++ (r.current ∷ []) =
        r.split ∙ ap (λ l. r.before ++ (r.current ∷ l)) last in
      inr (
        rw (e, waiting-append, waiting-done r.before r.before_done) (waiting_current r),
        skip_last now inst r.before r.current reason e r.before_done r.current_active,
      )
  | inr (n, rest, more) ↦
      let e : inst.stages ≡ r.before ++ (r.current ∷ n ∷ rest) =
        r.split ∙ ap (λ l. r.before ++ (r.current ∷ l)) more in
      inl (
        skip_split now inst r.before r.current reason n rest e r.before_done r.current_active
          (rw more at r.after_waiting) st)
]

-- `AdvanceStage` a number of times.
pub advance_times : ℕ → ℕ → Instance → Result InstanceError Instance
advance_times zero now inst = ok inst
advance_times (suc n) now inst = and_then (advance_times n now) (advance_stage now inst)

advance-All_from :
    (n now : ℕ) (inst : Instance)
    → waiting inst.stages ≡ n
    → IsRunning inst.stages
    → inst.status ≡ in_progress
    → (last : Instance) × (advance_times (suc n) now inst ≡ ok last)
      × (last.status ≡ approved)
      × All IsDone last.stages
unfolding advance_times
advance-All_from zero now inst e r st =
    let (next, run, how) = advance_stage-IsRunning now inst r st in
    elim how [
      | inl c ↦ absurd (omega (arith, c.one_less))
      | inr f ↦ (next, rw run, f.now_approved, f.all_done)
    ]
advance-All_from (suc n) now inst e r st =
    let (next, run, how) = advance_stage-IsRunning now inst r st in
    elim how [
      | inl c ↦
          let (last, ran, ok_last, done) =
            advance-All_from n now next (omega (arith, c.one_less)) c.still_running
              c.still_in_progress in
          (last, rw run ran, ok_last, done)
      | inr f ↦ absurd (omega (arith, f.none_left))
    ]

-- An instance in progress with n waiting stages is approved, with every stage done, after exactly
-- n + 1 calls of `AdvanceStage`, each of which succeeds.
pub advance_times-approved :
    (now : ℕ) (inst : Instance)
    → IsRunning inst.stages
    → inst.status ≡ in_progress
    → (last : Instance) × (advance_times (suc (waiting inst.stages)) now inst ≡ ok last)
      × (last.status ≡ approved)
      × All IsDone last.stages
advance_times-approved now inst r st = advance-All_from (waiting inst.stages) now inst refl r st
