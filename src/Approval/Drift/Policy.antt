-- ===== src/Approval/Drift/Policy.antt =====
-- The outcome of the drift policies (approval/domain/drift.go), against quorum.go's denominator.
use metal_docs.Prelude.{
  ℕ, ◌-◌, ◌^◌, ◌≤◌, ◌<◌, ◌≡◌, ◌⊎◌, ◌↔◌, inl, inr, refl, sym, ◌∙◌, String, true, false, not, some,
  List, [], ◌∷◌, ◌++◌, arith,
}
use metal_docs.Prelude.Tests.{if◌then◌else◌, Bool-cases, ltb}
use metal_docs.Prelude.Text.{codes}
use metal_docs.Prelude.Lists.{any, All, length, count_if, count_if-le}
use metal_docs.Approval.Route.{reduce_quorum, fail_stage}
use metal_docs.Approval.Route.Valid.{AreDistinct}
use metal_docs.Approval.Instance.{StageInstance}
use metal_docs.Approval.Quorum.{
  quorum_pending, rejected_stage, member, is_empty, compute_effective_denominator,
}
use metal_docs.Approval.Quorum.Votes.{count_if-member_comm, count_if_none}
use metal_docs.Approval.Drift.{
  DriftResult, reduced_reason, drift_by_policy, apply_eligibility_drift,
}
use metal_docs.Approval.Drift.Itoa.{itoa_reads_back}

reduced_reason_total :
    (delta : ℕ) → delta < 2 ^ 63 → (text : List ℕ) × (reduced_reason delta ≡ some text)
unfolding reduced_reason
reduced_reason_total delta h = elim (Bool-cases (ltb 0 delta)) [
  | inl some_left ↦
      let written = itoa_reads_back delta h in
      (
        codes "eligibility drift: reduce_quorum policy, denominator reduced by " ++ written.0,
        rw (some_left, written.1),
      )
  | inr none_left ↦ ([], rw none_left)
]

-- Every actor of the snapshot is still eligible.
abbrev pub StillEligible : List String → List String → Type 0
StillEligible current = All (λ id. member current id ≡ true)

any_departed :
    (eligible current : List String)
    → (any (λ id. not (member current id)) eligible ≡ false) ↔ StillEligible current eligible
any_departed [] current = (λ _. tt, λ _. refl)
any_departed (id ∷ eligible) current = (
  λ h. (ground arith, (any_departed eligible current).0 (ground arith)),
  λ h. ground (arith, (any_departed eligible current).1 h.1),
)

-- The early returns of `ComputeEffectiveDenominator` agree with its loop.
count_or_none :
    (eligible current : List String)
    → (if is_empty eligible
        then 0
        else if is_empty current
        then 0
        else count_if (member eligible) current)
      ≡ count_if (member eligible) current
count_or_none [] current = rw (count_if_none current)
count_or_none (x ∷ eligible) [] = refl
count_or_none (x ∷ eligible) (y ∷ current) = refl

compute_effective_denominator-count_if :
    (stage : StageInstance) (current : List String)
    → compute_effective_denominator stage current
      ≡ count_if (member stage.eligible_actor_ids) current
unfolding compute_effective_denominator
compute_effective_denominator-count_if stage current =
    count_or_none stage.eligible_actor_ids current

reduces :
    (eligible current : List String)
    → length eligible < 2 ^ 63
    → (res : DriftResult) × (drift_by_policy reduce_quorum eligible current ≡ some res)
      × (res.effective_denominator ≡ count_if (member current) eligible)
      × (res.forced_outcome ≡ quorum_pending)
unfolding drift_by_policy
reduces eligible current h =
    let (text, written) =
      reduced_reason_total (length eligible - count_if (member current) eligible) (omega arith) in
    (
      record {
        effective_denominator = count_if (member current) eligible;
        forced_outcome = quorum_pending;
        reason = text;
      },
      rw (written, drift_by_policy),
      refl,
      refl,
    )

-- Under `reduce_quorum`, over lists without duplicates, the drift forces no outcome, and it sets the
-- denominator to the one that `ComputeEffectiveDenominator` counts the other way round, which is
-- at most the size of the snapshot. (The snapshot's size is an `int`.)
pub apply_eligibility_drift-reduce :
    (stage : StageInstance) (current : List String)
    → stage.on_eligibility_drift_snapshot ≡ reduce_quorum
    → length stage.eligible_actor_ids < 2 ^ 63
    → AreDistinct stage.eligible_actor_ids
    → AreDistinct current
    → (res : DriftResult) × (apply_eligibility_drift stage current ≡ some res)
      × (res.effective_denominator ≡ compute_effective_denominator stage current)
      × (res.effective_denominator ≤ length stage.eligible_actor_ids)
      × (res.forced_outcome ≡ quorum_pending)
unfolding apply_eligibility_drift
apply_eligibility_drift-reduce stage current p h de dc =
    let eligible : List String = stage.eligible_actor_ids in
    let (res, ran, denominator, forced) = reduces eligible current h in
    (
      res,
      rw p ran,
      denominator
          ∙ count_if-member_comm eligible current de dc
          ∙ sym (compute_effective_denominator-count_if stage current),
      rw denominator (count_if-le (member current) eligible),
      forced,
    )

-- Under `fail_stage` the outcome is forced to a rejection, with denominator 0, exactly when an actor
-- of the snapshot is no longer eligible; otherwise nothing is forced and the denominator is the
-- size of the snapshot.
apply_eligibility_drift-fail :
    (stage : StageInstance) (current : List String)
    → stage.on_eligibility_drift_snapshot ≡ fail_stage
    → (res : DriftResult) × (apply_eligibility_drift stage current ≡ some res)
      × ((StillEligible current stage.eligible_actor_ids
            × (res.forced_outcome ≡ quorum_pending)
            × (res.effective_denominator ≡ length stage.eligible_actor_ids))
          ⊎ ((¬ StillEligible current stage.eligible_actor_ids)
              × (res.forced_outcome ≡ rejected_stage)
              × (res.effective_denominator ≡ 0)))
unfolding apply_eligibility_drift drift_by_policy
apply_eligibility_drift-fail stage current p =
    let eligible : List String = stage.eligible_actor_ids in
    elim (Bool-cases (any (λ id. not (member current id)) eligible)) [
      | inl departed ↦ (
        record {
          effective_denominator = 0;
          forced_outcome = rejected_stage;
          reason = codes "eligibility drift: fail_stage policy";
        },
        rw (p, departed),
        inr (λ all. cc ((any_departed eligible current).1 all), refl, refl),
      )
      | inr present ↦ (
        record {
          effective_denominator = length eligible;
          forced_outcome = quorum_pending;
          reason = [];
        },
        rw (p, present),
        inl ((any_departed eligible current).0 present, refl, refl),
      )
    ]
