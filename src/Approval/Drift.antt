-- ===== src/Approval/Drift.antt =====
-- Eligibility drift of a stage (approval/domain/drift.go).
pub mod Itoa
pub mod Policy
use metal_docs.Prelude.{
  ℕ, zero, suc, ◌+◌, ◌-◌, ◌/◌, ◌%◌, String, Bool, not, Option, none, some, List, [], ◌∷◌, ◌++◌,
}
use metal_docs.Prelude.Tests.{if◌then◌else◌, ltb, leb}
use metal_docs.Prelude.Text.{codes}
use metal_docs.Prelude.Lists.{any, length, count_if}
use metal_docs.Prelude.Int.{ℤ, pos, negsuc}
use metal_docs.Approval.Route.{DriftPolicy, reduce_quorum, fail_stage, keep_snapshot, unknown}
use metal_docs.Approval.Instance.{StageInstance}
use metal_docs.Approval.Quorum.{QuorumOutcome, quorum_pending, rejected_stage, member}

-- The loop of `itoa` and the digit after it. `room` is `pos`, the bytes of the buffer that are still
-- free; a write with none free is the index panic, `none`. The text so far is the rest of the buffer.
unfoldable pub itoa_from : ℕ → ℕ → List ℕ → Option (List ℕ)
itoa_from zero n text = none
itoa_from (suc room) n text =
    let more = itoa_from room (n / 10) ((b'0' + n % 10) ∷ text) in
    if leb 10 n then more else some ((b'0' + n) ∷ text)

-- The sign takes one more byte.
unfoldable pub write_sign : ℕ → List ℕ → Option (List ℕ)
write_sign used text = if leb 20 used then none else some (b'-' ∷ text)

-- `itoa`, over its buffer of 20 bytes.
unfoldable pub itoa : ℤ → Option (List ℕ)
itoa (pos zero) = some (b'0' ∷ [])
itoa (pos (suc n)) = itoa_from 20 (suc n) []
itoa (negsuc n) = elim (itoa_from 20 (suc n) []) [
  | none ↦ none
  | some text ↦ write_sign (length text) text
]

pub record DriftResult : Type 0 where
  pub effective_denominator : ℕ
  pub forced_outcome : QuorumOutcome
  pub reason : List ℕ

-- The reason given for a reduced denominator; `none` is the panic of `itoa`.
unfoldable pub reduced_reason : ℕ → Option (List ℕ)
reduced_reason delta =
    if ltb 0 delta
    then elim (itoa (pos delta)) [
      | none ↦ none
      | some text ↦
          some (codes "eligibility drift: reduce_quorum policy, denominator reduced by " ++ text)
    ]
    else some []

-- The policy switch. `current` is the set of the actors who are eligible now.
unfoldable pub drift_by_policy : DriftPolicy → List String → List String → Option DriftResult
drift_by_policy reduce_quorum eligible current =
    let denominator = count_if (member current) eligible in
    elim (reduced_reason (length eligible - denominator)) [
      | none ↦ none
      | some text ↦ some (record {
        effective_denominator = denominator;
        forced_outcome = quorum_pending;
        reason = text;
      })
    ]
drift_by_policy fail_stage eligible current =
    if any (λ id. not (member current id)) eligible
    then some (record {
      effective_denominator = 0;
      forced_outcome = rejected_stage;
      reason = codes "eligibility drift: fail_stage policy";
    })
    else some (record {
      effective_denominator = length eligible;
      forced_outcome = quorum_pending;
      reason = [];
    })
drift_by_policy keep_snapshot eligible current = some (record {
  effective_denominator = length eligible;
  forced_outcome = quorum_pending;
  reason = [];
})
drift_by_policy (unknown _) eligible current = some (record {
  effective_denominator = length eligible;
  forced_outcome = quorum_pending;
  reason = [];
})

unfoldable pub apply_eligibility_drift : StageInstance → List String → Option DriftResult
unfolding drift_by_policy
apply_eligibility_drift stage current =
    drift_by_policy stage.on_eligibility_drift_snapshot stage.eligible_actor_ids current
