-- ===== src/Approval/Quorum.antt =====
-- The quorum of a stage (approval/domain/quorum.go). A Go set of identifiers is a list; a count is
-- a natural number; `m` is an integer, and sums with it are taken over its two parts.
pub mod Votes
pub mod Threshold
use metal_docs.Prelude.{ℕ, ◌+◌, String, Bool, true, false, Option, none, some, List, [], ◌∷◌}
use metal_docs.Prelude.Tests.{if◌then◌else◌, ◌==◌, ltb, leb}
use metal_docs.Prelude.Text.{str_eq}
use metal_docs.Prelude.Lists.{any, length, count_if}
use metal_docs.Prelude.Int.{ℤ, pos, pos_part, neg_part}
use metal_docs.Approval.Route.{QuorumPolicy, any_1_of, all_of, m_of_n, unknown}
use metal_docs.Approval.Signoff.{Signoff}
use metal_docs.Approval.Instance.{StageInstance}

pub data QuorumOutcome : Type 0 where
  quorum_pending approved_stage rejected_stage : QuorumOutcome

-- Membership in the set that the Go code builds from a slice.
abbrev pub member : List String → String → Bool
member ids id = any (str_eq id) ids

abbrev pub is_empty {ℓ} : {A : Type ℓ} → List A → Bool
is_empty [] = true
is_empty (_ ∷ _) = false

unfoldable pub compute_effective_denominator : StageInstance → List String → ℕ
compute_effective_denominator stage current =
    if is_empty stage.eligible_actor_ids
    then 0
    else if is_empty current
    then 0
    else count_if (member stage.eligible_actor_ids) current

-- The signoffs that count: all of them when no eligible set is configured.
unfoldable pub count_votes : List String → List Signoff → ℕ
count_votes eligible signoffs =
    if is_empty eligible
    then length signoffs
    else count_if (λ (s : Signoff). member eligible s.actor_user_id) signoffs

-- `1` when `QuorumMSnapshot` is nil.
abbrev pub required_m : Option ℤ → ℤ
required_m none = pos 1
required_m (some m) = m

-- The switch over the policy, on the counts of approvals and rejections.
unfoldable pub decide_quorum : QuorumPolicy → Option ℤ → ℕ → ℕ → ℕ → QuorumOutcome
decide_quorum any_1_of m approvals rejections denominator =
    if leb 1 approvals
    then approved_stage
    else if leb 1 rejections
    then rejected_stage
    else quorum_pending
decide_quorum all_of m approvals rejections denominator =
    if leb 1 rejections
    then rejected_stage
    else if leb denominator approvals
    then approved_stage
    else quorum_pending
decide_quorum m_of_n m approvals rejections denominator =
    let k = required_m m in
    if leb (pos_part k) (approvals + neg_part k)
    then approved_stage
    else if ltb (denominator + neg_part k) (rejections + pos_part k)
    then rejected_stage
    else quorum_pending
decide_quorum (unknown _) m approvals rejections denominator = quorum_pending

unfoldable pub evaluate_quorum : StageInstance → List Signoff → List Signoff → ℕ → QuorumOutcome
unfolding count_votes decide_quorum
evaluate_quorum stage approvals rejections denominator =
    if denominator == 0
    then rejected_stage
    else decide_quorum stage.quorum_snapshot stage.quorum_m_snapshot
        (count_votes stage.eligible_actor_ids approvals)
        (count_votes stage.eligible_actor_ids rejections) denominator
