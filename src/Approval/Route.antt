-- ===== src/Approval/Route.antt =====
-- Approval routes (approval/domain/route.go).
pub mod Valid
use metal_docs.Prelude.{
  ℕ, suc, ◌+◌, String, Bool, true, false, not, ◌≡◌, Option, none, some, List, [], ◌∷◌,
}
use metal_docs.Prelude.Tests.{if◌then◌else◌, ◌==◌}
use metal_docs.Prelude.Text.{str_eq}
use metal_docs.Prelude.Lists.{any}
use metal_docs.Prelude.Int.{ℤ, pos, ltb_ℤ, eqb_ℤ}

-- The Go types are strings: a value that is none of the constants is `unknown`.
pub data QuorumPolicy : Type 0 where
  any_1_of all_of m_of_n : QuorumPolicy
  unknown : String → QuorumPolicy

pub data DriftPolicy : Type 0 where
  reduce_quorum fail_stage keep_snapshot : DriftPolicy
  unknown : String → DriftPolicy

pub record Stage : Type 0 where
  pub order : ℤ
  pub name : String
  pub required_role : String
  pub required_capability : String
  pub area_code : String
  pub quorum : QuorumPolicy
  pub quorum_m : Option ℤ
  pub on_eligibility_drift : DriftPolicy

pub record Route : Type 0 where
  pub id : String
  pub tenant_id : String
  pub profile_code : String
  pub version : ℕ
  pub stages : List Stage

-- The errors of `Route.Validate`, in the order of its tests; `not_dense` has the index, the order
-- found and the order expected.
pub data RouteError : Type 0 where
  no_stages : RouteError
  not_dense : ℕ → ℤ → ℕ → RouteError
  m_required : String → RouteError
  m_below_one : String → RouteError
  m_not_nil : String → QuorumPolicy → RouteError
  duplicate_name : String → RouteError

-- The test of `Quorum` against `QuorumM`; `none` is no error.
unfoldable pub check_quorum : String → QuorumPolicy → Option ℤ → Option RouteError
check_quorum name m_of_n none = some (m_required name)
check_quorum name m_of_n (some m) = if ltb_ℤ m (pos 1) then some (m_below_one name) else none
check_quorum name any_1_of none = none
check_quorum name any_1_of (some m) = some (m_not_nil name any_1_of)
check_quorum name all_of none = none
check_quorum name all_of (some m) = some (m_not_nil name all_of)
check_quorum name (unknown q) none = none
check_quorum name (unknown q) (some m) = some (m_not_nil name (unknown q))

-- The loop over the stages from index `i`, with the names seen so far.
unfoldable pub validate_from : ℕ → List String → List Stage → Option RouteError
unfolding check_quorum
validate_from i names [] = none
validate_from i names (s ∷ stages) =
    let rest = validate_from (i + 1) (s.name ∷ names) stages in
    if not (eqb_ℤ s.order (pos (i + 1)))
    then some (not_dense i s.order (i + 1))
    else elim (check_quorum s.name s.quorum s.quorum_m) [
      | some e ↦ some e
      | none ↦ if any (str_eq s.name) names then some (duplicate_name s.name) else rest
    ]

-- `Route.Validate`
unfoldable pub validate : Route → Option RouteError
unfolding validate_from
validate r = elim r.stages [ [] ↦ some no_stages | s ∷ rest ↦ validate_from 0 [] (s ∷ rest) ]
