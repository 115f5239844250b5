-- ===== src/Approval/Instance.antt =====
-- Approval instances and their stages (approval/domain/instance.go). A method that changes `*inst`
-- returns the new instance, or the error with which it left the instance alone. `time.Now` is the
-- argument `now`; an instant is a number.
pub mod Shape
pub mod Progress
pub mod Terminal
use metal_docs.Prelude.{
  ℕ, ◌+◌, String, Bool, true, false, ◌||◌, Option, none, some, List, [], ◌∷◌, ◌++◌,
}
use metal_docs.Prelude.Tests.{if◌then◌else◌, ltb}
use metal_docs.Prelude.Result.{Result, ok, err}
use metal_docs.Prelude.Int.{ℤ}
use metal_docs.Approval.Route.{QuorumPolicy, DriftPolicy}

pub data InstanceStatus : Type 0 where
  in_progress approved rejected cancelled : InstanceStatus

-- `cancelled` is no constant of the Go type; it is what CancelInstance writes into the stages' rows.
pub data StageStatus : Type 0 where
  pending active completed skipped rejected_here cancelled : StageStatus

pub record StageInstance : Type 0 where
  pub id : String
  pub approval_instance_id : String
  pub stage_order : ℤ
  pub name_snapshot : String
  pub required_role_snapshot : String
  pub required_capability_snapshot : String
  pub area_code_snapshot : String
  pub quorum_snapshot : QuorumPolicy
  pub quorum_m_snapshot : Option ℤ
  pub on_eligibility_drift_snapshot : DriftPolicy
  pub eligible_actor_ids : List String
  pub effective_denominator : Option ℕ
  pub status : StageStatus
  pub opened_at : Option ℕ
  pub completed_at : Option ℕ
  pub skip_reason : String

pub record Instance : Type 0 where
  pub id : String
  pub tenant_id : String
  pub document_id : String
  pub route_id : String
  pub route_version_snapshot : ℕ
  pub status : InstanceStatus
  pub submitted_by : String
  pub submitted_at : ℕ
  pub completed_at : Option ℕ
  pub content_hash_at_submit : List ℕ
  pub idempotency_key : String
  pub revision_version : ℕ
  pub stages : List StageInstance

pub data InstanceError : Type 0 where
  no_active_stage cannot_skip_last_stage revision_regression instance_terminal : InstanceError

abbrev pub is_active : StageStatus → Bool
is_active active = true
is_active _ = false

abbrev pub is_pending : StageStatus → Bool
is_pending pending = true
is_pending _ = false

-- The first active stage, or nil: `Instance.Active`.
unfoldable pub find_active : List StageInstance → Option StageInstance
find_active [] = none
find_active (s ∷ stages) = if is_active s.status then some s else find_active stages

-- The loop that looks for the active index: the stages before it, the stage, and those after it.
unfoldable pub split_active :
    List StageInstance → Option (List StageInstance × StageInstance × List StageInstance)
split_active [] = none
split_active (s ∷ stages) =
    if is_active s.status then some ([], s, stages) else elim (split_active stages) [
      | none ↦ none
      | some (before, a, after) ↦ some (s ∷ before, a, after)
    ]

-- The loop that activates the first pending stage; `none` when there is none.
unfoldable pub activate_next : ℕ → List StageInstance → Option (List StageInstance)
activate_next now [] = none
activate_next now (s ∷ stages) =
    if is_pending s.status
    then some (record s { status = active; opened_at = some now } ∷ stages)
    else elim (activate_next now stages) [ none ↦ none | some rest ↦ some (s ∷ rest) ]

-- `Instance.AdvanceStage`
unfoldable pub advance_stage : ℕ → Instance → Result InstanceError Instance
unfolding split_active activate_next
advance_stage now inst = elim (split_active inst.stages) [
  | none ↦ err no_active_stage
  | some (before, a, after) ↦
      let done = record a { status = completed; completed_at = some now } in
      elim (activate_next now after) [
        | some rest ↦ ok (record inst { stages = before ++ (done ∷ rest) })
        | none ↦ ok (record inst {
          stages = before ++ (done ∷ after);
          status = approved;
          completed_at = some now;
        })
      ]
]

-- `Instance.RejectHere`
unfoldable pub reject_here : ℕ → String → Instance → Result InstanceError Instance
unfolding split_active
reject_here now reason inst = elim (split_active inst.stages) [
  | none ↦ err no_active_stage
  | some (before, a, after) ↦
      let out = record a {
        status = rejected_here;
        skip_reason = reason;
        completed_at = some now;
      } in
      ok (record inst {
        stages = before ++ (out ∷ after);
        status = rejected;
        completed_at = some now;
      })
]

-- `Instance.SkipStage`. That no successor is pending and that none was activated is one test here.
unfoldable pub skip_stage : ℕ → String → Instance → Result InstanceError Instance
unfolding split_active activate_next
skip_stage now reason inst = elim (split_active inst.stages) [
  | none ↦ err no_active_stage
  | some (before, a, after) ↦
      let out = record a { status = skipped; skip_reason = reason; completed_at = some now } in
      elim (activate_next now after) [
        | some rest ↦ ok (record inst { stages = before ++ (out ∷ rest) })
        | none ↦ err cannot_skip_last_stage
      ]
]

-- `Instance.BumpRevisionVersion`
unfoldable pub bump_revision_version : ℕ → Instance → Result InstanceError Instance
bump_revision_version next inst =
    if ltb next inst.revision_version
    then err revision_regression
    else ok (record inst { revision_version = next })

-- `Instance.isTerminal`, and the switch of `Instance.Cancel`
abbrev pub is_terminal : InstanceStatus → Bool
is_terminal in_progress = false
is_terminal _ = true

-- `Instance.Cancel`; the reason is recorded by the caller.
unfoldable pub cancel : ℕ → Instance → Result InstanceError Instance
cancel now inst =
    if is_terminal inst.status
    then err instance_terminal
    else ok (record inst { status = cancelled; completed_at = some now })
