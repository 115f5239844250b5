-- ===== src/Approval/Service/Decide.antt =====
-- DecisionService.RecordSignoff (approval/application/decision_service.go).
use metal_docs.Prelude.{ℕ, String, Bool, true, false, not, ◌&&◌, Option, none, some, List}
use metal_docs.Prelude.Tests.{if◌then◌else◌, ◌==◌}
use metal_docs.Prelude.Text.{str_eq}
use metal_docs.Prelude.Lists.{length, keep_if}
use metal_docs.Prelude.Result.{Result}
use metal_docs.Prelude.Int.{pos}
use metal_docs.Approval.State.{under_review, approved}
use metal_docs.Approval.Payload.{Fields, has_float_value}
use metal_docs.Approval.Signoff.{
  Decision, approve, reject, Signoff, SignoffParams, new_signoff, check_sod,
}
use metal_docs.Approval.Instance.{
  Instance, InstanceStatus, in_progress, StageInstance, active, pending, completed, rejected_here,
  find_active, advance_stage, no_active_stage,
}
use metal_docs.Approval.Quorum.{
  QuorumOutcome, quorum_pending, approved_stage, rejected_stage, compute_effective_denominator,
  evaluate_quorum,
}
use metal_docs.Approval.Store.Tables.{GovernanceEvent, Db}
use metal_docs.Approval.Store.Tx.{
  ServiceError, float_in_payload, instance_completed, stage_not_active, invalid_signoff, duty,
  domain, Tx, ◌>>=◌, ◌>>◌, pure, fail_if, or_fail, passes, lift, run_tx,
}
use metal_docs.Approval.Store.Repository.{
  decision_eq, instance_status_eq, emit, update_documents, load_instance, update_stage_status,
  update_instance_status,
}
use metal_docs.Approval.Store.Signing.{load_prior_signoffs, load_stage_signoffs, insert_signoff}
use metal_docs.Approval.Service.Freeze.{run_freeze}
use metal_docs.Approval.Service.{
  Env, call, set_config, compute_content_hash, require, load_document_area_code, in_state, bump,
}

-- `signature_json` is what `marshalSignaturePayload` makes of the payload. `Capabilities` only goes
-- to the freeze.
pub record SignoffRequest : Type 0 where
  pub tenant_id : String
  pub instance_id : String
  pub stage_instance_id : String
  pub actor_user_id : String
  pub decision : Decision
  pub comment : String
  pub signature_method : String
  pub signature_payload : Fields
  pub signature_json : String
  pub content_form_data : Fields

pub record SignoffResult : Type 0 where
  pub stage_completed : Bool
  pub instance_approved : Bool
  pub instance_rejected : Bool

abbrev pub no_change : SignoffResult
no_change = record { stage_completed = false; instance_approved = false; instance_rejected = false }

-- `splitSignoffs`
unfoldable pub split_signoffs : List Signoff → List Signoff × List Signoff
split_signoffs all = (
  keep_if (λ (s : Signoff). decision_eq s.decision approve) all,
  keep_if (λ (s : Signoff). decision_eq s.decision reject) all,
)

-- The denominator with its two fallbacks.
unfoldable pub quorum_denominator : StageInstance → ℕ
quorum_denominator stage =
    let d = compute_effective_denominator stage stage.eligible_actor_ids in
    if not (d == 0)
    then d
    else if not (length stage.eligible_actor_ids == 0)
    then length stage.eligible_actor_ids
    else 1

-- Step 10
unfoldable pub stage_outcome : StageInstance → List Signoff → QuorumOutcome
stage_outcome stage all =
    evaluate_quorum stage (split_signoffs all).0 (split_signoffs all).1 (quorum_denominator stage)

-- The last stage is done: the instance, the freeze and the document. `RowsAffected` is not read.
unfoldable pub finish_approval : Env → SignoffRequest → Instance → Tx SignoffResult
finish_approval env req inst = do
  call env 9 (
      update_instance_status req.tenant_id req.instance_id InstanceStatus.approved in_progress
        (some env.now))
  run_freeze env env.freeze req.tenant_id inst.document_id
  affected ← call env 10 (
      update_documents false (in_state req.tenant_id inst.document_id under_review) (bump approved))
  pure (record { stage_completed = true; instance_approved = true; instance_rejected = false })

unfoldable pub activate_stage : Env → SignoffRequest → Option StageInstance → Tx (Unit {0})
activate_stage env req none = pure tt
activate_stage env req (some next) =
    call env 9 (update_stage_status env.now req.tenant_id next.id active pending)

unfoldable pub activate_following : Env → SignoffRequest → Instance → Tx SignoffResult
activate_following env req inst = do
  activate_stage env req (find_active inst.stages)
  pure (record { stage_completed = true; instance_approved = false; instance_rejected = false })

unfoldable pub complete_stage : Env → SignoffRequest → Instance → StageInstance → Tx SignoffResult
complete_stage env req inst stage = do
  call env 8 (update_stage_status env.now req.tenant_id stage.id completed active)
  next ← lift domain (advance_stage env.now inst)
  if instance_status_eq next.status InstanceStatus.approved
      then (finish_approval env req next)
      else (activate_following env req next)

unfoldable pub reject_stage : Env → SignoffRequest → StageInstance → Tx SignoffResult
reject_stage env req stage = do
  call env 8 (update_stage_status env.now req.tenant_id stage.id rejected_here active)
  call env 9 (
      update_instance_status req.tenant_id req.instance_id InstanceStatus.rejected in_progress
        (some env.now))
  pure (record { stage_completed = false; instance_approved = false; instance_rejected = true })

-- Step 11
unfoldable pub apply_outcome :
    Env → SignoffRequest → Instance → StageInstance → QuorumOutcome → Tx SignoffResult
apply_outcome env req inst stage approved_stage = complete_stage env req inst stage
apply_outcome env req inst stage rejected_stage = reject_stage env req stage
apply_outcome env req inst stage quorum_pending = pure no_change

unfoldable pub recorded_event : SignoffRequest → GovernanceEvent
recorded_event req = record {
  tenant_id = req.tenant_id;
  event_type = "signoff_recorded";
  actor_user_id = req.actor_user_id;
  resource_type = "approval_instance";
  resource_id = req.instance_id;
  reason = "";
}

-- Steps 9 to 13, for a signoff that was not there before.
unfoldable pub settle : Env → SignoffRequest → Instance → StageInstance → Tx SignoffResult
settle env req inst stage = do
  all ← call env 7 (load_stage_signoffs stage.id)
  result ← apply_outcome env req inst stage (stage_outcome stage all)
  call env 11 (emit (recorded_event req))
  call env 12 (pure result)

unfoldable pub signoff_params : Env → SignoffRequest → StageInstance → List ℕ → SignoffParams
signoff_params env req stage hash = record {
  id = env.new_id;
  approval_instance_id = req.instance_id;
  stage_instance_id = stage.id;
  actor_user_id = req.actor_user_id;
  actor_tenant_id = req.tenant_id;
  decision = req.decision;
  comment = req.comment;
  signed_at = env.now;
  signature_method = req.signature_method;
  signature_payload = req.signature_json;
  content_hash = hash;
}

-- Steps 6 to 8. A replay commits at once, and changes nothing.
unfoldable pub sign : Env → SignoffRequest → List ℕ → Instance → StageInstance → Tx SignoffResult
sign env req hash inst stage = do
  prior ← call env 5 (load_prior_signoffs req.tenant_id req.instance_id stage.id)
  passes (check_sod inst.submitted_by req.actor_user_id prior) duty
  signoff ← lift invalid_signoff (new_signoff (signoff_params env req stage hash))
  was_replay ← call env 6 (insert_signoff env.columns signoff)
  if was_replay then call env 12 (pure no_change) else settle env req inst stage

-- The transaction.
unfoldable pub record_signoff_tx : Env → SignoffRequest → List ℕ → Tx SignoffResult
record_signoff_tx env req hash = do
  set_config env 1
  inst ← call env 2 (load_instance req.tenant_id req.instance_id)
  fail_if (not (instance_status_eq inst.status in_progress)) instance_completed
  area_code ← call env 3 (load_document_area_code req.tenant_id inst.document_id)
  call env 4 (require env (some (req.tenant_id, req.actor_user_id)) "doc.signoff" area_code)
  stage ← or_fail (find_active inst.stages) (domain no_active_stage)
  fail_if (not (str_eq req.stage_instance_id "") && not (str_eq stage.id req.stage_instance_id))
      stage_not_active
  sign env req hash inst stage

-- `RecordSignoff`
unfoldable pub record_signoff : Env → SignoffRequest → Db → Result ServiceError SignoffResult × Db
record_signoff env req = run_tx (do
  fail_if (has_float_value req.signature_payload) float_in_payload
  hash ←
      lift (λ e. e)
        (compute_content_hash env req.tenant_id req.instance_id (pos 0) req.content_form_data)
  call env 0 (record_signoff_tx env req hash))
