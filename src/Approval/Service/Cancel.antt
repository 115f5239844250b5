-- ===== src/Approval/Service/Cancel.antt =====
-- CancelService.CancelInstance (approval/application/cancel_service.go).
use metal_docs.Prelude.{String, Bool, not, ◌&&◌, ◌||◌, Option, none, some}
use metal_docs.Prelude.Tests.{if◌then◌else◌, ◌==◌}
use metal_docs.Prelude.Text.{str_eq}
use metal_docs.Prelude.Lists.{find_if, update_where}
use metal_docs.Prelude.Result.{Result}
use metal_docs.Prelude.Int.{ℤ}
use metal_docs.Approval.State.{draft, under_review}
use metal_docs.Approval.Instance.{
  InstanceStatus, in_progress, StageInstance, StageStatus, active, pending,
}
use metal_docs.Approval.Store.Tables.{GovernanceEvent, Db}
use metal_docs.Approval.Store.Tx.{
  ServiceError, reason_required, instance_completed, not_found, null_area, stale_revision, Tx,
  ◌>>=◌, ◌>>◌, pure, fail_if, or_fail, select, run_tx,
}
use metal_docs.Approval.Store.Repository.{
  instance_status_eq, stage_status_eq, write_stages, emit, update_documents, load_instance,
  update_instance_status,
}
use metal_docs.Approval.Service.{Env, call, set_config, require, is_doc, at_revision, bump}

pub record CancelInput : Type 0 where
  pub tenant_id : String
  pub instance_id : String
  pub expected_revision_version : ℤ
  pub actor_user_id : String
  pub reason : String
  pub bypass_authz : Bool

-- SELECT process_area_code_snapshot, scanned into a string: a NULL is an error.
unfoldable pub load_area_snapshot : String → String → Tx String
load_area_snapshot tenant_id document_id = do
  found ← select (λ db. find_if (is_doc tenant_id document_id) db.documents)
  d ← or_fail found not_found
  or_fail d.area_code_snapshot null_area

-- What the transaction sets for authz: the bypass sets neither the tenant nor the actor.
unfoldable pub session_of : CancelInput → Option (String × String)
session_of input = if input.bypass_authz then none else some (input.tenant_id, input.actor_user_id)

-- The WHERE and the SET of the statement that cancels the open stages.
unfoldable pub is_open_stage : String → StageInstance → Bool
is_open_stage instance_id s =
    str_eq s.approval_instance_id instance_id
    && (stage_status_eq s.status active || stage_status_eq s.status pending)

unfoldable pub cancel_stages : String → Tx (Unit {0})
cancel_stages instance_id = do
  rows ← select (λ db. db.stages)
  write_stages (
      update_where (is_open_stage instance_id)
        (λ (s : StageInstance). record s { status = StageStatus.cancelled }) rows)

unfoldable pub cancelled_event : CancelInput → String → GovernanceEvent
cancelled_event input document_id = record {
  tenant_id = input.tenant_id;
  event_type = "approval.instance_cancelled";
  actor_user_id = input.actor_user_id;
  resource_type = "document";
  resource_id = document_id;
  reason = input.reason;
}

-- The writes, after the authorization. The transaction has set `metaldocs.cancel_in_progress` to the
-- instance, which authorises the change under_review → draft when that is not empty.
unfoldable pub write_cancel : Env → CancelInput → String → Tx String
write_cancel env input document_id = do
  call env 5 (
      update_instance_status input.tenant_id input.instance_id InstanceStatus.cancelled in_progress
        (some env.now))
  call env 6 (cancel_stages input.instance_id)
  affected ← call env 7 (
      update_documents (not (str_eq input.instance_id ""))
        (at_revision input.tenant_id document_id under_review input.expected_revision_version)
        (bump draft))
  fail_if (affected == 0) stale_revision
  call env 8 (emit (cancelled_event input document_id))
  call env 9 (pure document_id)

unfoldable pub cancel_tx : Env → CancelInput → Tx String
cancel_tx env input = do
  inst ← call env 1 (load_instance input.tenant_id input.instance_id)
  fail_if (not (instance_status_eq inst.status in_progress)) instance_completed
  area_code ← call env 2 (load_area_snapshot input.tenant_id inst.document_id)
  set_config env 10
  call env 3 (require env (session_of input) "workflow.instance.cancel" area_code)
  set_config env 4
  write_cancel env input inst.document_id

-- `CancelInstance`
unfoldable pub cancel_instance : Env → CancelInput → Db → Result ServiceError String × Db
cancel_instance env input =
    run_tx (do fail_if (str_eq input.reason "") reason_required; call env 0 (cancel_tx env input))
