-- ===== src/Approval/Service/Submit.antt =====
-- SubmitService.SubmitRevisionForReview (approval/application/submit_service.go).
use metal_docs.Prelude.{ℕ, suc, String, false, ◌&&◌, none, some, List, [], ◌∷◌}
use metal_docs.Prelude.Tests.{if◌then◌else◌, ◌==◌}
use metal_docs.Prelude.Text.{str_eq}
use metal_docs.Prelude.Lists.{find_if}
use metal_docs.Prelude.Result.{Result}
use metal_docs.Prelude.Int.{ℤ}
use metal_docs.Approval.State.{draft, under_review}
use metal_docs.Approval.Payload.{Fields, has_float_value}
use metal_docs.Approval.Route.{Stage, Route, validate}
use metal_docs.Approval.Instance.{in_progress, StageInstance, active, pending}
use metal_docs.Approval.Store.Tables.{InstanceRow, GovernanceEvent, Db}
use metal_docs.Approval.Store.Tx.{
  ServiceError, float_in_payload, stale_revision, route_not_found, invalid_route, Tx, ◌>>=◌, ◌>>◌,
  pure, fail_if, or_fail, passes, lift, select, run_tx,
}
use metal_docs.Approval.Store.Repository.{
  emit, update_documents, insert_instance, insert_stage_instances,
}
use metal_docs.Approval.Service.{
  Env, call, set_config, compute_content_hash, require, load_document_area_code, at_revision, bump,
}

pub record SubmitRequest : Type 0 where
  pub tenant_id : String
  pub document_id : String
  pub route_id : String
  pub submitted_by : String
  pub content_form_data : Fields
  pub revision_version : ℤ

-- `loadRoute`
unfoldable pub load_route : String → String → Tx Route
load_route tenant_id route_id = do
  found ← select (λ db.
      find_if (λ (r : Route). str_eq r.id route_id && str_eq r.tenant_id tenant_id) db.routes)
  or_fail found route_not_found

-- The loop over the stages of the route, from index `i`. The first stage is active.
unfoldable pub stage_instances : Env → ℕ → List Stage → List StageInstance
stage_instances env i [] = []
stage_instances env i (s ∷ stages) =
    record {
      id = env.new_stage_id i;
      approval_instance_id = env.new_id;
      stage_order = s.order;
      name_snapshot = s.name;
      required_role_snapshot = s.required_role;
      required_capability_snapshot = s.required_capability;
      area_code_snapshot = s.area_code;
      quorum_snapshot = s.quorum;
      quorum_m_snapshot = s.quorum_m;
      on_eligibility_drift_snapshot = s.on_eligibility_drift;
      eligible_actor_ids = [];
      effective_denominator = none;
      status = if i == 0 then active else pending;
      opened_at = if i == 0 then some env.now else none;
      completed_at = none;
      skip_reason = "";
    }
    ∷ stage_instances env (suc i) stages

unfoldable pub new_instance : Env → SubmitRequest → Route → List ℕ → InstanceRow
new_instance env req route hash = record {
  id = env.new_id;
  tenant_id = req.tenant_id;
  document_id = req.document_id;
  route_id = req.route_id;
  route_version_snapshot = route.version;
  status = in_progress;
  submitted_by = req.submitted_by;
  submitted_at = env.now;
  completed_at = none;
  content_hash_at_submit = hash;
  idempotency_key = env.idempotency_key req.submitted_by req.document_id env.now;
}

unfoldable pub submitted_event : SubmitRequest → GovernanceEvent
submitted_event req = record {
  tenant_id = req.tenant_id;
  event_type = "approval_submitted";
  actor_user_id = req.submitted_by;
  resource_type = "document";
  resource_id = req.document_id;
  reason = "";
}

-- Steps 7 to 10: the instance, its stages, the document and the event.
unfoldable pub write_submission : Env → SubmitRequest → Route → List ℕ → Tx String
write_submission env req route hash = do
  call env 6 (insert_instance (new_instance env req route hash))
  call env 7 (insert_stage_instances (stage_instances env 0 route.stages))
  affected ← call env 8 (
      update_documents false (at_revision req.tenant_id req.document_id draft req.revision_version)
        (bump under_review))
  fail_if (affected == 0) stale_revision
  call env 9 (emit (submitted_event req))
  call env 10 (pure env.new_id)

-- The transaction.
unfoldable pub submit_tx : Env → SubmitRequest → List ℕ → Tx String
submit_tx env req hash = do
  set_config env 1
  area_code ← call env 2 (load_document_area_code req.tenant_id req.document_id)
  call env 3 (require env (some (req.tenant_id, req.submitted_by)) "doc.submit" area_code)
  route ← call env 4 (load_route req.tenant_id req.route_id)
  passes (validate route) invalid_route
  write_submission env req route hash

-- `SubmitRevisionForReview`
unfoldable pub submit : Env → SubmitRequest → Db → Result ServiceError String × Db
submit env req = run_tx (do
  fail_if (has_float_value req.content_form_data) float_in_payload
  hash ←
      lift (λ e. e)
        (compute_content_hash env req.tenant_id req.document_id req.revision_version
          req.content_form_data)
  call env 0 (submit_tx env req hash))
