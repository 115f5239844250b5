-- ===== src/Approval/Service/Publish.antt =====
-- PublishService: PublishApproved and SchedulePublish (approval/application/publish_service.go).
use metal_docs.Prelude.{ℕ, String, false, not, some}
use metal_docs.Prelude.Tests.{◌==◌, ltb}
use metal_docs.Prelude.Result.{Result}
use metal_docs.Prelude.Int.{pos}
use metal_docs.Approval.State.{approved, scheduled, published}
use metal_docs.Approval.Instance.{Instance, InstanceStatus}
use metal_docs.Approval.Store.Tables.{Document, GovernanceEvent, Db}
use metal_docs.Approval.Store.Tx.{
  ServiceError, effective_date_in_past, instance_not_approved, stale_revision, Tx, ◌>>=◌, ◌>>◌,
  pure, fail_if, run_tx,
}
use metal_docs.Approval.Store.Repository.{instance_status_eq, emit, update_documents, load_instance}
use metal_docs.Approval.Service.{
  Env, call, set_config, require, load_document_area_code, in_state, at_revision, bump,
}

pub record PublishRequest : Type 0 where
  pub tenant_id : String
  pub instance_id : String
  pub published_by : String

pub record SchedulePublishRequest : Type 0 where
  pub tenant_id : String
  pub instance_id : String
  pub effective_date : ℕ
  pub scheduled_by : String

unfoldable pub document_event : String → String → String → String → GovernanceEvent
document_event event_type tenant_id actor document_id = record {
  tenant_id = tenant_id;
  event_type = event_type;
  actor_user_id = actor;
  resource_type = "document";
  resource_id = document_id;
  reason = "";
}

-- Steps that both services begin with: the approved instance, and the right to publish.
unfoldable pub approved_instance : Env → String → String → String → Tx Instance
approved_instance env tenant_id instance_id actor = do
  inst ← call env 1 (load_instance tenant_id instance_id)
  fail_if (not (instance_status_eq inst.status InstanceStatus.approved)) instance_not_approved
  set_config env 7
  area_code ← call env 2 (load_document_area_code tenant_id inst.document_id)
  call env 3 (require env (some (tenant_id, actor)) "doc.publish" area_code)
  pure inst

unfoldable pub publish_tx : Env → PublishRequest → Tx String
publish_tx env req = do
  inst ← approved_instance env req.tenant_id req.instance_id req.published_by
  affected ←
      call env 4
        (update_documents false (in_state req.tenant_id inst.document_id approved) (bump published))
  fail_if (affected == 0) stale_revision
  call env 5
      (emit (document_event "document_published" req.tenant_id req.published_by inst.document_id))
  call env 6 (pure inst.document_id)

-- `PublishApproved`
unfoldable pub publish_approved : Env → PublishRequest → Db → Result ServiceError String × Db
publish_approved env req = run_tx (call env 0 (publish_tx env req))

-- The SET of step 4, which writes `effective_date`.
unfoldable pub schedule_at : ℕ → Document → Document
schedule_at date d = record (bump scheduled d) { effective_date = some date }

unfoldable pub schedule_tx : Env → SchedulePublishRequest → Tx String
schedule_tx env req = do
  inst ← approved_instance env req.tenant_id req.instance_id req.scheduled_by
  affected ← call env 4 (
      update_documents false
        (at_revision req.tenant_id inst.document_id approved (pos inst.revision_version))
        (schedule_at req.effective_date))
  fail_if (affected == 0) stale_revision
  call env 5
      (emit (document_event "publish_scheduled" req.tenant_id req.scheduled_by inst.document_id))
  call env 6 (pure inst.document_id)

-- `SchedulePublish`
unfoldable pub schedule_publish :
    Env → SchedulePublishRequest → Db → Result ServiceError String × Db
schedule_publish env req = run_tx (do
  fail_if (not (ltb env.now req.effective_date)) effective_date_in_past
  call env 0 (schedule_tx env req))
