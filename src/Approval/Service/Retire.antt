-- ===== src/Approval/Service/Retire.antt =====
-- SupersedeService.PublishSuperseding and ObsoleteService.MarkObsolete
-- (approval/application/supersede_service.go and obsolete_service.go).
use metal_docs.Prelude.{ℕ, String, Bool, false, not, ◌&&◌, some}
use metal_docs.Prelude.Tests.{◌==◌}
use metal_docs.Prelude.Text.{str_eq}
use metal_docs.Prelude.Lists.{find_if, update_where}
use metal_docs.Prelude.Result.{Result}
use metal_docs.Prelude.Int.{ℤ}
use metal_docs.Approval.State.{DocState, approved, published, superseded, obsolete, state_eq}
use metal_docs.Approval.Instance.{InstanceStatus, in_progress}
use metal_docs.Approval.Store.Tables.{InstanceRow, GovernanceEvent, Db}
use metal_docs.Approval.Store.Tx.{
  ServiceError, no_active_instance, null_area, stale_revision, invalid_obsolete_source, Tx, ◌>>=◌,
  ◌>>◌, pure, fail_if, or_fail, select, run_tx,
}
use metal_docs.Approval.Store.Repository.{
  instance_status_eq, write_instances, emit, update_documents,
}
use metal_docs.Approval.Service.{
  Env, call, set_config, require, load_document_area_code, is_doc, at_revision, bump,
}
use metal_docs.Approval.Service.Publish.{document_event}

pub record SupersedeRequest : Type 0 where
  pub tenant_id : String
  pub new_document_id : String
  pub prior_document_id : String
  pub superseded_by : String
  pub new_revision_version : ℤ
  pub prior_revision_version : ℤ

unfoldable pub supersede_tx : Env → SupersedeRequest → Tx (Unit {0})
supersede_tx env req = do
  set_config env 1
  area_code ← call env 2 (load_document_area_code req.tenant_id req.new_document_id)
  call env 3 (require env (some (req.tenant_id, req.superseded_by)) "doc.supersede" area_code)
  affected ← call env 4 (
      update_documents false
        (at_revision req.tenant_id req.new_document_id approved req.new_revision_version)
        (bump published))
  fail_if (affected == 0) stale_revision
  retired ← call env 5 (
      update_documents false
        (at_revision req.tenant_id req.prior_document_id published req.prior_revision_version)
        (bump superseded))
  fail_if (retired == 0) stale_revision
  call env 6 (
      emit
        (document_event "document_superseded" req.tenant_id req.superseded_by req.new_document_id))
  call env 7 (pure tt)

-- `PublishSuperseding`
unfoldable pub publish_superseding :
    Env → SupersedeRequest → Db → Result ServiceError (Unit {0}) × Db
publish_superseding env req = run_tx (call env 0 (supersede_tx env req))

pub record MarkObsoleteRequest : Type 0 where
  pub tenant_id : String
  pub document_id : String
  pub marked_by : String
  pub revision_version : ℤ
  pub reason : String

-- Step 5: the instances in progress, of any tenant, of the document.
unfoldable pub is_open_instance : String → InstanceRow → Bool
is_open_instance document_id r =
    str_eq r.document_id document_id && instance_status_eq r.status in_progress

unfoldable pub cancel_open_instances : ℕ → String → Tx (Unit {0})
cancel_open_instances now document_id = do
  rows ← select (λ db. db.instances)
  write_instances (
      update_where (is_open_instance document_id)
        (λ (r : InstanceRow). record r {
          status = InstanceStatus.cancelled;
          completed_at = some now;
        })
        rows)

unfoldable pub obsoleted_event : MarkObsoleteRequest → GovernanceEvent
obsoleted_event req = record {
  tenant_id = req.tenant_id;
  event_type = "document_obsoleted";
  actor_user_id = req.marked_by;
  resource_type = "document";
  resource_id = req.document_id;
  reason = req.reason;
}

unfoldable pub obsolete_tx : Env → MarkObsoleteRequest → Tx DocState
obsolete_tx env req = do
  found ← call env 1 (select (λ db. find_if (is_doc req.tenant_id req.document_id) db.documents))
  d ← or_fail found no_active_instance
  area_code ← or_fail d.area_code_snapshot null_area
  fail_if (not (state_eq d.status published) && not (state_eq d.status superseded))
      invalid_obsolete_source
  set_config env 2
  call env 3 (require env (some (req.tenant_id, req.marked_by)) "doc.obsolete" area_code)
  affected ← call env 4 (
      update_documents false
        (at_revision req.tenant_id req.document_id d.status req.revision_version) (bump obsolete))
  fail_if (affected == 0) stale_revision
  call env 5 (cancel_open_instances env.now req.document_id)
  call env 6 (emit (obsoleted_event req))
  call env 7 (pure d.status)

-- `MarkObsolete`
unfoldable pub mark_obsolete : Env → MarkObsoleteRequest → Db → Result ServiceError DocState × Db
mark_obsolete env req = run_tx (call env 0 (obsolete_tx env req))
