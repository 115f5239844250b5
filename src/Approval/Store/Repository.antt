-- ===== src/Approval/Store/Repository.antt =====
-- The statements of approval/repository/postgres_approval_repository.go, with the constraints and
-- triggers of migrations/0135 and 0144 that they can meet, mapped to errors as MapPgError does.
use metal_docs.Prelude.{
  ℕ, String, Bool, true, false, not, ◌&&◌, ◌||◌, Option, none, some, List, [], ◌∷◌, ◌++◌, map,
}
use metal_docs.Prelude.Tests.{if◌then◌else◌, ◌==◌}
use metal_docs.Prelude.Text.{str_eq}
use metal_docs.Prelude.Lists.{any, count_if, keep_if, find_if, update_where}
use metal_docs.Prelude.Result.{ok}
use metal_docs.Prelude.Int.{ltb_ℤ}
use metal_docs.Approval.State.{trigger_allows}
use metal_docs.Approval.Signoff.{Signoff, Decision, approve, reject, other}
use metal_docs.Approval.Instance.{
  Instance, InstanceStatus, StageInstance, StageStatus, in_progress, pending, active, completed,
  skipped, rejected_here,
}
use metal_docs.Approval.Store.Tables.{Document, InstanceRow, GovernanceEvent}
use metal_docs.Approval.Store.Tx.{
  duplicate_submission, instance_completed, stage_not_active, fk_violation, check_violation,
  no_active_instance, Tx, ◌>>=◌, ◌>>◌, pure, fail_if, or_fail, select,
}

abbrev pub instance_status_number : InstanceStatus → ℕ
instance_status_number in_progress = 0
instance_status_number InstanceStatus.approved = 1
instance_status_number InstanceStatus.rejected = 2
instance_status_number InstanceStatus.cancelled = 3

abbrev pub instance_status_eq : InstanceStatus → InstanceStatus → Bool
instance_status_eq a b = instance_status_number a == instance_status_number b

abbrev pub stage_status_number : StageStatus → ℕ
stage_status_number pending = 0
stage_status_number active = 1
stage_status_number completed = 2
stage_status_number skipped = 3
stage_status_number rejected_here = 4
stage_status_number StageStatus.cancelled = 5

abbrev pub stage_status_eq : StageStatus → StageStatus → Bool
stage_status_eq a b = stage_status_number a == stage_status_number b

abbrev pub decision_eq : Decision → Decision → Bool
decision_eq approve approve = true
decision_eq reject reject = true
decision_eq (other a) (other b) = str_eq a b
decision_eq _ _ = false

abbrev pub bytes_eq : List ℕ → List ℕ → Bool
bytes_eq [] [] = true
bytes_eq (a ∷ rest) (b ∷ more) = (a == b) && bytes_eq rest more
bytes_eq _ _ = false

unfoldable pub write_documents : List Document → Tx (Unit {0})
write_documents docs db = ok (tt, record db { documents = docs })

unfoldable pub write_instances : List InstanceRow → Tx (Unit {0})
write_instances rows db = ok (tt, record db { instances = rows })

unfoldable pub write_stages : List StageInstance → Tx (Unit {0})
write_stages rows db = ok (tt, record db { stages = rows })

unfoldable pub write_signoffs : List Signoff → Tx (Unit {0})
write_signoffs rows db = ok (tt, record db { signoffs = rows })

-- `sqlEmitter.Emit`: one INSERT into `governance_events`, in the caller's transaction.
unfoldable pub emit : GovernanceEvent → Tx (Unit {0})
emit event db = ok (tt, record db { events = db.events ++ (event ∷ []) })

-- An UPDATE of `documents` with its transition trigger: an illegal change of status stops it.
-- The result is `RowsAffected`.
unfoldable pub update_documents : Bool → (Document → Bool) → (Document → Document) → Tx ℕ
update_documents cancelling where_ set = do
  docs ← select (λ db. db.documents)
  fail_if (any (λ d. where_ d && not (trigger_allows cancelling d.status (set d).status)) docs)
      check_violation
  write_documents (update_where where_ set docs)
  pure (count_if where_ docs)

-- `InsertInstance`: the foreign key to the document, the index ux_approval_instances_active (one
-- instance in progress for a document) and UNIQUE (document_v2_id, idempotency_key).
unfoldable pub insert_instance : InstanceRow → Tx (Unit {0})
insert_instance row = do
  rows ← select (λ db. db.instances)
  fail_if
      (any
        (λ r.
          str_eq r.document_id row.document_id
          && ((instance_status_eq r.status in_progress && instance_status_eq row.status in_progress)
              || str_eq r.idempotency_key row.idempotency_key))
        rows)
      duplicate_submission
  docs ← select (λ db. db.documents)
  fail_if (not (any (λ d. str_eq d.id row.document_id) docs)) fk_violation
  write_instances (rows ++ (row ∷ []))

-- `InsertStageInstances`. The INSERT names neither `opened_at` nor `completed_at`, so both are NULL.
abbrev pub inserted_stage : StageInstance → StageInstance
inserted_stage s = record s { opened_at = none; completed_at = none; skip_reason = "" }

unfoldable pub insert_stage_instances : List StageInstance → Tx (Unit {0})
insert_stage_instances new = do
  rows ← select (λ db. db.stages)
  write_stages (rows ++ map inserted_stage new)

-- ORDER BY stage_order
abbrev pub insert_by_order : StageInstance → List StageInstance → List StageInstance
insert_by_order s [] = s ∷ []
insert_by_order s (t ∷ rows) =
    if ltb_ℤ t.stage_order s.stage_order then t ∷ insert_by_order s rows else s ∷ t ∷ rows

abbrev pub order_stages : List StageInstance → List StageInstance
order_stages [] = []
order_stages (s ∷ rows) = insert_by_order s (order_stages rows)

-- `loadStageInstances`. `skip_reason` is not among the columns that it reads.
abbrev pub stages_of : String → List StageInstance → List StageInstance
stages_of instance_id rows =
    map (λ (s : StageInstance). record s { skip_reason = "" })
      (order_stages
        (keep_if (λ (s : StageInstance). str_eq s.approval_instance_id instance_id) rows))

-- The instance that `LoadInstance` builds from a row: `RevisionVersion` is not read, and stays 0.
abbrev pub instance_of : InstanceRow → List StageInstance → Instance
instance_of row rows = record {
  id = row.id;
  tenant_id = row.tenant_id;
  document_id = row.document_id;
  route_id = row.route_id;
  route_version_snapshot = row.route_version_snapshot;
  status = row.status;
  submitted_by = row.submitted_by;
  submitted_at = row.submitted_at;
  completed_at = row.completed_at;
  content_hash_at_submit = row.content_hash_at_submit;
  idempotency_key = row.idempotency_key;
  revision_version = 0;
  stages = stages_of row.id rows;
}

-- `LoadInstance`
unfoldable pub load_instance : String → String → Tx Instance
load_instance tenant_id id = do
  rows ← select (λ db. db.instances)
  row ←
      or_fail (find_if (λ (r : InstanceRow). str_eq r.id id && str_eq r.tenant_id tenant_id) rows)
        no_active_instance
  stages ← select (λ db. db.stages)
  pure (instance_of row stages)

-- The tenant of the instance that a row belongs to, by the join on its id.
abbrev pub owned_by : String → String → List InstanceRow → Bool
owned_by tenant_id instance_id =
    any (λ (r : InstanceRow). str_eq r.id instance_id && str_eq r.tenant_id tenant_id)

abbrev pub ends_stage : StageStatus → Bool
ends_stage completed = true
ends_stage skipped = true
ends_stage rejected_here = true
ends_stage _ = false

-- The SET of `UpdateStageStatus`.
abbrev pub with_status : ℕ → StageStatus → StageInstance → StageInstance
with_status now new s = record s {
  status = new;
  opened_at = if stage_status_eq new active then some now else s.opened_at;
  completed_at = if ends_stage new then some now else s.completed_at;
}

-- `UpdateStageStatus`
unfoldable pub update_stage_status : ℕ → String → String → StageStatus → StageStatus → Tx (Unit {0})
update_stage_status now tenant_id stage_id new expected = do
  instances ← select (λ db. db.instances)
  stages ← select (λ db. db.stages)
  let hit = λ (s : StageInstance).
      str_eq s.id stage_id
      && stage_status_eq s.status expected
      && owned_by tenant_id s.approval_instance_id instances
  fail_if (count_if hit stages == 0) stage_not_active
  write_stages (update_where hit (with_status now new) stages)

-- `UpdateInstanceStatus`
unfoldable pub update_instance_status :
    String → String → InstanceStatus → InstanceStatus → Option ℕ → Tx (Unit {0})
update_instance_status tenant_id id new expected completed_at = do
  rows ← select (λ db. db.instances)
  let hit = λ (r : InstanceRow).
      str_eq r.id id && str_eq r.tenant_id tenant_id && instance_status_eq r.status expected
  fail_if (count_if hit rows == 0) instance_completed
  write_instances (
      update_where hit (λ (r : InstanceRow). record r { status = new; completed_at = completed_at })
        rows)
