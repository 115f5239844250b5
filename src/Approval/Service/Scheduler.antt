-- ===== src/Approval/Service/Scheduler.antt =====
-- SchedulerService.RunDuePublishes (approval/application/scheduler_service.go) and ListScheduledDue
-- (approval/repository/postgres_approval_repository.go).
use metal_docs.Prelude.{
  ℕ, zero, suc, String, Bool, true, false, ◌&&◌, Option, none, some, List, [], ◌∷◌,
}
use metal_docs.Prelude.Tests.{if◌then◌else◌, ltb, leb}
use metal_docs.Prelude.Result.{Result, ok, err}
use metal_docs.Prelude.Int.{pos}
use metal_docs.Approval.State.{scheduled, published, state_eq}
use metal_docs.Approval.Store.Tables.{Document, GovernanceEvent, Db}
use metal_docs.Approval.Store.Tx.{ServiceError, Tx, ◌>>=◌, ◌>>◌, pure, select, run_tx}
use metal_docs.Approval.Store.Repository.{emit, update_documents}
use metal_docs.Approval.Service.{Env, call, set_config, at_revision, bump}

pub record ScheduledPublishRow : Type 0 where
  pub document_id : String
  pub tenant_id : String
  pub effective_from : ℕ
  pub revision_version : ℕ

-- ORDER BY effective_from
unfoldable pub insert_due :
    ScheduledPublishRow → List ScheduledPublishRow → List ScheduledPublishRow
insert_due r [] = r ∷ []
insert_due r (t ∷ rows) =
    if ltb t.effective_from r.effective_from then t ∷ insert_due r rows else r ∷ t ∷ rows

-- WHERE status = 'scheduled' AND effective_from <= now; a NULL is not due.
unfoldable pub due_row : ℕ → Document → Option ℕ → Option ScheduledPublishRow
due_row now d none = none
due_row now d (some t) =
    if state_eq d.status scheduled && leb t now
    then some (record {
      document_id = d.id;
      tenant_id = d.tenant_id;
      effective_from = t;
      revision_version = d.revision_version;
    })
    else none

unfoldable pub due_rows : ℕ → List Document → List ScheduledPublishRow
due_rows now [] = []
due_rows now (d ∷ docs) = elim (due_row now d d.effective_from) [
  | none ↦ due_rows now docs
  | some row ↦ insert_due row (due_rows now docs)
]

-- LIMIT
unfoldable pub first_rows : ℕ → List ScheduledPublishRow → List ScheduledPublishRow
first_rows zero rows = []
first_rows (suc n) [] = []
first_rows (suc n) (r ∷ rows) = r ∷ first_rows n rows

-- `ListScheduledDue`, when no row is locked by another worker.
unfoldable pub list_scheduled_due : ℕ → ℕ → List Document → List ScheduledPublishRow
list_scheduled_due now limit docs = first_rows limit (due_rows now docs)

abbrev pub scheduler_batch_limit : ℕ
scheduler_batch_limit = 50

unfoldable pub scheduled_event : ScheduledPublishRow → GovernanceEvent
scheduled_event row = record {
  tenant_id = row.tenant_id;
  event_type = "document_published";
  actor_user_id = "scheduler";
  resource_type = "document";
  resource_id = row.document_id;
  reason = "scheduled publish";
}

unfoldable pub publish_row : Env → ScheduledPublishRow → ℕ → Tx Bool
publish_row env row zero = pure false
publish_row env row (suc _) = do call env 3 (emit (scheduled_event row)); call env 4 (pure true)

unfoldable pub process_row_tx : Env → ScheduledPublishRow → Tx Bool
process_row_tx env row = do
  set_config env 1
  affected ← call env 2 (
      update_documents false
        (at_revision row.tenant_id row.document_id scheduled (pos row.revision_version))
        (bump published))
  publish_row env row affected

-- `processRow`
unfoldable pub process_row : Env → ScheduledPublishRow → Db → Result ServiceError Bool × Db
process_row env row = run_tx (call env 0 (process_row_tx env row))

pub record RunDuePublishesResult : Type 0 where
  pub processed : ℕ
  pub errors : List ServiceError

unfoldable pub count_outcome :
    Result ServiceError Bool → RunDuePublishesResult → RunDuePublishesResult
count_outcome (err e) r = record r { errors = e ∷ r.errors }
count_outcome (ok true) r = record r { processed = suc r.processed }
count_outcome (ok false) r = r

-- The loop over the rows; `env` gives the environment of each transaction by its number.
unfoldable pub process_rows :
    (ℕ → Env) → ℕ → List ScheduledPublishRow → Db → RunDuePublishesResult × Db
process_rows env i [] db = (record { processed = 0; errors = [] }, db)
process_rows env i (row ∷ rows) db =
    let one = process_row (env i) row db in
    let rest = process_rows env (suc i) rows one.1 in (count_outcome one.0 rest.0, rest.1)

-- What follows the fetch of the due rows.
unfoldable pub run_fetched :
    (ℕ → Env)
    → Result ServiceError (List ScheduledPublishRow × Db)
    → Db
    → Result ServiceError RunDuePublishesResult × Db
run_fetched env (err e) db = (err e, db)
run_fetched env (ok (rows, _)) db = let done = process_rows env 1 rows db in (ok done.0, done.1)

-- The transaction that fetches the rows, with its query and its commit.
unfoldable pub fetch_due : Env → Tx (List ScheduledPublishRow)
fetch_due env = do
  rows ← call env 1 (select (λ db. list_scheduled_due env.now scheduler_batch_limit db.documents))
  call env 2 (pure rows)

-- `RunDuePublishes`
unfoldable pub run_due_publishes : (ℕ → Env) → Db → Result ServiceError RunDuePublishesResult × Db
run_due_publishes env db = run_fetched env (call (env 0) 0 (fetch_due (env 0)) db) db
