-- ===== src/Approval/Service/System.antt =====
-- The services of approval/application together: sequences of calls on one set of tables.
pub mod Life
use mathlib.Core.Path.{subst⁻¹}
use metal_docs.Prelude.{
  ℕ, zero, suc, String, ◌≡◌, refl, ◌⊎◌, inl, inr, Bool, true, false, Option, none, some, List, [],
  ◌∷◌,
}
use metal_docs.Prelude.Result.{Result, ok, err}
use metal_docs.Prelude.Tests.{Bool-cases}
use metal_docs.Approval.Store.Tables.{Document, Db}
use metal_docs.Approval.Store.Tx.{ServiceError, select, ◌>>=◌, fail_if}
use metal_docs.Approval.Service.{Env, call}
use metal_docs.Approval.Service.Submit.{SubmitRequest, submit}
use metal_docs.Approval.Service.Decide.{SignoffRequest, record_signoff}
use metal_docs.Approval.Service.Cancel.{CancelInput, cancel_instance}
use metal_docs.Approval.Service.Publish.{
  PublishRequest, SchedulePublishRequest, publish_approved, schedule_publish,
}
use metal_docs.Approval.Service.Retire.{
  SupersedeRequest, publish_superseding, MarkObsoleteRequest, mark_obsolete,
}
use metal_docs.Approval.Service.Scheduler.{
  ScheduledPublishRow, run_fetched, run_due_publishes, process_rows, list_scheduled_due,
  scheduler_batch_limit,
}
use metal_docs.Approval.Service.Keeps.{IsHistory}
use metal_docs.Approval.Service.History.{Evolves}
use metal_docs.Approval.Service.History.Rules.{Evolves-IsHistory}
use metal_docs.Approval.Service.History.Services.{
  submit-Evolves, record_signoff-Evolves, cancel_instance-Evolves, publish_approved-Evolves,
  schedule_publish-Evolves, publish_superseding-Evolves, mark_obsolete-Evolves,
  process_rows-Evolves,
}

-- A call of one of the services, with the environment in which it runs.
pub data Call : Type 0 where
  submitting : Env → SubmitRequest → Call
  signing : Env → SignoffRequest → Call
  cancelling : Env → CancelInput → Call
  publishing : Env → PublishRequest → Call
  scheduling : Env → SchedulePublishRequest → Call
  superseding : Env → SupersedeRequest → Call
  obsoleting : Env → MarkObsoleteRequest → Call
  running_due : (ℕ → Env) → Call

-- The tables after a call, whether it succeeded or not.
unfoldable pub perform : Call → Db → Db
perform (submitting env req) db = (submit env req db).1
perform (signing env req) db = (record_signoff env req db).1
perform (cancelling env input) db = (cancel_instance env input db).1
perform (publishing env req) db = (publish_approved env req db).1
perform (scheduling env req) db = (schedule_publish env req db).1
perform (superseding env req) db = (publish_superseding env req db).1
perform (obsoleting env req) db = (mark_obsolete env req db).1
perform (running_due env) db = (run_due_publishes env db).1

unfoldable pub perform_all : List Call → Db → Db
perform_all [] db = db
perform_all (c ∷ calls) db = perform_all calls (perform c db)

run_fetched-Evolves :
    (env : ℕ → Env) (fetched : Result ServiceError (List ScheduledPublishRow × Db)) (db : Db)
    → Evolves db (run_fetched env fetched db).1
unfolding run_fetched
run_fetched-Evolves env (err e) db = Evolves-IsHistory.still db
run_fetched-Evolves env (ok (rows, _)) db = process_rows-Evolves env 1 rows db

run_due_publishes-Evolves : (env : ℕ → Env) (db : Db) → Evolves db (run_due_publishes env db).1
unfolding run_due_publishes
run_due_publishes-Evolves env db = run_fetched-Evolves env _ db

perform-Evolves : (c : Call) (db : Db) → Evolves db (perform c db)
unfolding perform
perform-Evolves (submitting env req) db = submit-Evolves env req db
perform-Evolves (signing env req) db = record_signoff-Evolves env req db
perform-Evolves (cancelling env input) db = cancel_instance-Evolves env input db
perform-Evolves (publishing env req) db = publish_approved-Evolves env req db
perform-Evolves (scheduling env req) db = schedule_publish-Evolves env req db
perform-Evolves (superseding env req) db = publish_superseding-Evolves env req db
perform-Evolves (obsoleting env req) db = mark_obsolete-Evolves env req db
perform-Evolves (running_due env) db = run_due_publishes-Evolves env db

-- Any sequence of calls of the eight services, failed ones and failures of the database included,
-- changes each document only by updates that the trigger on transitions lets through and that add
-- one to its revision and keep its keys, and by freezes, which write their own four columns and
-- nothing else; it adds governance events and signoffs at the end and
-- removes none; and it leaves the routes alone.
pub perform_all-Evolves : (calls : List Call) (db : Db) → Evolves db (perform_all calls db)
unfolding perform_all
perform_all-Evolves [] db = Evolves-IsHistory.still db
perform_all-Evolves (c ∷ calls) db =
    Evolves-IsHistory.next db (perform c db) _ (perform-Evolves c db)
      (perform_all-Evolves calls (perform c db))
