-- ===== src/Approval/Service/History/Services.antt =====
-- Every service of approval/application changes the tables along their history.
use metal_docs.Prelude.{ℕ, zero, suc, String, refl, false, Option, none, some, List, [], ◌∷◌}
use metal_docs.Approval.State.{DocState}
use metal_docs.Approval.Quorum.{QuorumOutcome, quorum_pending, approved_stage, rejected_stage}
use metal_docs.Approval.Route.{Route}
use metal_docs.Approval.Instance.{Instance, StageInstance}
use metal_docs.Approval.Store.Tables.{FrozenValues, Db}
use metal_docs.Approval.Service.{Env, is_doc, bump, require, load_document_area_code}
use metal_docs.Approval.Service.Submit.{
  SubmitRequest, load_route, write_submission, submit_tx, submit,
}
use metal_docs.Approval.Service.Decide.{
  SignoffRequest, finish_approval, activate_stage, activate_following, complete_stage, reject_stage,
  apply_outcome, settle, sign, record_signoff_tx, record_signoff,
}
use metal_docs.Approval.Service.Freeze.{
  set_frozen, set_final_docx, write_freeze, write_final_docx, freeze_values, run_freeze,
}
use metal_docs.Approval.Service.Cancel.{
  CancelInput, load_area_snapshot, cancel_stages, write_cancel, cancel_tx, cancel_instance,
}
use metal_docs.Approval.Service.Publish.{
  PublishRequest, SchedulePublishRequest, approved_instance, publish_tx, publish_approved,
  schedule_at, schedule_tx, schedule_publish,
}
use metal_docs.Approval.Service.Retire.{
  SupersedeRequest, supersede_tx, publish_superseding, MarkObsoleteRequest, cancel_open_instances,
  obsolete_tx, mark_obsolete,
}
use metal_docs.Approval.Service.Scheduler.{
  ScheduledPublishRow, publish_row, process_row_tx, process_row, process_rows,
}
use metal_docs.Approval.Service.Keeps.{Keeps, keeps_rules, run_tx-Keeps}
use metal_docs.Approval.Service.History.{Evolves}
use metal_docs.Approval.Service.History.Rules.{
  Keeps-freeze_documents, Bumps, Evolves-IsHistory, statement_rules,
}

bump-Bumps : (status : DocState) → Bumps (bump status)
unfolding Bumps bump
bump-Bumps status d = (refl, refl, refl, refl)

schedule_at-Bumps : (date : ℕ) → Bumps (schedule_at date)
unfolding Bumps bump schedule_at
schedule_at-Bumps date d = (refl, refl, refl, refl)

Keeps-require :
    (env : Env) (session : Option (String × String)) (capability area_code : String)
    → Keeps Evolves (require env session capability area_code)
unfolding require
Keeps-require env none capability area_code = search (statement_rules)
Keeps-require env (some (tenant_id, actor)) capability area_code = search (statement_rules)

Keeps-load_document_area_code :
    (tenant_id document_id : String) → Keeps Evolves (load_document_area_code tenant_id document_id)
unfolding load_document_area_code
Keeps-load_document_area_code tenant_id document_id = search (statement_rules)

ruleset service_rules =
    (statement_rules, bump-Bumps, schedule_at-Bumps, Keeps-require, Keeps-load_document_area_code)

Keeps-write_submission :
    (env : Env) (req : SubmitRequest) (route : Route) (hash : List ℕ)
    → Keeps Evolves (write_submission env req route hash)
unfolding write_submission
Keeps-write_submission env req route hash = search (service_rules) depth 30

Keeps-submit_tx :
    (env : Env) (req : SubmitRequest) (hash : List ℕ) → Keeps Evolves (submit_tx env req hash)
unfolding submit_tx load_route
Keeps-submit_tx env req hash = search (service_rules, Keeps-write_submission) depth 30

-- `SubmitRevisionForReview`, whether it succeeds or fails, respects the history.
pub submit-Evolves : (env : Env) (req : SubmitRequest) (db : Db) → Evolves db (submit env req db).1
unfolding submit
submit-Evolves env req db =
    run_tx-Keeps Evolves Evolves-IsHistory _ db (search (service_rules, Keeps-submit_tx))

Keeps-freeze_values :
    (env : Env) (freeze : String → String → Option FrozenValues) (tenant_id document_id : String)
    (frozen_at : Option ℕ)
    → Keeps Evolves (freeze_values env freeze tenant_id document_id frozen_at)
unfolding freeze_values write_freeze write_final_docx
Keeps-freeze_values env freeze tenant_id document_id (some at) = search (service_rules)
Keeps-freeze_values env freeze tenant_id document_id none =
    search
      (
        keeps_rules,
        Evolves-IsHistory,
        λ (values : FrozenValues).
            Keeps-freeze_documents false (is_doc tenant_id document_id) (set_frozen env.now values)
              (λ d. refl),
        λ (values : FrozenValues).
            Keeps-freeze_documents false (is_doc tenant_id document_id) (set_final_docx values)
              (λ d. refl),
      )
      depth 20

Keeps-run_freeze :
    (env : Env) (freeze : Option (String → String → Option FrozenValues))
    (tenant_id document_id : String)
    → Keeps Evolves (run_freeze env freeze tenant_id document_id)
unfolding run_freeze
Keeps-run_freeze env none tenant_id document_id = search (service_rules)
Keeps-run_freeze env (some freeze) tenant_id document_id =
    search (service_rules, Keeps-freeze_values) depth 12

Keeps-activate_stage :
    (env : Env) (req : SignoffRequest) (next : Option StageInstance)
    → Keeps Evolves (activate_stage env req next)
unfolding activate_stage
Keeps-activate_stage env req none = search (service_rules)
Keeps-activate_stage env req (some next) = search (service_rules)

Keeps-apply_outcome :
    (env : Env) (req : SignoffRequest) (inst : Instance) (stage : StageInstance)
    (outcome : QuorumOutcome)
    → Keeps Evolves (apply_outcome env req inst stage outcome)
unfolding apply_outcome complete_stage reject_stage finish_approval activate_following
Keeps-apply_outcome env req inst stage approved_stage =
    search (service_rules, Keeps-run_freeze, Keeps-activate_stage) depth 30
Keeps-apply_outcome env req inst stage rejected_stage = search (service_rules) depth 30
Keeps-apply_outcome env req inst stage quorum_pending = search (service_rules)

Keeps-sign :
    (env : Env) (req : SignoffRequest) (hash : List ℕ) (inst : Instance) (stage : StageInstance)
    → Keeps Evolves (sign env req hash inst stage)
unfolding sign settle
Keeps-sign env req hash inst stage = search (service_rules, Keeps-apply_outcome) depth 30

Keeps-record_signoff_tx :
    (env : Env) (req : SignoffRequest) (hash : List ℕ)
    → Keeps Evolves (record_signoff_tx env req hash)
unfolding record_signoff_tx
Keeps-record_signoff_tx env req hash = search (service_rules, Keeps-sign) depth 30

-- `RecordSignoff`, whether it succeeds or fails, respects the history.
pub record_signoff-Evolves :
    (env : Env) (req : SignoffRequest) (db : Db) → Evolves db (record_signoff env req db).1
unfolding record_signoff
record_signoff-Evolves env req db =
    run_tx-Keeps Evolves Evolves-IsHistory _ db (search (service_rules, Keeps-record_signoff_tx))

Keeps-write_cancel :
    (env : Env) (input : CancelInput) (document_id : String)
    → Keeps Evolves (write_cancel env input document_id)
unfolding write_cancel cancel_stages
Keeps-write_cancel env input document_id = search (service_rules) depth 30

Keeps-cancel_tx : (env : Env) (input : CancelInput) → Keeps Evolves (cancel_tx env input)
unfolding cancel_tx load_area_snapshot
Keeps-cancel_tx env input = search (service_rules, Keeps-write_cancel) depth 30

pub cancel_instance-Evolves :
    (env : Env) (input : CancelInput) (db : Db) → Evolves db (cancel_instance env input db).1
unfolding cancel_instance
cancel_instance-Evolves env input db =
    run_tx-Keeps Evolves Evolves-IsHistory _ db (search (service_rules, Keeps-cancel_tx))

Keeps-approved_instance :
    (env : Env) (tenant_id instance_id actor : String)
    → Keeps Evolves (approved_instance env tenant_id instance_id actor)
unfolding approved_instance
Keeps-approved_instance env tenant_id instance_id actor = search (service_rules) depth 30

Keeps-publish_tx : (env : Env) (req : PublishRequest) → Keeps Evolves (publish_tx env req)
unfolding publish_tx
Keeps-publish_tx env req = search (service_rules, Keeps-approved_instance) depth 30

pub publish_approved-Evolves :
    (env : Env) (req : PublishRequest) (db : Db) → Evolves db (publish_approved env req db).1
unfolding publish_approved
publish_approved-Evolves env req db =
    run_tx-Keeps Evolves Evolves-IsHistory _ db (search (service_rules, Keeps-publish_tx))

Keeps-schedule_tx : (env : Env) (req : SchedulePublishRequest) → Keeps Evolves (schedule_tx env req)
unfolding schedule_tx
Keeps-schedule_tx env req = search (service_rules, Keeps-approved_instance) depth 30

pub schedule_publish-Evolves :
    (env : Env) (req : SchedulePublishRequest) (db : Db)
    → Evolves db (schedule_publish env req db).1
unfolding schedule_publish
schedule_publish-Evolves env req db =
    run_tx-Keeps Evolves Evolves-IsHistory _ db (search (service_rules, Keeps-schedule_tx))

Keeps-supersede_tx : (env : Env) (req : SupersedeRequest) → Keeps Evolves (supersede_tx env req)
unfolding supersede_tx
Keeps-supersede_tx env req = search (service_rules) depth 30

pub publish_superseding-Evolves :
    (env : Env) (req : SupersedeRequest) (db : Db) → Evolves db (publish_superseding env req db).1
unfolding publish_superseding
publish_superseding-Evolves env req db =
    run_tx-Keeps Evolves Evolves-IsHistory _ db (search (service_rules, Keeps-supersede_tx))

Keeps-obsolete_tx : (env : Env) (req : MarkObsoleteRequest) → Keeps Evolves (obsolete_tx env req)
unfolding obsolete_tx cancel_open_instances
Keeps-obsolete_tx env req = search (service_rules) depth 40

pub mark_obsolete-Evolves :
    (env : Env) (req : MarkObsoleteRequest) (db : Db) → Evolves db (mark_obsolete env req db).1
unfolding mark_obsolete
mark_obsolete-Evolves env req db =
    run_tx-Keeps Evolves Evolves-IsHistory _ db (search (service_rules, Keeps-obsolete_tx))

Keeps-publish_row :
    (env : Env) (row : ScheduledPublishRow) (affected : ℕ)
    → Keeps Evolves (publish_row env row affected)
unfolding publish_row
Keeps-publish_row env row zero = search (service_rules)
Keeps-publish_row env row (suc n) = search (service_rules) depth 12

Keeps-process_row_tx :
    (env : Env) (row : ScheduledPublishRow) → Keeps Evolves (process_row_tx env row)
unfolding process_row_tx
Keeps-process_row_tx env row = search (service_rules, Keeps-publish_row) depth 20

process_row-Evolves :
    (env : Env) (row : ScheduledPublishRow) (db : Db) → Evolves db (process_row env row db).1
unfolding process_row
process_row-Evolves env row db =
    run_tx-Keeps Evolves Evolves-IsHistory _ db (search (service_rules, Keeps-process_row_tx))

pub process_rows-Evolves :
    (env : ℕ → Env) (i : ℕ) (rows : List ScheduledPublishRow) (db : Db)
    → Evolves db (process_rows env i rows db).1
unfolding process_rows
process_rows-Evolves env i [] db = Evolves-IsHistory.still db
process_rows-Evolves env i (row ∷ rows) db =
    let mid = (process_row (env i) row db).1 in
    Evolves-IsHistory.next db mid _ (process_row-Evolves (env i) row db)
      (process_rows-Evolves env (suc i) rows mid)
