-- ===== src/Approval/Tests/Services.antt =====
-- Runs of the models of approval/application on a small set of tables.
use metal_docs.Prelude.{ℕ, ◌+◌, ◌≤◌, String, ◌≡◌, ◌≢◌, refl, true, false, none, some, List, [], ◌∷◌}
use metal_docs.Prelude.Int.{pos}
use metal_docs.Prelude.Result.{ok}
use metal_docs.Approval.State.{DocState, draft, under_review, published, trigger_allows}
use metal_docs.Approval.State.Graph.{is_released}
use metal_docs.Approval.Route.{Stage, m_of_n, validate}
use metal_docs.Approval.Signoff.{
  Signoff, approve, new_signoff, check_sod, to_lower, is_hex, is_hash,
}
use metal_docs.Approval.Instance.{
  StageInstance, Instance, find_active, split_active, activate_next, advance_stage,
}
use metal_docs.Approval.Payload.{Fields, Json, walk_any, walk_fields, has_float_value}
use metal_docs.Approval.Quorum.{
  compute_effective_denominator, count_votes, decide_quorum, evaluate_quorum,
}
use metal_docs.Approval.Store.Tables.{thawed, FrozenValues, Document, Db}
use metal_docs.Approval.Store.Tx.{◌>>=◌, pure, fail, fail_if, or_fail, passes, lift, select, run_tx}
use metal_docs.Approval.Store.Repository.{
  write_documents, write_instances, write_stages, write_signoffs, emit, update_documents,
  insert_instance, insert_stage_instances, load_instance, update_stage_status,
  update_instance_status,
}
use metal_docs.Approval.Store.Signing.{
  scan_signoffs, load_prior_signoffs, load_stage_signoffs, insert_or_compare, insert_signoff,
}
use metal_docs.Approval.Service.{
  Env, call, set_config, compute_content_hash, is_granted, require, is_doc, coalesce_area,
  area_or_tenant, load_document_area_code, in_state, at_revision, bump,
}
use metal_docs.Approval.Service.Submit.{
  SubmitRequest, load_route, stage_instances, new_instance, submitted_event, write_submission,
  submit_tx, submit,
}
use metal_docs.Approval.Service.Freeze.{write_freeze, write_final_docx, freeze_values, run_freeze}
use metal_docs.Approval.Service.Decide.{
  SignoffRequest, SignoffResult, split_signoffs, quorum_denominator, stage_outcome, finish_approval,
  activate_stage, activate_following, complete_stage, reject_stage, apply_outcome, recorded_event,
  settle, signoff_params, sign, record_signoff_tx, record_signoff,
}
use metal_docs.Approval.Service.Cancel.{
  CancelInput, load_area_snapshot, session_of, is_open_stage, cancel_stages, cancelled_event,
  write_cancel, cancel_tx, cancel_instance,
}
use metal_docs.Approval.Service.Cancellations.{IsCancellation, cancel_instance-ok}
use metal_docs.Approval.Service.Publish.{
  PublishRequest, SchedulePublishRequest, document_event, approved_instance, publish_tx,
  publish_approved, schedule_publish,
}
use metal_docs.Approval.Service.Scheduler.{
  fetch_due, due_row, insert_due, due_rows, first_rows, list_scheduled_due, publish_row,
  process_row_tx, process_row, count_outcome, process_rows, run_fetched, run_due_publishes,
  scheduled_event,
}
use metal_docs.Approval.Service.History.{Evolves, AreUnique}
use metal_docs.Approval.Service.System.{
  Call, submitting, signing, publishing, perform, perform_all, perform_all-Evolves,
}
use metal_docs.Approval.Service.System.Life.{
  row_at, IsThere, perform_all-is_released, perform_all-revision_version,
  perform_all-release_takes_two, perform_all-AreUnique,
}
use metal_docs.Approval.Service.Releases.{IsReleasable, IsPublication, publish_approved-ok}
use metal_docs.Approval.Service.Schedules.{AreRevised, schedule_publish_refused}
use metal_docs.Approval.Service.Retire.{SupersedeRequest, supersede_tx, publish_superseding}
use metal_docs.Approval.Service.Successions.{IsSuccession, publish_superseding-ok}
use metal_docs.Approval.Service.Signed.{MaySign, record_signoff-MaySign}
use metal_docs.Approval.Service.Faults.{
  stage_at, IsRejectedByFirst, stage_instances-IsRejectedByFirst, run_due_publishes-le,
}
use metal_docs.Approval.Tests.{one_stage, one_route, sixty_four, eve, bob}

abbrev frozen : FrozenValues
frozen = record { values_hash = "v"; final_docx_s3_key = "final"; content_hash = "f" }

abbrev an_env : String → Env
an_env id = record {
  now = 7;
  new_id = id;
  new_stage_id = λ i. "st";
  role_capabilities =
      record { role = "all"; capability = "doc.submit" }
      ∷ record { role = "all"; capability = "doc.signoff" }
      ∷ record { role = "all"; capability = "doc.publish" }
      ∷ record { role = "all"; capability = "doc.supersede" }
      ∷ record { role = "all"; capability = "workflow.instance.cancel" }
      ∷ [];
  user_process_areas =
      record { user_id = bob; tenant_id = "t1"; area_code = "QA"; role = "all"; ended = false }
      ∷ record { user_id = eve; tenant_id = "t1"; area_code = "QA"; role = "all"; ended = false }
      ∷ [];
  digest = λ tenant document revision form. sixty_four;
  idempotency_key = λ actor document now. "k";
  freeze = some (λ tenant document. some frozen);
  columns = record { jsonb = λ payload. payload; timestamptz = λ time. time };
  fails = λ k. false;
}

abbrev a_document : DocState → ℕ → Document
a_document status revision = record {
  id = "d1";
  tenant_id = "t1";
  created_by = bob;
  status = status;
  revision_version = revision;
  effective_from = some 3;
  effective_date = none;
  area_code_snapshot = some "QA";
  controlled_area_code = none;
  values_hash = none;
  values_frozen_at = none;
  final_docx_s3_key = none;
  content_hash = none;
}

abbrev db_of : Document → Db
db_of d = record {
  documents = d ∷ [];
  routes = one_route ∷ [];
  instances = [];
  stages = [];
  signoffs = [];
  events = [];
}

abbrev submit_request : SubmitRequest
submit_request = record {
  tenant_id = "t1";
  document_id = "d1";
  route_id = "r1";
  submitted_by = bob;
  content_form_data = Fields.end;
  revision_version = pos 0;
}

abbrev signoff_request : SignoffRequest
signoff_request = record {
  tenant_id = "t1";
  instance_id = "i1";
  stage_instance_id = "st";
  actor_user_id = eve;
  decision = approve;
  comment = "";
  signature_method = "password";
  signature_payload = Fields.end;
  signature_json = "{}";
  content_form_data = Fields.end;
}

abbrev publish_request : PublishRequest
publish_request = record { tenant_id = "t1"; instance_id = "i1"; published_by = eve }

abbrev life : List Call
life =
    submitting (an_env "i1") submit_request
    ∷ signing (an_env "s1") signoff_request
    ∷ publishing (an_env "p1") publish_request
    ∷ []

perform_all-Evolves_example :
    Evolves (db_of (a_document draft 0)) (perform_all life (db_of (a_document draft 0)))
perform_all-Evolves_example = perform_all-Evolves life (db_of (a_document draft 0))

abbrev submitted_db : Db
submitted_db = perform (submitting (an_env "i1") submit_request) (db_of (a_document draft 0))

submitted_row : row_at 0 submitted_db.documents ≡ some (a_document under_review 1)
unfolding row_at perform perform_all submit submit_tx write_submission call fail_if ◌>>=◌ set_config
    pure select run_tx lift or_fail passes fail has_float_value walk_fields compute_content_hash
    load_document_area_code area_or_tenant coalesce_area require is_granted is_doc load_route
    validate insert_instance new_instance write_instances insert_stage_instances stage_instances
    write_stages update_documents trigger_allows at_revision in_state bump write_documents emit
    submitted_event record_signoff record_signoff_tx load_instance find_active sign
    load_prior_signoffs scan_signoffs check_sod new_signoff signoff_params to_lower is_hex is_hash
    insert_signoff insert_or_compare write_signoffs settle load_stage_signoffs stage_outcome
    split_signoffs quorum_denominator compute_effective_denominator evaluate_quorum count_votes
    decide_quorum apply_outcome complete_stage reject_stage finish_approval run_freeze freeze_values
    write_freeze write_final_docx activate_stage activate_following advance_stage split_active
    activate_next update_stage_status update_instance_status recorded_event publish_approved
    publish_tx approved_instance document_event
submitted_row = refl

-- Published in its third revision, and frozen on the way.
abbrev life_end : Document
life_end = record (a_document published 3) {
  values_hash = some "v";
  values_frozen_at = some 7;
  final_docx_s3_key = some "final";
  content_hash = some "f";
}

life_row : row_at 0 (perform_all life (db_of (a_document draft 0))).documents ≡ some life_end
unfolding row_at perform perform_all submit submit_tx write_submission call fail_if ◌>>=◌ set_config
    pure select run_tx lift or_fail passes fail has_float_value walk_fields compute_content_hash
    load_document_area_code area_or_tenant coalesce_area require is_granted is_doc load_route
    validate insert_instance new_instance write_instances insert_stage_instances stage_instances
    write_stages update_documents trigger_allows at_revision in_state bump write_documents emit
    submitted_event record_signoff record_signoff_tx load_instance find_active sign
    load_prior_signoffs scan_signoffs check_sod new_signoff signoff_params to_lower is_hex is_hash
    insert_signoff insert_or_compare write_signoffs settle load_stage_signoffs stage_outcome
    split_signoffs quorum_denominator compute_effective_denominator evaluate_quorum count_votes
    decide_quorum apply_outcome complete_stage reject_stage finish_approval run_freeze freeze_values
    write_freeze write_final_docx activate_stage activate_following advance_stage split_active
    activate_next update_stage_status update_instance_status recorded_event publish_approved
    publish_tx approved_instance document_event
life_row = refl

perform_all-is_released_example :
    IsThere 0
      (perform_all life (db_of (a_document published 4))).documents
      (λ e. is_released e.status ≡ true)
unfolding row_at
perform_all-is_released_example =
    perform_all-is_released life (db_of (a_document published 4)) 0 (a_document published 4) refl
      refl

-- The submission is refused for a published document.
kept_row :
    row_at 0 (perform_all life (db_of (a_document published 4))).documents
    ≡ some (a_document published 4)
unfolding row_at perform perform_all submit submit_tx write_submission call fail_if ◌>>=◌ set_config
    pure select run_tx lift or_fail passes fail has_float_value walk_fields compute_content_hash
    load_document_area_code area_or_tenant coalesce_area require is_granted is_doc load_route
    validate insert_instance new_instance write_instances insert_stage_instances stage_instances
    write_stages update_documents trigger_allows at_revision in_state bump write_documents emit
    submitted_event record_signoff record_signoff_tx load_instance find_active sign
    load_prior_signoffs scan_signoffs check_sod new_signoff signoff_params to_lower is_hex is_hash
    insert_signoff insert_or_compare write_signoffs settle load_stage_signoffs stage_outcome
    split_signoffs quorum_denominator compute_effective_denominator evaluate_quorum count_votes
    decide_quorum apply_outcome complete_stage reject_stage finish_approval run_freeze freeze_values
    write_freeze write_final_docx activate_stage activate_following advance_stage split_active
    activate_next update_stage_status update_instance_status recorded_event publish_approved
    publish_tx approved_instance document_event
kept_row = refl

perform_all-revision_version_example :
    thawed (a_document published 4) ≡ thawed (a_document published 4)
unfolding row_at
perform_all-revision_version_example =
    perform_all-revision_version life (db_of (a_document published 4)) 0 (a_document published 4)
      (a_document published 4) refl kept_row refl

perform_all-release_takes_two_example : 0 + 2 ≤ 3
unfolding row_at
perform_all-release_takes_two_example =
    perform_all-release_takes_two life (db_of (a_document draft 0)) 0 (a_document draft 0) life_end
      refl life_row refl refl

none_yet-AreUnique : AreUnique []
unfolding AreUnique
none_yet-AreUnique = tt

perform_all-AreUnique_example : AreUnique (perform_all life (db_of (a_document draft 0))).signoffs
perform_all-AreUnique_example =
    perform_all-AreUnique life (db_of (a_document draft 0)) none_yet-AreUnique

abbrev signed_db : Db
signed_db = perform (signing (an_env "s1") signoff_request) submitted_db

published_id : (publish_approved (an_env "p1") publish_request signed_db).0 ≡ ok "d1"
unfolding row_at perform perform_all submit submit_tx write_submission call fail_if ◌>>=◌ set_config
    pure select run_tx lift or_fail passes fail has_float_value walk_fields compute_content_hash
    load_document_area_code area_or_tenant coalesce_area require is_granted is_doc load_route
    validate insert_instance new_instance write_instances insert_stage_instances stage_instances
    write_stages update_documents trigger_allows at_revision in_state bump write_documents emit
    submitted_event record_signoff record_signoff_tx load_instance find_active sign
    load_prior_signoffs scan_signoffs check_sod new_signoff signoff_params to_lower is_hex is_hash
    insert_signoff insert_or_compare write_signoffs settle load_stage_signoffs stage_outcome
    split_signoffs quorum_denominator compute_effective_denominator evaluate_quorum count_votes
    decide_quorum apply_outcome complete_stage reject_stage finish_approval run_freeze freeze_values
    write_freeze write_final_docx activate_stage activate_following advance_stage split_active
    activate_next update_stage_status update_instance_status recorded_event publish_approved
    publish_tx approved_instance document_event
published_id = refl

publish_approved_example :
    (inst : Instance) × (inst.document_id ≡ "d1")
    × IsReleasable (an_env "p1") "t1" "i1" eve signed_db inst
    × IsPublication publish_request signed_db
        (publish_approved (an_env "p1") publish_request signed_db).1
        inst
publish_approved_example =
    publish_approved-ok (an_env "p1") publish_request signed_db "d1" published_id

abbrev both_done : SignoffResult
both_done = record { stage_completed = true; instance_approved = true; instance_rejected = false }

signed_result : (record_signoff (an_env "s1") signoff_request submitted_db).0 ≡ ok both_done
unfolding row_at perform perform_all submit submit_tx write_submission call fail_if ◌>>=◌ set_config
    pure select run_tx lift or_fail passes fail has_float_value walk_fields compute_content_hash
    load_document_area_code area_or_tenant coalesce_area require is_granted is_doc load_route
    validate insert_instance new_instance write_instances insert_stage_instances stage_instances
    write_stages update_documents trigger_allows at_revision in_state bump write_documents emit
    submitted_event record_signoff record_signoff_tx load_instance find_active sign
    load_prior_signoffs scan_signoffs check_sod new_signoff signoff_params to_lower is_hex is_hash
    insert_signoff insert_or_compare write_signoffs settle load_stage_signoffs stage_outcome
    split_signoffs quorum_denominator compute_effective_denominator evaluate_quorum count_votes
    decide_quorum apply_outcome complete_stage reject_stage finish_approval run_freeze freeze_values
    write_freeze write_final_docx activate_stage activate_following advance_stage split_active
    activate_next update_stage_status update_instance_status recorded_event publish_approved
    publish_tx approved_instance document_event
signed_result = refl

record_signoff-MaySign_example :
    (inst : Instance) × MaySign (an_env "s1") signoff_request submitted_db inst
record_signoff-MaySign_example =
    record_signoff-MaySign (an_env "s1") signoff_request submitted_db both_done signed_result

abbrev schedule_request : SchedulePublishRequest
schedule_request = record {
  tenant_id = "t1";
  instance_id = "i1";
  effective_date = 20;
  scheduled_by = eve;
}

signed-AreRevised : AreRevised signed_db.documents
unfolding row_at perform perform_all submit submit_tx write_submission call fail_if ◌>>=◌ set_config
    pure select run_tx lift or_fail passes fail has_float_value walk_fields compute_content_hash
    load_document_area_code area_or_tenant coalesce_area require is_granted is_doc load_route
    validate insert_instance new_instance write_instances insert_stage_instances stage_instances
    write_stages update_documents trigger_allows at_revision in_state bump write_documents emit
    submitted_event record_signoff record_signoff_tx load_instance find_active sign
    load_prior_signoffs scan_signoffs check_sod new_signoff signoff_params to_lower is_hex is_hash
    insert_signoff insert_or_compare write_signoffs settle load_stage_signoffs stage_outcome
    split_signoffs quorum_denominator compute_effective_denominator evaluate_quorum count_votes
    decide_quorum apply_outcome complete_stage reject_stage finish_approval run_freeze freeze_values
    write_freeze write_final_docx activate_stage activate_following advance_stage split_active
    activate_next update_stage_status update_instance_status recorded_event publish_approved
    publish_tx approved_instance document_event AreRevised
signed-AreRevised = (refl, tt)

schedule_publish_example : (schedule_publish (an_env "p1") schedule_request signed_db).0 ≢ ok "d1"
schedule_publish_example =
    schedule_publish_refused (an_env "p1") schedule_request signed_db "d1" signed-AreRevised

abbrev watchdog_cancel : CancelInput
watchdog_cancel = record {
  tenant_id = "t1";
  instance_id = "i1";
  expected_revision_version = pos 1;
  actor_user_id = "system";
  reason = "stuck";
  bypass_authz = true;
}

abbrev pair_stage : Stage
pair_stage = record one_stage { quorum = m_of_n; quorum_m = some (pos 2) }

abbrev an_approval : Signoff
an_approval = record {
  id = "s1";
  approval_instance_id = "i1";
  stage_instance_id = "st";
  actor_user_id = eve;
  actor_tenant_id = "t1";
  decision = approve;
  comment = "";
  signed_at = 7;
  signature_method = "password";
  signature_payload = "{}";
  content_hash = sixty_four;
}

-- A route with a stage of another kind before the one of two approvals.
stage_instances_example :
    (made : StageInstance) × (stage_at 1
        (stage_instances (an_env "i1") 0 (one_stage ∷ pair_stage ∷ []))
      ≡ some made)
    × IsRejectedByFirst an_approval made
unfolding stage_at
stage_instances_example =
    stage_instances-IsRejectedByFirst (an_env "i1") 0 1 (one_stage ∷ pair_stage ∷ []) pair_stage 0
      an_approval refl refl refl refl

abbrev waiting_document : Document
waiting_document = a_document DocState.scheduled 3

one_published :
    (run_due_publishes (λ i. an_env "e") (db_of waiting_document)).0
    ≡ ok (record { processed = 1; errors = [] })
unfolding row_at perform perform_all submit submit_tx write_submission call fail_if ◌>>=◌ set_config
    pure select run_tx lift or_fail passes fail has_float_value walk_fields compute_content_hash
    load_document_area_code area_or_tenant coalesce_area require is_granted is_doc load_route
    validate insert_instance new_instance write_instances insert_stage_instances stage_instances
    write_stages update_documents trigger_allows at_revision in_state bump write_documents emit
    submitted_event record_signoff record_signoff_tx load_instance find_active sign
    load_prior_signoffs scan_signoffs check_sod new_signoff signoff_params to_lower is_hex is_hash
    insert_signoff insert_or_compare write_signoffs settle load_stage_signoffs stage_outcome
    split_signoffs quorum_denominator compute_effective_denominator evaluate_quorum count_votes
    decide_quorum apply_outcome complete_stage reject_stage finish_approval run_freeze freeze_values
    write_freeze write_final_docx activate_stage activate_following advance_stage split_active
    activate_next update_stage_status update_instance_status recorded_event publish_approved
    publish_tx approved_instance document_event due_row insert_due due_rows first_rows
    list_scheduled_due publish_row process_row_tx process_row count_outcome process_rows run_fetched
    run_due_publishes fetch_due scheduled_event
one_published = refl

run_due_publishes_example : 1 + 0 ≤ 50
run_due_publishes_example =
    run_due_publishes-le (λ i. an_env "e") (db_of waiting_document)
      (record { processed = 1; errors = [] }) one_published

abbrev a_form : Fields
a_form = Fields.field "title" (Json.text "Manual") Fields.end

no_float : walk_fields a_form ≡ false
unfolding walk_any walk_fields
no_float = refl

abbrev prior_document : Document
prior_document = record (a_document published 6) { id = "d0" }

abbrev two_documents : Db
two_documents = record (db_of (a_document DocState.approved 2)) {
  documents = a_document DocState.approved 2 ∷ prior_document ∷ [];
}

abbrev supersede_request : SupersedeRequest
supersede_request = record {
  tenant_id = "t1";
  new_document_id = "d1";
  prior_document_id = "d0";
  superseded_by = eve;
  new_revision_version = pos 2;
  prior_revision_version = pos 6;
}

succeeded : (publish_superseding (an_env "e") supersede_request two_documents).0 ≡ ok tt
unfolding row_at perform perform_all submit submit_tx write_submission call fail_if ◌>>=◌ set_config
    pure select run_tx lift or_fail passes fail has_float_value walk_fields compute_content_hash
    load_document_area_code area_or_tenant coalesce_area require is_granted is_doc load_route
    validate insert_instance new_instance write_instances insert_stage_instances stage_instances
    write_stages update_documents trigger_allows at_revision in_state bump write_documents emit
    submitted_event record_signoff record_signoff_tx load_instance find_active sign
    load_prior_signoffs scan_signoffs check_sod new_signoff signoff_params to_lower is_hex is_hash
    insert_signoff insert_or_compare write_signoffs settle load_stage_signoffs stage_outcome
    split_signoffs quorum_denominator compute_effective_denominator evaluate_quorum count_votes
    decide_quorum apply_outcome complete_stage reject_stage finish_approval run_freeze freeze_values
    write_freeze write_final_docx activate_stage activate_following advance_stage split_active
    activate_next update_stage_status update_instance_status recorded_event publish_approved
    publish_tx approved_instance document_event supersede_tx publish_superseding
succeeded = refl

publish_superseding_example :
    IsSuccession
      (an_env "e")
      supersede_request
      two_documents
      (publish_superseding (an_env "e") supersede_request two_documents).1
publish_superseding_example =
    publish_superseding-ok (an_env "e") supersede_request two_documents tt succeeded

abbrev user_cancel : CancelInput
user_cancel = record watchdog_cancel { actor_user_id = eve; bypass_authz = false }

cancelled_id : (cancel_instance (an_env "c1") user_cancel submitted_db).0 ≡ ok "d1"
unfolding row_at perform perform_all submit submit_tx write_submission call fail_if ◌>>=◌ set_config
    pure select run_tx lift or_fail passes fail has_float_value walk_fields compute_content_hash
    load_document_area_code area_or_tenant coalesce_area require is_granted is_doc load_route
    validate insert_instance new_instance write_instances insert_stage_instances stage_instances
    write_stages update_documents trigger_allows at_revision in_state bump write_documents emit
    submitted_event record_signoff record_signoff_tx load_instance find_active sign
    load_prior_signoffs scan_signoffs check_sod new_signoff signoff_params to_lower is_hex is_hash
    insert_signoff insert_or_compare write_signoffs settle load_stage_signoffs stage_outcome
    split_signoffs quorum_denominator compute_effective_denominator evaluate_quorum count_votes
    decide_quorum apply_outcome complete_stage reject_stage finish_approval run_freeze freeze_values
    write_freeze write_final_docx activate_stage activate_following advance_stage split_active
    activate_next update_stage_status update_instance_status recorded_event publish_approved
    publish_tx approved_instance document_event cancel_instance cancel_tx load_area_snapshot
    session_of write_cancel cancel_stages is_open_stage cancelled_event
cancelled_id = refl

cancel_instance-ok_example :
    (inst : Instance) × (inst.document_id ≡ "d1")
    × IsCancellation
        (an_env "c1")
        user_cancel
        submitted_db
        (cancel_instance (an_env "c1") user_cancel submitted_db).1
        inst
cancel_instance-ok_example =
    cancel_instance-ok (an_env "c1") user_cancel submitted_db "d1" cancelled_id
