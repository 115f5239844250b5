-- ===== src/Approval/Service/Cancellations.antt =====
-- CancelInstance, when it succeeds (approval/application/cancel_service.go).
use mathlib.Core.Path.{subst, subst⁻¹}
use metal_docs.Prelude.{
  ℕ, ◌≤◌, String, ◌≡◌, refl, sym, ap, ◌∙◌, Bool, true, false, not, ◌&&◌, Option, none, some, List,
  [], ◌∷◌, ◌++◌, arith,
}
use metal_docs.Prelude.Tests.{if◌then◌else◌, ◌==◌}
use metal_docs.Prelude.Text.{str_eq}
use metal_docs.Prelude.Lists.{find_if, count_if, update_where}
use metal_docs.Prelude.Result.{ok}
use metal_docs.Approval.State.{draft, under_review}
use metal_docs.Approval.Instance.{Instance, InstanceStatus, in_progress, StageInstance, StageStatus}
use metal_docs.Approval.Store.Tables.{Db, Document, InstanceRow}
use metal_docs.Approval.Store.Tx.{
  stale_revision, reason_required, instance_completed, not_found, null_area, ◌>>=◌, ◌>>◌, select,
  fail_if, or_fail,
}
use metal_docs.Approval.Store.Repository.{
  instance_status_eq, update_documents, emit, load_instance, write_stages, write_instances,
  update_instance_status,
}
use metal_docs.Approval.Service.{
  Env, call, set_config, require, is_granted, is_doc, at_revision, bump,
}
use metal_docs.Approval.Service.Keeps.{>>=-ok, past_fail_if, same_db}
use metal_docs.Approval.Service.Cancel.{
  CancelInput, load_area_snapshot, session_of, is_open_stage, cancel_stages, cancelled_event,
  write_cancel, cancel_tx, cancel_instance,
}
use metal_docs.Approval.Service.Outcomes.{
  call-ok, or_fail-ok, set_config-ok, run_tx-ok, IsLoaded, load_instance-ok, update_documents-ok,
  require-ok,
}
use metal_docs.Approval.Service.Signed.{require-none}
use metal_docs.Approval.Service.Releases.{emit-ok, pure-ok, positive}

-- The open row of the instance that the input names.
unfoldable pub is_target : CancelInput → InstanceRow → Bool
is_target input r =
    str_eq r.id input.instance_id
    && str_eq r.tenant_id input.tenant_id
    && instance_status_eq r.status in_progress

-- The row of the document, under review and at the revision that the input expects.
unfoldable pub is_reviewed : CancelInput → String → Document → Bool
is_reviewed input document_id =
    at_revision input.tenant_id document_id under_review input.expected_revision_version

-- The tables after a cancellation.
unfoldable pub cancelled_tables : Env → CancelInput → String → Db → Db
cancelled_tables env input document_id db = record db {
  instances =
      update_where (is_target input)
        (λ (r : InstanceRow). record r {
          status = InstanceStatus.cancelled;
          completed_at = some env.now;
        })
        db.instances;
  stages =
      update_where (is_open_stage input.instance_id)
        (λ (s : StageInstance). record s { status = StageStatus.cancelled }) db.stages;
  documents = update_where (is_reviewed input document_id) (bump draft) db.documents;
  events = db.events ++ (cancelled_event input document_id ∷ []);
}

update_instance_status-ok :
    (tenant_id id : String) (new expected : InstanceStatus) (completed_at : Option ℕ) (db : Db)
    {u : Unit {0}} {db' : Db}
    → update_instance_status tenant_id id new expected completed_at db ≡ ok (u, db')
    → db' ≡ record db {
      instances =
          update_where
            (λ (r : InstanceRow).
              str_eq r.id id
              && str_eq r.tenant_id tenant_id
              && instance_status_eq r.status expected)
            (λ (r : InstanceRow). record r { status = new; completed_at = completed_at })
            db.instances;
    }
unfolding update_instance_status select write_instances ◌>>=◌
update_instance_status-ok tenant_id id new expected completed_at db h =
    let hit : InstanceRow → Bool =
      λ r. str_eq r.id id && str_eq r.tenant_id tenant_id && instance_status_eq r.status expected in
    let (_, rest) =
      past_fail_if (count_if hit db.instances == 0) instance_completed
        (λ _. write_instances (
          update_where hit
            (λ (r : InstanceRow). record r { status = new; completed_at = completed_at })
            db.instances))
        db h in
    sym (same_db rest)

cancel_stages-ok :
    (instance_id : String) (db : Db) {u : Unit {0}} {db' : Db}
    → cancel_stages instance_id db ≡ ok (u, db')
    → db' ≡ record db {
      stages =
          update_where
            (is_open_stage instance_id)
            (λ (s : StageInstance). record s { status = StageStatus.cancelled })
            db.stages;
    }
unfolding cancel_stages select write_stages ◌>>=◌
cancel_stages-ok instance_id db h = sym (same_db h)

write_cancel-ok :
    (env : Env) (input : CancelInput) (document_id : String) (db : Db) {id : String} {db' : Db}
    → write_cancel env input document_id db ≡ ok (id, db')
    → (document_id ≡ id)
      × (1 ≤ count_if (is_reviewed input document_id) db.documents)
      × (db' ≡ cancelled_tables env input document_id db)
unfolding write_cancel is_target is_reviewed cancelled_tables
write_cancel-ok env input document_id db h =
    let (_, db1, ended, h1) =
      >>=-ok
        (call env 5 (
          update_instance_status input.tenant_id input.instance_id InstanceStatus.cancelled
            in_progress (some env.now)))
        _ db h in
    let t1 =
      update_instance_status-ok input.tenant_id input.instance_id InstanceStatus.cancelled
        in_progress (some env.now) db (call-ok env 5 _ db ended) in
    let (_, db2, stopped, h2) = >>=-ok (call env 6 (cancel_stages input.instance_id)) _ db1 h1 in
    let t2 = cancel_stages-ok input.instance_id db1 (call-ok env 6 _ db1 stopped) in
    let (n, db3, reverted, h3) =
      >>=-ok
        (call env 7 (
          update_documents (not (str_eq input.instance_id "")) (is_reviewed input document_id)
            (bump draft)))
        _ db2 h2 in
    let t3 =
      update_documents-ok (not (str_eq input.instance_id "")) (is_reviewed input document_id)
        (bump draft) db2 (call-ok env 7 _ db2 reverted) in
    let (some_row, h4) = past_fail_if (n == 0) stale_revision _ db3 h3 in
    let event = cancelled_event input document_id in
    let (_, db4, emitted, h5) = >>=-ok (call env 8 (emit event)) _ db3 h4 in
    let t4 = emit-ok event db3 (call-ok env 8 _ db3 emitted) in
    let (same_id, t5) = pure-ok env 9 document_id db4 h5 in
    let s1 : List StageInstance → List StageInstance =
      update_where (is_open_stage input.instance_id)
        (λ s. record s { status = StageStatus.cancelled }) in
    let s2 : List Document → List Document =
      update_where (is_reviewed input document_id) (bump draft) in
    let at2 = t2 ∙ ap (λ (d : Db). record d { stages = s1 d.stages }) t1 in
    (
      same_id,
      subst (λ (d : Db). 1 ≤ count_if (is_reviewed input document_id) d.documents) at2
          (positive n _ some_row t3.affected),
      sym t5
          ∙ t4
          ∙ ap (λ (d : Db). record d { events = d.events ++ (event ∷ []) }) t3.tables
          ∙ ap
              (λ (d : Db). record d {
                documents = s2 d.documents;
                events = d.events ++ (event ∷ []);
              })
              at2,
    )

-- What a successful cancellation says of the tables before it and after it.
pub record IsCancellation (env : Env) (input : CancelInput) (db db' : Db) (inst : Instance)
    : Type 0 where
  pub has_reason : str_eq input.reason "" ≡ false
  pub loaded : IsLoaded input.tenant_id input.instance_id db inst
  pub unfinished : instance_status_eq inst.status in_progress ≡ true
  pub row : Document
  pub area : String
  pub row_found : find_if (is_doc input.tenant_id inst.document_id) db.documents ≡ some row
  pub row_area : row.area_code_snapshot ≡ some area
  pub by_user : input.bypass_authz ≡ false
  pub granted :
      is_granted env input.tenant_id input.actor_user_id "workflow.instance.cancel" area ≡ true
  pub reviewed : 1 ≤ count_if (is_reviewed input inst.document_id) db.documents
  pub tables : db' ≡ cancelled_tables env input inst.document_id db

load_area_snapshot-ok :
    (tenant_id document_id : String) (db : Db) {a : String} {db' : Db}
    → load_area_snapshot tenant_id document_id db ≡ ok (a, db')
    → (d : Document) × (find_if (is_doc tenant_id document_id) db.documents ≡ some d)
      × (d.area_code_snapshot ≡ some a)
      × (db ≡ db')
unfolding load_area_snapshot select ◌>>=◌
load_area_snapshot-ok tenant_id document_id db h =
    let found = find_if (is_doc tenant_id document_id) db.documents in
    let (d, mid, first, rest) =
      >>=-ok (or_fail found not_found) (λ d. or_fail d.area_code_snapshot null_area) db h in
    let (is_row, e) = or_fail-ok found not_found db first in
    let (is_area, e2) = or_fail-ok d.area_code_snapshot null_area mid rest in
    (d, is_row, is_area, e ∙ e2)

require_session-ok :
    (env : Env) (bypass : Bool) (tenant_id actor capability area_code : String) (db : Db)
    {u : Unit {0}} {db' : Db}
    → require env (if bypass then none else some (tenant_id, actor)) capability area_code db
      ≡ ok (u, db')
    → (bypass ≡ false) × (is_granted env tenant_id actor capability area_code ≡ true) × (db ≡ db')
require_session-ok env true tenant_id actor capability area_code db h =
    absurd (require-none env capability area_code db h)
require_session-ok env false tenant_id actor capability area_code db h =
    let (granted, e) = require-ok env tenant_id actor capability area_code db h in
    (refl, granted, e)

is_true : (b : Bool) → not b ≡ false → b ≡ true
is_true b h = ground arith

cancel_tx-ok :
    (env : Env) (input : CancelInput) (db : Db) {id : String} {db' : Db}
    → str_eq input.reason "" ≡ false
    → cancel_tx env input db ≡ ok (id, db')
    → (inst : Instance) × (inst.document_id ≡ id) × IsCancellation env input db db' inst
unfolding cancel_tx session_of
cancel_tx-ok env input db reason h =
    let (i, db1, load, h1) =
      >>=-ok (call env 1 (load_instance input.tenant_id input.instance_id)) _ db h in
    let (loaded, e1) =
      load_instance-ok input.tenant_id input.instance_id db (call-ok env 1 _ db load) in
    let (is_open, h2) =
      past_fail_if (not (instance_status_eq i.status in_progress)) instance_completed _ db1 h1 in
    let (area, db2, read, h3) =
      >>=-ok (call env 2 (load_area_snapshot input.tenant_id i.document_id)) _ db1 h2 in
    let (d, is_row, is_area, e2) =
      load_area_snapshot-ok input.tenant_id i.document_id db1 (call-ok env 2 _ db1 read) in
    let (_, db3, config, h4) = >>=-ok (set_config env 10) _ db2 h3 in
    let (_, db4, required, h5) =
      >>=-ok (call env 3 (require env (session_of input) "workflow.instance.cancel" area)) _ db3
        h4 in
    let (user, granted, e4) =
      require_session-ok env input.bypass_authz input.tenant_id input.actor_user_id
        "workflow.instance.cancel" area db3 (call-ok env 3 _ db3 required) in
    let (_, db5, announced, h6) = >>=-ok (set_config env 4) _ db4 h5 in
    let (same_id, reviewed, tables) = write_cancel-ok env input i.document_id db5 h6 in
    let before : db ≡ db5 =
      e1 ∙ e2 ∙ set_config-ok env 10 db2 config ∙ e4 ∙ set_config-ok env 4 db4 announced in
    (
      i,
      same_id,
      record {
        has_reason = reason;
        loaded = loaded;
        unfinished = is_true _ is_open;
        row = d;
        area = area;
        row_found =
            subst⁻¹
              (λ (t : Db). find_if (is_doc input.tenant_id i.document_id) t.documents ≡ some d) e1
              is_row;
        row_area = is_area;
        by_user = user;
        granted = granted;
        reviewed =
            subst⁻¹ (λ (t : Db). 1 ≤ count_if (is_reviewed input i.document_id) t.documents) before
              reviewed;
        tables = tables ∙ ap (cancelled_tables env input i.document_id) (sym before);
      },
    )

-- When `CancelInstance` succeeds, a reason is given, the authorization was not bypassed, the instance
-- exists in the tenant and is in progress, the actor is granted `workflow.instance.cancel` in the
-- area of the instance's document, and at least one row of that document is under review at the
-- expected revision. The instance's row is then cancelled, each of its active and pending stages is
-- cancelled, the document is back in draft with the next revision, one event is added, and nothing
-- else is changed.
pub cancel_instance-ok :
    (env : Env) (input : CancelInput) (db : Db) (id : String)
    → (cancel_instance env input db).0 ≡ ok id
    → (inst : Instance) × (inst.document_id ≡ id)
      × IsCancellation env input db (cancel_instance env input db).1 inst
unfolding cancel_instance
cancel_instance-ok env input db id h =
    let empty = str_eq input.reason "" in
    let (db', run, after) =
      run_tx-ok (fail_if empty reason_required >> call env 0 (cancel_tx env input)) db h in
    let (given, rest) =
      past_fail_if empty reason_required (λ _. call env 0 (cancel_tx env input)) db run in
    let (inst, same, is) =
      cancel_tx-ok env input db given (call-ok env 0 (cancel_tx env input) db rest) in
    (inst, same, subst⁻¹ (λ d. IsCancellation env input db d inst) after is)
