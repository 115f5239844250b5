-- ===== src/Approval/Service/Signed.antt =====
-- Who can sign with RecordSignoff, and CancelInstance with BypassAuthz
-- (approval/application/decision_service.go and cancel_service.go).
use mathlib.Core.Path.{subst, subst⁻¹}
use metal_docs.Prelude.{
  ℕ, String, ◌≡◌, ◌≢◌, refl, sym, ◌∙◌, Bool, true, false, not, ◌&&◌, Option, none, some, List,
  arith,
}
use metal_docs.Prelude.Tests.{if◌then◌else◌}
use metal_docs.Prelude.Lists.{find_if}
use metal_docs.Prelude.Result.{Result, ok, err}
use metal_docs.Prelude.Text.{str_eq}
use metal_docs.Approval.Instance.{Instance, in_progress}
use metal_docs.Approval.Store.Tables.{Db}
use metal_docs.Approval.Store.Tx.{Tx, ◌>>=◌, ServiceError, ◌>>◌, fail, fail_if, or_fail}
use metal_docs.Approval.Store.Repository.{instance_status_eq, load_instance}
use metal_docs.Approval.Service.{
  Env, call, set_config, require, is_granted, load_document_area_code, area_or_tenant, is_doc,
}
use metal_docs.Approval.Service.Keeps.{>>=-ok, past_fail_if, same_db}
use metal_docs.Prelude.Int.{pos}
use metal_docs.Approval.Signoff.{check_sod}
use metal_docs.Approval.Signoff.Duties.{check_sod_iff}
use metal_docs.Approval.Instance.{StageInstance, find_active, no_active_stage}
use metal_docs.Approval.Store.Tx.{
  passes, duty, domain, reason_required, instance_completed, stage_not_active, float_in_payload,
  lift,
}
use metal_docs.Approval.Store.Signing.{load_prior_signoffs}
use metal_docs.Approval.Payload.{has_float_value}
use metal_docs.Approval.Service.{compute_content_hash}
use metal_docs.Approval.Service.Cancel.{
  CancelInput, load_area_snapshot, session_of, cancel_tx, cancel_instance,
}
use metal_docs.Approval.Service.Decide.{
  SignoffRequest, SignoffResult, sign, record_signoff_tx, record_signoff,
}
use metal_docs.Approval.Service.Outcomes.{
  call-ok, or_fail-ok, set_config-ok, run_tx-ok, IsLoaded, load_instance-ok, require-ok,
}
use metal_docs.Approval.Service.Releases.{area-ok}

pub require-none :
    (env : Env) (capability area_code : String) (db : Db) {u : Unit {0}} {db' : Db}
    → require env none capability area_code db ≢ ok (u, db')
unfolding require fail
require-none env capability area_code db h = cc

cancel_tx_refused :
    (env : Env) (input : CancelInput) (db : Db) {id : String} {db' : Db}
    → input.bypass_authz ≡ true
    → cancel_tx env input db ≢ ok (id, db')
unfolding cancel_tx session_of
cancel_tx_refused env input db bypass h =
    let (i, db1, _, h1) =
      >>=-ok (call env 1 (load_instance input.tenant_id input.instance_id)) _ db h in
    let (_, h2) =
      past_fail_if (not (instance_status_eq i.status in_progress)) instance_completed _ db1 h1 in
    let (area, db2, _, h3) =
      >>=-ok (call env 2 (load_area_snapshot input.tenant_id i.document_id)) _ db1 h2 in
    let (_, db3, _, h4) = >>=-ok (set_config env 10) _ db2 h3 in
    let (_, db4, required, _) =
      >>=-ok (call env 3 (require env (session_of input) "workflow.instance.cancel" area)) _ db3
        h4 in
    require-none env "workflow.instance.cancel" area db3 (
      subst
        (λ b.
          require env (if b then none else some (input.tenant_id, input.actor_user_id))
            "workflow.instance.cancel" area db3
          ≡ ok (_, db4))
        bypass (call-ok env 3 _ db3 required))

-- `CancelInstance` never succeeds with `BypassAuthz`: the bypass sets neither the tenant nor the
-- actor of the transaction, and `Require` reads both whatever the bypass says.
pub cancel_instance_refused :
    (env : Env) (input : CancelInput) (db : Db) (id : String)
    → input.bypass_authz ≡ true
    → (cancel_instance env input db).0 ≢ ok id
unfolding cancel_instance
cancel_instance_refused env input db id bypass h =
    let empty = str_eq input.reason "" in
    let (db', run, _) =
      run_tx-ok (fail_if empty reason_required >> call env 0 (cancel_tx env input)) db h in
    let (_, rest) =
      past_fail_if empty reason_required (λ _. call env 0 (cancel_tx env input)) db run in
    cancel_tx_refused env input db bypass (call-ok env 0 (cancel_tx env input) db rest)

-- What a recorded signoff says of the tables before it.
pub record MaySign (env : Env) (req : SignoffRequest) (db : Db) (inst : Instance) : Type 0 where
  pub loaded : IsLoaded req.tenant_id req.instance_id db inst
  pub unfinished : instance_status_eq inst.status in_progress ≡ true
  pub granted :
      is_granted env req.tenant_id req.actor_user_id "doc.signoff"
        (area_or_tenant (find_if (is_doc req.tenant_id inst.document_id) db.documents))
      ≡ true
  pub has_stage : find_active inst.stages ≢ none
  pub not_author : req.actor_user_id ≢ inst.submitted_by

passes-ok :
    {E : Type 0} (o : Option E) (wrap : E → ServiceError) (db : Db) {u : Unit {0}} {db' : Db}
    → passes o wrap db ≡ ok (u, db')
    → o ≡ none
unfolding passes
passes-ok none wrap db h = refl
passes-ok (some e) wrap db h = cc

sign-not_author :
    (env : Env) (req : SignoffRequest) (hash : List ℕ) (inst : Instance) (stage : StageInstance)
    (db : Db) {r : SignoffResult} {db' : Db}
    → sign env req hash inst stage db ≡ ok (r, db')
    → req.actor_user_id ≢ inst.submitted_by
unfolding sign
sign-not_author env req hash inst stage db h =
    let (prior, db1, _, h1) =
      >>=-ok (call env 5 (load_prior_signoffs req.tenant_id req.instance_id stage.id)) _ db h in
    let (_, _, passed, _) =
      >>=-ok (passes (check_sod inst.submitted_by req.actor_user_id prior) duty) _ db1 h1 in
    ((check_sod_iff inst.submitted_by req.actor_user_id prior).0 (passes-ok _ duty db1 passed)).0

lift-same :
    {A : Type 0} (r : Result ServiceError A) (db : Db) {a : A} {db' : Db}
    → lift (λ e. e) r db ≡ ok (a, db')
    → db ≡ db'
unfolding lift
lift-same (ok a) db h = same_db h
lift-same (err e) db h = cc

holds : (b : Bool) → not b ≡ false → b ≡ true
holds b h = ground arith

none_is_some : {A : Type 0} {a : A} → ◌≡◌ {A = Option A} none (some a) → ⊥
none_is_some h = cc

record_signoff_tx-ok :
    (env : Env) (req : SignoffRequest) (hash : List ℕ) (db : Db) {r : SignoffResult} {db' : Db}
    → record_signoff_tx env req hash db ≡ ok (r, db')
    → (inst : Instance) × MaySign env req db inst
unfolding record_signoff_tx
record_signoff_tx-ok env req hash db h =
    let (_, db1, config, h2) = >>=-ok (set_config env 1) _ db h in
    let (i, db2, load, h3) =
      >>=-ok (call env 2 (load_instance req.tenant_id req.instance_id)) _ db1 h2 in
    let (loaded, e2) =
      load_instance-ok req.tenant_id req.instance_id db1 (call-ok env 2 _ db1 load) in
    let (is_open, h4) =
      past_fail_if (not (instance_status_eq i.status in_progress)) instance_completed _ db2 h3 in
    let (area, db3, read, h5) =
      >>=-ok (call env 3 (load_document_area_code req.tenant_id i.document_id)) _ db2 h4 in
    let (is_area, _) = area-ok req.tenant_id i.document_id db2 (call-ok env 3 _ db2 read) in
    let (_, db4, required, h6) =
      >>=-ok (call env 4 (require env (some (req.tenant_id, req.actor_user_id)) "doc.signoff" area))
        _ db3 h5 in
    let (granted, _) =
      require-ok env req.tenant_id req.actor_user_id "doc.signoff" area db3
        (call-ok env 4 _ db3 required) in
    let (stage, db5, chosen, h7) =
      >>=-ok (or_fail (find_active i.stages) (domain no_active_stage)) _ db4 h6 in
    let (is_stage, _) = or_fail-ok (find_active i.stages) (domain no_active_stage) db4 chosen in
    let wrong =
      not (str_eq req.stage_instance_id "") && not (str_eq stage.id req.stage_instance_id) in
    let (_, h8) = past_fail_if wrong stage_not_active _ db5 h7 in
    let e1 = set_config-ok env 1 db config in
    (
      i,
      record {
        loaded = subst⁻¹ (λ d. IsLoaded req.tenant_id req.instance_id d i) e1 loaded;
        unfinished = holds _ is_open;
        granted =
            subst⁻¹
              (λ (d : Db).
                is_granted env req.tenant_id req.actor_user_id "doc.signoff"
                  (area_or_tenant (find_if (is_doc req.tenant_id i.document_id) d.documents))
                ≡ true)
              (e1 ∙ e2)
              (subst (λ a. is_granted env req.tenant_id req.actor_user_id "doc.signoff" a ≡ true)
                is_area granted);
        has_stage = λ none_left. none_is_some (sym none_left ∙ is_stage);
        not_author = sign-not_author env req hash i stage db5 h8;
      },
    )

-- When `RecordSignoff` succeeds, also as a replay, the instance named in the request exists in the
-- tenant, is in progress and has an active stage, the actor is granted `doc.signoff` in the area of
-- its document, and the actor is not the one who submitted it.
pub record_signoff-MaySign :
    (env : Env) (req : SignoffRequest) (db : Db) (r : SignoffResult)
    → (record_signoff env req db).0 ≡ ok r
    → (inst : Instance) × MaySign env req db inst
unfolding record_signoff
record_signoff-MaySign env req db r h =
    let hashed =
      compute_content_hash env req.tenant_id req.instance_id (pos 0) req.content_form_data in
    let rest : List ℕ → Tx SignoffResult = λ hash. call env 0 (record_signoff_tx env req hash) in
    let floats = has_float_value req.signature_payload in
    let (_, run, _) =
      run_tx-ok (fail_if floats float_in_payload >> (lift (λ e. e) hashed >>= rest)) db h in
    let (_, h0) =
      past_fail_if floats float_in_payload (λ _. lift (λ e. e) hashed >>= rest) db run in
    let (hash, mid, lifted, h1) = >>=-ok (lift (λ e. e) hashed) rest db h0 in
    let (inst, may) =
      record_signoff_tx-ok env req hash mid
        (call-ok env 0 (record_signoff_tx env req hash) mid h1) in
    (inst, subst⁻¹ (λ d. MaySign env req d inst) (lift-same hashed db lifted) may)
