-- ===== src/Approval/Service/Releases.antt =====
-- PublishApproved, when it succeeds (approval/application/publish_service.go).
use mathlib.Core.Path.{subst, subst⁻¹}
use metal_docs.Prelude.{
  ℕ, ◌≤◌, String, ◌≡◌, sym, ap, ◌∙◌, true, false, not, some, [], ◌∷◌, ◌++◌, arith,
}
use metal_docs.Prelude.Tests.{◌==◌}
use metal_docs.Prelude.Lists.{find_if, count_if, update_where}
use metal_docs.Prelude.Result.{ok, ok-injective}
use metal_docs.Approval.State.{approved, published}
use metal_docs.Approval.Instance.{Instance, InstanceStatus}
use metal_docs.Approval.Store.Tables.{Db}
use metal_docs.Approval.Store.Tx.{instance_not_approved, stale_revision, pure, select}
use metal_docs.Approval.Store.Repository.{instance_status_eq, update_documents, load_instance, emit}
use metal_docs.Approval.Service.{
  Env, call, set_config, require, is_granted, load_document_area_code, area_or_tenant, is_doc,
  in_state, bump,
}
use metal_docs.Approval.Service.Keeps.{>>=-ok, past_fail_if, same_db}
use metal_docs.Approval.Store.Tables.{GovernanceEvent}
use metal_docs.Approval.Service.Publish.{
  PublishRequest, document_event, approved_instance, publish_tx, publish_approved,
}
use metal_docs.Approval.Service.Outcomes.{
  call-ok, set_config-ok, run_tx-ok, IsLoaded, load_instance-ok, update_documents-ok, require-ok,
}

-- The instance that a publication acts on: it is loaded and approved, and the actor has the
-- capability for the area of its document.
pub record IsReleasable (env : Env) (tenant_id instance_id actor : String) (db : Db)
    (inst : Instance) : Type 0 where
  pub loaded : IsLoaded tenant_id instance_id db inst
  pub is_approved : instance_status_eq inst.status InstanceStatus.approved ≡ true
  pub granted :
      is_granted env tenant_id actor "doc.publish"
        (area_or_tenant (find_if (is_doc tenant_id inst.document_id) db.documents))
      ≡ true

pub area-ok :
    (tenant_id document_id : String) (db : Db) {a : String} {db' : Db}
    → load_document_area_code tenant_id document_id db ≡ ok (a, db')
    → (a ≡ area_or_tenant (find_if (is_doc tenant_id document_id) db.documents)) × (db ≡ db')
unfolding load_document_area_code select
area-ok tenant_id document_id db h = (ap (λ p. p.0) (sym (ok-injective h)), same_db h)

pub approved_instance-ok :
    (env : Env) (tenant_id instance_id actor : String) (db : Db) {inst : Instance} {db' : Db}
    → approved_instance env tenant_id instance_id actor db ≡ ok (inst, db')
    → IsReleasable env tenant_id instance_id actor db inst × (db ≡ db')
unfolding approved_instance pure
approved_instance-ok env tenant_id instance_id actor db h =
    let (i, db1, load, h1) = >>=-ok (call env 1 (load_instance tenant_id instance_id)) _ db h in
    let (loaded, e1) = load_instance-ok tenant_id instance_id db (call-ok env 1 _ db load) in
    let (approved_status, h2) =
      past_fail_if (not (instance_status_eq i.status InstanceStatus.approved)) instance_not_approved
        _ db1 h1 in
    let (_, db2, config, h3) = >>=-ok (set_config env 7) _ db1 h2 in
    let (area, db3, read, h4) =
      >>=-ok (call env 2 (load_document_area_code tenant_id i.document_id)) _ db2 h3 in
    let (is_area, e3) = area-ok tenant_id i.document_id db2 (call-ok env 2 _ db2 read) in
    let (_, db4, required, h5) =
      >>=-ok (call env 3 (require env (some (tenant_id, actor)) "doc.publish" area)) _ db3 h4 in
    let (granted, e4) =
      require-ok env tenant_id actor "doc.publish" area db3 (call-ok env 3 _ db3 required) in
    let same_inst = ap (λ p. p.0) (ok-injective h5) in
    let e2 = e1 ∙ set_config-ok env 7 db1 config in
    (
      subst (IsReleasable env tenant_id instance_id actor db) same_inst (record {
        loaded = loaded;
        is_approved = ground (arith, approved_status);
        granted =
            subst⁻¹
              (λ (d : Db).
                is_granted env tenant_id actor "doc.publish"
                  (area_or_tenant (find_if (is_doc tenant_id i.document_id) d.documents))
                ≡ true)
              e2
              (subst (λ a. is_granted env tenant_id actor "doc.publish" a ≡ true) is_area granted);
      }),
      e2 ∙ e3 ∙ e4 ∙ same_db h5,
    )

-- The tables after a publication: the approved rows of the document are published, and one event is
-- added.
pub record IsPublication (req : PublishRequest) (db db' : Db) (inst : Instance) : Type 0 where
  pub any_row : 1 ≤ count_if (in_state req.tenant_id inst.document_id approved) db.documents
  pub tables : db' ≡ record db {
    documents =
        update_where
          (in_state req.tenant_id inst.document_id approved)
          (bump published)
          db.documents;
    events =
        db.events
        ++ (document_event "document_published" req.tenant_id req.published_by inst.document_id
            ∷ []);
  }

pub emit-ok :
    (event : GovernanceEvent) (db : Db) {u : Unit {0}} {db' : Db}
    → emit event db ≡ ok (u, db')
    → db' ≡ record db { events = db.events ++ (event ∷ []) }
unfolding emit
emit-ok event db h = sym (same_db h)

pure_run :
    {A : Type 0} (a : A) (db : Db) {b : A} {db' : Db}
    → pure a db ≡ ok (b, db')
    → (a ≡ b) × (db ≡ db')
unfolding pure
pure_run a db h = (ap (λ p. p.0) (ok-injective h), same_db h)

pub pure-ok :
    {A : Type 0} (env : Env) (k : ℕ) (a : A) (db : Db) {b : A} {db' : Db}
    → call env k (pure a) db ≡ ok (b, db')
    → (a ≡ b) × (db ≡ db')
pure-ok env k a db h = pure_run a db (call-ok env k (pure a) db h)

pub positive : (n m : ℕ) → (n == 0) ≡ false → n ≡ m → 1 ≤ m
positive n m h e = ground (arith, h, e)

publish_tx-ok :
    (env : Env) (req : PublishRequest) (db : Db) {id : String} {db' : Db}
    → publish_tx env req db ≡ ok (id, db')
    → (inst : Instance) × (inst.document_id ≡ id)
      × IsReleasable env req.tenant_id req.instance_id req.published_by db inst
      × IsPublication req db db' inst
unfolding publish_tx
publish_tx-ok env req db h =
    let (i, db1, start, h1) =
      >>=-ok (approved_instance env req.tenant_id req.instance_id req.published_by) _ db h in
    let (releasable, e1) =
      approved_instance-ok env req.tenant_id req.instance_id req.published_by db start in
    let hit = in_state req.tenant_id i.document_id approved in
    let (n, db2, update, h2) =
      >>=-ok (call env 4 (update_documents false hit (bump published))) _ db1 h1 in
    let updated = update_documents-ok false hit (bump published) db1 (call-ok env 4 _ db1 update) in
    let (some_row, h3) = past_fail_if (n == 0) stale_revision _ db2 h2 in
    let event = document_event "document_published" req.tenant_id req.published_by i.document_id in
    let (_, db3, emitted, h4) = >>=-ok (call env 5 (emit event)) _ db2 h3 in
    let tables = emit-ok event db2 (call-ok env 5 _ db2 emitted) in
    let (same_id, e4) = pure-ok env 6 i.document_id db3 h4 in
    (
      i,
      same_id,
      releasable,
      record {
        any_row =
            subst⁻¹ (λ (d : Db). 1 ≤ count_if hit d.documents) e1
              (positive n _ some_row updated.affected);
        tables =
            sym e4
            ∙ tables
            ∙ ap (λ (d : Db). record d { events = d.events ++ (event ∷ []) }) updated.tables
            ∙ ap
                (λ (d : Db). record d {
                  documents = update_where hit (bump published) d.documents;
                  events = d.events ++ (event ∷ []);
                })
                (sym e1);
      },
    )

-- When `PublishApproved` succeeds, the instance named in the request exists in the tenant and is
-- approved, the actor is granted `doc.publish` in the area of the instance's document, at least one
-- row of that document was approved, and the tables differ from those before in two things only:
-- the approved rows of the document are published with the next revision, and one event
-- `document_published` is added. The result is the identifier of that document.
pub publish_approved-ok :
    (env : Env) (req : PublishRequest) (db : Db) (id : String)
    → (publish_approved env req db).0 ≡ ok id
    → (inst : Instance) × (inst.document_id ≡ id)
      × IsReleasable env req.tenant_id req.instance_id req.published_by db inst
      × IsPublication req db (publish_approved env req db).1 inst
unfolding publish_approved
publish_approved-ok env req db id h =
    let (db', run, after) = run_tx-ok (call env 0 (publish_tx env req)) db h in
    let (inst, same, releasable, publication) = publish_tx-ok env req db (call-ok env 0 _ db run) in
    (inst, same, releasable, subst⁻¹ (λ d. IsPublication req db d inst) after publication)
