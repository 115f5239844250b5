-- ===== src/Approval/Service/Successions.antt =====
-- PublishSuperseding, when it succeeds (approval/application/supersede_service.go).
use mathlib.Core.Path.{subst, subst⁻¹}
use metal_docs.Prelude.{◌≤◌, ◌≡◌, sym, ap, ◌∙◌, Bool, true, false, some, List, [], ◌∷◌, ◌++◌}
use metal_docs.Prelude.Tests.{◌==◌}
use metal_docs.Prelude.Lists.{find_if, count_if, update_where}
use metal_docs.Prelude.Result.{ok}
use metal_docs.Approval.State.{approved, published, superseded}
use metal_docs.Approval.Store.Tables.{Db, Document}
use metal_docs.Approval.Store.Tx.{stale_revision}
use metal_docs.Approval.Store.Repository.{update_documents, emit}
use metal_docs.Approval.Service.{
  Env, call, set_config, require, is_granted, load_document_area_code, area_or_tenant, is_doc,
  at_revision, bump,
}
use metal_docs.Approval.Service.Keeps.{>>=-ok, past_fail_if}
use metal_docs.Approval.Service.Publish.{document_event}
use metal_docs.Approval.Service.Retire.{SupersedeRequest, supersede_tx, publish_superseding}
use metal_docs.Approval.Service.Outcomes.{
  call-ok, set_config-ok, run_tx-ok, update_documents-ok, require-ok,
}
use metal_docs.Approval.Service.Releases.{area-ok, emit-ok, pure-ok, positive}

-- The rows of the new document, and of the prior one, that the request names.
unfoldable pub is_new : SupersedeRequest → Document → Bool
is_new req = at_revision req.tenant_id req.new_document_id approved req.new_revision_version

unfoldable pub is_prior_version : SupersedeRequest → Document → Bool
is_prior_version req =
    at_revision req.tenant_id req.prior_document_id published req.prior_revision_version

-- The documents after the first update.
unfoldable pub with_new : SupersedeRequest → List Document → List Document
with_new req docs = update_where (is_new req) (bump published) docs

-- What a successful call says of the tables before it and after it.
pub record IsSuccession (env : Env) (req : SupersedeRequest) (db db' : Db) : Type 0 where
  pub granted :
      is_granted env req.tenant_id req.superseded_by "doc.supersede"
        (area_or_tenant (find_if (is_doc req.tenant_id req.new_document_id) db.documents))
      ≡ true
  pub new_row : 1 ≤ count_if (is_new req) db.documents
  pub prior_row : 1 ≤ count_if (is_prior_version req) (with_new req db.documents)
  pub tables : db' ≡ record db {
    documents = update_where (is_prior_version req) (bump superseded) (with_new req db.documents);
    events =
        db.events
        ++ (document_event "document_superseded" req.tenant_id req.superseded_by req.new_document_id
            ∷ []);
  }

supersede_tx-ok :
    (env : Env) (req : SupersedeRequest) (db : Db) {u : Unit {0}} {db' : Db}
    → supersede_tx env req db ≡ ok (u, db')
    → IsSuccession env req db db'
unfolding supersede_tx is_new is_prior_version with_new
supersede_tx-ok env req db h =
    let (_, db1, config, h1) = >>=-ok (set_config env 1) _ db h in
    let (area, db2, read, h2) =
      >>=-ok (call env 2 (load_document_area_code req.tenant_id req.new_document_id)) _ db1 h1 in
    let (is_area, e2) = area-ok req.tenant_id req.new_document_id db1 (call-ok env 2 _ db1 read) in
    let (_, db3, required, h3) =
      >>=-ok
        (call env 3 (require env (some (req.tenant_id, req.superseded_by)) "doc.supersede" area)) _
        db2 h2 in
    let (granted, e3) =
      require-ok env req.tenant_id req.superseded_by "doc.supersede" area db2
        (call-ok env 3 _ db2 required) in
    let (n, db4, publish, h4) =
      >>=-ok (call env 4 (update_documents false (is_new req) (bump published))) _ db3 h3 in
    let first =
      update_documents-ok false (is_new req) (bump published) db3 (call-ok env 4 _ db3 publish) in
    let (some_new, h5) = past_fail_if (n == 0) stale_revision _ db4 h4 in
    let (m, db5, retire, h6) =
      >>=-ok (call env 5 (update_documents false (is_prior_version req) (bump superseded))) _ db4
        h5 in
    let second =
      update_documents-ok false (is_prior_version req) (bump superseded) db4
        (call-ok env 5 _ db4 retire) in
    let (some_prior, h7) = past_fail_if (m == 0) stale_revision _ db5 h6 in
    let event =
      document_event "document_superseded" req.tenant_id req.superseded_by req.new_document_id in
    let (_, db6, emitted, h8) = >>=-ok (call env 6 (emit event)) _ db5 h7 in
    let tables = emit-ok event db5 (call-ok env 6 _ db5 emitted) in
    let (_, e8) = pure-ok env 7 tt db6 h8 in
    let e1 = set_config-ok env 1 db config in
    let before : db ≡ db3 = e1 ∙ e2 ∙ e3 in
    let after_first : db4 ≡ record db { documents = with_new req db.documents } =
      first.tables
      ∙ ap (λ (d : Db). record d { documents = with_new req d.documents }) (sym before) in
    record {
      granted =
          subst⁻¹
            (λ (d : Db).
              is_granted env req.tenant_id req.superseded_by "doc.supersede"
                (area_or_tenant (find_if (is_doc req.tenant_id req.new_document_id) d.documents))
              ≡ true)
            e1
            (subst (λ a. is_granted env req.tenant_id req.superseded_by "doc.supersede" a ≡ true)
              is_area granted);
      new_row =
          subst⁻¹ (λ (d : Db). 1 ≤ count_if (is_new req) d.documents) before
            (positive n _ some_new first.affected);
      prior_row =
          subst (λ (d : Db). 1 ≤ count_if (is_prior_version req) d.documents) after_first
            (positive m _ some_prior second.affected);
      tables =
          sym e8
          ∙ tables
          ∙ ap (λ (d : Db). record d { events = d.events ++ (event ∷ []) }) second.tables
          ∙ ap
              (λ (d : Db). record d {
                documents = update_where (is_prior_version req) (bump superseded) d.documents;
                events = d.events ++ (event ∷ []);
              })
              after_first;
    }

-- When `PublishSuperseding` succeeds, the actor is granted `doc.supersede` in the area of the new
-- document, at least one row was the new document, approved and at the revision asked for, and then
-- at least one was the prior document, published and at its revision. Both updates are in the
-- tables together: the new document is published, the prior one superseded, each with the next
-- revision, one event `document_superseded` is added, and nothing else is changed.
pub publish_superseding-ok :
    (env : Env) (req : SupersedeRequest) (db : Db) (u : Unit {0})
    → (publish_superseding env req db).0 ≡ ok u
    → IsSuccession env req db (publish_superseding env req db).1
unfolding publish_superseding
publish_superseding-ok env req db u h =
    let (db', run, after) = run_tx-ok (call env 0 (supersede_tx env req)) db h in
    subst⁻¹ (λ d. IsSuccession env req db d) after
      (supersede_tx-ok env req db (call-ok env 0 (supersede_tx env req) db run))
