-- ===== src/Approval/Service/Schedules.antt =====
-- SchedulePublish and the revision that it asks for (approval/application/publish_service.go).
use mathlib.Core.Path.{subst, subst⁻¹}
use metal_docs.Prelude.{◌≤◌, String, ◌≡◌, ◌≢◌, refl, ap, false, not, ◌&&◌, List, [], ◌∷◌, arith}
use metal_docs.Prelude.Tests.{◌==◌}
use metal_docs.Prelude.Lists.{All, count_if}
use metal_docs.Prelude.Result.{ok}
use metal_docs.Approval.State.{approved}
use metal_docs.Approval.Instance.{Instance}
use metal_docs.Approval.Store.Tables.{Document, Db}
use metal_docs.Approval.Store.Tx.{stale_revision, ◌>>◌, fail_if}
use metal_docs.Approval.Store.Repository.{update_documents}
use metal_docs.Approval.Service.{Env, call, is_doc, in_state}
use metal_docs.Approval.Service.Keeps.{>>=-ok, past_fail_if}
use metal_docs.Prelude.Int.{pos}
use metal_docs.Prelude.Tests.{ltb}
use metal_docs.Approval.State.{state_eq}
use metal_docs.Approval.Store.Tx.{effective_date_in_past}
use metal_docs.Approval.Service.{at_revision}
use metal_docs.Approval.Service.Publish.{
  SchedulePublishRequest, approved_instance, schedule_at, schedule_tx, schedule_publish,
}
use metal_docs.Approval.Service.Outcomes.{call-ok, run_tx-ok, update_documents-ok}
use metal_docs.Approval.Service.Releases.{approved_instance-ok, positive}

-- No row of the table is approved at revision 0.
unfoldable pub AreRevised : List Document → Type 0
AreRevised docs =
    All (λ (d : Document). (state_eq d.status approved && (d.revision_version == 0)) ≡ false) docs

none_at_zero :
    (tenant_id document_id : String) (docs : List Document)
    → AreRevised docs
    → count_if (at_revision tenant_id document_id approved (pos 0)) docs ≡ 0
unfolding AreRevised at_revision in_state is_doc
none_at_zero tenant_id document_id [] h = refl
none_at_zero tenant_id document_id (d ∷ docs) h =
    ground (arith, none_at_zero tenant_id document_id docs h.1, h.0)

schedule_tx-refused :
    (env : Env) (req : SchedulePublishRequest) (db : Db) {id : String} {db' : Db}
    → AreRevised db.documents
    → schedule_tx env req db ≢ ok (id, db')
unfolding schedule_tx
schedule_tx-refused env req db revised h =
    let (i, db1, start, h1) =
      >>=-ok (approved_instance env req.tenant_id req.instance_id req.scheduled_by) _ db h in
    let (releasable, e1) =
      approved_instance-ok env req.tenant_id req.instance_id req.scheduled_by db start in
    let hit = at_revision req.tenant_id i.document_id approved (pos i.revision_version) in
    let (n, db2, update, h2) =
      >>=-ok (call env 4 (update_documents false hit (schedule_at req.effective_date))) _ db1 h1 in
    let updated =
      update_documents-ok false hit (schedule_at req.effective_date) db1
        (call-ok env 4 _ db1 update) in
    let (some_row, h3) = past_fail_if (n == 0) stale_revision _ db2 h2 in
    let at_least = positive n _ some_row updated.affected in
    let zero_revision = ap (λ (x : Instance). x.revision_version) releasable.loaded.built in
    let none_hit = none_at_zero req.tenant_id i.document_id db.documents revised in
    absurd (
      omega (
        arith,
        subst⁻¹
            (λ (d : Db).
              1 ≤ count_if (at_revision req.tenant_id i.document_id approved (pos 0)) d.documents)
            e1
            (subst
              (λ r.
                1
                ≤ count_if (at_revision req.tenant_id i.document_id approved (pos r)) db1.documents)
              zero_revision at_least),
        none_hit,
      ))

-- As long as no document is approved at revision 0, `SchedulePublish` never succeeds, since it asks
-- for the revision of the loaded instance, which `LoadInstance` does not read.
pub schedule_publish_refused :
    (env : Env) (req : SchedulePublishRequest) (db : Db) (id : String)
    → AreRevised db.documents
    → (schedule_publish env req db).0 ≢ ok id
unfolding schedule_publish
schedule_publish_refused env req db id revised h =
    let early = not (ltb env.now req.effective_date) in
    let (db', run, _) =
      run_tx-ok (fail_if early effective_date_in_past >> call env 0 (schedule_tx env req)) db h in
    let (_, rest) =
      past_fail_if early effective_date_in_past (λ _. call env 0 (schedule_tx env req)) db run in
    schedule_tx-refused env req db revised (call-ok env 0 (schedule_tx env req) db rest)
