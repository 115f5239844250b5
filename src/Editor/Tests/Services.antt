-- ===== src/Editor/Tests/Services.antt =====
-- The services of the editor on the tables of the tests.
use metal_docs.Prelude.{ℕ, ◌≡◌, refl, ◌≢◌, true, []}
use metal_docs.Prelude.Result.{ok, err}
use metal_docs.Prelude.Sql
use metal_docs.Prelude.Sql.{
  Env, pure, fail_if, or_fail, query, exec, write, bracket, autocommit, settle, follow,
}
use metal_docs.Editor.Documents.{insert_session, insert_revision, create_document, get_document}
use metal_docs.Editor.Uploads.{
  presign_reserve, reserve_upload, commit_upload, commit_or_replay, commit_fresh, advance_head,
  get_pending_for_commit,
}
use metal_docs.Editor.System.{perform, perform_all, in_transaction, at_once}
use metal_docs.Editor.Service
use metal_docs.Editor.Service.{
  World, done, stop_if, transact, execute, audit, delete_object, get_draft,
}
use metal_docs.Editor.Service.Documents.{finalize, archive}
use metal_docs.Editor.Service.Autosave.{
  Storage, missing, CommitAutosaveCmd, commit_autosave, hashed, check_hash, audit_commit,
}
use metal_docs.Editor.Service.Guards.{IsChecked, commit_autosave-IsChecked, finalize_refused}
use metal_docs.Editor.Tests.{at_time, uploaded, second}

-- A storage that holds the announced object under every key.
abbrev bucket : Storage
bucket = record {
  hash_object = λ key. ok "h2";
  presign_revision_put = λ tenant doc hash. ok ("put", "k2");
  presign_object_get = λ key. err missing;
}

abbrev world : World
world = record { tables = uploaded; trail = []; deleted = [] }

abbrev autosave : CommitAutosaveCmd
autosave = record {
  tenant_id = "acme";
  actor_user_id = "ana";
  document_id = "d1";
  session_id = "s1";
  pending_upload_id = "p1";
  form_data_snapshot = "{1}";
}

abbrev calls : ℕ → Env
calls n = at_time 30 "r2" "" ""

commit_runs : (commit_autosave calls bucket autosave world).0 ≡ ok second
unfolding perform_all perform in_transaction at_once autocommit bracket settle follow Sql.◌>>=◌
    Service.◌>>=◌ pure fail_if or_fail query exec write create_document insert_session
    insert_revision presign_reserve reserve_upload commit_upload commit_or_replay commit_fresh
    advance_head get_pending_for_commit get_document done stop_if transact execute audit
    delete_object get_draft commit_autosave hashed check_hash audit_commit
commit_runs = refl

commit_autosave-IsChecked_example :
    IsChecked calls bucket autosave uploaded second
      (commit_autosave calls bucket autosave world).1.tables
commit_autosave-IsChecked_example =
    commit_autosave-IsChecked calls bucket autosave world commit_runs

finalize_refused_example :
    ((finalize calls "acme" "d1" "ana" world).0 ≢ ok tt)
    × ((archive calls "acme" "d1" "ana" true world).0 ≢ ok tt)
finalize_refused_example = finalize_refused calls "acme" "d1" "ana" true world
