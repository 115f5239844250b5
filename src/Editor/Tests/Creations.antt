-- ===== src/Editor/Tests/Creations.antt =====
-- The creation of a document by the editor's service, with a renderer.
use metal_docs.Prelude.{ℕ, ◌≡◌, refl, none, some, true, []}
use metal_docs.Prelude.Int.{pos}
use metal_docs.Prelude.Result.{ok}
use metal_docs.Prelude.Sql
use metal_docs.Prelude.Sql.{
  Env, pure, fail_if, or_fail, query, exec, write, bracket, autocommit, settle, follow,
}
use metal_docs.Registry.{ControlledDocument, active, resolve}
use metal_docs.Editor.Documents.{
  insert_session, insert_revision, create_document, set_revision_storage_key,
}
use metal_docs.Editor.Uploads.{presign_reserve, reserve_upload}
use metal_docs.Editor.System.{perform, perform_all, in_transaction, at_once}
use metal_docs.Editor.Service
use metal_docs.Editor.Service.{World, done, stop_if, transact, execute, audit}
use metal_docs.Editor.Service.Create.{
  Wiring, CreateDocumentInput, CreateDocumentResult, configured, foreign, resolved, check_form,
  cleaned, cleaning_up, take_snapshot, finish_create, create_revision, create_for_registry,
}
use metal_docs.Editor.Service.Creations.{IsAllowed, create_for_registry-IsAllowed}
use metal_docs.Editor.Tests.{at_time, uploaded}

abbrev procedure : ControlledDocument
procedure = record {
  id = "cd";
  tenant_id = "acme";
  profile_code = "po";
  process_area_code = "qa";
  department_code = none;
  code = "PO-01";
  sequence_num = some (pos 1);
  title = "Purchasing";
  owner_user_id = "ana";
  override_template_version_id = none;
  status = active;
  created_at = 0;
  updated_at = 0;
}

abbrev wiring : Wiring
wiring = record {
  registry = some (λ tenant id. ok procedure);
  authz = some (λ user tenant area. ok tt);
  profile_templates = some (λ tenant profile. ok (some "tv", some "published"));
  published_version =
      λ tenant id. ok (record { docx_key = "t.docx"; schema_key = "t.json"; schema_json = "{}" });
  validate_form = λ schema form. ok true;
  docgen = some (λ docx schema output form. ok "h9");
  adopt_temp_object = λ tmp final. ok tt;
  snapshot = none;
  duplicator = none;
  sha256_hex = λ text. text;
  new_uuid = "u1";
}

abbrev input : CreateDocumentInput
input = record {
  tenant_id = "acme";
  actor_user_id = "ana";
  controlled_document_id = "cd";
  template_version_id = "";
  name = "purchasing";
  form_data = "{}";
}

abbrev world : World
world = record { tables = uploaded; trail = []; deleted = [] }

abbrev calls : ℕ → Env
calls n = at_time 40 "d2" "s2" "r9"

abbrev created : CreateDocumentResult
created = record { document_id = "d2"; initial_revision_id = "r9"; session_id = "s2" }

create_runs : (create_for_registry calls wiring input world).0 ≡ ok created
unfolding perform_all perform in_transaction at_once autocommit bracket settle follow Sql.◌>>=◌
    Service.◌>>=◌ pure fail_if or_fail query exec write create_document insert_session
    insert_revision set_revision_storage_key presign_reserve reserve_upload done stop_if transact
    execute audit configured foreign resolved check_form cleaned cleaning_up take_snapshot
    finish_create create_revision create_for_registry resolve
create_runs = refl

create_for_registry-IsAllowed_example :
    IsAllowed calls wiring input uploaded created
      (create_for_registry calls wiring input world).1.tables
create_for_registry-IsAllowed_example =
    create_for_registry-IsAllowed calls wiring input world create_runs
