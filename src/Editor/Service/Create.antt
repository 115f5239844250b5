-- ===== src/Editor/Service/Create.antt =====
-- The creation of a document for a controlled document (documents_v2/application/service.go:
-- CreateDocument and DuplicateDocument). The registry, the authorization, the templates, the form
-- validator, the renderer, the object storage and the snapshot service are parameters.
use metal_docs.Prelude.{ℕ, String, Bool, not, Option, none, some, [], ◌∷◌, ◌++◌}
use metal_docs.Prelude.Tests.{if◌then◌else◌}
use metal_docs.Prelude.Text.{str_eq, text_concat}
use metal_docs.Prelude.Result.{Result, ok, err}
use metal_docs.Prelude.Sql.{Fault, Env, domain}
use metal_docs.Registry.{
  ControlledDocument, is_cd_active, TemplateVersionCandidate, TemplateResolutionInput,
  TemplateResolutionResult, ResolutionError, resolve,
}
use metal_docs.Editor.Tables.{
  Document, EditorError, controlled_document_required, cd_not_active, form_data_invalid,
  not_configured, unresolved, outside,
}
use metal_docs.Editor.Documents.{create_document, set_revision_storage_key, get_document}
use metal_docs.Editor.Service.{
  World, Serv, ◌>>=◌, ◌>>◌, done, stop_if, transact, execute, audit, document_created,
}
use metal_docs.Editor.Service.Documents.{trim_space}

pub record PublishedVersion : Type 0 where
  pub docx_key : String
  pub schema_key : String
  pub schema_json : String

-- What the service is built with; a nil interface is `none`. An error of such a call is `err tt`.
pub record Wiring : Type 0 where
  pub registry : Option (String → String → Result (Unit {0}) ControlledDocument)
  pub authz : Option (String → String → String → Result (Unit {0}) (Unit {0}))
  pub profile_templates :
      Option (String → String → Result (Unit {0}) (Option String × Option String))
  pub published_version : String → String → Result (Unit {0}) PublishedVersion
  pub validate_form : String → String → Result (Unit {0}) Bool
  pub docgen : Option (String → String → String → String → Result (Unit {0}) String)
  pub adopt_temp_object : String → String → Result (Unit {0}) (Unit {0})
  pub snapshot : Option (String → String → String → String → Result (Unit {0}) (Unit {0}))
  pub duplicator : Option (String → String → String → Result (Unit {0}) ControlledDocument)
  pub sha256_hex : String → String
  pub new_uuid : String

pub record CreateDocumentInput : Type 0 where
  pub tenant_id : String
  pub actor_user_id : String
  pub controlled_document_id : String
  pub template_version_id : String
  pub name : String
  pub form_data : String

pub record CreateDocumentResult : Type 0 where
  pub document_id : String
  pub initial_revision_id : String
  pub session_id : String

unfoldable pub configured : {A : Type 0} → String → Option A → Serv A
configured what none w = (err (domain (not_configured what)), w)
configured what (some a) w = (ok a, w)

-- The numbered call of another component.
unfoldable pub foreign : {A : Type 0} → ℕ → Result (Unit {0}) A → Serv A
foreign k (err e) w = (err (domain (outside k)), w)
foreign k (ok a) w = (ok a, w)

unfoldable pub resolved :
    Result ResolutionError TemplateResolutionResult → Serv TemplateResolutionResult
resolved (err e) w = (err (domain (unresolved e)), w)
resolved (ok r) w = (ok r, w)

-- The override is taken to be published; the default comes with the status of its row.
abbrev pub override_candidate : ControlledDocument → Option String → Option TemplateVersionCandidate
override_candidate cd none = none
override_candidate cd (some id) =
    some (record { id = id; profile_code = cd.profile_code; status = some "published" })

abbrev pub default_candidate :
    ControlledDocument → Option String → Option String → Option TemplateVersionCandidate
default_candidate cd none status = none
default_candidate cd (some id) status =
    some (record { id = id; profile_code = cd.profile_code; status = status })

abbrev pub resolution_input :
    ControlledDocument → Option String × Option String → TemplateResolutionInput
resolution_input cd default = record {
  profile_code = cd.profile_code;
  override_template = override_candidate cd cd.override_template_version_id;
  default_template = default_candidate cd default.0 default.1;
}

-- A schema that is not the empty text is checked.
unfoldable pub check_form : Wiring → String → String → Serv (Unit {0})
check_form wiring schema form = if str_eq schema "" then done tt else (do
  valid ← foreign 5 (wiring.validate_form schema form)
  stop_if (not valid) form_data_invalid)

-- `buildDocumentForCreate`; the columns that the INSERT leaves out have their defaults.
abbrev pub build_document_for_create : CreateDocumentInput → ControlledDocument → String → Document
build_document_for_create cmd cd template_version_id = record {
  id = "";
  tenant_id = cmd.tenant_id;
  template_version_id = template_version_id;
  name = cmd.name;
  status = "";
  form_data_json = cmd.form_data;
  current_revision_id = none;
  active_session_id = none;
  finalized_at = none;
  archived_at = none;
  created_at = 0;
  updated_at = 0;
  created_by = cmd.actor_user_id;
  controlled_document_id = some cmd.controlled_document_id;
  profile_code_snapshot = some cd.profile_code;
  process_area_code_snapshot = some cd.process_area_code;
}

-- The temporary object is deleted when the calls fail.
unfoldable pub cleaned :
    {A : Type 0}
    → String
    → Result (Fault EditorError) A × World
    → Result (Fault EditorError) A × World
cleaned key (ok a, w) = (ok a, w)
cleaned key (err e, w) = (err e, record w { deleted = w.deleted ++ (key ∷ []) })

unfoldable pub cleaning_up : {A : Type 0} → String → Serv A → Serv A
cleaning_up key m w = cleaned key (m w)

unfoldable pub take_snapshot : Wiring → String → String → String → String → Serv (Unit {0})
take_snapshot wiring tenant_id doc_id rev_id template = elim wiring.snapshot [
  | none ↦ done tt
  | some run ↦ foreign 8 (run tenant_id doc_id rev_id template)
]

-- The end of both branches: the key of the revision, the snapshot, and the audit entry.
unfoldable pub finish_create :
    (ℕ → Env)
    → Wiring
    → CreateDocumentInput
    → String
    → String
    → String × String × String
    → Serv CreateDocumentResult
finish_create calls wiring cmd template key ids = do
  execute (set_revision_storage_key (calls 1) ids.1 key)
  take_snapshot wiring cmd.tenant_id ids.0 ids.1 template
  audit cmd.tenant_id cmd.actor_user_id ids.0 (document_created template)
  done (record { document_id = ids.0; initial_revision_id = ids.1; session_id = ids.2 })

-- With a renderer the first revision is rendered to a temporary object, which is adopted under its
-- content; without one it is the template's own object.
unfoldable pub create_revision :
    (ℕ → Env)
    → Wiring
    → CreateDocumentInput
    → ControlledDocument
    → String
    → PublishedVersion
    → Option (String → String → String → String → Result (Unit {0}) String)
    → Serv CreateDocumentResult
create_revision calls wiring cmd cd template v none = do
  ids ← transact (calls 0) (
      create_document (calls 0) (build_document_for_create cmd cd template)
        (wiring.sha256_hex v.docx_key))
  finish_create calls wiring cmd template v.docx_key ids
create_revision calls wiring cmd cd template v (some render) = do
  let tmp =
      text_concat ("tenants/" ∷ cmd.tenant_id ∷ "/documents/tmp/" ∷ wiring.new_uuid ∷ ".docx" ∷ [])
  hash ← foreign 6 (render v.docx_key v.schema_key tmp cmd.form_data)
  ids ← cleaning_up tmp (
      transact (calls 0)
        (create_document (calls 0) (build_document_for_create cmd cd template) hash))
  let key =
      text_concat
        ("tenants/" ∷ cmd.tenant_id ∷ "/documents/" ∷ ids.0 ∷ "/revisions/" ∷ hash ∷ ".docx" ∷ [])
  cleaning_up tmp (foreign 7 (wiring.adopt_temp_object tmp key))
  finish_create calls wiring cmd template key ids

-- `CreateDocument`
unfoldable pub create_for_registry :
    (ℕ → Env) → Wiring → CreateDocumentInput → Serv CreateDocumentResult
create_for_registry calls wiring cmd = do
  stop_if (str_eq (trim_space cmd.controlled_document_id) "") controlled_document_required
  registry ← configured "registry" wiring.registry
  authz ← configured "authz" wiring.authz
  profiles ← configured "profile templates" wiring.profile_templates
  cd ← foreign 1 (registry cmd.tenant_id cmd.controlled_document_id)
  stop_if (not (is_cd_active cd)) cd_not_active
  foreign 2 (authz cmd.actor_user_id cmd.tenant_id cd.process_area_code)
  default ← foreign 3 (profiles cmd.tenant_id cd.profile_code)
  r ← resolved (resolve (resolution_input cd default))
  v ← foreign 4 (wiring.published_version cmd.tenant_id r.template_version_id)
  check_form wiring v.schema_json cmd.form_data
  create_revision calls wiring cmd cd r.template_version_id v wiring.docgen

abbrev pub required_id : Option String → String
required_id none = ""
required_id (some id) = id

-- `DuplicateDocument`
unfoldable pub duplicate_document :
    (ℕ → Env) → (ℕ → Env) → Wiring → String → String → String → Serv CreateDocumentResult
duplicate_document calls create_calls wiring tenant_id user_id doc_id = do
  duplicate ← configured "registry duplicator" wiring.duplicator
  d ← execute (get_document (calls 0) 1 tenant_id doc_id)
  let source = required_id d.controlled_document_id
  stop_if (str_eq (trim_space source) "") controlled_document_required
  cd ← foreign 9 (duplicate tenant_id source user_id)
  create_for_registry create_calls wiring (record {
    tenant_id = tenant_id;
    actor_user_id = user_id;
    controlled_document_id = cd.id;
    template_version_id = d.template_version_id;
    name = d.name;
    form_data = d.form_data_json;
  })
