-- ===== src/Editor/Service/Creations.antt =====
-- What a success of `CreateDocument` requires (documents_v2/application/service.go).
use metal_docs.Prelude.{ℕ, String, ◌≡◌, refl, sym, ap, true, false, not, Option, none, some}
use mathlib.Core.Path.{subst}
use metal_docs.Prelude.Text.{str_eq}
use metal_docs.Prelude.Tests.{not-false}
use metal_docs.Prelude.Result.{Result, ok, err, ok-injective}
use metal_docs.Prelude.Sql.{Fault, Env}
use metal_docs.Registry.{
  ControlledDocument, is_cd_active, TemplateResolutionResult, ResolutionError, resolve,
}
use metal_docs.Editor.Service.{World, Serv, ◌>>=◌, stop_if}
use metal_docs.Editor.Service.Documents.{trim_space}
use metal_docs.Editor.Service.Guards.{serv-read}
use metal_docs.Editor.Tables.{Tables, EditorError, controlled_document_required, cd_not_active}
use metal_docs.Editor.Service.FirstRevision.{
  foreign-ok, stop_if-ok, IsAccepted, check_form-ok, IsMade, create_revision-IsMade,
}
use metal_docs.Editor.Service.Create.{
  check_form, PublishedVersion, Wiring, CreateDocumentInput, CreateDocumentResult, configured,
  foreign, resolved, resolution_input, create_for_registry,
}

configured-ok :
    {A : Type 0} (what : String) (o : Option A) (w : World) (a : A)
    → (configured what o w).0 ≡ ok a
    → (o ≡ some a) × ((configured what o w).1 ≡ w)
unfolding configured
configured-ok what none w a h = cc
configured-ok what (some b) w a h = (ap (λ a. some a) (ok-injective h), refl)

resolved-ok :
    (r : Result ResolutionError TemplateResolutionResult) (w : World) (a : TemplateResolutionResult)
    → (resolved r w).0 ≡ ok a
    → (r ≡ ok a) × ((resolved r w).1 ≡ w)
unfolding resolved
resolved-ok (err e) w a h = cc
resolved-ok (ok b) w a h = (ap (λ a. ok a) (ok-injective h), refl)

-- To show `Q` of a run that succeeds, when its first call only reads and says `P` of its value, it is
-- enough to show it of what follows.
serv-learn :
    {A B : Type 0} (P : A → Type 0) (Q : Result (Fault EditorError) B × World → Type 0) (m : Serv A)
    (f : A → Serv B) (w : World) {b : B}
    → ((a : A) → (m w).0 ≡ ok a → P a × ((m w).1 ≡ w))
    → ((m >>= f) w).0 ≡ ok b
    → ((a : A) → P a → (f a w).0 ≡ ok b → Q (f a w))
    → Q ((m >>= f) w)
serv-learn P Q m f w learns h then_ =
    let (a, first, run, rest) = serv-read m f w (λ a e. (learns a e).1) h in
    subst Q (sym run) (then_ a (learns a first).0 rest)

-- What the calls of a creation have answered, and what it has made.
pub record IsAllowed (calls : ℕ → Env) (wiring : Wiring) (cmd : CreateDocumentInput)
    (before : Tables) (a : CreateDocumentResult) (after : Tables) : Type 0 where
  pub registry : String → String → Result (Unit {0}) ControlledDocument
  pub authz : String → String → String → Result (Unit {0}) (Unit {0})
  pub profiles : String → String → Result (Unit {0}) (Option String × Option String)
  pub cd : ControlledDocument
  pub default : Option String × Option String
  pub chosen : TemplateResolutionResult
  pub version : PublishedVersion
  pub is_named : str_eq (trim_space cmd.controlled_document_id) "" ≡ false
  pub has_registry : wiring.registry ≡ some registry
  pub has_authz : wiring.authz ≡ some authz
  pub has_profiles : wiring.profile_templates ≡ some profiles
  pub found : registry cmd.tenant_id cmd.controlled_document_id ≡ ok cd
  pub is_active : is_cd_active cd ≡ true
  pub is_authorised : authz cmd.actor_user_id cmd.tenant_id cd.process_area_code ≡ ok tt
  pub has_default : profiles cmd.tenant_id cd.profile_code ≡ ok default
  pub is_chosen : resolve (resolution_input cd default) ≡ ok chosen
  pub is_published : wiring.published_version cmd.tenant_id chosen.template_version_id ≡ ok version
  pub is_accepted : IsAccepted wiring version.schema_json cmd.form_data
  pub is_made :
      IsMade calls wiring cmd cd chosen.template_version_id version wiring.docgen before a after

-- A `CreateDocument` that succeeds was given the identifier of a controlled document, which the
-- registry found active; the actor was authorised in its process area; `Resolve` chose a template
-- between the override and the default of the profile; that template has a published version; and
-- the form was valid for its schema, if it has one. The repository has then inserted a document of
-- that template, with the tenant, the author, the name, the form and the controlled document of the
-- request and the profile and the area of the controlled document, and has set the key of its first
-- revision, which is what the renderer made, or without a renderer the template itself. The answer
-- names the rows that were inserted, and the tables are those that these two methods leave.
pub create_for_registry-IsAllowed :
    (calls : ℕ → Env) (wiring : Wiring) (cmd : CreateDocumentInput) (w : World)
    {a : CreateDocumentResult}
    → (create_for_registry calls wiring cmd w).0 ≡ ok a
    → IsAllowed calls wiring cmd w.tables a (create_for_registry calls wiring cmd w).1.tables
unfolding create_for_registry
create_for_registry-IsAllowed calls wiring cmd w {a} h =
    let named = str_eq (trim_space cmd.controlled_document_id) "" in
    let Ends : Result (Fault EditorError) CreateDocumentResult × World → Type 0 =
      λ x. IsAllowed calls wiring cmd w.tables a x.1.tables in
    serv-learn (λ _. named ≡ false) Ends (stop_if named controlled_document_required) _ w
      (stop_if-ok named controlled_document_required w) h
      (λ _ is_named h.
        serv-learn (λ r. wiring.registry ≡ some r) Ends (configured "registry" wiring.registry) _ w
          (configured-ok "registry" wiring.registry w) h
          (λ registry has_registry h.
            serv-learn (λ r. wiring.authz ≡ some r) Ends (configured "authz" wiring.authz) _ w
              (configured-ok "authz" wiring.authz w) h
              (λ authz has_authz h.
                serv-learn (λ r. wiring.profile_templates ≡ some r) Ends
                  (configured "profile templates" wiring.profile_templates) _ w
                  (configured-ok "profile templates" wiring.profile_templates w) h
                  (λ profiles has_profiles h.
                    serv-learn (λ r. registry cmd.tenant_id cmd.controlled_document_id ≡ ok r) Ends
                      (foreign 1 _) _ w
                      (foreign-ok 1 (registry cmd.tenant_id cmd.controlled_document_id) w) h
                      (λ cd found h.
                        serv-learn (λ _. not (is_cd_active cd) ≡ false) Ends
                          (stop_if (not (is_cd_active cd)) cd_not_active) _ w
                          (stop_if-ok (not (is_cd_active cd)) cd_not_active w) h
                          (λ _ active h.
                            serv-learn
                              (λ r.
                                authz cmd.actor_user_id cmd.tenant_id cd.process_area_code ≡ ok r)
                              Ends (foreign 2 _) _ w
                              (foreign-ok 2
                                (authz cmd.actor_user_id cmd.tenant_id cd.process_area_code) w)
                              h
                              (λ _ authorised h.
                                serv-learn (λ r. profiles cmd.tenant_id cd.profile_code ≡ ok r) Ends
                                  (foreign 3 _) _ w
                                  (foreign-ok 3 (profiles cmd.tenant_id cd.profile_code) w) h
                                  (λ default has_default h.
                                    serv-learn (λ r. resolve (resolution_input cd default) ≡ ok r)
                                      Ends (resolved _) _ w
                                      (resolved-ok (resolve (resolution_input cd default)) w) h
                                      (λ chosen is_chosen h.
                                        serv-learn
                                          (λ r.
                                            wiring.published_version cmd.tenant_id
                                              chosen.template_version_id
                                            ≡ ok r)
                                          Ends (foreign 4 _) _ w
                                          (foreign-ok 4
                                            (wiring.published_version cmd.tenant_id
                                              chosen.template_version_id)
                                            w)
                                          h
                                          (λ version published h.
                                            serv-learn
                                              (λ _.
                                                IsAccepted wiring version.schema_json cmd.form_data)
                                              Ends
                                              (check_form wiring version.schema_json cmd.form_data)
                                              _ w
                                              (check_form-ok wiring version.schema_json
                                                cmd.form_data w)
                                              h
                                              (λ _ accepted h. record {
                                                registry = registry;
                                                authz = authz;
                                                profiles = profiles;
                                                cd = cd;
                                                default = default;
                                                chosen = chosen;
                                                version = version;
                                                is_named = is_named;
                                                has_registry = has_registry;
                                                has_authz = has_authz;
                                                has_profiles = has_profiles;
                                                found = found;
                                                is_active = not-false (is_cd_active cd) active;
                                                is_authorised = authorised;
                                                has_default = has_default;
                                                is_chosen = is_chosen;
                                                is_published = published;
                                                is_accepted = accepted;
                                                is_made =
                                                    create_revision-IsMade calls wiring cmd cd
                                                      chosen.template_version_id version
                                                      wiring.docgen w h;
                                              })))))))))))
