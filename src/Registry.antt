-- ===== src/Registry.antt =====
-- The template of a controlled document (internal/modules/registry/domain/resolution.go and
-- controlled_document.go).
use metal_docs.Prelude.{ℕ, String, Bool, true, false, not, Option, none, some}
use metal_docs.Prelude.Int.{ℤ}
use metal_docs.Prelude.Tests.{if◌then◌else◌}
use metal_docs.Prelude.Text.{str_eq}
use metal_docs.Prelude.Result.{Result, ok, err}

pub data CdStatus : Type 0 where
  active obsolete superseded : CdStatus

pub record ControlledDocument : Type 0 where
  pub id : String
  pub tenant_id : String
  pub profile_code : String
  pub process_area_code : String
  pub department_code : Option String
  pub code : String
  pub sequence_num : Option ℤ
  pub title : String
  pub owner_user_id : String
  pub override_template_version_id : Option String
  pub status : CdStatus
  pub created_at : ℕ
  pub updated_at : ℕ

-- `IsActive`
abbrev pub is_cd_active : ControlledDocument → Bool
is_cd_active cd = elim cd.status [ active ↦ true | _ ↦ false ]

pub record TemplateVersionCandidate : Type 0 where
  pub id : String
  pub profile_code : String
  pub status : Option String

pub record TemplateResolutionInput : Type 0 where
  pub profile_code : String
  pub override_template : Option TemplateVersionCandidate
  pub default_template : Option TemplateVersionCandidate

pub record TemplateResolutionResult : Type 0 where
  pub template_version_id : String
  pub source : String

pub data ResolutionError : Type 0 where
  profile_has_no_default_template override_template_deleted : ResolutionError
  override_not_published default_obsolete template_profile_mismatch : ResolutionError

abbrev pub resolve_override :
    String
    → TemplateVersionCandidate
    → Option String
    → Result ResolutionError TemplateResolutionResult
resolve_override profile o none = err override_template_deleted
resolve_override profile o (some status) =
    if not (str_eq status "published")
    then err override_not_published
    else if not (str_eq o.profile_code profile)
    then err template_profile_mismatch
    else ok (record { template_version_id = o.id; source = "override" })

abbrev pub resolve_status :
    TemplateVersionCandidate → Option String → Result ResolutionError TemplateResolutionResult
resolve_status d none = err profile_has_no_default_template
resolve_status d (some status) =
    if str_eq status "obsolete"
    then err default_obsolete
    else if not (str_eq status "published")
    then err profile_has_no_default_template
    else ok (record { template_version_id = d.id; source = "default" })

abbrev pub resolve_default :
    Option TemplateVersionCandidate → Result ResolutionError TemplateResolutionResult
resolve_default none = err profile_has_no_default_template
resolve_default (some d) = resolve_status d d.status

abbrev pub resolve_from :
    TemplateResolutionInput
    → Option TemplateVersionCandidate
    → Result ResolutionError TemplateResolutionResult
resolve_from input (some o) = resolve_override input.profile_code o o.status
resolve_from input none = resolve_default input.default_template

-- `Resolve`
unfoldable pub resolve : TemplateResolutionInput → Result ResolutionError TemplateResolutionResult
resolve input = resolve_from input input.override_template
