-- ===== src/Approval/Service.antt =====
-- What the services of approval/application share: the clock, the identifiers and the foreign calls
-- they use, the authorization of iam/authz/authz.go, and the statements that several of them run.
pub mod Submit
pub mod Freeze
pub mod Decide
pub mod Cancel
pub mod Publish
pub mod Retire
pub mod Scheduler
pub mod Content
pub mod Keeps
pub mod History
pub mod System
pub mod Faults
pub mod Outcomes
pub mod Releases
pub mod Schedules
pub mod Successions
pub mod Cancellations
pub mod Signed
use metal_docs.Prelude.{
  ℕ, suc, ◌+◌, String, Bool, true, false, not, ◌&&◌, ◌||◌, Option, none, some, List, [], ◌∷◌,
}
use metal_docs.Prelude.Tests.{if◌then◌else◌, ◌==◌}
use metal_docs.Prelude.Text.{str_eq}
use metal_docs.Prelude.Lists.{any, find_if}
use metal_docs.Prelude.Result.{Result, ok, err}
use metal_docs.Prelude.Int.{ℤ, pos, eqb_ℤ}
use metal_docs.Approval.State.{DocState, state_eq}
use metal_docs.Approval.Payload.{Fields, walk_fields}
use metal_docs.Approval.Store.Tables.{Document, FrozenValues, Columns, Db}
use metal_docs.Approval.Store.Tx.{
  ServiceError, database, no_session, capability_denied, float_in_form_data, Tx, ◌>>=◌, ◌>>◌, pure,
  fail, fail_if, select,
}

-- A row of `role_capabilities`, and one of `user_process_areas`, where `ended` says that
-- `effective_to` is set.
pub record RoleCapability : Type 0 where
  pub role : String
  pub capability : String

pub record ProcessArea : Type 0 where
  pub user_id : String
  pub tenant_id : String
  pub area_code : String
  pub role : String
  pub ended : Bool

-- The clock and `uuid.New` of one call, the tables of authz, and what is outside of the repository:
-- the canonical SHA-256, the idempotency key, what the freeze of a document computes (`none` when no
-- invoker is configured, and `none` for a document when it fails), how columns keep values, and the failures of the driver, by the number of the call of the database.
pub record Env : Type 0 where
  pub now : ℕ
  pub new_id : String
  pub new_stage_id : ℕ → String
  pub role_capabilities : List RoleCapability
  pub user_process_areas : List ProcessArea
  pub digest : String → String → ℤ → Fields → List ℕ
  pub idempotency_key : String → String → ℕ → String
  pub freeze : Option (String → String → Option FrozenValues)
  pub columns : Columns
  pub fails : ℕ → Bool

-- The k-th call of the database by a service.
unfoldable pub call : {A : Type 0} → Env → ℕ → Tx A → Tx A
call env k m = fail_if (env.fails k) (database k) >> m

-- `SELECT set_config(…)`, as in `setAuthzGUC` and `BypassSystem`: what it sets for the transaction is
-- an argument of what reads it.
unfoldable pub set_config : Env → ℕ → Tx (Unit {0})
set_config env k = call env k (pure tt)

-- `ComputeContentHash`
unfoldable pub compute_content_hash :
    Env → String → String → ℤ → Fields → Result ServiceError (List ℕ)
compute_content_hash env tenant_id document_id revision form_data =
    if walk_fields form_data
    then err float_in_form_data
    else ok (env.digest tenant_id document_id revision form_data)

-- The query of `Require`: an assignment of the actor, not ended, whose role has the capability.
unfoldable pub is_granted : Env → String → String → String → String → Bool
is_granted env tenant_id actor capability area_code =
    any
      (λ (rc : RoleCapability).
        str_eq rc.capability capability
        && any
            (λ (upa : ProcessArea).
              str_eq upa.role rc.role
              && str_eq upa.tenant_id tenant_id
              && str_eq upa.user_id actor
              && not upa.ended
              && (str_eq area_code "tenant" || str_eq upa.area_code area_code))
            env.user_process_areas)
      env.role_capabilities

-- `Require`. The session holds the tenant and the actor that `setAuthzGUC` set in this transaction;
-- without them `current_setting` is an error. The cache of a context starts empty and the services
-- ask once, so it is left out, as is the record of the asserted capabilities.
unfoldable pub require : Env → Option (String × String) → String → String → Tx (Unit {0})
require env none capability area_code = fail no_session
require env (some (tenant_id, actor)) capability area_code =
    fail_if (not (is_granted env tenant_id actor capability area_code))
      (capability_denied capability area_code)

-- WHERE id = … AND tenant_id = …
unfoldable pub is_doc : String → String → Document → Bool
is_doc tenant_id document_id d = str_eq d.id document_id && str_eq d.tenant_id tenant_id

-- COALESCE(d.process_area_code_snapshot, cd.process_area_code, '')
unfoldable pub coalesce_area : Document → String
coalesce_area d = elim d.area_code_snapshot [
  | some a ↦ a
  | none ↦ elim d.controlled_area_code [ some a ↦ a | none ↦ "" ]
]

unfoldable pub area_or_tenant : Option Document → String
area_or_tenant none = "tenant"
area_or_tenant (some d) = if str_eq (coalesce_area d) "" then "tenant" else coalesce_area d

-- `loadDocumentAreaCode`
unfoldable pub load_document_area_code : String → String → Tx String
load_document_area_code tenant_id document_id =
    select (λ db. area_or_tenant (find_if (is_doc tenant_id document_id) db.documents))

-- The WHERE of the guarded updates of a document: its status, and its revision where it is asked.
unfoldable pub in_state : String → String → DocState → Document → Bool
in_state tenant_id document_id status d = is_doc tenant_id document_id d && state_eq d.status status

unfoldable pub at_revision : String → String → DocState → ℤ → Document → Bool
at_revision tenant_id document_id status revision d =
    in_state tenant_id document_id status d && eqb_ℤ (pos d.revision_version) revision

-- SET status = …, revision_version = revision_version + 1
unfoldable pub bump : DocState → Document → Document
bump status d = record d { status = status; revision_version = d.revision_version + 1 }
