-- ===== src/Editor/Service.antt =====
-- The editor service (documents_v2/application/service.go): calls of the repository, one after the
-- other, each with its own transaction, and the audit trail between them.
pub mod Documents
pub mod Autosave
pub mod Sessions
pub mod Create
pub mod Guards
pub mod FirstRevision
pub mod Creations
use metal_docs.Prelude.{ℕ, String, Bool, true, false, not, List, [], ◌∷◌, ◌++◌}
use metal_docs.Prelude.Tests.{if◌then◌else◌}
use metal_docs.Prelude.Text.{str_eq}
use metal_docs.Prelude.Result.{Result, ok, err}
use metal_docs.Prelude.Sql.{Fault, Env, domain, transaction, autocommit, follow}
use metal_docs.Editor.Tables.{Document, Tables, Edit, EditorError, invalid_state_transition}
use metal_docs.Editor.Documents.{get_document}

-- The entries of the audit trail, with their metadata: `document.renamed` and so on.
pub data Action : Type 0 where
  renamed : String → Action
  autosaved : String → ℕ → Action
  session_acquired session_released session_force_released : String → Action
  checkpoint_created : ℕ → String → Action
  checkpoint_restored : ℕ → String → ℕ → String → Bool → Action
  document_finalized document_archived : Action
  document_created : String → Action

pub record AuditEntry : Type 0 where
  pub tenant_id : String
  pub actor_id : String
  pub document_id : String
  pub action : Action

-- The tables, the audit trail, and the keys of the objects that the service has asked the storage to
-- delete.
pub record World : Type 0 where
  pub tables : Tables
  pub trail : List AuditEntry
  pub deleted : List String

-- A service stops at the first error; what its calls have done before stays done.
abbrev pub Serv : Type 0 → Type 0
Serv A = World → Result (Fault EditorError) A × World

infixl 5 ◌>>=◌ ◌>>◌
unfoldable pub ◌>>=◌ : {A B : Type 0} → Serv A → (A → Serv B) → Serv B
◌>>=◌ m f w = follow (m w) f

abbrev pub ◌>>◌ : {A B : Type 0} → Serv A → Serv B → Serv B
m >> k = m >>= λ _. k

unfoldable pub done : {A : Type 0} → A → Serv A
done a w = (ok a, w)

unfoldable pub stop_if : Bool → EditorError → Serv (Unit {0})
stop_if b e w = if b then (err (domain e), w) else (ok tt, w)

-- A method of the repository that is a transaction, and one that is a statement.
abbrev pub on_tables :
    {A : Type 0}
    → World
    → Result (Fault EditorError) A × Tables
    → Result (Fault EditorError) A × World
on_tables w (r, t) = (r, record w { tables = t })

unfoldable pub transact : {A : Type 0} → Env → Edit A → Serv A
transact env m w = on_tables w (transaction env 9 m w.tables)

unfoldable pub execute : {A : Type 0} → Edit A → Serv A
execute m w = on_tables w (autocommit m w.tables)

-- `Audit.Write`
unfoldable pub audit : String → String → String → Action → Serv (Unit {0})
audit tenant_id actor_id document_id action w = (
  ok tt,
  record w {
    trail =
        w.trail
        ++ (record {
          tenant_id = tenant_id;
          actor_id = actor_id;
          document_id = document_id;
          action = action;
        }
            ∷ []);
  },
)

-- `DeleteObject`, whose error the service drops.
unfoldable pub delete_object : String → Serv (Unit {0})
delete_object key w = (ok tt, record w { deleted = w.deleted ++ (key ∷ []) })

-- The document, which must be a draft.
unfoldable pub get_draft : Env → String → String → Serv Document
get_draft env tenant_id doc_id = do
  d ← execute (get_document env 1 tenant_id doc_id)
  stop_if (not (str_eq d.status "draft")) invalid_state_transition
  done d
