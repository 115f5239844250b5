-- ===== src/Editor/Leases.antt =====
-- The editor's lock on a document, as its callers see it: a list of leases, without the rows of
-- `editor_sessions` that are closed.
pub mod Rows
pub mod Effects
pub mod Refines
pub mod Exclusive
pub mod Sweeps
use metal_docs.Prelude.{
  ℕ, String, ◌≡◌, Bool, true, false, not, ◌&&◌, Option, none, some, List, [], ◌∷◌, ◌++◌, ◌+◌, map,
}
use metal_docs.Prelude.Tests.{if◌then◌else◌, ltb}
use metal_docs.Prelude.Text.{str_eq}
use metal_docs.Prelude.Lists.{any, keep_if, find_if, update_where}
use metal_docs.Editor.Tables.{Session, Tables, is_active}
use metal_docs.Editor.Documents.{lease_seconds}
use metal_docs.Editor.Sessions.{Acquired, held, taken}

pub record Lease : Type 0 where
  pub session : String
  pub document : String
  pub user : String
  pub expires_at : ℕ

abbrev pub lease_of : Session → Lease
lease_of s = record {
  session = s.id;
  document = s.document_id;
  user = s.user_id;
  expires_at = s.expires_at;
}

abbrev pub leases_of : List Session → List Lease
leases_of rows = map lease_of (keep_if is_active rows)

abbrev pub leases : Tables → List Lease
leases t = leases_of t.sessions

abbrev pub is_on : String → Lease → Bool
is_on doc_id l = str_eq l.document doc_id

abbrev pub renew : ℕ → Lease → Lease
renew now l = record l { expires_at = now + lease_seconds }

-- What a caller learns: its own lease, or who holds the document.
pub data Outcome : Type 0 where
  granted : Lease → Outcome
  refused : String → String → Outcome

abbrev pub outcome_of : Acquired → Outcome
outcome_of (held s) = granted (lease_of s)
outcome_of (taken s) = refused s.id s.user_id

-- A lease that is there is renewed for its holder and refuses everybody else.
abbrev pub answer : ℕ → Bool → Lease → List Lease → Outcome × List Lease
answer now true l ls =
    (granted (renew now l), update_where (λ (m : Lease). str_eq m.session l.session) (renew now) ls)
answer now false l ls = (refused l.session l.user, ls)

abbrev pub acquire_found :
    ℕ → String → String → String → Option Lease → List Lease → Outcome × List Lease
acquire_found now session doc_id user none ls =
    let new : Lease = record {
      session = session;
      document = doc_id;
      user = user;
      expires_at = now + lease_seconds;
    } in
    (granted new, ls ++ (new ∷ []))
acquire_found now session doc_id user (some l) ls = answer now (str_eq l.user user) l ls

abbrev pub acquire : ℕ → String → String → String → List Lease → Outcome × List Lease
acquire now session doc_id user ls =
    acquire_found now session doc_id user (find_if (is_on doc_id) ls) ls

abbrev pub is_lease_of : String → String → Lease → Bool
is_lease_of session user l = str_eq l.session session && str_eq l.user user

abbrev pub heartbeat : ℕ → String → String → List Lease → List Lease
heartbeat now session user = update_where (is_lease_of session user) (renew now)

abbrev pub release : String → String → List Lease → List Lease
release session user = keep_if (λ l. not (is_lease_of session user l))

abbrev pub force_release : String → List Lease → List Lease
force_release session = keep_if (λ (l : Lease). not (str_eq l.session session))

abbrev pub expire : ℕ → List Lease → List Lease
expire now = keep_if (λ (l : Lease). not (ltb l.expires_at now))

-- No two leases are on one document.
unfoldable pub AreExclusive : List Lease → Type 0
AreExclusive [] = Unit
AreExclusive (l ∷ ls) = (any (is_on l.document) ls ≡ false) × AreExclusive ls
