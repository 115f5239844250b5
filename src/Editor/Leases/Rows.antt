-- ===== src/Editor/Leases/Rows.antt =====
-- How changes of the rows of `editor_sessions` show in the leases.
use metal_docs.Prelude.{
  String, ◌≡◌, refl, ap, sym, Bool, true, false, not, inl, inr, Option, none, some, List, [], ◌∷◌,
  ◌++◌,
}
use metal_docs.Prelude.Tests.{Bool-cases}
use metal_docs.Prelude.Text.{str_eq}
use metal_docs.Prelude.Lists.{keep_if, find_if, update_where}
use metal_docs.Editor.Tables.{Session, is_active}
use metal_docs.Editor.Sessions.{holds_document}
use metal_docs.Editor.Leases.{Lease, lease_of, leases_of, is_on}

-- A row after the others is a lease after the others, if it is active.
pub leases_of-append :
    (rows : List Session) (new : Session)
    → is_active new ≡ true
    → leases_of (rows ++ (new ∷ [])) ≡ leases_of rows ++ (lease_of new ∷ [])
leases_of-append [] new live = rw live refl
leases_of-append (s ∷ rows) new live = elim (Bool-cases (is_active s)) [
  | inl alive ↦ rw alive (ap (λ ls. lease_of s ∷ ls) (leases_of-append rows new live))
  | inr shut ↦ rw shut (leases_of-append rows new live)
]

-- Rows that are changed and stay active.
pub leases_of-update :
    (p : Session → Bool) (f : Session → Session) (q : Lease → Bool) (g : Lease → Lease)
    → ((s : Session) → is_active (f s) ≡ is_active s)
    → ((s : Session) → lease_of (f s) ≡ g (lease_of s))
    → ((s : Session) → is_active s ≡ true → p s ≡ q (lease_of s))
    → (rows : List Session) → leases_of (update_where p f rows) ≡ update_where q g (leases_of rows)
leases_of-update p f q g stays shows hits [] = refl
leases_of-update p f q g stays shows hits (s ∷ rows) =
    let rest = leases_of-update p f q g stays shows hits rows in
    elim (Bool-cases (p s)) [
      | inl hit ↦ elim (Bool-cases (is_active s)) [
        | inl alive ↦
            rw (hit, stays s, alive, shows s, sym (hits s alive), hit)
              (ap (λ ls. g (lease_of s) ∷ ls) rest)
        | inr shut ↦ rw (hit, stays s, shut) rest
      ]
      | inr miss ↦ elim (Bool-cases (is_active s)) [
        | inl alive ↦ rw (miss, alive, sym (hits s alive), miss) (ap (λ ls. lease_of s ∷ ls) rest)
        | inr shut ↦ rw (miss, shut) rest
      ]
    ]

-- Rows that are changed in what the leases do not show.
pub leases_of-same :
    (p : Session → Bool) (f : Session → Session)
    → ((s : Session) → is_active (f s) ≡ is_active s)
    → ((s : Session) → lease_of (f s) ≡ lease_of s)
    → (rows : List Session) → leases_of (update_where p f rows) ≡ leases_of rows
leases_of-same p f stays shows [] = refl
leases_of-same p f stays shows (s ∷ rows) =
    let rest = leases_of-same p f stays shows rows in
    elim (Bool-cases (p s)) [
      | inl hit ↦ elim (Bool-cases (is_active s)) [
        | inl alive ↦ rw (hit, stays s, alive, shows s) (ap (λ ls. lease_of s ∷ ls) rest)
        | inr shut ↦ rw (hit, stays s, shut) rest
      ]
      | inr miss ↦ elim (Bool-cases (is_active s)) [
        | inl alive ↦ rw (miss, alive) (ap (λ ls. lease_of s ∷ ls) rest)
        | inr shut ↦ rw (miss, shut) rest
      ]
    ]

-- Rows that are closed.
pub leases_of-close :
    (p : Session → Bool) (f : Session → Session) (q : Lease → Bool)
    → ((s : Session) → is_active (f s) ≡ false)
    → ((s : Session) → is_active s ≡ true → p s ≡ q (lease_of s))
    → (rows : List Session)
    → leases_of (update_where p f rows) ≡ keep_if (λ l. not (q l)) (leases_of rows)
leases_of-close p f q closes hits [] = refl
leases_of-close p f q closes hits (s ∷ rows) =
    let rest = leases_of-close p f q closes hits rows in
    elim (Bool-cases (p s)) [
      | inl hit ↦ elim (Bool-cases (is_active s)) [
        | inl alive ↦ rw (hit, closes s, alive, sym (hits s alive), hit) rest
        | inr shut ↦ rw (hit, closes s, shut) rest
      ]
      | inr miss ↦ elim (Bool-cases (is_active s)) [
        | inl alive ↦ rw (miss, alive, sym (hits s alive), miss) (ap (λ ls. lease_of s ∷ ls) rest)
        | inr shut ↦ rw (miss, shut) rest
      ]
    ]

-- The active session on a document is the lease on it.
abbrev pub lease_of_found : Option Session → Option Lease
lease_of_found none = none
lease_of_found (some s) = some (lease_of s)

pub find_if-leases_of :
    (doc_id : String) (rows : List Session)
    → find_if (is_on doc_id) (leases_of rows)
      ≡ lease_of_found (find_if (holds_document doc_id) rows)
find_if-leases_of doc_id [] = refl
find_if-leases_of doc_id (s ∷ rows) =
    let rest = find_if-leases_of doc_id rows in
    elim (Bool-cases (str_eq s.document_id doc_id)) [
      | inl hit ↦ elim (Bool-cases (is_active s)) [
        | inl alive ↦ rw (hit, alive, hit) refl
        | inr shut ↦ rw (hit, shut) rest
      ]
      | inr miss ↦ elim (Bool-cases (is_active s)) [
        | inl alive ↦ rw (miss, alive, miss) rest
        | inr shut ↦ rw (miss, shut) rest
      ]
    ]
