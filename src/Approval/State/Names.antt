-- ===== src/Approval/State/Names.antt =====
-- The names of the states (`String` and `StateFromString` of approval/domain/state.go).
use metal_docs.Prelude.{String, ◌≡◌, refl, ap, ◌∙◌, ◌↔◌, ◌⊎◌, inl, inr, arith}
use metal_docs.Prelude.Tests.{Bool-cases, if◌then◌else◌}
use metal_docs.Prelude.Text.{str_eq, str_eq_iff}
use metal_docs.Prelude.Result.{Result, ok, err, ok-injective}
use metal_docs.Approval.State.{
  DocState, draft, under_review, approved, rejected, scheduled, published, superseded, obsolete,
  StateError, legacy_state_rejected, to_string, state_from_string,
}

state_from_string-to_string : (s : DocState) → state_from_string (to_string s) ≡ ok s
unfolding state_from_string to_string
state_from_string-to_string draft = refl
state_from_string-to_string _ = refl

-- One test of the switch: the name of `x` is read as `x`, and any other text by what follows.
unless_named :
    (t : String) (s x : DocState) (rest : Result StateError DocState)
    → (rest ≡ ok s → t ≡ to_string s)
    → (if str_eq t (to_string x) then ok x else rest) ≡ ok s
    → t ≡ to_string s
unless_named t s x rest later h = elim (Bool-cases (str_eq t (to_string x))) [
  | inl same ↦ (str_eq_iff t (to_string x)).0 same ∙ ap to_string (ok-injective (rw same at h))
  | inr other ↦ later (rw other at h)
]

-- A name that is accepted is the name of the state that it is read as.
to_string_of_parsed : (t : String) (s : DocState) → state_from_string t ≡ ok s → t ≡ to_string s
unfolding state_from_string to_string
to_string_of_parsed t s = unless_named t s draft _ (
    unless_named t s under_review _ (
      unless_named t s approved _ (
        unless_named t s rejected _ (
          unless_named t s scheduled _ (
            unless_named t s published _
              (unless_named t s superseded _ (unless_named t s obsolete _ (λ h. ground arith))))))))

-- A text is read as a state exactly when it is that state's name.
pub state_from_string_iff :
    (t : String) (s : DocState) → (state_from_string t ≡ ok s) ↔ (t ≡ to_string s)
state_from_string_iff t s = (to_string_of_parsed t s, λ e. rw e (state_from_string-to_string s))

-- Exactly the two legacy names are refused as legacy.
state_from_string_legacy :
    (t : String)
    → (state_from_string t ≡ err legacy_state_rejected) ↔ ((t ≡ "finalized") ⊎ (t ≡ "archived"))
unfolding state_from_string
state_from_string_legacy t = (
  λ h. ground (arith, str_eq_iff t "finalized", str_eq_iff t "archived"),
  λ h. elim h [ inl e ↦ rw e refl | inr e ↦ rw e refl ],
)
