-- ===== src/Approval/State.antt =====
-- The document lifecycle (approval/domain/state.go), and the transition trigger of the database
-- (migrations/0144_cancel_state.sql).
pub mod Names
pub mod Graph
use metal_docs.Prelude.{ℕ, String, ◌≡◌, Bool, true, false, ◌&&◌, ◌||◌, List, [], ◌∷◌}
use metal_docs.Prelude.Tests.{◌==◌, if◌then◌else◌}
use metal_docs.Prelude.Text.{str_eq}
use metal_docs.Prelude.Result.{Result, ok, err}
use metal_docs.Prelude.Lists.{any}

pub data DocState : Type 0 where
  draft under_review approved rejected scheduled published superseded obsolete : DocState

pub data StateError : Type 0 where
  legacy_state_rejected : StateError
  unknown_document_state : String → StateError

-- `AllStates`
unfoldable pub all_states : List DocState
all_states =
    draft ∷ under_review ∷ approved ∷ rejected ∷ scheduled ∷ published ∷ superseded ∷ obsolete ∷ []

-- `DocState.String`
unfoldable pub to_string : DocState → String
to_string draft = "draft"
to_string under_review = "under_review"
to_string approved = "approved"
to_string rejected = "rejected"
to_string scheduled = "scheduled"
to_string published = "published"
to_string superseded = "superseded"
to_string obsolete = "obsolete"

-- The cases of the switch in turn; the last is `default`.
unfoldable pub state_from_string : String → Result StateError DocState
state_from_string s =
    if str_eq s "draft"
    then ok draft
    else if str_eq s "under_review"
    then ok under_review
    else if str_eq s "approved"
    then ok approved
    else if str_eq s "rejected"
    then ok rejected
    else if str_eq s "scheduled"
    then ok scheduled
    else if str_eq s "published"
    then ok published
    else if str_eq s "superseded"
    then ok superseded
    else if str_eq s "obsolete"
    then ok obsolete
    else if str_eq s "finalized" || str_eq s "archived"
    then err legacy_state_rejected
    else err (unknown_document_state s)

-- A number for each constructor, so that the equality of states is a Boolean test.
abbrev pub state_number : DocState → ℕ
state_number draft = 0
state_number under_review = 1
state_number approved = 2
state_number rejected = 3
state_number scheduled = 4
state_number published = 5
state_number superseded = 6
state_number obsolete = 7

abbrev pub state_eq : DocState → DocState → Bool
state_eq a b = state_number a == state_number b

-- The map `legalTransitions`; each key holds the targets that it maps to true.
unfoldable pub legal_transitions : DocState → List DocState
legal_transitions draft = under_review ∷ []
legal_transitions under_review = approved ∷ rejected ∷ []
legal_transitions rejected = draft ∷ []
legal_transitions approved = published ∷ scheduled ∷ draft ∷ []
legal_transitions scheduled = published ∷ draft ∷ []
legal_transitions published = superseded ∷ obsolete ∷ []
legal_transitions superseded = obsolete ∷ []
legal_transitions obsolete = []

-- Every state is a key of the map, so the lookup of `from` never fails.
unfoldable pub is_legal_transition : DocState → DocState → Bool
unfolding legal_transitions
is_legal_transition from to =
    if state_eq from to then false else any (λ t. state_eq t to) (legal_transitions from)

-- `enforce_document_transition`: whether an UPDATE from the old to the new status is let through.
-- The flag says that `metaldocs.cancel_in_progress` is set and not empty.
unfoldable pub trigger_allows : Bool → DocState → DocState → Bool
trigger_allows cancel_in_progress old new =
    if state_eq old new
    then true
    else if state_eq old under_review && state_eq new draft
    then cancel_in_progress
    else (state_eq old draft && state_eq new under_review)
      || (state_eq old under_review && (state_eq new approved || state_eq new rejected))
      || (state_eq old rejected && state_eq new draft)
      || (state_eq old approved
          && (state_eq new published || state_eq new scheduled || state_eq new draft))
      || (state_eq old scheduled && (state_eq new published || state_eq new draft))
      || (state_eq old published && (state_eq new superseded || state_eq new obsolete))
      || (state_eq old superseded && state_eq new obsolete)
