-- ===== src/Approval/State/Graph.antt =====
-- The transition graph of approval/domain/state.go: against the database's trigger, and along
-- whole histories of a document.
use mathlib.Core.List.{Memᴰ}
use metal_docs.Prelude.{
  ◌≡◌, refl, sym, ◌⊎◌, inl, inr, arith, Bool, true, false, ◌&&◌, ◌||◌, List, [], ◌∷◌,
}
use metal_docs.Approval.State.{
  DocState, draft, under_review, approved, rejected, published, superseded, obsolete, state_eq,
  is_legal_transition, trigger_allows,
}

state_eq→≡ : (a b : DocState) → state_eq a b ≡ true → a ≡ b
state_eq→≡ a b h = ground arith

state_eq_refl : (a : DocState) → state_eq a a ≡ true
state_eq_refl draft = refl
state_eq_refl _ = refl

-- The database's trigger lets an UPDATE through exactly when it keeps the status, or the graph of
-- the Go code has the edge, or it goes from `under_review` to `draft` in a transaction that has
-- announced a cancellation.
pub trigger_allows-is_legal_transition :
    (cancel : Bool) (old new : DocState)
    → trigger_allows cancel old new ≡ (
        state_eq old new
        || is_legal_transition old new
        || (cancel && state_eq old under_review && state_eq new draft))
unfolding trigger_allows is_legal_transition
trigger_allows-is_legal_transition true draft draft = refl
trigger_allows-is_legal_transition false draft draft = refl
trigger_allows-is_legal_transition _ old new = ground arith

-- A history: the states that a document goes through along edges of the graph, the last included.
pub data History : DocState → List DocState → DocState → Type 0 where
  here : {s : DocState} → History s [] s
  step :
      {s t u : DocState} {visited : List DocState}
      → is_legal_transition s t ≡ true
      → History t visited u
      → History s (t ∷ visited) u

-- At or after publication.
abbrev pub is_released : DocState → Bool
is_released published = true
is_released superseded = true
is_released obsolete = true
is_released _ = false

abbrev pub is_authoring : DocState → Bool
is_authoring draft = true
is_authoring under_review = true
is_authoring rejected = true
is_authoring _ = false

released_stays :
    (s t : DocState) → is_legal_transition s t ≡ true → is_released s ≡ true → is_released t ≡ true
unfolding is_legal_transition
released_stays s t e h = ground arith

-- A history that starts at a released state never leaves the released states: a published
-- document goes back neither to drafting nor to review.
pub History-is_released :
    {s t : DocState} {visited : List DocState}
    → History s visited t
    → is_released s ≡ true
    → is_released t ≡ true
History-is_released here h = h
History-is_released (step e r) h = History-is_released r (released_stays _ _ e h)

authoring_leaves :
    (s t : DocState)
    → is_legal_transition s t ≡ true
    → is_authoring s ≡ true
    → (is_authoring t ≡ true) ⊎ (t ≡ approved)
unfolding is_legal_transition
authoring_leaves s t e h = ground arith

leaves_by_approved :
    {s t : DocState} {visited : List DocState}
    → History s visited t
    → is_authoring s ≡ true
    → is_authoring t ≡ false
    → Memᴰ approved visited
leaves_by_approved here a b = cc
leaves_by_approved (step {s = s} {t = m} e r) a b = elim (authoring_leaves s m e a) [
  | inl still ↦ Memᴰ.tail (leaves_by_approved r still b)
  | inr here_approved ↦ Memᴰ.head (sym here_approved)
]

-- Every history along the graph from a state before approval (`draft`, `under_review` or
-- `rejected`) to a released state (`published`, `superseded` or `obsolete`) goes through `approved`.
pub release_needs_approval :
    {s t : DocState} {visited : List DocState}
    → History s visited t
    → is_authoring s ≡ true
    → is_released t ≡ true
    → Memᴰ approved visited
release_needs_approval {t} r a b = leaves_by_approved r a (not_authoring t b)
  where
    not_authoring : (t : DocState) → is_released t ≡ true → is_authoring t ≡ false
    not_authoring t h = ground arith
