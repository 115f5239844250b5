-- ===== src/Approval/Signoff/Duties.antt =====
-- What `CheckSoD` (approval/domain/sod.go) lets through.
use metal_docs.Prelude.{String, ◌≡◌, ◌≢◌, ◌↔◌, refl, false, none, List, [], ◌∷◌, arith}
use metal_docs.Prelude.Text.{str_eq, str_eq_iff}
use metal_docs.Prelude.Lists.{any, All}
use metal_docs.Approval.Signoff.{Signoff, check_sod}

abbrev pub NotSignedBy : String → List Signoff → Type 0
NotSignedBy actor = All (λ s. s.actor_user_id ≢ actor)

any-NotSignedBy :
    (actor : String) (prior : List Signoff)
    → any (λ (s : Signoff). str_eq s.actor_user_id actor) prior ≡ false
    → NotSignedBy actor prior
any-NotSignedBy actor [] h = tt
any-NotSignedBy actor (s ∷ prior) h = (
  λ e. ground (arith, str_eq_iff s.actor_user_id actor),
  any-NotSignedBy actor prior (ground arith),
)

NotSignedBy-any :
    (actor : String) (prior : List Signoff)
    → NotSignedBy actor prior
    → any (λ (s : Signoff). str_eq s.actor_user_id actor) prior ≡ false
NotSignedBy-any actor [] h = refl
NotSignedBy-any actor (s ∷ prior) h =
    ground (arith, str_eq_iff s.actor_user_id actor, NotSignedBy-any actor prior h.1, h.0)

-- An actor may sign exactly when the actor is not the author and no prior signoff is the actor's.
pub check_sod_iff :
    (author actor : String) (prior : List Signoff)
    → (check_sod author actor prior ≡ none) ↔ ((actor ≢ author) × NotSignedBy actor prior)
unfolding check_sod
check_sod_iff author actor prior = (
  λ h. (λ e. ground (arith, str_eq_iff actor author), any-NotSignedBy actor prior (ground arith)),
  λ h. ground (arith, str_eq_iff actor author, NotSignedBy-any actor prior h.1, h.0),
)
