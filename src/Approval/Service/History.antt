-- ===== src/Approval/Service/History.antt =====
-- How the tables may change: what every service of approval/application respects.
pub mod Rules
pub mod Services
use metal_docs.Prelude.{
  ℕ, ◌+◌, ◌≤◌, ◌<◌, String, ◌≡◌, refl, sym, ap, ◌∙◌, ◌⊎◌, inl, inr, Bool, true, false, List, [],
  ◌∷◌, ◌++◌, arith,
}
use metal_docs.Prelude.Lists.{length, any}
use metal_docs.Approval.State.{DocState, trigger_allows}
use metal_docs.Approval.State.Graph.{is_released}
use metal_docs.Approval.Signoff.{Signoff}
use metal_docs.Approval.Store.Tables.{Document, thawed, GovernanceEvent, Db}
use metal_docs.Approval.Store.Signing.{same_signer}
use metal_docs.Approval.Service.Keeps.{IsHistory}

-- One change of a document: to a status that the trigger lets through, in a transaction that has
-- announced a cancellation (`c`) or not, with the next revision and the same keys.
pub record IsMove (d e : Document) : Type 0 where
  pub c : Bool
  pub allowed : trigger_allows c d.status e.status ≡ true
  pub bumped : e.revision_version ≡ d.revision_version + 1
  pub same_id : e.id ≡ d.id
  pub same_tenant : e.tenant_id ≡ d.tenant_id
  pub same_author : e.created_by ≡ d.created_by

-- The writes of a freeze, which leave the revision as it is.
pub record IsFreeze (d e : Document) : Type 0 where
  pub same : thawed e ≡ thawed d

-- Any number of changes, one after another.
pub data Moves : Document → Document → Type 0 where
  done : {d : Document} → Moves d d
  move : {d e f : Document} → IsMove d e → Moves e f → Moves d f
  freeze : {d e f : Document} → IsFreeze d e → Moves e f → Moves d f

Moves-append : {d e f : Document} → Moves d e → Moves e f → Moves d f
Moves-append done n = n
Moves-append (move s m) n = move s (Moves-append m n)
Moves-append (freeze s m) n = freeze s (Moves-append m n)

-- A freeze keeps the revision and the status.
pub freeze-revision : {d e : Document} → IsFreeze d e → e.revision_version ≡ d.revision_version
freeze-revision s = ap (λ (d : Document). d.revision_version) s.same

pub freeze-status : {d e : Document} → IsFreeze d e → e.status ≡ d.status
freeze-status s = ap (λ (d : Document). d.status) s.same

pub Moves-le : {d e : Document} → Moves d e → d.revision_version ≤ e.revision_version
Moves-le done = omega arith
Moves-le (move s m) = omega (arith, s.bumped, Moves-le m)
Moves-le (freeze s m) = omega (arith, freeze-revision s, Moves-le m)

-- Row by row.
unfoldable pub AllMove : List Document → List Document → Type 0
AllMove [] [] = Unit
AllMove (d ∷ docs) (e ∷ more) = Moves d e × AllMove docs more
AllMove [] (_ ∷ _) = ⊥
AllMove (_ ∷ _) [] = ⊥

pub AllMove-refl : (docs : List Document) → AllMove docs docs
unfolding AllMove
AllMove-refl [] = tt
AllMove-refl (d ∷ docs) = (done, AllMove-refl docs)

pub AllMove-trans : (ds es fs : List Document) → AllMove ds es → AllMove es fs → AllMove ds fs
unfolding AllMove
AllMove-trans [] [] fs h k = k
AllMove-trans (d ∷ ds) (e ∷ es) (f ∷ fs) h k =
    (Moves-append h.0 k.0, AllMove-trans ds es fs h.1 k.1)
AllMove-trans [] (e ∷ es) fs h k = absurd h
AllMove-trans (d ∷ ds) [] fs h k = absurd h
AllMove-trans (d ∷ ds) (e ∷ es) [] h k = absurd k

-- The second list only adds rows at the end.
unfoldable pub Extends {ℓ} : {A : Type ℓ} → List A → List A → Type ℓ
Extends {A = A} xs ys = (more : List A) × (ys ≡ xs ++ more)

-- No two signoffs of one instance by one actor.
unfoldable pub AreUnique : List Signoff → Type 0
AreUnique [] = Unit
AreUnique (s ∷ rows) = (any (same_signer s) rows ≡ false) × AreUnique rows

-- Signoffs are added at the end, each for an instance that its actor had not signed.
pub data Signs : List Signoff → List Signoff → Type 0 where
  unsigned : {rows : List Signoff} → Signs rows rows
  signed :
      {rows more : List Signoff} (s : Signoff)
      → any (same_signer s) rows ≡ false
      → Signs (rows ++ (s ∷ [])) more
      → Signs rows more

pub Signs-append : {old mid new : List Signoff} → Signs old mid → Signs mid new → Signs old new
Signs-append unsigned n = n
Signs-append (signed s new m) n = signed s new (Signs-append m n)

-- What one service call, or many, may do to the tables.
pub record Evolves (db db' : Db) : Type 0 where
  pub documents : AllMove db.documents db'.documents
  pub events : Extends db.events db'.events
  pub signoffs : Signs db.signoffs db'.signoffs
  pub routes : db'.routes ≡ db.routes
