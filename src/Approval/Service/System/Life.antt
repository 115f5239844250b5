-- ===== src/Approval/Service/System/Life.antt =====
-- What a sequence of calls of the services of approval/application can do to one document, and to
-- the signoffs.
use mathlib.Core.Path.{subst, subst⁻¹}
use mathlib.Core.Option.{some-injective}
use metal_docs.Prelude.{
  ℕ, zero, suc, ◌+◌, ◌≤◌, String, ◌≡◌, ◌++◌, ◌||◌, refl, sym, ◌∙◌, ◌⊎◌, inl, inr, Bool, true, false,
  Option, none, some, List, [], ◌∷◌, arith,
}
use metal_docs.Prelude.Text.{str_eq, str_eq_iff}
use metal_docs.Prelude.Lists.{any}
use metal_docs.Approval.Signoff.{Signoff}
use metal_docs.Approval.Store.Signing.{same_signer}
use metal_docs.Approval.State.{DocState, trigger_allows}
use metal_docs.Approval.State.Graph.{is_released, is_authoring}
use metal_docs.Approval.Store.Tables.{Document, thawed, Db}
use metal_docs.Approval.Service.History.{
  Moves, done, move, freeze, freeze-revision, freeze-status, Moves-le, AllMove, AreUnique, Signs,
  unsigned, signed,
}
use metal_docs.Approval.Service.System.{Call, perform_all, perform_all-Evolves}

-- The row at a position of a table.
unfoldable pub row_at : ℕ → List Document → Option Document
row_at i [] = none
row_at zero (d ∷ docs) = some d
row_at (suc i) (d ∷ docs) = row_at i docs

-- The row at a position after the calls, which `P` holds of.
pub record IsThere (i : ℕ) (docs : List Document) (P : Document → Type 0) : Type 0 where
  pub row : Document
  pub found : row_at i docs ≡ some row
  pub holds : P row

AllMove-row_at :
    (i : ℕ) (ds es : List Document) (d : Document)
    → AllMove ds es
    → row_at i ds ≡ some d
    → IsThere i es (Moves d)
unfolding AllMove row_at
AllMove-row_at i [] es d h e = cc
AllMove-row_at i (x ∷ ds) [] d h e = absurd h
AllMove-row_at zero (x ∷ ds) (y ∷ es) d h e = record {
  row = y;
  found = refl;
  holds = subst (λ z. Moves z y) (some-injective _ _ e) h.0;
}
AllMove-row_at (suc i) (x ∷ ds) (y ∷ es) d h e =
    let found = AllMove-row_at i ds es d h.1 e in
    record { row = found.row; found = found.found; holds = found.holds }

perform_all-row_at :
    (calls : List Call) (db : Db) (i : ℕ) (d : Document)
    → row_at i db.documents ≡ some d
    → IsThere i (perform_all calls db).documents (Moves d)
perform_all-row_at calls db i d e =
    AllMove-row_at i db.documents (perform_all calls db).documents d
      (perform_all-Evolves calls db).documents e

perform_all-Moves :
    (calls : List Call) (db : Db) (i : ℕ) (d e : Document)
    → row_at i db.documents ≡ some d
    → row_at i (perform_all calls db).documents ≡ some e
    → Moves d e
perform_all-Moves calls db i d e before after =
    let there = perform_all-row_at calls db i d before in
    subst (Moves d) (some-injective _ _ (sym there.found ∙ after)) there.holds

released_step :
    (c : Bool) (s t : DocState)
    → trigger_allows c s t ≡ true
    → is_released s ≡ true
    → is_released t ≡ true
unfolding trigger_allows
released_step c s t h r = ground arith

Moves-is_released :
    {d e : Document} → Moves d e → is_released d.status ≡ true → is_released e.status ≡ true
Moves-is_released done h = h
Moves-is_released (freeze s m) h =
    Moves-is_released m (subst⁻¹ (λ t. is_released t ≡ true) (freeze-status s) h)
Moves-is_released (move s m) h = Moves-is_released m (released_step s.c _ _ s.allowed h)

-- A document that is published, superseded or obsolete is so after any sequence of service calls.
pub perform_all-is_released :
    (calls : List Call) (db : Db) (i : ℕ) (d : Document)
    → row_at i db.documents ≡ some d
    → is_released d.status ≡ true
    → IsThere i (perform_all calls db).documents (λ e. is_released e.status ≡ true)
perform_all-is_released calls db i d e h =
    let there = perform_all-row_at calls db i d e in
    record { row = there.row; found = there.found; holds = Moves-is_released there.holds h }

Moves-revision :
    {d e : Document}
    → Moves d e
    → (thawed d ≡ thawed e) ⊎ (d.revision_version + 1 ≤ e.revision_version)
Moves-revision done = inl refl
Moves-revision (freeze s m) = elim (Moves-revision m) [
  | inl e ↦ inl (sym s.same ∙ e)
  | inr newer ↦ inr (omega (arith, freeze-revision s, newer))
]
Moves-revision (move s m) = inr (omega (arith, s.bumped, Moves-le m))

same_or_newer :
    {d e : Document} → Moves d e → e.revision_version ≡ d.revision_version → thawed d ≡ thawed e
same_or_newer m same = elim (Moves-revision m) [
  | inl e ↦ e
  | inr newer ↦ absurd (omega (arith, newer, same))
]

-- The revision guards a document: when a document has the same `revision_version` before and after
-- any sequence of service calls, it has the same keys, author, status, dates and areas too. Only the
-- four columns that a freeze writes can be others, since a freeze takes no revision.
pub perform_all-revision_version :
    (calls : List Call) (db : Db) (i : ℕ) (d e : Document)
    → row_at i db.documents ≡ some d
    → row_at i (perform_all calls db).documents ≡ some e
    → e.revision_version ≡ d.revision_version
    → thawed d ≡ thawed e
perform_all-revision_version calls db i d e before after same =
    same_or_newer (perform_all-Moves calls db i d e before after) same

authoring_step :
    (c : Bool) (s t : DocState)
    → trigger_allows c s t ≡ true
    → is_authoring s ≡ true
    → (is_authoring t ≡ true) ⊎ (is_released t ≡ false)
unfolding trigger_allows
authoring_step c s t h a = ground arith

Moves-release :
    {d e : Document}
    → Moves d e
    → is_released d.status ≡ false
    → is_released e.status ≡ true
    → d.revision_version + 1 ≤ e.revision_version
Moves-release done h r = cc
Moves-release (freeze s m) h r = omega (
  arith,
  freeze-revision s,
  Moves-release m (subst⁻¹ (λ t. is_released t ≡ false) (freeze-status s) h) r,
)
Moves-release (move s m) h r = omega (arith, s.bumped, Moves-le m)

not_both : (s : DocState) → is_authoring s ≡ true → is_released s ≡ true → ⊥
not_both s a r = ground arith

Moves-two :
    {d e : Document}
    → Moves d e
    → is_authoring d.status ≡ true
    → is_released e.status ≡ true
    → d.revision_version + 2 ≤ e.revision_version
Moves-two (done {d = d}) a r = absurd (not_both d.status a r)
Moves-two (freeze s m) a r = omega (
  arith,
  freeze-revision s,
  Moves-two m (subst⁻¹ (λ t. is_authoring t ≡ true) (freeze-status s) a) r,
)
Moves-two (move s m) a r = elim (authoring_step s.c _ _ s.allowed a) [
  | inl still ↦ omega (arith, s.bumped, Moves-two m still r)
  | inr off ↦ omega (arith, s.bumped, Moves-release m off r)
]

-- No sequence of service calls releases a document in one step: one that is in draft, under review
-- or rejected, and published, superseded or obsolete afterwards, has gone through at least two
-- updates, each with a revision of its own.
pub perform_all-release_takes_two :
    (calls : List Call) (db : Db) (i : ℕ) (d e : Document)
    → row_at i db.documents ≡ some d
    → row_at i (perform_all calls db).documents ≡ some e
    → is_authoring d.status ≡ true
    → is_released e.status ≡ true
    → d.revision_version + 2 ≤ e.revision_version
perform_all-release_takes_two calls db i d e before after a r =
    Moves-two (perform_all-Moves calls db i d e before after) a r

str_eq_comm : (a b : String) → str_eq a b ≡ str_eq b a
str_eq_comm a b = ground (arith, str_eq_iff a b, str_eq_iff b a)

same_signer_comm : (s t : Signoff) → same_signer s t ≡ same_signer t s
same_signer_comm s t = ground (
  arith,
  str_eq_comm s.approval_instance_id t.approval_instance_id,
  str_eq_comm s.actor_user_id t.actor_user_id,
)

any-add :
    {A : Type 0} (p : A → Bool) (xs : List A) (x : A) → any p (xs ++ (x ∷ [])) ≡ (any p xs || p x)
any-add p [] x = ground arith
any-add p (y ∷ xs) x = ground (arith, any-add p xs x)

AreUnique-add :
    (s : Signoff) (rows : List Signoff)
    → any (same_signer s) rows ≡ false
    → AreUnique rows
    → AreUnique (rows ++ (s ∷ []))
unfolding AreUnique
AreUnique-add s [] h u = (refl, tt)
AreUnique-add s (r ∷ rows) h u = (
  ground (arith, any-add (same_signer r) rows s, same_signer_comm s r, u.0),
  AreUnique-add s rows (ground arith) u.1,
)

Signs-AreUnique : {old new : List Signoff} → Signs old new → AreUnique old → AreUnique new
Signs-AreUnique unsigned u = u
Signs-AreUnique (signed {rows = rows} s fresh m) u =
    Signs-AreUnique m (AreUnique-add s rows fresh u)

-- If no actor has two signoffs in one instance, none has after any sequence of service calls.
pub perform_all-AreUnique :
    (calls : List Call) (db : Db)
    → AreUnique db.signoffs
    → AreUnique (perform_all calls db).signoffs
perform_all-AreUnique calls db u = Signs-AreUnique (perform_all-Evolves calls db).signoffs u
