-- ===== src/Editor/Restores.antt =====
-- What `RestoreCheckpoint` does: the revision of a checkpoint is a row of the same document, so the
-- INSERT always meets it.
use metal_docs.Prelude.{
  ℕ, String, ◌≡◌, refl, sym, ap, ◌∙◌, Bool, true, false, inl, inr, Option, none, some, List, [],
  ◌∷◌,
}
use mathlib.Core.Path.{subst}
use metal_docs.Prelude.Tests.{if◌then◌else◌, Bool-cases, both}
use metal_docs.Prelude.Text.{str_eq, str_eq_iff, str_eq_refl, str_eq-clash}
use metal_docs.Prelude.Lists.{find_if, find_if-holds, All}
use metal_docs.Prelude.Rows.{All-find_if, All-map}
use metal_docs.Prelude.Result.{ok}
use metal_docs.Prelude.Sql.{Env}
use metal_docs.Editor.Tables.{Revision, Checkpoint, Tables}
use metal_docs.Editor.Documents.{same_content}
use metal_docs.Editor.Checkpoints.{
  RestoreResult, join_revision, checkpoint_revision, is_checkpoint, restore_checkpoint,
}
use metal_docs.Editor.Effects.Checkpoints.{restore_checkpoint-ok}
use metal_docs.Editor.Invariant.{IsKeptIn, IsConsistent, revision_key}

-- A search that some row answers finds one.
find_if-none :
    {A : Type 0} (p : A → Bool) (rows : List A)
    → find_if p rows ≡ none
    → All (λ x. p x ≡ false) rows
find_if-none p [] h = tt
find_if-none p (x ∷ rows) h = elim (Bool-cases (p x)) [
  | inl hit ↦ cc
  | inr miss ↦
      (miss, find_if-none p rows (ap (λ b. if b then some x else find_if p rows) (sym miss) ∙ h))
]

joined_row :
    (rows : List Revision) (doc : String) (version : ℕ) (o : Option Checkpoint) {r : Revision}
    → ((c : Checkpoint) → o ≡ some c → IsKeptIn rows c × (c.document_id ≡ doc))
    → join_revision rows o ≡ some r
    → (find_if (λ (row : Revision). str_eq row.id r.id) rows ≡ some r) × (r.document_id ≡ doc)
joined_row rows doc version none facts h = cc
joined_row rows doc version (some c) {r} facts h =
    let (names, on) = facts c refl in
    let is_id =
      (str_eq_iff r.id c.revision_id).0
        (find_if-holds (λ (row : Revision). str_eq row.id c.revision_id) rows h) in
    (
      subst (λ i. find_if (λ (row : Revision). str_eq row.id i) rows ≡ some r) (sym is_id) h,
      elim (All-find_if _ _ rows (All-map _ revision_key rows names.1) h) [
        | inl other ↦ str_eq-clash r.id c.revision_id is_id other
        | inr owned ↦ owned ∙ on
      ],
    )

-- The row that a restore joins is one of the document.
checkpoint_revision-same_content :
    (doc : String) (version : ℕ) (t : Tables) {r : Revision}
    → IsConsistent t
    → checkpoint_revision doc version t ≡ some r
    → (find_if (λ (row : Revision). str_eq row.id r.id) t.revisions ≡ some r)
      × (same_content doc r.content_hash r ≡ true)
checkpoint_revision-same_content doc version t {r} c h =
    let (row, on) =
      joined_row t.revisions doc version (find_if (is_checkpoint doc version) t.checkpoints)
        (λ cp found. (
          All-find_if _ _ t.checkpoints c.kept found,
          (str_eq_iff cp.document_id doc).0
              (both _ _ (find_if-holds (is_checkpoint doc version) t.checkpoints found)).0,
        ))
        h in
    (row, rw (on, str_eq_refl doc, str_eq_refl r.content_hash) refl)

-- The INSERT of a restore never makes a row.
pub restore_meets_row :
    (doc : String) (version : ℕ) (t : Tables) {r : Revision} {C : Type 0}
    → IsConsistent t
    → checkpoint_revision doc version t ≡ some r
    → find_if (same_content doc r.content_hash) t.revisions ≡ none
    → C
restore_meets_row doc version t {r} c joined nothing =
    let (row, same) = checkpoint_revision-same_content doc version t c joined in
    let away : same_content doc r.content_hash r ≡ false =
      All-find_if _ _ t.revisions (find_if-none _ t.revisions nothing) row in
    cc

-- In consistent tables a successful `RestoreCheckpoint` reports `idempotent` and leaves every
-- document, session and revision as it was: also the head of the document, when the checkpoint is
-- of an older revision.
pub restore_checkpoint-idempotent :
    (env : Env) (doc actor : String) (version : ℕ) (t : Tables) {a : RestoreResult} {after : Tables}
    → IsConsistent t
    → restore_checkpoint env doc actor version t ≡ ok (a, after)
    → (a.idempotent ≡ true)
      × (after.documents ≡ t.documents)
      × (after.sessions ≡ t.sessions)
      × (after.revisions ≡ t.revisions)
restore_checkpoint-idempotent env doc actor version t c h =
    let r = restore_checkpoint-ok env doc actor version t h in
    elim r.outcome [
      | inl (row, found, value, tables) ↦ (
        ap (λ (a : RestoreResult). a.idempotent) value,
        ap (λ (t : Tables). t.documents) tables,
        ap (λ (t : Tables). t.sessions) tables,
        ap (λ (t : Tables). t.revisions) tables,
      )
      | inr (nothing, _, _) ↦ restore_meets_row doc version t c r.joined nothing
    ]
