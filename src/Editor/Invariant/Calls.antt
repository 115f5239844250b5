-- ===== src/Editor/Invariant/Calls.antt =====
-- Every call keeps the tables consistent.
use metal_docs.Prelude.{
  String, ◌≡◌, refl, sym, ap, ◌∙◌, Bool, true, false, ◌⊎◌, inl, inr, none, some, List, [], ◌∷◌,
}
use mathlib.Core.Path.{subst}
use mathlib.Core.Option.{some-injective}
use metal_docs.Prelude.Tests.{if◌then◌else◌, Bool-cases}
use metal_docs.Prelude.Text.{str_eq, str_eq_iff}
use metal_docs.Prelude.Lists.{any, find_if, find_if-holds, update_where, All, All-imp}
use metal_docs.Prelude.Rows.{
  All-update_where, All-keep_if, All-unmap, All-snoc, All-find_if, any-map, map-update_where,
  find_if-only, Names,
}
use metal_docs.Prelude.Sql.{Env}
use metal_docs.Editor.Tables.{Document, Session, Checkpoint, Tables}
use metal_docs.Editor.Documents.{lacks_key, set_documents}
use metal_docs.Editor.System.{Call, perform, perform_all}
use metal_docs.Editor.Effects.Uploads.{IsReserved}
use metal_docs.Editor.Effects.Checkpoints.{IsCheckpointed}
use metal_docs.Editor.Effects.Calls.{
  Effect, still, created, keyed, marked, opened, extended_by, released_by, forced, swept, reserved,
  committed, purged, checkpointed, restored, commented, perform-Effect,
}
use metal_docs.Editor.Invariant.{
  Head, head_of, Agrees, IsRooted, IsBoundIn, IsKeptIn, IsConsistent, session_key, session_keys,
  revision_key, revision_keys,
}
use metal_docs.Editor.Invariant.Seats.{IsConsistent-extend}
use metal_docs.Editor.Invariant.Closings.{
  IsConsistent-force, IsConsistent-release, IsConsistent-sweep,
}
use metal_docs.Editor.Invariant.Grants.{IsConsistent-open}
use metal_docs.Editor.Invariant.Growth.{IsConsistent-create}
use metal_docs.Editor.Invariant.Moves.{IsConsistent-commit}
use metal_docs.Editor.Restores.{restore_meets_row}

IsConsistent-mark :
    (p : Document → Bool) (f : Document → Document) (t : Tables)
    → ((d : Document) → head_of (f d) ≡ head_of d)
    → IsConsistent t
    → IsConsistent (set_documents p f t)
IsConsistent-mark p f t same c = record {
  documents =
      rw
        (map-update_where (λ (d : Document). d.id) p f t.documents
          (λ d. ap (λ (h : Head). h.document) (same d)))
        c.documents;
  sessions = c.sessions;
  bound = c.bound;
  rooted =
      All-update_where (λ d. IsRooted t.revisions (head_of d))
        (λ d. IsRooted t.revisions (head_of d)) p f t.documents
        (λ d hit h. subst (IsRooted t.revisions) (sym (same d)) h) (λ d miss h. h) c.rooted;
  kept = c.kept;
  agreed =
      All-update_where (λ d. All (Agrees (head_of d)) t.sessions)
        (λ d. All (Agrees (head_of d)) t.sessions) p f t.documents
        (λ d hit h. subst (λ h. All (Agrees h) t.sessions) (sym (same d)) h) (λ d miss h. h)
        c.agreed;
}

IsConsistent-key :
    (id key : String) (t : Tables)
    → IsConsistent t
    → IsConsistent (record t {
      revisions = update_where (lacks_key id) (λ r. record r { storage_key = key }) t.revisions;
    })
IsConsistent-key id key t c =
    let same =
      map-update_where revision_key (lacks_key id) (λ r. record r { storage_key = key }) t.revisions
        (λ r. refl) in
    record {
      documents = c.documents;
      sessions = c.sessions;
      bound = c.bound;
      rooted =
          subst
            (λ keys.
              All
                (λ (d : Document).
                  (d.current_revision_id ≡ none)
                  ⊎ ((id : String) × (d.current_revision_id ≡ some id) × Names keys id d.id))
                t.documents)
            (sym same) c.rooted;
      kept =
          subst
            (λ keys. All (λ (c : Checkpoint). Names keys c.revision_id c.document_id) t.checkpoints)
            (sym same) c.kept;
      agreed = c.agreed;
    }

-- A search that finds a row answers the test for one.
found-any :
    {A : Type 0} (p : A → Bool) (rows : List A) {x : A}
    → find_if p rows ≡ some x
    → any p rows ≡ true
found-any p [] h = cc
found-any p (y ∷ rows) h = elim (Bool-cases (p y)) [
  | inl hit ↦ rw hit refl
  | inr miss ↦
      rw miss (found-any p rows (ap (λ b. if b then some y else find_if p rows) (sym miss) ∙ h))
]

IsConsistent-reserve :
    (session user doc base : String) (t after : Tables)
    → IsReserved session user doc base t after
    → IsConsistent t
    → IsConsistent after
IsConsistent-reserve session user doc base t after r c = elim r.kept_or_new [
  | inl same ↦ subst IsConsistent (sym same) c
  | inr (p, is_session, is_doc, _, tables) ↦ subst IsConsistent (sym tables) (record {
    documents = c.documents;
    sessions = c.sessions;
    bound =
        All-snoc (IsBoundIn t.sessions) t.pending_uploads p c.bound (rw (is_session, is_doc) owned);
    rooted = c.rooted;
    kept = c.kept;
    agreed = c.agreed;
  })
]
  where
    named : r.session.id ≡ session
    named =
        (str_eq_iff r.session.id session).0
          (find_if-holds (λ (s : Session). str_eq s.id session) t.sessions r.writer.found)

    owned : Names (session_keys t.sessions) session doc
    owned = (
      any-map session_key (λ k. str_eq k.0 session) t.sessions
          ∙ found-any (λ (s : Session). str_eq s.id session) t.sessions r.writer.found,
      All-unmap _ session_key t.sessions (
          All-imp _ _ t.sessions
            (λ s only. elim only [
              | inl other ↦ inl (subst (λ i. str_eq s.id i ≡ false) named other)
              | inr same ↦ inr (ap (λ (s : Session). s.document_id) same ∙ r.document)
            ])
            (find_if-only (λ (s : Session). s.id) (λ (s : Session). str_eq s.id session) t.sessions
              c.sessions r.writer.found)),
    )

IsConsistent-checkpoint :
    (env : Env) (doc actor label : String) (t : Tables) (a : Checkpoint) (after : Tables)
    → IsCheckpointed env doc actor label t a after
    → IsConsistent t
    → IsConsistent after
IsConsistent-checkpoint env doc actor label t a after k c =
    let is_doc =
      (str_eq_iff k.document.id doc).0
        (find_if-holds (λ (d : Document). str_eq d.id doc) t.documents k.found) in
    subst IsConsistent (sym k.tables) (record {
      documents = c.documents;
      sessions = c.sessions;
      bound = c.bound;
      rooted = c.rooted;
      kept = All-snoc (IsKeptIn t.revisions) t.checkpoints a c.kept (
          subst (IsKeptIn t.revisions) (sym k.value) (
            subst (Names (revision_keys t.revisions) k.head) is_doc
              (at_head (All-find_if _ _ t.documents c.rooted k.found))));
      agreed = c.agreed;
    })
  where
    at_head :
        IsRooted t.revisions (head_of k.document)
        → Names (revision_keys t.revisions) k.head k.document.id
    at_head (inl nothing) = let there = k.at_head in cc
    at_head (inr (id, at, names)) =
        subst (λ i. Names (revision_keys t.revisions) i k.document.id)
          (some-injective _ _ (sym at ∙ k.at_head)) names

Effect-IsConsistent :
    (env : Env) (t after : Tables) → Effect env t after → IsConsistent t → IsConsistent after
Effect-IsConsistent env t after (still same) c = subst IsConsistent (sym same) c
Effect-IsConsistent env t after (created d hash e) c = IsConsistent-create env d hash t after e c
Effect-IsConsistent env t after (keyed id key e) c =
    subst IsConsistent (sym e) (IsConsistent-key id key t c)
Effect-IsConsistent env t after (marked p f same e) c =
    subst IsConsistent (sym e) (IsConsistent-mark p f t same c)
Effect-IsConsistent env t after (opened tenant doc user a e) c =
    IsConsistent-open env tenant doc user t e c
Effect-IsConsistent env t after (extended_by p e) c =
    subst IsConsistent (sym e) (IsConsistent-extend p _ t (λ s. refl) c)
Effect-IsConsistent env t after (released_by id user counted e) c =
    subst IsConsistent (sym e) (IsConsistent-release env.now id user t counted c)
Effect-IsConsistent env t after (forced id e) c =
    subst IsConsistent (sym e) (IsConsistent-force env.now id t c)
Effect-IsConsistent env t after (swept now e) c =
    subst IsConsistent (sym e) (IsConsistent-sweep env now t c)
Effect-IsConsistent env t after (reserved session user doc base e) c =
    IsConsistent-reserve session user doc base t after e c
Effect-IsConsistent env t after (committed user hash form p a there e) c =
    IsConsistent-commit env user hash form p t a after there e c
Effect-IsConsistent env t after (purged older e) c = subst IsConsistent (sym e) (record {
  documents = c.documents;
  sessions = c.sessions;
  bound = All-keep_if _ _ t.pending_uploads c.bound;
  rooted = c.rooted;
  kept = c.kept;
  agreed = c.agreed;
})
Effect-IsConsistent env t after (checkpointed doc actor label a e) c =
    IsConsistent-checkpoint env doc actor label t a after e c
Effect-IsConsistent env t after (restored doc actor version a e) c = elim e.outcome [
  | inl (_, _, _, tables) ↦ subst IsConsistent (sym tables) (record {
    documents = c.documents;
    sessions = c.sessions;
    bound = c.bound;
    rooted = c.rooted;
    kept = c.kept;
    agreed = c.agreed;
  })
  | inr (nothing, _, _) ↦ restore_meets_row doc version t c e.joined nothing
]
Effect-IsConsistent env t after (commented rows e) c = subst IsConsistent (sym e) (record {
  documents = c.documents;
  sessions = c.sessions;
  bound = c.bound;
  rooted = c.rooted;
  kept = c.kept;
  agreed = c.agreed;
})

-- Any sequence of calls keeps consistent tables consistent, whatever fails on the way: identifiers
-- stay unique, every upload belongs to its session's document, heads and checkpoints name revisions
-- of their own document, and every active session is the one its document points to and has seen
-- that document's head.
pub perform_all-IsConsistent :
    (calls : List (Env × Call)) (t : Tables) → IsConsistent t → IsConsistent (perform_all calls t)
unfolding perform_all
perform_all-IsConsistent [] t c = c
perform_all-IsConsistent ((env, call) ∷ calls) t c =
    perform_all-IsConsistent calls (perform env call t)
      (Effect-IsConsistent env t (perform env call t) (perform-Effect env call t) c)
