-- ===== src/Editor/Invariant/Growth.antt =====
-- The invariant when a revision is added: by the creation of a document and by a commit.
use metal_docs.Prelude.{ℕ, String, ◌≡◌, refl, sym, ◌∙◌, false, inl, inr, some, List, [], ◌∷◌, ◌++◌}
use mathlib.Core.Path.{subst}
use metal_docs.Prelude.Tests.{neither}
use metal_docs.Prelude.Text.{str_eq, str_eq-sym, str_eq_refl}
use metal_docs.Prelude.Lists.{any, All, All-imp}
use metal_docs.Prelude.Rows.{
  AreDistinct, AreDistinct-snoc, All-both, All-snoc, any-false, any_none, any-map, map-snoc, Names,
  Names-snoc, Names-new, update_where-last,
}
use metal_docs.Prelude.Sql.{Env}
use metal_docs.Editor.Tables.{Document, Session, Revision, Checkpoint, Tables}
use metal_docs.Editor.Documents.{
  new_session, revision_conflict, new_document, first_revision, append_revision, nil_uuid,
}
use metal_docs.Editor.Effects.{IsCreated, created}
use metal_docs.Editor.Invariant.{
  Head, head_of, IsRooted, IsKeptIn, IsConsistent, revision_key, revision_keys, document_ids,
}
use metal_docs.Editor.Invariant.Grants.{
  IsClear, IsClear-of, session_ids-snoc, bound-snoc, Agrees-with_others,
}

-- A revision that meets no constraint has a new identifier.
fresh_key :
    (new : Revision) (rows : List Revision)
    → any (revision_conflict new) rows ≡ false
    → any (λ k. str_eq k.0 new.id) (revision_keys rows) ≡ false
fresh_key new rows h =
    any-map revision_key (λ k. str_eq k.0 new.id) rows
    ∙ any_none _ rows
        (All-imp _ _ rows (λ r e. (neither (str_eq r.id new.id) _ e).0) (any-false _ rows h))

Names-grow :
    (rows : List Revision) (new : Revision) (n : ℕ) (id owner : String)
    → any (revision_conflict new) rows ≡ false
    → Names (revision_keys rows) id owner
    → Names (revision_keys (rows ++ (record new { revision_num = n } ∷ []))) id owner
Names-grow rows new n id owner fresh h =
    subst (λ keys. Names keys id owner)
      (sym (map-snoc revision_key rows (record new { revision_num = n })))
      (Names-snoc (revision_keys rows) new.id id owner new.document_id (fresh_key new rows fresh) h)

pub Names-own :
    (rows : List Revision) (new : Revision) (n : ℕ)
    → any (revision_conflict new) rows ≡ false
    → Names (revision_keys (rows ++ (record new { revision_num = n } ∷ []))) new.id new.document_id
Names-own rows new n fresh =
    subst (λ keys. Names keys new.id new.document_id)
      (sym (map-snoc revision_key rows (record new { revision_num = n })))
      (Names-new (revision_keys rows) new.id new.document_id (fresh_key new rows fresh))

pub IsRooted-grow :
    (rows : List Revision) (new : Revision) (n : ℕ) (h : Head)
    → any (revision_conflict new) rows ≡ false
    → IsRooted rows h
    → IsRooted (rows ++ (record new { revision_num = n } ∷ [])) h
IsRooted-grow rows new n h fresh (inl none_yet) = inl none_yet
IsRooted-grow rows new n h fresh (inr (id, at, names)) =
    inr (id, at, Names-grow rows new n id h.document fresh names)

pub kept-grow :
    (rows : List Revision) (new : Revision) (n : ℕ) (cps : List Checkpoint)
    → any (revision_conflict new) rows ≡ false
    → All (IsKeptIn rows) cps
    → All (IsKeptIn (rows ++ (record new { revision_num = n } ∷ []))) cps
kept-grow rows new n cps fresh =
    All-imp _ _ cps (λ c h. Names-grow rows new n c.revision_id c.document_id fresh h)

-- The new document, and its session once it has seen the first revision.
abbrev pub first_document : Env → Document → Document
first_document env d = record (new_document env d) {
  current_revision_id = some (env.uuid 2);
  active_session_id = some (env.uuid 1);
  updated_at = env.now;
}

abbrev pub first_session : Env → Document → Session
first_session env d = record (new_session env 1 (env.uuid 0) d.created_by nil_uuid) {
  last_acknowledged_revision_id = env.uuid 2;
}

-- The updates of `CreateDocument` reach the new rows only.
created_rows :
    (env : Env) (d : Document) (hash : String) (t : Tables)
    → All (λ (row : Document). str_eq row.id (env.uuid 0) ≡ false) t.documents
    → All (λ (s : Session). str_eq s.id (env.uuid 1) ≡ false) t.sessions
    → created env d hash t
      ≡ append_revision (first_revision env d hash) (record t {
        documents = t.documents ++ (first_document env d ∷ []);
        sessions = t.sessions ++ (first_session env d ∷ []);
      })
created_rows env d hash t docs sessions =
    rw
      (
        update_where-last (λ (row : Document). str_eq row.id (env.uuid 0))
            (λ d. record d {
              current_revision_id = some (env.uuid 2);
              active_session_id = some (env.uuid 1);
              updated_at = env.now;
            })
            t.documents (new_document env d) docs (str_eq_refl (env.uuid 0)),
        update_where-last (λ (s : Session). str_eq s.id (env.uuid 1))
            (λ s. record s { last_acknowledged_revision_id = env.uuid 2 }) t.sessions
            (new_session env 1 (env.uuid 0) d.created_by nil_uuid) sessions
            (str_eq_refl (env.uuid 1)),
      )
      refl

pub IsConsistent-create :
    (env : Env) (d : Document) (hash : String) (t after : Tables)
    → IsCreated env d hash t after
    → IsConsistent t
    → IsConsistent after
IsConsistent-create env d hash t after ic c =
    let clear : All (IsClear (first_session env d)) t.sessions =
      IsClear-of (new_session env 1 (env.uuid 0) d.created_by nil_uuid) t.sessions refl
        ic.fresh_session in
    let others =
      any-false (λ (row : Document). str_eq row.id (env.uuid 0)) t.documents ic.fresh_document in
    let rev = first_revision env d hash in
    subst IsConsistent
      (sym
        (ic.tables ∙ created_rows env d hash t others (All-imp _ _ t.sessions (λ s k. k.0) clear)))
      (record {
        documents =
            subst AreDistinct
              (sym (map-snoc (λ (d : Document). d.id) t.documents (first_document env d)))
              (AreDistinct-snoc (document_ids t.documents) (env.uuid 0)
                (any-map (λ (d : Document). d.id) (λ i. str_eq i (env.uuid 0)) t.documents
                  ∙ ic.fresh_document)
                c.documents);
        sessions = session_ids-snoc (first_session env d) t.sessions clear c.sessions;
        bound = bound-snoc (first_session env d) t.sessions t.pending_uploads clear c.bound;
        rooted =
            All-snoc _ t.documents (first_document env d)
              (All-imp _ _ t.documents
                (λ d h.
                  IsRooted-grow t.revisions rev t.next_revision_num (head_of d) ic.fresh_revision h)
                c.rooted)
              (inr (
                env.uuid 2,
                refl,
                Names-own t.revisions rev t.next_revision_num ic.fresh_revision,
              ));
        kept = kept-grow t.revisions rev t.next_revision_num t.checkpoints ic.fresh_revision c.kept;
        agreed =
            All-snoc _ t.documents (first_document env d)
              (All-both _ _ _ t.documents
                (λ old other h.
                  All-snoc _ t.sessions (first_session env d) h
                    (inr (inl (str_eq-sym old.id (env.uuid 0) other))))
                others c.agreed)
              (All-snoc _ t.sessions (first_session env d)
                (Agrees-with_others (first_session env d) (head_of (first_document env d))
                  t.sessions refl clear)
                (inr (inr (refl, refl))));
      })
