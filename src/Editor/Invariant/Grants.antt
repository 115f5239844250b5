-- ===== src/Editor/Invariant/Grants.antt =====
-- The invariant when a document is taken, and when a document is made with its first session.
use metal_docs.Prelude.{
  String, ◌≡◌, refl, sym, ap, ◌∙◌, true, false, ◌⊎◌, inl, inr, Option, none, some, List, [], ◌∷◌,
  ◌++◌,
}
use mathlib.Core.Path.{subst}
use metal_docs.Prelude.Tests.{Bool-cases, both, neither}
use metal_docs.Prelude.Text.{str_eq, str_eq_iff, str_eq-sym, str_eq-clash}
use metal_docs.Prelude.Lists.{any, find_if-holds, All, All-imp}
use metal_docs.Prelude.Rows.{
  AreDistinct, AreDistinct-snoc, All-update_where, All-both, All-snoc, any-false, any_none, any-map,
  map-update_where, map-snoc, find_if-only, Names-snoc,
}
use metal_docs.Prelude.Sql.{Env}
use metal_docs.Editor.Tables.{Document, Session, PendingUpload, Tables, is_active}
use metal_docs.Editor.Documents.{coalesce, new_session, session_conflict, is_document}
use metal_docs.Editor.Sessions.{Acquired}
use metal_docs.Editor.Leases.Effects.{IsOpened}
use metal_docs.Editor.Invariant.{
  Head, head_of, Agrees, IsRooted, IsBoundIn, IsConsistent, session_key, session_keys, session_ids,
}

-- A session that does not stand in the way of a new one has another identifier, and is idle or on
-- another document.
abbrev pub IsClear : Session → Session → Type 0
IsClear new s =
    (str_eq s.id new.id ≡ false)
    × ((is_active s ≡ false) ⊎ (str_eq s.document_id new.document_id ≡ false))

pub IsClear-of :
    (new : Session) (rows : List Session)
    → is_active new ≡ true
    → any (session_conflict new) rows ≡ false
    → All (IsClear new) rows
IsClear-of new rows live h = All-imp _ _ rows split (any-false (session_conflict new) rows h)
  where
    split : (s : Session) → session_conflict new s ≡ false → IsClear new s
    split s e =
        let (id, rest) = neither (str_eq s.id new.id) _ e in
        (
          id,
          elim (Bool-cases (str_eq s.document_id new.document_id)) [
            | inr away ↦ inr away
            | inl on ↦ elim (Bool-cases (is_active s)) [ inr idle ↦ inl idle | inl alive ↦ cc ]
          ],
        )

pub session_ids-snoc :
    (new : Session) (rows : List Session)
    → All (IsClear new) rows
    → AreDistinct (session_ids rows)
    → AreDistinct (session_ids (rows ++ (new ∷ [])))
session_ids-snoc new rows clear d = rw (map-snoc (λ (s : Session). s.id) rows new) (
    AreDistinct-snoc (session_ids rows) new.id
      (any-map (λ (s : Session). s.id) (λ i. str_eq i new.id) rows
        ∙ any_none _ rows (All-imp _ _ rows (λ s k. k.0) clear))
      d)

pub bound-snoc :
    (new : Session) (rows : List Session) (uploads : List PendingUpload)
    → All (IsClear new) rows
    → All (IsBoundIn rows) uploads
    → All (IsBoundIn (rows ++ (new ∷ []))) uploads
bound-snoc new rows uploads clear = All-imp _ _ uploads (λ p h. rw (map-snoc session_key rows new) (
    Names-snoc (session_keys rows) new.id p.session_id p.document_id new.document_id
      (any-map session_key (λ k. str_eq k.0 new.id) rows
        ∙ any_none _ rows (All-imp _ _ rows (λ s k. k.0) clear))
      h))

-- The other sessions say nothing against the new holder.
pub Agrees-with_others :
    (new : Session) (h : Head) (rows : List Session)
    → h.document ≡ new.document_id
    → All (IsClear new) rows
    → All (Agrees h) rows
Agrees-with_others new h rows same = All-imp _ _ rows (λ s k. elim (k.1) [
  | inl idle ↦ inl idle
  | inr away ↦ inr (inl (subst (λ d. str_eq s.document_id d ≡ false) (sym same) away))
])

-- A head that is not the empty text is the document's.
coalesced : (head : Option String) → str_eq (coalesce head) "" ≡ false → head ≡ some (coalesce head)
coalesced none h = str_eq-clash "" "" refl h
coalesced (some head) h = refl

at_head :
    (d d0 : Document)
    → str_eq (coalesce d0.current_revision_id) "" ≡ false
    → d ≡ d0
    → d.current_revision_id ≡ some (coalesce d0.current_revision_id)
at_head d d0 h e =
    ap (λ (d : Document). d.current_revision_id) e ∙ coalesced d0.current_revision_id h

pub IsConsistent-open :
    (env : Env) (tenant doc user : String) (t : Tables) {a : Acquired} {after : Tables}
    → IsOpened env tenant doc user t a after
    → IsConsistent t
    → IsConsistent after
IsConsistent-open env tenant doc user t o c =
    let d0 = o.document in
    let ack = coalesce d0.current_revision_id in
    let new = new_session env 0 doc user ack in
    let clear = IsClear-of new t.sessions refl o.fresh in
    let is_doc =
      (str_eq_iff d0.id doc).0
        (both _ _ (find_if-holds (is_document tenant doc) t.documents o.found)).0 in
    let only =
      find_if-only (λ (d : Document). d.id) (is_document tenant doc) t.documents c.documents
        o.found in
    rw o.tables (record {
      documents =
          rw
            (map-update_where (λ (d : Document). d.id) (λ d. str_eq d.id doc)
              (λ d. record d { active_session_id = some new.id; updated_at = env.now }) t.documents
              (λ d. refl))
            c.documents;
      sessions = session_ids-snoc new t.sessions clear c.sessions;
      bound = bound-snoc new t.sessions t.pending_uploads clear c.bound;
      rooted =
          All-update_where (λ d. IsRooted t.revisions (head_of d))
            (λ d. IsRooted t.revisions (head_of d)) _ _ t.documents (λ d hit h. h) (λ d miss h. h)
            c.rooted;
      kept = c.kept;
      agreed =
          All-update_where
            (λ d. ((str_eq d.id d0.id ≡ false) ⊎ (d ≡ d0)) × All (Agrees (head_of d)) t.sessions)
            (λ d. All (Agrees (head_of d)) (t.sessions ++ (new ∷ []))) _ _ t.documents
            (λ d hit h.
              let same = (str_eq_iff d.id doc).0 hit in
              All-snoc _ t.sessions new
                (Agrees-with_others new (record (head_of d) { session = some new.id }) t.sessions
                  same clear)
                (inr (
                  inr (
                    refl,
                    at_head d d0 o.headed (elim (h.0) [
                      | inl other ↦ str_eq-clash d.id d0.id (same ∙ sym is_doc) other
                      | inr is ↦ is
                    ]),
                  ))))
            (λ d miss h. All-snoc _ t.sessions new h.1 (inr (inl (str_eq-sym d.id doc miss))))
            (All-both _ _ _ t.documents (λ d a b. (a, b)) only c.agreed);
    })
