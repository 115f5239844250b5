-- ===== src/Editor/Invariant/Moves.antt =====
-- The invariant when a commit moves a document and its session to a new revision.
use metal_docs.Prelude.{String, ◌≡◌, refl, sym, ◌∙◌, Bool, true, false, ◌⊎◌, inl, inr, some}
use mathlib.Core.Path.{subst}
use mathlib.Core.Option.{some-injective}
use metal_docs.Prelude.Tests.{if◌then◌else◌}
use metal_docs.Prelude.Text.{str_eq, str_eq_iff, str_eq-sym, str_eq-clash}
use metal_docs.Prelude.Lists.{find_if, find_if-holds, All}
use metal_docs.Prelude.Rows.{
  All-update_where, All-both, All-find_if, map-update_where, Names, All-map,
}
use metal_docs.Prelude.Sql.{Env}
use metal_docs.Editor.Tables.{Document, Session, PendingUpload, Tables, is_active}
use metal_docs.Editor.Uploads.{CommitResult, is_upload, revision_of_upload}
use metal_docs.Editor.Effects.Uploads.{MayWrite, IsCommitted, committed}
use metal_docs.Editor.Invariant.{
  Head, head_of, Agrees, IsRooted, IsBoundIn, IsConsistent, session_key, revision_keys,
}
use metal_docs.Editor.Invariant.Growth.{Names-own, IsRooted-grow, kept-grow}

-- How a document and a session agree after both have moved to the new revision.
moved :
    (h : Head) (s s0 : Session) (doc session rev : String) (is_doc is_session : Bool)
    → str_eq h.document doc ≡ is_doc
    → str_eq s.id session ≡ is_session
    → s0.id ≡ session
    → is_active s0 ≡ true
    → s0.document_id ≡ doc
    → (str_eq s.id session ≡ false) ⊎ (s.document_id ≡ doc)
    → Agrees h s0
    → Agrees h s
    → Agrees
        (if is_doc then record h { revision = some rev } else h)
        (if is_session then record s { last_acknowledged_revision_id = rev } else s)
moved h s s0 doc session rev true true d e is0 alive0 on0 bound a0 (inl idle) = inl idle
moved h s s0 doc session rev true true d e is0 alive0 on0 bound a0 (inr (inl away)) = inr (inl away)
moved h s s0 doc session rev true true d e is0 alive0 on0 bound a0 (inr (inr (seat, _))) =
    inr (inr (seat, refl))
moved h s s0 doc session rev true false d e is0 alive0 on0 bound a0 (inl idle) = inl idle
moved h s s0 doc session rev true false d e is0 alive0 on0 bound a0 (inr (inl away)) =
    inr (inl away)
moved h s s0 doc session rev true false d e is0 alive0 on0 bound (inl idle0) (inr (inr (seat, _))) =
    cc
moved h s s0 doc session rev true false d e is0 alive0 on0 bound (inr (inl away0))
      (inr (inr (seat, _))) =
    str_eq-clash s0.document_id h.document (on0 ∙ sym ((str_eq_iff h.document doc).0 d)) away0
moved h s s0 doc session rev true false d e is0 alive0 on0 bound (inr (inr (seat0, _)))
      (inr (inr (seat, _))) =
    str_eq-clash s.id session (some-injective _ _ (sym seat ∙ seat0) ∙ is0) e
moved h s s0 doc session rev false true d e is0 alive0 on0 bound a0 (inl idle) = inl idle
moved h s s0 doc session rev false true d e is0 alive0 on0 bound a0 (inr (inl away)) =
    inr (inl away)
moved h s s0 doc session rev false true d e is0 alive0 on0 (inl other) a0 (inr (inr held)) = cc
moved h s s0 doc session rev false true d e is0 alive0 on0 (inr on) a0 (inr (inr held)) =
    inr (inl (rw on (str_eq-sym h.document doc d)))
moved h s s0 doc session rev false false d e is0 alive0 on0 bound a0 a = a

-- The session of an upload is on the upload's document.
pub on_document :
    (t : Tables) (p : PendingUpload) (user base : String) (s : Session)
    → IsBoundIn t.sessions p
    → MayWrite p.session_id user base t s
    → (s.id ≡ p.session_id) × (s.document_id ≡ p.document_id)
on_document t p user base s bound w =
    let is0 =
      (str_eq_iff s.id p.session_id).0
        (find_if-holds (λ (s : Session). str_eq s.id p.session_id) t.sessions w.found) in
    (
      is0,
      elim (All-find_if _ _ t.sessions (All-map _ session_key t.sessions bound.1) w.found) [
        | inl other ↦ str_eq-clash s.id p.session_id is0 other
        | inr on ↦ on
      ],
    )

pub IsConsistent-commit :
    (env : Env) (user hash form : String) (p : PendingUpload) (t : Tables) (a : CommitResult)
    (after : Tables)
    → find_if (is_upload p.id) t.pending_uploads ≡ some p
    → IsCommitted env user hash form p t a after
    → IsConsistent t
    → IsConsistent after
IsConsistent-commit env user hash form p t a after there ic c =
    let bound : IsBoundIn t.sessions p = All-find_if _ _ t.pending_uploads c.bound there in
    let w = ic.writer in
    let (is0, on0) = on_document t p user p.base_revision_id ic.session bound w in
    let rev = revision_of_upload env p form in
    let n = t.next_revision_num in
    let of_document = λ (d : Document). str_eq d.id p.document_id in
    let set_head = λ (d : Document). record d {
      current_revision_id = some (env.uuid 0);
      form_data_json = form;
      updated_at = env.now;
    } in
    let of_session = λ (s : Session). str_eq s.id p.session_id in
    let set_ack = λ (s : Session). record s { last_acknowledged_revision_id = env.uuid 0 } in
    let where_bound = All-map _ session_key t.sessions bound.1 in
    subst IsConsistent (sym ic.tables) (record {
      documents =
          rw
            (map-update_where (λ (d : Document). d.id) of_document set_head t.documents (λ d. refl))
            c.documents;
      sessions =
          rw (map-update_where (λ (s : Session). s.id) of_session set_ack t.sessions (λ s. refl))
            c.sessions;
      bound =
          subst
            (λ keys.
              All (λ (p : PendingUpload). Names keys p.session_id p.document_id)
                (committed env p form t).pending_uploads)
            (sym (map-update_where session_key of_session set_ack t.sessions (λ s. refl)))
            (All-update_where (IsBoundIn t.sessions) (IsBoundIn t.sessions) (is_upload p.id)
              (λ p. record p { consumed_at = some env.now }) t.pending_uploads (λ q hit h. h)
              (λ q miss h. h) c.bound);
      rooted =
          All-update_where (λ d. IsRooted t.revisions (head_of d)) _ of_document set_head
            t.documents
            (λ d hit h. inr (
              env.uuid 0,
              refl,
              subst (λ i. Names (revision_keys (committed env p form t).revisions) (env.uuid 0) i)
                  (sym ((str_eq_iff d.id p.document_id).0 hit))
                  (Names-own t.revisions rev n ic.fresh),
            ))
            (λ d miss h. IsRooted-grow t.revisions rev n (head_of d) ic.fresh h) c.rooted;
      kept = kept-grow t.revisions rev n t.checkpoints ic.fresh c.kept;
      agreed =
          All-update_where (λ d. All (Agrees (head_of d)) t.sessions) _ of_document set_head
            t.documents
            (λ d hit h.
              let a0 = All-find_if (Agrees (head_of d)) _ t.sessions h w.found in
              All-update_where
                (λ s.
                  ((str_eq s.id p.session_id ≡ false) ⊎ (s.document_id ≡ p.document_id))
                  × Agrees (head_of d) s)
                _ of_session set_ack t.sessions
                (λ s picked b.
                  moved (head_of d) s ic.session p.document_id p.session_id (env.uuid 0) true true
                    hit picked is0 w.alive on0 b.0 a0 b.1)
                (λ s passed b.
                  moved (head_of d) s ic.session p.document_id p.session_id (env.uuid 0) true false
                    hit passed is0 w.alive on0 b.0 a0 b.1)
                (All-both _ _ _ t.sessions (λ s x y. (x, y)) where_bound h))
            (λ d miss h.
              let a0 = All-find_if (Agrees (head_of d)) _ t.sessions h w.found in
              All-update_where
                (λ s.
                  ((str_eq s.id p.session_id ≡ false) ⊎ (s.document_id ≡ p.document_id))
                  × Agrees (head_of d) s)
                _ of_session set_ack t.sessions
                (λ s picked b.
                  moved (head_of d) s ic.session p.document_id p.session_id (env.uuid 0) false true
                    miss picked is0 w.alive on0 b.0 a0 b.1)
                (λ s passed b. b.1) (All-both _ _ _ t.sessions (λ s x y. (x, y)) where_bound h))
            c.agreed;
    })
