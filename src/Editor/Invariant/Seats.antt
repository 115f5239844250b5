-- ===== src/Editor/Invariant/Seats.antt =====
-- The invariant under the changes of sessions: a lease that is extended, and sessions that are closed
-- with the pointers to them.
use metal_docs.Prelude.{
  ℕ, String, ◌≡◌, refl, sym, ap, Bool, true, false, ◌⊎◌, inl, inr, Option, none, some,
}
use mathlib.Core.Path.{subst}
use mathlib.Core.Option.{some-injective}
use metal_docs.Prelude.Lists.{update_where, All, All-imp}
use metal_docs.Prelude.Rows.{All-update_where, All-both, map-update_where, Names}
use metal_docs.Editor.Tables.{Document, Session, Tables, is_active}
use metal_docs.Editor.Documents.{set_sessions}
use metal_docs.Editor.Sessions.{clear_pointers}
use metal_docs.Editor.Invariant.{head_of, Agrees, IsRooted, IsConsistent, session_key}

-- A change of sessions that keeps what the invariant reads.
pub IsConsistent-extend :
    (p : Session → Bool) (f : Session → Session) (t : Tables)
    → ((s : Session) → f s ≡ record s { expires_at = (f s).expires_at })
    → IsConsistent t
    → IsConsistent (set_sessions p f t)
IsConsistent-extend p f t same c = record {
  documents = c.documents;
  sessions =
      rw
        (map-update_where (λ (s : Session). s.id) p f t.sessions
          (λ s. ap (λ (s : Session). s.id) (same s)))
        c.sessions;
  bound =
      subst (λ keys. All (λ p. Names keys p.session_id p.document_id) t.pending_uploads)
        (sym (map-update_where session_key p f t.sessions (λ s. ap session_key (same s)))) c.bound;
  rooted = c.rooted;
  kept = c.kept;
  agreed =
      All-imp _ _ t.documents
        (λ d h.
          All-update_where (Agrees (head_of d)) (Agrees (head_of d)) p f t.sessions
            (λ s hit a. subst (Agrees (head_of d)) (sym (same s)) a) (λ s miss a. a) h)
        c.agreed;
}

abbrev pub points_into : (String → Bool) → Document → Bool
points_into is_closed d = elim d.active_session_id [ none ↦ false | some id ↦ is_closed id ]

-- What of a session survives when the sessions `p` are closed and the pointers into `is_closed` are
-- cleared.
abbrev pub IsApart : (Session → Bool) → (String → Bool) → Session → Type 0
IsApart p is_closed s = (is_active s ≡ false) ⊎ (p s ≡ true) ⊎ (is_closed s.id ≡ false)

module _ (p : Session → Bool) (f : Session → Session) (is_closed : String → Bool) where
  points_to_closed :
      (o : Option String) {id : String}
      → elim o as (λ _. Bool) [ none ↦ false | some id ↦ is_closed id ] ≡ true
      → o ≡ some id
      → is_closed id ≡ true
  points_to_closed none h e = cc
  points_to_closed (some i) h e = subst (λ i. is_closed i ≡ true) (some-injective _ _ e) h

  cleared :
      (now : ℕ) (d : Document) (s : Session)
      → points_into is_closed d ≡ true
      → p s ≡ false
      → IsApart p is_closed s
      → Agrees (head_of d) s
      → Agrees (head_of (record d { active_session_id = none; updated_at = now })) s
  cleared now d s hit miss apart (inl idle) = inl idle
  cleared now d s hit miss apart (inr (inl away)) = inr (inl away)
  cleared now d s hit miss (inl idle) (inr (inr (seat, _))) = inl idle
  cleared now d s hit miss (inr (inl closed)) (inr (inr (seat, _))) = cc
  cleared now d s hit miss (inr (inr kept)) (inr (inr (seat, _))) =
      let gone = points_to_closed d.active_session_id hit seat in cc

  pub IsConsistent-close :
      (now : ℕ) (t : Tables)
      → ((s : Session) → is_active (f s) ≡ false)
      → ((s : Session) → (f s).id ≡ s.id)
      → ((s : Session) → (f s).document_id ≡ s.document_id)
      → All (IsApart p is_closed) t.sessions
      → IsConsistent t
      → IsConsistent (clear_pointers now is_closed (set_sessions p f t))
  IsConsistent-close now t closes same_id same_document apart c = record {
    documents =
        rw
          (map-update_where (λ (d : Document). d.id) (points_into is_closed)
            (λ d. record d { active_session_id = none; updated_at = now }) t.documents (λ d. refl))
          c.documents;
    sessions = rw (map-update_where (λ (s : Session). s.id) p f t.sessions same_id) c.sessions;
    bound =
        subst (λ keys. All (λ p. Names keys p.session_id p.document_id) t.pending_uploads)
          (sym (
            map-update_where session_key p f t.sessions
              (λ s. rw (same_id s, same_document s) refl)))
          c.bound;
    rooted =
        All-update_where (λ d. IsRooted t.revisions (head_of d))
          (λ d. IsRooted t.revisions (head_of d)) (points_into is_closed) _ t.documents
          (λ d hit h. h) (λ d miss h. h) c.rooted;
    kept = c.kept;
    agreed =
        All-update_where (λ d. All (Agrees (head_of d)) t.sessions)
          (λ d. All (Agrees (head_of d)) (update_where p f t.sessions)) (points_into is_closed) _
          t.documents
          (λ d hit h.
            All-update_where (λ s. IsApart p is_closed s × Agrees (head_of d) s) _ p f t.sessions
              (λ s hit _. inl (closes s)) (λ s miss a. cleared now d s hit miss a.0 a.1)
              (All-both _ _ _ t.sessions (λ s a b. (a, b)) apart h))
          (λ d miss h.
            All-update_where (Agrees (head_of d)) _ p f t.sessions (λ s hit _. inl (closes s))
              (λ s miss a. a) h)
          c.agreed;
  }
