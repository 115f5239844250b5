-- ===== src/Editor/Commits.antt =====
-- What a commit of an upload (`CommitUpload`) means for the history of its document.
use metal_docs.Prelude.{
  ℕ, String, ◌≡◌, refl, sym, ap, ◌∙◌, true, false, not, ◌||◌, ◌⊎◌, inl, inr, some, [], ◌∷◌, ◌++◌,
}
use mathlib.Core.Path.{subst}
use metal_docs.Prelude.Tests.{Bool-cases, neither}
use metal_docs.Prelude.Text.{str_eq, str_eq_iff, str_eq_refl, str_eq-clash}
use metal_docs.Prelude.Lists.{find_if, find_if-holds, update_where, All, All-imp}
use metal_docs.Prelude.Rows.{
  All-update_where, All-find_if, All-unit, any-false, find_if-updated, find_if-snoc,
}
use metal_docs.Prelude.Result.{ok}
use metal_docs.Prelude.Committed.{query-passes, or_fail-passes, fail_if-passes}
use metal_docs.Prelude.Sql.{domain, no_rows, Env, ◌>>=◌, pure, fail_if, or_fail, query}
use metal_docs.Editor.Tables.{
  Document, Session, Revision, PendingUpload, Tables, Edit, misbound, pending_not_found,
}
use metal_docs.Editor.Documents.{same_content}
use metal_docs.Editor.Uploads.{
  CommitResult, is_upload, commit_upload, commit_or_replay, replay_upload, revision_of_upload,
}
use metal_docs.Editor.Effects.Uploads.{
  IsBound, MayWrite, IsCommitted, IsReplayed, committed, commit_upload-ok,
}
use metal_docs.Editor.Invariant.{head_of, Agrees, IsConsistent}
use metal_docs.Editor.Invariant.Moves.{on_document}

-- The document with the identifier has the revision as its head, and the session has seen it.
abbrev pub IsAt : String → String → Document → Type 0
IsAt doc_id rev d = (str_eq d.id doc_id ≡ false) ⊎ (d.current_revision_id ≡ some rev)

abbrev pub HasSeen : String → String → Session → Type 0
HasSeen session_id rev s =
    (str_eq s.id session_id ≡ false) ⊎ (s.last_acknowledged_revision_id ≡ rev)

-- A revision that follows the head of its document, and the document and its session at it.
pub record IsNextRevision (doc_id session_id : String) (t after : Tables) (r : Revision)
    : Type 0 where
  pub document : r.document_id ≡ doc_id
  pub number : r.revision_num ≡ t.next_revision_num
  pub appended : after.revisions ≡ t.revisions ++ (r ∷ [])
  pub parent :
      All
        (λ (d : Document).
          (str_eq d.id doc_id ≡ false) ⊎ (d.current_revision_id ≡ r.parent_revision_id))
        t.documents
  pub head : All (IsAt doc_id r.id) after.documents
  pub seen : All (HasSeen session_id r.id) after.sessions

-- The head of an active session's document is the revision that the session has seen.
seen_head :
    (t : Tables) (doc session user base : String) (s : Session)
    → IsConsistent t
    → MayWrite session user base t s
    → s.document_id ≡ doc
    → All
        (λ (d : Document). (str_eq d.id doc ≡ false) ⊎ (d.current_revision_id ≡ some base))
        t.documents
seen_head t doc session user base s c w on = All-imp _ _ t.documents at c.agreed
  where
    agreed :
        (d : Document)
        → Agrees (head_of d) s
        → (str_eq d.id doc ≡ false) ⊎ (d.current_revision_id ≡ some base)
    agreed d (inl idle) = let alive = w.alive in cc
    agreed d (inr (inl away)) = elim (Bool-cases (str_eq d.id doc)) [
      | inr other ↦ inl other
      | inl same ↦ str_eq-clash s.document_id d.id (on ∙ sym ((str_eq_iff d.id doc).0 same)) away
    ]
    agreed d (inr (inr (_, head))) = inr (head ∙ ap (λ i. some i) w.ack)

    at :
        (d : Document)
        → All (Agrees (head_of d)) t.sessions
        → (str_eq d.id doc ≡ false) ⊎ (d.current_revision_id ≡ some base)
    at d h = agreed d (All-find_if (Agrees (head_of d)) _ t.sessions h w.found)

-- In consistent tables, a commit that succeeds and is no replay appends one revision of the document
-- to the table, with the next number; its parent is the document's head, so no other commit is
-- lost, and the document and the session are at the new revision afterwards.
pub commit_upload-IsNextRevision :
    (env : Env) (session user doc id hash form : String) (t : Tables) {a : CommitResult}
    {after : Tables}
    → IsConsistent t
    → commit_upload env session user doc id hash form t ≡ ok (a, after)
    → a.already_consumed ≡ false
    → (r : Revision) × (a.revision_id ≡ r.id)
      × (r.content_hash ≡ hash)
      × IsNextRevision doc session t after r
commit_upload-IsNextRevision env session user doc id hash form t {a} {after} c h fresh =
    let (p, bound, cases) = commit_upload-ok env session user doc id hash form t h in
    elim cases [
      | inr (_, _, replayed) ↦
          let value = ap (λ (a : CommitResult). a.already_consumed) replayed.value in cc
      | inl (_, done) ↦ next p bound done
    ]
  where
    next :
        (p : PendingUpload)
        → IsBound session doc id t p
        → IsCommitted env user hash form p t a after
        → (r : Revision) × (a.revision_id ≡ r.id)
          × (r.content_hash ≡ hash)
          × IsNextRevision doc session t after r
    next p bound done =
        let there = All-find_if _ (is_upload id) t.pending_uploads c.bound bound.found in
        let (_, on) = on_document t p user p.base_revision_id done.session there done.writer in
        let heads =
          All-update_where (λ _. Unit {0}) (IsAt p.document_id (env.uuid 0))
            (λ (d : Document). str_eq d.id p.document_id)
            (λ d. record d {
              current_revision_id = some (env.uuid 0);
              form_data_json = form;
              updated_at = env.now;
            })
            t.documents (λ d hit _. inr refl) (λ d miss _. inl miss) (All-unit t.documents) in
        let acks =
          All-update_where (λ _. Unit {0}) (HasSeen p.session_id (env.uuid 0))
            (λ (s : Session). str_eq s.id p.session_id)
            (λ s. record s { last_acknowledged_revision_id = env.uuid 0 }) t.sessions
            (λ s hit _. inr refl) (λ s miss _. inl miss) (All-unit t.sessions) in
        (
          record (revision_of_upload env p form) { revision_num = t.next_revision_num },
          ap (λ (a : CommitResult). a.revision_id) done.value,
          sym done.hash,
          record {
            document = bound.document;
            number = refl;
            appended = ap (λ (t : Tables). t.revisions) done.tables;
            parent =
                subst
                  (λ i.
                    All
                      (λ (d : Document).
                        (str_eq d.id i ≡ false) ⊎ (d.current_revision_id ≡ some p.base_revision_id))
                      t.documents)
                  bound.document
                  (seen_head t p.document_id p.session_id user p.base_revision_id done.session c
                    done.writer on);
            head = rw (done.tables, sym bound.document) heads;
            seen = rw (done.tables, sym bound.session) acks;
          },
        )

-- What a replay finds.
replayed :
    (env : Env) (p : PendingUpload) (t : Tables) (r : Revision)
    → env.fails 2 ≡ false
    → find_if (same_content p.document_id p.content_hash) t.revisions ≡ some r
    → replay_upload env p t
      ≡ ok
          (record { revision_id = r.id; revision_num = r.revision_num; already_consumed = true }, t)
unfolding replay_upload ◌>>=◌ pure or_fail query
replayed env p t r works found =
    let answer : Revision → Edit CommitResult = λ r.
      pure
        (record { revision_id = r.id; revision_num = r.revision_num; already_consumed = true }) in
    let found_in =
      λ (t : Tables). find_if (same_content p.document_id p.content_hash) t.revisions in
    query-passes t env 2 found_in (λ o. or_fail o no_rows >>= answer) works
    ∙ or_fail-passes t (found_in t) no_rows answer found

-- `CommitUpload` on an upload that is found and was consumed.
consumed :
    (env : Env) (session user doc id hash form : String) (t : Tables) (p : PendingUpload) (at : ℕ)
    (r : Revision)
    → env.fails 1 ≡ false
    → env.fails 2 ≡ false
    → find_if (is_upload id) t.pending_uploads ≡ some p
    → p.session_id ≡ session
    → p.document_id ≡ doc
    → p.consumed_at ≡ some at
    → find_if (same_content p.document_id p.content_hash) t.revisions ≡ some r
    → commit_upload env session user doc id hash form t
      ≡ ok
          (record { revision_id = r.id; revision_num = r.revision_num; already_consumed = true }, t)
unfolding commit_upload commit_or_replay ◌>>=◌ pure or_fail fail_if query
consumed env session user doc id hash form t p at r works works' found is_session is_doc was there =
    let run : PendingUpload → Edit CommitResult =
      λ p. commit_or_replay env user hash form p p.consumed_at in
    let check : PendingUpload → Edit CommitResult = λ p.
      fail_if (not (str_eq p.session_id session) || not (str_eq p.document_id doc))
        (domain misbound)
      >>= λ _. run p in
    let found_in = λ (t : Tables). find_if (is_upload id) t.pending_uploads in
    query-passes t env 1 found_in (λ o. or_fail o (domain pending_not_found) >>= check) works
    ∙ or_fail-passes t (found_in t) (domain pending_not_found) check found
    ∙ fail_if-passes t _ (domain misbound) (λ _. run p) matches
    ∙ ap (λ o. commit_or_replay env user hash form p o t) was
    ∙ replayed env p t r works' there
  where
    matches : (not (str_eq p.session_id session) || not (str_eq p.document_id doc)) ≡ false
    matches = rw (is_session, is_doc, str_eq_refl session, str_eq_refl doc) refl

-- A committed upload is found again, with the time of its commit.
found_again :
    (env : Env) (id form : String) (t : Tables) (p : PendingUpload)
    → find_if (is_upload id) t.pending_uploads ≡ some p
    → find_if (is_upload id) (committed env p form t).pending_uploads
      ≡ some (record p { consumed_at = some env.now })
found_again env id form t p found =
    let same = (str_eq_iff p.id id).0 (find_if-holds (is_upload id) t.pending_uploads found) in
    subst
      (λ i.
        find_if (is_upload id) (
          update_where (is_upload i) (λ p. record p { consumed_at = some env.now })
            t.pending_uploads)
        ≡ some (record p { consumed_at = some env.now }))
      (sym same)
      (find_if-updated (is_upload id) (λ p. record p { consumed_at = some env.now })
        t.pending_uploads (λ p. refl) found)

-- A commit that was made can be repeated: a second call for the same upload, by whoever, at any
-- later time and with any payload, gives the same revision with `already_consumed` set, and changes
-- nothing, if the database answers.
pub commit_upload-again :
    (env later : Env) (session user other doc id hash hash' form form' : String) (t : Tables)
    {a : CommitResult} {after : Tables}
    → later.fails 1 ≡ false
    → later.fails 2 ≡ false
    → commit_upload env session user doc id hash form t ≡ ok (a, after)
    → commit_upload later session other doc id hash' form' after
      ≡ ok (
        record {
          revision_id = a.revision_id;
          revision_num = a.revision_num;
          already_consumed = true;
        },
        after,
      )
commit_upload-again env later session user other doc id hash hash' form form' t {a} {after} works
      works' h =
    let (p, bound, cases) = commit_upload-ok env session user doc id hash form t h in
    elim cases [
      | inl (_, done) ↦ committed_again p bound done
      | inr (at, was, gone) ↦ replayed_again p at bound was gone
    ]
  where
    committed_again :
        (p : PendingUpload)
        → IsBound session doc id t p
        → IsCommitted env user hash form p t a after
        → commit_upload later session other doc id hash' form' after
          ≡ ok (record a { already_consumed = true }, after)
    committed_again p bound done =
        rw (done.tables, done.value)
          (consumed later session other doc id hash' form' (committed env p form t)
            (record p { consumed_at = some env.now }) env.now
            (record (revision_of_upload env p form) { revision_num = t.next_revision_num }) works
            works' (found_again env id form t p bound.found) bound.session bound.document refl
            (find_if-snoc (same_content p.document_id p.content_hash) t.revisions _
              (All-imp _ _ t.revisions (λ r e. (neither (str_eq r.id (env.uuid 0)) _ e).1)
                (any-false _ t.revisions done.fresh))
              (rw (str_eq_refl p.document_id, str_eq_refl p.content_hash) refl)))

    replayed_again :
        (p : PendingUpload) (at : ℕ)
        → IsBound session doc id t p
        → p.consumed_at ≡ some at
        → IsReplayed p t a after
        → commit_upload later session other doc id hash' form' after
          ≡ ok (record a { already_consumed = true }, after)
    replayed_again p at bound was gone =
        rw (gone.tables, gone.value)
          (consumed later session other doc id hash' form' t p at gone.revision works works'
            bound.found bound.session bound.document was gone.found)
