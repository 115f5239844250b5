-- ===== src/Editor/Leases/Exclusive.antt =====
-- One lease for a document at most, whatever the callers do.
use metal_docs.Prelude.{
  ℕ, String, ◌≡◌, refl, sym, ap, ◌∙◌, Bool, true, false, ◌||◌, inl, inr, List, [], ◌∷◌, ◌++◌,
}
use mathlib.Core.Path.{subst}
use metal_docs.Prelude.Tests.{Bool-cases, neither}
use metal_docs.Prelude.Text.{str_eq, str_eq-sym}
use metal_docs.Prelude.Lists.{any, keep_if, update_where, All}
use metal_docs.Prelude.Rows.{any-snoc}
use metal_docs.Prelude.Sql.{Env}
use metal_docs.Editor.Tables.{Session, Tables, is_active}
use metal_docs.Editor.Documents.{new_session, session_conflict, coalesce, nil_uuid}
use metal_docs.Editor.System.{Call, perform, perform_all}
use metal_docs.Editor.Effects.Calls.{
  Effect, still, created, keyed, marked, opened, extended_by, released_by, forced, swept, reserved,
  committed, purged, checkpointed, restored, commented, perform-Effect,
}
use metal_docs.Editor.Invariant.Grants.{IsClear, IsClear-of}
use metal_docs.Editor.Leases.{Lease, lease_of, leases_of, leases, is_on, AreExclusive}
use metal_docs.Editor.Leases.Refines.{extended, leases-release, leases-force_release, sweep-expire}
use metal_docs.Editor.Leases.Rows.{leases_of-append, leases_of-same}

any-keep_if :
    {A : Type 0} (q p : A → Bool) (xs : List A) → any q xs ≡ false → any q (keep_if p xs) ≡ false
any-keep_if q p [] h = refl
any-keep_if q p (x ∷ xs) h =
    let (here, later) = neither (q x) _ h in
    elim (Bool-cases (p x)) [
      | inl hit ↦ rw (hit, here) (any-keep_if q p xs later)
      | inr miss ↦ rw miss (any-keep_if q p xs later)
    ]

any-update_where :
    {A : Type 0} (q p : A → Bool) (f : A → A) (xs : List A)
    → ((x : A) → q (f x) ≡ q x)
    → any q (update_where p f xs) ≡ any q xs
any-update_where q p f [] same = refl
any-update_where q p f (x ∷ xs) same = elim (Bool-cases (p x)) [
  | inl hit ↦ rw (hit, same x) (ap (λ b. q x || b) (any-update_where q p f xs same))
  | inr miss ↦ rw miss (ap (λ b. q x || b) (any-update_where q p f xs same))
]

-- No lease is on the document of a clear session.
clear-is_on :
    (new : Session) (rows : List Session)
    → All (IsClear new) rows
    → any (is_on new.document_id) (leases_of rows) ≡ false
clear-is_on new [] h = refl
clear-is_on new (s ∷ rows) h = elim h.0.1 [
  | inl idle ↦ rw idle (clear-is_on new rows h.1)
  | inr away ↦ elim (Bool-cases (is_active s)) [
    | inl alive ↦ rw (alive, away) (clear-is_on new rows h.1)
    | inr idle ↦ rw idle (clear-is_on new rows h.1)
  ]
]

AreExclusive-snoc :
    (ls : List Lease) (l : Lease)
    → any (is_on l.document) ls ≡ false
    → AreExclusive ls
    → AreExclusive (ls ++ (l ∷ []))
unfolding AreExclusive
AreExclusive-snoc [] l h e = (refl, tt)
AreExclusive-snoc (m ∷ ls) l h e =
    let (here, later) = neither (is_on l.document m) _ h in
    (
      rw (any-snoc (is_on m.document) ls l, e.0) (str_eq-sym m.document l.document here),
      AreExclusive-snoc ls l later e.1,
    )

AreExclusive-keep_if :
    (p : Lease → Bool) (ls : List Lease) → AreExclusive ls → AreExclusive (keep_if p ls)
unfolding AreExclusive
AreExclusive-keep_if p [] e = tt
AreExclusive-keep_if p (l ∷ ls) e = elim (Bool-cases (p l)) [
  | inl hit ↦ rw hit (any-keep_if (is_on l.document) p ls e.0, AreExclusive-keep_if p ls e.1)
  | inr miss ↦ rw miss (AreExclusive-keep_if p ls e.1)
]

AreExclusive-update_where :
    (p : Lease → Bool) (f : Lease → Lease) (ls : List Lease)
    → ((l : Lease) → (f l).document ≡ l.document)
    → AreExclusive ls
    → AreExclusive (update_where p f ls)
unfolding AreExclusive
AreExclusive-update_where p f [] same e = tt
AreExclusive-update_where p f (l ∷ ls) same e =
    let there =
      λ (d : String). any-update_where (is_on d) p f ls (λ m. ap (λ i. str_eq i d) (same m)) in
    elim (Bool-cases (p l)) [
      | inl hit ↦
          rw (hit, same l) (there l.document ∙ e.0, AreExclusive-update_where p f ls same e.1)
      | inr miss ↦ rw miss (there l.document ∙ e.0, AreExclusive-update_where p f ls same e.1)
    ]

-- An extended lease is on the same document.
extended-is_on :
    (now : ℕ) (p : Session → Bool) (d : String) (rows : List Session)
    → any (is_on d) (leases_of (update_where p (extended now) rows))
      ≡ any (is_on d) (leases_of rows)
extended-is_on now p d [] = refl
extended-is_on now p d (s ∷ rows) = elim (Bool-cases (is_active s)) [
  | inl alive ↦ elim (Bool-cases (p s)) [
    | inl hit ↦
        rw (hit, alive) (ap (λ b. str_eq s.document_id d || b) (extended-is_on now p d rows))
    | inr miss ↦
        rw (miss, alive) (ap (λ b. str_eq s.document_id d || b) (extended-is_on now p d rows))
  ]
  | inr idle ↦ elim (Bool-cases (p s)) [
    | inl hit ↦ rw (hit, idle) (extended-is_on now p d rows)
    | inr miss ↦ rw (miss, idle) (extended-is_on now p d rows)
  ]
]

AreExclusive-extended :
    (now : ℕ) (p : Session → Bool) (rows : List Session)
    → AreExclusive (leases_of rows)
    → AreExclusive (leases_of (update_where p (extended now) rows))
unfolding AreExclusive
AreExclusive-extended now p [] = λ e. tt
AreExclusive-extended now p (s ∷ rows) = elim (Bool-cases (is_active s)) [
  | inl alive ↦ elim (Bool-cases (p s)) [
    | inl hit ↦
        rw (hit, alive)
          (λ e.
            (extended-is_on now p s.document_id rows ∙ e.0, AreExclusive-extended now p rows e.1))
    | inr miss ↦
        rw (miss, alive)
          (λ e.
            (extended-is_on now p s.document_id rows ∙ e.0, AreExclusive-extended now p rows e.1))
  ]
  | inr idle ↦ elim (Bool-cases (p s)) [
    | inl hit ↦ rw (hit, idle) (AreExclusive-extended now p rows)
    | inr miss ↦ rw (miss, idle) (AreExclusive-extended now p rows)
  ]
]

-- A new session on a document that nobody holds.
AreExclusive-open :
    (rows : List Session) (new : Session)
    → is_active new ≡ true
    → any (session_conflict new) rows ≡ false
    → AreExclusive (leases_of rows)
    → AreExclusive (leases_of (rows ++ (new ∷ [])))
AreExclusive-open rows new live fresh e = rw (leases_of-append rows new live) (
    AreExclusive-snoc (leases_of rows) (lease_of new)
      (clear-is_on new rows (IsClear-of new rows live fresh)) e)

AreExclusive-ack :
    (p : Session → Bool) (rev : String) (rows : List Session)
    → AreExclusive (leases_of rows)
    → AreExclusive
        (leases_of (update_where p (λ s. record s { last_acknowledged_revision_id = rev }) rows))
AreExclusive-ack p rev rows e =
    subst AreExclusive
      (sym (
        leases_of-same p (λ s. record s { last_acknowledged_revision_id = rev }) (λ s. refl)
          (λ s. refl) rows))
      e

Effect-AreExclusive :
    (env : Env) (t after : Tables)
    → Effect env t after
    → AreExclusive (leases t)
    → AreExclusive (leases after)
Effect-AreExclusive env t after (still h) e = subst (λ t. AreExclusive (leases t)) (sym h) e
Effect-AreExclusive env t after (created d hash h) e =
    subst (λ t. AreExclusive (leases t)) (sym h.tables)
      (AreExclusive-ack (λ (s : Session). str_eq s.id (env.uuid 1)) (env.uuid 2)
        (t.sessions ++ (new_session env 1 (env.uuid 0) d.created_by nil_uuid ∷ []))
        (AreExclusive-open t.sessions (new_session env 1 (env.uuid 0) d.created_by nil_uuid) refl
          h.fresh_session e))
Effect-AreExclusive env t after (keyed id key h) e = subst (λ t. AreExclusive (leases t)) (sym h) e
Effect-AreExclusive env t after (marked p f same h) e =
    subst (λ t. AreExclusive (leases t)) (sym h) e
Effect-AreExclusive env t after (opened tenant doc user a h) e =
    subst (λ t. AreExclusive (leases t)) (sym h.tables)
      (AreExclusive-open t.sessions
        (new_session env 0 doc user (coalesce h.document.current_revision_id)) refl h.fresh e)
Effect-AreExclusive env t after (extended_by p h) e =
    subst (λ t. AreExclusive (leases t)) (sym h) (AreExclusive-extended env.now p t.sessions e)
Effect-AreExclusive env t after (released_by id user counted h) e =
    subst AreExclusive (sym (ap leases h ∙ leases-release env.now (str_eq id) id user t))
      (AreExclusive-keep_if _ (leases t) e)
Effect-AreExclusive env t after (forced id h) e =
    subst AreExclusive (sym (ap leases h ∙ leases-force_release env.now (str_eq id) id t))
      (AreExclusive-keep_if _ (leases t) e)
Effect-AreExclusive env t after (swept now h) e =
    subst AreExclusive (sym (ap leases h ∙ sweep-expire env now t))
      (AreExclusive-keep_if _ (leases t) e)
Effect-AreExclusive env t after (reserved session user doc base h) e = elim h.kept_or_new [
  | inl same ↦ subst (λ t. AreExclusive (leases t)) (sym same) e
  | inr (p, _, _, _, tables) ↦ subst (λ t. AreExclusive (leases t)) (sym tables) e
]
Effect-AreExclusive env t after (committed user hash form p a there h) e =
    subst (λ t. AreExclusive (leases t)) (sym h.tables)
      (AreExclusive-ack (λ (s : Session). str_eq s.id p.session_id) (env.uuid 0) t.sessions e)
Effect-AreExclusive env t after (purged older h) e = subst (λ t. AreExclusive (leases t)) (sym h) e
Effect-AreExclusive env t after (checkpointed doc actor label a h) e =
    subst (λ t. AreExclusive (leases t)) (sym h.tables) e
Effect-AreExclusive env t after (restored doc actor version a h) e = elim h.outcome [
  | inl (_, _, _, tables) ↦ subst (λ t. AreExclusive (leases t)) (sym tables) e
  | inr (_, _, tables) ↦
      subst (λ t. AreExclusive (leases t)) (sym tables)
        (AreExclusive-ack (λ (s : Session). str_eq s.id (coalesce h.document.active_session_id))
          (env.uuid 0) t.sessions e)
]
Effect-AreExclusive env t after (commented rows h) e =
    subst (λ t. AreExclusive (leases t)) (sym h) e

-- Any sequence of calls, by any callers and with any failures, leaves at most one lease on a
-- document.
pub perform_all-AreExclusive :
    (calls : List (Env × Call)) (t : Tables)
    → AreExclusive (leases t)
    → AreExclusive (leases (perform_all calls t))
unfolding perform_all
perform_all-AreExclusive [] t e = e
perform_all-AreExclusive ((env, call) ∷ calls) t e =
    perform_all-AreExclusive calls (perform env call t)
      (Effect-AreExclusive env t (perform env call t) (perform-Effect env call t) e)
