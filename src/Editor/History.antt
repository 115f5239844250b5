-- ===== src/Editor/History.antt =====
-- The table of revisions only grows: what a revision says of its document, parent, number and content
-- is never rewritten.
use metal_docs.Prelude.{◌≡◌, refl, sym, ap, ◌∙◌, inl, inr, List, [], ◌∷◌, ◌++◌, map}
use mathlib.Core.List.{append_assoc, append-nil}
use metal_docs.Prelude.Rows.{map-update_where, map-snoc}
use metal_docs.Prelude.Sql.{Env}
use metal_docs.Editor.Tables.{Revision, Tables}
use metal_docs.Editor.Documents.{lacks_key}
use metal_docs.Editor.System.{Call, perform, perform_all}
use metal_docs.Editor.Effects.Calls.{
  Effect, still, created, keyed, marked, opened, extended_by, released_by, forced, swept, reserved,
  committed, purged, checkpointed, restored, commented, perform-Effect,
}

-- A revision without the key under which the storage keeps its object.
abbrev pub content : Revision → Revision
content r = record r { storage_key = "" }

-- The revisions before come first afterwards, in their order.
pub record Grows (before after : List Revision) : Type 0 where
  pub more : List Revision
  pub appended : map content after ≡ map content before ++ more

Grows-still : {rows after : List Revision} → map content after ≡ map content rows → Grows rows after
Grows-still {rows} h = record { more = []; appended = h ∙ sym (append-nil (map content rows)) }

Grows-by :
    (rows : List Revision) (r : Revision) {after : List Revision}
    → after ≡ rows ++ (r ∷ [])
    → Grows rows after
Grows-by rows r h = record {
  more = content r ∷ [];
  appended = ap (map content) h ∙ map-snoc content rows r;
}

Grows-trans : (a b c : List Revision) → Grows a b → Grows b c → Grows a c
Grows-trans a b c f g = record {
  more = f.more ++ g.more;
  appended =
      g.appended ∙ ap (λ l. l ++ g.more) f.appended ∙ append_assoc (map content a) f.more g.more;
}

same_revisions : {rows after : List Revision} → after ≡ rows → Grows rows after
same_revisions h = Grows-still (ap (map content) h)

Effect-Grows :
    (env : Env) (t after : Tables) → Effect env t after → Grows t.revisions after.revisions
Effect-Grows env t after (still e) = same_revisions (ap (λ (t : Tables). t.revisions) e)
Effect-Grows env t after (created d hash e) =
    Grows-by t.revisions _ (ap (λ (t : Tables). t.revisions) e.tables)
Effect-Grows env t after (keyed id key e) = Grows-still (
    ap (λ (t : Tables). map content t.revisions) e
    ∙ map-update_where content (lacks_key id) (λ r. record r { storage_key = key }) t.revisions
        (λ r. refl))
Effect-Grows env t after (marked p f same e) = same_revisions (ap (λ (t : Tables). t.revisions) e)
Effect-Grows env t after (opened tenant doc user a e) =
    same_revisions (ap (λ (t : Tables). t.revisions) e.tables)
Effect-Grows env t after (extended_by p e) = same_revisions (ap (λ (t : Tables). t.revisions) e)
Effect-Grows env t after (released_by id user counted e) =
    same_revisions (ap (λ (t : Tables). t.revisions) e)
Effect-Grows env t after (forced id e) = same_revisions (ap (λ (t : Tables). t.revisions) e)
Effect-Grows env t after (swept now e) = same_revisions (ap (λ (t : Tables). t.revisions) e)
Effect-Grows env t after (reserved session user doc base e) = elim e.kept_or_new [
  | inl same ↦ same_revisions (ap (λ (t : Tables). t.revisions) same)
  | inr (p, _, _, _, tables) ↦ same_revisions (ap (λ (t : Tables). t.revisions) tables)
]
Effect-Grows env t after (committed user hash form p a there e) =
    Grows-by t.revisions _ (ap (λ (t : Tables). t.revisions) e.tables)
Effect-Grows env t after (purged older e) = same_revisions (ap (λ (t : Tables). t.revisions) e)
Effect-Grows env t after (checkpointed doc actor label a e) =
    same_revisions (ap (λ (t : Tables). t.revisions) e.tables)
Effect-Grows env t after (restored doc actor version a e) = elim e.outcome [
  | inl (_, _, _, tables) ↦ same_revisions (ap (λ (t : Tables). t.revisions) tables)
  | inr (_, _, tables) ↦ Grows-by t.revisions _ (ap (λ (t : Tables). t.revisions) tables)
]
Effect-Grows env t after (commented rows e) = same_revisions (ap (λ (t : Tables). t.revisions) e)

-- Any sequence of calls only appends to the revisions: those that were there come first, in their
-- order, with their identifiers, numbers, documents, parents, sessions, hashes and snapshots as they
-- were.
pub perform_all-Grows :
    (calls : List (Env × Call)) (t : Tables) → Grows t.revisions (perform_all calls t).revisions
unfolding perform_all
perform_all-Grows [] t = Grows-still refl
perform_all-Grows ((env, call) ∷ calls) t =
    Grows-trans t.revisions (perform env call t).revisions
      (perform_all calls (perform env call t)).revisions
      (Effect-Grows env t (perform env call t) (perform-Effect env call t))
      (perform_all-Grows calls (perform env call t))
