-- ===== src/Editor/Service/Guards.antt =====
-- What a success of the editor service requires.
use metal_docs.Prelude.{
  ℕ, String, ◌≡◌, refl, sym, ap, ◌∙◌, ◌≢◌, Bool, true, false, not, ◌&&◌, ◌||◌, some,
}
use mathlib.Core.Path.{subst}
use metal_docs.Prelude.Tests.{both, not-false, clash}
use metal_docs.Prelude.Text.{str_eq, str_eq_iff}
use metal_docs.Prelude.Lists.{find_if, find_if-holds}
use metal_docs.Prelude.Rows.{any-false, any-find, All-find_if}
use metal_docs.Prelude.Result.{Result, ok, err, ok-injective}
use metal_docs.Prelude.Sql.{Fault, Env, follow, autocommit}
use metal_docs.Prelude.Committed.{past_query, autocommit-ok, transaction-ok, or_fail-ok}
use metal_docs.Editor.Tables.{
  Document, DocumentStatus, draft, finalized, archived, status_text, PendingUpload, Tables, Edit,
  EditorError, invalid_state_transition,
}
use metal_docs.Editor.Documents.{
  is_document, get_document, update_document_status, has_status, column_allows, states_allow,
}
use metal_docs.Editor.Uploads.{CommitResult, is_upload, get_pending_for_commit, commit_upload}
use metal_docs.Editor.Effects.{update_document_status-ok}
use metal_docs.Editor.Invariant.Closings.{count_if-any}
use mathlib.Core.Bool.{or-false}
use metal_docs.Approval.State.{DocState, StateError, legacy_state_rejected, state_from_string}
use metal_docs.Editor.Service.{
  delete_object, World, on_tables, Serv, ◌>>=◌, done, stop_if, transact, execute, audit, get_draft,
}
use metal_docs.Editor.Service.Documents.{finalize, archive, archived_from}
use metal_docs.Editor.Service.Autosave.{
  Storage, StorageError, CommitAutosaveCmd, commit_autosave, hashed, check_hash, audit_commit,
}

went :
    {A B : Type 0} (f : A → Serv B) (r : Result (Fault EditorError) A × World) {b : B}
    → (follow r f).0 ≡ ok b
    → (a : A) × (r.0 ≡ ok a) × (follow r f ≡ f a r.1) × ((f a r.1).0 ≡ ok b)
unfolding follow
went f (ok a, w) h = (a, refl, refl, h)
went f (err e, w) h = cc

-- A service that succeeds went on from the success of its first call.
pub serv-ok :
    {A B : Type 0} (m : Serv A) (f : A → Serv B) (w : World) {b : B}
    → ((m >>= f) w).0 ≡ ok b
    → (a : A) × ((m w).0 ≡ ok a) × ((m >>= f) w ≡ f a (m w).1) × ((f a (m w).1).0 ≡ ok b)
unfolding ◌>>=◌
serv-ok m f w h = went f (m w) h

-- A first call that only reads.
pub serv-read :
    {A B : Type 0} (m : Serv A) (f : A → Serv B) (w : World) {b : B}
    → ((a : A) → (m w).0 ≡ ok a → (m w).1 ≡ w)
    → ((m >>= f) w).0 ≡ ok b
    → (a : A) × ((m w).0 ≡ ok a) × ((m >>= f) w ≡ f a w) × ((f a w).0 ≡ ok b)
serv-read m f w {b} reads h =
    let (a, first, run, rest) = serv-ok m f w h in
    let same = reads a first in
    (a, first, run ∙ ap (f a) same, subst (λ w. (f a w).0 ≡ ok b) same rest)

-- A call that passes leaves the world as it is: a check.
pub past_stop_if :
    {B : Type 0} (c : Bool) (e : EditorError) (f : Unit {0} → Serv B) (w : World) {b : B}
    → ((stop_if c e >>= f) w).0 ≡ ok b
    → (c ≡ false) × ((stop_if c e >>= f) w ≡ f tt w)
unfolding ◌>>=◌ stop_if follow
past_stop_if true e f w h = cc
past_stop_if false e f w h = (refl, refl)

get_document-ok :
    (env : Env) (tenant id : String) (t : Tables) {d : Document} {after : Tables}
    → get_document env 1 tenant id t ≡ ok (d, after)
    → (find_if (is_document tenant id) t.documents ≡ some d) × (t ≡ after)
unfolding get_document
get_document-ok env tenant id t h = or_fail-ok _ _ _ (past_query env 1 _ _ t h)

-- A draft was read from the tables, and they are as they were.
get_draft-ok :
    (env : Env) (tenant id : String) (w : World) {d : Document}
    → (get_draft env tenant id w).0 ≡ ok d
    → (find_if (is_document tenant id) w.tables.documents ≡ some d)
      × (d.status ≡ "draft")
      × ((get_draft env tenant id w).1 ≡ w)
unfolding get_draft execute done
get_draft-ok env tenant id w h =
    let read : Serv Document =
      λ w. on_tables w (autocommit (get_document env 1 tenant id) w.tables) in
    let check : Document → Serv Document =
      λ d. stop_if (not (str_eq d.status "draft")) invalid_state_transition >>= λ _. done d in
    let (d, first, run, rest) = serv-ok read check w h in
    let (found, same) = get_document-ok env tenant id w.tables (autocommit-ok _ w.tables first) in
    let (is_draft, run') =
      past_stop_if (not (str_eq d.status "draft")) invalid_state_transition (λ _. done d) _ rest in
    let got = ap (λ (r : Result (Fault EditorError) Document × World). r.0) (run ∙ run') in
    let same_document = ok-injective (sym got ∙ h) in
    (
      found ∙ ap (λ d. some d) same_document,
      ap (λ (d : Document). d.status) (sym same_document)
          ∙ (str_eq_iff d.status "draft").0 (not-false _ is_draft),
      ap (λ (r : Result (Fault EditorError) Document × World). r.1) (run ∙ run')
          ∙ ap (λ t. record w { tables = t }) (sym same),
    )

-- A commit that the service accepts is one of a draft, and of an upload whose object has been hashed
-- to the announced content; it is the commit of the repository with that hash.
pub record IsChecked (calls : ℕ → Env) (storage : Storage) (cmd : CommitAutosaveCmd)
    (before : Tables) (a : CommitResult) (after : Tables) : Type 0 where
  pub document : Document
  pub found : find_if (is_document cmd.tenant_id cmd.document_id) before.documents ≡ some document
  pub is_draft : document.status ≡ "draft"
  pub upload : PendingUpload
  pub announced : find_if (is_upload cmd.pending_upload_id) before.pending_uploads ≡ some upload
  pub stored : storage.hash_object upload.storage_key ≡ ok upload.content_hash
  pub committed :
      commit_upload
        (calls 2)
        cmd.session_id
        cmd.actor_user_id
        cmd.document_id
        cmd.pending_upload_id
        upload.content_hash
        cmd.form_data_snapshot
        before
      ≡ ok (a, after)

hashed-ok :
    (r : Result StorageError String) (w : World) {hash : String}
    → (hashed r w).0 ≡ ok hash
    → (r ≡ ok hash) × ((hashed r w).1 ≡ w)
unfolding hashed
hashed-ok (ok hash) w h = (ap (λ r. ok r) (ok-injective h), refl)
hashed-ok (err StorageError.missing) w h = cc
hashed-ok (err StorageError.other) w h = cc

check_hash-ok :
    (b : Bool) (key : String) (w : World) {u : Unit {0}}
    → (check_hash b key w).0 ≡ ok u
    → (b ≡ true) × ((check_hash b key w).1 ≡ w)
unfolding check_hash done stop_if ◌>>=◌ follow delete_object
check_hash-ok true key w h = (refl, refl)
check_hash-ok false key w h = cc

audit_commit-tables :
    (cmd : CommitAutosaveCmd) (r : CommitResult) (b : Bool) (w : World)
    → (audit_commit cmd r b w).1.tables ≡ w.tables
unfolding audit_commit done audit
audit_commit-tables cmd r true w = refl
audit_commit-tables cmd r false w = refl

get_pending-ok :
    (env : Env) (id : String) (t : Tables) {p : PendingUpload} {after : Tables}
    → get_pending_for_commit env id t ≡ ok (p, after)
    → (find_if (is_upload id) t.pending_uploads ≡ some p) × (t ≡ after)
unfolding get_pending_for_commit
get_pending-ok env id t h = or_fail-ok _ _ _ (past_query env 1 _ _ t h)

read_tables : (w : World) {t : Tables} → w.tables ≡ t → record w { tables = t } ≡ w
read_tables w same = ap (λ t. record w { tables = t }) (sym same)

-- A successful `CommitAutosave` is a commit of a draft's upload, whose object hashes to the content
-- that was announced when it was presigned: nothing else reaches the revisions.
pub commit_autosave-IsChecked :
    (calls : ℕ → Env) (storage : Storage) (cmd : CommitAutosaveCmd) (w : World) {a : CommitResult}
    → (commit_autosave calls storage cmd w).0 ≡ ok a
    → IsChecked calls storage cmd w.tables a (commit_autosave calls storage cmd w).1.tables
unfolding commit_autosave execute transact done
commit_autosave-IsChecked calls storage cmd w {a} h =
    let (d, read, run1, h1) =
      serv-read _ _ w (λ d e. (get_draft-ok (calls 0) cmd.tenant_id cmd.document_id w e).2) h in
    let (found, is_draft, _) = get_draft-ok (calls 0) cmd.tenant_id cmd.document_id w read in
    let (p, pending, run2, h2) =
      serv-read _ _ w
        (λ p e.
          read_tables w
            (get_pending-ok (calls 1) cmd.pending_upload_id w.tables
              (autocommit-ok _ w.tables e)).1)
        h1 in
    let (announced, _) =
      get_pending-ok (calls 1) cmd.pending_upload_id w.tables (autocommit-ok _ w.tables pending) in
    let (hash, object, run3, h3) =
      serv-read _ _ w (λ r e. (hashed-ok (storage.hash_object p.storage_key) w e).1) h2 in
    let (stored, _) = hashed-ok (storage.hash_object p.storage_key) w object in
    let (u, checked, run4, h4) =
      serv-read _ _ w (λ r e. (check_hash-ok (str_eq hash p.content_hash) p.storage_key w e).1)
        h3 in
    let (same, _) = check_hash-ok (str_eq hash p.content_hash) p.storage_key w checked in
    let is_hash = (str_eq_iff hash p.content_hash).0 same in
    let (r, commits, run5, h5) = serv-ok _ _ w h4 in
    let (v, audited, run6, h6) = serv-ok _ _ _ h5 in
    let b = ok-injective h6 in
    let body : Edit CommitResult =
      commit_upload (calls 2) cmd.session_id cmd.actor_user_id cmd.document_id cmd.pending_upload_id
        hash cmd.form_data_snapshot in
    let kept =
      ap (λ (x : Result (Fault EditorError) CommitResult × World). x.1.tables)
        (run1 ∙ run2 ∙ run3 ∙ run4 ∙ run5 ∙ run6)
      ∙ audit_commit-tables cmd r r.already_consumed _ in
    let made = transaction-ok (calls 2) 9 _ w.tables commits in
    record {
      document = d;
      found = found;
      is_draft = is_draft;
      upload = p;
      announced = announced;
      stored = stored ∙ ap (λ h. ok h) is_hash;
      committed =
          subst
            (λ k.
              commit_upload (calls 2) cmd.session_id cmd.actor_user_id cmd.document_id
                cmd.pending_upload_id k cmd.form_data_snapshot w.tables
              ≡ ok (a, (commit_autosave calls storage cmd w).1.tables))
            is_hash
            (made
              ∙ ap (λ r. ok (r, (transact (calls 2) body w).1.tables)) b
              ∙ ap (λ t. ok (a, t)) (sym kept));
    }

always : (a b : Bool) → a ≡ true → (a && b) ≡ false → b ≡ false
always true b h k = k
always false b h k = cc

-- The trigger lets no row take the texts that `Finalize` and `Archive` write.
refuses_legacy :
    (cur next : DocumentStatus)
    → ((old : String) → column_allows old (status_text next) ≡ str_eq old (status_text next))
    → str_eq (status_text cur) (status_text next) ≡ false
    → (env : Env) (tenant id : String) (t : Tables) {C : Type 0} {u : Unit {0}} {after : Tables}
    → update_document_status env tenant id cur next true t ≡ ok (u, after)
    → C
refuses_legacy cur next closed differ env tenant id t h =
    let (legal, counted, _) = update_document_status-ok env tenant id cur next true t h in
    let (d, found) =
      any-find (has_status tenant id cur) t.documents (count_if-any _ t.documents counted) in
    let hit = find_if-holds (has_status tenant id cur) t.documents found in
    let is_cur = (str_eq_iff d.status (status_text cur)).0 (both _ _ hit).1 in
    let allowed : not (column_allows d.status (status_text next)) ≡ false = always _ _ hit (
      All-find_if _ (has_status tenant id cur) t.documents (any-false _ t.documents legal) found) in
    clash (column_allows d.status (status_text next)) (not-false _ allowed)
      (closed d.status ∙ ap (λ s. str_eq s (status_text next)) is_cur ∙ differ)

states_allow-err :
    (r : Result StateError DocState) (e : StateError) → states_allow r (err e) ≡ false
states_allow-err (ok a) e = refl
states_allow-err (err b) e = refl

closed_to_finalized : (old : String) → column_allows old "finalized" ≡ str_eq old "finalized"
unfolding state_from_string
closed_to_finalized old =
    ap (λ b. str_eq old "finalized" || b)
      (states_allow-err (state_from_string old) legacy_state_rejected)
    ∙ or-false _

closed_to_archived : (old : String) → column_allows old "archived" ≡ str_eq old "archived"
unfolding state_from_string
closed_to_archived old =
    ap (λ b. str_eq old "archived" || b)
      (states_allow-err (state_from_string old) legacy_state_rejected)
    ∙ or-false _

not_archived : (b : Bool) → str_eq (status_text (archived_from b)) "archived" ≡ false
not_archived true = refl
not_archived false = refl

-- `Finalize` and `Archive` never succeed: the transition trigger of the database refuses the statuses
-- `finalized` and `archived` from every state, and the code asks for a row in another one.
pub finalize_refused :
    (calls : ℕ → Env) (tenant doc actor : String) (from_finalized : Bool) (w : World)
    → ((finalize calls tenant doc actor w).0 ≢ ok tt)
      × ((archive calls tenant doc actor from_finalized w).0 ≢ ok tt)
unfolding finalize archive execute
finalize_refused calls tenant doc actor from_finalized w = (
  λ h.
      let (_, first, _, _) = serv-ok _ _ w h in
      refuses_legacy draft finalized closed_to_finalized refl (calls 0) tenant doc w.tables
        (autocommit-ok _ w.tables first),
  λ h.
      let (_, first, _, _) = serv-ok _ _ w h in
      refuses_legacy (archived_from from_finalized) archived closed_to_archived
        (not_archived from_finalized) (calls 0) tenant doc w.tables
        (autocommit-ok _ w.tables first),
)
