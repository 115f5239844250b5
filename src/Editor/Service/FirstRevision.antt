-- ===== src/Editor/Service/FirstRevision.antt =====
-- How `CreateDocument` makes the document and its first revision
-- (documents_v2/application/service.go).
use mathlib.Core.Path.{subst}
use metal_docs.Prelude.{
  ℕ, String, ◌≡◌, refl, sym, ap, ◌∙◌, Bool, true, false, not, Option, none, some, [], ◌∷◌, ◌⊎◌, inl,
  inr,
}
use metal_docs.Prelude.Tests.{if◌then◌else◌, Bool-cases, not-false}
use metal_docs.Prelude.Text.{str_eq, str_eq_iff, text_concat}
use metal_docs.Prelude.Result.{Result, ok, err, ok-injective}
use metal_docs.Prelude.Sql.{Fault, Env}
use metal_docs.Prelude.Committed.{autocommit-ok, transaction-ok}
use metal_docs.Registry.{ControlledDocument}
use metal_docs.Editor.Tables.{Document, Tables, EditorError, form_data_invalid}
use metal_docs.Editor.Documents.{create_document, set_revision_storage_key}
use metal_docs.Editor.Service.{World, Serv, ◌>>=◌, done, stop_if, transact, execute, audit}
use metal_docs.Editor.Service.Guards.{serv-ok, serv-read}
use metal_docs.Editor.Service.Create.{
  PublishedVersion, Wiring, CreateDocumentInput, CreateDocumentResult, foreign, check_form, cleaned,
  cleaning_up, take_snapshot, finish_create, create_revision, build_document_for_create,
}

pub foreign-ok :
    {A : Type 0} (k : ℕ) (r : Result (Unit {0}) A) (w : World) (a : A)
    → (foreign k r w).0 ≡ ok a
    → (r ≡ ok a) × ((foreign k r w).1 ≡ w)
unfolding foreign
foreign-ok k (err e) w a h = cc
foreign-ok k (ok b) w a h = (ap (λ a. ok a) (ok-injective h), refl)

pub stop_if-ok :
    (c : Bool) (e : EditorError) (w : World) (u : Unit {0})
    → (stop_if c e w).0 ≡ ok u
    → (c ≡ false) × ((stop_if c e w).1 ≡ w)
unfolding stop_if
stop_if-ok true e w u h = cc
stop_if-ok false e w u h = (refl, refl)

-- The form was validated, unless the version has no schema.
unfoldable pub IsAccepted : Wiring → String → String → Type 0
IsAccepted wiring schema form = (schema ≡ "") ⊎ (wiring.validate_form schema form ≡ ok true)

pub check_form-ok :
    (wiring : Wiring) (schema form : String) (w : World) (u : Unit {0})
    → (check_form wiring schema form w).0 ≡ ok u
    → IsAccepted wiring schema form × ((check_form wiring schema form w).1 ≡ w)
unfolding check_form done IsAccepted
check_form-ok wiring schema form w u h = elim (Bool-cases (str_eq schema "")) [
  | inl no_schema ↦ (inl ((str_eq_iff schema "").0 no_schema), rw (no_schema, check_form) refl)
  | inr schema_given ↦
      let (valid, checked, run, rest) =
        serv-read (foreign 5 (wiring.validate_form schema form))
          (λ valid. stop_if (not valid) form_data_invalid) w
          (λ a e. (foreign-ok 5 (wiring.validate_form schema form) w a e).1)
          (subst
            (λ b.
              ((if◌then◌else◌ {A = Serv (Unit {0})} b (done tt) (
                  foreign 5 (wiring.validate_form schema form) >>= λ valid.
                  stop_if (not valid) form_data_invalid))
                w).0
              ≡ ok u)
            schema_given h) in
      let (passed, same) = stop_if-ok (not valid) form_data_invalid w u rest in
      (
        inr (
            (foreign-ok 5 (wiring.validate_form schema form) w valid checked).0
            ∙ ap (λ v. ok v) (not-false valid passed)),
        rw (schema_given, check_form)
            (ap (λ (x : Result (Fault EditorError) (Unit {0}) × World). x.1) run ∙ same),
      )
]

foreign-same : {A : Type 0} (k : ℕ) (r : Result (Unit {0}) A) (w : World) → (foreign k r w).1 ≡ w
unfolding foreign
foreign-same k (err e) w = refl
foreign-same k (ok a) w = refl

take_snapshot-tables :
    (wiring : Wiring) (tenant doc rev template : String) (w : World)
    → (take_snapshot wiring tenant doc rev template w).1.tables ≡ w.tables
unfolding take_snapshot done
take_snapshot-tables wiring tenant doc rev template w = taken wiring.snapshot
  where
    taken :
        (o : Option (String → String → String → String → Result (Unit {0}) (Unit {0})))
        → (elim o as (λ _. Serv (Unit {0})) [
          | none ↦ done tt
          | some run ↦ foreign 8 (run tenant doc rev template)
        ]
            w).1.tables
          ≡ w.tables
    taken none = refl
    taken (some run) = ap (λ (w : World). w.tables) (foreign-same 8 (run tenant doc rev template) w)

-- The identifiers are those of the answer, and the first revision has its key.
finish_create-ok :
    (calls : ℕ → Env) (wiring : Wiring) (cmd : CreateDocumentInput) (template key : String)
    (ids : String × String × String) (w : World) {a : CreateDocumentResult}
    → (finish_create calls wiring cmd template key ids w).0 ≡ ok a
    → (ids ≡ (a.document_id, a.initial_revision_id, a.session_id))
      × (set_revision_storage_key (calls 1) ids.1 key w.tables
          ≡ ok (tt, (finish_create calls wiring cmd template key ids w).1.tables))
unfolding finish_create execute audit done
finish_create-ok calls wiring cmd template key ids w h =
    let (u, keyed, run1, h1) = serv-ok _ _ w h in
    let (_, _, run2, h2) = serv-ok _ _ _ h1 in
    let (_, _, run3, h3) = serv-ok _ _ _ h2 in
    let kept =
      ap (λ (x : Result (Fault EditorError) CreateDocumentResult × World). x.1.tables)
        (run1 ∙ run2 ∙ run3)
      ∙ take_snapshot-tables wiring cmd.tenant_id ids.0 ids.1 template _ in
    (
      ap (λ (a : CreateDocumentResult). (a.document_id, a.initial_revision_id, a.session_id))
          (ok-injective h3),
      autocommit-ok _ w.tables keyed ∙ ap (λ t. ok (tt, t)) (sym kept),
    )

cleaned-ok :
    {A : Type 0} (key : String) (r : Result (Fault EditorError) A × World) {a : A}
    → (cleaned key r).0 ≡ ok a
    → cleaned key r ≡ r
unfolding cleaned
cleaned-ok key (ok a, w) h = refl
cleaned-ok key (err e, w) h = cc

cleaning_up-ok :
    {A : Type 0} (key : String) (m : Serv A) (w : World) {a : A}
    → (cleaning_up key m w).0 ≡ ok a
    → cleaning_up key m w ≡ m w
unfolding cleaning_up
cleaning_up-ok key m w h = cleaned-ok key (m w) h

-- The content of the first revision: what the renderer has put into a temporary object, adopted
-- under its hash, or without a renderer the template itself.
unfoldable pub IsContent :
    Wiring
    → CreateDocumentInput
    → PublishedVersion
    → String
    → Option (String → String → String → String → Result (Unit {0}) String)
    → String
    → String
    → Type 0
IsContent wiring cmd v document_id none hash key =
    (hash ≡ wiring.sha256_hex v.docx_key) × (key ≡ v.docx_key)
IsContent wiring cmd v document_id (some render) hash key =
    (tmp : String) × (render v.docx_key v.schema_key tmp cmd.form_data ≡ ok hash)
    × (key
        ≡ text_concat (
            "tenants/" ∷ cmd.tenant_id ∷ "/documents/" ∷ document_id ∷ "/revisions/" ∷ hash
            ∷ ".docx" ∷ []))
    × (wiring.adopt_temp_object tmp key ≡ ok tt)

-- The rows that a creation has made from the given tables.
pub record IsMade (calls : ℕ → Env) (wiring : Wiring) (cmd : CreateDocumentInput)
    (cd : ControlledDocument) (template : String) (v : PublishedVersion)
    (renderer : Option (String → String → String → String → Result (Unit {0}) String))
    (before : Tables) (a : CreateDocumentResult) (after : Tables) : Type 0 where
  pub document : Document
  pub of_template : document.template_version_id ≡ template
  pub of_tenant : document.tenant_id ≡ cmd.tenant_id
  pub of_author : document.created_by ≡ cmd.actor_user_id
  pub of_name : document.name ≡ cmd.name
  pub of_form : document.form_data_json ≡ cmd.form_data
  pub of_controlled : document.controlled_document_id ≡ some cmd.controlled_document_id
  pub of_profile : document.profile_code_snapshot ≡ some cd.profile_code
  pub of_area : document.process_area_code_snapshot ≡ some cd.process_area_code
  pub hash : String
  pub key : String
  pub content : IsContent wiring cmd v a.document_id renderer hash key
  pub made : Tables
  pub inserted :
      create_document (calls 0) document hash before
      ≡ ok ((a.document_id, a.initial_revision_id, a.session_id), made)
  pub keyed : set_revision_storage_key (calls 1) a.initial_revision_id key made ≡ ok (tt, after)

module _ (calls : ℕ → Env) (wiring : Wiring) (cmd : CreateDocumentInput) (cd : ControlledDocument)
    (template : String) (v : PublishedVersion) where
  finished-IsMade :
      (renderer : Option (String → String → String → String → Result (Unit {0}) String))
      (hash key : String) (ids : String × String × String) (before : Tables) (w : World)
      {a : CreateDocumentResult}
      → create_document (calls 0) (build_document_for_create cmd cd template) hash before
        ≡ ok (ids, w.tables)
      → IsContent wiring cmd v ids.0 renderer hash key
      → (finish_create calls wiring cmd template key ids w).0 ≡ ok a
      → IsMade calls wiring cmd cd template v renderer before a
          (finish_create calls wiring cmd template key ids w).1.tables
  finished-IsMade renderer hash key ids before w inserts content h =
      let (same, keyed) = finish_create-ok calls wiring cmd template key ids w h in
      record {
        document = build_document_for_create cmd cd template;
        of_template = refl;
        of_tenant = refl;
        of_author = refl;
        of_name = refl;
        of_form = refl;
        of_controlled = refl;
        of_profile = refl;
        of_area = refl;
        hash = hash;
        key = key;
        content =
            subst (λ (i : String × String × String). IsContent wiring cmd v i.0 renderer hash key)
              same content;
        made = w.tables;
        inserted = inserts ∙ ap (λ i. ok (i, w.tables)) same;
        keyed =
            ap
              (λ (i : String × String × String).
                set_revision_storage_key (calls 1) i.1 key w.tables)
              (sym same)
            ∙ keyed;
      }

  -- Both branches of `CreateDocument` make the document and its first revision.
  pub create_revision-IsMade :
      (renderer : Option (String → String → String → String → Result (Unit {0}) String)) (w : World)
      {a : CreateDocumentResult}
      → (create_revision calls wiring cmd cd template v renderer w).0 ≡ ok a
      → IsMade calls wiring cmd cd template v renderer w.tables a
          (create_revision calls wiring cmd cd template v renderer w).1.tables
  unfolding create_revision transact IsContent
  create_revision-IsMade none w {a} h =
      let (ids, inserts, run, rest) = serv-ok _ _ w h in
      subst
        (λ (x : Result (Fault EditorError) CreateDocumentResult × World).
          IsMade calls wiring cmd cd template v none w.tables a x.1.tables)
        (sym run)
        (finished-IsMade none (wiring.sha256_hex v.docx_key) v.docx_key ids w.tables _
          (transaction-ok (calls 0) 9 _ w.tables inserts) (refl, refl) rest)
  create_revision-IsMade (some render) w {a} h =
      let tmp =
        text_concat
          ("tenants/" ∷ cmd.tenant_id ∷ "/documents/tmp/" ∷ wiring.new_uuid ∷ ".docx" ∷ []) in
      let (hash, rendered, run1, h1) =
        serv-read (foreign 6 (render v.docx_key v.schema_key tmp cmd.form_data)) _ w
          (λ r e. (foreign-ok 6 (render v.docx_key v.schema_key tmp cmd.form_data) w r e).1) h in
      let insert =
        transact (calls 0)
          (create_document (calls 0) (build_document_for_create cmd cd template) hash) in
      let (ids, inserts, run2, h2) = serv-ok (cleaning_up tmp insert) _ w h1 in
      let uncleaned = cleaning_up-ok tmp insert w inserts in
      let inserted = subst (λ r. r.0 ≡ ok ids) uncleaned inserts in
      let key = text_concat (
        "tenants/" ∷ cmd.tenant_id ∷ "/documents/" ∷ ids.0 ∷ "/revisions/" ∷ hash ∷ ".docx" ∷ []) in
      let adopt = foreign 7 (wiring.adopt_temp_object tmp key) in
      let (u, adopts, run3, h3) =
        serv-read (cleaning_up tmp adopt) _ _
          (λ u e.
            ap (λ (x : Result (Fault EditorError) (Unit {0}) × World). x.1)
              (cleaning_up-ok tmp adopt _ e)
            ∙ foreign-same 7 _ _)
          h2 in
      let adopted = subst (λ r. r.0 ≡ ok u) (cleaning_up-ok tmp adopt _ adopts) adopts in
      subst
        (λ (x : Result (Fault EditorError) CreateDocumentResult × World).
          IsMade calls wiring cmd cd template v (some render) w.tables a x.1.tables)
        (sym (run1 ∙ run2 ∙ run3))
        (finished-IsMade (some render) hash key ids w.tables _
          (transaction-ok (calls 0) 9 _ w.tables inserted
            ∙ ap
                (λ (x : Result (Fault EditorError) (String × String × String) × World).
                  ok (ids, x.1.tables))
                (sym uncleaned))
          (
            tmp,
            (foreign-ok 6 (render v.docx_key v.schema_key tmp cmd.form_data) w hash rendered).0,
            refl,
            (foreign-ok 7 (wiring.adopt_temp_object tmp key) _ u adopted).0,
          )
          h3)
