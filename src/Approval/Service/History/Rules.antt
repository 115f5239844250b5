-- ===== src/Approval/Service/History/Rules.antt =====
-- The statements on the tables, and what each does to them.
use mathlib.Core.Path.{subst}
use mathlib.Core.List.{append-nil, append_assoc}
use metal_docs.Prelude.{
  ℕ, ◌+◌, String, ◌≡◌, refl, sym, ap, ◌∙◌, Bool, true, false, not, ◌&&◌, Option, none, some, List,
  [], ◌∷◌, ◌++◌, arith,
}
use metal_docs.Prelude.Tests.{if◌then◌else◌}
use metal_docs.Prelude.Lists.{any, find_if, count_if, update_where}
use metal_docs.Prelude.Result.{ok}
use metal_docs.Approval.State.{trigger_allows}
use metal_docs.Approval.Signoff.{Signoff}
use metal_docs.Approval.Instance.{StageInstance, InstanceStatus, StageStatus}
use metal_docs.Approval.Store.Tables.{Document, thawed, Columns, InstanceRow, GovernanceEvent, Db}
use metal_docs.Approval.Store.Tx.{◌>>=◌, ◌>>◌, pure, select, fail_if, check_violation}
use metal_docs.Approval.Store.Repository.{
  write_documents, write_instances, write_stages, write_signoffs, emit, update_documents,
  insert_instance, insert_stage_instances, load_instance, owned_by, update_stage_status,
  update_instance_status,
}
use metal_docs.Approval.Store.Signing.{
  load_prior_signoffs, load_stage_signoffs, authored_by, same_signer, insert_or_compare, stored,
  insert_signoff,
}
use metal_docs.Approval.Service.Keeps.{IsHistory, Keeps, keeps_rules, same_db, >>=-ok, past_fail_if}
use metal_docs.Approval.Service.History.{
  Moves, done, move, freeze, AllMove, AllMove-refl, AllMove-trans, Extends, Signs, unsigned, signed,
  Signs-append, Evolves,
}

Extends-refl : {A : Type 0} (xs : List A) → Extends xs xs
unfolding Extends
Extends-refl xs = ([], sym (append-nil xs))

Extends-trans : {A : Type 0} (xs ys zs : List A) → Extends xs ys → Extends ys zs → Extends xs zs
unfolding Extends
Extends-trans xs ys zs (a, p) (b, q) = (a ++ b, q ∙ ap (λ l. l ++ b) p ∙ append_assoc xs a b)

Extends-add : {A : Type 0} (xs : List A) (x : A) → Extends xs (xs ++ (x ∷ []))
unfolding Extends
Extends-add xs x = (x ∷ [], refl)

-- A change of the other tables only.
Evolves-same :
    (db db' : Db)
    → db'.documents ≡ db.documents
    → db'.events ≡ db.events
    → db'.signoffs ≡ db.signoffs
    → db'.routes ≡ db.routes
    → Evolves db db'
Evolves-same db db' docs events signoffs routes = record {
  documents = subst (AllMove db.documents) (sym docs) (AllMove-refl db.documents);
  events = subst (Extends db.events) (sym events) (Extends-refl db.events);
  signoffs = subst (Signs db.signoffs) (sym signoffs) unsigned;
  routes = routes;
}

pub Evolves-IsHistory : IsHistory Evolves
Evolves-IsHistory = record {
  still = λ db. Evolves-same db db refl refl refl refl;
  next = λ a b c h k. record {
    documents = AllMove-trans a.documents b.documents c.documents h.documents k.documents;
    events = Extends-trans a.events b.events c.events h.events k.events;
    signoffs = Signs-append h.signoffs k.signoffs;
    routes = k.routes ∙ h.routes;
  };
}

pub Keeps-write_instances : (rows : List InstanceRow) → Keeps Evolves (write_instances rows)
unfolding write_instances
Keeps-write_instances rows = record {
  at = λ db a db' h.
      subst (Evolves db) (same_db h)
        (Evolves-same db (record db { instances = rows }) refl refl refl refl);
}

pub Keeps-write_stages : (rows : List StageInstance) → Keeps Evolves (write_stages rows)
unfolding write_stages
Keeps-write_stages rows = record {
  at = λ db a db' h.
      subst (Evolves db) (same_db h)
        (Evolves-same db (record db { stages = rows }) refl refl refl refl);
}

pub Keeps-emit : (event : GovernanceEvent) → Keeps Evolves (emit event)
unfolding emit
Keeps-emit event = record {
  at = λ db a db' h. subst (Evolves db) (same_db h) (record {
    documents = AllMove-refl db.documents;
    events = Extends-add db.events event;
    signoffs = unsigned;
    routes = refl;
  });
}

-- What the SET of an update of documents has to do.
unfoldable pub Bumps : (Document → Document) → Type 0
Bumps set =
    (d : Document)
    → ((set d).revision_version ≡ d.revision_version + 1)
      × ((set d).id ≡ d.id)
      × ((set d).tenant_id ≡ d.tenant_id)
      × ((set d).created_by ≡ d.created_by)

-- One row of an UPDATE that the trigger lets through.
unfoldable Steps : Bool → (Document → Document) → Type 0
Steps c set = (d : Document) → trigger_allows c d.status (set d).status ≡ true → Moves d (set d)

AllMove-update_where :
    (c : Bool) (where_ : Document → Bool) (set : Document → Document) (docs : List Document)
    → Steps c set
    → any (λ d. where_ d && not (trigger_allows c d.status (set d).status)) docs ≡ false
    → AllMove docs (update_where where_ set docs)
unfolding AllMove Steps
AllMove-update_where c where_ set [] steps none_refused = tt
AllMove-update_where c where_ set (d ∷ docs) steps none_refused =
    (row (where_ d) (ground arith), AllMove-update_where c where_ set docs steps (ground arith))
  where
    row :
        (hit : Bool)
        → (hit && not (trigger_allows c d.status (set d).status)) ≡ false
        → Moves d (if hit then set d else d)
    row true h = steps d (ground arith)
    row false h = done

Steps-update_documents :
    (c : Bool) (where_ : Document → Bool) (set : Document → Document)
    → Steps c set
    → Keeps Evolves (update_documents c where_ set)
unfolding update_documents write_documents select pure ◌>>=◌ fail_if
Steps-update_documents c where_ set steps = record {
  at = λ db a db' h.
      let refused =
        any (λ d. where_ d && not (trigger_allows c d.status (set d).status)) db.documents in
      let (p, rest) =
        past_fail_if refused check_violation
          (λ _.
            write_documents (update_where where_ set db.documents)
            >> pure (count_if where_ db.documents))
          db h in
      subst (Evolves db) (same_db rest) (record {
        documents = AllMove-update_where c where_ set db.documents steps p;
        events = Extends-refl db.events;
        signoffs = unsigned;
        routes = refl;
      });
}

Bumps-Steps : (c : Bool) (set : Document → Document) → Bumps set → Steps c set
unfolding Bumps Steps
Bumps-Steps c set bumps d allowed =
    move
      (record {
        c = c;
        allowed = allowed;
        bumped = (bumps d).0;
        same_id = (bumps d).1;
        same_tenant = (bumps d).2;
        same_author = (bumps d).3;
      })
      done

pub Keeps-update_documents :
    (c : Bool) (where_ : Document → Bool) (set : Document → Document)
    → Bumps set
    → Keeps Evolves (update_documents c where_ set)
Keeps-update_documents c where_ set bumps =
    Steps-update_documents c where_ set (Bumps-Steps c set bumps)

pub Keeps-freeze_documents :
    (c : Bool) (where_ : Document → Bool) (set : Document → Document)
    → ((d : Document) → thawed (set d) ≡ thawed d)
    → Keeps Evolves (update_documents c where_ set)
unfolding Steps
Keeps-freeze_documents c where_ set thaws =
    Steps-update_documents c where_ set (λ d allowed. freeze (record { same = thaws d }) done)

find_if-none : {A : Type 0} (p : A → Bool) (xs : List A) → find_if p xs ≡ none → any p xs ≡ false
find_if-none p [] h = refl
find_if-none p (x ∷ xs) h = ground (arith, find_if-none p xs)

Keeps-insert_or_compare :
    (columns : Columns) (s row : Signoff) (rows : List Signoff)
    → Keeps Evolves (insert_or_compare columns s (some row) rows)
unfolding insert_or_compare
Keeps-insert_or_compare columns s row rows = search (keeps_rules, Evolves-IsHistory)

insert_or_compare-Evolves :
    (columns : Columns) (s : Signoff) (o : Option Signoff) (db : Db) (a : Bool) (db' : Db)
    → find_if (same_signer s) db.signoffs ≡ o
    → insert_or_compare columns s o db.signoffs db ≡ ok (a, db')
    → Evolves db db'
unfolding insert_or_compare write_signoffs pure ◌>>=◌
insert_or_compare-Evolves columns s none db a db' absent h =
    subst (Evolves db) (same_db h) (record {
      documents = AllMove-refl db.documents;
      events = Extends-refl db.events;
      signoffs =
          signed (stored columns s) (find_if-none (same_signer s) db.signoffs absent) unsigned;
      routes = refl;
    })
insert_or_compare-Evolves columns s (some row) db a db' present h =
    (Keeps-insert_or_compare columns s row db.signoffs).at db a db' h

pub Keeps-insert_signoff :
    (columns : Columns) (s : Signoff) → Keeps Evolves (insert_signoff columns s)
unfolding insert_signoff select ◌>>=◌
Keeps-insert_signoff columns s = record {
  at = λ db a db' h.
      let owner = not (owned_by s.actor_tenant_id s.approval_instance_id db.instances) in
      let author = authored_by s.actor_user_id s.approval_instance_id db.instances db.documents in
      let last = select (λ at. at.signoffs) >>= λ rows.
      insert_or_compare columns s (find_if (same_signer s) rows) rows in
      let (_, then_author) =
        past_fail_if owner check_violation (λ _. fail_if author check_violation >> last) db h in
      let (_, inserted) = past_fail_if author check_violation (λ _. last) db then_author in
      insert_or_compare-Evolves columns s (find_if (same_signer s) db.signoffs) db a db' refl
        inserted;
}

pub Keeps-insert_instance : (row : InstanceRow) → Keeps Evolves (insert_instance row)
unfolding insert_instance
Keeps-insert_instance row = search (keeps_rules, Evolves-IsHistory, Keeps-write_instances) depth 12

pub Keeps-insert_stage_instances :
    (new : List StageInstance) → Keeps Evolves (insert_stage_instances new)
unfolding insert_stage_instances
Keeps-insert_stage_instances new = search (keeps_rules, Evolves-IsHistory, Keeps-write_stages)

pub Keeps-load_instance : (tenant_id id : String) → Keeps Evolves (load_instance tenant_id id)
unfolding load_instance
Keeps-load_instance tenant_id id = search (keeps_rules, Evolves-IsHistory)

pub Keeps-update_stage_status :
    (now : ℕ) (tenant_id stage_id : String) (new expected : StageStatus)
    → Keeps Evolves (update_stage_status now tenant_id stage_id new expected)
unfolding update_stage_status
Keeps-update_stage_status now tenant_id stage_id new expected =
    search (keeps_rules, Evolves-IsHistory, Keeps-write_stages)

pub Keeps-update_instance_status :
    (tenant_id id : String) (new expected : InstanceStatus) (completed_at : Option ℕ)
    → Keeps Evolves (update_instance_status tenant_id id new expected completed_at)
unfolding update_instance_status
Keeps-update_instance_status tenant_id id new expected completed_at =
    search (keeps_rules, Evolves-IsHistory, Keeps-write_instances)

pub Keeps-load_prior_signoffs :
    (tenant_id instance_id stage_id : String)
    → Keeps Evolves (load_prior_signoffs tenant_id instance_id stage_id)
unfolding load_prior_signoffs
Keeps-load_prior_signoffs tenant_id instance_id stage_id = search (keeps_rules, Evolves-IsHistory)

pub Keeps-load_stage_signoffs : (stage_id : String) → Keeps Evolves (load_stage_signoffs stage_id)
unfolding load_stage_signoffs
Keeps-load_stage_signoffs stage_id = search (keeps_rules, Evolves-IsHistory)

pub ruleset statement_rules = (
  keeps_rules, Evolves-IsHistory, Keeps-emit, Keeps-update_documents, Keeps-insert_signoff,
  Keeps-insert_instance, Keeps-insert_stage_instances, Keeps-load_instance,
  Keeps-update_stage_status, Keeps-update_instance_status, Keeps-load_prior_signoffs,
  Keeps-load_stage_signoffs, Keeps-write_instances, Keeps-write_stages,
)
