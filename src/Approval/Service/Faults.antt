-- ===== src/Approval/Service/Faults.antt =====
-- Two limits of the services: quorums of two or more in the stages that a submission makes
-- (approval/application/submit_service.go and decision_service.go), and the batch of the scheduler
-- (approval/application/scheduler_service.go).
use mathlib.Core.Path.{subst}
use metal_docs.Prelude.{
  ℕ, ◌∙◌, zero, suc, ◌+◌, ◌≤◌, ◌≡◌, refl, ap, ◌&&◌, inl, inr, Bool, true, false, Option, none, some,
  List, [], ◌∷◌, arith,
}
use mathlib.Core.Option.{some-injective}
use metal_docs.Prelude.Tests.{Option-cases, if◌then◌else◌, Bool-cases, ltb, leb}
use metal_docs.Prelude.Lists.{All, length}
use metal_docs.Prelude.Result.{Result, ok, err, ok-injective}
use metal_docs.Prelude.Int.{pos}
use metal_docs.Approval.State.{scheduled, state_eq}
use metal_docs.Approval.Route.{Stage, m_of_n}
use metal_docs.Approval.Signoff.{Signoff, Decision, approve, reject, is_vote}
use metal_docs.Approval.Instance.{StageInstance}
use metal_docs.Approval.Quorum.{
  rejected_stage, evaluate_quorum, decide_quorum, count_votes, compute_effective_denominator,
}
use metal_docs.Approval.Store.Tables.{Document, Db}
use metal_docs.Approval.Store.Tx.{ServiceError, select}
use metal_docs.Approval.Service.{Env, call}
use metal_docs.Approval.Service.Keeps.{>>=-ok}
use metal_docs.Approval.Service.Outcomes.{call-ok}
use metal_docs.Approval.Service.Releases.{pure-ok}
use metal_docs.Approval.Service.Submit.{stage_instances}
use metal_docs.Approval.Service.Decide.{split_signoffs, quorum_denominator, stage_outcome}
use metal_docs.Approval.Service.Scheduler.{
  ScheduledPublishRow, insert_due, due_row, due_rows, first_rows, list_scheduled_due, process_row,
  RunDuePublishesResult, count_outcome, process_rows, run_fetched, fetch_due, scheduler_batch_limit,
  run_due_publishes,
}

-- The first signoff rejects the stage.
unfoldable pub IsRejectedByFirst : Signoff → StageInstance → Type 0
IsRejectedByFirst signoff s = stage_outcome s (signoff ∷ []) ≡ rejected_stage

rejected_by_first :
    (s : StageInstance) (signoff : Signoff) (k : ℕ)
    → s.quorum_snapshot ≡ m_of_n
    → s.quorum_m_snapshot ≡ some (pos (k + 2))
    → s.eligible_actor_ids ≡ []
    → is_vote signoff.decision ≡ true
    → stage_outcome s (signoff ∷ []) ≡ rejected_stage
unfolding stage_outcome split_signoffs quorum_denominator evaluate_quorum decide_quorum count_votes
    compute_effective_denominator
rejected_by_first s signoff k q m e v = by_decision signoff.decision v
  where
    by_decision :
        (d : Decision)
        → is_vote d ≡ true
        → stage_outcome s (record signoff { decision = d } ∷ []) ≡ rejected_stage
    by_decision approve v = rw (q, m, e) (ground arith)
    by_decision reject v = rw (q, m, e) (ground arith)
    by_decision (Decision.other t) v = cc

-- The stage at a position.
unfoldable pub stage_at {ℓ} : {A : Type ℓ} → ℕ → List A → Option A
stage_at n [] = none
stage_at zero (s ∷ stages) = some s
stage_at (suc n) (s ∷ stages) = stage_at n stages

-- Whatever the other stages of a route are, a submission makes of each of its stages that asks for
-- two or more approvals one, at the same position, that is rejected by its first signoff, an approval
-- as well as a rejection: a submission stores no eligible actors, and then `RecordSignoff` takes 1
-- for the denominator.
pub stage_instances-IsRejectedByFirst :
    (env : Env) (i n : ℕ) (stages : List Stage) (s : Stage) (k : ℕ) (signoff : Signoff)
    → is_vote signoff.decision ≡ true
    → stage_at n stages ≡ some s
    → s.quorum ≡ m_of_n
    → s.quorum_m ≡ some (pos (k + 2))
    → (made : StageInstance) × (stage_at n (stage_instances env i stages) ≡ some made)
      × IsRejectedByFirst signoff made
unfolding stage_at stage_instances IsRejectedByFirst
stage_instances-IsRejectedByFirst env i n [] s k signoff v at q m = cc
stage_instances-IsRejectedByFirst env i zero (r ∷ stages) s k signoff v at q m =
    let same = some-injective _ _ at in
    (
      _,
      refl,
      rejected_by_first _ signoff k (ap (λ (r : Stage). r.quorum) same ∙ q)
          (ap (λ (r : Stage). r.quorum_m) same ∙ m) refl v,
    )
stage_instances-IsRejectedByFirst env i (suc n) (r ∷ stages) s k signoff v at q m =
    stage_instances-IsRejectedByFirst env (suc i) n stages s k signoff v at q m

length-first_rows : (n : ℕ) (rows : List ScheduledPublishRow) → length (first_rows n rows) ≤ n
unfolding first_rows
length-first_rows zero rows = omega arith
length-first_rows (suc n) [] = omega arith
length-first_rows (suc n) (r ∷ rows) = omega (arith, length-first_rows n rows)

-- Every row that the scheduler takes.
unfoldable pub IsDue : ℕ → ScheduledPublishRow → Type 0
IsDue now row = row.effective_from ≤ now

insert_due-IsDue :
    (now : ℕ) (r : ScheduledPublishRow) (rows : List ScheduledPublishRow)
    → IsDue now r
    → All (IsDue now) rows
    → All (IsDue now) (insert_due r rows)
unfolding insert_due
insert_due-IsDue now r [] h k = (h, tt)
insert_due-IsDue now r (t ∷ rows) h k = elim (Bool-cases (ltb t.effective_from r.effective_from)) [
  | inl later ↦ rw (later, insert_due) (k.0, insert_due-IsDue now r rows h k.1)
  | inr first ↦ rw (first, insert_due) (h, (k.0, k.1))
]

count_outcome-le :
    (o : Result ServiceError Bool) (r : RunDuePublishesResult)
    → (count_outcome o r).processed + length (count_outcome o r).errors
      ≤ suc (r.processed + length r.errors)
unfolding count_outcome
count_outcome-le (err e) r = omega arith
count_outcome-le (ok true) r = omega arith
count_outcome-le (ok false) r = omega arith

-- What one run does is bounded: the documents published and the errors are at most the rows taken.
process_rows-le :
    (env : ℕ → Env) (i : ℕ) (rows : List ScheduledPublishRow) (db : Db)
    → (process_rows env i rows db).0.processed + length (process_rows env i rows db).0.errors
      ≤ length rows
unfolding process_rows
process_rows-le env i [] db = omega arith
process_rows-le env i (row ∷ rows) db = omega (
  arith,
  count_outcome-le (process_row (env i) row db).0
      (process_rows env (suc i) rows (process_row (env i) row db).1).0,
  process_rows-le env (suc i) rows (process_row (env i) row db).1,
)

when_some :
    {A : Type 0} (b : Bool) (x y : A)
    → ◌≡◌ {A = Option A} (if b then some x else none) (some y)
    → (b ≡ true) × (x ≡ y)
when_some true x y h = (refl, some-injective _ _ h)
when_some false x y h = cc

due_row-IsDue :
    (now : ℕ) (d : Document) (date : Option ℕ) (row : ScheduledPublishRow)
    → due_row now d date ≡ some row
    → IsDue now row
unfolding due_row IsDue
due_row-IsDue now d none row h = cc
due_row-IsDue now d (some t) row h =
    let (due, same) = when_some (state_eq d.status scheduled && leb t now) _ row h in
    subst (λ (r : ScheduledPublishRow). r.effective_from ≤ now) same (ground (arith, due))

due_rows-IsDue : (now : ℕ) (docs : List Document) → All (IsDue now) (due_rows now docs)
unfolding due_rows
due_rows-IsDue now [] = tt
due_rows-IsDue now (d ∷ docs) = elim (Option-cases (due_row now d d.effective_from)) [
  | inl out ↦ rw (out, due_rows) (due_rows-IsDue now docs)
  | inr (row, due) ↦
      rw (due, due_rows)
        (insert_due-IsDue now row (due_rows now docs) (due_row-IsDue now d d.effective_from row due)
          (due_rows-IsDue now docs))
]

first_rows-All :
    (P : ScheduledPublishRow → Type 0) (n : ℕ) (rows : List ScheduledPublishRow)
    → All P rows
    → All P (first_rows n rows)
unfolding first_rows
first_rows-All P zero rows h = tt
first_rows-All P (suc n) [] h = tt
first_rows-All P (suc n) (r ∷ rows) h = (h.0, first_rows-All P n rows h.1)

-- `ListScheduledDue` gives at most as many rows as the limit, and each has an effective date that is
-- not after `now`.
list_scheduled_due-IsDue :
    (now limit : ℕ) (docs : List Document)
    → (length (list_scheduled_due now limit docs) ≤ limit)
      × All (IsDue now) (list_scheduled_due now limit docs)
unfolding list_scheduled_due
list_scheduled_due-IsDue now limit docs = (
  length-first_rows limit (due_rows now docs),
  first_rows-All (IsDue now) limit (due_rows now docs) (due_rows-IsDue now docs),
)

run_fetched-ok :
    (env : ℕ → Env) (fetched : Result ServiceError (List ScheduledPublishRow × Db)) (db : Db)
    (r : RunDuePublishesResult)
    → (run_fetched env fetched db).0 ≡ ok r
    → (rows : List ScheduledPublishRow) × (mid : Db) × (fetched ≡ ok (rows, mid))
      × ((process_rows env 1 rows db).0 ≡ r)
unfolding run_fetched
run_fetched-ok env (err e) db r h = cc
run_fetched-ok env (ok (rows, mid)) db r h = (rows, mid, refl, ok-injective h)

select-ok :
    {A : Type 0} (f : Db → A) (db : Db) {a : A} {db' : Db} → select f db ≡ ok (a, db') → f db ≡ a
unfolding select
select-ok f db h = ap (λ p. p.0) (ok-injective h)

fetch_due-ok :
    (env : Env) (db : Db) {rows : List ScheduledPublishRow} {db' : Db}
    → call env 0 (fetch_due env) db ≡ ok (rows, db')
    → list_scheduled_due env.now scheduler_batch_limit db.documents ≡ rows
unfolding fetch_due
fetch_due-ok env db h =
    let f = λ (d : Db). list_scheduled_due env.now scheduler_batch_limit d.documents in
    let (due, mid, first, rest) =
      >>=-ok (call env 1 (select f)) _ db (call-ok env 0 (fetch_due env) db h) in
    let (same, _) = pure-ok env 2 due mid rest in
    select-ok f db (call-ok env 1 (select f) db first) ∙ same

-- A run of `RunDuePublishes` that does not fail in its first transaction publishes and fails at
-- most 50 documents together, the limit of its batch.
pub run_due_publishes-le :
    (env : ℕ → Env) (db : Db) (r : RunDuePublishesResult)
    → (run_due_publishes env db).0 ≡ ok r
    → r.processed + length r.errors ≤ 50
unfolding run_due_publishes
run_due_publishes-le env db r h =
    let (rows, mid, fetched, result) =
      run_fetched-ok env (call (env 0) 0 (fetch_due (env 0)) db) db r h in
    subst (λ x. x.processed + length x.errors ≤ 50) result
      (omega (
        arith,
        process_rows-le env 1 rows db,
        subst (λ l. length l ≤ 50) (fetch_due-ok (env 0) db fetched)
            (list_scheduled_due-IsDue (env 0).now scheduler_batch_limit db.documents).0,
      ))
