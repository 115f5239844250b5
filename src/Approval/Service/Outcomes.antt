-- ===== src/Approval/Service/Outcomes.antt =====
-- What the success of a service says of the tables before and after.
use metal_docs.Prelude.{
  ℕ, String, ◌≡◌, refl, sym, ap, ◌∙◌, Bool, true, not, ◌&&◌, Option, none, some, arith,
}
use metal_docs.Prelude.Lists.{any, find_if, count_if, update_where}
use metal_docs.Prelude.Result.{Result, ok, err, ok-injective}
use metal_docs.Prelude.Text.{str_eq}
use metal_docs.Approval.State.{trigger_allows}
use metal_docs.Approval.Instance.{Instance}
use metal_docs.Approval.Store.Tables.{Document, InstanceRow, Db}
use metal_docs.Approval.Store.Tx.{
  ServiceError, database, check_violation, no_active_instance, Tx, ◌>>=◌, ◌>>◌, pure, or_fail,
  select, run_tx,
}
use metal_docs.Approval.Store.Repository.{
  update_documents, write_documents, instance_of, load_instance,
}
use metal_docs.Approval.Service.{Env, call, set_config, require, is_granted}
use metal_docs.Approval.Service.Keeps.{>>=-ok, fail_if-ok, past_fail_if, same_db}

pub call-ok :
    {A : Type 0} (env : Env) (k : ℕ) (m : Tx A) (db : Db) {a : A} {db' : Db}
    → call env k m db ≡ ok (a, db')
    → m db ≡ ok (a, db')
unfolding call
call-ok env k m db h = (past_fail_if (env.fails k) (database k) (λ _. m) db h).1

pub or_fail-ok :
    {A : Type 0} (o : Option A) (e : ServiceError) (db : Db) {a : A} {db' : Db}
    → or_fail o e db ≡ ok (a, db')
    → (o ≡ some a) × (db ≡ db')
unfolding or_fail
or_fail-ok none e db h = cc
or_fail-ok (some a) e db h = (ap (λ p. some p.0) (ok-injective h), same_db h)

pub set_config-ok :
    (env : Env) (k : ℕ) (db : Db) {u : Unit {0}} {db' : Db}
    → set_config env k db ≡ ok (u, db')
    → db ≡ db'
unfolding set_config pure
set_config-ok env k db h = same_db (call-ok env k (pure tt) db h)

-- A transaction that `run_tx` reports as a success.
pub run_tx-ok :
    {A : Type 0} (m : Tx A) (db : Db) {a : A}
    → (run_tx m db).0 ≡ ok a
    → (db' : Db) × (m db ≡ ok (a, db')) × ((run_tx m db).1 ≡ db')
unfolding run_tx
run_tx-ok m db h = committed (m db) db h
  where
    committed :
        {A : Type 0} (r : Result ServiceError (A × Db)) (db : Db) {a : A}
        → (elim r as (λ _. Result ServiceError A × Db) [
          | ok (a, db') ↦ (ok a, db')
          | err e ↦ (err e, db)
        ]).0
          ≡ ok a
        → (db' : Db) × (r ≡ ok (a, db'))
          × ((elim r as (λ _. Result ServiceError A × Db) [
            | ok (a, db') ↦ (ok a, db')
            | err e ↦ (err e, db)
          ]).1
              ≡ db')
    committed (ok (b, db')) db h = (db', ap (λ b. ok (b, db')) (ok-injective h), refl)
    committed (err e) db h = cc

-- `LoadInstance` reads a row of the tenant, and leaves `RevisionVersion` at zero.
pub record IsLoaded (tenant_id id : String) (db : Db) (inst : Instance) : Type 0 where
  pub row : InstanceRow
  pub found :
      find_if (λ (r : InstanceRow). str_eq r.id id && str_eq r.tenant_id tenant_id) db.instances
      ≡ some row
  pub built : inst ≡ instance_of row db.stages

pub load_instance-ok :
    (tenant_id id : String) (db : Db) {inst : Instance} {db' : Db}
    → load_instance tenant_id id db ≡ ok (inst, db')
    → IsLoaded tenant_id id db inst × (db ≡ db')
unfolding load_instance select pure ◌>>=◌
load_instance-ok tenant_id id db h =
    let found =
      find_if (λ (r : InstanceRow). str_eq r.id id && str_eq r.tenant_id tenant_id) db.instances in
    let (row, mid, first, rest) =
      >>=-ok (or_fail found no_active_instance)
        (λ row. select (λ d. d.stages) >>= λ stages. pure (instance_of row stages)) db h in
    let (is_row, same) = or_fail-ok found no_active_instance db first in
    (
      record {
        row = row;
        found = is_row;
        built =
            ap (λ p. p.0) (sym (ok-injective rest))
            ∙ ap (λ (d : Db). instance_of row d.stages) (sym same);
      },
      same ∙ same_db rest,
    )

-- An update of documents that succeeds has changed the rows that it names, and its result counts
-- them.
pub record IsUpdated (where_ : Document → Bool) (set : Document → Document) (db : Db) (n : ℕ)
    (db' : Db) : Type 0 where
  pub affected : n ≡ count_if where_ db.documents
  pub tables : db' ≡ record db { documents = update_where where_ set db.documents }

pub update_documents-ok :
    (c : Bool) (where_ : Document → Bool) (set : Document → Document) (db : Db) {n : ℕ} {db' : Db}
    → update_documents c where_ set db ≡ ok (n, db')
    → IsUpdated where_ set db n db'
unfolding update_documents write_documents select pure ◌>>=◌
update_documents-ok c where_ set db h =
    let refused =
      any (λ d. where_ d && not (trigger_allows c d.status (set d).status)) db.documents in
    let (_, rest) =
      past_fail_if refused check_violation
        (λ _.
          write_documents (update_where where_ set db.documents)
          >> pure (count_if where_ db.documents))
        db h in
    record { affected = ap (λ p. p.0) (sym (ok-injective rest)); tables = sym (same_db rest) }

pub require-ok :
    (env : Env) (tenant_id actor capability area_code : String) (db : Db) {u : Unit {0}} {db' : Db}
    → require env (some (tenant_id, actor)) capability area_code db ≡ ok (u, db')
    → (is_granted env tenant_id actor capability area_code ≡ true) × (db ≡ db')
unfolding require
require-ok env tenant_id actor capability area_code db h =
    let (granted, same) =
      fail_if-ok (not (is_granted env tenant_id actor capability area_code)) _ db h in
    (ground (arith, granted), same)
