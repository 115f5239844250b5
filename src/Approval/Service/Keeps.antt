-- ===== src/Approval/Service/Keeps.antt =====
-- What the success of a transaction guarantees, by one rule for each way to build a transaction.
use mathlib.Core.Path.{subst}
use metal_docs.Prelude.{ℕ, ◌⊎◌, inl, inr, ◌≡◌, refl, ap, Bool, true, false, Option, none, some}
use metal_docs.Prelude.Tests.{if◌then◌else◌}
use metal_docs.Prelude.Result.{Result, ok, err, ok-injective}
use metal_docs.Approval.Store.Tables.{Db}
use metal_docs.Approval.Store.Tx.{
  ServiceError, database, Tx, ◌>>=◌, pure, fail, fail_if, or_fail, passes, lift, select, run_tx,
}
use metal_docs.Approval.Service.{Env, call, set_config}

-- A relation of tables that holds when nothing is done, and of one change after another.
pub record IsHistory (R : Db → Db → Type 0) : Type 0 where
  pub still : (db : Db) → R db db
  pub next : (a b c : Db) → R a b → R b c → R a c

-- When `m` succeeds, the tables before and after are related.
pub record Keeps {A : Type 0} (R : Db → Db → Type 0) (m : Tx A) : Type 0 where
  pub at : (db : Db) (a : A) (db' : Db) → m db ≡ ok (a, db') → R db db'

pub same_db :
    {A : Type 0} {a b : A} {db db' : Db}
    → ◌≡◌ {A = Result ServiceError (A × Db)} (ok (a, db)) (ok (b, db'))
    → db ≡ db'
same_db h = ap (λ p. p.1) (ok-injective h)

result_cases :
    {A : Type 0} (r : Result ServiceError (A × Db))
    → ((e : ServiceError) × (r ≡ err e)) ⊎ ((a : A) × (db : Db) × (r ≡ ok (a, db)))
result_cases (ok (a, db)) = inr (a, db, refl)
result_cases (err e) = inl (e, refl)

run_ok :
    {A B : Type 0} (f : A → Tx B) (r : Result ServiceError (A × Db)) {b : B} {db' : Db}
    → elim r [ ok (a, mid) ↦ f a mid | err e ↦ err e ] ≡ ok (b, db')
    → (a : A) × (mid : Db) × (r ≡ ok (a, mid)) × (f a mid ≡ ok (b, db'))
run_ok f (ok (a, mid)) h = (a, mid, refl, h)
run_ok f (err e) h = cc

-- A block that succeeds ran its first step with success, and then its rest.
pub >>=-ok :
    {A B : Type 0} (m : Tx A) (f : A → Tx B) (db : Db) {b : B} {db' : Db}
    → (m >>= f) db ≡ ok (b, db')
    → (a : A) × (mid : Db) × (m db ≡ ok (a, mid)) × (f a mid ≡ ok (b, db'))
unfolding ◌>>=◌
>>=-ok m f db h = run_ok f (m db) h

pub fail_if-ok :
    (b : Bool) (e : ServiceError) (db : Db) {u : Unit {0}} {db' : Db}
    → fail_if b e db ≡ ok (u, db')
    → (b ≡ false) × (db ≡ db')
unfolding fail_if
fail_if-ok true e db h = cc
fail_if-ok false e db h = (refl, same_db h)

-- A block that starts with a test goes on in the same tables when the test does not hold.
pub past_fail_if :
    {B : Type 0} (t : Bool) (e : ServiceError) (f : Unit {0} → Tx B) (db : Db) {b : B} {db' : Db}
    → (fail_if t e >>= f) db ≡ ok (b, db')
    → (t ≡ false) × (f tt db ≡ ok (b, db'))
unfolding ◌>>=◌ fail_if
past_fail_if true e f db h = cc
past_fail_if false e f db h = (refl, h)

module _ (R : Db → Db → Type 0) (history : IsHistory R) where
  pub Keeps-same :
      {A : Type 0} (m : Tx A)
      → ((db : Db) (a : A) (db' : Db) → m db ≡ ok (a, db') → db ≡ db')
      → Keeps R m
  Keeps-same m same = record {
    at = λ db a db' e. subst (R db) (same db a db' e) (history.still db);
  }

  pub Keeps-pure : {A : Type 0} (a : A) → Keeps R (pure a)
  unfolding pure
  Keeps-pure a = Keeps-same (pure a) (λ db b db' e. same_db e)

  pub Keeps-select : {A : Type 0} (f : Db → A) → Keeps R (select f)
  unfolding select
  Keeps-select f = Keeps-same (select f) (λ db b db' e. same_db e)

  pub Keeps-fail : {A : Type 0} (e : ServiceError) → Keeps R (fail {A = A} e)
  unfolding fail
  Keeps-fail e = record { at = λ db a db' h. cc }

  pub Keeps-fail_if : (b : Bool) (e : ServiceError) → Keeps R (fail_if b e)
  Keeps-fail_if b e = Keeps-same (fail_if b e) (λ db a db' h. (fail_if-ok b e db h).1)

  pub Keeps-or_fail : {A : Type 0} (o : Option A) (e : ServiceError) → Keeps R (or_fail o e)
  unfolding or_fail
  Keeps-or_fail none e = record { at = λ db a db' h. cc }
  Keeps-or_fail (some a) e = Keeps-same (or_fail (some a) e) (λ db b db' h. same_db h)

  pub Keeps-passes : {E : Type 0} (o : Option E) (wrap : E → ServiceError) → Keeps R (passes o wrap)
  unfolding passes
  Keeps-passes none wrap = Keeps-same (passes none wrap) (λ db b db' h. same_db h)
  Keeps-passes (some e) wrap = record { at = λ db a db' h. cc }

  pub Keeps-lift : {E A : Type 0} (wrap : E → ServiceError) (r : Result E A) → Keeps R (lift wrap r)
  unfolding lift
  Keeps-lift wrap (ok a) = Keeps-same (lift wrap (ok a)) (λ db b db' h. same_db h)
  Keeps-lift wrap (err e) = record { at = λ db a db' h. cc }

  pub Keeps->>= :
      {A B : Type 0} (m : Tx A) (f : A → Tx B)
      → Keeps R m
      → ((a : A) → Keeps R (f a))
      → Keeps R (m >>= f)
  Keeps->>= m f km kf = record {
    at = λ db b db' h.
        let (a, mid, first, rest) = >>=-ok m f db h in
        history.next db mid db' (km.at db a mid first) ((kf a).at mid b db' rest);
  }

  pub Keeps-call : {A : Type 0} (env : Env) (k : ℕ) (m : Tx A) → Keeps R m → Keeps R (call env k m)
  unfolding call
  Keeps-call env k m km =
      Keeps->>= (fail_if (env.fails k) (database k)) (λ _. m)
        (Keeps-fail_if (env.fails k) (database k)) (λ _. km)

  pub Keeps-set_config : (env : Env) (k : ℕ) → Keeps R (set_config env k)
  unfolding set_config
  Keeps-set_config env k = Keeps-call env k (pure tt) (Keeps-pure tt)

  pub Keeps-if :
      {A : Type 0} (b : Bool) (m n : Tx A) → Keeps R m → Keeps R n → Keeps R (if b then m else n)
  Keeps-if true m n km kn = km
  Keeps-if false m n km kn = kn

  -- A committed transaction and one that is rolled back.
  pub run_tx-Keeps : {A : Type 0} (m : Tx A) (db : Db) → Keeps R m → R db (run_tx m db).1
  unfolding run_tx
  run_tx-Keeps m db km = elim (result_cases (m db)) [
    | inl (e, failed) ↦ rw (failed, run_tx) (history.still db)
    | inr (a, db', done) ↦ rw (done, run_tx) (km.at db a db' done)
  ]

pub ruleset keeps_rules = (
  Keeps-pure, Keeps-select, Keeps-fail, Keeps-fail_if, Keeps-or_fail, Keeps-passes, Keeps-lift,
  Keeps->>=, Keeps-call, Keeps-set_config, Keeps-if,
)
