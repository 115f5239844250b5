-- ===== src/Prelude/Committed.antt =====
-- What the success of a transaction says of its statements, and the relations of tables that it
-- keeps.
use mathlib.Core.Path.{◌≡◌, refl, ap, ◌∙◌}
use mathlib.Core.Bool.{Bool, true, false}
use mathlib.Core.Option.{Option, none, some, some-injective}
use Prim.Native.Nat.{ℕ}
use Prim.Native.String.{String}
use metal_docs.Prelude.Tests.{if◌then◌else◌}
use metal_docs.Prelude.Result.{Result, ok, err, ok-injective, past_guard}
use metal_docs.Prelude.Sql.{
  Fault, database, violation, Env, Tx, ◌>>=◌, pure, fail_if, or_fail, query, exec, write, settle,
  autocommit, bracket, transaction,
}

module _ {E S : Type 0} where
  pub same_tables :
      {A : Type 0} {a b : A} {s t : S}
      → ◌≡◌ {A = Result (Fault E) (A × S)} (ok (a, s)) (ok (b, t))
      → s ≡ t
  same_tables h = ap (λ p. p.1) (ok-injective h)

  pub same_value :
      {A : Type 0} {a b : A} {s t : S}
      → ◌≡◌ {A = Result (Fault E) (A × S)} (ok (a, s)) (ok (b, t))
      → a ≡ b
  same_value h = ap (λ p. p.0) (ok-injective h)

  run_ok :
      {A B : Type 0} (f : A → Tx E S B) (r : Result (Fault E) (A × S)) {b : B} {t : S}
      → elim r as (λ _. Result (Fault E) (B × S)) [ ok (a, mid) ↦ f a mid | err e ↦ err e ]
        ≡ ok (b, t)
      → (a : A) × (mid : S) × (r ≡ ok (a, mid)) × (f a mid ≡ ok (b, t))
  run_ok f (ok (a, mid)) h = (a, mid, refl, h)
  run_ok f (err e) h = cc

  pub bind-ok :
      {A B : Type 0} (m : Tx E S A) (f : A → Tx E S B) (s : S) {b : B} {t : S}
      → (m >>= f) s ≡ ok (b, t)
      → (a : A) × (mid : S) × (m s ≡ ok (a, mid)) × (f a mid ≡ ok (b, t))
  unfolding ◌>>=◌
  bind-ok m f s h = run_ok f (m s) h

  -- How a block goes on after each statement, when it succeeds.
  pub past_fail_if :
      {B : Type 0} (c : Bool) (e : Fault E) (f : Unit {0} → Tx E S B) (s : S) {b : B} {t : S}
      → (fail_if c e >>= f) s ≡ ok (b, t)
      → (c ≡ false) × (f tt s ≡ ok (b, t))
  unfolding ◌>>=◌ fail_if
  past_fail_if true e f s h = cc
  past_fail_if false e f s h = (refl, h)

  pub past_or_fail :
      {A B : Type 0} (o : Option A) (e : Fault E) (f : A → Tx E S B) (s : S) {b : B} {t : S}
      → (or_fail o e >>= f) s ≡ ok (b, t)
      → (a : A) × (o ≡ some a) × (f a s ≡ ok (b, t))
  unfolding ◌>>=◌ or_fail
  past_or_fail none e f s h = cc
  past_or_fail (some a) e f s h = (a, refl, h)

  pub fail_if-ok :
      (c : Bool) (e : Fault E) (s : S) {u : Unit {0}} {t : S}
      → fail_if c e s ≡ ok (u, t)
      → (c ≡ false) × (s ≡ t)
  unfolding fail_if
  fail_if-ok true e s h = cc
  fail_if-ok false e s h = (refl, same_tables h)

  pub or_fail-ok :
      {A : Type 0} (o : Option A) (e : Fault E) (s : S) {a : A} {t : S}
      → or_fail o e s ≡ ok (a, t)
      → (o ≡ some a) × (s ≡ t)
  unfolding or_fail
  or_fail-ok none e s h = cc
  or_fail-ok (some b) e s h = (ap (λ a. some a) (same_value h), same_tables h)

  query_cases :
      {A B : Type 0} (failed : Bool) (k : ℕ) (a : A) (f : A → Tx E S B) (s : S) {b : B} {t : S}
      → elim (if◌then◌else◌ {A = Result (Fault E) (A × S)} failed (err (database k)) (ok (a, s)))
          as (λ _. Result (Fault E) (B × S)) [ ok (x, mid) ↦ f x mid | err e ↦ err e ]
        ≡ ok (b, t)
      → f a s ≡ ok (b, t)
  query_cases true k a f s h = cc
  query_cases false k a f s h = h

  pub past_query :
      {A B : Type 0} (env : Env) (k : ℕ) (g : S → A) (f : A → Tx E S B) (s : S) {b : B} {t : S}
      → (query env k g >>= f) s ≡ ok (b, t)
      → f (g s) s ≡ ok (b, t)
  unfolding ◌>>=◌ query
  past_query env k g f s h = query_cases (env.fails k) k (g s) f s h

  pub past_exec :
      {B : Type 0} (env : Env) (k : ℕ) (g : S → S) (f : Unit {0} → Tx E S B) (s : S) {b : B} {t : S}
      → (exec env k g >>= f) s ≡ ok (b, t)
      → f tt (g s) ≡ ok (b, t)
  unfolding ◌>>=◌ exec
  past_exec env k g f s h = query_cases (env.fails k) k tt f (g s) h

  write_cases :
      {A B : Type 0} (c : Bool) (e : Fault E) (a : A) (f : A → Tx E S B) (mid : S) {b : B} {t : S}
      → elim (if◌then◌else◌ {A = Result (Fault E) (A × S)} c (err e) (ok (a, mid)))
          as (λ _. Result (Fault E) (B × S)) [ ok (x, mid) ↦ f x mid | err e ↦ err e ]
        ≡ ok (b, t)
      → (c ≡ false) × (f a mid ≡ ok (b, t))
  write_cases true e a f mid h = cc
  write_cases false e a f mid h = (refl, h)

  write_runs :
      {A B : Type 0} (failed c : Bool) (k : ℕ) (e : Fault E) (a : A) (f : A → Tx E S B) (mid : S)
      {b : B} {t : S}
      → elim (if◌then◌else◌ {A = Result (Fault E) (A × S)} failed
            (err (database k))
            (if c then err e else ok (a, mid)))
          as (λ _. Result (Fault E) (B × S)) [ ok (x, mid) ↦ f x mid | err e ↦ err e ]
        ≡ ok (b, t)
      → (c ≡ false) × (f a mid ≡ ok (b, t))
  write_runs true c k e a f mid h = cc
  write_runs false c k e a f mid h = write_cases c e a f mid h

  pub past_write :
      {A B : Type 0} (env : Env) (k : ℕ) (violates : S → Bool) (name : String) (result : S → A)
      (g : S → S) (f : A → Tx E S B) (s : S) {b : B} {t : S}
      → (write env k violates name result g >>= f) s ≡ ok (b, t)
      → (violates s ≡ false) × (f (result s) (g s) ≡ ok (b, t))
  unfolding ◌>>=◌ write
  past_write env k violates name result g f s h =
      write_runs (env.fails k) (violates s) k (violation name) (result s) f (g s) h

  pub write-ok :
      {A : Type 0} (env : Env) (k : ℕ) (violates : S → Bool) (name : String) (result : S → A)
      (g : S → S) (s : S) {a : A} {t : S}
      → write {E = E} env k violates name result g s ≡ ok (a, t)
      → (violates s ≡ false) × (result s ≡ a) × (g s ≡ t)
  unfolding write
  write-ok env k violates name result g s h =
      let (_, rest) = past_guard (env.fails k) (database k) _ h in
      let (legal, done) = past_guard (violates s) (violation name) _ rest in
      (legal, same_value done, same_tables done)

  pub pure-ok :
      {A : Type 0} (a : A) (s : S) {b : A} {t : S}
      → ◌≡◌ {A = Result (Fault E) (A × S)} (pure a s) (ok (b, t))
      → (a ≡ b) × (s ≡ t)
  unfolding pure
  pure-ok a s h = (same_value h, same_tables h)

  settle-ok :
      {A : Type 0} (s : S) (r : Result (Fault E) (A × S)) {a : A}
      → (settle s r).0 ≡ ok a
      → r ≡ ok (a, (settle s r).1)
  unfolding settle
  settle-ok s (err e) h = cc
  settle-ok s (ok (a, t)) h = ap (λ b. ok (b, t)) (ok-injective h)

  -- A statement is committed with its value, or leaves the tables as they were.
  pub autocommit-ok :
      {A : Type 0} (m : Tx E S A) (s : S) {a : A}
      → (autocommit m s).0 ≡ ok a
      → m s ≡ ok (a, (autocommit m s).1)
  unfolding autocommit
  autocommit-ok m s h = settle-ok s (m s) h

  pub bracket-ok :
      {A : Type 0} (env : Env) (last : ℕ) (m : Tx E S A) (s : S) {a : A} {t : S}
      → bracket env last m s ≡ ok (a, t)
      → m s ≡ ok (a, t)
  unfolding bracket pure
  bracket-ok {A = A} env last m s h =
      let end : A → Tx E S A = λ a. (fail_if (env.fails last) (database last) >>= λ _. pure a) in
      let (_, body) = past_fail_if (env.fails 0) (database 0) (λ _. m >>= end) s h in
      let (a, mid, done, rest) = bind-ok m end s body in
      let (_, closed) = past_fail_if (env.fails last) (database last) (λ _. pure a) mid rest in
      done ∙ closed

  pub transaction-ok :
      {A : Type 0} (env : Env) (last : ℕ) (m : Tx E S A) (s : S) {a : A}
      → (transaction env last m s).0 ≡ ok a
      → m s ≡ ok (a, (transaction env last m s).1)
  transaction-ok env last m s h = bracket-ok env last m s (autocommit-ok (bracket env last m) s h)

  -- What every success establishes between the tables holds after the call, if it holds when
  -- nothing is done.
  settle-relates :
      {A : Type 0} (R : S → S → Type 0) (s : S) (r : Result (Fault E) (A × S))
      → R s s
      → ((a : A) (t : S) → r ≡ ok (a, t) → R s t)
      → R s (settle s r).1
  unfolding settle
  settle-relates R s (err e) still k = still
  settle-relates R s (ok (a, t)) still k = k a t refl

  pub autocommit-relates :
      {A : Type 0} (R : S → S → Type 0) (m : Tx E S A) (s : S)
      → R s s
      → ((a : A) (t : S) → m s ≡ ok (a, t) → R s t)
      → R s (autocommit m s).1
  unfolding autocommit
  autocommit-relates R m s still k = settle-relates R s (m s) still k

  pub transaction-relates :
      {A : Type 0} (R : S → S → Type 0) (env : Env) (last : ℕ) (m : Tx E S A) (s : S)
      → R s s
      → ((a : A) (t : S) → m s ≡ ok (a, t) → R s t)
      → R s (transaction env last m s).1
  transaction-relates R env last m s still k =
      autocommit-relates R (bracket env last m) s still (λ a t e. k a t (bracket-ok env last m s e))

-- How a block goes on, when its first statement is known to pass.
module _ {E S B : Type 0} (s : S) where
  query_passes :
      {A : Type 0} (failed : Bool) (k : ℕ) (a : A) (f : A → Tx E S B)
      → failed ≡ false
      → elim (if◌then◌else◌ {A = Result (Fault E) (A × S)} failed (err (database k)) (ok (a, s)))
          as (λ _. Result (Fault E) (B × S)) [ ok (x, mid) ↦ f x mid | err e ↦ err e ]
        ≡ f a s
  query_passes true k a f h = cc
  query_passes false k a f h = refl

  pub query-passes :
      {A : Type 0} (env : Env) (k : ℕ) (g : S → A) (f : A → Tx E S B)
      → env.fails k ≡ false
      → (query env k g >>= f) s ≡ f (g s) s
  unfolding ◌>>=◌ query
  query-passes env k g f h = query_passes (env.fails k) k (g s) f h

  pub or_fail-passes :
      {A : Type 0} (o : Option A) (e : Fault E) (f : A → Tx E S B) {a : A}
      → o ≡ some a
      → (or_fail o e >>= f) s ≡ f a s
  unfolding ◌>>=◌ or_fail
  or_fail-passes none e f h = cc
  or_fail-passes (some b) e f h = ap (λ b. f b s) (some-injective _ _ h)

  pub fail_if-passes :
      (c : Bool) (e : Fault E) (f : Unit {0} → Tx E S B)
      → c ≡ false
      → (fail_if c e >>= f) s ≡ f tt s
  unfolding ◌>>=◌ fail_if
  fail_if-passes true e f h = cc
  fail_if-passes false e f h = refl

-- A write that passes.
pub write-passes :
    {E S A : Type 0} (s : S) (env : Env) (k : ℕ) (violates : S → Bool) (name : String)
    (result : S → A) (g : S → S)
    → env.fails k ≡ false
    → violates s ≡ false
    → write {E = E} env k violates name result g s ≡ ok (result s, g s)
unfolding write
write-passes s env k violates name result g h legal = rw (h, legal) refl
