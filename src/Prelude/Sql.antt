-- ===== src/Prelude/Sql.antt =====
-- Database transactions over any tables `S`: a statement passes the working copy of the tables on,
-- or stops with a fault. Begin, commit and rollback as `database/sql` documents them.
use metal_docs.Prelude.Tests.{if◌then◌else◌}
use metal_docs.Prelude.Result.{Result, ok, err}
use Prim.Native.Nat.{ℕ}
use Prim.Native.String.{String}
use mathlib.Core.Bool.{Bool, false}
use mathlib.Core.Option.{Option, none, some}

-- `database` is a failure of the driver or the server at the numbered statement, for a reason
-- outside the tables of the model; `violation` is that of a constraint of the tables; `no_rows` is
-- `sql.ErrNoRows`, which the code passes on; `domain` is an error of the code's own.
pub data Fault (E : Type 0) : Type 0 where
  database : ℕ → Fault E
  violation : String → Fault E
  no_rows : Fault E
  domain : E → Fault E

-- What a call takes from outside: the clock of the server, the identifiers that it generates, and
-- which of the statements fail.
pub record Env : Type 0 where
  pub now : ℕ
  pub uuid : ℕ → String
  pub fails : ℕ → Bool

-- No constraint that the write could violate.
abbrev pub never : {S : Type 0} → S → Bool
never _ = false

abbrev pub Tx : Type 0 → Type 0 → Type 0 → Type 0
Tx E S A = S → Result (Fault E) (A × S)

module _ {E S : Type 0} where
  infixl 5 ◌>>=◌ ◌>>◌
  unfoldable pub ◌>>=◌ : {A B : Type 0} → Tx E S A → (A → Tx E S B) → Tx E S B
  ◌>>=◌ m f s = elim (m s) [ ok (a, t) ↦ f a t | err e ↦ err e ]

  abbrev pub ◌>>◌ : {A B : Type 0} → Tx E S A → Tx E S B → Tx E S B
  m >> k = m >>= λ _. k

  unfoldable pub pure : {A : Type 0} → A → Tx E S A
  pure a s = ok (a, s)

  unfoldable pub fail : {A : Type 0} → Fault E → Tx E S A
  fail e s = err e

  -- Stops with the error when the test holds.
  unfoldable pub fail_if : Bool → Fault E → Tx E S (Unit {0})
  fail_if b e s = if b then err e else ok (tt, s)

  -- The value, or the error when there is none.
  unfoldable pub or_fail : {A : Type 0} → Option A → Fault E → Tx E S A
  or_fail none e s = err e
  or_fail (some a) e s = ok (a, s)

  -- The statement with the number `k`: a SELECT, an unconditional write, and a write with the
  -- constraint that it can violate and what it returns of the tables that it finds.
  unfoldable pub query : {A : Type 0} → Env → ℕ → (S → A) → Tx E S A
  query env k f s = if env.fails k then err (database k) else ok (f s, s)

  unfoldable pub exec : Env → ℕ → (S → S) → Tx E S (Unit {0})
  exec env k f s = if env.fails k then err (database k) else ok (tt, f s)

  unfoldable pub write : {A : Type 0} → Env → ℕ → (S → Bool) → String → (S → A) → (S → S) → Tx E S A
  write env k violates name result f s =
      if env.fails k
      then err (database k)
      else if violates s
      then err (violation name)
      else ok (result s, f s)

  -- A statement on its own, which the server commits at once; after an error the tables are as they
  -- were.
  unfoldable pub settle : {A : Type 0} → S → Result (Fault E) (A × S) → Result (Fault E) A × S
  settle s (err e) = (err e, s)
  settle s (ok (a, t)) = (ok a, t)

  unfoldable pub autocommit : {A : Type 0} → Tx E S A → S → Result (Fault E) A × S
  autocommit m s = settle s (m s)

  -- `BeginTx` (statement 0), the body and `Commit` (statement `last`).
  unfoldable pub bracket : {A : Type 0} → Env → ℕ → Tx E S A → Tx E S A
  bracket env last m = do
    fail_if (env.fails 0) (database 0)
    a ← m
    fail_if (env.fails last) (database last)
    pure a

  abbrev pub transaction : {A : Type 0} → Env → ℕ → Tx E S A → S → Result (Fault E) A × S
  transaction env last m = autocommit (bracket env last m)

  -- The code returns early on an error of the first call, else goes on with the second.
  unfoldable pub follow :
      {A B : Type 0}
      → Result (Fault E) A × S
      → (A → S → Result (Fault E) B × S)
      → Result (Fault E) B × S
  follow (err e, s) f = (err e, s)
  follow (ok a, s) f = f a s
