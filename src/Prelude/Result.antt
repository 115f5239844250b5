-- ===== src/Prelude/Result.antt =====
-- What a fallible Go function returns: `ok` for a nil error, `err` with the error otherwise.
use mathlib.Core.Path.{◌≡◌, refl, ap}
use mathlib.Core.Bool.{Bool, true, false}
use metal_docs.Prelude.Tests.{if◌then◌else◌}

pub data Result (E A : Type 0) : Type 0 where
  ok : A → Result E A
  err : E → Result E A

-- Goes on with the value of a success.
abbrev pub and_then : {E A B : Type 0} → (A → Result E B) → Result E A → Result E B
and_then f (err e) = err e
and_then f (ok a) = f a

-- The value of a success, or the given default.
abbrev pub ok_or : {E A : Type 0} → A → Result E A → A
ok_or d (ok a) = a
ok_or d (err _) = d

pub ok-injective : {E A : Type 0} {a b : A} → ◌≡◌ {A = Result E A} (ok a) (ok b) → a ≡ b
ok-injective {a} h = ap (ok_or a) h

-- A check that returns early on an error was passed by every run that succeeds.
pub past_guard :
    {E A : Type 0} (b : Bool) (e : E) (rest : Result E A) {a : A}
    → (if b then err e else rest) ≡ ok a
    → (b ≡ false) × (rest ≡ ok a)
past_guard true e rest h = cc
past_guard false e rest h = (refl, h)
