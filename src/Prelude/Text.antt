-- ===== src/Prelude/Text.antt =====
-- Texts that are only compared, and their code points where the source walks them.
use Prim.Native.Nat.{ℕ}
use Prim.Native.Char.{code}
use Prim.Native.String.{String}
use mathlib.Core.Path.{◌≡◌}
use mathlib.Core.Logic.{◌≢◌, ◌↔◌}
use mathlib.Core.Bool.{Bool, true, false}
use mathlib.Core.List.{List, [], ◌∷◌}
use text.Mathlib.Text.{◌==◌}
use text.Mathlib.TextEquality.{eq_iff}
use native.Mathlib.Omega.{arith}

abbrev pub str_eq : String → String → Bool
str_eq a b = a == b

pub str_eq_iff : (a b : String) → (str_eq a b ≡ true) ↔ (a ≡ b)
str_eq_iff a b = eq_iff a b

pub str_ne : (a b : String) → a ≢ b → str_eq a b ≡ false
str_ne a b h = ground (arith, eq_iff a b)

pub ne_of_str : (a b : String) → str_eq a b ≡ false → a ≢ b
ne_of_str a b h e = ground (arith, eq_iff a b)

abbrev pub codes : String → List ℕ
codes String.[] = []
codes (String.◌∷◌ c s) = code c ∷ codes s

pub str_eq-sym : (a b : String) → str_eq a b ≡ false → str_eq b a ≡ false
str_eq-sym a b h = ground (arith, eq_iff a b, eq_iff b a)

pub str_eq_refl : (a : String) → str_eq a a ≡ true
str_eq_refl a = ground (arith, eq_iff a a)

-- Equal texts do not differ.
pub str_eq-clash {ℓ} : {C : Type ℓ} (a b : String) → a ≡ b → str_eq a b ≡ false → C
str_eq-clash a b same h = let equal : str_eq a b ≡ true = (str_eq_iff a b).1 same in cc

-- One text after another.
abbrev pub text_append : String → String → String
text_append String.[] t = t
text_append (String.◌∷◌ c s) t = String.◌∷◌ c (text_append s t)

abbrev pub text_concat : List String → String
text_concat [] = ""
text_concat (s ∷ rest) = text_append s (text_concat rest)
