-- ===== src/Prelude/Lists.antt =====
-- Lists measured by native numbers, and Boolean and type-valued quantifiers over them.
use Prim.Native.Nat.{ℕ, suc, ◌+◌, ◌≤◌}
use mathlib.Core.Path.{◌≡◌, refl, subst}
use mathlib.Core.Logic.{◌⊎◌, inl, inr}
use mathlib.Core.Bool.{Bool, true, false, ◌||◌}
use mathlib.Core.Option.{Option, none, some, some-injective}
use mathlib.Core.List.{List, [], ◌∷◌, ◌++◌}
use native.Mathlib.Omega.{arith}
use metal_docs.Prelude.Tests.{if◌then◌else◌}

module _ {ℓ} {A : Type ℓ} where
  abbrev pub length : List A → ℕ
  length [] = 0
  length (x ∷ xs) = suc (length xs)

  -- How many elements pass the test.
  abbrev pub count_if : (A → Bool) → List A → ℕ
  count_if p [] = 0
  count_if p (x ∷ xs) = (if p x then 1 else 0) + count_if p xs

  abbrev pub any : (A → Bool) → List A → Bool
  any p [] = false
  any p (x ∷ xs) = p x || any p xs

  -- The elements that pass the test, and the first of them.
  abbrev pub keep_if : (A → Bool) → List A → List A
  keep_if p [] = []
  keep_if p (x ∷ xs) = let rest = keep_if p xs in if p x then x ∷ rest else rest

  abbrev pub find_if : (A → Bool) → List A → Option A
  find_if p [] = none
  find_if p (x ∷ xs) = if p x then some x else find_if p xs

  -- `UPDATE … SET … WHERE …` on the rows of one table.
  abbrev pub update_where : (A → Bool) → (A → A) → List A → List A
  update_where where_ set [] = []
  update_where where_ set (r ∷ rows) =
      (if where_ r then set r else r) ∷ update_where where_ set rows

  -- `ORDER BY`: `before x y` tells that `x` comes before `y`.
  abbrev pub insert_by : (A → A → Bool) → A → List A → List A
  insert_by before x [] = x ∷ []
  insert_by before x (y ∷ ys) =
      let rest = insert_by before x ys in if before y x then y ∷ rest else x ∷ y ∷ ys

  abbrev pub order_by : (A → A → Bool) → List A → List A
  order_by before [] = []
  order_by before (x ∷ xs) = insert_by before x (order_by before xs)

  abbrev pub All {κ} : (A → Type κ) → List A → Type κ
  All P [] = Unit
  All P (x ∷ xs) = P x × All P xs

module _ {ℓ} {A : Type ℓ} where
  pub List-cases : (xs : List A) → (xs ≡ []) ⊎ ((x : A) × (ys : List A) × (xs ≡ x ∷ ys))
  List-cases [] = inl refl
  List-cases (x ∷ xs) = inr (x, xs, refl)

  pub count_if-le : (p : A → Bool) (xs : List A) → count_if p xs ≤ length xs
  count_if-le p [] = omega arith
  count_if-le p (x ∷ xs) = ground (arith, count_if-le p xs)

  pub All-append {κ} : (P : A → Type κ) (xs ys : List A) → All P xs → All P ys → All P (xs ++ ys)
  All-append P [] ys hx hy = hy
  All-append P (x ∷ xs) ys hx hy = (hx.0, All-append P xs ys hx.1 hy)

  pub All-imp {κ μ} :
      (P : A → Type κ) (Q : A → Type μ) (xs : List A) → ((x : A) → P x → Q x) → All P xs → All Q xs
  All-imp P Q [] f h = tt
  All-imp P Q (x ∷ xs) f h = (f x h.0, All-imp P Q xs f h.1)

found_here {ℓ} :
    {A : Type ℓ} (b : Bool) (y : A) (later : Option A) {x : A}
    → (if b then some y else later) ≡ some x
    → ((b ≡ true) × (y ≡ x)) ⊎ (later ≡ some x)
found_here true y later h = inl (refl, some-injective _ _ h)
found_here false y later h = inr h

-- What a search finds passes the test.
pub find_if-holds {ℓ} :
    {A : Type ℓ} (p : A → Bool) (rows : List A) {x : A} → find_if p rows ≡ some x → p x ≡ true
find_if-holds p [] h = cc
find_if-holds p (y ∷ rows) h = elim (found_here (p y) y (find_if p rows) h) [
  | inl (hit, same) ↦ subst (λ x. p x ≡ true) same hit
  | inr later ↦ find_if-holds p rows later
]
