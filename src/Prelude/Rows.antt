-- ===== src/Prelude/Rows.antt =====
-- Lemmas on the rows of a table: what holds of all of them, and identifiers that name one of them.
use mathlib.Core.Path.{◌≡◌, refl, sym, ap, ◌∙◌, subst}
use mathlib.Core.Logic.{◌⊎◌, inl, inr}
use mathlib.Core.Bool.{Bool, true, false, ◌||◌, or-false, or-true}
use mathlib.Core.Option.{some, some-injective}
use mathlib.Core.List.{List, [], ◌∷◌, ◌++◌, map}
use Prim.Native.String.{String}
use metal_docs.Prelude.Tests.{if◌then◌else◌, Bool-cases, neither}
use metal_docs.Prelude.Text.{str_eq, str_eq_iff, str_eq-sym, str_eq_refl}
use metal_docs.Prelude.Lists.{any, find_if, keep_if, update_where, All, All-imp}

module _ {ℓ} {A : Type ℓ} where
  -- A row of an UPDATE satisfies `Q` afterwards, whether the test picks it or not.
  All-updated {κ} :
      (P Q : A → Type κ) (b : Bool) (x y : A)
      → (b ≡ true → Q y)
      → (b ≡ false → Q x)
      → Q (if b then y else x)
  All-updated P Q true x y hit miss = hit refl
  All-updated P Q false x y hit miss = miss refl

  pub All-update_where {κ} :
      (P Q : A → Type κ) (p : A → Bool) (f : A → A) (xs : List A)
      → ((x : A) → p x ≡ true → P x → Q (f x))
      → ((x : A) → p x ≡ false → P x → Q x)
      → All P xs
      → All Q (update_where p f xs)
  All-update_where P Q p f [] hit miss h = tt
  All-update_where P Q p f (x ∷ xs) hit miss h = (
    All-updated P Q (p x) x (f x) (λ e. hit x e h.0) (λ e. miss x e h.0),
    All-update_where P Q p f xs hit miss h.1,
  )

  pub All-keep_if {κ} :
      (P : A → Type κ) (p : A → Bool) (xs : List A) → All P xs → All P (keep_if p xs)
  All-keep_if P p [] h = tt
  All-keep_if P p (x ∷ xs) h = elim (Bool-cases (p x)) [
    | inl hit ↦ rw hit (h.0, All-keep_if P p xs h.1)
    | inr miss ↦ rw miss (All-keep_if P p xs h.1)
  ]

  pub All-snoc {κ} :
      (P : A → Type κ) (xs : List A) (x : A) → All P xs → P x → All P (xs ++ (x ∷ []))
  All-snoc P [] x h hx = (hx, tt)
  All-snoc P (y ∷ xs) x h hx = (h.0, All-snoc P xs x h.1 hx)

  pub All-both {κ} :
      (P Q R : A → Type κ) (xs : List A)
      → ((x : A) → P x → Q x → R x)
      → All P xs
      → All Q xs
      → All R xs
  All-both P Q R [] f h k = tt
  All-both P Q R (x ∷ xs) f h k = (f x h.0 k.0, All-both P Q R xs f h.1 k.1)

  pub All-find_if {κ} :
      (P : A → Type κ) (q : A → Bool) (xs : List A) {x : A} → All P xs → find_if q xs ≡ some x → P x
  All-find_if P q [] h e = cc
  All-find_if P q (y ∷ xs) {x} h e = elim (Bool-cases (q y)) [
    | inl hit ↦ subst P (some-injective _ _ (found hit)) h.0
    | inr miss ↦ All-find_if P q xs h.1 (passed miss)
  ]
    where
      found : q y ≡ true → some y ≡ some x
      found hit = ap (λ b. if b then some y else find_if q xs) (sym hit) ∙ e

      passed : q y ≡ false → find_if q xs ≡ some x
      passed miss = ap (λ b. if b then some y else find_if q xs) (sym miss) ∙ e

  pub any-false : (q : A → Bool) (xs : List A) → any q xs ≡ false → All (λ x. q x ≡ false) xs
  any-false q [] h = tt
  any-false q (x ∷ xs) h =
      let (here, later) = neither (q x) (any q xs) h in (here, any-false q xs later)

  pub any_none : (q : A → Bool) (xs : List A) → All (λ x. q x ≡ false) xs → any q xs ≡ false
  any_none q [] h = refl
  any_none q (x ∷ xs) h = rw h.0 (any_none q xs h.1)

  pub any-snoc : (q : A → Bool) (xs : List A) (x : A) → any q (xs ++ (x ∷ [])) ≡ any q xs || q x
  any-snoc q [] x = rw (or-false (q x)) refl
  any-snoc q (y ∷ xs) x = elim (Bool-cases (q y)) [
    | inl hit ↦ rw hit refl
    | inr miss ↦ rw miss (any-snoc q xs x)
  ]

  -- An UPDATE that picks no row, and one of a table with a last row.
  pub update_where-none :
      (p : A → Bool) (f : A → A) (xs : List A)
      → All (λ x. p x ≡ false) xs
      → update_where p f xs ≡ xs
  update_where-none p f [] h = refl
  update_where-none p f (x ∷ xs) h = rw h.0 (ap (λ l. x ∷ l) (update_where-none p f xs h.1))

  pub update_where-last :
      (p : A → Bool) (f : A → A) (xs : List A) (x : A)
      → All (λ x. p x ≡ false) xs
      → p x ≡ true
      → update_where p f (xs ++ (x ∷ [])) ≡ xs ++ (f x ∷ [])
  update_where-last p f [] x h hit = rw hit refl
  update_where-last p f (y ∷ xs) x h hit =
      rw h.0 (ap (λ l. y ∷ l) (update_where-last p f xs x h.1 hit))

  pub map-update_where {κ} :
      {B : Type κ} (g : A → B) (p : A → Bool) (f : A → A) (xs : List A)
      → ((x : A) → g (f x) ≡ g x)
      → map g (update_where p f xs) ≡ map g xs
  map-update_where g p f [] same = refl
  map-update_where g p f (x ∷ xs) same = elim (Bool-cases (p x)) [
    | inl hit ↦ rw (hit, same x) (ap (λ l. g x ∷ l) (map-update_where g p f xs same))
    | inr miss ↦ rw miss (ap (λ l. g x ∷ l) (map-update_where g p f xs same))
  ]

  pub map-snoc {κ} :
      {B : Type κ} (g : A → B) (xs : List A) (x : A)
      → map g (xs ++ (x ∷ [])) ≡ map g xs ++ (g x ∷ [])
  map-snoc g [] x = refl
  map-snoc g (y ∷ xs) x = ap (λ l. g y ∷ l) (map-snoc g xs x)

  pub any-map {κ} :
      {B : Type κ} (g : A → B) (q : B → Bool) (xs : List A)
      → any q (map g xs) ≡ any (λ x. q (g x)) xs
  any-map g q [] = refl
  any-map g q (x ∷ xs) = ap (λ b. q (g x) || b) (any-map g q xs)

-- No identifier occurs twice.
abbrev pub AreDistinct : List String → Type 0
AreDistinct [] = Unit
AreDistinct (x ∷ xs) = (any (λ y. str_eq y x) xs ≡ false) × AreDistinct xs

pub AreDistinct-snoc :
    (xs : List String) (x : String)
    → any (λ y. str_eq y x) xs ≡ false
    → AreDistinct xs
    → AreDistinct (xs ++ (x ∷ []))
AreDistinct-snoc [] x h d = (refl, tt)
AreDistinct-snoc (y ∷ xs) x h d =
    let (here, later) = neither (str_eq y x) _ h in
    (
      rw (any-snoc (λ z. str_eq z y) xs x, d.0) (str_eq-sym y x here),
      AreDistinct-snoc xs x later d.1,
    )

-- The only row with its identifier.
pub find_if-only {ℓ} :
    {A : Type ℓ} (key : A → String) (q : A → Bool) (xs : List A) {x : A}
    → AreDistinct (map key xs)
    → find_if q xs ≡ some x
    → All (λ y. (str_eq (key y) (key x) ≡ false) ⊎ (y ≡ x)) xs
find_if-only key q [] d e = cc
find_if-only {A = A} key q (z ∷ xs) {x} d e = found (q z) (find_if-only key q xs d.1) e
  where
    others : All (λ y. str_eq (key y) (key z) ≡ false) xs
    others = any-false _ xs (sym (any-map key (λ k. str_eq k (key z)) xs) ∙ d.0)

    found :
        (b : Bool)
        → (find_if q xs ≡ some x → All (λ y. (str_eq (key y) (key x) ≡ false) ⊎ (y ≡ x)) xs)
        → (if b then some z else find_if q xs) ≡ some x
        → All (λ y. (str_eq (key y) (key x) ≡ false) ⊎ (y ≡ x)) (z ∷ xs)
    found true later e =
        let same = some-injective _ _ e in
        (
          inr same,
          All-imp _ _ xs (λ y h. inl (subst (λ x. str_eq (key y) (key x) ≡ false) same h)) others,
        )
    found false later e = (inl (str_eq-sym (key x) (key z) (All-find_if _ q xs others e)), later e)

-- Among rows given by their identifier and their owner: there is one with the identifier, and every
-- one with it has the owner.
abbrev pub Names : List (String × String) → String → String → Type 0
Names keys id owner =
    (any (λ k. str_eq k.0 id) keys ≡ true) × All (λ k. (str_eq k.0 id ≡ false) ⊎ (k.1 ≡ owner)) keys

pub Names-snoc :
    (keys : List (String × String)) (new id owner other : String)
    → any (λ k. str_eq k.0 new) keys ≡ false
    → Names keys id owner
    → Names (keys ++ ((new, other) ∷ [])) id owner
Names-snoc keys new id owner other fresh h = (
  any-snoc (λ k. str_eq k.0 id) keys (new, other) ∙ ap (λ b. b || str_eq new id) h.0,
  All-snoc _ keys (new, other) h.1 (inl differs),
)
  where
    differs : str_eq new id ≡ false
    differs = elim (Bool-cases (str_eq new id)) [
      | inl same ↦
          let e = (str_eq_iff new id).0 same in
          let none_there = subst (λ i. any (λ k. str_eq k.0 i) keys ≡ false) e fresh in cc
      | inr other ↦ other
    ]

pub Names-new :
    (keys : List (String × String)) (new owner : String)
    → any (λ k. str_eq k.0 new) keys ≡ false
    → Names (keys ++ ((new, owner) ∷ [])) new owner
Names-new keys new owner fresh = (
  any-snoc (λ k. str_eq k.0 new) keys (new, owner)
      ∙ ap (λ b. any (λ k. str_eq k.0 new) keys || b) (str_eq_refl new)
      ∙ or-true _,
  All-snoc _ keys (new, owner) (All-imp _ _ keys (λ k h. inl h) (any-false _ keys fresh))
      (inr refl),
)

-- What follows of each row from its being there.
pub All-members {κ} :
    {A : Type 0} (P : A → Type κ) (xs : List A)
    → ((x : A) → ((Q : A → Type 0) → All Q xs → Q x) → P x)
    → All P xs
All-members P [] f = tt
All-members P (x ∷ xs) f = (f x (λ Q h. h.0), All-members P xs (λ y self. f y (λ Q h. self Q h.1)))

pub any-find {ℓ} :
    {A : Type ℓ} (p : A → Bool) (xs : List A) → any p xs ≡ true → (x : A) × (find_if p xs ≡ some x)
any-find p [] h = cc
any-find p (x ∷ xs) h = elim (Bool-cases (p x)) [
  | inl hit ↦ (x, rw hit refl)
  | inr miss ↦
      let (y, found) = any-find p xs (ap (λ b. b || any p xs) (sym miss) ∙ h) in (y, rw miss found)
]

pub All-map {κ} :
    {A B : Type 0} (P : B → Type κ) (g : A → B) (xs : List A)
    → All P (map g xs)
    → All (λ x. P (g x)) xs
All-map P g [] h = tt
All-map P g (x ∷ xs) h = (h.0, All-map P g xs h.1)

pub All-unmap {κ} :
    {A B : Type 0} (P : B → Type κ) (g : A → B) (xs : List A)
    → All (λ x. P (g x)) xs
    → All P (map g xs)
All-unmap P g [] h = tt
All-unmap P g (x ∷ xs) h = (h.0, All-unmap P g xs h.1)

pub All-unit : {A : Type 0} (xs : List A) → All (λ _. Unit {0}) xs
All-unit [] = tt
All-unit (x ∷ xs) = (tt, All-unit xs)

-- The row that an UPDATE picks is found again, when the change keeps what it is found by.
pub find_if-updated :
    {A : Type 0} (p : A → Bool) (f : A → A) (xs : List A) {x : A}
    → ((x : A) → p (f x) ≡ p x)
    → find_if p xs ≡ some x
    → find_if p (update_where p f xs) ≡ some (f x)
find_if-updated p f [] same h = cc
find_if-updated {A = A} p f (y ∷ xs) {x} same h = here (p y) refl (find_if-updated p f xs same) h
  where
    here :
        (b : Bool)
        → p y ≡ b
        → (find_if p xs ≡ some x → find_if p (update_where p f xs) ≡ some (f x))
        → (if b then some y else find_if p xs) ≡ some x
        → find_if p ((if b then f y else y) ∷ update_where p f xs) ≡ some (f x)
    here true e later h = rw (same y, e) (ap (λ x. some (f x)) (some-injective _ _ h))
    here false e later h = rw e (later h)

-- A search that finds nothing finds a row that is added.
pub find_if-snoc :
    {A : Type 0} (p : A → Bool) (xs : List A) (x : A)
    → All (λ y. p y ≡ false) xs
    → p x ≡ true
    → find_if p (xs ++ (x ∷ [])) ≡ some x
find_if-snoc p [] x h hit = rw hit refl
find_if-snoc p (y ∷ xs) x h hit = rw h.0 (find_if-snoc p xs x h.1 hit)
