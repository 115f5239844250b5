-- ===== src/Approval/Quorum/Votes.antt =====
-- The counting loops of approval/domain/quorum.go and of approval/domain/drift.go.
use metal_docs.Prelude.{◌+◌, ◌≡◌, refl, String, true, false, List, [], ◌∷◌, arith}
use metal_docs.Prelude.Tests.{if◌then◌else◌}
use metal_docs.Prelude.Text.{str_eq, str_eq_iff}
use metal_docs.Prelude.Lists.{count_if}
use metal_docs.Approval.Route.Valid.{AreDistinct, IsNew}
use metal_docs.Approval.Quorum.{member}

member_new : (x : String) (ys : List String) → IsNew x ys → member ys x ≡ false
member_new x [] h = refl
member_new x (y ∷ ys) h = ground (arith, str_eq_iff x y, h.0, member_new x ys h.1)

member_of_eq :
    (x y : String) (ys : List String) → IsNew y ys → str_eq x y ≡ true → member ys x ≡ false
member_of_eq x y ys h e = rw ((str_eq_iff x y).0 e) (member_new y ys h)

-- Adding a text that is not yet there to a set raises the count of its members by the times that
-- the text stands in the list.
count_if-cons :
    (y : String) (ys xs : List String)
    → IsNew y ys
    → count_if (member (y ∷ ys)) xs ≡ count_if (λ x. str_eq x y) xs + count_if (member ys) xs
count_if-cons y ys [] h = omega arith
count_if-cons y ys (x ∷ xs) h = ground (arith, count_if-cons y ys xs h, member_of_eq x y ys h)

count_if_absent : (y : String) (xs : List String) → IsNew y xs → count_if (λ x. str_eq x y) xs ≡ 0
count_if_absent y [] h = refl
count_if_absent y (x ∷ xs) h = ground (arith, str_eq_iff x y, h.0, count_if_absent y xs h.1)

count_if_of_eq :
    (x y : String) (xs : List String)
    → IsNew x xs
    → str_eq x y ≡ true
    → count_if (λ z. str_eq z y) xs ≡ 0
count_if_of_eq x y xs h e = rw (← (str_eq_iff x y).0 e) (count_if_absent x xs h)

-- A text stands once in a list without duplicates, or not at all.
count_if_distinct :
    (y : String) (xs : List String)
    → AreDistinct xs
    → count_if (λ x. str_eq x y) xs ≡ (if member xs y then 1 else 0)
count_if_distinct y [] h = refl
count_if_distinct y (x ∷ xs) h =
    ground
      (arith, str_eq_iff x y, str_eq_iff y x, count_if_of_eq x y xs h.0, count_if_distinct y xs h.1)

pub count_if_none : (xs : List String) → count_if (member []) xs ≡ 0
count_if_none [] = refl
count_if_none (x ∷ xs) = omega (arith, count_if_none xs)

-- For lists without duplicates, counting the elements of one in the other is symmetric.
pub count_if-member_comm :
    (xs ys : List String)
    → AreDistinct xs
    → AreDistinct ys
    → count_if (member ys) xs ≡ count_if (member xs) ys
count_if-member_comm xs [] hx hy = count_if_none xs
count_if-member_comm xs (y ∷ ys) hx hy = omega (
  arith,
  count_if-cons y ys xs hy.0,
  count_if_distinct y xs hx,
  count_if-member_comm xs ys hx hy.1,
)
