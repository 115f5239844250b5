-- ===== src/Approval/Route/Valid.antt =====
-- `Route.Validate` (approval/domain/route.go) accepts exactly the well-formed routes.
use metal_docs.Prelude.{
  ℕ, ◌+◌, String, Bool, true, false, not, ◌≡◌, ◌≢◌, ◌↔◌, inl, inr, refl, sym, Option, none, some,
  List, [], ◌∷◌, map, arith,
}
use metal_docs.Prelude.Tests.{if◌then◌else◌}
use metal_docs.Prelude.Text.{str_eq, str_eq_iff}
use metal_docs.Prelude.Lists.{any, All, List-cases}
use metal_docs.Prelude.Int.{ℤ, pos, eqb_ℤ, ◌≤ℤ◌}
use metal_docs.Approval.Route.{
  QuorumPolicy, any_1_of, all_of, m_of_n, unknown, Stage, Route, RouteError, no_stages,
  check_quorum, validate_from, validate,
}

-- Stages from index `i` on carry the orders i + 1, i + 2, …
abbrev pub IsDense : ℕ → List Stage → Type 0
IsDense i [] = Unit
IsDense i (s ∷ stages) = (s.order ≡ pos (i + 1)) × IsDense (i + 1) stages

-- `QuorumM` is a number of at least 1 under `m_of_n`, and nil under every other policy.
abbrev pub FitsQuorum : QuorumPolicy → Option ℤ → Type 0
FitsQuorum q m = (q ≡ m_of_n → (v : ℤ) × (m ≡ some v) × (pos 1 ≤ℤ v)) × (q ≢ m_of_n → m ≡ none)

abbrev pub HasFitM : Stage → Type 0
HasFitM s = FitsQuorum s.quorum s.quorum_m

-- The text is none of the listed ones.
abbrev pub IsNew : String → List String → Type 0
IsNew n = All (λ m. n ≢ m)

abbrev pub AreDistinct : List String → Type 0
AreDistinct [] = Unit
AreDistinct (n ∷ ns) = IsNew n ns × AreDistinct ns

pub record IsValid (r : Route) : Type 0 where
  pub not_empty : r.stages ≢ []
  pub dense : IsDense 0 r.stages
  pub fit : All HasFitM r.stages
  pub distinct : AreDistinct (map (λ s. s.name) r.stages)

any-IsNew : (n : String) (names : List String) → any (str_eq n) names ≡ false → IsNew n names
any-IsNew n [] h = tt
any-IsNew n (m ∷ names) h = (λ e. ground (arith, str_eq_iff n m), any-IsNew n names (ground arith))

IsNew-any : (n : String) (names : List String) → IsNew n names → any (str_eq n) names ≡ false
IsNew-any n [] h = refl
IsNew-any n (m ∷ names) h = ground (arith, str_eq_iff n m, IsNew-any n names h.1, h.0)

eqb_ℤ_iff : (a b : ℤ) → (eqb_ℤ a b ≡ true) ↔ (a ≡ b)
eqb_ℤ_iff a b = ground arith

check_quorum-FitsQuorum :
    (n : String) (q : QuorumPolicy) (m : Option ℤ) → check_quorum n q m ≡ none → FitsQuorum q m
unfolding check_quorum
check_quorum-FitsQuorum n m_of_n none h = cc
check_quorum-FitsQuorum n m_of_n (some v) h = (λ e. (v, refl, ground arith), λ ne. absurd (ne refl))
check_quorum-FitsQuorum n any_1_of none h = (λ e. cc, λ ne. refl)
check_quorum-FitsQuorum n any_1_of (some v) h = cc
check_quorum-FitsQuorum n all_of none h = (λ e. cc, λ ne. refl)
check_quorum-FitsQuorum n all_of (some v) h = cc
check_quorum-FitsQuorum n (unknown q) none h = (λ e. cc, λ ne. refl)
check_quorum-FitsQuorum n (unknown q) (some v) h = cc

-- Under a policy other than `m_of_n` the test passes when `QuorumM` is nil.
check_quorum-none : (n : String) (q : QuorumPolicy) → q ≢ m_of_n → check_quorum n q none ≡ none
unfolding check_quorum
check_quorum-none n m_of_n ne = absurd (ne refl)
check_quorum-none n any_1_of ne = refl
check_quorum-none n _ ne = refl

FitsQuorum-check_quorum :
    (n : String) (q : QuorumPolicy) (m : Option ℤ) → FitsQuorum q m → check_quorum n q m ≡ none
unfolding check_quorum
FitsQuorum-check_quorum n m_of_n none h = let (v, e, p) = h.0 refl in cc e
FitsQuorum-check_quorum n m_of_n (some m) h = let (v, e, p) = h.0 refl in ground arith
FitsQuorum-check_quorum n any_1_of m h = rw (h.1 (λ e. cc)) (check_quorum-none n any_1_of (λ e. cc))
FitsQuorum-check_quorum n all_of m h = rw (h.1 (λ e. cc)) (check_quorum-none n all_of (λ e. cc))
FitsQuorum-check_quorum n (unknown q) m h =
    rw (h.1 (λ e. cc)) (check_quorum-none n (unknown q) (λ e. cc))

-- What an accepting run of the loop has found, the seen names included.
record Accepted (i : ℕ) (names : List String) (stages : List Stage) : Type 0 where
  dense : IsDense i stages
  fit : All HasFitM stages
  distinct : AreDistinct (map (λ s. s.name) stages)
  new : All (λ s. IsNew s.name names) stages

gates_passed :
    (dense seen : Bool) (quorum rest : Option RouteError) (e f : RouteError)
    → (if not dense
        then some e
        else elim quorum [ some g ↦ some g | none ↦ if seen then some f else rest ])
      ≡ none
    → (dense ≡ true) × (quorum ≡ none) × (seen ≡ false) × (rest ≡ none)
gates_passed dense seen quorum rest e f h = ground arith

-- The tests of one round all passed, and the loop went on.
validate_from_round :
    (i : ℕ) (names : List String) (s : Stage) (stages : List Stage)
    → validate_from i names (s ∷ stages) ≡ none
    → (eqb_ℤ s.order (pos (i + 1)) ≡ true)
      × (check_quorum s.name s.quorum s.quorum_m ≡ none)
      × (any (str_eq s.name) names ≡ false)
      × (validate_from (i + 1) (s.name ∷ names) stages ≡ none)
unfolding validate_from
validate_from_round i names s stages h = gates_passed _ _ _ _ _ _ h

round_validate_from :
    (i : ℕ) (names : List String) (s : Stage) (stages : List Stage)
    → eqb_ℤ s.order (pos (i + 1)) ≡ true
    → check_quorum s.name s.quorum s.quorum_m ≡ none
    → any (str_eq s.name) names ≡ false
    → validate_from (i + 1) (s.name ∷ names) stages ≡ none
    → validate_from i names (s ∷ stages) ≡ none
unfolding validate_from
round_validate_from i names s stages a b c d = rw (a, b, c, d)

head-IsNew :
    (n : String) (names : List String) (stages : List Stage)
    → All (λ s. IsNew s.name (n ∷ names)) stages
    → IsNew n (map (λ s. s.name) stages) × All (λ s. IsNew s.name names) stages
head-IsNew n names [] h = (tt, tt)
head-IsNew n names (s ∷ stages) h =
    let (new, old) = head-IsNew n names stages h.1 in ((λ e. h.0.0 (sym e), new), (h.0.1, old))

IsNew-head :
    (n : String) (names : List String) (stages : List Stage)
    → IsNew n (map (λ s. s.name) stages)
    → All (λ s. IsNew s.name names) stages
    → All (λ s. IsNew s.name (n ∷ names)) stages
IsNew-head n names [] h k = tt
IsNew-head n names (s ∷ stages) h k = ((λ e. h.0 (sym e), k.0), IsNew-head n names stages h.1 k.1)

validate_from-Accepted :
    (i : ℕ) (names : List String) (stages : List Stage)
    → validate_from i names stages ≡ none
    → Accepted i names stages
validate_from-Accepted i names [] h = record { dense = tt; fit = tt; distinct = tt; new = tt }
validate_from-Accepted i names (s ∷ stages) h =
    let (order, quorum, name, go_on) = validate_from_round i names s stages h in
    let later = validate_from-Accepted (i + 1) (s.name ∷ names) stages go_on in
    let (new, old) = head-IsNew s.name names stages later.new in
    record {
      dense = ((eqb_ℤ_iff s.order (pos (i + 1))).0 order, later.dense);
      fit = (check_quorum-FitsQuorum s.name s.quorum s.quorum_m quorum, later.fit);
      distinct = (new, later.distinct);
      new = (any-IsNew s.name names name, old);
    }

Accepted-validate_from :
    (i : ℕ) (names : List String) (stages : List Stage)
    → Accepted i names stages
    → validate_from i names stages ≡ none
unfolding validate_from
Accepted-validate_from i names [] a = refl
Accepted-validate_from i names (s ∷ stages) a =
    round_validate_from i names s stages ((eqb_ℤ_iff s.order (pos (i + 1))).1 a.dense.0)
      (FitsQuorum-check_quorum s.name s.quorum s.quorum_m a.fit.0) (IsNew-any s.name names a.new.0)
      (Accepted-validate_from (i + 1) (s.name ∷ names) stages (record {
        dense = a.dense.1;
        fit = a.fit.1;
        distinct = a.distinct.1;
        new = IsNew-head s.name names stages a.distinct.0 a.new.1;
      }))

nothing-IsNew : (stages : List Stage) → All (λ s. IsNew s.name []) stages
nothing-IsNew [] = tt
nothing-IsNew (s ∷ stages) = (tt, nothing-IsNew stages)

validate_empty : (r : Route) → r.stages ≡ [] → validate r ≡ some no_stages
unfolding validate
validate_empty r e = rw (e, validate)

validate_stages :
    (r : Route) {s : Stage} {rest : List Stage}
    → r.stages ≡ s ∷ rest
    → validate r ≡ validate_from 0 [] r.stages
unfolding validate
validate_stages r e = rw (e, validate)

-- A route is accepted exactly when it has a stage, its stages carry the orders 1, 2, 3, …, each
-- stage has a `QuorumM` of at least 1 under `m_of_n` and none under any other policy, and no two
-- stages share a name.
pub validate_iff : (r : Route) → (validate r ≡ none) ↔ IsValid r
validate_iff r = elim (List-cases r.stages) [
  | inl e ↦ (λ h. cc (validate_empty r e), λ v. absurd (v.not_empty e))
  | inr (s, rest, e) ↦ rw (validate_stages r e) (
    λ h.
        let a = validate_from-Accepted 0 [] r.stages h in
        record { not_empty = λ z. cc e; dense = a.dense; fit = a.fit; distinct = a.distinct },
    λ v. Accepted-validate_from 0 [] r.stages (record {
      dense = v.dense;
      fit = v.fit;
      distinct = v.distinct;
      new = nothing-IsNew r.stages;
    }),
  )
]
