-- ===== src/Approval/Quorum/Threshold.antt =====
-- The decisions of the switch of `EvaluateQuorum` (approval/domain/quorum.go).
use metal_docs.Prelude.{ℕ, ◌+◌, ◌-◌, ◌≤◌, ◌<◌, ◌≡◌, ◌≢◌, ◌↔◌, some, Option, arith}
use metal_docs.Prelude.Int.{ℤ, pos}
use metal_docs.Approval.Route.{any_1_of, all_of, m_of_n}
use metal_docs.Approval.Quorum.{quorum_pending, approved_stage, rejected_stage, decide_quorum}

-- A tally that the given one can still grow to, with at most one vote for each of `d` voters.
pub record Grows (d a r a' r' : ℕ) : Type 0 where
  pub more_approvals : a ≤ a'
  pub more_rejections : r ≤ r'
  pub within : a' + r' ≤ d

module _ (d m a r : ℕ) (possible : 1 ≤ m) (attainable : m ≤ d) (cast : a + r ≤ d) where
  -- Under `m_of_n` with 1 ≤ m ≤ d, and at most d votes cast, a stage is approved exactly when every
  -- way for the remaining votes to fall has m approvals, and rejected exactly when none has.
  pub m_of_n_iff :
      ((decide_quorum m_of_n (some (pos m)) a r d ≡ approved_stage)
        ↔ ((a' r' : ℕ) → Grows d a r a' r' → m ≤ a'))
      × ((decide_quorum m_of_n (some (pos m)) a r d ≡ rejected_stage)
          ↔ ((a' r' : ℕ) → Grows d a r a' r' → a' < m))
  unfolding decide_quorum
  m_of_n_iff = (
    (λ h a' r' g. ground arith, λ all. let least = all a (d - a) (omega arith) in ground arith),
    (λ h a' r' g. ground arith, λ never. let most = never (d - r) r (omega arith) in ground arith),
  )

  -- A decided tally stays decided as votes are added.
  pub m_of_n_stable :
      (a' r' : ℕ)
      → Grows d a r a' r'
      → decide_quorum m_of_n (some (pos m)) a r d ≢ quorum_pending
      → decide_quorum m_of_n (some (pos m)) a' r' d ≡ decide_quorum m_of_n (some (pos m)) a r d
  unfolding decide_quorum
  m_of_n_stable a' r' g h = ground arith

-- With at most one vote for each of the d ≥ 1 voters, `all_of` is `m_of_n` with m = d.
pub all_of-eq-m_of_n :
    (m : Option ℤ) (a r d : ℕ)
    → 1 ≤ d
    → a + r ≤ d
    → decide_quorum all_of m a r d ≡ decide_quorum m_of_n (some (pos d)) a r d
unfolding decide_quorum
all_of-eq-m_of_n m a r d p cast = ground arith

-- Once each of the d ≥ 1 voters has voted, no known policy leaves the stage pending: `any_1_of` and
-- `all_of` whatever `m` is, and `m_of_n` when `m` is a number from 1 to d.
pub decide_quorum_settles :
    (m : Option ℤ) (k a r d : ℕ)
    → 1 ≤ k
    → k ≤ d
    → a + r ≡ d
    → (decide_quorum any_1_of m a r d ≢ quorum_pending)
      × (decide_quorum all_of m a r d ≢ quorum_pending)
      × (decide_quorum m_of_n (some (pos k)) a r d ≢ quorum_pending)
unfolding decide_quorum
decide_quorum_settles m k a r d p q e = (λ h. ground arith, λ h. ground arith, λ h. ground arith)

-- When `m_of_n` asks for more approvals than the denominator, every tally short of m is rejected at
-- once, also one that holds approvals only.
m_of_n_unattainable :
    (d m a r : ℕ) → d < m → a < m → decide_quorum m_of_n (some (pos m)) a r d ≡ rejected_stage
unfolding decide_quorum
m_of_n_unattainable d m a r p q = ground arith
