-- ===== src/Algo/Compare/Laws.antt =====
-- Laws of the default comparison of pairs.
use native.Mathlib.Decide.{dec_lt}
use nt_shm.Common.{ℕ, ◌≡◌, ◌<◌, ◌↔◌, ◌⊎◌, inl, inr, arith}
use nt_shm.Algo.Compare.{less, equal, greater, nt_default_uint64_pair_compare_func}

-- The lexicographic order, the first parts before the second ones
abbrev pub Before : ℕ × ℕ → ℕ × ℕ → Type 0
Before p q = (p.0 < q.0) ⊎ ((p.0 ≡ q.0) × (p.1 < q.1))

pair_compare-less_iff :
    (p q : ℕ × ℕ) → (nt_default_uint64_pair_compare_func p q ≡ less) ↔ Before p q
unfolding nt_default_uint64_pair_compare_func
pair_compare-less_iff (a, b) (c, d) = (
  λ h. elim (dec_lt a c) [ yes lt ↦ inl lt | no ge ↦ inr (ground arith, ground arith) ],
  elim [ inl lt ↦ ground arith | inr (same, lt) ↦ ground arith ],
)

pair_compare-greater_iff :
    (p q : ℕ × ℕ) → (nt_default_uint64_pair_compare_func p q ≡ greater) ↔ Before q p
unfolding nt_default_uint64_pair_compare_func
pair_compare-greater_iff (a, b) (c, d) = (
  λ h. elim (dec_lt c a) [ yes lt ↦ inl lt | no ge ↦ inr (ground arith, ground arith) ],
  elim [ inl lt ↦ ground arith | inr (same, lt) ↦ ground arith ],
)

pair_compare-equal_iff :
    (p q : ℕ × ℕ) → (nt_default_uint64_pair_compare_func p q ≡ equal) ↔ ((p.0 ≡ q.0) × (p.1 ≡ q.1))
unfolding nt_default_uint64_pair_compare_func
pair_compare-equal_iff (a, b) (c, d) = (λ h. (ground arith, ground arith), λ h. ground arith)

-- Two pairs compare as "less" exactly if the first is before the second in the lexicographic order,
-- in which the first parts are compared before the second ones, as "greater" exactly if it is after
-- it, and as equal exactly if both parts are equal.
pub pair_compare-lexicographic :
    (p q : ℕ × ℕ)
    → ((nt_default_uint64_pair_compare_func p q ≡ less) ↔ Before p q)
      × ((nt_default_uint64_pair_compare_func p q ≡ greater) ↔ Before q p)
      × ((nt_default_uint64_pair_compare_func p q ≡ equal) ↔ ((p.0 ≡ q.0) × (p.1 ≡ q.1)))
pair_compare-lexicographic p q =
    (pair_compare-less_iff p q, pair_compare-greater_iff p q, pair_compare-equal_iff p q)
