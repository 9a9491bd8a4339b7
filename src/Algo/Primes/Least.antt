-- ===== src/Algo/Primes/Least.antt =====
-- The loop of next_prime(), up to the largest prime that is_prime() can tell.
use mathlib.Core.Path.{subst}
use native.Mathlib.Decide.{dec_lt, ℕ_discrete}
use nt_shm.Common.{
  ℕ, zero, suc, ◌+◌, ◌*◌, ◌%◌, ◌^◌, ◌≤◌, ◌<◌, ◌≡◌, ◌≢◌, true, false, arith, sym, refl, ltb,
  ltb_of_lt,
}
use nt_shm.Common.Run.{ok, int_limit, Returns, returns, Returns-bind, Returns-map, Returns-value}
use nt_shm.Algo.Primes.{is_prime, next_prime_loop, next_prime, next_prime_of_size}
use nt_shm.Algo.Primes.Correct.{IsPrime, Decides, is_prime-Decides}

-- The largest prime below 46339 * 46339
abbrev pub largest_told : ℕ
largest_told = 2147302891

largest_told_run : is_prime 2147302891 ≡ ok true
unfolding is_prime
largest_told_run = refl

pub largest_told-IsPrime : IsPrime 2147302891
largest_told-IsPrime = Returns-value true (
    subst (Returns (Decides (IsPrime 2147302891))) largest_told_run
      (is_prime-Decides 2147302891 (omega arith)))

-- The least prime from n on.
abbrev pub IsNextPrime : ℕ → ℕ → Type 0
IsNextPrime n p = (n ≤ p) × IsPrime p × ((m : ℕ) → n ≤ m → m < p → ¬ IsPrime m)

next_prime_loop-IsNextPrime :
    (fuel n p : ℕ)
    → n ≤ p
    → p < fuel + n
    → p < 46339 * 46339
    → IsPrime p
    → Returns (IsNextPrime n) (next_prime_loop fuel n)
unfolding next_prime_loop
next_prime_loop-IsNextPrime zero n p lo hi told prime = absurd (omega arith)
next_prime_loop-IsNextPrime (suc fuel) n p lo hi told prime =
    Returns-bind (is_prime-Decides n (omega arith)) (elim [
      | true ↦ λ yes_prime. returns (omega arith, yes_prime, λ m from to. absurd (omega arith))
      | false ↦ λ not_prime.
          let ne : n ≢ p = λ e. not_prime (subst IsPrime (sym e) prime) in
          let fits : ltb (n + 1) int_limit ≡ true = ltb_of_lt _ _ (omega arith) in
          rw fits (
            Returns-map
              (next_prime_loop-IsNextPrime fuel (n + 1) p (omega arith) (omega arith) told prime)
              λ q (after, q-prime, least). (omega arith, q-prime, skip n q not_prime least))
    ])
  where
    skip :
        (n q : ℕ)
        → ¬ IsPrime n
        → ((m : ℕ) → n + 1 ≤ m → m < q → ¬ IsPrime m)
        → (m : ℕ) → n ≤ m
        → m < q
        → ¬ IsPrime m
    skip n q here later m from to prime = elim (ℕ_discrete m n) [
      | yes same ↦ here (subst IsPrime same prime)
      | no other ↦ later m (omega arith) to prime
    ]

-- For every n up to 2147302891, which is prime, the loop ends, at the least prime that is not below
-- n.
pub next_prime-IsNextPrime : (n : ℕ) → n ≤ largest_told → Returns (IsNextPrime n) (next_prime n)
unfolding next_prime
next_prime-IsNextPrime n le =
    next_prime_loop-IsNextPrime int_limit n largest_told le (omega arith) (omega arith)
      largest_told-IsPrime

-- A size in the range of int is converted to itself.
next_prime_of_size-small : (size : ℕ) → size < int_limit → next_prime_of_size size ≡ next_prime size
unfolding next_prime_of_size
next_prime_of_size-small size small =
    let same : size % 2 ^ 32 ≡ size = omega arith in
    let fits : ltb size int_limit ≡ true = ltb_of_lt _ _ small in rw (same, fits) refl

-- The same of a size
pub next_prime_of_size-IsNextPrime :
    (n : ℕ) → n ≤ largest_told → Returns (IsNextPrime n) (next_prime_of_size n)
next_prime_of_size-IsNextPrime n le =
    subst (Returns (IsNextPrime n)) (sym (next_prime_of_size-small n (omega arith)))
      (next_prime-IsNextPrime n le)

-- The number of slots for a size: at least the size, and at most any prime that is
abbrev pub Fits : ℕ → ℕ → Type 0
Fits size n = (size ≤ n) × ((q : ℕ) → IsPrime q → size ≤ q → n ≤ q)

pub IsNextPrime-Fits : (size n : ℕ) → IsNextPrime size n → Fits size n
IsNextPrime-Fits size n (lo, prime, least) = (
  lo,
  λ q q-prime le. elim (dec_lt q n) [
    | yes lt ↦ absurd (least q le lt q-prime)
    | no ge ↦ omega arith
  ],
)

eleven_run : is_prime 11 ≡ ok true
unfolding is_prime
eleven_run = refl

-- Ten slots become at most eleven.
pub Fits-ten : (n : ℕ) → Fits 10 n → n ≤ 11
Fits-ten n (lo, most) =
    most 11
      (Returns-value true
        (subst (Returns (Decides (IsPrime 11))) eleven_run (is_prime-Decides 11 (omega arith))))
      (omega arith)
