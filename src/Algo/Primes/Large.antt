-- ===== src/Algo/Primes/Large.antt =====
-- is_prime() beyond 46339 * 46339, and the conversion of sizes to int.
use native.Mathlib.Decide.{ℕ_discrete}
use native.Mathlib.Nat.{mul-le-mul, le_refl}
use nt_shm.Common.{
  ℕ, zero, suc, ◌+◌, ◌*◌, ◌%◌, ◌^◌, ◌≤◌, ◌<◌, ◌≡◌, ◌≢◌, refl, true, false, arith, ltb, leb, ◌==◌,
  ltb_of_lt,
}
use nt_shm.Common.Run.{overflow, int_limit}
use nt_shm.Algo.Primes.{trial_division, is_prime, next_prime_of_size}
use nt_shm.Algo.Primes.Correct.{IsPrime}

trial_division-overflows :
    (fuel n i : ℕ)
    → 46341 < fuel + i
    → i ≤ 46341
    → 3 ≤ i
    → i % 2 ≡ 1
    → 46339 * 46339 ≤ n
    → IsPrime n
    → trial_division fuel n i ≡ overflow
unfolding trial_division
trial_division-overflows zero n i f low lo oi big prime = absurd (omega arith)
trial_division-overflows (suc fuel) n i f low lo oi big prime = elim (ℕ_discrete i 46341) [
  | yes last ↦ rw last refl
  | no other ↦
      let root : i ≤ 46339 = omega arith in
      let square : i * i ≤ 46339 * 46339 = mul-le-mul root root in
      let wide : 3 * i ≤ i * i = mul-le-mul lo (le_refl i) in
      let fits : ltb (i * i) int_limit ≡ true = ltb_of_lt _ _ (omega arith) in
      let more : leb (i * i) n ≡ true = ground arith in
      let miss : n % i ≢ 0 = prime.1 i (omega arith) (omega arith) in
      let test : (n % i == 0) ≡ false = ground arith in
      rw (fits, more, test)
        (trial_division-overflows fuel n (i + 2) (omega arith) (omega arith) (omega arith)
          (omega arith) big prime)
]

-- For every prime from 46339 * 46339 on, is_prime() does not answer: i * i leaves the range of int.
pub is_prime-overflows : (n : ℕ) → IsPrime n → 46339 * 46339 ≤ n → is_prime n ≡ overflow
unfolding is_prime
is_prime-overflows n prime big =
    let above : leb n 1 ≡ false = ground arith in
    let not_two : (n == 2) ≡ false = ground arith in
    let odd : n % 2 ≢ 0 = prime.1 2 (omega arith) (omega arith) in
    let test : (n % 2 == 0) ≡ false = ground arith in
    rw (above, not_two, test)
      (trial_division-overflows (suc n) n 3 (omega arith) (omega arith) (omega arith) refl big
        prime)

-- The conversion forgets the high bits.
pub next_prime_of_size-add :
    (size n : ℕ) → next_prime_of_size (2 ^ 32 * n + size) ≡ next_prime_of_size size
unfolding next_prime_of_size
next_prime_of_size-add size n =
    let same : (2 ^ 32 * n + size) % 2 ^ 32 ≡ size % 2 ^ 32 = omega arith in rw same refl
