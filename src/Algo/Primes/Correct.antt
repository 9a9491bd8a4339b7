-- ===== src/Algo/Primes/Correct.antt =====
-- Primality, and the trial division of is_prime().
use mathlib.Core.Path.{subst}
use native.Mathlib.Decide.{dec_lt, ℕ_discrete}
use native.Mathlib.Nat.{mul-mod_left, div-add-mod, mul-le-mul, le_refl, mod_self}
use nt_shm.Common.{
  ℕ, zero, suc, ◌+◌, ◌*◌, ◌/◌, ◌%◌, ◌≤◌, ◌<◌, ◌≡◌, ◌≢◌, Bool, true, false, arith, refl, ap, leb,
  ◌==◌, eq_of_==, ne_of_==, le_of_leb, lt_of_leb, ltb, ltb_of_lt, if◌then◌else◌, ◌&&◌, ◌||◌, not,
}
use nt_shm.Common.Run.{Run, Returns, returns, Returns-if, as_int, int_limit, ◌>>=◌}
use nt_shm.Algo.Primes.{trial_division, is_prime}

abbrev pub NoDivisorBelow : ℕ → ℕ → Type 0
NoDivisorBelow i n = (d : ℕ) → 2 ≤ d → d < i → n % d ≢ 0

-- The mathematical notion: at least 2, with no divisor from 2 up to n - 1.
abbrev pub IsPrime : ℕ → Type 0
IsPrime n = (2 ≤ n) × NoDivisorBelow n n

-- The answer agrees with the notion.
abbrev pub Decides : Type 0 → Bool → Type 0
Decides P true = P
Decides P false = ¬ P

-- An even number divides no odd one.
even_divisor : (n d : ℕ) → n % 2 ≡ 1 → d % 2 ≡ 0 → n % d ≢ 0
even_divisor n d odd even e =
    let half : d ≡ 2 * (d / 2) = omega arith in
    omega (arith, div-add-mod n d, ap (λ (t : ℕ). t * (n / d)) half)

-- A divisor from i on has a cofactor below i if n < i * i.
cofactor : (n i : ℕ) → n < i * i → 2 ≤ n → NoDivisorBelow i n → NoDivisorBelow n n
cofactor n i small two below d lo hi e = elim (dec_lt d i) [
  | yes under ↦ below d lo under e
  | no over ↦
      let q = n / d in
      let whole : d * q ≡ n = omega (arith, div-add-mod n d) in
      let q-lt : q < i = elim (dec_lt q i) [
        | yes h ↦ h
        | no h ↦
            let wide : i * i ≤ d * q = mul-le-mul (omega arith) (omega arith) in
            absurd (omega (arith, whole, wide))
      ] in
      let q-ge : 2 ≤ q = at_least_two q d n whole two hi in
      below q q-ge q-lt (subst (λ (t : ℕ). t % q ≡ 0) whole (mul-mod_left d q))
]
  where
    at_least_two : (q d n : ℕ) → d * q ≡ n → 2 ≤ n → d < n → 2 ≤ q
    at_least_two zero d n w t h = omega arith
    at_least_two (suc zero) d n w t h = omega arith
    at_least_two (suc (suc q)) d n w t h = omega arith

below_next :
    (n i : ℕ) → n % 2 ≡ 1 → i % 2 ≡ 1 → n % i ≢ 0 → NoDivisorBelow i n → NoDivisorBelow (i + 2) n
below_next n i on oi miss below d lo hi e = elim (dec_lt d i) [
  | yes under ↦ below d lo under e
  | no over ↦ elim (ℕ_discrete d i) [
    | yes same ↦ miss (subst (λ (t : ℕ). n % t ≡ 0) same e)
    | no other ↦ even_divisor n d on (omega arith) e
  ]
]

proper : (n i : ℕ) → i * i ≤ n → 3 ≤ i → i < n
proper n i h lo = let wide : 3 * i ≤ i * i = mul-le-mul lo (le_refl i) in omega arith

-- A test of i * i <= n with i * i in the range of int
Returns-square {κ} :
    {Good : Bool → Type κ} (n i : ℕ) {x y : Run Bool}
    → i ≤ 46339
    → (i * i ≤ n → Returns Good x)
    → (n < i * i → Returns Good y)
    → Returns Good (as_int (i * i) >>= λ square. if leb square n then x else y)
Returns-square n i small inside outside =
    let fits : ltb (i * i) int_limit ≡ true =
      ltb_of_lt _ _ (let wide : i * i ≤ 46339 * 46339 = mul-le-mul small small in omega arith) in
    rw fits (
      Returns-if (leb (i * i) n) (λ more. inside (le_of_leb _ _ more))
        (λ done. outside (lt_of_leb _ _ done)))

-- i stays below 46339 while i * i is at most n.
root_small : (i n : ℕ) → n < 46339 * 46339 → i * i ≤ n → i < 46339
root_small i n small le = elim (dec_lt i 46339) [
  | yes h ↦ h
  | no h ↦
      let over : 46339 ≤ i = omega arith in
      let wide : 46339 * 46339 ≤ i * i = mul-le-mul over over in absurd (omega arith)
]

trial_division-Decides :
    (fuel n i : ℕ)
    → n < fuel + i
    → i ≤ 46339
    → n < 46339 * 46339
    → 3 ≤ i
    → i % 2 ≡ 1
    → n % 2 ≡ 1
    → 3 ≤ n
    → NoDivisorBelow i n
    → Returns (Decides (IsPrime n)) (trial_division fuel n i)
unfolding trial_division
trial_division-Decides zero n i f low small lo oi on big below =
    absurd (below n (omega arith) (omega arith) (mod_self n))
trial_division-Decides (suc fuel) n i f low small lo oi on big below =
    Returns-square n i low
      (λ more.
        let under = proper n i more lo in
        let root = root_small i n small more in
        Returns-if (n % i == 0) (λ hit. returns (λ p. p.1 i (omega arith) under (eq_of_== _ _ hit)))
          (λ miss.
            trial_division-Decides fuel n (i + 2) (omega arith) (omega arith) small (omega arith)
              (omega arith) on big (below_next n i on oi (ne_of_== _ _ miss) below)))
      (λ done. returns (omega arith, cofactor n i done (omega arith) below))

-- For every n below 46339 * 46339 the call returns, and it returns 1 exactly when n is prime.
pub is_prime-Decides : (n : ℕ) → n < 46339 * 46339 → Returns (Decides (IsPrime n)) (is_prime n)
unfolding is_prime
is_prime-Decides n small =
    Returns-if (leb n 1) (λ low. returns (λ p. omega (arith, le_of_leb _ _ low, p.0)))
      (λ high.
        let two : 2 ≤ n = lt_of_leb _ _ high in
        Returns-if (n == 2) (λ e. returns (two, λ d lo hi. absurd (omega (arith, eq_of_== _ _ e))))
          (λ ne.
            let other : n ≢ 2 = ne_of_== _ _ ne in
            Returns-if (n % 2 == 0)
              (λ even. returns (λ p. p.1 2 (omega arith) (omega arith) (eq_of_== _ _ even)))
              (λ odd.
                let on : n % 2 ≡ 1 = omega (arith, ne_of_== _ _ odd) in
                trial_division-Decides (suc n) n 3 (omega arith) (omega arith) small (omega arith)
                  refl on (omega arith) (λ d lo hi e. even_divisor n d on (omega arith) e))))

-- No divisor from 2 up to d - 1, by division
unfoldable pub indivisible : ℕ → ℕ → Bool
indivisible n zero = true
indivisible n (suc d) = (ltb d 2 || not (n % d == 0)) && indivisible n d

indivisible-NoDivisorBelow : (i n : ℕ) → indivisible n i ≡ true → NoDivisorBelow i n
unfolding indivisible
indivisible-NoDivisorBelow zero n h d lo hi e = absurd (omega arith)
indivisible-NoDivisorBelow (suc i) n h d lo hi e = elim (ℕ_discrete d i) [
  | yes same ↦ ground arith
  | no other ↦ indivisible-NoDivisorBelow i n (ground arith) d lo (omega arith) e
]

-- Division up to the square root
pub indivisible-IsPrime : (i n : ℕ) → n < i * i → 2 ≤ n → indivisible n i ≡ true → IsPrime n
indivisible-IsPrime i n small two h =
    (two, cofactor n i small two (indivisible-NoDivisorBelow i n h))
