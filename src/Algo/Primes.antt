-- ===== src/Algo/Primes.antt =====
-- nt_algodefs.c, is_prime() and next_prime(): table sizes of the hash tables. The argument is an int
-- that is not negative; a negative one is `next_prime_below_zero`. `int_of_size` is the conversion
-- of a size_t to the int that next_prime() takes.
pub mod Correct
pub mod Least
pub mod Large
use nt_shm.Common.{
  ℕ, zero, suc, ◌+◌, ◌-◌, ◌*◌, ◌%◌, ◌^◌, Bool, true, false, ltb, leb, ◌==◌, if◌then◌else◌,
}
use nt_shm.Common.Run.{Run, ok, out_of_fuel, ◌>>=◌, as_int, int_limit}

-- `for (i = 3; i * i <= n; i += 2) if (n % i == 0) return 0;` and the `return 1` after it, from i.
-- Where i * i is an int, i + 2 is one.
unfoldable pub trial_division : ℕ → ℕ → ℕ → Run Bool
trial_division zero n i = out_of_fuel
trial_division (suc fuel) n i = as_int (i * i) >>= λ square.
    let rest = trial_division fuel n (i + 2) in
    if leb square n then (if n % i == 0 then ok false else rest) else ok true

-- i grows from 3, and the loop ends before it passes n.
unfoldable pub is_prime : ℕ → Run Bool
unfolding trial_division
is_prime n =
    if leb n 1
    then ok false
    else if n == 2
    then ok true
    else if n % 2 == 0
    then ok false
    else trial_division (suc n) n 3

-- `while (!is_prime(n)) n++;`
unfoldable pub next_prime_loop : ℕ → ℕ → Run ℕ
unfolding is_prime
next_prime_loop zero n = out_of_fuel
next_prime_loop (suc fuel) n =
    let rest = as_int (n + 1) >>= next_prime_loop fuel in
    is_prime n >>= λ prime. if prime then ok n else rest

-- Each round makes n larger, and n stays an int.
unfoldable pub next_prime : ℕ → Run ℕ
unfolding next_prime_loop
next_prime n = next_prime_loop int_limit n

-- The same loop from the int -n: is_prime() is 0, and n++ leads to 0.
unfoldable pub next_prime_below_zero : ℕ → Run ℕ
unfolding next_prime
next_prime_below_zero zero = next_prime 0
next_prime_below_zero (suc n) = next_prime_below_zero n

-- next_prime() of a size_t, converted to int: the low 32 bits in two's complement
unfoldable pub next_prime_of_size : ℕ → Run ℕ
next_prime_of_size size =
    let low = size % 2 ^ 32 in
    let below = next_prime_below_zero (2 ^ 32 - low) in
    if ltb low int_limit then next_prime low else below
