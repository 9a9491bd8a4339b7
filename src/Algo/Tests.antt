-- ===== src/Algo/Tests.antt =====
-- The theorems on primes, hashes and comparisons at concrete inputs.
use nt_shm.Common.{ℕ, refl, ◌≡◌, ◌↔◌, List, [], ◌∷◌, true, arith}
use nt_shm.Common.Run.{Returns, overflow}
use nt_shm.Algo.Sqrt.{nt_isqrt32}
use nt_shm.Algo.Primes.{next_prime, is_prime}
use nt_shm.Algo.Primes.Correct.{
  IsPrime, Decides, is_prime-Decides, indivisible, indivisible-IsPrime,
}
use nt_shm.Algo.Primes.Large.{is_prime-overflows}
use nt_shm.Algo.Primes.Least.{IsNextPrime, next_prime-IsNextPrime}
use nt_shm.Algo.Hash.{nt_hash_sdbm, nt_hash_djb2}
use nt_shm.Algo.Hash.Laws.{sdbm_reference, djb2_reference, hash_refines}
use nt_shm.Algo.Compare.{less, equal, greater, nt_default_uint64_pair_compare_func}
use nt_shm.Algo.Compare.Laws.{Before, pair_compare-lexicographic}
use Prim.Native.Nat.{bit_xor}

is_prime-Decides_example : Returns (Decides (IsPrime 91)) (is_prime 91)
is_prime-Decides_example = is_prime-Decides 91 (omega arith)

next_prime-IsNextPrime_example : Returns (IsNextPrime 1000) (next_prime 1000)
next_prime-IsNextPrime_example = next_prime-IsNextPrime 1000 (omega arith)

int_max_run : indivisible 2147483647 46341 ≡ true
unfolding indivisible
int_max_run = refl

-- INT_MAX is prime.
is_prime-overflows_example : is_prime 2147483647 ≡ overflow
is_prime-overflows_example =
    is_prime-overflows 2147483647
      (indivisible-IsPrime 46341 2147483647 (omega arith) (omega arith) int_max_run) (omega arith)

abbrev word : List ℕ
word = 110 ∷ 116 ∷ 95 ∷ 115 ∷ 104 ∷ 109 ∷ []

hash_refines_example :
    (nt_hash_sdbm word 7 ≡ sdbm_reference word 7)
    × (nt_hash_djb2 word 7 ≡ djb2_reference word (bit_xor 5381 7))
hash_refines_example = hash_refines word 7 (omega arith)

abbrev one : ℕ
one = 1

abbrev two : ℕ
two = 2

abbrev three : ℕ
three = 3

abbrev five : ℕ
five = 5

pair_compare-lexicographic_example :
    ((nt_default_uint64_pair_compare_func (two, five) (three, one) ≡ less)
      ↔ Before (two, five) (three, one))
    × ((nt_default_uint64_pair_compare_func (two, five) (three, one) ≡ greater)
        ↔ Before (three, one) (two, five))
    × ((nt_default_uint64_pair_compare_func (two, five) (three, one) ≡ equal)
        ↔ ((two ≡ three) × (five ≡ one)))
pair_compare-lexicographic_example = pair_compare-lexicographic (two, five) (three, one)

isqrt_large : nt_isqrt32 4294836224 ≡ 65534
unfolding nt_isqrt32
isqrt_large = refl
