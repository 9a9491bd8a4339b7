-- ===== src/Algo/Sqrt.antt =====
-- nt_algodefs.c, nt_isqrt32(): the integer square root of an unsigned int, digit by digit.
use Prim.Native.Nat.{bit_or}
use nt_shm.Common.{ℕ, zero, suc, ◌+◌, ◌-◌, ◌*◌, ◌/◌, ◌%◌, ◌^◌, leb, if◌then◌else◌}
use nt_shm.Algo.Hash.{u32}

-- The loop over i, for the given number of rounds
unfoldable pub isqrt_loop : ℕ → ℕ → ℕ → ℕ → ℕ
isqrt_loop zero value remainder result = result
isqrt_loop (suc rounds) value remainder result =
    let doubled : ℕ = result * 2 % u32 in
    let rest : ℕ = (remainder * 2 ^ 2 % u32 + value / 2 ^ 30) % u32 in
    let p : ℕ = bit_or (doubled * 2 % u32) 1 in
    let fits = leb p rest in
    isqrt_loop rounds (value * 2 ^ 2 % u32) (if fits then rest - p else rest)
      (if fits then bit_or doubled 1 else doubled)

unfoldable pub nt_isqrt32 : ℕ → ℕ
unfolding isqrt_loop
nt_isqrt32 value = isqrt_loop 16 value 0 0
