-- ===== src/Algo/Hash.antt =====
-- nt_algodefs.c: the hash functions over a block of bytes, and the default ones over keys. The
-- pointer and the length of a block are a list of numbers below 256; the platform is little-endian.
pub mod Laws
use Prim.Native.Nat.{bit_xor, bit_or}
use nt_shm.Common.{ℕ, zero, suc, ◌+◌, ◌-◌, ◌*◌, ◌/◌, ◌%◌, ◌^◌, List, [], ◌∷◌, length, ◌++◌}

abbrev pub u32 : ℕ
u32 = 2 ^ 32

abbrev pub u64 : ℕ
u64 = 2 ^ 64

-- nt_hash_modfnv(), its loop over the bytes
unfoldable pub modfnv_loop : ℕ → List ℕ → ℕ
modfnv_loop hash [] = hash
modfnv_loop hash (p ∷ ps) = modfnv_loop (bit_xor hash p * 16777619 % u32) ps

-- nt_hash_modfnv(), the shifts after the loop
unfoldable pub modfnv_finish : ℕ → ℕ
modfnv_finish h0 =
    let h1 : ℕ = (h0 + h0 * 2 ^ 13 % u32) % u32 in
    let h2 : ℕ = bit_xor h1 (h1 / 2 ^ 7) in
    let h3 : ℕ = (h2 + h2 * 2 ^ 3 % u32) % u32 in
    let h4 : ℕ = bit_xor h3 (h3 / 2 ^ 17) in (h4 + h4 * 2 ^ 5 % u32) % u32

unfoldable pub nt_hash_modfnv : List ℕ → ℕ → ℕ
unfolding modfnv_loop modfnv_finish
nt_hash_modfnv bytes seed = modfnv_finish (modfnv_loop (bit_xor 2166136261 seed) bytes)

-- hash = *(p++) + (hash << 6) + (hash << 16) - hash
unfoldable pub sdbm_step : ℕ → ℕ → ℕ
sdbm_step hash p = (p + hash * 2 ^ 6 % u32 + hash * 2 ^ 16 % u32 + u32 - hash) % u32

unfoldable pub nt_hash_sdbm : List ℕ → ℕ → ℕ
unfolding sdbm_step
nt_hash_sdbm [] hash = hash
nt_hash_sdbm (p ∷ ps) hash = nt_hash_sdbm ps (sdbm_step hash p)

-- hash = ((hash << 5) + hash) + *(p++)
unfoldable pub djb2_step : ℕ → ℕ → ℕ
djb2_step hash p = (hash * 2 ^ 5 % u32 + hash + p) % u32

unfoldable pub djb2_loop : ℕ → List ℕ → ℕ
unfolding djb2_step
djb2_loop hash [] = hash
djb2_loop hash (p ∷ ps) = djb2_loop (djb2_step hash p) ps

unfoldable pub nt_hash_djb2 : List ℕ → ℕ → ℕ
unfolding djb2_loop
nt_hash_djb2 bytes seed = djb2_loop (bit_xor 5381 seed) bytes

-- nt_hash_murmur2(): one round over four bytes, k mixed into the hash
abbrev murmur2_m : ℕ
murmur2_m = 0x5bd1e995

unfoldable pub murmur2_round : ℕ → ℕ → ℕ → ℕ → ℕ → ℕ
murmur2_round hash p0 p1 p2 p3 =
    let k0 : ℕ = bit_or (bit_or (bit_or p0 (p1 * 2 ^ 8)) (p2 * 2 ^ 16)) (p3 * 2 ^ 24) in
    let k1 : ℕ = k0 * murmur2_m % u32 in
    let k2 : ℕ = bit_xor k1 (k1 / 2 ^ 24) in
    let k3 : ℕ = k2 * murmur2_m % u32 in bit_xor (hash * murmur2_m % u32) k3

-- nt_hash_murmur2(): the loop, and the switch over the one to three bytes that are left
unfoldable pub murmur2_loop : ℕ → List ℕ → ℕ
unfolding murmur2_round
murmur2_loop hash [] = hash
murmur2_loop hash (p0 ∷ []) = bit_xor hash p0 * murmur2_m % u32
murmur2_loop hash (p0 ∷ p1 ∷ []) = bit_xor (bit_xor hash (p1 * 2 ^ 8)) p0 * murmur2_m % u32
murmur2_loop hash (p0 ∷ p1 ∷ p2 ∷ []) =
    bit_xor (bit_xor (bit_xor hash (p2 * 2 ^ 16)) (p1 * 2 ^ 8)) p0 * murmur2_m % u32
murmur2_loop hash (p0 ∷ p1 ∷ p2 ∷ p3 ∷ ps) = murmur2_loop (murmur2_round hash p0 p1 p2 p3) ps

unfoldable pub nt_hash_murmur2 : List ℕ → ℕ → ℕ
unfolding murmur2_loop
nt_hash_murmur2 bytes seed =
    let h0 : ℕ = murmur2_loop (bit_xor seed (length bytes % u32)) bytes in
    let h1 : ℕ = bit_xor h0 (h0 / 2 ^ 13) in
    let h2 : ℕ = h1 * murmur2_m % u32 in bit_xor h2 (h2 / 2 ^ 15)

-- The bytes of an unsigned number of n bytes in memory, the lowest first.
unfoldable pub bytes_of : ℕ → ℕ → List ℕ
bytes_of zero x = []
bytes_of (suc n) x = x % 256 ∷ bytes_of n (x / 256)

unfoldable pub nt_default_uint64_hash_func : ℕ → ℕ
unfolding nt_hash_modfnv bytes_of
nt_default_uint64_hash_func key = nt_hash_modfnv (bytes_of 8 key) 0

-- A pointer is hashed by its own eight bytes.
unfoldable pub nt_default_ptr_hash_func : ℕ → ℕ
unfolding nt_hash_modfnv bytes_of
nt_default_ptr_hash_func ptr = nt_hash_modfnv (bytes_of 8 ptr) 0

-- strlen(data) bytes: the list is what stands before the terminating zero.
unfoldable pub nt_default_string_hash_func : List ℕ → ℕ
unfolding nt_hash_modfnv
nt_default_string_hash_func str = nt_hash_modfnv str 0

unfoldable pub nt_default_uint64_pair_hash_func : ℕ × ℕ → ℕ
unfolding nt_default_uint64_hash_func
nt_default_uint64_pair_hash_func pair =
    nt_hash_modfnv (bytes_of 8 pair.1) (nt_default_uint64_hash_func pair.0)
