-- ===== src/Hashmap/Strings.antt =====
-- nt_hashmap.c: the access to a table by strings, through a 64-bit hash of the string. A string is
-- the list of its bytes before the terminating zero.
use Prim.Native.Nat.{bit_xor}
use nt_shm.Common.{ℕ, ◌+◌, ◌*◌, ◌/◌, ◌%◌, ◌^◌, ◌≡◌, List, [], ◌∷◌, length, ◌==◌, ◌<◌, if◌then◌else◌}
use nt_shm.Common.Run.{Run, ok, int_limit, ◌>>=◌}
use nt_shm.Algo.Hash.{u64}
use nt_shm.Hashmap.{HashMap, nt_hashmap_get, nt_hashmap_set}
use nt_shm.Hashmap.Refines.{IsValid}
use nt_shm.Hashmap.Update.{get-set}

abbrev murmur_m : ℕ
murmur_m = 0xc6a4a7935bd1e995

-- A little-endian number in memory.
word_of : List ℕ → ℕ
word_of [] = 0
word_of (b ∷ bs) = b + 256 * word_of bs

-- The body of the loop over eight bytes.
mix : ℕ → ℕ → ℕ
mix h k0 =
    let k1 : ℕ = k0 * murmur_m % u64 in
    let k2 : ℕ = bit_xor k1 (k1 / 2 ^ 47) in
    let k3 : ℕ = k2 * murmur_m % u64 in bit_xor h k3 * murmur_m % u64

-- The cases of the switch: the highest byte first.
mix_tail : ℕ → ℕ → List ℕ → ℕ
mix_tail h shift [] = h
mix_tail h shift (b ∷ bs) = bit_xor (mix_tail h (shift + 8) bs) (b * 2 ^ shift)

-- The loop over whole words, and the switch over the bytes that are left.
unfoldable pub murmur_loop : ℕ → List ℕ → ℕ
unfolding mix mix_tail word_of
murmur_loop h [] = h
murmur_loop h (a ∷ b ∷ c ∷ d ∷ e ∷ f ∷ g ∷ i ∷ bs) =
    murmur_loop (mix h (word_of (a ∷ b ∷ c ∷ d ∷ e ∷ f ∷ g ∷ i ∷ []))) bs
murmur_loop h bs = mix_tail h 0 bs * murmur_m % u64

unfoldable pub murmur_hash64_a : List ℕ → ℕ → ℕ
unfolding murmur_loop
murmur_hash64_a key seed =
    let h0 : ℕ = murmur_loop (bit_xor seed (length key * murmur_m % u64)) key in
    let h1 : ℕ = bit_xor h0 (h0 / 2 ^ 47) in
    let h2 : ℕ = h1 * murmur_m % u64 in bit_xor h2 (h2 / 2 ^ 47)

unfoldable pub string_to_uint64 : List ℕ → ℕ
unfolding murmur_hash64_a
string_to_uint64 str = murmur_hash64_a str 0x12345678

unfoldable pub nt_hashmap_get_ext : HashMap → List ℕ → Run ℕ
nt_hashmap_get_ext hm key = nt_hashmap_get hm (string_to_uint64 key)

unfoldable pub nt_hashmap_set_ext : HashMap → List ℕ → ℕ → Run HashMap
nt_hashmap_set_ext hm key value = nt_hashmap_set hm (string_to_uint64 key) value

-- In a valid table, five times its slots in the range of int, a value stored under a string is read under every string of the same 64-bit
-- hash; under any other string the table reads as before.
pub get_ext-set_ext :
    (hash_func : ℕ → ℕ) (hm : HashMap) (key other : List ℕ) (value : ℕ)
    → IsValid hash_func hm
    → hm.num_slots * 5 < int_limit
    → (nt_hashmap_set_ext hm key value >>= λ after. nt_hashmap_get_ext after other) ≡ (
        if string_to_uint64 key == string_to_uint64 other
        then ok value
        else nt_hashmap_get_ext hm other)
unfolding nt_hashmap_get_ext nt_hashmap_set_ext
get_ext-set_ext hash_func hm key other value v small =
    get-set hash_func hm (string_to_uint64 key) value (string_to_uint64 other) v small
