-- ===== src/Algo/Hash/Laws.antt =====
-- The product forms of sdbm and djb2, which the comments in the source state, beside the
-- shift-and-add forms.
use Prim.Native.Nat.{bit_xor}
use nt_shm.Common.{ℕ, ◌+◌, ◌*◌, ◌%◌, ◌<◌, ◌≡◌, List, [], ◌∷◌, arith, refl}
use nt_shm.Algo.Hash.{
  u32, sdbm_step, nt_hash_sdbm, djb2_step, djb2_loop, nt_hash_djb2, modfnv_finish, nt_hash_modfnv,
}

-- `hash = *(p++) + hash * 65599`, in 32 bits
abbrev pub sdbm_reference : List ℕ → ℕ → ℕ
sdbm_reference [] hash = hash
sdbm_reference (p ∷ ps) hash = sdbm_reference ps ((p + hash * 65599) % u32)

-- `hash = hash * 33 + *(p++)`, in 32 bits
abbrev pub djb2_reference : List ℕ → ℕ → ℕ
djb2_reference [] hash = hash
djb2_reference (p ∷ ps) hash = djb2_reference ps ((hash * 33 + p) % u32)

sdbm_step-eq : (hash p : ℕ) → hash < u32 → sdbm_step hash p ≡ (p + hash * 65599) % u32
unfolding sdbm_step
sdbm_step-eq hash p h = omega arith

djb2_step-eq : (hash p : ℕ) → djb2_step hash p ≡ (hash * 33 + p) % u32
unfolding djb2_step
djb2_step-eq hash p = omega arith

sdbm_refines :
    (bytes : List ℕ) (seed : ℕ) → seed < u32 → nt_hash_sdbm bytes seed ≡ sdbm_reference bytes seed
unfolding nt_hash_sdbm
sdbm_refines [] seed h = refl
sdbm_refines (p ∷ ps) seed h = rw (sdbm_step-eq seed p h) (sdbm_refines ps _ (omega arith))

djb2_loop-eq : (bytes : List ℕ) (hash : ℕ) → djb2_loop hash bytes ≡ djb2_reference bytes hash
unfolding djb2_loop
djb2_loop-eq [] hash = refl
djb2_loop-eq (p ∷ ps) hash = rw (djb2_step-eq hash p) (djb2_loop-eq ps _)

-- For every block and every 32-bit seed, sdbm and djb2 computed by shifts are the ones computed by
-- products.
pub hash_refines :
    (bytes : List ℕ) (seed : ℕ)
    → seed < u32
    → (nt_hash_sdbm bytes seed ≡ sdbm_reference bytes seed)
      × (nt_hash_djb2 bytes seed ≡ djb2_reference bytes (bit_xor 5381 seed))
unfolding nt_hash_djb2
hash_refines bytes seed h = (sdbm_refines bytes seed h, djb2_loop-eq bytes _)

pub modfnv-lt : (bytes : List ℕ) (seed : ℕ) → nt_hash_modfnv bytes seed < u32
unfolding nt_hash_modfnv modfnv_finish
modfnv-lt bytes seed = omega arith
