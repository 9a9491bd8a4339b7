-- ===== src/Mem/Content.antt =====
-- What a reallocation does with the words of the block.
use native.Mathlib.Decide.{ℕ_discrete}
use nt_shm.Common.{
  ℕ, zero, suc, ◌+◌, ◌-◌, ◌*◌, ◌/◌, ◌%◌, ◌≤◌, ◌<◌, ◌≡◌, ◌∙◌, List, ◌∷◌, ◌++◌, true, false, arith,
  ltb,
}
use nt_shm.Common.Run.{Run, Returns, returns}
use nt_shm.Common.Weigh.{weigh-append}
use nt_shm.Mem.{
  Memory, MemInfo, chunk_size, mem_unlink_chunk, mem_set_chunk_size, mem_set_used_chunk_size,
  mem_link_chunk,
}
use nt_shm.Mem.Reallocation.{copy_words, copy_block, shrink, grow}
use nt_shm.Mem.Links.{Same}
use nt_shm.Mem.Tiles.{used, free, loose, Chunk, chunk}
use nt_shm.Mem.Neighbours.{join_next}
use nt_shm.Mem.Valid.{Valid}
use nt_shm.Mem.Malloc.{either}
use nt_shm.Mem.Coalesce.{loosened}
use nt_shm.Mem.Frame.{covers, solid, claim-keeps, claim_front-keeps}
use nt_shm.Mem.KeepsFree.{unlink_next-keeps}

-- The block of n bytes at a has its words at c, up to the new size.
abbrev pub Holds : Memory → ℕ → ℕ → Memory → ℕ → ℕ → Type 0
Holds mem a n after c size =
    (i : ℕ) → 8 * i + 8 ≤ n → 8 * i + 8 ≤ size → after (c + 8 + 8 * i) ≡ mem (a + 8 + 8 * i)

-- What a call returns: NULL, or an address at which the words of the block are
abbrev pub Content : MemInfo → ℕ → ℕ → ℕ → MemInfo × ℕ → Type 0
Content info a n size (after, c) = 0 < c → Holds info.mem a n after.mem c size

pub both :
    {A : Type 0} {P Q : A → Type 0} {run : Run A}
    → Returns P run
    → Returns Q run
    → Returns (λ x. P x × Q x) run
both (returns g) (returns h) = returns (g, h)

copy_words-copied :
    (from mem : Memory) (target source words i : ℕ)
    → i < words
    → copy_words from mem target source words (target + 8 * i) ≡ from (source + 8 * i)
unfolding copy_words
copy_words-copied from mem target source zero i lt = absurd (omega arith)
copy_words-copied from mem target source (suc words) i lt = elim (ℕ_discrete words i) [
  | yes same ↦ ground arith
  | no other ↦
      let rest = copy_words-copied from mem target source words i (omega arith) in ground arith
]

pub copy_block-Holds :
    (from : Memory) (info : MemInfo) (a n c size : ℕ)
    → Holds from a n (copy_block from info a n c).mem c size
unfolding copy_block
copy_block-Holds from info a n c size i le _ =
    copy_words-copied from info.mem (c + 8) (a + 8) (n / 8) i (omega arith)

-- Where the block stays, its words stay.
pub Same-Holds :
    (mem after : Memory) (a n size : ℕ)
    → ((p : ℕ) → 1 ≤ covers p a n → 1 ≤ covers p a size → Same mem after p)
    → Holds mem a n after a size
Same-Holds mem after a n size keep i le le' = keep (a + 8 + 8 * i) (ground arith) (ground arith)

module _ (info : MemInfo) (l r : List Chunk) (a n size p : ℕ) (big : 24 ≤ size)
    (whole : size % 8 ≡ 0) (there : 1 ≤ covers p a size) where
  pub shrink_split-keeps :
      Valid info (l ++ chunk a n used ∷ r)
      → size + 40 ≤ n
      → Same info.mem (shrink info a n size false).mem p
  unfolding shrink
  shrink_split-keeps v fits =
      claim_front-keeps info.mem info.buckets info.lo_bound info.hi_bound l r a n p size
        (n - size - 16) (omega arith) big (omega arith) whole (loosened info l r a n v)
        (omega arith)

  module _ (m : ℕ) (tag : chunk_size info.mem (a + 16 + n) ≡ m) (old : 1 ≤ covers p a n)
      (v : Valid info (l ++ chunk a n used ∷ chunk (a + 16 + n) m free ∷ r)) where
    abbrev b : ℕ
    b = a + 16 + n

    abbrev m1 : Memory
    m1 = mem_unlink_chunk info.mem info.buckets b

    unlinked : Same info.mem m1 p
    unlinked =
        unlink_next-keeps info.mem info.buckets info.lo_bound info.hi_bound l r p a n b m
          (loosened info l (chunk b m free ∷ r) a n v) (omega arith)

    -- The front of the joined chunk is claimed.
    front_claimed :
        (k : ℕ)
        → size + 16 + k ≡ n + 16 + m
        → 24 ≤ k
        → Same info.mem
            (mem_set_used_chunk_size
              (mem_link_chunk
                (mem_set_chunk_size m1 (a + 16 + size) k)
                info.buckets
                (a + 16 + size))
              a
              size)
            p
    front_claimed k sum big_k =
        claim_front-keeps m1 info.buckets info.lo_bound info.hi_bound l r a (n + 16 + m) p size k
          sum big big_k whole
          (join_next info.mem info.buckets info.lo_bound info.hi_bound l r a n b m
            (loosened info l (chunk b m free ∷ r) a n v))
          (omega arith)
        ∙ unlinked

    pub shrink_next-keeps : size + 24 ≤ n → Same info.mem (shrink info a n size true).mem p
    unfolding shrink
    shrink_next-keeps fits = rw tag (front_claimed (m + (n - size)) (omega arith) (omega arith))

    pub grow-keeps : n < size → size ≤ n + 16 + m → Same info.mem (grow info a n size).mem p
    unfolding grow
    grow-keeps more fits =
        let full : n + (16 + m) ≡ n + 16 + m = omega arith in
        let wide : 1 ≤ covers p a (n + 16 + m) = ground arith in
        rw (tag, full)
          (either (λ after. Same info.mem after.mem p) (ltb (n + 16 + m) (size + 16 + 24))
            (λ small.
              claim-keeps m1 info.buckets info.lo_bound info.hi_bound l r a (n + 16 + m) p
                (join_next info.mem info.buckets info.lo_bound info.hi_bound l r a n b m
                  (loosened info l (chunk b m free ∷ r) a n v))
                (omega (arith, weigh-append (solid p) l (chunk a (n + 16 + m) loose ∷ r), wide))
              ∙ unlinked)
            (λ long. front_claimed (n + 16 + m - size - 16) (ground arith) (ground arith)))
