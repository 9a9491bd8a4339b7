-- ===== src/Mem/Claim.antt =====
-- A loose chunk gets its size fields: as a used chunk, or as a free one that is then linked.
use mathlib.Core.Path.{subst}
use nt_shm.Common.{
  ℕ, ◌+◌, ◌%◌, ◌≤◌, ◌<◌, ◌≡◌, ◌⊎◌, inl, inr, refl, sym, ap, List, [], ◌∷◌, ◌++◌, arith,
}
use nt_shm.Mem.{
  Memory, mem_bucket_by_size, mem_set_chunk_size, mem_set_used_chunk_size, mem_link_chunk,
}
use nt_shm.Mem.Links.{Same}
use nt_shm.Mem.Tiles.{used, free, loose, Chunk, chunk, Tags}
use nt_shm.Mem.Heap.{Heap, put_list}
use nt_shm.Mem.Moves.{SomeHeap, link-Heap}
use nt_shm.Mem.Loose.{reclaim, scribble, cut}

pub ++_assoc : (l m r : List Chunk) → (l ++ m) ++ r ≡ l ++ (m ++ r)
++_assoc [] m r = refl
++_assoc (c ∷ l) m r = ap (λ (ds : List Chunk). c ∷ ds) (++_assoc l m r)

module _ (mem : Memory) (a n : ℕ) where
  pub used-Tags : Tags (mem_set_used_chunk_size mem a n) a n used
  unfolding mem_set_used_chunk_size
  used-Tags = (ground arith, ground arith)

  pub used-Same :
      (p : ℕ) → (p < a) ⊎ (a + 16 + n ≤ p) → Same mem (mem_set_used_chunk_size mem a n) p
  unfolding mem_set_used_chunk_size
  used-Same p (inl lo) = ground arith
  used-Same p (inr hi) = ground arith

  pub free-Tags : Tags (mem_set_chunk_size mem a n) a n free
  unfolding mem_set_chunk_size
  free-Tags = (ground arith, ground arith)

  pub free-Same : (p : ℕ) → (p < a) ⊎ (a + 16 + n ≤ p) → Same mem (mem_set_chunk_size mem a n) p
  unfolding mem_set_chunk_size
  free-Same p (inl lo) = ground arith
  free-Same p (inr hi) = ground arith

module _ (mem : Memory) (buckets lo hi : ℕ) (l r : List Chunk) (a n : ℕ) where
  pub claim :
      SomeHeap mem buckets lo hi (l ++ chunk a n loose ∷ r)
      → SomeHeap (mem_set_used_chunk_size mem a n) buckets lo hi (l ++ chunk a n used ∷ r)
  claim (bs, v) =
      let after = mem_set_used_chunk_size mem a n in
      let kept = scribble mem buckets lo hi l r a n bs after v (used-Same mem a n) in
      (bs, reclaim after buckets lo hi l r a n bs loose used refl refl kept (used-Tags mem a n))

  pub publish :
      SomeHeap mem buckets lo hi (l ++ chunk a n loose ∷ r)
      → SomeHeap
          (mem_link_chunk (mem_set_chunk_size mem a n) buckets a)
          buckets
          lo
          hi
          (l ++ chunk a n free ∷ r)
  publish (bs, v) =
      let after = mem_set_chunk_size mem a n in
      let kept = scribble mem buckets lo hi l r a n bs after v (free-Same mem a n) in
      let i = mem_bucket_by_size n in
      (put_list bs i (a ∷ bs i), link-Heap after buckets lo hi l r a n bs kept (free-Tags mem a n))

module _ (mem : Memory) (buckets lo hi : ℕ) (l r : List Chunk) (a n : ℕ) where
  -- A loose chunk is given out but for its rest of k bytes, which is free.
  pub claim_front :
      (m k : ℕ)
      → m + 16 + k ≡ n
      → 24 ≤ m
      → 24 ≤ k
      → m % 8 ≡ 0
      → SomeHeap mem buckets lo hi (l ++ chunk a n loose ∷ r)
      → SomeHeap
          (mem_set_used_chunk_size
            (mem_link_chunk (mem_set_chunk_size mem (a + 16 + m) k) buckets (a + 16 + m))
            a
            m)
          buckets
          lo
          hi
          (l ++ chunk a m used ∷ chunk (a + 16 + m) k free ∷ r)
  claim_front m k sum big_m big_k whole (bs, v) =
      let b = a + 16 + m in
      let parts = cut mem buckets lo hi l r a n bs m k sum big_m big_k whole v in
      let front = chunk a m loose in
      let aside = sym (++_assoc l (front ∷ []) (chunk b k loose ∷ r)) in
      let back = ++_assoc l (front ∷ []) (chunk b k free ∷ r) in
      let linked = mem_link_chunk (mem_set_chunk_size mem b k) buckets b in
      let right =
        publish mem buckets lo hi (l ++ front ∷ []) r b k
          (bs, subst (λ (ds : List Chunk). Heap mem buckets lo hi ds bs) aside parts) in
      claim linked buckets lo hi l (chunk b k free ∷ r) a m
        (subst (λ (ds : List Chunk). SomeHeap linked buckets lo hi ds) back right)
