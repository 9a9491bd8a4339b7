-- ===== src/Mem/Keeps.antt =====
-- The words inside the used chunks, over __mem_malloc() and __mem_free().
use mathlib.Core.Path.{subst}
use nt_shm.Common.{
  ℕ, ◌+◌, ◌-◌, ◌%◌, ◌≤◌, ◌≡◌, inl, inr, refl, ◌∙◌, List, ◌∷◌, ◌++◌, true, false, arith, ltb, ◌==◌,
}
use nt_shm.Common.Run.{Returns, returns, Returns-bind}
use nt_shm.Common.Weigh.{weigh, weigh_mono, weigh-append}
use nt_shm.Mem.{Memory, MemInfo, mem_unlink_chunk, take_chunk, mem_malloc, mem_proper_alloc_size}
use nt_shm.Mem.Links.{Same}
use nt_shm.Mem.Tiles.{State, used, free, loose, Chunk, chunk}
use nt_shm.Mem.Moves.{SomeHeap, unlink-Heap}
use nt_shm.Mem.Choice.{Suits, find_chunk-Choice}
use nt_shm.Mem.Valid.{Valid, held}
use nt_shm.Mem.Malloc.{proper-size, either, full-size}
use nt_shm.Mem.Frame.{covers, solid, Covered, unlink-keeps, claim-keeps, claim_front-keeps}

pub held-solid : (p a n : ℕ) (s : State) → held (covers p) (chunk a n s) ≤ solid p (chunk a n s)
held-solid p a n used = omega arith
held-solid p a n free = omega arith
held-solid p a n loose = omega arith

-- A word inside a used chunk
pub Covered-held : (p : ℕ) (cs : List Chunk) → 1 ≤ weigh (held (covers p)) cs → Covered p cs
Covered-held p cs h =
    omega
      (arith, weigh_mono (held (covers p)) (solid p) cs (λ c. held-solid p c.addr c.size c.state))

module _ (info : MemInfo) (l r : List Chunk) (a n size p : ℕ)
    (v : Valid info (l ++ chunk a n free ∷ r)) (enough : size ≤ n) (big : 24 ≤ size)
    (whole : size % 8 ≡ 0) (h : Covered p (l ++ chunk a n free ∷ r)) where
  abbrev m1 : Memory
  m1 = mem_unlink_chunk info.mem info.buckets a

  pub take_chunk-keeps : Same info.mem (take_chunk info size a).mem p
  unfolding take_chunk
  take_chunk-keeps =
      let at_b : a + 8 + size + 8 ≡ a + 16 + size = omega arith in
      let lo = info.lo_bound in
      let hi = info.hi_bound in
      let heap : SomeHeap m1 info.buckets lo hi (l ++ chunk a n loose ∷ r) =
        unlink-Heap info.mem info.buckets lo hi l r a n v.heap.0 v.heap.1 in
      let first = unlink-keeps info.mem info.buckets lo hi l r a n p v.heap h in
      let there : 1 ≤ weigh (solid p) l + weigh (solid p) r =
        omega (arith, h, weigh-append (solid p) l (chunk a n free ∷ r)) in
      rw (full-size info l r a n size v enough big whole, at_b)
        (either (λ after. Same info.mem after.mem p) (ltb n (size + 16 + 24))
          (λ small.
            claim-keeps m1 info.buckets lo hi l r a n p heap
              (omega (arith, there, weigh-append (solid p) l (chunk a n loose ∷ r)))
            ∙ first)
          (λ more.
            claim_front-keeps m1 info.buckets lo hi l r a n p size (n - size - 16) (ground arith)
              big (ground arith) whole heap (omega (arith, there))
            ∙ first))

-- __mem_malloc() keeps the words inside the used chunks.
pub mem_malloc-keeps :
    (info : MemInfo) (cs : List Chunk) (size : ℕ)
    → Valid info cs
    → Returns
        (λ (after, c). (p : ℕ) → 1 ≤ weigh (held (covers p)) cs → Same info.mem after.mem p)
        (mem_malloc info size)
unfolding mem_malloc
mem_malloc-keeps info cs size v =
    let (enough, big, whole, close) = proper-size size in
    Returns-bind
      (find_chunk-Choice info cs v.heap.0 (mem_proper_alloc_size size) v.heap.1 big whole)
      (λ c choice. elim choice [
        | inl (null, none) ↦
            let test : (c == 0) ≡ true = ground arith in rw test (returns (λ p h. refl))
        | inr (some_c, suits) ↦
            let test : (c == 0) ≡ false = ground arith in
            rw test (returns (λ p h. taken_at c suits p (Covered-held p cs h)))
      ])
  where
    taken_at :
        (c : ℕ)
        → Suits cs (mem_proper_alloc_size size) c
        → (p : ℕ) → Covered p cs
        → Same info.mem (take_chunk info (mem_proper_alloc_size size) c).mem p
    taken_at c suits p h =
        let (enough, big, whole, close) = proper-size size in
        let f = suits.at in
        take_chunk-keeps info f.l f.r c suits.full (mem_proper_alloc_size size) p
          (subst (λ (ds : List Chunk). Valid info ds) f.here v) suits.enough big whole
          (subst (λ (ds : List Chunk). Covered p ds) f.here h)
