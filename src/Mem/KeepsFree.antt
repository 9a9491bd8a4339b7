-- ===== src/Mem/KeepsFree.antt =====
-- The words inside the used chunks, over __mem_free().
use mathlib.Core.Path.{subst}
use nt_shm.Common.{ℕ, ◌+◌, ◌-◌, ◌≤◌, ◌≡◌, inl, inr, sym, ap, ◌∙◌, List, [], ◌∷◌, ◌++◌, arith}
use nt_shm.Common.Weigh.{weigh, weigh-append}
use nt_shm.Mem.{
  Memory, MemInfo, chunk_size, mem_set_chunk_size, mem_link_chunk, mem_unlink_chunk, mem_free,
}
use nt_shm.Mem.Links.{Same}
use nt_shm.Mem.Tiles.{used, free, loose, Chunk, chunk}
use nt_shm.Mem.Members.{Tags-of, size-lt}
use nt_shm.Mem.Moves.{SomeHeap}
use nt_shm.Mem.Claim.{++_assoc}
use nt_shm.Mem.Neighbours.{join_next, join_prev}
use nt_shm.Mem.Valid.{Valid}
use nt_shm.Mem.Coalesce.{loosened, loosened_behind}
use nt_shm.Mem.Free.{beside}
use nt_shm.Mem.Frame.{covers, solid, unlink-keeps, publish-keeps}

-- The result of mem_free() in the memory, with the memory after the neighbours are unlinked
abbrev freed_mem : Memory → ℕ → ℕ → ℕ → Memory
freed_mem m bk at full = mem_link_chunk (mem_set_chunk_size m at full) bk at

-- The free chunk behind a loose one is unlinked.
pub unlink_next-keeps :
    (mem : Memory) (bk lo hi : ℕ) (l r : List Chunk) (p a n b k : ℕ)
    → SomeHeap mem bk lo hi (l ++ chunk a n loose ∷ chunk b k free ∷ r)
    → 1 ≤ weigh (solid p) l + (covers p a n + weigh (solid p) r)
    → Same mem (mem_unlink_chunk mem bk b) p
unlink_next-keeps mem bk lo hi l r p a n b k heap h =
    let front = chunk a n loose ∷ [] in
    unlink-keeps mem bk lo hi (l ++ front) r b k p
      (subst (SomeHeap mem bk lo hi) (sym (++_assoc l front (chunk b k free ∷ r))) heap)
      (omega (
        arith,
        h,
        weigh-append (solid p) (l ++ front) (chunk b k free ∷ r),
        weigh-append (solid p) l front,
      ))

module _ (mem : Memory) (bk lo hi : ℕ) (l r : List Chunk) (p : ℕ)
    (h : 1 ≤ weigh (solid p) l + weigh (solid p) r) where
  -- A loose chunk is merged with the free one behind it, and made free.
  next-keeps :
      (a n b k full : ℕ)
      → full ≡ n + 16 + k
      → SomeHeap mem bk lo hi (l ++ chunk a n loose ∷ chunk b k free ∷ r)
      → Same mem (freed_mem (mem_unlink_chunk mem bk b) bk a full) p
  next-keeps a n b k full sum heap =
      let m1 = mem_unlink_chunk mem bk b in
      let joined = join_next mem bk lo hi l r a n b k heap in
      subst (λ (s : ℕ). Same mem (freed_mem m1 bk a s) p) (sym sum)
        (publish-keeps m1 bk lo hi l r a (n + 16 + k) p joined h
          ∙ unlink_next-keeps mem bk lo hi l r p a n b k heap (omega (arith, h)))

  prev-unlink-keeps :
      (q k a n : ℕ)
      → SomeHeap mem bk lo hi (l ++ chunk q k free ∷ chunk a n loose ∷ r)
      → Same mem (mem_unlink_chunk mem bk q) p
  prev-unlink-keeps q k a n heap =
      unlink-keeps mem bk lo hi l (chunk a n loose ∷ r) q k p heap
        (omega (arith, h, weigh-append (solid p) l (chunk q k free ∷ chunk a n loose ∷ r)))

  -- The free chunk before it
  prev-keeps :
      (q k a n full : ℕ)
      → full ≡ k + 16 + n
      → SomeHeap mem bk lo hi (l ++ chunk q k free ∷ chunk a n loose ∷ r)
      → Same mem (freed_mem (mem_unlink_chunk mem bk q) bk q full) p
  prev-keeps q k a n full sum heap =
      let m1 = mem_unlink_chunk mem bk q in
      let joined = join_prev mem bk lo hi l r q k a n heap in
      subst (λ (s : ℕ). Same mem (freed_mem m1 bk q s) p) (sym sum)
        (publish-keeps m1 bk lo hi l r q (k + 16 + n) p joined h ∙ prev-unlink-keeps q k a n heap)

-- The free chunks on both sides
both-keeps :
    (mem : Memory) (bk lo hi : ℕ) (l r : List Chunk) (p q k a n b m full : ℕ)
    → full ≡ k + 16 + n + 16 + m
    → SomeHeap mem bk lo hi (l ++ chunk q k free ∷ chunk a n loose ∷ chunk b m free ∷ r)
    → 1 ≤ weigh (solid p) l + weigh (solid p) r
    → Same mem (freed_mem (mem_unlink_chunk (mem_unlink_chunk mem bk q) bk b) bk q full) p
both-keeps mem bk lo hi l r p q k a n b m full sum heap h =
    let m1 = mem_unlink_chunk mem bk q in
    next-keeps m1 bk lo hi l r p h q (k + 16 + n) b m full sum
      (join_prev mem bk lo hi l (chunk b m free ∷ r) q k a n heap)
    ∙ prev-unlink-keeps mem bk lo hi l (chunk b m free ∷ r) p (omega (arith, h)) q k a n heap

module _ (info : MemInfo) (l r : List Chunk) (a n p : ℕ) (v : Valid info (l ++ chunk a n used ∷ r))
    (h : 1 ≤ weigh (solid p) l + weigh (solid p) r) where
  next_case :
      (k : ℕ) (r' : List Chunk)
      → r ≡ chunk (a + 16 + n) k free ∷ r'
      → Same info.mem
          (freed_mem
            (mem_unlink_chunk info.mem info.buckets (a + 16 + n))
            info.buckets
            a
            (n + (16 + k)))
          p
  next_case k r' e =
      let v' = subst (λ (ds : List Chunk). Valid info (l ++ chunk a n used ∷ ds)) e v in
      next-keeps info.mem info.buckets info.lo_bound info.hi_bound l r' p
        (omega (arith, h, ap (weigh (solid p)) e)) a n (a + 16 + n) k (n + (16 + k)) (omega arith)
        (loosened info l (chunk (a + 16 + n) k free ∷ r') a n v')

  prev_case :
      (q k : ℕ) (l' : List Chunk)
      → l ≡ l' ++ chunk q k free ∷ []
      → Same info.mem
          (freed_mem (mem_unlink_chunk info.mem info.buckets q) info.buckets q (n + (16 + k)))
          p
  prev_case q k l' e =
      let whole =
        ap (λ (ds : List Chunk). ds ++ chunk a n used ∷ r) e
        ∙ ++_assoc l' (chunk q k free ∷ []) (chunk a n used ∷ r) in
      prev-keeps info.mem info.buckets info.lo_bound info.hi_bound l' r p
        (omega (arith, h, ap (weigh (solid p)) e, weigh-append (solid p) l' (chunk q k free ∷ [])))
        q k a n (n + (16 + k)) (omega arith)
        (loosened_behind info l' r q k a n (subst (Valid info) whole v))

  both_case :
      (q k m : ℕ) (l' r' : List Chunk)
      → l ≡ l' ++ chunk q k free ∷ []
      → r ≡ chunk (a + 16 + n) m free ∷ r'
      → Same info.mem
          (freed_mem
            (mem_unlink_chunk (mem_unlink_chunk info.mem info.buckets q) info.buckets (a + 16 + n))
            info.buckets
            q
            (n + (32 + k + m)))
          p
  both_case q k m l' r' e e' =
      let whole =
        (ap (λ (ds : List Chunk). ds ++ chunk a n used ∷ r) e
          ∙ ap (λ (es : List Chunk). (l' ++ chunk q k free ∷ []) ++ chunk a n used ∷ es) e')
        ∙ ++_assoc l' (chunk q k free ∷ []) (chunk a n used ∷ chunk (a + 16 + n) m free ∷ r') in
      both-keeps info.mem info.buckets info.lo_bound info.hi_bound l' r' p q k a n (a + 16 + n) m
        (n + (32 + k + m)) (omega arith)
        (loosened_behind info l' (chunk (a + 16 + n) m free ∷ r') q k a n
          (subst (Valid info) whole v))
        (omega (
          arith,
          h,
          ap (weigh (solid p)) e,
          ap (weigh (solid p)) e',
          weigh-append (solid p) l' (chunk q k free ∷ []),
        ))

  -- __mem_free() keeps the words inside the other used chunks.
  pub mem_free-keeps : Same info.mem (mem_free info (a + 8)).mem p
  unfolding mem_free
  mem_free-keeps =
      let lo = info.lo_bound in
      let hi = info.hi_bound in
      let bk = info.buckets in
      let at : a + 8 - 8 ≡ a = omega arith in
      let behind : a + 8 + n + 8 ≡ a + 16 + n = omega arith in
      let tag = (Tags-of lo hi l r a n info.mem used v.heap.1.tiles).0 in
      let inside = size-lt lo hi l r a n info.mem used v.heap.1.tiles in
      let size : chunk_size info.mem a ≡ n = omega (arith, tag, v.heap.1.top, inside) in
      let (prev, next) = beside info l r a n v in
      rw (at, size, behind)
        (elim prev [
          | inl prev_used ↦ elim next [
            | inl next_used ↦
                rw (prev_used, next_used)
                  (publish-keeps info.mem bk lo hi l r a n p (loosened info l r a n v) h)
            | inr (k, r', e, next_free, size_k) ↦
                rw (prev_used, next_free, size_k) (next_case k r' e)
          ]
          | inr (q, k, l', e, prev_free, size_left, size_q, ends) ↦
              let start : a - 8 - k - 8 ≡ q = omega arith in
              elim next [
                | inl next_used ↦
                    rw (prev_free, next_used, size_left, start, size_q) (prev_case q k l' e)
                | inr (m, r', e', next_free, size_m) ↦
                    rw (prev_free, next_free, size_left, start, size_q, size_m)
                      (both_case q k m l' r' e e')
              ]
        ])
