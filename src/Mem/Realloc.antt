-- ===== src/Mem/Realloc.antt =====
-- __mem_realloc() and nt_mem_realloc() under the invariant.
use mathlib.Core.Path.{subst}
use nt_shm.Common.{
  ℕ, ◌+◌, ◌-◌, ◌/◌, ◌≤◌, ◌<◌, ◌≡◌, ◌≢◌, inl, inr, refl, sym, List, ◌∷◌, ◌++◌, true, arith, ltb, leb,
  ◌&&◌, if◌then◌else◌,
}
use nt_shm.Common.Run.{Run, ok, exit_failure, Returns, returns, Returns-if}
use nt_shm.Mem.{MemInfo, mem_proper_alloc_size, chunk_size, free_room}
use nt_shm.Mem.Reallocation.{shrink, grow, relocate, next_is_free, mem_realloc}
use nt_shm.Mem.Tiles.{used, Chunk, chunk, Tiles-split, Tiles-le, end_of}
use nt_shm.Mem.Members.{Tags-of, size-lt}
use nt_shm.Mem.Valid.{Valid}
use nt_shm.Mem.Malloc.{proper-size, mem_proper_alloc_size-IsProper}
use nt_shm.Mem.Free.{beside}
use nt_shm.Mem.Resize.{Resized, shrink_split-Resized, shrink_next-Resized, grow-Resized}
use nt_shm.Mem.Relocate.{Reanswer, relocate-Reanswer}
use nt_shm.Mem.Content.{
  Holds, Content, Same-Holds, shrink_split-keeps, shrink_next-keeps, grow-keeps,
}
use nt_shm.Mem.Carry.{relocate-Content}

-- A proper size is its own proper size.
proper_twice :
    (size : ℕ) → mem_proper_alloc_size (mem_proper_alloc_size size) ≡ mem_proper_alloc_size size
proper_twice size =
    let (enough, big, whole, close) = proper-size size in
    let p = mem_proper_alloc_size size in
    let (is_p, le) =
      mem_proper_alloc_size-IsProper p p
        (record { enough = omega arith; least_alloc = big; multiple = whole }) in
    omega (arith, is_p.enough)

module _ (info : MemInfo) (l r : List Chunk) (a n size : ℕ) where
  abbrev cs : List Chunk
  cs = l ++ chunk a n used ∷ r

  abbrev p : ℕ
  p = mem_proper_alloc_size size

  kept-Resized : Valid info cs → p ≤ n → Resized cs info a n a p
  kept-Resized v le = record { chunks = cs; block = n; enough = le; valid = v; swapped = λ w. refl }

  some_chunk : Valid info cs → 0 < a
  some_chunk v =
      let h = v.heap.1 in
      let (front, back) =
        Tiles-split info.mem info.hi_bound info.lo_bound l (chunk a n used ∷ r) h.tiles in
      omega
        (arith, h.room, back.0, Tiles-le info.mem (end_of info.lo_bound l) info.lo_bound l front)

  shrunk :
      Valid info cs → p ≤ n / 4 → Resized cs (shrink info a n p (next_is_free info a n)) a n a p
  shrunk v small =
      let (enough, big, whole, close) = proper-size size in
      let (prev, next) = beside info l r a n v in
      elim next [
        | inl next_used ↦
            rw next_used (shrink_split-Resized info l r a n p big whole v (omega arith))
        | inr (k, r', e, next_free, size_k) ↦
            let v' = subst (λ (ds : List Chunk). Valid info (l ++ chunk a n used ∷ ds)) e v in
            rw next_free (
              subst
                (λ (ds : List Chunk).
                  Resized (l ++ chunk a n used ∷ ds) (shrink info a n p true) a n a p)
                (sym e) (shrink_next-Resized info l r' a n k p big whole size_k v' (omega arith)))
      ]

  moved_or_grown :
      Valid info cs
      → n < p
      → Returns (Reanswer info cs a n p) (
          if next_is_free info a n && leb p (n + 16 + chunk_size info.mem (a + 16 + n))
          then ok (grow info a n p, a)
          else relocate info a n p)
  moved_or_grown v more =
      let (enough, big, whole, close) = proper-size size in
      let (prev, next) = beside info l r a n v in
      let moved = relocate-Reanswer info l r a n p v (proper_twice size) more in
      elim next [
        | inl next_used ↦ rw next_used moved
        | inr (k, r', e, next_free, size_k) ↦
            let v' = subst (λ (ds : List Chunk). Valid info (l ++ chunk a n used ∷ ds)) e v in
            rw (next_free, size_k)
              (Returns-if (leb p (n + 16 + k))
                (λ fit. returns (
                  inr (
                    some_chunk v,
                    subst
                        (λ (ds : List Chunk).
                          Resized (l ++ chunk a n used ∷ ds) (grow info a n p) a n a p)
                        (sym e) (grow-Resized info l r' a n k p big whole size_k v' (ground arith)),
                  )))
                (λ no_fit. moved))
      ]

  pub mem_realloc-Reanswer :
      Valid info cs → Returns (Reanswer info cs a n p) (mem_realloc info (a + 8) size)
  unfolding mem_realloc
  mem_realloc-Reanswer v =
      let at : a + 8 - 8 ≡ a = omega arith in
      let tag = (Tags-of info.lo_bound info.hi_bound l r a n info.mem used v.heap.1.tiles).0 in
      let inside = size-lt info.lo_bound info.hi_bound l r a n info.mem used v.heap.1.tiles in
      let full : chunk_size info.mem a ≡ n = omega (arith, tag, v.heap.1.top, inside) in
      let pos = some_chunk v in
      rw (at, full)
        (Returns-if (leb p n)
          (λ le.
            Returns-if (ltb (n / 4) p) (λ close. returns (inr (pos, kept-Resized v (ground arith))))
              (λ small. returns (inr (pos, shrunk v (ground arith)))))
          (λ more. moved_or_grown v (ground arith)))

  shrunk-Holds :
      Valid info cs
      → p ≤ n / 4
      → Holds info.mem a n (shrink info a n p (next_is_free info a n)).mem a p
  shrunk-Holds v small =
      let (enough, big, whole, close) = proper-size size in
      let (prev, next) = beside info l r a n v in
      Same-Holds info.mem (shrink info a n p (next_is_free info a n)).mem a n p (λ q old new.
        elim next [
          | inl next_used ↦
              rw next_used (shrink_split-keeps info l r a n p q big whole new v (omega arith))
          | inr (k, r', e, next_free, size_k) ↦ rw next_free (
              shrink_next-keeps info l r' a n p q big whole new k size_k old
                (subst (λ (ds : List Chunk). Valid info (l ++ chunk a n used ∷ ds)) e v)
                (omega arith))
        ])

  moved_or_grown-Content :
      Valid info cs
      → n < p
      → Returns (Content info a n p) (
          if next_is_free info a n && leb p (n + 16 + chunk_size info.mem (a + 16 + n))
          then ok (grow info a n p, a)
          else relocate info a n p)
  moved_or_grown-Content v more =
      let (enough, big, whole, close) = proper-size size in
      let (prev, next) = beside info l r a n v in
      let moved = relocate-Content info l r a n p v more (proper_twice size) in
      elim next [
        | inl next_used ↦ rw next_used moved
        | inr (k, r', e, next_free, size_k) ↦
            let v' = subst (λ (ds : List Chunk). Valid info (l ++ chunk a n used ∷ ds)) e v in
            rw (next_free, size_k)
              (Returns-if (leb p (n + 16 + k))
                (λ fit. returns (λ pos.
                  Same-Holds info.mem (grow info a n p).mem a n p (λ q old new.
                    grow-keeps info l r' a n p q big whole new k size_k old v' more
                      (ground arith))))
                (λ no_fit. moved))
      ]

  pub mem_realloc-Content :
      Valid info cs → Returns (Content info a n p) (mem_realloc info (a + 8) size)
  unfolding mem_realloc
  mem_realloc-Content v =
      let at : a + 8 - 8 ≡ a = omega arith in
      let tag = (Tags-of info.lo_bound info.hi_bound l r a n info.mem used v.heap.1.tiles).0 in
      let inside = size-lt info.lo_bound info.hi_bound l r a n info.mem used v.heap.1.tiles in
      let full : chunk_size info.mem a ≡ n = omega (arith, tag, v.heap.1.top, inside) in
      rw (at, full)
        (Returns-if (leb p n)
          (λ le.
            Returns-if (ltb (n / 4) p) (λ close. returns (λ pos i in_old in_new. refl))
              (λ small. returns (λ pos. shrunk-Holds v (ground arith))))
          (λ more. moved_or_grown-Content v (ground arith)))

-- What nt_mem_realloc() gives: exit() or NULL, by `allow_oom`, when the room of the block and of the
-- free chunks beside it is too small, or the address in the block, kept, resized or moved, with the
-- words of the block that fit.
pub data Reserved (info : MemInfo) (cs : List Chunk) (a n size : ℕ)
    : Run (MemInfo × ℕ) → Type 0 where
  ends :
      info.allow_oom ≢ 1
      → free_room info a n < mem_proper_alloc_size size
      → Reserved info cs a n size exit_failure
  null :
      info.allow_oom ≡ 1
      → free_room info a n < mem_proper_alloc_size size
      → Reserved info cs a n size (ok (info, 0))
  serves :
      (after : MemInfo) (c : ℕ)
      → Resized cs after a n c (mem_proper_alloc_size size)
      → Holds info.mem a n after.mem c (mem_proper_alloc_size size)
      → Reserved info cs a n size (ok (after, c + 8))
