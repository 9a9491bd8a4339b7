-- ===== src/Mem/Free.antt =====
-- __mem_free() under the invariant: the tests for free chunks on both sides, and their cases.
use mathlib.Core.Path.{subst}
use nt_shm.Common.{ℕ, ◌+◌, ◌-◌, ◌≡◌, inl, inr, sym, ap, ◌∙◌, List, [], ◌∷◌, ◌++◌, arith}
use nt_shm.Mem.{MemInfo, chunk_size, mem_free, free_room, mem_unlink_chunk}
use nt_shm.Mem.Tiles.{used, free, Chunk, chunk, Tiles, Tiles-split, Tiles-le, end_of}
use nt_shm.Mem.Members.{Tags-of, size-lt}
use nt_shm.Mem.Claim.{++_assoc}
use nt_shm.Mem.Neighbours.{Next, Prev, Next-cases, Prev-cases}
use nt_shm.Mem.Valid.{Valid, is_loose}
use nt_shm.Mem.Malloc.{weigh-around}
use nt_shm.Mem.Coalesce.{Freed, after_free, subst2, Freed-alone, Freed-next, Freed-prev, Freed-both}

module _ (info : MemInfo) (l r : List Chunk) (a n : ℕ) where
  -- The chunks beside the one at a
  pub beside :
      Valid info (l ++ chunk a n used ∷ r)
      → Prev info.mem info.lo_bound a l × Next info.mem info.hi_bound (a + 16 + n) r
  beside v =
      let h = v.heap.1 in
      let (front, (at, big, whole, tags, back)) =
        Tiles-split info.mem info.hi_bound info.lo_bound l (chunk a n used ∷ r) h.tiles in
      let up = Tiles-le info.mem info.hi_bound (end_of info.lo_bound l + 16 + n) r back in
      let parts = weigh-around is_loose l r (chunk a n used) in
      (
        Prev-cases info.mem info.hi_bound h.top info.lo_bound a l
            (subst (λ (e : ℕ). Tiles info.mem info.lo_bound e l) (sym at) front)
            (omega (arith, v.settled)) (omega arith),
        Next-cases info.mem info.hi_bound h.top (a + 16 + n) r
            (subst (λ (e : ℕ). Tiles info.mem (e + 16 + n) info.hi_bound r) (sym at) back)
            (omega (arith, v.settled)),
      )

  -- Freed-next, Freed-prev and Freed-both in the words of mem_free()
  with_next :
      (r' : List Chunk) (k : ℕ)
      → r ≡ chunk (a + 16 + n) k free ∷ r'
      → Valid info (l ++ chunk a n used ∷ r)
      → Freed
          (l ++ chunk a n used ∷ r)
          (after_free info n
            (mem_unlink_chunk info.mem info.buckets (a + 16 + n))
            a
            (n + (16 + k))
            16)
          a
          n
          (n + (16 + k))
  with_next r' k e v =
      let f =
        Freed-next info l r' a n (a + 16 + n) k
          (subst (λ (ds : List Chunk). Valid info (l ++ chunk a n used ∷ ds)) e v) in
      let sum : n + 16 + k ≡ n + (16 + k) = omega arith in
      subst2
        (λ (ds : List Chunk) (full : ℕ).
          Freed (l ++ chunk a n used ∷ ds)
            (after_free info n (mem_unlink_chunk info.mem info.buckets (a + 16 + n)) a full 16) a n
            full)
        (sym e) sum f

  with_prev :
      (l' : List Chunk) (p k : ℕ)
      → l ≡ l' ++ chunk p k free ∷ []
      → Valid info (l ++ chunk a n used ∷ r)
      → Freed
          (l ++ chunk a n used ∷ r)
          (after_free info n (mem_unlink_chunk info.mem info.buckets p) p (n + (16 + k)) 16)
          a
          n
          (n + (16 + k))
  with_prev l' p k e v =
      let whole =
        ap (λ (ds : List Chunk). ds ++ chunk a n used ∷ r) e
        ∙ ++_assoc l' (chunk p k free ∷ []) (chunk a n used ∷ r) in
      let f = Freed-prev info l' r p k a n (subst (Valid info) whole v) in
      let sum : k + 16 + n ≡ n + (16 + k) = omega arith in
      subst2
        (λ (ds : List Chunk) (full : ℕ).
          Freed ds (after_free info n (mem_unlink_chunk info.mem info.buckets p) p full 16) a n
            full)
        (sym whole) sum f

  with_both :
      (l' r' : List Chunk) (p k m : ℕ)
      → l ≡ l' ++ chunk p k free ∷ []
      → r ≡ chunk (a + 16 + n) m free ∷ r'
      → Valid info (l ++ chunk a n used ∷ r)
      → Freed
          (l ++ chunk a n used ∷ r)
          (after_free info n
            (mem_unlink_chunk (mem_unlink_chunk info.mem info.buckets p) info.buckets (a + 16 + n))
            p
            (n + (32 + k + m))
            32)
          a
          n
          (n + (32 + k + m))
  with_both l' r' p k m e e' v =
      let whole =
        (ap (λ (ds : List Chunk). ds ++ chunk a n used ∷ r) e
          ∙ ap (λ (es : List Chunk). (l' ++ chunk p k free ∷ []) ++ chunk a n used ∷ es) e')
        ∙ ++_assoc l' (chunk p k free ∷ []) (chunk a n used ∷ chunk (a + 16 + n) m free ∷ r') in
      let f = Freed-both info l' r' p k a n (a + 16 + n) m (subst (Valid info) whole v) in
      let sum : k + 16 + n + 16 + m ≡ n + (32 + k + m) = omega arith in
      subst2
        (λ (ds : List Chunk) (full : ℕ).
          Freed ds
            (after_free info n
              (mem_unlink_chunk (mem_unlink_chunk info.mem info.buckets p) info.buckets
                (a + 16 + n))
              p full 32)
            a n full)
        (sym whole) sum f

  refit :
      {after : MemInfo} {full full' : ℕ}
      → full ≡ full'
      → Freed (l ++ chunk a n used ∷ r) after a n full
      → Freed (l ++ chunk a n used ∷ r) after a n full'
  refit {after} e f = subst (Freed (l ++ chunk a n used ∷ r) after a n) e f

  pub mem_free-Freed :
      Valid info (l ++ chunk a n used ∷ r)
      → Freed (l ++ chunk a n used ∷ r) (mem_free info (a + 8)) a n (free_room info a n)
  unfolding mem_free free_room
  mem_free-Freed v =
      let at : a + 8 - 8 ≡ a = omega arith in
      let behind : a + 8 + n + 8 ≡ a + 16 + n = omega arith in
      let tag = (Tags-of info.lo_bound info.hi_bound l r a n info.mem used v.heap.1.tiles).0 in
      let inside = size-lt info.lo_bound info.hi_bound l r a n info.mem used v.heap.1.tiles in
      let size : chunk_size info.mem a ≡ n = omega (arith, tag, v.heap.1.top, inside) in
      let (prev, next) = beside v in
      rw (at, size, behind)
        (elim prev [
          | inl prev_used ↦ elim next [
            | inl next_used ↦
                rw (prev_used, next_used) (refit (omega arith) (Freed-alone info l r a n v))
            | inr (k, r', e, next_free, size_k) ↦
                rw (prev_used, next_free, size_k) (refit (omega arith) (with_next r' k e v))
          ]
          | inr (p, k, l', e, prev_free, size_left, size_p, ends) ↦
              let start : a - 8 - k - 8 ≡ p = omega arith in
              elim next [
                | inl next_used ↦
                    rw (prev_free, next_used, size_left, start, size_p)
                      (refit (omega arith) (with_prev l' p k e v))
                | inr (m, r', e', next_free, size_m) ↦
                    rw (prev_free, next_free, size_left, start, size_p, size_m)
                      (refit (omega arith) (with_both l' r' p k m e e' v))
              ]
        ])
