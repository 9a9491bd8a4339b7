-- ===== src/Mem/Coalesce.antt =====
-- The cases of __mem_free(): a used chunk is freed alone, or with the free chunks beside it.
use mathlib.Core.Path.{subst}
use nt_shm.Common.{ℕ, ◌+◌, ◌≡◌, refl, sym, List, [], ◌∷◌, ◌++◌, arith}
use nt_shm.Common.Weigh.{weigh}
use nt_shm.Mem.{Memory, MemInfo, mem_unlink_chunk, mem_link_chunk, mem_set_chunk_size, add64, sub64}
use nt_shm.Mem.Tiles.{used, free, loose, Chunk, chunk}
use nt_shm.Mem.Moves.{SomeHeap}
use nt_shm.Mem.Loose.{reclaim}
use nt_shm.Mem.Claim.{publish, ++_assoc}
use nt_shm.Mem.Neighbours.{join_next, join_prev}
use nt_shm.Mem.Find.{FreeAt}
use nt_shm.Mem.Valid.{Valid, held, spare, is_loose, sums-le}
use nt_shm.Mem.Malloc.{OneMore, weigh-around}

-- The segment has its invariant again, the used chunks are the same but for the one at a, and there
-- is a free chunk of the size `full`.
pub record Freed (before : List Chunk) (after : MemInfo) (a n full : ℕ) : Type 0 where
  pub chunks : List Chunk
  pub place : ℕ
  pub room : FreeAt chunks place full
  pub valid : Valid after chunks
  pub one_less : OneMore chunks before a n

-- A chunk of another size and a list of chunks that are equal
pub subst2 :
    (P : List Chunk → ℕ → Type 0) {ds es : List Chunk} {m n : ℕ} → ds ≡ es → m ≡ n → P ds m → P es n
subst2 P {ds} {es} {m} {n} e e' h = subst (λ (k : ℕ). P es k) e' (subst (λ xs. P xs m) e h)

-- The chunks that a merge makes one of weigh as much as before, with the size fields in between.
abbrev Merged : List Chunk → List Chunk → ℕ → ℕ → ℕ → Type 0
Merged before now a n extra =
    (weigh is_loose now ≡ 0)
    × (weigh spare now ≡ weigh spare before + n + extra)
    × OneMore now before a n

-- The result of mem_free() with the memory m
abbrev pub after_free : MemInfo → ℕ → Memory → ℕ → ℕ → ℕ → MemInfo
after_free info n m at full extra = record info {
  mem = mem_link_chunk (mem_set_chunk_size m at full) info.buckets at;
  used_size = sub64 info.used_size n;
  free_size = add64 (add64 info.free_size n) extra;
}

finish :
    (info : MemInfo) (cs : List Chunk) (a n : ℕ) (m : Memory) (l' r' : List Chunk)
    (at full extra : ℕ)
    → Valid info cs
    → SomeHeap m info.buckets info.lo_bound info.hi_bound (l' ++ chunk at full loose ∷ r')
    → Merged cs (l' ++ chunk at full free ∷ r') a n extra
    → Freed cs (after_free info n m at full extra) a n full
finish info cs a n m l' r' at full extra v h (settled, spare_more, one_less) =
    let now = l' ++ chunk at full free ∷ r' in
    let lo = info.lo_bound in
    let hi = info.hi_bound in
    let h' = publish m info.buckets lo hi l' r' at full h in
    let bound = sums-le (after_free info n m at full extra).mem lo hi now h'.1.tiles in
    let old_bound = sums-le info.mem lo hi cs v.heap.1.tiles in
    let top = h'.1.top in
    record {
      chunks = now;
      place = at;
      room = record { l = l'; r = r'; here = refl };
      valid = record {
        heap = h';
        settled = settled;
        used_sum = omega (arith, v.used_sum, bound, old_bound, top, one_less (λ x k. k));
        free_sum = omega (arith, v.free_sum, bound, top, spare_more);
      };
      one_less = one_less;
    }

module _ (info : MemInfo) (l r : List Chunk) (a n : ℕ) where
  -- The chunk, no longer used
  pub loosened :
      Valid info (l ++ chunk a n used ∷ r)
      → SomeHeap info.mem info.buckets info.lo_bound info.hi_bound (l ++ chunk a n loose ∷ r)
  loosened v = (
    v.heap.0,
    reclaim info.mem info.buckets info.lo_bound info.hi_bound l r a n v.heap.0 used loose refl refl
        v.heap.1 tt,
  )

  pub Freed-alone :
      Valid info (l ++ chunk a n used ∷ r)
      → Freed (l ++ chunk a n used ∷ r) (after_free info n info.mem a n 0) a n n
  Freed-alone v = finish info (l ++ chunk a n used ∷ r) a n info.mem l r a n 0 v (loosened v) (
    omega (
      arith,
      v.settled,
      weigh-around is_loose l r (chunk a n used),
      weigh-around is_loose l r (chunk a n free),
    ),
    omega (arith, weigh-around spare l r (chunk a n used), weigh-around spare l r (chunk a n free)),
    (λ w. omega (
      arith,
      weigh-around (held w) l r (chunk a n used),
      weigh-around (held w) l r (chunk a n free),
    )),
  )

-- With a free chunk behind it
pub Freed-next :
    (info : MemInfo) (l r : List Chunk) (a n b k : ℕ)
    → Valid info (l ++ chunk a n used ∷ chunk b k free ∷ r)
    → Freed
        (l ++ chunk a n used ∷ chunk b k free ∷ r)
        (after_free info n (mem_unlink_chunk info.mem info.buckets b) a (n + 16 + k) 16)
        a
        n
        (n + 16 + k)
Freed-next info l r a n b k v =
    let rest = chunk b k free ∷ r in
    let big = chunk a (n + 16 + k) free in
    let old = chunk a n used in
    finish info (l ++ old ∷ rest) a n (mem_unlink_chunk info.mem info.buckets b) l r a (n + 16 + k)
      16 v
      (join_next info.mem info.buckets info.lo_bound info.hi_bound l r a n b k
        (loosened info l rest a n v))
      (
        omega (arith, v.settled, weigh-around is_loose l rest old, weigh-around is_loose l r big),
        omega (arith, weigh-around spare l rest old, weigh-around spare l r big),
        (λ w. omega (arith, weigh-around (held w) l rest old, weigh-around (held w) l r big)),
      )

pub loosened_behind :
    (info : MemInfo) (l r : List Chunk) (p k a n : ℕ)
    → Valid info (l ++ chunk p k free ∷ chunk a n used ∷ r)
    → SomeHeap info.mem info.buckets info.lo_bound info.hi_bound
        (l ++ chunk p k free ∷ chunk a n loose ∷ r)
loosened_behind info l r p k a n v =
    let front = chunk p k free ∷ [] in
    subst (SomeHeap info.mem info.buckets info.lo_bound info.hi_bound)
      (++_assoc l front (chunk a n loose ∷ r))
      (loosened info (l ++ front) r a n
        (subst (Valid info) (sym (++_assoc l front (chunk a n used ∷ r))) v))

-- With a free chunk before it
pub Freed-prev :
    (info : MemInfo) (l r : List Chunk) (p k a n : ℕ)
    → Valid info (l ++ chunk p k free ∷ chunk a n used ∷ r)
    → Freed
        (l ++ chunk p k free ∷ chunk a n used ∷ r)
        (after_free info n (mem_unlink_chunk info.mem info.buckets p) p (k + 16 + n) 16)
        a
        n
        (k + 16 + n)
Freed-prev info l r p k a n v =
    let first = chunk p k free in
    let rest = chunk a n used ∷ r in
    let big = chunk p (k + 16 + n) free in
    finish info (l ++ first ∷ rest) a n (mem_unlink_chunk info.mem info.buckets p) l r p
      (k + 16 + n) 16 v
      (join_prev info.mem info.buckets info.lo_bound info.hi_bound l r p k a n
        (loosened_behind info l r p k a n v))
      (
        omega (arith, v.settled, weigh-around is_loose l rest first, weigh-around is_loose l r big),
        omega (arith, weigh-around spare l rest first, weigh-around spare l r big),
        (λ w. omega (arith, weigh-around (held w) l rest first, weigh-around (held w) l r big)),
      )

-- With free chunks on both sides
pub Freed-both :
    (info : MemInfo) (l r : List Chunk) (p k a n b m : ℕ)
    → Valid info (l ++ chunk p k free ∷ chunk a n used ∷ chunk b m free ∷ r)
    → Freed
        (l ++ chunk p k free ∷ chunk a n used ∷ chunk b m free ∷ r)
        (after_free info n
          (mem_unlink_chunk (mem_unlink_chunk info.mem info.buckets p) info.buckets b)
          p
          (k + 16 + n + 16 + m)
          32)
        a
        n
        (k + 16 + n + 16 + m)
Freed-both info l r p k a n b m v =
    let first = chunk p k free in
    let rest = chunk a n used ∷ chunk b m free ∷ r in
    let big = chunk p (k + 16 + n + 16 + m) free in
    let m1 = mem_unlink_chunk info.mem info.buckets p in
    finish info (l ++ first ∷ rest) a n (mem_unlink_chunk m1 info.buckets b) l r p
      (k + 16 + n + 16 + m) 32 v
      (join_next m1 info.buckets info.lo_bound info.hi_bound l r p (k + 16 + n) b m (
        join_prev info.mem info.buckets info.lo_bound info.hi_bound l (chunk b m free ∷ r) p k a n
          (loosened_behind info l (chunk b m free ∷ r) p k a n v)))
      (
        omega (arith, v.settled, weigh-around is_loose l rest first, weigh-around is_loose l r big),
        omega (arith, weigh-around spare l rest first, weigh-around spare l r big),
        (λ w. omega (arith, weigh-around (held w) l rest first, weigh-around (held w) l r big)),
      )
