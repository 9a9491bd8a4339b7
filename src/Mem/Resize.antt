-- ===== src/Mem/Resize.antt =====
-- __mem_realloc() where the block stays: it is made smaller, or grows into the next chunk.
use nt_shm.Common.{ℕ, ◌+◌, ◌-◌, ◌%◌, ◌≤◌, ◌<◌, ◌≡◌, List, ◌∷◌, ◌++◌, true, false, arith, ltb}
use nt_shm.Common.Weigh.{weigh}
use nt_shm.Mem.{
  Memory, MemInfo, mem_flg_used, add64, sub64, chunk_size, mem_unlink_chunk, mem_link_chunk,
  mem_set_chunk_size, mem_set_used_chunk_size,
}
use nt_shm.Mem.Reallocation.{shrink, grow}
use nt_shm.Mem.Tiles.{used, free, loose, Chunk, chunk}
use nt_shm.Mem.Moves.{SomeHeap}
use nt_shm.Mem.Claim.{claim, claim_front}
use nt_shm.Mem.Neighbours.{join_next}
use nt_shm.Mem.Valid.{Valid, held, spare, taken, is_loose, sums-le}
use nt_shm.Mem.Malloc.{weigh-around, either}
use nt_shm.Mem.Coalesce.{loosened}

-- The segment has its invariant again, and the used chunk of n bytes at a is one of `block` bytes at
-- c, which is big enough.
pub record Resized (before : List Chunk) (after : MemInfo) (a n c size : ℕ) : Type 0 where
  pub chunks : List Chunk
  pub block : ℕ
  pub enough : size ≤ block
  pub valid : Valid after chunks
  pub swapped : (w : ℕ → ℕ → ℕ) → weigh (held w) chunks + w a n ≡ weigh (held w) before + w c block

module _ (info : MemInfo) (l r : List Chunk) (a n size : ℕ) (big : 24 ≤ size)
    (whole : size % 8 ≡ 0) where
  abbrev lo : ℕ
  lo = info.lo_bound

  abbrev hi : ℕ
  hi = info.hi_bound

  pub shrink_split-Resized :
      Valid info (l ++ chunk a n used ∷ r)
      → size + 40 ≤ n
      → Resized (l ++ chunk a n used ∷ r) (shrink info a n size false) a n a size
  unfolding shrink
  shrink_split-Resized v fits =
      let old = chunk a n used in
      let b = a + 16 + size in
      let k = n - size - 16 in
      let rest = chunk b k free ∷ r in
      let new = chunk a size used in
      let sum : size + 16 + k ≡ n = omega arith in
      let h =
        claim_front info.mem info.buckets lo hi l r a n size k sum big (omega arith) whole
          (loosened info l r a n v) in
      let bound = sums-le info.mem lo hi (l ++ old ∷ r) v.heap.1.tiles in
      let top = v.heap.1.top in
      let wt = weigh-around taken l r old in
      let wt' = weigh-around taken l rest new in
      let ws = weigh-around spare l r old in
      let ws' = weigh-around spare l rest new in
      record {
        chunks = l ++ new ∷ rest;
        block = size;
        enough = omega arith;
        valid = record {
          heap = h;
          settled =
              omega
                (arith, v.settled, weigh-around is_loose l r old, weigh-around is_loose l rest new);
          used_sum = omega (arith, v.used_sum, bound, top, wt, wt', ws);
          free_sum = omega (arith, v.free_sum, bound, top, wt, ws, ws');
        };
        swapped =
            λ w. omega (arith, weigh-around (held w) l r old, weigh-around (held w) l rest new);
      }

-- With a free chunk of m bytes at b behind the used one
module _ (info : MemInfo) (l r : List Chunk) (a n m size : ℕ) (big : 24 ≤ size)
    (whole : size % 8 ≡ 0) (tag : chunk_size info.mem (a + 16 + n) ≡ m)
    (v : Valid info (l ++ chunk a n used ∷ chunk (a + 16 + n) m free ∷ r)) where
  abbrev b : ℕ
  b = a + 16 + n

  abbrev old : Chunk
  old = chunk a n used

  abbrev before : List Chunk
  before = l ++ old ∷ chunk b m free ∷ r

  abbrev m1 : Memory
  m1 = mem_unlink_chunk info.mem info.buckets b

  joined :
      SomeHeap m1 info.buckets info.lo_bound info.hi_bound (l ++ chunk a (n + 16 + m) loose ∷ r)
  joined =
      join_next info.mem info.buckets info.lo_bound info.hi_bound l r a n b m
        (loosened info l (chunk b m free ∷ r) a n v)

  total : weigh taken before + weigh spare before < mem_flg_used
  total =
      let h = v.heap.1 in
      omega (arith, h.top, sums-le info.mem info.lo_bound info.hi_bound before h.tiles)

  -- The joined chunk is given out but for its rest.
  split_Resized :
      (info' : MemInfo) (k : ℕ)
      → size + 16 + k ≡ n + 16 + m
      → SomeHeap info'.mem info'.buckets info'.lo_bound info'.hi_bound
          (l ++ chunk a size used ∷ chunk (a + 16 + size) k free ∷ r)
      → info'.used_size + n ≡ info.used_size + size
      → info'.free_size + m ≡ info.free_size + k
      → Resized before info' a n a size
  split_Resized info' k sum h u f =
      let behind = chunk b m free ∷ r in
      let new = chunk a size used in
      let rest = chunk (a + 16 + size) k free ∷ r in
      record {
        chunks = l ++ new ∷ rest;
        block = size;
        enough = omega arith;
        valid = record {
          heap = h;
          settled = omega (
            arith,
            v.settled,
            weigh-around is_loose l behind old,
            weigh-around is_loose l rest new,
          );
          used_sum = omega (
            arith,
            u,
            v.used_sum,
            weigh-around taken l behind old,
            weigh-around taken l rest new,
          );
          free_sum = omega (
            arith,
            f,
            v.free_sum,
            weigh-around spare l behind old,
            weigh-around spare l rest new,
          );
        };
        swapped = λ w.
            omega (arith, weigh-around (held w) l behind old, weigh-around (held w) l rest new);
      }

  whole_Resized :
      (info' : MemInfo)
      → size ≤ n + 16 + m
      → SomeHeap info'.mem info'.buckets info'.lo_bound info'.hi_bound
          (l ++ chunk a (n + 16 + m) used ∷ r)
      → info'.used_size ≡ info.used_size + 16 + m
      → info'.free_size + m ≡ info.free_size
      → Resized before info' a n a size
  whole_Resized info' fits h u f =
      let behind = chunk b m free ∷ r in
      let new = chunk a (n + 16 + m) used in
      record {
        chunks = l ++ new ∷ r;
        block = n + 16 + m;
        enough = fits;
        valid = record {
          heap = h;
          settled =
              omega (
                arith,
                v.settled,
                weigh-around is_loose l behind old,
                weigh-around is_loose l r new,
              );
          used_sum =
              omega
                (arith, u, v.used_sum, weigh-around taken l behind old, weigh-around taken l r new);
          free_sum =
              omega
                (arith, f, v.free_sum, weigh-around spare l behind old, weigh-around spare l r new);
        };
        swapped =
            λ w. omega (arith, weigh-around (held w) l behind old, weigh-around (held w) l r new);
      }

  parts : (n ≤ weigh taken before) × (m ≤ weigh spare before)
  parts =
      let behind = chunk b m free ∷ r in
      (
        omega (arith, weigh-around taken l behind old),
        omega (arith, weigh-around spare l behind old),
      )

  pub shrink_next-Resized : size + 24 ≤ n → Resized before (shrink info a n size true) a n a size
  unfolding shrink
  shrink_next-Resized fits =
      let k = m + (n - size) in
      let sum : size + 16 + k ≡ n + 16 + m = omega arith in
      let (taken_n, spare_m) = parts in
      rw tag (
        split_Resized _ k sum
          (claim_front m1 info.buckets info.lo_bound info.hi_bound l r a (n + 16 + m) size k sum big
            (omega arith) whole joined)
          (omega (arith, v.used_sum, v.free_sum, total))
          (omega (arith, v.used_sum, v.free_sum, total)))

  -- The results of grow() with the whole chunk, and with its front
  abbrev grown_whole : MemInfo
  grown_whole = record info {
    mem = mem_set_used_chunk_size m1 a (n + 16 + m);
    used_size = add64 (sub64 info.used_size n) (n + 16 + m);
    free_size = sub64 (add64 info.free_size (n + 16)) (n + 16 + m);
  }

  abbrev grown_split : ℕ → MemInfo
  grown_split k = record info {
    mem =
        mem_set_used_chunk_size
          (mem_link_chunk (mem_set_chunk_size m1 (a + 16 + size) k) info.buckets (a + 16 + size)) a
          size;
    used_size = add64 (sub64 info.used_size n) size;
    free_size = add64 (sub64 (add64 info.free_size (n + 16)) (n + 16 + m)) k;
  }

  pub grow-Resized : size ≤ n + 16 + m → Resized before (grow info a n size) a n a size
  unfolding grow
  grow-Resized fits =
      let full : n + (16 + m) ≡ n + 16 + m = omega arith in
      let (taken_n, spare_m) = parts in
      rw (tag, full)
        (either (λ after. Resized before after a n a size) (ltb (n + 16 + m) (size + 16 + 24))
          (λ small.
            whole_Resized grown_whole fits
              (claim m1 info.buckets info.lo_bound info.hi_bound l r a (n + 16 + m) joined)
              (omega (arith, v.used_sum, v.free_sum, total))
              (omega (arith, v.used_sum, v.free_sum, total)))
          (λ more.
            let k = n + 16 + m - size - 16 in
            let sum : size + 16 + k ≡ n + 16 + m = ground arith in
            split_Resized (grown_split k) k sum
              (claim_front m1 info.buckets info.lo_bound info.hi_bound l r a (n + 16 + m) size k sum
                big (ground arith) whole joined)
              (omega (arith, v.used_sum, v.free_sum, total))
              (omega (arith, v.used_sum, v.free_sum, total))))
