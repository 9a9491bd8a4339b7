-- ===== src/Mem/Malloc.antt =====
-- __mem_malloc() and nt_mem_malloc() under the invariant.
use nt_shm.Common.{
  ℕ, ◌+◌, ◌-◌, ◌%◌, ◌≤◌, ◌<◌, ◌≡◌, refl, List, ◌∷◌, ◌++◌, true, false, arith, ltb, if◌then◌else◌,
  Bool,
}
use nt_shm.Common.Weigh.{weigh, weigh-append}
use nt_shm.Mem.{
  Memory, MemInfo, mem_flg_used, chunk_size, mem_proper_alloc_size, take_chunk, mem_unlink_chunk,
  mem_link_chunk, mem_set_chunk_size, mem_set_used_chunk_size, add64, sub64,
}
use nt_shm.Mem.Tiles.{used, free, loose, Chunk, chunk}
use nt_shm.Mem.Members.{Tags-of, size-lt}
use nt_shm.Mem.Moves.{SomeHeap, unlink-Heap}
use nt_shm.Mem.Claim.{claim, claim_front}
use nt_shm.Mem.Valid.{Valid, held, spare, taken, is_loose, sums-le}

pub proper-size :
    (size : ℕ)
    → (size ≤ mem_proper_alloc_size size)
      × (24 ≤ mem_proper_alloc_size size)
      × (mem_proper_alloc_size size % 8 ≡ 0)
      × (mem_proper_alloc_size size < size + 25)
unfolding mem_proper_alloc_size
proper-size size = (ground arith, ground arith, ground arith, ground arith)

-- Enough for the size, and what a chunk may have
pub record IsProper (size n : ℕ) : Type 0 where
  pub enough : size ≤ n
  pub least_alloc : 24 ≤ n
  pub multiple : n % 8 ≡ 0

-- mem_proper_alloc_size() is the least size that a chunk may have and that is enough.
pub mem_proper_alloc_size-IsProper :
    (size n : ℕ)
    → IsProper size n
    → IsProper size (mem_proper_alloc_size size) × (mem_proper_alloc_size size ≤ n)
unfolding mem_proper_alloc_size
mem_proper_alloc_size-IsProper size n p =
    let (enough, least_alloc, multiple, close) = proper-size size in
    let le = p.enough in
    let big = p.least_alloc in
    let whole = p.multiple in
    (record { enough = enough; least_alloc = least_alloc; multiple = multiple }, ground arith)

-- The used chunks are those of `before` and one more, at `c` with the size `block`.
abbrev pub OneMore : List Chunk → List Chunk → ℕ → ℕ → Type 0
OneMore before after c block =
    (w : ℕ → ℕ → ℕ) → weigh (held w) after ≡ w c block + weigh (held w) before

-- The segment has its invariant again, and one more used chunk, which is not much too big.
pub record Given (before : List Chunk) (after : MemInfo) (c size : ℕ) : Type 0 where
  pub chunks : List Chunk
  pub block : ℕ
  pub enough : size ≤ block
  pub not_much : block < size + 40
  pub valid : Valid after chunks
  pub one_more : OneMore before chunks c block

pub either :
    (P : MemInfo → Type 0) {x y : MemInfo} (test : Bool)
    → (test ≡ true → P x)
    → (test ≡ false → P y)
    → P (if test then x else y)
either P true x y = x refl
either P false x y = y refl

-- A weight of the chunks when the one at a becomes others
module _ (w : Chunk → ℕ) (l r : List Chunk) (c : Chunk) where
  pub weigh-around : weigh w (l ++ c ∷ r) ≡ weigh w l + (w c + weigh w r)
  weigh-around = weigh-append w l (c ∷ r)

module _ (info : MemInfo) (l r : List Chunk) (a n size : ℕ)
    (v : Valid info (l ++ chunk a n free ∷ r)) (enough : size ≤ n) (big : 24 ≤ size)
    (whole : size % 8 ≡ 0) where
  abbrev cs : List Chunk
  cs = l ++ chunk a n free ∷ r

  abbrev m1 : Memory
  m1 = mem_unlink_chunk info.mem info.buckets a

  unlinked : SomeHeap m1 info.buckets info.lo_bound info.hi_bound (l ++ chunk a n loose ∷ r)
  unlinked = unlink-Heap info.mem info.buckets info.lo_bound info.hi_bound l r a n v.heap.0 v.heap.1

  pub full-size : chunk_size info.mem a ≡ n
  full-size =
      let h = v.heap.1 in
      let tag = (Tags-of info.lo_bound info.hi_bound l r a n info.mem free h.tiles).0 in
      omega (arith, tag, h.top, size-lt info.lo_bound info.hi_bound l r a n info.mem free h.tiles)

  sums : weigh taken cs + weigh spare cs < mem_flg_used
  sums =
      let h = v.heap.1 in
      omega (arith, h.top, sums-le info.mem info.lo_bound info.hi_bound cs h.tiles)

  whole_taken :
      n < size + 40
      → (info' : MemInfo)
      → SomeHeap info'.mem info'.buckets info'.lo_bound info'.hi_bound (l ++ chunk a n used ∷ r)
      → info'.used_size ≡ add64 info.used_size n
      → info'.free_size ≡ sub64 info.free_size n
      → Given cs info' a size
  whole_taken small info' h u f =
      let now = l ++ chunk a n used ∷ r in
      record {
        chunks = now;
        block = n;
        enough = enough;
        not_much = small;
        valid = record {
          heap = h;
          settled = omega (
            arith,
            v.settled,
            weigh-around is_loose l r (chunk a n free),
            weigh-around is_loose l r (chunk a n used),
          );
          used_sum = omega (
            arith,
            u,
            v.used_sum,
            sums,
            weigh-around taken l r (chunk a n free),
            weigh-around taken l r (chunk a n used),
            weigh-around spare l r (chunk a n free),
          );
          free_sum = omega (
            arith,
            f,
            v.free_sum,
            sums,
            weigh-around spare l r (chunk a n free),
            weigh-around spare l r (chunk a n used),
          );
        };
        one_more = λ w. omega (
          arith,
          weigh-around (held w) l r (chunk a n free),
          weigh-around (held w) l r (chunk a n used),
        );
      }

  split_taken :
      (b k : ℕ)
      → size + 16 + k ≡ n
      → (info' : MemInfo)
      → SomeHeap info'.mem info'.buckets info'.lo_bound info'.hi_bound
          (l ++ chunk a size used ∷ chunk b k free ∷ r)
      → info'.used_size ≡ add64 info.used_size size
      → info'.free_size ≡ add64 (sub64 info.free_size n) k
      → Given cs info' a size
  split_taken b k sum info' h u f =
      let rest = chunk b k free ∷ r in
      let now = l ++ chunk a size used ∷ rest in
      record {
        chunks = now;
        block = size;
        enough = omega arith;
        not_much = omega arith;
        valid = record {
          heap = h;
          settled = omega (
            arith,
            v.settled,
            weigh-around is_loose l r (chunk a n free),
            weigh-around is_loose l rest (chunk a size used),
          );
          used_sum = omega (
            arith,
            u,
            v.used_sum,
            sums,
            weigh-around taken l r (chunk a n free),
            weigh-around taken l rest (chunk a size used),
            weigh-around spare l r (chunk a n free),
          );
          free_sum = omega (
            arith,
            f,
            v.free_sum,
            sums,
            weigh-around spare l r (chunk a n free),
            weigh-around spare l rest (chunk a size used),
          );
        };
        one_more = λ w. omega (
          arith,
          weigh-around (held w) l r (chunk a n free),
          weigh-around (held w) l rest (chunk a size used),
        );
      }

  -- The results of take_chunk() with the whole chunk, and with its front
  abbrev whole_info : ℕ → MemInfo
  whole_info full = record info {
    mem = mem_set_used_chunk_size m1 a full;
    used_size = add64 info.used_size full;
    free_size = sub64 info.free_size full;
  }

  abbrev split_info : ℕ → ℕ → MemInfo
  split_info b k = record info {
    mem =
        mem_set_used_chunk_size (mem_link_chunk (mem_set_chunk_size m1 b k) info.buckets b) a size;
    used_size = add64 info.used_size size;
    free_size = add64 (sub64 info.free_size n) k;
  }

  pub take_chunk-Given : Given cs (take_chunk info size a) a size
  unfolding take_chunk
  take_chunk-Given =
      let at_b : a + 8 + size + 8 ≡ a + 16 + size = omega arith in
      rw (full-size, at_b)
        (either (λ after. Given cs after a size) (ltb n (size + 16 + 24))
          (λ small.
            whole_taken (ground arith) (whole_info n)
              (claim m1 info.buckets info.lo_bound info.hi_bound l r a n unlinked) refl refl)
          (λ more.
            let sum : size + 16 + (n - size - 16) ≡ n = ground arith in
            split_taken (a + 16 + size) (n - size - 16) sum
              (split_info (a + 16 + size) (n - size - 16))
              (claim_front m1 info.buckets info.lo_bound info.hi_bound l r a n size (n - size - 16)
                sum big (ground arith) whole unlinked)
              refl refl))
