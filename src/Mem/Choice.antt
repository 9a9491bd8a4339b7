-- ===== src/Mem/Choice.antt =====
-- find_chunk(), the whole search of __mem_malloc(), under the invariant.
use mathlib.Core.Path.{subst}
use native.Mathlib.Decide.{ℕ_discrete}
use nt_shm.Common.{ℕ, ◌+◌, ◌-◌, ◌%◌, ◌≤◌, ◌<◌, ◌≡◌, ◌⊎◌, inl, inr, List, arith, ◌==◌, if◌then◌else◌}
use nt_shm.Common.Run.{ok, Returns, returns, Returns-map, Returns-if}
use nt_shm.Common.Weigh.{weigh, All}
use nt_shm.Mem.{
  MemInfo, mem_bucket_count, mem_bucket_by_size, bucket_cell, chunk_size, find_bucket, first_fit,
  find_chunk,
}
use nt_shm.Mem.Tiles.{Chunk, count}
use nt_shm.Mem.Heap.{Heap}
use nt_shm.Mem.Members.{bucket_of-lt}
use nt_shm.Mem.Search.{FirstFull, find_bucket-FirstFull, first_fit-Found}
use nt_shm.Mem.Find.{
  fits, FreeAt, fit_at, All-count, head-empty, head-full, bucket_mono, bucket-exact, free_size_of,
  member_at, free_member, length-lt,
}

-- A chunk that the search finds is free and big enough.
pub record Suits (cs : List Chunk) (size c : ℕ) : Type 0 where
  pub full : ℕ
  pub at : FreeAt cs c full
  pub enough : size ≤ full

-- NULL when no free chunk is big enough, else a free chunk that is
abbrev pub Choice : List Chunk → ℕ → ℕ → Type 0
Choice cs size c = ((c ≡ 0) × (weigh (fits size) cs ≡ 0)) ⊎ ((0 < c) × Suits cs size c)

module _ (info : MemInfo) (cs : List Chunk) (bs : ℕ → List ℕ) (size : ℕ)
    (v : Heap info.mem info.buckets info.lo_bound info.hi_bound cs bs) (big : 24 ≤ size)
    (whole : size % 8 ≡ 0) where
  abbrev first : ℕ
  first = mem_bucket_by_size size

  abbrev cell : ℕ → ℕ
  cell j = bucket_cell info.buckets j

  abbrev H : Type 0
  H = Heap info.mem info.buckets info.lo_bound info.hi_bound cs bs

  chosen :
      (j c : ℕ)
      → j < mem_bucket_count
      → 1 ≤ count c (bs j)
      → first ≤ j
      → (j < 29) ⊎ (size ≤ chunk_size info.mem c)
      → Suits cs size c
  chosen j c lt there up why =
      let (n, f, in_j) =
        member_at info.mem info.buckets info.lo_bound info.hi_bound cs bs v j c lt there in
      let (tag, big_n, whole_n) =
        free_size_of info.mem info.buckets info.lo_bound info.hi_bound cs bs v c n f in
      record {
        full = n;
        at = f;
        enough = elim why [
          | inl early ↦ bucket-exact size n (omega arith) (omega arith) big big_n whole whole_n
          | inr fit ↦ omega arith
        ];
      }

  -- If the walk ends at the last bucket and first fit finds nothing, no free chunk is big enough.
  none_fits :
      FirstFull info.mem info.buckets first 29
      → All (λ x. chunk_size info.mem x < size) (bs 29)
      → weigh (fits size) cs ≡ 0
  none_fits (lo, hi, full, before) small = elim (ℕ_discrete (weigh (fits size) cs) 0) [
    | yes none ↦ none
    | no some_fit ↦
        let (x, n, f, enough) = fit_at size cs (omega arith) in
        let (tag, big_n, whole_n) =
          free_size_of info.mem info.buckets info.lo_bound info.hi_bound cs bs v x n f in
        let there = free_member info.mem info.buckets info.lo_bound info.hi_bound cs bs v x n f in
        let up = bucket_mono size n enough in
        let j = mem_bucket_by_size n in
        elim (ℕ_discrete j 29) [
          | yes last ↦
              let there29 = subst (λ (k : ℕ). 1 ≤ count x (bs k)) last there in
              absurd (
                omega (
                  arith,
                  All-count (λ (y : ℕ). chunk_size info.mem y < size) x (bs 29) small there29,
                ))
          | no early ↦
              let lt = bucket_of-lt n in
              absurd (
                omega (
                  arith,
                  head-empty info.mem (cell j) x (bs j) (v.lists j lt) (before j up (omega arith)),
                ))
        ]
  ]

  search-Choice :
      (j fuel : ℕ)
      → FirstFull info.mem info.buckets first j
      → info.hi_bound - info.lo_bound < fuel
      → Returns (Choice cs size) (
          if j == 29
          then first_fit fuel info.mem (info.mem (cell j)) size
          else ok (info.mem (cell j)))
  search-Choice j fuel (lo, hi, full, before) enough =
      Returns-if (j == 29)
        (λ last.
          let at_29 : j ≡ 29 = ground arith in
          Returns-map
            (first_fit-Found info.mem (cell j) 0 size fuel (bs j) (v.lists j hi) (
              omega
                (arith, length-lt info.mem info.buckets info.lo_bound info.hi_bound cs bs v j hi)))
            (λ c found. elim found [
              | inl (null, small) ↦ inl (
                null,
                none_fits
                    (subst (FirstFull info.mem info.buckets first) at_29 (lo, hi, full, before))
                    (subst (λ (k : ℕ). All (λ x. chunk_size info.mem x < size) (bs k)) at_29 small),
              )
              | inr (some_c, there, fit) ↦ inr (some_c, chosen j c hi there lo (inr fit))
            ]))
        (λ early.
          let below : j < 29 = ground arith in
          let (some_c, there) = head-full info.mem (cell j) (bs j) (v.lists j hi) (full below) in
          returns (inr (some_c, chosen j (info.mem (cell j)) hi there lo (inl below))))

  -- In a segment with the invariant, for a size that is at least 24 and a multiple of 8, the search
  -- ends: with NULL, and then no free chunk is big enough, or with a free chunk that is.
  pub find_chunk-Choice : Returns (Choice cs size) (find_chunk info size)
  unfolding find_chunk
  find_chunk-Choice =
      search-Choice (find_bucket info.mem info.buckets mem_bucket_count first)
        (info.hi_bound - info.lo_bound + 1)
        (find_bucket-FirstFull info.mem info.buckets mem_bucket_count first (bucket_of-lt size)
          (omega arith))
        (omega arith)
