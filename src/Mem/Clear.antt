-- ===== src/Mem/Clear.antt =====
-- nt_mem_clear(), and the first chunk that nt_mem_create() lays into the segment.
use native.Mathlib.Decide.{ℕ_discrete}
use mathlib.Core.Path.{subst}
use nt_shm.Common.{
  ℕ, zero, suc, ◌+◌, ◌*◌, ◌%◌, ◌≤◌, ◌<◌, ◌≡◌, refl, sym, List, [], ◌∷◌, false, arith, ◌==◌, ==_self,
}
use nt_shm.Common.Weigh.{weigh}
use nt_shm.Mem.{
  Memory, MemInfo, store, mem_flg_used, mem_bucket_count, mem_bucket_by_size, bucket_cell,
  clear_buckets, mem_set_chunk_size, nt_mem_clear,
}
use nt_shm.Mem.Links.{Linked}
use nt_shm.Mem.Tiles.{Tags, free, chunk, count}
use nt_shm.Mem.Heap.{listed, put_list}
use nt_shm.Mem.Members.{bucket_of-lt}
use nt_shm.Mem.Valid.{Valid}

clear_buckets-null :
    (mem : Memory) (buckets n j : ℕ)
    → j < n
    → clear_buckets mem buckets n (bucket_cell buckets j) ≡ 0
unfolding clear_buckets
clear_buckets-null mem buckets zero j lt = absurd (omega arith)
clear_buckets-null mem buckets (suc n) j lt = elim (ℕ_discrete j n) [
  | yes last ↦ ground arith
  | no early ↦ let before = clear_buckets-null mem buckets n j (omega arith) in ground arith
]

module _ (info : MemInfo) where
  abbrev i : ℕ
  i = mem_bucket_by_size info.total_size

  abbrev cell : ℕ → ℕ
  cell j = bucket_cell info.buckets j

  abbrev cleared : Memory
  cleared = clear_buckets info.mem info.buckets mem_bucket_count

  abbrev one_list : ℕ → List ℕ
  one_list = put_list (λ j. []) i (info.lo_bound ∷ [])

  one-members :
      (j x : ℕ)
      → count x (one_list j) ≡ weigh (listed j x) (chunk info.lo_bound info.total_size free ∷ [])
  one-members j x = ground arith

  -- The words that nt_mem_clear() stores
  abbrev stored : Memory → Memory
  stored m1 =
      store
        (store (mem_set_chunk_size (store m1 (cell i) info.lo_bound) info.lo_bound info.total_size)
          (info.lo_bound + 8) 0)
        (info.lo_bound + 16) 0

  -- On a memory where all buckets are empty
  stored-lists :
      (m1 : Memory) (j : ℕ)
      → info.buckets + 8 * mem_bucket_count ≤ info.lo_bound
      → 24 ≤ info.total_size
      → j < mem_bucket_count
      → m1 (cell j) ≡ 0
      → Linked (stored m1) (cell j) 0 (one_list j)
  unfolding mem_set_chunk_size
  stored-lists m1 j room big lt null = elim (ℕ_discrete j i) [
    | yes same ↦
        subst (λ (k : ℕ). Linked (stored m1) (cell k) 0 (one_list k)) (sym same)
          (rw (==_self i) (
            let lti = bucket_of-lt info.total_size in
            (ground arith, omega (arith, room), ground arith, ground arith)))
    | no other ↦
        let test : (j == i) ≡ false = ground arith in
        let lti = bucket_of-lt info.total_size in rw test (ground arith)
  ]

  stored-Tags :
      (m1 : Memory) → 24 ≤ info.total_size → Tags (stored m1) info.lo_bound info.total_size free
  unfolding mem_set_chunk_size
  stored-Tags m1 big = (ground arith, ground arith)

  -- Whatever is in the memory: when the buckets lie before the segment, total_size is what the
  -- bounds leave beside two size fields, a multiple of 8 and at least 24, and the segment ends below
  -- 2 ^ 63, nt_mem_clear() makes it a valid segment with one free chunk.
  pub nt_mem_clear-Valid :
      info.buckets + 8 * mem_bucket_count ≤ info.lo_bound
      → info.lo_bound + 16 + info.total_size ≡ info.hi_bound
      → info.hi_bound < mem_flg_used
      → 24 ≤ info.total_size
      → info.total_size % 8 ≡ 0
      → Valid (nt_mem_clear info) (chunk info.lo_bound info.total_size free ∷ [])
  unfolding nt_mem_clear
  nt_mem_clear-Valid room ends top big whole = record {
    heap = (
      one_list,
      record {
        room = room;
        top = top;
        tiles = (refl, big, whole, stored-Tags cleared big, ends);
        lists = λ j lt.
            stored-lists cleared j room big lt
              (clear_buckets-null info.mem info.buckets mem_bucket_count j lt);
        members = λ j x lt. one-members j x;
      },
    );
    settled = refl;
    used_sum = refl;
    free_sum = omega arith;
  }
