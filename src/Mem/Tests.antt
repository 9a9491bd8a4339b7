-- ===== src/Mem/Tests.antt =====
-- Segments with one and with two chunks, and the theorems on them.
use native.Mathlib.Decide.{ℕ_discrete}
use mathlib.Core.Path.{subst}
use nt_shm.Common.{
  ℕ, ◌+◌, ◌≤◌, ◌<◌, ◌≡◌, refl, sym, some, List, [], ◌∷◌, false, arith, ◌==◌, if◌then◌else◌,
}
use nt_shm.Common.Run.{ok, overflow, Returns}
use nt_shm.Common.Weigh.{weigh}
use nt_shm.Mem.{
  Memory, MemInfo, mem_flg_used, mem_bucket_count, mem_bucket_by_size, bucket_cell, clear_buckets,
  mem_set_chunk_size, nt_mem_clear, mem_malloc, mem_proper_alloc_size, find_chunk, find_bucket,
  first_fit, take_chunk, mem_free, free_room, nt_mem_malloc, nt_mem_free, free_room, stats_total,
}
use nt_shm.Mem.Reallocation.{nt_mem_realloc, nt_mem_realloc}
use nt_shm.Mem.Links.{Linked}
use nt_shm.Mem.Tiles.{used, free, Chunk, chunk, count}
use nt_shm.Mem.Heap.{listed, put_list}
use nt_shm.Mem.Valid.{Valid}
use nt_shm.Mem.Choice.{Choice, find_chunk-Choice}
use nt_shm.Mem.Malloc.{IsProper, mem_proper_alloc_size-IsProper}
use nt_shm.Mem.Coalesce.{Freed}
use nt_shm.Mem.Requests.{
  Served, Restored, nt_mem_malloc-Served, nt_mem_free-Freed, mem_free-mem_malloc,
}
use nt_shm.Mem.Segment.{nt_mem_create, nt_mem_required_size}
use nt_shm.Mem.Create.{Created, nt_mem_create-Created}
use nt_shm.Mem.Clear.{nt_mem_clear-Valid}
use nt_shm.Mem.Stats.{stats_total-length}

-- A segment with 200 bytes
abbrev raw : MemInfo
raw = record {
  mem = λ q. 0;
  buckets = 1000;
  lo_bound = 2000;
  hi_bound = 2216;
  free_size = 0;
  used_size = 0;
  total_size = 200;
  allow_oom = 1;
}

abbrev fresh : MemInfo
fresh = nt_mem_clear raw

abbrev one_chunk : List Chunk
one_chunk = chunk 2000 200 free ∷ []

nt_mem_clear-Valid_example : Valid (nt_mem_clear raw) one_chunk
nt_mem_clear-Valid_example =
    nt_mem_clear-Valid raw (omega arith) refl (omega arith) (omega arith) refl

-- The properties of the segment after nt_mem_clear()
fresh-Valid : Valid fresh one_chunk
fresh-Valid = nt_mem_clear-Valid raw (omega arith) refl (omega arith) (omega arith) refl

find_chunk-Choice_example : Returns (Choice one_chunk 56) (find_chunk fresh 56)
find_chunk-Choice_example =
    find_chunk-Choice fresh one_chunk fresh-Valid.heap.0 56 fresh-Valid.heap.1 (omega arith) refl

nt_mem_malloc-Served_example : Served fresh one_chunk 50 (nt_mem_malloc fresh 0 50)
nt_mem_malloc-Served_example =
    nt_mem_malloc-Served fresh one_chunk 50 fresh-Valid (omega arith) (omega arith)

given_out : mem_malloc fresh 50 ≡ ok (take_chunk fresh 56 2000, 2000)
unfolding mem_malloc mem_proper_alloc_size find_chunk find_bucket first_fit mem_bucket_by_size
    nt_mem_clear clear_buckets mem_set_chunk_size
given_out = refl

mem_free-mem_malloc_example : Restored one_chunk (mem_free (take_chunk fresh 56 2000) 2008)
mem_free-mem_malloc_example =
    mem_free-mem_malloc fresh one_chunk 50 (take_chunk fresh 56 2000) 2000 fresh-Valid given_out
      (λ e. omega arith)

stats_total-length_example : stats_total fresh ≡ 1
unfolding nt_mem_clear
stats_total-length_example = stats_total-length fresh one_chunk fresh-Valid (omega arith) refl

-- The segment after the request for 50 bytes: a used chunk and a free one
abbrev two_mem : Memory
two_mem q =
    if q == 2000
    then mem_flg_used + 56
    else if q == 2064
    then mem_flg_used + 56
    else if q == 2072
    then 128
    else if q == 2208
    then 128
    else if q == 1104
    then 2072
    else 0

abbrev two : MemInfo
two = record {
  mem = two_mem;
  buckets = 1000;
  lo_bound = 2000;
  hi_bound = 2216;
  free_size = 128;
  used_size = 56;
  total_size = 200;
  allow_oom = 1;
}

abbrev two_chunks : List Chunk
two_chunks = chunk 2000 56 used ∷ chunk 2072 128 free ∷ []

abbrev two_lists : ℕ → List ℕ
two_lists = put_list (λ j. []) 13 (2072 ∷ [])

two-lists : (j : ℕ) → j < mem_bucket_count → Linked two_mem (bucket_cell 1000 j) 0 (two_lists j)
two-lists j lt = elim (ℕ_discrete j 13) [
  | yes same ↦
      subst (λ (k : ℕ). Linked two_mem (bucket_cell 1000 k) 0 (two_lists k)) (sym same)
        (refl, omega arith, refl, refl)
  | no other ↦ let test : (j == 13) ≡ false = ground arith in rw test (ground arith)
]

two-members : (j x : ℕ) → count x (two_lists j) ≡ weigh (listed j x) two_chunks
unfolding mem_bucket_by_size
two-members j x = ground arith

two-Valid : Valid two two_chunks
two-Valid = record {
  heap = (
    two_lists,
    record {
      room = omega arith;
      top = omega arith;
      tiles =
          (refl, omega arith, refl, (refl, refl), (refl, omega arith, refl, (refl, refl), refl));
      lists = two-lists;
      members = λ j x lt. two-members j x;
    },
  );
  settled = refl;
  used_sum = refl;
  free_sum = refl;
}

nt_mem_free-Freed_example :
    Returns (λ after. Freed two_chunks after 2000 56 (free_room two 2000 56)) (nt_mem_free two 2008)
nt_mem_free-Freed_example = nt_mem_free-Freed two [] (chunk 2072 128 free ∷ []) 2000 56 two-Valid

mem_proper_alloc_size-IsProper_example :
    IsProper 50 (mem_proper_alloc_size 50) × (mem_proper_alloc_size 50 ≤ 64)
mem_proper_alloc_size-IsProper_example =
    mem_proper_alloc_size-IsProper 50 64
      (record { enough = omega arith; least_alloc = omega arith; multiple = refl })

-- The size for a hundred chunks
hundred_chunks : nt_mem_required_size 120 100 4 5 ≡ ok 4299
unfolding nt_mem_required_size
hundred_chunks = refl

-- More chunks than an int times 23 allows
too_many_chunks : nt_mem_required_size 120 93368855 4 5 ≡ overflow
unfolding nt_mem_required_size
too_many_chunks = refl

nt_mem_create-Created_example :
    Created (nt_mem_create (λ size. some 4099) 120 (λ q. 0) 4299 4 5 0) 100
nt_mem_create-Created_example =
    nt_mem_create-Created (λ size. some 4099) 120 (λ q. 0) 4099 4299 4 5 0 100 4299 refl
      (omega arith) (omega arith) (omega arith) (omega arith) hundred_chunks (omega arith)
