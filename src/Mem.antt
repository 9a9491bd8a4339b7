-- ===== src/Mem.antt =====
-- nt_mem.c: the allocator over the shared memory segment, with a size field at both ends of a chunk
-- and the free chunks in doubly-linked lists, one for each bucket of sizes.
--
-- The memory is a function from the address of a word of eight bytes to the word; a store changes
-- one word. The array of the buckets lies in it at `buckets`. NULL is 0. An address and a size are
-- numbers; the counters `used_size` and `free_size` wrap around at 2 ^ 64. What is only logged (the
-- number and the sizes of the chunks that the search skips) is left out.
pub mod Links
pub mod Relink
pub mod Tiles
pub mod Heap
pub mod Members
pub mod Moves
pub mod Loose
pub mod Frame
pub mod Search
pub mod Find
pub mod Choice
pub mod Claim
pub mod Valid
pub mod Malloc
pub mod Neighbours
pub mod Coalesce
pub mod Free
pub mod Keeps
pub mod KeepsFree
pub mod Requests
pub mod Reallocation
pub mod Resize
pub mod Relocate
pub mod Content
pub mod Carry
pub mod Realloc
pub mod Clear
pub mod Stats
pub mod Segment
pub mod Create
pub mod Tests
use nt_shm.Common.{
  ℕ, zero, suc, ◌+◌, ◌-◌, ◌*◌, ◌/◌, ◌%◌, ◌^◌, List, [], ◌∷◌, Bool, true, false, ltb, leb, ◌==◌,
  ◌&&◌, ◌||◌, not, if◌then◌else◌,
}
use nt_shm.Common.Run.{Run, ok, exit_failure, out_of_fuel, ◌>>=◌}

abbrev pub Memory : Type 0
Memory = ℕ → ℕ

abbrev pub store : Memory → ℕ → ℕ → Memory
store mem p v = λ q. if p == q then v else mem q

pub record MemInfo : Type 0 where
  pub mem : Memory
  pub buckets : ℕ
  pub lo_bound : ℕ
  pub hi_bound : ℕ
  pub free_size : ℕ
  pub used_size : ℕ
  pub total_size : ℕ
  pub allow_oom : ℕ

-- MEM_FLG_USED, the highest bit
abbrev pub mem_flg_used : ℕ
mem_flg_used = 0x8000000000000000

abbrev pub mem_max_size : ℕ
mem_max_size = 0x1000000000

abbrev pub mem_bucket_count : ℕ
mem_bucket_count = (256 - 24) / 8 + 1

abbrev pub two64 : ℕ
two64 = 0x10000000000000000

-- `a += b` and `a -= b` on the counters
abbrev pub add64 : ℕ → ℕ → ℕ
add64 a b = (a + b) % two64

abbrev pub sub64 : ℕ → ℕ → ℕ
sub64 a b = (a + two64 - b) % two64

-- FREE_CHUNK(ptr) and CHUNK_SIZE(ptr)
abbrev pub free_chunk : Memory → ℕ → Bool
free_chunk mem p = mem p / mem_flg_used % 2 == 0

abbrev pub chunk_size : Memory → ℕ → ℕ
chunk_size mem p = mem p % mem_flg_used

unfoldable pub mem_proper_alloc_size : ℕ → ℕ
mem_proper_alloc_size size = if leb 24 size then size + (8 - size % 8) % 8 else 24

unfoldable pub mem_bucket_by_size : ℕ → ℕ
mem_bucket_by_size size =
    if ltb size 24 then 0 else if ltb size 256 then (size - 24) / 8 else mem_bucket_count - 1

unfoldable pub mem_set_chunk_size : Memory → ℕ → ℕ → Memory
mem_set_chunk_size mem chunk size = store (store mem chunk size) (chunk + 8 + size) size

unfoldable pub mem_set_used_chunk_size : Memory → ℕ → ℕ → Memory
mem_set_used_chunk_size mem chunk size =
    store (store mem chunk (mem_flg_used + size)) (chunk + 8 + size) (mem_flg_used + size)

abbrev pub mem_ptr_to_prev_field : ℕ → ℕ
mem_ptr_to_prev_field chunk = if chunk == 0 then 0 else chunk + 8

abbrev pub mem_ptr_to_next_field : ℕ → ℕ → ℕ
mem_ptr_to_next_field chunk first_chunk = if chunk == 0 then first_chunk else chunk + 16

-- `&info->buckets[index]`
abbrev pub bucket_cell : ℕ → ℕ → ℕ
bucket_cell buckets index = buckets + 8 * index

unfoldable pub mem_link_chunk : Memory → ℕ → ℕ → Memory
mem_link_chunk mem buckets chunk =
    let cell : ℕ = bucket_cell buckets (mem_bucket_by_size (chunk_size mem chunk)) in
    let m1 : Memory = if mem cell == 0 then mem else store mem (mem cell + 8) chunk in
    let m2 : Memory = store m1 (chunk + 8) 0 in
    let m3 : Memory = store m2 (chunk + 16) (m2 cell) in store m3 cell chunk

unfoldable pub mem_unlink_chunk : Memory → ℕ → ℕ → Memory
mem_unlink_chunk mem buckets chunk =
    let cell : ℕ = bucket_cell buckets (mem_bucket_by_size (chunk_size mem chunk)) in
    let prev_chunk : ℕ = mem (chunk + 8) in
    let next_chunk : ℕ = mem (chunk + 16) in
    let m1 : Memory = store mem (mem_ptr_to_next_field prev_chunk cell) next_chunk in
    if mem_ptr_to_prev_field next_chunk == 0
    then m1
    else store m1 (mem_ptr_to_prev_field next_chunk) prev_chunk

-- `while (index < MEM_BUCKET_COUNT - 1 && NULL == info->buckets[index]) index++`, for the rounds left
unfoldable pub find_bucket : Memory → ℕ → ℕ → ℕ → ℕ
find_bucket mem buckets zero index = index
find_bucket mem buckets (suc rounds) index =
    if ltb index (mem_bucket_count - 1) && (mem (bucket_cell buckets index) == 0)
    then find_bucket mem buckets rounds (index + 1)
    else index

-- `while (NULL != chunk && CHUNK_SIZE(chunk) < size) chunk = mem_get_next_chunk(chunk)`
unfoldable pub first_fit : ℕ → Memory → ℕ → ℕ → Run ℕ
first_fit zero mem chunk size = out_of_fuel
first_fit (suc fuel) mem chunk size =
    let rest : Run ℕ = first_fit fuel mem (mem (chunk + 16)) size in
    if not (chunk == 0) && ltb (chunk_size mem chunk) size then rest else ok chunk

-- The search of __mem_malloc(), for a proper size. A list has fewer chunks than the segment has
-- bytes.
unfoldable pub find_chunk : MemInfo → ℕ → Run ℕ
find_chunk info size =
    let index : ℕ = find_bucket info.mem info.buckets mem_bucket_count (mem_bucket_by_size size) in
    let chunk : ℕ = info.mem (bucket_cell info.buckets index) in
    if index == mem_bucket_count - 1
    then first_fit (info.hi_bound - info.lo_bound + 1) info.mem chunk size
    else ok chunk

-- What __mem_malloc() does with the chunk that it has found
unfoldable pub take_chunk : MemInfo → ℕ → ℕ → MemInfo
take_chunk info size chunk =
    let full : ℕ = chunk_size info.mem chunk in
    let m1 : Memory = mem_unlink_chunk info.mem info.buckets chunk in
    let whole : MemInfo = record info {
      mem = mem_set_used_chunk_size m1 chunk full;
      used_size = add64 info.used_size full;
      free_size = sub64 info.free_size full;
    } in
    let new_chunk : ℕ = chunk + 8 + size + 8 in
    let new_size : ℕ = full - size - 16 in
    let m2 : Memory =
      mem_link_chunk (mem_set_chunk_size m1 new_chunk new_size) info.buckets new_chunk in
    let split : MemInfo = record info {
      mem = mem_set_used_chunk_size m2 chunk size;
      used_size = add64 info.used_size size;
      free_size = add64 (sub64 info.free_size full) new_size;
    } in
    if ltb full (size + 16 + 24) then whole else split

-- The chunk, or NULL
unfoldable pub mem_malloc : MemInfo → ℕ → Run (MemInfo × ℕ)
mem_malloc info size =
    let proper : ℕ = mem_proper_alloc_size size in
    find_chunk info proper >>= λ chunk.
    if chunk == 0 then ok (info, 0) else ok (take_chunk info proper chunk, chunk)

unfoldable pub mem_free : MemInfo → ℕ → MemInfo
mem_free info ptr =
    let chunk : ℕ = ptr - 8 in
    let mem : Memory = info.mem in
    let size : ℕ = chunk_size mem chunk in
    let used : ℕ = sub64 info.used_size size in
    let free : ℕ = add64 info.free_size size in
    let next_chunk : ℕ = chunk + 8 + size + 8 in
    let prev_free : Bool = ltb info.lo_bound chunk && free_chunk mem (chunk - 8) in
    let next_free : Bool = ltb next_chunk info.hi_bound && free_chunk mem next_chunk in
    let prev_size : ℕ = chunk_size mem (chunk - 8) in
    let next_size : ℕ = chunk_size mem next_chunk in
    let prev_chunk : ℕ = chunk - 8 - prev_size - 8 in
    let done : Memory → ℕ → ℕ → ℕ → MemInfo = λ m at full extra. record info {
      mem = mem_link_chunk (mem_set_chunk_size m at full) info.buckets at;
      used_size = used;
      free_size = add64 free extra;
    } in
    if prev_free && next_free
    then done
        (mem_unlink_chunk (mem_unlink_chunk mem info.buckets prev_chunk) info.buckets next_chunk)
        prev_chunk (size + (32 + chunk_size mem prev_chunk + next_size)) 32
    else if prev_free
    then done (mem_unlink_chunk mem info.buckets prev_chunk) prev_chunk
        (size + (16 + chunk_size mem prev_chunk)) 16
    else if next_free
    then done (mem_unlink_chunk mem info.buckets next_chunk) chunk (size + (16 + next_size)) 16
    else done mem chunk size 0

-- How big the free chunk is that a release of the chunk would leave: `new_chunk_size` where
-- __mem_realloc() asks whether there would be enough space
unfoldable pub free_room : MemInfo → ℕ → ℕ → ℕ
free_room info chunk size =
    let next_chunk : ℕ = chunk + 16 + size in
    let next_free : Bool = ltb next_chunk info.hi_bound && free_chunk info.mem next_chunk in
    let prev_free : Bool = ltb info.lo_bound chunk && free_chunk info.mem (chunk - 8) in
    size
    + (if next_free then chunk_size info.mem next_chunk + 16 else 0)
    + (if prev_free then chunk_size info.mem (chunk - 8) + 16 else 0)

unfoldable pub nt_mem_malloc : MemInfo → ℕ → ℕ → Run (MemInfo × ℕ)
nt_mem_malloc info old size =
    let given : Run (MemInfo × ℕ) = mem_malloc info size >>= λ (after, chunk).
    let null : Run (MemInfo × ℕ) = if info.allow_oom == 1 then ok (after, 0) else exit_failure in
    if chunk == 0 then null else ok (after, chunk + 8) in
    if not (old == 0)
    then exit_failure
    else if (size == 0) || ltb mem_max_size size
    then exit_failure
    else given

unfoldable pub nt_mem_free : MemInfo → ℕ → Run MemInfo
nt_mem_free info ptr = if ptr == 0 then exit_failure else ok (mem_free info ptr)

-- The loop over the buckets of memset(info->buckets, 0, ...), from the last
unfoldable pub clear_buckets : Memory → ℕ → ℕ → Memory
clear_buckets mem buckets zero = mem
clear_buckets mem buckets (suc n) = store (clear_buckets mem buckets n) (bucket_cell buckets n) 0

unfoldable pub nt_mem_clear : MemInfo → MemInfo
nt_mem_clear info =
    let m1 : Memory = clear_buckets info.mem info.buckets mem_bucket_count in
    let m2 : Memory =
      store m1 (bucket_cell info.buckets (mem_bucket_by_size info.total_size)) info.lo_bound in
    let m3 : Memory = mem_set_chunk_size m2 info.lo_bound info.total_size in
    let m4 : Memory = store m3 (info.lo_bound + 8) 0 in
    record info {
      mem = store m4 (info.lo_bound + 16) 0;
      used_size = 0;
      free_size = info.total_size;
    }

-- The number of chunks in the segment that nt_mem_dump_stats() computes from the counters
unfoldable pub stats_total : MemInfo → ℕ
stats_total info = sub64 (sub64 info.total_size info.used_size) info.free_size / 16 + 1
