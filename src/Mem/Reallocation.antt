-- ===== src/Mem/Reallocation.antt =====
-- __mem_realloc() and nt_mem_realloc(). memcpy() of a chunk copies its words.
use nt_shm.Common.{
  ℕ, zero, suc, ◌+◌, ◌-◌, ◌*◌, ◌/◌, Bool, ltb, leb, ◌==◌, ◌&&◌, ◌||◌, if◌then◌else◌,
}
use nt_shm.Common.Run.{Run, ok, exit_failure, ◌>>=◌}
use nt_shm.Mem.{
  Memory, MemInfo, store, mem_max_size, add64, sub64, free_chunk, chunk_size, mem_proper_alloc_size,
  mem_set_chunk_size, mem_set_used_chunk_size, mem_link_chunk, mem_unlink_chunk, mem_malloc,
  mem_free, free_room,
}

-- The copy of the first `words` words of the memory `from` at `source` to `target`
unfoldable pub copy_words : Memory → Memory → ℕ → ℕ → ℕ → Memory
copy_words from mem target source zero = mem
copy_words from mem target source (suc words) =
    store (copy_words from mem target source words) (target + 8 * words) (from (source + 8 * words))

-- A block that is made smaller: the next free chunk grows to the left, or the rest becomes a chunk.
unfoldable pub shrink : MemInfo → ℕ → ℕ → ℕ → Bool → MemInfo
shrink info chunk full size next_free =
    let next_chunk : ℕ = chunk + 16 + full in
    let new_chunk : ℕ = chunk + 16 + size in
    let more : ℕ = chunk_size info.mem next_chunk + (full - size) in
    let less : ℕ = full - size - 16 in
    let unlinked : Memory = mem_unlink_chunk info.mem info.buckets next_chunk in
    let done : Memory → ℕ → ℕ → MemInfo = λ m new_size gained. record info {
      mem =
          mem_set_used_chunk_size
            (mem_link_chunk (mem_set_chunk_size m new_chunk new_size) info.buckets new_chunk) chunk
            size;
      used_size = sub64 info.used_size (full - size);
      free_size = add64 info.free_size gained;
    } in
    if next_free then done unlinked more (full - size) else done info.mem less less

-- A block that grows into the next free chunk
unfoldable pub grow : MemInfo → ℕ → ℕ → ℕ → MemInfo
grow info chunk old_full size =
    let next_chunk : ℕ = chunk + 16 + old_full in
    let full : ℕ = old_full + (16 + chunk_size info.mem next_chunk) in
    let used : ℕ = sub64 info.used_size old_full in
    let free : ℕ = add64 info.free_size (old_full + 16) in
    let m1 : Memory = mem_unlink_chunk info.mem info.buckets next_chunk in
    let new_chunk : ℕ = chunk + 16 + size in
    let new_size : ℕ = full - size - 16 in
    let m2 : Memory =
      mem_link_chunk (mem_set_chunk_size m1 new_chunk new_size) info.buckets new_chunk in
    let whole : MemInfo = record info {
      mem = mem_set_used_chunk_size m1 chunk full;
      used_size = add64 used full;
      free_size = sub64 free full;
    } in
    let split : MemInfo = record info {
      mem = mem_set_used_chunk_size m2 chunk size;
      used_size = add64 used size;
      free_size = add64 (sub64 free full) new_size;
    } in
    if ltb full (size + 16 + 24) then whole else split

-- `next_free` of __mem_realloc()
abbrev pub next_is_free : MemInfo → ℕ → ℕ → Bool
next_is_free info chunk full =
    ltb (chunk + 16 + full) info.hi_bound && free_chunk info.mem (chunk + 16 + full)

-- memcpy() of the bytes of the chunk, from the memory `from`, to the new chunk
unfoldable pub copy_block : Memory → MemInfo → ℕ → ℕ → ℕ → MemInfo
copy_block from info chunk full new_chunk = record info {
  mem = copy_words from info.mem (new_chunk + 8) (chunk + 8) (full / 8);
}

-- A block that finds no other chunk: it is copied to the heap of the process and released, and its
-- room is allocated again.
unfoldable pub recycle : MemInfo → ℕ → ℕ → ℕ → Run (MemInfo × ℕ)
recycle info chunk full size =
    let moved : Run (MemInfo × ℕ) =
      mem_malloc (mem_free info (chunk + 8)) size >>= λ (after, new_chunk).
      if new_chunk == 0
      then exit_failure
      else ok (copy_block info.mem after chunk full new_chunk, new_chunk) in
    if ltb (free_room info chunk full) size then ok (info, 0) else moved

-- A block that is moved
unfoldable pub relocate : MemInfo → ℕ → ℕ → ℕ → Run (MemInfo × ℕ)
relocate info chunk full size = mem_malloc info size >>= λ (after, new_chunk).
    let rest : Run (MemInfo × ℕ) = recycle after chunk full size in
    if new_chunk == 0
    then rest
    else ok (mem_free (copy_block after.mem after chunk full new_chunk) (chunk + 8), new_chunk)

-- The chunk, or NULL
unfoldable pub mem_realloc : MemInfo → ℕ → ℕ → Run (MemInfo × ℕ)
mem_realloc info old size =
    let proper : ℕ = mem_proper_alloc_size size in
    let chunk : ℕ = old - 8 in
    let full : ℕ = chunk_size info.mem chunk in
    let next_free : Bool = next_is_free info chunk full in
    let joined : ℕ = full + 16 + chunk_size info.mem (chunk + 16 + full) in
    if leb proper full
    then (if ltb (full / 4) proper
        then ok (info, chunk)
        else ok (shrink info chunk full proper next_free, chunk))
    else if next_free && leb proper joined
    then ok (grow info chunk full proper, chunk)
    else relocate info chunk full proper

unfoldable pub nt_mem_realloc : MemInfo → ℕ → ℕ → Run (MemInfo × ℕ)
nt_mem_realloc info old size =
    let given : Run (MemInfo × ℕ) =
      if old == 0 then mem_malloc info size else mem_realloc info old size in
    let null : Run (MemInfo × ℕ) = given >>= λ (after, chunk).
    if chunk == 0
    then (if info.allow_oom == 1 then ok (after, 0) else exit_failure)
    else ok (after, chunk + 8) in
    if (size == 0) || ltb mem_max_size size then exit_failure else null
