-- ===== src/Mem/Segment.antt =====
-- nt_mem_create() and nt_mem_required_size(), with pointers of eight bytes.
--
-- shmget() and shmat() are the parameter `attach`, which gives the base of a segment of the size, or
-- nothing when a call fails. The size of nt_mem_info_t is the parameter `info_size`. Of `descr` and
-- `param` only the lengths matter; that they are copied in front of the chunks is left out.
use nt_shm.Common.{ℕ, ◌+◌, ◌-◌, ◌*◌, ◌/◌, ◌%◌, leb, ◌&&◌, Option, none, some, if◌then◌else◌}
use nt_shm.Common.Run.{Run, ok, as_int, ◌>>=◌}
use nt_shm.Mem.{Memory, MemInfo, mem_max_size, mem_bucket_count, two64, add64, sub64, nt_mem_clear}

-- ALIGN8
abbrev pub align8 : ℕ → ℕ
align8 p = (p + 7) / 8 * 8

-- The segment at `base`. The stores are those of nt_mem_clear().
unfoldable pub lay_out : ℕ → Memory → ℕ → ℕ → ℕ → ℕ → ℕ → MemInfo
lay_out info_size mem base size descr_length param_length allow_oom =
    let info : ℕ = align8 base in
    let size1 : ℕ = sub64 size (info + info_size - base) in
    let base1 : ℕ = info + info_size in
    let buckets : ℕ = align8 base1 in
    let size2 : ℕ = sub64 size1 (buckets + 8 * mem_bucket_count - base1) in
    let base2 : ℕ = buckets + 8 * mem_bucket_count in
    let size3 : ℕ = sub64 size2 (descr_length + 1) in
    let base3 : ℕ = base2 + descr_length + 1 in
    let size4 : ℕ = sub64 size3 (param_length + 1) in
    let base4 : ℕ = base3 + param_length + 1 in
    let lo_bound : ℕ = align8 base4 in
    let hi_bound : ℕ = align8 (sub64 (add64 base4 size4) 8) in
    let total_size : ℕ = sub64 (sub64 hi_bound lo_bound) 16 in
    nt_mem_clear (record {
      mem = mem;
      buckets = buckets;
      lo_bound = lo_bound;
      hi_bound = hi_bound;
      free_size = 0;
      used_size = 0;
      total_size = total_size;
      allow_oom = allow_oom;
    })

-- MEM_MIN_SIZE
abbrev pub mem_min_size : ℕ
mem_min_size = 128

-- The segment, or nothing for FAIL
unfoldable pub nt_mem_create : (ℕ → Option ℕ) → ℕ → Memory → ℕ → ℕ → ℕ → ℕ → Option MemInfo
nt_mem_create attach info_size mem size descr_length param_length allow_oom =
    let shared : Option MemInfo = attached (attach size) in
    if leb mem_min_size size && leb size mem_max_size then shared else none
  where
    attached : Option ℕ → Option MemInfo
    attached none = none
    attached (some base) =
        some (lay_out info_size mem base size descr_length param_length allow_oom)

-- MEM_SIZE_FIELD is a size_t, and MEM_MIN_ALLOC an int: chunks_num * (MEM_MIN_ALLOC - 1) is an int.
unfoldable pub nt_mem_required_size : ℕ → ℕ → ℕ → ℕ → Run ℕ
nt_mem_required_size info_size chunks_num descr_length param_length =
    as_int (chunks_num * 23) >>= λ least.
    let room : ℕ = 7 + info_size + 7 + 8 * mem_bucket_count in
    let strings : ℕ = descr_length + 1 + (param_length + 1) in
    let aligned : ℕ = 7 + 8 + (7 + 8) in
    ok ((room + strings + aligned + (chunks_num + two64 - 1) * 16 + least) % two64)
