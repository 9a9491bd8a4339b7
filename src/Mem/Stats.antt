-- ===== src/Mem/Stats.antt =====
-- The counters against the chunks: nt_mem_dump_stats().
use nt_shm.Common.{ℕ, ◌+◌, ◌*◌, ◌≤◌, ◌≡◌, List, [], ◌∷◌, arith, length}
use nt_shm.Common.Weigh.{weigh}
use nt_shm.Mem.{Memory, MemInfo, stats_total}
use nt_shm.Mem.Tiles.{State, used, free, loose, Chunk, chunk, Tiles}
use nt_shm.Mem.Valid.{Valid, spare, taken, is_loose}

bytes-settled :
    (a n : ℕ) (s : State)
    → is_loose (chunk a n s) ≡ 0
    → taken (chunk a n s) + spare (chunk a n s) ≡ n
bytes-settled a n used e = omega arith
bytes-settled a n free e = omega arith
bytes-settled a n loose e = absurd (omega arith)

-- All bytes of the segment are size fields, used or free.
sums-exact :
    (mem : Memory) (a hi : ℕ) (cs : List Chunk)
    → Tiles mem a hi cs
    → weigh is_loose cs ≡ 0
    → a + 16 * length cs + weigh taken cs + weigh spare cs ≡ hi
sums-exact mem a hi [] t settled = omega arith
sums-exact mem a hi (c ∷ cs) (e, big, whole, tags, t) settled = omega (
  arith,
  sums-exact mem (a + 16 + c.size) hi cs t (omega arith),
  bytes-settled c.addr c.size c.state (omega arith),
)

-- In a valid segment with at least one chunk, whose total_size is what the bounds leave beside two
-- size fields, the number that nt_mem_dump_stats() computes from the counters is the number of
-- chunks.
pub stats_total-length :
    (info : MemInfo) (cs : List Chunk)
    → Valid info cs
    → 1 ≤ length cs
    → info.lo_bound + 16 + info.total_size ≡ info.hi_bound
    → stats_total info ≡ length cs
unfolding stats_total
stats_total-length info cs v some_chunk ends =
    let all = sums-exact info.mem info.lo_bound info.hi_bound cs v.heap.1.tiles v.settled in
    omega (arith, all, v.used_sum, v.free_sum, v.heap.1.top)
