-- ===== src/Mem/Valid.antt =====
-- The invariant of the allocator between two calls: the chunks of the segment are used or free, and
-- the counters are the sums of their sizes.
use nt_shm.Common.{ℕ, ◌+◌, ◌≤◌, ◌≡◌, List, [], ◌∷◌, arith}
use nt_shm.Common.Weigh.{weigh}
use nt_shm.Mem.{Memory, MemInfo}
use nt_shm.Mem.Tiles.{State, used, free, loose, Chunk, Tiles}
use nt_shm.Mem.Moves.{SomeHeap}

abbrev held_in : (ℕ → ℕ → ℕ) → ℕ → ℕ → State → ℕ
held_in w a n used = w a n
held_in w a n free = 0
held_in w a n loose = 0

-- The weight of a used chunk under a weight of addresses and sizes. The weights of two lists of
-- chunks are the same under every `w` when the lists have the same used chunks.
abbrev pub held : (ℕ → ℕ → ℕ) → Chunk → ℕ
held w c = held_in w c.addr c.size c.state

abbrev spare_in : ℕ → State → ℕ
spare_in n used = 0
spare_in n free = n
spare_in n loose = 0

-- The bytes of a free chunk, and those of a used one
abbrev pub spare : Chunk → ℕ
spare c = spare_in c.size c.state

abbrev pub taken : Chunk → ℕ
taken = held (λ a n. n)

abbrev loose_in : State → ℕ
loose_in used = 0
loose_in free = 0
loose_in loose = 1

abbrev pub is_loose : Chunk → ℕ
is_loose c = loose_in c.state

pub record Valid (info : MemInfo) (cs : List Chunk) : Type 0 where
  pub heap : SomeHeap info.mem info.buckets info.lo_bound info.hi_bound cs
  pub settled : weigh is_loose cs ≡ 0
  pub used_sum : info.used_size ≡ weigh taken cs
  pub free_sum : info.free_size ≡ weigh spare cs

bytes-le : (a n : ℕ) (s : State) → held_in (λ a n. n) a n s + spare_in n s ≤ n
bytes-le a n used = omega arith
bytes-le a n free = omega arith
bytes-le a n loose = omega arith

-- The chunks do not have more bytes than the segment.
pub sums-le :
    (mem : Memory) (a hi : ℕ) (cs : List Chunk)
    → Tiles mem a hi cs
    → a + weigh taken cs + weigh spare cs ≤ hi
sums-le mem a hi [] t = omega arith
sums-le mem a hi (c ∷ cs) (e, big, whole, tags, t) =
    omega (arith, sums-le mem (a + 16 + c.size) hi cs t, bytes-le c.addr c.size c.state)
