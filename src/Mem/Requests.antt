-- ===== src/Mem/Requests.antt =====
-- The requests to the allocator: nt_mem_malloc() and nt_mem_free(), with the search, the guards and
-- the ends by exit().
use nt_shm.Common.{
  ℕ, ◌+◌, ◌≤◌, ◌<◌, ◌≡◌, ◌≢◌, ◌⊎◌, inl, inr, refl, sym, ap, ◌∙◌, List, [], ◌∷◌, ◌++◌, true, false,
  arith, ltb, ◌==◌, if◌then◌else◌, ◌||◌, ◌&&◌,
}
use mathlib.Core.Path.{subst}
use native.Mathlib.Decide.{ℕ_discrete}
use nt_shm.Common.Run.{Run, ok, exit_failure, Returns, returns, Returns-bind, Returns-value, ◌>>=◌}
use nt_shm.Common.Weigh.{weigh}
use nt_shm.Mem.{
  MemInfo, mem_proper_alloc_size, mem_max_size, take_chunk, mem_malloc, mem_free, free_room,
  nt_mem_free, nt_mem_malloc,
}
use nt_shm.Mem.Tiles.{State, used, free, loose, Chunk, chunk}
use nt_shm.Mem.Find.{fits}
use nt_shm.Mem.Choice.{Suits, find_chunk-Choice}
use nt_shm.Mem.Valid.{Valid, held}
use nt_shm.Mem.Malloc.{Given, proper-size, take_chunk-Given}
use nt_shm.Mem.Coalesce.{Freed}
use nt_shm.Mem.Free.{mem_free-Freed}

-- What __mem_malloc() gives: NULL and the segment as it is, when no free chunk is big enough, or
-- a new used chunk.
abbrev pub Answer : MemInfo → List Chunk → ℕ → MemInfo × ℕ → Type 0
Answer info cs size (after, c) =
    ((c ≡ 0) × (after ≡ info) × (weigh (fits (mem_proper_alloc_size size)) cs ≡ 0))
    ⊎ ((0 < c) × Given cs after c (mem_proper_alloc_size size))

-- __mem_malloc() on a valid segment ends normally: with NULL and the segment as it is, and then no
-- free chunk is big enough for the proper size, or with a chunk that is used from now on in a valid
-- segment, is at least as big as the proper size and less than 40 bytes bigger; the other used
-- chunks are the same.
pub mem_malloc-Answer :
    (info : MemInfo) (cs : List Chunk) (size : ℕ)
    → Valid info cs
    → Returns (Answer info cs size) (mem_malloc info size)
unfolding mem_malloc
mem_malloc-Answer info cs size v =
    let (enough, big, whole, close) = proper-size size in
    Returns-bind
      (find_chunk-Choice info cs v.heap.0 (mem_proper_alloc_size size) v.heap.1 big whole)
      (λ c choice. elim choice [
        | inl (null, none) ↦
            let test : (c == 0) ≡ true = ground arith in rw test (returns (inl (refl, refl, none)))
        | inr (some_c, suits) ↦
            let test : (c == 0) ≡ false = ground arith in
            rw test (returns (inr (some_c, taken_at c suits)))
      ])
  where
    taken_at :
        (c : ℕ)
        → Suits cs (mem_proper_alloc_size size) c
        → Given cs (take_chunk info (mem_proper_alloc_size size) c) c (mem_proper_alloc_size size)
    taken_at c suits =
        let (enough, big, whole, close) = proper-size size in
        let f = suits.at in
        subst
          (λ (ds : List Chunk).
            Given ds (take_chunk info (mem_proper_alloc_size size) c) c
              (mem_proper_alloc_size size))
          (sym f.here)
          (take_chunk-Given info f.l f.r c suits.full (mem_proper_alloc_size size)
            (subst (λ (ds : List Chunk). Valid info ds) f.here v) suits.enough big whole)

-- The segment has its invariant, with the used chunks that it had before.
pub record Restored (before : List Chunk) (after : MemInfo) : Type 0 where
  pub chunks : List Chunk
  pub valid : Valid after chunks
  pub same_used : (w : ℕ → ℕ → ℕ) → weigh (held w) chunks ≡ weigh (held w) before

-- 1 for the address and the size, else 0
abbrev pub at_with : ℕ → ℕ → ℕ → ℕ → ℕ
at_with a n b m = if (b == a) && (m == n) then 1 else 0

used_first :
    (a n b m : ℕ) (s : State) (cs : List Chunk)
    → 1 ≤ held (at_with a n) (chunk b m s)
    → chunk b m s ∷ cs ≡ chunk a n used ∷ cs
used_first a n b m used cs h =
    let same_a : b ≡ a = ground arith in
    let same_n : m ≡ n = ground arith in
    ap (λ (x : ℕ). chunk x m used ∷ cs) same_a ∙ ap (λ (y : ℕ). chunk a y used ∷ cs) same_n
used_first a n b m free cs h = absurd (omega arith)
used_first a n b m loose cs h = absurd (omega arith)

-- A used chunk that has a weight is one of the chunks.
pub used_at :
    (a n : ℕ) (cs : List Chunk)
    → 1 ≤ weigh (held (at_with a n)) cs
    → (l : List Chunk) × (r : List Chunk) × (cs ≡ l ++ chunk a n used ∷ r)
used_at a n [] h = absurd (omega arith)
used_at a n (c ∷ cs) h = elim (ℕ_discrete (held (at_with a n) c) 0) [
  | yes not_this ↦
      let (l, r, e) = used_at a n cs (omega arith) in (c ∷ l, r, ap (λ (ds : List Chunk). c ∷ ds) e)
  | no this ↦ ([], cs, used_first a n c.addr c.size c.state cs (omega arith))
]

-- When __mem_malloc() on a valid segment has given a chunk, __mem_free() of it makes the segment
-- valid with the used chunks from before.
pub mem_free-mem_malloc :
    (info : MemInfo) (cs : List Chunk) (size : ℕ) (after : MemInfo) (c : ℕ)
    → Valid info cs
    → mem_malloc info size ≡ ok (after, c)
    → c ≢ 0
    → Restored cs (mem_free after (c + 8))
mem_free-mem_malloc info cs size after c v e some_c =
    elim (Returns-value (after, c)
      (subst (Returns (Answer info cs size)) e (mem_malloc-Answer info cs size v))) [
        | inl (null, kept, none) ↦ absurd (some_c null)
        | inr (pos, g) ↦
            let self : at_with c g.block c g.block ≡ 1 = ground arith in
            let (l, r, at) =
              used_at c g.block g.chunks (omega (arith, g.one_more (at_with c g.block), self)) in
            let f =
              mem_free-Freed after l r c g.block
                (subst (λ (ds : List Chunk). Valid after ds) at g.valid) in
            record {
              chunks = f.chunks;
              valid = f.valid;
              same_used = λ w. omega (arith, f.one_less w, g.one_more w, ap (weigh (held w)) at);
            }
      ]

-- What nt_mem_malloc() gives: exit() or NULL, by `allow_oom`, when no free chunk is big enough, or
-- the address behind the first size field of a new used chunk.
pub data Served (info : MemInfo) (cs : List Chunk) (size : ℕ) : Run (MemInfo × ℕ) → Type 0 where
  ends :
      info.allow_oom ≢ 1
      → weigh (fits (mem_proper_alloc_size size)) cs ≡ 0
      → Served info cs size exit_failure
  null :
      info.allow_oom ≡ 1
      → weigh (fits (mem_proper_alloc_size size)) cs ≡ 0
      → Served info cs size (ok (info, 0))
  serves :
      (after : MemInfo) (c : ℕ)
      → Given cs after c (mem_proper_alloc_size size)
      → Served info cs size (ok (after, c + 8))

-- nt_mem_malloc() of a request that the guards let pass, on a valid segment. When no free chunk is
-- big enough, it ends the process, or with `allow_oom` it returns NULL and leaves the segment as it
-- is. Else it returns the address in a new used chunk that is big enough, in a valid segment with
-- the other used chunks as they were.
pub nt_mem_malloc-Served :
    (info : MemInfo) (cs : List Chunk) (size : ℕ)
    → Valid info cs
    → 1 ≤ size
    → size ≤ mem_max_size
    → Served info cs size (nt_mem_malloc info 0 size)
unfolding nt_mem_malloc
nt_mem_malloc-Served info cs size v some_bytes le =
    let fine : ((size == 0) || ltb mem_max_size size) ≡ false = ground arith in
    rw fine (answered (mem_malloc info size) (mem_malloc-Answer info cs size v))
  where
    answered :
        (run : Run (MemInfo × ℕ))
        → Returns (Answer info cs size) run
        → Served info cs size (
            run >>= λ (after, chunk).
            if chunk == 0
            then if info.allow_oom == 1 then ok (after, 0) else exit_failure
            else ok (after, chunk + 8))
    answered run (returns {value = (after, c)} (inl (null_c, kept, none))) =
        elim (ℕ_discrete info.allow_oom 1) [
          | yes oom ↦
              let test : (c == 0) ≡ true = ground arith in
              let test_oom : (info.allow_oom == 1) ≡ true = ground arith in
              rw (test, test_oom)
                (subst (λ (m : MemInfo). Served info cs size (ok (m, 0))) (sym kept)
                  (null oom none))
          | no no_oom ↦
              let test : (c == 0) ≡ true = ground arith in
              let test_oom : (info.allow_oom == 1) ≡ false = ground arith in
              rw (test, test_oom) (ends no_oom none)
        ]
    answered run (returns {value = (after, c)} (inr (some_c, g))) =
        let test : (c == 0) ≡ false = ground arith in rw test (serves after c g)

-- nt_mem_free() of the address in a used chunk of a valid segment returns: the segment is valid
-- again, the other used chunks are as they were, and there is a free chunk as big as the chunk
-- with the free chunks beside it and the size fields in between.
pub nt_mem_free-Freed :
    (info : MemInfo) (l r : List Chunk) (a n : ℕ)
    → Valid info (l ++ chunk a n used ∷ r)
    → Returns
        (λ after. Freed (l ++ chunk a n used ∷ r) after a n (free_room info a n))
        (nt_mem_free info (a + 8))
unfolding nt_mem_free
nt_mem_free-Freed info l r a n v =
    let some_chunk : (a + 8 == 0) ≡ false = ground arith in
    rw some_chunk (returns (mem_free-Freed info l r a n v))
