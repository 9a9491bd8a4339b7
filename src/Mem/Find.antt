-- ===== src/Mem/Find.antt =====
-- The result of the search in __mem_malloc() under the invariant.
use mathlib.Core.Path.{subst}
use native.Mathlib.Decide.{ℕ_discrete}
use nt_shm.Common.{
  ℕ, ◌+◌, ◌-◌, ◌%◌, ◌≤◌, ◌<◌, ◌≡◌, ◌≢◌, refl, ap, List, [], ◌∷◌, ◌++◌, arith, leb, if◌then◌else◌,
  length,
}
use nt_shm.Common.Weigh.{weigh, weigh-append, All}
use nt_shm.Mem.{Memory, mem_bucket_count, mem_bucket_by_size, chunk_size}
use nt_shm.Mem.Links.{Linked}
use nt_shm.Mem.Tiles.{used, free, loose, State, Chunk, chunk, Tiles, count}
use nt_shm.Mem.Heap.{Heap, is_free, listed, listed-starts}
use nt_shm.Mem.Members.{bucket_of-lt, Tags-of, size-lt}
use nt_shm.Mem.Search.{length-starts, length-Tiles}

-- 1 for a free chunk of at least the size, else 0
abbrev pub fits : ℕ → Chunk → ℕ
fits size c = if leb size c.size then is_free c.state else 0

-- The chunk at x is free and has the size n.
pub record FreeAt (cs : List Chunk) (x n : ℕ) : Type 0 where
  pub l : List Chunk
  pub r : List Chunk
  pub here : cs ≡ l ++ chunk x n free ∷ r

free_first : (a n : ℕ) (s : State) (cs : List Chunk) → 1 ≤ is_free s → FreeAt (chunk a n s ∷ cs) a n
free_first a n used cs f = absurd (omega arith)
free_first a n free cs f = record { l = []; r = cs; here = refl }
free_first a n loose cs f = absurd (omega arith)

free_later : (c : Chunk) (cs : List Chunk) (x n : ℕ) → FreeAt cs x n → FreeAt (c ∷ cs) x n
free_later c cs x n f = record {
  l = c ∷ f.l;
  r = f.r;
  here = ap (λ (ds : List Chunk). c ∷ ds) f.here;
}

pub listed_at :
    (j x : ℕ) (cs : List Chunk)
    → 1 ≤ weigh (listed j x) cs
    → (n : ℕ) × FreeAt cs x n × (mem_bucket_by_size n ≡ j)
listed_at j x [] h = absurd (omega arith)
listed_at j x (c ∷ cs) h = elim (ℕ_discrete (listed j x c) 0) [
  | yes not_this ↦ let (n, f, b) = listed_at j x cs (omega arith) in (n, free_later c cs x n f, b)
  | no this ↦
      let at_x : c.addr ≡ x = ground arith in
      let in_j : mem_bucket_by_size c.size ≡ j = ground arith in
      let is_it : 1 ≤ is_free c.state = ground arith in
      (
        c.size,
        subst (λ (y : ℕ). FreeAt (c ∷ cs) y c.size) at_x
            (free_first c.addr c.size c.state cs is_it),
        in_j,
      )
]

pub fit_at :
    (size : ℕ) (cs : List Chunk)
    → 1 ≤ weigh (fits size) cs
    → (x : ℕ) × (n : ℕ) × FreeAt cs x n × (size ≤ n)
fit_at size [] h = absurd (omega arith)
fit_at size (c ∷ cs) h = elim (ℕ_discrete (fits size c) 0) [
  | yes not_this ↦
      let (x, n, f, b) = fit_at size cs (omega arith) in (x, n, free_later c cs x n f, b)
  | no this ↦
      let is_it : 1 ≤ is_free c.state = ground arith in
      (c.addr, c.size, free_first c.addr c.size c.state cs is_it, ground arith)
]

pub All-count : (P : ℕ → Type 0) (x : ℕ) (xs : List ℕ) → All P xs → 1 ≤ count x xs → P x
All-count P x [] all there = absurd (omega arith)
All-count P x (y ∷ xs) all there = elim (ℕ_discrete y x) [
  | yes same ↦ subst P same all.0
  | no other ↦ All-count P x xs all.1 (ground arith)
]

-- The list of an empty bucket
pub head-empty :
    (mem : Memory) (cell x : ℕ) (xs : List ℕ) → Linked mem cell 0 xs → mem cell ≡ 0 → count x xs ≡ 0
head-empty mem cell x [] l null = refl
head-empty mem cell x (y ∷ xs) (e, pos, back, l) null = absurd (omega arith)

-- The chunk at the head of a bucket
pub head-full :
    (mem : Memory) (cell : ℕ) (xs : List ℕ)
    → Linked mem cell 0 xs
    → mem cell ≢ 0
    → (0 < mem cell) × (1 ≤ count (mem cell) xs)
head-full mem cell [] l full = absurd (full l)
head-full mem cell (y ∷ xs) (e, pos, back, l) full = rw e (pos, ground arith)

pub bucket_mono : (m n : ℕ) → m ≤ n → mem_bucket_by_size m ≤ mem_bucket_by_size n
unfolding mem_bucket_by_size
bucket_mono m n le = ground arith

-- In a bucket before the last one all sizes are the same.
pub bucket-exact :
    (m n : ℕ)
    → mem_bucket_by_size m ≤ mem_bucket_by_size n
    → mem_bucket_by_size n < 29
    → 24 ≤ m
    → 24 ≤ n
    → m % 8 ≡ 0
    → n % 8 ≡ 0
    → m ≤ n
unfolding mem_bucket_by_size
bucket-exact m n le early big_m big_n whole_m whole_n = ground arith

module _ (mem : Memory) (buckets lo hi : ℕ) (cs : List Chunk) (bs : ℕ → List ℕ)
    (v : Heap mem buckets lo hi cs bs) where
  -- A free chunk has its size in its first size field, at least 24 and a multiple of 8.
  pub free_size_of : (x n : ℕ) → FreeAt cs x n → (chunk_size mem x ≡ n) × (24 ≤ n) × (n % 8 ≡ 0)
  free_size_of x n f =
      let t = subst (λ (ds : List Chunk). Tiles mem lo hi ds) f.here v.tiles in
      let tag = (Tags-of lo hi f.l f.r x n mem free t).0 in
      let below = size-lt lo hi f.l f.r x n mem free t in
      let (big, whole) = shape f.l x n f.r lo t in (omega (arith, v.top), big, whole)
    where
      shape :
          (l : List Chunk) (x n : ℕ) (r : List Chunk) (b : ℕ)
          → Tiles mem b hi (l ++ chunk x n free ∷ r)
          → (24 ≤ n) × (n % 8 ≡ 0)
      shape [] x n r b t = (t.1, t.2)
      shape (c ∷ l) x n r b t = shape l x n r (b + 16 + c.size) t.4

  pub member_at :
      (j x : ℕ)
      → j < mem_bucket_count
      → 1 ≤ count x (bs j)
      → (n : ℕ) × FreeAt cs x n × (mem_bucket_by_size n ≡ j)
  member_at j x lt there = listed_at j x cs (omega (arith, v.members j x lt))

  pub free_member : (x n : ℕ) → FreeAt cs x n → 1 ≤ count x (bs (mem_bucket_by_size n))
  free_member x n f =
      let j = mem_bucket_by_size n in
      let one : listed j x (chunk x n free) ≡ 1 = ground arith in
      omega (
        arith,
        v.members j x (bucket_of-lt n),
        ap (weigh (listed j x)) f.here,
        weigh-append (listed j x) f.l (chunk x n free ∷ f.r),
        one,
      )

  pub length-lt : (j : ℕ) → j < mem_bucket_count → length (bs j) < hi - lo + 1
  length-lt j lt = omega (
    arith,
    length-starts cs (bs j) (λ x. omega (arith, v.members j x lt, listed-starts j x cs)),
    length-Tiles mem lo hi cs v.tiles,
  )
