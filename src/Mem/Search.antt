-- ===== src/Mem/Search.antt =====
-- The search for a chunk in __mem_malloc(): the walk over the buckets and first fit.
use mathlib.Core.Path.{subst}
use native.Mathlib.Decide.{ℕ_discrete}
use nt_shm.Common.{
  ℕ, zero, suc, ◌+◌, ◌-◌, ◌≤◌, ◌<◌, ◌≡◌, ◌≢◌, ◌⊎◌, inl, inr, refl, sym, ap, List, [], ◌∷◌, ◌++◌,
  true, false, arith, ltb, ◌==◌, length,
}
use nt_shm.Common.Run.{Returns, returns, Returns-map, Returns-if}
use nt_shm.Common.Weigh.{weigh, weigh-append, All}
use nt_shm.Mem.{Memory, mem_bucket_count, bucket_cell, chunk_size, find_bucket, first_fit}
use nt_shm.Mem.Links.{Linked}
use nt_shm.Mem.Tiles.{Chunk, Tiles, starts, is, count}
use nt_shm.Mem.Members.{list_at}

module _ (mem : Memory) (buckets : ℕ) where
  abbrev pub head_of : ℕ → ℕ
  head_of j = mem (bucket_cell buckets j)

  -- The first bucket from `index` on that is not empty, or the last bucket
  abbrev pub FirstFull : ℕ → ℕ → Type 0
  FirstFull index j =
      (index ≤ j)
      × (j < mem_bucket_count)
      × (j < 29 → head_of j ≢ 0)
      × ((k : ℕ) → index ≤ k → k < j → head_of k ≡ 0)

  pub find_bucket-FirstFull :
      (rounds index : ℕ)
      → index < mem_bucket_count
      → 29 ≤ rounds + index
      → FirstFull index (find_bucket mem buckets rounds index)
  unfolding find_bucket
  find_bucket-FirstFull zero index lt enough =
      (omega arith, lt, (λ early. absurd (omega arith)), (λ k lo hi. absurd (omega arith)))
  find_bucket-FirstFull (suc rounds) index lt enough = elim (ℕ_discrete index 29) [
    | yes last ↦
        let stop : ltb index (mem_bucket_count - 1) ≡ false = ground arith in
        rw stop
          (omega arith, lt, (λ early. absurd (omega arith)), (λ k lo hi. absurd (omega arith)))
    | no early ↦ elim (ℕ_discrete (head_of index) 0) [
      | yes empty ↦
          let more : ltb index (mem_bucket_count - 1) ≡ true = ground arith in
          let null : (head_of index == 0) ≡ true = ground arith in
          let (lo, hi, full, before) =
            find_bucket-FirstFull rounds (index + 1) (omega arith) (omega arith) in
          rw (more, null)
            (
              omega arith,
              hi,
              full,
              (λ k from to. elim (ℕ_discrete k index) [
                | yes same ↦ subst (λ (j : ℕ). head_of j ≡ 0) (sym same) empty
                | no later ↦ before k (omega arith) to
              ]),
            )
      | no full ↦
          let more : ltb index (mem_bucket_count - 1) ≡ true = ground arith in
          let some_chunk : (head_of index == 0) ≡ false = ground arith in
          rw (more, some_chunk)
            (omega arith, lt, (λ below. full), (λ k from to. absurd (omega arith)))
    ]
  ]

-- The chunk that first fit finds, or NULL and no chunk is big enough
abbrev pub Found : Memory → ℕ → List ℕ → ℕ → Type 0
Found mem size xs c =
    ((c ≡ 0) × All (λ x. chunk_size mem x < size) xs)
    ⊎ ((0 < c) × (1 ≤ count c xs) × (size ≤ chunk_size mem c))

pub first_fit-Found :
    (mem : Memory) (cell prev size fuel : ℕ) (xs : List ℕ)
    → Linked mem cell prev xs
    → length xs < fuel
    → Returns (Found mem size xs) (first_fit fuel mem (mem cell) size)
unfolding first_fit
first_fit-Found mem cell prev size zero xs l enough = absurd (omega arith)
first_fit-Found mem cell prev size (suc fuel) [] l enough = rw l (returns (inl (refl, tt)))
first_fit-Found mem cell prev size (suc fuel) (x ∷ xs) (e, pos, back, l) enough =
    let some_chunk : (x == 0) ≡ false = ground arith in
    rw (e, some_chunk)
      (Returns-if (ltb (chunk_size mem x) size)
        (λ small.
          Returns-map (first_fit-Found mem (x + 16) x size fuel xs l (omega arith)) (λ c found.
            elim found [
              | inl (null, rest) ↦ inl (null, (ground arith, rest))
              | inr (some_c, there, fits) ↦ inr (some_c, omega arith, fits)
            ]))
        (λ big. returns (inr (pos, ground arith, ground arith))))

-- A list of starts of chunks, each at most once, is no longer than the list of the chunks.
pub length-starts :
    (cs : List Chunk) (xs : List ℕ)
    → ((x : ℕ) → count x xs ≤ weigh (starts x) cs)
    → length xs ≤ length cs
length-starts [] [] own = omega arith
length-starts [] (x ∷ xs) own = let here = own x in absurd (ground arith)
length-starts (c ∷ cs) xs own = elim (ℕ_discrete (count c.addr xs) 0) [
  | yes gone ↦
      let rest = length-starts cs xs (λ x.
        let here = own x in
        elim (ℕ_discrete c.addr x) [
          | yes same ↦ omega (arith, subst (λ (k : ℕ). count k xs ≡ 0) same gone)
          | no other ↦ ground arith
        ]) in
      omega arith
  | no there ↦
      let (ys, zs, e) = list_at c.addr xs (omega arith) in
      let rest = length-starts cs (ys ++ zs) (λ x. omega (
        arith,
        own x,
        ap (count x) e,
        weigh-append (is x) ys zs,
        weigh-append (is x) ys (c.addr ∷ zs),
      )) in
      omega (arith, ap length e, length-drop c.addr ys zs)
]
  where
    length-drop : (d : ℕ) (ys zs : List ℕ) → length (ys ++ d ∷ zs) ≡ suc (length (ys ++ zs))
    length-drop d [] zs = refl
    length-drop d (y ∷ ys) zs = ap suc (length-drop d ys zs)

pub length-Tiles :
    (mem : Memory) (a hi : ℕ) (cs : List Chunk) → Tiles mem a hi cs → a + length cs ≤ hi
length-Tiles mem a hi [] t = omega arith
length-Tiles mem a hi (c ∷ cs) (e, big, whole, tags, t) =
    omega (arith, length-Tiles mem (a + 16 + c.size) hi cs t)
