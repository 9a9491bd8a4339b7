-- ===== src/Mem/Members.antt =====
-- The lists of the buckets and the states of the chunks: what a list says of the chunks, and the
-- weights after the state of one chunk has changed.
use mathlib.Core.Path.{subst}
use native.Mathlib.Decide.{ℕ_discrete}
use nt_shm.Common.{
  ℕ, ◌+◌, ◌≤◌, ◌<◌, ◌≡◌, ◌≢◌, sym, ap, ◌∙◌, List, [], ◌∷◌, ◌++◌, false, arith, ◌==◌, ==_self,
}
use nt_shm.Common.Weigh.{weigh, weigh-append, All}
use nt_shm.Mem.{Memory, mem_bucket_count, mem_bucket_by_size}
use nt_shm.Mem.Links.{OffLinks, Far, Spread, Far-off}
use nt_shm.Mem.Tiles.{
  State, free, loose, Chunk, chunk, Tags, Tiles, IsStart, is, count, All-of_count, starts-Far,
  Tiles-split, Tiles-join, Tiles-le, end_of,
}
use nt_shm.Mem.Heap.{listed, put_list}

abbrev pub bucket_of : ℕ → ℕ
bucket_of = mem_bucket_by_size

pub bucket_of-lt : (n : ℕ) → mem_bucket_by_size n < mem_bucket_count
unfolding mem_bucket_by_size
bucket_of-lt n = ground arith

pub list_at :
    (x : ℕ) (xs : List ℕ) → 1 ≤ count x xs → (ys : List ℕ) × (zs : List ℕ) × (xs ≡ ys ++ x ∷ zs)
list_at x [] there = absurd (omega arith)
list_at x (y ∷ xs) there = elim (ℕ_discrete y x) [
  | yes same ↦ ([], xs, ap (λ (k : ℕ). k ∷ xs) same)
  | no other ↦
      let (ys, zs, e) = list_at x xs (ground arith) in (y ∷ ys, zs, ap (λ (l : List ℕ). y ∷ l) e)
]

-- Chunks of one list have their link fields at different words.
pub Spread-of :
    (mem : Memory) (lo hi cell : ℕ) (cs : List Chunk) (xs : List ℕ)
    → Tiles mem lo hi cs
    → ((x : ℕ) → 1 ≤ count x xs → IsStart cs x)
    → ((x : ℕ) → count x xs ≤ 1)
    → OffLinks cell xs
    → Spread cell xs
Spread-of mem lo hi cell cs [] t own once off = tt
Spread-of mem lo hi cell cs (x ∷ xs) t own once off =
    let far : All (Far x) xs = All-of_count _ xs (λ y there.
      let ne : x ≢ y =
        (λ e. let two = once y in let there' : 1 ≤ count y xs = there in ground arith) in
      starts-Far mem hi lo x y cs t (own x (ground arith)) (own y (omega arith)) ne) in
    (
      off,
      far,
      Spread-of mem lo hi (x + 16) cs xs t (λ y there. own y (omega arith))
          (λ y. let two = once y in omega arith) (Far-off x xs far).1,
    )

module _ (lo hi : ℕ) (l r : List Chunk) (a n : ℕ) where
  -- The weight of the chunks around the one at a
  pub around :
      (w : Chunk → ℕ) (s : State)
      → weigh w (l ++ chunk a n s ∷ r) ≡ weigh w l + (w (chunk a n s) + weigh w r)
  around w s = weigh-append w l (chunk a n s ∷ r)

  pub retag :
      (mem : Memory) (s s' : State)
      → Tiles mem lo hi (l ++ chunk a n s ∷ r)
      → Tags mem a n s'
      → Tiles mem lo hi (l ++ chunk a n s' ∷ r)
  retag mem s s' t tags =
      let (front, back) = Tiles-split mem hi lo l (chunk a n s ∷ r) t in
      Tiles-join mem hi lo l (chunk a n s' ∷ r) front (back.0, back.1, back.2, tags, back.4)

  pub Tags-of : (mem : Memory) (s : State) → Tiles mem lo hi (l ++ chunk a n s ∷ r) → Tags mem a n s
  Tags-of mem s t = (Tiles-split mem hi lo l (chunk a n s ∷ r) t).1.3

  pub size-lt :
      (mem : Memory) (s : State) → Tiles mem lo hi (l ++ chunk a n s ∷ r) → a + 16 + n ≤ hi
  size-lt mem s t =
      let (front, back) = Tiles-split mem hi lo l (chunk a n s ∷ r) t in
      omega (arith, back.0, Tiles-le mem hi (end_of lo l + 16 + n) r back.4)

-- The change of one chunk's state changes the weights by that chunk only.
module _ (bs : ℕ → List ℕ) (l r : List Chunk) (a n : ℕ) where
  abbrev pub Members : State → (ℕ → List ℕ) → Type 0
  Members s lists =
      (j x : ℕ)
      → j < mem_bucket_count
      → count x (lists j) ≡ weigh (listed j x) (l ++ chunk a n s ∷ r)

  pub listed-other :
      (j x : ℕ)
      → j ≢ mem_bucket_by_size n
      → weigh (listed j x) (l ++ chunk a n free ∷ r) ≡ weigh (listed j x) (l ++ chunk a n loose ∷ r)
  listed-other j x off =
      let none_free : listed j x (chunk a n free) ≡ 0 = ground arith in
      let none_loose : listed j x (chunk a n loose) ≡ 0 = ground arith in
      omega (
        arith,
        weigh-append (listed j x) l (chunk a n free ∷ r),
        weigh-append (listed j x) l (chunk a n loose ∷ r),
        none_free,
        none_loose,
      )

  pub listed-own :
      (x : ℕ)
      → weigh (listed (mem_bucket_by_size n) x) (l ++ chunk a n free ∷ r)
        ≡ weigh (listed (mem_bucket_by_size n) x) (l ++ chunk a n loose ∷ r) + is x a
  listed-own x =
      let w = listed (mem_bucket_by_size n) x in
      let one_free : w (chunk a n free) ≡ is x a = ground arith in
      let none_loose : w (chunk a n loose) ≡ 0 = ground arith in
      omega (
        arith,
        weigh-append w l (chunk a n free ∷ r),
        weigh-append w l (chunk a n loose ∷ r),
        one_free,
        none_loose,
      )

  pub unlisted :
      (ys zs : List ℕ)
      → bs (mem_bucket_by_size n) ≡ ys ++ a ∷ zs
      → Members free bs
      → Members loose (put_list bs (mem_bucket_by_size n) (ys ++ zs))
  unlisted ys zs e old j x lt = elim (ℕ_discrete j (mem_bucket_by_size n)) [
    | yes same ↦
        let i = mem_bucket_by_size n in
        subst
          (λ (k : ℕ).
            count x (put_list bs i (ys ++ zs) k) ≡ weigh (listed k x) (l ++ chunk a n loose ∷ r))
          (sym same)
          (rw (==_self i) (
            omega (
              arith,
              old i x (bucket_of-lt n),
              listed-own x,
              ap (count x) e,
              weigh-append (is x) ys zs,
              weigh-append (is x) ys (a ∷ zs),
            )))
    | no off ↦
        let test : (j == mem_bucket_by_size n) ≡ false = ground arith in
        rw test (old j x lt ∙ listed-other j x off)
  ]

  pub relisted :
      Members loose bs
      → Members free (put_list bs (mem_bucket_by_size n) (a ∷ bs (mem_bucket_by_size n)))
  relisted old j x lt = elim (ℕ_discrete j (mem_bucket_by_size n)) [
    | yes same ↦
        let i = mem_bucket_by_size n in
        subst
          (λ (k : ℕ).
            count x (put_list bs i (a ∷ bs i) k) ≡ weigh (listed k x) (l ++ chunk a n free ∷ r))
          (sym same) (rw (==_self i) (omega (arith, old i x (bucket_of-lt n), listed-own x)))
    | no off ↦
        let test : (j == mem_bucket_by_size n) ≡ false = ground arith in
        rw test (old j x lt ∙ sym (listed-other j x off))
  ]
