-- ===== src/Mem/Frame.antt =====
-- What the allocator leaves alone: the words inside the chunks that are not free. A word is traced
-- by the weight of the chunk around it.
use mathlib.Core.Path.{subst}
use native.Mathlib.Decide.{ℕ_discrete}
use nt_shm.Common.{
  ℕ, ◌+◌, ◌%◌, ◌≤◌, ◌<◌, ◌≡◌, ◌≢◌, ◌⊎◌, inl, inr, sym, ap, ◌∙◌, List, [], ◌∷◌, ◌++◌, arith, leb,
  ltb, ◌&&◌, if◌then◌else◌,
}
use nt_shm.Common.Weigh.{weigh, weigh-append}
use nt_shm.Mem.{
  Memory, mem_bucket_count, mem_bucket_by_size, bucket_cell, mem_link_chunk, mem_unlink_chunk,
  mem_set_chunk_size, mem_set_used_chunk_size,
}
use nt_shm.Mem.Links.{OffLinks, Same}
use nt_shm.Mem.Tiles.{
  State, used, free, loose, Chunk, chunk, Tiles, All-of_count, Tiles-le, Tiles-split, end_of,
}
use nt_shm.Mem.Heap.{Heap}
use nt_shm.Mem.Members.{bucket_of-lt}
use nt_shm.Mem.Moves.{SomeHeap, unlink-list, link-list, free-listed}
use nt_shm.Mem.Loose.{scribble, cut}
use nt_shm.Mem.Find.{listed_at}
use nt_shm.Mem.Claim.{free-Tags, free-Same, publish, ++_assoc}

-- 1 for a word inside the chunk, else 0
abbrev pub covers : ℕ → ℕ → ℕ → ℕ
covers p a n = if leb (a + 8) p && ltb p (a + 8 + n) then 1 else 0

abbrev solid_in : ℕ → ℕ → ℕ → State → ℕ
solid_in p a n used = covers p a n
solid_in p a n free = 0
solid_in p a n loose = covers p a n

-- The same for a chunk that is not free
abbrev pub solid : ℕ → Chunk → ℕ
solid p c = solid_in p c.addr c.size c.state

abbrev pub Covered : ℕ → List Chunk → Type 0
Covered p cs = 1 ≤ weigh (solid p) cs

solid-inside : (p a n : ℕ) (s : State) → 1 ≤ solid_in p a n s → (a + 8 ≤ p) × (p < a + 8 + n)
solid-inside p a n used h = (ground arith, ground arith)
solid-inside p a n free h = absurd (omega arith)
solid-inside p a n loose h = (ground arith, ground arith)

Covered-range :
    (mem : Memory) (hi b p : ℕ) (cs : List Chunk)
    → Tiles mem b hi cs
    → Covered p cs
    → (b + 8 ≤ p) × (p + 8 < hi)
Covered-range mem hi b p [] t h = absurd (omega arith)
Covered-range mem hi b p (c ∷ cs) (e, big, whole, tags, t) h = elim (ℕ_discrete (solid p c) 0) [
  | yes later ↦
      let (lo, up) = Covered-range mem hi (b + 16 + c.size) p cs t (omega arith) in
      (omega arith, up)
  | no here ↦
      let (lo, up) = solid-inside p c.addr c.size c.state (omega arith) in
      (omega arith, omega (arith, Tiles-le mem hi (b + 16 + c.size) cs t))
]

module _ (mem : Memory) (lo hi : ℕ) (l r : List Chunk) (a n p : ℕ) where
  -- A word inside another chunk lies before this one or behind it.
  pub outside :
      (s : State)
      → Tiles mem lo hi (l ++ chunk a n s ∷ r)
      → 1 ≤ weigh (solid p) l + weigh (solid p) r
      → (p < a) ⊎ (a + 16 + n ≤ p)
  outside s t h =
      let (front, back) = Tiles-split mem hi lo l (chunk a n s ∷ r) t in
      elim (ℕ_discrete (weigh (solid p) l) 0) [
        | yes behind ↦
            let (from, to) = Covered-range mem hi (end_of lo l + 16 + n) p r back.4 (omega arith) in
            inr (omega (arith, back.0))
        | no before ↦
            let (from, to) = Covered-range mem (end_of lo l) lo p l front (omega arith) in
            inl (omega (arith, back.0))
      ]

  -- A word inside a chunk is no size field.
  pub Covered-tag :
      Tiles mem lo hi (l ++ chunk a n loose ∷ r)
      → Covered p (l ++ chunk a n loose ∷ r)
      → (p ≢ a) × (p ≢ a + 8 + n)
  Covered-tag t h = elim (ℕ_discrete (solid p (chunk a n loose)) 0) [
    | yes other ↦
        elim (outside loose t (omega (arith, weigh-append (solid p) l (chunk a n loose ∷ r)))) [
          | inl before ↦ ((λ e. omega arith), (λ e. omega arith))
          | inr behind ↦ ((λ e. omega arith), (λ e. omega arith))
        ]
    | no here ↦
        let (from, to) = solid-inside p a n loose (omega arith) in
        ((λ e. omega arith), (λ e. omega arith))
  ]

module _ (mem : Memory) (buckets lo hi p : ℕ) (cs : List Chunk) (bs : ℕ → List ℕ)
    (v : Heap mem buckets lo hi cs bs) (h : Covered p cs) where
  pub Covered-cell : (i : ℕ) → i < mem_bucket_count → p ≢ bucket_cell buckets i
  Covered-cell i lt e =
      let (from, to) = Covered-range mem hi lo p cs v.tiles h in omega (arith, v.room)

  -- The link fields of the free chunks are other words.
  pub Covered-off : (j : ℕ) → j < mem_bucket_count → OffLinks p (bs j)
  Covered-off j lt = All-of_count _ (bs j) (λ x there.
      let (n, f, _) = listed_at j x cs (omega (arith, v.members j x lt)) in
      let t : Tiles mem lo hi (f.l ++ chunk x n free ∷ f.r) =
        subst (λ (ds : List Chunk). Tiles mem lo hi ds) f.here v.tiles in
      let big = (Tiles-split mem hi lo f.l (chunk x n free ∷ f.r) t).1.1 in
      let away = outside mem lo hi f.l f.r x n p free t (
        omega (
          arith,
          h,
          ap (weigh (solid p)) f.here,
          weigh-append (solid p) f.l (chunk x n free ∷ f.r),
        )) in
      elim away [
        | inl before ↦ ((λ e. omega arith), (λ e. omega arith))
        | inr behind ↦ ((λ e. omega arith), (λ e. omega arith))
      ])

module _ (mem : Memory) (buckets lo hi : ℕ) (l r : List Chunk) (a n p : ℕ) where
  pub unlink-keeps :
      SomeHeap mem buckets lo hi (l ++ chunk a n free ∷ r)
      → Covered p (l ++ chunk a n free ∷ r)
      → Same mem (mem_unlink_chunk mem buckets a) p
  unlink-keeps (bs, v) h =
      let i = mem_bucket_by_size n in
      let cs = l ++ chunk a n free ∷ r in
      let (ys, zs, e) = free-listed mem buckets lo hi l r a n bs v in
      (unlink-list mem buckets lo hi l r a n bs ys zs v e).same p
        (Covered-cell mem buckets lo hi p cs bs v h i (bucket_of-lt n))
        (subst (OffLinks p) e (Covered-off mem buckets lo hi p cs bs v h i (bucket_of-lt n)))

  -- A word inside another chunk, when the chunk becomes a free one
  pub publish-keeps :
      SomeHeap mem buckets lo hi (l ++ chunk a n loose ∷ r)
      → 1 ≤ weigh (solid p) l + weigh (solid p) r
      → Same mem (mem_link_chunk (mem_set_chunk_size mem a n) buckets a) p
  publish-keeps (bs, v) h =
      let i = mem_bucket_by_size n in
      let cs = l ++ chunk a n loose ∷ r in
      let after = mem_set_chunk_size mem a n in
      let kept = scribble mem buckets lo hi l r a n bs after v (free-Same mem a n) in
      let away = outside mem lo hi l r a n p loose v.tiles h in
      let big = (Tiles-split mem hi lo l (chunk a n loose ∷ r) v.tiles).1.1 in
      let there : Covered p cs = omega (arith, weigh-append (solid p) l (chunk a n loose ∷ r)) in
      let own : (p ≢ a + 8) × (p ≢ a + 16) = elim away [
        | inl before ↦ ((λ e. omega arith), (λ e. omega arith))
        | inr behind ↦ ((λ e. omega arith), (λ e. omega arith))
      ] in
      (link-list after buckets lo hi l r a n bs kept (free-Tags mem a n).0).same p
        (Covered-cell after buckets lo hi p cs bs kept there i (bucket_of-lt n))
        (own, Covered-off after buckets lo hi p cs bs kept there i (bucket_of-lt n))
      ∙ free-Same mem a n p away

  pub claim-keeps :
      SomeHeap mem buckets lo hi (l ++ chunk a n loose ∷ r)
      → Covered p (l ++ chunk a n loose ∷ r)
      → Same mem (mem_set_used_chunk_size mem a n) p
  unfolding mem_set_used_chunk_size
  claim-keeps (bs, v) h =
      let (ne, ne_end) = Covered-tag mem lo hi l r a n p v.tiles h in ground arith

module _ (mem : Memory) (buckets lo hi : ℕ) (l r : List Chunk) (a n p : ℕ) where
  -- A word outside the rest, when a loose chunk is given out but for its rest
  pub claim_front-keeps :
      (m k : ℕ)
      → m + 16 + k ≡ n
      → 24 ≤ m
      → 24 ≤ k
      → m % 8 ≡ 0
      → SomeHeap mem buckets lo hi (l ++ chunk a n loose ∷ r)
      → 1 ≤ weigh (solid p) l + (covers p a m + weigh (solid p) r)
      → Same mem
          (mem_set_used_chunk_size
            (mem_link_chunk (mem_set_chunk_size mem (a + 16 + m) k) buckets (a + 16 + m))
            a
            m)
          p
  claim_front-keeps m k sum big_m big_k whole (bs, v) h =
      let b = a + 16 + m in
      let front = chunk a m loose in
      let before = l ++ front ∷ [] in
      let parts = cut mem buckets lo hi l r a n bs m k sum big_m big_k whole v in
      let heap : SomeHeap mem buckets lo hi (before ++ chunk b k loose ∷ r) = (
        bs,
        subst (λ (ds : List Chunk). Heap mem buckets lo hi ds bs)
            (sym (++_assoc l (front ∷ []) (chunk b k loose ∷ r))) parts,
      ) in
      let linked = mem_link_chunk (mem_set_chunk_size mem b k) buckets b in
      let right : SomeHeap linked buckets lo hi (l ++ front ∷ chunk b k free ∷ r) =
        subst (λ (ds : List Chunk). SomeHeap linked buckets lo hi ds)
          (++_assoc l (front ∷ []) (chunk b k free ∷ r))
          (publish mem buckets lo hi before r b k heap) in
      claim-keeps linked buckets lo hi l (chunk b k free ∷ r) a m p right
        (omega (arith, h, weigh-append (solid p) l (front ∷ chunk b k free ∷ r)))
      ∙ publish-keeps mem buckets lo hi before r b k p heap
          (omega (arith, h, weigh-append (solid p) l (front ∷ [])))
