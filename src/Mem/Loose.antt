-- ===== src/Mem/Loose.antt =====
-- A loose chunk is written to, cut in two, merged with the next one, and claimed.
use mathlib.Core.Path.{subst}
use native.Mathlib.Decide.{ℕ_discrete}
use nt_shm.Common.{ℕ, ◌+◌, ◌%◌, ◌≤◌, ◌<◌, ◌≡◌, ◌≢◌, ◌⊎◌, inl, inr, refl, ap, List, ◌∷◌, ◌++◌, arith}
use nt_shm.Common.Weigh.{weigh, weigh-append}
use nt_shm.Mem.{Memory, bucket_cell}
use nt_shm.Mem.Links.{Same, Linked-Same}
use nt_shm.Mem.Tiles.{
  State, loose, Chunk, chunk, Tags, Tiles, starts, IsStart, count, All-of_count, start-in,
  tag_words, Tiles-Same, Tiles-split, Tiles-join, Tiles-le, end_of,
}
use nt_shm.Mem.Heap.{Heap, is_free, listed, member-IsStart}
use nt_shm.Mem.Members.{retag}
use nt_shm.Mem.Moves.{loose-unlisted}

-- A chunk that is not free has no weight in a list.
bare : (i x a n : ℕ) (s : State) → is_free s ≡ 0 → listed i x (chunk a n s) ≡ 0
bare i x a n s e = ground arith

module _ (mem : Memory) (buckets lo hi : ℕ) (l r : List Chunk) (a n : ℕ) (bs : ℕ → List ℕ) where
  -- The state of a chunk that is not free may change to one that its size fields fit.
  pub reclaim :
      (s s' : State)
      → is_free s ≡ 0
      → is_free s' ≡ 0
      → Heap mem buckets lo hi (l ++ chunk a n s ∷ r) bs
      → Tags mem a n s'
      → Heap mem buckets lo hi (l ++ chunk a n s' ∷ r) bs
  reclaim s s' e e' v tags = record {
    room = v.room;
    top = v.top;
    tiles = retag lo hi l r a n mem s s' v.tiles tags;
    lists = v.lists;
    members = λ j x lt. omega (
      arith,
      v.members j x lt,
      weigh-append (listed j x) l (chunk a n s ∷ r),
      weigh-append (listed j x) l (chunk a n s' ∷ r),
      bare j x a n s e,
      bare j x a n s' e',
    );
  }

  -- A start other than a lies wholly before the chunk, or behind it.
  beside :
      (x : ℕ)
      → Tiles mem lo hi (l ++ chunk a n loose ∷ r)
      → IsStart (l ++ chunk a n loose ∷ r) x
      → a ≢ x
      → (x + 40 ≤ a) ⊎ (a + 16 + n ≤ x)
  beside x t here ne =
      let (front, back) = Tiles-split mem hi lo l (chunk a n loose ∷ r) t in
      let not_this : starts x (chunk a n loose) ≡ 0 = ground arith in
      let two = weigh-append (starts x) l (chunk a n loose ∷ r) in
      elim (ℕ_discrete (weigh (starts x) l) 0) [
        | yes none_left ↦
            let (behind, _) = start-in mem hi (end_of lo l + 16 + n) x r back.4 (omega arith) in
            inr (omega (arith, back.0))
        | no some_left ↦
            let (_, before) = start-in mem (end_of lo l) lo x l front (omega arith) in
            inl (omega (arith, back.0))
      ]

  outside_tags :
      (cs : List Chunk) (b c : ℕ)
      → Tiles mem b c cs
      → (c ≤ a) ⊎ (a + 16 + n ≤ b)
      → (after : Memory) → ((p : ℕ) → (p < a) ⊎ (a + 16 + n ≤ p) → Same mem after p)
      → Tiles after b c cs
  outside_tags cs b c t side after keep =
      Tiles-Same mem after b c cs
        (tag_words mem c b cs (λ p. Same mem after p) t
          (λ p lo_p below clear. elim side [
            | inl before ↦ keep p (inl (omega arith))
            | inr behind ↦ keep p (inr (omega arith))
          ]))
        t

  -- Stores inside a loose chunk
  pub scribble :
      (after : Memory)
      → Heap mem buckets lo hi (l ++ chunk a n loose ∷ r) bs
      → ((p : ℕ) → (p < a) ⊎ (a + 16 + n ≤ p) → Same mem after p)
      → Heap after buckets lo hi (l ++ chunk a n loose ∷ r) bs
  scribble after v keep =
      let cs = l ++ chunk a n loose ∷ r in
      let (front, back) = Tiles-split mem hi lo l (chunk a n loose ∷ r) v.tiles in
      let inside : lo ≤ a = omega (arith, back.0, Tiles-le mem (end_of lo l) lo l front) in
      record {
        room = v.room;
        top = v.top;
        tiles =
            Tiles-join after hi lo l (chunk a n loose ∷ r)
              (outside_tags l lo (end_of lo l) front (inl (omega (arith, back.0))) after keep)
              (
                back.0,
                back.1,
                back.2,
                tt,
                outside_tags r (end_of lo l + 16 + n) hi back.4 (inr (omega (arith, back.0))) after
                    keep,
              );
        lists = λ j lt.
            Linked-Same mem after (bucket_cell buckets j) 0 (bs j)
              (keep (bucket_cell buckets j) (inl (omega (arith, v.room))))
              (All-of_count _ (bs j) (λ y there.
                let ne : a ≢ y = (λ e. omega (
                  arith,
                  ap (λ (k : ℕ). count k (bs j)) e,
                  loose-unlisted mem buckets lo hi l r a n bs j v lt,
                )) in
                elim (beside y v.tiles (member-IsStart mem buckets lo hi cs bs v j y lt there) ne) [
                  | inl before ↦
                      (keep (y + 8) (inl (omega arith)), keep (y + 16) (inl (omega arith)))
                  | inr behind ↦
                      (keep (y + 8) (inr (omega arith)), keep (y + 16) (inr (omega arith)))
                ]))
              (v.lists j lt);
        members = v.members;
      }

  -- One loose chunk is two.
  pub cut :
      (m k : ℕ)
      → m + 16 + k ≡ n
      → 24 ≤ m
      → 24 ≤ k
      → m % 8 ≡ 0
      → Heap mem buckets lo hi (l ++ chunk a n loose ∷ r) bs
      → Heap mem buckets lo hi (l ++ chunk a m loose ∷ chunk (a + 16 + m) k loose ∷ r) bs
  cut m k sum big_m big_k whole v =
      let (front, back) = Tiles-split mem hi lo l (chunk a n loose ∷ r) v.tiles in
      let rest : Tiles mem (end_of lo l + 16 + m + 16 + k) hi r =
        subst (λ (b : ℕ). Tiles mem b hi r) (omega arith) back.4 in
      record {
        room = v.room;
        top = v.top;
        tiles = Tiles-join mem hi lo l (chunk a m loose ∷ chunk (a + 16 + m) k loose ∷ r) front (
          back.0,
          big_m,
          whole,
          tt,
          (omega (arith, back.0), big_k, omega (arith, back.2), tt, rest),
        );
        lists = v.lists;
        members = λ j x lt. omega (
          arith,
          v.members j x lt,
          weigh-append (listed j x) l (chunk a n loose ∷ r),
          weigh-append (listed j x) l (chunk a m loose ∷ chunk (a + 16 + m) k loose ∷ r),
          bare j x a n loose refl,
          bare j x a m loose refl,
          bare j x (a + 16 + m) k loose refl,
        );
      }

  -- Two loose chunks are one.
  pub merge :
      (b k : ℕ)
      → Heap mem buckets lo hi (l ++ chunk a n loose ∷ chunk b k loose ∷ r) bs
      → Heap mem buckets lo hi (l ++ chunk a (n + 16 + k) loose ∷ r) bs
  merge b k v =
      let (front, back) = Tiles-split mem hi lo l (chunk a n loose ∷ chunk b k loose ∷ r) v.tiles in
      let (next, big, whole, _, t) = back.4 in
      let rest : Tiles mem (end_of lo l + 16 + (n + 16 + k)) hi r =
        subst (λ (c : ℕ). Tiles mem c hi r) (omega arith) t in
      record {
        room = v.room;
        top = v.top;
        tiles =
            Tiles-join mem hi lo l (chunk a (n + 16 + k) loose ∷ r) front
              (back.0, omega (arith, back.1), omega (arith, back.2), tt, rest);
        lists = v.lists;
        members = λ j x lt. omega (
          arith,
          v.members j x lt,
          weigh-append (listed j x) l (chunk a n loose ∷ chunk b k loose ∷ r),
          weigh-append (listed j x) l (chunk a (n + 16 + k) loose ∷ r),
          bare j x a n loose refl,
          bare j x b k loose refl,
          bare j x a (n + 16 + k) loose refl,
        );
      }
