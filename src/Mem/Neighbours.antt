-- ===== src/Mem/Neighbours.antt =====
-- The chunks beside a chunk that is freed: the tests of __mem_free(), and the merges.
use mathlib.Core.Path.{subst}
use nt_shm.Common.{
  ℕ, ◌+◌, ◌-◌, ◌≤◌, ◌<◌, ◌≡◌, ◌⊎◌, inl, inr, refl, sym, ap, List, [], ◌∷◌, ◌++◌, true, false, arith,
  ltb, ◌&&◌,
}
use nt_shm.Common.Weigh.{weigh, weigh-append}
use nt_shm.Mem.{Memory, mem_flg_used, chunk_size, free_chunk, mem_unlink_chunk}
use nt_shm.Mem.Tiles.{State, used, free, loose, Chunk, chunk, Tags, Tiles, Tiles-le}
use nt_shm.Mem.Heap.{Heap}
use nt_shm.Mem.Moves.{SomeHeap, unlink-Heap}
use nt_shm.Mem.Loose.{merge}
use nt_shm.Mem.Claim.{++_assoc}
use nt_shm.Mem.Valid.{is_loose}

module _ (mem : Memory) (buckets lo hi : ℕ) (l r : List Chunk) (a n b k : ℕ) where
  -- The next chunk, which is free, is unlinked and merged.
  pub join_next :
      SomeHeap mem buckets lo hi (l ++ chunk a n loose ∷ chunk b k free ∷ r)
      → SomeHeap
          (mem_unlink_chunk mem buckets b)
          buckets
          lo
          hi
          (l ++ chunk a (n + 16 + k) loose ∷ r)
  join_next (bs, v) =
      let after = mem_unlink_chunk mem buckets b in
      let front = l ++ chunk a n loose ∷ [] in
      let aside = sym (++_assoc l (chunk a n loose ∷ []) (chunk b k free ∷ r)) in
      let back = ++_assoc l (chunk a n loose ∷ []) (chunk b k loose ∷ r) in
      let (bs', v') =
        unlink-Heap mem buckets lo hi front r b k bs
          (subst (λ (ds : List Chunk). Heap mem buckets lo hi ds bs) aside v) in
      (
        bs',
        merge after buckets lo hi l r a n bs' b k
            (subst (λ (ds : List Chunk). Heap after buckets lo hi ds bs') back v'),
      )

  -- The chunk before the one at b, which is free, is unlinked and merged.
  pub join_prev :
      SomeHeap mem buckets lo hi (l ++ chunk a n free ∷ chunk b k loose ∷ r)
      → SomeHeap
          (mem_unlink_chunk mem buckets a)
          buckets
          lo
          hi
          (l ++ chunk a (n + 16 + k) loose ∷ r)
  join_prev (bs, v) =
      let after = mem_unlink_chunk mem buckets a in
      let (bs', v') = unlink-Heap mem buckets lo hi l (chunk b k loose ∷ r) a n bs v in
      (bs', merge after buckets lo hi l r a n bs' b k v')

-- The last of the chunks between b and a
record Last (mem : Memory) (b a : ℕ) (cs : List Chunk) : Type 0 where
  pub before : List Chunk
  pub addr : ℕ
  pub size : ℕ
  pub state : State
  pub here : cs ≡ before ++ chunk addr size state ∷ []
  pub tags : Tags mem addr size state
  pub ends : addr + 16 + size ≡ a
  pub begins : b ≤ addr

Last-cases :
    (mem : Memory) (b a : ℕ) (cs : List Chunk) → Tiles mem b a cs → (b ≡ a) ⊎ Last mem b a cs
Last-cases mem b a [] t = inl t
Last-cases mem b a (c ∷ cs) (e, big, whole, tags, t) =
    elim (Last-cases mem (b + 16 + c.size) a cs t) [
      | inl none ↦ inr (only cs t none)
      | inr last ↦ inr (record {
        before = c ∷ last.before;
        addr = last.addr;
        size = last.size;
        state = last.state;
        here = ap (λ (ds : List Chunk). c ∷ ds) last.here;
        tags = last.tags;
        ends = last.ends;
        begins = omega (arith, last.begins);
      })
    ]
  where
    only :
        (ds : List Chunk)
        → Tiles mem (b + 16 + c.size) a ds
        → b + 16 + c.size ≡ a
        → Last mem b a (c ∷ ds)
    only [] t none = record {
      before = [];
      addr = c.addr;
      size = c.size;
      state = c.state;
      here = refl;
      tags = tags;
      ends = omega arith;
      begins = omega arith;
    }
    only (d ∷ ds) t none =
        absurd (omega (arith, Tiles-le mem a (b + 16 + c.size + 16 + d.size) ds t.4))

module _ (mem : Memory) where
  -- The chunk at b is not free, or there is none, or it is free and begins the rest.
  abbrev pub Next : ℕ → ℕ → List Chunk → Type 0
  Next hi b r =
      ((ltb b hi && free_chunk mem b) ≡ false)
      ⊎ ((k : ℕ) × (r' : List Chunk) × (r ≡ chunk b k free ∷ r')
          × ((ltb b hi && free_chunk mem b) ≡ true)
          × (chunk_size mem b ≡ k))

  -- The chunk that ends at a is not free, or there is none, or it is free and ends the front.
  abbrev pub Prev : ℕ → ℕ → List Chunk → Type 0
  Prev lo a l =
      ((ltb lo a && free_chunk mem (a - 8)) ≡ false)
      ⊎ ((p : ℕ) × (k : ℕ) × (l' : List Chunk) × (l ≡ l' ++ chunk p k free ∷ [])
          × ((ltb lo a && free_chunk mem (a - 8)) ≡ true)
          × (chunk_size mem (a - 8) ≡ k)
          × (chunk_size mem p ≡ k)
          × (p + 16 + k ≡ a))

module _ (mem : Memory) (hi : ℕ) (top : hi < mem_flg_used) where
  -- A size field of a chunk tells whether the chunk is free.
  tag_free :
      (p n : ℕ) → n < mem_flg_used → mem p ≡ n → (free_chunk mem p ≡ true) × (chunk_size mem p ≡ n)
  tag_free p n lt e = (ground arith, omega arith)

  tag_used : (p n : ℕ) → n < mem_flg_used → mem p ≡ mem_flg_used + n → free_chunk mem p ≡ false
  tag_used p n lt e = ground arith

  Next-at :
      (b n : ℕ) (s : State) (r : List Chunk)
      → Tags mem b n s
      → is_loose (chunk b n s) ≡ 0
      → b + 16 + n ≤ hi
      → Next mem hi b (chunk b n s ∷ r)
  Next-at b n used r tags settled le =
      let more : ltb b hi ≡ true = ground arith in inl (rw more (tag_used b n (omega arith) tags.0))
  Next-at b n free r tags settled le =
      let more : ltb b hi ≡ true = ground arith in
      let (is_it, size) = tag_free b n (omega arith) tags.0 in inr (n, r, refl, rw more is_it, size)
  Next-at b n loose r tags settled le = absurd (omega arith)

  pub Next-cases :
      (b : ℕ) (r : List Chunk) → Tiles mem b hi r → weigh is_loose r ≡ 0 → Next mem hi b r
  Next-cases b [] t settled = let stop : ltb b hi ≡ false = ground arith in inl (rw stop refl)
  Next-cases b (d ∷ r) (e, big, whole, tags, t) settled =
      let above = Tiles-le mem hi (b + 16 + d.size) r t in
      subst (λ (x : ℕ). Next mem hi b (chunk x d.size d.state ∷ r)) (sym e)
        (Next-at b d.size d.state r (subst (λ (x : ℕ). Tags mem x d.size d.state) e tags)
          (omega arith) above)

  Prev-at :
      (lo a p k : ℕ) (s : State) (l' : List Chunk)
      → Tags mem p k s
      → is_loose (chunk p k s) ≡ 0
      → p + 16 + k ≡ a
      → lo ≤ p
      → a ≤ hi
      → Prev mem lo a (l' ++ chunk p k s ∷ [])
  Prev-at lo a p k used l' tags settled ends begins le =
      let more : ltb lo a ≡ true = ground arith in
      let field : a - 8 ≡ p + 8 + k = omega arith in
      inl (rw (more, field) (tag_used (p + 8 + k) k (omega arith) tags.1))
  Prev-at lo a p k free l' tags settled ends begins le =
      let more : ltb lo a ≡ true = ground arith in
      let field : a - 8 ≡ p + 8 + k = omega arith in
      let (is_it, size) = tag_free (p + 8 + k) k (omega arith) tags.1 in
      let (_, size_p) = tag_free p k (omega arith) tags.0 in
      inr (p, k, l', refl, rw (more, field) is_it, rw field size, size_p, ends)
  Prev-at lo a p k loose l' tags settled ends begins le = absurd (omega arith)

  pub Prev-cases :
      (lo a : ℕ) (l : List Chunk)
      → Tiles mem lo a l
      → weigh is_loose l ≡ 0
      → a ≤ hi
      → Prev mem lo a l
  Prev-cases lo a l t settled le = elim (Last-cases mem lo a l t) [
    | inl none ↦ let stop : ltb lo a ≡ false = ground arith in inl (rw stop refl)
    | inr last ↦
        subst (λ (ds : List Chunk). Prev mem lo a ds) (sym last.here)
          (Prev-at lo a last.addr last.size last.state last.before last.tags
            (omega (
              arith,
              ap (weigh is_loose) last.here,
              weigh-append is_loose last.before (chunk last.addr last.size last.state ∷ []),
            ))
            last.ends last.begins le)
  ]
