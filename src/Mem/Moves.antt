-- ===== src/Mem/Moves.antt =====
-- mem_link_chunk() and mem_unlink_chunk() against the invariant.
use mathlib.Core.Path.{subst}
use native.Mathlib.Decide.{ℕ_discrete}
use nt_shm.Common.{ℕ, ◌+◌, ◌≤◌, ◌<◌, ◌≡◌, ◌≢◌, sym, ap, List, ◌∷◌, ◌++◌, arith}
use nt_shm.Common.Weigh.{weigh, weigh-append, All}
use nt_shm.Mem.{
  Memory, mem_flg_used, mem_bucket_count, mem_bucket_by_size, bucket_cell, mem_link_chunk,
  mem_unlink_chunk, chunk_size,
}
use nt_shm.Mem.Links.{Linked, OffLinks, Far, Spread, Same, Far-off}
use nt_shm.Mem.Relink.{Relinked, cell_of, unlink-Relinked, link-Relinked}
use nt_shm.Mem.Tiles.{
  State, free, loose, Chunk, chunk, Tags, Tiles, starts, IsStart, count, All-of_count, start-in,
  starts-Far, starts-le, tag_words, Tiles-Same,
}
use nt_shm.Mem.Heap.{
  Heap, listed, listed-starts, off_links, member-IsStart, member-once, put_list, relist-Same,
  relist-Tiles, relist-lists,
}
use nt_shm.Mem.Members.{
  bucket_of-lt, list_at, Spread-of, unlisted, relisted, retag, Tags-of, size-lt,
}

-- A list of the buckets for which the invariant holds
abbrev pub SomeHeap : Memory → ℕ → ℕ → ℕ → List Chunk → Type 0
SomeHeap mem buckets lo hi cs = (bs : ℕ → List ℕ) × Heap mem buckets lo hi cs bs

module _ (mem : Memory) (buckets lo hi : ℕ) (l r : List Chunk) (a n : ℕ) (bs : ℕ → List ℕ) where
  abbrev i : ℕ
  i = mem_bucket_by_size n

  abbrev cell : ℕ
  cell = bucket_cell buckets i

  tag-size :
      (s : State)
      → Tiles mem lo hi (l ++ chunk a n s ∷ r)
      → hi < mem_flg_used
      → mem a ≡ n
      → cell_of mem buckets a ≡ cell
  tag-size s t top tag =
      let size : chunk_size mem a ≡ n = omega (arith, size-lt lo hi l r a n mem s t, tag, top) in
      ap (λ (k : ℕ). bucket_cell buckets (mem_bucket_by_size k)) size

  member-Spread :
      (s : State) (from : ℕ)
      → Heap mem buckets lo hi (l ++ chunk a n s ∷ r) bs
      → OffLinks from (bs i)
      → Spread from (bs i)
  member-Spread s from v off =
      let cs = l ++ chunk a n s ∷ r in
      Spread-of mem lo hi from cs (bs i) v.tiles
        (λ x h. member-IsStart mem buckets lo hi cs bs v i x (bucket_of-lt n) h)
        (λ x. omega (
          arith,
          v.members i x (bucket_of-lt n),
          listed-starts i x cs,
          starts-le mem hi lo x cs v.tiles,
        ))
        off

  cell-off : (s : State) → Heap mem buckets lo hi (l ++ chunk a n s ∷ r) bs → OffLinks cell (bs i)
  cell-off s v =
      let cs = l ++ chunk a n s ∷ r in
      off_links cell (bs i) (λ x here lo_p close.
        let own = member-IsStart mem buckets lo hi cs bs v i x (bucket_of-lt n) here in
        let (inside, _) = start-in mem hi lo x cs v.tiles own in
        omega (arith, v.room, bucket_of-lt n))

  -- What an unlink does to the list of the chunk
  pub unlink-list :
      (ys zs : List ℕ)
      → Heap mem buckets lo hi (l ++ chunk a n free ∷ r) bs
      → bs i ≡ ys ++ a ∷ zs
      → Relinked mem (mem_unlink_chunk mem buckets a) cell (ys ++ zs) (ys ++ a ∷ zs)
  unlink-list ys zs v e =
      unlink-Relinked mem buckets cell a ys zs
        (tag-size free v.tiles v.top (Tags-of lo hi l r a n mem free v.tiles).0)
        (subst (Spread cell) e (member-Spread free cell v (cell-off free v)))
        (subst (λ (xs : List ℕ). Linked mem cell 0 xs) e (v.lists i (bucket_of-lt n)))

  unlink-at :
      (ys zs : List ℕ)
      → Heap mem buckets lo hi (l ++ chunk a n free ∷ r) bs
      → bs i ≡ ys ++ a ∷ zs
      → Heap
          (mem_unlink_chunk mem buckets a)
          buckets
          lo
          hi
          (l ++ chunk a n loose ∷ r)
          (put_list bs i (ys ++ zs))
  unlink-at ys zs v e =
      let cs = l ++ chunk a n free ∷ r in
      let touched = ys ++ a ∷ zs in
      let lti = bucket_of-lt n in
      let after = mem_unlink_chunk mem buckets a in
      let rl : Relinked mem after cell (ys ++ zs) touched = unlink-list ys zs v e in
      let own : (x : ℕ) → 1 ≤ count x touched → IsStart cs x =
        (λ x h. member-IsStart mem buckets lo hi cs bs v i x lti (omega (arith, ap (count x) e))) in
      let alone : (x j : ℕ)
          → 1 ≤ count x touched
          → j < mem_bucket_count
          → j ≢ i
          → count x (bs j) ≡ 0 =
        (λ x j h ltj ne.
          member-once mem buckets lo hi cs bs v i j x lti ltj (λ q. ne (sym q))
            (omega (arith, ap (count x) e))) in
      record {
        room = v.room;
        top = v.top;
        tiles =
            retag lo hi l r a n after free loose
              (relist-Tiles mem buckets lo hi cs bs v i (ys ++ zs) touched after lti rl own alone)
              tt;
        lists = relist-lists mem buckets lo hi cs bs v i (ys ++ zs) touched after lti rl own alone;
        members = unlisted bs l r a n ys zs e v.members;
      }

  -- A chunk that is not free is in no list.
  pub loose-unlisted :
      (j : ℕ)
      → Heap mem buckets lo hi (l ++ chunk a n loose ∷ r) bs
      → j < mem_bucket_count
      → count a (bs j) ≡ 0
  loose-unlisted j v lt =
      let none_loose : listed j a (chunk a n loose) ≡ 0 = ground arith in
      let one : starts a (chunk a n loose) ≡ 1 = ground arith in
      omega (
        arith,
        v.members j a lt,
        weigh-append (listed j a) l (chunk a n loose ∷ r),
        weigh-append (starts a) l (chunk a n loose ∷ r),
        none_loose,
        one,
        listed-starts j a l,
        listed-starts j a r,
        starts-le mem hi lo a (l ++ chunk a n loose ∷ r) v.tiles,
      )

  -- What a link does to the list of the bucket
  pub link-list :
      Heap mem buckets lo hi (l ++ chunk a n loose ∷ r) bs
      → mem a ≡ n
      → Relinked mem (mem_link_chunk mem buckets a) cell (a ∷ bs i) (a ∷ bs i)
  link-list v left =
      let cs = l ++ chunk a n loose ∷ r in
      let lti = bucket_of-lt n in
      let start : IsStart cs a =
        (let one : starts a (chunk a n loose) ≡ 1 = ground arith in
          omega (arith, weigh-append (starts a) l (chunk a n loose ∷ r), one)) in
      let (inside, above) = start-in mem hi lo a cs v.tiles start in
      let far : All (Far a) (bs i) = All-of_count _ (bs i) (λ y there.
        starts-Far mem hi lo a y cs v.tiles start
          (member-IsStart mem buckets lo hi cs bs v i y lti there)
          (λ e. omega (arith, ap (λ (k : ℕ). count k (bs i)) e, loose-unlisted i v lti))) in
      let apart : Spread cell (a ∷ bs i) = (
        (((λ e. omega (arith, v.room, lti)), (λ e. omega (arith, v.room, lti))), cell-off loose v),
        far,
        member-Spread loose (a + 16) v (Far-off a (bs i) far).1,
      ) in
      link-Relinked mem buckets cell a (bs i) (tag-size loose v.tiles v.top left)
        (omega (arith, v.room)) apart (v.lists i lti)

  pub link-Heap :
      Heap mem buckets lo hi (l ++ chunk a n loose ∷ r) bs
      → Tags mem a n free
      → Heap
          (mem_link_chunk mem buckets a)
          buckets
          lo
          hi
          (l ++ chunk a n free ∷ r)
          (put_list bs i (a ∷ bs i))
  link-Heap v (left, right) =
      let cs = l ++ chunk a n loose ∷ r in
      let lti = bucket_of-lt n in
      let after = mem_link_chunk mem buckets a in
      let start : IsStart cs a =
        (let one : starts a (chunk a n loose) ≡ 1 = ground arith in
          omega (arith, weigh-append (starts a) l (chunk a n loose ∷ r), one)) in
      let rl : Relinked mem after cell (a ∷ bs i) (a ∷ bs i) = link-list v left in
      let own : (x : ℕ) → 1 ≤ count x (a ∷ bs i) → IsStart cs x = (λ x h. elim (ℕ_discrete a x) [
        | yes same ↦ subst (IsStart cs) same start
        | no other ↦ member-IsStart mem buckets lo hi cs bs v i x lti (ground arith)
      ]) in
      let alone : (x j : ℕ)
          → 1 ≤ count x (a ∷ bs i)
          → j < mem_bucket_count
          → j ≢ i
          → count x (bs j) ≡ 0 =
        (λ x j h ltj ne. elim (ℕ_discrete a x) [
          | yes same ↦ subst (λ (k : ℕ). count k (bs j) ≡ 0) same (loose-unlisted j v ltj)
          | no other ↦
              member-once mem buckets lo hi cs bs v i j x lti ltj (λ q. ne (sym q)) (ground arith)
        ]) in
      let whole = l ++ chunk a n free ∷ r in
      let t : Tiles mem lo hi whole = retag lo hi l r a n mem loose free v.tiles (left, right) in
      let same_starts : (x : ℕ) → weigh (starts x) whole ≡ weigh (starts x) cs = (λ x. omega (
        arith,
        weigh-append (starts x) l (chunk a n free ∷ r),
        weigh-append (starts x) l (chunk a n loose ∷ r),
      )) in
      record {
        room = v.room;
        top = v.top;
        tiles =
            Tiles-Same mem after lo hi whole
              (tag_words mem hi lo whole (λ p. Same mem after p) t
                (λ p at below clear.
                  relist-Same mem buckets lo hi cs bs v i (a ∷ bs i) (a ∷ bs i) after lti rl own
                    alone p at
                    (λ x here lo_p close. clear x (omega (arith, same_starts x)) lo_p close)))
              t;
        lists =
            relist-lists mem buckets lo hi cs bs v i (a ∷ bs i) (a ∷ bs i) after lti rl own alone;
        members = relisted bs l r a n v.members;
      }

  -- A free chunk stands in the list of its bucket.
  pub free-listed :
      Heap mem buckets lo hi (l ++ chunk a n free ∷ r) bs
      → (ys : List ℕ) × (zs : List ℕ) × (bs i ≡ ys ++ a ∷ zs)
  free-listed v =
      let one_free : listed i a (chunk a n free) ≡ 1 = ground arith in
      list_at a (bs i) (
        omega (
          arith,
          v.members i a (bucket_of-lt n),
          weigh-append (listed i a) l (chunk a n free ∷ r),
          one_free,
        ))

  pub unlink-Heap :
      Heap mem buckets lo hi (l ++ chunk a n free ∷ r) bs
      → SomeHeap (mem_unlink_chunk mem buckets a) buckets lo hi (l ++ chunk a n loose ∷ r)
  unlink-Heap v = let (ys, zs, e) = free-listed v in (put_list bs i (ys ++ zs), unlink-at ys zs v e)
