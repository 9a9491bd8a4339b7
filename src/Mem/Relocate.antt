-- ===== src/Mem/Relocate.antt =====
-- __mem_realloc() where the block moves: the copy, and the release before or after it.
use mathlib.Core.Path.{subst}
use nt_shm.Common.{
  ℕ, zero, suc, ◌+◌, ◌*◌, ◌/◌, ◌≤◌, ◌<◌, ◌≡◌, ◌⊎◌, inl, inr, refl, sym, ap, ◌∙◌, List, ◌∷◌, ◌++◌,
  true, false, arith, ltb, ◌==◌, if◌then◌else◌,
}
use nt_shm.Common.Run.{ok, exit_failure, Returns, returns, Returns-if, Returns-bind}
use nt_shm.Common.Weigh.{weigh, weigh-append}
use nt_shm.Mem.{Memory, MemInfo, mem_proper_alloc_size, mem_free, free_room}
use nt_shm.Mem.Reallocation.{copy_words, copy_block, recycle, relocate}
use nt_shm.Mem.Links.{Same}
use nt_shm.Mem.Tiles.{used, free, loose, Chunk, chunk}
use nt_shm.Mem.Members.{Tags-of}
use nt_shm.Mem.Moves.{SomeHeap}
use nt_shm.Mem.Loose.{reclaim, scribble}
use nt_shm.Mem.Find.{fits, FreeAt}
use nt_shm.Mem.Valid.{Valid, held}
use nt_shm.Mem.Malloc.{Given, weigh-around}
use nt_shm.Mem.Coalesce.{Freed}
use nt_shm.Mem.Free.{mem_free-Freed}
use nt_shm.Mem.Requests.{Answer, mem_malloc-Answer, used_at, at_with}
use nt_shm.Mem.Resize.{Resized}

copy_words-Same :
    (from mem : Memory) (target source words p : ℕ)
    → (p < target) ⊎ (target + 8 * words ≤ p)
    → Same mem (copy_words from mem target source words) p
unfolding copy_words
copy_words-Same from mem target source zero p out = refl
copy_words-Same from mem target source (suc words) p (inl before) =
    let rest = copy_words-Same from mem target source words p (inl before) in ground arith
copy_words-Same from mem target source (suc words) p (inr behind) =
    let rest = copy_words-Same from mem target source words p (inr (omega arith)) in ground arith

-- What is written into a used chunk leaves the invariant.
written :
    (mem after : Memory) (buckets lo hi : ℕ) (l r : List Chunk) (c block : ℕ)
    → SomeHeap mem buckets lo hi (l ++ chunk c block used ∷ r)
    → ((p : ℕ) → (p < c + 8) ⊎ (c + 8 + block ≤ p) → Same mem after p)
    → SomeHeap after buckets lo hi (l ++ chunk c block used ∷ r)
written mem after buckets lo hi l r c block (bs, v) keep =
    let (left, right) = Tags-of lo hi l r c block mem used v.tiles in
    let open_chunk = reclaim mem buckets lo hi l r c block bs used loose refl refl v tt in
    let changed = scribble mem buckets lo hi l r c block bs after open_chunk (outside keep) in
    (
      bs,
      reclaim after buckets lo hi l r c block bs loose used refl refl changed
          (keep c (inl (omega arith)) ∙ left, keep (c + 8 + block) (inr (omega arith)) ∙ right),
    )
  where
    outside :
        ((p : ℕ) → (p < c + 8) ⊎ (c + 8 + block ≤ p) → Same mem after p)
        → (p : ℕ) → (p < c) ⊎ (c + 16 + block ≤ p)
        → Same mem after p
    outside k p (inl lo_p) = k p (inl (omega arith))
    outside k p (inr hi_p) = k p (inr (omega arith))

pub copied :
    (from : Memory) (info : MemInfo) (cs : List Chunk) (a n c block : ℕ)
    → Valid info cs
    → 1 ≤ weigh (held (at_with c block)) cs
    → n ≤ block
    → Valid (copy_block from info a n c) cs
unfolding copy_block
copied from info cs a n c block v there fit =
    let (l, r, e) = used_at c block cs there in
    let mem' = copy_words from info.mem (c + 8) (a + 8) (n / 8) in
    let old =
      subst (λ (ds : List Chunk). SomeHeap info.mem info.buckets info.lo_bound info.hi_bound ds) e
        v.heap in
    let new =
      written info.mem mem' info.buckets info.lo_bound info.hi_bound l r c block old (λ p out.
        copy_words-Same from info.mem (c + 8) (a + 8) (n / 8) p
          (elim out [ inl before ↦ inl before | inr behind ↦ inr (omega arith) ])) in
    record {
      heap =
          subst (λ (ds : List Chunk). SomeHeap mem' info.buckets info.lo_bound info.hi_bound ds)
            (sym e) new;
      settled = v.settled;
      used_sum = v.used_sum;
      free_sum = v.free_sum;
    }

pub at_with_self : (a n : ℕ) → at_with a n a n ≡ 1
at_with_self a n = ground arith

-- What __mem_realloc() gives: NULL and the segment as it is, when the room of the chunk and of the
-- free chunks beside it is too small, or the block, kept, resized or moved.
abbrev pub Reanswer : MemInfo → List Chunk → ℕ → ℕ → ℕ → MemInfo × ℕ → Type 0
Reanswer info cs a n size (after, c) =
    ((c ≡ 0) × (after ≡ info) × (free_room info a n < size))
    ⊎ ((0 < c) × Resized cs after a n c size)

fits-room :
    (size place full : ℕ) (cs : List Chunk)
    → FreeAt cs place full
    → size ≤ full
    → 1 ≤ weigh (fits size) cs
fits-room size place full cs f le =
    let one : fits size (chunk place full free) ≡ 1 = ground arith in
    omega (
      arith,
      ap (weigh (fits size)) f.here,
      weigh-append (fits size) f.l (chunk place full free ∷ f.r),
      one,
    )

module _ (info : MemInfo) (l r : List Chunk) (a n size : ℕ)
    (v : Valid info (l ++ chunk a n used ∷ r)) (proper : mem_proper_alloc_size size ≡ size)
    (more : n < size) where
  abbrev cs : List Chunk
  cs = l ++ chunk a n used ∷ r

  -- The new chunk after the release
  reused :
      (f : Freed cs (mem_free info (a + 8)) a n (free_room info a n)) (after : MemInfo) (c : ℕ)
      → size ≤ free_room info a n
      → Answer (mem_free info (a + 8)) f.chunks size (after, c)
      → Returns
          (Reanswer info cs a n size)
          (if c == 0 then exit_failure else ok (copy_block info.mem after a n c, c))
  reused f after c enough (inl (null, kept, none)) = absurd (
      omega (
        arith,
        fits-room size f.place (free_room info a n) f.chunks f.room enough,
        ap (λ (k : ℕ). weigh (fits k) f.chunks) proper,
      ))
  reused f after c enough (inr (some_c, g)) =
      let test : (c == 0) ≡ false = ground arith in
      let there : 1 ≤ weigh (held (at_with c g.block)) g.chunks =
        omega (arith, g.one_more (at_with c g.block), at_with_self c g.block) in
      rw test (
        returns (
          inr (
            some_c,
            record {
              chunks = g.chunks;
              block = g.block;
              enough = omega (arith, g.enough);
              valid =
                  copied info.mem after g.chunks a n c g.block g.valid there
                    (omega (arith, g.enough));
              swapped = λ w. omega (arith, f.one_less w, g.one_more w);
            },
          )))

  pub recycle-Reanswer : Returns (Reanswer info cs a n size) (recycle info a n size)
  unfolding recycle
  recycle-Reanswer =
      let f = mem_free-Freed info l r a n v in
      Returns-if (ltb (free_room info a n) size) (λ small. returns (inl (refl, refl, ground arith)))
        (λ enough.
          let le : size ≤ free_room info a n = ground arith in
          Returns-bind (mem_malloc-Answer (mem_free info (a + 8)) f.chunks size f.valid)
            (λ value answer. reused f value.0 value.1 le answer))

  -- The new chunk before the release
  exchanged :
      (after : MemInfo) (c : ℕ)
      → Given cs after c (mem_proper_alloc_size size)
      → Resized cs (mem_free (copy_block after.mem after a n c) (a + 8)) a n c size
  exchanged after c g =
      let there : 1 ≤ weigh (held (at_with c g.block)) g.chunks =
        omega (arith, g.one_more (at_with c g.block), at_with_self c g.block) in
      let old : 1 ≤ weigh (held (at_with a n)) g.chunks = omega (
        arith,
        g.one_more (at_with a n),
        weigh-around (held (at_with a n)) l r (chunk a n used),
        at_with_self a n,
      ) in
      let (l2, r2, e2) = used_at a n g.chunks old in
      let v2 =
        copied after.mem after g.chunks a n c g.block g.valid there (omega (arith, g.enough)) in
      let info2 = copy_block after.mem after a n c in
      let f = mem_free-Freed info2 l2 r2 a n (subst (Valid info2) e2 v2) in
      record {
        chunks = f.chunks;
        block = g.block;
        enough = omega (arith, g.enough);
        valid = f.valid;
        swapped = λ w. omega (arith, f.one_less w, g.one_more w, ap (weigh (held w)) e2);
      }

  moved :
      (after : MemInfo) (c : ℕ)
      → Answer info cs size (after, c)
      → Returns (Reanswer info cs a n size) (
          if c == 0
          then recycle after a n size
          else ok (mem_free (copy_block after.mem after a n c) (a + 8), c))
  moved after c (inl (null, kept, none)) =
      let test : (c == 0) ≡ true = ground arith in
      rw test (
        subst (λ (m : MemInfo). Returns (Reanswer info cs a n size) (recycle m a n size)) (sym kept)
          recycle-Reanswer)
  moved after c (inr (some_c, g)) =
      let test : (c == 0) ≡ false = ground arith in
      rw test (returns (inr (some_c, exchanged after c g)))

  pub relocate-Reanswer : Returns (Reanswer info cs a n size) (relocate info a n size)
  unfolding relocate
  relocate-Reanswer =
      Returns-bind (mem_malloc-Answer info cs size v) (λ value answer. moved value.0 value.1 answer)
