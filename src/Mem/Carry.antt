-- ===== src/Mem/Carry.antt =====
-- The words of a block that __mem_realloc() moves.
use mathlib.Core.Path.{subst}
use nt_shm.Common.{
  ℕ, ◌+◌, ◌*◌, ◌≤◌, ◌<◌, ◌≡◌, inl, inr, sym, ap, ◌∙◌, List, ◌∷◌, ◌++◌, true, false, arith, ltb,
  ◌==◌, if◌then◌else◌, Bool,
}
use nt_shm.Common.Run.{Run, ok, exit_failure, ◌>>=◌, Returns, returns, Returns-bind, Returns-map}
use nt_shm.Common.Weigh.{weigh, weigh_mono, weigh-append}
use nt_shm.Mem.{MemInfo, mem_proper_alloc_size, mem_malloc, mem_free, free_room}
use nt_shm.Mem.Reallocation.{copy_block, recycle, relocate}
use nt_shm.Mem.Links.{Same}
use nt_shm.Mem.Tiles.{used, Chunk, chunk}
use nt_shm.Mem.Valid.{Valid, held}
use nt_shm.Mem.Malloc.{Given, weigh-around}
use nt_shm.Mem.Free.{mem_free-Freed}
use nt_shm.Mem.Requests.{mem_malloc-Answer, used_at, at_with}
use nt_shm.Mem.Relocate.{at_with_self, copied, recycle-Reanswer}
use nt_shm.Mem.Frame.{covers, solid}
use nt_shm.Mem.Keeps.{held-solid, mem_malloc-keeps}
use nt_shm.Mem.KeepsFree.{mem_free-keeps}
use nt_shm.Mem.Content.{Holds, Content, both, copy_block-Holds}

-- The words of a chunk in a list of chunks, when the list has a used chunk taken out
Covered-rest :
    (p a n : ℕ) (cs l r : List Chunk)
    → cs ≡ l ++ chunk a n used ∷ r
    → 1 + covers p a n ≤ weigh (held (covers p)) cs
    → 1 ≤ weigh (solid p) l + weigh (solid p) r
Covered-rest p a n cs l r e h = omega (
  arith,
  ap (weigh (held (covers p))) e,
  weigh-append (held (covers p)) l (chunk a n used ∷ r),
  weigh_mono (held (covers p)) (solid p) l (λ c. held-solid p c.addr c.size c.state),
  weigh_mono (held (covers p)) (solid p) r (λ c. held-solid p c.addr c.size c.state),
)

module _ (info : MemInfo) (l r : List Chunk) (a n size : ℕ)
    (v : Valid info (l ++ chunk a n used ∷ r)) where
  abbrev cs : List Chunk
  cs = l ++ chunk a n used ∷ r

  abbrev Kept : MemInfo × ℕ → Type 0
  Kept (after, c) = (p : ℕ) → 1 ≤ weigh (held (covers p)) cs → Same info.mem after.mem p

  -- The new chunk before the release
  exchanged-Holds :
      (after : MemInfo) (c : ℕ)
      → Given cs after c (mem_proper_alloc_size size)
      → n ≤ mem_proper_alloc_size size
      → Kept (after, c)
      → Holds info.mem a n (mem_free (copy_block after.mem after a n c) (a + 8)).mem c size
  exchanged-Holds after c g fit kept i le le' =
      let there : 1 ≤ weigh (held (at_with c g.block)) g.chunks =
        omega (arith, g.one_more (at_with c g.block), at_with_self c g.block) in
      let old : 1 ≤ weigh (held (at_with a n)) g.chunks = omega (
        arith,
        g.one_more (at_with a n),
        weigh-around (held (at_with a n)) l r (chunk a n used),
        at_with_self a n,
      ) in
      let (l2, r2, e2) = used_at a n g.chunks old in
      let info2 = copy_block after.mem after a n c in
      let v2 =
        copied after.mem after g.chunks a n c g.block g.valid there (omega (arith, g.enough)) in
      let p = c + 8 + 8 * i in
      let q = a + 8 + 8 * i in
      let new : covers p c g.block ≡ 1 = let big = g.enough in ground arith in
      let own : covers q a n ≡ 1 = ground arith in
      mem_free-keeps info2 l2 r2 a n p (subst (Valid info2) e2 v2) (
        Covered-rest p a n g.chunks l2 r2 e2 (
          omega (
            arith,
            g.one_more (covers p),
            new,
            weigh-around (held (covers p)) l r (chunk a n used),
          )))
      ∙ copy_block-Holds after.mem after a n c size i le le'
      ∙ kept q (omega (arith, own, weigh-around (held (covers q)) l r (chunk a n used)))

  -- The copy after the release, in a call that returns
  reused_Content :
      {P : MemInfo × ℕ → Type 0} (run : Run (MemInfo × ℕ)) (small : Bool)
      → Returns (λ x. Unit {0}) run
      → Returns P (
          if small
          then ok (info, 0)
          else (run >>= λ (after, c).
              if c == 0 then exit_failure else ok (copy_block info.mem after a n c, c)))
      → Returns (Content info a n size) (
          if small
          then ok (info, 0)
          else (run >>= λ (after, c).
              if c == 0 then exit_failure else ok (copy_block info.mem after a n c, c)))
  reused_Content run true done h = returns (λ pos. absurd (omega arith))
  reused_Content run false (returns {value = (after, c)} _) h = copied_to after c (c == 0) h
    where
      copied_to :
          {P : MemInfo × ℕ → Type 0} (after : MemInfo) (c : ℕ) (null : Bool)
          → Returns P (if null then exit_failure else ok (copy_block info.mem after a n c, c))
          → Returns
              (Content info a n size)
              (if null then exit_failure else ok (copy_block info.mem after a n c, c))
      copied_to after c true h = elim h [ ]
      copied_to after c false h = returns (λ pos. copy_block-Holds info.mem after a n c size)

  recycle-Content :
      n < size
      → mem_proper_alloc_size size ≡ size
      → Returns (Content info a n size) (recycle info a n size)
  unfolding recycle
  recycle-Content more proper =
      let f = mem_free-Freed info l r a n v in
      reused_Content (mem_malloc (mem_free info (a + 8)) size) (ltb (free_room info a n) size)
        (Returns-map (mem_malloc-Answer (mem_free info (a + 8)) f.chunks size f.valid) (λ x y. tt))
        (recycle-Reanswer info l r a n size v proper more)

  pub relocate-Content :
      n < size
      → mem_proper_alloc_size size ≡ size
      → Returns (Content info a n size) (relocate info a n size)
  unfolding relocate
  relocate-Content more proper =
      Returns-bind (both (mem_malloc-Answer info cs size v) (mem_malloc-keeps info cs size v))
        (λ (after, c) (answer, kept). elim answer [
          | inl (null, same, none) ↦
              let test : (c == 0) ≡ true = ground arith in
              rw test (
                subst (λ (m : MemInfo). Returns (Content info a n size) (recycle m a n size))
                  (sym same) (recycle-Content more proper))
          | inr (some_c, g) ↦
              let test : (c == 0) ≡ false = ground arith in
              rw test (returns (λ pos. exchanged-Holds after c g (omega (arith, proper)) kept))
        ])
