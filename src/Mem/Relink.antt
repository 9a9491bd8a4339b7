-- ===== src/Mem/Relink.antt =====
-- mem_link_chunk() and mem_unlink_chunk() on the list of one bucket.
use nt_shm.Common.{
  ℕ, ◌+◌, ◌<◌, ◌≡◌, ◌≢◌, refl, List, [], ◌∷◌, ◌++◌, false, arith, ◌==◌, if◌then◌else◌,
}
use nt_shm.Mem.{
  Memory, store, chunk_size, mem_bucket_by_size, bucket_cell, mem_ptr_to_next_field, mem_link_chunk,
  mem_unlink_chunk,
}
use nt_shm.Mem.Links.{
  Linked, OffLinks, Spread, Same, Bypassed, end_cell, end_prev, prev-cell, behind, bypass,
  bypass-Bypassed, bypass-Linked, store-Linked, end_cell-off, OffLinks-back, Far-off,
}

-- The memory `after` has the list xs in the bucket, and differs from `mem` at most at the pointer
-- of the bucket and at the link fields of `touched`.
pub record Relinked (mem after : Memory) (cell : ℕ) (xs touched : List ℕ) : Type 0 where
  pub list : Linked after cell 0 xs
  pub same : (p : ℕ) → p ≢ cell → OffLinks p touched → Same mem after p

-- The pointer of the bucket of the chunk d.
abbrev pub cell_of : Memory → ℕ → ℕ → ℕ
cell_of mem buckets d = bucket_cell buckets (mem_bucket_by_size (chunk_size mem d))

pub unlink-Relinked :
    (mem : Memory) (buckets cell d : ℕ) (ys zs : List ℕ)
    → cell_of mem buckets d ≡ cell
    → Spread cell (ys ++ d ∷ zs)
    → Linked mem cell 0 (ys ++ d ∷ zs)
    → Relinked mem (mem_unlink_chunk mem buckets d) cell (ys ++ zs) (ys ++ d ∷ zs)
unfolding mem_unlink_chunk
unlink-Relinked mem buckets cell d ys zs place apart l =
    let into : mem_ptr_to_next_field (mem (d + 8)) cell ≡ end_cell cell ys =
      prev-cell mem cell 0 cell d ys zs l refl in
    let back : mem (d + 8) ≡ end_prev 0 ys = (behind mem cell 0 d ys zs l).0 in
    let after : Memory = bypass mem (end_cell cell ys) (mem (d + 16)) (end_prev 0 ys) in
    let b : Bypassed mem after cell 0 ys zs = bypass-Bypassed mem cell 0 d ys zs apart l in
    let done : Relinked mem after cell (ys ++ zs) (ys ++ d ∷ zs) = record {
      list = bypass-Linked mem after cell 0 d ys zs apart l b;
      same = λ p ne off.
          b.rest p (end_cell-off p cell ys (d ∷ zs) ne off) (OffLinks-back p ys (d ∷ zs) off).1;
    } in
    rw (place, into, back) done

-- The stores of a link
abbrev push : Memory → ℕ → ℕ → Memory
push mem cell d =
    let m1 : Memory = if mem cell == 0 then mem else store mem (mem cell + 8) d in
    let m2 : Memory = store m1 (d + 8) 0 in
    let m3 : Memory = store m2 (d + 16) (m2 cell) in store m3 cell d

push-Relinked :
    (mem : Memory) (cell d : ℕ) (xs : List ℕ)
    → 0 < d
    → Spread cell (d ∷ xs)
    → Linked mem cell 0 xs
    → Relinked mem (push mem cell d) cell (d ∷ xs) (d ∷ xs)
push-Relinked mem cell d [] pos ((off, _), far, _) l = rw l (record {
  list = (ground arith, pos, ground arith, ground arith);
  same = λ p ne off. ground arith;
})
push-Relinked mem cell d (x ∷ xs) pos (((off8, off16), off), far, (off_d, far_x, apart))
      (at, posx, back, l) =
    let null : (x == 0) ≡ false = ground arith in
    let (x8, x16) = Far-off x xs far_x in
    let (d8, d16) = Far-off d (x ∷ xs) far in
    let m1 : Memory = store mem (x + 8) d in
    let m2 : Memory = store m1 (d + 8) 0 in
    let m3 : Memory = store m2 (d + 16) x in
    let keep_cell : m2 cell ≡ x = ground arith in
    let l1 : Linked m1 (x + 16) x xs =
      store-Linked mem (x + 8) d (x + 16) x xs (λ e. omega arith) x8 l in
    let l2 : Linked m2 (x + 16) x xs = store-Linked m1 (d + 8) 0 (x + 16) x xs d8.0.1 d8.1 l1 in
    let l3 : Linked m3 (x + 16) x xs = store-Linked m2 (d + 16) x (x + 16) x xs d16.0.1 d16.1 l2 in
    let l4 : Linked (store m3 cell d) (x + 16) x xs =
      store-Linked m3 cell d (x + 16) x xs off.0.1 off.1 l3 in
    let done : Relinked mem (store m3 cell d) cell (d ∷ x ∷ xs) (d ∷ x ∷ xs) = record {
      list = (ground arith, pos, ground arith, (ground arith, posx, ground arith, l4));
      same = λ p ne off_p. ground arith;
    } in
    rw (at, null, keep_cell) done

pub link-Relinked :
    (mem : Memory) (buckets cell d : ℕ) (xs : List ℕ)
    → cell_of mem buckets d ≡ cell
    → 0 < d
    → Spread cell (d ∷ xs)
    → Linked mem cell 0 xs
    → Relinked mem (mem_link_chunk mem buckets d) cell (d ∷ xs) (d ∷ xs)
unfolding mem_link_chunk
link-Relinked mem buckets cell d xs place pos apart l =
    rw place (push-Relinked mem cell d xs pos apart l)
