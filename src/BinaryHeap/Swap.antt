-- ===== src/BinaryHeap/Swap.antt =====
-- The exchange of two elements in a heap without the direct option, and what the sift loops keep.
use nt_shm.Common.{
  ℕ, ◌<◌, ◌≡◌, ◌≢◌, refl, ap, ◌∙◌, false, arith, ◌==◌, if◌then◌else◌, length, get_or, set,
  get_or-set, length-set,
}
use nt_shm.Common.Run.{Returns, returns, read-ok}
use nt_shm.Common.Weigh.{weigh, weigh-set}
use nt_shm.BinaryHeap.{Elem, BinaryHeap, has_direct, swap}

abbrev pub no_elem : Elem
no_elem = record { key = 0; data_ptr = 0 }

-- Element i of the array.
abbrev pub at : BinaryHeap → ℕ → Elem
at heap i = get_or heap.elems i no_elem

-- The same elements in another order, the rest of the structure unchanged.
pub record Shuffled (heap after : BinaryHeap) : Type 0 where
  pub alloc : after.elems_alloc ≡ heap.elems_alloc
  pub opts : after.options ≡ heap.options
  pub func : after.compare_func ≡ heap.compare_func
  pub width : length after.elems ≡ length heap.elems
  pub kept : (w : Elem → ℕ) → weigh w after.elems ≡ weigh w heap.elems

pub Shuffled-refl : (heap : BinaryHeap) → Shuffled heap heap
Shuffled-refl heap = record {
  alloc = refl;
  opts = refl;
  func = refl;
  width = refl;
  kept = λ w. refl;
}

pub Shuffled-trans : (a b c : BinaryHeap) → Shuffled a b → Shuffled b c → Shuffled a c
Shuffled-trans a b c ab bc = record {
  alloc = bc.alloc ∙ ab.alloc;
  opts = bc.opts ∙ ab.opts;
  func = bc.func ∙ ab.func;
  width = bc.width ∙ ab.width;
  kept = λ w. bc.kept w ∙ ab.kept w;
}

-- The effect of an exchange, as a function of the index.
pub record Swapped (heap : BinaryHeap) (p h : ℕ) (after : BinaryHeap) : Type 0 where
  pub shuffled : Shuffled heap after
  pub first : at after p ≡ at heap h
  pub second : at after h ≡ at heap p
  pub others : (i : ℕ) → i ≢ p → i ≢ h → at after i ≡ at heap i

pub swap-Swapped :
    (heap : BinaryHeap) (p h : ℕ)
    → has_direct heap ≡ false
    → p < length heap.elems
    → h < length heap.elems
    → p ≢ h
    → Returns (Swapped heap p h) (swap heap p h)
unfolding swap
swap-Swapped heap p h plain hp hh ne =
    let es = heap.elems in
    let half = set es p (at heap h) in
    let len : length half ≡ length es = length-set es p (at heap h) in
    let in_half : h < length half = omega arith in
    let reads : (j : ℕ)
        → get_or (set half h (at heap p)) j no_elem
          ≡ (if h == j then at heap p else if p == j then at heap h else at heap j) =
      (λ j.
        get_or-set half h j (at heap p) no_elem in_half
        ∙ rw (get_or-set es p j (at heap h) no_elem hp)) in
    let untouched : get_or half h no_elem ≡ at heap h =
      get_or-set es p h (at heap h) no_elem hp ∙ ground arith in
    let same : (w : Elem → ℕ) → w (get_or half h no_elem) ≡ w (at heap h) = (λ w. ap w untouched) in
    rw (read-ok es p no_elem hp, read-ok es h no_elem hh, plain)
      (returns (record {
        shuffled = record {
          alloc = refl;
          opts = refl;
          func = refl;
          width = length-set half h (at heap p) ∙ len;
          kept = λ w. omega (
            arith,
            weigh-set w half h (at heap p) no_elem in_half,
            weigh-set w es p (at heap h) no_elem hp,
            same w,
          );
        };
        first = reads p ∙ ground arith;
        second = reads h ∙ ground arith;
        others = λ i np nh. reads i ∙ ground arith;
      }))
