-- ===== src/BinaryHeap/Sift.antt =====
-- The two sift loops on a heap without the direct option.
use nt_shm.Common.{
  ℕ, zero, suc, ◌+◌, ◌*◌, ◌<◌, ◌≤◌, ◌≡◌, ◌⊎◌, inl, inr, sym, true, false, arith, leb, ◌==◌,
  Bool-cases, if◌then◌else◌, length, eq_of_==, ne_of_==, le_of_leb, lt_of_leb,
}
use mathlib.Core.Path.{subst}
use native.Mathlib.Decide.{ℕ_discrete}
use nt_shm.Common.Run.{
  Run, ok, ◌>>=◌, Returns, returns, Returns-bind, Returns-if, Returns-map, Returns-read,
}
use nt_shm.Algo.Compare.{Comparison}
use nt_shm.BinaryHeap.{Elem, BinaryHeap, has_direct, is_le, swap, bubble_up, bubble_down}
use nt_shm.BinaryHeap.Swap.{no_elem, at, Shuffled, Shuffled-refl, Shuffled-trans, swap-Swapped}
use nt_shm.BinaryHeap.Order.{
  IsOrder, parent, AtMost, Ordered, Rising, Sinking, climb-Rising, sink-Sinking, Rising-closed,
  Sinking-closed,
}

module _ (compare_func : Elem → Elem → Comparison) (ord : IsOrder compare_func) where
  -- The result of a sift loop.
  abbrev pub Settled : BinaryHeap → BinaryHeap × ℕ → Type 0
  Settled heap (after, index) =
      Shuffled heap after × Ordered compare_func (length after.elems) after

  still_plain :
      (heap after : BinaryHeap)
      → Shuffled heap after
      → has_direct heap ≡ false
      → has_direct after ≡ false
  still_plain heap after s plain = rw s.opts plain

  Settled-later : (a b : BinaryHeap) (r : BinaryHeap × ℕ) → Shuffled a b → Settled b r → Settled a r
  Settled-later a b (c, i) ab (bc, done) = (Shuffled-trans a b c ab bc, done)

  pub bubble_up-Settled :
      (fuel : ℕ) (heap : BinaryHeap) (h : ℕ)
      → h < fuel
      → h < length heap.elems
      → has_direct heap ≡ false
      → Rising compare_func (length heap.elems) heap h
      → Returns (Settled heap) (bubble_up compare_func fuel heap h)
  unfolding bubble_up
  bubble_up-Settled zero heap h enough hn plain r = absurd (omega arith)
  bubble_up-Settled (suc fuel) heap h enough hn plain r =
      let n = length heap.elems in
      Returns-if (h == 0)
        (λ top. returns (
          Shuffled-refl heap,
          Rising-closed compare_func ord n heap h r
              (λ pos _. absurd (omega (arith, eq_of_== h 0 top))),
        ))
        (λ deeper.
          let pos : 0 < h = omega (arith, ne_of_== h 0 deeper) in
          Returns-read _ heap.elems (parent h) no_elem (omega arith) (
            Returns-read _ heap.elems h no_elem hn (
              Returns-if (is_le (compare_func (at heap (parent h)) (at heap h)))
                (λ fits.
                  returns
                    (Shuffled-refl heap, Rising-closed compare_func ord n heap h r (λ _ _. fits)))
                (λ under.
                  Returns-bind
                    (swap-Swapped heap (parent h) h plain (omega arith) hn (λ e. omega (arith, e)))
                    λ after s.
                      let raised = climb-Rising compare_func ord n heap after h pos hn under s r in
                      Returns-map
                        (bubble_up-Settled fuel after (parent h) (omega arith)
                          (omega (arith, s.shuffled.width))
                          (still_plain heap after s.shuffled plain)
                          (subst (λ (k : ℕ). Rising compare_func k after (parent h))
                            (sym s.shuffled.width) raised))
                        λ last. Settled-later heap after last s.shuffled))))

  -- One step down, to a child c that is at most the other one.
  sink_step :
      (heap : BinaryHeap) (h c : ℕ) (rest : BinaryHeap → Run (BinaryHeap × ℕ))
      → 0 < c
      → c < length heap.elems
      → parent c ≡ h
      → has_direct heap ≡ false
      → ((i : ℕ) → 0 < i → i < length heap.elems → parent i ≡ h → AtMost compare_func heap c i)
      → Sinking compare_func (length heap.elems) heap h
      → ((after : BinaryHeap)
          → Shuffled heap after
          → has_direct after ≡ false
          → Sinking compare_func (length after.elems) after c
          → Returns (Settled after) (rest after))
      → Returns (Settled heap) (
          if is_le (compare_func (at heap h) (at heap c))
          then ok (heap, h)
          else swap heap h c >>= rest)
  sink_step heap h c rest cpos cn under_h plain least r continue =
      let n = length heap.elems in
      Returns-if (is_le (compare_func (at heap h) (at heap c)))
        (λ fits. returns (
          Shuffled-refl heap,
          Sinking-closed compare_func ord n heap h r
              (λ i ipos iN e. ord.transitive _ _ _ fits (least i ipos iN e)),
        ))
        (λ above.
          Returns-bind (swap-Swapped heap h c plain (omega arith) cn (λ e. omega (arith, e)))
            λ after s.
              let sunk =
                sink-Sinking compare_func ord n heap after h c cpos cn under_h least above s r in
              Returns-map
                (continue after s.shuffled (still_plain heap after s.shuffled plain)
                  (subst (λ (k : ℕ). Sinking compare_func k after c) (sym s.shuffled.width) sunk))
                λ last. Settled-later heap after last s.shuffled)

  pub reflexive : (a : Elem) → is_le (compare_func a a) ≡ true
  reflexive a = elim (Bool-cases (is_le (compare_func a a))) [
    | inl le ↦ le
    | inr gt ↦ ord.total a a gt
  ]

  children : (h i : ℕ) → 0 < i → parent i ≡ h → (i ≡ 2 * h + 1) ⊎ (i ≡ 2 * h + 2)
  children h i ipos e = elim (ℕ_discrete i (2 * h + 1)) [
    | yes is_left ↦ inl is_left
    | no other ↦ inr (omega arith)
  ]

  left_only : (h i n : ℕ) → 0 < i → i < n → parent i ≡ h → n ≤ 2 * h + 2 → 2 * h + 1 ≡ i
  left_only h i n ipos iN e outside = omega arith

  pub bubble_down-Settled :
      (fuel : ℕ) (heap : BinaryHeap) (h : ℕ)
      → length heap.elems < fuel + h
      → h < length heap.elems
      → has_direct heap ≡ false
      → Sinking compare_func (length heap.elems) heap h
      → Returns (Settled heap) (bubble_down compare_func fuel heap h)
  unfolding bubble_down
  bubble_down-Settled zero heap h enough hn plain r = absurd (omega arith)
  bubble_down-Settled (suc fuel) heap h enough hn plain r =
      let n = length heap.elems in
      let left : ℕ = 2 * h + 1 in
      let right : ℕ = 2 * h + 2 in
      Returns-if (leb n left)
        (λ none_below. returns (
          Shuffled-refl heap,
          Sinking-closed compare_func ord n heap h r
              (λ i ipos iN e. absurd (omega (arith, e, le_of_leb _ _ none_below))),
        ))
        (λ has_left.
          let inside_left : left < n = lt_of_leb _ _ has_left in
          Returns-if (leb n right)
            (λ one_below. Returns-read _ heap.elems h no_elem hn (
              Returns-read _ heap.elems left no_elem inside_left (
                sink_step heap h left (λ s. ok (s, left)) (omega arith) inside_left (omega arith)
                  plain
                  (λ i ipos iN e.
                    subst (λ (k : ℕ). AtMost compare_func heap left k)
                      (left_only h i n ipos iN e (le_of_leb _ _ one_below))
                      (reflexive (at heap left)))
                  r
                  (λ after s _ sunk. returns (
                    Shuffled-refl after,
                    Sinking-closed compare_func ord (length after.elems) after left sunk
                        (λ i ipos iN e.
                          absurd (omega (arith, e, s.width, le_of_leb _ _ one_below))),
                  )))))
            (λ two_below.
              let inside_right : right < n = lt_of_leb _ _ two_below in
              Returns-read _ heap.elems h no_elem hn (
                Returns-read _ heap.elems left no_elem inside_left (
                  Returns-read _ heap.elems right no_elem inside_right (
                    Returns-if (is_le (compare_func (at heap left) (at heap right)))
                      (λ left_least.
                        sink_step heap h left (λ s. bubble_down compare_func fuel s left)
                          (omega arith) inside_left (omega arith) plain
                          (λ i ipos iN e. elim (children h i ipos e) [
                            | inl is_left ↦
                                subst (λ (k : ℕ). AtMost compare_func heap left k) (sym is_left)
                                  (reflexive (at heap left))
                            | inr is_right ↦
                                subst (λ (k : ℕ). AtMost compare_func heap left k) (sym is_right)
                                  left_least
                          ])
                          r
                          (λ after s still sunk.
                            bubble_down-Settled fuel after left (omega (arith, s.width))
                              (omega (arith, s.width)) still sunk))
                      (λ right_less.
                        let right_least = ord.total (at heap left) (at heap right) right_less in
                        sink_step heap h right (λ s. bubble_down compare_func fuel s right)
                          (omega arith) inside_right (omega arith) plain
                          (λ i ipos iN e. elim (children h i ipos e) [
                            | inl is_left ↦
                                subst (λ (k : ℕ). AtMost compare_func heap right k) (sym is_left)
                                  right_least
                            | inr is_right ↦
                                subst (λ (k : ℕ). AtMost compare_func heap right k) (sym is_right)
                                  (reflexive (at heap right))
                          ])
                          r
                          (λ after s still sunk.
                            bubble_down-Settled fuel after right (omega (arith, s.width))
                              (omega (arith, s.width)) still sunk)))))))
