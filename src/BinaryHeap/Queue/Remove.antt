-- ===== src/BinaryHeap/Queue/Remove.antt =====
-- The least element of a heap without the direct option, and its removal.
use native.Mathlib.Decide.{ℕ_discrete}
use mathlib.Core.Path.{subst}
use nt_shm.Common.{
  ℕ, zero, suc, ◌+◌, ◌-◌, ◌<◌, ◌≡◌, refl, sym, ap, ◌∙◌, true, false, arith, ◌==◌, length, get_or,
  set, drop_last, length-set, length-drop_last, get_or-set, get_or-drop_last, eq_of_==, ne_of_==,
}
use nt_shm.Common.Run.{read-ok, Returns, returns, Returns-bind, Returns-if, Returns-read}
use nt_shm.Common.Weigh.{weigh, weigh-set, weigh-drop_last}
use nt_shm.Algo.Compare.{Comparison}
use nt_shm.BinaryHeap.{
  Elem, BinaryHeap, has_direct, is_le, fill_root, nt_binary_heap_find_min,
  nt_binary_heap_remove_min,
}
use nt_shm.BinaryHeap.Swap.{no_elem, at}
use nt_shm.BinaryHeap.Order.{IsOrder, parent, AtMost, Ordered, Sinking}
use nt_shm.BinaryHeap.Sift.{bubble_down-Settled, reflexive}
use nt_shm.BinaryHeap.Queue.{Returns-call, IsValid}

module _ (compare_func : Elem → Elem → Comparison) (ord : IsOrder compare_func) where
  -- In a valid heap that is not empty, the minimum is returned, and it is at most any element.
  pub find_min-least :
      (heap : BinaryHeap)
      → IsValid compare_func heap
      → 0 < length heap.elems
      → Returns
          (λ (least : Elem).
            (least ≡ at heap 0)
            × ((i : ℕ) → i < length heap.elems → is_le (compare_func least (at heap i)) ≡ true))
          (nt_binary_heap_find_min heap)
  unfolding nt_binary_heap_find_min
  find_min-least heap v some_live =
      let test : (0 == length heap.elems) ≡ false = ground arith in
      rw (test, read-ok heap.elems 0 no_elem some_live)
        (returns (refl, λ i lt. root_least (suc i) i (omega arith) lt))
    where
      root_least : (fuel i : ℕ) → i < fuel → i < length heap.elems → AtMost compare_func heap 0 i
      root_least zero i enough lt = absurd (omega arith)
      root_least (suc fuel) i enough lt = elim (ℕ_discrete i 0) [
        | yes root ↦
            subst (λ (k : ℕ). AtMost compare_func heap 0 k) (sym root)
              (reflexive compare_func ord (at heap 0))
        | no below ↦
            ord.transitive (at heap 0) (at heap (parent i)) (at heap i)
              (root_least fuel (parent i) (omega arith) (omega arith)) (v.order i (omega arith) lt)
      ]

  Sinking-replaced :
      (heap shorter : BinaryHeap) (last : Elem)
      → shorter.elems ≡ drop_last (set heap.elems 0 last)
      → 0 < length heap.elems
      → Ordered compare_func (length heap.elems) heap
      → Sinking compare_func (length shorter.elems) shorter 0
  Sinking-replaced heap shorter last cut some_live order =
      let full = set heap.elems 0 last in
      let width : length shorter.elems + 1 ≡ length heap.elems =
        omega (
          arith,
          ap (length {A = Elem}) cut,
          length-drop_last full,
          length-set heap.elems 0 last,
        ) in
      let old : (i : ℕ) → 0 < i → i < length shorter.elems → at shorter i ≡ at heap i =
        (λ i ipos lt.
          ap (λ es. get_or es i no_elem) cut
          ∙ get_or-drop_last full i no_elem (omega (arith, length-set heap.elems 0 last))
          ∙ get_or-set heap.elems 0 i last no_elem some_live
          ∙ ground arith) in
      record {
        ordered = λ i ipos iN off.
            rw (old (parent i) (omega arith) (omega arith), old i ipos iN)
              (order i ipos (omega arith));
        skips = λ c cpos cN under pos. absurd (omega arith);
      }

  -- What a removal of the minimum does to a heap.
  pub record Removed (heap after : BinaryHeap) : Type 0 where
    pub valid : IsValid compare_func after
    pub rest : (w : Elem → ℕ) → weigh w after.elems + w (at heap 0) ≡ weigh w heap.elems

  -- In a valid heap that is not empty, the call returns a valid heap that holds the old elements
  -- but for one occurrence of the minimum.
  pub remove_min-Removed :
      (heap : BinaryHeap)
      → IsValid compare_func heap
      → 0 < length heap.elems
      → Returns (Removed heap) (nt_binary_heap_remove_min heap)
  unfolding nt_binary_heap_remove_min fill_root
  remove_min-Removed heap v some_live =
      let es = heap.elems in
      let test : (0 == length es) ≡ false = ground arith in
      rw (test, v.plain)
        (Returns-if (0 == length es - 1)
          (λ single. returns (record {
            valid = record {
              called = v.called;
              plain = v.plain;
              room = omega (arith, length-drop_last es, v.room);
              order = λ i ipos lt. absurd (omega (arith, length-drop_last es, eq_of_== _ _ single));
            };
            rest = λ w. weigh-drop_last w es 0 no_elem (omega (arith, eq_of_== _ _ single));
          }))
          (λ several.
            let num = length es - 1 in
            let last = at heap num in
            let more : 0 < num = omega (arith, ne_of_== 0 num several) in
            let shorter : BinaryHeap = record heap { elems = drop_last (set es 0 last) } in
            let width : length shorter.elems ≡ num =
              omega (arith, length-drop_last (set es 0 last), length-set es 0 last) in
            let unmoved : get_or (set es 0 last) num no_elem ≡ last =
              get_or-set es 0 num last no_elem some_live ∙ ground arith in
            Returns-call _ heap.compare_func compare_func v.called (
              Returns-read _ es num no_elem (omega arith) (
                Returns-bind
                  (bubble_down-Settled compare_func ord (num + 1) shorter 0 (omega arith)
                    (omega arith) v.plain
                    (Sinking-replaced heap shorter last refl some_live v.order))
                  λ r (s, order).
                    let still : has_direct r.0 ≡ false = rw s.opts v.plain in
                    rw still (
                      returns (record {
                        valid = record {
                          called = s.func ∙ v.called;
                          plain = still;
                          room = omega (arith, s.width, s.alloc, v.room);
                          order = order;
                        };
                        rest = λ w. omega (
                          arith,
                          s.kept w,
                          weigh-drop_last w (set es 0 last) num no_elem
                              (omega (arith, length-set es 0 last)),
                          ap w unmoved,
                          weigh-set w es 0 last no_elem some_live,
                        );
                      }))))))
