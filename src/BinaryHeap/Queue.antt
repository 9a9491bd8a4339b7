-- ===== src/BinaryHeap/Queue.antt =====
-- Valid heaps without the direct option, their creation, and insertion into them.
pub mod Remove
use native.Mathlib.Decide.{ℕ_discrete}
use mathlib.Core.Path.{subst}
use nt_shm.Common.{
  ℕ, zero, suc, ◌+◌, ◌-◌, ◌*◌, ◌/◌, ◌%◌, ◌<◌, ◌≤◌, ◌≡◌, ◌≢◌, ◌⊎◌, inl, inr, refl, sym, ap, ◌∙◌,
  List, [], ◌∷◌, ◌++◌, Option, some, true, false, arith, ltb, leb, ◌==◌, ◌&&◌, if◌then◌else◌,
  length, get_or, set, drop_last, length-append, length-set, length-drop_last, get_or-append_left,
  get_or-append_last, get_or-set, get_or-drop_last, Bool-cases, eq_of_==, ne_of_==,
}
use nt_shm.Common.Run.{
  Run, ok, exit_failure, ◌>>=◌, read, read-ok, Returns, returns, Returns-bind, Returns-if,
  Returns-map, Returns-read,
}
use nt_shm.Common.Weigh.{weigh, weigh-append, weigh-set, weigh-drop_last}
use nt_shm.Hashmap.{call}
use nt_shm.Algo.Compare.{Comparison}
use nt_shm.BinaryHeap.{
  Elem, BinaryHeap, has_direct, is_le, ensure_free_space, put_elem, place, fill_root,
  nt_binary_heap_create_ext, nt_binary_heap_insert, nt_binary_heap_find_min,
  nt_binary_heap_remove_min,
}
use nt_shm.BinaryHeap.Swap.{no_elem, at, Shuffled}
use nt_shm.BinaryHeap.Order.{IsOrder, parent, AtMost, Ordered, Rising, Sinking}
use nt_shm.BinaryHeap.Sift.{bubble_up-Settled, bubble_down-Settled, reflexive}

pub Returns-call {ℓ κ μ} :
    {F : Type ℓ} {B : Type κ} {Good : B → Type μ} (rest : F → Run B) (o : Option F) (f : F)
    → o ≡ some f
    → Returns Good (rest f)
    → Returns Good (call o >>= rest)
Returns-call {Good} rest o f e r = subst (λ p. Returns Good (call p >>= rest)) (sym e) r

-- What __binary_heap_ensure_free_space() leaves: the same elements, and a free cell.
record Roomy (heap ready : BinaryHeap) : Type 0 where
  elems : ready.elems ≡ heap.elems
  opts : ready.options ≡ heap.options
  func : ready.compare_func ≡ heap.compare_func
  free : length heap.elems < ready.elems_alloc

empty_of : (elems : List Elem) → length elems ≤ 0 → [] ≡ elems
empty_of [] h = refl
empty_of (e ∷ es) h = absurd (omega arith)

-- The number of cells that __binary_heap_ensure_free_space() asks for, if there are some.
abbrev tmp_alloc : BinaryHeap → ℕ
tmp_alloc heap =
    let grown : ℕ = heap.elems_alloc * 3 / 2 in
    let more : ℕ = if ltb grown (heap.elems_alloc + 1) then heap.elems_alloc + 1 else grown in
    if length heap.elems == heap.elems_alloc then more else heap.elems_alloc

tmp_alloc-free :
    (heap : BinaryHeap) → length heap.elems ≤ heap.elems_alloc → length heap.elems < tmp_alloc heap
tmp_alloc-free heap room = ground arith

ensure_free_space-Roomy :
    (heap : BinaryHeap) → length heap.elems ≤ heap.elems_alloc → Roomy heap (ensure_free_space heap)
unfolding ensure_free_space
ensure_free_space-Roomy heap room = elim (Bool-cases (heap.elems_alloc == 0)) [
  | inl null ↦
      let none_live : length heap.elems ≤ 0 = omega (arith, eq_of_== _ _ null) in
      rw null (record {
        elems = empty_of heap.elems none_live;
        opts = refl;
        func = refl;
        free = omega arith;
      })
  | inr some_cells ↦ rw some_cells (elim (Bool-cases (length heap.elems == tmp_alloc heap)) [
    | inl never ↦ absurd (omega (arith, tmp_alloc-free heap room, eq_of_== _ _ never))
    | inr resized ↦
        rw resized
          (record { elems = refl; opts = refl; func = refl; free = tmp_alloc-free heap room })
  ])
]

put_elem-ok :
    (heap : BinaryHeap) (e : Elem)
    → length heap.elems < heap.elems_alloc
    → put_elem heap e ≡ ok (record heap { elems = heap.elems ++ e ∷ [] })
unfolding put_elem
put_elem-ok heap e free =
    let test : ltb (length heap.elems) heap.elems_alloc ≡ true = ground arith in rw test refl

module _ (compare_func : Elem → Elem → Comparison) where
  -- A heap in order whose elements fit, without the direct option.
  pub record IsValid (heap : BinaryHeap) : Type 0 where
    pub called : heap.compare_func ≡ some compare_func
    pub plain : has_direct heap ≡ false
    pub room : length heap.elems ≤ heap.elems_alloc
    pub order : Ordered compare_func (length heap.elems) heap

  -- An added element leaves a gap at its own index n.
  Rising-added :
      (heap added : BinaryHeap) (e : Elem) (n : ℕ)
      → added.elems ≡ heap.elems ++ e ∷ []
      → n ≡ length heap.elems
      → Ordered compare_func (length heap.elems) heap
      → Rising compare_func (length added.elems) added n
  Rising-added heap added e n added_elems at_end order =
      let width : length added.elems ≡ length heap.elems + 1 =
        ap (length {A = Elem}) added_elems ∙ length-append heap.elems (e ∷ []) in
      let old : (i : ℕ) → i < length heap.elems → at added i ≡ at heap i = (λ i lt.
        ap (λ es. get_or es i no_elem) added_elems
        ∙ get_or-append_left heap.elems (e ∷ []) i no_elem lt) in
      record {
        ordered = λ i ipos iN ne.
            let lt : i < length heap.elems = omega arith in
            rw (old (parent i) (omega arith), old i lt) (order i ipos lt);
        skips = λ c cpos cN under pos. absurd (omega (arith, under));
      }

  module _ (ord : IsOrder compare_func) where
    -- For a valid heap and any element, the call returns a valid heap that holds the old elements
    -- and the new one, each as often.
    pub insert-IsValid :
        (heap : BinaryHeap) (e : Elem)
        → IsValid heap
        → Returns
            (λ (after : BinaryHeap).
              IsValid after × ((w : Elem → ℕ) → weigh w after.elems ≡ weigh w heap.elems + w e))
            (nt_binary_heap_insert heap e)
    unfolding nt_binary_heap_insert place
    insert-IsValid heap e v = rw v.plain (
        Returns-call _ heap.compare_func compare_func v.called (
          let ready = ensure_free_space heap in
          let ro = ensure_free_space-Roomy heap v.room in
          let added : BinaryHeap = record ready { elems = ready.elems ++ e ∷ [] } in
          let width : length ready.elems ≡ length heap.elems = ap (length {A = Elem}) ro.elems in
          let added_width : length added.elems ≡ length ready.elems + 1 =
            length-append ready.elems (e ∷ []) in
          let plain : has_direct added ≡ false = rw ro.opts v.plain in
          rw (put_elem-ok ready e (omega (arith, ro.free))) (
            Returns-bind
              (bubble_up-Settled compare_func ord (length ready.elems + 1) added
                (length ready.elems) (omega arith) (omega arith) plain
                (Rising-added heap added e (length ready.elems) (ap (λ es. es ++ e ∷ []) ro.elems)
                  width v.order))
              λ r (s, order).
                let still : has_direct r.0 ≡ false = rw s.opts plain in
                rw still (
                  returns (
                    record {
                      called = s.func ∙ ro.func ∙ v.called;
                      plain = still;
                      room = omega (arith, s.width, s.alloc, ro.free);
                      order = order;
                    },
                    λ w. omega (
                      arith,
                      s.kept w,
                      weigh-append w ready.elems (e ∷ []),
                      ap (weigh w) ro.elems,
                    ),
                  )))))

  -- A heap created without the direct option is valid and empty.
  pub heap_create-IsValid :
      (options : ℕ)
      → options % 2 ≡ 0
      → Returns
          (λ (heap : BinaryHeap). IsValid heap × (heap.elems ≡ []))
          (nt_binary_heap_create_ext compare_func options)
  unfolding nt_binary_heap_create_ext
  heap_create-IsValid options even =
      let plain : (options % 2 == 1) ≡ false = ground arith in
      rw plain (
        returns (
          record {
            called = refl;
            plain = plain;
            room = omega arith;
            order = λ i ipos lt. absurd (omega arith);
          },
          refl,
        ))
