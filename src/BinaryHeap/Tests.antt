-- ===== src/BinaryHeap/Tests.antt =====
-- Runs of the binary heap, and its theorems at concrete heaps.
use nt_shm.Common.{ℕ, ◌≡◌, refl, ◌+◌, ◌<◌, List, [], ◌∷◌, some, true, arith, length}
use nt_shm.Common.Run.{Run, ok, exit_failure, ◌>>=◌, Returns, Returns-inv}
use nt_shm.Common.Weigh.{weigh}
use nt_shm.Algo.Compare.{Comparison, nt_default_uint64_compare_func}
use nt_shm.Algo.Hash.{nt_default_uint64_hash_func}
use nt_shm.Hashmap.{HashMap}
use nt_shm.Hashmap.Grow.{create_ext-IsEmpty}
use nt_shm.BinaryHeap.{
  Elem, BinaryHeap, is_le, nt_binary_heap_create_ext, nt_binary_heap_insert,
  nt_binary_heap_find_min, nt_binary_heap_remove_min,
}
use nt_shm.BinaryHeap.Swap.{at}
use nt_shm.BinaryHeap.Order.{IsOrder}
use nt_shm.BinaryHeap.Queue.{IsValid, insert-IsValid, heap_create-IsValid}
use nt_shm.BinaryHeap.Queue.Remove.{find_min-least, Removed, remove_min-Removed}
use nt_shm.BinaryHeap.Direct.{direct_insert-exits}

-- Elements compared by their keys.
abbrev by_key : Elem → Elem → Comparison
by_key a b = nt_default_uint64_compare_func a.key b.key

by_key-IsOrder : IsOrder by_key
unfolding nt_default_uint64_compare_func
by_key-IsOrder = record { total = λ a b h. ground arith; transitive = λ a b c h k. ground arith }

abbrev elem : ℕ → Elem
elem key = record { key = key; data_ptr = 0 }

abbrev smallest_two : Run (ℕ × ℕ)
smallest_two = do
  h0 ← nt_binary_heap_create_ext by_key 0
  h1 ← nt_binary_heap_insert h0 (elem 5)
  h2 ← nt_binary_heap_insert h1 (elem 2)
  h3 ← nt_binary_heap_insert h2 (elem 9)
  h4 ← nt_binary_heap_insert h3 (elem 1)
  first ← nt_binary_heap_find_min h4
  h5 ← nt_binary_heap_remove_min h4
  second ← nt_binary_heap_find_min h5
  ok (first.key, second.key)

smallest_two_result : smallest_two ≡ ok (1, 2)
unfolding nt_binary_heap_create_ext nt_binary_heap_insert nt_binary_heap_remove_min
    nt_binary_heap_find_min nt_default_uint64_compare_func
smallest_two_result = refl

plain_create :
    Returns
      (λ (heap : BinaryHeap). IsValid by_key heap × (heap.elems ≡ []))
      (nt_binary_heap_create_ext by_key 0)
plain_create = heap_create-IsValid by_key 0 (omega arith)

abbrev created : BinaryHeap
created = (Returns-inv plain_create).0

created-IsValid : IsValid by_key created
created-IsValid = (Returns-inv plain_create).2.0

insert-IsValid_example :
    Returns
      (λ (after : BinaryHeap).
        IsValid by_key after
        × ((w : Elem → ℕ) → weigh w after.elems ≡ weigh w created.elems + w (elem 5)))
      (nt_binary_heap_insert created (elem 5))
insert-IsValid_example = insert-IsValid by_key by_key-IsOrder created (elem 5) created-IsValid

abbrev one_live : BinaryHeap
one_live = (Returns-inv insert-IsValid_example).0

one_live-IsValid : IsValid by_key one_live
one_live-IsValid = (Returns-inv insert-IsValid_example).2.0

length-positive : (es : List Elem) → 0 < weigh (λ _. 1) es → 0 < length es
length-positive [] h = h
length-positive (e ∷ es) h = omega arith

one_live-live : 0 < length one_live.elems
one_live-live =
    length-positive one_live.elems
      (omega (arith, (Returns-inv insert-IsValid_example).2.1 (λ _. 1)))

find_min-least_example :
    Returns
      (λ (least : Elem).
        (least ≡ at one_live 0)
        × ((i : ℕ) → i < length one_live.elems → is_le (by_key least (at one_live i)) ≡ true))
      (nt_binary_heap_find_min one_live)
find_min-least_example =
    find_min-least by_key by_key-IsOrder one_live one_live-IsValid one_live-live

remove_min-Removed_example :
    Returns (Removed by_key by_key-IsOrder one_live) (nt_binary_heap_remove_min one_live)
remove_min-Removed_example =
    remove_min-Removed by_key by_key-IsOrder one_live one_live-IsValid one_live-live

abbrev index : HashMap
index = (Returns-inv (create_ext-IsEmpty nt_default_uint64_hash_func 512 (omega arith))).0

abbrev direct_heap : BinaryHeap
direct_heap = record {
  elems = [];
  elems_alloc = 0;
  options = 1;
  compare_func = some by_key;
  key_index = some index;
}

direct_insert-exits_example : nt_binary_heap_insert direct_heap (elem 5) ≡ exit_failure
direct_insert-exits_example =
    direct_insert-exits nt_default_uint64_hash_func index direct_heap (elem 5) refl refl
      (Returns-inv (create_ext-IsEmpty nt_default_uint64_hash_func 512 (omega arith))).2.0.valid
      (λ found.
        let nothing =
          (Returns-inv
              (create_ext-IsEmpty nt_default_uint64_hash_func 512 (omega arith))).2.0.nothing
            5 in
        ground arith)
