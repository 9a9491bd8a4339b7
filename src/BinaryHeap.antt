-- ===== src/BinaryHeap.antt =====
-- nt_binaryheap.c: the binary heap in an array, with a hash map of the positions of the keys where
-- the heap has the direct option.
--
-- The array `elems` with its `elems_num` is the list of its live elements; `elems_alloc` is its
-- capacity, and 0 exactly where the pointer is NULL. `compare_func` stands for the four function
-- pointers, which are set together and cleared together. An allocation returns memory or ends the
-- process. An index is a number; it does not reach 2 ^ 31. A read behind the live elements is a
-- fault.
pub mod Keyed
pub mod Swap
pub mod Order
pub mod Sift
pub mod Queue
pub mod Direct
mod Tests
use nt_shm.Common.{
  ℕ, zero, suc, ◌+◌, ◌-◌, ◌*◌, ◌/◌, ◌%◌, ◌^◌, List, [], ◌∷◌, ◌++◌, Option, none, some, Bool, true,
  false, ltb, leb, ◌==◌, ◌&&◌, not, if◌then◌else◌, length, set, drop_last,
}
use nt_shm.Common.Run.{Run, ok, fault, exit_failure, out_of_fuel, ◌>>=◌, read}
use nt_shm.Algo.Compare.{Comparison, less, equal, greater}
use nt_shm.Algo.Hash.{nt_default_uint64_hash_func}
use nt_shm.Hashmap.{
  HashMap, call, nt_hashmap_create_ext, nt_hashmap_get, nt_hashmap_set, nt_hashmap_remove,
  nt_hashmap_clear,
}

pub record Elem : Type 0 where
  pub key : ℕ
  pub data_ptr : ℕ

pub record BinaryHeap : Type 0 where
  pub elems : List Elem
  pub elems_alloc : ℕ
  pub options : ℕ
  pub compare_func : Option (Elem → Elem → Comparison)
  pub key_index : Option HashMap

-- The bit NT_BINARY_HEAP_OPTION_DIRECT
abbrev pub has_direct : BinaryHeap → Bool
has_direct heap = heap.options % 2 == 1

-- `compare_func(...) <= 0`
abbrev pub is_le : Comparison → Bool
is_le less = true
is_le equal = true
is_le greater = false

-- FAIL, converted to the unsigned 64-bit type that nt_hashmap_get() returns
abbrev pub fail_u64 : ℕ
fail_u64 = 2 ^ 64 - 1

-- A call of nt_hashmap_set() on the index of the heap
unfoldable pub set_index : BinaryHeap → ℕ → ℕ → Run BinaryHeap
set_index heap key index = do
  key_index ← call heap.key_index
  after ← nt_hashmap_set key_index key index
  ok (record heap { key_index = some after })

unfoldable pub swap : BinaryHeap → ℕ → ℕ → Run BinaryHeap
unfolding set_index
swap heap index_1 index_2 = do
  elem_1 ← read heap.elems index_1
  elem_2 ← read heap.elems index_2
  let swapped : BinaryHeap = record heap {
    elems = set (set heap.elems index_1 elem_2) index_2 elem_1;
  }
  let indexed : Run BinaryHeap =
      set_index swapped elem_2.key index_1 >>= λ half. set_index half elem_1.key index_2
  if has_direct heap then indexed else ok swapped

unfoldable pub ensure_free_space : BinaryHeap → BinaryHeap
ensure_free_space heap =
    let grown : ℕ = heap.elems_alloc * 3 / 2 in
    let more : ℕ = if ltb grown (heap.elems_alloc + 1) then heap.elems_alloc + 1 else grown in
    let tmp : ℕ = if length heap.elems == heap.elems_alloc then more else heap.elems_alloc in
    if heap.elems_alloc == 0
    then record heap { elems = []; elems_alloc = 32 }
    else if length heap.elems == tmp
    then heap
    else record heap { elems_alloc = tmp }

-- The loop, with the index that it returns
unfoldable pub bubble_up : (Elem → Elem → Comparison) → ℕ → BinaryHeap → ℕ → Run (BinaryHeap × ℕ)
unfolding swap
bubble_up compare_func zero heap index = out_of_fuel
bubble_up compare_func (suc fuel) heap index = if index == 0 then ok (heap, index) else do
  above ← read heap.elems ((index - 1) / 2)
  here ← read heap.elems index
  let climb : Run (BinaryHeap × ℕ) = swap heap ((index - 1) / 2) index >>= λ swapped.
      bubble_up compare_func fuel swapped ((index - 1) / 2)
  if is_le (compare_func above here) then ok (heap, index) else climb

unfoldable pub bubble_down : (Elem → Elem → Comparison) → ℕ → BinaryHeap → ℕ → Run (BinaryHeap × ℕ)
unfolding swap
bubble_down compare_func zero heap index = out_of_fuel
bubble_down compare_func (suc fuel) heap index =
    let left : ℕ = 2 * index + 1 in
    let right : ℕ = 2 * index + 2 in
    let last : Run (BinaryHeap × ℕ) = do
      here ← read heap.elems index
      at_left ← read heap.elems left
      let move : Run (BinaryHeap × ℕ) = swap heap index left >>= λ swapped. ok (swapped, left)
      if is_le (compare_func here at_left) then ok (heap, index) else move
    in let both : Run (BinaryHeap × ℕ) = do
      here ← read heap.elems index
      at_left ← read heap.elems left
      at_right ← read heap.elems right
      let sink : ℕ → Run (BinaryHeap × ℕ) =
          λ child. swap heap index child >>= λ swapped. bubble_down compare_func fuel swapped child
      if is_le (compare_func at_left at_right)
          then (if is_le (compare_func here at_left) then ok (heap, index) else sink left)
          else (if is_le (compare_func here at_right) then ok (heap, index) else sink right)
      in if leb (length heap.elems) left
        then ok (heap, index)
        else if leb (length heap.elems) right
        then last
        else both

unfoldable pub nt_binary_heap_create_ext : (Elem → Elem → Comparison) → ℕ → Run BinaryHeap
nt_binary_heap_create_ext compare_func options = do
  let heap : BinaryHeap = record {
    elems = [];
    elems_alloc = 0;
    options = options;
    compare_func = some compare_func;
    key_index = none;
  }
  let indexed : Run BinaryHeap = nt_hashmap_create_ext 512 nt_default_uint64_hash_func >>= λ hm.
      ok (record heap { key_index = some hm })
  if has_direct heap then indexed else ok heap

unfoldable pub nt_binary_heap_destroy : BinaryHeap → BinaryHeap
nt_binary_heap_destroy heap =
    let gone : BinaryHeap = record heap { elems = []; elems_alloc = 0; compare_func = none } in
    if has_direct heap then record gone { key_index = none; options = 0 } else gone

-- SUCCEED is `true`.
unfoldable pub nt_binary_heap_empty : BinaryHeap → Bool
nt_binary_heap_empty heap = 0 == length heap.elems

-- The element that the returned pointer points to
unfoldable pub nt_binary_heap_find_min : BinaryHeap → Run Elem
nt_binary_heap_find_min heap = if 0 == length heap.elems then exit_failure else read heap.elems 0

-- The test `FAIL != nt_hashmap_get(heap->key_index, key)`
unfoldable pub is_indexed : BinaryHeap → ℕ → Run Bool
is_indexed heap key = do
  key_index ← call heap.key_index
  value ← nt_hashmap_get key_index key
  ok (not (value == fail_u64))

-- `index = heap->elems_num++; heap->elems[index] = *elem`
unfoldable pub put_elem : BinaryHeap → Elem → Run BinaryHeap
put_elem heap elem =
    if ltb (length heap.elems) heap.elems_alloc
    then ok (record heap { elems = heap.elems ++ elem ∷ [] })
    else fault

-- What nt_binary_heap_insert() does after the test for a duplicate
unfoldable pub place : BinaryHeap → Elem → Run BinaryHeap
unfolding ensure_free_space put_elem bubble_up set_index
place heap elem = do
  compare_func ← call heap.compare_func
  let ready = ensure_free_space heap
  let index : ℕ = length ready.elems
  added ← put_elem ready elem
  (raised, stop) ← bubble_up compare_func (index + 1) added index
  if has_direct raised && (stop == length raised.elems - 1)
      then set_index raised elem.key stop
      else ok raised

unfoldable pub nt_binary_heap_insert : BinaryHeap → Elem → Run BinaryHeap
unfolding is_indexed place
nt_binary_heap_insert heap elem =
    let tested : Run BinaryHeap = is_indexed heap elem.key >>= λ duplicate.
    if duplicate then exit_failure else place heap elem in
    if has_direct heap then tested else place heap elem

-- nt_binary_heap_remove_min() from `if (0 != (--heap->elems_num))`
unfoldable pub fill_root : BinaryHeap → Run BinaryHeap
unfolding bubble_down set_index
fill_root heap = do
  let num : ℕ = length heap.elems - 1
  let moved : Run BinaryHeap = do
    compare_func ← call heap.compare_func
    last ← read heap.elems num
    let shorter : BinaryHeap = record heap { elems = drop_last (set heap.elems 0 last) }
    (sunk, index) ← bubble_down compare_func (num + 1) shorter 0
    let root : Run BinaryHeap = read sunk.elems index >>= λ e. set_index sunk e.key index
    if has_direct sunk && (index == 0) then root else ok sunk
  if 0 == num then ok (record heap { elems = drop_last heap.elems }) else moved

unfoldable pub nt_binary_heap_remove_min : BinaryHeap → Run BinaryHeap
unfolding fill_root
nt_binary_heap_remove_min heap =
    let unindexed : Run BinaryHeap = do
      least ← read heap.elems 0
      key_index ← call heap.key_index
      after ← nt_hashmap_remove key_index least.key
      fill_root (record heap { key_index = some after })
    in if 0 == length heap.elems
      then exit_failure
      else if has_direct heap
      then unindexed
      else fill_root heap

unfoldable pub nt_binary_heap_clear : BinaryHeap → Run BinaryHeap
nt_binary_heap_clear heap =
    let emptied : BinaryHeap = record heap { elems = []; elems_alloc = 0 } in
    let indexed : Run BinaryHeap = call heap.key_index >>= λ hm.
    ok (record emptied { key_index = some (nt_hashmap_clear hm) }) in
    if has_direct heap then indexed else ok emptied
