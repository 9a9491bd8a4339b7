-- ===== src/BinaryHeap/Keyed.antt =====
-- nt_binaryheap.c: the update and the removal of an element by its key, for the direct option.
use nt_shm.Common.{
  ℕ, ◌+◌, ◌-◌, ◌%◌, ◌^◌, some, ltb, ◌==◌, not, if◌then◌else◌, length, set, drop_last,
}
use nt_shm.Common.Run.{Run, ok, fault, exit_failure, ◌>>=◌, read}
use nt_shm.Hashmap.{call, nt_hashmap_get, nt_hashmap_remove}
use nt_shm.BinaryHeap.{Elem, BinaryHeap, has_direct, set_index, bubble_up, bubble_down}

-- An assignment `elems[i] = e`; a cell behind the live elements keeps no value.
unfoldable pub write : BinaryHeap → ℕ → Elem → Run BinaryHeap
write heap i e =
    if ltb i heap.elems_alloc then ok (record heap { elems = set heap.elems i e }) else fault

-- `(index = nt_hashmap_get(heap->key_index, key))` as an int
unfoldable pub index_of : BinaryHeap → ℕ → Run ℕ
index_of heap key = do
  key_index ← call heap.key_index
  value ← nt_hashmap_get key_index key
  ok (value % 2 ^ 32)

-- FAIL as an int
abbrev pub fail_u32 : ℕ
fail_u32 = 2 ^ 32 - 1

unfoldable pub nt_binary_heap_update_direct : BinaryHeap → Elem → Run BinaryHeap
unfolding index_of write bubble_up bubble_down
nt_binary_heap_update_direct heap elem = if not (has_direct heap) then exit_failure else do
  index ← index_of heap elem.key
  let found : Run BinaryHeap = do
    compare_func ← call heap.compare_func
    written ← write heap index elem
    (raised, stop) ← bubble_up compare_func (index + 1) written index
    let sunk : Run BinaryHeap =
        bubble_down compare_func (length heap.elems + 1) raised index >>= λ last. ok last.0
    if index == stop then sunk else ok raised
  if index == fail_u32 then exit_failure else found

-- Without elements the last one is elems[-1]: nt_binary_heap_remove_direct() from `if (index != (--heap->elems_num))`
unfoldable pub fill_index : BinaryHeap → ℕ → Run BinaryHeap
unfolding write bubble_up bubble_down set_index
fill_index heap index = do
  let num : ℕ = length heap.elems - 1
  let moved : Run BinaryHeap = do
    compare_func ← call heap.compare_func
    last ← read heap.elems num
    written ← write heap index last
    let shorter : BinaryHeap = record written { elems = drop_last written.elems }
    (raised, stop) ← bubble_up compare_func (index + 1) shorter index
    let sunk : Run BinaryHeap = do
      (settled, stop) ← bubble_down compare_func (num + 1) raised index
      let stays : Run BinaryHeap = read settled.elems index >>= λ e. set_index settled e.key index
      if index == stop then stays else ok settled
    if index == stop then sunk else ok raised
  if length heap.elems == 0
      then fault
      else if index == num
      then ok (record heap { elems = drop_last heap.elems })
      else moved

unfoldable pub nt_binary_heap_remove_direct : BinaryHeap → ℕ → Run BinaryHeap
unfolding index_of fill_index
nt_binary_heap_remove_direct heap key = if not (has_direct heap) then exit_failure else do
  index ← index_of heap key
  let found : Run BinaryHeap = do
    key_index ← call heap.key_index
    after ← nt_hashmap_remove key_index key
    fill_index (record heap { key_index = some after }) index
  if index == fail_u32 then exit_failure else found
