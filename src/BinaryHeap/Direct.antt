-- ===== src/BinaryHeap/Direct.antt =====
-- The duplicate test of an insertion into a heap with the direct option.
use nt_shm.Common.{
  ℕ, ◌≡◌, ◌≢◌, inl, inr, refl, ap, ◌∙◌, some, true, false, arith, ◌==◌, Option-cases,
}
use nt_shm.Common.Run.{exit_failure}
use nt_shm.Hashmap.{HashMap}
use nt_shm.Hashmap.Refines.{IsValid, view, get-view, or_zero}
use nt_shm.BinaryHeap.{Elem, BinaryHeap, has_direct, fail_u64, is_indexed, nt_binary_heap_insert}

-- The hash map answers a missing key by 0, not by FAIL: on a heap with the direct option and a
-- valid index that does not hold 2 ^ 64 - 1 under the key, every insertion ends the process.
pub direct_insert-exits :
    (hash_func : ℕ → ℕ) (hm : HashMap) (heap : BinaryHeap) (e : Elem)
    → has_direct heap ≡ true
    → heap.key_index ≡ some hm
    → IsValid hash_func hm
    → view hash_func hm e.key ≢ some fail_u64
    → nt_binary_heap_insert heap e ≡ exit_failure
unfolding nt_binary_heap_insert is_indexed
direct_insert-exits hash_func hm heap e direct index v other =
    let test : (or_zero (view hash_func hm e.key) == fail_u64) ≡ false =
      elim (Option-cases (view hash_func hm e.key)) [
        | inl nothing ↦ rw nothing refl
        | inr (x, found) ↦
            let differs : x ≢ fail_u64 = (λ same. other (found ∙ ap some same)) in
            rw found (ground arith)
      ] in
    rw (direct, index, get-view hash_func hm v e.key, test) refl
