-- ===== src/Hashset/Tests.antt =====
-- Runs of the hash set, and its theorems at concrete sets.
use mathlib.Core.Path.{subst}
use nt_shm.Common.{ℕ, ◌≡◌, refl, [], ◌∷◌, ◌++◌, true, false, some, ◌==◌, arith, ==_self}
use nt_shm.Common.Run.{ok, fault, exit_failure, ◌>>=◌, Returns, Returns-value}
use nt_shm.Algo.Primes.{next_prime, next_prime_of_size}
use nt_shm.Hashset.{
  Funcs, HashsetEntry, Hashset, Grants, nt_hashset_create, nt_hashset_create_ext, nt_hashset_insert,
  nt_hashset_insert_ext, nt_hashset_search, nt_hashset_remove, nt_hashset_init_slots,
  insert_located, search_chain, insert_new, grow_if_full, link_entry, move_slots, move_chain,
  nt_hashset_remove_direct, nt_hashset_clear, at_slot,
}
use nt_shm.Hashset.Refines.{IsHashset}
use nt_shm.Hashset.Grow.{IsFresh, create_ext-IsFresh}
use nt_shm.Hashset.Alike.{IsEquality, HasAt}
use nt_shm.Hashset.Insert.{Outcome, Outcome-IsHashset, insert_ext-Outcome}
use nt_shm.Hashset.Remove.{remove-HasAt}
use nt_shm.Hashset.Direct.{WithoutAt, remove_direct-WithoutAt}
use nt_shm.Hashset.Clear.{clear-IsFresh, refused_slots}
use nt_shm.Hashset.Iterate.{nt_hashset_iter_reset, nt_hashset_iter_remove}
use nt_shm.Hashset.Iterate.Visit.{visit, visit-reset, addrs, all_addrs, drop, iter_at}
use nt_shm.Hashset.Iterate.Erase.{Erased, iter_remove-Erased}

-- Numbers, hashed to their value
abbrev numbers : Funcs ℕ
numbers = record { hash = λ k. k; same = λ a b. a == b }

numbers-IsEquality : IsEquality numbers
numbers-IsEquality = record {
  same_self = λ x. ==_self x;
  same_sym = λ x y h. ground arith;
  same_trans = λ x y z h k. ground arith;
}

abbrev entry_of : ℕ → ℕ → HashsetEntry ℕ
entry_of addr k = record { addr = addr; hash = k; content = k }

abbrev granted : ℕ → Grants
granted a = record { gives_slots = true; gives_more = true; gives_entry = some a }

abbrev empty : Hashset ℕ
empty = record { slots = [] ∷ [] ∷ [] ∷ []; num_slots = 3; num_data = 0; funcs = some numbers }

abbrev one : Hashset ℕ
one = record {
  slots = [] ∷ (entry_of 1000 4 ∷ []) ∷ [] ∷ [];
  num_slots = 3;
  num_data = 1;
  funcs = some numbers;
}

abbrev two : Hashset ℕ
two = record {
  slots = [] ∷ [] ∷ (entry_of 2000 7 ∷ []) ∷ [] ∷ (entry_of 1000 4 ∷ []) ∷ [];
  num_slots = 5;
  num_data = 2;
  funcs = some numbers;
}

created : nt_hashset_create_ext 3 numbers (ok true) ≡ ok empty
unfolding nt_hashset_create_ext next_prime next_prime_of_size nt_hashset_init_slots
created = refl

first_insert : nt_hashset_insert_ext empty (granted 1000) 4 4 ≡ ok (one, 1000)
unfolding nt_hashset_insert_ext next_prime insert_located search_chain insert_new grow_if_full
    link_entry
first_insert = refl

-- The second entry makes the table grow to five slots.
second_insert : nt_hashset_insert_ext one (granted 2000) 7 7 ≡ ok (two, 2000)
unfolding nt_hashset_insert_ext next_prime insert_located search_chain insert_new grow_if_full
    link_entry move_slots move_chain
second_insert = refl

empty-IsHashset : IsHashset numbers empty
empty-IsHashset =
    (Returns-value empty (
      subst (Returns (IsFresh numbers 3)) created
        (create_ext-IsFresh numbers 3 (omega arith)))).valid

one-IsHashset : IsHashset numbers one
one-IsHashset = Outcome-IsHashset numbers empty one (granted 1000) 4 1000 (
    Returns-value (one, 1000)
      (subst (Returns (Outcome numbers empty (granted 1000) 4)) first_insert (
        insert_ext-Outcome numbers numbers-IsEquality (granted 1000) 4 4 (λ x. refl) empty
          empty-IsHashset (omega arith, refl) (λ e. refl) (omega arith))))

insert_ext-Outcome_example :
    Returns (Outcome numbers one (granted 2000) 7) (nt_hashset_insert_ext one (granted 2000) 7 7)
insert_ext-Outcome_example =
    insert_ext-Outcome numbers numbers-IsEquality (granted 2000) 7 7 (λ x. refl) one one-IsHashset
      (omega arith, refl) (λ e. refl) (omega arith)

two-IsHashset : IsHashset numbers two
two-IsHashset = Outcome-IsHashset numbers one two (granted 2000) 7 2000 (
    Returns-value (two, 2000)
      (subst (Returns (Outcome numbers one (granted 2000) 7)) second_insert
        insert_ext-Outcome_example))

remove-HasAt_example : Returns (HasAt numbers two 4 0) (nt_hashset_remove two 4)
remove-HasAt_example = remove-HasAt numbers two 4 numbers-IsEquality two-IsHashset

remove_direct-WithoutAt_example :
    Returns (WithoutAt numbers two 2000) (nt_hashset_remove_direct two 2000)
remove_direct-WithoutAt_example =
    remove_direct-WithoutAt numbers two 2000 two-IsHashset (omega arith)

clear-IsFresh_example :
    Returns (λ after. IsFresh numbers 5 after × (after.num_slots ≡ 5)) (nt_hashset_clear two)
clear-IsFresh_example = clear-IsFresh numbers two two-IsHashset

refused_slots_example :
    ((nt_hashset_create_ext 10 numbers (ok false) >>= λ hs. nt_hashset_search hs 4) ≡ fault)
    × ((nt_hashset_create_ext 10 numbers (ok false) >>= λ hs. nt_hashset_insert hs (granted 1000) 4)
        ≡ fault)
    × (nt_hashset_create 10 numbers false ≡ exit_failure)
refused_slots_example = refused_slots numbers 10 (granted 1000) 4 (omega arith) (omega arith)

visit-reset_example :
    visit 3 (nt_hashset_iter_reset two (iter_at two (at_slot 0) 0)) ≡ ok (all_addrs two.slots)
visit-reset_example = visit-reset numbers two (iter_at two (at_slot 0) 0) two-IsHashset

iter_remove-Erased_example :
    Returns
      (Erased numbers two two-IsHashset
        (entry_of 2000 7)
        (addrs {D = ℕ} [] ++ all_addrs (drop 3 two.slots)))
      (nt_hashset_iter_remove (iter_at two (at_slot 2) 2000))
iter_remove-Erased_example =
    iter_remove-Erased numbers two two-IsHashset 2 [] (entry_of 2000 7) [] (omega arith) refl
