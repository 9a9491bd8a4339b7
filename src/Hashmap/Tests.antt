-- ===== src/Hashmap/Tests.antt =====
-- Runs of the hash map, and its theorems at concrete tables.
use mathlib.Core.Path.{subst}
use nt_shm.Common.{
  ℕ, ◌+◌, ◌*◌, ◌^◌, ◌≡◌, refl, List, [], ◌∷◌, none, some, ◌==◌, arith, if◌then◌else◌,
}
use nt_shm.Common.Run.{Run, ok, ◌>>=◌, Returns, Returns-value}
use nt_shm.Hashmap.{
  HashMap, empty_slot, nt_hashmap_create_ext, nt_hashmap_get, nt_hashmap_set, nt_hashmap_remove,
  nt_hashmap_clear, grow_if_loaded,
}
use nt_shm.Algo.Primes.{next_prime, next_prime_of_size}
use nt_shm.Algo.Primes.Least.{Fits}
use nt_shm.Hashmap.Refines.{IsValid, view, get-view, or_zero}
use nt_shm.Hashmap.Grow.{IsEmpty, create_ext-IsEmpty, create_ext-add, Same, grow-IsValid}
use nt_shm.Hashmap.Update.{Models, update, set-Models}
use nt_shm.Hashmap.Remove.{remove-Models, get-changed, clear-IsEmpty}

-- MurmurHash64A of "127.0.0.1"
abbrev localhost : List ℕ
localhost = 49 ∷ 50 ∷ 55 ∷ 46 ∷ 48 ∷ 46 ∷ 48 ∷ 46 ∷ 49 ∷ []

-- Keys are hashed to their value.
abbrev session : Run (ℕ × ℕ × ℕ × ℕ)
session = do
  m0 ← nt_hashmap_create_ext 1 (λ k. k)
  m1 ← nt_hashmap_set m0 1 10
  m2 ← nt_hashmap_set m1 3 30
  m3 ← nt_hashmap_set m2 5 50
  m4 ← nt_hashmap_set m3 7 70
  m5 ← nt_hashmap_set m4 2 20
  m6 ← nt_hashmap_set m5 9 90
  m7 ← nt_hashmap_set m6 8 80
  m8 ← nt_hashmap_set m7 4 40
  m9 ← nt_hashmap_set m8 6 60
  m10 ← nt_hashmap_set m9 11 110
  m11 ← nt_hashmap_remove m10 5
  seven ← nt_hashmap_get m11 7
  five ← nt_hashmap_get m11 5
  ok (m11.num_slots, m11.num_data, seven, five)

-- Two slots grow to three at the tenth entry.
session_result : session ≡ ok (3, 9, 70, 0)
unfolding nt_hashmap_create_ext nt_hashmap_get nt_hashmap_set nt_hashmap_remove next_prime
    next_prime_of_size
session_result = refl

abbrev identity : ℕ → ℕ
identity key = key

create_ext-IsEmpty_example :
    Returns
      (λ (fresh : HashMap). IsEmpty identity fresh × Fits 1 fresh.num_slots)
      (nt_hashmap_create_ext 1 identity)
create_ext-IsEmpty_example = create_ext-IsEmpty identity 1 (omega arith)

abbrev fresh : HashMap
fresh = record {
  slots = empty_slot ∷ empty_slot ∷ [];
  num_slots = 2;
  num_data = 0;
  hash_func = some identity;
}

created : nt_hashmap_create_ext 1 identity ≡ ok fresh
unfolding nt_hashmap_create_ext next_prime next_prime_of_size
created = refl

fresh-IsValid : IsValid identity fresh
fresh-IsValid =
    (Returns-value fresh (
      subst (Returns (λ (hm : HashMap). IsEmpty identity hm × Fits 1 hm.num_slots)) created
        create_ext-IsEmpty_example)).0.valid

-- 2 ^ 32 + 1 slots are asked for, and the table of one slot is made.
create_ext-add_example :
    nt_hashmap_create_ext (2 ^ 32 * 1 + 1) identity ≡ nt_hashmap_create_ext 1 identity
create_ext-add_example = create_ext-add identity 1 1 (omega arith)

set-Models_example :
    Returns
      (Models identity (update identity (view identity fresh) 5 (some 50)))
      (nt_hashmap_set fresh 5 50)
set-Models_example = set-Models identity fresh 5 50 fresh-IsValid (omega arith)

-- A table with one entry.
abbrev sample : HashMap
sample = record {
  slots =
      empty_slot ∷ record { entries = record { key = 5; value = 50 } ∷ []; entries_alloc = 6 } ∷ [];
  num_slots = 2;
  num_data = 1;
  hash_func = some identity;
}

stored : nt_hashmap_set fresh 5 50 ≡ ok sample
unfolding nt_hashmap_set
stored = refl

sample-IsValid : IsValid identity sample
sample-IsValid =
    (Returns-value sample (
      subst (Returns (Models identity (update identity (view identity fresh) 5 (some 50)))) stored
        set-Models_example)).valid

get-view_example : nt_hashmap_get sample 5 ≡ ok (or_zero (view identity sample 5))
get-view_example = get-view identity sample sample-IsValid 5

get-changed_example :
    ((nt_hashmap_set sample 7 70 >>= λ after. nt_hashmap_get after 7)
      ≡ (if 7 == 7 then ok 70 else nt_hashmap_get sample 7))
    × ((nt_hashmap_remove sample 7 >>= λ after. nt_hashmap_get after 7)
        ≡ (if 7 == 7 then ok 0 else nt_hashmap_get sample 7))
get-changed_example = get-changed identity sample 7 70 7 sample-IsValid (omega arith)

remove-Models_example :
    Returns
      (Models identity (update identity (view identity sample) 5 none))
      (nt_hashmap_remove sample 5)
remove-Models_example = remove-Models identity sample 5 sample-IsValid

clear-IsEmpty_example :
    IsEmpty identity (nt_hashmap_clear sample)
    × ((nt_hashmap_clear sample).num_slots ≡ sample.num_slots)
clear-IsEmpty_example = clear-IsEmpty identity sample sample-IsValid

grow-IsValid_example : Returns (Same identity sample) (grow_if_loaded sample)
grow-IsValid_example =
    grow-IsValid identity sample
      (record {
        called = sample-IsValid.called;
        width = sample-IsValid.width;
        counted = sample-IsValid.counted;
        room = sample-IsValid.room;
        placed = sample-IsValid.placed;
        unique = sample-IsValid.unique;
        size = sample-IsValid.size;
        load = λ ne. omega (arith, sample-IsValid.load ne);
      })
      (omega arith) (omega arith)
