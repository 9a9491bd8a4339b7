-- ===== src/Hashmap.antt =====
-- nt_hashmap.c: the hash map from 64-bit keys to 64-bit values, chained in growing arrays.
--
-- An array `entries` with its `entries_num` is the list of its live entries; `entries_alloc` is its
-- capacity, and 0 exactly where the pointer is NULL. `hash_func` stands for the five function
-- pointers, which are set together and cleared together; the comparison that every caller passes,
-- NT_DEFAULT_UINT64_COMPARE_FUNC, is called directly. An allocation returns memory or ends the
-- process. A counter of type int is a number; it does not reach 2 ^ 31.
pub mod Contents
pub mod Rehash
pub mod Refines
pub mod Grow
pub mod Update
pub mod Remove
pub mod Strings
mod Tests
use nt_shm.Common.{
  ℕ, zero, suc, ◌+◌, ◌-◌, ◌*◌, ◌/◌, ◌%◌, List, [], ◌∷◌, ◌++◌, Option, none, some, ltb, leb, ◌==◌,
  if◌then◌else◌, length, set, replicate, drop_last,
}
use nt_shm.Common.Run.{Run, ok, fault, out_of_fuel, as_int, ◌>>=◌, read}
use nt_shm.Algo.Primes.{next_prime, next_prime_of_size}
use nt_shm.Algo.Compare.{nt_default_uint64_compare_func, is_equal}
use nt_shm.Algo.Hash.{nt_default_uint64_hash_func}

pub record Entry : Type 0 where
  pub key : ℕ
  pub value : ℕ

pub record Slot : Type 0 where
  pub entries : List Entry
  pub entries_alloc : ℕ

pub record HashMap : Type 0 where
  pub slots : List Slot
  pub num_slots : ℕ
  pub num_data : ℕ
  pub hash_func : Option (ℕ → ℕ)

-- A slot after memset(..., 0, ...).
abbrev pub empty_slot : Slot
empty_slot = record { entries = []; entries_alloc = 0 }

-- A call through a function pointer, NULL for `none`.
abbrev pub call {ℓ} : {F : Type ℓ} → Option F → Run F
call none = fault
call (some f) = ok f

-- __hashmap_ensure_free_entry()
unfoldable pub ensure_free_entry : Slot → Slot
ensure_free_entry slot =
    if slot.entries_alloc == 0
    then record { entries = []; entries_alloc = 6 }
    else if length slot.entries == slot.entries_alloc
    then record slot { entries_alloc = slot.entries_alloc * 2 }
    else slot

-- `slot->entries[slot->entries_num] = e; slot->entries_num++`
unfoldable pub put_entry : Slot → Entry → Run Slot
put_entry slot e =
    if ltb (length slot.entries) slot.entries_alloc
    then ok (record slot { entries = slot.entries ++ e ∷ [] })
    else fault

-- `entries[i] = entries[entries_num - 1]; entries_num--`
unfoldable pub take_out : Slot → ℕ → Run Slot
take_out slot i = do
  last ← read slot.entries (length slot.entries - 1)
  ok (record slot { entries = drop_last (set slot.entries i last) })

unfoldable pub nt_hashmap_init_slots : HashMap → ℕ → Run HashMap
nt_hashmap_init_slots hm init_size =
    if ltb 0 init_size
    then (do
      num_slots ← next_prime_of_size init_size
      _ ← call hm.hash_func
      ok (record hm {
        slots = replicate num_slots empty_slot;
        num_slots = num_slots;
        num_data = 0;
      }))
    else ok (record hm { slots = []; num_slots = 0; num_data = 0 })

-- Before it the structure is not initialised.
unfoldable pub nt_hashmap_create_ext : ℕ → (ℕ → ℕ) → Run HashMap
unfolding nt_hashmap_init_slots
nt_hashmap_create_ext init_size hash_func =
    nt_hashmap_init_slots
      (record { slots = []; num_slots = 0; num_data = 0; hash_func = some hash_func }) init_size

unfoldable pub nt_hashmap_create : ℕ → Run HashMap
unfolding nt_hashmap_create_ext nt_default_uint64_hash_func
nt_hashmap_create init_size = nt_hashmap_create_ext init_size nt_default_uint64_hash_func

unfoldable pub nt_hashmap_destroy : HashMap → HashMap
nt_hashmap_destroy hm = record { slots = []; num_slots = 0; num_data = 0; hash_func = none }

-- `for (i = 0; i < slot->entries_num; i++) if (0 == hm->compare_func(&slot->entries[i].key, &key))`
-- with a `break`, counted from i: the index at which the loop stops.
unfoldable pub find_entry : ℕ → List Entry → ℕ → ℕ
unfolding nt_default_uint64_compare_func
find_entry key [] i = i
find_entry key (e ∷ es) i =
    if is_equal (nt_default_uint64_compare_func e.key key) then i else find_entry key es (suc i)

-- `&hm->slots[hm->hash_func(&key) % hm->num_slots]`, as its index and its contents
unfoldable pub locate : HashMap → ℕ → Run (ℕ × Slot)
locate hm key = do
  hash_func ← call hm.hash_func
  let index = hash_func key % hm.num_slots
  slot ← read hm.slots index
  ok (index, slot)

unfoldable pub nt_hashmap_get : HashMap → ℕ → Run ℕ
unfolding locate find_entry
nt_hashmap_get hm key = if hm.num_slots == 0 then ok 0 else do
  (_, slot) ← locate hm key
  let i = find_entry key slot.entries 0
  if i == length slot.entries then ok 0 else read slot.entries i >>= λ e. ok e.value

-- The body of the innermost `if (slot != new_slot)` of nt_hashmap_set(): entry i of slot s moves to
-- slot `target`, and the last entry takes its place.
unfoldable pub move_entry : List Slot → ℕ → ℕ → ℕ → Entry → Run (List Slot)
unfolding put_entry ensure_free_entry take_out
move_entry slots s i target e = do
  new_slot ← read slots target
  grown ← put_entry (ensure_free_entry new_slot) e
  slot ← read (set slots target grown) s
  rest ← take_out slot i
  ok (set (set slots target grown) s rest)

-- The loop over the entries of slot s, from i. A move leaves i where it is (`i--` and `i++`).
unfoldable pub rehash_slot : (ℕ → ℕ) → ℕ → ℕ → ℕ → ℕ → List Slot → Run (List Slot)
unfolding move_entry
rehash_slot hash_func inc_slots zero s i slots = out_of_fuel
rehash_slot hash_func inc_slots (suc fuel) s i slots = read slots s >>= λ slot.
    let body : Run (List Slot) = do
      e ← read slot.entries i
      let target = hash_func e.key % inc_slots
      let next = rehash_slot hash_func inc_slots fuel s (i + 1) slots
      let moved = move_entry slots s i target e >>= rehash_slot hash_func inc_slots fuel s i
      if s == target then next else moved
    in if ltb i (length slot.entries) then body else ok slots

-- The loop over the old slots, from s, for the given number of rounds.
unfoldable pub rehash : (ℕ → ℕ) → ℕ → ℕ → ℕ → List Slot → Run (List Slot)
unfolding rehash_slot
rehash hash_func inc_slots zero s slots = ok slots
rehash hash_func inc_slots (suc rounds) s slots = do
  slot ← read slots s
  moved ← rehash_slot hash_func inc_slots (length slot.entries + 1) s 0 slots
  rehash hash_func inc_slots rounds (s + 1) moved

-- `if (hm->num_data >= hm->num_slots * CRIT_LOAD_FACTOR)`. Where num_slots * 5 is an int, num_slots * 3
-- is one.
unfoldable pub grow_if_loaded : HashMap → Run HashMap
unfolding rehash
grow_if_loaded hm = as_int (hm.num_slots * 5) >>= λ product.
    if leb (product / 1) hm.num_data
    then (do
      hash_func ← call hm.hash_func
      inc_slots ← next_prime (hm.num_slots * 3 / 2)
      let slots = hm.slots ++ replicate (inc_slots - hm.num_slots) empty_slot
      moved ← rehash hash_func inc_slots hm.num_slots 0 slots
      ok (record hm { slots = moved; num_slots = inc_slots }))
    else ok hm

-- `if (i == slot->entries_num)`: a new entry at the end of slot `index`
unfoldable pub add_entry : HashMap → ℕ → Slot → Entry → Run HashMap
unfolding put_entry ensure_free_entry grow_if_loaded
add_entry hm index slot e = do
  grown ← put_entry (ensure_free_entry slot) e
  grow_if_loaded (record hm { slots = set hm.slots index grown; num_data = hm.num_data + 1 })

-- The search of nt_hashmap_set(), and what follows it, on a map with slots
unfoldable pub set_located : HashMap → ℕ → ℕ → Run HashMap
unfolding locate find_entry add_entry
set_located hm key value = do
  (index, slot) ← locate hm key
  let i = find_entry key slot.entries 0
  let written =
      λ (e : Entry). record slot { entries = set slot.entries i (record e { value = value }) }
  if i == length slot.entries
      then add_entry hm index slot (record { key = key; value = value })
      else read slot.entries i >>= λ e. ok (record hm { slots = set hm.slots index (written e) })

unfoldable pub nt_hashmap_set : HashMap → ℕ → ℕ → Run HashMap
unfolding set_located nt_hashmap_init_slots
nt_hashmap_set hm key value =
    (if hm.num_slots == 0 then nt_hashmap_init_slots hm 10 else ok hm) >>= λ ready.
    set_located ready key value

unfoldable pub nt_hashmap_remove : HashMap → ℕ → Run HashMap
unfolding locate find_entry take_out
nt_hashmap_remove hm key = if hm.num_slots == 0 then ok hm else do
  (index, slot) ← locate hm key
  let i = find_entry key slot.entries 0
  let shorter =
      λ (rest : Slot). record hm { slots = set hm.slots index rest; num_data = hm.num_data - 1 }
  if i == length slot.entries then ok hm else take_out slot i >>= λ rest. ok (shorter rest)

pub clear_slot : Slot → Slot
clear_slot slot = if slot.entries_alloc == 0 then slot else empty_slot

pub clear_slots : List Slot → List Slot
unfolding clear_slot
clear_slots [] = []
clear_slots (slot ∷ slots) = clear_slot slot ∷ clear_slots slots

unfoldable pub nt_hashmap_clear : HashMap → HashMap
unfolding clear_slots
nt_hashmap_clear hm = record hm { slots = clear_slots hm.slots; num_data = 0 }
