-- ===== src/Hashset.antt =====
-- hashset.c: the hash set, with a linked chain of entries for each slot.
--
-- A chain is the list of its entries. An entry has the address that the allocation gave it, which
-- stands for the pointer to its data; NULL is 0. `D` is the type of the data, and `funcs` are the
-- hash and the comparison that the caller passes, with the memory functions: they are set together
-- and cleared together. Each call is told what its allocations give; nt_malloc(), the default, does
-- not return when memory is refused, so that nt_hashset_create() exits. A failed allocation of the
-- slots leaves `slots` NULL, which is the empty list, so that an access is `fault`. The clean function
-- and the release of memory are left out. A counter of type int is a number; it does not reach 2 ^ 31.
pub mod Alike
pub mod Chain
pub mod Clear
pub mod Direct
pub mod Grow
pub mod Insert
pub mod Iterate
pub mod Link
pub mod Move
pub mod Refines
pub mod Remove
mod Tests
use nt_shm.Common.{
  ℕ, zero, suc, ◌+◌, ◌-◌, ◌*◌, ◌/◌, ◌%◌, List, [], ◌∷◌, ◌++◌, Bool, true, false, ◌&&◌, ◌||◌, not,
  Option, none, some, ltb, leb, ◌==◌, if◌then◌else◌, length, set, replicate,
}
use nt_shm.Common.Run.{Run, ok, fault, exit_failure, out_of_fuel, as_int, ◌>>=◌, read}
use nt_shm.Algo.Primes.{next_prime, next_prime_of_size}

pub record Funcs (D : Type 0) : Type 0 where
  pub hash : D → ℕ
  -- The comparison gives 0.
  pub same : D → D → Bool

pub record HashsetEntry (D : Type 0) : Type 0 where
  pub addr : ℕ
  pub hash : ℕ
  pub content : D

pub record Hashset (D : Type 0) : Type 0 where
  pub slots : List (List (HashsetEntry D))
  pub num_slots : ℕ
  pub num_data : ℕ
  pub funcs : Option (Funcs D)

-- What the allocations of a call give: the slots, the larger slots, and the address of the entry.
pub record Grants : Type 0 where
  pub gives_slots : Bool
  pub gives_more : Bool
  pub gives_entry : Option ℕ

-- The slot of the iterator: ITER_START, ITER_FINISH or an index
pub data IterSlot : Type 0 where
  iter_start iter_finish : IterSlot
  at_slot : ℕ → IterSlot

pub record HashsetIter (D : Type 0) : Type 0 where
  pub hashset : Hashset D
  pub slot : IterSlot
  pub entry : ℕ

-- nt_default_mem_malloc_func(), when malloc() gives memory in one of its attempts or in none
abbrev pub nt_default_mem_malloc_func : Bool → Run Bool
nt_default_mem_malloc_func granted = if granted then ok true else exit_failure

module _ {D : Type 0} where
  -- A call through the function pointers
  abbrev pub funcs_of : Hashset D → Run (Funcs D)
  funcs_of hs = elim hs.funcs [ none ↦ fault | some f ↦ ok f ]

  -- `malloc` is how the call of mem_malloc_func() ends, with whether it gives memory. The flag is
  -- SUCCEED.
  unfoldable pub nt_hashset_init_slots : Hashset D → ℕ → Run Bool → Run (Hashset D × Bool)
  nt_hashset_init_slots hs init_size malloc =
      let sized : Run (Hashset D × Bool) = next_prime_of_size init_size >>= λ n.
      funcs_of hs >>= λ f. malloc >>= λ granted.
      let slots = if granted then replicate n [] else [] in
      ok (record hs { slots = slots; num_slots = n; num_data = 0 }, granted) in
      if ltb 0 init_size
      then sized
      else ok (record hs { slots = []; num_slots = 0; num_data = 0 }, true)

  -- Before it the structure is not initialised. The outcome of the allocation is not looked at.
  unfoldable pub nt_hashset_create_ext : ℕ → Funcs D → Run Bool → Run (Hashset D)
  nt_hashset_create_ext init_size funcs malloc =
      nt_hashset_init_slots (record { slots = []; num_slots = 0; num_data = 0; funcs = some funcs })
        init_size malloc
      >>= λ (hs, succeeds). ok hs

  -- With the default memory functions
  unfoldable pub nt_hashset_create : ℕ → Funcs D → Bool → Run (Hashset D)
  nt_hashset_create init_size funcs granted =
      nt_hashset_create_ext init_size funcs (nt_default_mem_malloc_func granted)

  unfoldable pub nt_hashset_destroy : Hashset D → Hashset D
  nt_hashset_destroy hs = record { slots = []; num_slots = 0; num_data = 0; funcs = none }

  -- `entry->hash == hash && hs->compare_func(entry->data, data) == 0`
  abbrev pub matches : Funcs D → D → HashsetEntry D → Bool
  matches f q e = (e.hash == f.hash q) && f.same e.content q

  -- The search along a chain: the address of the entry, or NULL
  unfoldable pub search_chain : Funcs D → D → List (HashsetEntry D) → ℕ
  search_chain f q [] = 0
  search_chain f q (e ∷ es) = if matches f q e then e.addr else search_chain f q es

  -- The loop over the entries `curr` of slot s, with the entries `kept` in front of them, when the
  -- table grows to inc_slots slots
  unfoldable pub move_chain :
      ℕ
      → ℕ
      → List (HashsetEntry D)
      → List (HashsetEntry D)
      → List (List (HashsetEntry D))
      → Run (List (List (HashsetEntry D)))
  move_chain inc_slots s kept [] slots = ok slots
  move_chain inc_slots s kept (e ∷ rest) slots =
      let stays : Run (List (List (HashsetEntry D))) =
        move_chain inc_slots s (kept ++ e ∷ []) rest slots in
      let new_slot = e.hash % inc_slots in
      let moves : Run (List (List (HashsetEntry D))) = read slots new_slot >>= λ target.
      move_chain inc_slots s kept rest (set (set slots new_slot (e ∷ target)) s (kept ++ rest)) in
      if s == new_slot then stays else moves

  -- The loop over the old slots, from s, for the given number of rounds
  unfoldable pub move_slots :
      ℕ → ℕ → ℕ → List (List (HashsetEntry D)) → Run (List (List (HashsetEntry D)))
  move_slots inc_slots zero s slots = ok slots
  move_slots inc_slots (suc rounds) s slots = do
    chain ← read slots s
    moved ← move_chain inc_slots s [] chain slots
    move_slots inc_slots rounds (s + 1) moved

  -- The growth before a new entry; nothing, when the memory for it is refused. Where num_slots * 4 is
  -- an int, num_slots * 3 is one.
  unfoldable pub grow_if_full : Hashset D → Bool → Run (Option (Hashset D))
  grow_if_full hs granted =
      let grown : Run (Option (Hashset D)) = next_prime (hs.num_slots * 3 / 2) >>= λ inc_slots.
      move_slots inc_slots hs.num_slots 0 (hs.slots ++ replicate (inc_slots - hs.num_slots) [])
      >>= λ moved. ok (some (record hs { slots = moved; num_slots = inc_slots })) in
      let allowed : Run (Option (Hashset D)) = if granted then grown else ok none in
      as_int (hs.num_slots * 4) >>= λ product.
      if leb (product / 5) (hs.num_data + 1) then allowed else ok (some hs)

  -- The new entry in front of the chain of its slot
  unfoldable pub link_entry : Hashset D → Option ℕ → ℕ → D → Run (Hashset D × ℕ)
  link_entry hs none hash stored = ok (hs, 0)
  link_entry hs (some addr) hash stored =
      let slot = hash % hs.num_slots in
      let e : HashsetEntry D = record { addr = addr; hash = hash; content = stored } in
      read hs.slots slot >>= λ chain.
      ok (record hs { slots = set hs.slots slot (e ∷ chain); num_data = hs.num_data + 1 }, addr)

  -- `stored` is what the entry holds after the copy of the data from the offset on.
  unfoldable pub insert_new : Hashset D → Grants → ℕ → D → Run (Hashset D × ℕ)
  insert_new hs grants hash stored = grow_if_full hs grants.gives_more >>= λ grown. elim grown [
    | none ↦ ok (hs, 0)
    | some larger ↦ link_entry larger grants.gives_entry hash stored
  ]

  unfoldable pub insert_located : Hashset D → Grants → D → D → Run (Hashset D × ℕ)
  insert_located hs grants q stored = funcs_of hs >>= λ f.
      read hs.slots (f.hash q % hs.num_slots) >>= λ chain.
      let found = search_chain f q chain in
      let added : Run (Hashset D × ℕ) = insert_new hs grants (f.hash q) stored in
      if found == 0 then added else ok (hs, found)

  -- The pointer to the data of the entry, or NULL
  unfoldable pub nt_hashset_insert_ext : Hashset D → Grants → D → D → Run (Hashset D × ℕ)
  nt_hashset_insert_ext hs grants q stored =
      let ready : Run (Hashset D × ℕ) =
        nt_hashset_init_slots hs 10 (ok grants.gives_slots) >>= λ (fresh, succeeds).
        let go_on : Run (Hashset D × ℕ) = insert_located fresh grants q stored in
        if succeeds then go_on else ok (fresh, 0) in
      let go_on : Run (Hashset D × ℕ) = insert_located hs grants q stored in
      if hs.num_slots == 0 then ready else go_on

  unfoldable pub nt_hashset_insert : Hashset D → Grants → D → Run (Hashset D × ℕ)
  nt_hashset_insert hs grants q = nt_hashset_insert_ext hs grants q q

  unfoldable pub nt_hashset_search : Hashset D → D → Run ℕ
  nt_hashset_search hs q =
      let found : Run ℕ = funcs_of hs >>= λ f.
      read hs.slots (f.hash q % hs.num_slots) >>= λ chain. ok (search_chain f q chain) in
      if hs.num_slots == 0 then ok 0 else found

  -- The chain without its first entry that passes the test; nothing, when no entry does
  unfoldable pub unlink_entry :
      (HashsetEntry D → Bool) → List (HashsetEntry D) → Option (List (HashsetEntry D))
  unlink_entry test [] = none
  unlink_entry test (e ∷ es) =
      let rest : Option (List (HashsetEntry D)) = elim (unlink_entry test es) [
        | none ↦ none
        | some fs ↦ some (e ∷ fs)
      ] in
      if test e then some es else rest

  -- The set after the search for the entry in slot t
  unfoldable pub remove_from : Hashset D → ℕ → (HashsetEntry D → Bool) → Run (Hashset D)
  remove_from hs t test = read hs.slots t >>= λ chain. elim (unlink_entry test chain) [
    | none ↦ ok hs
    | some rest ↦ ok (record hs { slots = set hs.slots t rest; num_data = hs.num_data - 1 })
  ]

  unfoldable pub nt_hashset_remove : Hashset D → D → Run (Hashset D)
  nt_hashset_remove hs q =
      let removed : Run (Hashset D) =
        funcs_of hs >>= λ f. remove_from hs (f.hash q % hs.num_slots) (matches f q) in
      if hs.num_slots == 0 then ok hs else removed

  -- The entry that a pointer to its data leads to; nothing, when no entry stands there
  abbrev pub entry_in : ℕ → List (HashsetEntry D) → Option (HashsetEntry D)
  entry_in a [] = none
  entry_in a (e ∷ es) = if e.addr == a then some e else entry_in a es

  unfoldable pub entry_at : ℕ → List (List (HashsetEntry D)) → Option (HashsetEntry D)
  entry_at a [] = none
  entry_at a (chain ∷ slots) = elim (entry_in a chain) [ none ↦ entry_at a slots | some e ↦ some e ]

  -- The entry is read through the pointer before it is looked for.
  unfoldable pub nt_hashset_remove_direct : Hashset D → ℕ → Run (Hashset D)
  nt_hashset_remove_direct hs a =
      let removed : Run (Hashset D) = elim (entry_at a hs.slots) [
        | none ↦ fault
        | some e ↦ remove_from hs (e.hash % hs.num_slots) (λ other. other.addr == a)
      ] in
      if hs.num_slots == 0 then ok hs else removed

  -- The loop over the slots, from s, for the given number of rounds
  unfoldable pub clear_slots :
      ℕ → ℕ → List (List (HashsetEntry D)) → Run (List (List (HashsetEntry D)))
  clear_slots zero s slots = ok slots
  clear_slots (suc rounds) s slots =
      read slots s >>= λ chain. clear_slots rounds (s + 1) (set slots s [])

  unfoldable pub nt_hashset_clear : Hashset D → Run (Hashset D)
  nt_hashset_clear hs = clear_slots hs.num_slots 0 hs.slots >>= λ cleared.
      ok (record hs { slots = cleared; num_data = 0 })
