-- ===== src/Hashset/Iterate.antt =====
-- hashset.c: the iterator of the hash set.
--
-- The position of an iterator before the first slot and behind the last one is a constructor of its
-- own, as are -1 and -2; the entry is its address, or NULL, and is looked up by it.
pub mod Erase
pub mod Visit
use nt_shm.Common.{
  ℕ, zero, suc, ◌+◌, ◌-◌, List, [], ◌∷◌, Option, none, some, ◌==◌, if◌then◌else◌, set,
}
use nt_shm.Common.Run.{Run, ok, fault, exit_failure, out_of_fuel, ◌>>=◌, read}
use nt_shm.Hashset.{HashsetEntry, Hashset, HashsetIter, IterSlot, iter_start, iter_finish, at_slot}

-- The number before the slot, which is -1 for the first one
abbrev pub before : ℕ → IterSlot
before zero = iter_start
before (suc s) = at_slot s

module _ {D : Type 0} where
  unfoldable pub nt_hashset_iter_reset : Hashset D → HashsetIter D → HashsetIter D
  nt_hashset_iter_reset hs iter = record iter { hashset = hs; slot = iter_start }

  -- The entry behind the one at the address; nothing, when the address is not in the chain
  abbrev pub next_in : ℕ → List (HashsetEntry D) → Option (List (HashsetEntry D))
  next_in a [] = none
  next_in a (e ∷ es) = if e.addr == a then some es else next_in a es

  -- The loop over the slots from t; the iterator has already moved to t.
  unfoldable pub scan_slots : ℕ → ℕ → HashsetIter D → Run (HashsetIter D × ℕ)
  scan_slots zero t iter = out_of_fuel
  scan_slots (suc fuel) t iter =
      let finished : Run (HashsetIter D × ℕ) = ok (record iter { slot = iter_finish }, 0) in
      let further : Run (HashsetIter D × ℕ) = scan_slots fuel (t + 1) iter in
      let looked : Run (HashsetIter D × ℕ) = read iter.hashset.slots t >>= λ chain. elim chain [
        | [] ↦ further
        | e ∷ es ↦ ok (record iter { slot = at_slot t; entry = e.addr }, e.addr)
      ] in
      if t == iter.hashset.num_slots then finished else looked

  abbrev pub scan : ℕ → HashsetIter D → Run (HashsetIter D × ℕ)
  scan t iter = scan_slots (iter.hashset.num_slots + 1) t iter

  -- The step along the chain, or to the next slot with entries
  unfoldable pub next_entry :
      ℕ → HashsetIter D → Option (List (HashsetEntry D)) → Run (HashsetIter D × ℕ)
  next_entry s iter none = fault
  next_entry s iter (some []) = scan (s + 1) iter
  next_entry s iter (some (e ∷ es)) = ok (record iter { entry = e.addr }, e.addr)

  -- The pointer to the data of the next entry, or NULL
  unfoldable pub nt_hashset_iter_next : HashsetIter D → Run (HashsetIter D × ℕ)
  nt_hashset_iter_next iter = elim iter.slot [
    | iter_finish ↦ ok (iter, 0)
    | iter_start ↦ scan 0 iter
    | at_slot s ↦
        let along : Run (HashsetIter D × ℕ) =
          read iter.hashset.slots s >>= λ chain. next_entry s iter (next_in iter.entry chain) in
        if iter.entry == 0 then scan (s + 1) iter else along
  ]

  -- The chain without the entry at the address, and the address of the entry in front of it
  unfoldable pub unlink_after :
      ℕ → HashsetEntry D → List (HashsetEntry D) → Run (ℕ × List (HashsetEntry D))
  unlink_after a prev [] = fault
  unlink_after a prev (e ∷ es) =
      let later : Run (ℕ × List (HashsetEntry D)) = unlink_after a e es in
      if e.addr == a then ok (prev.addr, es) else later >>= λ (p, rest). ok (p, e ∷ rest)

  -- The hash set with a new chain in slot s and an entry less
  abbrev pub shortened : Hashset D → ℕ → List (HashsetEntry D) → Hashset D
  shortened hs s rest = record hs { slots = set hs.slots s rest; num_data = hs.num_data - 1 }

  unfoldable pub iter_remove_at : ℕ → HashsetIter D → List (HashsetEntry D) → Run (HashsetIter D)
  iter_remove_at s iter [] = fault
  iter_remove_at s iter (e ∷ es) =
      let behind : Run (HashsetIter D) = unlink_after iter.entry e es >>= λ (p, rest).
      ok (record iter { hashset = shortened iter.hashset s (e ∷ rest); entry = p }) in
      let first : Run (HashsetIter D) =
        ok (record { hashset = shortened iter.hashset s es; slot = before s; entry = 0 }) in
      if e.addr == iter.entry then first else behind

  unfoldable pub nt_hashset_iter_remove : HashsetIter D → Run (HashsetIter D)
  nt_hashset_iter_remove iter = elim iter.slot [
    | iter_start ↦ exit_failure
    | iter_finish ↦ exit_failure
    | at_slot s ↦
        let removed : Run (HashsetIter D) =
          read iter.hashset.slots s >>= λ chain. iter_remove_at s iter chain in
        if iter.entry == 0 then exit_failure else removed
  ]
