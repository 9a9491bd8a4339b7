-- ===== src/Hashmap/Refines.antt =====
-- The table as a finite map: a valid table, the map that it stands for, and what a lookup reads.
use native.Mathlib.Decide.{ℕ_discrete}
use nt_shm.Common.{
  true, false, ℕ, zero, suc, ◌+◌, ◌*◌, ◌%◌, ◌≤◌, ◌<◌, ◌≡◌, ◌≢◌, ◌⊎◌, inl, inr, refl, ap, sym, ◌∙◌,
  List, [], ◌∷◌, Option, none, some, arith, ◌==◌, if◌then◌else◌, length, get_or,
}
use nt_shm.Common.Run.{ok, ◌>>=◌, read, read-ok}
use nt_shm.Common.Weigh.{weigh, All}
use nt_shm.Algo.Primes.Correct.{IsPrime}
use nt_shm.Hashmap.{Entry, Slot, HashMap, empty_slot, locate, find_entry, nt_hashmap_get}
use nt_shm.Hashmap.Contents.{
  no_entry, is_key, is_item, total, find, find-none, find-some, find-counts, find_entry-stops,
  HasRoom,
}
use nt_shm.Hashmap.Rehash.{slot_at, entries_at}
use nt_shm.Hashmap.Rehash.Loops.{BelongsIn}

pub weigh-zero {ℓ} :
    {A : Type ℓ} (w : A → ℕ) (xs : List A) (d : A)
    → ((j : ℕ) → j < length xs → w (get_or xs j d) ≡ 0)
    → weigh w xs ≡ 0
weigh-zero w [] d h = refl
weigh-zero w (x ∷ xs) d h =
    omega (arith, h 0 (omega arith), weigh-zero w xs d (λ j lt. h (suc j) (omega arith)))

-- A list weighs as much as the one element that weighs anything.
pub weigh-only {ℓ} :
    {A : Type ℓ} (w : A → ℕ) (xs : List A) (t : ℕ) (d : A)
    → t < length xs
    → ((j : ℕ) → j < length xs → j ≢ t → w (get_or xs j d) ≡ 0)
    → weigh w xs ≡ w (get_or xs t d)
weigh-only w [] t d h only = absurd (omega arith)
weigh-only w (x ∷ xs) zero d h only =
    omega (arith, weigh-zero w xs d (λ j lt. only (suc j) (omega arith) (omega arith)))
weigh-only w (x ∷ xs) (suc t) d h only = omega (
  arith,
  only 0 (omega arith) (omega arith),
  weigh-only w xs t d (omega arith) (λ j lt ne. only (suc j) (omega arith) (omega arith)),
)

-- What nt_hashmap_get() returns for an absent key is 0.
abbrev pub or_zero : Option ℕ → ℕ
or_zero none = 0
or_zero (some x) = x

-- The search loop and the read after it compute the value under the key.
search-find :
    (q : ℕ) (es : List Entry)
    → (if find_entry q es 0 == length es
        then ok 0
        else read es (find_entry q es 0) >>= λ e. ok e.value)
      ≡ ok (or_zero (find q es))
search-find q es = elim (find_entry-stops q 0 es) [
  | inl (stop, absent) ↦
      let at_end : (find_entry q es 0 == length es) ≡ true = ground arith in
      rw (at_end, find-none q es absent)
  | inr (j, stop, inside, same, found) ↦
      let at_j : find_entry q es 0 ≡ j = omega arith in
      let not_end : (j == length es) ≡ false = ground arith in
      rw (at_j, not_end, found, read-ok es j no_entry inside)
]

module _ (hash_func : ℕ → ℕ) where
  -- The representation invariant, with up to `extra` entries more than a table may keep.
  pub record IsBounded (extra : ℕ) (hm : HashMap) : Type 0 where
    pub called : hm.hash_func ≡ some hash_func
    pub width : length hm.slots ≡ hm.num_slots
    pub counted : hm.num_data ≡ total (λ _. 1) hm.slots
    pub room : All HasRoom hm.slots
    pub placed :
        (t : ℕ) → t < hm.num_slots → BelongsIn hash_func hm.num_slots t (entries_at hm.slots t)
    pub unique : (q : ℕ) → total (is_key q) hm.slots ≤ 1
    pub size : (hm.num_slots ≡ 0) ⊎ IsPrime hm.num_slots
    pub load : hm.num_slots ≢ 0 → hm.num_data < hm.num_slots * 5 + extra

  -- The mean length of a chain is below five.
  abbrev pub IsValid : HashMap → Type 0
  IsValid = IsBounded 0

  -- The finite map that a table stands for.
  unfoldable pub view : HashMap → ℕ → Option ℕ
  view hm q =
      if hm.num_slots == 0 then none else find q (entries_at hm.slots (hash_func q % hm.num_slots))

  pub view-no_slots : (hm : HashMap) (q : ℕ) → hm.num_slots ≡ 0 → view hm q ≡ none
  unfolding view
  view-no_slots hm q e = ground arith

  -- A weight that only entries under q have is found in the slot of q.
  weigh-elsewhere :
      (w : Entry → ℕ) (q size t : ℕ) (es : List Entry)
      → ((e : Entry) → e.key ≢ q → w e ≡ 0)
      → BelongsIn hash_func size t es
      → hash_func q % size ≢ t
      → weigh w es ≡ 0
  weigh-elsewhere w q size t [] only h ne = refl
  weigh-elsewhere w q size t (e ∷ es) only h ne = omega (
    arith,
    only e (λ same. ne (ap (λ (k : ℕ). hash_func k % size) (sym same) ∙ h.0)),
    weigh-elsewhere w q size t es only h.1 ne,
  )

  total-home :
      (hm : HashMap) (w : Entry → ℕ) (q : ℕ)
      → IsValid hm
      → 0 < hm.num_slots
      → ((e : Entry) → e.key ≢ q → w e ≡ 0)
      → total w hm.slots ≡ weigh w (entries_at hm.slots (hash_func q % hm.num_slots))
  total-home hm w q v pos only =
      weigh-only (λ (slot : Slot). weigh w slot.entries) hm.slots (hash_func q % hm.num_slots)
        empty_slot (omega (arith, v.width))
        λ j lt ne.
          weigh-elsewhere w q hm.num_slots j (entries_at hm.slots j) only
            (v.placed j (omega (arith, v.width))) (λ e. ne (sym e))

  no_slots-total :
      (hm : HashMap) (w : Entry → ℕ) → IsValid hm → hm.num_slots ≡ 0 → total w hm.slots ≡ 0
  no_slots-total hm w v e =
      weigh-zero (λ (slot : Slot). weigh w slot.entries) hm.slots empty_slot
        (λ j lt. absurd (omega (arith, v.width)))

  module _ (hm : HashMap) (v : IsValid hm) (q : ℕ) where
    unfoldable pub home_entries : List Entry
    home_entries = entries_at hm.slots (hash_func q % hm.num_slots)

    pub key-home : 0 < hm.num_slots → total (is_key q) hm.slots ≡ weigh (is_key q) home_entries
    unfolding home_entries
    key-home pos = total-home hm (is_key q) q v pos (λ e ne. ground arith)

    item-home :
        0 < hm.num_slots → (x : ℕ) → total (is_item q x) hm.slots ≡ weigh (is_item q x) home_entries
    unfolding home_entries
    item-home pos x = total-home hm (is_item q x) q v pos (λ e ne. ground arith)

    -- Each key is absent, and weighs nothing, or has a value, and the entry weighs something.
    pub view-counts :
        ((view hm q ≡ none) × (total (is_key q) hm.slots ≡ 0))
        ⊎ ((x : ℕ) × (view hm q ≡ some x) × (0 < total (is_item q x) hm.slots))
    unfolding view home_entries
    view-counts = elim (ℕ_discrete hm.num_slots 0) [
      | yes e ↦ inl (ground arith, no_slots-total hm (is_key q) v e)
      | no ne ↦ elim (find-counts q home_entries) [
        | inl (nothing, zero_weight) ↦
            inl (ground arith, omega (arith, key-home (omega arith), zero_weight))
        | inr (x, found, weight) ↦
            inr (x, ground arith, omega (arith, item-home (omega arith) x, weight))
      ]
    ]

    pub view-some : (x : ℕ) → 0 < total (is_item q x) hm.slots → view hm q ≡ some x
    unfolding view home_entries
    view-some x h = elim (ℕ_discrete hm.num_slots 0) [
      | yes e ↦ absurd (omega (arith, no_slots-total hm (is_item q x) v e))
      | no ne ↦
          let found =
            find-some q x home_entries (omega (arith, key-home (omega arith), v.unique q))
              (omega (arith, item-home (omega arith) x)) in
          ground arith
    ]

    pub view-none : total (is_key q) hm.slots ≡ 0 → view hm q ≡ none
    unfolding view home_entries
    view-none h = elim (ℕ_discrete hm.num_slots 0) [
      | yes e ↦ ground arith
      | no ne ↦
          let absent = find-none q home_entries (omega (arith, key-home (omega arith))) in
          ground arith
    ]

    pub locate-home :
        0 < hm.num_slots
        → locate hm q
          ≡ ok (hash_func q % hm.num_slots, slot_at hm.slots (hash_func q % hm.num_slots))
    unfolding locate
    locate-home pos = rw (
      v.called,
      read-ok hm.slots (hash_func q % hm.num_slots) empty_slot (omega (arith, v.width)),
    )

    -- In a valid table, with or without slots, a lookup of any key returns, with the value that the
    -- table holds for the key, and with 0 if it holds none.
    pub get-view : nt_hashmap_get hm q ≡ ok (or_zero (view hm q))
    unfolding nt_hashmap_get view home_entries
    get-view = elim (ℕ_discrete hm.num_slots 0) [
      | yes e ↦ ground arith
      | no ne ↦
          let some_slots : (hm.num_slots == 0) ≡ false = ground arith in
          rw (some_slots, locate-home (omega arith)) (search-find q home_entries)
    ]
