-- ===== src/Hashset/Direct.antt =====
-- Removal from the hash set by the pointer to the data of an entry.
use mathlib.Core.Path.{subst}
use native.Mathlib.Decide.{ℕ_discrete}
use nt_shm.Common.{
  ℕ, suc, ◌+◌, ◌%◌, ◌≤◌, ◌<◌, ◌≡◌, ◌≢◌, ◌⊎◌, inl, inr, refl, ap, List, [], ◌∷◌, false, none, some,
  arith, ◌==◌, if◌then◌else◌, Bool-cases, length, eq_of_==,
}
use nt_shm.Common.Run.{Returns, Returns-map}
use nt_shm.Common.Weigh.{weigh, weigh_mono, All}
use nt_shm.Hashset.{Funcs, HashsetEntry, Hashset, entry_in, entry_at, nt_hashset_remove_direct}
use nt_shm.Hashset.Chain.{one_if, total, chain_at, is_addr, is_match, is_match_at}
use nt_shm.Hashset.Refines.{IsHashset, view, view-none, view-some, view-counts, no_slots-total}
use nt_shm.Hashset.Remove.{Without, Removed, remove_from-Removed}

module _ {D : Type 0} where
  entry_in-finds :
      (P : HashsetEntry D → Type 0) (a : ℕ) (es : List (HashsetEntry D))
      → All P es
      → ((entry_in a es ≡ none) × (weigh (is_addr a) es ≡ 0))
        ⊎ ((e : HashsetEntry D) × (entry_in a es ≡ some e) × (0 < weigh (is_addr a) es) × P e)
  entry_in-finds P a [] all = inl (refl, refl)
  entry_in-finds P a (e ∷ es) all = elim (Bool-cases (e.addr == a)) [
    | inl here ↦ let one = ap one_if here in inr (e, rw here refl, omega arith, all.0)
    | inr other ↦
        let none_here = ap one_if other in
        elim (entry_in-finds P a es all.1) [
          | inl (nothing, no_weight) ↦ inl (rw other nothing, omega arith)
          | inr (e', found, weight, holds) ↦ inr (e', rw other found, omega arith, holds)
        ]
  ]

  abbrev FoundAt :
      (P : ℕ → HashsetEntry D → Type 0) (a : ℕ) (slots : List (List (HashsetEntry D))) → Type 0
  FoundAt P a slots =
      (e : HashsetEntry D) × (j : ℕ) × (entry_at a slots ≡ some e)
      × (j < length slots)
      × (0 < weigh (is_addr a) (chain_at slots j))
      × P j e

  later-FoundAt :
      (P : ℕ → HashsetEntry D → Type 0) (a : ℕ) (chain : List (HashsetEntry D))
      (slots : List (List (HashsetEntry D)))
      → entry_in a chain ≡ none
      → FoundAt (λ j. P (suc j)) a slots
      → FoundAt P a (chain ∷ slots)
  unfolding entry_at
  later-FoundAt P a chain slots nothing (e, j, found, lt, weight, holds) =
      (e, suc j, rw (entry_at, nothing) found, omega arith, weight, holds)

  -- The entry with an address is found, in one of the slots.
  entry_at-finds :
      (P : ℕ → HashsetEntry D → Type 0) (a : ℕ) (slots : List (List (HashsetEntry D)))
      → ((j : ℕ) → j < length slots → All (P j) (chain_at slots j))
      → 0 < total (is_addr a) slots
      → FoundAt P a slots
  unfolding entry_at
  entry_at-finds P a [] all pos = absurd (omega arith)
  entry_at-finds P a (chain ∷ slots) all pos =
      elim (entry_in-finds (P 0) a chain (all 0 (omega arith))) [
        | inl (nothing, no_weight) ↦ later-FoundAt P a chain slots nothing (
            entry_at-finds (λ j. P (suc j)) a slots (λ j lt. all (suc j) (omega arith))
              (omega arith))
        | inr (e, found, weight, holds) ↦
            (e, 0, rw (entry_at, found) refl, omega arith, weight, holds)
      ]

module _ {D : Type 0} (f : Funcs D) where
  -- The hash set without the entry at the address
  pub record WithoutAt (hs : Hashset D) (a : ℕ) (after : Hashset D) : Type 0 where
    pub valid : IsHashset f after
    pub reads : (x : D) → view f after x ≡ (if view f hs x == a then 0 else view f hs x)
    pub fewer : hs.num_data ≡ after.num_data + 1

  match_at-le-addr :
      (x : D) (a : ℕ) (slots : List (List (HashsetEntry D)))
      → total (is_match_at f x a) slots ≤ total (is_addr a) slots
  match_at-le-addr x a slots =
      weigh_mono (weigh (is_match_at f x a)) (weigh (is_addr a)) slots
        (λ es. weigh_mono (is_match_at f x a) (is_addr a) es (λ e. ground arith))

  pub Without-WithoutAt :
      (hs after : Hashset D) (e : HashsetEntry D) (a : ℕ)
      → IsHashset f hs
      → a ≢ 0
      → e.addr ≡ a
      → Without f hs e after
      → WithoutAt hs a after
  Without-WithoutAt hs after e a v not_null at r = record {
    valid = r.valid;
    fewer = omega (arith, v.counted, r.valid.counted, r.change (λ _. 1));
    reads = λ x. elim (view-counts f hs v x) [
      | inl (nothing, no_weight) ↦
          let gone = view-none f after r.valid x (omega (arith, r.change (is_match f x))) in
          ground arith
      | inr (b, found, some_b, weight) ↦ elim (ℕ_discrete b a) [
        | yes same ↦
            let here : is_addr b e ≡ 1 = ground arith in
            let match_here : 0 < is_match_at f x b e = omega (
              arith,
              r.change (is_addr b),
              r.change (is_match_at f x b),
              v.once b,
              match_at-le-addr x b after.slots,
            ) in
            let one : 0 < is_match f x e = ground arith in
            let gone =
              view-none f after r.valid x (omega (arith, r.change (is_match f x), v.unique x)) in
            ground arith
        | no other ↦
            let none_here : is_match_at f x b e ≡ 0 = ground arith in
            let stays =
              view-some f after r.valid x b (omega (arith, r.change (is_match_at f x b))) in
            ground arith
      ]
    ];
  }

  -- For a valid hash set and a pointer to the data of one of its entries, the call returns a valid
  -- hash set with one entry less; a search that gave the pointer finds nothing any more, and every
  -- other search finds what it found before.
  pub remove_direct-WithoutAt :
      (hs : Hashset D) (a : ℕ)
      → IsHashset f hs
      → 0 < total (is_addr a) hs.slots
      → Returns (WithoutAt hs a) (nt_hashset_remove_direct hs a)
  unfolding nt_hashset_remove_direct Removed
  remove_direct-WithoutAt hs a v pos = elim (ℕ_discrete hs.num_slots 0) [
    | yes e ↦ absurd (omega (arith, no_slots-total f hs v (is_addr a) e))
    | no ne ↦
        let some_slots : (hs.num_slots == 0) ≡ false = ground arith in
        let not_null : a ≢ 0 = (λ null.
          let none_null = subst (λ (b : ℕ). 0 < total (is_addr b) hs.slots) null pos in
          omega (arith, v.not_null)) in
        let (e, j, found, lt, weight, place) =
          entry_at-finds (λ j e. e.hash % hs.num_slots ≡ j) a hs.slots
            (λ j lt. v.placed j (omega (arith, v.width))) pos in
        rw (some_slots, found, place)
          (Returns-map (remove_from-Removed f hs j (λ z. z.addr == a) v (omega (arith, v.width)))
            λ after r. elim r [
              | inl (same, no_weight) ↦ absurd (omega arith)
              | inr (e', at, without) ↦
                  Without-WithoutAt hs after e' a v not_null (eq_of_== _ _ at) without
            ])
  ]
