-- ===== src/Hashset/Clear.antt =====
-- Clearing a hash set, and a hash set whose slots were refused.
use mathlib.Core.Path.{subst}
use native.Mathlib.Decide.{ℕ_discrete}
use native.Mathlib.Nat.{le_refl}
use nt_shm.Common.{
  ℕ, zero, suc, ◌+◌, ◌≤◌, ◌<◌, ◌≡◌, inl, inr, refl, ap, sym, ◌∙◌, List, [], true, false, arith, ltb,
  ◌==◌, length, set, length-set, get_or-set, get_or-beyond, Bool-cases, lt_of_ltb, le_of_ltb,
}
use nt_shm.Common.Run.{
  ok, fault, exit_failure, Returns, returns, Returns-map, Returns-bind, Returns-read, Returns-inv,
  ◌>>=◌,
}
use nt_shm.Common.Weigh.{weigh}
use nt_shm.Algo.Primes.Least.{largest_told, next_prime_of_size-IsNextPrime}
use nt_shm.Hashmap.Refines.{weigh-zero}
use nt_shm.Hashset.{
  Funcs, HashsetEntry, Hashset, Grants, nt_hashset_create, nt_hashset_create_ext,
  nt_hashset_init_slots, nt_hashset_search, nt_hashset_insert, nt_hashset_insert_ext,
  insert_located, clear_slots, nt_hashset_clear,
}
use nt_shm.Hashset.Chain.{total, chain_at, is_addr, is_match}
use nt_shm.Hashset.Move.{Belongs}
use nt_shm.Hashset.Refines.{IsHashset, view-none}
use nt_shm.Hashset.Grow.{IsFresh}

module _ {D : Type 0} where
  -- As many slots, all of them empty
  abbrev Bare : ℕ → List (List (HashsetEntry D)) → Type 0
  Bare n slots = (length slots ≡ n) × ((j : ℕ) → chain_at slots j ≡ [])

  clear_slots-Bare :
      (rounds s : ℕ) (slots : List (List (HashsetEntry D)))
      → rounds + s ≡ length slots
      → ((j : ℕ) → j < s → chain_at slots j ≡ [])
      → Returns (Bare (length slots)) (clear_slots rounds s slots)
  unfolding clear_slots
  clear_slots-Bare zero s slots all done =
      let bare : (j : ℕ) → chain_at slots j ≡ [] = (λ j. elim (Bool-cases (ltb j s)) [
        | inl within ↦ done j (lt_of_ltb j s within)
        | inr beyond ↦ get_or-beyond slots j [] (omega (arith, le_of_ltb j s beyond))
      ]) in
      returns (refl, bare)
  clear_slots-Bare (suc rounds) s slots all done = Returns-read _ slots s [] (omega arith) (
      Returns-map
        (clear_slots-Bare rounds (s + 1) (set slots s [])
          (omega (arith, length-set {A = List (HashsetEntry D)} slots s []))
          λ j lt. get_or-set slots s j [] [] (omega arith) ∙ elim (ℕ_discrete s j) [
            | yes same ↦ let here : (s == j) ≡ true = ground arith in rw here refl
            | no other ↦
                let there : (s == j) ≡ false = ground arith in
                let before : j < s = omega arith in rw there (done j before)
          ])
        λ after (width, bare). (width ∙ length-set {A = List (HashsetEntry D)} slots s [], bare))

  module _ (f : Funcs D) where
    cleared-IsFresh :
        (hs : Hashset D) (slots : List (List (HashsetEntry D)))
        → IsHashset f hs
        → length slots ≡ hs.num_slots
        → ((j : ℕ) → chain_at slots j ≡ [])
        → IsFresh f hs.num_slots (record hs { slots = slots; num_data = 0 })
    cleared-IsFresh hs slots v width bare =
        let none_left : (w : HashsetEntry D → ℕ) → total w slots ≡ 0 =
          (λ w. weigh-zero (weigh w) slots [] (λ j lt. ap (weigh w) (bare j))) in
        let valid : IsHashset f (record hs { slots = slots; num_data = 0 }) = record {
          called = v.called;
          width = width;
          counted = sym (none_left (λ _. 1));
          not_null = none_left (is_addr 0);
          placed = λ t lt. subst (Belongs hs.num_slots t) (sym (bare t)) tt;
          unique = λ q. omega (arith, none_left (is_match f q));
          once = λ a. omega (arith, none_left (is_addr a));
          size = v.size;
          load = λ ne. let light = v.load ne in omega arith;
        } in
        record {
          valid = valid;
          bare = none_left;
          nothing = λ q. view-none f _ valid q (none_left (is_match f q));
          wide = (le_refl hs.num_slots, λ r prime le. le);
        }

    -- Clearing a valid hash set leaves a valid hash set that holds nothing, with the same number of
    -- slots.
    pub clear-IsFresh :
        (hs : Hashset D)
        → IsHashset f hs
        → Returns
            (λ after. IsFresh f hs.num_slots after × (after.num_slots ≡ hs.num_slots))
            (nt_hashset_clear hs)
    unfolding nt_hashset_clear
    clear-IsFresh hs v =
        Returns-bind
          (clear_slots-Bare hs.num_slots 0 hs.slots (omega (arith, v.width))
            (λ j lt. absurd (omega arith)))
          λ slots (width, bare). returns (cleared-IsFresh hs slots v (width ∙ v.width) bare, refl)

    -- When an allocator that returns NULL refuses the slots of a new hash set, for a size from 1 to
    -- 2147302891, nt_hashset_create_ext() returns all the same, and then every search and every
    -- insertion makes an invalid memory access. With the default allocator, nt_hashset_create() ends
    -- the process instead.
    pub refused_slots :
        (init_size : ℕ) (g : Grants) (q : D)
        → 0 < init_size
        → init_size ≤ largest_told
        → ((nt_hashset_create_ext init_size f (ok false) >>= λ hs. nt_hashset_search hs q) ≡ fault)
          × ((nt_hashset_create_ext init_size f (ok false) >>= λ hs. nt_hashset_insert hs g q)
              ≡ fault)
          × (nt_hashset_create init_size f false ≡ exit_failure)
    unfolding nt_hashset_create nt_hashset_create_ext nt_hashset_init_slots nt_hashset_search
        nt_hashset_insert nt_hashset_insert_ext insert_located
    refused_slots init_size g q pos told =
        let (n, run, next) = Returns-inv (next_prime_of_size-IsNextPrime init_size told) in
        let asked : ltb 0 init_size ≡ true = ground arith in
        let two = next.1.0 in
        let some_slots : (n == 0) ≡ false = ground arith in
        (rw (asked, run, some_slots) refl, rw (asked, run, some_slots) refl, rw (asked, run) refl)
