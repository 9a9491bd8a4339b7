-- ===== src/Hashset/Refines.antt =====
-- The hash set as a finite set: a valid hash set, and what a search finds in it.
use native.Mathlib.Decide.{ℕ_discrete}
use nt_shm.Common.{
  ℕ, ◌*◌, ◌/◌, ◌%◌, ◌≤◌, ◌<◌, ◌≡◌, ◌≢◌, ◌⊎◌, inl, inr, refl, ap, sym, ◌∙◌, List, [], ◌∷◌, true,
  false, some, arith, ◌==◌, if◌then◌else◌, length,
}
use nt_shm.Common.Run.{ok, read-ok}
use nt_shm.Common.Weigh.{weigh, weigh_mono, weigh-get_or-le}
use nt_shm.Algo.Primes.Correct.{IsPrime}
use nt_shm.Hashset.{Funcs, HashsetEntry, Hashset, search_chain, nt_hashset_search}
use nt_shm.Hashset.Chain.{
  total, chain_at, is_addr, is_match, is_match_at, search_chain-some, search_chain-counts,
}
use nt_shm.Hashset.Move.{Belongs}
use nt_shm.Hashmap.Refines.{weigh-zero, weigh-only}

module _ {D : Type 0} (f : Funcs D) where
  -- The representation invariant: every entry stands in the slot of its hash, no two entries are
  -- found for the same data or have the same address, and the slots are not full.
  pub record IsHashset (hs : Hashset D) : Type 0 where
    pub called : hs.funcs ≡ some f
    pub width : length hs.slots ≡ hs.num_slots
    pub counted : hs.num_data ≡ total (λ _. 1) hs.slots
    pub not_null : total (is_addr 0) hs.slots ≡ 0
    pub placed : (t : ℕ) → t < hs.num_slots → Belongs hs.num_slots t (chain_at hs.slots t)
    pub unique : (q : D) → total (is_match f q) hs.slots ≤ 1
    pub once : (a : ℕ) → total (is_addr a) hs.slots ≤ 1
    pub size : (hs.num_slots ≡ 0) ⊎ IsPrime hs.num_slots
    pub load : hs.num_slots ≢ 0 → hs.num_data < hs.num_slots * 4 / 5

  -- The finite set that a hash set stands for: the entry for the data, by its address, or NULL
  unfoldable pub view : Hashset D → D → ℕ
  view hs q =
      if hs.num_slots == 0
      then 0
      else search_chain f q (chain_at hs.slots (f.hash q % hs.num_slots))

  -- A weight that only entries for q have is found in the slot of q.
  weigh-elsewhere :
      (w : HashsetEntry D → ℕ) (q : D) (n t : ℕ) (es : List (HashsetEntry D))
      → ((e : HashsetEntry D) → e.hash ≢ f.hash q → w e ≡ 0)
      → Belongs n t es
      → f.hash q % n ≢ t
      → weigh w es ≡ 0
  weigh-elsewhere w q n t [] only h ne = refl
  weigh-elsewhere w q n t (e ∷ es) only h ne = omega (
    arith,
    only e (λ same. ne (ap (λ (k : ℕ). k % n) (sym same) ∙ h.0)),
    weigh-elsewhere w q n t es only h.1 ne,
  )

  pub match-only : (q : D) (e : HashsetEntry D) → e.hash ≢ f.hash q → is_match f q e ≡ 0
  match-only q e ne = let other : (e.hash == f.hash q) ≡ false = ground arith in rw other refl

  match_at-only : (q : D) (a : ℕ) (e : HashsetEntry D) → e.hash ≢ f.hash q → is_match_at f q a e ≡ 0
  match_at-only q a e ne = let none_here = match-only q e ne in ground arith

  module _ (hs : Hashset D) (v : IsHashset hs) where
    pub total-home :
        (w : HashsetEntry D → ℕ) (q : D)
        → 0 < hs.num_slots
        → ((e : HashsetEntry D) → e.hash ≢ f.hash q → w e ≡ 0)
        → total w hs.slots ≡ weigh w (chain_at hs.slots (f.hash q % hs.num_slots))
    total-home w q pos only =
        weigh-only (weigh w) hs.slots (f.hash q % hs.num_slots) [] (omega (arith, v.width))
          (λ j lt ne.
            weigh-elsewhere w q hs.num_slots j (chain_at hs.slots j) only
              (v.placed j (omega (arith, v.width))) (λ e. ne (sym e)))

    pub no_slots-total : (w : HashsetEntry D → ℕ) → hs.num_slots ≡ 0 → total w hs.slots ≡ 0
    no_slots-total w e = weigh-zero (weigh w) hs.slots [] (λ j lt. absurd (omega (arith, v.width)))

    pub chain-not_null : (t : ℕ) → t < hs.num_slots → weigh (is_addr 0) (chain_at hs.slots t) ≡ 0
    chain-not_null t lt = omega (
      arith,
      v.not_null,
      weigh-get_or-le (weigh (is_addr 0)) hs.slots t [] (omega (arith, v.width)),
    )

    -- The data are absent, and weigh nothing, or have an entry, which weighs something.
    pub view-counts :
        (q : D)
        → ((view hs q ≡ 0) × (total (is_match f q) hs.slots ≡ 0))
          ⊎ ((a : ℕ) × (view hs q ≡ a) × (0 < a) × (0 < total (is_match_at f q a) hs.slots))
    unfolding view
    view-counts q = elim (ℕ_discrete hs.num_slots 0) [
      | yes no_slots ↦ inl (ground arith, no_slots-total (is_match f q) no_slots)
      | no some_slots ↦
          let pos : 0 < hs.num_slots = omega arith in
          let t = f.hash q % hs.num_slots in
          let test : (hs.num_slots == 0) ≡ false = ground arith in
          elim (search_chain-counts f q (chain_at hs.slots t) (chain-not_null t (omega arith))) [
            | inl (nothing, no_weight) ↦
                inl (rw test nothing, total-home (is_match f q) q pos (match-only q) ∙ no_weight)
            | inr (a, found, some_a, weight) ↦ inr (
              a,
              rw test found,
              some_a,
              omega (arith, total-home (is_match_at f q a) q pos (match_at-only q a)),
            )
          ]
    ]

    pub view-some : (q : D) (a : ℕ) → 0 < total (is_match_at f q a) hs.slots → view hs q ≡ a
    unfolding view
    view-some q a h = elim (ℕ_discrete hs.num_slots 0) [
      | yes no_slots ↦ absurd (omega (arith, no_slots-total (is_match_at f q a) no_slots))
      | no some_slots ↦
          let pos : 0 < hs.num_slots = omega arith in
          let test : (hs.num_slots == 0) ≡ false = ground arith in
          rw test (
            search_chain-some f q a (chain_at hs.slots (f.hash q % hs.num_slots))
              (omega (arith, v.unique q, total-home (is_match f q) q pos (match-only q)))
              (omega (arith, total-home (is_match_at f q a) q pos (match_at-only q a))))
    ]

    pub view-none : (q : D) → total (is_match f q) hs.slots ≡ 0 → view hs q ≡ 0
    view-none q h = elim (view-counts q) [
      | inl (nothing, _) ↦ nothing
      | inr (a, _, _, weight) ↦ absurd (omega (arith, match_at-total q a))
    ]
      where
        match_at-total :
            (q : D) (a : ℕ) → total (is_match_at f q a) hs.slots ≤ total (is_match f q) hs.slots
        match_at-total q a =
            weigh_mono (weigh (is_match_at f q a)) (weigh (is_match f q)) hs.slots
              (λ es. weigh_mono (is_match_at f q a) (is_match f q) es (λ e. ground arith))

    -- A search returns what the set holds for the data.
    pub search-view : (q : D) → nt_hashset_search hs q ≡ ok (view hs q)
    unfolding nt_hashset_search view
    search-view q = elim (ℕ_discrete hs.num_slots 0) [
      | yes no_slots ↦ let test : (hs.num_slots == 0) ≡ true = ground arith in rw test refl
      | no some_slots ↦
          let test : (hs.num_slots == 0) ≡ false = ground arith in
          rw
            (test, v.called, read-ok hs.slots (f.hash q % hs.num_slots) [] (omega (arith, v.width)))
            refl
    ]
