-- ===== src/Hashset/Remove.antt =====
-- Removal from the hash set by the data.
use mathlib.Core.Path.{subst}
use native.Mathlib.Decide.{ℕ_discrete}
use nt_shm.Common.{
  ℕ, ◌+◌, ◌-◌, ◌%◌, ◌<◌, ◌≡◌, ◌⊎◌, inl, inr, refl, ap, sym, ◌∙◌, List, [], Bool, true, false, arith,
  ◌==◌, Bool-cases, length, set, length-set, get_or-set,
}
use nt_shm.Common.Run.{Returns, returns, Returns-map, Returns-read}
use nt_shm.Common.Weigh.{weigh, weigh_mono, weigh-set}
use nt_shm.Hashset.{Funcs, HashsetEntry, Hashset, matches, remove_from, nt_hashset_remove}
use nt_shm.Hashset.Chain.{
  one_if, total, chain_at, is_addr, is_match, is_match_at, unlink_entry-weighs,
}
use nt_shm.Hashset.Move.{Belongs}
use nt_shm.Hashset.Refines.{IsHashset, view-none, total-home, no_slots-total, match-only}
use nt_shm.Hashset.Grow.{Returns-funcs}
use nt_shm.Hashset.Alike.{IsEquality, alike, and-true, matches-alike, view-same, HasAt}

module _ {D : Type 0} (f : Funcs D) where
  -- A valid hash set without the entry
  pub record Without (hs : Hashset D) (e : HashsetEntry D) (after : Hashset D) : Type 0 where
    pub valid : IsHashset f after
    pub change : (w : HashsetEntry D → ℕ) → total w hs.slots ≡ total w after.slots + w e

  -- The removal leaves the hash set, when no entry of the slot passes the test, or takes one out.
  unfoldable pub Removed : Hashset D → ℕ → (HashsetEntry D → Bool) → Hashset D → Type 0
  Removed hs t test after =
      ((after ≡ hs) × (weigh (λ e. one_if (test e)) (chain_at hs.slots t) ≡ 0))
      ⊎ ((e : HashsetEntry D) × (test e ≡ true) × Without hs e after)

  pub unlinked-Without :
      (hs : Hashset D) (t : ℕ) (e : HashsetEntry D) (rest : List (HashsetEntry D))
      → IsHashset f hs
      → t < hs.num_slots
      → ((w : HashsetEntry D → ℕ) → weigh w (chain_at hs.slots t) ≡ w e + weigh w rest)
      → Belongs hs.num_slots t rest
      → Without hs e (record hs { slots = set hs.slots t rest; num_data = hs.num_data - 1 })
  unlinked-Without hs t e rest v lt weights belongs =
      let inside : t < length hs.slots = omega (arith, v.width) in
      let change : (w : HashsetEntry D → ℕ)
          → total w hs.slots ≡ total w (set hs.slots t rest) + w e =
        (λ w. omega (arith, weigh-set (weigh w) hs.slots t rest [] inside, weights w)) in
      record {
        valid = record {
          called = v.called;
          width = length-set hs.slots t rest ∙ v.width;
          counted = omega (arith, v.counted, change (λ _. 1));
          not_null = omega (arith, v.not_null, change (is_addr 0));
          placed = λ j lt_j. elim (ℕ_discrete t j) [
            | yes same ↦
                let here : chain_at (set hs.slots t rest) j ≡ rest =
                  ground (arith, get_or-set hs.slots t j rest [] inside) in
                subst (Belongs hs.num_slots j) (sym here)
                  (subst (λ (i : ℕ). Belongs hs.num_slots i rest) same belongs)
            | no other ↦
                let there : chain_at (set hs.slots t rest) j ≡ chain_at hs.slots j =
                  ground (arith, get_or-set hs.slots t j rest [] inside) in
                subst (Belongs hs.num_slots j) (sym there) (v.placed j lt_j)
          ];
          unique = λ q. omega (arith, v.unique q, change (is_match f q));
          once = λ a. omega (arith, v.once a, change (is_addr a));
          size = v.size;
          load = λ ne. let light = v.load ne in omega arith;
        };
        change = change;
      }

  pub remove_from-Removed :
      (hs : Hashset D) (t : ℕ) (test : HashsetEntry D → Bool)
      → IsHashset f hs
      → t < hs.num_slots
      → Returns (Removed hs t test) (remove_from hs t test)
  unfolding remove_from Removed
  remove_from-Removed hs t test v lt =
      Returns-read _ hs.slots t [] (omega (arith, v.width))
        (elim (unlink_entry-weighs (λ e. e.hash % hs.num_slots ≡ t) test (chain_at hs.slots t)) [
          | inl (nothing, no_weight) ↦ rw nothing (returns (inl (refl, no_weight)))
          | inr (e, rest, result, found, weights, stay) ↦ rw result (
              returns
                (inr (e, found, unlinked-Without hs t e rest v lt weights (stay (v.placed t lt)))))
        ])

  -- Two data for which one entry is found are alike.
  matches_both :
      (q x : D) (e : HashsetEntry D)
      → IsEquality f
      → matches f q e ≡ true
      → matches f x e ≡ true
      → alike f q x ≡ true
  matches_both q x e laws for_q for_x =
      let (hash_q, same_q) = and-true f (e.hash == f.hash q) (f.same e.content q) for_q in
      let (hash_x, same_x) = and-true f (e.hash == f.hash x) (f.same e.content x) for_x in
      let equal : (f.hash q == f.hash x) ≡ true = ground arith in
      let same : f.same q x ≡ true =
        laws.same_trans q e.content x (laws.same_sym e.content q same_q) same_x in
      rw (equal, same) refl

  -- What is removed for q is removed for all data like q, and for no others.
  removed-HasAt :
      (hs after : Hashset D) (q : D) (e : HashsetEntry D)
      → IsEquality f
      → IsHashset f hs
      → matches f q e ≡ true
      → Without hs e after
      → HasAt f hs q 0 after
  removed-HasAt hs after q e laws v found r = record {
    valid = r.valid;
    reads = λ x. elim (Bool-cases (alike f q x)) [
      | inl like ↦
          let one : is_match f x e ≡ 1 =
            ap one_if (sym (matches-alike f q x e laws like) ∙ found) in
          rw like (view-none f after r.valid x (omega (arith, r.change (is_match f x), v.unique x)))
      | inr other ↦
          let no_match : is_match f x e ≡ 0 = elim (Bool-cases (matches f x e)) [
            | inl for_x ↦
                absurd
                  (omega (arith, ap one_if (sym (matches_both q x e laws found for_x) ∙ other)))
            | inr for_x ↦ ap one_if for_x
          ] in
          let no_weight : (b : ℕ) → is_match_at f x b e ≡ 0 = (λ b. ground arith) in
          rw other (
            view-same f hs after x v r.valid (omega (arith, r.change (is_match f x)))
              (λ b. omega (arith, r.change (is_match_at f x b), no_weight b)))
    ];
  }

  -- Data that are like absent data are absent.
  absent-HasAt :
      (hs : Hashset D) (q : D)
      → IsEquality f
      → IsHashset f hs
      → total (is_match f q) hs.slots ≡ 0
      → HasAt f hs q 0 hs
  absent-HasAt hs q laws v absent = record {
    valid = v;
    reads = λ x. elim (Bool-cases (alike f q x)) [
      | inr other ↦ rw other refl
      | inl like ↦
          let none_yet = weigh_mono (weigh (is_match f x)) (weigh (is_match f q)) hs.slots (λ es.
            weigh_mono (is_match f x) (is_match f q) es
              (λ z. omega (arith, ap one_if (matches-alike f q x z laws like)))) in
          rw like (view-none f hs v x (omega arith))
    ];
  }

  -- For a valid hash set and a comparison that is an equality, the call returns a valid hash set in
  -- which a search for any data like these finds nothing, and every other search finds what it
  -- found before.
  pub remove-HasAt :
      (hs : Hashset D) (q : D)
      → IsEquality f
      → IsHashset f hs
      → Returns (HasAt f hs q 0) (nt_hashset_remove hs q)
  unfolding nt_hashset_remove Removed
  remove-HasAt hs q laws v = elim (ℕ_discrete hs.num_slots 0) [
    | yes e ↦
        let no_slots : (hs.num_slots == 0) ≡ true = ground arith in
        rw no_slots (returns (absent-HasAt hs q laws v (no_slots-total f hs v (is_match f q) e)))
    | no ne ↦
        let some_slots : (hs.num_slots == 0) ≡ false = ground arith in
        let t = f.hash q % hs.num_slots in
        rw some_slots (
          Returns-funcs f _ hs v.called (
            Returns-map (remove_from-Removed hs t (matches f q) v (omega arith)) λ after r. elim r [
              | inl (same, no_weight) ↦ subst (HasAt f hs q 0) (sym same) (
                  absent-HasAt hs q laws v
                    (total-home f hs v (is_match f q) q (omega arith) (match-only f q) ∙ no_weight))
              | inr (e, found, without) ↦ removed-HasAt hs after q e laws v found without
            ]))
  ]
