-- ===== src/Hashset/Link.antt =====
-- The hash set with a new entry in front of a chain.
use mathlib.Core.Path.{subst}
use native.Mathlib.Decide.{ℕ_discrete}
use nt_shm.Common.{
  ℕ, ◌+◌, ◌%◌, ◌≤◌, ◌<◌, ◌≡◌, inl, inr, ap, sym, ◌∙◌, [], ◌∷◌, Bool, true, false, ◌&&◌, arith, ◌==◌,
  Bool-cases, ==_self, length, set, length-set, get_or-set,
}
use nt_shm.Common.Weigh.{weigh, weigh_mono, weigh-set}
use nt_shm.Hashset.{Funcs, HashsetEntry, Hashset, matches}
use nt_shm.Hashset.Chain.{one_if, total, chain_at, is_addr, is_match, is_match_at}
use nt_shm.Hashset.Move.{Belongs}
use nt_shm.Hashset.Refines.{IsHashset, view, view-some}
use nt_shm.Hashset.Grow.{Roomy}
use nt_shm.Hashset.Alike.{IsEquality, alike, matches-alike, view-same, HasAt}

module _ {D : Type 0} (f : Funcs D) where
  module _ (hs larger : Hashset D) (v : IsHashset f hs) (r : Roomy f hs larger)
      (pos : 0 < larger.num_slots) (a : ℕ) (q stored : D) where
    abbrev home : ℕ
    home = f.hash q % larger.num_slots

    abbrev new_entry : HashsetEntry D
    new_entry = record { addr = a; hash = f.hash q; content = stored }

    abbrev pub linked : Hashset D
    linked = record larger {
      slots = set larger.slots home (new_entry ∷ chain_at larger.slots home);
      num_data = larger.num_data + 1;
    }

    home-lt : home < length larger.slots
    home-lt = omega (arith, r.valid.width)

    linked-total : (w : HashsetEntry D → ℕ) → total w linked.slots ≡ total w hs.slots + w new_entry
    linked-total w = omega (
      arith,
      weigh-set (weigh w) larger.slots home (new_entry ∷ chain_at larger.slots home) [] home-lt,
      r.same w,
    )

    -- Data for which the new entry is found are not in the hash set.
    linked_unique :
        IsEquality f
        → ((x : D) → f.same stored x ≡ f.same q x)
        → total (is_match f q) hs.slots ≡ 0
        → (x : D) → total (is_match f x) linked.slots ≤ 1
    linked_unique laws copied absent x =
        let e = linked-total (is_match f x) in
        elim (Bool-cases (matches f x new_entry)) [
          | inr other ↦
              let zero_weight : is_match f x new_entry ≡ 0 = ap one_if other in
              omega (arith, v.unique x)
          | inl found ↦
              let one : is_match f x new_entry ≡ 1 = ap one_if found in
              let like : alike f q x ≡ true =
                ap (λ (b : Bool). (f.hash q == f.hash x) && b) (sym (copied x)) ∙ found in
              let none_yet =
                weigh_mono (weigh (is_match f x)) (weigh (is_match f q)) hs.slots (λ es.
                  weigh_mono (is_match f x) (is_match f q) es
                    (λ z. omega (arith, ap one_if (matches-alike f q x z laws like)))) in
              omega arith
        ]

    linked-IsHashset :
        IsEquality f
        → ((x : D) → f.same stored x ≡ f.same q x)
        → total (is_match f q) hs.slots ≡ 0
        → total (is_addr a) hs.slots ≡ 0
        → 0 < a
        → IsHashset f linked
    linked-IsHashset laws copied absent new some_a = record {
      called = r.valid.called;
      width = length-set larger.slots home _ ∙ r.valid.width;
      counted =
          ap (λ (k : ℕ). k + 1) (r.valid.counted ∙ r.same (λ _. 1)) ∙ sym (linked-total (λ _. 1));
      not_null =
          let other : (a == 0) ≡ false = ground arith in
          omega (arith, linked-total (is_addr 0), v.not_null, ap one_if other);
      placed = λ t lt. elim (ℕ_discrete home t) [
        | yes same ↦
            let here : chain_at linked.slots t ≡ new_entry ∷ chain_at larger.slots home = ground (
              arith,
              get_or-set larger.slots home t (new_entry ∷ chain_at larger.slots home) [] home-lt,
            ) in
            subst (Belongs larger.num_slots t) (sym here) (
              same,
              subst (λ (i : ℕ). Belongs larger.num_slots i (chain_at larger.slots home)) same
                  (r.valid.placed home (omega (arith, pos))),
            )
        | no other ↦
            let there : chain_at linked.slots t ≡ chain_at larger.slots t = ground (
              arith,
              get_or-set larger.slots home t (new_entry ∷ chain_at larger.slots home) [] home-lt,
            ) in
            subst (Belongs larger.num_slots t) (sym there) (r.valid.placed t lt)
      ];
      unique = linked_unique laws copied absent;
      once = λ b. elim (ℕ_discrete a b) [
        | yes same ↦
            let none_yet = subst (λ (c : ℕ). total (is_addr c) hs.slots ≡ 0) same new in
            let weight : is_addr b new_entry ≤ 1 = ground arith in
            omega (arith, linked-total (is_addr b))
        | no other ↦
            let weight : is_addr b new_entry ≡ 0 = ground arith in
            omega (arith, linked-total (is_addr b), v.once b)
      ];
      size = r.valid.size;
      load = λ ne. r.room;
    }

    pub linked-HasAt :
        IsEquality f
        → ((x : D) → f.same stored x ≡ f.same q x)
        → view f hs q ≡ 0
        → total (is_match f q) hs.slots ≡ 0
        → total (is_addr a) hs.slots ≡ 0
        → 0 < a
        → HasAt f hs q a linked
    linked-HasAt laws copied nothing absent new some_a =
        let valid = linked-IsHashset laws copied absent new some_a in
        record {
          valid = valid;
          reads = λ x.
              let test : matches f x new_entry ≡ alike f q x =
                ap (λ (b : Bool). (f.hash q == f.hash x) && b) (copied x) in
              elim (Bool-cases (alike f q x)) [
                | inl like ↦
                    let weight : is_match_at f x a new_entry ≡ 1 =
                      rw (==_self a) (ap one_if (test ∙ like)) in
                    rw like (
                      view-some f linked valid x a
                        (omega (arith, linked-total (is_match_at f x a))))
                | inr other ↦
                    let no_match : is_match f x new_entry ≡ 0 = ap one_if (test ∙ other) in
                    let no_weight : (b : ℕ) → is_match_at f x b new_entry ≡ 0 =
                      (λ b. ground arith) in
                    rw other (
                      view-same f hs linked x v valid (omega (arith, linked-total (is_match f x)))
                        (λ b. omega (arith, linked-total (is_match_at f x b), no_weight b)))
              ];
        }
