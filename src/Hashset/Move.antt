-- ===== src/Hashset/Move.antt =====
-- The redistribution of the entries when the hash set grows.
use mathlib.Core.Path.{subst}
use native.Mathlib.Decide.{ℕ_discrete}
use nt_shm.Common.{
  ℕ, zero, suc, ◌+◌, ◌%◌, ◌≤◌, ◌<◌, ◌≡◌, ◌≢◌, ◌⊎◌, refl, ap, sym, ◌∙◌, List, [], ◌∷◌, ◌++◌, true,
  false, arith, ◌==◌, if◌then◌else◌, length, set, length-set, get_or-set, eq_of_==, ne_of_==,
}
use nt_shm.Common.Run.{Returns, returns, Returns-if, Returns-bind, Returns-map, Returns-read}
use nt_shm.Common.Weigh.{weigh, weigh-append, weigh-set, All, All-append}
use nt_shm.Hashset.{HashsetEntry, move_chain, move_slots}
use nt_shm.Hashset.Chain.{total, chain_at}

module _ {D : Type 0} where
  -- Every entry belongs in slot t of n slots.
  abbrev pub Belongs : ℕ → ℕ → List (HashsetEntry D) → Type 0
  Belongs n t = All (λ e. e.hash % n ≡ t)

  -- The slots before s and the new ones are in order.
  pub record Ordered (num inc s : ℕ) (slots : List (List (HashsetEntry D))) : Type 0 where
    pub width : length slots ≡ inc
    pub placed : (t : ℕ) → t < inc → (t < s) ⊎ (num ≤ t) → Belongs inc t (chain_at slots t)

  -- What a redistribution gives: the slots in order up to s, with the same entries
  abbrev pub Keeps :
      ℕ → ℕ → ℕ → List (List (HashsetEntry D)) → List (List (HashsetEntry D)) → Type 0
  Keeps num inc s slots after =
      Ordered num inc s after × ((w : HashsetEntry D → ℕ) → total w after ≡ total w slots)

  pub ++_assoc : (xs ys zs : List (HashsetEntry D)) → (xs ++ ys) ++ zs ≡ xs ++ (ys ++ zs)
  ++_assoc [] ys zs = refl
  ++_assoc (x ∷ xs) ys zs = ap (λ (l : List (HashsetEntry D)). x ∷ l) (++_assoc xs ys zs)

  -- The slots after an entry has moved from slot s to slot t
  abbrev moved :
      List (List (HashsetEntry D))
      → ℕ
      → ℕ
      → HashsetEntry D
      → List (HashsetEntry D)
      → List (List (HashsetEntry D))
  moved slots s t e left = set (set slots t (e ∷ chain_at slots t)) s left

  module _ (num inc s : ℕ) (grows : num ≤ inc) (old : s < num) where
    chain_at-moved :
        (slots : List (List (HashsetEntry D))) (t j : ℕ) (e : HashsetEntry D)
        (left : List (HashsetEntry D))
        → length slots ≡ inc
        → t < inc
        → chain_at (moved slots s t e left) j
          ≡ (if s == j then left else if t == j then e ∷ chain_at slots t else chain_at slots j)
    chain_at-moved slots t j e left width lt =
        get_or-set (set slots t (e ∷ chain_at slots t)) s j left []
          (rw (length-set slots t (e ∷ chain_at slots t)) (omega arith))
        ∙ rw (get_or-set slots t j (e ∷ chain_at slots t) [] (omega arith)) refl

    total-moved :
        (slots : List (List (HashsetEntry D))) (t : ℕ) (e : HashsetEntry D)
        (kept rest : List (HashsetEntry D)) (w : HashsetEntry D → ℕ)
        → length slots ≡ inc
        → t < inc
        → s ≢ t
        → chain_at slots s ≡ kept ++ e ∷ rest
        → total w (moved slots s t e (kept ++ rest)) ≡ total w slots
    total-moved slots t e kept rest w width lt ne at =
        let grown = e ∷ chain_at slots t in
        let other : (t == s) ≡ false = ground arith in
        let same : chain_at (set slots t grown) s ≡ chain_at slots s =
          get_or-set slots t s grown [] (omega arith) ∙ rw other refl in
        omega (
          arith,
          weigh-set (weigh w) (set slots t grown) s (kept ++ rest) []
              (rw (length-set slots t grown) (omega arith)),
          weigh-set (weigh w) slots t grown [] (omega arith),
          ap (weigh w) (same ∙ at),
          weigh-append w kept rest,
          weigh-append w kept (e ∷ rest),
        )

    Ordered-moved :
        (slots : List (List (HashsetEntry D))) (t : ℕ) (e : HashsetEntry D)
        (left : List (HashsetEntry D))
        → Ordered num inc s slots
        → t < inc
        → e.hash % inc ≡ t
        → Ordered num inc s (moved slots s t e left)
    Ordered-moved slots t e left o lt home = record {
      width =
          length-set (set slots t (e ∷ chain_at slots t)) s left
          ∙ length-set slots t (e ∷ chain_at slots t)
          ∙ o.width;
      placed = λ j inside side.
          let at = chain_at-moved slots t j e left o.width lt in
          let not_s : (s == j) ≡ false = ground arith in
          elim (ℕ_discrete t j) [
            | yes same ↦
                let here : (t == j) ≡ true = ground arith in
                let now : chain_at (moved slots s t e left) j ≡ e ∷ chain_at slots t =
                  at ∙ rw (not_s, here) refl in
                subst (Belongs inc j) (sym now) (
                  home ∙ same,
                  subst (λ (i : ℕ). Belongs inc j (chain_at slots i)) (sym same)
                      (o.placed j inside side),
                )
            | no other ↦
                let there : (t == j) ≡ false = ground arith in
                let now : chain_at (moved slots s t e left) j ≡ chain_at slots j =
                  at ∙ rw (not_s, there) refl in
                subst (Belongs inc j) (sym now) (o.placed j inside side)
          ];
    }

    finished :
        (slots : List (List (HashsetEntry D)))
        → Ordered num inc s slots
        → Belongs inc s (chain_at slots s)
        → Ordered num inc (suc s) slots
    finished slots o here = record {
      width = o.width;
      placed = λ j inside side. elim (ℕ_discrete j s) [
        | yes same ↦ subst (λ (i : ℕ). Belongs inc i (chain_at slots i)) (sym same) here
        | no other ↦ o.placed j inside (omega arith)
      ];
    }

    pub move_chain-Keeps :
        (kept curr : List (HashsetEntry D)) (slots : List (List (HashsetEntry D)))
        → Ordered num inc s slots
        → chain_at slots s ≡ kept ++ curr
        → Belongs inc s kept
        → Returns (Keeps num inc (suc s) slots) (move_chain inc s kept curr slots)
    unfolding move_chain
    move_chain-Keeps kept [] slots o at home = returns (
      finished slots o (subst (Belongs inc s) (sym at) (All-append _ kept [] home tt)),
      λ w. refl,
    )
    move_chain-Keeps kept (e ∷ rest) slots o at home =
        let t = e.hash % inc in
        let lt : t < inc = omega arith in
        let stay =
          move_chain-Keeps (kept ++ e ∷ []) rest slots o (at ∙ sym (++_assoc kept (e ∷ []) rest)) in
        let go =
          move_chain-Keeps kept rest (moved slots s t e (kept ++ rest))
            (Ordered-moved slots t e (kept ++ rest) o lt refl) in
        Returns-if (s == t)
          (λ here. stay (All-append _ kept (e ∷ []) home (sym (eq_of_== s t here), tt)))
          (λ there.
            let ne : s ≢ t = ne_of_== s t there in
            let own : (s == s) ≡ true = ground arith in
            Returns-read _ slots t [] (omega (arith, o.width)) (
              Returns-map
                (go (chain_at-moved slots t s e (kept ++ rest) o.width lt ∙ rw own refl) home)
                (λ after (ord, same).
                  (ord, λ w. same w ∙ total-moved slots t e kept rest w o.width lt ne at))))

  pub move_slots-Keeps :
      (num inc : ℕ)
      → num ≤ inc
      → (rounds s : ℕ) (slots : List (List (HashsetEntry D))) → rounds + s ≡ num
      → Ordered num inc s slots
      → Returns (Keeps num inc num slots) (move_slots inc rounds s slots)
  unfolding move_slots
  move_slots-Keeps num inc grows zero s slots all o =
      returns (subst (λ (t : ℕ). Ordered num inc t slots) {x = s} (omega (arith, all)) o, λ w. refl)
  move_slots-Keeps num inc grows (suc rounds) s slots all o =
      Returns-read _ slots s [] (omega (arith, o.width)) (
        Returns-bind
          (move_chain-Keeps num inc s grows (omega arith) [] (chain_at slots s) slots o refl tt)
          (λ after (ord, same).
            Returns-map
              (move_slots-Keeps num inc grows rounds (s + 1) after (omega arith)
                (subst (λ (t : ℕ). Ordered num inc t after) {x = suc s} (omega arith) ord))
              (λ last (ord', same'). (ord', λ w. same' w ∙ same w))))
