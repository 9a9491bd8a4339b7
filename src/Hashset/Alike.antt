-- ===== src/Hashset/Alike.antt =====
-- Data that the comparison of the hash set does not tell apart.
use nt_shm.Common.{
  ℕ, ◌≤◌, ◌≡◌, ◌≢◌, inl, inr, refl, ap, sym, ◌∙◌, Bool, true, false, ◌&&◌, arith, ◌==◌,
  if◌then◌else◌, Bool-cases, eq_of_==,
}
use nt_shm.Common.Weigh.{weigh, weigh_mono}
use nt_shm.Hashset.{Funcs, HashsetEntry, Hashset, matches}
use nt_shm.Hashset.Chain.{one_if, total, is_match, is_match_at}
use nt_shm.Hashset.Refines.{IsHashset, view, view-none, view-some, view-counts}

-- The comparison is an equality.
pub record IsEquality {D : Type 0} (f : Funcs D) : Type 0 where
  pub same_self : (x : D) → f.same x x ≡ true
  pub same_sym : (x y : D) → f.same x y ≡ true → f.same y x ≡ true
  pub same_trans : (x y z : D) → f.same x y ≡ true → f.same y z ≡ true → f.same x z ≡ true

module _ {D : Type 0} (f : Funcs D) where
  -- The data are the same to the hash set.
  abbrev pub alike : D → D → Bool
  alike q x = (f.hash q == f.hash x) && f.same q x

  pub and-true : (a b : Bool) → (a && b) ≡ true → (a ≡ true) × (b ≡ true)
  and-true true b h = (refl, h)
  and-true false b h = absurd (omega (arith, ap one_if h))

  pub matches-alike :
      (q x : D) (e : HashsetEntry D)
      → IsEquality f
      → alike q x ≡ true
      → matches f q e ≡ matches f x e
  matches-alike q x e laws h =
      let (hashes, same) = and-true (f.hash q == f.hash x) (f.same q x) h in
      let equal : f.hash q ≡ f.hash x = eq_of_== _ _ hashes in
      rw equal (
        ap (λ (b : Bool). (e.hash == f.hash x) && b)
          (elim (Bool-cases (f.same e.content q)) [
            | inl yes_q ↦ yes_q ∙ sym (laws.same_trans e.content q x yes_q same)
            | inr no_q ↦ elim (Bool-cases (f.same e.content x)) [
              | inl yes_x ↦
                  let yes_q = laws.same_trans e.content x q yes_x (laws.same_sym q x same) in
                  absurd (omega (arith, ap one_if (sym yes_q ∙ no_q)))
              | inr no_x ↦ no_q ∙ sym no_x
            ]
          ]))

  -- Equal weights for x make equal results of a search for x.
  pub view-same :
      (hs after : Hashset D) (x : D)
      → IsHashset f hs
      → IsHashset f after
      → total (is_match f x) after.slots ≡ total (is_match f x) hs.slots
      → ((a : ℕ) → total (is_match_at f x a) after.slots ≡ total (is_match_at f x a) hs.slots)
      → view f after x ≡ view f hs x
  view-same hs after x v va keys items = elim (view-counts f hs v x) [
    | inl (nothing, no_weight) ↦ view-none f after va x (keys ∙ no_weight) ∙ sym nothing
    | inr (a, found, some_a, weight) ↦ view-some f after va x a (omega (arith, items a)) ∙ sym found
  ]

  -- The data that are like q have their entry at a, and all other data as before.
  pub record HasAt (hs : Hashset D) (q : D) (a : ℕ) (after : Hashset D) : Type 0 where
    pub valid : IsHashset f after
    pub reads : (x : D) → view f after x ≡ (if alike q x then a else view f hs x)

  -- A hash set that has an entry for q has it for all data that are like q.
  pub present-HasAt :
      (hs : Hashset D) (q : D) (a : ℕ)
      → IsEquality f
      → IsHashset f hs
      → view f hs q ≡ a
      → a ≢ 0
      → HasAt hs q a hs
  present-HasAt hs q a laws v at not_null = record {
    valid = v;
    reads = λ x. elim (Bool-cases (alike q x)) [
      | inr other ↦ rw other refl
      | inl like ↦ elim (view-counts f hs v q) [
        | inl (nothing, _) ↦ absurd (not_null (sym at ∙ nothing))
        | inr (b, found, _, weight) ↦
            let heavier =
              weigh_mono (weigh (is_match_at f q b)) (weigh (is_match_at f x b)) hs.slots (λ es.
                weigh_mono (is_match_at f q b) (is_match_at f x b) es
                  (λ e. at_alike q x b e like)) in
            rw like (view-some f hs v x b (omega arith) ∙ sym found ∙ at)
      ]
    ];
  }
    where
      at_alike :
          (q x : D) (b : ℕ) (e : HashsetEntry D)
          → alike q x ≡ true
          → is_match_at f q b e ≤ is_match_at f x b e
      at_alike q x b e like =
          let same : is_match f q e ≡ is_match f x e = ap one_if (matches-alike q x e laws like) in
          ground arith
