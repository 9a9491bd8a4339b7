-- ===== src/Hashset/Insert.antt =====
-- Insertion into the hash set, as an update of the finite set.
use native.Mathlib.Decide.{ℕ_discrete}
use nt_shm.Common.{
  ℕ, ◌*◌, ◌%◌, ◌≤◌, ◌<◌, ◌≡◌, ◌≢◌, ◌⊎◌, inl, inr, refl, ap, sym, ◌∙◌, [], true, false, Option, none,
  some, arith, ◌==◌, if◌then◌else◌, eq_of_==, ne_of_==,
}
use nt_shm.Common.Run.{
  ok, int_limit, Returns, returns, Returns-bind, Returns-if, Returns-map, Returns-read,
}
use nt_shm.Algo.Primes.Least.{Fits-ten}
use nt_shm.Hashset.{
  Funcs, HashsetEntry, Hashset, Grants, search_chain, link_entry, insert_new, insert_located,
  nt_hashset_insert_ext,
}
use nt_shm.Hashset.Chain.{total, chain_at, is_addr, is_match, is_match_at}
use nt_shm.Hashset.Refines.{IsHashset, view, view-counts}
use nt_shm.Hashset.Grow.{Returns-funcs, granted-IsFresh, Roomy, Grown, grow-Roomy}
use nt_shm.Hashset.Alike.{IsEquality, alike, view-same, HasAt, present-HasAt}
use nt_shm.Hashset.Link.{linked-HasAt}

module _ {D : Type 0} (f : Funcs D) where
  -- The outcome of an insertion: no entry, for lack of memory, and the same contents; or the
  -- address of an entry for the data.
  abbrev pub Outcome : Hashset D → Grants → D → Hashset D × ℕ → Type 0
  Outcome hs g q (after, a) =
      ((a ≡ 0)
        × ((g.gives_more ≡ false) ⊎ (g.gives_entry ≡ none))
        × IsHashset f after
        × ((x : D) → view f after x ≡ view f hs x))
      ⊎ ((0 < a) × HasAt f hs q a after × (view f hs q ≢ 0 → a ≡ view f hs q))

  -- What an allocation of an entry gives: an address that is not NULL and that no entry has
  abbrev pub IsNew : Hashset D → Option ℕ → Type 0
  IsNew hs none = Unit
  IsNew hs (some a) = (0 < a) × (total (is_addr a) hs.slots ≡ 0)

  pub Outcome-IsHashset :
      (hs after : Hashset D) (g : Grants) (q : D) (a : ℕ)
      → Outcome hs g q (after, a)
      → IsHashset f after
  Outcome-IsHashset hs after g q a (inl (null, refused, valid, same)) = valid
  Outcome-IsHashset hs after g q a (inr (some_a, has, kept)) = has.valid

  module _ (laws : IsEquality f) (g : Grants) (q stored : D)
      (copied : (x : D) → f.same stored x ≡ f.same q x) where
    link-Outcome :
        (hs larger : Hashset D) (given : Option ℕ)
        → IsHashset f hs
        → Roomy f hs larger
        → view f hs q ≡ 0
        → total (is_match f q) hs.slots ≡ 0
        → g.gives_entry ≡ given
        → IsNew hs given
        → Returns (Outcome hs g q) (link_entry larger given (f.hash q) stored)
    unfolding link_entry
    link-Outcome hs larger none v r nothing absent e new = returns (
        inl (
          refl,
          inr e,
          r.valid,
          λ x.
              view-same f hs larger x v r.valid (r.same (is_match f x))
                (λ b. r.same (is_match_at f x b)),
        ))
    link-Outcome hs larger (some a) v r nothing absent e new =
        let pos : 0 < larger.num_slots = omega (arith, r.room) in
        Returns-read _ larger.slots (f.hash q % larger.num_slots) [] (omega (arith, r.valid.width))
          (returns (
            inr (
              new.0,
              linked-HasAt f hs larger v r pos a q stored laws copied nothing absent new.1 new.0,
              λ found. absurd (found nothing),
            )))

    absent : (hs : Hashset D) → IsHashset f hs → view f hs q ≡ 0 → total (is_match f q) hs.slots ≡ 0
    absent hs v nothing = elim (view-counts f hs v q) [
      | inl (_, no_weight) ↦ no_weight
      | inr (a, found, some_a, _) ↦ absurd (omega arith)
    ]

    Grown-Outcome :
        (hs : Hashset D) (grown : Option (Hashset D))
        → IsHashset f hs
        → view f hs q ≡ 0
        → IsNew hs g.gives_entry
        → Grown f hs g.gives_more grown
        → Returns (Outcome hs g q) (elim grown [
          | none ↦ ok (hs, 0)
          | some larger ↦ link_entry larger g.gives_entry (f.hash q) stored
        ])
    Grown-Outcome hs none v nothing new refused = returns (inl (refl, inl refused, v, λ x. refl))
    Grown-Outcome hs (some larger) v nothing new r =
        link-Outcome hs larger g.gives_entry v r nothing (absent hs v nothing) refl new

    insert-Outcome :
        (hs : Hashset D)
        → IsHashset f hs
        → 0 < hs.num_slots
        → IsNew hs g.gives_entry
        → hs.num_slots * 4 < int_limit
        → Returns (Outcome hs g q) (insert_located hs g q stored)
    unfolding insert_located insert_new view
    insert-Outcome hs v pos new small =
        let some_slots : (hs.num_slots == 0) ≡ false = ground arith in
        let at : view f hs q ≡ search_chain f q (chain_at hs.slots (f.hash q % hs.num_slots)) =
          rw some_slots refl in
        Returns-funcs f _ hs v.called (
          Returns-read _ hs.slots (f.hash q % hs.num_slots) [] (omega (arith, v.width)) (
            Returns-if (search_chain f q (chain_at hs.slots (f.hash q % hs.num_slots)) == 0)
              (λ missing.
                let nothing : view f hs q ≡ 0 = at ∙ eq_of_== _ _ missing in
                Returns-bind (grow-Roomy f hs g.gives_more v pos small)
                  λ grown good. Grown-Outcome hs grown v nothing new good)
              (λ found.
                let not_null = ne_of_== _ _ found in
                returns
                  (inr (omega arith, present-HasAt f hs q _ laws v at not_null, λ _. sym at)))))

    no_slots-view : (hs : Hashset D) → hs.num_slots ≡ 0 → (x : D) → view f hs x ≡ 0
    unfolding view
    no_slots-view hs e x = ground arith

    bare-IsNew :
        (hs fresh : Hashset D) (given : Option ℕ)
        → ((w : HashsetEntry D → ℕ) → total w fresh.slots ≡ 0)
        → IsNew hs given
        → IsNew fresh given
    bare-IsNew hs fresh none bare new = tt
    bare-IsNew hs fresh (some a) bare new = (new.0, bare (is_addr a))

    like-Outcome :
        (fresh hs after : Hashset D) (a : ℕ)
        → ((x : D) → view f fresh x ≡ view f hs x)
        → Outcome fresh g q (after, a)
        → Outcome hs g q (after, a)
    like-Outcome fresh hs after a like (inl (null, refused, valid, same)) =
        inl (null, refused, valid, λ x. same x ∙ like x)
    like-Outcome fresh hs after a like (inr (some_a, has, kept)) = inr (
      some_a,
      record {
        valid = has.valid;
        reads = λ x. has.reads x ∙ ap (λ (n : ℕ). if alike f q x then a else n) (like x);
      },
      λ found. kept (λ nothing. found (sym (like q) ∙ nothing)) ∙ like q,
    )

    -- For a comparison that is an equality, data copied so that the copy compares as the data, a
    -- valid hash set, four times its slots in the range of int, a new address for the entry, and,
    -- when there are no slots yet, the memory for them, the call returns a valid hash set. Either it returns NULL, an allocation was refused,
    -- and every search finds what it found before; or it returns the address of an entry, the one
    -- that there was if there was one, which a search for any data like these finds, and every
    -- other search finds what it found before.
    pub insert_ext-Outcome :
        (hs : Hashset D)
        → IsHashset f hs
        → IsNew hs g.gives_entry
        → (hs.num_slots ≡ 0 → g.gives_slots ≡ true)
        → hs.num_slots * 4 < int_limit
        → Returns (Outcome hs g q) (nt_hashset_insert_ext hs g q stored)
    unfolding nt_hashset_insert_ext
    insert_ext-Outcome hs v new slots small = elim (ℕ_discrete hs.num_slots 0) [
      | yes e ↦
          let no_slots : (hs.num_slots == 0) ≡ true = ground arith in
          rw no_slots (
            Returns-bind (granted-IsFresh f hs 10 g.gives_slots v.called (omega arith) (slots e))
              λ (fresh, succeeds) (empty, done).
                let few : fresh.num_slots ≤ 11 = Fits-ten fresh.num_slots empty.wide in
                rw done (
                  Returns-map
                    (insert-Outcome fresh empty.valid (omega (arith, empty.wide.0))
                      (bare-IsNew hs fresh g.gives_entry empty.bare new) (omega arith))
                    λ (after, a) out.
                      like-Outcome fresh hs after a
                        (λ x. empty.nothing x ∙ sym (no_slots-view hs e x)) out))
      | no ne ↦
          let some_slots : (hs.num_slots == 0) ≡ false = ground arith in
          rw some_slots (insert-Outcome hs v (omega arith) new small)
    ]
