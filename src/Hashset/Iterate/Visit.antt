-- ===== src/Hashset/Iterate/Visit.antt =====
-- The iteration over a hash set visits each entry once, in the order of the slots.
use mathlib.Core.Path.{subst}
use nt_shm.Common.{
  ℕ, zero, suc, ◌+◌, ◌-◌, ◌≤◌, ◌<◌, ◌≡◌, ◌≢◌, inl, inr, refl, ap, sym, ◌∙◌, List, [], ◌∷◌, ◌++◌,
  true, false, some, arith, ◌==◌, if◌then◌else◌, Bool-cases, ==_self, length, map, length-append,
}
use nt_shm.Common.Run.{
  Run, ok, out_of_fuel, Returns, returns, Returns-read, Returns-inv, ◌>>=◌, read,
}
use nt_shm.Common.Weigh.{weigh, weigh-append, weigh-get_or-le, All, All-append}
use nt_shm.Hashset.{
  Funcs, HashsetEntry, Hashset, HashsetIter, IterSlot, iter_start, iter_finish, at_slot,
}
use nt_shm.Hashset.Chain.{one_if, total, chain_at, is_addr}
use nt_shm.Hashset.Refines.{IsHashset, chain-not_null}
use nt_shm.Hashset.Move.{++_assoc}
use nt_shm.Hashset.Iterate.{
  nt_hashset_iter_reset, next_in, before, scan_slots, scan, next_entry, nt_hashset_iter_next,
}

-- The elements from an index on
abbrev pub drop {ℓ} : {A : Type ℓ} → ℕ → List A → List A
drop zero xs = xs
drop (suc n) [] = []
drop (suc n) (x ∷ xs) = drop n xs

length-drop {ℓ} : {A : Type ℓ} (n : ℕ) (xs : List A) → length (drop n xs) ≡ length xs - n
length-drop zero xs = omega arith
length-drop (suc n) [] = omega arith
length-drop (suc n) (x ∷ xs) = omega (arith, length-drop n xs)

module _ {D : Type 0} where
  abbrev pub addrs : List (HashsetEntry D) → List ℕ
  addrs = map (λ e. e.addr)

  -- The addresses of all entries, in the order of the slots
  abbrev pub all_addrs : List (List (HashsetEntry D)) → List ℕ
  all_addrs [] = []
  all_addrs (chain ∷ slots) = addrs chain ++ all_addrs slots

  -- The loop of a caller: while (NULL != (data = nt_hashset_iter_next(&iter)))
  unfoldable pub visit : ℕ → HashsetIter D → Run (List ℕ)
  visit zero iter = out_of_fuel
  visit (suc fuel) iter = nt_hashset_iter_next iter >>= λ (next, a).
      let rest : Run (List ℕ) = visit fuel next >>= λ left. ok (a ∷ left) in
      if a == 0 then ok [] else rest

  drop-cons :
      (slots : List (List (HashsetEntry D))) (t : ℕ) (chain : List (HashsetEntry D))
      (later : List (List (HashsetEntry D)))
      → drop t slots ≡ chain ∷ later
      → (read slots t ≡ ok chain) × (drop (suc t) slots ≡ later) × (chain_at slots t ≡ chain)
  drop-cons [] zero chain later e =
      absurd (omega (arith, ap (length {A = List (HashsetEntry D)}) e))
  drop-cons [] (suc t) chain later e =
      absurd (omega (arith, ap (length {A = List (HashsetEntry D)}) e))
  drop-cons (first ∷ slots) zero chain later e = (
    ap (λ (l : List (List (HashsetEntry D))). read l 0) e,
    ap (λ (l : List (List (HashsetEntry D))). drop 1 l) e,
    ap (λ (l : List (List (HashsetEntry D))). chain_at l 0) e,
  )
  drop-cons (first ∷ slots) (suc t) chain later e = drop-cons slots t chain later e

  next_in-split :
      (front : List (HashsetEntry D)) (e : HashsetEntry D) (es : List (HashsetEntry D))
      → weigh (is_addr e.addr) (front ++ e ∷ es) ≤ 1
      → next_in e.addr (front ++ e ∷ es) ≡ some es
  next_in-split [] e es once = rw (==_self e.addr) refl
  next_in-split (x ∷ front) e es once =
      let here : is_addr e.addr e ≡ 1 = ap one_if (==_self e.addr) in
      let split = weigh-append (is_addr e.addr) front (e ∷ es) in
      elim (Bool-cases (x.addr == e.addr)) [
        | inl same ↦ let one = ap one_if same in absurd (omega arith)
        | inr other ↦ rw other (next_in-split front e es (omega arith))
      ]

  addrs-not_null :
      (es : List (HashsetEntry D)) → weigh (is_addr 0) es ≡ 0 → All (λ a. a ≢ 0) (addrs es)
  addrs-not_null [] h = tt
  addrs-not_null (e ∷ es) h = (
    λ null. let one = ap (λ (a : ℕ). one_if (a == 0)) null in omega arith,
    addrs-not_null es (omega arith),
  )

  all_addrs-not_null :
      (slots : List (List (HashsetEntry D)))
      → total (is_addr 0) slots ≡ 0
      → All (λ a. a ≢ 0) (all_addrs slots)
  all_addrs-not_null [] h = tt
  all_addrs-not_null (chain ∷ slots) h =
      All-append _ (addrs chain) (all_addrs slots) (addrs-not_null chain (omega arith))
        (all_addrs-not_null slots (omega arith))

  module _ (hs : Hashset D) where
    -- The addresses that an iterator with the slot and the entry has still to give: it stands
    -- before slot t, at an entry of slot s, or behind all.
    pub data Remains (slot : IterSlot) (entry : ℕ) (left : List ℕ) : Type 0 where
      between :
          (t : ℕ)
          → t ≤ hs.num_slots
          → slot ≡ before t
          → (0 < t → entry ≡ 0)
          → left ≡ all_addrs (drop t hs.slots)
          → Remains slot entry left
      inside :
          (s : ℕ) (front : List (HashsetEntry D)) (e : HashsetEntry D) (es : List (HashsetEntry D))
          → s < hs.num_slots
          → slot ≡ at_slot s
          → entry ≡ e.addr
          → chain_at hs.slots s ≡ front ++ e ∷ es
          → left ≡ addrs es ++ all_addrs (drop (suc s) hs.slots)
          → Remains slot entry left
      finished : slot ≡ iter_finish → left ≡ [] → Remains slot entry left

    -- What a call gives when these addresses remain
    abbrev pub Yields : List ℕ → HashsetIter D × ℕ → Type 0
    Yields [] (next, a) = (a ≡ 0) × (next.hashset ≡ hs) × Remains next.slot next.entry []
    Yields (b ∷ bs) (next, a) = (a ≡ b) × (next.hashset ≡ hs) × Remains next.slot next.entry bs

    abbrev pub iter_at : IterSlot → ℕ → HashsetIter D
    iter_at slot entry = record { hashset = hs; slot = slot; entry = entry }

    scan-Yields :
        (later : List (List (HashsetEntry D))) (fuel t : ℕ) (slot : IterSlot) (entry : ℕ)
        → drop t hs.slots ≡ later
        → t + length later ≡ hs.num_slots
        → length later < fuel
        → Returns (Yields (all_addrs later)) (scan_slots fuel t (iter_at slot entry))
    unfolding scan_slots
    scan-Yields later zero t slot entry e all enough = absurd (omega arith)
    scan-Yields [] (suc fuel) t slot entry e all enough =
        let at_end : (t == hs.num_slots) ≡ true = ground arith in
        rw at_end (returns (refl, refl, finished refl refl))
    scan-Yields ([] ∷ later) (suc fuel) t slot entry e all enough =
        let not_end : (t == hs.num_slots) ≡ false = ground arith in
        let split = drop-cons hs.slots t [] later e in
        rw (not_end, split.0)
          (scan-Yields later fuel (t + 1) slot entry
            (subst (λ (n : ℕ). drop n hs.slots ≡ later) {x = suc t} (omega arith) split.1)
            (omega arith) (omega arith))
    scan-Yields ((x ∷ es) ∷ later) (suc fuel) t slot entry e all enough =
        let not_end : (t == hs.num_slots) ≡ false = ground arith in
        let split = drop-cons hs.slots t (x ∷ es) later e in
        rw (not_end, split.0)
          (returns (
            refl,
            refl,
            inside t [] x es (omega arith) refl refl split.2
                (ap (λ (l : List (List (HashsetEntry D))). addrs es ++ all_addrs l) (sym split.1)),
          ))

    module _ (f : Funcs D) (v : IsHashset f hs) where
      from-Yields :
          (t : ℕ) (slot : IterSlot) (entry : ℕ)
          → t ≤ hs.num_slots
          → Returns (Yields (all_addrs (drop t hs.slots))) (scan t (iter_at slot entry))
      from-Yields t slot entry le =
          scan-Yields (drop t hs.slots) (hs.num_slots + 1) t slot entry refl
            (omega (arith, length-drop t hs.slots, v.width))
            (omega (arith, length-drop t hs.slots, v.width))

      from-behind :
          (s : ℕ) (slot : IterSlot) (entry : ℕ)
          → suc s ≤ hs.num_slots
          → Returns (Yields (all_addrs (drop (suc s) hs.slots))) (scan (s + 1) (iter_at slot entry))
      from-behind s slot entry le =
          subst
            (λ (n : ℕ).
              Returns (Yields (all_addrs (drop (suc s) hs.slots))) (scan n (iter_at slot entry)))
            {x = suc s} (omega arith) (from-Yields (suc s) slot entry le)

      along-Yields :
          (slot : IterSlot) (entry s : ℕ) (front : List (HashsetEntry D)) (e : HashsetEntry D)
          (es : List (HashsetEntry D))
          → s < hs.num_slots
          → slot ≡ at_slot s
          → chain_at hs.slots s ≡ front ++ e ∷ es
          → Returns
              (Yields (addrs es ++ all_addrs (drop (suc s) hs.slots)))
              (next_entry s (iter_at slot entry) (some es))
      unfolding next_entry
      along-Yields slot entry s front e [] lt here at = from-behind s slot entry lt
      along-Yields slot entry s front e (x ∷ es) lt here at = returns (
        refl,
        refl,
        inside s (front ++ e ∷ []) x es lt here refl (at ∙ sym (++_assoc front (e ∷ []) (x ∷ es)))
            refl,
      )

      -- The entry of an iterator is the only one in its chain with its address.
      pub entry-found :
          (s : ℕ) (front : List (HashsetEntry D)) (e : HashsetEntry D) (es : List (HashsetEntry D))
          → s < hs.num_slots
          → chain_at hs.slots s ≡ front ++ e ∷ es
          → (e.addr ≢ 0) × (weigh (is_addr e.addr) (front ++ e ∷ es) ≤ 1)
      entry-found s front e es lt at = (
        λ null.
            let one = ap (λ (a : ℕ). one_if (a == 0)) null in
            omega (
              arith,
              chain-not_null f hs v s lt,
              ap (weigh (is_addr 0)) at,
              weigh-append (is_addr 0) front (e ∷ es),
            ),
        omega (
          arith,
          v.once e.addr,
          weigh-get_or-le (weigh (is_addr e.addr)) hs.slots s [] (omega (arith, v.width)),
          ap (weigh (is_addr e.addr)) at,
        ),
      )

      -- A call gives the first address that remains, or NULL when none does.
      next-Yields :
          (slot : IterSlot) (entry : ℕ) (left : List ℕ)
          → Remains slot entry left
          → Returns (Yields left) (nt_hashset_iter_next (iter_at slot entry))
      unfolding nt_hashset_iter_next
      next-Yields slot entry left (between zero le here free all) =
          rw (here, all) (from-Yields 0 slot entry le)
      next-Yields slot entry left (between (suc s) le here free all) =
          let null : (entry == 0) ≡ true = ground (arith, free (omega arith)) in
          rw (all, here, null) (from-behind s slot entry le)
      next-Yields slot entry left (inside s front e es lt here at_e at all) =
          let in_slots : s < length hs.slots = omega (arith, v.width) in
          let only = entry-found s front e es lt at in
          let differs = only.0 in
          let not_null : (entry == 0) ≡ false = ground arith in
          let found : next_in entry (chain_at hs.slots s) ≡ some es =
            rw (at_e, at) (next_in-split front e es only.1) in
          rw (all, here, not_null)
            (Returns-read _ hs.slots s [] in_slots
              (rw found (along-Yields slot entry s front e es lt here at)))
      next-Yields slot entry left (finished here all) =
          rw (here, all) (returns (refl, refl, finished here refl))

      -- The loop gives the addresses that remain.
      visit-Remains :
          (left : List ℕ) (fuel : ℕ) (slot : IterSlot) (entry : ℕ)
          → Remains slot entry left
          → All (λ a. a ≢ 0) left
          → length left < fuel
          → visit fuel (iter_at slot entry) ≡ ok left
      unfolding visit
      visit-Remains left zero slot entry r ok_left enough = absurd (omega arith)
      visit-Remains [] (suc fuel) slot entry r ok_left enough =
          let (next, run, done) = Returns-inv (next-Yields slot entry [] r) in rw (run, done.0) refl
      visit-Remains (a ∷ left) (suc fuel) slot entry r ok_left enough =
          let (next, run, more) = Returns-inv (next-Yields slot entry (a ∷ left) r) in
          let differs = ok_left.0 in
          let not_null : (a == 0) ≡ false = ground arith in
          let rest =
            visit-Remains left fuel next.0.slot next.0.entry more.2 ok_left.1 (omega arith) in
          let same : next.0 ≡ iter_at next.0.slot next.0.entry =
            ap (λ (h : Hashset D). record next.0 { hashset = h }) more.1 in
          let later : visit fuel next.0 ≡ ok left =
            subst (λ (it : HashsetIter D). visit fuel it ≡ ok left) (sym same) rest in
          rw (run, more.0, not_null, later) refl

  length-all_addrs :
      (slots : List (List (HashsetEntry D))) → length (all_addrs slots) ≡ total (λ _. 1) slots
  length-all_addrs [] = refl
  length-all_addrs (chain ∷ slots) = omega (
    arith,
    length-append (addrs chain) (all_addrs slots),
    length-addrs chain,
    length-all_addrs slots,
  )
    where
      length-addrs :
          (es : List (HashsetEntry D)) → length (addrs es) ≡ weigh (λ (_ : HashsetEntry D). 1) es
      length-addrs [] = refl
      length-addrs (e ∷ es) = omega (arith, length-addrs es)

  -- For a valid hash set, a caller that resets any iterator on it and then asks for the next entry
  -- until it gets NULL gets the addresses of all entries, in the order of the slots and each as
  -- often as it stands there, and the loop ends after one call more than there are entries.
  pub visit-reset :
      (f : Funcs D) (hs : Hashset D) (iter : HashsetIter D)
      → IsHashset f hs
      → visit (hs.num_data + 1) (nt_hashset_iter_reset hs iter) ≡ ok (all_addrs hs.slots)
  unfolding nt_hashset_iter_reset
  visit-reset f hs iter v =
      visit-Remains hs f v (all_addrs hs.slots) (hs.num_data + 1) iter_start iter.entry
        (between 0 (omega arith) refl (λ lt. absurd (omega arith)) refl)
        (all_addrs-not_null hs.slots v.not_null)
        (omega (arith, v.counted, length-all_addrs hs.slots))
