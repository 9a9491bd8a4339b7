-- ===== src/Hashset/Iterate/Erase.antt =====
-- Removal through the iterator of the hash set.
use mathlib.Core.Path.{subst}
use nt_shm.Common.{
  ℕ, zero, suc, ◌≤◌, ◌<◌, ◌≡◌, inl, inr, refl, ap, sym, ◌∙◌, List, [], ◌∷◌, ◌++◌, false, arith,
  ◌==◌, Bool-cases, ==_self, length, get_or, set, get_or-set, length-set,
}
use nt_shm.Common.Run.{ok, Returns, returns, Returns-read}
use nt_shm.Common.Weigh.{weigh, weigh-append, All}
use nt_shm.Hashset.{Funcs, HashsetEntry, Hashset, HashsetIter, at_slot}
use nt_shm.Hashset.Chain.{one_if, chain_at, is_addr}
use nt_shm.Hashset.Refines.{IsHashset}
use nt_shm.Hashset.Move.{Belongs, ++_assoc}
use nt_shm.Hashset.Remove.{Without, unlinked-Without}
use nt_shm.Hashset.Iterate.{unlink_after, shortened, iter_remove_at, nt_hashset_iter_remove}
use nt_shm.Hashset.Iterate.Visit.{
  drop, addrs, all_addrs, Remains, between, inside, iter_at, entry-found,
}

drop-set {ℓ} :
    {A : Type ℓ} (xs : List A) (i n : ℕ) (a : A) → i < n → drop n (set xs i a) ≡ drop n xs
drop-set xs i zero a lt = absurd (omega arith)
drop-set [] i (suc n) a lt = refl
drop-set (x ∷ xs) zero (suc n) a lt = refl
drop-set (x ∷ xs) (suc i) (suc n) a lt = drop-set xs i n a (omega arith)

drop-at {ℓ} :
    {A : Type ℓ} (xs : List A) (n : ℕ) (d : A)
    → n < length xs
    → drop n xs ≡ get_or xs n d ∷ drop (suc n) xs
drop-at [] n d lt = absurd (omega arith)
drop-at (x ∷ xs) zero d lt = refl
drop-at (x ∷ xs) (suc n) d lt = drop-at xs n d (omega arith)

module _ {D : Type 0} where
  -- The walk to the entry at a address stops at the entry in front of it.
  StopsBefore :
      ℕ
      → HashsetEntry D
      → List (HashsetEntry D)
      → List (HashsetEntry D)
      → List (HashsetEntry D)
      → Type 0
  StopsBefore a prev curr front es =
      (p : HashsetEntry D) × (fore : List (HashsetEntry D)) × (unlink_after a prev curr
        ≡ ok (p.addr, front ++ es))
      × (prev ∷ front ≡ fore ++ p ∷ [])

  unlink_after-StopsBefore :
      (prev : HashsetEntry D) (front : List (HashsetEntry D)) (e : HashsetEntry D)
      (es : List (HashsetEntry D))
      → weigh (is_addr e.addr) (front ++ e ∷ es) ≤ 1
      → StopsBefore e.addr prev (front ++ e ∷ es) front es
  unfolding unlink_after StopsBefore
  unlink_after-StopsBefore prev [] e es once = (prev, [], rw (==_self e.addr) refl, refl)
  unlink_after-StopsBefore prev (x ∷ front) e es once =
      let here : is_addr e.addr e ≡ 1 = ap one_if (==_self e.addr) in
      let split = weigh-append (is_addr e.addr) front (e ∷ es) in
      elim (Bool-cases (x.addr == e.addr)) [
        | inl same ↦ let one = ap one_if same in absurd (omega arith)
        | inr other ↦
            further prev x front e es other (unlink_after-StopsBefore x front e es (omega arith))
      ]
    where
      further :
          (prev x : HashsetEntry D) (front : List (HashsetEntry D)) (e : HashsetEntry D)
          (es : List (HashsetEntry D))
          → (x.addr == e.addr) ≡ false
          → StopsBefore e.addr x (front ++ e ∷ es) front es
          → StopsBefore e.addr prev (x ∷ front ++ e ∷ es) (x ∷ front) es
      further prev x front e es other (p, fore, run, ends) =
          (p, prev ∷ fore, rw (other, run) refl, ap (λ (l : List (HashsetEntry D)). prev ∷ l) ends)

  All-delete :
      (P : HashsetEntry D → Type 0) (front : List (HashsetEntry D)) (e : HashsetEntry D)
      (es : List (HashsetEntry D))
      → All P (front ++ e ∷ es)
      → All P (front ++ es)
  All-delete P [] e es all = all.1
  All-delete P (x ∷ front) e es all = (all.0, All-delete P front e es all.1)

  module _ (f : Funcs D) (hs : Hashset D) (v : IsHashset f hs) where
    -- The entry is gone, and the iterator has as much left as before.
    pub record Erased (e : HashsetEntry D) (left : List ℕ) (after : HashsetIter D) : Type 0 where
      pub without : Without f hs e after.hashset
      pub remains : Remains after.hashset after.slot after.entry left

    shortened-Without :
        (s : ℕ) (front : List (HashsetEntry D)) (e : HashsetEntry D) (es : List (HashsetEntry D))
        → s < hs.num_slots
        → chain_at hs.slots s ≡ front ++ e ∷ es
        → Without f hs e (shortened hs s (front ++ es))
    shortened-Without s front e es lt at =
        unlinked-Without f hs s e (front ++ es) v lt
          (λ w.
            omega (arith, ap (weigh w) at, weigh-append w front (e ∷ es), weigh-append w front es))
          (All-delete _ front e es (subst (Belongs hs.num_slots s) at (v.placed s lt)))

    chain_at-shortened :
        (s : ℕ) (rest : List (HashsetEntry D))
        → s < hs.num_slots
        → chain_at (set hs.slots s rest) s ≡ rest
    chain_at-shortened s rest lt =
        get_or-set hs.slots s s rest [] (omega (arith, v.width)) ∙ rw (==_self s) refl

    erase-front :
        (s : ℕ) (front : List (HashsetEntry D)) (e : HashsetEntry D) (es : List (HashsetEntry D))
        → s < hs.num_slots
        → chain_at hs.slots s ≡ front ++ e ∷ es
        → weigh (is_addr e.addr) (front ++ e ∷ es) ≤ 1
        → Returns
            (Erased e (addrs es ++ all_addrs (drop (suc s) hs.slots)))
            (iter_remove_at s (iter_at hs (at_slot s) e.addr) (front ++ e ∷ es))
    unfolding iter_remove_at StopsBefore
    erase-front s [] e es lt at once =
        let slots = set hs.slots s es in
        let unfolded : drop s slots ≡ es ∷ drop (suc s) hs.slots =
          drop-at slots s [] (omega (arith, length-set hs.slots s es, v.width))
          ∙ rw (chain_at-shortened s es lt, drop-set hs.slots s (suc s) es (omega arith)) refl in
        rw (==_self e.addr) (
          returns record {
            without = shortened-Without s [] e es lt at;
            remains =
                between s (omega arith) refl (λ _. refl) (ap (all_addrs {D = D}) (sym unfolded));
          })
    erase-front s (x ∷ front) e es lt at once =
        let here : is_addr e.addr e ≡ 1 = ap one_if (==_self e.addr) in
        let split = weigh-append (is_addr e.addr) front (e ∷ es) in
        let other : (x.addr == e.addr) ≡ false = elim (Bool-cases (x.addr == e.addr)) [
          | inl same ↦ let one = ap one_if same in absurd (omega arith)
          | inr differs ↦ differs
        ] in
        let (p, fore, run, ends) = unlink_after-StopsBefore x front e es (omega arith) in
        let rest = x ∷ front ++ es in
        let cut : chain_at (set hs.slots s rest) s ≡ fore ++ p ∷ es =
          chain_at-shortened s rest lt
          ∙ ap (λ (l : List (HashsetEntry D)). l ++ es) ends
          ∙ ++_assoc fore (p ∷ []) es in
        rw (other, run)
          (returns record {
            without = shortened-Without s (x ∷ front) e es lt at;
            remains = inside s fore p es lt refl refl cut (
                ap (λ (l : List (List (HashsetEntry D))). addrs es ++ all_addrs l)
                  (sym (drop-set hs.slots s (suc s) rest (omega arith))));
          })

    -- For a valid hash set and an iterator at an entry, the removal through the iterator takes
    -- exactly that entry out and leaves a valid hash set, and the iterator goes on with the
    -- addresses that remained before.
    pub iter_remove-Erased :
        (s : ℕ) (front : List (HashsetEntry D)) (e : HashsetEntry D) (es : List (HashsetEntry D))
        → s < hs.num_slots
        → chain_at hs.slots s ≡ front ++ e ∷ es
        → Returns
            (Erased e (addrs es ++ all_addrs (drop (suc s) hs.slots)))
            (nt_hashset_iter_remove (iter_at hs (at_slot s) e.addr))
    unfolding nt_hashset_iter_remove iter_remove_at
    iter_remove-Erased s front e es lt at =
        let only = entry-found hs f v s front e es lt at in
        let differs = only.0 in
        let not_null : (e.addr == 0) ≡ false = ground arith in
        let inside_slots : s < length hs.slots = omega (arith, v.width) in
        rw not_null (
          Returns-read _ hs.slots s [] inside_slots (rw at (erase-front s front e es lt at only.1)))
