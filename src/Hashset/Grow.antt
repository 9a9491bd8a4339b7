-- ===== src/Hashset/Grow.antt =====
-- New hash sets, and the growth of a hash set before an entry is added.
use mathlib.Core.Path.{subst}
use nt_shm.Common.{
  ℕ, zero, suc, ◌+◌, ◌-◌, ◌*◌, ◌/◌, ◌≤◌, ◌<◌, ◌≡◌, ◌⊎◌, inl, inr, refl, sym, ◌∙◌, List, [], ◌∷◌,
  ◌++◌, Bool, true, false, Option, none, some, arith, ltb, leb, length, replicate, length-append,
  length-replicate, get_or-replicate, ltb_of_lt, le_of_ltb, lt_of_leb,
}
use nt_shm.Common.Run.{Run, ok, int_limit, ◌>>=◌, Returns, returns, Returns-bind, Returns-if}
use nt_shm.Common.Weigh.{weigh, weigh-append}
use nt_shm.Algo.Primes.Correct.{IsPrime}
use nt_shm.Algo.Primes.Least.{
  largest_told, Fits, IsNextPrime-Fits, next_prime-IsNextPrime, next_prime_of_size-IsNextPrime,
}
use nt_shm.Hashmap.Grow.{at_least_two}
use nt_shm.Hashset.{
  Funcs, HashsetEntry, Hashset, funcs_of, nt_hashset_init_slots, nt_hashset_create_ext,
  grow_if_full,
}
use nt_shm.Hashset.Chain.{total, chain_at, is_addr, is_match}
use nt_shm.Hashset.Move.{Belongs, Ordered, move_slots-Keeps}
use nt_shm.Hashset.Refines.{IsHashset, view, view-none}

module _ {D : Type 0} where
  total-replicate : (w : HashsetEntry D → ℕ) (n : ℕ) → total w (replicate n []) ≡ 0
  total-replicate w zero = refl
  total-replicate w (suc n) = omega (arith, total-replicate w n)

  chain_at-fresh :
      (slots : List (List (HashsetEntry D))) (n t : ℕ)
      → length slots ≤ t
      → chain_at (slots ++ replicate n []) t ≡ []
  chain_at-fresh [] n t h = get_or-replicate n t []
  chain_at-fresh (chain ∷ slots) n zero h = absurd (omega arith)
  chain_at-fresh (chain ∷ slots) n (suc t) h = chain_at-fresh slots n t (omega arith)

module _ {D : Type 0} (f : Funcs D) where
  -- The pointers of a hash set with these functions can be called.
  pub Returns-funcs {κ μ} :
      {B : Type κ} {Good : B → Type μ} (k : Funcs D → Run B) (hs : Hashset D)
      → hs.funcs ≡ some f
      → Returns Good (k f)
      → Returns Good (funcs_of hs >>= k)
  Returns-funcs {Good} k hs called rest =
      subst (λ run. Returns Good (run >>= k)) {x = ok f}
        (let e : ok f ≡ funcs_of hs = rw called refl in e) rest

  fresh-IsHashset :
      (hs : Hashset D) (n : ℕ)
      → hs.funcs ≡ some f
      → (n ≡ 0) ⊎ IsPrime n
      → IsHashset f (record hs { slots = replicate n []; num_slots = n; num_data = 0 })
  fresh-IsHashset hs n called prime = record {
    called = called;
    width = length-replicate n [];
    counted = sym (total-replicate _ n);
    not_null = total-replicate _ n;
    placed = λ t lt. subst (Belongs n t) (sym (chain_at-fresh [] n t (omega arith))) tt;
    unique = λ q. omega (arith, total-replicate (is_match f q) n);
    once = λ a. omega (arith, total-replicate (is_addr a) n);
    size = prime;
    load = λ ne. let two : 2 ≤ n = at_least_two n (omega arith) prime in omega arith;
  }

  -- A valid hash set that holds nothing, with room for the size that is asked for
  pub record IsFresh (init_size : ℕ) (hs : Hashset D) : Type 0 where
    pub valid : IsHashset f hs
    pub bare : (w : HashsetEntry D → ℕ) → total w hs.slots ≡ 0
    pub nothing : (q : D) → view f hs q ≡ 0
    pub wide : Fits init_size hs.num_slots

  IsFresh-slots :
      (hs : Hashset D) (n init_size : ℕ)
      → hs.funcs ≡ some f
      → (n ≡ 0) ⊎ IsPrime n
      → Fits init_size n
      → IsFresh init_size (record hs { slots = replicate n []; num_slots = n; num_data = 0 })
  IsFresh-slots hs n init_size called prime wide =
      let v = fresh-IsHashset hs n called prime in
      record {
        valid = v;
        bare = λ w. total-replicate w n;
        nothing = λ q. view-none f _ v q (total-replicate (is_match f q) n);
        wide = wide;
      }

  init_slots-IsFresh :
      (hs : Hashset D) (init_size : ℕ)
      → hs.funcs ≡ some f
      → init_size ≤ largest_told
      → Returns
          (λ (fresh, succeeds). IsFresh init_size fresh × (succeeds ≡ true))
          (nt_hashset_init_slots hs init_size (ok true))
  unfolding nt_hashset_init_slots
  init_slots-IsFresh hs init_size called told =
      Returns-if (ltb 0 init_size)
        (λ positive. Returns-bind (next_prime_of_size-IsNextPrime init_size told) λ n next.
          Returns-funcs _ hs called (
            returns (
              IsFresh-slots hs n init_size called (inr next.1) (IsNextPrime-Fits init_size n next),
              refl,
            )))
        (λ none_asked. returns (
          IsFresh-slots hs 0 init_size called (inl refl)
              (omega (arith, le_of_ltb _ _ none_asked), λ q prime le. omega arith),
          refl,
        ))

  pub granted-IsFresh :
      (hs : Hashset D) (init_size : ℕ) (granted : Bool)
      → hs.funcs ≡ some f
      → init_size ≤ largest_told
      → granted ≡ true
      → Returns
          (λ (fresh, succeeds). IsFresh init_size fresh × (succeeds ≡ true))
          (nt_hashset_init_slots hs init_size (ok granted))
  granted-IsFresh hs init_size granted called told given =
      rw given (init_slots-IsFresh hs init_size called told)

  -- For every size up to 2147302891 and all functions, when the allocation succeeds, the creation returns a valid
  -- hash set that holds nothing and has at least that many slots.
  pub create_ext-IsFresh :
      (init_size : ℕ)
      → init_size ≤ largest_told
      → Returns (IsFresh init_size) (nt_hashset_create_ext init_size f (ok true))
  unfolding nt_hashset_create_ext
  create_ext-IsFresh init_size told =
      Returns-bind
        (init_slots-IsFresh (record { slots = []; num_slots = 0; num_data = 0; funcs = some f })
          init_size refl told)
        λ (fresh, succeeds) (empty, _). returns empty

  widened-total :
      (hs : Hashset D) (w : HashsetEntry D → ℕ) (n : ℕ)
      → total w (hs.slots ++ replicate n []) ≡ total w hs.slots
  widened-total hs w n =
      omega (arith, weigh-append (weigh w) hs.slots (replicate n []), total-replicate w n)

  -- The array after the reallocation and memset() is ready for the redistribution.
  widened :
      (hs : Hashset D) (inc : ℕ)
      → IsHashset f hs
      → hs.num_slots ≤ inc
      → Ordered hs.num_slots inc 0 (hs.slots ++ replicate (inc - hs.num_slots) [])
  widened hs inc v grows = record {
    width = omega (
      arith,
      length-append hs.slots (replicate (inc - hs.num_slots) []),
      length-replicate {A = List (HashsetEntry D)} (inc - hs.num_slots) [],
      v.width,
    );
    placed = λ t lt side.
        subst (Belongs inc t)
          (sym (chain_at-fresh hs.slots (inc - hs.num_slots) t (omega (arith, v.width)))) tt;
  }

  -- A valid hash set with the same entries that stays below the load with one more
  pub record Roomy (hs larger : Hashset D) : Type 0 where
    pub valid : IsHashset f larger
    pub same : (w : HashsetEntry D → ℕ) → total w larger.slots ≡ total w hs.slots
    pub room : larger.num_data + 1 < larger.num_slots * 4 / 5

  -- Nothing is returned only when the memory is refused.
  abbrev pub Grown : Hashset D → Bool → Option (Hashset D) → Type 0
  Grown hs granted none = granted ≡ false
  Grown hs granted (some larger) = Roomy hs larger

  pub grow-Roomy :
      (hs : Hashset D) (granted : Bool)
      → IsHashset f hs
      → 0 < hs.num_slots
      → hs.num_slots * 4 < int_limit
      → Returns (Grown hs granted) (grow_if_full hs granted)
  unfolding grow_if_full
  grow-Roomy hs granted v pos small =
      let num = hs.num_slots in
      let two : 2 ≤ num = at_least_two num pos v.size in
      let light : hs.num_data < num * 4 / 5 = v.load (omega arith) in
      rw (ltb_of_lt _ _ small) (
        Returns-if (leb (num * 4 / 5) (hs.num_data + 1))
          (λ loaded.
            Returns-if granted
              (λ given.
                Returns-bind (next_prime-IsNextPrime (num * 3 / 2) (omega arith))
                  λ inc (lo, prime, least).
                    let wide : num * 4 / 5 < inc * 4 / 5 = omega arith in
                    Returns-bind
                      (move_slots-Keeps num inc (omega arith) num 0 _ (omega arith)
                        (widened hs inc v (omega arith)))
                      λ moved (ord, kept).
                        let same =
                          λ (w : HashsetEntry D → ℕ). kept w ∙ widened-total hs w (inc - num) in
                        returns (record {
                          valid = record {
                            called = v.called;
                            width = ord.width;
                            counted = v.counted ∙ sym (same (λ _. 1));
                            not_null = same (is_addr 0) ∙ v.not_null;
                            placed = λ t lt. ord.placed t lt (omega arith);
                            unique = λ q. omega (arith, v.unique q, same (is_match f q));
                            once = λ a. omega (arith, v.once a, same (is_addr a));
                            size = inr prime;
                            load = λ ne. omega arith;
                          };
                          same = same;
                          room = omega arith;
                        }))
              (λ refused. returns refused))
          (λ spare. returns (record { valid = v; same = λ w. refl; room = lt_of_leb _ _ spare })))
