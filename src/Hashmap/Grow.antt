-- ===== src/Hashmap/Grow.antt =====
-- New tables, the replacement of one slot, and the growth of a loaded table.
use mathlib.Core.Path.{subst}
use native.Mathlib.Decide.{ℕ_discrete}
use native.Mathlib.Nat.{le_of_lt}
use nt_shm.Common.{
  ℕ, zero, suc, ◌+◌, ◌-◌, ◌*◌, ◌/◌, ◌^◌, ◌≤◌, ◌<◌, ◌≡◌, ◌≢◌, ◌⊎◌, inl, inr, refl, ap, sym, ◌∙◌,
  List, [], ◌∷◌, ◌++◌, Option, none, some, true, arith, ltb, leb, length, set, replicate,
  length-set, get_or-set, length-append, length-replicate, get_or-replicate, ltb_of_lt, le_of_ltb,
  lt_of_leb,
}
use nt_shm.Common.Run.{int_limit, Returns, returns, Returns-bind, Returns-if}
use nt_shm.Common.Weigh.{weigh, weigh-append, weigh-set, All-append, All-set, All-replicate}
use nt_shm.Algo.Primes.Correct.{IsPrime}
use nt_shm.Algo.Primes.Least.{
  largest_told, Fits, IsNextPrime-Fits, next_prime-IsNextPrime, next_prime_of_size-IsNextPrime,
}
use nt_shm.Algo.Primes.Large.{next_prime_of_size-add}
use nt_shm.Hashmap.{
  Entry, Slot, HashMap, empty_slot, call, nt_hashmap_init_slots, nt_hashmap_create_ext,
  grow_if_loaded,
}
use nt_shm.Hashmap.Contents.{is_key, total, HasRoom}
use nt_shm.Hashmap.Rehash.{slot_at, entries_at}
use nt_shm.Hashmap.Rehash.Loops.{BelongsIn, Ready, rehash-Ready}
use nt_shm.Hashmap.Refines.{IsBounded, IsValid, view, view-none}

total-replicate : (w : Entry → ℕ) (n : ℕ) → total w (replicate n empty_slot) ≡ 0
total-replicate w zero = refl
total-replicate w (suc n) = omega (arith, total-replicate w n)

entries_at-fresh :
    (slots : List Slot) (n t : ℕ)
    → length slots ≤ t
    → entries_at (slots ++ replicate n empty_slot) t ≡ []
entries_at-fresh [] n t h = ap (λ (slot : Slot). slot.entries) (get_or-replicate n t empty_slot)
entries_at-fresh (slot ∷ slots) n zero h = absurd (omega arith)
entries_at-fresh (slot ∷ slots) n (suc t) h = entries_at-fresh slots n t (omega arith)

-- A pointer that was set can be called.
pub call-ok {ℓ} :
    {F : Type ℓ} (pointer : Option F) {f : F}
    → pointer ≡ some f
    → Returns (λ (g : F). g ≡ f) (call pointer)
call-ok pointer e = rw e (returns refl)

pub at_least_two : (n : ℕ) → 0 < n → (n ≡ 0) ⊎ IsPrime n → 2 ≤ n
at_least_two n pos (inl e) = absurd (omega arith)
at_least_two n pos (inr prime) = prime.0

module _ (hash_func : ℕ → ℕ) where
  -- A table without entries.
  pub record IsEmpty (hm : HashMap) : Type 0 where
    pub valid : IsValid hash_func hm
    pub nothing : (q : ℕ) → view hash_func hm q ≡ none

  fresh-IsEmpty :
      (hm : HashMap) (n : ℕ)
      → hm.hash_func ≡ some hash_func
      → (n ≡ 0) ⊎ IsPrime n
      → IsEmpty (record hm { slots = replicate n empty_slot; num_slots = n; num_data = 0 })
  fresh-IsEmpty hm n called prime = record {
    valid = v;
    nothing = λ q. view-none hash_func _ v q (total-replicate (is_key q) n);
  }
    where
      v :
          IsValid hash_func
            (record hm { slots = replicate n empty_slot; num_slots = n; num_data = 0 })
      v = record {
        called = called;
        width = length-replicate n empty_slot;
        counted = sym (total-replicate _ n);
        room = All-replicate HasRoom n empty_slot (omega arith);
        placed = λ t lt.
            subst (BelongsIn hash_func n t) (sym (entries_at-fresh [] n t (omega arith))) tt;
        unique = λ q. omega (arith, total-replicate (is_key q) n);
        size = prime;
        load = λ some_slots. omega arith;
      }

  -- Fresh slots make a valid table that holds nothing, of at least the size that is asked for.
  pub init_slots-IsEmpty :
      (hm : HashMap) (init_size : ℕ)
      → hm.hash_func ≡ some hash_func
      → init_size ≤ largest_told
      → Returns
          (λ (fresh : HashMap). IsEmpty fresh × Fits init_size fresh.num_slots)
          (nt_hashmap_init_slots hm init_size)
  unfolding nt_hashmap_init_slots
  init_slots-IsEmpty hm init_size called told =
      Returns-if (ltb 0 init_size)
        (λ positive. Returns-bind (next_prime_of_size-IsNextPrime init_size told) λ n next.
          Returns-bind (call-ok hm.hash_func called) λ f same.
            returns (fresh-IsEmpty hm n called (inr next.1), IsNextPrime-Fits init_size n next))
        (λ none_asked. returns (
          fresh-IsEmpty hm 0 called (inl refl),
          (omega (arith, le_of_ltb _ _ none_asked), λ q prime le. omega arith),
        ))

  -- For every size up to 2147302891 and every hash function the creation returns a valid table that
  -- holds no key, has at least that many slots, and at most as many as any prime from the size on.
  pub create_ext-IsEmpty :
      (init_size : ℕ)
      → init_size ≤ largest_told
      → Returns
          (λ (fresh : HashMap). IsEmpty fresh × Fits init_size fresh.num_slots)
          (nt_hashmap_create_ext init_size hash_func)
  unfolding nt_hashmap_create_ext
  create_ext-IsEmpty init_size told =
      init_slots-IsEmpty
        (record { slots = []; num_slots = 0; num_data = 0; hash_func = some hash_func }) init_size
        refl told

  -- The size is converted to int: for a positive size, a multiple of 2 ^ 32 more makes no difference
  -- to the table that is created.
  pub create_ext-add :
      (init_size n : ℕ)
      → 0 < init_size
      → nt_hashmap_create_ext (2 ^ 32 * n + init_size) hash_func
        ≡ nt_hashmap_create_ext init_size hash_func
  unfolding nt_hashmap_create_ext nt_hashmap_init_slots
  create_ext-add init_size n pos =
      let asked : ltb 0 init_size ≡ true = ground arith in
      let asked_more : ltb 0 (2 ^ 32 * n + init_size) ≡ true = ltb_of_lt _ _ (omega arith) in
      rw (asked, asked_more, next_prime_of_size-add init_size n) refl

  pub total-replace :
      (hm : HashMap) (w : Entry → ℕ) (t : ℕ) (slot : Slot)
      → t < length hm.slots
      → total w (set hm.slots t slot) + weigh w (entries_at hm.slots t)
        ≡ total w hm.slots + weigh w slot.entries
  total-replace hm w t slot lt =
      weigh-set (λ (s : Slot). weigh w s.entries) hm.slots t slot empty_slot lt

  -- A slot may be replaced by one whose entries belong there.
  pub replace-IsBounded :
      (hm : HashMap) (t n extra : ℕ) (slot : Slot)
      → IsValid hash_func hm
      → t < hm.num_slots
      → HasRoom slot
      → BelongsIn hash_func hm.num_slots t slot.entries
      → n ≡ total (λ _. 1) (set hm.slots t slot)
      → n < hm.num_slots * 5 + extra
      → ((q : ℕ) → total (is_key q) (set hm.slots t slot) ≤ 1)
      → IsBounded hash_func extra (record hm { slots = set hm.slots t slot; num_data = n })
  replace-IsBounded hm t n extra slot v lt room belongs counted load unique = record {
    called = v.called;
    width = length-set hm.slots t slot ∙ v.width;
    counted = counted;
    room = All-set HasRoom hm.slots t slot v.room room;
    placed = λ j inside. elim (ℕ_discrete j t) [
      | yes same ↦
          subst (λ (s : Slot). BelongsIn hash_func hm.num_slots j s.entries) (sym (at j same))
            (subst (λ (i : ℕ). BelongsIn hash_func hm.num_slots i slot.entries) (sym same) belongs)
      | no other ↦
          subst (λ (s : Slot). BelongsIn hash_func hm.num_slots j s.entries)
            (sym (elsewhere j other)) (v.placed j inside)
    ];
    unique = unique;
    size = v.size;
    load = λ _. load;
  }
    where
      at : (j : ℕ) → j ≡ t → slot_at (set hm.slots t slot) j ≡ slot
      at j same = ground (arith, get_or-set hm.slots t j slot empty_slot, v.width)

      elsewhere : (j : ℕ) → j ≢ t → slot_at (set hm.slots t slot) j ≡ slot_at hm.slots j
      elsewhere j other = ground (arith, get_or-set hm.slots t j slot empty_slot, v.width)

  widened-total :
      (hm : HashMap) (w : Entry → ℕ) (n : ℕ)
      → total w (hm.slots ++ replicate n empty_slot) ≡ total w hm.slots
  widened-total hm w n = omega (
    arith,
    weigh-append (λ (s : Slot). weigh w s.entries) hm.slots (replicate n empty_slot),
    total-replicate w n,
  )

  -- The array after realloc() and memset() is ready for the redistribution.
  widened :
      (hm : HashMap) (inc : ℕ)
      → IsBounded hash_func 1 hm
      → hm.num_slots < inc
      → Ready hash_func hm.num_slots inc 0 0 (hm.slots ++ replicate (inc - hm.num_slots) empty_slot)
  widened hm inc v grows = record {
    width = omega (
      arith,
      length-append hm.slots (replicate (inc - hm.num_slots) empty_slot),
      length-replicate (inc - hm.num_slots) empty_slot,
      v.width,
    );
    room =
        All-append HasRoom hm.slots _ v.room
          (All-replicate HasRoom (inc - hm.num_slots) empty_slot (omega arith));
    placed = λ t lt side.
        subst (BelongsIn hash_func inc t)
          (sym (entries_at-fresh hm.slots (inc - hm.num_slots) t (omega (arith, v.width)))) tt;
    scanned = λ j lt inside. absurd (omega arith);
  }

  -- A valid table of the same contents.
  abbrev pub Same : HashMap → HashMap → Type 0
  Same hm after =
      IsValid hash_func after × ((w : Entry → ℕ) → total w after.slots ≡ total w hm.slots)

  -- For a table with slots, five times as many of them in the range of int, that is valid but for
  -- one entry too many under the bound on the load, the test and the growth return a valid table
  -- with the same entries.
  pub grow-IsValid :
      (hm : HashMap)
      → IsBounded hash_func 1 hm
      → 0 < hm.num_slots
      → hm.num_slots * 5 < int_limit
      → Returns (Same hm) (grow_if_loaded hm)
  unfolding grow_if_loaded
  grow-IsValid hm v pos small = rw (ltb_of_lt _ _ small) (
      Returns-if (leb (hm.num_slots * 5 / 1) hm.num_data)
        (λ loaded. Returns-bind (call-ok hm.hash_func v.called) λ f same.
          Returns-bind (next_prime-IsNextPrime (hm.num_slots * 3 / 2) (omega arith))
            λ inc (lo, prime, least).
              let num = hm.num_slots in
              let two : 2 ≤ num = at_least_two num pos v.size in
              let grows : num < inc = omega arith in
              let wide : num * 5 < inc * 5 = omega arith in
              rw same (
                Returns-bind
                  (rehash-Ready hash_func num inc (le_of_lt grows) num 0 _ (omega arith)
                    (widened hm inc v grows))
                  λ moved (ready, kept).
                    let same_total = λ (w : Entry → ℕ). kept w ∙ widened-total hm w (inc - num) in
                    returns (
                      record {
                        called = v.called;
                        width = ready.width;
                        counted = v.counted ∙ sym (same_total (λ _. 1));
                        room = ready.room;
                        placed = λ t lt. ready.placed t lt (omega arith);
                        unique = λ q. omega (arith, v.unique q, same_total (is_key q));
                        size = inr prime;
                        load = λ ne. omega (arith, v.load);
                      },
                      same_total,
                    )))
        (λ light. returns (
          record {
            called = v.called;
            width = v.width;
            counted = v.counted;
            room = v.room;
            placed = v.placed;
            unique = v.unique;
            size = v.size;
            load = λ ne. omega (arith, lt_of_leb _ _ light);
          },
          λ w. refl,
        )))
