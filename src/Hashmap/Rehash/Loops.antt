-- ===== src/Hashmap/Rehash/Loops.antt =====
-- The two loops of the redistribution: over the entries of a slot, and over the old slots.
use nt_shm.Hashmap.Rehash.{entries_at, Moved, move_entry-Moved}
use mathlib.Core.Path.{subst}
use native.Mathlib.Decide.{ℕ_discrete}
use nt_shm.Common.{
  ℕ, zero, suc, ◌+◌, ◌%◌, ◌≤◌, ◌<◌, ◌≡◌, ◌≢◌, ◌⊎◌, refl, sym, ◌∙◌, List, [], ◌∷◌, arith, ◌==◌, ltb,
  length, get_or, eq_of_==, ne_of_==, lt_of_ltb, le_of_ltb,
}
use nt_shm.Common.Run.{read-ok, Returns, returns, Returns-bind, Returns-if, Returns-map}
use nt_shm.Common.Weigh.{All, All-append}
use nt_shm.Hashmap.{Entry, Slot, empty_slot, rehash_slot, rehash}
use nt_shm.Hashmap.Contents.{no_entry, total, HasRoom}

All-of_get_or :
    (P : Entry → Type 0) (es : List Entry)
    → ((j : ℕ) → j < length es → P (get_or es j no_entry))
    → All P es
All-of_get_or P [] h = tt
All-of_get_or P (e ∷ es) h =
    (h 0 (omega arith), All-of_get_or P es (λ j lt. h (suc j) (omega arith)))

-- Every entry belongs in slot t of `size` slots.
abbrev pub BelongsIn : (ℕ → ℕ) → ℕ → ℕ → List Entry → Type 0
BelongsIn hash_func size t = All (λ (e : Entry). hash_func e.key % size ≡ t)

module _ (hash_func : ℕ → ℕ) (num_slots inc_slots : ℕ) where
  -- The slots before s and the new ones are in order, and so are the first i entries of slot s.
  pub record Ready (s i : ℕ) (slots : List Slot) : Type 0 where
    pub width : length slots ≡ inc_slots
    pub room : All HasRoom slots
    pub placed :
        (t : ℕ)
        → t < inc_slots
        → (t < s) ⊎ (num_slots ≤ t)
        → BelongsIn hash_func inc_slots t (entries_at slots t)
    pub scanned :
        (j : ℕ)
        → j < i
        → j < length (entries_at slots s)
        → hash_func (get_or (entries_at slots s) j no_entry).key % inc_slots ≡ s

  abbrev pub Keeps : ℕ → List Slot → List Slot → Type 0
  Keeps s slots after = Ready s 0 after × ((w : Entry → ℕ) → total w after ≡ total w slots)

  finish_slot :
      (s i : ℕ) (slots : List Slot)
      → s < num_slots
      → length (entries_at slots s) ≤ i
      → Ready s i slots
      → Ready (suc s) 0 slots
  finish_slot s i slots hs done r = record {
    width = r.width;
    room = r.room;
    placed = λ t lt side. elim (ℕ_discrete t s) [
      | yes same ↦
          subst (λ (t' : ℕ). BelongsIn hash_func inc_slots t' (entries_at slots t')) (sym same)
            (All-of_get_or _ (entries_at slots s) λ j inside. r.scanned j (omega arith) inside)
      | no other ↦ r.placed t lt (omega arith)
    ];
    scanned = λ j lt inside. absurd (omega arith);
  }

  scan_next :
      (s i : ℕ) (slots : List Slot)
      → s ≡ hash_func (get_or (entries_at slots s) i no_entry).key % inc_slots
      → Ready s i slots
      → Ready s (i + 1) slots
  scan_next s i slots here r = record {
    width = r.width;
    room = r.room;
    placed = r.placed;
    scanned = λ j lt inside. elim (ℕ_discrete j i) [
      | yes same ↦
          subst
            (λ (j' : ℕ). hash_func (get_or (entries_at slots s) j' no_entry).key % inc_slots ≡ s)
            (sym same) (sym here)
      | no other ↦ r.scanned j (omega arith) inside
    ];
  }

  scan-Moved :
      num_slots ≤ inc_slots
      → (s i target : ℕ) (e : Entry) (slots after : List Slot) → s < num_slots
      → s ≢ target
      → hash_func e.key % inc_slots ≡ target
      → Moved slots s i target e after
      → Ready s i slots
      → Ready s i after
  scan-Moved grows s i target e slots after hs ne home m r = record {
    width = m.width ∙ r.width;
    room = m.room;
    placed = λ t lt side. elim (ℕ_discrete t target) [
      | yes same ↦
          subst (λ (t' : ℕ). BelongsIn hash_func inc_slots t' (entries_at after t')) (sym same)
            (subst (BelongsIn hash_func inc_slots target) (sym m.received) (
              All-append _ (entries_at slots target) (e ∷ [])
                (r.placed target (omega arith) (omega arith)) (home, tt)))
      | no other ↦
          subst (BelongsIn hash_func inc_slots t) (sym (m.others t (omega arith) other))
            (r.placed t lt side)
    ];
    scanned = λ j lt inside.
        subst (λ (x : Entry). hash_func x.key % inc_slots ≡ s) (sym (m.before j lt))
          (r.scanned j lt (omega (arith, m.shorter)));
  }

  rehash_slot-Ready :
      num_slots ≤ inc_slots
      → (fuel s i : ℕ) (slots : List Slot) → s < num_slots
      → i ≤ length (entries_at slots s)
      → length (entries_at slots s) < fuel + i
      → Ready s i slots
      → Returns (Keeps (suc s) slots) (rehash_slot hash_func inc_slots fuel s i slots)
  unfolding rehash_slot
  rehash_slot-Ready grows zero s i slots hs inside_i f r = absurd (omega arith)
  rehash_slot-Ready grows (suc fuel) s i slots hs inside_i f r =
      let e = get_or (entries_at slots s) i no_entry in
      let target = hash_func e.key % inc_slots in
      let inside : s < length slots = omega (arith, r.width) in
      rw (read-ok slots s empty_slot inside) (
        Returns-if (ltb i (length (entries_at slots s)))
          (λ more.
            let hi = lt_of_ltb _ _ more in
            rw (read-ok (entries_at slots s) i no_entry hi) (
              Returns-if (s == target)
                (λ stays.
                  rehash_slot-Ready grows fuel s (i + 1) slots hs (omega arith) (omega arith)
                    (scan_next s i slots (eq_of_== _ _ stays) r))
                (λ goes.
                  let ne : s ≢ target = ne_of_== _ _ goes in
                  let ht : target < length slots = omega (arith, r.width) in
                  Returns-bind (move_entry-Moved slots s i target inside ht ne hi r.room) λ after m.
                    Returns-map
                      (rehash_slot-Ready grows fuel s i after hs (omega (arith, m.shorter))
                        (omega (arith, m.shorter))
                        (scan-Moved grows s i target e slots after hs ne refl m r))
                      λ last (ready, kept). (ready, λ w. kept w ∙ m.kept w))))
          (λ stop. returns (finish_slot s i slots hs (le_of_ltb _ _ stop) r, λ w. refl)))

  -- The redistribution returns a table in order, of the same contents.
  pub rehash-Ready :
      num_slots ≤ inc_slots
      → (rounds s : ℕ) (slots : List Slot) → s + rounds ≡ num_slots
      → Ready s 0 slots
      → Returns (Keeps num_slots slots) (rehash hash_func inc_slots rounds s slots)
  unfolding rehash
  rehash-Ready grows zero s slots e r =
      returns (subst (λ (s' : ℕ). Ready s' 0 slots) (omega arith) r, λ w. refl)
  rehash-Ready grows (suc rounds) s slots e r =
      rw (read-ok slots s empty_slot (omega (arith, r.width))) (
        Returns-bind
          (rehash_slot-Ready grows (length (entries_at slots s) + 1) s 0 slots (omega arith)
            (omega arith) (omega arith) r)
          λ moved (ready, kept).
            Returns-map
              (rehash-Ready grows rounds (s + 1) moved (omega arith)
                (subst (λ (s' : ℕ). Ready s' 0 moved) (omega arith) ready))
              λ last (done, kept'). (done, λ w. kept' w ∙ kept w))
