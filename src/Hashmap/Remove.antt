-- ===== src/Hashmap/Remove.antt =====
-- Removal of a key, and clearing.
use mathlib.Core.Path.{subst}
use native.Mathlib.Decide.{ℕ_discrete}
use nt_shm.Common.{
  ℕ, zero, suc, ◌+◌, ◌-◌, ◌*◌, ◌%◌, ◌<◌, ◌≡◌, inl, inr, refl, ap, sym, ◌∙◌, List, [], ◌∷◌, none,
  true, false, arith, ◌==◌, if◌then◌else◌, length, get_or, set,
}
use nt_shm.Common.Run.{ok, int_limit, ◌>>=◌, Returns, returns, Returns-bind, Returns-inv}
use nt_shm.Common.Weigh.{weigh, All, All-get_or}
use nt_shm.Hashmap.{
  Entry, Slot, HashMap, empty_slot, find_entry, nt_hashmap_set, nt_hashmap_remove, nt_hashmap_get,
  nt_hashmap_clear, clear_slots, clear_slot,
}
use nt_shm.Hashmap.Contents.{
  no_entry, is_key, is_item, total, HasRoom, find_entry-stops, take_out-ok,
}
use nt_shm.Hashmap.Rehash.{slot_at, entries_at}
use nt_shm.Hashmap.Rehash.Loops.{BelongsIn}
use nt_shm.Hashmap.Refines.{
  home_entries, view-no_slots, IsValid, view, view-none, locate-home, key-home, get-view,
}
use nt_shm.Hashmap.Grow.{IsEmpty, total-replace, replace-IsBounded}
use nt_shm.Hashmap.Update.{Models, update, view-same, get-set}

module _ (hash_func : ℕ → ℕ) (size t : ℕ) where
  abbrev misplaced : Entry → ℕ
  misplaced e = if hash_func e.key % size == t then 0 else 1

  misplaced-none : (es : List Entry) → BelongsIn hash_func size t es → weigh misplaced es ≡ 0
  misplaced-none [] h = refl
  misplaced-none (e ∷ es) h = ground (arith, h.0, misplaced-none es h.1)

  none-misplaced : (es : List Entry) → weigh misplaced es ≡ 0 → BelongsIn hash_func size t es
  none-misplaced [] h = tt
  none-misplaced (e ∷ es) h = (ground arith, none-misplaced es (omega arith))

clear_slot-entries : (slot : Slot) → HasRoom slot → (clear_slot slot).entries ≡ []
unfolding clear_slot
clear_slot-entries slot room = ground (arith, nil_of_length slot.entries)
  where
    nil_of_length : (es : List Entry) → length es ≡ 0 → es ≡ []
    nil_of_length [] h = refl
    nil_of_length (e ∷ es) h = absurd (omega arith)

clear_slots-at :
    (slots : List Slot) (t : ℕ) → All HasRoom slots → entries_at (clear_slots slots) t ≡ []
unfolding clear_slots
clear_slots-at [] t room = refl
clear_slots-at (slot ∷ slots) zero room = clear_slot-entries slot room.0
clear_slots-at (slot ∷ slots) (suc t) room = clear_slots-at slots t room.1

total-clear_slots :
    (w : Entry → ℕ) (slots : List Slot) → All HasRoom slots → total w (clear_slots slots) ≡ 0
unfolding clear_slots
total-clear_slots w [] room = refl
total-clear_slots w (slot ∷ slots) room =
    omega (arith, ap (weigh w) (clear_slot-entries slot room.0), total-clear_slots w slots room.1)

length-clear_slots : (slots : List Slot) → length (clear_slots slots) ≡ length slots
unfolding clear_slots
length-clear_slots [] = refl
length-clear_slots (slot ∷ slots) = ap suc (length-clear_slots slots)

clear_slots-room : (slots : List Slot) → All HasRoom slots → All HasRoom (clear_slots slots)
unfolding clear_slots
clear_slots-room [] room = tt
clear_slots-room (slot ∷ slots) room = (
  omega (arith, ap (length {A = Entry}) (clear_slot-entries slot room.0)),
  clear_slots-room slots room.1,
)

module _ (hash_func : ℕ → ℕ) where
  taken_out-Models :
      (hm : HashMap) (key j : ℕ) (rest : Slot)
      → IsValid hash_func hm
      → 0 < hm.num_slots
      → j < length (entries_at hm.slots (hash_func key % hm.num_slots))
      → (get_or (entries_at hm.slots (hash_func key % hm.num_slots)) j no_entry).key ≡ key
      → HasRoom rest
      → ((w : Entry → ℕ)
          → weigh w rest.entries
              + w (get_or (entries_at hm.slots (hash_func key % hm.num_slots)) j no_entry)
            ≡ weigh w (entries_at hm.slots (hash_func key % hm.num_slots)))
      → Models hash_func (update hash_func (view hash_func hm) key none) (record hm {
        slots = set hm.slots (hash_func key % hm.num_slots) rest;
        num_data = hm.num_data - 1;
      })
  taken_out-Models hm key j rest v pos inside same_key room weights =
      let home = hash_func key % hm.num_slots in
      let old = get_or (entries_at hm.slots home) j no_entry in
      let lt : home < length hm.slots = omega (arith, v.width) in
      let after = record hm { slots = set hm.slots home rest; num_data = hm.num_data - 1 } in
      let change : (w : Entry → ℕ) → total w after.slots + w old ≡ total w hm.slots =
        (λ w. omega (arith, total-replace hash_func hm w home rest lt, weights w)) in
      let valid : IsValid hash_func after =
        replace-IsBounded hash_func hm home (hm.num_data - 1) 0 rest v (omega (arith, v.width)) room
          (none-misplaced hash_func hm.num_slots home rest.entries (
            omega (
              arith,
              weights (misplaced hash_func hm.num_slots home),
              misplaced-none hash_func hm.num_slots home (entries_at hm.slots home)
                  (v.placed home (omega arith)),
            )))
          (omega (arith, v.counted, change (λ _. 1))) (omega (arith, v.load))
          (λ q. omega (arith, change (is_key q), v.unique q)) in
      record {
        valid = valid;
        reads = λ q. elim (ℕ_discrete key q) [
          | yes same ↦
              let one : is_key q old ≡ 1 = ground arith in
              let gone =
                view-none hash_func after valid q (omega (arith, change (is_key q), v.unique q)) in
              ground arith
          | no other ↦
              let unchanged =
                view-same hash_func after hm q valid v (let c = change (is_key q) in ground arith)
                  (λ x. let c = change (is_item q x) in ground arith) in
              ground arith
        ];
      }

  -- For a valid table and any key the call returns a valid table that differs from the old one, as
  -- a map, exactly in that the key is absent.
  pub remove-Models :
      (hm : HashMap) (key : ℕ)
      → IsValid hash_func hm
      → Returns
          (Models hash_func (update hash_func (view hash_func hm) key none))
          (nt_hashmap_remove hm key)
  unfolding nt_hashmap_remove home_entries
  remove-Models hm key v = elim (ℕ_discrete hm.num_slots 0) [
    | yes e ↦
        let no_slots : (hm.num_slots == 0) ≡ true = ground arith in
        rw no_slots (
          returns
            (record { valid = v; reads = λ q. ground (arith, view-no_slots hash_func hm q e) }))
    | no ne ↦
        let some_slots : (hm.num_slots == 0) ≡ false = ground arith in
        let pos : 0 < hm.num_slots = omega arith in
        let home = hash_func key % hm.num_slots in
        rw (some_slots, locate-home hash_func hm v key pos)
          (elim (find_entry-stops key 0 (entries_at hm.slots home)) [
            | inl (stop, absent) ↦
                let at_end : (find_entry key (entries_at hm.slots home) 0
                      == length (entries_at hm.slots home))
                    ≡ true =
                  ground arith in
                let nothing =
                  view-none hash_func hm v key (key-home hash_func hm v key pos ∙ absent) in
                rw at_end
                  (returns (record { valid = v; reads = λ q. absent_update hm key q nothing }))
            | inr (j, stop, inside, same, found) ↦
                let at_j : find_entry key (entries_at hm.slots home) 0 ≡ j = omega arith in
                let not_end : (j == length (entries_at hm.slots home)) ≡ false = ground arith in
                rw (at_j, not_end)
                  (Returns-bind (take_out-ok (slot_at hm.slots home) j inside)
                    λ rest (room, shorter, weights, before). returns (
                      taken_out-Models hm key j rest v pos inside same
                        (room (
                          All-get_or HasRoom hm.slots home empty_slot v.room
                            (omega (arith, v.width))))
                        weights))
          ])
  ]
    where
      absent_update :
          (hm : HashMap) (key q : ℕ)
          → view hash_func hm key ≡ none
          → view hash_func hm q ≡ update hash_func (view hash_func hm) key none q
      absent_update hm key q nothing = elim (ℕ_discrete key q) [
        | yes same ↦
            let here = subst (λ (k : ℕ). view hash_func hm k ≡ none) same nothing in ground arith
        | no other ↦ ground arith
      ]

  get-remove :
      (hm : HashMap) (key q : ℕ)
      → IsValid hash_func hm
      → (nt_hashmap_remove hm key >>= λ after. nt_hashmap_get after q)
        ≡ (if key == q then ok 0 else nt_hashmap_get hm q)
  get-remove hm key q v =
      let (after, run, m) = Returns-inv (remove-Models hm key v) in
      rw (run, get-view hash_func after m.valid q, get-view hash_func hm v q, m.reads q)
        (ground arith)

  -- After a store into a valid table, five times its slots in the range of int, the key reads as the stored value, after a removal as 0, and
  -- every other key reads as it did before.
  pub get-changed :
      (hm : HashMap) (key value q : ℕ)
      → IsValid hash_func hm
      → hm.num_slots * 5 < int_limit
      → ((nt_hashmap_set hm key value >>= λ after. nt_hashmap_get after q)
          ≡ (if key == q then ok value else nt_hashmap_get hm q))
        × ((nt_hashmap_remove hm key >>= λ after. nt_hashmap_get after q)
            ≡ (if key == q then ok 0 else nt_hashmap_get hm q))
  get-changed hm key value q v small =
      (get-set hash_func hm key value q v small, get-remove hm key q v)

  -- Clearing a valid table leaves a valid table that holds no key, with the same number of slots.
  pub clear-IsEmpty :
      (hm : HashMap)
      → IsValid hash_func hm
      → IsEmpty hash_func (nt_hashmap_clear hm) × ((nt_hashmap_clear hm).num_slots ≡ hm.num_slots)
  unfolding nt_hashmap_clear
  clear-IsEmpty hm v = (
    record {
      valid = valid;
      nothing = λ q. view-none hash_func _ valid q (total-clear_slots (is_key q) hm.slots v.room);
    },
    refl,
  )
    where
      valid : IsValid hash_func (nt_hashmap_clear hm)
      valid = record {
        called = v.called;
        width = length-clear_slots hm.slots ∙ v.width;
        counted = sym (total-clear_slots (λ _. 1) hm.slots v.room);
        room = clear_slots-room hm.slots v.room;
        placed = λ t lt.
            subst (BelongsIn hash_func hm.num_slots t) (sym (clear_slots-at hm.slots t v.room)) tt;
        unique = λ q. omega (arith, total-clear_slots (is_key q) hm.slots v.room);
        size = v.size;
        load = λ ne. omega arith;
      }
