-- ===== src/Hashmap/Rehash.antt =====
-- The in-place redistribution of the entries when the table grows.
pub mod Loops
use mathlib.Core.Path.{subst}
use native.Mathlib.Decide.{ℕ_discrete}
use nt_shm.Common.{
  ℕ, zero, suc, ◌+◌, ◌-◌, ◌%◌, ◌≤◌, ◌<◌, ◌≡◌, ◌≢◌, ◌⊎◌, inl, inr, refl, ap, sym, ◌∙◌, List, [], ◌∷◌,
  ◌++◌, arith, ◌==◌, ltb, if◌then◌else◌, length, get_or, set, replicate, length-set, get_or-set,
  length-append, length-replicate, eq_of_==, ne_of_==, lt_of_ltb, le_of_ltb,
}
use nt_shm.Common.Run.{
  Run, ok, ◌>>=◌, read, read-ok, Returns, returns, Returns-bind, Returns-if, Returns-map,
}
use nt_shm.Common.Weigh.{
  weigh, weigh-append, weigh-set, All, All-append, All-get_or, All-set, All-replicate,
}
use nt_shm.Hashmap.{
  Entry, Slot, empty_slot, ensure_free_entry, put_entry, take_out, move_entry, rehash_slot, rehash,
}
use nt_shm.Hashmap.Contents.{no_entry, total, HasRoom, put_entry-ok, take_out-ok}

abbrev pub slot_at : List Slot → ℕ → Slot
slot_at slots t = get_or slots t empty_slot

abbrev pub entries_at : List Slot → ℕ → List Entry
entries_at slots t = (slot_at slots t).entries

-- What a move of entry i of slot s to another slot does to the table.
pub record Moved (slots : List Slot) (s i target : ℕ) (e : Entry) (after : List Slot) : Type 0 where
  pub width : length after ≡ length slots
  pub room : All HasRoom after
  pub kept : (w : Entry → ℕ) → total w after ≡ total w slots
  pub received : entries_at after target ≡ entries_at slots target ++ e ∷ []
  pub shorter : length (entries_at after s) + 1 ≡ length (entries_at slots s)
  pub before :
      (j : ℕ)
      → j < i
      → get_or (entries_at after s) j no_entry ≡ get_or (entries_at slots s) j no_entry
  pub others : (t : ℕ) → t ≢ s → t ≢ target → entries_at after t ≡ entries_at slots t

-- The table after the two writes of a move.
slot_at-two_sets :
    (slots : List Slot) (s target t : ℕ) (grown rest : Slot)
    → s < length slots
    → target < length slots
    → slot_at (set (set slots target grown) s rest) t
      ≡ (if s == t then rest else if target == t then grown else slot_at slots t)
slot_at-two_sets slots s target t grown rest hs ht =
    get_or-set (set slots target grown) s t rest empty_slot (rw (length-set slots target grown) hs)
    ∙ rw (get_or-set slots target t grown empty_slot ht)

total-two_sets :
    (w : Entry → ℕ) (slots : List Slot) (s target : ℕ) (grown rest : Slot) (e : Entry)
    → s < length slots
    → target < length slots
    → slot_at (set slots target grown) s ≡ slot_at slots s
    → grown.entries ≡ entries_at slots target ++ e ∷ []
    → weigh w rest.entries + w e ≡ weigh w (entries_at slots s)
    → total w (set (set slots target grown) s rest) ≡ total w slots
total-two_sets w slots s target grown rest e hs ht same received moved =
    let weight = λ (slot : Slot). weigh w slot.entries in
    omega (
      arith,
      weigh-set weight (set slots target grown) s rest empty_slot
          (rw (length-set slots target grown) hs),
      weigh-set weight slots target grown empty_slot ht,
      ap weight same,
      ap (weigh w) received,
      weigh-append w (entries_at slots target) (e ∷ []),
      moved,
    )

pub move_entry-Moved :
    (slots : List Slot) (s i target : ℕ)
    → s < length slots
    → target < length slots
    → s ≢ target
    → i < length (entries_at slots s)
    → All HasRoom slots
    → Returns
        (Moved slots s i target (get_or (entries_at slots s) i no_entry))
        (move_entry slots s i target (get_or (entries_at slots s) i no_entry))
unfolding move_entry
move_entry-Moved slots s i target hs ht ne hi room =
    let e = get_or (entries_at slots s) i no_entry in
    let target_slot = slot_at slots target in
    rw (read-ok slots target empty_slot ht) (
      Returns-bind (put_entry-ok target_slot e (All-get_or _ slots target empty_slot room ht))
        λ grown (grown_room, received).
          let wide = length-set slots target grown in
          let at_s : slot_at (set slots target grown) s ≡ slot_at slots s =
            ground (arith, get_or-set slots target s grown empty_slot) in
          rw (read-ok (set slots target grown) s empty_slot (omega (arith, wide)), at_s)
            (Returns-bind (take_out-ok (slot_at slots s) i hi)
              λ rest (rest_room, shorter, weights, before).
                let at = λ (t : ℕ). slot_at-two_sets slots s target t grown rest hs ht in
                returns (record {
                  width = length-set (set slots target grown) s rest ∙ wide;
                  room =
                      All-set HasRoom (set slots target grown) s rest
                        (All-set HasRoom slots target grown room grown_room)
                        (rest_room (All-get_or _ slots s empty_slot room hs));
                  kept = λ w.
                      total-two_sets w slots s target grown rest e hs ht at_s received (weights w);
                  received =
                      ap (λ (slot : Slot). slot.entries) {y = grown} (at target ∙ ground arith)
                      ∙ received;
                  shorter =
                      ap (λ (slot : Slot). length slot.entries + 1) {y = rest} (at s ∙ ground arith)
                      ∙ shorter;
                  before = λ j lt.
                      ap (λ (slot : Slot). get_or slot.entries j no_entry) {y = rest}
                        (at s ∙ ground arith)
                      ∙ before j lt;
                  others = λ t ns nt.
                      ap (λ (slot : Slot). slot.entries) {y = slot_at slots t}
                        (at t ∙ ground arith);
                })))
