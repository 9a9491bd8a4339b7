-- ===== src/Hashmap/Contents.antt =====
-- What a table holds: the weights of its entries, the entry of a key, the slot where a key belongs,
-- and the loops over one slot.
use nt_shm.Common.{
  get_or-drop_last, ℕ, suc, ◌+◌, ◌-◌, ◌≤◌, ◌<◌, ◌≡◌, ◌⊎◌, inl, inr, refl, ap, List, [], ◌∷◌, ◌++◌,
  Option, none, some, arith, ◌==◌, Bool-cases, if◌then◌else◌, length, get_or, set, length-append,
  length-set, length-drop_last, get_or-set, eq_of_==, ltb, le_of_ltb, ◌∙◌,
}
use nt_shm.Common.Run.{read-ok, Returns, returns, Returns-if}
use nt_shm.Common.Weigh.{weigh, weigh-set, weigh-drop_last}
use nt_shm.Algo.Compare.{nt_default_uint64_compare_func}
use nt_shm.Hashmap.{Entry, Slot, ensure_free_entry, put_entry, take_out, find_entry}

abbrev pub no_entry : Entry
no_entry = record { key = 0; value = 0 }

-- One for an entry with key q; one for the entry (q, v).
abbrev pub is_key : ℕ → Entry → ℕ
is_key q e = if e.key == q then 1 else 0

abbrev pub is_item : ℕ → ℕ → Entry → ℕ
is_item q v e = if e.key == q then (if e.value == v then 1 else 0) else 0

-- The weight of all entries of a table.
abbrev pub total : (Entry → ℕ) → List Slot → ℕ
total w slots = weigh (λ slot. weigh w slot.entries) slots

-- The value under a key, in the order of the search.
abbrev pub find : ℕ → List Entry → Option ℕ
find q [] = none
find q (e ∷ es) = if e.key == q then some e.value else find q es

pub find-none : (q : ℕ) (es : List Entry) → weigh (is_key q) es ≡ 0 → find q es ≡ none
find-none q [] h = refl
find-none q (e ∷ es) h = ground (arith, find-none q es)

pub find-some :
    (q v : ℕ) (es : List Entry)
    → weigh (is_key q) es ≤ 1
    → 0 < weigh (is_item q v) es
    → find q es ≡ some v
find-some q v [] one h = absurd (omega arith)
find-some q v (e ∷ es) one h = ground (arith, find-some q v es, item-le-key q v es)
  where
    item-le-key : (q v : ℕ) (es : List Entry) → weigh (is_item q v) es ≤ weigh (is_key q) es
    item-le-key q v [] = omega arith
    item-le-key q v (e ∷ es) = ground (arith, item-le-key q v es)

-- Each entry is either under q, and then counted, or not found.
pub find-counts :
    (q : ℕ) (es : List Entry)
    → ((find q es ≡ none) × (weigh (is_key q) es ≡ 0))
      ⊎ ((v : ℕ) × (find q es ≡ some v) × (0 < weigh (is_item q v) es))
find-counts q [] = inl (refl, refl)
find-counts q (e ∷ es) = elim (Bool-cases (e.key == q)) [
  | inl hit ↦ inr (e.value, ground arith, ground arith)
  | inr miss ↦ elim (find-counts q es) [
    | inl (nothing, zero_weight) ↦ inl (ground arith, ground arith)
    | inr (v, found, weight) ↦ inr (v, ground arith, ground arith)
  ]
]

-- The loop stops at the end, and no entry has the key, or at an entry with the key.
pub find_entry-stops :
    (key i : ℕ) (es : List Entry)
    → ((find_entry key es i ≡ i + length es) × (weigh (is_key key) es ≡ 0))
      ⊎ ((j : ℕ) × (find_entry key es i ≡ i + j)
          × (j < length es)
          × ((get_or es j no_entry).key ≡ key)
          × (find key es ≡ some (get_or es j no_entry).value))
unfolding find_entry nt_default_uint64_compare_func
find_entry-stops key i [] = inl (omega arith, refl)
find_entry-stops key i (e ∷ es) = elim (Bool-cases (e.key == key)) [
  | inl hit ↦ inr (0, ground arith, omega arith, eq_of_== _ _ hit, ground arith)
  | inr miss ↦ elim (find_entry-stops key (suc i) es) [
    | inl (stop, zero_weight) ↦ inl (ground arith, ground arith)
    | inr (j, stop, inside, same, found) ↦
        inr (suc j, ground arith, omega arith, same, ground arith)
  ]
]

abbrev pub HasRoom : Slot → Type 0
HasRoom slot = length slot.entries ≤ slot.entries_alloc

-- A slot made ready holds the same entries, with room for one more.
ensure_free_entry-room :
    (slot : Slot)
    → HasRoom slot
    → (length (ensure_free_entry slot).entries < (ensure_free_entry slot).entries_alloc)
      × ((ensure_free_entry slot).entries ≡ slot.entries)
unfolding ensure_free_entry
ensure_free_entry-room slot room = (ground arith, ground (arith, nil_of_length slot.entries))
  where
    nil_of_length : (es : List Entry) → length es ≡ 0 → [] ≡ es
    nil_of_length [] h = refl
    nil_of_length (e ∷ es) h = absurd (omega arith)

-- A write behind the last entry stays within the array.
pub put_entry-ok :
    (slot : Slot) (e : Entry)
    → HasRoom slot
    → Returns
        (λ (grown : Slot). HasRoom grown × (grown.entries ≡ slot.entries ++ e ∷ []))
        (put_entry (ensure_free_entry slot) e)
unfolding put_entry
put_entry-ok slot e room =
    let (free, same) = ensure_free_entry-room slot room in
    Returns-if
      (ltb (length (ensure_free_entry slot).entries) (ensure_free_entry slot).entries_alloc)
      (λ fits. returns (
        omega (arith, free, length-append (ensure_free_entry slot).entries (e ∷ [])),
        ap (λ (es : List Entry). es ++ e ∷ []) same,
      ))
      (λ full. absurd (omega (arith, free, le_of_ltb _ _ full)))

pub take_out-ok :
    (slot : Slot) (i : ℕ)
    → i < length slot.entries
    → Returns
        (λ (rest : Slot).
          (HasRoom slot → HasRoom rest)
          × (length rest.entries + 1 ≡ length slot.entries)
          × ((w : Entry → ℕ)
              → weigh w rest.entries + w (get_or slot.entries i no_entry) ≡ weigh w slot.entries)
          × ((j : ℕ) → j < i → get_or rest.entries j no_entry ≡ get_or slot.entries j no_entry))
        (take_out slot i)
unfolding take_out
take_out-ok slot i inside =
    let es = slot.entries in
    let n = length es - 1 in
    let last = get_or es n no_entry in
    let short = length-drop_last (set es i last) in
    let same = length-set es i last in
    rw (read-ok es n no_entry (omega arith)) (
      returns (
        λ room. omega (arith, short, same),
        omega (arith, short, same),
        λ w. omega (
          arith,
          weigh-set w es i last no_entry inside,
          weigh-drop_last w (set es i last) n no_entry (omega (arith, same)),
          ap w (kept es i n inside),
        ),
        λ j before.
            get_or-drop_last (set es i last) j no_entry (omega (arith, same))
            ∙ ground (arith, get_or-set es i j last no_entry),
      ))
  where
    kept :
        (es : List Entry) (i n : ℕ)
        → i < length es
        → get_or (set es i (get_or es n no_entry)) n no_entry ≡ get_or es n no_entry
    kept es i n inside = ground (arith, get_or-set es i n (get_or es n no_entry) no_entry)
