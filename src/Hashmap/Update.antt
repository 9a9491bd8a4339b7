-- ===== src/Hashmap/Update.antt =====
-- Stores into a table, as updates of the finite map.
use mathlib.Core.Path.{subst}
use native.Mathlib.Decide.{ℕ_discrete}
use nt_shm.Common.{
  ℕ, ◌+◌, ◌*◌, ◌%◌, ◌≤◌, ◌<◌, ◌≡◌, inl, inr, refl, ap, sym, ◌∙◌, [], ◌∷◌, Option, some, true, false,
  arith, ◌==◌, if◌then◌else◌, length, get_or, set, length-set, get_or-set,
}
use nt_shm.Common.Run.{
  ok, int_limit, ◌>>=◌, read-ok, Returns, returns, Returns-bind, Returns-map, Returns-inv,
}
use nt_shm.Common.Weigh.{
  weigh, weigh-append, weigh-set, weigh-get_or-le, All-append, All-set, All-get_or,
}
use nt_shm.Algo.Primes.Least.{Fits-ten}
use nt_shm.Hashmap.{
  Entry, Slot, HashMap, empty_slot, find_entry, add_entry, set_located, nt_hashmap_set,
  nt_hashmap_get,
}
use nt_shm.Hashmap.Contents.{
  no_entry, is_key, is_item, total, HasRoom, find_entry-stops, put_entry-ok,
}
use nt_shm.Hashmap.Rehash.{slot_at, entries_at}
use nt_shm.Hashmap.Rehash.Loops.{BelongsIn}
use nt_shm.Hashmap.Refines.{
  home_entries, view-no_slots, IsBounded, IsValid, view, view-none, view-some, view-counts,
  locate-home, key-home, get-view,
}
use nt_shm.Hashmap.Grow.{init_slots-IsEmpty, total-replace, replace-IsBounded, grow-IsValid}

module _ (hash_func : ℕ → ℕ) where
  -- A valid table that reads as f.
  pub record Models (f : ℕ → Option ℕ) (hm : HashMap) : Type 0 where
    pub valid : IsValid hash_func hm
    pub reads : (q : ℕ) → view hash_func hm q ≡ f q

  -- Equal weights of the entries under q make equal values under q.
  pub view-same :
      (a b : HashMap) (q : ℕ)
      → IsValid hash_func a
      → IsValid hash_func b
      → total (is_key q) a.slots ≡ total (is_key q) b.slots
      → ((x : ℕ) → total (is_item q x) a.slots ≡ total (is_item q x) b.slots)
      → view hash_func a q ≡ view hash_func b q
  view-same a b q va vb keys items = elim (view-counts hash_func b vb q) [
    | inl (nothing, zero_weight) ↦ view-none hash_func a va q (keys ∙ zero_weight) ∙ sym nothing
    | inr (x, found, weight) ↦ view-some hash_func a va q x (omega (arith, items x)) ∙ sym found
  ]

  abbrev pub update : (ℕ → Option ℕ) → ℕ → Option ℕ → ℕ → Option ℕ
  update f key value q = if key == q then value else f q

  -- An added entry under an absent key.
  added-Models :
      (a b : HashMap) (key value : ℕ)
      → IsValid hash_func a
      → IsValid hash_func b
      → ((w : Entry → ℕ)
          → total w b.slots ≡ total w a.slots + w (record { key = key; value = value }))
      → Models (update (view hash_func a) key (some value)) b
  added-Models a b key value va vb added = record {
    valid = vb;
    reads = λ q. elim (ℕ_discrete key q) [
      | yes same ↦
          let found = view-some hash_func b vb q value (
            let w = is_item q value in
            let e = added w in
            let one : w (record { key = key; value = value }) ≡ 1 = ground arith in omega arith) in
          ground arith
      | no other ↦
          let unchanged =
            view-same b a q vb va (let e = added (is_key q) in ground arith)
              (λ x. let e = added (is_item q x) in ground arith) in
          ground arith
    ];
  }

  module _ (hm : HashMap) (v : IsValid hash_func hm) (key : ℕ) (pos : 0 < hm.num_slots)
      (small : hm.num_slots * 5 < int_limit) where
    abbrev home : ℕ
    home = hash_func key % hm.num_slots

    home-lt : home < hm.num_slots
    home-lt = omega arith

    add_entry-Models :
        (value : ℕ)
        → total (is_key key) hm.slots ≡ 0
        → Returns
            (Models (update (view hash_func hm) key (some value)))
            (add_entry hm home (slot_at hm.slots home) (record { key = key; value = value }))
    unfolding add_entry
    add_entry-Models value absent =
        let e : Entry = record { key = key; value = value } in
        let lt : home < length hm.slots = omega (arith, home-lt, v.width) in
        Returns-bind
          (put_entry-ok (slot_at hm.slots home) e (All-get_or _ hm.slots home empty_slot v.room lt))
          λ grown (room, received).
            let n = hm.num_data + 1 in
            let added : (w : Entry → ℕ)
                → total w (set hm.slots home grown) ≡ total w hm.slots + w e =
              (λ w. omega (
                arith,
                total-replace hash_func hm w home grown lt,
                ap (weigh w) received,
                weigh-append w (entries_at hm.slots home) (e ∷ []),
              )) in
            let wider = record hm { slots = set hm.slots home grown; num_data = n } in
            let bounded : IsBounded hash_func 1 wider =
              replace-IsBounded hash_func hm home n 1 grown v home-lt room
                (subst (BelongsIn hash_func hm.num_slots home) (sym received) (
                  All-append _ (entries_at hm.slots home) (e ∷ []) (v.placed home home-lt)
                    (refl, tt)))
                (ap (λ (k : ℕ). k + 1) v.counted ∙ sym (added (λ _. 1))) (omega (arith, v.load))
                (λ q.
                  let a = added (is_key q) in
                  elim (ℕ_discrete key q) [
                    | yes same ↦
                        let none_yet =
                          subst (λ (k : ℕ). total (is_key k) hm.slots ≡ 0) same absent in
                        ground arith
                    | no other ↦ let others = v.unique q in ground arith
                  ]) in
            Returns-map (grow-IsValid hash_func wider bounded pos small)
              λ after (valid, same). added-Models hm after key value v valid (λ w. same w ∙ added w)

    -- A value written over the one of an entry with the key.
    overwrite-Models :
        (value j : ℕ)
        → j < length (entries_at hm.slots home)
        → (get_or (entries_at hm.slots home) j no_entry).key ≡ key
        → Models (update (view hash_func hm) key (some value)) (record hm {
          slots = set hm.slots home (record (slot_at hm.slots home) {
            entries =
                set
                  (entries_at hm.slots home)
                  j
                  (record (get_or (entries_at hm.slots home) j no_entry) { value = value });
          });
        })
    overwrite-Models value j inside same_key =
        let es = entries_at hm.slots home in
        let old = get_or es j no_entry in
        let e : Entry = record { key = old.key; value = value } in
        let written : Slot = record (slot_at hm.slots home) { entries = set es j e } in
        let lt : home < length hm.slots = omega (arith, home-lt, v.width) in
        let after = record hm { slots = set hm.slots home written } in
        let change : (w : Entry → ℕ) → total w after.slots + w old ≡ total w hm.slots + w e = (λ w.
          omega (
            arith,
            total-replace hash_func hm w home written lt,
            weigh-set w es j e no_entry inside,
          )) in
        let valid : IsValid hash_func after =
          replace-IsBounded hash_func hm home hm.num_data 0 written v home-lt
            (omega
              (arith, length-set es j e, All-get_or HasRoom hm.slots home empty_slot v.room lt))
            (All-set _ es j e (v.placed home home-lt)
              (ap (λ (k : ℕ). hash_func k % hm.num_slots) same_key))
            (omega (arith, v.counted, change (λ _. 1))) (omega (arith, v.load))
            (λ q. omega (arith, change (is_key q), v.unique q)) in
        record {
          valid = valid;
          reads = λ q. elim (ℕ_discrete key q) [
            | yes same ↦
                let heavy =
                  weigh-get_or-le (is_item q value) (set es j e) j no_entry
                    (omega (arith, length-set es j e)) in
                let here : get_or (set es j e) j no_entry ≡ e =
                  ground (arith, get_or-set es j j e no_entry) in
                let one : is_item q value e ≡ 1 = ground arith in
                let found = view-some hash_func after valid q value (
                  omega (
                    arith,
                    total-replace hash_func hm (is_item q value) home written lt,
                    weigh-get_or-le (λ (slot : Slot). weigh (is_item q value) slot.entries) hm.slots
                        home empty_slot lt,
                    heavy,
                    ap (is_item q value) here,
                    one,
                  )) in
                ground arith
            | no other ↦
                let unchanged =
                  view-same after hm q valid v (omega (arith, change (is_key q)))
                    (λ x. let c = change (is_item q x) in ground arith) in
                ground arith
          ];
        }

    set_located-Models :
        (value : ℕ)
        → Returns (Models (update (view hash_func hm) key (some value))) (set_located hm key value)
    unfolding set_located home_entries
    set_located-Models value =
        rw (locate-home hash_func hm v key pos)
          (elim (find_entry-stops key 0 (entries_at hm.slots home)) [
            | inl (stop, absent) ↦
                let at_end : (find_entry key (entries_at hm.slots home) 0
                      == length (entries_at hm.slots home))
                    ≡ true =
                  ground arith in
                rw at_end (add_entry-Models value (key-home hash_func hm v key pos ∙ absent))
            | inr (j, stop, inside, same, found) ↦
                let at_j : find_entry key (entries_at hm.slots home) 0 ≡ j = omega arith in
                let not_end : (j == length (entries_at hm.slots home)) ≡ false = ground arith in
                rw (at_j, not_end, read-ok (entries_at hm.slots home) j no_entry inside)
                  (returns (overwrite-Models value j inside same))
          ])

  -- For a valid table, five times its slots in the range of int, and any key and value, the call
  -- returns a valid table that differs from the old one, as a map, exactly in that the key has the
  -- value.
  pub set-Models :
      (hm : HashMap) (key value : ℕ)
      → IsValid hash_func hm
      → hm.num_slots * 5 < int_limit
      → Returns (Models (update (view hash_func hm) key (some value))) (nt_hashmap_set hm key value)
  unfolding nt_hashmap_set
  set-Models hm key value v small = elim (ℕ_discrete hm.num_slots 0) [
    | yes e ↦
        let no_slots : (hm.num_slots == 0) ≡ true = ground arith in
        rw no_slots (
          Returns-bind (init_slots-IsEmpty hash_func hm 10 v.called (omega arith))
            λ fresh (empty, ten).
              let few : fresh.num_slots ≤ 11 = Fits-ten fresh.num_slots ten in
              Returns-map
                (set_located-Models fresh empty.valid key (omega (arith, ten.0)) (omega arith)
                  value)
                λ after m. record {
                  valid = m.valid;
                  reads = λ q.
                      m.reads q ∙ ground (arith, empty.nothing q, view-no_slots hash_func hm q e);
                })
    | no ne ↦
        let some_slots : (hm.num_slots == 0) ≡ false = ground arith in
        rw some_slots (set_located-Models hm v key (omega arith) small value)
  ]

  -- After a store into a valid table, the key reads as the stored value, and every other key reads
  -- as it did before.
  pub get-set :
      (hm : HashMap) (key value q : ℕ)
      → IsValid hash_func hm
      → hm.num_slots * 5 < int_limit
      → (nt_hashmap_set hm key value >>= λ after. nt_hashmap_get after q)
        ≡ (if key == q then ok value else nt_hashmap_get hm q)
  get-set hm key value q v small =
      let (after, run, m) = Returns-inv (set-Models hm key value v small) in
      rw (run, get-view hash_func after m.valid q, get-view hash_func hm v q, m.reads q)
        (ground arith)
