-- ===== src/Hashset/Chain.antt =====
-- One chain of the hash set: what the search finds, and the chain without an entry.
use native.Mathlib.Decide.{ℕ_discrete}
use nt_shm.Common.{
  ℕ, ◌+◌, ◌≤◌, ◌<◌, ◌≡◌, ◌≢◌, ◌⊎◌, inl, inr, refl, ap, List, [], ◌∷◌, Bool, true, false, none, some,
  arith, ◌==◌, if◌then◌else◌, Bool-cases, ==_self, get_or,
}
use nt_shm.Common.Weigh.{weigh, weigh_mono, All}
use nt_shm.Hashset.{Funcs, HashsetEntry, matches, search_chain, unlink_entry}

-- 1 for true, else 0
abbrev pub one_if : Bool → ℕ
one_if true = 1
one_if false = 0

module _ {D : Type 0} where
  -- The weight of all chains
  abbrev pub total : (HashsetEntry D → ℕ) → List (List (HashsetEntry D)) → ℕ
  total w = weigh (weigh w)

  abbrev pub chain_at : List (List (HashsetEntry D)) → ℕ → List (HashsetEntry D)
  chain_at slots t = get_or slots t []

  -- Weights of one entry: it has the address; its address is NULL; it is found for q; and both
  abbrev pub is_addr : ℕ → HashsetEntry D → ℕ
  is_addr a e = one_if (e.addr == a)

  abbrev pub is_match : Funcs D → D → HashsetEntry D → ℕ
  is_match f q e = one_if (matches f q e)

  abbrev pub is_match_at : Funcs D → D → ℕ → HashsetEntry D → ℕ
  is_match_at f q a e = if e.addr == a then is_match f q e else 0

  pub search_chain-none :
      (f : Funcs D) (q : D) (es : List (HashsetEntry D))
      → weigh (is_match f q) es ≡ 0
      → search_chain f q es ≡ 0
  unfolding search_chain
  search_chain-none f q [] h = refl
  search_chain-none f q (e ∷ es) h = elim (Bool-cases (matches f q e)) [
    | inl found ↦ let one = ap one_if found in absurd (omega arith)
    | inr other ↦
        let zero_weight = ap one_if other in rw other (search_chain-none f q es (omega arith))
  ]

  match_at-le :
      (f : Funcs D) (q : D) (a : ℕ) (es : List (HashsetEntry D))
      → weigh (is_match_at f q a) es ≤ weigh (is_match f q) es
  match_at-le f q a es = weigh_mono (is_match_at f q a) (is_match f q) es (λ e. ground arith)

  pub search_chain-some :
      (f : Funcs D) (q : D) (a : ℕ) (es : List (HashsetEntry D))
      → weigh (is_match f q) es ≤ 1
      → 0 < weigh (is_match_at f q a) es
      → search_chain f q es ≡ a
  unfolding search_chain
  search_chain-some f q a [] once h = absurd (omega arith)
  search_chain-some f q a (e ∷ es) once h = elim (Bool-cases (matches f q e)) [
    | inl found ↦
        let one : is_match f q e ≡ 1 = ap one_if found in
        let later = match_at-le f q a es in
        elim (ℕ_discrete e.addr a) [
          | yes same ↦ rw found same
          | no other ↦
              let none_here : is_match_at f q a e ≡ 0 = ground arith in absurd (omega arith)
        ]
    | inr other ↦
        let zero_weight : is_match f q e ≡ 0 = ap one_if other in
        let none_here : is_match_at f q a e ≡ 0 = ground arith in
        rw other (search_chain-some f q a es (omega arith) (omega arith))
  ]

  -- The search finds no entry, or one that has a weight.
  pub search_chain-counts :
      (f : Funcs D) (q : D) (es : List (HashsetEntry D))
      → weigh (is_addr 0) es ≡ 0
      → ((search_chain f q es ≡ 0) × (weigh (is_match f q) es ≡ 0))
        ⊎ ((a : ℕ) × (search_chain f q es ≡ a) × (0 < a) × (0 < weigh (is_match_at f q a) es))
  unfolding search_chain
  search_chain-counts f q [] pos = inl (refl, refl)
  search_chain-counts f q (e ∷ es) pos = elim (Bool-cases (matches f q e)) [
    | inl found ↦
        let one : is_match f q e ≡ 1 = ap one_if found in
        let here : is_match_at f q e.addr e ≡ 1 = rw (==_self e.addr) one in
        let not_null : e.addr ≢ 0 =
          (λ null. let one_null = ap (λ (b : ℕ). one_if (b == 0)) null in omega arith) in
        inr (e.addr, rw found refl, omega arith, omega arith)
    | inr other ↦
        let zero_weight : is_match f q e ≡ 0 = ap one_if other in
        rw other (elim (search_chain-counts f q es (omega arith)) [
          | inl (none_found, no_weight) ↦ inl (none_found, omega arith)
          | inr (a, at, some_a, weight) ↦ inr (a, at, some_a, omega arith)
        ])
  ]

  -- What the removal of an entry takes from every weight
  pub unlink_entry-weighs :
      (P : HashsetEntry D → Type 0) (test : HashsetEntry D → Bool) (es : List (HashsetEntry D))
      → ((unlink_entry test es ≡ none) × (weigh (λ e. one_if (test e)) es ≡ 0))
        ⊎ ((e : HashsetEntry D) × (rest : List (HashsetEntry D)) × (unlink_entry test es
              ≡ some rest)
            × (test e ≡ true)
            × ((w : HashsetEntry D → ℕ) → weigh w es ≡ w e + weigh w rest)
            × (All P es → All P rest))
  unfolding unlink_entry
  unlink_entry-weighs P test [] = inl (refl, refl)
  unlink_entry-weighs P test (e ∷ es) = elim (Bool-cases (test e)) [
    | inl found ↦ inr (e, es, rw found refl, found, (λ w. refl), (λ all. all.1))
    | inr other ↦
        let zero_weight = ap one_if other in
        elim (unlink_entry-weighs P test es) [
          | inl (nothing, no_weight) ↦ inl (rw (other, nothing) refl, omega arith)
          | inr (x, rest, result, found, weights, stay) ↦ inr (
            x,
            e ∷ rest,
            rw (other, result) refl,
            found,
            (λ w. omega (arith, weights w)),
            (λ all. (all.0, stay all.1)),
          )
        ]
  ]
