-- ===== src/Ddl/Append.antt =====
-- ddl_insert_end() on a list.
use mathlib.Core.Path.{subst}
use nt_shm.Common.{
  some, ℕ, ◌<◌, ◌≡◌, ◌≢◌, refl, sym, ap, ◌∙◌, List, [], ◌∷◌, ◌++◌, true, false, arith, ◌==◌,
}
use nt_shm.Common.Weigh.{All}
use nt_shm.Common.Run.{Returns, returns}
use nt_shm.Ddl.{Node, Ddlh, put, set_next, set_prev, ddl_insert_end, ddl_insert}
use nt_shm.Ddl.Chain.{
  Chained, Apart, Distinct, last_of, IsList, put_own, put_other, Chained-same, last_of-Apart,
  last_of-append, last_of-pos, Distinct-append,
}

-- The stores of an insertion behind the node `dp`
abbrev pub joined : (ℕ → Node) → ℕ → ℕ → ℕ → Node
joined nodes dp di = set_prev (set_next nodes dp di) di dp

module _ (nodes : ℕ → Node) (dp di : ℕ) (new : dp ≢ di) where
  pub joined-last : joined nodes dp di dp ≡ record (nodes dp) { next = di }
  joined-last = put_other (set_next nodes dp di) di _ dp (λ e. new (sym e)) ∙ put_own nodes dp _

  pub joined-new : joined nodes dp di di ≡ record (nodes di) { prev = dp }
  joined-new =
      put_own (set_next nodes dp di) di _
      ∙ ap (λ (n : Node). record n { prev = dp }) (put_other nodes dp _ di new)

  pub joined-other : (q : ℕ) → dp ≢ q → di ≢ q → joined nodes dp di q ≡ nodes q
  joined-other q ne ne' = put_other (set_next nodes dp di) di _ q ne' ∙ put_other nodes dp _ q ne

  joined-Chained :
      (prev a x : ℕ) (xs : List ℕ)
      → 0 < di
      → (nodes di).next ≡ 0
      → Chained nodes prev a (x ∷ xs)
      → Distinct (x ∷ xs)
      → Apart di (x ∷ xs)
      → dp ≡ last_of x xs
      → Chained (joined nodes dp di) prev a (x ∷ xs ++ di ∷ [])
  joined-Chained prev a x [] pos open_end (e, some_x, back, c) d apart at =
      let last =
        subst (λ (q : ℕ). joined nodes dp di q ≡ record (nodes q) { next = di }) at joined-last in
      (
        e,
        some_x,
        ap (λ (n : Node). n.prev) last ∙ back,
        (
          ap (λ (n : Node). n.next) last,
          pos,
          ap (λ (n : Node). n.prev) joined-new ∙ at,
          ap (λ (n : Node). n.next) joined-new ∙ open_end,
        ),
      )
  joined-Chained prev a x (y ∷ xs) pos open_end (e, some_x, back, c) (here, d) (ne, apart) at =
      let same = joined-other x (λ q. last_of-Apart x y xs here (sym q ∙ at)) ne in
      (
        e,
        some_x,
        ap (λ (n : Node). n.prev) same ∙ back,
        subst (λ (b : ℕ). Chained (joined nodes dp di) x b (y ∷ xs ++ di ∷ []))
            (sym (ap (λ (n : Node). n.next) same))
            (joined-Chained x (nodes x).next y xs pos open_end c d apart at),
      )

-- What an insertion at the end makes of the list
abbrev pub Appended : List ℕ → ℕ → ℕ → Ddlh → Type 0
Appended xs di content after = IsList after (xs ++ di ∷ []) × ((after.nodes di).content ≡ content)

insert_end-Appended :
    (dh : Ddlh) (xs : List ℕ) (di content : ℕ)
    → IsList dh xs
    → 0 < di
    → Apart di xs
    → dh.nodes di ≡ record { content = content; next = 0; prev = 0 }
    → Returns (Appended xs di content) (ddl_insert_end dh di)
unfolding ddl_insert_end
insert_end-Appended dh [] di content v pos apart new =
    let empty = v.chain in
    let test : (dh.entr == 0) ≡ true = ground arith in
    rw test (
      returns (
        record {
          chain = (refl, pos, ap (λ (n : Node). n.prev) new, ap (λ (n : Node). n.next) new);
          distinct = (tt, tt);
          at_tail = refl;
          at_curr = refl;
        },
        ap (λ (n : Node). n.content) new,
      ))
insert_end-Appended dh (x ∷ xs) di content v pos apart new =
    let (e, some_x, back, c) = v.chain in
    let last = v.at_curr in
    let some_last : 0 < last_of x xs = last_of-pos dh.nodes 0 dh.entr x xs v.chain in
    let test : (dh.entr == 0) ≡ false = ground arith in
    let test_dp : (dh.curr == 0) ≡ false = ground arith in
    let ne : dh.curr ≢ di = (λ q. last_of-Apart di x xs apart (sym q ∙ last)) in
    rw (test, test_dp)
      (returns (
        record {
          chain =
              joined-Chained dh.nodes dh.curr di ne 0 dh.entr x xs pos
                (ap (λ (n : Node). n.next) new) v.chain v.distinct apart last;
          distinct = Distinct-append (x ∷ xs) di v.distinct apart;
          at_tail = sym (last_of-append x di xs);
          at_curr = sym (last_of-append x di xs);
        },
        ap (λ (n : Node). n.content) (joined-new dh.nodes dh.curr di ne)
            ∙ ap (λ (n : Node). n.content) new,
      ))

kept_others :
    (nodes : ℕ → Node) (di : ℕ) (n : Node) (xs : List ℕ)
    → Apart di xs
    → All (λ x. put nodes di n x ≡ nodes x) xs
kept_others nodes di n [] apart = tt
kept_others nodes di n (x ∷ xs) (ne, apart) =
    (put_other nodes di n x ne, kept_others nodes di n xs apart)

-- ddl_insert() at the end of a list, with a new node, returns the list with the node at its end,
-- which has the data.
pub ddl_insert-Appended :
    (dh : Ddlh) (xs : List ℕ) (di content : ℕ)
    → IsList dh xs
    → 0 < di
    → Apart di xs
    → Returns (Appended xs di content) (ddl_insert dh (some di) (some content) 1)
unfolding ddl_insert
ddl_insert-Appended dh xs di content v pos apart =
    let new : Node = record { content = content; next = 0; prev = 0 } in
    insert_end-Appended (record dh { nodes = put dh.nodes di new }) xs di content
      (record {
        chain =
            Chained-same dh.nodes (put dh.nodes di new) 0 dh.entr xs
              (kept_others dh.nodes di new xs apart) v.chain;
        distinct = v.distinct;
        at_tail = v.at_tail;
        at_curr = v.at_curr;
      })
      pos apart (put_own dh.nodes di new)
