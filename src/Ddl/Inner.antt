-- ===== src/Ddl/Inner.antt =====
-- ddl_delete() of a node between two others.
use mathlib.Core.Path.{subst}
use nt_shm.Common.{
  ℕ, ◌<◌, ◌≡◌, ◌≢◌, refl, sym, ap, ◌∙◌, List, [], ◌∷◌, ◌++◌, false, arith, ◌==◌, ◌||◌, length,
}
use nt_shm.Common.Weigh.{All}
use nt_shm.Common.Run.{ok, Returns, returns}
use nt_shm.Ddl.{Node, Ddlh, unlink, delete_from, ddl_delete}
use nt_shm.Ddl.Chain.{
  Chained, Apart, Distinct, last_of, IsList, Chained-same, last_of-Apart, Apart-append,
  append-Apart,
}
use nt_shm.Ddl.Append.{joined, joined-last, joined-new, joined-other}
use nt_shm.Ddl.Delete.{delete_from-finds}

module _ (nodes : ℕ → Node) (t z : ℕ) (new : t ≢ z) where
  joined-others :
      (xs : List ℕ) → Apart t xs → Apart z xs → All (λ x. joined nodes t z x ≡ nodes x) xs
  joined-others [] at az = tt
  joined-others (x ∷ xs) (nt, at) (nz, az) =
      (joined-other nodes t z new x nt nz, joined-others xs at az)

  -- The node d is passed by.
  skip-Chained :
      (prev a x d : ℕ) (ys zs : List ℕ)
      → Chained nodes prev a (x ∷ ys ++ d ∷ z ∷ zs)
      → Distinct (x ∷ ys ++ d ∷ z ∷ zs)
      → t ≡ last_of x ys
      → Chained (joined nodes t z) prev a (x ∷ ys ++ z ∷ zs)
  skip-Chained prev a x d [] zs (e, some_x, back, (e2, p2, b2, (e3, some_z, b3, c)))
        ((_, (_, at)), (_, (az, dis))) t_x =
      let last =
        subst (λ (q : ℕ). joined nodes t z q ≡ record (nodes q) { next = z }) t_x
          (joined-last nodes t z new) in
      let own = joined-new nodes t z new in
      (
        e,
        some_x,
        ap (λ (n : Node). n.prev) last ∙ back,
        (
          ap (λ (n : Node). n.next) last,
          some_z,
          ap (λ (n : Node). n.prev) own ∙ t_x,
          subst (λ (b : ℕ). Chained (joined nodes t z) z b zs) (sym (ap (λ (n : Node). n.next) own))
              (Chained-same nodes (joined nodes t z) z (nodes z).next zs
                (joined-others zs (subst (λ (q : ℕ). Apart q zs) (sym t_x) at) az) c),
        ),
      )
  skip-Chained prev a x d (y ∷ ys) zs (e, some_x, back, c) (apart, dis) t_last =
      let (left, (_, (nz, _))) = Apart-append x (y ∷ ys) (d ∷ z ∷ zs) apart in
      let same =
        joined-other nodes t z new x (λ q. last_of-Apart x y ys left (sym q ∙ t_last))
          (λ q. nz (sym q)) in
      (
        e,
        some_x,
        ap (λ (n : Node). n.prev) same ∙ back,
        subst (λ (b : ℕ). Chained (joined nodes t z) x b (y ∷ ys ++ z ∷ zs))
            (sym (ap (λ (n : Node). n.next) same))
            (skip-Chained x (nodes x).next y d ys zs c dis t_last),
      )

skip-Distinct : (d : ℕ) (xs zs : List ℕ) → Distinct (xs ++ d ∷ zs) → Distinct (xs ++ zs)
skip-Distinct d [] zs (apart, dis) = dis
skip-Distinct d (x ∷ xs) zs (apart, dis) =
    let (left, (_, right)) = Apart-append x xs (d ∷ zs) apart in
    (append-Apart x xs zs left right, skip-Distinct d xs zs dis)

last_of-skip : (prev z : ℕ) (xs zs : List ℕ) → last_of prev (xs ++ z ∷ zs) ≡ last_of z zs
last_of-skip prev z [] zs = refl
last_of-skip prev z (x ∷ xs) zs = last_of-skip x z xs zs

-- What is known of the nodes at and around the deleted one
around_d :
    (nodes : ℕ → Node) (prev a x d z : ℕ) (ys zs : List ℕ)
    → Chained nodes prev a (x ∷ ys ++ d ∷ z ∷ zs)
    → Distinct (x ∷ ys ++ d ∷ z ∷ zs)
    → ((nodes d).next ≡ z) × (0 < z) × (last_of x ys ≢ z) × (d ≢ last_of z zs) × (0 < d) × (x ≢ d)
around_d nodes prev a x d z [] zs (_, _, _, (e2, p2, b2, (e3, some_z, b3, c)))
      ((ne_d, (ne_z, at)), (ad, (az, dis))) =
    (e3, some_z, ne_z, last_of-Apart d z zs ad, p2, ne_d)
around_d nodes prev a x d z (y ∷ ys) zs (_, _, _, c) (apart, dis) =
    let (next, some_z, ne, ne', p, _) = around_d nodes x (nodes x).next y d z ys zs c dis in
    let (_, (ne_d, _)) = Apart-append x (y ∷ ys) (d ∷ z ∷ zs) apart in
    (next, some_z, ne, ne', p, ne_d)

unlink-IsList :
    (dh : Ddlh) (x d z : ℕ) (ys zs : List ℕ)
    → IsList dh (x ∷ ys ++ d ∷ z ∷ zs)
    → IsList (unlink dh (last_of x ys) d) (x ∷ ys ++ z ∷ zs)
unfolding unlink
unlink-IsList dh x d z ys zs v =
    let t = last_of x ys in
    let (next, some_z, ne, ne_last, pos_d, ne_x) =
      around_d dh.nodes 0 dh.entr x d z ys zs v.chain v.distinct in
    let end : last_of x (ys ++ d ∷ z ∷ zs) ≡ last_of z zs = last_of-skip x d ys (z ∷ zs) in
    let end' : last_of x (ys ++ z ∷ zs) ≡ last_of z zs = last_of-skip x z ys zs in
    let inner : ((dh.nodes d).next == 0) ≡ false = ground arith in
    let other : (d == dh.curr) ≡ false =
      (let far : d ≢ dh.curr = (λ q. ne_last (q ∙ v.at_curr ∙ end)) in ground arith) in
    rw (inner, other, next)
      (record {
        chain = skip-Chained dh.nodes t z ne 0 dh.entr x d ys zs v.chain v.distinct refl;
        distinct = skip-Distinct d (x ∷ ys) (z ∷ zs) v.distinct;
        at_tail = v.at_tail ∙ end ∙ sym end';
        at_curr = v.at_curr ∙ end ∙ sym end';
      })

-- ddl_delete() of a node of a list that is neither the first nor the last one, with more rounds than
-- there are nodes between it and the first one, returns the list without the node.
pub ddl_delete-Removed :
    (fuel : ℕ) (dh : Ddlh) (x d z : ℕ) (ys zs : List ℕ)
    → IsList dh (x ∷ ys ++ d ∷ z ∷ zs)
    → length ys < fuel
    → Returns (λ after. IsList after (x ∷ ys ++ z ∷ zs)) (ddl_delete fuel dh d)
unfolding ddl_delete
ddl_delete-Removed fuel dh x d z ys zs v enough =
    let (e, some_x, back, c) = v.chain in
    let (next, some_z, ne, ne_last, pos_d, ne_x) =
      around_d dh.nodes 0 dh.entr x d z ys zs v.chain v.distinct in
    let test : ((dh.entr == 0) || (d == 0)) ≡ false = ground arith in
    let first : (dh.entr == d) ≡ false = ground arith in
    let found : delete_from fuel dh d dh.entr (dh.nodes dh.entr).next
        ≡ ok (unlink dh (last_of x ys) d) =
      subst (λ (q : ℕ). delete_from fuel dh d q (dh.nodes q).next ≡ ok (unlink dh (last_of x ys) d))
        (sym e)
        (delete_from-finds fuel dh x (dh.nodes x).next d ys (z ∷ zs) c v.distinct.1 enough) in
    rw (test, first, found) (returns (unlink-IsList dh x d z ys zs v))
