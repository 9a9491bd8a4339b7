-- ===== src/Ddl/Delete.antt =====
-- ddl_delete() on a list.
use mathlib.Core.Path.{subst}
use nt_shm.Common.{
  ℕ, zero, suc, ◌<◌, ◌≡◌, ◌≢◌, refl, sym, ◌∙◌, List, [], ◌∷◌, ◌++◌, true, false, arith, ◌==◌, ◌||◌,
  some, length,
}
use nt_shm.Common.Run.{ok, fault, Returns, returns}
use nt_shm.Ddl.{Node, Ddlh, unlink, delete_from, ddl_delete, ddl_insert, ddl_insert_end}
use nt_shm.Ddl.Chain.{Chained, Apart, Distinct, last_of, IsList, last_of-append}

-- The search ends at the node, behind the last of the nodes before it.
pub delete_from-finds :
    (fuel : ℕ) (dh : Ddlh) (tp dp d : ℕ) (ys zs : List ℕ)
    → Chained dh.nodes tp dp (ys ++ d ∷ zs)
    → Distinct (ys ++ d ∷ zs)
    → length ys < fuel
    → delete_from fuel dh d tp dp ≡ ok (unlink dh (last_of tp ys) d)
unfolding delete_from
delete_from-finds zero dh tp dp d ys zs c dis enough = absurd (omega arith)
delete_from-finds (suc fuel) dh tp dp d [] zs (e, pos, back, c) dis enough =
    let some_dp : (dp == 0) ≡ false = ground arith in
    let here : (dp == d) ≡ true = ground arith in rw (some_dp, here) refl
delete_from-finds (suc fuel) dh tp dp d (y ∷ ys) zs (e, pos, back, c) (apart, dis) enough =
    let some_dp : (dp == 0) ≡ false = ground arith in
    let ne : y ≢ d = Apart-at y ys d zs apart in
    let not_here : (dp == d) ≡ false = ground arith in
    let rest = delete_from-finds fuel dh y (dh.nodes y).next d ys zs c dis (omega arith) in
    rw (some_dp, not_here, e) rest
  where
    Apart-at : (y : ℕ) (ys : List ℕ) (d : ℕ) (zs : List ℕ) → Apart y (ys ++ d ∷ zs) → y ≢ d
    Apart-at y [] d zs apart = apart.0
    Apart-at y (x ∷ ys) d zs apart = Apart-at y ys d zs apart.1

end-next :
    (nodes : ℕ → Node) (prev a d : ℕ) (ys : List ℕ)
    → Chained nodes prev a (ys ++ d ∷ [])
    → ((nodes d).next ≡ 0) × (0 < d)
end-next nodes prev a d [] (e, pos, back, c) = (c, pos)
end-next nodes prev a d (y ∷ ys) (e, pos, back, c) = end-next nodes y (nodes y).next d ys c

Apart-end : (x d : ℕ) (ys : List ℕ) → Apart x (ys ++ d ∷ []) → x ≢ d
Apart-end x d [] apart = apart.0
Apart-end x d (y ∷ ys) apart = Apart-end x d ys apart.1

-- The current node is the deleted one, which has no next node.
unlink-loses_curr :
    (dh : Ddlh) (t d new content : ℕ)
    → (dh.nodes d).next ≡ 0
    → d ≡ dh.curr
    → dh.entr ≢ 0
    → ddl_insert (unlink dh t d) (some new) (some content) 1 ≡ fault
unfolding ddl_insert ddl_insert_end unlink
unlink-loses_curr dh t d new content none_next current some_entr =
    let last : ((dh.nodes d).next == 0) ≡ true = ground arith in
    let here : (d == dh.curr) ≡ true = ground arith in
    let test : (dh.entr == 0) ≡ false = ground arith in
    let test_next : ((dh.nodes d).next == 0) ≡ true = ground arith in
    rw (last, here, test, none_next) refl

-- When the last of at least two nodes has been deleted by ddl_delete(), the list has no current node,
-- and the next insertion at the end accesses a node through NULL.
pub ddl_delete-loses_curr :
    (fuel : ℕ) (dh : Ddlh) (x d : ℕ) (ys : List ℕ) (new content : ℕ)
    → IsList dh (x ∷ ys ++ d ∷ [])
    → length ys < fuel
    → Returns (λ after. ddl_insert after (some new) (some content) 1 ≡ fault) (ddl_delete fuel dh d)
unfolding ddl_delete
ddl_delete-loses_curr fuel dh x d ys new content v enough =
    let (e, pos, back, c) = v.chain in
    let (apart, dis) = v.distinct in
    let (none_next, pos_d) = end-next dh.nodes x (dh.nodes x).next d ys c in
    let ne : x ≢ d = Apart-end x d ys apart in
    let current : d ≡ dh.curr = sym (v.at_curr ∙ last_of-append x d ys) in
    let test : ((dh.entr == 0) || (d == 0)) ≡ false = ground arith in
    let first : (dh.entr == d) ≡ false = ground arith in
    let found : delete_from fuel dh d dh.entr (dh.nodes dh.entr).next
        ≡ ok (unlink dh (last_of x ys) d) =
      subst (λ (q : ℕ). delete_from fuel dh d q (dh.nodes q).next ≡ ok (unlink dh (last_of x ys) d))
        (sym e) (delete_from-finds fuel dh x (dh.nodes x).next d ys [] c dis enough) in
    rw (test, first, found)
      (returns
        (unlink-loses_curr dh (last_of x ys) d new content none_next current (λ q. omega arith)))
