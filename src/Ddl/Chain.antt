-- ===== src/Ddl/Chain.antt =====
-- The nodes of a list in memory.
use mathlib.Core.Path.{subst}
use nt_shm.Common.{
  ℕ, ◌<◌, ◌≡◌, ◌≢◌, refl, sym, ap, ◌∙◌, List, [], ◌∷◌, ◌++◌, false, arith, ◌==◌, ==_self,
}
use nt_shm.Common.Weigh.{All}
use nt_shm.Ddl.{Node, Ddlh, put}

-- From `a` the next fields lead through the nodes at `xs` to NULL, and the prev fields lead back to
-- `prev`.
abbrev pub Chained : (ℕ → Node) → ℕ → ℕ → List ℕ → Type 0
Chained nodes prev a [] = a ≡ 0
Chained nodes prev a (x ∷ xs) =
    (a ≡ x) × (0 < x) × ((nodes x).prev ≡ prev) × Chained nodes x (nodes x).next xs

abbrev pub Apart : ℕ → List ℕ → Type 0
Apart x = All (λ y. x ≢ y)

abbrev pub Distinct : List ℕ → Type 0
Distinct [] = Unit
Distinct (x ∷ xs) = Apart x xs × Distinct xs

-- The last of the nodes, or the one before them
abbrev pub last_of : ℕ → List ℕ → ℕ
last_of prev [] = prev
last_of prev (x ∷ xs) = last_of x xs

-- The head `dh` has the nodes at `xs`, in this order, and the last one is the current one.
pub record IsList (dh : Ddlh) (xs : List ℕ) : Type 0 where
  pub chain : Chained dh.nodes 0 dh.entr xs
  pub distinct : Distinct xs
  pub at_tail : dh.tail ≡ last_of 0 xs
  pub at_curr : dh.curr ≡ last_of 0 xs

module _ (nodes : ℕ → Node) (p : ℕ) (n : Node) where
  pub put_own : put nodes p n p ≡ n
  put_own = rw (==_self p) refl

  pub put_other : (q : ℕ) → p ≢ q → put nodes p n q ≡ nodes q
  put_other q ne = let test : (p == q) ≡ false = ground arith in rw test refl

pub Chained-same :
    (nodes after : ℕ → Node) (prev a : ℕ) (xs : List ℕ)
    → All (λ x. after x ≡ nodes x) xs
    → Chained nodes prev a xs
    → Chained after prev a xs
Chained-same nodes after prev a [] same c = c
Chained-same nodes after prev a (x ∷ xs) (here, same) (e, pos, back, c) = (
  e,
  pos,
  ap (λ (n : Node). n.prev) here ∙ back,
  subst (λ (b : ℕ). Chained after x b xs) (sym (ap (λ (n : Node). n.next) here))
      (Chained-same nodes after x (nodes x).next xs same c),
)

pub last_of-Apart : (x y : ℕ) (xs : List ℕ) → Apart x (y ∷ xs) → x ≢ last_of y xs
last_of-Apart x y [] (ne, apart) = ne
last_of-Apart x y (z ∷ xs) (ne, apart) = last_of-Apart x z xs apart

pub Apart-append : (x : ℕ) (xs ys : List ℕ) → Apart x (xs ++ ys) → Apart x xs × Apart x ys
Apart-append x [] ys apart = (tt, apart)
Apart-append x (y ∷ xs) ys (ne, apart) =
    let (left, right) = Apart-append x xs ys apart in ((ne, left), right)

pub append-Apart : (x : ℕ) (xs ys : List ℕ) → Apart x xs → Apart x ys → Apart x (xs ++ ys)
append-Apart x [] ys left right = right
append-Apart x (y ∷ xs) ys (ne, left) right = (ne, append-Apart x xs ys left right)

pub last_of-append : (prev x : ℕ) (xs : List ℕ) → last_of prev (xs ++ x ∷ []) ≡ x
last_of-append prev x [] = refl
last_of-append prev x (y ∷ xs) = last_of-append y x xs

pub Distinct-append : (xs : List ℕ) (x : ℕ) → Distinct xs → Apart x xs → Distinct (xs ++ x ∷ [])
Distinct-append [] x d apart = (tt, tt)
Distinct-append (y ∷ xs) x (here, d) (ne, apart) =
    (append-Apart y xs (x ∷ []) here ((λ e. ne (sym e)), tt), Distinct-append xs x d apart)

pub last_of-pos :
    (nodes : ℕ → Node) (prev a x : ℕ) (xs : List ℕ)
    → Chained nodes prev a (x ∷ xs)
    → 0 < last_of x xs
last_of-pos nodes prev a x [] (e, pos, back, c) = pos
last_of-pos nodes prev a x (y ∷ xs) (e, pos, back, c) = last_of-pos nodes x (nodes x).next y xs c
