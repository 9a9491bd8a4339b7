-- ===== src/Common/Weigh.antt =====
-- The weight of a list under a weight of its elements. Two lists that weigh the same under every
-- weight hold the same elements, as often; weights of a changed list are sums, which `omega` reads.
use Prim.Native.Nat.{ℕ, zero, suc, ◌+◌, ◌<◌, ◌≤◌}
use mathlib.Core.Path.{◌≡◌}
use mathlib.Core.List.{List, [], ◌∷◌, ◌++◌}
use native.Mathlib.Omega.{arith}
use nt_shm.Common.Lists.{length, get_or, set, replicate, drop_last}

module _ {ℓ} {A : Type ℓ} (w : A → ℕ) where
  abbrev pub weigh : List A → ℕ
  weigh [] = 0
  weigh (x ∷ xs) = w x + weigh xs

  pub weigh-append : (xs ys : List A) → weigh (xs ++ ys) ≡ weigh xs + weigh ys
  weigh-append [] ys = omega arith
  weigh-append (x ∷ xs) ys = omega (arith, weigh-append xs ys)

  pub weigh-set :
      (xs : List A) (i : ℕ) (v d : A)
      → i < length xs
      → weigh (set xs i v) + w (get_or xs i d) ≡ weigh xs + w v
  weigh-set [] i v d h = absurd (omega arith)
  weigh-set (x ∷ xs) zero v d h = omega arith
  weigh-set (x ∷ xs) (suc i) v d h = omega (arith, weigh-set xs i v d (omega arith))

  pub weigh-drop_last :
      (xs : List A) (n : ℕ) (d : A)
      → length xs ≡ suc n
      → weigh (drop_last xs) + w (get_or xs n d) ≡ weigh xs
  weigh-drop_last [] n d h = absurd (omega arith)
  weigh-drop_last (x ∷ []) zero d h = omega arith
  weigh-drop_last (x ∷ []) (suc n) d h = absurd (omega arith)
  weigh-drop_last (x ∷ y ∷ xs) zero d h = absurd (omega arith)
  weigh-drop_last (x ∷ y ∷ xs) (suc n) d h =
      omega (arith, weigh-drop_last (y ∷ xs) n d (omega arith))

  pub weigh-get_or-le : (xs : List A) (i : ℕ) (d : A) → i < length xs → w (get_or xs i d) ≤ weigh xs
  weigh-get_or-le [] i d h = absurd (omega arith)
  weigh-get_or-le (x ∷ xs) zero d h = omega arith
  weigh-get_or-le (x ∷ xs) (suc i) d h = omega (arith, weigh-get_or-le xs i d (omega arith))

module _ {ℓ} {A : Type ℓ} (w v : A → ℕ) where
  pub weigh_mono : (xs : List A) → ((x : A) → w x ≤ v x) → weigh w xs ≤ weigh v xs
  weigh_mono [] le = omega arith
  weigh_mono (x ∷ xs) le = omega (arith, le x, weigh_mono xs le)

  pub weigh-sum : (xs : List A) → weigh (λ x. w x + v x) xs ≡ weigh w xs + weigh v xs
  weigh-sum [] = omega arith
  weigh-sum (x ∷ xs) = omega (arith, weigh-sum xs)

-- The lists hold the same elements, as often.
abbrev pub SameItems {ℓ} : {A : Type ℓ} → List A → List A → Type ℓ
SameItems {A} xs ys = (w : A → ℕ) → weigh w xs ≡ weigh w ys

-- All elements satisfy `P`.
abbrev pub All {ℓ κ} : {A : Type ℓ} → (A → Type κ) → List A → Type κ
All P [] = Unit
All P (x ∷ xs) = P x × All P xs

module _ {ℓ κ} {A : Type ℓ} (P : A → Type κ) where
  pub All-append : (xs ys : List A) → All P xs → All P ys → All P (xs ++ ys)
  All-append [] ys hx hy = hy
  All-append (x ∷ xs) ys hx hy = (hx.0, All-append xs ys hx.1 hy)

  pub All-get_or : (xs : List A) (i : ℕ) (d : A) → All P xs → i < length xs → P (get_or xs i d)
  All-get_or [] i d h lt = absurd (omega arith)
  All-get_or (x ∷ xs) zero d h lt = h.0
  All-get_or (x ∷ xs) (suc i) d h lt = All-get_or xs i d h.1 (omega arith)

  pub All-set : (xs : List A) (i : ℕ) (v : A) → All P xs → P v → All P (set xs i v)
  All-set [] i v h p = h
  All-set (x ∷ xs) zero v h p = (p, h.1)
  All-set (x ∷ xs) (suc i) v h p = (h.0, All-set xs i v h.1 p)

  pub All-drop_last : (xs : List A) → All P xs → All P (drop_last xs)
  All-drop_last [] h = h
  All-drop_last (x ∷ []) h = h.1
  All-drop_last (x ∷ y ∷ xs) h = (h.0, All-drop_last (y ∷ xs) h.1)

  pub All-replicate : (n : ℕ) (a : A) → P a → All P (replicate n a)
  All-replicate zero a h = tt
  All-replicate (suc n) a h = (h, All-replicate n a h)
