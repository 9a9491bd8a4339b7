-- ===== src/Common/Run.antt =====
-- How a call ends: it returns, it makes an invalid memory access, it computes an int that is out of
-- range, which C leaves undefined, it calls exit(EXIT_FAILURE), or the fuel of the model runs out.
-- `Returns` is total correctness.
use mathlib.Core.Path.{◌≡◌, refl, sym, subst}
use mathlib.Core.Bool.{Bool, true, false}
use mathlib.Core.List.{List, [], ◌∷◌}
use native.Mathlib.Omega.{arith}
use Prim.Native.Nat.{ℕ, zero, suc, ◌<◌}
use nt_shm.Common.Tests.{if◌then◌else◌, ltb}
use nt_shm.Common.Lists.{length, get_or}

pub data Run {ℓ} (A : Type ℓ) : Type ℓ where
  ok : A → Run A
  fault overflow exit_failure out_of_fuel : Run A

infixl 5 ◌>>=◌
abbrev pub ◌>>=◌ {ℓ κ} : {A : Type ℓ} {B : Type κ} → Run A → (A → Run B) → Run B
ok a >>= f = f a
fault >>= f = fault
overflow >>= f = overflow
exit_failure >>= f = exit_failure
out_of_fuel >>= f = out_of_fuel

-- INT_MAX + 1
abbrev pub int_limit : ℕ
int_limit = 2147483648

-- The value of an expression of type int that is not negative
abbrev pub as_int : ℕ → Run ℕ
as_int value = if ltb value int_limit then ok value else overflow

-- `xs[i]` of an array with the elements `xs`.
abbrev pub read {ℓ} : {A : Type ℓ} → List A → ℕ → Run A
read [] i = fault
read (x ∷ xs) zero = ok x
read (x ∷ xs) (suc i) = read xs i

pub read-ok {ℓ} :
    {A : Type ℓ} (xs : List A) (i : ℕ) (d : A) → i < length xs → read xs i ≡ ok (get_or xs i d)
read-ok [] i d h = absurd (omega arith)
read-ok (x ∷ xs) zero d h = refl
read-ok (x ∷ xs) (suc i) d h = read-ok xs i d (omega arith)

-- The run returns normally, with a value that satisfies `Good`.
pub data Returns {ℓ κ} {A : Type ℓ} (Good : A → Type κ) : Run A → Type (ℓ ⊔ κ) where
  returns : {value : A} → Good value → Returns Good (ok value)

module _ {ℓ κ} {A : Type ℓ} {Good : A → Type κ} where
  -- The value that a run returns, with the equation for the run.
  pub Returns-inv : {run : Run A} → Returns Good run → (value : A) × (run ≡ ok value) × Good value
  Returns-inv (returns {value = value} good) = (value, refl, good)

  -- What is known of the value of a run that has returned it
  pub Returns-value : (value : A) → Returns Good (ok value) → Good value
  Returns-value value (returns good) = good

  pub Returns-if :
      {x y : Run A} (test : Bool)
      → (test ≡ true → Returns Good x)
      → (test ≡ false → Returns Good y)
      → Returns Good (if test then x else y)
  Returns-if false _ otherwise = otherwise refl
  Returns-if true then_x _ = then_x refl

  pub Returns-map {κ'} :
      {Better : A → Type κ'} {run : Run A}
      → Returns Good run
      → ((value : A) → Good value → Better value)
      → Returns Better run
  Returns-map (returns {value = value} good) improve = returns (improve value good)

  pub Returns-bind {ℓ' κ'} :
      {B : Type ℓ'} {After : B → Type κ'} {first : Run A} {rest : A → Run B}
      → Returns Good first
      → ((value : A) → Good value → Returns After (rest value))
      → Returns After (first >>= rest)
  Returns-bind (returns {value = value} good) continue = continue value good

-- A read inside the array gives its element to the rest of the run.
pub Returns-read {ℓ κ μ} :
    {A : Type ℓ} {B : Type κ} {Good : B → Type μ} (f : A → Run B) (xs : List A) (i : ℕ) (d : A)
    → i < length xs
    → Returns Good (f (get_or xs i d))
    → Returns Good (read xs i >>= f)
Returns-read {Good} f xs i d lt rest =
    subst (λ run. Returns Good (run >>= f)) (sym (read-ok xs i d lt)) rest
