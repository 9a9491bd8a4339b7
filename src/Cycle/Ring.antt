-- ===== src/Cycle/Ring.antt =====
-- Indices modulo the length of the ring.
use native.Mathlib.Nat.{mul-le-mul, mod-add-mod, mod-add-div', le_refl}
use nt_shm.Common.{ℕ, ◌+◌, ◌*◌, ◌/◌, ◌%◌, ◌<◌, ◌≤◌, ◌≡◌, ◌≢◌, ◌⊎◌, inl, inr, arith}

pub suc-mod : (m n : ℕ) → (n % m + 1) % m ≡ (n + 1) % m
suc-mod m n = mod-add-mod n m 1

order : (a b : ℕ) → (b ≤ a) ⊎ (a + 1 ≤ b)
order a b = ground arith

-- Fewer than m apart, two numbers have different remainders.
pub distinct-mod : (m i n : ℕ) → i < n → n < i + m → i % m ≢ n % m
distinct-mod m i n lo hi = λ e. elim (order (i / m) (n / m)) [
  | inl below ↦
      let wide : n / m * m ≤ i / m * m = mul-le-mul below (le_refl m) in
      omega (arith, e, mod-add-div' i m, mod-add-div' n m)
  | inr above ↦
      let wide : (i / m + 1) * m ≤ n / m * m = mul-le-mul above (le_refl m) in
      omega (arith, e, mod-add-div' i m, mod-add-div' n m)
]
