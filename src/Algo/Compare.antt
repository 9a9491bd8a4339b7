-- ===== src/Algo/Compare.antt =====
-- nt_algodefs.c: the default comparison functions. The int that they return is -1, 0 or +1.
pub mod Laws
use nt_shm.Common.{ℕ, ltb, if◌then◌else◌, Bool, true, false}

pub data Comparison : Type 0 where
  less equal greater : Comparison

-- NT_RETURN_IF_NOT_EQUAL(a, b), with what is returned after it
abbrev pub return_if_not_equal : ℕ → ℕ → Comparison → Comparison
return_if_not_equal a b after = if ltb a b then less else if ltb b a then greater else after

unfoldable pub nt_default_uint64_compare_func : ℕ → ℕ → Comparison
nt_default_uint64_compare_func i1 i2 = return_if_not_equal i1 i2 equal

-- Two pointers are compared as addresses.
unfoldable pub nt_default_ptr_compare_func : ℕ → ℕ → Comparison
nt_default_ptr_compare_func p1 p2 = return_if_not_equal p1 p2 equal

unfoldable pub nt_default_uint64_pair_compare_func : ℕ × ℕ → ℕ × ℕ → Comparison
nt_default_uint64_pair_compare_func p1 p2 =
    return_if_not_equal p1.0 p2.0 (return_if_not_equal p1.1 p2.1 equal)

-- `0 == compare_func(...)`
abbrev pub is_equal : Comparison → Bool
is_equal less = false
is_equal equal = true
is_equal greater = false
