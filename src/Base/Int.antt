-- ===== src/Base/Int.antt =====
-- Go's `int`, as an integer: what the code does with one is to compare, print and parse it.
use Prim.Native.Nat.{ℕ, zero, suc}
use mathlib.Core.Path.{◌≡◌}
use mathlib.Core.Bool.{Bool, true, false}
use native.Mathlib.Omega.{arith}
use aws_ecommerce_k8s.Base.Tests.{ltb, ◌==◌}

-- `negsuc n` is -(n + 1).
pub data ℤ : Type 0 where
  pos : ℕ → ℤ
  negsuc : ℕ → ℤ

-- `v + 1` and `v - 1`
abbrev pub add_one : ℤ → ℤ
add_one (pos n) = pos (suc n)
add_one (negsuc zero) = pos 0
add_one (negsuc (suc n)) = negsuc n

abbrev pub sub_one : ℤ → ℤ
sub_one (pos zero) = negsuc 0
sub_one (pos (suc n)) = pos n
sub_one (negsuc n) = negsuc (suc n)

-- `a < b` on `int`.
abbrev pub lt_int : ℤ → ℤ → Bool
lt_int (pos a) (pos b) = ltb a b
lt_int (pos a) (negsuc b) = false
lt_int (negsuc a) (pos b) = true
lt_int (negsuc a) (negsuc b) = ltb b a

-- `a == b` on `int`.
abbrev pub eq_int : ℤ → ℤ → Bool
eq_int (pos a) (pos b) = a == b
eq_int (pos a) (negsuc b) = false
eq_int (negsuc a) (pos b) = false
eq_int (negsuc a) (negsuc b) = a == b

pub eq_int→eq : (a b : ℤ) → eq_int a b ≡ true → a ≡ b
eq_int→eq a b h = ground arith

pub eq_int_refl : (a : ℤ) → eq_int a a ≡ true
eq_int_refl a = ground arith

-- a ≤ b
abbrev pub LeInt : ℤ → ℤ → Type 0
LeInt a b = lt_int b a ≡ false

pub LeInt-refl : (a : ℤ) → LeInt a a
LeInt-refl a = ground arith

pub LeInt-trans : (a b c : ℤ) → LeInt a b → LeInt b c → LeInt a c
LeInt-trans a b c h k = ground arith

pub LeInt-of_lt : (a b : ℤ) → lt_int a b ≡ true → LeInt a b
LeInt-of_lt a b h = ground arith

pub LeInt-antisymm : (a b : ℤ) → LeInt a b → LeInt b a → a ≡ b
LeInt-antisymm a b h k = ground arith
