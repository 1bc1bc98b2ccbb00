-- ===== src/Prelude/Codes.antt =====
-- The return codes of the C functions: an `int` that is 1, 0, -1 or a position.
use Prim.Native.Nat.{ℕ}
use mathlib.Core.Path.{◌≡◌}
use mathlib.Core.Bool.{Bool, true, false}
use native.Mathlib.Omega.{arith}
use network_course_uio.Prelude.Tests.{◌==◌}

-- `negsuc n` is -(n + 1).
pub data ℤ : Type 0 where
  pos : ℕ → ℤ
  negsuc : ℕ → ℤ

abbrev pub minus_one : ℤ
minus_one = negsuc 0

-- `a == b` on such an `int`
abbrev pub eq_int : ℤ → ℤ → Bool
eq_int (pos a) (pos b) = a == b
eq_int (negsuc a) (negsuc b) = a == b
eq_int _ _ = false

pub eq_int_refl : (a : ℤ) → eq_int a a ≡ true
eq_int_refl (pos a) = ground arith
eq_int_refl (negsuc a) = ground arith

pub eq_int→eq : (a b : ℤ) → eq_int a b ≡ true → a ≡ b
eq_int→eq (pos a) (pos b) h = ground arith
eq_int→eq (pos a) (negsuc b) h = cc
eq_int→eq (negsuc a) (pos b) h = cc
eq_int→eq (negsuc a) (negsuc b) h = ground arith
