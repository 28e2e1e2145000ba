-- ===== src/Prelude/Integers.antt =====
-- Signed integers, which the program compares, subtracts and prints.
use Prim.Native.Nat.{ℕ, zero, suc, ◌+◌, ◌-◌}
use mathlib.Core.Bool.{Bool, true, false, not}
use mathlib.Core.Path.{◌≡◌}
use native.Mathlib.Omega.{arith}
use Prim.Native.String.{String}
use openbrowser.Prelude.Text.{to_string, ◌<>◌}
use openbrowser.Prelude.Tests.{leb, if◌then◌else◌}

pub data ℤ : Type 0 where
  pos : ℕ → ℤ
  negsuc : ℕ → ℤ

abbrev pub max_zero : ℤ → ℤ
max_zero (pos n) = pos n
max_zero (negsuc n) = pos 0

abbrev pub is_positive : ℤ → Bool
is_positive (pos (suc n)) = true
is_positive (pos zero) = false
is_positive (negsuc n) = false

-- `a <= b`.
unfoldable pub int_leb : ℤ → ℤ → Bool
int_leb (pos m) (pos n) = leb m n
int_leb (pos m) (negsuc n) = false
int_leb (negsuc m) (pos n) = true
int_leb (negsuc m) (negsuc n) = leb n m

-- `a < b`.
unfoldable pub int_ltb : ℤ → ℤ → Bool
int_ltb a b = not (int_leb b a)

-- As it is printed.
abbrev pub int_string : ℤ → String
int_string (pos n) = to_string n
int_string (negsuc n) = "-" <> to_string (n + 1)

pub int_ltb_asym : (a b : ℤ) → int_ltb a b ≡ true → int_ltb b a ≡ false
unfolding int_ltb int_leb
int_ltb_asym (pos m) (pos n) h = ground arith
int_ltb_asym (pos m) (negsuc n) h = ground arith
int_ltb_asym (negsuc m) (pos n) h = ground arith
int_ltb_asym (negsuc m) (negsuc n) h = ground arith

pub int_leb_trans : (a b c : ℤ) → int_leb a b ≡ true → int_leb b c ≡ true → int_leb a c ≡ true
unfolding int_leb
int_leb_trans (pos l) (pos m) (pos n) h h' = ground arith
int_leb_trans (pos l) (pos m) (negsuc n) h h' = ground arith
int_leb_trans (pos l) (negsuc m) c h h' = ground arith
int_leb_trans (negsuc l) (pos m) (pos n) h h' = ground arith
int_leb_trans (negsuc l) (pos m) (negsuc n) h h' = ground arith
int_leb_trans (negsuc l) (negsuc m) (pos n) h h' = ground arith
int_leb_trans (negsuc l) (negsuc m) (negsuc n) h h' = ground arith

-- `m - n`.
abbrev pub difference : ℕ → ℕ → ℤ
difference m n = if leb n m then pos (m - n) else negsuc (n - m - 1)

infixl 65 ◌-ℤ◌
unfoldable pub ◌-ℤ◌ : ℤ → ℤ → ℤ
pos m -ℤ pos n = difference m n
pos m -ℤ negsuc n = pos (m + n + 1)
negsuc m -ℤ pos n = negsuc (m + n)
negsuc m -ℤ negsuc n = difference n m
