-- ===== src/Prelude/Text.antt =====
-- Text built by the program: `std::to_string` of an unsigned number, and `empty()`.
pub mod Decimal
use Prim.Native.Nat.{ℕ, zero, suc, ◌+◌, ◌/◌, ◌%◌}
use Prim.Native.String.{String, ◌++◌}
use mathlib.Core.Bool.{Bool, true, false}
use mathlib.Core.Path.{◌≡◌, refl}
use native.Mathlib.Decide.{ℕ_discrete}
use openbrowser.Prelude.Tests.{string_discrete, string_eq, ℕ_eq, ltb, ◌==◌, if◌then◌else◌}

abbrev pub is_empty : String → Bool
is_empty s = s == ""

digit : ℕ → String
digit d =
    if d == 0
    then "0"
    else if d == 1
    then "1"
    else if d == 2
    then "2"
    else if d == 3
    then "3"
    else if d == 4
    then "4"
    else if d == 5
    then "5"
    else if d == 6
    then "6"
    else if d == 7
    then "7"
    else if d == 8
    then "8"
    else "9"

-- One round for each digit; `n + 1` rounds are always enough, since `n / 10 < n`.
decimal_from : ℕ → ℕ → String → String
decimal_from zero n suffix = suffix
decimal_from (suc fuel) n suffix = elim (ltb n 10) [
  | true ↦ digit n ++ suffix
  | false ↦ decimal_from fuel (n / 10) (digit (n % 10) ++ suffix)
]

unfoldable pub to_string : ℕ → String
unfolding decimal_from digit
to_string n = decimal_from (n + 1) n ""

infixl 65 ◌<>◌
abbrev pub ◌<>◌ : String → String → String
s <> t = s ++ t

to_string_test : to_string 1207 ≡ "1207"
unfolding to_string ℕ_discrete string_discrete
to_string_test = refl
