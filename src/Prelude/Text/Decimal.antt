-- ===== src/Prelude/Text/Decimal.antt =====
-- Different numbers are printed as different texts.
use Prim.Native.Nat.{ℕ, zero, suc, ◌+◌, ◌-◌, ◌*◌, ◌/◌, ◌%◌, ◌<◌}
use Prim.Native.String.{String}
use Prim.Native.Char.{code}
use Prim.Native.String.append.{nil, cons}
use mathlib.Core.Path.{◌≡◌, refl, sym, ◌∙◌, ap}
use mathlib.Core.Bool.{true, false}
use mathlib.Core.List.{[], ◌∷◌, ◌++◌}
use native.Mathlib.Omega.{arith}
use native.Mathlib.Decide.{ℕ_discrete}
use openbrowser.Prelude.Tests.{ℕ_eq, ltb, Bool-cases}
use mathlib.Core.Logic.{inl, inr}
use openbrowser.Prelude.Bytes.{Bytes, bytes}
use openbrowser.Prelude.Text.{digit, decimal_from, to_string, ◌<>◌}

-- The number that a text of digits is read as, behind the number read so far.
value : ℕ → Bytes → ℕ
value n [] = n
value n (c ∷ s) = value (n * 10 + (c - 48)) s

pub bytes-append : (s t : String) → bytes (s <> t) ≡ bytes s ++ bytes t
bytes-append String.[] t = ap bytes (nil t)
bytes-append (String.◌∷◌ c s) t = ap bytes (cons c s t) ∙ ap (λ u. code c ∷ u) (bytes-append s t)

bytes-digit : (d : ℕ) → d < 10 → bytes (digit d) ≡ (d + 48) ∷ []
unfolding digit ℕ_discrete
bytes-digit zero h = refl
bytes-digit (suc zero) h = refl
bytes-digit (suc (suc zero)) h = refl
bytes-digit (suc (suc (suc zero))) h = refl
bytes-digit (suc (suc (suc (suc zero)))) h = refl
bytes-digit (suc (suc (suc (suc (suc zero))))) h = refl
bytes-digit (suc (suc (suc (suc (suc (suc zero)))))) h = refl
bytes-digit (suc (suc (suc (suc (suc (suc (suc zero))))))) h = refl
bytes-digit (suc (suc (suc (suc (suc (suc (suc (suc zero)))))))) h = refl
bytes-digit (suc (suc (suc (suc (suc (suc (suc (suc (suc zero))))))))) h = refl
bytes-digit (suc (suc (suc (suc (suc (suc (suc (suc (suc (suc d)))))))))) h = absurd (omega arith)

value-digit :
    (n d : ℕ) (t : String) → d < 10 → value n (bytes (digit d <> t)) ≡ value (n * 10 + d) (bytes t)
unfolding value
value-digit n d t h =
    ap (value n) (bytes-append (digit d) t ∙ ap (λ u. u ++ bytes t) (bytes-digit d h))
    ∙ ap (λ m. value m (bytes t)) (omega arith)

from_small :
    (fuel n : ℕ) (t : String) → ltb n 10 ≡ true → decimal_from (suc fuel) n t ≡ digit n <> t
unfolding decimal_from
from_small fuel n t e = rw (decimal_from, e) refl

from_large :
    (fuel n : ℕ) (t : String)
    → ltb n 10 ≡ false
    → decimal_from (suc fuel) n t ≡ decimal_from fuel (n / 10) (digit (n % 10) <> t)
unfolding decimal_from
from_large fuel n t e = rw (decimal_from, e) refl

value-decimal_from :
    (fuel n : ℕ) (t : String)
    → n < fuel
    → value 0 (bytes (decimal_from fuel n t)) ≡ value n (bytes t)
value-decimal_from zero n t h = absurd (omega arith)
value-decimal_from (suc fuel) n t h = elim (Bool-cases (ltb n 10)) [
  | inl small ↦
      ap (λ s. value 0 (bytes s)) (from_small fuel n t small)
      ∙ value-digit 0 n t (ground arith)
      ∙ ap (λ m. value m (bytes t)) (omega arith)
  | inr large ↦
      ap (λ s. value 0 (bytes s)) (from_large fuel n t large)
      ∙ value-decimal_from fuel (n / 10) (digit (n % 10) <> t) (ground arith)
      ∙ value-digit (n / 10) (n % 10) t (omega arith)
      ∙ ap (λ m. value m (bytes t)) (omega arith)
]

pub cancel : (s t u : Bytes) → s ++ t ≡ s ++ u → t ≡ u
cancel [] t u e = e
cancel (c ∷ s) t u e = cancel s t u (ap without_first e)
  where
    without_first : Bytes → Bytes
    without_first [] = []
    without_first (c ∷ s) = s

value-to_string : (n : ℕ) → value 0 (bytes (to_string n)) ≡ n
unfolding to_string value
value-to_string n = value-decimal_from (n + 1) n "" (omega arith)

-- Different numbers are printed as different texts, behind the same text, too.
pub behind-injective :
    (s t : String) (m n : ℕ) → s <> (t <> to_string m) ≡ s <> (t <> to_string n) → m ≡ n
behind-injective s t m n e =
    let whole =
      sym (bytes-append s (t <> to_string m)) ∙ ap bytes e ∙ bytes-append s (t <> to_string n) in
    let tails = cancel (bytes s) (bytes (t <> to_string m)) (bytes (t <> to_string n)) whole in
    let numbers =
      cancel (bytes t) (bytes (to_string m)) (bytes (to_string n))
        (sym (bytes-append t (to_string m)) ∙ tails ∙ bytes-append t (to_string n)) in
    sym (value-to_string m) ∙ ap (value 0) numbers ∙ value-to_string n
