-- ===== src/Prelude/Characters.antt =====
-- The text with given characters, the way back from `bytes`.
use Prim.Native.Nat.{ℕ, Ordering, compare}
use Prim.Native.Char.{Char, char, code, nul, IsLt, IsScalar}
use Prim.Native.String.{String}
use mathlib.Core.Path.{◌≡◌, refl, ap}
use mathlib.Core.Option.{Option, none, some}
use mathlib.Core.List.{[], ◌∷◌}
use openbrowser.Prelude.Bytes.{Bytes, bytes}

-- A character's number is below the surrogates, or between them and the last one.
abbrev Between : Ordering → Ordering → Type 0
Between Ordering.lt above = IsLt above
Between Ordering.eq above = ⊥
Between Ordering.gt above = ⊥

abbrev Scalar : Ordering → Ordering → Ordering → Type 0
Scalar Ordering.lt over above = Unit
Scalar Ordering.eq over above = Between over above
Scalar Ordering.gt over above = Between over above

between? : (o p : Ordering) → Option (Between o p)
between? Ordering.lt Ordering.lt = some tt
between? Ordering.lt Ordering.eq = none
between? Ordering.lt Ordering.gt = none
between? Ordering.eq p = none
between? Ordering.gt p = none

scalar? : (o p q : Ordering) → Option (Scalar o p q)
unfolding between?
scalar? Ordering.lt p q = some tt
scalar? Ordering.eq p q = between? p q
scalar? Ordering.gt p q = between? p q

between?-some : (o p : Ordering) (h : Between o p) → between? o p ≡ some h
unfolding between?
between?-some Ordering.lt Ordering.lt h = refl
between?-some Ordering.lt Ordering.eq h = absurd h
between?-some Ordering.lt Ordering.gt h = absurd h
between?-some Ordering.eq p h = absurd h
between?-some Ordering.gt p h = absurd h

scalar?-some : (o p q : Ordering) (h : Scalar o p q) → scalar? o p q ≡ some h
unfolding scalar?
scalar?-some Ordering.lt p q h = refl
scalar?-some Ordering.eq p q h = between?-some p q h
scalar?-some Ordering.gt p q h = between?-some p q h

-- The null character stands for a number that is none.
abbrev of_number : (n : ℕ) → Option (IsScalar n) → Char
of_number n none = nul
of_number n (some h) = char n h

unfoldable pub to_char : ℕ → Char
unfolding scalar?
to_char n = of_number n (scalar? (compare n 55296) (compare 57343 n) (compare n 1114112))

to_char-code : (c : Char) → to_char (code c) ≡ c
unfolding to_char
to_char-code (char n h) =
    ap (of_number n) (scalar?-some (compare n 55296) (compare 57343 n) (compare n 1114112) h)

unfoldable pub text : Bytes → String
text [] = ""
text (n ∷ s) = String.◌∷◌ (to_char n) (text s)

pub text-bytes : (s : String) → text (bytes s) ≡ s
unfolding text
text-bytes String.[] = refl
text-bytes (String.◌∷◌ c s) = rw (to_char-code c, text-bytes s) refl
