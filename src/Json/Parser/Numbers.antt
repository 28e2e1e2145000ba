-- ===== src/Json/Parser/Numbers.antt =====
-- A number that is printed by its digits alone is read back.
use mathlib.Core.List.{append-nil}
use openbrowser.Prelude.Bytes.{Bytes}
use openbrowser.Prelude.{
  ℕ, zero, suc, ◌≡◌, refl, ◌∙◌, ap, true, false, Option, some, [], ◌∷◌, ◌++◌, arith, ◌==◌, ℕ_eq,
}
use openbrowser.Json.{number}
use openbrowser.Json.Lexer.{
  skip_whitespace, is_digit, take_digits, take_fraction, take_exponent, take_number,
}
use openbrowser.Json.Parser.{parsed, number_of, parse_number, parse_simple, parse_value}
use openbrowser.Json.Parser.Spelling.{EndsNumber, Spells}

abbrev pub AllDigits : Bytes → Type 0
AllDigits [] = Unit {0}
AllDigits (c ∷ s) = (is_digit c ≡ true) × AllDigits s

take_digits-append :
    (s rest : Bytes) → AllDigits s → EndsNumber rest → take_digits (s ++ rest) ≡ (s, rest)
unfolding take_digits
take_digits-append [] [] d e = refl
take_digits-append [] (c ∷ rest) d e = ground arith
take_digits-append (c ∷ s) rest d e = rw (d.0, take_digits-append s rest d.1 e) refl

take_fraction-none : (rest : Bytes) → EndsNumber rest → take_fraction rest ≡ ([], rest)
unfolding take_fraction
take_fraction-none [] e = refl
take_fraction-none (c ∷ rest) e = ground arith

take_exponent-none : (rest : Bytes) → EndsNumber rest → take_exponent rest ≡ ([], rest)
unfolding take_exponent
take_exponent-none [] e = refl
take_exponent-none (c ∷ rest) e = ground arith

digit-unsigned : (c : ℕ) → is_digit c ≡ true → (c == b'-') ≡ false
digit-unsigned c h = ground arith

take_number-digits :
    (c : ℕ) (s rest : Bytes)
    → AllDigits (c ∷ s)
    → EndsNumber rest
    → take_number (c ∷ (s ++ rest)) ≡ (c ∷ s, rest)
unfolding take_number
take_number-digits c s rest d e =
    rw
      (
        digit-unsigned c d.0,
        take_digits-append (c ∷ s) rest d e,
        take_fraction-none rest e,
        take_exponent-none rest e,
      )
      (ap (λ l. (c ∷ l, rest)) (append-nil s))

module _ {D : Type 0} (stod : Bytes → Option D) where
  simple_digit :
      (c : ℕ) (s : Bytes) → is_digit c ≡ true → parse_simple stod c s ≡ parse_number stod s
  unfolding parse_simple
  simple_digit c s h = ground arith

  start_digit :
      (n c : ℕ) (s : Bytes)
      → is_digit c ≡ true
      → parse_value stod (suc n) (c ∷ s) ≡ parse_number stod (c ∷ s)
  unfolding parse_value skip_whitespace
  start_digit n c s h = ground (arith, simple_digit c (c ∷ s))

  number_of_lexeme :
      (t rest : Bytes) (d : D) → stod t ≡ some d → number_of stod (t, rest) ≡ parsed (number d) rest
  number_of_lexeme t rest d e = rw (e, number_of) refl

  number_read :
      (s t rest : Bytes) (d : D)
      → take_number s ≡ (t, rest)
      → stod t ≡ some d
      → parse_number stod s ≡ parsed (number d) rest
  unfolding parse_number
  number_read s t rest d e h = ap (number_of stod) e ∙ number_of_lexeme t rest d h

  pub number-Spells :
      (c : ℕ) (s : Bytes) (d : D)
      → AllDigits (c ∷ s)
      → stod (c ∷ s) ≡ some d
      → Spells stod (number d) (c ∷ s)
  number-Spells c s d h e zero rest le ends = absurd (omega arith)
  number-Spells c s d h e (suc n) rest le ends =
      start_digit n c (s ++ rest) h.0
      ∙ number_read (c ∷ (s ++ rest)) (c ∷ s) rest d (take_number-digits c s rest h ends) e
