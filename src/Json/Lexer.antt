-- ===== src/Json/Lexer.antt =====
-- The parts of `JsonParser` that read no nested value: blanks, texts, words and numbers. What is
-- left of the input stands for the position in it.
use openbrowser.Prelude.Bytes.{Bytes}
use openbrowser.Prelude.{
  ℕ, zero, suc, ◌+◌, ◌-◌, ◌*◌, ◌/◌, ◌%◌, Bool, ◌||◌, ◌&&◌, Option, none, some, [], ◌∷◌, ◌++◌, leb,
  ◌==◌, ℕ_eq, if◌then◌else◌,
}

abbrev pub is_blank : ℕ → Bool
is_blank c = c == b' ' || (c == 9 || (c == 10 || c == 13))

unfoldable pub skip_whitespace : Bytes → Bytes
skip_whitespace [] = []
skip_whitespace (c ∷ s) = if is_blank c then skip_whitespace s else c ∷ s

-- `AppendUtf8Codepoint`, of at most four hexadecimal digits.
unfoldable pub utf8 : ℕ → Bytes
utf8 cp =
    if leb cp 0x7F
    then cp ∷ []
    else if leb cp 0x7FF
    then (192 + cp / 64 % 32) ∷ (128 + cp % 64) ∷ []
    else if leb cp 0xFFFF
    then (224 + cp / 4096 % 16) ∷ (128 + cp / 64 % 64) ∷ (128 + cp % 64) ∷ []
    else if leb cp 0x10FFFF
    then (240 + cp / 262144 % 8)
      ∷ (128 + cp / 4096 % 64)
      ∷ (128 + cp / 64 % 64)
      ∷ (128 + cp % 64)
      ∷ []
    else []

unfoldable pub hex_value : ℕ → Option ℕ
hex_value h =
    if leb b'0' h && leb h b'9'
    then some (h - 48)
    else if leb b'a' h && leb h b'f'
    then some (h - 87)
    else if leb b'A' h && leb h b'F'
    then some (h - 55)
    else none

unfoldable pub unescape : ℕ → ℕ
unescape c =
    if c == b'b'
    then 8
    else if c == b'f'
    then 12
    else if c == b'n'
    then 10
    else if c == b'r'
    then 13
    else if c == b't'
    then 9
    else c

-- Where `ParseString` stands in a text: between characters, behind a backslash, or in the digits of
-- a code point, with the number of digits to come after the next one and the value so far.
pub data Mode : Type 0 where
  plain escaped : Mode
  code_point : ℕ → ℕ → Mode

pub data Action : Type 0 where
  close reject : Action
  emit : Bytes → Mode → Action

unfoldable pub after_digit : ℕ → ℕ → Action
after_digit zero cp = emit (utf8 cp) plain
after_digit (suc more) cp = emit [] (code_point more cp)

unfoldable pub string_step : Mode → ℕ → Action
unfolding unescape after_digit
string_step plain c =
    if c == b'"' then close else if c == b'\\' then emit [] escaped else emit (c ∷ []) plain
string_step escaped c = if c == b'u' then emit [] (code_point 3 0) else emit (unescape c ∷ []) plain
string_step (code_point more cp) h = elim (hex_value h) [
  | none ↦ reject
  | some d ↦ after_digit more (cp * 16 + d)
]

abbrev pub prepend_text : Bytes → Option (Bytes × Bytes) → Option (Bytes × Bytes)
prepend_text out none = none
prepend_text out (some (s, rest)) = some (out ++ s, rest)

-- The text up to the closing quote, and what follows the quote.
unfoldable pub string_loop : Mode → Bytes → Option (Bytes × Bytes)
unfolding string_step
string_loop m [] = none
string_loop m (c ∷ s) = elim (string_step m c) [
  | close ↦ some ([], s)
  | reject ↦ none
  | emit out m' ↦ prepend_text out (string_loop m' s)
]

unfoldable pub parse_string : Bytes → Option (Bytes × Bytes)
unfolding string_loop
parse_string [] = none
parse_string (c ∷ s) = if c == b'"' then string_loop plain s else none

abbrev pub is_digit : ℕ → Bool
is_digit c = leb b'0' c && leb c b'9'

unfoldable pub take_digits : Bytes → Bytes × Bytes
take_digits [] = ([], [])
take_digits (c ∷ s) = if is_digit c then (c ∷ (take_digits s).0, (take_digits s).1) else ([], c ∷ s)

abbrev pub in_front : Bytes → Bytes × Bytes → Bytes × Bytes
in_front out (lexeme, rest) = (out ++ lexeme, rest)

-- One character of a class, if it is there.
abbrev pub take_one : (ℕ → Bool) → Bytes → Bytes × Bytes
take_one p [] = ([], [])
take_one p (c ∷ s) = if p c then (c ∷ [], s) else ([], c ∷ s)

unfoldable pub take_fraction : Bytes → Bytes × Bytes
unfolding take_digits
take_fraction [] = ([], [])
take_fraction (c ∷ s) = if c == b'.' then in_front (c ∷ []) (take_digits s) else ([], c ∷ s)

unfoldable pub signed_digits : Bytes × Bytes → Bytes × Bytes
unfolding take_digits
signed_digits (sign, s) = in_front sign (take_digits s)

unfoldable pub take_exponent : Bytes → Bytes × Bytes
unfolding signed_digits
take_exponent [] = ([], [])
take_exponent (c ∷ s) =
    if c == b'e' || c == b'E'
    then in_front (c ∷ []) (signed_digits (take_one (λ d. d == b'+' || d == b'-') s))
    else ([], c ∷ s)

-- The characters that `ParseNumber` hands to `std::stod`, and the rest.
unfoldable pub take_number : Bytes → Bytes × Bytes
unfolding take_digits take_fraction take_exponent
take_number s =
    let (sign, r₁) = take_one (λ c. c == b'-') s in
    let (whole, r₂) = take_digits r₁ in
    let (fraction, r₃) = take_fraction r₂ in
    let (exponent, r₄) = take_exponent r₃ in (sign ++ (whole ++ (fraction ++ exponent)), r₄)
