-- ===== src/Json/Parser/Strings.antt =====
-- A text that was escaped is read back.
use mathlib.Core.List.{append_assoc}
use openbrowser.Prelude.Bytes.{Bytes, bytes}
use openbrowser.Prelude.{
  ℕ, ◌+◌, ◌*◌, ◌/◌, ◌%◌, ◌<◌, ◌≡◌, ◌≢◌, refl, sym, ◌∙◌, subst, true, false, Option, none, some, [],
  ◌∷◌, ◌++◌, arith, ℕ_eq, ℕ_discrete, Bool-cases, inl, inr,
}
use openbrowser.Json.{hex_char, is_control, escape_char, escape_chars, escape}
use openbrowser.Json.Lexer.{utf8, hex_value, plain, string_loop, prepend_text, parse_string}

hex_value-hex_char : (d : ℕ) → d < 16 → hex_value (hex_char d) ≡ some d
unfolding hex_value hex_char
hex_value-hex_char d lt = ground arith

prepend_text-nil : (o : Option (Bytes × Bytes)) → prepend_text [] o ≡ o
prepend_text-nil none = refl
prepend_text-nil (some (s, rest)) = refl

utf8-control : (c : ℕ) → c < 32 → utf8 ((0 * 16 + c / 16) * 16 + c % 16) ≡ c ∷ []
unfolding utf8
utf8-control c lt = ground arith

zero_digit : hex_value b'0' ≡ some 0
unfolding hex_value
zero_digit = refl

-- The six characters of a control character.
string_loop-control :
    (c : ℕ) (t : Bytes)
    → c < 32
    → string_loop plain (bytes "\\u00" ++ (hex_char (c / 16) ∷ hex_char (c % 16) ∷ t))
      ≡ prepend_text (c ∷ []) (string_loop plain t)
unfolding string_loop ℕ_discrete
string_loop-control c t lt =
    ground
      (arith, zero_digit, hex_value-hex_char (c / 16), hex_value-hex_char (c % 16), utf8-control c)

escape_control :
    (c : ℕ)
    → c ≢ 34
    → c ≢ 92
    → c ≢ 8
    → c ≢ 12
    → c ≢ 10
    → c ≢ 13
    → c ≢ 9
    → is_control c ≡ true
    → escape_char c ≡ bytes "\\u00" ++ (hex_char (c / 16) ∷ hex_char (c % 16) ∷ [])
unfolding escape_char
escape_control c n₁ n₂ n₃ n₄ n₅ n₆ n₇ e = ground arith

escape_plain :
    (c : ℕ)
    → c ≢ 34
    → c ≢ 92
    → c ≢ 8
    → c ≢ 12
    → c ≢ 10
    → c ≢ 13
    → c ≢ 9
    → is_control c ≡ false
    → escape_char c ≡ c ∷ []
unfolding escape_char
escape_plain c n₁ n₂ n₃ n₄ n₅ n₆ n₇ e = ground arith

string_loop-plain :
    (c : ℕ) (t : Bytes)
    → c ≢ 34
    → c ≢ 92
    → string_loop plain (c ∷ t) ≡ prepend_text (c ∷ []) (string_loop plain t)
unfolding string_loop
string_loop-plain c t n₁ n₂ = ground arith

-- An escaped character is read as one character.
string_loop-escape_char :
    (c : ℕ) (t : Bytes)
    → string_loop plain (escape_char c ++ t) ≡ prepend_text (c ∷ []) (string_loop plain t)
unfolding string_loop escape_char ℕ_discrete
string_loop-escape_char c t = elim (ℕ_discrete c 34) [
  | yes p ↦ rw p (prepend_text-nil _)
  | no n34 ↦ elim (ℕ_discrete c 92) [
    | yes p ↦ rw p (prepend_text-nil _)
    | no n92 ↦ elim (ℕ_discrete c 8) [
      | yes p ↦ rw p (prepend_text-nil _)
      | no n8 ↦ elim (ℕ_discrete c 12) [
        | yes p ↦ rw p (prepend_text-nil _)
        | no n12 ↦ elim (ℕ_discrete c 10) [
          | yes p ↦ rw p (prepend_text-nil _)
          | no n10 ↦ elim (ℕ_discrete c 13) [
            | yes p ↦ rw p (prepend_text-nil _)
            | no n13 ↦ elim (ℕ_discrete c 9) [
              | yes p ↦ rw p (prepend_text-nil _)
              | no n9 ↦ elim (Bool-cases (is_control c)) [
                | inl e ↦
                    subst
                      (λ u.
                        string_loop plain (u ++ t) ≡ prepend_text (c ∷ []) (string_loop plain t))
                      (sym (escape_control c n34 n92 n8 n12 n10 n13 n9 e))
                      (string_loop-control c t (ground arith))
                | inr e ↦
                    subst
                      (λ u.
                        string_loop plain (u ++ t) ≡ prepend_text (c ∷ []) (string_loop plain t))
                      (sym (escape_plain c n34 n92 n8 n12 n10 n13 n9 e))
                      (string_loop-plain c t n34 n92)
              ]
            ]
          ]
        ]
      ]
    ]
  ]
]

string_loop-escape :
    (s rest : Bytes) → string_loop plain (escape_chars s ++ b'"' ∷ rest) ≡ some (s, rest)
unfolding escape_chars
string_loop-escape [] rest = unfold string_loop ℕ_discrete in refl
string_loop-escape (c ∷ s) rest = rw (append_assoc (escape_char c) (escape_chars s) (b'"' ∷ rest)) (
    string_loop-escape_char c (escape_chars s ++ b'"' ∷ rest) ∙ rw (string_loop-escape s rest) refl)

-- The text that stands escaped in quotes is read back as it is, control characters, quotes and
-- backslashes included, with whatever follows it left over.
pub parse_string-escape : (s rest : Bytes) → parse_string (escape s ++ rest) ≡ some (s, rest)
unfolding parse_string escape ℕ_discrete
parse_string-escape s rest =
    rw (append_assoc (escape_chars s) (b'"' ∷ []) rest) (string_loop-escape s rest)
