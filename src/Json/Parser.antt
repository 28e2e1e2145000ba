-- ===== src/Json/Parser.antt =====
-- `JsonParser` of core/storage/json_helper.cpp: the values that hold others. Each call that may read a nested value takes a unit of
-- fuel, and running out of it is an answer of its own.
pub mod Fuel
pub mod Strings
pub mod Spelling
pub mod Numbers
pub mod Documents
pub mod Arrays
use openbrowser.Prelude.Bytes.{Bytes, bytes, strip}
use openbrowser.Prelude.{
  ℕ, zero, suc, ◌+◌, ◌*◌, String, Bool, true, false, ◌||◌, Option, none, some, [], ◌∷◌, ◌==◌, ℕ_eq,
  length, if◌then◌else◌,
}
use openbrowser.Json.{
  Json, null, bool, number, string, array, object, Items, no_items, item, Members, no_members,
  member,
}
use openbrowser.Json.Lexer.{skip_whitespace, parse_string, take_number, is_digit}

pub data Parsed (A : Type 0) : Type 0 where
  out_of_fuel malformed : Parsed A
  parsed : A → Bytes → Parsed A

infixl 5 ◌>>=◌
abbrev pub ◌>>=◌ : {A B : Type 0} → Parsed A → (A → Bytes → Parsed B) → Parsed B
out_of_fuel >>= f = out_of_fuel
malformed >>= f = malformed
parsed a s >>= f = f a s

abbrev pub of_option : {A : Type 0} → Option (A × Bytes) → Parsed A
of_option none = malformed
of_option (some (a, s)) = parsed a s

-- One given character, behind blanks.
unfoldable pub expect : ℕ → Bytes → Parsed (Unit {0})
unfolding skip_whitespace
expect c s = elim (skip_whitespace s) [
  | [] ↦ malformed
  | d ∷ r ↦ if d == c then parsed tt r else malformed
]

-- Whether a list ends behind a value: true for the given bracket, false for a comma.
unfoldable pub list_ends : ℕ → Bytes → Parsed Bool
unfolding skip_whitespace
list_ends bracket s = elim (skip_whitespace s) [
  | [] ↦ malformed
  | d ∷ r ↦ if d == bracket then parsed true r else if d == b',' then parsed false r else malformed
]

-- Whether a list is empty: the bracket is read if it comes next.
unfoldable pub list_empty : ℕ → Bytes → Bool × Bytes
unfolding skip_whitespace
list_empty bracket s = elim (skip_whitespace s) [
  | [] ↦ (false, [])
  | d ∷ r ↦ if d == bracket then (true, r) else (false, d ∷ r)
]

-- A key and the colon behind it.
unfoldable pub read_key : Bytes → Parsed Bytes
read_key s = of_option (parse_string (skip_whitespace s)) >>= λ key r.
    expect b':' r >>= λ _ r'. parsed key r'

module _ {D : Type 0} (stod : Bytes → Option D) where
  abbrev pub number_of : Bytes × Bytes → Parsed (Json D)
  number_of (lexeme, r) = elim (stod lexeme) [ none ↦ malformed | some d ↦ parsed (number d) r ]

  unfoldable pub parse_number : Bytes → Parsed (Json D)
  unfolding take_number
  parse_number s = number_of (take_number s)

  abbrev pub word : String → Json D → Bytes → Parsed (Json D) → Parsed (Json D)
  word w v s otherwise = elim (strip (bytes w) s) [ none ↦ otherwise | some r ↦ parsed v r ]

  -- The values that hold no others, by their first character.
  unfoldable pub parse_simple : ℕ → Bytes → Parsed (Json D)
  parse_simple c s =
      if c == b'"'
      then (of_option (parse_string s) >>= λ t r. parsed (string t) r)
      else if c == b't' || c == b'f'
      then word "true" (bool true) s (word "false" (bool false) s malformed)
      else if c == b'n'
      then word "null" null s malformed
      else if c == b'-' || is_digit c
      then parse_number s
      else malformed

  unfoldable mutual
    pub parse_value : ℕ → Bytes → Parsed (Json D)
    parse_value zero s = out_of_fuel
    parse_value (suc n) s = elim (skip_whitespace s) [
      | [] ↦ malformed
      | c ∷ r ↦ elim (c == b'{') [
        | true ↦ parse_object n (list_empty b'}' r)
        | false ↦ elim (c == b'[') [
          | true ↦ parse_array n (list_empty b']' r)
          | false ↦ parse_simple c (c ∷ r)
        ]
      ]
    ]

    pub parse_object : ℕ → Bool × Bytes → Parsed (Json D)
    parse_object zero s = out_of_fuel
    parse_object (suc n) (true, s) = parsed (object no_members) s
    parse_object (suc n) (false, s) = parse_members n s >>= λ ms r. parsed (object ms) r

    -- The rounds of the loop over the members of an object.
    pub parse_members : ℕ → Bytes → Parsed (Members D)
    parse_members zero s = out_of_fuel
    parse_members (suc n) s = read_key s >>= λ key r₁. parse_value n r₁ >>= λ v r₂.
        list_ends b'}' r₂ >>= λ last r₃. elim last [
          | true ↦ parsed (member key v no_members) r₃
          | false ↦ parse_members n r₃ >>= λ ms r₄. parsed (member key v ms) r₄
        ]

    pub parse_array : ℕ → Bool × Bytes → Parsed (Json D)
    parse_array zero s = out_of_fuel
    parse_array (suc n) (true, s) = parsed (array no_items) s
    parse_array (suc n) (false, s) = parse_items n s >>= λ is r. parsed (array is) r

    pub parse_items : ℕ → Bytes → Parsed (Items D)
    parse_items zero s = out_of_fuel
    parse_items (suc n) s = parse_value n s >>= λ v r₁. list_ends b']' r₁ >>= λ last r₂. elim last [
      | true ↦ parsed (item v no_items) r₂
      | false ↦ parse_items n r₂ >>= λ is r₃. parsed (item v is) r₃
    ]

  -- `Parse`: the whole text is one value.
  unfoldable pub only_value : Parsed (Json D) → Option (Json D)
  unfolding skip_whitespace
  only_value (parsed v r) = elim (skip_whitespace r) [ [] ↦ some v | _ ∷ _ ↦ none ]
  only_value _ = none

  -- Three units of fuel for each character, and one more, are enough.
  unfoldable pub parse_json : Bytes → Option (Json D)
  unfolding parse_value only_value
  parse_json s = only_value (parse_value (3 * length s + 1) s)
