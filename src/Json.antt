-- ===== src/Json.antt =====
-- core/storage/json_helper.h and json_helper.cpp: JSON values, the look-ups in them, and the
-- escaping of texts. A number is of the type `D`, which stands for `double`, and the conversions
-- between texts, doubles and integers, which are the language's, are arguments.
pub mod Lexer
pub mod Parser
pub mod Printer
use openbrowser.Prelude.Bytes.{Bytes, bytes_eq, bytes}
use openbrowser.Prelude.Integers.{ℤ}
use openbrowser.Prelude.{
  ℕ, ◌+◌, ◌/◌, ◌%◌, Bool, true, false, Option, none, some, [], ◌∷◌, ◌++◌, ltb, ◌==◌, ℕ_eq,
  if◌then◌else◌,
}

mutual
  pub data Json (D : Type 0) : Type 0 where
    null : Json D
    bool : Bool → Json D
    number : D → Json D
    string : Bytes → Json D
    array : Items D → Json D
    object : Members D → Json D

  pub data Items (D : Type 0) : Type 0 where
    no_items : Items D
    item : Json D → Items D → Items D

  pub data Members (D : Type 0) : Type 0 where
    no_members : Members D
    member : Bytes → Json D → Members D → Members D

module _ {D : Type 0} where
  unfoldable pub find_member : Bytes → Members D → Option (Json D)
  find_member key no_members = none
  find_member key (member k v ms) = if k == key then some v else find_member key ms

  unfoldable pub find : Bytes → Json D → Option (Json D)
  unfolding find_member
  find key (object ms) = find_member key ms
  find key _ = none

  abbrev as_string : Option (Json D) → Option Bytes
  as_string (some (string s)) = some s
  as_string _ = none

  unfoldable pub get_optional_string : Bytes → Json D → Option Bytes
  get_optional_string key j = as_string (find key j)

  unfoldable pub get_string : Bytes → Bytes → Json D → Bytes
  get_string key default_val j = elim (as_string (find key j)) [ none ↦ default_val | some s ↦ s ]

  abbrev as_bool : Bool → Option (Json D) → Bool
  as_bool default_val (some (bool b)) = b
  as_bool default_val _ = default_val

  unfoldable pub get_bool : Bytes → Bool → Json D → Bool
  get_bool key default_val j = as_bool default_val (find key j)

  abbrev as_number : Option (Json D) → Option D
  as_number (some (number d)) = some d
  as_number _ = none

  unfoldable pub get_double : Bytes → D → Json D → D
  get_double key default_val j = elim (as_number (find key j)) [ none ↦ default_val | some d ↦ d ]

  -- `GetSizeT`: `to_size` is the cast, where the number is not negative.
  unfoldable pub get_size : (D → Option ℕ) → Bytes → ℕ → Json D → ℕ
  get_size to_size key default_val j = elim (as_number (find key j)) [
    | none ↦ default_val
    | some d ↦ elim (to_size d) [ none ↦ default_val | some n ↦ n ]
  ]

  -- `GetInt64`: `to_int64` is the cast, of either sign.
  unfoldable pub get_int64 : (D → ℤ) → Bytes → ℤ → Json D → ℤ
  get_int64 to_int64 key default_val j = elim (as_number (find key j)) [
    | none ↦ default_val
    | some d ↦ to_int64 d
  ]

-- The digit that `%x` prints.
unfoldable pub hex_char : ℕ → ℕ
hex_char d = if ltb d 10 then d + 48 else d + 87

abbrev pub is_control : ℕ → Bool
is_control c = ltb c 32

unfoldable pub escape_char : ℕ → Bytes
unfolding hex_char
escape_char c =
    if c == b'"'
    then bytes "\\\""
    else if c == b'\\'
    then bytes "\\\\"
    else if c == 8
    then bytes "\\b"
    else if c == 12
    then bytes "\\f"
    else if c == 10
    then bytes "\\n"
    else if c == 13
    then bytes "\\r"
    else if c == 9
    then bytes "\\t"
    else if is_control c
    then bytes "\\u00" ++ (hex_char (c / 16) ∷ hex_char (c % 16) ∷ [])
    else c ∷ []

unfoldable pub escape_chars : Bytes → Bytes
escape_chars [] = []
escape_chars (c ∷ s) = escape_char c ++ escape_chars s

-- `EscapeJsonString`: the text in quotes.
unfoldable pub escape : Bytes → Bytes
unfolding escape_chars
escape s = b'"' ∷ (escape_chars s ++ b'"' ∷ [])
