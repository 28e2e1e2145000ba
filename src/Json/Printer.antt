-- ===== src/Json/Printer.antt =====
-- The layout of the documents that the `Serialize` functions write: an object with a member to a
-- line, and an array with an object to an item.
use openbrowser.Prelude.Bytes.{Bytes, bytes}
use openbrowser.Prelude.{String, Option, none, some, List, [], ◌∷◌, ◌++◌}
use openbrowser.Json.{escape}

-- The `EscapeJsonString` of a text, and `null` for no text.
abbrev pub quoted : String → Bytes
quoted s = escape (bytes s)

abbrev pub quoted_or_null : Option String → Bytes
quoted_or_null none = bytes "null"
quoted_or_null (some s) = quoted s

-- A line with a key and a value.
abbrev pub member_line : Bytes → String → Bytes → Bytes
member_line indent key value = b'\n' ∷ (indent ++ (b'"' ∷ (bytes key ++ (bytes "\": " ++ value))))

-- The lines of the members, a comma behind each but the last, and what closes the object.
unfoldable pub member_lines : Bytes → Bytes → List (String × Bytes) → Bytes
member_lines indent closing [] = closing
member_lines indent closing ((key, value) ∷ []) = member_line indent key (value ++ closing)
member_lines indent closing ((key, value) ∷ m ∷ ms) =
    member_line indent key (value ++ (b',' ∷ member_lines indent closing (m ∷ ms)))

-- An item of an array that is a member of the document.
abbrev pub item_object : List (String × Bytes) → Bytes
item_object ms = b'{' ∷ member_lines (bytes "      ") (bytes "\n    }") ms

-- The whole document.
abbrev pub document : List (String × Bytes) → Bytes
document ms = b'{' ∷ (member_lines (bytes "  ") (bytes "\n}") ms ++ bytes "\n")

module _ {A : Type 0} (print : A → Bytes) where
  -- What follows an item: the next one behind a comma, or the end of the array.
  abbrev pub more_items : List A → Bytes
  more_items [] = bytes "\n  ]"
  more_items (x ∷ xs) = bytes ",\n    " ++ (print x ++ more_items xs)

  abbrev pub item_array : List A → Bytes
  item_array [] = bytes "[\n  ]"
  item_array (x ∷ xs) = bytes "[\n    " ++ (print x ++ more_items xs)
