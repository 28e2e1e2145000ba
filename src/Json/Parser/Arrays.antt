-- ===== src/Json/Parser/Arrays.antt =====
-- The arrays of objects that are laid out by `Printer` are read back.
use openbrowser.Prelude.Bytes.{Bytes, bytes}
use openbrowser.Prelude.{
  ◌≡◌, refl, sym, ap, subst, false, Option, List, [], ◌∷◌, ◌++◌, arith, ℕ_eq, ℕ_discrete,
}
use openbrowser.Json.{Json, array, Items, no_items, item}
use openbrowser.Json.Lexer.{skip_whitespace}
use openbrowser.Json.Parser.{list_ends, list_empty}
use openbrowser.Json.Parser.Spelling.{
  Spells, SpellsItems, blank-Spells, array-Spells, empty_array-Spells, last_item-Spells,
  item-Spells,
}
use openbrowser.Json.Printer.{more_items, item_array}
use openbrowser.Json.Parser.Documents.{comma_stops}

module _ {D : Type 0} (stod : Bytes → Option D) where
  -- The items of an array, each read as what it is printed from.
  module _ {A : Type 0} (print : A → Bytes) (value : A → Json D) where
    abbrev pub items_of : List A → Items D
    items_of [] = no_items
    items_of (x ∷ xs) = item (value x) (items_of xs)

    abbrev pub AllItems : List A → Type 0
    AllItems [] = Unit {0}
    AllItems (x ∷ xs) = Spells stod (value x) (print x) × AllItems xs

    indented :
        (x : A)
        → Spells stod (value x) (print x)
        → Spells stod (value x) (bytes "\n    " ++ print x)
    unfolding ℕ_discrete
    indented x s =
        let v = value x in
        let t = print x in
        blank-Spells stod b'\n' v (bytes "    " ++ t) refl (
          blank-Spells stod b' ' v (bytes "   " ++ t) refl (
            blank-Spells stod b' ' v (bytes "  " ++ t) refl
              (blank-Spells stod b' ' v (bytes " " ++ t) refl (blank-Spells stod b' ' v t refl s))))

    -- The text from an item on, before it the break of the line and the indentation.
    items-Spell :
        (x : A) (xs : List A)
        → AllItems (x ∷ xs)
        → SpellsItems stod (items_of (x ∷ xs)) (bytes "\n    " ++ (print x ++ more_items print xs))
    unfolding list_ends skip_whitespace ℕ_discrete
    items-Spell x [] (s, _) =
        last_item-Spells stod (value x) (bytes "\n    " ++ print x) (bytes "\n  ]") (indented x s)
          (λ rest. refl) (omega arith) (λ rest. refl)
    items-Spell x (y ∷ ys) (s, others) =
        item-Spells stod (value x) (bytes "\n    " ++ print x) (bytes ",") (indented x s)
          (comma_stops stod) (omega arith) (items_of (y ∷ ys))
          (bytes "\n    " ++ (print y ++ more_items print ys)) (λ rest. refl)
          (items-Spell y ys others)

    brace_full :
        (t u : Bytes)
        → t ≡ b'{' ∷ u
        → (rest : Bytes)
        → list_empty b']' (bytes "\n    " ++ (t ++ rest))
          ≡ (false, skip_whitespace (bytes "\n    " ++ (t ++ rest)))
    unfolding list_empty skip_whitespace ℕ_discrete
    brace_full t u e rest =
        subst
          (λ w.
            list_empty b']' (bytes "\n    " ++ (w ++ rest))
            ≡ (false, skip_whitespace (bytes "\n    " ++ (w ++ rest))))
          (sym e) refl

    pub item_array-Spells :
        (xs : List A)
        → ((x : A) → (u : Bytes) × (print x ≡ b'{' ∷ u))
        → AllItems xs
        → Spells stod (array (items_of xs)) (item_array print xs)
    unfolding list_empty skip_whitespace ℕ_discrete
    item_array-Spells [] braces ok = empty_array-Spells stod (bytes "\n  ]") (λ rest. refl)
    item_array-Spells (x ∷ xs) braces ok =
        array-Spells stod (items_of (x ∷ xs)) (bytes "\n    " ++ (print x ++ more_items print xs))
          (brace_full (print x ++ more_items print xs) ((braces x).0 ++ more_items print xs)
            (ap (λ t. t ++ more_items print xs) (braces x).1))
          (items-Spell x xs ok)
