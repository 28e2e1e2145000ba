-- ===== src/Json/Parser/Spelling.antt =====
-- Texts that the parser reads as a given value: the rules by which the printers' texts are read back.
use mathlib.Core.List.{append_assoc}
use openbrowser.Prelude.Bytes.{Bytes, bytes, strip}
use openbrowser.Prelude.{
  ℕ, zero, suc, ◌+◌, ◌*◌, ◌≤◌, ◌≡◌, refl, ◌∙◌, ap, Bool, true, false, ◌||◌, Option, [], ◌∷◌, ◌++◌,
  arith, ◌==◌, ℕ_eq, ℕ_discrete, length, length-append, if◌then◌else◌, Bool-cases, inl, inr,
}
use openbrowser.Json.{
  Json, null, bool, string, array, object, Items, no_items, item, Members, no_members, member,
  escape,
}
use openbrowser.Json.Lexer.{is_blank, skip_whitespace, is_digit}
use openbrowser.Json.Parser.{
  parsed, list_ends, list_empty, read_key, parse_simple, parse_value, parse_object, parse_members,
  parse_array, parse_items,
}
use openbrowser.Json.Parser.Strings.{parse_string-escape}

-- No character that could go on with a number comes next.
abbrev pub EndsNumber : Bytes → Type 0
EndsNumber [] = Unit {0}
EndsNumber (c ∷ s) = (is_digit c || (c == b'.' || (c == b'e' || c == b'E'))) ≡ false

module _ {D : Type 0} (stod : Bytes → Option D) where
  -- The text is read as the value, whatever comes behind it but the rest of a number.
  abbrev pub Spells : Json D → Bytes → Type 0
  Spells v t =
      (n : ℕ) (rest : Bytes)
      → 3 * length (t ++ rest) + 1 ≤ n
      → EndsNumber rest
      → parse_value stod n (t ++ rest) ≡ parsed v rest

  -- The members of an object up to its bracket, and the items of an array up to its bracket.
  abbrev pub SpellsMembers : Members D → Bytes → Type 0
  SpellsMembers ms t =
      (n : ℕ) (rest : Bytes)
      → 3 * length (t ++ rest) + 2 ≤ n
      → parse_members stod n (t ++ rest) ≡ parsed ms rest

  abbrev pub SpellsItems : Items D → Bytes → Type 0
  SpellsItems is t =
      (n : ℕ) (rest : Bytes)
      → 3 * length (t ++ rest) + 2 ≤ n
      → parse_items stod n (t ++ rest) ≡ parsed is rest

  same_start :
      (n : ℕ) (s s' : Bytes)
      → skip_whitespace s ≡ skip_whitespace s'
      → parse_value stod (suc n) s ≡ parse_value stod (suc n) s'
  unfolding parse_value
  same_start n s s' e = rw (e, parse_value) refl

  skip-blank : (c : ℕ) (s : Bytes) → is_blank c ≡ true → skip_whitespace (c ∷ s) ≡ skip_whitespace s
  unfolding skip_whitespace
  skip-blank c s e = rw e refl

  pub blank-Spells :
      (c : ℕ) (v : Json D) (t : Bytes) → is_blank c ≡ true → Spells v t → Spells v (c ∷ t)
  blank-Spells c v t e s zero rest le ends = absurd (omega arith)
  blank-Spells c v t e s (suc n) rest le ends =
      same_start n (c ∷ (t ++ rest)) (t ++ rest) (skip-blank c (t ++ rest) e)
      ∙ s (suc n) rest (omega arith) ends

  pub string-Spells : (s : Bytes) → Spells (string s) (escape s)
  unfolding parse_value skip_whitespace parse_simple escape ℕ_discrete
  string-Spells s zero rest le ends = absurd (omega arith)
  string-Spells s (suc n) rest le ends = rw (parse_string-escape s rest) refl

  pub null-Spells : Spells null (bytes "null")
  unfolding parse_value skip_whitespace parse_simple strip ℕ_discrete
  null-Spells zero rest le ends = absurd (omega arith)
  null-Spells (suc n) rest le ends = refl

  pub bool-Spells : (b : Bool) → Spells (bool b) (if b then bytes "true" else bytes "false")
  unfolding parse_value skip_whitespace parse_simple strip ℕ_discrete
  bool-Spells b zero rest le ends = absurd (omega arith)
  bool-Spells true (suc n) rest le ends = refl
  bool-Spells false (suc n) rest le ends = refl

  start_object :
      (n : ℕ) (s : Bytes)
      → parse_value stod (suc n) (b'{' ∷ s) ≡ parse_object stod n (list_empty b'}' s)
  unfolding parse_value skip_whitespace ℕ_discrete
  start_object n s = refl

  start_array :
      (n : ℕ) (s : Bytes)
      → parse_value stod (suc n) (b'[' ∷ s) ≡ parse_array stod n (list_empty b']' s)
  unfolding parse_value skip_whitespace ℕ_discrete
  start_array n s = refl

  after_members :
      (n : ℕ) (s rest : Bytes) (ms : Members D)
      → parse_members stod n s ≡ parsed ms rest
      → parse_object stod (suc n) (false, s) ≡ parsed (object ms) rest
  unfolding parse_value
  after_members n s rest ms e = rw e refl

  after_items :
      (n : ℕ) (s rest : Bytes) (is : Items D)
      → parse_items stod n s ≡ parsed is rest
      → parse_array stod (suc n) (false, s) ≡ parsed (array is) rest
  unfolding parse_value
  after_items n s rest is e = rw e refl

  skip-skip : (s : Bytes) → skip_whitespace (skip_whitespace s) ≡ skip_whitespace s
  unfolding skip_whitespace
  skip-skip [] = refl
  skip-skip (c ∷ s) = elim (Bool-cases (is_blank c)) [
    | inl e ↦ rw (e, skip-skip s) refl
    | inr e ↦ rw (e, e) refl
  ]

  same_members :
      (n : ℕ) (s : Bytes) → parse_members stod n (skip_whitespace s) ≡ parse_members stod n s
  unfolding parse_members read_key
  same_members zero s = refl
  same_members (suc n) s = rw (skip-skip s) refl

  same_items : (n : ℕ) (s : Bytes) → parse_items stod n (skip_whitespace s) ≡ parse_items stod n s
  unfolding parse_items
  same_items zero s = refl
  same_items (suc zero) s = unfold parse_value in refl
  same_items (suc (suc n)) s = rw (same_start n (skip_whitespace s) s (skip-skip s)) refl

  -- An object, and an array, once it is known not to be empty.
  pub object-Spells :
      (ms : Members D) (t : Bytes)
      → ((rest : Bytes) → list_empty b'}' (t ++ rest) ≡ (false, skip_whitespace (t ++ rest)))
      → SpellsMembers ms t
      → Spells (object ms) (b'{' ∷ t)
  object-Spells ms t full s zero rest fuel ends = absurd (omega arith)
  object-Spells ms t full s (suc zero) rest fuel ends = absurd (omega arith)
  object-Spells ms t full s (suc (suc n)) rest fuel ends =
      start_object (suc n) (t ++ rest)
      ∙ ap (parse_object stod (suc n)) (full rest)
      ∙ after_members n (skip_whitespace (t ++ rest)) rest ms
          (same_members n (t ++ rest) ∙ s n rest (omega arith))

  pub array-Spells :
      (is : Items D) (t : Bytes)
      → ((rest : Bytes) → list_empty b']' (t ++ rest) ≡ (false, skip_whitespace (t ++ rest)))
      → SpellsItems is t
      → Spells (array is) (b'[' ∷ t)
  array-Spells is t full s zero rest fuel ends = absurd (omega arith)
  array-Spells is t full s (suc zero) rest fuel ends = absurd (omega arith)
  array-Spells is t full s (suc (suc n)) rest fuel ends =
      start_array (suc n) (t ++ rest)
      ∙ ap (parse_array stod (suc n)) (full rest)
      ∙ after_items n (skip_whitespace (t ++ rest)) rest is
          (same_items n (t ++ rest) ∙ s n rest (omega arith))

  empty_array : (n : ℕ) (s : Bytes) → parse_array stod (suc n) (true, s) ≡ parsed (array no_items) s
  unfolding parse_value
  empty_array n s = refl

  pub empty_array-Spells :
      (t : Bytes)
      → ((rest : Bytes) → list_empty b']' (t ++ rest) ≡ (true, rest))
      → Spells (array no_items) (b'[' ∷ t)
  empty_array-Spells t empty zero rest fuel ends = absurd (omega arith)
  empty_array-Spells t empty (suc zero) rest fuel ends = absurd (omega arith)
  empty_array-Spells t empty (suc (suc n)) rest fuel ends =
      start_array (suc n) (t ++ rest)
      ∙ ap (parse_array stod (suc n)) (empty rest)
      ∙ empty_array n rest

  module _ (head : Bytes) (key : Bytes) (v : Json D) (t tail : Bytes)
      (reads : (rest : Bytes) → read_key (head ++ rest) ≡ parsed key rest) (value : Spells v t)
      (stops : (rest : Bytes) → EndsNumber (tail ++ rest)) (enough : 1 ≤ length head) where
    pub last_member-Spells :
        ((rest : Bytes) → list_ends b'}' (tail ++ rest) ≡ parsed true rest)
        → SpellsMembers (member key v no_members) (head ++ (t ++ tail))
    unfolding parse_members
    last_member-Spells ends zero rest fuel = absurd (omega arith)
    last_member-Spells ends (suc n) rest fuel =
        let lengths : 3 * length (t ++ (tail ++ rest)) + 1 ≤ n = omega (
          arith,
          length-append (head ++ (t ++ tail)) rest,
          length-append head (t ++ tail),
          length-append t tail,
          length-append t (tail ++ rest),
          length-append tail rest,
        ) in
        rw
          (
            append_assoc head (t ++ tail) rest,
            append_assoc t tail rest,
            reads (t ++ (tail ++ rest)),
            value n (tail ++ rest) lengths (stops rest),
            ends rest,
          )
          refl

    pub member-Spells :
        (ms : Members D) (u : Bytes)
        → ((rest : Bytes) → list_ends b'}' (tail ++ rest) ≡ parsed false rest)
        → SpellsMembers ms u
        → SpellsMembers (member key v ms) (head ++ (t ++ (tail ++ u)))
    unfolding parse_members
    member-Spells ms u goes_on others zero rest fuel = absurd (omega arith)
    member-Spells ms u goes_on others (suc n) rest fuel =
        let behind = tail ++ (u ++ rest) in
        let fuel' : 3 * length (t ++ behind) + 1 ≤ n = omega (
          arith,
          length-append (head ++ (t ++ (tail ++ u))) rest,
          length-append head (t ++ (tail ++ u)),
          length-append t (tail ++ u),
          length-append tail u,
          length-append t behind,
          length-append tail (u ++ rest),
          length-append u rest,
        ) in
        let fuel'' : 3 * length (u ++ rest) + 2 ≤ n = omega (
          arith,
          length-append (head ++ (t ++ (tail ++ u))) rest,
          length-append head (t ++ (tail ++ u)),
          length-append t (tail ++ u),
          length-append tail u,
          length-append u rest,
        ) in
        rw
          (
            append_assoc head (t ++ (tail ++ u)) rest,
            append_assoc t (tail ++ u) rest,
            append_assoc tail u rest,
            reads (t ++ behind),
            value n behind fuel' (stops (u ++ rest)),
            goes_on (u ++ rest),
            others n rest fuel'',
          )
          refl

  module _ (v : Json D) (t tail : Bytes) (value : Spells v t)
      (stops : (rest : Bytes) → EndsNumber (tail ++ rest)) (enough : 1 ≤ length tail) where
    pub last_item-Spells :
        ((rest : Bytes) → list_ends b']' (tail ++ rest) ≡ parsed true rest)
        → SpellsItems (item v no_items) (t ++ tail)
    unfolding parse_items
    last_item-Spells ends zero rest fuel = absurd (omega arith)
    last_item-Spells ends (suc n) rest fuel =
        let fuel' : 3 * length (t ++ (tail ++ rest)) + 1 ≤ n = omega (
          arith,
          length-append (t ++ tail) rest,
          length-append t tail,
          length-append t (tail ++ rest),
          length-append tail rest,
        ) in
        rw (append_assoc t tail rest, value n (tail ++ rest) fuel' (stops rest), ends rest) refl

    pub item-Spells :
        (is : Items D) (u : Bytes)
        → ((rest : Bytes) → list_ends b']' (tail ++ rest) ≡ parsed false rest)
        → SpellsItems is u
        → SpellsItems (item v is) (t ++ (tail ++ u))
    unfolding parse_items
    item-Spells is u goes_on others zero rest fuel = absurd (omega arith)
    item-Spells is u goes_on others (suc n) rest fuel =
        let behind = tail ++ (u ++ rest) in
        let fuel' : 3 * length (t ++ behind) + 1 ≤ n = omega (
          arith,
          length-append (t ++ (tail ++ u)) rest,
          length-append t (tail ++ u),
          length-append tail u,
          length-append t behind,
          length-append tail (u ++ rest),
          length-append u rest,
        ) in
        let fuel'' : 3 * length (u ++ rest) + 2 ≤ n = omega (
          arith,
          length-append (t ++ (tail ++ u)) rest,
          length-append t (tail ++ u),
          length-append tail u,
          length-append u rest,
        ) in
        rw
          (
            append_assoc t (tail ++ u) rest,
            append_assoc tail u rest,
            value n behind fuel' (stops (u ++ rest)),
            goes_on (u ++ rest),
            others n rest fuel'',
          )
          refl
