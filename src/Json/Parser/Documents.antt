-- ===== src/Json/Parser/Documents.antt =====
-- The objects that are laid out by `Printer` are read back, and with them whole documents.
use mathlib.Core.List.{append_assoc}
use openbrowser.Prelude.Bytes.{Bytes, bytes}
use openbrowser.Prelude.{
  ℕ, ◌+◌, ◌*◌, String, ◌≡◌, refl, sym, ◌∙◌, ap, subst, true, false, Option, some, List, [], ◌∷◌,
  ◌++◌, map, arith, ◌==◌, ℕ_eq, ℕ_discrete, length,
}
use openbrowser.Json.{Json, object, Members, no_members, member}
use openbrowser.Json.Lexer.{is_blank, skip_whitespace, parse_string}
use openbrowser.Json.Parser.{
  parsed, expect, list_ends, list_empty, read_key, only_value, parse_json,
}
use openbrowser.Json.Parser.Spelling.{
  EndsNumber, Spells, SpellsMembers, blank-Spells, object-Spells, last_member-Spells, member-Spells,
}
use openbrowser.Json.Printer.{member_line, member_lines, item_object, document}

-- A key that is read back as it stands.
abbrev pub IsKey : String → Type 0
IsKey k = (rest : Bytes) → parse_string (b'"' ∷ (bytes k ++ (b'"' ∷ rest))) ≡ some (bytes k, rest)

-- An indentation.
abbrev pub AllBlank : Bytes → Type 0
AllBlank [] = Unit {0}
AllBlank (c ∷ s) = (is_blank c ≡ true) × AllBlank s

skip-AllBlank : (w s : Bytes) → AllBlank w → skip_whitespace (w ++ s) ≡ skip_whitespace s
unfolding skip_whitespace
skip-AllBlank [] s b = refl
skip-AllBlank (c ∷ w) s b = rw b.0 (skip-AllBlank w s b.1)

skip-quote : (u : Bytes) → skip_whitespace (b'"' ∷ u) ≡ b'"' ∷ u
unfolding skip_whitespace ℕ_discrete
skip-quote u = refl

expect-colon : (rest : Bytes) → expect b':' (b':' ∷ rest) ≡ parsed tt rest
unfolding expect skip_whitespace ℕ_discrete
expect-colon rest = refl

read_key-line :
    (indent : Bytes) (k : String) (rest : Bytes)
    → AllBlank indent
    → IsKey k
    → read_key (b'\n' ∷ (indent ++ (b'"' ∷ (bytes k ++ (bytes "\":" ++ rest)))))
      ≡ parsed (bytes k) rest
unfolding read_key
read_key-line indent k rest b key =
    let u = bytes k ++ (bytes "\":" ++ rest) in
    let newline : is_blank b'\n' ≡ true = unfold ℕ_discrete in refl in
    let start : skip_whitespace (b'\n' ∷ (indent ++ (b'"' ∷ u))) ≡ b'"' ∷ u =
      skip-AllBlank (b'\n' ∷ indent) (b'"' ∷ u) (newline, b) ∙ skip-quote u in
    rw (start, key (b':' ∷ rest), expect-colon rest) refl

-- A member as it is printed: its key, its value, and the text of the value.
abbrev pub Printed : Type 0 → Type 0
Printed D = String × Json D × Bytes

module _ {D : Type 0} (stod : Bytes → Option D) where
  abbrev pub key_of : Printed D → String × Bytes
  key_of p = (p.0, p.2)

  abbrev pub members_of : List (Printed D) → Members D
  members_of [] = no_members
  members_of ((k, v, t) ∷ ps) = member (bytes k) v (members_of ps)

  abbrev pub AllSpell : List (Printed D) → Type 0
  AllSpell [] = Unit {0}
  AllSpell ((k, v, t) ∷ ps) = IsKey k × Spells stod v t × AllSpell ps

  -- A line, cut between the colon and the value.
  abbrev line_head : Bytes → String → Bytes
  line_head indent k = b'\n' ∷ (indent ++ (b'"' ∷ (bytes k ++ bytes "\":")))

  member_line-split :
      (indent : Bytes) (k : String) (value : Bytes)
      → member_line indent k value ≡ line_head indent k ++ (b' ' ∷ value)
  member_line-split indent k value =
      ap (λ u. b'\n' ∷ u)
        (ap (λ u. indent ++ (b'"' ∷ u)) (sym (append_assoc (bytes k) (bytes "\":") (b' ' ∷ value)))
          ∙ sym (append_assoc indent (b'"' ∷ (bytes k ++ bytes "\":")) (b' ' ∷ value)))

  read_key-head :
      (indent : Bytes) (k : String) (rest : Bytes)
      → AllBlank indent
      → IsKey k
      → read_key (line_head indent k ++ rest) ≡ parsed (bytes k) rest
  read_key-head indent k rest b key =
      ap (λ u. read_key (b'\n' ∷ u))
        (append_assoc indent (b'"' ∷ (bytes k ++ bytes "\":")) rest
          ∙ ap (λ u. indent ++ (b'"' ∷ u)) (append_assoc (bytes k) (bytes "\":") rest))
      ∙ read_key-line indent k rest b key

  space_blank : is_blank b' ' ≡ true
  unfolding ℕ_discrete
  space_blank = refl

  comma_goes_on :
      (bracket : ℕ) (rest : Bytes)
      → (b',' == bracket) ≡ false
      → list_ends bracket (b',' ∷ rest) ≡ parsed false rest
  unfolding list_ends skip_whitespace ℕ_discrete
  comma_goes_on bracket rest e = rw e refl

  pub comma_stops : (rest : Bytes) → EndsNumber (b',' ∷ rest)
  unfolding ℕ_discrete
  comma_stops rest = refl

  comma_not_brace : ◌==◌ {A = ℕ} b',' b'}' ≡ false
  unfolding ℕ_discrete
  comma_not_brace = refl

  -- The lines of an object that has a member, with what closes it.
  pub lines-Spell :
      (indent closing : Bytes) (k : String) (v : Json D) (t : Bytes) (ps : List (Printed D))
      → AllBlank indent
      → ((rest : Bytes) → list_ends b'}' (closing ++ rest) ≡ parsed true rest)
      → ((rest : Bytes) → EndsNumber (closing ++ rest))
      → AllSpell ((k, v, t) ∷ ps)
      → SpellsMembers stod
          (members_of ((k, v, t) ∷ ps))
          (member_lines indent closing (map key_of ((k, v, t) ∷ ps)))
  unfolding member_lines
  lines-Spell indent closing k v t [] b closes stops (key, s, _) =
      subst (SpellsMembers stod (member (bytes k) v no_members))
        (sym (member_line-split indent k (t ++ closing)))
        (last_member-Spells stod (line_head indent k) (bytes k) v (b' ' ∷ t) closing
          (λ rest. read_key-head indent k rest b key) (blank-Spells stod b' ' v t space_blank s)
          stops (omega arith) closes)
  lines-Spell indent closing k v t ((k', v', t') ∷ ps) b closes stops (key, s, others) =
      let ms = members_of ((k', v', t') ∷ ps) in
      let lines = member_lines indent closing (map key_of ((k', v', t') ∷ ps)) in
      subst (SpellsMembers stod (member (bytes k) v ms))
        (sym (member_line-split indent k (t ++ (b',' ∷ lines))))
        (member-Spells stod (line_head indent k) (bytes k) v (b' ' ∷ t) (b',' ∷ [])
          (λ rest. read_key-head indent k rest b key) (blank-Spells stod b' ' v t space_blank s)
          comma_stops (omega arith) ms lines (λ rest. comma_goes_on b'}' rest comma_not_brace)
          (lines-Spell indent closing k' v' t' ps b closes stops others))

  list_empty-full :
      (bracket c : ℕ) (s u : Bytes)
      → skip_whitespace s ≡ c ∷ u
      → (c == bracket) ≡ false
      → list_empty bracket s ≡ (false, skip_whitespace s)
  unfolding list_empty
  list_empty-full bracket c s u e ne = rw (list_empty, e, ne) refl

  line-skips :
      (indent : Bytes) (k : String) (u : Bytes)
      → AllBlank indent
      → list_empty b'}' (line_head indent k ++ u)
        ≡ (false, skip_whitespace (line_head indent k ++ u))
  line-skips indent k u b =
      let k' = bytes k ++ bytes "\":" in
      let newline : is_blank b'\n' ≡ true = unfold ℕ_discrete in refl in
      list_empty-full b'}' b'"' (line_head indent k ++ u) (k' ++ u)
        (ap (λ v. skip_whitespace (b'\n' ∷ v)) (append_assoc indent (b'"' ∷ k') u)
          ∙ skip-AllBlank (b'\n' ∷ indent) (b'"' ∷ (k' ++ u)) (newline, b)
          ∙ skip-quote (k' ++ u))
        (unfold ℕ_discrete in refl)

  -- The lines but for the start of the first.
  abbrev lines_behind : Bytes → Bytes → Bytes → List (Printed D) → Bytes
  lines_behind indent closing t [] = b' ' ∷ (t ++ closing)
  lines_behind indent closing t (p ∷ ps) =
      b' ' ∷ (t ++ (b',' ∷ member_lines indent closing (map key_of (p ∷ ps))))

  lines-split :
      (indent closing : Bytes) (k : String) (v : Json D) (t : Bytes) (ps : List (Printed D))
      → member_lines indent closing (map key_of ((k, v, t) ∷ ps))
        ≡ line_head indent k ++ lines_behind indent closing t ps
  unfolding member_lines
  lines-split indent closing k v t [] = member_line-split indent k (t ++ closing)
  lines-split indent closing k v t (p ∷ ps) =
      member_line-split indent k (t ++ (b',' ∷ member_lines indent closing (map key_of (p ∷ ps))))

  -- An object that is printed with a member to a line.
  pub object-lines :
      (indent closing : Bytes) (k : String) (v : Json D) (t : Bytes) (ps : List (Printed D))
      → AllBlank indent
      → ((rest : Bytes) → list_ends b'}' (closing ++ rest) ≡ parsed true rest)
      → ((rest : Bytes) → EndsNumber (closing ++ rest))
      → AllSpell ((k, v, t) ∷ ps)
      → Spells stod
          (object (members_of ((k, v, t) ∷ ps)))
          (b'{' ∷ member_lines indent closing (map key_of ((k, v, t) ∷ ps)))
  object-lines indent closing k v t ps b closes stops ok =
      let behind = lines_behind indent closing t ps in
      let full : (lines rest : Bytes)
          → lines ≡ line_head indent k ++ behind
          → list_empty b'}' (lines ++ rest) ≡ (false, skip_whitespace (lines ++ rest)) =
        λ lines rest e.
          subst (λ u. list_empty b'}' u ≡ (false, skip_whitespace u))
            (sym (ap (λ l. l ++ rest) e ∙ append_assoc (line_head indent k) behind rest))
            (line-skips indent k (behind ++ rest) b) in
      object-Spells stod (members_of ((k, v, t) ∷ ps))
        (member_lines indent closing (map key_of ((k, v, t) ∷ ps)))
        (λ rest.
          full (member_lines indent closing (map key_of ((k, v, t) ∷ ps))) rest
            (lines-split indent closing k v t ps))
        (lines-Spell indent closing k v t ps b closes stops ok)

  -- An item of an array.
  pub item_object-Spells :
      (p : Printed D) (ps : List (Printed D))
      → AllSpell (p ∷ ps)
      → Spells stod (object (members_of (p ∷ ps))) (item_object (map key_of (p ∷ ps)))
  unfolding list_ends skip_whitespace ℕ_discrete
  item_object-Spells (k, v, t) ps =
      object-lines (bytes "      ") (bytes "\n    }") k v t ps
        (refl, (refl, (refl, (refl, (refl, (refl, tt)))))) (λ rest. refl) (λ rest. refl)

  -- The whole document is read as the object of its members.
  pub parse_json-document :
      (p : Printed D) (ps : List (Printed D))
      → AllSpell (p ∷ ps)
      → parse_json stod (document (map key_of (p ∷ ps))) ≡ some (object (members_of (p ∷ ps)))
  unfolding parse_json list_ends skip_whitespace only_value ℕ_discrete
  parse_json-document (k, v, t) ps ok =
      let body = document (map key_of ((k, v, t) ∷ ps)) in
      let reads =
        object-lines (bytes "  ") (bytes "\n}") k v t ps (refl, (refl, tt)) (λ rest. refl)
          (λ rest. refl) ok (3 * length body + 1) (bytes "\n") (omega arith) refl in
      rw reads refl
