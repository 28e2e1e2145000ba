-- ===== src/Json/Parser/Fuel.antt =====
-- The parser's fuel is enough for every text.
use openbrowser.Prelude.Bytes.{Bytes, bytes, strip}
use openbrowser.Prelude.{
  ℕ, zero, suc, ◌+◌, ◌*◌, ◌≤◌, ◌<◌, ◌≡◌, ◌≢◌, refl, subst, Bool, true, false, ◌||◌, Option, none,
  some, [], ◌∷◌, arith, ◌==◌, ℕ_eq, length, if◌then◌else◌, Option-cases, Bool-cases, inl, inr,
}
use openbrowser.Json.{Json, null, bool, no_items, item, no_members, member}
use openbrowser.Json.Lexer.{
  Action, skip_whitespace, Mode, plain, string_step, emit, string_loop, parse_string, is_digit,
  take_digits, take_one, take_fraction, signed_digits, take_exponent, take_number,
}
use openbrowser.Json.Parser.{
  Parsed, out_of_fuel, malformed, parsed, ◌>>=◌, of_option, expect, list_ends, list_empty, read_key,
  parse_number, parse_simple, parse_value, parse_object, parse_members, parse_array, parse_items,
}

-- An answer, which leaves less than `k` characters.
abbrev LeavesBelow : {A : Type 0} → ℕ → Parsed A → Type 0
LeavesBelow k out_of_fuel = ⊥
LeavesBelow k malformed = Unit {0}
LeavesBelow k (parsed a r) = length r < k

>>=-LeavesBelow :
    {A B : Type 0} (j k : ℕ) (m : Parsed A) (f : A → Bytes → Parsed B)
    → LeavesBelow j m
    → ((a : A) (r : Bytes) → length r < j → LeavesBelow k (f a r))
    → LeavesBelow k (m >>= f)
>>=-LeavesBelow j k out_of_fuel f h next = h
>>=-LeavesBelow j k malformed f h next = tt
>>=-LeavesBelow j k (parsed a r) f h next = next a r h

LeavesBelow-mono : {A : Type 0} (j k : ℕ) (m : Parsed A) → j ≤ k → LeavesBelow j m → LeavesBelow k m
LeavesBelow-mono j k out_of_fuel le h = h
LeavesBelow-mono j k malformed le h = tt
LeavesBelow-mono j k (parsed a r) le h = omega arith

skip_whitespace-le : (s : Bytes) → length (skip_whitespace s) ≤ length s
unfolding skip_whitespace
skip_whitespace-le [] = omega arith
skip_whitespace-le (c ∷ s) = ground (arith, skip_whitespace-le s)

abbrev next_mode : Action → Mode
next_mode (emit out m) = m
next_mode _ = plain

string_loop-LeavesBelow :
    (m : Mode) (s : Bytes) → LeavesBelow (suc (length s)) (of_option (string_loop m s))
unfolding string_loop
string_loop-LeavesBelow m [] = tt
string_loop-LeavesBelow m (c ∷ s) =
    ground (arith, string_loop-LeavesBelow (next_mode (string_step m c)) s)

parse_string-LeavesBelow : (s : Bytes) → LeavesBelow (length s) (of_option (parse_string s))
unfolding parse_string
parse_string-LeavesBelow [] = tt
parse_string-LeavesBelow (c ∷ s) = ground (arith, string_loop-LeavesBelow plain s)

expect-LeavesBelow : (c : ℕ) (s : Bytes) → LeavesBelow (length s) (expect c s)
unfolding expect
expect-LeavesBelow c s = ground (arith, skip_whitespace-le s)

list_ends-LeavesBelow : (c : ℕ) (s : Bytes) → LeavesBelow (length s) (list_ends c s)
unfolding list_ends
list_ends-LeavesBelow c s = ground (arith, skip_whitespace-le s)

list_empty-le : (c : ℕ) (s : Bytes) → length (list_empty c s).1 ≤ length s
unfolding list_empty
list_empty-le c s = ground (arith, skip_whitespace-le s)

read_key-LeavesBelow : (s : Bytes) → LeavesBelow (length s) (read_key s)
unfolding read_key
read_key-LeavesBelow s =
    let start = skip_whitespace s in
    let le = skip_whitespace-le s in
    >>=-LeavesBelow (length start) (length s) (of_option (parse_string start)) _
      (parse_string-LeavesBelow start)
      λ key r lt.
        >>=-LeavesBelow (length r) (length s) (expect b':' r) _ (expect-LeavesBelow b':' r)
          λ _ r' lt'. omega arith

take_digits-le : (s : Bytes) → length (take_digits s).1 ≤ length s
unfolding take_digits
take_digits-le [] = omega arith
take_digits-le (c ∷ s) = ground (arith, take_digits-le s)

take_one-le : (p : ℕ → Bool) (s : Bytes) → length (take_one p s).1 ≤ length s
take_one-le p [] = omega arith
take_one-le p (c ∷ s) = ground arith

take_fraction-le : (s : Bytes) → length (take_fraction s).1 ≤ length s
unfolding take_fraction
take_fraction-le [] = omega arith
take_fraction-le (c ∷ s) = ground (arith, take_digits-le s)

take_exponent-le : (s : Bytes) → length (take_exponent s).1 ≤ length s
unfolding take_exponent signed_digits
take_exponent-le [] = omega arith
take_exponent-le (c ∷ s) =
    let one = take_one (λ d. d == b'+' || d == b'-') s in
    ground (arith, take_one-le (λ d. d == b'+' || d == b'-') s, take_digits-le one.1)

-- A number takes its first character at least.
take_number-lt :
    (c : ℕ) (s : Bytes)
    → (c == b'-' || is_digit c) ≡ true
    → length (take_number (c ∷ s)).1 ≤ length s
unfolding take_number take_digits
take_number-lt c s h =
    let r₁ = (take_one (λ d. d == b'-') (c ∷ s)).1 in
    let r₂ = (take_digits r₁).1 in
    let r₃ = (take_fraction r₂).1 in
    omega (arith, take_exponent-le r₃, take_fraction-le r₂, whole_lt c s h)
  where
    whole_lt :
        (c : ℕ) (s : Bytes)
        → (c == b'-' || is_digit c) ≡ true
        → length (take_digits (take_one (λ d. d == b'-') (c ∷ s)).1).1 ≤ length s
    whole_lt c s h = ground (arith, take_digits-le s)

strip-le : (p s : Bytes) (r : Bytes) → strip p s ≡ some r → length r ≤ length s
unfolding strip
strip-le [] s r h = ground arith
strip-le (x ∷ p) [] r h = ground arith
strip-le (x ∷ p) (c ∷ s) r h = ground (arith, strip-le p s r)

strip-lt : (x : ℕ) (p s : Bytes) (r : Bytes) → strip (x ∷ p) s ≡ some r → length r < length s
unfolding strip
strip-lt x p [] r h = ground arith
strip-lt x p (c ∷ s) r h = ground (arith, strip-le p s r)

if-LeavesBelow :
    {A : Type 0} (k : ℕ) (b : Bool) (m m' : Parsed A)
    → (b ≡ true → LeavesBelow k m)
    → (b ≡ false → LeavesBelow k m')
    → LeavesBelow k (if b then m else m')
if-LeavesBelow k true m m' yes_ no_ = yes_ refl
if-LeavesBelow k false m m' yes_ no_ = no_ refl

module _ {D : Type 0} (stod : Bytes → Option D) where
  parse_number-LeavesBelow :
      (c : ℕ) (s : Bytes)
      → (c == b'-' || is_digit c) ≡ true
      → LeavesBelow (suc (length s)) (parse_number stod (c ∷ s))
  unfolding parse_number
  parse_number-LeavesBelow c s h = ground (arith, take_number-lt c s h)

  word-LeavesBelow :
      (x : ℕ) (p : Bytes) (v : Json D) (s : Bytes) (otherwise : Parsed (Json D))
      → LeavesBelow (length s) otherwise
      → LeavesBelow (length s) (elim (strip (x ∷ p) s) [ none ↦ otherwise | some r ↦ parsed v r ])
  word-LeavesBelow x p v s otherwise h = elim (Option-cases (strip (x ∷ p) s)) [
    | inl e ↦ rw e h
    | inr (r, e) ↦ rw e (strip-lt x p s r e)
  ]

  parse_simple-LeavesBelow :
      (c : ℕ) (s : Bytes) → LeavesBelow (suc (length s)) (parse_simple stod c (c ∷ s))
  unfolding parse_simple
  parse_simple-LeavesBelow c s =
      let k = suc (length s) in
      if-LeavesBelow k (c == b'"') _ _
        (λ h.
          >>=-LeavesBelow k k (of_option (parse_string (c ∷ s))) _
            (parse_string-LeavesBelow (c ∷ s)) λ t r lt. lt)
        λ _.
          if-LeavesBelow k (c == b't' || c == b'f') _ _
            (λ _.
              word-LeavesBelow b't' (bytes "rue") (bool true) (c ∷ s) _
                (word-LeavesBelow b'f' (bytes "alse") (bool false) (c ∷ s) malformed tt))
            λ _.
              if-LeavesBelow k (c == b'n') _ _
                (λ _. word-LeavesBelow b'n' (bytes "ull") null (c ∷ s) malformed tt)
                λ _.
                  if-LeavesBelow k (c == b'-' || is_digit c) _ malformed
                    (λ h. parse_number-LeavesBelow c s h) (λ _. tt)

  by_first :
      (n : ℕ) (s t : Bytes)
      → ((u : Bool × Bytes) (k : ℕ)
          → length u.1 ≤ k
          → 3 * k + 3 ≤ n
          → LeavesBelow (suc k) (parse_object stod n u))
      → ((u : Bool × Bytes) (k : ℕ)
          → length u.1 ≤ k
          → 3 * k + 3 ≤ n
          → LeavesBelow (suc k) (parse_array stod n u))
      → length t ≤ length s
      → 3 * length s + 1 ≤ suc n
      → LeavesBelow (length s) (elim t [
        | [] ↦ malformed
        | c ∷ r ↦ elim (c == b'{') [
          | true ↦ parse_object stod n (list_empty b'}' r)
          | false ↦ elim (c == b'[') [
            | true ↦ parse_array stod n (list_empty b']' r)
            | false ↦ parse_simple stod c (c ∷ r)
          ]
        ]
      ])
  by_first n s [] objects arrays lt le = tt
  by_first n s (c ∷ r) objects arrays lt le = elim (Bool-cases (c == b'{')) [
    | inl e ↦ rw e (
        LeavesBelow-mono (suc (length r)) (length s) _ lt
          (objects (list_empty b'}' r) (length r) (list_empty-le b'}' r) (omega arith)))
    | inr e ↦ elim (Bool-cases (c == b'[')) [
      | inl e' ↦
          rw (e, e')
            (LeavesBelow-mono (suc (length r)) (length s) _ lt
              (arrays (list_empty b']' r) (length r) (list_empty-le b']' r) (omega arith)))
      | inr e' ↦
          rw (e, e')
            (LeavesBelow-mono (suc (length r)) (length s) _ lt (parse_simple-LeavesBelow c r))
    ]
  ]

  more_members :
      (n : ℕ)
      → ((u : Bytes) → 3 * length u + 2 ≤ n → LeavesBelow (length u) (parse_members stod n u))
      → (key : Bytes) (v : Json D) (last : Bool) (r : Bytes) (k : ℕ) → length r < k
      → 3 * k + 2 ≤ suc n
      → LeavesBelow k (elim last [
        | true ↦ parsed (member key v no_members) r
        | false ↦ parse_members stod n r >>= λ ms r₄. parsed (member key v ms) r₄
      ])
  more_members n members key v true r k lt le = lt
  more_members n members key v false r k lt le =
      >>=-LeavesBelow (length r) k (parse_members stod n r) _ (members r (omega arith))
        λ ms r₄ h. omega arith

  more_items :
      (n : ℕ)
      → ((u : Bytes) → 3 * length u + 2 ≤ n → LeavesBelow (length u) (parse_items stod n u))
      → (v : Json D) (last : Bool) (r : Bytes) (k : ℕ) → length r < k
      → 3 * k + 2 ≤ suc n
      → LeavesBelow k (elim last [
        | true ↦ parsed (item v no_items) r
        | false ↦ parse_items stod n r >>= λ is r₃. parsed (item v is) r₃
      ])
  more_items n items v true r k lt le = lt
  more_items n items v false r k lt le =
      >>=-LeavesBelow (length r) k (parse_items stod n r) _ (items r (omega arith))
        λ is r₃ h. omega arith

  mutual
    unfolding parse_value

    parse_value-LeavesBelow :
        (n : ℕ) (s : Bytes) → 3 * length s + 1 ≤ n → LeavesBelow (length s) (parse_value stod n s)
    parse_value-LeavesBelow zero s le = absurd (omega arith)
    parse_value-LeavesBelow (suc n) s le =
        by_first n s (skip_whitespace s) (parse_object-LeavesBelow n) (parse_array-LeavesBelow n)
          (skip_whitespace-le s) le

    parse_object-LeavesBelow :
        (n : ℕ) (s : Bool × Bytes) (k : ℕ)
        → length s.1 ≤ k
        → 3 * k + 3 ≤ n
        → LeavesBelow (suc k) (parse_object stod n s)
    parse_object-LeavesBelow zero s k lt le = absurd (omega arith)
    parse_object-LeavesBelow (suc n) (true, s) k lt le = omega arith
    parse_object-LeavesBelow (suc n) (false, s) k lt le =
        >>=-LeavesBelow (length s) (suc k) (parse_members stod n s) _
          (parse_members-LeavesBelow n s (omega arith)) λ ms r h. omega arith

    parse_members-LeavesBelow :
        (n : ℕ) (s : Bytes) → 3 * length s + 2 ≤ n → LeavesBelow (length s) (parse_members stod n s)
    parse_members-LeavesBelow zero s le = absurd (omega arith)
    parse_members-LeavesBelow (suc n) s le =
        >>=-LeavesBelow (length s) (length s) (read_key s) _ (read_key-LeavesBelow s) λ key r₁ h₁.
          >>=-LeavesBelow (length r₁) (length s) (parse_value stod n r₁) _
            (parse_value-LeavesBelow n r₁ (omega arith))
            λ v r₂ h₂.
              >>=-LeavesBelow (length r₂) (length s) (list_ends b'}' r₂) _
                (list_ends-LeavesBelow b'}' r₂)
                λ last r₃ h₃.
                  more_members n (parse_members-LeavesBelow n) key v last r₃ (length s)
                    (omega arith) (omega arith)

    parse_array-LeavesBelow :
        (n : ℕ) (s : Bool × Bytes) (k : ℕ)
        → length s.1 ≤ k
        → 3 * k + 3 ≤ n
        → LeavesBelow (suc k) (parse_array stod n s)
    parse_array-LeavesBelow zero s k lt le = absurd (omega arith)
    parse_array-LeavesBelow (suc n) (true, s) k lt le = omega arith
    parse_array-LeavesBelow (suc n) (false, s) k lt le =
        >>=-LeavesBelow (length s) (suc k) (parse_items stod n s) _
          (parse_items-LeavesBelow n s (omega arith)) λ is r h. omega arith

    parse_items-LeavesBelow :
        (n : ℕ) (s : Bytes) → 3 * length s + 2 ≤ n → LeavesBelow (length s) (parse_items stod n s)
    parse_items-LeavesBelow zero s le = absurd (omega arith)
    parse_items-LeavesBelow (suc n) s le =
        >>=-LeavesBelow (length s) (length s) (parse_value stod n s) _
          (parse_value-LeavesBelow n s (omega arith))
          λ v r₁ h₁.
            >>=-LeavesBelow (length r₁) (length s) (list_ends b']' r₁) _
              (list_ends-LeavesBelow b']' r₁)
              λ last r₂ h₂.
                more_items n (parse_items-LeavesBelow n) v last r₂ (length s) (omega arith)
                  (omega arith)

  -- The parser ends: on any text, well-formed or not, three units of fuel for each character and one
  -- more do not run out.
  pub parse_value_fuel : (s : Bytes) → parse_value stod (3 * length s + 1) s ≢ out_of_fuel
  parse_value_fuel s h =
      subst (LeavesBelow (length s)) h (parse_value-LeavesBelow (3 * length s + 1) s (omega arith))
