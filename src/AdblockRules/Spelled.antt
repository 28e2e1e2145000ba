-- ===== src/AdblockRules/Spelled.antt =====
-- The rules that adblock_rule_parser.cpp reads from lines that are spelled from their parts.
use openbrowser.Prelude.Bytes.{Bytes, bytes, strip}
use openbrowser.Prelude.{
  ℕ, ◌≡◌, refl, ap, Bool, true, false, ◌||◌, none, some, [], ◌∷◌, ◌++◌, arith, ◌==◌, ℕ_eq,
  ℕ_discrete, Bool-cases, inl, inr,
}
use mathlib.Core.List.{append-nil}
use openbrowser.AddressInput.{is_space}
use openbrowser.ContentFilter.{is_blank, TrackerCategory, advertising}
use openbrowser.NetworkTrace.Urls.{is_byte}
use openbrowser.NetworkTrace.Urls.Parts.{IsFree, append-IsFree}
use openbrowser.AdblockRules.Plain.{
  IsFree-weaken, trim-free, strip-none, not_cosmetic, take_until-whole, drop_until-none,
  strip_last-at, strip_last-free,
}
use openbrowser.AdblockRules.{
  ParsedAdblockRule, any_type, guess_category, parse_end, parse_anchors, parse_options, parse_line,
  new_rule, is_no_rule, excepted,
}

pub data Anchor : Type 0 where
  unanchored at_start at_domain : Anchor

abbrev pub anchor_text : Anchor → Bytes
anchor_text unanchored = []
anchor_text at_start = bytes "|"
anchor_text at_domain = bytes "||"

-- The bytes that mean something in a line, white space included.
abbrev pub is_special : ℕ → Bool
is_special c =
    is_space c
    || (c == b'!'
        || (c == b'[' || (c == b'|' || (c == b'@' || (c == b'$' || (c == b'#' || c == b'^'))))))

abbrev pub end_text : Bool → Bytes
end_text true = bytes "|"
end_text false = []

abbrev pub exception_text : Bool → Bytes
exception_text true = bytes "@@"
exception_text false = []

abbrev pub spell : Bool → Anchor → Bytes → Bool → Bytes
spell is_exception anchor pattern at_end =
    exception_text is_exception ++ (anchor_text anchor ++ (pattern ++ end_text at_end))

abbrev pub is_at_domain : Anchor → Bool
is_at_domain at_domain = true
is_at_domain unanchored = false
is_at_domain at_start = false

abbrev pub is_at_start : Anchor → Bool
is_at_start at_start = true
is_at_start unanchored = false
is_at_start at_domain = false

abbrev pub spelled_rule : Bool → Anchor → Bytes → Bool → ParsedAdblockRule
spelled_rule is_exception anchor pattern at_end = record {
  raw_rule = spell is_exception anchor pattern at_end;
  pattern = pattern;
  is_exception = is_exception;
  is_domain_anchor = is_at_domain anchor;
  is_start_anchor = is_at_start anchor;
  is_end_anchor = at_end;
  third_party_only = false;
  resource_types = any_type;
  category = guess_category pattern;
}

no_caret : is_special b'^' ≡ true
unfolding ℕ_discrete
no_caret = refl

no_bar : is_special b'|' ≡ true
unfolding ℕ_discrete
no_bar = refl

no_dollar : is_special b'$' ≡ true
unfolding ℕ_discrete
no_dollar = refl

no_hash : is_special b'#' ≡ true
unfolding ℕ_discrete
no_hash = refl

bar_no_space : is_space b'|' ≡ false
unfolding ℕ_discrete
bar_no_space = refl

at_no_space : is_space b'@' ≡ false
unfolding ℕ_discrete
at_no_space = refl

no_space_of : (c : ℕ) → is_special c ≡ false → is_space c ≡ false
no_space_of c h = ground (arith, h)

not_blank : (c : ℕ) (s : Bytes) → is_blank (c ∷ s) ≡ false
not_blank c s = ground arith

bar_off : (t : Bytes) → strip (bytes "|") (b'|' ∷ t) ≡ some t
unfolding strip ℕ_discrete
bar_off t = refl

bars_off : (t : Bytes) → strip (bytes "||") (bytes "||" ++ t) ≡ some t
unfolding strip ℕ_discrete
bars_off t = refl

one_bar : (c : ℕ) (t : Bytes) → (c == b'|') ≡ false → strip (bytes "||") (b'|' ∷ c ∷ t) ≡ none
unfolding strip ℕ_discrete
one_bar c t h = strip-none b'|' c [] t h

ats_off : (t : Bytes) → strip (bytes "@@") (bytes "@@" ++ t) ≡ some t
unfolding strip ℕ_discrete
ats_off t = refl

module _ (c : ℕ) (s : Bytes) (free : IsFree is_special (c ∷ s)) where
  holds_no : (b : ℕ) → is_special b ≡ true → IsFree (is_byte b) (c ∷ s)
  holds_no b special =
      IsFree-weaken is_special (is_byte b) (λ d plain. other d b plain special) (c ∷ s) free
    where
      other : (d b : ℕ) → is_special d ≡ false → is_special b ≡ true → (d == b) ≡ false
      other d b plain special = elim (Bool-cases (d == b)) [
        | inr differs ↦ differs
        | inl equal ↦
            let same : d ≡ b = ground (arith, equal) in
            absurd (ground (arith, plain, special, ap is_special same))
      ]

  module _ (q : ℕ → Bool) (pattern_free : IsFree q (c ∷ s)) (other : q b'|' ≡ false) where
    plain_text :
        (a : Anchor) (at_end : Bool) → IsFree q (anchor_text a ++ ((c ∷ s) ++ end_text at_end))
    plain_text a at_end =
        append-IsFree q (anchor_text a) ((c ∷ s) ++ end_text at_end) (bars_free a)
          (append-IsFree q (c ∷ s) (end_text at_end) pattern_free (end_free at_end))
      where
        bars_free : (x : Anchor) → IsFree q (anchor_text x)
        bars_free unanchored = tt
        bars_free at_start = (other, tt)
        bars_free at_domain = (other, (other, tt))

        end_free : (x : Bool) → IsFree q (end_text x)
        end_free true = (other, tt)
        end_free false = tt

    plain_line :
        q b'@' ≡ false
        → (e : Bool) (a : Anchor) (at_end : Bool) → IsFree q (spell e a (c ∷ s) at_end)
    plain_line at true a at_end = (at, (at, plain_text a at_end))
    plain_line at false a at_end = plain_text a at_end

  module _ (raw : Bytes) (is_exception : Bool) where
    abbrev read_so_far : Anchor → Bool → Bytes → TrackerCategory → ParsedAdblockRule
    read_so_far a at_end pattern category = record {
      raw_rule = raw;
      pattern = pattern;
      is_exception = is_exception;
      is_domain_anchor = is_at_domain a;
      is_start_anchor = is_at_start a;
      is_end_anchor = at_end;
      third_party_only = false;
      resource_types = any_type;
      category = category;
    }

    abbrev read_rule : Anchor → Bool → ParsedAdblockRule
    read_rule a at_end = read_so_far a at_end (c ∷ s) (guess_category (c ∷ s))

    parse_end-spelled :
        (a : Anchor) (at_end : Bool)
        → parse_end ((c ∷ s) ++ end_text at_end) (read_so_far a false [] advertising)
          ≡ some (read_rule a at_end)
    parse_end-spelled a true =
        rw (strip_last-at b'|' (c ∷ s))
          (rw (strip_last-free b'^' (c ∷ s) (holds_no b'^' no_caret)) (rw (not_blank c s) refl))
    parse_end-spelled a false = rw (append-nil s) (
        rw
          (
            strip_last-free b'|' (c ∷ s) (holds_no b'|' no_bar),
            strip_last-free b'^' (c ∷ s) (holds_no b'^' no_caret),
          )
          (rw (not_blank c s) refl))

    no_bar_first : (t : Bytes) → strip (bytes "||") (c ∷ t) ≡ none
    no_bar_first t = strip-none b'|' c (bytes "|") t (holds_no b'|' no_bar).0

    parse_anchors-spelled :
        (a : Anchor) (at_end : Bool)
        → parse_anchors
            (anchor_text a ++ ((c ∷ s) ++ end_text at_end))
            (read_so_far unanchored false [] advertising)
          ≡ some (read_rule a at_end)
    parse_anchors-spelled unanchored at_end =
        rw
          (
            no_bar_first (s ++ end_text at_end),
            strip-none b'|' c [] (s ++ end_text at_end) (holds_no b'|' no_bar).0,
          )
          (parse_end-spelled unanchored at_end)
    parse_anchors-spelled at_start at_end =
        rw
          (
            one_bar c (s ++ end_text at_end) (holds_no b'|' no_bar).0,
            bar_off ((c ∷ s) ++ end_text at_end),
          )
          (parse_end-spelled at_start at_end)
    parse_anchors-spelled at_domain at_end =
        rw (bars_off ((c ∷ s) ++ end_text at_end)) (parse_end-spelled at_domain at_end)

    parse_options-spelled :
        (a : Anchor) (at_end : Bool)
        → parse_options
            (anchor_text a ++ ((c ∷ s) ++ end_text at_end))
            (read_so_far unanchored false [] advertising)
          ≡ some (read_rule a at_end)
    parse_options-spelled a at_end =
        let line = anchor_text a ++ ((c ∷ s) ++ end_text at_end) in
        let dollarless =
          plain_text (is_byte b'$') (holds_no b'$' no_dollar) (ground arith) a at_end in
        rw
          (
            take_until-whole (is_byte b'$') line dollarless,
            drop_until-none (is_byte b'$') line dollarless,
          )
          (parse_anchors-spelled a at_end)

  is_rule-spell :
      (e : Bool) (a : Anchor) (at_end : Bool) → is_no_rule (spell e a (c ∷ s) at_end) ≡ false
  unfolding ℕ_discrete
  is_rule-spell true a at_end = refl
  is_rule-spell false unanchored at_end =
      let no_mark : (c == b'!') ≡ false = (holds_no b'!' refl).0 in
      let no_bracket : (c == b'[') ≡ false = (holds_no b'[' refl).0 in rw (no_mark, no_bracket) refl
  is_rule-spell false at_start at_end = refl
  is_rule-spell false at_domain at_end = refl

  no_ats :
      (a : Anchor) (at_end : Bool)
      → strip (bytes "@@") (anchor_text a ++ ((c ∷ s) ++ end_text at_end)) ≡ none
  unfolding ℕ_discrete
  no_ats unanchored at_end = strip-none b'@' c (bytes "@") _ (holds_no b'@' refl).0
  no_ats at_start at_end = strip-none b'@' b'|' (bytes "@") _ refl
  no_ats at_domain at_end = strip-none b'@' b'|' (bytes "@") _ refl

  excepted-spell :
      (e : Bool) (a : Anchor) (at_end : Bool)
      → let line = spell e a (c ∷ s) at_end in
        excepted line (strip (bytes "@@") line) (new_rule line)
        ≡ some (spelled_rule e a (c ∷ s) at_end)
  excepted-spell true a at_end =
      let line = spell true a (c ∷ s) at_end in
      rw (ats_off (anchor_text a ++ ((c ∷ s) ++ end_text at_end)))
        (parse_options-spelled line true a at_end)
  excepted-spell false a at_end =
      let line = spell false a (c ∷ s) at_end in
      rw (no_ats a at_end) (parse_options-spelled line false a at_end)

  -- A line that is spelled from an anchor or none at the front, a pattern, and an anchor or none at
  -- the end, and with the mark of an exception or without it, is read as the rule with just these
  -- parts, that has no options. The pattern is not empty, and none of its bytes is white space or
  -- one that has a meaning in a line.
  pub parse_line-spell :
      (e : Bool) (a : Anchor) (at_end : Bool)
      → parse_line (spell e a (c ∷ s) at_end) ≡ some (spelled_rule e a (c ∷ s) at_end)
  unfolding parse_line
  parse_line-spell e a at_end =
      let line = spell e a (c ∷ s) at_end in
      let no_space = IsFree-weaken is_special is_space (λ d h. no_space_of d h) (c ∷ s) free in
      let spaceless = plain_line is_space no_space bar_no_space at_no_space e a at_end in
      let hashless =
        plain_line (is_byte b'#') (holds_no b'#' no_hash) (ground arith) (ground arith) e a
          at_end in
      rw (trim-free line spaceless)
        (rw (is_rule-spell e a at_end, not_cosmetic line hashless) (excepted-spell e a at_end))
