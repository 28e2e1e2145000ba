-- ===== src/AdblockRules.antt =====
-- core/filters/adblock_rule_parser.h and adblock_rule_parser.cpp: the lines of a filter list, and the
-- rules of the content filter that are made of them. A text is the list of its bytes. The parts
-- between commas, and the lines, are those of `split_on`: an empty one behind the last separator
-- changes nothing.
pub mod Compiled
pub mod Plain
pub mod Spelled
use openbrowser.Prelude.Bytes.{Bytes, bytes, bytes_eq, lower, strip, split_at, take_until}
use openbrowser.Prelude.{
  ℕ, zero, suc, ◌+◌, ◌-◌, ◌%◌, ◌^◌, Bool, true, false, not, ◌&&◌, ◌||◌, Option, none, some, List,
  [], ◌∷◌, ◌++◌, ltb, ◌==◌, ℕ_eq, if◌then◌else◌, length,
}
use openbrowser.Session.{increment64}
use openbrowser.AddressInput.{trim_ascii_whitespace, drop_until}
use openbrowser.ContentFilter.{
  ContentFilter, TrackerCategory, advertising, analytics, fingerprinting, cryptomining, social,
  occurs_in, is_blank, add_block_rule, add_allow_domain,
}
use openbrowser.NetworkTrace.Urls.{is_byte, split_on}

-- The bits of an `AdblockResourceType`. No bit set is `Any`.
pub record ResourceTypes : Type 0 where
  pub script : Bool
  pub image : Bool
  pub stylesheet : Bool
  pub xml_http_request : Bool
  pub subdocument : Bool

abbrev pub any_type : ResourceTypes
any_type = record {
  script = false;
  image = false;
  stylesheet = false;
  xml_http_request = false;
  subdocument = false;
}

abbrev pub is_any_type : ResourceTypes → Bool
is_any_type t =
    not (t.script || (t.image || (t.stylesheet || (t.xml_http_request || t.subdocument))))

unfoldable pub has_resource_type : ResourceTypes → ResourceTypes → Bool
has_resource_type mask type =
    if is_any_type mask || is_any_type type
    then true
    else mask.script && type.script
      || (mask.image && type.image
          || (mask.stylesheet && type.stylesheet
              || (mask.xml_http_request && type.xml_http_request
                  || mask.subdocument && type.subdocument)))

pub record ParsedAdblockRule : Type 0 where
  pub raw_rule : Bytes
  pub pattern : Bytes
  pub is_exception : Bool
  pub is_domain_anchor : Bool
  pub is_start_anchor : Bool
  pub is_end_anchor : Bool
  pub third_party_only : Bool
  pub resource_types : ResourceTypes
  pub category : TrackerCategory

abbrev pub drop {ℓ} : {A : Type ℓ} → ℕ → List A → List A
drop zero xs = xs
drop (suc n) [] = []
drop (suc n) (x ∷ xs) = drop n xs

abbrev pub has_prefix : Bytes → Bytes → Bool
has_prefix url pattern = elim (strip pattern url) [ none ↦ false | some rest ↦ true ]

abbrev pub has_suffix : Bytes → Bytes → Bool
has_suffix url pattern =
    if ltb (length url) (length pattern)
    then false
    else drop (length url - length pattern) url == pattern

-- The text behind the first `://`, or all of it.
abbrev pub behind_scheme : Bytes → Bytes
behind_scheme url = elim (split_at (bytes "://") url) [ none ↦ url | some (before, rest) ↦ rest ]

unfoldable pub matches : ParsedAdblockRule → Bytes → Bool → ResourceTypes → Bool
matches r url is_third_party type =
    if r.third_party_only && not is_third_party
    then false
    else if not (has_resource_type r.resource_types type)
    then false
    else if is_blank r.pattern
    then false
    else if r.is_domain_anchor
    then occurs_in (behind_scheme url) r.pattern
    else if r.is_start_anchor && r.is_end_anchor
    then url == r.pattern
    else if r.is_start_anchor
    then has_prefix url r.pattern
    else if r.is_end_anchor
    then has_suffix url r.pattern
    else occurs_in url r.pattern

unfoldable pub guess_category : Bytes → TrackerCategory
guess_category pattern =
    let has = λ (word : Bytes). occurs_in (lower pattern) word in
    if has (bytes "analytics")
      || (has (bytes "telemetry")
          || (has (bytes "metrics") || (has (bytes "stats") || has (bytes "tracker"))))
    then analytics
    else if has (bytes "fingerprint")
    then fingerprinting
    else if has (bytes "coin") || has (bytes "miner")
    then cryptomining
    else if has (bytes "facebook") || (has (bytes "twitter") || has (bytes "social"))
    then social
    else advertising

unfoldable pub apply_option : Bytes → ParsedAdblockRule → ParsedAdblockRule
apply_option opt r =
    let t = r.resource_types in
    if opt == bytes "third-party"
    then record r { third_party_only = true }
    else if opt == bytes "script"
    then record r { resource_types = record t { script = true } }
    else if opt == bytes "image"
    then record r { resource_types = record t { image = true } }
    else if opt == bytes "stylesheet"
    then record r { resource_types = record t { stylesheet = true } }
    else if opt == bytes "xmlhttprequest"
    then record r { resource_types = record t { xml_http_request = true } }
    else if opt == bytes "subdocument"
    then record r { resource_types = record t { subdocument = true } }
    else r

abbrev pub apply_options : List Bytes → ParsedAdblockRule → ParsedAdblockRule
apply_options [] r = r
apply_options (o ∷ os) r = apply_options os (apply_option (trim_ascii_whitespace o) r)

abbrev pub prepend_byte : ℕ → Option Bytes → Option Bytes
prepend_byte c none = none
prepend_byte c (some s) = some (c ∷ s)

-- The text without its last byte, if that is the given one.
unfoldable pub strip_last : ℕ → Bytes → Option Bytes
strip_last b [] = none
strip_last b (c ∷ []) = if c == b then some [] else none
strip_last b (c ∷ d ∷ s) = prepend_byte c (strip_last b (d ∷ s))

abbrev pub finished_rule : Bytes → ParsedAdblockRule → Option ParsedAdblockRule
finished_rule line r =
    if is_blank line
    then none
    else some (record r { pattern = line; category = guess_category line })

abbrev pub or_same : Bytes → Option Bytes → Bytes
or_same line none = line
or_same line (some rest) = rest

abbrev pub without_caret : Bytes → ParsedAdblockRule → Option ParsedAdblockRule
without_caret line r = finished_rule (or_same line (strip_last b'^' line)) r

abbrev pub end_anchored : Bytes → Option Bytes → ParsedAdblockRule → Option ParsedAdblockRule
end_anchored line none r = without_caret line r
end_anchored line (some rest) r = without_caret rest (record r { is_end_anchor = true })

abbrev pub parse_end : Bytes → ParsedAdblockRule → Option ParsedAdblockRule
parse_end line r = end_anchored line (strip_last b'|' line) r

abbrev pub start_anchored : Bytes → Option Bytes → ParsedAdblockRule → Option ParsedAdblockRule
start_anchored line none r = parse_end line r
start_anchored line (some rest) r = parse_end rest (record r { is_start_anchor = true })

abbrev pub domain_anchored : Bytes → Option Bytes → ParsedAdblockRule → Option ParsedAdblockRule
domain_anchored line none r = start_anchored line (strip (bytes "|") line) r
domain_anchored line (some rest) r = parse_end rest (record r { is_domain_anchor = true })

abbrev pub parse_anchors : Bytes → ParsedAdblockRule → Option ParsedAdblockRule
parse_anchors line r = domain_anchored line (strip (bytes "||") line) r

-- The text up to the first `$`, with the options behind it.
abbrev pub with_options : Bytes → Bytes → ParsedAdblockRule → Option ParsedAdblockRule
with_options line [] r = parse_anchors line r
with_options line (_ ∷ options) r = parse_anchors line (apply_options (split_on b',' options) r)

abbrev pub parse_options : Bytes → ParsedAdblockRule → Option ParsedAdblockRule
parse_options line r =
    with_options (take_until (is_byte b'$') line) (drop_until (is_byte b'$') line) r

abbrev pub excepted : Bytes → Option Bytes → ParsedAdblockRule → Option ParsedAdblockRule
excepted line none r = parse_options line r
excepted line (some rest) r = parse_options rest (record r { is_exception = true })

abbrev pub new_rule : Bytes → ParsedAdblockRule
new_rule line = record {
  raw_rule = line;
  pattern = [];
  is_exception = false;
  is_domain_anchor = false;
  is_start_anchor = false;
  is_end_anchor = false;
  third_party_only = false;
  resource_types = any_type;
  category = advertising;
}

-- An empty line, a comment or a header.
abbrev pub is_no_rule : Bytes → Bool
is_no_rule [] = true
is_no_rule (c ∷ s) = c == b'!' || c == b'['

abbrev pub is_cosmetic : Bytes → Bool
is_cosmetic line =
    occurs_in line (bytes "##") || (occurs_in line (bytes "#?#") || occurs_in line (bytes "#@#"))

abbrev pub parse_trimmed : Bytes → Option ParsedAdblockRule
parse_trimmed line =
    if is_no_rule line
    then none
    else if is_cosmetic line
    then none
    else excepted line (strip (bytes "@@") line) (new_rule line)

unfoldable pub parse_line : Bytes → Option ParsedAdblockRule
parse_line line = parse_trimmed (trim_ascii_whitespace line)

abbrev pub push_some : Option ParsedAdblockRule → List ParsedAdblockRule → List ParsedAdblockRule
push_some none rs = rs
push_some (some r) rs = r ∷ rs

unfoldable pub parse_lines : List Bytes → List ParsedAdblockRule
unfolding parse_line
parse_lines [] = []
parse_lines (l ∷ ls) = push_some (parse_line l) (parse_lines ls)

unfoldable pub parse_text : Bytes → List ParsedAdblockRule
unfolding parse_lines
parse_text text = parse_lines (split_on b'\n' text)

abbrev pub compile_rule : ParsedAdblockRule → ContentFilter → ContentFilter
compile_rule r f =
    if r.is_exception then add_allow_domain f r.pattern else add_block_rule f r.pattern r.category

-- The number of rules that were added, from the number so far.
unfoldable pub compile_from : ℕ → ContentFilter → List ParsedAdblockRule → ContentFilter × ℕ
compile_from added f [] = (f, added)
compile_from added f (r ∷ rs) = compile_from (increment64 added) (compile_rule r f) rs

unfoldable pub compile_into : ContentFilter → List ParsedAdblockRule → ContentFilter × ℕ
unfolding compile_from
compile_into target_filter rules = compile_from 0 target_filter rules
