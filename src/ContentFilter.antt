-- ===== src/ContentFilter.antt =====
-- core/filters/content_filter.h and content_filter.cpp: the rules that block trackers. A text is the
-- list of its bytes. The set of the allowed domains is a list without repetition; only whether one of
-- them occurs in the address is asked.
pub mod Decisions
use openbrowser.Prelude.Bytes.{Bytes, bytes, bytes_eq, lower, split_at}
use openbrowser.Prelude.{
  ℕ, Bool, true, false, ◌||◌, not, Option, none, some, List, [], ◌∷◌, ◌++◌, ◌==◌, ℕ_eq,
  if◌then◌else◌, keep_if, length,
}
use openbrowser.Session.{increment64}
use openbrowser.DecisionLog.{
  FilterDecisionLog, FilterDecisionRecord, FilterDecisionLayer, content_filter, add_decision,
}

pub data FilterDecision : Type 0 where
  allow block : FilterDecision

pub data TrackerCategory : Type 0 where
  advertising analytics fingerprinting cryptomining social : TrackerCategory

pub record FilterRule : Type 0 where
  pub pattern : Bytes
  pub category : TrackerCategory

pub record ContentFilter : Type 0 where
  pub rules : List FilterRule
  pub allowlist_domains : List Bytes
  pub blocked_count : ℕ  -- size_t
  pub enabled : Bool
  pub decision_log : Option FilterDecisionLog

abbrev pub is_blank : Bytes → Bool
is_blank s = length s == 0

unfoldable pub add_block_rule : ContentFilter → Bytes → TrackerCategory → ContentFilter
add_block_rule f pattern category = if is_blank pattern then f else record f {
  rules = f.rules ++ record { pattern = lower pattern; category = category } ∷ [];
}

unfoldable pub create : ContentFilter
unfolding add_block_rule
create =
    let empty : ContentFilter = record {
      rules = [];
      allowlist_domains = [];
      blocked_count = 0;
      enabled = true;
      decision_log = none;
    } in
    let f₁ = add_block_rule empty (bytes "doubleclick.net") advertising in
    let f₂ = add_block_rule f₁ (bytes "google-analytics.com") analytics in
    let f₃ = add_block_rule f₂ (bytes "adservice.google.com") advertising in
    let f₄ = add_block_rule f₃ (bytes "facebook.com/tr") social in
    let f₅ = add_block_rule f₄ (bytes "adnxs.com") advertising in
    let f₆ = add_block_rule f₅ (bytes "criteo.com") advertising in
    let f₇ = add_block_rule f₆ (bytes "scorecardresearch.com") analytics in
    let f₈ = add_block_rule f₇ (bytes "hotjar.com") analytics in
    let f₉ = add_block_rule f₈ (bytes "coinhive.com") cryptomining in
    add_block_rule f₉ (bytes "fingerprintjs.com") fingerprinting

unfoldable pub without : Bytes → List Bytes → List Bytes
without domain ds = keep_if (λ d. not (d == domain)) ds

unfoldable pub add_allow_domain : ContentFilter → Bytes → ContentFilter
unfolding without
add_allow_domain f domain =
    if is_blank domain
    then f
    else record f { allowlist_domains = lower domain ∷ without (lower domain) f.allowlist_domains }

unfoldable pub remove_allow_domain : ContentFilter → Bytes → ContentFilter
unfolding without
remove_allow_domain f domain = record f {
  allowlist_domains = without (lower domain) f.allowlist_domains;
}

-- `find(…) != npos`.
unfoldable pub occurs_in : Bytes → Bytes → Bool
occurs_in s pattern = elim (split_at pattern s) [ none ↦ false | some _ ↦ true ]

unfoldable pub is_allowed_domain : Bytes → List Bytes → Bool
is_allowed_domain lower_url [] = false
is_allowed_domain lower_url (d ∷ ds) = occurs_in lower_url d || is_allowed_domain lower_url ds

unfoldable pub first_match : Bytes → List FilterRule → Option FilterRule
first_match lower_url [] = none
first_match lower_url (r ∷ rs) =
    if occurs_in lower_url r.pattern then some r else first_match lower_url rs

unfoldable pub evaluate : ContentFilter → Bytes → ContentFilter × FilterDecision
unfolding is_allowed_domain first_match
evaluate f url =
    if not f.enabled || is_blank url
    then (f, allow)
    else if is_allowed_domain (lower url) f.allowlist_domains
    then (f, allow)
    else elim (first_match (lower url) f.rules) [
      | none ↦ (f, allow)
      | some _ ↦ (record f { blocked_count = increment64 f.blocked_count }, block)
    ]

abbrev pub is_block : FilterDecision → Bool
is_block block = true
is_block allow = false

abbrev pub explained : FilterDecisionRecord → Option FilterRule → FilterDecisionRecord
explained r none = r
explained r (some rule) = record r {
  rule_source = rule.pattern;
  human_explanation = bytes "Blocked by tracker rule: " ++ rule.pattern;
}

abbrev pub bare_record : Bytes → Bytes → Bytes → FilterDecision → FilterDecisionRecord
bare_record url request_id scope d = record {
  request_id = request_id;
  url = url;
  blocked = is_block d;
  layer = content_filter;
  rule_source = [];
  scope = scope;
  human_explanation = [];
}

unfoldable pub decision_record :
    ContentFilter → Bytes → Bytes → Bytes → FilterDecision → FilterDecisionRecord
unfolding first_match
decision_record f url request_id scope d =
    let r = bare_record url request_id scope d in
    if is_block d
    then explained r (first_match (lower url) f.rules)
    else record r { human_explanation = bytes "Allowed by content filter policy" }

abbrev pub log_decision : FilterDecisionRecord → ContentFilter → ContentFilter
log_decision r f = record f {
  decision_log = elim f.decision_log [ none ↦ none | some l ↦ some (add_decision l r) ];
}

unfoldable pub evaluate_with_id :
    ContentFilter → Bytes → Bytes → Bytes → ContentFilter × FilterDecision
unfolding evaluate decision_record
evaluate_with_id f url request_id scope =
    let (f', d) = evaluate f url in (log_decision (decision_record f url request_id scope d) f', d)

abbrev pub set_decision_log : ContentFilter → Option FilterDecisionLog → ContentFilter
set_decision_log f l = record f { decision_log = l }

abbrev pub reset_stats : ContentFilter → ContentFilter
reset_stats f = record f { blocked_count = 0 }

abbrev pub set_enabled : ContentFilter → Bool → ContentFilter
set_enabled f enabled = record f { enabled = enabled }
