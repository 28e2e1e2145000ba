-- ===== src/AdblockRules/Compiled.antt =====
-- What the content filter decides once the rules of adblock_rule_parser.cpp are compiled into it.
use openbrowser.Prelude.Bytes.{Bytes, lower, bytes_eq}
use openbrowser.Prelude.{
  ℕ, ◌+◌, ◌%◌, ◌^◌, ◌≡◌, refl, sym, ◌∙◌, ap, Bool, true, false, not, ◌&&◌, ◌||◌, Option, none, some,
  List, [], ◌∷◌, ◌++◌, arith, ℕ_eq, length,
}
use openbrowser.Session.{increment64}
use openbrowser.ContentFilter.{
  ContentFilter, FilterRule, add_block_rule, add_allow_domain, is_blank, is_block, occurs_in,
  is_allowed_domain, first_match, evaluate,
}
use openbrowser.ContentFilter.Decisions.{is_allowed_domain-without}
use openbrowser.AdblockRules.{ParsedAdblockRule, compile_rule, compile_from, compile_into}

-- Whether the pattern of a rule occurs in an address, in any case of the letters.
abbrev pub is_hit : Bytes → ParsedAdblockRule → Bool
is_hit url r = not (is_blank r.pattern) && occurs_in (lower url) (lower r.pattern)

-- Whether one of the exceptions does, and whether one of the other rules does.
abbrev pub excepts : Bytes → List ParsedAdblockRule → Bool
excepts url [] = false
excepts url (r ∷ rs) = r.is_exception && is_hit url r || excepts url rs

abbrev pub hits : Bytes → List ParsedAdblockRule → Bool
hits url [] = false
hits url (r ∷ rs) = not r.is_exception && is_hit url r || hits url rs

abbrev pub is_rule : Option FilterRule → Bool
is_rule none = false
is_rule (some r) = true

abbrev pub has_match : Bytes → ContentFilter → Bool
has_match url f = is_rule (first_match (lower url) f.rules)

abbrev pub is_allowed : Bytes → ContentFilter → Bool
is_allowed url f = is_allowed_domain (lower url) f.allowlist_domains

or_assoc : (a b c : Bool) → ((a || b) || c) ≡ (a || (b || c))
or_assoc true b c = refl
or_assoc false b c = refl

or_false : (a : Bool) → (a || false) ≡ a
or_false true = refl
or_false false = refl

first_match-append :
    (u : Bytes) (rules : List FilterRule) (r : FilterRule)
    → is_rule (first_match u (rules ++ r ∷ []))
      ≡ (is_rule (first_match u rules) || occurs_in u r.pattern)
unfolding first_match
first_match-append u [] r = ground arith
first_match-append u (x ∷ xs) r = ground (arith, first_match-append u xs r)

module _ (url : Bytes) (r : ParsedAdblockRule) (f : ContentFilter) where
  enabled-compile_rule : (compile_rule r f).enabled ≡ f.enabled
  unfolding add_block_rule add_allow_domain
  enabled-compile_rule = ground arith

  is_allowed-compile_rule :
      is_allowed url (compile_rule r f) ≡ (is_allowed url f || r.is_exception && is_hit url r)
  unfolding add_block_rule add_allow_domain is_allowed_domain
  is_allowed-compile_rule =
      ground (arith, is_allowed_domain-without (lower url) (lower r.pattern) f.allowlist_domains)

  has_match-compile_rule :
      has_match url (compile_rule r f) ≡ (has_match url f || not r.is_exception && is_hit url r)
  unfolding add_block_rule add_allow_domain
  has_match-compile_rule = ground (
    arith,
    first_match-append (lower url) f.rules
        (record { pattern = lower r.pattern; category = r.category }),
  )

module _ (url : Bytes) where
  enabled-compile_from :
      (n : ℕ) (f : ContentFilter) (rs : List ParsedAdblockRule)
      → (compile_from n f rs).0.enabled ≡ f.enabled
  unfolding compile_from
  enabled-compile_from n f [] = refl
  enabled-compile_from n f (r ∷ rs) =
      enabled-compile_from (increment64 n) (compile_rule r f) rs ∙ enabled-compile_rule url r f

  is_allowed-compile_from :
      (n : ℕ) (f : ContentFilter) (rs : List ParsedAdblockRule)
      → is_allowed url (compile_from n f rs).0 ≡ (is_allowed url f || excepts url rs)
  unfolding compile_from
  is_allowed-compile_from n f [] = sym (or_false (is_allowed url f))
  is_allowed-compile_from n f (r ∷ rs) =
      is_allowed-compile_from (increment64 n) (compile_rule r f) rs
      ∙ ap (λ b. b || excepts url rs) (is_allowed-compile_rule url r f)
      ∙ or_assoc (is_allowed url f) (r.is_exception && is_hit url r) (excepts url rs)

  has_match-compile_from :
      (n : ℕ) (f : ContentFilter) (rs : List ParsedAdblockRule)
      → has_match url (compile_from n f rs).0 ≡ (has_match url f || hits url rs)
  unfolding compile_from
  has_match-compile_from n f [] = sym (or_false (has_match url f))
  has_match-compile_from n f (r ∷ rs) =
      has_match-compile_from (increment64 n) (compile_rule r f) rs
      ∙ ap (λ b. b || hits url rs) (has_match-compile_rule url r f)
      ∙ or_assoc (has_match url f) (not r.is_exception && is_hit url r) (hits url rs)

is_block-evaluate :
    (f : ContentFilter) (url : Bytes)
    → is_block (evaluate f url).1
      ≡ (f.enabled && (not (is_blank url) && (not (is_allowed url f) && has_match url f)))
unfolding evaluate
is_block-evaluate f url = ground arith

count-compile_from :
    (n : ℕ) (f : ContentFilter) (rs : List ParsedAdblockRule)
    → n % 2 ^ 64 ≡ n
    → (compile_from n f rs).1 ≡ (n + length rs) % 2 ^ 64
unfolding compile_from
count-compile_from n f [] h = omega arith
count-compile_from n f (r ∷ rs) h =
    omega (arith, count-compile_from (increment64 n) (compile_rule r f) rs)

-- Once rules are compiled into a content filter, it blocks exactly the addresses in which the pattern
-- of a rule that is no exception occurs, or that a rule from before matches, where neither the
-- pattern of an exception occurs nor a domain that was allowed before, the filter is enabled and the
-- address is not empty. Letters are compared in any case. The anchors, the third-party option and the
-- resource types of the rules have no part in it. The count is that of all rules, modulo 2^64.
pub evaluate-compile_into :
    (f : ContentFilter) (rs : List ParsedAdblockRule) (url : Bytes)
    → (is_block (evaluate (compile_into f rs).0 url).1 ≡ (
        f.enabled
        && (not (is_blank url)
            && (not (is_allowed url f || excepts url rs) && (has_match url f || hits url rs)))))
      × ((compile_into f rs).1 ≡ length rs % 2 ^ 64)
unfolding compile_into
evaluate-compile_into f rs url = (
  is_block-evaluate (compile_from 0 f rs).0 url
      ∙ rw
          (
            enabled-compile_from url 0 f rs,
            is_allowed-compile_from url 0 f rs,
            has_match-compile_from url 0 f rs,
          )
          refl,
  count-compile_from 0 f rs (omega arith) ∙ omega arith,
)
