-- ===== src/ContentFilter/Decisions.antt =====
-- What the filter decides, and what the log says of it.
use openbrowser.Prelude.Bytes.{Bytes, bytes, bytes_eq, lower}
use openbrowser.Prelude.{
  ◌≡◌, refl, ◌∙◌, ap, subst, true, false, ◌||◌, ◌&&◌, not, Option, none, some, List, [], ◌∷◌, ◌++◌,
  arith, ℕ_eq, if◌then◌else◌, Option-cases, inl, inr, Bool-cases,
}
use openbrowser.DecisionLog.{
  FilterDecisionLog, FilterDecisionRecord, add_decision, find_newest, find_by_request_id,
  entries-add_decision,
}
use openbrowser.ContentFilter.{
  ContentFilter, FilterDecision, FilterRule, allow, block, is_blank, without, add_allow_domain,
  occurs_in, is_allowed_domain, first_match, evaluate, decision_record, evaluate_with_id,
  log_decision,
}

pub is_allowed_domain-without :
    (u d : Bytes) (ds : List Bytes)
    → (occurs_in u d || is_allowed_domain u (without d ds))
      ≡ (occurs_in u d || is_allowed_domain u ds)
unfolding is_allowed_domain without
is_allowed_domain-without u d [] = refl
is_allowed_domain-without u d (x ∷ xs) = ground (arith, is_allowed_domain-without u d xs)

-- Once a domain is allowed, an address is allowed in which it occurs, in any case of the letters, and
-- the decision on every other address is the one from before. The empty domain changes nothing.
pub evaluate-add_allow_domain :
    (f : ContentFilter) (domain url : Bytes)
    → (evaluate (add_allow_domain f domain) url).1 ≡ (
        if not (is_blank domain) && occurs_in (lower url) (lower domain)
        then allow
        else (evaluate f url).1)
unfolding evaluate add_allow_domain is_allowed_domain
evaluate-add_allow_domain f domain url =
    ground (arith, is_allowed_domain-without (lower url) (lower domain) f.allowlist_domains)

find_newest-append :
    (id : Bytes) (es : List FilterDecisionRecord) (r : FilterDecisionRecord)
    → r.request_id ≡ id
    → find_newest id (es ++ r ∷ []) ≡ some r
unfolding find_newest
find_newest-append id [] r h = ground arith
find_newest-append id (e ∷ es) r h = rw (find_newest-append id es r h) refl

find-add_decision :
    (l : FilterDecisionLog) (r : FilterDecisionRecord)
    → find_by_request_id (add_decision l r) r.request_id ≡ some r
find-add_decision l r =
    ap (find_newest r.request_id) (entries-add_decision l.entries l r)
    ∙ find_newest-append r.request_id _ r refl

-- No pattern of the rules occurs in the address.
abbrev pub NoneOccurs : Bytes → List FilterRule → Type 0
NoneOccurs u [] = Unit {0}
NoneOccurs u (x ∷ xs) = (occurs_in u x.pattern ≡ false) × NoneOccurs u xs

-- The rule is in the list, its pattern occurs in the address, and that of no rule ahead of it does.
abbrev pub IsFirst : Bytes → List FilterRule → FilterRule → Type 0
IsFirst u rs r =
    (ahead after : List FilterRule) × (rs ≡ ahead ++ r ∷ after)
    × (occurs_in u r.pattern ≡ true)
    × NoneOccurs u ahead

first_match-IsFirst :
    (u : Bytes) (rs : List FilterRule) (r : FilterRule) → first_match u rs ≡ some r → IsFirst u rs r
unfolding first_match
first_match-IsFirst u [] r e = absurd (ground arith)
first_match-IsFirst u (x ∷ xs) r e = elim (Bool-cases (occurs_in u x.pattern)) [
  | inl h ↦
      let same : x ≡ r = ground arith in
      ([], xs, ap (λ y. y ∷ xs) same, subst (λ y. occurs_in u y.pattern ≡ true) same h, tt)
  | inr h ↦
      let (ahead, after, split, occurs, others) = first_match-IsFirst u xs r (ground arith) in
      (x ∷ ahead, after, ap (λ l. x ∷ l) split, occurs, (h, others))
]

evaluate_block :
    (f : ContentFilter) (url : Bytes)
    → (evaluate f url).1 ≡ block
    → (r : FilterRule) × (first_match (lower url) f.rules ≡ some r)
unfolding evaluate
evaluate_block f url e = elim (Option-cases (first_match (lower url) f.rules)) [
  | inl no_rule ↦ absurd (ground arith)
  | inr found ↦ found
]

-- What the record says of a decision of the filter. For a block it names the first of the filter's
-- rules whose pattern occurs in the address, as its source and in the text for people; for an
-- allowed request it names none.
abbrev pub Explains : ContentFilter → Bytes → FilterDecision → FilterDecisionRecord → Type 0
Explains f url allow r =
    (r.url ≡ url)
    × (r.blocked ≡ false)
    × (r.rule_source ≡ [])
    × (r.human_explanation ≡ bytes "Allowed by content filter policy")
Explains f url block r =
    (r.url ≡ url)
    × (r.blocked ≡ true)
    × ((rule : FilterRule) × IsFirst (lower url) f.rules rule
        × (r.rule_source ≡ rule.pattern)
        × (r.human_explanation ≡ bytes "Blocked by tracker rule: " ++ rule.pattern))

decision_record-Explains :
    (f : ContentFilter) (url request_id scope : Bytes) (d : FilterDecision)
    → (d ≡ block → (rule : FilterRule) × (first_match (lower url) f.rules ≡ some rule))
    → let r = decision_record f url request_id scope d in
      Explains f url d r × (r.request_id ≡ request_id)
unfolding decision_record
decision_record-Explains f url request_id scope allow matched = ((refl, refl, refl, refl), refl)
decision_record-Explains f url request_id scope block matched =
    let (rule, e) = matched refl in
    rw e ((refl, refl, (rule, first_match-IsFirst (lower url) f.rules rule e, refl, refl)), refl)

abbrev pub latest : Option FilterDecisionLog → Bytes → Option FilterDecisionRecord
latest none request_id = none
latest (some l) request_id = find_by_request_id l request_id

log-evaluate : (f : ContentFilter) (url : Bytes) → (evaluate f url).0.decision_log ≡ f.decision_log
unfolding evaluate
log-evaluate f url = ground arith

latest-log_decision :
    (f : ContentFilter) (l : FilterDecisionLog) (r : FilterDecisionRecord)
    → f.decision_log ≡ some l
    → latest (log_decision r f).decision_log r.request_id ≡ some r
latest-log_decision f l r e = rw e (find-add_decision l r)

-- The newest record that the log has for a request, once it is evaluated, is the one of its decision,
-- which is that of `Evaluate`: it has the request's address and says whether the request is blocked.
-- For one that is, it names the first of the filter's rules whose pattern occurs in the address, as
-- its source and in its text; for one that is not, its source is empty.
pub evaluate_with_id-Explains :
    (f : ContentFilter) (l : FilterDecisionLog) (url request_id scope : Bytes)
    → f.decision_log ≡ some l
    → let (f', d) = evaluate_with_id f url request_id scope in
      (d ≡ (evaluate f url).1)
      × ((r : FilterDecisionRecord) × (latest f'.decision_log request_id ≡ some r)
          × Explains f url d r)
unfolding evaluate_with_id
evaluate_with_id-Explains f l url request_id scope e =
    let d = (evaluate f url).1 in
    let r = decision_record f url request_id scope d in
    let (ok, same) = decision_record-Explains f url request_id scope d (evaluate_block f url) in
    let newest = latest-log_decision (evaluate f url).0 l r (log-evaluate f url ∙ e) in
    (
      refl,
      (
        r,
        subst (λ id. latest (log_decision r (evaluate f url).0).decision_log id ≡ some r) same
            newest,
        ok,
      ),
    )
