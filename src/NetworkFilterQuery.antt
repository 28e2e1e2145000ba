-- ===== src/NetworkFilterQuery.antt =====
-- core/network/network_filter_query.h and network_filter_query.cpp: the query that is typed in the
-- filter field of the network panel, a conjunction of words. A text is the list of its bytes.
pub mod Words
pub mod Meaning
pub mod Negation
use openbrowser.Prelude.Bytes.{Bytes, bytes, bytes_eq, lower, strip, split_at, take_until}
use openbrowser.Prelude.Integers.{ℤ, pos, negsuc, int_leb, int_ltb}
use openbrowser.Prelude.{
  ℕ, ◌+◌, ◌-◌, ◌*◌, ◌^◌, Bool, true, false, not, ◌&&◌, ◌||◌, Option, none, some, List, [], ◌∷◌,
  ◌++◌, leb, ltb, ◌==◌, ℕ_eq, if◌then◌else◌, keep_if,
}
use openbrowser.AddressInput.{is_space, is_digit, drop_until}
use openbrowser.ContentFilter.{occurs_in}
use openbrowser.NetworkTrace.{
  NetworkAttribution, page, update_check, filter_list_sync, telemetry, transfer, any_of,
}
use openbrowser.NetworkTrace.Urls.{is_byte, longer_first}
use openbrowser.NetworkTrace.Requests.{
  NetworkRequestSummary, RequestState, active, finished, failed, is_blank,
}
use openbrowser.NetworkTrace.Queries.{is_failed, has_text}

pub data FilterComparator : Type 0 where
  equal not_equal greater_than greater_than_or_equal less_than less_than_or_equal : FilterComparator
  range : FilterComparator

pub record StatusClause : Type 0 where
  pub comp : FilterComparator
  pub min_val : ℤ
  pub max_val : ℤ
  pub negate : Bool

pub record TermClause : Type 0 where
  pub field : Bytes
  pub value : Bytes
  pub negate : Bool

pub record NetworkFilterQuery : Type 0 where
  pub raw_query : Bytes
  pub status_clauses : List StatusClause
  pub term_clauses : List TermClause

abbrev pub starts_word : Bytes → Bool
starts_word [] = false
starts_word (c ∷ s) = not (is_space c)

-- The words between the white space.
unfoldable pub split_whitespace : Bytes → List Bytes
split_whitespace [] = []
split_whitespace (c ∷ s) =
    let rest = split_whitespace s in
    if is_space c then rest else if starts_word s then longer_first c rest else (c ∷ []) ∷ rest

abbrev pub digits_value : ℕ → Bytes → ℕ
digits_value n [] = n
digits_value n (c ∷ s) = digits_value (n * 10 + (c - b'0')) s

-- The number that the digits at the front of a text spell, if there is a digit.
abbrev pub leading_number : Bytes → Option ℕ
leading_number s = elim (take_until (λ c. not (is_digit c)) s) [
  | [] ↦ none
  | d ∷ ds ↦ some (digits_value 0 (d ∷ ds))
]

abbrev pub in_int : Bool → Option ℕ → ℤ
in_int negative none = pos 0
in_int false (some n) = if ltb n (2 ^ 31) then pos n else pos 0
in_int true (some n) = if n == 0 then pos 0 else if leb n (2 ^ 31) then negsuc (n - 1) else pos 0

abbrev pub signed_number : Bytes → ℤ
signed_number [] = pos 0
signed_number (c ∷ s) =
    if c == b'-'
    then in_int true (leading_number s)
    else if c == b'+'
    then in_int false (leading_number s)
    else in_int false (leading_number (c ∷ s))

-- `std::stoi`, with 0 where it throws: where there is no digit, or the number is not an `int`.
unfoldable pub parse_int_safe : Bytes → ℤ
parse_int_safe s = signed_number (drop_until (λ c. not (is_space c)) s)

abbrev pub compared : Bool → FilterComparator → Bytes → StatusClause
compared negate comp number = record {
  comp = comp;
  min_val = parse_int_safe number;
  max_val = pos 0;
  negate = negate;
}

abbrev pub spanned : Bool → Bytes → Option (Bytes × Bytes) → StatusClause
spanned negate val none = compared negate equal val
spanned negate val (some (low, high)) = record {
  comp = range;
  min_val = parse_int_safe low;
  max_val = parse_int_safe high;
  negate = negate;
}

-- The clause with the comparison whose sign stands in front, or else the next one.
abbrev pub signed_by : Bool → FilterComparator → Option Bytes → StatusClause → StatusClause
signed_by negate comp none next = next
signed_by negate comp (some number) next = compared negate comp number

unfoldable pub status_clause : Bool → Bytes → StatusClause
status_clause negate val = signed_by negate greater_than_or_equal (strip (bytes ">=") val) (
    signed_by negate greater_than (strip (bytes ">") val) (
      signed_by negate less_than_or_equal (strip (bytes "<=") val) (
        signed_by negate less_than (strip (bytes "<") val)
          (spanned negate val (split_at (bytes "..") val)))))

abbrev pub push_status : StatusClause → NetworkFilterQuery → NetworkFilterQuery
push_status c q = record q { status_clauses = q.status_clauses ++ c ∷ [] }

abbrev pub push_term : Bytes → Bytes → Bool → NetworkFilterQuery → NetworkFilterQuery
push_term field value negate q = record q {
  term_clauses = q.term_clauses ++ record { field = field; value = value; negate = negate } ∷ [];
}

-- A word split at its first `:`.
abbrev pub add_parts : Bool → Bytes → Bytes → Bytes → NetworkFilterQuery → NetworkFilterQuery
add_parts negate token before [] q = push_term [] (lower token) negate q
add_parts negate token before (_ ∷ val) q =
    if lower before == bytes "status"
    then push_status (status_clause negate val) q
    else push_term (lower before) (lower val) negate q

unfoldable pub add_clause : Bool → Bytes → NetworkFilterQuery → NetworkFilterQuery
add_clause negate [] q = q
add_clause negate (c ∷ s) q =
    add_parts negate (c ∷ s) (take_until (is_byte b':') (c ∷ s)) (drop_until (is_byte b':') (c ∷ s))
      q

abbrev pub is_negation : ℕ → Bool
is_negation c = c == b'-' || c == b'!'

unfoldable pub add_token : Bytes → NetworkFilterQuery → NetworkFilterQuery
unfolding add_clause
add_token [] q = q
add_token (c ∷ s) q = if is_negation c then add_clause true s q else add_clause false (c ∷ s) q

abbrev pub add_tokens : List Bytes → NetworkFilterQuery → NetworkFilterQuery
add_tokens [] q = q
add_tokens (t ∷ ts) q = add_tokens ts (add_token t q)

unfoldable pub parse : Bytes → NetworkFilterQuery
unfolding split_whitespace
parse query_string =
    add_tokens (split_whitespace query_string)
      (record { raw_query = query_string; status_clauses = []; term_clauses = [] })

abbrev pub is_empty_query : NetworkFilterQuery → Bool
is_empty_query q = is_blank q.status_clauses && is_blank q.term_clauses

abbrev pub compares : FilterComparator → ℤ → ℤ → ℤ → Bool
compares equal low high s = int_leb s low && int_leb low s
compares not_equal low high s = not (int_leb s low && int_leb low s)
compares greater_than low high s = int_ltb low s
compares greater_than_or_equal low high s = int_leb low s
compares less_than low high s = int_ltb s low
compares less_than_or_equal low high s = int_leb s low
compares range low high s = int_leb low s && int_leb s high

abbrev pub negated_if : Bool → Bool → Bool
negated_if negate result = if negate then not result else result

abbrev pub compares_status : StatusClause → Option ℤ → Bool
compares_status c none = false
compares_status c (some s) = compares c.comp c.min_val c.max_val s

unfoldable pub evaluate_status : List StatusClause → Option ℤ → Bool
evaluate_status [] status = true
evaluate_status (c ∷ cs) status =
    negated_if c.negate (compares_status c status) && evaluate_status cs status

abbrev pub is_state : Bytes → RequestState → Bool
is_state value active = value == bytes "active"
is_state value finished = value == bytes "finished"
is_state value failed = value == bytes "failed"

abbrev pub is_attribution : Bytes → NetworkAttribution → Bool
is_attribution value page = value == bytes "page"
is_attribution value transfer = value == bytes "transfer"
is_attribution value telemetry = value == bytes "telemetry"
is_attribution value update_check = value == bytes "update"
is_attribution value filter_list_sync = value == bytes "filter"

abbrev pub has_free_text : Bytes → NetworkRequestSummary → Bool
has_free_text text r =
    occurs_in (lower r.url) text
    || (occurs_in (lower r.body_preview) text
        || (occurs_in (lower r.error) text
            || (any_of (has_text text) r.request_headers
                || any_of (has_text text) r.response_headers)))

abbrev pub same_bool : Bool → Bool → Bool
same_bool true b = b
same_bool false b = not b

unfoldable pub term_matches : Bytes → Bytes → NetworkRequestSummary → Bool
term_matches field value r =
    if field == bytes "method"
    then lower r.method == value
    else if field == bytes "host"
    then occurs_in (lower r.url) value
    else if field == bytes "protocol"
    then occurs_in (lower r.protocol) value
    else if field == bytes "is"
    then if value == bytes "blocked"
      then not (is_blank r.error) && occurs_in (lower r.error) (bytes "block")
      else is_state value r.state
    else if field == bytes "has"
    then if value == bytes "body"
      then not (is_blank r.body_preview)
      else if value == bytes "error"
      then not (is_blank r.error)
      else false
    else if field == bytes "attribution"
    then is_attribution value r.attribution
    else if field == bytes "blocked"
    then same_bool r.filter_blocked
        (value == bytes "true" || (value == bytes "1" || value == bytes "yes"))
    else if field == bytes "decision"
    then if value == bytes "block" || value == bytes "blocked"
      then r.filter_blocked
      else if value == bytes "allow" || value == bytes "allowed"
      then not r.filter_blocked
      else false
    else if is_blank field
    then has_free_text value r
    else false

unfoldable pub evaluate_terms : List TermClause → NetworkRequestSummary → Bool
evaluate_terms [] r = true
evaluate_terms (t ∷ ts) r =
    negated_if t.negate (term_matches t.field t.value r) && evaluate_terms ts r

unfoldable pub matches : NetworkFilterQuery → NetworkRequestSummary → Bool
unfolding evaluate_status evaluate_terms
matches q r = evaluate_status q.status_clauses r.status && evaluate_terms q.term_clauses r

unfoldable pub filter_requests :
    NetworkFilterQuery → List NetworkRequestSummary → List NetworkRequestSummary
filter_requests q rs = if is_empty_query q then rs else keep_if (matches q) rs
