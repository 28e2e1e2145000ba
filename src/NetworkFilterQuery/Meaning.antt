-- ===== src/NetworkFilterQuery/Meaning.antt =====
-- What a query of network_filter_query.cpp means: the conjunction of its words, each of which a sign
-- in front negates.
use openbrowser.Prelude.Bytes.{Bytes, bytes, bytes_eq, lower, take_until}
use openbrowser.Prelude.{
  ◌≡◌, refl, sym, ◌∙◌, ap, Bool, true, false, ◌&&◌, List, [], ◌∷◌, ◌++◌, arith, ◌==◌, ℕ_eq,
  if◌then◌else◌, Bool-cases, ◌⊎◌, inl, inr, Option,
}
use openbrowser.Prelude.Integers.{ℤ}
use openbrowser.AddressInput.{drop_until}
use openbrowser.NetworkTrace.Urls.{is_byte}
use openbrowser.NetworkTrace.Requests.{NetworkRequestSummary}
use openbrowser.NetworkFilterQuery.{
  NetworkFilterQuery, StatusClause, TermClause, push_status, push_term, add_parts, add_clause,
  add_token, add_tokens, parse, split_whitespace, evaluate_status, evaluate_terms, matches,
  is_negation, status_clause, negated_if, term_matches, compares_status,
}
use openbrowser.NetworkFilterQuery.Words.{split_whitespace-append}

and_assoc : (a b c : Bool) → ((a && b) && c) ≡ (a && (b && c))
and_assoc true b c = refl
and_assoc false b c = refl

evaluate_status-append :
    (cs : List StatusClause) (c : StatusClause) (status : Option ℤ)
    → evaluate_status (cs ++ c ∷ []) status
      ≡ (evaluate_status cs status && negated_if c.negate (compares_status c status))
unfolding evaluate_status
evaluate_status-append [] c status = ground arith
evaluate_status-append (d ∷ cs) c status = ground (arith, evaluate_status-append cs c status)

evaluate_terms-append :
    (ts : List TermClause) (t : TermClause) (r : NetworkRequestSummary)
    → evaluate_terms (ts ++ t ∷ []) r
      ≡ (evaluate_terms ts r && negated_if t.negate (term_matches t.field t.value r))
unfolding evaluate_terms
evaluate_terms-append [] t r = ground arith
evaluate_terms-append (u ∷ ts) t r = ground (arith, evaluate_terms-append ts t r)

-- What a word does to a query: nothing, or one clause more.
abbrev Adds : (NetworkFilterQuery → NetworkFilterQuery) → Type 0
Adds f =
    ((q : NetworkFilterQuery) → f q ≡ q)
    ⊎ ((c : StatusClause) × ((q : NetworkFilterQuery) → f q ≡ push_status c q))
    ⊎ ((field value : Bytes) × (negate : Bool) × ((q : NetworkFilterQuery)
          → f q ≡ push_term field value negate q))

add_parts-Adds :
    (negate : Bool) (token before behind : Bytes) → Adds (add_parts negate token before behind)
add_parts-Adds negate token before [] = inr (inr ([], lower token, negate, λ q. refl))
add_parts-Adds negate token before (c ∷ val) = elim (Bool-cases (lower before == bytes "status")) [
  | inl named ↦ inr (inl (status_clause negate val, λ q. rw named refl))
  | inr other ↦ inr (inr (lower before, lower val, negate, λ q. rw other refl))
]

add_clause-Adds : (negate : Bool) (s : Bytes) → Adds (add_clause negate s)
unfolding add_clause
add_clause-Adds negate [] = inl (λ q. refl)
add_clause-Adds negate (c ∷ s) =
    add_parts-Adds negate (c ∷ s) (take_until (is_byte b':') (c ∷ s))
      (drop_until (is_byte b':') (c ∷ s))

choice_Adds :
    (b : Bool) (f g : NetworkFilterQuery → NetworkFilterQuery)
    → Adds f
    → Adds g
    → Adds (λ q. if b then f q else g q)
choice_Adds true f g h k = h
choice_Adds false f g h k = k

add_token-Adds : (t : Bytes) → Adds (add_token t)
unfolding add_token
add_token-Adds [] = inl (λ q. refl)
add_token-Adds (c ∷ s) =
    choice_Adds (is_negation c) (add_clause true s) (add_clause false (c ∷ s))
      (add_clause-Adds true s) (add_clause-Adds false (c ∷ s))

abbrev pub no_clauses : NetworkFilterQuery
no_clauses = record { raw_query = []; status_clauses = []; term_clauses = [] }

kept_alone : (a : Bool) → a ≡ (a && true)
kept_alone true = refl
kept_alone false = refl

status_aside : (a b c : Bool) → ((a && b) && c) ≡ ((a && c) && (b && true && true))
status_aside true true c = ground arith
status_aside true false c = ground arith
status_aside false b c = refl

term_aside : (a b c : Bool) → (a && (b && c)) ≡ ((a && b) && (true && (c && true)))
term_aside true true c = ground arith
term_aside true false c = refl
term_aside false b c = refl

pub no_clauses_match : (r : NetworkRequestSummary) → matches no_clauses r ≡ true
unfolding matches
no_clauses_match r = refl

-- A word restricts a query by what it means alone.
matches-Adds :
    (f : NetworkFilterQuery → NetworkFilterQuery) (q : NetworkFilterQuery)
    (r : NetworkRequestSummary)
    → Adds f
    → matches (f q) r ≡ (matches q r && matches (f no_clauses) r)
unfolding matches
matches-Adds f q r (inl e) =
    rw (e q, e no_clauses)
      (kept_alone (evaluate_status q.status_clauses r.status && evaluate_terms q.term_clauses r))
matches-Adds f q r (inr (inl (c, e))) =
    rw (e q, e no_clauses)
      (rw (evaluate_status-append q.status_clauses c r.status) (
        status_aside (evaluate_status q.status_clauses r.status)
          (negated_if c.negate (compares_status c r.status)) (evaluate_terms q.term_clauses r)))
matches-Adds f q r (inr (inr (field, value, negate, e))) =
    let t : TermClause = record { field = field; value = value; negate = negate } in
    rw (e q, e no_clauses)
      (rw (evaluate_terms-append q.term_clauses t r) (
        term_aside (evaluate_status q.status_clauses r.status) (evaluate_terms q.term_clauses r)
          (negated_if negate (term_matches field value r))))

matches-add_tokens :
    (ts : List Bytes) (q : NetworkFilterQuery) (r : NetworkRequestSummary)
    → matches (add_tokens ts q) r ≡ (matches q r && matches (add_tokens ts no_clauses) r)
matches-add_tokens [] q r =
    kept_alone (matches q r) ∙ ap (λ b. matches q r && b) (sym (no_clauses_match r))
matches-add_tokens (t ∷ ts) q r =
    let rest = matches (add_tokens ts no_clauses) r in
    matches-add_tokens ts (add_token t q) r
    ∙ ap (λ b. b && rest) (matches-Adds (add_token t) q r (add_token-Adds t))
    ∙ and_assoc (matches q r) (matches (add_token t no_clauses) r) rest
    ∙ ap (λ b. matches q r && b) (sym (matches-add_tokens ts (add_token t no_clauses) r))

add_tokens-append :
    (ts us : List Bytes) (q : NetworkFilterQuery)
    → add_tokens (ts ++ us) q ≡ add_tokens us (add_tokens ts q)
add_tokens-append [] us q = refl
add_tokens-append (t ∷ ts) us q = add_tokens-append ts us (add_token t q)

pub matches-parse :
    (s : Bytes) (r : NetworkRequestSummary)
    → matches (parse s) r ≡ matches (add_tokens (split_whitespace s) no_clauses) r
unfolding parse matches
matches-parse s r =
    matches-add_tokens (split_whitespace s)
      (record { raw_query = s; status_clauses = []; term_clauses = [] }) r
    ∙ ap (λ b. b && matches (add_tokens (split_whitespace s) no_clauses) r) (no_clauses_match r)

-- A request passes a query of two parts with a blank between them exactly when it passes both parts.
pub matches-parse-append :
    (s t : Bytes) (r : NetworkRequestSummary)
    → matches (parse (s ++ b' ' ∷ t)) r ≡ (matches (parse s) r && matches (parse t) r)
matches-parse-append s t r =
    let first = add_tokens (split_whitespace s) no_clauses in
    matches-parse (s ++ b' ' ∷ t) r
    ∙ ap (λ ws. matches (add_tokens ws no_clauses) r) (split_whitespace-append s t)
    ∙ ap (λ q. matches q r) (add_tokens-append (split_whitespace s) (split_whitespace t) no_clauses)
    ∙ matches-add_tokens (split_whitespace t) first r
    ∙ ap (λ b. b && matches (add_tokens (split_whitespace t) no_clauses) r)
        (sym (matches-parse s r))
    ∙ ap (λ b. matches (parse s) r && b) (sym (matches-parse t r))
