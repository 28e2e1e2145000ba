-- ===== src/NetworkFilterQuery/Negation.antt =====
-- The sign in front of a word in network_filter_query.cpp.
use openbrowser.Prelude.Bytes.{Bytes, bytes, bytes_eq, lower, take_until, strip, split_at}
use openbrowser.Prelude.{
  ℕ, ◌≡◌, refl, sym, ◌∙◌, ap, Bool, true, false, not, ◌&&◌, [], ◌∷◌, arith, ◌==◌, ℕ_eq, Bool-cases,
  inl, inr, Option, none, some,
}
use openbrowser.Prelude.Integers.{ℤ}
use openbrowser.AddressInput.{is_space, drop_until}
use openbrowser.NetworkTrace.Urls.{is_byte}
use openbrowser.NetworkTrace.Urls.Parts.{IsFree}
use openbrowser.NetworkTrace.Requests.{NetworkRequestSummary}
use openbrowser.NetworkFilterQuery.{
  StatusClause, FilterComparator, add_parts, add_clause, add_token, parse, matches, is_negation,
  status_clause, negated_if, term_matches, compares_status, signed_by, spanned, add_tokens,
  greater_than_or_equal, greater_than, less_than_or_equal, less_than,
}
use openbrowser.NetworkFilterQuery.Words.{split_whitespace-word}
use openbrowser.NetworkFilterQuery.Meaning.{no_clauses, matches-parse}

-- The same comparison, negated and not.
abbrev AreOpposite : StatusClause → StatusClause → Type 0
AreOpposite c d =
    (c.comp ≡ d.comp)
    × (c.min_val ≡ d.min_val)
    × (c.max_val ≡ d.max_val)
    × (c.negate ≡ true)
    × (d.negate ≡ false)

signed_by-AreOpposite :
    (comp : FilterComparator) (number : Option Bytes) (c d : StatusClause)
    → AreOpposite c d
    → AreOpposite (signed_by true comp number c) (signed_by false comp number d)
signed_by-AreOpposite comp none c d h = h
signed_by-AreOpposite comp (some number) c d h = (refl, refl, refl, refl, refl)

spanned-AreOpposite :
    (val : Bytes) (parts : Option (Bytes × Bytes))
    → AreOpposite (spanned true val parts) (spanned false val parts)
spanned-AreOpposite val none = (refl, refl, refl, refl, refl)
spanned-AreOpposite val (some (low, high)) = (refl, refl, refl, refl, refl)

status_clause-AreOpposite :
    (val : Bytes) → AreOpposite (status_clause true val) (status_clause false val)
unfolding status_clause
status_clause-AreOpposite val =
    signed_by-AreOpposite greater_than_or_equal (strip (bytes ">=") val) _ _ (
      signed_by-AreOpposite greater_than (strip (bytes ">") val) _ _ (
        signed_by-AreOpposite less_than_or_equal (strip (bytes "<=") val) _ _ (
          signed_by-AreOpposite less_than (strip (bytes "<") val) _ _
            (spanned-AreOpposite val (split_at (bytes "..") val)))))

compares_status-AreOpposite :
    (c d : StatusClause) (status : Option ℤ)
    → AreOpposite c d
    → negated_if c.negate (compares_status c status)
      ≡ not (negated_if d.negate (compares_status d status))
compares_status-AreOpposite c d none h = rw (h.3, h.4) refl
compares_status-AreOpposite c d (some s) h = rw (h.0, h.1, h.2, h.3, h.4) refl

not_alone : (b : Bool) → (not b && true) ≡ not (b && true)
not_alone true = refl
not_alone false = refl

alone : (a b : Bool) → a ≡ not b → (a && true && true) ≡ not (b && true && true)
alone a true h = rw h refl
alone a false h = rw h refl

module _ (r : NetworkRequestSummary) where
  matches-add_parts :
      (token before behind : Bytes)
      → matches (add_parts true token before behind no_clauses) r
        ≡ not (matches (add_parts false token before behind no_clauses) r)
  unfolding matches
  matches-add_parts token before [] = not_alone (term_matches [] (lower token) r)
  matches-add_parts token before (c ∷ val) = elim (Bool-cases (lower before == bytes "status")) [
    | inl named ↦ rw named (
        alone _ _ (
          compares_status-AreOpposite (status_clause true val) (status_clause false val) r.status
            (status_clause-AreOpposite val)))
    | inr other ↦ rw other (not_alone (term_matches (lower before) (lower val) r))
  ]

  matches-add_clause :
      (c : ℕ) (s : Bytes)
      → matches (add_clause true (c ∷ s) no_clauses) r
        ≡ not (matches (add_clause false (c ∷ s) no_clauses) r)
  unfolding add_clause
  matches-add_clause c s =
      matches-add_parts (c ∷ s) (take_until (is_byte b':') (c ∷ s))
        (drop_until (is_byte b':') (c ∷ s))

  matches-word :
      (c : ℕ) (s : Bytes)
      → IsFree is_space (c ∷ s)
      → matches (parse (c ∷ s)) r ≡ matches (add_token (c ∷ s) no_clauses) r
  matches-word c s h =
      matches-parse (c ∷ s) r
      ∙ ap (λ ws. matches (add_tokens ws no_clauses) r) (split_whitespace-word c s h)

  -- A word that does not start with a sign of negation, and has no white space in it, is passed by
  -- exactly the requests that do not pass the same word behind such a sign. That holds also for a
  -- test on the status of a request that has none.
  pub matches-parse-negation :
      (sign c : ℕ) (s : Bytes)
      → is_negation sign ≡ true
      → is_negation c ≡ false
      → IsFree is_space (c ∷ s)
      → matches (parse (sign ∷ c ∷ s)) r ≡ not (matches (parse (c ∷ s)) r)
  unfolding add_token
  matches-parse-negation sign c s signed plain free =
      let no_space : is_space sign ≡ false = ground (arith, signed) in
      let with_sign : matches (add_token (sign ∷ c ∷ s) no_clauses) r
          ≡ matches (add_clause true (c ∷ s) no_clauses) r =
        rw signed refl in
      let without : matches (add_token (c ∷ s) no_clauses) r
          ≡ matches (add_clause false (c ∷ s) no_clauses) r =
        rw plain refl in
      matches-word sign (c ∷ s) (no_space, free)
      ∙ with_sign
      ∙ matches-add_clause c s
      ∙ ap not (sym without ∙ sym (matches-word c s free))
