-- ===== src/NetworkTrace/Queries/Selected.antt =====
-- The shortcut of the panel's query in network_trace.cpp against the tests on every summary.
use openbrowser.Prelude.Bytes.{Bytes, bytes, bytes_eq, bytes_discrete, to_lower}
use openbrowser.Prelude.{
  ◌≡◌, refl, sym, ◌∙◌, ap, Bool, true, ◌||◌, List, [], ◌∷◌, arith, ◌==◌, keep_if, Bool-cases, inl,
  inr, ℕ_discrete,
}
use openbrowser.NetworkTrace.{NetworkTraceBuffer}
use openbrowser.NetworkTrace.Requests.{NetworkRequestSummary, is_blank, aggregate_requests}
use openbrowser.NetworkTrace.Queries.{
  NetworkTraceFilter, passes_status, passes_method, passes_header, passes_search, passes,
  asks_for_all, query_requests,
}

blank_is_empty : (s : Bytes) → is_blank s ≡ true → s ≡ []
blank_is_empty [] h = refl
blank_is_empty (c ∷ s) h = cc

method_all : (r : NetworkRequestSummary) → passes_method (bytes "ALL") r ≡ true
unfolding passes_method to_lower bytes_discrete ℕ_discrete
method_all r = refl

method_none : (r : NetworkRequestSummary) → passes_method [] r ≡ true
unfolding passes_method
method_none r = refl

header_none : (r : NetworkRequestSummary) → passes_header [] r ≡ true
unfolding passes_header
header_none r = refl

search_none : (r : NetworkRequestSummary) → passes_search [] r ≡ true
unfolding passes_search
search_none r = refl

passes_status-all :
    (s : Bytes) (r : NetworkRequestSummary)
    → (is_blank s || s == bytes "ALL") ≡ true
    → passes_status s r ≡ true
unfolding passes_status
passes_status-all s r h = rw h refl

passes_method-all :
    (m : Bytes) (r : NetworkRequestSummary)
    → (is_blank m || m == bytes "ALL") ≡ true
    → passes_method m r ≡ true
passes_method-all m r h = elim (Bool-cases (is_blank m)) [
  | inl blank ↦ ap (λ s. passes_method s r) (blank_is_empty m blank) ∙ method_none r
  | inr other ↦
      let named : m ≡ bytes "ALL" = ground (arith, h, other) in
      ap (λ s. passes_method s r) named ∙ method_all r
]

passes-all :
    (f : NetworkTraceFilter) (r : NetworkRequestSummary) → asks_for_all f ≡ true → passes f r ≡ true
passes-all f r h =
    let no_search : is_blank f.search_query ≡ true = ground (arith, h) in
    let any_method : (is_blank f.method_filter || f.method_filter == bytes "ALL") ≡ true =
      ground (arith, h) in
    let any_status : (is_blank f.status_filter || f.status_filter == bytes "ALL") ≡ true =
      ground (arith, h) in
    let no_header : is_blank f.header_name ≡ true = ground (arith, h) in
    rw
      (
        passes_method-all f.method_filter r any_method,
        passes_status-all f.status_filter r any_status,
        ap (λ s. passes_header s r) (blank_is_empty f.header_name no_header) ∙ header_none r,
      )
      (ap (λ s. passes_search s r) (blank_is_empty f.search_query no_search) ∙ search_none r)

keep_if-all :
    (p : NetworkRequestSummary → Bool)
    → ((r : NetworkRequestSummary) → p r ≡ true)
    → (rs : List NetworkRequestSummary) → keep_if p rs ≡ rs
keep_if-all p h [] = refl
keep_if-all p h (x ∷ xs) = rw (h x) (ap (λ r. x ∷ r) (keep_if-all p h xs))

-- A query gives, in their order, exactly the summaries that pass all four tests of the filter, also
-- where it returns early because the filter asks for all.
pub query_requests_lem :
    (f : NetworkTraceFilter) (b : NetworkTraceBuffer)
    → query_requests f b ≡ keep_if (passes f) (aggregate_requests f.tab_id b)
unfolding query_requests
query_requests_lem f b = elim (Bool-cases (asks_for_all f)) [
  | inl all ↦
      rw all
        (sym (keep_if-all (passes f) (λ r. passes-all f r all) (aggregate_requests f.tab_id b)))
  | inr part ↦ rw part refl
]
