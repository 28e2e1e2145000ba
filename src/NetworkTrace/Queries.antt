-- ===== src/NetworkTrace/Queries.antt =====
-- The part of devtools/network/network_trace.cpp that selects summaries by the filter of the panel.
pub mod Selected
use openbrowser.Prelude.Bytes.{Bytes, bytes, bytes_eq, lower}
use openbrowser.Prelude.Integers.{ℤ, pos, negsuc, int_leb, int_ltb}
use openbrowser.Prelude.{
  ℕ, ◌+◌, Bool, true, false, not, ◌&&◌, ◌||◌, Option, none, some, List, [], ◌∷◌, ◌==◌,
  if◌then◌else◌, String, keep_if, to_string, ◌<>◌,
}
use openbrowser.ContentFilter.{occurs_in}
use openbrowser.NetworkTrace.{Header, NetworkTraceBuffer, any_of}
use openbrowser.NetworkTrace.Requests.{
  NetworkRequestSummary, RequestState, active, finished, failed, is_blank, aggregate_requests,
}

pub record NetworkTraceFilter : Type 0 where
  pub tab_id : Option String
  pub search_query : Bytes
  pub method_filter : Bytes
  pub status_filter : Bytes
  pub header_name : Bytes

abbrev pub is_failed : RequestState → Bool
is_failed failed = true
is_failed active = false
is_failed finished = false

-- `status.has_value() && *status >= low && *status < high`.
abbrev pub is_within : ℕ → ℕ → Option ℤ → Bool
is_within low high none = false
is_within low high (some s) = int_leb (pos low) s && int_ltb s (pos high)

abbrev pub is_error_status : Option ℤ → Bool
is_error_status none = false
is_error_status (some s) = int_leb (pos 400) s

unfoldable pub passes_status : Bytes → NetworkRequestSummary → Bool
passes_status status_filter r =
    if is_blank status_filter || status_filter == bytes "ALL"
    then true
    else if status_filter == bytes "ERR"
    then is_failed r.state || is_error_status r.status
    else if status_filter == bytes "2XX"
    then is_within 200 300 r.status
    else if status_filter == bytes "3XX"
    then is_within 300 400 r.status
    else if status_filter == bytes "4XX"
    then is_within 400 500 r.status
    else if status_filter == bytes "5XX"
    then is_within 500 600 r.status
    else true

unfoldable pub passes_method : Bytes → NetworkRequestSummary → Bool
passes_method method_filter r =
    let lower_method = lower method_filter in
    if is_blank lower_method || lower_method == bytes "all"
    then true
    else lower r.method == lower_method

abbrev pub has_name : Bytes → Header → Bool
has_name text h = occurs_in (lower h.name) text

abbrev pub has_text : Bytes → Header → Bool
has_text text h = occurs_in (lower h.name) text || occurs_in (lower h.value) text

unfoldable pub passes_header : Bytes → NetworkRequestSummary → Bool
passes_header header_name r =
    let lower_header = lower header_name in
    if is_blank lower_header
    then true
    else any_of (has_name lower_header) r.request_headers
      || any_of (has_name lower_header) r.response_headers

-- `std::to_string` of an `int`.
abbrev pub int_to_string : ℤ → String
int_to_string (pos n) = to_string n
int_to_string (negsuc n) = "-" <> to_string (n + 1)

abbrev pub status_has_text : Bytes → Option ℤ → Bool
status_has_text text none = false
status_has_text text (some s) = occurs_in (bytes (int_to_string s)) text

unfoldable pub passes_search : Bytes → NetworkRequestSummary → Bool
passes_search search_query r =
    let text = lower search_query in
    if is_blank text
    then true
    else occurs_in (lower r.url) text
      || (occurs_in (lower r.method) text
          || (status_has_text text r.status
              || (occurs_in (lower r.error) text
                  || (occurs_in (lower r.body_preview) text
                      || (any_of (has_text text) r.request_headers
                          || any_of (has_text text) r.response_headers)))))

abbrev pub passes : NetworkTraceFilter → NetworkRequestSummary → Bool
passes f r =
    passes_method f.method_filter r
    && (passes_status f.status_filter r
        && (passes_header f.header_name r && passes_search f.search_query r))

abbrev pub asks_for_all : NetworkTraceFilter → Bool
asks_for_all f =
    is_blank f.search_query
    && ((is_blank f.method_filter || f.method_filter == bytes "ALL")
        && ((is_blank f.status_filter || f.status_filter == bytes "ALL") && is_blank f.header_name))

unfoldable pub query_requests : NetworkTraceFilter → NetworkTraceBuffer → List NetworkRequestSummary
query_requests f b =
    let all = aggregate_requests f.tab_id b in
    if asks_for_all f then all else keep_if (passes f) all
