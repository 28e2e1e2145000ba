-- ===== src/NetworkTrace/Requests.antt =====
-- The part of devtools/network/network_trace.cpp that gathers the events of each request into a
-- summary. The numbers of an `int64_t` are not wrapped: the difference is taken of two times of which
-- the first is positive and not after the second.
pub mod Gathered
pub mod Secrets
use openbrowser.Prelude.Bytes.{Bytes, bytes}
use openbrowser.Prelude.Integers.{ℤ, pos, is_positive, int_ltb, max_zero, ◌-ℤ◌}
use openbrowser.Prelude.Keyed.{find, modify}
use openbrowser.Prelude.{
  ℕ, ◌+◌, ◌%◌, ◌^◌, Bool, true, false, not, ◌&&◌, ◌||◌, Option, none, some, List, [], ◌∷◌, ◌++◌,
  ◌==◌, string_eq, if◌then◌else◌, map, String,
}
use openbrowser.DecisionLog.{
  FilterDecisionLog, FilterDecisionRecord, FilterDecisionLayer, content_filter, capability_policy,
  workspace_policy, user_agent_policy, find_by_request_id,
}
use openbrowser.NetworkTrace.{
  Header, NetworkEvent, NetworkEventType, NetworkAttribution, NetworkTraceBuffer, request_started,
  redirect, response_received, request_finished, request_failed, page, data_received,
  web_socket_opened, web_socket_frame, web_socket_closed, dns_resolved, connection_established,
  tls_handshaked, update_check, filter_list_sync, telemetry, transfer,
}

pub data RequestState : Type 0 where
  active finished failed : RequestState

pub record NetworkRequestSummary : Type 0 where
  pub request_id : String
  pub tab_id : Option String
  pub method : Bytes
  pub url : Bytes
  pub status : Option ℤ
  pub protocol : Bytes
  pub transferred_bytes : ℕ  -- size_t
  pub state : RequestState
  pub error : Bytes
  pub request_headers : List Header
  pub response_headers : List Header
  pub body_preview : Bytes
  pub attribution : NetworkAttribution
  pub connection_id : Option Bytes
  pub filter_blocked : Bool
  pub filter_rule_source : Bytes
  pub filter_layer : Bytes
  pub started_at_ms : ℤ
  pub ended_at_ms : ℤ
  pub observed_duration_ms : ℤ

abbrev pub is_blank {ℓ} : {A : Type ℓ} → List A → Bool
is_blank [] = true
is_blank (c ∷ s) = false

abbrev pub is_request_started : NetworkEventType → Bool
is_request_started request_started = true
is_request_started _ = false

abbrev pub is_response_received : NetworkEventType → Bool
is_response_received response_received = true
is_response_received _ = false

abbrev pub is_redirect : NetworkEventType → Bool
is_redirect redirect = true
is_redirect _ = false

abbrev pub is_page : NetworkAttribution → Bool
is_page page = true
is_page _ = false

abbrev pub state_after : NetworkEventType → RequestState → RequestState
state_after request_finished s = finished
state_after request_failed s = failed
state_after _ s = s

abbrev pub error_after : NetworkEventType → Bytes → Bytes → Bytes
error_after request_failed new old = new
error_after _ new old = old

-- The second, unless it is absent.
abbrev pub or_else {ℓ} : {A : Type ℓ} → Option A → Option A → Option A
or_else old none = old
or_else old (some new) = some new

-- The summary of a request whose first event this is.
unfoldable pub started_by : NetworkEvent → NetworkRequestSummary
started_by e = record {
  request_id = e.request_id;
  tab_id = e.tab_id;
  method = if is_blank e.method then bytes "GET" else e.method;
  url = e.url;
  status = e.status;
  protocol = if is_response_received e.type then e.protocol else [];
  transferred_bytes = e.transferred_bytes;
  state = state_after e.type active;
  error = e.error;
  request_headers = if is_request_started e.type then e.headers else [];
  response_headers = if is_response_received e.type || is_redirect e.type then e.headers else [];
  body_preview = e.body_preview;
  attribution = e.attribution;
  connection_id = e.connection_id;
  filter_blocked = false;
  filter_rule_source = [];
  filter_layer = [];
  started_at_ms = e.observed_at_ms;
  ended_at_ms = e.observed_at_ms;
  observed_duration_ms = pos 0;
}

abbrev pub earlier : ℤ → ℤ → ℤ
earlier t started = if not (is_positive started) || int_ltb t started then t else started

abbrev pub later : ℤ → ℤ → ℤ
later t ended = if int_ltb ended t then t else ended

abbrev pub observed_at : ℤ → NetworkRequestSummary → NetworkRequestSummary
observed_at t s =
    if is_positive t
    then record s {
      started_at_ms = earlier t s.started_at_ms;
      ended_at_ms = later t s.ended_at_ms;
      observed_duration_ms = max_zero (later t s.ended_at_ms -ℤ earlier t s.started_at_ms);
    }
    else s

-- The summary after a further event.
unfoldable pub update_by : NetworkEvent → NetworkRequestSummary → NetworkRequestSummary
update_by e s = observed_at e.observed_at_ms (record s {
  attribution = if is_page e.attribution then s.attribution else e.attribution;
  connection_id = or_else s.connection_id e.connection_id;
  url = if not (is_blank e.url) && (is_blank s.url || is_redirect e.type) then e.url else s.url;
  method =
      if not (is_blank e.method) && (is_blank s.method || is_request_started e.type)
      then e.method
      else s.method;
  status = or_else s.status e.status;
  protocol =
      if is_response_received e.type && not (is_blank e.protocol) then e.protocol else s.protocol;
  tab_id = or_else s.tab_id e.tab_id;
  transferred_bytes = (s.transferred_bytes + e.transferred_bytes) % 2 ^ 64;
  request_headers =
      if is_request_started e.type && not (is_blank e.headers)
      then e.headers
      else s.request_headers;
  response_headers =
      if (is_response_received e.type || is_redirect e.type) && not (is_blank e.headers)
      then e.headers
      else s.response_headers;
  body_preview = if is_blank e.body_preview then s.body_preview else e.body_preview;
  state = state_after e.type s.state;
  error = error_after e.type e.error s.error;
})

abbrev pub summary_id : NetworkRequestSummary → String
summary_id s = s.request_id

-- The test on the tab: an event without a tab passes.
unfoldable pub is_in_tab : Option String → NetworkEvent → Bool
is_in_tab none e = true
is_in_tab (some tab) e = elim e.tab_id [ none ↦ true | some t ↦ t == tab ]

abbrev pub record_event :
    Option NetworkRequestSummary
    → NetworkEvent
    → List NetworkRequestSummary
    → List NetworkRequestSummary
record_event none e ss = ss ++ started_by e ∷ []
record_event (some s) e ss = modify summary_id e.request_id (update_by e) ss

unfoldable pub aggregate_events :
    Option String → List NetworkRequestSummary → List NetworkEvent → List NetworkRequestSummary
aggregate_events tab ss [] = ss
aggregate_events tab ss (e ∷ es) =
    aggregate_events tab
      (if is_in_tab tab e then record_event (find summary_id e.request_id ss) e ss else ss) es

abbrev pub filter_decision_layer_to_string : FilterDecisionLayer → Bytes
filter_decision_layer_to_string content_filter = bytes "ContentFilter"
filter_decision_layer_to_string capability_policy = bytes "CapabilityPolicy"
filter_decision_layer_to_string workspace_policy = bytes "WorkspacePolicy"
filter_decision_layer_to_string user_agent_policy = bytes "UserAgentPolicy"

abbrev pub joined_with : Option FilterDecisionRecord → NetworkRequestSummary → NetworkRequestSummary
joined_with none s = s
joined_with (some d) s = record s {
  filter_blocked = d.blocked;
  filter_rule_source = d.rule_source;
  filter_layer = filter_decision_layer_to_string d.layer;
}

abbrev pub join_decisions :
    Option FilterDecisionLog → List NetworkRequestSummary → List NetworkRequestSummary
join_decisions none ss = ss
join_decisions (some log) ss =
    map (λ s. joined_with (find_by_request_id log (bytes s.request_id)) s) ss

unfoldable pub aggregate_requests : Option String → NetworkTraceBuffer → List NetworkRequestSummary
aggregate_requests tab b = join_decisions b.decision_log (aggregate_events tab [] b.events)

unfoldable pub find_request : String → NetworkTraceBuffer → Option NetworkRequestSummary
find_request request_id b = find summary_id request_id (aggregate_requests none b)
