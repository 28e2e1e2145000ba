-- ===== src/NetworkTrace.antt =====
-- devtools/network/network_trace.h, core/network/network_attribution.h and .cpp, and the part of
-- devtools/network/network_trace.cpp that keeps the observed events: the bounded buffer, the
-- redaction of headers and the observers. A text is the list of its bytes. The clock is the argument
-- `now`, an observer is a number with 0 for the null pointer, and a call of an observer is an entry
-- in a log.
pub mod Retention
pub mod Urls
pub mod Requests
pub mod Queries
use openbrowser.Prelude.Bytes.{Bytes, bytes, bytes_eq, lower}
use openbrowser.Prelude.Integers.{ℤ, is_positive}
use openbrowser.Prelude.{
  ℕ, Bool, true, false, not, Option, none, List, [], ◌∷◌, ◌++◌, leb, ◌==◌, ℕ_eq, length,
  if◌then◌else◌, map, String, keep_if, ◌||◌,
}
use openbrowser.DecisionLog.{FilterDecisionLog}
use openbrowser.Session.{increment64}

pub data NetworkEventType : Type 0 where
  request_started redirect response_received data_received : NetworkEventType
  request_finished request_failed : NetworkEventType
  web_socket_opened web_socket_frame web_socket_closed : NetworkEventType
  dns_resolved connection_established tls_handshaked : NetworkEventType

pub data NetworkAttribution : Type 0 where
  page update_check filter_list_sync telemetry transfer : NetworkAttribution

abbrev pub attribution_to_string : NetworkAttribution → Bytes
attribution_to_string page = bytes "Page"
attribution_to_string update_check = bytes "UpdateCheck"
attribution_to_string filter_list_sync = bytes "FilterListSync"
attribution_to_string telemetry = bytes "Telemetry"
attribution_to_string transfer = bytes "Transfer"

unfoldable pub string_to_attribution : Bytes → NetworkAttribution
string_to_attribution str =
    if str == bytes "UpdateCheck"
    then update_check
    else if str == bytes "FilterListSync"
    then filter_list_sync
    else if str == bytes "Telemetry"
    then telemetry
    else if str == bytes "Transfer"
    then transfer
    else page

pub record Header : Type 0 where
  pub name : Bytes
  pub value : Bytes

pub record NetworkEvent : Type 0 where
  pub sequence : ℕ  -- uint64_t
  pub request_id : String
  pub tab_id : Option String
  pub type : NetworkEventType
  pub url : Bytes
  pub method : Bytes
  pub status : Option ℤ
  pub protocol : Bytes
  pub headers : List Header
  pub transferred_bytes : ℕ  -- size_t
  pub error : Bytes
  pub body_preview : Bytes
  pub attribution : NetworkAttribution
  pub connection_id : Option Bytes
  pub observed_at_ms : ℤ

pub record CapturePolicy : Type 0 where
  pub max_events : ℕ
  pub redact_sensitive_headers : Bool

abbrev pub Observer : Type 0
Observer = ℕ

pub data ObserverCall : Type 0 where
  event_appended : Observer → NetworkEvent → ObserverCall
  trace_cleared : Observer → ObserverCall

pub record NetworkTraceBuffer : Type 0 where
  pub policy : CapturePolicy
  pub events : List NetworkEvent
  pub observers : List Observer
  pub decision_log : Option FilterDecisionLog
  pub next_sequence : ℕ  -- uint64_t
  pub dropped_event_count : ℕ  -- size_t
  pub calls : List ObserverCall

unfoldable pub create : CapturePolicy → NetworkTraceBuffer
create policy = record {
  policy = if policy.max_events == 0 then record policy { max_events = 1 } else policy;
  events = [];
  observers = [];
  decision_log = none;
  next_sequence = 1;
  dropped_event_count = 0;
  calls = [];
}

abbrev pub any_of {ℓ} : {A : Type ℓ} → (A → Bool) → List A → Bool
any_of p [] = false
any_of p (x ∷ xs) = p x || any_of p xs

unfoldable pub add_observer : Observer → NetworkTraceBuffer → NetworkTraceBuffer
add_observer observer b =
    if observer == 0
    then b
    else if any_of (λ o. o == observer) b.observers
    then b
    else record b { observers = b.observers ++ observer ∷ [] }

unfoldable pub remove_observer : Observer → NetworkTraceBuffer → NetworkTraceBuffer
remove_observer observer b = record b { observers = keep_if (λ o. not (o == observer)) b.observers }

-- A call of each observer that is not null.
abbrev pub notify : (Observer → ObserverCall) → NetworkTraceBuffer → NetworkTraceBuffer
notify call b = record b { calls = b.calls ++ map call (keep_if (λ o. not (o == 0)) b.observers) }

abbrev pub sensitive_names : List Bytes
sensitive_names =
    bytes "authorization"
    ∷ bytes "proxy-authorization"
    ∷ bytes "cookie"
    ∷ bytes "set-cookie"
    ∷ bytes "x-api-key"
    ∷ bytes "x-auth-token"
    ∷ bytes "x-csrf-token"
    ∷ bytes "x-xsrf-token"
    ∷ []

unfoldable pub is_sensitive_header_name : Bytes → Bool
is_sensitive_header_name name = any_of (λ s. s == lower name) sensitive_names

abbrev pub redacted : Bytes
redacted = bytes "<redacted>"

unfoldable pub redact_sensitive_headers : List Header → List Header
redact_sensitive_headers [] = []
redact_sensitive_headers (h ∷ hs) =
    (if is_sensitive_header_name h.name then record h { value = redacted } else h)
    ∷ redact_sensitive_headers hs

-- `while (events_.size() >= policy_.max_events)`, where `max_events` is at least one.
unfoldable pub pop_oldest : ℕ → List NetworkEvent → ℕ → List NetworkEvent × ℕ
pop_oldest max_events [] dropped = ([], dropped)
pop_oldest max_events (e ∷ es) dropped = elim (leb max_events (length (e ∷ es))) [
  | true ↦ pop_oldest max_events es (increment64 dropped)
  | false ↦ (e ∷ es, dropped)
]

-- The event as it is kept.
abbrev pub accepted : CapturePolicy → ℕ → ℤ → NetworkEvent → NetworkEvent
accepted policy sequence now e = record e {
  sequence = sequence;
  headers =
      if policy.redact_sensitive_headers then redact_sensitive_headers e.headers else e.headers;
  observed_at_ms = if is_positive e.observed_at_ms then e.observed_at_ms else now;
}

unfoldable pub add : ℤ → NetworkEvent → NetworkTraceBuffer → NetworkTraceBuffer
add now e b =
    let kept = accepted b.policy b.next_sequence now e in
    let (rest, dropped) = pop_oldest b.policy.max_events b.events b.dropped_event_count in
    notify (λ o. event_appended o kept)
      (record b {
        events = rest ++ kept ∷ [];
        next_sequence = increment64 b.next_sequence;
        dropped_event_count = dropped;
      })

unfoldable pub clear : NetworkTraceBuffer → NetworkTraceBuffer
clear b =
    notify trace_cleared (record b { events = []; next_sequence = 1; dropped_event_count = 0 })

abbrev pub set_decision_log : Option FilterDecisionLog → NetworkTraceBuffer → NetworkTraceBuffer
set_decision_log log b = record b { decision_log = log }
