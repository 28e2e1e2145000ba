-- ===== src/NetworkTrace/Requests/Gathered.antt =====
-- Each summary of network_trace.cpp against a description by the events of its own request alone.
use openbrowser.Prelude.Bytes.{bytes}
use openbrowser.Prelude.Keyed.{find, map_option, find-modify, find-append, find-map}
use openbrowser.Prelude.{
  ◌≡◌, refl, sym, ◌∙◌, ap, Bool, ◌&&◌, Option, none, some, List, [], ◌∷◌, arith, ◌==◌, string_eq,
  if◌then◌else◌, keep_if, String, Bool-cases, inl, inr,
}
use openbrowser.DecisionLog.{FilterDecisionLog, FilterDecisionRecord, find_by_request_id}
use openbrowser.NetworkTrace.{NetworkEvent, NetworkTraceBuffer}
use openbrowser.NetworkTrace.Requests.{
  NetworkRequestSummary, started_by, update_by, summary_id, is_in_tab, record_event,
  aggregate_events, joined_with, join_decisions, aggregate_requests,
}

-- The events of one request, as the tab shows them.
abbrev pub is_event_of : Option String → String → NetworkEvent → Bool
is_event_of tab id e = is_in_tab tab e && e.request_id == id

abbrev pub events_of : Option String → String → List NetworkEvent → List NetworkEvent
events_of tab id es = keep_if (is_event_of tab id) es

abbrev pub updated_by_each : List NetworkEvent → NetworkRequestSummary → NetworkRequestSummary
updated_by_each [] s = s
updated_by_each (e ∷ es) s = updated_by_each es (update_by e s)

abbrev pub summary_of : List NetworkEvent → Option NetworkRequestSummary
summary_of [] = none
summary_of (e ∷ es) = some (updated_by_each es (started_by e))

abbrev continued : Option NetworkRequestSummary → List NetworkEvent → Option NetworkRequestSummary
continued none es = summary_of es
continued (some s) es = some (updated_by_each es s)

update_by-id :
    (e : NetworkEvent) (s : NetworkRequestSummary) → (update_by e s).request_id ≡ s.request_id
unfolding update_by
update_by-id e s = ground arith

started_by-id : (e : NetworkEvent) → (started_by e).request_id ≡ e.request_id
unfolding started_by
started_by-id e = refl

abbrev newest : Option NetworkRequestSummary → NetworkEvent → NetworkRequestSummary
newest none e = started_by e
newest (some s) e = update_by e s

find-record_event :
    (found : Option NetworkRequestSummary) (e : NetworkEvent) (ss : List NetworkRequestSummary)
    (id : String)
    → find summary_id e.request_id ss ≡ found
    → find summary_id id (record_event found e ss)
      ≡ (if e.request_id == id then some (newest found e) else find summary_id id ss)
find-record_event none e ss id h =
    ground (arith, find-append summary_id id ss (started_by e), started_by-id e)
find-record_event (some s) e ss id h =
    find-modify summary_id e.request_id (update_by e) (update_by-id e) id ss ∙ ground (arith, h)

one_more :
    (found : Option NetworkRequestSummary) (e : NetworkEvent) (es : List NetworkEvent)
    → continued (some (newest found e)) es ≡ continued found (e ∷ es)
one_more none e es = refl
one_more (some s) e es = refl

continued_nil : (found : Option NetworkRequestSummary) → found ≡ continued found []
continued_nil none = refl
continued_nil (some s) = refl

found-aggregate_events :
    (tab : Option String) (id : String) (ss : List NetworkRequestSummary) (es : List NetworkEvent)
    → find summary_id id (aggregate_events tab ss es)
      ≡ continued (find summary_id id ss) (events_of tab id es)
unfolding aggregate_events
found-aggregate_events tab id ss [] = continued_nil (find summary_id id ss)
found-aggregate_events tab id ss (e ∷ es) =
    let found = find summary_id e.request_id ss in
    let rest = found-aggregate_events tab id (record_event found e ss) es in
    let recorded = find-record_event found e ss id refl in
    elim (Bool-cases (is_in_tab tab e)) [
      | inr out ↦ rw out (found-aggregate_events tab id ss es)
      | inl shown ↦ elim (Bool-cases (e.request_id == id)) [
        | inr other ↦
            let before : find summary_id id (record_event found e ss) ≡ find summary_id id ss =
              recorded ∙ rw other refl in
            rw (shown, other) (rest ∙ ap (λ f. continued f (events_of tab id es)) before)
        | inl same ↦
            let now : find summary_id id (record_event found e ss) ≡ some (newest found e) =
              recorded ∙ rw same refl in
            rw (shown, same)
              (rest
                ∙ ap (λ f. continued f (events_of tab id es)) now
                ∙ one_more found e (events_of tab id es)
                ∙ ap (λ k. continued (find summary_id k ss) (e ∷ events_of tab id es))
                    (ground (arith, same)))
      ]
    ]

unfoldable pub joined : Option FilterDecisionLog → NetworkRequestSummary → NetworkRequestSummary
joined none s = s
joined (some log) s = joined_with (find_by_request_id log (bytes s.request_id)) s

joined_with-id :
    (d : Option FilterDecisionRecord) (s : NetworkRequestSummary)
    → summary_id (joined_with d s) ≡ summary_id s
joined_with-id none s = refl
joined_with-id (some d) s = refl

map_option-joined :
    (log : Option FilterDecisionLog) (found : Option NetworkRequestSummary)
    → log ≡ none
    → map_option (joined log) found ≡ found
unfolding joined
map_option-joined none none h = refl
map_option-joined none (some s) h = refl
map_option-joined (some l) found h = cc

find-join_decisions :
    (log : Option FilterDecisionLog) (id : String) (ss : List NetworkRequestSummary)
    → find summary_id id (join_decisions log ss) ≡ map_option (joined log) (find summary_id id ss)
unfolding joined
find-join_decisions none id ss = sym (map_option-joined none (find summary_id id ss) refl)
find-join_decisions (some log) id ss =
    find-map summary_id (joined (some log))
      (λ s. joined_with-id (find_by_request_id log (bytes s.request_id)) s) id ss

-- The summary of a request, in all tabs or as one tab shows it, depends on the events of that request
-- alone: it is absent exactly when the buffer holds no such event, and otherwise it is started by the
-- first of them, updated by the others in their order, and given the newest decision on the request,
-- if there is a decision log that has one.
pub find-aggregate_requests :
    (tab : Option String) (id : String) (b : NetworkTraceBuffer)
    → find summary_id id (aggregate_requests tab b)
      ≡ map_option (joined b.decision_log) (summary_of (events_of tab id b.events))
unfolding aggregate_requests find
find-aggregate_requests tab id b =
    find-join_decisions b.decision_log id (aggregate_events tab [] b.events)
    ∙ ap (map_option (joined b.decision_log)) (found-aggregate_events tab id [] b.events)
