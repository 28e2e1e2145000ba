-- ===== src/NetworkTrace/Requests/Secrets.antt =====
-- What network_trace.cpp shows of the headers that carry credentials.
use openbrowser.Prelude.Bytes.{bytes}
use openbrowser.Prelude.Integers.{ℤ, is_positive}
use openbrowser.Prelude.Keyed.{find, map_option}
use openbrowser.Prelude.{
  ◌+◌, ◌%◌, ◌^◌, ◌≡◌, refl, sym, ◌∙◌, subst, Bool, true, false, Option, none, some, List, [], ◌∷◌,
  ◌++◌, arith, if◌then◌else◌, String, Bool-cases, inl, inr, Option-cases, length, keep_if,
}
use openbrowser.DecisionLog.{FilterDecisionLog, find_by_request_id}
use openbrowser.NetworkTrace.{
  Header, NetworkEvent, CapturePolicy, accepted, redact_sensitive_headers, is_sensitive_header_name,
  redacted, create, set_decision_log,
}
use openbrowser.NetworkTrace.Retention.{
  Observation, received, cleared, observe_each, observe_each_lem, recorded_from, recorded_next,
}
use openbrowser.NetworkTrace.Requests.{
  NetworkRequestSummary, started_by, update_by, summary_id, aggregate_requests, observed_at,
}
use openbrowser.NetworkTrace.Requests.Gathered.{
  events_of, is_event_of, summary_of, updated_by_each, joined, find-aggregate_requests,
}

-- No header with a name that carries credentials has a value but the mark of its redaction.
abbrev pub AreRedacted : List Header → Type 0
AreRedacted [] = Unit
AreRedacted (h ∷ hs) =
    (is_sensitive_header_name h.name ≡ true → h.value ≡ redacted) × AreRedacted hs

abbrev EachRedacted : List NetworkEvent → Type 0
EachRedacted [] = Unit
EachRedacted (e ∷ es) = AreRedacted e.headers × EachRedacted es

redact_header :
    (h : Header) (b : Bool)
    → is_sensitive_header_name h.name ≡ b
    → is_sensitive_header_name (if b then record h { value = redacted } else h).name ≡ true
    → (if b then record h { value = redacted } else h).value ≡ redacted
redact_header h true e s = refl
redact_header h false e s = cc

pub redact_sensitive_headers-AreRedacted :
    (hs : List Header) → AreRedacted (redact_sensitive_headers hs)
unfolding redact_sensitive_headers
redact_sensitive_headers-AreRedacted [] = tt
redact_sensitive_headers-AreRedacted (h ∷ hs) = (
  redact_header h (is_sensitive_header_name h.name) refl,
  redact_sensitive_headers-AreRedacted hs,
)

append-EachRedacted :
    (es fs : List NetworkEvent) → EachRedacted es → EachRedacted fs → EachRedacted (es ++ fs)
append-EachRedacted [] fs h k = k
append-EachRedacted (e ∷ es) fs h k = (h.0, append-EachRedacted es fs h.1 k)

suffix-EachRedacted : (es fs : List NetworkEvent) → EachRedacted (es ++ fs) → EachRedacted fs
suffix-EachRedacted [] fs h = h
suffix-EachRedacted (e ∷ es) fs h = suffix-EachRedacted es fs h.1

keep_if-EachRedacted :
    (p : NetworkEvent → Bool) (es : List NetworkEvent)
    → EachRedacted es
    → EachRedacted (keep_if p es)
keep_if-EachRedacted p [] h = tt
keep_if-EachRedacted p (e ∷ es) h = elim (Bool-cases (p e)) [
  | inl kept ↦ rw kept (h.0, keep_if-EachRedacted p es h.1)
  | inr gone ↦ rw gone (keep_if-EachRedacted p es h.1)
]

recorded_next-EachRedacted :
    (policy : CapturePolicy) (given : List NetworkEvent) (o : Observation)
    → policy.redact_sensitive_headers ≡ true
    → EachRedacted given
    → EachRedacted (recorded_next policy given o)
recorded_next-EachRedacted policy given (received now e) on h =
    append-EachRedacted given (accepted policy ((1 + length given) % 2 ^ 64) now e ∷ []) h
      (rw on (redact_sensitive_headers-AreRedacted e.headers), tt)
recorded_next-EachRedacted policy given cleared on h = tt

recorded_from-EachRedacted :
    (policy : CapturePolicy) (given : List NetworkEvent) (os : List Observation)
    → policy.redact_sensitive_headers ≡ true
    → EachRedacted given
    → EachRedacted (recorded_from policy given os)
recorded_from-EachRedacted policy given [] on h = h
recorded_from-EachRedacted policy given (o ∷ os) on h =
    recorded_from-EachRedacted policy (recorded_next policy given o) os on
      (recorded_next-EachRedacted policy given o on h)

keeps :
    (policy : CapturePolicy)
    → (create policy).policy.redact_sensitive_headers ≡ policy.redact_sensitive_headers
unfolding create
keeps policy = ground arith

abbrev Shown : NetworkRequestSummary → Type 0
Shown s = AreRedacted s.request_headers × AreRedacted s.response_headers

chosen :
    (b : Bool) (new old : List Header)
    → AreRedacted new
    → AreRedacted old
    → AreRedacted (if b then new else old)
chosen true new old h k = h
chosen false new old h k = k

observed_at-Shown : (t : ℤ) (s : NetworkRequestSummary) → Shown s → Shown (observed_at t s)
observed_at-Shown t s h = elim (Bool-cases (is_positive t)) [
  | inl known ↦ rw known h
  | inr unknown ↦ rw unknown h
]

module _ (e : NetworkEvent) (safe : AreRedacted e.headers) where
  started_by-Shown : Shown (started_by e)
  unfolding started_by
  started_by-Shown = (chosen _ e.headers [] safe tt, chosen _ e.headers [] safe tt)

  update_by-Shown : (s : NetworkRequestSummary) → Shown s → Shown (update_by e s)
  unfolding update_by
  update_by-Shown s h = observed_at-Shown e.observed_at_ms _ (
    chosen _ e.headers s.request_headers safe h.0,
    chosen _ e.headers s.response_headers safe h.1,
  )

updated_by_each-Shown :
    (es : List NetworkEvent) (s : NetworkRequestSummary)
    → EachRedacted es
    → Shown s
    → Shown (updated_by_each es s)
updated_by_each-Shown [] s h k = k
updated_by_each-Shown (e ∷ es) s h k =
    updated_by_each-Shown es (update_by e s) h.1 (update_by-Shown e h.0 s k)

summary_of-Shown :
    (es : List NetworkEvent) (s : NetworkRequestSummary)
    → EachRedacted es
    → summary_of es ≡ some s
    → Shown s
summary_of-Shown [] s h q = cc
summary_of-Shown (e ∷ es) s h q =
    let same : updated_by_each es (started_by e) ≡ s = cc in
    subst Shown same (updated_by_each-Shown es (started_by e) h.1 (started_by-Shown e h.0))

joined-Shown :
    (log : Option FilterDecisionLog) (s : NetworkRequestSummary) → Shown s → Shown (joined log s)
unfolding joined
joined-Shown none s h = h
joined-Shown (some log) s h = elim (Option-cases (find_by_request_id log (bytes s.request_id))) [
  | inl none_found ↦ rw none_found h
  | inr (d, is_found) ↦ rw is_found h
]

map_joined-Shown :
    (log : Option FilterDecisionLog) (found : Option NetworkRequestSummary)
    (s : NetworkRequestSummary)
    → ((f : NetworkRequestSummary) → found ≡ some f → Shown f)
    → map_option (joined log) found ≡ some s
    → Shown s
map_joined-Shown log none s h q = cc
map_joined-Shown log (some f) s h q =
    let same : joined log f ≡ s = cc in subst Shown same (joined-Shown log f (h f refl))

-- A buffer that redacts by its policy shows no credentials: after any sequence of events and
-- clearings, and with any decision log or none, a summary that it gives for a request, in all tabs or
-- as one tab shows it, has no header whose name is one of those that carry credentials, in any case of
-- its letters, and whose value is not the mark of the redaction.
pub aggregate_requests-AreRedacted :
    (policy : CapturePolicy) (os : List Observation) (log : Option FilterDecisionLog)
    (tab : Option String) (id : String) (s : NetworkRequestSummary)
    → policy.redact_sensitive_headers ≡ true
    → find summary_id id
        (aggregate_requests tab (set_decision_log log (observe_each os (create policy))))
      ≡ some s
    → AreRedacted s.request_headers × AreRedacted s.response_headers
aggregate_requests-AreRedacted policy os log tab id s on q =
    let b = observe_each os (create policy) in
    let holds = observe_each_lem policy os in
    let all = recorded_from-EachRedacted (create policy).policy [] os (keeps policy ∙ on) tt in
    let kept = suffix-EachRedacted holds.0 b.events (subst EachRedacted holds.1 all) in
    map_joined-Shown log (summary_of (events_of tab id b.events)) s
      (λ f found.
        summary_of-Shown (events_of tab id b.events) f
          (keep_if-EachRedacted (is_event_of tab id) b.events kept) found)
      (sym (find-aggregate_requests tab id (set_decision_log log b)) ∙ q)
