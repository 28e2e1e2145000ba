-- ===== src/NetworkTrace/Retention.antt =====
-- What the buffer of network_trace.cpp holds after any sequence of events and clearings.
use openbrowser.Prelude.{
  ℕ, ◌+◌, ◌%◌, ◌^◌, ◌≤◌, min, ◌≡◌, refl, sym, ◌∙◌, ap, true, false, List, [], ◌∷◌, ◌++◌, arith, leb,
  length, length-append, Bool-cases, inl, inr,
}
use openbrowser.Prelude.Integers.{ℤ}
use openbrowser.Session.{increment64}
use openbrowser.NetworkTrace.{
  NetworkEvent, CapturePolicy, NetworkTraceBuffer, create, add, clear, accepted, pop_oldest,
}
use mathlib.Core.List.{append_assoc}

pub data Observation : Type 0 where
  received : ℤ → NetworkEvent → Observation
  cleared : Observation

abbrev pub observe : Observation → NetworkTraceBuffer → NetworkTraceBuffer
observe (received now e) b = add now e b
observe cleared b = clear b

abbrev pub observe_each : List Observation → NetworkTraceBuffer → NetworkTraceBuffer
observe_each [] b = b
observe_each (o ∷ os) b = observe_each os (observe o b)

-- The events since the last clearing, as they are kept, numbered from one.
abbrev pub recorded_next : CapturePolicy → List NetworkEvent → Observation → List NetworkEvent
recorded_next policy so_far (received now e) =
    so_far ++ accepted policy ((1 + length so_far) % 2 ^ 64) now e ∷ []
recorded_next policy so_far cleared = []

abbrev pub recorded_from : CapturePolicy → List NetworkEvent → List Observation → List NetworkEvent
recorded_from policy so_far [] = so_far
recorded_from policy so_far (o ∷ os) = recorded_from policy (recorded_next policy so_far o) os

abbrev pub recorded : CapturePolicy → List Observation → List NetworkEvent
recorded policy os = recorded_from policy [] os

-- That the buffer holds the newest of the recorded events, and counts those that it dropped.
abbrev pub Holds : CapturePolicy → List NetworkEvent → NetworkTraceBuffer → Type 0
Holds policy given b =
    (older : List NetworkEvent) × (given ≡ older ++ b.events)
    × (b.dropped_event_count ≡ length older % 2 ^ 64)
    × (length b.events ≡ min policy.max_events (length given))
    × (b.next_sequence ≡ (1 + length given) % 2 ^ 64)
    × (b.policy ≡ policy)

without_first : List NetworkEvent → List NetworkEvent
without_first [] = []
without_first (e ∷ es) = es

-- A buffer that is not overfull loses at most its oldest event.
pop_oldest_short :
    (max_events : ℕ) (es : List NetworkEvent) (dropped : ℕ)
    → (leb max_events (length es) ≡ false)
    → pop_oldest max_events es dropped ≡ (es, dropped)
unfolding pop_oldest
pop_oldest_short max_events [] dropped h = refl
pop_oldest_short max_events (e ∷ es) dropped h = rw (h, pop_oldest) refl

pop_oldest_full :
    (max_events : ℕ) (es : List NetworkEvent) (dropped : ℕ)
    → 1 ≤ max_events
    → length es ≡ max_events
    → pop_oldest max_events es dropped ≡ (without_first es, increment64 dropped)
unfolding pop_oldest without_first
pop_oldest_full max_events [] dropped c h = absurd (omega arith)
pop_oldest_full max_events (e ∷ es) dropped c h =
    let full : leb max_events (length (e ∷ es)) ≡ true = ground arith in
    rw (full, pop_oldest) (pop_oldest_short max_events es (increment64 dropped) (ground arith))

first_split :
    (es : List NetworkEvent) → 1 ≤ length es → (x : NetworkEvent) × (es ≡ x ∷ without_first es)
unfolding without_first
first_split [] h = absurd (omega arith)
first_split (x ∷ xs) h = (x, refl)

moved_over :
    (older es rest : List NetworkEvent) (x e : NetworkEvent)
    → es ≡ x ∷ rest
    → (older ++ es) ++ e ∷ [] ≡ (older ++ x ∷ []) ++ (rest ++ e ∷ [])
moved_over older es rest x e q =
    ap (λ l. (older ++ l) ++ e ∷ []) q
    ∙ append_assoc older (x ∷ rest) (e ∷ [])
    ∙ sym (append_assoc older (x ∷ []) (rest ++ e ∷ []))

module _ (policy : CapturePolicy) (capacity : 1 ≤ policy.max_events) (now : ℤ)
    (e : NetworkEvent) where
  add-Holds :
      (given : List NetworkEvent) (b : NetworkTraceBuffer)
      → Holds policy given b
      → Holds policy (recorded_next policy given (received now e)) (add now e b)
  unfolding add
  add-Holds given b (older, split, dropped, n, next, same) =
      let kept = accepted policy ((1 + length given) % 2 ^ 64) now e in
      let is_kept : accepted b.policy b.next_sequence now e ≡ kept =
        λ i. accepted (same i) (next i) now e in
      let room : b.policy.max_events ≡ policy.max_events = λ i. (same i).max_events in
      elim (Bool-cases (leb b.policy.max_events (length b.events))) [
        | inl full ↦
            let (x, first) = first_split b.events (ground arith) in
            let rest = without_first b.events in
            let popped =
              pop_oldest_full b.policy.max_events b.events b.dropped_event_count (omega arith)
                (ground (arith, length-append older b.events, ap length split)) in
            (
              older ++ x ∷ [],
              ap (λ g. g ++ kept ∷ []) split ∙ moved_over older b.events rest x kept first ∙ λ i.
                  (older ++ x ∷ []) ++ ((sym popped i).0 ++ sym is_kept i ∷ []),
              ap (λ p. p.1) popped ∙ ground (arith, length-append older (x ∷ [])),
              ap (λ p. length (p.0 ++ accepted b.policy b.next_sequence now e ∷ [])) popped
                  ∙ ground (
                    arith,
                    ap length first,
                    length-append rest (accepted b.policy b.next_sequence now e ∷ []),
                    length-append given (kept ∷ []),
                  ),
              ground (arith, length-append given (kept ∷ [])),
              same,
            )
        | inr space ↦
            let popped =
              pop_oldest_short b.policy.max_events b.events b.dropped_event_count space in
            (
              older,
              ap (λ g. g ++ kept ∷ []) split ∙ append_assoc older b.events (kept ∷ []) ∙ λ i.
                  older ++ ((sym popped i).0 ++ sym is_kept i ∷ []),
              ap (λ p. p.1) popped ∙ dropped,
              ap (λ p. length (p.0 ++ accepted b.policy b.next_sequence now e ∷ [])) popped
                  ∙ ground (
                    arith,
                    length-append b.events (accepted b.policy b.next_sequence now e ∷ []),
                    length-append given (kept ∷ []),
                  ),
              ground (arith, length-append given (kept ∷ [])),
              same,
            )
      ]

observe-Holds :
    (policy : CapturePolicy) (given : List NetworkEvent) (o : Observation) (b : NetworkTraceBuffer)
    → 1 ≤ policy.max_events
    → Holds policy given b
    → Holds policy (recorded_next policy given o) (observe o b)
unfolding clear
observe-Holds policy given (received now e) b c h = add-Holds policy c now e given b h
observe-Holds policy given cleared b c h = ([], refl, omega arith, ground arith, omega arith, h.5)

observe_each-Holds :
    (policy : CapturePolicy) (given : List NetworkEvent) (os : List Observation)
    (b : NetworkTraceBuffer)
    → 1 ≤ policy.max_events
    → Holds policy given b
    → Holds policy (recorded_from policy given os) (observe_each os b)
observe_each-Holds policy given [] b c h = h
observe_each-Holds policy given (o ∷ os) b c h =
    observe_each-Holds policy (recorded_next policy given o) os (observe o b) c
      (observe-Holds policy given o b c h)

pub create-max_events : (policy : CapturePolicy) → 1 ≤ (create policy).policy.max_events
unfolding create
create-max_events policy = ground arith

-- After any sequence of events and clearings, a new buffer holds the newest of the events that came
-- since the last clearing, in their order, redacted by its policy, with the time of the clock where
-- they had none, and numbered from one modulo 2^64: as many as its policy allows, which is at least
-- one, or all of them when they are no more. It counts the older ones that it dropped, modulo 2^64,
-- and the next number follows the last.
pub observe_each_lem :
    (policy : CapturePolicy) (os : List Observation)
    → let b = observe_each os (create policy) in
      let given = recorded (create policy).policy os in
      (older : List NetworkEvent) × (given ≡ older ++ b.events)
      × (b.dropped_event_count ≡ length older % 2 ^ 64)
      × (length b.events ≡ min (create policy).policy.max_events (length given))
      × (b.next_sequence ≡ (1 + length given) % 2 ^ 64)
      × (b.policy ≡ (create policy).policy)
unfolding create
observe_each_lem policy os =
    observe_each-Holds (create policy).policy [] os (create policy) (create-max_events policy)
      ([], refl, omega arith, ground arith, omega arith, refl)
