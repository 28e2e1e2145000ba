-- ===== src/DecisionLog.antt =====
-- core/network/filter_decision_log.h and filter_decision_log.cpp: the bounded log of the decisions on
-- requests. A call of the sink is an entry in a log of its own.
use openbrowser.Prelude.Bytes.{Bytes, bytes_eq}
use openbrowser.Prelude.{
  ℕ, ◌%◌, ◌^◌, ◌≤◌, min, ◌≡◌, refl, sym, ◌∙◌, ap, Bool, false, Option, none, some, List, [], ◌∷◌,
  ◌++◌, arith, leb, ◌==◌, ℕ_eq, if◌then◌else◌, Bool-cases, inl, inr, length, length-append, subst,
}
use openbrowser.Session.{increment64}
use mathlib.Core.List.{append_assoc, append-nil}

pub data FilterDecisionLayer : Type 0 where
  content_filter capability_policy workspace_policy user_agent_policy : FilterDecisionLayer

pub record FilterDecisionRecord : Type 0 where
  pub request_id : Bytes
  pub url : Bytes
  pub blocked : Bool
  pub layer : FilterDecisionLayer
  pub rule_source : Bytes
  pub scope : Bytes
  pub human_explanation : Bytes

pub record FilterDecisionLog : Type 0 where
  pub capacity : ℕ
  pub entries : List FilterDecisionRecord
  pub dropped_count : ℕ  -- size_t
  pub has_sink : Bool
  pub sink_calls : List FilterDecisionRecord

abbrev pub create : ℕ → FilterDecisionLog
create capacity = record {
  capacity = if capacity == 0 then 1 else capacity;
  entries = [];
  dropped_count = 0;
  has_sink = false;
  sink_calls = [];
}

abbrev pub without_first : List FilterDecisionRecord → List FilterDecisionRecord
without_first [] = []
without_first (r ∷ rs) = rs

abbrev pub pop_front : FilterDecisionLog → FilterDecisionLog
pop_front l = record l {
  entries = without_first l.entries;
  dropped_count = increment64 l.dropped_count;
}

abbrev pub tell_sink : FilterDecisionRecord → FilterDecisionLog → FilterDecisionLog
tell_sink r l = if l.has_sink then record l { sink_calls = l.sink_calls ++ r ∷ [] } else l

abbrev pub push_back : FilterDecisionRecord → FilterDecisionLog → FilterDecisionLog
push_back r l = record l { entries = l.entries ++ r ∷ [] }

unfoldable pub add_decision : FilterDecisionLog → FilterDecisionRecord → FilterDecisionLog
add_decision l r =
    push_back r (tell_sink r (if leb l.capacity (length l.entries) then pop_front l else l))

abbrev pub newer :
    Option FilterDecisionRecord → FilterDecisionRecord → Bool → Option FilterDecisionRecord
newer (some found) r is_asked = some found
newer none r is_asked = if is_asked then some r else none

-- From the newest to the oldest.
unfoldable pub find_newest : Bytes → List FilterDecisionRecord → Option FilterDecisionRecord
find_newest request_id [] = none
find_newest request_id (r ∷ rs) = newer (find_newest request_id rs) r (r.request_id == request_id)

abbrev pub find_by_request_id : FilterDecisionLog → Bytes → Option FilterDecisionRecord
find_by_request_id l request_id = find_newest request_id l.entries

abbrev pub clear : FilterDecisionLog → FilterDecisionLog
clear l = record l { entries = []; dropped_count = 0 }

abbrev pub add_each : List FilterDecisionRecord → FilterDecisionLog → FilterDecisionLog
add_each [] l = l
add_each (r ∷ rs) l = add_each rs (add_decision l r)

-- That the log holds the newest of the records given to it, and counts those that it dropped.
abbrev pub Holds : List FilterDecisionRecord → FilterDecisionLog → Type 0
Holds given l =
    (older : List FilterDecisionRecord) × (given ≡ older ++ l.entries)
    × (l.dropped_count ≡ length older % 2 ^ 64)
    × (length l.entries ≡ min l.capacity (length given))

module _ (given : List FilterDecisionRecord) (l : FilterDecisionLog)
    (r : FilterDecisionRecord) where
  pub entries-add_decision :
      (add_decision l r).entries
      ≡ (if leb l.capacity (length l.entries) then without_first l.entries else l.entries) ++ r ∷ []
  unfolding add_decision
  entries-add_decision = ground arith

  counts-add_decision :
      ((add_decision l r).dropped_count ≡ (
        if leb l.capacity (length l.entries) then increment64 l.dropped_count else l.dropped_count))
      × ((add_decision l r).capacity ≡ l.capacity)
  unfolding add_decision
  counts-add_decision = ground arith

first_split :
    (es : List FilterDecisionRecord)
    → 1 ≤ length es
    → (x : FilterDecisionRecord) × (es ≡ x ∷ without_first es)
first_split [] h = absurd (omega arith)
first_split (x ∷ xs) h = (x, refl)

moved_over :
    (older es rest : List FilterDecisionRecord) (x r : FilterDecisionRecord)
    → es ≡ x ∷ rest
    → (older ++ es) ++ r ∷ [] ≡ (older ++ x ∷ []) ++ (rest ++ r ∷ [])
moved_over older es rest x r e =
    ap (λ l. (older ++ l) ++ r ∷ []) e
    ∙ append_assoc older (x ∷ rest) (r ∷ [])
    ∙ sym (append_assoc older (x ∷ []) (rest ++ r ∷ []))

add_decision-Holds :
    (given : List FilterDecisionRecord) (l : FilterDecisionLog) (r : FilterDecisionRecord)
    → 1 ≤ l.capacity
    → Holds given l
    → Holds (given ++ r ∷ []) (add_decision l r)
add_decision-Holds given l r c (older, e, d, n) =
    let counts = counts-add_decision given l r in
    let entries = entries-add_decision given l r in
    elim (Bool-cases (leb l.capacity (length l.entries))) [
      | inl full ↦
          let (x, split) = first_split l.entries (ground arith) in
          let rest = without_first l.entries in
          (
            older ++ x ∷ [],
            ap (λ g. g ++ r ∷ []) e
                ∙ moved_over older l.entries rest x r split
                ∙ ap (λ es. (older ++ x ∷ []) ++ es) (ground (arith, entries)),
            ground (arith, counts.0, length-append older (x ∷ [])),
            ground (
              arith,
              counts.1,
              ap length entries,
              ap length split,
              length-append rest (r ∷ []),
              length-append given (r ∷ []),
            ),
          )
      | inr space ↦ (
        older,
        ap (λ g. g ++ r ∷ []) e
            ∙ append_assoc older l.entries (r ∷ [])
            ∙ ap (λ es. older ++ es) (ground (arith, entries)),
        ground (arith, counts.0),
        ground (
          arith,
          counts.1,
          ap length entries,
          length-append l.entries (r ∷ []),
          length-append given (r ∷ []),
        ),
      )
    ]

add_each-Holds :
    (given rs : List FilterDecisionRecord) (l : FilterDecisionLog)
    → 1 ≤ l.capacity
    → Holds given l
    → Holds (given ++ rs) (add_each rs l)
add_each-Holds given [] l c h = subst (λ g. Holds g l) (sym (append-nil given)) h
add_each-Holds given (r ∷ rs) l c h =
    subst (λ g. Holds g (add_each rs (add_decision l r))) (append_assoc given (r ∷ []) rs)
      (add_each-Holds (given ++ r ∷ []) rs (add_decision l r)
        (omega (arith, (counts-add_decision given l r).1)) (add_decision-Holds given l r c h))

-- After any sequence of decisions a new log holds the newest of them, in their order: as many as its
-- capacity, which is at least one, or all of them when they are no more. It counts the older ones
-- that it dropped, modulo 2^64.
pub add_each_lem :
    (capacity : ℕ) (rs : List FilterDecisionRecord)
    → let l = add_each rs (create capacity) in
      (older : List FilterDecisionRecord) × (rs ≡ older ++ l.entries)
      × (l.dropped_count ≡ length older % 2 ^ 64)
      × (length l.entries ≡ min l.capacity (length rs))
add_each_lem capacity rs =
    add_each-Holds [] rs (create capacity) (ground arith) ([], refl, omega arith, omega arith)
