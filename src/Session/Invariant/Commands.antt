-- ===== src/Session/Invariant/Commands.antt =====
-- Navigation commands, suspension and the engine's events keep the invariant.
use openbrowser.Prelude.Keyed
use openbrowser.Prelude.{
  String, ◌≡◌, refl, inl, inr, false, ◌||◌, Option, none, some, List, arith, ◌==◌, string_eq,
  is_empty, if◌then◌else◌, Option-cases, Bool-cases,
}
use openbrowser.Tabs.{
  Tab, TabLifecycle, background, suspended, discarded, is_active, is_suspended, is_discarded,
}
use openbrowser.Session.Engine.{EngineCall, Effect}
use openbrowser.Session.TabList.{tab_id, find_tab, modify}
use openbrowser.Session.Mirror.{engine_tab, running, IsAccepted, after_call, in_engine}
use openbrowser.Session.{BrowserSession, emit}
use openbrowser.Session.Navigation.{
  wake, request, navigate, prepare_tab_for_navigation_command, navigation_command, suspend_tab,
  resume_tab, discard_tab, EngineEvent, event_tab, apply_event, on_event, navigation_started,
  navigation_committed, navigation_failed, title_changed, renderer_crashed,
}
use openbrowser.Session.Invariant.{Agrees, Inv, notify_observers-Inv}

-- A write that leaves the ids and the lifecycles alone.
write-Inv :
    {s : BrowserSession} (i : String) (f : Tab → Tab)
    → ((t : Tab) → (f t).id ≡ t.id)
    → ((t : Tab) → (f t).lifecycle ≡ t.lifecycle)
    → Inv s
    → Inv (record s { tabs = modify i f s.tabs })
write-Inv {s} i f keeps_id keeps v = record {
  distinct = Keyed.modify-Distinct tab_id i f keeps_id s.tabs v.distinct;
  agrees = λ j. agree j (find_tab i s.tabs) refl;
  obedient = v.obedient;
  closed_bounded = v.closed_bounded;
}
  where
    agree :
        (j : String) (o : Option Tab)
        → find_tab i s.tabs ≡ o
        → Agrees (record s { tabs = modify i f s.tabs }) j
    agree j none e = ground (arith, v.agrees j, Keyed.find-modify tab_id i f keeps_id j s.tabs)
    agree j (some t) e =
        ground (arith, keeps t, v.agrees j, Keyed.find-modify tab_id i f keeps_id j s.tabs)

-- A command to a running tab.
emit-Inv :
    {s : BrowserSession} (c : EngineCall)
    → ((i : String) → after_call i c (engine_tab i s.effects) ≡ engine_tab i s.effects)
    → IsAccepted c s.effects
    → Inv s
    → Inv (emit c s)
emit-Inv {s} c silent accepted v = record {
  distinct = v.distinct;
  agrees = λ i. ground (arith, silent i, v.agrees i);
  obedient = (accepted, v.obedient);
  closed_bounded = v.closed_bounded;
}

-- A command and the write of the lifecycle that it stands for, in a tab that is not active.
abbrev moved : BrowserSession → String → EngineCall → TabLifecycle → BrowserSession
moved s id c l =
    let e = emit c s in record e { tabs = modify id (λ u. record u { lifecycle = l }) e.tabs }

module _ {s : BrowserSession} (v : Inv s) (id : String) (t : Tab)
    (found : find_tab id s.tabs ≡ some t) where
  moved-Inv :
      (c : EngineCall) (l : TabLifecycle)
      → is_active t.lifecycle ≡ false
      → is_active l ≡ false
      → ((i : String)
          → after_call i c (engine_tab i s.effects)
            ≡ (if id == i then in_engine (some l) else engine_tab i s.effects))
      → IsAccepted c s.effects
      → Inv (moved s id c l)
  moved-Inv c l passive passive' effect accepted = record {
    distinct = Keyed.modify-Distinct tab_id id _ (λ _. refl) s.tabs v.distinct;
    agrees = λ i. ground (
      arith,
      effect i,
      v.agrees i,
      v.agrees id,
      Keyed.find-modify tab_id id (λ u. record u { lifecycle = l }) (λ _. refl) i s.tabs,
    );
    obedient = (accepted, v.obedient);
    closed_bounded = v.closed_bounded;
  }

  wake-Inv :
      is_discarded t.lifecycle ≡ false
      → Inv (wake id t s) × (engine_tab id (wake id t s).effects ≡ some running)
  unfolding wake
  wake-Inv alive = elim (Bool-cases (is_suspended t.lifecycle)) [
    | inl e ↦ rw e (
      moved-Inv (EngineCall.resume id) background (ground arith) refl (λ i. ground arith)
          (ground (arith, v.agrees id)),
      ground arith,
    )
    | inr e ↦ rw e (v, ground (arith, v.agrees id))
  ]

request_id : (url : String) (t : Tab) → (request url t).id ≡ t.id
unfolding request
request_id url t = refl

request_lifecycle : (url : String) (t : Tab) → (request url t).lifecycle ≡ t.lifecycle
unfolding request
request_lifecycle url t = refl

pub navigate-Inv : (s : BrowserSession) (id url : String) → Inv s → Inv (navigate s id url).0
unfolding navigate
navigate-Inv s id url v = elim (Bool-cases (is_empty url)) [
  | inl blank ↦ rw blank v
  | inr url? ↦ elim (Option-cases (find_tab id s.tabs)) [
    | inl e ↦ rw (url?, e, navigate) v
    | inr (t, e) ↦ elim (Bool-cases (is_discarded t.lifecycle)) [
      | inl gone ↦ rw (url?, e, navigate, gone) v
      | inr alive ↦
          let (w, awake) = wake-Inv v id t e alive in
          rw (url?, e, navigate, alive)
            (notify_observers-Inv (
              emit-Inv (EngineCall.navigate id url) (λ i. refl) awake
                (write-Inv id (request url) (request_id url) (request_lifecycle url) w)))
    ]
  ]
]

pub navigation_command-Inv :
    (call : String → EngineCall) (s : BrowserSession) (id : String)
    → ((i : String) (es : List Effect) → after_call i (call id) (engine_tab i es) ≡ engine_tab i es)
    → ((es : List Effect) → engine_tab id es ≡ some running → IsAccepted (call id) es)
    → Inv s
    → Inv (navigation_command call s id).0
unfolding navigation_command prepare_tab_for_navigation_command
navigation_command-Inv call s id silent accepted v = elim (Option-cases (find_tab id s.tabs)) [
  | inl e ↦ rw (e, prepare_tab_for_navigation_command) v
  | inr (t, e) ↦ elim (Bool-cases (is_discarded t.lifecycle)) [
    | inl gone ↦ rw (e, prepare_tab_for_navigation_command, gone) v
    | inr alive ↦
        let (w, awake) = wake-Inv v id t e alive in
        rw (e, prepare_tab_for_navigation_command, alive)
          (notify_observers-Inv (
            emit-Inv (call id) (λ i. silent i (wake id t s).effects)
              (accepted (wake id t s).effects awake) w))
  ]
]

pub suspend_tab-Inv : (s : BrowserSession) (id : String) → Inv s → Inv (suspend_tab s id).0
unfolding suspend_tab
suspend_tab-Inv s id v = elim (Option-cases (find_tab id s.tabs)) [
  | inl e ↦ rw (e, suspend_tab) v
  | inr (t, e) ↦ elim (Bool-cases (is_discarded t.lifecycle || is_active t.lifecycle)) [
    | inl busy ↦ rw (e, suspend_tab, busy) v
    | inr free ↦ elim (Bool-cases (is_suspended t.lifecycle)) [
      | inl asleep ↦ rw (e, suspend_tab, free, asleep) v
      | inr awake ↦
          rw (e, suspend_tab, free, awake)
            (notify_observers-Inv (
              moved-Inv v id t e (EngineCall.suspend id) suspended (ground arith) refl
                (λ i. ground arith) (ground (arith, v.agrees id))))
    ]
  ]
]

pub resume_tab-Inv : (s : BrowserSession) (id : String) → Inv s → Inv (resume_tab s id).0
unfolding resume_tab
resume_tab-Inv s id v = elim (Option-cases (find_tab id s.tabs)) [
  | inl e ↦ rw (e, resume_tab) v
  | inr (t, e) ↦ elim (Bool-cases (is_discarded t.lifecycle)) [
    | inl gone ↦ rw (e, resume_tab, gone) v
    | inr alive ↦ elim (Bool-cases (is_suspended t.lifecycle)) [
      | inl asleep ↦
          rw (e, resume_tab, alive, asleep)
            (notify_observers-Inv (
              moved-Inv v id t e (EngineCall.resume id) background (ground arith) refl
                (λ i. ground arith) (ground (arith, v.agrees id))))
      | inr awake ↦ rw (e, resume_tab, alive, awake) v
    ]
  ]
]

pub discard_tab-Inv : (s : BrowserSession) (id : String) → Inv s → Inv (discard_tab s id).0
unfolding discard_tab
discard_tab-Inv s id v = elim (Option-cases (find_tab id s.tabs)) [
  | inl e ↦ rw (e, discard_tab) v
  | inr (t, e) ↦ elim (Bool-cases (is_discarded t.lifecycle || is_active t.lifecycle)) [
    | inl busy ↦ rw (e, discard_tab, busy) v
    | inr free ↦
        rw (e, discard_tab, free)
          (notify_observers-Inv (
            moved-Inv v id t e (EngineCall.close_tab id) discarded (ground arith) refl
              (λ i. ground arith) tt))
  ]
]

apply_event_id : (e : EngineEvent) (t : Tab) → (apply_event e t).id ≡ t.id
unfolding apply_event
apply_event_id (navigation_started id url) t = refl
apply_event_id (navigation_committed id url) t = refl
apply_event_id (navigation_failed id url text) t = refl
apply_event_id (title_changed id title) t = refl
apply_event_id (renderer_crashed id reason) t = refl

apply_event_lifecycle : (e : EngineEvent) (t : Tab) → (apply_event e t).lifecycle ≡ t.lifecycle
unfolding apply_event
apply_event_lifecycle (navigation_started id url) t = refl
apply_event_lifecycle (navigation_committed id url) t = refl
apply_event_lifecycle (navigation_failed id url text) t = refl
apply_event_lifecycle (title_changed id title) t = refl
apply_event_lifecycle (renderer_crashed id reason) t = refl

pub on_event-Inv : (s : BrowserSession) (e : EngineEvent) → Inv s → Inv (on_event s e)
unfolding on_event
on_event-Inv s ev v = elim (Option-cases (find_tab (event_tab ev) s.tabs)) [
  | inl e ↦ rw (e, on_event) v
  | inr (t, e) ↦ elim (Bool-cases (is_discarded t.lifecycle)) [
    | inl gone ↦ rw (e, on_event, gone) v
    | inr alive ↦
        rw (e, on_event, alive)
          (notify_observers-Inv (
            write-Inv (event_tab ev) (apply_event ev) (apply_event_id ev) (apply_event_lifecycle ev)
              v))
  ]
]
