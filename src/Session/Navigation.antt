-- ===== src/Session/Navigation.antt =====
-- core/session/browser_session.cpp: the commands that load a page in a tab, those that suspend,
-- resume and discard one, and the events that the engine sends back.
use openbrowser.Prelude.{String, Bool, true, false, ◌||◌, none, some, is_empty, if◌then◌else◌}
use openbrowser.Tabs.{
  Tab, background, suspended, discarded, idle, requested, loading, failed, is_active, is_suspended,
  is_discarded,
}
use openbrowser.Session.Engine.{EngineCall}
use openbrowser.Session.TabList.{find_tab, modify}
use openbrowser.Session.{BrowserSession, emit, notify_observers}

abbrev in_background : Tab → Tab
in_background t = record t { lifecycle = background }

-- A command wakes a suspended tab, which then counts as a background tab.
unfoldable pub wake : String → Tab → BrowserSession → BrowserSession
wake id t s =
    if is_suspended t.lifecycle
    then (let r = emit (EngineCall.resume id) s in
        record r { tabs = modify id in_background r.tabs })
    else s

unfoldable pub request : String → Tab → Tab
request url t = record t {
  pending_url = some url;
  navigation_state = requested;
  last_error = none;
  renderer_crashed = false;
}

unfoldable pub navigate : BrowserSession → String → String → BrowserSession × Bool
navigate s id url = if is_empty url then (s, false) else elim (find_tab id s.tabs) [
  | none ↦ (s, false)
  | some t ↦ if is_discarded t.lifecycle then (s, false) else (
    let w = wake id t s in
        notify_observers
          (emit (EngineCall.navigate id url) (record w { tabs = modify id (request url) w.tabs })),
    true,
  )
]

-- `PrepareTabForNavigationCommand`.
unfoldable pub prepare_tab_for_navigation_command : BrowserSession → String → BrowserSession × Bool
prepare_tab_for_navigation_command s id = elim (find_tab id s.tabs) [
  | none ↦ (s, false)
  | some t ↦ if is_discarded t.lifecycle then (s, false) else (wake id t s, true)
]

unfoldable pub navigation_command :
    (String → EngineCall) → BrowserSession → String → BrowserSession × Bool
navigation_command call s id =
    let (p, ready) = prepare_tab_for_navigation_command s id in
    if ready then (notify_observers (emit (call id) p), true) else (p, false)

unfoldable pub go_back : BrowserSession → String → BrowserSession × Bool
unfolding navigation_command
go_back = navigation_command EngineCall.go_back

unfoldable pub go_forward : BrowserSession → String → BrowserSession × Bool
unfolding navigation_command
go_forward = navigation_command EngineCall.go_forward

unfoldable pub reload : BrowserSession → String → BrowserSession × Bool
unfolding navigation_command
reload = navigation_command EngineCall.reload

unfoldable pub suspend_tab : BrowserSession → String → BrowserSession × Bool
suspend_tab s id = elim (find_tab id s.tabs) [
  | none ↦ (s, false)
  | some t ↦
      if is_discarded t.lifecycle || is_active t.lifecycle
      then (s, false)
      else if is_suspended t.lifecycle
      then (s, true)
      else (
        let e = emit (EngineCall.suspend id) s in
            notify_observers
              (record e { tabs = modify id (λ u. record u { lifecycle = suspended }) e.tabs }),
        true,
      )
]

unfoldable pub resume_tab : BrowserSession → String → BrowserSession × Bool
resume_tab s id = elim (find_tab id s.tabs) [
  | none ↦ (s, false)
  | some t ↦
      if is_discarded t.lifecycle
      then (s, false)
      else if is_suspended t.lifecycle
      then (
        let e = emit (EngineCall.resume id) s in
            notify_observers (record e { tabs = modify id in_background e.tabs }),
        true,
      )
      else (s, true)
]

unfoldable pub discard_tab : BrowserSession → String → BrowserSession × Bool
discard_tab s id = elim (find_tab id s.tabs) [
  | none ↦ (s, false)
  | some t ↦ if is_discarded t.lifecycle || is_active t.lifecycle then (s, false) else (
    let e = emit (EngineCall.close_tab id) s in
        notify_observers
          (record e { tabs = modify id (λ u. record u { lifecycle = discarded }) e.tabs }),
    true,
  )
]

-- engine/browser_engine_events.h.
pub data EngineEvent : Type 0 where
  navigation_started navigation_committed : String → String → EngineEvent
  navigation_failed : String → String → String → EngineEvent
  title_changed renderer_crashed : String → String → EngineEvent

unfoldable pub event_tab : EngineEvent → String
event_tab (navigation_started id url) = id
event_tab (navigation_committed id url) = id
event_tab (navigation_failed id url text) = id
event_tab (title_changed id title) = id
event_tab (renderer_crashed id reason) = id

abbrev or_default : String → String → String
or_default default text = if is_empty text then default else text

-- What each event writes into its tab.
unfoldable pub apply_event : EngineEvent → Tab → Tab
apply_event (navigation_started id url) t = record t {
  pending_url = some url;
  navigation_state = loading;
  last_error = none;
  renderer_crashed = false;
}
apply_event (navigation_committed id url) t = record t {
  url = url;
  pending_url = none;
  navigation_state = idle;
  last_error = none;
  renderer_crashed = false;
  has_committed_navigation = true;
}
apply_event (navigation_failed id url text) t = record t {
  pending_url = some url;
  navigation_state = failed;
  last_error = some (or_default "navigation failed" text);
  renderer_crashed = false;
}
apply_event (title_changed id title) t = record t { title = title }
apply_event (renderer_crashed id reason) t = record t {
  renderer_crashed = true;
  navigation_state = failed;
  last_error = some (or_default "renderer crashed" reason);
}

unfoldable pub on_event : BrowserSession → EngineEvent → BrowserSession
on_event s e = elim (find_tab (event_tab e) s.tabs) [
  | none ↦ s
  | some t ↦
      if is_discarded t.lifecycle
      then s
      else notify_observers (record s { tabs = modify (event_tab e) (apply_event e) s.tabs })
]
