-- ===== src/Session.antt =====
-- core/session/browser_session.h and browser_session.cpp: the tabs of a window and the state of
-- each, driven by the user's commands and by the engine's events. A method returns the new session
-- with its result. Engine and observers are called last-in-first in `effects`; no callback changes
-- the session before the method returns. Ids tell the tabs apart, so that a write through an
-- iterator or an index is a write at an id.
pub mod Engine
pub mod TabList
pub mod Navigation
pub mod Closed
pub mod Requests
pub mod Reopen
pub mod Fallback
pub mod Mirror
pub mod Invariant
use openbrowser.Prelude.{
  ℕ, zero, suc, ◌+◌, ◌-◌, ◌%◌, ◌^◌, min, String, Bool, true, false, ◌&&◌, ◌||◌, not, Option, none,
  some, List, [], ◌∷◌, ◌++◌, ltb, ◌==◌, string_eq, ℕ_eq, holds, is_empty, to_string, length,
  get_elem?, keep_if, if◌then◌else◌, ◌<>◌,
}
use openbrowser.Tabs.{
  Tab, active, background, suspended, discarded, NavigationState, idle, requested, loading, failed,
  is_active, is_suspended, is_discarded, is_blank_or_new_tab_url, is_legacy_synthetic_new_tab,
  new_tab_url, private_new_tab_url,
}
use Engine.{EngineCall, set_event_sink, create_tab, navigate, Effect, engine, notified}
use TabList.{find_tab, modify, erase, index_of}

pub data CloseActivationPolicy : Type 0 where
  activate_fallback do_not_activate_fallback : CloseActivationPolicy

pub record ClosedTabRecord : Type 0 where
  pub url : String
  pub title : String
  pub workspace_id : Option String
  pub is_ephemeral : Bool

pub data ClosedTabMode : Type 0 where
  persistent_only ephemeral_only any : ClosedTabMode

pub record BrowserSession : Type 0 where
  pub tabs : List Tab
  pub closed_tabs : List ClosedTabRecord
  pub active_tab_id : Option String
  pub observers : List ℕ
  pub last_activated_counter : ℕ  -- uint64
  pub restored_counter : ℕ  -- uint64
  pub effects : List Effect

-- `++counter` on a uint64.
abbrev pub increment64 : ℕ → ℕ
increment64 n = (n + 1) % 2 ^ 64

abbrev pub emit : EngineCall → BrowserSession → BrowserSession
emit c s = record s { effects = engine c ∷ s.effects }

unfoldable pub create : BrowserSession
create = record {
  tabs = [];
  closed_tabs = [];
  active_tab_id = none;
  observers = [];
  last_activated_counter = 0;
  restored_counter = 0;
  effects = engine (set_event_sink true) ∷ [];
}

unfoldable pub destroy : BrowserSession → BrowserSession
destroy s = emit (set_event_sink false) (record s { observers = [] })

unfoldable pub is_observed_by : ℕ → List ℕ → Bool
is_observed_by o [] = false
is_observed_by o (p ∷ ps) = p == o || is_observed_by o ps

-- `none` is the null pointer.
unfoldable pub add_observer : BrowserSession → Option ℕ → BrowserSession
unfolding is_observed_by
add_observer s none = s
add_observer s (some o) =
    if is_observed_by o s.observers then s else record s { observers = s.observers ++ o ∷ [] }

unfoldable pub remove_observer : BrowserSession → ℕ → BrowserSession
remove_observer s o = record s { observers = keep_if (λ p. not (p == o)) s.observers }

-- The loop over the snapshot, which looks each observer up again before it is called.
unfoldable pub notify_each : List ℕ → List ℕ → List Effect → List Effect
unfolding is_observed_by
notify_each registered [] es = es
notify_each registered (o ∷ os) es =
    notify_each registered os (if is_observed_by o registered then notified o ∷ es else es)

unfoldable pub notify_observers : BrowserSession → BrowserSession
unfolding notify_each
notify_observers s = record s { effects = notify_each s.observers s.observers s.effects }

unfoldable pub demote : Tab → Tab
demote t = if is_active t.lifecycle then record t { lifecycle = background } else t

unfoldable pub demote_active_tab : BrowserSession → BrowserSession
unfolding demote
demote_active_tab s = elim s.active_tab_id [
  | none ↦ s
  | some id ↦ record s { tabs = modify id demote s.tabs }
]

unfoldable pub normalize_new_tab : Tab → Tab
normalize_new_tab t =
    if is_legacy_synthetic_new_tab t.url t.title
    then record t { url = if t.is_ephemeral then private_new_tab_url else new_tab_url }
    else t

-- The fields that a new tab starts with, whatever the caller gave.
unfoldable pub request_first_load : Tab → Tab
request_first_load t = record t {
  pending_url = some t.url;
  navigation_state = requested;
  last_error = none;
  renderer_crashed = false;
  has_committed_navigation = false;
}

unfoldable pub append_tab : Tab → BrowserSession → BrowserSession
append_tab t s = emit (create_tab t) (record s { tabs = s.tabs ++ t ∷ [] })

unfoldable pub open_active : BrowserSession → Tab → BrowserSession
open_active s t =
    let d = demote_active_tab s in
    let n = increment64 d.last_activated_counter in
    let t' = request_first_load (record t { lifecycle = active; last_activated_sequence = n }) in
    let a = record d { last_activated_counter = n; active_tab_id = some t.id } in
    emit (EngineCall.activate_tab t.id) (append_tab t' a)

unfoldable pub open_background : BrowserSession → Tab → BrowserSession
open_background s t = append_tab (request_first_load (record t { lifecycle = background })) s

abbrev pub has_tab : String → List Tab → Bool
has_tab id ts = elim (find_tab id ts) [ none ↦ false | some _ ↦ true ]

abbrev pub no_tabs : List Tab → Bool
no_tabs [] = true
no_tabs (_ ∷ _) = false

unfoldable pub open_tab : BrowserSession → Tab → Bool → BrowserSession × Bool
open_tab s tab activate =
    let t = normalize_new_tab tab in
    if is_empty t.id || (is_empty t.url || has_tab t.id s.tabs) then (s, false) else (
      notify_observers
          (if no_tabs s.tabs || activate then open_active s t else open_background s t),
      true,
    )

abbrev pub activated : ℕ → Tab → Tab
activated n t = record t { lifecycle = active; last_activated_sequence = n }

-- `lifecycle = Active; last_activated_sequence = ++last_activated_counter_`.
unfoldable pub mark_active : String → BrowserSession → BrowserSession
mark_active id s =
    let n = increment64 s.last_activated_counter in
    record s { last_activated_counter = n; tabs = modify id (activated n) s.tabs }

abbrev pub resume_if_suspended : Tab → BrowserSession → BrowserSession
resume_if_suspended t s = if is_suspended t.lifecycle then emit (EngineCall.resume t.id) s else s

-- The end of each activation: the id is set, and the engine told.
abbrev pub focus : String → BrowserSession → BrowserSession
focus id s = emit (EngineCall.activate_tab id) (record s { active_tab_id = some id })

unfoldable pub activate_found : BrowserSession → Tab → BrowserSession
activate_found s t =
    if is_discarded t.lifecycle
    then focus t.id (demote_active_tab (mark_active t.id (emit (create_tab t) s)))
    else focus t.id (mark_active t.id (demote_active_tab (resume_if_suspended t s)))

unfoldable pub activate_tab : BrowserSession → String → BrowserSession × Bool
activate_tab s id = elim (find_tab id s.tabs) [
  | none ↦ (s, false)
  | some t ↦
      if holds s.active_tab_id id then (s, true) else (notify_observers (activate_found s t), true)
]

-- The loop of `ActivateAfterClose` with the rounds that it has left: the first tab that is not
-- discarded, from the start index downwards and round the end.
unfoldable pub first_alive : List Tab → ℕ → ℕ → ℕ → Option Tab
first_alive tabs start offset zero = none
first_alive tabs start offset (suc rounds) =
    let rest = first_alive tabs start (offset + 1) rounds in
    elim (get_elem? tabs ((start + length tabs - offset) % length tabs)) [
      | none ↦ none
      | some t ↦ if is_discarded t.lifecycle then rest else some t
    ]

unfoldable pub activate_fallback_tab : BrowserSession → Option Tab → BrowserSession
activate_fallback_tab s none = s
activate_fallback_tab s (some t) = focus t.id (mark_active t.id (emit (create_tab t) s))

unfoldable pub activate_after_close : BrowserSession → ℕ → BrowserSession
activate_after_close s preferred_index =
    let start = min preferred_index (length s.tabs - 1) in
    if no_tabs s.tabs then s else elim (first_alive s.tabs start 0 (length s.tabs)) [
      | some t ↦ focus t.id (mark_active t.id (resume_if_suspended t s))
      | none ↦ activate_fallback_tab s (get_elem? s.tabs start)
    ]

abbrev pub max_closed_tabs : ℕ
max_closed_tabs = 25

abbrev pub closed_record : Tab → ClosedTabRecord
closed_record t = record {
  url = t.url;
  title = t.title;
  workspace_id = t.workspace_id;
  is_ephemeral = t.is_ephemeral;
}

abbrev pub drop_oldest : List ClosedTabRecord → List ClosedTabRecord
drop_oldest [] = []
drop_oldest (_ ∷ rs) = rs

unfoldable pub remember_closed : Tab → List ClosedTabRecord → List ClosedTabRecord
remember_closed t closed =
    let grown = closed ++ closed_record t ∷ [] in
    if is_blank_or_new_tab_url t.url
    then closed
    else if ltb max_closed_tabs (length grown)
    then drop_oldest grown
    else grown

unfoldable pub leave_closed_active : CloseActivationPolicy → ℕ → BrowserSession → BrowserSession
leave_closed_active activate_fallback index s = activate_after_close s index
leave_closed_active do_not_activate_fallback index s = s

unfoldable pub close_tab : BrowserSession → String → CloseActivationPolicy → BrowserSession × Bool
close_tab s id policy = elim (find_tab id s.tabs) [
  | none ↦ (s, false)
  | some t ↦
      let erased =
        emit (EngineCall.close_tab id)
          (record s { tabs = erase id s.tabs; closed_tabs = remember_closed t s.closed_tabs }) in
      let left =
        if holds s.active_tab_id id
        then leave_closed_active policy (index_of id s.tabs)
            (record erased { active_tab_id = none })
        else erased in
      (notify_observers left, true)
]
