-- ===== src/FocusSession.antt =====
-- core/session/focus_session_controller.h and focus_session_controller.cpp: the focus queue's items
-- over the tabs of a session.
pub mod Closures
pub mod FreeIds
pub mod Opens
use openbrowser.Prelude.{
  ℕ, suc, zero, ◌+◌, String, Bool, true, false, ◌||◌, ◌&&◌, not, Option, none, some, List, [], ◌∷◌,
  length, holds, ◌==◌, string_eq, is_empty, to_string, ◌<>◌, if◌then◌else◌,
}
use openbrowser.Tabs.{Tab, active, idle, is_discarded}
use openbrowser.FocusQueue.{
  FocusState, FocusQueueItem, FocusQueue, find_item, contains, enqueue, set_tab_id,
}
use openbrowser.FocusSprint.{FocusSprint, tick}
use openbrowser.Session.TabList.{find_tab}
use openbrowser.Session.{BrowserSession, open_tab, activate_tab}

-- The active tab, if the session names one that it has.
abbrev pub active_tab : BrowserSession → Option Tab
active_tab s = elim s.active_tab_id [ none ↦ none | some id ↦ find_tab id s.tabs ]

abbrev pub focus_item_id : FocusQueue → String → String → String
focus_item_id q id item_id =
    if is_empty item_id
    then "focus-" <> (id <> ("-" <> to_string (length q.items + 1)))
    else item_id

unfoldable pub enqueue_tab : FocusQueue → String → Tab → String → FocusState → FocusQueue × Bool
enqueue_tab q id t item_id initial_state =
    let item_id' = focus_item_id q id item_id in
    if is_empty t.url || (t.is_ephemeral || contains q item_id')
    then (q, false)
    else enqueue q (record {
      id = item_id';
      url = t.url;
      tab_id = some id;
      workspace_id = t.workspace_id;
      state = initial_state;
    })

unfoldable pub enqueue_active_tab :
    BrowserSession → FocusQueue → String → FocusState → FocusQueue × Bool
unfolding enqueue_tab
enqueue_active_tab s q item_id initial_state = elim s.active_tab_id [
  | none ↦ (q, false)
  | some id ↦ elim (find_tab id s.tabs) [
    | none ↦ (q, false)
    | some t ↦ enqueue_tab q id t item_id initial_state
  ]
]

abbrev pub is_private : Option Tab → Bool
is_private none = false
is_private (some t) = t.is_ephemeral

-- The tab of an item that can be activated as it is.
abbrev pub live_tab : BrowserSession → Option String → Option String
live_tab s none = none
live_tab s (some id) = elim (find_tab id s.tabs) [
  | none ↦ none
  | some t ↦ if not t.is_ephemeral && not (is_discarded t.lifecycle) then some id else none
]

abbrev pub suffixed : String → ℕ → String
suffixed base n = base <> ("-" <> to_string n)

-- The loop over the suffixes: the first id, from this suffix on, that no tab has.
unfoldable pub free_suffix : ℕ → BrowserSession → String → ℕ → String
free_suffix zero s base n = suffixed base n
free_suffix (suc fuel) s base n = elim (find_tab (suffixed base n) s.tabs) [
  | none ↦ suffixed base n
  | some _ ↦ free_suffix fuel s base (n + 1)
]

-- Among one more ids than there are tabs, one is free.
unfoldable pub free_tab_id : BrowserSession → String → String
unfolding free_suffix
free_tab_id s base = elim (find_tab base s.tabs) [
  | none ↦ base
  | some _ ↦ free_suffix (length s.tabs) s base 1
]

abbrev pub focus_tab : String → FocusQueueItem → Tab
focus_tab id i = record {
  id = id;
  url = i.url;
  title = "Focus Tab";
  lifecycle = active;
  workspace_id = i.workspace_id;
  pending_url = none;
  navigation_state = idle;
  last_error = none;
  renderer_crashed = false;
  has_committed_navigation = false;
  last_activated_sequence = 0;
  is_playing_audio = false;
  is_ephemeral = false;
}

unfoldable pub open_focus_item :
    BrowserSession → FocusQueue → FocusQueueItem → String → BrowserSession × FocusQueue × Bool
unfolding free_tab_id
open_focus_item s q i item_id =
    let id = free_tab_id s ("focus-tab-" <> item_id) in
    let (s', opened) = open_tab s (focus_tab id i) true in
    if opened then (s', (set_tab_id q item_id (some id)).0, true) else (s', q, false)

unfoldable pub activate_focus_item :
    BrowserSession → FocusQueue → String → BrowserSession × FocusQueue × Bool
activate_focus_item s q item_id = elim (find_item item_id q.items) [
  | none ↦ (s, q, false)
  | some i ↦
      if is_empty i.url || is_private (active_tab s)
      then (s, q, false)
      else elim (live_tab s i.tab_id) [
        | none ↦ open_focus_item s q i item_id
        | some id ↦ let (s', done) = activate_tab s id in (s', q, done)
      ]
]

abbrev pub is_closed : BrowserSession → Option String → Bool
is_closed s none = false
is_closed s (some id) = elim (find_tab id s.tabs) [ none ↦ true | some _ ↦ false ]

-- The loop over the items as they were, which writes to the queue by id.
unfoldable pub unbind_closed : BrowserSession → List FocusQueueItem → FocusQueue → FocusQueue
unbind_closed s [] q = q
unbind_closed s (i ∷ is) q =
    unbind_closed s is (if is_closed s i.tab_id then (set_tab_id q i.id none).0 else q)

unfoldable pub synchronize_tab_closures : BrowserSession → FocusQueue → FocusQueue
unfolding unbind_closed
synchronize_tab_closures s q = unbind_closed s q.items q

unfoldable pub is_in_queue : String → Option Tab → List FocusQueueItem → Bool
is_in_queue id t [] = false
is_in_queue id t (i ∷ is) =
    let same_page : Bool = elim t [
      | none ↦ false
      | some u ↦ not (is_empty u.url) && i.url == u.url
    ] in
    holds i.tab_id id || (same_page || is_in_queue id t is)

unfoldable pub is_active_tab_in_focus_queue : BrowserSession → FocusQueue → Bool
unfolding is_in_queue
is_active_tab_in_focus_queue s q = elim s.active_tab_id [
  | none ↦ false
  | some id ↦
      if is_private (find_tab id s.tabs) then false else is_in_queue id (find_tab id s.tabs) q.items
]

unfoldable pub record_sprint_tick :
    FocusSprint → BrowserSession → FocusQueue → ℕ → FocusSprint × Bool
record_sprint_tick sprint s q delta = tick sprint delta (is_active_tab_in_focus_queue s q)
