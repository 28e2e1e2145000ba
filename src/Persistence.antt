-- ===== src/Persistence.antt =====
-- core/session/session_persistence.h and session_persistence.cpp: the snapshot of a session and its
-- focus queue, and a session restored from it.
pub mod Document
pub mod Capture
pub mod Restore
use openbrowser.Prelude.{
  ℕ, String, Bool, true, false, ◌||◌, ◌&&◌, not, Option, none, some, List, [], ◌∷◌, map, keep_if,
  ◌==◌, holds, string_eq, is_empty, if◌then◌else◌,
}
use openbrowser.Tabs.{Tab, TabLifecycle, active, background, idle}
use openbrowser.FocusQueue.{FocusState, FocusQueueItem, FocusQueue, contains, enqueue}
use openbrowser.Session.TabList.{find_tab}
use openbrowser.Session.{BrowserSession, open_tab, activate_tab}
use openbrowser.FocusSession.{is_private, synchronize_tab_closures}

pub record SessionTabRecord : Type 0 where
  pub id : String
  pub url : String
  pub title : String
  pub workspace_id : Option String
  pub lifecycle : TabLifecycle

pub record FocusItemRecord : Type 0 where
  pub id : String
  pub url : String
  pub tab_id : Option String
  pub workspace_id : Option String
  pub state : FocusState

pub record SessionSnapshot : Type 0 where
  pub schema_version : ℕ
  pub clean_shutdown : Bool
  pub active_tab_id : Option String
  pub tabs : List SessionTabRecord
  pub focus_items : List FocusItemRecord

abbrev pub tab_record : Tab → SessionTabRecord
tab_record t = record {
  id = t.id;
  url = t.url;
  title = t.title;
  workspace_id = t.workspace_id;
  lifecycle = t.lifecycle;
}

unfoldable pub capture_tabs : List Tab → List SessionTabRecord
capture_tabs [] = []
capture_tabs (t ∷ ts) = if t.is_ephemeral then capture_tabs ts else tab_record t ∷ capture_tabs ts

abbrev pub first_id : List SessionTabRecord → Option String
first_id [] = none
first_id (r ∷ rs) = some r.id

unfoldable pub capture_active : BrowserSession → List SessionTabRecord → Option String
capture_active s captured = elim s.active_tab_id [
  | none ↦ none
  | some id ↦ elim (find_tab id s.tabs) [
    | none ↦ first_id captured
    | some t ↦ if t.is_ephemeral then first_id captured else some id
  ]
]

abbrev pub on_private_tab : BrowserSession → Option String → Bool
on_private_tab s none = false
on_private_tab s (some id) = is_private (find_tab id s.tabs)

abbrev pub item_record : FocusQueueItem → FocusItemRecord
item_record i = record {
  id = i.id;
  url = i.url;
  tab_id = i.tab_id;
  workspace_id = i.workspace_id;
  state = i.state;
}

unfoldable pub capture_items : BrowserSession → List FocusQueueItem → List FocusItemRecord
capture_items s [] = []
capture_items s (i ∷ is) =
    if on_private_tab s i.tab_id then capture_items s is else item_record i ∷ capture_items s is

unfoldable pub capture_snapshot : BrowserSession → FocusQueue → Bool → SessionSnapshot
unfolding capture_tabs capture_active capture_items
capture_snapshot s q clean_shutdown = record {
  schema_version = 1;
  clean_shutdown = clean_shutdown;
  active_tab_id = capture_active s (capture_tabs s.tabs);
  tabs = capture_tabs s.tabs;
  focus_items = capture_items s q.items;
}

abbrev pub queue_item : FocusItemRecord → FocusQueueItem
queue_item r = record {
  id = r.id;
  url = r.url;
  tab_id = r.tab_id;
  workspace_id = r.workspace_id;
  state = r.state;
}

unfoldable pub restore_items : List FocusItemRecord → FocusQueue → FocusQueue
restore_items [] q = q
restore_items (r ∷ rs) q =
    restore_items rs (if contains q r.id then q else (enqueue q (queue_item r)).0)

unfoldable pub has_record : String → List SessionTabRecord → Bool
has_record id [] = false
has_record id (r ∷ rs) = r.id == id || has_record id rs

-- The tab that is to be active: the one that the snapshot names, or else its first.
unfoldable pub target_active_id : SessionSnapshot → Option String
unfolding has_record
target_active_id p = elim p.active_tab_id [
  | none ↦ first_id p.tabs
  | some id ↦ if has_record id p.tabs then some id else first_id p.tabs
]

abbrev pub reopened_tab : SessionTabRecord → Bool → Tab
reopened_tab r is_active = record {
  id = r.id;
  url = r.url;
  title = if is_empty r.title then r.url else r.title;
  lifecycle = if is_active then active else background;
  workspace_id = r.workspace_id;
  pending_url = none;
  navigation_state = idle;
  last_error = none;
  renderer_crashed = false;
  has_committed_navigation = false;
  last_activated_sequence = 0;
  is_playing_audio = false;
  is_ephemeral = false;
}

unfoldable pub restore_tabs :
    Option String → List SessionTabRecord → BrowserSession → BrowserSession
restore_tabs target [] s = s
restore_tabs target (r ∷ rs) s =
    let is_active = holds target r.id in
    restore_tabs target rs (elim (find_tab r.id s.tabs) [
      | some _ ↦ s
      | none ↦ (open_tab s (reopened_tab r is_active) is_active).0
    ])

abbrev pub activate_target : Option String → BrowserSession → BrowserSession
activate_target none s = s
activate_target (some id) s = (activate_tab s id).0

unfoldable pub restore_session :
    BrowserSession → FocusQueue → SessionSnapshot → BrowserSession × FocusQueue × Bool
unfolding restore_items restore_tabs target_active_id
restore_session s q p =
    let q' = restore_items p.focus_items q in
    elim p.tabs [
      | [] ↦ (s, q', true)
      | _ ∷ _ ↦
          let target = target_active_id p in
          let s' = activate_target target (restore_tabs target p.tabs s) in
          (s', synchronize_tab_closures s' q', true)
    ]
