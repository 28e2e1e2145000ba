-- ===== src/History/Bridge.antt =====
-- core/session/session_history_bridge.h: the visits that are recorded as a session changes.
use openbrowser.Prelude.Dict
use openbrowser.Prelude.Integers.{ℤ}
use openbrowser.Prelude.{
  String, Bool, true, false, ◌||◌, ◌&&◌, not, Option, none, some, List, ◌∷◌, string_eq, holds,
  if◌then◌else◌,
}
use openbrowser.Tabs.{Tab, NavigationState, idle, is_blank_or_new_tab_url}
use openbrowser.Profiles.{ProfileManager, get_active_profile, is_ephemeral}
use openbrowser.FocusSession.{active_tab}
use openbrowser.Session.{BrowserSession}
use openbrowser.History.{HistoryManager, record_visit}

pub record SessionHistoryBridge : Type 0 where
  pub history_manager : Option HistoryManager
  pub has_save_session_fn : Bool
  pub session_saves : List Bool  -- the calls of save_session_fn
  pub last_committed_url_per_tab : List (String × String)

-- `profile_manager_` may be null.
abbrev pub is_profile_private : Option ProfileManager → Bool
is_profile_private none = false
is_profile_private (some m) = elim (get_active_profile m) [ none ↦ false | some p ↦ is_ephemeral p ]

abbrev pub is_idle : NavigationState → Bool
is_idle idle = true
is_idle _ = false

abbrev pub is_committed : Tab → Bool
is_committed t =
    t.has_committed_navigation
    && (is_idle t.navigation_state && not (is_blank_or_new_tab_url t.url))

abbrev pub visit_history : ℤ → Tab → Option HistoryManager → Option HistoryManager
visit_history now t none = none
visit_history now t (some h) = some (record_visit h now t.url t.title t.workspace_id)

unfoldable pub commit_visit : ℤ → Tab → SessionHistoryBridge → SessionHistoryBridge
commit_visit now t b =
    if is_committed t && not (holds (Dict.lookup t.id b.last_committed_url_per_tab) t.url)
    then record b {
      last_committed_url_per_tab = Dict.insert t.id t.url b.last_committed_url_per_tab;
      history_manager = visit_history now t b.history_manager;
    }
    else b

unfoldable pub save_session : SessionHistoryBridge → SessionHistoryBridge
save_session b =
    if b.has_save_session_fn then record b { session_saves = false ∷ b.session_saves } else b

unfoldable pub on_browser_session_changed :
    ℤ → Option ProfileManager → BrowserSession → SessionHistoryBridge → SessionHistoryBridge
unfolding commit_visit save_session
on_browser_session_changed now m s b = elim (active_tab s) [
  | none ↦ b
  | some t ↦
      if is_profile_private m || t.is_ephemeral then b else save_session (commit_visit now t b)
]

unfoldable pub forget_tab : String → SessionHistoryBridge → SessionHistoryBridge
forget_tab id b = record b {
  last_committed_url_per_tab = Dict.remove id b.last_committed_url_per_tab;
}
