-- ===== src/Tabs.antt =====
-- core/tabs/tab.h and core/navigation/internal_urls.h: the tab record, and the tests that tell
-- blank and new-tab pages from real ones.
use openbrowser.Prelude.{
  ℕ, String, Bool, true, false, ◌||◌, not, Option, ◌==◌, string_eq, is_empty, string_discrete,
  if◌then◌else◌,
}

pub data TabLifecycle : Type 0 where
  active background suspended discarded : TabLifecycle

pub data NavigationState : Type 0 where
  idle requested loading failed : NavigationState

pub record Tab : Type 0 where
  pub id : String
  pub url : String
  pub title : String
  pub lifecycle : TabLifecycle
  pub workspace_id : Option String
  pub pending_url : Option String
  pub navigation_state : NavigationState
  pub last_error : Option String
  pub renderer_crashed : Bool
  pub has_committed_navigation : Bool
  pub last_activated_sequence : ℕ  -- uint64
  pub is_playing_audio : Bool
  pub is_ephemeral : Bool

abbrev pub is_active : TabLifecycle → Bool
is_active active = true
is_active _ = false

abbrev pub is_suspended : TabLifecycle → Bool
is_suspended suspended = true
is_suspended _ = false

abbrev pub is_discarded : TabLifecycle → Bool
is_discarded discarded = true
is_discarded _ = false

abbrev pub new_tab_url : String
new_tab_url = "https://newtab.openbrowser.invalid/"

abbrev pub private_new_tab_url : String
private_new_tab_url = "about:blank"

abbrev pub legacy_new_tab_placeholder_url : String
legacy_new_tab_placeholder_url = "https://example.com/"

unfoldable pub is_new_tab_url : String → Bool
unfolding string_discrete
is_new_tab_url url = url == new_tab_url

unfoldable pub is_blank_or_new_tab_url : String → Bool
unfolding is_new_tab_url
is_blank_or_new_tab_url url = is_empty url || (url == private_new_tab_url || is_new_tab_url url)

unfoldable pub is_legacy_synthetic_new_tab : String → String → Bool
unfolding string_discrete
is_legacy_synthetic_new_tab url title =
    if not (url == legacy_new_tab_placeholder_url)
    then false
    else (title == "New Tab" || (title == "New tab" || title == "Private Tab"))
