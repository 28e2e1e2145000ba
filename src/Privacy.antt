-- ===== src/Privacy.antt =====
-- core/session/session_privacy_orchestrator.h and session_privacy_orchestrator.cpp: private mode,
-- over the session and the profiles. The engine is the session's own, where one is given, and the
-- callback's calls are logged, newest first.
pub mod Kinds
pub mod Exit
use openbrowser.Prelude.{
  ℕ, ◌+◌, String, Bool, true, false, ◌&&◌, not, Option, none, some, List, [], ◌∷◌, map, holds,
  to_string, ◌<>◌, string_eq, keep_if, if◌then◌else◌,
}
use openbrowser.Tabs.{Tab, active, idle, legacy_new_tab_placeholder_url}
use openbrowser.Profiles.{
  ProfileManager, is_ephemeral, get_active_profile, set_active_profile, create_ephemeral_profile,
  purge_ephemeral_profiles,
}
use openbrowser.Session.Engine.{set_ephemeral_mode, purge_ephemeral_context}
use openbrowser.Session.TabList.{find_tab}
use openbrowser.Session.{
  BrowserSession, activate_fallback, do_not_activate_fallback, persistent_only, ephemeral_only,
  increment64, emit, open_tab, close_tab, activate_tab,
}
use openbrowser.Session.Closed.{reopen_last_closed_tab, purge_ephemeral_closed_tabs}

pub record SessionPrivacyOrchestrator : Type 0 where
  pub session : BrowserSession
  pub profile_manager : ProfileManager
  pub has_engine : Bool
  pub has_callback : Bool
  pub ephemeral_tab_counter : ℕ
  pub persistent_tab_counter : ℕ
  pub mode_changes : List Bool

abbrev pub is_private_profile : ProfileManager → Bool
is_private_profile m = elim (get_active_profile m) [ none ↦ false | some p ↦ is_ephemeral p ]

unfoldable pub is_private_mode_active : SessionPrivacyOrchestrator → Bool
is_private_mode_active o = is_private_profile o.profile_manager

-- `CanActivateTab` and `IsTabVisible` of a tab.
unfoldable pub can_activate : SessionPrivacyOrchestrator → Tab → Bool
unfolding is_private_mode_active
can_activate o t = if is_private_mode_active o then t.is_ephemeral else not t.is_ephemeral

unfoldable pub can_activate_tab : SessionPrivacyOrchestrator → String → Bool
can_activate_tab o id = elim (find_tab id o.session.tabs) [
  | none ↦ false
  | some t ↦ can_activate o t
]

abbrev pub with_session :
    SessionPrivacyOrchestrator → BrowserSession × Bool → SessionPrivacyOrchestrator × Bool
with_session o (s, done) = (record o { session = s }, done)

unfoldable pub activate_visible_tab :
    SessionPrivacyOrchestrator → String → SessionPrivacyOrchestrator × Bool
activate_visible_tab o id =
    if can_activate_tab o id then with_session o (activate_tab o.session id) else (o, false)

-- A `Tab` with the given members, and the others' default initializers.
abbrev pub fresh_tab : String → String → Bool → Tab
fresh_tab id title is_ephemeral = record {
  id = id;
  url = legacy_new_tab_placeholder_url;
  title = title;
  lifecycle = active;
  workspace_id = none;
  pending_url = none;
  navigation_state = idle;
  last_error = none;
  renderer_crashed = false;
  has_committed_navigation = false;
  last_activated_sequence = 0;
  is_playing_audio = false;
  is_ephemeral = is_ephemeral;
}

unfoldable pub open_private_tab : SessionPrivacyOrchestrator → SessionPrivacyOrchestrator × Bool
open_private_tab o =
    let n = increment64 o.ephemeral_tab_counter in
    let t = fresh_tab ("private-tab-" <> to_string n) "Private Tab" true in
    with_session (record o { ephemeral_tab_counter = n }) (open_tab o.session t true)

unfoldable pub first_with : Bool → List Tab → Option String
first_with is_ephemeral [] = none
first_with true (t ∷ ts) = if t.is_ephemeral then some t.id else first_with true ts
first_with false (t ∷ ts) = if t.is_ephemeral then first_with false ts else some t.id

unfoldable pub close_private_tab :
    SessionPrivacyOrchestrator → String → SessionPrivacyOrchestrator × Bool
close_private_tab o id =
    let (s, closed) = close_tab o.session id do_not_activate_fallback in
    let left = record o { session = s } in
    if not closed
    then (left, false)
    else if holds o.session.active_tab_id id
    then (
      elim (first_with true s.tabs) [
        | some next ↦ record o { session = (activate_tab s next).0 }
        | none ↦ (open_private_tab left).0
      ],
      true,
    )
    else (left, true)

unfoldable pub close_visible_tab :
    SessionPrivacyOrchestrator → String → SessionPrivacyOrchestrator × Bool
close_visible_tab o id =
    if not (is_private_mode_active o)
    then with_session o (close_tab o.session id activate_fallback)
    else elim (find_tab id o.session.tabs) [
      | none ↦ (o, false)
      | some t ↦ if t.is_ephemeral then close_private_tab o id else (o, false)
    ]

unfoldable pub close_active_tab : SessionPrivacyOrchestrator → SessionPrivacyOrchestrator × Bool
close_active_tab o = elim o.session.active_tab_id [
  | none ↦ (o, false)
  | some id ↦ close_visible_tab o id
]

unfoldable pub reopen_closed_tab :
    SessionPrivacyOrchestrator → SessionPrivacyOrchestrator × Option String
reopen_closed_tab o =
    let mode = if is_private_mode_active o then ephemeral_only else persistent_only in
    let (s, id) = reopen_last_closed_tab o.session mode in (record o { session = s }, id)

abbrev pub tell_mode : Bool → SessionPrivacyOrchestrator → SessionPrivacyOrchestrator
tell_mode on o = if o.has_callback then record o { mode_changes = on ∷ o.mode_changes } else o

abbrev pub set_engine_mode : Bool → BrowserSession → BrowserSession
set_engine_mode = λ on s. emit (set_ephemeral_mode on) s

unfoldable pub enter_private_mode : SessionPrivacyOrchestrator → SessionPrivacyOrchestrator × Bool
enter_private_mode o =
    let (m, p) = create_ephemeral_profile o.profile_manager "Private Session" in
    let s = if o.has_engine then set_engine_mode true o.session else o.session in
    open_private_tab
      (tell_mode true (record o { profile_manager = (set_active_profile m p.id).0; session = s }))

abbrev pub ephemeral_ids : List Tab → List String
ephemeral_ids ts = map (λ t. t.id) (keep_if (λ t. t.is_ephemeral) ts)

unfoldable pub close_each : BrowserSession → List String → BrowserSession
close_each s [] = s
close_each s (id ∷ ids) = close_each (close_tab s id do_not_activate_fallback).0 ids

-- Step 6: a persistent tab, new or old, becomes the active one.
unfoldable pub restore_persistent_tab : SessionPrivacyOrchestrator → SessionPrivacyOrchestrator
restore_persistent_tab o =
    let n = increment64 o.persistent_tab_counter in
    let t = fresh_tab ("tab-" <> to_string n) "New Tab" false in
    elim o.session.tabs [
      | [] ↦ record o { persistent_tab_counter = n; session = (open_tab o.session t true).0 }
      | _ ∷ _ ↦ elim (first_with false o.session.tabs) [
        | none ↦ o
        | some id ↦ record o { session = (activate_tab o.session id).0 }
      ]
    ]

unfoldable pub exit_private_mode : SessionPrivacyOrchestrator → SessionPrivacyOrchestrator
exit_private_mode o =
    let closed = close_each o.session (ephemeral_ids o.session.tabs) in
    let told =
      if o.has_engine
      then emit purge_ephemeral_context (set_engine_mode false closed)
      else closed in
    let m = purge_ephemeral_profiles (set_active_profile o.profile_manager "default").0 in
    restore_persistent_tab (
      tell_mode false
        (record o { profile_manager = m; session = purge_ephemeral_closed_tabs told }))
