-- ===== src/Tests/Sessions.antt =====
-- Examples for core/session: a session with a few tabs.
use openbrowser.Prelude.Keyed
use openbrowser.Prelude.{
  String, ◌≡◌, ◌≢◌, refl, true, false, to_string, Option, none, some, List, [], ◌∷◌,
  string_discrete, ℕ_discrete, keep_if,
}
use openbrowser.Tabs.{Tab, active, background, is_legacy_synthetic_new_tab}
use openbrowser.Session.TabList.{find_tab, erase}
use openbrowser.Session.{
  BrowserSession, ClosedTabRecord, persistent_only, activate_fallback, create, close_tab,
  closed_record,
}
use openbrowser.Session.Closed.{is_skipped, take_last_closed, reopen_last_closed_tab, restored_id}
use openbrowser.Session.Requests.{Request, open_one, close_one, activate, reopen, discard, run}
use openbrowser.Session.Invariant.{Inv}
use openbrowser.Session.Invariant.Steps.{run-Inv}
use openbrowser.Session.Reopen.{reopen_opens, reopen_collides}
use openbrowser.Session.Fallback.{IsNearest, IsFocused, close_tab-focuses}
use openbrowser.Privacy.{
  SessionPrivacyOrchestrator, is_private_mode_active, fresh_tab, exit_private_mode,
}
use openbrowser.Privacy.Kinds.{privacy_of}
use openbrowser.Privacy.Exit.{exit_private_mode_lem}
use openbrowser.Profiles
use openbrowser.Profiles.Laws.{changes, changes-Inv, creates_ephemeral, activates}

-- A tab with a page, and a private one.
abbrev page : String → Tab
page id = record (fresh_tab id "Page" false) { url = "https://page.test/"; lifecycle = background }

abbrev secret : String → Tab
secret id = record (fresh_tab id "Secret" true) { url = "https://secret.test/" }

abbrev requests : List Request
requests =
    open_one (page "a") true
    ∷ open_one (page "b") true
    ∷ open_one (secret "c") true
    ∷ close_one "a" activate_fallback
    ∷ reopen persistent_only
    ∷ discard "b"
    ∷ activate "b"
    ∷ []

run-Inv_example : Inv (run create requests)
run-Inv_example = run-Inv requests

abbrev orchestrator : SessionPrivacyOrchestrator
orchestrator = record {
  session = run create requests;
  profile_manager =
      changes Profiles.create (creates_ephemeral "Work" ∷ activates "ephemeral-1" ∷ []);
  has_engine = true;
  has_callback = true;
  ephemeral_tab_counter = 0;
  persistent_tab_counter = 0;
  mode_changes = [];
}

exit_private_mode_example :
    let o = exit_private_mode orchestrator in
    ((j : String) → privacy_of j o.session.tabs ≢ some true)
    × (keep_if (λ r. r.is_ephemeral) o.session.closed_tabs ≡ [])
    × (is_private_mode_active o ≡ false)
exit_private_mode_example =
    exit_private_mode_lem orchestrator (run-Inv requests)
      (changes-Inv (creates_ephemeral "Work" ∷ activates "ephemeral-1" ∷ []))

-- A session with the given tabs and closed tabs, the first of the tabs active.
abbrev session : List Tab → List ClosedTabRecord → Option String → BrowserSession
session tabs closed focused = record {
  tabs = tabs;
  closed_tabs = closed;
  active_tab_id = focused;
  observers = 1 ∷ [];
  last_activated_counter = 2;
  restored_counter = 0;
  effects = [];
}

abbrev two_tabs : BrowserSession
two_tabs = session (page "a" ∷ page "b" ∷ []) (closed_record (page "z") ∷ []) (some "a")

focus_example :
    let ts = erase "a" two_tabs.tabs in
    (u : Tab) × IsNearest ts 0 u
    × (find_tab u.id ts ≡ some u)
    × IsFocused u 3 (close_tab two_tabs "a" activate_fallback).0
unfolding Keyed.find Keyed.erase Keyed.index_of string_discrete
focus_example = close_tab-focuses two_tabs "a" (page "a") refl refl (refl, (refl, tt)) refl

reopen_opens_example :
    let (s', id) = reopen_last_closed_tab two_tabs persistent_only in
    (id ≡ some (restored_id 1))
    × (s'.active_tab_id ≡ some (restored_id 1))
    × (s'.closed_tabs ≡ [])
    × ((t : Tab) × (find_tab (restored_id 1) s'.tabs ≡ some t)
        × (t.url ≡ "https://page.test/")
        × (t.title ≡ "Page")
        × (t.workspace_id ≡ none)
        × (t.is_ephemeral ≡ false)
        × (t.lifecycle ≡ active))
unfolding take_last_closed is_skipped restored_id to_string Keyed.find string_discrete ℕ_discrete
    is_legacy_synthetic_new_tab
reopen_opens_example =
    reopen_opens two_tabs persistent_only (closed_record (page "z")) [] refl refl refl refl

abbrev taken : BrowserSession
taken = session (page "restored-1" ∷ []) (closed_record (page "z") ∷ []) (some "restored-1")

reopen_collides_example :
    let (s', id) = reopen_last_closed_tab taken persistent_only in
    (id ≡ none) × (s'.tabs ≡ page "restored-1" ∷ []) × (s'.closed_tabs ≡ [])
unfolding take_last_closed is_skipped restored_id to_string Keyed.find string_discrete ℕ_discrete
reopen_collides_example =
    reopen_collides taken persistent_only (closed_record (page "z")) [] refl (page "restored-1")
      refl
