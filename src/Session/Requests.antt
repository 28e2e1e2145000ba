-- ===== src/Session/Requests.antt =====
-- The public methods of `BrowserSession` that change it, as requests, so that a use of the class
-- is a list of them: core/session/browser_session.h.
use openbrowser.Prelude.{ℕ, String, Bool, Option, List, [], ◌∷◌}
use openbrowser.Tabs.{Tab}
use openbrowser.Session.{
  BrowserSession, CloseActivationPolicy, ClosedTabMode, add_observer, remove_observer, open_tab,
  close_tab, activate_tab,
}
use openbrowser.Session.Navigation.{
  navigate, go_back, go_forward, reload, suspend_tab, resume_tab, discard_tab, EngineEvent,
  on_event,
}
use openbrowser.Session.Closed.{reopen_last_closed_tab, purge_ephemeral_closed_tabs, cycle_tab}

pub data Request : Type 0 where
  observe : Option ℕ → Request
  unobserve : ℕ → Request
  open_one : Tab → Bool → Request
  close_one : String → CloseActivationPolicy → Request
  activate back forward refresh put_to_sleep wake_up discard : String → Request
  load : String → String → Request
  reopen : ClosedTabMode → Request
  purge : Request
  cycle : Bool → Option (Tab → Bool) → Request
  receive : EngineEvent → Request

unfoldable pub perform : Request → BrowserSession → BrowserSession
perform (observe o) s = add_observer s o
perform (unobserve o) s = remove_observer s o
perform (open_one t a) s = (open_tab s t a).0
perform (close_one id p) s = (close_tab s id p).0
perform (activate id) s = (activate_tab s id).0
perform (back id) s = (go_back s id).0
perform (forward id) s = (go_forward s id).0
perform (refresh id) s = (reload s id).0
perform (put_to_sleep id) s = (suspend_tab s id).0
perform (wake_up id) s = (resume_tab s id).0
perform (discard id) s = (discard_tab s id).0
perform (load id url) s = (navigate s id url).0
perform (reopen mode) s = (reopen_last_closed_tab s mode).0
perform purge s = purge_ephemeral_closed_tabs s
perform (cycle onwards p) s = (cycle_tab s onwards p).0
perform (receive e) s = on_event s e

unfoldable pub run : BrowserSession → List Request → BrowserSession
run s [] = s
run s (r ∷ rs) = run (perform r s) rs
