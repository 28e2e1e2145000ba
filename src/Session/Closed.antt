-- ===== src/Session/Closed.antt =====
-- core/session/browser_session.cpp: the list of closed tabs, and the tab cycle.
use openbrowser.Prelude.{
  ℕ, suc, ◌+◌, ◌-◌, ◌%◌, String, Bool, true, false, not, Option, none, some, List, [], ◌∷◌, ◌<>◌,
  ◌==◌, string_eq, is_empty, to_string, length, get_elem?, keep_if, if◌then◌else◌,
}
use openbrowser.Tabs.{Tab, active, idle}
use openbrowser.Session.{
  BrowserSession, ClosedTabRecord, ClosedTabMode, persistent_only, ephemeral_only, any, increment64,
  open_tab, activate_tab,
}

unfoldable pub is_skipped : ClosedTabMode → ClosedTabRecord → Bool
is_skipped persistent_only r = r.is_ephemeral
is_skipped ephemeral_only r = not r.is_ephemeral
is_skipped any r = false

-- The search from the end: the last record that the mode does not skip, and the others.
unfoldable pub take_last_closed :
    ClosedTabMode → List ClosedTabRecord → Option (ClosedTabRecord × List ClosedTabRecord)
unfolding is_skipped
take_last_closed mode [] = none
take_last_closed mode (r ∷ rs) = elim (take_last_closed mode rs) [
  | some (x, others) ↦ some (x, r ∷ others)
  | none ↦ if is_skipped mode r then none else some (r, rs)
]

unfoldable pub restored_id : ℕ → String
restored_id n = "restored-" <> to_string n

-- A `Tab` with the members' default initializers.
unfoldable pub restored_tab : String → ClosedTabRecord → Tab
restored_tab id r = record {
  id = id;
  url = r.url;
  title = if is_empty r.title then r.url else r.title;
  lifecycle = active;
  workspace_id = r.workspace_id;
  pending_url = none;
  navigation_state = idle;
  last_error = none;
  renderer_crashed = false;
  has_committed_navigation = false;
  last_activated_sequence = 0;
  is_playing_audio = false;
  is_ephemeral = r.is_ephemeral;
}

unfoldable pub reopen_record :
    BrowserSession → ClosedTabRecord → List ClosedTabRecord → BrowserSession × Option String
unfolding restored_id restored_tab
reopen_record s r others =
    let n = increment64 s.restored_counter in
    let id = restored_id n in
    let (opened, done) =
      open_tab (record s { closed_tabs = others; restored_counter = n }) (restored_tab id r) true in
    if done then (opened, some id) else (opened, none)

unfoldable pub reopen_last_closed_tab :
    BrowserSession → ClosedTabMode → BrowserSession × Option String
unfolding take_last_closed reopen_record
reopen_last_closed_tab s mode = elim (take_last_closed mode s.closed_tabs) [
  | none ↦ (s, none)
  | some (r, others) ↦ reopen_record s r others
]

unfoldable pub purge_ephemeral_closed_tabs : BrowserSession → BrowserSession
purge_ephemeral_closed_tabs s = record s {
  closed_tabs = keep_if (λ r. not r.is_ephemeral) s.closed_tabs;
}

-- Where the active tab stands among the visible ones, if it does.
unfoldable pub position_of : Option String → List Tab → Option ℕ
position_of none ts = none
position_of (some id) [] = none
position_of (some id) (t ∷ ts) =
    if t.id == id
    then some 0
    else elim (position_of (some id) ts) [ none ↦ none | some n ↦ some (suc n) ]

unfoldable pub next_position : Bool → Option ℕ → ℕ → ℕ
next_position forward none n = 0
next_position true (some i) n = (i + 1) % n
next_position false (some i) n = (i + n - 1) % n

-- `none` is the filter that was not given.
abbrev pub visible_tabs : Option (Tab → Bool) → List Tab → List Tab
visible_tabs none ts = ts
visible_tabs (some p) ts = keep_if p ts

unfoldable pub cycle_among : BrowserSession → Bool → List Tab → BrowserSession × Bool
unfolding position_of next_position
cycle_among s forward [] = (s, false)
cycle_among s forward (t ∷ []) = activate_tab s t.id
cycle_among s forward (t ∷ u ∷ ts) =
    let n = length (t ∷ u ∷ ts) in
    elim (get_elem? (t ∷ u ∷ ts)
      (next_position forward (position_of s.active_tab_id (t ∷ u ∷ ts)) n)) [
        | none ↦ (s, false)
        | some v ↦ activate_tab s v.id
      ]

unfoldable pub cycle_tab : BrowserSession → Bool → Option (Tab → Bool) → BrowserSession × Bool
unfolding cycle_among
cycle_tab s forward filter = cycle_among s forward (visible_tabs filter s.tabs)
