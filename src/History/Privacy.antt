-- ===== src/History/Privacy.antt =====
-- Which pages the bridge records.
use openbrowser.Prelude.Dict
use openbrowser.Prelude.Integers.{ℤ}
use openbrowser.Prelude.{
  String, ◌≡◌, refl, sym, Bool, true, false, ◌||◌, ◌&&◌, not, Option, none, some, List, [], ◌∷◌,
  ◌++◌, arith, ◌==◌, string_eq, if◌then◌else◌, holds, subst, Option-cases, inl, inr,
}
use openbrowser.Tabs.{Tab}
use openbrowser.Profiles.{ProfileManager}
use openbrowser.Session.{BrowserSession}
use openbrowser.FocusSession.{active_tab}
use openbrowser.History.{
  workspace_eq, HistoryEntry, HistoryManager, count_visit, new_entry, record_visit,
}
use openbrowser.History.Visits.{entries-record_visit}
use openbrowser.History.Bridge.{
  SessionHistoryBridge, is_profile_private, is_committed, visit_history, commit_visit, save_session,
  on_browser_session_changed,
}

unfoldable pub has_url : String → List HistoryEntry → Bool
has_url u [] = false
has_url u (e ∷ es) = e.url == u || has_url u es

abbrev pub is_recorded : String → Option HistoryManager → Bool
is_recorded u none = false
is_recorded u (some h) = has_url u h.entries

-- A notification: the time, the profiles and the session at that time.
abbrev pub Notification : Type 0
Notification = ℤ × Option ProfileManager × BrowserSession

abbrev pub notify_each : List Notification → SessionHistoryBridge → SessionHistoryBridge
notify_each [] b = b
notify_each (n ∷ ns) b = notify_each ns (on_browser_session_changed n.0 n.1 n.2 b)

-- Whether the page is shown by the active tab, and neither the tab nor the profile is private.
abbrev pub shows_publicly : String → Notification → Bool
shows_publicly u n = elim (active_tab n.2) [
  | none ↦ false
  | some t ↦ t.url == u && not (is_profile_private n.1 || t.is_ephemeral)
]

abbrev pub is_shown_publicly : String → List Notification → Bool
is_shown_publicly u [] = false
is_shown_publicly u (n ∷ ns) = shows_publicly u n || is_shown_publicly u ns

has_url-count_visit :
    (u : String) (now : ℤ) (url title : String) (w : Option String) (es : List HistoryEntry)
    → has_url u (count_visit now url title w es) ≡ has_url u es
unfolding has_url count_visit
has_url-count_visit u now url title w [] = refl
has_url-count_visit u now url title w (e ∷ es) =
    ground (arith, has_url-count_visit u now url title w es)

has_url-append :
    (u : String) (es : List HistoryEntry) (e : HistoryEntry)
    → has_url u (es ++ e ∷ []) ≡ (has_url u es || e.url == u)
unfolding has_url
has_url-append u [] e = ground arith
has_url-append u (x ∷ xs) e = ground (arith, has_url-append u xs e)

has_url-record_visit :
    (u : String) (h : HistoryManager) (now : ℤ) (url title : String) (w : Option String)
    → has_url u (record_visit h now url title w).entries ≡ true
    → (has_url u h.entries || url == u) ≡ true
has_url-record_visit u h now url title w e = ground (
  arith,
  entries-record_visit h now url title w,
  has_url-count_visit u now url title w h.entries,
  has_url-append u h.entries (new_entry h.next_id now url title w),
)

is_recorded-visit_history :
    (u : String) (now : ℤ) (t : Tab) (o : Option HistoryManager)
    → is_recorded u (visit_history now t o) ≡ true
    → (is_recorded u o || t.url == u) ≡ true
is_recorded-visit_history u now t none e = ground arith
is_recorded-visit_history u now t (some h) e =
    has_url-record_visit u h now t.url t.title t.workspace_id e

history-commit_visit :
    (now : ℤ) (t : Tab) (b : SessionHistoryBridge)
    → (commit_visit now t b).history_manager ≡ (
        if is_committed t && not (holds (Dict.lookup t.id b.last_committed_url_per_tab) t.url)
        then visit_history now t b.history_manager
        else b.history_manager)
unfolding commit_visit
history-commit_visit now t b = ground arith

history-save_session :
    (b : SessionHistoryBridge) → (save_session b).history_manager ≡ b.history_manager
unfolding save_session
history-save_session b = ground arith

is_recorded-commit_visit :
    (u : String) (now : ℤ) (t : Tab) (b : SessionHistoryBridge)
    → is_recorded u (save_session (commit_visit now t b)).history_manager ≡ true
    → (is_recorded u b.history_manager || t.url == u) ≡ true
is_recorded-commit_visit u now t b e = ground (
  arith,
  history-save_session (commit_visit now t b),
  history-commit_visit now t b,
  is_recorded-visit_history u now t b.history_manager,
)

is_recorded-changed :
    (u : String) (n : Notification) (b : SessionHistoryBridge)
    → is_recorded u (on_browser_session_changed n.0 n.1 n.2 b).history_manager ≡ true
    → (is_recorded u b.history_manager || shows_publicly u n) ≡ true
unfolding on_browser_session_changed
is_recorded-changed u (now, m, s) b e = elim (Option-cases (active_tab s)) [
  | inl gone ↦ ground arith
  | inr (t, found) ↦ ground (arith, is_recorded-commit_visit u now t b)
]

is_recorded-notify_each :
    (u : String) (ns : List Notification) (b : SessionHistoryBridge)
    → is_recorded u (notify_each ns b).history_manager ≡ true
    → (is_recorded u b.history_manager || is_shown_publicly u ns) ≡ true
is_recorded-notify_each u [] b e = ground arith
is_recorded-notify_each u (n ∷ ns) b e = ground (
  arith,
  is_recorded-changed u n b,
  is_recorded-notify_each u ns (on_browser_session_changed n.0 n.1 n.2 b),
)

-- After any sequence of notifications, a page that is in the history, and was not in it before, was
-- shown at one of them by the active tab, with neither this tab nor the active profile private.
pub notify_each-IsPublic :
    (u : String) (ns : List Notification) (b : SessionHistoryBridge)
    → is_recorded u b.history_manager ≡ false
    → is_recorded u (notify_each ns b).history_manager ≡ true
    → is_shown_publicly u ns ≡ true
notify_each-IsPublic u ns b new e = ground (arith, is_recorded-notify_each u ns b)

-- What a visit leaves behind: the page as the one that the tab committed last.
last_url-commit_visit :
    (now : ℤ) (t : Tab) (b : SessionHistoryBridge)
    → is_committed t ≡ true
    → holds (Dict.lookup t.id (commit_visit now t b).last_committed_url_per_tab) t.url ≡ true
unfolding commit_visit
last_url-commit_visit now t b c =
    ground (arith, Dict.lookup-insert t.id t.id t.url b.last_committed_url_per_tab)

changed_public :
    (now : ℤ) (m : Option ProfileManager) (s : BrowserSession) (b : SessionHistoryBridge) (t : Tab)
    → active_tab s ≡ some t
    → (is_profile_private m || t.is_ephemeral) ≡ false
    → on_browser_session_changed now m s b ≡ save_session (commit_visit now t b)
unfolding on_browser_session_changed
changed_public now m s b t e p = rw (on_browser_session_changed, e, p) refl

changed_same_url :
    (now : ℤ) (m : Option ProfileManager) (s : BrowserSession) (b : SessionHistoryBridge) (t : Tab)
    → active_tab s ≡ some t
    → holds (Dict.lookup t.id b.last_committed_url_per_tab) t.url ≡ true
    → (on_browser_session_changed now m s b).history_manager ≡ b.history_manager
unfolding on_browser_session_changed
changed_same_url now m s b t e h =
    ground (arith, history-save_session (commit_visit now t b), history-commit_visit now t b)

last_url-save_session :
    (b : SessionHistoryBridge)
    → (save_session b).last_committed_url_per_tab ≡ b.last_committed_url_per_tab
unfolding save_session
last_url-save_session b = ground arith

-- Once the page of the active tab is committed in public, a later notification for the same tab with
-- the same page, however its title, its state or the profile changed, leaves the history as it is:
-- a reload, a new title or an activation is no visit.
pub changed_again :
    (now later : ℤ) (m m' : Option ProfileManager) (s s' : BrowserSession)
    (b : SessionHistoryBridge) (t t' : Tab)
    → active_tab s ≡ some t
    → (is_profile_private m || t.is_ephemeral) ≡ false
    → is_committed t ≡ true
    → active_tab s' ≡ some t'
    → t'.id ≡ t.id
    → t'.url ≡ t.url
    → let once = on_browser_session_changed now m s b in
      (on_browser_session_changed later m' s' once).history_manager ≡ once.history_manager
changed_again now later m m' s s' b t t' found public_tab committed found' same_id same_url =
    let b' = save_session (commit_visit now t b) in
    let last : holds (Dict.lookup t'.id b'.last_committed_url_per_tab) t'.url ≡ true = ground (
      arith,
      last_url-commit_visit now t b committed,
      last_url-save_session (commit_visit now t b),
    ) in
    subst
      (λ once. (on_browser_session_changed later m' s' once).history_manager ≡ once.history_manager)
      (sym (changed_public now m s b t found public_tab))
      (changed_same_url later m' s' b' t' found' last)
