-- ===== src/FocusSession/Opens.antt =====
-- The activation of an item of the queue that has no tab to go to.
use text.Mathlib.TextLemmas.{append-eq-nil_iff}
use openbrowser.Prelude.{
  String, ◌≡◌, refl, true, false, none, some, arith, string_eq, is_empty, Option-cases, inl, inr,
  length, ◌<>◌, ℕ, zero, suc, ◌+◌, to_string, string_discrete,
}
use openbrowser.Prelude.Keyed
use openbrowser.Tabs.{Tab, active, requested, is_legacy_synthetic_new_tab}
use openbrowser.FocusQueue.{FocusQueue, FocusQueueItem, find_item, set_tab_id}
use openbrowser.Session.{
  BrowserSession, open_tab, open_active, append_tab, notify_observers, normalize_new_tab,
  request_first_load, demote_active_tab, increment64,
}
use openbrowser.Session.TabList.{tab_id, find_tab, Distinct}
use openbrowser.Session.Invariant.{lifecycle_of-demote}
use openbrowser.FocusSession.{
  active_tab, is_private, live_tab, focus_tab, free_suffix, free_tab_id, open_focus_item,
  activate_focus_item, suffixed,
}
use openbrowser.FocusSession.FreeIds.{free_tab_id-free}

-- The tab is the active one, and its page is being requested.
abbrev pub IsShown : BrowserSession → Tab → Type 0
IsShown s t =
    (s.active_tab_id ≡ some t.id)
    × ((u : Tab) × (find_tab t.id s.tabs ≡ some u)
        × (u.url ≡ t.url)
        × (u.pending_url ≡ some t.url)
        × (u.navigation_state ≡ requested)
        × (u.workspace_id ≡ t.workspace_id)
        × (u.is_ephemeral ≡ t.is_ephemeral)
        × (u.lifecycle ≡ active))

open_tab-IsShown :
    (s : BrowserSession) (t : Tab)
    → normalize_new_tab t ≡ t
    → is_empty t.id ≡ false
    → is_empty t.url ≡ false
    → find_tab t.id s.tabs ≡ none
    → ((open_tab s t true).1 ≡ true) × IsShown (open_tab s t true).0 t
unfolding open_tab open_active append_tab request_first_load notify_observers
open_tab-IsShown s t same id_ne url_ne free =
    let d = demote_active_tab s in
    let n = increment64 d.last_activated_counter in
    let u = request_first_load (record t { lifecycle = active; last_activated_sequence = n }) in
    let new : find_tab t.id d.tabs ≡ none = ground (arith, lifecycle_of-demote s t.id) in
    (
      ground arith,
      (
        ground arith,
        (
          u,
          ground (arith, new, Keyed.find-append tab_id t.id d.tabs u),
          refl,
          refl,
          refl,
          refl,
          refl,
          refl,
        ),
      ),
    )

behind-ne : (s t : String) → is_empty s ≡ false → is_empty (s <> t) ≡ false
behind-ne s t h = ground (arith, λ (e : s <> t ≡ ""). (append-eq-nil_iff.0 e).0)

free_suffix-ne :
    (fuel : ℕ) (s : BrowserSession) (base : String) (n : ℕ)
    → is_empty base ≡ false
    → is_empty (free_suffix fuel s base n) ≡ false
unfolding free_suffix
free_suffix-ne zero s base n h = behind-ne base ("-" <> to_string n) h
free_suffix-ne (suc fuel) s base n h = elim (Option-cases (find_tab (suffixed base n) s.tabs)) [
  | inl e ↦ rw (free_suffix, e) (behind-ne base ("-" <> to_string n) h)
  | inr (t, e) ↦ rw (free_suffix, e) (free_suffix-ne fuel s base (n + 1) h)
]

free_tab_id-ne :
    (s : BrowserSession) (base : String)
    → is_empty base ≡ false
    → is_empty (free_tab_id s base) ≡ false
unfolding free_tab_id
free_tab_id-ne s base h = elim (Option-cases (find_tab base s.tabs)) [
  | inl e ↦ rw (free_tab_id, e) h
  | inr (t, e) ↦ rw (free_tab_id, e) (free_suffix-ne (length s.tabs) s base 1 h)
]

focus_title : (url : String) → is_legacy_synthetic_new_tab url "Focus Tab" ≡ false
unfolding is_legacy_synthetic_new_tab string_discrete
focus_title url = ground arith

normalize-focus_tab :
    (id : String) (i : FocusQueueItem) → normalize_new_tab (focus_tab id i) ≡ focus_tab id i
unfolding normalize_new_tab
normalize-focus_tab id i = rw (focus_title i.url) refl

module _ (s : BrowserSession) (q : FocusQueue) (item_id : String) (i : FocusQueueItem) where
  abbrev new_id : String
  new_id = free_tab_id s ("focus-tab-" <> item_id)

  base-ne : is_empty ("focus-tab-" <> item_id) ≡ false
  base-ne = behind-ne "focus-tab-" item_id (unfold string_discrete in refl)

  opened :
      Distinct s.tabs
      → is_empty i.url ≡ false
      → let (s', done) = open_tab s (focus_tab new_id i) true in
        (done ≡ true) × IsShown s' (focus_tab new_id i)
  opened d real =
      open_tab-IsShown s (focus_tab new_id i) (normalize-focus_tab new_id i)
        (free_tab_id-ne s _ base-ne) real (free_tab_id-free s _ d)

  open_focus_item_lem :
      Distinct s.tabs
      → is_empty i.url ≡ false
      → let (s', q', done) = open_focus_item s q i item_id in
        (done ≡ true)
        × IsShown s' (focus_tab new_id i)
        × (q' ≡ (set_tab_id q item_id (some new_id)).0)
  unfolding open_focus_item
  open_focus_item_lem d real =
      let facts = opened d real in rw (open_focus_item, facts.0) (refl, facts.1, refl)

  activate-opens :
      find_item item_id q.items ≡ some i
      → is_empty i.url ≡ false
      → is_private (active_tab s) ≡ false
      → live_tab s i.tab_id ≡ none
      → activate_focus_item s q item_id ≡ open_focus_item s q i item_id
  unfolding activate_focus_item
  activate-opens found real public_tab gone =
      rw (activate_focus_item, found, real, public_tab, gone) refl

  -- An item of the queue with an address, whose tab is closed, discarded or private or that has none,
  -- is activated outside of a private tab, in a session whose tabs have distinct ids: a tab opens
  -- with an id that no tab had, and the item is bound to it. The tab is the active one, it is not
  -- private, it has the item's address and workspace, and its page is being requested.
  pub activate_focus_item-opens :
      Distinct s.tabs
      → find_item item_id q.items ≡ some i
      → is_empty i.url ≡ false
      → is_private (active_tab s) ≡ false
      → live_tab s i.tab_id ≡ none
      → let (s', q', done) = activate_focus_item s q item_id in
        (done ≡ true)
        × (find_tab new_id s.tabs ≡ none)
        × (s'.active_tab_id ≡ some new_id)
        × (q' ≡ (set_tab_id q item_id (some new_id)).0)
        × ((u : Tab) × (find_tab new_id s'.tabs ≡ some u)
            × (u.url ≡ i.url)
            × (u.pending_url ≡ some i.url)
            × (u.navigation_state ≡ requested)
            × (u.workspace_id ≡ i.workspace_id)
            × (u.is_ephemeral ≡ false)
            × (u.lifecycle ≡ active))
  activate_focus_item-opens d found real public_tab gone =
      let (done, (focus, page), bound) = open_focus_item_lem d real in
      rw (activate-opens found real public_tab gone)
        (done, free_tab_id-free s _ d, focus, bound, page)
