-- ===== src/Persistence/Restore/Pages.antt =====
-- The pages of a session, and those that `RestoreSession` adds to them.
use text.Mathlib.TextEquality.{eq_iff}
use openbrowser.Prelude.Keyed
use openbrowser.Prelude.Keyed.{map_option}
use openbrowser.Prelude.{
  String, ◌≡◌, refl, Bool, true, false, ◌||◌, ◌&&◌, not, Option, none, some, List, [], ◌∷◌, arith,
  holds, string_eq, ◌==◌, is_empty, if◌then◌else◌, Option-cases, inl, inr, string_discrete,
}
use openbrowser.Tabs.{
  Tab, active, background, is_legacy_synthetic_new_tab, legacy_new_tab_placeholder_url, new_tab_url,
  private_new_tab_url,
}
use openbrowser.Session.TabList.{tab_id, find_tab}
use openbrowser.Session.Engine.{create_tab}
use openbrowser.Session.{
  BrowserSession, demote, demote_active_tab, mark_active, activated, increment64, open_tab,
  open_active, open_background, append_tab, request_first_load, normalize_new_tab, notify_observers,
  activate_tab, activate_found, resume_if_suspended, emit,
}
use openbrowser.Persistence.{SessionTabRecord, restore_tabs, reopened_tab}

-- What a tab shows, and to whom it belongs.
pub record Page : Type 0 where
  pub url : String
  pub title : String
  pub workspace_id : Option String
  pub is_ephemeral : Bool

abbrev pub page_of : Tab → Page
page_of t = record {
  url = t.url;
  title = t.title;
  workspace_id = t.workspace_id;
  is_ephemeral = t.is_ephemeral;
}

abbrev pub shown : String → BrowserSession → Option Page
shown id s = map_option page_of (find_tab id s.tabs)

-- The first record with the id and an address, if the id is one that a tab can have.
abbrev pub usable_record : String → List SessionTabRecord → Option SessionTabRecord
usable_record id [] = none
usable_record id (r ∷ rs) =
    if r.id == id && not (is_empty r.id || is_empty r.url) then some r else usable_record id rs

abbrev pub shown_title : SessionTabRecord → String
shown_title r = if is_empty r.title then r.url else r.title

-- The page of a record: public, and with the address for a missing title. The old placeholder of a
-- new tab is the new-tab page.
abbrev pub recorded_page : SessionTabRecord → Page
recorded_page r = record {
  url = if is_legacy_synthetic_new_tab r.url (shown_title r) then new_tab_url else r.url;
  title = shown_title r;
  workspace_id = r.workspace_id;
  is_ephemeral = false;
}

-- What is there, or else what is added.
abbrev pub or_else {ℓ} : {A : Type ℓ} → Option A → Option A → Option A
or_else none y = y
or_else (some x) y = some x

shown-demote : (s : BrowserSession) (j : String) → shown j (demote_active_tab s) ≡ shown j s
unfolding demote_active_tab demote
shown-demote s j = elim (Option-cases s.active_tab_id) [
  | inl e ↦ ground arith
  | inr (i, e) ↦ ground (arith, Keyed.find-modify tab_id i demote (λ t. ground arith) j s.tabs)
]

shown-mark_active :
    (i : String) (s : BrowserSession) (j : String) → shown j (mark_active i s) ≡ shown j s
unfolding mark_active
shown-mark_active i s j = ground (
  arith,
  Keyed.find-modify tab_id i (activated (increment64 s.last_activated_counter)) (λ _. refl) j
      s.tabs,
)

pub shown-activate_tab :
    (s : BrowserSession) (id j : String) → shown j (activate_tab s id).0 ≡ shown j s
unfolding activate_tab activate_found notify_observers
shown-activate_tab s id j = elim (Option-cases (find_tab id s.tabs)) [
  | inl e ↦ rw (activate_tab, e) refl
  | inr (t, e) ↦
      let woken = resume_if_suspended t s in
      let same : woken.tabs ≡ s.tabs = ground arith in
      ground (
        arith,
        same,
        shown-demote s j,
        shown-demote woken j,
        shown-mark_active t.id (demote_active_tab woken) j,
        shown-mark_active t.id (emit (create_tab t) s) j,
        shown-demote (mark_active t.id (emit (create_tab t) s)) j,
      )
]

placeholder-ne : is_empty legacy_new_tab_placeholder_url ≡ false
unfolding string_discrete
placeholder-ne = refl

new_tab-ne : is_empty new_tab_url ≡ false
unfolding string_discrete
new_tab-ne = refl

private-ne : is_empty private_new_tab_url ≡ false
unfolding string_discrete
private-ne = refl

legacy-url :
    (u t : String) → is_legacy_synthetic_new_tab u t ≡ true → u ≡ legacy_new_tab_placeholder_url
unfolding is_legacy_synthetic_new_tab string_discrete
legacy-url u t h = ground (arith, eq_iff u legacy_new_tab_placeholder_url)

legacy-ne : (u t : String) → is_legacy_synthetic_new_tab u t ≡ true → is_empty u ≡ false
legacy-ne u t h = rw (legacy-url u t h) placeholder-ne

url-normalize : (t : Tab) → is_empty (normalize_new_tab t).url ≡ is_empty t.url
unfolding normalize_new_tab
url-normalize t = ground (arith, legacy-ne t.url t.title, new_tab-ne, private-ne)

id-normalize : (t : Tab) → (normalize_new_tab t).id ≡ t.id
unfolding normalize_new_tab
id-normalize t = ground arith

shown-open_active :
    (s : BrowserSession) (t : Tab) (j : String)
    → shown j (open_active s t) ≡ or_else (shown j s) (if t.id == j then some (page_of t) else none)
unfolding open_active append_tab request_first_load
shown-open_active s t j =
    let d = demote_active_tab s in
    let n = increment64 d.last_activated_counter in
    let u = request_first_load (record t { lifecycle = active; last_activated_sequence = n }) in
    ground (arith, shown-demote s j, Keyed.find-append tab_id j d.tabs u)

shown-open_background :
    (s : BrowserSession) (t : Tab) (j : String)
    → shown j (open_background s t)
      ≡ or_else (shown j s) (if t.id == j then some (page_of t) else none)
unfolding open_background append_tab request_first_load
shown-open_background s t j =
    let u = request_first_load (record t { lifecycle = background }) in
    ground (arith, Keyed.find-append tab_id j s.tabs u)

shown-open_tab :
    (s : BrowserSession) (t : Tab) (b : Bool) (j : String)
    → find_tab t.id s.tabs ≡ none
    → shown j (open_tab s t b).0
      ≡ or_else (shown j s) (
          if t.id == j && not (is_empty t.id || is_empty t.url)
          then some (page_of (normalize_new_tab t))
          else none)
unfolding open_tab notify_observers
shown-open_tab s t b j free =
    let t' = normalize_new_tab t in
    ground (
      arith,
      url-normalize t,
      id-normalize t,
      shown-open_active s t' j,
      shown-open_background s t' j,
    )

page-reopened :
    (r : SessionTabRecord) (b : Bool)
    → page_of (normalize_new_tab (reopened_tab r b)) ≡ recorded_page r
unfolding normalize_new_tab
page-reopened r b = ground arith

-- The pages that were there stay, and each other id shows its first usable record.
pub shown-restore_tabs :
    (target : Option String) (rs : List SessionTabRecord) (s : BrowserSession) (j : String)
    → shown j (restore_tabs target rs s)
      ≡ or_else (shown j s) (map_option recorded_page (usable_record j rs))
unfolding restore_tabs
shown-restore_tabs target [] s j = ground arith
shown-restore_tabs target (r ∷ rs) s j = elim (Option-cases (find_tab r.id s.tabs)) [
  | inl e ↦
      let b = holds target r.id in
      let s' = (open_tab s (reopened_tab r b) b).0 in
      rw (restore_tabs, e)
        (ground (
          arith,
          shown-restore_tabs target rs s' j,
          shown-open_tab s (reopened_tab r b) b j e,
          page-reopened r b,
        ))
  | inr (t, e) ↦ rw (restore_tabs, e) (ground (arith, shown-restore_tabs target rs s j))
]
