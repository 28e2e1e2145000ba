-- ===== src/Privacy/Kinds.antt =====
-- Whether a tab is private, and the session's methods that leave that as it is.
use openbrowser.Prelude.Keyed
use openbrowser.Prelude.Keyed.{map_option}
use openbrowser.Prelude.{
  String, ◌≡◌, ◌≢◌, refl, ◌∙◌, inl, inr, Bool, true, false, ◌||◌, Option, none, some, List, [],
  arith, string_eq, holds, is_empty, Option-cases, Bool-cases,
}
use openbrowser.Tabs.{Tab, active, is_discarded}
use openbrowser.Session.Engine.{create_tab}
use openbrowser.Session.TabList.{tab_id, find_tab}
use openbrowser.Session.{
  BrowserSession, increment64, emit, open_tab, open_active, append_tab, request_first_load,
  normalize_new_tab, notify_observers, activate_tab, activate_found, mark_active, activated, demote,
  demote_active_tab, resume_if_suspended, no_tabs, has_tab,
}
use openbrowser.Session.Invariant.{demote_rest, mark_rest}

-- Whether the tab with this id, if there is one, is private.
abbrev pub privacy_of : String → List Tab → Option Bool
privacy_of j ts = map_option (λ t. t.is_ephemeral) (find_tab j ts)

demote_id : (t : Tab) → ((demote t).id ≡ t.id) × ((demote t).is_ephemeral ≡ t.is_ephemeral)
unfolding demote
demote_id t = ground arith

pub privacy_of-demote :
    (s : BrowserSession) (j : String)
    → privacy_of j (demote_active_tab s).tabs ≡ privacy_of j s.tabs
unfolding demote_active_tab
privacy_of-demote s j = elim (Option-cases s.active_tab_id) [
  | inl e ↦ ground arith
  | inr (i, e) ↦ elim (Option-cases (find_tab j s.tabs)) [
    | inl none_there ↦
        ground (arith, Keyed.find-modify tab_id i demote (λ t. (demote_id t).0) j s.tabs)
    | inr (t, there) ↦
        ground
          (arith, Keyed.find-modify tab_id i demote (λ t. (demote_id t).0) j s.tabs, demote_id t)
  ]
]

pub privacy_of-mark :
    (i : String) (s : BrowserSession) (j : String)
    → privacy_of j (mark_active i s).tabs ≡ privacy_of j s.tabs
unfolding mark_active
privacy_of-mark i s j = ground (
  arith,
  Keyed.find-modify tab_id i (activated (increment64 s.last_activated_counter)) (λ _. refl) j
      s.tabs,
)

-- No privacy of a tab and no record of a closed tab differs.
abbrev pub Keeps : BrowserSession → BrowserSession → Type 0
Keeps s s' =
    ((j : String) → privacy_of j s'.tabs ≡ privacy_of j s.tabs) × (s'.closed_tabs ≡ s.closed_tabs)

pub activate_found-Keeps : (s : BrowserSession) (t : Tab) → Keeps s (activate_found s t)
unfolding activate_found
activate_found-Keeps s t =
    let r = resume_if_suspended t s in
    let c = emit (create_tab t) s in
    let d = demote_active_tab r in
    let m = mark_active t.id c in
    elim (Bool-cases (is_discarded t.lifecycle)) [
      | inl e ↦ rw e (
        λ j. privacy_of-demote m j ∙ privacy_of-mark t.id c j,
        ground (arith, demote_rest m, mark_rest t.id c),
      )
      | inr e ↦ rw e (
        λ j. privacy_of-mark t.id d j ∙ privacy_of-demote r j ∙ ground arith,
        ground (arith, demote_rest r, mark_rest t.id d),
      )
    ]

pub activate_tab-Keeps : (s : BrowserSession) (id : String) → Keeps s (activate_tab s id).0
unfolding activate_tab notify_observers
activate_tab-Keeps s id = elim (Option-cases (find_tab id s.tabs)) [
  | inl e ↦ rw (e, activate_tab) (λ j. refl, refl)
  | inr (t, e) ↦ elim (Bool-cases (holds s.active_tab_id id)) [
    | inl h ↦ rw (e, activate_tab, h) (λ j. refl, refl)
    | inr h ↦ rw (e, activate_tab, h) (activate_found-Keeps s t)
  ]
]

normalize_privacy : (t : Tab) → (normalize_new_tab t).is_ephemeral ≡ t.is_ephemeral
unfolding normalize_new_tab
normalize_privacy t = ground arith

open_active-first :
    (s : BrowserSession) (t : Tab)
    → s.tabs ≡ []
    → t.is_ephemeral ≡ false
    → ((j : String) → privacy_of j (open_active s t).tabs ≢ some true)
      × ((open_active s t).closed_tabs ≡ s.closed_tabs)
unfolding open_active append_tab request_first_load
open_active-first s t e h =
    let d = demote_active_tab s in
    let u = request_first_load (record t {
      lifecycle = active;
      last_activated_sequence = increment64 d.last_activated_counter;
    }) in
    let empty : (j : String) → privacy_of j s.tabs ≡ none = λ j. rw e (unfold Keyed.find in refl) in
    (
      λ j p. ground (arith, privacy_of-demote s j, empty j, Keyed.find-append tab_id j d.tabs u),
      ground (arith, demote_rest s),
    )

or_true : (b : Bool) → (b || true) ≡ true
or_true b = ground arith

-- The tab that is opened where none is left.
pub open_tab-first :
    (s : BrowserSession) (t : Tab)
    → s.tabs ≡ []
    → t.is_ephemeral ≡ false
    → ((j : String) → privacy_of j (open_tab s t true).0.tabs ≢ some true)
      × ((open_tab s t true).0.closed_tabs ≡ s.closed_tabs)
unfolding open_tab notify_observers
open_tab-first s t e h =
    let n = normalize_new_tab t in
    let empty : (j : String) → privacy_of j s.tabs ≡ none = λ j. rw e (unfold Keyed.find in refl) in
    elim (Bool-cases (is_empty n.id || (is_empty n.url || has_tab n.id s.tabs))) [
      | inl bad ↦ rw bad (λ j p. ground (arith, empty j), refl)
      | inr fine ↦
          rw (fine, or_true (no_tabs s.tabs)) (open_active-first s n e (normalize_privacy t ∙ h))
    ]
