-- ===== src/Session/Invariant.antt =====
-- What holds of a session between two calls of its methods, and the helpers of the methods.
pub mod Activate
pub mod Open
pub mod Close
pub mod Commands
pub mod Steps
use openbrowser.Prelude.Keyed
use openbrowser.Prelude.Keyed.{map_option}
use openbrowser.Prelude.{
  ℕ, suc, ◌+◌, ◌-◌, ◌≤◌, min, String, ◌≡◌, refl, sym, subst, ◌⊎◌, inl, inr, Bool, true, false,
  Option, none, some, List, [], ◌∷◌, ◌++◌, arith, ◌==◌, string_eq, ◌||◌, holds, length,
  length-append, get_elem?, if◌then◌else◌, Option-cases, Bool-cases, is_empty,
}
use openbrowser.Tabs.{
  Tab, TabLifecycle, active, background, suspended, discarded, is_active, is_suspended,
  is_discarded, is_blank_or_new_tab_url,
}
use openbrowser.Session.Engine.{Effect, engine, notified, create_tab, EngineCall}
use openbrowser.Session.TabList.{
  tab_id, find_tab, modify, erase, index_of, lifecycle_of, Distinct, find_tab-own_id,
}
use openbrowser.Session.Mirror.{
  engine_tab, running, IsObedient, in_engine, engine_tab-notify_each, notify_each-IsObedient,
}
use openbrowser.Session.{
  BrowserSession, activated, increment64, ClosedTabRecord, CloseActivationPolicy, activate_fallback,
  do_not_activate_fallback, notify_observers, demote, demote_active_tab, mark_active, emit, focus,
  request_first_load, append_tab, open_active, open_background, normalize_new_tab, open_tab,
  activate_found, activate_tab, activate_after_close, close_tab, create, max_closed_tabs,
  remember_closed, has_tab, no_tabs, resume_if_suspended,
}

-- At one id: the tab that is active is the one that the session names, and the engine's tab is in
-- the state that the lifecycle stands for.
pub record Agrees (s : BrowserSession) (i : String) : Type 0 where
  pub named : s.active_tab_id ≡ some i → lifecycle_of i s.tabs ≡ some active
  pub only : lifecycle_of i s.tabs ≡ some active → s.active_tab_id ≡ some i
  pub mirrored : engine_tab i s.effects ≡ in_engine (lifecycle_of i s.tabs)

pub record Inv (s : BrowserSession) : Type 0 where
  pub distinct : Distinct s.tabs
  pub agrees : (i : String) → Agrees s i
  pub obedient : IsObedient s.effects
  pub closed_bounded : length s.closed_tabs ≤ max_closed_tabs

pub create-Inv : Inv create
unfolding create Keyed.find
create-Inv = record {
  distinct = tt;
  agrees = λ i. ground arith;
  obedient = (tt, tt);
  closed_bounded = omega arith;
}

pub notify_observers-Inv : {s : BrowserSession} → Inv s → Inv (notify_observers s)
unfolding notify_observers
notify_observers-Inv {s} v = record {
  distinct = v.distinct;
  agrees =
      λ i. ground (arith, v.agrees i, engine_tab-notify_each i s.observers s.observers s.effects);
  obedient = notify_each-IsObedient s.observers s.observers s.effects v.obedient;
  closed_bounded = v.closed_bounded;
}

pub demote_id : (t : Tab) → (demote t).id ≡ t.id
unfolding demote
demote_id t = ground arith

pub lifecycle_of-demote :
    (s : BrowserSession) (j : String)
    → lifecycle_of j (demote_active_tab s).tabs ≡ (
        if holds s.active_tab_id j
        then map_option (λ c. if is_active c then background else c) (lifecycle_of j s.tabs)
        else lifecycle_of j s.tabs)
unfolding demote_active_tab
lifecycle_of-demote s j = elim (Option-cases s.active_tab_id) [
  | inl e ↦ ground arith
  | inr (i, e) ↦ ground (arith, Keyed.find-modify tab_id i demote demote_id j s.tabs, demote)
]

pub lifecycle_of-mark_active :
    (i j : String) (s : BrowserSession)
    → lifecycle_of j (mark_active i s).tabs
      ≡ (if i == j then map_option (λ _. active) (lifecycle_of i s.tabs) else lifecycle_of j s.tabs)
unfolding mark_active
lifecycle_of-mark_active i j s = ground (
  arith,
  Keyed.find-modify tab_id i (activated (increment64 s.last_activated_counter)) (λ _. refl) j
      s.tabs,
)

pub mark_active-Distinct :
    (i : String) (s : BrowserSession) → Distinct s.tabs → Distinct (mark_active i s).tabs
unfolding mark_active
mark_active-Distinct i s d = Keyed.modify-Distinct tab_id i _ (λ _. refl) s.tabs d

pub demote-Distinct : (s : BrowserSession) → Distinct s.tabs → Distinct (demote_active_tab s).tabs
unfolding demote_active_tab
demote-Distinct s d = elim (Option-cases s.active_tab_id) [
  | inl e ↦ rw (e, demote_active_tab) d
  | inr (i, e) ↦
      rw (e, demote_active_tab) (Keyed.modify-Distinct tab_id i demote demote_id s.tabs d)
]

-- What `DemoteActiveTab` leaves alone.
pub demote_rest :
    (s : BrowserSession)
    → let d = demote_active_tab s in
      (d.effects ≡ s.effects)
      × (d.closed_tabs ≡ s.closed_tabs)
      × (d.active_tab_id ≡ s.active_tab_id)
unfolding demote_active_tab
demote_rest s = ground arith

pub mark_rest :
    (i : String) (s : BrowserSession)
    → let d = mark_active i s in
      (d.effects ≡ s.effects)
      × (d.closed_tabs ≡ s.closed_tabs)
      × (d.active_tab_id ≡ s.active_tab_id)
unfolding mark_active
mark_rest i s = ground arith
