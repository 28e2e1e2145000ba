-- ===== src/Session/Invariant/Open.antt =====
-- `OpenTab` keeps the invariant.
use openbrowser.Prelude.Keyed
use openbrowser.Prelude.{
  String, ◌≡◌, refl, inl, inr, Bool, false, none, some, List, arith, string_eq, ◌||◌, Bool-cases,
  is_empty,
}
use openbrowser.Tabs.{Tab, active, is_active}
use openbrowser.Session.TabList.{tab_id, find_tab}
use openbrowser.Session.Mirror.{running, in_engine}
use openbrowser.Session.{
  BrowserSession, increment64, demote_active_tab, request_first_load, append_tab, open_active,
  open_background, normalize_new_tab, open_tab, has_tab, no_tabs,
}
use openbrowser.Session.Invariant.{
  Inv, notify_observers-Inv, lifecycle_of-demote, demote-Distinct, demote_rest,
}

append_tab-Inv :
    {s : BrowserSession} (t : Tab)
    → Inv s
    → find_tab t.id s.tabs ≡ none
    → is_active t.lifecycle ≡ false
    → in_engine (some t.lifecycle) ≡ some running
    → Inv (append_tab t s)
unfolding append_tab
append_tab-Inv {s} t v new passive alive = record {
  distinct = Keyed.append-Distinct tab_id s.tabs t v.distinct new;
  agrees = λ i. ground (arith, v.agrees i, Keyed.find-append tab_id i s.tabs t);
  obedient = ground (arith, v.agrees t.id, v.obedient);
  closed_bounded = v.closed_bounded;
}

open_active-Inv :
    {s : BrowserSession} (t : Tab) → Inv s → find_tab t.id s.tabs ≡ none → Inv (open_active s t)
unfolding open_active append_tab request_first_load
open_active-Inv {s} t v new =
    let d = demote_active_tab s in
    let u = request_first_load (record t {
      lifecycle = active;
      last_activated_sequence = increment64 d.last_activated_counter;
    }) in
    record {
      distinct =
          Keyed.append-Distinct tab_id d.tabs u (demote-Distinct s v.distinct)
            (ground (arith, lifecycle_of-demote s t.id));
      agrees = λ i. ground (
        arith,
        v.agrees i,
        v.agrees t.id,
        lifecycle_of-demote s i,
        lifecycle_of-demote s t.id,
        Keyed.find-append tab_id i d.tabs u,
        demote_rest s,
      );
      obedient = ground (arith, v.agrees t.id, v.obedient, demote_rest s);
      closed_bounded = ground (arith, v.closed_bounded, demote_rest s);
    }

open_background-Inv :
    {s : BrowserSession} (t : Tab) → Inv s → find_tab t.id s.tabs ≡ none → Inv (open_background s t)
unfolding open_background request_first_load
open_background-Inv t v new = append_tab-Inv _ v new refl refl

has_tab_not : (id : String) (ts : List Tab) → has_tab id ts ≡ false → find_tab id ts ≡ none
has_tab_not id ts h = ground arith

pub open_tab-Inv :
    (s : BrowserSession) (tab : Tab) (activate : Bool) → Inv s → Inv (open_tab s tab activate).0
unfolding open_tab
open_tab-Inv s tab activate v =
    let t = normalize_new_tab tab in
    elim (Bool-cases (is_empty t.id || (is_empty t.url || has_tab t.id s.tabs))) [
      | inl e ↦ rw e v
      | inr e ↦
          let new = has_tab_not t.id s.tabs (ground arith) in
          rw e (
            notify_observers-Inv (elim (Bool-cases (no_tabs s.tabs || activate)) [
              | inl h ↦ rw h (open_active-Inv t v new)
              | inr h ↦ rw h (open_background-Inv t v new)
            ]))
    ]
