-- ===== src/Session/Invariant/Activate.antt =====
-- `ActivateTab` keeps the invariant, for a live and for a discarded tab.
use openbrowser.Prelude.Keyed
use openbrowser.Prelude.{
  String, ◌≡◌, sym, subst, inl, inr, true, false, some, arith, string_eq, holds, Option-cases,
  Bool-cases,
}
use openbrowser.Tabs.{Tab, is_discarded}
use openbrowser.Session.Engine.{create_tab}
use openbrowser.Session.TabList.{tab_id, find_tab, find_tab-own_id}
use openbrowser.Session.{
  BrowserSession, demote_active_tab, mark_active, emit, focus, activate_found, activate_tab,
  resume_if_suspended,
}
use openbrowser.Session.Invariant.{
  Inv, notify_observers-Inv, lifecycle_of-demote, lifecycle_of-mark_active, mark_active-Distinct,
  demote-Distinct, demote_rest, mark_rest,
}

module _ {s : BrowserSession} (v : Inv s) (t : Tab) (found : find_tab t.id s.tabs ≡ some t)
    (other : holds s.active_tab_id t.id ≡ false) where
  activate_alive-Inv :
      is_discarded t.lifecycle ≡ false
      → Inv (focus t.id (mark_active t.id (demote_active_tab (resume_if_suspended t s))))
  activate_alive-Inv alive =
      let r = resume_if_suspended t s in
      let d = demote_active_tab r in
      record {
        distinct = mark_active-Distinct t.id d (demote-Distinct r (ground (arith, v.distinct)));
        agrees = λ i. ground (
          arith,
          v.agrees i,
          v.agrees t.id,
          lifecycle_of-mark_active t.id i d,
          lifecycle_of-demote r i,
          lifecycle_of-demote r t.id,
          demote_rest r,
          mark_rest t.id d,
        );
        obedient = ground (arith, v.agrees t.id, v.obedient, demote_rest r, mark_rest t.id d);
        closed_bounded = ground (arith, v.closed_bounded, demote_rest r, mark_rest t.id d);
      }

  activate_discarded-Inv :
      is_discarded t.lifecycle ≡ true
      → Inv (focus t.id (demote_active_tab (mark_active t.id (emit (create_tab t) s))))
  activate_discarded-Inv gone =
      let r = emit (create_tab t) s in
      let m = mark_active t.id r in
      record {
        distinct = demote-Distinct m (mark_active-Distinct t.id r v.distinct);
        agrees = λ i. ground (
          arith,
          v.agrees i,
          v.agrees t.id,
          lifecycle_of-mark_active t.id i r,
          lifecycle_of-mark_active t.id t.id r,
          lifecycle_of-demote m i,
          lifecycle_of-demote m t.id,
          demote_rest m,
          mark_rest t.id r,
        );
        obedient = ground (arith, v.agrees t.id, v.obedient, demote_rest m, mark_rest t.id r);
        closed_bounded = ground (arith, v.closed_bounded, demote_rest m, mark_rest t.id r);
      }

  activate_found-Inv : Inv (activate_found s t)
  unfolding activate_found
  activate_found-Inv = elim (Bool-cases (is_discarded t.lifecycle)) [
    | inl e ↦ rw e (activate_discarded-Inv e)
    | inr e ↦ rw e (activate_alive-Inv e)
  ]

-- Activation, whether or not the tab is found.
pub activate_tab-Inv : (s : BrowserSession) (id : String) → Inv s → Inv (activate_tab s id).0
unfolding activate_tab
activate_tab-Inv s id v = elim (Option-cases (find_tab id s.tabs)) [
  | inl e ↦ rw (e, activate_tab) v
  | inr (t, e) ↦
      let p = Keyed.find-id tab_id id s.tabs t e in
      elim (Bool-cases (holds s.active_tab_id id)) [
        | inl h ↦ rw (e, activate_tab, h) v
        | inr h ↦
            rw (e, activate_tab, h)
              (notify_observers-Inv (
                activate_found-Inv v t (find_tab-own_id id s.tabs t e)
                  (subst (λ i. holds s.active_tab_id i ≡ false) (sym p) h)))
      ]
]
