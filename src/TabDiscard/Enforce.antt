-- ===== src/TabDiscard/Enforce.antt =====
-- What `Enforce` does to the session.
use openbrowser.Prelude.Keyed
use openbrowser.Prelude.Keyed.{map_option}
use openbrowser.Prelude.{
  ℕ, suc, ◌+◌, String, ◌≡◌, refl, true, false, Option, none, some, List, [], ◌∷◌, map, arith, ◌==◌,
  ℕ_eq, string_eq, length, if◌then◌else◌, inl, inr, Option-cases,
}
use openbrowser.Tabs.{TabLifecycle, discarded, is_active, is_discarded}
use openbrowser.FocusQueue.{FocusQueue}
use openbrowser.Session.{BrowserSession, notify_observers}
use openbrowser.Session.Navigation.{discard_tab}
use openbrowser.Session.TabList.{tab_id, find_tab, lifecycle_of}
use openbrowser.Session.Invariant.{Inv}
use openbrowser.TabDiscard.{
  TabDiscardConfig, MemoryPressureLevel, CandidateEntry, entry_id, is_alive_background, is_eligible,
  selected_entries, select_discard_candidates, discard_all, enforce,
}
use openbrowser.TabDiscard.Select.{find_entry, selected_entries-Distinct, selected_eligible}

-- A tab that `DiscardTab` accepts.
abbrev CanDiscard : Option TabLifecycle → Type 0
CanDiscard none = ⊥
CanDiscard (some l) = (is_discarded l ≡ false) × (is_active l ≡ false)

-- Discarding such a tab succeeds, and changes that tab's lifecycle alone.
discard_tab_lem :
    (s : BrowserSession) (id : String)
    → CanDiscard (lifecycle_of id s.tabs)
    → let (s', done) = discard_tab s id in
      (done ≡ true)
      × ((j : String)
          → lifecycle_of j s'.tabs ≡ (if id == j then some discarded else lifecycle_of j s.tabs))
unfolding discard_tab notify_observers
discard_tab_lem s id can = elim (Option-cases (find_tab id s.tabs)) [
  | inl e ↦ absurd (ground arith)
  | inr (t, e) ↦ (
    ground arith,
    λ j. ground (
      arith,
      Keyed.find-modify tab_id id (λ u. record u { lifecycle = discarded }) (λ _. refl) j s.tabs,
    ),
  )
]

discard_all_lem :
    (es : List CandidateEntry) (s : BrowserSession) (n : ℕ)
    → Keyed.Distinct entry_id es
    → ((j : String) (e : CandidateEntry)
        → find_entry j es ≡ some e
        → CanDiscard (lifecycle_of j s.tabs))
    → let (s', m) = discard_all s n (map entry_id es) in
      (m ≡ n + length es)
      × ((j : String)
          → lifecycle_of j s'.tabs
            ≡ (elim (find_entry j es) [ some _ ↦ some discarded | none ↦ lifecycle_of j s.tabs ]))
unfolding discard_all Keyed.find
discard_all_lem [] s n d can = (omega arith, λ j. refl)
discard_all_lem (e ∷ es) s n d can =
    let (one, moved) = discard_tab_lem s e.id (can e.id e (ground arith)) in
    let t = (discard_tab s e.id).0 in
    let can' : (j : String) (e' : CandidateEntry)
        → find_entry j es ≡ some e'
        → CanDiscard (lifecycle_of j t.tabs) =
      λ j e' h. rw (moved j) (still_can j (can j) e' h) in
    let (count, after) = discard_all_lem es t (suc n) d.1 can' in
    rw (one, discard_all) (omega arith, λ j. ground (arith, after j, moved j))
  where
    still_can :
        (j : String)
        → ((e' : CandidateEntry)
            → find_entry j (e ∷ es) ≡ some e'
            → CanDiscard (lifecycle_of j s.tabs))
        → (e' : CandidateEntry) → find_entry j es ≡ some e'
        → CanDiscard (if e.id == j then some discarded else lifecycle_of j s.tabs)
    still_can j can-j e' h = ground (arith, can-j e')

can_discard :
    (l : TabLifecycle) → is_discarded l ≡ false → is_active l ≡ false → CanDiscard (some l)
can_discard l h k = (h, k)

module _ (c : TabDiscardConfig) (s : BrowserSession) (queue : Option FocusQueue)
    (level : MemoryPressureLevel) (v : Inv s) where
  selected_can :
      (j : String) (e : CandidateEntry)
      → find_entry j (selected_entries c s queue level) ≡ some e
      → CanDiscard (lifecycle_of j s.tabs)
  unfolding is_eligible is_alive_background
  selected_can j e h =
      let (t, found, eligible, _) = selected_eligible c s queue level v.distinct j e h in
      let own : t.id ≡ j = Keyed.find-id tab_id j s.tabs t found in ground (arith, v.agrees j)

  -- In a session with its invariant, `Enforce` discards every selected tab, counts them all, and
  -- leaves the lifecycle of every other tab as it was.
  pub enforce_lem :
      let selected = selected_entries c s queue level in
      let (s', n) = enforce c s queue level in
      (n ≡ length selected)
      × ((j : String)
          → lifecycle_of j s'.tabs ≡ (elim (find_entry j selected) [
            | some _ ↦ some discarded
            | none ↦ lifecycle_of j s.tabs
          ]))
  unfolding enforce select_discard_candidates
  enforce_lem =
      let selected = selected_entries c s queue level in
      let (count, after) =
        discard_all_lem selected s 0 (selected_entries-Distinct c s queue level v.distinct)
          selected_can in
      (omega arith, after)
