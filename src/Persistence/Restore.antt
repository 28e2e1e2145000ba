-- ===== src/Persistence/Restore.antt =====
-- A session after `RestoreSession`.
pub mod Pages
pub mod Items
pub mod Invariant
use openbrowser.Prelude.Keyed
use openbrowser.Prelude.Keyed.{map_option}
use openbrowser.Prelude.{
  String, ◌≡◌, refl, sym, subst, ap, ◌∙◌, ◌⊎◌, Bool, true, false, ◌||◌, ◌&&◌, not, Option, none,
  some, List, [], ◌∷◌, ◌++◌, arith, holds, ◌==◌, is_empty, Option-cases, Bool-cases, inl, inr,
  string_eq, if◌then◌else◌,
}
use openbrowser.FocusQueue.{FocusQueue, FocusQueueItem, item_id, find_item, contains, enqueue}
use openbrowser.FocusQueue.Laws.{IsDistinct, enqueues, sets_tab_id, change, change-IsDistinct}
use openbrowser.Session.{BrowserSession, activate_tab, activate_found, notify_observers}
use openbrowser.Session.TabList.{tab_id, find_tab}
use openbrowser.Session.Invariant.{Inv}
use openbrowser.Session.Invariant.Open.{open_tab-Inv}
use openbrowser.Session.Invariant.Activate.{activate_tab-Inv}
use openbrowser.FocusSession.{is_closed, unbind_closed, synchronize_tab_closures}
use openbrowser.FocusSession.Closures.{unbound_if_closed, synchronize_tab_closures_lem}
use openbrowser.Persistence.{
  SessionTabRecord, FocusItemRecord, SessionSnapshot, first_id, has_record, restore_tabs,
  restore_items, activate_target, target_active_id, restore_session, reopened_tab, queue_item,
}
use Pages.{
  Page, shown, usable_record, recorded_page, or_else, shown-activate_tab, shown-restore_tabs,
}
use Items.{usable_item, recorded_item, find_item-restore_items}
use Invariant.{restore_items-IsDistinct, restored-Inv}

-- Whether a record has the id, however it is filled in.
abbrev pub IsRecorded : String → List SessionTabRecord → Type 0
IsRecorded id [] = ⊥
IsRecorded id (r ∷ rs) = (r.id ≡ id) ⊎ IsRecorded id rs

-- The snapshot was taken with this tab active: it names it; or it names none, or one without a
-- record, and this is the tab of its first record.
abbrev pub WasActive : SessionSnapshot → String → Type 0
WasActive p id =
    (p.active_tab_id ≡ some id)
    ⊎ ((first_id p.tabs ≡ some id)
        × ((p.active_tab_id ≡ none)
            ⊎ ((lost : String) × (p.active_tab_id ≡ some lost) × ¬ IsRecorded lost p.tabs)))

has_record-IsRecorded :
    (id : String) (rs : List SessionTabRecord) → has_record id rs ≡ true → IsRecorded id rs
unfolding has_record
has_record-IsRecorded id [] h = absurd (ground arith)
has_record-IsRecorded id (r ∷ rs) h = ground (arith, has_record-IsRecorded id rs)

has_record-usable :
    (id : String) (rs : List SessionTabRecord) (r : SessionTabRecord)
    → usable_record id rs ≡ some r
    → has_record id rs ≡ true
unfolding has_record
has_record-usable id [] r h = absurd (ground arith)
has_record-usable id (x ∷ rs) r h = ground (arith, has_record-usable id rs r)

target-WasActive :
    (p : SessionSnapshot) (id : String) (r : SessionTabRecord)
    → usable_record id p.tabs ≡ some r
    → WasActive p id
    → target_active_id p ≡ some id
unfolding target_active_id
target-WasActive p id r usable (inl named) = ground (arith, has_record-usable id p.tabs r)
target-WasActive p id r usable (inr (first, inl unnamed)) = ground arith
target-WasActive p id r usable (inr (first, inr (lost, named, gone))) =
    elim (Bool-cases (has_record lost p.tabs)) [
      | inl h ↦ absurd (gone (has_record-IsRecorded lost p.tabs h))
      | inr h ↦ ground arith
    ]

activate_tab-names :
    (s : BrowserSession) (id : String) (x : Page)
    → shown id s ≡ some x
    → (activate_tab s id).0.active_tab_id ≡ some id
unfolding activate_tab activate_found notify_observers
activate_tab-names s id x there = elim (Option-cases (find_tab id s.tabs)) [
  | inl e ↦ absurd (ground arith)
  | inr (t, e) ↦ ground (arith, Keyed.find-id tab_id id s.tabs t e)
]

module _ (s : BrowserSession) (q : FocusQueue) (p : SessionSnapshot) (rs : List SessionTabRecord)
    (id : String) where
  -- The session that is left names the tab, and it and the queue hold what they held and what is
  -- recorded.
  abbrev IsRestored : BrowserSession → FocusQueue → Type 0
  IsRestored s' q' =
      (s'.active_tab_id ≡ some id)
      × ((j : String)
          → shown j s' ≡ or_else (shown j s) (map_option recorded_page (usable_record j rs)))
      × ((k : String)
          → find_item k q'.items
            ≡ map_option (unbound_if_closed s') (
                or_else (find_item k q.items)
                  (map_option recorded_item (usable_item k p.focus_items))))

  shown-names :
      (r : SessionTabRecord) (o : BrowserSession)
      → usable_record id rs ≡ some r
      → shown id o ≡ or_else (shown id s) (map_option recorded_page (usable_record id rs))
      → (activate_tab o id).0.active_tab_id ≡ some id
  shown-names r o usable e = elim (Option-cases (shown id o)) [
    | inl h ↦ absurd (ground arith)
    | inr (y, h) ↦ activate_tab-names o id y h
  ]

  activate_target-IsRestored :
      (r : SessionTabRecord) (target : Option String)
      → some id ≡ target
      → IsDistinct q
      → usable_record id rs ≡ some r
      → let s' = activate_target target (restore_tabs target rs s) in
        IsRestored s' (synchronize_tab_closures s' (restore_items p.focus_items q))
  activate_target-IsRestored r target e d usable =
      let q' = restore_items p.focus_items q in
      let opened = restore_tabs (some id) rs s in
      let pages = shown-restore_tabs (some id) rs s in
      let s' = (activate_tab opened id).0 in
      subst
        (λ (g : Option String).
          let s' = activate_target g (restore_tabs g rs s) in
          IsRestored s' (synchronize_tab_closures s' q'))
        e
        (
          shown-names r opened usable (pages id),
          λ j. shown-activate_tab opened id j ∙ pages j,
          λ k.
              synchronize_tab_closures_lem s' q' k (restore_items-IsDistinct p.focus_items q d)
              ∙ ap (map_option (unbound_if_closed s')) (find_item-restore_items p.focus_items q k),
        )

restored_lem :
    (s : BrowserSession) (q : FocusQueue) (p : SessionSnapshot) (rs : List SessionTabRecord)
    (id : String) (r : SessionTabRecord)
    → IsDistinct q
    → usable_record id rs ≡ some r
    → WasActive (record p { tabs = rs }) id
    → let (s', q', done) = restore_session s q (record p { tabs = rs }) in
      (done ≡ true) × IsRestored s q p rs id s' q'
unfolding restore_session
restored_lem s q p [] id r d usable named = absurd (ground arith)
restored_lem s q p (x ∷ rs) id r d usable named =
    let target = target-WasActive (record p { tabs = x ∷ rs }) id r usable named in
    (refl, activate_target-IsRestored s q p (x ∷ rs) id r _ (sym target) d usable)

-- Into a session that keeps its invariant, with a queue of distinct ids, a snapshot is restored that
-- was taken with a tab active whose record has an id and an address; the rest of it may be
-- anything. That tab is the active one again. For each id, a tab that the session had keeps its page,
-- and otherwise the page of the first usable record is shown: its address, or the new-tab page for
-- the old placeholder, its title and its workspace, in a tab that is not private; no other tabs
-- appear. For each id, an item of the queue stays, and otherwise the first usable record's item is in
-- the queue; either is bound to its tab unless that is no longer there. The session keeps its
-- invariant, and in the queue no two items share an id.
pub restore_session_lem :
    (s : BrowserSession) (q : FocusQueue) (p : SessionSnapshot) (id : String) (r : SessionTabRecord)
    → Inv s
    → IsDistinct q
    → usable_record id p.tabs ≡ some r
    → WasActive p id
    → let (s', q', done) = restore_session s q p in
      (done ≡ true)
      × (s'.active_tab_id ≡ some id)
      × ((j : String)
          → shown j s' ≡ or_else (shown j s) (map_option recorded_page (usable_record j p.tabs)))
      × ((k : String)
          → find_item k q'.items
            ≡ map_option (unbound_if_closed s') (
                or_else
                  (find_item k q.items)
                  (map_option recorded_item (usable_item k p.focus_items))))
      × Inv s'
      × IsDistinct q'
restore_session_lem s q p id r v d usable named =
    let (done, (focus, pages, items)) = restored_lem s q p p.tabs id r d usable named in
    let (v', d') = restored-Inv s q p p.tabs v d in (done, focus, pages, items, v', d')
