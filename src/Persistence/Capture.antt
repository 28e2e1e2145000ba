-- ===== src/Persistence/Capture.antt =====
-- What a captured snapshot holds of the session.
use openbrowser.Prelude.{
  String, ◌≡◌, refl, Bool, true, false, Option, none, some, List, [], ◌∷◌, arith, string_eq,
  Bool-cases, inl, inr, not,
}
use openbrowser.Prelude.Keyed
use openbrowser.Tabs.{Tab}
use openbrowser.FocusQueue.{FocusQueueItem, FocusQueue}
use openbrowser.Session.{BrowserSession}
use openbrowser.Session.TabList.{find_tab, Distinct}
use openbrowser.Persistence.{
  SessionTabRecord, FocusItemRecord, capture_tabs, first_id, capture_active, on_private_tab,
  capture_items, capture_snapshot, has_record,
}

abbrev pub is_persistent : Option Tab → Bool
is_persistent none = false
is_persistent (some t) = not t.is_ephemeral

has_record-capture_tabs :
    (id : String) (ts : List Tab)
    → Distinct ts
    → has_record id (capture_tabs ts) ≡ is_persistent (find_tab id ts)
unfolding has_record capture_tabs Keyed.find
has_record-capture_tabs id [] d = refl
has_record-capture_tabs id (t ∷ ts) d = ground (arith, has_record-capture_tabs id ts d.1)

first_id-has_record :
    (id : String) (rs : List SessionTabRecord) → first_id rs ≡ some id → has_record id rs ≡ true
unfolding has_record
first_id-has_record id [] e = ground arith
first_id-has_record id (r ∷ rs) e = ground arith

capture_active-has_record :
    (s : BrowserSession) (id : String)
    → Distinct s.tabs
    → capture_active s (capture_tabs s.tabs) ≡ some id
    → has_record id (capture_tabs s.tabs) ≡ true
unfolding capture_active
capture_active-has_record s id d e =
    ground
      (arith, first_id-has_record id (capture_tabs s.tabs), has_record-capture_tabs id s.tabs d)

-- No item of the list is bound to a private tab.
abbrev pub AllPublic : BrowserSession → List FocusItemRecord → Type 0
AllPublic s [] = Unit {0}
AllPublic s (r ∷ rs) = (on_private_tab s r.tab_id ≡ false) × AllPublic s rs

capture_items-AllPublic :
    (s : BrowserSession) (is : List FocusQueueItem) → AllPublic s (capture_items s is)
unfolding capture_items
capture_items-AllPublic s [] = tt
capture_items-AllPublic s (i ∷ is) = elim (Bool-cases (on_private_tab s i.tab_id)) [
  | inl e ↦ rw e (capture_items-AllPublic s is)
  | inr e ↦ rw e (e, capture_items-AllPublic s is)
]

-- Of a session whose tabs have distinct ids, a snapshot has a record for just the tabs that are not
-- private; the active tab that it names, if it names one, is among its records; and no queue item
-- in it is bound to a private tab.
pub capture_snapshot_lem :
    (s : BrowserSession) (q : FocusQueue) (clean_shutdown : Bool)
    → Distinct s.tabs
    → let p = capture_snapshot s q clean_shutdown in
      ((id : String) → has_record id p.tabs ≡ is_persistent (find_tab id s.tabs))
      × ((id : String) → p.active_tab_id ≡ some id → has_record id p.tabs ≡ true)
      × AllPublic s p.focus_items
unfolding capture_snapshot
capture_snapshot_lem s q clean_shutdown d = (
  λ id. has_record-capture_tabs id s.tabs d,
  λ id e. capture_active-has_record s id d e,
  capture_items-AllPublic s q.items,
)
