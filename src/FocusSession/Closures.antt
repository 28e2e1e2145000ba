-- ===== src/FocusSession/Closures.antt =====
-- The queue's items after tabs were closed.
use openbrowser.Prelude.{
  String, ◌≡◌, refl, Bool, false, Option, none, some, List, [], ◌∷◌, arith, ◌==◌, string_eq,
  if◌then◌else◌,
}
use openbrowser.Prelude.Keyed
use openbrowser.Prelude.Keyed.{map_option}
use openbrowser.Session.{BrowserSession}
use openbrowser.FocusQueue.{FocusQueueItem, FocusQueue, item_id, find_item, set_tab_id}
use openbrowser.FocusQueue.Laws.{IsDistinct}
use openbrowser.FocusSession.{is_closed, unbind_closed, synchronize_tab_closures}

abbrev pub unbound : FocusQueueItem → FocusQueueItem
unbound i = record i { tab_id = none }

-- An item that is bound to no tab, or to one that the session has, as it is.
abbrev pub unbound_if_closed : BrowserSession → FocusQueueItem → FocusQueueItem
unbound_if_closed s i = if is_closed s i.tab_id then unbound i else i

abbrev pub closed_item : BrowserSession → Option FocusQueueItem → Bool
closed_item s none = false
closed_item s (some i) = is_closed s i.tab_id

find_item-set_tab_id :
    (q : FocusQueue) (id j : String)
    → find_item j (set_tab_id q id none).0.items
      ≡ (if id == j then map_option unbound (find_item j q.items) else find_item j q.items)
unfolding set_tab_id Keyed.find
find_item-set_tab_id q id j =
    ground (arith, Keyed.find-modify item_id id unbound (λ _. refl) j q.items)

unbind_closed_lem :
    (s : BrowserSession) (is : List FocusQueueItem) (q : FocusQueue) (j : String)
    → Keyed.Distinct item_id is
    → find_item j (unbind_closed s is q).items ≡ (
        if closed_item s (find_item j is)
        then map_option unbound (find_item j q.items)
        else find_item j q.items)
unfolding unbind_closed Keyed.find
unbind_closed_lem s [] q j d = refl
unbind_closed_lem s (i ∷ is) q j d = ground (
  arith,
  unbind_closed_lem s is (set_tab_id q i.id none).0 j d.1,
  unbind_closed_lem s is q j d.1,
  find_item-set_tab_id q i.id j,
)

-- In a queue whose items have distinct ids, `SynchronizeTabClosures` takes the tab from just the
-- items that are bound to a tab that the session no longer has, and leaves every other item as it
-- is.
pub synchronize_tab_closures_lem :
    (s : BrowserSession) (q : FocusQueue) (j : String)
    → IsDistinct q
    → find_item j (synchronize_tab_closures s q).items
      ≡ map_option (unbound_if_closed s) (find_item j q.items)
unfolding synchronize_tab_closures
synchronize_tab_closures_lem s q j d = ground (arith, unbind_closed_lem s q.items q j d)
