-- ===== src/Persistence/Restore/Items.antt =====
-- The items of a queue, and those that `RestoreSession` adds to them.
use openbrowser.Prelude.Keyed
use openbrowser.Prelude.Keyed.{map_option}
use openbrowser.Prelude.{
  String, ◌≡◌, ◌||◌, ◌&&◌, not, Option, none, some, List, [], ◌∷◌, arith, ◌==◌, is_empty,
  Option-cases, inl, inr, string_eq, if◌then◌else◌,
}
use openbrowser.FocusQueue.{FocusQueue, FocusQueueItem, item_id, find_item, enqueue}
use openbrowser.Persistence.{FocusItemRecord, restore_items, queue_item}
use openbrowser.Persistence.Restore.Pages.{or_else}

-- The first record with the id and an address, if the id is one that an item can have.
abbrev pub usable_item : String → List FocusItemRecord → Option FocusItemRecord
usable_item id [] = none
usable_item id (r ∷ rs) =
    if r.id == id && not (is_empty r.id || is_empty r.url) then some r else usable_item id rs

abbrev pub recorded_item : FocusItemRecord → FocusQueueItem
recorded_item r = record {
  id = r.id;
  url = r.url;
  tab_id = r.tab_id;
  workspace_id = r.workspace_id;
  state = r.state;
}

find_item-enqueue :
    (q : FocusQueue) (i : FocusQueueItem) (k : String)
    → find_item i.id q.items ≡ none
    → find_item k (enqueue q i).0.items
      ≡ or_else
          (find_item k q.items)
          (if i.id == k && not (is_empty i.id || is_empty i.url) then some i else none)
unfolding enqueue
find_item-enqueue q i k free = ground (arith, Keyed.find-append item_id k q.items i)

pub find_item-restore_items :
    (rs : List FocusItemRecord) (q : FocusQueue) (k : String)
    → find_item k (restore_items rs q).items
      ≡ or_else (find_item k q.items) (map_option recorded_item (usable_item k rs))
unfolding restore_items
find_item-restore_items [] q k = ground arith
find_item-restore_items (r ∷ rs) q k = elim (Option-cases (find_item r.id q.items)) [
  | inl e ↦ ground (
    arith,
    find_item-restore_items rs (enqueue q (queue_item r)).0 k,
    find_item-enqueue q (queue_item r) k e,
  )
  | inr (t, e) ↦ ground (arith, find_item-restore_items rs q k)
]
