-- ===== src/FocusQueue.antt =====
-- core/focus_queue/focus_queue.h and focus_queue.cpp: the queue of pages to work on, in order.
pub mod Laws
use openbrowser.Prelude.{
  ℕ, zero, suc, String, Bool, true, false, ◌||◌, not, Option, none, some, List, [], ◌∷◌, ◌++◌, map,
  ltb, leb, ◌==◌, ℕ_eq, string_eq, is_empty, length, if◌then◌else◌,
}
use openbrowser.Prelude.Keyed.{find, modify, erase, index_of, insert_at}

pub data FocusState : Type 0 where
  now next later paused : FocusState

pub record FocusQueueItem : Type 0 where
  pub id : String
  pub url : String
  pub tab_id : Option String
  pub workspace_id : Option String
  pub state : FocusState

pub record FocusQueue : Type 0 where
  pub items : List FocusQueueItem

abbrev pub item_id : FocusQueueItem → String
item_id i = i.id

abbrev pub find_item : String → List FocusQueueItem → Option FocusQueueItem
find_item = find item_id

abbrev pub contains : FocusQueue → String → Bool
contains q id = elim (find_item id q.items) [ none ↦ false | some _ ↦ true ]

unfoldable pub enqueue : FocusQueue → FocusQueueItem → FocusQueue × Bool
enqueue q item =
    if is_empty item.id || (is_empty item.url || contains q item.id)
    then (q, false)
    else (record { items = q.items ++ item ∷ [] }, true)

unfoldable pub remove : FocusQueue → String → FocusQueue × Bool
remove q id = elim (find_item id q.items) [
  | none ↦ (q, false)
  | some _ ↦ (record { items = erase item_id id q.items }, true)
]

unfoldable pub move : FocusQueue → String → ℕ → FocusQueue × Bool
move q id new_index =
    if leb (length q.items) new_index then (q, false) else elim (find_item id q.items) [
      | none ↦ (q, false)
      | some item ↦
          if index_of item_id id q.items == new_index
          then (q, true)
          else (record { items = insert_at new_index item (erase item_id id q.items) }, true)
    ]

abbrev pub with_state : FocusState → FocusQueueItem → FocusQueueItem
with_state st i = record i { state = st }

unfoldable pub set_state : FocusQueue → String → FocusState → FocusQueue × Bool
set_state q id st = elim (find_item id q.items) [
  | none ↦ (q, false)
  | some _ ↦ (record { items = modify item_id id (with_state st) q.items }, true)
]

unfoldable pub set_tab_id : FocusQueue → String → Option String → FocusQueue × Bool
set_tab_id q id tab = elim (find_item id q.items) [
  | none ↦ (q, false)
  | some _ ↦ (record { items = modify item_id id (λ i. record i { tab_id = tab }) q.items }, true)
]

abbrev pub is_now : FocusState → Bool
is_now now = true
is_now _ = false

unfoldable pub step_back : FocusQueueItem → FocusQueueItem
step_back i = if is_now i.state then with_state next i else i

unfoldable pub promote_to_now : FocusQueue → String → FocusQueue × Bool
unfolding step_back
promote_to_now q id = elim (find_item id q.items) [
  | none ↦ (q, false)
  | some _ ↦
      move (record { items = modify item_id id (with_state now) (map step_back q.items) }) id 0
]
