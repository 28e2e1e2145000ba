-- ===== src/TabDiscard.antt =====
-- core/session/tab_discard_policy.h and tab_discard_policy.cpp: which background tabs are
-- discarded under memory pressure. `std::sort` is an insertion sort: the order is total.
pub mod Select
pub mod Enforce
use openbrowser.Prelude.{
  ℕ, zero, suc, ◌+◌, ◌-◌, ◌/◌, min, String, Bool, true, false, ◌&&◌, ◌||◌, not, Option, List, [],
  ◌∷◌, map, ltb, ◌==◌, ℕ_eq, string_eq, holds, is_empty, length, take, if◌then◌else◌,
}
use openbrowser.Tabs.{Tab, is_discarded}
use openbrowser.FocusQueue.{FocusQueue, FocusQueueItem, is_now}
use openbrowser.Session.{BrowserSession}
use openbrowser.Session.Navigation.{discard_tab}

pub data MemoryPressureLevel : Type 0 where
  none moderate critical : MemoryPressureLevel

pub record TabDiscardConfig : Type 0 where
  pub max_alive_background_tabs : ℕ
  pub protect_focus_queue_now : Bool
  pub protect_playing_audio : Bool

pub record CandidateEntry : Type 0 where
  pub id : String
  pub lru_seq : ℕ
  pub original_index : ℕ

abbrev pub entry_id : CandidateEntry → String
entry_id e = e.id

-- The item is being worked on, and stands for the tab by its id or by its page.
unfoldable pub is_focus_on : Tab → FocusQueueItem → Bool
is_focus_on t i =
    is_now i.state && (holds i.tab_id t.id || (not (is_empty i.url) && i.url == t.url))

unfoldable pub is_active_focus : Tab → List FocusQueueItem → Bool
unfolding is_focus_on
is_active_focus t [] = false
is_active_focus t (i ∷ is) = is_focus_on t i || is_active_focus t is

abbrev pub in_focus : Tab → Option FocusQueue → Bool
in_focus t Option.none = false
in_focus t (Option.some q) = is_active_focus t q.items

-- Neither discarded nor the active tab.
unfoldable pub is_alive_background : Option String → Tab → Bool
is_alive_background active_id t = not (is_discarded t.lifecycle) && not (holds active_id t.id)

unfoldable pub is_protected : TabDiscardConfig → Option FocusQueue → Tab → Bool
is_protected c queue t =
    (c.protect_playing_audio && t.is_playing_audio)
    || (c.protect_focus_queue_now && in_focus t queue)

unfoldable pub is_eligible : TabDiscardConfig → Option FocusQueue → Option String → Tab → Bool
is_eligible c queue active_id t = is_alive_background active_id t && not (is_protected c queue t)

-- The loop over the tabs, from the index `i` on.
unfoldable pub eligible_from :
    TabDiscardConfig → Option FocusQueue → Option String → ℕ → List Tab → List CandidateEntry
eligible_from c queue active_id i [] = []
eligible_from c queue active_id i (t ∷ ts) =
    let rest = eligible_from c queue active_id (suc i) ts in
    if is_eligible c queue active_id t
    then record { id = t.id; lru_seq = t.last_activated_sequence; original_index = i } ∷ rest
    else rest

unfoldable pub total_alive_background : Option String → List Tab → ℕ
total_alive_background active_id [] = 0
total_alive_background active_id (t ∷ ts) =
    let rest = total_alive_background active_id ts in
    if is_alive_background active_id t then suc rest else rest

unfoldable pub is_before : CandidateEntry → CandidateEntry → Bool
is_before a b =
    if a.lru_seq == b.lru_seq
    then ltb a.original_index b.original_index
    else ltb a.lru_seq b.lru_seq

unfoldable pub insert_sorted : CandidateEntry → List CandidateEntry → List CandidateEntry
unfolding is_before
insert_sorted e [] = e ∷ []
insert_sorted e (x ∷ xs) = if is_before x e then x ∷ insert_sorted e xs else e ∷ x ∷ xs

unfoldable pub sort : List CandidateEntry → List CandidateEntry
unfolding insert_sorted
sort [] = []
sort (e ∷ es) = insert_sorted e (sort es)

unfoldable pub discard_count : TabDiscardConfig → MemoryPressureLevel → ℕ → ℕ → ℕ
discard_count c critical eligible alive = eligible
discard_count c moderate eligible alive =
    let target_max = c.max_alive_background_tabs / 2 in
    if ltb target_max alive then min eligible (alive - target_max) else 0
discard_count c none eligible alive =
    if ltb c.max_alive_background_tabs alive
    then min eligible (alive - c.max_alive_background_tabs)
    else 0

unfoldable pub eligible_entries :
    TabDiscardConfig → BrowserSession → Option FocusQueue → List CandidateEntry
unfolding eligible_from
eligible_entries c s queue = eligible_from c queue s.active_tab_id 0 s.tabs

unfoldable pub selected_entries :
    TabDiscardConfig
    → BrowserSession
    → Option FocusQueue
    → MemoryPressureLevel
    → List CandidateEntry
selected_entries c s queue level =
    let eligible = eligible_entries c s queue in
    let alive = total_alive_background s.active_tab_id s.tabs in
    take (discard_count c level (length eligible) alive) (sort eligible)

unfoldable pub select_discard_candidates :
    TabDiscardConfig → BrowserSession → Option FocusQueue → MemoryPressureLevel → List String
unfolding selected_entries
select_discard_candidates c s queue level = map entry_id (selected_entries c s queue level)

-- The loop of `Enforce`: the session, and how many tabs were discarded.
unfoldable pub discard_all : BrowserSession → ℕ → List String → BrowserSession × ℕ
discard_all s discarded [] = (s, discarded)
discard_all s discarded (id ∷ ids) =
    let (s', done) = discard_tab s id in
    discard_all s' (if done then suc discarded else discarded) ids

unfoldable pub enforce :
    TabDiscardConfig → BrowserSession → Option FocusQueue → MemoryPressureLevel → BrowserSession × ℕ
enforce c s queue level = discard_all s 0 (select_discard_candidates c s queue level)
