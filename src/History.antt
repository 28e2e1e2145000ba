-- ===== src/History.antt =====
-- core/history/history_manager.h and history_manager.cpp: the pages that were visited, with a count
-- for each. The time in milliseconds, which the clock gives, is an argument. Each save to a file is
-- an entry in a log. `std::sort` is an insertion sort: the order that the standard leaves open, that
-- of elements of which neither is before the other, is the one of the list.
pub mod Document
pub mod Bridge
pub mod Visits
pub mod Recall
pub mod Privacy
use mathlib.Core.Option.{discrete}
use openbrowser.Prelude.Bytes.{Bytes, bytes, lower, split_at}
use openbrowser.Prelude.{
  ℕ, ◌+◌, String, Bool, true, false, ◌||◌, ◌&&◌, not, Option, none, some, List, [], ◌∷◌, ◌++◌, ltb,
  ◌==◌, Eq, ℕ_eq, string_eq, string_discrete, is_empty, if◌then◌else◌, holds, keep_if, take, length,
  to_string, ◌<>◌,
}
use openbrowser.Prelude.Integers.{ℤ, int_ltb}
use openbrowser.Session.{increment64}

instance abbrev pub workspace_eq : Eq (Option String)
workspace_eq = record { discrete = discrete string_discrete }

pub record HistoryEntry : Type 0 where
  pub id : String
  pub url : String
  pub title : String
  pub last_visit_time_ms : ℤ  -- int64
  pub visit_count : ℕ  -- size_t
  pub workspace_id : Option String

pub record HistoryManager : Type 0 where
  pub entries : List HistoryEntry
  pub next_id : ℕ  -- size_t
  pub auto_save_path : String
  pub saves : List (String × List HistoryEntry)  -- the calls of SaveToFile

abbrev pub create : HistoryManager
create = record { entries = []; next_id = 1; auto_save_path = ""; saves = [] }

abbrev pub set_auto_save_path : HistoryManager → String → HistoryManager
set_auto_save_path h path = record h { auto_save_path = path }

unfoldable pub trigger_auto_save : HistoryManager → HistoryManager
trigger_auto_save h =
    if is_empty h.auto_save_path
    then h
    else record h { saves = h.saves ++ (h.auto_save_path, h.entries) ∷ [] }

abbrev pub is_entry_of : String → Option String → HistoryEntry → Bool
is_entry_of url workspace_id e = e.url == url && e.workspace_id == workspace_id

unfoldable pub has_entry : String → Option String → List HistoryEntry → Bool
has_entry url workspace_id [] = false
has_entry url workspace_id (e ∷ es) =
    is_entry_of url workspace_id e || has_entry url workspace_id es

abbrev pub visited_again : ℤ → String → HistoryEntry → HistoryEntry
visited_again now title e = record e {
  visit_count = increment64 e.visit_count;
  last_visit_time_ms = now;
  title = if is_empty title then e.title else title;
}

-- The write through the iterator that the search gave.
unfoldable pub count_visit :
    ℤ → String → String → Option String → List HistoryEntry → List HistoryEntry
count_visit now url title workspace_id [] = []
count_visit now url title workspace_id (e ∷ es) =
    if is_entry_of url workspace_id e
    then visited_again now title e ∷ es
    else e ∷ count_visit now url title workspace_id es

abbrev pub new_entry : ℕ → ℤ → String → String → Option String → HistoryEntry
new_entry n now url title workspace_id = record {
  id = "hist-" <> to_string n;
  url = url;
  title = if is_empty title then url else title;
  last_visit_time_ms = now;
  visit_count = 1;
  workspace_id = workspace_id;
}

unfoldable pub record_visit : HistoryManager → ℤ → String → String → Option String → HistoryManager
unfolding trigger_auto_save
record_visit h now url title workspace_id =
    if is_empty url
    then h
    else trigger_auto_save (
        if has_entry url workspace_id h.entries
        then record h { entries = count_visit now url title workspace_id h.entries }
        else record h {
          entries = h.entries ++ new_entry h.next_id now url title workspace_id ∷ [];
          next_id = increment64 h.next_id;
        })

unfoldable pub has_id : String → List HistoryEntry → Bool
has_id id [] = false
has_id id (e ∷ es) = e.id == id || has_id id es

unfoldable pub remove_entry : HistoryManager → String → HistoryManager × Bool
unfolding trigger_auto_save
remove_entry h entry_id =
    if has_id entry_id h.entries
    then (
      trigger_auto_save (record h { entries = keep_if (λ e. not (e.id == entry_id)) h.entries }),
      true,
    )
    else (h, false)

-- `find(…) != npos` of the text in lower case.
abbrev pub has_text : Bytes → Bytes → Bool
has_text pattern s = elim (split_at pattern (lower s)) [ none ↦ false | some _ ↦ true ]

abbrev pub matches : Bytes → HistoryEntry → Bool
matches query e =
    length query == 0
    || (has_text (lower query) (bytes e.title) || has_text (lower query) (bytes e.url))

-- The two orders.
abbrev pub is_before : HistoryEntry → HistoryEntry → Bool
is_before a b =
    if a.visit_count == b.visit_count
    then int_ltb b.last_visit_time_ms a.last_visit_time_ms
    else ltb b.visit_count a.visit_count

abbrev pub is_later : HistoryEntry → HistoryEntry → Bool
is_later a b = int_ltb b.last_visit_time_ms a.last_visit_time_ms

module _ (before : HistoryEntry → HistoryEntry → Bool) where
  unfoldable pub insert : HistoryEntry → List HistoryEntry → List HistoryEntry
  insert e [] = e ∷ []
  insert e (x ∷ xs) = if before x e then x ∷ insert e xs else e ∷ x ∷ xs

  unfoldable pub sort : List HistoryEntry → List HistoryEntry
  unfolding insert
  sort [] = []
  sort (e ∷ es) = insert e (sort es)

unfoldable pub search : HistoryManager → String → ℕ → List HistoryEntry
unfolding sort
search h query max_results =
    take max_results (sort is_before (keep_if (matches (bytes query)) h.entries))

unfoldable pub list_history : HistoryManager → ℕ → List HistoryEntry
unfolding sort
list_history h limit = take limit (sort is_later h.entries)

unfoldable pub clear_history : HistoryManager → HistoryManager
unfolding trigger_auto_save
clear_history h = trigger_auto_save (record h { entries = [] })

unfoldable pub clear_workspace_history : HistoryManager → String → HistoryManager
unfolding trigger_auto_save
clear_workspace_history h workspace_id =
    trigger_auto_save
      (record h { entries = keep_if (λ e. not (holds e.workspace_id workspace_id)) h.entries })

abbrev pub total_entries : HistoryManager → ℕ
total_entries h = length h.entries
