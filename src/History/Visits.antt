-- ===== src/History/Visits.antt =====
-- The history as a count of visits for each page and workspace.
use openbrowser.Prelude.Integers.{ℤ}
use openbrowser.Prelude.{
  ℕ, ◌+◌, ◌%◌, ◌^◌, ◌<◌, String, ◌≡◌, Bool, true, false, ◌&&◌, not, Option, List, [], ◌∷◌, ◌++◌,
  arith, ◌==◌, string_eq, ℕ_eq, is_empty, if◌then◌else◌, holds, keep_if, ◌∙◌,
}
use openbrowser.Session.{increment64}
use openbrowser.History.{
  workspace_eq, HistoryEntry, HistoryManager, create, trigger_auto_save, is_entry_of, has_entry,
  count_visit, new_entry, record_visit, clear_workspace_history,
}

-- The count of the entry for a page in a workspace, or in none.
unfoldable pub visits : String → Option String → List HistoryEntry → ℕ
visits url workspace_id [] = 0
visits url workspace_id (e ∷ es) =
    if is_entry_of url workspace_id e then e.visit_count else visits url workspace_id es

entries-trigger_auto_save : (h : HistoryManager) → (trigger_auto_save h).entries ≡ h.entries
unfolding trigger_auto_save
entries-trigger_auto_save h = ground arith

visits-count_visit :
    (u : String) (w : Option String) (now : ℤ) (url title : String) (workspace_id : Option String)
    (es : List HistoryEntry)
    → has_entry url workspace_id es ≡ true
    → visits u w (count_visit now url title workspace_id es)
      ≡ (if url == u && workspace_id == w then increment64 (visits u w es) else visits u w es)
unfolding visits count_visit has_entry
visits-count_visit u w now url title workspace_id [] h = ground arith
visits-count_visit u w now url title workspace_id (e ∷ es) h =
    ground (arith, visits-count_visit u w now url title workspace_id es)

visits-append :
    (u : String) (w : Option String) (n : ℕ) (now : ℤ) (url title : String)
    (workspace_id : Option String) (es : List HistoryEntry)
    → has_entry url workspace_id es ≡ false
    → visits u w (es ++ new_entry n now url title workspace_id ∷ [])
      ≡ (if url == u && workspace_id == w then increment64 (visits u w es) else visits u w es)
unfolding visits has_entry
visits-append u w n now url title workspace_id [] h = ground arith
visits-append u w n now url title workspace_id (e ∷ es) h =
    ground (arith, visits-append u w n now url title workspace_id es)

pub entries-record_visit :
    (h : HistoryManager) (now : ℤ) (url title : String) (workspace_id : Option String)
    → (record_visit h now url title workspace_id).entries ≡ (
        if is_empty url
        then h.entries
        else if has_entry url workspace_id h.entries
        then count_visit now url title workspace_id h.entries
        else h.entries ++ new_entry h.next_id now url title workspace_id ∷ [])
unfolding record_visit trigger_auto_save
entries-record_visit h now url title workspace_id = ground arith

visits-record_visit :
    (u : String) (w : Option String) (h : HistoryManager) (now : ℤ) (url title : String)
    (workspace_id : Option String)
    → visits u w (record_visit h now url title workspace_id).entries ≡ (
        if not (is_empty url) && (url == u && workspace_id == w)
        then increment64 (visits u w h.entries)
        else visits u w h.entries)
visits-record_visit u w h now url title workspace_id = ground (
  arith,
  entries-record_visit h now url title workspace_id,
  visits-count_visit u w now url title workspace_id h.entries,
  visits-append u w h.next_id now url title workspace_id h.entries,
)

-- A visit: when, where, under which title and in which workspace.
abbrev pub Visit : Type 0
Visit = ℤ × String × String × Option String

abbrev pub record_each : List Visit → HistoryManager → HistoryManager
record_each [] h = h
record_each (v ∷ vs) h = record_each vs (record_visit h v.0 v.1 v.2 v.3)

abbrev pub is_visit_of : String → Option String → Visit → Bool
is_visit_of u w v = not (is_empty v.1) && (v.1 == u && v.3 == w)

-- How many of the visits are to the page in the workspace.
abbrev pub times : String → Option String → List Visit → ℕ
times u w [] = 0
times u w (v ∷ vs) = if is_visit_of u w v then times u w vs + 1 else times u w vs

visits-record_each :
    (u : String) (w : Option String) (vs : List Visit) (h : HistoryManager)
    → visits u w h.entries < 2 ^ 64
    → visits u w (record_each vs h).entries ≡ (visits u w h.entries + times u w vs) % 2 ^ 64
visits-record_each u w [] h b = omega arith
visits-record_each u w ((now, url, title, workspace_id) ∷ vs) h b =
    let h' = record_visit h now url title workspace_id in
    let step = visits-record_visit u w h now url title workspace_id in
    let others = visits-record_each u w vs h' in ground (arith, step, others)

-- The count that an empty history has of a page in a workspace, after any sequence of recorded
-- visits, is the number of those visits that are to this page in this workspace, modulo 2^64:
-- visits to other pages, or to the page in another workspace, are counted apart, whatever the order
-- and the titles.
pub visits-times :
    (u : String) (w : Option String) (vs : List Visit)
    → visits u w (record_each vs create).entries ≡ times u w vs % 2 ^ 64
unfolding visits
visits-times u w vs = visits-record_each u w vs create (omega arith) ∙ omega arith

visits-keep_if :
    (u : String) (w : Option String) (workspace_id : String) (es : List HistoryEntry)
    → visits u w (keep_if (λ e. not (holds e.workspace_id workspace_id)) es)
      ≡ (if holds w workspace_id then 0 else visits u w es)
unfolding visits
visits-keep_if u w workspace_id [] = ground arith
visits-keep_if u w workspace_id (e ∷ es) = ground (arith, visits-keep_if u w workspace_id es)

-- Clearing the history of a workspace forgets every visit in it, and keeps the count of every page
-- in another workspace or in none.
pub visits-clear_workspace_history :
    (u : String) (w : Option String) (h : HistoryManager) (workspace_id : String)
    → visits u w (clear_workspace_history h workspace_id).entries
      ≡ (if holds w workspace_id then 0 else visits u w h.entries)
unfolding clear_workspace_history trigger_auto_save
visits-clear_workspace_history u w h workspace_id =
    ground (arith, visits-keep_if u w workspace_id h.entries)
