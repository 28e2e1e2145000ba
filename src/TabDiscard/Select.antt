-- ===== src/TabDiscard/Select.antt =====
-- Which tabs are selected.
use openbrowser.Prelude.Keyed
use openbrowser.Prelude.{
  ℕ, zero, suc, ◌≤◌, String, ◌≡◌, refl, sym, ◌∙◌, true, false, Option, none, some, List, [], ◌∷◌,
  arith, ◌==◌, ℕ_eq, string_eq, length, take, if◌then◌else◌, inl, inr, Option-cases,
}
use openbrowser.Tabs.{Tab}
use openbrowser.FocusQueue.{FocusQueue}
use openbrowser.Session.{BrowserSession}
use openbrowser.Session.TabList.{find_tab, Distinct}
use openbrowser.TabDiscard.{
  TabDiscardConfig, MemoryPressureLevel, CandidateEntry, entry_id, is_eligible, eligible_from,
  insert_sorted, sort, eligible_entries, selected_entries,
}

abbrev pub find_entry : String → List CandidateEntry → Option CandidateEntry
find_entry = Keyed.find entry_id

-- The entry that a tab gives, if it is eligible.
abbrev pub EntryOf :
    TabDiscardConfig
    → Option FocusQueue
    → Option String
    → Option Tab
    → Option CandidateEntry
    → Type 0
EntryOf c queue active_id none o = o ≡ none
EntryOf c queue active_id (some t) none = is_eligible c queue active_id t ≡ false
EntryOf c queue active_id (some t) (some e) =
    (is_eligible c queue active_id t ≡ true) × (e.lru_seq ≡ t.last_activated_sequence)

module _ (c : TabDiscardConfig) (queue : Option FocusQueue) (active_id : Option String) where
  find-eligible_from :
      (j : String) (i : ℕ) (ts : List Tab)
      → Distinct ts
      → EntryOf c queue active_id
          (find_tab j ts)
          (find_entry j (eligible_from c queue active_id i ts))
  unfolding eligible_from Keyed.find
  find-eligible_from j i [] d = refl
  find-eligible_from j i (t ∷ ts) d = ground (arith, find-eligible_from j (suc i) ts d.1)

  eligible_from-Distinct :
      (i : ℕ) (ts : List Tab)
      → Distinct ts
      → Keyed.Distinct entry_id (eligible_from c queue active_id i ts)
  unfolding eligible_from
  eligible_from-Distinct i [] d = tt
  eligible_from-Distinct i (t ∷ ts) d =
      ground (arith, eligible_from-Distinct (suc i) ts d.1, find-eligible_from t.id (suc i) ts d.1)

find-insert_sorted :
    (j : String) (e : CandidateEntry) (xs : List CandidateEntry)
    → find_entry e.id xs ≡ none
    → find_entry j (insert_sorted e xs) ≡ (if e.id == j then some e else find_entry j xs)
unfolding Keyed.find insert_sorted
find-insert_sorted j e [] h = refl
find-insert_sorted j e (x ∷ xs) h = ground (arith, find-insert_sorted j e xs)

insert_sorted-Distinct :
    (e : CandidateEntry) (xs : List CandidateEntry)
    → find_entry e.id xs ≡ none
    → Keyed.Distinct entry_id xs
    → Keyed.Distinct entry_id (insert_sorted e xs)
unfolding Keyed.find insert_sorted
insert_sorted-Distinct e [] h d = (refl, tt)
insert_sorted-Distinct e (x ∷ xs) h d =
    ground (arith, insert_sorted-Distinct e xs, find-insert_sorted x.id e xs)

find-sort :
    (j : String) (xs : List CandidateEntry)
    → Keyed.Distinct entry_id xs
    → find_entry j (sort xs) ≡ find_entry j xs
unfolding Keyed.find sort
find-sort j [] d = refl
find-sort j (x ∷ xs) d =
    ground (arith, find-sort j xs d.1, find-sort x.id xs d.1, find-insert_sorted j x (sort xs))

sort-Distinct :
    (xs : List CandidateEntry) → Keyed.Distinct entry_id xs → Keyed.Distinct entry_id (sort xs)
unfolding sort
sort-Distinct [] d = tt
sort-Distinct (x ∷ xs) d =
    ground (arith, sort-Distinct xs d.1, find-sort x.id xs d.1, insert_sorted-Distinct x (sort xs))

find-take :
    (j : String) (n : ℕ) (xs : List CandidateEntry) (e : CandidateEntry)
    → find_entry j (take n xs) ≡ some e
    → find_entry j xs ≡ some e
unfolding Keyed.find
find-take j zero xs e h = ground arith
find-take j (suc n) [] e h = h
find-take j (suc n) (x ∷ xs) e h = ground (arith, find-take j n xs e)

take-Distinct :
    (n : ℕ) (xs : List CandidateEntry)
    → Keyed.Distinct entry_id xs
    → Keyed.Distinct entry_id (take n xs)
take-Distinct zero xs d = tt
take-Distinct (suc n) [] d = tt
take-Distinct (suc n) (x ∷ xs) d = (missing x.id n xs d.0, take-Distinct n xs d.1)
  where
    missing :
        (j : String) (k : ℕ) (ys : List CandidateEntry)
        → find_entry j ys ≡ none
        → find_entry j (take k ys) ≡ none
    missing j k ys h = elim (Option-cases (find_entry j (take k ys))) [
      | inl e ↦ e
      | inr (e, p) ↦ absurd (ground (arith, find-take j k ys e))
    ]

-- No entry of the list was activated before `n`.
abbrev AllSince : ℕ → List CandidateEntry → Type 0
AllSince n [] = Unit {0}
AllSince n (x ∷ xs) = (n ≤ x.lru_seq) × AllSince n xs

abbrev IsSorted : List CandidateEntry → Type 0
IsSorted [] = Unit {0}
IsSorted (x ∷ xs) = AllSince x.lru_seq xs × IsSorted xs

AllSince-mono : (m n : ℕ) (xs : List CandidateEntry) → m ≤ n → AllSince n xs → AllSince m xs
AllSince-mono m n [] le a = tt
AllSince-mono m n (x ∷ xs) le a = (omega arith, AllSince-mono m n xs le a.1)

AllSince-insert_sorted :
    (n : ℕ) (e : CandidateEntry) (xs : List CandidateEntry)
    → n ≤ e.lru_seq
    → AllSince n xs
    → AllSince n (insert_sorted e xs)
unfolding insert_sorted
AllSince-insert_sorted n e [] le a = (le, tt)
AllSince-insert_sorted n e (x ∷ xs) le a = ground (arith, AllSince-insert_sorted n e xs le a.1)

insert_sorted-IsSorted :
    (e : CandidateEntry) (xs : List CandidateEntry) → IsSorted xs → IsSorted (insert_sorted e xs)
unfolding insert_sorted
insert_sorted-IsSorted e [] h = (tt, tt)
insert_sorted-IsSorted e (x ∷ xs) h = ground (
  arith,
  insert_sorted-IsSorted e xs h.1,
  AllSince-insert_sorted x.lru_seq e xs,
  AllSince-mono e.lru_seq x.lru_seq xs,
)

sort-IsSorted : (xs : List CandidateEntry) → IsSorted (sort xs)
unfolding sort
sort-IsSorted [] = tt
sort-IsSorted (x ∷ xs) = insert_sorted-IsSorted x (sort xs) (sort-IsSorted xs)

AllSince-find :
    (n : ℕ) (k : String) (xs : List CandidateEntry) (b : CandidateEntry)
    → AllSince n xs
    → find_entry k xs ≡ some b
    → n ≤ b.lru_seq
unfolding Keyed.find
AllSince-find n k [] b a h = ground arith
AllSince-find n k (x ∷ xs) b a h = ground (arith, AllSince-find n k xs b a.1)

take-oldest :
    (n : ℕ) (xs : List CandidateEntry) (j k : String) (a b : CandidateEntry)
    → IsSorted xs
    → find_entry j (take n xs) ≡ some a
    → find_entry k xs ≡ some b
    → find_entry k (take n xs) ≡ none
    → a.lru_seq ≤ b.lru_seq
unfolding Keyed.find
take-oldest zero xs j k a b s ha hb miss = ground arith
take-oldest (suc n) [] j k a b s ha hb miss = ground arith
take-oldest (suc n) (x ∷ xs) j k a b s ha hb miss =
    ground (arith, take-oldest n xs j k a b s.1, AllSince-find x.lru_seq k xs b s.0)

length-insert_sorted :
    (e : CandidateEntry) (xs : List CandidateEntry) → length (insert_sorted e xs) ≡ suc (length xs)
unfolding insert_sorted
length-insert_sorted e [] = refl
length-insert_sorted e (x ∷ xs) = ground (arith, length-insert_sorted e xs)

length-sort : (xs : List CandidateEntry) → length (sort xs) ≡ length xs
unfolding sort
length-sort [] = refl
length-sort (x ∷ xs) = omega (arith, length-insert_sorted x (sort xs), length-sort xs)

module _ (c : TabDiscardConfig) (s : BrowserSession) (queue : Option FocusQueue)
    (level : MemoryPressureLevel) (distinct : Distinct s.tabs) where
  entries-Distinct : Keyed.Distinct entry_id (eligible_entries c s queue)
  unfolding eligible_entries
  entries-Distinct = eligible_from-Distinct c queue s.active_tab_id 0 s.tabs distinct

  pub selected_entries-Distinct : Keyed.Distinct entry_id (selected_entries c s queue level)
  unfolding selected_entries
  selected_entries-Distinct =
      take-Distinct _ _ (sort-Distinct (eligible_entries c s queue) entries-Distinct)

  selected-in-eligible :
      (j : String) (e : CandidateEntry)
      → find_entry j (selected_entries c s queue level) ≡ some e
      → find_entry j (eligible_entries c s queue) ≡ some e
  unfolding selected_entries
  selected-in-eligible j e h =
      sym (find-sort j (eligible_entries c s queue) entries-Distinct) ∙ find-take j _ _ e h

  -- In a session whose tabs have distinct ids, a selected id is that of a tab of the session
  -- that is not discarded, not the active one and not protected; the entry carries its last
  -- activation.
  pub selected_eligible :
      (j : String) (e : CandidateEntry)
      → find_entry j (selected_entries c s queue level) ≡ some e
      → (t : Tab) × (find_tab j s.tabs ≡ some t)
        × (is_eligible c queue s.active_tab_id t ≡ true)
        × (e.lru_seq ≡ t.last_activated_sequence)
  unfolding eligible_entries
  selected_eligible j e h =
      let kept = selected-in-eligible j e h in
      let origin = find-eligible_from c queue s.active_tab_id j 0 s.tabs distinct in
      elim (Option-cases (find_tab j s.tabs)) [
        | inl missing ↦ absurd (ground (arith, origin, kept))
        | inr (t, found) ↦ (t, found, ground (arith, origin, kept), ground (arith, origin, kept))
      ]

  -- In a session whose tabs have distinct ids, a selected tab was activated no later than any
  -- eligible tab that is not selected.
  pub selected_oldest :
      (j k : String) (a : CandidateEntry) (t : Tab)
      → find_entry j (selected_entries c s queue level) ≡ some a
      → find_tab k s.tabs ≡ some t
      → is_eligible c queue s.active_tab_id t ≡ true
      → find_entry k (selected_entries c s queue level) ≡ none
      → a.lru_seq ≤ t.last_activated_sequence
  unfolding eligible_entries selected_entries
  selected_oldest j k a t ha hk eligible miss =
      let origin = find-eligible_from c queue s.active_tab_id k 0 s.tabs distinct in
      let entries = eligible_entries c s queue in
      elim (Option-cases (find_entry k entries)) [
        | inl missing ↦ absurd (ground (arith, origin, hk, eligible, missing))
        | inr (b, found) ↦
            let older : a.lru_seq ≤ b.lru_seq =
              take-oldest _ (sort entries) j k a b (sort-IsSorted entries) ha
                (find-sort k entries entries-Distinct ∙ found) miss in
            ground (arith, origin, hk, found, older)
      ]
