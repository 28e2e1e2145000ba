-- ===== src/History/Recall.antt =====
-- The lists of entries that the history gives.
pub mod Meaning
pub mod Sorting
use openbrowser.Prelude.{
  ℕ, zero, suc, ◌+◌, min, String, ◌≡◌, refl, Bool, true, false, not, List, [], ◌∷◌, arith, ℕ_eq,
  if◌then◌else◌, Bool-cases, inl, inr, take, length, length-take, keep_if,
}
use openbrowser.Prelude.Bytes.{bytes}
use Meaning.{
  is_before_asym, is_before_trans, IsAbout, Outranks, is_before-Outranks, matches-IsAbout,
}
use openbrowser.History.{HistoryEntry, HistoryManager, matches, is_before, insert, sort, search}
use Sorting.{
  All, IsSorted, IsAhead, count, left_out, All-take, All-keep_if, All-sort, sort-IsSorted,
  take-IsSorted, take-IsAhead, count-take, length-sort, count-sort,
}

-- What holds of every entry, in the words of a specification.
abbrev pub Each : (HistoryEntry → Type 0) → List HistoryEntry → Type 0
Each P [] = Unit {0}
Each P (e ∷ es) = P e × Each P es

-- Every entry of the list outranks, or ties with, each later one.
abbrev pub IsRanked : List HistoryEntry → Type 0
IsRanked [] = Unit {0}
IsRanked (e ∷ es) = Each (Outranks e) es × IsRanked es

Each-All :
    (p : HistoryEntry → Bool) (P : HistoryEntry → Type 0)
    → ((e : HistoryEntry) → p e ≡ true → P e)
    → (es : List HistoryEntry) → All p es
    → Each P es
Each-All p P means [] a = tt
Each-All p P means (e ∷ es) (h, a) = (means e h, Each-All p P means es a)

All-Outranks :
    (x : HistoryEntry) (es : List HistoryEntry)
    → All (λ y. not (is_before y x)) es
    → Each (Outranks x) es
All-Outranks x es a =
    Each-All (λ y. not (is_before y x)) (Outranks x) (λ y h. is_before-Outranks x y (ground arith))
      es a

sorted-IsRanked : (es : List HistoryEntry) → IsSorted is_before es → IsRanked es
sorted-IsRanked [] s = tt
sorted-IsRanked (e ∷ es) (a, s) = (All-Outranks e es a, sorted-IsRanked es s)

ahead-Outranks :
    (xs ys : List HistoryEntry) → IsAhead is_before xs ys → Each (λ x. Each (Outranks x) ys) xs
ahead-Outranks [] ys a = tt
ahead-Outranks (x ∷ xs) ys (h, a) = (All-Outranks x ys h, ahead-Outranks xs ys a)

-- An entry matches a query that is empty or stands in its title or address, in any case of the
-- letters. `Search` shares out the entries that match among the ones it gives and the rest: of any
-- kind, the two have together as many as match. It gives as many as are asked for, or all if no
-- more match. Each that it gives matches, and was visited more often than each that comes later or
-- is left out, or as often and last at no earlier time.
pub search_lem :
    (h : HistoryManager) (query : String) (max_results : ℕ)
    → let found = search h query max_results in
      let kept = keep_if (matches (bytes query)) h.entries in
      ((e : HistoryEntry)
        → (matches (bytes query) e ≡ true → IsAbout (bytes query) e)
          × (IsAbout (bytes query) e → matches (bytes query) e ≡ true))
      × Each (IsAbout (bytes query)) found
      × (length found ≡ min max_results (length kept))
      × IsRanked found
      × ((rest : List HistoryEntry) × Each (λ x. Each (Outranks x) rest) found
          × ((p : HistoryEntry → Bool) → count p found + count p rest ≡ count p kept))
unfolding search
search_lem h query max_results =
    let kept = keep_if (matches (bytes query)) h.entries in
    let all = sort is_before kept in
    let sorted : IsSorted is_before all =
      sort-IsSorted is_before is_before_asym is_before_trans kept in
    let given : IsSorted is_before (take max_results all) =
      take-IsSorted is_before is_before_asym is_before_trans max_results all sorted in
    let about = matches-IsAbout (bytes query) in
    (
      about,
      Each-All (matches (bytes query)) (IsAbout (bytes query)) (λ e. (about e).0) _
          (All-take _ max_results all (All-sort _ is_before kept (All-keep_if _ h.entries))),
      omega (arith, length-take max_results all, length-sort is_before kept),
      sorted-IsRanked _ given,
      (
        left_out max_results all,
        ahead-Outranks _ _ (take-IsAhead is_before max_results all sorted),
        λ p. omega (arith, count-take p max_results all, count-sort p is_before kept),
      ),
    )
