-- ===== src/History/Recall/Sorting.antt =====
-- The order of `Search`, and what is cut off: insertion sort and a prefix of the result.
use openbrowser.Prelude.{
  ℕ, zero, suc, ◌+◌, ◌≡◌, refl, Bool, true, false, not, List, [], ◌∷◌, arith, ℕ_eq, if◌then◌else◌,
  Bool-cases, inl, inr, take, length, keep_if,
}
use openbrowser.History.{HistoryEntry, insert, sort}

-- What holds of every entry of a list.
abbrev pub All : (HistoryEntry → Bool) → List HistoryEntry → Type 0
All p [] = Unit {0}
All p (e ∷ es) = (p e ≡ true) × All p es

-- No entry of the list is before an earlier one.
abbrev pub IsSorted : (HistoryEntry → HistoryEntry → Bool) → List HistoryEntry → Type 0
IsSorted before [] = Unit {0}
IsSorted before (e ∷ es) = All (λ x. not (before x e)) es × IsSorted before es

-- How many of the entries have a property.
abbrev pub count : (HistoryEntry → Bool) → List HistoryEntry → ℕ
count p [] = 0
count p (e ∷ es) = if p e then count p es + 1 else count p es

module _ (p : HistoryEntry → Bool) where
  pub All-take : (n : ℕ) (es : List HistoryEntry) → All p es → All p (take n es)
  All-take zero es a = tt
  All-take (suc n) [] a = tt
  All-take (suc n) (e ∷ es) (h, a) = (h, All-take n es a)

  pub All-keep_if : (es : List HistoryEntry) → All p (keep_if p es)
  All-keep_if [] = tt
  All-keep_if (e ∷ es) = elim (Bool-cases (p e)) [
    | inl h ↦ rw h (h, All-keep_if es)
    | inr h ↦ rw h (All-keep_if es)
  ]

  module _ (before : HistoryEntry → HistoryEntry → Bool) where
    All-insert :
        (e : HistoryEntry) (es : List HistoryEntry)
        → p e ≡ true
        → All p es
        → All p (insert before e es)
    unfolding insert
    All-insert e [] h a = (h, tt)
    All-insert e (x ∷ xs) h a = ground (arith, All-insert e xs h a.1)

    pub All-sort : (es : List HistoryEntry) → All p es → All p (sort before es)
    unfolding sort
    All-sort [] a = tt
    All-sort (e ∷ es) (h, a) = All-insert e (sort before es) h (All-sort es a)

    count-insert :
        (e : HistoryEntry) (es : List HistoryEntry)
        → count p (insert before e es) ≡ count p (e ∷ es)
    unfolding insert
    count-insert e [] = refl
    count-insert e (x ∷ xs) = ground (arith, count-insert e xs)

    pub count-sort : (es : List HistoryEntry) → count p (sort before es) ≡ count p es
    unfolding sort
    count-sort [] = refl
    count-sort (e ∷ es) = ground (arith, count-insert e (sort before es), count-sort es)

module _ (before : HistoryEntry → HistoryEntry → Bool)
    (asym : (a b : HistoryEntry) → before a b ≡ true → before b a ≡ false)
    (trans : (a b c : HistoryEntry)
      → before a b ≡ false
      → before b c ≡ false
      → before a c ≡ false) where
  All-not_before :
      (x e : HistoryEntry) (es : List HistoryEntry)
      → before x e ≡ false
      → All (λ y. not (before y x)) es
      → All (λ y. not (before y e)) es
  All-not_before x e [] h a = tt
  All-not_before x e (y ∷ ys) h a = (ground (arith, trans y x e), All-not_before x e ys h a.1)

  insert-IsSorted :
      (e : HistoryEntry) (es : List HistoryEntry)
      → IsSorted before es
      → IsSorted before (insert before e es)
  unfolding insert
  insert-IsSorted e [] s = (tt, tt)
  insert-IsSorted e (x ∷ xs) (a, s) = elim (Bool-cases (before x e)) [
    | inl h ↦ rw h (
      All-insert (λ y. not (before y x)) before e xs (ground (arith, asym x e)) a,
      insert-IsSorted e xs s,
    )
    | inr h ↦ rw h ((ground arith, All-not_before x e xs h a), (a, s))
  ]

  pub sort-IsSorted : (es : List HistoryEntry) → IsSorted before (sort before es)
  unfolding sort
  sort-IsSorted [] = tt
  sort-IsSorted (e ∷ es) = insert-IsSorted e (sort before es) (sort-IsSorted es)

  pub take-IsSorted :
      (n : ℕ) (es : List HistoryEntry) → IsSorted before es → IsSorted before (take n es)
  take-IsSorted zero es s = tt
  take-IsSorted (suc n) [] s = tt
  take-IsSorted (suc n) (e ∷ es) (a, s) = (All-take _ n es a, take-IsSorted n es s)

-- Every entry of the first list may stand ahead of every entry of the second.
abbrev pub IsAhead :
    (HistoryEntry → HistoryEntry → Bool) → List HistoryEntry → List HistoryEntry → Type 0
IsAhead before [] ys = Unit {0}
IsAhead before (x ∷ xs) ys = All (λ y. not (before y x)) ys × IsAhead before xs ys

-- What `take` leaves out.
abbrev pub left_out : ℕ → List HistoryEntry → List HistoryEntry
left_out zero es = es
left_out (suc n) [] = []
left_out (suc n) (e ∷ es) = left_out n es

All-left_out :
    (p : HistoryEntry → Bool) (n : ℕ) (es : List HistoryEntry) → All p es → All p (left_out n es)
All-left_out p zero es a = a
All-left_out p (suc n) [] a = tt
All-left_out p (suc n) (e ∷ es) (h, a) = All-left_out p n es a

pub take-IsAhead :
    (before : HistoryEntry → HistoryEntry → Bool) (n : ℕ) (es : List HistoryEntry)
    → IsSorted before es
    → IsAhead before (take n es) (left_out n es)
take-IsAhead before zero es s = tt
take-IsAhead before (suc n) [] s = tt
take-IsAhead before (suc n) (e ∷ es) (a, s) = (All-left_out _ n es a, take-IsAhead before n es s)

pub count-take :
    (p : HistoryEntry → Bool) (n : ℕ) (es : List HistoryEntry)
    → count p (take n es) + count p (left_out n es) ≡ count p es
count-take p zero es = omega arith
count-take p (suc n) [] = omega arith
count-take p (suc n) (e ∷ es) = ground (arith, count-take p n es)

count-length : (es : List HistoryEntry) → count (λ _. true) es ≡ length es
count-length [] = refl
count-length (e ∷ es) = omega (arith, count-length es)

pub length-sort :
    (before : HistoryEntry → HistoryEntry → Bool) (es : List HistoryEntry)
    → length (sort before es) ≡ length es
length-sort before es =
    omega (arith, count-length (sort before es), count-length es, count-sort (λ _. true) before es)
