-- ===== src/History/Recall/Meaning.antt =====
-- What the tests of `Search` mean: that an entry matches, and that it is before another.
use openbrowser.Prelude.Integers.{int_leb, int_ltb, int_ltb_asym, int_leb_trans}
use openbrowser.Prelude.{
  ℕ, ◌<◌, String, ◌≡◌, refl, sym, subst, ap, ◌⊎◌, inl, inr, true, false, some, [], ◌∷◌, ◌++◌, arith,
  ◌==◌, ℕ_eq, Option-cases, Bool-cases,
}
use openbrowser.Prelude.Bytes.{Bytes, bytes, lower, strip, split_at}
use openbrowser.History.{HistoryEntry, has_text, matches, is_before}

-- The pattern stands somewhere in the text.
abbrev pub IsWithin : Bytes → Bytes → Type 0
IsWithin pattern s = (before after : Bytes) × (s ≡ before ++ pattern ++ after)

-- The query is empty, or it stands in the title or in the address, in any case of the letters.
abbrev pub IsAbout : Bytes → HistoryEntry → Type 0
IsAbout query e =
    (query ≡ [])
    ⊎ (IsWithin (lower query) (lower (bytes e.title))
        ⊎ IsWithin (lower query) (lower (bytes e.url)))

-- The entry was visited more often, or as often and last at no earlier time.
abbrev pub Outranks : HistoryEntry → HistoryEntry → Type 0
Outranks x y =
    (y.visit_count < x.visit_count)
    ⊎ ((x.visit_count ≡ y.visit_count) × (int_leb y.last_visit_time_ms x.last_visit_time_ms ≡ true))

pub is_before-Outranks : (x y : HistoryEntry) → is_before y x ≡ false → Outranks x y
unfolding int_ltb
is_before-Outranks x y h = elim (Bool-cases (x.visit_count == y.visit_count)) [
  | inl e ↦ inr (ground arith, ground arith)
  | inr e ↦ inl (ground arith)
]

strip-some : (p s r : Bytes) → strip p s ≡ some r → s ≡ p ++ r
unfolding strip
strip-some [] s r h = ground arith
strip-some (b ∷ p) [] r h = ground arith
strip-some (b ∷ p) (c ∷ s) r h = ground (arith, strip-some p s r)

strip-append : (p r : Bytes) → strip p (p ++ r) ≡ some r
unfolding strip
strip-append [] r = refl
strip-append (b ∷ p) r = ground (arith, strip-append p r)

IsWithin-cons : (c : ℕ) (p s : Bytes) → IsWithin p s → IsWithin p (c ∷ s)
IsWithin-cons c p s (before, after, e) = (c ∷ before, after, ap (λ l. c ∷ l) e)

split_at-IsWithin : (p s : Bytes) (b a : Bytes) → split_at p s ≡ some (b, a) → IsWithin p s
unfolding split_at
split_at-IsWithin p [] b a h = elim (Option-cases (strip p [])) [
  | inl e ↦ absurd (ground arith)
  | inr (r, e) ↦ ([], r, strip-some p [] r e)
]
split_at-IsWithin p (c ∷ s) b a h = elim (Option-cases (strip p (c ∷ s))) [
  | inl e ↦ elim (Option-cases (split_at p s)) [
    | inl e' ↦ absurd (ground arith)
    | inr ((x, y), e') ↦ IsWithin-cons c p s (split_at-IsWithin p s x y e')
  ]
  | inr (r, e) ↦ ([], r, strip-some p (c ∷ s) r e)
]

split_at-strip : (p s r : Bytes) → strip p s ≡ some r → split_at p s ≡ some ([], r)
unfolding split_at
split_at-strip p [] r h = ground arith
split_at-strip p (c ∷ s) r h = ground arith

split_at-append :
    (p before after : Bytes) → (b a : Bytes) × (split_at p (before ++ p ++ after) ≡ some (b, a))
unfolding split_at
split_at-append p [] after = ([], after, split_at-strip p (p ++ after) after (strip-append p after))
split_at-append p (c ∷ before) after =
    let (b, a, e) = split_at-append p before after in
    elim (Option-cases (strip p (c ∷ (before ++ p ++ after)))) [
      | inl h ↦ (c ∷ b, a, ground arith)
      | inr (r, h) ↦ ([], r, ground arith)
    ]

has_text-IsWithin :
    (q : Bytes) (s : String) → has_text q (bytes s) ≡ true → IsWithin q (lower (bytes s))
has_text-IsWithin q s h = elim (Option-cases (split_at q (lower (bytes s)))) [
  | inl e ↦ absurd (ground arith)
  | inr ((b, a), e) ↦ split_at-IsWithin q (lower (bytes s)) b a e
]

IsWithin-has_text :
    (q : Bytes) (s : String) → IsWithin q (lower (bytes s)) → has_text q (bytes s) ≡ true
IsWithin-has_text q s (before, after, e) =
    let (b, a, e') = split_at-append q before after in
    let at = subst (λ l. split_at q l ≡ some (b, a)) (sym e) e' in ground arith

-- `matches` tests just this.
pub matches-IsAbout :
    (query : Bytes) (e : HistoryEntry)
    → (matches query e ≡ true → IsAbout query e) × (IsAbout query e → matches query e ≡ true)
matches-IsAbout query e = (there, back)
  where
    there : matches query e ≡ true → IsAbout query e
    there h = elim (Bool-cases (has_text (lower query) (bytes e.title))) [
      | inl t ↦ inr (inl (has_text-IsWithin (lower query) e.title t))
      | inr t ↦ elim (Bool-cases (has_text (lower query) (bytes e.url))) [
        | inl u ↦ inr (inr (has_text-IsWithin (lower query) e.url u))
        | inr u ↦ inl (ground arith)
      ]
    ]

    back : IsAbout query e → matches query e ≡ true
    back (inl h) = ground arith
    back (inr (inl w)) = ground (arith, IsWithin-has_text (lower query) e.title w)
    back (inr (inr w)) = ground (arith, IsWithin-has_text (lower query) e.url w)

pub is_before_asym : (a b : HistoryEntry) → is_before a b ≡ true → is_before b a ≡ false
is_before_asym a b h = ground (arith, int_ltb_asym b.last_visit_time_ms a.last_visit_time_ms)

pub is_before_trans :
    (a b c : HistoryEntry) → is_before a b ≡ false → is_before b c ≡ false → is_before a c ≡ false
unfolding int_ltb
is_before_trans a b c h h' =
    ground (arith, int_leb_trans a.last_visit_time_ms b.last_visit_time_ms c.last_visit_time_ms)
