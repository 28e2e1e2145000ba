-- ===== src/NetworkTrace/Urls/Parts.antt =====
-- Texts without a given byte, taken apart at that byte and joined again.
use openbrowser.Prelude.Bytes.{Bytes, take_until}
use openbrowser.Prelude.{
  ℕ, ◌≡◌, refl, ◌∙◌, ap, Bool, true, false, List, [], ◌∷◌, ◌++◌, arith, ◌==◌, ℕ_eq, Bool-cases, inl,
  inr,
}
use openbrowser.AddressInput.{drop_until}
use openbrowser.NetworkTrace.Urls.{is_byte, split_on, join_with, longer_first}

-- No byte of the text is of the class.
abbrev pub IsFree : (ℕ → Bool) → Bytes → Type 0
IsFree stop [] = Unit
IsFree stop (c ∷ s) = (stop c ≡ false) × IsFree stop s

abbrev pub AreFree : (ℕ → Bool) → List Bytes → Type 0
AreFree stop [] = Unit
AreFree stop (s ∷ ss) = IsFree stop s × AreFree stop ss

module _ (stop : ℕ → Bool) where
  pub take_until-IsFree : (s : Bytes) → IsFree stop (take_until stop s)
  unfolding take_until
  take_until-IsFree [] = tt
  take_until-IsFree (c ∷ s) = elim (Bool-cases (stop c)) [
    | inl ends ↦ rw ends tt
    | inr on ↦ rw on (on, take_until-IsFree s)
  ]

  -- The text up to a byte of any class keeps what another class is free of.
  pub take_until-keeps :
      (other : ℕ → Bool) (s : Bytes) → IsFree stop s → IsFree stop (take_until other s)
  unfolding take_until
  take_until-keeps other [] h = tt
  take_until-keeps other (c ∷ s) h = elim (Bool-cases (other c)) [
    | inl ends ↦ rw ends tt
    | inr on ↦ rw on (h.0, take_until-keeps other s h.1)
  ]

  pub drop_until-keeps :
      (other : ℕ → Bool) (s : Bytes) → IsFree stop s → IsFree stop (drop_until other s)
  unfolding drop_until
  drop_until-keeps other [] h = tt
  drop_until-keeps other (c ∷ s) h = elim (Bool-cases (other c)) [
    | inl ends ↦ rw ends h
    | inr on ↦ rw on (drop_until-keeps other s h.1)
  ]

  pub append-IsFree : (s t : Bytes) → IsFree stop s → IsFree stop t → IsFree stop (s ++ t)
  append-IsFree [] t h k = k
  append-IsFree (c ∷ s) t h k = (h.0, append-IsFree s t h.1 k)

  nothing_left : (s : Bytes) → take_until stop (drop_until stop s) ≡ []
  unfolding take_until drop_until
  nothing_left [] = refl
  nothing_left (c ∷ s) = elim (Bool-cases (stop c)) [
    | inl ends ↦ rw (ends, take_until) (rw ends refl)
    | inr on ↦ rw on (nothing_left s)
  ]

  pub take_until-append :
      (s t : Bytes) → IsFree stop s → take_until stop (s ++ drop_until stop t) ≡ s
  unfolding take_until
  take_until-append [] t h = nothing_left t
  take_until-append (c ∷ s) t h = rw h.0 (ap (λ r. c ∷ r) (take_until-append s t h.1))

  -- The first byte of the class, behind a text without one.
  module _ (c : ℕ) (ends : stop c ≡ true) (t : Bytes) where
    pub take_until-at : (s : Bytes) → IsFree stop s → take_until stop (s ++ c ∷ t) ≡ s
    unfolding take_until
    take_until-at [] h = rw ends refl
    take_until-at (d ∷ s) h = rw h.0 (ap (λ r. d ∷ r) (take_until-at s h.1))

    pub drop_until-at : (s : Bytes) → IsFree stop s → drop_until stop (s ++ c ∷ t) ≡ c ∷ t
    unfolding drop_until
    drop_until-at [] h = rw ends refl
    drop_until-at (d ∷ s) h = rw h.0 (drop_until-at s h.1)

longer_first-AreFree :
    (stop : ℕ → Bool) (c : ℕ) (ss : List Bytes)
    → stop c ≡ false
    → AreFree stop ss
    → AreFree stop (longer_first c ss)
longer_first-AreFree stop c [] h k = ((h, tt), tt)
longer_first-AreFree stop c (s ∷ ss) h k = ((h, k.0), k.1)

module _ (separator : ℕ) where
  pub split_on-AreFree : (s : Bytes) → AreFree (is_byte separator) (split_on separator s)
  unfolding split_on
  split_on-AreFree [] = (tt, tt)
  split_on-AreFree (c ∷ s) = elim (Bool-cases (c == separator)) [
    | inl cut ↦ rw cut (tt, split_on-AreFree s)
    | inr on ↦
        rw on (
          longer_first-AreFree (is_byte separator) c (split_on separator s) on (split_on-AreFree s))
  ]

  pub split_on-keeps :
      (stop : ℕ → Bool) (s : Bytes) → IsFree stop s → AreFree stop (split_on separator s)
  unfolding split_on
  split_on-keeps stop [] h = (tt, tt)
  split_on-keeps stop (c ∷ s) h = elim (Bool-cases (c == separator)) [
    | inl cut ↦ rw cut (tt, split_on-keeps stop s h.1)
    | inr on ↦
        rw on (longer_first-AreFree stop c (split_on separator s) h.0 (split_on-keeps stop s h.1))
  ]

  pub join_with-IsFree :
      (stop : ℕ → Bool)
      → stop separator ≡ false
      → (ss : List Bytes) → AreFree stop ss
      → IsFree stop (join_with separator ss)
  unfolding join_with
  join_with-IsFree stop k [] h = tt
  join_with-IsFree stop k (s ∷ []) h = h.0
  join_with-IsFree stop k (s ∷ t ∷ ss) h =
      append-IsFree stop s (separator ∷ join_with separator (t ∷ ss)) h.0
        (k, join_with-IsFree stop k (t ∷ ss) h.1)

  split_on_whole : (s : Bytes) → IsFree (is_byte separator) s → split_on separator s ≡ s ∷ []
  unfolding split_on
  split_on_whole [] h = refl
  split_on_whole (c ∷ s) h = rw (h.0, split_on) (ap (longer_first c) (split_on_whole s h.1))

  split_on_first :
      (s t : Bytes)
      → IsFree (is_byte separator) s
      → split_on separator (s ++ separator ∷ t) ≡ s ∷ split_on separator t
  unfolding split_on
  split_on_first [] t h = let same : (separator == separator) ≡ true = ground arith in rw same refl
  split_on_first (c ∷ s) t h = rw (h.0, split_on) (ap (longer_first c) (split_on_first s t h.1))

  -- Splitting takes apart what joining has put together.
  pub split_on-join_with :
      (s : Bytes) (ss : List Bytes)
      → AreFree (is_byte separator) (s ∷ ss)
      → split_on separator (join_with separator (s ∷ ss)) ≡ s ∷ ss
  unfolding join_with
  split_on-join_with s [] h = split_on_whole s h.0
  split_on-join_with s (t ∷ ss) h =
      split_on_first s (join_with separator (t ∷ ss)) h.0
      ∙ ap (λ r. s ∷ r) (split_on-join_with t ss h.1)
