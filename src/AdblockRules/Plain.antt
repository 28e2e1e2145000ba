-- ===== src/AdblockRules/Plain.antt =====
-- Texts without the bytes that mean something in a line of adblock_rule_parser.cpp: what is trimmed,
-- found and taken off in them.
use openbrowser.Prelude.Bytes.{Bytes, bytes, strip, split_at, take_until}
use openbrowser.Prelude.{
  ℕ, ◌≡◌, refl, ap, Bool, false, none, some, [], ◌∷◌, ◌++◌, arith, ◌==◌, ℕ_eq,
}
use openbrowser.AddressInput.{is_space, drop_until, trim_end, trim_ascii_whitespace}
use openbrowser.ContentFilter.{occurs_in}
use openbrowser.NetworkTrace.Urls.{is_byte}
use openbrowser.NetworkTrace.Urls.Parts.{IsFree}
use openbrowser.AdblockRules.{strip_last, is_cosmetic}

pub IsFree-weaken :
    (p q : ℕ → Bool) → ((c : ℕ) → p c ≡ false → q c ≡ false) → (s : Bytes) → IsFree p s → IsFree q s
IsFree-weaken p q k [] h = tt
IsFree-weaken p q k (c ∷ s) h = (k c h.0, IsFree-weaken p q k s h.1)

pub trim_end-free : (s : Bytes) → IsFree is_space s → trim_end s ≡ s
unfolding trim_end
trim_end-free [] h = refl
trim_end-free (c ∷ []) h = rw h.0 refl
trim_end-free (c ∷ d ∷ s) h = rw (trim_end-free (d ∷ s) h.1) refl

pub trim-free : (s : Bytes) → IsFree is_space s → trim_ascii_whitespace s ≡ s
unfolding trim_ascii_whitespace drop_until
trim-free [] h = unfold trim_end in refl
trim-free (c ∷ s) h = rw h.0 (trim_end-free (c ∷ s) h)

pub strip-none :
    (b c : ℕ) (pattern s : Bytes) → (c == b) ≡ false → strip (b ∷ pattern) (c ∷ s) ≡ none
unfolding strip
strip-none b c pattern s h = rw h refl

pub split_at-none :
    (b : ℕ) (pattern s : Bytes) → IsFree (is_byte b) s → split_at (b ∷ pattern) s ≡ none
unfolding split_at
split_at-none b pattern [] h = unfold strip in refl
split_at-none b pattern (c ∷ s) h =
    rw (strip-none b c pattern s h.0, split_at) (rw (split_at-none b pattern s h.1) refl)

pub occurs_in-none : (s pattern : Bytes) → split_at pattern s ≡ none → occurs_in s pattern ≡ false
unfolding occurs_in
occurs_in-none s pattern h = rw (h, occurs_in) refl

pub not_cosmetic : (s : Bytes) → IsFree (is_byte b'#') s → is_cosmetic s ≡ false
not_cosmetic s h =
    let absent = λ (p : Bytes). occurs_in-none s (b'#' ∷ p) (split_at-none b'#' p s h) in
    rw (absent (bytes "#"), absent (bytes "?#"), absent (bytes "@#")) refl

module _ (stop : ℕ → Bool) where
  pub take_until-whole : (s : Bytes) → IsFree stop s → take_until stop s ≡ s
  unfolding take_until
  take_until-whole [] h = refl
  take_until-whole (c ∷ s) h = rw h.0 (ap (λ r. c ∷ r) (take_until-whole s h.1))

  pub drop_until-none : (s : Bytes) → IsFree stop s → drop_until stop s ≡ []
  unfolding drop_until
  drop_until-none [] h = refl
  drop_until-none (c ∷ s) h = rw h.0 (drop_until-none s h.1)

pub strip_last-at : (b : ℕ) (s : Bytes) → strip_last b (s ++ b ∷ []) ≡ some s
unfolding strip_last
strip_last-at b [] = ground arith
strip_last-at b (c ∷ []) = ground arith
strip_last-at b (c ∷ d ∷ s) = rw (strip_last-at b (d ∷ s)) refl

pub strip_last-free : (b : ℕ) (s : Bytes) → IsFree (is_byte b) s → strip_last b s ≡ none
unfolding strip_last
strip_last-free b [] h = refl
strip_last-free b (c ∷ []) h = rw h.0 refl
strip_last-free b (c ∷ d ∷ s) h = rw (strip_last-free b (d ∷ s) h.1) refl
