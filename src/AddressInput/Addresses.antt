-- ===== src/AddressInput/Addresses.antt =====
-- The addresses that `NormalizeAddressInput` and `ResolveAddressInput` give.
use openbrowser.Prelude.Bytes.{Bytes, bytes, strip}
use openbrowser.Prelude.{
  ℕ, ◌≡◌, refl, ◌∙◌, ap, true, false, ◌||◌, some, [], ◌∷◌, ◌++◌, arith, leb, ◌==◌, ℕ_eq, ℕ_discrete,
}
use openbrowser.AddressInput.{
  all_of, drop_until, trim_end, trim_ascii_whitespace, strip_case_insensitive, lower_ascii, is_some,
  starts_with_case_insensitive, is_loopback_address, has_explicit_scheme, scheme_goes_on,
  has_no_space_or_cntrl, is_web_address, normalize_trimmed, normalize_address_input,
  resolve_address_input, is_alpha,
}

trim_end-clean : (s : Bytes) → has_no_space_or_cntrl s ≡ true → trim_end s ≡ s
unfolding trim_end all_of
trim_end-clean [] h = refl
trim_end-clean (c ∷ []) h = ground arith
trim_end-clean (c ∷ d ∷ s) h = rw (trim_end-clean (d ∷ s) (ground arith)) refl

trim-clean : (s : Bytes) → has_no_space_or_cntrl s ≡ true → trim_ascii_whitespace s ≡ s
unfolding trim_ascii_whitespace drop_until all_of
trim-clean [] h = unfold trim_end in refl
trim-clean (c ∷ s) h = ground (arith, trim_end-clean (c ∷ s) h)

http_web : (s : Bytes) → is_web_address (bytes "http://" ++ s) ≡ true
unfolding strip_case_insensitive lower_ascii ℕ_discrete
http_web s = refl

https_web : (s : Bytes) → is_web_address (bytes "https://" ++ s) ≡ true
unfolding strip_case_insensitive lower_ascii ℕ_discrete
https_web s = refl

http_clean :
    (s : Bytes)
    → has_no_space_or_cntrl s ≡ true
    → has_no_space_or_cntrl (bytes "http://" ++ s) ≡ true
unfolding all_of ℕ_discrete
http_clean s h = h

https_clean :
    (s : Bytes)
    → has_no_space_or_cntrl s ≡ true
    → has_no_space_or_cntrl (bytes "https://" ++ s) ≡ true
unfolding all_of ℕ_discrete
https_clean s h = h

normalize_trimmed_lem :
    (s v : Bytes)
    → normalize_trimmed s ≡ some v
    → (is_web_address v ≡ true) × (has_no_space_or_cntrl v ≡ true)
normalize_trimmed_lem s v e = ground (arith, http_web s, https_web s, http_clean s, https_clean s)

normalize_trimmed-web :
    (v : Bytes)
    → is_web_address v ≡ true
    → has_no_space_or_cntrl v ≡ true
    → normalize_trimmed v ≡ some v
normalize_trimmed-web [] w h = unfold strip_case_insensitive in ground arith
normalize_trimmed-web (c ∷ s) w h = rw (h, w) (ground arith)

-- What is typed is normalized to an address of the web, http or https in any case of the letters,
-- without a space or a control character; and normalizing the result again gives it back.
pub normalize_address_input_lem :
    (s v : Bytes)
    → normalize_address_input s ≡ some v
    → (is_web_address v ≡ true)
      × (has_no_space_or_cntrl v ≡ true)
      × (normalize_address_input v ≡ some v)
unfolding normalize_address_input
normalize_address_input_lem s v e =
    let (web, clean) = normalize_trimmed_lem (trim_ascii_whitespace s) v e in
    (web, clean, ap normalize_trimmed (trim-clean v clean) ∙ normalize_trimmed-web v web clean)

-- A small letter of a prefix, and what it says of a character that agrees with it.
abbrev IsLetter : ℕ → Type 0
IsLetter p = (lower_ascii p ≡ p) × (leb b'a' p ≡ true) × (leb p b'z' ≡ true)

same_letter :
    (c p : ℕ)
    → IsLetter p
    → (lower_ascii c == lower_ascii p) ≡ true
    → (is_alpha c ≡ true) × ((c == b':') ≡ false)
same_letter c p l h = (unfold lower_ascii in ground arith, unfold lower_ascii in ground arith)

colon_same : (c : ℕ) → (lower_ascii c == lower_ascii b':') ≡ true → (c == b':') ≡ true
unfolding lower_ascii
colon_same c h = ground arith

abbrev AllLetters : Bytes → Type 0
AllLetters [] = Unit {0}
AllLetters (p ∷ ps) = IsLetter p × AllLetters ps

prefix_goes_on :
    (ps s : Bytes)
    → AllLetters ps
    → is_some (strip_case_insensitive (ps ++ b':' ∷ []) s) ≡ true
    → scheme_goes_on s ≡ true
unfolding strip_case_insensitive scheme_goes_on
prefix_goes_on [] [] l h = ground arith
prefix_goes_on [] (c ∷ s) l h = ground (arith, colon_same c)
prefix_goes_on (p ∷ ps) [] l h = ground arith
prefix_goes_on (p ∷ ps) (c ∷ s) l h = ground (arith, same_letter c p l.0, prefix_goes_on ps s l.1)

is_a : (c : ℕ) → (lower_ascii c == lower_ascii b'a') ≡ true → (c == b'a' || c == b'A') ≡ true
unfolding lower_ascii
is_a c h = ground arith

lower_l : lower_ascii b'l' ≡ b'l'
unfolding lower_ascii
lower_l = refl

lower_a : (c : ℕ) → (lower_ascii c == lower_ascii b'a') ≡ true → (lower_ascii c == b'l') ≡ false
unfolding lower_ascii
lower_a c h = ground arith

about_lem :
    (s : Bytes)
    → starts_with_case_insensitive s (bytes "about:") ≡ true
    → (is_loopback_address s ≡ false) × (has_explicit_scheme s ≡ true)
unfolding is_loopback_address has_explicit_scheme strip_case_insensitive strip
about_lem [] h = ground arith
about_lem (c ∷ s) h =
    let letters : AllLetters (bytes "bout") =
      unfold lower_ascii in
      ((refl, refl, refl), ((refl, refl, refl), ((refl, refl, refl), ((refl, refl, refl), tt)))) in
    (
      ground (arith, is_a c, lower_a c, lower_l),
      ground (
        arith,
        is_a c,
        same_letter c b'a' (unfold lower_ascii in (refl, refl, refl)),
        prefix_goes_on (bytes "bout") s letters,
      ),
    )

-- What is normalized to an address is resolved to the same address, whatever the search provider:
-- the two readings of the address field agree where the first has an answer.
pub resolve-normalize :
    (s v template : Bytes)
    → normalize_address_input s ≡ some v
    → resolve_address_input s template ≡ some v
unfolding normalize_address_input resolve_address_input
resolve-normalize s v template e = ground (arith, about_lem (trim_ascii_whitespace s))
