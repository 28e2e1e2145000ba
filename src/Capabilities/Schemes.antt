-- ===== src/Capabilities/Schemes.antt =====
-- Which URLs the navigation check refuses for their scheme.
use openbrowser.Prelude.{
  ℕ, ◌≡◌, refl, sym, ap, ◌∙◌, Bool, true, false, ◌||◌, Option, none, some, [], ◌∷◌, ◌++◌, arith,
  ◌==◌, ℕ_eq, ◌⊎◌, inl, inr, Option-cases,
}
use native.Mathlib.Decide.{ℕ_discrete}
use mathlib.Core.List.{map-append, append-nil}
use openbrowser.Capabilities.Rules.{resolve-create_default}
use openbrowser.Prelude.Bytes.{Bytes, bytes, bytes_eq, to_lower, lower, strip, prepend, split_at}
use openbrowser.Capabilities.{
  CapabilityContext, CapabilityPolicy, page_network, is_nil, is_script, extract_scheme,
  extract_origin, default_origin, with_origin, can_navigate, can_load_resource, create_default,
}

-- A byte in the text.
abbrev pub has : ℕ → Bytes → Bool
has b [] = false
has b (c ∷ s) = c == b || has b s

abbrev after_prefix : Bytes → Option (Bytes × Bytes) → Option (Bytes × Bytes)
after_prefix u none = none
after_prefix u (some (before, after)) = some (u ++ before, after)

-- A text without the first byte of the pattern is passed over.
split_at-append :
    (b : ℕ) (ps u s : Bytes)
    → has b u ≡ false
    → split_at (b ∷ ps) (u ++ s) ≡ after_prefix u (split_at (b ∷ ps) s)
unfolding split_at
split_at-append b ps [] s h = elim (Option-cases (split_at (b ∷ ps) s)) [
  | inl e ↦ rw e
  | inr ((x, y), e) ↦ rw e
]
split_at-append b ps (c ∷ u) s h = elim (Option-cases (split_at (b ∷ ps) s)) [
  | inl e ↦ ground (arith, split_at-append b ps u s, e)
  | inr ((x, y), e) ↦ ground (arith, split_at-append b ps u s, e)
]

to_lower-colon : (c : ℕ) → to_lower c ≡ b':' → c ≡ b':'
unfolding to_lower
to_lower-colon c h = ground arith

lower-colon : (c : ℕ) → c ≡ b':' → to_lower c ≡ b':'
unfolding to_lower
lower-colon c h = ground arith

has-lower : (u : Bytes) → has b':' (lower u) ≡ has b':' u
has-lower [] = refl
has-lower (c ∷ u) = ground (arith, to_lower-colon c, lower-colon c, has-lower u)

-- What stands behind the colon of the scheme.
abbrev slashes : Bytes
slashes = bytes "//"

split_at-colon :
    (r : Bytes)
    → split_at (bytes "://") (b':' ∷ r) ≡ (elim (strip slashes r) [
      | some after ↦ some ([], after)
      | none ↦ prepend b':' (split_at (bytes "://") r)
    ])
unfolding split_at
split_at-colon r = ground arith

split_at-colon_only : (r : Bytes) → split_at (bytes ":") (b':' ∷ r) ≡ some ([], r)
unfolding split_at ℕ_discrete
split_at-colon_only r = refl

append-ne_nil : (u : Bytes) (c : ℕ) (s : Bytes) → is_nil (u ++ c ∷ s) ≡ false
append-ne_nil [] c s = refl
append-ne_nil (d ∷ u) c s = refl

-- The rest of a URL, behind the colon, in which no "://" begins later than at that colon.
abbrev IsPlain : Bytes → Type 0
IsPlain r = ((after : Bytes) × (strip slashes r ≡ some after)) ⊎ (split_at (bytes "://") r ≡ none)

extract_scheme-plain :
    (u r : Bytes)
    → has b':' u ≡ false
    → is_nil u ≡ false
    → IsPlain r
    → extract_scheme (u ++ b':' ∷ r) ≡ some (lower u)
unfolding extract_scheme
extract_scheme-plain u r clear full plain =
    let first = split_at-append b':' slashes u (b':' ∷ r) clear in
    let second = split_at-append b':' [] u (b':' ∷ r) clear in
    let at = split_at-colon r in
    let only = split_at-colon_only r in
    elim plain [
      | inl (a, e) ↦ ground (arith, first, second, at, only, append-nil u)
      | inr e ↦ ground (arith, first, second, at, only, append-nil u)
    ]

extract_scheme-hidden :
    (u r before after : Bytes)
    → has b':' u ≡ false
    → strip slashes r ≡ none
    → split_at (bytes "://") r ≡ some (before, after)
    → extract_scheme (u ++ b':' ∷ r) ≡ some (lower (u ++ b':' ∷ before))
unfolding extract_scheme
extract_scheme-hidden u r before after clear apart found =
    let first = split_at-append b':' slashes u (b':' ∷ r) clear in
    let at = split_at-colon r in ground (arith, first, at, append-ne_nil u b':' before)

-- A spelling of "javascript" or "vbscript", in capitals or not.
abbrev pub IsScript : Bytes → Type 0
IsScript u = (lower u ≡ bytes "javascript") ⊎ (lower u ≡ bytes "vbscript")

IsScript-clear : (u : Bytes) → IsScript u → (has b':' u ≡ false) × (is_nil u ≡ false)
unfolding ℕ_discrete
IsScript-clear [] s = ground arith
IsScript-clear (c ∷ u) (inl e) = (sym (has-lower (c ∷ u)) ∙ ap (has b':') e, refl)
IsScript-clear (c ∷ u) (inr e) = (sym (has-lower (c ∷ u)) ∙ ap (has b':') e, refl)

append-full : (u s : Bytes) → is_nil u ≡ false → is_nil (u ++ s) ≡ false
append-full [] s h = ground arith
append-full (c ∷ u) s h = refl

-- No policy and no context lets a script URL through, in any case of its letters, as long as no
-- "://" begins behind the colon of its scheme.
pub script_refused :
    (p : CapabilityPolicy) (x : CapabilityContext) (u r initiator : Bytes)
    → IsScript u
    → IsPlain r
    → (can_navigate p (u ++ b':' ∷ r) x ≡ false)
      × (can_load_resource p (u ++ b':' ∷ r) initiator x ≡ false)
unfolding can_navigate can_load_resource
script_refused p x u r initiator script plain =
    let (clear, full) = IsScript-clear u script in
    let scheme = extract_scheme-plain u r clear full plain in
    let nonempty = append-full u (b':' ∷ r) full in
    (ground (arith, scheme, nonempty), ground (arith, scheme, nonempty))

-- The longer text is none of the schemes that the checks name.
is_unnamed :
    (u b : Bytes)
    → IsScript u
    → let s = lower u ++ (to_lower b':' ∷ lower b) in
      (is_script s ≡ false)
      × ((s == bytes "about") ≡ false)
      × ((s == bytes "data") ≡ false)
      × ((s == bytes "blob") ≡ false)
is_unnamed u b (inl e) = rw e (ground arith, ground arith, ground arith, ground arith)
is_unnamed u b (inr e) = rw e (ground arith, ground arith, ground arith, ground arith)

-- With a "://" in the text behind the colon, but not at that colon, the script URL is not seen
-- as one, and the default policy lets it through to the page and to the resource loader.
pub script_passes :
    (x : CapabilityContext) (u r before after initiator : Bytes)
    → IsScript u
    → strip slashes r ≡ none
    → split_at (bytes "://") r ≡ some (before, after)
    → (can_navigate create_default (u ++ b':' ∷ r) x ≡ true)
      × (can_load_resource create_default (u ++ b':' ∷ r) initiator x ≡ true)
unfolding can_navigate can_load_resource
script_passes x u r before after initiator script apart found =
    let (clear, full) = IsScript-clear u script in
    let scheme = extract_scheme-hidden u r before after clear apart found in
    let nonempty = append-full u (b':' ∷ r) full in
    let scheme' = scheme ∙ ap some (map-append to_lower u (b':' ∷ before)) in
    let tests = is_unnamed u before script in
    let open_ = λ (y : CapabilityContext). resolve-create_default page_network y in
    (
      ground (
        arith,
        scheme',
        nonempty,
        tests,
        open_ (default_origin x (extract_origin (u ++ b':' ∷ r))),
      ),
      ground
          (arith, scheme', nonempty, tests, open_ (with_origin x (extract_origin (u ++ b':' ∷ r)))),
    )
