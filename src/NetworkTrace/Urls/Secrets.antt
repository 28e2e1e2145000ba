-- ===== src/NetworkTrace/Urls/Secrets.antt =====
-- What is left of the credentials in an address that network_trace.cpp has redacted.
use openbrowser.Prelude.Bytes.{Bytes, take_until}
use openbrowser.Prelude.{
  ℕ, ◌≡◌, refl, sym, ◌∙◌, ap, subst, Bool, true, false, List, [], ◌∷◌, ◌++◌, arith, ◌==◌, ℕ_eq,
  if◌then◌else◌, Bool-cases, ◌⊎◌, inl, inr, map,
}
use openbrowser.AddressInput.{drop_until}
use openbrowser.NetworkTrace.{redacted}
use openbrowser.NetworkTrace.Urls.{
  is_byte, split_on, longer_first, is_sensitive_query_key, redact_pair, redact_query,
  redact_query_of_url, redact_userinfo, redact_sensitive_url,
}
use openbrowser.NetworkTrace.Urls.Parts.{
  IsFree, AreFree, take_until-IsFree, take_until-keeps, drop_until-keeps, append-IsFree,
  take_until-append, take_until-at, drop_until-at, split_on-AreFree, split_on-keeps,
  join_with-IsFree, split_on-join_with,
}

abbrev pub behind_first : Bytes → Bytes
behind_first [] = []
behind_first (c ∷ s) = s

-- The text between the first `?` and the `#` after it, and its parts between the `&`.
abbrev pub query_of : Bytes → Bytes
query_of url = take_until (is_byte b'#') (behind_first (drop_until (is_byte b'?') url))

abbrev pub pairs_of : Bytes → List Bytes
pairs_of url = split_on b'&' (query_of url)

abbrev pub HidesValue : Bytes → Bytes → Type 0
HidesValue key [] = Unit
HidesValue key (e ∷ value) = is_sensitive_query_key key ≡ true → value ≡ redacted

-- A pair whose key, in front of the first `=`, is one of those that carry credentials, has no value
-- but the mark of its redaction.
abbrev pub HidesSecret : Bytes → Type 0
HidesSecret pair = HidesValue (take_until (is_byte b'=') pair) (drop_until (is_byte b'=') pair)

abbrev pub HideSecrets : List Bytes → Type 0
HideSecrets [] = Unit
HideSecrets (p ∷ ps) = HidesSecret p × HideSecrets ps

drop_until-head :
    (stop : ℕ → Bool) (s : Bytes) (c : ℕ) (r : Bytes) → drop_until stop s ≡ c ∷ r → stop c ≡ true
unfolding drop_until
drop_until-head stop [] c r h = cc
drop_until-head stop (d ∷ s) c r h = elim (Bool-cases (stop d)) [
  | inl ends ↦
      let same : d ∷ s ≡ c ∷ r = sym (rw ends refl) ∙ h in
      let head : d ≡ c = cc in subst (λ x. stop x ≡ true) head ends
  | inr on ↦
      let skipped : drop_until stop (d ∷ s) ≡ drop_until stop s = rw (on, drop_until) refl in
      drop_until-head stop s c r (sym skipped ∙ h)
]

List-cases : (s : Bytes) → (s ≡ []) ⊎ ((c : ℕ) × (r : Bytes) × (s ≡ c ∷ r))
List-cases [] = inl refl
List-cases (c ∷ r) = inr (c, r, refl)

redact_value :
    (key value : Bytes) (b : Bool)
    → is_sensitive_query_key key ≡ b
    → is_sensitive_query_key key ≡ true
    → (if b then redacted else value) ≡ redacted
redact_value key value true e s = refl
redact_value key value false e s = cc

-- A redacted pair hides its secret.
redact_pair-HidesSecret : (pair : Bytes) → HidesSecret (redact_pair pair)
unfolding redact_pair
redact_pair-HidesSecret pair =
    let key = take_until (is_byte b'=') pair in
    elim (List-cases (drop_until (is_byte b'=') pair)) [
      | inl none_there ↦ rw none_there (rw none_there tt)
      | inr (e, value, found) ↦
          let ends = drop_until-head (is_byte b'=') pair e value found in
          let new = if is_sensitive_query_key key then redacted else value in
          let free = take_until-IsFree (is_byte b'=') pair in
          rw found (
            rw
              (
                take_until-at (is_byte b'=') e ends new key free,
                drop_until-at (is_byte b'=') e ends new key free,
              )
              (redact_value key value (is_sensitive_query_key key) refl))
    ]

map-HideSecrets : (ps : List Bytes) → HideSecrets (map redact_pair ps)
map-HideSecrets [] = tt
map-HideSecrets (p ∷ ps) = (redact_pair-HidesSecret p, map-HideSecrets ps)

-- A redacted pair holds no byte of a class that neither the pair nor the mark holds.
redact_pair-IsFree :
    (stop : ℕ → Bool) (pair : Bytes)
    → IsFree stop redacted
    → IsFree stop pair
    → IsFree stop (redact_pair pair)
unfolding redact_pair
redact_pair-IsFree stop pair mark h =
    let key = take_until (is_byte b'=') pair in
    let key_free = take_until-keeps stop (is_byte b'=') pair h in
    elim (List-cases (drop_until (is_byte b'=') pair)) [
      | inl none_there ↦ rw none_there h
      | inr (e, value, found) ↦
          let rest = subst (IsFree stop) found (drop_until-keeps stop (is_byte b'=') pair h) in
          rw found
            (append-IsFree stop key _ key_free (rest.0, either_free stop _ value mark rest.1))
    ]
  where
    either_free :
        (stop : ℕ → Bool) (b : Bool) (value : Bytes)
        → IsFree stop redacted
        → IsFree stop value
        → IsFree stop (if b then redacted else value)
    either_free stop true value m v = m
    either_free stop false value m v = v

map-AreFree :
    (stop : ℕ → Bool) (ps : List Bytes)
    → IsFree stop redacted
    → AreFree stop ps
    → AreFree stop (map redact_pair ps)
map-AreFree stop [] mark h = tt
map-AreFree stop (p ∷ ps) mark h =
    (redact_pair-IsFree stop p mark h.0, map-AreFree stop ps mark h.1)

split_on-some :
    (separator : ℕ) (s : Bytes) → (p : Bytes) × (ps : List Bytes) × (split_on separator s ≡ p ∷ ps)
unfolding split_on
split_on-some separator [] = ([], [], refl)
split_on-some separator (c ∷ s) =
    let (p, ps, e) = split_on-some separator s in
    elim (Bool-cases (c == separator)) [
      | inl cut ↦ ([], split_on separator s, rw cut refl)
      | inr on ↦ (c ∷ p, ps, rw on (ap (longer_first c) e))
    ]

-- The pairs of a redacted query are the redacted pairs of the query.
split_on-redact_query :
    (query : Bytes) → split_on b'&' (redact_query query) ≡ map redact_pair (split_on b'&' query)
unfolding redact_query
split_on-redact_query query =
    let (p, ps, e) = split_on-some b'&' query in
    let free = subst (AreFree (is_byte b'&')) e (split_on-AreFree b'&' query) in
    rw e (
      split_on-join_with b'&' (redact_pair p) (map redact_pair ps)
        (map-AreFree (is_byte b'&') (p ∷ ps) (ground arith) free))

redact_query-IsFree :
    (stop : ℕ → Bool) (query : Bytes)
    → stop b'&' ≡ false
    → IsFree stop redacted
    → IsFree stop query
    → IsFree stop (redact_query query)
unfolding redact_query
redact_query-IsFree stop query k mark h =
    join_with-IsFree b'&' stop k (map redact_pair (split_on b'&' query))
      (map-AreFree stop (split_on b'&' query) mark (split_on-keeps b'&' stop query h))

no_query :
    split_on b'&' (take_until (is_byte b'#') [])
    ≡ map redact_pair (split_on b'&' (take_until (is_byte b'#') []))
unfolding split_on take_until drop_until redact_pair
no_query = refl

pairs_of-redact_query_of_url :
    (url : Bytes) → pairs_of (redact_query_of_url url) ≡ map redact_pair (pairs_of url)
unfolding redact_query_of_url
pairs_of-redact_query_of_url url =
    let prefix = take_until (is_byte b'?') url in
    elim (List-cases (drop_until (is_byte b'?') url)) [
      | inl none_there ↦ rw none_there (rw none_there no_query)
      | inr (q, rest, found) ↦
          let ends = drop_until-head (is_byte b'?') url q rest found in
          let query = take_until (is_byte b'#') rest in
          let tail = redact_query query ++ drop_until (is_byte b'#') rest in
          let free = take_until-IsFree (is_byte b'?') url in
          let clean =
            redact_query-IsFree (is_byte b'#') query (ground arith) (ground arith)
              (take_until-IsFree (is_byte b'#') rest) in
          rw found (
            rw (drop_until-at (is_byte b'?') q ends tail prefix free) (
              rw (take_until-append (is_byte b'#') (redact_query query) rest clean)
                (split_on-redact_query query)))
    ]

-- In a redacted address, every part of the query between the `&` that has a `=`, with a key in front
-- of the first of them that is one of those that carry credentials, in any case of its letters, has
-- no value but the mark of the redaction. The parts are those of the address without its user
-- information, in their order, each either with that mark or as it was.
pub redact_sensitive_url-HideSecrets :
    (url : Bytes)
    → HideSecrets (pairs_of (redact_sensitive_url url))
      × (pairs_of (redact_sensitive_url url) ≡ map redact_pair (pairs_of (redact_userinfo url)))
unfolding redact_sensitive_url
redact_sensitive_url-HideSecrets url =
    let same = pairs_of-redact_query_of_url (redact_userinfo url) in
    (subst HideSecrets (sym same) (map-HideSecrets (pairs_of (redact_userinfo url))), same)
