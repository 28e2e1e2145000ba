-- ===== src/AddressInput/Encoding.antt =====
-- `UrlEncode` against a decoder of its own.
use openbrowser.Prelude.Bytes.{Bytes}
use openbrowser.Prelude.{
  ℕ, ◌+◌, ◌-◌, ◌*◌, ◌/◌, ◌%◌, ◌<◌, ◌≡◌, refl, ◌∙◌, ap, Bool, true, false, ◌||◌, ◌&&◌, [], ◌∷◌, ◌++◌,
  arith, leb, ◌==◌, ℕ_eq, ℕ_discrete, if◌then◌else◌, Bool-cases, inl, inr,
}
use openbrowser.AddressInput.{is_alnum, all_of, hex_char, encode_char, url_encode}

-- What the decoder has read of an escape.
pub data Pending : Type 0 where
  ready first : Pending
  second : ℕ → Pending

abbrev pub hex_value : ℕ → ℕ
hex_value c = if leb b'A' c then c - 55 else c - 48

-- The decoding of a form's text: a plus sign for a space, and two digits behind a percent sign.
unfoldable pub decode : Pending → Bytes → Bytes
decode p [] = []
decode ready (c ∷ s) =
    let escape = decode first s in
    let rest = decode ready s in
    if c == b'%' then escape else (if c == b'+' then b' ' else c) ∷ rest
decode first (c ∷ s) = decode (second (hex_value c)) s
decode (second h) (c ∷ s) = (h * 16 + hex_value c) ∷ decode ready s

unfoldable pub url_decode : Bytes → Bytes
unfolding decode
url_decode s = decode ready s

abbrev pub AllBytes : Bytes → Type 0
AllBytes [] = Unit {0}
AllBytes (c ∷ s) = (c < 256) × AllBytes s

abbrev is_kept : ℕ → Bool
is_kept c = is_alnum c || (c == b'-' || (c == b'_' || (c == b'.' || c == b'~')))

encode_kept : (c : ℕ) → is_kept c ≡ true → encode_char c ≡ c ∷ []
unfolding encode_char
encode_kept c k = rw k refl

encode_escaped :
    (c : ℕ)
    → is_kept c ≡ false
    → (c == b' ') ≡ false
    → encode_char c ≡ b'%' ∷ hex_char (c / 16 % 16) ∷ hex_char (c % 16) ∷ []
unfolding encode_char
encode_escaped c k e = rw (k, e) refl

hex_value-hex_char : (d : ℕ) → d < 16 → hex_value (hex_char d) ≡ d
unfolding hex_char
hex_value-hex_char d h = ground arith

decode_kept : (c : ℕ) (t : Bytes) → is_kept c ≡ true → decode ready (c ∷ t) ≡ c ∷ decode ready t
unfolding decode
decode_kept c t k = ground arith

decode_escaped :
    (a b : ℕ) (t : Bytes)
    → decode ready (b'%' ∷ a ∷ b ∷ t) ≡ (hex_value a * 16 + hex_value b) ∷ decode ready t
unfolding decode ℕ_discrete
decode_escaped a b t = refl

decode_space : (t : Bytes) → decode ready (encode_char b' ' ++ t) ≡ b' ' ∷ decode ready t
unfolding decode encode_char ℕ_discrete
decode_space t = refl

decode-encode_char :
    (c : ℕ) (t : Bytes) → c < 256 → decode ready (encode_char c ++ t) ≡ c ∷ decode ready t
decode-encode_char c t b = elim (Bool-cases (is_kept c)) [
  | inl k ↦ ap (λ u. decode ready (u ++ t)) (encode_kept c k) ∙ decode_kept c t k
  | inr k ↦ elim (ℕ_discrete c 32) [
    | yes e ↦ rw e (decode_space t)
    | no n ↦
        ap (λ u. decode ready (u ++ t)) (encode_escaped c k (ground arith))
        ∙ decode_escaped (hex_char (c / 16 % 16)) (hex_char (c % 16)) t
        ∙ ap (λ n. n ∷ decode ready t)
            (omega (
              arith,
              hex_value-hex_char (c / 16 % 16) (omega arith),
              hex_value-hex_char (c % 16) (omega arith),
            ))
  ]
]

-- A text of bytes is decoded from its encoding, spaces, percent signs and plus signs included.
pub url_decode-url_encode : (s : Bytes) → AllBytes s → url_decode (url_encode s) ≡ s
unfolding url_encode url_decode decode
url_decode-url_encode [] b = refl
url_decode-url_encode (c ∷ s) (b, bs) =
    decode-encode_char c (url_encode s) b ∙ ap (λ t. c ∷ t) (url_decode-url_encode s bs)

-- A character that has no meaning of its own in a query: no space, ampersand, hash or the like.
abbrev pub is_query_char : ℕ → Bool
is_query_char c = is_kept c || (c == b'+' || c == b'%')

all_of-append : (p : ℕ → Bool) (s t : Bytes) → all_of p (s ++ t) ≡ (all_of p s && all_of p t)
unfolding all_of
all_of-append p [] t = refl
all_of-append p (c ∷ s) t = ground (arith, all_of-append p s t)

hex_char-is_kept : (d : ℕ) → d < 16 → is_kept (hex_char d) ≡ true
unfolding hex_char
hex_char-is_kept d h = ground arith

encode_char-is_query_char : (c : ℕ) → all_of is_query_char (encode_char c) ≡ true
unfolding encode_char all_of
encode_char-is_query_char c =
    ground
      (arith, hex_char-is_kept (c / 16 % 16) (omega arith), hex_char-is_kept (c % 16) (omega arith))

-- The encoding of any text has letters, digits and the characters "-_.~+%" only: what is typed
-- cannot add a parameter or a fragment to the search address.
pub url_encode-is_query_char : (s : Bytes) → all_of is_query_char (url_encode s) ≡ true
unfolding url_encode all_of
url_encode-is_query_char [] = refl
url_encode-is_query_char (c ∷ s) =
    all_of-append is_query_char (encode_char c) (url_encode s)
    ∙ ground (arith, encode_char-is_query_char c, url_encode-is_query_char s)
