-- ===== src/AddressInput.antt =====
-- core/navigation/address_input.h and address_input.cpp: the address that is meant by what is typed
-- in the address field. A text is the list of its bytes, and the tests on a character are those of
-- the C locale.
pub mod Encoding
pub mod Addresses
use openbrowser.Prelude.Bytes.{Bytes, bytes, bytes_eq, strip, split_at, take_until}
use openbrowser.Prelude.{
  ℕ, ◌+◌, ◌-◌, ◌*◌, ◌/◌, ◌%◌, Bool, true, false, ◌||◌, ◌&&◌, not, Option, none, some, List, [], ◌∷◌,
  ◌++◌, ltb, leb, ◌==◌, ℕ_eq, length, if◌then◌else◌,
}

abbrev pub is_space : ℕ → Bool
is_space c = c == 32 || leb 9 c && leb c 13

abbrev pub is_cntrl : ℕ → Bool
is_cntrl c = ltb c 32 || c == 127

abbrev pub is_digit : ℕ → Bool
is_digit c = leb b'0' c && leb c b'9'

abbrev pub is_alpha : ℕ → Bool
is_alpha c = leb b'A' c && leb c b'Z' || leb b'a' c && leb c b'z'

abbrev pub is_alnum : ℕ → Bool
is_alnum c = is_alpha c || is_digit c

abbrev pub is_xdigit : ℕ → Bool
is_xdigit c = is_digit c || (leb b'A' c && leb c b'F' || leb b'a' c && leb c b'f')

-- `std::all_of`.
unfoldable pub all_of : (ℕ → Bool) → Bytes → Bool
all_of p [] = true
all_of p (c ∷ s) = p c && all_of p s

-- The text from the first byte of a class on.
unfoldable pub drop_until : (ℕ → Bool) → Bytes → Bytes
drop_until p [] = []
drop_until p (c ∷ s) = if p c then c ∷ s else drop_until p s

unfoldable pub trim_end : Bytes → Bytes
trim_end [] = []
trim_end (c ∷ s) = elim (trim_end s) [ [] ↦ if is_space c then [] else c ∷ [] | d ∷ r ↦ c ∷ d ∷ r ]

unfoldable pub trim_ascii_whitespace : Bytes → Bytes
unfolding drop_until trim_end
trim_ascii_whitespace s = trim_end (drop_until (λ c. not (is_space c)) s)

unfoldable pub lower_ascii : ℕ → ℕ
lower_ascii c = if leb b'A' c && leb c b'Z' then c + 32 else c

-- The rest behind a prefix, in any case of the letters.
unfoldable pub strip_case_insensitive : Bytes → Bytes → Option Bytes
strip_case_insensitive [] s = some s
strip_case_insensitive (p ∷ ps) [] = none
strip_case_insensitive (p ∷ ps) (c ∷ s) =
    if lower_ascii c == lower_ascii p then strip_case_insensitive ps s else none

abbrev pub is_some : Option Bytes → Bool
is_some none = false
is_some (some s) = true

abbrev pub starts_with_case_insensitive : Bytes → Bytes → Bool
starts_with_case_insensitive value prefix = is_some (strip_case_insensitive prefix value)

unfoldable pub scheme_goes_on : Bytes → Bool
scheme_goes_on [] = false
scheme_goes_on (c ∷ s) =
    if c == b':'
    then true
    else if is_alnum c || (c == b'+' || (c == b'-' || c == b'.'))
    then scheme_goes_on s
    else false

unfoldable pub has_explicit_scheme : Bytes → Bool
unfolding scheme_goes_on
has_explicit_scheme [] = false
has_explicit_scheme (c ∷ s) = is_alpha c && scheme_goes_on s

abbrev pub ends_path : ℕ → Bool
ends_path c = c == b'/' || (c == b'?' || c == b'#')

abbrev pub ends_host : ℕ → Bool
ends_host c = ends_path c || c == b':'

abbrev pub ends_name : Option Bytes → Bool
ends_name none = false
ends_name (some []) = true
ends_name (some (c ∷ s)) = ends_host c

unfoldable pub is_loopback_address : Bytes → Bool
unfolding strip_case_insensitive
is_loopback_address s =
    ends_name (strip_case_insensitive (bytes "localhost") s)
    || (is_some (strip (bytes "127.") s) || is_some (strip (bytes "[::1]") s))

abbrev pub prepend_part : ℕ → List Bytes → List Bytes
prepend_part c [] = (c ∷ []) ∷ []
prepend_part c (part ∷ parts) = (c ∷ part) ∷ parts

-- The parts between the dots.
unfoldable pub split_dots : Bytes → List Bytes
split_dots [] = [] ∷ []
split_dots (c ∷ s) =
    let parts = split_dots s in if c == b'.' then [] ∷ parts else prepend_part c parts

unfoldable pub decimal : ℕ → Bytes → ℕ
decimal val [] = val
decimal val (c ∷ s) = decimal (val * 10 + (c - b'0')) s

abbrev pub is_octet : Bytes → Bool
is_octet s =
    not (length s == 0) && (leb (length s) 3 && (all_of is_digit s && leb (decimal 0 s) 255))

unfoldable pub are_octets : List Bytes → Bool
are_octets [] = true
are_octets (part ∷ parts) = is_octet part && are_octets parts

abbrev pub is_port : Bytes → Bool
is_port s = not (length s == 0) && (leb (length s) 5 && all_of is_digit s)

-- What comes behind the host: a port is between the colon and the path.
abbrev pub has_valid_port : Bytes → Bool
has_valid_port [] = true
has_valid_port (c ∷ s) = if c == b':' then is_port (take_until ends_path s) else true

unfoldable pub looks_like_ipv4_literal : Bytes → Bool
unfolding split_dots are_octets drop_until
looks_like_ipv4_literal s =
    let parts = split_dots (take_until ends_host s) in
    are_octets parts && (length parts == 4 && has_valid_port (drop_until ends_host s))

abbrev pub is_colon : ℕ → Bool
is_colon c = c == b':'

abbrev pub behind_bracket : Bytes → Bool
behind_bracket [] = true
behind_bracket (c ∷ s) = if c == b':' then is_port (take_until ends_path s) else ends_path c

abbrev pub is_inside : Bytes → Bool
is_inside s =
    not (length s == 0)
    && (all_of (λ c. is_colon c || (is_xdigit c || c == b'.')) s
        && not (all_of (λ c. not (is_colon c)) s))

abbrev pub closes_bracket : Bytes → Bool
closes_bracket [] = false
closes_bracket (c ∷ s) = behind_bracket s

unfoldable pub looks_like_ipv6_literal : Bytes → Bool
unfolding all_of drop_until
looks_like_ipv6_literal [] = false
looks_like_ipv6_literal (c ∷ s) =
    c == b'['
    && (is_inside (take_until (λ d. d == b']') s) && closes_bracket (drop_until (λ d. d == b']') s))

abbrev pub prepend_first : ℕ → Bytes × Bytes → Bytes × Bytes
prepend_first c (before, after) = (c ∷ before, after)

-- `rfind('.')`: the text before the last dot, and the text behind it.
unfoldable pub split_last_dot : Bytes → Option (Bytes × Bytes)
split_last_dot [] = none
split_last_dot (c ∷ s) = elim (split_last_dot s) [
  | some parts ↦ some (prepend_first c parts)
  | none ↦ if c == b'.' then some ([], s) else none
]

unfoldable pub looks_like_host_or_domain : Bytes → Bool
unfolding split_last_dot all_of
looks_like_host_or_domain s = elim (split_last_dot (take_until ends_host s)) [
  | none ↦ false
  | some (before, tld) ↦ not (length before == 0) && (leb 2 (length tld) && all_of is_alnum tld)
]

unfoldable pub hex_char : ℕ → ℕ
hex_char d = if ltb d 10 then d + 48 else d + 55

unfoldable pub encode_char : ℕ → Bytes
unfolding hex_char
encode_char c =
    if is_alnum c || (c == b'-' || (c == b'_' || (c == b'.' || c == b'~')))
    then c ∷ []
    else if c == b' '
    then b'+' ∷ []
    else b'%' ∷ hex_char (c / 16 % 16) ∷ hex_char (c % 16) ∷ []

unfoldable pub url_encode : Bytes → Bytes
unfolding encode_char
url_encode [] = []
url_encode (c ∷ s) = encode_char c ++ url_encode s

abbrev pub looks_like_host : Bytes → Bool
looks_like_host s =
    looks_like_ipv4_literal s || (looks_like_ipv6_literal s || looks_like_host_or_domain s)

abbrev pub has_no_space_or_cntrl : Bytes → Bool
has_no_space_or_cntrl s = all_of (λ c. not (is_space c || is_cntrl c)) s

abbrev pub is_web_address : Bytes → Bool
is_web_address s =
    starts_with_case_insensitive s (bytes "https://")
    || starts_with_case_insensitive s (bytes "http://")

abbrev pub normalize_trimmed : Bytes → Option Bytes
normalize_trimmed s =
    if length s == 0
    then none
    else if not (has_no_space_or_cntrl s)
    then none
    else if is_web_address s
    then some s
    else if is_loopback_address s
    then some (bytes "http://" ++ s)
    else if has_explicit_scheme s
    then none
    else if looks_like_host s
    then some (bytes "https://" ++ s)
    else none

unfoldable pub normalize_address_input : Bytes → Option Bytes
unfolding trim_ascii_whitespace
normalize_address_input s = normalize_trimmed (trim_ascii_whitespace s)

unfoldable pub search_url : Bytes → Bytes → Bytes
unfolding url_encode
search_url template query = elim (split_at (bytes "%s") template) [
  | none ↦ template ++ url_encode query
  | some (before, after) ↦ before ++ (url_encode query ++ after)
]

abbrev pub resolve_trimmed : Bytes → Bytes → Option Bytes
resolve_trimmed s template =
    if length s == 0
    then none
    else if is_web_address s || starts_with_case_insensitive s (bytes "about:")
    then some s
    else if is_loopback_address s
    then some (bytes "http://" ++ s)
    else if has_no_space_or_cntrl s && (not (has_explicit_scheme s) && looks_like_host s)
    then some (bytes "https://" ++ s)
    else some (search_url template s)

-- The provider is its `search_url_template`.
unfoldable pub resolve_address_input : Bytes → Bytes → Option Bytes
unfolding trim_ascii_whitespace search_url
resolve_address_input s template = resolve_trimmed (trim_ascii_whitespace s) template
