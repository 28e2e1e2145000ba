-- ===== src/NetworkTrace/Urls.antt =====
-- The part of devtools/network/network_trace.cpp that takes credentials out of an address.
pub mod Parts
pub mod Secrets
use openbrowser.Prelude.Bytes.{Bytes, bytes, bytes_eq, lower, split_at, take_until}
use openbrowser.Prelude.{
  ℕ, Bool, true, false, ◌||◌, Option, none, some, List, [], ◌∷◌, ◌++◌, ◌==◌, ℕ_eq, if◌then◌else◌,
  map,
}
use openbrowser.AddressInput.{drop_until}
use openbrowser.NetworkTrace.{redacted, any_of}

abbrev pub sensitive_keys : List Bytes
sensitive_keys =
    bytes "token"
    ∷ bytes "access_token"
    ∷ bytes "id_token"
    ∷ bytes "refresh_token"
    ∷ bytes "api_key"
    ∷ bytes "apikey"
    ∷ bytes "auth"
    ∷ bytes "authorization"
    ∷ bytes "password"
    ∷ bytes "passwd"
    ∷ bytes "secret"
    ∷ []

unfoldable pub is_sensitive_query_key : Bytes → Bool
is_sensitive_query_key raw_key = any_of (λ s. s == lower raw_key) sensitive_keys

-- The text behind the last `@`.
unfoldable pub behind_last_at : Bytes → Option Bytes
behind_last_at [] = none
behind_last_at (c ∷ s) = elim (behind_last_at s) [
  | some r ↦ some r
  | none ↦ if c == b'@' then some s else none
]

abbrev pub ends_authority : ℕ → Bool
ends_authority c = c == b'/' || (c == b'?' || c == b'#')

abbrev pub without_userinfo : Bytes → Option (Bytes × Bytes) → Bytes
without_userinfo url none = url
without_userinfo url (some (before, rest)) =
    elim (behind_last_at (take_until ends_authority rest)) [
      | none ↦ url
      | some host ↦
          before ++ bytes "://" ++ redacted ++ b'@' ∷ host ++ drop_until ends_authority rest
    ]

unfoldable pub redact_userinfo : Bytes → Bytes
redact_userinfo url = without_userinfo url (split_at (bytes "://") url)

abbrev pub is_byte : ℕ → ℕ → Bool
is_byte b c = c == b

abbrev pub longer_first : ℕ → List Bytes → List Bytes
longer_first c [] = (c ∷ []) ∷ []
longer_first c (s ∷ ss) = (c ∷ s) ∷ ss

-- The parts between the separators.
unfoldable pub split_on : ℕ → Bytes → List Bytes
split_on separator [] = [] ∷ []
split_on separator (c ∷ s) =
    if c == separator then [] ∷ split_on separator s else longer_first c (split_on separator s)

unfoldable pub join_with : ℕ → List Bytes → Bytes
join_with separator [] = []
join_with separator (s ∷ []) = s
join_with separator (s ∷ t ∷ ss) = s ++ separator ∷ join_with separator (t ∷ ss)

abbrev pub with_value : Bytes → Bytes → Bytes → Bytes
with_value pair key [] = pair
with_value pair key (e ∷ value) =
    key ++ e ∷ (if is_sensitive_query_key key then redacted else value)

unfoldable pub redact_pair : Bytes → Bytes
redact_pair pair = with_value pair (take_until (is_byte b'=') pair) (drop_until (is_byte b'=') pair)

unfoldable pub redact_query : Bytes → Bytes
redact_query query = join_with b'&' (map redact_pair (split_on b'&' query))

abbrev pub with_query : Bytes → Bytes → Bytes → Bytes
with_query url prefix [] = url
with_query url prefix (q ∷ rest) =
    prefix ++ q ∷ (redact_query (take_until (is_byte b'#') rest) ++ drop_until (is_byte b'#') rest)

unfoldable pub redact_query_of_url : Bytes → Bytes
redact_query_of_url url =
    with_query url (take_until (is_byte b'?') url) (drop_until (is_byte b'?') url)

unfoldable pub redact_sensitive_url : Bytes → Bytes
unfolding redact_userinfo
redact_sensitive_url url = redact_query_of_url (redact_userinfo url)
