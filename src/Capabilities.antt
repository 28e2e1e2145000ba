-- ===== src/Capabilities.antt =====
-- core/capabilities/capability_policy.h, capability_policy.cpp and permission_request.h: the rules
-- that allow, deny or ask, by scope, and the checks of navigations and resources. Origins and URLs
-- are bytes. A save is logged with its path and the origin rules, newest first; the JSON text of
-- the file, and loading it, are left out.
pub mod Schemes
pub mod Rules
use openbrowser.Prelude.{
  ℕ, String, Bool, true, false, ◌&&◌, ◌||◌, not, Option, none, some, List, [], ◌∷◌, ◌++◌, Eq, ◌==◌,
  ℕ_eq, string_eq, if◌then◌else◌,
}
use openbrowser.Prelude.Bytes.{Bytes, bytes, bytes_eq, lower, strip, split_at, take_until}
use openbrowser.Prelude.Dict.{lookup, insert, remove}

pub data Capability : Type 0 where
  page_network update_check filter_update sync dns torrent crash_report : Capability
  external_service camera microphone geolocation notifications : Capability
  clipboard_read clipboard_write persistent_storage third_party_storage : Capability
  automation user_script : Capability

pub data CapabilityDecision : Type 0 where
  allow deny ask : CapabilityDecision

pub Capability-discrete : Discrete Capability
Capability-discrete = hlevel

instance abbrev pub capability_eq : Eq Capability
capability_eq = record { discrete = Capability-discrete }

pub record CapabilityContext : Type 0 where
  pub workspace_id : Option String
  pub origin : Option Bytes
  pub session_id : Option String

abbrev pub RuleSet : Type 0
RuleSet = List (Capability × CapabilityDecision)

pub record CapabilityPolicy : Type 0 where
  pub global_rules : RuleSet
  pub workspace_rules : List (String × RuleSet)
  pub origin_rules : List (Bytes × RuleSet)
  pub session_rules : List (String × RuleSet)
  pub auto_save_path : Bytes
  pub saves : List (Bytes × List (Bytes × RuleSet))

abbrev pub empty_policy : CapabilityPolicy
empty_policy = record {
  global_rules = [];
  workspace_rules = [];
  origin_rules = [];
  session_rules = [];
  auto_save_path = [];
  saves = [];
}

abbrev pub is_nil : Bytes → Bool
is_nil [] = true
is_nil (_ ∷ _) = false

-- `map[key]`: the rules of a scope, empty if it has none.
abbrev pub rules_of {ℓ} : {K : Type ℓ} ⦃e : Eq K⦄ → K → List (K × RuleSet) → RuleSet
rules_of k m = elim (lookup k m) [ none ↦ [] | some rules ↦ rules ]

-- `map[key][capability] = decision`.
unfoldable pub set_rule {ℓ} :
    {K : Type ℓ} ⦃e : Eq K⦄
    → K
    → Capability
    → CapabilityDecision
    → List (K × RuleSet)
    → List (K × RuleSet)
set_rule k c d m = insert k (insert c d (rules_of k m)) m

unfoldable pub trigger_auto_save : CapabilityPolicy → CapabilityPolicy
trigger_auto_save p =
    if is_nil p.auto_save_path
    then p
    else record p { saves = (p.auto_save_path, p.origin_rules) ∷ p.saves }

unfoldable pub set_auto_save_path : CapabilityPolicy → Bytes → CapabilityPolicy
set_auto_save_path p path = record p { auto_save_path = path }

unfoldable pub set_global : CapabilityPolicy → Capability → CapabilityDecision → CapabilityPolicy
set_global p c d = record p { global_rules = insert c d p.global_rules }

unfoldable pub set_workspace :
    CapabilityPolicy → String → Capability → CapabilityDecision → CapabilityPolicy
set_workspace p id c d = record p { workspace_rules = set_rule id c d p.workspace_rules }

unfoldable pub set_origin :
    CapabilityPolicy → Bytes → Capability → CapabilityDecision → CapabilityPolicy
set_origin p origin c d =
    if is_nil origin
    then p
    else trigger_auto_save (record p { origin_rules = set_rule origin c d p.origin_rules })

unfoldable pub set_session :
    CapabilityPolicy → String → Capability → CapabilityDecision → CapabilityPolicy
set_session p id c d = record p { session_rules = set_rule id c d p.session_rules }

unfoldable pub get_origin_rules : CapabilityPolicy → Bytes → RuleSet
get_origin_rules p origin = rules_of origin p.origin_rules

unfoldable pub clear_origin_rules : CapabilityPolicy → Bytes → CapabilityPolicy
clear_origin_rules p origin = elim (lookup origin p.origin_rules) [
  | none ↦ p
  | some _ ↦ trigger_auto_save (record p { origin_rules = remove origin p.origin_rules })
]

-- `FindDecision` in one scope of a map of scopes, where the context names one.
abbrev pub scoped {ℓ} :
    {K : Type ℓ} ⦃e : Eq K⦄ → Option K → List (K × RuleSet) → Capability → Option CapabilityDecision
scoped none m c = none
scoped (some k) m c = elim (lookup k m) [ none ↦ none | some rules ↦ lookup c rules ]

abbrev pub or_next : Option CapabilityDecision → CapabilityDecision → CapabilityDecision
or_next none d = d
or_next (some d) _ = d

unfoldable pub resolve : CapabilityPolicy → Capability → CapabilityContext → CapabilityDecision
resolve p c x = or_next (scoped x.session_id p.session_rules c) (
    or_next (scoped x.origin p.origin_rules c) (
      or_next (scoped x.workspace_id p.workspace_rules c) (or_next (lookup c p.global_rules) deny)))

-- The lower-case text before the first occurrence of the separator, if there is any.
abbrev pub scheme_before : Bytes → Bytes → Option Bytes
scheme_before separator url = elim (split_at separator url) [
  | none ↦ none
  | some (before, _) ↦ if is_nil before then none else some (lower before)
]

unfoldable pub extract_scheme : Bytes → Option Bytes
extract_scheme url = elim (scheme_before (bytes "://") url) [
  | some scheme ↦ some scheme
  | none ↦ scheme_before (bytes ":") url
]

abbrev pub ends_origin : ℕ → Bool
ends_origin c = c == b'/' || (c == b'?' || c == b'#')

unfoldable pub extract_origin : Bytes → Option Bytes
extract_origin url = elim (split_at (bytes "://") url) [
  | none ↦ none
  | some (before, after) ↦
      if is_nil before
      then none
      else some (lower (before ++ (bytes "://" ++ take_until ends_origin after)))
]

abbrev pub is_script : Bytes → Bool
is_script scheme = scheme == bytes "javascript" || scheme == bytes "vbscript"

abbrev pub is_allow : CapabilityDecision → Bool
is_allow allow = true
is_allow _ = false

abbrev pub with_origin : CapabilityContext → Option Bytes → CapabilityContext
with_origin x none = x
with_origin x (some o) = record x { origin = some o }

-- The origin of the URL serves where the context has none.
abbrev pub default_origin : CapabilityContext → Option Bytes → CapabilityContext
default_origin x o = elim x.origin [ some _ ↦ x | none ↦ record x { origin = o } ]

unfoldable pub can_navigate : CapabilityPolicy → Bytes → CapabilityContext → Bool
can_navigate p url x = if is_nil url then false else elim (extract_scheme url) [
  | none ↦ false
  | some scheme ↦
      if is_script scheme
      then false
      else if scheme == bytes "about"
      then true
      else is_allow (resolve p page_network (default_origin x (extract_origin url)))
]

-- The initiator is not read.
unfoldable pub can_load_resource : CapabilityPolicy → Bytes → Bytes → CapabilityContext → Bool
can_load_resource p url initiator x = if is_nil url then false else elim (extract_scheme url) [
  | none ↦ false
  | some scheme ↦
      if is_script scheme
      then false
      else if scheme == bytes "data" || (scheme == bytes "blob" || scheme == bytes "about")
      then true
      else is_allow (resolve p page_network (with_origin x (extract_origin url)))
]

unfoldable pub create_default : CapabilityPolicy
create_default =
    let p = set_global empty_policy page_network allow in
    let p = set_global p update_check allow in
    let p = set_global p filter_update allow in
    let p = set_global p dns allow in
    let p = set_global p persistent_storage allow in
    let p = set_global p third_party_storage deny in
    let p = set_global p external_service deny in
    let p = set_global p automation deny in
    let p = set_global p torrent deny in
    let p = set_global p crash_report deny in
    let p = set_global p camera ask in
    let p = set_global p microphone ask in
    let p = set_global p geolocation ask in
    let p = set_global p notifications ask in
    let p = set_global p clipboard_read ask in set_global p clipboard_write ask

-- core/capabilities/permission_request.h.
unfoldable pub should_remember_permission_for_origin : Bool → Bool → Bool
should_remember_permission_for_origin requested_remember is_private_mode =
    requested_remember && not is_private_mode
