-- ===== src/Profiles.antt =====
-- core/profiles/profile_manager.h and profile_manager.cpp: profiles, their secrets in memory, and
-- which profile is active. Profiles are values here: a handle kept outside the manager is not
-- modelled, nor is the overwriting of a text's memory before it is freed.
pub mod Laws
use openbrowser.Prelude.{
  ℕ, ◌+◌, ◌%◌, ◌^◌, String, Bool, true, false, not, Option, none, some, List, [], ◌∷◌, ◌==◌,
  string_eq, is_empty, holds, to_string, ◌<>◌, keep_if, length, if◌then◌else◌,
}
use openbrowser.Prelude.Keyed.{find, modify, erase}
use openbrowser.Prelude.Dict.{lookup, insert, remove}

pub data ProfileType : Type 0 where
  persistent ephemeral : ProfileType

pub record ProfileConfig : Type 0 where
  pub id : String
  pub name : String
  pub type : ProfileType
  pub storage_path : String
  pub enable_telemetry : Bool
  pub clear_cache_on_exit : Bool

pub record Profile : Type 0 where
  pub config : ProfileConfig
  pub open config use {id, name, type, storage_path}
  pub in_memory_vault : List (String × String)
  pub session_data : List (String × String)

abbrev pub is_ephemeral_type : ProfileType → Bool
is_ephemeral_type ephemeral = true
is_ephemeral_type persistent = false

abbrev pub is_ephemeral : Profile → Bool
is_ephemeral p = is_ephemeral_type p.type

abbrev pub new_profile : ProfileConfig → Profile
new_profile c = record { config = c; in_memory_vault = []; session_data = [] }

unfoldable pub set_secret : Profile → String → String → Profile
set_secret p key value = record p { in_memory_vault = insert key value p.in_memory_vault }

abbrev or_blank : Option String → String
or_blank none = ""
or_blank (some v) = v

unfoldable pub get_secret : Profile → String → String
get_secret p key = or_blank (lookup key p.in_memory_vault)

unfoldable pub remove_secret : Profile → String → Profile × Bool
remove_secret p key = elim (lookup key p.in_memory_vault) [
  | none ↦ (p, false)
  | some _ ↦ (record p { in_memory_vault = remove key p.in_memory_vault }, true)
]

unfoldable pub set_session_data : Profile → String → String → Profile
set_session_data p key value = record p { session_data = insert key value p.session_data }

unfoldable pub get_session_data : Profile → String → String
get_session_data p key = or_blank (lookup key p.session_data)

unfoldable pub purge : Profile → Profile
purge p = record p { in_memory_vault = []; session_data = [] }

pub record ProfileManager : Type 0 where
  pub active_profile_id : String
  pub profiles : List Profile
  pub ephemeral_counter : ℕ  -- uint64

abbrev pub profile_id : Profile → String
profile_id p = p.id

abbrev pub find_profile : String → List Profile → Option Profile
find_profile = find profile_id

unfoldable pub create_profile : ProfileManager → ProfileConfig → ProfileManager × Bool
create_profile m c = if is_empty c.id then (m, false) else elim (find_profile c.id m.profiles) [
  | some _ ↦ (m, false)
  | none ↦ (
    record m {
      profiles = new_profile c ∷ m.profiles;
      active_profile_id = if is_empty m.active_profile_id then c.id else m.active_profile_id;
    },
    true,
  )
]

abbrev pub default_config : ProfileConfig
default_config = record {
  id = "default";
  name = "Default Profile";
  type = persistent;
  storage_path = "profiles/default";
  enable_telemetry = false;
  clear_cache_on_exit = false;
}

unfoldable pub create : ProfileManager
create =
    let m : ProfileManager = record {
      active_profile_id = "";
      profiles = [];
      ephemeral_counter = 0;
    } in
    record (create_profile m default_config).0 { active_profile_id = "default" }

abbrev pub get_active_profile : ProfileManager → Option Profile
get_active_profile m = find_profile m.active_profile_id m.profiles

unfoldable pub set_active_profile : ProfileManager → String → ProfileManager × Bool
set_active_profile m id = elim (find_profile id m.profiles) [
  | none ↦ (m, false)
  | some _ ↦ (record m { active_profile_id = id }, true)
]

unfoldable pub remove_profile : ProfileManager → String → ProfileManager × Bool
remove_profile m id = if id == "default" then (m, false) else elim (find_profile id m.profiles) [
  | none ↦ (m, false)
  | some _ ↦ (
    record m {
      profiles = erase profile_id id m.profiles;
      active_profile_id = if m.active_profile_id == id then "default" else m.active_profile_id;
    },
    true,
  )
]

unfoldable pub ephemeral_id : ℕ → String
ephemeral_id n = "ephemeral-" <> to_string n

abbrev pub ephemeral_config : ℕ → String → ProfileConfig
ephemeral_config n name_hint = record {
  id = ephemeral_id n;
  name = if is_empty name_hint then "Private " <> to_string n else name_hint;
  type = ephemeral;
  storage_path = "";
  enable_telemetry = false;
  clear_cache_on_exit = true;
}

-- `profiles_[id] = profile`, whether or not the id was taken.
unfoldable pub create_ephemeral_profile : ProfileManager → String → ProfileManager × Profile
create_ephemeral_profile m name_hint =
    let n = (m.ephemeral_counter + 1) % 2 ^ 64 in
    let p = new_profile (ephemeral_config n name_hint) in
    (
      record m {
        ephemeral_counter = n;
        profiles = p ∷ erase profile_id (ephemeral_id n) m.profiles;
      },
      p,
    )

-- The loop: an ephemeral profile goes, and the default one is active in its place.
unfoldable pub purge_ephemeral_profiles : ProfileManager → ProfileManager
purge_ephemeral_profiles m =
    let gone : Bool = elim (get_active_profile m) [ none ↦ false | some p ↦ is_ephemeral p ] in
    record m {
      profiles = keep_if (λ p. not (is_ephemeral p)) m.profiles;
      active_profile_id = if gone then "default" else m.active_profile_id;
    }
