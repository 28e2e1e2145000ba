-- ===== src/Profiles/Laws.antt =====
-- The default profile is always there and never private, and a purge leaves no private profile.
use text.Mathlib.Text.{starts_with}
use text.Mathlib.TextEquality.{starts_with_iff}
use text.Mathlib.TextLemmas.{prefix-append}
use openbrowser.Prelude.Keyed
use openbrowser.Prelude.{
  ℕ, ◌+◌, ◌%◌, ◌^◌, String, ◌≡◌, ◌≢◌, refl, subst, Bool, true, false, not, Option, none, some, List,
  [], ◌∷◌, arith, string_eq, to_string, string_discrete, ◌<>◌, keep_if, if◌then◌else◌,
}
use openbrowser.Profiles.{
  ProfileConfig, Profile, ProfileManager, is_ephemeral, profile_id, find_profile, create_profile,
  create, get_active_profile, set_active_profile, remove_profile, ephemeral_id,
  create_ephemeral_profile, purge_ephemeral_profiles,
}

abbrev pub is_lasting : Option Profile → Bool
is_lasting none = false
is_lasting (some p) = not (is_ephemeral p)

abbrev pub is_present : Option Profile → Bool
is_present none = false
is_present (some _) = true

pub record Inv (m : ProfileManager) : Type 0 where
  pub distinct : Keyed.Distinct profile_id m.profiles
  pub default_kept : is_lasting (find_profile "default" m.profiles) ≡ true
  pub active_kept : is_present (get_active_profile m) ≡ true

ephemeral_id-ne_default : (n : ℕ) → ephemeral_id n ≢ "default"
unfolding ephemeral_id
ephemeral_id-ne_default n e =
    let prefixed =
      (starts_with_iff ("ephemeral-" <> to_string n) "ephemeral-").1
        (prefix-append "ephemeral-" (to_string n)) in
    let impossible : starts_with "default" "ephemeral-" ≡ true =
      subst (λ s. starts_with s "ephemeral-" ≡ true) e prefixed in
    cc

keep_if-find :
    (j : String) (ps : List Profile)
    → Keyed.Distinct profile_id ps
    → find_profile j (keep_if (λ p. not (is_ephemeral p)) ps) ≡ (elim (find_profile j ps) [
      | none ↦ none
      | some p ↦ if is_ephemeral p then none else some p
    ])
unfolding Keyed.find
keep_if-find j [] d = refl
keep_if-find j (p ∷ ps) d = ground (arith, keep_if-find j ps d.1)

keep_if-Distinct :
    (ps : List Profile)
    → Keyed.Distinct profile_id ps
    → Keyed.Distinct profile_id (keep_if (λ p. not (is_ephemeral p)) ps)
keep_if-Distinct [] d = tt
keep_if-Distinct (p ∷ ps) d = ground (arith, keep_if-find p.id ps d.1, keep_if-Distinct ps d.1)

purge-kept : (m : ProfileManager) → Inv m → Inv (purge_ephemeral_profiles m)
unfolding purge_ephemeral_profiles
purge-kept m v = record {
  distinct = keep_if-Distinct m.profiles v.distinct;
  default_kept = ground (arith, v.default_kept, keep_if-find "default" m.profiles v.distinct);
  active_kept = ground (
    arith,
    v.default_kept,
    v.active_kept,
    keep_if-find "default" m.profiles v.distinct,
    keep_if-find m.active_profile_id m.profiles v.distinct,
  );
}

-- Where the manager has its invariant, the active profile after a purge is there and is not
-- private, whichever was active before.
pub purge-lasting :
    (m : ProfileManager)
    → Inv m
    → is_lasting (get_active_profile (purge_ephemeral_profiles m)) ≡ true
unfolding purge_ephemeral_profiles
purge-lasting m v = ground (
  arith,
  v.default_kept,
  v.active_kept,
  keep_if-find "default" m.profiles v.distinct,
  keep_if-find m.active_profile_id m.profiles v.distinct,
)

create-Inv : Inv create
unfolding create create_profile Keyed.find string_discrete
create-Inv = record { distinct = (refl, tt); default_kept = refl; active_kept = refl }

create_profile-Inv : (m : ProfileManager) (c : ProfileConfig) → Inv m → Inv (create_profile m c).0
unfolding create_profile Keyed.find
create_profile-Inv m c v = ground (arith, v.distinct, v.default_kept, v.active_kept)

pub set_active_profile-Inv :
    (m : ProfileManager) (id : String) → Inv m → Inv (set_active_profile m id).0
unfolding set_active_profile
set_active_profile-Inv m id v = ground (arith, v.distinct, v.default_kept, v.active_kept)

remove_profile-Inv : (m : ProfileManager) (id : String) → Inv m → Inv (remove_profile m id).0
unfolding remove_profile
remove_profile-Inv m id v = ground (
  arith,
  v.distinct,
  v.default_kept,
  v.active_kept,
  Keyed.find-erase profile_id id "default" m.profiles v.distinct,
  Keyed.find-erase profile_id id m.active_profile_id m.profiles v.distinct,
  Keyed.erase-Distinct profile_id id m.profiles v.distinct,
)

create_ephemeral_profile-Inv :
    (m : ProfileManager) (hint : String) → Inv m → Inv (create_ephemeral_profile m hint).0
unfolding create_ephemeral_profile Keyed.find
create_ephemeral_profile-Inv m hint v =
    let id = ephemeral_id ((m.ephemeral_counter + 1) % 2 ^ 64) in
    ground (
      arith,
      ephemeral_id-ne_default ((m.ephemeral_counter + 1) % 2 ^ 64),
      v.distinct,
      v.default_kept,
      v.active_kept,
      Keyed.find-erase profile_id id id m.profiles v.distinct,
      Keyed.find-erase profile_id id "default" m.profiles v.distinct,
      Keyed.find-erase profile_id id m.active_profile_id m.profiles v.distinct,
      Keyed.erase-Distinct profile_id id m.profiles v.distinct,
    )

-- The methods that change the manager.
pub data Change : Type 0 where
  creates : ProfileConfig → Change
  activates removes creates_ephemeral : String → Change
  purges : Change

unfoldable pub change : Change → ProfileManager → ProfileManager
change (creates c) m = (create_profile m c).0
change (activates id) m = (set_active_profile m id).0
change (removes id) m = (remove_profile m id).0
change (creates_ephemeral hint) m = (create_ephemeral_profile m hint).0
change purges m = purge_ephemeral_profiles m

change-Inv : (c : Change) (m : ProfileManager) → Inv m → Inv (change c m)
unfolding change
change-Inv (creates c) m v = create_profile-Inv m c v
change-Inv (activates id) m v = set_active_profile-Inv m id v
change-Inv (removes id) m v = remove_profile-Inv m id v
change-Inv (creates_ephemeral hint) m v = create_ephemeral_profile-Inv m hint v
change-Inv purges m v = purge-kept m v

unfoldable pub changes : ProfileManager → List Change → ProfileManager
changes m [] = m
changes m (c ∷ cs) = changes (change c m) cs

changes_from-Inv : (m : ProfileManager) (cs : List Change) → Inv m → Inv (changes m cs)
unfolding changes
changes_from-Inv m [] v = v
changes_from-Inv m (c ∷ cs) v = changes_from-Inv (change c m) cs (change-Inv c m v)

-- After any methods, in any order, the ids of the profiles are distinct, the default profile is there
-- and is not private, and the active profile is there.
pub changes-Inv : (cs : List Change) → Inv (changes create cs)
changes-Inv cs = changes_from-Inv create cs create-Inv
