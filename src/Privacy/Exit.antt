-- ===== src/Privacy/Exit.antt =====
-- What is left of private mode once it is left.
use openbrowser.Prelude.Keyed
use openbrowser.Prelude.Keyed.{map_option}
use openbrowser.Prelude.{
  String, ◌≡◌, ◌≢◌, ◌⊎◌, refl, sym, ◌∙◌, ap, inl, inr, Bool, true, false, ◌||◌, not, none, some,
  List, [], ◌∷◌, arith, ◌==◌, string_eq, keep_if, to_string, ◌<>◌, if◌then◌else◌, Option-cases,
}
use openbrowser.Tabs.{Tab}
use openbrowser.Profiles.{
  ProfileManager, get_active_profile, purge_ephemeral_profiles, set_active_profile,
}
use openbrowser.Profiles.Laws
use openbrowser.Profiles.Laws.{is_lasting, purge-lasting, set_active_profile-Inv}
use openbrowser.Session.Engine.{purge_ephemeral_context}
use openbrowser.Session.TabList.{tab_id, find_tab, Distinct}
use openbrowser.Session.{
  BrowserSession, ClosedTabRecord, do_not_activate_fallback, increment64, emit, close_tab,
  leave_closed_active, notify_observers,
}
use openbrowser.Session.Closed.{purge_ephemeral_closed_tabs}
use openbrowser.Session.Invariant
use openbrowser.Session.Invariant.{demote_rest, mark_rest}
use openbrowser.Session.Invariant.Close.{close_tab-Inv}
use openbrowser.Privacy.{
  SessionPrivacyOrchestrator, is_private_profile, is_private_mode_active, fresh_tab, first_with,
  tell_mode, set_engine_mode, ephemeral_ids, close_each, restore_persistent_tab, exit_private_mode,
}
use openbrowser.Privacy.Kinds.{privacy_of, activate_tab-Keeps, open_tab-first}

abbrev is_among : String → List String → Bool
is_among j [] = false
is_among j (i ∷ is) = i == j || is_among j is

is_among-ephemeral_ids :
    (j : String) (ts : List Tab)
    → privacy_of j ts ≡ some true
    → is_among j (ephemeral_ids ts) ≡ true
unfolding Keyed.find
is_among-ephemeral_ids j [] h = ground arith
is_among-ephemeral_ids j (t ∷ ts) h = ground (arith, is_among-ephemeral_ids j ts)

find-close_tab :
    (s : BrowserSession) (id j : String)
    → Distinct s.tabs
    → find_tab j (close_tab s id do_not_activate_fallback).0.tabs
      ≡ (if id == j then none else find_tab j s.tabs)
unfolding close_tab leave_closed_active notify_observers
find-close_tab s id j d = ground (arith, Keyed.find-erase tab_id id j s.tabs d)

find-close_each :
    (ids : List String) (s : BrowserSession) (j : String)
    → Invariant.Inv s
    → find_tab j (close_each s ids).tabs ≡ (if is_among j ids then none else find_tab j s.tabs)
unfolding close_each
find-close_each [] s j v = refl
find-close_each (i ∷ ids) s j v =
    let t = (close_tab s i do_not_activate_fallback).0 in
    ground (
      arith,
      find-close_each ids t j (close_tab-Inv s i do_not_activate_fallback v),
      find-close_tab s i j v.distinct,
    )

close_each-clears :
    (s : BrowserSession) (j : String)
    → Invariant.Inv s
    → privacy_of j (close_each s (ephemeral_ids s.tabs)).tabs ≢ some true
close_each-clears s j v h =
    ground (arith, find-close_each (ephemeral_ids s.tabs) s j v, is_among-ephemeral_ids j s.tabs)

List-cases {ℓ} : {A : Type ℓ} (xs : List A) → (xs ≡ []) ⊎ ((x : A) × (ys : List A) × (xs ≡ x ∷ ys))
List-cases [] = inl refl
List-cases (x ∷ xs) = inr (x, xs, refl)

restore-clear :
    (o : SessionPrivacyOrchestrator)
    → ((j : String) → privacy_of j o.session.tabs ≢ some true)
    → let o' = restore_persistent_tab o in
      ((j : String) → privacy_of j o'.session.tabs ≢ some true)
      × (o'.session.closed_tabs ≡ o.session.closed_tabs)
      × (o'.profile_manager ≡ o.profile_manager)
unfolding restore_persistent_tab
restore-clear o clear = elim (List-cases o.session.tabs) [
  | inl e ↦
      let n = increment64 o.persistent_tab_counter in
      let (gone, kept) =
        open_tab-first o.session (fresh_tab ("tab-" <> to_string n) "New Tab" false) e refl in
      rw (e, restore_persistent_tab) (gone, kept, refl)
  | inr (t, ts, e) ↦ elim (Option-cases (first_with false o.session.tabs)) [
    | inl f ↦ rw (e, restore_persistent_tab, f) (clear, refl, refl)
    | inr (id, f) ↦
        let (same, kept) = activate_tab-Keeps o.session id in
        rw (e, restore_persistent_tab, f) (λ j p. clear j (sym (same j) ∙ p), kept, refl)
  ]
]

keep_if-not :
    (rs : List ClosedTabRecord)
    → keep_if (λ r. r.is_ephemeral) (keep_if (λ r. not r.is_ephemeral) rs) ≡ []
keep_if-not [] = refl
keep_if-not (r ∷ rs) = ground (arith, keep_if-not rs)

abbrev told : Bool → BrowserSession → BrowserSession
told has_engine s = if has_engine then emit purge_ephemeral_context (set_engine_mode false s) else s

purged_tabs :
    (has_engine : Bool) (s : BrowserSession)
    → (purge_ephemeral_closed_tabs (told has_engine s)).tabs ≡ s.tabs
unfolding purge_ephemeral_closed_tabs
purged_tabs true s = refl
purged_tabs false s = refl

purged_closed :
    (s : BrowserSession)
    → keep_if (λ r. r.is_ephemeral) (purge_ephemeral_closed_tabs s).closed_tabs ≡ []
unfolding purge_ephemeral_closed_tabs
purged_closed s = keep_if-not s.closed_tabs

tell_mode_rest :
    (o : SessionPrivacyOrchestrator)
    → ((tell_mode false o).session ≡ o.session)
      × ((tell_mode false o).profile_manager ≡ o.profile_manager)
tell_mode_rest o = ground arith

not_private :
    (m : ProfileManager) → is_lasting (get_active_profile m) ≡ true → is_private_profile m ≡ false
not_private m h = ground arith

module _ (o : SessionPrivacyOrchestrator) (v : Invariant.Inv o.session)
    (w : Laws.Inv o.profile_manager) where
  -- Where the session and the profiles have their invariants, leaving private mode leaves no
  -- private tab and no private closed tab, and the active profile is not a private one.
  pub exit_private_mode_lem :
      let o' = exit_private_mode o in
      ((j : String) → privacy_of j o'.session.tabs ≢ some true)
      × (keep_if (λ r. r.is_ephemeral) o'.session.closed_tabs ≡ [])
      × (is_private_mode_active o' ≡ false)
  unfolding exit_private_mode is_private_mode_active
  exit_private_mode_lem =
      let start = (set_active_profile o.profile_manager "default").0 in
      let lasting = purge-lasting start (set_active_profile-Inv o.profile_manager "default" w) in
      let closed = close_each o.session (ephemeral_ids o.session.tabs) in
      let left = purge_ephemeral_closed_tabs (told o.has_engine closed) in
      let o₂ : SessionPrivacyOrchestrator =
        tell_mode false
          (record o { profile_manager = purge_ephemeral_profiles start; session = left }) in
      let (same, managed) =
        tell_mode_rest
          (record o { profile_manager = purge_ephemeral_profiles start; session = left }) in
      let tabs : left.tabs ≡ closed.tabs = purged_tabs o.has_engine closed in
      let (gone, kept, manager) =
        restore-clear o₂ (λ j p. close_each-clears o.session j v (ground (arith, same, tabs, p))) in
      (
        gone,
        ap (keep_if (λ r. r.is_ephemeral)) (kept ∙ ap (λ s. s.closed_tabs) same)
            ∙ purged_closed (told o.has_engine closed),
        ap is_private_profile (manager ∙ managed)
            ∙ not_private (purge_ephemeral_profiles start) lasting,
      )
