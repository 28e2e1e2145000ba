-- ===== src/Tests/Policies.antt =====
-- Examples for core/capabilities and for the discarding of tabs.
use openbrowser.Prelude.Bytes.{Bytes, bytes, bytes_eq, to_lower, strip, split_at}
use openbrowser.Prelude.{
  ℕ, String, ◌≡◌, refl, inl, inr, true, false, ◌&&◌, not, none, some, List, [], ◌∷◌, ◌++◌, ◌==◌,
  string_eq, ℕ_discrete, holds, length, if◌then◌else◌,
}
use openbrowser.Tabs.{Tab, background, discarded}
use openbrowser.Session.TabList.{lifecycle_of}
use openbrowser.Session.{BrowserSession, create}
use openbrowser.Session.Requests.{Request, open_one, run}
use openbrowser.Session.Invariant.Steps.{run-Inv}
use openbrowser.Privacy.{fresh_tab}
use openbrowser.TabDiscard.{
  TabDiscardConfig, CandidateEntry, is_eligible, is_protected, is_alive_background, eligible_from,
  eligible_entries, selected_entries, sort, insert_sorted, is_before, discard_count,
  total_alive_background, enforce,
}
use openbrowser.TabDiscard
use openbrowser.TabDiscard.Select.{find_entry}
use openbrowser.TabDiscard.Enforce.{enforce_lem}
use openbrowser.Capabilities.{
  microphone, allow, capability_eq, CapabilityContext, create_default, is_nil, scoped, or_next,
  resolve, set_session, set_origin, set_workspace, set_global, can_navigate, can_load_resource,
}
use openbrowser.Capabilities.Rules.{resolve-set}
use openbrowser.Capabilities.Schemes.{script_refused, script_passes}

abbrev config : TabDiscardConfig
config = record {
  max_alive_background_tabs = 1;
  protect_focus_queue_now = true;
  protect_playing_audio = true;
}

-- A tab in the background, last activated at the given time.
abbrev seen : String → ℕ → Tab
seen id n = record (fresh_tab id "Page" false) {
  url = "https://page.test/";
  lifecycle = background;
  last_activated_sequence = n;
}

abbrev requests : List Request
requests =
    open_one (seen "a" 0) true ∷ open_one (seen "b" 0) false ∷ open_one (seen "c" 0) false ∷ []

enforce_example :
    let s = run create requests in
    let selected = selected_entries config s none TabDiscard.critical in
    let (s', n) = enforce config s none TabDiscard.critical in
    (n ≡ length selected)
    × ((j : String)
        → lifecycle_of j s'.tabs ≡ (elim (find_entry j selected) [
          | some _ ↦ some discarded
          | none ↦ lifecycle_of j s.tabs
        ]))
enforce_example =
    enforce_lem config (run create requests) none TabDiscard.critical (run-Inv requests)

abbrev three_tabs : BrowserSession
three_tabs = record {
  tabs = seen "a" 3 ∷ seen "b" 2 ∷ seen "c" 1 ∷ [];
  closed_tabs = [];
  active_tab_id = some "a";
  observers = [];
  last_activated_counter = 3;
  restored_counter = 0;
  effects = [];
}

-- One of the two background tabs is over the limit: the older one.
abbrev oldest : CandidateEntry
oldest = record { id = "c"; lru_seq = 1; original_index = 2 }

abbrev context : CapabilityContext
context = record {
  workspace_id = none;
  origin = some (bytes "https://page.test");
  session_id = some "s";
}

-- A rule for the microphone in the session, and one for another session.
resolve-set_example :
    let p = create_default in
    let x = context in
    ((k : String)
      → resolve (set_session p k microphone allow) microphone x ≡ (
          if holds x.session_id k && microphone == microphone
          then allow
          else resolve p microphone x))
    × ((o : Bytes)
        → resolve (set_origin p o microphone allow) microphone x ≡ (
            if not (is_nil o) && (holds x.origin o && microphone == microphone)
            then or_next (scoped x.session_id p.session_rules microphone) allow
            else resolve p microphone x))
    × ((k : String)
        → resolve (set_workspace p k microphone allow) microphone x ≡ (
            if holds x.workspace_id k && microphone == microphone
            then or_next
                (scoped x.session_id p.session_rules microphone)
                (or_next (scoped x.origin p.origin_rules microphone) allow)
            else resolve p microphone x))
    × (resolve (set_global p microphone allow) microphone x ≡ (
        if microphone == microphone
        then or_next (scoped x.session_id p.session_rules microphone) (
            or_next
              (scoped x.origin p.origin_rules microphone)
              (or_next (scoped x.workspace_id p.workspace_rules microphone) allow))
        else resolve p microphone x))
resolve-set_example = resolve-set create_default microphone microphone allow context

script_refused_example :
    (can_navigate create_default (bytes "JavaScript" ++ b':' ∷ bytes "alert(1)") context ≡ false)
    × (can_load_resource create_default (bytes "JavaScript" ++ b':' ∷ bytes "alert(1)") [] context
        ≡ false)
unfolding to_lower split_at strip ℕ_discrete
script_refused_example =
    script_refused create_default context (bytes "JavaScript") (bytes "alert(1)") [] (inl refl)
      (inr refl)

script_passes_example :
    (can_navigate create_default (bytes "javascript" ++ b':' ∷ bytes "a//://") context ≡ true)
    × (can_load_resource create_default (bytes "javascript" ++ b':' ∷ bytes "a//://") [] context
        ≡ true)
unfolding to_lower split_at strip ℕ_discrete
script_passes_example =
    script_passes context (bytes "javascript") (bytes "a//://") (bytes "a//") [] [] (inl refl) refl
      refl
