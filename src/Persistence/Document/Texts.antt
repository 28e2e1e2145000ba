-- ===== src/Persistence/Document/Texts.antt =====
-- The keys of the document, its words for the states, and its texts, read back.
use openbrowser.Prelude.Bytes.{Bytes, bytes, bytes_eq, bytes_discrete}
use openbrowser.Prelude.Characters.{text-bytes}
use openbrowser.Prelude.{String, ◌≡◌, refl, ap, Option, none, some, [], ℕ_eq, ℕ_discrete}
use openbrowser.Tabs.{TabLifecycle, active, background, suspended, discarded}
use openbrowser.FocusQueue.{FocusState, now, next, later, paused}
use openbrowser.Json.{
  Json, null, string, find, get_optional_string, get_string, escape, escape_chars, escape_char,
}
use openbrowser.Json.Parser.Strings.{parse_string-escape}
use openbrowser.Json.Parser.Spelling.{Spells, string-Spells, null-Spells}
use openbrowser.Json.Printer.{quoted, quoted_or_null}
use openbrowser.Json.Parser.Documents.{IsKey}
use openbrowser.Persistence.Document.{
  lifecycle_to_string, string_to_lifecycle, focus_state_to_string, string_to_focus_state,
  optional_text,
}

pub id_IsKey : IsKey "id"
unfolding escape escape_chars escape_char ℕ_discrete
id_IsKey rest = parse_string-escape (bytes "id") rest

pub url_IsKey : IsKey "url"
unfolding escape escape_chars escape_char ℕ_discrete
url_IsKey rest = parse_string-escape (bytes "url") rest

pub title_IsKey : IsKey "title"
unfolding escape escape_chars escape_char ℕ_discrete
title_IsKey rest = parse_string-escape (bytes "title") rest

pub workspace_id_IsKey : IsKey "workspace_id"
unfolding escape escape_chars escape_char ℕ_discrete
workspace_id_IsKey rest = parse_string-escape (bytes "workspace_id") rest

pub lifecycle_IsKey : IsKey "lifecycle"
unfolding escape escape_chars escape_char ℕ_discrete
lifecycle_IsKey rest = parse_string-escape (bytes "lifecycle") rest

pub tab_id_IsKey : IsKey "tab_id"
unfolding escape escape_chars escape_char ℕ_discrete
tab_id_IsKey rest = parse_string-escape (bytes "tab_id") rest

pub state_IsKey : IsKey "state"
unfolding escape escape_chars escape_char ℕ_discrete
state_IsKey rest = parse_string-escape (bytes "state") rest

pub schema_version_IsKey : IsKey "schema_version"
unfolding escape escape_chars escape_char ℕ_discrete
schema_version_IsKey rest = parse_string-escape (bytes "schema_version") rest

pub clean_shutdown_IsKey : IsKey "clean_shutdown"
unfolding escape escape_chars escape_char ℕ_discrete
clean_shutdown_IsKey rest = parse_string-escape (bytes "clean_shutdown") rest

pub active_tab_id_IsKey : IsKey "active_tab_id"
unfolding escape escape_chars escape_char ℕ_discrete
active_tab_id_IsKey rest = parse_string-escape (bytes "active_tab_id") rest

pub tabs_IsKey : IsKey "tabs"
unfolding escape escape_chars escape_char ℕ_discrete
tabs_IsKey rest = parse_string-escape (bytes "tabs") rest

pub focus_items_IsKey : IsKey "focus_items"
unfolding escape escape_chars escape_char ℕ_discrete
focus_items_IsKey rest = parse_string-escape (bytes "focus_items") rest

pub string_to_lifecycle-to_string :
    (l : TabLifecycle) → string_to_lifecycle (bytes (lifecycle_to_string l)) ≡ l
unfolding string_to_lifecycle ℕ_discrete bytes_discrete
string_to_lifecycle-to_string active = refl
string_to_lifecycle-to_string background = refl
string_to_lifecycle-to_string suspended = refl
string_to_lifecycle-to_string discarded = refl

pub string_to_focus_state-to_string :
    (l : FocusState) → string_to_focus_state (bytes (focus_state_to_string l)) ≡ l
unfolding string_to_focus_state ℕ_discrete bytes_discrete
string_to_focus_state-to_string now = refl
string_to_focus_state-to_string next = refl
string_to_focus_state-to_string later = refl
string_to_focus_state-to_string paused = refl

module _ {D : Type 0} (stod : Bytes → Option D) where
  abbrev pub value_of : String → Json D
  value_of s = string (bytes s)

  abbrev pub value_or_null : Option String → Json D
  value_or_null none = null
  value_or_null (some s) = value_of s

  pub quoted-Spells : (s : String) → Spells stod (value_of s) (quoted s)
  quoted-Spells s = string-Spells stod (bytes s)

  pub quoted_or_null-Spells : (o : Option String) → Spells stod (value_or_null o) (quoted_or_null o)
  quoted_or_null-Spells none = null-Spells stod
  quoted_or_null-Spells (some s) = quoted-Spells s

  pub optional_text-value_or_null :
      (key : Bytes) (j : Json D) (o : Option String)
      → find key j ≡ some (value_or_null o)
      → optional_text (get_optional_string key j) ≡ o
  unfolding get_optional_string
  optional_text-value_or_null key j none e = rw e refl
  optional_text-value_or_null key j (some s) e = rw e (ap some (text-bytes s))

  pub text-value_of :
      (key : Bytes) (j : Json D) (s : String)
      → find key j ≡ some (value_of s)
      → get_string key [] j ≡ bytes s
  unfolding get_string
  text-value_of key j s e = rw (get_string, e) refl
