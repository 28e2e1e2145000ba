-- ===== src/Persistence/Document.antt =====
-- core/session/session_persistence.cpp: the JSON document of a snapshot.
pub mod Texts
pub mod Records
pub mod RoundTrip
use openbrowser.Prelude.Bytes.{Bytes, bytes, bytes_eq}
use openbrowser.Prelude.Characters.{text}
use openbrowser.Prelude.{
  ℕ, String, Bool, true, false, ◌&&◌, Option, none, some, List, [], ◌∷◌, ◌++◌, ◌==◌, ℕ_eq, is_empty,
  if◌then◌else◌, to_string, not,
}
use openbrowser.Prelude.Keyed.{map_option}
use openbrowser.Tabs.{TabLifecycle, active, background, suspended, discarded}
use openbrowser.FocusQueue.{FocusState, now, next, later, paused}
use openbrowser.Json.{
  Json, null, bool, string, array, object, Items, no_items, item, Members, find,
  get_optional_string, get_string, get_bool, get_size,
}
use openbrowser.Json.Parser.{parse_json}
use openbrowser.Json.Printer.{quoted, quoted_or_null, item_object, document, item_array}
use openbrowser.Persistence.{SessionTabRecord, FocusItemRecord, SessionSnapshot}

abbrev pub lifecycle_to_string : TabLifecycle → String
lifecycle_to_string active = "Active"
lifecycle_to_string background = "Background"
lifecycle_to_string suspended = "Suspended"
lifecycle_to_string discarded = "Discarded"

unfoldable pub string_to_lifecycle : Bytes → TabLifecycle
string_to_lifecycle s =
    if s == bytes "Active"
    then active
    else if s == bytes "Suspended"
    then suspended
    else if s == bytes "Discarded"
    then discarded
    else background

abbrev pub focus_state_to_string : FocusState → String
focus_state_to_string now = "Now"
focus_state_to_string next = "Next"
focus_state_to_string later = "Later"
focus_state_to_string paused = "Paused"

unfoldable pub string_to_focus_state : Bytes → FocusState
string_to_focus_state s =
    if s == bytes "Now"
    then now
    else if s == bytes "Later"
    then later
    else if s == bytes "Paused"
    then paused
    else next

unfoldable pub serialize_tab : SessionTabRecord → Bytes
serialize_tab r = item_object (
    ("id", quoted r.id)
    ∷ ("url", quoted r.url)
    ∷ ("title", quoted r.title)
    ∷ ("workspace_id", quoted_or_null r.workspace_id)
    ∷ ("lifecycle", quoted (lifecycle_to_string r.lifecycle))
    ∷ [])

unfoldable pub serialize_item : FocusItemRecord → Bytes
serialize_item r = item_object (
    ("id", quoted r.id)
    ∷ ("url", quoted r.url)
    ∷ ("tab_id", quoted_or_null r.tab_id)
    ∷ ("workspace_id", quoted_or_null r.workspace_id)
    ∷ ("state", quoted (focus_state_to_string r.state))
    ∷ [])

unfoldable pub serialize : SessionSnapshot → Bytes
unfolding serialize_tab serialize_item
serialize p = document (
    ("schema_version", bytes (to_string p.schema_version))
    ∷ ("clean_shutdown", if p.clean_shutdown then bytes "true" else bytes "false")
    ∷ ("active_tab_id", quoted_or_null p.active_tab_id)
    ∷ ("tabs", item_array serialize_tab p.tabs)
    ∷ ("focus_items", item_array serialize_item p.focus_items)
    ∷ [])

abbrev pub optional_text : Option Bytes → Option String
optional_text = map_option text

module _ {D : Type 0} where
  abbrev pub is_object : Json D → Bool
  is_object (object ms) = true
  is_object _ = false

  abbrev pub is_bool : Option (Json D) → Bool
  is_bool (some (bool b)) = true
  is_bool _ = false

  abbrev pub is_null_or_string : Option (Json D) → Bool
  is_null_or_string (some null) = true
  is_null_or_string (some (string s)) = true
  is_null_or_string _ = false

  abbrev pub is_array : Option (Json D) → Bool
  is_array (some (array is)) = true
  is_array _ = false

  abbrev pub items_in : Option (Json D) → Items D
  items_in (some (array is)) = is
  items_in _ = no_items

  abbrev pub read_tab : Json D → SessionTabRecord
  read_tab j = record {
    id = text (get_string (bytes "id") [] j);
    url = text (get_string (bytes "url") [] j);
    title = text (get_string (bytes "title") [] j);
    workspace_id = optional_text (get_optional_string (bytes "workspace_id") j);
    lifecycle = string_to_lifecycle (get_string (bytes "lifecycle") [] j);
  }

  abbrev pub read_item : Json D → FocusItemRecord
  read_item j = record {
    id = text (get_string (bytes "id") [] j);
    url = text (get_string (bytes "url") [] j);
    tab_id = optional_text (get_optional_string (bytes "tab_id") j);
    workspace_id = optional_text (get_optional_string (bytes "workspace_id") j);
    state = string_to_focus_state (get_string (bytes "state") [] j);
  }

  -- The records of the objects in an array: one without an id is left out.
  module _ {R : Type 0} (read : Json D → R) (id_of : R → String) where
    unfoldable pub read_records : Items D → List R
    read_records no_items = []
    read_records (item j js) =
        let others = read_records js in
        if is_object j && not (is_empty (id_of (read j))) then read j ∷ others else others

module _ {D : Type 0} (stod : Bytes → Option D) (to_size : D → Option ℕ) where
  unfoldable pub is_valid_root : Json D → Bool
  is_valid_root root =
      is_object root
      && (get_size to_size (bytes "schema_version") 0 root == 1
          && (is_bool (find (bytes "clean_shutdown") root)
              && (is_null_or_string (find (bytes "active_tab_id") root)
                  && (is_array (find (bytes "tabs") root)
                      && is_array (find (bytes "focus_items") root)))))

  unfoldable pub is_valid_session_document : Bytes → Bool
  unfolding is_valid_root
  is_valid_session_document content = elim (parse_json stod content) [
    | none ↦ false
    | some root ↦ is_valid_root root
  ]

  unfoldable pub read_snapshot : Json D → SessionSnapshot
  unfolding read_records
  read_snapshot root = record {
    schema_version = get_size to_size (bytes "schema_version") 1 root;
    clean_shutdown = get_bool (bytes "clean_shutdown") false root;
    active_tab_id = optional_text (get_optional_string (bytes "active_tab_id") root);
    tabs = read_records read_tab (λ r. r.id) (items_in (find (bytes "tabs") root));
    focus_items = read_records read_item (λ r. r.id) (items_in (find (bytes "focus_items") root));
  }

  unfoldable pub deserialize : Bytes → Option SessionSnapshot
  unfolding is_valid_session_document read_snapshot
  deserialize json =
      if is_valid_session_document json
      then map_option read_snapshot (parse_json stod json)
      else none

  -- `read_file` gives the content that is recovered from a file, if there is any.
  unfoldable pub load_from_file : (String → Option Bytes) → String → Option SessionSnapshot
  unfolding deserialize
  load_from_file read_file path =
      if is_empty path
      then none
      else elim (read_file path) [ none ↦ none | some content ↦ deserialize content ]

  unfoldable pub was_last_shutdown_clean : (String → Option Bytes) → String → Bool
  unfolding load_from_file
  was_last_shutdown_clean read_file path = elim (load_from_file read_file path) [
    | none ↦ true
    | some p ↦ p.clean_shutdown
  ]
