-- ===== src/Workspaces/Document.antt =====
-- core/workspaces/workspace_manager.cpp: reading the JSON document of the workspaces. `stod` and the
-- cast `to_size` of doubles are the language's; `read_file` gives the content that is recovered from
-- a file.
pub mod Places
pub mod RoundTrip
use openbrowser.Prelude.Bytes.{Bytes, bytes}
use openbrowser.Prelude.Characters.{text}
use openbrowser.Prelude.{
  ℕ, String, Bool, true, false, not, ◌&&◌, ◌||◌, Option, none, some, List, [], ◌∷◌, ◌==◌, ℕ_eq,
  is_empty, if◌then◌else◌,
}
use openbrowser.Json.{Json, Items, no_items, item, string, find, get_string, get_bool, get_size}
use openbrowser.Json.Parser.{parse_json}
use openbrowser.Persistence.Document.{is_object, is_array, items_in}
use openbrowser.Workspaces.{
  Workspace, WorkspaceManager, default_workspace, default_workspace_icon, with_icon, emplace,
  has_workspace, is_no_text,
}

abbrev pub with_workspaces : List Workspace → WorkspaceManager → WorkspaceManager
with_workspaces loaded m = record m { workspaces = emplace default_workspace loaded }

abbrev pub with_active : String → WorkspaceManager → WorkspaceManager
with_active id m = record m { active_workspace_id = if has_workspace m id then id else "default" }

module _ {D : Type 0} where
  abbrev pub is_string : Option (Json D) → Bool
  is_string (some (string s)) = true
  is_string _ = false

  unfoldable pub read_workspace : Json D → Workspace
  read_workspace j =
      let id = text (get_string (bytes "id") [] j) in
      with_icon (record {
        id = id;
        name = get_string (bytes "name") [] j;
        badge_color = get_string (bytes "badge_color") (bytes "#3B82F6") j;
        is_ephemeral = get_bool (bytes "is_ephemeral") false j;
        icon = get_string (bytes "icon") (default_workspace_icon id) j;
      })

  abbrev pub is_kept : Json D → Bool
  is_kept j =
      is_object j && (not (is_empty (read_workspace j).id) && not (read_workspace j).is_ephemeral)

  -- The loop over the array.
  unfoldable pub read_workspaces : List Workspace → Items D → List Workspace
  unfolding emplace read_workspace
  read_workspaces loaded no_items = loaded
  read_workspaces loaded (item j js) =
      read_workspaces (if is_kept j then emplace (read_workspace j) loaded else loaded) js

  abbrev pub loaded_from : Json D → WorkspaceManager → WorkspaceManager
  loaded_from root m =
      with_active (text (get_string (bytes "active_workspace_id") (bytes "default") root))
        (with_workspaces (read_workspaces [] (items_in (find (bytes "workspaces") root))) m)

module _ {D : Type 0} (stod : Bytes → Option D) (to_size : D → Option ℕ) where
  unfoldable pub is_valid_root : Json D → Bool
  is_valid_root root =
      is_object root
      && (get_size to_size (bytes "schema_version") 0 root == 1
          && is_array (find (bytes "workspaces") root))

  unfoldable pub deserialize : Bytes → WorkspaceManager → WorkspaceManager × Bool
  unfolding is_valid_root
  deserialize json m = if is_no_text json then (m, false) else elim (parse_json stod json) [
    | none ↦ (m, false)
    | some root ↦ if is_valid_root root then (loaded_from root m, true) else (m, false)
  ]

  unfoldable pub is_valid_workspace_document : Bytes → Bool
  unfolding is_valid_root
  is_valid_workspace_document content = elim (parse_json stod content) [
    | none ↦ false
    | some root ↦ is_valid_root root && is_string (find (bytes "active_workspace_id") root)
  ]

  unfoldable pub load_from_file :
      (String → Option Bytes) → String → WorkspaceManager → WorkspaceManager × Bool
  unfolding deserialize
  load_from_file read_file path m =
      if is_empty path
      then (m, false)
      else elim (read_file path) [ none ↦ (m, false) | some content ↦ deserialize content m ]
