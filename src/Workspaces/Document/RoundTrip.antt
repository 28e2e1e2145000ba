-- ===== src/Workspaces/Document/RoundTrip.antt =====
-- The workspaces that are serialized are read back.
use openbrowser.Prelude.Bytes.{Bytes, bytes, bytes_eq, bytes_discrete}
use openbrowser.Prelude.Characters.{text-bytes}
use openbrowser.Prelude.Keyed.{find as find_by_id}
use openbrowser.Prelude.{
  ℕ, ◌≡◌, refl, sym, ◌∙◌, ap, subst, true, false, not, ◌&&◌, Option, some, List, [], ◌∷◌, ◌++◌,
  arith, ℕ_eq, ℕ_discrete, string_eq, is_empty, if◌then◌else◌,
}
use openbrowser.Json.{
  Json, bool, number, string, array, object, find, find_member, get_string, get_bool, get_size,
  escape, escape_chars, escape_char,
}
use openbrowser.Json.Parser.{parse_json}
use openbrowser.Json.Parser.Strings.{parse_string-escape}
use openbrowser.Json.Parser.Spelling.{Spells, bool-Spells, string-Spells}
use openbrowser.Json.Parser.Numbers.{number-Spells}
use openbrowser.Json.Printer.{quoted, item_array}
use openbrowser.Json.Parser.Documents.{
  IsKey, Printed, members_of, item_object-Spells, parse_json-document,
}
use openbrowser.Json.Parser.Arrays.{items_of, AllItems, item_array-Spells}
use openbrowser.Persistence.Document.Texts.{id_IsKey, schema_version_IsKey}
use openbrowser.Workspaces.{
  Workspace, WorkspaceManager, emplace, default_workspace, lasting, serialize, serialize_workspace,
  is_no_text,
}
use openbrowser.Workspaces.Order.{IsOrdered, has}
use mathlib.Core.List.{append_assoc, append-nil}
use openbrowser.Workspaces.Document.Places.{
  AreNamed, AreLasting, lasting-AreLasting, lasting-AreNamed, lasting-IsOrdered, emplace-last,
  emplace-found,
}
use openbrowser.Workspaces.Document.{
  read_workspace, read_workspaces, is_valid_root, deserialize, loaded_from, is_kept,
}

name_IsKey : IsKey "name"
unfolding escape escape_chars escape_char ℕ_discrete
name_IsKey rest = parse_string-escape (bytes "name") rest

badge_color_IsKey : IsKey "badge_color"
unfolding escape escape_chars escape_char ℕ_discrete
badge_color_IsKey rest = parse_string-escape (bytes "badge_color") rest

icon_IsKey : IsKey "icon"
unfolding escape escape_chars escape_char ℕ_discrete
icon_IsKey rest = parse_string-escape (bytes "icon") rest

is_ephemeral_IsKey : IsKey "is_ephemeral"
unfolding escape escape_chars escape_char ℕ_discrete
is_ephemeral_IsKey rest = parse_string-escape (bytes "is_ephemeral") rest

active_workspace_id_IsKey : IsKey "active_workspace_id"
unfolding escape escape_chars escape_char ℕ_discrete
active_workspace_id_IsKey rest = parse_string-escape (bytes "active_workspace_id") rest

workspaces_IsKey : IsKey "workspaces"
unfolding escape escape_chars escape_char ℕ_discrete
workspaces_IsKey rest = parse_string-escape (bytes "workspaces") rest

starts : (m : WorkspaceManager) → is_no_text (serialize m) ≡ false
unfolding serialize
starts m = refl

module _ {D : Type 0} (stod : Bytes → Option D) where
  abbrev workspace_members : Workspace → List (Printed D)
  workspace_members w =
      ("name", string w.name, escape w.name)
      ∷ ("badge_color", string w.badge_color, escape w.badge_color)
      ∷ ("icon", string w.icon, escape w.icon)
      ∷ ("is_ephemeral", bool false, bytes "false")
      ∷ []

  abbrev workspace_value : Workspace → Json D
  workspace_value w =
      object (members_of stod (("id", string (bytes w.id), quoted w.id) ∷ workspace_members w))

  workspace-Spells : (w : Workspace) → Spells stod (workspace_value w) (serialize_workspace w)
  unfolding serialize_workspace
  workspace-Spells w =
      item_object-Spells stod ("id", string (bytes w.id), quoted w.id) (workspace_members w)
        (
          id_IsKey,
          string-Spells stod (bytes w.id),
          (
            name_IsKey,
            string-Spells stod w.name,
            (
              badge_color_IsKey,
              string-Spells stod w.badge_color,
              (
                icon_IsKey,
                string-Spells stod w.icon,
                (is_ephemeral_IsKey, bool-Spells stod false, tt),
              ),
            ),
          ),
        )

  read_workspace-value :
      (w : Workspace)
      → w.is_ephemeral ≡ false
      → is_no_text w.icon ≡ false
      → read_workspace (workspace_value w) ≡ w
  unfolding read_workspace find find_member get_string get_bool ℕ_discrete bytes_discrete
  read_workspace-value w lasts shown =
      rw (text-bytes w.id, shown) (λ i. record w { is_ephemeral = sym lasts i })

  AllItems-workspaces : (ws : List Workspace) → AllItems stod serialize_workspace workspace_value ws
  AllItems-workspaces [] = tt
  AllItems-workspaces (w ∷ ws) = (workspace-Spells w, AllItems-workspaces ws)

  put_behind :
      (loaded ws : List Workspace) (w : Workspace)
      → IsOrdered (loaded ++ w ∷ ws)
      → w.is_ephemeral ≡ false
      → is_empty w.id ≡ false
      → is_no_text w.icon ≡ false
      → (if is_kept (workspace_value w)
          then emplace (read_workspace (workspace_value w)) loaded
          else loaded)
        ≡ loaded ++ w ∷ []
  put_behind loaded ws w o lasts named shown =
      let kept : (not (is_empty w.id) && not w.is_ephemeral) ≡ true =
        ground (arith, named, lasts) in
      rw (read_workspace-value w lasts shown) (rw kept (emplace-last w loaded ws o))

  -- The loop puts each workspace behind those before it.
  read_workspaces-items_of :
      (loaded ws : List Workspace)
      → IsOrdered (loaded ++ ws)
      → AreLasting ws
      → AreNamed ws
      → read_workspaces loaded (items_of stod serialize_workspace workspace_value ws) ≡ loaded ++ ws
  unfolding read_workspaces
  read_workspaces-items_of loaded [] o l n = sym (append-nil loaded)
  read_workspaces-items_of loaded (w ∷ ws) o l n =
      let rest = items_of stod serialize_workspace workspace_value ws in
      let regroup = append_assoc loaded (w ∷ []) ws in
      ap (λ l. read_workspaces l rest) (put_behind loaded ws w o l.0 n.0 n.1)
      ∙ read_workspaces-items_of (loaded ++ w ∷ []) ws (subst IsOrdered (sym regroup) o) l.1 n.2
      ∙ regroup

  abbrev version_value : D → Printed D
  version_value d = ("schema_version", number d, bytes "1")

  abbrev manager_members : WorkspaceManager → List (Printed D)
  manager_members m =
      ("active_workspace_id", string (bytes m.active_workspace_id), quoted m.active_workspace_id)
      ∷ (
        "workspaces",
        array (items_of stod serialize_workspace workspace_value (lasting m.workspaces)),
        item_array serialize_workspace (lasting m.workspaces),
      )
      ∷ []

  abbrev manager_value : D → WorkspaceManager → Json D
  manager_value d m = object (members_of stod (version_value d ∷ manager_members m))

  parse_json-serialize :
      (d : D)
      → stod (bytes "1") ≡ some d
      → (m : WorkspaceManager) → parse_json stod (serialize m) ≡ some (manager_value d m)
  unfolding serialize serialize_workspace
  parse_json-serialize d e m = parse_json-document stod (version_value d) (manager_members m) (
    schema_version_IsKey,
    number-Spells stod b'1' [] d (refl, tt) e,
    (
      active_workspace_id_IsKey,
      string-Spells stod (bytes m.active_workspace_id),
      (
        workspaces_IsKey,
        item_array-Spells stod serialize_workspace workspace_value (lasting m.workspaces)
            (λ w. (_, refl)) (AllItems-workspaces (lasting m.workspaces)),
        tt,
      ),
    ),
  )

  module _ (to_size : D → Option ℕ) (d : D) (sized : to_size d ≡ some 1) where
    size_of :
        (key : Bytes) (default_val : ℕ) (j : Json D)
        → find key j ≡ some (number d)
        → get_size to_size key default_val j ≡ 1
    unfolding get_size
    size_of key default_val j e = rw (get_size, e, sized) refl

    is_valid_root-manager_value :
        (m : WorkspaceManager) → is_valid_root stod to_size (manager_value d m) ≡ true
    unfolding is_valid_root find find_member ℕ_discrete bytes_discrete
    is_valid_root-manager_value m =
        rw (size_of (bytes "schema_version") 0 (manager_value d m) refl) refl

    loaded_from-manager_value :
        (m other : WorkspaceManager)
        → IsOrdered m.workspaces
        → AreNamed m.workspaces
        → has "default" (lasting m.workspaces) ≡ true
        → loaded_from (manager_value d m) other ≡ record other {
          workspaces = lasting m.workspaces;
          active_workspace_id =
              if has m.active_workspace_id (lasting m.workspaces)
              then m.active_workspace_id
              else "default";
        }
    unfolding find find_member get_string ℕ_discrete bytes_discrete
    loaded_from-manager_value m other o n h =
        let kept = lasting m.workspaces in
        let ordered = lasting-IsOrdered m.workspaces o in
        let named = lasting-AreNamed m.workspaces n in
        rw
          (
            read_workspaces-items_of [] kept ordered (lasting-AreLasting m.workspaces) named,
            emplace-found default_workspace kept ordered h,
            text-bytes m.active_workspace_id,
          )
          refl

    -- The workspaces that are serialized are read back into any manager, with its path and its saves:
    -- all that last, as they were, in their order, and the active one, or else "default" where that
    -- was not one of them. This holds where the ids are in order and none is empty, no icon is
    -- empty, the workspace "default" lasts, and `stod` reads the text "1" as a number that `to_size`
    -- turns into 1. Names with quotes, control characters and the like are included.
    pub deserialize-serialize_manager :
        (m other : WorkspaceManager)
        → stod (bytes "1") ≡ some d
        → IsOrdered m.workspaces
        → AreNamed m.workspaces
        → has "default" (lasting m.workspaces) ≡ true
        → deserialize stod to_size (serialize m) other ≡ (
          record other {
            workspaces = lasting m.workspaces;
            active_workspace_id =
                if has m.active_workspace_id (lasting m.workspaces)
                then m.active_workspace_id
                else "default";
          },
          true,
        )
    unfolding deserialize find_by_id
    deserialize-serialize_manager m other e o n h =
        rw (deserialize, starts m, parse_json-serialize d e m, is_valid_root-manager_value m)
          (λ i. (loaded_from-manager_value m other o n h i, true))
