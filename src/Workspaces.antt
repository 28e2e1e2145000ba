-- ===== src/Workspaces.antt =====
-- core/workspaces/workspace.h, workspace_manager.h and workspace_manager.cpp: the workspaces and the
-- active one. The map is a list in the order of the ids. Ids are texts, other texts are lists of
-- bytes. A save is logged with its path and its text, newest first.
pub mod Order
pub mod Document
pub mod Invariant
use openbrowser.Prelude.Bytes.{Bytes, bytes}
use openbrowser.Prelude.Keyed.{find, erase}
use openbrowser.Prelude.{
  ℕ, String, Bool, true, false, not, Option, none, some, List, [], ◌∷◌, ltb, ◌==◌, ℕ_eq, string_eq,
  is_empty, if◌then◌else◌,
}
use openbrowser.Json.{escape}
use openbrowser.Json.Printer.{quoted, item_object, document, item_array}

pub record Workspace : Type 0 where
  pub id : String
  pub name : Bytes
  pub badge_color : Bytes
  pub is_ephemeral : Bool
  pub icon : Bytes

pub record WorkspaceManager : Type 0 where
  pub workspaces : List Workspace
  pub active_workspace_id : String
  pub auto_save_path : String
  pub saves : List (String × Bytes)

abbrev pub workspace_id : Workspace → String
workspace_id w = w.id

-- The icons in UTF-8.
abbrev pub house : Bytes
house = 0xe2 ∷ 0x8c ∷ 0x82 ∷ []

abbrev pub diamond : Bytes
diamond = 0xe2 ∷ 0x97 ∷ 0x86 ∷ []

abbrev pub circle : Bytes
circle = 0xe2 ∷ 0x97 ∷ 0x8b ∷ []

abbrev pub hollow_diamond : Bytes
hollow_diamond = 0xe2 ∷ 0x97 ∷ 0x87 ∷ []

unfoldable pub default_workspace_icon : String → Bytes
default_workspace_icon id =
    if id == "default"
    then house
    else if id == "work"
    then diamond
    else if id == "personal"
    then circle
    else hollow_diamond

unfoldable pub workspace_visual_rank : String → ℕ
workspace_visual_rank id =
    if id == "default" then 0 else if id == "work" then 1 else if id == "personal" then 2 else 3

abbrev pub default_workspace : Workspace
default_workspace = record {
  id = "default";
  name = bytes "Default";
  badge_color = bytes "#3B82F6";
  is_ephemeral = false;
  icon = house;
}

abbrev pub work_workspace : Workspace
work_workspace = record {
  id = "work";
  name = bytes "Work";
  badge_color = bytes "#10B981";
  is_ephemeral = false;
  icon = diamond;
}

abbrev pub personal_workspace : Workspace
personal_workspace = record {
  id = "personal";
  name = bytes "Personal";
  badge_color = bytes "#8B5CF6";
  is_ephemeral = false;
  icon = circle;
}

-- `<` of `std::string`.
unfoldable pub text_less : Bytes → Bytes → Bool
text_less [] [] = false
text_less [] (d ∷ t) = true
text_less (c ∷ s) [] = false
text_less (c ∷ s) (d ∷ t) = if c == d then text_less s t else ltb c d

abbrev pub is_before : Workspace → Workspace → Bool
is_before v w = text_less (bytes v.id) (bytes w.id)

-- `map::emplace`, which keeps an entry that is there.
unfoldable pub emplace : Workspace → List Workspace → List Workspace
emplace w [] = w ∷ []
emplace w (v ∷ vs) =
    if v.id == w.id then v ∷ vs else if is_before w v then w ∷ v ∷ vs else v ∷ emplace w vs

unfoldable pub create : WorkspaceManager
unfolding emplace
create = record {
  workspaces = emplace personal_workspace (emplace work_workspace (emplace default_workspace []));
  active_workspace_id = "default";
  auto_save_path = "";
  saves = [];
}

abbrev pub find_workspace : WorkspaceManager → String → Option Workspace
find_workspace m id = find workspace_id id m.workspaces

abbrev pub is_there : Option Workspace → Bool
is_there none = false
is_there (some w) = true

abbrev pub has_workspace : WorkspaceManager → String → Bool
has_workspace m id = is_there (find_workspace m id)

abbrev pub get_default_workspace : WorkspaceManager → Workspace
get_default_workspace m = elim (find_workspace m "default") [
  | none ↦ default_workspace
  | some w ↦ w
]

unfoldable pub precedes : Workspace → Workspace → Bool
precedes v w =
    let v_rank = workspace_visual_rank v.id in
    let w_rank = workspace_visual_rank w.id in
    if v_rank == w_rank then text_less v.name w.name else ltb v_rank w_rank

-- `std::stable_sort`.
unfoldable pub insert_sorted : Workspace → List Workspace → List Workspace
insert_sorted w [] = w ∷ []
insert_sorted w (v ∷ vs) = if precedes v w then v ∷ insert_sorted w vs else w ∷ v ∷ vs

unfoldable pub stable_sort : List Workspace → List Workspace
unfolding insert_sorted
stable_sort [] = []
stable_sort (w ∷ ws) = insert_sorted w (stable_sort ws)

abbrev pub list_workspaces : WorkspaceManager → List Workspace
list_workspaces m = stable_sort m.workspaces

unfoldable pub serialize_workspace : Workspace → Bytes
serialize_workspace w = item_object (
    ("id", quoted w.id)
    ∷ ("name", escape w.name)
    ∷ ("badge_color", escape w.badge_color)
    ∷ ("icon", escape w.icon)
    ∷ ("is_ephemeral", bytes "false")
    ∷ [])

abbrev pub lasting : List Workspace → List Workspace
lasting [] = []
lasting (w ∷ ws) = if w.is_ephemeral then lasting ws else w ∷ lasting ws

unfoldable pub serialize : WorkspaceManager → Bytes
unfolding serialize_workspace
serialize m = document (
    ("schema_version", bytes "1")
    ∷ ("active_workspace_id", quoted m.active_workspace_id)
    ∷ ("workspaces", item_array serialize_workspace (lasting m.workspaces))
    ∷ [])

abbrev pub set_auto_save_path : String → WorkspaceManager → WorkspaceManager
set_auto_save_path path m = record m { auto_save_path = path }

abbrev pub save_to_file : String → WorkspaceManager → WorkspaceManager
save_to_file path m =
    if is_empty path then m else record m { saves = (path, serialize m) ∷ m.saves }

unfoldable pub trigger_auto_save : WorkspaceManager → WorkspaceManager
unfolding serialize
trigger_auto_save m = save_to_file m.auto_save_path m

abbrev pub is_no_text : Bytes → Bool
is_no_text [] = true
is_no_text (c ∷ s) = false

abbrev pub with_icon : Workspace → Workspace
with_icon w = if is_no_text w.icon then record w { icon = default_workspace_icon w.id } else w

unfoldable pub create_workspace : Workspace → WorkspaceManager → WorkspaceManager × Bool
unfolding trigger_auto_save
create_workspace w m =
    if is_empty w.id
    then (m, false)
    else if has_workspace m w.id
    then (m, false)
    else (trigger_auto_save (record m { workspaces = emplace (with_icon w) m.workspaces }), true)

unfoldable pub remove_workspace : String → WorkspaceManager → WorkspaceManager × Bool
unfolding trigger_auto_save
remove_workspace id m =
    if id == "default"
    then (m, false)
    else if id == m.active_workspace_id
    then (m, false)
    else if has_workspace m id
    then (trigger_auto_save (record m { workspaces = erase workspace_id id m.workspaces }), true)
    else (m, false)

unfoldable pub set_active_workspace : String → WorkspaceManager → WorkspaceManager × Bool
unfolding trigger_auto_save
set_active_workspace id m =
    if has_workspace m id
    then (trigger_auto_save (record m { active_workspace_id = id }), true)
    else (m, false)

abbrev pub first_id : String → List Workspace → String
first_id other [] = other
first_id other (w ∷ ws) = w.id

-- The id behind the given one, and the first one behind the last.
unfoldable pub next_id : String → String → List Workspace → String
next_id id first [] = first
next_id id first (w ∷ ws) = if w.id == id then first_id first ws else next_id id first ws

abbrev pub cycled : List Workspace → WorkspaceManager → WorkspaceManager
cycled [] m = m
cycled (w ∷ ws) m =
    trigger_auto_save
      (record m { active_workspace_id = next_id m.active_workspace_id w.id (w ∷ ws) })

unfoldable pub cycle_next_workspace : WorkspaceManager → WorkspaceManager × String
unfolding trigger_auto_save stable_sort
cycle_next_workspace m = let m' = cycled (list_workspaces m) m in (m', m'.active_workspace_id)
