-- ===== src/Workspaces/Invariant.antt =====
-- What always holds of the workspaces of workspace_manager.cpp.
use openbrowser.Prelude.Bytes.{Bytes}
use openbrowser.Prelude.Keyed.{find}
use openbrowser.Prelude.{
  ℕ, String, ◌≡◌, sym, ◌∙◌, true, Option, List, [], ◌∷◌, arith, ◌==◌, string_eq, is_empty,
  Bool-cases, Option-cases, inl, inr,
}
use openbrowser.Json.{Json, Items, no_items, item}
use openbrowser.Json.Parser.{parse_json}
use openbrowser.Workspaces.{
  Workspace, WorkspaceManager, create, create_workspace, remove_workspace, set_active_workspace,
  cycle_next_workspace, cycled, list_workspaces, next_id, set_auto_save_path, trigger_auto_save,
  emplace, has_workspace, with_icon, default_workspace, work_workspace, personal_workspace,
  is_no_text,
}
use openbrowser.Workspaces.Order.{
  IsOrdered, has, emplace-IsOrdered, erase-IsOrdered, has-emplace_other, has-emplace_self,
  has-erase, has-stable_sort,
}
use openbrowser.Workspaces.Document.{
  read_workspaces, read_workspace, is_kept, loaded_from, deserialize, load_from_file, is_valid_root,
  with_workspaces, with_active,
}

-- The workspace "default" and the active one exist, and the ids are in order, so distinct.
pub record IsValid (m : WorkspaceManager) : Type 0 where
  pub has_default : has "default" m.workspaces ≡ true
  pub has_active : has m.active_workspace_id m.workspaces ≡ true
  pub ordered : IsOrdered m.workspaces

create-IsValid : IsValid create
unfolding create
create-IsValid =
    let first = emplace default_workspace [] in
    let second = emplace work_workspace first in
    let there =
      has-emplace_other "default" personal_workspace second (
        has-emplace_other "default" work_workspace first (has-emplace_self default_workspace [])) in
    record {
      has_default = there;
      has_active = there;
      ordered =
          emplace-IsOrdered personal_workspace second
            (emplace-IsOrdered work_workspace first (emplace-IsOrdered default_workspace [] tt));
    }

trigger_auto_save-IsValid : (m : WorkspaceManager) → IsValid m → IsValid (trigger_auto_save m)
unfolding trigger_auto_save
trigger_auto_save-IsValid m v = elim (Bool-cases (is_empty m.auto_save_path)) [
  | inl off ↦ rw off v
  | inr on ↦
      rw on (record { has_default = v.has_default; has_active = v.has_active; ordered = v.ordered })
]

create_workspace-IsValid :
    (w : Workspace) (m : WorkspaceManager) → IsValid m → IsValid (create_workspace w m).0
unfolding create_workspace
create_workspace-IsValid w m v = elim (Bool-cases (is_empty w.id)) [
  | inl blank ↦ rw blank v
  | inr named ↦ elim (Bool-cases (has_workspace m w.id)) [
    | inl taken ↦ rw (named, taken) v
    | inr free ↦
        rw (named, free)
          (trigger_auto_save-IsValid _ (record {
            has_default = has-emplace_other "default" (with_icon w) m.workspaces v.has_default;
            has_active =
                has-emplace_other m.active_workspace_id (with_icon w) m.workspaces v.has_active;
            ordered = emplace-IsOrdered (with_icon w) m.workspaces v.ordered;
          }))
  ]
]

remove_workspace-IsValid :
    (id : String) (m : WorkspaceManager) → IsValid m → IsValid (remove_workspace id m).0
unfolding remove_workspace
remove_workspace-IsValid id m v = elim (Bool-cases (id == "default")) [
  | inl default ↦ rw default v
  | inr other ↦ elim (Bool-cases (id == m.active_workspace_id)) [
    | inl active ↦ rw (other, active) v
    | inr idle ↦ elim (Bool-cases (has_workspace m id)) [
      | inr unknown ↦ rw (other, idle, unknown) v
      | inl known ↦
          rw (other, idle, known)
            (trigger_auto_save-IsValid _ (record {
              has_default = has-erase id "default" m.workspaces other v.has_default;
              has_active = has-erase id m.active_workspace_id m.workspaces idle v.has_active;
              ordered = erase-IsOrdered id m.workspaces v.ordered;
            }))
    ]
  ]
]

set_active_workspace-IsValid :
    (id : String) (m : WorkspaceManager) → IsValid m → IsValid (set_active_workspace id m).0
unfolding set_active_workspace
set_active_workspace-IsValid id m v = elim (Bool-cases (has_workspace m id)) [
  | inr unknown ↦ rw unknown v
  | inl known ↦ rw known (
      trigger_auto_save-IsValid _
        (record { has_default = v.has_default; has_active = known; ordered = v.ordered }))
]

has_first : (w : Workspace) (ws : List Workspace) → has w.id (w ∷ ws) ≡ true
unfolding find
has_first w ws = ground arith

has_behind :
    (id : String) (w : Workspace) (ws : List Workspace) → has id ws ≡ true → has id (w ∷ ws) ≡ true
unfolding find
has_behind id w ws h = ground (arith, h)

-- The next id is an id of the list.
has-next_id :
    (id first : String) (all ws : List Workspace)
    → has first all ≡ true
    → ((other : String) → has other ws ≡ true → has other all ≡ true)
    → has (next_id id first ws) all ≡ true
unfolding next_id
has-next_id id first all [] h k = h
has-next_id id first all (w ∷ []) h k = elim (Bool-cases (w.id == id)) [
  | inl here ↦ rw here h
  | inr later ↦ rw later h
]
has-next_id id first all (w ∷ v ∷ vs) h k = elim (Bool-cases (w.id == id)) [
  | inl here ↦ rw here (k v.id (has_behind v.id w (v ∷ vs) (has_first v vs)))
  | inr later ↦
      rw later (has-next_id id first all (v ∷ vs) h (λ o p. k o (has_behind o w (v ∷ vs) p)))
]

cycled-IsValid :
    (ws : List Workspace) (m : WorkspaceManager)
    → ((id : String) → has id ws ≡ has id m.workspaces)
    → IsValid m
    → IsValid (cycled ws m)
cycled-IsValid [] m same v = v
cycled-IsValid (w ∷ ws) m same v =
    let next =
      has-next_id m.active_workspace_id w.id (w ∷ ws) (w ∷ ws) (has_first w ws) (λ o p. p) in
    trigger_auto_save-IsValid _ (record {
      has_default = v.has_default;
      has_active = sym (same (next_id m.active_workspace_id w.id (w ∷ ws))) ∙ next;
      ordered = v.ordered;
    })

cycle_next_workspace-IsValid :
    (m : WorkspaceManager) → IsValid m → IsValid (cycle_next_workspace m).0
unfolding cycle_next_workspace
cycle_next_workspace-IsValid m v =
    cycled-IsValid (list_workspaces m) m (λ id. has-stable_sort id m.workspaces) v

module _ {D : Type 0} where
  read_workspaces-IsOrdered :
      (loaded : List Workspace) (is : Items D)
      → IsOrdered loaded
      → IsOrdered (read_workspaces loaded is)
  unfolding read_workspaces
  read_workspaces-IsOrdered loaded no_items h = h
  read_workspaces-IsOrdered loaded (item j js) h = elim (Bool-cases (is_kept j)) [
    | inr skipped ↦ rw skipped (read_workspaces-IsOrdered loaded js h)
    | inl kept ↦ rw kept (
        read_workspaces-IsOrdered (emplace (read_workspace j) loaded) js
          (emplace-IsOrdered (read_workspace j) loaded h))
  ]

with_active-IsValid :
    (id : String) (m : WorkspaceManager)
    → has "default" m.workspaces ≡ true
    → IsOrdered m.workspaces
    → IsValid (with_active id m)
with_active-IsValid id m h o = elim (Bool-cases (has_workspace m id)) [
  | inl known ↦ rw known (record { has_default = h; has_active = known; ordered = o })
  | inr unknown ↦ rw unknown (record { has_default = h; has_active = h; ordered = o })
]

module _ {D : Type 0} (stod : Bytes → Option D) (to_size : D → Option ℕ) where
  loaded_from-IsValid : (root : Json D) (m : WorkspaceManager) → IsValid (loaded_from root m)
  loaded_from-IsValid root m =
      with_active-IsValid _ (with_workspaces (read_workspaces [] _) m)
        (has-emplace_self default_workspace (read_workspaces [] _))
        (emplace-IsOrdered default_workspace _ (read_workspaces-IsOrdered [] _ tt))

  -- Whatever the text is.
  deserialize-IsValid :
      (json : Bytes) (m : WorkspaceManager)
      → IsValid m
      → IsValid (deserialize stod to_size json m).0
  unfolding deserialize
  deserialize-IsValid json m v = elim (Bool-cases (is_no_text json)) [
    | inl empty ↦ rw (empty, deserialize) v
    | inr full ↦ elim (Option-cases (parse_json stod json)) [
      | inl malformed ↦ rw (full, malformed, deserialize) v
      | inr (root, parsed) ↦ elim (Bool-cases (is_valid_root stod to_size root)) [
        | inl fits ↦ rw (full, parsed, fits, deserialize) (loaded_from-IsValid root m)
        | inr other ↦ rw (full, parsed, other, deserialize) v
      ]
    ]
  ]

  load_from_file-IsValid :
      (read_file : String → Option Bytes) (path : String) (m : WorkspaceManager)
      → IsValid m
      → IsValid (load_from_file stod to_size read_file path m).0
  unfolding load_from_file
  load_from_file-IsValid read_file path m v = elim (Bool-cases (is_empty path)) [
    | inl none_given ↦ rw (none_given, load_from_file) v
    | inr given ↦ elim (Option-cases (read_file path)) [
      | inl unread ↦ rw (given, unread, load_from_file) v
      | inr (content, found) ↦ rw (given, found, load_from_file) (deserialize-IsValid content m v)
    ]
  ]

pub data Command : Type 0 where
  creates : Workspace → Command
  removes : String → Command
  activates : String → Command
  cycles : Command
  saves_to : String → Command
  reads : Bytes → Command
  loads : (String → Option Bytes) → String → Command

module _ {D : Type 0} (stod : Bytes → Option D) (to_size : D → Option ℕ) where
  abbrev pub execute : Command → WorkspaceManager → WorkspaceManager
  execute (creates w) m = (create_workspace w m).0
  execute (removes id) m = (remove_workspace id m).0
  execute (activates id) m = (set_active_workspace id m).0
  execute cycles m = (cycle_next_workspace m).0
  execute (saves_to path) m = set_auto_save_path path m
  execute (reads json) m = (deserialize stod to_size json m).0
  execute (loads read_file path) m = (load_from_file stod to_size read_file path m).0

  abbrev pub execute_each : List Command → WorkspaceManager → WorkspaceManager
  execute_each [] m = m
  execute_each (c ∷ cs) m = execute_each cs (execute c m)

  execute-IsValid : (c : Command) (m : WorkspaceManager) → IsValid m → IsValid (execute c m)
  execute-IsValid (creates w) m v = create_workspace-IsValid w m v
  execute-IsValid (removes id) m v = remove_workspace-IsValid id m v
  execute-IsValid (activates id) m v = set_active_workspace-IsValid id m v
  execute-IsValid cycles m v = cycle_next_workspace-IsValid m v
  execute-IsValid (saves_to path) m v = record {
    has_default = v.has_default;
    has_active = v.has_active;
    ordered = v.ordered;
  }
  execute-IsValid (reads json) m v = deserialize-IsValid stod to_size json m v
  execute-IsValid (loads read_file path) m v =
      load_from_file-IsValid stod to_size read_file path m v

  execute_each-IsValid :
      (cs : List Command) (m : WorkspaceManager) → IsValid m → IsValid (execute_each cs m)
  execute_each-IsValid [] m v = v
  execute_each-IsValid (c ∷ cs) m v = execute_each-IsValid cs (execute c m) (execute-IsValid c m v)

  -- After any sequence of commands on the workspaces, documents and files of any content included,
  -- there is a workspace "default", the active workspace exists, and the ids are in the order of the
  -- map, so that no two workspaces have the same. `stod` and `to_size` are any conversions.
  pub execute_each-create : (cs : List Command) → IsValid (execute_each cs create)
  execute_each-create cs = execute_each-IsValid cs create create-IsValid
