-- ===== src/Persistence/Document/Records.antt =====
-- A record of a tab, and one of the queue, read back.
use openbrowser.Prelude.Bytes.{Bytes, bytes, bytes_eq, bytes_discrete}
use openbrowser.Prelude.Characters.{text-bytes}
use openbrowser.Prelude.{◌≡◌, refl, Option, List, [], ◌∷◌, ℕ_eq, ℕ_discrete}
use openbrowser.Json.{Json, object, find, find_member}
use openbrowser.Json.Parser.Spelling.{Spells}
use openbrowser.Json.Printer.{quoted, quoted_or_null}
use openbrowser.Json.Parser.Documents.{Printed, members_of, item_object-Spells}
use openbrowser.Persistence.{SessionTabRecord, FocusItemRecord}
use openbrowser.Persistence.Document.{
  lifecycle_to_string, focus_state_to_string, serialize_tab, serialize_item, read_tab, read_item,
}
use openbrowser.Persistence.Document.Texts.{
  id_IsKey, url_IsKey, title_IsKey, workspace_id_IsKey, lifecycle_IsKey, tab_id_IsKey, state_IsKey,
  string_to_lifecycle-to_string, string_to_focus_state-to_string, value_of, value_or_null,
  quoted-Spells, quoted_or_null-Spells, optional_text-value_or_null, text-value_of,
}

module _ {D : Type 0} (stod : Bytes → Option D) where
  abbrev pub members_behind_id : SessionTabRecord → List (Printed D)
  members_behind_id r =
      ("url", value_of stod r.url, quoted r.url)
      ∷ ("title", value_of stod r.title, quoted r.title)
      ∷ ("workspace_id", value_or_null stod r.workspace_id, quoted_or_null r.workspace_id)
      ∷ (
        "lifecycle",
        value_of stod (lifecycle_to_string r.lifecycle),
        quoted (lifecycle_to_string r.lifecycle),
      )
      ∷ []

  abbrev pub tab_value : SessionTabRecord → Json D
  tab_value r =
      object (members_of stod (("id", value_of stod r.id, quoted r.id) ∷ members_behind_id r))

  pub tab-Spells : (r : SessionTabRecord) → Spells stod (tab_value r) (serialize_tab r)
  unfolding serialize_tab
  tab-Spells r =
      item_object-Spells stod ("id", value_of stod r.id, quoted r.id) (members_behind_id r)
        (
          id_IsKey,
          quoted-Spells stod r.id,
          (
            url_IsKey,
            quoted-Spells stod r.url,
            (
              title_IsKey,
              quoted-Spells stod r.title,
              (
                workspace_id_IsKey,
                quoted_or_null-Spells stod r.workspace_id,
                (lifecycle_IsKey, quoted-Spells stod (lifecycle_to_string r.lifecycle), tt),
              ),
            ),
          ),
        )

  pub read_tab-tab_value : (r : SessionTabRecord) → read_tab (tab_value r) ≡ r
  unfolding find find_member ℕ_discrete bytes_discrete
  read_tab-tab_value r =
      rw
        (
          text-value_of stod (bytes "id") (tab_value r) r.id refl,
          text-value_of stod (bytes "url") (tab_value r) r.url refl,
          text-value_of stod (bytes "title") (tab_value r) r.title refl,
          text-value_of stod (bytes "lifecycle") (tab_value r) (lifecycle_to_string r.lifecycle)
              refl,
          optional_text-value_or_null stod (bytes "workspace_id") (tab_value r) r.workspace_id refl,
          text-bytes r.id,
          text-bytes r.url,
          text-bytes r.title,
          string_to_lifecycle-to_string r.lifecycle,
        )
        refl

  abbrev pub item_members_behind_id : FocusItemRecord → List (Printed D)
  item_members_behind_id r =
      ("url", value_of stod r.url, quoted r.url)
      ∷ ("tab_id", value_or_null stod r.tab_id, quoted_or_null r.tab_id)
      ∷ ("workspace_id", value_or_null stod r.workspace_id, quoted_or_null r.workspace_id)
      ∷ (
        "state",
        value_of stod (focus_state_to_string r.state),
        quoted (focus_state_to_string r.state),
      )
      ∷ []

  abbrev pub item_value : FocusItemRecord → Json D
  item_value r =
      object (members_of stod (("id", value_of stod r.id, quoted r.id) ∷ item_members_behind_id r))

  pub item-Spells : (r : FocusItemRecord) → Spells stod (item_value r) (serialize_item r)
  unfolding serialize_item
  item-Spells r =
      item_object-Spells stod ("id", value_of stod r.id, quoted r.id) (item_members_behind_id r)
        (
          id_IsKey,
          quoted-Spells stod r.id,
          (
            url_IsKey,
            quoted-Spells stod r.url,
            (
              tab_id_IsKey,
              quoted_or_null-Spells stod r.tab_id,
              (
                workspace_id_IsKey,
                quoted_or_null-Spells stod r.workspace_id,
                (state_IsKey, quoted-Spells stod (focus_state_to_string r.state), tt),
              ),
            ),
          ),
        )

  pub read_item-item_value : (r : FocusItemRecord) → read_item (item_value r) ≡ r
  unfolding find find_member ℕ_discrete bytes_discrete
  read_item-item_value r =
      rw
        (
          text-value_of stod (bytes "id") (item_value r) r.id refl,
          text-value_of stod (bytes "url") (item_value r) r.url refl,
          text-value_of stod (bytes "state") (item_value r) (focus_state_to_string r.state) refl,
          optional_text-value_or_null stod (bytes "tab_id") (item_value r) r.tab_id refl,
          optional_text-value_or_null stod (bytes "workspace_id") (item_value r) r.workspace_id
              refl,
          text-bytes r.id,
          text-bytes r.url,
          string_to_focus_state-to_string r.state,
        )
        refl
