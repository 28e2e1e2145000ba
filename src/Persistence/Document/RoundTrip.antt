-- ===== src/Persistence/Document/RoundTrip.antt =====
-- A snapshot that is serialized is read back.
use openbrowser.Prelude.Bytes.{Bytes, bytes, bytes_eq, bytes_discrete}
use openbrowser.Prelude.{
  ℕ, String, ◌≡◌, refl, ◌∙◌, ap, true, false, Option, none, some, List, [], ◌∷◌, ℕ_eq, ℕ_discrete,
  is_empty, if◌then◌else◌, to_string,
}
use openbrowser.Json.{Json, bool, number, array, object, find, find_member, get_bool, get_size}
use openbrowser.Json.Parser.{parse_json}
use openbrowser.Json.Parser.Spelling.{bool-Spells}
use openbrowser.Json.Parser.Numbers.{number-Spells}
use openbrowser.Json.Printer.{quoted_or_null, item_array}
use openbrowser.Json.Parser.Documents.{Printed, members_of, parse_json-document}
use openbrowser.Json.Parser.Arrays.{items_of, AllItems, item_array-Spells}
use openbrowser.Persistence.{SessionTabRecord, FocusItemRecord, SessionSnapshot}
use openbrowser.Persistence.Document.{
  serialize_tab, serialize_item, serialize, is_object, is_null_or_string, read_tab, read_item,
  read_records, is_valid_root, read_snapshot, is_valid_session_document, deserialize,
}
use openbrowser.Persistence.Document.Texts.{
  schema_version_IsKey, clean_shutdown_IsKey, active_tab_id_IsKey, tabs_IsKey, focus_items_IsKey,
  value_or_null, quoted_or_null-Spells, optional_text-value_or_null,
}
use openbrowser.Persistence.Document.Records.{
  tab_value, tab-Spells, read_tab-tab_value, item_value, item-Spells, read_item-item_value,
}

-- No record is without an id.
abbrev pub AllNamed : {R : Type 0} → (R → String) → List R → Type 0
AllNamed id_of [] = Unit {0}
AllNamed id_of (r ∷ rs) = (is_empty (id_of r) ≡ false) × AllNamed id_of rs

module _ {D : Type 0} (stod : Bytes → Option D) where
  module _ {R : Type 0} (print : R → Bytes) (value : R → Json D) (read : Json D → R)
      (id_of : R → String) where
    read_records-items_of :
        ((r : R) → read (value r) ≡ r)
        → ((r : R) → is_object (value r) ≡ true)
        → (rs : List R) → AllNamed id_of rs
        → read_records read id_of (items_of stod print value rs) ≡ rs
    unfolding read_records
    read_records-items_of back objects [] named = refl
    read_records-items_of back objects (r ∷ rs) (n, named) =
        rw (objects r, back r, n, read_records-items_of back objects rs named) refl

  abbrev version_value : D → Printed D
  version_value d = ("schema_version", number d, bytes (to_string 1))

  abbrev snapshot_members : SessionSnapshot → List (Printed D)
  snapshot_members p =
      (
        "clean_shutdown",
        bool p.clean_shutdown,
        if p.clean_shutdown then bytes "true" else bytes "false",
      )
      ∷ ("active_tab_id", value_or_null stod p.active_tab_id, quoted_or_null p.active_tab_id)
      ∷ (
        "tabs",
        array (items_of stod serialize_tab (tab_value stod) p.tabs),
        item_array serialize_tab p.tabs,
      )
      ∷ (
        "focus_items",
        array (items_of stod serialize_item (item_value stod) p.focus_items),
        item_array serialize_item p.focus_items,
      )
      ∷ []

  tabs-AllItems : (ts : List SessionTabRecord) → AllItems stod serialize_tab (tab_value stod) ts
  tabs-AllItems [] = tt
  tabs-AllItems (t ∷ ts) = (tab-Spells stod t, tabs-AllItems ts)

  focus_items-AllItems :
      (ts : List FocusItemRecord) → AllItems stod serialize_item (item_value stod) ts
  focus_items-AllItems [] = tt
  focus_items-AllItems (t ∷ ts) = (item-Spells stod t, focus_items-AllItems ts)

  abbrev snapshot_value : D → SessionSnapshot → Json D
  snapshot_value d p = object (members_of stod (version_value d ∷ snapshot_members p))

  parse_json-serialize :
      (d : D)
      → stod (bytes "1") ≡ some d
      → (p : SessionSnapshot) → p.schema_version ≡ 1
      → parse_json stod (serialize p) ≡ some (snapshot_value d p)
  unfolding serialize serialize_tab serialize_item ℕ_discrete to_string
  parse_json-serialize d e p v = rw v (
      parse_json-document stod (version_value d) (snapshot_members p) (
        schema_version_IsKey,
        number-Spells stod b'1' [] d (refl, tt) e,
        (
          clean_shutdown_IsKey,
          bool-Spells stod p.clean_shutdown,
          (
            active_tab_id_IsKey,
            quoted_or_null-Spells stod p.active_tab_id,
            (
              tabs_IsKey,
              item_array-Spells stod serialize_tab (tab_value stod) p.tabs (λ t. (_, refl))
                  (tabs-AllItems p.tabs),
              (
                focus_items_IsKey,
                item_array-Spells stod serialize_item (item_value stod) p.focus_items
                    (λ t. (_, refl)) (focus_items-AllItems p.focus_items),
                tt,
              ),
            ),
          ),
        ),
      ))

  module _ (to_size : D → Option ℕ) where
    get_size-number :
        (key : Bytes) (default_val : ℕ) (j : Json D) (d : D) (n : ℕ)
        → find key j ≡ some (number d)
        → to_size d ≡ some n
        → get_size to_size key default_val j ≡ n
    unfolding get_size
    get_size-number key default_val j d n e h = rw (get_size, e, h) refl

    null_or_string : (o : Option String) → is_null_or_string (some (value_or_null stod o)) ≡ true
    null_or_string none = refl
    null_or_string (some s) = refl

    is_valid_root-snapshot_value :
        (d : D)
        → to_size d ≡ some 1
        → (p : SessionSnapshot) → is_valid_root stod to_size (snapshot_value d p) ≡ true
    unfolding is_valid_root find find_member ℕ_discrete bytes_discrete
    is_valid_root-snapshot_value d h p =
        rw
          (
            get_size-number (bytes "schema_version") 0 (snapshot_value d p) d 1 refl h,
            null_or_string p.active_tab_id,
          )
          refl

    read_snapshot-snapshot_value :
        (d : D)
        → to_size d ≡ some 1
        → (p : SessionSnapshot) → p.schema_version ≡ 1
        → AllNamed (λ r. r.id) p.tabs
        → AllNamed (λ r. r.id) p.focus_items
        → read_snapshot stod to_size (snapshot_value d p) ≡ p
    unfolding read_snapshot find find_member get_bool ℕ_discrete bytes_discrete
    read_snapshot-snapshot_value d h p v tabs items =
        rw
          (
            get_size-number (bytes "schema_version") 1 (snapshot_value d p) d 1 refl h,
            v,
            optional_text-value_or_null stod (bytes "active_tab_id") (snapshot_value d p)
                p.active_tab_id refl,
            read_records-items_of serialize_tab (tab_value stod) read_tab (λ r. r.id)
                (read_tab-tab_value stod) (λ r. refl) p.tabs tabs,
            read_records-items_of serialize_item (item_value stod) read_item (λ r. r.id)
                (read_item-item_value stod) (λ r. refl) p.focus_items items,
          )
          refl

    deserialize-parsed :
        (content : Bytes) (root : Json D)
        → parse_json stod content ≡ some root
        → is_valid_root stod to_size root ≡ true
        → deserialize stod to_size content ≡ some (read_snapshot stod to_size root)
    unfolding deserialize is_valid_session_document
    deserialize-parsed content root e h = rw (deserialize, is_valid_session_document, e, h) refl

    -- A snapshot of version 1 in which no record is without an id is serialized to a document from
    -- which the same snapshot is deserialized, texts with quotes, control characters and the like
    -- included, where `stod` reads the text "1" as a number that `to_size` turns into 1.
    pub deserialize-serialize :
        (d : D)
        → stod (bytes "1") ≡ some d
        → to_size d ≡ some 1
        → (p : SessionSnapshot) → p.schema_version ≡ 1
        → AllNamed (λ r. r.id) p.tabs
        → AllNamed (λ r. r.id) p.focus_items
        → deserialize stod to_size (serialize p) ≡ some p
    deserialize-serialize d e h p v tabs items =
        deserialize-parsed (serialize p) (snapshot_value d p) (parse_json-serialize d e p v)
          (is_valid_root-snapshot_value d h p)
        ∙ ap some (read_snapshot-snapshot_value d h p v tabs items)
