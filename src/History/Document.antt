-- ===== src/History/Document.antt =====
-- core/history/history_manager.cpp: the JSON document of the history. `stod`, `stoull` and the casts
-- `to_size` and `to_int64` of doubles are the language's; a `stoull` that throws gives nothing.
use openbrowser.Prelude.Bytes.{Bytes, bytes, strip}
use openbrowser.Prelude.Characters.{text}
use openbrowser.Prelude.Integers.{ℤ, pos, int_string}
use openbrowser.Prelude.{
  ℕ, Bool, true, false, ◌&&◌, Option, none, some, List, [], ◌∷◌, ltb, ◌==◌, ℕ_eq, is_empty,
  if◌then◌else◌, to_string, ◌<>◌,
}
use openbrowser.Session.{increment64}
use openbrowser.Json.{
  Json, Items, no_items, item, find, get_optional_string, get_string, get_size, get_int64,
}
use openbrowser.Json.Parser.{parse_json}
use openbrowser.Json.Printer.{quoted, quoted_or_null, item_object, document, item_array}
use openbrowser.Persistence.Document.{is_object, is_array, items_in, optional_text}
use openbrowser.History.{HistoryEntry, HistoryManager}

unfoldable pub serialize_entry : HistoryEntry → Bytes
serialize_entry e = item_object (
    ("id", quoted e.id)
    ∷ ("url", quoted e.url)
    ∷ ("title", quoted e.title)
    ∷ ("last_visit_time_ms", bytes (int_string e.last_visit_time_ms))
    ∷ ("visit_count", bytes (to_string e.visit_count))
    ∷ ("workspace_id", quoted_or_null e.workspace_id)
    ∷ [])

unfoldable pub serialize : HistoryManager → Bytes
unfolding serialize_entry
serialize h =
    document
      (("schema_version", bytes "1") ∷ ("entries", item_array serialize_entry h.entries) ∷ [])

-- The entries that were read, and the greatest number of an id.
abbrev pub Loaded : Type 0
Loaded = List HistoryEntry × ℕ

module _ {D : Type 0} (stod : Bytes → Option D) (stoull : Bytes → Option ℕ) (to_size : D → Option ℕ)
    (to_int64 : D → ℤ) where
  unfoldable pub number_in : Bytes → Option ℕ
  number_in id = elim (strip (bytes "hist-") id) [ none ↦ none | some digits ↦ stoull digits ]

  unfoldable pub greater_id : Bytes → ℕ → ℕ
  unfolding number_in
  greater_id id max_id = elim (number_in id) [
    | none ↦ max_id
    | some n ↦ if ltb max_id n then n else max_id
  ]

  abbrev pub read_entry : Json D → HistoryEntry
  read_entry j = record {
    id = text (get_string (bytes "id") [] j);
    url = text (get_string (bytes "url") [] j);
    title = text (get_string (bytes "title") [] j);
    last_visit_time_ms = get_int64 to_int64 (bytes "last_visit_time_ms") (pos 0) j;
    visit_count = get_size to_size (bytes "visit_count") 1 j;
    workspace_id = optional_text (get_optional_string (bytes "workspace_id") j);
  }

  abbrev pub with_id : HistoryEntry → ℕ → HistoryEntry × ℕ
  with_id e max_id =
      if is_empty e.id
      then (record e { id = "hist-" <> to_string (increment64 max_id) }, increment64 max_id)
      else (e, max_id)

  -- The loop over the array, from the greatest number so far.
  unfoldable pub read_entries : Items D → ℕ → Loaded
  unfolding greater_id
  read_entries no_items max_id = ([], max_id)
  read_entries (item j js) max_id =
      let seen = greater_id (get_string (bytes "id") [] j) max_id in
      let e = with_id (read_entry j) seen in
      let skipped = read_entries js max_id in
      let without = read_entries js seen in
      let others = read_entries js e.1 in
      elim (is_object j) [
        | false ↦ skipped
        | true ↦ if is_empty (read_entry j).url then without else (e.0 ∷ others.0, others.1)
      ]

  unfoldable pub is_valid_root : Json D → Bool
  is_valid_root root =
      is_object root
      && (get_size to_size (bytes "schema_version") 0 root == 1
          && is_array (find (bytes "entries") root))

  abbrev pub loaded_from : HistoryManager → Loaded → HistoryManager
  loaded_from h l = record h { entries = l.0; next_id = increment64 l.1 }

  unfoldable pub deserialize : HistoryManager → Bytes → HistoryManager × Bool
  unfolding read_entries is_valid_root
  deserialize h json = elim (parse_json stod json) [
    | none ↦ (h, false)
    | some root ↦
        if is_valid_root root
        then (loaded_from h (read_entries (items_in (find (bytes "entries") root)) 0), true)
        else (h, false)
  ]
