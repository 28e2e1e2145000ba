-- ===== src/Tests/Documents.antt =====
-- Examples for the JSON documents, and for a session that is saved and restored.
use openbrowser.Prelude.Bytes.{Bytes, bytes, bytes_eq, bytes_discrete}
use openbrowser.Prelude.{
  ℕ, String, ◌≡◌, ◌≢◌, refl, true, false, Option, none, some, List, [], ◌∷◌, ◌==◌, if◌then◌else◌,
  length, string_discrete, ℕ_discrete, ◌+◌, ◌*◌,
}
use openbrowser.Prelude.Keyed
use openbrowser.Prelude.Keyed.{map_option}
use openbrowser.Json.Parser.{parse_value, out_of_fuel}
use openbrowser.Json.Parser.Fuel.{parse_value_fuel}
use openbrowser.Tabs.{Tab, active, background, requested}
use openbrowser.FocusQueue.{FocusQueue, FocusQueueItem, next, later, find_item}
use openbrowser.FocusQueue.Laws.{IsDistinct}
use openbrowser.FocusSession.{synchronize_tab_closures}
use openbrowser.FocusSession.Opens.{activate_focus_item-opens}
use openbrowser.FocusSession.{activate_focus_item, free_tab_id}
use openbrowser.FocusQueue.{set_tab_id}
use openbrowser.Session.{BrowserSession}
use openbrowser.Prelude.{◌<>◌, inl}
use openbrowser.FocusSession.Closures.{unbound_if_closed, synchronize_tab_closures_lem}
use openbrowser.Session.{create}
use openbrowser.Session.TabList.{find_tab}
use openbrowser.Session.Requests.{Request, open_one, run}
use openbrowser.Session.Invariant.{Inv}
use openbrowser.Session.Invariant.Steps.{run-Inv}
use openbrowser.Privacy.{fresh_tab}
use openbrowser.Persistence.{
  SessionTabRecord, SessionSnapshot, capture_snapshot, restore_session, has_record,
}
use openbrowser.Persistence.Capture.{is_persistent, AllPublic, capture_snapshot_lem}
use openbrowser.Persistence.Restore.{restore_session_lem}
use openbrowser.Persistence.Restore.Pages.{shown, usable_record, recorded_page, or_else}
use openbrowser.Persistence.Restore.Items.{usable_item, recorded_item}
use openbrowser.Persistence.Document.{serialize, deserialize}
use openbrowser.Persistence.Document.RoundTrip.{deserialize-serialize}

-- Doubles that are whole numbers, of which one text is read.
abbrev stod : Bytes → Option ℕ
stod s = if s == bytes "1" then some 1 else none

abbrev json_text : Bytes
json_text = bytes "{\"a\": [1, true], \"b\": {}}"

parse_value_fuel_example : parse_value stod (3 * length json_text + 1) json_text ≢ out_of_fuel
parse_value_fuel_example = parse_value_fuel stod json_text

abbrev snapshot : SessionSnapshot
snapshot = record {
  schema_version = 1;
  clean_shutdown = false;
  active_tab_id = some "b";
  tabs =
      record {
        id = "a";
        url = "https://a.test/";
        title = "The \"A\"";
        workspace_id = none;
        lifecycle = background;
      }
      ∷ record {
        id = "b";
        url = "https://b.test/";
        title = "";
        workspace_id = some "w";
        lifecycle = active;
      }
      ∷ record {
        id = "a";
        url = "https://c.test/";
        title = "C";
        workspace_id = none;
        lifecycle = active;
      }
      ∷ [];
  focus_items =
      record {
        id = "i";
        url = "https://a.test/";
        tab_id = some "a";
        workspace_id = none;
        state = later;
      }
      ∷ record {
        id = "j";
        url = "https://d.test/";
        tab_id = some "gone";
        workspace_id = none;
        state = next;
      }
      ∷ [];
}

deserialize-serialize_example : deserialize stod some (serialize snapshot) ≡ some snapshot
unfolding bytes_discrete ℕ_discrete string_discrete
deserialize-serialize_example =
    deserialize-serialize stod some 1 refl refl snapshot refl (refl, (refl, (refl, tt)))
      (refl, (refl, tt))

abbrev page : String → Tab
page id = record (fresh_tab id "Page" false) { url = "https://page.test/" }

abbrev secret : String → Tab
secret id = record (fresh_tab id "Secret" true) { url = "https://secret.test/" }

abbrev requests : List Request
requests = open_one (page "a") true ∷ open_one (secret "s") true ∷ open_one (page "c") false ∷ []

abbrev item : String → String → FocusQueueItem
item id tab = record {
  id = id;
  url = "https://page.test/";
  tab_id = some tab;
  workspace_id = none;
  state = next;
}

abbrev queue : FocusQueue
queue = record { items = item "i" "a" ∷ item "j" "s" ∷ item "k" "gone" ∷ [] }

capture_snapshot_example :
    let s = run create requests in
    let p = capture_snapshot s queue true in
    ((id : String) → has_record id p.tabs ≡ is_persistent (find_tab id s.tabs))
    × ((id : String) → p.active_tab_id ≡ some id → has_record id p.tabs ≡ true)
    × AllPublic s p.focus_items
capture_snapshot_example =
    capture_snapshot_lem (run create requests) queue true (run-Inv requests).distinct

abbrev active_record : SessionTabRecord
active_record = record {
  id = "b";
  url = "https://b.test/";
  title = "";
  workspace_id = some "w";
  lifecycle = active;
}

restore_session_example :
    let s = run create requests in
    let (s', q', done) = restore_session s queue snapshot in
    (done ≡ true)
    × (s'.active_tab_id ≡ some "b")
    × ((j : String)
        → shown j s'
          ≡ or_else (shown j s) (map_option recorded_page (usable_record j snapshot.tabs)))
    × ((k : String)
        → find_item k q'.items
          ≡ map_option (unbound_if_closed s') (
              or_else
                (find_item k queue.items)
                (map_option recorded_item (usable_item k snapshot.focus_items))))
    × Inv s'
    × IsDistinct q'
unfolding Keyed.find string_discrete
restore_session_example =
    restore_session_lem (run create requests) queue snapshot "b" active_record (run-Inv requests)
      (refl, (refl, (refl, tt))) refl (inl refl)

synchronize_tab_closures_example :
    let s = run create requests in
    find_item "k" (synchronize_tab_closures s queue).items
    ≡ map_option (unbound_if_closed s) (find_item "k" queue.items)
unfolding Keyed.find string_discrete
synchronize_tab_closures_example =
    synchronize_tab_closures_lem (run create requests) queue "k" (refl, (refl, (refl, tt)))

-- A session in which the id that the item's tab would be given first is taken.
abbrev public_session : BrowserSession
public_session = record create {
  tabs = page "focus-tab-k" ∷ [];
  active_tab_id = some "focus-tab-k";
}

activate_focus_item_example :
    let (s', q', done) = activate_focus_item public_session queue "k" in
    let id = free_tab_id public_session ("focus-tab-" <> "k") in
    (done ≡ true)
    × (find_tab id public_session.tabs ≡ none)
    × (s'.active_tab_id ≡ some id)
    × (q' ≡ (set_tab_id queue "k" (some id)).0)
    × ((u : Tab) × (find_tab id s'.tabs ≡ some u)
        × (u.url ≡ "https://page.test/")
        × (u.pending_url ≡ some "https://page.test/")
        × (u.navigation_state ≡ requested)
        × (u.workspace_id ≡ none)
        × (u.is_ephemeral ≡ false)
        × (u.lifecycle ≡ active))
unfolding Keyed.find string_discrete
activate_focus_item_example =
    activate_focus_item-opens public_session queue "k" (item "k" "gone") (refl, tt) refl refl refl
      refl
