-- ===== src/Tests/Traces.antt =====
-- Examples for the files, the workspaces, the network trace, its queries and the rules of ad-block
-- lists.
use openbrowser.Prelude.Bytes.{Bytes, bytes, bytes_eq, bytes_discrete}
use openbrowser.Prelude.Integers.{pos}
use openbrowser.Prelude.Dict
use openbrowser.Prelude.Keyed
use openbrowser.Prelude.{
  ℕ, String, ◌≡◌, refl, Bool, true, false, not, ◌&&◌, ◌||◌, Option, none, some, List, [], ◌∷◌, ◌++◌,
  ◌==◌, ◌%◌, ◌^◌, ◌+◌, min, map, if◌then◌else◌, length, arith, ℕ_discrete, string_discrete,
}
use openbrowser.FileStore.{
  atomic_write_file, read_file_with_backup_recovery, read_from, primary, read_file_to_string,
}
use openbrowser.FileStore.Memory.{Files, memory, memory-IsPosix, memory-renames}
use openbrowser.FileStore.Writes.{
  read-atomic_write_file, recover-atomic_write_file, atomic_write_file-unwritten,
}
use openbrowser.Workspaces.{
  create, WorkspaceManager, text_less, lasting, serialize, default_workspace, work_workspace,
}
use openbrowser.Workspaces.Order.{has}
use openbrowser.Workspaces.Invariant.{
  IsValid, removes, activates, cycles, reads, execute_each, execute_each-create,
}
use openbrowser.Workspaces.Document.{deserialize}
use openbrowser.Workspaces.Document.RoundTrip.{deserialize-serialize_manager}
use openbrowser.NetworkTrace
use openbrowser.NetworkTrace.{
  NetworkEvent, NetworkEventType, Header, CapturePolicy, accepted, page, request_started,
  request_finished,
}
use openbrowser.NetworkTrace.Retention.{
  Observation, received, recorded, observe_each, observe_each_lem,
}
use openbrowser.NetworkTrace.Requests.{
  NetworkRequestSummary, summary_id, aggregate_requests, aggregate_events, is_in_tab, started_by,
}
use openbrowser.NetworkTrace.Requests.Gathered.{
  joined, summary_of, events_of, find-aggregate_requests,
}
use openbrowser.NetworkTrace.Requests.Secrets.{AreRedacted, aggregate_requests-AreRedacted}
use openbrowser.NetworkTrace.Urls.{redact_sensitive_url, redact_pair, redact_userinfo}
use openbrowser.NetworkTrace.Urls.Secrets.{HideSecrets, pairs_of, redact_sensitive_url-HideSecrets}
use openbrowser.NetworkFilterQuery.{parse, matches}
use openbrowser.NetworkFilterQuery.Meaning.{matches-parse-append}
use openbrowser.NetworkFilterQuery.Negation.{matches-parse-negation}
use openbrowser.ContentFilter
use openbrowser.ContentFilter.{evaluate, is_block, is_blank}
use openbrowser.AdblockRules.{ParsedAdblockRule, compile_into, parse_line}
use openbrowser.AdblockRules.Compiled.{is_allowed, excepts, has_match, hits, evaluate-compile_into}
use openbrowser.AdblockRules.Spelled.{
  unanchored, at_start, at_domain, spell, spelled_rule, parse_line-spell,
}

abbrev stod : Bytes → Option ℕ
stod s = if s == bytes "1" then some 1 else none

abbrev is_not_empty : Bytes → Bool
is_not_empty s = not (s == [])

abbrev files : Files
files = ("a.json", bytes "old") ∷ []

read-atomic_write_file_example :
    read_file_with_backup_recovery
      (memory true true)
      (atomic_write_file (memory true true) files "a.json" (bytes "new") true).0
      "a.json"
      is_not_empty
    ≡ read_from primary (bytes "new")
unfolding bytes_discrete string_discrete atomic_write_file Dict.lookup Dict.insert
read-atomic_write_file_example =
    read-atomic_write_file (memory true true) (memory-IsPosix true true) "a.json" true files
      (bytes "new") is_not_empty (memory-renames true) refl refl refl

recover-atomic_write_file_example :
    (read_file_with_backup_recovery
      (memory true true)
      (atomic_write_file (memory true true) files "a.json" [] true).0
      "a.json"
      is_not_empty).content
    ≡ bytes "old"
unfolding bytes_discrete string_discrete read_file_to_string Dict.lookup atomic_write_file
    Dict.insert Dict.remove
recover-atomic_write_file_example =
    recover-atomic_write_file (memory true true) (memory-IsPosix true true) "a.json" true files []
      (bytes "old") is_not_empty refl refl refl refl refl

atomic_write_file_unwritten_example :
    ((atomic_write_file (memory false false) files "a.json" (bytes "new") true).1.success ≡ true)
    × (read_file_to_string
          (memory false false)
          (atomic_write_file (memory false false) files "a.json" (bytes "new") true).0
          "a.json"
        ≡ read_file_to_string (memory false false) files "a.json")
unfolding bytes_discrete string_discrete Dict.lookup Dict.insert Dict.remove
atomic_write_file_unwritten_example =
    atomic_write_file-unwritten (memory false false) (memory-IsPosix false false) "a.json" true
      files (bytes "new") refl (λ f p q. refl) (λ f p q. refl) (λ f p. refl) refl refl

execute_each-create_example : IsValid (
    execute_each stod some
      (removes "work"
        ∷ cycles
        ∷ reads (bytes "{\"schema_version\": 1, \"workspaces\": [3]}")
        ∷ activates "work"
        ∷ [])
      create)
execute_each-create_example = execute_each-create stod some (
    removes "work"
    ∷ cycles
    ∷ reads (bytes "{\"schema_version\": 1, \"workspaces\": [3]}")
    ∷ activates "work"
    ∷ [])

-- With a workspace that does not last, which is the active one.
abbrev desk : WorkspaceManager
desk = record create {
  workspaces =
      default_workspace
      ∷ record work_workspace { id = "tmp"; is_ephemeral = true }
      ∷ work_workspace
      ∷ [];
  active_workspace_id = "tmp";
}

deserialize-serialize_manager_example : deserialize stod some (serialize desk) create ≡ (
  record create {
    workspaces = lasting desk.workspaces;
    active_workspace_id = if has "tmp" (lasting desk.workspaces) then "tmp" else "default";
  },
  true,
)
unfolding bytes_discrete ℕ_discrete string_discrete text_less Keyed.find
deserialize-serialize_manager_example =
    deserialize-serialize_manager stod some 1 refl desk create refl
      ((refl, (refl, tt)), ((refl, tt), (tt, tt))) (refl, refl, (refl, refl, (refl, refl, tt))) refl

abbrev event : String → NetworkEventType → Bytes → List Header → NetworkEvent
event id type url headers = record {
  sequence = 0;
  request_id = id;
  tab_id = none;
  type = type;
  url = url;
  method = [];
  status = none;
  protocol = [];
  headers = headers;
  transferred_bytes = 10;
  error = [];
  body_preview = [];
  attribution = page;
  connection_id = none;
  observed_at_ms = pos 0;
}

abbrev cookie : List Header
cookie = record { name = bytes "Cookie"; value = bytes "id=1" } ∷ []

abbrev policy : CapturePolicy
policy = record { max_events = 1; redact_sensitive_headers = true }

abbrev observations : List Observation
observations =
    received (pos 5) (event "r1" request_started (bytes "https://a.test/") cookie)
    ∷ received (pos 7) (event "r1" request_finished [] [])
    ∷ received (pos 9) (event "r2" request_started (bytes "https://b.test/") cookie)
    ∷ []

observe_each_example :
    let b = observe_each observations (NetworkTrace.create policy) in
    let given = recorded (NetworkTrace.create policy).policy observations in
    (older : List NetworkEvent) × (given ≡ older ++ b.events)
    × (b.dropped_event_count ≡ length older % 2 ^ 64)
    × (length b.events ≡ min (NetworkTrace.create policy).policy.max_events (length given))
    × (b.next_sequence ≡ (1 + length given) % 2 ^ 64)
    × (b.policy ≡ (NetworkTrace.create policy).policy)
observe_each_example = observe_each_lem policy observations

find-aggregate_requests_example :
    let b = observe_each observations (NetworkTrace.create policy) in
    Keyed.find summary_id "r2" (aggregate_requests none b)
    ≡ Keyed.map_option (joined b.decision_log) (summary_of (events_of none "r2" b.events))
find-aggregate_requests_example =
    find-aggregate_requests none "r2" (observe_each observations (NetworkTrace.create policy))

abbrev shown : NetworkRequestSummary
shown =
    started_by
      (accepted policy 3 (pos 9) (event "r2" request_started (bytes "https://b.test/") cookie))

aggregate_requests_redacted_example :
    AreRedacted shown.request_headers × AreRedacted shown.response_headers
unfolding Keyed.find aggregate_requests aggregate_events NetworkTrace.add NetworkTrace.pop_oldest
    NetworkTrace.create ℕ_discrete is_in_tab string_discrete started_by
aggregate_requests_redacted_example =
    aggregate_requests-AreRedacted policy observations none none "r2" shown refl refl

redact_sensitive_url_example :
    let url = bytes "https://u:p@a.test/?Token=1&b=2#c" in
    HideSecrets (pairs_of (redact_sensitive_url url))
    × (pairs_of (redact_sensitive_url url) ≡ map redact_pair (pairs_of (redact_userinfo url)))
redact_sensitive_url_example =
    redact_sensitive_url-HideSecrets (bytes "https://u:p@a.test/?Token=1&b=2#c")

matches-parse-append_example :
    matches (parse (bytes "status:>=400" ++ b' ' ∷ bytes "-is:failed")) shown
    ≡ (matches (parse (bytes "status:>=400")) shown && matches (parse (bytes "-is:failed")) shown)
matches-parse-append_example =
    matches-parse-append (bytes "status:>=400") (bytes "-is:failed") shown

matches-parse-negation_example :
    matches (parse (b'!' ∷ b's' ∷ bytes "tatus:200")) shown
    ≡ not (matches (parse (b's' ∷ bytes "tatus:200")) shown)
unfolding ℕ_discrete
matches-parse-negation_example =
    matches-parse-negation shown b'!' b's' (bytes "tatus:200") refl refl (ground arith)

abbrev rules : List ParsedAdblockRule
rules =
    spelled_rule false at_domain (bytes "ads.test") false
    ∷ spelled_rule true unanchored (bytes "good.test") false
    ∷ []

evaluate-compile_into_example :
    (is_block (evaluate (compile_into ContentFilter.create rules).0 (bytes "https://ads.test/")).1
      ≡ (ContentFilter.create.enabled
          && (not (is_blank (bytes "https://ads.test/"))
              && (not (
                    is_allowed (bytes "https://ads.test/") ContentFilter.create
                    || excepts (bytes "https://ads.test/") rules)
                  && (has_match (bytes "https://ads.test/") ContentFilter.create
                      || hits (bytes "https://ads.test/") rules)))))
    × ((compile_into ContentFilter.create rules).1 ≡ length rules % 2 ^ 64)
evaluate-compile_into_example =
    evaluate-compile_into ContentFilter.create rules (bytes "https://ads.test/")

parse_line-spell_example :
    parse_line (spell true at_start (bytes "a.test") true)
    ≡ some (spelled_rule true at_start (bytes "a.test") true)
unfolding ℕ_discrete
parse_line-spell_example = parse_line-spell b'a' (bytes ".test") (ground arith) true at_start true
