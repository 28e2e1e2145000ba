-- ===== src/Tests/Addresses.antt =====
-- Examples for the history, the address field and the content filter.
use openbrowser.Prelude.Bytes.{Bytes, bytes, bytes_eq, strip, take_until}
use openbrowser.Prelude.Integers.{pos}
use openbrowser.Prelude.{
  ◌+◌, min, ◌%◌, ◌^◌, String, ◌≡◌, refl, Bool, true, false, none, some, List, [], ◌∷◌, length,
  keep_if, string_discrete, ℕ_discrete, arith,
}
use openbrowser.Prelude.Dict
use openbrowser.Prelude.Keyed
use openbrowser.Tabs.{Tab, idle, is_new_tab_url, is_blank_or_new_tab_url}
use openbrowser.Session.{BrowserSession, create}
use openbrowser.Privacy.{fresh_tab}
use openbrowser.Profiles
use openbrowser.Profiles.{ProfileManager}
use openbrowser.History
use openbrowser.History.{HistoryEntry, HistoryManager, matches, is_before, search}
use openbrowser.History.Visits.{Visit, record_each, visits, times, visits-times}
use openbrowser.History.Recall.Meaning.{IsAbout, Outranks}
use openbrowser.History.Recall.Sorting.{count}
use openbrowser.History.Recall.{Each, IsRanked, search_lem}
use openbrowser.History.Bridge.{SessionHistoryBridge, on_browser_session_changed}
use openbrowser.History.Privacy.{has_url, Notification, is_shown_publicly, notify_each-IsPublic}
use openbrowser.AddressInput.{
  all_of, strip_case_insensitive, lower_ascii, url_encode, has_no_space_or_cntrl, is_web_address,
  normalize_address_input, is_loopback_address, resolve_address_input, has_explicit_scheme,
  looks_like_ipv4_literal, looks_like_ipv6_literal, looks_like_host_or_domain,
}
use openbrowser.AddressInput.Encoding.{url_decode, url_decode-url_encode}
use openbrowser.AddressInput.Addresses.{normalize_address_input_lem, resolve-normalize}
use openbrowser.DecisionLog
use openbrowser.DecisionLog.{
  FilterDecisionLog, FilterDecisionRecord, capability_policy, add_each, add_each_lem,
}
use openbrowser.ContentFilter
use openbrowser.ContentFilter.{
  ContentFilter, allow, evaluate, evaluate_with_id, add_allow_domain, is_blank, occurs_in,
}
use openbrowser.ContentFilter.Decisions.{Explains, latest, evaluate_with_id-Explains}

abbrev seen : List Visit
seen =
    (pos 1, "https://a.test/", "A", none)
    ∷ (pos 2, "https://b.test/", "B", some "w")
    ∷ (pos 3, "https://a.test/", "", none)
    ∷ (pos 4, "https://a.test/", "A", some "w")
    ∷ []

visits-times_example :
    visits "https://a.test/" none (record_each seen History.create).entries
    ≡ times "https://a.test/" none seen % 2 ^ 64
visits-times_example = visits-times "https://a.test/" none seen

abbrev history : HistoryManager
history = record_each seen History.create

search_example :
    let query = bytes "B.TEST" in
    let found = search history "B.TEST" 2 in
    let kept = keep_if (matches query) history.entries in
    ((e : HistoryEntry)
      → (matches query e ≡ true → IsAbout query e) × (IsAbout query e → matches query e ≡ true))
    × Each (IsAbout query) found
    × (length found ≡ min 2 (length kept))
    × IsRanked found
    × ((rest : List HistoryEntry) × Each (λ x. Each (Outranks x) rest) found
        × ((p : HistoryEntry → Bool) → count p found + count p rest ≡ count p kept))
search_example = search_lem history "B.TEST" 2

-- A tab whose page is committed, and a session in which it is active.
abbrev page : String → String → Bool → Tab
page url title is_ephemeral = record (fresh_tab "t" title is_ephemeral) {
  url = url;
  navigation_state = idle;
  has_committed_navigation = true;
}

abbrev showing : Tab → BrowserSession
showing t = record create { tabs = t ∷ []; active_tab_id = some "t" }

abbrev bridge : SessionHistoryBridge
bridge = record {
  history_manager = some History.create;
  has_save_session_fn = true;
  session_saves = [];
  last_committed_url_per_tab = [];
}

abbrev notifications : List Notification
notifications =
    (pos 1, some Profiles.create, showing (page "https://secret.test/" "S" true))
    ∷ (pos 2, some Profiles.create, showing (page "https://a.test/" "A" false))
    ∷ []

notify_each_example : is_shown_publicly "https://a.test/" notifications ≡ true
unfolding Keyed.find has_url string_discrete is_blank_or_new_tab_url is_new_tab_url ℕ_discrete
    on_browser_session_changed Profiles.create Profiles.create_profile Dict.lookup
    History.record_visit History.has_entry
notify_each_example = notify_each-IsPublic "https://a.test/" notifications bridge refl refl

abbrev typed : Bytes
typed = bytes "50% off & more+"

url_decode_example : url_decode (url_encode (bytes "5% a+")) ≡ bytes "5% a+"
url_decode_example =
    url_decode-url_encode (bytes "5% a+")
      (omega arith, (omega arith, (omega arith, (omega arith, (omega arith, tt)))))

normalize_example :
    (is_web_address (bytes "https://a.io/x") ≡ true)
    × (has_no_space_or_cntrl (bytes "https://a.io/x") ≡ true)
    × (normalize_address_input (bytes "https://a.io/x") ≡ some (bytes "https://a.io/x"))
unfolding normalize_address_input ℕ_discrete all_of strip_case_insensitive lower_ascii
    is_loopback_address strip has_explicit_scheme looks_like_ipv4_literal take_until
    looks_like_ipv6_literal looks_like_host_or_domain
normalize_example = normalize_address_input_lem (bytes " a.io/x ") (bytes "https://a.io/x") refl

resolve_example :
    resolve_address_input (bytes "127.0.0.1:80") (bytes "https://s.test/?q=%s")
    ≡ some (bytes "http://127.0.0.1:80")
unfolding normalize_address_input ℕ_discrete all_of strip_case_insensitive lower_ascii
    is_loopback_address strip
resolve_example =
    resolve-normalize (bytes "127.0.0.1:80") (bytes "http://127.0.0.1:80")
      (bytes "https://s.test/?q=%s") refl

abbrev decision : String → FilterDecisionRecord
decision id = record {
  request_id = bytes id;
  url = bytes "https://a.test/";
  blocked = false;
  layer = capability_policy;
  rule_source = [];
  scope = bytes "global";
  human_explanation = [];
}

abbrev tracker : Bytes
tracker = bytes "https://AdNxs.com/x"

abbrev logged : ContentFilter
logged = record ContentFilter.create { decision_log = some (DecisionLog.create 2) }

evaluate_with_id_example :
    let (f', d) = evaluate_with_id logged tracker (bytes "r1") (bytes "global") in
    (d ≡ (evaluate logged tracker).1)
    × ((r : FilterDecisionRecord) × (latest f'.decision_log (bytes "r1") ≡ some r)
        × Explains logged tracker d r)
evaluate_with_id_example =
    evaluate_with_id-Explains logged (DecisionLog.create 2) tracker (bytes "r1") (bytes "global")
      refl
