-- ===== src/Lib.antt =====
-- Openbrowser's core: tabs and sessions, private mode, profiles, permissions, transfers, the focus
-- tools, workspaces, files, and the network trace. The modules follow the C++ classes under src/core, whose names are kept in
-- snake_case, with one function per method.
--
-- Parts, and how they meet:
--   Tabs            src/core/tabs/tab.h and src/core/navigation/internal_urls.h: the tab record.
--   Session         src/core/session/browser_session.cpp: BrowserSession. `Session.antt` opens,
--                   activates and closes tabs; `Navigation` has the commands and the events of the
--                   engine, `Closed` the reopening of closed tabs and the cycling through the open
--                   ones, `Requests` a request for each method. `Mirror` describes what the engine
--                   knows of a tab after the calls made to it, and `Invariant` what holds between
--                   two calls.
--   TabDiscard      src/core/session/tab_discard_policy.cpp: TabDiscardPolicy, over a session and
--                   the focus queue.
--   Profiles        src/core/profiles/profile_manager.cpp: Profile and ProfileManager.
--   Privacy         src/core/session/session_privacy_orchestrator.cpp: private mode, over a session
--                   and the profiles.
--   Transfers       src/core/transfers/transfer_broker.cpp: TransferBroker.
--   Capabilities    src/core/capabilities/capability_policy.cpp: CapabilityPolicy.
--   FocusQueue      src/core/focus_queue/focus_queue.cpp: FocusQueue.
--   FocusSprint     src/core/focus_queue/focus_sprint.cpp: FocusSprint.
--   Json            src/core/storage/json_helper.cpp: values, look-ups and escaping; `Lexer` and
--                   `Parser` have JsonParser, and `Printer` the layout that every Serialize writes.
--                   `Spelling`, `Numbers`, `Documents` and `Arrays` are the rules by which texts are
--                   read back.
--   FocusSession    src/core/session/focus_session_controller.cpp: the queue's items over the tabs.
--   Persistence     src/core/session/session_persistence.cpp: `Persistence.antt` captures and
--                   restores a session and its queue, `Document` writes and reads the JSON.
--   History         src/core/history/history_manager.cpp: HistoryManager; `Bridge` is
--                   src/core/session/session_history_bridge.h, which records visits as the session
--                   of `Session` changes under the profiles of `Profiles`.
--   AddressInput    src/core/navigation/address_input.cpp: what is typed in the address field.
--   DecisionLog     src/core/network/filter_decision_log.cpp: FilterDecisionLog.
--   ContentFilter   src/core/filters/content_filter.cpp: ContentFilter, over a DecisionLog.
--   FileStore       src/core/storage/atomic_file_store.cpp: writing a file by way of a temporary one,
--                   and reading it or its backup, in the branch for POSIX. The file system is a
--                   parameter: `FileStore.antt` has its operations, `Laws` what is asked of them, and
--                   `Memory` one that meets it.
--   Workspaces      src/core/workspaces/workspace_manager.cpp: WorkspaceManager; `Order` has the
--                   order of the map, `Document` reads the JSON.
--   NetworkTrace    src/devtools/network/network_trace.cpp: the buffer of the events, `Requests` the
--                   summaries of the requests, joined with a DecisionLog, `Queries` the filter of
--                   the panel, `Urls` the redaction of addresses.
--   NetworkFilterQuery
--                   src/core/network/network_filter_query.cpp: the query language over the summaries
--                   of NetworkTrace.
--   AdblockRules    src/core/filters/adblock_rule_parser.cpp: the lines of a filter list, and their
--                   compilation into the ContentFilter.
--   Prelude         vectors whose elements carry an id (Keyed), maps (Dict), texts as bytes (Bytes).
--   Tests           examples of the theorems at concrete inputs.
--
-- How state is modelled. An object is a record, and a method is a function from the record and the
-- arguments to the new record and the result. A call that leaves the object (into the engine, to an
-- observer, to a handler, or to the disk) is an entry in a log in that record. An
-- observer or a handler is a number, and its own reaction is no part of the model: in particular it
-- does not call back. A map is an association list, without its order,
-- but for the workspaces, whose order is shown.
-- The time is an argument of the methods that read the clock. Counters of 32 and 64 bits wrap
-- around. Every loop is structural recursion, on a list or on its length, but for three: `first_alive`
-- is given the number of tabs, as the code's loop is; `free_suffix` has as much fuel as there are
-- tabs, so that one of the ids it tries is free; and the parser of JSON has three units for each
-- character and one more, and says so when it runs out.
-- Texts that the code only compares are strings; those that it takes apart, as CapabilityPolicy, the
-- address field, the content filter and the JSON parser do, are lists of bytes. The conversions
-- between texts, integers and doubles that the language has are parameters.
--
-- Not modelled: the windows and the CEF glue under apps/desktop; the document of the origin rules;
-- the branch of the file store for Windows; bookmarks, settings and sync; and of the developer tools
-- all but the network trace, whose two exports are left out. The parts that save and load their
-- documents log the save and take the content that is read from a parameter: they are not joined
-- with FileStore. Locks are not modelled: each method of TransferBroker is one step. Methods that
-- only return a member have no function of their own.
mod Prelude
pub mod Tabs
pub mod Session
pub mod FocusQueue
pub mod FocusSprint
pub mod TabDiscard
pub mod Transfers
pub mod Capabilities
pub mod Profiles
pub mod Privacy
pub mod Json
pub mod FocusSession
pub mod Persistence
pub mod History
pub mod AddressInput
pub mod DecisionLog
pub mod ContentFilter
pub mod FileStore
pub mod NetworkTrace
pub mod NetworkFilterQuery
pub mod Workspaces
pub mod AdblockRules
pub mod Tests
