-- ===== src/Transfers.antt =====
-- core/transfers/transfer.h, transfer_broker.h and transfer_broker.cpp: the downloads that the
-- browser follows. Each method is one step, as its mutex makes it; the time is an argument. A
-- notification is logged with its observers, and a control's call with the handler, newest first.
pub mod Notices
pub mod Final
use openbrowser.Prelude.{
  ℕ, zero, suc, ◌+◌, String, Bool, true, false, ◌||◌, not, Option, none, some, List, [], ◌∷◌, ◌++◌,
  ◌==◌, ℕ_eq, string_eq, is_empty, keep_if, if◌then◌else◌,
}
use openbrowser.Prelude.Integers.{ℤ, pos, max_zero, is_positive}
use openbrowser.Prelude.Keyed.{find, modify, erase}

pub data TransferState : Type 0 where
  queued in_progress paused completed failed cancelled : TransferState

pub record TransferItem : Type 0 where
  pub id : String
  pub url : String
  pub suggested_filename : String
  pub target_path : String
  pub mime_type : String
  pub received_bytes : ℤ
  pub total_bytes : ℤ
  pub speed_bytes_per_sec : ℤ
  pub state : TransferState
  pub error_message : String
  pub workspace_id : Option String
  pub start_time_ms : ℤ
  pub end_time_ms : ℤ

-- Each handler is a `std::function` that may be empty.
pub record TransferControl : Type 0 where
  pub transfer : String
  pub pause : Option ℕ
  pub resume : Option ℕ
  pub cancel : Option ℕ

pub data Notice : Type 0 where
  started updated finished : TransferItem → Notice

pub data Effect : Type 0 where
  published : Notice → List ℕ → Effect
  called : ℕ → Effect

pub record TransferBroker : Type 0 where
  pub transfers : List TransferItem
  pub controls : List TransferControl
  pub observers : List ℕ
  pub file_broker : Option ℕ
  pub effects : List Effect

abbrev pub transfer_id : TransferItem → String
transfer_id i = i.id

abbrev pub control_id : TransferControl → String
control_id c = c.transfer

abbrev pub find_transfer : String → List TransferItem → Option TransferItem
find_transfer = find transfer_id

abbrev pub is_terminal_state : TransferState → Bool
is_terminal_state completed = true
is_terminal_state failed = true
is_terminal_state cancelled = true
is_terminal_state _ = false

abbrev pub empty_broker : TransferBroker
empty_broker = record {
  transfers = [];
  controls = [];
  observers = [];
  file_broker = none;
  effects = [];
}

unfoldable pub contains : ℕ → List ℕ → Bool
contains o [] = false
contains o (p ∷ ps) = p == o || contains o ps

unfoldable pub add_observer : TransferBroker → Option ℕ → TransferBroker
unfolding contains
add_observer b none = b
add_observer b (some o) =
    if contains o b.observers then b else record b { observers = b.observers ++ o ∷ [] }

unfoldable pub remove_observer : TransferBroker → Option ℕ → TransferBroker
remove_observer b none = b
remove_observer b (some o) = record b { observers = keep_if (λ p. not (p == o)) b.observers }

unfoldable pub set_file_broker : TransferBroker → Option ℕ → TransferBroker
set_file_broker b f = record b { file_broker = f }

abbrev pub publish : Notice → TransferBroker → TransferBroker
publish n b = record b { effects = published n b.observers ∷ b.effects }

abbrev pub call_if_set : Option ℕ → TransferBroker → TransferBroker
call_if_set none b = b
call_if_set (some h) b = record b { effects = called h ∷ b.effects }

-- The handler of a transfer's control, if it has one.
abbrev pub handler : (TransferControl → Option ℕ) → String → List TransferControl → Option ℕ
handler which id cs = elim (find control_id id cs) [ none ↦ none | some c ↦ which c ]

abbrev pub registered : ℤ → TransferItem → TransferItem
registered now i = record i {
  start_time_ms = if is_positive i.start_time_ms then i.start_time_ms else now;
  received_bytes = max_zero i.received_bytes;
  total_bytes = max_zero i.total_bytes;
  speed_bytes_per_sec = max_zero i.speed_bytes_per_sec;
  state = in_progress;
}

unfoldable pub register_transfer : TransferBroker → ℤ → TransferItem → TransferBroker × Bool
register_transfer b now item =
    let added = registered now item in
    if is_empty item.id then (b, false) else elim (find_transfer item.id b.transfers) [
      | some _ ↦ (b, false)
      | none ↦ (publish (started added) (record b { transfers = added ∷ b.transfers }), true)
    ]

-- The start of most methods: `find`, and the state in which the method goes on.
abbrev pub with_transfer :
    TransferBroker
    → String
    → (TransferState → Bool)
    → (TransferItem → TransferBroker)
    → TransferBroker × Bool
with_transfer b id allowed go_on = elim (find_transfer id b.transfers) [
  | none ↦ (b, false)
  | some i ↦ if allowed i.state then (go_on i, true) else (b, false)
]

abbrev pub is_live : TransferState → Bool
is_live st = not (is_terminal_state st)

abbrev pub is_in_progress : TransferState → Bool
is_in_progress in_progress = true
is_in_progress _ = false

abbrev pub is_paused : TransferState → Bool
is_paused paused = true
is_paused _ = false

-- A write through the iterator, with the snapshot taken after it.
abbrev pub write : String → (TransferItem → TransferItem) → TransferBroker → TransferBroker
write id f b = record b { transfers = modify transfer_id id f b.transfers }

abbrev pub or_else : String → String → String
or_else new old = if is_empty new then old else new

abbrev pub with_metadata : String → String → String → String → TransferItem → TransferItem
with_metadata url filename path mime i = record i {
  url = or_else url i.url;
  suggested_filename = or_else filename i.suggested_filename;
  target_path = or_else path i.target_path;
  mime_type = or_else mime i.mime_type;
}

unfoldable pub update_metadata :
    TransferBroker → String → String → String → String → String → TransferBroker × Bool
update_metadata b id url filename path mime =
    let f = with_metadata url filename path mime in
    with_transfer b id is_live (λ i. publish (updated (f i)) (write id f b))

abbrev pub with_progress : ℤ → ℤ → ℤ → TransferItem → TransferItem
with_progress received total speed i = record i {
  received_bytes = max_zero received;
  total_bytes = max_zero total;
  speed_bytes_per_sec = max_zero speed;
  state = if is_paused i.state then i.state else in_progress;
}

unfoldable pub update_progress : TransferBroker → String → ℤ → ℤ → ℤ → TransferBroker × Bool
update_progress b id received total speed =
    let f = with_progress received total speed in
    with_transfer b id is_live (λ i. publish (updated (f i)) (write id f b))

unfoldable pub set_control : TransferBroker → TransferControl → TransferBroker
set_control b c = if is_empty c.transfer then b else elim (find_transfer c.transfer b.transfers) [
  | none ↦ b
  | some _ ↦ record b { controls = c ∷ erase control_id c.transfer b.controls }
]

unfoldable pub clear_control : TransferBroker → String → TransferBroker
clear_control b id = record b { controls = erase control_id id b.controls }

abbrev pub as_completed : ℤ → TransferItem → TransferItem
as_completed now i = record i {
  state = completed;
  end_time_ms = now;
  speed_bytes_per_sec = pos 0;
  received_bytes = if is_positive i.total_bytes then i.total_bytes else i.received_bytes;
}

abbrev pub as_failed : ℤ → String → TransferItem → TransferItem
as_failed now message i = record i {
  state = failed;
  error_message = message;
  end_time_ms = now;
  speed_bytes_per_sec = pos 0;
}

abbrev pub as_cancelled : ℤ → TransferItem → TransferItem
as_cancelled now i = record i { state = cancelled; end_time_ms = now; speed_bytes_per_sec = pos 0 }

unfoldable pub complete_transfer : TransferBroker → ℤ → String → TransferBroker × Bool
unfolding clear_control
complete_transfer b now id = with_transfer b id is_live (λ i.
    publish (finished (as_completed now i)) (clear_control (write id (as_completed now) b) id))

unfoldable pub fail_transfer : TransferBroker → ℤ → String → String → TransferBroker × Bool
unfolding clear_control
fail_transfer b now id message =
    let f = as_failed now message in
    with_transfer b id is_live (λ i. publish (finished (f i)) (clear_control (write id f b) id))

unfoldable pub cancel_transfer : TransferBroker → ℤ → String → TransferBroker × Bool
unfolding clear_control
cancel_transfer b now id =
    let f = as_cancelled now in
    let call = call_if_set (handler (λ c. c.cancel) id b.controls) in
    with_transfer b id is_live
      (λ i. publish (finished (f i)) (call (clear_control (write id f b) id)))

abbrev pub as_paused : TransferItem → TransferItem
as_paused i = record i { state = paused; speed_bytes_per_sec = pos 0 }

unfoldable pub pause_transfer : TransferBroker → String → TransferBroker × Bool
pause_transfer b id =
    let call = call_if_set (handler (λ c. c.pause) id b.controls) in
    with_transfer b id is_in_progress
      (λ i. publish (updated (as_paused i)) (call (write id as_paused b)))

abbrev pub as_resumed : TransferItem → TransferItem
as_resumed i = record i { state = in_progress }

unfoldable pub resume_transfer : TransferBroker → String → TransferBroker × Bool
resume_transfer b id =
    let call = call_if_set (handler (λ c. c.resume) id b.controls) in
    with_transfer b id is_paused
      (λ i. publish (updated (as_resumed i)) (call (write id as_resumed b)))

unfoldable pub active_transfers_count : List TransferItem → ℕ
active_transfers_count [] = 0
active_transfers_count (i ∷ is) =
    let rest = active_transfers_count is in if is_live i.state then suc rest else rest
