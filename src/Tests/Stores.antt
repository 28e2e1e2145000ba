-- ===== src/Tests/Stores.antt =====
-- Examples for core/transfers, core/profiles and core/focus_queue.
use openbrowser.Prelude.Keyed
use openbrowser.Prelude.{
  ℕ, String, ◌≡◌, refl, Bool, true, false, none, some, List, [], ◌∷◌, arith, string_discrete,
}
use openbrowser.Prelude.Integers.{pos}
use openbrowser.Transfers.{
  TransferItem, TransferBroker, completed, queued, find_transfer, empty_broker,
}
use openbrowser.Transfers.Notices
use openbrowser.Transfers.Notices.{
  registers, progresses, completes, observes, cancels, IsTold, run-IsTold,
}
use openbrowser.Transfers.Final.{run_keeps_final}
use openbrowser.Profiles
use openbrowser.Profiles.{get_active_profile, purge_ephemeral_profiles}
use openbrowser.Profiles.Laws
use openbrowser.Profiles.Laws.{
  changes, creates_ephemeral, activates, purges, removes, is_lasting, changes-Inv, purge-lasting,
}
use openbrowser.FocusQueue.{FocusQueueItem, FocusQueue, now, next, step_back, promote_to_now}
use openbrowser.FocusQueue.Laws.{promote_to_now_lem}
use openbrowser.FocusSprint
use openbrowser.FocusSprint.{running}
use openbrowser.FocusSprint.Ticks.{ticks, total, ticks-complete_once}

abbrev item : TransferItem
item = record {
  id = "t";
  url = "https://page.test/file";
  suggested_filename = "file";
  target_path = "/tmp/file";
  mime_type = "";
  received_bytes = pos 5;
  total_bytes = pos 5;
  speed_bytes_per_sec = pos 0;
  state = completed;
  error_message = "";
  workspace_id = none;
  start_time_ms = pos 1;
  end_time_ms = pos 2;
}

abbrev life : List Notices.Change
life =
    observes (some 1)
    ∷ registers (pos 1) (record item { state = queued })
    ∷ progresses "t" (pos 5) (pos 5) (pos 1)
    ∷ completes (pos 2) "t"
    ∷ cancels (pos 3) "t"
    ∷ []

run-IsTold_example : IsTold (Notices.run empty_broker life) "t"
run-IsTold_example = run-IsTold life "t"

abbrev broker : TransferBroker
broker = record empty_broker { transfers = item ∷ [] }

run_keeps_final_example : find_transfer "t" (Notices.run broker life).transfers ≡ some item
unfolding Keyed.find string_discrete
run_keeps_final_example = run_keeps_final life broker item (refl, refl)

abbrev profile_changes : List Laws.Change
profile_changes = creates_ephemeral "Work" ∷ activates "ephemeral-1" ∷ removes "default" ∷ []

changes-Inv_example : Laws.Inv (changes Profiles.create profile_changes)
changes-Inv_example = changes-Inv profile_changes

abbrev task : String → FocusQueueItem
task id = record {
  id = id;
  url = "https://page.test/";
  tab_id = none;
  workspace_id = none;
  state = now;
}

abbrev queue : FocusQueue
queue = record { items = task "a" ∷ task "b" ∷ [] }

promote_example :
    promote_to_now queue "b"
    ≡ (record { items = task "b" ∷ record (task "a") { state = next } ∷ [] }, true)
unfolding Keyed.find Keyed.erase step_back string_discrete
promote_example = promote_to_now_lem queue "b" (task "b") refl

abbrev sprint : FocusSprint.FocusSprint
sprint = record {
  state = running;
  default_duration_seconds = 1500;
  duration_seconds = 60;
  remaining_seconds = 60;
  metrics = record { focused_seconds = 7; distracted_seconds = 0; completed_sprints = 0 };
}

abbrev seconds : List (ℕ × Bool)
seconds = (30, true) ∷ (29, false) ∷ []

ticks-complete_once_example :
    ((ticks sprint ((5, true) ∷ seconds)).0.state ≡ FocusSprint.completed)
    × ((ticks sprint ((5, true) ∷ seconds)).1 ≡ 1)
unfolding total
ticks-complete_once_example =
    ticks-complete_once sprint ((5, true) ∷ seconds) refl (omega arith) (omega arith)
