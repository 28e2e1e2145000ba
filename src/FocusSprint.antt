-- ===== src/FocusSprint.antt =====
-- core/focus_queue/focus_sprint.h and focus_sprint.cpp: the timer of a focus sprint and the time
-- that it counts. The numbers wrap as their types do; the printed forms are left out.
pub mod Ticks
use openbrowser.Prelude.{
  ℕ, ◌+◌, ◌-◌, ◌%◌, ◌^◌, Bool, true, false, leb, ltb, ◌==◌, ℕ_eq, if◌then◌else◌,
}

pub data SprintState : Type 0 where
  idle running paused completed : SprintState

pub record AttentionMetrics : Type 0 where
  pub focused_seconds : ℕ  -- uint64
  pub distracted_seconds : ℕ  -- uint64
  pub completed_sprints : ℕ  -- uint32

pub record FocusSprint : Type 0 where
  pub state : SprintState
  pub default_duration_seconds : ℕ  -- uint32
  pub duration_seconds : ℕ  -- uint32
  pub remaining_seconds : ℕ  -- uint32
  pub metrics : AttentionMetrics

abbrev pub u32 : ℕ → ℕ
u32 n = n % 2 ^ 32

abbrev pub u64 : ℕ → ℕ
u64 n = n % 2 ^ 64

unfoldable pub create : ℕ → FocusSprint
create n = record {
  state = idle;
  default_duration_seconds = n;
  duration_seconds = n;
  remaining_seconds = n;
  metrics = record { focused_seconds = 0; distracted_seconds = 0; completed_sprints = 0 };
}

unfoldable pub start : FocusSprint → ℕ → FocusSprint
start s seconds =
    let duration =
      if ltb 0 seconds
      then seconds
      else if s.duration_seconds == 0
      then s.default_duration_seconds
      else s.duration_seconds in
    record s { duration_seconds = duration; remaining_seconds = duration; state = running }

unfoldable pub pause : FocusSprint → FocusSprint
pause s = elim s.state [ running ↦ record s { state = paused } | _ ↦ s ]

unfoldable pub resume : FocusSprint → FocusSprint
resume s = elim s.state [ paused ↦ record s { state = running } | _ ↦ s ]

unfoldable pub reset : FocusSprint → FocusSprint
reset s = record s { state = idle; remaining_seconds = s.duration_seconds }

-- `metrics_.focused_seconds += delta` or `metrics_.distracted_seconds += delta`.
abbrev pub attend : Bool → ℕ → AttentionMetrics → AttentionMetrics
attend true delta m = record m { focused_seconds = u64 (m.focused_seconds + delta) }
attend false delta m = record m { distracted_seconds = u64 (m.distracted_seconds + delta) }

-- A running sprint, once the time is attributed.
unfoldable pub advance : FocusSprint → ℕ → FocusSprint × Bool
advance s delta =
    if leb s.remaining_seconds delta
    then (
      let m = s.metrics in
          record s {
            remaining_seconds = 0;
            state = completed;
            metrics = record m { completed_sprints = u32 (m.completed_sprints + 1) };
          },
      true,
    )
    else (record s { remaining_seconds = s.remaining_seconds - delta }, false)

unfoldable pub tick : FocusSprint → ℕ → Bool → FocusSprint × Bool
unfolding advance
tick s delta is_on_focus_task =
    let attended = record s { metrics = attend is_on_focus_task delta s.metrics } in
    if delta == 0
    then (s, false)
    else elim s.state [ running ↦ advance attended delta | _ ↦ (attended, false) ]
