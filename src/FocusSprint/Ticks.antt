-- ===== src/FocusSprint/Ticks.antt =====
-- A sprint under any sequence of ticks.
use openbrowser.Prelude.{
  ℕ, suc, ◌+◌, ◌-◌, ◌^◌, ◌≤◌, ◌<◌, ◌≡◌, refl, Bool, true, false, List, [], ◌∷◌, arith, ℕ_eq,
  if◌then◌else◌,
}
use openbrowser.FocusSprint.{FocusSprint, AttentionMetrics, running, completed, u64, tick}

-- The state after the ticks, and how many of them reported a completion.
unfoldable pub ticks : FocusSprint → List (ℕ × Bool) → FocusSprint × ℕ
ticks s [] = (s, 0)
ticks s ((delta, focused) ∷ ds) =
    let (s', done) = tick s delta focused in
    let (s'', n) = ticks s' ds in (s'', if done then suc n else n)

unfoldable pub total : List (ℕ × Bool) → ℕ
total [] = 0
total ((delta, focused) ∷ ds) = delta + total ds

-- Seconds attributed to the task, or to everything else.
unfoldable pub attributed : Bool → List (ℕ × Bool) → ℕ
attributed on [] = 0
attributed true ((delta, true) ∷ ds) = delta + attributed true ds
attributed true ((delta, false) ∷ ds) = attributed true ds
attributed false ((delta, true) ∷ ds) = attributed false ds
attributed false ((delta, false) ∷ ds) = delta + attributed false ds

-- While the ticks of a running sprint stay below what remains, the sprint runs on, with the
-- remaining time less by their sum, and nothing is reported.
pub ticks-running :
    (s : FocusSprint) (ds : List (ℕ × Bool))
    → s.state ≡ running
    → total ds < s.remaining_seconds
    → let (s', n) = ticks s ds in
      (s'.state ≡ running) × (s'.remaining_seconds ≡ s.remaining_seconds - total ds) × (n ≡ 0)
unfolding ticks total tick
ticks-running s [] r lt = (r, omega arith, refl)
ticks-running s ((delta, focused) ∷ ds) r lt =
    ground (arith, ticks-running (tick s delta focused).0 ds)

tick-idle :
    (s : FocusSprint) (delta : ℕ) (focused : Bool)
    → s.state ≡ completed
    → ((tick s delta focused).0.state ≡ completed) × ((tick s delta focused).1 ≡ false)
unfolding tick
tick-idle s delta focused e = ground arith

ticks-completed :
    (s : FocusSprint) (ds : List (ℕ × Bool))
    → s.state ≡ completed
    → ((ticks s ds).0.state ≡ completed) × ((ticks s ds).1 ≡ 0)
unfolding ticks
ticks-completed s [] e = (e, refl)
ticks-completed s ((delta, focused) ∷ ds) e =
    ground (arith, tick-idle s delta focused, ticks-completed (tick s delta focused).0 ds)

-- Once the ticks of a running sprint with time left reach what remained, the sprint is
-- completed, and exactly one tick reported it.
pub ticks-complete_once :
    (s : FocusSprint) (ds : List (ℕ × Bool))
    → s.state ≡ running
    → 0 < s.remaining_seconds
    → s.remaining_seconds ≤ total ds
    → ((ticks s ds).0.state ≡ completed) × ((ticks s ds).1 ≡ 1)
unfolding ticks total tick
ticks-complete_once s [] r pos le = absurd (omega arith)
ticks-complete_once s ((delta, focused) ∷ ds) r pos le = ground (
  arith,
  ticks-complete_once (tick s delta focused).0 ds,
  ticks-completed (tick s delta focused).0 ds,
)

-- From `m` to `m'` the seconds of the ticks are added, each to the counter of its kind, as uint64.
abbrev pub IsAttended : AttentionMetrics → AttentionMetrics → List (ℕ × Bool) → Type 0
IsAttended m m' ds =
    (m'.focused_seconds ≡ u64 (m.focused_seconds + attributed true ds))
    × (m'.distracted_seconds ≡ u64 (m.distracted_seconds + attributed false ds))

tick-IsAttended :
    (s : FocusSprint) (delta : ℕ) (focused : Bool)
    → s.metrics.focused_seconds < 2 ^ 64
    → s.metrics.distracted_seconds < 2 ^ 64
    → IsAttended s.metrics (tick s delta focused).0.metrics ((delta, focused) ∷ [])
unfolding tick attributed
tick-IsAttended s delta true hf hd = ground arith
tick-IsAttended s delta false hf hd = ground arith

attributed-cons :
    (on : Bool) (delta : ℕ) (focused : Bool) (ds : List (ℕ × Bool))
    → attributed on ((delta, focused) ∷ ds)
      ≡ attributed on ((delta, focused) ∷ []) + attributed on ds
unfolding attributed
attributed-cons true delta true ds = omega arith
attributed-cons true delta false ds = omega arith
attributed-cons false delta true ds = omega arith
attributed-cons false delta false ds = omega arith

-- From counters within 64 bits, in every state of the sprint, paused and completed too, the
-- seconds of each tick are added once, to the counter of its kind, as uint64.
pub ticks-IsAttended :
    (s : FocusSprint) (ds : List (ℕ × Bool))
    → s.metrics.focused_seconds < 2 ^ 64
    → s.metrics.distracted_seconds < 2 ^ 64
    → IsAttended s.metrics (ticks s ds).0.metrics ds
unfolding ticks
ticks-IsAttended s [] hf hd = (unfold attributed in omega arith, unfold attributed in omega arith)
ticks-IsAttended s ((delta, focused) ∷ ds) hf hd =
    let t = (tick s delta focused).0 in
    let one = tick-IsAttended s delta focused hf hd in
    let rest = ticks-IsAttended t ds (omega arith) (omega arith) in
    (
      omega (arith, attributed-cons true delta focused ds),
      omega (arith, attributed-cons false delta focused ds),
    )
