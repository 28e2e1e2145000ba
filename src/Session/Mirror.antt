-- ===== src/Session/Mirror.antt =====
-- What the engine knows of the tabs: the state that the commands sent so far leave each tab in,
-- and the state that each command needs of its tab.
use openbrowser.Prelude.{
  ℕ, String, ◌≡◌, refl, Option, none, some, List, [], ◌∷◌, arith, ◌==◌, string_eq, if◌then◌else◌,
}
use openbrowser.Tabs.{TabLifecycle, active, background, suspended, discarded}
use openbrowser.Session.Engine.{
  EngineCall, set_event_sink, create_tab, navigate, Effect, engine, notified,
}
use openbrowser.Session.{notify_each}

pub data EngineTab : Type 0 where
  running asleep : EngineTab

abbrev pub after_call : String → EngineCall → Option EngineTab → Option EngineTab
after_call i (create_tab t) e = if t.id == i then some running else e
after_call i (EngineCall.close_tab j) e = if j == i then none else e
after_call i (EngineCall.suspend j) e = if j == i then some asleep else e
after_call i (EngineCall.resume j) e = if j == i then some running else e
after_call i _ e = e

abbrev pub engine_tab : String → List Effect → Option EngineTab
engine_tab i [] = none
engine_tab i (engine c ∷ es) = after_call i c (engine_tab i es)
engine_tab i (notified o ∷ es) = engine_tab i es

-- A tab is created once, and closed at any time; it is suspended while it runs, resumed while it
-- sleeps, and every other command goes to a running tab.
abbrev pub IsAccepted : EngineCall → List Effect → Type 0
IsAccepted (set_event_sink b) es = Unit {0}
IsAccepted (EngineCall.set_ephemeral_mode b) es = Unit {0}
IsAccepted EngineCall.purge_ephemeral_context es = Unit {0}
IsAccepted (create_tab t) es = engine_tab t.id es ≡ none
IsAccepted (EngineCall.close_tab i) es = Unit {0}
IsAccepted (EngineCall.activate_tab i) es = engine_tab i es ≡ some running
IsAccepted (EngineCall.go_back i) es = engine_tab i es ≡ some running
IsAccepted (EngineCall.go_forward i) es = engine_tab i es ≡ some running
IsAccepted (EngineCall.reload i) es = engine_tab i es ≡ some running
IsAccepted (EngineCall.suspend i) es = engine_tab i es ≡ some running
IsAccepted (EngineCall.resume i) es = engine_tab i es ≡ some asleep
IsAccepted (navigate i url) es = engine_tab i es ≡ some running

abbrev pub IsObedient : List Effect → Type 0
IsObedient [] = Unit {0}
IsObedient (engine c ∷ es) = IsAccepted c es × IsObedient es
IsObedient (notified o ∷ es) = IsObedient es

-- The state in the engine that a lifecycle stands for.
abbrev pub in_engine : Option TabLifecycle → Option EngineTab
in_engine none = none
in_engine (some active) = some running
in_engine (some background) = some running
in_engine (some suspended) = some asleep
in_engine (some discarded) = none

pub engine_tab-notify_each :
    (i : String) (registered os : List ℕ) (es : List Effect)
    → engine_tab i (notify_each registered os es) ≡ engine_tab i es
unfolding notify_each
engine_tab-notify_each i registered [] es = refl
engine_tab-notify_each i registered (o ∷ os) es = ground (
  arith,
  engine_tab-notify_each i registered os es,
  engine_tab-notify_each i registered os (notified o ∷ es),
)

pub notify_each-IsObedient :
    (registered os : List ℕ) (es : List Effect)
    → IsObedient es
    → IsObedient (notify_each registered os es)
unfolding notify_each
notify_each-IsObedient registered [] es h = h
notify_each-IsObedient registered (o ∷ os) es h = ground (
  arith,
  notify_each-IsObedient registered os es h,
  notify_each-IsObedient registered os (notified o ∷ es) h,
)
