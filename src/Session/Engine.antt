-- ===== src/Session/Engine.antt =====
-- engine/browser_engine.h: the commands that a session sends to the engine port, as values. A
-- session keeps them, newest first, with the calls of its observers.
use openbrowser.Prelude.{ℕ, String, Bool}
use openbrowser.Tabs.{Tab}

pub data EngineCall : Type 0 where
  set_event_sink : Bool → EngineCall
  create_tab : Tab → EngineCall
  close_tab activate_tab go_back go_forward reload suspend resume : String → EngineCall
  navigate : String → String → EngineCall
  set_ephemeral_mode : Bool → EngineCall
  purge_ephemeral_context : EngineCall

pub data Effect : Type 0 where
  engine : EngineCall → Effect
  notified : ℕ → Effect
