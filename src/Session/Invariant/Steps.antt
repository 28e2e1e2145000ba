-- ===== src/Session/Invariant/Steps.antt =====
-- Every method keeps the invariant, so that it holds of any session that the methods reach.
use openbrowser.Prelude.{
  ℕ, ◌+◌, ◌≤◌, ◌≡◌, refl, inl, inr, ◌++◌, Bool, true, Option, none, some, List, [], ◌∷◌, arith,
  length, length-keep_if-le, get_elem?, Option-cases, Bool-cases,
}
use openbrowser.Tabs.{Tab}
use openbrowser.Session.Engine.{EngineCall}
use openbrowser.Session.{
  BrowserSession, ClosedTabRecord, ClosedTabMode, create, is_observed_by, increment64, add_observer,
  remove_observer, open_tab,
}
use openbrowser.Session.Navigation.{go_back, go_forward, reload}
use openbrowser.Session.Closed.{
  restored_id, restored_tab, take_last_closed, reopen_record, reopen_last_closed_tab,
  purge_ephemeral_closed_tabs, cycle_among, cycle_tab, next_position, position_of, visible_tabs,
}
use openbrowser.Session.Requests.{
  Request, observe, unobserve, open_one, close_one, activate, back, forward, refresh, put_to_sleep,
  wake_up, discard, load, reopen, purge, cycle, receive, perform, run,
}
use openbrowser.Session.Invariant.{Inv, create-Inv}
use openbrowser.Session.Invariant.Activate.{activate_tab-Inv}
use openbrowser.Session.Invariant.Open.{open_tab-Inv}
use openbrowser.Session.Invariant.Close.{close_tab-Inv}
use openbrowser.Session.Invariant.Commands.{
  navigate-Inv, navigation_command-Inv, suspend_tab-Inv, resume_tab-Inv, discard_tab-Inv,
  on_event-Inv,
}

-- A change of what the invariant does not read.
pub same-Inv :
    {s : BrowserSession} (closed : List ClosedTabRecord) (observers : List ℕ) (n : ℕ)
    → Inv s
    → length closed ≤ length s.closed_tabs
    → Inv (record s { closed_tabs = closed; observers = observers; restored_counter = n })
same-Inv {s} closed observers n v le = record {
  distinct = v.distinct;
  agrees = λ i. ground (arith, v.agrees i);
  obedient = v.obedient;
  closed_bounded = omega arith;
}

add_observer-Inv : (s : BrowserSession) (o : Option ℕ) → Inv s → Inv (add_observer s o)
unfolding add_observer
add_observer-Inv s none v = v
add_observer-Inv s (some o) v = elim (Bool-cases (is_observed_by o s.observers)) [
  | inl e ↦ rw e v
  | inr e ↦ rw e (same-Inv s.closed_tabs (s.observers ++ o ∷ []) s.restored_counter v (omega arith))
]

pub take_last_closed-length :
    (mode : ClosedTabMode) (rs : List ClosedTabRecord) (r : ClosedTabRecord)
    (others : List ClosedTabRecord)
    → take_last_closed mode rs ≡ some (r, others)
    → length rs ≡ length others + 1
unfolding take_last_closed
take_last_closed-length mode [] r others h = ground arith
take_last_closed-length mode (x ∷ rs) r others h = elim (Option-cases (take_last_closed mode rs)) [
  | inl e ↦ ground arith
  | inr ((z, zs), e) ↦ ground (arith, take_last_closed-length mode rs z zs e)
]

reopen_record-session :
    (s : BrowserSession) (r : ClosedTabRecord) (others : List ClosedTabRecord)
    → let n = increment64 s.restored_counter in
      (reopen_record s r others).0
      ≡ (open_tab
          (record s { closed_tabs = others; restored_counter = n })
          (restored_tab (restored_id n) r)
          true).0
unfolding reopen_record
reopen_record-session s r others = ground arith

reopen-Inv :
    (s : BrowserSession) (mode : ClosedTabMode) → Inv s → Inv (reopen_last_closed_tab s mode).0
unfolding reopen_last_closed_tab
reopen-Inv s mode v = elim (Option-cases (take_last_closed mode s.closed_tabs)) [
  | inl e ↦ rw (e, reopen_last_closed_tab) v
  | inr ((r, others), e) ↦
      let n = increment64 s.restored_counter in
      rw (e, reopen_last_closed_tab, reopen_record-session s r others)
        (open_tab-Inv _ (restored_tab (restored_id n) r) true (
          same-Inv others s.observers n v
            (omega (arith, take_last_closed-length mode s.closed_tabs r others e))))
]

cycle_among-Inv :
    (s : BrowserSession) (onwards : Bool) (ts : List Tab) → Inv s → Inv (cycle_among s onwards ts).0
unfolding cycle_among
cycle_among-Inv s onwards [] v = v
cycle_among-Inv s onwards (t ∷ []) v = activate_tab-Inv s t.id v
cycle_among-Inv s onwards (t ∷ u ∷ ts) v =
    elim (Option-cases (
      get_elem? (t ∷ u ∷ ts)
        (next_position onwards (position_of s.active_tab_id (t ∷ u ∷ ts)) (length (t ∷ u ∷ ts))))) [
          | inl e ↦ rw (e, cycle_among) v
          | inr (w, e) ↦ rw (e, cycle_among) (activate_tab-Inv s w.id v)
        ]

perform-Inv : (r : Request) (s : BrowserSession) → Inv s → Inv (perform r s)
unfolding perform go_back go_forward reload remove_observer purge_ephemeral_closed_tabs cycle_tab
perform-Inv (observe o) s v = add_observer-Inv s o v
perform-Inv (unobserve o) s v = same-Inv s.closed_tabs _ s.restored_counter v (omega arith)
perform-Inv (open_one t a) s v = open_tab-Inv s t a v
perform-Inv (close_one id p) s v = close_tab-Inv s id p v
perform-Inv (activate id) s v = activate_tab-Inv s id v
perform-Inv (back id) s v =
    navigation_command-Inv EngineCall.go_back s id (λ i es. refl) (λ es h. h) v
perform-Inv (forward id) s v =
    navigation_command-Inv EngineCall.go_forward s id (λ i es. refl) (λ es h. h) v
perform-Inv (refresh id) s v =
    navigation_command-Inv EngineCall.reload s id (λ i es. refl) (λ es h. h) v
perform-Inv (put_to_sleep id) s v = suspend_tab-Inv s id v
perform-Inv (wake_up id) s v = resume_tab-Inv s id v
perform-Inv (discard id) s v = discard_tab-Inv s id v
perform-Inv (load id url) s v = navigate-Inv s id url v
perform-Inv (reopen mode) s v = reopen-Inv s mode v
perform-Inv purge s v =
    same-Inv _ s.observers s.restored_counter v (length-keep_if-le _ s.closed_tabs)
perform-Inv (cycle onwards p) s v = cycle_among-Inv s onwards (visible_tabs p s.tabs) v
perform-Inv (receive e) s v = on_event-Inv s e v

run_from-Inv : (s : BrowserSession) (rs : List Request) → Inv s → Inv (run s rs)
unfolding run
run_from-Inv s [] v = v
run_from-Inv s (r ∷ rs) v = run_from-Inv (perform r s) rs (perform-Inv r s v)

-- After any methods, in any order, no two tabs have one id, the named tab is the one that is active,
-- the engine's tabs are in the states that the lifecycles stand for, every command went to a tab
-- in the state that it needs, and at most 25 closed tabs are kept.
pub run-Inv : (rs : List Request) → Inv (run create rs)
run-Inv rs = run_from-Inv create rs create-Inv
