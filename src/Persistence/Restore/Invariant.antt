-- ===== src/Persistence/Restore/Invariant.antt =====
-- `RestoreSession` keeps what holds of a session between two calls.
use openbrowser.Prelude.{
  String, Bool, true, false, Option, none, some, List, [], ◌∷◌, holds, Option-cases, inl, inr,
  string_eq, if◌then◌else◌,
}
use openbrowser.FocusQueue.{FocusQueue, FocusQueueItem, contains}
use openbrowser.FocusQueue.Laws.{IsDistinct, enqueues, sets_tab_id, change, change-IsDistinct}
use openbrowser.Session.{BrowserSession}
use openbrowser.Session.TabList.{find_tab}
use openbrowser.Session.Invariant.{Inv}
use openbrowser.Session.Invariant.Open.{open_tab-Inv}
use openbrowser.Session.Invariant.Activate.{activate_tab-Inv}
use openbrowser.FocusSession.{is_closed, unbind_closed, synchronize_tab_closures}
use openbrowser.Persistence.{
  SessionTabRecord, FocusItemRecord, SessionSnapshot, restore_tabs, restore_items, activate_target,
  target_active_id, restore_session, reopened_tab, queue_item,
}

restore_tabs-Inv :
    (target : Option String) (rs : List SessionTabRecord) (s : BrowserSession)
    → Inv s
    → Inv (restore_tabs target rs s)
unfolding restore_tabs
restore_tabs-Inv target [] s v = v
restore_tabs-Inv target (r ∷ rs) s v = elim (Option-cases (find_tab r.id s.tabs)) [
  | inl e ↦ rw e (
      restore_tabs-Inv target rs _
        (open_tab-Inv s (reopened_tab r (holds target r.id)) (holds target r.id) v))
  | inr (t, e) ↦ rw e (restore_tabs-Inv target rs s v)
]

activate_target-Inv :
    (target : Option String) (s : BrowserSession) → Inv s → Inv (activate_target target s)
activate_target-Inv none s v = v
activate_target-Inv (some id) s v = activate_tab-Inv s id v

if_keeps : {A : Type 0} (P : A → Type 0) (b : Bool) (x y : A) → P x → P y → P (if b then x else y)
if_keeps P true x y p r = p
if_keeps P false x y p r = r

pub restore_items-IsDistinct :
    (rs : List FocusItemRecord) (q : FocusQueue) → IsDistinct q → IsDistinct (restore_items rs q)
unfolding restore_items change
restore_items-IsDistinct [] q d = d
restore_items-IsDistinct (r ∷ rs) q d =
    restore_items-IsDistinct rs _ (
      if_keeps IsDistinct (contains q r.id) _ _ d (change-IsDistinct (enqueues (queue_item r)) q d))

unbind_closed-IsDistinct :
    (s : BrowserSession) (is : List FocusQueueItem) (q : FocusQueue)
    → IsDistinct q
    → IsDistinct (unbind_closed s is q)
unfolding unbind_closed change
unbind_closed-IsDistinct s [] q d = d
unbind_closed-IsDistinct s (i ∷ is) q d = unbind_closed-IsDistinct s is _ (
    if_keeps IsDistinct (is_closed s i.tab_id) _ _ (change-IsDistinct (sets_tab_id i.id none) q d)
      d)

pub restored-Inv :
    (s : BrowserSession) (q : FocusQueue) (p : SessionSnapshot) (ts : List SessionTabRecord)
    → Inv s
    → IsDistinct q
    → let (s', q', done) = restore_session s q (record p { tabs = ts }) in Inv s' × IsDistinct q'
unfolding restore_session synchronize_tab_closures
restored-Inv s q p [] v d = (v, restore_items-IsDistinct p.focus_items q d)
restored-Inv s q p (r ∷ rs) v d =
    let target = target_active_id (record p { tabs = r ∷ rs }) in
    let s' = activate_target target (restore_tabs target (r ∷ rs) s) in
    let q' = restore_items p.focus_items q in
    (
      activate_target-Inv target _ (restore_tabs-Inv target (r ∷ rs) s v),
      unbind_closed-IsDistinct s' q'.items q' (restore_items-IsDistinct p.focus_items q d),
    )
