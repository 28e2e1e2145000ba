-- ===== src/Session/Invariant/Close.antt =====
-- `CloseTab` keeps the invariant, with the activation that may follow.
use openbrowser.Prelude.Keyed
use openbrowser.Prelude.{
  ℕ, zero, suc, ◌%◌, ◌<◌, ◌+◌, ◌-◌, ◌≤◌, min, String, ◌≡◌, refl, ◌⊎◌, inl, inr, true, false, Option,
  none, some, List, [], ◌∷◌, ◌++◌, arith, string_eq, holds, length, length-append, get_elem?,
  Option-cases, Bool-cases,
}
use openbrowser.Tabs.{Tab, is_discarded}
use openbrowser.Session.Engine.{create_tab, EngineCall}
use openbrowser.Session.TabList.{tab_id, find_tab, erase, index_of, Distinct}
use openbrowser.Session.{
  BrowserSession, drop_oldest, closed_record, ClosedTabRecord, CloseActivationPolicy,
  activate_fallback, do_not_activate_fallback, mark_active, emit, focus, first_alive,
  activate_fallback_tab, leave_closed_active, activate_after_close, close_tab, max_closed_tabs,
  remember_closed, no_tabs, resume_if_suspended,
}
use openbrowser.Session.Invariant.{
  Inv, notify_observers-Inv, lifecycle_of-mark_active, mark_active-Distinct, mark_rest,
}

-- The tab that the loop stops at, or the fallback, stands in the list.
pub get_elem?-find :
    (ts : List Tab) (n : ℕ) (t : Tab)
    → Distinct ts
    → get_elem? ts n ≡ some t
    → find_tab t.id ts ≡ some t
unfolding Keyed.find
get_elem?-find [] n t d h = ground arith
get_elem?-find (u ∷ ts) zero t d h = ground arith
get_elem?-find (u ∷ ts) (suc n) t d h = ground (arith, get_elem?-find ts n t d.1)

get_elem?-lt : (ts : List Tab) (n : ℕ) (t : Tab) → get_elem? ts n ≡ some t → n < length ts
get_elem?-lt [] n t h = ground arith
get_elem?-lt (u ∷ ts) zero t h = omega arith
get_elem?-lt (u ∷ ts) (suc n) t h = omega (arith, get_elem?-lt ts n t h)

first_alive-found :
    (ts : List Tab) (start offset rounds : ℕ) (t : Tab)
    → Distinct ts
    → first_alive ts start offset rounds ≡ some t
    → (find_tab t.id ts ≡ some t) × (is_discarded t.lifecycle ≡ false)
unfolding first_alive
first_alive-found ts start offset zero t d h = ground arith
first_alive-found ts start offset (suc rounds) t d h = ground (
  arith,
  get_elem?-find ts ((start + length ts - offset) % length ts) t d,
  first_alive-found ts start (offset + 1) rounds t d,
)

-- No tab is active and none is named.
abbrev IsUnfocused : BrowserSession → Type 0
IsUnfocused s = s.active_tab_id ≡ none

focus_alive-Inv :
    {s : BrowserSession} (v : Inv s) (t : Tab)
    → IsUnfocused s
    → find_tab t.id s.tabs ≡ some t
    → is_discarded t.lifecycle ≡ false
    → Inv (focus t.id (mark_active t.id (resume_if_suspended t s)))
focus_alive-Inv {s} v t free found alive =
    let r = resume_if_suspended t s in
    record {
      distinct = mark_active-Distinct t.id r (ground (arith, v.distinct));
      agrees = λ i.
          ground
            (arith, v.agrees i, v.agrees t.id, lifecycle_of-mark_active t.id i r, mark_rest t.id r);
      obedient = ground (arith, v.agrees t.id, v.obedient, mark_rest t.id r);
      closed_bounded = ground (arith, v.closed_bounded, mark_rest t.id r);
    }

focus_discarded-Inv :
    {s : BrowserSession} (v : Inv s) (t : Tab)
    → IsUnfocused s
    → find_tab t.id s.tabs ≡ some t
    → is_discarded t.lifecycle ≡ true
    → Inv (focus t.id (mark_active t.id (emit (create_tab t) s)))
focus_discarded-Inv {s} v t free found gone =
    let r = emit (create_tab t) s in
    record {
      distinct = mark_active-Distinct t.id r v.distinct;
      agrees = λ i.
          ground
            (arith, v.agrees i, v.agrees t.id, lifecycle_of-mark_active t.id i r, mark_rest t.id r);
      obedient = ground (arith, v.agrees t.id, v.obedient, mark_rest t.id r);
      closed_bounded = ground (arith, v.closed_bounded, mark_rest t.id r);
    }

-- The first round looks at the start index.
first_alive-none :
    (ts : List Tab) (start : ℕ) (t : Tab)
    → first_alive ts start 0 (length ts) ≡ none
    → start < length ts
    → get_elem? ts start ≡ some t
    → is_discarded t.lifecycle ≡ true
unfolding first_alive
first_alive-none [] start t h lt e = absurd (omega arith)
first_alive-none (u ∷ ts) start t h lt e =
    let n : ℕ = length (u ∷ ts) in
    let here : get_elem? (u ∷ ts) ((start + n - 0) % n) ≡ some t = rw (wrapped start n lt) e in
    ground (arith, here)
  where
    wrapped : (i n : ℕ) → i < n → (i + n - 0) % n ≡ i
    wrapped i n lt = grind arith

activate_after_close-Inv :
    {s : BrowserSession} (n : ℕ) → Inv s → IsUnfocused s → Inv (activate_after_close s n)
unfolding activate_after_close activate_fallback_tab
activate_after_close-Inv {s} n v free =
    let start = min n (length s.tabs - 1) in
    elim (Bool-cases (no_tabs s.tabs)) [
      | inl e ↦ rw e v
      | inr e ↦ elim (Option-cases (first_alive s.tabs start 0 (length s.tabs))) [
        | inl h ↦ elim (Option-cases (get_elem? s.tabs start)) [
          | inl g ↦ rw (e, h, g, activate_fallback_tab) v
          | inr (t, g) ↦
              rw (e, h, g, activate_fallback_tab)
                (focus_discarded-Inv v t free (get_elem?-find s.tabs start t v.distinct g)
                  (first_alive-none s.tabs start t h (get_elem?-lt s.tabs start t g) g))
        ]
        | inr (t, h) ↦
            let (found, alive) = first_alive-found s.tabs start 0 (length s.tabs) t v.distinct h in
            rw (e, h) (focus_alive-Inv v t free found alive)
      ]
    ]

length-drop_oldest : (rs : List ClosedTabRecord) → length (drop_oldest rs) ≡ length rs - 1
length-drop_oldest [] = omega arith
length-drop_oldest (r ∷ rs) = omega arith

remember_closed_bounded :
    (t : Tab) (closed : List ClosedTabRecord)
    → length closed ≤ max_closed_tabs
    → length (remember_closed t closed) ≤ max_closed_tabs
unfolding remember_closed
remember_closed_bounded t closed h =
    let grown = closed ++ closed_record t ∷ [] in
    ground (arith, length-append closed (closed_record t ∷ []), length-drop_oldest grown)

-- The session without the tab `id`, and with `focused` for its active tab.
abbrev pub without : BrowserSession → String → Tab → Option String → BrowserSession
without s id t focused = emit (EngineCall.close_tab id) (record s {
  tabs = erase id s.tabs;
  closed_tabs = remember_closed t s.closed_tabs;
  active_tab_id = focused;
})

without-Inv :
    {s : BrowserSession} (v : Inv s) (id : String) (t : Tab) (o : Option String)
    → ((holds s.active_tab_id id ≡ true) × (o ≡ none))
      ⊎ ((holds s.active_tab_id id ≡ false) × (o ≡ s.active_tab_id))
    → Inv (without s id t o)
without-Inv {s} v id t o split = record {
  distinct = Keyed.erase-Distinct tab_id id s.tabs v.distinct;
  agrees =
      λ i. ground (arith, v.agrees i, v.agrees id, Keyed.find-erase tab_id id i s.tabs v.distinct);
  obedient = ground (arith, v.obedient);
  closed_bounded = remember_closed_bounded t s.closed_tabs v.closed_bounded;
}

left-Inv :
    {s : BrowserSession} (policy : CloseActivationPolicy) (n : ℕ)
    → Inv s
    → IsUnfocused s
    → Inv (leave_closed_active policy n s)
unfolding leave_closed_active
left-Inv activate_fallback n v free = activate_after_close-Inv n v free
left-Inv do_not_activate_fallback n v free = v

-- Closing, under either policy.
pub close_tab-Inv :
    (s : BrowserSession) (id : String) (policy : CloseActivationPolicy)
    → Inv s
    → Inv (close_tab s id policy).0
unfolding close_tab
close_tab-Inv s id policy v = elim (Option-cases (find_tab id s.tabs)) [
  | inl e ↦ rw (e, close_tab) v
  | inr (t, e) ↦ elim (Bool-cases (holds s.active_tab_id id)) [
    | inl h ↦
        rw (e, close_tab, h)
          (notify_observers-Inv
            (left-Inv policy (index_of id s.tabs) (without-Inv v id t none (inl (h, refl))) refl))
    | inr h ↦
        rw (e, close_tab, h)
          (notify_observers-Inv (without-Inv v id t s.active_tab_id (inr (h, refl))))
  ]
]
