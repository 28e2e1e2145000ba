-- ===== src/Session/Fallback.antt =====
-- What is active once the active tab is closed.
use openbrowser.Prelude.{
  ℕ, zero, suc, ◌+◌, ◌-◌, ◌%◌, ◌<◌, min, String, ◌≡◌, refl, ◌⊎◌, inl, inr, Bool, true, false, ◌&&◌,
  Option, none, some, List, [], ◌∷◌, arith, holds, string_eq, length, get_elem?, Option-cases,
  Bool-cases,
}
use openbrowser.Prelude.Keyed
use openbrowser.Tabs.{Tab, is_discarded, is_suspended}
use openbrowser.Session.TabList.{tab_id, find_tab, erase, index_of, Distinct}
use openbrowser.Session.Engine.{EngineCall}
use openbrowser.Session.{
  BrowserSession, activate_fallback, notify_observers, close_tab, leave_closed_active,
  activate_after_close, activate_fallback_tab, first_alive, no_tabs, activated, mark_active,
  increment64, resume_if_suspended, emit,
}
use openbrowser.Session.Invariant.Close.{without, get_elem?-find}

get_elem?-some : (ts : List Tab) (n : ℕ) → n < length ts → (t : Tab) × (get_elem? ts n ≡ some t)
get_elem?-some [] n lt = absurd (omega arith)
get_elem?-some (t ∷ ts) zero lt = (t, refl)
get_elem?-some (t ∷ ts) (suc n) lt = get_elem?-some ts n (omega arith)

length-pos : (ts : List Tab) → no_tabs ts ≡ false → 0 < length ts
length-pos [] h = ground arith
length-pos (t ∷ ts) h = omega arith

-- The tab that stands `k` places before the start, round the end of the list.
abbrev pub tab_back : List Tab → ℕ → ℕ → Option Tab
tab_back ts start k = get_elem? ts ((start + length ts - k) % length ts)

abbrev pub is_gone : Option Tab → Bool
is_gone none = false
is_gone (some t) = is_discarded t.lifecycle

-- Whether each of the tabs fewer than `k` places before the start is discarded.
abbrev pub gone_until : List Tab → ℕ → ℕ → Bool
gone_until ts start zero = true
gone_until ts start (suc k) = is_gone (tab_back ts start k) && gone_until ts start k

-- The tab is the first one that is not discarded, from the start backwards and round the end; or
-- each tab is discarded, all the way round, and it is the tab at the start.
abbrev pub IsNearest : List Tab → ℕ → Tab → Type 0
IsNearest ts start u =
    ((k : ℕ) × (k < length ts)
      × (tab_back ts start k ≡ some u)
      × (is_discarded u.lifecycle ≡ false)
      × (gone_until ts start k ≡ true))
    ⊎ ((get_elem? ts start ≡ some u) × (gone_until ts start (length ts) ≡ true))

tab_back-some :
    (ts : List Tab) (start k : ℕ) → 0 < length ts → (t : Tab) × (tab_back ts start k ≡ some t)
tab_back-some ts start k some_left =
    get_elem?-some ts ((start + length ts - k) % length ts) (grind arith)

first_alive-some :
    (ts : List Tab) (start offset rounds : ℕ) (u : Tab)
    → gone_until ts start offset ≡ true
    → first_alive ts start offset rounds ≡ some u
    → (k : ℕ) × (k < offset + rounds)
      × (tab_back ts start k ≡ some u)
      × (is_discarded u.lifecycle ≡ false)
      × (gone_until ts start k ≡ true)
unfolding first_alive
first_alive-some ts start offset zero u gone e = absurd (ground arith)
first_alive-some ts start offset (suc rounds) u gone e =
    elim (Option-cases (tab_back ts start offset)) [
      | inl h ↦ absurd (ground arith)
      | inr (t, h) ↦ elim (Bool-cases (is_discarded t.lifecycle)) [
        | inl g ↦
            let (k, lt, at, alive, before) =
              first_alive-some ts start (suc offset) rounds u (ground arith) (ground arith) in
            (k, omega arith, at, alive, before)
        | inr g ↦ (offset, omega arith, ground arith, ground arith, gone)
      ]
    ]

first_alive-all :
    (ts : List Tab) (start offset rounds : ℕ)
    → 0 < length ts
    → gone_until ts start offset ≡ true
    → first_alive ts start offset rounds ≡ none
    → gone_until ts start (rounds + offset) ≡ true
unfolding first_alive
first_alive-all ts start offset zero some_left gone e = ground (arith, gone)
first_alive-all ts start offset (suc rounds) some_left gone e =
    let (t, h) = tab_back-some ts start offset some_left in
    elim (Bool-cases (is_discarded t.lifecycle)) [
      | inl g ↦ ground (
        arith,
        first_alive-all ts start (suc offset) rounds some_left (ground arith) (ground arith),
      )
      | inr g ↦ absurd (ground arith)
    ]

-- The tab is named as the active one, and has become active in the list.
abbrev pub IsFocused : Tab → ℕ → BrowserSession → Type 0
IsFocused u n s = (s.active_tab_id ≡ some u.id) × (find_tab u.id s.tabs ≡ some (activated n u))

find_tab-mark_active :
    (s : BrowserSession) (u : Tab)
    → find_tab u.id s.tabs ≡ some u
    → find_tab u.id (mark_active u.id s).tabs
      ≡ some (activated (increment64 s.last_activated_counter) u)
unfolding mark_active
find_tab-mark_active s u found =
    let n = increment64 s.last_activated_counter in
    ground (arith, Keyed.find-modify tab_id u.id (activated n) (λ _. refl) u.id s.tabs)

find_tab-resumed :
    (s : BrowserSession) (u : Tab)
    → find_tab u.id s.tabs ≡ some u
    → find_tab u.id (mark_active u.id (resume_if_suspended u s)).tabs
      ≡ some (activated (increment64 s.last_activated_counter) u)
find_tab-resumed s u found = elim (Bool-cases (is_suspended u.lifecycle)) [
  | inl e ↦ rw e (find_tab-mark_active (emit (EngineCall.resume u.id) s) u found)
  | inr e ↦ rw e (find_tab-mark_active s u found)
]

activate_after_close-focuses :
    (s : BrowserSession) (n : ℕ)
    → Distinct s.tabs
    → no_tabs s.tabs ≡ false
    → (u : Tab) × IsNearest s.tabs (min n (length s.tabs - 1)) u
      × (find_tab u.id s.tabs ≡ some u)
      × IsFocused u (increment64 s.last_activated_counter) (activate_after_close s n)
unfolding activate_after_close activate_fallback_tab
activate_after_close-focuses s n d rest =
    let start = min n (length s.tabs - 1) in
    let left = length-pos s.tabs rest in
    let (t, there) = get_elem?-some s.tabs start (omega (arith, left)) in
    elim (Option-cases (first_alive s.tabs start 0 (length s.tabs))) [
      | inl h ↦
          let found = get_elem?-find s.tabs start t d there in
          (
            t,
            inr (there, ground (arith, first_alive-all s.tabs start 0 (length s.tabs) left refl h)),
            found,
            rw (rest, h, there, activate_fallback_tab) (refl, find_tab-mark_active _ t found),
          )
      | inr (u, h) ↦
          let near = first_alive-some s.tabs start 0 (length s.tabs) u refl h in
          let found = get_elem?-find s.tabs _ u d near.2 in
          (
            u,
            inl (near.0, omega (arith, near.1), near.2, near.3, near.4),
            found,
            rw (rest, h) (refl, find_tab-resumed s u found),
          )
    ]

module _ (s : BrowserSession) (id : String) (t : Tab) (found : find_tab id s.tabs ≡ some t)
    (was_active : holds s.active_tab_id id ≡ true) where
  -- When, of tabs with distinct ids, the active one is closed under the fallback policy and some
  -- are left, one of those that are left is named as the active tab and has become active: going
  -- backwards from the place of the closed tab, or from the last place if that is past the end, and
  -- round the end, the first tab that is not discarded; or, if all that are left are discarded, the
  -- tab at that place.
  pub close_tab-focuses :
      Distinct s.tabs
      → no_tabs (erase id s.tabs) ≡ false
      → let ts = erase id s.tabs in
        let start = min (index_of id s.tabs) (length ts - 1) in
        (u : Tab) × IsNearest ts start u
        × (find_tab u.id ts ≡ some u)
        × IsFocused u (increment64 s.last_activated_counter) (close_tab s id activate_fallback).0
  unfolding close_tab leave_closed_active notify_observers
  close_tab-focuses d rest =
      let (u, near, left, focused) =
        activate_after_close-focuses (without s id t none) (index_of id s.tabs)
          (Keyed.erase-Distinct tab_id id s.tabs d) rest in
      (u, near, left, rw (found, close_tab, was_active) focused)
