-- ===== src/Session/Reopen.antt =====
-- Closing a tab and reopening it.
use text.Mathlib.TextLemmas.{append-eq-nil_iff}
use text.Mathlib.TextEquality.{eq_iff}
use openbrowser.Prelude.Keyed
use openbrowser.Prelude.{
  ℕ, String, ◌≡◌, refl, inl, inr, true, false, none, some, List, [], ◌∷◌, ◌++◌, arith, string_eq,
  is_empty, length, ltb, to_string, ◌<>◌, if◌then◌else◌, holds, Bool-cases,
}
use openbrowser.Tabs.{Tab, active, is_blank_or_new_tab_url, is_legacy_synthetic_new_tab}
use openbrowser.Session.TabList.{tab_id, find_tab}
use openbrowser.Session.{
  BrowserSession, ClosedTabRecord, ClosedTabMode, CloseActivationPolicy, persistent_only,
  ephemeral_only, closed_record, drop_oldest, increment64, open_tab, open_active, append_tab,
  request_first_load, demote_active_tab, normalize_new_tab, notify_observers, close_tab,
  remember_closed, leave_closed_active, activate_fallback, do_not_activate_fallback,
  activate_after_close, activate_fallback_tab, mark_active, max_closed_tabs,
}
use openbrowser.Session.Invariant.{lifecycle_of-demote, demote_rest}
use openbrowser.Session.Closed.{
  is_skipped, take_last_closed, restored_id, restored_tab, reopen_record, reopen_last_closed_tab,
}

-- A record that the mode does not skip is found, if it is the last one.
take_last_closed-append :
    (mode : ClosedTabMode) (rs : List ClosedTabRecord) (r : ClosedTabRecord)
    → is_skipped mode r ≡ false
    → take_last_closed mode (rs ++ r ∷ []) ≡ some (r, rs)
unfolding take_last_closed
take_last_closed-append mode [] r h = rw h
take_last_closed-append mode (x ∷ rs) r h = rw (take_last_closed-append mode rs r h)

drop_oldest-append :
    (rs : List ClosedTabRecord) (r : ClosedTabRecord)
    → ltb max_closed_tabs (length (rs ++ r ∷ [])) ≡ true
    → drop_oldest (rs ++ r ∷ []) ≡ drop_oldest rs ++ r ∷ []
drop_oldest-append [] r h = ground arith
drop_oldest-append (x ∷ rs) r h = refl

abbrev kept : List ClosedTabRecord → ClosedTabRecord → List ClosedTabRecord
kept rs r = if ltb max_closed_tabs (length (rs ++ r ∷ [])) then drop_oldest rs else rs

remember_closed-append :
    (t : Tab) (rs : List ClosedTabRecord)
    → is_blank_or_new_tab_url t.url ≡ false
    → remember_closed t rs ≡ kept rs (closed_record t) ++ closed_record t ∷ []
unfolding remember_closed
remember_closed-append t rs real = ground (arith, drop_oldest-append rs (closed_record t))

closed-mark_active :
    (id : String) (s : BrowserSession) → (mark_active id s).closed_tabs ≡ s.closed_tabs
unfolding mark_active
closed-mark_active id s = refl

closed-activate_after_close :
    (s : BrowserSession) (n : ℕ) → (activate_after_close s n).closed_tabs ≡ s.closed_tabs
unfolding activate_after_close activate_fallback_tab mark_active
closed-activate_after_close s n = ground arith

closed-leave :
    (policy : CloseActivationPolicy) (n : ℕ) (s : BrowserSession)
    → (leave_closed_active policy n s).closed_tabs ≡ s.closed_tabs
unfolding leave_closed_active
closed-leave activate_fallback n s = closed-activate_after_close s n
closed-leave do_not_activate_fallback n s = refl

closed-close_tab :
    (s : BrowserSession) (id : String) (policy : CloseActivationPolicy) (t : Tab)
    → find_tab id s.tabs ≡ some t
    → (close_tab s id policy).0.closed_tabs ≡ remember_closed t s.closed_tabs
unfolding close_tab notify_observers
closed-close_tab s id policy t found = elim (Bool-cases (holds s.active_tab_id id)) [
  | inl h ↦ rw (found, close_tab, h) (closed-leave policy _ _)
  | inr h ↦ rw (found, close_tab, h)
]

-- A page that was closed, and not a blank one, is the next that is reopened in the mode of its
-- tab; of the earlier records at most the oldest was dropped for it, if they were 25.
pub take_last_closed-close_tab :
    (s : BrowserSession) (id : String) (policy : CloseActivationPolicy) (t : Tab)
    → find_tab id s.tabs ≡ some t
    → is_blank_or_new_tab_url t.url ≡ false
    → take_last_closed
        (if t.is_ephemeral then ephemeral_only else persistent_only)
        (close_tab s id policy).0.closed_tabs
      ≡ some (closed_record t, kept s.closed_tabs (closed_record t))
take_last_closed-close_tab s id policy t found real =
    rw (closed-close_tab s id policy t found, remember_closed-append t s.closed_tabs real)
      (take_last_closed-append (if t.is_ephemeral then ephemeral_only else persistent_only) _ _
        (unfold is_skipped in ground arith))

restored_id-ne : (n : ℕ) → is_empty (restored_id n) ≡ false
unfolding restored_id
restored_id-ne n = ground (
  arith,
  λ (e : "restored-" <> to_string n ≡ ""). (append-eq-nil_iff.0 e).0,
  eq_iff "restored-" "",
)

module _ (s : BrowserSession) (mode : ClosedTabMode) (r : ClosedTabRecord)
    (others : List ClosedTabRecord)
    (next : take_last_closed mode s.closed_tabs ≡ some (r, others)) where
  abbrev reopened_id : String
  reopened_id = restored_id (increment64 s.restored_counter)

  -- Where the mode finds a record to reopen: if no tab has the new id, and the page has an
  -- address that is not the old placeholder, the page opens in a new tab that becomes the active
  -- one, with the title, workspace and privacy of the record; the title is the address if the
  -- record has none.
  pub reopen_opens :
      find_tab reopened_id s.tabs ≡ none
      → is_empty r.url ≡ false
      → is_legacy_synthetic_new_tab r.url (if is_empty r.title then r.url else r.title) ≡ false
      → let (s', id) = reopen_last_closed_tab s mode in
        (id ≡ some reopened_id)
        × (s'.active_tab_id ≡ some reopened_id)
        × (s'.closed_tabs ≡ others)
        × ((t : Tab) × (find_tab reopened_id s'.tabs ≡ some t)
            × (t.url ≡ r.url)
            × (t.title ≡ (if is_empty r.title then r.url else r.title))
            × (t.workspace_id ≡ r.workspace_id)
            × (t.is_ephemeral ≡ r.is_ephemeral)
            × (t.lifecycle ≡ active))
  unfolding reopen_last_closed_tab reopen_record open_tab normalize_new_tab restored_tab
      notify_observers open_active append_tab request_first_load
  reopen_opens fresh real modern =
      let n = increment64 s.restored_counter in
      let start = record s { closed_tabs = others; restored_counter = n } in
      let d = demote_active_tab start in
      let t = request_first_load (record (restored_tab reopened_id r) {
        last_activated_sequence = increment64 d.last_activated_counter;
      }) in
      let new : find_tab reopened_id d.tabs ≡ none =
        ground (arith, lifecycle_of-demote start reopened_id) in
      let facts = demote_rest start in
      (
        ground (arith, restored_id-ne n),
        ground (arith, restored_id-ne n),
        ground (arith, restored_id-ne n, facts),
        (
          t,
          ground (arith, restored_id-ne n, new, Keyed.find-append tab_id reopened_id d.tabs t),
          refl,
          refl,
          refl,
          refl,
          refl,
        ),
      )

  -- Where the mode finds a record to reopen: if a tab has the new id already, nothing opens and
  -- the record is gone.
  pub reopen_collides :
      (t : Tab)
      → find_tab reopened_id s.tabs ≡ some t
      → let (s', id) = reopen_last_closed_tab s mode in
        (id ≡ none) × (s'.tabs ≡ s.tabs) × (s'.closed_tabs ≡ others)
  unfolding reopen_last_closed_tab reopen_record open_tab normalize_new_tab restored_tab
  reopen_collides t taken = ground arith
