-- ===== src/Transfers/Final.antt =====
-- A transfer that is completed, failed or cancelled stays as it is.
use openbrowser.Prelude.Keyed
use openbrowser.Prelude.{
  ℕ, String, ◌≡◌, refl, inl, inr, Bool, true, false, Option, none, some, List, [], ◌∷◌, arith,
  string_eq, Option-cases, Bool-cases,
}
use openbrowser.Transfers.{
  TransferState, TransferItem, TransferBroker, transfer_id, find_transfer, is_terminal_state,
  is_live, is_in_progress, is_paused, add_observer, remove_observer, set_file_broker,
  register_transfer, with_metadata, update_metadata, with_progress, update_progress, set_control,
  clear_control, as_completed, as_failed, as_cancelled, complete_transfer, fail_transfer,
  cancel_transfer, as_paused, as_resumed, pause_transfer, resume_transfer, with_transfer,
  call_if_set, handler,
}
use openbrowser.Transfers.Notices.{
  Change, observes, unobserves, brokers, registers, describes, progresses, controls, uncontrols,
  completes, cancels, fails, pauses, resumes, apply, run,
}

-- A stored item in a terminal state.
abbrev pub IsFinal : TransferBroker → TransferItem → Type 0
IsFinal b k = (find_transfer k.id b.transfers ≡ some k) × (is_terminal_state k.state ≡ true)

-- A method that goes on only in a state that is not terminal, and then writes one item.
with_transfer-keeps :
    (b : TransferBroker) (k : TransferItem) (id : String) (allowed : TransferState → Bool)
    (f : TransferItem → TransferItem) (go_on : TransferItem → TransferBroker)
    → IsFinal b k
    → ((st : TransferState) → allowed st ≡ true → is_terminal_state st ≡ false)
    → ((i : TransferItem) → (f i).id ≡ i.id)
    → ((i : TransferItem) → (go_on i).transfers ≡ Keyed.modify transfer_id id f b.transfers)
    → find_transfer k.id (with_transfer b id allowed go_on).0.transfers ≡ some k
with_transfer-keeps b k id allowed f go_on t live keeps writes =
    elim (Option-cases (find_transfer id b.transfers)) [
      | inl e ↦ rw (e, with_transfer) t.0
      | inr (i, e) ↦ elim (Bool-cases (allowed i.state)) [
        | inl h ↦
            rw (e, with_transfer, h)
              (ground (
                arith,
                writes i,
                live i.state h,
                Keyed.find-modify transfer_id id f keeps k.id b.transfers,
              ))
        | inr h ↦ rw (e, with_transfer, h) t.0
      ]
    ]

is_live-live : (st : TransferState) → is_live st ≡ true → is_terminal_state st ≡ false
is_live-live st h = ground arith

called-transfers : (o : Option ℕ) (b : TransferBroker) → (call_if_set o b).transfers ≡ b.transfers
called-transfers none b = refl
called-transfers (some h) b = refl

apply-keeps :
    (c : Change) (b : TransferBroker) (k : TransferItem)
    → IsFinal b k
    → find_transfer k.id (apply c b).transfers ≡ some k
unfolding apply add_observer remove_observer set_file_broker register_transfer update_metadata
    update_progress set_control clear_control complete_transfer fail_transfer cancel_transfer
    pause_transfer resume_transfer
apply-keeps (observes none) b k t = t.0
apply-keeps (observes (some o)) b k t = ground arith
apply-keeps (unobserves none) b k t = t.0
apply-keeps (unobserves (some o)) b k t = t.0
apply-keeps (brokers f) b k t = t.0
apply-keeps (registers now i) b k t = unfold Keyed.find in ground arith
apply-keeps (describes id url filename path mime) b k t =
    with_transfer-keeps b k id is_live (with_metadata url filename path mime) _ t is_live-live
      (λ _. refl) (λ _. refl)
apply-keeps (progresses id received total speed) b k t =
    with_transfer-keeps b k id is_live (with_progress received total speed) _ t is_live-live
      (λ _. refl) (λ _. refl)
apply-keeps (controls c) b k t = ground arith
apply-keeps (uncontrols id) b k t = t.0
apply-keeps (completes now id) b k t =
    with_transfer-keeps b k id is_live (as_completed now) _ t is_live-live (λ _. refl) (λ _. refl)
apply-keeps (cancels now id) b k t =
    with_transfer-keeps b k id is_live (as_cancelled now) _ t is_live-live (λ _. refl)
      (λ _. called-transfers (handler (λ c. c.cancel) id b.controls) _)
apply-keeps (fails now id message) b k t =
    with_transfer-keeps b k id is_live (as_failed now message) _ t is_live-live (λ _. refl)
      (λ _. refl)
apply-keeps (pauses id) b k t =
    with_transfer-keeps b k id is_in_progress as_paused _ t (λ st h. ground arith) (λ _. refl)
      (λ _. called-transfers (handler (λ c. c.pause) id b.controls) _)
apply-keeps (resumes id) b k t =
    with_transfer-keeps b k id is_paused as_resumed _ t (λ st h. ground arith) (λ _. refl)
      (λ _. called-transfers (handler (λ c. c.resume) id b.controls) _)

-- No sequence of methods changes a transfer that has ended, not even one that registers its id again.
pub run_keeps_final :
    (cs : List Change) (b : TransferBroker) (k : TransferItem)
    → IsFinal b k
    → find_transfer k.id (run b cs).transfers ≡ some k
unfolding run
run_keeps_final [] b k t = t.0
run_keeps_final (c ∷ cs) b k t = run_keeps_final cs (apply c b) k (apply-keeps c b k t, t.1)
