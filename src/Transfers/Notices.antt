-- ===== src/Transfers/Notices.antt =====
-- What the observers of the transfers are told, and that a finished transfer never changes.
use openbrowser.Prelude.Keyed
use openbrowser.Prelude.{
  ℕ, String, ◌≡◌, refl, inl, inr, Bool, true, Option, none, some, List, [], ◌∷◌, arith, ◌==◌,
  string_eq, if◌then◌else◌, Option-cases, Bool-cases,
}
use openbrowser.Prelude.Integers.{ℤ}
use openbrowser.Transfers.{
  TransferState, TransferItem, TransferControl, Notice, started, updated, finished, Effect,
  published, called, TransferBroker, transfer_id, find_transfer, empty_broker, is_terminal_state,
  is_live, is_in_progress, is_paused, add_observer, remove_observer, set_file_broker,
  register_transfer, with_metadata, update_metadata, with_progress, update_progress, set_control,
  clear_control, as_completed, as_failed, as_cancelled, complete_transfer, fail_transfer,
  cancel_transfer, as_paused, as_resumed, pause_transfer, resume_transfer, with_transfer,
  call_if_set, publish, handler,
}

-- The methods that change the broker.
pub data Change : Type 0 where
  observes unobserves brokers : Option ℕ → Change
  registers : ℤ → TransferItem → Change
  describes : String → String → String → String → String → Change
  progresses : String → ℤ → ℤ → ℤ → Change
  controls : TransferControl → Change
  uncontrols : String → Change
  completes cancels : ℤ → String → Change
  fails : ℤ → String → String → Change
  pauses resumes : String → Change

unfoldable pub apply : Change → TransferBroker → TransferBroker
apply (observes o) b = add_observer b o
apply (unobserves o) b = remove_observer b o
apply (brokers f) b = set_file_broker b f
apply (registers now i) b = (register_transfer b now i).0
apply (describes id url filename path mime) b = (update_metadata b id url filename path mime).0
apply (progresses id received total speed) b = (update_progress b id received total speed).0
apply (controls c) b = set_control b c
apply (uncontrols id) b = clear_control b id
apply (completes now id) b = (complete_transfer b now id).0
apply (cancels now id) b = (cancel_transfer b now id).0
apply (fails now id message) b = (fail_transfer b now id message).0
apply (pauses id) b = (pause_transfer b id).0
apply (resumes id) b = (resume_transfer b id).0

unfoldable pub run : TransferBroker → List Change → TransferBroker
run b [] = b
run b (c ∷ cs) = run (apply c b) cs

-- How far the notices about one transfer have come; `misled` is a notice out of turn.
pub data Phase : Type 0 where
  unseen following over misled : Phase

abbrev pub notice_item : Notice → TransferItem
notice_item (started i) = i
notice_item (updated i) = i
notice_item (finished i) = i

abbrev pub after_notice : Notice → Phase → Phase
after_notice (started i) unseen = following
after_notice (updated i) following = following
after_notice (finished i) following = over
after_notice _ _ = misled

abbrev pub phase : String → List Effect → Phase
phase id [] = unseen
phase id (published n os ∷ es) =
    if (notice_item n).id == id then after_notice n (phase id es) else phase id es
phase id (called h ∷ es) = phase id es

-- The item in the last notice about a transfer.
abbrev pub last_told : String → List Effect → Option TransferItem
last_told id [] = none
last_told id (published n os ∷ es) =
    if (notice_item n).id == id then some (notice_item n) else last_told id es
last_told id (called h ∷ es) = last_told id es

abbrev pub phase_of : Option TransferItem → Phase
phase_of none = unseen
phase_of (some i) = if is_terminal_state i.state then over else following

-- The observers have followed the transfer in turn, and were told its present state.
pub record IsTold (b : TransferBroker) (id : String) : Type 0 where
  pub in_turn : phase id b.effects ≡ phase_of (find_transfer id b.transfers)
  pub up_to_date : last_told id b.effects ≡ find_transfer id b.transfers

with_transfer-IsTold :
    (b : TransferBroker) (j id : String) (allowed : TransferState → Bool)
    (go_on : TransferItem → TransferBroker)
    → IsTold b j
    → ((i : TransferItem)
        → find_transfer id b.transfers ≡ some i
        → allowed i.state ≡ true
        → IsTold (go_on i) j)
    → IsTold (with_transfer b id allowed go_on).0 j
with_transfer-IsTold b j id allowed go_on t step =
    elim (Option-cases (find_transfer id b.transfers)) [
      | inl e ↦ rw (e, with_transfer) t
      | inr (i, e) ↦ elim (Bool-cases (allowed i.state)) [
        | inl h ↦ rw (e, with_transfer, h) (step i e h)
        | inr h ↦ rw (e, with_transfer, h) t
      ]
    ]

-- A write with a notice that is in turn, after the call of a handler or none.
module _ (b : TransferBroker) (j id : String) (t : (k : String) → IsTold b k) (i : TransferItem)
    (found : find_transfer id b.transfers ≡ some i) (f : TransferItem → TransferItem)
    (keeps : (k : TransferItem) → (f k).id ≡ k.id) (n : Notice) (about : notice_item n ≡ f i)
    (turn : after_notice n (phase_of (some i)) ≡ phase_of (some (f i))) where
  published-IsTold :
      (c : TransferBroker)
      → c.transfers ≡ Keyed.modify transfer_id id f b.transfers
      → c.effects ≡ b.effects
      → IsTold (publish n c) j
  published-IsTold c e h = ground (
    arith,
    t j,
    t id,
    keeps i,
    Keyed.find-id transfer_id id b.transfers i found,
    Keyed.find-modify transfer_id id f keeps j b.transfers,
  )

  called-IsTold :
      (o : Option ℕ) (c : TransferBroker)
      → c.transfers ≡ Keyed.modify transfer_id id f b.transfers
      → c.effects ≡ b.effects
      → IsTold (publish n (call_if_set o c)) j
  called-IsTold none c e h = published-IsTold c e h
  called-IsTold (some k) c e h = ground (
    arith,
    t j,
    t id,
    keeps i,
    Keyed.find-id transfer_id id b.transfers i found,
    Keyed.find-modify transfer_id id f keeps j b.transfers,
  )

apply-IsTold :
    (c : Change) (b : TransferBroker) (j : String)
    → ((k : String) → IsTold b k)
    → IsTold (apply c b) j
unfolding apply add_observer remove_observer set_file_broker register_transfer update_metadata
    update_progress set_control clear_control complete_transfer fail_transfer cancel_transfer
    pause_transfer resume_transfer
apply-IsTold (observes none) b j t = t j
apply-IsTold (observes (some o)) b j t = ground (arith, t j)
apply-IsTold (unobserves none) b j t = t j
apply-IsTold (unobserves (some o)) b j t = ground (arith, t j)
apply-IsTold (brokers f) b j t = ground (arith, t j)
apply-IsTold (registers now i) b j t = unfold Keyed.find in ground (arith, t j, t i.id)
apply-IsTold (describes id url filename path mime) b j t =
    with_transfer-IsTold b j id is_live _ (t j) λ i e h.
      published-IsTold b j id t i e (with_metadata url filename path mime) (λ _. refl) _ refl
        (ground arith) _ refl refl
apply-IsTold (progresses id received total speed) b j t =
    with_transfer-IsTold b j id is_live _ (t j) λ i e h.
      published-IsTold b j id t i e (with_progress received total speed) (λ _. refl) _ refl
        (ground arith) _ refl refl
apply-IsTold (controls c) b j t = ground (arith, t j)
apply-IsTold (uncontrols id) b j t = ground (arith, t j)
apply-IsTold (completes now id) b j t = with_transfer-IsTold b j id is_live _ (t j) λ i e h.
    published-IsTold b j id t i e (as_completed now) (λ _. refl) _ refl (ground arith) _ refl refl
apply-IsTold (cancels now id) b j t = with_transfer-IsTold b j id is_live _ (t j) λ i e h.
    called-IsTold b j id t i e (as_cancelled now) (λ _. refl) _ refl (ground arith)
      (handler (λ c. c.cancel) id b.controls) _ refl refl
apply-IsTold (fails now id message) b j t = with_transfer-IsTold b j id is_live _ (t j) λ i e h.
    published-IsTold b j id t i e (as_failed now message) (λ _. refl) _ refl (ground arith) _ refl
      refl
apply-IsTold (pauses id) b j t = with_transfer-IsTold b j id is_in_progress _ (t j) λ i e h.
    called-IsTold b j id t i e as_paused (λ _. refl) _ refl (ground arith)
      (handler (λ c. c.pause) id b.controls) _ refl refl
apply-IsTold (resumes id) b j t = with_transfer-IsTold b j id is_paused _ (t j) λ i e h.
    called-IsTold b j id t i e as_resumed (λ _. refl) _ refl (ground arith)
      (handler (λ c. c.resume) id b.controls) _ refl refl

run_from-IsTold :
    (cs : List Change) (b : TransferBroker)
    → ((k : String) → IsTold b k)
    → (j : String) → IsTold (run b cs) j
unfolding run
run_from-IsTold [] b t j = t j
run_from-IsTold (c ∷ cs) b t j = run_from-IsTold cs (apply c b) (λ k. apply-IsTold c b k t) j

-- After any methods, in any order, the notices about each transfer came in turn (started once, then
-- updates, then finished at most once and nothing after it), they tell its end exactly when its state
-- is a terminal one, and the last of them holds the item as it is stored.
pub run-IsTold : (cs : List Change) (id : String) → IsTold (run empty_broker cs) id
run-IsTold cs id = run_from-IsTold cs empty_broker (λ k. unfold Keyed.find in ground arith) id
