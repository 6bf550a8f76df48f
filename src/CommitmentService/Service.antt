-- ===== src/CommitmentService/Service.antt =====
-- `SwapFactory` (raidex/commitment_service/swap.py), the tasks that hand messages and transfers to
-- the swaps (raidex/commitment_service/tasks.py) and the state that they share
-- (raidex/commitment_service/node.py). A swap object lives on after its entry of the dictionary is
-- deleted, since the greenlet of its timeout refers to it: objects stand in a heap, and the
-- dictionary and the timers hold their places.
pub mod Sound
pub mod Accounts
use raidex.Prelude.{
  ℕ, ◌≡◌, Bool, true, false, Option, none, some, List, [], ◌∷◌, ◌++◌, length, get_elem?, set,
  if◌then◌else◌,
}
use raidex.Dict.{Dict, get, put, contains}
use raidex.Exec.{Exec, Result, ok, raised, other, pure, modify, ◌>>=◌, ◌>>◌}
use raidex.CommitmentService.Data.{
  Commitment, SwapExecution, Message, TransferReceipt, Refund, initializing, Event, on_timeout,
  on_maker_commitment, on_taker_commitment, on_transfer, on_execution, Swap, World,
}

-- `CommitmentService`: the fields that the tasks change, and the time.
pub record Service : Type 0 where
  pub heap : List Swap
  pub swaps : Dict ℕ
  pub refund_queue : List Refund
  pub message_queue : List (Message × Option ℕ)
  pub timers : List (ℕ × ℕ)
  pub now : ℕ

unfoldable pub enter_swap : Service → ℕ → Swap → World
enter_swap sv ref s = record {
  swap = s;
  ref = ref;
  swaps = sv.swaps;
  refund_queue = sv.refund_queue;
  message_queue = sv.message_queue;
  timers = sv.timers;
  now = sv.now;
}

unfoldable pub leave_swap : Service → World → Service
leave_swap sv w = record {
  heap = set sv.heap w.ref w.swap;
  swaps = w.swaps;
  refund_queue = w.refund_queue;
  message_queue = w.message_queue;
  timers = w.timers;
  now = w.now;
}

-- What an event of the outside brings to the service: the `data` that a task's `process` gets, or
-- the greenlet of a timeout that fires; or time passes. A new swap takes the secret that `random_secret` returns.
pub data Input : Type 0 where
  commitment : (msg : Commitment) (secret : ℕ) → Input
  transfer : (receipt : TransferReceipt) → Input
  cancellation : (offer_id : ℕ) → Input
  execution : (msg : SwapExecution) → Input
  timer : (ref : ℕ) → Input
  clock : (now : ℕ) → Input

module _ (keccak : ℕ → ℕ) where
  -- `SwapCommitment.__init__`
  unfoldable pub new_swap : ℕ → ℕ → Swap
  new_swap offer_id secret = record {
    offer_id = offer_id;
    maker_commitment_msg = none;
    taker_commitment_msg = none;
    maker_commitment_proof = none;
    maker_swap_execution_msg = none;
    taker_swap_execution_msg = none;
    maker_transfer_receipt = none;
    taker_transfer_receipt = none;
    terminated_state = none;
    secret = secret;
    secret_hash = keccak secret;
    state = initializing;
    taker_commitment_pool = [];
  }

  -- `SwapFactory.make_swap`, with `id_collides`
  unfoldable pub make_swap : ℕ → ℕ → Exec Service (Option ℕ)
  unfolding new_swap
  make_swap offer_id secret sv = if contains sv.swaps offer_id then (ok none, sv) else (
    ok (some (length sv.heap)),
    record sv {
      heap = sv.heap ++ new_swap offer_id secret ∷ [];
      swaps = put sv.swaps offer_id (length sv.heap);
    },
  )

module _ (fire : Event → Exec World Bool) where
  -- A method of the swap object at `ref`: its trigger. No place of the heap dangles.
  unfoldable pub call_swap : ℕ → Event → Exec Service (Unit {0})
  unfolding enter_swap leave_swap
  call_swap ref e sv = elim (get_elem? sv.heap ref) [
    | none ↦ (raised other, sv)
    | some s ↦
        let (r, w) = fire e (enter_swap sv ref s) in
        (elim r [ ok _ ↦ ok tt | raised x ↦ raised x ], leave_swap sv w)
  ]

  -- `swap = self.swaps.get(offer_id)`, and the call if there is one
  unfoldable pub call_offer : ℕ → Event → Exec Service (Unit {0})
  unfolding call_swap
  call_offer offer_id e sv = elim (get sv.swaps offer_id) [
    | none ↦ (ok tt, sv)
    | some ref ↦ call_swap ref e sv
  ]

  -- `TransferReceivedTask.process`
  unfoldable pub process_transfer : TransferReceipt → Exec Service (Unit {0})
  unfolding call_offer
  process_transfer receipt = call_offer receipt.identifier (on_transfer receipt)

  -- `CancellationRequestTask.process`, with `hand_cancellation_msg`
  unfoldable pub process_cancellation : ℕ → Exec Service (Unit {0})
  unfolding call_offer
  process_cancellation offer_id = call_offer offer_id on_timeout

  -- `SwapExecutionTask.process`
  unfoldable pub process_execution : SwapExecution → Exec Service (Unit {0})
  unfolding call_offer
  process_execution msg = call_offer msg.offer_id (on_execution msg)

  -- `SwapCommitment.trigger_timeout`, called by the greenlet
  unfoldable pub trigger_timeout : ℕ → Exec Service (Unit {0})
  unfolding call_swap
  trigger_timeout ref = call_swap ref on_timeout

module _ (fire : Event → Exec World Bool) (keccak : ℕ → ℕ) where
  -- `CommitmentTask.process`
  unfoldable pub process_commitment : Commitment → ℕ → Exec Service (Unit {0})
  unfolding call_offer make_swap
  process_commitment msg secret sv =
      if contains sv.swaps msg.offer_id
      then call_offer fire msg.offer_id (on_taker_commitment msg) sv
      else (make_swap keccak msg.offer_id secret >>= λ made. elim made [
        | none ↦ pure tt
        | some ref ↦ call_swap fire ref (on_maker_commitment msg)
      ])
          sv

  unfoldable pub process : Input → Exec Service (Unit {0})
  unfolding process_commitment process_transfer process_cancellation process_execution
      trigger_timeout
  process (commitment msg secret) = process_commitment msg secret
  process (transfer receipt) = process_transfer fire receipt
  process (cancellation offer_id) = process_cancellation fire offer_id
  process (execution msg) = process_execution fire msg
  process (timer ref) = trigger_timeout fire ref
  process (clock now) = modify (λ sv. record sv { now = now })

  -- The inputs in the order in which the greenlets take them. A greenlet in which `process` raises
  -- takes no more of them.
  unfoldable pub serve : List Input → Service → Service
  unfolding process
  serve [] sv = sv
  serve (i ∷ is) sv = serve is (process i sv).1

-- `CommitmentService.__init__`
unfoldable pub start : ℕ → Service
start now = record {
  heap = [];
  swaps = [];
  refund_queue = [];
  message_queue = [];
  timers = [];
  now = now;
}
