-- ===== src/CommitmentService/Data.antt =====
-- The data of the commitment service: the messages and receipts it reads (raidex/messages.py,
-- raidex/trader_mock/trader.py), refunds (raidex/commitment_service/refund.py), the swap
-- (raidex/commitment_service/swap.py) and the state of its machine
-- (raidex/commitment_service/swap_state_machine.py). Addresses, signatures, hashes and secrets
-- are compared and passed on only, and are numbers here.
use raidex.Prelude.{ℕ, Bool, Option, List, ◌==◌, ltb}
use raidex.Dict.{Dict}

-- `messages.Commitment`; `sender` is the address recovered from the signature.
pub record Commitment : Type 0 where
  pub offer_id : ℕ
  pub offer_hash : ℕ
  pub timeout : ℕ
  pub amount : ℕ
  pub signature : ℕ
  pub sender : ℕ

-- `messages.SwapExecution`
pub record SwapExecution : Type 0 where
  pub offer_id : ℕ
  pub timestamp : ℕ
  pub sender : ℕ

-- `messages.CommitmentProof`
pub record CommitmentProof : Type 0 where
  pub commitment_sig : ℕ
  pub secret : ℕ
  pub secret_hash : ℕ
  pub offer_id : ℕ

-- The messages that the service sends.
pub data Message : Type 0 where
  offer_taken : (offer_id : ℕ) → Message
  swap_completed : (offer_id timestamp : ℕ) → Message
  commitment_proof : CommitmentProof → Message
  cancellation_proof : (offer_id : ℕ) → Option CommitmentProof → Message

-- `TransferReceipt` of the trader
pub record TransferReceipt : Type 0 where
  pub initiator : ℕ
  pub amount : ℕ
  pub identifier : ℕ
  pub timestamp : ℕ

-- `Refund`; the swap may pass a receipt that it does not have.
pub record Refund : Type 0 where
  pub receipt : Option TransferReceipt
  pub priority : ℕ
  pub claim_fee : Bool

-- `Refund.__eq__` and `Refund.__lt__`
unfoldable pub refund_eq : Refund → Refund → Bool
refund_eq r s = r.priority == s.priority

unfoldable pub refund_lt : Refund → Refund → Bool
refund_lt r s = ltb s.priority r.priority

-- `SWAP_BASE_STATES`
pub data State : Type 0 where
  initializing wait_for_maker wait_for_taker wait_for_execution : State
  wait_for_maker_execution wait_for_taker_execution : State
  traded uncommitted untraded failed processed : State

-- The triggers of the machine.
pub data Trigger : Type 0 where
  timeout maker_commitment_msg taker_commitment_msg : Trigger
  transfer_receipt swap_execution_msg finalize : Trigger

-- A call of a trigger with its keyword arguments: `msg` or `receipt`, or none.
pub data Event : Type 0 where
  on_timeout on_finalize : Event
  on_maker_commitment on_taker_commitment : (msg : Commitment) → Event
  on_transfer : (receipt : TransferReceipt) → Event
  on_execution : (msg : SwapExecution) → Event

-- The fields of `SwapCommitment`, with the `state` and the `taker_commitment_pool` of its machine.
pub record Swap : Type 0 where
  pub offer_id : ℕ
  pub maker_commitment_msg : Option Commitment
  pub taker_commitment_msg : Option Commitment
  pub maker_commitment_proof : Option CommitmentProof
  pub maker_swap_execution_msg : Option SwapExecution
  pub taker_swap_execution_msg : Option SwapExecution
  pub maker_transfer_receipt : Option TransferReceipt
  pub taker_transfer_receipt : Option TransferReceipt
  pub terminated_state : Option State
  pub secret : ℕ
  pub secret_hash : ℕ
  pub state : State
  pub taker_commitment_pool : Dict Commitment

-- What a swap's methods act on: the swap itself, the dictionary of swaps that the service keeps
-- (offer id to the number of the swap object), the two queues, the timeouts that were spawned
-- (the number of the swap object and the date) and the time of the call.
pub record World : Type 0 where
  pub swap : Swap
  pub ref : ℕ
  pub swaps : Dict ℕ
  pub refund_queue : List Refund
  pub message_queue : List (Message × Option ℕ)
  pub timers : List (ℕ × ℕ)
  pub now : ℕ
