-- ===== src/CommitmentService/Invariant.antt =====
-- What holds of a swap between two events, whatever the events are.
use raidex.Prelude.{
  ℕ, ◌≡◌, refl, Bool, true, false, Option, none, some, arith, Option-cases, inl, inr,
}
use raidex.Dict.{get, get-put, contains-eq-is_some}
use raidex.Exec.{Exec}
use raidex.CommitmentService.Data.{
  Commitment, SwapExecution, TransferReceipt, State, initializing, wait_for_maker, wait_for_taker,
  wait_for_execution, wait_for_maker_execution, wait_for_taker_execution, traded, uncommitted,
  untraded, failed, processed, Event, on_taker_commitment, on_transfer, Swap, World,
}
use raidex.CommitmentService.Callbacks.{
  is_maker, is_taker, refund_maker, set_maker_commitment, set_maker_transfer_receipt,
  send_maker_commitment_proof, queue_commitment, accept_taker_commitment_from_receipt,
  set_taker_transfer_receipt, send_offer_taken, send_taker_commitment_proof, set_maker_execution,
  set_taker_execution, send_swap_completed, refund_maker_with_fee, refund_taker_with_fee,
  set_terminated_state, cleanup, refund_unsuccessful_transfer, spawn_timeout,
}
use raidex.CommitmentService.Table.{IsSwapMachine}
use raidex.CommitmentService.Step.{step, fire-eq-step}

-- The commitment is there, and the transfer came from its sender.
abbrev pub Paid : Option Commitment → Option TransferReceipt → Type 0
Paid (some c) (some r) = r.initiator ≡ c.sender
Paid _ _ = ⊥

-- The commitment is there, and its sender has confirmed the execution.
abbrev pub Executed : Option Commitment → Option SwapExecution → Type 0
Executed (some c) (some x) = x.sender ≡ c.sender
Executed _ _ = ⊥

abbrev pub Given {ℓ} : {A : Type ℓ} → Option A → Type 0
Given none = ⊥
Given (some a) = Unit

abbrev pub MakerPaid : Swap → Type 0
MakerPaid s = Paid s.maker_commitment_msg s.maker_transfer_receipt

abbrev pub BothPaid : Swap → Type 0
BothPaid s = MakerPaid s × Paid s.taker_commitment_msg s.taker_transfer_receipt

abbrev pub MakerExecuted : Swap → Type 0
MakerExecuted s = Executed s.maker_commitment_msg s.maker_swap_execution_msg

abbrev pub TakerExecuted : Swap → Type 0
TakerExecuted s = Executed s.taker_commitment_msg s.taker_swap_execution_msg

-- What the state of a swap says of its fields.
abbrev pub Facts : State → Swap → Type 0
Facts initializing s = Unit
Facts wait_for_maker s = Given s.maker_commitment_msg
Facts wait_for_taker s = MakerPaid s × Given s.maker_commitment_proof
Facts wait_for_execution s = BothPaid s
Facts wait_for_taker_execution s = BothPaid s × MakerExecuted s
Facts wait_for_maker_execution s = BothPaid s × TakerExecuted s
Facts traded s = BothPaid s × MakerExecuted s × TakerExecuted s
Facts failed s = BothPaid s
Facts untraded s = MakerPaid s
Facts uncommitted s = Unit
Facts processed s = Unit

-- A processed swap has ended in one of four states, and its fields are as that state says.
abbrev pub Ended : Option State → Swap → Type 0
Ended (some traded) s = Facts traded s
Ended (some failed) s = Facts failed s
Ended (some untraded) s = Facts untraded s
Ended (some uncommitted) s = Unit
Ended _ s = ⊥

abbrev pub EndedIfProcessed : State → Swap → Type 0
EndedIfProcessed processed s = Ended s.terminated_state s
EndedIfProcessed _ s = Unit

pub record IsConsistent (s : Swap) : Type 0 where
  pub facts : Facts s.state s
  pub ended : EndedIfProcessed s.state s
  pub pooled : (a : ℕ) (c : Commitment) → get s.taker_commitment_pool a ≡ some c → c.sender ≡ a

unfoldable pub keeps_all : Unit {0}
unfolding step set_maker_commitment set_maker_transfer_receipt send_maker_commitment_proof
    queue_commitment accept_taker_commitment_from_receipt set_taker_transfer_receipt
    send_offer_taken send_taker_commitment_proof set_maker_execution set_taker_execution
    send_swap_completed refund_maker refund_maker_with_fee refund_taker_with_fee
    set_terminated_state cleanup refund_unsuccessful_transfer spawn_timeout is_maker is_taker
keeps_all = tt

-- The pool changes only by a taker's commitment, which is put under its sender.
pooled-step :
    (auto : Bool) (s : State) (e : Event) (w : World) (a : ℕ) (c : Commitment)
    → IsConsistent w.swap
    → get (step auto s e w).1.swap.taker_commitment_pool a ≡ some c
    → c.sender ≡ a
unfolding keeps_all
pooled-step auto wait_for_taker (on_taker_commitment x) w a c v h =
    ground (arith, v.pooled a c, get-put w.swap.taker_commitment_pool x.sender a x)
pooled-step auto s e w a c v h = ground (arith, v.pooled a c)

-- The pool's entry for the initiator of an accepted transfer is a commitment of that initiator.
Facts-step :
    (auto : Bool) (s : State) (e : Event) (w : World)
    → w.swap.state ≡ s
    → Facts s w.swap
    → ((a : ℕ) (c : Commitment) → get w.swap.taker_commitment_pool a ≡ some c → c.sender ≡ a)
    → Facts (step auto s e w).1.swap.state (step auto s e w).1.swap
unfolding keeps_all
Facts-step false initializing e w p f v = ground arith
Facts-step true initializing e w p f v = ground arith
Facts-step auto wait_for_maker e w p f v = ground arith
Facts-step auto wait_for_taker (on_transfer r) w p f v =
    elim (Option-cases (get w.swap.taker_commitment_pool r.initiator)) [
      | inl e ↦ ground (arith, contains-eq-is_some w.swap.taker_commitment_pool r.initiator)
      | inr (c, e) ↦
          ground
            (arith, contains-eq-is_some w.swap.taker_commitment_pool r.initiator, v r.initiator c e)
    ]
Facts-step auto s e w p f v = ground arith

ended-step :
    (auto : Bool) (s : State) (e : Event) (w : World)
    → w.swap.state ≡ s
    → Facts s w.swap
    → EndedIfProcessed s w.swap
    → EndedIfProcessed (step auto s e w).1.swap.state (step auto s e w).1.swap
unfolding keeps_all
ended-step false initializing e w p f v = ground arith
ended-step true initializing e w p f v = ground arith
ended-step auto s e w p f v = ground arith

step-IsConsistent :
    (auto : Bool) (e : Event) (w : World)
    → IsConsistent w.swap
    → IsConsistent (step auto w.swap.state e w).1.swap
step-IsConsistent auto e w v = record {
  facts = Facts-step auto w.swap.state e w refl v.facts v.pooled;
  ended = ended-step auto w.swap.state e w refl v.facts v.ended;
  pooled = λ a c h. pooled-step auto w.swap.state e w a c v h;
}

-- Every trigger, accepted or not, leaves a consistent swap consistent.
pub fire-IsConsistent :
    (auto : Bool) (fire : Event → Exec World Bool)
    → IsSwapMachine auto fire
    → (e : Event) (w : World) → IsConsistent w.swap
    → IsConsistent (fire e w).1.swap
fire-IsConsistent auto fire machine e w v =
    rw (fire-eq-step auto fire machine e w) (step-IsConsistent auto e w v)
