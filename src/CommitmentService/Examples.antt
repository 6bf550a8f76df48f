-- ===== src/CommitmentService/Examples.antt =====
-- A swap of offer 7 between maker 1 and taker 2, and the service that runs it.
use raidex.Prelude.{ℕ, ◌+◌, ◌/◌, ◌≡◌, refl, inl, some, Bool, true, List, [], ◌∷◌, map}
use raidex.Dict.{get, put, remove, contains}
use raidex.Exec.{Exec, ok, raised, other}
use raidex.CommitmentService.Data.{
  Commitment, SwapExecution, TransferReceipt, Refund, Event, on_timeout, on_maker_commitment,
  on_taker_commitment, on_transfer, on_execution, World, untraded, traded,
}
use raidex.CommitmentService.Step.{step, stepped, stepped-IsSwapMachine, fire-eq-step}
use raidex.CommitmentService.Invariant.{keeps_all, IsConsistent, fire-IsConsistent}
use raidex.CommitmentService.Escrow.{owed, escrow, forfeited, lost, paid_in, run, balance-run}
use raidex.CommitmentService.Progress.{
  EndsIn, refunds_at_completion, refunds_at_timeout, timeout_ends, executions_complete,
}
use raidex.CommitmentService.Refunds.{
  RefundState, RefundInput, put_refund, give, answer, run_refunds,
}
use raidex.CommitmentService.Refunds.Kept.{IsAccounted, PutsReceipts, run_refunds-kept}
use raidex.CommitmentService.Service.{
  Input, commitment, transfer, execution, timer, new_swap, serve, start,
}
use raidex.CommitmentService.Service.Accounts.{
  escrow_all, forfeited_over, lost_over, paid_over, balance-serve,
}
use raidex.CommitmentService.Service.Sound.{IsSound, serve-IsSound}

abbrev commitment_of : ℕ → Commitment
commitment_of a = record {
  offer_id = 7;
  offer_hash = 70;
  timeout = 500;
  amount = 10;
  signature = 100 + a;
  sender = a;
}

abbrev transfer_of : ℕ → TransferReceipt
transfer_of a = record { initiator = a; amount = 10; identifier = 7; timestamp = 50 }

abbrev execution_of : ℕ → SwapExecution
execution_of a = record { offer_id = 7; timestamp = 90; sender = a }

abbrev fire : Event → Exec World Bool
fire = stepped true

abbrev created : World
created = record {
  swap = new_swap (λ s. s + 1) 7 33;
  ref = 0;
  swaps = (7, 0) ∷ [];
  refund_queue = [];
  message_queue = [];
  timers = [];
  now = 40;
}

created-IsConsistent : IsConsistent created.swap
unfolding new_swap get
created-IsConsistent = record { facts = tt; ended = tt; pooled = λ a c h. cc }

abbrev until_taken : List Event
until_taken =
    on_maker_commitment (commitment_of 1)
    ∷ on_transfer (transfer_of 1)
    ∷ on_taker_commitment (commitment_of 2)
    ∷ on_transfer (transfer_of 2)
    ∷ []

all_open : Unit {0}
unfolding keeps_all stepped new_swap run get put remove contains
all_open = tt

fire-eq-step_example :
    fire (on_maker_commitment (commitment_of 1)) created
    ≡ step true created.swap.state (on_maker_commitment (commitment_of 1)) created
fire-eq-step_example =
    fire-eq-step true fire (stepped-IsSwapMachine true) (on_maker_commitment (commitment_of 1))
      created

fire-IsConsistent_example :
    IsConsistent (fire (on_maker_commitment (commitment_of 1)) created).1.swap
fire-IsConsistent_example =
    fire-IsConsistent true fire (stepped-IsSwapMachine true) (on_maker_commitment (commitment_of 1))
      created created-IsConsistent

-- The first transfer of a stranger comes back at once; one after the end is lost.
abbrev with_stranger : List Event
with_stranger =
    on_maker_commitment (commitment_of 1)
    ∷ on_transfer (transfer_of 9)
    ∷ on_transfer (transfer_of 1)
    ∷ on_timeout
    ∷ on_transfer (transfer_of 2)
    ∷ []

balance-run_example :
    owed (run fire with_stranger created).refund_queue
      + escrow (run fire with_stranger created).swap
      + forfeited fire with_stranger created
      + lost fire with_stranger created
    ≡ owed created.refund_queue + escrow created.swap + paid_in with_stranger
balance-run_example = balance-run true fire (stepped-IsSwapMachine true) with_stranger created

timeout_ends_example :
    EndsIn untraded
      (refunds_at_timeout
        (run fire
          (on_maker_commitment (commitment_of 1) ∷ on_transfer (transfer_of 1) ∷ [])
          created).swap.state
        (run fire
          (on_maker_commitment (commitment_of 1) ∷ on_transfer (transfer_of 1) ∷ [])
          created).swap)
      (run fire (on_maker_commitment (commitment_of 1) ∷ on_transfer (transfer_of 1) ∷ []) created)
      (fire on_timeout (
        run fire
          (on_maker_commitment (commitment_of 1) ∷ on_transfer (transfer_of 1) ∷ [])
          created))
unfolding all_open
timeout_ends_example =
    timeout_ends true fire (stepped-IsSwapMachine true)
      (run fire (on_maker_commitment (commitment_of 1) ∷ on_transfer (transfer_of 1) ∷ []) created)
      refl refl

executions_complete_example :
    EndsIn traded
      (refunds_at_completion (run fire until_taken created).swap)
      (run fire until_taken created)
      (fire
        (on_execution (execution_of 2))
        (fire (on_execution (execution_of 1)) (run fire until_taken created)).1)
unfolding all_open
executions_complete_example =
    executions_complete true fire (stepped-IsSwapMachine true) (execution_of 1) (execution_of 2)
      (run fire until_taken created) refl refl (inl (refl, refl))

abbrev story : List Input
story =
    commitment (commitment_of 1) 33
    ∷ transfer (transfer_of 1)
    ∷ commitment (commitment_of 2) 34
    ∷ transfer (transfer_of 2)
    ∷ execution (execution_of 2)
    ∷ execution (execution_of 1)
    ∷ timer 0
    ∷ transfer (transfer_of 3)
    ∷ []

serve-IsSound_example : IsSound (serve fire (λ s. s + 1) story (start 40))
serve-IsSound_example = serve-IsSound true fire (stepped-IsSwapMachine true) (λ s. s + 1) story 40

balance-serve_example :
    owed (serve fire (λ s. s + 1) story (start 40)).refund_queue
      + escrow_all (serve fire (λ s. s + 1) story (start 40)).heap
      + forfeited_over fire (λ s. s + 1) story (start 40)
      + lost_over fire (λ s. s + 1) story (start 40)
    ≡ paid_over story
balance-serve_example = balance-serve true fire (stepped-IsSwapMachine true) (λ s. s + 1) story 40

-- Both transfers are refunded, with the fee claimed.
story_refunds :
    map (λ (r : Refund). r.claim_fee) (serve fire (λ s. s + 1) story (start 40)).refund_queue
    ≡ true ∷ true ∷ []
unfolding all_open serve start
story_refunds = refl

abbrev refund_of : ℕ → Refund
refund_of a = record { receipt = some (transfer_of a); priority = 1; claim_fee = true }

abbrev no_refunds : RefundState
no_refunds = record { queue = []; waiting = []; transfers = []; refunded = []; lost = [] }

-- The first transfer fails and is made again; then one is answered, and the other raises.
abbrev refund_inputs : List RefundInput
refund_inputs =
    put_refund (refund_of 1)
    ∷ put_refund (refund_of 2)
    ∷ give 0
    ∷ answer 0 (ok 409)
    ∷ give 0
    ∷ give 0
    ∷ answer 0 (ok 200)
    ∷ answer 0 (raised other)
    ∷ []

run_refunds-kept_example :
    IsAccounted
      (some (λ a. a / 2))
      (λ r. r.claim_fee)
      refund_inputs
      no_refunds
      (run_refunds (some (λ a. a / 2)) refund_inputs no_refunds)
unfolding PutsReceipts
run_refunds-kept_example =
    run_refunds-kept (some (λ a. a / 2)) (λ r. r.claim_fee) refund_inputs no_refunds
      (record { in_queue = tt; in_waiting = tt }) (refl, (refl, tt))
