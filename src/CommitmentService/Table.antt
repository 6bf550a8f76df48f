-- ===== src/CommitmentService/Table.antt =====
-- The transition table of `SwapStateMachine`: `swap_setup_state_transitions`.
use raidex.Prelude.{
  ℕ, Bool, true, false, Option, none, some, List, [], ◌∷◌, ◌++◌, map, keep, not, ◌&&◌, ◌==◌,
  if◌then◌else◌,
}
use raidex.Exec.{Exec, ignore}
use raidex.Machine.{Row, RunsTable}
use raidex.CommitmentService.Data.{
  Trigger, timeout, maker_commitment_msg, taker_commitment_msg, transfer_receipt,
  swap_execution_msg, finalize, State, initializing, wait_for_maker, wait_for_taker,
  wait_for_execution, wait_for_maker_execution, wait_for_taker_execution, traded, uncommitted,
  untraded, failed, processed, Event, on_timeout, on_finalize, on_maker_commitment,
  on_taker_commitment, on_transfer, on_execution, World,
}
use raidex.CommitmentService.Callbacks.{
  Callback, omit_args_and_kwargs, sender_is_maker, sender_is_taker, sender_sent_taker_commitment,
  refund_maker, set_maker_commitment, set_maker_transfer_receipt, send_maker_commitment_proof,
  queue_commitment, accept_taker_commitment_from_receipt, set_taker_transfer_receipt,
  send_offer_taken, send_taker_commitment_proof, set_maker_execution, set_taker_execution,
  send_swap_completed, refund_maker_with_fee, refund_taker_with_fee, punish_maker, punish_taker,
  set_terminated_state, cleanup, refund_unsuccessful_transfer, spawn_timeout,
}

-- The names of states and triggers are strings in the source: two are the same if their places are.
abbrev state_index : State → ℕ
state_index initializing = 0
state_index wait_for_maker = 1
state_index wait_for_taker = 2
state_index wait_for_execution = 3
state_index wait_for_maker_execution = 4
state_index wait_for_taker_execution = 5
state_index traded = 6
state_index uncommitted = 7
state_index untraded = 8
state_index failed = 9
state_index processed = 10

abbrev trigger_index : Trigger → ℕ
trigger_index timeout = 0
trigger_index maker_commitment_msg = 1
trigger_index taker_commitment_msg = 2
trigger_index transfer_receipt = 3
trigger_index swap_execution_msg = 4
trigger_index finalize = 5

abbrev pub same_state : State → State → Bool
same_state s t = state_index s == state_index t

abbrev pub same_trigger : Trigger → Trigger → Bool
same_trigger s t = trigger_index s == trigger_index t

unfoldable pub trigger_of : Event → Trigger
trigger_of on_timeout = timeout
trigger_of on_finalize = finalize
trigger_of (on_maker_commitment _) = maker_commitment_msg
trigger_of (on_taker_commitment _) = taker_commitment_msg
trigger_of (on_transfer _) = transfer_receipt
trigger_of (on_execution _) = swap_execution_msg

abbrev pub set_state : State → World → World
set_state s w = record w { swap = record (w.swap) { state = s } }

abbrev pub SwapRow : Type 0
SwapRow = Row State Trigger Event World

-- The callback 'finalize' is the trigger of that name, here the argument `trigger_finalize`.
unfoldable pub finalize_callback : Exec World Bool → Callback
finalize_callback trigger_finalize source e = ignore trigger_finalize

-- `add_transition` with neither `conditions`, `unless` nor `before`
abbrev plain : Trigger → State → Option State → List Callback → SwapRow
plain t source dest after = record {
  trigger = t;
  source = source;
  dest = dest;
  conditions = [];
  unless = [];
  before = [];
  after = after;
}

abbrev same_dest : Option State → Option State → Bool
same_dest none none = true
same_dest (some s) (some t) = same_state s t
same_dest _ _ = false

-- `remove_transition(trigger, source, dest)`
unfoldable pub remove_transition : Trigger → State → State → List SwapRow → List SwapRow
remove_transition t source dest rows =
    keep
      (λ r.
        not
          (same_trigger r.trigger t && same_state r.source source && same_dest r.dest (some dest)))
      rows

-- `set_maker_execution` or `set_taker_execution` is the first callback of the second execution.
abbrev settle : Exec World Bool → Callback → List Callback
settle trigger_finalize record_execution =
    record_execution
    ∷ omit_args_and_kwargs send_swap_completed
    ∷ omit_args_and_kwargs refund_maker_with_fee
    ∷ omit_args_and_kwargs refund_taker_with_fee
    ∷ finalize_callback trigger_finalize
    ∷ []

module _ (trigger_finalize : Exec World Bool) where
  unfoldable pub timeout_rows : List SwapRow
  timeout_rows =
      plain timeout wait_for_taker (some untraded)
        (omit_args_and_kwargs refund_maker ∷ finalize_callback trigger_finalize ∷ [])
      ∷ map (λ s. plain timeout s (some uncommitted) (finalize_callback trigger_finalize ∷ []))
          (initializing ∷ wait_for_maker ∷ [])

  unfoldable pub commitment_rows : List SwapRow
  commitment_rows =
      plain maker_commitment_msg initializing (some wait_for_maker) (set_maker_commitment ∷ [])
      ∷ record (plain transfer_receipt wait_for_maker (some wait_for_taker)
          (set_maker_transfer_receipt ∷ omit_args_and_kwargs send_maker_commitment_proof ∷ [])) {
            conditions = sender_is_maker ∷ [];
          }
      ∷ record (plain taker_commitment_msg wait_for_taker none []) {
        before = queue_commitment ∷ [];
      }
      ∷ record (plain transfer_receipt wait_for_taker (some wait_for_execution) (
          accept_taker_commitment_from_receipt
          ∷ set_taker_transfer_receipt
          ∷ omit_args_and_kwargs send_offer_taken
          ∷ omit_args_and_kwargs send_taker_commitment_proof
          ∷ [])) { conditions = sender_sent_taker_commitment ∷ [] }
      ∷ []

  unfoldable pub execution_rows : List SwapRow
  execution_rows =
      record (plain swap_execution_msg wait_for_execution (some wait_for_taker_execution)
        (set_maker_execution ∷ [])) { conditions = sender_is_maker ∷ [] }
      ∷ record (plain swap_execution_msg wait_for_execution (some wait_for_maker_execution)
          (set_taker_execution ∷ [])) { conditions = sender_is_taker ∷ [] }
      ∷ record (plain swap_execution_msg wait_for_taker_execution (some traded)
          (settle trigger_finalize set_taker_execution)) { conditions = sender_is_taker ∷ [] }
      ∷ record (plain swap_execution_msg wait_for_maker_execution (some traded)
          (settle trigger_finalize set_maker_execution)) { conditions = sender_is_maker ∷ [] }
      ∷ []

  unfoldable pub closing_rows : List SwapRow
  closing_rows =
      map
        (λ s. plain timeout s (some failed) (
          omit_args_and_kwargs punish_maker
          ∷ omit_args_and_kwargs punish_taker
          ∷ finalize_callback trigger_finalize
          ∷ []))
        (wait_for_execution ∷ wait_for_taker_execution ∷ wait_for_maker_execution ∷ [])
      ++ map
          (λ s.
            plain finalize s (some processed)
              (set_terminated_state ∷ omit_args_and_kwargs cleanup ∷ []))
          (traded ∷ untraded ∷ failed ∷ uncommitted ∷ [])

  unfoldable pub refund_rows : List SwapRow
  refund_rows =
      record (plain transfer_receipt wait_for_taker none (refund_unsuccessful_transfer ∷ [])) {
        unless = sender_sent_taker_commitment ∷ [];
      }
      ∷ record (plain transfer_receipt wait_for_maker none (refund_unsuccessful_transfer ∷ [])) {
        unless = sender_is_maker ∷ [];
      }
      ∷ map (λ s. plain transfer_receipt s none (refund_unsuccessful_transfer ∷ []))
          (wait_for_execution ∷ wait_for_taker_execution ∷ wait_for_maker_execution ∷ failed
            ∷ traded ∷ uncommitted ∷ untraded ∷ [])

  -- The rows in the order in which they are added; with `auto_spawn_timeout` the row of the
  -- maker's commitment is taken out and added again, with one more callback.
  unfoldable pub swap_setup_state_transitions : Bool → List SwapRow
  unfolding timeout_rows commitment_rows execution_rows closing_rows refund_rows remove_transition
  swap_setup_state_transitions auto_spawn_timeout =
      let rows = timeout_rows ++ commitment_rows ++ execution_rows ++ closing_rows ++ refund_rows in
      if auto_spawn_timeout
      then (remove_transition maker_commitment_msg initializing wait_for_maker rows
          ++ plain maker_commitment_msg initializing (some wait_for_maker)
              (set_maker_commitment ∷ spawn_timeout ∷ [])
            ∷ [])
      else rows

-- What is assumed of the machine: `fire` is its triggers, over the table of the source.
abbrev pub IsSwapMachine : Bool → (Event → Exec World Bool) → Type 0
IsSwapMachine auto_spawn_timeout fire =
    RunsTable same_state same_trigger trigger_of (λ w. w.swap.state) set_state
      (swap_setup_state_transitions (fire on_finalize) auto_spawn_timeout) fire
