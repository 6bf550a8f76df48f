-- ===== src/CommitmentService/Step.antt =====
-- What a trigger of a swap's machine does in each state, read off the table once and for all.
use raidex.Prelude.{◌≡◌, ◌∙◌, ap, sym, fun_ext, Bool, true, false, arith, if◌then◌else◌}
use raidex.Dict.{contains}
use raidex.Exec.{Exec, machine_error, pure, raise, modify, ◌>>◌}
use raidex.Machine.{candidates, run_candidates}
use raidex.CommitmentService.Data.{
  State, initializing, wait_for_maker, wait_for_taker, wait_for_execution, wait_for_maker_execution,
  wait_for_taker_execution, traded, uncommitted, untraded, failed, processed, Event, on_timeout,
  on_finalize, on_maker_commitment, on_taker_commitment, on_transfer, on_execution, World,
}
use raidex.CommitmentService.Callbacks.{
  is_maker, is_taker, sender_is_maker, sender_is_taker, sender_sent_taker_commitment, refund_maker,
  set_maker_commitment, set_maker_transfer_receipt, send_maker_commitment_proof, queue_commitment,
  accept_taker_commitment_from_receipt, set_taker_transfer_receipt, send_offer_taken,
  send_taker_commitment_proof, set_maker_execution, set_taker_execution, send_swap_completed,
  refund_maker_with_fee, refund_taker_with_fee, punish_maker, punish_taker, set_terminated_state,
  cleanup, refund_unsuccessful_transfer, spawn_timeout,
}
use raidex.CommitmentService.Table.{
  same_state, same_trigger, trigger_of, set_state, swap_setup_state_transitions, finalize_callback,
  IsSwapMachine,
}

-- `finalize` from a state where it is allowed
unfoldable pub end_from : State → Exec World (Unit {0})
end_from s = do modify (set_state processed); set_terminated_state s on_finalize; cleanup

unfoldable pub opened : Bool → Event → Exec World (Unit {0})
opened auto e = do
  set_maker_commitment initializing e
  if auto then spawn_timeout initializing e else pure tt

unfoldable pub settled : Exec World (Unit {0})
settled = do send_swap_completed; refund_maker_with_fee; refund_taker_with_fee; end_from traded

abbrev to : State → Exec World (Unit {0}) → Exec World Bool
to s after = do modify (set_state s); after; pure true

abbrev stay : Exec World (Unit {0}) → Exec World Bool
stay after = do after; pure true

abbrev refused : Exec World Bool
refused = pure false

unfoldable pub step : Bool → State → Event → Exec World Bool
unfolding end_from opened settled
step auto initializing on_timeout = to uncommitted (end_from uncommitted)
step auto initializing (on_maker_commitment c) =
    to wait_for_maker (opened auto (on_maker_commitment c))
step auto wait_for_maker on_timeout = to uncommitted (end_from uncommitted)
step auto wait_for_maker (on_transfer r) = λ w.
    (if is_maker w.swap r.initiator
        then to wait_for_taker (
            set_maker_transfer_receipt wait_for_maker (on_transfer r)
            >> send_maker_commitment_proof)
        else stay (refund_unsuccessful_transfer wait_for_maker (on_transfer r)))
      w
step auto wait_for_taker on_timeout = to untraded (refund_maker >> end_from untraded)
step auto wait_for_taker (on_taker_commitment c) =
    stay (queue_commitment wait_for_taker (on_taker_commitment c))
step auto wait_for_taker (on_transfer r) = λ w.
    (if contains w.swap.taker_commitment_pool r.initiator
        then to wait_for_execution (do
          accept_taker_commitment_from_receipt wait_for_taker (on_transfer r)
          set_taker_transfer_receipt wait_for_taker (on_transfer r)
          send_offer_taken
          send_taker_commitment_proof)
        else stay (refund_unsuccessful_transfer wait_for_taker (on_transfer r)))
      w
step auto wait_for_execution on_timeout = to failed (end_from failed)
step auto wait_for_execution (on_execution x) = λ w.
    (if is_maker w.swap x.sender
        then to wait_for_taker_execution (set_maker_execution wait_for_execution (on_execution x))
        else if is_taker w.swap x.sender
        then to wait_for_maker_execution (set_taker_execution wait_for_execution (on_execution x))
        else refused)
      w
step auto wait_for_taker_execution on_timeout = to failed (end_from failed)
step auto wait_for_taker_execution (on_execution x) = λ w.
    (if is_taker w.swap x.sender
        then to traded (set_taker_execution wait_for_taker_execution (on_execution x) >> settled)
        else refused)
      w
step auto wait_for_maker_execution on_timeout = to failed (end_from failed)
step auto wait_for_maker_execution (on_execution x) = λ w.
    (if is_maker w.swap x.sender
        then to traded (set_maker_execution wait_for_maker_execution (on_execution x) >> settled)
        else refused)
      w
step auto processed e = raise machine_error
step auto traded on_finalize = to processed (set_terminated_state traded on_finalize >> cleanup)
step auto untraded on_finalize = to processed (set_terminated_state untraded on_finalize >> cleanup)
step auto failed on_finalize = to processed (set_terminated_state failed on_finalize >> cleanup)
step auto uncommitted on_finalize =
    to processed (set_terminated_state uncommitted on_finalize >> cleanup)
step auto initializing (on_transfer r) = raise machine_error
step auto s (on_transfer r) = stay (refund_unsuccessful_transfer s (on_transfer r))
step auto s e = raise machine_error

-- The rows of the table for a state and a trigger, run.
rows_at : Bool → Exec World Bool → State → Event → Exec World Bool
rows_at auto trigger_finalize s e =
    run_candidates same_state same_trigger trigger_of (λ w. w.swap.state) set_state
      (candidates same_state same_trigger trigger_of (λ w. w.swap.state) set_state (trigger_of e) s
        (swap_setup_state_transitions trigger_finalize auto))
      e

step_finalize : Bool → Exec World Bool
step_finalize auto w = step auto w.swap.state on_finalize w

table_laws : Unit {0}
unfolding rows_at run_candidates candidates swap_setup_state_transitions trigger_of step
    finalize_callback set_terminated_state step_finalize punish_maker punish_taker refund_maker
    send_swap_completed refund_maker_with_fee refund_taker_with_fee set_maker_execution
    set_taker_execution sender_is_maker sender_is_taker sender_sent_taker_commitment
table_laws = tt

rows_at-finalize :
    (auto : Bool) (f : Exec World Bool) (s : State) (w : World)
    → rows_at auto f s on_finalize w ≡ step auto s on_finalize w
unfolding table_laws
rows_at-finalize auto f initializing w = ground arith
rows_at-finalize auto f _ w = ground arith

abbrev RowsAgree : State → Type 0
RowsAgree s =
    (auto : Bool) (e : Event) (w : World)
    → rows_at auto (step_finalize auto) s e w ≡ step auto s e w

at_initializing : RowsAgree initializing
unfolding table_laws
at_initializing false on_timeout w = ground arith
at_initializing true on_timeout w = ground arith
at_initializing false _ w = ground arith
at_initializing true _ w = ground arith

at_wait_for_maker : RowsAgree wait_for_maker
unfolding table_laws
at_wait_for_maker auto on_timeout w = ground arith
at_wait_for_maker auto _ w = ground arith

at_wait_for_taker : RowsAgree wait_for_taker
unfolding table_laws
at_wait_for_taker auto on_timeout w = ground arith
at_wait_for_taker auto _ w = ground arith

at_wait_for_execution : RowsAgree wait_for_execution
unfolding table_laws
at_wait_for_execution auto on_timeout w = ground arith
at_wait_for_execution auto _ w = ground arith

at_wait_for_maker_execution : RowsAgree wait_for_maker_execution
unfolding table_laws
at_wait_for_maker_execution auto on_timeout w = ground arith
at_wait_for_maker_execution auto _ w = ground arith

at_wait_for_taker_execution : RowsAgree wait_for_taker_execution
unfolding table_laws
at_wait_for_taker_execution auto on_timeout w = ground arith
at_wait_for_taker_execution auto _ w = ground arith

at_traded : RowsAgree traded
unfolding table_laws
at_traded auto on_timeout w = ground arith
at_traded auto _ w = ground arith

at_uncommitted : RowsAgree uncommitted
unfolding table_laws
at_uncommitted auto on_timeout w = ground arith
at_uncommitted auto _ w = ground arith

at_untraded : RowsAgree untraded
unfolding table_laws
at_untraded auto on_timeout w = ground arith
at_untraded auto _ w = ground arith

at_failed : RowsAgree failed
unfolding table_laws
at_failed auto on_timeout w = ground arith
at_failed auto _ w = ground arith

at_processed : RowsAgree processed
unfolding table_laws
at_processed auto on_timeout w = ground arith
at_processed auto _ w = ground arith

rows_at-eq-step : (s : State) → RowsAgree s
rows_at-eq-step initializing = at_initializing
rows_at-eq-step wait_for_maker = at_wait_for_maker
rows_at-eq-step wait_for_taker = at_wait_for_taker
rows_at-eq-step wait_for_execution = at_wait_for_execution
rows_at-eq-step wait_for_maker_execution = at_wait_for_maker_execution
rows_at-eq-step wait_for_taker_execution = at_wait_for_taker_execution
rows_at-eq-step traded = at_traded
rows_at-eq-step uncommitted = at_uncommitted
rows_at-eq-step untraded = at_untraded
rows_at-eq-step failed = at_failed
rows_at-eq-step processed = at_processed

module _ (auto : Bool) (fire : Event → Exec World Bool) (machine : IsSwapMachine auto fire) where
  fire_finalize : fire on_finalize ≡ step_finalize auto
  unfolding step_finalize rows_at
  fire_finalize =
      fun_ext
        λ w. machine.fires on_finalize w ∙ rows_at-finalize auto (fire on_finalize) w.swap.state w

  -- The machine over the table of the source is the step function.
  pub fire-eq-step : (e : Event) (w : World) → fire e w ≡ step auto w.swap.state e w
  unfolding rows_at
  fire-eq-step e w =
      machine.fires e w
      ∙ ap (λ (f : Exec World Bool). rows_at auto f w.swap.state e w) fire_finalize
      ∙ rows_at-eq-step w.swap.state auto e w

-- The step function is such a machine: the assumption can be met.
unfoldable pub stepped : Bool → Event → Exec World Bool
stepped auto e w = step auto w.swap.state e w

pub stepped-IsSwapMachine : (auto : Bool) → IsSwapMachine auto (stepped auto)
unfolding stepped rows_at step_finalize
stepped-IsSwapMachine auto = record { fires = λ e w. sym (rows_at-eq-step w.swap.state auto e w) }

ref-step : (auto : Bool) (s : State) (e : Event) (w : World) → (step auto s e w).1.ref ≡ w.ref
unfolding step set_maker_commitment set_maker_transfer_receipt send_maker_commitment_proof
    queue_commitment accept_taker_commitment_from_receipt set_taker_transfer_receipt
    send_offer_taken send_taker_commitment_proof set_maker_execution set_taker_execution
    send_swap_completed refund_maker refund_maker_with_fee refund_taker_with_fee
    set_terminated_state cleanup refund_unsuccessful_transfer spawn_timeout
ref-step false initializing e w = ground arith
ref-step true initializing e w = ground arith
ref-step auto s e w = ground arith

-- A trigger acts on the swap object that it is called on.
pub ref-fire :
    (auto : Bool) (fire : Event → Exec World Bool)
    → IsSwapMachine auto fire
    → (e : Event) (w : World) → (fire e w).1.ref ≡ w.ref
ref-fire auto fire machine e w =
    rw (fire-eq-step auto fire machine e w) (ref-step auto w.swap.state e w)
