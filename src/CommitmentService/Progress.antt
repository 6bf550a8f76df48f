-- ===== src/CommitmentService/Progress.antt =====
-- Which triggers a state takes, and how a swap ends.
use mathlib.Core.List.{append-nil, append_assoc}
use raidex.Prelude.{
  ℕ, sym, ◌∙◌, ◌⊎◌, ◌≡◌, refl, Bool, true, false, some, List, [], ◌∷◌, ◌++◌, arith,
}
use raidex.Dict.{contains, remove}
use raidex.Exec.{Exec, Result, ok, raised, machine_error}
use raidex.CommitmentService.Data.{
  SwapExecution, Refund, State, initializing, wait_for_maker, wait_for_taker, wait_for_execution,
  wait_for_maker_execution, wait_for_taker_execution, traded, uncommitted, untraded, failed,
  processed, Event, on_timeout, on_finalize, on_maker_commitment, on_taker_commitment, on_transfer,
  on_execution, Swap, World,
}
use raidex.CommitmentService.Callbacks.{is_maker, is_taker}
use raidex.CommitmentService.Table.{IsSwapMachine}
use raidex.CommitmentService.Step.{step, fire-eq-step}
use raidex.CommitmentService.Invariant.{keeps_all}

-- The pairs of a state and a trigger that the machine knows.
abbrev pub is_known : State → Event → Bool
is_known initializing on_timeout = true
is_known initializing (on_maker_commitment _) = true
is_known wait_for_maker on_timeout = true
is_known wait_for_maker (on_transfer _) = true
is_known wait_for_taker on_timeout = true
is_known wait_for_taker (on_taker_commitment _) = true
is_known wait_for_taker (on_transfer _) = true
is_known wait_for_execution on_timeout = true
is_known wait_for_execution (on_transfer _) = true
is_known wait_for_execution (on_execution _) = true
is_known wait_for_maker_execution on_timeout = true
is_known wait_for_maker_execution (on_transfer _) = true
is_known wait_for_maker_execution (on_execution _) = true
is_known wait_for_taker_execution on_timeout = true
is_known wait_for_taker_execution (on_transfer _) = true
is_known wait_for_taker_execution (on_execution _) = true
is_known processed _ = false
is_known initializing _ = false
is_known wait_for_maker _ = false
is_known wait_for_taker _ = false
is_known wait_for_execution _ = false
is_known wait_for_maker_execution _ = false
is_known wait_for_taker_execution _ = false
is_known _ on_finalize = true
is_known _ (on_transfer _) = true
is_known _ _ = false

unknown-step :
    (auto : Bool) (s : State) (e : Event) (w : World)
    → is_known s e ≡ false
    → step auto s e w ≡ (raised machine_error, w)
unfolding step
unknown-step auto initializing e w h = ground arith
unknown-step auto s e w h = ground arith

abbrev pub Succeeds {ℓ} : {A : Type ℓ} → Result A → Type 0
Succeeds (ok a) = Unit
Succeeds (raised x) = ⊥

-- A trigger that is taken does not raise; one that is not raises MachineError and changes nothing.
abbrev pub TakesIf : Bool → World → Result Bool × World → Type 0
TakesIf true before after = Succeeds after.0
TakesIf false before after = after ≡ (raised machine_error, before)

-- The state in which a timeout ends a swap.
abbrev pub end_of : State → State
end_of wait_for_taker = untraded
end_of initializing = uncommitted
end_of wait_for_maker = uncommitted
end_of _ = failed

-- The refund that a timeout queues: the maker's transfer, without a fee, if no taker was accepted.
abbrev pub refunds_at_timeout : State → Swap → List Refund
refunds_at_timeout wait_for_taker s =
    record { receipt = s.maker_transfer_receipt; priority = 1; claim_fee = false } ∷ []
refunds_at_timeout _ s = []

abbrev pub is_open : State → Bool
is_open initializing = true
is_open wait_for_maker = true
is_open wait_for_taker = true
is_open wait_for_execution = true
is_open wait_for_maker_execution = true
is_open wait_for_taker_execution = true
is_open _ = false

-- How a swap is left that has ended in state `t`, with `refunds` queued.
pub record EndsIn (t : State) (refunds : List Refund) (before : World) (after : Result Bool × World)
    : Type 0 where
  pub succeeded : after.0 ≡ ok true
  pub is_processed : after.1.swap.state ≡ processed
  pub reason : after.1.swap.terminated_state ≡ some t
  pub removed : after.1.swaps ≡ remove before.swaps before.swap.offer_id
  pub refunded : after.1.refund_queue ≡ before.refund_queue ++ refunds

append_nil : (rs : List Refund) → rs ≡ rs ++ []
append_nil rs = sym (append-nil rs)

timeout-step :
    (auto : Bool) (s : State) (w : World)
    → w.swap.state ≡ s
    → contains w.swaps w.swap.offer_id ≡ true
    → is_open s ≡ true
    → EndsIn (end_of s) (refunds_at_timeout s w.swap) w (step auto s on_timeout w)
unfolding keeps_all
timeout-step auto initializing w p c h = ground (arith, append_nil w.refund_queue)
timeout-step auto s w p c h = ground (arith, append_nil w.refund_queue)

-- The refunds of a completed swap: both transfers, with the fee claimed.
abbrev pub refunds_at_completion : Swap → List Refund
refunds_at_completion s =
    record { receipt = s.maker_transfer_receipt; priority = 1; claim_fee = true }
    ∷ record { receipt = s.taker_transfer_receipt; priority = 1; claim_fee = true }
    ∷ []

append_two : (rs : List Refund) (a b : Refund) → (rs ++ a ∷ []) ++ b ∷ [] ≡ rs ++ a ∷ b ∷ []
append_two rs a b = simp append_assoc

-- One execution comes from the maker and the other from the taker.
abbrev pub FromBoth : Swap → ℕ → ℕ → Type 0
FromBoth s a b =
    ((is_maker s a ≡ true) × (is_taker s b ≡ true))
    ⊎ ((is_taker s a ≡ true) × (is_maker s b ≡ true))

both-step :
    (auto : Bool) (s : State) (x y : SwapExecution) (w : World)
    → w.swap.state ≡ s
    → s ≡ wait_for_execution
    → contains w.swaps w.swap.offer_id ≡ true
    → FromBoth w.swap x.sender y.sender
    → let v = (step auto s (on_execution x) w).1 in
      EndsIn traded (refunds_at_completion w.swap) w (step auto v.swap.state (on_execution y) v)
unfolding keeps_all
both-step auto wait_for_execution x y w p q c h = ground (
  arith,
  append_two w.refund_queue
      (record { receipt = w.swap.maker_transfer_receipt; priority = 1; claim_fee = true })
      (record { receipt = w.swap.taker_transfer_receipt; priority = 1; claim_fee = true }),
)
both-step auto s x y w p q c h = cc

module _ (auto : Bool) (fire : Event → Exec World Bool) (machine : IsSwapMachine auto fire) where
  pub fire-unknown :
      (e : Event) (w : World)
      → is_known w.swap.state e ≡ false
      → fire e w ≡ (raised machine_error, w)
  fire-unknown e w h = fire-eq-step auto fire machine e w ∙ unknown-step auto w.swap.state e w h

  -- A timeout ends every open swap of the dictionary: uncommitted without the maker's transfer,
  -- untraded with that transfer refunded while there is no taker, failed with no refund after.
  pub timeout_ends :
      (w : World)
      → contains w.swaps w.swap.offer_id ≡ true
      → is_open w.swap.state ≡ true
      → EndsIn (end_of w.swap.state) (refunds_at_timeout w.swap.state w.swap) w (fire on_timeout w)
  timeout_ends w c h =
      rw (fire-eq-step auto fire machine on_timeout w) (timeout-step auto w.swap.state w refl c h)

  -- Two executions, one from the maker and one from the taker in either order, complete a swap that
  -- waits for them: it ends as traded, and both transfers are refunded with the fee claimed.
  pub executions_complete :
      (x y : SwapExecution) (w : World)
      → w.swap.state ≡ wait_for_execution
      → contains w.swaps w.swap.offer_id ≡ true
      → FromBoth w.swap x.sender y.sender
      → EndsIn traded
          (refunds_at_completion w.swap)
          w
          (fire (on_execution y) (fire (on_execution x) w).1)
  executions_complete x y w p c h =
      simp (fire-eq-step auto fire machine) (both-step auto w.swap.state x y w refl p c h)
