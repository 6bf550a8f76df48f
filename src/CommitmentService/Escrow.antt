-- ===== src/CommitmentService/Escrow.antt =====
-- The commitment transfers of a swap are accounted for: each is held, refunded, kept as a fine, or
-- lost with a trigger that the machine refuses.
use raidex.Prelude.{
  ℕ, ◌+◌, ◌≡◌, refl, Bool, true, false, Option, none, some, List, [], ◌∷◌, ◌++◌, arith,
  Option-cases, inl, inr,
}
use raidex.Dict.{get, contains-eq-is_some}
use raidex.Exec.{Exec, Result, raised, machine_error}
use raidex.CommitmentService.Data.{
  TransferReceipt, Refund, State, initializing, wait_for_taker, wait_for_execution,
  wait_for_maker_execution, wait_for_taker_execution, processed, Event, on_timeout, on_transfer,
  Swap, World,
}
use raidex.CommitmentService.Table.{IsSwapMachine}
use raidex.CommitmentService.Step.{step, fire-eq-step}
use raidex.CommitmentService.Invariant.{keeps_all}

abbrev pub amount_of : Option TransferReceipt → ℕ
amount_of none = 0
amount_of (some r) = r.amount

-- What the queued refunds come to, before fees.
unfoldable pub owed : List Refund → ℕ
owed [] = 0
owed (r ∷ rs) = amount_of r.receipt + owed rs

pub owed-append :
    (rs : List Refund) (r : Refund) → owed (rs ++ r ∷ []) ≡ owed rs + amount_of r.receipt
unfolding owed
owed-append [] r = omega arith
owed-append (x ∷ rs) r = omega (arith, owed-append rs r)

-- The accepted transfers that a swap in a state still holds.
abbrev pub escrow_at : State → Swap → ℕ
escrow_at wait_for_taker s = amount_of s.maker_transfer_receipt
escrow_at wait_for_execution s =
    amount_of s.maker_transfer_receipt + amount_of s.taker_transfer_receipt
escrow_at wait_for_maker_execution s =
    amount_of s.maker_transfer_receipt + amount_of s.taker_transfer_receipt
escrow_at wait_for_taker_execution s =
    amount_of s.maker_transfer_receipt + amount_of s.taker_transfer_receipt
escrow_at _ s = 0

abbrev pub escrow : Swap → ℕ
escrow s = escrow_at s.state s

-- What the service keeps when a swap that both paid for times out.
abbrev pub forfeited_at : State → Event → Swap → ℕ
forfeited_at wait_for_execution on_timeout s = escrow_at wait_for_execution s
forfeited_at wait_for_maker_execution on_timeout s = escrow_at wait_for_maker_execution s
forfeited_at wait_for_taker_execution on_timeout s = escrow_at wait_for_taker_execution s
forfeited_at _ _ s = 0

-- What an event pays in
abbrev pub paid : Event → ℕ
paid (on_transfer r) = r.amount
paid _ = 0

-- What is lost where a trigger gives a result: the amount of a transfer that is refused.
abbrev pub lost_by_result : Result Bool → Event → ℕ
lost_by_result (raised machine_error) (on_transfer r) = r.amount
lost_by_result _ _ = 0

-- What an event brings in: the amount of a transfer, unless the machine refuses it.
abbrev pub received_at : State → Event → ℕ
received_at initializing (on_transfer r) = 0
received_at processed (on_transfer r) = 0
received_at _ (on_transfer r) = r.amount
received_at _ _ = 0

pub nothing_paid : (s : State) (e : Event) → paid e ≡ 0 → received_at s e ≡ 0
nothing_paid initializing (on_transfer r) h = refl
nothing_paid processed (on_transfer r) h = refl
nothing_paid s (on_transfer r) h = ground (arith, h)
nothing_paid s e h = ground arith

balance-step :
    (auto : Bool) (s : State) (e : Event) (w : World)
    → w.swap.state ≡ s
    → owed (step auto s e w).1.refund_queue
        + escrow (step auto s e w).1.swap
        + forfeited_at s e w.swap
      ≡ owed w.refund_queue + escrow_at s w.swap + received_at s e
unfolding keeps_all
balance-step false initializing e w p = ground arith
balance-step true initializing e w p = ground arith
balance-step auto wait_for_taker (on_transfer r) w p =
    elim (Option-cases (get w.swap.taker_commitment_pool r.initiator)) [
      | inl e ↦
          grind (arith, owed-append, contains-eq-is_some w.swap.taker_commitment_pool r.initiator)
      | inr (c, e) ↦
          grind (arith, owed-append, contains-eq-is_some w.swap.taker_commitment_pool r.initiator)
    ]
balance-step auto s e w p = grind (arith, owed-append)

lost-step :
    (auto : Bool) (s : State) (e : Event) (w : World)
    → w.swap.state ≡ s
    → received_at s e + lost_by_result (step auto s e w).0 e ≡ paid e
unfolding keeps_all
lost-step auto initializing (on_transfer r) w p = ground arith
lost-step auto wait_for_taker (on_transfer r) w p =
    elim (Option-cases (get w.swap.taker_commitment_pool r.initiator)) [
      | inl e ↦ grind (arith, contains-eq-is_some w.swap.taker_commitment_pool r.initiator)
      | inr (c, e) ↦ grind (arith, contains-eq-is_some w.swap.taker_commitment_pool r.initiator)
    ]
lost-step auto s (on_transfer r) w p = ground arith
lost-step auto s e w p = ground arith

module _ (auto : Bool) (fire : Event → Exec World Bool) (machine : IsSwapMachine auto fire) where
  pub lost-fire :
      (e : Event) (w : World) → received_at w.swap.state e + lost_by_result (fire e w).0 e ≡ paid e
  lost-fire e w = rw (fire-eq-step auto fire machine e w) (lost-step auto w.swap.state e w refl)

  pub balance-fire :
      (e : Event) (w : World)
      → owed (fire e w).1.refund_queue
          + escrow (fire e w).1.swap
          + forfeited_at w.swap.state e w.swap
        ≡ owed w.refund_queue + escrow w.swap + received_at w.swap.state e
  balance-fire e w =
      rw (fire-eq-step auto fire machine e w) (balance-step auto w.swap.state e w refl)

-- The events that reach one swap, one after the other. A trigger that raises ends its own caller
-- only; the next event finds the swap as it was left.
module _ (fire : Event → Exec World Bool) where
  unfoldable pub run : List Event → World → World
  run [] w = w
  run (e ∷ es) w = run es (fire e w).1

  -- What a run forfeits and receives, event by event.
  pub forfeited : List Event → World → ℕ
  forfeited [] w = 0
  forfeited (e ∷ es) w = forfeited_at w.swap.state e w.swap + forfeited es (fire e w).1

  pub received : List Event → World → ℕ
  received [] w = 0
  received (e ∷ es) w = received_at w.swap.state e + received es (fire e w).1

  -- The amounts of the transfers of a run whose trigger raises MachineError
  pub lost : List Event → World → ℕ
  lost [] w = 0
  lost (e ∷ es) w = lost_by_result (fire e w).0 e + lost es (fire e w).1

-- The amounts of all transfers among events
pub paid_in : List Event → ℕ
paid_in [] = 0
paid_in (e ∷ es) = paid e + paid_in es

balance-received :
    (auto : Bool) (fire : Event → Exec World Bool)
    → IsSwapMachine auto fire
    → (es : List Event) (w : World)
    → owed (run fire es w).refund_queue + escrow (run fire es w).swap + forfeited fire es w
      ≡ owed w.refund_queue + escrow w.swap + received fire es w
unfolding run forfeited received
balance-received auto fire machine [] w = refl
balance-received auto fire machine (e ∷ es) w =
    omega (
      arith,
      balance-received auto fire machine es (fire e w).1,
      balance-fire auto fire machine e w,
    )

received-lost :
    (auto : Bool) (fire : Event → Exec World Bool)
    → IsSwapMachine auto fire
    → (es : List Event) (w : World) → received fire es w + lost fire es w ≡ paid_in es
unfolding received lost paid_in
received-lost auto fire machine [] w = refl
received-lost auto fire machine (e ∷ es) w =
    omega (arith, received-lost auto fire machine es (fire e w).1, lost-fire auto fire machine e w)

-- Over any run of events on a swap, with each timeout forfeiting what is held once both paid: the
-- queued refunds, before fees, the amount in escrow, what was forfeited, and the transfers whose
-- trigger raised MachineError, which nothing refunds, grow by the amounts of all transfers of the
-- run.
pub balance-run :
    (auto : Bool) (fire : Event → Exec World Bool)
    → IsSwapMachine auto fire
    → (es : List Event) (w : World)
    → owed (run fire es w).refund_queue
        + escrow (run fire es w).swap
        + forfeited fire es w
        + lost fire es w
      ≡ owed w.refund_queue + escrow w.swap + paid_in es
balance-run auto fire machine es w =
    omega (arith, balance-received auto fire machine es w, received-lost auto fire machine es w)
