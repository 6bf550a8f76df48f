-- ===== src/CommitmentService/Callbacks.antt =====
-- The methods of `SwapCommitment` and the callbacks of `SwapStateMachine`.
use raidex.Prelude.{ℕ, Bool, true, false, Option, none, some, [], ◌∷◌, ◌++◌, ◌==◌, if◌then◌else◌}
use raidex.Dict.{get, put, remove, contains}
use raidex.Exec.{
  Exec, Result, ok, raised, value_error, attribute_error, key_error, pure, modify, ◌>>◌,
}
use raidex.CommitmentService.Data.{
  Commitment, SwapExecution, CommitmentProof, Message, offer_taken, swap_completed,
  commitment_proof, cancellation_proof, TransferReceipt, State, Event, on_timeout, on_finalize,
  on_maker_commitment, on_taker_commitment, on_transfer, on_execution, Swap, World,
}

-- `maker_address`, `taker_address`
unfoldable pub sender_of : Option Commitment → Option ℕ
sender_of none = none
sender_of (some c) = some c.sender

unfoldable pub maker_address : Swap → Option ℕ
unfolding sender_of
maker_address s = sender_of s.maker_commitment_msg

unfoldable pub taker_address : Swap → Option ℕ
unfolding sender_of
taker_address s = sender_of s.taker_commitment_msg

-- `address == None` is False for every address.
abbrev pub same_address : ℕ → Option ℕ → Bool
same_address a none = false
same_address a (some b) = a == b

unfoldable pub is_maker : Swap → ℕ → Bool
unfolding maker_address
is_maker s address = same_address address (maker_address s)

unfoldable pub is_taker : Swap → ℕ → Bool
unfolding taker_address
is_taker s address = same_address address (taker_address s)

-- `SwapFactory._queue_send` and `_queue_refund`, which a swap has as its functions.
unfoldable pub queue_send : Message → Option ℕ → Exec World (Unit {0})
queue_send msg topic =
    modify (λ w. record w { message_queue = w.message_queue ++ (msg, topic) ∷ [] })

unfoldable pub queue_refund : Option TransferReceipt → ℕ → Bool → Exec World (Unit {0})
queue_refund receipt priority claim_fee = modify λ w. record w {
  refund_queue =
      w.refund_queue
      ++ record { receipt = receipt; priority = priority; claim_fee = claim_fee } ∷ [];
}

-- `SwapFactory.cleanup_swap`, a `del`, called by `SwapCommitment.cleanup`
unfoldable pub cleanup : Exec World (Unit {0})
cleanup w =
    if contains w.swaps w.swap.offer_id
    then (ok tt, record w { swaps = remove w.swaps w.swap.offer_id })
    else (raised key_error, w)

unfoldable pub send_offer_taken : Exec World (Unit {0})
unfolding queue_send
send_offer_taken w = queue_send (offer_taken w.swap.offer_id) none w

unfoldable pub send_swap_completed : Exec World (Unit {0})
unfolding queue_send
send_swap_completed w = queue_send (swap_completed w.swap.offer_id w.now) none w

abbrev pub proof_for : Swap → Commitment → CommitmentProof
proof_for s c = record {
  commitment_sig = c.signature;
  secret = s.secret;
  secret_hash = s.secret_hash;
  offer_id = s.offer_id;
}

unfoldable pub send_maker_commitment_proof : Exec World (Unit {0})
unfolding queue_send maker_address
send_maker_commitment_proof w = elim w.swap.maker_commitment_msg [
  | none ↦ (raised attribute_error, w)
  | some c ↦
      let s = record (w.swap) { maker_commitment_proof = some (proof_for w.swap c) } in
      queue_send (commitment_proof (proof_for w.swap c)) (maker_address s) (record w { swap = s })
]

unfoldable pub send_taker_commitment_proof : Exec World (Unit {0})
unfolding queue_send taker_address
send_taker_commitment_proof w = elim w.swap.taker_commitment_msg [
  | none ↦ (raised attribute_error, w)
  | some c ↦ queue_send (commitment_proof (proof_for w.swap c)) (taker_address w.swap) w
]

unfoldable pub punish_maker : Exec World (Unit {0})
punish_maker = pure tt

unfoldable pub punish_taker : Exec World (Unit {0})
punish_taker = pure tt

unfoldable pub refund_maker : Exec World (Unit {0})
unfolding queue_refund queue_send maker_address
refund_maker w =
    (queue_refund w.swap.maker_transfer_receipt 1 false
        >> queue_send (cancellation_proof w.swap.offer_id w.swap.maker_commitment_proof)
            (maker_address w.swap))
      w

unfoldable pub refund_maker_with_fee : Exec World (Unit {0})
unfolding queue_refund
refund_maker_with_fee w = queue_refund w.swap.maker_transfer_receipt 1 true w

unfoldable pub refund_taker_with_fee : Exec World (Unit {0})
unfolding queue_refund
refund_taker_with_fee w = queue_refund w.swap.taker_transfer_receipt 1 true w

-- `event.kwargs.get('receipt')` and `event.kwargs.get('msg')`, the latter at the type of the
-- message that the trigger is called with.
unfoldable pub event_get_receipt_kwarg : Event → Option TransferReceipt
event_get_receipt_kwarg (on_transfer receipt) = some receipt
event_get_receipt_kwarg _ = none

unfoldable pub event_get_commitment_kwarg : Event → Option Commitment
event_get_commitment_kwarg (on_maker_commitment msg) = some msg
event_get_commitment_kwarg (on_taker_commitment msg) = some msg
event_get_commitment_kwarg _ = none

unfoldable pub event_get_execution_kwarg : Event → Option SwapExecution
event_get_execution_kwarg (on_execution msg) = some msg
event_get_execution_kwarg _ = none

-- `event_get_msg_or_receipt_kwarg`, and the `initiator` or the `sender` of what it returns
unfoldable pub event_get_originator : Event → Result ℕ
event_get_originator (on_transfer receipt) = ok receipt.initiator
event_get_originator (on_maker_commitment msg) = ok msg.sender
event_get_originator (on_taker_commitment msg) = ok msg.sender
event_get_originator (on_execution msg) = ok msg.sender
event_get_originator _ = raised value_error

-- The conditions of the machine.
unfoldable pub sender_is_maker : Event → World → Result Bool
unfolding event_get_originator is_maker
sender_is_maker e w = elim (event_get_originator e) [
  | raised x ↦ raised x
  | ok a ↦ ok (is_maker w.swap a)
]

unfoldable pub sender_is_taker : Event → World → Result Bool
unfolding event_get_originator is_taker
sender_is_taker e w = elim (event_get_originator e) [
  | raised x ↦ raised x
  | ok a ↦ ok (is_taker w.swap a)
]

-- A message has no `initiator`.
unfoldable pub sender_sent_taker_commitment : Event → World → Result Bool
sender_sent_taker_commitment (on_transfer receipt) w =
    ok (contains w.swap.taker_commitment_pool receipt.initiator)
sender_sent_taker_commitment on_timeout w = raised value_error
sender_sent_taker_commitment on_finalize w = raised value_error
sender_sent_taker_commitment _ w = raised attribute_error

-- The callbacks of the machine. The first argument is the source of the transition, which is
-- `event.transition.source`.
abbrev pub Callback : Type 0
Callback = State → Event → Exec World (Unit {0})

-- `omit_args_and_kwargs(func)`
abbrev pub omit_args_and_kwargs : Exec World (Unit {0}) → Callback
omit_args_and_kwargs func source e = func

abbrev update : (Swap → Swap) → Exec World (Unit {0})
update f = modify (λ w. record w { swap = f w.swap })

-- `gevent.spawn_later(seconds_to_timeout, self.swap.trigger_timeout)`
unfoldable pub spawn_timeout : Callback
unfolding event_get_commitment_kwarg
spawn_timeout source e w = elim (event_get_commitment_kwarg e) [
  | none ↦ (raised attribute_error, w)
  | some c ↦ (ok tt, record w { timers = w.timers ++ (w.ref, c.timeout) ∷ [] })
]

-- `event.result` is False while the callbacks of a transition run: it is set after them.
unfoldable pub refund_unsuccessful_transfer : Callback
unfolding event_get_receipt_kwarg queue_refund
refund_unsuccessful_transfer source e = queue_refund (event_get_receipt_kwarg e) 1 false

unfoldable pub set_terminated_state : Callback
set_terminated_state source e = update (λ s. record s { terminated_state = some source })

unfoldable pub set_taker_execution : Callback
unfolding event_get_execution_kwarg
set_taker_execution source e =
    update (λ s. record s { taker_swap_execution_msg = event_get_execution_kwarg e })

unfoldable pub set_maker_execution : Callback
unfolding event_get_execution_kwarg
set_maker_execution source e =
    update (λ s. record s { maker_swap_execution_msg = event_get_execution_kwarg e })

unfoldable pub set_maker_transfer_receipt : Callback
unfolding event_get_receipt_kwarg
set_maker_transfer_receipt source e =
    update (λ s. record s { maker_transfer_receipt = event_get_receipt_kwarg e })

unfoldable pub set_taker_transfer_receipt : Callback
unfolding event_get_receipt_kwarg
set_taker_transfer_receipt source e =
    update (λ s. record s { taker_transfer_receipt = event_get_receipt_kwarg e })

unfoldable pub set_maker_commitment : Callback
unfolding event_get_commitment_kwarg
set_maker_commitment source e =
    update (λ s. record s { maker_commitment_msg = event_get_commitment_kwarg e })

unfoldable pub accept_taker_commitment_from_receipt : Callback
unfolding event_get_receipt_kwarg
accept_taker_commitment_from_receipt source e w = elim (event_get_receipt_kwarg e) [
  | none ↦ (raised attribute_error, w)
  | some r ↦ elim (get w.swap.taker_commitment_pool r.initiator) [
    | none ↦ (raised key_error, w)
    | some c ↦ update (λ s. record s { taker_commitment_msg = some c }) w
  ]
]

unfoldable pub queue_commitment : Callback
unfolding event_get_commitment_kwarg
queue_commitment source e w = elim (event_get_commitment_kwarg e) [
  | none ↦ (raised attribute_error, w)
  | some c ↦
      if contains w.swap.taker_commitment_pool c.sender
      then (ok tt, w)
      else update (λ s. record s { taker_commitment_pool = put s.taker_commitment_pool c.sender c })
          w
]
