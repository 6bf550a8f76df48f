-- ===== src/Node/Manager/Handlers.antt =====
-- The handlers of raidex/raidex_node/handle_state_change.py on the state changes of
-- raidex/raidex_node/architecture/state_change.py.
use raidex.Prelude.{
  suc, ℕ, Bool, true, false, Option, none, some, ◌++◌, [], ◌∷◌, get_elem?, if◌then◌else◌,
}
use raidex.Dict.{get, contains}
use raidex.Exec.{Exec, key_error, attribute_error, pure, raise, modify, ignore, ◌>>◌, ◌>>=◌}
use raidex.CommitmentService.Data.{CommitmentProof}
use raidex.Node.Offer.{Floats, OfferBookEntry, entry_id}
use raidex.Node.OfferBook.{book_contains, book_remove_offer, insert_offer}
use raidex.Node.OfferBook.View.{OfferDict}
use raidex.Node.Timeouts.{create_new_timeout, clean_up_timeout}
use raidex.Node.Order.Fsm.{
  OfferTrigger, same_offer_state, completed, NodeEvent, send_proven_offer_event, swap_init_event,
  expect_inbound_event, RaidenEvent, Kwargs, no_kwargs, timeout, received_offer,
  receive_commitment_proof, receive_cancellation_proof, found_match, received_inbound,
}
use raidex.Node.Order.Limit.{OrderData, from_dict}
use raidex.Node.Manager.{
  Match, maker_match, NodeState, Outside, in_timeouts, in_book, trigger_offer, add_match,
  process_order, cancel_order,
}

-- `OFFER_THRESHOLD_TIME` of raidex/constants.py
abbrev offer_threshold_time : ℕ
offer_threshold_time = 10

module _ (floats : Floats) (sorted : OfferDict floats) where
  -- The state changes. `PaymentFailedStateChange` is not an `OfferStateChange`.
  pub data StateChange : Type 0 where
    offer_timeout : (offer_id timeout_date : ℕ) → StateChange
    commitment_proof_received : CommitmentProof → StateChange
    cancellation_proof_received : CommitmentProof → StateChange
    new_limit_order : OrderData (floats.Float) → StateChange
    cancel_limit_order : (order_id : ℕ) → StateChange
    offer_published : OfferBookEntry → StateChange
    taker_call : (offer_id initiator : ℕ) → CommitmentProof → StateChange
    transfer_received : RaidenEvent → StateChange
    payment_failed_change : (offer_id : ℕ) → StateChange

  abbrev pub dispatch : NodeEvent → Exec (NodeState floats sorted) (Unit {0})
  dispatch e = modify (λ w. record w { dispatched = w.dispatched ++ e ∷ [] })

  abbrev proof_kwargs : CommitmentProof → Kwargs
  proof_kwargs p = record { proof = some p; raiden_event = none }

  -- A method of the offer that `OfferManager.get_offer` finds, which may be None
  unfoldable pub trigger_found :
      Outside floats sorted
      → OfferTrigger
      → Kwargs
      → Option ℕ
      → Exec (NodeState floats sorted) (Unit {0})
  unfolding trigger_offer
  trigger_found out t k none = raise attribute_error
  trigger_found out t k (some ref) = trigger_offer floats sorted out t k ref

  unfoldable pub trigger_by_id :
      Outside floats sorted → OfferTrigger → Kwargs → ℕ → Exec (NodeState floats sorted) (Unit {0})
  unfolding trigger_found
  trigger_by_id out t k offer_id w = trigger_found out t k (get w.offers offer_id) w

  -- A method of the offer of a match
  unfoldable pub trigger_match :
      Outside floats sorted
      → OfferTrigger
      → Kwargs
      → Match
      → Exec (NodeState floats sorted) (Unit {0})
  unfolding trigger_found
  trigger_match out t k m = trigger_found out t k m.offer

  -- `Match.matched` with `on_enter_exchanging`
  unfoldable pub matched :
      Outside floats sorted → ℕ → Match → Exec (NodeState floats sorted) (Unit {0})
  unfolding trigger_match
  matched out offer_id m =
      trigger_match out found_match no_kwargs m
      >> (dispatch (swap_init_event offer_id) >> dispatch (expect_inbound_event m.target offer_id))

  -- The branches of `handle_offer_timeout`, by `has_offer` and `contains`
  unfoldable pub time_out_offer :
      Outside floats sorted → ℕ → Bool → Bool → Exec (NodeState floats sorted) (Unit {0})
  unfolding trigger_by_id
  time_out_offer out offer_id true known = trigger_by_id out timeout no_kwargs offer_id
  time_out_offer out offer_id false true =
      in_book floats sorted (book_remove_offer floats sorted offer_id)
  time_out_offer out offer_id false false = pure tt

  unfoldable pub handle_offer_timeout :
      Outside floats sorted → ℕ → Exec (NodeState floats sorted) (Unit {0})
  unfolding time_out_offer
  handle_offer_timeout out offer_id =
      (λ w.
        time_out_offer out offer_id (contains w.offers offer_id)
          (book_contains floats sorted offer_id w.book) w)
      >> in_timeouts floats sorted (clean_up_timeout offer_id)

  unfoldable pub handle_new_limit_order :
      Outside floats sorted → OrderData (floats.Float) → Exec (NodeState floats sorted) (Unit {0})
  handle_new_limit_order out fields w =
      process_order floats sorted out (from_dict floats.Float (out.new_id w.ids_made) fields)
        (record w {
          ids_made = (elim fields.order_id [ none ↦ suc w.ids_made | some i ↦ w.ids_made ]);
        })

  -- The branches of `handle_offer_published`, by `has_offer`
  unfoldable pub publish_offer :
      Outside floats sorted → OfferBookEntry → Bool → Exec (NodeState floats sorted) (Unit {0})
  unfolding trigger_by_id
  publish_offer out e true = trigger_by_id out received_offer no_kwargs (entry_id e)
  publish_offer out e false =
      ignore (in_book floats sorted (insert_offer floats sorted e))
      >> ignore (
          in_timeouts floats sorted
            (create_new_timeout (entry_id e) e.offer.timeout_date offer_threshold_time))

  unfoldable pub handle_offer_published :
      Outside floats sorted → OfferBookEntry → Exec (NodeState floats sorted) (Unit {0})
  unfolding publish_offer
  handle_offer_published out e w = publish_offer out e (contains w.offers (entry_id e)) w

  -- The target of the message is the partner of the match, where there is one.
  unfoldable pub match_if_known :
      Outside floats sorted → ℕ → Option Match → Exec (NodeState floats sorted) (Option ℕ)
  unfolding matched
  match_if_known out offer_id none = pure none
  match_if_known out offer_id (some m) = matched out offer_id m >>= λ _. pure (some m.target)

  unfoldable pub handle_commitment_proof :
      Outside floats sorted → CommitmentProof → Exec (NodeState floats sorted) (Unit {0})
  unfolding trigger_by_id match_if_known
  handle_commitment_proof out p =
      trigger_by_id out receive_commitment_proof (proof_kwargs p) p.offer_id
      >> ((λ w. match_if_known out p.offer_id (get w.matches p.offer_id) w) >>= λ message_target.
          dispatch (send_proven_offer_event p.offer_id message_target))

  unfoldable pub handle_cancellation_proof :
      Outside floats sorted → CommitmentProof → Exec (NodeState floats sorted) (Unit {0})
  unfolding trigger_by_id
  handle_cancellation_proof out p =
      trigger_by_id out receive_cancellation_proof no_kwargs p.offer_id

  -- `get_offer` may give None: the match is kept before its offer is asked to change state.
  unfoldable pub handle_taker_call :
      Outside floats sorted → ℕ → ℕ → CommitmentProof → Exec (NodeState floats sorted) (Unit {0})
  unfolding add_match matched
  handle_taker_call out offer_id initiator p w =
      let m = maker_match (get w.offers offer_id) initiator p in
      (add_match floats sorted offer_id m >> matched out offer_id m) w

  -- `match.offer.state == 'completed'`
  unfoldable pub is_completed_at : Option ℕ → NodeState floats sorted → Bool
  is_completed_at none w = false
  is_completed_at (some ref) w = elim (get_elem? w.heap ref) [
    | none ↦ false
    | some o ↦ same_offer_state o.state completed
  ]

  unfoldable pub inbound_of_match :
      Outside floats sorted → RaidenEvent → Option Match → Exec (NodeState floats sorted) (Unit {0})
  unfolding trigger_match is_completed_at
  inbound_of_match out r none = raise key_error
  inbound_of_match out r (some m) =
      trigger_match out received_inbound (record { proof = none; raiden_event = some r }) m >> λ w.
      (if is_completed_at m.offer w
          then in_timeouts floats sorted (clean_up_timeout r.identifier)
          else pure tt)
        w

  unfoldable pub handle_transfer_received :
      Outside floats sorted → RaidenEvent → Exec (NodeState floats sorted) (Unit {0})
  unfolding inbound_of_match
  handle_transfer_received out r w = inbound_of_match out r (get w.matches r.identifier) w

  -- `handle_state_change` with `handle_offer_state_change`
  unfoldable pub handle_state_change :
      Outside floats sorted → StateChange → Exec (NodeState floats sorted) (Unit {0})
  handle_state_change out (offer_timeout i t) = handle_offer_timeout out i
  handle_state_change out (commitment_proof_received p) = handle_commitment_proof out p
  handle_state_change out (cancellation_proof_received p) = handle_cancellation_proof out p
  handle_state_change out (new_limit_order fields) = handle_new_limit_order out fields
  handle_state_change out (cancel_limit_order i) = cancel_order floats sorted out i
  handle_state_change out (offer_published e) = handle_offer_published out e
  handle_state_change out (taker_call i a p) = handle_taker_call out i a p
  handle_state_change out (transfer_received r) = handle_transfer_received out r
  handle_state_change out (payment_failed_change i) = pure tt
