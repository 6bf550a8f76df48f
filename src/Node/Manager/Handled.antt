-- ===== src/Node/Manager/Handled.antt =====
-- The handlers of raidex/raidex_node/handle_state_change.py leave every offer of a node settled.
use raidex.Prelude.{ℕ, Bool, true, false, Option, none, some, List, [], ◌∷◌, suc, if◌then◌else◌}
use raidex.Dict.{get, put, contains}
use raidex.Exec.{Exec, pure, ◌>>=◌, ◌>>◌, ignore}
use raidex.CommitmentService.Data.{CommitmentProof}
use raidex.Node.Offer.{Floats, OfferBookEntry, entry_id}
use raidex.Node.OfferBook.{empty_book, book_contains, insert_offer}
use raidex.Node.OfferBook.View.{OfferDict}
use raidex.Node.Timeouts.{clean_up_timeout, create_new_timeout, fire_timeout}
use raidex.Node.Order.Fsm.{
  no_kwargs, receive_commitment_proof, found_match, received_inbound, IsOfferMachine, RaidenEvent,
  send_proven_offer_event, swap_init_event, expect_inbound_event,
}
use raidex.Node.Order.Limit.{OrderData, from_dict}
use raidex.Node.Order.Lifecycle.{
  OfferCall, time_out, cancel, publish, match_found, prove, inbound, trigger_of_call,
  kwargs_of_call,
}
use raidex.Node.Manager.{Match, maker_match, NodeState, Outside, in_timeouts, in_book, add_match}
use raidex.Node.Manager.Handlers.{
  StateChange, offer_timeout, commitment_proof_received, cancellation_proof_received,
  new_limit_order, cancel_limit_order, offer_published, taker_call, transfer_received,
  payment_failed_change, trigger_found, trigger_by_id, trigger_match, matched, time_out_offer,
  handle_offer_timeout, handle_new_limit_order, publish_offer, handle_offer_published,
  match_if_known, handle_commitment_proof, handle_cancellation_proof, handle_taker_call,
  is_completed_at, inbound_of_match, handle_transfer_received, handle_state_change, dispatch,
}
use raidex.Node.Manager.Sound.{
  IsSound, Keeps, bind-Keeps, trigger_offer-Keeps, process_order-Keeps, cancel_order-Keeps,
}

module _ (floats : Floats) (sorted : OfferDict floats) where
  -- What comes to a node: a state change, or the greenlet of a timeout runs and is dead. It only
  -- dispatches its OfferTimeoutStateChange, which is handled like any other.
  pub data NodeInput : Type 0 where
    change : StateChange floats sorted → NodeInput
    greenlet_runs : (offer_id : ℕ) → NodeInput

  -- The inputs in order. A handler that raises leaves what it has written.
  unfoldable pub handle_all :
      Outside floats sorted → List NodeInput → NodeState floats sorted → NodeState floats sorted
  unfolding fire_timeout
  handle_all out [] w = w
  handle_all out (change c ∷ cs) w = handle_all out cs (handle_state_change floats sorted out c w).1
  handle_all out (greenlet_runs i ∷ cs) w =
      handle_all out cs (record w { timeouts = fire_timeout i w.timeouts })

  -- A node at its start, at a time
  unfoldable pub new_node : ℕ → NodeState floats sorted
  new_node now = record {
    heap = [];
    offers = [];
    orders = [];
    matches = [];
    timeouts = [];
    book = empty_book floats sorted;
    dispatched = [];
    ids_made = 0;
    now = now;
  }

  module _ (out : Outside floats sorted) (machine : IsOfferMachine out.fire) where
    trigger_found-Keeps :
        (c : OfferCall) (found : Option ℕ)
        → Keeps floats sorted
            (trigger_found floats sorted out (trigger_of_call c) (kwargs_of_call c) found)
    unfolding trigger_found
    trigger_found-Keeps c none = λ w h. h
    trigger_found-Keeps c (some ref) = trigger_offer-Keeps floats sorted out machine c ref

    trigger_by_id-Keeps :
        (c : OfferCall) (offer_id : ℕ)
        → Keeps floats sorted
            (trigger_by_id floats sorted out (trigger_of_call c) (kwargs_of_call c) offer_id)
    unfolding trigger_by_id
    trigger_by_id-Keeps c offer_id w h = trigger_found-Keeps c (get w.offers offer_id) w h

    matched-Keeps :
        (offer_id : ℕ) (m : Match) → Keeps floats sorted (matched floats sorted out offer_id m)
    unfolding matched trigger_match
    matched-Keeps offer_id m =
        bind-Keeps floats sorted (trigger_found floats sorted out found_match no_kwargs m.offer)
          (λ _.
            dispatch floats sorted (swap_init_event offer_id)
            >> dispatch floats sorted (expect_inbound_event m.target offer_id))
          (trigger_found-Keeps match_found m.offer) (λ _ w h. h)

    time_out_offer-Keeps :
        (offer_id : ℕ) (own known : Bool)
        → Keeps floats sorted (time_out_offer floats sorted out offer_id own known)
    unfolding time_out_offer
    time_out_offer-Keeps offer_id true known = trigger_by_id-Keeps time_out offer_id
    time_out_offer-Keeps offer_id false true = λ w h. h
    time_out_offer-Keeps offer_id false false = λ w h. h

    handle_offer_timeout-Keeps :
        (offer_id : ℕ) → Keeps floats sorted (handle_offer_timeout floats sorted out offer_id)
    unfolding handle_offer_timeout
    handle_offer_timeout-Keeps offer_id =
        bind-Keeps floats sorted
          (λ w.
            time_out_offer floats sorted out offer_id (contains w.offers offer_id)
              (book_contains floats sorted offer_id w.book) w)
          (λ _. in_timeouts floats sorted (clean_up_timeout offer_id))
          (λ w h.
            time_out_offer-Keeps offer_id (contains w.offers offer_id)
              (book_contains floats sorted offer_id w.book) w h)
          (λ _ w h. h)

    handle_new_limit_order-Keeps :
        (fields : OrderData (floats.Float))
        → Keeps floats sorted (handle_new_limit_order floats sorted out fields)
    unfolding handle_new_limit_order
    handle_new_limit_order-Keeps fields w h =
        process_order-Keeps floats sorted out machine
          (from_dict floats.Float (out.new_id w.ids_made) fields)
          (record w {
            ids_made = (elim fields.order_id [ none ↦ suc w.ids_made | some i ↦ w.ids_made ]);
          })
          h

    ignore-Keeps :
        {A : Type 0} (f : Exec (NodeState floats sorted) A)
        → Keeps floats sorted f
        → Keeps floats sorted (ignore f)
    ignore-Keeps f hf = bind-Keeps floats sorted f (λ _. pure tt) hf (λ _ w h. h)

    publish_offer-Keeps :
        (e : OfferBookEntry) (own : Bool)
        → Keeps floats sorted (publish_offer floats sorted out e own)
    unfolding publish_offer
    publish_offer-Keeps e true = trigger_by_id-Keeps publish (entry_id e)
    publish_offer-Keeps e false =
        bind-Keeps floats sorted (ignore (in_book floats sorted (insert_offer floats sorted e)))
          (λ _.
            ignore
              (in_timeouts floats sorted (create_new_timeout (entry_id e) e.offer.timeout_date 10)))
          (ignore-Keeps (in_book floats sorted (insert_offer floats sorted e)) (λ w h. h))
          (λ _.
            ignore-Keeps
              (in_timeouts floats sorted (create_new_timeout (entry_id e) e.offer.timeout_date 10))
              (λ w h. h))

    match_if_known-Keeps :
        (offer_id : ℕ) (found : Option Match)
        → Keeps floats sorted (match_if_known floats sorted out offer_id found)
    unfolding match_if_known
    match_if_known-Keeps offer_id none = λ w h. h
    match_if_known-Keeps offer_id (some m) =
        bind-Keeps floats sorted (matched floats sorted out offer_id m) (λ _. pure (some m.target))
          (matched-Keeps offer_id m) (λ _ w h. h)

    handle_commitment_proof-Keeps :
        (p : CommitmentProof) → Keeps floats sorted (handle_commitment_proof floats sorted out p)
    unfolding handle_commitment_proof
    handle_commitment_proof-Keeps p =
        let known : Exec (NodeState floats sorted) (Option ℕ) =
          λ w. match_if_known floats sorted out p.offer_id (get w.matches p.offer_id) w in
        bind-Keeps floats sorted
          (trigger_by_id floats sorted out receive_commitment_proof (kwargs_of_call (prove p))
            p.offer_id)
          (λ _. known >>= λ message_target.
            dispatch floats sorted (send_proven_offer_event p.offer_id message_target))
          (trigger_by_id-Keeps (prove p) p.offer_id)
          (λ _.
            bind-Keeps floats sorted known
              (λ message_target.
                dispatch floats sorted (send_proven_offer_event p.offer_id message_target))
              (λ w h. match_if_known-Keeps p.offer_id (get w.matches p.offer_id) w h) (λ _ w h. h))

    handle_taker_call-Keeps :
        (offer_id initiator : ℕ) (p : CommitmentProof)
        → Keeps floats sorted (handle_taker_call floats sorted out offer_id initiator p)
    unfolding handle_taker_call add_match
    handle_taker_call-Keeps offer_id initiator p w h =
        let m = maker_match (get w.offers offer_id) initiator p in
        matched-Keeps offer_id m (record w { matches = put w.matches offer_id m }) h

    cleaned-Keeps :
        (b : Bool) (offer_id : ℕ)
        → Keeps floats sorted
            (if b then in_timeouts floats sorted (clean_up_timeout offer_id) else pure tt)
    cleaned-Keeps true offer_id w h = h
    cleaned-Keeps false offer_id w h = h

    inbound_of_match-Keeps :
        (r : RaidenEvent) (found : Option Match)
        → Keeps floats sorted (inbound_of_match floats sorted out r found)
    unfolding inbound_of_match trigger_match
    inbound_of_match-Keeps r none = λ w h. h
    inbound_of_match-Keeps r (some m) =
        bind-Keeps floats sorted
          (trigger_found floats sorted out received_inbound (kwargs_of_call (inbound r)) m.offer)
          (λ _ w.
            (if is_completed_at floats sorted m.offer w
                then in_timeouts floats sorted (clean_up_timeout r.identifier)
                else pure tt)
              w)
          (trigger_found-Keeps (inbound r) m.offer)
          (λ _ w h. cleaned-Keeps (is_completed_at floats sorted m.offer w) r.identifier w h)

    handle_state_change-Keeps :
        (c : StateChange floats sorted)
        → Keeps floats sorted (handle_state_change floats sorted out c)
    unfolding handle_state_change handle_offer_published handle_transfer_received
        handle_cancellation_proof
    handle_state_change-Keeps (offer_timeout i t) = handle_offer_timeout-Keeps i
    handle_state_change-Keeps (commitment_proof_received p) = handle_commitment_proof-Keeps p
    handle_state_change-Keeps (cancellation_proof_received p) =
        trigger_by_id-Keeps cancel p.offer_id
    handle_state_change-Keeps (new_limit_order fields) = handle_new_limit_order-Keeps fields
    handle_state_change-Keeps (cancel_limit_order i) =
        cancel_order-Keeps floats sorted out machine i
    handle_state_change-Keeps (offer_published e) =
        λ w h. publish_offer-Keeps e (contains w.offers (entry_id e)) w h
    handle_state_change-Keeps (taker_call i a p) = handle_taker_call-Keeps i a p
    handle_state_change-Keeps (transfer_received r) =
        λ w h. inbound_of_match-Keeps r (get w.matches r.identifier) w h
    handle_state_change-Keeps (payment_failed_change i) = λ w h. h

    handle_all-Keeps :
        (cs : List NodeInput) (w : NodeState floats sorted)
        → IsSound floats sorted w
        → IsSound floats sorted (handle_all out cs w)
    unfolding handle_all
    handle_all-Keeps [] w h = h
    handle_all-Keeps (change c ∷ cs) w h = handle_all-Keeps cs _ (handle_state_change-Keeps c w h)
    handle_all-Keeps (greenlet_runs i ∷ cs) w h =
        handle_all-Keeps cs (record w { timeouts = fire_timeout i w.timeouts }) h

    -- Whatever state changes a node handles from its start, and whichever greenlets of timeouts run
    -- among them, in whatever order, every offer that it has made is in a state without children,
    -- has the status of that state, and has a commitment proof from `proved` on.
    pub handle_all-IsSound :
        (now : ℕ) (cs : List NodeInput) → IsSound floats sorted (handle_all out cs (new_node now))
    unfolding new_node
    handle_all-IsSound now cs = handle_all-Keeps cs (new_node now) tt
