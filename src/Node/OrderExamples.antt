-- ===== src/Node/OrderExamples.antt =====
-- An order with two offers in their states, and runs of the machine of the offers.
use raidex.Prelude.{ℕ, ◌*◌, ◌+◌, ◌≡◌, refl, true, none, some, List, [], ◌∷◌}
use raidex.Dict
use raidex.Exec.{raised, machine_error, type_error}
use raidex.CommitmentService.Data.{CommitmentProof}
use raidex.Node.Offer.{BasicOffer, buy}
use raidex.Node.Examples.{floats, sorted}
use raidex.Node.Order.Fsm.{
  Offer, maker, taker, published, completed, open_, cancellation_requested, commit_event,
  received_inbound_event, cancellation_request_event, offer_transitions, run_trigger, Model,
  OfferTrigger, is_declared, initiating, to_state, pending, receive_commitment_proof,
  received_inbound, Kwargs, timeout, no_kwargs, Fire, IsOfferMachine, RaidenEvent, status_of,
}
use raidex.Node.Order.Lifecycle.{
  Agrees, StatusAgrees, run_triggers, initiate, prove, publish, match_found, time_out, cancel,
  inbound, new_model, run_calls, run_calls-Agrees, is_final, fire-final, next_state,
  run_calls-completes,
}
use raidex.Node.OfferBook.{empty_book}
use raidex.Node.Order.Limit.{HasStatus, Reports, order-Reports, LimitOrder, get_open_offers}
use raidex.Node.Timeouts.{Timeouts}
use raidex.Node.Manager.{NodeState, Outside, cancel_order}
use raidex.Node.Manager.Sound.{IsSound}
use raidex.Node.Manager.Handlers.{
  new_limit_order, commitment_proof_received, taker_call, transfer_received,
}
use raidex.Node.Manager.Handled.{
  NodeInput, change, greenlet_runs, handle_all, new_node, handle_all-IsSound,
}
use raidex.Node.Manager.Cancel.{cancel_order-stops}

abbrev fire : Fire
fire = run_trigger offer_transitions

machine : IsOfferMachine fire
machine = record { fires = λ t k m. refl }

abbrev out : Outside floats sorted
out = record { fire = fire; new_id = λ n. 70 + n; quote_for = λ amount p. amount * p }

abbrev basic : ℕ → BasicOffer
basic i = record {
  offer_id = i;
  type = buy;
  base_amount = 10;
  quote_amount = 20;
  timeout_date = 900;
}

abbrev proof : CommitmentProof
proof = record { commitment_sig = 1; secret = 2; secret_hash = 3; offer_id = 70 }

abbrev payment : RaidenEvent
payment = record { initiator = 4; amount = 10; identifier = 70 }

-- Two calls with other arguments than those of the handlers, and one that the package adds
abbrev odd_calls : List (OfferTrigger × Kwargs)
odd_calls =
    (initiating, no_kwargs)
    ∷ (receive_commitment_proof, no_kwargs)
    ∷ (to_state pending, no_kwargs)
    ∷ (received_inbound, no_kwargs)
    ∷ []

run_calls-Agrees_example :
    StatusAgrees (run_triggers fire odd_calls (new_model (basic 70) maker))
    × Agrees (
        run_calls fire
          (initiate ∷ prove proof ∷ publish ∷ time_out ∷ match_found ∷ cancel ∷ [])
          (new_model (basic 70) maker))
run_calls-Agrees_example =
    run_calls-Agrees fire machine (basic 70) maker odd_calls
      (initiate ∷ prove proof ∷ publish ∷ time_out ∷ match_found ∷ cancel ∷ [])

run_calls-completes_example :
    run_calls fire
      (initiate ∷ prove proof ∷ match_found ∷ inbound payment ∷ inbound payment ∷ [])
      (new_model (basic 70) taker)
    ≡ record {
      offer = record {
        basic = basic 70;
        trader_role = taker;
        proof = some proof;
        state = completed;
        status = completed;
      };
      dispatched = commit_event 70 ∷ received_inbound_event 70 payment ∷ [];
    }
run_calls-completes_example =
    run_calls-completes fire machine (basic 70) taker proof payment payment

abbrev done : Model
done = record {
  offer = record {
    basic = basic 70;
    trader_role = taker;
    proof = some proof;
    state = completed;
    status = completed;
  };
  dispatched = [];
}

fire-final_example : fire timeout no_kwargs done ≡ (raised machine_error, done)
unfolding is_final is_declared
fire-final_example = fire-final fire machine timeout no_kwargs done refl refl

abbrev traded_offer : Offer
traded_offer = done.offer

abbrev published_offer : ℕ → Offer
published_offer i = record {
  basic = basic i;
  trader_role = maker;
  proof = some proof;
  state = published;
  status = open_;
}

order-Reports_example : Reports (traded_offer ∷ published_offer 71 ∷ [])
unfolding HasStatus status_of
order-Reports_example = order-Reports (traded_offer ∷ published_offer 71 ∷ []) (refl, (refl, tt))

abbrev timeouts : Timeouts
timeouts = (70, record { timeout_date = 900; threshold = 0; dead = true }) ∷ []

abbrev changes : List (NodeInput floats sorted)
changes =
    change (
      new_limit_order
        (record { order_id = some 1; is_buy = true; amount = 10; price = 2; lifetime = none }))
    ∷ change (commitment_proof_received proof)
    ∷ change (taker_call 70 4 proof)
    ∷ greenlet_runs 70
    ∷ change (transfer_received payment)
    ∷ []

handle_all-IsSound_example :
    IsSound floats sorted (handle_all floats sorted out changes (new_node floats sorted 100))
handle_all-IsSound_example = handle_all-IsSound floats sorted out machine 100 changes

abbrev order : LimitOrder ℕ
order = record {
  order_id = 1;
  order_type = buy;
  amount = 20;
  price = 2;
  lifetime = 60;
  corresponding_offers = (70, 0) ∷ (71, 1) ∷ [];
}

abbrev node : NodeState floats sorted
node = record {
  heap = published_offer 70 ∷ published_offer 71 ∷ [];
  offers = (70, 0) ∷ (71, 1) ∷ [];
  orders = (1, order) ∷ [];
  matches = [];
  timeouts = [];
  book = empty_book floats sorted;
  dispatched = [];
  ids_made = 0;
  now = 100;
}

cancel_order-stops_example : cancel_order floats sorted out 1 node ≡ (
  raised type_error,
  record node {
    heap = record (published_offer 70) { state = cancellation_requested } ∷ published_offer 71 ∷ [];
    dispatched = cancellation_request_event 70 ∷ [];
  },
)
unfolding Dict.get Dict.values get_open_offers next_state
cancel_order-stops_example =
    cancel_order-stops floats sorted out machine node 1 0 (1 ∷ []) order (published_offer 70) refl
      refl refl refl
