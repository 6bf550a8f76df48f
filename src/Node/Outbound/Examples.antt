-- ===== src/Node/Outbound/Examples.antt =====
-- A node that commits to an offer and saw the payment for another one.
use raidex.Prelude.{ℕ, ◌+◌, ◌≡◌, refl, arith, List, [], ◌∷◌}
use raidex.CommitmentService.Data.{CommitmentProof}
use raidex.Messages.Listeners.{TokenPair}
use raidex.Node.Offer.{BasicOffer, buy}
use raidex.Node.Order.Fsm.{TraderRole, maker, taker, create_from_basic}
use raidex.Node.Inbound.Filters.{new_listener}
use raidex.Node.Outbound.Events.{
  MatchData, commitment_service_event, commit, received_inbound, Processor, trader, cs_client,
  transport, raiden_listener, Queues, set_queue, dispatch_events, put_event, takes,
}
use raidex.Node.Outbound.Trading.{
  TraderClient, transfer, initiate_exchange, expect_terms, exchange_terms, Paid,
  initiate_exchange-swaps,
}
use raidex.Node.Outbound.Run.{Settings, Work, run, consume, on_event, cs_handle_event}
use raidex.Node.Outbound.Run.Outcome.{did, outcome, IsIdle, run-did}
use raidex.Node.Outbound.Run.Ends.{rounds, work_left, rounds_complete}

abbrev market : TokenPair
market = record { base_token = 1; quote_token = 2 }

abbrev basic : ℕ → BasicOffer
basic i = record {
  offer_id = i;
  type = buy;
  base_amount = 10;
  quote_amount = 20;
  timeout_date = 900;
}

abbrev proof : ℕ → CommitmentProof
proof n = record { commitment_sig = n; secret = n + 1; secret_hash = n + 2; offer_id = 5 }

abbrev client : TraderClient
client = record { paid = 0; posted = [] }

initiate_exchange-swaps_example :
    let side : TraderRole → ℕ → CommitmentProof → MatchData = λ role target proof. record {
      offer = create_from_basic (basic 5) maker;
      trader_role = role;
      target = target;
      commitment_proof = proof;
    } in
    (transfer 200 (initiate_exchange market (side maker 7 (proof 30))) client
      ≡ Paid (exchange_terms market buy 10 20) 7 5 (proof 30) 200 client)
    × (transfer 200 (initiate_exchange market (side taker 8 (proof 40))) client
        ≡ Paid (expect_terms market buy 10 20) 8 5 (proof 40) 200 client)
unfolding create_from_basic
initiate_exchange-swaps_example =
    initiate_exchange-swaps market (create_from_basic (basic 5) maker) 7 8 (proof 30) (proof 40) 200
      client

abbrev settings : Settings
settings = record {
  market = market;
  commitment_service_address = 90;
  fee_address = 91;
  node_address = 92;
  hash = λ o. o.offer_id + 1000;
  time_int = λ n. 500 + n;
}

abbrev first_queues : Queues
first_queues p = elim p [
  | cs_client ↦
      commitment_service_event (commit (basic 5))
      ∷ commitment_service_event
          (received_inbound (basic 6) (record { initiator = 8; amount = 10; identifier = 6 }))
      ∷ []
  | _ ↦ []
]

abbrev start : Work
start = record {
  queues = first_queues;
  readings = 0;
  sent = [];
  spawned = [];
  channels = [];
  listener = new_listener;
  waiting_for_taker = [];
}

abbrev turns : List Processor
turns = cs_client ∷ transport ∷ cs_client ∷ raiden_listener ∷ trader ∷ transport ∷ []

turns-IsIdle : IsIdle (run settings turns start)
unfolding run consume on_event set_queue dispatch_events put_event takes cs_handle_event IsIdle
turns-IsIdle trader = refl
turns-IsIdle cs_client = refl
turns-IsIdle transport = refl
turns-IsIdle raiden_listener = refl

run-did_example : did settings (run settings turns start) ≡ outcome settings start
run-did_example = run-did settings turns start turns-IsIdle

rounds_complete_example :
    IsIdle (run settings (rounds 6) start)
    × (did settings (run settings (rounds 6) start) ≡ outcome settings start)
unfolding work_left
rounds_complete_example = rounds_complete settings 6 start (omega arith)
