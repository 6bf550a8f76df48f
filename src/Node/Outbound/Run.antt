-- ===== src/Node/Outbound/Run.antt =====
-- The consumers of a node at work: `CommitmentServiceClient` of
-- raidex/raidex_node/commitment_service/client.py with its `handle_event`, `Transport` of
-- raidex/raidex_node/transport with its own, and the loop of `Consumer._run`, for the events that the
-- queues hold and those that these dispatch.
pub mod Outcome
pub mod Ends
use raidex.Prelude.{ℕ, ◌+◌, ◌≡◌, refl, Option, none, some, List, [], ◌∷◌, ◌++◌, ◌^◌}
use raidex.CommitmentService.Data.{CommitmentProof}
use raidex.Node.Offer.{BasicOffer}
use raidex.Messages.{
  SwapOffer, Body, NetMessage, commitment_body, execution_body, cancellation_body,
}
use raidex.Messages.Listeners.{TokenPair, commitment_message, proven_offer_message}
use raidex.Node.Inbound.Filters.{
  Listener, ListenerEvent, expect_inbound, handle_listener_event, handle_listener_events,
}
use raidex.Node.Outbound.Events.{
  Topic, broadcast, address, CommitmentServiceEvent, commit, commitment_proved,
  cancellation_request, received_inbound, TransportEvent, broadcast_message, send_proven_offer,
  cancellation, commitment, send_executed, TraderEvent, transfer_event, Event,
  commitment_service_event, transport_event, trader_event, raiden_listener_event, Processor, trader,
  cs_client, transport, raiden_listener, Queues, dispatch_events, set_queue,
}
use raidex.Node.Outbound.Trading.{TransferCall, ChannelRequest, trader_handle_event}

-- `COMMITMENT_AMOUNT` of raidex/constants.py
abbrev commitment_amount : ℕ
commitment_amount = 10 ^ 18

-- What the processors are made with: the market, the addresses of the commitment service and of the
-- token for the fees, that of the node, the hash of an offer, and the clock at each reading
pub record Settings : Type 0 where
  pub market : TokenPair
  pub commitment_service_address : ℕ
  pub fee_address : ℕ
  pub node_address : ℕ
  pub hash : SwapOffer → ℕ
  pub time_int : ℕ → ℕ

-- A message with its topic
abbrev pub Sent : Type 0
Sent = Topic × NetMessage

-- The queues, the readings of the clock, and what the handlers did
pub record Work : Type 0 where
  pub queues : Queues
  pub readings : ℕ
  pub sent : List Sent
  pub spawned : List TransferCall
  pub channels : List ChannelRequest
  pub listener : Listener
  pub waiting_for_taker : List BasicOffer

module _ (s : Settings) where
  -- `commit`, `received_inbound_from_swap` and `request_cancellation`: the events that they dispatch
  unfoldable pub commit_events : BasicOffer → List Event
  commit_events o =
      transport_event (commitment s.commitment_service_address o commitment_amount)
      ∷ trader_event
          (transfer_event s.fee_address s.commitment_service_address commitment_amount o.offer_id)
      ∷ []

  unfoldable pub received_inbound_from_swap : (offer_id reading : ℕ) → List Event
  received_inbound_from_swap i reading =
      transport_event (send_executed s.commitment_service_address i (s.time_int reading))
      ∷ raiden_listener_event (expect_inbound s.commitment_service_address i)
      ∷ []

  unfoldable pub request_cancellation : BasicOffer → List Event
  request_cancellation o =
      transport_event (cancellation s.commitment_service_address o.offer_id) ∷ []

  -- What `handle_event` of the client dispatches, and the offers that it spawns `wait_for_taker` for
  unfoldable pub cs_handle_event : CommitmentServiceEvent → (reading : ℕ) → List Event
  unfolding commit_events received_inbound_from_swap request_cancellation
  cs_handle_event (commit o) reading = commit_events o
  cs_handle_event (commitment_proved o) reading = []
  cs_handle_event (received_inbound o e) reading = received_inbound_from_swap o.offer_id reading
  cs_handle_event (cancellation_request o) reading = request_cancellation o

  unfoldable pub takers_awaited : CommitmentServiceEvent → List BasicOffer
  takers_awaited (commitment_proved o) = o ∷ []
  takers_awaited _ = []

  -- The readings of the clock that an event takes
  unfoldable pub clock_reads : CommitmentServiceEvent → ℕ
  clock_reads (received_inbound o e) = 1
  clock_reads _ = 0

  abbrev signed : Body → NetMessage
  signed b = record { body = b; sender = s.node_address }

  abbrev target_or_broadcast : Option ℕ → Topic
  target_or_broadcast none = broadcast
  target_or_broadcast (some a) = address a

  -- The target and the message of an event, which `handle_event` of the transport signs and sends; a
  -- message that was given to the event is sent as it is.
  unfoldable pub transport_handle_event : TransportEvent → Sent
  transport_handle_event (broadcast_message m) = (broadcast, m)
  transport_handle_event (send_proven_offer o proof target) =
      (target_or_broadcast target, proven_offer_message o proof s.market s.node_address)
  transport_handle_event (cancellation target i) =
      (address target, signed (cancellation_body (record { offer_id = i })))
  transport_handle_event (commitment target o amount) =
      (address target, signed (commitment_body (commitment_message s.hash o amount s.market)))
  transport_handle_event (send_executed target i time) =
      (address target, signed (execution_body (record { offer_id = i; timestamp = time })))

  -- `on_event` of the consumers; no handler does anything with an event of another class.
  unfoldable pub on_event : Processor → Event → Work → Work
  unfolding trader_handle_event cs_handle_event transport_handle_event handle_listener_event
      dispatch_events takers_awaited clock_reads
  on_event trader (trader_event e) w = record w {
    spawned = w.spawned ++ (trader_handle_event s.market e).0;
    channels = w.channels ++ (trader_handle_event s.market e).1;
  }
  on_event cs_client (commitment_service_event e) w = record w {
    queues = dispatch_events (cs_handle_event e w.readings) w.queues;
    readings = w.readings + clock_reads e;
    waiting_for_taker = w.waiting_for_taker ++ takers_awaited e;
  }
  on_event transport (transport_event e) w = record w {
    sent = w.sent ++ transport_handle_event e ∷ [];
  }
  on_event raiden_listener (raiden_listener_event e) w = record w {
    listener = handle_listener_event e w.listener;
  }
  on_event _ _ w = w

  abbrev next_event : Processor → List Event → Work → Work
  next_event p [] w = w
  next_event p (e ∷ rest) w = on_event p e (record w { queues = set_queue p rest w.queues })

  -- A turn of a consumer's loop, which waits where its queue is empty
  unfoldable pub consume : Processor → Work → Work
  unfolding on_event set_queue
  consume p w = next_event p (w.queues p) w

  -- The turns of the consumers in some order
  unfoldable pub run : List Processor → Work → Work
  unfolding consume
  run [] w = w
  run (p ∷ ps) w = run ps (consume p w)
