-- ===== src/Node/Outbound/Events.antt =====
-- The events of raidex/raidex_node/{commitment_service,transport,trader}/events.py, and
-- `_dispatch` and `Consumer` of raidex/raidex_node/architecture/event_architecture.py. An event that
-- holds an offer or a match has the object's fields here.
use raidex.Prelude.{ℕ, Bool, true, false, Option, List, [], ◌∷◌, ◌++◌, if◌then◌else◌}
use raidex.CommitmentService.Data.{CommitmentProof}
use raidex.Node.Offer.{BasicOffer}
use raidex.Node.Order.Fsm.{TraderRole, Offer, RaidenEvent}
use raidex.Node.Inbound.Filters.{ListenerEvent}
use raidex.Messages.{NetMessage}

-- A match with the fields of its offer
pub record MatchData : Type 0 where
  pub offer : Offer
  pub trader_role : TraderRole
  pub target : ℕ
  pub commitment_proof : CommitmentProof

-- Topics: the word 'broadcast' or an address
pub data Topic : Type 0 where
  broadcast : Topic
  address : ℕ → Topic

pub data CommitmentServiceEvent : Type 0 where
  commit commitment_proved cancellation_request : BasicOffer → CommitmentServiceEvent
  received_inbound : BasicOffer → RaidenEvent → CommitmentServiceEvent

-- The proof of `send_proven_offer` is the one that the offer has when the message is made.
pub data TransportEvent : Type 0 where
  broadcast_message : NetMessage → TransportEvent
  send_proven_offer : BasicOffer → CommitmentProof → Option ℕ → TransportEvent
  cancellation : (target offer_id : ℕ) → TransportEvent
  commitment : (target : ℕ) → BasicOffer → (commitment_amount : ℕ) → TransportEvent
  send_executed : (target offer_id timestamp : ℕ) → TransportEvent

pub data TraderEvent : Type 0 where
  transfer_event : (token target amount identifier : ℕ) → TraderEvent
  swap_init : MatchData → TraderEvent
  make_channel_event : (partner_address token_address total_deposit : ℕ) → TraderEvent

pub data Event : Type 0 where
  commitment_service_event : CommitmentServiceEvent → Event
  transport_event : TransportEvent → Event
  trader_event : TraderEvent → Event
  raiden_listener_event : ListenerEvent → Event

-- The processors of the consumers that `App._setup_event_handling` connects
pub data Processor : Type 0 where
  trader cs_client transport raiden_listener : Processor

-- `isinstance(event, consumer.get_types())`
unfoldable pub takes : Processor → Event → Bool
takes trader (trader_event e) = true
takes cs_client (commitment_service_event e) = true
takes transport (transport_event e) = true
takes raiden_listener (raiden_listener_event e) = true
takes _ _ = false

-- The queues of the consumers
abbrev pub Queues : Type 0
Queues = Processor → List Event

-- The inner loop of `_dispatch`, at each consumer
unfoldable pub put_event : Event → Queues → Queues
unfolding takes
put_event e q p = if takes p e then q p ++ e ∷ [] else q p

-- `_dispatch`
unfoldable pub dispatch_events : List Event → Queues → Queues
unfolding put_event
dispatch_events [] q = q
dispatch_events (e ∷ es) q = dispatch_events es (put_event e q)

abbrev pub same_processor : Processor → Processor → Bool
same_processor trader trader = true
same_processor cs_client cs_client = true
same_processor transport transport = true
same_processor raiden_listener raiden_listener = true
same_processor _ _ = false

-- `queue.get()` leaves the rest of a queue.
unfoldable pub set_queue : Processor → List Event → Queues → Queues
set_queue p rest q r = if same_processor r p then rest else q r
