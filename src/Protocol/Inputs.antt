-- ===== src/Protocol/Inputs.antt =====
-- What the tasks of the commitment service (raidex/commitment_service/tasks.py) get of what a node's
-- client (raidex/raidex_node/commitment_service/client.py) dispatches. The listeners of the service
-- are on the topic of its address, and its trader gets the transfers to its address, of any token.
use raidex.Prelude.{ℕ, ◌^◌, ◌≡◌, Bool, true, false, List, [], ◌∷◌, ◌++◌, ◌==◌, if◌then◌else◌}
use raidex.Messages.{NetMessage, commitment_body, execution_body, completed_body, cancellation_body}
use raidex.CommitmentService.Data.{Commitment, TransferReceipt}
use raidex.CommitmentService.Service.{Input, commitment, transfer, execution, cancellation}
use raidex.Messages.Listeners.{create_offer_msg}
use raidex.Node.Offer.{BasicOffer}
use raidex.Node.Outbound.Events.{Topic, broadcast, address, transport_event, trader_event}
use raidex.Node.Outbound.Trading.{TransferCall, transfer_async, trader_handle_event}
use raidex.Node.Outbound.Run.{
  Settings, Sent, transport_handle_event, commit_events, received_inbound_from_swap,
}
use raidex.Node.Outbound.Events

-- What the listeners of the service take from a message, with its signature, and the secret that a
-- new swap draws
unfoldable pub taken_from : (signature secret : ℕ) → NetMessage → List Input
taken_from signature secret m = elim m.body [
  | commitment_body c ↦
      commitment
        (record {
          offer_id = c.offer_id;
          offer_hash = c.offer_hash;
          timeout = c.timeout;
          amount = c.amount;
          signature = signature;
          sender = m.sender;
        })
        secret
      ∷ []
  | execution_body e ↦
      execution (record { offer_id = e.offer_id; timestamp = e.timestamp; sender = m.sender }) ∷ []
  | completed_body e ↦
      execution (record { offer_id = e.offer_id; timestamp = e.timestamp; sender = m.sender }) ∷ []
  | cancellation_body c ↦ cancellation c.offer_id ∷ []
  | _ ↦ []
]

-- What they take of what a node sends: the messages on the topic of the service
unfoldable pub heard : (service signature secret : ℕ) → Sent → List Input
unfolding taken_from
heard service signature secret (broadcast, m) = []
heard service signature secret (address a, m) =
    if a == service then taken_from signature secret m else []

-- The receipts of the transfers of a node to the service, at a time
unfoldable pub receipts : (service initiator time : ℕ) → List TransferCall → List Input
receipts service initiator time [] = []
receipts service initiator time (t ∷ ts) =
    let rest = receipts service initiator time ts in
    if t.target_address == service
    then transfer (record {
      initiator = initiator;
      amount = t.amount;
      identifier = t.identifier;
      timestamp = time;
    })
      ∷ rest
    else rest

-- The transfers of a node for its events
unfoldable pub transfers_of : Settings → List (Events.Event) → List TransferCall
transfers_of s [] = []
transfers_of s (trader_event e ∷ es) = (trader_handle_event s.market e).0 ++ transfers_of s es
transfers_of s (_ ∷ es) = transfers_of s es

-- What comes to the service of the events of a node
unfoldable pub arrivals :
    (service : ℕ) → Settings → (signature secret time : ℕ) → List (Events.Event) → List Input
unfolding heard receipts
arrivals service s signature secret time [] = []
arrivals service s signature secret time (transport_event e ∷ es) =
    heard service signature secret (transport_handle_event s e)
    ++ arrivals service s signature secret time es
arrivals service s signature secret time (trader_event e ∷ es) =
    receipts service s.node_address time (trader_handle_event s.market e).0
    ++ arrivals service s signature secret time es
arrivals service s signature secret time (_ ∷ es) = arrivals service s signature secret time es

-- What a node's request to commit to an offer is to the service
abbrev pub commitment_from : Settings → BasicOffer → (signature : ℕ) → Commitment
commitment_from s o signature = record {
  offer_id = o.offer_id;
  offer_hash = s.hash (create_offer_msg o s.market);
  timeout = o.timeout_date;
  amount = 10 ^ 18;
  signature = signature;
  sender = s.node_address;
}

abbrev pub receipt_from : Settings → BasicOffer → (time : ℕ) → TransferReceipt
receipt_from s o time = record {
  initiator = s.node_address;
  amount = 10 ^ 18;
  identifier = o.offer_id;
  timestamp = time;
}

-- A node that commits to an offer and later reports that the swap came in: the signature and the
-- reading of the clock at the report
pub record Side : Type 0 where
  pub node : Settings
  pub signature : ℕ
  pub paid_at : ℕ
  pub reading : ℕ

module _ (service : ℕ) (o : BasicOffer) where
  unfoldable pub commits : (secret : ℕ) → Side → List Input
  unfolding arrivals commit_events
  commits secret p = arrivals service p.node p.signature secret p.paid_at (commit_events p.node o)

  unfoldable pub reports : Side → List Input
  unfolding arrivals received_inbound_from_swap
  reports p = arrivals service p.node 0 0 0 (received_inbound_from_swap p.node o.offer_id p.reading)

  abbrev in_order : Bool → List Input → List Input → List Input
  in_order true xs ys = xs ++ ys
  in_order false xs ys = ys ++ xs

  -- The inputs of the service in a swap
  unfoldable pub swap_inputs : (secret other_secret : ℕ) → Bool → (maker taker : Side) → List Input
  unfolding commits reports
  swap_inputs secret other maker_first maker taker =
      commits secret maker
      ++ (commits other taker ++ in_order maker_first (reports maker) (reports taker))

  -- A node that commits makes one transfer, to the service, in the token of the fees.
  abbrev pub PaysService : Side → Type 0
  PaysService p =
      transfers_of p.node (commit_events p.node o)
      ≡ transfer_async p.node.fee_address service (10 ^ 18) o.offer_id ∷ []
