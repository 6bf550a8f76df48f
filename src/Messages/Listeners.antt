-- ===== src/Messages/Listeners.antt =====
-- What the listeners of raidex/message_broker/listeners.py make of a message, the market of
-- raidex/raidex_node/market.py, and the messages of raidex/raidex_node/transport/events.py.
use raidex.Prelude.{ℕ, ◌≡◌, ◌≢◌, refl, Option, none, some, ◌==◌, ◌&&◌, if◌then◌else◌, arith}
use raidex.Exec.{Result, ok, raised, assertion_error}
use raidex.CommitmentService.Data.{CommitmentProof}
use raidex.Node.Offer.{OfferType, buy, sell, BasicOffer, OfferBookEntry}
use raidex.Messages.{
  SwapOffer, CommitmentFields, Body, NetMessage, proven_offer_body, commitment_body,
  commitment_proof_body, execution_body, completed_body, taken_body, cancellation_body,
  cancellation_proof_body,
}

-- `TokenPair`
pub record TokenPair : Type 0 where
  pub base_token : ℕ
  pub quote_token : ℕ

unfoldable pub get_offer_type : TokenPair → (ask_token bid_token : ℕ) → Option OfferType
get_offer_type market ask_token bid_token =
    if ask_token == market.base_token && bid_token == market.quote_token
    then some buy
    else if ask_token == market.quote_token && bid_token == market.base_token
    then some sell
    else none

-- `_create_offer_msg`
abbrev offer_msg_of_type : OfferType → BasicOffer → TokenPair → SwapOffer
offer_msg_of_type sell offer market = record {
  ask_token = market.quote_token;
  ask_amount = offer.quote_amount;
  bid_token = market.base_token;
  bid_amount = offer.base_amount;
  offer_id = offer.offer_id;
  timeout = offer.timeout_date;
}
offer_msg_of_type buy offer market = record {
  ask_token = market.base_token;
  ask_amount = offer.base_amount;
  bid_token = market.quote_token;
  bid_amount = offer.quote_amount;
  offer_id = offer.offer_id;
  timeout = offer.timeout_date;
}

unfoldable pub create_offer_msg : BasicOffer → TokenPair → SwapOffer
create_offer_msg offer market = offer_msg_of_type offer.type offer market

-- `SendProvenOfferEvent._generate_message`, signed by a sender
unfoldable pub proven_offer_message : BasicOffer → CommitmentProof → TokenPair → ℕ → NetMessage
unfolding create_offer_msg
proven_offer_message offer proof market sender = record {
  body =
      proven_offer_body
        (record { offer = create_offer_msg offer market; commitment_proof = proof });
  sender = sender;
}

-- `CommitmentEvent._generate_message`; `hash` is the keccak hash of the encoded offer.
unfoldable pub commitment_message : (SwapOffer → ℕ) → BasicOffer → ℕ → TokenPair → CommitmentFields
unfolding create_offer_msg
commitment_message hash offer commitment_amount market = record {
  offer_id = offer.offer_id;
  offer_hash = hash (create_offer_msg offer market);
  timeout = offer.timeout_date;
  amount = commitment_amount;
}

-- The entry that `OfferListener._transform` makes, by the type of the offer
abbrev entry_of_type :
    Option OfferType → SwapOffer → ℕ → CommitmentProof → Result (Option OfferBookEntry)
entry_of_type none msg sender proof = raised assertion_error
entry_of_type (some buy) msg sender proof = ok (
    some (record {
      offer = record {
        offer_id = msg.offer_id;
        type = buy;
        base_amount = msg.ask_amount;
        quote_amount = msg.bid_amount;
        timeout_date = msg.timeout;
      };
      initiator = sender;
      commitment_proof = proof;
    }))
entry_of_type (some sell) msg sender proof = ok (
    some (record {
      offer = record {
        offer_id = msg.offer_id;
        type = sell;
        base_amount = msg.bid_amount;
        quote_amount = msg.ask_amount;
        timeout_date = msg.timeout;
      };
      initiator = sender;
      commitment_proof = proof;
    }))

abbrev entry_of_body : TokenPair → Body → ℕ → Result (Option OfferBookEntry)
unfolding get_offer_type
entry_of_body market (proven_offer_body p) sender =
    entry_of_type (get_offer_type market p.offer.ask_token p.offer.bid_token) p.offer sender
      p.commitment_proof
entry_of_body market _ sender = ok none

-- `OfferListener._transform`
unfoldable pub offer_transform : TokenPair → NetMessage → Result (Option OfferBookEntry)
unfolding entry_of_body
offer_transform market m = entry_of_body market m.body m.sender

-- `TakerListener._transform`: a proven offer with the id of the own offer
unfoldable pub taker_transform : (offer_id : ℕ) → NetMessage → Option NetMessage
taker_transform offer_id m = elim m.body [
  | proven_offer_body p ↦ if p.offer.offer_id == offer_id then some m else none
  | _ ↦ none
]

-- `OfferTakenListener._transform`
unfoldable pub taken_transform : NetMessage → Option ℕ
taken_transform m = elim m.body [ taken_body t ↦ some t.offer_id | _ ↦ none ]

-- `SwapExecutionListener._transform`; `SwapCompleted` is a subclass of `SwapExecution`.
unfoldable pub execution_transform : NetMessage → Option NetMessage
execution_transform m = elim m.body [
  | execution_body e ↦ some m
  | completed_body e ↦ some m
  | _ ↦ none
]

-- `CommitmentListener._transform` and `TakerCommitmentListener._transform`
unfoldable pub commitment_transform : NetMessage → Option NetMessage
commitment_transform m = elim m.body [ commitment_body c ↦ some m | _ ↦ none ]

-- The second `CancellationListener._transform`, which replaces the first of that name
unfoldable pub cancellation_transform : NetMessage → Option NetMessage
cancellation_transform m = elim m.body [ cancellation_body c ↦ some m | _ ↦ none ]

-- `SwapCompletedListener._transform`
unfoldable pub completed_transform : NetMessage → Option (ℕ × ℕ)
completed_transform m = elim m.body [ completed_body e ↦ some (e.offer_id, e.timestamp) | _ ↦ none ]

-- `CommitmentProofListener._transform`
unfoldable pub proof_transform : NetMessage → Option NetMessage
proof_transform m = elim m.body [
  | commitment_proof_body p ↦ some m
  | cancellation_proof_body p ↦ some m
  | _ ↦ none
]

offer_type-create :
    (market : TokenPair) (o : BasicOffer)
    → market.base_token ≢ market.quote_token
    → get_offer_type market
        (create_offer_msg o market).ask_token
        (create_offer_msg o market).bid_token
      ≡ some o.type
unfolding get_offer_type create_offer_msg
offer_type-create market o h = ground (arith, h)

entry-create :
    (market : TokenPair) (o : BasicOffer) (sender : ℕ) (proof : CommitmentProof) (t : OfferType)
    → o.type ≡ t
    → entry_of_type (some t) (create_offer_msg o market) sender proof
      ≡ ok (some (record { offer = o; initiator = sender; commitment_proof = proof }))
unfolding create_offer_msg
entry-create market o sender proof buy h = ground (arith, h)
entry-create market o sender proof sell h = ground (arith, h)

-- Where the two tokens of the market differ, whoever listens for offers gets from the message that
-- a node sends for its offer exactly this offer, with the sender as its initiator and the proof.
pub offer_transform-proven_offer_message :
    (market : TokenPair) (o : BasicOffer) (proof : CommitmentProof) (sender : ℕ)
    → market.base_token ≢ market.quote_token
    → offer_transform market (proven_offer_message o proof market sender)
      ≡ ok (some (record { offer = o; initiator = sender; commitment_proof = proof }))
unfolding offer_transform proven_offer_message entry_of_body
offer_transform-proven_offer_message market o proof sender h =
    rw (offer_type-create market o h) (entry-create market o sender proof o.type refl)
