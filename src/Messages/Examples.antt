-- ===== src/Messages/Examples.antt =====
-- A codec that keeps messages as they are, and an offer that is sent and heard.
use raidex.Prelude.{◌≡◌, refl, arith, some, List, ◌^◌}
use raidex.Exec.{ok, raised, other}
use raidex.CommitmentService.Data.{CommitmentProof}
use raidex.Node.Offer.{sell, BasicOffer}
use raidex.Messages.Serial.{
  WireMessage, wire_taken, wire_cancellation_proof, Item, fields, fits_field, serialize,
}
use raidex.Messages.Envelope.{Packed, Codec, envelop}
use raidex.Messages.Listeners.{
  TokenPair, proven_offer_message, offer_transform, offer_transform-proven_offer_message,
}

abbrev codec : Codec
codec = record {
  Data = List Item;
  Text = Packed (List Item);
  encode = λ is. is;
  decode = λ is. some is;
  dumps = λ e. e;
  loads = λ e. some e;
}

abbrev cancellation_proof : WireMessage
cancellation_proof =
    wire_cancellation_proof 7
      (record { commitment_sig = 1; secret = 2; secret_hash = 3; offer_id = 7 })
      (record { signature = 4; cmdid = 5 }) (record { signature = 6; cmdid = 11 })

-- An offer id of 33 bytes
too_large :
    envelop codec
      (wire_taken (record { offer_id = 256 ^ 32 }) (record { signature = 4; cmdid = 9 }))
    ≡ raised other
unfolding envelop serialize fields fits_field
too_large = refl

abbrev market : TokenPair
market = record { base_token = 1; quote_token = 2 }

abbrev offer : BasicOffer
offer = record {
  offer_id = 7;
  type = sell;
  base_amount = 10;
  quote_amount = 20;
  timeout_date = 900;
}

abbrev proof : CommitmentProof
proof = record { commitment_sig = 1; secret = 2; secret_hash = 3; offer_id = 7 }

offer_transform-proven_offer_message_example :
    offer_transform market (proven_offer_message offer proof market 4)
    ≡ ok (some (record { offer = offer; initiator = 4; commitment_proof = proof }))
offer_transform-proven_offer_message_example =
    offer_transform-proven_offer_message market offer proof 4 (ground arith)
