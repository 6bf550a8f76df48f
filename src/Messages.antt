-- ===== src/Messages.antt =====
-- The messages of raidex/messages.py: their classes, names and command ids. A field of bytes
-- (address, hash, signature) is compared and passed on only, and is a number. The sender of a
-- message is the address that `Signed.sender` recovers from its signature.
pub mod Serial
pub mod Envelope
pub mod Listeners
mod Examples
use raidex.Prelude.{ℕ, ◌≡◌, Option, none, some, arith}
use raidex.CommitmentService.Data.{CommitmentProof}

-- `SwapOffer`
pub record SwapOffer : Type 0 where
  pub ask_token : ℕ
  pub ask_amount : ℕ
  pub bid_token : ℕ
  pub bid_amount : ℕ
  pub offer_id : ℕ
  pub timeout : ℕ

-- The fields of `Commitment` without the signature
pub record CommitmentFields : Type 0 where
  pub offer_id : ℕ
  pub offer_hash : ℕ
  pub timeout : ℕ
  pub amount : ℕ

pub record OfferTaken : Type 0 where
  pub offer_id : ℕ

pub record Cancellation : Type 0 where
  pub offer_id : ℕ

pub record CancellationProof : Type 0 where
  pub offer_id : ℕ
  pub cancellation_proof : CommitmentProof

pub record ProvenOffer : Type 0 where
  pub offer : SwapOffer
  pub commitment_proof : CommitmentProof

pub record ProvenCommitment : Type 0 where
  pub commitment : CommitmentFields
  pub commitment_proof : CommitmentProof

pub record CommitmentServiceAdvertisement : Type 0 where
  pub address : ℕ
  pub commitment_asset : ℕ
  pub fee_rate : ℕ

-- The fields of `SwapExecution`, which `SwapCompleted` inherits
pub record ExecutionFields : Type 0 where
  pub offer_id : ℕ
  pub timestamp : ℕ

pub data Body : Type 0 where
  offer_body : SwapOffer → Body
  proven_offer_body : ProvenOffer → Body
  proven_commitment_body : ProvenCommitment → Body
  commitment_body : CommitmentFields → Body
  commitment_proof_body : CommitmentProof → Body
  advertisement_body : CommitmentServiceAdvertisement → Body
  execution_body completed_body : ExecutionFields → Body
  taken_body : OfferTaken → Body
  cancellation_body : Cancellation → Body
  cancellation_proof_body : CancellationProof → Body

pub record NetMessage : Type 0 where
  pub body : Body
  pub sender : ℕ

-- The classes
pub data MessageClass : Type 0 where
  swap_offer_class proven_offer_class proven_commitment_class commitment_class : MessageClass
  commitment_proof_class advertisement_class swap_execution_class swap_completed_class :
      MessageClass
  offer_taken_class cancellation_class cancellation_proof_class : MessageClass

-- The keys of the maps; `no_name` is any other text.
pub data MessageName : Type 0 where
  offer_name : MessageName
  proven_offer_name : MessageName
  proven_commitment_name : MessageName
  commitment_name : MessageName
  commitment_proof_name : MessageName
  commitment_service_name : MessageName
  swap_executed_name : MessageName
  swap_completed_name : MessageName
  offer_taken_name : MessageName
  cancellation_name : MessageName
  cancellation_proof_name : MessageName
  no_name : MessageName

-- `msg_types_map`
unfoldable pub msg_types_map : MessageName → Option MessageClass
msg_types_map offer_name = some swap_offer_class
msg_types_map proven_offer_name = some proven_offer_class
msg_types_map proven_commitment_name = some proven_commitment_class
msg_types_map commitment_name = some commitment_class
msg_types_map commitment_proof_name = some commitment_proof_class
msg_types_map commitment_service_name = some advertisement_class
msg_types_map swap_executed_name = some swap_execution_class
msg_types_map swap_completed_name = some swap_completed_class
msg_types_map offer_taken_name = some offer_taken_class
msg_types_map cancellation_name = some cancellation_class
msg_types_map cancellation_proof_name = some cancellation_proof_class
msg_types_map no_name = none

-- `types_msg_map`, the same map from values to keys
unfoldable pub types_msg_map : MessageClass → MessageName
types_msg_map swap_offer_class = offer_name
types_msg_map proven_offer_class = proven_offer_name
types_msg_map proven_commitment_class = proven_commitment_name
types_msg_map commitment_class = commitment_name
types_msg_map commitment_proof_class = commitment_proof_name
types_msg_map advertisement_class = commitment_service_name
types_msg_map swap_execution_class = swap_executed_name
types_msg_map swap_completed_class = swap_completed_name
types_msg_map offer_taken_class = offer_taken_name
types_msg_map cancellation_class = cancellation_name
types_msg_map cancellation_proof_class = cancellation_proof_name

-- `msg_cmdid_map`
unfoldable pub msg_cmdid_map : MessageName → Option ℕ
msg_cmdid_map offer_name = some 1
msg_cmdid_map proven_offer_name = some 2
msg_cmdid_map proven_commitment_name = some 3
msg_cmdid_map commitment_name = some 4
msg_cmdid_map commitment_proof_name = some 5
msg_cmdid_map commitment_service_name = some 6
msg_cmdid_map swap_executed_name = some 7
msg_cmdid_map swap_completed_name = some 8
msg_cmdid_map offer_taken_name = some 9
msg_cmdid_map cancellation_name = some 10
msg_cmdid_map cancellation_proof_name = some 11
msg_cmdid_map no_name = none

unfoldable pub get_cmdid_for_class : MessageClass → Option ℕ
unfolding types_msg_map msg_cmdid_map
get_cmdid_for_class klass = msg_cmdid_map (types_msg_map klass)

-- Two classes with one command id are the same class.
pub cmdid-injective : (k l : MessageClass) → get_cmdid_for_class k ≡ get_cmdid_for_class l → k ≡ l
unfolding get_cmdid_for_class types_msg_map msg_cmdid_map
cmdid-injective k l h = ground (arith, h)

-- `msg_types_map[types_msg_map[klass]]` is the class.
pub types-msg : (k : MessageClass) → msg_types_map (types_msg_map k) ≡ some k
unfolding msg_types_map types_msg_map
types-msg k = ground arith
