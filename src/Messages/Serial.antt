-- ===== src/Messages/Serial.antt =====
-- What `serialize` and `deserialize` make of the messages of raidex/messages.py, by the `fields` of
-- their classes: the own fields, then the signature where the class is `Signed`, then the command id.
-- A message inside a message is a list in the list. Bytes are numbers here and fill their field; a
-- number that is too large for its field raises SerializationError.
pub mod Reading
use raidex.Prelude.{
  ℕ, ◌^◌, ◌≡◌, refl, Bool, true, Option, none, some, List, [], ◌∷◌, ◌&&◌, ltb, if◌then◌else◌, arith,
  Bool-cases,
}
use raidex.CommitmentService.Data.{CommitmentProof}
use raidex.Messages.{
  SwapOffer, CommitmentFields, OfferTaken, Cancellation, CommitmentServiceAdvertisement,
  ExecutionFields, MessageClass, swap_offer_class, proven_offer_class, proven_commitment_class,
  commitment_class, commitment_proof_class, advertisement_class, swap_execution_class,
  swap_completed_class, offer_taken_class, cancellation_class, cancellation_proof_class,
}

-- The signature and the command id of a message of a `Signed` class
pub record Mark : Type 0 where
  pub signature : ℕ
  pub cmdid : ℕ

-- The messages as they are sent. Each message in a message has its own mark.
pub data WireMessage : Type 0 where
  wire_offer : (offer : SwapOffer) (cmdid : ℕ) → WireMessage
  wire_proven_offer :
      (offer : SwapOffer) (offer_cmdid : ℕ) (proof : CommitmentProof) (proof_mark mark : Mark)
      → WireMessage
  wire_proven_commitment :
      (commitment : CommitmentFields) (commitment_mark : Mark) (proof : CommitmentProof)
      (proof_mark mark : Mark)
      → WireMessage
  wire_commitment : CommitmentFields → Mark → WireMessage
  wire_commitment_proof : CommitmentProof → Mark → WireMessage
  wire_advertisement : CommitmentServiceAdvertisement → Mark → WireMessage
  wire_execution wire_completed : ExecutionFields → Mark → WireMessage
  wire_taken : OfferTaken → Mark → WireMessage
  wire_cancellation : Cancellation → Mark → WireMessage
  wire_cancellation_proof :
      (offer_id : ℕ) (proof : CommitmentProof) (proof_mark mark : Mark) → WireMessage

unfoldable pub wire_class : WireMessage → MessageClass
wire_class (wire_offer _ _) = swap_offer_class
wire_class (wire_proven_offer _ _ _ _ _) = proven_offer_class
wire_class (wire_proven_commitment _ _ _ _ _) = proven_commitment_class
wire_class (wire_commitment _ _) = commitment_class
wire_class (wire_commitment_proof _ _) = commitment_proof_class
wire_class (wire_advertisement _ _) = advertisement_class
wire_class (wire_execution _ _) = swap_execution_class
wire_class (wire_completed _ _) = swap_completed_class
wire_class (wire_taken _ _) = offer_taken_class
wire_class (wire_cancellation _ _) = cancellation_class
wire_class (wire_cancellation_proof _ _ _ _) = cancellation_proof_class

-- A value with its sedes: `int32` and `int256` are numbers of at most that many bytes.
pub data Value : Type 0 where
  int32 int256 binary : ℕ → Value

pub data Field : Type 0 where
  plain : Value → Field
  nested : List Value → Field

-- What rlp gets: numbers, and lists of them
pub data Item : Type 0 where
  atom : ℕ → Item
  items : List ℕ → Item

unfoldable pub offer_values : SwapOffer → ℕ → List Value
offer_values o cmdid =
    binary o.ask_token
    ∷ int256 o.ask_amount
    ∷ binary o.bid_token
    ∷ int256 o.bid_amount
    ∷ int32 o.offer_id
    ∷ int256 o.timeout
    ∷ int32 cmdid
    ∷ []

abbrev mark_values : Mark → List Value
mark_values k = binary k.signature ∷ int32 k.cmdid ∷ []

unfoldable pub commitment_values : CommitmentFields → Mark → List Value
commitment_values c k =
    int32 c.offer_id ∷ binary c.offer_hash ∷ int256 c.timeout ∷ int256 c.amount ∷ mark_values k

unfoldable pub proof_values : CommitmentProof → Mark → List Value
proof_values p k =
    binary p.commitment_sig
    ∷ binary p.secret
    ∷ binary p.secret_hash
    ∷ int32 p.offer_id
    ∷ mark_values k

abbrev all_plain : List Value → List Field
all_plain [] = []
all_plain (v ∷ vs) = plain v ∷ all_plain vs

-- The fields of a message, in the order of its class
unfoldable pub fields : WireMessage → List Field
unfolding offer_values commitment_values proof_values
fields (wire_offer o cmdid) = all_plain (offer_values o cmdid)
fields (wire_proven_offer o cmdid p pk k) =
    nested (offer_values o cmdid) ∷ nested (proof_values p pk) ∷ all_plain (mark_values k)
fields (wire_proven_commitment c ck p pk k) =
    nested (commitment_values c ck) ∷ nested (proof_values p pk) ∷ all_plain (mark_values k)
fields (wire_commitment c k) = all_plain (commitment_values c k)
fields (wire_commitment_proof p k) = all_plain (proof_values p k)
fields (wire_advertisement a k) =
    all_plain (binary a.address ∷ binary a.commitment_asset ∷ int32 a.fee_rate ∷ mark_values k)
fields (wire_execution e k) = all_plain (int256 e.offer_id ∷ int256 e.timestamp ∷ mark_values k)
fields (wire_completed e k) = all_plain (int256 e.offer_id ∷ int256 e.timestamp ∷ mark_values k)
fields (wire_taken t k) = all_plain (int32 t.offer_id ∷ mark_values k)
fields (wire_cancellation c k) = all_plain (int32 c.offer_id ∷ mark_values k)
fields (wire_cancellation_proof i p pk k) =
    plain (int32 i) ∷ nested (proof_values p pk) ∷ all_plain (mark_values k)

unfoldable pub fits_field : Value → Bool
fits_field (int32 n) = ltb n (256 ^ 32)
fits_field (int256 n) = ltb n (256 ^ 256)
fits_field (binary n) = true

unfoldable pub all_fit : List Value → Bool
unfolding fits_field
all_fit [] = true
all_fit (v ∷ vs) = fits_field v && all_fit vs

abbrev number : Value → ℕ
number (int32 n) = n
number (int256 n) = n
number (binary n) = n

unfoldable pub numbers : List Value → List ℕ
numbers [] = []
numbers (v ∷ vs) = number v ∷ numbers vs

abbrev with_item : Item → Option (List Item) → Option (List Item)
with_item i none = none
with_item i (some is) = some (i ∷ is)

-- `serialize`; none where it raises SerializationError
unfoldable pub serialize : List Field → Option (List Item)
unfolding all_fit fits_field numbers
serialize [] = some []
serialize (plain v ∷ fs) =
    let rest = serialize fs in if fits_field v then with_item (atom (number v)) rest else none
serialize (nested vs ∷ fs) =
    let rest = serialize fs in if all_fit vs then with_item (items (numbers vs)) rest else none

-- Every number of a message fits its field.
unfoldable pub fields_fit : List Field → Bool
unfolding fits_field all_fit
fields_fit [] = true
fields_fit (plain v ∷ fs) = fits_field v && fields_fit fs
fields_fit (nested vs ∷ fs) = all_fit vs && fields_fit fs

-- What the fields are without their sizes
unfoldable pub items_of : List Field → List Item
unfolding numbers
items_of [] = []
items_of (plain v ∷ fs) = atom (number v) ∷ items_of fs
items_of (nested vs ∷ fs) = items (numbers vs) ∷ items_of fs

pub serialize-eq :
    (fs : List Field) → serialize fs ≡ (if fields_fit fs then some (items_of fs) else none)
unfolding serialize fields_fit items_of
serialize-eq [] = refl
serialize-eq (plain v ∷ fs) = ground (arith, serialize-eq fs, Bool-cases (fields_fit fs))
serialize-eq (nested vs ∷ fs) = ground (arith, serialize-eq fs, Bool-cases (fields_fit fs))
