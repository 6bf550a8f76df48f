-- ===== src/Messages/Serial/Reading.antt =====
-- `deserialize` of the messages of raidex/messages.py: by the class, from the numbers and lists that
-- rlp gives.
use raidex.Prelude.{ℕ, ◌≡◌, refl, Option, none, some, List, [], ◌∷◌}
use raidex.CommitmentService.Data.{CommitmentProof}
use raidex.Messages.{
  SwapOffer, CommitmentFields, ExecutionFields, MessageClass, swap_offer_class, proven_offer_class,
  proven_commitment_class, commitment_class, commitment_proof_class, advertisement_class,
  swap_execution_class, swap_completed_class, offer_taken_class, cancellation_class,
  cancellation_proof_class,
}
use raidex.Messages.Serial.{
  Mark, WireMessage, wire_offer, wire_proven_offer, wire_proven_commitment, wire_commitment,
  wire_commitment_proof, wire_advertisement, wire_execution, wire_completed, wire_taken,
  wire_cancellation, wire_cancellation_proof, wire_class, Item, atom, items, fields, items_of,
}

unfoldable pub offer_of : List ℕ → Option (SwapOffer × ℕ)
offer_of (at ∷ aa ∷ bt ∷ ba ∷ i ∷ t ∷ cmdid ∷ []) = some (
  record {
    ask_token = at;
    ask_amount = aa;
    bid_token = bt;
    bid_amount = ba;
    offer_id = i;
    timeout = t;
  },
  cmdid,
)
offer_of _ = none

unfoldable pub commitment_of : List ℕ → Option (CommitmentFields × Mark)
commitment_of (i ∷ h ∷ t ∷ a ∷ s ∷ c ∷ []) = some (
  record { offer_id = i; offer_hash = h; timeout = t; amount = a },
  record { signature = s; cmdid = c },
)
commitment_of _ = none

unfoldable pub proof_of : List ℕ → Option (CommitmentProof × Mark)
proof_of (sig ∷ secret ∷ h ∷ i ∷ s ∷ c ∷ []) = some (
  record { commitment_sig = sig; secret = secret; secret_hash = h; offer_id = i },
  record { signature = s; cmdid = c },
)
proof_of _ = none

-- The numbers of a message without messages in it; none where there is one
unfoldable pub atoms : List Item → Option (List ℕ)
atoms [] = some []
atoms (atom n ∷ is) = let rest = atoms is in elim rest [ none ↦ none | some ns ↦ some (n ∷ ns) ]
atoms (items ns ∷ is) = none

abbrev mark_of : ℕ → ℕ → Mark
mark_of s c = record { signature = s; cmdid = c }

abbrev then_read : {A B : Type 0} → Option A → (A → Option B) → Option B
then_read none f = none
then_read (some a) f = f a

unfoldable read_proven_offer : List Item → Option WireMessage
unfolding offer_of proof_of
read_proven_offer (items os ∷ items ps ∷ atom s ∷ atom c ∷ []) =
    then_read (offer_of os)
      λ o. then_read (proof_of ps) λ p. some (wire_proven_offer o.0 o.1 p.0 p.1 (mark_of s c))
read_proven_offer _ = none

unfoldable read_proven_commitment : List Item → Option WireMessage
unfolding commitment_of proof_of
read_proven_commitment (items cs ∷ items ps ∷ atom s ∷ atom c ∷ []) =
    then_read (commitment_of cs)
      λ f. then_read (proof_of ps) λ p. some (wire_proven_commitment f.0 f.1 p.0 p.1 (mark_of s c))
read_proven_commitment _ = none

unfoldable read_cancellation_proof : List Item → Option WireMessage
unfolding proof_of
read_cancellation_proof (atom i ∷ items ps ∷ atom s ∷ atom c ∷ []) =
    then_read (proof_of ps) λ p. some (wire_cancellation_proof i p.0 p.1 (mark_of s c))
read_cancellation_proof _ = none

unfoldable read_advertisement : List ℕ → Option WireMessage
read_advertisement (a ∷ asset ∷ fee ∷ s ∷ c ∷ []) = some (
    wire_advertisement (record { address = a; commitment_asset = asset; fee_rate = fee })
      (mark_of s c))
read_advertisement _ = none

unfoldable read_execution : (ExecutionFields → Mark → WireMessage) → List ℕ → Option WireMessage
read_execution f (i ∷ t ∷ s ∷ c ∷ []) =
    some (f (record { offer_id = i; timestamp = t }) (mark_of s c))
read_execution f _ = none

unfoldable read_id : (ℕ → Mark → WireMessage) → List ℕ → Option WireMessage
read_id f (i ∷ s ∷ c ∷ []) = some (f i (mark_of s c))
read_id f _ = none

-- `deserialize` of a class; none where it raises DeserializationError
unfoldable pub deserialize : MessageClass → List Item → Option WireMessage
unfolding read_proven_offer read_proven_commitment read_cancellation_proof read_advertisement
    read_execution read_id atoms offer_of commitment_of proof_of
deserialize swap_offer_class is =
    then_read (atoms is) λ ns. then_read (offer_of ns) λ o. some (wire_offer o.0 o.1)
deserialize proven_offer_class is = read_proven_offer is
deserialize proven_commitment_class is = read_proven_commitment is
deserialize commitment_class is =
    then_read (atoms is) λ ns. then_read (commitment_of ns) λ c. some (wire_commitment c.0 c.1)
deserialize commitment_proof_class is =
    then_read (atoms is) λ ns. then_read (proof_of ns) λ p. some (wire_commitment_proof p.0 p.1)
deserialize advertisement_class is = then_read (atoms is) read_advertisement
deserialize swap_execution_class is = then_read (atoms is) (read_execution wire_execution)
deserialize swap_completed_class is = then_read (atoms is) (read_execution wire_completed)
deserialize offer_taken_class is =
    then_read (atoms is) (read_id (λ i. wire_taken (record { offer_id = i })))
deserialize cancellation_class is =
    then_read (atoms is) (read_id (λ i. wire_cancellation (record { offer_id = i })))
deserialize cancellation_proof_class is = read_cancellation_proof is

pub deserialize-items_of :
    (m : WireMessage) → deserialize (wire_class m) (items_of (fields m)) ≡ some m
unfolding deserialize wire_class items_of fields
deserialize-items_of (wire_offer o c) = refl
deserialize-items_of (wire_proven_offer o c p pk k) = refl
deserialize-items_of (wire_proven_commitment c ck p pk k) = refl
deserialize-items_of (wire_commitment c k) = refl
deserialize-items_of (wire_commitment_proof p k) = refl
deserialize-items_of (wire_advertisement a k) = refl
deserialize-items_of (wire_execution e k) = refl
deserialize-items_of (wire_completed e k) = refl
deserialize-items_of (wire_taken t k) = refl
deserialize-items_of (wire_cancellation c k) = refl
deserialize-items_of (wire_cancellation_proof i p pk k) = refl
