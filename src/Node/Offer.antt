-- ===== src/Node/Offer.antt =====
-- Offers and their prices: raidex/raidex_node/order/offer.py and the entries of
-- raidex/raidex_node/offer_book.py. Prices are Python floats, which the language of the model does
-- not have: their type, the quotient of two integers and the comparisons are parameters.
use raidex.Prelude.{ℕ, ◌+◌, ◌%◌, Bool, ◌==◌, ◌&&◌, if◌then◌else◌}
use raidex.Exec.{Result, ok, raised, zero_division_error}
use raidex.Sorted.{TotalOrder}
use raidex.CommitmentService.Data.{CommitmentProof}

-- The floats that are quotients `float(a) / b` of amounts with b > 0: none of them is a NaN, so `<`
-- and `==` order them totally.
pub record Floats : Type 1 where
  pub Float : Type 0
  pub order : TotalOrder Float
  pub quotient : ℕ → ℕ → Float

pub data OfferType : Type 0 where
  buy sell : OfferType

-- `OfferType.opposite`: the value plus one, modulo two
abbrev pub value_of : OfferType → ℕ
value_of buy = 0
value_of sell = 1

abbrev of_value : ℕ → OfferType
of_value n = if n == 0 then buy else sell

unfoldable pub opposite : OfferType → OfferType
opposite t = of_value ((value_of t + 1) % 2)

abbrev pub same_type : OfferType → OfferType → Bool
same_type s t = value_of s == value_of t

-- `BasicOffer`
pub record BasicOffer : Type 0 where
  pub offer_id : ℕ
  pub type : OfferType
  pub base_amount : ℕ
  pub quote_amount : ℕ
  pub timeout_date : ℕ

-- `BasicOffer.__eq__`
unfoldable pub offer_eq : BasicOffer → BasicOffer → Bool
offer_eq a b =
    a.offer_id == b.offer_id
    && same_type a.type b.type
    && a.base_amount == b.base_amount
    && a.quote_amount == b.quote_amount
    && a.timeout_date == b.timeout_date

-- `OfferBookEntry`
pub record OfferBookEntry : Type 0 where
  pub offer : BasicOffer
  pub initiator : ℕ
  pub commitment_proof : CommitmentProof

abbrev pub entry_id : OfferBookEntry → ℕ
entry_id e = e.offer.offer_id

module _ (floats : Floats) where
  -- `BasicOffer.price`; the division raises where the base amount is 0.
  unfoldable pub price : BasicOffer → Result (floats.Float)
  price o =
      if o.base_amount == 0
      then raised zero_division_error
      else ok (floats.quotient o.quote_amount o.base_amount)
