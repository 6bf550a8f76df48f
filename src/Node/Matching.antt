-- ===== src/Node/Matching.antt =====
-- The matching of an order with the offers of the book:
-- raidex/raidex_node/matching/matching_algorithm.py and matching_engine.py.
pub mod Fill
use raidex.Prelude.{
  ℕ, ◌-◌, ◌≡◌, Bool, true, false, Option, none, some, List, [], ◌∷◌, leb, if◌then◌else◌,
}
use raidex.Exec.{Result, ok, raised}
use raidex.Node.Offer.{Floats, OfferType, OfferBookEntry}
use raidex.Node.OfferBook.View.{OfferDict}
use raidex.Node.OfferBook.{OfferBook, get_offers_by_price}

abbrev pub base_of : OfferBookEntry → ℕ
base_of e = e.offer.base_amount

-- `matching_offers.sort(key=lambda x: x.base_amount, reverse=True)`, which is stable.
unfoldable pub place : OfferBookEntry → List OfferBookEntry → List OfferBookEntry
place e [] = e ∷ []
place e (f ∷ fs) = if leb (base_of f) (base_of e) then e ∷ f ∷ fs else f ∷ place e fs

unfoldable pub sort_by_base : List OfferBookEntry → List OfferBookEntry
unfolding place
sort_by_base [] = []
sort_by_base (e ∷ es) = place e (sort_by_base es)

-- The loop: the offers taken, and the amount left.
unfoldable pub take_offers : ℕ → List OfferBookEntry → List OfferBookEntry × ℕ
take_offers amount_left [] = ([], amount_left)
take_offers amount_left (e ∷ es) =
    let fits = leb (base_of e) amount_left in
    let (taken, left) = take_offers (if fits then amount_left - base_of e else amount_left) es in
    (if fits then e ∷ taken else taken, left)

-- What `match_limit` reads of a `LimitOrder`.
pub record OrderTerms (Float : Type 0) : Type 0 where
  pub order_type : OfferType
  pub amount : ℕ
  pub price : Float

module _ (floats : Floats) (sorted : OfferDict floats) where
  unfoldable pub match_limit :
      OfferBook floats sorted → OrderTerms (floats.Float) → Result (List OfferBookEntry × ℕ)
  match_limit book order =
      elim (get_offers_by_price floats sorted order.price order.order_type book) [
        | raised x ↦ raised x
        | ok matching ↦ ok (take_offers order.amount (sort_by_base matching))
      ]

  -- `MATCHING_ALGORITHM` is `match_limit`, which the engine calls on its book.
  unfoldable pub match_new_order :
      OfferBook floats sorted → OrderTerms (floats.Float) → Result (List OfferBookEntry × ℕ)
  unfolding match_limit
  match_new_order book order = match_limit book order
