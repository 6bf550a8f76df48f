-- ===== src/Node/Order/Limit.antt =====
-- `LimitOrder` of raidex/raidex_node/order/limit_order.py. The offers that are made for an order are
-- objects that the offer manager and the matches share: an order holds references to them, which
-- are places in a list of offers, the heap.
use raidex.Prelude.{
  ℕ, ◌+◌, ◌≤◌, ◌<◌, ◌≡◌, refl, Bool, true, false, not, Option, none, some, List, [], ◌∷◌, ◌&&◌,
  ◌||◌, get_elem?, arith, leb, ◌==◌, if◌then◌else◌, All,
}
use raidex.Dict.{Dict, values}
use raidex.Node.Offer.{OfferType, buy, sell}
use raidex.Node.Order.Fsm.{
  Offer, OfferState, open_, completed, canceled, same_offer_state, status_of, parent,
}

module _ (Float : Type 0) where
  pub record LimitOrder : Type 0 where
    pub order_id : ℕ
    pub order_type : OfferType
    pub amount : ℕ
    pub price : Float
    pub lifetime : ℕ
    pub corresponding_offers : Dict ℕ

  -- The dictionary of `from_dict`; `is_buy` is `data['order_type'] == 'BUY'`.
  pub record OrderData : Type 0 where
    pub order_id : Option ℕ
    pub is_buy : Bool
    pub amount : ℕ
    pub price : Float
    pub lifetime : Option ℕ

  -- `DEFAULT_OFFER_LIFETIME` of raidex/constants.py
  abbrev pub default_offer_lifetime : ℕ
  default_offer_lifetime = 60

  -- `new_id` is what `create_random_32_bytes_id` returns, called where no id is given.
  unfoldable pub from_dict : (new_id : ℕ) → OrderData → LimitOrder
  from_dict new_id fields = record {
    order_id = (elim fields.order_id [ none ↦ new_id | some i ↦ i ]);
    order_type = if fields.is_buy then buy else sell;
    amount = fields.amount;
    price = fields.price;
    lifetime = (elim fields.lifetime [ none ↦ default_offer_lifetime | some l ↦ l ]);
    corresponding_offers = [];
  }

-- The offers behind the references
unfoldable pub at_refs : List Offer → List ℕ → List Offer
at_refs heap [] = []
at_refs heap (r ∷ rs) =
    let rest = at_refs heap rs in elim (get_elem? heap r) [ none ↦ rest | some o ↦ o ∷ rest ]

abbrev pub offers_of : {Float : Type 0} → List Offer → LimitOrder Float → List Offer
offers_of heap order = at_refs heap (values order.corresponding_offers)

-- The loops `for offer in ...: if offer.status == s: return True`
unfoldable pub some_has_status : OfferState → List Offer → Bool
some_has_status s [] = false
some_has_status s (o ∷ os) =
    let rest = some_has_status s os in if same_offer_state o.status s then true else rest

unfoldable pub order_open : List Offer → Bool
unfolding some_has_status
order_open os = some_has_status open_ os

unfoldable pub order_completed : List Offer → Bool
unfolding order_open some_has_status
order_completed os = if order_open os then false else some_has_status completed os

unfoldable pub order_canceled : List Offer → Bool
unfolding some_has_status
order_canceled os = some_has_status canceled os

-- `amount_traded` compares the state, the others the status.
unfoldable pub amount_traded : List Offer → ℕ
amount_traded [] = 0
amount_traded (o ∷ os) =
    let rest = amount_traded os in
    if same_offer_state o.state completed then o.basic.base_amount + rest else rest

-- `get_open_offers`, as references
unfoldable pub get_open_offers : List Offer → List ℕ → List ℕ
get_open_offers heap [] = []
get_open_offers heap (r ∷ rs) =
    let rest = get_open_offers heap rs in
    elim (get_elem? heap r) [
      | none ↦ rest
      | some o ↦ if same_offer_state o.status open_ then r ∷ rest else rest
    ]

-- Every offer has the status of its state, as the machine leaves it.
unfoldable pub HasStatus : Offer → Type 0
HasStatus o = o.status ≡ status_of o.state

-- The amount of an order: of all its offers
unfoldable pub base_total : List Offer → ℕ
base_total [] = 0
base_total (o ∷ os) = o.basic.base_amount + base_total os

completed-status : (s : OfferState) → same_offer_state s completed ≡ true → status_of s ≡ completed
unfolding status_of parent
completed-status s h = ground (arith, h)

-- `offer.state == 'completed'` of every offer
unfoldable pub all_completed : List Offer → Bool
all_completed [] = true
all_completed (o ∷ os) = same_offer_state o.state completed && all_completed os

traded_some :
    (os : List Offer)
    → All HasStatus os
    → 0 < amount_traded os
    → some_has_status completed os ≡ true
unfolding amount_traded some_has_status HasStatus
traded_some [] h t = ground arith
traded_some (o ∷ os) h t = ground (arith, h.0, completed-status o.state, traded_some os h.1)

-- What an order reports of its offers, compared with each other and with the amounts
pub record Reports (os : List Offer) : Type 0 where
  pub exclusive : (order_open os && order_completed os) ≡ false
  pub bound : amount_traded os ≤ base_total os
  pub traded : (order_open os || leb (amount_traded os) 0 || order_completed os) ≡ true
  pub full : (not (all_completed os) || amount_traded os == base_total os) ≡ true

traded-le : (os : List Offer) → amount_traded os ≤ base_total os
unfolding amount_traded base_total
traded-le [] = omega arith
traded-le (o ∷ os) = ground (arith, traded-le os)

traded-full : (os : List Offer) → all_completed os ≡ true → amount_traded os ≡ base_total os
unfolding amount_traded base_total all_completed
traded-full [] h = refl
traded-full (o ∷ os) h = ground (arith, traded-full os)

-- Where every offer has the status of its state, an order never is both open and completed, has
-- traded no more than its offers amount to, and all of that when each of them is completed; and an
-- order that is not open and has traded something is completed.
pub order-Reports : (os : List Offer) → All HasStatus os → Reports os
unfolding order_completed
order-Reports os h = record {
  exclusive = ground arith;
  bound = traded-le os;
  traded = ground (arith, traded_some os h);
  full = ground (arith, traded-full os);
}
