-- ===== src/Node/Manager.antt =====
-- The objects that a node keeps: `OfferManager` (raidex/raidex_node/order/offer_manager.py), `Match`
-- (raidex/raidex_node/matching/match.py) and `DataManager`
-- (raidex/raidex_node/architecture/data_manager.py). Offers are shared between the manager, the
-- orders and the matches: they are places in `heap`.
pub mod Handlers
pub mod Sound
pub mod Handled
pub mod Cancel
use raidex.Prelude.{
  ℕ, ◌+◌, ◌*◌, Bool, true, false, not, Option, none, some, List, [], ◌∷◌, ◌++◌, ◌&&◌, ◌||◌, ltb,
  get_elem?, set, length, if◌then◌else◌,
}
use raidex.Dict
use raidex.Dict.{Dict, get, put}
use raidex.Exec.{
  Exec, Result, ok, raised, key_error, type_error, other, offer_timed_out, pure, raise, modify,
  ◌>>◌, ◌>>=◌,
}
use raidex.CommitmentService.Data.{CommitmentProof}
use raidex.Node.Offer.{Floats, BasicOffer, OfferBookEntry}
use raidex.Node.OfferBook.{OfferBook, book_remove_offer}
use raidex.Node.OfferBook.View.{OfferDict}
use raidex.Node.Matching.{match_new_order}
use raidex.Node.Timeouts.{Timeouts, create_new_timeout, clean_up_timeout}
use raidex.Node.Order.Fsm.{
  TraderRole, maker, taker, Offer, NodeEvent, Kwargs, no_kwargs, create_from_basic, is_buy, is_sell,
  OfferTrigger, initiating, timeout, Fire,
}
use raidex.Node.Order.Limit.{LimitOrder, get_open_offers}

-- `Match`: the offer's place, where it is not None, and the data of the partner
pub record Match : Type 0 where
  pub offer : Option ℕ
  pub trader_role : TraderRole
  pub target : ℕ
  pub commitment_proof : CommitmentProof

-- `MatchFactory`
abbrev pub maker_match : Option ℕ → ℕ → CommitmentProof → Match
maker_match offer target proof = record {
  offer = offer;
  trader_role = maker;
  target = target;
  commitment_proof = proof;
}

abbrev pub taker_match : Option ℕ → OfferBookEntry → Match
taker_match offer e = record {
  offer = offer;
  trader_role = taker;
  target = e.initiator;
  commitment_proof = e.commitment_proof;
}

unfoldable pub match_is_maker : TraderRole → Bool
match_is_maker maker = true
match_is_maker taker = false

-- `Match.get_send_amount`
unfoldable pub get_send_amount : TraderRole → Offer → ℕ
unfolding match_is_maker
get_send_amount role o =
    if (match_is_maker role && is_buy o) || (not (match_is_maker role) && is_sell o)
    then o.basic.quote_amount
    else o.basic.base_amount

module _ (floats : Floats) (sorted : OfferDict floats) where
  pub record NodeState : Type 0 where
    pub heap : List Offer
    pub offers : Dict ℕ
    pub orders : Dict (LimitOrder (floats.Float))
    pub matches : Dict Match
    pub timeouts : Timeouts
    pub book : OfferBook floats sorted
    pub dispatched : List NodeEvent
    pub ids_made : ℕ
    pub now : ℕ

  -- What the data manager takes from elsewhere: the triggers of the offers' machine, the random
  -- ids, and `int(amount * price)`.
  pub record Outside : Type 0 where
    pub fire : Fire
    pub new_id : ℕ → ℕ
    pub quote_for : ℕ → floats.Float → ℕ

  abbrev pub in_timeouts : {A : Type 0} → Exec Timeouts A → Exec NodeState A
  in_timeouts f w = let (r, d) = f w.timeouts in (r, record w { timeouts = d })

  abbrev pub in_book : {A : Type 0} → Exec (OfferBook floats sorted) A → Exec NodeState A
  in_book f w = let (r, b) = f w.book in (r, record w { book = b })

  -- A trigger of the offer at a place of the heap
  unfoldable pub trigger_offer : Outside → OfferTrigger → Kwargs → ℕ → Exec NodeState (Unit {0})
  trigger_offer out t k ref w = elim (get_elem? w.heap ref) [
    | none ↦ (raised other, w)
    | some o ↦
        let (r, m) = out.fire t k (record { offer = o; dispatched = w.dispatched }) in
        (r, record w { heap = set w.heap ref m.offer; dispatched = m.dispatched })
  ]

  -- A new offer object, under its id in `OfferManager.offers`
  unfoldable pub keep_offer : Offer → Exec NodeState ℕ
  keep_offer o w = (
    ok (length w.heap),
    record w { heap = w.heap ++ o ∷ []; offers = put w.offers o.basic.offer_id (length w.heap) },
  )

  -- `OfferManager.create_take_offer`
  unfoldable pub create_take_offer : BasicOffer → Exec NodeState ℕ
  unfolding keep_offer
  create_take_offer offer = keep_offer (create_from_basic offer taker)

  -- `OfferFactory.create_offer`, with `time_plus(seconds=lifetime)` in milliseconds
  unfoldable pub create_offer : Outside → LimitOrder (floats.Float) → ℕ → NodeState → Offer
  create_offer out order amount_left w =
      create_from_basic
        (record {
          offer_id = out.new_id w.ids_made;
          type = order.order_type;
          base_amount = amount_left;
          quote_amount = out.quote_for amount_left order.price;
          timeout_date = w.now + order.lifetime * 1000;
        })
        maker

  -- `OfferManager.create_make_offer`
  unfoldable pub create_make_offer : Outside → LimitOrder (floats.Float) → ℕ → Exec NodeState ℕ
  unfolding create_offer keep_offer
  create_make_offer out order amount_left w =
      keep_offer (create_offer out order amount_left w) (record w { ids_made = w.ids_made + 1 })

  -- `self.corresponding_offers[offer.offer_id] = offer`, on the order in `DataManager.orders`
  unfoldable pub refer : Option (LimitOrder (floats.Float)) → ℕ → ℕ → ℕ → Exec NodeState (Unit {0})
  refer none order_id offer_id ref w = (ok tt, w)
  refer (some o) order_id offer_id ref w = (
    ok tt,
    record w {
      orders =
          put w.orders order_id
            (record o { corresponding_offers = put o.corresponding_offers offer_id ref });
    },
  )

  -- `LimitOrder.add_offer`
  unfoldable pub add_offer_to_order : Outside → ℕ → ℕ → ℕ → Exec NodeState (Unit {0})
  unfolding trigger_offer refer
  add_offer_to_order out order_id offer_id ref =
      (λ w. refer (get w.orders order_id) order_id offer_id ref w)
      >> trigger_offer out initiating no_kwargs ref

  unfoldable pub add_match : ℕ → Match → Exec NodeState (Unit {0})
  add_match offer_id m = modify (λ w. record w { matches = put w.matches offer_id m })

  -- The body of the loop of `process_order` after `create_new_timeout`, by its answer
  unfoldable pub take_created : Outside → ℕ → OfferBookEntry → ℕ → Bool → Exec NodeState (Unit {0})
  unfolding add_offer_to_order add_match
  take_created out order_id e ref true =
      add_match e.offer.offer_id (taker_match (some ref) e)
      >> (add_offer_to_order out order_id e.offer.offer_id ref
          >> in_book (book_remove_offer floats sorted e.offer.offer_id))
  take_created out order_id e ref false = raise offer_timed_out

  unfoldable pub take_entry : Outside → ℕ → OfferBookEntry → Exec NodeState (Unit {0})
  unfolding create_take_offer take_created
  take_entry out order_id e = create_take_offer e.offer >>= λ ref.
      in_timeouts (create_new_timeout e.offer.offer_id e.offer.timeout_date 0) >>= λ created.
      take_created out order_id e ref created

  unfoldable pub take_entries : Outside → ℕ → List OfferBookEntry → Exec NodeState (Unit {0})
  unfolding take_entry
  take_entries out order_id [] = pure tt
  take_entries out order_id (e ∷ es) = take_entry out order_id e >> take_entries out order_id es

  -- The end of `process_order`
  unfoldable pub make_rest : Outside → LimitOrder (floats.Float) → ℕ → Exec NodeState (Unit {0})
  unfolding create_make_offer create_offer add_offer_to_order
  make_rest out order amount_left w =
      (let new_offer = (create_offer out order amount_left w).basic in
          create_make_offer out order amount_left >>= λ ref.
          in_timeouts (create_new_timeout new_offer.offer_id new_offer.timeout_date 0) >>= λ _.
          add_offer_to_order out order.order_id new_offer.offer_id ref)
        w

  -- `DataManager.process_order`
  unfoldable pub process_order : Outside → LimitOrder (floats.Float) → Exec NodeState (Unit {0})
  unfolding take_entries make_rest
  process_order out order =
      modify (λ w. record w { orders = put w.orders order.order_id order })
      >> ((λ w. (
        match_new_order floats sorted w.book
            (record { order_type = order.order_type; amount = order.amount; price = order.price }),
        w,
      ))
          >>= λ found.
              take_entries out order.order_id found.0
              >> (if ltb 0 found.1 then make_rest out order found.1 else pure tt))

  -- The loop of `cancel_order`. `clean_up_timeout(offer)` asks whether the offer itself is a key of
  -- the dictionary: a class that defines `__eq__` alone has no hash, and the test raises TypeError.
  unfoldable pub cancel_offers : Outside → List ℕ → Exec NodeState (Unit {0})
  unfolding trigger_offer
  cancel_offers out [] = pure tt
  cancel_offers out (r ∷ rs) = trigger_offer out timeout no_kwargs r >> raise type_error

  -- `DataManager.cancel_order`
  unfoldable pub cancel_order : Outside → ℕ → Exec NodeState (Unit {0})
  unfolding cancel_offers
  cancel_order out order_id w = elim (get w.orders order_id) [
    | none ↦ (raised key_error, w)
    | some o ↦ cancel_offers out (get_open_offers w.heap (Dict.values o.corresponding_offers)) w
  ]

  -- `DataManager.timeout_offer`
  unfoldable pub timeout_offer : Outside → ℕ → ℕ → Exec NodeState (Unit {0})
  unfolding trigger_offer
  timeout_offer out offer_id ref =
      trigger_offer out timeout no_kwargs ref >> in_timeouts (clean_up_timeout offer_id)
