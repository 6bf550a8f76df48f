-- ===== src/Node/Manager/Cancel.antt =====
-- What `DataManager.cancel_order` (raidex/raidex_node/architecture/data_manager.py) does to the
-- offers of an order.
use raidex.Prelude.{ℕ, ◌≡◌, refl, some, List, [], ◌∷◌, ◌++◌, get_elem?, set}
use raidex.Dict
use raidex.Dict.{get}
use raidex.Exec.{ok, raised, type_error}
use raidex.Node.Offer.{Floats}
use raidex.Node.OfferBook.View.{OfferDict}
use raidex.Node.Order.Fsm.{
  Offer, cancellation_requested, open_, set_state, timeout, go_to, on_enter, on_enter_cancellation,
  dispatch_event, cancellation_request_event, no_kwargs, IsOfferMachine, status_of, parent,
}
use raidex.Node.Order.Lifecycle.{next_state, fire-eq-go_to}
use raidex.Node.Order.Limit.{LimitOrder, get_open_offers}
use raidex.Node.Manager.{NodeState, Outside, trigger_offer, cancel_offers, cancel_order}

module _ (floats : Floats) (sorted : OfferDict floats) (out : Outside floats sorted)
    (machine : IsOfferMachine out.fire) where
  timeout_requests :
      (o : Offer) (w : NodeState floats sorted)
      → next_state timeout o.state ≡ some cancellation_requested
      → out.fire timeout no_kwargs (record { offer = o; dispatched = w.dispatched }) ≡ (
        ok tt,
        record {
          offer = record o { state = cancellation_requested; status = open_ };
          dispatched = w.dispatched ++ cancellation_request_event o.basic.offer_id ∷ [];
        },
      )
  unfolding go_to on_enter on_enter_cancellation dispatch_event set_state status_of parent
  timeout_requests o w h = rw (fire-eq-go_to out.fire machine, h) refl

  -- Cancelling an order with at least one open offer that can time out raises TypeError: the first
  -- open offer asks for its cancellation, and nothing else happens, to the other open offers
  -- neither.
  pub cancel_order-stops :
      (w : NodeState floats sorted) (order_id ref : ℕ) (refs : List ℕ)
      (order : LimitOrder (floats.Float)) (o : Offer)
      → get w.orders order_id ≡ some order
      → get_open_offers w.heap (Dict.values order.corresponding_offers) ≡ ref ∷ refs
      → get_elem? w.heap ref ≡ some o
      → next_state timeout o.state ≡ some cancellation_requested
      → cancel_order floats sorted out order_id w ≡ (
        raised type_error,
        record w {
          heap = set w.heap ref (record o { state = cancellation_requested; status = open_ });
          dispatched = w.dispatched ++ cancellation_request_event o.basic.offer_id ∷ [];
        },
      )
  unfolding cancel_order cancel_offers trigger_offer
  cancel_order-stops w order_id ref refs order o found opens at state =
      rw (found, cancel_order)
        (rw (opens) (rw (at, trigger_offer) (rw (timeout_requests o w state) refl)))
