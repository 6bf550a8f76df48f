-- ===== src/Node/Manager/Sound.antt =====
-- What all offers of a node keep to, whatever the handlers are called with.
use raidex.Prelude.{
  ℕ, ◌≡◌, refl, subst, arith, Option-cases, inl, inr, Bool, true, false, not, ◌||◌, Option, none,
  some, List, [], ◌∷◌, ltb, get_elem?, set, suc, zero, All, All-append, if◌then◌else◌,
}
use raidex.Exec.{Exec, Result, ok, raised, ◌>>=◌, ◌>>◌, and_then, pure, raise, type_error}
use raidex.Node.Offer.{Floats, BasicOffer, OfferBookEntry}
use raidex.Dict.{get, put}
use raidex.Node.Matching.{match_new_order}
use raidex.Node.Order.Limit.{LimitOrder}
use raidex.Node.Timeouts.{create_new_timeout}
use raidex.Node.OfferBook.{book_remove_offer}
use raidex.Node.OfferBook.View.{OfferDict}
use raidex.Node.Order.Fsm.{
  OfferState, go_to, on_enter, set_state, on_enter_unproved, on_enter_published, initiate_refund,
  on_enter_cancellation, set_proof, dispatch_event, parent, create_from_basic, TraderRole, maker,
  taker, timeout, no_kwargs, initiating, Offer, NodeEvent, IsOfferMachine, status_of, has_proof,
}
use raidex.Node.Order.Lifecycle.{
  is_leaf, proof_due, fire-eq-go_to, next_state, OfferCall, initiate, fail, time_out, cancel,
  publish, match_found, prove, inbound, trigger_of_call, kwargs_of_call,
}
use raidex.Node.Manager.{
  NodeState, Outside, refer, trigger_offer, keep_offer, add_offer_to_order, take_created,
  take_entry, take_entries, create_take_offer, create_offer, create_make_offer, make_rest,
  process_order, add_match, in_book, in_timeouts, cancel_offers, cancel_order,
}

-- An offer that is in a state without children, has the status of its state, and has a commitment
-- proof from `proved` on.
pub record IsSettledAt (s : OfferState) (o : Offer) : Type 0 where
  pub leaf : is_leaf s ≡ true
  pub status : o.status ≡ status_of s
  pub proof : (not (proof_due s) || has_proof o) ≡ true

abbrev pub IsSettled : Offer → Type 0
IsSettled o = IsSettledAt o.state o

pub All-set {ℓ κ} :
    {A : Type ℓ} (P : A → Type κ) (xs : List A) (i : ℕ) (v : A)
    → All P xs
    → P v
    → All P (set xs i v)
All-set P [] i v h hv = h
All-set P (x ∷ xs) zero v h hv = (hv, h.1)
All-set P (x ∷ xs) (suc i) v h hv = (h.0, All-set P xs i v h.1 hv)

pub get_elem?-All {ℓ κ} :
    {A : Type ℓ} (P : A → Type κ) (xs : List A) (i : ℕ) (v : A)
    → All P xs
    → get_elem? xs i ≡ some v
    → P v
get_elem?-All P [] i v h e = cc
get_elem?-All P (x ∷ xs) zero v h e = let q : x ≡ v = cc in subst P q h.0
get_elem?-All P (x ∷ xs) (suc i) v h e = get_elem?-All P xs i v h.1 e

go_to-IsSettled :
    (c : OfferCall) (s : OfferState) (o : Offer) (es : List NodeEvent)
    → IsSettledAt s o
    → o.state ≡ s
    → IsSettled
        (go_to
          (next_state (trigger_of_call c) s)
          (kwargs_of_call c)
          (record { offer = o; dispatched = es })).1.offer
unfolding go_to next_state on_enter set_state on_enter_unproved on_enter_published initiate_refund
    on_enter_cancellation set_proof dispatch_event proof_due is_leaf status_of parent has_proof
go_to-IsSettled initiate s o es h e = ground (arith, h.leaf, h.status, h.proof)
go_to-IsSettled fail s o es h e = ground (arith, h.leaf, h.status, h.proof)
go_to-IsSettled time_out s o es h e = ground (arith, h.leaf, h.status, h.proof)
go_to-IsSettled cancel s o es h e = ground (arith, h.leaf, h.status, h.proof)
go_to-IsSettled publish s o es h e = ground (arith, h.leaf, h.status, h.proof)
go_to-IsSettled match_found s o es h e = ground (arith, h.leaf, h.status, h.proof)
go_to-IsSettled (prove p) s o es h e = ground (arith, h.leaf, h.status, h.proof)
go_to-IsSettled (inbound r) s o es h e = ground (arith, h.leaf, h.status, h.proof)

module _ (floats : Floats) (sorted : OfferDict floats) where
  abbrev pub IsSound : NodeState floats sorted → Type 0
  IsSound w = All IsSettled w.heap

  -- What runs on the state of a node and keeps its offers settled
  abbrev pub Keeps : {A : Type 0} → Exec (NodeState floats sorted) A → Type 0
  Keeps f = (w : NodeState floats sorted) → IsSound w → IsSound (f w).1

  and_then-IsSound :
      {A B : Type 0} (r : Result A) (w : NodeState floats sorted)
      (g : A → Exec (NodeState floats sorted) B)
      → ((a : A) → Keeps (g a))
      → IsSound w
      → IsSound (and_then r w g).1
  and_then-IsSound (ok a) w g hg h = hg a w h
  and_then-IsSound (raised x) w g hg h = h

  pub bind-Keeps :
      {A B : Type 0} (f : Exec (NodeState floats sorted) A)
      (g : A → Exec (NodeState floats sorted) B)
      → Keeps f
      → ((a : A) → Keeps (g a))
      → Keeps (f >>= g)
  bind-Keeps f g hf hg w h = and_then-IsSound (f w).0 (f w).1 g hg (hf w h)

  module _ (out : Outside floats sorted) (machine : IsOfferMachine out.fire) where
    fire-IsSettled :
        (c : OfferCall) (o : Offer) (es : List NodeEvent)
        → IsSettled o
        → IsSettled
            (out.fire
              (trigger_of_call c)
              (kwargs_of_call c)
              (record { offer = o; dispatched = es })).1.offer
    fire-IsSettled c o es h =
        rw (fire-eq-go_to out.fire machine) (go_to-IsSettled c o.state o es h refl)

    pub trigger_offer-Keeps :
        (c : OfferCall) (ref : ℕ)
        → Keeps (trigger_offer floats sorted out (trigger_of_call c) (kwargs_of_call c) ref)
    unfolding trigger_offer
    trigger_offer-Keeps c ref w h = elim (Option-cases (get_elem? w.heap ref)) [
      | inl e ↦ rw (e, trigger_offer) h
      | inr (o, e) ↦
          rw (e, trigger_offer)
            (All-set IsSettled w.heap ref _ h
              (fire-IsSettled c o w.dispatched (get_elem?-All IsSettled w.heap ref o h e)))
    ]

    keep_offer-Keeps : (o : Offer) → IsSettled o → Keeps (keep_offer floats sorted o)
    unfolding keep_offer
    keep_offer-Keeps o ho w h = All-append IsSettled w.heap (o ∷ []) h (ho, tt)

    create_from_basic-IsSettled :
        (b : BasicOffer) (role : TraderRole) → IsSettled (create_from_basic b role)
    unfolding create_from_basic is_leaf proof_due
    create_from_basic-IsSettled b role = record { leaf = refl; status = refl; proof = refl }

    refer-Keeps :
        (found : Option (LimitOrder (floats.Float))) (order_id offer_id ref : ℕ)
        → Keeps (refer floats sorted found order_id offer_id ref)
    unfolding refer
    refer-Keeps none order_id offer_id ref w h = h
    refer-Keeps (some o) order_id offer_id ref w h = h

    add_offer_to_order-Keeps :
        (order_id offer_id ref : ℕ)
        → Keeps (add_offer_to_order floats sorted out order_id offer_id ref)
    unfolding add_offer_to_order
    add_offer_to_order-Keeps order_id offer_id ref =
        bind-Keeps (λ w. refer floats sorted (get w.orders order_id) order_id offer_id ref w)
          (λ _. trigger_offer floats sorted out initiating no_kwargs ref)
          (λ w h. refer-Keeps (get w.orders order_id) order_id offer_id ref w h)
          (λ _. trigger_offer-Keeps initiate ref)

    take_created-Keeps :
        (order_id : ℕ) (e : OfferBookEntry) (ref : ℕ) (created : Bool)
        → Keeps (take_created floats sorted out order_id e ref created)
    unfolding take_created add_match
    take_created-Keeps order_id e ref true w h =
        bind-Keeps (add_offer_to_order floats sorted out order_id e.offer.offer_id ref)
          (λ _. in_book floats sorted (book_remove_offer floats sorted e.offer.offer_id))
          (add_offer_to_order-Keeps order_id e.offer.offer_id ref) (λ _ v hv. hv) _ h
    take_created-Keeps order_id e ref false w h = h

    abbrev with_timeout : OfferBookEntry → Exec (NodeState floats sorted) Bool
    with_timeout e =
        in_timeouts floats sorted (create_new_timeout e.offer.offer_id e.offer.timeout_date 0)

    take_entry-Keeps :
        (order_id : ℕ) (e : OfferBookEntry) → Keeps (take_entry floats sorted out order_id e)
    unfolding take_entry create_take_offer
    take_entry-Keeps order_id e =
        bind-Keeps (create_take_offer floats sorted e.offer)
          (λ ref.
            with_timeout e >>= λ created. take_created floats sorted out order_id e ref created)
          (keep_offer-Keeps _ (create_from_basic-IsSettled e.offer taker))
          (λ ref.
            bind-Keeps (with_timeout e)
              (λ created. take_created floats sorted out order_id e ref created) (λ w h. h)
              (take_created-Keeps order_id e ref))

    take_entries-Keeps :
        (order_id : ℕ) (es : List OfferBookEntry)
        → Keeps (take_entries floats sorted out order_id es)
    unfolding take_entries
    take_entries-Keeps order_id [] = λ w h. h
    take_entries-Keeps order_id (e ∷ es) =
        bind-Keeps (take_entry floats sorted out order_id e)
          (λ _. take_entries floats sorted out order_id es) (take_entry-Keeps order_id e)
          (λ _. take_entries-Keeps order_id es)

    create_make_offer-Keeps :
        (order : LimitOrder (floats.Float)) (amount_left : ℕ)
        → Keeps (create_make_offer floats sorted out order amount_left)
    unfolding create_make_offer create_offer create_from_basic
    create_make_offer-Keeps order amount_left w h =
        keep_offer-Keeps (create_offer floats sorted out order amount_left w)
          (create_from_basic-IsSettled (create_offer floats sorted out order amount_left w).basic
            maker)
          (record w { ids_made = suc w.ids_made }) h

    make_rest-Keeps :
        (order : LimitOrder (floats.Float)) (amount_left : ℕ)
        → Keeps (make_rest floats sorted out order amount_left)
    unfolding make_rest
    make_rest-Keeps order amount_left w h =
        let b = (create_offer floats sorted out order amount_left w).basic in
        let timed : Exec (NodeState floats sorted) Bool =
          in_timeouts floats sorted (create_new_timeout b.offer_id b.timeout_date 0) in
        bind-Keeps (create_make_offer floats sorted out order amount_left)
          (λ ref. timed >>= λ _. add_offer_to_order floats sorted out order.order_id b.offer_id ref)
          (create_make_offer-Keeps order amount_left)
          (λ ref.
            bind-Keeps timed
              (λ _. add_offer_to_order floats sorted out order.order_id b.offer_id ref) (λ v hv. hv)
              (λ _. add_offer_to_order-Keeps order.order_id b.offer_id ref))
          w h

    rest_if-Keeps :
        (b : Bool) (order : LimitOrder (floats.Float)) (amount_left : ℕ)
        → Keeps (if b then make_rest floats sorted out order amount_left else pure tt)
    rest_if-Keeps true order amount_left = make_rest-Keeps order amount_left
    rest_if-Keeps false order amount_left = λ w h. h

    pub process_order-Keeps :
        (order : LimitOrder (floats.Float)) → Keeps (process_order floats sorted out order)
    unfolding process_order
    process_order-Keeps order w h =
        bind-Keeps
          (λ v. (
            match_new_order floats sorted v.book (record {
              order_type = order.order_type;
              amount = order.amount;
              price = order.price;
            }),
            v,
          ))
          (λ found.
            take_entries floats sorted out order.order_id found.0
            >> (if ltb 0 found.1 then make_rest floats sorted out order found.1 else pure tt))
          (λ v hv. hv)
          (λ found.
            bind-Keeps (take_entries floats sorted out order.order_id found.0)
              (λ _. if ltb 0 found.1 then make_rest floats sorted out order found.1 else pure tt)
              (take_entries-Keeps order.order_id found.0)
              (λ _. rest_if-Keeps (ltb 0 found.1) order found.1))
          (record w { orders = put w.orders order.order_id order }) h

    cancel_offers-Keeps : (refs : List ℕ) → Keeps (cancel_offers floats sorted out refs)
    unfolding cancel_offers
    cancel_offers-Keeps [] = λ w h. h
    cancel_offers-Keeps (r ∷ rs) =
        bind-Keeps (trigger_offer floats sorted out timeout no_kwargs r) (λ _. raise type_error)
          (trigger_offer-Keeps time_out r) (λ _ v hv. hv)

    pub cancel_order-Keeps : (order_id : ℕ) → Keeps (cancel_order floats sorted out order_id)
    unfolding cancel_order
    cancel_order-Keeps order_id w h = elim (Option-cases (get w.orders order_id)) [
      | inl e ↦ rw (e, cancel_order) h
      | inr (o, e) ↦ rw (e, cancel_order) (cancel_offers-Keeps _ w h)
    ]
