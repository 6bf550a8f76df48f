-- ===== src/Node/Order/Fsm.antt =====
-- `Offer` of raidex/raidex_node/order/offer.py, the machine `fsm_offer` of
-- raidex/raidex_node/order/__init__.py and the callbacks of raidex/raidex_node/order/events.py.
use raidex.Prelude.{
  ℕ, ◌+◌, ◌≡◌, Bool, true, false, not, Option, none, some, List, [], ◌∷◌, ◌++◌, ◌==◌, ◌&&◌,
  if◌then◌else◌,
}
use raidex.Exec.{Exec, ok, raised, machine_error, key_error, pure, raise, modify, ◌>>◌}
use raidex.CommitmentService.Data.{CommitmentProof}
use raidex.Node.Offer.{BasicOffer, buy, sell}

-- `TraderRole`
pub data TraderRole : Type 0 where
  maker taker : TraderRole

-- The states; `open_` and `pending` are the parents of the next five and of the next two.
pub data OfferState : Type 0 where
  open_ created unproved proved published cancellation_requested : OfferState
  pending exchanging wait_for_refund : OfferState
  completed canceled : OfferState

unfoldable pub parent : OfferState → Option OfferState
parent created = some open_
parent unproved = some open_
parent proved = some open_
parent published = some open_
parent cancellation_requested = some open_
parent exchanging = some pending
parent wait_for_refund = some pending
parent _ = none

-- What `OfferMachine.set_state` writes to `status`: the parent's name, or the state's own.
unfoldable pub status_of : OfferState → OfferState
unfolding parent
status_of s = elim (parent s) [ some p ↦ p | none ↦ s ]

abbrev pub number : OfferState → ℕ
number open_ = 0
number created = 1
number unproved = 2
number proved = 3
number published = 4
number cancellation_requested = 5
number pending = 6
number exchanging = 7
number wait_for_refund = 8
number completed = 9
number canceled = 10

abbrev pub same_offer_state : OfferState → OfferState → Bool
same_offer_state s t = number s == number t

-- `Offer`, with the attributes `state` and `status` that the machine adds
pub record Offer : Type 0 where
  pub basic : BasicOffer
  pub trader_role : TraderRole
  pub proof : Option CommitmentProof
  pub state : OfferState
  pub status : OfferState

-- `OfferFactory.create_from_basic` and the end of `create_offer`: the machine starts a model in the
-- first child of the initial state.
unfoldable pub create_from_basic : BasicOffer → TraderRole → Offer
unfolding status_of
create_from_basic b role = record {
  basic = b;
  trader_role = role;
  proof = none;
  state = created;
  status = status_of created;
}

unfoldable pub is_buy : Offer → Bool
is_buy o = elim o.basic.type [ buy ↦ true | sell ↦ false ]

unfoldable pub is_sell : Offer → Bool
unfolding is_buy
is_sell o = not (is_buy o)

unfoldable pub buy_amount : Offer → ℕ
unfolding is_buy
buy_amount o = if is_buy o then o.basic.base_amount else o.basic.quote_amount

unfoldable pub sell_amount : Offer → ℕ
unfolding is_buy
sell_amount o = if is_buy o then o.basic.quote_amount else o.basic.base_amount

unfoldable pub has_proof : Offer → Bool
has_proof o = elim o.proof [ some p ↦ true | none ↦ false ]

-- `EventPaymentReceivedSuccess`
pub record RaidenEvent : Type 0 where
  pub initiator : ℕ
  pub amount : ℕ
  pub identifier : ℕ

-- The events that offers, matches and handlers dispatch. An event that holds an offer or a match
-- has the offer's id here.
pub data NodeEvent : Type 0 where
  commit_event commitment_proved_event cancellation_request_event : ℕ → NodeEvent
  received_inbound_event : ℕ → RaidenEvent → NodeEvent
  send_proven_offer_event : ℕ → Option ℕ → NodeEvent
  swap_init_event : ℕ → NodeEvent
  expect_inbound_event : (target identifier : ℕ) → NodeEvent

-- The keyword arguments of a trigger
pub record Kwargs : Type 0 where
  pub proof : Option CommitmentProof
  pub raiden_event : Option RaidenEvent

abbrev pub no_kwargs : Kwargs
no_kwargs = record { proof = none; raiden_event = none }

-- An offer, and the events dispatched so far
pub record Model : Type 0 where
  pub offer : Offer
  pub dispatched : List NodeEvent

unfoldable pub dispatch_event : NodeEvent → Exec Model (Unit {0})
dispatch_event e = modify (λ m. record m { dispatched = m.dispatched ++ e ∷ [] })

unfoldable pub set_proof : Kwargs → Exec Model (Unit {0})
set_proof k m = elim k.proof [
  | none ↦ (ok tt, m)
  | some p ↦ (ok tt, record m { offer = record (m.offer) { proof = some p } })
]

unfoldable pub on_enter_unproved : Exec Model (Unit {0})
unfolding dispatch_event
on_enter_unproved m = dispatch_event (commit_event m.offer.basic.offer_id) m

unfoldable pub on_enter_published : Exec Model (Unit {0})
unfolding dispatch_event
on_enter_published m = dispatch_event (commitment_proved_event m.offer.basic.offer_id) m

unfoldable pub initiate_refund : Kwargs → Exec Model (Unit {0})
unfolding dispatch_event
initiate_refund k m = elim k.raiden_event [
  | none ↦ (raised key_error, m)
  | some r ↦ dispatch_event (received_inbound_event m.offer.basic.offer_id r) m
]

unfoldable pub on_enter_cancellation : Exec Model (Unit {0})
unfolding dispatch_event
on_enter_cancellation m = dispatch_event (cancellation_request_event m.offer.basic.offer_id) m

-- The `on_enter` callbacks of the states
unfoldable pub on_enter : OfferState → Kwargs → Exec Model (Unit {0})
on_enter unproved k = on_enter_unproved
on_enter proved k = set_proof k
on_enter published k = on_enter_published
on_enter cancellation_requested k = on_enter_cancellation
on_enter wait_for_refund k = initiate_refund k
on_enter _ k = pure tt

-- `OfferMachine.set_state`
unfoldable pub set_state : OfferState → Model → Model
unfolding status_of
set_state s m = record m { offer = record (m.offer) { state = s; status = status_of s } }

-- The triggers that `TRANSITIONS` declares, and `to_<state>`, which the package adds for each state
pub data OfferTrigger : Type 0 where
  initiating payment_failed timeout receive_cancellation_proof : OfferTrigger
  receive_commitment_proof received_offer found_match received_inbound : OfferTrigger
  to_state : OfferState → OfferTrigger

abbrev trigger_number : OfferTrigger → ℕ
trigger_number initiating = 0
trigger_number payment_failed = 1
trigger_number timeout = 2
trigger_number receive_cancellation_proof = 3
trigger_number receive_commitment_proof = 4
trigger_number received_offer = 5
trigger_number found_match = 6
trigger_number received_inbound = 7
trigger_number (to_state s) = 8 + number s

unfoldable pub is_declared : OfferTrigger → Bool
is_declared (to_state s) = false
is_declared _ = true

pub record Transition : Type 0 where
  pub trigger : OfferTrigger
  pub source : OfferState
  pub dest : OfferState

abbrev from_to : OfferTrigger → OfferState → OfferState → Transition
from_to t s d = record { trigger = t; source = s; dest = d }

-- `TRANSITIONS`
unfoldable pub offer_transitions : List Transition
offer_transitions =
    from_to initiating created unproved
    ∷ from_to payment_failed unproved unproved
    ∷ from_to timeout open_ cancellation_requested
    ∷ from_to receive_cancellation_proof open_ canceled
    ∷ from_to receive_commitment_proof unproved proved
    ∷ from_to received_offer proved published
    ∷ from_to found_match published exchanging
    ∷ from_to found_match proved exchanging
    ∷ from_to received_inbound exchanging wait_for_refund
    ∷ from_to received_inbound wait_for_refund completed
    ∷ []

-- The package `transitions` (0.6.9, constraints.txt) is not part of the repository. What follows is
-- its documented behaviour for a hierarchical machine without conditions: a trigger takes the first
-- transition from the present state, or else from its parent, or else raises MachineError; it sets
-- the state and then calls the `on_enter` callbacks of the state. A trigger `to_<state>` leads from
-- every state to its own; entering a state with an `initial` one enters that.
unfoldable pub lookup_transition : OfferTrigger → OfferState → List Transition → Option OfferState
lookup_transition t s [] = none
lookup_transition t s (r ∷ rs) =
    let rest = lookup_transition t s rs in
    if trigger_number r.trigger == trigger_number t && same_offer_state r.source s
    then some r.dest
    else rest

-- `OfferState.initial`, or the state itself where it has no children
unfoldable pub entered : OfferState → OfferState
entered open_ = created
entered pending = exchanging
entered s = s

unfoldable pub declared_destination :
    OfferTrigger → OfferState → List Transition → Option OfferState
unfolding lookup_transition parent
declared_destination t s rows = elim (lookup_transition t s rows) [
  | some d ↦ some d
  | none ↦ elim (parent s) [ none ↦ none | some p ↦ lookup_transition t p rows ]
]

unfoldable pub destination : OfferTrigger → OfferState → List Transition → Option OfferState
unfolding declared_destination entered
destination (to_state d) s rows = some (entered d)
destination t s rows = declared_destination t s rows

unfoldable pub go_to : Option OfferState → Kwargs → Exec Model (Unit {0})
unfolding on_enter set_state
go_to none k = raise machine_error
go_to (some d) k = modify (set_state d) >> on_enter d k

unfoldable pub run_trigger : List Transition → OfferTrigger → Kwargs → Exec Model (Unit {0})
unfolding destination go_to
run_trigger rows t k m = go_to (destination t m.offer.state rows) k m

abbrev pub Fire : Type 0
Fire = OfferTrigger → Kwargs → Exec Model (Unit {0})

pub record IsOfferMachine (fire : Fire) : Type 0 where
  pub fires :
      (t : OfferTrigger) (k : Kwargs) (m : Model) → fire t k m ≡ run_trigger offer_transitions t k m
