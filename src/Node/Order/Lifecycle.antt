-- ===== src/Node/Order/Lifecycle.antt =====
-- What becomes of an offer under any calls of the triggers of its machine
-- (raidex/raidex_node/order/__init__.py), with the arguments that the handlers give them.
use raidex.Prelude.{
  ℕ, ◌+◌, ◌≡◌, ◌∙◌, ap, fun_ext, refl, Bool, true, false, Option, none, some, List, [], ◌∷◌, ◌++◌,
  arith, ◌||◌, not, Option-cases,
}
use raidex.Exec.{raised, machine_error}
use raidex.CommitmentService.Data.{CommitmentProof}
use raidex.Node.Offer.{BasicOffer}
use raidex.Node.Order.Fsm.{
  OfferState, open_, created, unproved, proved, published, cancellation_requested, pending,
  exchanging, wait_for_refund, completed, canceled, parent, status_of, Offer, create_from_basic,
  has_proof, RaidenEvent, NodeEvent, commit_event, commitment_proved_event,
  cancellation_request_event, received_inbound_event, Kwargs, no_kwargs, Model, dispatch_event,
  set_proof, on_enter_unproved, on_enter_published, initiate_refund, on_enter_cancellation,
  on_enter, set_state, OfferTrigger, initiating, payment_failed, timeout,
  receive_cancellation_proof, receive_commitment_proof, received_offer, found_match,
  received_inbound, TraderRole, offer_transitions, lookup_transition, destination, run_trigger,
  Fire, IsOfferMachine, go_to, to_state, entered, declared_destination, is_declared,
}

-- The state that a trigger leads to; `none` where it is not allowed.
unfoldable pub next_state : OfferTrigger → OfferState → Option OfferState
unfolding entered
next_state (to_state d) s = some (entered d)
next_state initiating created = some unproved
next_state payment_failed unproved = some unproved
next_state timeout open_ = some cancellation_requested
next_state timeout created = some cancellation_requested
next_state timeout unproved = some cancellation_requested
next_state timeout proved = some cancellation_requested
next_state timeout published = some cancellation_requested
next_state timeout cancellation_requested = some cancellation_requested
next_state receive_cancellation_proof open_ = some canceled
next_state receive_cancellation_proof created = some canceled
next_state receive_cancellation_proof unproved = some canceled
next_state receive_cancellation_proof proved = some canceled
next_state receive_cancellation_proof published = some canceled
next_state receive_cancellation_proof cancellation_requested = some canceled
next_state receive_commitment_proof unproved = some proved
next_state received_offer proved = some published
next_state found_match proved = some exchanging
next_state found_match published = some exchanging
next_state received_inbound exchanging = some wait_for_refund
next_state received_inbound wait_for_refund = some completed
next_state _ _ = none

destination-eq-next_state :
    (t : OfferTrigger) (s : OfferState) → destination t s offer_transitions ≡ next_state t s
unfolding destination declared_destination lookup_transition parent offer_transitions next_state
destination-eq-next_state initiating s = ground arith
destination-eq-next_state payment_failed s = ground arith
destination-eq-next_state timeout s = ground arith
destination-eq-next_state receive_cancellation_proof s = ground arith
destination-eq-next_state receive_commitment_proof s = ground arith
destination-eq-next_state received_offer s = ground arith
destination-eq-next_state found_match s = ground arith
destination-eq-next_state received_inbound s = ground arith
destination-eq-next_state (to_state d) s = refl

-- A call of a declared trigger with the arguments that its handlers give it: `receive_commitment_proof` comes
-- with a proof, `received_inbound` with the event of the payment.
pub data OfferCall : Type 0 where
  initiate fail time_out cancel publish match_found : OfferCall
  prove : CommitmentProof → OfferCall
  inbound : RaidenEvent → OfferCall

abbrev pub trigger_of_call : OfferCall → OfferTrigger
trigger_of_call initiate = initiating
trigger_of_call fail = payment_failed
trigger_of_call time_out = timeout
trigger_of_call cancel = receive_cancellation_proof
trigger_of_call publish = received_offer
trigger_of_call match_found = found_match
trigger_of_call (prove p) = receive_commitment_proof
trigger_of_call (inbound r) = received_inbound

abbrev pub kwargs_of_call : OfferCall → Kwargs
kwargs_of_call (prove p) = record { proof = some p; raiden_event = none }
kwargs_of_call (inbound r) = record { proof = none; raiden_event = some r }
kwargs_of_call _ = no_kwargs

-- The calls in order; a call that raises ends the handler that makes it, and the next one goes on.
unfoldable pub run_calls : Fire → List OfferCall → Model → Model
run_calls fire [] m = m
run_calls fire (c ∷ cs) m = run_calls fire cs (fire (trigger_of_call c) (kwargs_of_call c) m).1

abbrev inbound_one : NodeEvent → ℕ
inbound_one (received_inbound_event i r) = 1
inbound_one _ = 0

-- How many payments have been handed on to be refunded or claimed
unfoldable pub inbound_count : List NodeEvent → ℕ
inbound_count [] = 0
inbound_count (e ∷ es) = inbound_one e + inbound_count es

inbound_count-append_one :
    (es : List NodeEvent) (e : NodeEvent)
    → inbound_count (es ++ e ∷ []) ≡ inbound_count es + inbound_one e
unfolding inbound_count
inbound_count-append_one [] e = omega arith
inbound_count-append_one (f ∷ es) e = omega (arith, inbound_count-append_one es e)

unfoldable pub inbounds_due : OfferState → ℕ
inbounds_due wait_for_refund = 1
inbounds_due completed = 1
inbounds_due _ = 0

unfoldable pub proof_due : OfferState → Bool
proof_due proved = true
proof_due published = true
proof_due exchanging = true
proof_due wait_for_refund = true
proof_due completed = true
proof_due _ = false

-- A state without children
unfoldable pub is_leaf : OfferState → Bool
is_leaf open_ = false
is_leaf pending = false
is_leaf _ = true

-- The facts about an offer in a state and what was dispatched
pub record AgreesAt (s : OfferState) (m : Model) : Type 0 where
  pub leaf : is_leaf s ≡ true
  pub status : m.offer.status ≡ status_of s
  pub proof : (not (proof_due s) || has_proof m.offer) ≡ true
  pub inbounds : inbound_count m.dispatched ≡ inbounds_due s

abbrev pub Agrees : Model → Type 0
Agrees m = AgreesAt m.offer.state m

run_call-eq :
    (c : OfferCall) (m : Model)
    → run_trigger offer_transitions (trigger_of_call c) (kwargs_of_call c) m
      ≡ go_to (next_state (trigger_of_call c) m.offer.state) (kwargs_of_call c) m
unfolding run_trigger
run_call-eq c m =
    ap (λ d. go_to d (kwargs_of_call c) m)
      (destination-eq-next_state (trigger_of_call c) m.offer.state)

go_to-Agrees :
    (c : OfferCall) (s : OfferState) (o : Offer) (es : List NodeEvent)
    → AgreesAt s (record { offer = o; dispatched = es })
    → o.state ≡ s
    → Agrees
        (go_to
          (next_state (trigger_of_call c) s)
          (kwargs_of_call c)
          (record { offer = o; dispatched = es })).1
unfolding go_to next_state on_enter set_state on_enter_unproved on_enter_published initiate_refund
    on_enter_cancellation set_proof dispatch_event inbounds_due proof_due is_leaf status_of parent
    has_proof
go_to-Agrees initiate s o es h e = ground (
  arith,
  h.leaf,
  h.status,
  h.proof,
  h.inbounds,
  inbound_count-append_one es (commit_event o.basic.offer_id),
)
go_to-Agrees fail s o es h e = ground (
  arith,
  h.leaf,
  h.status,
  h.proof,
  h.inbounds,
  inbound_count-append_one es (commit_event o.basic.offer_id),
)
go_to-Agrees time_out s o es h e = ground (
  arith,
  h.leaf,
  h.status,
  h.proof,
  h.inbounds,
  inbound_count-append_one es (cancellation_request_event o.basic.offer_id),
)
go_to-Agrees cancel s o es h e = ground (arith, h.leaf, h.status, h.proof, h.inbounds)
go_to-Agrees publish s o es h e = ground (
  arith,
  h.leaf,
  h.status,
  h.proof,
  h.inbounds,
  inbound_count-append_one es (commitment_proved_event o.basic.offer_id),
)
go_to-Agrees match_found s o es h e = ground (arith, h.leaf, h.status, h.proof, h.inbounds)
go_to-Agrees (prove p) s o es h e = ground (arith, h.leaf, h.status, h.proof, h.inbounds)
go_to-Agrees (inbound r) s o es h e = ground (
  arith,
  h.leaf,
  h.status,
  h.proof,
  h.inbounds,
  inbound_count-append_one es (received_inbound_event o.basic.offer_id r),
)

-- What holds of an offer whatever the calls
abbrev pub StatusAgrees : Model → Type 0
StatusAgrees m = (is_leaf m.offer.state ≡ true) × (m.offer.status ≡ status_of m.offer.state)

-- Any triggers with any arguments, in order
unfoldable pub run_triggers : Fire → List (OfferTrigger × Kwargs) → Model → Model
run_triggers fire [] m = m
run_triggers fire ((t, k) ∷ ts) m = run_triggers fire ts (fire t k m).1

abbrev LeadsToLeaf : Option OfferState → Type 0
LeadsToLeaf none = Unit
LeadsToLeaf (some d) = is_leaf d ≡ true

leaf-next_state : (t : OfferTrigger) (s : OfferState) → LeadsToLeaf (next_state t s)
unfolding next_state is_leaf
leaf-next_state initiating s = ground arith
leaf-next_state payment_failed s = ground arith
leaf-next_state timeout s = ground arith
leaf-next_state receive_cancellation_proof s = ground arith
leaf-next_state receive_commitment_proof s = ground arith
leaf-next_state received_offer s = ground arith
leaf-next_state found_match s = ground arith
leaf-next_state received_inbound s = ground arith
leaf-next_state (to_state d) s = ground arith

go_to-StatusAgrees :
    (k : Kwargs) (m : Model) (d : Option OfferState)
    → StatusAgrees m
    → LeadsToLeaf d
    → StatusAgrees (go_to d k m).1
unfolding go_to on_enter set_state on_enter_unproved on_enter_published initiate_refund
    on_enter_cancellation set_proof dispatch_event status_of parent is_leaf
go_to-StatusAgrees k m none h l = h
go_to-StatusAgrees k m (some d) h l =
    ground (arith, l, Option-cases k.proof, Option-cases k.raiden_event)

-- A new offer, before any call
unfoldable pub new_model : BasicOffer → TraderRole → Model
unfolding create_from_basic
new_model b role = record { offer = create_from_basic b role; dispatched = [] }

new_model-Agrees : (b : BasicOffer) (role : TraderRole) → Agrees (new_model b role)
unfolding new_model create_from_basic inbound_count inbounds_due proof_due is_leaf
new_model-Agrees b role = record { leaf = refl; status = refl; proof = refl; inbounds = refl }

module _ (fire : Fire) (machine : IsOfferMachine fire) where
  call-Agrees :
      (c : OfferCall) (m : Model)
      → Agrees m
      → Agrees (fire (trigger_of_call c) (kwargs_of_call c) m).1
  call-Agrees c m h =
      rw (machine.fires, run_call-eq) (go_to-Agrees c m.offer.state m.offer m.dispatched h refl)

  calls-Agrees : (cs : List OfferCall) (m : Model) → Agrees m → Agrees (run_calls fire cs m)
  unfolding run_calls
  calls-Agrees [] m h = h
  calls-Agrees (c ∷ cs) m h = calls-Agrees cs _ (call-Agrees c m h)

  trigger-StatusAgrees :
      (t : OfferTrigger) (k : Kwargs) (m : Model) → StatusAgrees m → StatusAgrees (fire t k m).1
  unfolding run_trigger
  trigger-StatusAgrees t k m h =
      rw (machine.fires, destination-eq-next_state)
        (go_to-StatusAgrees k m (next_state t m.offer.state) h (leaf-next_state t m.offer.state))

  triggers-StatusAgrees :
      (ts : List (OfferTrigger × Kwargs)) (m : Model)
      → StatusAgrees m
      → StatusAgrees (run_triggers fire ts m)
  unfolding run_triggers
  triggers-StatusAgrees [] m h = h
  triggers-StatusAgrees ((t, k) ∷ ts) m h =
      triggers-StatusAgrees ts _ (trigger-StatusAgrees t k m h)

  -- Whatever triggers are called on a new offer, those that the package adds included, with any
  -- arguments and in any order, the offer is in a state without children and its status is that of
  -- the state. Where only triggers that `TRANSITIONS` declares are called, each with the arguments
  -- that its handler gives it, the offer also has a commitment proof from `proved` on, and its
  -- payments were handed on exactly once when it waits for the refund or is completed, and not at
  -- all in any other state.
  pub run_calls-Agrees :
      (b : BasicOffer) (role : TraderRole) (ts : List (OfferTrigger × Kwargs)) (cs : List OfferCall)
      → StatusAgrees (run_triggers fire ts (new_model b role))
        × Agrees (run_calls fire cs (new_model b role))
  run_calls-Agrees b role ts cs =
      let new = new_model-Agrees b role in
      (
        triggers-StatusAgrees ts (new_model b role) (new.leaf, new.status),
        calls-Agrees cs (new_model b role) new,
      )

unfoldable pub is_final : OfferState → Bool
is_final completed = true
is_final canceled = true
is_final _ = false

next_state-final :
    (t : OfferTrigger) (s : OfferState)
    → is_declared t ≡ true
    → is_final s ≡ true
    → next_state t s ≡ none
unfolding is_final next_state is_declared
next_state-final t completed d h = ground (arith, d)
next_state-final t canceled d h = ground (arith, d)
next_state-final t open_ d h = cc
next_state-final t created d h = cc
next_state-final t unproved d h = cc
next_state-final t proved d h = cc
next_state-final t published d h = cc
next_state-final t cancellation_requested d h = cc
next_state-final t pending d h = cc
next_state-final t exchanging d h = cc
next_state-final t wait_for_refund d h = cc

module _ (fire : Fire) (machine : IsOfferMachine fire) where
  pub fire-eq-go_to :
      (t : OfferTrigger) (k : Kwargs) (m : Model)
      → fire t k m ≡ go_to (next_state t m.offer.state) k m
  unfolding run_trigger
  fire-eq-go_to t k m =
      machine.fires t k m ∙ ap (λ d. go_to d k m) (destination-eq-next_state t m.offer.state)

  -- A completed or canceled offer refuses every trigger that `TRANSITIONS` declares, with any
  -- arguments: it raises MachineError, the offer stays as it is, and nothing is dispatched. The
  -- triggers `to_<state>` that the package adds are not refused.
  pub fire-final :
      (t : OfferTrigger) (k : Kwargs) (m : Model)
      → is_declared t ≡ true
      → is_final m.offer.state ≡ true
      → fire t k m ≡ (raised machine_error, m)
  unfolding go_to
  fire-final t k m d h =
      fire-eq-go_to t k m ∙ ap (λ r. go_to r k m) (next_state-final t m.offer.state d h)

  -- An offer that gets its proof, is matched and sees both payments is completed, keeps the proof,
  -- and has asked once for the commitment and once for the refund, with the first payment.
  pub run_calls-completes :
      (b : BasicOffer) (role : TraderRole) (p : CommitmentProof) (r s : RaidenEvent)
      → run_calls fire
          (initiate ∷ prove p ∷ match_found ∷ inbound r ∷ inbound s ∷ [])
          (new_model b role)
        ≡ record {
          offer = record {
            basic = b;
            trader_role = role;
            proof = some p;
            state = completed;
            status = completed;
          };
          dispatched = commit_event b.offer_id ∷ received_inbound_event b.offer_id r ∷ [];
        }
  unfolding run_calls new_model create_from_basic go_to next_state on_enter set_state
      on_enter_unproved set_proof initiate_refund dispatch_event status_of parent
  run_calls-completes b role p r s =
      ap
        (λ f.
          run_calls f (initiate ∷ prove p ∷ match_found ∷ inbound r ∷ inbound s ∷ [])
            (new_model b role))
        (fun_ext λ t. fun_ext λ k. fun_ext λ m. fire-eq-go_to t k m)
