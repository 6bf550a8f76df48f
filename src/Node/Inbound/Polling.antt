-- ===== src/Node/Inbound/Polling.antt =====
-- `raiden_poll` of raidex/raidex_node/trader/listener/listen_for_events.py. A poll reads the list of
-- all payments so far; `events` keeps those that were dispatched, by initiator and identifier.
use raidex.Prelude.{
  ℕ, ◌+◌, ◌≡◌, ap, refl, Bool, true, false, Option, none, some, List, [], ◌∷◌, ◌++◌, ◌==◌, ◌&&◌,
  ◌||◌, if◌then◌else◌, arith, Bool-cases, inl, inr,
}
use raidex.Node.Order.Fsm.{RaidenEvent}

-- An element of the JSON list: the type of its event, and its fields
pub data RawEvent : Type 0 where
  payment_received : RaidenEvent → RawEvent
  other_event : RawEvent

-- `encode`
unfoldable pub encode : RawEvent → Option RaidenEvent
encode (payment_received e) = some e
encode other_event = none

-- Equality of `identifier_tuple`
abbrev pub same_event : RaidenEvent → RaidenEvent → Bool
same_event a b = a.initiator == b.initiator && a.identifier == b.identifier

-- `event_id in events`; the events are kept in the order in which they came.
unfoldable pub seen : RaidenEvent → List RaidenEvent → Bool
seen e [] = false
seen e (f ∷ fs) = same_event f e || seen e fs

-- The greenlet's events and what it dispatched
pub record Poller : Type 0 where
  pub events : List RaidenEvent
  pub dispatched : List RaidenEvent

-- The body of the loop over the elements
abbrev new_event : RaidenEvent → Bool → Poller → Poller
new_event e true p = p
new_event e false p = record { events = p.events ++ e ∷ []; dispatched = p.dispatched ++ e ∷ [] }

abbrev encoded_event : Option RaidenEvent → Poller → Poller
unfolding seen
encoded_event none p = p
encoded_event (some e) p = new_event e (seen e p.events) p

unfoldable pub request_events : List RawEvent → Poller → Poller
unfolding encoded_event encode
request_events [] p = p
request_events (raw ∷ raws) p = request_events raws (encoded_event (encode raw) p)

-- The answers of the polls in order
unfoldable pub poll : List (List RawEvent) → Poller → Poller
unfolding request_events
poll [] p = p
poll (answer ∷ answers) p = poll answers (request_events answer p)

unfoldable pub new_poller : Poller
new_poller = record { events = []; dispatched = [] }

-- How often an event with this id is in a list
unfoldable pub times : RaidenEvent → List RaidenEvent → ℕ
times e [] = 0
times e (f ∷ fs) = (if same_event f e then 1 else 0) + times e fs

-- Whether an answer has a payment with this id
unfoldable pub answered : RaidenEvent → List RawEvent → Bool
answered e [] = false
answered e (payment_received f ∷ raws) = same_event f e || answered e raws
answered e (other_event ∷ raws) = answered e raws

unfoldable pub answered_by : RaidenEvent → List (List RawEvent) → Bool
answered_by e [] = false
answered_by e (a ∷ answers) = answered e a || answered_by e answers

-- What was dispatched is what is kept, and no id is there twice.
record IsOnce (e : RaidenEvent) (p : Poller) : Type 0 where
  kept : p.events ≡ p.dispatched
  once : times e p.dispatched ≡ (if seen e p.events then 1 else 0)

times-append_one :
    (e f : RaidenEvent) (es : List RaidenEvent)
    → times e (es ++ f ∷ []) ≡ times e es + (if same_event f e then 1 else 0)
unfolding times
times-append_one e f [] = ground arith
times-append_one e f (g ∷ es) = ground (arith, times-append_one e f es)

seen-append_one :
    (e f : RaidenEvent) (es : List RaidenEvent)
    → seen e (es ++ f ∷ []) ≡ (seen e es || same_event f e)
unfolding seen
seen-append_one e f [] = ground arith
seen-append_one e f (g ∷ es) = ground (arith, seen-append_one e f es)

-- Events with one id are seen alike.
seen_same :
    (e f : RaidenEvent) (es : List RaidenEvent) → same_event f e ≡ true → seen f es ≡ seen e es
unfolding seen
seen_same e f [] h = refl
seen_same e f (g ∷ es) h = ground (arith, h, seen_same e f es h)

-- The poller after one element: seen before, or an element with the id
new_event-lem :
    (e f : RaidenEvent) (p : Poller)
    → IsOnce e p
    → IsOnce e (new_event f (seen f p.events) p)
      × (seen e (new_event f (seen f p.events) p).events ≡ (seen e p.events || same_event f e))
new_event-lem e f p h = elim (Bool-cases (seen f p.events)) [
  | inl s ↦ rw s (h, ground (arith, s, seen_same e f p.events))
  | inr s ↦ rw s (
    record {
      kept = ap (λ es. es ++ f ∷ []) h.kept;
      once = ground (
        arith,
        times-append_one e f p.dispatched,
        seen-append_one e f p.events,
        seen_same e f p.events,
        h.once,
        s,
      );
    },
    seen-append_one e f p.events,
  )
]

-- What a run of the poller from `p` to `p'` with an answer to the question `asked` keeps
record Polls (e : RaidenEvent) (asked : Bool) (p p' : Poller) : Type 0 where
  once : IsOnce e p'
  known : seen e p'.events ≡ (seen e p.events || asked)

request_events-Polls :
    (e : RaidenEvent) (raws : List RawEvent) (p : Poller)
    → IsOnce e p
    → Polls e (answered e raws) p (request_events raws p)
unfolding request_events answered encoded_event encode
request_events-Polls e [] p h = record { once = h; known = ground arith }
request_events-Polls e (other_event ∷ raws) p h = request_events-Polls e raws p h
request_events-Polls e (payment_received f ∷ raws) p h =
    let step = new_event-lem e f p h in
    let rest = request_events-Polls e raws (new_event f (seen f p.events) p) step.0 in
    record { once = rest.once; known = ground (arith, rest.known, step.1) }

poll-Polls :
    (e : RaidenEvent) (answers : List (List RawEvent)) (p : Poller)
    → IsOnce e p
    → Polls e (answered_by e answers) p (poll answers p)
unfolding poll answered_by
poll-Polls e [] p h = record { once = h; known = ground arith }
poll-Polls e (a ∷ answers) p h =
    let step = request_events-Polls e a p h in
    let rest = poll-Polls e answers (request_events a p) step.once in
    record { once = rest.once; known = ground (arith, rest.known, step.known) }

-- Over any answers of the Raiden node in any order, a payment is dispatched exactly once if some
-- answer has a payment with its initiator and identifier, and not at all otherwise.
pub poll-dispatches_once :
    (answers : List (List RawEvent)) (e : RaidenEvent)
    → times e (poll answers new_poller).dispatched ≡ (if answered_by e answers then 1 else 0)
unfolding new_poller seen times
poll-dispatches_once answers e =
    let run = poll-Polls e answers new_poller (record { kept = refl; once = refl }) in
    ground (arith, run.once.once, run.known)
