-- ===== src/MessageBroker.antt =====
-- `MessageBroker` of raidex/message_broker/message_broker.py: the listeners of each topic, each with
-- a queue of its own. The queues are places in `queues`, since a listener and whoever reads from it
-- share one. What a listener makes of a message is an optional item, or an exception.
pub mod Client
mod Examples
use raidex.Prelude.{
  ℕ, ◌+◌, ◌≡◌, ◌∙◌, ap, refl, Bool, true, false, Option, none, some, List, [], ◌∷◌, ◌++◌, ◌==◌, ◌<◌,
  get_elem?, set, length, if◌then◌else◌, All, arith, get_elem?-set, Option-cases, Bool-cases, inl,
  inr, ==-refl,
}
use raidex.Dict.{Dict, get, put, get-put}
use raidex.Exec.{Exec, Exc, Result, ok, raised, value_error, pure, modify, ◌>>◌, ◌>>=◌}

module _ (Message Item : Type 0) where
  -- `Listener`, with its queue; no transform puts the message itself, which `whole` makes an item.
  pub record Listener : Type 0 where
    pub topic : ℕ
    pub queue : ℕ
    pub transform : Message → Result (Option Item)

  pub record Broker : Type 0 where
    pub listeners : Dict (List Listener)
    pub queues : List (List Item)

  -- A `defaultdict(list)` reads as empty under a missing key.
  abbrev or_empty : Option (List Listener) → List Listener
  or_empty none = []
  or_empty (some ls) = ls

  unfoldable pub listeners_on : ℕ → Broker → List Listener
  listeners_on topic b = or_empty (get b.listeners topic)

  abbrev put_found : Option (List Item) → Item → ℕ → List (List Item) → List (List Item)
  put_found none i q queues = queues
  put_found (some items) i q queues = set queues q (items ++ i ∷ [])

  -- `message_queue_async.put(...)` where the transform gives something
  abbrev put_item : Option Item → ℕ → List (List Item) → List (List Item)
  put_item none q queues = queues
  put_item (some i) q queues = put_found (get_elem? queues q) i q queues

  -- The loop of `_send`
  abbrev put_then :
      Result (Option Item)
      → ℕ
      → Exec (List (List Item)) (Unit {0})
      → Exec (List (List Item)) (Unit {0})
  put_then (raised x) q rest queues = (raised x, queues)
  put_then (ok o) q rest queues = rest (put_item o q queues)

  unfoldable pub deliver : Message → List Listener → Exec (List (List Item)) (Unit {0})
  deliver m [] queues = (ok tt, queues)
  deliver m (l ∷ ls) queues = put_then (l.transform m) l.queue (deliver m ls) queues

  abbrev with_queues : Broker → Result (Unit {0}) × List (List Item) → Result Bool × Broker
  with_queues b (raised x, queues) = (raised x, record b { queues = queues })
  with_queues b (ok _, queues) = (ok true, record b { queues = queues })

  abbrev send_to : Message → List Listener → Exec Broker Bool
  send_to m [] b = (ok false, b)
  send_to m (l ∷ ls) b = with_queues b (deliver m (l ∷ ls) b.queues)

  -- `send`, `_send` and `broadcast`, which is a send to its own topic. False where nobody listens.
  unfoldable pub send : ℕ → Message → Exec Broker Bool
  unfolding deliver listeners_on
  send topic m b = send_to m (listeners_on topic b) b

  -- `listen_on`, `_listen_on` and `listen_on_broadcast`
  unfoldable pub listen_on : ℕ → (Message → Result (Option Item)) → Broker → Listener × Broker
  unfolding listeners_on
  listen_on topic transform b =
      let l : Listener = record { topic = topic; queue = length b.queues; transform = transform } in
      (
        l,
        record {
          listeners = put b.listeners topic (listeners_on topic b ++ l ∷ []);
          queues = b.queues ++ [] ∷ [];
        },
      )

  -- `list.remove`: the first listener that is this one, which its queue tells; none raises
  -- ValueError.
  unfoldable pub remove_listener : ℕ → List Listener → Option (List Listener)
  remove_listener q [] = none
  remove_listener q (l ∷ ls) =
      let rest = remove_listener q ls in
      if l.queue == q then some ls else (elim rest [ none ↦ none | some ms ↦ some (l ∷ ms) ])

  abbrev removed : Option (List Listener) → ℕ → Exec Broker (Unit {0})
  removed none topic b = (raised value_error, b)
  removed (some ls) topic b = (ok tt, record b { listeners = put b.listeners topic ls })

  unfoldable pub stop_listen : Listener → Exec Broker (Unit {0})
  unfolding remove_listener listeners_on
  stop_listen l b = removed (remove_listener l.queue (listeners_on l.topic b)) l.topic b

  -- What one listener gets of a message
  unfoldable pub received : Option Item → List Item
  received none = []
  received (some i) = i ∷ []

  abbrev arrived : Result (Option Item) → Bool → List Item → List Item
  arrived (raised x) here rest = []
  arrived (ok o) here rest = if here then received o ++ rest else rest

  -- The items that the listeners before the first whose transform raises put into a queue, in order
  unfoldable pub arrivals : Message → List Listener → ℕ → List Item
  unfolding received
  arrivals m [] q = []
  arrivals m (l ∷ ls) q = let rest = arrivals m ls q in arrived (l.transform m) (l.queue == q) rest

  append_nil : (xs : List Item) → xs ++ [] ≡ xs
  append_nil [] = refl
  append_nil (x ∷ xs) = ground (arith, append_nil xs)

  append_assoc : (xs ys zs : List Item) → (xs ++ ys) ++ zs ≡ xs ++ (ys ++ zs)
  append_assoc [] ys zs = refl
  append_assoc (x ∷ xs) ys zs = ground (arith, append_assoc xs ys zs)

  get-put_item :
      (o : Option Item) (p q : ℕ) (queues : List (List Item)) (items : List Item)
      → get_elem? queues q ≡ some items
      → get_elem? (put_item o p queues) q ≡ some (items ++ (if p == q then received o else []))
  unfolding received
  get-put_item none p q queues items h = ground (arith, h, append_nil items)
  get-put_item (some i) p q queues items h = elim (Option-cases (get_elem? queues p)) [
    | inl e ↦ rw (e) (ground (arith, h, e, append_nil items))
    | inr (found, e) ↦
        rw (e)
          (ground (arith, h, e, append_nil items, get_elem?-set queues p q (found ++ i ∷ []) e))
  ]

  arrivals-cons :
      (here : Bool) (o : Option Item) (rest items : List Item)
      → (items ++ (if here then received o else [])) ++ rest ≡ items ++ arrived (ok o) here rest
  arrivals-cons true o rest items = append_assoc items (received o) rest
  arrivals-cons false o rest items = rw (append_nil items) refl

  -- The exception of the first listener whose transform raises
  unfoldable pub first_raised : Message → List Listener → Option Exc
  first_raised m [] = none
  first_raised m (l ∷ ls) =
      let rest = first_raised m ls in elim (l.transform m) [ raised x ↦ some x | ok _ ↦ rest ]

  abbrev raised_or {κ} : {A : Type κ} → A → Option Exc → Result A
  raised_or a none = ok a
  raised_or a (some x) = raised x

  -- The loop over the listeners ends with the first exception, after the items of those before.
  pub record IsDelivered (m : Message) (ls : List Listener) (q : ℕ) (items : List Item)
      (r : Result (Unit {0}) × List (List Item)) : Type 0 where
    pub result : r.0 ≡ raised_or tt (first_raised m ls)
    pub items_in : get_elem? r.1 q ≡ some (items ++ arrivals m ls q)

  deliver-next :
      (m : Message) (l : Listener) (ls : List Listener) (q : ℕ) (queues : List (List Item))
      (items : List Item) (made : Result (Option Item))
      → l.transform m ≡ made
      → get_elem? queues q ≡ some items
      → ((qs : List (List Item)) (is : List Item)
          → get_elem? qs q ≡ some is
          → IsDelivered m ls q is (deliver m ls qs))
      → IsDelivered m (l ∷ ls) q items (put_then made l.queue (deliver m ls) queues)
  unfolding arrivals first_raised
  deliver-next m l ls q queues items (raised x) e h k = record {
    result = rw (e) refl;
    items_in = rw (e, append_nil items) h;
  }
  deliver-next m l ls q queues items (ok o) e h k =
      let rest =
        k (put_item o l.queue queues) (items ++ (if l.queue == q then received o else []))
          (get-put_item o l.queue q queues items h) in
      record {
        result = rw (e) (rest.result);
        items_in =
            rw (e)
              (rest.items_in ∙ ap some (arrivals-cons (l.queue == q) o (arrivals m ls q) items));
      }

  deliver-IsDelivered :
      (m : Message) (ls : List Listener) (q : ℕ) (queues : List (List Item)) (items : List Item)
      → get_elem? queues q ≡ some items
      → IsDelivered m ls q items (deliver m ls queues)
  unfolding deliver first_raised arrivals
  deliver-IsDelivered m [] q queues items h = record {
    result = refl;
    items_in = rw (append_nil items) h;
  }
  deliver-IsDelivered m (l ∷ ls) q queues items h =
      deliver-next m l ls q queues items (l.transform m) refl h
        (λ qs is e. deliver-IsDelivered m ls q qs is e)

  -- `not queues` of `_send`
  abbrev pub is_heard : List Listener → Bool
  is_heard [] = false
  is_heard (l ∷ ls) = true

  abbrev pub SendDelivers :
      Message → List Listener → Broker → ℕ → List Item → Result Bool × Broker → Type 0
  SendDelivers m ls b q items r =
      (r.0 ≡ raised_or (is_heard ls) (first_raised m ls))
      × (get_elem? r.1.queues q ≡ some (items ++ arrivals m ls q))
      × (r.1.listeners ≡ b.listeners)

  with-Delivers :
      (m : Message) (l : Listener) (ls : List Listener) (b : Broker) (q : ℕ) (items : List Item)
      (r : Result (Unit {0}) × List (List Item))
      → IsDelivered m (l ∷ ls) q items r
      → SendDelivers m (l ∷ ls) b q items (with_queues b r)
  with-Delivers m l ls b q items (raised x, queues) h =
      elim (Option-cases (first_raised m (l ∷ ls))) [
        | inl e ↦ absurd (ground (arith, h.result, e))
        | inr (y, e) ↦ (ground (arith, h.result, e), h.items_in, refl)
      ]
  with-Delivers m l ls b q items (ok u, queues) h = elim (Option-cases (first_raised m (l ∷ ls))) [
    | inl e ↦ (rw (e) refl, h.items_in, refl)
    | inr (y, e) ↦ absurd (ground (arith, h.result, e))
  ]

  sent-Delivers :
      (m : Message) (ls : List Listener) (b : Broker) (q : ℕ) (items : List Item)
      → get_elem? b.queues q ≡ some items
      → SendDelivers m ls b q items (send_to m ls b)
  unfolding arrivals first_raised
  sent-Delivers m [] b q items h = (refl, rw (append_nil items) h, refl)
  sent-Delivers m (l ∷ ls) b q items h =
      with-Delivers m l ls b q items (deliver m (l ∷ ls) b.queues)
        (deliver-IsDelivered m (l ∷ ls) q b.queues items h)

  -- A send to a topic raises what the first listener of the topic raises whose transform does, and
  -- otherwise tells whether anybody listens; it puts into each queue what the listeners of the topic
  -- before that one, or all of them, that write to the queue make of the message, in their order
  -- and after what the queue held, and leaves the listeners as they are.
  pub send-Delivers :
      (topic : ℕ) (m : Message) (b : Broker) (q : ℕ) (items : List Item)
      → get_elem? b.queues q ≡ some items
      → SendDelivers m (listeners_on topic b) b q items (send topic m b)
  unfolding send
  send-Delivers topic m b = sent-Delivers m (listeners_on topic b) b

  remove_listener-append :
      (ls : List Listener) (l : Listener)
      → All (λ k. k.queue < l.queue) ls
      → remove_listener l.queue (ls ++ l ∷ []) ≡ some ls
  unfolding remove_listener
  remove_listener-append [] l h = ground arith
  remove_listener-append (k ∷ ls) l h = rw (remove_listener-append ls l h.1) (ground (arith, h.0))

  listeners_on-put :
      (b : Broker) (topic j : ℕ) (ls : List Listener) (queues : List (List Item))
      → listeners_on j (record { listeners = put b.listeners topic ls; queues = queues })
        ≡ (if topic == j then ls else listeners_on j b)
  unfolding listeners_on
  listeners_on-put b topic j ls queues = elim (Bool-cases (topic == j)) [
    | inl e ↦ rw (get-put, e) refl
    | inr e ↦ rw (get-put, e) refl
  ]

  -- Every listener on the topic has a queue of the broker.
  abbrev pub HasQueues : ℕ → Broker → Type 0
  HasQueues topic b = All (λ l. l.queue < length b.queues) (listeners_on topic b)

  stop_listen-eq :
      (topic : ℕ) (f : Message → Result (Option Item)) (b : Broker)
      → HasQueues topic b
      → stop_listen (listen_on topic f b).0 (listen_on topic f b).1 ≡ (
        ok tt,
        record {
          listeners = put (listen_on topic f b).1.listeners topic (listeners_on topic b);
          queues = b.queues ++ [] ∷ [];
        },
      )
  unfolding stop_listen listen_on
  stop_listen-eq topic f b h =
      let l : Listener = record { topic = topic; queue = length b.queues; transform = f } in
      rw
        (
          listeners_on-put b topic topic (listeners_on topic b ++ l ∷ []) (b.queues ++ [] ∷ []),
          ==-refl topic,
          remove_listener-append (listeners_on topic b) l h,
        )
        refl

  restored :
      (topic j : ℕ) (f : Message → Result (Option Item)) (b : Broker)
      → listeners_on j (record {
        listeners = put (listen_on topic f b).1.listeners topic (listeners_on topic b);
        queues = b.queues ++ [] ∷ [];
      })
        ≡ listeners_on j b
  unfolding listen_on
  restored topic j f b =
      let l : Listener = record { topic = topic; queue = length b.queues; transform = f } in
      let b1 : Broker = record {
        listeners = put b.listeners topic (listeners_on topic b ++ l ∷ []);
        queues = b.queues ++ [] ∷ [];
      } in
      listeners_on-put b1 topic j (listeners_on topic b) b1.queues
      ∙ grind
          (arith, listeners_on-put b topic j (listeners_on topic b ++ l ∷ []) (b.queues ++ [] ∷ []))

  -- Where the listeners on a topic have queues of the broker, a listener that starts to listen on it
  -- and stops does so without an exception, and leaves each topic the listeners that it had.
  pub stop_listen-listen_on :
      (topic j : ℕ) (f : Message → Result (Option Item)) (b : Broker)
      → HasQueues topic b
      → ((stop_listen (listen_on topic f b).0 (listen_on topic f b).1).0 ≡ ok tt)
        × (listeners_on j (stop_listen (listen_on topic f b).0 (listen_on topic f b).1).1
            ≡ listeners_on j b)
  stop_listen-listen_on topic j f b h = rw (stop_listen-eq topic f b h) (refl, restored topic j f b)
