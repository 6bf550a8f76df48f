-- ===== src/Node/Outbound/Run/Outcome.antt =====
-- What any order of the consumers of raidex/raidex_node/architecture/event_architecture.py comes to.
use raidex.Prelude.{
  ℕ, ◌+◌, ◌≡◌, ◌∙◌, ap, sym, refl, List, [], ◌∷◌, ◌++◌, arith, false, keep, Bool-cases, inl, inr,
}
use raidex.Node.Offer.{BasicOffer}
use raidex.Node.Inbound.Filters.{Listener, ListenerEvent, handle_listener_events}
use raidex.Node.Outbound.Events.{
  CommitmentServiceEvent, Event, commitment_service_event, transport_event, trader_event,
  raiden_listener_event, Processor, trader, cs_client, transport, raiden_listener, Queues,
  dispatch_events, put_event, takes, set_queue,
}
use raidex.Node.Outbound.Trading.{TransferCall, ChannelRequest, trader_handle_event}
use raidex.Node.Outbound.Run.{
  Settings, Sent, Work, cs_handle_event, takers_awaited, clock_reads, transport_handle_event,
  commit_events, received_inbound_from_swap, request_cancellation, on_event, consume, run,
}

module _ {A : Type 0} where
  -- The results of a list of events one after the other
  unfoldable pub collect : (Event → List A) → List Event → List A
  collect f [] = []
  collect f (e ∷ es) = f e ++ collect f es

  append_assoc : (xs ys zs : List A) → (xs ++ ys) ++ zs ≡ xs ++ (ys ++ zs)
  append_assoc [] ys zs = refl
  append_assoc (x ∷ xs) ys zs = ap (λ r. x ∷ r) (append_assoc xs ys zs)

  append_nil : (xs : List A) → xs ++ [] ≡ xs
  append_nil [] = refl
  append_nil (x ∷ xs) = ap (λ r. x ∷ r) (append_nil xs)

  collect-append :
      (f : Event → List A) (es ds : List Event)
      → collect f (es ++ ds) ≡ collect f es ++ collect f ds
  unfolding collect
  collect-append f [] ds = refl
  collect-append f (e ∷ es) ds =
      ap (λ r. f e ++ r) (collect-append f es ds)
      ∙ sym (append_assoc (f e) (collect f es) (collect f ds))

  -- Results that only the events of a processor have
  abbrev OnlyOf : Processor → (Event → List A) → Type 0
  OnlyOf p f = (e : Event) → takes p e ≡ false → f e ≡ []

  collect-keep :
      (p : Processor) (f : Event → List A) (ds : List Event)
      → OnlyOf p f
      → collect f (keep (takes p) ds) ≡ collect f ds
  unfolding collect
  collect-keep p f [] h = refl
  collect-keep p f (e ∷ ds) h = elim (Bool-cases (takes p e)) [
    | inl t ↦ rw t (ap (λ r. f e ++ r) (collect-keep p f ds h))
    | inr t ↦ rw (t, h e t) (collect-keep p f ds h)
  ]

  -- Moving what is dispatched first to the queue of its processor
  moved :
      (p : Processor) (f : Event → List A) (q q' ds rest : List Event)
      → OnlyOf p f
      → q' ≡ q ++ keep (takes p) ds
      → collect f (q' ++ rest) ≡ collect f (q ++ (ds ++ rest))
  moved p f q q' ds rest h e =
      collect-append f q' rest
      ∙ ap (λ r. collect f r ++ collect f rest) e
      ∙ ap (λ r. r ++ collect f rest) (collect-append f q (keep (takes p) ds))
      ∙ append_assoc (collect f q) (collect f (keep (takes p) ds)) (collect f rest)
      ∙ ap (λ r. collect f q ++ (r ++ collect f rest)) (collect-keep p f ds h)
      ∙ sym
          (collect-append f q (ds ++ rest) ∙ ap (λ r. collect f q ++ r) (collect-append f ds rest))

unfoldable pub IsIdle : Work → Type 0
IsIdle w = (p : Processor) → w.queues p ≡ []

-- Each queue gets the events of its processor, in order and after what it held.
dispatch_events-keep :
    (es : List Event) (q : Queues) (p : Processor)
    → dispatch_events es q p ≡ q p ++ keep (takes p) es
unfolding dispatch_events put_event
dispatch_events-keep [] q p = sym (append_nil (q p))
dispatch_events-keep (e ∷ es) q p = elim (Bool-cases (takes p e)) [
  | inl t ↦
      dispatch_events-keep es (put_event e q) p
      ∙ rw t (append_assoc (q p) (e ∷ []) (keep (takes p) es))
  | inr t ↦ dispatch_events-keep es (put_event e q) p ∙ rw t refl
]

module _ (s : Settings) where
  -- What each class of events makes its handler do
  unfoldable pub sent_of : Event → List Sent
  sent_of (transport_event e) = transport_handle_event s e ∷ []
  sent_of _ = []

  unfoldable pub spawned_of : Event → List TransferCall
  spawned_of (trader_event e) = (trader_handle_event s.market e).0
  spawned_of _ = []

  unfoldable pub channels_of : Event → List ChannelRequest
  channels_of (trader_event e) = (trader_handle_event s.market e).1
  channels_of _ = []

  unfoldable pub heard_of : Event → List ListenerEvent
  heard_of (raiden_listener_event e) = e ∷ []
  heard_of _ = []

  unfoldable pub awaited_of : Event → List BasicOffer
  awaited_of (commitment_service_event e) = takers_awaited s e
  awaited_of _ = []

  -- The events that the client of the commitment service dispatches for its queue, in order
  unfoldable pub produced : ℕ → List Event → List Event
  produced n [] = []
  produced n (commitment_service_event e ∷ es) =
      cs_handle_event s e n ++ produced (n + clock_reads s e) es
  produced n (_ ∷ es) = produced n es

  abbrev later : Work → List Event
  later w = produced w.readings (w.queues cs_client)

  -- What is done in the end: first what the queue of a consumer holds, then what the client of the
  -- commitment service adds to it.
  pub record Done : Type 0 where
    pub sent : List Sent
    pub spawned : List TransferCall
    pub channels : List ChannelRequest
    pub listener : Listener
    pub waiting_for_taker : List BasicOffer

  unfoldable pub outcome : Work → Done
  unfolding produced
  outcome w = record {
    sent = w.sent ++ collect sent_of (w.queues transport ++ later w);
    spawned = w.spawned ++ collect spawned_of (w.queues trader ++ later w);
    channels = w.channels ++ collect channels_of (w.queues trader ++ later w);
    listener =
        handle_listener_events (collect heard_of (w.queues raiden_listener ++ later w)) w.listener;
    waiting_for_taker = w.waiting_for_taker ++ collect awaited_of (w.queues cs_client);
  }

  -- Taking the first event of a queue and doing what it says
  pop :
      {A : Type 0} (xs : List A) (f : Event → List A) (e : Event) (es : List Event)
      → (xs ++ f e) ++ collect f es ≡ xs ++ collect f (e ∷ es)
  unfolding collect
  pop xs f e es = append_assoc xs (f e) (collect f es)

  sent-OnlyOf : OnlyOf transport sent_of
  unfolding takes sent_of
  sent-OnlyOf e h = ground (arith, h)

  spawned-OnlyOf : OnlyOf trader spawned_of
  unfolding takes spawned_of
  spawned-OnlyOf e h = ground (arith, h)

  channels-OnlyOf : OnlyOf trader channels_of
  unfolding takes channels_of
  channels-OnlyOf e h = ground (arith, h)

  heard-OnlyOf : OnlyOf raiden_listener heard_of
  unfolding takes heard_of
  heard-OnlyOf e h = ground (arith, h)

  -- The client of the commitment service dispatches nothing to itself.
  cs-dispatches :
      (e : CommitmentServiceEvent) (n : ℕ) (rest : List Event) (q : Queues)
      → dispatch_events (cs_handle_event s e n) (set_queue cs_client rest q) cs_client ≡ rest
  unfolding dispatch_events put_event takes set_queue cs_handle_event commit_events
      received_inbound_from_swap request_cancellation
  cs-dispatches e n rest q = ground arith

  done_eq :
      (a b : Done)
      → a.sent ≡ b.sent
      → a.spawned ≡ b.spawned
      → a.channels ≡ b.channels
      → a.listener ≡ b.listener
      → a.waiting_for_taker ≡ b.waiting_for_taker
      → a ≡ b
  done_eq a b h1 h2 h3 h4 h5 = λ i. record {
    sent = h1 i;
    spawned = h2 i;
    channels = h3 i;
    listener = h4 i;
    waiting_for_taker = h5 i;
  }

  outcome-event :
      (p : Processor) (e : Event) (rest : List Event) (w : Work)
      → w.queues p ≡ e ∷ rest
      → outcome (on_event s p e (record w { queues = set_queue p rest w.queues })) ≡ outcome w
  unfolding outcome on_event set_queue collect spawned_of channels_of awaited_of sent_of heard_of
      handle_listener_events produced
  outcome-event trader (trader_event e) rest w h = rw (h) (
      done_eq _ _ refl (pop w.spawned spawned_of (trader_event e) (rest ++ later w))
        (pop w.channels channels_of (trader_event e) (rest ++ later w)) refl refl)
  outcome-event transport (transport_event e) rest w h =
      rw (h)
        (done_eq _ _ (pop w.sent sent_of (transport_event e) (rest ++ later w)) refl refl refl refl)
  outcome-event raiden_listener (raiden_listener_event e) rest w h = rw (h) refl
  outcome-event cs_client (commitment_service_event e) rest w h =
      let ds = cs_handle_event s e w.readings in
      let q = set_queue cs_client rest w.queues in
      let after = produced (w.readings + clock_reads s e) rest in
      rw (cs-dispatches e w.readings rest w.queues, h)
        (done_eq _ _
          (ap (λ r. w.sent ++ r)
            (moved transport sent_of _ _ ds after sent-OnlyOf
              (dispatch_events-keep ds q transport)))
          (ap (λ r. w.spawned ++ r)
            (moved trader spawned_of _ _ ds after spawned-OnlyOf
              (dispatch_events-keep ds q trader)))
          (ap (λ r. w.channels ++ r)
            (moved trader channels_of _ _ ds after channels-OnlyOf
              (dispatch_events-keep ds q trader)))
          (ap (λ r. handle_listener_events r w.listener)
            (moved raiden_listener heard_of _ _ ds after heard-OnlyOf
              (dispatch_events-keep ds q raiden_listener)))
          (pop w.waiting_for_taker awaited_of (commitment_service_event e) rest))
  outcome-event _ e rest w h = rw (h) refl

  consume-outcome :
      (p : Processor) (es : List Event) (w : Work)
      → w.queues p ≡ es
      → outcome (consume s p w) ≡ outcome w
  unfolding consume
  consume-outcome p [] w h = rw (h) refl
  consume-outcome p (e ∷ rest) w h = rw (h) (outcome-event p e rest w h)

  run-outcome : (ps : List Processor) (w : Work) → outcome (run s ps w) ≡ outcome w
  unfolding run
  run-outcome [] w = refl
  run-outcome (p ∷ ps) w = run-outcome ps (consume s p w) ∙ consume-outcome p (w.queues p) w refl

  -- What was done so far
  unfoldable pub did : Work → Done
  did w = record {
    sent = w.sent;
    spawned = w.spawned;
    channels = w.channels;
    listener = w.listener;
    waiting_for_taker = w.waiting_for_taker;
  }

  idle-did : (w : Work) → IsIdle w → did w ≡ outcome w
  unfolding did IsIdle outcome collect produced handle_listener_events
  idle-did w h =
      rw (h trader, h cs_client, h transport, h raiden_listener)
        (done_eq _ _ (sym (append_nil w.sent)) (sym (append_nil w.spawned))
          (sym (append_nil w.channels)) refl (sym (append_nil w.waiting_for_taker)))

  -- In whatever order the consumers take their turns, once all queues are empty the messages sent,
  -- the transfers spawned, the channels asked for, the filters of the listener and the offers that
  -- wait for a taker are the same: those of the events that each queue held at first, in order, and
  -- then those of the events that the client of the commitment service dispatches for its own queue,
  -- in the order of that queue.
  pub run-did :
      (ps : List Processor) (w : Work) → IsIdle (run s ps w) → did (run s ps w) ≡ outcome w
  run-did ps w h = idle-did (run s ps w) h ∙ run-outcome ps w
