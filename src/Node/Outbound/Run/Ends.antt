-- ===== src/Node/Outbound/Run/Ends.antt =====
-- The consumers of raidex/raidex_node/architecture/event_architecture.py come to an end with the
-- events of their queues.
use raidex.Prelude.{
  ℕ, zero, suc, ◌+◌, ◌*◌, ◌≤◌, ◌<◌, ◌≡◌, ◌⊎◌, inl, inr, ap, sym, subst, refl, List, [], ◌∷◌, ◌++◌,
  length, arith, All,
}
use raidex.Node.Outbound.Events.{
  commit, commitment_proved, cancellation_request, received_inbound, Event,
  commitment_service_event, Processor, trader, cs_client, transport, raiden_listener,
  dispatch_events, put_event, takes, set_queue,
}
use raidex.Node.Outbound.Run.{
  Settings, Work, cs_handle_event, commit_events, received_inbound_from_swap, request_cancellation,
  on_event, consume, run,
}
use raidex.Node.Outbound.Run.Outcome.{IsIdle, did, outcome, run-did}

-- The turns that the queues still ask for: an event of the client of the commitment service becomes
-- two others at most.
unfoldable pub work_left : Work → ℕ
work_left w =
    length (w.queues trader)
    + length (w.queues transport)
    + length (w.queues raiden_listener)
    + 3 * length (w.queues cs_client)

-- A turn for each consumer, some number of times
unfoldable pub rounds : ℕ → List Processor
rounds zero = []
rounds (suc n) = trader ∷ cs_client ∷ transport ∷ raiden_listener ∷ rounds n

length-snoc : (es : List Event) (e : Event) → length (es ++ e ∷ []) ≡ suc (length es)
length-snoc [] e = refl
length-snoc (x ∷ es) e = ap suc (length-snoc es e)

no_events : (es : List Event) → length es ≡ 0 → es ≡ []
no_events [] h = refl
no_events (e ∷ es) h = absurd (omega (arith, h))

module _ (s : Settings) where
  event-works :
      (p : Processor) (e : Event) (rest : List Event) (w : Work)
      → w.queues p ≡ e ∷ rest
      → work_left (on_event s p e (record w { queues = set_queue p rest w.queues })) < work_left w
  unfolding work_left on_event set_queue dispatch_events put_event takes cs_handle_event
      commit_events received_inbound_from_swap request_cancellation
  event-works cs_client (commitment_service_event (commit o)) rest w h =
      omega
        (arith, ap length h, length-snoc (w.queues transport) _, length-snoc (w.queues trader) _)
  event-works cs_client (commitment_service_event (commitment_proved o)) rest w h =
      omega (arith, ap length h)
  event-works cs_client (commitment_service_event (received_inbound o r)) rest w h = omega (
    arith,
    ap length h,
    length-snoc (w.queues transport) _,
    length-snoc (w.queues raiden_listener) _,
  )
  event-works cs_client (commitment_service_event (cancellation_request o)) rest w h =
      omega (arith, ap length h, length-snoc (w.queues transport) _)
  event-works _ e rest w h = ground (arith, h)

  -- A turn does nothing where the queue is empty, and otherwise takes work off.
  turn :
      (p : Processor) (es : List Event) (w : Work)
      → w.queues p ≡ es
      → ((w.queues p ≡ []) × (consume s p w ≡ w)) ⊎ (work_left (consume s p w) < work_left w)
  unfolding consume
  turn p [] w h = inl (h, rw (h) refl)
  turn p (e ∷ rest) w h = inr (rw (h) (event-works p e rest w h))

  turn_mono : (p : Processor) (w : Work) → work_left (consume s p w) ≤ work_left w
  turn_mono p w = elim (turn p (w.queues p) w refl) [
    | inl t ↦ rw (t.1) (omega arith)
    | inr t ↦ omega (arith, t)
  ]

  runs_mono : (ps : List Processor) (w : Work) → work_left (run s ps w) ≤ work_left w
  unfolding run
  runs_mono [] w = omega arith
  runs_mono (p ∷ ps) w = omega (arith, turn_mono p w, runs_mono ps (consume s p w))

  turns :
      (ps : List Processor) (w : Work)
      → (All (λ p. w.queues p ≡ []) ps × (run s ps w ≡ w)) ⊎ (work_left (run s ps w) < work_left w)
  unfolding run
  turns [] w = inl (tt, refl)
  turns (p ∷ ps) w = elim (turn p (w.queues p) w refl) [
    | inr t ↦ inr (omega (arith, t, runs_mono ps (consume s p w)))
    | inl t ↦ rw (t.1) (elim (turns ps w) [ inr u ↦ inr u | inl u ↦ inl ((t.0, u.0), u.1) ])
  ]

  all-IsIdle :
      (w : Work)
      → All (λ p. w.queues p ≡ []) (trader ∷ cs_client ∷ transport ∷ raiden_listener ∷ [])
      → IsIdle w
  unfolding IsIdle
  all-IsIdle w h trader = h.0
  all-IsIdle w h cs_client = h.1.0
  all-IsIdle w h transport = h.1.1.0
  all-IsIdle w h raiden_listener = h.1.1.1.0

  consume-empty : (p : Processor) (w : Work) → w.queues p ≡ [] → consume s p w ≡ w
  unfolding consume
  consume-empty p w h = rw (h) refl

  idle-run : (ps : List Processor) (w : Work) → IsIdle w → run s ps w ≡ w
  unfolding run IsIdle
  idle-run [] w h = refl
  idle-run (p ∷ ps) w h = rw (consume-empty p w (h p)) (idle-run ps w h)

  rounds-IsIdle : (n : ℕ) (w : Work) → work_left w ≤ n → IsIdle (run s (rounds n) w)
  unfolding run rounds work_left
  rounds-IsIdle zero w h = all-IsIdle w (
    no_events (w.queues trader) (omega (arith, h)),
    (
      no_events (w.queues cs_client) (omega (arith, h)),
      (
        no_events (w.queues transport) (omega (arith, h)),
        (no_events (w.queues raiden_listener) (omega (arith, h)), tt),
      ),
    ),
  )
  rounds-IsIdle (suc n) w h =
      elim (turns (trader ∷ cs_client ∷ transport ∷ raiden_listener ∷ []) w) [
        | inl t ↦
            subst IsIdle (sym (idle-run (rounds (suc n)) w (all-IsIdle w t.0))) (all-IsIdle w t.0)
        | inr t ↦ rounds-IsIdle n _ (omega (arith, t, h))
      ]

  -- After as many rounds as the queues hold events, those of the client of the commitment service
  -- counted three times, all queues are empty, and what was done is the outcome of the events that
  -- the queues held.
  pub rounds_complete :
      (n : ℕ) (w : Work)
      → work_left w ≤ n
      → IsIdle (run s (rounds n) w) × (did s (run s (rounds n) w) ≡ outcome s w)
  rounds_complete n w h = (rounds-IsIdle n w h, run-did s (rounds n) w (rounds-IsIdle n w h))
