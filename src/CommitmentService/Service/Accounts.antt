-- ===== src/CommitmentService/Service/Accounts.antt =====
-- The transfers that the service takes over all of its swaps are accounted for.
use raidex.Prelude.{
  ℕ, zero, suc, ◌+◌, ◌≡◌, refl, Bool, true, if◌then◌else◌, Option, none, some, List, [], ◌∷◌, ◌++◌,
  arith, length, get_elem?, set, Option-cases, Bool-cases, inl, inr, get_elem?-append_one,
}
use raidex.Dict.{get, put, contains, contains-eq-is_some}
use raidex.Exec.{Exec, Result, ok, raised}
use raidex.CommitmentService.Data.{
  Commitment, Event, on_timeout, on_maker_commitment, on_taker_commitment, on_transfer,
  on_execution, Swap, State, World,
}
use raidex.CommitmentService.Table.{IsSwapMachine}
use raidex.CommitmentService.Step.{ref-fire}
use raidex.CommitmentService.Escrow.{
  owed, escrow, forfeited_at, received_at, balance-fire, lost_by_result, lost-fire, nothing_paid,
}
use raidex.CommitmentService.Service.Sound.{IsSound, process-IsSound, start-IsSound}
use raidex.CommitmentService.Service.{
  Service, Input, commitment, transfer, cancellation, execution, timer, clock, enter_swap,
  call_swap, call_offer, new_swap, make_swap, process_commitment, process_transfer, process, serve,
  start,
}

-- What all swap objects hold together.
pub escrow_all : List Swap → ℕ
escrow_all [] = 0
escrow_all (s ∷ ss) = escrow s + escrow_all ss

escrow_all-set :
    (ss : List Swap) (i : ℕ) (v : Swap) {s : Swap}
    → get_elem? ss i ≡ some s
    → escrow_all (set ss i v) + escrow s ≡ escrow_all ss + escrow v
unfolding escrow_all
escrow_all-set [] i v h = cc
escrow_all-set (t ∷ ss) zero v {s} h = ground arith
escrow_all-set (t ∷ ss) (suc i) v h = omega (arith, escrow_all-set ss i v h)

escrow_all-append_one :
    (ss : List Swap) (s : Swap) → escrow_all (ss ++ s ∷ []) ≡ escrow_all ss + escrow s
unfolding escrow_all
escrow_all-append_one [] s = omega arith
escrow_all-append_one (t ∷ ss) s = omega (arith, escrow_all-append_one ss s)

-- The event that an input means for the swap object that it reaches, if it reaches one.
abbrev pub offer_event : Service → ℕ → Event → Option (ℕ × Event)
offer_event sv offer_id e = elim (get sv.swaps offer_id) [ none ↦ none | some ref ↦ some (ref, e) ]

abbrev pub event_of : Service → Input → Option (ℕ × Event)
event_of sv (commitment msg _) = offer_event sv msg.offer_id (on_taker_commitment msg)
event_of sv (transfer r) = offer_event sv r.identifier (on_transfer r)
event_of sv (cancellation offer_id) = offer_event sv offer_id on_timeout
event_of sv (execution msg) = offer_event sv msg.offer_id (on_execution msg)
event_of sv (timer ref) = some (ref, on_timeout)
event_of sv (clock _) = none

-- An amount that depends on the swap object and the event: none without them.
abbrev pub amount_at : (Swap → Event → ℕ) → Service → Option (ℕ × Event) → ℕ
amount_at f sv none = 0
amount_at f sv (some (ref, e)) = elim (get_elem? sv.heap ref) [ none ↦ 0 | some s ↦ f s e ]

abbrev pub forfeited_by : Service → Input → ℕ
forfeited_by sv i = amount_at (λ s e. forfeited_at s.state e s) sv (event_of sv i)

abbrev pub received_by : Service → Input → ℕ
received_by sv i = amount_at (λ s e. received_at s.state e) sv (event_of sv i)

module _ (auto : Bool) (fire : Event → Exec World Bool) (machine : IsSwapMachine auto fire) where
  balance-call_swap :
      (ref : ℕ) (e : Event) (sv : Service)
      → owed (call_swap fire ref e sv).1.refund_queue
          + escrow_all (call_swap fire ref e sv).1.heap
          + amount_at (λ s f. forfeited_at s.state f s) sv (some (ref, e))
        ≡ owed sv.refund_queue
          + escrow_all sv.heap
          + amount_at (λ s f. received_at s.state f) sv (some (ref, e))
  unfolding call_swap
  balance-call_swap ref e sv = elim (Option-cases (get_elem? sv.heap ref)) [
    | inl q ↦ ground arith
    | inr (s, q) ↦
        rw (q, call_swap)
          (ground (
            arith,
            ref-fire auto fire machine e (enter_swap sv ref s),
            balance-fire auto fire machine e (enter_swap sv ref s),
            escrow_all-set sv.heap ref (fire e (enter_swap sv ref s)).1.swap q,
          ))
  ]

  balance-call_offer :
      (offer_id : ℕ) (e : Event) (sv : Service)
      → owed (call_offer fire offer_id e sv).1.refund_queue
          + escrow_all (call_offer fire offer_id e sv).1.heap
          + amount_at (λ s f. forfeited_at s.state f s) sv (offer_event sv offer_id e)
        ≡ owed sv.refund_queue
          + escrow_all sv.heap
          + amount_at (λ s f. received_at s.state f) sv (offer_event sv offer_id e)
  unfolding call_offer
  balance-call_offer offer_id e sv = elim (Option-cases (get sv.swaps offer_id)) [
    | inl q ↦ ground arith
    | inr (ref, q) ↦ ground (arith, balance-call_swap ref e sv)
  ]

module _ (auto : Bool) (fire : Event → Exec World Bool) (machine : IsSwapMachine auto fire)
    (keccak : ℕ → ℕ) where
  balance-process_commitment :
      (msg : Commitment) (secret : ℕ) (sv : Service)
      → let after = (process_commitment fire keccak msg secret sv).1 in
        owed after.refund_queue + escrow_all after.heap + forfeited_by sv (commitment msg secret)
        ≡ owed sv.refund_queue + escrow_all sv.heap + received_by sv (commitment msg secret)
  unfolding process_commitment make_swap new_swap
  balance-process_commitment msg secret sv = elim (Bool-cases (contains sv.swaps msg.offer_id)) [
    | inl q ↦
        rw (q, process_commitment)
          (balance-call_offer auto fire machine msg.offer_id (on_taker_commitment msg) sv)
    | inr q ↦ ground (
      arith,
      contains-eq-is_some sv.swaps msg.offer_id,
      escrow_all-append_one sv.heap (new_swap keccak msg.offer_id secret),
      get_elem?-append_one sv.heap (new_swap keccak msg.offer_id secret) (length sv.heap),
      balance-call_swap auto fire machine (length sv.heap) (on_maker_commitment msg) (record sv {
        heap = sv.heap ++ new_swap keccak msg.offer_id secret ∷ [];
        swaps = put sv.swaps msg.offer_id (length sv.heap);
      }),
    )
  ]

  balance-process :
      (i : Input) (sv : Service)
      → let after = (process fire keccak i sv).1 in
        owed after.refund_queue + escrow_all after.heap + forfeited_by sv i
        ≡ owed sv.refund_queue + escrow_all sv.heap + received_by sv i
  unfolding process
  balance-process (commitment msg secret) sv = balance-process_commitment msg secret sv
  balance-process (transfer r) sv =
      balance-call_offer auto fire machine r.identifier (on_transfer r) sv
  balance-process (cancellation offer_id) sv =
      balance-call_offer auto fire machine offer_id on_timeout sv
  balance-process (execution msg) sv =
      balance-call_offer auto fire machine msg.offer_id (on_execution msg) sv
  balance-process (timer ref) sv = balance-call_swap auto fire machine ref on_timeout sv
  balance-process (clock now) sv = refl

-- What an input pays in
abbrev pub paid_by : Input → ℕ
paid_by (transfer r) = r.amount
paid_by _ = 0

-- The result of a trigger, of which the method that calls it returns nothing
abbrev as_bool : Result (Unit {0}) → Result Bool
as_bool (ok _) = ok true
as_bool (raised x) = raised x

module _ (fire : Event → Exec World Bool) (keccak : ℕ → ℕ) where
  -- What is lost with an input: a transfer for an offer that the dictionary does not have, for which
  -- the task does nothing, or one that the machine of its swap refuses
  abbrev pub lost_by : Service → Input → ℕ
  lost_by sv (transfer r) =
      if contains sv.swaps r.identifier
      then lost_by_result (as_bool (process fire keccak (transfer r) sv).0) (on_transfer r)
      else r.amount
  lost_by sv _ = 0

  -- What a sequence of inputs forfeits and brings in, input by input.
  pub forfeited_over : List Input → Service → ℕ
  forfeited_over [] sv = 0
  forfeited_over (i ∷ is) sv = forfeited_by sv i + forfeited_over is (process fire keccak i sv).1

  received_over : List Input → Service → ℕ
  received_over [] sv = 0
  received_over (i ∷ is) sv = received_by sv i + received_over is (process fire keccak i sv).1

  pub lost_over : List Input → Service → ℕ
  lost_over [] sv = 0
  lost_over (i ∷ is) sv = lost_by sv i + lost_over is (process fire keccak i sv).1

-- The amounts of all transfers among inputs
pub paid_over : List Input → ℕ
paid_over [] = 0
paid_over (i ∷ is) = paid_by i + paid_over is

module _ (auto : Bool) (fire : Event → Exec World Bool) (machine : IsSwapMachine auto fire)
    (keccak : ℕ → ℕ) where
  lost_result :
      (r : Result Bool) (e : Event)
      → lost_by_result (as_bool (elim r [ ok _ ↦ ok tt | raised x ↦ raised x ])) e
        ≡ lost_by_result r e
  lost_result (ok b) (on_transfer t) = refl
  lost_result (raised x) (on_transfer t) = refl
  lost_result (ok b) e = ground arith
  lost_result (raised x) e = ground arith

  swap_pays_nothing :
      (sv : Service) (ref : ℕ) (e : Event)
      → ((s : State) → received_at s e ≡ 0)
      → amount_at (λ s f. received_at s.state f) sv (some (ref, e)) + 0 ≡ 0
  swap_pays_nothing sv ref e h = elim (Option-cases (get_elem? sv.heap ref)) [
    | inl q ↦ ground arith
    | inr (s, q) ↦ ground (arith, h s.state)
  ]

  offer_pays_nothing :
      (sv : Service) (offer_id : ℕ) (e : Event)
      → ((s : State) → received_at s e ≡ 0)
      → amount_at (λ s f. received_at s.state f) sv (offer_event sv offer_id e) + 0 ≡ 0
  offer_pays_nothing sv offer_id e h = elim (Option-cases (get sv.swaps offer_id)) [
    | inl q ↦ ground arith
    | inr (ref, q) ↦ ground (arith, swap_pays_nothing sv ref e h)
  ]

  received-lost_by :
      (i : Input) (sv : Service)
      → IsSound sv
      → received_by sv i + lost_by fire keccak sv i ≡ paid_by i
  unfolding process process_transfer call_offer call_swap enter_swap
  received-lost_by (transfer r) sv sound = elim (Option-cases (get sv.swaps r.identifier)) [
    | inl q ↦ ground (arith, contains-eq-is_some sv.swaps r.identifier)
    | inr (ref, q) ↦
        let (s, here, _, _) = sound.keyed r.identifier ref q in
        ground (
          arith,
          here,
          contains-eq-is_some sv.swaps r.identifier,
          lost_result (fire (on_transfer r) (enter_swap sv ref s)).0 (on_transfer r),
          lost-fire auto fire machine (on_transfer r) (enter_swap sv ref s),
        )
  ]
  received-lost_by (commitment msg secret) sv sound =
      offer_pays_nothing sv msg.offer_id (on_taker_commitment msg)
        (λ s. nothing_paid s (on_taker_commitment msg) refl)
  received-lost_by (cancellation offer_id) sv sound =
      offer_pays_nothing sv offer_id on_timeout (λ s. nothing_paid s on_timeout refl)
  received-lost_by (execution msg) sv sound =
      offer_pays_nothing sv msg.offer_id (on_execution msg)
        (λ s. nothing_paid s (on_execution msg) refl)
  received-lost_by (timer ref) sv sound =
      swap_pays_nothing sv ref on_timeout (λ s. nothing_paid s on_timeout refl)
  received-lost_by (clock now) sv sound = refl

  balance-serve_from :
      (is : List Input) (sv : Service)
      → owed (serve fire keccak is sv).refund_queue
          + escrow_all (serve fire keccak is sv).heap
          + forfeited_over fire keccak is sv
        ≡ owed sv.refund_queue + escrow_all sv.heap + received_over fire keccak is sv
  unfolding serve forfeited_over received_over
  balance-serve_from [] sv = refl
  balance-serve_from (i ∷ is) sv = omega (
    arith,
    balance-serve_from is (process fire keccak i sv).1,
    balance-process auto fire machine keccak i sv,
  )

  received-lost_over :
      (is : List Input) (sv : Service)
      → IsSound sv
      → received_over fire keccak is sv + lost_over fire keccak is sv ≡ paid_over is
  unfolding received_over lost_over paid_over
  received-lost_over [] sv sound = refl
  received-lost_over (i ∷ is) sv sound = omega (
    arith,
    received-lost_over is (process fire keccak i sv).1
        (process-IsSound auto fire machine keccak i sv sound),
    received-lost_by i sv sound,
  )

  -- From its start, over any inputs in any order, the amounts of all transfers to the service are
  -- what it has queued as refunds, before fees, what it holds in open swaps, what timeouts forfeited
  -- once both had paid, and what is lost without a refund: the transfers for an offer that its
  -- dictionary does not have, and those whose trigger raised MachineError.
  pub balance-serve :
      (is : List Input) (now : ℕ)
      → owed (serve fire keccak is (start now)).refund_queue
          + escrow_all (serve fire keccak is (start now)).heap
          + forfeited_over fire keccak is (start now)
          + lost_over fire keccak is (start now)
        ≡ paid_over is
  unfolding start escrow_all owed
  balance-serve is now = omega (
    arith,
    balance-serve_from is (start now),
    received-lost_over is (start now) (start-IsSound auto fire machine keccak now),
  )
