-- ===== src/CommitmentService/Service/Sound.antt =====
-- The dictionary of swaps leads to the open swaps, and to no others.
use raidex.Prelude.{
  ℕ, ◌≡◌, ◌⊎◌, inl, inr, refl, Bool, true, false, some, List, [], ◌∷◌, ◌++◌, arith, length,
  get_elem?, ◌==◌, Option-cases, Bool-cases, subst, get_elem?-set, get_elem?-append_one,
  get_elem?-lt,
}
use raidex.Dict.{get, put, contains, remove, get-put, get-remove, contains-eq-is_some}
use raidex.Exec.{Exec}
use raidex.CommitmentService.Data.{
  Commitment, State, processed, initializing, wait_for_taker, Event, on_timeout, on_transfer,
  on_maker_commitment, on_taker_commitment, on_execution, Swap, World,
}
use raidex.CommitmentService.Table.{IsSwapMachine}
use raidex.CommitmentService.Step.{step, fire-eq-step}
use raidex.CommitmentService.Invariant.{keeps_all, IsConsistent, Facts, fire-IsConsistent}
use raidex.CommitmentService.Progress.{is_open, fire-unknown}
use raidex.CommitmentService.Service.{
  Service, Input, commitment, transfer, cancellation, execution, timer, clock, enter_swap,
  leave_swap, call_swap, call_offer, new_swap, make_swap, process_commitment, process, serve, start,
}

-- How a trigger leaves a swap: open and in the dictionary as before, or processed and out of it.
record Leaves (before after : World) : Type 0 where
  same_ref : after.ref ≡ before.ref
  same_id : after.swap.offer_id ≡ before.swap.offer_id
  outcome :
      ((is_open after.swap.state ≡ true) × (after.swaps ≡ before.swaps))
      ⊎ ((after.swap.state ≡ processed) × (after.swaps ≡ remove before.swaps before.swap.offer_id))

Leaves-step :
    (auto : Bool) (s : State) (e : Event) (w : World)
    → w.swap.state ≡ s
    → Facts s w.swap
    → contains w.swaps w.swap.offer_id ≡ true
    → is_open s ≡ true
    → Leaves w (step auto s e w).1
unfolding keeps_all
Leaves-step false initializing e w p f c h = ground arith
Leaves-step true initializing e w p f c h = ground arith
Leaves-step auto wait_for_taker (on_transfer r) w p f c h =
    elim (Option-cases (get w.swap.taker_commitment_pool r.initiator)) [
      | inl e ↦ ground (arith, contains-eq-is_some w.swap.taker_commitment_pool r.initiator)
      | inr (x, e) ↦ ground (arith, contains-eq-is_some w.swap.taker_commitment_pool r.initiator)
    ]
Leaves-step auto s e w p f c h = ground arith

-- A swap object is open and what the dictionary has for its offer, or it is processed; an entry of
-- the dictionary leads to an open swap of that offer; and every swap is consistent.
pub record IsSound (sv : Service) : Type 0 where
  pub tracked :
      (ref : ℕ) (s : Swap)
      → get_elem? sv.heap ref ≡ some s
      → ((is_open s.state ≡ true) × (get sv.swaps s.offer_id ≡ some ref)) ⊎ (s.state ≡ processed)
  pub keyed :
      (k ref : ℕ)
      → get sv.swaps k ≡ some ref
      → (s : Swap) × (get_elem? sv.heap ref ≡ some s) × (s.offer_id ≡ k) × (is_open s.state ≡ true)
  pub consistent : (ref : ℕ) (s : Swap) → get_elem? sv.heap ref ≡ some s → IsConsistent s

module _ (sv : Service) (sound : IsSound sv) (ref : ℕ) (s : Swap)
    (here : get_elem? sv.heap ref ≡ some s) (w : World) (same_ref : w.ref ≡ ref)
    (same_id : w.swap.offer_id ≡ s.offer_id) (fine : IsConsistent w.swap) where
  IsConsistent-leave :
      (j : ℕ) (t : Swap) → get_elem? (leave_swap sv w).heap j ≡ some t → IsConsistent t
  unfolding leave_swap
  IsConsistent-leave j t h = elim (Bool-cases (ref == j)) [
    | inl e ↦
        let q : w.swap ≡ t = ground (arith, get_elem?-set sv.heap ref j w.swap here) in
        subst IsConsistent q fine
    | inr e ↦ sound.consistent j t (ground (arith, get_elem?-set sv.heap ref j w.swap here))
  ]

  open-leave :
      is_open s.state ≡ true
      → is_open w.swap.state ≡ true
      → w.swaps ≡ sv.swaps
      → IsSound (leave_swap sv w)
  unfolding leave_swap
  open-leave o o' e = record {
    tracked = λ j t h. ground (
      arith,
      get_elem?-set sv.heap ref j w.swap here,
      sound.tracked j t,
      sound.tracked ref s here,
    );
    keyed = λ k j h. elim (Bool-cases (ref == j)) [
      | inl q ↦
          let (t, t_here, t_id, t_open) = sound.keyed k j (ground arith) in
          (w.swap, ground (arith, get_elem?-set sv.heap ref j w.swap here), ground arith, o')
      | inr q ↦
          let (t, t_here, t_id, t_open) = sound.keyed k j (ground arith) in
          (t, ground (arith, get_elem?-set sv.heap ref j w.swap here), t_id, t_open)
    ];
    consistent = IsConsistent-leave;
  }

  processed-leave :
      is_open s.state ≡ true
      → w.swap.state ≡ processed
      → w.swaps ≡ remove sv.swaps s.offer_id
      → IsSound (leave_swap sv w)
  unfolding leave_swap
  processed-leave o p e = record {
    tracked = λ j t h. ground (
      arith,
      get_elem?-set sv.heap ref j w.swap here,
      sound.tracked j t,
      sound.tracked ref s here,
      get-remove sv.swaps s.offer_id t.offer_id,
    );
    keyed = λ k j h.
        let (t, t_here, t_id, t_open) =
          sound.keyed k j (ground (arith, get-remove sv.swaps s.offer_id k)) in
        (
          t,
          ground (arith, get_elem?-set sv.heap ref j w.swap here, get-remove sv.swaps s.offer_id k),
          t_id,
          t_open,
        );
    consistent = IsConsistent-leave;
  }

  unchanged-leave : w.swap ≡ s → w.swaps ≡ sv.swaps → IsSound (leave_swap sv w)
  unfolding leave_swap
  unchanged-leave p e = record {
    tracked = λ j t h. ground (arith, get_elem?-set sv.heap ref j w.swap here, sound.tracked j t);
    keyed = λ k j h.
        let (t, t_here, t_id, t_open) = sound.keyed k j (ground arith) in
        (t, ground (arith, get_elem?-set sv.heap ref j w.swap here), t_id, t_open);
    consistent = IsConsistent-leave;
  }

module _ (auto : Bool) (fire : Event → Exec World Bool) (machine : IsSwapMachine auto fire) where
  entered :
      (sv : Service)
      → IsSound sv
      → (ref : ℕ) (s : Swap) → get_elem? sv.heap ref ≡ some s
      → (e : Event) → IsSound (leave_swap sv (fire e (enter_swap sv ref s)).1)
  unfolding enter_swap
  entered sv sound ref s here e = elim (sound.tracked ref s here) [
    | inl (o, k) ↦
        let left : Leaves (enter_swap sv ref s) (fire e (enter_swap sv ref s)).1 =
          rw (fire-eq-step auto fire machine e (enter_swap sv ref s)) (
            Leaves-step auto s.state e (enter_swap sv ref s) refl
              (sound.consistent ref s here).facts (rw (contains-eq-is_some sv.swaps s.offer_id, k))
              o) in
        let fine =
          fire-IsConsistent auto fire machine e (enter_swap sv ref s)
            (sound.consistent ref s here) in
        elim left.outcome [
          | inl (o', q) ↦
              open-leave sv sound ref s here (fire e (enter_swap sv ref s)).1 left.same_ref
                left.same_id fine o o' q
          | inr (p, q) ↦
              processed-leave sv sound ref s here (fire e (enter_swap sv ref s)).1 left.same_ref
                left.same_id fine o p q
        ]
    | inr p ↦
        let q = fire-unknown auto fire machine e (enter_swap sv ref s) (rw p) in
        rw q (
          unchanged-leave sv sound ref s here (enter_swap sv ref s) refl refl
            (sound.consistent ref s here) refl refl)
  ]

  call_swap-IsSound :
      (ref : ℕ) (e : Event) (sv : Service) → IsSound sv → IsSound (call_swap fire ref e sv).1
  unfolding call_swap
  call_swap-IsSound ref e sv sound = elim (Option-cases (get_elem? sv.heap ref)) [
    | inl q ↦ rw (q, call_swap) sound
    | inr (s, q) ↦ rw (q, call_swap) (entered sv sound ref s q e)
  ]

  call_offer-IsSound :
      (offer_id : ℕ) (e : Event) (sv : Service)
      → IsSound sv
      → IsSound (call_offer fire offer_id e sv).1
  unfolding call_offer
  call_offer-IsSound offer_id e sv sound = elim (Option-cases (get sv.swaps offer_id)) [
    | inl q ↦ rw (q, call_offer) sound
    | inr (ref, q) ↦ rw (q, call_offer) (call_swap-IsSound ref e sv sound)
  ]

module _ (keccak : ℕ → ℕ) where
  new_swap-IsConsistent : (offer_id secret : ℕ) → IsConsistent (new_swap keccak offer_id secret)
  unfolding new_swap get
  new_swap-IsConsistent offer_id secret = record { facts = tt; ended = tt; pooled = λ a c h. cc }

  module _ (offer_id secret : ℕ) (sv : Service) (sound : IsSound sv)
      (fresh : contains sv.swaps offer_id ≡ false) where
    abbrev added : Service
    added = record sv {
      heap = sv.heap ++ new_swap keccak offer_id secret ∷ [];
      swaps = put sv.swaps offer_id (length sv.heap);
    }

    tracked-added :
        (ref : ℕ) (s : Swap)
        → get_elem? added.heap ref ≡ some s
        → ((is_open s.state ≡ true) × (get added.swaps s.offer_id ≡ some ref))
          ⊎ (s.state ≡ processed)
    unfolding new_swap
    tracked-added ref s h = ground (
      arith,
      get_elem?-append_one sv.heap (new_swap keccak offer_id secret) ref,
      get-put sv.swaps offer_id s.offer_id (length sv.heap),
      sound.tracked ref s,
      contains-eq-is_some sv.swaps offer_id,
    )

    keyed-added :
        (k ref : ℕ)
        → get added.swaps k ≡ some ref
        → (s : Swap) × (get_elem? added.heap ref ≡ some s)
          × (s.offer_id ≡ k)
          × (is_open s.state ≡ true)
    unfolding new_swap
    keyed-added k ref h = elim (Bool-cases (offer_id == k)) [
      | inl q ↦ (
        new_swap keccak offer_id secret,
        ground (
          arith,
          get_elem?-append_one sv.heap (new_swap keccak offer_id secret) ref,
          get-put sv.swaps offer_id k (length sv.heap),
        ),
        ground arith,
        refl,
      )
      | inr q ↦
          let (t, t_here, t_id, t_open) =
            sound.keyed k ref (ground (arith, get-put sv.swaps offer_id k (length sv.heap))) in
          (
            t,
            ground (
              arith,
              get_elem?-append_one sv.heap (new_swap keccak offer_id secret) ref,
              get_elem?-lt sv.heap ref t_here,
            ),
            t_id,
            t_open,
          )
    ]

    added-IsSound : IsSound added
    added-IsSound = record {
      tracked = tracked-added;
      keyed = keyed-added;
      consistent = λ ref s h. elim (Bool-cases (length sv.heap == ref)) [
        | inl q ↦
            let e : new_swap keccak offer_id secret ≡ s =
              ground (arith, get_elem?-append_one sv.heap (new_swap keccak offer_id secret) ref) in
            subst IsConsistent e (new_swap-IsConsistent offer_id secret)
        | inr q ↦
            sound.consistent ref s
              (ground (arith, get_elem?-append_one sv.heap (new_swap keccak offer_id secret) ref))
      ];
    }

module _ (auto : Bool) (fire : Event → Exec World Bool) (machine : IsSwapMachine auto fire)
    (keccak : ℕ → ℕ) where
  process_commitment-IsSound :
      (msg : Commitment) (secret : ℕ) (sv : Service)
      → IsSound sv
      → IsSound (process_commitment fire keccak msg secret sv).1
  unfolding process_commitment make_swap
  process_commitment-IsSound msg secret sv sound =
      elim (Bool-cases (contains sv.swaps msg.offer_id)) [
        | inl q ↦
            rw (q, process_commitment)
              (call_offer-IsSound auto fire machine msg.offer_id (on_taker_commitment msg) sv sound)
        | inr q ↦
            rw (q, process_commitment)
              (call_swap-IsSound auto fire machine (length sv.heap) (on_maker_commitment msg)
                (added keccak msg.offer_id secret sv sound q)
                (added-IsSound keccak msg.offer_id secret sv sound q))
      ]

  clock-IsSound : (now : ℕ) (sv : Service) → IsSound sv → IsSound (record sv { now = now })
  clock-IsSound now sv sound = record {
    tracked = sound.tracked;
    keyed = sound.keyed;
    consistent = sound.consistent;
  }

  pub process-IsSound :
      (i : Input) (sv : Service) → IsSound sv → IsSound (process fire keccak i sv).1
  unfolding process
  process-IsSound (commitment msg secret) sv sound = process_commitment-IsSound msg secret sv sound
  process-IsSound (transfer receipt) sv sound =
      call_offer-IsSound auto fire machine receipt.identifier (on_transfer receipt) sv sound
  process-IsSound (cancellation offer_id) sv sound =
      call_offer-IsSound auto fire machine offer_id on_timeout sv sound
  process-IsSound (execution msg) sv sound =
      call_offer-IsSound auto fire machine msg.offer_id (on_execution msg) sv sound
  process-IsSound (timer ref) sv sound = call_swap-IsSound auto fire machine ref on_timeout sv sound
  process-IsSound (clock now) sv sound = clock-IsSound now sv sound

  serve_from-IsSound :
      (is : List Input) (sv : Service) → IsSound sv → IsSound (serve fire keccak is sv)
  unfolding serve
  serve_from-IsSound [] sv sound = sound
  serve_from-IsSound (i ∷ is) sv sound =
      serve_from-IsSound is (process fire keccak i sv).1 (process-IsSound i sv sound)

  pub start-IsSound : (now : ℕ) → IsSound (start now)
  unfolding start get
  start-IsSound now = record {
    tracked = λ ref s h. cc;
    keyed = λ k ref h. cc;
    consistent = λ ref s h. cc;
  }

  -- Whatever messages, transfers, cancellations and timeouts the service takes, in any order: every
  -- swap object is open and its offer's entry of the dictionary, or processed; every entry leads to
  -- an open swap of that offer; and every swap is consistent.
  pub serve-IsSound : (is : List Input) (now : ℕ) → IsSound (serve fire keccak is (start now))
  serve-IsSound is now = serve_from-IsSound is (start now) (start-IsSound now)
