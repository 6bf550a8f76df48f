-- ===== src/Protocol/Swap.antt =====
-- A swap of the service (raidex/commitment_service/tasks.py, swap.py) from its first commitment to
-- the second execution.
use mathlib.Core.List.{append_assoc}
use raidex.Prelude.{
  ℕ, ◌≡◌, ◌∙◌, ap, subst, refl, true, false, Option, none, some, List, [], ◌∷◌, ◌++◌, length, arith,
  get_elem?-append_one, ==-refl, Option-cases,
}
use raidex.Dict.{get, put, remove, contains, get-put, get-remove, contains-eq-is_some}
use raidex.CommitmentService.Data.{
  Commitment, SwapExecution, Message, offer_taken, swap_completed, commitment_proof,
  TransferReceipt, Refund, World, on_maker_commitment, on_taker_commitment, on_transfer,
  on_execution,
}
use raidex.CommitmentService.Callbacks.{proof_for}
use raidex.CommitmentService.Step.{stepped, stepped-IsSwapMachine}
use raidex.CommitmentService.Progress.{FromBoth, executions_complete}
use raidex.CommitmentService.Service.{
  Service, new_swap, make_swap, enter_swap, leave_swap, call_swap, call_offer, process_commitment,
}
use raidex.Protocol.Follow.{
  Tracks, call-leaves, swap-leaves, left-Tracks, call-Tracks, opened_world, paid_world, asked_world,
  taken_world, opens, pays, asks, takes_it, first-execution, second-execution,
}

module _ (keccak : ℕ → ℕ) (cm ct : Commitment) (rm rt : TransferReceipt) (secret : ℕ)
    (sv : Service) where
  abbrev id : ℕ
  id = cm.offer_id

  -- The service with the new swap, and its world
  abbrev with_swap : Service
  with_swap = record sv {
    heap = sv.heap ++ new_swap keccak id secret ∷ [];
    swaps = put sv.swaps id (length sv.heap);
  }

  abbrev new_world : World
  new_world = record {
    swap = new_swap keccak id secret;
    ref = length sv.heap;
    swaps = put sv.swaps id (length sv.heap);
    refund_queue = sv.refund_queue;
    message_queue = sv.message_queue;
    timers = sv.timers;
    now = sv.now;
  }

  new-Tracks : Tracks with_swap new_world
  unfolding new_swap enter_swap
  new-Tracks = record {
    entry = get-put sv.swaps id id (length sv.heap) ∙ rw (==-refl id) refl;
    place =
        get_elem?-append_one sv.heap (new_swap keccak id secret) (length sv.heap)
        ∙ rw (==-refl (length sv.heap)) refl;
    entered = refl;
  }

  abbrev world_1 : World
  world_1 = opened_world cm ct rm rt new_world

  abbrev world_2 : World
  world_2 = paid_world cm ct rm rt world_1

  abbrev world_3 : World
  world_3 = asked_world cm ct rm rt world_2

  abbrev world_4 : World
  world_4 = taken_world cm ct rm rt world_3

  makes_swap :
      contains sv.swaps id ≡ false
      → (process_commitment (stepped true) keccak cm secret sv).1
        ≡ (call_swap (stepped true) (length sv.heap) (on_maker_commitment cm) with_swap).1
  unfolding process_commitment make_swap new_swap
  makes_swap h = rw (h, process_commitment, make_swap) refl

  first-Tracks :
      contains sv.swaps id ≡ false
      → Tracks (process_commitment (stepped true) keccak cm secret sv).1 world_1
  unfolding new_swap
  first-Tracks h =
      rw
        (
          makes_swap h,
          swap-leaves (stepped true) (on_maker_commitment cm) with_swap new_world new-Tracks,
          opens cm ct rm rt new_world refl,
        )
        (left-Tracks with_swap new_world world_1 new-Tracks refl refl refl)

  pool-empty : contains world_2.swap.taker_commitment_pool ct.sender ≡ false
  unfolding new_swap contains
  pool-empty = refl

  pool-get : get world_3.swap.taker_commitment_pool ct.sender ≡ some ct
  unfolding new_swap
  pool-get = get-put [] ct.sender ct.sender ct ∙ rw (==-refl ct.sender) refl

  -- A commitment to an offer that the service has goes to its swap.
  finds_swap :
      (other : ℕ) (sv' : Service) (w : World)
      → Tracks sv' w
      → ct.offer_id ≡ w.swap.offer_id
      → (process_commitment (stepped true) keccak ct other sv').1
        ≡ (call_offer (stepped true) w.swap.offer_id (on_taker_commitment ct) sv').1
  unfolding process_commitment
  finds_swap other sv' w t i =
      let there : contains sv'.swaps w.swap.offer_id ≡ true =
        contains-eq-is_some sv'.swaps w.swap.offer_id ∙ rw (t.entry) refl in
      rw (i, there, process_commitment) refl

  pub fourth-Tracks :
      (other : ℕ)
      → contains sv.swaps id ≡ false
      → ct.offer_id ≡ id
      → rm.initiator ≡ cm.sender
      → rt.initiator ≡ ct.sender
      → Tracks
          (call_offer
            (stepped true)
            id
            (on_transfer rt)
            (process_commitment
              (stepped true)
              keccak
              ct
              other
              (call_offer
                (stepped true)
                id
                (on_transfer rm)
                (process_commitment (stepped true) keccak cm secret sv).1).1).1).1
          world_4
  unfolding new_swap
  fourth-Tracks other h i am at =
      let t1 = first-Tracks h in
      let t2 =
        call-Tracks (stepped true) (on_transfer rm) _ world_1 world_2 t1
          (pays cm ct rm rt world_1 refl refl am) refl refl refl in
      let t3 =
        call-Tracks (stepped true) (on_taker_commitment ct) _ world_2 world_3 t2
          (asks cm ct rm rt world_2 refl pool-empty) refl refl refl in
      call-Tracks (stepped true) (on_transfer rt) _ world_3 world_4
        (rw (finds_swap other _ world_2 t2 i) t3) (takes_it cm ct rm rt world_3 refl pool-get at)
        refl refl refl

  -- The messages and the refunds of a swap that succeeds
  abbrev swap_messages : List (Message × Option ℕ)
  swap_messages =
      (commitment_proof (proof_for (new_swap keccak id secret) cm), some cm.sender)
      ∷ (offer_taken id, none)
      ∷ (commitment_proof (proof_for (new_swap keccak id secret) ct), some ct.sender)
      ∷ (swap_completed id sv.now, none)
      ∷ []

  abbrev swap_refunds : List Refund
  swap_refunds =
      record { receipt = some rm; priority = 1; claim_fee = true }
      ∷ record { receipt = some rt; priority = 1; claim_fee = true }
      ∷ []

  pub record IsSettled (after : Service) : Type 0 where
    pub messages : after.message_queue ≡ sv.message_queue ++ swap_messages
    pub refunds : after.refund_queue ≡ sv.refund_queue ++ swap_refunds
    pub swaps_left : (j : ℕ) → get after.swaps j ≡ get sv.swaps j

  four_messages :
      (ms : List (Message × Option ℕ)) (a b c d : Message × Option ℕ)
      → (((ms ++ a ∷ []) ++ b ∷ []) ++ c ∷ []) ++ d ∷ [] ≡ ms ++ a ∷ b ∷ c ∷ d ∷ []
  four_messages ms a b c d = simp append_assoc

  registered : contains world_4.swaps id ≡ true
  registered =
      contains-eq-is_some world_4.swaps id
      ∙ rw (get-put sv.swaps id id (length sv.heap), ==-refl id) refl

  without_swap :
      (j : ℕ)
      → contains sv.swaps id ≡ false
      → get (remove (put sv.swaps id (length sv.heap)) id) j ≡ get sv.swaps j
  without_swap j h = ground (
    arith,
    h,
    contains-eq-is_some sv.swaps id,
    Option-cases (get sv.swaps id),
    get-remove (put sv.swaps id (length sv.heap)) id j,
    get-put sv.swaps id j (length sv.heap),
  )

  pub executed-IsSettled :
      (x y : SwapExecution) (s4 : Service)
      → contains sv.swaps id ≡ false
      → Tracks s4 world_4
      → FromBoth world_4.swap x.sender y.sender
      → IsSettled
          (call_offer
            (stepped true)
            id
            (on_execution y)
            (call_offer (stepped true) id (on_execution x) s4).1).1
  unfolding new_swap leave_swap
  executed-IsSettled x y s4 h t f =
      let ok_x = first-execution x y world_4 refl f in
      let w5 : World = (stepped true (on_execution x) world_4).1 in
      let t5 : Tracks (call_offer (stepped true) id (on_execution x) s4).1 w5 =
        call-Tracks (stepped true) (on_execution x) s4 world_4 w5 t (ap (λ r. (r, w5)) ok_x.0)
          ok_x.1.0 ok_x.1.1.0 ok_x.1.1.1 in
      let after : World = (stepped true (on_execution y) w5).1 in
      let s5 : Service = (call_offer (stepped true) id (on_execution x) s4).1 in
      let last : (call_offer (stepped true) id (on_execution y) s5).1 ≡ leave_swap s5 after =
        subst (λ i. (call_offer (stepped true) i (on_execution y) s5).1 ≡ leave_swap s5 after)
          ok_x.1.1.1 (call-leaves (stepped true) (on_execution y) s5 w5 t5) in
      let ends =
        executions_complete true (stepped true) (stepped-IsSwapMachine true) x y world_4 refl
          registered f in
      record {
        messages =
            ap (λ (v : Service). v.message_queue) last
            ∙ second-execution x y world_4 refl registered f
            ∙ four_messages sv.message_queue _ _ _ _;
        refunds = ap (λ (v : Service). v.refund_queue) last ∙ ends.refunded;
        swaps_left = λ j.
            ap (λ (v : Service). get v.swaps j) last
            ∙ ap (λ d. get d j) ends.removed
            ∙ without_swap j h;
      }
