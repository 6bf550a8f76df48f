-- ===== src/Protocol/Follow.antt =====
-- One swap of the service (raidex/commitment_service/tasks.py, swap.py) step by step, up to the
-- moment when it waits for the executions.
use raidex.Prelude.{
  ◌≡◌, ◌∙◌, ap, refl, Bool, true, false, none, some, [], ◌∷◌, ◌++◌, get_elem?, arith, get_elem?-set,
  ==-refl,
}
use raidex.Dict.{get, put, contains, contains-eq-is_some}
use raidex.Exec.{Exec, ok}
use raidex.CommitmentService.Data.{
  Commitment, offer_taken, commitment_proof, TransferReceipt, World, SwapExecution, swap_completed,
  initializing, wait_for_maker, wait_for_taker, wait_for_execution, Event, on_execution,
  on_maker_commitment, on_taker_commitment, on_transfer,
}
use raidex.CommitmentService.Callbacks.{proof_for}
use raidex.CommitmentService.Invariant.{keeps_all}
use raidex.CommitmentService.Progress.{FromBoth}
use raidex.CommitmentService.Step.{stepped}
use raidex.CommitmentService.Service.{Service, enter_swap, leave_swap, call_swap, call_offer}

-- The service has the swap of a world under its offer, and the world is the service as seen by it.
pub record Tracks (sv : Service) (w : World) : Type 0 where
  pub entry : get sv.swaps w.swap.offer_id ≡ some w.ref
  pub place : get_elem? sv.heap w.ref ≡ some w.swap
  pub entered : enter_swap sv w.ref w.swap ≡ w

pub call-leaves :
    (fire : Event → Exec World Bool) (e : Event) (sv : Service) (w : World)
    → Tracks sv w
    → (call_offer fire w.swap.offer_id e sv).1 ≡ leave_swap sv (fire e w).1
unfolding call_offer call_swap
call-leaves fire e sv w t =
    rw (t.entry, call_offer, t.place, call_swap) (ap (λ v. leave_swap sv (fire e v).1) t.entered)

pub swap-leaves :
    (fire : Event → Exec World Bool) (e : Event) (sv : Service) (w : World)
    → Tracks sv w
    → (call_swap fire w.ref e sv).1 ≡ leave_swap sv (fire e w).1
unfolding call_swap
swap-leaves fire e sv w t = rw (t.place, call_swap) (ap (λ v. leave_swap sv (fire e v).1) t.entered)

-- The service after a trigger
pub left-Tracks :
    (sv : Service) (w w' : World)
    → Tracks sv w
    → w'.ref ≡ w.ref
    → w'.swaps ≡ w.swaps
    → w'.swap.offer_id ≡ w.swap.offer_id
    → Tracks (leave_swap sv w') w'
unfolding leave_swap enter_swap
left-Tracks sv w w' t r d i = record {
  entry = rw (d, i, r, ← ap (λ (v : World). v.swaps) t.entered) t.entry;
  place =
      get_elem?-set sv.heap w'.ref w'.ref w'.swap {x = w.swap} (rw (r) t.place)
      ∙ rw (==-refl w'.ref) refl;
  entered = refl;
}

-- A trigger that keeps the swap in the dictionary leaves the service in step.
pub call-Tracks :
    (fire : Event → Exec World Bool) (e : Event) (sv : Service) (w w' : World)
    → Tracks sv w
    → fire e w ≡ (ok true, w')
    → w'.ref ≡ w.ref
    → w'.swaps ≡ w.swaps
    → w'.swap.offer_id ≡ w.swap.offer_id
    → Tracks (call_offer fire w.swap.offer_id e sv).1 w'
call-Tracks fire e sv w w' t f r d i =
    rw (call-leaves fire e sv w t, f) (left-Tracks sv w w' t r d i)

module _ (cm ct : Commitment) (rm rt : TransferReceipt) where
  -- The world after the maker's commitment, its transfer, the taker's commitment and its transfer
  abbrev pub opened_world : World → World
  opened_world w = record w {
    swap = record (w.swap) { state = wait_for_maker; maker_commitment_msg = some cm };
    timers = w.timers ++ (w.ref, cm.timeout) ∷ [];
  }

  abbrev pub paid_world : World → World
  paid_world w = record w {
    swap = record (w.swap) {
      state = wait_for_taker;
      maker_transfer_receipt = some rm;
      maker_commitment_proof = some (proof_for w.swap cm);
    };
    message_queue =
        w.message_queue ++ (commitment_proof (proof_for w.swap cm), some cm.sender) ∷ [];
  }

  abbrev pub asked_world : World → World
  asked_world w = record w {
    swap = record (w.swap) {
      taker_commitment_pool = put w.swap.taker_commitment_pool ct.sender ct;
    };
  }

  abbrev pub taken_world : World → World
  taken_world w = record w {
    swap = record (w.swap) {
      state = wait_for_execution;
      taker_commitment_msg = some ct;
      taker_transfer_receipt = some rt;
    };
    message_queue =
        (w.message_queue ++ (offer_taken w.swap.offer_id, none) ∷ [])
        ++ (commitment_proof (proof_for w.swap ct), some ct.sender) ∷ [];
  }

  pub opens :
      (w : World)
      → w.swap.state ≡ initializing
      → stepped true (on_maker_commitment cm) w ≡ (ok true, opened_world w)
  unfolding stepped keeps_all
  opens w h = rw (h) (ground arith)

  pub pays :
      (w : World)
      → w.swap.state ≡ wait_for_maker
      → w.swap.maker_commitment_msg ≡ some cm
      → rm.initiator ≡ cm.sender
      → stepped true (on_transfer rm) w ≡ (ok true, paid_world w)
  unfolding stepped keeps_all
  pays w h m s = rw (h) (ground (arith, m, s))

  pub asks :
      (w : World)
      → w.swap.state ≡ wait_for_taker
      → contains w.swap.taker_commitment_pool ct.sender ≡ false
      → stepped true (on_taker_commitment ct) w ≡ (ok true, asked_world w)
  unfolding stepped keeps_all
  asks w h m = rw (h) (ground (arith, m))

  pub takes_it :
      (w : World)
      → w.swap.state ≡ wait_for_taker
      → get w.swap.taker_commitment_pool ct.sender ≡ some ct
      → rt.initiator ≡ ct.sender
      → stepped true (on_transfer rt) w ≡ (ok true, taken_world w)
  unfolding stepped keeps_all
  takes_it w h m s =
      rw (h) (ground (arith, m, s, contains-eq-is_some w.swap.taker_commitment_pool ct.sender))

-- The first execution only changes the swap object; the second broadcasts that the swap is completed.
pub first-execution :
    (x y : SwapExecution) (w : World)
    → w.swap.state ≡ wait_for_execution
    → FromBoth w.swap x.sender y.sender
    → let v = stepped true (on_execution x) w in
      (v.0 ≡ ok true)
      × ((v.1.ref ≡ w.ref) × ((v.1.swaps ≡ w.swaps) × (v.1.swap.offer_id ≡ w.swap.offer_id)))
unfolding stepped keeps_all
first-execution x y w h f = rw (h) (ground (arith, f))

pub second-execution :
    (x y : SwapExecution) (w : World)
    → w.swap.state ≡ wait_for_execution
    → contains w.swaps w.swap.offer_id ≡ true
    → FromBoth w.swap x.sender y.sender
    → (stepped true (on_execution y) (stepped true (on_execution x) w).1).1.message_queue
      ≡ w.message_queue ++ (swap_completed w.swap.offer_id w.now, none) ∷ []
unfolding stepped keeps_all
second-execution x y w h c f = rw (h) (ground (arith, f, c))
