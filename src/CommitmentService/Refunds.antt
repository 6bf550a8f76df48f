-- ===== src/CommitmentService/Refunds.antt =====
-- `RefundTask` with `QueueListenerTask` (raidex/commitment_service/tasks.py): the refunds that the
-- service queued are paid by transfers, and a failed transfer is queued again; a refund is lost where the
-- result of its transfer raises (the FIXME of `get_and_requeue`). The queue is a
-- PriorityQueue: `get` gives an item that no other one is before, which one is an input.
pub mod Traces
pub mod Kept
use raidex.Prelude.{
  ℕ, zero, suc, ◌+◌, ◌≡◌, ◌∙◌, ap, refl, Bool, true, false, not, ◌&&◌, Option, none, some, List, [],
  ◌∷◌, ◌++◌, ◌==◌, get_elem?, if◌then◌else◌, arith, All, Option-cases, Bool-cases, inl, inr,
}
use raidex.Exec.{Exec, Result, ok, raised, attribute_error}
use raidex.CommitmentService.Data.{TransferReceipt, Refund, refund_lt}

-- A transfer of the commitment token
pub record Payout : Type 0 where
  pub target : ℕ
  pub amount : ℕ
  pub identifier : ℕ

-- The queue, the greenlets that wait for an answer, the transfers made, and the refunds whose
-- greenlet ended: with a refund, or with an exception
pub record RefundState : Type 0 where
  pub queue : List Refund
  pub waiting : List Refund
  pub transfers : List Payout
  pub refunded : List Refund
  pub lost : List Refund

unfoldable pub remove_at : ℕ → List Refund → List Refund
remove_at i [] = []
remove_at zero (r ∷ rs) = rs
remove_at (suc i) (r ∷ rs) = r ∷ remove_at i rs

-- Nothing in the queue is before a refund.
unfoldable pub is_next : Refund → List Refund → Bool
unfolding refund_lt
is_next r [] = true
is_next r (s ∷ rs) = not (refund_lt s r) && is_next r rs

-- The amount of a refund: less the fee, where there is a rate and the refund claims it. The rate is
-- a float: what it leaves of an amount is a function.
unfoldable pub amount_of : (fee_rate : Option (ℕ → ℕ)) → (claim_fee : Bool) → ℕ → ℕ
amount_of none claim_fee amount = amount
amount_of (some left) claim_fee amount = if claim_fee then left amount else amount

-- What comes to the task: a refund is put, the queue gives the item at a place, and in a waiting
-- greenlet `async_result.get()` returns the status code of its transfer, or raises. One that blocks
-- forever gets no answer.
pub data RefundInput : Type 0 where
  put_refund : Refund → RefundInput
  give : (place : ℕ) → RefundInput
  answer : (place : ℕ) (status : Result ℕ) → RefundInput

module _ (fee_rate : Option (ℕ → ℕ)) where
  -- `RefundTask.process`
  unfoldable pay : Option TransferReceipt → Refund → Exec RefundState (Unit {0})
  unfolding amount_of
  pay none r s = (raised attribute_error, s)
  pay (some receipt) r s = (
    ok tt,
    record s {
      waiting = s.waiting ++ r ∷ [];
      transfers =
          s.transfers
          ++ record {
            target = receipt.initiator;
            amount = amount_of fee_rate r.claim_fee receipt.amount;
            identifier = receipt.identifier;
          }
            ∷ [];
    },
  )

  unfoldable pub process_refund : Refund → Exec RefundState (Unit {0})
  unfolding pay
  process_refund r = pay r.receipt r

  unfoldable give_found : Option Refund → ℕ → Exec RefundState (Unit {0})
  unfolding process_refund is_next remove_at
  give_found none i s = (ok tt, s)
  give_found (some r) i s =
      if is_next r s.queue
      then process_refund r (record s { queue = remove_at i s.queue })
      else (ok tt, s)

  -- `get_and_requeue`
  unfoldable get_and_requeue : Option Refund → ℕ → Result ℕ → Exec RefundState (Unit {0})
  unfolding remove_at
  get_and_requeue none i success s = (ok tt, s)
  get_and_requeue (some r) i (raised x) s =
      (raised x, record s { waiting = remove_at i s.waiting; lost = s.lost ++ r ∷ [] })
  get_and_requeue (some r) i (ok status) s =
      if status == 200
      then (ok tt, record s { waiting = remove_at i s.waiting; refunded = s.refunded ++ r ∷ [] })
      else (ok tt, record s { waiting = remove_at i s.waiting; queue = s.queue ++ r ∷ [] })

  unfoldable pub take_input : RefundInput → Exec RefundState (Unit {0})
  unfolding give_found get_and_requeue
  take_input (put_refund r) s = (ok tt, record s { queue = s.queue ++ r ∷ [] })
  take_input (give i) s = give_found (get_elem? s.queue i) i s
  take_input (answer i status) s = get_and_requeue (get_elem? s.waiting i) i status s

  -- The inputs in some order
  unfoldable pub run_refunds : List RefundInput → RefundState → RefundState
  unfolding take_input
  run_refunds [] s = s
  run_refunds (i ∷ is) s = run_refunds is (take_input i s).1
