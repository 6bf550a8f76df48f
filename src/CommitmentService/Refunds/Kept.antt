-- ===== src/CommitmentService/Refunds/Kept.antt =====
-- What becomes of the refunds of `RefundTask` (raidex/commitment_service/tasks.py).
use mathlib.Core.List.{append-nil}
use raidex.Prelude.{
  ℕ, zero, suc, ◌+◌, ◌≡◌, sym, refl, Bool, true, Option, none, some, List, [], ◌∷◌, ◌++◌, ◌==◌,
  get_elem?, if◌then◌else◌, arith, All, All-append, Bool-cases, inl, inr,
}
use raidex.Dict.{is_some}
use raidex.Exec.{Result, ok, raised}
use raidex.CommitmentService.Data.{TransferReceipt, Refund}
use raidex.CommitmentService.Refunds.Traces.{
  refunded_by, lost_by, payouts_by, over, chain, refunded-take, lost-take, transfers-take,
}
use raidex.CommitmentService.Refunds.{
  RefundState, RefundInput, put_refund, give, answer, remove_at, is_next, pay, process_refund,
  give_found, get_and_requeue, take_input, run_refunds,
}

-- The refunds in a list that pass a test
unfoldable pub count : (Refund → Bool) → List Refund → ℕ
count p [] = 0
count p (r ∷ rs) = (if p r then 1 else 0) + count p rs

count-append :
    (p : Refund → Bool) (rs : List Refund) (r : Refund)
    → count p (rs ++ r ∷ []) ≡ count p rs + (if p r then 1 else 0)
unfolding count
count-append p [] r = omega arith
count-append p (s ∷ rs) r = omega (arith, count-append p rs r)

count-remove_at :
    (p : Refund → Bool) (i : ℕ) (rs : List Refund) (r : Refund)
    → get_elem? rs i ≡ some r
    → count p rs ≡ count p (remove_at i rs) + (if p r then 1 else 0)
unfolding count remove_at
count-remove_at p i [] r h = cc
count-remove_at p zero (s ∷ rs) r h = ground (arith, h)
count-remove_at p (suc i) (s ∷ rs) r h = omega (arith, count-remove_at p i rs r h)

-- All refunds of the task, wherever they are
unfoldable pub kept : (Refund → Bool) → RefundState → ℕ
unfolding count
kept p s = count p s.queue + count p s.waiting + count p s.refunded + count p s.lost

-- The refunds that were put
unfoldable pub put_in : (Refund → Bool) → List RefundInput → ℕ
put_in p [] = 0
put_in p (put_refund r ∷ is) = (if p r then 1 else 0) + put_in p is
put_in p (_ ∷ is) = put_in p is

abbrev HasReceipt : Refund → Type 0
HasReceipt r = is_some r.receipt ≡ true

unfoldable pub PutsReceipts : List RefundInput → Type 0
PutsReceipts [] = Unit
PutsReceipts (put_refund r ∷ is) = HasReceipt r × PutsReceipts is
PutsReceipts (_ ∷ is) = PutsReceipts is

All-remove_at : (i : ℕ) (rs : List Refund) → All HasReceipt rs → All HasReceipt (remove_at i rs)
unfolding remove_at
All-remove_at i [] h = tt
All-remove_at zero (r ∷ rs) h = h.1
All-remove_at (suc i) (r ∷ rs) h = (h.0, All-remove_at i rs h.1)

All-at :
    (i : ℕ) (rs : List Refund) (r : Refund)
    → All HasReceipt rs
    → get_elem? rs i ≡ some r
    → HasReceipt r
All-at i [] r h e = cc
All-at zero (s ∷ rs) r h e = ground (arith, h.0, e)
All-at (suc i) (s ∷ rs) r h e = All-at i rs r h.1 e

-- Every refund that is queued or waited for has a receipt.
pub record IsPayable (s : RefundState) : Type 0 where
  pub in_queue : All HasReceipt s.queue
  pub in_waiting : All HasReceipt s.waiting

-- What an input does: it keeps the refunds.
record Keeps (p : Refund → Bool) (added : ℕ) (s : RefundState)
    (after : Result (Unit {0}) × RefundState) : Type 0 where
  payable : IsPayable after.1
  amounts : kept p after.1 ≡ kept p s + added

module _ (fee_rate : Option (ℕ → ℕ)) (p : Refund → Bool) where
  stays : (s : RefundState) → IsPayable s → Keeps p 0 s (ok tt, s)
  stays s h = record { payable = h; amounts = omega arith }

  pay-Keeps :
      (receipt : Option TransferReceipt) (i : ℕ) (s : RefundState) (r : Refund)
      → IsPayable s
      → get_elem? s.queue i ≡ some r
      → r.receipt ≡ receipt
      → Keeps p 0 s (pay fee_rate receipt r (record s { queue = remove_at i s.queue }))
  unfolding pay kept
  pay-Keeps none i s r h e n = ground (arith, n, All-at i s.queue r h.in_queue e)
  pay-Keeps (some t) i s r h e n = record {
    payable = record {
      in_queue = All-remove_at i s.queue h.in_queue;
      in_waiting =
          All-append HasReceipt s.waiting _ h.in_waiting (All-at i s.queue r h.in_queue e, tt);
    };
    amounts = omega (arith, count-remove_at p i s.queue r e, count-append p s.waiting r);
  }

  give-Keeps :
      (i : ℕ) (found : Option Refund) (s : RefundState)
      → IsPayable s
      → get_elem? s.queue i ≡ found
      → Keeps p 0 s (give_found fee_rate found i s)
  unfolding give_found process_refund
  give-Keeps i none s h e = stays s h
  give-Keeps i (some r) s h e = elim (Bool-cases (is_next r s.queue)) [
    | inl n ↦ rw n (pay-Keeps r.receipt i s r h e refl)
    | inr n ↦ rw n (stays s h)
  ]

  answer-Keeps :
      (i : ℕ) (status : Result ℕ) (found : Option Refund) (s : RefundState)
      → IsPayable s
      → get_elem? s.waiting i ≡ found
      → Keeps p 0 s (get_and_requeue fee_rate found i status s)
  unfolding get_and_requeue kept
  answer-Keeps i status none s h e = stays s h
  answer-Keeps i (raised x) (some r) s h e = record {
    payable = record { in_queue = h.in_queue; in_waiting = All-remove_at i s.waiting h.in_waiting };
    amounts = omega (arith, count-remove_at p i s.waiting r e, count-append p s.lost r);
  }
  answer-Keeps i (ok status) (some r) s h e = elim (Bool-cases (status == 200)) [
    | inl n ↦ rw n (record {
      payable = record {
        in_queue = h.in_queue;
        in_waiting = All-remove_at i s.waiting h.in_waiting;
      };
      amounts = omega (arith, count-remove_at p i s.waiting r e, count-append p s.refunded r);
    })
    | inr n ↦ rw n (record {
      payable = record {
        in_queue =
            All-append HasReceipt s.queue _ h.in_queue (All-at i s.waiting r h.in_waiting e, tt);
        in_waiting = All-remove_at i s.waiting h.in_waiting;
      };
      amounts = omega (arith, count-remove_at p i s.waiting r e, count-append p s.queue r);
    })
  ]

  input-Keeps :
      (i : RefundInput) (s : RefundState)
      → IsPayable s
      → PutsReceipts (i ∷ [])
      → Keeps p (put_in p (i ∷ [])) s (take_input fee_rate i s)
  unfolding take_input put_in PutsReceipts kept
  input-Keeps (put_refund r) s h a = record {
    payable = record {
      in_queue = All-append HasReceipt s.queue _ h.in_queue (a.0, tt);
      in_waiting = h.in_waiting;
    };
    amounts = omega (arith, count-append p s.queue r);
  }
  input-Keeps (give i) s h a = give-Keeps i (get_elem? s.queue i) s h refl
  input-Keeps (answer i status) s h a = answer-Keeps i status (get_elem? s.waiting i) s h refl

  split_puts :
      (i : RefundInput) (is : List RefundInput)
      → PutsReceipts (i ∷ is)
      → PutsReceipts (i ∷ []) × PutsReceipts is
  unfolding PutsReceipts
  split_puts (put_refund r) is h = ((h.0, tt), h.1)
  split_puts (give i) is h = (tt, h)
  split_puts (answer i status) is h = (tt, h)

  add_puts :
      (i : RefundInput) (is : List RefundInput)
      → put_in p (i ∷ is) ≡ put_in p (i ∷ []) + put_in p is
  unfolding put_in
  add_puts (put_refund r) is = omega arith
  add_puts (give i) is = omega arith
  add_puts (answer i status) is = omega arith

  -- What becomes of the refunds over inputs
  pub record IsAccounted (is : List RefundInput) (s after : RefundState) : Type 0 where
    pub payable : IsPayable after
    pub amounts : kept p after ≡ kept p s + put_in p is
    pub refunded : after.refunded ≡ s.refunded ++ over fee_rate refunded_by is s
    pub lost : after.lost ≡ s.lost ++ over fee_rate lost_by is s
    pub transfers : after.transfers ≡ s.transfers ++ over fee_rate (payouts_by fee_rate) is s

  -- From payable refunds and with such put, whatever the queue gives and however the transfers are
  -- answered, in any order: the refunds that are queued, waited for, refunded or lost are, by any
  -- test, as many as at the start and those put, and each that is queued or waited for has a
  -- receipt; the refunded ones are those whose transfer was answered with 200, the lost ones those
  -- where waiting for the answer raised, in the order of the answers; and for each refund that the
  -- queue gave, one transfer was made: to the initiator of its receipt, of the amount, less the fee
  -- where it is claimed, under the same identifier.
  pub run_refunds-kept :
      (is : List RefundInput) (s : RefundState)
      → IsPayable s
      → PutsReceipts is
      → IsAccounted is s (run_refunds fee_rate is s)
  unfolding run_refunds put_in over
  run_refunds-kept [] s h a = record {
    payable = h;
    amounts = omega arith;
    refunded = sym (append-nil s.refunded);
    lost = sym (append-nil s.lost);
    transfers = sym (append-nil s.transfers);
  }
  run_refunds-kept (i ∷ is) s h a =
      let first = input-Keeps i s h (split_puts i is a).0 in
      let rest =
        run_refunds-kept is (take_input fee_rate i s).1 first.payable (split_puts i is a).1 in
      record {
        payable = rest.payable;
        amounts = omega (arith, rest.amounts, first.amounts, add_puts i is);
        refunded = chain s.refunded (refunded_by i s) _ rest.refunded (refunded-take fee_rate i s);
        lost = chain s.lost (lost_by i s) _ rest.lost (lost-take fee_rate i s);
        transfers =
            chain s.transfers (payouts_by fee_rate i s) _ rest.transfers
              (transfers-take fee_rate i s);
      }
