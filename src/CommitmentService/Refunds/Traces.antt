-- ===== src/CommitmentService/Refunds/Traces.antt =====
-- What the inputs of `RefundTask` (raidex/commitment_service/tasks.py) bring: the transfers, and the
-- refunds that end with one or get lost.
use mathlib.Core.List.{append-nil, append_assoc}
use raidex.Prelude.{
  ℕ, ◌≡◌, ◌∙◌, ap, sym, refl, Option, none, some, List, [], ◌∷◌, ◌++◌, ◌==◌, get_elem?,
  if◌then◌else◌, arith, Option-cases, inl, inr,
}
use raidex.Exec.{ok, raised}
use raidex.CommitmentService.Data.{Refund}
use raidex.CommitmentService.Refunds.{
  Payout, RefundState, RefundInput, amount_of, put_refund, give, answer, is_next, pay,
  process_refund, give_found, get_and_requeue, take_input,
}

-- The refund at a place
unfoldable pub refund_at : ℕ → List Refund → List Refund
refund_at i rs = elim (get_elem? rs i) [ none ↦ [] | some r ↦ r ∷ [] ]

-- The refund whose transfer an input answers with success
unfoldable pub refunded_by : RefundInput → RefundState → List Refund
unfolding refund_at
refunded_by (answer i (ok status)) s = if status == 200 then refund_at i s.waiting else []
refunded_by _ s = []

-- The refund for whose transfer an input raises
unfoldable pub lost_by : RefundInput → RefundState → List Refund
unfolding refund_at
lost_by (answer i (raised x)) s = refund_at i s.waiting
lost_by _ s = []

module _ (fee_rate : Option (ℕ → ℕ)) where
  -- The transfer that a refund is due
  unfoldable pub payout_of : Refund → List Payout
  unfolding amount_of
  payout_of r = elim r.receipt [
    | none ↦ []
    | some t ↦
        record {
          target = t.initiator;
          amount = amount_of fee_rate r.claim_fee t.amount;
          identifier = t.identifier;
        }
        ∷ []
  ]

  -- The transfer for the refund that the queue gives
  unfoldable pub payouts_by : RefundInput → RefundState → List Payout
  unfolding payout_of is_next
  payouts_by (give i) s = elim (get_elem? s.queue i) [
    | none ↦ []
    | some r ↦ if is_next r s.queue then payout_of r else []
  ]
  payouts_by _ s = []

  -- What the inputs of a run bring, in their order
  unfoldable pub over :
      {A : Type 0} → (RefundInput → RefundState → List A) → List RefundInput → RefundState → List A
  over f [] s = []
  over f (i ∷ is) s = f i s ++ over f is (take_input fee_rate i s).1

all_inputs : Unit {0}
unfolding take_input give_found get_and_requeue process_refund pay refunded_by lost_by payouts_by
    refund_at payout_of
all_inputs = tt

pub chain :
    {A : Type 0} {x y : List A} (a b c : List A) → x ≡ y ++ c → y ≡ a ++ b → x ≡ a ++ (b ++ c)
chain a b c h k = h ∙ ap (λ l. l ++ c) k ∙ append_assoc a b c

module _ (fee_rate : Option (ℕ → ℕ)) where
  pub refunded-take :
      (i : RefundInput) (s : RefundState)
      → (take_input fee_rate i s).1.refunded ≡ s.refunded ++ refunded_by i s
  unfolding all_inputs
  refunded-take (put_refund r) s = sym (append-nil s.refunded)
  refunded-take (give i) s = elim (Option-cases (get_elem? s.queue i)) [
    | inl q ↦ rw (q, append-nil s.refunded) refl
    | inr (r, q) ↦ ground (arith, q, append-nil s.refunded, Option-cases r.receipt)
  ]
  refunded-take (answer i (raised x)) s =
      ground (arith, append-nil s.refunded, Option-cases (get_elem? s.waiting i))
  refunded-take (answer i (ok n)) s =
      ground (arith, append-nil s.refunded, Option-cases (get_elem? s.waiting i))

  pub lost-take :
      (i : RefundInput) (s : RefundState) → (take_input fee_rate i s).1.lost ≡ s.lost ++ lost_by i s
  unfolding all_inputs
  lost-take (put_refund r) s = sym (append-nil s.lost)
  lost-take (give i) s = elim (Option-cases (get_elem? s.queue i)) [
    | inl q ↦ rw (q, append-nil s.lost) refl
    | inr (r, q) ↦ ground (arith, q, append-nil s.lost, Option-cases r.receipt)
  ]
  lost-take (answer i (raised x)) s =
      ground (arith, append-nil s.lost, Option-cases (get_elem? s.waiting i))
  lost-take (answer i (ok n)) s =
      ground (arith, append-nil s.lost, Option-cases (get_elem? s.waiting i))

  pub transfers-take :
      (i : RefundInput) (s : RefundState)
      → (take_input fee_rate i s).1.transfers ≡ s.transfers ++ payouts_by fee_rate i s
  unfolding all_inputs
  transfers-take (put_refund r) s = sym (append-nil s.transfers)
  transfers-take (give i) s = elim (Option-cases (get_elem? s.queue i)) [
    | inl q ↦ ground (arith, q, append-nil s.transfers)
    | inr (r, q) ↦ ground (arith, q, append-nil s.transfers, Option-cases r.receipt)
  ]
  transfers-take (answer i (raised x)) s =
      ground (arith, append-nil s.transfers, Option-cases (get_elem? s.waiting i))
  transfers-take (answer i (ok n)) s =
      ground (arith, append-nil s.transfers, Option-cases (get_elem? s.waiting i))
