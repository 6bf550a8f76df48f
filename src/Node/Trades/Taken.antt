-- ===== src/Node/Trades/Taken.antt =====
-- What becomes of an offer between `OfferTakenTask` and `SwapCompletedTask`
-- (raidex/raidex_node/listener_tasks.py) in the view of the trades.
use raidex.Prelude.{ℕ, ◌≡◌, ◌==◌, ap, refl, true, Option, none, some, ==-refl, if◌then◌else◌}
use raidex.Dict
use raidex.Dict.{get, get-put, get-remove}
use raidex.Exec.{Result, ok, raised, assertion_error}
use raidex.Sorted.{find, find-insert}
use raidex.Node.Offer.{Floats, BasicOffer, OfferBookEntry, entry_id}
use raidex.Node.OfferBook.{book_contains, book_offer_by_id}
use raidex.Node.OfferBook.View.{OfferDict}
use raidex.Node.Trades.{
  Pending, offer_pending, entry_pending, TradeDict, trade_order, TradesView, add_pending,
  pending_id, report_completed, report_found, record_trade, Market, process_taken, take_found,
  process_completed,
}

module _ (t : TradeDict) where
  -- The trade of an offer, under its key, its id, and no longer pending
  record IsRecorded (o : BasicOffer) (time i j : ℕ) (before after : TradesView t) : Type 0 where
    by_key :
        find trade_order (time, o.offer_id) (t.dict.items after.trades_by_key)
        ≡ some (record { offer = o; timestamp = time })
    by_id : get after.trade_by_id j ≡ (
        if o.offer_id == j
        then some (record { offer = o; timestamp = time })
        else get before.trade_by_id j)
    pending :
        get after.pending_offer_by_id j
        ≡ (if i == j then none else get before.pending_offer_by_id j)

  -- An outcome of `report_completed`, by what was pending under the id
  pub Reports :
      Option Pending → ℕ → ℕ → ℕ → TradesView t → Result (Option ℕ) × TradesView t → Type 0
  Reports none i time j v r = r ≡ (ok none, v)
  Reports (some (offer_pending o)) i time j v r =
      (r.0 ≡ ok (some o.offer_id)) × IsRecorded o time i j v r.1
  Reports (some (entry_pending e)) i time j v r = r ≡ (
    raised assertion_error,
    record v { pending_offer_by_id = Dict.remove v.pending_offer_by_id i },
  )

  report_found-Reports :
      (found : Option Pending) (i time j : ℕ) (v : TradesView t)
      → Reports found i time j v (report_found t found i time v)
  unfolding Reports report_found record_trade
  report_found-Reports none i time j v = refl
  report_found-Reports (some (entry_pending e)) i time j v = refl
  report_found-Reports (some (offer_pending o)) i time j v = (
    refl,
    record {
      by_key =
          rw (t.dict.items-set, find-insert trade_order)
            (rw ((trade_order.same_iff (time, o.offer_id) (time, o.offer_id)).1 refl) refl);
      by_id = get-put v.trade_by_id o.offer_id j (record { offer = o; timestamp = time });
      pending = get-remove v.pending_offer_by_id i j;
    },
  )

  -- What a report of a completed swap does, by what is pending under its id: of nothing it returns
  -- False and changes nothing; of an offer it returns the offer's id, takes it out of the pending
  -- ones alone, and records its trade at the time under its id and under its key; of an entry of the
  -- book it raises AssertionError after it has taken it out, and records nothing.
  pub report_completed-Reports :
      (i time j : ℕ) (v : TradesView t)
      → Reports (get v.pending_offer_by_id i) i time j v (report_completed t i time v)
  unfolding report_completed
  report_completed-Reports i time j v =
      report_found-Reports (get v.pending_offer_by_id i) i time j v

  module _ (floats : Floats) (sorted : OfferDict floats) where
    pending-taken :
        (i : ℕ) (m : Market t floats sorted) (e : OfferBookEntry)
        → book_contains floats sorted i m.book ≡ true
        → book_offer_by_id floats sorted i m.book ≡ some e
        → entry_id e ≡ i
        → (process_taken t floats sorted i m).1.view ≡ add_pending t (entry_pending e) m.view
    unfolding process_taken take_found
    pending-taken i m e known found same = rw (known, found) refl

    pending-added :
        (i : ℕ) (e : OfferBookEntry) (v : TradesView t)
        → entry_id e ≡ i
        → get (add_pending t (entry_pending e) v).pending_offer_by_id i ≡ some (entry_pending e)
    unfolding add_pending pending_id
    pending-added i e v same = rw (get-put, same, ==-refl i) refl

    entry-reported :
        (i time : ℕ) (e : OfferBookEntry) (v : TradesView t)
        → entry_id e ≡ i
        → report_completed t i time (add_pending t (entry_pending e) v)
          ≡ report_found t (some (entry_pending e)) i time (add_pending t (entry_pending e) v)
    unfolding report_completed add_pending pending_id
    entry-reported i time e v same =
        ap (λ found. report_found t found i time (add_pending t (entry_pending e) v))
          (pending-added i e v same)

    -- When the book knows an offer that is taken, the report of its completed swap that follows
    -- raises AssertionError, and no trade is recorded.
    pub taken_is_lost :
        (i time : ℕ) (m : Market t floats sorted) (e : OfferBookEntry)
        → book_contains floats sorted i m.book ≡ true
        → book_offer_by_id floats sorted i m.book ≡ some e
        → entry_id e ≡ i
        → let after =
            process_completed t floats sorted i time (process_taken t floats sorted i m).1 in
          (after.0 ≡ raised assertion_error)
          × (after.1.view.trades_by_key ≡ m.view.trades_by_key)
          × (after.1.view.trade_by_id ≡ m.view.trade_by_id)
    unfolding process_completed report_found record_trade add_pending
    taken_is_lost i time m e known found same =
        rw (pending-taken i m e known found same, entry-reported i time e m.view same)
          (refl, refl, refl)
