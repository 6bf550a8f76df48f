-- ===== src/Node/Trades.antt =====
-- `TradesView` of raidex/raidex_node/trades.py, the tasks of raidex/raidex_node/listener_tasks.py
-- that feed it, and what they take from the book.
pub mod Range
pub mod Taken
mod Examples
use raidex.Prelude.{
  ℕ, ◌≡◌, refl, Bool, true, false, not, Option, none, some, List, [], ◌∷◌, ◌&&◌, ltb, map, keep,
  if◌then◌else◌,
}
use raidex.Dict
use raidex.Dict.{Dict}
use raidex.Exec.{
  Exec, Result, ok, raised, assertion_error, attribute_error, key_error, pure, ignore, ◌>>◌,
}
use raidex.Sorted.{
  TotalOrder, nat_order, lex_order, SortedDict, Entries, sorted_items, insert, find,
}
use raidex.Node.Offer.{Floats, BasicOffer, OfferBookEntry, entry_id}
use raidex.Node.OfferBook.{OfferBook, book_contains, book_offer_by_id, book_remove_offer}
use raidex.Node.OfferBook.View.{OfferDict}

-- `Trade`
pub record Trade : Type 0 where
  pub offer : BasicOffer
  pub timestamp : ℕ

-- What `add_pending` is called with: an offer, or an entry of the book.
pub data Pending : Type 0 where
  offer_pending : BasicOffer → Pending
  entry_pending : OfferBookEntry → Pending

unfoldable pub pending_id : Pending → ℕ
pending_id (offer_pending o) = o.offer_id
pending_id (entry_pending e) = entry_id e

abbrev pub TradeKey : Type 0
TradeKey = ℕ × ℕ

abbrev pub trade_order : TotalOrder TradeKey
trade_order = lex_order nat_order nat_order

-- From `lo` on and below `hi`, where they are given: `inclusive=(True, False)`.
abbrev pub from_key : Option TradeKey → TradeKey → Bool
from_key none k = true
from_key (some lo) k = not (trade_order.less k lo)

abbrev pub below_key : Option TradeKey → TradeKey → Bool
below_key none k = true
below_key (some hi) k = trade_order.less k hi

-- A SortedDict with `irange`, which gives the keys of a range in their order.
pub record TradeDict : Type 1 where
  pub dict : SortedDict TradeKey Trade trade_order
  pub irange : dict.Dict → Option TradeKey → Option TradeKey → List TradeKey
  pub irange-items :
      (d : dict.Dict) (lo hi : Option TradeKey)
      → irange d lo hi
        ≡ map (λ e. e.0) (keep (λ e. from_key lo e.0 && below_key hi e.0) (dict.items d))

-- Sorted lists of items are such dictionaries.
abbrev pub listed_trades : TradeDict
listed_trades = record {
  dict = sorted_items TradeKey Trade trade_order;
  irange = λ d lo hi. map (λ e. e.0) (keep (λ e. from_key lo e.0 && below_key hi e.0) d);
  irange-items = λ d lo hi. refl;
}

abbrev pub at_time : Option ℕ → Option TradeKey
at_time none = none
at_time (some time) = some (time, 0)

-- `[self._trades[key] for key in ...]`
abbrev then_cons : Option Trade → Result (List Trade) → Result (List Trade)
then_cons none rest = raised key_error
then_cons (some x) (ok xs) = ok (x ∷ xs)
then_cons (some x) (raised e) = raised e

unfoldable pub lookup_all : List TradeKey → Entries TradeKey Trade → Result (List Trade)
lookup_all [] d = ok []
lookup_all (k ∷ ks) d = then_cons (find trade_order k d) (lookup_all ks d)

module _ (t : TradeDict) where
  pub record TradesView : Type 0 where
    pub pending_offer_by_id : Dict Pending
    pub trade_by_id : Dict Trade
    pub trades_by_key : t.dict.Dict

  unfoldable pub empty_trades : TradesView
  empty_trades = record { pending_offer_by_id = []; trade_by_id = []; trades_by_key = t.dict.empty }

  unfoldable pub add_pending : Pending → TradesView → TradesView
  unfolding pending_id
  add_pending p v = record v {
    pending_offer_by_id = Dict.put v.pending_offer_by_id (pending_id p) p;
  }

  -- The end of `report_completed`, after the pending offer has left its dictionary
  unfoldable pub record_trade : Pending → ℕ → Exec TradesView (Option ℕ)
  record_trade (entry_pending e) timestamp v = (raised assertion_error, v)
  record_trade (offer_pending o) timestamp v = (
    ok (some o.offer_id),
    record v {
      trades_by_key =
          t.dict.set v.trades_by_key (timestamp, o.offer_id)
            (record { offer = o; timestamp = timestamp });
      trade_by_id = Dict.put v.trade_by_id o.offer_id (record { offer = o; timestamp = timestamp });
    },
  )

  unfoldable pub report_found : Option Pending → ℕ → ℕ → Exec TradesView (Option ℕ)
  unfolding record_trade
  report_found none offer_id timestamp v = (ok none, v)
  report_found (some p) offer_id timestamp v =
      record_trade p timestamp
        (record v { pending_offer_by_id = Dict.remove v.pending_offer_by_id offer_id })

  -- `report_completed`; `none` is the result False.
  unfoldable pub report_completed : ℕ → ℕ → Exec TradesView (Option ℕ)
  unfolding report_found
  report_completed offer_id timestamp v =
      report_found (Dict.get v.pending_offer_by_id offer_id) offer_id timestamp v

  -- `values`
  unfoldable pub trade_values : TradesView → List Trade
  trade_values v = map (λ e. e.1) (t.dict.items v.trades_by_key)

  -- `trades`. Its first test compares a new tuple by identity, and is never true.
  unfoldable pub trades : Option ℕ → Option ℕ → TradesView → Result (List Trade)
  unfolding lookup_all
  trades from_timestamp to_timestamp v =
      lookup_all (t.irange v.trades_by_key (at_time from_timestamp) (at_time to_timestamp))
        (t.dict.items v.trades_by_key)

  module _ (floats : Floats) (sorted : OfferDict floats) where
    -- The objects that the tasks share
    pub record Market : Type 0 where
      pub book : OfferBook floats sorted
      pub view : TradesView

    unfoldable pub take_found : Option OfferBookEntry → ℕ → Exec Market (Unit {0})
    unfolding add_pending
    take_found none offer_id m = (raised attribute_error, m)
    take_found (some e) offer_id m =
        let (r, b) = book_remove_offer floats sorted offer_id m.book in
        (r, record { book = b; view = add_pending (entry_pending e) m.view })

    -- `OfferTakenTask.process`
    unfoldable pub process_taken : ℕ → Exec Market (Unit {0})
    unfolding take_found
    process_taken offer_id m =
        if book_contains floats sorted offer_id m.book
        then take_found (book_offer_by_id floats sorted offer_id m.book) offer_id m
        else (ok tt, m)

    abbrev pub no_value : Result (Option ℕ) → Result (Unit {0})
    no_value (ok x) = ok tt
    no_value (raised x) = raised x

    -- `SwapCompletedTask.process`
    unfoldable pub process_completed : ℕ → ℕ → Exec Market (Unit {0})
    unfolding report_completed
    process_completed offer_id timestamp m = (
      no_value (report_completed offer_id timestamp m.view).0,
      record m { view = (report_completed offer_id timestamp m.view).1 },
    )
