-- ===== src/Node/Trades/Examples.antt =====
-- A view of trades with two of them, and an entry that is taken from the book.
use raidex.Prelude.{ℕ, ◌≡◌, refl, some, List, [], ◌∷◌, keep}
use raidex.Dict
use raidex.Exec.{ok, raised, assertion_error}
use raidex.Node.Offer.{BasicOffer, sell}
use raidex.Node.Examples.{floats, sorted, entry}
use raidex.Sorted.{insert, find}
use raidex.Node.OfferBook.{book_contains, book_offer_by_id}
use raidex.Node.OfferBook.View.{get_offer_by_id}
use raidex.Node.Trades.{
  listed_trades, TradesView, empty_trades, offer_pending, Market, trades, trade_values, add_pending,
  report_completed, process_taken, process_completed, record_trade, report_found, pending_id,
  lookup_all,
}
use raidex.Node.Trades.Range.{
  TradeOp, pending_op, completed_op, in_range, run_trades, trades-eq-keep,
}
use raidex.Node.Trades.Taken.{Reports, report_completed-Reports, taken_is_lost}

abbrev offer : ℕ → BasicOffer
offer i = record {
  offer_id = i;
  type = sell;
  base_amount = 10;
  quote_amount = 20;
  timeout_date = 900;
}

abbrev ops : List TradeOp
ops =
    pending_op (offer_pending (offer 5))
    ∷ pending_op (offer_pending (offer 6))
    ∷ completed_op 6 40
    ∷ completed_op 5 30
    ∷ []

trades-eq-keep_example :
    trades listed_trades
      (some 35)
      (some 50)
      (run_trades listed_trades ops (empty_trades listed_trades))
    ≡ ok (
        keep
          (in_range (some 35) (some 50))
          (trade_values listed_trades (run_trades listed_trades ops (empty_trades listed_trades))))
trades-eq-keep_example = trades-eq-keep listed_trades ops (some 35) (some 50)

one_in_range :
    trades listed_trades
      (some 35)
      (some 50)
      (run_trades listed_trades ops (empty_trades listed_trades))
    ≡ ok (record { offer = offer 6; timestamp = 40 } ∷ [])
unfolding trades run_trades empty_trades add_pending report_completed report_found record_trade
    pending_id Dict.get Dict.put Dict.remove lookup_all insert find
one_in_range = refl

abbrev view : TradesView listed_trades
view = record {
  pending_offer_by_id = (5, offer_pending (offer 5)) ∷ [];
  trade_by_id = [];
  trades_by_key = [];
}

report_completed-Reports_example :
    Reports listed_trades
      (some (offer_pending (offer 5)))
      5
      30
      5
      view
      (report_completed listed_trades 5 30 view)
unfolding Dict.get
report_completed-Reports_example = report_completed-Reports listed_trades 5 30 5 view

abbrev market : Market listed_trades floats sorted
market = record {
  book = record {
    buys = record { offer_entries = []; offer_entries_by_id = [] };
    sells = record {
      offer_entries = ((2000, 5), entry 5 10 20) ∷ [];
      offer_entries_by_id = (5, entry 5 10 20) ∷ [];
    };
  };
  view = view;
}

taken_is_lost_example :
    let after =
      process_completed listed_trades floats sorted 5 60
        (process_taken listed_trades floats sorted 5 market).1 in
    (after.0 ≡ raised assertion_error)
    × (after.1.view.trades_by_key ≡ [])
    × (after.1.view.trade_by_id ≡ [])
unfolding book_contains book_offer_by_id get_offer_by_id Dict.get Dict.contains
taken_is_lost_example =
    taken_is_lost listed_trades floats sorted 5 60 market (entry 5 10 20) refl refl refl
