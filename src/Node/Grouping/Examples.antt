-- ===== src/Node/Grouping/Examples.antt =====
-- Offers and trades at prices that are whole thousandths, grouped at whole hundreds of them. A price
-- below 10 ^ 27 has at most 28 digits with one after the point.
use raidex.Prelude.{
  ℕ, ◌+◌, ◌*◌, ◌/◌, ◌≡◌, refl, arith, none, some, List, [], ◌∷◌, ◌==◌, length, ltb, ◌^◌,
}
use raidex.Dict
use raidex.Exec.{ok, raised, invalid_operation}
use raidex.Sorted.{nat_order, insert, find}
use raidex.Node.Offer.{BasicOffer, buy, price}
use raidex.Node.Examples.{floats}
use raidex.Node.Trades.{
  Trade, listed_trades, TradesView, empty_trades, offer_pending, trades, trade_values, add_pending,
  report_completed, record_trade, report_found, pending_id, lookup_all,
}
use raidex.Node.Trades.Range.{TradeOp, pending_op, completed_op, run_trades}
use raidex.Node.Grouping.Upsert.{upsert, sort_by_key}
use raidex.Node.Grouping.Offers.{
  Decimals, fitting, price_to_quantize, group_offers, GroupsOk, collect_offers, collect_offer,
  new_group, add_to_group, group_offers-GroupsOk,
}
use raidex.Node.Grouping.Times.{find_time_bin}
use raidex.Node.Grouping.TradeGroups.{
  group_trades, group_loop, collect_trade, group_key, new_grouped_trade, add_to_trade_group,
  remove_key, stop_or, group_priced, price_and_bin, sort_groups, sorted_groups,
}
use raidex.Node.Grouping.TradeGroups.Amounts.{TradesGrouped, group_trades-TradesGrouped}
use raidex.Node.Grouping.Bins.{Averages, make_price_bins}
use raidex.Node.Grouping.Bins.Volumes.{SeriesOk, volumes}
use raidex.Node.Grouping.Bins.Series.{make_price_bins-SeriesOk}

abbrev decimals : Decimals ℕ
decimals = record {
  Decimal = ℕ;
  order = nat_order;
  fits = λ p. ltb p (10 ^ 30);
  quantize = λ p. p / 100 * 100;
}

abbrev total : List ℕ → ℕ
total [] = 0
total (x ∷ xs) = x + total xs

abbrev averages : Averages ℕ ℕ
averages = record {
  is_zero = λ p. p == 0;
  average = λ ps. total ps / length ps;
  to_float = λ p. p;
  zero_float = 0;
}

abbrev offer : ℕ → ℕ → ℕ → BasicOffer
offer i base quote = record {
  offer_id = i;
  type = buy;
  base_amount = base;
  quote_amount = quote;
  timeout_date = 900 + i;
}

abbrev offers : List BasicOffer
offers = offer 1 10 30 ∷ offer 2 100 205 ∷ offer 3 50 101 ∷ []

group_offers-GroupsOk_example :
    GroupsOk floats decimals offers 2000 (group_offers floats decimals offers)
group_offers-GroupsOk_example = group_offers-GroupsOk floats decimals offers 2000 (
  record { based = omega arith; fits = refl },
  (record { based = omega arith; fits = refl }, (record { based = omega arith; fits = refl }, tt)),
)

-- A price with too many digits
group_offers_raises :
    group_offers floats decimals (offer 1 10 30 ∷ offer 2 1 (10 ^ 27) ∷ [])
    ≡ raised invalid_operation
unfolding group_offers collect_offers collect_offer price_to_quantize fitting price upsert
group_offers_raises = refl

grouped_twice :
    group_offers floats decimals offers
    ≡ ok (
        (2000, record { amount = 150; timeouts = 902 ∷ 903 ∷ [] })
        ∷ (3000, record { amount = 10; timeouts = 901 ∷ [] })
        ∷ [])
unfolding group_offers collect_offers collect_offer price upsert sort_by_key new_group add_to_group
grouped_twice = refl

abbrev ops : List TradeOp
ops =
    pending_op (offer_pending (offer 5 10 20))
    ∷ pending_op (offer_pending (offer 6 30 60))
    ∷ completed_op 6 33
    ∷ completed_op 5 28
    ∷ []

abbrev view : TradesView listed_trades
view = run_trades listed_trades ops (empty_trades listed_trades)

make_price_bins-SeriesOk_example :
    SeriesOk floats decimals averages (volumes (trade_values listed_trades view) 10 20 1) (
      make_price_bins floats decimals averages
        (λ f s. trades listed_trades (some f) (some s) view)
        1
        10
        45)
unfolding run_trades empty_trades add_pending report_completed report_found record_trade pending_id
    Dict.get Dict.put Dict.remove lookup_all insert find trade_values
make_price_bins-SeriesOk_example =
    make_price_bins-SeriesOk floats decimals averages listed_trades ops 1 10 45 (omega arith)
      (omega arith)
      (
        record { based = omega arith; fits = refl },
        (record { based = omega arith; fits = refl }, tt),
      )

abbrev trade : ℕ → ℕ → ℕ → Trade
trade i base time = record { offer = offer i base (base + base); timestamp = time }

abbrev three_trades : List Trade
three_trades = trade 1 10 15 ∷ trade 2 40 18 ∷ trade 3 5 27 ∷ []

group_trades-TradesGrouped_example :
    TradesGrouped floats decimals averages none
      (some 10)
      (2000, (10, 0))
      three_trades
      (group_trades floats decimals averages three_trades none (some 10))
group_trades-TradesGrouped_example =
    group_trades-TradesGrouped floats decimals averages none (some 10) (2000, (10, 0)) three_trades
      (omega arith)
      (
        record { based = omega arith; fits = refl },
        (
          record { based = omega arith; fits = refl },
          (record { based = omega arith; fits = refl }, tt),
        ),
      )

first_bin_only :
    group_trades floats decimals averages three_trades (some 1) (some 10)
    ≡ ok (record { price_decimal = 2000; type = buy; amount = 50; timestamp = 10 } ∷ [])
unfolding group_trades group_loop group_priced price_and_bin stop_or price collect_trade upsert
    group_key find_time_bin new_grouped_trade add_to_trade_group remove_key sorted_groups
    sort_groups sort_by_key
first_bin_only = refl
