-- ===== src/Node/Trades/Range.antt =====
-- The trades that `TradesView.trades` (raidex/raidex_node/trades.py) gives for a range of times.
use raidex.Prelude.{
  ℕ, ◌≡◌, ◌∙◌, ap, refl, Bool, true, not, Option, none, some, List, [], ◌∷◌, ◌&&◌, ltb, map, keep,
  All, All-weaken, arith,
}
use raidex.Dict
use raidex.Exec.{ok}
use raidex.Sorted.{IsSorted, Entries, find, insert-IsSorted, All-insert, found_all}
use raidex.Node.Trades.{
  Trade, Pending, offer_pending, entry_pending, TradeKey, TradeDict, trade_order, from_key,
  below_key, TradesView, empty_trades, add_pending, report_completed, report_found, record_trade,
  trade_values, lookup_all, at_time, trades,
}

-- What is done to the view
pub data TradeOp : Type 0 where
  pending_op : Pending → TradeOp
  completed_op : (offer_id timestamp : ℕ) → TradeOp

-- From the first timestamp on and before the second, where they are given
abbrev from_time : Option ℕ → ℕ → Bool
from_time none time = true
from_time (some f) time = not (ltb time f)

abbrev before_time : Option ℕ → ℕ → Bool
before_time none time = true
before_time (some t) time = ltb time t

unfoldable pub in_range : Option ℕ → Option ℕ → Trade → Bool
in_range f t x = from_time f x.timestamp && before_time t x.timestamp

abbrev HasKey : TradeKey × Trade → Type 0
HasKey e = e.0 ≡ (e.1.timestamp, e.1.offer.offer_id)

range_test :
    (f t : Option ℕ) (e : TradeKey × Trade)
    → HasKey e
    → (from_key (at_time f) e.0 && below_key (at_time t) e.0) ≡ in_range f t e.1
unfolding in_range
range_test none none e h = refl
range_test none (some t) e h = rw (h) (ground arith)
range_test (some f) none e h = rw (h) (ground arith)
range_test (some f) (some t) e h = rw (h) (ground arith)

lookup_all-keep :
    (p : TradeKey × Trade → Bool) (full d : Entries TradeKey Trade)
    → All (λ e. find trade_order e.0 full ≡ some e.1) d
    → lookup_all (map (λ e. e.0) (keep p d)) full ≡ ok (map (λ e. e.1) (keep p d))
unfolding lookup_all
lookup_all-keep p full [] h = refl
lookup_all-keep p full (e ∷ d) h = ground (arith, h.0, lookup_all-keep p full d h.1)

keep-map :
    (p : TradeKey × Trade → Bool) (q : Trade → Bool) (d : Entries TradeKey Trade)
    → All (λ e. p e ≡ q e.1) d
    → map (λ e. e.1) (keep p d) ≡ keep q (map (λ e. e.1) d)
keep-map p q [] h = refl
keep-map p q (e ∷ d) h = ground (arith, h.0, keep-map p q d h.1)

module _ (t : TradeDict) where
  unfoldable pub run_trades : List TradeOp → TradesView t → TradesView t
  run_trades [] v = v
  run_trades (pending_op p ∷ ops) v = run_trades ops (add_pending t p v)
  run_trades (completed_op i time ∷ ops) v = run_trades ops (report_completed t i time v).1

  record IsKept (v : TradesView t) : Type 0 where
    sorted : IsSorted trade_order (t.dict.items v.trades_by_key)
    keyed : All HasKey (t.dict.items v.trades_by_key)

  trades-kept :
      (from_timestamp to_timestamp : Option ℕ) (v : TradesView t)
      → IsKept v
      → trades t from_timestamp to_timestamp v
        ≡ ok (keep (in_range from_timestamp to_timestamp) (trade_values t v))
  unfolding trades trade_values
  trades-kept f to v h =
      let items = t.dict.items v.trades_by_key in
      rw (t.irange-items) (
        lookup_all-keep (λ e. from_key (at_time f) e.0 && below_key (at_time to) e.0) items items
          (found_all trade_order items h.sorted)
        ∙ ap ok (
            keep-map (λ e. from_key (at_time f) e.0 && below_key (at_time to) e.0) (in_range f to)
              items (All-weaken HasKey _ items (range_test f to) h.keyed)))

  record_trade-IsKept :
      (p : Pending) (time : ℕ) (v : TradesView t) → IsKept v → IsKept (record_trade t p time v).1
  unfolding record_trade
  record_trade-IsKept (entry_pending e) time v h = h
  record_trade-IsKept (offer_pending o) time v h = record {
    sorted = rw (t.dict.items-set) (insert-IsSorted trade_order _ _ _ h.sorted);
    keyed = rw (t.dict.items-set) (All-insert trade_order HasKey _ _ _ refl h.keyed);
  }

  report_found-IsKept :
      (found : Option Pending) (i time : ℕ) (v : TradesView t)
      → IsKept v
      → IsKept (report_found t found i time v).1
  unfolding report_found
  report_found-IsKept none i time v h = h
  report_found-IsKept (some p) i time v h =
      record_trade-IsKept p time _ (record { sorted = h.sorted; keyed = h.keyed })

  run_trades-IsKept : (ops : List TradeOp) (v : TradesView t) → IsKept v → IsKept (run_trades ops v)
  unfolding run_trades add_pending report_completed
  run_trades-IsKept [] v h = h
  run_trades-IsKept (pending_op p ∷ ops) v h =
      run_trades-IsKept ops (add_pending t p v) (record { sorted = h.sorted; keyed = h.keyed })
  run_trades-IsKept (completed_op i time ∷ ops) v h =
      run_trades-IsKept ops (report_completed t i time v).1
        (report_found-IsKept (Dict.get v.pending_offer_by_id i) i time v h)

  empty-IsKept : IsKept (empty_trades t)
  unfolding empty_trades
  empty-IsKept = record { sorted = rw (t.dict.items-empty) tt; keyed = rw (t.dict.items-empty) tt }

  -- Whatever was pending and was reported as completed, in whatever order, a query for a range of
  -- times raises nothing and gives those of all recorded trades, in the order of the view, whose
  -- time is not before the first timestamp and is before the second; one that is not given is no
  -- bound.
  pub trades-eq-keep :
      (ops : List TradeOp) (from_timestamp to_timestamp : Option ℕ)
      → trades t from_timestamp to_timestamp (run_trades ops (empty_trades t))
        ≡ ok (
            keep
              (in_range from_timestamp to_timestamp)
              (trade_values t (run_trades ops (empty_trades t))))
  trades-eq-keep ops f to =
      trades-kept f to (run_trades ops (empty_trades t))
        (run_trades-IsKept ops (empty_trades t) empty-IsKept)
