-- ===== src/Node/Grouping/Bins.antt =====
-- `PriceBin` and `make_price_bins` of raidex/raidex_node/offer_grouping.py.
pub mod Prices
pub mod Volumes
pub mod Series
use raidex.Prelude.{
  ℕ, zero, suc, ◌+◌, ◌-◌, ◌≤◌, ◌<◌, ◌≡◌, refl, Bool, true, false, not, Option, none, some, List, [],
  ◌∷◌, ◌++◌, ◌==◌, ltb, if◌then◌else◌, arith, length, tail, All, Bool-cases, inl, inr,
}
use raidex.Dict
use raidex.Dict.{Dict}
use raidex.Exec.{Result, ok, raised, zero_division_error, assertion_error}
use raidex.Sorted.{TotalOrder, nat_order}
use raidex.Node.Offer.{Floats, BasicOffer, price}
use raidex.Node.Trades.{Trade}
use raidex.Node.Grouping.Upsert.{sort_by_key}
use raidex.Node.Grouping.Offers.{Decimals, quantized, price_to_quantize}
use raidex.Node.Grouping.Times.{bins_from, time_bin_gen}

-- What `PriceBin` needs of decimals besides: whether one is zero, the sum divided by the count, and
-- the floats of decimals and of zero
pub record Averages (Float Decimal : Type 0) : Type 0 where
  pub is_zero : Decimal → Bool
  pub average : List Decimal → Decimal
  pub to_float : Decimal → Float
  pub zero_float : Float

module _ (floats : Floats) (decimals : Decimals (floats.Float))
    (averages : Averages (floats.Float) (decimals.Decimal)) where
  open decimals use {Decimal}

  pub record PriceBin : Type 0 where
    pub open_price : floats.Float
    pub close_prices : List Decimal
    pub close_timestamp : Option ℕ
    pub min_price_seen : Option Decimal
    pub max_price_seen : Option Decimal
    pub amount : ℕ
    pub timestamp : ℕ

  unfoldable pub new_price_bin : floats.Float → ℕ → PriceBin
  new_price_bin open_price timestamp = record {
    open_price = open_price;
    close_prices = [];
    close_timestamp = none;
    min_price_seen = none;
    max_price_seen = none;
    amount = 0;
    timestamp = timestamp;
  }

  unfoldable pub lower_of : Option Decimal → Decimal → Decimal
  lower_of none p = p
  lower_of (some q) p = if decimals.order.less p q then p else q

  unfoldable pub higher_of : Option Decimal → Decimal → Decimal
  higher_of none p = p
  higher_of (some q) p = if decimals.order.less q p then p else q

  -- The closing time and prices after a trade
  unfoldable pub closing : Option ℕ → List Decimal → ℕ → Decimal → Option ℕ × List Decimal
  closing none ps time p = (some time, p ∷ [])
  closing (some last) ps time p =
      if ltb last time
      then (some time, p ∷ [])
      else if time == last
      then (some last, ps ++ p ∷ [])
      else (some last, ps)

  -- `PriceBin.add`
  unfoldable pub add_trade : ℕ → ℕ → Decimal → PriceBin → PriceBin
  unfolding lower_of higher_of closing
  add_trade time amount p b = record b {
    min_price_seen = some (lower_of b.min_price_seen p);
    max_price_seen = some (higher_of b.max_price_seen p);
    amount = b.amount + amount;
    close_timestamp = (closing b.close_timestamp b.close_prices time p).0;
    close_prices = (closing b.close_timestamp b.close_prices time p).1;
  }

  -- `close_price`
  unfoldable pub close_price : PriceBin → floats.Float
  close_price b = elim b.close_timestamp [
    | none ↦ b.open_price
    | some time ↦ averages.to_float (averages.average b.close_prices)
  ]

  -- `min_price` and `max_price`; a decimal that is zero counts as false.
  abbrev seen_or_open : Option Decimal → floats.Float → floats.Float
  seen_or_open none open_price = open_price
  seen_or_open (some p) open_price = if averages.is_zero p then open_price else averages.to_float p

  unfoldable pub min_price : PriceBin → floats.Float
  min_price b = seen_or_open b.min_price_seen b.open_price

  unfoldable pub max_price : PriceBin → floats.Float
  max_price b = seen_or_open b.max_price_seen b.open_price

  abbrev add_priced : Result (floats.Float) → Trade → PriceBin → Result PriceBin
  add_priced (raised x) t b = raised x
  add_priced (ok p) t b =
      ok (add_trade t.timestamp t.offer.base_amount (quantized floats decimals p) b)

  abbrev pub then_bin {κ} :
      {A : Type κ} → Result A → (A → Result (List PriceBin)) → Result (List PriceBin)
  then_bin (raised x) f = raised x
  then_bin (ok a) f = f a

  abbrev then_add : (PriceBin → Result PriceBin) → Result PriceBin → Result PriceBin
  then_add f (raised x) = raised x
  then_add f (ok b) = f b

  -- The inner loop of `make_price_bins`
  unfoldable pub fill_bin : List Trade → PriceBin → Result PriceBin
  unfolding add_trade price_to_quantize
  fill_bin [] b = ok b
  fill_bin (t ∷ ts) b =
      then_add (fill_bin ts) (add_priced (price_to_quantize floats decimals t.offer) t b)

  abbrev pub cons_bin : PriceBin → Result (List PriceBin) → Result (List PriceBin)
  cons_bin b (raised x) = raised x
  cons_bin b (ok bs) = ok (b ∷ bs)

  -- The outer loop, over the pairs that `zip` makes of the starts and the stops
  unfoldable pub bin_loop :
      (ℕ → ℕ → Result (List Trade)) → List ℕ → List ℕ → floats.Float → Result (List PriceBin)
  unfolding fill_bin new_price_bin close_price
  bin_loop trades [] stops last = ok []
  bin_loop trades (f ∷ starts) [] last = ok []
  bin_loop trades (f ∷ starts) (s ∷ stops) last = then_bin (trades f s) λ ts.
      then_bin (fill_bin ts (new_price_bin last f))
        λ b. cons_bin b (bin_loop trades starts stops (close_price b))

  -- `price_bins[from_time] = price_bin`, in the order of the loop
  unfoldable pub put_bins : List PriceBin → Dict PriceBin → Dict PriceBin
  put_bins [] d = d
  put_bins (b ∷ bs) d = put_bins bs (Dict.put d b.timestamp b)

  -- The end of `make_price_bins`: the assertion, `sorted`, and the slice without the first
  unfoldable pub finish_bins : ℕ → List PriceBin → Result (List PriceBin)
  unfolding put_bins sort_by_key
  finish_bins nof_buckets bs =
      if length (put_bins bs []) == nof_buckets + 1
      then ok (tail (Dict.values (sort_by_key nat_order (put_bins bs []))))
      else raised assertion_error

  unfoldable pub with_starts :
      (ℕ → ℕ → Result (List Trade)) → ℕ → ℕ → List ℕ → Result (List PriceBin)
  unfolding bin_loop finish_bins time_bin_gen
  with_starts trades nof_buckets size (from_start ∷ to_start ∷ []) =
      then_bin
        (bin_loop trades (time_bin_gen from_start (nof_buckets + 1) (some size))
          (time_bin_gen to_start (nof_buckets + 1) (some size)) averages.zero_float)
        (finish_bins nof_buckets)
  with_starts trades nof_buckets size other = raised assertion_error

  -- `make_price_bins` at a time, with the interval in milliseconds. A division of decimals by zero
  -- raises.
  unfoldable pub make_price_bins :
      (ℕ → ℕ → Result (List Trade)) → ℕ → ℕ → ℕ → Result (List PriceBin)
  unfolding with_starts time_bin_gen
  make_price_bins trades nof_buckets size now =
      if size == 0
      then raised zero_division_error
      else with_starts trades nof_buckets size (time_bin_gen now 2 (some size))
