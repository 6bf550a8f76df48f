-- ===== src/Node/Grouping/TradeGroups.antt =====
-- `group_trades`, `group_trades_from` and `get_n_recent_trades` of
-- raidex/raidex_node/offer_grouping.py.
pub mod Entries
pub mod Amounts
use raidex.Prelude.{
  ℕ, ◌+◌, ◌≤◌, ◌≡◌, refl, Bool, true, false, Option, none, some, List, [], ◌∷◌, ◌++◌, ◌==◌,
  if◌then◌else◌, length, map,
}
use raidex.Exec.{Result, ok, raised, zero_division_error}
use raidex.Sorted.{TotalOrder, nat_order, lex_order}
use raidex.Node.Offer.{Floats, OfferType, BasicOffer, price, value_of}
use raidex.Node.Trades.{Trade}
use raidex.Node.Grouping.Upsert.{upsert, sort_by_key}
use raidex.Node.Grouping.Offers.{Decimals, quantized, price_to_quantize}
use raidex.Node.Grouping.Times.{find_time_bin, or_else, time_group_interval_ms}
use raidex.Node.Grouping.Bins.{Averages}

-- `del d[key]` on entries whose keys are told apart by a test
unfoldable pub remove_key : {K V : Type 0} → (K → K → Bool) → K → List (K × V) → List (K × V)
remove_key same k [] = []
remove_key same k ((j, v) ∷ d) =
    let rest = remove_key same k d in if same j k then d else (j, v) ∷ rest

module _ (floats : Floats) (decimals : Decimals (floats.Float))
    (averages : Averages (floats.Float) (decimals.Decimal)) where
  open decimals use {Decimal}

  -- `GroupedTrade` without its hash
  pub record GroupedTrade : Type 0 where
    pub price_decimal : Decimal
    pub type : OfferType
    pub amount : ℕ
    pub timestamp : ℕ

  unfoldable pub new_grouped_trade : Decimal → ℕ → OfferType → GroupedTrade
  new_grouped_trade price_decimal time type = record {
    price_decimal = price_decimal;
    type = type;
    amount = 0;
    timestamp = time;
  }

  -- `GroupedTrade.add`
  unfoldable pub add_to_trade_group : ℕ → GroupedTrade → GroupedTrade
  add_to_trade_group amount g = record g { amount = g.amount + amount }

  -- The keys: the quantized price as a float, the start of the bin, and the type
  abbrev pub GroupKey : Type 0
  GroupKey = floats.Float × (ℕ × ℕ)

  abbrev pub key_order : TotalOrder GroupKey
  key_order = lex_order (floats.order) (lex_order nat_order nat_order)

  abbrev pub TradeGroups : Type 0
  TradeGroups = List (GroupKey × GroupedTrade)

  unfoldable pub group_key : Option ℕ → floats.Float → Trade → GroupKey
  unfolding find_time_bin
  group_key interval p t = (
    averages.to_float (quantized floats decimals p),
    ((find_time_bin t.timestamp none interval).0, value_of t.offer.type),
  )

  -- The group of a trade takes its amount, or a new one does.
  unfoldable pub collect_trade : Option ℕ → floats.Float → Trade → TradeGroups → TradeGroups
  unfolding upsert new_grouped_trade add_to_trade_group group_key
  collect_trade interval p t d =
      upsert key_order.same (group_key interval p t)
        (new_grouped_trade (quantized floats decimals p) (find_time_bin t.timestamp none interval).0
          t.offer.type)
        (add_to_trade_group t.offer.base_amount) d

  abbrev pub is_full : Option ℕ → ℕ → Bool
  is_full none n = false
  is_full (some chunk_size) n = n == chunk_size + 1

  -- With one group more than the chunk, the last one is deleted and the loop stops.
  unfoldable pub stop_or :
      Bool → GroupKey → TradeGroups → (TradeGroups → Result TradeGroups) → Result TradeGroups
  unfolding remove_key
  stop_or true k d loop = ok (remove_key key_order.same k d)
  stop_or false k d loop = loop d

  unfoldable pub group_priced :
      Option ℕ
      → Option ℕ
      → Result (floats.Float)
      → Trade
      → TradeGroups
      → (TradeGroups → Result TradeGroups)
      → Result TradeGroups
  unfolding stop_or collect_trade
  group_priced chunk_size interval (raised x) t d loop = raised x
  group_priced chunk_size interval (ok p) t d loop =
      stop_or (is_full chunk_size (length (collect_trade interval p t d))) (group_key interval p t)
        (collect_trade interval p t d) loop

  -- The price, where the bin of the time can be found: a division of decimals by zero raises.
  unfoldable pub price_and_bin : Option ℕ → Result (floats.Float) → Result (floats.Float)
  price_and_bin interval (raised x) = raised x
  price_and_bin interval (ok p) =
      if or_else time_group_interval_ms interval == 0 then raised zero_division_error else ok p

  -- The loop of `group_trades`
  unfoldable pub group_loop : Option ℕ → Option ℕ → List Trade → TradeGroups → Result TradeGroups
  unfolding group_priced price_to_quantize price_and_bin
  group_loop chunk_size interval [] d = ok d
  group_loop chunk_size interval (t ∷ ts) d =
      group_priced chunk_size interval
        (price_and_bin interval (price_to_quantize floats decimals t.offer)) t d
        (group_loop chunk_size interval ts)

  -- `sorted`, by the time and the price
  unfoldable pub sort_groups : TradeGroups → List GroupedTrade
  unfolding sort_by_key
  sort_groups d =
      map (λ e. e.1)
        (sort_by_key (lex_order nat_order decimals.order)
          (map (λ e. ((e.1.timestamp, e.1.price_decimal), e.1)) d))

  unfoldable pub sorted_groups : Result TradeGroups → Result (List GroupedTrade)
  unfolding sort_groups
  sorted_groups (raised x) = raised x
  sorted_groups (ok d) = ok (sort_groups d)

  -- `group_trades`
  unfoldable pub group_trades :
      List Trade → (chunk_size time_group_interval : Option ℕ) → Result (List GroupedTrade)
  unfolding group_loop sorted_groups
  group_trades ts chunk_size interval = sorted_groups (group_loop chunk_size interval ts [])

  abbrev from_bin : Option ℕ → Option ℕ → Option ℕ
  from_bin none interval = none
  from_bin (some time) interval = some (find_time_bin time none interval).0

  unfoldable then_group : Result (List Trade) → Option ℕ → Result (List GroupedTrade)
  unfolding group_trades
  then_group (raised x) interval = raised x
  then_group (ok ts) interval = group_trades ts none interval

  -- `group_trades_from`, with the query for the trades from a time
  unfoldable pub group_trades_from :
      (Option ℕ → Result (List Trade))
      → (from_timestamp interval : Option ℕ) → Result (List GroupedTrade)
  unfolding then_group find_time_bin
  group_trades_from trades from_timestamp interval =
      then_group (trades (from_bin from_timestamp interval)) interval

  unfoldable pub reversed : List Trade → List Trade
  reversed [] = []
  reversed (t ∷ ts) = reversed ts ++ t ∷ []

  -- `get_n_recent_trades`
  unfoldable pub get_n_recent_trades : List Trade → ℕ → Result (List GroupedTrade)
  unfolding group_trades reversed
  get_n_recent_trades ts nof_trades = group_trades (reversed ts) (some nof_trades) none
