-- ===== src/Node/Grouping/TradeGroups/Amounts.antt =====
-- The amounts and the number of the groups of trades (`group_trades` of
-- raidex/raidex_node/offer_grouping.py).
use mathlib.Core.Path.{ap₂}
use raidex.Prelude.{
  ℕ, suc, ◌+◌, ◌≤◌, ◌<◌, ◌≡◌, ◌∙◌, ap, refl, Bool, true, false, Option, none, some, List, [], ◌∷◌,
  ◌==◌, if◌then◌else◌, length, map, arith, All, Bool-cases, inl, inr,
}
use raidex.Exec.{Result, ok, raised}
use raidex.Sorted.{nat_order, lex_order}
use raidex.Node.Offer.{Floats, value_of}
use raidex.Node.Trades.{Trade}
use raidex.Node.Grouping.Upsert.{sort_by_key, measure_at, measure_at-upsert, All-upsert}
use raidex.Node.Grouping.Offers.{Decimals, quantized, HasPrice, price-ok}
use raidex.Node.Grouping.Times.{find_time_bin, or_else, time_group_interval_ms}
use raidex.Node.Grouping.Bins.{Averages}
use raidex.Node.Grouping.TradeGroups.{
  remove_key, price_and_bin, GroupedTrade, new_grouped_trade, add_to_trade_group, GroupKey,
  key_order, TradeGroups, group_key, collect_trade, is_full, stop_or, group_priced, group_loop,
  sort_groups, sorted_groups, group_trades,
}
use raidex.Node.Grouping.TradeGroups.Entries.{
  measure-remove, All-remove, remove-upsert, length-upsert, length-sort, total-sort, length-map,
  total_of,
}

module _ (floats : Floats) (decimals : Decimals (floats.Float))
    (averages : Averages (floats.Float) (decimals.Decimal)) where
  abbrev Key : Type 0
  Key = GroupKey floats decimals averages

  abbrev Group : Type 0
  Group = GroupedTrade floats decimals averages

  abbrev same : Key → Key → Bool
  same = (key_order floats decimals averages).same

  -- The key of a group, from its own fields
  abbrev pub own_key : Group → Key
  own_key g = (averages.to_float g.price_decimal, (g.timestamp, value_of g.type))

  -- The amounts of the groups with a key
  unfoldable pub amount_at : Key → List Group → ℕ
  unfolding total_of
  amount_at k gs = total_of (λ g. if same (own_key g) k then g.amount else 0) gs

  -- The base amounts of the trades with a key
  unfoldable pub traded_at : Option ℕ → Key → List Trade → ℕ
  unfolding group_key
  traded_at interval k [] = 0
  traded_at interval k (t ∷ ts) =
      (if same
          (group_key floats decimals averages interval
            (floats.quotient t.offer.quote_amount t.offer.base_amount) t)
          k
        then t.offer.base_amount
        else 0)
      + traded_at interval k ts

  abbrev OwnKey : Key × Group → Type 0
  OwnKey e = own_key e.1 ≡ e.0

  amount-values :
      (k : Key) (d : TradeGroups floats decimals averages)
      → All OwnKey d
      → amount_at k (map (λ e. e.1) d) ≡ measure_at same (λ g. g.amount) k d
  unfolding amount_at total_of measure_at
  amount-values k [] h = refl
  amount-values k (e ∷ d) h =
      ap₂ ◌+◌ (ap (λ q. if same q k then e.1.amount else 0) h.0) (amount-values k d h.1)

  rekey : TradeGroups floats decimals averages → List ((ℕ × decimals.Decimal) × Group)
  rekey d = map (λ e. ((e.1.timestamp, e.1.price_decimal), e.1)) d

  -- What the loop makes of trades and of the groups so far, at a key
  record IsCollected (chunk interval : Option ℕ) (k : Key) (ts : List Trade)
      (d d' : TradeGroups floats decimals averages) : Type 0 where
    keyed : All OwnKey d'
    bounded : (c : ℕ) → chunk ≡ some c → length d' ≤ c
    at_most :
        measure_at same (λ g. g.amount) k d'
        ≤ measure_at same (λ g. g.amount) k d + traded_at interval k ts
    whole :
        chunk ≡ none
        → measure_at same (λ g. g.amount) k d'
          ≡ measure_at same (λ g. g.amount) k d + traded_at interval k ts

  LoopOk :
      Option ℕ
      → Option ℕ
      → Key
      → List Trade
      → TradeGroups floats decimals averages
      → Result (TradeGroups floats decimals averages)
      → Type 0
  LoopOk chunk interval k ts d (raised x) = ⊥
  LoopOk chunk interval k ts d (ok d') = IsCollected chunk interval k ts d d'

  abbrev base_price : Trade → floats.Float
  base_price t = floats.quotient t.offer.quote_amount t.offer.base_amount

  abbrev fresh_group : Option ℕ → Trade → Group
  fresh_group interval t =
      new_grouped_trade floats decimals averages (quantized floats decimals (base_price t))
        (find_time_bin t.timestamp none interval).0 t.offer.type

  collect-measure :
      (interval : Option ℕ) (k : Key) (t : Trade) (d : TradeGroups floats decimals averages)
      → measure_at same
          (λ g. g.amount)
          k
          (collect_trade floats decimals averages interval (base_price t) t d)
        ≡ measure_at same (λ g. g.amount) k d
          + (if same (group_key floats decimals averages interval (base_price t) t) k
              then t.offer.base_amount
              else 0)
  unfolding collect_trade new_grouped_trade add_to_trade_group
  collect-measure interval k t d =
      measure_at-upsert same (key_order floats decimals averages).same_iff (λ g. g.amount)
        t.offer.base_amount (group_key floats decimals averages interval (base_price t) t) k
        (fresh_group interval t) (add_to_trade_group floats decimals averages t.offer.base_amount) d
        refl (λ v. refl)

  collect-OwnKey :
      (interval : Option ℕ) (t : Trade) (d : TradeGroups floats decimals averages)
      → All OwnKey d
      → All OwnKey (collect_trade floats decimals averages interval (base_price t) t d)
  unfolding collect_trade new_grouped_trade add_to_trade_group group_key
  collect-OwnKey interval t d h =
      All-upsert same OwnKey (group_key floats decimals averages interval (base_price t) t)
        (fresh_group interval t) (add_to_trade_group floats decimals averages t.offer.base_amount) d
        refl (λ j v e. e) h

  loop-step :
      (chunk interval : Option ℕ) (k : Key) (t : Trade) (ts : List Trade)
      (d : TradeGroups floats decimals averages) (r : Result (TradeGroups floats decimals averages))
      → LoopOk chunk interval k ts
          (collect_trade floats decimals averages interval (base_price t) t d)
          r
      → LoopOk chunk interval k (t ∷ ts) d r
  unfolding LoopOk traded_at
  loop-step chunk interval k t ts d (raised x) h = h
  loop-step chunk interval k t ts d (ok d') h = record {
    keyed = h.keyed;
    bounded = h.bounded;
    at_most = omega (arith, h.at_most, collect-measure interval k t d);
    whole = λ e. omega (arith, h.whole e, collect-measure interval k t d);
  }

  same_refl : (k : Key) → same k k ≡ true
  same_refl k = ((key_order floats decimals averages).same_iff k k).1 refl

  HasRoom : Option ℕ → TradeGroups floats decimals averages → Type 0
  HasRoom chunk d = (c : ℕ) → chunk ≡ some c → length d ≤ c

  removed_again :
      (interval : Option ℕ) (t : Trade) (d : TradeGroups floats decimals averages)
      → length (
          remove_key same
            (group_key floats decimals averages interval (base_price t) t)
            (collect_trade floats decimals averages interval (base_price t) t d))
        ≤ length d
  unfolding collect_trade
  removed_again interval t d =
      remove-upsert same same_refl (group_key floats decimals averages interval (base_price t) t)
        (fresh_group interval t) (add_to_trade_group floats decimals averages t.offer.base_amount) d

  length-collect :
      (interval : Option ℕ) (t : Trade) (d : TradeGroups floats decimals averages)
      → length (collect_trade floats decimals averages interval (base_price t) t d) ≤ suc (length d)
  unfolding collect_trade
  length-collect interval t d =
      length-upsert same (group_key floats decimals averages interval (base_price t) t)
        (fresh_group interval t) (add_to_trade_group floats decimals averages t.offer.base_amount) d

  full_chunk :
      (chunk : Option ℕ) (n : ℕ)
      → chunk ≡ none
      → is_full floats decimals averages chunk n ≡ true
      → ⊥
  full_chunk none n e h = ground (arith, h)
  full_chunk (some c) n e h = ground (arith, e)

  room_left :
      (chunk : Option ℕ) (n m c : ℕ)
      → is_full floats decimals averages chunk n ≡ false
      → n ≤ suc m
      → m ≤ c
      → chunk ≡ some c
      → n ≤ c
  room_left none n m c h l b e = ground (arith, e)
  room_left (some x) n m c h l b e = ground (arith, e, h, l, b)

  group_loop-LoopOk :
      (chunk interval : Option ℕ) (k : Key) (ts : List Trade)
      (d : TradeGroups floats decimals averages)
      → 0 < or_else time_group_interval_ms interval
      → All (λ t. HasPrice floats decimals t.offer) ts
      → All OwnKey d
      → HasRoom chunk d
      → LoopOk chunk interval k ts d (group_loop floats decimals averages chunk interval ts d)
  unfolding LoopOk group_loop traded_at HasRoom group_priced stop_or price_and_bin
  group_loop-LoopOk chunk interval k [] d l h o room = record {
    keyed = o;
    bounded = room;
    at_most = omega arith;
    whole = λ e. omega arith;
  }
  group_loop-LoopOk chunk interval k (t ∷ ts) d l h o room =
      let positive : (or_else time_group_interval_ms interval == 0) ≡ false = ground arith in
      let d1 = collect_trade floats decimals averages interval (base_price t) t d in
      let o1 = collect-OwnKey interval t d o in
      elim (Bool-cases (is_full floats decimals averages chunk (length d1))) [
        | inl full ↦
            rw (price-ok floats decimals t.offer h.0, positive, full)
              (record {
                keyed =
                    All-remove same OwnKey
                      (group_key floats decimals averages interval (base_price t) t) d1 o1;
                bounded = λ c e. omega (arith, removed_again interval t d, room c e);
                at_most = omega (
                  arith,
                  collect-measure interval k t d,
                  measure-remove same (λ g. g.amount) k
                      (group_key floats decimals averages interval (base_price t) t) d1,
                );
                whole = λ e. absurd (full_chunk chunk (length d1) e full);
              })
        | inr more ↦
            rw (price-ok floats decimals t.offer h.0, positive, more)
              (loop-step chunk interval k t ts d
                (group_loop floats decimals averages chunk interval ts d1)
                (group_loop-LoopOk chunk interval k ts d1 l h.1 o1 (λ c e.
                  room_left chunk (length d1) (length d) c more (length-collect interval t d)
                    (room c e) e)))
      ]

  -- The grouped trades at a key: at most as many groups as the chunk asks for, and no more than what
  -- was traded; all of it where no chunk is asked for.
  pub record IsTradeGrouping (chunk interval : Option ℕ) (k : Key) (ts : List Trade)
      (gs : List Group) : Type 0 where
    pub bounded : (c : ℕ) → chunk ≡ some c → length gs ≤ c
    pub at_most : amount_at k gs ≤ traded_at interval k ts
    pub whole : chunk ≡ none → amount_at k gs ≡ traded_at interval k ts

  unfoldable pub TradesGrouped :
      Option ℕ → Option ℕ → Key → List Trade → Result (List Group) → Type 0
  TradesGrouped chunk interval k ts (raised x) = ⊥
  TradesGrouped chunk interval k ts (ok gs) = IsTradeGrouping chunk interval k ts gs

  values-rekey :
      (d : TradeGroups floats decimals averages) → map (λ e. e.1) (rekey d) ≡ map (λ e. e.1) d
  unfolding rekey
  values-rekey [] = refl
  values-rekey (e ∷ d) = ap (λ r. e.1 ∷ r) (values-rekey d)

  amount-sorted :
      (k : Key) (d : TradeGroups floats decimals averages)
      → All OwnKey d
      → amount_at k (sort_groups floats decimals averages d) ≡ measure_at same (λ g. g.amount) k d
  unfolding amount_at sort_groups rekey
  amount-sorted k d h =
      total-sort (lex_order nat_order decimals.order)
        (λ g. if same (own_key g) k then g.amount else 0) (rekey d)
      ∙ ap (amount_at k) (values-rekey d)
      ∙ amount-values k d h

  length-sorted :
      (d : TradeGroups floats decimals averages)
      → length (sort_groups floats decimals averages d) ≡ length d
  unfolding sort_groups rekey
  length-sorted d =
      length-map (λ e. e.1) (sort_by_key (lex_order nat_order decimals.order) (rekey d))
      ∙ length-sort (lex_order nat_order decimals.order) (rekey d)
      ∙ length-map (λ e. ((e.1.timestamp, e.1.price_decimal), e.1)) d

  sorted-TradesGrouped :
      (chunk interval : Option ℕ) (k : Key) (ts : List Trade)
      (r : Result (TradeGroups floats decimals averages))
      → LoopOk chunk interval k ts [] r
      → TradesGrouped chunk interval k ts (sorted_groups floats decimals averages r)
  unfolding LoopOk TradesGrouped sorted_groups measure_at
  sorted-TradesGrouped chunk interval k ts (raised x) h = h
  sorted-TradesGrouped chunk interval k ts (ok d) h = record {
    bounded = λ c e. omega (arith, length-sorted d, h.bounded c e);
    at_most = omega (arith, amount-sorted k d h.keyed, h.at_most);
    whole = λ e. omega (arith, amount-sorted k d h.keyed, h.whole e);
  }

  -- Trades with positive base amounts, whose prices can be quantized, and a positive interval are
  -- grouped without an exception. There are at most as many groups as the chunk size, where it is
  -- given. At any price, bin of time and type the groups
  -- amount to no more than the base amounts of the trades there, and to all of them where no chunk
  -- size is given.
  pub group_trades-TradesGrouped :
      (chunk interval : Option ℕ) (k : Key) (ts : List Trade)
      → 0 < or_else time_group_interval_ms interval
      → All (λ t. HasPrice floats decimals t.offer) ts
      → TradesGrouped chunk interval k ts (group_trades floats decimals averages ts chunk interval)
  unfolding group_trades HasRoom
  group_trades-TradesGrouped chunk interval k ts l h =
      sorted-TradesGrouped chunk interval k ts
        (group_loop floats decimals averages chunk interval ts [])
        (group_loop-LoopOk chunk interval k ts [] l h tt (λ c e. omega arith))
