-- ===== src/Node/Grouping/Bins/Prices.antt =====
-- The prices of a bin (`PriceBin` of raidex/raidex_node/offer_grouping.py).
use raidex.Prelude.{ℕ, ◌≡◌, Bool, true, false, not, Option, none, some, List, [], ◌∷◌, arith, All}
use raidex.Node.Offer.{Floats}
use raidex.Node.Grouping.Offers.{Decimals}
use raidex.Node.Grouping.Bins.{Averages, PriceBin, lower_of, higher_of, add_trade}

module _ (floats : Floats) (decimals : Decimals (floats.Float))
    (averages : Averages (floats.Float) (decimals.Decimal)) where
  open decimals use {Decimal}

  abbrev Bin : Type 0
  Bin = PriceBin floats decimals averages

  -- The trades of a bin one after the other, with their prices
  unfoldable pub add_trades : List (ℕ × ℕ × Decimal) → Bin → Bin
  unfolding add_trade
  add_trades [] b = b
  add_trades ((time, amount, p) ∷ ts) b =
      add_trades ts (add_trade floats decimals averages time amount p b)

  abbrev not_below : Option Decimal → Decimal → Bool
  not_below none p = false
  not_below (some q) p = not (decimals.order.less p q)

  abbrev not_above : Option Decimal → Decimal → Bool
  not_above none p = false
  not_above (some q) p = not (decimals.order.less q p)

  -- A price is between the lowest and the highest one of a bin.
  pub record IsWithin (b : Bin) (p : Decimal) : Type 0 where
    pub low : not_below b.min_price_seen p ≡ true
    pub high : not_above b.max_price_seen p ≡ true

  lower-not_below :
      (o : Option Decimal) (p q : Decimal)
      → not_below o q ≡ true
      → not_below (some (lower_of floats decimals averages o p)) q ≡ true
  unfolding lower_of
  lower-not_below none p q h = cc
  lower-not_below (some r) p q h = ground (arith, h, decimals.order.less_trans q p r)

  lower-not_below_self :
      (o : Option Decimal) (p : Decimal)
      → not_below (some (lower_of floats decimals averages o p)) p ≡ true
  unfolding lower_of
  lower-not_below_self none p = ground (arith, decimals.order.less_irrefl p)
  lower-not_below_self (some r) p = ground (arith, decimals.order.less_irrefl p)

  higher-not_above :
      (o : Option Decimal) (p q : Decimal)
      → not_above o q ≡ true
      → not_above (some (higher_of floats decimals averages o p)) q ≡ true
  unfolding higher_of
  higher-not_above none p q h = cc
  higher-not_above (some r) p q h = ground (arith, h, decimals.order.less_trans r p q)

  higher-not_above_self :
      (o : Option Decimal) (p : Decimal)
      → not_above (some (higher_of floats decimals averages o p)) p ≡ true
  unfolding higher_of
  higher-not_above_self none p = ground (arith, decimals.order.less_irrefl p)
  higher-not_above_self (some r) p = ground (arith, decimals.order.less_irrefl p)

  add_trades-keeps :
      (ts : List (ℕ × ℕ × Decimal)) (b : Bin) (p : Decimal)
      → IsWithin b p
      → IsWithin (add_trades ts b) p
  unfolding add_trades add_trade
  add_trades-keeps [] b p h = h
  add_trades-keeps ((time, amount, q) ∷ ts) b p h =
      add_trades-keeps ts (add_trade floats decimals averages time amount q b) p (record {
        low = lower-not_below b.min_price_seen q p h.low;
        high = higher-not_above b.max_price_seen q p h.high;
      })

  -- Whatever trades a bin gets, in whatever order, the price of each is between its lowest and its
  -- highest price.
  pub add_trades-IsWithin :
      (ts : List (ℕ × ℕ × Decimal)) (b : Bin) → All (λ t. IsWithin (add_trades ts b) t.2) ts
  unfolding add_trades add_trade
  add_trades-IsWithin [] b = tt
  add_trades-IsWithin ((time, amount, p) ∷ ts) b =
      let b' = add_trade floats decimals averages time amount p b in
      (
        add_trades-keeps ts b' p (record {
          low = lower-not_below_self b.min_price_seen p;
          high = higher-not_above_self b.max_price_seen p;
        }),
        add_trades-IsWithin ts b',
      )
