-- ===== src/Node/Grouping/Bins/Volumes.antt =====
-- The trades that the bins of `make_price_bins` (raidex/raidex_node/offer_grouping.py) hold.
use mathlib.Core.Path.{ap₂}
use raidex.Prelude.{
  ℕ, zero, suc, ◌+◌, ◌≡◌, ◌∙◌, ap, subst, refl, Bool, some, List, [], ◌∷◌, arith, keep, map, All,
  Bool-cases, inl, inr,
}
use raidex.Exec.{Result, ok, raised}
use raidex.Node.Offer.{Floats}
use raidex.Node.Trades.{Trade}
use raidex.Node.Trades.Range.{in_range}
use raidex.Node.Grouping.Offers.{Decimals, quantized, HasPrice, price-ok}
use raidex.Node.Grouping.Times.{bins_from}
use raidex.Node.Grouping.Bins.{
  Averages, PriceBin, new_price_bin, add_trade, fill_bin, bin_loop, then_bin, cons_bin, close_price,
}

-- The base amounts of trades
unfoldable pub volume : List Trade → ℕ
volume [] = 0
volume (t ∷ ts) = t.offer.base_amount + volume ts

-- The starts of the `n` intervals that follow the one from a start, each with the volume of the
-- trades in it
unfoldable pub volumes : List Trade → ℕ → ℕ → ℕ → List (ℕ × ℕ)
unfolding volume
volumes all size start zero = []
volumes all size start (suc n) =
    (start + size, volume (keep (in_range (some (start + size)) (some (start + size + size))) all))
    ∷ volumes all size (start + size) n

module _ (floats : Floats) (decimals : Decimals (floats.Float))
    (averages : Averages (floats.Float) (decimals.Decimal)) where
  abbrev Bin : Type 0
  Bin = PriceBin floats decimals averages

  abbrev pub stamped : Bin → ℕ × ℕ
  stamped b = (b.timestamp, b.amount)

  abbrev pub TradedBase : Trade → Type 0
  TradedBase t = HasPrice floats decimals t.offer

  -- A bin that got trades, or another outcome
  FillOk : List Trade → Bin → Result Bin → Type 0
  FillOk ts b (raised x) = ⊥
  FillOk ts b (ok b') = (b'.amount ≡ b.amount + volume ts) × (b'.timestamp ≡ b.timestamp)

  fill-step :
      (t : Trade) (ts : List Trade) (b b1 : Bin) (r : Result Bin)
      → b1.amount ≡ b.amount + t.offer.base_amount
      → b1.timestamp ≡ b.timestamp
      → FillOk ts b1 r
      → FillOk (t ∷ ts) b r
  unfolding FillOk volume
  fill-step t ts b b1 (raised x) ea et h = h
  fill-step t ts b b1 (ok b') ea et h = (omega (arith, h.0, ea), h.1 ∙ et)

  fill_bin-FillOk :
      (ts : List Trade) (b : Bin)
      → All TradedBase ts
      → FillOk ts b (fill_bin floats decimals averages ts b)
  unfolding fill_bin FillOk volume add_trade
  fill_bin-FillOk [] b h = (omega arith, refl)
  fill_bin-FillOk (t ∷ ts) b h =
      let p = floats.quotient t.offer.quote_amount t.offer.base_amount in
      let b1 =
        add_trade floats decimals averages t.timestamp t.offer.base_amount
          (quantized floats decimals p) b in
      rw (price-ok floats decimals t.offer h.0) (
        fill-step t ts b b1 (fill_bin floats decimals averages ts b1) refl refl
          (fill_bin-FillOk ts b1 h.1))

  -- The bins of a loop, with the volumes that they should have, or another outcome
  unfoldable pub SeriesOk : List (ℕ × ℕ) → Result (List Bin) → Type 0
  SeriesOk vs (raised x) = ⊥
  SeriesOk vs (ok bs) = map stamped bs ≡ vs

  consed :
      (b : Bin) (vs : List (ℕ × ℕ)) (r : Result (List Bin))
      → SeriesOk vs r
      → SeriesOk (stamped b ∷ vs) (cons_bin floats decimals averages b r)
  unfolding SeriesOk
  consed b vs (raised x) h = h
  consed b vs (ok bs) h = ap (λ xs. stamped b ∷ xs) h

  filled-SeriesOk :
      (ts : List Trade) (b0 : Bin) (vs : List (ℕ × ℕ)) (rest : Bin → Result (List Bin))
      (r : Result Bin)
      → b0.amount ≡ 0
      → FillOk ts b0 r
      → ((b : Bin) → SeriesOk vs (rest b))
      → SeriesOk
          ((b0.timestamp, volume ts) ∷ vs)
          (then_bin floats decimals averages r (λ b. cons_bin floats decimals averages b (rest b)))
  unfolding FillOk
  filled-SeriesOk ts b0 vs rest (raised x) z h k = absurd h
  filled-SeriesOk ts b0 vs rest (ok b) z h k =
      subst (λ x. SeriesOk (x ∷ vs) (cons_bin floats decimals averages b (rest b)))
        (ap₂ (λ x y. (x, y)) h.1 (omega (arith, h.0, z))) (consed b vs (rest b) (k b))

  module _ (all : List Trade) (trades : ℕ → ℕ → Result (List Trade))
      (query : (f s : ℕ) → trades f s ≡ ok (keep (in_range (some f) (some s)) all)) where
    All-kept : (p : Trade → Bool) (ts : List Trade) → All TradedBase ts → All TradedBase (keep p ts)
    All-kept p [] h = tt
    All-kept p (t ∷ ts) h = elim (Bool-cases (p t)) [
      | inl e ↦ rw e (h.0, All-kept p ts h.1)
      | inr e ↦ rw e (All-kept p ts h.1)
    ]

    pub bin_loop-SeriesOk :
        (size start n : ℕ) (last : floats.Float)
        → All TradedBase all
        → SeriesOk (volumes all size start n) (
            bin_loop floats decimals averages trades
              (bins_from size start n)
              (bins_from size (start + size) n)
              last)
    unfolding bin_loop bins_from volumes SeriesOk new_price_bin
    bin_loop-SeriesOk size start zero last h = refl
    bin_loop-SeriesOk size start (suc n) last h =
        let ts = keep (in_range (some (start + size)) (some (start + size + size))) all in
        let b0 = new_price_bin floats decimals averages last (start + size) in
        rw (query) (
          filled-SeriesOk ts b0 (volumes all size (start + size) n)
            (λ b.
              bin_loop floats decimals averages trades (bins_from size (start + size) n)
                (bins_from size (start + size + size) n) (close_price floats decimals averages b))
            (fill_bin floats decimals averages ts b0) refl
            (fill_bin-FillOk ts b0 (All-kept _ all h))
            (λ b.
              bin_loop-SeriesOk size (start + size) n (close_price floats decimals averages b) h))
