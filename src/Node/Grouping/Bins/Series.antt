-- ===== src/Node/Grouping/Bins/Series.antt =====
-- The series of bins that `make_price_bins` (raidex/raidex_node/offer_grouping.py) returns.
use mathlib.Core.Path.{ap₂}
use native.Mathlib.Nat.{mul-div_cancel, add-mul, mul_comm}
use raidex.Prelude.{
  ℕ, zero, suc, ◌+◌, ◌-◌, ◌*◌, ◌/◌, ◌≤◌, ◌<◌, ◌≡◌, ◌∙◌, ap, sym, subst, refl, true, false, some,
  List, [], ◌∷◌, ◌++◌, ◌==◌, arith, length, map, All, All-append, All-both, keep, tail,
}
use raidex.Dict
use raidex.Dict.{Dict}
use raidex.Exec.{Result, ok, raised}
use raidex.Sorted.{nat_order}
use raidex.Node.Offer.{Floats}
use raidex.Node.Trades.{Trade, TradeDict, TradesView, empty_trades, trades, trade_values}
use raidex.Node.Trades.Range.{in_range, TradeOp, run_trades, trades-eq-keep}
use raidex.Node.Grouping.Upsert.{sort_by_key, place}
use raidex.Node.Grouping.Offers.{Decimals}
use raidex.Node.Grouping.Times.{bins_from, bin_start, time_bin_gen}
use raidex.Node.Grouping.Bins.{
  Averages, PriceBin, put_bins, finish_bins, with_starts, make_price_bins, then_bin,
}
use raidex.Node.Grouping.Bins.Volumes.{volumes, stamped, SeriesOk, bin_loop-SeriesOk, TradedBase}

abbrev Rising : List (ℕ × ℕ) → Type 0
Rising [] = Unit
Rising (v ∷ vs) = All (λ w. v.0 < w.0) vs × Rising vs

volumes-above :
    (all : List Trade) (size start n bound : ℕ)
    → 0 < size
    → bound ≤ start
    → All (λ v. bound < v.0) (volumes all size start n)
unfolding volumes
volumes-above all size start zero bound h b = tt
volumes-above all size start (suc n) bound h b =
    (omega arith, volumes-above all size (start + size) n bound h (omega arith))

volumes-Rising :
    (all : List Trade) (size start n : ℕ) → 0 < size → Rising (volumes all size start n)
unfolding volumes
volumes-Rising all size start zero h = tt
volumes-Rising all size start (suc n) h = (
  volumes-above all size (start + size) n (start + size) h (omega arith),
  volumes-Rising all size (start + size) n h,
)

length-volumes : (all : List Trade) (size start n : ℕ) → length (volumes all size start n) ≡ n
unfolding volumes
length-volumes all size start zero = refl
length-volumes all size start (suc n) = ap suc (length-volumes all size (start + size) n)

module _ {V : Type 0} where
  put-append :
      (d : Dict V) (k : ℕ) (v : V) → All (λ e. e.0 < k) d → Dict.put d k v ≡ d ++ (k, v) ∷ []
  unfolding Dict.put
  put-append [] k v h = refl
  put-append ((j, w) ∷ d) k v h = ground (arith, h.0, put-append d k v h.1)

  place-first : (e : ℕ × V) (d : Dict V) → All (λ f. e.0 < f.0) d → place nat_order e d ≡ e ∷ d
  unfolding place
  place-first e [] h = refl
  place-first e (f ∷ d) h = ground (arith, h.0)

module _ (floats : Floats) (decimals : Decimals (floats.Float))
    (averages : Averages (floats.Float) (decimals.Decimal)) where
  abbrev Bin : Type 0
  Bin = PriceBin floats decimals averages

  abbrev keyed : List Bin → Dict Bin
  keyed [] = []
  keyed (b ∷ bs) = (b.timestamp, b) ∷ keyed bs

  abbrev stamps : List Bin → List (ℕ × ℕ)
  stamps bs = map (stamped floats decimals averages) bs

  append_assoc : (xs ys zs : Dict Bin) → (xs ++ ys) ++ zs ≡ xs ++ (ys ++ zs)
  append_assoc [] ys zs = refl
  append_assoc (x ∷ xs) ys zs = ground (arith, append_assoc xs ys zs)

  append_nil : (xs : Dict Bin) → xs ++ [] ≡ xs
  append_nil [] = refl
  append_nil (x ∷ xs) = ground (arith, append_nil xs)

  abbrev KeysBelow : Dict Bin → ℕ × ℕ → Type 0
  KeysBelow d v = All (λ e. e.0 < v.0) d

  put_bins-eq :
      (bs : List Bin) (d : Dict Bin)
      → Rising (stamps bs)
      → All (KeysBelow d) (stamps bs)
      → put_bins floats decimals averages bs d ≡ d ++ keyed bs
  unfolding put_bins
  put_bins-eq [] d h k = sym (append_nil d)
  put_bins-eq (b ∷ bs) d h k =
      let e : Dict Bin = (b.timestamp, b) ∷ [] in
      rw (put-append d b.timestamp b k.0) (
        put_bins-eq bs (d ++ e) h.1 (
          All-both (λ w. b.timestamp < w.0) (KeysBelow d) (KeysBelow (d ++ e)) (stamps bs)
            (λ w l kb. All-append (λ x. x.0 < w.0) d e kb (l, tt)) h.0 k.1)
        ∙ append_assoc d e (keyed bs))

  no_keys : (vs : List (ℕ × ℕ)) → All (KeysBelow []) vs
  no_keys [] = tt
  no_keys (v ∷ vs) = (tt, no_keys vs)

  keyed-above :
      (bound : ℕ) (bs : List Bin)
      → All (λ w. bound < w.0) (stamps bs)
      → All (λ e. bound < e.0) (keyed bs)
  keyed-above bound [] h = tt
  keyed-above bound (b ∷ bs) h = (h.0, keyed-above bound bs h.1)

  sort-keyed : (bs : List Bin) → Rising (stamps bs) → sort_by_key nat_order (keyed bs) ≡ keyed bs
  unfolding sort_by_key
  sort-keyed [] h = refl
  sort-keyed (b ∷ bs) h =
      rw (sort-keyed bs h.1)
        (place-first (b.timestamp, b) (keyed bs) (keyed-above b.timestamp bs h.0))

  values-keyed : (bs : List Bin) → Dict.values (keyed bs) ≡ bs
  unfolding Dict.values
  values-keyed [] = refl
  values-keyed (b ∷ bs) = ap (λ xs. b ∷ xs) (values-keyed bs)

  length-keyed : (bs : List Bin) → length (keyed bs) ≡ length (stamps bs)
  length-keyed [] = refl
  length-keyed (b ∷ bs) = ap suc (length-keyed bs)

  stamps-tail : (bs : List Bin) → stamps (tail bs) ≡ tail (stamps bs)
  stamps-tail [] = refl
  stamps-tail (b ∷ bs) = refl

  finish-SeriesOk :
      (all : List Trade) (size start n : ℕ) (bs : List Bin)
      → 0 < size
      → stamps bs ≡ volumes all size start (suc n)
      → SeriesOk floats decimals averages
          (volumes all size (start + size) n)
          (finish_bins floats decimals averages n bs)
  unfolding finish_bins SeriesOk volumes
  finish-SeriesOk all size start n bs h e =
      let rising : Rising (stamps bs) =
        subst Rising (sym e) (volumes-Rising all size start (suc n) h) in
      let count : (length (keyed bs) == n + 1) ≡ true =
        ground (arith, length-keyed bs, ap length e, length-volumes all size start (suc n)) in
      rw
        (
          put_bins-eq bs [] rising (no_keys (stamps bs)),
          count,
          sort-keyed bs rising,
          values-keyed bs,
        )
        (stamps-tail bs ∙ ap tail e)

bin_start-multiple : (size k : ℕ) → 0 < size → bin_start size (k * size) ≡ k * size
unfolding bin_start
bin_start-multiple size k h = ap (λ q. q * size) (mul-div_cancel k h)

-- The starts that the generator gives from a multiple of the interval on
gen-multiple :
    (size k m : ℕ)
    → 0 < size
    → time_bin_gen ((k + m) * size) m (some size) ≡ bins_from size (k * size) m
unfolding time_bin_gen
gen-multiple size k m h =
    rw (bin_start-multiple size (k + m) h)
      (ap (λ s. bins_from size s m) (omega (arith, add-mul k m size, mul_comm m size)))

gen-start :
    (size k n now : ℕ)
    → now / size ≡ k + n + 2
    → time_bin_gen now 2 (some size) ≡ (k + (n + 1)) * size ∷ (k + 1 + (n + 1)) * size ∷ []
unfolding time_bin_gen bin_start bins_from
gen-start size k n now e = rw (e) (
    ap₂ (λ x y. x ∷ y ∷ []) (omega (arith, add-mul (k + n) 2 size, add-mul (k + n) 1 size))
      (omega (arith, add-mul (k + n) 2 size, add-mul (k + n) 1 size)))

module _ (floats : Floats) (decimals : Decimals (floats.Float))
    (averages : Averages (floats.Float) (decimals.Decimal)) where
  then_finish :
      (all : List Trade) (size start n : ℕ) (r : Result (List (Bin floats decimals averages)))
      → 0 < size
      → SeriesOk floats decimals averages (volumes all size start (suc n)) r
      → SeriesOk floats decimals averages
          (volumes all size (start + size) n)
          (then_bin floats decimals averages r (finish_bins floats decimals averages n))
  unfolding SeriesOk
  then_finish all size start n (raised x) h s = absurd s
  then_finish all size start n (ok bs) h s =
      finish-SeriesOk floats decimals averages all size start n bs h s

  starts-SeriesOk :
      (all : List Trade) (query : ℕ → ℕ → Result (List Trade)) (n size k : ℕ)
      → ((f s : ℕ) → query f s ≡ ok (keep (in_range (some f) (some s)) all))
      → 0 < size
      → All (TradedBase floats decimals averages) all
      → SeriesOk floats decimals averages (volumes all size (k * size + size) n) (
          with_starts floats decimals averages query n size
            ((k + (n + 1)) * size ∷ (k + 1 + (n + 1)) * size ∷ []))
  unfolding with_starts
  starts-SeriesOk all query n size k q h t =
      let one : n + 1 ≡ suc n = omega arith in
      let next : (k + 1) * size ≡ k * size + size = omega (arith, add-mul k 1 size) in
      rw (gen-multiple size k (n + 1) h, gen-multiple size (k + 1) (n + 1) h, next, one)
        (then_finish all size (k * size) n _ h (
          bin_loop-SeriesOk floats decimals averages all query q size (k * size) (suc n)
            averages.zero_float t))

  -- For operations on an empty view of trades, offers with a base amount and a price that can be
  -- quantized in all trades that the view then has, and a time that is at least as many intervals after 0 as two more than the
  -- asked number: nothing is raised, and the bins are those of the asked number of whole intervals
  -- before the one that the time is in, from the earliest on, each with its start and with the sum
  -- of the base amounts of the trades in it.
  pub make_price_bins-SeriesOk :
      (t : TradeDict) (ops : List TradeOp) (nof_buckets size now : ℕ)
      → let view : TradesView t = run_trades t ops (empty_trades t) in
        0 < size
        → nof_buckets + 2 ≤ now / size
        → All (TradedBase floats decimals averages) (trade_values t view)
        → SeriesOk floats decimals averages
            (volumes
              (trade_values t view)
              size
              ((now / size - (nof_buckets + 2)) * size + size)
              nof_buckets)
            (make_price_bins floats decimals averages
              (λ f s. trades t (some f) (some s) view)
              nof_buckets
              size
              now)
  unfolding make_price_bins
  make_price_bins-SeriesOk t ops n size now h room based =
      let view : TradesView t = run_trades t ops (empty_trades t) in
      let k = now / size - (n + 2) in
      let positive : (size == 0) ≡ false = ground arith in
      let query : ℕ → ℕ → Result (List Trade) = λ f s. trades t (some f) (some s) view in
      let vs = volumes (trade_values t view) size (k * size + size) n in
      rw (positive) (
        subst
          (λ l.
            SeriesOk floats decimals averages vs
              (with_starts floats decimals averages query n size l))
          (sym (gen-start size k n now (omega (arith, room))))
          (starts-SeriesOk (trade_values t view) query n size k
            (λ f s. trades-eq-keep t ops (some f) (some s)) h based))
