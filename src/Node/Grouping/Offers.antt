-- ===== src/Node/Grouping/Offers.antt =====
-- `group_offers` of raidex/raidex_node/offer_grouping.py.
use raidex.Prelude.{
  ℕ, ◌+◌, ◌<◌, ◌≡◌, ◌∙◌, refl, Bool, true, List, [], ◌∷◌, ◌++◌, ◌==◌, if◌then◌else◌, arith, length,
  length-append, All, All-weaken, leb,
}
use raidex.Exec.{Result, ok, raised, zero_division_error, value_error, invalid_operation}
use raidex.Sorted.{TotalOrder, IsSorted}
use raidex.Node.Offer.{Floats, BasicOffer, price}
use raidex.Node.Grouping.Upsert.{
  upsert, IsDistinct, measure_at, sort_by_key, upsert-IsDistinct, measure_at-upsert, All-upsert,
  measure_at-sort, All-sort, sort-IsSorted,
}

-- `Decimal(price).quantize(...)` at the precision of the module, with the floats for which the
-- result has no more digits than the context allows, and the order of decimals. For other floats
-- `quantize` raises InvalidOperation.
pub record Decimals (Float : Type 0) : Type 1 where
  pub Decimal : Type 0
  pub order : TotalOrder Decimal
  pub fits : Float → Bool
  pub quantize : Float → Decimal

-- `GroupedOffer` without its price, which is the key in the dict
pub record GroupedOffer : Type 0 where
  pub amount : ℕ
  pub timeouts : List ℕ

unfoldable pub new_group : GroupedOffer
new_group = record { amount = 0; timeouts = [] }

-- `GroupedOffer.add`
unfoldable pub add_to_group : ℕ → ℕ → GroupedOffer → GroupedOffer
add_to_group amount timeout g = record {
  amount = g.amount + amount;
  timeouts = g.timeouts ++ timeout ∷ [];
}

unfoldable pub sum : List ℕ → ℕ
sum [] = 0
sum (x ∷ xs) = x + sum xs

-- `max(...)` and `min(...)`, which raise ValueError on an empty list
abbrev larger : ℕ → ℕ → ℕ
larger a b = if leb a b then b else a

abbrev smaller : ℕ → ℕ → ℕ
smaller a b = if leb a b then a else b

unfoldable pub max_from : ℕ → List ℕ → ℕ
max_from a [] = a
max_from a (x ∷ xs) = max_from (larger a x) xs

unfoldable pub min_from : ℕ → List ℕ → ℕ
min_from a [] = a
min_from a (x ∷ xs) = min_from (smaller a x) xs

unfoldable pub max_of : List ℕ → Result ℕ
unfolding max_from
max_of [] = raised value_error
max_of (x ∷ xs) = ok (max_from x xs)

unfoldable pub min_of : List ℕ → Result ℕ
unfolding min_from
min_of [] = raised value_error
min_of (x ∷ xs) = ok (min_from x xs)

unfoldable pub max_timeout : GroupedOffer → Result ℕ
unfolding max_of
max_timeout g = max_of g.timeouts

unfoldable pub min_timeout : GroupedOffer → Result ℕ
unfolding min_of
min_timeout g = min_of g.timeouts

module _ (floats : Floats) (decimals : Decimals (floats.Float)) where
  abbrev pub Groups : Type 0
  Groups = List (decimals.Decimal × GroupedOffer)

  -- `avg_timeout`, a division that raises where no timeout is kept
  unfoldable pub avg_timeout : GroupedOffer → Result (floats.Float)
  unfolding sum
  avg_timeout g =
      if length g.timeouts == 0
      then raised zero_division_error
      else ok (floats.quotient (sum g.timeouts) (length g.timeouts))

  abbrev pub quantized : floats.Float → decimals.Decimal
  quantized p = decimals.quantize p

  unfoldable pub fitting : Result (floats.Float) → Result (floats.Float)
  fitting (raised x) = raised x
  fitting (ok p) = if decimals.fits p then ok p else raised invalid_operation

  -- The price of an offer, where it can be quantized
  unfoldable pub price_to_quantize : BasicOffer → Result (floats.Float)
  unfolding price fitting
  price_to_quantize o = fitting (price floats o)

  unfoldable pub collect_offer : BasicOffer → floats.Float → Groups → Groups
  unfolding upsert new_group add_to_group
  collect_offer o p d =
      upsert decimals.order.same (quantized p) new_group (add_to_group o.base_amount o.timeout_date)
        d

  abbrev collect_price : Result (floats.Float) → BasicOffer → Groups → Result Groups
  collect_price (raised x) o d = raised x
  collect_price (ok p) o d = ok (collect_offer o p d)

  abbrev pub then_collect : (Groups → Result Groups) → Result Groups → Result Groups
  then_collect f (raised x) = raised x
  then_collect f (ok d) = f d

  -- The loop of `group_offers`
  unfoldable pub collect_offers : List BasicOffer → Groups → Result Groups
  unfolding collect_offer price_to_quantize
  collect_offers [] d = ok d
  collect_offers (o ∷ os) d =
      then_collect (collect_offers os) (collect_price (price_to_quantize o) o d)

  abbrev sorted_groups : Result Groups → Result Groups
  sorted_groups (raised x) = raised x
  sorted_groups (ok d) = ok (sort_by_key decimals.order d)

  -- `group_offers`
  unfoldable pub group_offers : List BasicOffer → Result Groups
  unfolding collect_offers
  group_offers os = sorted_groups (collect_offers os [])

  -- The base amounts of the offers with a quantized price
  unfoldable pub base_at : decimals.Decimal → List BasicOffer → ℕ
  base_at p [] = 0
  base_at p (o ∷ os) =
      (if decimals.order.same (quantized (floats.quotient o.quote_amount o.base_amount)) p
        then o.base_amount
        else 0)
      + base_at p os

  -- An outcome of `group_offers` at a price
  pub record IsGrouping (os : List BasicOffer) (p : decimals.Decimal) (d : Groups) : Type 0 where
    pub ascending : IsSorted decimals.order d
    pub amounts : measure_at decimals.order.same (λ g. g.amount) p d ≡ base_at p os
    pub averages :
        All (λ e. avg_timeout e.1 ≡ ok (floats.quotient (sum e.1.timeouts) (length e.1.timeouts))) d

  unfoldable pub GroupsOk : List BasicOffer → decimals.Decimal → Result Groups → Type 0
  GroupsOk os p (raised x) = ⊥
  GroupsOk os p (ok d) = IsGrouping os p d

  -- An offer whose price exists and can be quantized
  pub record HasPrice (o : BasicOffer) : Type 0 where
    pub based : 0 < o.base_amount
    pub fits : decimals.fits (floats.quotient o.quote_amount o.base_amount) ≡ true

  pub price-ok :
      (o : BasicOffer)
      → HasPrice o
      → price_to_quantize o ≡ ok (floats.quotient o.quote_amount o.base_amount)
  unfolding price_to_quantize
  price-ok o h = ground (arith, h.based, h.fits)

  abbrev HasTimeouts : decimals.Decimal × GroupedOffer → Type 0
  HasTimeouts e = 0 < length e.1.timeouts

  record IsCollected (os : List BasicOffer) (p : decimals.Decimal) (before after : Groups)
      : Type 0 where
    distinct : IsDistinct decimals.order.same after
    amounts :
        measure_at decimals.order.same (λ g. g.amount) p after
        ≡ measure_at decimals.order.same (λ g. g.amount) p before + base_at p os
    filled : All HasTimeouts after

  CollectedOk : List BasicOffer → decimals.Decimal → Groups → Result Groups → Type 0
  CollectedOk os p d (raised x) = ⊥
  CollectedOk os p d (ok d') = IsCollected os p d d'

  add-filled :
      (k : decimals.Decimal) (a time : ℕ) (g : GroupedOffer)
      → HasTimeouts (k, add_to_group a time g)
  unfolding add_to_group
  add-filled k a time g = omega (arith, length-append g.timeouts (time ∷ []))

  collect_offer-IsCollected :
      (o : BasicOffer) (os : List BasicOffer) (p : decimals.Decimal) (d after : Groups)
      → IsCollected os p (collect_offer o (floats.quotient o.quote_amount o.base_amount) d) after
      → IsCollected (o ∷ os) p d after
  unfolding collect_offer base_at add_to_group new_group
  collect_offer-IsCollected o os p d after h =
      let k = quantized (floats.quotient o.quote_amount o.base_amount) in
      record {
        distinct = h.distinct;
        amounts = ground (
          arith,
          h.amounts,
          measure_at-upsert decimals.order.same decimals.order.same_iff (λ g. g.amount)
              o.base_amount k p new_group (add_to_group o.base_amount o.timeout_date) d refl
              (λ g. refl),
        );
        filled = h.filled;
      }

  abbrev collected : BasicOffer → Groups → Groups
  collected o d = collect_offer o (floats.quotient o.quote_amount o.base_amount) d

  step :
      (o : BasicOffer) (os : List BasicOffer) (p : decimals.Decimal) (d : Groups)
      (r : Result Groups)
      → CollectedOk os p (collected o d) r
      → CollectedOk (o ∷ os) p d r
  unfolding CollectedOk
  step o os p d (raised x) h = h
  step o os p d (ok after) h = collect_offer-IsCollected o os p d after h

  collect-CollectedOk :
      (os : List BasicOffer) (p : decimals.Decimal) (d : Groups)
      → All HasPrice os
      → IsDistinct decimals.order.same d
      → All HasTimeouts d
      → CollectedOk os p d (collect_offers os d)
  unfolding collect_offers CollectedOk base_at collect_offer
  collect-CollectedOk [] p d h u f = record { distinct = u; amounts = omega arith; filled = f }
  collect-CollectedOk (o ∷ os) p d h u f =
      let k = quantized (floats.quotient o.quote_amount o.base_amount) in
      let add = add_to_group o.base_amount o.timeout_date in
      let filled = add-filled k o.base_amount o.timeout_date in
      rw (price-ok o h.0) (
        step o os p d (collect_offers os (collected o d)) (
          collect-CollectedOk os p (collected o d) h.1
            (upsert-IsDistinct decimals.order.same decimals.order.same_iff k new_group add d u)
            (All-upsert decimals.order.same HasTimeouts k new_group add d (filled new_group)
              (λ j g q. add-filled j o.base_amount o.timeout_date g) f)))

  averages_ok :
      (d : Groups)
      → All HasTimeouts d
      → All (λ e. avg_timeout e.1 ≡ ok (floats.quotient (sum e.1.timeouts) (length e.1.timeouts))) d
  unfolding avg_timeout
  averages_ok d h = All-weaken HasTimeouts _ d (λ e q. ground (arith, q)) h

  sorted-GroupsOk :
      (os : List BasicOffer) (p : decimals.Decimal) (r : Result Groups)
      → CollectedOk os p [] r
      → GroupsOk os p (sorted_groups r)
  unfolding CollectedOk GroupsOk measure_at
  sorted-GroupsOk os p (raised x) h = h
  sorted-GroupsOk os p (ok d) h = record {
    ascending = sort-IsSorted decimals.order d h.distinct;
    amounts = measure_at-sort decimals.order (λ g. g.amount) p d ∙ h.amounts ∙ omega arith;
    averages = averages_ok _ (All-sort decimals.order HasTimeouts d h.filled);
  }

  -- Offers with positive base amounts, whose prices can be quantized, are grouped without an
  -- exception: the groups come in strictly
  -- ascending prices, the amount under any price is the sum of the base amounts of the offers with
  -- that quantized price, and the average timeout of each group can be taken.
  pub group_offers-GroupsOk :
      (os : List BasicOffer) (p : decimals.Decimal)
      → All HasPrice os
      → GroupsOk os p (group_offers os)
  unfolding group_offers IsDistinct
  group_offers-GroupsOk os p h =
      sorted-GroupsOk os p (collect_offers os []) (collect-CollectedOk os p [] h tt tt)
