-- ===== src/Node/Matching/Fill.antt =====
-- How an order is filled: nothing is lost, nothing that fits is left out, large offers come first.
use mathlib.Core.List.{Perm, perm_middle}
use mathlib.Core.List.Perm
use raidex.Prelude.{
  ℕ, ◌+◌, ◌-◌, ◌≤◌, ◌<◌, ◌≡◌, List, [], ◌∷◌, ◌++◌, All, keep, arith, leb, if◌then◌else◌, Bool-cases,
  inl, inr,
}
use raidex.Exec.{Result, ok, raised}
use raidex.Node.Offer.{Floats, OfferBookEntry}
use raidex.Node.OfferBook.View.{OfferDict, view_values}
use raidex.Node.OfferBook.Synced.{IsSynced}
use raidex.Node.OfferBook.Prices.{is_at, offers_by_price-eq-keep}
use raidex.Node.OfferBook.{OfferBook, opposite_view, get_offers_by_price}
use raidex.Node.Matching.{base_of, place, sort_by_base, take_offers, OrderTerms, match_new_order}

-- The sum of the base amounts.
pub total_base : List OfferBookEntry → ℕ
total_base [] = 0
total_base (e ∷ es) = base_of e + total_base es

abbrev pub AllAtMost : ℕ → List OfferBookEntry → Type 0
AllAtMost n = All (λ e. base_of e ≤ n)

-- Base amounts never rise along the list.
abbrev pub IsDescending : List OfferBookEntry → Type 0
IsDescending [] = Unit
IsDescending (e ∷ es) = AllAtMost (base_of e) es × IsDescending es

AllAtMost-le : (m n : ℕ) (es : List OfferBookEntry) → m ≤ n → AllAtMost m es → AllAtMost n es
AllAtMost-le m n [] h a = tt
AllAtMost-le m n (e ∷ es) h a = (omega arith, AllAtMost-le m n es h a.1)

place-perm : (e : OfferBookEntry) (es : List OfferBookEntry) → Perm (place e es) (e ∷ es)
unfolding place
place-perm e [] = Perm.refl _
place-perm e (f ∷ fs) = elim (Bool-cases (leb (base_of f) (base_of e))) [
  | inl h ↦ rw h (Perm.refl _)
  | inr h ↦ rw h (Perm.trans (Perm.cons f (place-perm e fs)) (Perm.swap e f fs))
]

pub sort_by_base-perm : (es : List OfferBookEntry) → Perm (sort_by_base es) es
unfolding sort_by_base
sort_by_base-perm [] = Perm.refl _
sort_by_base-perm (e ∷ es) =
    Perm.trans (place-perm e (sort_by_base es)) (Perm.cons e (sort_by_base-perm es))

AllAtMost-place :
    (n : ℕ) (e : OfferBookEntry) (es : List OfferBookEntry)
    → base_of e ≤ n
    → AllAtMost n es
    → AllAtMost n (place e es)
unfolding place
AllAtMost-place n e [] h a = (h, tt)
AllAtMost-place n e (f ∷ fs) h a = ground (arith, AllAtMost-place n e fs h a.1)

IsDescending-place :
    (e : OfferBookEntry) (es : List OfferBookEntry) → IsDescending es → IsDescending (place e es)
unfolding place
IsDescending-place e [] d = (tt, tt)
IsDescending-place e (f ∷ fs) d = elim (Bool-cases (leb (base_of f) (base_of e))) [
  | inl h ↦ rw h ((ground arith, AllAtMost-le (base_of f) (base_of e) fs (ground arith) d.0), d)
  | inr h ↦ rw h (AllAtMost-place (base_of f) e fs (ground arith) d.0, IsDescending-place e fs d.1)
]

IsDescending-sort_by_base : (es : List OfferBookEntry) → IsDescending (sort_by_base es)
unfolding sort_by_base
IsDescending-sort_by_base [] = tt
IsDescending-sort_by_base (e ∷ es) =
    IsDescending-place e (sort_by_base es) (IsDescending-sort_by_base es)

-- The offers that the loop passes over.
pub skipped : ℕ → List OfferBookEntry → List OfferBookEntry
skipped amount_left [] = []
skipped amount_left (e ∷ es) =
    let fits = leb (base_of e) amount_left in
    let rest = skipped (if fits then amount_left - base_of e else amount_left) es in
    if fits then rest else e ∷ rest

take_offers-perm :
    (n : ℕ) (es : List OfferBookEntry) → Perm ((take_offers n es).0 ++ skipped n es) es
unfolding take_offers skipped
take_offers-perm n [] = Perm.refl _
take_offers-perm n (e ∷ es) = elim (Bool-cases (leb (base_of e) n)) [
  | inl h ↦ rw h (Perm.cons e (take_offers-perm (n - base_of e) es))
  | inr h ↦ rw h (
      Perm.trans (perm_middle (take_offers n es).0 (skipped n es))
        (Perm.cons e (take_offers-perm n es)))
]

take_offers-conserves :
    (n : ℕ) (es : List OfferBookEntry) → total_base (take_offers n es).0 + (take_offers n es).1 ≡ n
unfolding take_offers total_base
take_offers-conserves n [] = omega arith
take_offers-conserves n (e ∷ es) =
    ground (arith, take_offers-conserves n es, take_offers-conserves (n - base_of e) es)

take_offers-le : (n : ℕ) (es : List OfferBookEntry) → (take_offers n es).1 ≤ n
take_offers-le n es = omega (arith, take_offers-conserves n es)

abbrev pub AllTooBig : ℕ → List OfferBookEntry → Type 0
AllTooBig n = All (λ e. n < base_of e)

skipped-AllTooBig :
    (n : ℕ) (es : List OfferBookEntry) → AllTooBig (take_offers n es).1 (skipped n es)
unfolding take_offers skipped
skipped-AllTooBig n [] = tt
skipped-AllTooBig n (e ∷ es) = elim (Bool-cases (leb (base_of e) n)) [
  | inl h ↦ rw h (skipped-AllTooBig (n - base_of e) es)
  | inr h ↦ rw h (ground (arith, take_offers-le n es), skipped-AllTooBig n es)
]

AllAtMost-take_offers :
    (m n : ℕ) (es : List OfferBookEntry) → AllAtMost m es → AllAtMost m (take_offers n es).0
unfolding take_offers
AllAtMost-take_offers m n [] a = tt
AllAtMost-take_offers m n (e ∷ es) a =
    ground (arith, AllAtMost-take_offers m n es a.1, AllAtMost-take_offers m (n - base_of e) es a.1)

IsDescending-take_offers :
    (n : ℕ) (es : List OfferBookEntry) → IsDescending es → IsDescending (take_offers n es).0
unfolding take_offers
IsDescending-take_offers n [] d = tt
IsDescending-take_offers n (e ∷ es) d = ground (
  arith,
  IsDescending-take_offers n es d.1,
  IsDescending-take_offers (n - base_of e) es d.1,
  AllAtMost-take_offers (base_of e) (n - base_of e) es d.0,
)

-- `taken` and `left` are a filling of an order for `amount` from the offers `found`.
pub record Fills (found : List OfferBookEntry) (amount : ℕ) (taken : List OfferBookEntry) (left : ℕ)
    : Type 0 where
  pub conserved : total_base taken + left ≡ amount
  pub descending : IsDescending taken
  pub passed : List OfferBookEntry
  pub all_used : Perm (taken ++ passed) found
  pub too_big : AllTooBig left passed

abbrev pub FillsOk : List OfferBookEntry → ℕ → Result (List OfferBookEntry × ℕ) → Type 0
FillsOk found amount (ok (taken, left)) = Fills found amount taken left
FillsOk found amount (raised x) = ⊥

fill :
    (found : List OfferBookEntry) (amount : ℕ)
    → FillsOk found amount (ok (take_offers amount (sort_by_base found)))
fill found amount = record {
  conserved = take_offers-conserves amount (sort_by_base found);
  descending =
      IsDescending-take_offers amount (sort_by_base found) (IsDescending-sort_by_base found);
  passed = skipped amount (sort_by_base found);
  all_used = Perm.trans (take_offers-perm amount (sort_by_base found)) (sort_by_base-perm found);
  too_big = skipped-AllTooBig amount (sort_by_base found);
}

module _ (floats : Floats) (sorted : OfferDict floats) where
  matches :
      (book : OfferBook floats sorted) (order : OrderTerms (floats.Float))
      → IsSynced floats sorted (opposite_view floats sorted order.order_type book)
      → match_new_order floats sorted book order
        ≡ ok (
            take_offers order.amount (
              sort_by_base (
                keep
                  (is_at floats order.price)
                  (view_values floats sorted (opposite_view floats sorted order.order_type book)))))
  unfolding match_new_order get_offers_by_price
  matches book order h = ground (
    arith,
    offers_by_price-eq-keep floats sorted order.price
        (opposite_view floats sorted order.order_type book) h,
  )

  -- Where the view opposite to the order is in step, matching does not raise. The offers found are
  -- those of that view with the price of the order; each is taken or passed over, once; the base
  -- amounts taken and the amount left sum up to the order's; whatever is passed over is larger than
  -- what is left; and larger offers are taken first.
  pub match_new_order-Fills :
      (book : OfferBook floats sorted) (order : OrderTerms (floats.Float))
      → IsSynced floats sorted (opposite_view floats sorted order.order_type book)
      → FillsOk
          (keep
            (is_at floats order.price)
            (view_values floats sorted (opposite_view floats sorted order.order_type book)))
          order.amount
          (match_new_order floats sorted book order)
  match_new_order-Fills book order h = rw (matches book order h) (
      fill
        (keep (is_at floats order.price)
          (view_values floats sorted (opposite_view floats sorted order.order_type book)))
        order.amount)
