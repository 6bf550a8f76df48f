-- ===== src/Node/OfferBook/Prices.antt =====
-- What `get_offers_by_price` finds.
use raidex.Prelude.{ℕ, ◌≡◌, refl, Bool, true, false, List, [], ◌∷◌, map, keep, All, arith}
use raidex.Exec.{ok, raised}
use raidex.Sorted.{Entries, IsSorted, AllAbove, All-of_find}
use raidex.Node.Offer.{Floats, OfferBookEntry, price}
use raidex.Node.OfferBook.View.{
  key_order, OfferDict, OfferView, view_values, matching_from, view_offers_by_price,
}
use raidex.Node.OfferBook.Synced.{IsSynced}

-- `offer.price == price`
abbrev pub is_at : (floats : Floats) → floats.Float → OfferBookEntry → Bool
is_at floats p e = elim (price floats e.offer) [ ok q ↦ floats.order.same q p | raised x ↦ false ]

module _ (floats : Floats) where
  open floats.order use {less, same, same_iff, less_irrefl, less_trans}

  abbrev Items : Type 0
  Items = Entries (floats.Float × ℕ) OfferBookEntry

  abbrev offers_of : Items → List OfferBookEntry
  offers_of = map (λ x. x.1)

  abbrev IsPriced : Items → Type 0
  IsPriced = All (λ x. price floats x.1.offer ≡ ok x.0.0)

  keep_above :
      (p q : floats.Float) (i : ℕ) (d : Items)
      → less p q ≡ true
      → IsPriced d
      → AllAbove (key_order floats) (q, i) d
      → keep (is_at floats p) (offers_of d) ≡ []
  keep_above p q i [] l h a = refl
  keep_above p q i (((r, j), e) ∷ d) l h a = ground (
    arith,
    keep_above p q i d l h.1 a.1,
    same_iff r p,
    same_iff q r,
    less_irrefl p,
    less_trans p q p,
    less_trans p q r,
  )

  matching_from-items :
      (p : floats.Float) (d : Items)
      → IsSorted (key_order floats) d
      → IsPriced d
      → matching_from floats p (offers_of d) ≡ ok (keep (is_at floats p) (offers_of d))
  unfolding matching_from
  matching_from-items p [] s h = refl
  matching_from-items p (((q, i), e) ∷ d) s h =
      ground (arith, matching_from-items p d s.1 h.1, h.0, keep_above p q i d)

module _ (floats : Floats) (sorted : OfferDict floats) where
  IsPriced-items :
      (v : OfferView floats sorted)
      → IsSynced floats sorted v
      → IsPriced floats (sorted.items v.offer_entries)
  IsPriced-items v h =
      All-of_find (key_order floats) (λ x. price floats x.1.offer ≡ ok x.0.0)
        (sorted.items v.offer_entries) h.in_order (λ k e q. (h.indexed k e q).1)

  -- On a view in step, the loop that stops at the first higher price finds, in the order of the
  -- view, exactly the entries with the wanted price, and does not raise.
  pub offers_by_price-eq-keep :
      (p : floats.Float) (v : OfferView floats sorted)
      → IsSynced floats sorted v
      → view_offers_by_price floats sorted p v
        ≡ ok (keep (is_at floats p) (view_values floats sorted v))
  unfolding view_offers_by_price
  offers_by_price-eq-keep p v h =
      matching_from-items floats p (sorted.items v.offer_entries) h.in_order (IsPriced-items v h)
