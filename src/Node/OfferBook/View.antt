-- ===== src/Node/OfferBook/View.antt =====
-- `OfferView`
use raidex.Prelude.{ℕ, Option, none, some, List, [], ◌∷◌, ◌++◌, map, if◌then◌else◌}
use raidex.Dict
use raidex.Dict.{Dict}
use raidex.Exec.{Exec, Result, ok, raised, key_error}
use raidex.Sorted.{SortedDict, TotalOrder, nat_order, lex_order, find}
use raidex.Node.Offer.{Floats, OfferBookEntry, entry_id, price}

abbrev pub key_order : (floats : Floats) → TotalOrder (floats.Float × ℕ)
key_order floats = lex_order floats.order nat_order

abbrev pub OfferDict : Floats → Type 1
OfferDict floats = SortedDict (floats.Float × ℕ) OfferBookEntry (key_order floats)

abbrev pub prepend :
    List OfferBookEntry → Result (List OfferBookEntry) → Result (List OfferBookEntry)
prepend es (ok rest) = ok (es ++ rest)
prepend es (raised x) = raised x

module _ (floats : Floats) where
  -- The loop of `get_offers_by_price`, which stops at the first price above the wanted one.
  unfoldable pub matching_from : floats.Float → List OfferBookEntry → Result (List OfferBookEntry)
  matching_from p [] = ok []
  matching_from p (e ∷ es) =
      let rest = matching_from p es in
      elim (price floats e.offer) [
        | raised x ↦ raised x
        | ok q ↦
            prepend (if floats.order.same q p then e ∷ [] else [])
              (if floats.order.less p q then ok [] else rest)
      ]

module _ (floats : Floats) (sorted : OfferDict floats) where
  pub record OfferView : Type 0 where
    pub offer_entries : sorted.Dict
    pub offer_entries_by_id : Dict OfferBookEntry

  unfoldable pub empty_view : OfferView
  empty_view = record { offer_entries = sorted.empty; offer_entries_by_id = [] }

  -- `add_offer`: the id that it returns is that of the entry.
  unfoldable pub add_offer : OfferBookEntry → Exec OfferView ℕ
  add_offer e v = elim (price floats e.offer) [
    | raised x ↦ (raised x, v)
    | ok p ↦ (
      ok (entry_id e),
      record v {
        offer_entries = sorted.set v.offer_entries (p, entry_id e) e;
        offer_entries_by_id = Dict.put v.offer_entries_by_id (entry_id e) e;
      },
    )
  ]

  delete_entry : OfferView → ℕ → floats.Float × ℕ → Result (Unit {0}) × OfferView
  delete_entry v offer_id k = elim (find (key_order floats) k (sorted.items v.offer_entries)) [
    | none ↦ (raised key_error, v)
    | some _ ↦ (
      ok tt,
      record v {
        offer_entries = sorted.delete v.offer_entries k;
        offer_entries_by_id = Dict.remove v.offer_entries_by_id offer_id;
      },
    )
  ]

  unfoldable pub remove_offer : ℕ → Exec OfferView (Unit {0})
  unfolding delete_entry
  remove_offer offer_id v = elim (Dict.get v.offer_entries_by_id offer_id) [
    | none ↦ (ok tt, v)
    | some e ↦ elim (price floats e.offer) [
      | raised x ↦ (raised x, v)
      | ok p ↦ delete_entry v offer_id (p, entry_id e)
    ]
  ]

  unfoldable pub get_offer_by_id : ℕ → OfferView → Option OfferBookEntry
  get_offer_by_id offer_id v = Dict.get v.offer_entries_by_id offer_id

  -- `values`
  unfoldable pub view_values : OfferView → List OfferBookEntry
  view_values v = map (λ x. x.1) (sorted.items v.offer_entries)

  unfoldable pub view_offers_by_price : floats.Float → OfferView → Result (List OfferBookEntry)
  unfolding matching_from view_values
  view_offers_by_price p v = matching_from floats p (view_values v)
