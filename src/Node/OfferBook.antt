-- ===== src/Node/OfferBook.antt =====
-- `OfferView` and `OfferBook` of raidex/raidex_node/offer_book.py. A view keeps its entries twice:
-- sorted by (price, offer id), and by offer id.
pub mod View
pub mod Synced
pub mod Prices
pub mod Stale
use raidex.Prelude.{ℕ, ◌≡◌, Bool, true, false, Option, none, some, List, ◌||◌, if◌then◌else◌}
use raidex.Dict
use raidex.Exec.{Exec, Result, ok, raised, other}
use raidex.Node.Offer.{Floats, OfferType, buy, sell, same_type, OfferBookEntry, entry_id}
use raidex.Node.OfferBook.View.{
  OfferDict, OfferView, empty_view, add_offer, remove_offer, get_offer_by_id, view_offers_by_price,
}

module _ (floats : Floats) (sorted : OfferDict floats) where
  pub record OfferBook : Type 0 where
    pub buys : OfferView floats sorted
    pub sells : OfferView floats sorted

  unfoldable pub empty_book : OfferBook
  empty_book = record { buys = empty_view floats sorted; sells = empty_view floats sorted }

  unfoldable pub insert_offer : OfferBookEntry → Exec OfferBook ℕ
  insert_offer e book = elim e.offer.type [
    | buy ↦ let (r, v) = add_offer floats sorted e book.buys in (r, record book { buys = v })
    | sell ↦ let (r, v) = add_offer floats sorted e book.sells in (r, record book { sells = v })
  ]

  unfoldable pub book_offer_by_id : ℕ → OfferBook → Option OfferBookEntry
  unfolding get_offer_by_id
  book_offer_by_id offer_id book = elim (get_offer_by_id floats sorted offer_id book.buys) [
    | some e ↦ some e
    | none ↦ get_offer_by_id floats sorted offer_id book.sells
  ]

  -- `contains`
  unfoldable pub book_contains : ℕ → OfferBook → Bool
  book_contains offer_id book =
      Dict.contains book.buys.offer_entries_by_id offer_id
      || Dict.contains book.sells.offer_entries_by_id offer_id

  -- `OfferBook.remove_offer`; the exception for an unknown id is a plain `Exception`
  unfoldable pub book_remove_offer : ℕ → Exec OfferBook (Unit {0})
  book_remove_offer offer_id book =
      if Dict.contains book.buys.offer_entries_by_id offer_id
      then (let (r, v) = remove_offer floats sorted offer_id book.buys in
          (r, record book { buys = v }))
      else if Dict.contains book.sells.offer_entries_by_id offer_id
      then (let (r, v) = remove_offer floats sorted offer_id book.sells in
          (r, record book { sells = v }))
      else (raised other, book)

  -- The view that an order of a type is matched with.
  unfoldable pub opposite_view : OfferType → OfferBook → OfferView floats sorted
  opposite_view t book = if same_type t sell then book.buys else book.sells

  -- `OfferBook.get_offers_by_price`
  unfoldable pub get_offers_by_price :
      floats.Float → OfferType → OfferBook → Result (List OfferBookEntry)
  unfolding opposite_view
  get_offers_by_price p t book = view_offers_by_price floats sorted p (opposite_view t book)
