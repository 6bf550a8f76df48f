-- ===== src/Node/OfferBook/Stale.antt =====
-- An offer id that comes back with another price leaves its old entry behind.
use raidex.Prelude.{◌≡◌, ◌≢◌, none, some, arith}
use raidex.Dict
use raidex.Dict.{get-put, get-remove}
use raidex.Exec.{ok}
use raidex.Sorted.{insert, find-insert, find-erase, insert-IsSorted}
use raidex.Node.Offer.{Floats, OfferBookEntry, entry_id, price}
use raidex.Node.OfferBook.View.{key_order, OfferDict, OfferView, add_offer, remove_offer}
use raidex.Node.OfferBook.Synced.{IsSynced, find_entry}

module _ (floats : Floats) (sorted : OfferDict floats) where
  -- Add to a view in step an offer whose id it has at another price, and remove that id: the id is
  -- unknown then, and the old entry is still listed under its price, where matching finds it.
  pub stale_entry :
      (v : OfferView floats sorted) (old new : OfferBookEntry) (p q : floats.Float)
      → IsSynced floats sorted v
      → Dict.get v.offer_entries_by_id (entry_id new) ≡ some old
      → price floats old.offer ≡ ok p
      → price floats new.offer ≡ ok q
      → p ≢ q
      → let after =
          (remove_offer floats sorted (entry_id new) (add_offer floats sorted new v).1).1 in
        (Dict.get after.offer_entries_by_id (entry_id new) ≡ none)
        × (find_entry floats sorted after (p, entry_id new) ≡ some old)
  unfolding add_offer remove_offer
  stale_entry v old new p q h here hp hq ne =
      let order = key_order floats in
      let i = entry_id new in
      let d = sorted.items v.offer_entries in
      ground (
        arith,
        h.listed i old p here hp,
        get-put v.offer_entries_by_id i i new,
        get-remove (Dict.put v.offer_entries_by_id i new) i i,
        sorted.items-set v.offer_entries (q, i) new,
        sorted.items-delete (sorted.set v.offer_entries (q, i) new) (q, i),
        find-insert order (q, i) (q, i) new d,
        find-insert order (q, i) (p, i) new d,
        find-erase order (q, i) (p, i) (insert order (q, i) new d)
            (insert-IsSorted order (q, i) new d h.in_order),
        floats.order.same_iff p q,
        floats.order.same_iff q q,
      )
