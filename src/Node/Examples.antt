-- ===== src/Node/Examples.antt =====
-- A book with three offers, over prices that are whole thousandths.
use raidex.Prelude.{ℕ, ◌*◌, ◌/◌, ◌≡◌, refl, arith, none, some, keep}
use raidex.Dict
use raidex.Exec.{ok}
use raidex.Sorted.{nat_order, sorted_items, find, insert, erase}
use raidex.Node.Offer.{Floats, buy, sell, OfferBookEntry, price}
use raidex.Node.OfferBook.View.{
  key_order, OfferDict, OfferView, empty_view, add_offer, remove_offer, view_values,
  view_offers_by_price,
}
use raidex.Node.OfferBook.Synced.{
  IsSynced, Removes, find_entry, empty-IsSynced, add_offer-IsSynced, remove_offer-Removes,
}
use raidex.Node.OfferBook.Prices.{is_at, offers_by_price-eq-keep}
use raidex.Node.OfferBook.Stale.{stale_entry}
use raidex.Node.OfferBook.{OfferBook, opposite_view}
use raidex.Node.Matching.{OrderTerms, match_new_order}
use raidex.Node.Matching.Fill.{FillsOk, match_new_order-Fills}

abbrev pub floats : Floats
floats = record { Float = ℕ; order = nat_order; quotient = λ a b. a * 1000 / b }

abbrev pub sorted : OfferDict floats
sorted = sorted_items (ℕ × ℕ) OfferBookEntry (key_order floats)

abbrev pub entry : ℕ → ℕ → ℕ → OfferBookEntry
entry i base quote = record {
  offer = record {
    offer_id = i;
    type = sell;
    base_amount = base;
    quote_amount = quote;
    timeout_date = 900;
  };
  initiator = 3;
  commitment_proof = record { commitment_sig = 1; secret = 2; secret_hash = 3; offer_id = i };
}

abbrev one_offer : OfferView floats sorted
one_offer = (add_offer floats sorted (entry 5 10 20) (empty_view floats sorted)).1

abbrev two_offers : OfferView floats sorted
two_offers = (add_offer floats sorted (entry 6 30 60) one_offer).1

run_views : Unit {0}
unfolding add_offer remove_offer empty_view price find insert erase Dict.get Dict.put
run_views = tt

one_offer-IsSynced : IsSynced floats sorted one_offer
unfolding run_views
one_offer-IsSynced =
    add_offer-IsSynced floats sorted (empty_view floats sorted) (entry 5 10 20)
      (empty-IsSynced floats sorted) (λ old h. cc)

add_offer-IsSynced_example : IsSynced floats sorted two_offers
unfolding run_views
add_offer-IsSynced_example =
    add_offer-IsSynced floats sorted one_offer (entry 6 30 60) one_offer-IsSynced (λ old h. cc)

remove_offer-Removes_example :
    Removes floats sorted 5 one_offer (remove_offer floats sorted 5 one_offer)
remove_offer-Removes_example = remove_offer-Removes floats sorted 5 one_offer one_offer-IsSynced

offers_by_price-eq-keep_example :
    view_offers_by_price floats sorted 2000 one_offer
    ≡ ok (keep (is_at floats 2000) (view_values floats sorted one_offer))
offers_by_price-eq-keep_example =
    offers_by_price-eq-keep floats sorted 2000 one_offer one_offer-IsSynced

stale_entry_example :
    let after =
      (remove_offer floats sorted 5 (add_offer floats sorted (entry 5 10 30) one_offer).1).1 in
    (Dict.get after.offer_entries_by_id 5 ≡ none)
    × (find_entry floats sorted after (2000, 5) ≡ some (entry 5 10 20))
unfolding run_views
stale_entry_example =
    stale_entry floats sorted one_offer (entry 5 10 20) (entry 5 10 30) 2000 3000 one_offer-IsSynced
      refl refl refl (λ e. omega arith)

abbrev book : OfferBook floats sorted
book = record { buys = empty_view floats sorted; sells = one_offer }

abbrev order : OrderTerms ℕ
order = record { order_type = buy; amount = 25; price = 2000 }

match_new_order-Fills_example :
    FillsOk
      (keep (is_at floats 2000) (view_values floats sorted (opposite_view floats sorted buy book)))
      25
      (match_new_order floats sorted book order)
unfolding opposite_view
match_new_order-Fills_example = match_new_order-Fills floats sorted book order one_offer-IsSynced
