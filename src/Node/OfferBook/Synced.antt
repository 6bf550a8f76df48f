-- ===== src/Node/OfferBook/Synced.antt =====
-- The two dictionaries of a view hold the same offers, as long as no offer id comes back with
-- another price.
use raidex.Prelude.{
  ℕ, ◌≡◌, ◌⊎◌, refl, Option, none, some, arith, ◌==◌, if◌then◌else◌, subst, Option-cases,
  Bool-cases, inl, inr,
}
use raidex.Dict
use raidex.Dict.{Dict, get-put, get-remove}
use raidex.Exec.{Exc, Result, ok, raised, result-cases}
use raidex.Sorted.{find, IsSorted, insert-IsSorted, erase-IsSorted, find-insert, find-erase}
use raidex.Node.Offer.{Floats, BasicOffer, OfferBookEntry, entry_id, price}
use raidex.Node.OfferBook.View.{
  key_order, OfferDict, OfferView, empty_view, add_offer, remove_offer,
}

price-cases :
    (floats : Floats) (o : BasicOffer)
    → ((x : Exc) × (price floats o ≡ raised x)) ⊎ ((p : floats.Float) × (price floats o ≡ ok p))
price-cases floats o = result-cases (price floats o)

module _ (floats : Floats) (sorted : OfferDict floats) where
  abbrev pub Key : Type 0
  Key = floats.Float × ℕ

  abbrev pub find_entry : OfferView floats sorted → Key → Option OfferBookEntry
  find_entry v k = find (key_order floats) k (sorted.items v.offer_entries)

  -- Every entry found by id stands in the sorted dictionary under its price and id, and every entry
  -- found there stands under its own price and id and is the one that its id gives.
  pub record IsSynced (v : OfferView floats sorted) : Type 0 where
    pub in_order : IsSorted (key_order floats) (sorted.items v.offer_entries)
    pub listed :
        (i : ℕ) (e : OfferBookEntry) (p : floats.Float)
        → Dict.get v.offer_entries_by_id i ≡ some e
        → price floats e.offer ≡ ok p
        → find_entry v (p, i) ≡ some e
    pub priced :
        (i : ℕ) (e : OfferBookEntry)
        → Dict.get v.offer_entries_by_id i ≡ some e
        → (p : floats.Float) × (price floats e.offer ≡ ok p) × (entry_id e ≡ i)
    pub indexed :
        (k : Key) (e : OfferBookEntry)
        → find_entry v k ≡ some e
        → (Dict.get v.offer_entries_by_id k.1 ≡ some e) × (price floats e.offer ≡ ok k.0)

  pub empty-IsSynced : IsSynced (empty_view floats sorted)
  unfolding empty_view find Dict.get
  empty-IsSynced = record {
    in_order = rw sorted.items-empty tt;
    listed = λ i e p h q. cc;
    priced = λ i e h. cc;
    indexed = λ k e. rw (sorted.items-empty) (λ h. cc);
  }

  -- An offer that is new to the view, or comes back at its old price.
  abbrev pub KeepsPrice : OfferView floats sorted → OfferBookEntry → Type 0
  KeepsPrice v e =
      (old : OfferBookEntry)
      → Dict.get v.offer_entries_by_id (entry_id e) ≡ some old
      → price floats old.offer ≡ price floats e.offer

  module _ (v : OfferView floats sorted) (h : IsSynced v) (e : OfferBookEntry) (p : floats.Float)
      (q : price floats e.offer ≡ ok p) where
    abbrev pub with_entry : OfferView floats sorted
    with_entry = record v {
      offer_entries = sorted.set v.offer_entries (p, entry_id e) e;
      offer_entries_by_id = Dict.put v.offer_entries_by_id (entry_id e) e;
    }

    find-with_entry :
        (k : Key)
        → find_entry with_entry k
          ≡ (if (key_order floats).same k (p, entry_id e) then some e else find_entry v k)
    find-with_entry k =
        rw (sorted.items-set)
          (find-insert (key_order floats) (p, entry_id e) k e (sorted.items v.offer_entries))

    with_entry-IsSynced : KeepsPrice v e → IsSynced with_entry
    with_entry-IsSynced same_price = record {
      in_order = rw (sorted.items-set) (
          insert-IsSorted (key_order floats) (p, entry_id e) e (sorted.items v.offer_entries)
            h.in_order);
      listed = λ i f r g s. ground (
        arith,
        find-with_entry (r, i),
        get-put v.offer_entries_by_id (entry_id e) i e,
        h.listed i f r,
        floats.order.same_iff r p,
      );
      priced = λ i f g. elim (Bool-cases (entry_id e == i)) [
        | inl y ↦ (
          p,
          ground (arith, get-put v.offer_entries_by_id (entry_id e) i e),
          ground (arith, get-put v.offer_entries_by_id (entry_id e) i e),
        )
        | inr n ↦ h.priced i f (ground (arith, get-put v.offer_entries_by_id (entry_id e) i e))
      ];
      indexed = λ k f g. (
        ground (
          arith,
          find-with_entry k,
          get-put v.offer_entries_by_id (entry_id e) k.1 e,
          h.indexed k f,
          same_price f,
          floats.order.same_iff k.0 p,
        ),
        ground (arith, find-with_entry k, h.indexed k f, floats.order.same_iff k.0 p),
      );
    }

  -- `add_offer` of an offer that is new, or that keeps its price, keeps the dictionaries in step.
  pub add_offer-IsSynced :
      (v : OfferView floats sorted) (e : OfferBookEntry)
      → IsSynced v
      → KeepsPrice v e
      → IsSynced (add_offer floats sorted e v).1
  unfolding add_offer
  add_offer-IsSynced v e h same_price = elim (price-cases floats e.offer) [
    | inl (x, q) ↦ rw (q, add_offer) h
    | inr (p, q) ↦ rw (q, add_offer) (with_entry-IsSynced v h e p q same_price)
  ]

  module _ (v : OfferView floats sorted) (h : IsSynced v) (e : OfferBookEntry) (p : floats.Float)
      (here : Dict.get v.offer_entries_by_id (entry_id e) ≡ some e)
      (q : price floats e.offer ≡ ok p) where
    abbrev without_entry : OfferView floats sorted
    without_entry = record v {
      offer_entries = sorted.delete v.offer_entries (p, entry_id e);
      offer_entries_by_id = Dict.remove v.offer_entries_by_id (entry_id e);
    }

    find-without_entry :
        (k : Key)
        → find_entry without_entry k
          ≡ (if (key_order floats).same k (p, entry_id e) then none else find_entry v k)
    find-without_entry k =
        rw (sorted.items-delete) (
          find-erase (key_order floats) (p, entry_id e) k (sorted.items v.offer_entries) h.in_order)

    without_entry-IsSynced : IsSynced without_entry
    without_entry-IsSynced = record {
      in_order = rw (sorted.items-delete) (
          erase-IsSorted (key_order floats) (p, entry_id e) (sorted.items v.offer_entries)
            h.in_order);
      listed = λ i f r g s. ground (
        arith,
        find-without_entry (r, i),
        get-remove v.offer_entries_by_id (entry_id e) i,
        h.listed i f r,
      );
      priced =
          λ i f g. h.priced i f (ground (arith, get-remove v.offer_entries_by_id (entry_id e) i));
      indexed = λ k f g. (
        ground (
          arith,
          find-without_entry k,
          get-remove v.offer_entries_by_id (entry_id e) k.1,
          h.indexed k f,
          floats.order.same_iff k.0 p,
        ),
        ground (arith, find-without_entry k, h.indexed k f),
      );
    }

  -- The outcome of a removal, before and after it
  pub record Removes (offer_id : ℕ) (before : OfferView floats sorted)
      (after : Result (Unit {0}) × OfferView floats sorted) : Type 0 where
    pub succeeded : after.0 ≡ ok tt
    pub in_step : IsSynced after.1
    pub gone :
        (i : ℕ)
        → Dict.get after.1.offer_entries_by_id i
          ≡ (if offer_id == i then none else Dict.get before.offer_entries_by_id i)
    pub unlisted :
        (k : Key) → find_entry after.1 k ≡ (if offer_id == k.1 then none else find_entry before k)

  remove_entry-eq :
      (v : OfferView floats sorted) (e : OfferBookEntry) (p : floats.Float) (h : IsSynced v)
      (here : Dict.get v.offer_entries_by_id (entry_id e) ≡ some e)
      (q : price floats e.offer ≡ ok p)
      → remove_offer floats sorted (entry_id e) v ≡ (ok tt, without_entry v h e p here q)
  unfolding remove_offer
  remove_entry-eq v e p h here q = ground (arith, h.listed (entry_id e) e p here q)

  remove_entry :
      (v : OfferView floats sorted) (e : OfferBookEntry) (p : floats.Float)
      → IsSynced v
      → Dict.get v.offer_entries_by_id (entry_id e) ≡ some e
      → price floats e.offer ≡ ok p
      → Removes (entry_id e) v (remove_offer floats sorted (entry_id e) v)
  remove_entry v e p h here q = rw (remove_entry-eq v e p h here q) (record {
    succeeded = refl;
    in_step = without_entry-IsSynced v h e p here q;
    gone = λ i. get-remove v.offer_entries_by_id (entry_id e) i;
    unlisted = λ k. elim (Option-cases (find_entry v k)) [
      | inl m ↦ ground (arith, find-without_entry v h e p here q k)
      | inr (f, m) ↦
          ground (
            arith,
            find-without_entry v h e p here q k,
            h.indexed k f m,
            floats.order.same_iff k.0 p,
          )
    ];
  })

  -- `remove_offer` on a view in step: it does not raise, the view stays in step, the offer is in
  -- neither dictionary any more, and the other offers are as before.
  pub remove_offer-Removes :
      (offer_id : ℕ) (v : OfferView floats sorted)
      → IsSynced v
      → Removes offer_id v (remove_offer floats sorted offer_id v)
  unfolding remove_offer
  remove_offer-Removes offer_id v h =
      elim (Option-cases (Dict.get v.offer_entries_by_id offer_id)) [
        | inl n ↦
            rw (n, remove_offer)
              (record {
                succeeded = refl;
                in_step = h;
                gone = λ i. ground arith;
                unlisted = λ k. elim (Option-cases (find_entry v k)) [
                  | inl m ↦ ground arith
                  | inr (f, m) ↦ ground (arith, h.indexed k f m)
                ];
              })
        | inr (e, s) ↦
            let (p, q, i) = h.priced offer_id e s in
            subst (λ j. Removes j v (remove_offer floats sorted j v)) i
              (remove_entry v e p h (ground arith) q)
      ]
