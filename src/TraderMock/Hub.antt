-- ===== src/TraderMock/Hub.antt =====
-- The listeners of `Trader` (raidex/trader_mock/trader.py), by address and with a queue each. The
-- transforms are those of `TransferReceivedListener` and none at all: they raise nothing.
use raidex.Prelude.{
  ℕ, ◌≡◌, ◌∙◌, ap, refl, Option, none, some, List, [], ◌∷◌, ◌++◌, ◌==◌, get_elem?, set,
  if◌then◌else◌, arith, get_elem?-set, Option-cases, Bool-cases, inl, inr,
}
use raidex.Dict.{Dict, get}

module _ (Event Item : Type 0) where
  pub record EventListener : Type 0 where
    pub address : ℕ
    pub queue : ℕ
    pub transform : Event → Option Item

  pub record EventListeners : Type 0 where
    pub listeners : Dict (List EventListener)
    pub queues : List (List Item)

  abbrev or_empty : Option (List EventListener) → List EventListener
  or_empty none = []
  or_empty (some ls) = ls

  unfoldable pub listeners_at : ℕ → EventListeners → List EventListener
  listeners_at address b = or_empty (get b.listeners address)

  abbrev put_found : Option (List Item) → Item → ℕ → List (List Item) → List (List Item)
  put_found none i q queues = queues
  put_found (some items) i q queues = set queues q (items ++ i ∷ [])

  -- `event_queue_async.put(...)` where the transform gives something
  abbrev put_item : Option Item → ℕ → List (List Item) → List (List Item)
  put_item none q queues = queues
  put_item (some i) q queues = put_found (get_elem? queues q) i q queues

  -- The loop of `transfer`
  unfoldable pub hand_out : Event → List EventListener → List (List Item) → List (List Item)
  hand_out m [] queues = queues
  hand_out m (l ∷ ls) queues = hand_out m ls (put_item (l.transform m) l.queue queues)

  -- What one listener gets of an event
  unfoldable pub received_items : Option Item → List Item
  received_items none = []
  received_items (some i) = i ∷ []

  -- The items that the listeners put into a queue, in order
  unfoldable pub event_arrivals : Event → List EventListener → ℕ → List Item
  unfolding received_items
  event_arrivals m [] q = []
  event_arrivals m (l ∷ ls) q =
      let rest = event_arrivals m ls q in
      if l.queue == q then received_items (l.transform m) ++ rest else rest

  append_nil : (xs : List Item) → xs ++ [] ≡ xs
  append_nil [] = refl
  append_nil (x ∷ xs) = ground (arith, append_nil xs)

  append_assoc : (xs ys zs : List Item) → (xs ++ ys) ++ zs ≡ xs ++ (ys ++ zs)
  append_assoc [] ys zs = refl
  append_assoc (x ∷ xs) ys zs = ground (arith, append_assoc xs ys zs)

  get-put_item :
      (o : Option Item) (p q : ℕ) (queues : List (List Item)) (items : List Item)
      → get_elem? queues q ≡ some items
      → get_elem? (put_item o p queues) q
        ≡ some (items ++ (if p == q then received_items o else []))
  unfolding received_items
  get-put_item none p q queues items h = ground (arith, h, append_nil items)
  get-put_item (some i) p q queues items h = elim (Option-cases (get_elem? queues p)) [
    | inl e ↦ rw (e) (ground (arith, h, e, append_nil items))
    | inr (found, e) ↦
        rw (e)
          (ground (arith, h, e, append_nil items, get_elem?-set queues p q (found ++ i ∷ []) e))
  ]

  event_arrivals-cons :
      (m : Event) (l : EventListener) (ls : List EventListener) (q : ℕ) (items : List Item)
      → (items ++ (if l.queue == q then received_items (l.transform m) else []))
          ++ event_arrivals m ls q
        ≡ items ++ event_arrivals m (l ∷ ls) q
  unfolding event_arrivals
  event_arrivals-cons m l ls q items = elim (Bool-cases (l.queue == q)) [
    | inl e ↦ rw (e) (append_assoc items (received_items (l.transform m)) (event_arrivals m ls q))
    | inr e ↦ rw (e, append_nil) refl
  ]

  pub get-hand_out :
      (m : Event) (ls : List EventListener) (q : ℕ) (queues : List (List Item)) (items : List Item)
      → get_elem? queues q ≡ some items
      → get_elem? (hand_out m ls queues) q ≡ some (items ++ event_arrivals m ls q)
  unfolding hand_out event_arrivals
  get-hand_out m [] q queues items h = ground (arith, h, append_nil items)
  get-hand_out m (l ∷ ls) q queues items h =
      get-hand_out m ls q (put_item (l.transform m) l.queue queues)
        (items ++ (if l.queue == q then received_items (l.transform m) else []))
        (get-put_item (l.transform m) l.queue q queues items h)
      ∙ ap some (event_arrivals-cons m l ls q items)
