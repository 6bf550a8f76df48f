-- ===== src/TraderMock.antt =====
-- `Trader` and `TraderClientMock` of raidex/trader_mock/trader.py. Its
-- listeners are in Hub.
pub mod Hub
mod Examples
use raidex.Prelude.{
  ℕ, suc, ◌+◌, ◌-◌, ◌≤◌, ◌<◌, ◌≡◌, refl, Bool, true, false, Option, none, some, List, [], ◌∷◌, ◌++◌,
  ◌==◌, leb, get_elem?, set, length, if◌then◌else◌, arith, get_elem?-set, get_elem?-append_one,
  Option-cases, inl, inr, Bool-cases, ==-refl,
}
use raidex.Dict.{Dict, get, put, remove, contains, get-put, get-remove, contains-eq-is_some}
use raidex.CommitmentService.Data.{TransferReceipt}
use raidex.Node.Offer.{OfferType}
use raidex.Node.Order.Fsm.{RaidenEvent}
use raidex.TraderMock.Hub.{EventListeners, listeners_at, hand_out, event_arrivals, get-hand_out}

-- `hash(str(type_) + str(base_amount) + ...)` of a type, two amounts, two addresses and an
-- identifier: Python's hash is a parameter.
abbrev pub ExchangeKey : Type 0
ExchangeKey = OfferType → ℕ → ℕ → ℕ → ℕ → ℕ → ℕ

abbrev pub Hub : Type 0
Hub = EventListeners RaidenEvent TransferReceipt

-- `expected` leads to the results that are waited for, which are places in `results`.
pub record Trader : Type 0 where
  pub expected : Dict ℕ
  pub results : List (Option Bool)
  pub hub : Hub

module _ (key_of : ExchangeKey) where
  -- The place of the result, and the trader
  unfoldable pub expect_exchange_async : OfferType → ℕ → ℕ → ℕ → ℕ → ℕ → Trader → ℕ × Trader
  expect_exchange_async type base quote self_address target_address identifier t = (
    length t.results,
    record t {
      expected =
          put t.expected (key_of type base quote target_address self_address identifier)
            (length t.results);
      results = t.results ++ none ∷ [];
    },
  )

  abbrev exchange_found : Option ℕ → ℕ → Trader → Trader
  exchange_found none key t = record t { results = t.results ++ some false ∷ [] }
  exchange_found (some place) key t = record t {
    expected = remove t.expected key;
    results = set t.results place (some true) ++ some true ∷ [];
  }

  unfoldable pub exchange_async : OfferType → ℕ → ℕ → ℕ → ℕ → ℕ → Trader → ℕ × Trader
  exchange_async type base quote self_address target_address identifier t =
      let key = key_of type base quote self_address target_address identifier in
      (length t.results, exchange_found (get t.expected key) key t)

-- `Trader.transfer`. Reading a `defaultdict` does not raise KeyError: the answer is always True.
unfoldable pub trader_transfer :
    (self_address target_address amount identifier : ℕ) → Trader → Bool × Trader
unfolding listeners_at hand_out
trader_transfer self_address target_address amount identifier t =
    let event : RaidenEvent = record {
      initiator = self_address;
      amount = amount;
      identifier = identifier;
    } in
    (
      true,
      record t {
        hub = record (t.hub) {
          queues =
              hand_out RaidenEvent TransferReceipt event
                (listeners_at RaidenEvent TransferReceipt target_address t.hub) t.hub.queues;
        };
      },
    )

-- `TransferReceivedListener._transform` at a time
abbrev receipt_of : ℕ → RaidenEvent → TransferReceipt
receipt_of now e = record {
  initiator = e.initiator;
  amount = e.amount;
  identifier = e.identifier;
  timestamp = now;
}

unfoldable pub transfer_transform : Option ℕ → ℕ → RaidenEvent → Option TransferReceipt
transfer_transform none now e = some (receipt_of now e)
transfer_transform (some a) now e = if e.initiator == a then some (receipt_of now e) else none

-- What a `TraderClientMock` keeps for its transfers
pub record TraderClient : Type 0 where
  pub address : ℕ
  pub commitment_balance : ℕ

-- `TraderClientMock.transfer`
unfoldable pub client_transfer :
    (target_address amount identifier : ℕ) → TraderClient × Trader → Bool × (TraderClient × Trader)
unfolding trader_transfer
client_transfer target_address amount identifier (c, t) =
    let (successful, t') = trader_transfer c.address target_address amount identifier t in
    if leb amount c.commitment_balance
    then (successful, (record c { commitment_balance = c.commitment_balance - amount }, t'))
    else (false, (c, t))

-- `BalanceUpdateTask.process`
unfoldable pub update_balance : TransferReceipt → TraderClient → TraderClient
update_balance r c = record c { commitment_balance = c.commitment_balance + r.amount }

set_last-get :
    (xs : List (Option Bool))
    → get_elem? (set (xs ++ none ∷ []) (length xs) (some true) ++ some true ∷ []) (length xs)
      ≡ some (some true)
set_last-get [] = refl
set_last-get (x ∷ xs) = set_last-get xs

set_last-next :
    (xs : List (Option Bool))
    → get_elem? (set (xs ++ none ∷ []) (length xs) (some true) ++ some true ∷ []) (suc (length xs))
      ≡ some (some true)
set_last-next [] = refl
set_last-next (x ∷ xs) = set_last-next xs

module _ (key_of : ExchangeKey) where
  -- Both sides of an exchange, the one that expects it first: its result, and the other's
  abbrev pub exchange_both : OfferType → ℕ → ℕ → ℕ → ℕ → ℕ → Trader → Trader
  exchange_both type base quote a b identifier t =
      (exchange_async key_of type base quote a b identifier
        (expect_exchange_async key_of type base quote b a identifier t).1).1

  exchange_both-eq :
      (type : OfferType) (base quote a b identifier : ℕ) (t : Trader)
      → (exchange_both type base quote a b identifier t).results
        ≡ set (t.results ++ none ∷ []) (length t.results) (some true) ++ some true ∷ []
  unfolding exchange_async expect_exchange_async
  exchange_both-eq type base quote a b identifier t =
      rw
        (
          get-put t.expected (key_of type base quote a b identifier)
              (key_of type base quote a b identifier) (length t.results),
          ==-refl (key_of type base quote a b identifier),
        )
        refl

  exchange_both-expected :
      (type : OfferType) (base quote a b identifier : ℕ) (t : Trader)
      → (exchange_both type base quote a b identifier t).expected
        ≡ remove
            (put t.expected (key_of type base quote a b identifier) (length t.results))
            (key_of type base quote a b identifier)
  unfolding exchange_async expect_exchange_async
  exchange_both-expected type base quote a b identifier t =
      rw
        (
          get-put t.expected (key_of type base quote a b identifier)
              (key_of type base quote a b identifier) (length t.results),
          ==-refl (key_of type base quote a b identifier),
        )
        refl

  -- When the other side makes the exchange that one side expects, both results are True, the
  -- expectation is gone, and those under other keys are as before.
  pub exchange_async-Settles :
      (type : OfferType) (base quote a b identifier j : ℕ) (t : Trader)
      → (get_elem? (exchange_both type base quote a b identifier t).results (length t.results)
          ≡ some (some true))
        × (get_elem?
              (exchange_both type base quote a b identifier t).results
              (suc (length t.results))
            ≡ some (some true))
        × (get (exchange_both type base quote a b identifier t).expected j
            ≡ (if key_of type base quote a b identifier == j then none else get t.expected j))
  exchange_async-Settles type base quote a b identifier j t =
      rw
        (
          exchange_both-eq type base quote a b identifier t,
          exchange_both-expected type base quote a b identifier t,
        )
        (set_last-get t.results, set_last-next t.results, grind (arith, get-put, get-remove))

-- An outcome of a transfer of a client, by whether its balance is enough
abbrev pub TransferMoves :
    Bool
    → ℕ
    → ℕ
    → ℕ
    → ℕ
    → List TransferReceipt
    → TraderClient × Trader
    → Bool × (TraderClient × Trader)
    → Type 0
TransferMoves false target amount i q items s r = r ≡ (false, s)
TransferMoves true target amount i q items s r =
    (r.0 ≡ true)
    × (r.1.0.commitment_balance + amount ≡ s.0.commitment_balance)
    × (get_elem? r.1.1.hub.queues q
        ≡ some (
            items
            ++ event_arrivals RaidenEvent TransferReceipt
                (record { initiator = s.0.address; amount = amount; identifier = i })
                (listeners_at RaidenEvent TransferReceipt target s.1.hub) q))

moved :
    (enough : Bool) (target amount i q : ℕ) (items : List TransferReceipt)
    (s : TraderClient × Trader)
    → leb amount s.0.commitment_balance ≡ enough
    → get_elem? s.1.hub.queues q ≡ some items
    → TransferMoves enough target amount i q items s (client_transfer target amount i s)
unfolding client_transfer trader_transfer
moved false target amount i q items (c, t) h e = rw (h) refl
moved true target amount i q items (c, t) h e = rw (h) (
  refl,
  ground (arith, h),
  get-hand_out RaidenEvent TransferReceipt
      (record { initiator = c.address; amount = amount; identifier = i })
      (listeners_at RaidenEvent TransferReceipt target t.hub) q t.hub.queues items e,
)

-- A transfer of a client fails and changes nothing where the amount is more than its balance;
-- otherwise it succeeds, also where nobody listens to the target, takes the amount off the balance,
-- and each queue gets what the listeners on the target make of the payment.
pub client_transfer-Moves :
    (target amount i q : ℕ) (items : List TransferReceipt) (s : TraderClient × Trader)
    → get_elem? s.1.hub.queues q ≡ some items
    → TransferMoves
        (leb amount s.0.commitment_balance)
        target
        amount
        i
        q
        items
        s
        (client_transfer target amount i s)
client_transfer-Moves target amount i q items s e =
    moved (leb amount s.0.commitment_balance) target amount i q items s refl e
