-- ===== src/TraderMock/Examples.antt =====
-- A trader with one listener, and an exchange between two clients.
use raidex.Prelude.{◌+◌, ◌*◌, ◌≡◌, ◌==◌, refl, true, none, some, [], ◌∷◌, get_elem?, if◌then◌else◌}
use raidex.Dict
use raidex.Node.Offer.{buy, value_of}
use raidex.TraderMock.{
  ExchangeKey, Trader, TraderClient, exchange_both, exchange_async-Settles, transfer_transform,
  client_transfer, TransferMoves, client_transfer-Moves,
}

abbrev key_of : ExchangeKey
key_of t base quote a b i = value_of t + 10 * base + 100 * quote + 1000 * a + 7000 * b + 90000 * i

abbrev trader : Trader
trader = record {
  expected = (3, 0) ∷ [];
  results = none ∷ [];
  hub = record {
    listeners =
        (5, record { address = 5; queue = 0; transform = transfer_transform none 60 } ∷ []) ∷ [];
    queues = [] ∷ [];
  };
}

exchange_async-Settles_example :
    (get_elem? (exchange_both key_of buy 1 2 4 5 9 trader).results 1 ≡ some (some true))
    × (get_elem? (exchange_both key_of buy 1 2 4 5 9 trader).results 2 ≡ some (some true))
    × (Dict.get (exchange_both key_of buy 1 2 4 5 9 trader).expected 3
        ≡ (if key_of buy 1 2 4 5 9 == 3 then none else Dict.get trader.expected 3))
exchange_async-Settles_example = exchange_async-Settles key_of buy 1 2 4 5 9 3 trader

abbrev client : TraderClient
client = record { address = 4; commitment_balance = 10 }

client_transfer-Moves_example :
    TransferMoves true 5 3 70 0 [] (client, trader) (client_transfer 5 3 70 (client, trader))
client_transfer-Moves_example = client_transfer-Moves 5 3 70 0 [] (client, trader) refl
