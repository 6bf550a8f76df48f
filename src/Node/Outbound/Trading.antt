-- ===== src/Node/Outbound/Trading.antt =====
-- `TraderClient` of raidex/raidex_node/trader/client.py with
-- raidex/raidex_node/trader/handle_events.py, and what a match gives it
-- (raidex/raidex_node/matching/match.py). What the server answers is the status code.
use raidex.Prelude.{
  ℕ, ◌+◌, ◌≡◌, ap, not, Option, none, some, List, [], ◌∷◌, ◌++◌, ◌==◌, ◌&&◌, ◌||◌, if◌then◌else◌,
  arith,
}
use raidex.Exec.{Exec, Result, ok, raised, type_error}
use raidex.CommitmentService.Data.{CommitmentProof}
use raidex.Node.Offer.{OfferType, buy, sell}
use raidex.Node.Order.Fsm.{TraderRole, maker, taker, Offer, is_buy, is_sell}
use raidex.Node.Manager.{match_is_maker, get_send_amount}
use raidex.Messages.Listeners.{TokenPair}
use raidex.Node.Outbound.Events.{
  MatchData, TraderEvent, transfer_event, swap_init, make_channel_event,
}

-- `Match.get_token_from_market`
unfoldable pub get_token_from_market : TraderRole → Offer → TokenPair → ℕ
unfolding match_is_maker is_buy is_sell
get_token_from_market role o market =
    if (match_is_maker role && is_buy o) || (not (match_is_maker role) && is_sell o)
    then market.quote_token
    else market.base_token

-- The arguments of `transfer`
pub record TransferCall : Type 0 where
  pub token_address : ℕ
  pub target_address : ℕ
  pub amount : ℕ
  pub identifier : ℕ
  pub secret : Option ℕ
  pub secret_hash : Option ℕ

-- The request of `make_channel`
pub record ChannelRequest : Type 0 where
  pub partner_address : ℕ
  pub token_address : ℕ
  pub total_deposit : ℕ
  pub settle_timeout : ℕ

-- The posted path and body
pub record Payment : Type 0 where
  pub token : ℕ
  pub target : ℕ
  pub amount : ℕ
  pub identifier : ℕ
  pub secrets : Option (ℕ × ℕ)

-- The client: what the transfers took off `commitment_balance`, and the posts
pub record TraderClient : Type 0 where
  pub paid : ℕ
  pub posted : List Payment

-- The secret and its hash in the body. The hash goes with the secret: None has no hex encoding.
unfoldable pub secrets_of : Option ℕ → Option ℕ → Result (Option (ℕ × ℕ))
secrets_of none hash = ok none
secrets_of (some s) none = raised type_error
secrets_of (some s) (some h) = ok (some (s, h))

abbrev post_payment : (status : ℕ) → TransferCall → Result (Option (ℕ × ℕ)) → Exec TraderClient ℕ
post_payment status t (raised x) c = (raised x, c)
post_payment status t (ok s) c = (
  ok status,
  record {
    paid = if status == 200 then c.paid + t.amount else c.paid;
    posted =
        c.posted
        ++ record {
          token = t.token_address;
          target = t.target_address;
          amount = t.amount;
          identifier = t.identifier;
          secrets = s;
        }
          ∷ [];
  },
)

-- `transfer`
unfoldable pub transfer : (status : ℕ) → TransferCall → Exec TraderClient ℕ
unfolding secrets_of
transfer status t = post_payment status t (secrets_of t.secret t.secret_hash)

-- `transfer_async`
unfoldable pub transfer_async : (token target amount identifier : ℕ) → TransferCall
transfer_async token target amount identifier = record {
  token_address = token;
  target_address = target;
  amount = amount;
  identifier = identifier;
  secret = none;
  secret_hash = none;
}

-- `initiate_exchange`
unfoldable pub initiate_exchange : TokenPair → MatchData → TransferCall
unfolding get_token_from_market get_send_amount
initiate_exchange market m = record {
  token_address = get_token_from_market m.trader_role m.offer market;
  target_address = m.target;
  amount = get_send_amount m.trader_role m.offer;
  identifier = m.offer.basic.offer_id;
  secret = some m.commitment_proof.secret;
  secret_hash = some m.commitment_proof.secret_hash;
}

-- A call of `transfer` with a token and an amount
abbrev call_of : ℕ × ℕ → (target identifier : ℕ) → Option ℕ → Option ℕ → TransferCall
call_of terms target identifier secret secret_hash = record {
  token_address = terms.0;
  target_address = target;
  amount = terms.1;
  identifier = identifier;
  secret = secret;
  secret_hash = secret_hash;
}

-- The token and the amount that each side of an exchange sends
abbrev pub expect_terms : TokenPair → OfferType → (base_amount quote_amount : ℕ) → ℕ × ℕ
expect_terms market buy base quote = (market.base_token, base)
expect_terms market sell base quote = (market.quote_token, quote)

abbrev pub exchange_terms : TokenPair → OfferType → (base_amount quote_amount : ℕ) → ℕ × ℕ
exchange_terms market buy base quote = (market.quote_token, quote)
exchange_terms market sell base quote = (market.base_token, base)

-- `expect_exchange_async`
unfoldable pub expect_exchange_async :
    TokenPair
    → OfferType
    → (base_amount quote_amount target_address identifier : ℕ) → Option ℕ
    → Option ℕ
    → TransferCall
expect_exchange_async market type base quote target i s h =
    call_of (expect_terms market type base quote) target i s h

-- `exchange_async`
unfoldable pub exchange_async :
    TokenPair
    → OfferType
    → (base_amount quote_amount target_address identifier : ℕ) → Option ℕ
    → Option ℕ
    → TransferCall
exchange_async market type base quote target i s h =
    call_of (exchange_terms market type base quote) target i s h

-- `make_channel`
unfoldable pub make_channel : (partner token deposit : ℕ) → ChannelRequest
make_channel partner token deposit = record {
  partner_address = partner;
  token_address = token;
  total_deposit = deposit;
  settle_timeout = 500;
}

-- `handle_event`: the transfers that it spawns and the channels that it asks for
unfoldable pub trader_handle_event :
    TokenPair → TraderEvent → List TransferCall × List ChannelRequest
unfolding transfer_async initiate_exchange make_channel
trader_handle_event market (swap_init m) = (initiate_exchange market m ∷ [], [])
trader_handle_event market (transfer_event token target amount i) =
    (transfer_async token target amount i ∷ [], [])
trader_handle_event market (make_channel_event partner token deposit) =
    ([], make_channel partner token deposit ∷ [])

-- What a maker and a taker of one offer send
maker-terms :
    (market : TokenPair) (o : Offer)
    → (get_token_from_market maker o market, get_send_amount maker o)
      ≡ exchange_terms market o.basic.type o.basic.base_amount o.basic.quote_amount
unfolding get_token_from_market get_send_amount match_is_maker is_buy is_sell
maker-terms market o = ground arith

taker-terms :
    (market : TokenPair) (o : Offer)
    → (get_token_from_market taker o market, get_send_amount taker o)
      ≡ expect_terms market o.basic.type o.basic.base_amount o.basic.quote_amount
unfolding get_token_from_market get_send_amount match_is_maker is_buy is_sell
taker-terms market o = ground arith

-- The outcome of a transfer of a token and an amount, with the secrets of a proof
abbrev pub Paid :
    ℕ × ℕ
    → (target identifier : ℕ) → CommitmentProof
    → (status : ℕ) → TraderClient
    → Result ℕ × TraderClient
Paid terms target identifier proof status c = (
  ok status,
  record {
    paid = if status == 200 then c.paid + terms.1 else c.paid;
    posted =
        c.posted
        ++ record {
          token = terms.0;
          target = target;
          amount = terms.1;
          identifier = identifier;
          secrets = some (proof.secret, proof.secret_hash);
        }
          ∷ [];
  },
)

initiate-Paid :
    (market : TokenPair) (m : MatchData) (terms : ℕ × ℕ) (status : ℕ) (c : TraderClient)
    → (get_token_from_market m.trader_role m.offer market, get_send_amount m.trader_role m.offer)
      ≡ terms
    → transfer status (initiate_exchange market m) c
      ≡ Paid terms m.target m.offer.basic.offer_id m.commitment_proof status c
unfolding transfer initiate_exchange secrets_of
initiate-Paid market m terms status c e =
    ap (λ t. Paid t m.target m.offer.basic.offer_id m.commitment_proof status c) e

-- Both sides of a match on an offer, whatever their partners, their proofs and the answers of the
-- server: neither transfer raises, each posts one payment under the id of the offer with the
-- partner as its target and with the secret and hash of the proof, and takes its amount off the
-- balance at the status 200 only. The maker of an offer to buy pays the quote amount in the quote
-- token, the taker the base amount in the base token, and for an offer to sell it is the reverse.
pub initiate_exchange-swaps :
    (market : TokenPair) (o : Offer) (maker_target taker_target : ℕ)
    (maker_proof taker_proof : CommitmentProof) (status : ℕ) (c : TraderClient)
    → let side : TraderRole → ℕ → CommitmentProof → MatchData = λ role target proof. record {
      offer = o;
      trader_role = role;
      target = target;
      commitment_proof = proof;
    } in
      let b = o.basic in
      (transfer status (initiate_exchange market (side maker maker_target maker_proof)) c
        ≡ Paid
            (exchange_terms market b.type b.base_amount b.quote_amount)
            maker_target
            b.offer_id
            maker_proof
            status
            c)
      × (transfer status (initiate_exchange market (side taker taker_target taker_proof)) c
          ≡ Paid
              (expect_terms market b.type b.base_amount b.quote_amount)
              taker_target
              b.offer_id
              taker_proof
              status
              c)
initiate_exchange-swaps market o mt tt mp tp status c = (
  initiate-Paid market _ _ status c (maker-terms market o),
  initiate-Paid market _ _ status c (taker-terms market o),
)
