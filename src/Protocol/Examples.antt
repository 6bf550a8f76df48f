-- ===== src/Protocol/Examples.antt =====
-- Two nodes that swap at a service that has just started.
use raidex.Prelude.{ℕ, ◌+◌, refl, true, false}
use raidex.Dict.{contains}
use raidex.CommitmentService.Step.{stepped, stepped-IsSwapMachine}
use raidex.CommitmentService.Service.{start, serve}
use raidex.Node.Offer.{BasicOffer, buy}
use raidex.Node.Outbound.Run.{Settings}
use raidex.Protocol.Inputs.{Side, commitment_from, receipt_from, PaysService, swap_inputs}
use raidex.Protocol.Swap.{IsSettled}
use raidex.Protocol.Settle.{swap_inputs-settle}

abbrev node : ℕ → Settings
node a = record {
  market = record { base_token = 1; quote_token = 2 };
  commitment_service_address = 90;
  fee_address = 91;
  node_address = a;
  hash = λ o. o.offer_id + 1000;
  time_int = λ n. 500 + n;
}

abbrev side : ℕ → Side
side a = record { node = node a; signature = 100 + a; paid_at = 40; reading = 3 }

abbrev offer : BasicOffer
offer = record { offer_id = 5; type = buy; base_amount = 10; quote_amount = 20; timeout_date = 900 }

swap_inputs-settle_example :
    IsSettled
      (λ s. s + 1)
      (commitment_from (node 7) offer 107)
      (commitment_from (node 8) offer 108)
      (receipt_from (node 7) offer 40)
      (receipt_from (node 8) offer 40)
      33
      (start 40)
      (serve
        (stepped true)
        (λ s. s + 1)
        (swap_inputs 90 offer 33 34 false (side 7) (side 8))
        (start 40))
    × PaysService 90 offer (side 7)
    × PaysService 90 offer (side 8)
unfolding start contains
swap_inputs-settle_example =
    swap_inputs-settle (λ s. s + 1) 90 offer 33 34 (side 7) (side 8) (start 40) (stepped true)
      (stepped-IsSwapMachine true) false refl refl refl
