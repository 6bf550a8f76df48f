-- ===== src/Protocol/Settle.antt =====
-- A whole swap: the commitments and the reports of two nodes (raidex/raidex_node/
-- commitment_service/client.py) at the commitment service (raidex/commitment_service/tasks.py).
use raidex.Prelude.{
  ℕ, ◌≡◌, sym, subst, fun_ext, refl, Bool, true, false, [], ◌∷◌, ==-refl, inl, inr,
}
use raidex.Dict.{contains}
use raidex.Exec.{Exec}
use raidex.CommitmentService.Data.{Commitment, SwapExecution, TransferReceipt, World, Event}
use raidex.CommitmentService.Callbacks.{is_maker, is_taker, maker_address, taker_address, sender_of}
use raidex.CommitmentService.Table.{IsSwapMachine}
use raidex.CommitmentService.Step.{stepped, fire-eq-step}
use raidex.CommitmentService.Service.{
  Service, process_transfer, process_execution, process, serve, commitment, transfer, execution,
}
use raidex.Messages.Listeners.{create_offer_msg, commitment_message}
use raidex.Node.Offer.{BasicOffer}
use raidex.Node.Outbound.Trading.{trader_handle_event, transfer_async}
use raidex.Node.Outbound.Run.{transport_handle_event, commit_events, received_inbound_from_swap}
use raidex.Protocol.Inputs.{
  taken_from, heard, receipts, transfers_of, arrivals, commitment_from, receipt_from, Side, commits,
  reports, PaysService, swap_inputs,
}
use raidex.Protocol.Swap.{IsSettled, executed-IsSettled, fourth-Tracks}

module _ (keccak : ℕ → ℕ) (service : ℕ) (o : BasicOffer) (secret other : ℕ) (maker taker : Side)
    (sv : Service) where
  abbrev Settled : Service → Type 0
  Settled =
      IsSettled keccak (commitment_from maker.node o maker.signature)
        (commitment_from taker.node o taker.signature) (receipt_from maker.node o maker.paid_at)
        (receipt_from taker.node o taker.paid_at) secret sv

  abbrev cm : Commitment
  cm = commitment_from maker.node o maker.signature

  abbrev ct : Commitment
  ct = commitment_from taker.node o taker.signature

  abbrev rm : TransferReceipt
  rm = receipt_from maker.node o maker.paid_at

  abbrev rt : TransferReceipt
  rt = receipt_from taker.node o taker.paid_at

  report : Side → SwapExecution
  report p = record {
    offer_id = o.offer_id;
    timestamp = p.node.time_int p.reading;
    sender = p.node.node_address;
  }

  pays_service : (p : Side) → p.node.commitment_service_address ≡ service → PaysService service o p
  unfolding transfers_of commit_events trader_handle_event
  pays_service p h = rw h refl

  commits-eq :
      (n : ℕ) (p : Side)
      → p.node.commitment_service_address ≡ service
      → commits service o n p
        ≡ commitment (commitment_from p.node o p.signature) n
          ∷ transfer (receipt_from p.node o p.paid_at)
          ∷ []
  unfolding commits arrivals heard taken_from receipts commit_events transport_handle_event
      trader_handle_event transfer_async commitment_message create_offer_msg
  commits-eq n p h = rw (h, ==-refl service) refl

  reports-eq :
      (p : Side)
      → p.node.commitment_service_address ≡ service
      → reports service o p ≡ execution (report p) ∷ []
  unfolding reports arrivals heard taken_from received_inbound_from_swap transport_handle_event
      report
  reports-eq p h = rw (h, ==-refl service) refl

  stepped-settles :
      (maker_first : Bool)
      → contains sv.swaps o.offer_id ≡ false
      → maker.node.commitment_service_address ≡ service
      → taker.node.commitment_service_address ≡ service
      → Settled (
          serve
            (stepped true)
            keccak
            (swap_inputs service o secret other maker_first maker taker)
            sv)
  unfolding serve process process_transfer process_execution swap_inputs report is_maker is_taker
      maker_address taker_address sender_of
  stepped-settles true h m t =
      rw
        (
          commits-eq secret maker m,
          commits-eq other taker t,
          reports-eq maker m,
          reports-eq taker t,
        )
        (executed-IsSettled keccak cm ct rm rt secret sv (report maker) (report taker) _ h
          (fourth-Tracks keccak cm ct rm rt secret sv other h refl refl refl)
          (inl (==-refl maker.node.node_address, ==-refl taker.node.node_address)))
  stepped-settles false h m t =
      rw
        (
          commits-eq secret maker m,
          commits-eq other taker t,
          reports-eq maker m,
          reports-eq taker t,
        )
        (executed-IsSettled keccak cm ct rm rt secret sv (report taker) (report maker) _ h
          (fourth-Tracks keccak cm ct rm rt secret sv other h refl refl refl)
          (inr (==-refl taker.node.node_address, ==-refl maker.node.node_address)))

  -- Two nodes that know the address of the service commit to one offer, the maker first, pay, and
  -- then report the swap in either order, at a service that has no swap of this offer and hears the
  -- messages on its address and gets the transfers to its address: the service sends the maker its
  -- proof, broadcasts that the offer is taken, sends the taker its proof, and broadcasts that the
  -- swap is completed, in this order; it queues the refunds of both transfers with the fee claimed;
  -- nothing else is sent or refunded, and the entries of its dictionary are as before. Each node
  -- makes one transfer when it commits: of the commitment amount, in the token of the fees, to the
  -- service, for the offer.
  pub swap_inputs-settle :
      (fire : Event → Exec World Bool)
      → IsSwapMachine true fire
      → (maker_first : Bool) → contains sv.swaps o.offer_id ≡ false
      → maker.node.commitment_service_address ≡ service
      → taker.node.commitment_service_address ≡ service
      → Settled (serve fire keccak (swap_inputs service o secret other maker_first maker taker) sv)
        × PaysService service o maker
        × PaysService service o taker
  unfolding stepped
  swap_inputs-settle fire machine maker_first h m t = (
    subst
        (λ f.
          Settled (serve f keccak (swap_inputs service o secret other maker_first maker taker) sv))
        (sym (fun_ext (λ e. fun_ext (λ w. fire-eq-step true fire machine e w))))
        (stepped-settles maker_first h m t),
    pays_service maker m,
    pays_service taker t,
  )
