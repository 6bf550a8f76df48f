-- ===== src/Node/Inbound/Examples.antt =====
-- Polls that answer with old and new payments, and a listener with two requests.
use raidex.Prelude.{ℕ, ◌≡◌, refl, List, [], ◌∷◌}
use raidex.Node.Order.Fsm.{RaidenEvent}
use raidex.Node.Inbound.Polling.{
  RawEvent, payment_received, other_event, poll, new_poller, times, answered, answered_by,
  poll-dispatches_once,
}
use raidex.Node.Inbound.Filters.{
  ListenerEvent, from_raiden, expect_inbound, payment_event, transfer_filter, transfer_change,
  handle_listener_events, new_listener, passes, change_of,
}
use raidex.Node.Inbound.Filters.Waiting.{
  seen_by_waiters, wait_events, wait_event, answers, handle_listener_events-refines,
}

abbrev payment : ℕ → RaidenEvent
payment i = record { initiator = 4; amount = 10; identifier = i }

abbrev polled : List (List RawEvent)
polled =
    (payment_received (payment 7) ∷ [])
    ∷ (payment_received (payment 7) ∷ other_event ∷ payment_received (payment 8) ∷ [])
    ∷ []

poll-dispatches_once_example : times (payment 7) (poll polled new_poller).dispatched ≡ 1
unfolding answered_by answered
poll-dispatches_once_example = poll-dispatches_once polled (payment 7)

abbrev heard : List ListenerEvent
heard =
    expect_inbound 4 7
    ∷ expect_inbound 4 8
    ∷ from_raiden (payment_event (payment 7))
    ∷ from_raiden (payment_event (payment 7))
    ∷ []

handle_listener_events-refines_example :
    seen_by_waiters (handle_listener_events heard new_listener)
    ≡ wait_events heard (record { requests = []; changes = [] })
handle_listener_events-refines_example = handle_listener_events-refines heard

one_change :
    wait_events heard (record { requests = []; changes = [] })
    ≡ record { requests = transfer_filter 4 8 ∷ []; changes = transfer_change (payment 7) ∷ [] }
unfolding wait_events wait_event answers passes change_of
one_change = refl
