-- ===== src/Lib.antt =====
-- raidex: a decentralised exchange over payment channels, modelled from the Python package raidex/.
--
-- The commitment service (raidex/commitment_service) takes a deposit from the maker and from the
-- taker of an offer, and returns it after the swap. The node (raidex/raidex_node) keeps the book of
-- broadcast offers, matches its user's orders with them, leads each of its own offers through its
-- states, and groups what was traded for its API. They talk by messages over a broker, and pay by
-- transfers of a raiden node.
--
-- Prelude, Dict, Exec: shared names; Python's dict as an association list in insertion order; code
-- that changes state and may raise, as a function from the state to a result and the state left.
--
-- Machine: what is assumed of the package `transitions`, whose code is not in the repository: a
-- function `fire` for the triggers and the hypothesis RunsTable on it, over the table of the source.
--
-- CommitmentService.Data: messages, receipts, refunds and the fields of SwapCommitment.
-- CommitmentService.Callbacks: the methods of SwapCommitment (swap.py) and the conditions and
-- callbacks of SwapStateMachine (swap_state_machine.py), under their names.
-- CommitmentService.Table: swap_setup_state_transitions, row by row.
-- CommitmentService.Step: the table as one function; Invariant, Escrow, Progress: what follows.
-- CommitmentService.Refunds: RefundTask (tasks.py), which pays what the service queued; Traces: what
-- becomes of each refund, also where the answer to its transfer raises.
-- CommitmentService.Service: SwapFactory and the `process` methods of tasks.py over the state of
-- node.py. Swap objects stand in a heap, since the greenlet of a timeout keeps a reference to an
-- object whose entry of the dictionary is gone. Every order of inputs is a list of inputs.
--
-- Sorted: what is assumed of SortedDict (sortedcontainers): its items after a write and a deletion.
-- Node.Offer: BasicOffer, OfferType, OfferBookEntry; floats are a parameter with a total order.
-- Node.OfferBook: OfferView and OfferBook (offer_book.py); Synced, Prices and Stale are its laws.
-- Node.Matching: match_limit (matching_algorithm.py) and the engine that calls it.
--
-- Node.Order.Fsm: Offer (order/offer.py), the machine fsm_offer (order/__init__.py) and its callbacks
-- (order/events.py); the hierarchical machine of `transitions`, with the triggers to_<state> that it
-- adds, is the hypothesis IsOfferMachine.
-- Node.Order.Lifecycle, Node.Order.Limit: runs of the machine; LimitOrder (order/limit_order.py).
-- Node.Timeouts: TimeoutHandler (raidex/utils/greenlet_helper.py).
-- Node.Manager: OfferManager, Match and DataManager over a heap of offer objects, which the manager,
-- the orders and the matches share; Handlers: handle_state_change.py; Sound, Handled and Cancel are
-- about them. Random ids and int(amount * price) are parameters. An event that is dispatched is
-- appended to a list here; Node.Outbound has the consumers.
--
-- Messages: the classes of raidex/messages.py with their names and command ids; Serial and
-- Serial.Reading: serialize and deserialize by the fields of the classes; Envelope, with rlp,
-- base64 and json as the hypothesis IsCodec; Listeners: raidex/message_broker/listeners.py,
-- TokenPair (market.py) and the messages that transport/events.py makes for offers.
-- MessageBroker: raidex/message_broker/message_broker.py, with the queues of listeners on a heap. A
-- transform may raise: a send raises then, and the greenlet of a client that reads ends.
-- Client: the tasks and listeners of the client in a node (transport/client.py).
-- The node hears of offers and of the service by the listeners, and the handlers take it from there.
-- TraderMock: Trader and the transfers of TraderClientMock (raidex/trader_mock/trader.py), with the
-- listeners of the trader in Hub.
--
-- Node.Trades: TradesView (trades.py) and the tasks of listener_tasks.py that feed it; SortedDict
-- with its irange is a parameter with the documented laws.
-- Node.Grouping: offer_grouping.py. Upsert: the loops that collect items under a key in a dict;
-- Offers: group_offers; Times: find_time_bin and time_bin_gen; Bins: PriceBin and make_price_bins,
-- which ask Node.Trades for the trades of an interval; TradeGroups: group_trades with its chunk size.
-- Decimals are a parameter; quantize raises for the floats that it does not list as fitting.
-- Node.Inbound: what comes from the raiden node (trader/listener). Polling: the payments that a poll
-- has not seen before; Filters: the listener, the filters that wait for a payment or for a status of
-- the channels, and the state changes that they give the node.
-- Node.Outbound: what a node does about the events that it dispatches. Events: _dispatch and the
-- queues of the four consumers (architecture/event_architecture.py, app.py); Trading: TraderClient
-- (trader/client.py); Run: the client of the commitment service, the transport and the turns of the
-- consumers in any order. The answer of a server is the status code that a call is given.
--
-- Protocol: the node and the service together. Inputs: what the listeners of the service, on the
-- topic of its address, and its trader take of the events of Node.Outbound; Follow: one swap object in step with the service, trigger by trigger;
-- Swap and Settle: a swap that two nodes carry out, from the first commitment to the refunds.
--
-- Loops over collections are recursions on lists, so no fuel is used anywhere; the consumers of the
-- events run for a number of rounds that is an argument. An event of the client of the commitment
-- service becomes two others at most, so three turns for each of its events are enough.
-- Amounts, addresses, ids and times are natural numbers of any size. Printing and logging are left
-- out.
--
-- Not modelled: the HTTP requests and servers, signatures and RLP, command line and
-- configuration, the bots, the resources of the API and the web interface; the mock of the
-- commitment service.
pub mod CommitmentService
pub mod Dict
pub mod Exec
pub mod Machine
pub mod MessageBroker
pub mod Messages
pub mod Node
pub mod Prelude
pub mod Protocol
pub mod Sorted
pub mod TraderMock
