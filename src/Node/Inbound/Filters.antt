-- ===== src/Node/Inbound/Filters.antt =====
-- `RaidenListener` (raiden_listener.py), its filters (filter.py, architecture/filter.py), the
-- handler of its events (handle_events.py) and `RaidenInfo` (raidex/raidex_node/trader).
pub mod Waiting
use raidex.Prelude.{
  ℕ, ◌+◌, ◌≡◌, ◌∙◌, ap, refl, Bool, true, false, not, Option, none, some, List, [], ◌∷◌, ◌++◌, ◌==◌,
  ◌&&◌, keep, if◌then◌else◌, arith, Bool-cases, inl, inr,
}
use raidex.Node.Order.Fsm.{RaidenEvent}

-- The filters: `TransferReceivedFilter` and `ChannelFilter`, with the data of the channels
pub data EventFilter : Type 0 where
  transfer_filter : (initiator identifier : ℕ) → EventFilter
  channel_filter : ℕ → EventFilter

-- The events that come from Raiden: `PaymentReceivedEvent` and `ChannelStatusRaidenEvent`
pub data ListenedEvent : Type 0 where
  payment_event : RaidenEvent → ListenedEvent
  channel_event : ℕ → ListenedEvent

-- What the filters make of them
pub data ListenerChange : Type 0 where
  transfer_change : RaidenEvent → ListenerChange
  channel_change : ℕ → ListenerChange

-- `_filter` of each class
unfoldable pub passes : EventFilter → ListenedEvent → Bool
passes (transfer_filter i j) (payment_event e) = e.initiator == i && e.identifier == j
passes (transfer_filter i j) (channel_event c) = false
passes (channel_filter d) (payment_event e) = false
passes (channel_filter d) (channel_event c) = true

-- `_transform`
unfoldable pub change_of : ListenedEvent → ListenerChange
change_of (payment_event e) = transfer_change e
change_of (channel_event c) = channel_change c

-- `Filter.process`
unfoldable pub filter_process : EventFilter → ListenedEvent → Option ListenerChange
unfolding passes change_of
filter_process f e = if passes f e then some (change_of e) else none

-- `list.remove` compares filters by identity: each stands here with a number of its own.
pub record Tagged : Type 0 where
  pub tag : ℕ
  pub event_filter : EventFilter

pub record Listener : Type 0 where
  pub event_filters : List Tagged
  pub tags_made : ℕ
  pub changes : List ListenerChange

unfoldable pub remove_tag : ℕ → List Tagged → List Tagged
remove_tag n [] = []
remove_tag n (f ∷ fs) = if f.tag == n then fs else f ∷ remove_tag n fs

-- One round of the loop of `new_raiden_event`, by what the filter makes of the event: the filters
-- left, and the state changes
abbrev round :
    Option ListenerChange
    → ℕ
    → List Tagged × List ListenerChange
    → List Tagged × List ListenerChange
round none n s = s
round (some c) n (fs, cs) = (remove_tag n fs, cs ++ c ∷ [])

unfoldable pub rounds :
    List Tagged
    → ListenedEvent
    → List Tagged × List ListenerChange
    → List Tagged × List ListenerChange
unfolding filter_process remove_tag
rounds [] e s = s
rounds (f ∷ fs) e s = rounds fs e (round (filter_process f.event_filter e) f.tag s)

-- `new_raiden_event`, over a copy of the list
unfoldable pub new_raiden_event : ListenedEvent → Listener → Listener
unfolding rounds
new_raiden_event e l =
    let (fs, cs) = rounds l.event_filters e (l.event_filters, []) in
    record l { event_filters = fs; changes = l.changes ++ cs }

-- `add_event_filter`
unfoldable pub add_event_filter : EventFilter → Listener → Listener
add_event_filter f l = record l {
  event_filters = l.event_filters ++ record { tag = l.tags_made; event_filter = f } ∷ [];
  tags_made = l.tags_made + 1;
}

-- The events that the listener handles, which are those of Raiden and two requests
pub data ListenerEvent : Type 0 where
  from_raiden : ListenedEvent → ListenerEvent
  expect_inbound : (initiator identifier : ℕ) → ListenerEvent
  filter_channels : ℕ → ListenerEvent

-- `handle_event`
unfoldable pub handle_listener_event : ListenerEvent → Listener → Listener
unfolding new_raiden_event add_event_filter
handle_listener_event (from_raiden e) = new_raiden_event e
handle_listener_event (expect_inbound i j) = add_event_filter (transfer_filter i j)
handle_listener_event (filter_channels d) = add_event_filter (channel_filter d)

unfoldable pub handle_listener_events : List ListenerEvent → Listener → Listener
unfolding handle_listener_event
handle_listener_events [] l = l
handle_listener_events (e ∷ es) l = handle_listener_events es (handle_listener_event e l)

unfoldable pub new_listener : Listener
new_listener = record { event_filters = []; tags_made = 0; changes = [] }

-- `RaidenInfo.set_channels`, which asks for the next status of the channels
pub record RaidenInfo : Type 0 where
  pub channels : ℕ
  pub dispatched : List ListenerEvent

unfoldable pub set_channels : ℕ → RaidenInfo → RaidenInfo
set_channels raw info = record {
  channels = raw;
  dispatched = info.dispatched ++ filter_channels raw ∷ [];
}
