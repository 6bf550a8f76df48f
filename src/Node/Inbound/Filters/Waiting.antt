-- ===== src/Node/Inbound/Filters/Waiting.antt =====
-- A listener as those who wait for its events see it: the requests that wait, without the identity
-- of the filters, and the state changes that were made.
use raidex.Prelude.{
  ℕ, ◌+◌, ◌<◌, ◌≡◌, ◌∙◌, ap, sym, refl, Bool, not, List, [], ◌∷◌, ◌++◌, keep, map, if◌then◌else◌,
  arith, Bool-cases, inl, inr, All, All-append, All-weaken, All-both,
}
use raidex.Node.Inbound.Filters.{
  EventFilter, transfer_filter, channel_filter, ListenedEvent, ListenerChange, passes, change_of,
  filter_process, Tagged, Listener, remove_tag, rounds, new_raiden_event, add_event_filter,
  ListenerEvent, from_raiden, expect_inbound, filter_channels, handle_listener_event,
  handle_listener_events, new_listener,
}

pub record Waiting : Type 0 where
  pub requests : List EventFilter
  pub changes : List ListenerChange

-- One state change for each request that an event meets
unfoldable pub answers : ListenedEvent → List EventFilter → List ListenerChange
answers e [] = []
answers e (f ∷ fs) = let rest = answers e fs in if passes f e then change_of e ∷ rest else rest

abbrev misses : ListenedEvent → EventFilter → Bool
misses e f = not (passes f e)

abbrev await : EventFilter → Waiting → Waiting
await f w = record w { requests = w.requests ++ f ∷ [] }

-- What an event does: those from Raiden answer the requests that they meet, and these wait no more.
unfoldable pub wait_event : ListenerEvent → Waiting → Waiting
unfolding answers
wait_event (from_raiden e) w = record {
  requests = keep (misses e) w.requests;
  changes = w.changes ++ answers e w.requests;
}
wait_event (expect_inbound i j) w = await (transfer_filter i j) w
wait_event (filter_channels d) w = await (channel_filter d) w

unfoldable pub wait_events : List ListenerEvent → Waiting → Waiting
wait_events [] w = w
wait_events (e ∷ es) w = wait_events es (wait_event e w)

unfoldable pub seen_by_waiters : Listener → Waiting
seen_by_waiters l = record {
  requests = map (λ f. f.event_filter) l.event_filters;
  changes = l.changes;
}

-- The tags rise, and are below the next one.
abbrev Below : ℕ → List Tagged → Type 0
Below n = All (λ f. f.tag < n)

abbrev Rising : List Tagged → Type 0
Rising [] = Unit
Rising (f ∷ fs) = All (λ g. f.tag < g.tag) fs × Rising fs

record IsTagged (l : Listener) : Type 0 where
  rising : Rising l.event_filters
  below : Below l.tags_made l.event_filters

All-keep :
    (P : Tagged → Type 0) (p : Tagged → Bool) (fs : List Tagged) → All P fs → All P (keep p fs)
All-keep P p [] h = tt
All-keep P p (f ∷ fs) h = elim (Bool-cases (p f)) [
  | inl e ↦ rw e (h.0, All-keep P p fs h.1)
  | inr e ↦ rw e (All-keep P p fs h.1)
]

Rising-keep : (p : Tagged → Bool) (fs : List Tagged) → Rising fs → Rising (keep p fs)
Rising-keep p [] h = tt
Rising-keep p (f ∷ fs) h = elim (Bool-cases (p f)) [
  | inl e ↦ rw e (All-keep (λ g. f.tag < g.tag) p fs h.0, Rising-keep p fs h.1)
  | inr e ↦ rw e (Rising-keep p fs h.1)
]

Rising-append_one :
    (fs : List Tagged) (g : Tagged) → Rising fs → Below g.tag fs → Rising (fs ++ g ∷ [])
Rising-append_one [] g h b = (tt, tt)
Rising-append_one (f ∷ fs) g h b =
    (All-append (λ x. f.tag < x.tag) fs (g ∷ []) h.0 (b.0, tt), Rising-append_one fs g h.1 b.1)

remove_tag-append :
    (pre : List Tagged) (f : Tagged) (fs : List Tagged)
    → Below f.tag pre
    → remove_tag f.tag (pre ++ f ∷ fs) ≡ pre ++ fs
unfolding remove_tag
remove_tag-append [] f fs b = ground arith
remove_tag-append (g ∷ pre) f fs b = ground (arith, b.0, remove_tag-append pre f fs b.1)

append_nil {ℓ} : {A : Type ℓ} (xs : List A) → xs ++ [] ≡ xs
append_nil [] = refl
append_nil (x ∷ xs) = ground (arith, append_nil xs)

append_assoc {ℓ} : {A : Type ℓ} (xs ys zs : List A) → (xs ++ ys) ++ zs ≡ xs ++ (ys ++ zs)
append_assoc [] ys zs = refl
append_assoc (x ∷ xs) ys zs = ground (arith, append_assoc xs ys zs)

abbrev left : ListenedEvent → List Tagged → List Tagged
left e fs = keep (λ f. misses e f.event_filter) fs

abbrev rest_of : ListenedEvent → List Tagged → List ListenerChange
unfolding answers
rest_of e fs = answers e (map (λ f. f.event_filter) fs)

rounds-eq :
    (e : ListenedEvent) (pre fs : List Tagged) (cs : List ListenerChange)
    → Rising fs
    → All (λ f. Below f.tag pre) fs
    → rounds fs e (pre ++ fs, cs)
      ≡ (pre ++ left e fs, cs ++ answers e (map (λ f. f.event_filter) fs))
unfolding rounds answers filter_process
rounds-eq e pre [] cs h b = rw (append_nil cs) refl
rounds-eq e pre (f ∷ fs) cs h b = elim (Bool-cases (passes f.event_filter e)) [
  | inl p ↦
      rw (p, remove_tag-append pre f fs b.0)
        (rounds-eq e pre fs (cs ++ change_of e ∷ []) h.1 b.1
          ∙ ap (λ x. (pre ++ left e fs, x)) (append_assoc cs (change_of e ∷ []) (rest_of e fs)))
  | inr p ↦ rw p (
      ap (λ x. rounds fs e (x, cs)) (sym (append_assoc pre (f ∷ []) fs))
      ∙ rounds-eq e (pre ++ f ∷ []) fs cs h.1 (
          All-both (λ g. f.tag < g.tag) (λ g. Below g.tag pre) (λ g. Below g.tag (pre ++ f ∷ [])) fs
            (λ g l bg. All-append (λ x. x.tag < g.tag) pre (f ∷ []) bg (l, tt)) h.0 b.1)
      ∙ ap (λ x. (x, cs ++ rest_of e fs)) (append_assoc pre (f ∷ []) (left e fs)))
]

map-left :
    (e : ListenedEvent) (fs : List Tagged)
    → map (λ f. f.event_filter) (left e fs) ≡ keep (misses e) (map (λ f. f.event_filter) fs)
map-left e [] = refl
map-left e (f ∷ fs) = ground (arith, map-left e fs)

map-append_one :
    (fs : List Tagged) (f : Tagged)
    → map (λ g. g.event_filter) (fs ++ f ∷ []) ≡ map (λ g. g.event_filter) fs ++ f.event_filter ∷ []
map-append_one [] f = refl
map-append_one (g ∷ fs) f = ground (arith, map-append_one fs f)

nothing_before : (fs : List Tagged) → All (λ f. Below f.tag []) fs
nothing_before [] = tt
nothing_before (f ∷ fs) = (tt, nothing_before fs)

-- One event: the tags stay in order, and the waiters see what the abstract step does.
record Steps (e : ListenerEvent) (l : Listener) : Type 0 where
  tagged : IsTagged (handle_listener_event e l)
  seen : seen_by_waiters (handle_listener_event e l) ≡ wait_event e (seen_by_waiters l)

add-Steps :
    (f : EventFilter) (l : Listener)
    → IsTagged l
    → IsTagged (add_event_filter f l)
      × (seen_by_waiters (add_event_filter f l) ≡ await f (seen_by_waiters l))
unfolding add_event_filter seen_by_waiters
add-Steps f l h =
    let x : Tagged = record { tag = l.tags_made; event_filter = f } in
    (
      record {
        rising = Rising-append_one l.event_filters x h.rising h.below;
        below =
            All-append (λ g. g.tag < l.tags_made + 1) l.event_filters (x ∷ [])
              (All-weaken (λ g. g.tag < l.tags_made) (λ g. g.tag < l.tags_made + 1) l.event_filters
                (λ g b. omega arith) h.below)
              (omega arith, tt);
      },
      ap (λ r. record { requests = r; changes = l.changes }) (map-append_one l.event_filters x),
    )

event-Steps : (e : ListenerEvent) (l : Listener) → IsTagged l → Steps e l
unfolding handle_listener_event wait_event new_raiden_event seen_by_waiters
event-Steps (expect_inbound i j) l h =
    let r = add-Steps (transfer_filter i j) l h in record { tagged = r.0; seen = r.1 }
event-Steps (filter_channels d) l h =
    let r = add-Steps (channel_filter d) l h in record { tagged = r.0; seen = r.1 }
event-Steps (from_raiden e) l h =
    let done = rounds-eq e [] l.event_filters [] h.rising (nothing_before l.event_filters) in
    record {
      tagged = rw (done) (record {
        rising = Rising-keep (λ f. misses e f.event_filter) l.event_filters h.rising;
        below =
            All-keep (λ f. f.tag < l.tags_made) (λ f. misses e f.event_filter) l.event_filters
              h.below;
      });
      seen = rw (done, map-left e l.event_filters) refl;
    }

events-refine :
    (es : List ListenerEvent) (l : Listener)
    → IsTagged l
    → seen_by_waiters (handle_listener_events es l) ≡ wait_events es (seen_by_waiters l)
unfolding handle_listener_events wait_events
events-refine [] l h = refl
events-refine (e ∷ es) l h =
    let s = event-Steps e l h in
    events-refine es (handle_listener_event e l) s.tagged ∙ ap (wait_events es) s.seen

-- A listener, whose loop removes filters by identity from a list while it goes through a copy of it,
-- behaves over any events in any order as the requests that wait: each event from Raiden makes one
-- state change for every request that it meets, in the order of the requests, these requests wait
-- no more, and all others go on waiting.
pub handle_listener_events-refines :
    (es : List ListenerEvent)
    → seen_by_waiters (handle_listener_events es new_listener)
      ≡ wait_events es (record { requests = []; changes = [] })
unfolding new_listener seen_by_waiters
handle_listener_events-refines es =
    events-refine es new_listener (record { rising = tt; below = tt })
