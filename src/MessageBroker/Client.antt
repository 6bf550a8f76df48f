-- ===== src/MessageBroker/Client.antt =====
-- `MessageBrokerClient`, `StreamingRequestTask` and `StreamingRequestIterator` of
-- raidex/raidex_node/transport/client.py: the topics that a node listens on, each with one task that
-- reads the lines of a response. The lines that the server sends are inputs.
pub mod Relisten
use raidex.Prelude.{
  ℕ, ◌+◌, ◌≡◌, ◌∙◌, ap, refl, Bool, true, false, Option, none, some, List, [], ◌∷◌, ◌++◌, ◌==◌,
  get_elem?, set, length, if◌then◌else◌, arith, get_elem?-set, get_elem?-append_one, ==-refl,
}
use raidex.Dict.{Dict, get, put, remove}
use raidex.Exec.{Exec, Result, ok, raised, value_error, other}
use raidex.MessageBroker.{Listener, deliver, remove_listener}

-- Where the greenlet of a task is: it waits for the response; it reads lines; it reads one line more,
-- since `close` only sets a flag that is tested before the next one; it has returned.
pub data Phase : Type 0 where
  requested streaming closing ended : Phase

module _ (Message Item : Type 0) where
  pub record Task : Type 0 where
    pub listeners : List (Listener Message Item)
    pub phase : Phase

  -- The client: a task is a place in `tasks`, and a listener is told by its queue.
  pub record Client : Type 0 where
    pub topic_task_map : Dict ℕ
    pub listener_task_map : Dict ℕ
    pub tasks : List Task
    pub queues : List (List Item)

  -- The end of `_listen_on`, with `create_listener` of the task
  unfoldable pub create_listener :
      ℕ → (Message → Result (Option Item)) → ℕ → Client → Listener Message Item × Client
  create_listener topic transform ref c =
      let l : Listener Message Item = record {
        topic = topic;
        queue = length c.queues;
        transform = transform;
      } in
      (
        l,
        record c {
          tasks = (elim (get_elem? c.tasks ref) [
            | none ↦ c.tasks
            | some t ↦ set c.tasks ref (record t { listeners = t.listeners ++ l ∷ [] })
          ]);
          queues = c.queues ++ [] ∷ [];
          listener_task_map = put c.listener_task_map (length c.queues) ref;
        },
      )

  -- `_listen_on`: a new task where the topic has none
  unfoldable pub listen_on_topic :
      ℕ → (Message → Result (Option Item)) → Client → Listener Message Item × Client
  unfolding create_listener
  listen_on_topic topic transform c = elim (get c.topic_task_map topic) [
    | some ref ↦ create_listener topic transform ref c
    | none ↦ create_listener topic transform (length c.tasks) (record c {
      tasks = c.tasks ++ record { listeners = []; phase = requested } ∷ [];
      topic_task_map = put c.topic_task_map topic (length c.tasks);
    })
  ]

  -- `StreamingRequestTask.stop`: there is no response to close before the first line.
  unfoldable pub stop_task : Phase → Phase
  stop_task streaming = closing
  stop_task p = p

  -- `has_listeners`, and the stop of a task that has none
  abbrev without_listener : Task → List (Listener Message Item) → Task
  without_listener t [] = record { listeners = []; phase = stop_task t.phase }
  without_listener t (l ∷ ls) = record t { listeners = l ∷ ls }

  abbrev stop_found : Option (List (Listener Message Item)) → Task → ℕ → ℕ → Exec Client (Unit {0})
  stop_found none t ref q c = (raised value_error, c)
  stop_found (some ls) t ref q c = (
    ok tt,
    record c {
      tasks = set c.tasks ref (without_listener t ls);
      listener_task_map = remove c.listener_task_map q;
    },
  )

  abbrev stop_at : Option Task → Listener Message Item → ℕ → Exec Client (Unit {0})
  stop_at none l ref c = (raised other, c)
  stop_at (some t) l ref c =
      stop_found (remove_listener Message Item l.queue t.listeners) t ref l.queue c

  -- `MessageBrokerClient.stop_listen`
  unfoldable pub stop_listening : Listener Message Item → Exec Client (Unit {0})
  unfolding stop_task remove_listener
  stop_listening l c = elim (get c.listener_task_map l.queue) [
    | none ↦ (raised other, c)
    | some ref ↦ stop_at (get_elem? c.tasks ref) l ref c
  ]

  -- The phase after a line
  unfoldable pub next_phase : Phase → Phase
  next_phase requested = streaming
  next_phase streaming = streaming
  next_phase closing = ended
  next_phase ended = ended

  -- A line that is not a keep-alive goes to the listeners that the task has.
  abbrev put_line :
      Option Message → List (Listener Message Item) → Exec (List (List Item)) (Unit {0})
  put_line none ls queues = (ok tt, queues)
  put_line (some m) ls queues = deliver Message Item m ls queues

  -- An exception of a transform ends the greenlet.
  abbrev phase_after : Result (Unit {0}) → Phase → Phase
  phase_after (raised x) p = ended
  phase_after (ok _) p = next_phase p

  abbrev read_line : Phase → Option Message → ℕ → Task → Client → Client
  read_line ended line ref t c = c
  read_line p line ref t c =
      let (r, queues) = put_line line t.listeners c.queues in
      record c { tasks = set c.tasks ref (record t { phase = phase_after r p }); queues = queues }

  -- The loop of `_run` at a line of the response of a task
  unfoldable pub receive_line : ℕ → Option Message → Client → Client
  unfolding next_phase deliver
  receive_line ref line c = elim (get_elem? c.tasks ref) [
    | none ↦ c
    | some t ↦ read_line t.phase line ref t c
  ]

  unfoldable pub receive_lines : ℕ → List (Option Message) → Client → Client
  unfolding receive_line
  receive_lines ref [] c = c
  receive_lines ref (line ∷ lines) c = receive_lines ref lines (receive_line ref line c)

  pub ended-deaf :
      (ref : ℕ) (ls : List (Listener Message Item)) (lines : List (Option Message)) (c : Client)
      → get_elem? c.tasks ref ≡ some (record { listeners = ls; phase = ended })
      → receive_lines ref lines c ≡ c
  unfolding receive_lines
  ended-deaf ref ls [] c h = refl
  ended-deaf ref ls (line ∷ lines) c h = rw (h, receive_line) (ended-deaf ref ls lines c h)
