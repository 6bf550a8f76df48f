-- ===== src/MessageBroker/Client/Relisten.antt =====
-- A topic on which a client (raidex/raidex_node/transport/client.py) stopped to listen and listens
-- again.
use raidex.Prelude.{
  ℕ, ◌≡◌, ◌∙◌, refl, Option, none, some, List, [], ◌∷◌, get_elem?, set, length, get_elem?-set,
  get_elem?-append_one, ==-refl,
}
use raidex.Dict.{get, remove}
use raidex.Exec.{Result, ok}
use raidex.MessageBroker.{Listener, deliver, remove_listener}
use raidex.MessageBroker.Client.{
  Phase, streaming, closing, ended, Task, Client, create_listener, listen_on_topic, stop_task,
  stop_listening, next_phase, receive_line, receive_lines, ended-deaf,
}

module _ (Message Item : Type 0) where
  abbrev Lines : Type 0
  Lines = List (Option Message)

  abbrev idle_task : Phase → Task Message Item
  idle_task p = record { listeners = []; phase = p }

  get-set :
      (ts : List (Task Message Item)) (ref : ℕ) (t u : Task Message Item)
      → get_elem? ts ref ≡ some t
      → get_elem? (set ts ref u) ref ≡ some u
  get-set ts ref t u h = get_elem?-set ts ref ref u h ∙ rw (==-refl ref) refl

  module _ (c : Client Message Item) (topic ref : ℕ) (l : Listener Message Item)
      (transform : Message → Result (Option Item)) where
    abbrev stopped_client : Client Message Item
    stopped_client = record c {
      tasks = set c.tasks ref (idle_task closing);
      listener_task_map = remove c.listener_task_map l.queue;
    }

    stops :
        get c.listener_task_map l.queue ≡ some ref
        → get_elem? c.tasks ref ≡ some (record { listeners = l ∷ []; phase = streaming })
        → stop_listening Message Item l c ≡ (ok tt, stopped_client)
    unfolding remove_listener stop_task stop_listening remove
    stops m t = rw (m, stop_listening, t, ==-refl l.queue) refl

    abbrev ended_client : Client Message Item
    ended_client = record stopped_client { tasks = set stopped_client.tasks ref (idle_task ended) }

    ends :
        (line : Option Message)
        → get_elem? stopped_client.tasks ref ≡ some (idle_task closing)
        → receive_line Message Item ref line stopped_client ≡ ended_client
    unfolding next_phase deliver receive_line remove
    ends none t = rw (t, receive_line) refl
    ends (some m) t = rw (t, receive_line) refl

    abbrev again : Listener Message Item × Client Message Item
    again = create_listener Message Item topic transform ref ended_client

    again-ended :
        get_elem? ended_client.tasks ref ≡ some (idle_task ended)
        → get_elem? again.1.tasks ref ≡ some (record { listeners = again.0 ∷ []; phase = ended })
    unfolding create_listener
    again-ended t = rw (t, create_listener) (get-set ended_client.tasks ref (idle_task ended) _ t)

    again-empty : get_elem? again.1.queues again.0.queue ≡ some []
    unfolding create_listener
    again-empty =
        get_elem?-append_one c.queues [] (length c.queues) ∙ rw (==-refl (length c.queues)) refl

    deaf :
        (lines : Lines)
        → get_elem? ended_client.tasks ref ≡ some (idle_task ended)
        → get_elem? (receive_lines Message Item ref lines again.1).queues again.0.queue ≡ some []
    deaf lines t =
        rw (ended-deaf Message Item ref (again.0 ∷ []) lines again.1 (again-ended t)) again-empty

    listens_again :
        get c.topic_task_map topic ≡ some ref
        → listen_on_topic Message Item topic transform ended_client ≡ again
    unfolding listen_on_topic
    listens_again m = rw (m, listen_on_topic) refl

    -- A client whose task on a topic reads lines for one listener only: that listener stops without
    -- an exception, one more line comes, of any kind, and the client listens on the topic again.
    -- Whatever lines then come, the queue of the new listener stays empty.
    pub relisten_is_deaf :
        (line : Option Message) (lines : Lines)
        → get c.topic_task_map topic ≡ some ref
        → get c.listener_task_map l.queue ≡ some ref
        → get_elem? c.tasks ref ≡ some (record { listeners = l ∷ []; phase = streaming })
        → let (r, stopped) = stop_listening Message Item l c in
          let (again, heard) =
            listen_on_topic Message Item topic transform
              (receive_line Message Item ref line stopped) in
          (r ≡ ok tt)
          × (get_elem? (receive_lines Message Item ref lines heard).queues again.queue ≡ some [])
    relisten_is_deaf line lines m q t =
        let t1 = get-set c.tasks ref _ (idle_task closing) t in
        let t2 = get-set stopped_client.tasks ref _ (idle_task ended) t1 in
        rw (stops q t, ends line t1, listens_again m) (refl, deaf lines t2)
