-- ===== src/MessageBroker/Examples.antt =====
-- A broker with two listeners on one topic.
use raidex.Prelude.{ℕ, ◌≡◌, refl, some, none, [], ◌∷◌, arith, ltb, get_elem?, ◌==◌, if◌then◌else◌}
use raidex.Dict
use raidex.Exec.{ok, raised, assertion_error}
use raidex.MessageBroker.Client.{
  Client, streaming, listen_on_topic, stop_listening, receive_line, receive_lines,
}
use raidex.MessageBroker.Client.Relisten.{relisten_is_deaf}
use raidex.MessageBroker.{
  Listener, Broker, listeners_on, SendDelivers, deliver, send, listen_on, stop_listen,
  send-Delivers, stop_listen-listen_on,
}

abbrev small_only : Listener ℕ ℕ
small_only = record {
  topic = 5;
  queue = 0;
  transform =
      λ m. if m == 0 then raised assertion_error else if ltb m 10 then ok (some m) else ok none;
}

abbrev all_of_it : Listener ℕ ℕ
all_of_it = record { topic = 5; queue = 1; transform = λ m. ok (some m) }

abbrev broker : Broker ℕ ℕ
broker = record {
  listeners = (5, small_only ∷ all_of_it ∷ []) ∷ [];
  queues = (1 ∷ []) ∷ (2 ∷ []) ∷ [];
}

send-Delivers_example :
    SendDelivers ℕ ℕ 30 (small_only ∷ all_of_it ∷ []) broker 1 (2 ∷ []) (send ℕ ℕ 5 30 broker)
unfolding listeners_on Dict.get
send-Delivers_example = send-Delivers ℕ ℕ 5 30 broker 1 (2 ∷ []) refl

-- The first listener raises at 0, and the second gets nothing.
send_raises : send ℕ ℕ 5 0 broker ≡ (raised assertion_error, broker)
unfolding send deliver listeners_on Dict.get
send_raises = refl

stop_listen-listen_on_example :
    ((stop_listen ℕ ℕ
        (listen_on ℕ ℕ 5 (λ m. ok (some m)) broker).0
        (listen_on ℕ ℕ 5 (λ m. ok (some m)) broker).1).0
      ≡ ok tt)
    × (listeners_on ℕ ℕ 5
          (stop_listen ℕ ℕ
            (listen_on ℕ ℕ 5 (λ m. ok (some m)) broker).0
            (listen_on ℕ ℕ 5 (λ m. ok (some m)) broker).1).1
        ≡ listeners_on ℕ ℕ 5 broker)
unfolding listeners_on Dict.get
stop_listen-listen_on_example =
    stop_listen-listen_on ℕ ℕ 5 5 (λ m. ok (some m)) broker (ground arith, (ground arith, tt))

abbrev first_listener : Listener ℕ ℕ
first_listener = record { topic = 4; queue = 0; transform = λ m. ok (some m) }

-- A client that listens on the topic 4 alone
abbrev reading_client : Client ℕ ℕ
reading_client = record {
  topic_task_map = (4, 0) ∷ [];
  listener_task_map = (0, 0) ∷ [];
  tasks = record { listeners = first_listener ∷ []; phase = streaming } ∷ [];
  queues = [] ∷ [];
}

relisten_is_deaf_example :
    let (r, stopped) = stop_listening ℕ ℕ first_listener reading_client in
    let (again, heard) =
      listen_on_topic ℕ ℕ 4 (λ m. ok (some m)) (receive_line ℕ ℕ 0 none stopped) in
    (r ≡ ok tt)
    × (get_elem? (receive_lines ℕ ℕ 0 (some 7 ∷ some 8 ∷ []) heard).queues again.queue ≡ some [])
unfolding Dict.get
relisten_is_deaf_example =
    relisten_is_deaf ℕ ℕ reading_client 4 0 first_listener (λ m. ok (some m)) none
      (some 7 ∷ some 8 ∷ []) refl refl refl
