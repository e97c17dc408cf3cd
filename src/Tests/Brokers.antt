-- ===== src/Tests/Brokers.antt =====
-- Runs of the RabbitMQ calls (mq.go) on small brokers, which know of one queue or exchange whether
-- it is there.
use wmq.Common.{
  suc, ℕ, ◌+◌, ◌≤◌, ◌≡◌, refl, Bool, true, false, Option, none, some, List, [], ◌∷◌, Text, text, ok,
  get_elem?,
}
use wmq.Pool.{get, get_loop, put}
use wmq.Mq.{
  Amqp, Mq, pool_config, make_channel, channel_is_active, channel_pool_config, get_mq_channel,
}
use wmq.Mq.Calls.{no_queue, queue_declare}
use wmq.Mq.Keeps.{KeepsServing}
use wmq.Mq.Attempts.{Counts, queue_declare-attempts}
use wmq.Mq.Declares.{AlwaysChannel, queue_declare-hides_refusal}
use wmq.Registry.{Message, Consumer, get_consumer_key}
use wmq.Registry.Backend.{State}
use wmq.Registry.Operations.{init_messages}
use wmq.Registry.Broker.{Outside, mq_backend, Willing}
use wmq.Manager.Connect.{Consuming, connect, ConnectOutcome, connect-Returns}
use wmq.Manager.{System, initial}
use wmq.Manager.Served.{update_alone, HasWorker, IsReady, initial-IsReady}
use wmq.Manager.Served.Start.{init_messages-Served}
use wmq.Tests.Registries.{a_consumer, orders, bills}

-- A broker that answers a declaration with an error or none, after which the thing is there or not.
abbrev broker : Option Text → Bool → Amqp Bool ℕ ℕ
broker answer there = record {
  dial_config = λ b. (ok 1, b);
  open_channel = λ c b. (ok 1, b);
  close_connection = λ c b. b;
  close_channel = λ ch b. b;
  nil_channel = 0;
  is_nil = λ ch. false;
  tx = λ ch b. (none, b);
  tx_commit = λ ch b. b;
  queue_declare = λ ch name durable auto_delete b. (no_queue, answer, there);
  queue_delete = λ ch name b. (none, false);
  exchange_declare = λ ch name kind durable auto_delete b. (answer, there);
  exchange_delete = λ ch name b. (none, false);
  queue_bind = λ ch queue key exchange b. (none, b);
  publish = λ ch exchange key body b. (none, b);
}

abbrev refusing : Amqp Bool ℕ ℕ
refusing = broker (some (text "refused")) false

abbrev accepting : Amqp Bool ℕ ℕ
accepting = broker none true

broker-AlwaysChannel : (answer : Option Text) (there : Bool) → AlwaysChannel (broker answer there)
unfolding get_mq_channel channel_pool_config make_channel channel_is_active pool_config get get_loop
    put
broker-AlwaysChannel answer there s =
    channel s.channel_pools.conns s.pools.conns s.channel_pools.capacity s.pools.capacity s.broker
  where
    channel :
        (channels conns : List ℕ) (m n : ℕ) (b : Bool)
        → (get_mq_channel (broker answer there) (record {
          pools = record { conns = conns; capacity = n };
          channel_pools = record { conns = channels; capacity = m };
          broker = b;
        })).0.1
          ≡ none
    channel [] [] m n b = refl
    channel [] (c ∷ conns) m n b = refl
    channel (ch ∷ channels) conns m n b = refl

broker-KeepsServing :
    (answer : Option Text) (there b : Bool) → KeepsServing (λ x. x ≡ b) (broker answer there)
broker-KeepsServing answer there b = record {
  dial = λ x h. h;
  open_channel = λ c x h. h;
  close_connection = λ c x h. h;
  close_channel = λ ch x h. h;
  tx = λ ch x h. h;
  tx_commit = λ ch x h. h;
}

abbrev no_pools : Mq Bool ℕ ℕ
no_pools = record {
  pools = record { conns = []; capacity = 300 };
  channel_pools = record { conns = []; capacity = 1000 };
  broker = false;
}

queue_declare-hides_refusal_example :
    ((queue_declare refusing (text "wmq.") (text "q") true no_pools).0.1 ≡ none)
    × ((queue_declare refusing (text "wmq.") (text "q") true no_pools).1.broker ≡ false)
queue_declare-hides_refusal_example =
    queue_declare-hides_refusal refusing (text "wmq.") {P = λ b. b ≡ false} (text "q") true
      (broker-AlwaysChannel (some (text "refused")) false)
      (broker-KeepsServing (some (text "refused")) false false)
      (record {
        refused = λ ch b h. ((text "refused", refl), refl);
        deleted = λ ch b h. (refl, refl);
      })
      no_pools refl

abbrev manager_answers : Text → Consumer → Message → ℕ → Text × ℕ
manager_answers action c m n = (text "completed", suc n)

abbrev at_start : State (Outside Bool ℕ ℕ ℕ)
at_start = record { messages = orders ∷ bills ∷ []; world = record { mq = no_pools; manager = 0 } }

accepting-Willing : Willing accepting
accepting-Willing = record {
  declares_queues = λ ch name durable auto_delete b. refl;
  declares_exchanges = λ ch name kind durable auto_delete b. refl;
  binds = λ ch queue key exchange b. refl;
}

-- A broker that counts the declarations and refuses them all.
abbrev asked : Amqp ℕ ℕ ℕ
asked = record {
  dial_config = λ b. (ok 1, b);
  open_channel = λ c b. (ok 1, b);
  close_connection = λ c b. b;
  close_channel = λ ch b. b;
  nil_channel = 0;
  is_nil = λ ch. false;
  tx = λ ch b. (none, b);
  tx_commit = λ ch b. b;
  queue_declare = λ ch name durable auto_delete b. (no_queue, some (text "refused"), b + 1);
  queue_delete = λ ch name b. (none, b);
  exchange_declare = λ ch name kind durable auto_delete b. (none, b);
  exchange_delete = λ ch name b. (none, b);
  queue_bind = λ ch queue key exchange b. (none, b);
  publish = λ ch exchange key body b. (none, b);
}

asked-Counts : Counts asked (λ b. b)
asked-Counts = record {
  declares = λ ch name durable auto_delete b. refl;
  deletes = λ ch name b. refl;
  dial = λ b. refl;
  open_channel = λ c b. refl;
  close_connection = λ c b. refl;
  close_channel = λ ch b. refl;
  tx = λ ch b. refl;
  tx_commit = λ ch b. refl;
}

abbrev asked_before : Mq ℕ ℕ ℕ
asked_before = record {
  pools = record { conns = []; capacity = 300 };
  channel_pools = record { conns = []; capacity = 1000 };
  broker = 7;
}

queue_declare-attempts_example :
    (queue_declare asked (text "wmq.") (text "q") true asked_before).1.broker ≤ 9
queue_declare-attempts_example =
    queue_declare-attempts asked (λ b. b) asked-Counts (text "wmq.") (text "q") true asked_before

-- A broker that delivers whatever queue is asked for.
abbrev consuming : Consuming Bool ℕ
consuming = record { qos = λ ch b. (none, b); consume = λ ch queue b. (none, b) }

connect-Returns_example :
    ConnectOutcome accepting consuming
      (text "wmq.")
      a_consumer
      orders
      no_pools
      (connect accepting consuming (text "wmq.") a_consumer orders no_pools).0
      (connect accepting consuming (text "wmq.") a_consumer orders no_pools).1
connect-Returns_example =
    connect-Returns accepting consuming (text "wmq.") a_consumer orders no_pools

abbrev answers : Text → Consumer → Message → System → Text × System
answers action c m s = (text "completed", update_alone c m s)

abbrev before_start : State (Outside Bool ℕ ℕ System)
before_start = record {
  messages = orders ∷ (record bills { consumers = a_consumer ∷ [] }) ∷ [];
  world = record { mq = no_pools; manager = initial };
}

init_messages-Served_example :
    ((init_messages (mq_backend accepting (text "wmq.") answers) before_start).0 ≡ ok tt)
    × IsReady
        (init_messages (mq_backend accepting (text "wmq.") answers) before_start).1.world.manager
    × ((i j : ℕ) (m : Message) (c : Consumer)
        → get_elem? before_start.messages i ≡ some m
        → get_elem? m.consumers j ≡ some c
        → HasWorker
            (get_consumer_key m c)
            (init_messages
              (mq_backend accepting (text "wmq.") answers)
              before_start).1.world.manager.workers)
init_messages-Served_example =
    init_messages-Served accepting (text "wmq.") answers (broker-AlwaysChannel none true)
      accepting-Willing (λ c m s. refl) before_start initial-IsReady
