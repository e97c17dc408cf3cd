-- ===== src/Tests/Goroutines.antt =====
-- A run of a consumer's goroutine (message.go) with two connections, by a broker that holds messages by their
-- tags.
use wmq.Common.{
  Option, Bool, true, false, ok, nat_eq, if◌then◌else◌, ℕ, ◌≡◌, none, some, List, [], ◌∷◌, text,
}
use wmq.Registry.{Consumer, pos}
use wmq.Mq.{Amqp}
use wmq.Manager.Connect.{Consuming}
use wmq.Manager.Consume.{Acknowledger, Event, exit, closed, delivery, Run, Pauses}
use wmq.Manager.Goroutine.{Session, found}
use wmq.Tests.Registries.{a_consumer, orders}

-- A broker that knows of each message whether it has it.
abbrev Held : Type 0
Held = ℕ → Bool

abbrev Has : ℕ → Held → Type 0
Has tag b = b tag ≡ true

abbrev acks : Acknowledger Held
acks = record {
  ack = λ tag b. (none, λ t. if nat_eq t tag then false else b t);
  nack = λ requeue tag b. (none, if requeue then b else λ t. if nat_eq t tag then false else b t);
}

abbrev amqp : Amqp Held ℕ ℕ
amqp = record {
  dial_config = λ b. (ok 1, b);
  open_channel = λ c b. (ok 1, b);
  close_connection = λ c b. b;
  close_channel = λ ch b. b;
  nil_channel = 0;
  is_nil = λ ch. false;
  tx = λ ch b. (none, b);
  tx_commit = λ ch b. b;
  queue_declare = λ ch name durable auto_delete b. (record { messages = 0 }, none, b);
  queue_delete = λ ch name b. (none, b);
  exchange_declare = λ ch name kind durable auto_delete b. (none, b);
  exchange_delete = λ ch name b. (none, b);
  queue_bind = λ ch queue key exchange b. (none, b);
  publish = λ ch exchange key body b. (none, b);
}

abbrev rounds : List (Option Consumer × Event)
rounds =
    (some a_consumer, delivery (record { body = text "{…}"; tag = 1 }))
    ∷ (some a_consumer, closed)
    ∷ []

abbrev at_first : Run ℕ Held ℕ ℕ
at_first = record {
  world = 0;
  mq = record {
    pools = record { conns = []; capacity = 300 };
    channel_pools = record { conns = []; capacity = 1000 };
    broker = λ tag. true;
  };
  slept = [];
}

abbrev pauses : Pauses
pauses = record { go_fail_wait = pos 3; fail_wait = pos 5 }

abbrev consuming : Consuming Held ℕ
consuming = record { qos = λ ch b. (none, b); consume = λ ch queue b. (none, b) }

abbrev sessions : List Session
sessions =
    found a_consumer orders rounds ∷ found a_consumer orders ((some a_consumer, exit) ∷ []) ∷ []
