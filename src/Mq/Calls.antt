-- ===== src/Mq/Calls.antt =====
-- The RabbitMQ calls of mq.go. Each takes a channel from the pool and puts it back.
use wmq.Common.{ℕ, zero, suc, Bool, not, Option, none, some, ◌++◌, Text}
use wmq.Mq.{Queue, Amqp, Mq, Go, ◌>>=◌, ◌>>◌, pure, get_mq_channel, put_channel}

abbrev pub no_queue : Queue
no_queue = record { messages = 0 }

-- A call of the client library.
abbrev pub at_broker : {B C H X : Type 0} → (B → X × B) → Go (Mq B C H) X
at_broker f s = let (x, broker) = f s.broker in (x, record s { broker = broker })

-- `getQueueName` and `getExchangeName`, with the configured prefix.
abbrev pub get_queue_name : Text → Text → Text
get_queue_name prefix queue_name = prefix ++ queue_name

abbrev pub get_exchange_name : Text → Text → Text
get_exchange_name prefix exchange_name = prefix ++ exchange_name

module _ {B C H : Type 0} (amqp : Amqp B C H) where
  -- `channel.QueueDeclare(name, durable, autoDelete, …)`
  abbrev pub declare_queue : H → Text → Bool → B → (Queue × Option Text) × B
  declare_queue ch name durable b =
      let (queue, e, b') = amqp.queue_declare ch name durable (not durable) b in ((queue, e), b')

  -- From the label `RETRY` of `queueDeclare` on, with the rounds that `maxRetryCount` leaves, and
  -- with what the named results `queue` and `err` hold. `channel` is dropped by every caller.
  unfoldable pub queue_declare_rounds :
      Text → Bool → ℕ → Queue → Option Text → Go (Mq B C H) (Queue × Option Text)
  queue_declare_rounds name durable zero queue failure = pure (queue, failure)
  queue_declare_rounds name durable (suc n) queue failure = do
    (channel, no_channel) ← get_mq_channel amqp
    elim no_channel [
      | none ↦ do
        (declared, refused) ← at_broker (declare_queue channel name durable)
        put_channel amqp channel
        elim refused [
          | none ↦ pure (declared, none)
          | some e ↦ do
            (channel', no_channel') ← get_mq_channel amqp
            elim no_channel' [
              | none ↦ do
                deleted ← at_broker (amqp.queue_delete channel' name)
                put_channel amqp channel'
                queue_declare_rounds name durable n declared deleted
              | some e' ↦ do put_channel amqp channel'; pure (declared, some e')
            ]
        ]
      | some e ↦ do put_channel amqp channel; pure (queue, some e)
    ]

  -- From the label `RETRY` of `exchangeDeclare` on, as above.
  unfoldable pub exchange_declare_rounds :
      Text → Text → Bool → ℕ → Option Text → Go (Mq B C H) (Option Text)
  exchange_declare_rounds name kind durable zero failure = pure failure
  exchange_declare_rounds name kind durable (suc n) failure = do
    (channel, no_channel) ← get_mq_channel amqp
    elim no_channel [
      | none ↦ do
        refused ← at_broker (amqp.exchange_declare channel name kind durable (not durable))
        put_channel amqp channel
        elim refused [
          | none ↦ pure none
          | some e ↦ do
            (channel', no_channel') ← get_mq_channel amqp
            elim no_channel' [
              | none ↦ do
                deleted ← at_broker (amqp.exchange_delete channel' name)
                put_channel amqp channel'
                exchange_declare_rounds name kind durable n deleted
              | some e' ↦ do put_channel amqp channel'; pure (some e')
            ]
        ]
      | some e ↦ do put_channel amqp channel; pure (some e)
    ]

  -- The calls that take a channel, use it once, and put it back in any case, by `defer`.
  unfoldable pub with_channel : (H → B → Option Text × B) → Go (Mq B C H) (Option Text)
  with_channel use_channel = do
    (channel, no_channel) ← get_mq_channel amqp
    failure ← elim no_channel [ none ↦ at_broker (use_channel channel) | some e ↦ pure (some e) ]
    put_channel amqp channel
    pure failure

module _ {B C H : Type 0} (amqp : Amqp B C H) (prefix : Text) where
  -- `maxRetryCount` is 1, so there are two rounds.
  unfoldable pub queue_declare : Text → Bool → Go (Mq B C H) (Queue × Option Text)
  unfolding queue_declare_rounds
  queue_declare name durable =
      queue_declare_rounds amqp (get_queue_name prefix name) durable 2 no_queue none

  unfoldable pub exchange_declare : Text → Text → Bool → Go (Mq B C H) (Option Text)
  unfolding exchange_declare_rounds
  exchange_declare name kind durable =
      exchange_declare_rounds amqp (get_exchange_name prefix name) kind durable 2 none

  unfoldable pub queue_bind_to_exchange : Text → Text → Text → Go (Mq B C H) (Option Text)
  unfolding with_channel
  queue_bind_to_exchange queue_name exchange_name route_key = with_channel amqp λ ch.
      amqp.queue_bind ch (get_queue_name prefix queue_name) route_key
        (get_exchange_name prefix exchange_name)

  unfoldable pub delete_queue : Text → Go (Mq B C H) (Option Text)
  unfolding with_channel
  delete_queue queue_name =
      with_channel amqp λ ch. amqp.queue_delete ch (get_queue_name prefix queue_name)

  unfoldable pub delete_exchange : Text → Go (Mq B C H) (Option Text)
  unfolding with_channel
  delete_exchange exchange_name =
      with_channel amqp λ ch. amqp.exchange_delete ch (get_exchange_name prefix exchange_name)

  -- The part of `publish` (message.go) that uses a channel: it is put back only if there is one.
  unfoldable pub publish_on_channel : Text → Text → Text → Go (Mq B C H) (Option Text)
  publish_on_channel exchange_name route_key body = do
    (channel, no_channel) ← get_mq_channel amqp
    elim no_channel [
      | none ↦ do
        failure ←
            at_broker (amqp.publish channel (get_exchange_name prefix exchange_name) route_key body)
        put_channel amqp channel
        pure failure
      | some e ↦ pure (some e)
    ]
