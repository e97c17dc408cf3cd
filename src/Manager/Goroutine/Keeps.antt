-- ===== src/Manager/Goroutine/Keeps.antt =====
-- That a consumer's goroutine (message.go) loses no message, over all its connections.
use wmq.Common.{inl, inr, Option, none, some, Text, ok, Option-cases, Result, Result-cases}
use wmq.Registry.{Message, Consumer, get_consumer_key}
use wmq.Pool.{get}
use wmq.Pool.Keeps.{Keeps-get, Keeps-put}
use wmq.Mq.{Amqp, Mq, Go, pool_config}
use wmq.Mq.Calls.{
  at_broker, get_queue_name, exchange_declare, queue_declare, queue_bind_to_exchange,
}
use wmq.Mq.Keeps.{pool_config-Keeps}
use wmq.Mq.Accepted.{Accepts, queue_declare-keeps, exchange_declare-keeps, queue_bind-keeps}
use wmq.Manager.Connect.{Consuming, put_connection, step, prepare, open_on, connect}

-- The calls by which a goroutine begins to consume keep what the broker has.
pub record KeepsConsuming {B H : Type 0} (P : B → Type 0) (consuming : Consuming B H) : Type 0 where
  pub qos : (ch : H) (b : B) → P b → P (consuming.qos ch b).1
  pub consume : (ch : H) (queue : Text) (b : B) → P b → P (consuming.consume ch queue b).1

module _ {B C H : Type 0} {P : B → Type 0} (amqp : Amqp B C H) (accepts : Accepts P amqp)
    (consuming : Consuming B H) (begins : KeepsConsuming P consuming) (prefix : Text) where
  record Keeping {X : Type 0} (f : Go (Mq B C H) X) : Type 0 where
    keeps : (s : Mq B C H) → P s.broker → P (f s).1.broker

  put_connection-keeps :
      (c : Option C) (s : Mq B C H) → P s.broker → P (put_connection amqp c s).broker
  unfolding put_connection
  put_connection-keeps c s h =
      Keeps-put (pool_config amqp) (pool_config-Keeps amqp accepts.serving) s.pools c s.broker h

  step-Keeping :
      {X : Type 0} (conn : C) (call : Go (Mq B C H) (Option Text)) (rest : Go (Mq B C H) (Result X))
      → Keeping call
      → Keeping rest
      → Keeping (step amqp consuming prefix conn call rest)
  step-Keeping conn call rest k j = record {
    keeps = λ s h. elim (Option-cases (call s).0) [
      | inl fine ↦ rw (fine, step) (j.keeps (call s).1 (k.keeps s h))
      | inr (e, bad) ↦ rw (bad, step) (put_connection-keeps (some conn) (call s).1 (k.keeps s h))
    ];
  }

  abbrev declares_queue : Consumer → Message → Go (Mq B C H) (Option Text)
  declares_queue c m s =
      let ((queue, e), s') = queue_declare amqp prefix (get_consumer_key m c) m.durable s in (e, s')

  prepare-Keeping :
      (c : Consumer) (m : Message) (conn : C) (ch : H)
      → Keeping (prepare amqp consuming prefix c m conn ch)
  unfolding prepare
  prepare-Keeping c m conn ch =
      let exchange : Keeping (exchange_declare amqp prefix m.name m.mode m.durable) = record {
        keeps = exchange_declare-keeps amqp accepts prefix m.name m.mode m.durable;
      } in
      let queue : Keeping (declares_queue c m) = record {
        keeps = queue_declare-keeps amqp accepts prefix (get_consumer_key m c) m.durable;
      } in
      let bind : Keeping
          (queue_bind_to_exchange amqp prefix (get_consumer_key m c) m.name c.route_key) =
        record {
          keeps = queue_bind-keeps amqp accepts prefix (get_consumer_key m c) m.name c.route_key;
        } in
      let qos : Keeping (at_broker (consuming.qos ch)) = record {
        keeps = λ s h. begins.qos ch s.broker h;
      } in
      let consume : Keeping
          (at_broker (consuming.consume ch (get_queue_name prefix (get_consumer_key m c)))) =
        record { keeps = λ s h. begins.consume ch _ s.broker h } in
      let done : Keeping (λ s. (ok ch, s)) = record { keeps = λ s h. h } in
      step-Keeping conn _ _ exchange (
        step-Keeping conn _ _ queue (
          step-Keeping conn _ _ bind
            (step-Keeping conn _ _ qos (step-Keeping conn _ _ consume done))))

  open_on-keeps :
      (c : Consumer) (m : Message) (conn : C) (s : Mq B C H)
      → P s.broker
      → P (open_on amqp consuming prefix c m conn s).1.broker
  unfolding open_on
  open_on-keeps c m conn s h =
      let h' = accepts.serving.open_channel conn s.broker h in
      elim (Result-cases (amqp.open_channel conn s.broker).0) [
        | inl (ch, fine) ↦
            rw (fine, open_on)
              ((prepare-Keeping c m conn ch).keeps (at_broker (amqp.open_channel conn) s).1 h')
        | inr (e, bad) ↦
            rw (bad, open_on)
              (put_connection-keeps (some conn) (at_broker (amqp.open_channel conn) s).1 h')
      ]

  pub connect-keeps :
      (c : Consumer) (m : Message) (s : Mq B C H)
      → P s.broker
      → P (connect amqp consuming prefix c m s).1.broker
  unfolding connect
  connect-keeps c m s h =
      let (taken, pools, broker) = get (pool_config amqp) s.pools s.broker in
      let s' : Mq B C H = record s { pools = pools; broker = broker } in
      let h' =
        Keeps-get (pool_config amqp) (pool_config-Keeps amqp accepts.serving) s.pools s.broker h in
      elim (Result-cases (get (pool_config amqp) s.pools s.broker).0) [
        | inl (conn, took) ↦ rw (took, connect) (open_on-keeps c m conn s' h')
        | inr (e, none_left) ↦ rw (none_left, connect) (put_connection-keeps none s' h')
      ]
