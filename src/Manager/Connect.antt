-- ===== src/Manager/Connect.antt =====
-- Steps 2 to 8 of a consumer's goroutine (message.go): it takes a connection, opens a channel on it, declares
-- and binds its queue and consumes it. When a step fails the goroutine waits and starts again.
use wmq.Common.{
  subst, ◌≡◌, refl, ap, Option, none, some, Text, Result, ok, err, Option-cases, Result-cases, inl,
  inr, ◌⊎◌,
}
use wmq.Pool.{get, put}
use wmq.Mq.{Amqp, Mq, Go, pool_config}
use wmq.Mq.Calls.{
  at_broker, exchange_declare, queue_declare, queue_bind_to_exchange, get_queue_name,
}
use wmq.Registry.{Message, Consumer, get_consumer_key}

-- `channel.Qos(1, 0, false)`, and `channel.Consume` of a queue.
pub record Consuming (B H : Type 0) : Type 0 where
  pub qos : H → B → Option Text × B
  pub consume : H → Text → B → Option Text × B

-- `pools.Put(conn)`
unfoldable pub put_connection : {B C H : Type 0} → Amqp B C H → Option C → Mq B C H → Mq B C H
unfolding pool_config
put_connection amqp conn s =
    let (pools, broker) = put (pool_config amqp) s.pools conn s.broker in
    record s { pools = pools; broker = broker }

module _ {B C H : Type 0} (amqp : Amqp B C H) (consuming : Consuming B H) (prefix : Text) where
  -- A step of which an error ends the attempt.
  abbrev pub step :
      {X : Type 0}
      → C
      → Go (Mq B C H) (Option Text)
      → Go (Mq B C H) (Result X)
      → Go (Mq B C H) (Result X)
  step conn call rest s =
      let (e, s') = call s in
      elim e [ none ↦ rest s' | some x ↦ (err x, put_connection amqp (some conn) s') ]

  -- Steps 4 to 8.
  unfoldable pub prepare : Consumer → Message → C → H → Go (Mq B C H) (Result H)
  unfolding put_connection
  prepare c m conn ch = step conn (exchange_declare amqp prefix m.name m.mode m.durable) (
      step conn
        (λ s.
          let ((queue, e), s') = queue_declare amqp prefix (get_consumer_key m c) m.durable s in
          (e, s'))
        (step conn (queue_bind_to_exchange amqp prefix (get_consumer_key m c) m.name c.route_key) (
          step conn (at_broker (consuming.qos ch)) (
            step conn
              (at_broker (consuming.consume ch (get_queue_name prefix (get_consumer_key m c))))
              (λ s. (ok ch, s))))))

  -- Step 3.
  unfoldable pub open_on : Consumer → Message → C → Go (Mq B C H) (Result H)
  unfolding prepare
  open_on c m conn s =
      let (opened, s') = at_broker (amqp.open_channel conn) s in
      elim opened [
        | ok ch ↦ prepare c m conn ch s'
        | err e ↦ (err e, put_connection amqp (some conn) s')
      ]

  abbrev with_connection : C → Result H × Mq B C H → Result (C × H) × Mq B C H
  with_connection conn done =
      let (opened, s) = done in (elim opened [ ok ch ↦ ok (conn, ch) | err e ↦ err e ], s)

  -- All of them. The connection is taken once.
  unfoldable pub connect : Consumer → Message → Go (Mq B C H) (Result (C × H))
  unfolding open_on pool_config
  connect c m s =
      let (taken, pools, broker) = get (pool_config amqp) s.pools s.broker in
      let s' : Mq B C H = record s { pools = pools; broker = broker } in
      elim taken [
        | ok conn ↦ with_connection conn (open_on c m conn s')
        | err e ↦ (err e, put_connection amqp none s')
      ]

  abbrev pub ConnectOutcome : Consumer → Message → Mq B C H → Result (C × H) → Mq B C H → Type 0
  ConnectOutcome c m s r s' =
      ((e : Text) × (t : Mq B C H) × (r ≡ err e)
        × (((conn : C) × ((get (pool_config amqp) s.pools s.broker).0 ≡ ok conn)
              × (s' ≡ put_connection amqp (some conn) t))
            ⊎ (((get (pool_config amqp) s.pools s.broker).0 ≡ err e)
                × (s' ≡ put_connection amqp none t))))
      ⊎ ((conn : C) × (ch : H) × (b : B) × (r ≡ ok (conn, ch))
          × ((get (pool_config amqp) s.pools s.broker).0 ≡ ok conn)
          × (consuming.consume ch (get_queue_name prefix (get_consumer_key m c)) b
              ≡ (none, s'.broker)))

  -- A failure puts this connection back last, and a success comes from this call.
  record Returns (conn : C) (queue : Text) (f : Go (Mq B C H) (Result H)) : Type 0 where
    failed :
        (s : Mq B C H) (e : Text)
        → (f s).0 ≡ err e
        → (t : Mq B C H) × ((f s).1 ≡ put_connection amqp (some conn) t)
    done :
        (s : Mq B C H) (ch : H)
        → (f s).0 ≡ ok ch
        → (b : B) × (consuming.consume ch queue b ≡ (none, (f s).1.broker))

  ok-err : {X : Type 0} {x : X} {e : Text} → ok x ≡ err e → ⊥
  ok-err h = cc

  err-ok : {X : Type 0} {x : X} {e : Text} → err e ≡ ok x → ⊥
  err-ok h = cc

  ok-injective : {X : Type 0} {x y : X} → ok x ≡ ok y → x ≡ y
  ok-injective h = cc

  Returns-step :
      (conn : C) (queue : Text) (call : Go (Mq B C H) (Option Text))
      (rest : Go (Mq B C H) (Result H))
      → Returns conn queue rest
      → Returns conn queue (step conn call rest)
  Returns-step conn queue call rest h = record {
    failed = λ s e ended. elim (Option-cases (call s).0) [
      | inl fine ↦ rw (fine, step) (h.failed (call s).1 e (rw (fine, step) at ended))
      | inr (x, bad) ↦ rw (bad, step) ((call s).1, refl)
    ];
    done = λ s ch ended. elim (Option-cases (call s).0) [
      | inl fine ↦ rw (fine, step) (h.done (call s).1 ch (rw (fine, step) at ended))
      | inr (x, bad) ↦ absurd (err-ok (rw (bad, step) at ended))
    ];
  }

  Returns-consume :
      (conn : C) (queue : Text) (ch : H)
      → Returns conn queue (step conn (at_broker (consuming.consume ch queue)) (λ s. (ok ch, s)))
  Returns-consume conn queue ch = record {
    failed = λ s e ended. elim (Option-cases (consuming.consume ch queue s.broker).0) [
      | inl fine ↦ absurd (ok-err (rw (fine, step) at ended))
      | inr (x, bad) ↦ rw (bad, step) (_, refl)
    ];
    done = λ s ch' ended. elim (Option-cases (consuming.consume ch queue s.broker).0) [
      | inl fine ↦
          let b = (consuming.consume ch queue s.broker).1 in
          rw (fine, step)
            (subst (λ x. (b₀ : B) × (consuming.consume x queue b₀ ≡ (none, b)))
              (ok-injective (rw (fine, step) at ended)) (s.broker, ap (λ x. (x, b)) fine))
      | inr (x, bad) ↦ absurd (err-ok (rw (bad, step) at ended))
    ];
  }

  prepare-Returns :
      (c : Consumer) (m : Message) (conn : C) (ch : H)
      → Returns conn (get_queue_name prefix (get_consumer_key m c)) (prepare c m conn ch)
  unfolding prepare
  prepare-Returns c m conn ch = search (Returns-step, Returns-consume) depth 10

  open_on-Returns :
      (c : Consumer) (m : Message) (conn : C)
      → Returns conn (get_queue_name prefix (get_consumer_key m c)) (open_on c m conn)
  unfolding open_on
  open_on-Returns c m conn = record {
    failed = λ s e ended. elim (Result-cases (amqp.open_channel conn s.broker).0) [
      | inl (ch, fine) ↦
          rw (fine, open_on)
            ((prepare-Returns c m conn ch).failed _ e (rw (fine, open_on) at ended))
      | inr (x, bad) ↦ rw (bad, open_on) (_, refl)
    ];
    done = λ s ch' ended. elim (Result-cases (amqp.open_channel conn s.broker).0) [
      | inl (ch, fine) ↦
          rw (fine, open_on)
            ((prepare-Returns c m conn ch).done _ ch' (rw (fine, open_on) at ended))
      | inr (x, bad) ↦ absurd (err-ok (rw (bad, open_on) at ended))
    ];
  }

  -- An attempt to connect a goroutine either fails, and the last thing it does is to put the connection that it
  -- took back into the pool, or it succeeds, and then it returns the connection
  -- that it took, and the broker has last agreed to deliver the consumer's queue on the channel returned.
  pub connect-Returns :
      (c : Consumer) (m : Message) (s : Mq B C H)
      → ConnectOutcome c m s (connect c m s).0 (connect c m s).1
  unfolding connect
  connect-Returns c m s =
      let (taken, pools, broker) = get (pool_config amqp) s.pools s.broker in
      let s' : Mq B C H = record s { pools = pools; broker = broker } in
      elim (Result-cases (get (pool_config amqp) s.pools s.broker).0) [
        | inr (e, none_left) ↦ rw (none_left, connect) (inl (e, s', refl, inr (refl, refl)))
        | inl (conn, took) ↦ elim (Result-cases (open_on c m conn s').0) [
          | inl (ch, won) ↦
              let (b, consumed) = (open_on-Returns c m conn).done s' ch won in
              rw (took, with_connection, won, connect) (inr (conn, ch, b, refl, refl, consumed))
          | inr (e, lost) ↦
              let (t, back) = (open_on-Returns c m conn).failed s' e lost in
              rw (took, with_connection, lost, connect) (inl (e, t, refl, inl (conn, refl, back)))
        ]
      ]
