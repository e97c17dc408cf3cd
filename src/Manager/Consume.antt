-- ===== src/Manager/Consume.antt =====
-- The loop of a consumer's goroutine (message.go) behind its connection: it waits for the manager's command or
-- a delivery, hands the delivery to `process` and answers the broker.
pub mod AtLeastOnce
use wmq.Common.{
  ℕ, ◌+◌, Bool, true, false, Option, none, some, List, [], ◌∷◌, ◌++◌, Text, is_some, Result, ok,
  err, if◌then◌else◌,
}
use wmq.Registry.{Message, Consumer, Number}
use wmq.Mq.{Amqp, Mq}
use wmq.Manager.Connect.{Consuming, put_connection, connect}
use wmq.Delivery.{Json, Client, Processed, returns, panics, process}

-- A message as the broker delivers it. The tag is that of the message, also when it is delivered again.
pub record Delivery : Type 0 where
  pub body : Text
  pub tag : ℕ

-- What the `select` takes: the command `exit`, the end of the deliveries, or a delivery.
pub data Event : Type 0 where
  exit closed : Event
  delivery : Delivery → Event

-- `Ack(false)`, and `Nack(false, requeue)`.
pub record Acknowledger (B : Type 0) : Type 0 where
  pub ack : ℕ → B → Option Text × B
  pub nack : Bool → ℕ → B → Option Text × B

-- `consume.GoFailWait` and `consume.FailWait`, in seconds.
pub record Pauses : Type 0 where
  pub go_fail_wait : Number
  pub fail_wait : Number

-- What the goroutine acts on: the world of the consumers' URLs, the pools and the broker. `slept` has its
-- pauses so far.
pub record Run (W B C H : Type 0) : Type 0 where
  pub world : W
  pub mq : Mq B C H
  pub slept : List Number

-- How the loop ends: the goroutine ends, or connects anew, or the program panics. `waiting` is
-- where the events end.
pub data Ending : Type 0 where
  exits retries crashes waiting : Ending

-- `pools.Put(conn)`
abbrev pub put_back : {W B C H : Type 0} → Amqp B C H → C → Run W B C H → Run W B C H
put_back amqp conn s = record s { mq = put_connection amqp (some conn) s.mq }

module _ {W B C H : Type 0} (acks : Acknowledger B) (pauses : Pauses) where
  abbrev pub sleep : Number → Run W B C H → Run W B C H
  sleep n s = record s { slept = s.slept ++ n ∷ [] }

  abbrev pub at_broker : (B → Option Text × B) → Run W B C H → Option Text × Run W B C H
  at_broker f s = let (e, b) = f s.mq.broker in (e, record s { mq = record s.mq { broker = b } })

  -- The answer to the broker, after `process` with this error.
  unfoldable pub settle : Option Text → ℕ → Run W B C H → Run W B C H
  settle none tag s =
      let (e, s') = at_broker (acks.ack tag) s in
      if is_some e then sleep pauses.go_fail_wait s' else s'
  settle (some failure) tag s =
      let (e, s') = at_broker (acks.nack true tag) s in
      sleep (if is_some e then pauses.go_fail_wait else pauses.fail_wait) s'

module _ {W B C H J : Type 0} (json : Json J) (client : Client W) (acks : Acknowledger B)
    (pauses : Pauses) where
  -- A delivery, none when `process` panics.
  unfoldable pub handle_delivery : Consumer → Delivery → Run W B C H → Option (Run W B C H)
  unfolding settle process
  handle_delivery c d s = elim (process json client d.body c s.world) [
    | panics ↦ none
    | returns e w ↦ some (settle acks pauses e d.tag (record s { world = w }))
  ]

  module _ (amqp : Amqp B C H) (conn : C) where
    -- The loop, on the consumer of the entry that each round finds, if any, and what the `select` takes.
    unfoldable pub worker_loop : List (Option Consumer × Event) → Run W B C H → Ending × Run W B C H
    unfolding handle_delivery put_connection
    worker_loop [] s = (waiting, s)
    worker_loop ((none, e) ∷ es) s = (exits, s)
    worker_loop ((some c, exit) ∷ es) s = (exits, put_back amqp conn s)
    worker_loop ((some c, closed) ∷ es) s = (retries, put_back amqp conn s)
    worker_loop ((some c, delivery d) ∷ es) s = elim (handle_delivery c d s) [
      | none ↦ (crashes, s)
      | some s' ↦ worker_loop es s'
    ]
