-- ===== src/Manager/Goroutine.antt =====
-- A consumer's goroutine (message.go) as a whole: it connects, works off deliveries, connects anew, and
-- closes its last channel when it ends.
pub mod Keeps
pub mod AtLeastOnce
use wmq.Pool.{get}
use wmq.Common.{Option, none, some, List, [], ◌∷◌, Text, Result, ok, err}
use wmq.Registry.{Message, Consumer}
use wmq.Mq.{Amqp, Mq, pool_config}
use wmq.Delivery.{Json, Client}
use wmq.Manager.Connect.{Consuming, connect}
use wmq.Manager.Consume.{
  Event, Acknowledger, Pauses, Run, Ending, exits, retries, crashes, waiting, sleep, worker_loop,
}

-- One round from the label `RETRY` on: the entry is gone, or it has this consumer and message when the exchange
-- is to be declared, and the loop over the deliveries has these rounds if it is reached.
pub data Session : Type 0 where
  gone : Session
  found : Consumer → Message → List (Option Consumer × Event) → Session

module _ {B C H : Type 0} (amqp : Amqp B C H) where
  -- What the variable `channel` holds after an attempt to connect.
  unfoldable pub channel_after : Option H → Mq B C H → Option H
  unfolding pool_config
  channel_after channel s =
      let (taken, pools, broker) = get (pool_config amqp) s.pools s.broker in
      elim taken [
        | err e ↦ channel
        | ok conn ↦ elim (amqp.open_channel conn broker).0 [ ok ch ↦ some ch | err e ↦ none ]
      ]

  -- What is deferred to the end of the goroutine.
  abbrev pub close_last : {W : Type 0} → Option H → Run W B C H → Run W B C H
  close_last none s = s
  close_last (some ch) s = record s {
    mq = record s.mq { broker = amqp.close_channel ch s.mq.broker };
  }

module _ {W B C H J : Type 0} (json : Json J) (client : Client W) (acks : Acknowledger B)
    (pauses : Pauses) (amqp : Amqp B C H) (consuming : Consuming B H) (prefix : Text) where
  -- The goroutine, with what the variable `channel` holds.
  unfoldable pub worker : List Session → Option H → Run W B C H → Ending × Run W B C H
  unfolding connect worker_loop channel_after
  worker [] channel s = (waiting, s)
  worker (gone ∷ xs) channel s = (exits, close_last amqp channel s)
  worker (found c m es ∷ xs) channel s =
      let (connected, mq) = connect amqp consuming prefix c m s.mq in
      let opened = channel_after amqp channel s.mq in
      let s' : Run W B C H = record s { mq = mq } in
      elim connected [
        | err e ↦ worker xs opened (sleep acks pauses pauses.go_fail_wait s')
        | ok (conn, ch) ↦
            let (ending, s'') = worker_loop json client acks pauses amqp conn es s' in
            elim ending [
              | exits ↦ (exits, close_last amqp opened s'')
              | crashes ↦ (crashes, s'')
              | waiting ↦ (waiting, s'')
              | retries ↦ worker xs opened s''
            ]
      ]
