-- ===== src/Manager/Consume/AtLeastOnce.antt =====
-- That a consumer's goroutine (message.go) loses no message: the broker has it until it was delivered.
use wmq.Common.{
  subst, ◌∙◌, ℕ, ◌≡◌, ◌≢◌, refl, ap, ◌⊎◌, inl, inr, true, Option, none, some, List, [], ◌∷◌, Text,
  Option-cases, Bool-cases, nat_eq-cases, is_some,
}
use wmq.Registry.{Consumer}
use wmq.Pool.Keeps.{Keeps-put}
use wmq.Mq.{Amqp, pool_config}
use wmq.Mq.Keeps.{KeepsServing, pool_config-Keeps}
use wmq.Manager.Connect.{put_connection}
use wmq.Delivery.{Json, Client, Processed, returns, panics, process}
use wmq.Delivery.Acknowledged.{Dropped, Delivered, process-Delivered}
use wmq.Manager.Consume.{
  Delivery, Event, exit, closed, delivery, Acknowledger, Pauses, Run, settle, handle_delivery,
  worker_loop, put_back,
}

-- The broker has a message, queued or not yet answered, until it is acknowledged; one that is refused is queued
-- again. An error of these calls loses nothing.
pub record KeepsMessages {B : Type 0} (Has : ℕ → B → Type 0) (acks : Acknowledger B) : Type 0 where
  pub ack : (tag other : ℕ) (b : B) → tag ≢ other → Has other b → Has other (acks.ack tag b).1
  pub nack : (tag other : ℕ) (b : B) → Has other b → Has other (acks.nack true tag b).1

none-some : {A : Type 0} {a : A} → none ≡ some a → ⊥
none-some e = cc

some-injective : {A : Type 0} {a b : A} → some a ≡ some b → a ≡ b
some-injective e = cc

Processed-cases :
    {W : Type 0} (p : Processed W)
    → (p ≡ panics) ⊎ ((e : Option Text) × (w : W) × (p ≡ returns e w))
Processed-cases panics = inl refl
Processed-cases (returns e w) = inr (e, w, refl)

module _ {W J : Type 0} (json : Json J) (client : Client W) where
  -- In one of these rounds the message was dropped, or delivered to the consumer.
  abbrev pub Handed : ℕ → List (Option Consumer × Event) → Type 0
  Handed tag [] = ⊥
  Handed tag ((none, e) ∷ es) = ⊥
  Handed tag ((some c, exit) ∷ es) = Handed tag es
  Handed tag ((some c, closed) ∷ es) = Handed tag es
  Handed tag ((some c, delivery d) ∷ es) =
      ((d.tag ≡ tag)
        × (w : W) × (w' : W) × ((Dropped json client c d.body × (w ≡ w'))
            ⊎ Delivered json client c d.body w w'))
      ⊎ Handed tag es

module _ {W B C H J : Type 0} (json : Json J) (client : Client W) (acks : Acknowledger B)
    (pauses : Pauses) where
  module _ (Has : ℕ → B → Type 0) (keeps : KeepsMessages Has acks) (tag : ℕ) where
    -- After a delivery the broker still has the message, or it was delivered.
    settle-Has :
        (e : Option Text) (t : ℕ) (s : Run W B C H)
        → Has tag s.mq.broker
        → ((e ≡ none) × (t ≡ tag)) ⊎ Has tag (settle acks pauses e t s).mq.broker
    unfolding settle
    settle-Has none t s h = elim (nat_eq-cases t tag) [
      | inl (same, yes_same) ↦ inl (refl, same)
      | inr (other, no_same) ↦
          let kept = keeps.ack t tag s.mq.broker other h in
          elim (Bool-cases (is_some (acks.ack t s.mq.broker).0)) [
            | inl failed ↦ rw failed (inr kept)
            | inr fine ↦ rw fine (inr kept)
          ]
    ]
    settle-Has (some x) t s h = inr (keeps.nack t tag s.mq.broker h)

    handle_delivery-Has :
        (c : Consumer) (d : Delivery) (s s' : Run W B C H)
        → handle_delivery json client acks pauses c d s ≡ some s'
        → Has tag s.mq.broker
        → Has tag s'.mq.broker ⊎ Handed json client tag ((some c, delivery d) ∷ [])
    unfolding handle_delivery
    handle_delivery-Has c d s s' done h =
        elim (Processed-cases (process json client d.body c s.world)) [
          | inl bad ↦ absurd (none-some (rw (bad, handle_delivery) at done))
          | inr (e, w, ended) ↦
              let same = some-injective (rw (ended, handle_delivery) at done) in
              elim (settle-Has e d.tag (record s { world = w }) h) [
                | inr kept ↦ inl (subst (λ x. Has tag x.mq.broker) same kept)
                | inl (fine, own) ↦ inr (
                    inl (
                      own,
                      s.world,
                      w,
                      process-Delivered json client c d.body s.world w
                          (ended ∙ ap (λ x. returns x w) fine),
                    ))
              ]
        ]

    module _ (amqp : Amqp B C H) (serving : KeepsServing (Has tag) amqp) (conn : C) where
      put_back-Has :
          (s : Run W B C H) → Has tag s.mq.broker → Has tag (put_back amqp conn s).mq.broker
      unfolding put_connection
      put_back-Has s h =
          Keeps-put (pool_config amqp) (pool_config-Keeps amqp serving) s.mq.pools (some conn)
            s.mq.broker h

      -- No message is lost by a consumer's goroutine: what the broker has when the loop begins it still has
      -- when the loop ends, in whatever way, or the message was handed to `process` in one of the rounds, and
      -- was dropped there or delivered to the consumer. The broker must keep what is not
      -- acknowledged, also when connections and channels are opened and closed.
      pub worker_loop-Has :
          (es : List (Option Consumer × Event)) (s : Run W B C H)
          → Has tag s.mq.broker
          → Has tag (worker_loop json client acks pauses amqp conn es s).1.mq.broker
            ⊎ Handed json client tag es
      unfolding worker_loop
      worker_loop-Has [] s h = inl h
      worker_loop-Has ((none, e) ∷ es) s h = inl h
      worker_loop-Has ((some c, exit) ∷ es) s h = inl (put_back-Has s h)
      worker_loop-Has ((some c, closed) ∷ es) s h = inl (put_back-Has s h)
      worker_loop-Has ((some c, delivery d) ∷ es) s h =
          elim (Option-cases (handle_delivery json client acks pauses c d s)) [
            | inl bad ↦ rw (bad, worker_loop) (inl h)
            | inr (s', handled) ↦ elim (handle_delivery-Has c d s s' handled h) [
              | inr (inl handed) ↦ inr (inl handed)
              | inr (inr lost) ↦ absurd lost
              | inl kept ↦ elim (worker_loop-Has es s' kept) [
                | inl has ↦ rw (handled, worker_loop) (inl has)
                | inr later ↦ inr (inr later)
              ]
            ]
          ]
