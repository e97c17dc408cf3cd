-- ===== src/Mq/Declares.antt =====
-- What `queueDeclare` and `exchangeDeclare` (mq.go) report.
use wmq.Common.{ℕ, zero, suc, ◌≡◌, refl, Bool, not, Option, none, some, Text}
use wmq.Mq.{Queue, Amqp, Mq, ◌>>=◌, ◌>>◌, get_mq_channel, put_channel}
use wmq.Mq.Keeps.{KeepsServing, Keeps-get_mq_channel, Keeps-put_channel}
use wmq.Mq.Calls.{
  at_broker, declare_queue, queue_declare_rounds, queue_declare, exchange_declare_rounds,
  exchange_declare, no_queue, get_queue_name, get_exchange_name,
}

-- A channel can always be had.
abbrev pub AlwaysChannel : {B C H : Type 0} → Amqp B C H → Type 0
AlwaysChannel {B} {C} {H} amqp = (s : Mq B C H) → (get_mq_channel amqp s).0.1 ≡ none

-- An exchange or a queue that the broker will not declare: `P` says of the broker's state that
-- there is none of the name, declaring fails and makes none, and deleting is allowed.
module _ {B X H : Type 0} where
  pub record Refuses (P : B → Type 0) (declare : H → B → (X × Option Text) × B)
      (delete : H → B → Option Text × B) : Type 0 where
    pub refused :
        (ch : H) (b : B) → P b → ((e : Text) × ((declare ch b).0.1 ≡ some e)) × P (declare ch b).1
    pub deleted : (ch : H) (b : B) → P b → ((delete ch b).0 ≡ none) × P (delete ch b).1

  -- One that the broker declares: afterwards `P` holds.
  pub record Accepts (P : B → Type 0) (declare : H → B → (X × Option Text) × B) : Type 0 where
    pub accepted : (ch : H) (b : B) → ((declare ch b).0.1 ≡ none) × P (declare ch b).1

module _ {B C H : Type 0} (amqp : Amqp B C H) where
  -- `channel.ExchangeDeclare(name, kind, durable, autoDelete, …)`, with nothing but an error.
  abbrev pub declare_exchange : H → Text → Text → Bool → B → (Unit {0} × Option Text) × B
  declare_exchange ch name kind durable b =
      let (e, b') = amqp.exchange_declare ch name kind durable (not durable) b in ((tt, e), b')

  module _ {P : B → Type 0} (name : Text) (durable : Bool) (channels : AlwaysChannel amqp)
      (serving : KeepsServing P amqp) where
    queue_rounds-hide :
        Refuses P (λ ch. declare_queue amqp ch name durable) (λ ch. amqp.queue_delete ch name)
        → (n : ℕ) (queue : Queue) (s : Mq B C H) → P s.broker
        → let ((q, e), s') = queue_declare_rounds amqp name durable n queue none s in
          (e ≡ none) × P s'.broker
    unfolding queue_declare_rounds
    queue_rounds-hide broker zero queue s h = (refl, h)
    queue_rounds-hide broker (suc n) queue s h =
        let ch = (get_mq_channel amqp s).0.0 in
        let s₁ = (get_mq_channel amqp s).1 in
        let (refused, h₂) = broker.refused ch s₁.broker (Keeps-get_mq_channel amqp serving s h) in
        let s₂ = (put_channel amqp ch (at_broker (declare_queue amqp ch name durable) s₁).1).1 in
        let h₃ = Keeps-get_mq_channel amqp serving s₂ (Keeps-put_channel amqp serving ch _ h₂) in
        let ch' = (get_mq_channel amqp s₂).0.0 in
        let (deleted, h₄) = broker.deleted ch' (get_mq_channel amqp s₂).1.broker h₃ in
        rw (channels s, queue_declare_rounds, ◌>>=◌, ◌>>◌, refused.1, channels s₂, deleted)
          (queue_rounds-hide broker n _ _ (Keeps-put_channel amqp serving ch' _ h₄))

    exchange_rounds-hide :
        (kind : Text)
        → Refuses P
            (λ ch. declare_exchange ch name kind durable)
            (λ ch. amqp.exchange_delete ch name)
        → (n : ℕ) (s : Mq B C H) → P s.broker
        → let (e, s') = exchange_declare_rounds amqp name kind durable n none s in
          (e ≡ none) × P s'.broker
    unfolding exchange_declare_rounds
    exchange_rounds-hide kind broker zero s h = (refl, h)
    exchange_rounds-hide kind broker (suc n) s h =
        let ch = (get_mq_channel amqp s).0.0 in
        let s₁ = (get_mq_channel amqp s).1 in
        let (refused, h₂) = broker.refused ch s₁.broker (Keeps-get_mq_channel amqp serving s h) in
        let s₂ =
          (put_channel amqp ch
            (at_broker (amqp.exchange_declare ch name kind durable (not durable)) s₁).1).1 in
        let h₃ = Keeps-get_mq_channel amqp serving s₂ (Keeps-put_channel amqp serving ch _ h₂) in
        let ch' = (get_mq_channel amqp s₂).0.0 in
        let (deleted, h₄) = broker.deleted ch' (get_mq_channel amqp s₂).1.broker h₃ in
        rw (channels s, exchange_declare_rounds, ◌>>=◌, ◌>>◌, refused.1, channels s₂, deleted)
          (exchange_rounds-hide kind broker n _ (Keeps-put_channel amqp serving ch' _ h₄))

module _ {B C H : Type 0} (amqp : Amqp B C H) (prefix : Text) where
  module _ {P : B → Type 0} (name : Text) (durable : Bool) (channels : AlwaysChannel amqp)
      (serving : KeepsServing P amqp) where
    -- When the broker refuses to declare the queue both times and lets it be deleted,
    -- `queueDeclare` reports no error although there is no such queue.
    pub queue_declare-hides_refusal :
        Refuses P
          (λ ch. declare_queue amqp ch (get_queue_name prefix name) durable)
          (λ ch. amqp.queue_delete ch (get_queue_name prefix name))
        → (s : Mq B C H) → P s.broker
        → let ((q, e), s') = queue_declare amqp prefix name durable s in (e ≡ none) × P s'.broker
    unfolding queue_declare
    queue_declare-hides_refusal broker s h =
        queue_rounds-hide amqp _ durable channels serving broker 2 no_queue s h

    -- When the broker refuses to declare the exchange both times and lets it be deleted,
    -- `exchangeDeclare` reports no error although there is no such exchange.
    pub exchange_declare-hides_refusal :
        (kind : Text)
        → Refuses P
            (λ ch. declare_exchange amqp ch (get_exchange_name prefix name) kind durable)
            (λ ch. amqp.exchange_delete ch (get_exchange_name prefix name))
        → (s : Mq B C H) → P s.broker
        → let (e, s') = exchange_declare amqp prefix name kind durable s in (e ≡ none) × P s'.broker
    unfolding exchange_declare
    exchange_declare-hides_refusal kind broker s h =
        exchange_rounds-hide amqp _ durable channels serving kind broker 2 s h

    -- When the broker accepts the declaration, the queue is there afterwards, with no error.
    pub queue_declare-declares :
        Accepts P (λ ch. declare_queue amqp ch (get_queue_name prefix name) durable)
        → (s : Mq B C H)
        → let ((q, e), s') = queue_declare amqp prefix name durable s in (e ≡ none) × P s'.broker
    unfolding queue_declare
    queue_declare-declares broker s =
        let ch = (get_mq_channel amqp s).0.0 in
        let (accepted, h) = broker.accepted ch (get_mq_channel amqp s).1.broker in
        rw (channels s, queue_declare, queue_declare_rounds, ◌>>=◌, ◌>>◌, accepted)
          (refl, Keeps-put_channel amqp serving ch _ h)

    -- When the broker accepts the declaration, the exchange is there afterwards,
    -- with no error.
    pub exchange_declare-declares :
        (kind : Text)
        → Accepts P (λ ch. declare_exchange amqp ch (get_exchange_name prefix name) kind durable)
        → (s : Mq B C H)
        → let (e, s') = exchange_declare amqp prefix name kind durable s in (e ≡ none) × P s'.broker
    unfolding exchange_declare
    exchange_declare-declares kind broker s =
        let ch = (get_mq_channel amqp s).0.0 in
        let (accepted, h) = broker.accepted ch (get_mq_channel amqp s).1.broker in
        rw (channels s, exchange_declare, exchange_declare_rounds, ◌>>=◌, ◌>>◌, accepted)
          (refl, Keeps-put_channel amqp serving ch _ h)
