-- ===== src/Mq/Accepted.antt =====
-- What the calls of mq.go that declare and bind keep of a broker that accepts the queues. It matters that
-- they are accepted: `queueDeclare` deletes a queue that is refused.
use wmq.Common.{ℕ, zero, suc, ◌≡◌, Bool, not, Option, none, Text, inl, inr, Option-cases}
use wmq.Mq.{Queue, Amqp, Mq, ◌>>=◌, ◌>>◌, get_mq_channel, put_channel}
use wmq.Mq.Calls.{
  at_broker, declare_queue, queue_declare_rounds, exchange_declare_rounds, with_channel,
  get_queue_name, get_exchange_name, queue_declare, exchange_declare, queue_bind_to_exchange,
}
use wmq.Mq.Keeps.{KeepsServing, Keeps-get_mq_channel, Keeps-put_channel}

pub record Accepts {B C H : Type 0} (P : B → Type 0) (amqp : Amqp B C H) : Type 0 where
  pub serving : KeepsServing P amqp
  pub queue :
      (ch : H) (name : Text) (durable : Bool) (b : B)
      → P b
      → ((declare_queue amqp ch name durable b).0.1 ≡ none)
        × P (declare_queue amqp ch name durable b).1
  pub exchange :
      (ch : H) (name kind : Text) (durable : Bool) (b : B)
      → P b
      → P (amqp.exchange_declare ch name kind durable (not durable) b).1
  pub exchange_delete : (ch : H) (name : Text) (b : B) → P b → P (amqp.exchange_delete ch name b).1
  pub bind :
      (ch : H) (queue key exchange : Text) (b : B)
      → P b
      → P (amqp.queue_bind ch queue key exchange b).1

module _ {B C H : Type 0} {P : B → Type 0} (amqp : Amqp B C H) (accepts : Accepts P amqp) where
  queue_rounds-keeps :
      (name : Text) (durable : Bool) (n : ℕ) (queue : Queue) (failure : Option Text) (s : Mq B C H)
      → P s.broker
      → P (queue_declare_rounds amqp name durable n queue failure s).1.broker
  unfolding queue_declare_rounds
  queue_rounds-keeps name durable zero queue failure s h = h
  queue_rounds-keeps name durable (suc n) queue failure s h =
      let ch = (get_mq_channel amqp s).0.0 in
      let s₁ = (get_mq_channel amqp s).1 in
      let h₁ = Keeps-get_mq_channel amqp accepts.serving s h in
      elim (Option-cases (get_mq_channel amqp s).0.1) [
        | inr (e, none_left) ↦
            rw (none_left, queue_declare_rounds, ◌>>=◌, ◌>>◌)
              (Keeps-put_channel amqp accepts.serving ch s₁ h₁)
        | inl had ↦
            let asked = at_broker (declare_queue amqp ch name durable) s₁ in
            let (fine, h₂) = accepts.queue ch name durable s₁.broker h₁ in
            rw (had, queue_declare_rounds, ◌>>=◌, ◌>>◌, fine)
              (Keeps-put_channel amqp accepts.serving ch asked.1 h₂)
      ]

  exchange_rounds-keeps :
      (name kind : Text) (durable : Bool) (n : ℕ) (failure : Option Text) (s : Mq B C H)
      → P s.broker
      → P (exchange_declare_rounds amqp name kind durable n failure s).1.broker
  unfolding exchange_declare_rounds
  exchange_rounds-keeps name kind durable zero failure s h = h
  exchange_rounds-keeps name kind durable (suc n) failure s h =
      let ch = (get_mq_channel amqp s).0.0 in
      let s₁ = (get_mq_channel amqp s).1 in
      let h₁ = Keeps-get_mq_channel amqp accepts.serving s h in
      let asked = at_broker (amqp.exchange_declare ch name kind durable (not durable)) s₁ in
      let h₂ = accepts.exchange ch name kind durable s₁.broker h₁ in
      let s₂ = (put_channel amqp ch asked.1).1 in
      let h₃ = Keeps-put_channel amqp accepts.serving ch asked.1 h₂ in
      let ch' = (get_mq_channel amqp s₂).0.0 in
      let s₃ = (get_mq_channel amqp s₂).1 in
      let h₄ = Keeps-get_mq_channel amqp accepts.serving s₂ h₃ in
      let gone = at_broker (amqp.exchange_delete ch' name) s₃ in
      let h₅ = accepts.exchange_delete ch' name s₃.broker h₄ in
      elim (Option-cases (get_mq_channel amqp s).0.1) [
        | inr (e, none_left) ↦
            rw (none_left, exchange_declare_rounds, ◌>>=◌, ◌>>◌)
              (Keeps-put_channel amqp accepts.serving ch s₁ h₁)
        | inl had ↦ elim (Option-cases asked.0) [
          | inl fine ↦ rw (had, exchange_declare_rounds, ◌>>=◌, ◌>>◌, fine) h₃
          | inr (e, refused) ↦ elim (Option-cases (get_mq_channel amqp s₂).0.1) [
            | inr (e', none_left) ↦
                rw (had, exchange_declare_rounds, ◌>>=◌, ◌>>◌, refused, none_left)
                  (Keeps-put_channel amqp accepts.serving ch' s₃ h₄)
            | inl had' ↦
                rw (had, exchange_declare_rounds, ◌>>=◌, ◌>>◌, refused, had')
                  (exchange_rounds-keeps name kind durable n gone.0 (put_channel amqp ch' gone.1).1
                    (Keeps-put_channel amqp accepts.serving ch' gone.1 h₅))
          ]
        ]
      ]

  with_channel-keeps :
      (use_channel : H → B → Option Text × B)
      → ((ch : H) (b : B) → P b → P (use_channel ch b).1)
      → (s : Mq B C H) → P s.broker
      → P (with_channel amqp use_channel s).1.broker
  unfolding with_channel
  with_channel-keeps use_channel keeps s h =
      let ch = (get_mq_channel amqp s).0.0 in
      let s₁ = (get_mq_channel amqp s).1 in
      let h₁ = Keeps-get_mq_channel amqp accepts.serving s h in
      elim (Option-cases (get_mq_channel amqp s).0.1) [
        | inr (e, none_left) ↦
            rw (none_left, with_channel, ◌>>=◌, ◌>>◌)
              (Keeps-put_channel amqp accepts.serving ch s₁ h₁)
        | inl had ↦
            rw (had, with_channel, ◌>>=◌, ◌>>◌)
              (Keeps-put_channel amqp accepts.serving ch (at_broker (use_channel ch) s₁).1
                (keeps ch s₁.broker h₁))
      ]

  pub queue_declare-keeps :
      (prefix name : Text) (durable : Bool) (s : Mq B C H)
      → P s.broker
      → P (queue_declare amqp prefix name durable s).1.broker
  unfolding queue_declare
  queue_declare-keeps prefix name durable s h = queue_rounds-keeps _ durable 2 _ none s h

  pub exchange_declare-keeps :
      (prefix name kind : Text) (durable : Bool) (s : Mq B C H)
      → P s.broker
      → P (exchange_declare amqp prefix name kind durable s).1.broker
  unfolding exchange_declare
  exchange_declare-keeps prefix name kind durable s h =
      exchange_rounds-keeps _ kind durable 2 none s h

  pub queue_bind-keeps :
      (prefix queue_name exchange_name key : Text) (s : Mq B C H)
      → P s.broker
      → P (queue_bind_to_exchange amqp prefix queue_name exchange_name key s).1.broker
  unfolding queue_bind_to_exchange
  queue_bind-keeps prefix queue_name exchange_name key s h =
      with_channel-keeps
        (λ ch.
          amqp.queue_bind ch (get_queue_name prefix queue_name) key
            (get_exchange_name prefix exchange_name))
        (λ ch b.
          accepts.bind ch (get_queue_name prefix queue_name) key
            (get_exchange_name prefix exchange_name) b)
        s h
