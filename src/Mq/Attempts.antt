-- ===== src/Mq/Attempts.antt =====
-- How often `queueDeclare` (mq.go) asks the broker.
use wmq.Common.{
  ℕ, zero, suc, ◌+◌, ◌≤◌, ◌≡◌, Bool, not, Option, none, Text, arith, Option-cases, inl, inr,
}
use wmq.Mq.{Queue, Amqp, Mq, ◌>>=◌, ◌>>◌, get_mq_channel, put_channel}
use wmq.Mq.Keeps.{KeepsServing, Keeps-get_mq_channel, Keeps-put_channel}
use wmq.Mq.Calls.{
  at_broker, declare_queue, queue_declare_rounds, queue_declare, no_queue, get_queue_name,
}

-- `attempts` counts the declarations that a broker was asked for: a declaration adds one, and no other call
-- of `queueDeclare` adds any.
pub record Counts {B C H : Type 0} (amqp : Amqp B C H) (attempts : B → ℕ) : Type 0 where
  pub declares :
      (ch : H) (name : Text) (durable auto_delete : Bool) (b : B)
      → attempts (amqp.queue_declare ch name durable auto_delete b).2 ≡ attempts b + 1
  pub deletes :
      (ch : H) (name : Text) (b : B) → attempts (amqp.queue_delete ch name b).1 ≡ attempts b
  pub dial : (b : B) → attempts (amqp.dial_config b).1 ≡ attempts b
  pub open_channel : (c : C) (b : B) → attempts (amqp.open_channel c b).1 ≡ attempts b
  pub close_connection : (c : C) (b : B) → attempts (amqp.close_connection c b) ≡ attempts b
  pub close_channel : (ch : H) (b : B) → attempts (amqp.close_channel ch b) ≡ attempts b
  pub tx : (ch : H) (b : B) → attempts (amqp.tx ch b).1 ≡ attempts b
  pub tx_commit : (ch : H) (b : B) → attempts (amqp.tx_commit ch b) ≡ attempts b

module _ {B C H : Type 0} (amqp : Amqp B C H) (attempts : B → ℕ)
    (counts : Counts amqp attempts) where
  serving : (n : ℕ) → KeepsServing (λ b. attempts b ≤ n) amqp
  serving n = record {
    dial = λ b h. omega (arith, counts.dial b);
    open_channel = λ c b h. omega (arith, counts.open_channel c b);
    close_connection = λ c b h. omega (arith, counts.close_connection c b);
    close_channel = λ ch b h. omega (arith, counts.close_channel ch b);
    tx = λ ch b h. omega (arith, counts.tx ch b);
    tx_commit = λ ch b h. omega (arith, counts.tx_commit ch b);
  }

  queue_rounds-attempts :
      (name : Text) (durable : Bool) (n : ℕ) (queue : Queue) (failure : Option Text) (m : ℕ)
      (s : Mq B C H)
      → attempts s.broker ≤ m
      → attempts (queue_declare_rounds amqp name durable n queue failure s).1.broker ≤ m + n
  unfolding queue_declare_rounds
  queue_rounds-attempts name durable zero queue failure m s h = omega arith
  queue_rounds-attempts name durable (suc n) queue failure m s h =
      let ch = (get_mq_channel amqp s).0.0 in
      let s₁ = (get_mq_channel amqp s).1 in
      let h₁ = Keeps-get_mq_channel amqp (serving m) s h in
      let asked = at_broker (declare_queue amqp ch name durable) s₁ in
      let h₂ : attempts asked.1.broker ≤ m + 1 =
        omega (arith, h₁, counts.declares ch name durable (not durable) s₁.broker) in
      let s₂ = (put_channel amqp ch asked.1).1 in
      let h₃ = Keeps-put_channel amqp (serving (m + 1)) ch asked.1 h₂ in
      let ch' = (get_mq_channel amqp s₂).0.0 in
      let s₃ = (get_mq_channel amqp s₂).1 in
      let h₄ = Keeps-get_mq_channel amqp (serving (m + 1)) s₂ h₃ in
      let gone = at_broker (amqp.queue_delete ch' name) s₃ in
      let h₅ : attempts gone.1.broker ≤ m + 1 =
        omega (arith, h₄, counts.deletes ch' name s₃.broker) in
      elim (Option-cases (get_mq_channel amqp s).0.1) [
        | inr (e, none_left) ↦
            let kept = Keeps-put_channel amqp (serving m) ch s₁ h₁ in
            rw (none_left, queue_declare_rounds, ◌>>=◌, ◌>>◌) (omega (arith, kept))
        | inl had ↦ elim (Option-cases asked.0.1) [
          | inl fine ↦ rw (had, queue_declare_rounds, ◌>>=◌, ◌>>◌, fine) (omega (arith, h₃))
          | inr (e, refused) ↦ elim (Option-cases (get_mq_channel amqp s₂).0.1) [
            | inr (e', none_left) ↦
                let kept = Keeps-put_channel amqp (serving (m + 1)) ch' s₃ h₄ in
                rw (had, queue_declare_rounds, ◌>>=◌, ◌>>◌, refused, none_left)
                  (omega (arith, kept))
            | inl had' ↦
                let kept = Keeps-put_channel amqp (serving (m + 1)) ch' gone.1 h₅ in
                let last =
                  queue_rounds-attempts name durable n asked.0.0 gone.0 (m + 1)
                    (put_channel amqp ch' gone.1).1 kept in
                rw (had, queue_declare_rounds, ◌>>=◌, ◌>>◌, refused, had') (omega (arith, last))
          ]
        ]
      ]

  -- `queueDeclare` comes to an end after at most two declarations, whatever the broker answers and whether or
  -- not channels can be had.
  pub queue_declare-attempts :
      (prefix name : Text) (durable : Bool) (s : Mq B C H)
      → attempts (queue_declare amqp prefix name durable s).1.broker ≤ attempts s.broker + 2
  unfolding queue_declare
  queue_declare-attempts prefix name durable s =
      queue_rounds-attempts (get_queue_name prefix name) durable 2 no_queue none (attempts s.broker)
        s (omega arith)
