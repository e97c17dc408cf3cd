-- ===== src/Mq/Keeps.antt =====
-- What the calls that serve the pools of mq.go (dialling, channels, transactions) keep of the
-- broker, taking and returning a channel keeps.
use wmq.Common.{none, some, Result-cases, Option-cases, inl, inr, Bool-cases}
use wmq.Pool.{get}
use wmq.Pool.Keeps.{Keeps, Keeps-get, Keeps-put}
use wmq.Mq.{
  Amqp, Mq, World, pool_config, make_channel, channel_is_active, channel_pool_config,
  get_mq_channel, put_channel,
}

module _ {B C H : Type 0} (P : B → Type 0) (amqp : Amqp B C H) where
  pub record KeepsServing : Type 0 where
    pub dial : (b : B) → P b → P (amqp.dial_config b).1
    pub open_channel : (c : C) (b : B) → P b → P (amqp.open_channel c b).1
    pub close_connection : (c : C) (b : B) → P b → P (amqp.close_connection c b)
    pub close_channel : (ch : H) (b : B) → P b → P (amqp.close_channel ch b)
    pub tx : (ch : H) (b : B) → P b → P (amqp.tx ch b).1
    pub tx_commit : (ch : H) (b : B) → P b → P (amqp.tx_commit ch b)

module _ {B C H : Type 0} {P : B → Type 0} (amqp : Amqp B C H) (k : KeepsServing P amqp) where
  pub pool_config-Keeps : Keeps P (pool_config amqp)
  unfolding pool_config
  pool_config-Keeps = record {
    factory = k.dial;
    is_active = λ c b h. elim (Result-cases (amqp.open_channel c b).0) [
      | inl (ch, e) ↦ rw e (k.close_channel ch _ (k.open_channel c b h))
      | inr (failure, e) ↦ rw e (k.open_channel c b h)
    ];
    release = k.close_connection;
  }

  make_channel-keeps : (w : World B C) → P w.1 → P (make_channel amqp w).1.1
  unfolding make_channel
  make_channel-keeps w h =
      let h' = Keeps-get (pool_config amqp) pool_config-Keeps w.0 w.1 h in
      let keeps_put = Keeps-put (pool_config amqp) pool_config-Keeps in
      elim (Result-cases (get (pool_config amqp) w.0 w.1).0) [
        | inl (conn, e) ↦
            rw (e, make_channel) (keeps_put _ (some conn) _ (k.open_channel conn _ h'))
        | inr (failure, e) ↦ rw (e, make_channel) (keeps_put _ none _ h')
      ]

  channel_pool_config-Keeps : Keeps (λ (w : World B C). P w.1) (channel_pool_config amqp)
  unfolding channel_pool_config
  channel_pool_config-Keeps = record {
    factory = make_channel-keeps;
    is_active = λ ch w h. elim (Bool-cases (amqp.is_nil ch)) [
      | inl nil ↦ rw (nil, channel_is_active) h
      | inr live ↦ elim (Option-cases (amqp.tx ch w.1).0) [
        | inl e ↦ rw (live, channel_is_active, e) (k.tx_commit ch _ (k.tx ch w.1 h))
        | inr (failure, e) ↦ rw (live, channel_is_active, e) (k.tx ch w.1 h)
      ]
    ];
    release = λ ch w h. elim (Bool-cases (amqp.is_nil ch)) [
      | inl nil ↦ rw nil h
      | inr live ↦ rw live (k.close_channel ch w.1 h)
    ];
  }

  pub Keeps-get_mq_channel : (s : Mq B C H) → P s.broker → P (get_mq_channel amqp s).1.broker
  unfolding get_mq_channel
  Keeps-get_mq_channel s h =
      Keeps-get (channel_pool_config amqp) channel_pool_config-Keeps s.channel_pools
        (s.pools, s.broker) h

  pub Keeps-put_channel : (ch : H) (s : Mq B C H) → P s.broker → P (put_channel amqp ch s).1.broker
  unfolding put_channel
  Keeps-put_channel ch s h =
      Keeps-put (channel_pool_config amqp) channel_pool_config-Keeps s.channel_pools (some ch)
        (s.pools, s.broker) h
