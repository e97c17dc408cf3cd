-- ===== src/Mq.antt =====
-- mq.go: the two pools, of connections and of channels, and the RabbitMQ calls that go through
-- them. The client library of RabbitMQ is the parameter `Amqp`; log lines are left out.
pub mod Calls
pub mod Keeps
pub mod Declares
pub mod Accepted
pub mod Attempts
use wmq.Common.{
  ℕ, zero, suc, Bool, true, false, not, Option, none, some, List, [], ◌∷◌, ◌++◌, Text, text, ltb,
  length, if◌then◌else◌, Result, ok, err,
}
use wmq.Pool.{PoolConfig, NetPool, Made, built, failed, blocked, get, put, new_net_pool}

-- `amqp.Queue`: of its fields the program reads `Messages`.
pub record Queue : Type 0 where
  pub messages : ℕ

-- The client library over the state `B` of the broker and the network. `C` stands for
-- `*amqp.Connection` and `H` for `*amqp.Channel`, nil pointers included. An error is `some`.
pub record Amqp (B C H : Type 0) : Type 0 where
  pub dial_config : B → Result C × B
  pub open_channel : C → B → Result H × B
  pub close_connection : C → B → B
  pub close_channel : H → B → B
  pub nil_channel : H
  pub is_nil : H → Bool
  pub tx : H → B → Option Text × B
  pub tx_commit : H → B → B
  -- name, durable, autoDelete
  pub queue_declare : H → Text → Bool → Bool → B → Queue × Option Text × B
  pub queue_delete : H → Text → B → Option Text × B
  -- name, kind, durable, autoDelete
  pub exchange_declare : H → Text → Text → Bool → Bool → B → Option Text × B
  pub exchange_delete : H → Text → B → Option Text × B
  -- queue, routing key, exchange
  pub queue_bind : H → Text → Text → Text → B → Option Text × B
  -- exchange, routing key, body
  pub publish : H → Text → Text → Text → B → Option Text × B

-- What the program keeps between calls: `pools`, `channelPools` and the world behind them.
pub record Mq (B C H : Type 0) : Type 0 where
  pub pools : NetPool C
  pub channel_pools : NetPool H
  pub broker : B

abbrev pub pool_initial_cap : ℕ
pool_initial_cap = 5

abbrev pub pool_max_cap : ℕ
pool_max_cap = 300

abbrev pub pool_channel_initial_cap : ℕ
pool_channel_initial_cap = 10

abbrev pub pool_channel_max_cap : ℕ
pool_channel_max_cap = 1000

-- A call that acts on the pools and the broker.
abbrev pub Go : Type 0 → Type 0 → Type 0
Go S X = S → X × S

infixl 5 ◌>>=◌ ◌>>◌
abbrev pub ◌>>=◌ : {S X Y : Type 0} → Go S X → (X → Go S Y) → Go S Y
◌>>=◌ m f s = let (x, s') = m s in f x s'

abbrev pub ◌>>◌ : {S X Y : Type 0} → Go S X → Go S Y → Go S Y
◌>>◌ m n s = n (m s).1

abbrev pub pure : {S X : Type 0} → X → Go S X
pure x s = (x, s)

-- What the callbacks of the channel pool act on.
abbrev pub World : Type 0 → Type 0 → Type 0
World B C = NetPool C × B

module _ {B C H : Type 0} (amqp : Amqp B C H) where
  -- The `poolConfig` of `initPool`.
  unfoldable pub pool_config : PoolConfig B C
  pool_config = record {
    factory = amqp.dial_config;
    is_active = λ conn b. elim (amqp.open_channel conn b).0 [
      | ok ch ↦ (true, amqp.close_channel ch (amqp.open_channel conn b).1)
      | err e ↦ (false, (amqp.open_channel conn b).1)
    ];
    release = amqp.close_connection;
    initial_cap = pool_initial_cap;
    max_cap = pool_max_cap;
  }

  -- The `Factory` of `initChannelPool`: a connection is taken, asked for a channel, and put back.
  unfoldable pub make_channel : World B C → Result H × World B C
  unfolding pool_config
  make_channel (pools, b) =
      let (taken, pools', b') = get pool_config pools b in
      elim taken [
        | ok conn ↦
            let (made, b'') = amqp.open_channel conn b' in
            (made, put pool_config pools' (some conn) b'')
        | err e ↦ (err e, put pool_config pools' none b')
      ]

  -- Its `IsActive`: the channel enters transaction mode and commits.
  unfoldable pub channel_is_active : H → World B C → Bool × World B C
  channel_is_active ch (pools, b) =
      if amqp.is_nil ch then (false, (pools, b)) else elim (amqp.tx ch b).0 [
        | none ↦ (true, (pools, amqp.tx_commit ch (amqp.tx ch b).1))
        | some e ↦ (false, (pools, (amqp.tx ch b).1))
      ]

  -- Its `Release`.
  unfoldable pub release_channel : H → World B C → World B C
  release_channel ch (pools, b) = (pools, if amqp.is_nil ch then b else amqp.close_channel ch b)

  -- The `poolConfig` of `initChannelPool`.
  unfoldable pub channel_pool_config : PoolConfig (World B C) H
  unfolding make_channel channel_is_active release_channel
  channel_pool_config = record {
    factory = make_channel;
    is_active = channel_is_active;
    release = release_channel;
    initial_cap = pool_channel_initial_cap;
    max_cap = pool_channel_max_cap;
  }

  -- `initPool` and `initChannelPool`.
  pub init_pool : B → Made B C
  unfolding pool_config
  init_pool = new_net_pool pool_config

  pub init_channel_pool : World B C → Made (World B C) H
  unfolding channel_pool_config
  init_channel_pool = new_net_pool channel_pool_config

  -- `getMqConnection`: on an error the connection is nil.
  pub get_mq_connection : Go (Mq B C H) (Option C × Option Text)
  unfolding pool_config
  get_mq_connection s =
      let (taken, pools, broker) = get pool_config s.pools s.broker in
      (
        elim taken [ ok conn ↦ (some conn, none) | err e ↦ (none, some e) ],
        record s { pools = pools; broker = broker },
      )

  -- `getMqChannel`: on an error the channel is nil.
  unfoldable pub get_mq_channel : Go (Mq B C H) (H × Option Text)
  unfolding channel_pool_config
  get_mq_channel s =
      let (taken, channels, (pools, broker)) =
        get channel_pool_config s.channel_pools (s.pools, s.broker) in
      (
        elim taken [ ok ch ↦ (ch, none) | err e ↦ (amqp.nil_channel, some e) ],
        record { pools = pools; channel_pools = channels; broker = broker },
      )

  -- `channelPools.Put(channel)`. A nil `*amqp.Channel` is no nil interface.
  unfoldable pub put_channel : H → Go (Mq B C H) (Unit {0})
  unfolding channel_pool_config
  put_channel ch s =
      let (channels, (pools, broker)) =
        put channel_pool_config s.channel_pools (some ch) (s.pools, s.broker) in
      (tt, record { pools = pools; channel_pools = channels; broker = broker })
