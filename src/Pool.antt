-- ===== src/Pool.antt =====
-- pool.go: a pool of connections in a buffered channel. The callbacks act on a world `W`, which
-- they read and change; every method but `Len` holds the pool's lock, so it is one step.
pub mod Creation
pub mod Service
pub mod Keeps
use wmq.Common.{
  ℕ, zero, suc, Bool, true, false, Option, none, some, List, [], ◌∷◌, ◌++◌, Text, text, ltb, length,
  if◌then◌else◌, Result, ok, err,
}

-- `poolConfig`. `A` is the type of what an `interface{}` holds when it is not nil.
pub record PoolConfig (W A : Type 0) : Type 0 where
  pub factory : W → Result A × W
  pub is_active : A → W → Bool × W
  pub release : A → W → W
  pub initial_cap : ℕ
  pub max_cap : ℕ

-- `netPool`: the channel's contents, the next to be received first, and its capacity.
pub record NetPool (A : Type 0) : Type 0 where
  pub conns : List A
  pub capacity : ℕ

-- How `newNetPool` ends. A send on a full channel that nobody reads never ends.
pub data Made (W A : Type 0) : Type 0 where
  built : NetPool A → W → Made W A
  failed : Text → W → Made W A
  blocked : W → Made W A

module _ {W A : Type 0} (cfg : PoolConfig W A) where
  -- `for c := range p.conns { p.config.Release(c) }`
  unfoldable pub release_each : List A → W → W
  release_each [] w = w
  release_each (c ∷ cs) w = release_each cs (cfg.release c w)

  unfoldable pub release_all : NetPool A → W → NetPool A × W
  unfolding release_each
  release_all p w = (record { conns = []; capacity = cfg.initial_cap }, release_each p.conns w)

  pub make_loop : ℕ → NetPool A → W → Made W A
  unfolding release_all
  make_loop zero p w = built p w
  make_loop (suc n) p w =
      let (made, w') = cfg.factory w in
      elim made [
        | ok c ↦ elim (ltb (length p.conns) p.capacity) [
          | true ↦ make_loop n (record p { conns = p.conns ++ c ∷ [] }) w'
          | false ↦ blocked w'
        ]
        | err e ↦ failed (text "factory is not able to fill the pool: " ++ e) (release_all p w').1
      ]

  pub new_net_pool : W → Made W A
  unfolding make_loop
  new_net_pool = make_loop cfg.initial_cap (record { conns = []; capacity = cfg.max_cap })

  -- The `for` loop of `Get`, on what the channel holds.
  unfoldable pub get_loop : List A → W → Result A × List A × W
  get_loop [] w = let (made, w') = cfg.factory w in (made, [], w')
  get_loop (c ∷ cs) w =
      let (active, w') = cfg.is_active c w in
      let rest = get_loop cs (cfg.release c w') in if active then (ok c, cs, w') else rest

  unfoldable pub get : NetPool A → W → Result A × NetPool A × W
  unfolding get_loop
  get p w = let (made, cs, w') = get_loop p.conns w in (made, record p { conns = cs }, w')

  -- An inactive connection is released, and then still goes on to the `select`.
  unfoldable pub put : NetPool A → Option A → W → NetPool A × W
  put p none w = (p, w)
  put p (some c) w =
      let (active, w₁) = cfg.is_active c w in
      let w₂ = if active then w₁ else cfg.release c w₁ in
      if ltb (length p.conns) p.capacity
      then (record p { conns = p.conns ++ c ∷ [] }, w₂)
      else (p, cfg.release c w₂)

  -- `Len`
  pub pool_len : NetPool A → ℕ
  pool_len p = length p.conns
