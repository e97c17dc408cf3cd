-- ===== src/Tests/Pools.antt =====
-- Runs of the pool (pool.go), with numbered connections of which those below 2 are inactive. The
-- world is the next number.
use wmq.Common.{ℕ, suc, ◌≡◌, ◌≢◌, arith, false, [], ◌∷◌, leb, ok}
use wmq.Pool.{PoolConfig, NetPool, blocked, new_net_pool, get}
use wmq.Pool.Creation.{Outcome, new_net_pool-Outcome}
use wmq.Pool.Service.{Served, get-Served}

abbrev numbered : PoolConfig ℕ ℕ
numbered = record {
  factory = λ n. (ok n, suc n);
  is_active = λ c n. (leb 2 c, n);
  release = λ c n. n;
  initial_cap = 2;
  max_cap = 3;
}

abbrev all_dead : PoolConfig ℕ ℕ
all_dead = record numbered { is_active = λ c n. (false, n) }

abbrev three : NetPool ℕ
three = record { conns = 1 ∷ 2 ∷ 3 ∷ []; capacity = 3 }

new_net_pool_example :
    Outcome numbered 2 3 0 (new_net_pool numbered 0)
    × ((w' : ℕ) → new_net_pool numbered 0 ≢ blocked w')
new_net_pool_example = new_net_pool-Outcome numbered 0 (omega arith)

get_example :
    Served numbered
      (1 ∷ 2 ∷ 3 ∷ [])
      5
      ((get numbered three 5).0, (get numbered three 5).1.conns, (get numbered three 5).2)
    × ((get numbered three 5).1.capacity ≡ 3)
get_example = get-Served numbered three 5
