-- ===== src/Pool/Service.antt =====
-- `Get` and `Put` (pool.go), call by call.
use wmq.Common.{
  ◌≡◌, refl, ap, ◌⊎◌, inl, inr, true, false, List, [], ◌∷◌, ◌++◌, Result, ok, Bool-cases,
}
use wmq.Pool.{PoolConfig, NetPool, get_loop, get}

module _ {W A : Type 0} (cfg : PoolConfig W A) where
  -- Each connection of the list, in order, was found inactive and was released.
  pub data Discards : List A → W → W → Type 0 where
    no_more : {w : W} → Discards [] w w
    drops :
        {cs : List A} {u v w : W} (c : A)
        → cfg.is_active c u ≡ (false, v)
        → Discards cs (cfg.release c v) w
        → Discards (c ∷ cs) u w

  abbrev pub Served : List A → W → Result A × List A × W → Type 0
  Served cs w (r, left, w') =
      ((dropped : List A) × (c : A) × (u : W) × (cs ≡ dropped ++ c ∷ left)
        × Discards dropped w u
        × (cfg.is_active c u ≡ (true, w'))
        × (r ≡ ok c))
      ⊎ ((u : W) × Discards cs w u × (cfg.factory u ≡ (r, w')) × (left ≡ []))

  get_loop-Served : (cs : List A) (w : W) → Served cs w (get_loop cfg cs w)
  unfolding get_loop
  get_loop-Served [] w = inr (w, no_more, refl, refl)
  get_loop-Served (c ∷ cs) w = elim (Bool-cases (cfg.is_active c w).0) [
    | inl live ↦
        rw live (inl ([], c, w, refl, no_more, (λ i. (live i, (cfg.is_active c w).1)), refl))
    | inr dead ↦ rw dead (
        later (λ i. (dead i, (cfg.is_active c w).1))
          (get_loop-Served cs (cfg.release c (cfg.is_active c w).1)))
  ]
    where
      later :
          {v : W} {out : Result A × List A × W}
          → cfg.is_active c w ≡ (false, v)
          → Served cs (cfg.release c v) out
          → Served (c ∷ cs) w out
      later dead (inl (dropped, d, u, e, discards, live, r)) =
          inl (c ∷ dropped, d, u, ap (◌∷◌ c) e, drops c dead discards, live, r)
      later dead (inr (u, discards, made, left)) = inr (u, drops c dead discards, made, left)

  -- `Get` tests the pooled connections in order, releases each inactive one once, and returns
  -- the first active one, with those behind it still pooled; when none is active the pool is
  -- empty and the result is the factory's. The capacity stays.
  pub get-Served :
      (p : NetPool A) (w : W)
      → let (r, p', w') = get cfg p w in
        Served p.conns w (r, p'.conns, w') × (p'.capacity ≡ p.capacity)
  unfolding get
  get-Served p w = (get_loop-Served p.conns w, refl)
