-- ===== src/Pool/Creation.antt =====
-- `newNetPool` (pool.go): all connections, or none and those made so far released.
use wmq.Common.{
  ◌≢◌, Bool-cases, ℕ, zero, suc, ◌+◌, ◌≤◌, ◌<◌, ◌≡◌, refl, inl, inr, List, [], ◌∷◌, ◌++◌, Text,
  text, arith, ltb, length, length-append, ok, err, Result-cases,
}
use wmq.Pool.{
  PoolConfig, NetPool, Made, built, failed, blocked, release_each, release_all, make_loop,
  new_net_pool,
}

module _ {W A : Type 0} (cfg : PoolConfig W A) where
  -- `cfg.factory` has made the connections of the list, one call each.
  pub data Makes : List A → W → W → Type 0 where
    none_yet : {w : W} → Makes [] w w
    one_more :
        {cs : List A} {u v w : W} (c : A)
        → Makes cs u v
        → cfg.factory v ≡ (ok c, w)
        → Makes (cs ++ c ∷ []) u w

  abbrev pub Outcome : ℕ → ℕ → W → Made W A → Type 0
  Outcome n cap w (built p w') = Makes p.conns w w' × (length p.conns ≡ n) × (p.capacity ≡ cap)
  Outcome n cap w (failed e w') =
      (cs : List A) × (v : W) × (u : W) × (cause : Text) × Makes cs w v
      × (cfg.factory v ≡ (err cause, u))
      × (length cs < n)
      × (e ≡ text "factory is not able to fill the pool: " ++ cause)
      × (w' ≡ release_each cfg cs u)
  Outcome n cap w (blocked w') = cap < n

  make_loop-Outcome :
      (k : ℕ) (p : NetPool A) (start w : W) {n : ℕ}
      → n ≡ length p.conns + k
      → length p.conns ≤ p.capacity
      → Makes p.conns start w
      → Outcome n p.capacity start (make_loop cfg k p w)
  unfolding make_loop
  make_loop-Outcome zero p start w e fits made = (made, omega arith, refl)
  make_loop-Outcome (suc k) p start w {n} e fits made = elim (Result-cases (cfg.factory w).0) [
    | inl (c, good) ↦ elim (Bool-cases (ltb (length p.conns) p.capacity)) [
      | inl room ↦
          rw (good, room, make_loop)
            (make_loop-Outcome k (record p { conns = p.conns ++ c ∷ [] }) start (cfg.factory w).1
              (omega (arith, length-append p.conns (c ∷ [])))
              (ground (arith, length-append p.conns (c ∷ [])))
              (one_more c made (λ i. (good i, (cfg.factory w).1))))
      | inr full ↦ rw (good, full, make_loop) (ground arith)
    ]
    | inr (cause, bad) ↦
        rw (bad, make_loop)
          (
            p.conns,
            w,
            (cfg.factory w).1,
            cause,
            made,
            λ i. (bad i, (cfg.factory w).1),
            omega arith,
            refl,
            unfold release_all in refl,
          )
  ]

  -- When the pool can hold its first connections, it is returned with just these, or the first
  -- error of the factory is returned and every connection made before it has been released, in
  -- order. The constructor never blocks.
  pub new_net_pool-Outcome :
      (w : W)
      → cfg.initial_cap ≤ cfg.max_cap
      → Outcome cfg.initial_cap cfg.max_cap w (new_net_pool cfg w)
        × ((w' : W) → new_net_pool cfg w ≢ blocked w')
  unfolding new_net_pool
  new_net_pool-Outcome w fits = (outcome, λ w' e. absurd (too_small w' e))
    where
      outcome : Outcome cfg.initial_cap cfg.max_cap w (new_net_pool cfg w)
      outcome =
          make_loop-Outcome cfg.initial_cap (record { conns = []; capacity = cfg.max_cap }) w w
            (omega arith) (omega arith) none_yet

      too_small : (w' : W) → new_net_pool cfg w ≡ blocked w' → ⊥
      too_small w' e = let below : cfg.max_cap < cfg.initial_cap = rw e at outcome in omega arith
