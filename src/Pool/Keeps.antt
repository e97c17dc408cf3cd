-- ===== src/Pool/Keeps.antt =====
-- What the callbacks of a pool (pool.go) keep of the world, its methods keep.
use wmq.Common.{
  Bool, true, false, Option, none, some, List, [], ◌∷◌, Bool-cases, inl, inr, if◌then◌else◌, ltb,
  length,
}
use wmq.Pool.{PoolConfig, NetPool, get_loop, get, put}

module _ {W A : Type 0} (P : W → Type 0) (cfg : PoolConfig W A) where
  pub record Keeps : Type 0 where
    pub factory : (w : W) → P w → P (cfg.factory w).1
    pub is_active : (c : A) (w : W) → P w → P (cfg.is_active c w).1
    pub release : (c : A) (w : W) → P w → P (cfg.release c w)

module _ {W A : Type 0} {P : W → Type 0} (cfg : PoolConfig W A) (k : Keeps P cfg) where
  Keeps-if : (b : Bool) {x y : W} → P x → P y → P (if b then x else y)
  Keeps-if true hx hy = hx
  Keeps-if false hx hy = hy

  Keeps-get_loop : (cs : List A) (w : W) → P w → P (get_loop cfg cs w).2
  unfolding get_loop
  Keeps-get_loop [] w h = k.factory w h
  Keeps-get_loop (c ∷ cs) w h =
      let h' = k.is_active c w h in
      elim (Bool-cases (cfg.is_active c w).0) [
        | inl live ↦ rw live h'
        | inr dead ↦ rw dead (Keeps-get_loop cs _ (k.release c _ h'))
      ]

  pub Keeps-get : (p : NetPool A) (w : W) → P w → P (get cfg p w).2
  unfolding get
  Keeps-get p w h = Keeps-get_loop p.conns w h

  pub Keeps-put : (p : NetPool A) (c : Option A) (w : W) → P w → P (put cfg p c w).1
  unfolding put
  Keeps-put p none w h = h
  Keeps-put p (some c) w h =
      let h' = k.is_active c w h in
      let h'' = Keeps-if (cfg.is_active c w).0 h' (k.release c _ h') in
      elim (Bool-cases (ltb (length p.conns) p.capacity)) [
        | inl room ↦ rw room h''
        | inr full ↦ rw full (k.release c _ h'')
      ]
