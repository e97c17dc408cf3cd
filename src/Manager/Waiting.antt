-- ===== src/Manager/Waiting.antt =====
-- A goroutine of message.go that waits at its `select`, among the others.
use wmq.Common.{
  subst, ℕ, zero, suc, ◌≡◌, ◌≢◌, sym, ap, ◌∙◌, inl, inr, ◌⊎◌, some, List, [], ◌∷◌, ◌++◌, Text,
  get_elem?, set, erase_idx,
}
use wmq.ConcurrentMap.{ConcurrentMap}
use wmq.Manager.{Item, waits, Worker}
use wmq.Manager.Keys.{AllHave, NoWorker, NoWorker-get}

-- The goroutine of the key waits, and has this entry in hand.
abbrev pub waiting_with : Text → Item → Worker
waiting_with k item = record { key = k; pc = waits item }

abbrev pub Waiting : Text → Item → List Worker → Type 0
Waiting k item [] = ⊥
Waiting k item (w ∷ ws) = (w ≡ waiting_with k item) ⊎ Waiting k item ws

pub some-injective : {A : Type 0} {x y : A} → some x ≡ some y → x ≡ y
some-injective e = cc

module _ (k : Text) (item : Item) where
  pub Waiting-get :
      (ws : List Worker) (i : ℕ) (w : Worker)
      → get_elem? ws i ≡ some w
      → w ≡ waiting_with k item
      → Waiting k item ws
  Waiting-get [] i w e at = cc
  Waiting-get (x ∷ ws) zero w e at = inl (some-injective e ∙ at)
  Waiting-get (x ∷ ws) (suc i) w e at = inr (Waiting-get ws i w e at)

  -- Other goroutines come and go.
  pub Waiting-set :
      (ws : List Worker) (i : ℕ) (w w' : Worker)
      → get_elem? ws i ≡ some w
      → w.key ≢ k
      → Waiting k item ws
      → Waiting k item (set ws i w')
  Waiting-set [] i w w' e ne h = h
  Waiting-set (x ∷ ws) zero w w' e ne (inl at) =
      absurd (ne (ap (λ v. v.key) (sym (some-injective e) ∙ at)))
  Waiting-set (x ∷ ws) zero w w' e ne (inr h) = inr h
  Waiting-set (x ∷ ws) (suc i) w w' e ne (inl at) = inl at
  Waiting-set (x ∷ ws) (suc i) w w' e ne (inr h) = inr (Waiting-set ws i w w' e ne h)

  pub Waiting-erase_idx :
      (ws : List Worker) (i : ℕ) (w : Worker)
      → get_elem? ws i ≡ some w
      → w.key ≢ k
      → Waiting k item ws
      → Waiting k item (erase_idx ws i)
  Waiting-erase_idx [] i w e ne h = h
  Waiting-erase_idx (x ∷ ws) zero w e ne (inl at) =
      absurd (ne (ap (λ v. v.key) (sym (some-injective e) ∙ at)))
  Waiting-erase_idx (x ∷ ws) zero w e ne (inr h) = h
  Waiting-erase_idx (x ∷ ws) (suc i) w e ne (inl at) = inl at
  Waiting-erase_idx (x ∷ ws) (suc i) w e ne (inr h) = inr (Waiting-erase_idx ws i w e ne h)

  pub Waiting-append :
      (ws : List Worker) (w : Worker) → Waiting k item ws → Waiting k item (ws ++ w ∷ [])
  Waiting-append [] w h = absurd h
  Waiting-append (x ∷ ws) w (inl at) = inl at
  Waiting-append (x ∷ ws) w (inr h) = inr (Waiting-append ws w h)

  NoWorker-Waiting : (ws : List Worker) → NoWorker k ws → Waiting k item ws → ⊥
  NoWorker-Waiting [] free h = h
  NoWorker-Waiting (x ∷ ws) free (inl at) = free.0 (ap (λ v. v.key) at)
  NoWorker-Waiting (x ∷ ws) free (inr h) = NoWorker-Waiting ws free.1 h

  -- It is the only one of its key.
  pub Waiting-only :
      (t : ConcurrentMap Item) (ws : List Worker) (i : ℕ) (w : Worker)
      → AllHave t ws
      → Waiting k item ws
      → get_elem? ws i ≡ some w
      → w.key ≡ k
      → w.pc ≡ waits item
  Waiting-only t [] i w a h e same = absurd h
  Waiting-only t (x ∷ ws) zero w a (inl at) e same = ap (λ v. v.pc) (sym (some-injective e) ∙ at)
  Waiting-only t (x ∷ ws) zero w a (inr h) e same = absurd (
      NoWorker-Waiting ws
        (subst (λ j. NoWorker j ws) (ap (λ v. v.key) (some-injective e) ∙ same) a.1) h)
  Waiting-only t (x ∷ ws) (suc i) w a (inl at) e same =
      absurd (NoWorker-get x.key ws i w e a.1 (same ∙ sym (ap (λ v. v.key) at)))
  Waiting-only t (x ∷ ws) (suc i) w a (inr h) e same = Waiting-only t ws i w a.2 h e same
