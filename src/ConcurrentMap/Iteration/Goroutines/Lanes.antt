-- ===== src/ConcurrentMap/Iteration/Goroutines/Lanes.antt =====
-- Sums and properties over the lanes of the iterator's goroutines (map.go).
use wmq.Common.{
  ℕ, zero, suc, ◌+◌, ◌≤◌, ◌<◌, ◌≡◌, refl, sym, ap, ◌∙◌, subst, arith, ◌⊎◌, inl, inr, nat_eq-cases,
  some, List, [], ◌∷◌, get_elem?, set, map,
}

module _ {A : Type 0} where
  abbrev pub total : (A → ℕ) → List A → ℕ
  total f [] = 0
  total f (x ∷ xs) = f x + total f xs

  abbrev pub All : (A → Type 0) → List A → Type 0
  All P [] = Unit
  All P (x ∷ xs) = P x × All P xs

  some-injective : {x y : A} → some x ≡ some y → x ≡ y
  some-injective e = cc

  pub total-set :
      (f : A → ℕ) (xs : List A) (i : ℕ) (x y : A)
      → get_elem? xs i ≡ some x
      → total f (set xs i y) + f x ≡ total f xs + f y
  total-set f [] i x y e = cc
  total-set f (z ∷ xs) zero x y e = omega (arith, ap f (some-injective e))
  total-set f (z ∷ xs) (suc i) x y e = omega (arith, total-set f xs i x y e)

  pub total-get :
      (f : A → ℕ) (xs : List A) (i : ℕ) (x : A) → get_elem? xs i ≡ some x → f x ≤ total f xs
  total-get f [] i x e = cc
  total-get f (z ∷ xs) zero x e = omega (arith, ap f (some-injective e))
  total-get f (z ∷ xs) (suc i) x e = omega (arith, total-get f xs i x e)

  pub All-set : (P : A → Type 0) (xs : List A) (i : ℕ) (y : A) → All P xs → P y → All P (set xs i y)
  All-set P [] i y h p = tt
  All-set P (z ∷ xs) zero y h p = (p, h.1)
  All-set P (z ∷ xs) (suc i) y h p = (h.0, All-set P xs i y h.1 p)

  pub All-get :
      (P : A → Type 0) (xs : List A) (i : ℕ) (x : A) → All P xs → get_elem? xs i ≡ some x → P x
  All-get P [] i x h e = cc
  All-get P (z ∷ xs) zero x h e = subst P (some-injective e) h.0
  All-get P (z ∷ xs) (suc i) x h e = All-get P xs i x h.1 e

  pub map-set :
      {B : Type 0} (f : A → B) (xs : List A) (i : ℕ) (y : A)
      → map f (set xs i y) ≡ set (map f xs) i (f y)
  map-set f [] i y = refl
  map-set f (z ∷ xs) zero y = refl
  map-set f (z ∷ xs) (suc i) y = ap (λ ys. f z ∷ ys) (map-set f xs i y)

  pub map-set_same :
      {B : Type 0} (f : A → B) (xs : List A) (i : ℕ) (x y : A)
      → get_elem? xs i ≡ some x
      → f y ≡ f x
      → map f (set xs i y) ≡ map f xs
  map-set_same f [] i x y e h = refl
  map-set_same f (z ∷ xs) zero x y e h = ap (λ w. w ∷ map f xs) (h ∙ ap f (sym (some-injective e)))
  map-set_same f (z ∷ xs) (suc i) x y e h = ap (λ ys. f z ∷ ys) (map-set_same f xs i x y e h)

  -- Either none of the numbers counts, or one of them does.
  pub find_counting :
      (f : A → ℕ) (xs : List A)
      → (total f xs ≡ 0) ⊎ ((i : ℕ) × (x : A) × (get_elem? xs i ≡ some x) × (0 < f x))
  find_counting f [] = inl refl
  find_counting f (x ∷ xs) = elim (find_counting f xs) [
    | inr (i, y, e, counts) ↦ inr (suc i, y, e, counts)
    | inl none_later ↦ elim (nat_eq-cases (f x) 0) [
      | inl (empty, t) ↦ inl (omega (arith, none_later, empty))
      | inr (full, t) ↦ inr (0, x, refl, omega (arith, full))
    ]
  ]
