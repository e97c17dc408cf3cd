-- ===== src/ConcurrentMap/Iteration/Goroutines/Carried.antt =====
-- What the output channel of `IterBuffered` (map.go) carries when its goroutines run: the tuples of each shard, in the
-- order in which its `range` took them.
use wmq.Common.{
  ℕ, zero, suc, ◌<◌, ◌≡◌, refl, sym, ap, ◌∙◌, subst, arith, some, List, [], ◌∷◌, ◌++◌, map, Text,
  length, get_or, get_elem?, set, nat_eq-cases, inl, inr, get_or-set_self, get_or-set_ne, true,
  false,
}
use wmq.Common.Dict.{Dict, lookup, delete}
use wmq.ConcurrentMap.Iteration.{FanIn, closed, sends, Ranges, no_entry, takes}
use wmq.ConcurrentMap.Iteration.Channels.{get_or_in_range}
use wmq.ConcurrentMap.Iteration.Goroutines
use wmq.ConcurrentMap.Iteration.Goroutines.{
  Copier, receiving, holding, finished, Lane, Iterating, lane, IterStep, fills, closes, receives,
  forwards, finishes, closes_out, IterRun, started, then_step, Starts, no_chan, chan,
}
use wmq.ConcurrentMap.Iteration.Goroutines.Lanes.{map-set, map-set_same}

append_one : {A : Type 0} (xs : List A) (e : A) (ys : List A) → (xs ++ e ∷ []) ++ ys ≡ xs ++ e ∷ ys
append_one [] e ys = refl
append_one (x ∷ xs) e ys = ap (λ zs. x ∷ zs) (append_one xs e ys)

append_assoc : {A : Type 0} (xs ys zs : List A) → (xs ++ ys) ++ zs ≡ xs ++ (ys ++ zs)
append_assoc [] ys zs = refl
append_assoc (x ∷ xs) ys zs = ap (λ ws. x ∷ ws) (append_assoc xs ys zs)

get_or-map :
    {A B : Type 0} (f : A → B) (xs : List A) (i : ℕ) (x : A) (d : B)
    → get_elem? xs i ≡ some x
    → get_or (map f xs) i d ≡ f x
get_or-map f [] i x d e = cc
get_or-map f (z ∷ xs) zero x d e = cc
get_or-map f (z ∷ xs) (suc i) x d e = get_or-map f xs i x d e

cons_head : {A : Type 0} {x y : A} {xs ys : List A} → x ∷ xs ≡ y ∷ ys → x ≡ y
cons_head e = cc

cons_tail : {A : Type 0} {x y : A} {xs ys : List A} → x ∷ xs ≡ y ∷ ys → xs ≡ ys
cons_tail e = cc

inside :
    {A : Type 0} (xs : List (List A)) (i : ℕ) (y : A) (ys : List A)
    → get_or xs i [] ≡ y ∷ ys
    → i < length xs
inside [] i y ys e = cc
inside (x ∷ xs) zero y ys e = omega arith
inside (x ∷ xs) (suc i) y ys e = omega (arith, inside xs i y ys e)

module _ {V : Type 0} where
  -- An interleaving of lists.
  pub data Merges : List (Dict V) → Dict V → Type 0 where
    none_left : {ds : List (Dict V)} → ((i : ℕ) → get_or ds i [] ≡ []) → Merges ds []
    one_of :
        {ds : List (Dict V)} (i : ℕ) (e : Text × V) (rest out : Dict V)
        → get_or ds i [] ≡ e ∷ rest
        → Merges (set ds i rest) out
        → Merges ds (e ∷ out)

  -- The tuple that a copier holds comes first, then the channel, then the shard.
  abbrev pub hand : Copier V → Dict V
  hand (holding e) = e ∷ []
  hand p = []

  abbrev pub remaining : Lane V → Dict V
  remaining l = hand l.copier ++ (l.buffer ++ l.left)

  abbrev pub out_so_far : Iterating V → Dict V
  out_so_far s = s.got ++ s.out_buffer

  -- Whatever comes of the remaining tuples, with what went out it is an interleaving of the orders.
  abbrev pub Carries : List (Dict V) → Iterating V → Type 0
  Carries orders s =
      (rest : Dict V) → Merges (map remaining s.lanes) rest → Merges orders (out_so_far s ++ rest)

  -- A step that takes nothing out of the lane.
  kept :
      (orders : List (Dict V)) (s : Iterating V) (i : ℕ) (x y : Lane V)
      → get_elem? s.lanes i ≡ some x
      → remaining y ≡ remaining x
      → Carries orders s
      → (rest : Dict V) → Merges (map remaining (set s.lanes i y)) rest
      → Merges orders (out_so_far s ++ rest)
  kept orders s i x y at same h rest merges =
      h rest (subst (λ ds. Merges ds rest) (map-set_same remaining s.lanes i x y at same) merges)

  pub step-Carries :
      (orders : List (Dict V)) {s t : Iterating V}
      → IterStep s t
      → Carries orders s
      → Carries orders t
  step-Carries orders {s} (fills i e left b c cl p at room) h =
      kept orders s i (lane (e ∷ left) b c cl p) (lane left (b ++ e ∷ []) c cl p) at
        (ap (λ ws. hand p ++ ws) (append_one b e left)) h
  step-Carries orders {s} (closes i b c p at) h =
      kept orders s i (lane [] b c false p) (lane [] b c true p) at refl h
  step-Carries orders {s} (receives i e l b c cl at) h =
      kept orders s i (lane l (e ∷ b) c cl receiving) (lane l b c cl (holding e)) at refl h
  step-Carries orders {s} (forwards i e l b c cl at room) h = λ rest merges.
      let x = lane l b c cl (holding e) in
      let y = lane l b c cl receiving in
      let first : Merges (map remaining s.lanes) (e ∷ rest) =
        one_of i e (b ++ l) rest (get_or-map remaining s.lanes i x [] at)
          (subst (λ ds. Merges ds rest) (map-set remaining s.lanes i y) merges) in
      subst (Merges orders)
        (sym (
          ap (λ ws. ws ++ rest) (sym (append_assoc s.got s.out_buffer (e ∷ [])))
          ∙ append_one (s.got ++ s.out_buffer) e rest))
        (h (e ∷ rest) first)
  step-Carries orders {s} (finishes i l c at) h =
      kept orders s i (lane l [] c true receiving) (lane l [] c true finished) at refl h
  step-Carries orders {s} (closes_out done still) h = h
  step-Carries orders {s} (Goroutines.takes e left out) h = λ rest merges.
      subst (λ ws. Merges orders (ws ++ rest))
        (ap (λ ws. s.got ++ ws) out ∙ sym (append_one s.got e left)) (h rest merges)

  -- An order of each shard's entries.
  abbrev pub Orders : List (Dict V) → List (Dict V) → Type 0
  Orders ds orders = (i : ℕ) → Ranges (get_or ds i []) (get_or orders i [])

  Ranges-empty : {d o : Dict V} → Ranges d o → o ≡ [] → d ≡ []
  Ranges-empty no_entry e = refl
  Ranges-empty (takes k v found r) e = cc

  Ranges-first :
      {d o : Dict V} (e : Text × V) (rest : Dict V)
      → Ranges d o
      → o ≡ e ∷ rest
      → (lookup e.0 d ≡ some e.1) × Ranges (delete e.0 d) rest
  Ranges-first e rest no_entry same = cc
  Ranges-first e rest (takes {d} {out} k v found r) same =
      subst (λ x. (lookup x.0 d ≡ some x.1) × Ranges (delete x.0 d) rest) (cons_head same)
        (found, subst (Ranges (delete k d)) (cons_tail same) r)

  pub Merges-FanIn :
      (ds : List (Dict V)) {orders : List (Dict V)} {out : Dict V}
      → Orders ds orders
      → Merges orders out
      → FanIn ds out
  Merges-FanIn ds h (none_left all) = closed (λ i. Ranges-empty (h i) (all i))
  Merges-FanIn ds {orders} h (one_of i e rest out first merges) =
      let (found, later) = Ranges-first e rest (h i) first in
      sends i e.0 e.1 out found (
        Merges-FanIn (set ds i (delete e.0 (get_or ds i [])))
          (λ j. elim (nat_eq-cases i j) [
            | inl (same, t) ↦
                rw
                  (
                    ← same,
                    get_or-set_self ds i (delete e.0 (get_or ds i [])) []
                        (get_or_in_range ds i e.0 e.1 found),
                    get_or-set_self orders i rest [] (inside orders i e rest first),
                  )
                  later
            | inr (other, t) ↦
                rw
                  (
                    get_or-set_ne ds i j (delete e.0 (get_or ds i [])) [] other,
                    get_or-set_ne orders i j rest [] other,
                  )
                  (h j)
          ])
          merges)
