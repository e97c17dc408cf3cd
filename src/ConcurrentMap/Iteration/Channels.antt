-- ===== src/ConcurrentMap/Iteration/Channels.antt =====
-- The channels of the iterators of map.go as they are drained, in whatever order.
use wmq.Common.{
  Bool, true, false, Bool-cases, ℕ, zero, suc, ◌+◌, ◌<◌, ◌≡◌, refl, sym, ap, ◌∙◌, ◌≢◌, inl, inr,
  Option, none, some, List, [], ◌∷◌, map, Text, arith, length, get_or, set, length-set,
  get_or-set_self, get_or-set_ne, nat_eq-cases, if◌then◌else◌, ◌==◌, ==_iff, ==_refl, ==_of_ne,
}
use wmq.Common.Dict.{Dict, lookup, delete, Distinct, lookup-delete, length-delete, delete-Distinct}
use wmq.ConcurrentMap.{ConcurrentMap, shard_index}
use wmq.ConcurrentMap.Invariant.{sizes, sizes-set}
use wmq.ConcurrentMap.Iteration.{snapshot, total_capacity, FanIn, closed, sends, items}

some-none : {A : Type 0} {a : A} → some a ≡ none → ⊥
some-none e = cc

same_none : {V : Type 0} (b : Bool) → ◌≡◌ {A = Option V} (if b then none else none) none
same_none true = refl
same_none false = refl

module _ {V : Type 0} where
  -- Channels that are filled from a sharded map, and drained by and by.
  pub record IsHomed (chans : List (Dict V)) : Type 0 where
    pub homes : (i : ℕ) (k : Text) → i ≢ shard_index k → lookup k (get_or chans i []) ≡ none
    pub distinct : (i : ℕ) → Distinct (get_or chans i [])

  pub get_or_in_range :
      (chans : List (Dict V)) (i : ℕ) (key : Text) (val : V)
      → lookup key (get_or chans i []) ≡ some val
      → i < length chans
  unfolding lookup
  get_or_in_range [] i key val e = cc
  get_or_in_range (c ∷ cs) zero key val e = omega arith
  get_or_in_range (c ∷ cs) (suc i) key val e = omega (arith, get_or_in_range cs i key val e)

  module _ (chans : List (Dict V)) (i : ℕ) (key : Text) (val : V) (h : IsHomed chans)
      (e : lookup key (get_or chans i []) ≡ some val) where
    abbrev left : Dict V
    left = delete key (get_or chans i [])

    in_range : i < length chans
    in_range = get_or_in_range chans i key val e

    pub drained-IsHomed : IsHomed (set chans i left)
    drained-IsHomed = record {
      homes = λ j k ne. elim (nat_eq-cases i j) [
        | inl (same, t) ↦
            rw
              (
                ← same,
                get_or-set_self chans i left [] in_range,
                lookup-delete key k (get_or chans i []),
                h.homes i k (λ p. ne (sym same ∙ p)),
              )
              (same_none (key == k))
        | inr (other, t) ↦ rw (get_or-set_ne chans i j left [] other) (h.homes j k ne)
      ];
      distinct = λ j. elim (nat_eq-cases i j) [
        | inl (same, t) ↦
            rw (← same, get_or-set_self chans i left [] in_range)
              (delete-Distinct key (get_or chans i []) (h.distinct i))
        | inr (other, t) ↦ rw (get_or-set_ne chans i j left [] other) (h.distinct j)
      ];
    }

    key_home : i ≡ shard_index key
    key_home = elim (nat_eq-cases i (shard_index key)) [
      | inl (same, t) ↦ same
      | inr (other, t) ↦ absurd (some-none (sym e ∙ h.homes i key other))
    ]

    lookup-drained :
        (k : Text)
        → (if key == k then some val else lookup k (get_or (set chans i left) (shard_index k) []))
          ≡ lookup k (get_or chans (shard_index k) [])
    lookup-drained k = elim (nat_eq-cases i (shard_index k)) [
      | inl (same, t) ↦
          rw
            (
              ← same,
              get_or-set_self chans i left [] in_range,
              lookup-delete key k (get_or chans i []),
            )
            (elim (Bool-cases (key == k)) [
              | inl hit ↦ rw hit (rw (← (==_iff key k).0 hit) (sym e))
              | inr miss ↦ rw miss
            ])
      | inr (other, t) ↦ rw (
        get_or-set_ne chans i (shard_index k) left [] other,
        ==_of_ne key k (λ p. other (key_home ∙ ap shard_index p)),
      )
    ]

  pub lookup-FanIn :
      (k : Text) {chans : List (Dict V)} {out : Dict V}
      → FanIn chans out
      → IsHomed chans
      → lookup k out ≡ lookup k (get_or chans (shard_index k) [])
  unfolding lookup
  lookup-FanIn k (closed all) h = rw (all (shard_index k))
  lookup-FanIn k {chans} (sends i key val out e f) h =
      rw (lookup-FanIn k f (drained-IsHomed chans i key val h e))
        (lookup-drained chans i key val h e k)

  pub FanIn-Distinct :
      {chans : List (Dict V)} {out : Dict V} → FanIn chans out → IsHomed chans → Distinct out
  FanIn-Distinct (closed all) h = tt
  FanIn-Distinct {chans} (sends i key val out e f) h =
      let h' = drained-IsHomed chans i key val h e in
      (
        lookup-FanIn key f h'
            ∙ rw (
              ← key_home chans i key val h e,
              get_or-set_self chans i (left chans i key val h e) [] (in_range chans i key val h e),
              lookup-delete key key (get_or chans i []),
              ==_refl key,
            ),
        FanIn-Distinct f h',
      )

  sizes-empty :
      (n i : ℕ) (chans : List (Dict V)) → ((j : ℕ) → get_or chans j [] ≡ []) → sizes n i chans ≡ 0
  sizes-empty zero i chans all = refl
  sizes-empty (suc n) i chans all = rw (all i) (omega (arith, sizes-empty n (i + 1) chans all))

  deleted-Distinct :
      (chans : List (Dict V)) (i : ℕ) (key : Text)
      → ((j : ℕ) → Distinct (get_or chans j []))
      → i < length chans
      → (j : ℕ) → Distinct (get_or (set chans i (delete key (get_or chans i []))) j [])
  deleted-Distinct chans i key d inside j = elim (nat_eq-cases i j) [
    | inl (same, t) ↦
        rw (← same, get_or-set_self chans i (delete key (get_or chans i [])) [] inside)
          (delete-Distinct key (get_or chans i []) (d i))
    | inr (other, t) ↦ rw (get_or-set_ne chans i j (delete key (get_or chans i [])) [] other) (d j)
  ]

  pub length-FanIn :
      (n : ℕ) {chans : List (Dict V)} {out : Dict V}
      → FanIn chans out
      → length chans ≡ n
      → ((i : ℕ) → Distinct (get_or chans i []))
      → length out ≡ sizes n 0 chans
  length-FanIn n {chans} (closed all) h d = sym (sizes-empty n 0 chans all)
  length-FanIn n {chans} (sends i key val out e f) h d =
      let inside = get_or_in_range chans i key val e in
      let left = delete key (get_or chans i []) in
      omega (
        arith,
        length-FanIn n f (length-set chans i left ∙ h) (deleted-Distinct chans i key d inside),
        length-delete key (get_or chans i []) (d i),
        rw e at (length-delete key (get_or chans i []) (d i)),
        sizes-set n 0 i chans left (omega arith) (omega arith) inside,
      )

  sizes-tail :
      (n i : ℕ) {j : ℕ} (c : Dict V) (cs : List (Dict V))
      → j ≡ suc i
      → sizes n j (c ∷ cs) ≡ sizes n i cs
  sizes-tail zero i c cs e = refl
  sizes-tail (suc n) i c cs e =
      rw e (omega (arith, sizes-tail n (i + 1) {j = suc i + 1} c cs (omega arith)))

  pub total_capacity-snapshot :
      (m : ConcurrentMap V) → total_capacity (snapshot m) ≡ sizes (length m) 0 m
  unfolding snapshot
  total_capacity-snapshot [] = refl
  total_capacity-snapshot (c ∷ m) =
      omega (arith, total_capacity-snapshot m, sizes-tail (length m) 0 {j = 1} c m refl)

  pub tuples-snapshot : (m : ConcurrentMap V) → map (λ c. c.tuples) (snapshot m) ≡ m
  unfolding snapshot
  tuples-snapshot [] = refl
  tuples-snapshot (items ∷ m) = ap (◌∷◌ items) (tuples-snapshot m)
