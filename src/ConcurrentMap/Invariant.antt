-- ===== src/ConcurrentMap/Invariant.antt =====
-- The invariant of the sharded map (map.go), and what a write to one shard does to every lookup.
use wmq.Common.{
  Bool-cases, false, ◌≤◌, ==_of_ne, nat_eq-cases, inl, inr, ℕ, zero, suc, ◌+◌, ◌≡◌, refl, ◌≢◌, sym,
  ap, ◌∙◌, Option, none, some, [], Text, arith, length, get_or, set, length-set, get_or-set_self,
  get_or-set_ne, get_or-replicate, ◌==◌, if◌then◌else◌, nat_eq, is_some, ◌<◌,
}
use wmq.Common.Dict.{
  Dict, lookup, insert, delete, Distinct, lookup-insert, lookup-delete, insert-Distinct,
  delete-Distinct, length-insert, length-delete,
}
use wmq.ConcurrentMap.{
  ConcurrentMap, shard_count, shard_index, new_concurrent_map, get_shard, put_shard, get, set_key,
  remove, count_loop, count,
}

pub shard_index-lt : (k : Text) → shard_index k < 32
unfolding shard_index
shard_index-lt k = omega arith

module _ {ℓ} {V : Type ℓ} where
  -- The shards are 32, a key is only in its own shard, and there once.
  pub record IsSharded (m : ConcurrentMap V) : Type ℓ where
    pub shards : length m ≡ shard_count
    pub homes : (i : ℕ) (k : Text) → i ≢ shard_index k → lookup k (get_or m i []) ≡ none
    pub distinct : (i : ℕ) → Distinct (get_or m i [])

  pub new-IsSharded : IsSharded new_concurrent_map
  unfolding new_concurrent_map
  new-IsSharded = record {
    shards = refl;
    homes = λ i k h. rw (get_or-replicate {A = Dict V} shard_count i []) (unfold lookup in refl);
    distinct = λ i. rw (get_or-replicate {A = Dict V} shard_count i []) tt;
  }

  -- The sizes of the `n` shards from the `i`th on.
  abbrev pub sizes : ℕ → ℕ → ConcurrentMap V → ℕ
  sizes zero i m = 0
  sizes (suc n) i m = length (get_or m i []) + sizes n (i + 1) m

  count_loop-eq-sizes :
      (n i : ℕ) (m : ConcurrentMap V) (total : ℕ) → count_loop n i m total ≡ total + sizes n i m
  unfolding count_loop
  count_loop-eq-sizes zero i m total = omega arith
  count_loop-eq-sizes (suc n) i m total =
      omega (arith, count_loop-eq-sizes n (i + 1) m (total + length (get_or m i [])))

  pub count-eq-sizes : (m : ConcurrentMap V) → count m ≡ sizes shard_count 0 m
  unfolding count
  count-eq-sizes m = omega (arith, count_loop-eq-sizes shard_count 0 m 0)

  sizes-set_before :
      (n i s : ℕ) (m : ConcurrentMap V) (d : Dict V) → s < i → sizes n i (set m s d) ≡ sizes n i m
  sizes-set_before zero i s m d h = refl
  sizes-set_before (suc n) i s m d h =
      rw (get_or-set_ne m s i d [] (omega arith))
        (ap (λ r. length (get_or m i []) + r) (sizes-set_before n (i + 1) s m d (omega arith)))

  pub sizes-set :
      (n i s : ℕ) (m : ConcurrentMap V) (d : Dict V)
      → i ≤ s
      → s < i + n
      → s < length m
      → sizes n i (set m s d) + length (get_or m s []) ≡ sizes n i m + length d
  sizes-set zero i s m d lo hi in_range = absurd (omega arith)
  sizes-set (suc n) i s m d lo hi in_range = elim (nat_eq-cases i s) [
    | inl (e, t) ↦
        rw (e, get_or-set_self m s d [] in_range, sizes-set_before n (s + 1) s m d (omega arith))
          (omega arith)
    | inr (other, t) ↦
        rw (get_or-set_ne m s i d [] (λ e. other (sym e)))
          (omega (arith, sizes-set n (i + 1) s m d (omega arith) (omega arith) in_range))
  ]

  -- One shard is written, with the items of `k`'s shard.
  module _ (m : ConcurrentMap V) (k : Text) (d : Dict V) (h : IsSharded m) where
    own_shard : shard_index k < length m
    own_shard = rw h.shards (shard_index-lt k)

    pub get-put_shard :
        (j : Text)
        → get (put_shard m k d) j
          ≡ (if nat_eq (shard_index k) (shard_index j) then lookup j d else get m j)
    unfolding get
    get-put_shard j = elim (nat_eq-cases (shard_index k) (shard_index j)) [
      | inl (e, t) ↦ rw (t, ← e) (ap (lookup j) (get_or-set_self m _ d [] own_shard))
      | inr (ne, t) ↦ rw t (ap (lookup j) (get_or-set_ne m _ _ d [] ne))
    ]

    pub put_shard-IsSharded :
        Distinct d
        → ((j : Text) → shard_index k ≢ shard_index j → lookup j d ≡ none)
        → IsSharded (put_shard m k d)
    put_shard-IsSharded distinct home = record {
      shards = length-set m (shard_index k) d ∙ h.shards;
      homes = λ i j ne. elim (nat_eq-cases (shard_index k) i) [
        | inl (e, t) ↦
            rw (← e, get_or-set_self m _ d [] own_shard) (home j (λ same. ne (sym e ∙ same)))
        | inr (other, t) ↦ rw (get_or-set_ne m _ _ d [] other) (h.homes i j ne)
      ];
      distinct = λ i. elim (nat_eq-cases (shard_index k) i) [
        | inl (e, t) ↦ rw (← e, get_or-set_self m _ d [] own_shard) distinct
        | inr (other, t) ↦ rw (get_or-set_ne m _ _ d [] other) (h.distinct i)
      ];
    }

    pub count-put_shard : count (put_shard m k d) + length (get_shard m k) ≡ count m + length d
    count-put_shard =
        rw (count-eq-sizes (put_shard m k d), count-eq-sizes m)
          (sizes-set shard_count 0 (shard_index k) m d (omega arith) (shard_index-lt k) own_shard)

  -- The operations of map.go are these two writes.
  module _ (m : ConcurrentMap V) (k : Text) (h : IsSharded m) where
    other_key : (j : Text) → shard_index k ≢ shard_index j → (k == j) ≡ false
    other_key j ne = ==_of_ne k j (λ e. ne (ap shard_index e))

    get-write :
        (d : Dict V) (r : Option V)
        → ((j : Text) → lookup j d ≡ (if k == j then r else lookup j (get_shard m k)))
        → (j : Text) → get (put_shard m k d) j ≡ (if k == j then r else get m j)
    unfolding get
    get-write d r written j = elim (nat_eq-cases (shard_index k) (shard_index j)) [
      | inl (e, t) ↦ rw (get-put_shard m k d h j, t, written j, e)
      | inr (ne, t) ↦ rw (get-put_shard m k d h j, t, other_key j ne)
    ]

    module _ (v : V) where
      pub set_key-IsSharded : IsSharded (set_key m k v)
      unfolding set_key
      set_key-IsSharded =
          put_shard-IsSharded m k _ h (insert-Distinct k v _ (h.distinct _))
            λ j ne. rw (lookup-insert k j v, other_key j ne) (h.homes _ j ne)

      pub get-set_key : (j : Text) → get (set_key m k v) j ≡ (if k == j then some v else get m j)
      unfolding set_key
      get-set_key = get-write _ (some v) λ j. lookup-insert k j v (get_shard m k)

      pub count-set_key :
          count (set_key m k v) ≡ (if is_some (get m k) then count m else suc (count m))
      unfolding set_key get
      count-set_key =
          let moved = count-put_shard m k (insert k v (get_shard m k)) h in
          let size = length-insert k v (get_shard m k) in
          elim (Bool-cases (is_some (lookup k (get_shard m k)))) [
            | inl old ↦ rw old (omega (arith, moved, rw old at size))
            | inr new ↦ rw new (omega (arith, moved, rw new at size))
          ]

    pub remove-IsSharded : IsSharded (remove m k)
    unfolding remove
    remove-IsSharded =
        put_shard-IsSharded m k _ h (delete-Distinct k _ (h.distinct _))
          λ j ne. rw (lookup-delete k j, other_key j ne) (h.homes _ j ne)

    pub get-remove : (j : Text) → get (remove m k) j ≡ (if k == j then none else get m j)
    unfolding remove
    get-remove = get-write _ none λ j. lookup-delete k j (get_shard m k)

    pub count-remove : count (remove m k) + (if is_some (get m k) then 1 else 0) ≡ count m
    unfolding remove get
    count-remove = omega (
      arith,
      count-put_shard m k (delete k (get_shard m k)) h,
      length-delete k (get_shard m k) (h.distinct _),
    )
