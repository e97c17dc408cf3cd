-- ===== src/ConcurrentMap/Refinement.antt =====
-- What map.go promises: one map, with its size. Every run of the sharded map's operations answers
-- as this map does.
use wmq.Common.{
  get_or-replicate, Bool-cases, inl, inr, ap₂, ℕ, suc, ◌-◌, ◌≡◌, refl, ap, Bool, not, Option, none,
  some, List, [], ◌∷◌, Text, arith, ◌==◌, nat_eq, if◌then◌else◌, is_some,
}
use wmq.Common.Dict.{Dict, lookup}
use wmq.ConcurrentMap.{
  shard_count, shard_index, ConcurrentMap, UpsertCb, new_concurrent_map, set_key, m_set, upsert,
  set_if_absent, get, count, has, remove, pop, is_empty,
}
use wmq.ConcurrentMap.Invariant.{
  IsSharded, new-IsSharded, set_key-IsSharded, get-set_key, count-set_key, remove-IsSharded,
  get-remove, count-remove,
}

-- A call of an exported operation of `ConcurrentMap`, and what it returns.
pub data Call (V : Type 0) : Type 0 where
  sets : Text → V → Call V
  m_sets : Dict V → Call V
  upserts : Text → V → UpsertCb V → Call V
  sets_if_absent : Text → V → Call V
  gets : Text → Call V
  counts : Call V
  asks_has : Text → Call V
  removes : Text → Call V
  pops : Text → Call V
  asks_empty : Call V

pub data Reply (V : Type 0) : Type 0 where
  done : Reply V
  value : V → Reply V
  found : Option V → Reply V
  flag : Bool → Reply V
  size : ℕ → Reply V

-- The specification: a function from keys and the number of keys that it holds.
pub record FlatMap (V : Type 0) : Type 0 where
  pub entries : Text → Option V
  pub keys : ℕ

module _ {V : Type 0} where
  -- The code.
  pub call : Call V → ConcurrentMap V → Reply V × ConcurrentMap V
  unfolding upsert set_if_absent has pop is_empty
  call (sets k v) m = (done, set_key m k v)
  call (m_sets d) m = (done, m_set m d)
  call (upserts k v cb) m = let (res, m') = upsert m k v cb in (value res, m')
  call (sets_if_absent k v) m = let (ok, m') = set_if_absent m k v in (flag ok, m')
  call (gets k) m = (found (get m k), m)
  call counts m = (size (count m), m)
  call (asks_has k) m = (flag (has m k), m)
  call (removes k) m = (done, remove m k)
  call (pops k) m = let (v, m') = pop m k in (found v, m')
  call asks_empty m = (flag (is_empty m), m)

  abbrev pub write : FlatMap V → Text → V → FlatMap V
  write f k v = record {
    entries = λ j. if k == j then some v else f.entries j;
    keys = if is_some (f.entries k) then f.keys else suc f.keys;
  }

  abbrev pub clear : FlatMap V → Text → FlatMap V
  clear f k = record {
    entries = λ j. if k == j then none else f.entries j;
    keys = if is_some (f.entries k) then f.keys - 1 else f.keys;
  }

  abbrev pub write_all : FlatMap V → Dict V → FlatMap V
  write_all f [] = f
  write_all f ((k, v) ∷ d) = write_all (write f k v) d

  -- The specification's answer to each call.
  abbrev pub flat_call : Call V → FlatMap V → Reply V × FlatMap V
  flat_call (sets k v) f = (done, write f k v)
  flat_call (m_sets d) f = (done, write_all f d)
  flat_call (upserts k v cb) f = let res = cb (f.entries k) v in (value res, write f k res)
  flat_call (sets_if_absent k v) f =
      (flag (not (is_some (f.entries k))), if is_some (f.entries k) then f else write f k v)
  flat_call (gets k) f = (found (f.entries k), f)
  flat_call counts f = (size f.keys, f)
  flat_call (asks_has k) f = (flag (is_some (f.entries k)), f)
  flat_call (removes k) f = (done, clear f k)
  flat_call (pops k) f = (found (f.entries k), clear f k)
  flat_call asks_empty f = (flag (nat_eq f.keys 0), f)

  pub run : List (Call V) → ConcurrentMap V → List (Reply V)
  run [] m = []
  run (c ∷ cs) m = let (r, m') = call c m in r ∷ run cs m'

  pub flat_run : List (Call V) → FlatMap V → List (Reply V)
  flat_run [] f = []
  flat_run (c ∷ cs) f = let (r, f') = flat_call c f in r ∷ flat_run cs f'

  pub record Refines (m : ConcurrentMap V) (f : FlatMap V) : Type 0 where
    pub sharded : IsSharded m
    pub same_entries : (k : Text) → get m k ≡ f.entries k
    pub same_size : count m ≡ f.keys

  write-Refines :
      {m : ConcurrentMap V} {f : FlatMap V} (k : Text) (v : V)
      → Refines m f
      → Refines (set_key m k v) (write f k v)
  write-Refines {m} {f} k v h = record {
    sharded = set_key-IsSharded m k h.sharded v;
    same_entries = λ j. rw (get-set_key m k h.sharded v j, h.same_entries j);
    same_size = rw (count-set_key m k h.sharded v, h.same_entries k, h.same_size);
  }

  clear-Refines :
      {m : ConcurrentMap V} {f : FlatMap V} (k : Text)
      → Refines m f
      → Refines (remove m k) (clear f k)
  clear-Refines {m} {f} k h = record {
    sharded = remove-IsSharded m k h.sharded;
    same_entries = λ j. rw (get-remove m k h.sharded j, h.same_entries j);
    same_size = ground (arith, count-remove m k h.sharded, h.same_entries k, h.same_size);
  }

  m_set-Refines :
      (d : Dict V) (m : ConcurrentMap V) (f : FlatMap V)
      → Refines m f
      → Refines (m_set m d) (write_all f d)
  unfolding m_set
  m_set-Refines [] m f h = h
  m_set-Refines ((k, v) ∷ d) m f h =
      m_set-Refines d (set_key m k v) (write f k v) (write-Refines k v h)

  -- One call.
  pub call-Refines :
      {m : ConcurrentMap V} {f : FlatMap V} (c : Call V)
      → Refines m f
      → ((call c m).0 ≡ (flat_call c f).0) × Refines (call c m).1 (flat_call c f).1
  unfolding call get set_key remove
  call-Refines (sets k v) h = (refl, write-Refines k v h)
  call-Refines {m} {f} (m_sets d) h = (refl, m_set-Refines d m f h)
  call-Refines {f} (upserts k v cb) h =
      rw (h.same_entries k) (refl, write-Refines k (cb (f.entries k) v) h)
  call-Refines {m} {f} (sets_if_absent k v) h = elim (Bool-cases (is_some (f.entries k))) [
    | inl old ↦ rw (h.same_entries k, old) (refl, h)
    | inr new ↦ rw (h.same_entries k, new) (refl, rw new at (write-Refines k v h))
  ]
  call-Refines (gets k) h = (ap found (h.same_entries k), h)
  call-Refines counts h = (ap size h.same_size, h)
  call-Refines (asks_has k) h = (ap (λ o. flag (is_some o)) (h.same_entries k), h)
  call-Refines (removes k) h = (refl, clear-Refines k h)
  call-Refines (pops k) h = (ap found (h.same_entries k), clear-Refines k h)
  call-Refines asks_empty h = (ap (λ n. flag (nat_eq n 0)) h.same_size, h)

  run-eq_flat_run :
      (cs : List (Call V)) (m : ConcurrentMap V) (f : FlatMap V)
      → Refines m f
      → run cs m ≡ flat_run cs f
  unfolding run flat_run
  run-eq_flat_run [] m f h = refl
  run-eq_flat_run (c ∷ cs) m f h =
      let (same, next) = call-Refines c h in
      ap₂ ◌∷◌ same (run-eq_flat_run cs (call c m).1 (flat_call c f).1 next)

  abbrev pub empty : FlatMap V
  empty = record { entries = λ k. none; keys = 0 }

  new-Refines : Refines new_concurrent_map empty
  unfolding get new_concurrent_map
  new-Refines = record {
    sharded = new-IsSharded;
    same_entries = λ k.
        rw (get_or-replicate {A = Dict V} shard_count (shard_index k) []) (unfold lookup in refl);
    same_size = unfold count in refl;
  }

  -- Any sequence of calls on a new sharded map is answered as by one map of the keys that were set.
  pub new-Refines-run : (cs : List (Call V)) → run cs new_concurrent_map ≡ flat_run cs empty
  new-Refines-run cs = run-eq_flat_run cs new_concurrent_map empty new-Refines
