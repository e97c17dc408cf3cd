-- ===== src/ConcurrentMap.antt =====
-- map.go: a map of 32 shards, each a Go map behind its own lock. An operation on one key holds the
-- lock of one shard from its first read to its last write, so it is one function here.
pub mod Invariant
pub mod Refinement
pub mod Iteration
use Prim.Native.Nat.{bit_xor}
use wmq.Common.{
  ℕ, zero, suc, ◌+◌, ◌*◌, ◌%◌, ◌^◌, Bool, true, false, not, Option, none, some, List, [], ◌∷◌, ◌++◌,
  Text, length, get_or, set, replicate, is_some, nat_eq, if◌then◌else◌,
}
use wmq.Common.Dict.{Dict, lookup, insert, delete}

abbrev pub shard_count : ℕ
shard_count = 32

-- The shards' `items`.
abbrev pub ConcurrentMap {ℓ} : Type ℓ → Type ℓ
ConcurrentMap V = List (Dict V)

-- `hash *= prime32; hash ^= uint32(key[i])`
unfoldable pub fnv_loop : ℕ → Text → ℕ
fnv_loop hash [] = hash
fnv_loop hash (b ∷ key) = fnv_loop (bit_xor (hash * 16777619 % 2 ^ 32) b) key

unfoldable pub fnv32 : Text → ℕ
unfolding fnv_loop
fnv32 key = fnv_loop 2166136261 key

unfoldable pub shard_index : Text → ℕ
unfolding fnv32
shard_index key = fnv32 key % shard_count

-- The callback gets what `shard.items[key]` reads, and the new value.
abbrev pub UpsertCb {ℓ} : Type ℓ → Type ℓ
UpsertCb V = Option V → V → V

module _ {ℓ} {V : Type ℓ} where
  unfoldable pub new_concurrent_map : ConcurrentMap V
  new_concurrent_map = replicate shard_count []

  abbrev pub get_shard : ConcurrentMap V → Text → Dict V
  get_shard m key = get_or m (shard_index key) []

  -- What a write through the pointer that `GetShard` returns does to the map.
  abbrev pub put_shard : ConcurrentMap V → Text → Dict V → ConcurrentMap V
  put_shard m key items = set m (shard_index key) items

  unfoldable pub set_key : ConcurrentMap V → Text → V → ConcurrentMap V
  set_key m key value = put_shard m key (insert key value (get_shard m key))

  pub m_set : ConcurrentMap V → Dict V → ConcurrentMap V
  m_set m [] = m
  m_set m ((key, value) ∷ rest) = m_set (set_key m key value) rest

  pub upsert : ConcurrentMap V → Text → V → UpsertCb V → V × ConcurrentMap V
  upsert m key value cb =
      let res = cb (lookup key (get_shard m key)) value in
      (res, put_shard m key (insert key res (get_shard m key)))

  pub set_if_absent : ConcurrentMap V → Text → V → Bool × ConcurrentMap V
  set_if_absent m key value =
      let ok = is_some (lookup key (get_shard m key)) in
      (not ok, if ok then m else put_shard m key (insert key value (get_shard m key)))

  unfoldable pub get : ConcurrentMap V → Text → Option V
  get m key = lookup key (get_shard m key)

  -- `for i := 0; i < SHARD_COUNT; i++`, on the rounds left.
  pub count_loop : ℕ → ℕ → ConcurrentMap V → ℕ → ℕ
  count_loop zero i m total = total
  count_loop (suc n) i m total = count_loop n (i + 1) m (total + length (get_or m i []))

  pub count : ConcurrentMap V → ℕ
  unfolding count_loop
  count m = count_loop shard_count 0 m 0

  pub has : ConcurrentMap V → Text → Bool
  has m key = is_some (lookup key (get_shard m key))

  unfoldable pub remove : ConcurrentMap V → Text → ConcurrentMap V
  remove m key = put_shard m key (delete key (get_shard m key))

  pub pop : ConcurrentMap V → Text → Option V × ConcurrentMap V
  pop m key = (lookup key (get_shard m key), put_shard m key (delete key (get_shard m key)))

  pub is_empty : ConcurrentMap V → Bool
  unfolding count
  is_empty m = nat_eq (count m) 0
