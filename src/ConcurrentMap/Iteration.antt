-- ===== src/ConcurrentMap/Iteration.antt =====
-- The iterators of map.go. Each shard's goroutine fills a channel of its own, and one goroutine for
-- each channel copies it to the output: the order among the shards is the scheduler's choice, so
-- the output is a relation, with every interleaving in it. Goroutines has them step by step.
pub mod Channels
pub mod Delivery
pub mod Callback
pub mod Goroutines
use native.Mathlib.Numerals.{add-one}
use wmq.Common.{
  ℕ, zero, suc, ◌+◌, ◌≤◌, ◌<◌, ◌≡◌, refl, sym, ap, ◌∙◌, ◌≢◌, inl, inr, Bool, true, false, Option,
  none, some, List, [], ◌∷◌, ◌++◌, map, Text, arith, length, get_or, set, length-set,
  get_or-set_self, get_or-set_ne, nat_eq-cases, Option-cases, if◌then◌else◌, is_some, ◌==◌, ==_iff,
  ==_refl, ==_of_ne, ◌||◌,
}
use wmq.Common.Dict.{Dict, lookup, insert, delete, Distinct, lookup-insert}
use wmq.ConcurrentMap.{ConcurrentMap, shard_count, shard_index, get, count, has}
use wmq.ConcurrentMap.Invariant.{IsSharded, sizes, count-eq-sizes, sizes-set}

-- A buffered channel: its capacity, and what will be read from it before it is closed.
pub record Chan (V : Type 0) : Type 0 where
  pub capacity : ℕ
  pub tuples : Dict V

abbrev pub contains : Text → List Text → Bool
contains k [] = false
contains k (j ∷ js) = j == k || contains k js

abbrev pub NoRepeats : List Text → Type 0
NoRepeats [] = Unit
NoRepeats (k ∷ ks) = (contains k ks ≡ false) × NoRepeats ks

module _ {V : Type 0} where
  -- `chans[index] = make(chan Tuple, len(shard.items))`, filled with the shard's items.
  unfoldable pub snapshot : ConcurrentMap V → List (Chan V)
  snapshot m = map (λ items. record { capacity = length items; tuples = items }) m

  abbrev pub total_capacity : List (Chan V) → ℕ
  total_capacity [] = 0
  total_capacity (c ∷ cs) = c.capacity + total_capacity cs

  -- What the output channel carries, from what the goroutines have still to send: an entry of some
  -- shard is sent next, since `range` takes the entries of a Go map in any order; when none is
  -- left the output is closed.
  pub data FanIn : List (Dict V) → Dict V → Type 0 where
    closed : {chans : List (Dict V)} → ((i : ℕ) → get_or chans i [] ≡ []) → FanIn chans []
    sends :
        {chans : List (Dict V)} (i : ℕ) (key : Text) (val : V) (out : Dict V)
        → lookup key (get_or chans i []) ≡ some val
        → FanIn (set chans i (delete key (get_or chans i []))) out
        → FanIn chans ((key, val) ∷ out)

  -- `IterBuffered`: the capacity of the channel that it returns, and what that channel may carry.
  unfoldable pub iter_capacity : ConcurrentMap V → ℕ
  unfolding snapshot
  iter_capacity m = total_capacity (snapshot m)

  unfoldable pub IterBuffered : ConcurrentMap V → Dict V → Type 0
  unfolding snapshot
  IterBuffered m out = FanIn (map (λ c. c.tuples) (snapshot m)) out

  -- `Iter`: the same without a buffer.
  pub Iter : ConcurrentMap V → Dict V → Type 0
  unfolding snapshot
  Iter m out = FanIn (map (λ c. c.tuples) (snapshot m)) out

  -- The calls of the callback of `IterCb` on one shard, of which `range` takes the entries in any
  -- order, and on all shards, one after the other.
  pub data Ranges : Dict V → Dict V → Type 0 where
    no_entry : Ranges [] []
    takes :
        {d out : Dict V} (key : Text) (val : V)
        → lookup key d ≡ some val
        → Ranges (delete key d) out
        → Ranges d ((key, val) ∷ out)

  pub data IterCb : ConcurrentMap V → Dict V → Type 0 where
    no_shard : IterCb [] []
    next_shard :
        {shard first : Dict V} {m : ConcurrentMap V} {rest : Dict V}
        → Ranges shard first
        → IterCb m rest
        → IterCb (shard ∷ m) (first ++ rest)

  -- `for item := range m.IterBuffered() { tmp[item.Key] = item.Val }`
  unfoldable pub collect : Dict V → Dict V → Dict V
  collect [] tmp = tmp
  collect ((key, val) ∷ out) tmp = collect out (insert key val tmp)

  unfoldable pub items : Dict V → Dict V
  unfolding collect
  items out = collect out []

  -- `MarshalJSON`: `json.Marshal` of the same map, with that function as an argument.
  pub marshal_json : {R : Type 0} → (Dict V → R) → Dict V → R
  unfolding collect
  marshal_json marshal out = marshal (collect out [])

  -- `Keys`: `for k := range ch { keys = append(keys, k) }`. Its goroutines send the keys of each
  -- shard in some order, as those of `IterBuffered` send the tuples.
  abbrev pub keys : Dict V → List Text
  keys [] = []
  keys ((key, val) ∷ out) = key ∷ keys out
