-- ===== src/ConcurrentMap/Iteration/Delivery.antt =====
-- What the iterators of map.go deliver, in whatever order the goroutines run.
use wmq.Common.{
  ◌≡◌, refl, sym, ap, ◌∙◌, Option, none, some, [], ◌∷◌, Text, arith, length, if◌then◌else◌, is_some,
  ==_iff,
}
use wmq.Common.Dict.{Dict, lookup, insert, Distinct, lookup-insert}
use wmq.ConcurrentMap.{ConcurrentMap, shard_count, get, count, has}
use wmq.ConcurrentMap.Invariant.{IsSharded, count-eq-sizes}
use wmq.ConcurrentMap.Iteration.{
  FanIn, iter_capacity, IterBuffered, collect, items, keys, contains, NoRepeats,
}
use wmq.ConcurrentMap.Iteration.Channels.{
  IsHomed, lookup-FanIn, FanIn-Distinct, length-FanIn, total_capacity-snapshot, tuples-snapshot,
}

module _ {V : Type 0} where
  if_found : (o : Option V) → (if is_some o then o else none) ≡ o
  if_found none = refl
  if_found (some v) = refl

  lookup-collect :
      (k : Text) (out tmp : Dict V)
      → Distinct out
      → lookup k (collect out tmp) ≡ (if is_some (lookup k out) then lookup k out else lookup k tmp)
  unfolding collect lookup
  lookup-collect k [] tmp h = refl
  lookup-collect k ((key, val) ∷ out) tmp h =
      rw (lookup-collect k out (insert key val tmp) h.1, lookup-insert key k val tmp)
        (ground (arith, ==_iff key k))

  contains-keys : (k : Text) (out : Dict V) → contains k (keys out) ≡ is_some (lookup k out)
  unfolding lookup
  contains-keys k [] = refl
  contains-keys k ((j, v) ∷ out) = ground (arith, contains-keys k out)

  keys-NoRepeats : (out : Dict V) → Distinct out → NoRepeats (keys out)
  keys-NoRepeats [] h = tt
  keys-NoRepeats ((k, v) ∷ out) h = (rw (contains-keys k out, h.0), keys-NoRepeats out h.1)

  module _ (m : ConcurrentMap V) (out : Dict V) (h : IsSharded m) (run : IterBuffered m out) where
    fan_in : FanIn m out
    unfolding IterBuffered
    fan_in = rw (tuples-snapshot m) at run

    is_homed : IsHomed m
    is_homed = record { homes = h.homes; distinct = h.distinct }

    lookup-out : (k : Text) → lookup k out ≡ get m k
    unfolding get
    lookup-out k = lookup-FanIn k fan_in is_homed

    -- Whatever the order in which the goroutines send, `Items` has every entry of the map and no
    -- other.
    pub lookup-items : (k : Text) → lookup k (items out) ≡ get m k
    unfolding items lookup
    lookup-items k =
        lookup-collect k out [] (FanIn-Distinct fan_in is_homed)
        ∙ if_found (lookup k out)
        ∙ lookup-out k

    -- Whatever the order, the iterator carries as many tuples as `Count` says, its buffer holds
    -- them all, and `Keys` has each key of the map once.
    keys_lem :
        (length out ≡ count m)
        × (iter_capacity m ≡ count m)
        × NoRepeats (keys out)
        × ((k : Text) → contains k (keys out) ≡ has m k)
    unfolding iter_capacity has
    keys_lem = (
      length-FanIn shard_count fan_in h.shards h.distinct ∙ sym (count-eq-sizes m),
      total_capacity-snapshot m ∙ rw h.shards (sym (count-eq-sizes m)),
      keys-NoRepeats out (FanIn-Distinct fan_in is_homed),
      λ k. contains-keys k out ∙ ap is_some (unfold get in lookup-out k),
    )
