-- ===== src/ConcurrentMap/Iteration/Callback.antt =====
-- What `IterCb` of map.go calls its callback on: it takes the shards one after the other, which is one
-- of the orders of the channels.
use wmq.Common.{ℕ, zero, suc, ◌≡◌, refl, sym, ◌∙◌, List, [], ◌∷◌, ◌++◌, Text, length, get_or}
use wmq.Common.Dict.{Dict, lookup, Distinct}
use wmq.ConcurrentMap.{ConcurrentMap, shard_count, get, count}
use wmq.ConcurrentMap.Invariant.{IsSharded, count-eq-sizes}
use wmq.ConcurrentMap.Iteration.{
  FanIn, closed, sends, Ranges, no_entry, takes, IterCb, no_shard, next_shard,
}
use wmq.ConcurrentMap.Iteration.Channels.{IsHomed, lookup-FanIn, FanIn-Distinct, length-FanIn}

module _ {V : Type 0} where
  -- A shard without entries in front.
  empty-FanIn : {chans : List (Dict V)} {out : Dict V} → FanIn chans out → FanIn ([] ∷ chans) out
  empty-FanIn {chans} (closed all) = closed (none_left chans all)
    where
      none_left :
          (chans : List (Dict V))
          → ((i : ℕ) → get_or chans i [] ≡ [])
          → (i : ℕ) → get_or ([] ∷ chans) i [] ≡ []
      none_left chans all zero = refl
      none_left chans all (suc i) = all i
  empty-FanIn (sends i key val out e f) = sends (suc i) key val out e (empty-FanIn f)

  Ranges-FanIn :
      {shard first : Dict V} {chans : List (Dict V)} {rest : Dict V}
      → Ranges shard first
      → FanIn ([] ∷ chans) rest
      → FanIn (shard ∷ chans) (first ++ rest)
  Ranges-FanIn no_entry f = f
  Ranges-FanIn (takes key val e r) f = sends 0 key val _ e (Ranges-FanIn r f)

  pub IterCb-FanIn : {m : ConcurrentMap V} {out : Dict V} → IterCb m out → FanIn m out
  IterCb-FanIn no_shard = closed (λ i. refl)
  IterCb-FanIn (next_shard r rest) = Ranges-FanIn r (empty-FanIn (IterCb-FanIn rest))

  -- On a map that is not changed meanwhile, `IterCb` calls its callback once for each key, with the value
  -- that the map has, and for no other, whatever the order in which `range` takes the entries.
  pub IterCb-get :
      (m : ConcurrentMap V) (out : Dict V)
      → IsSharded m
      → IterCb m out
      → (length out ≡ count m) × Distinct out × ((k : Text) → lookup k out ≡ get m k)
  unfolding get
  IterCb-get m out h run =
      let fan_in = IterCb-FanIn run in
      let homed : IsHomed m = record { homes = h.homes; distinct = h.distinct } in
      (
        length-FanIn shard_count fan_in h.shards h.distinct ∙ sym (count-eq-sizes m),
        FanIn-Distinct fan_in homed,
        λ k. lookup-FanIn k fan_in homed,
      )
