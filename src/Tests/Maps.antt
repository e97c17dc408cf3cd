-- ===== src/Tests/Maps.antt =====
-- Runs of the sharded map (map.go).
use wmq.Common.{
  arith, false, true, ◌≤◌, ◌+◌, ◌*◌, ◌⊎◌, ◌==◌, get_or-replicate, replicate, ◌++◌, ℕ, zero, suc,
  ◌≡◌, refl, List, [], ◌∷◌, Text, text, length,
}
use wmq.Common.Dict.{Dict, Distinct, lookup, insert, delete}
use wmq.ConcurrentMap.{
  shard_index, fnv32, fnv_loop, ConcurrentMap, new_concurrent_map, set_key, get, count,
}
use wmq.ConcurrentMap.Invariant.{IsSharded, new-IsSharded, set_key-IsSharded}
use wmq.ConcurrentMap.Refinement.{
  Call, sets, counts, removes, gets, run, flat_run, empty, new-Refines-run,
}
use wmq.ConcurrentMap.Iteration.{
  Chan, iter_capacity, no_entry, takes, IterCb, no_shard, next_shard, snapshot, IterBuffered,
  closed, sends, items,
}
use wmq.ConcurrentMap.Iteration.Goroutines.{
  Lane, lane, receiving, Iterating, at_lane, begin, Starts, no_chan, chan, IterRun, started,
  then_step, fills,
}
use wmq.ConcurrentMap.Iteration.Goroutines.Progress.{GoesOn}
use wmq.ConcurrentMap.Iteration.Goroutines.Ends.{IterBuffered-ends}
use wmq.ConcurrentMap.Iteration.Callback.{IterCb-get}
use wmq.ConcurrentMap.Iteration.Delivery.{lookup-items}

abbrev some_calls : List (Call ℕ)
some_calls = sets (text "a") 3 ∷ counts ∷ removes (text "a") ∷ gets (text "a") ∷ []

new-Refines-run_example : run some_calls new_concurrent_map ≡ flat_run some_calls empty
new-Refines-run_example = new-Refines-run some_calls

abbrev one_entry : ConcurrentMap ℕ
one_entry = set_key new_concurrent_map (text "a") 3

one_entry-IsSharded : IsSharded one_entry
one_entry-IsSharded = set_key-IsSharded new_concurrent_map (text "a") new-IsSharded 3

one_entry-IterBuffered : IterBuffered one_entry ((text "a", 3) ∷ [])
unfolding IterBuffered snapshot set_key new_concurrent_map shard_index fnv32 fnv_loop insert lookup
    delete ◌==◌
one_entry-IterBuffered =
    sends (shard_index (text "a")) (text "a") 3 [] refl
      (closed λ i. get_or-replicate {A = Dict ℕ} 32 i [])

lookup-items_example : lookup (text "a") (items ((text "a", 3) ∷ [])) ≡ get one_entry (text "a")
lookup-items_example =
    lookup-items one_entry ((text "a", 3) ∷ []) one_entry-IsSharded one_entry-IterBuffered
      (text "a")

abbrev carried : Dict ℕ
carried = (text "a", 3) ∷ []

empty_shards :
    (n : ℕ) {m : ConcurrentMap ℕ} {out : Dict ℕ} → IterCb m out → IterCb (replicate n [] ++ m) out
empty_shards zero run = run
empty_shards (suc n) run = next_shard no_entry (empty_shards n run)

one_entry-IterCb : IterCb one_entry carried
unfolding set_key new_concurrent_map shard_index fnv32 fnv_loop insert lookup delete ◌==◌
one_entry-IterCb =
    empty_shards 30 (next_shard (takes (text "a") 3 refl no_entry) (next_shard no_entry no_shard))

IterCb-get_example :
    (length carried ≡ count one_entry)
    × Distinct carried
    × ((k : Text) → lookup k carried ≡ get one_entry k)
IterCb-get_example = IterCb-get one_entry carried one_entry-IsSharded one_entry-IterCb

abbrev empty_lane : Lane ℕ
empty_lane = lane [] [] 0 false receiving

abbrev no_items : Chan ℕ
no_items = record { capacity = 0; tuples = [] }

abbrev lanes : List (Lane ℕ)
lanes = replicate 30 empty_lane ++ lane carried [] 1 false receiving ∷ empty_lane ∷ []

empty_chans :
    (n : ℕ) {cs : List (Chan ℕ)} {ls : List (Lane ℕ)}
    → Starts cs ls
    → Starts (replicate n no_items ++ cs) (replicate n empty_lane ++ ls)
empty_chans zero starts = starts
empty_chans (suc n) starts = chan no_items [] no_entry (empty_chans n starts)

one_entry-Starts : Starts (snapshot one_entry) lanes
unfolding snapshot set_key new_concurrent_map shard_index fnv32 fnv_loop insert lookup delete ◌==◌
one_entry-Starts = empty_chans 30 (
    chan (record { capacity = 1; tuples = carried }) carried (takes (text "a") 3 refl no_entry)
      (chan no_items [] no_entry no_chan))

-- The tuple is in its shard's channel.
abbrev sent : Iterating ℕ
sent = at_lane (begin one_entry lanes) 30 (lane [] carried 1 false receiving)

one_sent : IterRun (begin one_entry lanes) 1 sent
one_sent = then_step started (fills 30 (text "a", 3) [] [] 1 false receiving refl (omega arith))

IterBuffered-ends_example :
    (1 ≤ 4 * iter_capacity one_entry + 2 * length one_entry + 1)
    × (((sent.out_closed ≡ true) × IterBuffered one_entry (sent.got ++ sent.out_buffer))
        ⊎ GoesOn sent)
IterBuffered-ends_example =
    IterBuffered-ends one_entry one_entry-IsSharded one_entry-Starts one_sent
