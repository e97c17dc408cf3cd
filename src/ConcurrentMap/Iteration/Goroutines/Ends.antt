-- ===== src/ConcurrentMap/Iteration/Goroutines/Ends.antt =====
-- The goroutines of `IterBuffered` (map.go) come to an end, and what the output has carried by then.
use wmq.Common.{
  ℕ, zero, suc, ◌+◌, ◌*◌, ◌≤◌, ◌≡◌, refl, sym, ap, ◌∙◌, subst, arith, ◌⊎◌, inl, inr, true, List, [],
  ◌∷◌, ◌++◌, map, length, get_or,
}
use wmq.Common.Dict.{Dict, Distinct, length-delete, delete-Distinct}
use wmq.ConcurrentMap.{ConcurrentMap}
use wmq.ConcurrentMap.Invariant.{IsSharded}
use wmq.ConcurrentMap.Iteration.{
  Chan, Ranges, no_entry, takes, snapshot, total_capacity, iter_capacity, IterBuffered,
}
use wmq.ConcurrentMap.Iteration.Goroutines.{
  Copier, receiving, holding, finished, Lane, Iterating, IterRun, started, then_step, Starts,
  no_chan, chan, begin,
}
use wmq.ConcurrentMap.Iteration.Goroutines.Lanes.{total, All}
use wmq.ConcurrentMap.Iteration.Goroutines.Progress.{
  running, held, pending, lane_work, work, LaneIsFine, IsFine, step-work, step-IsFine, GoesOn,
  fine-GoesOn, is_open,
}
use wmq.ConcurrentMap.Iteration.Goroutines.Carried.{
  Merges, none_left, hand, remaining, out_so_far, Carries, step-Carries, Orders, Merges-FanIn,
}

append-nil : {A : Type 0} (xs : List A) → xs ++ [] ≡ xs
append-nil [] = refl
append-nil (x ∷ xs) = ap (λ ys. x ∷ ys) (append-nil xs)

module _ {V : Type 0} where
  -- The channel has room for the whole shard.
  abbrev IsSized : Chan V → Type 0
  IsSized c = (length c.tuples ≡ c.capacity) × Distinct c.tuples

  snapshot-IsSized :
      (m : ConcurrentMap V) → ((i : ℕ) → Distinct (get_or m i [])) → All IsSized (snapshot m)
  unfolding snapshot
  snapshot-IsSized [] h = tt
  snapshot-IsSized (d ∷ m) h = ((refl, h 0), snapshot-IsSized m (λ i. h (suc i)))

  length-snapshot : (m : ConcurrentMap V) → length (snapshot m) ≡ length m
  unfolding snapshot
  length-snapshot [] = refl
  length-snapshot (d ∷ m) = ap suc (length-snapshot m)

  length-Ranges : {d order : Dict V} → Ranges d order → Distinct d → length order ≡ length d
  length-Ranges no_entry h = refl
  length-Ranges {d} (takes key val found r) h =
      omega (arith, length-Ranges r (delete-Distinct key d h), rw found at (length-delete key d h))

  -- What holds of the goroutines when they start.
  record Begins (chans : List (Chan V)) (lanes : List (Lane V)) : Type 0 where
    each : All LaneIsFine lanes
    same : length lanes ≡ length chans
    counts : length lanes ≡ total running lanes
    room : total pending lanes ≤ total_capacity chans
    bound : total lane_work lanes ≤ 4 * total_capacity chans + 2 * length chans

  Starts-Begins :
      {chans : List (Chan V)} {lanes : List (Lane V)}
      → Starts chans lanes
      → All IsSized chans
      → Begins chans lanes
  Starts-Begins no_chan h = record {
    each = tt;
    same = refl;
    counts = refl;
    room = omega arith;
    bound = omega arith;
  }
  Starts-Begins (chan c order r starts) ((size, distinct), h) =
      let rest = Starts-Begins starts h in
      let long = length-Ranges r distinct ∙ size in
      record {
        each = ((omega (arith, long), λ q. omega (arith, q), λ q. omega (arith, q)), rest.each);
        same = ap suc rest.same;
        counts = omega (arith, rest.counts);
        room = omega (arith, long, rest.room);
        bound = omega (arith, long, rest.bound);
      }

  Starts-Orders :
      {chans : List (Chan V)} {lanes : List (Lane V)}
      → Starts chans lanes
      → Orders (map (λ c. c.tuples) chans) (map remaining lanes)
  Starts-Orders no_chan i = no_entry
  Starts-Orders (chan c order r starts) zero = r
  Starts-Orders (chan c order r starts) (suc i) = Starts-Orders starts i

  -- After the last `wg.Done()` nothing is on its way.
  nothing_on_its_way :
      (left buffer : Dict V) (p : Copier V)
      → length left + length buffer + held p ≡ 0
      → hand p ++ (buffer ++ left) ≡ []
  nothing_on_its_way [] [] receiving h = refl
  nothing_on_its_way [] [] finished h = refl
  nothing_on_its_way [] [] (holding e) h = absurd (omega (arith, h))
  nothing_on_its_way [] (x ∷ buffer) p h = absurd (omega (arith, h))
  nothing_on_its_way (x ∷ left) buffer p h = absurd (omega (arith, h))

  nothing_left :
      (lanes : List (Lane V))
      → All LaneIsFine lanes
      → total running lanes ≡ 0
      → (i : ℕ) → get_or (map remaining lanes) i [] ≡ []
  nothing_left [] h e i = refl
  nothing_left (l ∷ lanes) h e zero =
      nothing_on_its_way l.left l.buffer l.copier (h.0.2 (omega (arith, e)))
  nothing_left (l ∷ lanes) h e (suc i) = nothing_left lanes h.1 (omega (arith, e)) i

  -- What every run keeps.
  record Runs (m : ConcurrentMap V) (lanes : List (Lane V)) (n : ℕ) (s : Iterating V) : Type 0 where
    fine : IsFine s
    spent : n + work s ≡ work (begin m lanes)
    carries : Carries (map remaining lanes) s

  run-Runs :
      (m : ConcurrentMap V) (lanes : List (Lane V)) {n : ℕ} {s : Iterating V}
      → Begins (snapshot m) lanes
      → IterRun (begin m lanes) n s
      → Runs m lanes n s
  unfolding iter_capacity
  run-Runs m lanes b started = record {
    fine = record {
      each = b.each;
      counts = b.counts;
      room = omega (arith, b.room);
      ended = λ q. omega (arith, q);
    };
    spent = omega arith;
    carries = λ rest merges. merges;
  }
  run-Runs m lanes b (then_step run step) =
      let before = run-Runs m lanes b run in
      record {
        fine = step-IsFine step before.fine;
        spent = omega (arith, before.spent, step-work step);
        carries = step-Carries (map remaining lanes) step before.carries;
      }

  -- On a sharded map that is not changed meanwhile, the goroutines of `IterBuffered` end after at most four steps for
  -- each entry, two for each shard, and one, in whatever order they and the caller run and whether or not
  -- the caller reads: at each point either one of them can go on, or the output is closed and has carried, in some
  -- order, the entries of the map.
  pub IterBuffered-ends :
      (m : ConcurrentMap V) {lanes : List (Lane V)} {n : ℕ} {s : Iterating V}
      → IsSharded m
      → Starts (snapshot m) lanes
      → IterRun (begin m lanes) n s
      → (n ≤ 4 * iter_capacity m + 2 * length m + 1)
        × (((s.out_closed ≡ true) × IterBuffered m (s.got ++ s.out_buffer)) ⊎ GoesOn s)
  unfolding iter_capacity IterBuffered
  IterBuffered-ends m {lanes} {n} {s} h starts run =
      let b = Starts-Begins starts (snapshot-IsSized m h.distinct) in
      let runs = run-Runs m lanes b run in
      (
        omega (arith, runs.spent, b.bound, length-snapshot m),
        elim (fine-GoesOn s runs.fine) [
          | inr more ↦ inr more
          | inl ended ↦
              let none_running : total running s.lanes ≡ 0 =
                sym runs.fine.counts ∙ runs.fine.ended (ap is_open ended) in
              let all : Merges (map remaining lanes) (out_so_far s ++ []) =
                runs.carries [] (none_left (nothing_left s.lanes runs.fine.each none_running)) in
              inl (
                ended,
                Merges-FanIn (map (λ c. c.tuples) (snapshot m)) (Starts-Orders starts)
                    (subst (Merges (map remaining lanes)) (append-nil (out_so_far s)) all),
              )
        ],
      )
