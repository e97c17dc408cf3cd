-- ===== src/ConcurrentMap/Iteration/Goroutines.antt =====
-- The goroutines of `IterBuffered` of map.go: one of `snapshot` for each shard, which fills the shard's channel
-- and closes it, one of `fanIn` for each of these channels, which copies it to the output, and that of
-- `fanIn` itself, which waits for all of them and closes the output.
pub mod Lanes
pub mod Progress
pub mod Carried
pub mod Ends
use wmq.Common.{
  ℕ, suc, ◌-◌, ◌<◌, ◌≡◌, Bool, true, false, some, List, [], ◌∷◌, ◌++◌, Text, length, get_elem?, set,
}
use wmq.Common.Dict.{Dict}
use wmq.ConcurrentMap.{ConcurrentMap}
use wmq.ConcurrentMap.Iteration.{Chan, Ranges, snapshot, iter_capacity}

-- Where the goroutine of `fanIn` for a channel stands: at the head of its loop, at the send of a tuple, or behind
-- `wg.Done()`.
pub data Copier (V : Type 0) : Type 0 where
  receiving : Copier V
  holding : Text × V → Copier V
  finished : Copier V

-- A shard's channel with its two goroutines: what `range` has still to take of the shard, in its order,
-- what is in the channel, and whether it is closed.
pub record Lane (V : Type 0) : Type 0 where
  pub left : Dict V
  pub buffer : Dict V
  pub capacity : ℕ
  pub is_closed : Bool
  pub copier : Copier V

-- `waiting` is the counter of the wait group of `fanIn`, and `got` what the caller has read.
pub record Iterating (V : Type 0) : Type 0 where
  pub lanes : List (Lane V)
  pub out_capacity : ℕ
  pub out_buffer : Dict V
  pub waiting : ℕ
  pub out_closed : Bool
  pub got : Dict V

module _ {V : Type 0} where
  abbrev pub lane : Dict V → Dict V → ℕ → Bool → Copier V → Lane V
  lane left buffer capacity is_closed copier = record {
    left = left;
    buffer = buffer;
    capacity = capacity;
    is_closed = is_closed;
    copier = copier;
  }

  abbrev pub at_lane : Iterating V → ℕ → Lane V → Iterating V
  at_lane s i l = record s { lanes = set s.lanes i l }

  -- A send waits for room in the channel, and a receive for a tuple or the close.
  pub data IterStep (s : Iterating V) : Iterating V → Type 0 where
    fills :
        (i : ℕ) (e : Text × V) (rest b : Dict V) (c : ℕ) (cl : Bool) (p : Copier V)
        → get_elem? s.lanes i ≡ some (lane (e ∷ rest) b c cl p)
        → length b < c
        → IterStep s (at_lane s i (lane rest (b ++ e ∷ []) c cl p))
    closes :
        (i : ℕ) (b : Dict V) (c : ℕ) (p : Copier V)
        → get_elem? s.lanes i ≡ some (lane [] b c false p)
        → IterStep s (at_lane s i (lane [] b c true p))
    receives :
        (i : ℕ) (e : Text × V) (l b : Dict V) (c : ℕ) (cl : Bool)
        → get_elem? s.lanes i ≡ some (lane l (e ∷ b) c cl receiving)
        → IterStep s (at_lane s i (lane l b c cl (holding e)))
    forwards :
        (i : ℕ) (e : Text × V) (l b : Dict V) (c : ℕ) (cl : Bool)
        → get_elem? s.lanes i ≡ some (lane l b c cl (holding e))
        → length s.out_buffer < s.out_capacity
        → IterStep s
            (record (at_lane s i (lane l b c cl receiving)) { out_buffer = s.out_buffer ++ e ∷ [] })
    finishes :
        (i : ℕ) (l : Dict V) (c : ℕ)
        → get_elem? s.lanes i ≡ some (lane l [] c true receiving)
        → IterStep s (record (at_lane s i (lane l [] c true finished)) { waiting = s.waiting - 1 })
    closes_out : s.waiting ≡ 0 → s.out_closed ≡ false → IterStep s (record s { out_closed = true })
    -- The caller, which may stop at any time.
    takes :
        (e : Text × V) (rest : Dict V)
        → s.out_buffer ≡ e ∷ rest
        → IterStep s (record s { out_buffer = rest; got = s.got ++ e ∷ [] })

  -- The step is one of the goroutines.
  abbrev pub IsInner : {s t : Iterating V} → IterStep s t → Type 0
  IsInner (takes e rest out) = ⊥
  IsInner step = Unit

  -- Runs of this many steps.
  pub data IterRun (s : Iterating V) : ℕ → Iterating V → Type 0 where
    started : IterRun s 0 s
    then_step : {n : ℕ} {t u : Iterating V} → IterRun s n t → IterStep t u → IterRun s (suc n) u

  -- The goroutines of the shards' channels when they start, with an order for each shard.
  pub data Starts : List (Chan V) → List (Lane V) → Type 0 where
    no_chan : Starts [] []
    chan :
        {chans : List (Chan V)} {lanes : List (Lane V)} (c : Chan V) (order : Dict V)
        → Ranges c.tuples order
        → Starts chans lanes
        → Starts (c ∷ chans) (lane order [] c.capacity false receiving ∷ lanes)

  -- The state when `IterBuffered` starts `fanIn`.
  abbrev pub begin : ConcurrentMap V → List (Lane V) → Iterating V
  begin m lanes = record {
    lanes = lanes;
    out_capacity = iter_capacity m;
    out_buffer = [];
    waiting = length lanes;
    out_closed = false;
    got = [];
  }
