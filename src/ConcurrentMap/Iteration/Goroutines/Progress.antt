-- ===== src/ConcurrentMap/Iteration/Goroutines/Progress.antt =====
-- The goroutines of `IterBuffered` (map.go) never wait for ever: what is left for them to do, and that one of them can
-- go on until the output is closed.
use wmq.Common.{
  ℕ, ◌+◌, ◌*◌, ◌≤◌, ◌<◌, ◌≡◌, refl, ap, ◌∙◌, arith, ◌⊎◌, inl, inr, Bool, true, false, some, [], ◌∷◌,
  ◌++◌, length, length-append, get_elem?, Bool-cases,
}
use wmq.Common.Dict.{Dict}
use wmq.ConcurrentMap.Iteration.Goroutines.{
  Copier, receiving, holding, finished, Lane, Iterating, lane, IterStep, fills, closes, receives,
  forwards, finishes, closes_out, takes, IsInner,
}
use wmq.ConcurrentMap.Iteration.Goroutines.Lanes.{
  total, All, total-set, total-get, All-set, All-get, find_counting,
}

abbrev pub is_open : Bool → ℕ
is_open true = 0
is_open false = 1

module _ {V : Type 0} where
  -- 1 while the goroutine of `fanIn` has not called `wg.Done()`.
  abbrev pub copying : Copier V → ℕ
  copying finished = 0
  copying p = 1

  abbrev pub held : Copier V → ℕ
  held (holding e) = 1
  held p = 0

  -- The tuples that have not reached the output.
  abbrev pub pending : Lane V → ℕ
  pending l = length l.left + length l.buffer + held l.copier

  abbrev pub running : Lane V → ℕ
  running l = copying l.copier

  abbrev pub lane_work : Lane V → ℕ
  lane_work l =
      4 * length l.left
      + 3 * length l.buffer
      + 2 * held l.copier
      + is_open l.is_closed
      + copying l.copier

  -- The steps that are left.
  abbrev pub work : Iterating V → ℕ
  work s = total lane_work s.lanes + length s.out_buffer + is_open s.out_closed

  pub step-work : {s t : Iterating V} → IterStep s t → work t + 1 ≡ work s
  step-work {s} (fills i e rest b c cl p at room) = omega (
    arith,
    total-set lane_work s.lanes i (lane (e ∷ rest) b c cl p) (lane rest (b ++ e ∷ []) c cl p) at,
    length-append b (e ∷ []),
  )
  step-work {s} (closes i b c p at) =
      omega (arith, total-set lane_work s.lanes i (lane [] b c false p) (lane [] b c true p) at)
  step-work {s} (receives i e l b c cl at) = omega (
    arith,
    total-set lane_work s.lanes i (lane l (e ∷ b) c cl receiving) (lane l b c cl (holding e)) at,
  )
  step-work {s} (forwards i e l b c cl at room) = omega (
    arith,
    total-set lane_work s.lanes i (lane l b c cl (holding e)) (lane l b c cl receiving) at,
    length-append s.out_buffer (e ∷ []),
  )
  step-work {s} (finishes i l c at) = omega (
    arith,
    total-set lane_work s.lanes i (lane l [] c true receiving) (lane l [] c true finished) at,
  )
  step-work {s} (closes_out done still) = rw still (omega arith)
  step-work {s} (takes e rest out) = rw out (omega arith)

  abbrev pub LaneIsFine : Lane V → Type 0
  LaneIsFine l =
      (length l.left + length l.buffer ≤ l.capacity)
      × (is_open l.is_closed ≡ 0 → length l.left ≡ 0)
      × (running l ≡ 0 → pending l ≡ 0)

  pub record IsFine (s : Iterating V) : Type 0 where
    pub each : All LaneIsFine s.lanes
    pub counts : s.waiting ≡ total running s.lanes
    pub room : total pending s.lanes + length s.out_buffer ≤ s.out_capacity
    pub ended : is_open s.out_closed ≡ 0 → s.waiting ≡ 0

  pub step-IsFine : {s t : Iterating V} → IterStep s t → IsFine s → IsFine t
  step-IsFine {s} (fills i e rest b c cl p at free) h =
      let x = lane (e ∷ rest) b c cl p in
      let y = lane rest (b ++ e ∷ []) c cl p in
      let (fits, shut, done) = All-get LaneIsFine s.lanes i x h.each at in
      let longer = length-append b (e ∷ []) in
      record {
        each =
            All-set LaneIsFine s.lanes i y h.each
              (omega (arith, fits, longer), λ q. omega (arith, shut q), λ q. omega (arith, done q));
        counts = omega (arith, h.counts, total-set running s.lanes i x y at);
        room = omega (arith, h.room, longer, total-set pending s.lanes i x y at);
        ended = h.ended;
      }
  step-IsFine {s} (closes i b c p at) h =
      let x = lane [] b c false p in
      let y = lane [] b c true p in
      let (fits, shut, done) = All-get LaneIsFine s.lanes i x h.each at in
      record {
        each = All-set LaneIsFine s.lanes i y h.each (fits, λ q. refl, done);
        counts = omega (arith, h.counts, total-set running s.lanes i x y at);
        room = omega (arith, h.room, total-set pending s.lanes i x y at);
        ended = h.ended;
      }
  step-IsFine {s} (receives i e l b c cl at) h =
      let x = lane l (e ∷ b) c cl receiving in
      let y = lane l b c cl (holding e) in
      let (fits, shut, done) = All-get LaneIsFine s.lanes i x h.each at in
      record {
        each =
            All-set LaneIsFine s.lanes i y h.each
              (omega (arith, fits), shut, λ q. omega (arith, q));
        counts = omega (arith, h.counts, total-set running s.lanes i x y at);
        room = omega (arith, h.room, total-set pending s.lanes i x y at);
        ended = h.ended;
      }
  step-IsFine {s} (forwards i e l b c cl at free) h =
      let x = lane l b c cl (holding e) in
      let y = lane l b c cl receiving in
      let (fits, shut, done) = All-get LaneIsFine s.lanes i x h.each at in
      record {
        each = All-set LaneIsFine s.lanes i y h.each (fits, shut, λ q. omega (arith, q));
        counts = omega (arith, h.counts, total-set running s.lanes i x y at);
        room = omega (
          arith,
          h.room,
          length-append s.out_buffer (e ∷ []),
          total-set pending s.lanes i x y at,
        );
        ended = h.ended;
      }
  step-IsFine {s} (finishes i l c at) h =
      let x = lane l [] c true receiving in
      let y = lane l [] c true finished in
      let (fits, shut, done) = All-get LaneIsFine s.lanes i x h.each at in
      record {
        each = All-set LaneIsFine s.lanes i y h.each (fits, shut, λ q. omega (arith, shut refl));
        counts = omega (arith, h.counts, total-set running s.lanes i x y at);
        room = omega (arith, h.room, total-set pending s.lanes i x y at);
        ended = λ q. omega (arith, h.ended q);
      }
  step-IsFine (closes_out done still) h = record {
    each = h.each;
    counts = h.counts;
    room = h.room;
    ended = λ q. done;
  }
  step-IsFine {s} (takes e rest out) h = record {
    each = h.each;
    counts = h.counts;
    room = omega (arith, h.room, ap length out);
    ended = h.ended;
  }

  -- One of the goroutines can go on, whatever the caller does.
  abbrev pub GoesOn : Iterating V → Type 0
  GoesOn s = (t : Iterating V) × (step : IterStep s t) × IsInner step

  lane-GoesOn :
      (s : Iterating V) (i : ℕ) (left buffer : Dict V) (c : ℕ) (cl : Bool) (p : Copier V)
      → IsFine s
      → get_elem? s.lanes i ≡ some (lane left buffer c cl p)
      → 0 < copying p
      → GoesOn s
  lane-GoesOn s i (e ∷ rest) b c cl p h at runs =
      let (fits, shut, done) = All-get LaneIsFine s.lanes i (lane (e ∷ rest) b c cl p) h.each at in
      (_, fills i e rest b c cl p at (omega (arith, fits)), tt)
  lane-GoesOn s i [] b c false p h at runs = (_, closes i b c p at, tt)
  lane-GoesOn s i [] b c true (holding e) h at runs =
      let some_room = total-get pending s.lanes i (lane [] b c true (holding e)) at in
      (_, forwards i e [] b c true at (omega (arith, some_room, h.room)), tt)
  lane-GoesOn s i [] (e ∷ b) c true receiving h at runs = (_, receives i e [] b c true at, tt)
  lane-GoesOn s i [] [] c true receiving h at runs = (_, finishes i [] c at, tt)
  lane-GoesOn s i [] b c true finished h at runs = absurd (omega (arith, runs))

  pub fine-GoesOn : (s : Iterating V) → IsFine s → (s.out_closed ≡ true) ⊎ GoesOn s
  fine-GoesOn s h = elim (find_counting running s.lanes) [
    | inr (i, l, at, runs) ↦
        inr (lane-GoesOn s i l.left l.buffer l.capacity l.is_closed l.copier h at runs)
    | inl all_done ↦ elim (Bool-cases s.out_closed) [
      | inl ended ↦ inl ended
      | inr still ↦ inr (_, closes_out (h.counts ∙ all_done) still, tt)
    ]
  ]
