-- ===== src/Src/Stamp.antt =====
-- src/shm2src.rs: the first frame that `create` stamps in a generation.
use shm2_rs.Base.{
  ℕ, ◌+◌, ◌-◌, ◌^◌, ◌≤◌, ◌<◌, ◌≡◌, refl, ap, ◌∙◌, true, false, ◌||◌, Option, none, some, ltb, ◌==◌,
  if◌then◌else◌, arith,
}
use shm2_rs.Base.Int.{pos, ◌+ℤ◌, ◌-ℤ◌, +ℤ_parts, -ℤ_parts, clamp, wrap_i64, i64_of_u64, eq_of_parts}
use shm2_rs.Transport.Types.{ReceivedDesc, TimelineSnapshot}
use shm2_rs.Src.Sync.{wrap_i64_lem, one_part}
use shm2_rs.Src.{
  TimelineState, desired_offset, update_clock_sync, follow_generation, output_pts, log_late,
  stamp_live, stamp,
}

-- The sums behind a frame's time, of numbers far below 2 ^ 63, are exact.
exact_sum :
    (p q sink now : ℕ)
    → p < 2 ^ 61
    → q ≤ p
    → sink < 2 ^ 61
    → now < 2 ^ 61
    → wrap_i64 (pos p +ℤ wrap_i64 (pos sink -ℤ pos q)) +ℤ (pos now -ℤ pos sink) ≡ pos (p + now - q)
exact_sum p q sink now hp hq hs hn =
    ap (λ a. wrap_i64 (pos p +ℤ a) +ℤ (pos now -ℤ pos sink))
      (wrap_i64_lem (pos sink -ℤ pos q)
        (omega (arith, -ℤ_parts (pos sink) (pos q), one_part (pos sink -ℤ pos q))))
    ∙ ap (λ a. a +ℤ (pos now -ℤ pos sink))
        (wrap_i64_lem (pos p +ℤ (pos sink -ℤ pos q)) (
          omega (
            arith,
            one_part (pos p +ℤ (pos sink -ℤ pos q)),
            -ℤ_parts (pos sink) (pos q),
            +ℤ_parts (pos p) (pos sink -ℤ pos q),
          )))
    ∙ eq_of_parts (pos p +ℤ (pos sink -ℤ pos q) +ℤ (pos now -ℤ pos sink)) (pos (p + now - q)) (
        omega (
          arith,
          -ℤ_parts (pos sink) (pos q),
          -ℤ_parts (pos now) (pos sink),
          +ℤ_parts (pos p) (pos sink -ℤ pos q),
          +ℤ_parts (pos p +ℤ (pos sink -ℤ pos q)) (pos now -ℤ pos sink),
        ))

-- The time given out by a timeline that locked on with this frame's beacon.
locked_pts :
    (ts : TimelineState) (p q sink now : ℕ)
    → p < 2 ^ 61
    → q ≤ p
    → sink < 2 ^ 61
    → now < 2 ^ 61
    → ts.offset_valid ≡ true
    → ts.offset_ns ≡ pos now -ℤ pos sink
    → ts.sink_mono_at_snap ≡ sink
    → ts.producer_pts_at_snap ≡ pos q
    → output_pts ts (pos p) ≡ some (p + now - q)
unfolding output_pts clamp
locked_pts ts p q sink now hp hq hs hn valid offset mono producer =
    rw (valid, offset, mono, producer, no_wrap, exact_sum p q sink now hp hq hs hn)
      (ap some (omega arith))
  where
    no_wrap : i64_of_u64 sink ≡ pos sink
    no_wrap = ground (arith, hs)

-- A beacon of a new generation.
pub record FirstBeacon (ts : TimelineState) (snap : TimelineSnapshot) (q : ℕ) : Type 0 where
  pub other_generation : (snap.generation == ts.expected_gen) ≡ false
  pub valid : snap.valid ≡ true
  pub numbered : (snap.seq == 0) ≡ false
  pub of_frame : snap.producer_pts_ns ≡ pos q

abbrev locked_on : TimelineState → TimelineSnapshot → ℕ → TimelineState
locked_on ts snap now = update_clock_sync (follow_generation ts snap) snap now

desired_offset_lem :
    (snap : TimelineSnapshot) (now : ℕ)
    → snap.sink_mono_ns < 2 ^ 61
    → now < 2 ^ 61
    → desired_offset snap now ≡ pos now -ℤ pos snap.sink_mono_ns
unfolding desired_offset clamp ◌-ℤ◌
desired_offset_lem snap now hs hn = ground arith

-- The first beacon of a generation locks the timeline on to it.
first_lock :
    (ts : TimelineState) (snap : TimelineSnapshot) (now q : ℕ)
    → FirstBeacon ts snap q
    → snap.sink_mono_ns < 2 ^ 61
    → now < 2 ^ 61
    → ((locked_on ts snap now).offset_valid ≡ true)
      × ((locked_on ts snap now).offset_ns ≡ pos now -ℤ pos snap.sink_mono_ns)
      × ((locked_on ts snap now).sink_mono_at_snap ≡ snap.sink_mono_ns)
      × ((locked_on ts snap now).producer_pts_at_snap ≡ pos q)
      × ((locked_on ts snap now).need_discont ≡ true)
unfolding update_clock_sync follow_generation
first_lock ts snap now q f hs hn =
    rw (f.other_generation, f.valid, f.of_frame, f.numbered)
      (
        refl,
        desired_offset_lem (record snap { valid = true; producer_pts_ns = pos q }) now hs hn,
        refl,
        refl,
        refl,
      )

log_late-need_discont :
    (ts : TimelineState) (now out : Option ℕ) → (log_late ts now out).need_discont ≡ ts.need_discont
unfolding log_late
log_late-need_discont ts none out = refl
log_late-need_discont ts (some now) none = refl
log_late-need_discont ts (some now) (some out) = ground arith

-- With `live-only`, the first frame of a generation that comes with a valid beacon of its own time or
-- an earlier one, all times below 2 ^ 61, is given the running time of its arrival, later by as much
-- as its own time is past the beacon's. The sink's clock does not show in it. The frame is marked as a
-- discontinuity, and the mark is then cleared.
pub stamp-first :
    (ts : TimelineState) (desc : ReceivedDesc) (snap : TimelineSnapshot) (p q now dropped : ℕ)
    → FirstBeacon ts snap q
    → desc.pts_ns ≡ pos p
    → p < 2 ^ 61
    → q ≤ p
    → snap.sink_mono_ns < 2 ^ 61
    → now < 2 ^ 61
    → ((stamp true ts desc snap (some now) dropped).pts ≡ some (p + now - q))
      × ((stamp true ts desc snap (some now) dropped).discont ≡ true)
      × ((stamp true ts desc snap (some now) dropped).timeline.need_discont ≡ false)
unfolding stamp stamp_live
stamp-first ts desc snap p q now dropped f own hp hq hs hn =
    let lock = first_lock ts snap now q f hs hn in
    (
      ap (output_pts (locked_on ts snap now)) own
          ∙ locked_pts (locked_on ts snap now) p q snap.sink_mono_ns now hp hq hs hn lock.0 lock.1
              lock.2 lock.3,
      ap (λ b. b || ltb 0 dropped) lock.4,
      log_late-need_discont _ (some now) (output_pts (locked_on ts snap now) desc.pts_ns)
          ∙ ap (λ b. if b || ltb 0 dropped then false else b) lock.4,
    )
