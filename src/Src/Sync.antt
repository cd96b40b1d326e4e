-- ===== src/Src/Sync.antt =====
-- src/shm2src.rs: `update_clock_sync` locks on at once, and then slews by at most 2 ms a snapshot.
use shm2_rs.Base.{
  ℕ, suc, ◌+◌, ◌-◌, ◌*◌, ◌≤◌, ◌≡◌, refl, ap, ◌∙◌, ◌⊎◌, inl, inr, min, true, false, List, [], ◌∷◌,
  length, ◌==◌, arith,
}
use shm2_rs.Base.Int.{
  ℤ, pos, negsuc, pos_part, neg_part, ◌+ℤ◌, ◌-ℤ◌, +ℤ_parts, -ℤ_parts, clamp, wrap_i64, InI64,
}
use shm2_rs.Transport.Types.{TimelineSnapshot}
use shm2_rs.Src.{TimelineState, is_negative, desired_offset, slewed, update_clock_sync}

-- |a - b|
abbrev pub distance : ℤ → ℤ → ℕ
distance a b =
    (pos_part a + neg_part b - (pos_part b + neg_part a))
    + (pos_part b + neg_part a - (pos_part a + neg_part b))

clamp_parts :
    (lo hi : ℕ) (a : ℤ)
    → (pos_part (clamp lo hi a) ≡ min (pos_part a) hi)
      × (neg_part (clamp lo hi a) ≡ min (neg_part a) (lo + 1))
unfolding clamp
clamp_parts lo hi (pos n) = omega arith
clamp_parts lo hi (negsuc n) = omega arith

pub wrap_i64_lem : (a : ℤ) → InI64 a → wrap_i64 a ≡ a
unfolding wrap_i64
wrap_i64_lem (pos n) h = ground arith
wrap_i64_lem (negsuc n) h = ground arith

clamp-InI64 : (a : ℤ) → InI64 (clamp 0x7fff_ffff_ffff_ffff 0x7fff_ffff_ffff_ffff a)
clamp-InI64 a = omega (arith, clamp_parts 0x7fff_ffff_ffff_ffff 0x7fff_ffff_ffff_ffff a)

pub one_part : (a : ℤ) → (pos_part a ≡ 0) ⊎ (neg_part a ≡ 0)
one_part (pos n) = inr refl
one_part (negsuc n) = inl refl

-- A step in terms of the parts of its numbers: bounded, inside `i64`, and nearer by up to 2 ms.
step_lem :
    (offset desired diff step sum : ℤ)
    → InI64 offset
    → InI64 desired
    → pos_part diff + neg_part desired + pos_part offset
      ≡ neg_part diff + pos_part desired + neg_part offset
    → (pos_part step ≡ min (pos_part diff) 2_000_000)
      × (neg_part step ≡ min (neg_part diff) 2_000_000)
    → pos_part sum + neg_part offset + neg_part step
      ≡ neg_part sum + pos_part offset + pos_part step
    → InI64 sum
      × (distance sum offset ≤ 2_000_000)
      × (distance sum desired ≡ distance offset desired - 2_000_000)
step_lem offset desired diff step sum p q d c e =
    omega (arith, one_part offset, one_part desired, one_part diff, one_part sum)

-- Between two offsets in `i64`, a correction step is at most 2 ms, does not leave `i64`, and comes
-- nearer to the offset wanted by 2 ms or reaches it.
slewed_lem :
    (offset desired : ℤ)
    → InI64 offset
    → InI64 desired
    → InI64 (slewed offset desired)
      × (distance (slewed offset desired) offset ≤ 2_000_000)
      × (distance (slewed offset desired) desired ≡ distance offset desired - 2_000_000)
unfolding slewed
slewed_lem offset desired p q = rw (wrap_i64_lem sum (facts.0)) facts
  where
    step : ℤ
    step = clamp 1_999_999 2_000_000 (desired -ℤ offset)

    sum : ℤ
    sum = offset +ℤ step

    facts :
        InI64 sum
        × (distance sum offset ≤ 2_000_000)
        × (distance sum desired ≡ distance offset desired - 2_000_000)
    facts =
        step_lem offset desired (desired -ℤ offset) step sum p q (-ℤ_parts desired offset)
          (clamp_parts 1_999_999 2_000_000 (desired -ℤ offset)) (+ℤ_parts offset step)

pub sync_all : TimelineState → List (TimelineSnapshot × ℕ) → TimelineState
sync_all ts [] = ts
sync_all ts ((snap, now) ∷ beacons) = sync_all (update_clock_sync ts snap now) beacons

-- Beacons that ask for the same offset: valid, of a frame with a time, each with a sequence number
-- other than the one before.
abbrev pub Beacons : ℤ → ℕ → List (TimelineSnapshot × ℕ) → Type 0
Beacons desired last [] = Unit
Beacons desired last ((snap, now) ∷ beacons) =
    (snap.valid ≡ true)
    × (is_negative snap.producer_pts_ns ≡ false)
    × ((snap.seq == last) ≡ false)
    × (desired_offset snap now ≡ desired)
    × Beacons desired snap.seq beacons

-- A usable beacon at a locked timeline.
beacon_step :
    (ts : TimelineState) (snap : TimelineSnapshot) (now : ℕ)
    → ts.offset_valid ≡ true
    → snap.valid ≡ true
    → is_negative snap.producer_pts_ns ≡ false
    → (snap.seq == ts.last_snapshot_seq) ≡ false
    → ((update_clock_sync ts snap now).offset_ns ≡ slewed ts.offset_ns (desired_offset snap now))
      × ((update_clock_sync ts snap now).offset_valid ≡ true)
      × ((update_clock_sync ts snap now).last_snapshot_seq ≡ snap.seq)
unfolding update_clock_sync
beacon_step ts snap now locked valid timed fresh =
    rw (valid, timed, fresh, locked) (refl, refl, refl)

-- One step and the steps after it.
steps_lem :
    (start mid final desired : ℤ) (len : ℕ)
    → (distance mid start ≤ 2_000_000) × (distance mid desired ≡ distance start desired - 2_000_000)
    → (distance final desired ≡ distance mid desired - 2_000_000 * len)
      × (distance final mid ≤ 2_000_000 * len)
    → (distance final desired ≡ distance start desired - 2_000_000 * suc len)
      × (distance final start ≤ 2_000_000 * suc len)
steps_lem start mid final desired len a b = (omega (arith), omega (arith))

-- While valid beacons with changing sequence numbers ask for one offset, each brings a locked timeline
-- nearer to it by 2 ms, until it is reached, and all of them together move it by at most 2 ms each;
-- the offset stays an `i64`.
pub sync_all-distance :
    (ts : TimelineState) (desired : ℤ) (beacons : List (TimelineSnapshot × ℕ))
    → ts.offset_valid ≡ true
    → InI64 ts.offset_ns
    → InI64 desired
    → Beacons desired ts.last_snapshot_seq beacons
    → (distance (sync_all ts beacons).offset_ns desired
        ≡ distance ts.offset_ns desired - 2_000_000 * length beacons)
      × (distance (sync_all ts beacons).offset_ns ts.offset_ns ≤ 2_000_000 * length beacons)
      × InI64 (sync_all ts beacons).offset_ns
unfolding sync_all
sync_all-distance ts desired [] locked p q b = (omega arith, omega arith, p)
sync_all-distance ts desired ((snap, now) ∷ beacons) locked p q b =
    let (o, l, s) = beacon_step ts snap now locked b.0 b.1 b.2 in
    let moved = slewed_lem ts.offset_ns desired p q in
    let at : (update_clock_sync ts snap now).offset_ns ≡ slewed ts.offset_ns desired =
      o ∙ ap (slewed ts.offset_ns) b.3 in
    let rest =
      sync_all-distance (update_clock_sync ts snap now) desired beacons l (rw at moved.0) q
        (rw s b.4) in
    let all =
      steps_lem ts.offset_ns (update_clock_sync ts snap now).offset_ns
        (sync_all (update_clock_sync ts snap now) beacons).offset_ns desired (length beacons)
        (rw at moved.1, rw at moved.2) (rest.0, rest.1) in
    (all.0, all.1, rest.2)
