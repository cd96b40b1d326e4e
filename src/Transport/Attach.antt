-- ===== src/Transport/Attach.antt =====
-- src/transport.rs: the timeline snapshot, and the attach of a reader (`sync_startup_state`).
use shm2_rs.Base.{
  ℕ, ◌+◌, ◌^◌, ◌<◌, ◌≡◌, refl, ap, ap₂, ◌∙◌, true, false, [], ◌∷◌, ◌++◌, some, add_u64, sub_u64,
  ltb, lt→ltb, ◌==◌, arith,
}
use shm2_rs.Base.Int.{ℤ, pos, pos_part}
use shm2_rs.Transport.Types.{Region, Writer, AllocLease, TimelineSnapshot}
use shm2_rs.Transport.Timeline.{
  Clock, force_timeline_snapshot, maybe_publish_timeline_snapshot, timeline_snapshot,
  sync_startup_state,
}
use shm2_rs.Transport.Writer.{
  zero_ready, push_ready, ready_desc, update_usage_metrics, try_publish_lease,
}
use shm2_rs.Transport.Queues.{IsRegion, ready_queue}
use shm2_rs.Transport.Publish.{push-Published}
use shm2_rs.Transport.Receive.{window_none}

-- What the reader sees of a snapshot is what the writer put in, for a time below 2 ^ 63: the writer's
-- clock, the frame's time (0 for one before 0), the head, the generation of the moment, and a sequence
-- number one higher.
timeline_snapshot-force :
    (w : Writer) (now ready_head : ℕ) (pts_ns : ℤ)
    → pos_part pts_ns < 2 ^ 63
    → timeline_snapshot (force_timeline_snapshot w now pts_ns ready_head).region ≡ record {
      generation = w.region.hdr.timeline_gen;
      snapshot_gen = w.region.hdr.timeline_gen;
      valid = true;
      seq = add_u64 w.region.hdr.timeline_seq 1;
      sink_mono_ns = now;
      producer_pts_ns = pos (pos_part pts_ns);
      ready_head = ready_head;
    }
unfolding timeline_snapshot force_timeline_snapshot
timeline_snapshot-force w now ready_head pts_ns small = ground arith

-- After an attach nothing is queued, and the rings are well formed.
sync_startup_state-IsRegion : (r : Region) → IsRegion r → IsRegion (sync_startup_state r)
unfolding sync_startup_state
sync_startup_state-IsRegion r v = record {
  ready_ring = ground (arith, v.ready_ring);
  recycle_ring = v.recycle_ring;
}

ready_queue-sync : (r : Region) → ready_queue (sync_startup_state r) ≡ []
unfolding ready_queue sync_startup_state
ready_queue-sync r =
    window_none zero_ready r.ready r.hdr.ready_capacity r.hdr.ready_head r.hdr.ready_head refl

abbrev pub attached : Writer → Writer
attached w = record w { region = sync_startup_state w.region }

-- The writer after the first publication that follows an attach.
first_published : Writer → Clock → AllocLease → ℤ → Writer
first_published w clock lease pts_ns =
    force_timeline_snapshot
      (update_usage_metrics (record w { region = push_ready w.region lease pts_ns })) clock.emit_now
      pts_ns (add_u64 w.region.hdr.ready_head 1)

first_try :
    (w : Writer) (clock : Clock) (lease : AllocLease) (pts_ns : ℤ)
    → IsRegion w.region
    → w.last_timeline_snapshot_gen ≡ w.region.hdr.timeline_gen
    → try_publish_lease (attached w) clock lease pts_ns
      ≡ some (first_published (attached w) clock lease pts_ns)
unfolding try_publish_lease sync_startup_state maybe_publish_timeline_snapshot first_published
    push_ready update_usage_metrics
first_try w clock lease pts_ns v current = rw (room, changed) refl
  where
    room :
        ltb (sub_u64 w.region.hdr.ready_head w.region.hdr.ready_head) w.region.hdr.ready_capacity
        ≡ true
    room = lt→ltb _ _ (omega (arith, v.ready_ring))

    changed : (add_u64 w.region.hdr.timeline_gen 1 == w.last_timeline_snapshot_gen) ≡ false
    changed = ground (arith, current)

-- The snapshot of the next generation, with the next frame.
abbrev pub snapshot_of : Writer → ℕ → ℤ → TimelineSnapshot
snapshot_of w now pts_ns = record {
  generation = add_u64 w.region.hdr.timeline_gen 1;
  snapshot_gen = add_u64 w.region.hdr.timeline_gen 1;
  valid = true;
  seq = add_u64 w.region.hdr.timeline_seq 1;
  sink_mono_ns = now;
  producer_pts_ns = pos (pos_part pts_ns);
  ready_head = w.region.hdr.ready_head + 1;
}

first_queue :
    (w : Writer) (clock : Clock) (lease : AllocLease) (pts_ns : ℤ)
    → IsRegion w.region
    → w.region.hdr.ready_head + 1 < 2 ^ 63
    → ready_queue (first_published (attached w) clock lease pts_ns).region
      ≡ ready_desc (w.region.hdr.ready_head + 1) lease pts_ns ∷ []
unfolding first_published force_timeline_snapshot ready_queue sync_startup_state
first_queue w clock lease pts_ns v far =
    (push-Published (attached w) lease pts_ns (sync_startup_state-IsRegion w.region v)
      (omega (arith, v.ready_ring)) far).queued
    ∙ ap₂ (λ queue seq. queue ++ ready_desc seq lease pts_ns ∷ []) (ready_queue-sync w.region)
        (omega (arith, far))

first_snapshot :
    (w : Writer) (clock : Clock) (lease : AllocLease) (pts_ns : ℤ)
    → w.region.hdr.ready_head + 1 < 2 ^ 63
    → pos_part pts_ns < 2 ^ 63
    → timeline_snapshot (first_published (attached w) clock lease pts_ns).region
      ≡ snapshot_of w clock.emit_now pts_ns
unfolding first_published push_ready update_usage_metrics sync_startup_state
first_snapshot w clock lease pts_ns far small =
    timeline_snapshot-force
      (update_usage_metrics
        (record w { region = push_ready (sync_startup_state w.region) lease pts_ns }))
      clock.emit_now (add_u64 w.region.hdr.ready_head 1) pts_ns small
    ∙ ap (λ head. record (snapshot_of w clock.emit_now pts_ns) { ready_head = head })
        (omega (arith, far))

-- Attaching drops the backlog and opens a new timeline generation. A writer of a well-formed region
-- that was up to date with the old generation answers with the next frame that it publishes, of a time
-- below 2 ^ 63: it is the only one queued, and the snapshot that the reader then finds is valid, of
-- the new generation and of this frame.
pub attach-publish :
    (w : Writer) (clock : Clock) (lease : AllocLease) (pts_ns : ℤ)
    → IsRegion w.region
    → w.last_timeline_snapshot_gen ≡ w.region.hdr.timeline_gen
    → w.region.hdr.ready_head + 1 < 2 ^ 63
    → pos_part pts_ns < 2 ^ 63
    → (ready_queue (sync_startup_state w.region) ≡ [])
      × (w' : Writer) × (try_publish_lease (attached w) clock lease pts_ns ≡ some w')
      × (ready_queue w'.region ≡ ready_desc (w.region.hdr.ready_head + 1) lease pts_ns ∷ [])
      × (timeline_snapshot w'.region ≡ snapshot_of w clock.emit_now pts_ns)
attach-publish w clock lease pts_ns v current far small = (
  ready_queue-sync w.region,
  first_published (attached w) clock lease pts_ns,
  first_try w clock lease pts_ns v current,
  first_queue w clock lease pts_ns v far,
  first_snapshot w clock lease pts_ns far small,
)
