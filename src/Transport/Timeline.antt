-- ===== src/Transport/Timeline.antt =====
-- src/transport.rs: polling, the timeline snapshots that the writer emits, and the startup handshake.
use shm2_rs.Base.{
  ℕ, ◌+◌, ◌-◌, ◌^◌, Bool, true, false, ◌&&◌, not, add_u64, ltb, leb, ◌==◌, if◌then◌else◌,
}
use shm2_rs.Base.Int.{ℤ, pos_part, i64_of_u64}
use shm2_rs.Transport.Types.{
  startup_sink_ready, SharedHeader, Region, Writer, StartupSnapshot, TimelineSnapshot,
}

-- `thread::sleep` of a poll in microseconds, and the cycles counted, a `u32` that saturates.
poll_yield_sleep : ℕ → ℕ → ℕ × ℕ
poll_yield_sleep idle_cycles steady_sleep = (
  if leb idle_cycles 7
      then 50
      else if leb idle_cycles 31
      then 200
      else if leb idle_cycles 127
      then 1000
      else steady_sleep,
  if ltb idle_cycles (2 ^ 32 - 1) then idle_cycles + 1 else idle_cycles,
)

abbrev pub with_hdr : Region → SharedHeader → Region
with_hdr r hdr = record r { hdr = hdr }

unfoldable pub force_timeline_snapshot : Writer → ℕ → ℤ → ℕ → Writer
force_timeline_snapshot w now producer_pts_ns ready_head = record w {
  region = with_hdr w.region (record w.region.hdr {
    timeline_sink_mono_ns = now;
    timeline_producer_pts_ns = pos_part producer_pts_ns;
    timeline_ready_head = ready_head;
    timeline_snapshot_gen = w.region.hdr.timeline_gen;
    timeline_seq = add_u64 w.region.hdr.timeline_seq 1;
    timeline_valid = 1;
  });
  last_timeline_emit_ns = now;
  last_timeline_snapshot_gen = w.region.hdr.timeline_gen;
}

-- The two readings of `now_nanos` that a publication may make, in order.
pub record Clock : Type 0 where
  pub due_now : ℕ
  pub emit_now : ℕ

unfoldable pub maybe_publish_timeline_snapshot : Writer → Clock → ℤ → ℕ → Writer
maybe_publish_timeline_snapshot w clock producer_pts_ns ready_head =
    let generation_changed = not (w.region.hdr.timeline_gen == w.last_timeline_snapshot_gen) in
    let periodic_due = leb w.timeline_beacon_ns (clock.due_now - w.last_timeline_emit_ns) in
    if not generation_changed && not periodic_due
    then w
    else force_timeline_snapshot w clock.emit_now producer_pts_ns ready_head

emit_timeline_snapshot : Writer → ℕ → ℤ → Writer
emit_timeline_snapshot w now producer_pts_ns =
    force_timeline_snapshot w now producer_pts_ns w.region.hdr.ready_head

-- `startup_snapshot` and `set_startup_state`, the same in `impl Writer` and `impl Reader`.
startup_snapshot : Region → StartupSnapshot
startup_snapshot r = record {
  generation = r.hdr.startup_gen;
  state = r.hdr.startup_state;
  seq = r.hdr.startup_seq;
}

set_startup_state : Region → ℕ → ℕ → Region × Bool
set_startup_state r generation state =
    if not (r.hdr.startup_gen == generation) then (r, false) else (
      with_hdr r
          (record r.hdr { startup_state = state; startup_seq = add_u64 r.hdr.startup_seq 1 }),
      true,
    )

-- `Reader::timeline_snapshot`
unfoldable pub timeline_snapshot : Region → TimelineSnapshot
timeline_snapshot r = record {
  generation = r.hdr.timeline_gen;
  snapshot_gen = r.hdr.timeline_snapshot_gen;
  valid = not (r.hdr.timeline_valid == 0);
  seq = r.hdr.timeline_seq;
  sink_mono_ns = r.hdr.timeline_sink_mono_ns;
  producer_pts_ns = i64_of_u64 r.hdr.timeline_producer_pts_ns;
  ready_head = r.hdr.timeline_ready_head;
}

-- `Reader::sync_startup_state`: the backlog is skipped, and a new generation starts.
unfoldable pub sync_startup_state : Region → Region
sync_startup_state r = with_hdr r (record r.hdr {
  ready_tail = r.hdr.ready_head;
  timeline_gen = add_u64 r.hdr.timeline_gen 1;
  timeline_valid = 0;
  startup_gen = add_u64 r.hdr.startup_gen 1;
  startup_state = startup_sink_ready;
  startup_seq = add_u64 r.hdr.startup_seq 1;
})
