-- ===== src/Transport/Publish.antt =====
-- src/transport.rs: what `publish_lease` does to the queue, and when it stops waiting.
use shm2_rs.Base.{
  ℕ, ◌+◌, ◌-◌, ◌^◌, ◌≤◌, ◌<◌, ◌≡◌, refl, Bool, not, ◌&&◌, List, [], ◌∷◌, ◌++◌, none, some, max,
  add_u64, sub_u64, ltb, leb, ◌==◌, if◌then◌else◌, Bool-cases, lt→ltb, le→ltb, inl, inr, arith,
}
use shm2_rs.Base.Int.{ℤ}
use shm2_rs.Allocator.{used_bytes}
use shm2_rs.Transport.Types.{Region, Writer, AllocLease}
use shm2_rs.Transport.Timeline.{Clock, maybe_publish_timeline_snapshot, force_timeline_snapshot}
use shm2_rs.Transport.Writer.{
  push_ready, ready_desc, update_usage_metrics, try_publish_lease, publish_lease,
}
use shm2_rs.Transport.Queues.{
  IsRegion, ready_queue, recycle_queue, ready_queue-push_ready, push_ready-IsRegion,
}

abbrev pub HasRoom : Region → Type 0
HasRoom r = r.hdr.ready_head - r.hdr.ready_tail < r.hdr.ready_capacity

-- What a publication of `lease` leaves, compared with the writer and the region it found.
pub record Published (w : Writer) (lease : AllocLease) (pts_ns : ℤ) (w' : Writer) : Type 0 where
  pub queued :
      ready_queue w'.region
      ≡ ready_queue w.region ++ ready_desc (add_u64 w.region.hdr.ready_head 1) lease pts_ns ∷ []
  pub returned : recycle_queue w'.region ≡ recycle_queue w.region
  pub region_valid : IsRegion w'.region
  pub same_allocator : w'.allocator ≡ w.allocator
  pub same_arena : w'.region.arena ≡ w.region.arena
  pub same_arena_size : w'.region.hdr.arena_size ≡ w.region.hdr.arena_size
  pub same_capacity : w'.region.hdr.ready_capacity ≡ w.region.hdr.ready_capacity
  pub head : w'.region.hdr.ready_head ≡ w.region.hdr.ready_head + 1
  pub tail : w'.region.hdr.ready_tail ≡ w.region.hdr.ready_tail
  pub same_align : w'.allocator_align ≡ w.allocator_align
  pub returning :
      (w'.region.hdr.rec_head ≡ w.region.hdr.rec_head)
      × (w'.region.hdr.rec_tail ≡ w.region.hdr.rec_tail)
      × (w'.region.hdr.rec_capacity ≡ w.region.hdr.rec_capacity)
  pub used : w'.region.hdr.arena_used_bytes ≡ used_bytes w.allocator
  pub watermark :
      w'.region.hdr.arena_high_watermark
      ≡ max w.region.hdr.arena_high_watermark (used_bytes w.allocator)

timeline-Published :
    (w v : Writer) (clock : Clock) (lease : AllocLease) (pts_ns : ℤ) (head : ℕ)
    → Published w lease pts_ns v
    → Published w lease pts_ns (maybe_publish_timeline_snapshot v clock pts_ns head)
unfolding maybe_publish_timeline_snapshot force_timeline_snapshot ready_queue recycle_queue
timeline-Published w v clock lease pts_ns head p = elim (Bool-cases quiet) [
  | inl e ↦ rw e p
  | inr e ↦ rw e (record {
    queued = p.queued;
    returned = p.returned;
    region_valid = record {
      ready_ring = p.region_valid.ready_ring;
      recycle_ring = p.region_valid.recycle_ring;
    };
    same_allocator = p.same_allocator;
    same_arena = p.same_arena;
    same_arena_size = p.same_arena_size;
    same_capacity = p.same_capacity;
    head = p.head;
    tail = p.tail;
    same_align = p.same_align;
    returning = p.returning;
    used = p.used;
    watermark = p.watermark;
  })
]
  where
    quiet : Bool
    quiet =
        not (not (v.region.hdr.timeline_gen == v.last_timeline_snapshot_gen))
        && not (leb v.timeline_beacon_ns (clock.due_now - v.last_timeline_emit_ns))

-- The push and the metrics of a round, before the timeline.
pub push-Published :
    (w : Writer) (lease : AllocLease) (pts_ns : ℤ)
    → IsRegion w.region
    → HasRoom w.region
    → w.region.hdr.ready_head + 1 < 2 ^ 63
    → Published w lease pts_ns
        (update_usage_metrics (record w { region = push_ready w.region lease pts_ns }))
unfolding update_usage_metrics push_ready ready_queue recycle_queue
push-Published w lease pts_ns v room far = record {
  queued = ready_queue-push_ready w.region v lease pts_ns room;
  returned = refl;
  region_valid = record {
    ready_ring = (push_ready-IsRegion w.region v lease pts_ns room far).ready_ring;
    recycle_ring = v.recycle_ring;
  };
  same_allocator = refl;
  same_arena = refl;
  same_arena_size = refl;
  same_capacity = refl;
  head = omega (arith, far);
  tail = refl;
  same_align = refl;
  returning = (refl, refl, refl);
  used = refl;
  watermark = ground arith;
}

-- A round of `publish_lease` at a ring with room queues the descriptor; at a full ring it does nothing.
pub try_publish_lease_lem :
    (w : Writer) (clock : Clock) (lease : AllocLease) (pts_ns : ℤ)
    → IsRegion w.region
    → HasRoom w.region
    → w.region.hdr.ready_head + 1 < 2 ^ 63
    → (w' : Writer) × (try_publish_lease w clock lease pts_ns ≡ some w')
      × Published w lease pts_ns w'
unfolding try_publish_lease
try_publish_lease_lem w clock lease pts_ns v room far = (
  maybe_publish_timeline_snapshot
      (update_usage_metrics (record w { region = push_ready w.region lease pts_ns })) clock pts_ns
      (add_u64 w.region.hdr.ready_head 1),
  rw
      (lt→ltb (sub_u64 w.region.hdr.ready_head w.region.hdr.ready_tail) w.region.hdr.ready_capacity
        (omega (arith, v.ready_ring, room)))
      refl,
  timeline-Published w _ clock lease pts_ns (add_u64 w.region.hdr.ready_head 1)
      (push-Published w lease pts_ns v room far),
)

pub try_publish_lease-full :
    (w : Writer) (clock : Clock) (lease : AllocLease) (pts_ns : ℤ)
    → IsRegion w.region
    → w.region.hdr.ready_capacity ≤ w.region.hdr.ready_head - w.region.hdr.ready_tail
    → try_publish_lease w clock lease pts_ns ≡ none
unfolding try_publish_lease
try_publish_lease-full w clock lease pts_ns v full =
    rw
      (le→ltb (sub_u64 w.region.hdr.ready_head w.region.hdr.ready_tail) w.region.hdr.ready_capacity
        (omega (arith, v.ready_ring, full)))
      refl

-- The region as it stands when `publish_lease` stops waiting: the first one with room, or the last.
unfoldable pub wait_for_room : List (Region → Region) → Region → Region
wait_for_room [] r = r
wait_for_room (act ∷ peer) r =
    let later = wait_for_room peer (act r) in
    if ltb (sub_u64 r.hdr.ready_head r.hdr.ready_tail) r.hdr.ready_capacity then r else later

publish_lease-wait :
    (peer : List (Region → Region)) (w : Writer) (clock : Clock) (lease : AllocLease) (pts_ns : ℤ)
    → publish_lease peer w clock lease pts_ns
      ≡ try_publish_lease (record w { region = wait_for_room peer w.region }) clock lease pts_ns
unfolding publish_lease wait_for_room try_publish_lease
publish_lease-wait [] w clock lease pts_ns = refl
publish_lease-wait (act ∷ peer) w clock lease pts_ns =
    ground (arith, publish_lease-wait peer (record w { region = act w.region }) clock lease pts_ns)

-- `publish_lease` returns as soon as what the reader does has made room, and has then queued the
-- descriptor behind all that is queued, and changed neither the allocator, the arena nor the recycle
-- ring. The ring must be well formed at that moment.
pub publish_lease_lem :
    (peer : List (Region → Region)) (w : Writer) (clock : Clock) (lease : AllocLease) (pts_ns : ℤ)
    → IsRegion (wait_for_room peer w.region)
    → HasRoom (wait_for_room peer w.region)
    → (wait_for_room peer w.region).hdr.ready_head + 1 < 2 ^ 63
    → (w' : Writer) × (publish_lease peer w clock lease pts_ns ≡ some w')
      × Published (record w { region = wait_for_room peer w.region }) lease pts_ns w'
publish_lease_lem peer w clock lease pts_ns v room far =
    rw (publish_lease-wait peer w clock lease pts_ns) (
      try_publish_lease_lem (record w { region = wait_for_room peer w.region }) clock lease pts_ns v
        room far)
