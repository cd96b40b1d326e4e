-- ===== src/Transport/Lease/Dropping.antt =====
-- src/transport.rs: `drop_oldest_ready`, by which `alloc_lease` makes room.
use shm2_rs.Base.{
  ℕ, suc, ◌+◌, ◌<◌, ◌≡◌, refl, ap, sym, ◌∙◌, true, false, ◌∷◌, ◌==◌, drop, ==_iff, arith,
}
use shm2_rs.Allocator.Free.{free_by_id-IsValid, free_by_id-fresh}
use shm2_rs.Allocator.Ids.{KeepsIds, free_by_id-IdsBelow}
use shm2_rs.Platform.{Result, ok, err}
use shm2_rs.Transport.Types.{Region, Writer, AllocLease}
use shm2_rs.Transport.Writer.{drop_oldest_ready}
use shm2_rs.Transport.Queues.{ready_queue}
use shm2_rs.Transport.Receive.{ready_queue-popped, oldest}
use shm2_rs.Transport.Lease.{IsWriter, Granted, Outcome}

-- What `drop_oldest_ready` leaves where a frame is queued.
pub drop_oldest_ready-IsWriter :
    (w : Writer)
    → IsWriter w
    → w.region.hdr.ready_tail < w.region.hdr.ready_head
    → IsWriter (drop_oldest_ready w).0
unfolding drop_oldest_ready
drop_oldest_ready-IsWriter w v lt = rw not_empty (record {
  region_valid = record {
    ready_ring = ground (arith, v.region_valid.ready_ring, lt);
    recycle_ring = v.region_valid.recycle_ring;
  };
  arena_valid = free_by_id-IsValid w.region.hdr.arena_size w.allocator v.arena_valid _;
  fresh = free_by_id-fresh w.allocator _ v.fresh;
})
  where
    not_empty : (w.region.hdr.ready_head == w.region.hdr.ready_tail) ≡ false
    not_empty = ground (arith, lt)

-- The region without its oldest queued frame.
pub record WithoutOldest (r r1 : Region) : Type 0 where
  pub queue : ready_queue r ≡ oldest r ∷ ready_queue r1
  pub size : r1.hdr.arena_size ≡ r.hdr.arena_size
  pub bytes : r1.arena ≡ r.arena
  pub capacity : r1.hdr.ready_capacity ≡ r.hdr.ready_capacity
  pub head : r1.hdr.ready_head ≡ r.hdr.ready_head
  pub tail : r1.hdr.ready_tail ≡ r.hdr.ready_tail + 1

pub drop_oldest_ready-queue :
    (w : Writer)
    → IsWriter w
    → w.region.hdr.ready_tail < w.region.hdr.ready_head
    → ((drop_oldest_ready w).1 ≡ true) × WithoutOldest w.region (drop_oldest_ready w).0.region
unfolding drop_oldest_ready ready_queue
drop_oldest_ready-queue w v lt = rw not_empty (
  refl,
  record {
    queue = ready_queue-popped w.region v.region_valid lt;
    size = refl;
    bytes = refl;
    capacity = refl;
    head = refl;
    tail = omega (arith, lt, v.region_valid.ready_ring);
  },
)
  where
    not_empty : (w.region.hdr.ready_head == w.region.hdr.ready_tail) ≡ false
    not_empty = ground (arith, lt)

pub drop_oldest_ready-empty :
    (w : Writer)
    → w.region.hdr.ready_head ≡ w.region.hdr.ready_tail
    → drop_oldest_ready w ≡ (w, false)
unfolding drop_oldest_ready
drop_oldest_ready-empty w e = rw ((==_iff _ _).1 e) refl

pub drop_oldest_ready-align :
    (w : Writer) → (drop_oldest_ready w).0.allocator_align ≡ w.allocator_align
unfolding drop_oldest_ready
drop_oldest_ready-align w = ground arith

pub drop_oldest_ready-KeepsIds :
    (w : Writer) → KeepsIds w.allocator (drop_oldest_ready w).0.allocator
unfolding drop_oldest_ready
drop_oldest_ready-KeepsIds w n some_id b =
    ground (arith, b, free_by_id-IdsBelow n w.allocator (oldest w.region).buffer_id b)

-- What is granted after one frame was dropped is granted.
Granted-drop :
    (w w1 w' : Writer) (size align : ℕ) (lease : AllocLease)
    → WithoutOldest w.region w1.region
    → w1.allocator_align ≡ w.allocator_align
    → KeepsIds w.allocator w1.allocator
    → Granted w1 size align w' lease
    → Granted w size align w' lease
Granted-drop w w1 w' size align lease o al ids g = record {
  region_valid = g.region_valid;
  arena_valid = g.arena_valid;
  same_arena = g.same_arena ∙ o.size;
  same_bytes = g.same_bytes ∙ o.bytes;
  len = g.len;
  at = g.at;
  aligned = g.aligned;
  inside_arena = omega (arith, g.inside_arena, o.size);
  live = g.live;
  dropped = suc g.dropped;
  kept = g.kept ∙ ap (drop (suc g.dropped)) (sym o.queue);
  same_capacity = g.same_capacity ∙ o.capacity;
  same_align = g.same_align ∙ al;
  ids = λ n some_id far b. g.ids n some_id far (ids n some_id b);
  head_le = omega (arith, g.head_le, o.head);
  pending_le = omega (arith, g.pending_le, o.head, o.tail);
}

pub Outcome-drop :
    (w w1 : Writer) (size align : ℕ) (out : Writer × Result AllocLease)
    → WithoutOldest w.region w1.region
    → w1.allocator_align ≡ w.allocator_align
    → KeepsIds w.allocator w1.allocator
    → Outcome w1 size align out
    → Outcome w size align out
Outcome-drop w w1 size align (w', ok lease) o al ids g =
    Granted-drop w w1 w' size align lease o al ids g
Outcome-drop w w1 size align (w', err e) o al ids g = record {
  is_exhausted = g.is_exhausted;
  too_large = omega (arith, g.too_large, o.size);
  nothing_queued = g.nothing_queued;
  first_failure = g.first_failure;
  valid = g.valid;
  same_arena = g.same_arena ∙ o.size;
  same_align = g.same_align ∙ al;
}
