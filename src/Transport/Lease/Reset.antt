-- ===== src/Transport/Lease/Reset.antt =====
-- src/transport.rs: an allocation that succeeds, and `reset_allocator_state`.
use shm2_rs.Base.{
  ℕ, ◌%◌, ◌^◌, ◌≤◌, ◌<◌, ◌≡◌, refl, ap, sym, ◌∙◌, max, [], none, some, add_u64, Option-cases, inl,
  inr, drop, arith,
}
use shm2_rs.Allocator.{Allocation, FreeListAllocator, new, alloc, find}
use shm2_rs.Allocator.Alloc.{alloc-IsValid, alloc_lem, alloc-none}
use shm2_rs.Allocator.Free.{new-IsValid}
use shm2_rs.Allocator.Ids.{IdsBelow, new-IdsBelow, alloc-IdsBelow}
use shm2_rs.Transport.Types.{Writer, AllocLease}
use shm2_rs.Transport.Ring.{window}
use shm2_rs.Transport.Writer.{zero_ready, reset_allocator_state, retry_after_reset, lease_of}
use shm2_rs.Transport.Queues.{ready_queue}
use shm2_rs.Transport.Receive.{window_none}
use shm2_rs.Transport.Lease.{IsWriter, Granted, Outcome}

-- An allocation at a valid writer is a lease.
pub alloc-Granted :
    (w : Writer) (size align : ℕ) (al : Allocation) (a : FreeListAllocator)
    → IsWriter w
    → size < 2 ^ 32
    → align ≤ 2 ^ 62
    → alloc w.allocator size align ≡ some (al, a)
    → Granted w size align (record w { allocator = a }) (lease_of al)
alloc-Granted w size align al a v s q e =
    let got =
      alloc_lem w.region.hdr.arena_size size align w.allocator v.arena_valid s q (al, a) e in
    record {
      region_valid = v.region_valid;
      arena_valid =
          alloc-IsValid w.region.hdr.arena_size size align w.allocator v.arena_valid s q (al, a)
            v.fresh e;
      same_arena = refl;
      same_bytes = refl;
      len = got.0;
      at = refl;
      aligned = got.2;
      inside_arena = got.3;
      live = ground (arith, got.5 al.buffer_id, got.1);
      dropped = 0;
      kept = refl;
      same_capacity = refl;
      same_align = refl;
      ids = λ n some_id far b. alloc-IdsBelow n size align w.allocator (al, a) b far e;
      head_le = omega arith;
      pending_le = omega arith;
    }

pub reset_allocator_state-IsWriter : (w : Writer) → IsWriter w → IsWriter (reset_allocator_state w)
unfolding reset_allocator_state new find
reset_allocator_state-IsWriter w v = record {
  region_valid = record {
    ready_ring = ground (arith, v.region_valid.ready_ring);
    recycle_ring = ground (arith, v.region_valid.recycle_ring);
  };
  arena_valid = unfold new in new-IsValid w.region.hdr.arena_size v.arena_valid.small;
  fresh = refl;
}

mod-zero : (m : ℕ) → 0 % m ≡ 0
mod-zero m = grind arith

-- A reset allocator refuses only what the arena cannot hold.
reset-refuses :
    (w : Writer) (size align : ℕ)
    → IsWriter w
    → size < 2 ^ 32
    → align ≤ 2 ^ 62
    → alloc (reset_allocator_state w).allocator size align ≡ none
    → w.region.hdr.arena_size < size
unfolding reset_allocator_state new
reset-refuses w size align v s q e = ground (
  arith,
  alloc-none w.region.hdr.arena_size size align (reset_allocator_state w).allocator
      (reset_allocator_state-IsWriter w v).arena_valid s q 0 e (mod-zero (max align 1)),
)

reset-IdsBelow : (n : ℕ) (w : Writer) → 0 < n → IdsBelow n (reset_allocator_state w).allocator
unfolding reset_allocator_state
reset-IdsBelow n w some_id = new-IdsBelow n w.region.hdr.arena_size some_id

Granted-reset :
    (w w' : Writer) (size align : ℕ) (lease : AllocLease)
    → ready_queue w.region ≡ []
    → Granted (reset_allocator_state w) size align w' lease
    → Granted w size align w' lease
unfolding reset_allocator_state ready_queue window
Granted-reset w w' size align lease q g = record {
  region_valid = g.region_valid;
  arena_valid = g.arena_valid;
  same_arena = g.same_arena;
  same_bytes = g.same_bytes;
  len = g.len;
  at = g.at;
  aligned = g.aligned;
  inside_arena = g.inside_arena;
  live = g.live;
  dropped = g.dropped;
  kept = g.kept ∙ ap (drop g.dropped) (sym q);
  same_capacity = g.same_capacity;
  same_align = g.same_align;
  ids = λ n some_id far b. g.ids n some_id far (reset-IdsBelow n w some_id);
  head_le = omega (arith, g.head_le);
  pending_le = omega (arith, g.pending_le);
}

-- After the reset nothing is queued, and the failure that is then counted is the first.
reset_queue : (w : Writer) → ready_queue (reset_allocator_state w).region ≡ []
unfolding reset_allocator_state ready_queue window
reset_queue w = refl

reset_failures : (w : Writer) → add_u64 (reset_allocator_state w).region.hdr.alloc_failures 1 ≡ 1
unfolding reset_allocator_state
reset_failures w = refl

-- The failure counted.
failed-IsWriter : (w : Writer) → IsWriter w → IsWriter (retry_after_reset w none).0
unfolding retry_after_reset
failed-IsWriter w v = record {
  region_valid = record {
    ready_ring = v.region_valid.ready_ring;
    recycle_ring = v.region_valid.recycle_ring;
  };
  arena_valid = v.arena_valid;
  fresh = v.fresh;
}

pub retry-Outcome :
    (w : Writer) (size align : ℕ)
    → IsWriter w
    → size < 2 ^ 32
    → align ≤ 2 ^ 62
    → ready_queue w.region ≡ []
    → Outcome w size align (
        retry_after_reset
          (reset_allocator_state w)
          (alloc (reset_allocator_state w).allocator size align))
unfolding retry_after_reset reset_allocator_state ready_queue
retry-Outcome w size align v s q empty =
    elim (Option-cases (alloc (reset_allocator_state w).allocator size align)) [
      | inl e ↦ rw e (record {
        is_exhausted = refl;
        too_large = reset-refuses w size align v s q e;
        nothing_queued = reset_queue w;
        first_failure = reset_failures w;
        valid = failed-IsWriter _ (reset_allocator_state-IsWriter w v);
        same_arena = refl;
        same_align = refl;
      })
      | inr (got, e) ↦ rw e (
          Granted-reset w _ size align (lease_of got.0) empty (
            alloc-Granted (reset_allocator_state w) size align got.0 got.1
              (reset_allocator_state-IsWriter w v) s q e))
    ]

pub queue-empty :
    (w : Writer) → w.region.hdr.ready_head ≡ w.region.hdr.ready_tail → ready_queue w.region ≡ []
unfolding ready_queue
queue-empty w e =
    window_none zero_ready w.region.ready w.region.hdr.ready_capacity w.region.hdr.ready_head
      w.region.hdr.ready_tail e
