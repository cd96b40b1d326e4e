-- ===== src/Transport/Drain.antt =====
-- src/transport.rs: `drain_recycles`, the garbage collection of returned buffers.
use shm2_rs.Base.{
  ℕ, zero, suc, ◌+◌, ◌-◌, ◌%◌, ◌<◌, ◌≡◌, refl, ap, sym, ◌∙◌, true, false, List, [], ◌∷◌, some,
  add_u64, sub_u64, ◌==◌, get_or, arith,
}
use native.Mathlib.Decide.{dec_lt}
use shm2_rs.Allocator.{FreeListAllocator, free_by_id, used_bytes}
use shm2_rs.Allocator.Free.{free_by_id-IsValid, free_by_id-fresh}
use shm2_rs.Allocator.Ids.{KeepsIds, free_by_id-IdsBelow}
use shm2_rs.Transport.Types.{RecycleDesc, Writer}
use shm2_rs.Transport.Ring.{window}
use shm2_rs.Transport.Writer.{zero_recycle, store_used_bytes, drain_one, drain_loop, drain_recycles}
use shm2_rs.Transport.Queues.{ready_queue, recycle_queue}
use shm2_rs.Transport.Receive.{window_pop, window_none}
use shm2_rs.Transport.Lease.{IsWriter}

-- The buffers of the entries freed in order; an id that is not live is passed over.
unfoldable pub free_all : FreeListAllocator → List RecycleDesc → FreeListAllocator
free_all a [] = a
free_all a (d ∷ returned) = free_all (free_by_id a d.buffer_id).0 returned

-- What a drain leaves.
pub record Drained (w w' : Writer) : Type 0 where
  pub valid : IsWriter w'
  pub freed : w'.allocator ≡ free_all w.allocator (recycle_queue w.region)
  pub returned : recycle_queue w'.region ≡ []
  pub queued : ready_queue w'.region ≡ ready_queue w.region
  pub same_arena : w'.region.hdr.arena_size ≡ w.region.hdr.arena_size
  pub same_capacity : w'.region.hdr.ready_capacity ≡ w.region.hdr.ready_capacity
  pub head : w'.region.hdr.ready_head ≡ w.region.hdr.ready_head
  pub tail : w'.region.hdr.ready_tail ≡ w.region.hdr.ready_tail
  pub same_align : w'.allocator_align ≡ w.allocator_align
  pub returning :
      (w'.region.hdr.rec_head ≡ w.region.hdr.rec_head)
      × (w'.region.hdr.rec_capacity ≡ w.region.hdr.rec_capacity)
  pub ids : KeepsIds w.allocator w'.allocator
  pub used : w'.region.hdr.arena_used_bytes ≡ used_bytes w'.allocator
  pub same_bytes : w'.region.arena ≡ w.region.arena

drain_one-IsWriter :
    (w : Writer)
    → IsWriter w
    → w.region.hdr.rec_tail < w.region.hdr.rec_head
    → IsWriter (drain_one w)
unfolding drain_one
drain_one-IsWriter w v lt = record {
  region_valid = record {
    ready_ring = v.region_valid.ready_ring;
    recycle_ring = ground (arith, v.region_valid.recycle_ring, lt);
  };
  arena_valid = free_by_id-IsValid w.region.hdr.arena_size w.allocator v.arena_valid _;
  fresh = free_by_id-fresh w.allocator _ v.fresh;
}

drain_one-queue :
    (w : Writer)
    → IsWriter w
    → w.region.hdr.rec_tail < w.region.hdr.rec_head
    → free_all w.allocator (recycle_queue w.region)
      ≡ free_all (drain_one w).allocator (recycle_queue (drain_one w).region)
unfolding drain_one recycle_queue free_all
drain_one-queue w v lt =
    ap (free_all w.allocator) (
      window_pop zero_recycle w.region.recycle w.region.hdr.rec_capacity w.region.hdr.rec_head
        w.region.hdr.rec_tail lt)
    ∙ ap
        (λ t.
          free_all
            (free_by_id w.allocator
              (get_or w.region.recycle (w.region.hdr.rec_tail % w.region.hdr.rec_capacity)
                zero_recycle).buffer_id).0
            (window zero_recycle w.region.recycle w.region.hdr.rec_capacity t
              (w.region.hdr.rec_head - t)))
        no_wrap
  where
    no_wrap : w.region.hdr.rec_tail + 1 ≡ add_u64 w.region.hdr.rec_tail 1
    no_wrap = omega (arith, v.region_valid.recycle_ring, lt)

Drained-one :
    (w w' : Writer)
    → IsWriter w
    → w.region.hdr.rec_tail < w.region.hdr.rec_head
    → Drained (drain_one w) w'
    → Drained w w'
unfolding drain_one ready_queue
Drained-one w w' v lt m = record {
  valid = m.valid;
  freed = m.freed ∙ sym (drain_one-queue w v lt);
  returned = m.returned;
  queued = m.queued;
  same_arena = m.same_arena;
  same_capacity = m.same_capacity;
  head = m.head;
  tail = m.tail;
  same_align = m.same_align;
  returning = m.returning;
  ids = λ n some_id b. m.ids n some_id (free_by_id-IdsBelow n w.allocator _ b);
  used = m.used;
  same_bytes = m.same_bytes;
}

Drained-end :
    (w : Writer)
    → IsWriter w
    → w.region.hdr.rec_head ≡ w.region.hdr.rec_tail
    → Drained w (record w { region = store_used_bytes w.region w.allocator })
unfolding recycle_queue ready_queue free_all
Drained-end w v e = record {
  valid = record {
    region_valid = record {
      ready_ring = v.region_valid.ready_ring;
      recycle_ring = v.region_valid.recycle_ring;
    };
    arena_valid = v.arena_valid;
    fresh = v.fresh;
  };
  freed = ap (free_all w.allocator) (sym none_left);
  returned = none_left;
  queued = refl;
  same_arena = refl;
  same_capacity = refl;
  head = refl;
  tail = refl;
  same_align = refl;
  returning = (refl, refl);
  ids = λ n some_id b. b;
  used = refl;
  same_bytes = refl;
}
  where
    none_left : recycle_queue w.region ≡ []
    none_left =
        window_none zero_recycle w.region.recycle w.region.hdr.rec_capacity w.region.hdr.rec_head
          w.region.hdr.rec_tail e

drain_loop-Drained :
    (fuel : ℕ) (w : Writer)
    → IsWriter w
    → w.region.hdr.rec_head - w.region.hdr.rec_tail < fuel
    → (w' : Writer) × (drain_loop fuel w ≡ some w') × Drained w w'
unfolding drain_loop
drain_loop-Drained zero w v enough = elim enough [ ]
drain_loop-Drained (suc fuel) w v enough =
    elim (dec_lt w.region.hdr.rec_tail w.region.hdr.rec_head) [
      | yes lt ↦ rw (more lt) (
          after lt (
            drain_loop-Drained fuel (drain_one w) (drain_one-IsWriter w v lt)
              (unfold drain_one in omega (arith, lt, v.region_valid.recycle_ring))))
      | no ge ↦ rw (done ge) (_, refl, ended ge)
    ]
  where
    more :
        w.region.hdr.rec_tail < w.region.hdr.rec_head
        → (w.region.hdr.rec_head == w.region.hdr.rec_tail) ≡ false
    more lt = ground (arith, lt)

    done :
        ¬ (w.region.hdr.rec_tail < w.region.hdr.rec_head)
        → (w.region.hdr.rec_head == w.region.hdr.rec_tail) ≡ true
    done ge = ground (arith, ge, v.region_valid.recycle_ring)

    after :
        w.region.hdr.rec_tail < w.region.hdr.rec_head
        → ((w' : Writer) × (drain_loop fuel (drain_one w) ≡ some w') × Drained (drain_one w) w')
        → (w' : Writer) × (drain_loop fuel (drain_one w) ≡ some w') × Drained w w'
    after lt (w', e, m) = (w', e, Drained-one w w' v lt m)

    ended :
        ¬ (w.region.hdr.rec_tail < w.region.hdr.rec_head)
        → Drained w (record w { region = store_used_bytes w.region w.allocator })
    ended ge = Drained-end w v (omega (arith, ge, v.region_valid.recycle_ring))

-- `drain_recycles` of a well-formed writer ends. It frees the buffers of all entries that are queued
-- for return, oldest first, empties that queue, stores the new `used_bytes`, leaves the published
-- frames and the bytes of the arena as they are, and leaves the writer well formed.
pub drain_recycles_lem :
    (w : Writer) → IsWriter w → (w' : Writer) × (drain_recycles w ≡ some w') × Drained w w'
unfolding drain_recycles
drain_recycles_lem w v =
    drain_loop-Drained (suc (sub_u64 w.region.hdr.rec_head w.region.hdr.rec_tail)) w v
      (omega (arith, v.region_valid.recycle_ring))
