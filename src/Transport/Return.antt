-- ===== src/Transport/Return.antt =====
-- src/transport.rs: a buffer that the reader recycles, up to its memory in the writer's allocator.
use shm2_rs.Base.{
  ℕ, ◌+◌, ◌-◌, ◌^◌, ◌<◌, ◌≡◌, refl, ap, ◌∙◌, true, false, List, [], ◌∷◌, ◌++◌, none, some, leb,
  sub_u64, arith,
}
use shm2_rs.Allocator.{FreeListAllocator, find, free_by_id}
use shm2_rs.Allocator.Free.{free_by_id-gone}
use shm2_rs.Transport.Types.{RecycleDesc, Writer}
use shm2_rs.Transport.Writer.{drain_recycles}
use shm2_rs.Transport.Reader.{push_recycle, try_recycle_desc}
use shm2_rs.Transport.Queues.{
  ready_queue, recycle_queue, recycle_queue-push_recycle, push_recycle-IsRegion,
}
use shm2_rs.Transport.Lease.{IsWriter}
use shm2_rs.Transport.Drain.{free_all, drain_recycles_lem}

-- The last buffer freed is not live afterwards.
free_all-last :
    (a : FreeListAllocator) (returned : List RecycleDesc) (d : RecycleDesc)
    → find d.buffer_id (free_all a (returned ++ d ∷ [])).used ≡ none
unfolding free_all
free_all-last a [] d = free_by_id-gone a d.buffer_id
free_all-last a (e ∷ returned) d = free_all-last (free_by_id a e.buffer_id).0 returned d

abbrev pub recycled : Writer → (buffer_id offset len status : ℕ) → Writer
recycled w buffer_id offset len status = record w {
  region = (try_recycle_desc w.region buffer_id offset len status).0;
}

recycled-push :
    (w : Writer) (buffer_id offset len status : ℕ)
    → IsWriter w
    → w.region.hdr.rec_head - w.region.hdr.rec_tail < w.region.hdr.rec_capacity
    → try_recycle_desc w.region buffer_id offset len status
      ≡ (push_recycle w.region buffer_id offset len status, true)
unfolding try_recycle_desc
recycled-push w buffer_id offset len status v room = rw not_full refl
  where
    not_full :
        leb w.region.hdr.rec_capacity (sub_u64 w.region.hdr.rec_head w.region.hdr.rec_tail) ≡ false
    not_full = ground (arith, v.region_valid.recycle_ring, room)

pushed-IsWriter :
    (w : Writer) (buffer_id offset len status : ℕ)
    → IsWriter w
    → w.region.hdr.rec_head - w.region.hdr.rec_tail < w.region.hdr.rec_capacity
    → w.region.hdr.rec_head + 1 < 2 ^ 63
    → IsWriter (record w { region = push_recycle w.region buffer_id offset len status })
unfolding push_recycle
pushed-IsWriter w buffer_id offset len status v room far = record {
  region_valid = record {
    ready_ring = v.region_valid.ready_ring;
    recycle_ring =
        (push_recycle-IsRegion w.region v.region_valid buffer_id offset len status room
          far).recycle_ring;
  };
  arena_valid = v.arena_valid;
  fresh = v.fresh;
}

-- A buffer that is recycled while the ring of a well-formed writer has room is freed by the next
-- drain: its id is then no longer live, the return queue is empty, the published frames are as they
-- were, and the writer is well formed.
pub drain_recycles-try_recycle_desc :
    (w : Writer) (buffer_id offset len status : ℕ)
    → IsWriter w
    → w.region.hdr.rec_head - w.region.hdr.rec_tail < w.region.hdr.rec_capacity
    → w.region.hdr.rec_head + 1 < 2 ^ 63
    → ((try_recycle_desc w.region buffer_id offset len status).1 ≡ true)
      × (w' : Writer) × (drain_recycles (recycled w buffer_id offset len status) ≡ some w')
      × (find buffer_id w'.allocator.used ≡ none)
      × (recycle_queue w'.region ≡ [])
      × (ready_queue w'.region ≡ ready_queue w.region)
      × IsWriter w'
unfolding push_recycle ready_queue
drain_recycles-try_recycle_desc w buffer_id offset len status v room far =
    let pushed = record w { region = push_recycle w.region buffer_id offset len status } in
    let (w', e, m) =
      drain_recycles_lem pushed (pushed-IsWriter w buffer_id offset len status v room far) in
    rw (recycled-push w buffer_id offset len status v room) (
      refl,
      w',
      e,
      ap (λ a. find buffer_id a.used)
            (m.freed
              ∙ ap (free_all w.allocator) (
                  recycle_queue-push_recycle w.region v.region_valid buffer_id offset len status
                    room))
          ∙ free_all-last w.allocator (recycle_queue w.region) _,
      m.returned,
      m.queued,
      m.valid,
    )
