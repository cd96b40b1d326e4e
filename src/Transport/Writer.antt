-- ===== src/Transport/Writer.antt =====
-- src/transport.rs: `impl Writer`. An operation takes the writer with the region as it finds it, and
-- returns both as it leaves them. The clock's readings, and what the reader does to the region while
-- the writer sleeps, are arguments.
use shm2_rs.Base.{
  ℕ, zero, suc, ◌+◌, ◌%◌, ◌^◌, Bool, true, false, List, [], ◌∷◌, Option, none, some, add_u64,
  sub_u64, length, get_or, set, ltb, ◌==◌, if◌then◌else◌,
}
use shm2_rs.Base.Int.{ℤ, pos}
use shm2_rs.Allocator.{Allocation, FreeListAllocator, new, alloc, free_by_id, used_bytes}
use shm2_rs.Platform.{Result, ok, err, exhausted}
use shm2_rs.Transport.Timeline.{with_hdr, Clock, maybe_publish_timeline_snapshot}
use shm2_rs.Transport.Types.{
  state_running, state_stopped, ReadyDesc, RecycleDesc, Region, Writer, AllocLease,
}

-- What a slot that no index reaches would read as.
abbrev pub zero_ready : ReadyDesc
zero_ready = record {
  seq = 0;
  offset = 0;
  length = 0;
  buffer_id = 0;
  pts_ns = pos 0;
  dts_ns = pos 0;
  duration_ns = pos 0;
  flags = 0;
  checksum = 0;
}

abbrev pub zero_recycle : RecycleDesc
zero_recycle = record { seq = 0; buffer_id = 0; status = 0; offset = 0; length = 0 }

abbrev pub store_used_bytes : Region → FreeListAllocator → Region
store_used_bytes r a = with_hdr r (record r.hdr { arena_used_bytes = used_bytes a })

unfoldable pub free_lease : Writer → ℕ → Writer × Bool
free_lease w buffer_id =
    let (a, freed) = free_by_id w.allocator buffer_id in
    (record w { allocator = a; region = store_used_bytes w.region a }, freed)

unfoldable pub drop_oldest_ready : Writer → Writer × Bool
drop_oldest_ready w =
    let hdr = w.region.hdr in
    let desc = get_or w.region.ready (hdr.ready_tail % hdr.ready_capacity) zero_ready in
    let a = (free_by_id w.allocator desc.buffer_id).0 in
    if hdr.ready_head == hdr.ready_tail then (w, false) else (
      record w {
        allocator = a;
        region =
            with_hdr w.region (record hdr {
              ready_tail = add_u64 hdr.ready_tail 1;
              arena_used_bytes = used_bytes a;
            });
      },
      true,
    )

unfoldable pub reset_allocator_state : Writer → Writer
reset_allocator_state w = record w {
  allocator = new w.region.hdr.arena_size;
  region = with_hdr w.region (record w.region.hdr {
    ready_head = 0;
    ready_tail = 0;
    rec_head = 0;
    rec_tail = 0;
    arena_used_bytes = 0;
    arena_high_watermark = 0;
    alloc_failures = 0;
    timeline_gen = add_u64 w.region.hdr.timeline_gen 1;
    timeline_valid = 0;
  });
}

abbrev pub lease_of : Allocation → AllocLease
lease_of a = record { buffer_id = a.buffer_id; offset = a.offset; len = a.len; ptr = a.offset }

-- The attempt after the reset.
unfoldable pub retry_after_reset :
    Writer → Option (Allocation × FreeListAllocator) → Writer × Result AllocLease
retry_after_reset w (some (al, a)) = (record w { allocator = a }, ok (lease_of al))
retry_after_reset w none = (
  record w {
    region =
        with_hdr w.region
          (record w.region.hdr { alloc_failures = add_u64 w.region.hdr.alloc_failures 1 });
  },
  err exhausted,
)

-- The loop of `alloc_lease`, on fuel; `none` means that the fuel ran out.
unfoldable pub alloc_loop : ℕ → Writer → ℕ → ℕ → Option (Writer × Result AllocLease)
alloc_loop zero w size align = none
alloc_loop (suc fuel) w size align = elim (alloc w.allocator size align) [
  | some (al, a) ↦ some (record w { allocator = a }, ok (lease_of al))
  | none ↦
      let again = alloc_loop fuel (drop_oldest_ready w).0 size align in
      let reset = reset_allocator_state w in
      if (drop_oldest_ready w).1
      then again
      else some (retry_after_reset reset (alloc reset.allocator size align))
]

-- Each round but the last drops a queued frame, so a round more than there are frames is enough.
unfoldable pub alloc_lease : Writer → ℕ → ℕ → Option (Writer × Result AllocLease)
alloc_lease w size align =
    alloc_loop (suc (sub_u64 w.region.hdr.ready_head w.region.hdr.ready_tail)) w size align

-- The writer alone stores the watermark, so a `compare_exchange_weak` that fails does so spuriously
-- and is repeated with the value that it was tried with.
unfoldable pub update_usage_metrics : Writer → Writer
update_usage_metrics w =
    let used = used_bytes w.allocator in
    let prev_hw = w.region.hdr.arena_high_watermark in
    record w {
      region = with_hdr w.region (record w.region.hdr {
        arena_used_bytes = used;
        arena_high_watermark = if ltb prev_hw used then used else prev_hw;
      });
    }

abbrev pub ready_desc : ℕ → AllocLease → ℤ → ReadyDesc
ready_desc seq lease pts_ns = record {
  seq = seq;
  offset = lease.offset;
  length = lease.len;
  buffer_id = lease.buffer_id;
  pts_ns = pts_ns;
  dts_ns = pts_ns;
  duration_ns = pos 0;
  flags = 0;
  checksum = 0;
}

-- The descriptor stored, and the head moved on.
unfoldable pub push_ready : Region → AllocLease → ℤ → Region
push_ready r lease pts_ns = record r {
  ready =
      set r.ready (r.hdr.ready_head % r.hdr.ready_capacity)
        (ready_desc (add_u64 r.hdr.ready_head 1) lease pts_ns);
  hdr = record r.hdr { ready_head = add_u64 r.hdr.ready_head 1 };
}

-- A round of `publish_lease`; `none` is a full ring.
unfoldable pub try_publish_lease : Writer → Clock → AllocLease → ℤ → Option Writer
try_publish_lease w clock lease pts_ns =
    let hdr = w.region.hdr in
    if ltb (sub_u64 hdr.ready_head hdr.ready_tail) hdr.ready_capacity
    then some (
        maybe_publish_timeline_snapshot
          (update_usage_metrics (record w { region = push_ready w.region lease pts_ns })) clock
          pts_ns (add_u64 hdr.ready_head 1))
    else none

-- `peer` lists what the reader does to the region during each sleep. `none` means that the ring is
-- still full after all of them. An `Err` is not among the results of the source's loop.
unfoldable pub publish_lease :
    List (Region → Region) → Writer → Clock → AllocLease → ℤ → Option Writer
publish_lease [] w clock lease pts_ns = try_publish_lease w clock lease pts_ns
publish_lease (act ∷ peer) w clock lease pts_ns = elim (try_publish_lease w clock lease pts_ns) [
  | some w' ↦ some w'
  | none ↦ publish_lease peer (record w { region = act w.region }) clock lease pts_ns
]

-- `std::ptr::copy` of the payload to an address of the arena.
unfoldable pub copy_to : (ℕ → ℕ) → ℕ → List ℕ → ℕ → ℕ
copy_to arena ptr [] x = arena x
copy_to arena ptr (b ∷ bs) x =
    let later = copy_to arena (ptr + 1) bs x in if x == ptr then b else later

unfoldable pub publish_into :
    List (Region → Region)
    → Clock
    → List ℕ
    → ℤ
    → Writer × Result AllocLease
    → Option (Writer × Result ℕ)
publish_into peer clock payload pts_ns (w, err e) = some (w, err e)
publish_into peer clock payload pts_ns (w, ok lease) =
    elim (publish_lease peer
      (record w { region = record w.region { arena = copy_to w.region.arena lease.ptr payload } })
      clock lease pts_ns) [ some w' ↦ some (w', ok lease.buffer_id) | none ↦ none ]

-- The length is cut to `u32` for the allocation, and the whole payload is copied.
unfoldable pub publish :
    List (Region → Region) → Writer → Clock → List ℕ → ℤ → Option (Writer × Result ℕ)
publish peer w clock payload pts_ns =
    elim (alloc_lease w (length payload % 2 ^ 32) w.allocator_align) [
      | some r ↦ publish_into peer clock payload pts_ns r
      | none ↦ none
    ]

-- One returned buffer taken off the recycle ring.
unfoldable pub drain_one : Writer → Writer
drain_one w =
    let hdr = w.region.hdr in
    let rec = get_or w.region.recycle (hdr.rec_tail % hdr.rec_capacity) zero_recycle in
    record w {
      allocator = (free_by_id w.allocator rec.buffer_id).0;
      region = with_hdr w.region (record hdr { rec_tail = add_u64 hdr.rec_tail 1 });
    }

unfoldable pub drain_loop : ℕ → Writer → Option Writer
drain_loop zero w = none
drain_loop (suc fuel) w =
    let more = drain_loop fuel (drain_one w) in
    if w.region.hdr.rec_head == w.region.hdr.rec_tail
    then some (record w { region = store_used_bytes w.region w.allocator })
    else more

unfoldable pub drain_recycles : Writer → Option Writer
drain_recycles w = drain_loop (suc (sub_u64 w.region.hdr.rec_head w.region.hdr.rec_tail)) w

unfoldable pub set_running : Writer → Writer
set_running w = record w {
  region = with_hdr w.region (record w.region.hdr { state = state_running });
}

unfoldable pub set_stopped : Writer → Writer
set_stopped w = record w {
  region = with_hdr w.region (record w.region.hdr { state = state_stopped });
}
