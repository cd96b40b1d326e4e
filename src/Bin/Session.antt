-- ===== src/Bin/Session.antt =====
-- src/bin/shm2_producer.rs, src/bin/shm2_consumer.rs: the two programs on one region.
use shm2_rs.Base.{
  ℕ, zero, suc, ◌+◌, ◌*◌, ◌≤◌, ◌≡◌, refl, ap, ap₂, sym, ◌∙◌, List, [], ◌∷◌, ◌++◌, map, some, length,
  All, arith,
}
use mathlib.Core.List.{append-nil}
use mathlib.Core.Path.{subst}
use shm2_rs.Base.Text.{Bytes}
use shm2_rs.Allocator.{find}
use shm2_rs.Allocator.Valid.{find-All}
use shm2_rs.Platform.{Result, ok}
use shm2_rs.Platform.Resolve.{BackendSelection, resolve_backend}
use shm2_rs.Transport.Types.{ReadyDesc, Region, Writer, ReceivedBuffer}
use shm2_rs.Transport.Timeline.{Clock, sync_startup_state}
use shm2_rs.Transport.Layout.{validate_header}
use shm2_rs.Transport.Reader.{open_region}
use shm2_rs.Transport.Queues.{ready_queue, recycle_queue}
use shm2_rs.Transport.Deliver.{buffer_in}
use shm2_rs.Transport.Receive.{window_none}
use shm2_rs.Transport.Lease.{IsWriter}
use shm2_rs.Transport.Owners.Ledger.{IsOf}
use shm2_rs.Transport.Owners.Books.{ready_tickets}
use shm2_rs.Transport.Channel.{Frame, frames}
use shm2_rs.Transport.Channel.Steps.{length-frames}
use shm2_rs.Bin.Args.{Host, target_of, path_of, count_of}
use shm2_rs.Bin.Producer.{start, publish_frames}
use shm2_rs.Bin.Producer.Frames.{now, Steady, produced, queued_frames, publish_frames_lem}
use shm2_rs.Bin.Producer.Whole.{Idle, Idle-Steady, Idle-frames, start-Idle}
use shm2_rs.Bin.Consumer.{open_loop, consume}
use shm2_rs.Bin.Consumer.Order.{at_once, InArena, Roomy, returned_ids, consume_lem}

-- The region as a consumer leaves it that attaches.
abbrev pub attached : Writer → Writer
attached w = record w { region = sync_startup_state w.region }

attached-Idle : (w : Writer) → Idle w → Idle (attached w)
unfolding sync_startup_state ready_queue recycle_queue validate_header
attached-Idle w c = record {
  valid = record {
    region_valid = record {
      ready_ring = ground (arith, c.valid.region_valid.ready_ring);
      recycle_ring = c.valid.region_valid.recycle_ring;
    };
    arena_valid = c.valid.arena_valid;
    fresh = c.valid.fresh;
  };
  nothing_queued =
      window_none _ w.region.ready w.region.hdr.ready_capacity w.region.hdr.ready_head
        w.region.hdr.ready_head refl;
  nothing_returned = c.nothing_returned;
  unused = c.unused;
  align = c.align;
  arena = c.arena;
  counters = (c.counters.0, c.counters.0);
  capacity = c.capacity;
  rec_counters = c.rec_counters;
  header = c.header;
}

-- A consumer opens the region of a producer that has started, at its first attempt.
open_loop-attached :
    (w : Writer)
    → Idle w
    → open_loop (ok (w.region, 64 * 1024 * 1024) ∷ []) ≡ some (sync_startup_state w.region)
unfolding open_region open_loop
open_loop-attached w c = rw (open_loop, c.header) refl

-- What a program sees of a buffer that it received.
abbrev pub shown : ReceivedBuffer → Frame
shown buf = (buf.payload, buf.pts_ns)

shown-buffer_in :
    (arena : ℕ → ℕ) (queue : List ReadyDesc)
    → map shown (map (buffer_in arena) queue) ≡ frames arena queue
unfolding frames
shown-buffer_in arena [] = refl
shown-buffer_in arena (d ∷ queue) =
    ap (λ fs. shown (buffer_in arena d) ∷ fs) (shown-buffer_in arena queue)

ids-buffer_in :
    (arena : ℕ → ℕ) (queue : List ReadyDesc)
    → map (λ b. b.buffer_id) (map (buffer_in arena) queue) ≡ map (λ d. d.buffer_id) queue
ids-buffer_in arena [] = refl
ids-buffer_in arena (d ∷ queue) = ap (λ ids. d.buffer_id ∷ ids) (ids-buffer_in arena queue)

live-InArena :
    (w : Writer) (queue : List ReadyDesc)
    → IsWriter w
    → All (IsOf (λ j. find j w.allocator.used)) (ready_tickets queue)
    → All (InArena w.region.hdr.arena_size) queue
unfolding ready_tickets
live-InArena w [] v lives = tt
live-InArena w (d ∷ queue) v (live, lives) = (
  find-All w.region.hdr.arena_size d.buffer_id w.allocator.used v.arena_valid.used_in live,
  live-InArena w queue v lives,
)

length-produced : (count i : ℕ) → length (produced count i) ≡ count
length-produced zero i = refl
length-produced (suc count) i = ap suc (length-produced count (i + 1))

Steady-Roomy : (n count : ℕ) (w : Writer) → Steady n 0 w → count ≤ 4096 → Roomy count w.region
Steady-Roomy n count w s small = record {
  valid = s.owned.valid.region_valid;
  small = omega (arith, s.owned.valid.arena_valid.small);
  room = omega (arith, s.rec_counters, small);
  far = omega (arith, s.rec_counters, small);
}

-- All that is queued, consumed.
consume-all :
    (n count : ℕ) (w : Writer)
    → Steady n 0 w
    → count ≤ 4096
    → queued_frames w ≡ produced count 0
    → (r' : Region) × (bufs : List ReceivedBuffer) × (consume at_once count 0 w.region
        ≡ some (r', bufs, ok tt))
      × (map shown bufs ≡ produced count 0)
      × (ready_queue r' ≡ [])
      × (returned_ids r' ≡ map (λ b. b.buffer_id) bufs)
consume-all n count w s small all =
    let (r', run, v, left, ids) =
      consume_lem (ready_queue w.region) [] w.region
        (subst (λ k. Roomy k w.region) (sym many) (Steady-Roomy n count w s small))
        (sym (append-nil (ready_queue w.region)))
        (live-InArena w (ready_queue w.region) s.owned.valid s.owned.books.queued_live) in
    (
      r',
      map (buffer_in w.region.arena) (ready_queue w.region),
      subst
          (λ k.
            consume at_once k 0 w.region
            ≡ some (r', map (buffer_in w.region.arena) (ready_queue w.region), ok tt))
          many run,
      shown-buffer_in w.region.arena (ready_queue w.region) ∙ all,
      left,
      ids
          ∙ ap₂ (λ q l. map (λ d. d.buffer_id) q ++ l) s.nothing_returned
              (sym (ids-buffer_in w.region.arena (ready_queue w.region))),
    )
  where
    many : length (ready_queue w.region) ≡ count
    many =
        sym (length-frames w.region.arena (ready_queue w.region))
        ∙ ap length all
        ∙ length-produced count 0

-- Where a backend is found and maps the 64 MiB that are asked for, a consumer that attaches to the producer's
-- region before the first frame, and that wants as many frames as the producer publishes, at most as many
-- as the ring has slots, opens the region at once. The producer publishes its frames without a wait, and
-- the consumer then receives without a wait exactly these frames, in their order, each with its bytes and
-- its presentation time. Nothing is queued then, and the buffers of
-- these frames, and no others, wait to be freed.
pub session_lem :
    (clocks : ℕ → Clock) (host : Host) (backend : BackendSelection → ℕ → ℕ → Result ℕ) (pid : ℕ)
    (args : List Bytes) (selected : BackendSelection)
    → resolve_backend (target_of host) (path_of host args) ≡ ok selected
    → backend selected (64 * 1024 * 1024) 0o660 ≡ ok (64 * 1024 * 1024)
    → count_of args ≤ 4096
    → (w : Writer) × (start host backend pid args ≡ ok w)
      × (r : Region) × (open_loop (ok (w.region, 64 * 1024 * 1024) ∷ []) ≡ some r)
      × (w' : Writer) × (publish_frames
            (λ i. now (clocks i) ∷ [])
            (count_of args)
            0
            (record w { region = r })
          ≡ some (w', ok tt))
      × (r' : Region) × (bufs : List ReceivedBuffer) × (consume at_once (count_of args) 0 w'.region
          ≡ some (r', bufs, ok tt))
      × (map shown bufs ≡ produced (count_of args) 0)
      × (ready_queue r' ≡ [])
      × (returned_ids r' ≡ map (λ b. b.buffer_id) bufs)
session_lem clocks host backend pid args selected found mapped small =
    let (w, e, c) = start-Idle host backend pid args selected found mapped in
    let (w', f, s, order) =
      publish_frames_lem clocks (count_of args) 0 1 (attached w)
        (Idle-Steady (count_of args) (attached w) (attached-Idle w c) small) in
    let all =
      order
      ∙ ap (λ fs. fs ++ produced (count_of args) 0)
          (Idle-frames (attached w) (attached-Idle w c)) in
    let (r', bufs, run, same, left, ids) =
      consume-all (1 + count_of args) (count_of args) w' s small all in
    (
      w,
      e,
      sync_startup_state w.region,
      open_loop-attached w c,
      w',
      f,
      r',
      bufs,
      run,
      same,
      left,
      ids,
    )
