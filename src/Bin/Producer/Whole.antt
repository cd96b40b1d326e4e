-- ===== src/Bin/Producer/Whole.antt =====
-- src/bin/shm2_producer.rs: a whole run on a mapping of the configured size.
use shm2_rs.Base.{
  ℕ, zero, suc, ◌+◌, ◌*◌, ◌≤◌, ◌≡◌, refl, ap, ap₂, ◌∙◌, List, [], ◌∷◌, ◌++◌, some, arith,
}
use shm2_rs.Base.Text.{Bytes}
use shm2_rs.Platform.{Result, ok}
use shm2_rs.Platform.Resolve.{BackendSelection, resolve_backend}
use shm2_rs.Transport.Types.{Region, Writer, state_stopped}
use shm2_rs.Transport.Timeline.{Clock}
use shm2_rs.Transport.Writer.{set_running, set_stopped}
use shm2_rs.Allocator.{new, find}
use shm2_rs.Allocator.Ids.{new-IdsBelow}
use shm2_rs.Allocator.Reserve.{biggest-new}
use shm2_rs.Transport.Queues.{ready_queue, recycle_queue}
use shm2_rs.Transport.Lease.{IsWriter}
use shm2_rs.Transport.Owners.Ledger.{count, present}
use shm2_rs.Transport.Owners.Books.{IsOwned, ready_tickets, recycle_tickets}
use shm2_rs.Transport.Channel.{frames}
use shm2_rs.Transport.Drain.{drain_recycles_lem}
use shm2_rs.Transport.Layout.{validate_header}
use shm2_rs.Transport.Create.{create}
use shm2_rs.Transport.Create.Opening.{Created, create_lem}
use shm2_rs.Bin.Args.{Host, target_of, path_of, count_of}
use shm2_rs.Bin.Producer.{Attempt, config, publish_frames, last_drains, finish, start, run}
use shm2_rs.Bin.Producer.Frames.{
  Steady, Drained-Steady, now, produced, queued_frames, publish_frames_lem,
}

-- A writer of 64 MiB whose rings and arena are unused.
pub record Idle (w : Writer) : Type 0 where
  pub valid : IsWriter w
  pub nothing_queued : ready_queue w.region ≡ []
  pub nothing_returned : recycle_queue w.region ≡ []
  pub unused : w.allocator ≡ new w.region.hdr.arena_size
  pub align : w.allocator_align ≡ 64
  pub arena : 4096 * 124 ≤ w.region.hdr.arena_size
  pub counters : (w.region.hdr.ready_head ≡ 0) × (w.region.hdr.ready_tail ≡ 0)
  pub capacity : w.region.hdr.ready_capacity ≡ 4096
  pub rec_counters : (w.region.hdr.rec_head ≡ 0) × (w.region.hdr.rec_capacity ≡ 4096)
  pub header : validate_header w.region.hdr (64 * 1024 * 1024) ≡ ok tt

-- `set_running` stores the state only.
running-Idle : (w : Writer) → Created config (64 * 1024 * 1024) w → Idle (set_running w)
unfolding set_running ready_queue recycle_queue validate_header
running-Idle w c = record {
  valid = record {
    region_valid = record {
      ready_ring = c.valid.region_valid.ready_ring;
      recycle_ring = c.valid.region_valid.recycle_ring;
    };
    arena_valid = c.valid.arena_valid;
    fresh = c.valid.fresh;
  };
  nothing_queued = c.nothing_queued;
  nothing_returned = c.nothing_returned;
  unused = c.unused;
  align = c.align;
  arena = omega (arith, c.arena_size);
  counters = c.counters;
  capacity = c.capacity;
  rec_counters = (c.rec_counters.0, c.rec_capacity);
  header = c.header;
}

Idle-IsOwned : (w : Writer) → Idle w → IsOwned w [] []
unfolding ready_tickets recycle_tickets count present find new
Idle-IsOwned w c = record {
  valid = c.valid;
  books =
      rw (c.nothing_queued, c.nothing_returned, c.unused)
        (record {
          one = λ j. refl;
          leased_live = tt;
          held_live = tt;
          queued_live = tt;
          returned_live = tt;
        });
}

pub Idle-Steady : (count : ℕ) (w : Writer) → Idle w → count ≤ 4096 → Steady 1 count w
Idle-Steady count w c small = record {
  owned = Idle-IsOwned w c;
  ids = rw c.unused (new-IdsBelow 1 w.region.hdr.arena_size (omega arith));
  some_id = omega arith;
  align = omega (arith, c.align);
  arena = omega (arith, c.arena);
  reserve = rw c.unused (omega (arith, biggest-new w.region.hdr.arena_size, c.arena, small));
  room = omega (arith, c.capacity, c.counters, small);
  far = omega (arith, c.counters, small);
  ids_far = omega (arith, small);
  nothing_returned = c.nothing_returned;
  rec_counters = c.rec_counters;
}

last_drains_lem :
    (rounds n : ℕ) (w : Writer)
    → Steady n 0 w
    → (w' : Writer) × (last_drains (λ j r. r) rounds w ≡ some w')
      × Steady n 0 w'
      × (queued_frames w' ≡ queued_frames w)
unfolding last_drains
last_drains_lem zero n w s = (w, refl, s, refl)
last_drains_lem (suc rounds) n w s =
    let (w1, e, m) = drain_recycles_lem w s.owned.valid in
    let (w', f, s', same) = last_drains_lem rounds n w1 (Drained-Steady n 0 w w1 e m s) in
    (w', rw (last_drains, e) f, s', same ∙ ap₂ frames m.same_bytes m.queued)

finish-ok :
    (sleeps : ℕ → Region → Region) (w w' : Writer)
    → last_drains sleeps 1000 w ≡ some w'
    → finish sleeps (w, ok tt) ≡ some (set_stopped w', ok tt)
unfolding finish
finish-ok sleeps w w' e = rw (finish, e) refl

start-ok :
    (host : Host) (backend : BackendSelection → ℕ → ℕ → Result ℕ) (pid : ℕ) (args : List Bytes)
    (selected : BackendSelection) (w : Writer)
    → resolve_backend (target_of host) (path_of host args) ≡ ok selected
    → create (backend selected) pid config ≡ ok w
    → start host backend pid args ≡ ok (set_running w)
unfolding start
start-ok host backend pid args selected w e f = rw (e, f) refl

run-ok :
    (attempts : ℕ → List Attempt) (sleeps : ℕ → Region → Region) (args : List Bytes)
    (made : Result Writer) (w w1 w2 : Writer)
    → made ≡ ok w
    → publish_frames attempts (count_of args) 0 w ≡ some (w1, ok tt)
    → finish sleeps (w1, ok tt) ≡ some (w2, ok tt)
    → run attempts sleeps args made ≡ some (some w2, ok tt)
unfolding run
run-ok attempts sleeps args made w w1 w2 e f g = rw (e, run, f, g) refl

-- What a writer that stopped leaves queued.
stopped-frames :
    (w : Writer)
    → (queued_frames (set_stopped w) ≡ queued_frames w)
      × ((set_stopped w).region.hdr.state ≡ state_stopped)
unfolding set_stopped ready_queue
stopped-frames w = (refl, refl)

pub Idle-frames : (w : Writer) → Idle w → queued_frames w ≡ []
unfolding frames
Idle-frames w c = ap (frames w.region.arena) c.nothing_queued

-- `start` of the program, where a backend is found and maps what is asked for.
pub start-Idle :
    (host : Host) (backend : BackendSelection → ℕ → ℕ → Result ℕ) (pid : ℕ) (args : List Bytes)
    (selected : BackendSelection)
    → resolve_backend (target_of host) (path_of host args) ≡ ok selected
    → backend selected (64 * 1024 * 1024) 0o660 ≡ ok (64 * 1024 * 1024)
    → (w : Writer) × (start host backend pid args ≡ ok w) × Idle w
start-Idle host backend pid args selected found mapped =
    let (w, c, e) =
      create_lem (backend selected) pid (64 * 1024 * 1024) config mapped (omega arith) (omega arith)
        (omega arith) (omega arith) (omega arith) (omega arith) in
    (set_running w, start-ok host backend pid args selected w found e, running-Idle w c)

-- Where a backend is found and maps the 64 MiB that are asked for, and no more frames are wanted than the
-- ring has slots, a run that nobody consumes ends without an error. No publication waits. Behind the
-- frames the program drains 1000 times, with a sleep after each, in which here nothing happens to the
-- region. The state is then `stopped`, and the queue holds all the frames of the run, in their order,
-- each with its bytes and its presentation time.
pub run_lem :
    (clocks : ℕ → Clock) (host : Host) (backend : BackendSelection → ℕ → ℕ → Result ℕ) (pid : ℕ)
    (args : List Bytes) (selected : BackendSelection)
    → resolve_backend (target_of host) (path_of host args) ≡ ok selected
    → backend selected (64 * 1024 * 1024) 0o660 ≡ ok (64 * 1024 * 1024)
    → count_of args ≤ 4096
    → (w : Writer) × (run (λ i. now (clocks i) ∷ []) (λ i r. r) args (start host backend pid args)
        ≡ some (some w, ok tt))
      × (w.region.hdr.state ≡ state_stopped)
      × (queued_frames w ≡ produced (count_of args) 0)
run_lem clocks host backend pid args selected found mapped small =
    let (w0, e, c) = start-Idle host backend pid args selected found mapped in
    let (w1, f, s, order) =
      publish_frames_lem clocks (count_of args) 0 1 w0 (Idle-Steady (count_of args) w0 c small) in
    let (w2, g, s2, same) = last_drains_lem 1000 (1 + count_of args) w1 s in
    (
      set_stopped w2,
      run-ok (λ i. now (clocks i) ∷ []) (λ i r. r) args (start host backend pid args) w0 w1
          (set_stopped w2) e f (finish-ok (λ i r. r) w1 w2 g),
      (stopped-frames w2).1,
      (stopped-frames w2).0
          ∙ same
          ∙ order
          ∙ ap (λ fs. fs ++ produced (count_of args) 0) (Idle-frames w0 c),
    )
