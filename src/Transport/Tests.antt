-- ===== src/Transport/Tests.antt =====
-- src/transport.rs: the theorems at small regions.
use shm2_rs.Base.{
  ℕ, ◌+◌, ◌≡◌, refl, none, some, inl, List, [], ◌∷◌, true, if◌then◌else◌, ltb, arith,
}
use shm2_rs.Base.Int.{pos}
use shm2_rs.Platform.{Result, ok, err, invalid_config, insufficient_total_size}
use shm2_rs.Allocator.{find}
use shm2_rs.Allocator.Valid.{IsValid}
use shm2_rs.Transport.Types.{
  SharedHeader, ReadyDesc, Region, Writer, AllocLease, ReceivedBuffer, TransportConfig, magic_bytes,
  default_config,
}
use shm2_rs.Transport.Timeline.{Clock, timeline_snapshot, sync_startup_state}
use shm2_rs.Transport.Ring.{window}
use shm2_rs.Transport.Writer.{
  zero_ready, zero_recycle, ready_desc, alloc_lease, publish, try_publish_lease, drain_recycles,
}
use shm2_rs.Transport.Reader.{
  open_region, try_recycle_desc, recv_blocking, try_recv_desc, try_recv_latest_desc,
}
use shm2_rs.Transport.Queues.{IsRegion, ready_queue, recycle_queue}
use shm2_rs.Transport.Publish.{wait_for_room}
use shm2_rs.Transport.Receive.{Taken, take_next, try_recv_desc_lem}
use shm2_rs.Transport.Latest.{free_slots}
use shm2_rs.Transport.Live.{view, take_latest, behind}
use shm2_rs.Transport.Live.Newest.{try_recv_latest_desc_lem}
use shm2_rs.Transport.Lease.{IsWriter, Outcome}
use shm2_rs.Transport.Lease.Loop.{alloc_lease_lem}
use shm2_rs.Transport.Drain.{Drained, drain_recycles_lem}
use shm2_rs.Transport.Return.{recycled, drain_recycles-try_recycle_desc}
use shm2_rs.Transport.RoundTrip.{Delivered, publish_lem}
use shm2_rs.Transport.Deliver.{recv_blocking-publish}
use shm2_rs.Transport.Layout.Sections.{arena_start}
use shm2_rs.Base.Text.{codes}
use shm2_rs.Platform.Posix.{Libc}
use shm2_rs.Platform.Resolve.{OnOk}
use shm2_rs.Transport.Create.OnFile.{file_backend, create-open_region}
use shm2_rs.Transport.Create.{create}
use shm2_rs.Transport.Create.Opening.{Created, create_lem}
use shm2_rs.Transport.Attach.{attached, snapshot_of, attach-publish}

-- Rings of four slots and an arena of 128 bytes.
abbrev pub header : SharedHeader
header = record {
  magic = magic_bytes;
  major = 1;
  minor = 3;
  header_size = 4096;
  total_size = 8320;
  features = 0;
  state = 1;
  owner_pid = 7;
  epoch = 1;
  ready_capacity = 4;
  ready_entry_size = 64;
  ready_head = 0;
  ready_tail = 0;
  rec_capacity = 4;
  rec_entry_size = 64;
  rec_head = 0;
  rec_tail = 0;
  ready_offset = 4096;
  recycle_offset = 4352;
  arena_offset = 8192;
  arena_size = 128;
  arena_used_bytes = 0;
  arena_high_watermark = 0;
  alloc_failures = 0;
  drop_when_no_consumer = 0;
  notify_mode = 0;
  timeline_gen = 0;
  timeline_snapshot_gen = 0;
  timeline_valid = 0;
  timeline_seq = 0;
  timeline_sink_mono_ns = 0;
  timeline_producer_pts_ns = 0;
  timeline_ready_head = 0;
  startup_gen = 0;
  startup_state = 0;
  startup_seq = 0;
}

abbrev pub empty : Region
empty = record {
  hdr = header;
  ready = zero_ready ∷ zero_ready ∷ zero_ready ∷ zero_ready ∷ [];
  recycle = zero_recycle ∷ zero_recycle ∷ zero_recycle ∷ zero_recycle ∷ [];
  arena = λ x. 0;
}

abbrev pub writer : Writer
writer = record {
  region = empty;
  allocator = record { free = (0, 128) ∷ []; used = []; next_id = 1 };
  allocator_align = 16;
  timeline_beacon_ns = 250_000_000;
  last_timeline_emit_ns = 0;
  last_timeline_snapshot_gen = 0;
}

abbrev pub frame : ℕ → ℕ → ReadyDesc
frame id offset =
    ready_desc id (record { buffer_id = id; offset = offset; len = 32; ptr = offset }) (pos id)

-- Frames 2 to 5 are queued, one round of the ring after the start.
abbrev pub full : Region
full = record empty {
  hdr = record header { ready_head = 5; ready_tail = 1 };
  ready = frame 5 96 ∷ frame 2 0 ∷ frame 3 32 ∷ frame 4 64 ∷ [];
}

-- The writer of `full`: the arena has no byte left.
abbrev pub full_writer : Writer
full_writer = record writer {
  region = full;
  allocator = record {
    free = [];
    used = (5, (96, 32)) ∷ (4, (64, 32)) ∷ (3, (32, 32)) ∷ (2, (0, 32)) ∷ [];
    next_id = 6;
  };
}

-- Buffer 3 was given back.
abbrev returning_writer : Writer
returning_writer = record full_writer {
  region = record full {
    hdr = record header { ready_head = 5; ready_tail = 5; rec_head = 1 };
    recycle =
        record { seq = 1; buffer_id = 3; status = 0; offset = 32; length = 32 }
        ∷ zero_recycle
        ∷ zero_recycle
        ∷ zero_recycle
        ∷ [];
  };
}

abbrev pub clock : Clock
clock = record { due_now = 300_000_000; emit_now = 300_000_001 }

pub empty-IsRegion : IsRegion empty
empty-IsRegion = record { ready_ring = ground arith; recycle_ring = ground arith }

pub full-IsRegion : IsRegion full
full-IsRegion = record { ready_ring = ground arith; recycle_ring = ground arith }

writer-IsWriter : IsWriter writer
unfolding find
writer-IsWriter = record {
  region_valid = record { ready_ring = ground arith; recycle_ring = ground arith };
  arena_valid = record {
    tiles = λ x. ground arith;
    bytes = refl;
    free_in = omega arith;
    used_in = tt;
    keys = tt;
    small = omega arith;
  };
  fresh = refl;
}

full_arena : IsValid 128 full_writer.allocator
unfolding find
full_arena = record {
  tiles = λ x. ground arith;
  bytes = refl;
  free_in = tt;
  used_in = omega arith;
  keys = (refl, (refl, (refl, (refl, tt))));
  small = omega arith;
}

pub full_writer-IsWriter : IsWriter full_writer
unfolding find
full_writer-IsWriter = record {
  region_valid = record { ready_ring = ground arith; recycle_ring = ground arith };
  arena_valid = full_arena;
  fresh = refl;
}

returning_writer-IsWriter : IsWriter returning_writer
unfolding find
returning_writer-IsWriter = record {
  region_valid = record { ready_ring = ground arith; recycle_ring = ground arith };
  arena_valid = full_arena;
  fresh = refl;
}

nothing_queued : ready_queue writer.region ≡ []
unfolding ready_queue window
nothing_queued = refl

abbrev payload : List ℕ
payload = 10 ∷ 20 ∷ 30 ∷ []

recv_blocking-publish_example :
    (w' : Writer) × (id : ℕ) × (r : Region) × (buf : ReceivedBuffer) × (publish [] writer clock
        payload
        (pos 40)
      ≡ some (w', ok id))
    × (recv_blocking [] w'.region ≡ some (r, ok buf))
    × (buf.payload ≡ payload)
    × (buf.buffer_id ≡ id)
    × (buf.pts_ns ≡ pos 40)
    × (ready_queue r ≡ [])
recv_blocking-publish_example =
    recv_blocking-publish writer clock payload (pos 40) writer-IsWriter (omega arith) (omega arith)
      nothing_queued (omega arith) (omega arith) (omega arith)

publish_lem_example :
    (w' : Writer) × (id : ℕ) × (publish [] writer clock payload (pos 40) ≡ some (w', ok id))
    × Delivered writer payload (pos 40) w' id
publish_lem_example =
    publish_lem writer clock payload (pos 40) writer-IsWriter (omega arith) (omega arith)
      (omega arith) (omega arith) (omega arith)

alloc_lease_lem_example :
    (out : Writer × Result AllocLease) × (alloc_lease full_writer 60 16 ≡ some out)
    × Outcome full_writer 60 16 out
alloc_lease_lem_example =
    alloc_lease_lem full_writer 60 16 full_writer-IsWriter (omega arith) (omega arith)

drain_recycles_lem_example :
    (w' : Writer) × (drain_recycles returning_writer ≡ some w') × Drained returning_writer w'
drain_recycles_lem_example = drain_recycles_lem returning_writer returning_writer-IsWriter

try_recv_desc_lem_example :
    ◌≡◌ {A = Taken}
      (ready_queue (try_recv_desc full).0, (try_recv_desc full).1)
      (take_next 128 (ready_queue full))
try_recv_desc_lem_example = try_recv_desc_lem full full-IsRegion (omega arith)

try_recv_latest_desc_lem_example :
    view (try_recv_latest_desc full)
    ≡ behind (recycle_queue full) (take_latest 128 (free_slots full) 0 (ready_queue full))
try_recv_latest_desc_lem_example =
    try_recv_latest_desc_lem full full-IsRegion (omega arith) (omega arith)

-- What a reader does during a sleep of the writer: it takes two frames.
abbrev take_two : Region → Region
take_two r = record r { hdr = record r.hdr { ready_tail = r.hdr.ready_tail + 2 } }

abbrev drained : Region
drained = take_two full

abbrev pub lease_7 : AllocLease
lease_7 = record { buffer_id = 7; offset = 0; len = 16; ptr = 0 }

waited : wait_for_room (take_two ∷ []) full ≡ drained
unfolding wait_for_room
waited = refl

abbrev some_bytes : ℕ → ℕ → Result ℕ
some_bytes total_size perms = ok total_size

abbrev small_config : TransportConfig
small_config = record default_config { total_size = 8320; ready_capacity = 4; recycle_capacity = 4 }

create_lem_example :
    (w : Writer) × Created small_config 8320 w
    × (create some_bytes 7 small_config ≡ (
        if ltb (arena_start 4 4) 8320 then ok w else err (invalid_config insufficient_total_size)))
create_lem_example =
    create_lem some_bytes 7 8320 small_config refl (omega arith) (omega arith) (omega arith)
      (omega arith) (omega arith) (omega arith)

attach-publish_example :
    (ready_queue (sync_startup_state full) ≡ [])
    × (w' : Writer) × (try_publish_lease (attached full_writer) clock lease_7 (pos 9) ≡ some w')
    × (ready_queue w'.region ≡ ready_desc (5 + 1) lease_7 (pos 9) ∷ [])
    × (timeline_snapshot w'.region ≡ snapshot_of full_writer 300_000_001 (pos 9))
attach-publish_example =
    attach-publish full_writer clock lease_7 (pos 9) full-IsRegion refl (omega arith) (omega arith)

drain_recycles-try_recycle_desc_example :
    ((try_recycle_desc full 4 64 32 0).1 ≡ true)
    × (w' : Writer) × (drain_recycles (recycled full_writer 4 64 32 0) ≡ some w')
    × (find 4 w'.allocator.used ≡ none)
    × (recycle_queue w'.region ≡ [])
    × (ready_queue w'.region ≡ ready_queue full)
    × IsWriter w'
drain_recycles-try_recycle_desc_example =
    drain_recycles-try_recycle_desc full_writer 4 64 32 0 full_writer-IsWriter (omega arith)
      (omega arith)

-- A system with files in memory.
abbrev libc : Libc
libc = record {
  open_file = λ path flags perms. inl 5;
  ftruncate = λ fd size. none;
  fstat = λ fd truncated. elim truncated [ none ↦ inl (pos 0) | some n ↦ inl (pos n) ];
  mmap = λ fd len. inl 65_536;
}

create-open_region_example :
    OnOk
      (λ w. IsWriter w × (open_region w.region 67_108_864 ≡ ok w.region))
      (create (file_backend libc (codes "/dev/shm/frames")) 7 default_config)
create-open_region_example =
    create-open_region libc (codes "/dev/shm/frames") 7 default_config (λ fd set. refl)
      (omega arith) (omega arith) (omega arith) (omega arith) (omega arith) (omega arith)
