-- ===== src/Transport/Types.antt =====
-- src/transport.rs: the constants, descriptors, header, configuration and states of the transport.
-- Padding (`reserved`, `repr(C, align(64))`) holds no information and is left out. Atomics are plain
-- fields: an operation of the model is one run of the code between two points where the peer acts.
use shm2_rs.Base.{ℕ, ◌*◌, List, [], ◌∷◌, Bool, false}
use shm2_rs.Base.Int.{ℤ}
use shm2_rs.Allocator.{FreeListAllocator}

-- `b"GSTSHM2\0"`
abbrev pub magic_bytes : List ℕ
magic_bytes = b'G' ∷ b'S' ∷ b'T' ∷ b'S' ∷ b'H' ∷ b'M' ∷ b'2' ∷ 0 ∷ []

abbrev pub version_major : ℕ
version_major = 1

abbrev pub version_minor : ℕ
version_minor = 3

abbrev pub state_init : ℕ
state_init = 0

abbrev pub state_running : ℕ
state_running = 1

abbrev state_stopping : ℕ
state_stopping = 2

abbrev pub state_stopped : ℕ
state_stopped = 3

abbrev pub startup_idle : ℕ
startup_idle = 0

abbrev pub startup_sink_ready : ℕ
startup_sink_ready = 1

abbrev startup_src_ready : ℕ
startup_src_ready = 2

abbrev startup_running : ℕ
startup_running = 3

abbrev pub header_pad : ℕ
header_pad = 4096

abbrev pub desc_align : ℕ
desc_align = 64

-- `size_of::<SharedHeader>()` under `repr(C)`, and the two descriptor sizes that the unit test fixes.
abbrev pub size_of_header : ℕ
size_of_header = 240

abbrev pub size_of_ready_desc : ℕ
size_of_ready_desc = 64

abbrev pub size_of_recycle_desc : ℕ
size_of_recycle_desc = 64

pub record ReadyDesc : Type 0 where
  pub seq : ℕ
  pub offset : ℕ
  pub length : ℕ
  pub buffer_id : ℕ
  pub pts_ns : ℤ
  pub dts_ns : ℤ
  pub duration_ns : ℤ
  pub flags : ℕ
  pub checksum : ℕ

pub record RecycleDesc : Type 0 where
  pub seq : ℕ
  pub buffer_id : ℕ
  pub status : ℕ
  pub offset : ℕ
  pub length : ℕ

pub record SharedHeader : Type 0 where
  pub magic : List ℕ
  pub major : ℕ
  pub minor : ℕ
  pub header_size : ℕ
  pub total_size : ℕ
  pub features : ℕ
  pub state : ℕ
  pub owner_pid : ℕ
  pub epoch : ℕ
  pub ready_capacity : ℕ
  pub ready_entry_size : ℕ
  pub ready_head : ℕ
  pub ready_tail : ℕ
  pub rec_capacity : ℕ
  pub rec_entry_size : ℕ
  pub rec_head : ℕ
  pub rec_tail : ℕ
  pub ready_offset : ℕ
  pub recycle_offset : ℕ
  pub arena_offset : ℕ
  pub arena_size : ℕ
  pub arena_used_bytes : ℕ
  pub arena_high_watermark : ℕ
  pub alloc_failures : ℕ
  pub drop_when_no_consumer : ℕ
  pub notify_mode : ℕ
  pub timeline_gen : ℕ
  pub timeline_snapshot_gen : ℕ
  pub timeline_valid : ℕ
  pub timeline_seq : ℕ
  pub timeline_sink_mono_ns : ℕ
  pub timeline_producer_pts_ns : ℕ
  pub timeline_ready_head : ℕ
  pub startup_gen : ℕ
  pub startup_state : ℕ
  pub startup_seq : ℕ

pub record TransportConfig : Type 0 where
  pub total_size : ℕ
  pub ready_capacity : ℕ
  pub recycle_capacity : ℕ
  pub perms : ℕ
  pub drop_when_no_consumer : Bool
  pub allocator_align : ℕ
  pub timeline_beacon_ms : ℕ

abbrev pub default_config : TransportConfig
default_config = record {
  total_size = 64 * 1024 * 1024;
  ready_capacity = 4096;
  recycle_capacity = 4096;
  perms = 0o660;
  drop_when_no_consumer = false;
  allocator_align = 64;
  timeline_beacon_ms = 250;
}

-- The mapped region, which writer and reader share: header, rings, and the arena byte by byte.
pub record Region : Type 0 where
  pub hdr : SharedHeader
  pub ready : List ReadyDesc
  pub recycle : List RecycleDesc
  pub arena : ℕ → ℕ

-- `Writer`: what the producer keeps for itself, and the region that it refers to.
pub record Writer : Type 0 where
  pub region : Region
  pub allocator : FreeListAllocator
  pub allocator_align : ℕ
  pub timeline_beacon_ns : ℕ
  pub last_timeline_emit_ns : ℕ
  pub last_timeline_snapshot_gen : ℕ

pub record TimelineSnapshot : Type 0 where
  pub generation : ℕ
  pub snapshot_gen : ℕ
  pub valid : Bool
  pub seq : ℕ
  pub sink_mono_ns : ℕ
  pub producer_pts_ns : ℤ
  pub ready_head : ℕ

pub record StartupSnapshot : Type 0 where
  pub generation : ℕ
  pub state : ℕ
  pub seq : ℕ

pub record ReceivedDesc : Type 0 where
  pub seq : ℕ
  pub buffer_id : ℕ
  pub pts_ns : ℤ
  pub dts_ns : ℤ
  pub duration_ns : ℤ
  pub flags : ℕ
  pub offset : ℕ
  pub len : ℕ

pub record ReceivedBuffer : Type 0 where
  pub seq : ℕ
  pub buffer_id : ℕ
  pub pts_ns : ℤ
  pub dts_ns : ℤ
  pub duration_ns : ℤ
  pub flags : ℕ
  pub payload : List ℕ
  pub offset : ℕ

-- `ptr` is the address inside the arena, relative to its base.
pub record AllocLease : Type 0 where
  pub buffer_id : ℕ
  pub offset : ℕ
  pub len : ℕ
  pub ptr : ℕ
