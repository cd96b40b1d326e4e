-- ===== src/Transport/Layout.antt =====
-- src/transport.rs: how the region is divided (`map_layout`), and the header that says so
-- (`init_header`, `validate_header`).
pub mod Sections
pub mod Handshake
use shm2_rs.Base.{
  ℕ, ◌-◌, Bool, true, false, List, [], ◌∷◌, Option, none, some, max, add_u64, mul_u64, checked_add,
  leb, ltb, ◌==◌, ◌&&◌, not, if◌then◌else◌,
}
use shm2_rs.Base.Text.{bytes_eq}
use shm2_rs.Allocator.{align_up}
use shm2_rs.Platform.{
  Result, ok, err, ShmError, Message, invalid_config, protocol, ◌>>=◌, ◌>>◌, ready_ring_overflow,
  recycle_ring_overflow, insufficient_total_size, magic_mismatch, major_version_mismatch,
  minor_version_mismatch, mapped_size_mismatch, ready_entry_size_mismatch,
  recycle_entry_size_mismatch,
}
use shm2_rs.Transport.Types.{
  magic_bytes, version_major, version_minor, state_init, state_running, startup_idle, header_pad,
  desc_align, size_of_header, size_of_ready_desc, size_of_recycle_desc, SharedHeader,
}

pub record Layout : Type 0 where
  pub ready_offset : ℕ
  pub recycle_offset : ℕ
  pub arena_offset : ℕ
  pub arena_size : ℕ

abbrev or_fail {ℓ} : {A : Type ℓ} → Option A → ShmError → Result A
or_fail none e = err e
or_fail (some a) e = ok a

abbrev check : Bool → ShmError → Result (Unit {0})
check true e = ok tt
check false e = err e

-- The offsets of the sections, without the pointers that the source casts them to.
pub map_layout : ℕ → ℕ → ℕ → Result Layout
map_layout total_size ready_capacity rec_capacity = do
  let header_size = max header_pad (align_up size_of_header 64)
  let ready_offset = align_up header_size desc_align
  let ready_size = mul_u64 ready_capacity size_of_ready_desc
  ready_end ← or_fail (checked_add ready_offset ready_size) (invalid_config ready_ring_overflow)
  let recycle_offset = align_up ready_end desc_align
  let recycle_size = mul_u64 rec_capacity size_of_recycle_desc
  recycle_end ←
      or_fail (checked_add recycle_offset recycle_size) (invalid_config recycle_ring_overflow)
  let arena_offset = align_up recycle_end 4096
  check (ltb arena_offset total_size) (invalid_config insufficient_total_size)
  ok (record {
    ready_offset = ready_offset;
    recycle_offset = recycle_offset;
    arena_offset = arena_offset;
    arena_size = total_size - arena_offset;
  })

pub bool_u32 : Bool → ℕ
bool_u32 true = 1
bool_u32 false = 0

-- The header after all stores of `init_header`, the last of which is `STATE_RUNNING`. `pid` is
-- `std::process::id()`.
unfoldable pub init_header :
    (pid total_size ready_capacity rec_capacity : ℕ) → Layout → Bool → SharedHeader
init_header pid total_size ready_capacity rec_capacity l drop = record {
  magic = magic_bytes;
  major = version_major;
  minor = version_minor;
  header_size = header_pad;
  total_size = total_size;
  features = 0;
  state = state_running;
  owner_pid = pid;
  epoch = 1;
  ready_capacity = ready_capacity;
  ready_entry_size = size_of_ready_desc;
  ready_head = 0;
  ready_tail = 0;
  rec_capacity = rec_capacity;
  rec_entry_size = size_of_recycle_desc;
  rec_head = 0;
  rec_tail = 0;
  ready_offset = l.ready_offset;
  recycle_offset = l.recycle_offset;
  arena_offset = l.arena_offset;
  arena_size = l.arena_size;
  arena_used_bytes = 0;
  arena_high_watermark = 0;
  alloc_failures = 0;
  drop_when_no_consumer = bool_u32 drop;
  notify_mode = 0;
  timeline_gen = 0;
  timeline_snapshot_gen = 0;
  timeline_valid = 0;
  timeline_seq = 0;
  timeline_sink_mono_ns = 0;
  timeline_producer_pts_ns = 0;
  timeline_ready_head = 0;
  startup_gen = 0;
  startup_state = startup_idle;
  startup_seq = 0;
}

unfoldable pub validate_header : SharedHeader → ℕ → Result (Unit {0})
validate_header hdr total_size = do
  check (bytes_eq hdr.magic magic_bytes) (protocol magic_mismatch)
  check (hdr.major == version_major) (protocol major_version_mismatch)
  check (hdr.minor == version_minor) (protocol minor_version_mismatch)
  check (hdr.total_size == total_size) (protocol mapped_size_mismatch)
  check (hdr.ready_entry_size == size_of_ready_desc) (protocol ready_entry_size_mismatch)
  check (hdr.rec_entry_size == size_of_recycle_desc) (protocol recycle_entry_size_mismatch)
  ok tt
