-- ===== src/Transport/Layout/Sections.antt =====
-- src/transport.rs: the sections that `map_layout` lays out.
use shm2_rs.Base.{ℕ, ◌+◌, ◌-◌, ◌*◌, ◌/◌, ◌%◌, ◌^◌, ◌≤◌, ◌<◌, ◌≡◌, ltb, if◌then◌else◌, arith}
use shm2_rs.Allocator.{align_up}
use shm2_rs.Platform.{ok, err, invalid_config, insufficient_total_size}
use shm2_rs.Transport.Layout.{Layout, map_layout}

-- A page for the header, 64 bytes for each descriptor, rounded up to a page.
abbrev pub arena_start : ℕ → ℕ → ℕ
arena_start ready_capacity rec_capacity =
    (4096 + 64 * ready_capacity + 64 * rec_capacity + 4095) / 4096 * 4096

-- For capacities of 32 bits no sum of `map_layout` overflows: it fails exactly if no byte is left for
-- the arena, and otherwise the header's page, the two rings and the arena follow one another.
pub map_layout_lem :
    (total_size ready_capacity rec_capacity : ℕ)
    → ready_capacity < 2 ^ 32
    → rec_capacity < 2 ^ 32
    → map_layout total_size ready_capacity rec_capacity ≡ (
        if ltb (arena_start ready_capacity rec_capacity) total_size
        then ok (record {
          ready_offset = 4096;
          recycle_offset = 4096 + 64 * ready_capacity;
          arena_offset = arena_start ready_capacity rec_capacity;
          arena_size = total_size - arena_start ready_capacity rec_capacity;
        })
        else err (invalid_config insufficient_total_size))
unfolding map_layout align_up
map_layout_lem total_size ready_capacity rec_capacity p q = ground arith

-- The sections of a layout are aligned, in order, disjoint and inside the region.
pub record Laid (total_size ready_capacity rec_capacity : ℕ) (l : Layout) : Type 0 where
  pub ready_aligned : l.ready_offset % 64 ≡ 0
  pub recycle_aligned : l.recycle_offset % 64 ≡ 0
  pub arena_aligned : l.arena_offset % 4096 ≡ 0
  pub header_before : 240 ≤ l.ready_offset
  pub ready_before : l.ready_offset + 64 * ready_capacity ≤ l.recycle_offset
  pub recycle_before : l.recycle_offset + 64 * rec_capacity ≤ l.arena_offset
  pub arena_last : l.arena_offset + l.arena_size ≡ total_size
  pub arena_some : 0 < l.arena_size

-- Whatever `map_layout` returns for capacities of 32 bits has the rings at multiples of 64 and the
-- arena at a multiple of a page, each section behind the end of the one before, and a non-empty arena
-- that ends with the region.
pub map_layout-Laid :
    (total_size ready_capacity rec_capacity : ℕ) (l : Layout)
    → ready_capacity < 2 ^ 32
    → rec_capacity < 2 ^ 32
    → map_layout total_size ready_capacity rec_capacity ≡ ok l
    → Laid total_size ready_capacity rec_capacity l
map_layout-Laid total_size ready_capacity rec_capacity l p q e =
    ground (arith, map_layout_lem total_size ready_capacity rec_capacity p q)
