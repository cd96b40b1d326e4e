-- ===== src/Transport/Create/Opening.antt =====
-- src/transport.rs: what `Writer::create` sets up, and that `Reader::open` accepts it.
use shm2_rs.Base.{
  ℕ, zero, suc, ◌+◌, ◌*◌, ◌-◌, ◌^◌, ◌≤◌, ◌<◌, ◌≡◌, refl, ap, false, ◌||◌, ltb, ◌==◌, if◌then◌else◌,
  [], Bool-cases, inl, inr, length, arith,
}
use shm2_rs.Allocator.{new, find}
use shm2_rs.Allocator.Free.{new-IsValid}
use shm2_rs.Allocator.Ids.{IdsBelow, new-IdsBelow}
use shm2_rs.Platform.{
  Result, ok, err, protocol, mapped_size_mismatch, insufficient_total_size, invalid_config,
}
use shm2_rs.Transport.Types.{TransportConfig, Writer}
use shm2_rs.Transport.Layout.{Layout, init_header, validate_header}
use shm2_rs.Base.Text.{bytes_eq}
use shm2_rs.Transport.Layout.Sections.{arena_start, map_layout_lem}
use shm2_rs.Transport.Writer.{zero_ready, zero_recycle}
use shm2_rs.Transport.Ring.{window}
use shm2_rs.Transport.Reader.{open_region}
use shm2_rs.Transport.Queues.{IsRegion, ready_queue, recycle_queue}
use shm2_rs.Transport.Lease.{IsWriter}
use shm2_rs.Transport.Create.{replicate, fresh_region, made, create}

length-replicate {ℓ} : {A : Type ℓ} (n : ℕ) (a : A) → length (replicate n a) ≡ n
length-replicate zero a = refl
length-replicate (suc n) a = ap suc (length-replicate n a)

-- A writer as `create` leaves it, for a mapping of `len` bytes.
pub record Created (cfg : TransportConfig) (len : ℕ) (w : Writer) : Type 0 where
  pub valid : IsWriter w
  pub nothing_queued : ready_queue w.region ≡ []
  pub nothing_returned : recycle_queue w.region ≡ []
  pub arena_size :
      w.region.hdr.arena_size ≡ len - arena_start cfg.ready_capacity cfg.recycle_capacity
  pub align : w.allocator_align ≡ cfg.allocator_align
  pub ids : IdsBelow 1 w.allocator
  pub capacity : w.region.hdr.ready_capacity ≡ cfg.ready_capacity
  pub counters : (w.region.hdr.ready_head ≡ 0) × (w.region.hdr.ready_tail ≡ 0)
  pub rec_counters : (w.region.hdr.rec_head ≡ 0) × (w.region.hdr.rec_tail ≡ 0)
  pub rec_capacity : w.region.hdr.rec_capacity ≡ cfg.recycle_capacity
  pub unused : w.allocator ≡ new w.region.hdr.arena_size
  pub beacon : 1_000_000 ≤ w.timeline_beacon_ns
  pub header :
      validate_header w.region.hdr len
      ≡ (if cfg.total_size == len then ok tt else err (protocol mapped_size_mismatch))
  pub opens :
      open_region w.region len
      ≡ (if cfg.total_size == len then ok w.region else err (protocol mapped_size_mismatch))

module _ (backend : ℕ → ℕ → Result ℕ) (pid len : ℕ) (cfg : TransportConfig)
    (mapped : backend cfg.total_size cfg.perms ≡ ok len) (ready_u32 : cfg.ready_capacity < 2 ^ 32)
    (recycle_u32 : cfg.recycle_capacity < 2 ^ 32) (beacon_u32 : cfg.timeline_beacon_ms < 2 ^ 32)
    (small : len ≤ 2 ^ 63) where
  abbrev laid : Layout
  laid = record {
    ready_offset = 4096;
    recycle_offset = 4096 + 64 * cfg.ready_capacity;
    arena_offset = arena_start cfg.ready_capacity cfg.recycle_capacity;
    arena_size = len - arena_start cfg.ready_capacity cfg.recycle_capacity;
  }

  module _ (ready_some : 0 < cfg.ready_capacity) (recycle_some : 0 < cfg.recycle_capacity) where
    made-IsRegion : IsRegion (fresh_region pid cfg laid)
    unfolding fresh_region init_header
    made-IsRegion = record {
      ready_ring = ground (arith, length-replicate cfg.ready_capacity zero_ready);
      recycle_ring = ground (arith, length-replicate cfg.recycle_capacity zero_recycle);
    }

    made-opens : open_region (fresh_region pid cfg laid) len ≡ (
        if cfg.total_size == len
        then ok (fresh_region pid cfg laid)
        else err (protocol mapped_size_mismatch))
    unfolding open_region validate_header fresh_region init_header bytes_eq
    made-opens = elim (Bool-cases (cfg.total_size == len)) [ inl e ↦ rw e refl | inr e ↦ rw e refl ]

    made-header :
        validate_header (fresh_region pid cfg laid).hdr len
        ≡ (if cfg.total_size == len then ok tt else err (protocol mapped_size_mismatch))
    unfolding validate_header fresh_region init_header bytes_eq
    made-header = elim (Bool-cases (cfg.total_size == len)) [
      | inl e ↦ rw e refl
      | inr e ↦ rw e refl
    ]

    made-Created : Created cfg len (made pid cfg laid)
    unfolding made ready_queue recycle_queue window fresh_region init_header new find
    made-Created = record {
      valid = record {
        region_valid = record {
          ready_ring = made-IsRegion.ready_ring;
          recycle_ring = made-IsRegion.recycle_ring;
        };
        arena_valid =
            unfold new in
            new-IsValid (len - arena_start cfg.ready_capacity cfg.recycle_capacity)
              (omega (arith, small));
        fresh = refl;
      };
      nothing_queued = refl;
      nothing_returned = refl;
      arena_size = refl;
      align = refl;
      ids =
          unfold new in
          new-IdsBelow 1 (len - arena_start cfg.ready_capacity cfg.recycle_capacity) (omega arith);
      capacity = refl;
      counters = (refl, refl);
      rec_counters = (refl, refl);
      rec_capacity = refl;
      unused = refl;
      beacon = omega (arith, beacon_u32);
      header = made-header;
      opens = made-opens;
    }

    create-step : create backend pid cfg ≡ (
        if ltb (arena_start cfg.ready_capacity cfg.recycle_capacity) len
        then ok (made pid cfg laid)
        else err (invalid_config insufficient_total_size))
    unfolding create
    create-step =
        rw
          (
            no_zero,
            mapped,
            map_layout_lem len cfg.ready_capacity cfg.recycle_capacity ready_u32 recycle_u32,
          )
          (ground arith)
      where
        no_zero : (cfg.ready_capacity == 0 || cfg.recycle_capacity == 0) ≡ false
        no_zero = ground (arith, ready_some, recycle_some)

-- For a mapping of `len` bytes, at most 2 ^ 63, and non-zero 32-bit capacities, `create` fails exactly
-- if the header and the rings leave no byte for the arena. Otherwise the writer is well formed, both
-- queues are empty and the arena is all the rest; a reader of the same mapping accepts the region
-- exactly if `len` is the configured size.
pub create_lem :
    (backend : ℕ → ℕ → Result ℕ) (pid len : ℕ) (cfg : TransportConfig)
    → backend cfg.total_size cfg.perms ≡ ok len
    → cfg.ready_capacity < 2 ^ 32
    → cfg.recycle_capacity < 2 ^ 32
    → cfg.timeline_beacon_ms < 2 ^ 32
    → len ≤ 2 ^ 63
    → 0 < cfg.ready_capacity
    → 0 < cfg.recycle_capacity
    → (w : Writer) × Created cfg len w
      × (create backend pid cfg ≡ (
          if ltb (arena_start cfg.ready_capacity cfg.recycle_capacity) len
          then ok w
          else err (invalid_config insufficient_total_size)))
create_lem backend pid len cfg mapped p q b small rs cs = (
  made pid cfg (laid backend pid len cfg mapped p q b small),
  made-Created backend pid len cfg mapped p q b small rs cs,
  create-step backend pid len cfg mapped p q b small rs cs,
)
