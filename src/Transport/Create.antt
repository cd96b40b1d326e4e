-- ===== src/Transport/Create.antt =====
-- src/transport.rs: `Writer::create`. The backend is a parameter: for a size and permissions, the
-- length of the region that it mapped, or its error.
pub mod Opening
pub mod OnFile
use shm2_rs.Base.{
  ℕ, zero, suc, ◌*◌, Bool, true, false, ◌||◌, max, mul_u64, ◌==◌, if◌then◌else◌, List, [], ◌∷◌,
}
use shm2_rs.Allocator.{new}
use shm2_rs.Platform.{Result, ok, err, invalid_config, ring_capacities, ◌>>=◌}
use shm2_rs.Transport.Types.{TransportConfig, Region, Writer}
use shm2_rs.Transport.Layout.{Layout, map_layout, init_header}
use shm2_rs.Transport.Writer.{zero_ready, zero_recycle}

abbrev pub replicate {ℓ} : {A : Type ℓ} → ℕ → A → List A
replicate zero a = []
replicate (suc n) a = a ∷ replicate n a

-- The region, zeroed, then with its header.
pub fresh_region : ℕ → TransportConfig → Layout → Region
fresh_region pid cfg l = record {
  hdr =
      init_header pid cfg.total_size cfg.ready_capacity cfg.recycle_capacity l
        cfg.drop_when_no_consumer;
  ready = replicate cfg.ready_capacity zero_ready;
  recycle = replicate cfg.recycle_capacity zero_recycle;
  arena = λ x. 0;
}

pub made : ℕ → TransportConfig → Layout → Writer
made pid cfg l = record {
  region = fresh_region pid cfg l;
  allocator = new l.arena_size;
  allocator_align = cfg.allocator_align;
  timeline_beacon_ns = mul_u64 (max cfg.timeline_beacon_ms 1) 1_000_000;
  last_timeline_emit_ns = 0;
  last_timeline_snapshot_gen = 0;
}

pub create : (ℕ → ℕ → Result ℕ) → ℕ → TransportConfig → Result Writer
create backend pid cfg =
    if cfg.ready_capacity == 0 || cfg.recycle_capacity == 0
    then err (invalid_config ring_capacities)
    else do
      len ← backend cfg.total_size cfg.perms
      l ← map_layout len cfg.ready_capacity cfg.recycle_capacity
      ok (made pid cfg l)
