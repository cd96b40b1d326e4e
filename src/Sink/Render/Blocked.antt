-- ===== src/Sink/Render/Blocked.antt =====
-- src/shm2sink.rs: when `render` does not return.
use shm2_rs.Base.{◌-◌, ◌≤◌, List, [], ◌∷◌}
use shm2_rs.Transport.Types.{Region, Writer}
use shm2_rs.Transport.Queues.{IsRegion}

-- The ready ring is full, and stays full whatever the reader does.
abbrev StaysFull : List (Region → Region) → Region → Type 0
StaysFull [] r = IsRegion r × (r.hdr.ready_capacity ≤ r.hdr.ready_head - r.hdr.ready_tail)
StaysFull (act ∷ peer) r =
    IsRegion r
    × (r.hdr.ready_capacity ≤ r.hdr.ready_head - r.hdr.ready_tail)
    × StaysFull peer (act r)
