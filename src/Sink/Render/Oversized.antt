-- ===== src/Sink/Render/Oversized.antt =====
-- src/shm2sink.rs: `render` of a buffer that the arena cannot hold.
use shm2_rs.Base.{ℕ, ◌^◌, ◌≤◌, ◌<◌, ◌≡◌, false, List, some, length}
use shm2_rs.Transport.Types.{Writer}
use shm2_rs.Transport.Lease.{IsWriter}
use shm2_rs.Sink.{State, tracker_of, put_tracker, put_writer}
use shm2_rs.Sink.Tracker.{AllocTracker}

-- A sink that is not unlocked, whose writer is well formed and has an arena smaller than the payload.
pub record CannotHold (payload : List ℕ) (s : State) : Type 0 where
  pub locked : s.unlocked ≡ false
  pub tracker : AllocTracker
  pub writer : Writer
  pub tracked : tracker_of s ≡ some tracker
  pub there : tracker.writer ≡ some writer
  pub valid : IsWriter writer
  pub align : writer.allocator_align ≤ 2 ^ 62
  pub too_large : writer.region.hdr.arena_size < length payload

-- What a round leaves where the writer has become `w'`.
abbrev after_refusal : State → AllocTracker → Writer → State
after_refusal s t w' = put_writer (put_tracker s t) w'

-- The other threads leave the sink running, with a writer that is well formed.
abbrev Keeps : List ℕ → (State → State) → Type 0
Keeps payload act = (s : State) → CannotHold payload s → CannotHold payload (act s)
