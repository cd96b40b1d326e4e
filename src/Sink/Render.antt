-- ===== src/Sink/Render.antt =====
-- src/shm2sink.rs: `render`. The state's mutex is held in a round, so other threads change the state
-- only during the sleep between two rounds; the reader, another process, changes the region at any time.
pub mod Fast
pub mod Copied
pub mod Blocked
pub mod Oversized
use shm2_rs.Base.{
  ◌&&◌, ◌==◌, ℕ, Bool, true, false, List, [], ◌∷◌, Option, none, some, ◌⊎◌, inl, inr, if◌then◌else◌,
}
use shm2_rs.Base.Int.{ℤ, negsuc, i64_of_u64}
use mathlib.Core.Option
use shm2_rs.Platform.{Result, ok, err, exhausted}
use shm2_rs.Transport.Types.{Region, Writer, AllocLease}
use shm2_rs.Transport.Timeline.{Clock}
use shm2_rs.Transport.Writer.{publish, publish_lease}
use shm2_rs.Transport.Reader.{read_bytes}
use shm2_rs.Src.{FlowError, flushing, error}
use shm2_rs.Sink.{State, tracker_of, put_tracker, put_writer}
use shm2_rs.Sink.Tracker.{AllocTracker, mark_published}

-- What a buffer maps to: a part of the arena, or bytes elsewhere.
pub data Mapped : Type 0 where
  of_arena : (ptr len : ℕ) → Mapped
  foreign : List ℕ → Mapped

-- The allocator that GStreamer gives for a memory: this element's, or another.
pub data MemAllocator : Type 0 where
  own another : MemAllocator

pub record Buffer : Type 0 where
  pub n_memory : ℕ
  pub mem0_allocator : Option MemAllocator
  pub map : Mapped

unfoldable pub is_own : Option MemAllocator → Bool
is_own none = false
is_own (some own) = true
is_own (some another) = false

-- The test for the path without a copy.
unfoldable pub is_fast : Buffer → Bool
is_fast b = b.n_memory == 1 && is_own b.mem0_allocator

-- One memory, of the element's own allocator.
abbrev pub of_own : (ptr len : ℕ) → Buffer
of_own ptr len = record { n_memory = 1; mem0_allocator = some own; map = of_arena ptr len }

-- Bytes elsewhere, in memories of which the first is not of the element's own allocator.
abbrev pub of_other : (n_memory : ℕ) → List ℕ → Buffer
of_other n_memory bytes = record {
  n_memory = n_memory;
  mem0_allocator = some another;
  map = foreign bytes;
}

pts_of : Option ℕ → ℤ
pts_of none = negsuc 0
pts_of (some nseconds) = i64_of_u64 nseconds

abbrev pub payload_of : Writer → Mapped → List ℕ
payload_of w (of_arena ptr len) = read_bytes w.region.arena ptr len
payload_of w (foreign bytes) = bytes

-- A round's state and its result; without a result `render` sleeps and goes on.
abbrev Turn : Type 0
Turn = State × Option (Unit {0} ⊎ FlowError)

-- An address elsewhere is none that is pending.
mark_mapped : AllocTracker → Mapped → AllocTracker × Option AllocLease
mark_mapped t (of_arena ptr len) = mark_published t ptr len
mark_mapped t (foreign bytes) = (t, none)

pub try_mark : AllocTracker → Buffer → AllocTracker × Option AllocLease
try_mark t b = if is_fast b then mark_mapped t b.map else (t, none)

pub after_copy : State → Writer × Result ℕ → Turn
after_copy s (w, ok id) = (put_writer s w, some (inl tt))
after_copy s (w, err exhausted) = (put_writer s w, none)
after_copy s (w, err _) = (put_writer s w, some (inr error))

-- `none` is a ready ring that stays full whatever `peer` does.
pub copy_path : List (Region → Region) → Clock → State → Writer → Buffer → ℤ → Option Turn
copy_path peer clock s w b pts_ns =
    Option.map (after_copy s) (publish peer w clock (payload_of w b.map) pts_ns)

-- `publish_lease` returns no error.
pub publish_marked :
    List (Region → Region)
    → Clock
    → State
    → Writer
    → Buffer
    → ℤ
    → AllocTracker × Option AllocLease
    → Option Turn
publish_marked peer clock s w b pts_ns (t, some lease) =
    Option.map (λ w'. (put_tracker s (record t { writer = some w' }), some (inl tt)))
      (publish_lease peer w clock lease pts_ns)
publish_marked peer clock s w b pts_ns (t, none) = copy_path peer clock (put_tracker s t) w b pts_ns

-- With the writer that the state has.
pub render_with :
    List (Region → Region) → Clock → State → Buffer → ℤ → AllocTracker → Option Writer → Option Turn
render_with peer clock s b pts_ns t none = some (s, some (inr flushing))
render_with peer clock s b pts_ns t (some w) = publish_marked peer clock s w b pts_ns (try_mark t b)

pub render_round : List (Region → Region) → Clock → State → Buffer → ℤ → Option Turn
render_round peer clock s b pts_ns =
    if s.unlocked then some (s, some (inr flushing)) else elim (tracker_of s) [
      | none ↦ some (s, some (inr flushing))
      | some t ↦ render_with peer clock s b pts_ns t t.writer
    ]

-- What happens around a round: what the reader does while `publish_lease` waits in it, the clock, and
-- what the other threads and the reader do during the sleep after it.
pub record Round : Type 0 where
  pub peer : List (Region → Region)
  pub clock : Clock
  pub asleep : State → State

-- `none`: `render` has not returned after these rounds.
pub render_loop : List Round → State → Buffer → ℤ → Option (State × (Unit {0} ⊎ FlowError))
render_loop [] s b pts_ns = none
render_loop (round ∷ rounds) s b pts_ns = elim (render_round round.peer round.clock s b pts_ns) [
  | none ↦ none
  | some (s', some result) ↦ some (s', result)
  | some (s', none) ↦ render_loop rounds (round.asleep s') b pts_ns
]

render : List Round → State → Buffer → Option ℕ → Option (State × (Unit {0} ⊎ FlowError))
render rounds s b pts = render_loop rounds s b (pts_of pts)
