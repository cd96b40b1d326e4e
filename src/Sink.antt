-- ===== src/Sink.antt =====
-- src/shm2sink.rs: the sink element's settings and state, and its entry points but `render`.
-- GStreamer is a parameter: a property is set to a value of its type, an error message is a result.
-- A poisoned mutex is not modelled: it takes a panic of a thread that holds it.
pub mod Tracker
pub mod Render
pub mod Running
pub mod Owners
pub mod Properties
mod Tests
use shm2_rs.Base.{
  ℕ, ◌*◌, max, Bool, true, false, Option, none, some, ◌⊎◌, inl, inr, if◌then◌else◌, [],
}
use shm2_rs.Base.Text.{Bytes}
use mathlib.Core.Option
use shm2_rs.Platform.{Result, ok, err}
use shm2_rs.Platform.Resolve.{Target, Backend, BackendSelection, resolve_backend, default_path}
use shm2_rs.Transport.Types.{TransportConfig, default_config, Writer}
use shm2_rs.Transport.Writer.{set_running, set_stopped, drain_recycles}
use shm2_rs.Transport.Create.{create}
use shm2_rs.Src.{StartError, settings_error, open_error}
use shm2_rs.Sink.Tracker.{AllocTracker, ShmArenaAllocator, with_tracker}

pub record Settings : Type 0 where
  pub shm_path : Bytes
  pub shm_size : ℕ
  pub perms : ℕ
  pub timeline_beacon_ms : ℕ

abbrev pub default_settings : Target → Settings
default_settings target = record {
  shm_path = default_path target;
  shm_size = 64 * 1024 * 1024;
  perms = 0o660;
  timeline_beacon_ms = 250;
}

-- `State`. Its writer is the one that the allocator's tracker has, and is there when the allocator is.
-- `collecting` is that there is a collector thread.
pub record State : Type 0 where
  pub settings : Settings
  pub allocator : Option ShmArenaAllocator
  pub unlocked : Bool
  pub collecting : Bool

unfoldable pub tracker_of : State → Option AllocTracker
tracker_of s = elim s.allocator [ none ↦ none | some a ↦ a.tracker ]

unfoldable pub writer_of : State → Option Writer
writer_of s = elim (tracker_of s) [ none ↦ none | some t ↦ t.writer ]

abbrev pub tracked : AllocTracker → ShmArenaAllocator → ShmArenaAllocator
tracked t a = record a { tracker = some t }

unfoldable pub put_tracker : State → AllocTracker → State
put_tracker s t = record s { allocator = Option.map (tracked t) s.allocator }

unfoldable pub put_writer : State → Writer → State
put_writer s w = elim (tracker_of s) [
  | none ↦ s
  | some t ↦ put_tracker s (record t { writer = some w })
]

-- A property and the value that it is set to.
pub data Property : Type 0 where
  set_shm_path : Option Bytes → Property
  set_shm_size set_perms set_timeline_beacon_ms : ℕ → Property

pub set_property : Target → State → Property → State
set_property target s (set_shm_path (some v)) = record s {
  settings = record s.settings { shm_path = v };
}
set_property target s (set_shm_path none) = record s {
  settings = record s.settings { shm_path = default_path target };
}
set_property target s (set_shm_size v) = record s { settings = record s.settings { shm_size = v } }
set_property target s (set_perms v) = record s { settings = record s.settings { perms = v } }
set_property target s (set_timeline_beacon_ms v) = record s {
  settings = record s.settings { timeline_beacon_ms = max v 1 };
}

abbrev pub config_of : Settings → TransportConfig
config_of settings = record default_config {
  total_size = settings.shm_size;
  perms = settings.perms;
  timeline_beacon_ms = settings.timeline_beacon_ms;
}

abbrev pub arena_allocator : Writer → ShmArenaAllocator
arena_allocator w = with_tracker (record { writer = some w; pending_by_ptr = [] }) 64

abbrev pub running_with : State → Writer → State
running_with s w = record s {
  allocator = some (arena_allocator (set_running w));
  unlocked = false;
  collecting = true;
}

-- A collector that still runs is waited for before another is started, and it is never told to stop:
-- then `start` does not return (`none`).
unfoldable pub started : State → Result Writer → Option (State × (Unit {0} ⊎ StartError))
started s (err e) = some (s, inr (open_error e))
started s (ok w) = if s.collecting then none else some (running_with s w, inl tt)

-- What maps a region of each backend is a parameter, as in `create`, and so is the process id.
unfoldable pub start :
    (Backend → Bytes → ℕ → ℕ → Result ℕ)
    → ℕ
    → Target
    → State
    → Option (State × (Unit {0} ⊎ StartError))
start backends pid target s = elim (resolve_backend target s.settings.shm_path) [
  | err e ↦ some (s, inr (settings_error e))
  | ok sel ↦ started s (create (backends sel.backend sel.name) pid (config_of s.settings))
]

-- The writer as `stop` leaves it in the region, and the state.
unfoldable pub stop : State → Option Writer × State
stop s = (
  Option.map set_stopped (writer_of s),
  record s { allocator = none; unlocked = false; collecting = false },
)

unfoldable pub unlock : State → State
unlock s = record s { unlocked = true }

unlock_stop : State → State
unlock_stop s = record s { unlocked = false }

-- The allocator that is offered to upstream elements.
propose_allocation : State → Option ShmArenaAllocator
propose_allocation s = s.allocator

-- One round of the collector thread; `none` is the drain's loop out of fuel, which does not happen.
collect : State → Option State
collect s = elim (writer_of s) [
  | none ↦ some s
  | some w ↦ Option.map (put_writer s) (drain_recycles w)
]
