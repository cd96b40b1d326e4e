-- ===== src/Bin/Producer.antt =====
-- src/bin/shm2_producer.rs: `main`. The mapping of a region is a parameter, as are the clock readings and
-- what the consumer does while the producer sleeps. What is printed is left out.
pub mod Frames
pub mod Whole
use mathlib.Core.Option
use shm2_rs.Base.{
  ℕ, zero, suc, ◌+◌, ◌*◌, ◌%◌, Bool, List, [], ◌∷◌, ◌++◌, Option, none, some, mul_u64, ◌==◌,
  if◌then◌else◌,
}
use shm2_rs.Base.Int.{ℤ, i64_of_u64}
use shm2_rs.Base.Text.{Bytes, codes}
use shm2_rs.Base.Decimal.{decimal}
use shm2_rs.Platform.{Result, ok, err, ShmError, exhausted, no_consumer, ◌>>=◌}
use shm2_rs.Platform.Resolve.{BackendSelection, resolve_backend}
use shm2_rs.Transport.Types.{Region, TransportConfig, default_config, Writer}
use shm2_rs.Transport.Timeline.{Clock}
use shm2_rs.Transport.Writer.{publish, drain_recycles, set_running, set_stopped}
use shm2_rs.Transport.Create.{create}
use shm2_rs.Bin.Args.{Host, target_of, path_of, count_of}

abbrev pub config : TransportConfig
config = record default_config { total_size = 64 * 1024 * 1024 }

-- `format!("frame={i};hello=shm-only;transport=gst-shm2")`
pub payload_of : ℕ → Bytes
payload_of i = codes "frame=" ++ (decimal i ++ codes ";hello=shm-only;transport=gst-shm2")

-- `i as i64 * 1_000_000`, which wraps in a release build.
abbrev pub pts_of : ℕ → ℤ
pts_of i = i64_of_u64 (mul_u64 i 1_000_000)

-- What happens during one attempt to publish: during the sleeps of `publish_lease`, and during the sleep
-- that follows a failure.
pub record Attempt : Type 0 where
  pub peer : List (Region → Region)
  pub clock : Clock
  pub sleep : Region → Region

abbrev pub slept : (Region → Region) → Writer → Writer
slept act w = record w { region = act w.region }

-- The inner loop; `none` means that the frame is not published when the attempts are used up.
pub publish_frame : List Attempt → Writer → ℕ → Option (Writer × Result ℕ)
publish_frame [] w i = none
publish_frame (a ∷ attempts) w i = elim (publish a.peer w a.clock (payload_of i) (pts_of i)) [
  | none ↦ none
  | some (w', ok buffer_id) ↦ some (w', ok buffer_id)
  | some (w', err exhausted) ↦ elim (drain_recycles w') [
    | none ↦ none
    | some drained ↦ publish_frame attempts (slept a.sleep drained) i
  ]
  | some (w', err no_consumer) ↦ elim (drain_recycles w') [
    | none ↦ none
    | some drained ↦ publish_frame attempts (slept a.sleep drained) i
  ]
  | some (w', err e) ↦ some (w', err e)
]

-- `if i % 16 == 0`
pub drain_sometimes : ℕ → Writer → Option Writer
drain_sometimes i w = let drained = drain_recycles w in if i % 16 == 0 then drained else some w

-- `count` frames from `i` on, each with its attempts.
pub publish_frames :
    (ℕ → List Attempt) → (count i : ℕ) → Writer → Option (Writer × Result (Unit {0}))
publish_frames attempts zero i w = some (w, ok tt)
publish_frames attempts (suc count) i w = elim (publish_frame (attempts i) w i) [
  | none ↦ none
  | some (w', err e) ↦ some (w', err e)
  | some (w', ok buffer_id) ↦ elim (drain_sometimes i w') [
    | none ↦ none
    | some drained ↦ publish_frames attempts count (i + 1) drained
  ]
]

-- `rounds` drains, each followed by a sleep.
pub last_drains : (ℕ → Region → Region) → (rounds : ℕ) → Writer → Option Writer
last_drains sleeps zero w = some w
last_drains sleeps (suc rounds) w = elim (drain_recycles w) [
  | none ↦ none
  | some drained ↦ last_drains sleeps rounds (slept (sleeps rounds) drained)
]

pub finish :
    (ℕ → Region → Region) → Writer × Result (Unit {0}) → Option (Writer × Result (Unit {0}))
finish sleeps (w, err e) = some (w, err e)
finish sleeps (w, ok _) = elim (last_drains sleeps 1000 w) [
  | none ↦ none
  | some drained ↦ some (set_stopped drained, ok tt)
]

-- Up to the first frame.
pub start : Host → (BackendSelection → ℕ → ℕ → Result ℕ) → (pid : ℕ) → List Bytes → Result Writer
start host backend pid args = do
  selected ← resolve_backend (target_of host) (path_of host args)
  writer ← create (backend selected) pid config
  ok (set_running writer)

-- The writer, if one was made, and how the program ends; `none` is a program that still waits.
pub run :
    (ℕ → List Attempt)
    → (ℕ → Region → Region)
    → List Bytes
    → Result Writer
    → Option (Option Writer × Result (Unit {0}))
run attempts sleeps args (err e) = some (none, err e)
run attempts sleeps args (ok writer) = elim (publish_frames attempts (count_of args) 0 writer) [
  | none ↦ none
  | some out ↦ Option.map (λ (o : Writer × Result (Unit {0})). (some o.0, o.1)) (finish sleeps out)
]
