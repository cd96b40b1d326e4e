-- ===== src/Sink/Render/Copied.antt =====
-- src/shm2sink.rs: `render` of a buffer that is not for the path without a copy.
use shm2_rs.Base.{◌≡◌, false, List, some, inl, inr, Option-cases, arith}
use shm2_rs.Base.Int.{ℤ}
use mathlib.Core.Option
use shm2_rs.Transport.Types.{Region, Writer}
use shm2_rs.Transport.Timeline.{Clock}
use shm2_rs.Transport.Writer.{publish}
use shm2_rs.Sink.{State, tracker_of, put_tracker, put_writer}
use shm2_rs.Sink.Tracker.{AllocTracker}
use shm2_rs.Sink.Render.{
  Buffer, is_fast, payload_of, try_mark, after_copy, copy_path, publish_marked, render_with,
  render_round,
}

pub tracker_of-put_tracker :
    (s : State) (t t' : AllocTracker)
    → tracker_of s ≡ some t
    → tracker_of (put_tracker s t') ≡ some t'
unfolding tracker_of put_tracker
tracker_of-put_tracker s t t' e = elim (Option-cases s.allocator) [
  | inl none_there ↦ ground (arith, none_there)
  | inr (a, there) ↦ ground (arith, there)
]

pub tracker_of-put_writer :
    (s : State) (t : AllocTracker) (w : Writer)
    → tracker_of s ≡ some t
    → tracker_of (put_writer s w) ≡ some (record t { writer = some w })
unfolding put_writer
tracker_of-put_writer s t w e =
    rw (put_writer, e) (tracker_of-put_tracker s t (record t { writer = some w }) e)

-- A round on such a buffer is a `publish` of its bytes.
pub render_round-copied :
    (peer : List (Region → Region)) (clock : Clock) (s : State) (t : AllocTracker) (w : Writer)
    (b : Buffer) (pts_ns : ℤ)
    → s.unlocked ≡ false
    → tracker_of s ≡ some t
    → t.writer ≡ some w
    → is_fast b ≡ false
    → render_round peer clock s b pts_ns
      ≡ Option.map (after_copy (put_tracker s t)) (publish peer w clock (payload_of w b.map) pts_ns)
unfolding render_round render_with try_mark publish_marked copy_path
render_round-copied peer clock s t w b pts_ns locked tracked there slow =
    ground (arith, locked, tracked, there, slow)
