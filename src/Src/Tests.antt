-- ===== src/Src/Tests.antt =====
-- src/shm2src.rs: the theorems at concrete beacons and frames.
use shm2_rs.Base.{
  ℕ, ◌-◌, ◌*◌, ◌≤◌, ◌≡◌, refl, true, false, some, List, [], ◌∷◌, ◌++◌, ◌⊎◌, inl, length, arith,
}
use shm2_rs.Base.Int.{pos, negsuc, InI64, ◌-ℤ◌, clamp}
use shm2_rs.Transport.Types.{Region, TimelineSnapshot}
use shm2_rs.Allocator.{remove}
use shm2_rs.Transport.Ring.{window}
use shm2_rs.Transport.Timeline.{timeline_snapshot}
use shm2_rs.Transport.Reader.{received, try_recv_desc, after, validate_bounds, payload_ptr}
use shm2_rs.Transport.Queues.{ready_queue}
use shm2_rs.Transport.Owners.System.{IsSystem}
use shm2_rs.Transport.Channel
use shm2_rs.Transport.Channel.{waiting}
use shm2_rs.Transport.Tests.{empty, frame}
use shm2_rs.Transport.Owners.Tests.{
  after_take, queued_system, two_taken, queued_system-IsSystem, frame_held,
}
use shm2_rs.Src.Owners.{handed_on, create-drop}
use shm2_rs.Platform.Resolve.{unix}
use shm2_rs.Src.{
  TimelineState, State, Stamped, desired_offset, restarted, default_settings, unlock, stamp, as_ref,
  drop_read_wrap,
}
use shm2_rs.Src.Create.{Frame, Round, create_loop, attempt, ended, poll, poll_next, framed, wrap_of}
use shm2_rs.Src.Sync.{distance, Beacons, sync_all, sync_all-distance}
use shm2_rs.Src.Unlock.{Returns, Stuck, create_loop-unlock}

abbrev beacon : ℕ → TimelineSnapshot
beacon seq = record {
  generation = 2;
  snapshot_gen = 2;
  valid = true;
  seq = seq;
  sink_mono_ns = 1_000;
  producer_pts_ns = pos 500;
  ready_head = 9;
}

abbrev locked : TimelineState
locked = record (restarted 2) { offset_valid = true; offset_ns = negsuc 999 }

abbrev two_beacons : List (TimelineSnapshot × ℕ)
two_beacons = (beacon 1, 5_001_000) ∷ (beacon 2, 5_001_000) ∷ []

two_beacons-Beacons : Beacons (pos 5_000_000) 0 two_beacons
unfolding desired_offset ◌-ℤ◌ clamp
two_beacons-Beacons = (refl, refl, refl, refl, (refl, refl, refl, refl, tt))

sync_all-distance_example :
    (distance (sync_all locked two_beacons).offset_ns (pos 5_000_000)
      ≡ distance (negsuc 999) (pos 5_000_000) - 2_000_000 * length two_beacons)
    × (distance (sync_all locked two_beacons).offset_ns (negsuc 999)
        ≤ 2_000_000 * length two_beacons)
    × InI64 (sync_all locked two_beacons).offset_ns
sync_all-distance_example =
    sync_all-distance locked (pos 5_000_000) two_beacons refl (omega arith) (omega arith)
      two_beacons-Beacons

abbrev idle : State
idle = record {
  settings = record (default_settings unix) {
    is_live = true;
    live_only = true;
    latest_only = true;
  };
  attached = true;
  unlocked = false;
  timeline = restarted 2;
}

-- A buffer is dropped before the first round, and the source is unlocked in the second sleep.
abbrev contended : Round
contended = record {
  ahead = ((wrap_of (received (frame 2 0), 0, beacon 1, 0), []) ∷ []);
  asleep = λ t. t;
}

abbrev stopping : Round
stopping = record { ahead = []; asleep = λ t. (unlock t.0, t.1) }

create_loop-unlock_example :
    Returns (create_loop (contended ∷ [] ++ stopping ∷ stopping ∷ []) idle empty (some 6_000))
    ⊎ Stuck
        (contended ∷ [] ++ stopping ∷ stopping ∷ [])
        (create_loop (contended ∷ [] ++ stopping ∷ stopping ∷ []) idle empty (some 6_000))
create_loop-unlock_example =
    create_loop-unlock (contended ∷ []) stopping stopping idle empty (some 6_000) refl

-- The element in the mode that takes every frame, and the oldest of four.
abbrev playing : State
playing = record idle { settings = record idle.settings { latest_only = false } }

abbrev oldest_frame : Frame
oldest_frame = (received (frame 2 0), 0, timeline_snapshot (after_take 2), 0)

abbrev stamped : Stamped
stamped = stamp true playing.timeline oldest_frame.0 oldest_frame.2 (some 6_000) 0

first_attempt :
    attempt playing queued_system.writer.region (some 6_000)
    ≡ some
        (record playing { timeline = stamped.timeline }, after_take 2, inl (oldest_frame, stamped))
unfolding attempt ended poll poll_next framed try_recv_desc after validate_bounds payload_ptr
first_attempt = refl

create-drop_example :
    ((skipped : List Channel.Frame) × (waiting queued_system
        ≡ skipped
          ++ (as_ref two_taken.writer.region (wrap_of oldest_frame), pos 2)
            ∷ waiting (handed_on queued_system (after_take 2) oldest_frame)))
    × ((r : Region) × (drop_read_wrap [] two_taken.writer.region (wrap_of oldest_frame) ≡ some r)
        × IsSystem (record two_taken {
          writer = record two_taken.writer { region = r };
          held = remove 2 two_taken.held;
        }))
unfolding ready_queue window
create-drop_example =
    create-drop queued_system two_taken playing (record playing { timeline = stamped.timeline })
      (some 6_000) (after_take 2) oldest_frame stamped queued_system-IsSystem (omega arith)
      (omega arith) first_attempt frame_held (omega arith) (omega arith)
