-- ===== src/Src.antt =====
-- src/shm2src.rs: the source element's state, its clock synchronisation, `start` and `stop`.
-- GStreamer is a parameter: the running time is an argument, a flow error a result.
pub mod Create
pub mod Sync
pub mod Stamp
pub mod Unlock
pub mod Properties
pub mod Owners
mod Tests
use shm2_rs.Base.{
  ℕ, ◌+◌, ◌-◌, Bool, true, false, ◌&&◌, ◌||◌, not, List, Option, none, some, ltb, ◌==◌,
  if◌then◌else◌, ◌⊎◌, inl, inr,
}
use shm2_rs.Base.Int.{ℤ, pos, negsuc, ◌+ℤ◌, ◌-ℤ◌, clamp, wrap_i64, i64_of_u64}
use mathlib.Core.Option
use shm2_rs.Platform.{ShmError, Result, ok, err}
use shm2_rs.Transport.Types.{Region, ReceivedDesc, TimelineSnapshot}
use shm2_rs.Transport.Timeline.{timeline_snapshot, sync_startup_state}
use shm2_rs.Transport.Reader.{open_region, read_bytes, recycle_desc}
use shm2_rs.Base.Text.{Bytes}
use shm2_rs.Platform.Resolve.{Target, Backend, resolve_backend, default_path}

pub record Settings : Type 0 where
  pub shm_path : Bytes
  pub is_live : Bool
  pub live_only : Bool
  pub latest_only : Bool

abbrev pub default_settings : Target → Settings
default_settings target = record {
  shm_path = default_path target;
  is_live = false;
  live_only = true;
  latest_only = true;
}

pub record TimelineState : Type 0 where
  pub expected_gen : ℕ
  pub offset_valid : Bool
  pub offset_ns : ℤ
  pub last_snapshot_seq : ℕ
  pub sink_mono_at_snap : ℕ
  pub producer_pts_at_snap : ℤ
  pub need_discont : Bool
  pub last_late_log_ns : ℕ

-- `State`; that there is a reader is `attached`, and the region is passed beside it.
pub record State : Type 0 where
  pub settings : Settings
  pub attached : Bool
  pub unlocked : Bool
  pub timeline : TimelineState

-- A property and the value that it is set to. That a change of `is-live` is told to the base class is
-- not part of the state.
pub data Property : Type 0 where
  set_shm_path : Option Bytes → Property
  set_is_live set_live_only set_latest_only : Bool → Property

pub set_property : Target → State → Property → State
set_property target s (set_shm_path (some v)) = record s {
  settings = record s.settings { shm_path = v };
}
set_property target s (set_shm_path none) = record s {
  settings = record s.settings { shm_path = default_path target };
}
set_property target s (set_is_live v) = record s { settings = record s.settings { is_live = v } }
set_property target s (set_live_only v) = record s {
  settings = record s.settings { live_only = v };
}
set_property target s (set_latest_only v) = record s {
  settings = record s.settings { latest_only = v };
}

-- The memory of a buffer that the element hands on, and its drop, which returns the frame.
pub record ShmReadWrap : Type 0 where
  pub desc : ReceivedDesc
  pub ptr : ℕ
  pub len : ℕ

-- `as_ref`: what is read through the memory.
unfoldable pub as_ref : Region → ShmReadWrap → List ℕ
as_ref r mem = read_bytes r.arena mem.ptr mem.len

unfoldable pub drop_read_wrap : List (Region → Region) → Region → ShmReadWrap → Option Region
drop_read_wrap peer r mem = recycle_desc peer r mem.desc.buffer_id mem.desc.offset mem.desc.len 0

pub data FlowError : Type 0 where
  flushing error : FlowError

-- `current_running_time_ns` of the clock's time and the element's base time, where both are known.
current_running_time_ns : Option ℕ → Option ℕ → Option ℕ
current_running_time_ns none base = none
current_running_time_ns (some now) base = Option.map (λ b. now - b) base

abbrev pub is_negative : ℤ → Bool
is_negative (pos n) = false
is_negative (negsuc n) = true

-- The offset that a snapshot asks for, clamped to `i64`.
pub desired_offset : TimelineSnapshot → ℕ → ℤ
desired_offset snap local_now_ns =
    clamp 0x7fff_ffff_ffff_ffff 0x7fff_ffff_ffff_ffff (pos local_now_ns -ℤ pos snap.sink_mono_ns)

-- At most 2 ms towards `desired`.
pub slewed : ℤ → ℤ → ℤ
slewed offset_ns desired = wrap_i64 (offset_ns +ℤ clamp 1_999_999 2_000_000 (desired -ℤ offset_ns))

pub update_clock_sync : TimelineState → TimelineSnapshot → ℕ → TimelineState
update_clock_sync ts snap local_now_ns =
    let desired = desired_offset snap local_now_ns in
    if not snap.valid || is_negative snap.producer_pts_ns
    then ts
    else if snap.seq == ts.last_snapshot_seq
    then ts
    else record ts {
      offset_ns = if not ts.offset_valid then desired else slewed ts.offset_ns desired;
      offset_valid = true;
      last_snapshot_seq = snap.seq;
      sink_mono_at_snap = snap.sink_mono_ns;
      producer_pts_at_snap = snap.producer_pts_ns;
    }

-- `create`, where the snapshot is of another generation than the one followed.
pub follow_generation : TimelineState → TimelineSnapshot → TimelineState
follow_generation ts snap = if snap.generation == ts.expected_gen then ts else record ts {
  expected_gen = snap.generation;
  offset_valid = false;
  last_snapshot_seq = 0;
  need_discont = true;
}

abbrev synced : TimelineState → TimelineSnapshot → Option ℕ → TimelineState
synced ts snap none = ts
synced ts snap (some now) = update_clock_sync ts snap now

abbrev not_before_zero : ℤ → Option ℕ
not_before_zero (pos n) = some n
not_before_zero (negsuc n) = none

-- The presentation time of a frame; the inner sums wrap, the last one saturates.
pub output_pts : TimelineState → ℤ → Option ℕ
output_pts ts pts_ns =
    let sink_time =
      wrap_i64 (pts_ns +ℤ wrap_i64 (i64_of_u64 ts.sink_mono_at_snap -ℤ ts.producer_pts_at_snap)) in
    if ts.offset_valid && not (is_negative pts_ns)
    then not_before_zero
        (clamp 0x7fff_ffff_ffff_ffff 0x7fff_ffff_ffff_ffff (sink_time +ℤ ts.offset_ns))
    else none

-- The late-frame log is throttled to one a second.
pub log_late : TimelineState → Option ℕ → Option ℕ → TimelineState
log_late ts (some now) (some out_pts) =
    if ltb (out_pts + 50_000_000) now && ltb 1_000_000_000 (now - ts.last_late_log_ns)
    then record ts { last_late_log_ns = now }
    else ts
log_late ts _ _ = ts

-- What `create` puts on the buffer, and the timeline that it stores.
pub record Stamped : Type 0 where
  pub pts : Option ℕ
  pub discont : Bool
  pub timeline : TimelineState

pub stamp_live : TimelineState → ReceivedDesc → Option ℕ → ℕ → Stamped
stamp_live ts desc now_rt dropped =
    let out_pts_ns = output_pts ts desc.pts_ns in
    let discont = ts.need_discont || ltb 0 dropped in
    record {
      pts = out_pts_ns;
      discont = discont;
      timeline =
          log_late (record ts { need_discont = if discont then false else ts.need_discont }) now_rt
            out_pts_ns;
    }

-- Without `live-only` the time is the frame's own, and the timeline is not stored.
pub stamp : Bool → TimelineState → ReceivedDesc → TimelineSnapshot → Option ℕ → ℕ → Stamped
stamp true timeline desc snap now_rt dropped =
    stamp_live (synced (follow_generation timeline snap) snap now_rt) desc now_rt dropped
stamp false timeline desc snap now_rt dropped = record {
  pts = not_before_zero desc.pts_ns;
  discont = false;
  timeline = timeline;
}

-- The timeline that `start` and `stop` set, up to the generation.
abbrev pub restarted : ℕ → TimelineState
restarted generation = record {
  expected_gen = generation;
  offset_valid = false;
  offset_ns = pos 0;
  last_snapshot_seq = 0;
  sink_mono_at_snap = 0;
  producer_pts_at_snap = pos 0;
  need_discont = true;
  last_late_log_ns = 0;
}

-- The two error messages of `start`, of this element and of the sink.
pub data StartError : Type 0 where
  settings_error open_error : ShmError → StartError

attached_to : State → Region → State × Region
attached_to s opened =
    let r' = sync_startup_state opened in
    (
      record s {
        attached = true;
        unlocked = false;
        timeline = restarted (timeline_snapshot r').generation;
      },
      r',
    )

-- The region that a backend maps, with its length.
opened_on : State → Result (Region × ℕ) → State × Region ⊎ StartError
opened_on s (err e) = inr (open_error e)
opened_on s (ok (r, len)) = elim (open_region r len) [
  | ok opened ↦ inl (attached_to s opened)
  | err e ↦ inr (open_error e)
]

start : (Backend → Bytes → Result (Region × ℕ)) → Target → State → State × Region ⊎ StartError
start backends target s = elim (resolve_backend target s.settings.shm_path) [
  | err e ↦ inr (settings_error e)
  | ok sel ↦ opened_on s (backends sel.backend sel.name)
]

stop : State → State
stop s = record s { attached = false; unlocked = false; timeline = restarted 0 }

pub unlock : State → State
unlock s = record s { unlocked = true }

unlock_stop : State → State
unlock_stop s = record s { unlocked = false }
