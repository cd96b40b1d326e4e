-- ===== src/Transport/Live.antt =====
-- src/transport.rs: `try_recv_latest_desc` as a step on the two queues.
pub mod Steps
pub mod Newest
use shm2_rs.Base.{
  ℕ, zero, suc, ◌+◌, ◌-◌, ◌%◌, ◌^◌, ◌≤◌, ◌<◌, ◌≡◌, ◌≢◌, ◌⊎◌, refl, ap, ap₂, sym, ◌∙◌, min, max,
  Bool, true, false, List, [], ◌∷◌, ◌++◌, Option, none, some, add_u64, sub_u64, ltb, leb, ◌==◌,
  if◌then◌else◌, Bool-cases, inl, inr, get_or, take, drop, length, ==_iff, le→leb, lt→leb, leb→le,
  arith,
}
use native.Mathlib.Decide.{dec_le}
use mathlib.Core.List.{append-nil}
use shm2_rs.Platform.{Result, ok, err, protocol, payload_bounds_overflow, payload_out_of_arena}
use shm2_rs.Transport.Types.{ReadyDesc, RecycleDesc, Region, SharedHeader, ReceivedDesc}
use shm2_rs.Transport.Timeline.{with_hdr}
use shm2_rs.Transport.Ring.{window, take-window, drop-window, get_or-window}
use shm2_rs.Transport.Writer.{zero_ready}
use shm2_rs.Transport.Reader.{
  received, validate_bounds, drop_older, hand_out, deliver, try_recv_latest_desc,
}
use shm2_rs.Transport.Queues.{IsRegion, ready_queue, recycle_queue, length-ready_queue}
use shm2_rs.Transport.Receive.{validate_bounds_lem, window_none}
use shm2_rs.Transport.Latest.{free_slots, returns, Dropped, drop_older-Dropped, Dropped-none}

abbrev pub View : Type 0
View = List ReadyDesc × List RecycleDesc × Result (Option (ReceivedDesc × ℕ))

-- What a call shows: both queues as it leaves them, and its result.
abbrev pub view : Region × Result (Option (ReceivedDesc × ℕ)) → View
view out = (ready_queue out.0, recycle_queue out.0, out.1)

-- The payload check decides between the frame taken and an error.
abbrev pub checked : ℕ → ReadyDesc → View → List ReadyDesc → List RecycleDesc → View
checked arena_size c taken kept back = if leb (c.offset + c.length) arena_size then taken else (
  kept,
  back,
  if ltb (c.offset + c.length) (2 ^ 64)
      then err (protocol payload_out_of_arena)
      else err (protocol payload_bounds_overflow),
)

-- The abstract step on the queue: what stays queued, which entries go on the recycle ring, the result.
-- The second-newest frame is taken (the only one, if there is one); of those older than it, as many
-- as the recycle ring has room for are given back. A frame outside the arena stays queued with all
-- others, the given-back ones too.
unfoldable pub take_latest : (arena_size room rec_head : ℕ) → List ReadyDesc → View
take_latest arena_size room rec_head queue =
    let chosen = get_or queue (length queue - 2) zero_ready in
    let dropped = min (length queue - 2) room in
    let back = returns rec_head (take dropped queue) in
    if length queue == 0
    then ([], [], ok none)
    else checked arena_size chosen
        (drop (max 1 (length queue - 1)) queue, back, ok (some (received chosen, dropped))) queue
        back

-- What is queued for return in addition goes behind what is there.
abbrev pub behind : List RecycleDesc → View → View
behind returned seen = (seen.0, returned ++ seen.1, seen.2)
