-- ===== src/Transport/Channel.antt =====
-- src/transport.rs: what the two ends of a region promise together: a queue of frames from which the
-- oldest ones may be lost.
pub mod Steps
pub mod Order
pub mod Alone
use shm2_rs.Base.{ℕ, ◌+◌, ◌-◌, ◌^◌, ◌≤◌, ◌<◌, ◌≡◌, List, [], ◌∷◌, ◌++◌, drop, length}
use shm2_rs.Base.Int.{ℤ}
use shm2_rs.Transport.Types.{ReadyDesc}
use shm2_rs.Transport.Reader.{read_bytes}
use shm2_rs.Transport.Queues.{ready_queue}
use shm2_rs.Transport.Owners.System.{
  System, Step, lease, fill, publish, release, take, take_latest, give_back, drain, Reach, here,
  next,
}

-- A frame's bytes and its presentation time.
abbrev pub Frame : Type 0
Frame = List ℕ × ℤ

unfoldable pub frames : (ℕ → ℕ) → List ReadyDesc → List Frame
frames arena [] = []
frames arena (d ∷ ds) = (read_bytes arena d.offset d.length, d.pts_ns) ∷ frames arena ds

-- The frames that wait for a consumer.
unfoldable pub waiting : System → List Frame
waiting s = frames s.writer.region.arena (ready_queue s.writer.region)

-- What a step is for the queue of frames.
pub data Event : Type 0 where
  idle making_room : Event
  sent received received_latest : Frame → Event

unfoldable pub event : (s u : System) → Step s u → Event
event s u (lease size align w l p q run gen fresh e) = making_room
event s u (fill id ptr payload mine e) = idle
event s u (publish clock l pts_ns w mine far run e) =
    sent (read_bytes s.writer.region.arena l.offset l.len, pts_ns)
event s u (release id b mine e) = idle
event s u (take r d run e) = received (read_bytes u.writer.region.arena d.offset d.len, d.pts_ns)
event s u (take_latest r d dropped room far run e) =
    received_latest (read_bytes u.writer.region.arena d.offset d.len, d.pts_ns)
event s u (give_back r id offset len status mine far run e) = idle
event s u (drain w run e) = idle

-- What the queue is after an event: a frame comes in last and goes out first; room is made by the loss
-- of the oldest frames; the live policy passes over the older frames and leaves at most the newest.
unfoldable pub Moves : List Frame → Event → List Frame → Type 0
Moves q idle q' = q' ≡ q
Moves q making_room q' = (n : ℕ) × (q' ≡ drop n q)
Moves q (sent f) q' = q' ≡ q ++ f ∷ []
Moves q (received f) q' = q ≡ f ∷ q'
Moves q (received_latest f) q' = (skipped : List Frame) × (q ≡ skipped ++ f ∷ q') × (length q' ≤ 1)

unfoldable pub sent_by : Event → List Frame
sent_by (sent f) = f ∷ []
sent_by _ = []

unfoldable pub received_by : Event → List Frame
received_by (received f) = f ∷ []
received_by (received_latest f) = f ∷ []
received_by _ = []

unfoldable pub all_sent : (s u : System) → Reach s u → List Frame
all_sent s u here = []
all_sent s u (next {t} run st) = all_sent s t run ++ sent_by (event t u st)

unfoldable pub all_received : (s u : System) → Reach s u → List Frame
all_received s u here = []
all_received s u (next {t} run st) = all_received s t run ++ received_by (event t u st)
