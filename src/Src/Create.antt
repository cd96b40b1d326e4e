-- ===== src/Src/Create.antt =====
-- src/shm2src.rs: `create`, which waits for a frame and hands it on.
use shm2_rs.Base.{
  ℕ, Bool, ◌||◌, not, List, [], ◌∷◌, Option, none, some, if◌then◌else◌, ◌⊎◌, inl, inr,
}
use shm2_rs.Platform.{Result, ok, err, ◌>>=◌}
use shm2_rs.Transport.Types.{Region, ReceivedDesc, TimelineSnapshot}
use shm2_rs.Transport.Timeline.{timeline_snapshot}
use shm2_rs.Transport.Reader.{payload_ptr, try_recv_desc, try_recv_latest_desc}
use shm2_rs.Src.{ShmReadWrap, drop_read_wrap, FlowError, flushing, error, State, Stamped, stamp}

abbrev pub Frame : Type 0
Frame = ReceivedDesc × ℕ × TimelineSnapshot × ℕ

-- The memory that `create` makes of a frame.
abbrev pub wrap_of : Frame → ShmReadWrap
wrap_of (desc, ptr, snap, dropped) = record { desc = desc; ptr = ptr; len = desc.len }

-- A frame received, with its address, the snapshot read after it, and the drop count.
unfoldable pub framed : Region → ReceivedDesc → ℕ → Result (Option Frame)
framed r desc dropped = do
  ptr ← payload_ptr r desc
  ok (some (desc, ptr, timeline_snapshot r, dropped))

unfoldable pub poll_next : Region × Result (Option ReceivedDesc) → Region × Result (Option Frame)
poll_next (r, ok none) = (r, ok none)
poll_next (r, ok (some desc)) = (r, framed r desc 0)
poll_next (r, err e) = (r, err e)

unfoldable pub poll_latest :
    Region × Result (Option (ReceivedDesc × ℕ)) → Region × Result (Option Frame)
poll_latest (r, ok none) = (r, ok none)
poll_latest (r, ok (some (desc, dropped))) = (r, framed r desc dropped)
poll_latest (r, err e) = (r, err e)

-- One round of the loop of `create`.
unfoldable pub poll : Bool → Region → Region × Result (Option Frame)
poll latest_only r =
    if latest_only then poll_latest (try_recv_latest_desc r) else poll_next (try_recv_desc r)

-- A round that finds a frame, or fails, ends the loop.
unfoldable pub ended :
    State
    → Option ℕ
    → Region × Result (Option Frame)
    → Option (State × Region × (Frame × Stamped ⊎ FlowError))
ended s now_rt (r, ok none) = none
ended s now_rt (r, ok (some (desc, ptr, snap, dropped))) =
    let out = stamp s.settings.live_only s.timeline desc snap now_rt dropped in
    some (record s { timeline = out.timeline }, r, inl ((desc, ptr, snap, dropped), out))
ended s now_rt (r, err e) = some (s, r, inr error)

abbrev pub Outcome : Type 0
Outcome = Option (State × Region × (Frame × Stamped ⊎ FlowError))

-- A round that has got the reader's lock, with the check for `unlock` that comes before.
unfoldable pub attempt : State → Region → Option ℕ → Outcome
attempt s r now_rt =
    if s.unlocked then some (s, r, inr flushing) else ended s now_rt (poll s.settings.latest_only r)

-- The drops of other buffers that get the reader's lock first, each with what the writer does during its
-- sleeps. `none`: one of them still waits for room on the recycle ring, and has the lock.
unfoldable pub wait_reader : List (ShmReadWrap × List (Region → Region)) → Region → Option Region
wait_reader [] r = some r
wait_reader ((mem, peer) ∷ ahead) r = elim (drop_read_wrap peer r mem) [
  | none ↦ none
  | some r' ↦ wait_reader ahead r'
]

-- Up to the lock; an unlocked source returns before it asks for it.
unfoldable pub until_locked :
    State → List (ShmReadWrap × List (Region → Region)) → Region → Option Region
until_locked s ahead r = if s.unlocked then some r else wait_reader ahead r

-- What happens around a round: the drops that come before it, and what the other threads and the writer do
-- to the state and the region during the sleep after it. In a round the state's mutex is held from before
-- the wait for the reader's lock, so the other threads change the state only during the sleep.
pub record Round : Type 0 where
  pub ahead : List (ShmReadWrap × List (Region → Region))
  pub asleep : State × Region → State × Region

-- What has become of `create` after some rounds: it has returned, it waits for the reader's lock with the
-- state's mutex in hand, or nothing has come yet.
pub data Fate : Type 0 where
  returned : State × Region × (Frame × Stamped ⊎ FlowError) → Fate
  blocked : State → Region → Fate
  polling : Fate

unfoldable pub create_loop : List Round → State → Region → Option ℕ → Fate
create_loop [] s r now_rt = polling
create_loop (round ∷ rounds) s r now_rt = elim (until_locked s round.ahead r) [
  | none ↦ blocked s r
  | some r1 ↦ elim (attempt s r1 now_rt) [
    | some out ↦ returned out
    | none ↦
        let (s', r') = round.asleep (s, (poll s.settings.latest_only r1).0) in
        create_loop rounds s' r' now_rt
  ]
]

create : List Round → State → Region → Option ℕ → Fate
create rounds s r now_rt =
    if s.unlocked || not s.attached
    then returned (s, r, inr flushing)
    else create_loop rounds s r now_rt
