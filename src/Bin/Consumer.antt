-- ===== src/Bin/Consumer.antt =====
-- src/bin/shm2_consumer.rs: `main`. What is printed is left out.
pub mod Order
use shm2_rs.Bin.Args.{Host, target_of, path_of, count_of}
use shm2_rs.Base.Text.{Bytes}
use shm2_rs.Platform.Resolve.{BackendSelection, resolve_backend}
use shm2_rs.Base.{ℕ, zero, suc, ◌+◌, List, [], ◌∷◌, Option, none, some}
use shm2_rs.Platform.{Result, ok, err, ◌>>=◌}
use shm2_rs.Transport.Types.{Region, ReceivedBuffer}
use shm2_rs.Transport.Timeline.{sync_startup_state}
use shm2_rs.Transport.Reader.{open_region, recv_blocking, recycle}

-- `Reader::open` until it succeeds: for each attempt the mapping and its length, or the backend's error.
unfoldable pub open_loop : List (Result (Region × ℕ)) → Option Region
open_loop [] = none
open_loop (err e ∷ attempts) = open_loop attempts
open_loop (ok (r, len) ∷ attempts) = elim (open_region r len) [
  | ok r' ↦ some (sync_startup_state r')
  | err e ↦ open_loop attempts
]

-- What the producer does during the sleeps of `recv_blocking` and of `recycle`.
pub record Turn : Type 0 where
  pub waiting : List (Region → Region)
  pub returning : List (Region → Region)

abbrev pub Consumed : Type 0
Consumed = Region × List ReceivedBuffer × Result (Unit {0})

abbrev also : ReceivedBuffer → Option Consumed → Option Consumed
also buf none = none
also buf (some (r, bufs, end)) = some (r, buf ∷ bufs, end)

-- `max` frames, the `i`-th of them next. `none` means that a call still polls when its sleeps are used up.
pub consume : (ℕ → Turn) → (max i : ℕ) → Region → Option Consumed
consume turns zero i r = some (r, [], ok tt)
consume turns (suc max) i r = elim (recv_blocking (turns i).waiting r) [
  | none ↦ none
  | some (r', err e) ↦ some (r', [], err e)
  | some (r', ok buf) ↦ elim (recycle (turns i).returning r' buf) [
    | none ↦ none
    | some r'' ↦ also buf (consume turns max (i + 1) r'')
  ]
]

-- `backend` has the attempts to open what was selected.
pub run :
    Host
    → (BackendSelection → List (Result (Region × ℕ)))
    → (ℕ → Turn)
    → List Bytes
    → Result (Option Consumed)
run host backend turns args = do
  selected ← resolve_backend (target_of host) (path_of host args)
  ok (elim (open_loop (backend selected)) [
    | none ↦ none
    | some r ↦ consume turns (count_of args) 0 r
  ])
