-- ===== src/Sink/Running.antt =====
-- src/shm2sink.rs: what `start` sets up.
use shm2_rs.Base.{ℕ, ◌^◌, ◌<◌, ◌≡◌, refl, true, false, some, ◌⊎◌, inl, inr, arith}
use shm2_rs.Base.Text.{Bytes}
use shm2_rs.Platform.{Result, ok, err, ◌>>=◌, Result-cases}
use shm2_rs.Platform.Resolve.{Target, Backend, resolve_backend, OnOk}
use shm2_rs.Transport.Types.{Region, Writer, state_running}
use shm2_rs.Transport.Layout.{validate_header}
use shm2_rs.Transport.Timeline.{with_hdr}
use shm2_rs.Transport.Writer.{set_running}
use shm2_rs.Transport.Reader.{open_region}
use shm2_rs.Transport.Lease.{IsWriter}
use shm2_rs.Transport.Create.{create}
use shm2_rs.Transport.Create.OnFile.{create-Opens}
use shm2_rs.Src.{StartError}
use shm2_rs.Sink.{State, tracker_of, writer_of, config_of, running_with, started, start}
use shm2_rs.Sink.Tracker.{with_tracker}

passes-other :
    (checked : Result (Unit {0})) (r r' : Region)
    → (checked >>= λ u. ok r) ≡ ok r
    → (checked >>= λ u. ok r') ≡ ok r'
passes-other (ok u) r r' e = refl
passes-other (err failure) r r' e = absurd (cc)

-- The header's state is not among what a reader checks.
open_region-state :
    (r : Region) (state len : ℕ)
    → open_region r len ≡ ok r
    → open_region (with_hdr r (record r.hdr { state = state })) len
      ≡ ok (with_hdr r (record r.hdr { state = state }))
unfolding open_region validate_header
open_region-state r state len e =
    passes-other (validate_header r.hdr len) r (with_hdr r (record r.hdr { state = state })) e

IsWriter-state :
    (w : Writer) (state : ℕ)
    → IsWriter w
    → IsWriter (record w { region = with_hdr w.region (record w.region.hdr { state = state }) })
IsWriter-state w state v = record {
  region_valid = record {
    ready_ring = v.region_valid.ready_ring;
    recycle_ring = v.region_valid.recycle_ring;
  };
  arena_valid = v.arena_valid;
  fresh = v.fresh;
}

-- A sink that runs: a well-formed writer, in state running, whose region a reader opens.
pub record Runs (size : ℕ) (s : State) : Type 0 where
  pub writer : Writer
  pub there : writer_of s ≡ some writer
  pub valid : IsWriter writer
  pub running : writer.region.hdr.state ≡ state_running
  pub opens : open_region writer.region size ≡ ok writer.region
  pub locked : s.unlocked ≡ false
  pub collecting : s.collecting ≡ true

-- `start` fails and leaves the state, or the sink runs.
abbrev pub StartsFrom : State → State × (Unit {0} ⊎ StartError) → Type 0
StartsFrom s (s', inl done) = Runs s.settings.shm_size s' × (s'.settings ≡ s.settings)
StartsFrom s (s', inr e) = s' ≡ s

started-StartsFrom :
    (s : State) (made : Result Writer)
    → s.collecting ≡ false
    → OnOk (λ w. IsWriter w × (open_region w.region s.settings.shm_size ≡ ok w.region)) made
    → (out : State × (Unit {0} ⊎ StartError)) × (started s made ≡ some out) × StartsFrom s out
unfolding started writer_of tracker_of with_tracker set_running
started-StartsFrom s (err e) idle v = ((s, inr _), refl, refl)
started-StartsFrom s (ok w) idle (v, opens) = (
  (running_with s w, inl tt),
  rw idle refl,
  (
    record {
      writer = set_running w;
      there = refl;
      valid = IsWriter-state w state_running v;
      running = refl;
      opens = open_region-state w.region state_running s.settings.shm_size opens;
      locked = refl;
      collecting = refl;
    },
    refl,
  ),
)

-- `start` of a sink whose collector is not running always returns, for a backend that maps what it is
-- asked for or fails, a size below 2 ^ 63 and a 32-bit beacon period: it fails and leaves the state as
-- it is, or the sink runs. Then its writer is well formed and in state running, and a reader of the
-- same region opens it.
pub start_lem :
    (backends : Backend → Bytes → ℕ → ℕ → Result ℕ) (pid : ℕ) (target : Target) (s : State)
    → s.collecting ≡ false
    → s.settings.shm_size < 2 ^ 63
    → s.settings.timeline_beacon_ms < 2 ^ 32
    → ((backend : Backend) (name : Bytes)
        → OnOk
            (λ len. len ≡ s.settings.shm_size)
            (backends backend name s.settings.shm_size s.settings.perms))
    → (out : State × (Unit {0} ⊎ StartError)) × (start backends pid target s ≡ some out)
      × StartsFrom s out
unfolding start
start_lem backends pid target s idle small beacon maps =
    elim (Result-cases (resolve_backend target s.settings.shm_path)) [
      | inl (sel, e) ↦
          rw (start, e)
            (started-StartsFrom s
              (create (backends sel.backend sel.name) pid (config_of s.settings)) idle
              (create-Opens (backends sel.backend sel.name) pid (config_of s.settings)
                (maps sel.backend sel.name) small (omega arith) (omega arith) beacon (omega arith)
                (omega arith)))
      | inr (failure, e) ↦ rw (start, e) ((s, inr _), refl, refl)
    ]
