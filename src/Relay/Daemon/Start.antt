-- ===== src/Relay/Daemon/Start.antt =====
-- src/bin/shm2_relayd.rs: the state in which the main loop starts.
use mathlib.Core.Option
use shm2_rs.Base.{ℕ, ◌≡◌, ◌⊎◌, inl, inr, Option, none, OnSome}
use shm2_rs.Relay.Clients.{playing, Settled, Opposed}
use shm2_rs.Relay.Setup.{Built, failed, built, Pipeline}
use shm2_rs.Relay.Daemon.{Gst, Daemon, Ended}

abbrev OnBuilt {ℓ κ} : {A : Type ℓ} → (A → Type κ) → Built A → Type κ
OnBuilt P (built a) = P a
OnBuilt P (failed e) = Unit

-- The base time that a pipeline is given.
abbrev Based : ℕ → Pipeline → Type 0
Based t p = (p.base_time ≡ t) × (p.start_time ≡ none)

-- The daemon with its pipelines on one clock, and those that are seen first playing: GStreamer was asked
-- for that, and did not fail. It starts in a state in which the clients' counter is settled and input and
-- splash are opposed.
pub record AtStart (gst : Gst) (t : ℕ) (d : Daemon) : Type 0 where
  pub output_at : d.output.base_time ≡ t
  pub input_at : d.input.base_time ≡ t
  pub splash_at : OnSome (λ p. p.base_time ≡ t) d.splash
  pub output_plays : (d.output_state ≡ playing) × (gst.plays d.output ≡ none)
  pub splash_plays : OnSome (λ p. gst.plays p ≡ none) d.splash
  pub same_splash : d.relay.splash ≡ Option.map (λ p. playing) d.splash
  pub watched : gst.watches ≡ none
  pub settled : Settled d.relay
  pub opposed : Opposed d.relay

abbrev pub OnStarted {κ} : (Daemon → Type κ) → Daemon ⊎ Ended → Type κ
OnStarted P (inl d) = P d
OnStarted P (inr e) = Unit
