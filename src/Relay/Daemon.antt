-- ===== src/Relay/Daemon.antt =====
-- src/bin/shm2_relayd.rs: `main`.
pub mod Start
use mathlib.Core.Option
use shm2_rs.Base.{ℕ, ◌≡◌, refl, ◌⊎◌, inl, inr, List, [], ◌∷◌, Option, none, some}
use shm2_rs.Base.Text.{Bytes}
use shm2_rs.Relay.Listen.{ListenSpec}
use shm2_rs.Relay.Args.{RelayArgs, ArgsError, help, parse_args}
use shm2_rs.Relay.Clients.{Playing, Relay, playing, null, Settled, Opposed}
use shm2_rs.Relay.Setup.{
  Launched, SetupError, gst_error, Built, failed, built, ◌>>=◌, ◌>>◌, Pipeline, input_name,
  splash_name, output_pipeline_create, backend_pipeline_create,
}

-- GStreamer as the daemon meets it: errors are numbered; `plays` is the answer to `set_state(Playing)`.
pub record Gst : Type 0 where
  pub init : Option ℕ
  pub launch : Bytes → Built Launched
  pub now : Option ℕ
  pub watches : Option ℕ
  pub plays : Pipeline → Option ℕ

abbrev passes : Option ℕ → Built (Unit {0})
passes none = built tt
passes (some e) = failed (gst_error e)

-- The pipelines, and the state in which the main loop starts.
pub record Daemon : Type 0 where
  pub output_state : Playing
  pub listen : ListenSpec
  pub output : Pipeline
  pub input : Pipeline
  pub splash : Option Pipeline
  pub relay : Relay

pub splash_create : Gst → (base_time : ℕ) → Option Bytes → Built (Option Pipeline)
splash_create gst base_time none = built none
splash_create gst base_time (some text) = do
  p ← backend_pipeline_create splash_name gst.now (gst.launch text) (some base_time)
  built (some p)

-- `set_state(Playing)`, and the state that it leaves.
pub set_playing : Gst → Pipeline → Built Playing
set_playing gst p = do passes (gst.plays p); built playing

pub plays_splash : Gst → Option Pipeline → Built (Option Playing)
plays_splash gst none = built none
plays_splash gst (some p) = do state ← set_playing gst p; built (some state)

-- Nobody is connected, and nothing has set the state of the input, which is the one of a new pipeline.
abbrev pub at_start : Option Playing → Relay
at_start splash_state = record {
  count = 0;
  seen = [];
  posted = [];
  input = null;
  splash = splash_state;
}

-- The watch on the bus, and the pipelines that play from the start.
pub play_all : Gst → ListenSpec → Pipeline → Pipeline → Option Pipeline → Built Daemon
play_all gst listen output input splash = do
  passes gst.watches
  output_state ← set_playing gst output
  splash_state ← plays_splash gst splash
  built (record {
    output_state = output_state;
    listen = listen;
    output = output;
    input = input;
    splash = splash;
    relay = at_start splash_state;
  })

pub launch_all : Gst → RelayArgs → Built Daemon
launch_all gst args = do
  output ← output_pipeline_create gst.now (gst.launch args.output_pipeline)
  input ←
      backend_pipeline_create input_name gst.now (gst.launch args.input_pipeline)
        (some output.base_time)
  splash ← splash_create gst output.base_time args.splash_pipeline
  play_all gst args.listen_at output input splash

pub data Ended : Type 0 where
  usage_shown : Ended
  bad_args : ArgsError → Ended
  bad_setup : SetupError → Ended

abbrev pub ended_by : Built Daemon → Daemon ⊎ Ended
ended_by (failed e) = inr (bad_setup e)
ended_by (built d) = inl d

pub started : Gst → RelayArgs ⊎ ArgsError → Daemon ⊎ Ended
started gst (inr help) = inr usage_shown
started gst (inr e) = inr (bad_args e)
started gst (inl args) = ended_by (launch_all gst args)

abbrev pub initialized : Option ℕ → Daemon ⊎ Ended → Daemon ⊎ Ended
initialized (some e) later = inr (bad_setup (gst_error e))
initialized none later = later

-- Up to the main loop; `args` is without the program's name.
pub main : Gst → List Bytes → Daemon ⊎ Ended
main gst args = initialized gst.init (started gst (parse_args args))

pub data Message : Type 0 where
  error_message eos_message other_message : Message

-- The messages of the output pipeline that the watch takes from the bus; the rest is left on it.
pub watch : List Message → Option (List Message)
watch [] = none
watch (error_message ∷ later) = some later
watch (eos_message ∷ later) = some later
watch (other_message ∷ later) = watch later

-- Behind the main loop.
pub shut_down : Daemon → Daemon
shut_down d = record d {
  output_state = null;
  relay = record d.relay { input = null; splash = Option.map (λ p. null) d.relay.splash };
}
