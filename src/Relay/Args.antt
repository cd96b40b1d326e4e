-- ===== src/Relay/Args.antt =====
-- src/bin/shm2_relayd.rs: `parse_args`, of the arguments behind the program's name.
pub mod Written
use shm2_rs.Base.{
  ◌≡◌, refl, ◌⊎◌, inl, inr, ◌||◌, List, [], ◌∷◌, ◌++◌, Option, none, some, if◌then◌else◌,
}
use mathlib.Core.Option
use shm2_rs.Base.Text.{Bytes, codes, bytes_eq, is_some}
use shm2_rs.Relay.Listen.{ListenSpec, ListenError, parse_listen}
use shm2_rs.Relay.Pipeline.{normalize_pipeline}

pub data Flag : Type 0 where
  listen shm_path shm_size input splash output : Flag

pub data ArgsError : Type 0 where
  requires_value : Flag → ArgsError
  help deprecated input_required output_required : ArgsError
  unknown_arg : Bytes → ArgsError
  bad_listen : ListenError → ArgsError

pub record Given : Type 0 where
  pub listen_spec : Bytes
  pub shm_path_value : Option Bytes
  pub shm_size_value : Option Bytes
  pub input_value : Option Bytes
  pub splash_value : Option Bytes
  pub output_value : Option Bytes

abbrev pub nothing_given : Given
nothing_given = record {
  listen_spec = codes "tcp://0.0.0.0:5555";
  shm_path_value = none;
  shm_size_value = none;
  input_value = none;
  splash_value = none;
  output_value = none;
}

abbrev give : Given → Flag → Bytes → Given
give g listen v = record g { listen_spec = v }
give g shm_path v = record g { shm_path_value = some v }
give g shm_size v = record g { shm_size_value = some v }
give g input v = record g { input_value = some v }
give g splash v = record g { splash_value = some v }
give g output v = record g { output_value = some v }

-- An argument that takes a value, or what ends the loop.
flag_of : Bytes → Flag ⊎ ArgsError
flag_of arg =
    if bytes_eq arg (codes "--listen")
    then inl listen
    else if bytes_eq arg (codes "--shm-path")
    then inl shm_path
    else if bytes_eq arg (codes "--shm-size")
    then inl shm_size
    else if bytes_eq arg (codes "--input")
    then inl input
    else if bytes_eq arg (codes "--splash")
    then inl splash
    else if bytes_eq arg (codes "--output")
    then inl output
    else if bytes_eq arg (codes "--help") || bytes_eq arg (codes "-h")
    then inr help
    else inr (unknown_arg arg)

parse_loop : Given → List Bytes → Given ⊎ ArgsError
parse_loop g [] = inl g
parse_loop g (arg ∷ []) = elim (flag_of arg) [
  | inr e ↦ inr e
  | inl flag ↦ inr (requires_value flag)
]
parse_loop g (arg ∷ v ∷ args) = elim (flag_of arg) [
  | inr e ↦ inr e
  | inl flag ↦ parse_loop (give g flag v) args
]

pub record RelayArgs : Type 0 where
  pub listen_at : ListenSpec
  pub input_pipeline : Bytes
  pub output_pipeline : Bytes
  pub splash_pipeline : Option Bytes

with_listen : (inp out : Bytes) → Option Bytes → ListenSpec ⊎ ListenError → RelayArgs ⊎ ArgsError
with_listen inp out splashing (inr e) = inr (bad_listen e)
with_listen inp out splashing (inl spec) = inl (record {
  listen_at = spec;
  input_pipeline = normalize_pipeline inp;
  output_pipeline = normalize_pipeline out;
  splash_pipeline = Option.map normalize_pipeline splashing;
})

abbrev required : Given → Option Bytes → Option Bytes → RelayArgs ⊎ ArgsError
required g none out = inr input_required
required g (some inp) none = inr output_required
required g (some inp) (some out) = with_listen inp out g.splash_value (parse_listen g.listen_spec)

pub finish : Given → RelayArgs ⊎ ArgsError
finish g =
    if is_some g.shm_path_value || is_some g.shm_size_value
    then inr deprecated
    else required g g.input_value g.output_value

pub parse_args : List Bytes → RelayArgs ⊎ ArgsError
parse_args args = elim (parse_loop nothing_given args) [ inr e ↦ inr e | inl g ↦ finish g ]
