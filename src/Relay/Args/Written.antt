-- ===== src/Relay/Args/Written.antt =====
-- src/bin/shm2_relayd.rs: `parse_args` of arguments that are flags with their values.
use shm2_rs.Base.{
  some_eq, ℕ, ◌≡◌, refl, ap, ◌∙◌, ◌⊎◌, inl, inr, ◌||◌, List, [], ◌∷◌, ◌++◌, Option, none, some,
  if◌then◌else◌, ◌==◌, arith, Option-cases,
}
use mathlib.Core.Option
use shm2_rs.Base.Text.{Bytes, codes, bytes_eq, is_some}
use shm2_rs.Relay.Listen.{ListenSpec, ListenError, parse_listen}
use shm2_rs.Relay.Pipeline.{normalize_pipeline}
use shm2_rs.Relay.Args.{
  Flag, listen, shm_path, shm_size, input, splash, output, ArgsError, requires_value, deprecated,
  input_required, output_required, bad_listen, Given, nothing_given, give, flag_of, parse_loop,
  RelayArgs, with_listen, finish, parse_args,
}

-- The arguments written out.
abbrev pub flag_text : Flag → Bytes
flag_text listen = codes "--listen"
flag_text shm_path = codes "--shm-path"
flag_text shm_size = codes "--shm-size"
flag_text input = codes "--input"
flag_text splash = codes "--splash"
flag_text output = codes "--output"

unfoldable pub written : List (Flag × Bytes) → List Bytes
written [] = []
written ((flag, v) ∷ pairs) = flag_text flag ∷ v ∷ written pairs

abbrev number : Flag → ℕ
number listen = 0
number shm_path = 1
number shm_size = 2
number input = 3
number splash = 4
number output = 5

abbrev or_given {ℓ} : {A : Type ℓ} → Option A → Option A → Option A
or_given none other = other
or_given (some a) other = some a

-- The last value that a flag is given.
unfoldable pub last_value : List (Flag × Bytes) → Flag → Option Bytes
last_value [] wanted = none
last_value ((flag, v) ∷ pairs) wanted =
    or_given (last_value pairs wanted) (if number wanted == number flag then some v else none)

abbrev listen_or_default : Option Bytes → Bytes
listen_or_default none = codes "tcp://0.0.0.0:5555"
listen_or_default (some text) = text

-- What is asked for by the values of the flags.
unfoldable pub asked : (Flag → Option Bytes) → RelayArgs ⊎ ArgsError
asked value =
    if is_some (value shm_path) || is_some (value shm_size)
    then inr deprecated
    else elim (value input) [
      | none ↦ inr input_required
      | some inp ↦ elim (value output) [
        | none ↦ inr output_required
        | some out ↦ elim (parse_listen (listen_or_default (value listen))) [
          | inr e ↦ inr (bad_listen e)
          | inl spec ↦ inl (record {
            listen_at = spec;
            input_pipeline = normalize_pipeline inp;
            output_pipeline = normalize_pipeline out;
            splash_pipeline = Option.map normalize_pipeline (value splash);
          })
        ]
      ]
    ]

-- What the loop collects.
give_all : Given → List (Flag × Bytes) → Given
give_all g [] = g
give_all g ((flag, v) ∷ pairs) = give_all (give g flag v) pairs

abbrev value_in : Given → Flag → Option Bytes
value_in g listen = some g.listen_spec
value_in g shm_path = g.shm_path_value
value_in g shm_size = g.shm_size_value
value_in g input = g.input_value
value_in g splash = g.splash_value
value_in g output = g.output_value

flag_of-flag_text : (flag : Flag) → flag_of (flag_text flag) ≡ inl flag
unfolding flag_of bytes_eq
flag_of-flag_text listen = refl
flag_of-flag_text shm_path = refl
flag_of-flag_text shm_size = refl
flag_of-flag_text input = refl
flag_of-flag_text splash = refl
flag_of-flag_text output = refl

parse_loop-written :
    (g : Given) (pairs : List (Flag × Bytes))
    → parse_loop g (written pairs) ≡ inl (give_all g pairs)
unfolding parse_loop written give_all
parse_loop-written g [] = refl
parse_loop-written g ((flag, v) ∷ pairs) =
    rw (parse_loop, flag_of-flag_text flag) (parse_loop-written (give g flag v) pairs)

parse_loop-open :
    (g : Given) (pairs : List (Flag × Bytes)) (flag : Flag)
    → parse_loop g (written pairs ++ flag_text flag ∷ []) ≡ inr (requires_value flag)
unfolding parse_loop written
parse_loop-open g [] flag = rw (parse_loop, flag_of-flag_text flag) refl
parse_loop-open g ((f, v) ∷ pairs) flag =
    rw (parse_loop, flag_of-flag_text f) (parse_loop-open (give g f v) pairs flag)

or_given_assoc {ℓ} :
    {A : Type ℓ} (a b c : Option A) → or_given a (or_given b c) ≡ or_given (or_given a b) c
or_given_assoc none b c = refl
or_given_assoc (some x) b c = refl

value_in-give :
    (g : Given) (flag : Flag) (v : Bytes) (wanted : Flag)
    → value_in (give g flag v) wanted
      ≡ or_given (if number wanted == number flag then some v else none) (value_in g wanted)
value_in-give g listen v wanted = ground arith
value_in-give g shm_path v wanted = ground arith
value_in-give g shm_size v wanted = ground arith
value_in-give g input v wanted = ground arith
value_in-give g splash v wanted = ground arith
value_in-give g output v wanted = ground arith

value_in-give_all :
    (g : Given) (pairs : List (Flag × Bytes)) (wanted : Flag)
    → value_in (give_all g pairs) wanted ≡ or_given (last_value pairs wanted) (value_in g wanted)
unfolding give_all last_value
value_in-give_all g [] wanted = refl
value_in-give_all g ((flag, v) ∷ pairs) wanted =
    value_in-give_all (give g flag v) pairs wanted
    ∙ ap (or_given (last_value pairs wanted)) (value_in-give g flag v wanted)
    ∙ or_given_assoc (last_value pairs wanted) _ _

or_given-none {ℓ} : {A : Type ℓ} (a : Option A) → or_given a none ≡ a
or_given-none none = refl
or_given-none (some x) = refl

listen_or_default-or_given :
    (a : Option Bytes) → or_given a (some (codes "tcp://0.0.0.0:5555")) ≡ some (listen_or_default a)
listen_or_default-or_given none = refl
listen_or_default-or_given (some x) = refl

with_listen-asked :
    (inp out : Bytes) (splashing : Option Bytes) (spec : ListenSpec ⊎ ListenError)
    → with_listen inp out splashing spec ≡ elim spec [
      | inr e ↦ inr (bad_listen e)
      | inl spec ↦ inl (record {
        listen_at = spec;
        input_pipeline = normalize_pipeline inp;
        output_pipeline = normalize_pipeline out;
        splash_pipeline = Option.map normalize_pipeline splashing;
      })
    ]
unfolding with_listen
with_listen-asked inp out splashing (inr e) = refl
with_listen-asked inp out splashing (inl spec) = refl

finish-asked :
    (g : Given) (value : Flag → Option Bytes)
    → g.listen_spec ≡ listen_or_default (value listen)
    → g.shm_path_value ≡ value shm_path
    → g.shm_size_value ≡ value shm_size
    → g.input_value ≡ value input
    → g.splash_value ≡ value splash
    → g.output_value ≡ value output
    → finish g ≡ asked value
unfolding finish asked
finish-asked g value at path size inp sp out = elim (Option-cases (value input)) [
  | inl e ↦ rw (path, size, inp, out, e) refl
  | inr (i, e) ↦ elim (Option-cases (value output)) [
    | inl f ↦ rw (path, size, inp, out, e, f) refl
    | inr (o, f) ↦
        rw
          (
            path,
            size,
            inp,
            out,
            e,
            f,
            at,
            sp,
            with_listen-asked i o (value splash) (parse_listen (listen_or_default (value listen))),
          )
          refl
  ]
]

give_all-asked :
    (pairs : List (Flag × Bytes)) → finish (give_all nothing_given pairs) ≡ asked (last_value pairs)
give_all-asked pairs =
    finish-asked (give_all nothing_given pairs) (last_value pairs)
      (some_eq (value_in-give_all nothing_given pairs listen ∙ listen_or_default-or_given _))
      (value_in-give_all nothing_given pairs shm_path ∙ or_given-none _)
      (value_in-give_all nothing_given pairs shm_size ∙ or_given-none _)
      (value_in-give_all nothing_given pairs input ∙ or_given-none _)
      (value_in-give_all nothing_given pairs splash ∙ or_given-none _)
      (value_in-give_all nothing_given pairs output ∙ or_given-none _)

-- Arguments written out as flags with their values, in any order, with any values and with repetitions,
-- are read by the last value of each flag: a value for `--shm-path` or `--shm-size` is refused, then a
-- missing `--input`, then a missing `--output`, then a value of `--listen` that does not parse; otherwise
-- the pipelines are the normalized values of their flags, and `--listen` without a value is
-- tcp://0.0.0.0:5555. A flag in last place without its value is refused by its name.
pub parse_args-written :
    (pairs : List (Flag × Bytes)) (flag : Flag)
    → (parse_args (written pairs) ≡ asked (last_value pairs))
      × (parse_args (written pairs ++ flag_text flag ∷ []) ≡ inr (requires_value flag))
unfolding parse_args
parse_args-written pairs flag = (
  rw (parse_args, parse_loop-written nothing_given pairs) (give_all-asked pairs),
  rw (parse_args, parse_loop-open nothing_given pairs flag) refl,
)
