-- ===== src/Relay/Samples.antt =====
-- src/bin/shm2_relayd.rs: the `new_sample` callback of `backend_pipeline_create`, for the two pipelines that
-- feed one AppSrc. What GStreamer answers is an argument; caps and buffers are numbered.
pub mod Caps
use shm2_rs.Base.{
  ℕ, ◌≡◌, refl, ap, sym, ◌∙◌, ◌⊎◌, inl, inr, Bool, true, false, ◌&&◌, List, [], ◌∷◌, ◌++◌, Option,
  none, some, if◌then◌else◌, arith,
}
use mathlib.Core.List.{append-nil, append_assoc}

pub data FlowError : Type 0 where
  flushing eos error : FlowError

-- What `pull_sample` gives; `copies` says whether the copy of the buffer, shallow or deep, succeeds.
pub record Sample : Type 0 where
  pub caps : Option ℕ
  pub buffer : Option ℕ
  pub copies : Bool

pub record AppSrc : Type 0 where
  pub caps : Option ℕ
  pub pushed : List ℕ

-- `caps_set` of a pipeline, and the AppSrc.
abbrev pub Sending : Type 0
Sending = Bool × AppSrc

abbrev pub Flow : Type 0
Flow = Sending × (Unit {0} ⊎ FlowError)

abbrev pub set_caps_once : Option ℕ → Sending → Sending
set_caps_once none st = st
set_caps_once (some c) (true, appsrc) = (true, appsrc)
set_caps_once (some c) (false, appsrc) = (true, record appsrc { caps = some c })

abbrev pub push_buffer : (accepts : Bool) → ℕ → Sending → Flow
push_buffer true b (set, appsrc) =
    ((set, record appsrc { pushed = appsrc.pushed ++ b ∷ [] }), inl tt)
push_buffer false b st = (st, inr error)

abbrev pub send_buffer : (accepts copies : Bool) → Option ℕ → Sending → Flow
send_buffer accepts copies none st = (st, inr error)
send_buffer accepts true (some b) st = push_buffer accepts b st
send_buffer accepts false (some b) st = (st, inr error)

-- `alive`: the AppSrc is still there; `accepts`: it takes the buffer; no sample is the end of the stream.
unfoldable pub new_sample : (alive accepts : Bool) → Option Sample → Sending → Flow
new_sample false accepts pulled st = (st, inr flushing)
new_sample true accepts none st = (st, inr eos)
new_sample true accepts (some sample) st =
    send_buffer accepts sample.copies sample.buffer (set_caps_once sample.caps st)

-- The two pipelines, each with its `caps_set`, and the AppSrc that they share.
pub data Side : Type 0 where
  from_input from_splash : Side

pub record Feed : Type 0 where
  pub appsrc : AppSrc
  pub input_caps_set : Bool
  pub splash_caps_set : Bool

pub record Call : Type 0 where
  pub side : Side
  pub alive : Bool
  pub accepts : Bool
  pub pulled : Option Sample

abbrev pub of_side : Side → Feed → Sending
of_side from_input f = (f.input_caps_set, f.appsrc)
of_side from_splash f = (f.splash_caps_set, f.appsrc)

abbrev pub with_side : Side → Feed → Sending → Feed
with_side from_input f (set, appsrc) = record f { input_caps_set = set; appsrc = appsrc }
with_side from_splash f (set, appsrc) = record f { splash_caps_set = set; appsrc = appsrc }

unfoldable pub feed : Feed → Call → Feed
feed f c = with_side c.side f (new_sample c.alive c.accepts c.pulled (of_side c.side f)).0

unfoldable pub feeds : Feed → List Call → Feed
feeds f [] = f
feeds f (c ∷ calls) = feeds (feed f c) calls
