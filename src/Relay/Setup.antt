-- ===== src/Relay/Setup.antt =====
-- src/bin/shm2_relayd.rs: the pipelines and how they are built. What GStreamer makes of a description is a
-- parameter; the elements themselves are not modelled.
use shm2_rs.Base.{ℕ, Bool, true, false, ◌||◌, Option, none, some}

-- What `parse::launch` has made: whether it is a pipeline or can be added to one, the base time of that
-- pipeline, whether it has an AppSrc named `appsrc` and an unlinked source pad, and whether the AppSink can
-- be added, has its pad and can be linked.
pub record Launched : Type 0 where
  pub is_pipeline : Bool
  pub adds : Bool
  pub old_base_time : ℕ
  pub has_appsrc : Bool
  pub has_src_pad : Bool
  pub adds_sink : Bool
  pub has_sink_pad : Bool
  pub links : Bool

pub data SetupError : Type 0 where
  gst_error : ℕ → SetupError
  not_added appsrc_not_found no_src_pad sink_not_added sink_pad_missing not_linked : SetupError

pub data Built {u} (T : Type u) : Type u where
  failed : SetupError → Built T
  built : T → Built T

infixl 5 ◌>>=◌
abbrev pub ◌>>=◌ {u v} : {T : Type u} {S : Type v} → Built T → (T → Built S) → Built S
failed e >>= next = failed e
built t >>= next = next t

infixl 5 ◌>>◌
abbrev pub ◌>>◌ {v} : {S : Type v} → Built (Unit {0}) → Built S → Built S
checked >> next = checked >>= λ _. next

abbrev require : Bool → SetupError → Built (Unit {0})
require true e = built tt
require false e = failed e

pub data PipelineName : Type 0 where
  own output_name input_name splash_name : PipelineName

abbrev name_of : Launched → PipelineName → PipelineName
name_of l name = elim l.is_pipeline [ true ↦ own | false ↦ name ]

-- The AppSrc of the output pipeline or the AppSink of another, with what is set on it.
pub data App : Type 0 where
  no_app : App
  app_src : (is_live format_is_time stream_type_is_stream block : Bool) → App
  app_sink : (drop : Bool) (max_buffers : ℕ) (sync : Bool) → App

pub record Pipeline : Type 0 where
  pub app : App
  pub name : PipelineName
  pub base_time : ℕ
  pub start_time : Option ℕ

-- `now` is the system clock's reading, if it gives one.
unfoldable pub set_pipeline_time : (now : Option ℕ) → Pipeline → (base_time : Option ℕ) → Pipeline
set_pipeline_time now p (some bt) = record p { base_time = bt; start_time = none }
set_pipeline_time (some t) p none = record p { base_time = t; start_time = none }
set_pipeline_time none p none = record p { start_time = none }

-- The part that both have: parse, and put into a pipeline what is none.
unfoldable pub pipeline_of : Built Launched → PipelineName → Built (Launched × Pipeline)
pipeline_of launched name = do
  l ← launched
  require (l.is_pipeline || l.adds) not_added
  built (
    l,
    record {
      app = no_app;
      name = name_of l name;
      base_time = l.old_base_time;
      start_time = some 0;
    },
  )

unfoldable pub output_pipeline_create : (now : Option ℕ) → Built Launched → Built Pipeline
output_pipeline_create now launched = do
  made ← pipeline_of launched output_name
  require made.0.has_appsrc appsrc_not_found
  built (record (set_pipeline_time now made.1 none) { app = app_src true true true false })

unfoldable pub backend_pipeline_create :
    PipelineName → (now : Option ℕ) → Built Launched → (base_time : Option ℕ) → Built Pipeline
backend_pipeline_create name now launched base_time = do
  made ← pipeline_of launched name
  require made.0.has_src_pad no_src_pad
  require made.0.adds_sink sink_not_added
  require made.0.has_sink_pad sink_pad_missing
  require made.0.links not_linked
  built (record (set_pipeline_time now made.1 base_time) { app = app_sink true 4 false })
