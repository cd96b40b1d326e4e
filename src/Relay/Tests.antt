-- ===== src/Relay/Tests.antt =====
-- src/bin/shm2_relayd.rs: the theorems at concrete arguments, clients and reads.
use shm2_rs.Base.{ℕ, ◌≡◌, ◌⊎◌, refl, inl, inr, arith, List, [], ◌∷◌, ◌++◌, true, false, none, some}
use shm2_rs.Base.Text.{Bytes, codes}
use shm2_rs.Relay.Args.{Flag, input, output, splash, parse_args, requires_value}
use shm2_rs.Relay.Args.Written.{written, flag_text, last_value, asked, parse_args-written}
use shm2_rs.Relay.Lines.{cut_line, hold, concat, bytes_read, Lost, hold-concat}
use shm2_rs.Relay.Samples.{Feed, Call, from_splash, feed, feeds}
use shm2_rs.Relay.Samples.Caps.{sample_of, first_input, feeds-caps}
use shm2_rs.Relay.Setup.{built}
use shm2_rs.Relay.Daemon.{Gst}
use shm2_rs.Relay.Clients.{Relay, playing, null, Reach, Settled, Reach-overtaken}

abbrev pairs : List (Flag × Bytes)
pairs =
    (input, codes "videotestsrc")
    ∷ (output, codes "appsrc name=appsrc ! shm2sink")
    ∷ (input, codes "audiotestsrc")
    ∷ []

parse_args-written_example :
    (parse_args (written pairs) ≡ asked (last_value pairs))
    × (parse_args (written pairs ++ flag_text splash ∷ []) ≡ inr (requires_value splash))
parse_args-written_example = parse_args-written pairs splash

abbrev pending : Bytes
pending = codes "hel"

abbrev second : Bytes
second = 10 ∷ codes "bye"

-- Two reads, the second with a line's end in it, and a read that fails.
abbrev reads : List (Bytes ⊎ ℕ)
reads = inl (codes "lo") ∷ inl second ∷ inr 104 ∷ []

no_line : cut_line pending ≡ none
unfolding cut_line
no_line = refl

hold-concat_example :
    (lost : Bytes) × Lost (hold pending reads).1 lost
    × (concat (hold pending reads).0 ++ lost ≡ pending ++ bytes_read reads)
hold-concat_example = hold-concat pending reads no_line (omega arith)

-- The daemon before its first client, and while it serves one.
abbrev serving : Relay
serving = record { count = 1; seen = []; posted = []; input = playing; splash = some null }

Reach-overtaken_example :
    (u : Relay) × Reach serving u × Settled u × (u.count ≡ 1) × (u.input ≡ null)
Reach-overtaken_example = Reach-overtaken serving (refl, refl) refl

-- The splash has been shown, under the caps 1.
abbrev shown_first : Feed
shown_first = record {
  appsrc = record { caps = some 1; pushed = 10 ∷ [] };
  input_caps_set = false;
  splash_caps_set = true;
}

-- The splash again, after the input's first sample, of caps 2.
abbrev back : List Call
back =
    record {
      side = from_splash;
      alive = true;
      accepts = true;
      pulled = some (sample_of (some 1) (some 11) true);
    }
    ∷ []

feeds-caps_example :
    (feeds (feed shown_first (first_input (some 20) 2 true true)) back).appsrc.caps ≡ some 2
feeds-caps_example = feeds-caps shown_first 2 (some 20) true true back refl refl

abbrev gst : Gst
gst = record {
  init = none;
  launch = λ text. built (record {
    is_pipeline = true;
    adds = false;
    old_base_time = 0;
    has_appsrc = true;
    has_src_pad = true;
    adds_sink = true;
    has_sink_pad = true;
    links = true;
  });
  now = some 77;
  watches = none;
  plays = λ p. none;
}
