-- ===== src/Relay/Samples/Caps.antt =====
-- src/bin/shm2_relayd.rs: what the two pipelines push to the AppSrc, and under which caps.
use shm2_rs.Base.{
  ℕ, ◌≡◌, refl, ap, sym, ◌∙◌, Bool, true, false, List, [], ◌∷◌, ◌++◌, Option, none, some, arith,
}
use mathlib.Core.List.{append-nil, append_assoc}
use shm2_rs.Relay.Samples.{
  Sample, AppSrc, Sending, set_caps_once, send_buffer, new_sample, Side, from_input, from_splash,
  Feed, Call, of_side, with_side, feed, feeds,
}

-- The buffer that a call delivers, if it does.
abbrev copied : (copies : Bool) → Option ℕ → List ℕ
copied true (some b) = b ∷ []
copied true none = []
copied false buffer = []

abbrev sent : (alive accepts : Bool) → Option Sample → List ℕ
sent true true (some sample) = copied sample.copies sample.buffer
sent true true none = []
sent true false pulled = []
sent false accepts pulled = []

abbrev pub delivered : List Call → List ℕ
delivered [] = []
delivered (c ∷ calls) = sent c.alive c.accepts c.pulled ++ delivered calls

set_caps_once-pushed : (c : Option ℕ) (st : Sending) → (set_caps_once c st).1.pushed ≡ st.1.pushed
set_caps_once-pushed none st = refl
set_caps_once-pushed (some c) (true, a) = refl
set_caps_once-pushed (some c) (false, a) = refl

abbrev pub sample_of : (c : Option ℕ) → Option ℕ → Bool → Sample
sample_of c buffer copies = record { caps = c; buffer = buffer; copies = copies }

send_buffer-pushed :
    (accepts copies : Bool) (buffer c : Option ℕ) (st : Sending)
    → (send_buffer accepts copies buffer (set_caps_once c st)).0.1.pushed
      ≡ st.1.pushed ++ sent true accepts (some (sample_of c buffer copies))
send_buffer-pushed true true (some b) c st = ap (λ l. l ++ b ∷ []) (set_caps_once-pushed c st)
send_buffer-pushed true true none c st = set_caps_once-pushed c st ∙ sym (append-nil st.1.pushed)
send_buffer-pushed true false none c st = set_caps_once-pushed c st ∙ sym (append-nil st.1.pushed)
send_buffer-pushed true false (some b) c st =
    set_caps_once-pushed c st ∙ sym (append-nil st.1.pushed)
send_buffer-pushed false true none c st = set_caps_once-pushed c st ∙ sym (append-nil st.1.pushed)
send_buffer-pushed false true (some b) c st =
    set_caps_once-pushed c st ∙ sym (append-nil st.1.pushed)
send_buffer-pushed false false none c st = set_caps_once-pushed c st ∙ sym (append-nil st.1.pushed)
send_buffer-pushed false false (some b) c st =
    set_caps_once-pushed c st ∙ sym (append-nil st.1.pushed)

new_sample-pushed :
    (alive accepts : Bool) (pulled : Option Sample) (st : Sending)
    → (new_sample alive accepts pulled st).0.1.pushed ≡ st.1.pushed ++ sent alive accepts pulled
unfolding new_sample
new_sample-pushed false accepts pulled (set, a) = sym (append-nil a.pushed)
new_sample-pushed true true none (set, a) = sym (append-nil a.pushed)
new_sample-pushed true false none (set, a) = sym (append-nil a.pushed)
new_sample-pushed true accepts (some s) st = send_buffer-pushed accepts s.copies s.buffer s.caps st

-- A pipeline that has set its caps sets none again.
new_sample-set :
    (alive accepts : Bool) (pulled : Option Sample) (a : AppSrc)
    → ((new_sample alive accepts pulled (true, a)).0.0 ≡ true)
      × ((new_sample alive accepts pulled (true, a)).0.1.caps ≡ a.caps)
unfolding new_sample
new_sample-set alive accepts pulled a = ground arith

feed-pushed :
    (f : Feed) (c : Call)
    → (feed f c).appsrc.pushed ≡ f.appsrc.pushed ++ sent c.alive c.accepts c.pulled
unfolding feed
feed-pushed f c = on_side c.side
  where
    on_side :
        (side : Side)
        → (with_side side f
            (new_sample c.alive c.accepts c.pulled (of_side side f)).0).appsrc.pushed
          ≡ f.appsrc.pushed ++ sent c.alive c.accepts c.pulled
    on_side from_input = new_sample-pushed c.alive c.accepts c.pulled (f.input_caps_set, f.appsrc)
    on_side from_splash = new_sample-pushed c.alive c.accepts c.pulled (f.splash_caps_set, f.appsrc)

-- Both pipelines have set their caps, the last of them `caps`.
record Fixed (caps : Option ℕ) (f : Feed) : Type 0 where
  input_set : f.input_caps_set ≡ true
  splash_set : f.splash_caps_set ≡ true
  same : f.appsrc.caps ≡ caps

feed-Fixed : (caps : Option ℕ) (f : Feed) (c : Call) → Fixed caps f → Fixed caps (feed f c)
unfolding feed
feed-Fixed caps f c x = on_side c.side
  where
    on_side :
        (side : Side)
        → Fixed caps (with_side side f (new_sample c.alive c.accepts c.pulled (of_side side f)).0)
    on_side from_input =
        let k = new_sample-set c.alive c.accepts c.pulled f.appsrc in
        rw x.input_set (record { input_set = k.0; splash_set = x.splash_set; same = k.1 ∙ x.same })
    on_side from_splash =
        let k = new_sample-set c.alive c.accepts c.pulled f.appsrc in
        rw x.splash_set (record { input_set = x.input_set; splash_set = k.0; same = k.1 ∙ x.same })

feeds-Fixed :
    (caps : Option ℕ) (f : Feed) (calls : List Call) → Fixed caps f → Fixed caps (feeds f calls)
unfolding feeds
feeds-Fixed caps f [] x = x
feeds-Fixed caps f (c ∷ calls) x = feeds-Fixed caps (feed f c) calls (feed-Fixed caps f c x)

-- Whatever the two pipelines deliver, in whatever order they take turns: each buffer that was pulled, copied
-- and accepted is pushed to the AppSrc once, in the order of the calls, and no other.
pub feeds-pushed :
    (f : Feed) (calls : List Call)
    → (feeds f calls).appsrc.pushed ≡ f.appsrc.pushed ++ delivered calls
unfolding feeds
feeds-pushed f [] = sym (append-nil f.appsrc.pushed)
feeds-pushed f (c ∷ calls) =
    feeds-pushed (feed f c) calls
    ∙ ap (λ l. l ++ delivered calls) (feed-pushed f c)
    ∙ append_assoc f.appsrc.pushed (sent c.alive c.accepts c.pulled) (delivered calls)

abbrev pub first_input : Option ℕ → ℕ → Bool → Bool → Call
first_input buffer caps copies accepts = record {
  side = from_input;
  alive = true;
  accepts = accepts;
  pulled = some (sample_of (some caps) buffer copies);
}

send_buffer-caps :
    (accepts copies : Bool) (buffer : Option ℕ) (a : AppSrc)
    → ((send_buffer accepts copies buffer (true, a)).0.0 ≡ true)
      × ((send_buffer accepts copies buffer (true, a)).0.1.caps ≡ a.caps)
send_buffer-caps accepts copies buffer a = ground arith

input_sets :
    (f : Feed) (caps : ℕ) (buffer : Option ℕ) (copies accepts : Bool)
    → f.input_caps_set ≡ false
    → f.splash_caps_set ≡ true
    → Fixed (some caps) (feed f (first_input buffer caps copies accepts))
unfolding feed new_sample
input_sets f caps buffer copies accepts fresh shown =
    let k = send_buffer-caps accepts copies buffer (record f.appsrc { caps = some caps }) in
    rw fresh (record { input_set = k.0; splash_set = shown; same = k.1 })

-- Once the splash pipeline has set the caps of the AppSrc and the input pipeline then sets its own, with its
-- first sample that has any, these stay for good: whatever is pushed afterwards, by the splash pipeline too,
-- is pushed under the input's caps.
pub feeds-caps :
    (f : Feed) (caps : ℕ) (buffer : Option ℕ) (copies accepts : Bool) (calls : List Call)
    → f.input_caps_set ≡ false
    → f.splash_caps_set ≡ true
    → (feeds (feed f (first_input buffer caps copies accepts)) calls).appsrc.caps ≡ some caps
feeds-caps f caps buffer copies accepts calls fresh shown =
    (feeds-Fixed (some caps) (feed f (first_input buffer caps copies accepts)) calls
      (input_sets f caps buffer copies accepts fresh shown)).same
