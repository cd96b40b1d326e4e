-- ===== src/Relay/Clients.antt =====
-- src/bin/shm2_relayd.rs: the clients that are counted, and the pipelines that play for them. A thread
-- changes the counter and then hands the value it saw to the main loop; another may come between.
use shm2_rs.Base.{
  ℕ, ◌+◌, ◌-◌, ◌<◌, ◌≡◌, refl, List, [], ◌∷◌, ◌++◌, Option, none, some, ltb, if◌then◌else◌, arith,
}
use mathlib.Core.Option

-- The states that the daemon asks of a pipeline.
pub data Playing : Type 0 where
  playing null : Playing

-- `posted`: values whose notification the main loop has not run, the oldest first. `seen`: values that
-- a thread got of the counter and has not handed on. The splash pipeline is optional.
pub record Relay : Type 0 where
  pub count : ℕ
  pub seen : List ℕ
  pub posted : List ℕ
  pub input : Playing
  pub splash : Option Playing

abbrev pub when_some : ℕ → Playing → Playing → Playing
when_some count some_there none_there = if ltb 0 count then some_there else none_there

-- The closure that `notify_client_count` has run.
unfoldable pub notify_client_count : Relay → ℕ → Relay
notify_client_count s current = record s {
  input = when_some current playing null;
  splash = Option.map (λ p. when_some current null playing) s.splash;
}

-- What a thread does that takes a client on, or lets it go, up to its notification.
unfoldable pub client_count_up : Relay → Relay
client_count_up s = record s { count = s.count + 1; seen = (s.count + 1) ∷ s.seen }

unfoldable pub client_count_down : Relay → Relay
client_count_down s = record s { count = s.count - 1; seen = (s.count - 1) ∷ s.seen }

-- The steps of the listener, of the connections and of the main loop. A connection that ends was
-- counted.
pub data Step (s u : Relay) : Type 0 where
  accept : u ≡ client_count_up s → Step s u
  leave : 0 < s.count → u ≡ client_count_down s → Step s u
  invoke :
      (before after : List ℕ) (current : ℕ)
      → s.seen ≡ before ++ current ∷ after
      → u ≡ record s { seen = before ++ after; posted = s.posted ++ current ∷ [] }
      → Step s u
  run :
      (current : ℕ) (later : List ℕ)
      → s.posted ≡ current ∷ later
      → u ≡ notify_client_count (record s { posted = later }) current
      → Step s u

pub data Reach (s : Relay) : Relay → Type 0 where
  here : Reach s s
  next : {t u : Relay} → Reach s t → Step t u → Reach s u

-- Nothing is on its way to the main loop.
abbrev pub Settled : Relay → Type 0
Settled s = (s.seen ≡ []) × (s.posted ≡ [])

abbrev pub opposite : Playing → Playing
opposite playing = null
opposite null = playing

-- The splash, if there is one, plays exactly while the input does not.
abbrev pub Opposed : Relay → Type 0
Opposed s = s.splash ≡ Option.map (λ p. opposite s.input) s.splash

notify-Opposed :
    (count : ℕ) (splash : Option Playing)
    → ◌≡◌ {A = Option Playing} (Option.map (λ p. when_some count null playing) splash) (
        Option.map
          (λ p. opposite (when_some count playing null))
          (Option.map (λ p. when_some count null playing) splash))
notify-Opposed count none = refl
notify-Opposed count (some p) = ground arith

Step-Opposed : (s u : Relay) → Step s u → Opposed s → Opposed u
unfolding client_count_up client_count_down notify_client_count
Step-Opposed s u (accept e) o = rw e o
Step-Opposed s u (leave some_there e) o = rw e o
Step-Opposed s u (invoke before after current mine e) o = rw e o
Step-Opposed s u (run current later mine e) o = rw e (notify-Opposed current s.splash)

-- Whatever clients come and go, in whatever order their notifications are handed on, the input and the
-- splash pipeline never play at once, and one of the two always does.
pub Reach-Opposed : (s u : Relay) → Reach s u → Opposed s → Opposed u
Reach-Opposed s u here o = o
Reach-Opposed s u (next {t} steps st) o = Step-Opposed t u st (Reach-Opposed s t steps o)

-- The value of the one that left, handed on after that of the one that came.
overtaken : Relay → Relay
unfolding notify_client_count
overtaken s =
    notify_client_count
      (record (notify_client_count
        (record s { count = s.count - 1 + 1; seen = []; posted = 0 ∷ [] }) 1) { posted = [] })
      0

overtaking : (s : Relay) → Settled s → s.count ≡ 1 → Reach s (overtaken s)
unfolding overtaken notify_client_count client_count_up client_count_down
overtaking s (no_seen, no_posted) one =
    next
      (next
        (next
          (next (next (next here (leave (omega (arith, one)) refl)) (accept refl))
            (invoke [] (0 ∷ []) 1 (rw (one, no_seen) refl) refl))
          (invoke [] [] 0 refl refl))
        (run 1 (0 ∷ []) (rw no_posted refl) refl))
      (run 0 [] refl refl)

-- The order is not kept: from any settled state with one client, when that client leaves while another
-- comes, the daemon can settle with one client and the input pipeline stopped.
pub Reach-overtaken :
    (s : Relay)
    → Settled s
    → s.count ≡ 1
    → (u : Relay) × Reach s u × Settled u × (u.count ≡ 1) × (u.input ≡ null)
unfolding overtaken notify_client_count
Reach-overtaken s settled one =
    (overtaken s, overtaking s settled one, (refl, refl), omega (arith, one), refl)
