-- ===== src/Src/Unlock.antt =====
-- src/shm2src.rs: the wake-up of `create` by `unlock`, and what keeps it from that.
use shm2_rs.Base.{
  ℕ, ◌≡◌, refl, ap, true, false, List, [], ◌∷◌, ◌++◌, Option, none, some, inl, inr, ◌⊎◌,
  Option-cases, Bool-cases,
}
use shm2_rs.Transport.Types.{Region}
use shm2_rs.Src.{State, Stamped, flushing, FlowError, unlock}
use shm2_rs.Src.Create.{
  Frame, poll, attempt, wait_reader, until_locked, Round, Fate, returned, blocked, create_loop,
}

attempt-unlocked :
    (s : State) (r : Region) (now_rt : Option ℕ)
    → s.unlocked ≡ true
    → attempt s r now_rt ≡ some (s, r, inr flushing)
unfolding attempt
attempt-unlocked s r now_rt e = rw e refl

-- It returned.
abbrev pub Returns : Fate → Type 0
Returns fate = (out : State × Region × (Frame × Stamped ⊎ FlowError)) × (fate ≡ returned out)

-- At one of the rounds, a drop that has the reader's lock waits for room on the recycle ring, and `create`
-- waits for the lock.
pub record Stuck (rounds : List Round) (fate : Fate) : Type 0 where
  pub state : State
  pub region : Region
  pub before : List Round
  pub at_round : Round
  pub later : List Round
  pub among : rounds ≡ before ++ at_round ∷ later
  pub waits : fate ≡ blocked state region
  pub locked : state.unlocked ≡ false
  pub dropping : wait_reader at_round.ahead region ≡ none

until_locked-none :
    (s : State) (round : Round) (r : Region)
    → until_locked s round.ahead r ≡ none
    → (s.unlocked ≡ false) × (wait_reader round.ahead r ≡ none)
unfolding until_locked
until_locked-none s round r e = elim (Bool-cases s.unlocked) [
  | inl u ↦ absurd (cc)
  | inr u ↦ (u, cc)
]

until_locked-unlocked :
    (s : State) (round : Round) (r : Region)
    → s.unlocked ≡ true
    → until_locked s round.ahead r ≡ some r
unfolding until_locked
until_locked-unlocked s round r e = rw e refl

create_loop-unlocked :
    (round : Round) (s : State) (r : Region) (now_rt : Option ℕ)
    → s.unlocked ≡ true
    → create_loop (round ∷ []) s r now_rt ≡ returned (s, r, inr flushing)
unfolding create_loop
create_loop-unlocked round s r now_rt e =
    rw (create_loop, until_locked-unlocked s round r e, attempt-unlocked s r now_rt e) refl

-- What a round comes to, from what the rounds after it come to.
create_loop-next :
    (round : Round) (rounds : List Round) (s : State) (r : Region) (now_rt : Option ℕ)
    → ((t : State × Region)
        → Returns (create_loop rounds (round.asleep t).0 (round.asleep t).1 now_rt)
          ⊎ Stuck rounds (create_loop rounds (round.asleep t).0 (round.asleep t).1 now_rt))
    → Returns (create_loop (round ∷ rounds) s r now_rt)
      ⊎ Stuck (round ∷ rounds) (create_loop (round ∷ rounds) s r now_rt)
unfolding create_loop
create_loop-next round rounds s r now_rt goes_on =
    elim (Option-cases (until_locked s round.ahead r)) [
      | inl e ↦
          let (locked, dropping) = until_locked-none s round r e in
          inr (record {
            state = s;
            region = r;
            before = [];
            at_round = round;
            later = rounds;
            among = refl;
            waits = rw (create_loop, e) refl;
            locked = locked;
            dropping = dropping;
          })
      | inr (r1, e) ↦ elim (Option-cases (attempt s r1 now_rt)) [
        | inr (out, f) ↦ inl (out, rw (create_loop, e, f) refl)
        | inl f ↦ elim (goes_on (s, (poll s.settings.latest_only r1).0)) [
          | inl (out, g) ↦ inl (out, rw (create_loop, e, f) g)
          | inr k ↦ inr (record {
            state = k.state;
            region = k.region;
            before = round ∷ k.before;
            at_round = k.at_round;
            later = k.later;
            among = ap (λ x. round ∷ x) k.among;
            waits = rw (create_loop, e, f) k.waits;
            locked = k.locked;
            dropping = k.dropping;
          })
        ]
      ]
    ]

-- After an `unlock` in one of its sleeps, the loop of `create` has returned at the latest in the next
-- round, with a frame, with an error, or flushing, whatever the other threads and the writer do. The one
-- exception is that it never comes so far: in one of the rounds up to there, before `unlock`, the drop of a
-- buffer has the reader's lock and finds no room on the recycle ring, and `create` waits for that lock,
-- with the state's mutex in hand.
pub create_loop-unlock :
    (rounds : List Round) (stopping last : Round) (s : State) (r : Region) (now_rt : Option ℕ)
    → stopping.asleep ≡ (λ t. (unlock t.0, t.1))
    → Returns (create_loop (rounds ++ stopping ∷ last ∷ []) s r now_rt)
      ⊎ Stuck
          (rounds ++ stopping ∷ last ∷ [])
          (create_loop (rounds ++ stopping ∷ last ∷ []) s r now_rt)
unfolding unlock
create_loop-unlock [] stopping last s r now_rt unlocks =
    create_loop-next stopping (last ∷ []) s r now_rt (λ t. inl (
      _,
      create_loop-unlocked last (stopping.asleep t).0 (stopping.asleep t).1 now_rt
          (ap (λ act. (act t).0.unlocked) unlocks),
    ))
create_loop-unlock (round ∷ rounds) stopping last s r now_rt unlocks =
    create_loop-next round (rounds ++ stopping ∷ last ∷ []) s r now_rt (λ t.
      create_loop-unlock rounds stopping last (round.asleep t).0 (round.asleep t).1 now_rt unlocks)
