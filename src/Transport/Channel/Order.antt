-- ===== src/Transport/Channel/Order.antt =====
-- src/transport.rs: the frames that come out of a region, against those that went in.
use shm2_rs.Base.{ℕ, zero, suc, sym, List, [], ◌∷◌, ◌++◌, drop}
use mathlib.Core.Path.{subst, subst₂}
use mathlib.Core.List.{Sublist, append-nil, append_assoc}
use mathlib.Core.List.Sublist
use shm2_rs.Transport.Owners.System.{System, Reach, here, next, IsSystem, Reach-IsSystem}
use shm2_rs.Transport.Channel.{
  Frame, Event, idle, making_room, sent, received, received_latest, waiting, event, Moves, sent_by,
  received_by, all_sent, all_received,
}
use shm2_rs.Transport.Channel.Steps.{Step-Moves}

pub sublist-drop {ℓ} : {A : Type ℓ} (n : ℕ) (xs : List A) → Sublist (drop n xs) xs
sublist-drop zero xs = Sublist.refl xs
sublist-drop (suc n) [] = Sublist.refl []
sublist-drop (suc n) (x ∷ xs) = Sublist.cons x (sublist-drop n xs)

sublist-behind {ℓ} : {A : Type ℓ} (xs ys : List A) → Sublist ys (xs ++ ys)
sublist-behind [] ys = Sublist.refl ys
sublist-behind (x ∷ xs) ys = Sublist.cons x (sublist-behind xs ys)

-- One event: what it takes out and what then waits, against what waited and what it puts in.
Moves-sublist :
    (q q' : List Frame) (e : Event) → Moves q e q' → Sublist (received_by e ++ q') (q ++ sent_by e)
unfolding Moves received_by sent_by
Moves-sublist q q' idle m = rw (m, append-nil) (Sublist.refl q)
Moves-sublist q q' making_room (n, m) = rw (m, append-nil) (sublist-drop n q)
Moves-sublist q q' (sent f) m = rw m (Sublist.refl (q ++ f ∷ []))
Moves-sublist q q' (received f) m = rw (m, append-nil) (Sublist.refl (f ∷ q'))
Moves-sublist q q' (received_latest f) (skipped, m, short) =
    rw (m, append-nil) (sublist-behind skipped (f ∷ q'))

-- Two stretches of a run, one behind the other.
pub sublist-join {ℓ} :
    {A : Type ℓ} (out out' q q' q'' came came' : List A)
    → Sublist (out ++ q') (q ++ came)
    → Sublist (out' ++ q'') (q' ++ came')
    → Sublist ((out ++ out') ++ q'') (q ++ (came ++ came'))
sublist-join out out' q q' q'' came came' first second =
    subst₂ Sublist (sym (append_assoc out out' q'')) (append_assoc q came came') (
      Sublist.trans
        (subst (Sublist (out ++ (out' ++ q''))) (sym (append_assoc out q' came'))
          (Sublist.append (Sublist.refl out) second))
        (Sublist.append first (Sublist.refl came')))

-- In every order of the steps of Transport/Owners/System, the frames that consumers receive, followed by
-- those that still wait, are a subsequence of those that waited at first, followed by those published
-- since: each frame comes out at most once, in the order of publication, with the bytes and the
-- presentation time that it was published with. Those steps are leases that do not reset the allocator
-- and hand out an id that is not in use, writes into one's own lease, publications, releases, receives,
-- live receives for whose older frames the recycle ring has room, returns and drains, with counters below
-- 2 ^ 63. A lease that resets the allocator and a reader that attaches are no such steps.
pub Reach-sublist :
    (s u : System) (run : Reach s u)
    → IsSystem s
    → Sublist (all_received s u run ++ waiting u) (waiting s ++ all_sent s u run)
unfolding all_received all_sent
Reach-sublist s u here o = rw append-nil (Sublist.refl (waiting s))
Reach-sublist s u (next {t} run st) o =
    sublist-join (all_received s t run) (received_by (event t u st)) (waiting s) (waiting t)
      (waiting u) (all_sent s t run) (sent_by (event t u st)) (Reach-sublist s t run o)
      (Moves-sublist (waiting t) (waiting u) (event t u st)
        (Step-Moves t u st (Reach-IsSystem s t run o)))
