-- ===== src/Sink/Owners/Delivery.antt =====
-- src/shm2sink.rs, src/transport.rs: what the sink publishes, against what consumers receive.
use shm2_rs.Base.{some_eq, ℕ, ◌%◌, ◌^◌, ◌≡◌, ap, ap₂, sym, ◌∙◌, List, [], ◌∷◌, ◌++◌, some}
use mathlib.Core.Path.{subst}
use mathlib.Core.List.{Sublist, append-nil}
use mathlib.Core.List.Sublist
use shm2_rs.Transport.Reader.{read_bytes}
use shm2_rs.Base.Int.{ℤ}
use shm2_rs.Transport.Types.{Writer, AllocLease}
use shm2_rs.Transport.Publish.{Published}
use shm2_rs.Transport.Lease.{Granted}
use shm2_rs.Transport.Owners.Books.{IsOwned}
use shm2_rs.Transport.Queues.{IsRegion, ready_queue}
use shm2_rs.Transport.Owners.Hold.{try_publish_lease-Published}
use shm2_rs.Transport.Channel.{Frame, frames, waiting, all_sent, all_received}
use shm2_rs.Transport.Channel.Steps.{frames-append, frames-drop}
use shm2_rs.Transport.Channel.Order.{sublist-drop, sublist-join, Reach-sublist}
use shm2_rs.Sink.Tracker.{drop_memory}
use shm2_rs.Sink.Owners.{tickets, IsTracked}
use shm2_rs.Sink.Owners.Lease.{alloc_lease_for_upstream-Granted}
use shm2_rs.Sink.Owners.Steps.{
  on_ring, mark_published-memory, put_back-writer, release_unpublished-on_ring,
}
use shm2_rs.Sink.Owners.Sharing.{
  Sharing, of_tracker, Step, allocate, drop as drop_mem, publish, put_back, meanwhile, Run, here,
  next, Run-IsTracked,
}

-- The frames of a step: the memory that is published, as it is then, and what is copied meanwhile.
unfoldable pub sent_in : (s u : Sharing) → Step s u → List Frame
sent_in s u (allocate size align w w' l at some_len q run now same fresh kept) = []
sent_in s u (drop_mem mem e) = []
sent_in s u (publish ptr len t l clock pts_ns w w' at mark far run e) =
    (read_bytes w.region.arena ptr len, pts_ns) ∷ []
sent_in s u (put_back ptr len t mark e) = []
sent_in s u (meanwhile w w' held at run e) =
    all_sent (of_tracker s w s.held) (of_tracker s w' held) run

unfoldable pub received_in : (s u : Sharing) → Step s u → List Frame
received_in s u (meanwhile w w' held at run e) =
    all_received (of_tracker s w s.held) (of_tracker s w' held) run
received_in s u _ = []

unfoldable pub sink_sent : (s u : Sharing) → Run s u → List Frame
sink_sent s u here = []
sink_sent s u (next {t} run st) = sink_sent s t run ++ sent_in t u st

unfoldable pub sink_received : (s u : Sharing) → Run s u → List Frame
sink_received s u here = []
sink_received s u (next {t} run st) = sink_received s t run ++ received_in t u st

unchanged {ℓ} : {A : Type ℓ} (p q : List A) → q ≡ p → Sublist ([] ++ q) (p ++ [])
unchanged p q e = rw (e, append-nil) (Sublist.refl p)

ring-Granted :
    (w w' : Writer) (size align : ℕ) (l : AllocLease)
    → Granted w size align w' l
    → Sublist (on_ring (some w')) (on_ring (some w) ++ [])
ring-Granted w w' size align l g =
    rw
      (
        append-nil,
        ap₂ frames g.same_bytes g.kept
            ∙ frames-drop w.region.arena g.dropped (ready_queue w.region),
      )
      (sublist-drop g.dropped (on_ring (some w)))

ring-Published :
    (w w' : Writer) (ptr len : ℕ) (l : AllocLease) (pts_ns : ℤ)
    → Published w l pts_ns w'
    → (ptr ≡ l.offset) × (len ≡ l.len)
    → on_ring (some w') ≡ on_ring (some w) ++ (read_bytes w.region.arena ptr len, pts_ns) ∷ []
unfolding frames
ring-Published w w' ptr len l pts_ns p memory =
    ap₂ frames p.same_arena p.queued
    ∙ frames-append w.region.arena (ready_queue w.region) _
    ∙ ap₂ (λ x y. on_ring (some w) ++ (read_bytes w.region.arena x y, pts_ns) ∷ []) (sym memory.0)
        (sym memory.1)

Step-sublist :
    (s u : Sharing) (st : Step s u)
    → IsTracked s.tracker s.held
    → Sublist
        (received_in s u st ++ on_ring u.tracker.writer)
        (on_ring s.tracker.writer ++ sent_in s u st)
unfolding sent_in received_in drop_memory waiting
Step-sublist s u (allocate size align w w' l at some_len q run now same fresh kept) k =
    let is : k.w ≡ w = some_eq (sym k.writer ∙ at) in
    let (l', g) =
      alloc_lease_for_upstream-Granted s.tracker s.held k size align u.tracker w' l some_len q run
        now (rw is same) fresh in
    rw (now, at)
      (ring-Granted w w' (size % 2 ^ 32) align l'
        (subst (λ x. Granted x (size % 2 ^ 32) align w' l') is g))
Step-sublist s u (drop_mem mem e) k =
    unchanged (on_ring s.tracker.writer) (on_ring u.tracker.writer) (
      ap (λ x. on_ring x.tracker.writer) e ∙ release_unpublished-on_ring s.tracker s.held k mem.ptr)
Step-sublist s u (publish ptr len t l clock pts_ns w w' at mark far run e) k =
    let is : k.w ≡ w = some_eq (sym k.writer ∙ at) in
    rw
      (
        ap (λ x. x.tracker.writer) e,
        at,
        ring-Published w w' ptr len l pts_ns
            (try_publish_lease-Published w w' clock l pts_ns
              (subst (λ x. IsRegion x.region) is k.owned.valid.region_valid) far run)
            (mark_published-memory s.tracker s.held k ptr len t l mark),
      )
      (Sublist.refl (on_ring (some w) ++ (read_bytes w.region.arena ptr len, pts_ns) ∷ []))
Step-sublist s u (put_back ptr len t mark e) k =
    unchanged (on_ring s.tracker.writer) (on_ring u.tracker.writer) (
      ap (λ x. on_ring x.tracker.writer) e
      ∙ ap on_ring (put_back-writer s.tracker s.held k ptr len t mark))
Step-sublist s u (meanwhile w w' held at run e) k =
    let is : k.w ≡ w = some_eq (sym k.writer ∙ at) in
    rw (ap (λ x. x.tracker.writer) e, at)
      (Reach-sublist (of_tracker s w s.held) (of_tracker s w' held) run
        (subst (λ v. IsOwned v (tickets s.tracker.pending_by_ptr) s.held) is k.owned))

-- In every order of the operations of Sink/Owners/Sharing, the frames that consumers receive, followed by
-- those that still wait, are a subsequence of those that waited at first, followed by those that the sink
-- published since: a memory of an upstream element comes out at most once, in the order of publication,
-- with the bytes that the memory had when it was published, and with its presentation time.
pub Run-sublist :
    (s u : Sharing) (run : Run s u)
    → IsTracked s.tracker s.held
    → Sublist
        (sink_received s u run ++ on_ring u.tracker.writer)
        (on_ring s.tracker.writer ++ sink_sent s u run)
unfolding sink_received sink_sent
Run-sublist s u here k = rw append-nil (Sublist.refl (on_ring s.tracker.writer))
Run-sublist s u (next {t} run st) k =
    sublist-join (sink_received s t run) (received_in t u st) (on_ring s.tracker.writer)
      (on_ring t.tracker.writer) (on_ring u.tracker.writer) (sink_sent s t run) (sent_in t u st)
      (Run-sublist s t run k) (Step-sublist t u st (Run-IsTracked s t run k))
