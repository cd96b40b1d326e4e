-- ===== src/Transport/Channel/Steps.antt =====
-- src/transport.rs: each operation of writer, reader and producers is a step of the queue of frames.
use shm2_rs.Base.{
  ℕ, suc, ◌+◌, ◌-◌, ◌^◌, ◌≤◌, ◌<◌, ◌≡◌, ◌≢◌, refl, ap, ap₂, sym, ◌∙◌, List, [], ◌∷◌, ◌++◌, Option,
  some, All, drop, zero, length, arith,
}
use mathlib.Core.Path.{subst}
use shm2_rs.Base
use shm2_rs.Platform.{ok}
use shm2_rs.Transport.Latest.{free_slots}
use shm2_rs.Allocator.{Block, find}
use shm2_rs.Transport.Types.{ReadyDesc, Region, Writer, ReceivedDesc}
use shm2_rs.Transport.Writer.{copy_to, free_lease}
use shm2_rs.Transport.Reader.{read_bytes, received, try_recv_desc, try_recv_latest_desc}
use shm2_rs.Transport.Queues.{ready_queue}
use shm2_rs.Transport.Payload.{read_bytes-copy_other}
use shm2_rs.Transport.Owners.Ledger.{IsOf, count, present_le, count-find, find_live}
use shm2_rs.Transport.Owners.Books.{ready_tickets}
use shm2_rs.Transport.Owners.Reads.{taken, try_recv_desc-Read, pushed, push_recycle-Read}
use shm2_rs.Transport.Owners.Latest.{took, try_recv_latest_desc-Read, some_queued}
use shm2_rs.Transport.Owners.Hold.{
  alloc_lease-Granted, try_publish_lease-Published, drain_recycles-Drained, free_lease-arena,
  push_recycle-arena,
}
use shm2_rs.Transport.Owners.System.{
  System, Step, lease, fill, publish, release, take, take_latest, give_back, drain, IsSystem,
}
use shm2_rs.Transport.Channel.{Frame, frames, waiting, event, Moves}

pub frames-append :
    (arena : ℕ → ℕ) (xs ys : List ReadyDesc)
    → frames arena (xs ++ ys) ≡ frames arena xs ++ frames arena ys
unfolding frames
frames-append arena [] ys = refl
frames-append arena (x ∷ xs) ys =
    ap (λ fs. (read_bytes arena x.offset x.length, x.pts_ns) ∷ fs) (frames-append arena xs ys)

pub frames-drop :
    (arena : ℕ → ℕ) (n : ℕ) (xs : List ReadyDesc)
    → frames arena (drop n xs) ≡ drop n (frames arena xs)
unfolding frames
frames-drop arena zero xs = refl
frames-drop arena (suc n) [] = refl
frames-drop arena (suc n) (x ∷ xs) = frames-drop arena n xs

pub length-frames : (arena : ℕ → ℕ) (xs : List ReadyDesc) → length (frames arena xs) ≡ length xs
unfolding frames
length-frames arena [] = refl
length-frames arena (x ∷ xs) = ap suc (length-frames arena xs)

-- What leaves every live buffer but one as it is leaves the queued frames as they are, if that one is
-- not queued.
pub frames_apart :
    (live : ℕ → Option Block) (arena arena' : ℕ → ℕ) (id : ℕ) (q : List ReadyDesc)
    → ((j : ℕ) (b : Block)
        → live j ≡ some b
        → id ≢ j
        → read_bytes arena' b.0 b.1 ≡ read_bytes arena b.0 b.1)
    → All (IsOf live) (ready_tickets q)
    → count id (ready_tickets q) ≡ 0
    → frames arena' q ≡ frames arena q
unfolding frames ready_tickets count
frames_apart live arena arena' id [] others lives apart = refl
frames_apart live arena arena' id (d ∷ q) others (first, lives) apart =
    ap₂ (λ bytes fs. (bytes, d.pts_ns) ∷ fs)
      (others d.buffer_id (d.offset, d.length) first (λ same. ground (arith, apart, same)))
      (frames_apart live arena arena' id q others lives (ground (arith, apart)))

fill-waiting :
    (s : System) (id ptr : ℕ) (payload : List ℕ)
    → IsSystem s
    → find id s.leased ≡ some (ptr, length payload)
    → waiting (record s {
      writer = record s.writer {
        region = record s.writer.region { arena = copy_to s.writer.region.arena ptr payload };
      };
    })
      ≡ waiting s
unfolding waiting ready_queue
fill-waiting s id ptr payload o mine =
    frames_apart (λ k. find k s.writer.allocator.used) s.writer.region.arena
      (copy_to s.writer.region.arena ptr payload) id (ready_queue s.writer.region)
      (λ j b live other.
        read_bytes-copy_other s.writer.region.hdr.arena_size s.writer.allocator
          s.writer.region.arena payload ptr id j b o.valid.arena_valid
          (find_live (λ k. find k s.writer.allocator.used) id s.leased (ptr, length payload)
            o.books.leased_live mine)
          live other)
      o.books.queued_live
      (omega (
        arith,
        o.books.one id,
        present_le (find id s.writer.allocator.used),
        count-find id s.leased (ptr, length payload) mine,
      ))

pub free_lease-queue :
    (w : Writer) (id : ℕ) → ready_queue (free_lease w id).0.region ≡ ready_queue w.region
unfolding free_lease ready_queue
free_lease-queue w id = refl

-- The entries that the live policy passes over.
abbrev older : System → List ReadyDesc
older s = Base.take (length (ready_queue s.writer.region) - 2) (ready_queue s.writer.region)

-- What the reader leaves of a queue of which it took the entry behind the first few.
took-frames :
    (s : System) (r : Region) (d : ReceivedDesc) (e : ReadyDesc) (skipped : List ReadyDesc)
    → r.arena ≡ s.writer.region.arena
    → ready_queue s.writer.region ≡ skipped ++ e ∷ ready_queue r
    → d ≡ received e
    → waiting s
      ≡ frames r.arena skipped
        ++ (read_bytes r.arena d.offset d.len, d.pts_ns) ∷ frames r.arena (ready_queue r)
unfolding waiting frames
took-frames s r d e skipped a q same =
    ap₂ frames (sym a) q
    ∙ frames-append r.arena skipped (e ∷ ready_queue r)
    ∙ ap
        (λ x.
          frames r.arena skipped
          ++ (read_bytes r.arena x.offset x.len, x.pts_ns) ∷ frames r.arena (ready_queue r))
        (sym same)

take-waiting :
    (s : System) (r : Region) (d : ReceivedDesc)
    → IsSystem s
    → try_recv_desc s.writer.region ≡ (r, ok (some d))
    → waiting s ≡ (read_bytes r.arena d.offset d.len, d.pts_ns) ∷ frames r.arena (ready_queue r)
unfolding frames
take-waiting s r d o run =
    let (e, q, same) = taken s.writer r d o.valid run in
    took-frames s r d e []
      (ap (λ out. out.0.arena) (sym run)
        ∙ (try_recv_desc-Read s.writer.region o.valid.region_valid).0.same_arena)
      q same

take_latest-waiting :
    (s : System) (r : Region) (d : ReceivedDesc) (dropped : ℕ)
    → IsSystem s
    → length (ready_queue s.writer.region) - 2 ≤ free_slots s.writer.region
    → s.writer.region.hdr.rec_head
        + (s.writer.region.hdr.ready_head - s.writer.region.hdr.ready_tail)
      < 2 ^ 63
    → try_recv_latest_desc s.writer.region ≡ (r, ok (some (d, dropped)))
    → (skipped : List Frame) × (waiting s
        ≡ skipped ++ (read_bytes r.arena d.offset d.len, d.pts_ns) ∷ frames r.arena (ready_queue r))
      × (length (frames r.arena (ready_queue r)) ≤ 1)
take_latest-waiting s r d dropped o room far run =
    let (e, q, same, short) = took s.writer r d dropped s.leased s.held o room far run in
    (
      frames r.arena (older s),
      took-frames s r d e (older s)
          (ap (λ out. out.0.arena) (sym run)
            ∙ (try_recv_latest_desc-Read s.writer.region o.valid.region_valid
                (omega (arith, o.valid.arena_valid.small))
                (some_queued s.writer r d dropped s.leased s.held o room far run) far).same_arena)
          q same,
      omega (arith, length-frames r.arena (ready_queue r), short),
    )

-- Writer, producers and reader implement the queue of frames: each step of Transport/Owners/System does to
-- it what its event says. A published frame comes in last with the bytes that its lease has then; a
-- consumer gets the oldest frame, with the bytes and the time that it was queued with. Under the live
-- policy it gets one that leaves at most one newer, and passes over all the older ones. An allocation may
-- take the oldest frames out; besides these two, no step takes out a frame that a consumer does not get. A lease that
-- resets the allocator, a live receive for whose older frames the recycle ring has no room, and a reader
-- that attaches, which drops all that waits, are not among these steps.
pub Step-Moves :
    (s u : System) (st : Step s u) → IsSystem s → Moves (waiting s) (event s u st) (waiting u)
unfolding Moves event waiting frames
Step-Moves s u (lease size align w l p q run gen fresh e) o =
    let g = alloc_lease-Granted s.writer w size align l o.valid p q run in
    (
      g.dropped,
      ap waiting e
          ∙ ap₂ frames g.same_bytes g.kept
          ∙ frames-drop s.writer.region.arena g.dropped (ready_queue s.writer.region),
    )
Step-Moves s u (fill id ptr payload mine e) o = ap waiting e ∙ fill-waiting s id ptr payload o mine
Step-Moves s u (publish clock l pts_ns w mine far run e) o =
    let p = try_publish_lease-Published s.writer w clock l pts_ns o.valid.region_valid far run in
    ap waiting e
    ∙ ap₂ frames p.same_arena p.queued
    ∙ frames-append s.writer.region.arena (ready_queue s.writer.region) _
Step-Moves s u (release id b mine e) o =
    ap waiting e ∙ ap₂ frames (free_lease-arena s.writer id) (free_lease-queue s.writer id)
Step-Moves s u (take r d run e) o =
    take-waiting s r d o run
    ∙ ap (λ v. (read_bytes v.writer.region.arena d.offset d.len, d.pts_ns) ∷ waiting v) (sym e)
Step-Moves s u (take_latest r d dropped room far run e) o =
    subst
      (λ v.
        (skipped : List Frame) × (waiting s
          ≡ skipped ++ (read_bytes v.writer.region.arena d.offset d.len, d.pts_ns) ∷ waiting v)
        × (length (waiting v) ≤ 1))
      (sym e) (take_latest-waiting s r d dropped o room far run)
Step-Moves s u (give_back r id offset len status mine far run e) o =
    let done = pushed s.writer.region r id offset len status o.valid.region_valid run in
    ap waiting e
    ∙ ap₂ frames
        (ap (λ x. x.arena) (sym done.0) ∙ push_recycle-arena s.writer.region id offset len status)
        (ap ready_queue (sym done.0)
          ∙ (push_recycle-Read s.writer.region id offset len status o.valid.region_valid done.1
              far).1)
Step-Moves s u (drain w run e) o =
    let m = drain_recycles-Drained s.writer w o.valid run in
    ap waiting e ∙ ap₂ frames m.same_bytes m.queued
