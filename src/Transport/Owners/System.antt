-- ===== src/Transport/Owners/System.antt =====
-- src/transport.rs: writer, reader and those who hold their buffers, in any order of their operations.
-- Each operation is one step; the loads and stores inside one are not interleaved with those of another.
use shm2_rs.Base.{ℕ, ◌+◌, ◌-◌, ◌^◌, ◌≤◌, ◌<◌, ◌≡◌, true, List, ◌∷◌, none, some, length}
use shm2_rs.Base.Int.{ℤ}
use shm2_rs.Allocator.{Block, find, remove}
use shm2_rs.Platform.{ok}
use shm2_rs.Transport.Types.{Region, Writer, AllocLease, ReceivedDesc}
use shm2_rs.Transport.Timeline.{Clock}
use shm2_rs.Transport.Writer.{alloc_lease, free_lease, copy_to, try_publish_lease, drain_recycles}
use shm2_rs.Transport.Reader.{try_recv_desc, try_recv_latest_desc, try_recycle_desc}
use shm2_rs.Transport.Queues.{ready_queue}
use shm2_rs.Transport.Latest.{free_slots}
use shm2_rs.Transport.Owners.Ledger.{Ticket}
use shm2_rs.Transport.Owners.Books.{IsOwned, lease_ticket, received_ticket}
use shm2_rs.Transport.Owners.Grant.{alloc_lease-IsOwned}
use shm2_rs.Transport.Owners.Moves.{
  write-IsOwned, publish-IsOwned, free_lease-IsOwned, drain_recycles-IsOwned,
}
use shm2_rs.Transport.Owners.Reads.{take-IsOwned, give_back-IsOwned}
use shm2_rs.Transport.Owners.Latest.{take_latest-IsOwned}

-- `leased`: buffers allocated and not yet published. `held`: buffers received and not yet recycled.
pub record System : Type 0 where
  pub writer : Writer
  pub leased : List Ticket
  pub held : List Ticket

abbrev with_region : System → Region → System
with_region s r = record s { writer = record s.writer { region = r } }

-- A lease is taken without a reset of the allocator, which would start a new timeline generation, and
-- the ids do not come round to one in use. A counter stays below 2 ^ 63. The live policy takes a frame
-- while the recycle ring has room for the older ones.
pub data Step (s u : System) : Type 0 where
  lease :
      (size align : ℕ) (w : Writer) (l : AllocLease)
      → size < 2 ^ 32
      → align ≤ 2 ^ 62
      → alloc_lease s.writer size align ≡ some (w, ok l)
      → w.region.hdr.timeline_gen ≡ s.writer.region.hdr.timeline_gen
      → find w.allocator.next_id w.allocator.used ≡ none
      → u ≡ record s { writer = w; leased = lease_ticket l ∷ s.leased }
      → Step s u
  fill :
      (id ptr : ℕ) (payload : List ℕ)
      → find id s.leased ≡ some (ptr, length payload)
      → u
        ≡ with_region s
            (record s.writer.region { arena = copy_to s.writer.region.arena ptr payload })
      → Step s u
  publish :
      (clock : Clock) (l : AllocLease) (pts_ns : ℤ) (w : Writer)
      → find l.buffer_id s.leased ≡ some (l.offset, l.len)
      → s.writer.region.hdr.ready_head + 1 < 2 ^ 63
      → try_publish_lease s.writer clock l pts_ns ≡ some w
      → u ≡ record s { writer = w; leased = remove l.buffer_id s.leased }
      → Step s u
  release :
      (id : ℕ) (b : Block)
      → find id s.leased ≡ some b
      → u ≡ record s { writer = (free_lease s.writer id).0; leased = remove id s.leased }
      → Step s u
  take :
      (r : Region) (d : ReceivedDesc)
      → try_recv_desc s.writer.region ≡ (r, ok (some d))
      → u ≡ record (with_region s r) { held = received_ticket d ∷ s.held }
      → Step s u
  take_latest :
      (r : Region) (d : ReceivedDesc) (dropped : ℕ)
      → length (ready_queue s.writer.region) - 2 ≤ free_slots s.writer.region
      → s.writer.region.hdr.rec_head
          + (s.writer.region.hdr.ready_head - s.writer.region.hdr.ready_tail)
        < 2 ^ 63
      → try_recv_latest_desc s.writer.region ≡ (r, ok (some (d, dropped)))
      → u ≡ record (with_region s r) { held = received_ticket d ∷ s.held }
      → Step s u
  give_back :
      (r : Region) (id offset len status : ℕ)
      → find id s.held ≡ some (offset, len)
      → s.writer.region.hdr.rec_head + 1 < 2 ^ 63
      → try_recycle_desc s.writer.region id offset len status ≡ (r, true)
      → u ≡ record (with_region s r) { held = remove id s.held }
      → Step s u
  drain : (w : Writer) → drain_recycles s.writer ≡ some w → u ≡ record s { writer = w } → Step s u

pub data Reach (s : System) : System → Type 0 where
  here : Reach s s
  next : {t u : System} → Reach s t → Step t u → Reach s u

abbrev pub IsSystem : System → Type 0
IsSystem s = IsOwned s.writer s.leased s.held

pub Step-IsSystem : (s u : System) → Step s u → IsSystem s → IsSystem u
Step-IsSystem s u (lease size align w l p q run gen fresh e) o =
    rw e (alloc_lease-IsOwned s.writer w s.leased s.held size align l o p q run gen fresh)
Step-IsSystem s u (fill id ptr payload mine e) o = rw e (write-IsOwned s.writer s.leased s.held _ o)
Step-IsSystem s u (publish clock l pts_ns w mine far run e) o =
    rw e (publish-IsOwned s.writer w s.leased s.held clock l pts_ns o mine far run)
Step-IsSystem s u (release id b mine e) o =
    rw e (free_lease-IsOwned s.writer s.leased s.held id b o mine)
Step-IsSystem s u (take r d run e) o = rw e (take-IsOwned s.writer r s.leased s.held d o run)
Step-IsSystem s u (take_latest r d dropped room far run e) o =
    rw e (take_latest-IsOwned s.writer r d dropped s.leased s.held o room far run)
Step-IsSystem s u (give_back r id offset len status mine far run e) o =
    rw e (give_back-IsOwned s.writer r s.leased s.held id offset len status o mine far run)
Step-IsSystem s u (drain w run e) o = rw e (drain_recycles-IsOwned s.writer w s.leased s.held o run)

-- In every order of the steps that `Step` allows, each live buffer keeps exactly one owner: a producer, a
-- consumer, the ready ring or the recycle ring, each of which has it once and with its own offset and
-- length. In these steps no buffer is lost and none gets two owners. They are leases that do not reset the
-- allocator and hand out an id that is not in use, writes, publications, releases, receives, live
-- receives for whose older frames the recycle ring has room, returns and drains, with counters below
-- 2 ^ 63. A lease that resets the allocator, a live receive without that room and a reader that attaches
-- lose buffers, and are not among them.
pub Reach-IsSystem : (s u : System) → Reach s u → IsSystem s → IsSystem u
Reach-IsSystem s u here o = o
Reach-IsSystem s u (next {t} run st) o = Step-IsSystem t u st (Reach-IsSystem s t run o)
