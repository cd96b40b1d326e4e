-- ===== src/Sink/Owners/Sharing.antt =====
-- src/shm2sink.rs, src/transport.rs: a tracker, the upstream elements that have its memories, and the
-- consumers of its writer's region, in any order of their operations.
use shm2_rs.Base.{some_eq, ℕ, ◌+◌, ◌%◌, ◌^◌, ◌≤◌, ◌<◌, ◌≡◌, refl, sym, ◌∙◌, inl, List, none, some}
use mathlib.Core.Path.{subst}
use shm2_rs.Base.Int.{ℤ}
use shm2_rs.Allocator.{find}
use shm2_rs.Transport.Types.{Writer, AllocLease}
use shm2_rs.Transport.Timeline.{Clock}
use shm2_rs.Transport.Writer.{try_publish_lease}
use shm2_rs.Transport.Owners.Ledger.{Ticket}
use shm2_rs.Transport.Owners.Books.{IsOwned}
use shm2_rs.Transport.Owners.System.{System, Reach, Reach-IsSystem}
use shm2_rs.Sink.Tracker.{
  AllocTracker, ShmWritableMemory, alloc_lease_for_upstream, mark_published, drop_memory,
}
use shm2_rs.Sink.Owners.{tickets, IsTracked}
use shm2_rs.Sink.Owners.Lease.{alloc_lease_for_upstream-IsTracked}
use shm2_rs.Sink.Owners.Steps.{release_unpublished-IsTracked, publish-IsTracked, put_back-IsTracked}

-- `held`: buffers received by consumers and not yet recycled.
pub record Sharing : Type 0 where
  pub tracker : AllocTracker
  pub held : List Ticket

abbrev pub of_tracker : Sharing → Writer → List Ticket → System
of_tracker s w held = record { writer = w; leased = tickets s.tracker.pending_by_ptr; held = held }

-- A memory is allocated under the conditions of a lease in Transport/Owners/System, and has a byte or
-- more. To mark a memory and to queue its frame is one step; what consumers do while `publish_lease`
-- waits comes before it, as it does not touch the tracker. `meanwhile` is any run of the other operations
-- there that ends with the leases it began with: a write into a memory, a copied frame, a collection of
-- recycled buffers, a consumer's turn.
pub data Step (s u : Sharing) : Type 0 where
  allocate :
      (size align : ℕ) (w w' : Writer) (l : AllocLease)
      → s.tracker.writer ≡ some w
      → 0 < size % 2 ^ 32
      → align ≤ 2 ^ 62
      → alloc_lease_for_upstream s.tracker size align ≡ some (u.tracker, inl l)
      → u.tracker.writer ≡ some w'
      → w'.region.hdr.timeline_gen ≡ w.region.hdr.timeline_gen
      → find w'.allocator.next_id w'.allocator.used ≡ none
      → u.held ≡ s.held
      → Step s u
  drop : (mem : ShmWritableMemory) → u ≡ record s { tracker = drop_memory s.tracker mem } → Step s u
  publish :
      (ptr len : ℕ) (t : AllocTracker) (l : AllocLease) (clock : Clock) (pts_ns : ℤ) (w w' : Writer)
      → s.tracker.writer ≡ some w
      → mark_published s.tracker ptr len ≡ (t, some l)
      → w.region.hdr.ready_head + 1 < 2 ^ 63
      → try_publish_lease w clock l pts_ns ≡ some w'
      → u ≡ record s { tracker = record t { writer = some w' } }
      → Step s u
  put_back :
      (ptr len : ℕ) (t : AllocTracker)
      → mark_published s.tracker ptr len ≡ (t, none)
      → u ≡ record s { tracker = t }
      → Step s u
  meanwhile :
      (w w' : Writer) (held : List Ticket)
      → s.tracker.writer ≡ some w
      → Reach (of_tracker s w s.held) (of_tracker s w' held)
      → u ≡ record { tracker = record s.tracker { writer = some w' }; held = held }
      → Step s u

pub data Run (s : Sharing) : Sharing → Type 0 where
  here : Run s s
  next : {t u : Sharing} → Run s t → Step t u → Run s u

pub Step-IsTracked :
    (s u : Sharing) → Step s u → IsTracked s.tracker s.held → IsTracked u.tracker u.held
unfolding drop_memory
Step-IsTracked s u (allocate size align w w' l at some_len q run now same fresh kept) k =
    let is : k.w ≡ w = some_eq (sym k.writer ∙ at) in
    subst (IsTracked u.tracker) (sym kept) (
      alloc_lease_for_upstream-IsTracked s.tracker s.held k size align u.tracker w' l some_len q run
        now (rw is same) fresh)
Step-IsTracked s u (drop mem e) k = rw e (release_unpublished-IsTracked s.tracker s.held k mem.ptr)
Step-IsTracked s u (publish ptr len t l clock pts_ns w w' at mark far run e) k =
    let is : k.w ≡ w = some_eq (sym k.writer ∙ at) in
    rw e (
      publish-IsTracked s.tracker s.held k ptr len t l clock pts_ns w' mark (rw is far) (rw is run))
Step-IsTracked s u (put_back ptr len t mark e) k =
    rw e (put_back-IsTracked s.tracker s.held k ptr len t mark)
Step-IsTracked s u (meanwhile w w' held at run e) k =
    let is : k.w ≡ w = some_eq (sym k.writer ∙ at) in
    rw e (record {
      w = w';
      writer = refl;
      owned =
          Reach-IsSystem (of_tracker s w s.held) (of_tracker s w' held) run
            (subst (λ v. IsOwned v _ s.held) is k.owned);
      keyed = k.keyed;
    })

-- From a tracker whose entries are the leases in its writer's books, in every order of the steps that
-- `Step` allows, the entries stay those leases: each is one live buffer with its own offset and length,
-- under its own address, that neither ring nor a consumer has, and every live buffer has exactly one such
-- owner. In these steps upstream elements allocate, drop and publish memories, the sink copies frames and
-- collects recycled buffers, and consumers receive and recycle. An allocation is of a byte or more, does
-- not reset the allocator and hands out an id that is not in use; the other operations are under the
-- conditions of the steps of Transport/Owners/System. An allocation that resets the allocator leaves
-- entries that are not live.
pub Run-IsTracked :
    (s u : Sharing) → Run s u → IsTracked s.tracker s.held → IsTracked u.tracker u.held
Run-IsTracked s u here k = k
Run-IsTracked s u (next {t} run st) k = Step-IsTracked t u st (Run-IsTracked s t run k)
