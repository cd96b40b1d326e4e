-- ===== src/Transport/Owners/Moves.antt =====
-- src/transport.rs: publishing, releasing and draining keep the books.
use shm2_rs.Base.{some_eq, ℕ, ◌+◌, ◌-◌, ◌^◌, ◌<◌, ◌≡◌, sym, ◌∙◌, List, [], ◌∷◌, some, arith}
use mathlib.Core.Path.{subst}
use native.Mathlib.Decide.{dec_lt}
use shm2_rs.Base.Int.{ℤ}
use shm2_rs.Allocator.{Block, FreeListAllocator, find, remove, free_by_id}
use shm2_rs.Allocator.Free.{find-free_by_id, free_by_id-IsValid, free_by_id-fresh}
use shm2_rs.Transport.Types.{RecycleDesc, Writer, AllocLease}
use shm2_rs.Transport.Timeline.{Clock}
use shm2_rs.Transport.Writer.{free_lease, try_publish_lease, drain_recycles}
use shm2_rs.Transport.Queues.{ready_queue, recycle_queue}
use shm2_rs.Transport.Publish.{Published, try_publish_lease_lem, try_publish_lease-full}
use shm2_rs.Transport.Drain.{free_all, drain_recycles_lem}
use shm2_rs.Transport.Owners.Ledger.{Ticket, Ledger, Ledger-publish, Ledger-release, Ledger-drain}
use shm2_rs.Transport.Owners.Books.{
  IsOwned, ready_tickets, recycle_tickets, ready_tickets-append, recycle_ticket,
}

-- A payload written to the arena is in no book.
pub write-IsOwned :
    (w : Writer) (leased held : List Ticket) (arena : ℕ → ℕ)
    → IsOwned w leased held
    → IsOwned (record w { region = record w.region { arena = arena } }) leased held
unfolding ready_queue recycle_queue
write-IsOwned w leased held arena o = record {
  valid = record {
    region_valid = record {
      ready_ring = o.valid.region_valid.ready_ring;
      recycle_ring = o.valid.region_valid.recycle_ring;
    };
    arena_valid = o.valid.arena_valid;
    fresh = o.valid.fresh;
  };
  books = o.books;
}

-- A publication that goes through.
pub publish-IsOwned :
    (w w' : Writer) (leased held : List Ticket) (clock : Clock) (lease : AllocLease) (pts_ns : ℤ)
    → IsOwned w leased held
    → find lease.buffer_id leased ≡ some (lease.offset, lease.len)
    → w.region.hdr.ready_head + 1 < 2 ^ 63
    → try_publish_lease w clock lease pts_ns ≡ some w'
    → IsOwned w' (remove lease.buffer_id leased) held
unfolding ready_tickets
publish-IsOwned w w' leased held clock lease pts_ns o mine far run =
    elim (dec_lt (w.region.hdr.ready_head - w.region.hdr.ready_tail) w.region.hdr.ready_capacity) [
      | no full ↦ absurd (
          cc (
            run,
            try_publish_lease-full w clock lease pts_ns o.valid.region_valid (omega (arith, full)),
          ))
      | yes room ↦
          let (v, e, p) =
            try_publish_lease_lem w clock lease pts_ns o.valid.region_valid room far in
          subst (λ x. IsOwned x (remove lease.buffer_id leased) held) (some_eq (sym e ∙ run))
            (published v p)
    ]
  where
    published :
        (v : Writer) → Published w lease pts_ns v → IsOwned v (remove lease.buffer_id leased) held
    published v p = record {
      valid = record {
        region_valid = p.region_valid;
        arena_valid = rw (p.same_arena_size, p.same_allocator) o.valid.arena_valid;
        fresh = rw p.same_allocator o.valid.fresh;
      };
      books =
          rw (p.same_allocator, p.queued, p.returned, ready_tickets-append)
            (Ledger-publish (λ j. find j w.allocator.used) leased held
              (ready_tickets (ready_queue w.region)) (recycle_tickets (recycle_queue w.region))
              o.books lease.buffer_id (lease.offset, lease.len) mine);
    }

-- An unpublished lease that is given up.
pub free_lease-IsOwned :
    (w : Writer) (leased held : List Ticket) (id : ℕ) (b : Block)
    → IsOwned w leased held
    → find id leased ≡ some b
    → IsOwned (free_lease w id).0 (remove id leased) held
unfolding free_lease ready_queue recycle_queue
free_lease-IsOwned w leased held id b o mine = record {
  valid = record {
    region_valid = record {
      ready_ring = o.valid.region_valid.ready_ring;
      recycle_ring = o.valid.region_valid.recycle_ring;
    };
    arena_valid = free_by_id-IsValid w.region.hdr.arena_size w.allocator o.valid.arena_valid id;
    fresh = free_by_id-fresh w.allocator id o.valid.fresh;
  };
  books =
      Ledger-release (λ j. find j w.allocator.used) leased held
        (ready_tickets (ready_queue w.region)) (recycle_tickets (recycle_queue w.region)) o.books
        (λ j. find j (free_by_id w.allocator id).0.used) id b mine (find-free_by_id w.allocator id);
}

-- All returned buffers freed, in order.
free_all-Ledger :
    (a : FreeListAllocator) (leased held queued : List Ticket) (returned : List RecycleDesc)
    → Ledger (λ j. find j a.used) leased held queued (recycle_tickets returned)
    → Ledger (λ j. find j (free_all a returned).used) leased held queued []
unfolding free_all recycle_tickets
free_all-Ledger a leased held queued [] l = l
free_all-Ledger a leased held queued (d ∷ returned) l =
    free_all-Ledger (free_by_id a d.buffer_id).0 leased held queued returned (
      Ledger-drain (λ j. find j a.used) (λ j. find j (free_by_id a d.buffer_id).0.used) leased held
        queued (recycle_tickets returned) (recycle_ticket d) l (find-free_by_id a d.buffer_id))

pub drain_recycles-IsOwned :
    (w w' : Writer) (leased held : List Ticket)
    → IsOwned w leased held
    → drain_recycles w ≡ some w'
    → IsOwned w' leased held
unfolding recycle_tickets
drain_recycles-IsOwned w w' leased held o run =
    let (v, e, m) = drain_recycles_lem w o.valid in
    subst (λ x. IsOwned x leased held) (some_eq (sym e ∙ run))
      (record {
        valid = m.valid;
        books =
            rw (m.freed, m.returned, m.queued)
              (free_all-Ledger w.allocator leased held (ready_tickets (ready_queue w.region))
                (recycle_queue w.region) o.books);
      })
