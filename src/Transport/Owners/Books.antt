-- ===== src/Transport/Owners/Books.antt =====
-- src/transport.rs: the ledger of a writer and its region. Who holds a buffer outside the two rings is
-- not in the region: a producer with a lease, a consumer with a descriptor. Those are two lists here.
use shm2_rs.Base.{◌≡◌, refl, ap, List, [], ◌∷◌, ◌++◌}
use shm2_rs.Allocator.{find}
use shm2_rs.Transport.Types.{ReadyDesc, RecycleDesc, AllocLease, ReceivedDesc, Writer}
use shm2_rs.Transport.Queues.{ready_queue, recycle_queue}
use shm2_rs.Transport.Lease.{IsWriter}
use shm2_rs.Transport.Owners.Ledger.{Ticket, Ledger}

abbrev pub ready_ticket : ReadyDesc → Ticket
ready_ticket d = (d.buffer_id, (d.offset, d.length))

abbrev pub recycle_ticket : RecycleDesc → Ticket
recycle_ticket d = (d.buffer_id, (d.offset, d.length))

abbrev pub lease_ticket : AllocLease → Ticket
lease_ticket l = (l.buffer_id, (l.offset, l.len))

abbrev pub received_ticket : ReceivedDesc → Ticket
received_ticket d = (d.buffer_id, (d.offset, d.len))

unfoldable pub ready_tickets : List ReadyDesc → List Ticket
ready_tickets [] = []
ready_tickets (d ∷ ds) = ready_ticket d ∷ ready_tickets ds

unfoldable pub recycle_tickets : List RecycleDesc → List Ticket
recycle_tickets [] = []
recycle_tickets (d ∷ ds) = recycle_ticket d ∷ recycle_tickets ds

pub ready_tickets-append :
    (xs ys : List ReadyDesc) → ready_tickets (xs ++ ys) ≡ ready_tickets xs ++ ready_tickets ys
unfolding ready_tickets
ready_tickets-append [] ys = refl
ready_tickets-append (x ∷ xs) ys = ap (λ ts. ready_ticket x ∷ ts) (ready_tickets-append xs ys)

pub recycle_tickets-append :
    (xs ys : List RecycleDesc)
    → recycle_tickets (xs ++ ys) ≡ recycle_tickets xs ++ recycle_tickets ys
unfolding recycle_tickets
recycle_tickets-append [] ys = refl
recycle_tickets-append (x ∷ xs) ys = ap (λ ts. recycle_ticket x ∷ ts) (recycle_tickets-append xs ys)

-- The ledger of these two queues.
abbrev pub Balanced :
    Writer → List Ticket → List Ticket → List ReadyDesc → List RecycleDesc → Type 0
Balanced w leased held queued returned =
    Ledger (λ j. find j w.allocator.used) leased held (ready_tickets queued)
      (recycle_tickets returned)

-- A well-formed writer in whose books every live buffer has one owner.
pub record IsOwned (w : Writer) (leased held : List Ticket) : Type 0 where
  pub valid : IsWriter w
  pub books : Balanced w leased held (ready_queue w.region) (recycle_queue w.region)
