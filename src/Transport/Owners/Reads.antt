-- ===== src/Transport/Owners/Reads.antt =====
-- src/transport.rs: receiving and recycling keep the books.
use shm2_rs.Base.{
  ℕ, ◌+◌, ◌-◌, ◌^◌, ◌<◌, ◌≡◌, refl, ap, sym, ◌∙◌, true, List, [], ◌∷◌, Option, some, sub_u64, leb,
  ◌==◌, Bool-cases, inl, inr, arith,
}
use mathlib.Core.Path.{subst}
use shm2_rs.Allocator.{find, remove}
use shm2_rs.Platform.{Result, ok, err}
use shm2_rs.Transport.Types.{ReadyDesc, Region, Writer, ReceivedDesc}
use shm2_rs.Transport.Reader.{received, after, push_recycle, try_recv_desc, try_recycle_desc}
use shm2_rs.Transport.Queues.{
  IsRegion, ready_queue, recycle_queue, recycle_queue-push_recycle, push_recycle-IsRegion,
}
use shm2_rs.Transport.Receive.{Taken, take_next, try_recv_desc_lem}
use shm2_rs.Transport.Lease.{IsWriter}
use shm2_rs.Transport.Owners.Ledger.{Ticket, Ledger, Ledger-take, Ledger-give_back}
use shm2_rs.Transport.Owners.Books.{
  Balanced, IsOwned, ready_tickets, recycle_tickets, recycle_tickets-append, ready_ticket,
  received_ticket,
}

take_next-some :
    (arena_size : ℕ) (q q' : List ReadyDesc) (d : ReceivedDesc)
    → ◌≡◌ {A = Taken} (take_next arena_size q) (q', ok (some d))
    → (e : ReadyDesc) × (q ≡ e ∷ q') × (d ≡ received e)
unfolding take_next
take_next-some arena_size [] q' d run = absurd (cc)
take_next-some arena_size (e ∷ q) q' d run = (e, ground arith, ground arith)

-- What an operation of the reader leaves: well-formed rings over the same arena.
pub record Read (r r' : Region) : Type 0 where
  pub valid : IsRegion r'
  pub same_size : r'.hdr.arena_size ≡ r.hdr.arena_size
  pub same_arena : r'.arena ≡ r.arena

pub Read-IsWriter :
    (w : Writer) (r' : Region) → IsWriter w → Read w.region r' → IsWriter (record w { region = r' })
Read-IsWriter w r' v m = record {
  region_valid = m.valid;
  arena_valid = rw m.same_size v.arena_valid;
  fresh = v.fresh;
}

after-either {ℓ} :
    (P : Region → Type ℓ) (r r' : Region) (out : Option ReceivedDesc) (checked : Result (Unit {0}))
    → P r
    → P r'
    → P (after r r' out checked).0
unfolding after
after-either P r r' out (ok u) p p' = p'
after-either P r r' out (err e) p p' = p

pub try_recv_desc-Read :
    (r : Region)
    → IsRegion r
    → Read r (try_recv_desc r).0 × (recycle_queue (try_recv_desc r).0 ≡ recycle_queue r)
unfolding try_recv_desc recycle_queue
try_recv_desc-Read r v = elim (Bool-cases (r.hdr.ready_head == r.hdr.ready_tail)) [
  | inl e ↦ rw e (same, refl)
  | inr e ↦ rw e (
      after-either (λ x. Read r x × (recycle_queue x ≡ recycle_queue r)) r _ _ _ (same, refl)
        (
          record {
            valid = record {
              ready_ring = ground (arith, v.ready_ring, e);
              recycle_ring = v.recycle_ring;
            };
            same_size = refl;
            same_arena = refl;
          },
          refl,
        ))
]
  where
    same : Read r r
    same = record { valid = v; same_size = refl; same_arena = refl }

pub taken :
    (w : Writer) (r' : Region) (d : ReceivedDesc)
    → IsWriter w
    → try_recv_desc w.region ≡ (r', ok (some d))
    → (e : ReadyDesc) × (ready_queue w.region ≡ e ∷ ready_queue r') × (d ≡ received e)
taken w r' d v run =
    take_next-some w.region.hdr.arena_size (ready_queue w.region) (ready_queue r') d (
      sym (try_recv_desc_lem w.region v.region_valid (omega (arith, v.arena_valid.small)))
      ∙ ap (λ out. (ready_queue out.0, out.1)) run)

-- A frame that the reader takes.
pub take-IsOwned :
    (w : Writer) (r' : Region) (leased held : List Ticket) (d : ReceivedDesc)
    → IsOwned w leased held
    → try_recv_desc w.region ≡ (r', ok (some d))
    → IsOwned (record w { region = r' }) leased (received_ticket d ∷ held)
unfolding ready_tickets
take-IsOwned w r' leased held d o run = record {
  valid =
      Read-IsWriter w r' o.valid
        (subst (Read w.region) at (try_recv_desc-Read w.region o.valid.region_valid).0);
  books = rw kept (
      subst
        (λ t.
          Ledger (λ j. find j w.allocator.used) leased (t ∷ held) (ready_tickets (ready_queue r'))
            (recycle_tickets (recycle_queue w.region)))
        (ap received_ticket (sym from.2))
        (Ledger-take (λ j. find j w.allocator.used) leased held (ready_tickets (ready_queue r'))
          (recycle_tickets (recycle_queue w.region)) (ready_ticket from.0)
          (subst (λ q. Balanced w leased held q (recycle_queue w.region)) from.1 o.books)));
}
  where
    at : (try_recv_desc w.region).0 ≡ r'
    at = ap (λ out. out.0) run

    kept : recycle_queue r' ≡ recycle_queue w.region
    kept = ap recycle_queue (sym at) ∙ (try_recv_desc-Read w.region o.valid.region_valid).1

    from : (e : ReadyDesc) × (ready_queue w.region ≡ e ∷ ready_queue r') × (d ≡ received e)
    from = taken w r' d o.valid run

pub pushed :
    (r r' : Region) (id offset len status : ℕ)
    → IsRegion r
    → try_recycle_desc r id offset len status ≡ (r', true)
    → (push_recycle r id offset len status ≡ r')
      × (r.hdr.rec_head - r.hdr.rec_tail < r.hdr.rec_capacity)
unfolding try_recycle_desc
pushed r r' id offset len status v run =
    elim (Bool-cases (leb r.hdr.rec_capacity (sub_u64 r.hdr.rec_head r.hdr.rec_tail))) [
      | inl e ↦ absurd (ground (arith, e, run))
      | inr e ↦ (ground (arith, e, run), ground (arith, e, v.recycle_ring))
    ]

pub push_recycle-Read :
    (r : Region) (id offset len status : ℕ)
    → IsRegion r
    → r.hdr.rec_head - r.hdr.rec_tail < r.hdr.rec_capacity
    → r.hdr.rec_head + 1 < 2 ^ 63
    → Read r (push_recycle r id offset len status)
      × (ready_queue (push_recycle r id offset len status) ≡ ready_queue r)
unfolding push_recycle ready_queue
push_recycle-Read r id offset len status v room far = (
  record {
    valid = record {
      ready_ring = v.ready_ring;
      recycle_ring = (push_recycle-IsRegion r v id offset len status room far).recycle_ring;
    };
    same_size = refl;
    same_arena = refl;
  },
  refl,
)

-- A frame that the reader gives back.
pub give_back-IsOwned :
    (w : Writer) (r' : Region) (leased held : List Ticket) (id offset len status : ℕ)
    → IsOwned w leased held
    → find id held ≡ some (offset, len)
    → w.region.hdr.rec_head + 1 < 2 ^ 63
    → try_recycle_desc w.region id offset len status ≡ (r', true)
    → IsOwned (record w { region = r' }) leased (remove id held)
unfolding recycle_tickets
give_back-IsOwned w r' leased held id offset len status o mine far run =
    subst (λ x. IsOwned (record w { region = x }) leased (remove id held)) done.0
      (record {
        valid = Read-IsWriter w _ o.valid m.0;
        books =
            rw
              (
                m.1,
                recycle_queue-push_recycle w.region o.valid.region_valid id offset len status
                    done.1,
                recycle_tickets-append,
              )
              (Ledger-give_back (λ j. find j w.allocator.used) leased held
                (ready_tickets (ready_queue w.region)) (recycle_tickets (recycle_queue w.region))
                o.books id (offset, len) mine);
      })
  where
    done :
        (push_recycle w.region id offset len status ≡ r')
        × (w.region.hdr.rec_head - w.region.hdr.rec_tail < w.region.hdr.rec_capacity)
    done = pushed w.region r' id offset len status o.valid.region_valid run

    m :
        Read w.region (push_recycle w.region id offset len status)
        × (ready_queue (push_recycle w.region id offset len status) ≡ ready_queue w.region)
    m = push_recycle-Read w.region id offset len status o.valid.region_valid done.1 far
