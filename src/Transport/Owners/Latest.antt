-- ===== src/Transport/Owners/Latest.antt =====
-- src/transport.rs: `try_recv_latest_desc` keeps the books while the recycle ring has room.
use shm2_rs.Base.{
  ℕ, zero, suc, ◌+◌, ◌-◌, ◌^◌, ◌≤◌, ◌<◌, ◌≡◌, refl, ap, sym, ◌∙◌, max, List, [], ◌∷◌, ◌++◌, Option,
  some, add_u64, get_or, take, drop, length, length-drop, arith,
}
use mathlib.Core.Path.{subst}
use mathlib.Core.List.{append-nil, append_assoc}
use shm2_rs.Allocator.{Block, find}
use shm2_rs.Platform.{Result, ok, err}
use shm2_rs.Transport.Types.{ReadyDesc, RecycleDesc, Region, Writer, ReceivedDesc}
use shm2_rs.Transport.Timeline.{with_hdr}
use shm2_rs.Transport.Writer.{zero_ready}
use shm2_rs.Transport.Reader.{received, hand_out, deliver, try_recv_latest_desc}
use shm2_rs.Transport.Queues.{IsRegion, ready_queue, recycle_queue, length-ready_queue}
use shm2_rs.Transport.Latest.{free_slots, returns}
use shm2_rs.Transport.Live.{View, view, take_latest, behind}
use shm2_rs.Transport.Live.Steps.{some-Steps}
use shm2_rs.Transport.Live.Newest.{try_recv_latest_desc_lem}
use shm2_rs.Transport.Owners.Ledger.{Ticket, Ledger, Ledger-take, Ledger-skip}
use shm2_rs.Transport.Owners.Books.{
  IsOwned, ready_tickets, recycle_tickets, recycle_tickets-append, ready_ticket, received_ticket,
}
use shm2_rs.Transport.Owners.Reads.{Read, Read-IsWriter}

split_at {ℓ} :
    {A : Type ℓ} (q : List A) (n : ℕ) (d : A)
    → n < length q
    → q ≡ take n q ++ get_or q n d ∷ drop (suc n) q
split_at [] n d h = absurd (omega arith)
split_at (x ∷ q) zero d h = refl
split_at (x ∷ q) (suc n) d h = ap (λ t. x ∷ t) (split_at q n d (omega arith))

module _ (live : ℕ → Option Block) (leased held : List Ticket) where
  -- The frames passed over go to the recycle ring.
  Ledger-skip_all :
      (head : ℕ) (skipped rest : List ReadyDesc) (returned : List Ticket)
      → Ledger live leased held (ready_tickets (skipped ++ rest)) returned
      → Ledger live leased held
          (ready_tickets rest)
          (returned ++ recycle_tickets (returns head skipped))
  unfolding ready_tickets recycle_tickets returns
  Ledger-skip_all head [] rest returned l = rw append-nil l
  Ledger-skip_all head (d ∷ skipped) rest returned l =
      subst (Ledger live leased held (ready_tickets rest))
        (append_assoc returned (ready_ticket d ∷ [])
          (recycle_tickets (returns (add_u64 head 1) skipped)))
        (Ledger-skip_all (add_u64 head 1) skipped rest (returned ++ ready_ticket d ∷ []) (
          Ledger-skip live leased held (ready_tickets (skipped ++ rest)) returned (ready_ticket d)
            l))

  -- All but the last two are passed over, and the last but one is taken.
  Ledger-latest :
      (head : ℕ) (queue : List ReadyDesc) (returned : List Ticket)
      → 0 < length queue
      → Ledger live leased held (ready_tickets queue) returned
      → Ledger live leased
          (ready_ticket (get_or queue (length queue - 2) zero_ready) ∷ held)
          (ready_tickets (drop (max 1 (length queue - 1)) queue))
          (returned ++ recycle_tickets (returns head (take (length queue - 2) queue)))
  unfolding ready_tickets
  Ledger-latest head queue returned some_queued l =
      subst
        (λ n.
          Ledger live leased (ready_ticket (get_or queue (length queue - 2) zero_ready) ∷ held)
            (ready_tickets (drop n queue))
            (returned ++ recycle_tickets (returns head (take (length queue - 2) queue))))
        {x = suc (length queue - 2)} (omega (arith, some_queued))
        (Ledger-take live leased held (ready_tickets (drop (suc (length queue - 2)) queue)) _
          (ready_ticket (get_or queue (length queue - 2) zero_ready))
          (Ledger-skip_all head (take (length queue - 2) queue) _ returned (
            subst (λ q. Ledger live leased held (ready_tickets q) returned)
              (split_at queue (length queue - 2) zero_ready (omega (arith, some_queued))) l)))

-- What `take_latest` says of a call that returns a frame.
take_latest-some :
    (arena_size room head : ℕ) (queue queue' : List ReadyDesc) (back : List RecycleDesc)
    (d : ReceivedDesc) (n : ℕ)
    → length queue - 2 ≤ room
    → ◌≡◌ {A = View} (take_latest arena_size room head queue) (queue', back, ok (some (d, n)))
    → (0 < length queue)
      × (queue' ≡ drop (max 1 (length queue - 1)) queue)
      × (back ≡ returns head (take (length queue - 2) queue))
      × (d ≡ received (get_or queue (length queue - 2) zero_ready))
unfolding take_latest
take_latest-some arena_size room head queue queue' back d n enough e =
    (ground arith, ground arith, ground arith, ground arith)

deliver-either {ℓ} :
    (P : Region → Type ℓ) (r : Region) (new_tail : ℕ) (out : ReceivedDesc × ℕ)
    (checked : Result (Unit {0}))
    → P r
    → P (with_hdr r (record r.hdr { ready_tail = new_tail }))
    → P (deliver r new_tail out checked).0
unfolding deliver
deliver-either P r new_tail out (ok u) p p' = p'
deliver-either P r new_tail out (err e) p p' = p

hand_out-Read :
    (r : Region) (older : Region × ℕ) (chosen new_tail : ℕ)
    → Read r older.0
    → older.0.hdr.ready_tail ≤ new_tail
    → new_tail ≤ older.0.hdr.ready_head
    → Read r (hand_out older chosen new_tail).0
unfolding hand_out
hand_out-Read r (o, n) chosen new_tail m lo hi = deliver-either (Read r) o new_tail _ _ m (record {
  valid = record {
    ready_ring = ground (arith, m.valid.ready_ring, lo, hi);
    recycle_ring = m.valid.recycle_ring;
  };
  same_size = m.same_size;
  same_arena = m.same_arena;
})

pub try_recv_latest_desc-Read :
    (r : Region)
    → IsRegion r
    → r.hdr.arena_size < 2 ^ 64
    → r.hdr.ready_tail < r.hdr.ready_head
    → r.hdr.rec_head + (r.hdr.ready_head - r.hdr.ready_tail) < 2 ^ 63
    → Read r (try_recv_latest_desc r).0
try_recv_latest_desc-Read r v small lt far =
    let st = some-Steps r v small lt far in
    rw st.runs (
      hand_out-Read r st.older st.chosen st.new_tail
        (record {
          valid = st.dropped.valid;
          same_size = ap (λ h. h.arena_size) st.dropped.same_hdr;
          same_arena = st.dropped.same_arena;
        })
        (omega (arith, ap (λ h. h.ready_tail) st.dropped.same_hdr, st.tail_at))
        (omega (arith, ap (λ h. h.ready_head) st.dropped.same_hdr, st.tail_at, lt)))

module _ (w : Writer) (r' : Region) (d : ReceivedDesc) (dropped : ℕ) (leased held : List Ticket)
    (o : IsOwned w leased held) (enough : length (ready_queue w.region) - 2 ≤ free_slots w.region)
    (far : w.region.hdr.rec_head + (w.region.hdr.ready_head - w.region.hdr.ready_tail) < 2 ^ 63)
    (run : try_recv_latest_desc w.region ≡ (r', ok (some (d, dropped)))) where
  small : w.region.hdr.arena_size < 2 ^ 64
  small = omega (arith, o.valid.arena_valid.small)

  abbrev shown : View
  shown =
      take_latest w.region.hdr.arena_size (free_slots w.region) w.region.hdr.rec_head
        (ready_queue w.region)

  seen : view (try_recv_latest_desc w.region) ≡ behind (recycle_queue w.region) shown
  seen = try_recv_latest_desc_lem w.region o.valid.region_valid small far

  facts :
      (0 < length (ready_queue w.region))
      × (shown.0 ≡ drop (max 1 (length (ready_queue w.region) - 1)) (ready_queue w.region))
      × (shown.1
          ≡ returns w.region.hdr.rec_head
              (take (length (ready_queue w.region) - 2) (ready_queue w.region)))
      × (d
          ≡ received (get_or (ready_queue w.region) (length (ready_queue w.region) - 2) zero_ready))
  facts =
      take_latest-some w.region.hdr.arena_size (free_slots w.region) w.region.hdr.rec_head
        (ready_queue w.region) shown.0 shown.1 d dropped enough
        (ap (λ res. (shown.0, shown.1, res)) (sym (ap (λ x. x.2) seen) ∙ ap (λ out. out.1) run))

  pub some_queued : w.region.hdr.ready_tail < w.region.hdr.ready_head
  some_queued = omega (arith, facts.0, length-ready_queue w.region)

  left : ready_queue r' ≡ drop (suc (length (ready_queue w.region) - 2)) (ready_queue w.region)
  left =
      ap (λ out. ready_queue out.0) (sym run)
      ∙ ap (λ x. x.0) seen
      ∙ facts.1
      ∙ ap (λ n. drop n (ready_queue w.region)) {y = suc (length (ready_queue w.region) - 2)}
          (omega (arith, facts.0))

  -- The frames passed over, the one taken, and at most one that stays.
  pub took :
      (e : ReadyDesc) × (ready_queue w.region
        ≡ take (length (ready_queue w.region) - 2) (ready_queue w.region) ++ e ∷ ready_queue r')
      × (d ≡ received e)
      × (length (ready_queue r') ≤ 1)
  took = (
    get_or (ready_queue w.region) (length (ready_queue w.region) - 2) zero_ready,
    split_at (ready_queue w.region) (length (ready_queue w.region) - 2) zero_ready
          (omega (arith, facts.0))
        ∙ ap
            (λ q.
              take (length (ready_queue w.region) - 2) (ready_queue w.region)
              ++ get_or (ready_queue w.region) (length (ready_queue w.region) - 2) zero_ready ∷ q)
            (sym left),
    facts.3,
    omega (
      arith,
      ap length left,
      length-drop (suc (length (ready_queue w.region) - 2)) (ready_queue w.region),
    ),
  )

  -- The frame that the live policy takes, while the recycle ring has room for all older ones.
  pub take_latest-IsOwned : IsOwned (record w { region = r' }) leased (received_ticket d ∷ held)
  take_latest-IsOwned = record {
    valid = Read-IsWriter w r' o.valid (
        subst (Read w.region) (ap (λ out. out.0) run)
          (try_recv_latest_desc-Read w.region o.valid.region_valid small some_queued far));
    books =
        rw
          (
            ← ap (λ out. ready_queue out.0) run,
            ← ap (λ out. recycle_queue out.0) run,
            ap (λ x. x.0) seen,
            ap (λ x. x.1) seen,
            recycle_tickets-append,
            facts.1,
            facts.2,
            facts.3,
          )
          (Ledger-latest (λ j. find j w.allocator.used) leased held w.region.hdr.rec_head
            (ready_queue w.region) (recycle_tickets (recycle_queue w.region)) facts.0 o.books);
  }
