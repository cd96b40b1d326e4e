-- ===== src/Sink/Owners/Steps.antt =====
-- src/shm2sink.rs, src/transport.rs: `release_unpublished` and `mark_published` on the writer's books.
use shm2_rs.Base.{
  ℕ, ◌+◌, ◌^◌, ◌<◌, ◌≡◌, refl, ap, ap₂, sym, ◌∙◌, inl, inr, true, false, List, [], Option, none,
  some, All, Option-cases, Bool-cases, ◌==◌, ==_iff,
}
use mathlib.Core.Path.{subst}
use shm2_rs.Base.Int.{ℤ}
use shm2_rs.Base.Dict.{lookup, delete, store, delete-delete}
use shm2_rs.Transport.Queues.{ready_queue, recycle_queue}
use shm2_rs.Allocator.{find, remove}
use shm2_rs.Transport.Types.{Writer, AllocLease}
use shm2_rs.Transport.Timeline.{Clock}
use shm2_rs.Transport.Writer.{free_lease, try_publish_lease}
use shm2_rs.Transport.Owners.Ledger.{Ticket, Ledger-front}
use shm2_rs.Transport.Owners.Books.{IsOwned, ready_tickets, recycle_tickets}
use shm2_rs.Transport.Owners.Moves.{publish-IsOwned, free_lease-IsOwned}
use shm2_rs.Transport.Owners.Hold.{free_lease-arena}
use shm2_rs.Transport.Channel.{Frame, frames}
use shm2_rs.Transport.Channel.Steps.{free_lease-queue}
use shm2_rs.Sink.Tracker.{PendingLease, AllocTracker, release_unpublished, mark_published}
use shm2_rs.Sink.Owners.{
  tickets, IsKeyed, IsTracked, lookup-find, agree, tickets-delete, delete-IsKeyed,
}

-- The frames that wait on a writer's ring.
abbrev pub on_ring : Option Writer → List Frame
on_ring none = []
on_ring (some w) = frames w.region.arena (ready_queue w.region)

-- The outcomes of the tracker's operations, by the entry that they find.
release_unpublished-absent :
    (t : AllocTracker) (ptr : ℕ)
    → lookup ptr t.pending_by_ptr ≡ none
    → release_unpublished t ptr ≡ t
unfolding release_unpublished
release_unpublished-absent t ptr e = rw (release_unpublished, e) refl

abbrev released : AllocTracker → (ptr : ℕ) → PendingLease → Writer → AllocTracker
released t ptr p w = record t {
  pending_by_ptr = delete ptr t.pending_by_ptr;
  writer = some (free_lease w p.buffer_id).0;
}

release_unpublished-found :
    (t : AllocTracker) (ptr : ℕ) (p : PendingLease) (w : Writer)
    → lookup ptr t.pending_by_ptr ≡ some p
    → t.writer ≡ some w
    → release_unpublished t ptr ≡ released t ptr p w
unfolding release_unpublished
release_unpublished-found t ptr p w e f = rw (release_unpublished, e, f) refl

mark_published-absent :
    (t : AllocTracker) (ptr len : ℕ)
    → lookup ptr t.pending_by_ptr ≡ none
    → mark_published t ptr len ≡ (t, none)
unfolding mark_published
mark_published-absent t ptr len e = rw (mark_published, e) refl

abbrev lease_of_pending : ℕ → PendingLease → AllocLease
lease_of_pending ptr p = record {
  buffer_id = p.buffer_id;
  offset = p.offset;
  len = p.len;
  ptr = ptr;
}

mark_published-whole :
    (t : AllocTracker) (ptr len : ℕ) (p : PendingLease)
    → lookup ptr t.pending_by_ptr ≡ some p
    → (p.len == len) ≡ true
    → mark_published t ptr len
      ≡ (record t { pending_by_ptr = delete ptr t.pending_by_ptr }, some (lease_of_pending ptr p))
unfolding mark_published
mark_published-whole t ptr len p e f = rw (mark_published, e, f) refl

mark_published-part :
    (t : AllocTracker) (ptr len : ℕ) (p : PendingLease)
    → lookup ptr t.pending_by_ptr ≡ some p
    → (p.len == len) ≡ false
    → mark_published t ptr len
      ≡ (record t { pending_by_ptr = store ptr p (delete ptr t.pending_by_ptr) }, none)
unfolding mark_published
mark_published-part t ptr len p e f = rw (mark_published, e, f) refl

marked_eq :
    (s t : AllocTracker) (k l : AllocLease)
    → ◌≡◌ {A = AllocTracker × Option AllocLease} (s, some k) (t, some l)
    → (s ≡ t) × (k ≡ l)
marked_eq s t k l e = (cc, cc)

marked_none :
    (s t : AllocTracker) (l : AllocLease)
    → ◌≡◌ {A = AllocTracker × Option AllocLease} (s, none) (t, some l)
    → ⊥
marked_none s t l e = cc

module _ (t : AllocTracker) (held : List Ticket) (k : IsTracked t held) where
  -- The entry at an address, taken out of the map, is its buffer taken out of the books.
  taken_out :
      (ptr : ℕ) (p : PendingLease)
      → lookup ptr t.pending_by_ptr ≡ some p
      → (find p.buffer_id (tickets t.pending_by_ptr) ≡ some (p.offset, p.len))
        × (tickets (delete ptr t.pending_by_ptr) ≡ remove p.buffer_id (tickets t.pending_by_ptr))
        × All IsKeyed (delete ptr t.pending_by_ptr)
        × IsKeyed (ptr, p)
  taken_out ptr p e =
      let v = k.owned.valid.arena_valid in
      let live = k.owned.books.leased_live in
      let (f, kp, lp) =
        lookup-find k.w.region.hdr.arena_size k.w.allocator v ptr t.pending_by_ptr p e k.keyed
          live in
      (
        f,
        tickets-delete ptr p.buffer_id t.pending_by_ptr (
            agree k.w.region.hdr.arena_size k.w.allocator v ptr p t.pending_by_ptr kp lp k.keyed
              live),
        delete-IsKeyed ptr t.pending_by_ptr k.keyed,
        kp,
      )

  -- The drop of a memory.
  pub release_unpublished-IsTracked : (ptr : ℕ) → IsTracked (release_unpublished t ptr) held
  release_unpublished-IsTracked ptr = elim (Option-cases (lookup ptr t.pending_by_ptr)) [
    | inl e ↦ subst (λ u. IsTracked u held) (sym (release_unpublished-absent t ptr e)) k
    | inr (p, e) ↦
        let (f, same, keyed, kp) = taken_out ptr p e in
        subst (λ u. IsTracked u held) (sym (release_unpublished-found t ptr p k.w e k.writer))
          (record {
            w = (free_lease k.w p.buffer_id).0;
            writer = refl;
            owned =
                subst (λ ts. IsOwned (free_lease k.w p.buffer_id).0 ts held) (sym same)
                  (free_lease-IsOwned k.w (tickets t.pending_by_ptr) held p.buffer_id
                    (p.offset, p.len) k.owned f);
            keyed = keyed;
          })
  ]

  stored-IsTracked :
      (ptr : ℕ) (p : PendingLease)
      → lookup ptr t.pending_by_ptr ≡ some p
      → IsTracked (record t { pending_by_ptr = store ptr p (delete ptr t.pending_by_ptr) }) held
  unfolding tickets
  stored-IsTracked ptr p e =
      let (f, same, keyed, kp) = taken_out ptr p e in
      rw delete-delete (record {
        w = k.w;
        writer = k.writer;
        owned = record {
          valid = k.owned.valid;
          books = rw same (
              Ledger-front (λ j. find j k.w.allocator.used) (tickets t.pending_by_ptr) held
                (ready_tickets (ready_queue k.w.region))
                (recycle_tickets (recycle_queue k.w.region)) k.owned.books p.buffer_id
                (p.offset, p.len) f);
        };
        keyed = (kp, keyed);
      })

  -- A part of a memory, or an address without an entry.
  pub put_back-IsTracked :
      (ptr len : ℕ) (t' : AllocTracker) → mark_published t ptr len ≡ (t', none) → IsTracked t' held
  put_back-IsTracked ptr len t' run = elim (Option-cases (lookup ptr t.pending_by_ptr)) [
    | inl e ↦
        subst (λ u. IsTracked u held)
          (ap (λ x. x.0) (sym (mark_published-absent t ptr len e) ∙ run)) k
    | inr (p, e) ↦ elim (Bool-cases (p.len == len)) [
      | inl whole ↦ absurd (marked_none t' _ _ (sym run ∙ mark_published-whole t ptr len p e whole))
      | inr part ↦
          subst (λ u. IsTracked u held)
            (ap (λ x. x.0) (sym (mark_published-part t ptr len p e part) ∙ run))
            (stored-IsTracked ptr p e)
    ]
  ]

  -- The whole memory at `ptr`, published.
  mark_published-some :
      (ptr len : ℕ) (t' : AllocTracker) (l : AllocLease)
      → mark_published t ptr len ≡ (t', some l)
      → (p : PendingLease) × (lookup ptr t.pending_by_ptr ≡ some p)
        × (record t { pending_by_ptr = delete ptr t.pending_by_ptr } ≡ t')
        × (lease_of_pending ptr p ≡ l)
        × (p.len ≡ len)
  mark_published-some ptr len t' l run = elim (Option-cases (lookup ptr t.pending_by_ptr)) [
    | inl e ↦ absurd (marked_none t t' l (sym (mark_published-absent t ptr len e) ∙ run))
    | inr (p, e) ↦ elim (Bool-cases (p.len == len)) [
      | inl whole ↦
          let (s, same) =
            marked_eq _ t' (lease_of_pending ptr p) l
              (sym (mark_published-whole t ptr len p e whole) ∙ run) in
          (p, e, s, same, (==_iff p.len len).0 whole)
      | inr part ↦ absurd (marked_none _ t' l (sym (mark_published-part t ptr len p e part) ∙ run))
    ]
  ]

  pub publish-IsTracked :
      (ptr len : ℕ) (t' : AllocTracker) (l : AllocLease) (clock : Clock) (pts_ns : ℤ) (w' : Writer)
      → mark_published t ptr len ≡ (t', some l)
      → k.w.region.hdr.ready_head + 1 < 2 ^ 63
      → try_publish_lease k.w clock l pts_ns ≡ some w'
      → IsTracked (record t' { writer = some w' }) held
  publish-IsTracked ptr len t' l clock pts_ns w' mark far run =
      let (p, e, same_t, same_l, whole) = mark_published-some ptr len t' l mark in
      let (f, same, keyed, kp) = taken_out ptr p e in
      subst (λ u. IsTracked (record u { writer = some w' }) held) same_t
        (record {
          w = w';
          writer = refl;
          owned =
              subst (λ ts. IsOwned w' ts held) (sym same)
                (publish-IsOwned k.w w' (tickets t.pending_by_ptr) held clock
                  (lease_of_pending ptr p) pts_ns k.owned f far
                  (subst (λ x. try_publish_lease k.w clock x pts_ns ≡ some w') (sym same_l) run));
          keyed = keyed;
        })

  -- What is published is the memory at the address.
  pub mark_published-memory :
      (ptr len : ℕ) (t' : AllocTracker) (l : AllocLease)
      → mark_published t ptr len ≡ (t', some l)
      → (ptr ≡ l.offset) × (len ≡ l.len)
  mark_published-memory ptr len t' l mark =
      let (p, e, same_t, same_l, whole) = mark_published-some ptr len t' l mark in
      let (f, same, keyed, kp) = taken_out ptr p e in
      (kp.0 ∙ ap (λ x. x.offset) same_l, sym whole ∙ ap (λ x. x.len) same_l)

  -- A part of a memory leaves the writer alone.
  pub put_back-writer :
      (ptr len : ℕ) (t' : AllocTracker)
      → mark_published t ptr len ≡ (t', none)
      → t'.writer ≡ t.writer
  put_back-writer ptr len t' run = elim (Option-cases (lookup ptr t.pending_by_ptr)) [
    | inl e ↦ ap (λ x. x.0.writer) (sym run ∙ mark_published-absent t ptr len e)
    | inr (p, e) ↦ elim (Bool-cases (p.len == len)) [
      | inl whole ↦ absurd (marked_none t' _ _ (sym run ∙ mark_published-whole t ptr len p e whole))
      | inr part ↦ ap (λ x. x.0.writer) (sym run ∙ mark_published-part t ptr len p e part)
    ]
  ]

  -- A drop leaves the queue of frames alone.
  pub release_unpublished-on_ring :
      (ptr : ℕ) → on_ring (release_unpublished t ptr).writer ≡ on_ring t.writer
  release_unpublished-on_ring ptr = elim (Option-cases (lookup ptr t.pending_by_ptr)) [
    | inl e ↦ ap (λ u. on_ring u.writer) (release_unpublished-absent t ptr e)
    | inr (p, e) ↦
        ap (λ u. on_ring u.writer) (release_unpublished-found t ptr p k.w e k.writer)
        ∙ ap₂ frames (free_lease-arena k.w p.buffer_id) (free_lease-queue k.w p.buffer_id)
        ∙ ap on_ring (sym k.writer)
  ]
