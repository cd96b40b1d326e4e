-- ===== src/Sink/Owners/Lease.antt =====
-- src/shm2sink.rs, src/transport.rs: `AllocTracker::alloc_lease_for_upstream` on the writer's books.
use shm2_rs.Base.{
  some_eq, ℕ, ◌%◌, ◌^◌, ◌≤◌, ◌<◌, ◌≡◌, refl, ap, sym, ◌∙◌, ◌⊎◌, inl, inr, List, ◌∷◌, none, some,
  All, Option-cases, arith,
}
use mathlib.Core.Path.{subst}
use shm2_rs.Base.Dict.{Dict, lookup, delete_absent}
use shm2_rs.Allocator.{find}
use shm2_rs.Platform.{Result, ok, err, ShmError}
use shm2_rs.Transport.Types.{Writer, AllocLease}
use shm2_rs.Transport.Writer.{alloc_lease}
use shm2_rs.Transport.Lease.{Granted, Outcome}
use shm2_rs.Transport.Lease.Loop.{alloc_lease_lem}
use shm2_rs.Transport.Owners.Ledger.{Ticket, count, count-find, present_le}
use shm2_rs.Transport.Owners.Books.{IsOwned, lease_ticket}
use shm2_rs.Transport.Owners.Grant.{alloc_lease-IsOwned}
use shm2_rs.Sink.Tracker.{
  PendingLease, AllocTracker, BoolError, pending_of, record_lease, alloc_lease_for_upstream,
}
use shm2_rs.Sink.Owners.{tickets, IsKeyed, IsTracked, live_same, lookup-find}

-- A new lease starts at no address of a pending one.
module _ (w : Writer) (held : List Ticket) (m : Dict PendingLease) (l : AllocLease)
    (o : IsOwned w (lease_ticket l ∷ tickets m) held) (keyed : All IsKeyed m)
    (at : l.ptr ≡ l.offset) (some_len : 0 < l.len) where
  twice : (p : PendingLease) → lookup l.ptr m ≡ some p → l.buffer_id ≡ p.buffer_id
  twice p e =
      let (f, kp, lp) =
        lookup-find w.region.hdr.arena_size w.allocator o.valid.arena_valid l.ptr m p e keyed
          o.books.leased_live.1 in
      live_same w.region.hdr.arena_size w.allocator o.valid.arena_valid l.buffer_id p.buffer_id
        l.offset l.len p.len o.books.leased_live.0
        (subst (λ x. find p.buffer_id w.allocator.used ≡ some (x, p.len)) (sym kp.0 ∙ at) lp)
        some_len kp.1

  count_twice : (p : PendingLease) → lookup l.ptr m ≡ some p → 1 ≤ count l.buffer_id (tickets m)
  count_twice p e =
      let (f, kp, lp) =
        lookup-find w.region.hdr.arena_size w.allocator o.valid.arena_valid l.ptr m p e keyed
          o.books.leased_live.1 in
      subst (λ id. 1 ≤ count id (tickets m)) (sym (twice p e))
        (count-find p.buffer_id (tickets m) (p.offset, p.len) f)

  new_address : lookup l.ptr m ≡ none
  unfolding count
  new_address = elim (Option-cases (lookup l.ptr m)) [
    | inl e ↦ e
    | inr (p, e) ↦ absurd (
        ground (
          arith,
          count_twice p e,
          o.books.one l.buffer_id,
          present_le (find l.buffer_id w.allocator.used),
        ))
  ]

recorded_eq :
    (s t : AllocTracker) (k l : AllocLease)
    → ◌≡◌ {A = AllocTracker × (AllocLease ⊎ BoolError)} (s, inl k) (t, inl l)
    → (s ≡ t) × (k ≡ l)
recorded_eq s t k l e = (cc, cc)

abbrev leased : AllocTracker → Writer → AllocLease → AllocTracker
leased t w l = record t {
  writer = some w;
  pending_by_ptr = (l.ptr, pending_of l) ∷ t.pending_by_ptr;
}

module _ (t : AllocTracker) (held : List Ticket) (k : IsTracked t held) (size align : ℕ) where
  alloc_lease_for_upstream-runs :
      (out : Writer × Result AllocLease)
      → alloc_lease k.w (size % 2 ^ 32) align ≡ some out
      → alloc_lease_for_upstream t size align ≡ some (record_lease t out)
  unfolding alloc_lease_for_upstream
  alloc_lease_for_upstream-runs out e = rw (k.writer, e) refl

  lease-IsTracked :
      (w' : Writer) (l : AllocLease)
      → Granted k.w (size % 2 ^ 32) align w' l
      → 0 < size % 2 ^ 32
      → IsOwned w' (lease_ticket l ∷ tickets t.pending_by_ptr) held
      → (t' : AllocTracker) (l' : AllocLease) → record_lease t (w', ok l) ≡ (t', inl l')
      → IsTracked t' held
  unfolding record_lease tickets
  lease-IsTracked w' l g some_len o t' l' e =
      let positive : 0 < l.len = subst (λ n. 0 < n) (sym g.len) some_len in
      subst (λ u. IsTracked u held)
        (sym (
            ap (λ m. record t { writer = some w'; pending_by_ptr = (l.ptr, pending_of l) ∷ m })
              (delete_absent l.ptr t.pending_by_ptr
                (new_address w' held t.pending_by_ptr l o k.keyed g.at positive)))
          ∙ (recorded_eq _ t' l l' e).0)
        (record { w = w'; writer = refl; owned = o; keyed = ((g.at, positive), k.keyed) })

  refused :
      (w' : Writer) (e : ShmError) (t' : AllocTracker) (l : AllocLease)
      → ◌≡◌ {A = AllocTracker × (AllocLease ⊎ BoolError)} (record_lease t (w', err e)) (t', inl l)
      → ⊥
  unfolding record_lease
  refused w' e t' l eq = cc

  module _ (t' : AllocTracker) (w' : Writer) (l : AllocLease) (some_len : 0 < size % 2 ^ 32)
      (q : align ≤ 2 ^ 62) (run : alloc_lease_for_upstream t size align ≡ some (t', inl l))
      (now : t'.writer ≡ some w') (same : w'.region.hdr.timeline_gen ≡ k.w.region.hdr.timeline_gen)
      (fresh : find w'.allocator.next_id w'.allocator.used ≡ none) where
    outcome-IsTracked :
        (out : Writer × Result AllocLease)
        → alloc_lease k.w (size % 2 ^ 32) align ≡ some out
        → Outcome k.w (size % 2 ^ 32) align out
        → IsTracked t' held
    unfolding record_lease
    outcome-IsTracked (v, err e) done r =
        absurd
          (refused v e t' l (some_eq (sym (alloc_lease_for_upstream-runs (v, err e) done) ∙ run)))
    outcome-IsTracked (v, ok l') done g =
        let eq = some_eq (sym (alloc_lease_for_upstream-runs (v, ok l') done) ∙ run) in
        let v_now : v ≡ w' = some_eq (ap (λ x. x.0.writer) eq ∙ now) in
        lease-IsTracked v l' g some_len
          (alloc_lease-IsOwned k.w v (tickets t.pending_by_ptr) held (size % 2 ^ 32) align l'
            k.owned (omega arith) q done (rw v_now same) (rw v_now fresh))
          t' l eq

    -- A memory of a byte or more for an upstream element.
    pub alloc_lease_for_upstream-IsTracked : IsTracked t' held
    alloc_lease_for_upstream-IsTracked =
        let (out, e, o) = alloc_lease_lem k.w (size % 2 ^ 32) align k.owned.valid (omega arith) q in
        outcome-IsTracked out e o

    outcome-Granted :
        (out : Writer × Result AllocLease)
        → alloc_lease k.w (size % 2 ^ 32) align ≡ some out
        → Outcome k.w (size % 2 ^ 32) align out
        → (l' : AllocLease) × Granted k.w (size % 2 ^ 32) align w' l'
    unfolding record_lease
    outcome-Granted (v, err e) done r =
        absurd
          (refused v e t' l (some_eq (sym (alloc_lease_for_upstream-runs (v, err e) done) ∙ run)))
    outcome-Granted (v, ok l') done g =
        let eq = some_eq (sym (alloc_lease_for_upstream-runs (v, ok l') done) ∙ run) in
        (
          l',
          subst (λ x. Granted k.w (size % 2 ^ 32) align x l')
              (some_eq (ap (λ x. x.0.writer) eq ∙ now)) g,
        )

    -- What the allocation does to the writer.
    pub alloc_lease_for_upstream-Granted :
        (l' : AllocLease) × Granted k.w (size % 2 ^ 32) align w' l'
    alloc_lease_for_upstream-Granted =
        let (out, e, o) = alloc_lease_lem k.w (size % 2 ^ 32) align k.owned.valid (omega arith) q in
        outcome-Granted out e o
