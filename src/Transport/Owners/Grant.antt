-- ===== src/Transport/Owners/Grant.antt =====
-- src/transport.rs: `alloc_lease` keeps the books, as long as it does not reset the allocator.
use shm2_rs.Base.{
  some_eq, ℕ, zero, suc, ◌^◌, ◌≤◌, ◌<◌, ◌≡◌, ◌≢◌, refl, ap, ap₂, sym, ◌∙◌, false, List, [], ◌∷◌,
  Option, none, some, sub_u64, ◌==◌, if◌then◌else◌, Option-cases, inl, inr, arith,
}
use mathlib.Core.Path.{subst}
use native.Mathlib.Decide.{dec_lt}
use shm2_rs.Allocator.{Allocation, FreeListAllocator, new, alloc, find, free_by_id}
use shm2_rs.Allocator.Alloc.{alloc_lem}
use shm2_rs.Allocator.Free.{find-free_by_id}
use shm2_rs.Platform.{Result, ok}
use shm2_rs.Transport.Types.{Writer, AllocLease}
use shm2_rs.Transport.Writer.{
  drop_oldest_ready, reset_allocator_state, retry_after_reset, alloc_loop, alloc_lease, lease_of,
}
use shm2_rs.Transport.Queues.{ready_queue, recycle_queue}
use shm2_rs.Transport.Receive.{oldest}
use shm2_rs.Transport.Lease.Dropping.{
  drop_oldest_ready-IsWriter, drop_oldest_ready-queue, drop_oldest_ready-empty,
}
use shm2_rs.Transport.Lease.{IsWriter}
use shm2_rs.Transport.Ring.{window}
use shm2_rs.Transport.Lease.Reset.{alloc-Granted, reset_allocator_state-IsWriter}
use shm2_rs.Transport.Lease.Loop.{alloc_loop-dropping, alloc_loop-resetting}
use shm2_rs.Transport.Owners.Ledger.{Ticket, count, present, Ledger-lease, Ledger-drop}
use shm2_rs.Transport.Owners.Books.{
  Balanced, IsOwned, ready_tickets, recycle_tickets, lease_ticket, ready_ticket,
}

-- A successful allocation is a lease in the books.
alloc-IsOwned :
    (w : Writer) (leased held : List Ticket) (size align : ℕ) (al : Allocation)
    (a : FreeListAllocator)
    → IsOwned w leased held
    → size < 2 ^ 32
    → align ≤ 2 ^ 62
    → alloc w.allocator size align ≡ some (al, a)
    → find a.next_id a.used ≡ none
    → IsOwned (record w { allocator = a }) (lease_ticket (lease_of al) ∷ leased) held
alloc-IsOwned w leased held size align al a o s q e next =
    let got =
      alloc_lem w.region.hdr.arena_size size align w.allocator o.valid.arena_valid s q (al, a) e in
    let g = alloc-Granted w size align al a o.valid s q e in
    record {
      valid = record { region_valid = g.region_valid; arena_valid = g.arena_valid; fresh = next };
      books =
          Ledger-lease (λ j. find j w.allocator.used) leased held
            (ready_tickets (ready_queue w.region)) (recycle_tickets (recycle_queue w.region))
            o.books (λ j. find j a.used) al.buffer_id (al.offset, al.len)
            (ap (λ id. find id w.allocator.used) got.1 ∙ o.valid.fresh)
            (λ j.
              got.5 j
              ∙ ap₂ (λ id len. if id == j then some (al.offset, len) else find j w.allocator.used)
                  (sym got.1) (sym got.0));
    }

-- What a dropped frame leaves of the rest of the writer.
drop_oldest_ready-rest :
    (w : Writer)
    → w.region.hdr.ready_tail < w.region.hdr.ready_head
    → ((drop_oldest_ready w).0.allocator ≡ (free_by_id w.allocator (oldest w.region).buffer_id).0)
      × (recycle_queue (drop_oldest_ready w).0.region ≡ recycle_queue w.region)
      × ((drop_oldest_ready w).0.region.hdr.timeline_gen ≡ w.region.hdr.timeline_gen)
unfolding drop_oldest_ready recycle_queue
drop_oldest_ready-rest w lt = rw not_empty (refl, refl, refl)
  where
    not_empty : (w.region.hdr.ready_head == w.region.hdr.ready_tail) ≡ false
    not_empty = ground (arith, lt)

drop_oldest_ready-IsOwned :
    (w : Writer) (leased held : List Ticket)
    → IsOwned w leased held
    → w.region.hdr.ready_tail < w.region.hdr.ready_head
    → IsOwned (drop_oldest_ready w).0 leased held
unfolding ready_tickets
drop_oldest_ready-IsOwned w leased held o lt =
    let rest = drop_oldest_ready-rest w lt in
    let gone = (drop_oldest_ready-queue w o.valid lt).1 in
    record {
      valid = drop_oldest_ready-IsWriter w o.valid lt;
      books =
          Ledger-drop (λ j. find j w.allocator.used)
            (λ j. find j (drop_oldest_ready w).0.allocator.used) leased held
            (ready_tickets (ready_queue (drop_oldest_ready w).0.region))
            (recycle_tickets (recycle_queue (drop_oldest_ready w).0.region))
            (ready_ticket (oldest w.region))
            (rw rest.1
              (subst (λ q. Balanced w leased held q (recycle_queue w.region)) gone.queue o.books))
            (λ j.
              ap (λ a. find j a.used) rest.0
              ∙ find-free_by_id w.allocator (oldest w.region).buffer_id j);
    }

-- The retry after a reset is in another generation.
retry-gen :
    (w w' : Writer) (r : Option (Allocation × FreeListAllocator)) (lease : AllocLease)
    → retry_after_reset (reset_allocator_state w) r ≡ (w', ok lease)
    → w'.region.hdr.timeline_gen ≢ w.region.hdr.timeline_gen
unfolding retry_after_reset reset_allocator_state
retry-gen w w' none lease e same = absurd (cc)
retry-gen w w' (some (al, a)) lease e same = ground arith

pub alloc_loop-granted :
    (fuel : ℕ) (w : Writer) (size align : ℕ) (got : Allocation × FreeListAllocator)
    → alloc w.allocator size align ≡ some got
    → alloc_loop (suc fuel) w size align
      ≡ some (record w { allocator = got.1 }, ok (lease_of got.0))
unfolding alloc_loop
alloc_loop-granted fuel w size align got e = rw (e, alloc_loop) refl

same_outcome :
    (v w : Writer) (k l : AllocLease)
    → ◌≡◌ {A = Option (Writer × Result AllocLease)} (some (v, ok k)) (some (w, ok l))
    → (v ≡ w) × (k ≡ l)
same_outcome v w k l e = (cc, cc)

-- A lease from the retry after a reset.
retry-IsOwned :
    (w w' : Writer) (leased held : List Ticket) (size align : ℕ) (lease : AllocLease)
    → IsOwned w leased held
    → size < 2 ^ 32
    → align ≤ 2 ^ 62
    → retry_after_reset w (alloc w.allocator size align) ≡ (w', ok lease)
    → find w'.allocator.next_id w'.allocator.used ≡ none
    → IsOwned w' (lease_ticket lease ∷ leased) held
unfolding retry_after_reset
retry-IsOwned w w' leased held size align lease o s q run next =
    elim (Option-cases (alloc w.allocator size align)) [
      | inl e ↦ absurd (cc (run, ap (retry_after_reset w) e))
      | inr (got, e) ↦
          let t =
            same_outcome (record w { allocator = got.1 }) w' (lease_of got.0) lease
              (ap some (sym (ap (retry_after_reset w) e) ∙ run)) in
          rw (← t.0, ← t.1)
            (alloc-IsOwned w leased held size align got.0 got.1 o s q e
              (subst (λ v. find v.allocator.next_id v.allocator.used ≡ none) (sym t.0) next))
    ]

-- Behind a reset, which is the caller's to exclude or to account for.
abbrev Resets :
    Writer → Writer → (leased held : List Ticket) → (size align : ℕ) → AllocLease → Type 0
Resets w w' leased held size align lease =
    (v : Writer)
    → IsWriter v
    → v.region.hdr.timeline_gen ≡ w.region.hdr.timeline_gen
    → retry_after_reset (reset_allocator_state v)
        (alloc (reset_allocator_state v).allocator size align)
      ≡ (w', ok lease)
    → IsOwned w' (lease_ticket lease ∷ leased) held

alloc_loop-IsOwned :
    (fuel : ℕ) (w w' : Writer) (leased held : List Ticket) (size align : ℕ) (lease : AllocLease)
    → IsOwned w leased held
    → size < 2 ^ 32
    → align ≤ 2 ^ 62
    → alloc_loop fuel w size align ≡ some (w', ok lease)
    → Resets w w' leased held size align lease
    → find w'.allocator.next_id w'.allocator.used ≡ none
    → IsOwned w' (lease_ticket lease ∷ leased) held
unfolding alloc_loop
alloc_loop-IsOwned zero w w' leased held size align lease o s q run resets next = absurd (cc)
alloc_loop-IsOwned (suc fuel) w w' leased held size align lease o s q run resets next =
    elim (Option-cases (alloc w.allocator size align)) [
      | inr (got, e) ↦
          let t =
            same_outcome (record w { allocator = got.1 }) w' (lease_of got.0) lease
              (sym (alloc_loop-granted fuel w size align got e) ∙ run) in
          rw (← t.0, ← t.1)
            (alloc-IsOwned w leased held size align got.0 got.1 o s q e
              (subst (λ v. find v.allocator.next_id v.allocator.used ≡ none) (sym t.0) next))
      | inl e ↦ elim (dec_lt w.region.hdr.ready_tail w.region.hdr.ready_head) [
        | yes lt ↦
            alloc_loop-IsOwned fuel (drop_oldest_ready w).0 w' leased held size align lease
              (drop_oldest_ready-IsOwned w leased held o lt) s q
              (sym
                  (alloc_loop-dropping fuel w size align e (drop_oldest_ready-queue w o.valid lt).0)
                ∙ run)
              (λ v valid gen. resets v valid (gen ∙ (drop_oldest_ready-rest w lt).2)) next
        | no ge ↦ resets w o.valid refl (
            some_eq (
              sym (
                alloc_loop-resetting fuel w size align e
                  (ap (λ r. r.1) (drop_oldest_ready-empty w (no_more ge))))
              ∙ run))
      ]
    ]
  where
    no_more :
        ¬ (w.region.hdr.ready_tail < w.region.hdr.ready_head)
        → w.region.hdr.ready_head ≡ w.region.hdr.ready_tail
    no_more ge = omega (arith, ge, o.valid.region_valid.ready_ring)

pub alloc_lease-IsOwned :
    (w w' : Writer) (leased held : List Ticket) (size align : ℕ) (lease : AllocLease)
    → IsOwned w leased held
    → size < 2 ^ 32
    → align ≤ 2 ^ 62
    → alloc_lease w size align ≡ some (w', ok lease)
    → w'.region.hdr.timeline_gen ≡ w.region.hdr.timeline_gen
    → find w'.allocator.next_id w'.allocator.used ≡ none
    → IsOwned w' (lease_ticket lease ∷ leased) held
unfolding alloc_lease
alloc_lease-IsOwned w w' leased held size align lease o s q run same next =
    alloc_loop-IsOwned (suc (sub_u64 w.region.hdr.ready_head w.region.hdr.ready_tail)) w w' leased
      held size align lease o s q run
      (λ v valid gen again. absurd (retry-gen v w' _ lease again (same ∙ sym gen))) next

reset_allocator_state-IsOwned : (w : Writer) → IsWriter w → IsOwned (reset_allocator_state w) [] []
unfolding reset_allocator_state new ready_queue recycle_queue window ready_tickets recycle_tickets
    count present find
reset_allocator_state-IsOwned w v = record {
  valid = reset_allocator_state-IsWriter w v;
  books = record {
    one = λ j. refl;
    leased_live = tt;
    held_live = tt;
    queued_live = tt;
    returned_live = tt;
  };
}

-- While nobody has a lease or holds a frame, a reset of the allocator keeps the books as well.
pub alloc_lease-alone :
    (w w' : Writer) (size align : ℕ) (lease : AllocLease)
    → IsOwned w [] []
    → size < 2 ^ 32
    → align ≤ 2 ^ 62
    → alloc_lease w size align ≡ some (w', ok lease)
    → find w'.allocator.next_id w'.allocator.used ≡ none
    → IsOwned w' (lease_ticket lease ∷ []) []
unfolding alloc_lease
alloc_lease-alone w w' size align lease o s q run next =
    alloc_loop-IsOwned (suc (sub_u64 w.region.hdr.ready_head w.region.hdr.ready_tail)) w w' [] []
      size align lease o s q run
      (λ v valid gen again.
        retry-IsOwned (reset_allocator_state v) w' [] [] size align lease
          (reset_allocator_state-IsOwned v valid) s q again next)
      next
