-- ===== src/Transport/Channel/Alone.antt =====
-- src/transport.rs: `publish` by a writer while nobody else has a buffer, as a step of the queue of frames.
use shm2_rs.Base.{
  ℕ, ◌+◌, ◌^◌, ◌≤◌, ◌<◌, ◌≡◌, ◌≢◌, refl, ap, ap₂, sym, ◌∙◌, List, [], ◌∷◌, ◌++◌, Option, none, some,
  inl, inr, OnSome-some, All, zero, suc, drop, length, length-drop, length-append, ==_iff, arith,
}
use mathlib.Core.Path.{subst}
use shm2_rs.Base.Int.{ℤ}
use shm2_rs.Allocator.{Allocation, Block, FreeListAllocator, alloc, find, remove}
use shm2_rs.Platform.{Result, ok, err, ShmError}
use shm2_rs.Transport.Types.{ReadyDesc, Writer, AllocLease}
use shm2_rs.Transport.Timeline.{Clock}
use shm2_rs.Transport.Writer.{
  alloc_lease, lease_of, try_publish_lease, publish_lease, publish_into, publish,
}
use shm2_rs.Transport.Queues.{IsRegion, ready_queue, recycle_queue}
use shm2_rs.Transport.Publish.{Published}
use shm2_rs.Transport.Lease.{Granted, Outcome}
use shm2_rs.Transport.Lease.Loop.{alloc_lease_lem}
use shm2_rs.Transport.RoundTrip.{Delivered, filled, filled-IsRegion, publish-step}
use shm2_rs.Transport.Owners.Ledger.{IsOf, count, present_le, count-append}
use shm2_rs.Transport.Owners.Books.{IsOwned, ready_tickets, ready_tickets-append, lease_ticket}
use shm2_rs.Transport.Owners.Grant.{alloc_loop-granted, alloc_lease-alone}
use shm2_rs.Transport.Owners.Moves.{write-IsOwned, publish-IsOwned}
use shm2_rs.Transport.Owners.Hold.{try_publish_lease-Published}
use shm2_rs.Transport.Channel.{frames}
use shm2_rs.Transport.Channel.Steps.{length-frames, frames-append, frames-drop, frames_apart}

find-only : (id : ℕ) (b : Block) → find id ((id, b) ∷ []) ≡ some b
unfolding find
find-only id b = rw ((==_iff id id).1 refl) refl

remove-only : (id : ℕ) (b : Block) → remove id ((id, b) ∷ []) ≡ []
unfolding remove
remove-only id b = rw ((==_iff id id).1 refl) refl

published_as :
    (o : Option Writer) (lease_id id : ℕ) (w' : Writer)
    → ◌≡◌ {A = Option (Writer × Result ℕ)}
        (elim o [ some v ↦ some (v, ok lease_id) | none ↦ none ])
        (some (w', ok id))
    → (o ≡ some w') × (lease_id ≡ id)
published_as none lease_id id w' e = absurd (cc)
published_as (some v) lease_id id w' e = (cc, cc)

-- Without a sleep, a lease is queued by the first attempt.
publish_into-queued :
    (clock : Clock) (payload : List ℕ) (pts_ns : ℤ) (w w' : Writer) (lease : AllocLease) (id : ℕ)
    → publish_into [] clock payload pts_ns (w, ok lease) ≡ some (w', ok id)
    → try_publish_lease (filled w lease payload) clock lease pts_ns ≡ some w'
unfolding publish_into publish_lease
publish_into-queued clock payload pts_ns w w' lease id run =
    (published_as _ lease.buffer_id id w' run).0

publish_into-refused :
    (clock : Clock) (payload : List ℕ) (pts_ns : ℤ) (w w' : Writer) (e : ShmError) (id : ℕ)
    → publish_into [] clock payload pts_ns (w, err e) ≢ some (w', ok id)
unfolding publish_into
publish_into-refused clock payload pts_ns w w' e id run = cc

module _ (w w' : Writer) (clock : Clock) (payload : List ℕ) (pts_ns : ℤ) (id : ℕ)
    (o : IsOwned w [] []) (far : w.region.hdr.ready_head + 1 < 2 ^ 63)
    (next : find w'.allocator.next_id w'.allocator.used ≡ none) where
  queued-IsOwned :
      (w1 : Writer) (lease : AllocLease)
      → length payload < 2 ^ 32
      → w.allocator_align ≤ 2 ^ 62
      → alloc_lease w (length payload) w.allocator_align ≡ some (w1, ok lease)
      → Granted w (length payload) w.allocator_align w1 lease
      → try_publish_lease (filled w1 lease payload) clock lease pts_ns ≡ some w'
      → IsOwned w' [] []
  queued-IsOwned w1 lease short q e g run =
      let near : w1.region.hdr.ready_head + 1 < 2 ^ 63 = omega (arith, g.head_le, far) in
      let p =
        try_publish_lease-Published (filled w1 lease payload) w' clock lease pts_ns
          (filled-IsRegion w1 lease payload g.region_valid) near run in
      let one =
        alloc_lease-alone w w1 (length payload) w.allocator_align lease o short q e
          (subst (λ a. find a.next_id a.used ≡ none) p.same_allocator next) in
      subst (λ ts. IsOwned w' ts []) (remove-only lease.buffer_id (lease.offset, lease.len))
        (publish-IsOwned (filled w1 lease payload) w' (lease_ticket lease ∷ []) [] clock lease
          pts_ns (write-IsOwned w1 (lease_ticket lease ∷ []) [] _ one)
          (find-only lease.buffer_id (lease.offset, lease.len)) near run)

  outcome-IsOwned :
      (out : Writer × Result AllocLease)
      → length payload < 2 ^ 32
      → w.allocator_align ≤ 2 ^ 62
      → alloc_lease w (length payload) w.allocator_align ≡ some out
      → Outcome w (length payload) w.allocator_align out
      → publish_into [] clock payload pts_ns out ≡ some (w', ok id)
      → IsOwned w' [] []
  outcome-IsOwned (w1, ok lease) short q e g run =
      queued-IsOwned w1 lease short q e g
        (publish_into-queued clock payload pts_ns w1 w' lease id run)
  outcome-IsOwned (w1, err e) short q f g run =
      absurd (publish_into-refused clock payload pts_ns w1 w' e id run)

  -- A published frame is with the ring, and nobody has a lease then either.
  pub publish-alone :
      length payload < 2 ^ 32
      → w.allocator_align ≤ 2 ^ 62
      → publish [] w clock payload pts_ns ≡ some (w', ok id)
      → IsOwned w' [] []
  publish-alone short q run =
      let (out, e, g) = alloc_lease_lem w (length payload) w.allocator_align o.valid short q in
      outcome-IsOwned out short q e g
        (sym (publish-step [] w clock payload pts_ns out short e) ∙ run)

All-front {ℓ κ} : {A : Type ℓ} (P : A → Type κ) (xs ys : List A) → All P (xs ++ ys) → All P xs
All-front P [] ys h = tt
All-front P (x ∷ xs) ys (hx, h) = (hx, All-front P xs ys h)

module _ (w w' : Writer) (payload : List ℕ) (pts_ns : ℤ) (id : ℕ) (o : IsOwned w' [] [])
    (d : Delivered w payload pts_ns w' id) where
  kept : List ReadyDesc
  kept = drop d.dropped (ready_queue w.region)

  kept_tickets :
      ready_tickets (ready_queue w'.region)
      ≡ ready_tickets kept ++ (id, (d.offset, length payload)) ∷ []
  unfolding ready_tickets kept
  kept_tickets = ap ready_tickets d.queued ∙ ready_tickets-append kept _

  kept-live : All (IsOf (λ j. find j w'.allocator.used)) (ready_tickets kept)
  kept-live =
      All-front (IsOf (λ j. find j w'.allocator.used)) (ready_tickets kept) _
        (subst (All (IsOf (λ j. find j w'.allocator.used))) kept_tickets o.books.queued_live)

  not_kept : count id (ready_tickets kept) ≡ 0
  unfolding count
  not_kept = ground (
    arith,
    o.books.one id,
    present_le (find id w'.allocator.used),
    ap (count id) kept_tickets,
    count-append id (ready_tickets kept) ((id, (d.offset, length payload)) ∷ []),
  )

  -- The frame comes in last, and those of the others that are left keep their bytes.
  pub publish-frames :
      frames w'.region.arena (ready_queue w'.region)
      ≡ drop d.dropped (frames w.region.arena (ready_queue w.region)) ++ (payload, pts_ns) ∷ []
  unfolding frames kept
  publish-frames =
      ap (frames w'.region.arena) d.queued
      ∙ frames-append w'.region.arena kept _
      ∙ ap₂ (λ fs bytes. fs ++ (bytes, pts_ns) ∷ [])
          (frames_apart (λ j. find j w'.allocator.used) w.region.arena w'.region.arena id kept
              (λ j b fj ne. elim (OnSome-some _ (find j w'.allocator.used) (d.others j) fj) [
                | inl e ↦ absurd (ne e)
                | inr same ↦ same
              ])
              kept-live not_kept
            ∙ frames-drop w.region.arena d.dropped (ready_queue w.region))
          d.bytes

-- A writer whose allocator grants the request at once queues the frame behind all others.
pub record Whole (w : Writer) (a : FreeListAllocator) (w' : Writer) : Type 0 where
  pub allocator : w'.allocator ≡ a
  pub one_more : length (ready_queue w'.region) ≡ suc (length (ready_queue w.region))
  pub returned : recycle_queue w'.region ≡ recycle_queue w.region
  pub returning :
      (w'.region.hdr.rec_head ≡ w.region.hdr.rec_head)
      × (w'.region.hdr.rec_tail ≡ w.region.hdr.rec_tail)
      × (w'.region.hdr.rec_capacity ≡ w.region.hdr.rec_capacity)

alloc_lease-granted :
    (w : Writer) (size align : ℕ) (got : Allocation × FreeListAllocator)
    → alloc w.allocator size align ≡ some got
    → alloc_lease w size align ≡ some (record w { allocator = got.1 }, ok (lease_of got.0))
unfolding alloc_lease
alloc_lease-granted w size align got e = alloc_loop-granted _ w size align got e

publish-Whole_of :
    (w w' : Writer) (a : FreeListAllocator) (payload : List ℕ) (pts_ns : ℤ) (lease : AllocLease)
    → Published (filled (record w { allocator = a }) lease payload) lease pts_ns w'
    → Whole w a w'
unfolding ready_queue recycle_queue
publish-Whole_of w w' a payload pts_ns lease p = record {
  allocator = p.same_allocator;
  one_more = ap length p.queued ∙ length-append (ready_queue w.region) _ ∙ omega arith;
  returned = p.returned;
  returning = p.returning;
}

pub publish-Whole :
    (w w' : Writer) (clock : Clock) (payload : List ℕ) (pts_ns : ℤ) (id : ℕ)
    (got : Allocation × FreeListAllocator)
    → IsRegion w.region
    → w.region.hdr.ready_head + 1 < 2 ^ 63
    → length payload < 2 ^ 32
    → alloc w.allocator (length payload) w.allocator_align ≡ some got
    → publish [] w clock payload pts_ns ≡ some (w', ok id)
    → Whole w got.1 w'
publish-Whole w w' clock payload pts_ns id got v far short e run =
    let w1 : Writer = record w { allocator = got.1 } in
    publish-Whole_of w w' got.1 payload pts_ns (lease_of got.0) (
      try_publish_lease-Published (filled w1 (lease_of got.0) payload) w' clock (lease_of got.0)
        pts_ns (filled-IsRegion w1 (lease_of got.0) payload v) far
        (publish_into-queued clock payload pts_ns w1 w' (lease_of got.0) id (
          sym (
            publish-step [] w clock payload pts_ns _ short
              (alloc_lease-granted w (length payload) w.allocator_align got e))
          ∙ run)))

drop-all_kept {ℓ} :
    {A : Type ℓ} (n : ℕ) (xs : List A) → length (drop n xs) ≡ length xs → drop n xs ≡ xs
drop-all_kept zero xs e = refl
drop-all_kept (suc n) [] e = refl
drop-all_kept (suc n) (x ∷ xs) e = absurd (omega (arith, length-drop n xs, e))

-- Nothing is lost then.
pub Whole-frames :
    (w w' : Writer) (a : FreeListAllocator) (payload : List ℕ) (pts_ns : ℤ) (id : ℕ)
    → IsOwned w' [] []
    → Delivered w payload pts_ns w' id
    → Whole w a w'
    → frames w'.region.arena (ready_queue w'.region)
      ≡ frames w.region.arena (ready_queue w.region) ++ (payload, pts_ns) ∷ []
Whole-frames w w' a payload pts_ns id o d all =
    publish-frames w w' payload pts_ns id o d
    ∙ ap (λ fs. fs ++ (payload, pts_ns) ∷ []) (drop-all_kept d.dropped _ same)
  where
    same :
        length (drop d.dropped (frames w.region.arena (ready_queue w.region)))
        ≡ length (frames w.region.arena (ready_queue w.region))
    same = omega (
      arith,
      ap length (publish-frames w w' payload pts_ns id o d),
      length-append (drop d.dropped (frames w.region.arena (ready_queue w.region)))
          ((payload, pts_ns) ∷ []),
      length-frames w'.region.arena (ready_queue w'.region),
      length-frames w.region.arena (ready_queue w.region),
      all.one_more,
    )
