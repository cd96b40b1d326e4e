-- ===== src/Transport/RoundTrip.antt =====
-- src/transport.rs: `publish`, and what `recv_blocking` makes of a published payload.
use shm2_rs.Base.{
  ℕ, ◌+◌, ◌-◌, ◌%◌, ◌^◌, ◌≤◌, ◌<◌, ◌≡◌, refl, ap, ap₂, sym, ◌∙◌, List, [], ◌∷◌, ◌++◌, Option, some,
  add_u64, ◌==◌, length, drop, max, OnSome, OnSome-intro, ◌⊎◌, inl, inr, Bool-cases, ==_iff, arith,
}
use native.Mathlib.Nat.{mod-eq_of_lt}
use shm2_rs.Base.Int.{ℤ}
use shm2_rs.Allocator.{Block, find}
use shm2_rs.Allocator.Valid.{IsValid}
use shm2_rs.Allocator.Ids.{TakesId}
use shm2_rs.Platform.{Result, ok, err}
use shm2_rs.Transport.Types.{Region, Writer, AllocLease}
use shm2_rs.Transport.Timeline.{Clock}
use shm2_rs.Transport.Writer.{
  ready_desc, alloc_lease, copy_to, publish, publish_into, publish_lease,
}
use shm2_rs.Transport.Reader.{read_bytes}
use shm2_rs.Transport.Queues.{IsRegion, ready_queue}
use shm2_rs.Transport.Publish.{HasRoom, Published, try_publish_lease_lem}
use shm2_rs.Transport.Lease.{IsWriter, Granted, Outcome}
use shm2_rs.Transport.Lease.Loop.{alloc_lease_lem}
use shm2_rs.Transport.Payload.{read_bytes-copy_to, read_bytes-copy_other}

-- What a successful `publish` of `payload` as the frame `id` leaves.
pub record Delivered (w : Writer) (payload : List ℕ) (pts_ns : ℤ) (w' : Writer) (id : ℕ)
    : Type 0 where
  pub region_valid : IsRegion w'.region
  pub arena_valid : IsValid w'.region.hdr.arena_size w'.allocator
  pub same_arena : w'.region.hdr.arena_size ≡ w.region.hdr.arena_size
  pub same_capacity : w'.region.hdr.ready_capacity ≡ w.region.hdr.ready_capacity
  pub same_align : w'.allocator_align ≡ w.allocator_align
  pub ids : TakesId w.allocator w'.allocator
  pub head_le : w'.region.hdr.ready_head ≤ w.region.hdr.ready_head + 1
  pub pending_le :
      w'.region.hdr.ready_head - w'.region.hdr.ready_tail
      ≤ w.region.hdr.ready_head - w.region.hdr.ready_tail + 1
  pub dropped : ℕ
  pub offset : ℕ
  pub seq : ℕ
  pub queued :
      ready_queue w'.region
      ≡ drop dropped (ready_queue w.region)
        ++ ready_desc seq
            (record { buffer_id = id; offset = offset; len = length payload; ptr = offset })
            pts_ns
          ∷ []
  pub live : find id w'.allocator.used ≡ some (offset, length payload)
  pub inside_arena : offset + length payload ≤ w.region.hdr.arena_size
  pub aligned : offset % max w.allocator_align 1 ≡ 0
  pub bytes : read_bytes w'.region.arena offset (length payload) ≡ payload
  pub others :
      (j : ℕ)
      → OnSome
          (λ b. (id ≡ j) ⊎ (read_bytes w'.region.arena b.0 b.1 ≡ read_bytes w.region.arena b.0 b.1))
          (find j w'.allocator.used)

abbrev pub filled : Writer → AllocLease → List ℕ → Writer
filled w lease payload = record w {
  region = record w.region { arena = copy_to w.region.arena lease.ptr payload };
}

-- The bytes of the allocation `j` after the copy.
kept_bytes :
    (w w1 w' : Writer) (payload : List ℕ) (pts_ns : ℤ) (lease : AllocLease) (j : ℕ) (b : Block)
    → Granted w (length payload) w.allocator_align w1 lease
    → Published (filled w1 lease payload) lease pts_ns w'
    → find j w'.allocator.used ≡ some b
    → (lease.buffer_id ≡ j)
      ⊎ (read_bytes w'.region.arena b.0 b.1 ≡ read_bytes w.region.arena b.0 b.1)
kept_bytes w w1 w' payload pts_ns lease j b g p fj = elim (Bool-cases (lease.buffer_id == j)) [
  | inl e ↦ inl ((==_iff _ _).0 e)
  | inr ne ↦ inr (
      rw (p.same_arena, g.at, ← g.same_bytes)
        (read_bytes-copy_other w1.region.hdr.arena_size w1.allocator w1.region.arena payload
          lease.offset lease.buffer_id j b g.arena_valid g.live
          (ap (λ a'. find j a'.used) (sym p.same_allocator) ∙ fj) (ground (arith, ne))))
]

pub filled-IsRegion :
    (w : Writer) (lease : AllocLease) (payload : List ℕ)
    → IsRegion w.region
    → IsRegion (filled w lease payload).region
filled-IsRegion w lease payload v = record {
  ready_ring = v.ready_ring;
  recycle_ring = v.recycle_ring;
}

filled-queue :
    (w : Writer) (lease : AllocLease) (payload : List ℕ)
    → ready_queue (filled w lease payload).region ≡ ready_queue w.region
unfolding ready_queue
filled-queue w lease payload = refl

Delivered-intro :
    (w w1 w' : Writer) (payload : List ℕ) (pts_ns : ℤ) (lease : AllocLease)
    → Granted w (length payload) w.allocator_align w1 lease
    → Published (filled w1 lease payload) lease pts_ns w'
    → Delivered w payload pts_ns w' lease.buffer_id
Delivered-intro w w1 w' payload pts_ns lease g p = record {
  region_valid = p.region_valid;
  arena_valid = rw (p.same_arena_size, p.same_allocator) g.arena_valid;
  same_arena = p.same_arena_size ∙ g.same_arena;
  same_capacity = p.same_capacity ∙ g.same_capacity;
  same_align = p.same_align ∙ g.same_align;
  ids = λ n some_id far b. rw p.same_allocator (g.ids n some_id far b);
  head_le = omega (arith, p.head, g.head_le);
  pending_le = omega (arith, p.head, p.tail, g.pending_le);
  dropped = g.dropped;
  offset = lease.offset;
  seq = add_u64 w1.region.hdr.ready_head 1;
  queued =
      p.queued
      ∙ ap₂
          (λ q len.
            q
            ++ ready_desc (add_u64 w1.region.hdr.ready_head 1) (record lease { len = len }) pts_ns
              ∷ [])
          (filled-queue w1 lease payload ∙ g.kept) g.len;
  live = rw p.same_allocator g.live;
  inside_arena = g.inside_arena;
  aligned = g.aligned;
  bytes = rw (p.same_arena, g.at) (read_bytes-copy_to w1.region.arena lease.offset payload);
  others = λ j.
      OnSome-intro _ (find j w'.allocator.used)
        (λ b fj. kept_bytes w w1 w' payload pts_ns lease j b g p fj);
}

publish_into-ok :
    (peer : List (Region → Region)) (clock : Clock) (payload : List ℕ) (pts_ns : ℤ) (w w' : Writer)
    (lease : AllocLease)
    → publish_lease peer (filled w lease payload) clock lease pts_ns ≡ some w'
    → publish_into peer clock payload pts_ns (w, ok lease) ≡ some (w', ok lease.buffer_id)
unfolding publish_into
publish_into-ok peer clock payload pts_ns w w' lease e = rw (e, publish_into) refl

pub publish-step :
    (peer : List (Region → Region)) (w : Writer) (clock : Clock) (payload : List ℕ) (pts_ns : ℤ)
    (out : Writer × Result AllocLease)
    → length payload < 2 ^ 32
    → alloc_lease w (length payload) w.allocator_align ≡ some out
    → publish peer w clock payload pts_ns ≡ publish_into peer clock payload pts_ns out
unfolding publish
publish-step peer w clock payload pts_ns out short e = rw (publish, mod-eq_of_lt short, e) refl

module _ (w : Writer) (clock : Clock) (payload : List ℕ) (pts_ns : ℤ) (v : IsWriter w)
    (room : HasRoom w.region) (far : w.region.hdr.ready_head + 1 < 2 ^ 63) where
  Goal : Option (Writer × Result ℕ) → Type 0
  Goal run = (w' : Writer) × (id : ℕ) × (run ≡ some (w', ok id)) × Delivered w payload pts_ns w' id

  publish-Granted :
      (w1 : Writer) (lease : AllocLease)
      → Granted w (length payload) w.allocator_align w1 lease
      → Goal (publish_into [] clock payload pts_ns (w1, ok lease))
  unfolding Goal publish_lease
  publish-Granted w1 lease g =
      let (w', e, p) =
        try_publish_lease_lem (filled w1 lease payload) clock lease pts_ns
          (filled-IsRegion w1 lease payload g.region_valid)
          (omega (arith, g.pending_le, g.same_capacity, room)) (omega (arith, g.head_le, far)) in
      (
        w',
        lease.buffer_id,
        publish_into-ok [] clock payload pts_ns w1 w' lease e,
        Delivered-intro w w1 w' payload pts_ns lease g p,
      )

  publish_outcome :
      (out : Writer × Result AllocLease)
      → length payload ≤ w.region.hdr.arena_size
      → Outcome w (length payload) w.allocator_align out
      → Goal (publish_into [] clock payload pts_ns out)
  publish_outcome (w1, ok lease) fits o = publish-Granted w1 lease o
  publish_outcome (w1, err e) fits o = absurd (omega (arith, fits, o.too_large))

  -- `publish` by a well-formed writer at a ready ring with room accepts every payload of less than 2 ^
  -- 32 bytes that the arena can hold, for an alignment of at most 2 ^ 62 and a counter that stays below
  -- 2 ^ 63. The frame is queued last, behind what is left of the queue, its bytes in the arena are the
  -- payload's, in a live, aligned allocation, and the bytes of every other live allocation are as they
  -- were.
  pub publish_lem :
      length payload < 2 ^ 32
      → w.allocator_align ≤ 2 ^ 62
      → length payload ≤ w.region.hdr.arena_size
      → (w' : Writer) × (id : ℕ) × (publish [] w clock payload pts_ns ≡ some (w', ok id))
        × Delivered w payload pts_ns w' id
  unfolding Goal
  publish_lem short q fits =
      let (out, e, o) = alloc_lease_lem w (length payload) w.allocator_align v short q in
      rw (publish-step [] w clock payload pts_ns out short e) (publish_outcome out fits o)
