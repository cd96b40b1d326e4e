-- ===== src/Transport/Atomic/Overrun.antt =====
-- src/transport.rs: `drop_oldest_ready` between the copy and the store of `try_recv_desc`. Both store the tail.
use shm2_rs.Base.{
  ℕ, ◌+◌, ◌%◌, ◌^◌, ◌≤◌, ◌<◌, ◌≡◌, refl, ap, ◌∙◌, false, none, ◌∷◌, ◌++◌, [], add_u64, get_or, ◌==◌,
  ==_iff, ap₂, if◌then◌else◌, arith,
}
use shm2_rs.Allocator.{find}
use shm2_rs.Allocator.Free.{find-free_by_id}
use shm2_rs.Platform.{ok}
use shm2_rs.Transport.Types.{ReadyDesc, Region, Writer}
use shm2_rs.Transport.Writer.{zero_ready, drop_oldest_ready}
use shm2_rs.Transport.Reader.{received, validate_bounds}
use shm2_rs.Transport.Receive.{oldest}
use shm2_rs.Transport.Queues.{ReadyRing}
use shm2_rs.Transport.Atomic.{
  resting, waiting, copied, Race, put_region, put_tail, Step, store_tail, drop, Moves, still, move,
}

abbrev dropped : Writer → Writer
dropped w = (drop_oldest_ready w).0

-- What a drop stores.
record Dropped (w w1 : Writer) : Type 0 where
  slots : w1.region.ready ≡ w.region.ready
  capacity : w1.region.hdr.ready_capacity ≡ w.region.hdr.ready_capacity
  head : w1.region.hdr.ready_head ≡ w.region.hdr.ready_head
  tail : w1.region.hdr.ready_tail ≡ w.region.hdr.ready_tail + 1
  arena : w1.region.hdr.arena_size ≡ w.region.hdr.arena_size
  freed : find (oldest w.region).buffer_id w1.allocator.used ≡ none

dropped-Dropped :
    (w : Writer)
    → w.region.hdr.ready_tail < w.region.hdr.ready_head
    → w.region.hdr.ready_head < 2 ^ 63
    → Dropped w (dropped w)
unfolding drop_oldest_ready
dropped-Dropped w lt far =
    rw (not_empty, dropped, drop_oldest_ready)
      (record {
        slots = refl;
        capacity = refl;
        head = refl;
        tail = omega (arith, lt, far);
        arena = refl;
        freed =
            find-free_by_id w.allocator id id
            ∙ ap (λ b. if b then none else find id w.allocator.used) ((==_iff id id).1 refl);
      })
  where
    id : ℕ
    id = (oldest w.region).buffer_id

    not_empty : (w.region.hdr.ready_head == w.region.hdr.ready_tail) ≡ false
    not_empty = ground (arith, lt)

validate_bounds-arena :
    (r r1 : Region) (offset len : ℕ)
    → r1.hdr.arena_size ≡ r.hdr.arena_size
    → validate_bounds r1 offset len ≡ validate_bounds r offset len
unfolding validate_bounds
validate_bounds-arena r r1 offset len e = rw e refl

-- The entry that the tail is moved back to.
moved_back :
    (w w1 : Writer) (tail : ℕ)
    → Dropped w w1
    → tail ≡ w.region.hdr.ready_tail
    → get_or w1.region.ready (tail % w1.region.hdr.ready_capacity) zero_ready ≡ oldest w.region
moved_back w w1 tail dr same =
    ap₂ (λ slots cap. get_or slots (tail % cap) zero_ready) dr.slots dr.capacity
    ∙ ap (λ i. get_or w.region.ready (i % w.region.hdr.ready_capacity) zero_ready) same

moved_back-freed :
    (w w1 : Writer) (tail : ℕ)
    → Dropped w w1
    → tail ≡ w.region.hdr.ready_tail
    → find (oldest (put_tail w1.region tail)).buffer_id w1.allocator.used ≡ none
unfolding put_tail
moved_back-freed w w1 tail dr same =
    ap (λ desc. find desc.buffer_id w1.allocator.used) (moved_back w w1 tail dr same) ∙ dr.freed

-- A reader that has copied the oldest of at least three queued frames, the last of which is published
-- already, stores the tail after the writer has dropped two: the tail, then two past the frame that was
-- copied, goes back by one. Nothing is published in between. The frame that is now the oldest of the
-- queue is one of those that were queued, and the allocator has freed its buffer.
pub overrun :
    (s : Race) (tail : ℕ) (d : ReadyDesc)
    → ReadyRing s.writer.region
    → s.at_writer ≡ resting
    → s.at_reader ≡ copied tail d
    → tail ≡ s.writer.region.hdr.ready_tail
    → tail + 2 ≤ s.writer.region.hdr.ready_head
    → validate_bounds s.writer.region d.offset d.length ≡ ok tt
    → (t u : Race) × Moves s t
      × Step t u
      × (t.writer.region.hdr.ready_tail ≡ tail + 2)
      × (u.writer.region.hdr.ready_tail ≡ tail + 1)
      × (u.sent ≡ s.sent)
      × (u.writer.region.hdr.ready_head ≡ s.writer.region.hdr.ready_head)
      × (oldest u.writer.region
          ≡ get_or s.writer.region.ready
              ((tail + 1) % s.writer.region.hdr.ready_capacity)
              zero_ready)
      × (find (oldest u.writer.region).buffer_id u.writer.allocator.used ≡ none)
unfolding put_tail
overrun s tail d v rest at same two fits =
    let one = dropped-Dropped s.writer (omega (arith, same, two)) v.head_far in
    let other =
      dropped-Dropped w1 (omega (arith, same, two, one.tail, one.head))
        (omega (arith, v.head_far, one.head)) in
    let up : add_u64 tail 1 ≡ tail + 1 = omega (arith, same, two, v.head_far) in
    (
      t2,
      u,
      move (move still (drop rest refl)) (drop rest refl),
      store_tail tail d at
          (validate_bounds-arena s.writer.region w2.region d.offset d.length
              (other.arena ∙ one.arena)
            ∙ fits)
          refl,
      omega (arith, same, one.tail, other.tail),
      up,
      refl,
      other.head ∙ one.head,
      ap (λ i. get_or w2.region.ready (i % w2.region.hdr.ready_capacity) zero_ready) up
          ∙ ap₂ (λ slots cap. get_or slots ((tail + 1) % cap) zero_ready) (other.slots ∙ one.slots)
              (other.capacity ∙ one.capacity),
      moved_back-freed w1 w2 (add_u64 tail 1) other
          (omega (arith, same, two, v.head_far, one.tail)),
    )
  where
    w1 : Writer
    w1 = dropped s.writer

    w2 : Writer
    w2 = dropped w1

    t2 : Race
    t2 = record s { writer = w2 }

    u : Race
    u = record (put_region t2 (put_tail w2.region (add_u64 tail 1))) {
      at_reader = waiting;
      got = s.got ++ received d ∷ [];
    }
