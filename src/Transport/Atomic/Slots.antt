-- ===== src/Transport/Atomic/Slots.antt =====
-- src/transport.rs: what single stores do to the ready ring, and what the local variables of the two ends
-- say of it.
use shm2_rs.Base.{
  ℕ, suc, ◌+◌, ◌-◌, ◌%◌, ◌^◌, ◌≤◌, ◌<◌, ◌≡◌, ap, ap₂, sym, ◌∙◌, [], ◌∷◌, ◌++◌, add_u64, get_or,
  length-set, get_or-set_self, get_or-set_ne, arith,
}
use native.Mathlib.Nat.{mod-lt}
use shm2_rs.Transport.Types.{ReadyDesc, Region}
use shm2_rs.Transport.Writer.{zero_ready, ready_desc}
use shm2_rs.Transport.Ring.{window, window-set_past, window-snoc, mod-ne}
use shm2_rs.Transport.Queues.{ReadyRing, ready_queue}
use shm2_rs.Transport.Atomic.{
  WriterPc, resting, publishing, has_head, has_room, stored, announced, ReaderPc, waiting, saw_head,
  saw_tail, copied, put_slot, put_head, put_tail,
}

abbrev pub HasRoom : Region → Type 0
HasRoom r = r.hdr.ready_head - r.hdr.ready_tail < r.hdr.ready_capacity

abbrev pub slot : Region → ℕ → ReadyDesc
slot r i = get_or r.ready (i % r.hdr.ready_capacity) zero_ready

-- What the writer's local variables still say of the region.
abbrev pub AtWriter : Region → WriterPc → Type 0
AtWriter r resting = Unit
AtWriter r (publishing l pts_ns) = Unit
AtWriter r (has_head l pts_ns head) = head ≡ r.hdr.ready_head
AtWriter r (has_room l pts_ns head) = (head ≡ r.hdr.ready_head) × HasRoom r
AtWriter r (stored l pts_ns head) =
    (head ≡ r.hdr.ready_head) × HasRoom r × (slot r head ≡ ready_desc (add_u64 head 1) l pts_ns)
AtWriter r (announced pts_ns head) = Unit

-- What the reader's do.
abbrev pub AtReader : Region → ReaderPc → Type 0
AtReader r waiting = Unit
AtReader r (saw_head head) = (r.hdr.ready_tail ≤ head) × (head ≤ r.hdr.ready_head)
AtReader r (saw_tail head tail) = (tail ≡ r.hdr.ready_tail) × (r.hdr.ready_tail < r.hdr.ready_head)
AtReader r (copied tail d) =
    (tail ≡ r.hdr.ready_tail) × (r.hdr.ready_tail < r.hdr.ready_head) × (d ≡ slot r tail)

-- A descriptor stored in the slot at the head is in no queue yet.
pub put_slot-queue :
    (r : Region) (d : ReadyDesc)
    → ReadyRing r
    → HasRoom r
    → ready_queue (put_slot r r.hdr.ready_head d) ≡ ready_queue r
unfolding ready_queue put_slot
put_slot-queue r d v room =
    window-set_past zero_ready r.ready r.hdr.ready_capacity r.hdr.ready_tail
      (r.hdr.ready_head - r.hdr.ready_tail) r.hdr.ready_head d (omega (arith, v))
      (omega (arith, v, room))

pub put_slot_self :
    (r : Region) (d : ReadyDesc)
    → ReadyRing r
    → slot (put_slot r r.hdr.ready_head d) r.hdr.ready_head ≡ d
unfolding put_slot
put_slot_self r d v =
    get_or-set_self r.ready (r.hdr.ready_head % r.hdr.ready_capacity) d zero_ready
      (omega (arith, v, mod-lt r.hdr.ready_head {m = r.hdr.ready_capacity} v.cap_pos))

-- The slot that the reader has copied is another.
pub put_slot-tail :
    (r : Region) (d : ReadyDesc)
    → ReadyRing r
    → HasRoom r
    → r.hdr.ready_tail < r.hdr.ready_head
    → slot (put_slot r r.hdr.ready_head d) r.hdr.ready_tail ≡ slot r r.hdr.ready_tail
unfolding put_slot
put_slot-tail r d v room lt = get_or-set_ne r.ready d zero_ready (λ e.
    mod-ne r.hdr.ready_tail r.hdr.ready_head r.hdr.ready_capacity lt (omega (arith, v, room))
      (omega (arith, e)))

pub put_slot-ring :
    (r : Region) (d : ReadyDesc) → ReadyRing r → ReadyRing (put_slot r r.hdr.ready_head d)
unfolding put_slot
put_slot-ring r d v =
    ground (arith, v, length-set r.ready (r.hdr.ready_head % r.hdr.ready_capacity) d)

-- The slot at the head is queued once the head has moved on.
pub put_head-queue :
    (r : Region)
    → ReadyRing r
    → ready_queue (put_head r (add_u64 r.hdr.ready_head 1))
      ≡ ready_queue r ++ slot r r.hdr.ready_head ∷ []
unfolding ready_queue put_head
put_head-queue r v =
    ap (window zero_ready r.ready r.hdr.ready_capacity r.hdr.ready_tail) (omega (arith, v))
    ∙ window-snoc zero_ready r.ready r.hdr.ready_capacity r.hdr.ready_tail
        (r.hdr.ready_head - r.hdr.ready_tail)
    ∙ ap (λ i. ready_queue r ++ slot r i ∷ []) (omega (arith, v))

pub put_head-ring :
    (r : Region)
    → ReadyRing r
    → HasRoom r
    → r.hdr.ready_head + 1 < 2 ^ 63
    → ReadyRing (put_head r (add_u64 r.hdr.ready_head 1))
unfolding put_head
put_head-ring r v room far = ground (arith, v, room, far)

pub put_tail-queue :
    (r : Region)
    → ReadyRing r
    → r.hdr.ready_tail < r.hdr.ready_head
    → ready_queue r
      ≡ slot r r.hdr.ready_tail ∷ ready_queue (put_tail r (add_u64 r.hdr.ready_tail 1))
unfolding ready_queue put_tail window
put_tail-queue r v lt =
    ap (window zero_ready r.ready r.hdr.ready_capacity r.hdr.ready_tail) (
      let e : r.hdr.ready_head - r.hdr.ready_tail ≡ suc (r.hdr.ready_head - r.hdr.ready_tail - 1) =
        omega (arith, lt) in
      e)
    ∙ ap₂ (λ t n. slot r r.hdr.ready_tail ∷ window zero_ready r.ready r.hdr.ready_capacity t n)
        (omega (arith, v, lt)) (omega (arith, v, lt))

pub put_tail-ring :
    (r : Region)
    → ReadyRing r
    → r.hdr.ready_tail < r.hdr.ready_head
    → ReadyRing (put_tail r (add_u64 r.hdr.ready_tail 1))
unfolding put_tail
put_tail-ring r v lt = ground (arith, v, lt)

-- What the reader knows outlives the writer's stores, and the other way round.
pub put_slot-AtReader :
    (r : Region) (d : ReadyDesc) (pc : ReaderPc)
    → ReadyRing r
    → HasRoom r
    → AtReader r pc
    → AtReader (put_slot r r.hdr.ready_head d) pc
unfolding put_slot
put_slot-AtReader r d waiting v room a = tt
put_slot-AtReader r d (saw_head head) v room a = a
put_slot-AtReader r d (saw_tail head tail) v room a = a
put_slot-AtReader r d (copied tail e) v room (same, lt, is) = (
  same,
  lt,
  is
      ∙ ap (slot r) same
      ∙ sym (put_slot-tail r d v room lt)
      ∙ ap (slot (put_slot r r.hdr.ready_head d)) (sym same),
)

pub put_head-AtReader :
    (r : Region) (pc : ReaderPc)
    → ReadyRing r
    → HasRoom r
    → AtReader r pc
    → AtReader (put_head r (add_u64 r.hdr.ready_head 1)) pc
unfolding put_head
put_head-AtReader r waiting v room a = tt
put_head-AtReader r (saw_head head) v room a = omega (arith, v, a)
put_head-AtReader r (saw_tail head tail) v room a = omega (arith, v, a)
put_head-AtReader r (copied tail e) v room (same, lt, is) = (same, omega (arith, v, lt), is)

pub put_tail-AtWriter :
    (r : Region) (pc : WriterPc)
    → ReadyRing r
    → r.hdr.ready_tail < r.hdr.ready_head
    → AtWriter r pc
    → AtWriter (put_tail r (add_u64 r.hdr.ready_tail 1)) pc
unfolding put_tail
put_tail-AtWriter r resting v lt a = tt
put_tail-AtWriter r (publishing l pts_ns) v lt a = tt
put_tail-AtWriter r (has_head l pts_ns head) v lt a = a
put_tail-AtWriter r (has_room l pts_ns head) v lt (same, room) = (same, omega (arith, v, lt, room))
put_tail-AtWriter r (stored l pts_ns head) v lt (same, room, is) =
    (same, omega (arith, v, lt, room), is)
put_tail-AtWriter r (announced pts_ns head) v lt a = tt
