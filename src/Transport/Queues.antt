-- ===== src/Transport/Queues.antt =====
-- src/transport.rs: the two queues that a well-formed region holds, and the pushes onto them.
use shm2_rs.Base.{
  ℕ, suc, ◌+◌, ◌-◌, ◌%◌, ◌^◌, ◌≤◌, ◌<◌, ◌≡◌, ap₂, ◌∙◌, List, [], ◌∷◌, ◌++◌, length, length-set,
  add_u64, set, arith,
}
use shm2_rs.Base.Int.{ℤ}
use shm2_rs.Transport.Types.{ReadyDesc, RecycleDesc, Region, AllocLease}
use shm2_rs.Transport.Ring.{window, length-window, window-push}
use shm2_rs.Transport.Writer.{zero_ready, zero_recycle, ready_desc, push_ready}
use shm2_rs.Transport.Reader.{push_recycle, recycle_desc_of}

-- A ring's counters: the tail at most the capacity behind the head, slots for the whole capacity, and
-- the counters far enough from 2 ^ 64 to go round once more.
pub record IsRing (cap slots head tail : ℕ) : Type 0 where
  pub cap_pos : 0 < cap
  pub cap_u32 : cap < 2 ^ 32
  pub slots_all : slots ≡ cap
  pub tail_behind : tail ≤ head
  pub in_cap : head ≤ tail + cap
  pub head_far : head < 2 ^ 63

abbrev pub ReadyRing : Region → Type 0
ReadyRing r = IsRing r.hdr.ready_capacity (length r.ready) r.hdr.ready_head r.hdr.ready_tail

abbrev RecycleRing : Region → Type 0
RecycleRing r = IsRing r.hdr.rec_capacity (length r.recycle) r.hdr.rec_head r.hdr.rec_tail

pub record IsRegion (r : Region) : Type 0 where
  pub ready_ring : ReadyRing r
  pub recycle_ring : RecycleRing r

-- The published frames that no one has taken, oldest first.
unfoldable pub ready_queue : Region → List ReadyDesc
ready_queue r =
    window zero_ready r.ready r.hdr.ready_capacity r.hdr.ready_tail
      (r.hdr.ready_head - r.hdr.ready_tail)

-- The returned buffers that the writer has not yet freed, oldest first.
unfoldable pub recycle_queue : Region → List RecycleDesc
recycle_queue r =
    window zero_recycle r.recycle r.hdr.rec_capacity r.hdr.rec_tail
      (r.hdr.rec_head - r.hdr.rec_tail)

pub length-ready_queue : (r : Region) → length (ready_queue r) ≡ r.hdr.ready_head - r.hdr.ready_tail
unfolding ready_queue
length-ready_queue r =
    length-window zero_ready r.ready r.hdr.ready_capacity r.hdr.ready_tail
      (r.hdr.ready_head - r.hdr.ready_tail)

length-recycle_queue : (r : Region) → length (recycle_queue r) ≡ r.hdr.rec_head - r.hdr.rec_tail
unfolding recycle_queue
length-recycle_queue r =
    length-window zero_recycle r.recycle r.hdr.rec_capacity r.hdr.rec_tail
      (r.hdr.rec_head - r.hdr.rec_tail)

-- The queue of a ring whose slot at the head was written and whose head moved on.
window-advance {ℓ} :
    {A : Type ℓ} (d v : A) (slots : List A) (cap head tail : ℕ)
    → IsRing cap (length slots) head tail
    → head - tail < cap
    → window d (set slots (head % cap) v) cap tail (add_u64 head 1 - tail)
      ≡ window d slots cap tail (head - tail) ++ v ∷ []
window-advance d v slots cap head tail ring room =
    ap₂ (λ h n. window d (set slots (h % cap) v) cap tail n) head_eq count_eq
    ∙ window-push d slots cap tail (head - tail) v ring.slots_all room
  where
    head_eq : head ≡ tail + (head - tail)
    head_eq = omega (arith, ring.tail_behind)

    count_eq : add_u64 head 1 - tail ≡ suc (head - tail)
    count_eq = omega (arith, ring.tail_behind, ring.head_far)

module _ (r : Region) (v : IsRegion r) where
  -- A descriptor pushed on a ready ring that is not full is queued last.
  pub ready_queue-push_ready :
      (lease : AllocLease) (pts_ns : ℤ)
      → r.hdr.ready_head - r.hdr.ready_tail < r.hdr.ready_capacity
      → ready_queue (push_ready r lease pts_ns)
        ≡ ready_queue r ++ ready_desc (add_u64 r.hdr.ready_head 1) lease pts_ns ∷ []
  unfolding ready_queue push_ready
  ready_queue-push_ready lease pts_ns room =
      window-advance zero_ready (ready_desc (add_u64 r.hdr.ready_head 1) lease pts_ns) r.ready
        r.hdr.ready_capacity r.hdr.ready_head r.hdr.ready_tail v.ready_ring room

  pub push_ready-IsRegion :
      (lease : AllocLease) (pts_ns : ℤ)
      → r.hdr.ready_head - r.hdr.ready_tail < r.hdr.ready_capacity
      → r.hdr.ready_head + 1 < 2 ^ 63
      → IsRegion (push_ready r lease pts_ns)
  unfolding push_ready
  push_ready-IsRegion lease pts_ns room far = record {
    ready_ring = ring;
    recycle_ring = v.recycle_ring;
  }
    where
      ring : ReadyRing (push_ready r lease pts_ns)
      ring = ground (
        arith,
        v.ready_ring,
        length-set r.ready (r.hdr.ready_head % r.hdr.ready_capacity)
            (ready_desc (add_u64 r.hdr.ready_head 1) lease pts_ns),
      )

  -- A buffer given back on a recycle ring that is not full is queued last.
  pub recycle_queue-push_recycle :
      (buffer_id offset len status : ℕ)
      → r.hdr.rec_head - r.hdr.rec_tail < r.hdr.rec_capacity
      → recycle_queue (push_recycle r buffer_id offset len status)
        ≡ recycle_queue r
          ++ recycle_desc_of (add_u64 r.hdr.rec_head 1) buffer_id offset len status ∷ []
  unfolding recycle_queue push_recycle
  recycle_queue-push_recycle buffer_id offset len status room =
      window-advance zero_recycle
        (recycle_desc_of (add_u64 r.hdr.rec_head 1) buffer_id offset len status) r.recycle
        r.hdr.rec_capacity r.hdr.rec_head r.hdr.rec_tail v.recycle_ring room

  pub push_recycle-IsRegion :
      (buffer_id offset len status : ℕ)
      → r.hdr.rec_head - r.hdr.rec_tail < r.hdr.rec_capacity
      → r.hdr.rec_head + 1 < 2 ^ 63
      → IsRegion (push_recycle r buffer_id offset len status)
  unfolding push_recycle
  push_recycle-IsRegion buffer_id offset len status room far = record {
    ready_ring = v.ready_ring;
    recycle_ring = ring;
  }
    where
      ring : RecycleRing (push_recycle r buffer_id offset len status)
      ring = ground (
        arith,
        v.recycle_ring,
        length-set r.recycle (r.hdr.rec_head % r.hdr.rec_capacity)
            (recycle_desc_of (add_u64 r.hdr.rec_head 1) buffer_id offset len status),
      )
