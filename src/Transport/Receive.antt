-- ===== src/Transport/Receive.antt =====
-- src/transport.rs: `try_recv_desc` against a queue of descriptors.
use shm2_rs.Base.{
  ℕ, suc, ◌+◌, ◌-◌, ◌%◌, ◌^◌, ◌<◌, ◌≡◌, refl, ap, ◌∙◌, true, List, [], ◌∷◌, Option, none, some,
  add_u64, ltb, leb, ◌==◌, if◌then◌else◌, Bool-cases, inl, inr, get_or, ==_iff, arith,
}
use shm2_rs.Platform.{Result, ok, err, protocol, payload_bounds_overflow, payload_out_of_arena}
use shm2_rs.Transport.Types.{ReadyDesc, Region, ReceivedDesc}
use shm2_rs.Transport.Ring.{window}
use shm2_rs.Transport.Timeline.{with_hdr}
use shm2_rs.Transport.Writer.{zero_ready}
use shm2_rs.Transport.Reader.{received, validate_bounds, after, try_recv_desc}
use shm2_rs.Transport.Queues.{IsRegion, ready_queue}

-- What the payload check says of a range of the arena.
pub validate_bounds_lem :
    (r : Region) (offset len : ℕ)
    → r.hdr.arena_size < 2 ^ 64
    → validate_bounds r offset len ≡ (
        if leb (offset + len) r.hdr.arena_size
        then ok tt
        else if ltb (offset + len) (2 ^ 64)
        then err (protocol payload_out_of_arena)
        else err (protocol payload_bounds_overflow))
unfolding validate_bounds
validate_bounds_lem r offset len small = ground arith

-- A ring with an entry: the entry at the tail, and those behind it.
pub window_pop {ℓ} :
    {A : Type ℓ} (d : A) (slots : List A) (cap head tail : ℕ)
    → tail < head
    → window d slots cap tail (head - tail)
      ≡ get_or slots (tail % cap) d ∷ window d slots cap (tail + 1) (head - (tail + 1))
unfolding window
window_pop d slots cap head tail lt = ap (window d slots cap tail) count
  where
    count : head - tail ≡ suc (head - (tail + 1))
    count = omega arith

-- The abstract step: the oldest entry is taken if its payload lies in the arena.
abbrev pub Taken : Type 0
Taken = List ReadyDesc × Result (Option ReceivedDesc)

unfoldable pub take_next : ℕ → List ReadyDesc → Taken
take_next arena_size [] = ([], ok none)
take_next arena_size (d ∷ queue) =
    if leb (d.offset + d.length) arena_size
    then (queue, ok (some (received d)))
    else if ltb (d.offset + d.length) (2 ^ 64)
    then (d ∷ queue, err (protocol payload_out_of_arena))
    else (d ∷ queue, err (protocol payload_bounds_overflow))

pub window_none {ℓ} :
    {A : Type ℓ} (d : A) (slots : List A) (cap head tail : ℕ)
    → head ≡ tail
    → window d slots cap tail (head - tail) ≡ []
unfolding window
window_none d slots cap head tail e = ap (window d slots cap tail) none_left
  where
    none_left : head - tail ≡ 0
    none_left = omega arith

-- The entry at the tail.
abbrev pub oldest : Region → ReadyDesc
oldest r = get_or r.ready (r.hdr.ready_tail % r.hdr.ready_capacity) zero_ready

abbrev pub popped : Region → Region
popped r = with_hdr r (record r.hdr { ready_tail = add_u64 r.hdr.ready_tail 1 })

pub ready_queue-popped :
    (r : Region)
    → IsRegion r
    → r.hdr.ready_tail < r.hdr.ready_head
    → ready_queue r ≡ oldest r ∷ ready_queue (popped r)
unfolding ready_queue
ready_queue-popped r v lt =
    window_pop zero_ready r.ready r.hdr.ready_capacity r.hdr.ready_head r.hdr.ready_tail lt
    ∙ ap (λ t. oldest r ∷ window zero_ready r.ready r.hdr.ready_capacity t (r.hdr.ready_head - t))
        no_wrap
  where
    no_wrap : r.hdr.ready_tail + 1 ≡ add_u64 r.hdr.ready_tail 1
    no_wrap = omega (arith, v.ready_ring, lt)

-- At a well-formed region, `try_recv_desc` takes the oldest queued descriptor if its payload lies in
-- the arena, reports an empty ring, and leaves a descriptor that fails the check in the ring.
pub try_recv_desc_lem :
    (r : Region)
    → IsRegion r
    → r.hdr.arena_size < 2 ^ 64
    → (ready_queue (try_recv_desc r).0, (try_recv_desc r).1)
      ≡ take_next r.hdr.arena_size (ready_queue r)
unfolding try_recv_desc take_next after
try_recv_desc_lem r v small = elim (Bool-cases (r.hdr.ready_head == r.hdr.ready_tail)) [
  | inl e ↦ rw (e, empty e) refl
  | inr e ↦
      rw
        (
          e,
          ready_queue-popped r v (ground (arith, v.ready_ring, e)),
          validate_bounds_lem r _ _ small,
        )
        (ground (arith, ready_queue-popped r v (ground (arith, v.ready_ring, e))))
]
  where
    empty : (r.hdr.ready_head == r.hdr.ready_tail) ≡ true → ready_queue r ≡ []
    empty e =
        unfold ready_queue in
        window_none zero_ready r.ready r.hdr.ready_capacity r.hdr.ready_head r.hdr.ready_tail
          ((==_iff _ _).0 e)
