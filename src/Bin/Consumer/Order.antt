-- ===== src/Bin/Consumer/Order.antt =====
-- src/bin/shm2_consumer.rs: the frames that a run takes while enough of them are queued.
use shm2_rs.Base.{
  ℕ, suc, ◌+◌, ◌-◌, ◌%◌, ◌^◌, ◌≤◌, ◌<◌, ◌≡◌, refl, ap, sym, ◌∙◌, false, List, [], ◌∷◌, ◌++◌, map,
  some, length, All, leb, sub_u64, arith,
}
use mathlib.Core.List.{map-append, append_assoc, append-nil}
use mathlib.Core.Path.{subst}
use shm2_rs.Platform.{ok}
use shm2_rs.Transport.Types.{ReadyDesc, Region, ReceivedBuffer}
use shm2_rs.Transport.Reader.{
  try_recv_desc, after, try_recycle_desc, push_recycle, recycle_desc, recycle, recv_blocking,
}
use shm2_rs.Transport.Queues.{
  IsRegion, ready_queue, recycle_queue, push_recycle-IsRegion, recycle_queue-push_recycle,
}
use shm2_rs.Transport.Deliver.{buffer_in, recv_next}
use shm2_rs.Transport.Owners.Reads.{try_recv_desc-Read}
use shm2_rs.Bin.Consumer.{Turn, consume}

-- A turn without a sleep.
abbrev pub at_once : ℕ → Turn
at_once i = record { waiting = []; returning = [] }

-- A payload inside an arena of `size` bytes.
abbrev pub InArena : ℕ → ReadyDesc → Type 0
InArena size d = d.offset + d.length ≤ size

-- The buffers that wait to be freed.
abbrev pub returned_ids : Region → List ℕ
returned_ids r = map (λ d. d.buffer_id) (recycle_queue r)

-- A region whose recycle ring has room for `left` more buffers.
pub record Roomy (left : ℕ) (r : Region) : Type 0 where
  pub valid : IsRegion r
  pub small : r.hdr.arena_size < 2 ^ 64
  pub room : r.hdr.rec_head - r.hdr.rec_tail + left ≤ r.hdr.rec_capacity
  pub far : r.hdr.rec_head + left < 2 ^ 63

try_recv_desc-ring :
    (r : Region)
    → ((try_recv_desc r).0.hdr.rec_head ≡ r.hdr.rec_head)
      × ((try_recv_desc r).0.hdr.rec_tail ≡ r.hdr.rec_tail)
      × ((try_recv_desc r).0.hdr.rec_capacity ≡ r.hdr.rec_capacity)
unfolding try_recv_desc after
try_recv_desc-ring r = ground arith

try_recv_desc-Roomy : (left : ℕ) (r : Region) → Roomy left r → Roomy left (try_recv_desc r).0
try_recv_desc-Roomy left r s =
    let m = (try_recv_desc-Read r s.valid).0 in
    record {
      valid = m.valid;
      small = omega (arith, m.same_size, s.small);
      room = omega (arith, try_recv_desc-ring r, s.room);
      far = omega (arith, try_recv_desc-ring r, s.far);
    }

abbrev given_back : Region → ReceivedBuffer → Region
given_back r buf = push_recycle r buf.buffer_id buf.offset (length buf.payload % 2 ^ 32) 0

-- With room on the ring `recycle` does not wait.
recycle-given_back :
    (left : ℕ) (r : Region) (buf : ReceivedBuffer)
    → Roomy (suc left) r
    → recycle [] r buf ≡ some (given_back r buf)
unfolding recycle recycle_desc try_recycle_desc
recycle-given_back left r buf s = rw not_full refl
  where
    not_full : leb r.hdr.rec_capacity (sub_u64 r.hdr.rec_head r.hdr.rec_tail) ≡ false
    not_full = ground (arith, s.valid.recycle_ring, s.room)

given_back-Roomy :
    (left : ℕ) (r : Region) (buf : ReceivedBuffer)
    → Roomy (suc left) r
    → Roomy left (given_back r buf)
given_back-Roomy left r buf s = record {
  valid =
      push_recycle-IsRegion r s.valid buf.buffer_id buf.offset (length buf.payload % 2 ^ 32) 0
        (omega (arith, s.room)) (omega (arith, s.far));
  small = unfold push_recycle in s.small;
  room = unfold push_recycle in omega (arith, s.room, s.far);
  far = unfold push_recycle in omega (arith, s.far);
}

given_back-queue :
    (r : Region) (buf : ReceivedBuffer)
    → (ready_queue (given_back r buf) ≡ ready_queue r)
      × ((given_back r buf).arena ≡ r.arena)
      × ((given_back r buf).hdr.arena_size ≡ r.hdr.arena_size)
unfolding push_recycle ready_queue
given_back-queue r buf = (refl, refl, refl)

consume-step :
    (max i : ℕ) (r r1 r2 r' : Region) (buf : ReceivedBuffer) (bufs : List ReceivedBuffer)
    → recv_blocking [] r ≡ some (r1, ok buf)
    → recycle [] r1 buf ≡ some r2
    → consume at_once max (i + 1) r2 ≡ some (r', bufs, ok tt)
    → consume at_once (suc max) i r ≡ some (r', buf ∷ bufs, ok tt)
unfolding consume
consume-step max i r r1 r2 r' buf bufs e f g = rw (consume, e, f, g) refl

-- One turn: the oldest frame is received, and its buffer given back.
abbrev turned : Region → ReadyDesc → Region
turned r d = given_back (try_recv_desc r).0 (buffer_in r.arena d)

turned-lem :
    (left : ℕ) (r : Region) (d : ReadyDesc) (queue : List ReadyDesc)
    → Roomy (suc left) r
    → ready_queue r ≡ d ∷ queue
    → InArena r.hdr.arena_size d
    → Roomy left (turned r d)
      × (ready_queue (turned r d) ≡ queue)
      × ((turned r d).arena ≡ r.arena)
      × ((turned r d).hdr.arena_size ≡ r.hdr.arena_size)
      × (returned_ids (turned r d) ≡ returned_ids r ++ d.buffer_id ∷ [])
turned-lem left r d queue s first fits =
    let m = try_recv_desc-Read r s.valid in
    let s1 = try_recv_desc-Roomy (suc left) r s in
    let same = given_back-queue (try_recv_desc r).0 (buffer_in r.arena d) in
    (
      given_back-Roomy left (try_recv_desc r).0 (buffer_in r.arena d) s1,
      same.0 ∙ (recv_next r d queue s.valid s.small first fits).0,
      same.1 ∙ m.0.same_arena,
      same.2 ∙ m.0.same_size,
      ap (map (λ e. e.buffer_id)) (
            recycle_queue-push_recycle (try_recv_desc r).0 s1.valid d.buffer_id d.offset _ 0
              (omega (arith, s1.room)))
          ∙ map-append (λ e. e.buffer_id) (recycle_queue (try_recv_desc r).0) _
          ∙ ap (λ q. map (λ e. e.buffer_id) q ++ d.buffer_id ∷ []) m.1,
    )

consume_queue :
    (queue rest : List ReadyDesc) (i size : ℕ) (arena : ℕ → ℕ) (r : Region)
    → Roomy (length queue) r
    → ready_queue r ≡ queue ++ rest
    → All (InArena size) queue
    → r.hdr.arena_size ≡ size
    → r.arena ≡ arena
    → (r' : Region) × (consume at_once (length queue) i r
        ≡ some (r', map (buffer_in arena) queue, ok tt))
      × Roomy 0 r'
      × (ready_queue r' ≡ rest)
      × (returned_ids r' ≡ returned_ids r ++ map (λ d. d.buffer_id) queue)
unfolding consume
consume_queue [] rest i size arena r s q all same_size same_arena =
    (r, refl, s, q, sym (append-nil (returned_ids r)))
consume_queue (d ∷ queue) rest i size arena r s q (fits, all) same_size same_arena =
    let fits_r = subst (λ n. InArena n d) (sym same_size) fits in
    let (s2, queue2, arena2, size2, ids2) =
      turned-lem (length queue) r d (queue ++ rest) s q fits_r in
    let (r', run, s', left, ids) =
      consume_queue queue rest (i + 1) size arena (turned r d) s2 queue2 all (size2 ∙ same_size)
        (arena2 ∙ same_arena) in
    (
      r',
      consume-step (length queue) i r (try_recv_desc r).0 (turned r d) r' (buffer_in arena d)
          (map (buffer_in arena) queue)
          (subst (λ a. recv_blocking [] r ≡ some ((try_recv_desc r).0, ok (buffer_in a d)))
            same_arena (recv_next r d (queue ++ rest) s.valid s.small q fits_r).1)
          (subst (λ a. recycle [] (try_recv_desc r).0 (buffer_in a d) ≡ some (turned r d))
            same_arena
            (recycle-given_back (length queue) (try_recv_desc r).0 (buffer_in r.arena d)
              (try_recv_desc-Roomy (suc (length queue)) r s)))
          run,
      s',
      left,
      ids
          ∙ ap (λ l. l ++ map (λ e. e.buffer_id) queue) ids2
          ∙ append_assoc (returned_ids r) (d.buffer_id ∷ []) (map (λ e. e.buffer_id) queue),
    )

-- A consumer that finds as many frames queued as it wants, their payloads inside the arena, and room on
-- the recycle ring for all of them, ends without a sleep and without an error. It has received exactly
-- these frames, the oldest first, with the bytes that the arena had at the start; the others stay queued,
-- and the buffers of those received wait to be freed behind the ones that waited before. The head of the
-- recycle ring stays below 2 ^ 63.
pub consume_lem :
    (queue rest : List ReadyDesc) (r : Region)
    → Roomy (length queue) r
    → ready_queue r ≡ queue ++ rest
    → All (InArena r.hdr.arena_size) queue
    → (r' : Region) × (consume at_once (length queue) 0 r
        ≡ some (r', map (buffer_in r.arena) queue, ok tt))
      × IsRegion r'
      × (ready_queue r' ≡ rest)
      × (returned_ids r' ≡ returned_ids r ++ map (λ d. d.buffer_id) queue)
consume_lem queue rest r s q all =
    let (r', run, s', left, ids) =
      consume_queue queue rest 0 r.hdr.arena_size r.arena r s q all refl refl in
    (r', run, s'.valid, left, ids)
