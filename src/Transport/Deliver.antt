-- ===== src/Transport/Deliver.antt =====
-- src/transport.rs: a published payload as `recv_blocking` returns it.
use shm2_rs.Base.{
  ℕ, zero, suc, ◌+◌, ◌^◌, ◌≤◌, ◌<◌, ◌≡◌, refl, ap, ◌∙◌, List, [], ◌∷◌, ◌++◌, Option, none, some,
  le→leb, length, drop, arith,
}
use shm2_rs.Base.Int.{ℤ}
use shm2_rs.Platform.{Result, ok, err}
use shm2_rs.Transport.Types.{ReadyDesc, ReceivedDesc, Region, Writer, ReceivedBuffer}
use shm2_rs.Transport.Timeline.{Clock}
use shm2_rs.Transport.Writer.{ready_desc, publish}
use shm2_rs.Transport.Reader.{
  received, read_bytes, buffer_of, recv_blocking, recv_desc_blocking, settled, after, try_recv_desc,
  payload_ptr,
}
use shm2_rs.Transport.Queues.{IsRegion, ready_queue}
use shm2_rs.Transport.Publish.{HasRoom}
use shm2_rs.Transport.Receive.{try_recv_desc_lem, take_next, Taken, validate_bounds_lem}
use shm2_rs.Transport.Lease.{IsWriter}
use shm2_rs.Transport.RoundTrip.{publish_lem}

settled-some :
    (out : Region × Result (Option ReceivedDesc)) (desc : ReceivedDesc)
    → out.1 ≡ ok (some desc)
    → settled out ≡ some (out.0, ok desc)
unfolding settled
settled-some (r, ok none) desc e = absurd (cc)
settled-some (r, ok (some d)) desc e = cc
settled-some (r, err e') desc e = absurd (cc)

-- Taking a descriptor leaves the arena.
try_recv_desc-arena :
    (r : Region)
    → ((try_recv_desc r).0.arena ≡ r.arena)
      × ((try_recv_desc r).0.hdr.arena_size ≡ r.hdr.arena_size)
unfolding try_recv_desc after
try_recv_desc-arena r = ground arith

drop-nil : (n : ℕ) → drop {A = ReadyDesc} n [] ≡ []
drop-nil zero = refl
drop-nil (suc n) = refl

abbrev pub buffer_in : (ℕ → ℕ) → ReadyDesc → ReceivedBuffer
buffer_in arena d = record {
  seq = d.seq;
  buffer_id = d.buffer_id;
  pts_ns = d.pts_ns;
  dts_ns = d.dts_ns;
  duration_ns = d.duration_ns;
  flags = d.flags;
  payload = read_bytes arena d.offset d.length;
  offset = d.offset;
}

-- What `recv_blocking` returns for an oldest frame inside the arena.
pub recv_next :
    (r : Region) (d : ReadyDesc) (queue : List ReadyDesc)
    → IsRegion r
    → r.hdr.arena_size < 2 ^ 64
    → ready_queue r ≡ d ∷ queue
    → d.offset + d.length ≤ r.hdr.arena_size
    → (ready_queue (try_recv_desc r).0 ≡ queue)
      × (recv_blocking [] r ≡ some ((try_recv_desc r).0, ok (buffer_in r.arena d)))
unfolding recv_blocking recv_desc_blocking buffer_of payload_ptr
recv_next r d queue v small one fits = (
  ap (λ t. t.0) taken,
  rw
      (
        settled-some (try_recv_desc r) (received d) (ap (λ t. t.1) taken),
        validate_bounds_lem (try_recv_desc r).0 d.offset d.length
            (rw (try_recv_desc-arena r).1 small),
        (try_recv_desc-arena r).1,
        le→leb _ _ fits,
        (try_recv_desc-arena r).0,
      )
      refl,
)
  where
    taken :
        ◌≡◌ {A = Taken}
          (ready_queue (try_recv_desc r).0, (try_recv_desc r).1)
          (queue, ok (some (received d)))
    taken = try_recv_desc_lem r v small ∙ rw one (unfold take_next in rw (le→leb _ _ fits) refl)

-- A payload of less than 2 ^ 32 bytes that the arena can hold, published by a well-formed writer with
-- a ready ring that has room while nothing is queued, comes back whole: the next `recv_blocking`
-- returns a buffer with its bytes, its presentation time and the id that `publish` gave, and empties
-- the queue. The counter stays below 2 ^ 63 and the alignment is at most 2 ^ 62.
pub recv_blocking-publish :
    (w : Writer) (clock : Clock) (payload : List ℕ) (pts_ns : ℤ)
    → IsWriter w
    → HasRoom w.region
    → w.region.hdr.ready_head + 1 < 2 ^ 63
    → ready_queue w.region ≡ []
    → length payload < 2 ^ 32
    → w.allocator_align ≤ 2 ^ 62
    → length payload ≤ w.region.hdr.arena_size
    → (w' : Writer) × (id : ℕ) × (r : Region) × (buf : ReceivedBuffer) × (publish [] w clock payload
          pts_ns
        ≡ some (w', ok id))
      × (recv_blocking [] w'.region ≡ some (r, ok buf))
      × (buf.payload ≡ payload)
      × (buf.buffer_id ≡ id)
      × (buf.pts_ns ≡ pts_ns)
      × (ready_queue r ≡ [])
recv_blocking-publish w clock payload pts_ns v room far none_queued short q fits =
    let (w', id, e, d) = publish_lem w clock payload pts_ns v room far short q fits in
    let desc =
      ready_desc d.seq
        (record { buffer_id = id; offset = d.offset; len = length payload; ptr = d.offset })
        pts_ns in
    let got =
      recv_next w'.region desc [] d.region_valid
        (rw d.same_arena (omega (arith, v.arena_valid.small)))
        (d.queued ∙ ap (λ l. l ++ desc ∷ []) (ap (drop d.dropped) none_queued ∙ drop-nil d.dropped))
        (rw d.same_arena d.inside_arena) in
    (
      w',
      id,
      (try_recv_desc w'.region).0,
      buffer_in w'.region.arena desc,
      e,
      got.1,
      d.bytes,
      refl,
      refl,
      got.0,
    )
