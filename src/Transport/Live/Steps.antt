-- ===== src/Transport/Live/Steps.antt =====
-- src/transport.rs: `try_recv_latest_desc` as its loop and one `hand_out`.
use shm2_rs.Base.{
  ℕ, ◌+◌, ◌-◌, ◌%◌, ◌^◌, ◌<◌, ◌≡◌, refl, ap₂, ◌∙◌, max, true, false, List, some, sub_u64, leb, ◌==◌,
  get_or, arith,
}
use native.Mathlib.Decide.{dec_le}
use shm2_rs.Platform.{ok}
use shm2_rs.Transport.Types.{ReadyDesc, Region, SharedHeader}
use shm2_rs.Transport.Timeline.{with_hdr}
use shm2_rs.Transport.Ring.{window}
use shm2_rs.Transport.Writer.{zero_ready}
use shm2_rs.Transport.Reader.{received, drop_older, hand_out, deliver, try_recv_latest_desc}
use shm2_rs.Transport.Queues.{IsRegion, ready_queue, recycle_queue}
use shm2_rs.Transport.Receive.{validate_bounds_lem}
use shm2_rs.Transport.Latest.{Dropped, drop_older-Dropped, Dropped-none}
use shm2_rs.Transport.Live.{View, view, checked}

-- What `hand_out` makes of a region and a count.
hand_out-view :
    (chosen new_tail dropped : ℕ) (r : Region)
    → r.hdr.arena_size < 2 ^ 64
    → let c = get_or r.ready (chosen % r.hdr.ready_capacity) zero_ready in
      view (hand_out (r, dropped) chosen new_tail)
      ≡ checked r.hdr.arena_size c
          (
            ready_queue (with_hdr r (record r.hdr { ready_tail = new_tail })),
            recycle_queue r,
            ok (some (received c, dropped)),
          )
          (ready_queue r)
          (recycle_queue r)
unfolding hand_out deliver recycle_queue
hand_out-view chosen new_tail dropped r small = rw (validate_bounds_lem r _ _ small) (ground arith)

-- The same in terms of the region before the loop over the older entries.
pub hand_out-Dropped :
    (rounds cur chosen new_tail : ℕ) (r : Region) (out : Region × ℕ)
    → Dropped rounds cur r 0 out
    → r.hdr.arena_size < 2 ^ 64
    → let c = get_or r.ready (chosen % r.hdr.ready_capacity) zero_ready in
      view (hand_out out chosen new_tail)
      ≡ checked r.hdr.arena_size c
          (
            window zero_ready r.ready r.hdr.ready_capacity new_tail (r.hdr.ready_head - new_tail),
            recycle_queue out.0,
            ok (some (received c, out.1)),
          )
          (ready_queue r)
          (recycle_queue out.0)
unfolding ready_queue
hand_out-Dropped rounds cur chosen new_tail r out m small =
    hand_out-view chosen new_tail out.1 out.0 (rw m.same_hdr small)
    ∙ ap₂ seen m.same_hdr m.same_ready
  where
    seen : SharedHeader → List ReadyDesc → View
    seen hdr ready =
        checked hdr.arena_size (get_or ready (chosen % hdr.ready_capacity) zero_ready)
          (
            window zero_ready ready hdr.ready_capacity new_tail (hdr.ready_head - new_tail),
            recycle_queue out.0,
            ok (some (received (get_or ready (chosen % hdr.ready_capacity) zero_ready), out.1)),
          )
          (window zero_ready ready hdr.ready_capacity hdr.ready_tail
            (hdr.ready_head - hdr.ready_tail))
          (recycle_queue out.0)

-- The call at a ring with an entry, as a hand-out after the loop.
pub record Steps (r : Region) : Type 0 where
  pub older : Region × ℕ
  pub chosen : ℕ
  pub new_tail : ℕ
  pub runs : try_recv_latest_desc r ≡ hand_out older chosen new_tail
  pub dropped : Dropped (r.hdr.ready_head - r.hdr.ready_tail - 2) r.hdr.ready_tail r 0 older
  pub chosen_at : chosen ≡ r.hdr.ready_tail + (r.hdr.ready_head - r.hdr.ready_tail - 2)
  pub tail_at : new_tail ≡ r.hdr.ready_tail + max 1 (r.hdr.ready_head - r.hdr.ready_tail - 1)

module _ (r : Region) (v : IsRegion r) (small : r.hdr.arena_size < 2 ^ 64) where
  pub latest_one : r.hdr.ready_head ≡ r.hdr.ready_tail + 1 → Steps r
  unfolding try_recv_latest_desc
  latest_one one = record {
    older = (r, 0);
    chosen = r.hdr.ready_tail;
    new_tail = r.hdr.ready_head;
    runs = rw (not_empty, is_one, is_short) refl;
    dropped =
        Dropped-none (r.hdr.ready_head - r.hdr.ready_tail - 2) r.hdr.ready_tail r 0 v
          (omega (arith, one));
    chosen_at = omega (arith, one);
    tail_at = omega (arith, one);
  }
    where
      not_empty : (r.hdr.ready_head == r.hdr.ready_tail) ≡ false
      not_empty = ground (arith, one)

      is_one : (r.hdr.ready_head - r.hdr.ready_tail == 1) ≡ true
      is_one = ground (arith, one)

      is_short : leb (r.hdr.ready_head - r.hdr.ready_tail) 1 ≡ true
      is_short = ground (arith, one)

  pub latest_more :
      r.hdr.ready_tail + 1 < r.hdr.ready_head
      → r.hdr.rec_head + (r.hdr.ready_head - r.hdr.ready_tail) < 2 ^ 63
      → Steps r
  unfolding try_recv_latest_desc
  latest_more more far = record {
    older = drop_older (sub_u64 r.hdr.ready_head 2 - r.hdr.ready_tail) r.hdr.ready_tail r 0;
    chosen = sub_u64 r.hdr.ready_head 2;
    new_tail = sub_u64 r.hdr.ready_head 1;
    runs = rw (not_empty, not_one, not_short) refl;
    dropped = rw rounds (
        drop_older-Dropped (r.hdr.ready_head - r.hdr.ready_tail - 2) r.hdr.ready_tail r 0 v
          (omega (arith, far)));
    chosen_at = omega (arith, more, v.ready_ring);
    tail_at = omega (arith, more, v.ready_ring);
  }
    where
      not_empty : (r.hdr.ready_head == r.hdr.ready_tail) ≡ false
      not_empty = ground (arith, more)

      not_one : (r.hdr.ready_head - r.hdr.ready_tail == 1) ≡ false
      not_one = ground (arith, more)

      not_short : leb (r.hdr.ready_head - r.hdr.ready_tail) 1 ≡ false
      not_short = ground (arith, more)

      rounds :
          sub_u64 r.hdr.ready_head 2 - r.hdr.ready_tail ≡ r.hdr.ready_head - r.hdr.ready_tail - 2
      rounds = omega (arith, more, v.ready_ring)

  pub some-Steps :
      r.hdr.ready_tail < r.hdr.ready_head
      → r.hdr.rec_head + (r.hdr.ready_head - r.hdr.ready_tail) < 2 ^ 63
      → Steps r
  some-Steps q far = elim (dec_le (r.hdr.ready_tail + 2) r.hdr.ready_head) [
    | yes m ↦ latest_more (omega (arith, m)) far
    | no m ↦ latest_one (omega (arith, q, m))
  ]
