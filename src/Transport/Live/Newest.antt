-- ===== src/Transport/Live/Newest.antt =====
-- src/transport.rs: `try_recv_latest_desc` against the two queues.
use shm2_rs.Base.{
  ℕ, ◌+◌, ◌-◌, ◌%◌, ◌^◌, ◌≤◌, ◌<◌, ◌≡◌, ◌⊎◌, refl, ap, ap₂, sym, ◌∙◌, min, max, true, [], ◌++◌,
  ◌==◌, inl, inr, get_or, take, drop, length, arith,
}
use mathlib.Core.List.{append-nil}
use shm2_rs.Transport.Types.{Region}
use shm2_rs.Transport.Ring.{window, take-window, drop-window, get_or-window}
use shm2_rs.Transport.Writer.{zero_ready}
use shm2_rs.Transport.Reader.{try_recv_latest_desc}
use shm2_rs.Transport.Queues.{IsRegion, ready_queue, recycle_queue, length-ready_queue}
use shm2_rs.Transport.Receive.{window_none}
use shm2_rs.Transport.Latest.{free_slots, returns}
use shm2_rs.Transport.Live.{view, take_latest, behind}
use shm2_rs.Transport.Live.Steps.{Steps, some-Steps, hand_out-Dropped}

module _ (r : Region) (v : IsRegion r) (some_queued : r.hdr.ready_tail < r.hdr.ready_head)
    (st : Steps r) where
  chosen_entry :
      get_or r.ready (st.chosen % r.hdr.ready_capacity) zero_ready
      ≡ get_or (ready_queue r) (length (ready_queue r) - 2) zero_ready
  unfolding ready_queue
  chosen_entry =
      ap (λ k. get_or r.ready (k % r.hdr.ready_capacity) zero_ready) st.chosen_at
      ∙ sym (
          get_or-window zero_ready r.ready r.hdr.ready_capacity r.hdr.ready_tail
            (r.hdr.ready_head - r.hdr.ready_tail) (r.hdr.ready_head - r.hdr.ready_tail - 2)
            (omega (arith, some_queued)))
      ∙ ap (λ k. get_or (ready_queue r) (k - 2) zero_ready) (sym (length-ready_queue r))

  kept_entries :
      window zero_ready r.ready r.hdr.ready_capacity st.new_tail (r.hdr.ready_head - st.new_tail)
      ≡ drop (max 1 (length (ready_queue r) - 1)) (ready_queue r)
  unfolding ready_queue
  kept_entries =
      ap₂ (window zero_ready r.ready r.hdr.ready_capacity) st.tail_at (omega (arith, st.tail_at))
      ∙ sym (
          drop-window zero_ready r.ready r.hdr.ready_capacity r.hdr.ready_tail
            (r.hdr.ready_head - r.hdr.ready_tail) (max 1 (r.hdr.ready_head - r.hdr.ready_tail - 1))
            (omega (arith, some_queued)))
      ∙ ap (λ k. drop (max 1 (k - 1)) (ready_queue r)) (sym (length-ready_queue r))

  returned_entries :
      recycle_queue st.older.0
      ≡ recycle_queue r
        ++ returns r.hdr.rec_head
            (take (min (length (ready_queue r) - 2) (free_slots r)) (ready_queue r))
  unfolding ready_queue
  returned_entries =
      st.dropped.given_back
      ∙ ap (λ w. recycle_queue r ++ returns r.hdr.rec_head w)
          (sym (
            take-window zero_ready r.ready r.hdr.ready_capacity r.hdr.ready_tail
              (r.hdr.ready_head - r.hdr.ready_tail)
              (min (r.hdr.ready_head - r.hdr.ready_tail - 2) (free_slots r)) (omega arith)))
      ∙ ap
          (λ k.
            recycle_queue r
            ++ returns r.hdr.rec_head (take (min (k - 2) (free_slots r)) (ready_queue r)))
          (sym (length-ready_queue r))

  latest_seen :
      r.hdr.arena_size < 2 ^ 64
      → view (try_recv_latest_desc r)
        ≡ behind
            (recycle_queue r)
            (take_latest r.hdr.arena_size (free_slots r) r.hdr.rec_head (ready_queue r))
  unfolding take_latest
  latest_seen small =
      ap view st.runs
      ∙ hand_out-Dropped (r.hdr.ready_head - r.hdr.ready_tail - 2) r.hdr.ready_tail st.chosen
          st.new_tail r st.older st.dropped small
      ∙ rw (chosen_entry, kept_entries, returned_entries, dropped_count)
          (ground (arith, length-ready_queue r))
    where
      dropped_count : st.older.1 ≡ min (length (ready_queue r) - 2) (free_slots r)
      dropped_count = omega (arith, st.dropped.count, length-ready_queue r)

-- At a well-formed region whose counters stay below 2 ^ 63, `try_recv_latest_desc` on an empty ring
-- finds nothing. On one entry it takes that. On more it takes the second-newest and keeps the newest;
-- of the older ones it gives back to the recycle ring, oldest first, as many as there is room for, and
-- counts those; all of them leave the queue. A frame chosen outside the arena is an error, after which
-- all entries are still queued, the ones given back too.
pub try_recv_latest_desc_lem :
    (r : Region)
    → IsRegion r
    → r.hdr.arena_size < 2 ^ 64
    → r.hdr.rec_head + (r.hdr.ready_head - r.hdr.ready_tail) < 2 ^ 63
    → view (try_recv_latest_desc r)
      ≡ behind
          (recycle_queue r)
          (take_latest r.hdr.arena_size (free_slots r) r.hdr.rec_head (ready_queue r))
unfolding try_recv_latest_desc take_latest
try_recv_latest_desc_lem r v small far =
    elim (cases r.hdr.ready_tail r.hdr.ready_head v.ready_ring.tail_behind) [
      | inl same ↦ rw (same_test same, empty same, append-nil) refl
      | inr q ↦ latest_seen r v (omega (arith, q)) (some-Steps r v small q far) small
    ]
  where
    cases : (tail head : ℕ) → tail ≤ head → (tail ≡ head) ⊎ (tail < head)
    cases tail head h = omega arith

    same_test : r.hdr.ready_tail ≡ r.hdr.ready_head → (r.hdr.ready_head == r.hdr.ready_tail) ≡ true
    same_test same = ground (arith, same)

    empty : r.hdr.ready_tail ≡ r.hdr.ready_head → ready_queue r ≡ []
    empty same =
        unfold ready_queue in
        window_none zero_ready r.ready r.hdr.ready_capacity r.hdr.ready_head r.hdr.ready_tail
          (sym same)
