-- ===== src/Transport/Latest.antt =====
-- src/transport.rs: `try_recv_latest_desc`, the live policy of taking the second-newest frame.
use shm2_rs.Base.{
  ℕ, zero, suc, ◌+◌, ◌-◌, ◌%◌, ◌^◌, ◌<◌, ◌≡◌, refl, ap, ◌∙◌, min, List, [], ◌∷◌, ◌++◌, add_u64,
  sub_u64, leb, Bool-cases, inl, inr, get_or, arith,
}
use mathlib.Core.List.{append-nil, append_assoc}
use shm2_rs.Transport.Types.{ReadyDesc, RecycleDesc, Region, SharedHeader}
use shm2_rs.Transport.Ring.{window}
use shm2_rs.Transport.Writer.{zero_ready}
use shm2_rs.Transport.Reader.{recycle_desc_of, push_recycle, try_recycle_desc, drop_older}
use shm2_rs.Transport.Queues.{
  IsRegion, recycle_queue, recycle_queue-push_recycle, push_recycle-IsRegion,
}

abbrev pub free_slots : Region → ℕ
free_slots r = r.hdr.rec_capacity - (r.hdr.rec_head - r.hdr.rec_tail)

-- The entries that give the buffers of these descriptors back as dropped, after `head` others.
unfoldable pub returns : ℕ → List ReadyDesc → List RecycleDesc
returns head [] = []
returns head (d ∷ queue) =
    recycle_desc_of (add_u64 head 1) d.buffer_id d.offset d.length 1
    ∷ returns (add_u64 head 1) queue

-- What the loop has done when it stops: as many entries as fit, oldest first, were given back, and
-- nothing else changed.
pub record Dropped (rounds cur : ℕ) (r : Region) (dropped : ℕ) (out : Region × ℕ) : Type 0 where
  pub count : out.1 ≡ dropped + min rounds (free_slots r)
  pub given_back :
      recycle_queue out.0
      ≡ recycle_queue r
        ++ returns r.hdr.rec_head
            (window zero_ready r.ready r.hdr.ready_capacity cur (min rounds (free_slots r)))
  pub same_hdr : out.0.hdr ≡ record r.hdr { rec_head = r.hdr.rec_head + min rounds (free_slots r) }
  pub same_ready : out.0.ready ≡ r.ready
  pub same_arena : out.0.arena ≡ r.arena
  pub valid : IsRegion out.0

abbrev with_rec_head : SharedHeader → ℕ → SharedHeader
with_rec_head hdr head = record hdr { rec_head = head }

-- The loop that gives nothing back.
pub Dropped-none :
    (rounds cur : ℕ) (r : Region) (dropped : ℕ)
    → IsRegion r
    → min rounds (free_slots r) ≡ 0
    → Dropped rounds cur r dropped (r, dropped)
unfolding returns window
Dropped-none rounds cur r dropped v e = record {
  count = omega (arith, e);
  given_back = rw (e, append-nil) refl;
  same_hdr = ap (with_rec_head r.hdr) (omega (arith, e));
  same_ready = refl;
  same_arena = refl;
  valid = v;
}

-- One more entry given back before the rest.
Dropped-more :
    (rounds cur : ℕ) (r : Region) (dropped : ℕ) (d : ReadyDesc) (out : Region × ℕ)
    → IsRegion r
    → d ≡ get_or r.ready (cur % r.hdr.ready_capacity) zero_ready
    → r.hdr.rec_head - r.hdr.rec_tail < r.hdr.rec_capacity
    → r.hdr.rec_head + 1 < 2 ^ 63
    → Dropped rounds (cur + 1) (push_recycle r d.buffer_id d.offset d.length 1) (dropped + 1) out
    → Dropped (suc rounds) cur r dropped out
unfolding returns window push_recycle
Dropped-more rounds cur r dropped d out v at room far m = record {
  count = omega (arith, m.count, more, v.recycle_ring);
  given_back = m.given_back ∙ given;
  same_hdr = m.same_hdr ∙ ap (with_rec_head r.hdr) (omega (arith, more, v.recycle_ring));
  same_ready = m.same_ready;
  same_arena = m.same_arena;
  valid = m.valid;
}
  where
    left : ℕ
    left = min rounds (r.hdr.rec_capacity - (add_u64 r.hdr.rec_head 1 - r.hdr.rec_tail))

    more : min (suc rounds) (free_slots r) ≡ suc left
    more = omega (arith, v.recycle_ring, room, far)

    given :
        recycle_queue (push_recycle r d.buffer_id d.offset d.length 1)
          ++ returns
              (add_u64 r.hdr.rec_head 1)
              (window zero_ready r.ready r.hdr.ready_capacity (cur + 1) left)
        ≡ recycle_queue r
          ++ returns r.hdr.rec_head
              (window zero_ready r.ready r.hdr.ready_capacity cur (min (suc rounds) (free_slots r)))
    given =
        rw
          (
            recycle_queue-push_recycle r v d.buffer_id d.offset d.length 1 room,
            append_assoc,
            more,
            ← at,
          )
          refl

-- The loop ends after its rounds, or earlier at a full recycle ring.
pub drop_older-Dropped :
    (rounds cur : ℕ) (r : Region) (dropped : ℕ)
    → IsRegion r
    → r.hdr.rec_head + rounds < 2 ^ 63
    → Dropped rounds cur r dropped (drop_older rounds cur r dropped)
unfolding drop_older try_recycle_desc
drop_older-Dropped zero cur r dropped v far = Dropped-none zero cur r dropped v (omega arith)
drop_older-Dropped (suc rounds) cur r dropped v far =
    elim (Bool-cases (leb r.hdr.rec_capacity (sub_u64 r.hdr.rec_head r.hdr.rec_tail))) [
      | inl full ↦
          rw full (Dropped-none (suc rounds) cur r dropped v (ground (arith, v.recycle_ring, full)))
      | inr room ↦ rw room (
          Dropped-more rounds cur r dropped d _ v refl (ground (arith, v.recycle_ring, room))
            (omega arith)
            (drop_older-Dropped rounds (cur + 1) (push_recycle r d.buffer_id d.offset d.length 1)
              (dropped + 1)
              (push_recycle-IsRegion r v d.buffer_id d.offset d.length 1
                (ground (arith, v.recycle_ring, room)) (omega arith))
              (unfold push_recycle in omega arith)))
    ]
  where
    d : ReadyDesc
    d = get_or r.ready (cur % r.hdr.ready_capacity) zero_ready
