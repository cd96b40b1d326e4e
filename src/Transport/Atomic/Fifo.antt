-- ===== src/Transport/Atomic/Fifo.antt =====
-- src/transport.rs: what the reader has received, followed by the queue, is what the writer announced;
-- the accesses that keep it so.
use shm2_rs.Base.{
  ℕ, ◌+◌, ◌-◌, ◌^◌, ◌<◌, ◌≡◌, refl, ap, ap₂, sym, ◌∙◌, List, [], ◌∷◌, ◌++◌, map, add_u64, ◌==◌,
  arith,
}
use mathlib.Core.List.{map-append, append_assoc}
use mathlib.Core.Path.{subst}
use shm2_rs.Base.Int.{ℤ}
use shm2_rs.Transport.Types.{ReadyDesc, Region, AllocLease}
use shm2_rs.Transport.Timeline.{Clock, maybe_publish_timeline_snapshot, force_timeline_snapshot}
use shm2_rs.Transport.Writer.{ready_desc, update_usage_metrics}
use shm2_rs.Transport.Reader.{received}
use shm2_rs.Transport.Queues.{ReadyRing, ready_queue}
use shm2_rs.Transport.Atomic.{
  WriterPc, resting, has_room, stored, announced, ReaderPc, waiting, copied, Race, put_region,
  put_slot, put_head, put_tail,
}
use shm2_rs.Transport.Atomic.Slots.{
  slot, AtWriter, AtReader, put_slot-queue, put_slot_self, put_slot-ring, put_head-queue,
  put_head-ring, put_tail-queue, put_tail-ring, put_slot-AtReader, put_head-AtReader,
  put_tail-AtWriter,
}
use shm2_rs.Base.{◌&&◌, not, Bool, Bool-cases, leb, inl, inr}

-- The order of the descriptors, and what it rests on.
pub record IsFifo (s : Race) : Type 0 where
  pub ring : ReadyRing s.writer.region
  pub writer_at : AtWriter s.writer.region s.at_writer
  pub reader_at : AtReader s.writer.region s.at_reader
  pub in_order : map received s.sent ≡ s.got ++ map received (ready_queue s.writer.region)

module _ (s : Race) (f : IsFifo s) where
  -- The ring as it is, with the two ends elsewhere.
  pub moved :
      (w : WriterPc) (r : ReaderPc)
      → AtWriter s.writer.region w
      → AtReader s.writer.region r
      → IsFifo (record s { at_writer = w; at_reader = r })
  moved w r at_w at_r = record {
    ring = f.ring;
    writer_at = at_w;
    reader_at = at_r;
    in_order = f.in_order;
  }

  pub writer_knows : (w : WriterPc) → s.at_writer ≡ w → AtWriter s.writer.region w
  writer_knows w e = subst (AtWriter s.writer.region) e f.writer_at

  pub reader_knows : (r : ReaderPc) → s.at_reader ≡ r → AtReader s.writer.region r
  reader_knows r e = subst (AtReader s.writer.region) e f.reader_at

  pub finish-IsFifo :
      (pts_ns : ℤ) (head : ℕ) (clock : Clock)
      → IsFifo (record s {
        writer = maybe_publish_timeline_snapshot (update_usage_metrics s.writer) clock pts_ns head;
        at_writer = resting;
      })
  unfolding maybe_publish_timeline_snapshot update_usage_metrics force_timeline_snapshot ready_queue
  finish-IsFifo pts_ns head clock = elim (Bool-cases quiet) [
    | inl e ↦
        rw e
          (record { ring = f.ring; writer_at = tt; reader_at = f.reader_at; in_order = f.in_order })
    | inr e ↦
        rw e
          (record { ring = f.ring; writer_at = tt; reader_at = f.reader_at; in_order = f.in_order })
  ]
    where
      quiet : Bool
      quiet =
          not (not (s.writer.region.hdr.timeline_gen == s.writer.last_timeline_snapshot_gen))
          && not (leb s.writer.timeline_beacon_ns (clock.due_now - s.writer.last_timeline_emit_ns))

  pub store_slot-IsFifo :
      (l : AllocLease) (pts_ns : ℤ) (head : ℕ)
      → s.at_writer ≡ has_room l pts_ns head
      → IsFifo
          (record (put_region s
            (put_slot s.writer.region head (ready_desc (add_u64 head 1) l pts_ns))) {
              at_writer = stored l pts_ns head;
            })
  store_slot-IsFifo l pts_ns head at =
      let (same, room) = writer_knows (has_room l pts_ns head) at in
      subst stored_at (sym same) (record {
        ring = put_slot-ring r (desc r.hdr.ready_head) f.ring;
        writer_at = (
          unfold put_slot in refl,
          unfold put_slot in room,
          put_slot_self r (desc r.hdr.ready_head) f.ring,
        );
        reader_at = put_slot-AtReader r (desc r.hdr.ready_head) s.at_reader f.ring room f.reader_at;
        in_order =
            f.in_order
            ∙ ap (λ q. s.got ++ map received q)
                (sym (put_slot-queue r (desc r.hdr.ready_head) f.ring room));
      })
    where
      r : Region
      r = s.writer.region

      desc : ℕ → ReadyDesc
      desc h = ready_desc (add_u64 h 1) l pts_ns

      stored_at : ℕ → Type 0
      stored_at h =
          IsFifo (record (put_region s (put_slot r h (desc h))) { at_writer = stored l pts_ns h })

  pub store_head-IsFifo :
      (l : AllocLease) (pts_ns : ℤ) (head : ℕ)
      → s.at_writer ≡ stored l pts_ns head
      → head + 1 < 2 ^ 63
      → IsFifo (record (put_region s (put_head s.writer.region (add_u64 head 1))) {
        at_writer = announced pts_ns head;
        sent = s.sent ++ ready_desc (add_u64 head 1) l pts_ns ∷ [];
      })
  store_head-IsFifo l pts_ns head at far =
      let (same, room, is) = writer_knows (stored l pts_ns head) at in
      subst announced_at (sym same) (record {
        ring = put_head-ring r f.ring room (omega (arith, far, same));
        writer_at = tt;
        reader_at = put_head-AtReader r s.at_reader f.ring room f.reader_at;
        in_order =
            map-append received s.sent (desc r.hdr.ready_head ∷ [])
            ∙ ap₂ (λ before d. before ++ received d ∷ []) f.in_order (sym (here_is same is))
            ∙ append_assoc s.got (map received (ready_queue r))
                (received (slot r r.hdr.ready_head) ∷ [])
            ∙ ap (λ q. s.got ++ q)
                (sym (map-append received (ready_queue r) (slot r r.hdr.ready_head ∷ [])))
            ∙ ap (λ q. s.got ++ map received q) (sym (put_head-queue r f.ring));
      })
    where
      r : Region
      r = s.writer.region

      desc : ℕ → ReadyDesc
      desc h = ready_desc (add_u64 h 1) l pts_ns

      here_is :
          head ≡ r.hdr.ready_head
          → slot r head ≡ desc head
          → slot r r.hdr.ready_head ≡ desc r.hdr.ready_head
      here_is same is = subst (λ h. slot r h ≡ desc h) same is

      announced_at : ℕ → Type 0
      announced_at h = IsFifo (record (put_region s (put_head r (add_u64 h 1))) {
        at_writer = announced pts_ns h;
        sent = s.sent ++ desc h ∷ [];
      })

  pub store_tail-IsFifo :
      (tail : ℕ) (d : ReadyDesc)
      → s.at_reader ≡ copied tail d
      → IsFifo (record (put_region s (put_tail s.writer.region (add_u64 tail 1))) {
        at_reader = waiting;
        got = s.got ++ received d ∷ [];
      })
  store_tail-IsFifo tail d at =
      let (same, lt, is) = reader_knows (copied tail d) at in
      subst taken_at (sym same) (record {
        ring = put_tail-ring r f.ring lt;
        writer_at = put_tail-AtWriter r s.at_writer f.ring lt f.writer_at;
        reader_at = tt;
        in_order =
            f.in_order
            ∙ ap (λ q. s.got ++ map received q) (put_tail-queue r f.ring lt)
            ∙ ap (λ e. s.got ++ received e ∷ map received (rest r)) (sym (is ∙ ap (slot r) same))
            ∙ sym (append_assoc s.got (received d ∷ []) (map received (rest r)));
      })
    where
      r : Region
      r = s.writer.region

      rest : Region → List ReadyDesc
      rest x = ready_queue (put_tail x (add_u64 x.hdr.ready_tail 1))

      taken_at : ℕ → Type 0
      taken_at t = IsFifo (record (put_region s (put_tail r (add_u64 t 1))) {
        at_reader = waiting;
        got = s.got ++ received d ∷ [];
      })
