-- ===== src/Transport/Atomic/Order.antt =====
-- src/transport.rs: `publish_lease` and `try_recv_desc` keep the order, whatever the interleaving.
use shm2_rs.Base.{ℕ, ◌≤◌, ◌<◌, ◌≡◌, refl, true, false, add_u64, sub_u64, ltb, ◌==◌, arith}
use shm2_rs.Transport.Types.{Region}
use shm2_rs.Transport.Atomic.{
  publishing, has_head, has_room, waiting, saw_head, saw_tail, copied, Race, Step, call_publish,
  load_head, find_room, find_full, store_slot, store_head, finish, look, find_none, find_some, copy,
  refuse, store_tail, Reach, here, next,
}
use shm2_rs.Transport.Queues.{ReadyRing}
use shm2_rs.Transport.Atomic.Slots.{HasRoom, slot}
use shm2_rs.Transport.Atomic.Fifo.{
  IsFifo, moved, writer_knows, reader_knows, finish-IsFifo, store_slot-IsFifo, store_head-IsFifo,
  store_tail-IsFifo,
}

-- The comparison in the loop of `publish_lease`.
find_room-HasRoom :
    (r : Region) (head : ℕ)
    → ReadyRing r
    → head ≡ r.hdr.ready_head
    → ltb (sub_u64 head r.hdr.ready_tail) r.hdr.ready_capacity ≡ true
    → HasRoom r
find_room-HasRoom r head v same lt = ground (arith, v, same, lt)

-- The comparison in `try_recv_desc`.
find_some-AtReader :
    (r : Region) (head : ℕ)
    → r.hdr.ready_tail ≤ head
    → head ≤ r.hdr.ready_head
    → (head == r.hdr.ready_tail) ≡ false
    → r.hdr.ready_tail < r.hdr.ready_head
find_some-AtReader r head le seen ne = ground (arith, le, seen, ne)

Step-IsFifo : (s u : Race) → Step s u → IsFifo s → IsFifo u
Step-IsFifo s u (call_publish l pts_ns at live e) f =
    rw e (moved s f (publishing l pts_ns) s.at_reader tt f.reader_at)
Step-IsFifo s u (load_head l pts_ns at e) f =
    rw e (moved s f (has_head l pts_ns s.writer.region.hdr.ready_head) s.at_reader refl f.reader_at)
Step-IsFifo s u (find_room l pts_ns head at lt e) f =
    let same = writer_knows s f (has_head l pts_ns head) at in
    rw e (
      moved s f (has_room l pts_ns head) s.at_reader
        (same, find_room-HasRoom s.writer.region head f.ring same lt) f.reader_at)
Step-IsFifo s u (find_full l pts_ns head at ge e) f =
    rw e (moved s f (publishing l pts_ns) s.at_reader tt f.reader_at)
Step-IsFifo s u (store_slot l pts_ns head at e) f = rw e (store_slot-IsFifo s f l pts_ns head at)
Step-IsFifo s u (store_head l pts_ns head at far e) f =
    rw e (store_head-IsFifo s f l pts_ns head at far)
Step-IsFifo s u (finish pts_ns head clock at e) f =
    rw e (finish-IsFifo s f pts_ns (add_u64 head 1) clock)
Step-IsFifo s u (look at e) f = rw e (
    moved s f s.at_writer (saw_head s.writer.region.hdr.ready_head) f.writer_at
      (f.ring.tail_behind, omega arith))
Step-IsFifo s u (find_none head at eq e) f = rw e (moved s f s.at_writer waiting f.writer_at tt)
Step-IsFifo s u (find_some head at ne e) f =
    let (le, seen) = reader_knows s f (saw_head head) at in
    rw e (
      moved s f s.at_writer (saw_tail head s.writer.region.hdr.ready_tail) f.writer_at
        (refl, find_some-AtReader s.writer.region head le seen ne))
Step-IsFifo s u (copy head tail at e) f =
    let (same, lt) = reader_knows s f (saw_tail head tail) at in
    rw e
      (moved s f s.at_writer (copied tail (slot s.writer.region tail)) f.writer_at (same, lt, refl))
Step-IsFifo s u (refuse tail d why at bad e) f = rw e (moved s f s.at_writer waiting f.writer_at tt)
Step-IsFifo s u (store_tail tail d at good e) f = rw e (store_tail-IsFifo s f tail d at)

-- However the single loads and stores of one publishing writer and one receiving reader interleave, and
-- wherever the two stand in `publish_lease` and `try_recv_desc`: when the invariant holds at first, then
-- the descriptors that were received, followed by those that are queued, are those that were announced,
-- in their order, none lost or read twice or half written; and the ring's counters stay in bounds. What
-- is published are live leases, and the head stays below 2 ^ 63.
pub Reach-IsFifo : (s u : Race) → Reach s u → IsFifo s → IsFifo u
Reach-IsFifo s u here f = f
Reach-IsFifo s u (next {t = t} run step) f = Step-IsFifo t u step (Reach-IsFifo s t run f)
