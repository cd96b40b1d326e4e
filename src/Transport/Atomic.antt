-- ===== src/Transport/Atomic.antt =====
-- src/transport.rs: `publish_lease` and `try_recv_desc`, an access of the shared ring at a time.
-- A load and a store of a counter, and the copy of a descriptor, are one step each; the steps of writer
-- and reader come in any order. The counters are stored with release and loaded with acquire, so what a
-- counter makes visible, its slots included, is seen in this order.
pub mod Slots
pub mod Fifo
pub mod Order
pub mod Overrun
pub mod Tests
use shm2_rs.Base.{
  ℕ, ◌+◌, ◌%◌, ◌^◌, ◌<◌, ◌≡◌, Bool, true, false, List, [], ◌∷◌, ◌++◌, some, add_u64, sub_u64,
  get_or, set, ltb, ◌==◌,
}
use shm2_rs.Base.Int.{ℤ}
use shm2_rs.Allocator.{find}
use shm2_rs.Platform.{Result, ok, err, ShmError}
use shm2_rs.Transport.Types.{ReadyDesc, Region, Writer, AllocLease, ReceivedDesc}
use shm2_rs.Transport.Timeline.{with_hdr, Clock, maybe_publish_timeline_snapshot}
use shm2_rs.Transport.Writer.{zero_ready, ready_desc, update_usage_metrics, drop_oldest_ready}
use shm2_rs.Transport.Reader.{received, validate_bounds}

-- Where the writer stands in `publish_lease`, with the local variables that are live there.
pub data WriterPc : Type 0 where
  resting : WriterPc
  publishing : AllocLease → ℤ → WriterPc  -- the head of the loop
  has_head : AllocLease → ℤ → (head : ℕ) → WriterPc
  has_room : AllocLease → ℤ → (head : ℕ) → WriterPc  -- the tail was loaded, and the ring is not full
  stored : AllocLease → ℤ → (head : ℕ) → WriterPc  -- the slot is written
  announced : ℤ → (head : ℕ) → WriterPc  -- the new head is stored

-- Where the reader stands in `try_recv_desc`.
pub data ReaderPc : Type 0 where
  waiting : ReaderPc
  saw_head : (head : ℕ) → ReaderPc
  saw_tail : (head tail : ℕ) → ReaderPc
  copied : (tail : ℕ) → ReadyDesc → ReaderPc

-- `sent` and `got` record the descriptors that were announced and those that were returned.
pub record Race : Type 0 where
  pub writer : Writer
  pub at_writer : WriterPc
  pub at_reader : ReaderPc
  pub sent : List ReadyDesc
  pub got : List ReceivedDesc

abbrev pub put_region : Race → Region → Race
put_region s r = record s { writer = record s.writer { region = r } }

unfoldable pub put_slot : Region → ℕ → ReadyDesc → Region
put_slot r head d = record r { ready = set r.ready (head % r.hdr.ready_capacity) d }

unfoldable pub put_head : Region → ℕ → Region
put_head r head = with_hdr r (record r.hdr { ready_head = head })

unfoldable pub put_tail : Region → ℕ → Region
put_tail r tail = with_hdr r (record r.hdr { ready_tail = tail })

-- One access. What is published is a lease that the allocator has live; the head stays below 2 ^ 63.
pub data Step (s u : Race) : Type 0 where
  call_publish :
      (l : AllocLease) (pts_ns : ℤ)
      → s.at_writer ≡ resting
      → find l.buffer_id s.writer.allocator.used ≡ some (l.offset, l.len)
      → u ≡ record s { at_writer = publishing l pts_ns }
      → Step s u
  load_head :
      (l : AllocLease) (pts_ns : ℤ)
      → s.at_writer ≡ publishing l pts_ns
      → u ≡ record s { at_writer = has_head l pts_ns s.writer.region.hdr.ready_head }
      → Step s u
  find_room :
      (l : AllocLease) (pts_ns : ℤ) (head : ℕ)
      → s.at_writer ≡ has_head l pts_ns head
      → ltb (sub_u64 head s.writer.region.hdr.ready_tail) s.writer.region.hdr.ready_capacity ≡ true
      → u ≡ record s { at_writer = has_room l pts_ns head }
      → Step s u
  find_full :
      (l : AllocLease) (pts_ns : ℤ) (head : ℕ)
      → s.at_writer ≡ has_head l pts_ns head
      → ltb (sub_u64 head s.writer.region.hdr.ready_tail) s.writer.region.hdr.ready_capacity ≡ false
      → u ≡ record s { at_writer = publishing l pts_ns }
      → Step s u
  store_slot :
      (l : AllocLease) (pts_ns : ℤ) (head : ℕ)
      → s.at_writer ≡ has_room l pts_ns head
      → u
        ≡ record (put_region s
            (put_slot s.writer.region head (ready_desc (add_u64 head 1) l pts_ns))) {
              at_writer = stored l pts_ns head;
            }
      → Step s u
  store_head :
      (l : AllocLease) (pts_ns : ℤ) (head : ℕ)
      → s.at_writer ≡ stored l pts_ns head
      → head + 1 < 2 ^ 63
      → u ≡ record (put_region s (put_head s.writer.region (add_u64 head 1))) {
        at_writer = announced pts_ns head;
        sent = s.sent ++ ready_desc (add_u64 head 1) l pts_ns ∷ [];
      }
      → Step s u
  finish :
      (pts_ns : ℤ) (head : ℕ) (clock : Clock)
      → s.at_writer ≡ announced pts_ns head
      → u ≡ record s {
        writer =
            maybe_publish_timeline_snapshot
              (update_usage_metrics s.writer)
              clock
              pts_ns
              (add_u64 head 1);
        at_writer = resting;
      }
      → Step s u
  look :
      s.at_reader ≡ waiting
      → u ≡ record s { at_reader = saw_head s.writer.region.hdr.ready_head }
      → Step s u
  find_none :
      (head : ℕ)
      → s.at_reader ≡ saw_head head
      → (head == s.writer.region.hdr.ready_tail) ≡ true
      → u ≡ record s { at_reader = waiting }
      → Step s u
  find_some :
      (head : ℕ)
      → s.at_reader ≡ saw_head head
      → (head == s.writer.region.hdr.ready_tail) ≡ false
      → u ≡ record s { at_reader = saw_tail head s.writer.region.hdr.ready_tail }
      → Step s u
  copy :
      (head tail : ℕ)
      → s.at_reader ≡ saw_tail head tail
      → u ≡ record s {
        at_reader =
            copied tail
              (get_or s.writer.region.ready (tail % s.writer.region.hdr.ready_capacity) zero_ready);
      }
      → Step s u
  refuse :
      (tail : ℕ) (d : ReadyDesc) (e : ShmError)
      → s.at_reader ≡ copied tail d
      → validate_bounds s.writer.region d.offset d.length ≡ err e
      → u ≡ record s { at_reader = waiting }
      → Step s u
  store_tail :
      (tail : ℕ) (d : ReadyDesc)
      → s.at_reader ≡ copied tail d
      → validate_bounds s.writer.region d.offset d.length ≡ ok tt
      → u ≡ record (put_region s (put_tail s.writer.region (add_u64 tail 1))) {
        at_reader = waiting;
        got = s.got ++ received d ∷ [];
      }
      → Step s u

pub data Reach (s : Race) : Race → Type 0 where
  here : Reach s s
  next : {t u : Race} → Reach s t → Step t u → Reach s u

-- `drop_oldest_ready`, a whole call between two steps of the reader; `alloc_lease` makes it.
pub data Move (s u : Race) : Type 0 where
  access : Step s u → Move s u
  drop : s.at_writer ≡ resting → u ≡ record s { writer = (drop_oldest_ready s.writer).0 } → Move s u

pub data Moves (s : Race) : Race → Type 0 where
  still : Moves s s
  move : {t u : Race} → Moves s t → Move t u → Moves s u
