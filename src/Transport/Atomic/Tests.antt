-- ===== src/Transport/Atomic/Tests.antt =====
-- src/transport.rs: interleavings of a publishing writer and a receiving reader.
use shm2_rs.Base.{◌≡◌, refl, none, some, get_or, [], ◌∷◌, ◌++◌, arith}
use shm2_rs.Base.Int.{pos}
use shm2_rs.Allocator.{find}
use shm2_rs.Transport.Queues.{IsRegion, ready_queue}
use shm2_rs.Transport.Reader.{received, validate_bounds}
use shm2_rs.Transport.Writer.{ready_desc, zero_ready}
use shm2_rs.Transport.Receive.{oldest}
use shm2_rs.Transport.Tests.{full_writer, full, frame}
use shm2_rs.Transport.Types.{Region, Writer, AllocLease}
use shm2_rs.Transport.Atomic.{
  resting, waiting, copied, Race, Step, put_slot, put_head, put_tail, publishing, announced,
  call_publish, load_head, find_room, find_full, store_slot, store_head, look, find_some, copy,
  store_tail, Reach, here, next, Moves,
}
use shm2_rs.Transport.Atomic.Fifo.{IsFifo}
use shm2_rs.Transport.Atomic.Order.{Reach-IsFifo}
use shm2_rs.Transport.Atomic.Overrun.{overrun}

-- The arena of `full` with room behind it, where buffer 6 is leased.
abbrev wide : Region
wide = record full { hdr = record full.hdr { arena_size = 256 } }

abbrev lease_6 : AllocLease
lease_6 = record { buffer_id = 6; offset = 128; len = 16; ptr = 128 }

abbrev wide_writer : Writer
wide_writer = record full_writer {
  region = wide;
  allocator = record {
    free = (144, 112) ∷ [];
    used = (6, (128, 16)) ∷ full_writer.allocator.used;
    next_id = 7;
  };
}

wide-IsRegion : IsRegion wide
wide-IsRegion = record { ready_ring = ground arith; recycle_ring = ground arith }

lease_6-live : find 6 wide_writer.allocator.used ≡ some (128, 16)
unfolding find
lease_6-live = refl

-- Four frames wait, and the ring is full.
abbrev at_rest : Race
at_rest = record {
  writer = wide_writer;
  at_writer = resting;
  at_reader = waiting;
  sent = ready_queue wide;
  got = [];
}

at_rest-IsFifo : IsFifo at_rest
at_rest-IsFifo = record {
  ring = wide-IsRegion.ready_ring;
  writer_at = tt;
  reader_at = tt;
  in_order = refl;
}

-- The writer finds the ring full while the reader copies the oldest frame.
abbrev taking : Race
taking = record at_rest { at_writer = publishing lease_6 (pos 9); at_reader = copied 1 (frame 2 0) }

at_rest-taking : Reach at_rest taking
at_rest-taking =
    next
      (next
        (next
          (next
            (next (next here (call_publish lease_6 (pos 9) refl lease_6-live refl))
              (look refl refl))
            (load_head lease_6 (pos 9) refl refl))
          (find_some 5 refl refl refl))
        (copy 5 1 refl refl))
      (find_full lease_6 (pos 9) 5 refl refl refl)

-- The reader stores the tail, and the writer uses the slot at once.
abbrev used : Race
used = record taking {
  writer = record wide_writer {
    region = put_head (put_slot (put_tail wide 2) 5 (ready_desc 6 lease_6 (pos 9))) 6;
  };
  at_writer = announced (pos 9) 5;
  at_reader = waiting;
  sent = ready_queue wide ++ ready_desc 6 lease_6 (pos 9) ∷ [];
  got = received (frame 2 0) ∷ [];
}

taking-used : Reach at_rest used
unfolding put_slot put_head put_tail validate_bounds
taking-used =
    next
      (next
        (next
          (next (next at_rest-taking (store_tail 1 (frame 2 0) refl refl refl))
            (load_head lease_6 (pos 9) refl refl))
          (find_room lease_6 (pos 9) 5 refl refl refl))
        (store_slot lease_6 (pos 9) 5 refl refl))
      (store_head lease_6 (pos 9) 5 refl (omega arith) refl)

Reach-IsFifo_example : IsFifo used
Reach-IsFifo_example = Reach-IsFifo at_rest used taking-used at_rest-IsFifo

overrun_example :
    (t u : Race) × Moves (record at_rest { at_reader = copied 1 (frame 2 0) }) t
    × Step t u
    × (t.writer.region.hdr.ready_tail ≡ 3)
    × (u.writer.region.hdr.ready_tail ≡ 2)
    × (u.sent ≡ ready_queue wide)
    × (u.writer.region.hdr.ready_head ≡ 5)
    × (oldest u.writer.region ≡ get_or wide.ready 2 zero_ready)
    × (find (oldest u.writer.region).buffer_id u.writer.allocator.used ≡ none)
unfolding validate_bounds
overrun_example =
    overrun (record at_rest { at_reader = copied 1 (frame 2 0) }) 1 (frame 2 0)
      wide-IsRegion.ready_ring refl refl refl (omega arith) refl
