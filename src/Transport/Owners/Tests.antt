-- ===== src/Transport/Owners/Tests.antt =====
-- src/transport.rs: the theorems on orders of operations, at a small region.
use shm2_rs.Base.{ℕ, refl, [], ◌∷◌, arith, ◌++◌}
use shm2_rs.Allocator.{find}
use shm2_rs.Transport.Types.{Region}
use shm2_rs.Transport.Ring.{window}
use shm2_rs.Transport.Reader.{received, after, validate_bounds, try_recv_desc}
use shm2_rs.Transport.Queues.{ready_queue, recycle_queue}
use shm2_rs.Transport.Owners.Ledger.{count, present}
use shm2_rs.Transport.Owners.Books.{ready_tickets, recycle_tickets, received_ticket}
use shm2_rs.Transport.Owners.System.{
  System, Step, Reach, take, here, next, IsSystem, Reach-IsSystem,
}
use mathlib.Core.List.{Sublist}
use shm2_rs.Transport.Channel.{waiting, event, Moves, all_sent, all_received}
use shm2_rs.Transport.Channel.Steps.{Step-Moves}
use shm2_rs.Transport.Channel.Order.{Reach-sublist}
use shm2_rs.Transport.Owners.Hold.{Holding, start, more}
use shm2_rs.Transport.Tests.{header, full, full_writer, full_writer-IsWriter, frame}

-- Nobody but the ready ring holds a buffer.
abbrev pub queued_system : System
queued_system = record { writer = full_writer; leased = []; held = [] }

pub queued_system-IsSystem : IsSystem queued_system
unfolding find ready_queue recycle_queue window ready_tickets recycle_tickets count present
queued_system-IsSystem = record {
  valid = full_writer-IsWriter;
  books = record {
    one = λ j. ground arith;
    leased_live = tt;
    held_live = tt;
    queued_live = (refl, (refl, (refl, (refl, tt))));
    returned_live = tt;
  };
}

-- The consumer takes frame 2, then frame 3.
abbrev pub after_take : ℕ → Region
after_take tail = record full { hdr = record header { ready_head = 5; ready_tail = tail } }

abbrev pub one_taken : System
one_taken = record {
  writer = record full_writer { region = after_take 2 };
  leased = [];
  held = received_ticket (received (frame 2 0)) ∷ [];
}

abbrev pub two_taken : System
two_taken = record {
  writer = record full_writer { region = after_take 3 };
  leased = [];
  held = received_ticket (received (frame 3 32)) ∷ received_ticket (received (frame 2 0)) ∷ [];
}

first_take : Step queued_system one_taken
unfolding try_recv_desc after validate_bounds
first_take = take (after_take 2) (received (frame 2 0)) refl refl

second_take : Step one_taken two_taken
unfolding try_recv_desc after validate_bounds
second_take = take (after_take 3) (received (frame 3 32)) refl refl

both_takes : Reach queued_system two_taken
both_takes = next (next here first_take) second_take

Reach-IsSystem_example : IsSystem two_taken
Reach-IsSystem_example = Reach-IsSystem queued_system two_taken both_takes queued_system-IsSystem

Step-Moves_example :
    Moves (waiting queued_system) (event queued_system one_taken first_take) (waiting one_taken)
Step-Moves_example = Step-Moves queued_system one_taken first_take queued_system-IsSystem

Reach-sublist_example :
    Sublist
      (all_received queued_system two_taken both_takes ++ waiting two_taken)
      (waiting queued_system ++ all_sent queued_system two_taken both_takes)
Reach-sublist_example = Reach-sublist queued_system two_taken both_takes queued_system-IsSystem

pub frame_held : Holding 2 (0, 32) one_taken two_taken
unfolding find
frame_held = more (start refl) second_take refl
