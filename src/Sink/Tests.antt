-- ===== src/Sink/Tests.antt =====
-- src/shm2sink.rs: the theorems at small sinks.
use shm2_rs.Base.{ℕ, ◌≡◌, refl, ◌⊎◌, false, true, List, [], ◌∷◌, ◌++◌, none, some, arith}
use shm2_rs.Base.Int.{pos}
use shm2_rs.Base.Dict.{lookup}
use shm2_rs.Allocator.{find}
use shm2_rs.Platform.{Result, ok}
use shm2_rs.Platform.Resolve.{Backend, unix}
use shm2_rs.Base.Text.{Bytes}
use shm2_rs.Transport.Types.{Writer}
use shm2_rs.Transport.Tests.{empty, header, writer, full_writer, clock, empty-IsRegion}
use shm2_rs.Src.{StartError}
use shm2_rs.Sink.{State, default_settings, unlock, start}
use shm2_rs.Sink.Tracker.{PendingLease, AllocTracker, drop_memory, mark_published}
use shm2_rs.Sink.Owners.{IsTracked, tickets}
use mathlib.Core.List.{Sublist}
use shm2_rs.Transport.Types.{AllocLease}
use shm2_rs.Transport.Writer.{push_ready, update_usage_metrics, try_publish_lease}
use shm2_rs.Transport.Timeline.{maybe_publish_timeline_snapshot}
use shm2_rs.Base.Dict.{delete}
use shm2_rs.Sink.Owners.Steps.{on_ring}
use shm2_rs.Sink.Owners.Delivery.{sink_sent, sink_received, Run-sublist}
use shm2_rs.Sink.Owners.Sharing.{Sharing, Step, publish, put_back, drop, here, next, Run-IsTracked}
use shm2_rs.Transport.Queues.{ready_queue, recycle_queue}
use shm2_rs.Transport.Ring.{window}
use shm2_rs.Transport.Owners.Ledger.{count, present}
use shm2_rs.Transport.Owners.Books.{ready_tickets, recycle_tickets}
use shm2_rs.Sink.Render.{Buffer, another, of_arena, Round}
use shm2_rs.Sink.Render.Fast.{lease_at}
use shm2_rs.Sink.Running.{StartsFrom, start_lem}

abbrev sink : AllocTracker → State
sink t = record {
  settings = default_settings unix;
  allocator = some (record { tracker = some t; align = 64 });
  unlocked = false;
  collecting = true;
}

abbrev round : Round
round = record { peer = []; clock = clock; asleep = λ s. s }

-- Buffer 1 is leased to an upstream element.
abbrev lease : PendingLease
lease = record { buffer_id = 1; offset = 0; len = 32 }

abbrev leasing : Writer
leasing = record writer {
  allocator = record { free = (32, 96) ∷ []; used = (1, (0, 32)) ∷ []; next_id = 2 };
}

abbrev leased : AllocTracker
leased = record { writer = some leasing; pending_by_ptr = (0, lease) ∷ [] }

-- The leased memory, of which GStreamer names another allocator.
abbrev of_bindings : Buffer
of_bindings = record { n_memory = 1; mem0_allocator = some another; map = of_arena 0 32 }

-- The same lease, and a ready ring that is full.
abbrev crowded : AllocTracker
crowded = record leased { writer = some full_writer }

abbrev waiting : Round
waiting = record round { peer = (λ r. r) ∷ [] }

-- An arena of two bytes.
abbrev tiny : Writer
tiny = record writer {
  region = record empty { hdr = record header { arena_size = 2 } };
  allocator = record { free = (0, 2) ∷ []; used = []; next_id = 1 };
}

abbrev tiny_tracker : AllocTracker
tiny_tracker = record { writer = some tiny; pending_by_ptr = [] }

abbrev three_bytes : List ℕ
three_bytes = 10 ∷ 20 ∷ 30 ∷ []

abbrev stopping : Round
stopping = record round { asleep = unlock }

abbrev stopped : State
stopped = record {
  settings = default_settings unix;
  allocator = none;
  unlocked = false;
  collecting = false;
}

abbrev as_asked : Backend → Bytes → ℕ → ℕ → Result ℕ
as_asked backend name size perms = ok size

start_lem_example :
    (out : State × (Unit {0} ⊎ StartError)) × (start as_asked 7 unix stopped ≡ some out)
    × StartsFrom stopped out
start_lem_example =
    start_lem as_asked 7 unix stopped refl (omega arith) (omega arith) (λ backend name. refl)

-- A beacon once a second.

-- The memory is published in part, so that it is copied, and dropped then.
abbrev busy : Sharing
busy = record { tracker = leased; held = [] }

abbrev put : Sharing
put = record { tracker = (mark_published leased 0 16).0; held = [] }

abbrev dropped : Sharing
dropped = record {
  tracker = drop_memory (mark_published leased 0 16).0 (record { ptr = 0; len = 32 });
  held = [];
}

busy-IsTracked : IsTracked busy.tracker busy.held
unfolding find tickets ready_queue recycle_queue window ready_tickets recycle_tickets count present
busy-IsTracked = record {
  w = leasing;
  writer = refl;
  owned = record {
    valid = record {
      region_valid = empty-IsRegion;
      arena_valid = record {
        tiles = λ x. ground arith;
        bytes = refl;
        free_in = omega arith;
        used_in = omega arith;
        keys = (refl, tt);
        small = omega arith;
      };
      fresh = refl;
    };
    books = record {
      one = λ j. ground arith;
      leased_live = (refl, tt);
      held_live = tt;
      queued_live = tt;
      returned_live = tt;
    };
  };
  keyed = ((refl, omega arith), tt);
}

in_part : Step busy put
unfolding mark_published lookup
in_part = put_back 0 16 put.tracker refl refl

Run-IsTracked_example : IsTracked dropped.tracker dropped.held
Run-IsTracked_example =
    Run-IsTracked busy dropped (next (next here in_part) (drop (record { ptr = 0; len = 32 }) refl))
      busy-IsTracked

-- The whole memory, published.
abbrev whole : AllocLease
whole = lease_at 0 lease

abbrev sent_writer : Writer
sent_writer =
    maybe_publish_timeline_snapshot
      (update_usage_metrics (record leasing { region = push_ready empty whole (pos 40) })) clock
      (pos 40) 1

abbrev sent : Sharing
sent = record {
  tracker = record (mark_published leased 0 32).0 { writer = some sent_writer };
  held = [];
}

whole_published : Step busy sent
unfolding mark_published lookup delete try_publish_lease
whole_published =
    publish 0 32 (mark_published leased 0 32).0 whole clock (pos 40) leasing sent_writer refl refl
      (omega arith) refl refl

Run-sublist_example :
    Sublist
      (sink_received busy sent (next here whole_published) ++ on_ring (some sent_writer))
      (on_ring (some leasing) ++ sink_sent busy sent (next here whole_published))
Run-sublist_example = Run-sublist busy sent (next here whole_published) busy-IsTracked
