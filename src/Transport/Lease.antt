-- ===== src/Transport/Lease.antt =====
-- src/transport.rs: the writer's invariant, and what `alloc_lease` comes to.
pub mod Dropping
pub mod Reset
pub mod Loop
use shm2_rs.Base.{
  ℕ, zero, suc, ◌+◌, ◌-◌, ◌%◌, ◌^◌, ◌≤◌, ◌<◌, ◌≡◌, refl, ap, sym, ◌∙◌, max, Bool, true, false, List,
  [], ◌∷◌, Option, none, some, add_u64, sub_u64, leb, ◌==◌, if◌then◌else◌, Bool-cases, Option-cases,
  inl, inr, get_or, drop, ==_iff, arith,
}
use shm2_rs.Allocator.{Allocation, FreeListAllocator, new, alloc, find, free_by_id, used_bytes}
use shm2_rs.Allocator.Ids.{TakesId}
use shm2_rs.Allocator.Valid.{IsValid}
use shm2_rs.Allocator.Alloc.{alloc-IsValid, alloc_lem, alloc-none}
use shm2_rs.Allocator.Free.{new-IsValid, free_by_id-IsValid, free_by_id-fresh}
use shm2_rs.Platform.{Result, ok, err, ShmError, exhausted}
use shm2_rs.Transport.Types.{Region, Writer, AllocLease}
use shm2_rs.Transport.Ring.{window}
use native.Mathlib.Decide.{dec_lt}
use shm2_rs.Transport.Writer.{
  zero_ready, drop_oldest_ready, reset_allocator_state, retry_after_reset, alloc_loop, alloc_lease,
  lease_of,
}
use shm2_rs.Transport.Queues.{IsRegion, ready_queue}
use shm2_rs.Transport.Receive.{ready_queue-popped, oldest, popped, window_none}

-- The writer's invariant: well-formed rings, an allocator valid for the arena, the next id not in use.
pub record IsWriter (w : Writer) : Type 0 where
  pub region_valid : IsRegion w.region
  pub arena_valid : IsValid w.region.hdr.arena_size w.allocator
  pub fresh : find w.allocator.next_id w.allocator.used ≡ none

-- A lease of `size` bytes: a live allocation of the writer's, aligned, inside the arena. Of the frames
-- that were queued only the oldest are gone.
pub record Granted (w : Writer) (size align : ℕ) (w' : Writer) (lease : AllocLease) : Type 0 where
  pub region_valid : IsRegion w'.region
  pub arena_valid : IsValid w'.region.hdr.arena_size w'.allocator
  pub same_arena : w'.region.hdr.arena_size ≡ w.region.hdr.arena_size
  pub same_bytes : w'.region.arena ≡ w.region.arena
  pub len : lease.len ≡ size
  pub at : lease.ptr ≡ lease.offset
  pub aligned : lease.offset % max align 1 ≡ 0
  pub inside_arena : lease.offset + size ≤ w.region.hdr.arena_size
  pub live : find lease.buffer_id w'.allocator.used ≡ some (lease.offset, size)
  pub dropped : ℕ
  pub kept : ready_queue w'.region ≡ drop dropped (ready_queue w.region)
  pub same_capacity : w'.region.hdr.ready_capacity ≡ w.region.hdr.ready_capacity
  pub same_align : w'.allocator_align ≡ w.allocator_align
  pub ids : TakesId w.allocator w'.allocator
  pub head_le : w'.region.hdr.ready_head ≤ w.region.hdr.ready_head
  pub pending_le :
      w'.region.hdr.ready_head - w'.region.hdr.ready_tail
      ≤ w.region.hdr.ready_head - w.region.hdr.ready_tail

-- A request refused after the reset, by a writer that stays well formed.
pub record Refused (w : Writer) (size : ℕ) (w' : Writer) (e : ShmError) : Type 0 where
  pub is_exhausted : e ≡ exhausted
  pub too_large : w.region.hdr.arena_size < size
  pub nothing_queued : ready_queue w'.region ≡ []
  pub first_failure : w'.region.hdr.alloc_failures ≡ 1
  pub valid : IsWriter w'
  pub same_arena : w'.region.hdr.arena_size ≡ w.region.hdr.arena_size
  pub same_align : w'.allocator_align ≡ w.allocator_align

abbrev pub Outcome : Writer → ℕ → ℕ → Writer × Result AllocLease → Type 0
Outcome w size align (w', ok lease) = Granted w size align w' lease
Outcome w size align (w', err e) = Refused w size w' e
