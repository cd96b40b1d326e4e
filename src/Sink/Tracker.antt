-- ===== src/Sink/Tracker.antt =====
-- src/shm2sink.rs: `AllocTracker` and the allocator by which upstream elements write into the arena.
-- The tracker and the element share one writer (an `Arc`), which stands in the tracker here.
use shm2_rs.Base.{ℕ, ◌%◌, ◌^◌, max, Option, none, some, ◌⊎◌, inl, inr, ◌==◌, if◌then◌else◌}
use shm2_rs.Base.Dict.{Dict, lookup, delete, store}
use mathlib.Core.Option
use shm2_rs.Platform.{Result, ok, err}
use shm2_rs.Transport.Types.{Writer, AllocLease}
use shm2_rs.Transport.Writer.{alloc_lease, free_lease}

pub record PendingLease : Type 0 where
  pub buffer_id : ℕ
  pub offset : ℕ
  pub len : ℕ

pub record AllocTracker : Type 0 where
  pub writer : Option Writer
  pub pending_by_ptr : Dict PendingLease

-- The three messages of a `glib::BoolError` that do not report a poisoned mutex.
pub data BoolError : Type 0 where
  writer_not_available allocation_failed tracker_unavailable : BoolError

abbrev pub pending_of : AllocLease → PendingLease
pending_of lease = record { buffer_id = lease.buffer_id; offset = lease.offset; len = lease.len }

unfoldable pub record_lease :
    AllocTracker → Writer × Result AllocLease → AllocTracker × (AllocLease ⊎ BoolError)
record_lease t (w, ok lease) = (
  record t {
    writer = some w;
    pending_by_ptr = store lease.ptr (pending_of lease) t.pending_by_ptr;
  },
  inl lease,
)
record_lease t (w, err e) = (record t { writer = some w }, inr allocation_failed)

-- `size as u32`; `none` is the writer's loop out of fuel, which does not happen.
unfoldable pub alloc_lease_for_upstream :
    AllocTracker → (size align : ℕ) → Option (AllocTracker × (AllocLease ⊎ BoolError))
alloc_lease_for_upstream t size align = elim t.writer [
  | none ↦ some (t, inr writer_not_available)
  | some w ↦ Option.map (record_lease t) (alloc_lease w (size % 2 ^ 32) align)
]

unfoldable pub release_unpublished : AllocTracker → ℕ → AllocTracker
release_unpublished t ptr = elim (lookup ptr t.pending_by_ptr) [
  | none ↦ t
  | some pending ↦ record t {
    pending_by_ptr = delete ptr t.pending_by_ptr;
    writer = Option.map (λ w. (free_lease w pending.buffer_id).0) t.writer;
  }
]

-- Another length than the lease's is not the whole block: the entry is put back.
unfoldable pub mark_published : AllocTracker → (ptr len : ℕ) → AllocTracker × Option AllocLease
mark_published t ptr len = elim (lookup ptr t.pending_by_ptr) [
  | none ↦ (t, none)
  | some pending ↦
      let rest = delete ptr t.pending_by_ptr in
      let lease : AllocLease = record {
        buffer_id = pending.buffer_id;
        offset = pending.offset;
        len = pending.len;
        ptr = ptr;
      } in
      if pending.len == len
      then (record t { pending_by_ptr = rest }, some lease)
      else (record t { pending_by_ptr = store ptr pending rest }, none)
]

pub record ShmWritableMemory : Type 0 where
  pub ptr : ℕ
  pub len : ℕ

pub record ShmArenaAllocator : Type 0 where
  pub tracker : Option AllocTracker
  pub align : ℕ

unfoldable pub with_tracker : AllocTracker → ℕ → ShmArenaAllocator
with_tracker tracker align = record { tracker = some tracker; align = max align 1 }

wrap :
    ShmArenaAllocator
    → AllocTracker × (AllocLease ⊎ BoolError)
    → ShmArenaAllocator × (ShmWritableMemory ⊎ BoolError)
wrap a (t, inl lease) =
    (record a { tracker = some t }, inl (record { ptr = lease.ptr; len = lease.len }))
wrap a (t, inr e) = (record a { tracker = some t }, inr e)

-- `AllocatorImpl::alloc`.
alloc_memory : ShmArenaAllocator → ℕ → Option (ShmArenaAllocator × (ShmWritableMemory ⊎ BoolError))
alloc_memory a size = elim a.tracker [
  | none ↦ some (a, inr tracker_unavailable)
  | some t ↦ Option.map (wrap a) (alloc_lease_for_upstream t size a.align)
]

-- `Drop for ShmWritableMemory`, on the tracker that the memory came from.
unfoldable pub drop_memory : AllocTracker → ShmWritableMemory → AllocTracker
drop_memory t mem = release_unpublished t mem.ptr
