-- ===== src/Sink/Render/Fast.antt =====
-- src/shm2sink.rs: `render` of a buffer whose memory upstream got from the element's own allocator.
use shm2_rs.Base.{
  ℕ, ◌+◌, ◌^◌, ◌<◌, ◌≡◌, refl, ◌∙◌, false, List, ◌∷◌, none, some, inl, ==_iff, arith,
}
use shm2_rs.Base.Dict.{lookup, delete, lookup-delete}
use shm2_rs.Base.Int.{ℤ}
use shm2_rs.Transport.Types.{Region, Writer, AllocLease}
use shm2_rs.Transport.Timeline.{Clock}
use shm2_rs.Transport.Queues.{IsRegion}
use shm2_rs.Transport.Publish.{HasRoom, Published, wait_for_room, publish_lease_lem}
use shm2_rs.Sink.{State, tracker_of, put_tracker}
use shm2_rs.Sink.Tracker.{
  PendingLease, AllocTracker, ShmWritableMemory, mark_published, release_unpublished, drop_memory,
}
use shm2_rs.Sink.Render.{
  of_own, is_fast, is_own, mark_mapped, try_mark, publish_marked, render_with, render_round, Round,
  render_loop,
}

abbrev pub lease_at : ℕ → PendingLease → AllocLease
lease_at ptr p = record { buffer_id = p.buffer_id; offset = p.offset; len = p.len; ptr = ptr }

-- The tracker after the memory at `ptr` was published by `w`.
abbrev pub published_at : AllocTracker → ℕ → Writer → AllocTracker
published_at t ptr w = record { writer = some w; pending_by_ptr = delete ptr t.pending_by_ptr }

mark_published-whole :
    (t : AllocTracker) (ptr : ℕ) (p : PendingLease)
    → lookup ptr t.pending_by_ptr ≡ some p
    → mark_published t ptr p.len
      ≡ (record t { pending_by_ptr = delete ptr t.pending_by_ptr }, some (lease_at ptr p))
unfolding mark_published
mark_published-whole t ptr p e = rw (mark_published, e, (==_iff p.len p.len).1 refl) refl

-- A round on a tracked buffer is its publication.
pub render_round-leased :
    (peer : List (Region → Region)) (clock : Clock) (s : State) (t : AllocTracker) (w : Writer)
    (ptr : ℕ) (p : PendingLease) (pts_ns : ℤ)
    → s.unlocked ≡ false
    → tracker_of s ≡ some t
    → t.writer ≡ some w
    → lookup ptr t.pending_by_ptr ≡ some p
    → render_round peer clock s (of_own ptr p.len) pts_ns
      ≡ publish_marked peer clock s w
          (of_own ptr p.len)
          pts_ns
          (record t { pending_by_ptr = delete ptr t.pending_by_ptr }, some (lease_at ptr p))
unfolding render_round render_with try_mark mark_mapped is_fast is_own
render_round-leased peer clock s t w ptr p pts_ns locked tracked there pending =
    ground (arith, locked, tracked, there, mark_published-whole t ptr p pending)

drop_memory-absent :
    (t : AllocTracker) (mem : ShmWritableMemory)
    → lookup mem.ptr t.pending_by_ptr ≡ none
    → drop_memory t mem ≡ t
unfolding drop_memory release_unpublished
drop_memory-absent t mem e = rw (release_unpublished, e) refl

-- A whole buffer that the element's allocator handed out, that is not published yet, and whose one memory
-- GStreamer says is of that allocator, is published without a copy as soon as what the reader does makes
-- room in a well-formed ring: `render` succeeds in that round, queues the lease's descriptor last, and
-- leaves the arena's bytes and the free list as they are. The buffer is then no longer pending, so its
-- drop frees nothing.
pub render_loop-leased :
    (round : Round) (rounds : List Round) (s : State) (t : AllocTracker) (w : Writer) (ptr : ℕ)
    (p : PendingLease) (pts_ns : ℤ)
    → s.unlocked ≡ false
    → tracker_of s ≡ some t
    → t.writer ≡ some w
    → lookup ptr t.pending_by_ptr ≡ some p
    → IsRegion (wait_for_room round.peer w.region)
    → HasRoom (wait_for_room round.peer w.region)
    → (wait_for_room round.peer w.region).hdr.ready_head + 1 < 2 ^ 63
    → (w' : Writer) × (render_loop (round ∷ rounds) s (of_own ptr p.len) pts_ns
        ≡ some (put_tracker s (published_at t ptr w'), inl tt))
      × Published
          (record w { region = wait_for_room round.peer w.region })
          (lease_at ptr p)
          pts_ns
          w'
      × (drop_memory (published_at t ptr w') (record { ptr = ptr; len = p.len })
          ≡ published_at t ptr w')
unfolding render_loop publish_marked
render_loop-leased round rounds s t w ptr p pts_ns locked tracked there pending v room far =
    let (w', e, q) =
      publish_lease_lem round.peer w round.clock (lease_at ptr p) pts_ns v room far in
    (
      w',
      rw
          (
            render_loop,
            render_round-leased round.peer round.clock s t w ptr p pts_ns locked tracked there
                pending,
            publish_marked,
            e,
          )
          refl,
      q,
      drop_memory-absent (published_at t ptr w') (record { ptr = ptr; len = p.len })
          (lookup-delete ptr ptr t.pending_by_ptr ∙ rw ((==_iff ptr ptr).1 refl) refl),
    )
