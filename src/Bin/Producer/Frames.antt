-- ===== src/Bin/Producer/Frames.antt =====
-- src/bin/shm2_producer.rs: the frames of a run, while nobody consumes and the ready ring has room.
use shm2_rs.Base.{
  ℕ, zero, suc, ◌+◌, ◌-◌, ◌*◌, ◌^◌, max, ◌≤◌, ◌<◌, ◌≡◌, refl, ap, ap₂, sym, ◌∙◌, List, [], ◌∷◌,
  ◌++◌, some, length, length-append, arith, Bool-cases, inl, inr, ◌==◌, ◌%◌,
}
use mathlib.Core.List.{append_assoc, append-nil}
use mathlib.Core.Path.{subst}
use shm2_rs.Base.Int.{ℤ}
use shm2_rs.Base.Decimal.{decimal, length-decimal}
use shm2_rs.Base.Text.{codes}
use shm2_rs.Platform.{ok}
use shm2_rs.Allocator.{Allocation, FreeListAllocator}
use shm2_rs.Allocator.Reserve.{biggest, alloc-biggest}
use shm2_rs.Allocator.Ids.{IdsBelow, IdsBelow-fresh}
use shm2_rs.Transport.Types.{Writer}
use shm2_rs.Transport.Timeline.{Clock}
use shm2_rs.Transport.Writer.{publish, drain_recycles}
use shm2_rs.Transport.Queues.{ready_queue, recycle_queue}
use shm2_rs.Transport.Owners.Books.{IsOwned}
use shm2_rs.Transport.Owners.Moves.{drain_recycles-IsOwned}
use shm2_rs.Transport.Channel.{Frame, frames}
use shm2_rs.Transport.Channel.Alone.{Whole, publish-alone, publish-Whole, Whole-frames}
use shm2_rs.Transport.Drain.{free_all, Drained, drain_recycles_lem}
use shm2_rs.Transport.RoundTrip.{Delivered, publish_lem}
use shm2_rs.Bin.Producer.{
  payload_of, pts_of, Attempt, publish_frame, drain_sometimes, publish_frames,
}

-- An attempt that never sleeps.
abbrev pub now : Clock → Attempt
now clock = record { peer = []; clock = clock; sleep = λ r. r }

pub length-payload_of : (i : ℕ) → length (payload_of i) ≤ 60
unfolding payload_of
length-payload_of i = omega (
  arith,
  length-decimal i,
  length-append (codes "frame=") (decimal i ++ codes ";hello=shm-only;transport=gst-shm2"),
  length-append (decimal i) (codes ";hello=shm-only;transport=gst-shm2"),
)

-- A writer that can publish `left` more frames without a wait and without a loss, the next id at most
-- `n`, while nobody has given a buffer back. A frame takes at most 60 bytes and as many as it is aligned to.
pub record Steady (n left : ℕ) (w : Writer) : Type 0 where
  pub owned : IsOwned w [] []
  pub ids : IdsBelow n w.allocator
  pub some_id : 0 < n
  pub align : w.allocator_align ≤ 64
  pub arena : 60 ≤ w.region.hdr.arena_size
  pub reserve : left * 124 ≤ biggest w.allocator.free
  pub room : w.region.hdr.ready_head - w.region.hdr.ready_tail + left ≤ w.region.hdr.ready_capacity
  pub far : w.region.hdr.ready_head + left < 2 ^ 63
  pub ids_far : n + left < 2 ^ 32
  pub nothing_returned : recycle_queue w.region ≡ []
  pub rec_counters : (w.region.hdr.rec_head ≡ 0) × (w.region.hdr.rec_capacity ≡ 4096)

pub Drained-Steady :
    (n left : ℕ) (w w' : Writer)
    → drain_recycles w ≡ some w'
    → Drained w w'
    → Steady n left w
    → Steady n left w'
unfolding free_all
Drained-Steady n left w w' e m s = record {
  owned = drain_recycles-IsOwned w w' [] [] s.owned e;
  ids = m.ids n s.some_id s.ids;
  some_id = s.some_id;
  align = omega (arith, m.same_align, s.align);
  arena = omega (arith, m.same_arena, s.arena);
  reserve =
      subst (λ a. left * 124 ≤ biggest a.free)
        (sym (m.freed ∙ ap (free_all w.allocator) s.nothing_returned)) s.reserve;
  room = omega (arith, m.same_capacity, m.head, m.tail, s.room);
  far = omega (arith, m.head, s.far);
  ids_far = s.ids_far;
  nothing_returned = m.returned;
  rec_counters = (m.returning.0 ∙ s.rec_counters.0, m.returning.1 ∙ s.rec_counters.1);
}

Delivered-Steady :
    (n left id : ℕ) (w w' : Writer) (clock : Clock) (payload : List ℕ) (pts_ns : ℤ)
    (got : Allocation × FreeListAllocator)
    → length payload ≤ 60
    → publish [] w clock payload pts_ns ≡ some (w', ok id)
    → Delivered w payload pts_ns w' id
    → biggest w.allocator.free ≤ biggest got.1.free + (length payload + max w.allocator_align 1)
    → Whole w got.1 w'
    → Steady n (suc left) w
    → Steady (n + 1) left w'
Delivered-Steady n left id w w' clock payload pts_ns got short e d big all s =
    let ids = d.ids n s.some_id (omega (arith, s.ids_far)) s.ids in
    record {
      owned =
          publish-alone w w' clock payload pts_ns id s.owned (omega (arith, s.far))
            (IdsBelow-fresh (n + 1) w'.allocator ids) (omega (arith, short))
            (omega (arith, s.align)) e;
      ids = ids;
      some_id = omega arith;
      align = omega (arith, d.same_align, s.align);
      arena = omega (arith, d.same_arena, s.arena);
      reserve =
          subst (λ a. left * 124 ≤ biggest a.free) (sym all.allocator)
            (omega (arith, big, short, s.align, s.reserve));
      room = omega (arith, d.same_capacity, d.pending_le, s.room);
      far = omega (arith, d.head_le, s.far);
      ids_far = omega (arith, s.ids_far);
      nothing_returned = all.returned ∙ s.nothing_returned;
      rec_counters = (all.returning.0 ∙ s.rec_counters.0, all.returning.2 ∙ s.rec_counters.1);
    }

publish_frame-ok :
    (w w' : Writer) (clock : Clock) (i id : ℕ)
    → publish [] w clock (payload_of i) (pts_of i) ≡ some (w', ok id)
    → publish_frame (now clock ∷ []) w i ≡ some (w', ok id)
unfolding publish_frame
publish_frame-ok w w' clock i id e = rw (publish_frame, e) refl

-- The frames from `i` on, with their bytes and presentation times.
abbrev pub frame_of : ℕ → Frame
frame_of i = (payload_of i, pts_of i)

abbrev pub produced : (count i : ℕ) → List Frame
produced zero i = []
produced (suc count) i = frame_of i ∷ produced count (i + 1)

abbrev pub queued_frames : Writer → List Frame
queued_frames w = frames w.region.arena (ready_queue w.region)

-- A frame is published at the first attempt, and queued behind all others.
publish_frame-now :
    (n left : ℕ) (w : Writer) (clock : Clock) (i : ℕ)
    → Steady n (suc left) w
    → (w' : Writer) × (id : ℕ) × (publish_frame (now clock ∷ []) w i ≡ some (w', ok id))
      × Steady (n + 1) left w'
      × (queued_frames w' ≡ queued_frames w ++ frame_of i ∷ [])
publish_frame-now n left w clock i s =
    let (w', id, e, d) =
      publish_lem w clock (payload_of i) (pts_of i) s.owned.valid (omega (arith, s.room))
        (omega (arith, s.far)) (omega (arith, length-payload_of i)) (omega (arith, s.align))
        (omega (arith, length-payload_of i, s.arena)) in
    let (got, given, big) =
      alloc-biggest w.region.hdr.arena_size (length (payload_of i)) w.allocator_align w.allocator
        s.owned.valid.arena_valid (omega (arith, length-payload_of i)) (omega (arith, s.align))
        (omega (arith, length-payload_of i, s.align, s.reserve)) in
    let all =
      publish-Whole w w' clock (payload_of i) (pts_of i) id got s.owned.valid.region_valid
        (omega (arith, s.far)) (omega (arith, length-payload_of i)) given e in
    let s' =
      Delivered-Steady n left id w w' clock (payload_of i) (pts_of i) got (length-payload_of i) e d
        big all s in
    (
      w',
      id,
      publish_frame-ok w w' clock i id e,
      s',
      Whole-frames w w' got.1 (payload_of i) (pts_of i) id s'.owned d all,
    )

drain_sometimes-Steady :
    (n left i : ℕ) (w : Writer)
    → Steady n left w
    → (w' : Writer) × (drain_sometimes i w ≡ some w')
      × Steady n left w'
      × (queued_frames w' ≡ queued_frames w)
unfolding drain_sometimes
drain_sometimes-Steady n left i w s = elim (Bool-cases (i % 16 == 0)) [
  | inr other ↦ (w, rw other refl, s, refl)
  | inl sixteenth ↦
      let (w', e, m) = drain_recycles_lem w s.owned.valid in
      (
        w',
        rw (sixteenth, e) refl,
        Drained-Steady n left w w' e m s,
        ap₂ frames m.same_bytes m.queued,
      )
]

publish_frames-step :
    (attempts : ℕ → List Attempt) (count i id : ℕ) (w w1 w2 : Writer)
    → publish_frame (attempts i) w i ≡ some (w1, ok id)
    → drain_sometimes i w1 ≡ some w2
    → publish_frames attempts (suc count) i w ≡ publish_frames attempts count (i + 1) w2
unfolding publish_frames
publish_frames-step attempts count i id w w1 w2 e f = rw (publish_frames, e, f) refl

-- From a writer with room in its ready ring and in its arena for all of them, `count` frames are published
-- one after the other without a wait and without an error. The queue then holds the frames that were
-- queued before and all the new ones behind them, in their order and with their bytes.
pub publish_frames_lem :
    (clocks : ℕ → Clock) (count i n : ℕ) (w : Writer)
    → Steady n count w
    → (w' : Writer) × (publish_frames (λ j. now (clocks j) ∷ []) count i w ≡ some (w', ok tt))
      × Steady (n + count) 0 w'
      × (queued_frames w' ≡ queued_frames w ++ produced count i)
unfolding publish_frames
publish_frames_lem clocks zero i n w s =
    (w, refl, subst (λ k. Steady k 0 w) (omega arith) s, sym (append-nil (queued_frames w)))
publish_frames_lem clocks (suc count) i n w s =
    let (w1, id, e, s1, adds) = publish_frame-now n count w (clocks i) i s in
    let (w2, f, s2, same) = drain_sometimes-Steady (n + 1) count i w1 s1 in
    let (w', g, s', order) = publish_frames_lem clocks count (i + 1) (n + 1) w2 s2 in
    (
      w',
      publish_frames-step (λ j. now (clocks j) ∷ []) count i id w w1 w2 e f ∙ g,
      subst (λ k. Steady k 0 w') (omega arith) s',
      order
          ∙ ap (λ fs. fs ++ produced count (i + 1)) (same ∙ adds)
          ∙ append_assoc (queued_frames w) (frame_of i ∷ []) (produced count (i + 1)),
    )
