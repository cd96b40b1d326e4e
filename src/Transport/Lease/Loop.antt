-- ===== src/Transport/Lease/Loop.antt =====
-- src/transport.rs: the loop of `alloc_lease`.
use shm2_rs.Base.{
  ℕ, zero, suc, ◌-◌, ◌^◌, ◌≤◌, ◌<◌, ◌≡◌, refl, ap, true, false, Option, none, some, sub_u64,
  Option-cases, inl, inr, arith,
}
use shm2_rs.Allocator.{alloc}
use shm2_rs.Platform.{Result, ok}
use shm2_rs.Transport.Types.{Writer, AllocLease}
use native.Mathlib.Decide.{dec_lt}
use shm2_rs.Transport.Writer.{
  drop_oldest_ready, reset_allocator_state, retry_after_reset, alloc_loop, alloc_lease, lease_of,
}
use shm2_rs.Transport.Lease.{IsWriter, Outcome}
use shm2_rs.Transport.Lease.Dropping.{
  drop_oldest_ready-IsWriter, drop_oldest_ready-queue, drop_oldest_ready-empty,
  drop_oldest_ready-align, drop_oldest_ready-KeepsIds, Outcome-drop,
}
use shm2_rs.Transport.Lease.Reset.{alloc-Granted, retry-Outcome, queue-empty}

-- What `alloc_loop` comes to, with more fuel than there are frames queued.
abbrev Ends : Writer → ℕ → ℕ → Option (Writer × Result AllocLease) → Type 0
Ends w size align run =
    (out : Writer × Result AllocLease) × (run ≡ some out) × Outcome w size align out

-- The two ways on from an allocation that fails.
pub alloc_loop-dropping :
    (fuel : ℕ) (w : Writer) (size align : ℕ)
    → alloc w.allocator size align ≡ none
    → (drop_oldest_ready w).1 ≡ true
    → alloc_loop (suc fuel) w size align ≡ alloc_loop fuel (drop_oldest_ready w).0 size align
unfolding alloc_loop
alloc_loop-dropping fuel w size align e d = ground arith

pub alloc_loop-resetting :
    (fuel : ℕ) (w : Writer) (size align : ℕ)
    → alloc w.allocator size align ≡ none
    → (drop_oldest_ready w).1 ≡ false
    → alloc_loop (suc fuel) w size align
      ≡ some (
          retry_after_reset
            (reset_allocator_state w)
            (alloc (reset_allocator_state w).allocator size align))
unfolding alloc_loop
alloc_loop-resetting fuel w size align e d = ground arith

alloc_loop-Ends :
    (fuel : ℕ) (w : Writer) (size align : ℕ)
    → IsWriter w
    → size < 2 ^ 32
    → align ≤ 2 ^ 62
    → w.region.hdr.ready_head - w.region.hdr.ready_tail < fuel
    → Ends w size align (alloc_loop fuel w size align)
unfolding alloc_loop
alloc_loop-Ends zero w size align v s q enough = elim enough [ ]
alloc_loop-Ends (suc fuel) w size align v s q enough =
    elim (Option-cases (alloc w.allocator size align)) [
      | inr (got, e) ↦
          rw (e, alloc_loop)
            (
              (record w { allocator = got.1 }, ok (lease_of got.0)),
              refl,
              alloc-Granted w size align got.0 got.1 v s q e,
            )
      | inl e ↦ elim (dec_lt w.region.hdr.ready_tail w.region.hdr.ready_head) [
        | yes lt ↦ rw (alloc_loop-dropping fuel w size align e (drop_oldest_ready-queue w v lt).0) (
            after_drop lt (
              alloc_loop-Ends fuel (drop_oldest_ready w).0 size align
                (drop_oldest_ready-IsWriter w v lt) s q (fewer lt)))
        | no ge ↦
            rw
              (alloc_loop-resetting fuel w size align e
                (ap (λ r. r.1) (drop_oldest_ready-empty w (no_more ge))))
              (_, refl, retry-Outcome w size align v s q (queue-empty w (no_more ge)))
      ]
    ]
  where
    fewer :
        w.region.hdr.ready_tail < w.region.hdr.ready_head
        → (drop_oldest_ready w).0.region.hdr.ready_head
            - (drop_oldest_ready w).0.region.hdr.ready_tail
          < fuel
    fewer lt = omega (arith, drop_oldest_ready-queue w v lt)

    no_more :
        ¬ (w.region.hdr.ready_tail < w.region.hdr.ready_head)
        → w.region.hdr.ready_head ≡ w.region.hdr.ready_tail
    no_more ge = omega (arith, ge, v.region_valid.ready_ring)

    after_drop :
        (lt : w.region.hdr.ready_tail < w.region.hdr.ready_head)
        → Ends
            (drop_oldest_ready w).0
            size
            align
            (alloc_loop fuel (drop_oldest_ready w).0 size align)
        → Ends w size align (alloc_loop fuel (drop_oldest_ready w).0 size align)
    after_drop lt (out, e, o) = (
      out,
      e,
      Outcome-drop w (drop_oldest_ready w).0 size align out (drop_oldest_ready-queue w v lt).1
          (drop_oldest_ready-align w) (drop_oldest_ready-KeepsIds w) o,
    )

-- `alloc_lease` of a well-formed writer always ends, for 32-bit sizes and alignments of at most 2 ^
-- 62. It hands out a lease unless the request exceeds the whole arena. To make room it takes only the
-- oldest frames out of the ready queue. It fails, with `Exhausted`, only if the request exceeds the
-- arena; the queue is then empty, the failure counter 1 and the writer well formed.
pub alloc_lease_lem :
    (w : Writer) (size align : ℕ)
    → IsWriter w
    → size < 2 ^ 32
    → align ≤ 2 ^ 62
    → (out : Writer × Result AllocLease) × (alloc_lease w size align ≡ some out)
      × Outcome w size align out
unfolding alloc_lease
alloc_lease_lem w size align v s q =
    alloc_loop-Ends (suc (sub_u64 w.region.hdr.ready_head w.region.hdr.ready_tail)) w size align v s
      q (omega (arith, v.region_valid.ready_ring))
