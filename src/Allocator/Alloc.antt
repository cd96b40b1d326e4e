-- ===== src/Allocator/Alloc.antt =====
-- src/allocator.rs: `alloc`.
use shm2_rs.Base.{
  ℕ, ◌+◌, ◌%◌, ◌^◌, ◌≤◌, ◌<◌, ◌≡◌, max, none, some, ltb, ◌==◌, if◌then◌else◌, All, OnSome,
  OnSome-some, arith,
}
use shm2_rs.Allocator.FirstFit.{first_fit-cover, first_fit-total_len, first_fit-All, first_fit-none}
use shm2_rs.Allocator.{Allocation, FreeListAllocator, find, insert, following_id, alloc}
use shm2_rs.Allocator.Valid.{
  IsValid, inside, cover, total_len, blocks, EndsBy, UniqueKeys, remove_absent, find-remove_ne,
}

-- The state after a successful `alloc`.
module _ (total size align : ℕ) (a : FreeListAllocator) (v : IsValid total a) (s : size < 2 ^ 32)
    (q : align ≤ 2 ^ 62) where
  alloc_tiles :
      (x : ℕ)
      → find a.next_id a.used ≡ none
      → OnSome
          (λ r. cover x r.1.free + cover x (blocks r.1.used) ≡ (if ltb x total then 1 else 0))
          (alloc a size align)
  unfolding alloc insert
  alloc_tiles x fresh = ground (
    arith,
    first_fit-cover total size (max align 1) v.small s (omega arith) (omega arith) x a.free
        v.free_in,
    remove_absent a.next_id a.used fresh,
    v.tiles x,
  )

  alloc_parts :
      find a.next_id a.used ≡ none
      → OnSome
          (λ r.
            (total_len r.1.free + total_len (blocks r.1.used) ≡ total)
            × All (EndsBy total) r.1.free
            × All (EndsBy total) (blocks r.1.used)
            × UniqueKeys r.1.used)
          (alloc a size align)
  unfolding alloc insert
  alloc_parts fresh = ground (
    arith,
    first_fit-total_len total size (max align 1) v.small s (omega arith) (omega arith) a.free
        v.free_in,
    first_fit-All total size (max align 1) v.small s (omega arith) (omega arith) a.free v.free_in,
    remove_absent a.next_id a.used fresh,
    v.bytes,
    v.used_in,
    v.keys,
  )

  alloc_free_len : OnSome (λ r. size + total_len r.1.free ≡ total_len a.free) (alloc a size align)
  unfolding alloc
  alloc_free_len = ground (
    arith,
    first_fit-total_len total size (max align 1) v.small s (omega arith) (omega arith) a.free
        v.free_in,
  )

  -- What `alloc` takes, the free list loses.
  pub total_len-alloc :
      (r : Allocation × FreeListAllocator)
      → alloc a size align ≡ some r
      → size + total_len r.1.free ≡ total_len a.free
  total_len-alloc r e = OnSome-some _ (alloc a size align) alloc_free_len e

  -- A successful `alloc` of a 32-bit size, at an alignment of at most 2 ^ 62, keeps the invariant if the
  -- id that it hands out is not in use: every byte of the arena stays in exactly one free block or live
  -- allocation.
  pub alloc-IsValid :
      (r : Allocation × FreeListAllocator)
      → find a.next_id a.used ≡ none
      → alloc a size align ≡ some r
      → IsValid total r.1
  alloc-IsValid r fresh e = record {
    tiles = λ x. OnSome-some _ (alloc a size align) (alloc_tiles x fresh) e;
    bytes = (OnSome-some _ (alloc a size align) (alloc_parts fresh) e).0;
    free_in = (OnSome-some _ (alloc a size align) (alloc_parts fresh) e).1;
    used_in = (OnSome-some _ (alloc a size align) (alloc_parts fresh) e).2;
    keys = (OnSome-some _ (alloc a size align) (alloc_parts fresh) e).3;
    small = v.small;
  }

  alloc_disjoint :
      (x : ℕ)
      → OnSome (λ r. inside x (r.0.offset, size) + cover x (blocks a.used) ≤ 1) (alloc a size align)
  unfolding alloc
  alloc_disjoint x = ground (
    arith,
    first_fit-cover total size (max align 1) v.small s (omega arith) (omega arith) x a.free
        v.free_in,
    v.tiles x,
  )

  alloc_result :
      (j : ℕ)
      → OnSome
          (λ r.
            (r.0.len ≡ size)
            × (r.0.buffer_id ≡ a.next_id)
            × (r.0.offset % max align 1 ≡ 0)
            × (r.0.offset + size ≤ total)
            × (find j r.1.used
                ≡ (if a.next_id == j then some (r.0.offset, size) else find j a.used))
            × (r.1.next_id ≡ following_id a.next_id))
          (alloc a size align)
  unfolding alloc insert find
  alloc_result j = ground (
    arith,
    first_fit-All total size (max align 1) v.small s (omega arith) (omega arith) a.free v.free_in,
    find-remove_ne a.next_id j a.used,
  )

  -- What a successful `alloc` of a 32-bit size hands out in a valid allocator, at an alignment of at
  -- most 2 ^ 62: the length asked for under the next id, at a multiple of `align` (of 1 for `align` 0)
  -- inside the arena, no byte of which lies in a live allocation. The map gains that entry and keeps the
  -- others, and the next id moves on.
  pub alloc_lem :
      (r : Allocation × FreeListAllocator)
      → alloc a size align ≡ some r
      → (r.0.len ≡ size)
        × (r.0.buffer_id ≡ a.next_id)
        × (r.0.offset % max align 1 ≡ 0)
        × (r.0.offset + size ≤ total)
        × ((x : ℕ) → inside x (r.0.offset, size) + cover x (blocks a.used) ≤ 1)
        × ((j : ℕ)
            → find j r.1.used ≡ (if a.next_id == j then some (r.0.offset, size) else find j a.used))
        × (r.1.next_id ≡ following_id a.next_id)
  alloc_lem r e = (
    (result 0).0,
    (result 0).1,
    (result 0).2,
    (result 0).3,
    λ x. OnSome-some _ (alloc a size align) (alloc_disjoint x) e,
    λ j. (result j).4,
    (result 0).5,
  )
    where
      result :
          (j : ℕ)
          → (r.0.len ≡ size)
            × (r.0.buffer_id ≡ a.next_id)
            × (r.0.offset % max align 1 ≡ 0)
            × (r.0.offset + size ≤ total)
            × (find j r.1.used
                ≡ (if a.next_id == j then some (r.0.offset, size) else find j a.used))
            × (r.1.next_id ≡ following_id a.next_id)
      result j = OnSome-some _ (alloc a size align) (alloc_result j) e

  -- In a valid allocator, `alloc` of a 32-bit size at an alignment of at most 2 ^ 62 fails only if no
  -- free block holds `size` bytes from any multiple of `align` on.
  pub alloc-none :
      (at : ℕ)
      → alloc a size align ≡ none
      → at % max align 1 ≡ 0
      → All (λ b. ¬ ((b.0 ≤ at) × (at + size ≤ b.0 + b.1))) a.free
  unfolding alloc
  alloc-none at e m =
      first_fit-none total size (max align 1) v.small s (omega arith) (omega arith) at a.free
        v.free_in m (ground arith)
