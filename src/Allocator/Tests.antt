-- ===== src/Allocator/Tests.antt =====
-- src/allocator.rs: its unit test, and the theorems at a concrete arena of 256 bytes.
use shm2_rs.Base.{
  ℕ, ◌+◌, ◌%◌, ◌≤◌, ◌≡◌, refl, max, none, some, [], ◌∷◌, true, if◌then◌else◌, ◌==◌, All, arith,
}
use shm2_rs.Allocator.{
  Allocation, FreeListAllocator, carve, align_up, first_fit, find, remove, insert, alloc,
  free_block, free_by_id, sort_insert, sort_by_key, merge_into, coalesce, insert_and_coalesce,
  following_id,
}
use shm2_rs.Allocator.Valid.{IsValid, inside, cover, blocks}
use shm2_rs.Allocator.Coalesce.{Gaps}
use shm2_rs.Allocator.Alloc.{alloc-IsValid, alloc_lem, alloc-none}
use shm2_rs.Allocator.Free.{free_by_id-IsValid, free_by_id-live}

-- Two live allocations, with a gap between them.
abbrev busy : FreeListAllocator
busy = record {
  free = (50, 14) ∷ (104, 152) ∷ [];
  used = (2, (64, 40)) ∷ (1, (0, 50)) ∷ [];
  next_id = 3;
}

-- `busy` after 40 bytes more, at a multiple of 64.
abbrev busier : FreeListAllocator
busier = record {
  free = (50, 14) ∷ (104, 24) ∷ (168, 88) ∷ [];
  used = (3, (128, 40)) ∷ (2, (64, 40)) ∷ (1, (0, 50)) ∷ [];
  next_id = 4;
}

abbrev granted : Allocation
granted = record { buffer_id = 3; offset = 128; len = 40 }

busy-IsValid : IsValid 256 busy
unfolding find
busy-IsValid = record {
  tiles = λ x. ground arith;
  bytes = refl;
  free_in = omega arith;
  used_in = omega arith;
  keys = (refl, (refl, tt));
  small = omega arith;
}

busy_next : find 3 busy.used ≡ none
unfolding find
busy_next = refl

busy-alloc : alloc busy 40 64 ≡ some (granted, busier)
unfolding alloc first_fit align_up insert remove carve
busy-alloc = refl

busy_full : alloc busy 200 64 ≡ none
unfolding alloc first_fit align_up
busy_full = refl

busy_2 : find 2 busy.used ≡ some (64, 40)
unfolding find
busy_2 = refl

-- `alloc_and_free_coalesces`: 100 and 50 bytes at multiples of 16, both freed.
abbrev after_100_50 : FreeListAllocator
after_100_50 = record {
  free = (100, 12) ∷ (162, 350) ∷ [];
  used = (2, (112, 50)) ∷ (1, (0, 100)) ∷ [];
  next_id = 3;
}

unit_test : (free_by_id (free_by_id after_100_50 1).0 2).0.free ≡ (0, 512) ∷ []
unfolding free_by_id free_block find remove insert_and_coalesce sort_by_key sort_insert coalesce
    merge_into
unit_test = refl

alloc-IsValid_example : IsValid 256 busier
alloc-IsValid_example =
    alloc-IsValid 256 40 64 busy busy-IsValid (omega arith) (omega arith) (granted, busier)
      busy_next busy-alloc

alloc_lem_example :
    (granted.len ≡ 40)
    × (granted.buffer_id ≡ busy.next_id)
    × (granted.offset % max 64 1 ≡ 0)
    × (granted.offset + 40 ≤ 256)
    × ((x : ℕ) → inside x (granted.offset, 40) + cover x (blocks busy.used) ≤ 1)
    × ((j : ℕ)
        → find j busier.used
          ≡ (if busy.next_id == j then some (granted.offset, 40) else find j busy.used))
    × (busier.next_id ≡ following_id busy.next_id)
alloc_lem_example =
    alloc_lem 256 40 64 busy busy-IsValid (omega arith) (omega arith) (granted, busier) busy-alloc

alloc-none_example : All (λ b. ¬ ((b.0 ≤ 64) × (64 + 200 ≤ b.0 + b.1))) busy.free
alloc-none_example =
    alloc-none 256 200 64 busy busy-IsValid (omega arith) (omega arith) 64 busy_full refl

free_by_id-IsValid_example : IsValid 256 (free_by_id busy 2).0
free_by_id-IsValid_example = free_by_id-IsValid 256 busy busy-IsValid 2

free_by_id-live_example :
    ((free_by_id busy 2).1 ≡ true)
    × ((j : ℕ) → find j (free_by_id busy 2).0.used ≡ (if 2 == j then none else find j busy.used))
    × ((x : ℕ) → cover x (free_by_id busy 2).0.free ≡ inside x (64, 40) + cover x busy.free)
    × Gaps 0 (free_by_id busy 2).0.free
    × ((free_by_id busy 2).0.next_id ≡ 3)
free_by_id-live_example = free_by_id-live 256 busy busy-IsValid 2 (64, 40) busy_2
