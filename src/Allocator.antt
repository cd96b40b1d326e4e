-- ===== src/Allocator.antt =====
-- src/allocator.rs: the free-list allocator of the payload arena.
-- `u64` sums wrap as in a release build. The `Vec` of free blocks is a list of (start, length), the
-- `BTreeMap` of live allocations an association list.
pub mod Valid
pub mod Align
pub mod FirstFit
pub mod Alloc
pub mod Coalesce
pub mod Merge
pub mod Free
pub mod Ids
pub mod Reserve
mod Tests
use shm2_rs.Base.{
  ℕ, ◌+◌, ◌-◌, ◌%◌, ◌^◌, max, Option, none, some, List, [], ◌∷◌, ◌++◌, Bool, true, false, add_u64,
  sub_u64, ltb, leb, ◌==◌, if◌then◌else◌,
}
use mathlib.Core.Option

-- A block as the source's pair `(start, len)`.
abbrev pub Block : Type 0
Block = ℕ × ℕ

pub record Allocation : Type 0 where
  pub buffer_id : ℕ
  pub offset : ℕ
  pub len : ℕ

pub record FreeListAllocator : Type 0 where
  pub free : List Block
  pub used : List (ℕ × Block)
  pub next_id : ℕ

unfoldable pub new : ℕ → FreeListAllocator
new total_size = record { free = (0, total_size) ∷ []; used = []; next_id = 1 }

unfoldable pub align_up : ℕ → ℕ → ℕ
align_up v align =
    if leb align 1 then v else if v % align == 0 then v else add_u64 v (align - v % align)

-- What replaces the block `(start, len)` once `size` bytes at `aligned_start` are taken out of it.
pub carve : ℕ → ℕ → ℕ → ℕ → List Block → List Block
carve start end aligned_start size rest =
    let right_start = add_u64 aligned_start size in
    let right_len = end - right_start in
    let left_len = aligned_start - start in
    let right = if ltb 0 right_len then (right_start, right_len) ∷ rest else rest in
    if ltb 0 left_len then (start, left_len) ∷ right else right

-- The `while idx < self.free.len()` loop: the address taken from the first block that fits, and the
-- free list that is left.
pub first_fit : ℕ → ℕ → List Block → Option (ℕ × List Block)
first_fit size align [] = none
first_fit size align ((start, len) ∷ rest) =
    let aligned_start = align_up start align in
    let end = add_u64 start len in
    let later =
      Option.map (λ (r : ℕ × List Block). (r.0, (start, len) ∷ r.1)) (first_fit size align rest) in
    if leb (add_u64 aligned_start size) end
    then some (aligned_start, carve start end aligned_start size rest)
    else later

-- `BTreeMap::get` and `BTreeMap::remove` by key.
unfoldable pub find : ℕ → List (ℕ × Block) → Option Block
find id [] = none
find id ((k, b) ∷ used) = let later = find id used in if k == id then some b else later

unfoldable pub remove : ℕ → List (ℕ × Block) → List (ℕ × Block)
remove id [] = []
remove id ((k, b) ∷ used) = let later = remove id used in if k == id then later else (k, b) ∷ later

-- `BTreeMap::insert`: a block that stood under the key is replaced.
pub insert : ℕ → Block → List (ℕ × Block) → List (ℕ × Block)
insert id b used = (id, b) ∷ remove id used

-- `self.next_id.wrapping_add(1).max(1)` on `u32`.
abbrev pub following_id : ℕ → ℕ
following_id id = max ((id + 1) % 2 ^ 32) 1

-- `None` leaves the allocator as it was.
pub alloc : FreeListAllocator → ℕ → ℕ → Option (Allocation × FreeListAllocator)
alloc a size align =
    Option.map
      (λ (r : ℕ × List Block). (
        record { buffer_id = a.next_id; offset = r.0; len = size },
        record {
          free = r.1;
          used = insert a.next_id (r.0, size) a.used;
          next_id = following_id a.next_id;
        },
      ))
      (first_fit size (max align 1) a.free)

-- `sort_by_key(|(s, _)| *s)` after the push of `b` at the end: a stable insertion sort.
pub sort_insert : Block → List Block → List Block
sort_insert b [] = b ∷ []
sort_insert b (c ∷ cs) =
    let later = c ∷ sort_insert b cs in if ltb b.0 c.0 then b ∷ c ∷ cs else later

pub sort_by_key : List Block → List Block → List Block
sort_by_key sorted [] = sorted
sort_by_key sorted (b ∷ bs) = sort_by_key (sort_insert b sorted) bs

-- The loop over the drained list; `last` is `merged.last_mut()`.
pub merge_into : Block → List Block → List Block
merge_into last [] = last ∷ []
merge_into last (b ∷ bs) =
    let last_end = add_u64 last.0 last.1 in
    let merged = merge_into (last.0, sub_u64 (max (add_u64 b.0 b.1) last_end) last.0) bs in
    let pushed = last ∷ merge_into b bs in if leb b.0 last_end then merged else pushed

pub coalesce : List Block → List Block
coalesce [] = []
coalesce (b ∷ bs) = merge_into b bs

pub insert_and_coalesce : Block → List Block → List Block
insert_and_coalesce b free = coalesce (sort_by_key [] (free ++ b ∷ []))

pub free_block : FreeListAllocator → ℕ → Option Block → FreeListAllocator × Bool
free_block a buffer_id none = (a, false)
free_block a buffer_id (some b) =
    (record a { free = insert_and_coalesce b a.free; used = remove buffer_id a.used }, true)

pub free_by_id : FreeListAllocator → ℕ → FreeListAllocator × Bool
free_by_id a buffer_id = free_block a buffer_id (find buffer_id a.used)

pub sum_len : List (ℕ × Block) → ℕ
sum_len [] = 0
sum_len ((k, b) ∷ used) = add_u64 b.1 (sum_len used)

pub used_bytes : FreeListAllocator → ℕ
used_bytes a = sum_len a.used
