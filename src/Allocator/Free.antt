-- ===== src/Allocator/Free.antt =====
-- src/allocator.rs: `new`, `free_by_id` and `used_bytes`.
use shm2_rs.Base.{
  ℕ, suc, ◌+◌, ◌^◌, ◌≤◌, ◌<◌, ◌≡◌, refl, ap, none, some, List, [], ◌∷◌, true, false, ltb, ◌==◌,
  if◌then◌else◌, All, arith, Option-cases, inl, inr, Option, OnSome, OnSome-intro,
}
use shm2_rs.Allocator.{
  Block, FreeListAllocator, new, align_up, first_fit, alloc, find, insert_and_coalesce, free_block,
  free_by_id, sum_len, used_bytes,
}
use shm2_rs.Allocator.Alloc.{alloc-IsValid, total_len-alloc}
use mathlib.Core.Option
use shm2_rs.Allocator.Valid.{
  IsValid, inside, cover, total_len, blocks, EndsBy, cover-remove, total_len-remove, find-All,
  remove-All, remove-UniqueKeys, find-remove, find-remove-none, find-remove_self,
}
use shm2_rs.Allocator.Coalesce.{Gaps}
use shm2_rs.Allocator.Merge.{Merged, insert_and_coalesce-Merged}

-- A fresh allocator is valid: one free block holds the whole arena.
pub new-IsValid : (total : ℕ) → total ≤ 2 ^ 63 → IsValid total (new total)
unfolding new
new-IsValid total h = record {
  tiles = λ x. ground arith;
  bytes = omega arith;
  free_in = omega arith;
  used_in = tt;
  keys = tt;
  small = h;
}

module _ (total : ℕ) (a : FreeListAllocator) (v : IsValid total a) where
  -- The free list after the block `b` of a live `id` has come back.
  freed :
      (id : ℕ) (b : Block)
      → find id a.used ≡ some b
      → Merged total v.small (b ∷ a.free) (insert_and_coalesce b a.free)
  freed id b e =
      insert_and_coalesce-Merged total v.small b a.free (find-All total id a.used v.used_in e)
        v.free_in (λ x. ground (arith, v.tiles x, cover-remove x id a.used v.keys e))

  freed-IsValid :
      (id : ℕ) (b : Block) → find id a.used ≡ some b → IsValid total (free_block a id (some b)).0
  unfolding free_block
  freed-IsValid id b e = record {
    tiles = λ x.
        omega (arith, v.tiles x, cover-remove x id a.used v.keys e, (freed id b e).same_bytes x);
    bytes = omega (arith, v.bytes, total_len-remove id a.used v.keys e, (freed id b e).same_len);
    free_in = (freed id b e).ends;
    used_in = remove-All total id a.used v.used_in;
    keys = remove-UniqueKeys id a.used v.keys;
    small = v.small;
  }

  -- `free_by_id` keeps the invariant for any id, live or not.
  pub free_by_id-IsValid : (id : ℕ) → IsValid total (free_by_id a id).0
  unfolding free_by_id free_block
  free_by_id-IsValid id = elim (Option-cases (find id a.used)) [
    | inl e ↦ rw e v
    | inr (b, e) ↦ rw e (freed-IsValid id b e)
  ]

  -- An id that is not live is refused, and nothing changes.
  free_by_id-absent : (id : ℕ) → find id a.used ≡ none → free_by_id a id ≡ (a, false)
  unfolding free_by_id free_block
  free_by_id-absent id e = rw e

  -- In a valid allocator a live id is given up: the map loses its entry and keeps the others, exactly
  -- the bytes of its block become free, afterwards the free blocks are sorted with a gap between any
  -- two, and the next id is as it was.
  pub free_by_id-live :
      (id : ℕ) (b : Block)
      → find id a.used ≡ some b
      → ((free_by_id a id).1 ≡ true)
        × ((j : ℕ) → find j (free_by_id a id).0.used ≡ (if id == j then none else find j a.used))
        × ((x : ℕ) → cover x (free_by_id a id).0.free ≡ inside x b + cover x a.free)
        × Gaps 0 (free_by_id a id).0.free
        × ((free_by_id a id).0.next_id ≡ a.next_id)
  unfolding free_by_id free_block
  free_by_id-live id b e =
      rw e
        (refl, (λ j. find-remove id j a.used), (freed id b e).same_bytes, (freed id b e).gaps, refl)

-- The next id stays unused.
pub free_by_id-fresh :
    (a : FreeListAllocator) (id : ℕ)
    → find a.next_id a.used ≡ none
    → find (free_by_id a id).0.next_id (free_by_id a id).0.used ≡ none
unfolding free_by_id free_block
free_by_id-fresh a id fresh = elim (Option-cases (find id a.used)) [
  | inl e ↦ rw e fresh
  | inr (b, e) ↦ rw e (find-remove-none id a.next_id a.used fresh)
]

-- After the call the id is not live.
pub free_by_id-gone : (a : FreeListAllocator) (id : ℕ) → find id (free_by_id a id).0.used ≡ none
unfolding free_by_id free_block
free_by_id-gone a id = elim (Option-cases (find id a.used)) [
  | inl e ↦ rw e e
  | inr (b, e) ↦ rw e (find-remove_self id a.used)
]

-- What is live after the call, whether or not the id was.
pub find-free_by_id :
    (a : FreeListAllocator) (id j : ℕ)
    → find j (free_by_id a id).0.used ≡ (if id == j then none else find j a.used)
unfolding free_by_id free_block
find-free_by_id a id j = elim (Option-cases (find id a.used)) [
  | inl e ↦ rw e (ground (arith, e))
  | inr (b, e) ↦ rw e (find-remove id j a.used)
]

free_by_id-total_len :
    (total : ℕ) (a : FreeListAllocator) (v : IsValid total a) (id : ℕ) (b : Block)
    → find id a.used ≡ some b
    → total_len (free_by_id a id).0.free ≡ b.1 + total_len a.free
unfolding free_by_id free_block
free_by_id-total_len total a v id b e = rw e (freed total a v id b e).same_len

-- One free block of the whole arena serves any request that fits, at offset 0.
alloc_whole :
    (total size align : ℕ) (a : FreeListAllocator)
    → total ≤ 2 ^ 63
    → size ≤ total
    → a.free ≡ (0, total) ∷ []
    → Option.map (λ r. r.0.offset) (alloc a size align) ≡ some 0
unfolding alloc first_fit align_up
alloc_whole total size align a small fits e = rw e (ground arith)

cover-before_gap : (lo x : ℕ) (bs : List Block) → x < lo → Gaps lo bs → cover x bs ≡ 0
cover-before_gap lo x [] h g = refl
cover-before_gap lo x (b ∷ bs) h g = ground (arith, cover-before_gap (suc (b.0 + b.1)) x bs)

-- Blocks with gaps between them that cover the whole arena are one block.
Gaps-whole :
    (total : ℕ) (bs : List Block)
    → 0 < total
    → All (EndsBy total) bs
    → Gaps 0 bs
    → ((x : ℕ) → cover x bs ≡ (if ltb x total then 1 else 0))
    → bs ≡ (0, total) ∷ []
Gaps-whole total [] p e g c = absurd (ground (arith, c 0))
Gaps-whole total (b ∷ []) p e g c = ground (arith, c 0, c b.1)
Gaps-whole total (b ∷ d ∷ bs) p e g c = absurd (
    ground (
      arith,
      c 0,
      c b.1,
      cover-before_gap (suc (b.0 + b.1)) 0 (d ∷ bs),
      cover-before_gap (suc (b.0 + b.1)) b.1 (d ∷ bs),
    ))

-- A valid allocator with no live allocation and gaps between its free blocks has one, the arena.
empty-whole :
    (total : ℕ) (a : FreeListAllocator)
    → 0 < total
    → IsValid total a
    → Gaps 0 a.free
    → a.used ≡ []
    → a.free ≡ (0, total) ∷ []
empty-whole total a p v g e =
    Gaps-whole total a.free p v.free_in g
      (λ x. omega (arith, v.tiles x, ap (λ u. cover x (blocks u)) e))

-- Once the last live allocation of a valid allocator with a non-empty arena is freed, the free list is
-- one block, the whole arena: any request that the arena can hold then succeeds at offset 0.
pub free_by_id-last :
    (total size align id : ℕ) (a : FreeListAllocator)
    → 0 < total
    → IsValid total a
    → (free_by_id a id).1 ≡ true
    → (free_by_id a id).0.used ≡ []
    → size ≤ total
    → ((free_by_id a id).0.free ≡ (0, total) ∷ [])
      × (Option.map (λ r. r.0.offset) (alloc (free_by_id a id).0 size align) ≡ some 0)
free_by_id-last total size align id a p v done last fits =
    (whole, alloc_whole total size align (free_by_id a id).0 v.small fits whole)
  where
    whole : (free_by_id a id).0.free ≡ (0, total) ∷ []
    whole = elim (Option-cases (find id a.used)) [
      | inl e ↦ absurd (cc (free_by_id-absent total a v id e, done))
      | inr (b, e) ↦
          empty-whole total (free_by_id a id).0 p (free_by_id-IsValid total a v id)
            (free_by_id-live total a v id b e).3 last
    ]

-- In a valid allocator the sum of the live lengths does not wrap.
sum_len-eq :
    (total : ℕ) (used : List (ℕ × Block))
    → total ≤ 2 ^ 63
    → total_len (blocks used) ≤ total
    → sum_len used ≡ total_len (blocks used)
unfolding sum_len
sum_len-eq total [] s h = refl
sum_len-eq total ((k, b) ∷ used) s h = ground (arith, sum_len-eq total used)

-- `used_bytes` and the free lengths make up the arena.
pub used_bytes-free :
    (total : ℕ) (a : FreeListAllocator) → IsValid total a → used_bytes a + total_len a.free ≡ total
unfolding used_bytes
used_bytes-free total a v =
    omega (arith, v.bytes, sum_len-eq total a.used v.small (omega (arith, v.bytes)))

abbrev pub len_of : Option Block → ℕ
len_of none = 0
len_of (some b) = b.1

-- In a valid allocator whose next id is not in use, `used_bytes` is at most the arena, grows by
-- exactly the size that a successful `alloc` of a 32-bit size grants, and falls by exactly the length
-- of the block that `free_by_id` takes back, if any.
pub used_bytes_lem :
    (total size align id : ℕ) (a : FreeListAllocator)
    → IsValid total a
    → size < 2 ^ 32
    → align ≤ 2 ^ 62
    → find a.next_id a.used ≡ none
    → (used_bytes a ≤ total)
      × OnSome (λ r. used_bytes r.1 ≡ used_bytes a + size) (alloc a size align)
      × (used_bytes (free_by_id a id).0 + len_of (find id a.used) ≡ used_bytes a)
used_bytes_lem total size align id a v s q fresh = (
  omega (arith, used_bytes-free total a v),
  OnSome-intro _ (alloc a size align) (λ r e. omega (
    arith,
    used_bytes-free total a v,
    used_bytes-free total r.1 (alloc-IsValid total size align a v s q r fresh e),
    total_len-alloc total size align a v s q r e,
  )),
  elim (Option-cases (find id a.used)) [
    | inl e ↦ rw e (rw (free_by_id-absent total a v id e) (omega arith))
    | inr (b, e) ↦ rw e (
        omega (
          arith,
          used_bytes-free total a v,
          used_bytes-free total (free_by_id a id).0 (free_by_id-IsValid total a v id),
          free_by_id-total_len total a v id b e,
        ))
  ],
)
