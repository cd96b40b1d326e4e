-- ===== src/Allocator/Reserve.antt =====
-- src/allocator.rs: how long requests succeed while nothing is freed.
use shm2_rs.Base.{
  ℕ, ◌+◌, ◌^◌, ◌≤◌, ◌<◌, ◌≡◌, ◌≢◌, refl, max, none, some, List, [], ◌∷◌, All, OnSome, OnSome-some,
  Option-cases, inl, inr, arith,
}
use shm2_rs.Allocator.{
  Allocation, Block, FreeListAllocator, new, insert, following_id, carve, first_fit, alloc,
}
use shm2_rs.Allocator.Align.{align_up_bounds}
use shm2_rs.Allocator.Valid.{IsValid, EndsBy}

-- The length of the largest free block.
unfoldable pub biggest : List Block → ℕ
biggest [] = 0
biggest (b ∷ bs) = max b.1 (biggest bs)

module _ (total size align : ℕ) (small : total ≤ 2 ^ 63) (s : size < 2 ^ 32) (p : 1 ≤ align)
    (q : align ≤ 2 ^ 62) where
  -- The search takes at most the request and its alignment from the largest block.
  first_fit-biggest :
      (free : List Block)
      → All (EndsBy total) free
      → OnSome (λ r. biggest free ≤ biggest r.1 + (size + align)) (first_fit size align free)
  unfolding first_fit biggest carve
  first_fit-biggest [] e = tt
  first_fit-biggest ((start, len) ∷ rest) e =
      ground (arith, align_up_bounds start align p, first_fit-biggest rest)

  first_fit-finds :
      (free : List Block)
      → All (EndsBy total) free
      → size + align ≤ biggest free
      → first_fit size align free ≢ none
  unfolding first_fit biggest
  first_fit-finds [] e enough = absurd (omega (arith, p, enough))
  first_fit-finds ((start, len) ∷ rest) e enough =
      ground (arith, align_up_bounds start align p, first_fit-finds rest)

abbrev granted : FreeListAllocator → ℕ → ℕ × List Block → Allocation × FreeListAllocator
granted a size r = (
  record { buffer_id = a.next_id; offset = r.0; len = size },
  record {
    free = r.1;
    used = insert a.next_id (r.0, size) a.used;
    next_id = following_id a.next_id;
  },
)

-- An arena whose largest free block can take a request at any place grants it, and keeps the rest.
pub alloc-biggest :
    (total size align : ℕ) (a : FreeListAllocator)
    → IsValid total a
    → size < 2 ^ 32
    → align ≤ 2 ^ 62
    → size + max align 1 ≤ biggest a.free
    → (r : Allocation × FreeListAllocator) × (alloc a size align ≡ some r)
      × (biggest a.free ≤ biggest r.1.free + (size + max align 1))
unfolding alloc
alloc-biggest total size align a v s q enough =
    elim (Option-cases (first_fit size (max align 1) a.free)) [
      | inl e ↦ absurd (
          first_fit-finds total size (max align 1) v.small s (omega arith) (omega (arith, q)) a.free
            v.free_in enough e)
      | inr (r, e) ↦ (
        granted a size r,
        rw e refl,
        OnSome-some _ (first_fit size (max align 1) a.free)
            (first_fit-biggest total size (max align 1) v.small s (omega arith) (omega (arith, q))
              a.free v.free_in)
            e,
      )
    ]

pub biggest-new : (total : ℕ) → biggest (new total).free ≡ total
unfolding biggest new
biggest-new total = omega arith
