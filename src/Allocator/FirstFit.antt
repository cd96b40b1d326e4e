-- ===== src/Allocator/FirstFit.antt =====
-- src/allocator.rs: the search of `alloc` for a block, and its cut.
use shm2_rs.Base.{ℕ, ◌+◌, ◌%◌, ◌^◌, ◌≤◌, ◌<◌, ◌≡◌, none, List, [], ◌∷◌, All, OnSome, arith}
use shm2_rs.Allocator.Align.{align_up_bounds, align_up-mod, align_up_least}
use shm2_rs.Allocator.{Block, align_up, carve, first_fit}
use shm2_rs.Allocator.Valid.{inside, cover, total_len, EndsBy}

-- `carve` splits the block: the counts and lengths of its pieces and of the range taken out are those
-- of the block.
carve-cover :
    (x start len at size : ℕ) (rest : List Block)
    → start ≤ at
    → at + size ≤ start + len
    → start + len < 2 ^ 64
    → inside x (at, size) + cover x (carve start (start + len) at size rest)
      ≡ inside x (start, len) + cover x rest
unfolding carve
carve-cover x start len at size rest p q h = ground arith

carve-total_len :
    (start len at size : ℕ) (rest : List Block)
    → start ≤ at
    → at + size ≤ start + len
    → start + len < 2 ^ 64
    → size + total_len (carve start (start + len) at size rest) ≡ len + total_len rest
unfolding carve
carve-total_len start len at size rest p q h = ground arith

carve-All :
    (total start len at size : ℕ) (rest : List Block)
    → start ≤ at
    → at + size ≤ start + len
    → start + len < 2 ^ 64
    → start + len ≤ total
    → All (EndsBy total) rest
    → All (EndsBy total) (carve start (start + len) at size rest)
unfolding carve
carve-All total start len at size rest p q h e a = ground arith

-- The three facts of `first_fit` that the invariant needs, for whatever block it finds.
module _ (total size align : ℕ) (small : total ≤ 2 ^ 63) (s : size < 2 ^ 32) (p : 1 ≤ align)
    (q : align ≤ 2 ^ 62) where
  pub first_fit-cover :
      (x : ℕ) (free : List Block)
      → All (EndsBy total) free
      → OnSome (λ r. inside x (r.0, size) + cover x r.1 ≡ cover x free) (first_fit size align free)
  unfolding first_fit
  first_fit-cover x [] e = tt
  first_fit-cover x ((start, len) ∷ rest) e = ground (
    arith,
    align_up_bounds start align p,
    carve-cover x start len (align_up start align) size rest,
    first_fit-cover x rest,
  )

  pub first_fit-total_len :
      (free : List Block)
      → All (EndsBy total) free
      → OnSome (λ r. size + total_len r.1 ≡ total_len free) (first_fit size align free)
  unfolding first_fit
  first_fit-total_len [] e = tt
  first_fit-total_len ((start, len) ∷ rest) e = ground (
    arith,
    align_up_bounds start align p,
    carve-total_len start len (align_up start align) size rest,
    first_fit-total_len rest,
  )

  pub first_fit-All :
      (free : List Block)
      → All (EndsBy total) free
      → OnSome
          (λ r. All (EndsBy total) r.1 × (r.0 + size ≤ total) × (r.0 % align ≡ 0))
          (first_fit size align free)
  unfolding first_fit
  first_fit-All [] e = tt
  first_fit-All ((start, len) ∷ rest) e = ground (
    arith,
    align_up_bounds start align p,
    align_up-mod start align p,
    carve-All total start len (align_up start align) size rest,
    first_fit-All rest,
  )

  -- Where it finds none, no free block holds `size` bytes from any multiple of `align` on.
  pub first_fit-none :
      (at : ℕ) (free : List Block)
      → All (EndsBy total) free
      → at % align ≡ 0
      → first_fit size align free ≡ none
      → All (λ b. ¬ ((b.0 ≤ at) × (at + size ≤ b.0 + b.1))) free
  unfolding first_fit
  first_fit-none at [] e m h = tt
  first_fit-none at ((start, len) ∷ rest) e m h = ground (
    arith,
    align_up_bounds start align p,
    align_up_least start align at p,
    first_fit-none at rest,
  )
