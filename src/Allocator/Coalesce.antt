-- ===== src/Allocator/Coalesce.antt =====
-- src/allocator.rs: `insert_and_coalesce`, the sort by start and the merge of touching blocks.
use shm2_rs.Base.{
  ℕ, suc, ◌+◌, ◌^◌, ◌≤◌, ◌≡◌, refl, ◌⊎◌, max, List, [], ◌∷◌, All, add_u64, sub_u64, arith,
}
use shm2_rs.Allocator.{Block, sort_insert, sort_by_key}
use shm2_rs.Allocator.Valid.{inside, cover, total_len, EndsBy}

-- Starts do not fall, from `lo` on.
abbrev pub Ascending : ℕ → List Block → Type 0
Ascending lo [] = Unit
Ascending lo (b ∷ bs) = (lo ≤ b.0) × Ascending b.0 bs

-- Each block starts at `lo` or later, and the next one after a gap of at least a byte.
abbrev pub Gaps : ℕ → List Block → Type 0
Gaps lo [] = Unit
Gaps lo (b ∷ bs) = (lo ≤ b.0) × Gaps (suc (b.0 + b.1)) bs

sort_insert-Ascending :
    (lo : ℕ) (b : Block) (cs : List Block)
    → lo ≤ b.0
    → Ascending lo cs
    → Ascending lo (sort_insert b cs)
unfolding sort_insert
sort_insert-Ascending lo b [] h s = ground arith
sort_insert-Ascending lo b (c ∷ cs) h s = ground (arith, sort_insert-Ascending c.0 b cs)

pub sort_by_key-Ascending :
    (sorted bs : List Block) → Ascending 0 sorted → Ascending 0 (sort_by_key sorted bs)
unfolding sort_by_key
sort_by_key-Ascending sorted [] s = s
sort_by_key-Ascending sorted (b ∷ bs) s =
    sort_by_key-Ascending (sort_insert b sorted) bs
      (sort_insert-Ascending 0 b sorted (omega arith) s)

sort_insert-cover :
    (x : ℕ) (b : Block) (cs : List Block) → cover x (sort_insert b cs) ≡ inside x b + cover x cs
unfolding sort_insert
sort_insert-cover x b [] = refl
sort_insert-cover x b (c ∷ cs) = ground (arith, sort_insert-cover x b cs)

pub sort_by_key-cover :
    (x : ℕ) (sorted bs : List Block) → cover x (sort_by_key sorted bs) ≡ cover x sorted + cover x bs
unfolding sort_by_key
sort_by_key-cover x sorted [] = omega arith
sort_by_key-cover x sorted (b ∷ bs) =
    omega (arith, sort_by_key-cover x (sort_insert b sorted) bs, sort_insert-cover x b sorted)

sort_insert-total_len :
    (b : Block) (cs : List Block) → total_len (sort_insert b cs) ≡ b.1 + total_len cs
unfolding sort_insert
sort_insert-total_len b [] = refl
sort_insert-total_len b (c ∷ cs) = ground (arith, sort_insert-total_len b cs)

pub sort_by_key-total_len :
    (sorted bs : List Block) → total_len (sort_by_key sorted bs) ≡ total_len sorted + total_len bs
unfolding sort_by_key
sort_by_key-total_len sorted [] = omega arith
sort_by_key-total_len sorted (b ∷ bs) =
    omega (arith, sort_by_key-total_len (sort_insert b sorted) bs, sort_insert-total_len b sorted)

sort_insert-All :
    (total : ℕ) (b : Block) (cs : List Block)
    → EndsBy total b
    → All (EndsBy total) cs
    → All (EndsBy total) (sort_insert b cs)
unfolding sort_insert
sort_insert-All total b [] h a = ground arith
sort_insert-All total b (c ∷ cs) h a = ground (arith, sort_insert-All total b cs)

pub sort_by_key-All :
    (total : ℕ) (sorted bs : List Block)
    → All (EndsBy total) sorted
    → All (EndsBy total) bs
    → All (EndsBy total) (sort_by_key sorted bs)
unfolding sort_by_key
sort_by_key-All total sorted [] s a = s
sort_by_key-All total sorted (b ∷ bs) s a =
    sort_by_key-All total (sort_insert b sorted) bs (sort_insert-All total b sorted a.0 s) a.1

-- The block that the merge makes of two that touch.
abbrev pub joined : Block → Block → Block
joined last b = (last.0, sub_u64 (max (add_u64 b.0 b.1) (add_u64 last.0 last.1)) last.0)

-- Two touching blocks that share no byte join into one of their summed length.
pub joined_len :
    (last b : Block)
    → last.0 ≤ b.0
    → b.0 ≤ last.0 + last.1
    → last.0 + last.1 ≤ 2 ^ 63
    → b.0 + b.1 ≤ 2 ^ 63
    → inside b.0 last + inside b.0 b ≤ 1
    → ((joined last b).1 ≡ last.1 + b.1) × ((b.0 ≡ last.0 + last.1) ⊎ (b.1 ≡ 0))
joined_len last b o t e f once = ground arith
