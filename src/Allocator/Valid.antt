-- ===== src/Allocator/Valid.antt =====
-- src/allocator.rs: the representation invariant of the allocator, and the lemmas on its two parts.
-- The free blocks and the live allocations tile the arena: each byte lies in exactly one of them.
use shm2_rs.Base.{
  ℕ, ◌+◌, ◌^◌, ◌≤◌, ◌≡◌, ◌≢◌, refl, none, some, List, [], ◌∷◌, ◌++◌, ◌&&◌, ltb, leb, ◌==◌,
  if◌then◌else◌, All, arith,
}
use shm2_rs.Allocator.{Block, FreeListAllocator, find, remove}

-- 1 if byte `x` lies in the block, else 0.
abbrev pub inside : ℕ → Block → ℕ
inside x b = if leb b.0 x && ltb x (b.0 + b.1) then 1 else 0

-- How many of the blocks byte `x` lies in.
abbrev pub cover : ℕ → List Block → ℕ
cover x [] = 0
cover x (b ∷ bs) = inside x b + cover x bs

abbrev pub total_len : List Block → ℕ
total_len [] = 0
total_len (b ∷ bs) = b.1 + total_len bs

abbrev pub blocks : List (ℕ × Block) → List Block
blocks [] = []
blocks (e ∷ es) = e.1 ∷ blocks es

abbrev pub EndsBy : ℕ → Block → Type 0
EndsBy total b = b.0 + b.1 ≤ total

-- The keys of the map differ, as those of a `BTreeMap` do.
abbrev pub UniqueKeys : List (ℕ × Block) → Type 0
UniqueKeys [] = Unit
UniqueKeys (e ∷ es) = (find e.0 es ≡ none) × UniqueKeys es

pub record IsValid (total : ℕ) (a : FreeListAllocator) : Type 0 where
  pub tiles : (x : ℕ) → cover x a.free + cover x (blocks a.used) ≡ (if ltb x total then 1 else 0)
  pub bytes : total_len a.free + total_len (blocks a.used) ≡ total
  pub free_in : All (EndsBy total) a.free
  pub used_in : All (EndsBy total) (blocks a.used)
  pub keys : UniqueKeys a.used
  pub small : total ≤ 2 ^ 63

pub cover-append : (x : ℕ) (bs cs : List Block) → cover x (bs ++ cs) ≡ cover x bs + cover x cs
cover-append x [] cs = omega arith
cover-append x (b ∷ bs) cs = omega (arith, cover-append x bs cs)

-- Cutting a block in two changes no count.
inside_split : (x s k l : ℕ) → inside x (s, k + l) ≡ inside x (s, k) + inside x (s + k, l)
inside_split x s k l = ground arith

pub find-remove_self : (id : ℕ) (used : List (ℕ × Block)) → find id (remove id used) ≡ none
unfolding find remove
find-remove_self id [] = refl
find-remove_self id ((k, b) ∷ used) = ground (arith, find-remove_self id used)

pub find-remove-none :
    (id j : ℕ) (used : List (ℕ × Block)) → find j used ≡ none → find j (remove id used) ≡ none
unfolding find remove
find-remove-none id j [] h = refl
find-remove-none id j ((k, b) ∷ used) h = ground (arith, find-remove-none id j used)

pub find-remove_ne :
    (id j : ℕ) (used : List (ℕ × Block)) → id ≢ j → find j (remove id used) ≡ find j used
unfolding find remove
find-remove_ne id j [] ne = refl
find-remove_ne id j ((k, b) ∷ used) ne = ground (arith, find-remove_ne id j used)

pub find-remove :
    (id j : ℕ) (used : List (ℕ × Block))
    → find j (remove id used) ≡ (if id == j then none else find j used)
unfolding find remove
find-remove id j [] = ground arith
find-remove id j ((k, b) ∷ used) = ground (arith, find-remove id j used)

pub remove_absent : (id : ℕ) (used : List (ℕ × Block)) → find id used ≡ none → remove id used ≡ used
unfolding find remove
remove_absent id [] h = refl
remove_absent id ((k, b) ∷ used) h = ground (arith, remove_absent id used)

pub remove-UniqueKeys :
    (id : ℕ) (used : List (ℕ × Block)) → UniqueKeys used → UniqueKeys (remove id used)
unfolding find remove
remove-UniqueKeys id [] u = u
remove-UniqueKeys id ((k, b) ∷ used) u =
    ground (arith, remove-UniqueKeys id used, find-remove-none id k used)

pub remove-All :
    (total id : ℕ) (used : List (ℕ × Block))
    → All (EndsBy total) (blocks used)
    → All (EndsBy total) (blocks (remove id used))
unfolding remove
remove-All total id [] h = h
remove-All total id ((k, b) ∷ used) h = ground (arith, remove-All total id used)

pub find-All :
    (total id : ℕ) (used : List (ℕ × Block)) {b : Block}
    → All (EndsBy total) (blocks used)
    → find id used ≡ some b
    → EndsBy total b
unfolding find
find-All total id [] h e = cc
find-All total id ((k, c) ∷ used) {b} h e = ground (arith, find-All total id used {b = b})

-- Taking the entry of a key out takes exactly its block out of the counts.
pub cover-remove :
    (x id : ℕ) (used : List (ℕ × Block)) {b : Block}
    → UniqueKeys used
    → find id used ≡ some b
    → cover x (blocks used) ≡ inside x b + cover x (blocks (remove id used))
unfolding find remove
cover-remove x id [] u e = cc
cover-remove x id ((k, c) ∷ used) {b} u e =
    ground (arith, cover-remove x id used {b = b}, remove_absent id used)

pub total_len-remove :
    (id : ℕ) (used : List (ℕ × Block)) {b : Block}
    → UniqueKeys used
    → find id used ≡ some b
    → total_len (blocks used) ≡ b.1 + total_len (blocks (remove id used))
unfolding find remove
total_len-remove id [] u e = cc
total_len-remove id ((k, c) ∷ used) {b} u e =
    ground (arith, total_len-remove id used {b = b}, remove_absent id used)

pub cover-find :
    (x id : ℕ) (used : List (ℕ × Block)) {b : Block}
    → find id used ≡ some b
    → inside x b ≤ cover x (blocks used)
unfolding find
cover-find x id [] e = cc
cover-find x id ((k, c) ∷ used) {b} e = ground (arith, cover-find x id used {b = b})
