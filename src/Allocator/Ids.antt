-- ===== src/Allocator/Ids.antt =====
-- src/allocator.rs: the buffer ids, as long as their counter has not gone round.
use shm2_rs.Base.{
  ℕ, ◌+◌, ◌^◌, ◌≤◌, ◌<◌, ◌≡◌, refl, ◌∙◌, none, some, Option-cases, OnSome, OnSome-some, inl, inr,
  arith,
}
use shm2_rs.Allocator.{
  Allocation, FreeListAllocator, new, find, insert, alloc, free_by_id, free_block,
}
use shm2_rs.Allocator.Valid.{find-remove_ne}
use shm2_rs.Allocator.Free.{find-free_by_id}

-- No id from the counter on is live, and the counter is at most `n`.
pub record IdsBelow (n : ℕ) (a : FreeListAllocator) : Type 0 where
  pub counter : a.next_id ≤ n
  pub unused : (j : ℕ) → a.next_id ≤ j → find j a.used ≡ none

-- At most one id is handed out between the two; or none.
abbrev pub TakesId : FreeListAllocator → FreeListAllocator → Type 0
TakesId a a' = (n : ℕ) → 0 < n → n + 1 < 2 ^ 32 → IdsBelow n a → IdsBelow (n + 1) a'

abbrev pub KeepsIds : FreeListAllocator → FreeListAllocator → Type 0
KeepsIds a a' = (n : ℕ) → 0 < n → IdsBelow n a → IdsBelow n a'

pub IdsBelow-fresh : (n : ℕ) (a : FreeListAllocator) → IdsBelow n a → find a.next_id a.used ≡ none
IdsBelow-fresh n a b = b.unused a.next_id (omega arith)

pub new-IdsBelow : (n total : ℕ) → 0 < n → IdsBelow n (new total)
unfolding new find
new-IdsBelow n total h = record { counter = omega (arith, h); unused = λ j le. refl }

free_by_id-next_id : (a : FreeListAllocator) (id : ℕ) → (free_by_id a id).0.next_id ≡ a.next_id
unfolding free_by_id free_block
free_by_id-next_id a id = elim (Option-cases (find id a.used)) [
  | inl e ↦ rw e refl
  | inr (b, e) ↦ rw e refl
]

pub free_by_id-IdsBelow :
    (n : ℕ) (a : FreeListAllocator) (id : ℕ) → IdsBelow n a → IdsBelow n (free_by_id a id).0
free_by_id-IdsBelow n a id b = record {
  counter = omega (arith, b.counter, free_by_id-next_id a id);
  unused = λ j le.
      find-free_by_id a id j
      ∙ ground (arith, b.unused j (omega (arith, le, free_by_id-next_id a id)));
}

alloc_ids :
    (n size align : ℕ) (a : FreeListAllocator) (j : ℕ)
    → IdsBelow n a
    → n + 1 < 2 ^ 32
    → OnSome
        (λ r. (r.1.next_id ≡ a.next_id + 1) × (r.1.next_id ≤ j → find j r.1.used ≡ none))
        (alloc a size align)
unfolding alloc insert find
alloc_ids n size align a j b far =
    ground (arith, b.counter, b.unused j, far, find-remove_ne a.next_id j a.used)

-- An allocation moves the counter by one.
pub alloc-IdsBelow :
    (n size align : ℕ) (a : FreeListAllocator) (r : Allocation × FreeListAllocator)
    → IdsBelow n a
    → n + 1 < 2 ^ 32
    → alloc a size align ≡ some r
    → IdsBelow (n + 1) r.1
alloc-IdsBelow n size align a r b far e = record {
  counter = omega (arith, b.counter, (at 0).0);
  unused = λ j le. (at j).1 le;
}
  where
    at : (j : ℕ) → (r.1.next_id ≡ a.next_id + 1) × (r.1.next_id ≤ j → find j r.1.used ≡ none)
    at j = OnSome-some _ (alloc a size align) (alloc_ids n size align a j b far) e
