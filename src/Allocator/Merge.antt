-- ===== src/Allocator/Merge.antt =====
-- src/allocator.rs: the merge loop of `insert_and_coalesce` over blocks sorted by start.
use shm2_rs.Base.{ℕ, suc, ◌+◌, ◌^◌, ◌≤◌, ◌≡◌, refl, List, [], ◌∷◌, ◌++◌, All, arith}
use shm2_rs.Allocator.{Block, sort_by_key, merge_into, coalesce, insert_and_coalesce}
use shm2_rs.Allocator.Valid.{inside, cover, total_len, EndsBy, cover-append}
use shm2_rs.Allocator.Coalesce.{
  Ascending, Gaps, joined, joined_len, sort_by_key-Ascending, sort_by_key-cover,
  sort_by_key-total_len, sort_by_key-All,
}

module _ (total : ℕ) (small : total ≤ 2 ^ 63) where
  -- What the loop needs of the blocks that are left: sorted, inside the arena, no byte in two.
  record Mergeable (last : Block) (bs : List Block) : Type 0 where
    ascending : Ascending last.0 bs
    last_in : EndsBy total last
    rest_in : All (EndsBy total) bs
    once : (x : ℕ) → inside x last + cover x bs ≤ 1

  Mergeable-apart : (last b : Block) (bs : List Block) → Mergeable last (b ∷ bs) → Mergeable b bs
  Mergeable-apart last b bs m = record {
    ascending = m.ascending.1;
    last_in = m.rest_in.0;
    rest_in = m.rest_in.1;
    once = λ x. omega (arith, m.once x);
  }

  Ascending-le : (lo hi : ℕ) (bs : List Block) → lo ≤ hi → Ascending hi bs → Ascending lo bs
  Ascending-le lo hi [] h a = a
  Ascending-le lo hi (b ∷ bs) h a = ground arith

  inside-joined :
      (x : ℕ) (last b : Block) (bs : List Block)
      → Mergeable last (b ∷ bs)
      → b.0 ≤ last.0 + last.1
      → inside x (joined last b) ≡ inside x last + inside x b
  inside-joined x last b bs m t = ground (arith, m.once b.0, m.ascending, m.last_in, m.rest_in)

  joined_length :
      (last b : Block) (bs : List Block)
      → Mergeable last (b ∷ bs)
      → b.0 ≤ last.0 + last.1
      → (joined last b).1 ≡ last.1 + b.1
  joined_length last b bs m t =
      (joined_len last b m.ascending.0 t (omega (arith, m.last_in)) (omega (arith, m.rest_in))
        (omega (arith, m.once b.0))).0

  Mergeable-joined :
      (last b : Block) (bs : List Block)
      → Mergeable last (b ∷ bs)
      → b.0 ≤ last.0 + last.1
      → Mergeable (joined last b) bs
  Mergeable-joined last b bs m t = record {
    ascending = Ascending-le last.0 b.0 bs m.ascending.0 m.ascending.1;
    last_in = ground (arith, m.ascending, m.last_in, m.rest_in);
    rest_in = m.rest_in.1;
    once = λ x. omega (arith, m.once x, inside-joined x last b bs m t);
  }

  merge_into-cover :
      (x : ℕ) (last : Block) (bs : List Block)
      → Mergeable last bs
      → cover x (merge_into last bs) ≡ inside x last + cover x bs
  unfolding merge_into
  merge_into-cover x last [] m = refl
  merge_into-cover x last (b ∷ bs) m = ground (
    arith,
    m.last_in,
    inside-joined x last b bs m,
    merge_into-cover x (joined last b) bs,
    Mergeable-joined last b bs m,
    merge_into-cover x b bs (Mergeable-apart last b bs m),
  )

  merge_into-total_len :
      (last : Block) (bs : List Block)
      → Mergeable last bs
      → total_len (merge_into last bs) ≡ last.1 + total_len bs
  unfolding merge_into
  merge_into-total_len last [] m = refl
  merge_into-total_len last (b ∷ bs) m = ground (
    arith,
    m.last_in,
    joined_length last b bs m,
    merge_into-total_len (joined last b) bs,
    Mergeable-joined last b bs m,
    merge_into-total_len b bs (Mergeable-apart last b bs m),
  )

  merge_into-All :
      (last : Block) (bs : List Block) → Mergeable last bs → All (EndsBy total) (merge_into last bs)
  unfolding merge_into
  merge_into-All last [] m = (m.last_in, tt)
  merge_into-All last (b ∷ bs) m = ground (
    arith,
    m.last_in,
    merge_into-All (joined last b) bs,
    Mergeable-joined last b bs m,
    merge_into-All b bs (Mergeable-apart last b bs m),
  )

  merge_into-Gaps :
      (lo : ℕ) (last : Block) (bs : List Block)
      → lo ≤ last.0
      → Mergeable last bs
      → Gaps lo (merge_into last bs)
  unfolding merge_into
  merge_into-Gaps lo last [] h m = ground arith
  merge_into-Gaps lo last (b ∷ bs) h m = ground (
    arith,
    m.last_in,
    merge_into-Gaps lo (joined last b) bs,
    Mergeable-joined last b bs m,
    merge_into-Gaps (suc (last.0 + last.1)) b bs,
    Mergeable-apart last b bs m,
  )

  -- The list that a merge of sorted blocks, no byte in two of them, leaves.
  pub record Merged (bs merged : List Block) : Type 0 where
    pub same_bytes : (x : ℕ) → cover x merged ≡ cover x bs
    pub same_len : total_len merged ≡ total_len bs
    pub ends : All (EndsBy total) merged
    pub gaps : Gaps 0 merged

  coalesce-Merged :
      (bs : List Block)
      → Ascending 0 bs
      → All (EndsBy total) bs
      → ((x : ℕ) → cover x bs ≤ 1)
      → Merged bs (coalesce bs)
  unfolding coalesce
  coalesce-Merged [] s a once = record {
    same_bytes = λ x. refl;
    same_len = refl;
    ends = tt;
    gaps = tt;
  }
  coalesce-Merged (b ∷ bs) s a once =
      let m : Mergeable b bs = record {
        ascending = s.1;
        last_in = a.0;
        rest_in = a.1;
        once = once;
      } in
      record {
        same_bytes = λ x. merge_into-cover x b bs m;
        same_len = merge_into-total_len b bs m;
        ends = merge_into-All b bs m;
        gaps = merge_into-Gaps 0 b bs (omega arith) m;
      }

  All-append :
      (bs cs : List Block)
      → All (EndsBy total) bs
      → All (EndsBy total) cs
      → All (EndsBy total) (bs ++ cs)
  All-append [] cs h k = k
  All-append (b ∷ bs) cs h k = (h.0, All-append bs cs h.1 k)

  total_len-append : (bs cs : List Block) → total_len (bs ++ cs) ≡ total_len bs + total_len cs
  total_len-append [] cs = omega arith
  total_len-append (b ∷ bs) cs = omega (arith, total_len-append bs cs)

  -- Giving a block back to a free list with which it shares no byte: the list then holds the bytes of
  -- both, sorted, with a gap of at least one byte between any two blocks.
  pub insert_and_coalesce-Merged :
      (b : Block) (free : List Block)
      → EndsBy total b
      → All (EndsBy total) free
      → ((x : ℕ) → inside x b + cover x free ≤ 1)
      → Merged (b ∷ free) (insert_and_coalesce b free)
  unfolding insert_and_coalesce
  insert_and_coalesce-Merged b free e a once = record {
    same_bytes = λ x. omega (arith, merged.same_bytes x, sorted_bytes x);
    same_len = omega (
      arith,
      merged.same_len,
      sort_by_key-total_len [] (free ++ b ∷ []),
      total_len-append free (b ∷ []),
    );
    ends = merged.ends;
    gaps = merged.gaps;
  }
    where
      sorted_bytes : (x : ℕ) → cover x (sort_by_key [] (free ++ b ∷ [])) ≡ inside x b + cover x free
      sorted_bytes x =
          omega (arith, sort_by_key-cover x [] (free ++ b ∷ []), cover-append x free (b ∷ []))

      merged : Merged (sort_by_key [] (free ++ b ∷ [])) (coalesce (sort_by_key [] (free ++ b ∷ [])))
      merged =
          coalesce-Merged (sort_by_key [] (free ++ b ∷ []))
            (sort_by_key-Ascending [] (free ++ b ∷ []) tt)
            (sort_by_key-All total [] (free ++ b ∷ []) tt (All-append free (b ∷ []) a (e, tt)))
            (λ x. omega (arith, once x, sorted_bytes x))
