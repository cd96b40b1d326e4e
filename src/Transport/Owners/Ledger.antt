-- ===== src/Transport/Owners/Ledger.antt =====
-- src/transport.rs: a ledger of who holds which live buffer, and the moves that keep it balanced.
-- A buffer has four places: with the producer, with the consumer, on the ready ring, on the recycle ring.
use shm2_rs.Base.{
  ℕ, ◌+◌, ◌≤◌, ◌≡◌, ◌∙◌, ap, false, List, [], ◌∷◌, ◌++◌, Option, none, some, ◌==◌, if◌then◌else◌,
  All, arith,
}
use shm2_rs.Allocator.{Block, find, remove}

-- A buffer's id with its offset and length.
abbrev pub Ticket : Type 0
Ticket = ℕ × Block

unfoldable pub count : ℕ → List Ticket → ℕ
count j [] = 0
count j (t ∷ ts) = (if t.0 == j then 1 else 0) + count j ts

unfoldable pub present : Option Block → ℕ
present none = 0
present (some b) = 1

abbrev pub IsOf : (ℕ → Option Block) → Ticket → Type 0
IsOf live t = live t.0 ≡ some t.1

-- Each live buffer is in exactly one place, once, and under its own block.
pub record Ledger (live : ℕ → Option Block) (leased held queued returned : List Ticket)
    : Type 0 where
  pub one :
      (j : ℕ) → count j leased + count j held + count j queued + count j returned ≡ present (live j)
  pub leased_live : All (IsOf live) leased
  pub held_live : All (IsOf live) held
  pub queued_live : All (IsOf live) queued
  pub returned_live : All (IsOf live) returned

pub count-append : (j : ℕ) (xs ys : List Ticket) → count j (xs ++ ys) ≡ count j xs + count j ys
unfolding count
count-append j [] ys = omega arith
count-append j (x ∷ xs) ys = omega (arith, count-append j xs ys)

count-remove :
    (id j : ℕ) (ts : List Ticket) → count j (remove id ts) ≡ (if id == j then 0 else count j ts)
unfolding count remove
count-remove id j [] = ground arith
count-remove id j ((k, b) ∷ ts) = ground (arith, count-remove id j ts)

pub count-find : (id : ℕ) (ts : List Ticket) (b : Block) → find id ts ≡ some b → 1 ≤ count id ts
unfolding count find
count-find id [] b e = absurd (cc)
count-find id ((k, c) ∷ ts) b e = ground (arith, count-find id ts b)

pub present_le : (o : Option Block) → present o ≤ 1
unfolding present
present_le none = omega arith
present_le (some b) = omega arith

module _ (live : ℕ → Option Block) where
  pub All-append :
      (xs ys : List Ticket) → All (IsOf live) xs → All (IsOf live) ys → All (IsOf live) (xs ++ ys)
  All-append [] ys hx hy = hy
  All-append (x ∷ xs) ys hx hy = (hx.0, All-append xs ys hx.1 hy)

  All-remove : (id : ℕ) (ts : List Ticket) → All (IsOf live) ts → All (IsOf live) (remove id ts)
  unfolding remove
  All-remove id [] h = tt
  All-remove id ((k, b) ∷ ts) h = ground (arith, All-remove id ts)

  pub find_live :
      (id : ℕ) (ts : List Ticket) (b : Block)
      → All (IsOf live) ts
      → find id ts ≡ some b
      → live id ≡ some b
  unfolding find
  find_live id [] b h e = absurd (cc)
  find_live id ((k, c) ∷ ts) b h e = ground (arith, find_live id ts b)

  -- A change of `live` at one id that the list does not hold.
  All-update :
      (live' : ℕ → Option Block) (id : ℕ) (ts : List Ticket)
      → ((j : ℕ) → (id == j) ≡ false → live' j ≡ live j)
      → count id ts ≡ 0
      → All (IsOf live) ts
      → All (IsOf live') ts
  unfolding count
  All-update live' id [] same c h = tt
  All-update live' id ((k, b) ∷ ts) same c h =
      (same k (ground (arith, c)) ∙ h.0, All-update live' id ts same (ground (arith, c)) h.1)

module _ (live : ℕ → Option Block) (leased held queued returned : List Ticket)
    (l : Ledger live leased held queued returned) where
  -- A new buffer, given to the producer.
  pub Ledger-lease :
      (live' : ℕ → Option Block) (id : ℕ) (b : Block)
      → live id ≡ none
      → ((j : ℕ) → live' j ≡ (if id == j then some b else live j))
      → Ledger live' ((id, b) ∷ leased) held queued returned
  unfolding count present
  Ledger-lease live' id b fresh after = record {
    one = λ j. ground (arith, l.one j, after j, fresh, gone);
    leased_live = (
      ground (arith, after id),
      All-update live live' id leased same (omega (arith, gone)) l.leased_live,
    );
    held_live = All-update live live' id held same (omega (arith, gone)) l.held_live;
    queued_live = All-update live live' id queued same (omega (arith, gone)) l.queued_live;
    returned_live = All-update live live' id returned same (omega (arith, gone)) l.returned_live;
  }
    where
      same : (j : ℕ) → (id == j) ≡ false → live' j ≡ live j
      same j ne = ground (arith, after j, ne)

      gone : count id leased + count id held + count id queued + count id returned ≡ 0
      gone = l.one id ∙ ap present fresh

  -- The producer's buffer is freed.
  pub Ledger-release :
      (live' : ℕ → Option Block) (id : ℕ) (b : Block)
      → find id leased ≡ some b
      → ((j : ℕ) → live' j ≡ (if id == j then none else live j))
      → Ledger live' (remove id leased) held queued returned
  unfolding present
  Ledger-release live' id b mine after = record {
    one = λ j. ground (arith, l.one j, after j, alone, count-remove id j leased);
    leased_live =
        All-update live live' id (remove id leased) same (ground (arith, count-remove id id leased))
          (All-remove live id leased l.leased_live);
    held_live = All-update live live' id held same (omega (arith, alone)) l.held_live;
    queued_live = All-update live live' id queued same (omega (arith, alone)) l.queued_live;
    returned_live = All-update live live' id returned same (omega (arith, alone)) l.returned_live;
  }
    where
      same : (j : ℕ) → (id == j) ≡ false → live' j ≡ live j
      same j ne = ground (arith, after j, ne)

      alone : (count id leased ≡ 1) × (count id held + count id queued + count id returned ≡ 0)
      alone = omega (arith, l.one id, present_le (live id), count-find id leased b mine)

  -- The producer's buffer comes first in its list.
  pub Ledger-front :
      (id : ℕ) (b : Block)
      → find id leased ≡ some b
      → Ledger live ((id, b) ∷ remove id leased) held queued returned
  unfolding count
  Ledger-front id b mine = record {
    one = λ j. ground (
      arith,
      l.one j,
      l.one id,
      present_le (live id),
      count-find id leased b mine,
      count-remove id j leased,
    );
    leased_live =
        (find_live live id leased b l.leased_live mine, All-remove live id leased l.leased_live);
    held_live = l.held_live;
    queued_live = l.queued_live;
    returned_live = l.returned_live;
  }

  -- The producer's buffer goes to the end of the ready ring.
  pub Ledger-publish :
      (id : ℕ) (b : Block)
      → find id leased ≡ some b
      → Ledger live (remove id leased) held (queued ++ (id, b) ∷ []) returned
  unfolding count
  Ledger-publish id b mine = record {
    one = λ j. ground (
      arith,
      l.one j,
      l.one id,
      present_le (live id),
      count-find id leased b mine,
      count-remove id j leased,
      count-append j queued ((id, b) ∷ []),
    );
    leased_live = All-remove live id leased l.leased_live;
    held_live = l.held_live;
    queued_live =
        All-append live queued ((id, b) ∷ []) l.queued_live
          (find_live live id leased b l.leased_live mine, tt);
    returned_live = l.returned_live;
  }

  -- The consumer's buffer goes to the end of the recycle ring.
  pub Ledger-give_back :
      (id : ℕ) (b : Block)
      → find id held ≡ some b
      → Ledger live leased (remove id held) queued (returned ++ (id, b) ∷ [])
  unfolding count
  Ledger-give_back id b mine = record {
    one = λ j. ground (
      arith,
      l.one j,
      l.one id,
      present_le (live id),
      count-find id held b mine,
      count-remove id j held,
      count-append j returned ((id, b) ∷ []),
    );
    leased_live = l.leased_live;
    held_live = All-remove live id held l.held_live;
    queued_live = l.queued_live;
    returned_live =
        All-append live returned ((id, b) ∷ []) l.returned_live
          (find_live live id held b l.held_live mine, tt);
  }

-- The oldest frame of the ready ring goes to the consumer.
pub Ledger-take :
    (live : ℕ → Option Block) (leased held queued returned : List Ticket) (t : Ticket)
    → Ledger live leased held (t ∷ queued) returned
    → Ledger live leased (t ∷ held) queued returned
unfolding count
Ledger-take live leased held queued returned t l = record {
  one = λ j. omega (arith, l.one j);
  leased_live = l.leased_live;
  held_live = (l.queued_live.0, l.held_live);
  queued_live = l.queued_live.1;
  returned_live = l.returned_live;
}

-- The oldest frame of the ready ring goes to the end of the recycle ring.
pub Ledger-skip :
    (live : ℕ → Option Block) (leased held queued returned : List Ticket) (t : Ticket)
    → Ledger live leased held (t ∷ queued) returned
    → Ledger live leased held queued (returned ++ t ∷ [])
unfolding count
Ledger-skip live leased held queued returned t l = record {
  one = λ j. omega (arith, l.one j, count-append j returned (t ∷ []));
  leased_live = l.leased_live;
  held_live = l.held_live;
  queued_live = l.queued_live.1;
  returned_live = All-append live returned (t ∷ []) l.returned_live (l.queued_live.0, tt);
}

-- The oldest frame of the ready ring is freed.
pub Ledger-drop :
    (live live' : ℕ → Option Block) (leased held queued returned : List Ticket) (t : Ticket)
    → Ledger live leased held (t ∷ queued) returned
    → ((j : ℕ) → live' j ≡ (if t.0 == j then none else live j))
    → Ledger live' leased held queued returned
unfolding count present
Ledger-drop live live' leased held queued returned t l after = record {
  one = λ j. ground (arith, l.one j, after j, alone);
  leased_live = All-update live live' t.0 leased same (omega (arith, alone)) l.leased_live;
  held_live = All-update live live' t.0 held same (omega (arith, alone)) l.held_live;
  queued_live = All-update live live' t.0 queued same (omega (arith, alone)) l.queued_live.1;
  returned_live = All-update live live' t.0 returned same (omega (arith, alone)) l.returned_live;
}
  where
    same : (j : ℕ) → (t.0 == j) ≡ false → live' j ≡ live j
    same j ne = ground (arith, after j, ne)

    alone : count t.0 leased + count t.0 held + count t.0 queued + count t.0 returned ≡ 0
    alone = ground (arith, l.one t.0, present_le (live t.0))

-- The oldest buffer of the recycle ring is freed.
pub Ledger-drain :
    (live live' : ℕ → Option Block) (leased held queued returned : List Ticket) (t : Ticket)
    → Ledger live leased held queued (t ∷ returned)
    → ((j : ℕ) → live' j ≡ (if t.0 == j then none else live j))
    → Ledger live' leased held queued returned
unfolding count present
Ledger-drain live live' leased held queued returned t l after = record {
  one = λ j. ground (arith, l.one j, after j, alone);
  leased_live = All-update live live' t.0 leased same (omega (arith, alone)) l.leased_live;
  held_live = All-update live live' t.0 held same (omega (arith, alone)) l.held_live;
  queued_live = All-update live live' t.0 queued same (omega (arith, alone)) l.queued_live;
  returned_live = All-update live live' t.0 returned same (omega (arith, alone)) l.returned_live.1;
}
  where
    same : (j : ℕ) → (t.0 == j) ≡ false → live' j ≡ live j
    same j ne = ground (arith, after j, ne)

    alone : count t.0 leased + count t.0 held + count t.0 queued + count t.0 returned ≡ 0
    alone = ground (arith, l.one t.0, present_le (live t.0))
