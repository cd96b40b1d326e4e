-- ===== src/Sink/Owners.antt =====
-- src/shm2sink.rs, src/transport.rs: the pending leases of `AllocTracker` as owners of buffers.
pub mod Lease
pub mod Steps
pub mod Sharing
pub mod Delivery
use shm2_rs.Base.{
  some_eq, ℕ, ◌+◌, ◌<◌, ◌≡◌, refl, ap, sym, ◌∙◌, Bool, true, false, List, [], ◌∷◌, Option, none,
  some, All, Bool-cases, inl, inr, ◌==◌, ==_iff, arith,
}
use mathlib.Core.Path.{subst}
use shm2_rs.Base.Dict.{Dict, lookup, delete}
use shm2_rs.Allocator.{Block, FreeListAllocator, find, remove}
use shm2_rs.Allocator.Valid.{IsValid, inside}
use shm2_rs.Transport.Types.{Writer}
use shm2_rs.Transport.Payload.{live_disjoint}
use shm2_rs.Transport.Owners.Ledger.{Ticket, IsOf}
use shm2_rs.Transport.Owners.Books.{IsOwned}
use shm2_rs.Sink.Tracker.{PendingLease, AllocTracker}

abbrev pub pending_ticket : PendingLease → Ticket
pending_ticket v = (v.buffer_id, (v.offset, v.len))

unfoldable pub tickets : Dict PendingLease → List Ticket
tickets [] = []
tickets ((ptr, v) ∷ m) = pending_ticket v ∷ tickets m

-- An entry stands under its own address, and has a byte at least.
abbrev pub IsKeyed : ℕ × PendingLease → Type 0
IsKeyed (ptr, v) = (ptr ≡ v.offset) × (0 < v.len)

-- The tracker's pending leases are the leases in the writer's books.
pub record IsTracked (t : AllocTracker) (held : List Ticket) : Type 0 where
  pub w : Writer
  pub writer : t.writer ≡ some w
  pub owned : IsOwned w (tickets t.pending_by_ptr) held
  pub keyed : All IsKeyed t.pending_by_ptr

lookup-here :
    (key ptr : ℕ) (q : PendingLease) (m : Dict PendingLease)
    → (key == ptr) ≡ true
    → lookup ptr ((key, q) ∷ m) ≡ some q
unfolding lookup
lookup-here key ptr q m at = rw at refl

lookup-there :
    (key ptr : ℕ) (q : PendingLease) (m : Dict PendingLease)
    → (key == ptr) ≡ false
    → lookup ptr ((key, q) ∷ m) ≡ lookup ptr m
unfolding lookup
lookup-there key ptr q m other = rw other refl

find-here : (id : ℕ) (b : Block) (ts : List Ticket) → find id ((id, b) ∷ ts) ≡ some b
unfolding find
find-here id b ts = rw ((==_iff id id).1 refl) refl

module _ (total : ℕ) (a : FreeListAllocator) (v : IsValid total a) where
  abbrev Live : Ticket → Type 0
  Live = IsOf (λ j. find j a.used)

  -- Live buffers with a byte in common are one.
  pub live_same :
      (i j offset k l : ℕ)
      → find i a.used ≡ some (offset, k)
      → find j a.used ≡ some (offset, l)
      → 0 < k
      → 0 < l
      → i ≡ j
  live_same i j offset k l fi fj some_k some_l = elim (Bool-cases (i == j)) [
    | inl e ↦ (==_iff i j).0 e
    | inr ne ↦ absurd (
        ground (
          arith,
          some_k,
          some_l,
          live_disjoint total a i j (offset, k) (offset, l) offset v fi fj (ground (arith, ne)),
        ))
  ]

  find-past :
      (q p : PendingLease) (m : Dict PendingLease)
      → Live (pending_ticket q)
      → Live (pending_ticket p)
      → find p.buffer_id (tickets m) ≡ some (p.offset, p.len)
      → find p.buffer_id (pending_ticket q ∷ tickets m) ≡ some (p.offset, p.len)
  unfolding find
  find-past q p m lq lp f = elim (Bool-cases (q.buffer_id == p.buffer_id)) [
    | inl e ↦ rw e (sym lq ∙ ap (λ i. find i a.used) ((==_iff _ _).0 e) ∙ lp)
    | inr ne ↦ rw ne f
  ]

  agree_one :
      (ptr key : ℕ) (p q : PendingLease)
      → IsKeyed (ptr, p)
      → Live (pending_ticket p)
      → IsKeyed (key, q)
      → Live (pending_ticket q)
      → (key == ptr) ≡ (q.buffer_id == p.buffer_id)
  agree_one ptr key p q kp lp kq lq = elim (Bool-cases (q.buffer_id == p.buffer_id)) [
    | inl e ↦ rw e ((==_iff key ptr).1 (kq.0 ∙ same_offset e ∙ sym kp.0))
    | inr ne ↦ elim (Bool-cases (key == ptr)) [
      | inr other ↦ rw (ne, other) refl
      | inl at ↦
          absurd (cc (ne, (==_iff q.buffer_id p.buffer_id).1 (same_id ((==_iff key ptr).0 at))))
    ]
  ]
    where
      same_offset : (q.buffer_id == p.buffer_id) ≡ true → q.offset ≡ p.offset
      same_offset e =
          ap (λ b. b.0) (some_eq (sym lq ∙ ap (λ i. find i a.used) ((==_iff _ _).0 e) ∙ lp))

      same_id : key ≡ ptr → q.buffer_id ≡ p.buffer_id
      same_id e =
          live_same q.buffer_id p.buffer_id p.offset q.len p.len
            (subst (λ o. find q.buffer_id a.used ≡ some (o, q.len)) (sym kq.0 ∙ e ∙ kp.0) lq) lp
            kq.1 kp.1

  -- The entry at an address is the lease of its buffer.
  pub lookup-find :
      (ptr : ℕ) (m : Dict PendingLease) (p : PendingLease)
      → lookup ptr m ≡ some p
      → All IsKeyed m
      → All Live (tickets m)
      → (find p.buffer_id (tickets m) ≡ some (p.offset, p.len))
        × IsKeyed (ptr, p)
        × Live (pending_ticket p)
  unfolding lookup tickets find
  lookup-find ptr [] p e k l = absurd (cc)
  lookup-find ptr ((key, q) ∷ m) p e (kq, k) (lq, l) = elim (Bool-cases (key == ptr)) [
    | inl at ↦
        subst
          (λ r.
            (find r.buffer_id (pending_ticket q ∷ tickets m) ≡ some (r.offset, r.len))
            × IsKeyed (ptr, r)
            × Live (pending_ticket r))
          (some_eq (sym (lookup-here key ptr q m at) ∙ e))
          (
            find-here q.buffer_id (q.offset, q.len) (tickets m),
            (sym ((==_iff key ptr).0 at) ∙ kq.0, kq.1),
            lq,
          )
    | inr other ↦
        let (f, kp, lp) = lookup-find ptr m p (sym (lookup-there key ptr q m other) ∙ e) k l in
        (find-past q p m lq lp f, kp, lp)
  ]

  -- The entries with an address and those with its buffer are the same.
  pub agree :
      (ptr : ℕ) (p : PendingLease) (m : Dict PendingLease)
      → IsKeyed (ptr, p)
      → Live (pending_ticket p)
      → All IsKeyed m
      → All Live (tickets m)
      → All (λ kv. (kv.0 == ptr) ≡ (kv.1.buffer_id == p.buffer_id)) m
  unfolding tickets
  agree ptr p [] kp lp k l = tt
  agree ptr p ((key, q) ∷ m) kp lp (kq, k) (lq, l) =
      (agree_one ptr key p q kp lp kq lq, agree ptr p m kp lp k l)

pub tickets-delete :
    (ptr id : ℕ) (m : Dict PendingLease)
    → All (λ kv. (kv.0 == ptr) ≡ (kv.1.buffer_id == id)) m
    → tickets (delete ptr m) ≡ remove id (tickets m)
unfolding tickets delete remove
tickets-delete ptr id [] h = refl
tickets-delete ptr id ((key, q) ∷ m) (same, h) = ground (arith, same, tickets-delete ptr id m h)

pub delete-IsKeyed : (ptr : ℕ) (m : Dict PendingLease) → All IsKeyed m → All IsKeyed (delete ptr m)
unfolding delete
delete-IsKeyed ptr [] k = tt
delete-IsKeyed ptr ((key, q) ∷ m) (kq, k) = elim (Bool-cases (key == ptr)) [
  | inl e ↦ rw e (delete-IsKeyed ptr m k)
  | inr e ↦ rw e (kq, delete-IsKeyed ptr m k)
]
