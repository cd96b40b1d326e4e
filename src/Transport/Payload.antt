-- ===== src/Transport/Payload.antt =====
-- src/transport.rs: the payload bytes, from `publish` through the arena to `recv_blocking`.
use shm2_rs.Base.{
  ℕ, zero, suc, ◌+◌, ◌≤◌, ◌<◌, ◌≡◌, ◌≢◌, refl, ap₂, ◌∙◌, ◌⊎◌, List, [], ◌∷◌, some, length, arith,
}
use shm2_rs.Allocator.{Block, FreeListAllocator, find, remove}
use shm2_rs.Allocator.Valid.{IsValid, inside, cover-remove, cover-find, find-remove_ne}
use shm2_rs.Transport.Writer.{copy_to}
use shm2_rs.Transport.Reader.{read_bytes}

-- The copy writes the payload's range and nothing else.
copy_to-outside :
    (arena : ℕ → ℕ) (ptr : ℕ) (payload : List ℕ) (x : ℕ)
    → (x < ptr) ⊎ (ptr + length payload ≤ x)
    → copy_to arena ptr payload x ≡ arena x
unfolding copy_to
copy_to-outside arena ptr [] x h = refl
copy_to-outside arena ptr (b ∷ bs) x h = ground (arith, copy_to-outside arena (ptr + 1) bs x)

read_bytes-ext :
    (f g : ℕ → ℕ) (ptr n : ℕ)
    → ((x : ℕ) → ptr ≤ x → x < ptr + n → f x ≡ g x)
    → read_bytes f ptr n ≡ read_bytes g ptr n
unfolding read_bytes
read_bytes-ext f g ptr zero same = refl
read_bytes-ext f g ptr (suc n) same =
    ap₂ ◌∷◌ (same ptr (omega arith) (omega arith))
      (read_bytes-ext f g (ptr + 1) n (λ x lo hi. same x (omega (arith, lo)) (omega (arith, hi))))

pub read_bytes-copy_to :
    (arena : ℕ → ℕ) (ptr : ℕ) (payload : List ℕ)
    → read_bytes (copy_to arena ptr payload) ptr (length payload) ≡ payload
unfolding read_bytes copy_to
read_bytes-copy_to arena ptr [] = refl
read_bytes-copy_to arena ptr (b ∷ bs) = ap₂ ◌∷◌ (ground arith) (
    read_bytes-ext (copy_to arena ptr (b ∷ bs)) (copy_to arena (ptr + 1) bs) (ptr + 1) (length bs)
      (λ x lo hi. ground (arith, lo))
    ∙ read_bytes-copy_to arena (ptr + 1) bs)

-- Two live allocations of a valid allocator share no byte.
pub live_disjoint :
    (total : ℕ) (a : FreeListAllocator) (i j : ℕ) (b c : Block) (x : ℕ)
    → IsValid total a
    → find i a.used ≡ some b
    → find j a.used ≡ some c
    → i ≢ j
    → inside x b + inside x c ≤ 1
live_disjoint total a i j b c x v fi fj ne = ground (
  arith,
  v.tiles x,
  cover-remove x i a.used v.keys fi,
  cover-find x j (remove i a.used) {b = c} (find-remove_ne i j a.used ne ∙ fj),
)

-- Writing a live allocation leaves the bytes of every other one.
pub read_bytes-copy_other :
    (total : ℕ) (a : FreeListAllocator) (arena : ℕ → ℕ) (payload : List ℕ) (ptr i j : ℕ) (c : Block)
    → IsValid total a
    → find i a.used ≡ some (ptr, length payload)
    → find j a.used ≡ some c
    → i ≢ j
    → read_bytes (copy_to arena ptr payload) c.0 c.1 ≡ read_bytes arena c.0 c.1
read_bytes-copy_other total a arena payload ptr i j c v fi fj ne =
    read_bytes-ext (copy_to arena ptr payload) arena c.0 c.1 (λ x lo hi.
      copy_to-outside arena ptr payload x
        (ground (arith, lo, hi, live_disjoint total a i j (ptr, length payload) c x v fi fj ne)))
