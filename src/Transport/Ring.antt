-- ===== src/Transport/Ring.antt =====
-- src/transport.rs: a ring of descriptors between two absolute counters, as the list of its entries.
-- Both rings use it: slot `i % cap` holds entry `i`, and entries from the tail up to the head are queued.
use shm2_rs.Base.{
  ℕ, zero, suc, ◌+◌, ◌-◌, ◌/◌, ◌%◌, ◌≤◌, ◌<◌, ◌≡◌, ◌≢◌, refl, ap, ap₂, ◌∙◌, List, [], ◌∷◌, ◌++◌,
  length, get_or, set, take, drop, get_or-set_self, get_or-set_ne, arith,
}
use native.Mathlib.Nat.{div-add-mod, mul-le-mul_left, mod-lt}
use native.Mathlib.Decide.{dec_le}

-- Two counters less than `cap` apart use different slots.
pub mod-ne : (i j cap : ℕ) → i < j → j < i + cap → i % cap ≢ j % cap
mod-ne i j cap lt near same = elim (dec_le (j / cap) (i / cap)) [
  | yes q ↦ omega (arith, mul-le-mul_left cap q, div-add-mod i cap, div-add-mod j cap)
  | no q ↦ omega (
    arith,
    mul-le-mul_left {m = i / cap + 1} {n = j / cap} cap (omega arith),
    div-add-mod i cap,
    div-add-mod j cap,
  )
]

module _ {ℓ} {A : Type ℓ} (d : A) where
  -- The `n` entries from counter `i` on.
  unfoldable pub window : List A → ℕ → ℕ → ℕ → List A
  window slots cap i zero = []
  window slots cap i (suc n) = get_or slots (i % cap) d ∷ window slots cap (i + 1) n

  pub length-window : (slots : List A) (cap i n : ℕ) → length (window slots cap i n) ≡ n
  unfolding window
  length-window slots cap i zero = refl
  length-window slots cap i (suc n) = ap suc (length-window slots cap (i + 1) n)

  pub window-snoc :
      (slots : List A) (cap i n : ℕ)
      → window slots cap i (suc n) ≡ window slots cap i n ++ get_or slots ((i + n) % cap) d ∷ []
  unfolding window
  window-snoc slots cap i zero = ap (λ k. get_or slots (k % cap) d ∷ []) (omega arith)
  window-snoc slots cap i (suc n) =
      ap (λ w. get_or slots (i % cap) d ∷ w)
        (window-snoc slots cap (i + 1) n
          ∙ ap (λ k. window slots cap (i + 1) n ++ get_or slots (k % cap) d ∷ []) (omega arith))

  -- A write to a slot past the window, less than a round ahead, leaves the window.
  pub window-set_past :
      (slots : List A) (cap i n j : ℕ) (v : A)
      → i + n ≤ j
      → j < i + cap
      → window (set slots (j % cap) v) cap i n ≡ window slots cap i n
  unfolding window
  window-set_past slots cap i zero j v h k = refl
  window-set_past slots cap i (suc n) j v h k =
      ap₂ ◌∷◌ (get_or-set_ne slots v d (λ e. mod-ne i j cap (omega arith) k (omega (arith, e))))
        (window-set_past slots cap (i + 1) n j v (omega arith) (omega arith))

  -- Writing the slot after the last of fewer than `cap` entries queues one more.
  pub window-push :
      (slots : List A) (cap i n : ℕ) (v : A)
      → length slots ≡ cap
      → n < cap
      → window (set slots ((i + n) % cap) v) cap i (suc n) ≡ window slots cap i n ++ v ∷ []
  window-push slots cap i n v len h =
      window-snoc (set slots ((i + n) % cap) v) cap i n
      ∙ ap₂ (λ w x. w ++ x ∷ [])
          (window-set_past slots cap i n (i + n) v (omega arith) (omega arith))
          (get_or-set_self slots ((i + n) % cap) v d
            (omega (arith, mod-lt (i + n) {m = cap} (omega arith))))

  pub get_or-window :
      (slots : List A) (cap i n j : ℕ)
      → j < n
      → get_or (window slots cap i n) j d ≡ get_or slots ((i + j) % cap) d
  unfolding window
  get_or-window slots cap i zero j h = absurd (omega arith)
  get_or-window slots cap i (suc n) zero h = ap (λ k. get_or slots (k % cap) d) (omega arith)
  get_or-window slots cap i (suc n) (suc j) h =
      get_or-window slots cap (i + 1) n j (omega arith)
      ∙ ap (λ k. get_or slots (k % cap) d) (omega arith)

  pub take-window :
      (slots : List A) (cap i n k : ℕ)
      → k ≤ n
      → take k (window slots cap i n) ≡ window slots cap i k
  unfolding window
  take-window slots cap i n zero h = refl
  take-window slots cap i zero (suc k) h = absurd (omega arith)
  take-window slots cap i (suc n) (suc k) h =
      ap (λ w. get_or slots (i % cap) d ∷ w) (take-window slots cap (i + 1) n k (omega arith))

  pub drop-window :
      (slots : List A) (cap i n k : ℕ)
      → k ≤ n
      → drop k (window slots cap i n) ≡ window slots cap (i + k) (n - k)
  unfolding window
  drop-window slots cap i n zero h = ap₂ (window slots cap) (omega arith) (omega arith)
  drop-window slots cap i zero (suc k) h = absurd (omega arith)
  drop-window slots cap i (suc n) (suc k) h =
      drop-window slots cap (i + 1) n k (omega arith)
      ∙ ap₂ (window slots cap) (omega arith) (omega arith)
