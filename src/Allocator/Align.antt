-- ===== src/Allocator/Align.antt =====
-- src/allocator.rs: `align_up`.
use shm2_rs.Base.{ℕ, ◌+◌, ◌-◌, ◌*◌, ◌/◌, ◌%◌, ◌^◌, ◌≤◌, ◌<◌, ◌≡◌, ◌≢◌, add_u64, arith}
use native.Mathlib.Nat.{mod-lt, div-add-mod, mul-mod_right, mul-le-mul_left}
use native.Mathlib.Decide.{dec_le}
use shm2_rs.Allocator.{align_up}

-- Rounding up reaches the next multiple.
round_up :
    (v align : ℕ)
    → 1 ≤ align
    → v + align ≤ 2 ^ 64
    → v % align ≢ 0
    → add_u64 v (align - v % align) ≡ align * (v / align + 1)
round_up v align p h ne = omega (arith, mod-lt v {m = align} p, div-add-mod v align)

pub align_up_bounds :
    (v align : ℕ)
    → 1 ≤ align
    → v + align ≤ 2 ^ 64
    → (v ≤ align_up v align) × (align_up v align < v + align)
unfolding align_up
align_up_bounds v align p h = ground (arith, mod-lt v {m = align} p)

pub align_up-mod : (v align : ℕ) → 1 ≤ align → v + align ≤ 2 ^ 64 → align_up v align % align ≡ 0
unfolding align_up
align_up-mod v align p h = ground (arith, round_up v align p h, mul-mod_right align (v / align + 1))

next_multiple :
    (v align x : ℕ)
    → 1 ≤ align
    → v ≤ x
    → x % align ≡ 0
    → v % align ≢ 0
    → align * (v / align + 1) ≤ x
next_multiple v align x p le m ne = elim (dec_le (v / align + 1) (x / align)) [
  | yes q ↦ omega (arith, mul-le-mul_left align q, div-add-mod x align)
  | no q ↦ absurd (
      omega (
        arith,
        mul-le-mul_left {m = x / align} {n = v / align} align (omega arith),
        div-add-mod x align,
        div-add-mod v align,
      ))
]

-- For an alignment of at least 1, and where `v + align` is at most 2 ^ 64, `align_up v align` is at
-- most any multiple of `align` from `v` on.
pub align_up_least :
    (v align x : ℕ) → 1 ≤ align → v + align ≤ 2 ^ 64 → v ≤ x → x % align ≡ 0 → align_up v align ≤ x
unfolding align_up
align_up_least v align x p h le m =
    ground (arith, round_up v align p h, next_multiple v align x p le m)
