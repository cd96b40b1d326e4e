-- ===== src/Base/Decimal.antt =====
-- Unsigned decimals: `parse` and `format!`.
use Prim.Native.Nat.{ℕ, zero, suc, ◌+◌, ◌-◌, ◌*◌, ◌/◌, ◌%◌, ◌^◌, ◌≤◌, ◌<◌}
use mathlib.Core.Path.{◌≡◌, refl, ap, sym, ◌∙◌, subst}
use mathlib.Core.Logic.{inl, inr}
use mathlib.Core.Bool.{false, ◌&&◌}
use mathlib.Core.Option.{Option, none, some}
use mathlib.Core.List.{[], ◌∷◌}
use native.Mathlib.Omega.{arith}
use shm2_rs.Base.Compare.{◌==◌, leb, ltb, if◌then◌else◌, Option-cases, Bool-cases, ltb→lt}
use native.Mathlib.Nat.{div-add-mod, mod-lt}
use shm2_rs.Base.Lists.{length}
use shm2_rs.Base.Text.{Bytes, is_empty}

-- `parse` of an unsigned type of `limit` values: one digit more.
abbrev digit_more : (limit acc c : ℕ) → Option ℕ
digit_more limit acc c =
    if leb 48 c && leb c 57 && ltb (acc * 10 + (c - 48)) limit
    then some (acc * 10 + (c - 48))
    else none

parse_digits : (limit acc : ℕ) → Bytes → Option ℕ
parse_digits limit acc [] = some acc
parse_digits limit acc (c ∷ s) = elim (digit_more limit acc c) [
  | none ↦ none
  | some n ↦ parse_digits limit n s
]

-- A sign `+` may stand before the digits, of which there is at least one.
pub parse_unsigned : (limit : ℕ) → Bytes → Option ℕ
parse_unsigned limit [] = none
parse_unsigned limit (c ∷ s) =
    let unsigned = parse_digits limit 0 s in
    let whole = parse_digits limit 0 (c ∷ s) in
    if c == b'+' then (if is_empty s then none else unsigned) else whole

abbrev pub Under : ℕ → Option ℕ → Type 0
Under limit none = Unit
Under limit (some n) = n < limit

digit_more-Under : (limit acc c : ℕ) → Under limit (digit_more limit acc c)
digit_more-Under limit acc c = ground arith

parse_digits-Under :
    (limit acc : ℕ) (s : Bytes) → acc < limit → Under limit (parse_digits limit acc s)
unfolding parse_digits
parse_digits-Under limit acc [] h = h
parse_digits-Under limit acc (c ∷ s) h = elim (Option-cases (digit_more limit acc c)) [
  | inl e ↦ rw (parse_digits, e) tt
  | inr (n, e) ↦
      rw (parse_digits, e)
        (parse_digits-Under limit n s (subst (Under limit) e (digit_more-Under limit acc c)))
]

pub parse_unsigned-Under :
    (limit : ℕ) (s : Bytes) → 0 < limit → Under limit (parse_unsigned limit s)
unfolding parse_unsigned
parse_unsigned-Under limit [] h = tt
parse_unsigned-Under limit (c ∷ s) h =
    ground (arith, parse_digits-Under limit 0 s h, parse_digits-Under limit 0 (c ∷ s) h)

-- The digits of `n` before `rest`, at most `fuel` of them.
unfoldable pub digits : (fuel n : ℕ) → Bytes → Bytes
digits zero n rest = rest
digits (suc fuel) n rest =
    let more = digits fuel (n / 10) ((48 + n % 10) ∷ rest) in
    if ltb n 10 then (48 + n) ∷ rest else more

-- A number of 64 bits has at most twenty digits.
pub decimal : ℕ → Bytes
decimal n = digits 20 n []

length-digits : (fuel n : ℕ) (rest : Bytes) → length (digits fuel n rest) ≤ fuel + length rest
unfolding digits
length-digits zero n rest = omega arith
length-digits (suc fuel) n rest = ground (arith, length-digits fuel (n / 10) ((48 + n % 10) ∷ rest))

pub length-decimal : (n : ℕ) → length (decimal n) ≤ 20
unfolding decimal
length-decimal n = length-digits 20 n []

-- A digit that is read back.
digit_more-digit :
    (limit acc d : ℕ)
    → d < 10
    → acc * 10 + d < limit
    → digit_more limit acc (48 + d) ≡ some (acc * 10 + d)
digit_more-digit limit acc d small under = ground (arith, small, under)

parse_digits-digit :
    (limit acc d n : ℕ) (rest : Bytes)
    → d < 10
    → acc * 10 + d ≡ n
    → n < limit
    → parse_digits limit acc ((48 + d) ∷ rest) ≡ parse_digits limit n rest
unfolding parse_digits
parse_digits-digit limit acc d n rest small e under =
    rw (digit_more-digit limit acc d small (omega (arith, e, under)), parse_digits, e) refl

parse_digits-digits :
    (fuel limit n : ℕ) (rest : Bytes)
    → n < 10 ^ fuel
    → n < limit
    → parse_digits limit 0 (digits fuel n rest) ≡ parse_digits limit n rest
unfolding digits
parse_digits-digits zero limit n rest fits under =
    ap (λ k. parse_digits limit k rest) (omega (arith, fits))
parse_digits-digits (suc fuel) limit n rest fits under = elim (Bool-cases (ltb n 10)) [
  | inl small ↦
      rw small (parse_digits-digit limit 0 n n rest (ltb→lt n 10 small) (omega arith) under)
  | inr big ↦ rw big (
      parse_digits-digits fuel limit (n / 10) ((48 + n % 10) ∷ rest)
        (omega (arith, fits, div-add-mod n 10)) (omega (arith, div-add-mod n 10, under))
      ∙ parse_digits-digit limit (n / 10) (n % 10) n rest (mod-lt n {m = 10} (omega arith))
          (omega (arith, div-add-mod n 10)) under)
]

digits-first :
    (fuel n : ℕ) (rest : Bytes) → (d : ℕ) × (s : Bytes) × (digits (suc fuel) n rest ≡ (48 + d) ∷ s)
unfolding digits
digits-first zero n rest = elim (Bool-cases (ltb n 10)) [
  | inl small ↦ (n, rest, rw small refl)
  | inr big ↦ (n % 10, rest, rw big refl)
]
digits-first (suc fuel) n rest = elim (Bool-cases (ltb n 10)) [
  | inl small ↦ (n, rest, rw small refl)
  | inr big ↦ let (d, s, e) = digits-first fuel (n / 10) ((48 + n % 10) ∷ rest) in (d, s, rw big e)
]

-- A digit is no sign.
parse_unsigned-digit :
    (limit d : ℕ) (s : Bytes)
    → parse_unsigned limit ((48 + d) ∷ s) ≡ parse_digits limit 0 ((48 + d) ∷ s)
unfolding parse_unsigned
parse_unsigned-digit limit d s = rw no_sign refl
  where
    no_sign : (48 + d == b'+') ≡ false
    no_sign = ground arith

-- A number below 2 ^ 64 is read back.
pub parse_unsigned-decimal : (n : ℕ) → n < 2 ^ 64 → parse_unsigned (2 ^ 64) (decimal n) ≡ some n
unfolding decimal parse_digits
parse_unsigned-decimal n under =
    let (d, s, e) = digits-first 19 n [] in
    ap (parse_unsigned (2 ^ 64)) e
    ∙ parse_unsigned-digit (2 ^ 64) d s
    ∙ ap (parse_digits (2 ^ 64) 0) (sym e)
    ∙ parse_digits-digits 20 (2 ^ 64) n [] (omega (arith, under)) under
