-- ===== src/Base/Text.antt =====
-- Text as the list of its bytes, for the ASCII texts that the program takes apart.
use Prim.Native.Nat.{ℕ, ◌-◌}
use Prim.Native.Char.{code}
use Prim.Native.String.{String}
use mathlib.Core.Path.{◌≡◌, refl, ap, sym, ◌∙◌}
use mathlib.Core.Logic.{◌↔◌, inl, inr}
use mathlib.Core.Bool.{Bool, true, false, ◌&&◌}
use mathlib.Core.Option.{Option, none, some}
use mathlib.Core.List.{List, [], ◌∷◌, ◌++◌}
use native.Mathlib.Omega.{arith}
use shm2_rs.Base.Compare.{◌==◌, leb, if◌then◌else◌, Option-cases}
use shm2_rs.Base.Lists.{All}

abbrev pub Bytes : Type 0
Bytes = List ℕ

-- The code points of a literal.
abbrev pub codes : String → Bytes
codes String.[] = []
codes (String.◌∷◌ c s) = code c ∷ codes s

unfoldable pub bytes_eq : Bytes → Bytes → Bool
bytes_eq [] [] = true
bytes_eq (a ∷ as') (b ∷ bs) = a == b && bytes_eq as' bs
bytes_eq _ _ = false

pub bytes_eq_iff : (as' bs : Bytes) → (bytes_eq as' bs ≡ true) ↔ (as' ≡ bs)
unfolding bytes_eq
bytes_eq_iff [] [] = ground arith
bytes_eq_iff [] (b ∷ bs) = ground arith
bytes_eq_iff (a ∷ as') [] = ground arith
bytes_eq_iff (a ∷ as') (b ∷ bs) = ground (arith, bytes_eq_iff as' bs)

abbrev pub is_empty : Bytes → Bool
is_empty [] = true
is_empty (c ∷ s) = false

-- `strip_prefix`: what follows the pattern, if the text begins with it.
unfoldable pub strip_prefix : Bytes → Bytes → Option Bytes
strip_prefix [] s = some s
strip_prefix (p ∷ pat) [] = none
strip_prefix (p ∷ pat) (c ∷ s) = let rest = strip_prefix pat s in if p == c then rest else none

abbrev pub is_some {ℓ} : {A : Type ℓ} → Option A → Bool
is_some none = false
is_some (some a) = true

unfoldable pub starts_with : Bytes → Bytes → Bool
starts_with s pat = is_some (strip_prefix pat s)

abbrev pub push_front {ℓ} : {A : Type ℓ} → ℕ → Option (Bytes × A) → Option (Bytes × A)
push_front c none = none
push_front c (some (s, a)) = some (c ∷ s, a)

-- The text before the first occurrence of a pattern, and what follows that.
unfoldable pub split_once : Bytes → Bytes → Option (Bytes × Bytes)
split_once pat [] = elim (strip_prefix pat []) [ none ↦ none | some rest ↦ some ([], rest) ]
split_once pat (c ∷ s) = elim (strip_prefix pat (c ∷ s)) [
  | some rest ↦ some ([], rest)
  | none ↦ push_front c (split_once pat s)
]

pub strip_prefix-some : (pat s rest : Bytes) → strip_prefix pat s ≡ some rest → s ≡ pat ++ rest
unfolding strip_prefix
strip_prefix-some [] s rest e = ground (arith, e)
strip_prefix-some (p ∷ pat) [] rest e = absurd (cc)
strip_prefix-some (p ∷ pat) (c ∷ s) rest e = ground (arith, strip_prefix-some pat s rest)

pub strip_prefix-append : (pat rest : Bytes) → strip_prefix pat (pat ++ rest) ≡ some rest
unfolding strip_prefix
strip_prefix-append [] rest = refl
strip_prefix-append (p ∷ pat) rest = ground (arith, strip_prefix-append pat rest)

strip_prefix-miss :
    (p : ℕ) (pat : Bytes) (c : ℕ) (s : Bytes)
    → (p == c) ≡ false
    → strip_prefix (p ∷ pat) (c ∷ s) ≡ none
unfolding strip_prefix
strip_prefix-miss p pat c s h = rw h refl

split_once-miss :
    (pat : Bytes) (c : ℕ) (s : Bytes)
    → strip_prefix pat (c ∷ s) ≡ none
    → split_once pat (c ∷ s) ≡ push_front c (split_once pat s)
unfolding split_once
split_once-miss pat c s h = rw (h, split_once) refl

push_front-some {ℓ} :
    {A : Type ℓ} (c : ℕ) (o : Option (Bytes × A)) (s : Bytes) (a : A)
    → push_front c o ≡ some (s, a)
    → (s' : Bytes) × (s ≡ c ∷ s') × (o ≡ some (s', a))
push_front-some c none s a e = absurd (cc)
push_front-some c (some (s', a')) s a e = (s', cc, cc)

pub split_once-some :
    (pat s before after : Bytes)
    → split_once pat s ≡ some (before, after)
    → s ≡ before ++ (pat ++ after)
unfolding split_once
split_once-some pat [] before after e = ground (arith, strip_prefix-some pat [] after)
split_once-some pat (c ∷ s) before after e = elim (Option-cases (strip_prefix pat (c ∷ s))) [
  | inr (rest, found) ↦ ground (arith, found, e, strip_prefix-some pat (c ∷ s) rest found)
  | inl absent ↦
      let later =
        push_front-some c (split_once pat s) before after
          (sym (split_once-miss pat c s absent) ∙ e) in
      ap (λ t. c ∷ t) (split_once-some pat s later.0 after later.2)
      ∙ ap (λ t. t ++ (pat ++ after)) (sym later.1)
]

-- A text without the pattern's first byte comes back before it.
pub split_once-append :
    (p : ℕ) (pat before after : Bytes)
    → All (λ c. (p == c) ≡ false) before
    → split_once (p ∷ pat) (before ++ ((p ∷ pat) ++ after)) ≡ some (before, after)
unfolding split_once strip_prefix
split_once-append p pat [] after h = ground (arith, strip_prefix-append pat after)
split_once-append p pat (c ∷ before) after h =
    split_once-miss (p ∷ pat) c (before ++ ((p ∷ pat) ++ after)) (strip_prefix-miss p pat c _ h.0)
    ∙ ap (push_front c) (split_once-append p pat before after h.1)

-- Every byte `from` as `to`.
unfoldable pub replace : ℕ → ℕ → Bytes → Bytes
replace from to [] = []
replace from to (c ∷ s) = (if c == from then to else c) ∷ replace from to s

pub replace-again :
    (from to : ℕ) (s : Bytes)
    → (from == to) ≡ false
    → replace from to (replace from to s) ≡ replace from to s
unfolding replace
replace-again from to [] h = refl
replace-again from to (c ∷ s) h = ground (arith, h, replace-again from to s h)

pub contains : Bytes → Bytes → Bool
contains pat s = is_some (split_once pat s)

-- `to_ascii_uppercase`
pub to_ascii_uppercase : Bytes → Bytes
to_ascii_uppercase [] = []
to_ascii_uppercase (c ∷ s) = (if leb 97 c && leb c 122 then c - 32 else c) ∷ to_ascii_uppercase s

pub starts_with-append : (pat rest : Bytes) → starts_with (pat ++ rest) pat ≡ true
unfolding starts_with
starts_with-append pat rest = rw (starts_with, strip_prefix-append pat rest) refl
