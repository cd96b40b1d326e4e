-- ===== src/Base/Dict.antt =====
-- A map with numbers as keys, as an association list.
use Prim.Native.Nat.{ℕ}
use mathlib.Core.Path.{◌≡◌, refl}
use mathlib.Core.List.{List, [], ◌∷◌}
use mathlib.Core.Option.{Option, none, some}
use native.Mathlib.Omega.{arith}
use shm2_rs.Base.Compare.{◌==◌, if◌then◌else◌}

abbrev pub Dict {ℓ} : Type ℓ → Type ℓ
Dict V = List (ℕ × V)

module _ {ℓ} {V : Type ℓ} where
  unfoldable pub lookup : ℕ → Dict V → Option V
  lookup key [] = none
  lookup key ((k, v) ∷ m) = let later = lookup key m in if k == key then some v else later

  unfoldable pub delete : ℕ → Dict V → Dict V
  delete key [] = []
  delete key ((k, v) ∷ m) = let later = delete key m in if k == key then later else (k, v) ∷ later

  abbrev pub store : ℕ → V → Dict V → Dict V
  store key v m = (key, v) ∷ delete key m

  pub lookup-delete :
      (key k : ℕ) (m : Dict V) → lookup k (delete key m) ≡ (if key == k then none else lookup k m)
  unfolding lookup delete
  lookup-delete key k [] = ground arith
  lookup-delete key k ((j, v) ∷ m) = ground (arith, lookup-delete key k m)

  pub delete_absent : (key : ℕ) (m : Dict V) → lookup key m ≡ none → delete key m ≡ m
  unfolding lookup delete
  delete_absent key [] e = refl
  delete_absent key ((k, v) ∷ m) e = ground (arith, e, delete_absent key m)

  pub delete-delete : (key : ℕ) (m : Dict V) → delete key (delete key m) ≡ delete key m
  delete-delete key m = delete_absent key (delete key m) (ground (arith, lookup-delete key key m))
