-- ===== src/Platform/Named.antt =====
-- src/platform/windows_named.rs: the backend on named file mappings. The system calls are a parameter,
-- each made at most once in a call; a failed call gives the error code.
use shm2_rs.Base.{
  ℕ, ◌+◌, ◌*◌, ◌/◌, ◌%◌, ◌^◌, ◌<◌, ◌≡◌, refl, ◌⊎◌, inl, inr, List, [], ◌∷◌, ◌++◌, Option, none,
  some, ◌==◌, if◌then◌else◌, false, arith,
}
use shm2_rs.Base.Text.{Bytes, is_empty}
use shm2_rs.Platform.{
  Result, ok, err, io, invalid_config, protocol, size_zero, empty_object_name, virtual_query_failed,
}

-- `encode_utf16` of the standard library, and the calls; a view's address and a handle are not null,
-- and `virtual_query` gives `RegionSize` where the query answers.
pub record Win32 : Type 0 where
  pub encode_utf16 : Bytes → List ℕ
  pub create_file_mapping : (size_hi size_lo : ℕ) → (wname : List ℕ) → ℕ ⊎ ℕ
  pub open_file_mapping : (wname : List ℕ) → ℕ ⊎ ℕ
  pub map_view_of_file : (mapping : ℕ) → ℕ ⊎ ℕ
  pub virtual_query : (view : ℕ) → Option ℕ

pub record WindowsNamedRegion : Type 0 where
  pub ptr : ℕ
  pub len : ℕ
  pub mapping : ℕ

-- What is given back to the system.
pub data Freed : Type 0 where
  unmapped closed : ℕ → Freed

abbrev pub Run : Type 0
Run = List Freed × Result WindowsNamedRegion

-- `Drop`.
abbrev pub drop_region : WindowsNamedRegion → List Freed
drop_region r = unmapped r.ptr ∷ closed r.mapping ∷ []

abbrev pub to_utf16 : Win32 → Bytes → List ℕ
to_utf16 os name = os.encode_utf16 name ++ 0 ∷ []

unfoldable pub wrap_view : (mapping view : ℕ) → Option ℕ → Run
wrap_view mapping view none =
    (unmapped view ∷ closed mapping ∷ [], err (protocol virtual_query_failed))
wrap_view mapping view (some region_size) =
    if region_size == 0
    then (unmapped view ∷ closed mapping ∷ [], err (protocol virtual_query_failed))
    else ([], ok (record { ptr = view; len = region_size; mapping = mapping }))

unfoldable pub map_and_wrap : Win32 → (mapping : ℕ) → ℕ ⊎ ℕ → Run
map_and_wrap os mapping (inr code) = (closed mapping ∷ [], err (io code))
map_and_wrap os mapping (inl view) = wrap_view mapping view (os.virtual_query view)

unfoldable pub wrap_mapping : Win32 → ℕ ⊎ ℕ → Run
wrap_mapping os (inr code) = ([], err (io code))
wrap_mapping os (inl mapping) = map_and_wrap os mapping (os.map_view_of_file mapping)

abbrev pub size_hi : ℕ → ℕ
size_hi size = size / 2 ^ 32

abbrev pub size_lo : ℕ → ℕ
size_lo size = size % 2 ^ 32

unfoldable pub create_named : Win32 → Bytes → (size perms : ℕ) → Run
create_named os name size perms =
    if size == 0
    then ([], err (invalid_config size_zero))
    else if is_empty name
    then ([], err (invalid_config empty_object_name))
    else wrap_mapping os (os.create_file_mapping (size_hi size) (size_lo size) (to_utf16 os name))

unfoldable pub open_named : Win32 → Bytes → Run
open_named os name =
    if is_empty name
    then ([], err (invalid_config empty_object_name))
    else wrap_mapping os (os.open_file_mapping (to_utf16 os name))

-- What the call takes from the system: the mapping, and the view if there is one.
abbrev pub taken_view : ℕ → ℕ ⊎ ℕ → List Freed
taken_view mapping (inr code) = closed mapping ∷ []
taken_view mapping (inl view) = unmapped view ∷ closed mapping ∷ []

abbrev pub taken : Win32 → ℕ ⊎ ℕ → List Freed
taken os (inr code) = []
taken os (inl mapping) = taken_view mapping (os.map_view_of_file mapping)

-- On success nothing is given back yet and the region's drop gives all back; on failure all has been.
abbrev pub Tidy : List Freed → Run → Type 0
Tidy owned (freed, ok r) = (freed ≡ []) × (drop_region r ≡ owned) × (0 < r.len)
Tidy owned (freed, err e) = freed ≡ owned

wrap_view-Tidy :
    (mapping view : ℕ) (queried : Option ℕ)
    → Tidy (unmapped view ∷ closed mapping ∷ []) (wrap_view mapping view queried)
unfolding wrap_view
wrap_view-Tidy mapping view none = refl
wrap_view-Tidy mapping view (some region_size) = ground arith

map_and_wrap-Tidy :
    (os : Win32) (mapping : ℕ) (view : ℕ ⊎ ℕ)
    → Tidy (taken_view mapping view) (map_and_wrap os mapping view)
unfolding map_and_wrap
map_and_wrap-Tidy os mapping (inr code) = refl
map_and_wrap-Tidy os mapping (inl view) = wrap_view-Tidy mapping view (os.virtual_query view)

wrap_mapping-Tidy :
    (os : Win32) (mapping : ℕ ⊎ ℕ) → Tidy (taken os mapping) (wrap_mapping os mapping)
unfolding wrap_mapping
wrap_mapping-Tidy os (inr code) = refl
wrap_mapping-Tidy os (inl mapping) = map_and_wrap-Tidy os mapping (os.map_view_of_file mapping)

-- `open` of the named backend leaks neither a view nor a handle, whatever the system answers: a region
-- that it returns is not empty and its drop gives both back, and a failure has given back what was taken.
-- The same holds of `create`, for a size that is not 0, which asks for just that size, below 2 ^ 64.
pub create_named-Tidy :
    (os : Win32) (name : Bytes) (size perms : ℕ)
    → is_empty name ≡ false
    → 0 < size
    → size < 2 ^ 64
    → Tidy (taken os (os.open_file_mapping (to_utf16 os name))) (open_named os name)
      × Tidy
          (taken os (os.create_file_mapping (size_hi size) (size_lo size) (to_utf16 os name)))
          (create_named os name size perms)
      × (size_hi size * 2 ^ 32 + size_lo size ≡ size)
      × (size_hi size < 2 ^ 32)
      × (size_lo size < 2 ^ 32)
unfolding open_named create_named
create_named-Tidy os name size perms named some_size small = (
  rw (open_named, named) (wrap_mapping-Tidy os (os.open_file_mapping (to_utf16 os name))),
  rw (create_named, not_zero, named)
      (wrap_mapping-Tidy os
        (os.create_file_mapping (size_hi size) (size_lo size) (to_utf16 os name))),
  omega arith,
  omega (arith, small),
  omega arith,
)
  where
    not_zero : (size == 0) ≡ false
    not_zero = ground (arith, some_size)
