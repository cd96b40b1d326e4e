-- ===== src/Platform/Resolve.antt =====
-- src/platform/mod.rs: `resolve_backend`. The target operating system, which `cfg` reads, is an argument.
use shm2_rs.Base.{
  ℕ, ◌≡◌, ◌↔◌, refl, ap, ◌∙◌, false, [], ◌∷◌, ◌++◌, Option, none, some, ◌==◌, if◌then◌else◌, All,
  Bool-cases, Option-cases, inl, inr, arith,
}
use shm2_rs.Base.Text.{
  Bytes, codes, bytes_eq, is_empty, starts_with, split_once, split_once-some, split_once-append,
  replace,
}
use shm2_rs.Platform.{
  Result, ok, err, invalid_backend_spec, unsupported_backend, empty_shm_path, no_default_backend,
  shm_path_required, shm_on_unix_only, winshm_name_required, winshm_on_windows_only,
  ivshmem_target_required, ivshmem_on_windows_only, unsupported_scheme,
}

-- `cfg(unix)`, `cfg(windows)`, and neither.
pub data Target : Type 0 where
  unix windows other : Target

pub data Backend : Type 0 where
  posix_file windows_named windows_ivshmem : Backend

pub record BackendSelection : Type 0 where
  pub backend : Backend
  pub name : Bytes

abbrev selected : Backend → Bytes → Result BackendSelection
selected backend name = ok (record { backend = backend; name = name })

abbrev separator : Bytes
separator = b':' ∷ b'/' ∷ b'/' ∷ []

-- `DEFAULT_PATH` of the two elements, which they have on these targets only.
abbrev pub default_path : Target → Bytes
default_path windows = codes "winshm://Local/gst-shm2-default"
default_path _ = codes "/dev/shm/gst-shm2-default"

-- `parse_scheme`: the text before the first `://` and the text behind it.
unfoldable pub parse_scheme : Bytes → Option (Bytes × Bytes)
parse_scheme spec = split_once separator spec

normalize_windows_name : Bytes → Bytes
normalize_windows_name name = replace b'/' b'\\' name

resolve_shm : Target → Bytes → Result BackendSelection
resolve_shm unix raw_name =
    if is_empty raw_name
    then err (invalid_backend_spec shm_path_required)
    else if starts_with raw_name (b'/' ∷ [])
    then selected posix_file raw_name
    else selected posix_file (b'/' ∷ raw_name)
resolve_shm windows raw_name = err (unsupported_backend shm_on_unix_only)
resolve_shm other raw_name = err (unsupported_backend shm_on_unix_only)

resolve_winshm : Target → Bytes → Result BackendSelection
resolve_winshm windows raw_name =
    if is_empty raw_name
    then err (invalid_backend_spec winshm_name_required)
    else selected windows_named (normalize_windows_name raw_name)
resolve_winshm unix raw_name = err (unsupported_backend winshm_on_windows_only)
resolve_winshm other raw_name = err (unsupported_backend winshm_on_windows_only)

resolve_ivshmem : Target → Bytes → Result BackendSelection
resolve_ivshmem windows raw_name =
    if is_empty raw_name
    then err (invalid_backend_spec ivshmem_target_required)
    else selected windows_ivshmem raw_name
resolve_ivshmem unix raw_name = err (unsupported_backend ivshmem_on_windows_only)
resolve_ivshmem other raw_name = err (unsupported_backend ivshmem_on_windows_only)

resolve_with_scheme : Target → (scheme raw_name : Bytes) → Result BackendSelection
resolve_with_scheme target scheme raw_name =
    if bytes_eq scheme (codes "shm")
    then resolve_shm target raw_name
    else if bytes_eq scheme (codes "winshm")
    then resolve_winshm target raw_name
    else if bytes_eq scheme (codes "ivshmem")
    then resolve_ivshmem target raw_name
    else err (invalid_backend_spec (unsupported_scheme scheme))

-- A specification without a scheme.
resolve_default : Target → Bytes → Result BackendSelection
resolve_default unix spec = selected posix_file spec
resolve_default windows spec = selected windows_named (normalize_windows_name spec)
resolve_default other spec = err (unsupported_backend no_default_backend)

pub resolve_backend : Target → Bytes → Result BackendSelection
resolve_backend target spec =
    if is_empty spec then err (invalid_backend_spec empty_shm_path) else elim (parse_scheme spec) [
      | some (scheme, raw_name) ↦ resolve_with_scheme target scheme raw_name
      | none ↦ resolve_default target spec
    ]

-- What follows the first `://` and what precedes it make up the specification; a scheme without a colon
-- is found whatever follows.
parse_scheme_lem :
    (spec scheme rest : Bytes)
    → All (λ c. (b':' == c) ≡ false) scheme
    → (parse_scheme spec ≡ some (scheme, rest)) ↔ (spec ≡ scheme ++ (separator ++ rest))
unfolding parse_scheme
parse_scheme_lem spec scheme rest h = (
  split_once-some separator spec scheme rest,
  λ e. ap (split_once separator) e ∙ split_once-append b':' (b'/' ∷ b'/' ∷ []) scheme rest h,
)

-- Which backends a target has.
abbrev Available : Target → Backend → Type 0
Available unix posix_file = Unit
Available windows windows_named = Unit
Available windows windows_ivshmem = Unit
Available _ _ = ⊥

abbrev pub OnOk {ℓ κ} : {A : Type ℓ} → (A → Type κ) → Result A → Type κ
OnOk P (ok a) = P a
OnOk P (err e) = Unit

-- A selection that can be used: a backend that the target has, and a name that is not empty.
abbrev pub IsUsable : Target → BackendSelection → Type 0
IsUsable target s = Available target s.backend × (is_empty s.name ≡ false)

not_empty-replace :
    (from to : ℕ) (s : Bytes) → is_empty s ≡ false → is_empty (replace from to s) ≡ false
unfolding replace
not_empty-replace from to [] h = h
not_empty-replace from to (c ∷ s) h = refl

resolve_with_scheme-IsUsable :
    (target : Target) (scheme raw_name : Bytes)
    → OnOk (IsUsable target) (resolve_with_scheme target scheme raw_name)
unfolding resolve_with_scheme resolve_shm resolve_winshm resolve_ivshmem normalize_windows_name
resolve_with_scheme-IsUsable unix scheme raw_name = ground arith
resolve_with_scheme-IsUsable windows scheme raw_name =
    ground (arith, not_empty-replace b'/' b'\\' raw_name)
resolve_with_scheme-IsUsable other scheme raw_name = ground arith

resolve_default-IsUsable :
    (target : Target) (spec : Bytes)
    → is_empty spec ≡ false
    → OnOk (IsUsable target) (resolve_default target spec)
unfolding resolve_default normalize_windows_name
resolve_default-IsUsable unix spec h = (tt, h)
resolve_default-IsUsable windows spec h = (tt, not_empty-replace b'/' b'\\' spec h)
resolve_default-IsUsable other spec h = tt

-- What `resolve_backend` selects can be used on the target: the backend is one that the target has, and
-- the name that is handed to it is not empty.
pub resolve_backend-IsUsable :
    (target : Target) (spec : Bytes) → OnOk (IsUsable target) (resolve_backend target spec)
unfolding resolve_backend
resolve_backend-IsUsable target spec = elim (Bool-cases (is_empty spec)) [
  | inl e ↦ rw e tt
  | inr e ↦ elim (Option-cases (parse_scheme spec)) [
    | inl none_there ↦ rw (e, none_there) (resolve_default-IsUsable target spec e)
    | inr ((scheme, raw_name), found) ↦
        rw (e, found) (resolve_with_scheme-IsUsable target scheme raw_name)
  ]
]

-- On Unix a text without a scheme names a file.
pub resolve_backend-plain :
    (spec : Bytes)
    → is_empty spec ≡ false
    → parse_scheme spec ≡ none
    → resolve_backend unix spec ≡ ok (record { backend = posix_file; name = spec })
unfolding resolve_backend resolve_default
resolve_backend-plain spec some_text plain = rw (some_text, plain) refl
