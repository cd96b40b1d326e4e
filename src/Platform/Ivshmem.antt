-- ===== src/Platform/Ivshmem.antt =====
-- src/platform/windows_ivshmem.rs: the backend on the memory of an ivshmem device, for readers only. The
-- driver is a parameter; a failed call gives the error code.
use shm2_rs.Base.{
  ℕ, ◌<◌, ◌≡◌, refl, ◌⊎◌, inl, inr, Bool, true, false, ◌||◌, not, List, [], ◌∷◌, ◌++◌, ◌==◌,
  if◌then◌else◌, Bool-cases, arith,
}
use shm2_rs.Base.Text.{
  Bytes, codes, is_empty, starts_with, strip_prefix, replace, contains, to_ascii_uppercase,
  replace-again, starts_with-append,
}
use shm2_rs.Platform.{
  Result, ok, err, io, invalid_config, invalid_backend_spec, unsupported_backend, protocol,
  attach_only, empty_device_target, bad_device_target, invalid_size_response, invalid_map_response,
  null_or_zero_mapping, size_mismatch,
}
use shm2_rs.Platform.Resolve.{OnOk}

abbrev pub verbatim : Bytes
verbatim = b'\\' ∷ b'\\' ∷ b'?' ∷ b'\\' ∷ []

abbrev pub device : Bytes
device = b'\\' ∷ b'\\' ∷ b'.' ∷ b'\\' ∷ []

abbrev pub pci : Bytes
pci = b'P' ∷ b'C' ∷ b'I' ∷ b'\\' ∷ []

abbrev pub iface_guid_str : Bytes
iface_guid_str = codes "{df576976-569d-4672-95a0-f57e4ea0b210}"

-- The target with backslashes.
unfoldable pub normalize_slashed : Bytes → Result Bytes
normalize_slashed norm =
    if starts_with norm device
    then ok norm
    else if contains (b'#' ∷ b'{' ∷ []) norm
    then ok (verbatim ++ norm)
    else if starts_with (to_ascii_uppercase norm) pci
    then ok (verbatim ++ replace b'\\' b'#' norm ++ b'#' ∷ iface_guid_str)
    else err (invalid_backend_spec bad_device_target)

unfoldable pub normalize_target : Bytes → Result Bytes
normalize_target name =
    if is_empty name
    then err (invalid_config empty_device_target)
    else if starts_with name verbatim
    then ok name
    else normalize_slashed (replace b'/' b'\\' name)

pub record IvshmemMmap : Type 0 where
  pub size : ℕ
  pub ptr : ℕ

-- `CreateFileW` and the two requests; a request that succeeds also gives the number of bytes returned.
pub record Driver : Type 0 where
  pub encode_utf16 : Bytes → List ℕ
  pub create_file : (wname : List ℕ) → ℕ ⊎ ℕ
  pub request_size_ioctl : (dev_handle : ℕ) → (ℕ × ℕ) ⊎ ℕ
  pub request_mmap_ioctl : (dev_handle : ℕ) → (IvshmemMmap × ℕ) ⊎ ℕ

abbrev pub size_of_ivshmem_mmap : ℕ
size_of_ivshmem_mmap = 32

unfoldable pub request_size : (ℕ × ℕ) ⊎ ℕ → Result ℕ
request_size (inr code) = err (io code)
request_size (inl (size, bytes_ret)) =
    if not (bytes_ret == 8) || size == 0 then err (protocol invalid_size_response) else ok size

unfoldable pub request_map : (IvshmemMmap × ℕ) ⊎ ℕ → Result IvshmemMmap
request_map (inr code) = err (io code)
request_map (inl (out, bytes_ret)) =
    if not (bytes_ret == size_of_ivshmem_mmap)
    then err (protocol invalid_map_response)
    else if out.ptr == 0 || out.size == 0
    then err (protocol null_or_zero_mapping)
    else ok out

pub record WindowsIvshmemRegion : Type 0 where
  pub ptr : ℕ
  pub len : ℕ
  pub dev_handle : ℕ
  pub mapped : Bool

pub data Freed : Type 0 where
  released closed : ℕ → Freed

abbrev pub drop_region : WindowsIvshmemRegion → List Freed
drop_region r =
    if r.mapped then released r.dev_handle ∷ closed r.dev_handle ∷ [] else closed r.dev_handle ∷ []

abbrev pub Run : Type 0
Run = List Freed × Result WindowsIvshmemRegion

-- The comparison of the two sizes.
unfoldable pub attach : (dev_handle requested_size : ℕ) → Result IvshmemMmap → Run
attach dev_handle requested_size (err e) = (closed dev_handle ∷ [], err e)
attach dev_handle requested_size (ok out) =
    if out.size == requested_size
    then ([], ok (record { ptr = out.ptr; len = out.size; dev_handle = dev_handle; mapped = true }))
    else (released dev_handle ∷ closed dev_handle ∷ [], err (protocol size_mismatch))

unfoldable pub map_device : Driver → (dev_handle : ℕ) → Result ℕ → Run
map_device driver dev_handle (err e) = (closed dev_handle ∷ [], err e)
map_device driver dev_handle (ok requested_size) =
    attach dev_handle requested_size (request_map (driver.request_mmap_ioctl dev_handle))

unfoldable pub open_device : Driver → ℕ ⊎ ℕ → Run
open_device driver (inr code) = ([], err (io code))
open_device driver (inl dev_handle) =
    map_device driver dev_handle (request_size (driver.request_size_ioctl dev_handle))

unfoldable pub open_target : Driver → Result Bytes → Run
open_target driver (err e) = ([], err e)
open_target driver (ok target) =
    open_device driver (driver.create_file (driver.encode_utf16 target ++ 0 ∷ []))

unfoldable pub open_ivshmem : Driver → Bytes → Run
open_ivshmem driver name = open_target driver (normalize_target name)

unfoldable pub create_ivshmem : Bytes → (size perms : ℕ) → Result WindowsIvshmemRegion
create_ivshmem name size perms = err (unsupported_backend attach_only)

-- A path of one of the two forms that Windows opens devices by: taken as it is, or without a slash.
abbrev Settled : Bytes → Type 0
Settled path =
    (starts_with path verbatim ≡ true)
    ⊎ ((starts_with path device ≡ true) × (replace b'/' b'\\' path ≡ path))

normalize_slashed-Settled :
    (s : Bytes) → replace b'/' b'\\' s ≡ s → OnOk Settled (normalize_slashed s)
unfolding normalize_slashed
normalize_slashed-Settled s slashed = elim (Bool-cases (starts_with s device)) [
  | inl e ↦ rw (normalize_slashed, e) (inr (e, slashed))
  | inr e ↦ ground (
    arith,
    e,
    starts_with-append verbatim s,
    starts_with-append verbatim (replace b'\\' b'#' s ++ b'#' ∷ iface_guid_str),
  )
]

normalize_target-Settled : (name : Bytes) → OnOk Settled (normalize_target name)
unfolding normalize_target
normalize_target-Settled name = ground (
  arith,
  normalize_slashed-Settled (replace b'/' b'\\' name) (replace-again b'/' b'\\' name refl),
)

starts_with-some : (p : ℕ) (pat s : Bytes) → starts_with s (p ∷ pat) ≡ true → is_empty s ≡ false
unfolding starts_with strip_prefix
starts_with-some p pat [] e = absurd (cc)
starts_with-some p pat (c ∷ s) e = refl

abbrev pub IsDevicePath : Bytes → Type 0
IsDevicePath path = (starts_with path verbatim || starts_with path device) ≡ true

Settled-fixed :
    (path : Bytes) → Settled path → IsDevicePath path × (normalize_target path ≡ ok path)
unfolding normalize_target normalize_slashed
Settled-fixed path (inl e) =
    (ground (arith, e), rw (normalize_target, starts_with-some b'\\' _ path e, e) refl)
Settled-fixed path (inr (e, slashed)) =
    (ground (arith, e), ground (arith, starts_with-some b'\\' _ path e, slashed, e))

OnOk-map {ℓ κ μ} :
    {A : Type ℓ} {P : A → Type κ} {Q : A → Type μ} (r : Result A)
    → ((a : A) → P a → Q a)
    → OnOk P r
    → OnOk Q r
OnOk-map (ok a) f h = f a h
OnOk-map (err e) f h = tt

-- Every target that `normalize_target` accepts, it makes a device path, which it accepts as it is.
pub normalize_target-again :
    (name : Bytes)
    → OnOk
        (λ target. IsDevicePath target × (normalize_target target ≡ ok target))
        (normalize_target name)
normalize_target-again name =
    OnOk-map (normalize_target name) Settled-fixed (normalize_target-Settled name)

-- The handle that a call opened: kept by a region that has both sizes alike, or closed.
abbrev pub Tidy : ℕ → Run → Type 0
Tidy dev_handle (freed, ok r) =
    (freed ≡ [])
    × (drop_region r ≡ released dev_handle ∷ closed dev_handle ∷ [])
    × (0 < r.len)
    × (0 < r.ptr)
Tidy dev_handle (freed, err e) =
    (freed ≡ closed dev_handle ∷ []) ⊎ (freed ≡ released dev_handle ∷ closed dev_handle ∷ [])

abbrev Mapped : Result IvshmemMmap → Type 0
Mapped out = OnOk (λ m. (0 < m.size) × (0 < m.ptr)) out

request_map-Mapped : (answer : (IvshmemMmap × ℕ) ⊎ ℕ) → Mapped (request_map answer)
unfolding request_map
request_map-Mapped (inr code) = tt
request_map-Mapped (inl (out, bytes_ret)) = ground arith

attach-Tidy :
    (dev_handle requested_size : ℕ) (out : Result IvshmemMmap)
    → Mapped out
    → Tidy dev_handle (attach dev_handle requested_size out)
unfolding attach
attach-Tidy dev_handle requested_size (err e) m = inl refl
attach-Tidy dev_handle requested_size (ok out) m = ground (arith, m)

map_device-Tidy :
    (driver : Driver) (dev_handle : ℕ) (size : Result ℕ)
    → Tidy dev_handle (map_device driver dev_handle size)
unfolding map_device
map_device-Tidy driver dev_handle (err e) = inl refl
map_device-Tidy driver dev_handle (ok size) =
    attach-Tidy dev_handle size (request_map (driver.request_mmap_ioctl dev_handle))
      (request_map-Mapped (driver.request_mmap_ioctl dev_handle))

-- Where the device opens, `open` either returns a region of more than no bytes at an address that is not
-- null, whose drop releases the mapping and closes the handle, or fails and has closed the handle.
pub open_ivshmem-Tidy :
    (driver : Driver) (name target : Bytes) (dev_handle : ℕ)
    → normalize_target name ≡ ok target
    → driver.create_file (driver.encode_utf16 target ++ 0 ∷ []) ≡ inl dev_handle
    → Tidy dev_handle (open_ivshmem driver name)
unfolding open_ivshmem open_target open_device
open_ivshmem-Tidy driver name target dev_handle normal opened =
    rw (open_ivshmem, normal, opened)
      (map_device-Tidy driver dev_handle (request_size (driver.request_size_ioctl dev_handle)))
