-- ===== src/Platform/Posix.antt =====
-- src/platform/posix_file.rs: the backend on files. The system calls are a parameter; each is made at
-- most once in a call, so its outcome is a function of its arguments. A failed call gives its `errno`.
use shm2_rs.Base.{
  ℕ, ◌^◌, ◌<◌, ◌≡◌, refl, ap, sym, ◌∙◌, ◌⊎◌, inl, inr, Bool, false, ◌||◌, List, [], ◌∷◌, Option,
  none, some, ◌==◌, if◌then◌else◌, Bool-cases, Sum-cases, arith,
}
use shm2_rs.Base.Int.{ℤ, pos, negsuc, i64_of_u64}
use shm2_rs.Base.Text.{Bytes}
use shm2_rs.Platform.Resolve.{OnOk}
use shm2_rs.Platform.{
  Result, ok, err, io, invalid_config, protocol, size_zero, path_with_nul, empty_file, null_mapping,
}

-- `O_CREAT | O_RDWR | O_CLOEXEC`, and the same without `O_CREAT`.
pub data OpenFlags : Type 0 where
  create_read_write read_write : OpenFlags

-- `fstat` is told what the file was truncated to in this call, if at all, and gives `st_size`. `mmap`
-- gives the address of the whole file, mapped shared for reading and writing.
pub record Libc : Type 0 where
  pub open_file : Bytes → OpenFlags → (perms : ℕ) → ℕ ⊎ ℕ
  pub ftruncate : (fd : ℕ) → (size : ℤ) → Option ℕ
  pub fstat : (fd : ℕ) → Option ℕ → ℤ ⊎ ℕ
  pub mmap : (fd len : ℕ) → ℕ ⊎ ℕ

pub record PosixFileRegion : Type 0 where
  pub ptr : ℕ
  pub len : ℕ
  pub fd : ℕ

-- The file descriptors that a call has closed, and its result.
abbrev pub Run : Type 0
Run = List ℕ × Result PosixFileRegion

unfoldable pub has_nul : Bytes → Bool
has_nul [] = false
has_nul (c ∷ s) = c == 0 || has_nul s

unfoldable pub wrap_pointer : (fd len : ℕ) → ℕ ⊎ ℕ → Run
wrap_pointer fd len (inr errno) = (fd ∷ [], err (io errno))
wrap_pointer fd len (inl ptr) =
    if ptr == 0
    then ([], err (protocol null_mapping))
    else ([], ok (record { ptr = ptr; len = len; fd = fd }))

-- From `fstat` on; `st_size <= 0` is an empty file.
unfoldable pub map_file : Libc → (fd : ℕ) → ℤ ⊎ ℕ → Run
map_file libc fd (inr errno) = (fd ∷ [], err (io errno))
map_file libc fd (inl (negsuc n)) = (fd ∷ [], err (invalid_config empty_file))
map_file libc fd (inl (pos len)) =
    if len == 0
    then (fd ∷ [], err (invalid_config empty_file))
    else wrap_pointer fd len (libc.mmap fd len)

unfoldable pub after_truncate : Libc → (fd size : ℕ) → Option ℕ → Run
after_truncate libc fd size (some errno) = (fd ∷ [], err (io errno))
after_truncate libc fd size none = map_file libc fd (libc.fstat fd (some size))

unfoldable pub set_size : Libc → (fd : ℕ) → Option ℕ → Run
set_size libc fd none = map_file libc fd (libc.fstat fd none)
set_size libc fd (some size) = after_truncate libc fd size (libc.ftruncate fd (i64_of_u64 size))

unfoldable pub open_internal : Libc → Bytes → OpenFlags → (perms : ℕ) → Option ℕ → Run
open_internal libc path flags perms truncate_to =
    if has_nul path
    then ([], err (invalid_config path_with_nul))
    else elim (libc.open_file path flags perms) [
      | inr errno ↦ ([], err (io errno))
      | inl fd ↦ set_size libc fd truncate_to
    ]

unfoldable pub create_path : Libc → Bytes → (size perms : ℕ) → Run
create_path libc name size perms =
    if size == 0
    then ([], err (invalid_config size_zero))
    else open_internal libc name create_read_write perms (some size)

unfoldable pub open_path : Libc → Bytes → Run
open_path libc name = open_internal libc name read_write 0 none

-- What `Drop` closes.
abbrev pub drop_region : PosixFileRegion → List ℕ
drop_region r = r.fd ∷ []

-- The descriptors that the call opens.
abbrev pub opened_by : Libc → Bytes → OpenFlags → ℕ → List ℕ
opened_by libc path flags perms =
    if has_nul path
    then []
    else elim (libc.open_file path flags perms) [ inl fd ↦ fd ∷ [] | inr errno ↦ [] ]

-- Nothing is left open: on success the region's drop closes it, on failure it has been closed. The
-- exception is a mapping at address 0.
abbrev pub Tidy : List ℕ → Run → Type 0
Tidy opened (closed, ok r) = (closed ≡ []) × (drop_region r ≡ opened) × (0 < r.len) × (0 < r.ptr)
Tidy opened (closed, err e) = (closed ≡ opened) ⊎ ((e ≡ protocol null_mapping) × (closed ≡ []))

map_file-Tidy : (libc : Libc) (fd : ℕ) (stat : ℤ ⊎ ℕ) → Tidy (fd ∷ []) (map_file libc fd stat)
unfolding map_file wrap_pointer
map_file-Tidy libc fd (inr errno) = inl refl
map_file-Tidy libc fd (inl (negsuc n)) = inl refl
map_file-Tidy libc fd (inl (pos len)) = ground arith

after_truncate-Tidy :
    (libc : Libc) (fd size : ℕ) (failure : Option ℕ)
    → Tidy (fd ∷ []) (after_truncate libc fd size failure)
unfolding after_truncate
after_truncate-Tidy libc fd size none = map_file-Tidy libc fd (libc.fstat fd (some size))
after_truncate-Tidy libc fd size (some errno) = inl refl

set_size-Tidy : (libc : Libc) (fd : ℕ) (size : Option ℕ) → Tidy (fd ∷ []) (set_size libc fd size)
unfolding set_size
set_size-Tidy libc fd none = map_file-Tidy libc fd (libc.fstat fd none)
set_size-Tidy libc fd (some size) =
    after_truncate-Tidy libc fd size (libc.ftruncate fd (i64_of_u64 size))

-- Whatever the system calls answer, `open_internal` closes the descriptor that it has opened before it
-- fails, and leaves it open, for the drop of the region to close, when it succeeds, with a region of more
-- than no bytes at an address that is not 0. The one exception is `mmap` giving address 0: that failure
-- leaves the descriptor open.
pub open_internal-Tidy :
    (libc : Libc) (path : Bytes) (flags : OpenFlags) (perms : ℕ) (truncate_to : Option ℕ)
    → Tidy (opened_by libc path flags perms) (open_internal libc path flags perms truncate_to)
unfolding open_internal
open_internal-Tidy libc path flags perms truncate_to = elim (Bool-cases (has_nul path)) [
  | inl e ↦ rw e (inl refl)
  | inr e ↦ elim (Sum-cases (libc.open_file path flags perms)) [
    | inl (fd, opened) ↦ rw (e, opened) (set_size-Tidy libc fd truncate_to)
    | inr (errno, failed) ↦ rw (e, failed) (inl refl)
  ]
]

-- POSIX: a regular file that was truncated to a length has this length.
abbrev pub TruncateSets : Libc → ℕ → Type 0
TruncateSets libc size =
    (fd : ℕ) → libc.ftruncate fd (pos size) ≡ none → libc.fstat fd (some size) ≡ inl (pos size)

i64_of_u64-small : (n : ℕ) → n < 2 ^ 63 → i64_of_u64 n ≡ pos n
i64_of_u64-small n h = ground arith

map_file-len :
    (libc : Libc) (fd size : ℕ) → OnOk (λ r. r.len ≡ size) (map_file libc fd (inl (pos size))).1
unfolding map_file wrap_pointer
map_file-len libc fd size = ground arith

after_truncate-len :
    (libc : Libc) (fd size : ℕ) (failure : Option ℕ)
    → (failure ≡ none → libc.fstat fd (some size) ≡ inl (pos size))
    → OnOk (λ r. r.len ≡ size) (after_truncate libc fd size failure).1
unfolding after_truncate
after_truncate-len libc fd size (some errno) sets = tt
after_truncate-len libc fd size none sets = rw (sets refl) (map_file-len libc fd size)

set_size-len :
    (libc : Libc) (fd size : ℕ)
    → size < 2 ^ 63
    → TruncateSets libc size
    → OnOk (λ r. r.len ≡ size) (set_size libc fd (some size)).1
unfolding set_size
set_size-len libc fd size small sets =
    after_truncate-len libc fd size (libc.ftruncate fd (i64_of_u64 size))
      (λ e. sets fd (sym (ap (libc.ftruncate fd) (i64_of_u64-small size small)) ∙ e))

-- A region that `create` makes has the size asked for, where the system sets a file to the length that
-- it is truncated to, and the size is below 2 ^ 63.
pub create_path-len :
    (libc : Libc) (name : Bytes) (size perms : ℕ)
    → size < 2 ^ 63
    → TruncateSets libc size
    → OnOk (λ r. r.len ≡ size) (create_path libc name size perms).1
unfolding create_path open_internal
create_path-len libc name size perms small sets = elim (Bool-cases (size == 0)) [
  | inl z ↦ rw z tt
  | inr z ↦ elim (Bool-cases (has_nul name)) [
    | inl e ↦ rw (z, e) tt
    | inr e ↦ elim (Sum-cases (libc.open_file name create_read_write perms)) [
      | inl (fd, opened) ↦ rw (z, e, opened) (set_size-len libc fd size small sets)
      | inr (errno, failed) ↦ rw (z, e, failed) tt
    ]
  ]
]
