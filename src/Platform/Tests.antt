-- ===== src/Platform/Tests.antt =====
-- src/platform: the theorems at concrete paths and systems.
use shm2_rs.Base.{◌+◌, ◌*◌, ◌<◌, ◌≡◌, refl, inl, inr, ◌++◌, none, some, arith}
use shm2_rs.Base.Int.{pos}
use shm2_rs.Base.Text.{Bytes, codes, starts_with, strip_prefix}
use shm2_rs.Platform.{Result, ok}
use shm2_rs.Platform.Resolve.{windows, resolve_backend, OnOk, IsUsable, resolve_backend-IsUsable}
use shm2_rs.Platform.Posix.{
  Libc, create_read_write, open_internal, opened_by, Tidy, open_internal-Tidy,
}
use shm2_rs.Platform.Named.{
  Win32, create_named, open_named, size_hi, size_lo, taken, to_utf16, create_named-Tidy,
}
use shm2_rs.Platform.Ivshmem.{Driver, verbatim, normalize_target, open_ivshmem, open_ivshmem-Tidy}

resolve_backend-IsUsable_example :
    OnOk (IsUsable windows) (resolve_backend windows (codes "winshm://Local/frames"))
resolve_backend-IsUsable_example = resolve_backend-IsUsable windows (codes "winshm://Local/frames")

-- A system whose files keep their length, but which has no memory left to map.
abbrev no_memory : Libc
no_memory = record {
  open_file = λ path flags perms. inl 5;
  ftruncate = λ fd size. none;
  fstat = λ fd truncated. elim truncated [ none ↦ inl (pos 4096) | some n ↦ inl (pos n) ];
  mmap = λ fd len. inr 12;
}

open_internal-Tidy_example :
    Tidy
      (opened_by no_memory (codes "/dev/shm/frames") create_read_write 0o660)
      (open_internal no_memory (codes "/dev/shm/frames") create_read_write 0o660 (some 8320))
open_internal-Tidy_example =
    open_internal-Tidy no_memory (codes "/dev/shm/frames") create_read_write 0o660 (some 8320)

abbrev win32 : Win32
win32 = record {
  encode_utf16 = λ name. name;
  create_file_mapping = λ size_hi size_lo wname. inl 21;
  open_file_mapping = λ wname. inl 22;
  map_view_of_file = λ mapping. inl 65_536;
  virtual_query = λ view. some 12_288;
}

create_named-Tidy_example :
    shm2_rs.Platform.Named.Tidy (taken win32 (inl 22)) (open_named win32 (codes "frames"))
    × shm2_rs.Platform.Named.Tidy
        (taken win32 (inl 21))
        (create_named win32 (codes "frames") 8320 0)
    × (size_hi 8320 * 4_294_967_296 + size_lo 8320 ≡ 8320)
    × (size_hi 8320 < 4_294_967_296)
    × (size_lo 8320 < 4_294_967_296)
create_named-Tidy_example =
    create_named-Tidy win32 (codes "frames") 8320 0 refl (omega arith) (omega arith)

-- A driver whose two answers do not agree.
abbrev driver : Driver
driver = record {
  encode_utf16 = λ name. name;
  create_file = λ wname. inl 9;
  request_size_ioctl = λ dev_handle. inl (1_048_576, 8);
  request_mmap_ioctl = λ dev_handle. inl (record { size = 524_288; ptr = 65_536 }, 32);
}

abbrev device_path : Bytes
device_path = verbatim ++ codes "pci#ven_1af4"

device_path-normal : normalize_target device_path ≡ ok device_path
unfolding normalize_target starts_with strip_prefix
device_path-normal = refl

open_ivshmem-Tidy_example : shm2_rs.Platform.Ivshmem.Tidy 9 (open_ivshmem driver device_path)
open_ivshmem-Tidy_example =
    open_ivshmem-Tidy driver device_path device_path 9 device_path-normal refl
