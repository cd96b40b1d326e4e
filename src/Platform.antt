-- ===== src/Platform.antt =====
-- src/platform/mod.rs: the error type that every component returns, and the sequencing of `?`.
pub mod Resolve
pub mod Posix
pub mod Named
pub mod Ivshmem
mod Tests
use shm2_rs.Base.{ℕ, ◌≡◌, refl, ◌⊎◌, inl, inr}
use shm2_rs.Base.Text.{Bytes}

-- The texts of the messages are not compared anywhere in the program; each has a constructor.
pub data Message : Type 0 where
  ring_capacities ready_ring_overflow recycle_ring_overflow insufficient_total_size : Message
  magic_mismatch major_version_mismatch minor_version_mismatch mapped_size_mismatch : Message
  ready_entry_size_mismatch recycle_entry_size_mismatch : Message
  payload_bounds_overflow payload_out_of_arena : Message
  empty_shm_path no_default_backend shm_path_required shm_on_unix_only : Message
  winshm_name_required winshm_on_windows_only ivshmem_target_required : Message
  ivshmem_on_windows_only : Message
  unsupported_scheme : Bytes → Message
  size_zero path_with_nul empty_file null_mapping virtual_query_failed empty_object_name : Message
  attach_only empty_device_target bad_device_target invalid_size_response : Message
  invalid_map_response null_or_zero_mapping size_mismatch : Message

pub data ShmError : Type 0 where
  io : ℕ → ShmError
  invalid_config invalid_backend_spec unsupported_backend protocol : Message → ShmError
  exhausted no_consumer ring_full ring_empty : ShmError

-- `Result<T, ShmError>`
pub data Result {u} (T : Type u) : Type u where
  err : ShmError → Result T
  ok : T → Result T

pub Result-cases {u} :
    {T : Type u} (r : Result T) → ((t : T) × (r ≡ ok t)) ⊎ ((e : ShmError) × (r ≡ err e))
Result-cases (ok t) = inl (t, refl)
Result-cases (err e) = inr (e, refl)

-- The operator `?`: an error ends the function.
infixl 5 ◌>>=◌
abbrev pub ◌>>=◌ {u v} : {T : Type u} {S : Type v} → Result T → (T → Result S) → Result S
err failure >>= next = err failure
ok value >>= next = next value

-- A check whose `Ok(())` is passed over.
infixl 5 ◌>>◌
abbrev pub ◌>>◌ {v} : {S : Type v} → Result (Unit {0}) → Result S → Result S
passed >> next = passed >>= λ _. next
