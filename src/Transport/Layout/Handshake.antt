-- ===== src/Transport/Layout/Handshake.antt =====
-- src/transport.rs: what `validate_header` accepts.
use shm2_rs.Base.{ℕ, ◌≡◌, ◌↔◌, arith}
use shm2_rs.Platform.{ok}
use shm2_rs.Transport.Types.{SharedHeader, magic_bytes}
use shm2_rs.Base.Text.{bytes_eq_iff}
use shm2_rs.Transport.Layout.{validate_header}

-- A header passes exactly if it has the magic, the version 1.3, the size of the mapping and the two
-- descriptor sizes of this build.
pub validate_header_lem :
    (hdr : SharedHeader) (len : ℕ)
    → (validate_header hdr len ≡ ok tt) ↔ (
        (hdr.magic ≡ magic_bytes)
        × (hdr.major ≡ 1)
        × (hdr.minor ≡ 3)
        × (hdr.total_size ≡ len)
        × (hdr.ready_entry_size ≡ 64)
        × (hdr.rec_entry_size ≡ 64))
unfolding validate_header
validate_header_lem hdr len = ground (arith, bytes_eq_iff hdr.magic magic_bytes)
