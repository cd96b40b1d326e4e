-- ===== src/Relay/Listen.antt =====
-- src/bin/shm2_relayd.rs: `parse_listen`, on Linux.
use shm2_rs.Base.{
  ℕ, ◌^◌, ◌<◌, ◌≡◌, refl, ◌⊎◌, inl, inr, false, [], ◌∷◌, Option, none, some, ◌==◌, Option-cases,
  if◌then◌else◌, arith,
}
use shm2_rs.Base.Decimal.{parse_unsigned, Under, parse_unsigned-Under}
use shm2_rs.Base.Text.{Bytes, codes, is_empty, strip_prefix, split_once}

pub data ListenSpec : Type 0 where
  tcp : (host : Bytes) → (port : ℕ) → ListenSpec
  vsock : (cid port : ℕ) → ListenSpec

pub data ListenError : Type 0 where
  tcp_form invalid_tcp_port vsock_form invalid_vsock_cid invalid_vsock_port unknown_form :
      ListenError

-- `rsplit_once(':')`: around the last colon.
rsplit_colon : Bytes → Option (Bytes × Bytes)
rsplit_colon [] = none
rsplit_colon (c ∷ s) = elim (rsplit_colon s) [
  | some (before, after) ↦ some (c ∷ before, after)
  | none ↦ if c == b':' then some ([], s) else none
]

abbrev any_host : Bytes → Bytes
any_host host = if is_empty host then codes "0.0.0.0" else host

tcp_port : Bytes → Option ℕ → ListenSpec ⊎ ListenError
tcp_port host none = inr invalid_tcp_port
tcp_port host (some port) = inl (tcp (any_host host) port)

parse_tcp : Option (Bytes × Bytes) → ListenSpec ⊎ ListenError
parse_tcp none = inr tcp_form
parse_tcp (some (host, port)) = tcp_port host (parse_unsigned (2 ^ 16) port)

vsock_numbers : Option ℕ → Option ℕ → ListenSpec ⊎ ListenError
vsock_numbers none port = inr invalid_vsock_cid
vsock_numbers (some cid) none = inr invalid_vsock_port
vsock_numbers (some cid) (some port) = inl (vsock cid port)

parse_vsock : Option (Bytes × Bytes) → ListenSpec ⊎ ListenError
parse_vsock none = inr vsock_form
parse_vsock (some (cid, port)) =
    vsock_numbers (parse_unsigned (2 ^ 32) cid) (parse_unsigned (2 ^ 32) port)

pub parse_listen : Bytes → ListenSpec ⊎ ListenError
parse_listen spec = elim (strip_prefix (codes "tcp://") spec) [
  | some rest ↦ parse_tcp (rsplit_colon rest)
  | none ↦ elim (strip_prefix (codes "vsock://") spec) [
    | some rest ↦ parse_vsock (split_once (b':' ∷ []) rest)
    | none ↦ inr unknown_form
  ]
]

-- What a bind takes: a host, and numbers of the address family's widths.
abbrev pub CanBind : ListenSpec ⊎ ListenError → Type 0
CanBind (inl (tcp host port)) = (is_empty host ≡ false) × (port < 2 ^ 16)
CanBind (inl (vsock cid port)) = (cid < 2 ^ 32) × (port < 2 ^ 32)
CanBind (inr e) = Unit

any_host-some : (host : Bytes) → is_empty (any_host host) ≡ false
any_host-some [] = refl
any_host-some (c ∷ host) = refl

tcp_port-CanBind :
    (host : Bytes) (port : Option ℕ) → Under (2 ^ 16) port → CanBind (tcp_port host port)
unfolding tcp_port
tcp_port-CanBind host none h = tt
tcp_port-CanBind host (some port) h = (any_host-some host, h)

parse_tcp-CanBind : (parts : Option (Bytes × Bytes)) → CanBind (parse_tcp parts)
unfolding parse_tcp
parse_tcp-CanBind none = tt
parse_tcp-CanBind (some (host, port)) =
    tcp_port-CanBind host (parse_unsigned (2 ^ 16) port)
      (parse_unsigned-Under (2 ^ 16) port (omega arith))

vsock_numbers-CanBind :
    (cid port : Option ℕ)
    → Under (2 ^ 32) cid
    → Under (2 ^ 32) port
    → CanBind (vsock_numbers cid port)
unfolding vsock_numbers
vsock_numbers-CanBind none port h k = tt
vsock_numbers-CanBind (some cid) none h k = tt
vsock_numbers-CanBind (some cid) (some port) h k = (h, k)

parse_vsock-CanBind : (parts : Option (Bytes × Bytes)) → CanBind (parse_vsock parts)
unfolding parse_vsock
parse_vsock-CanBind none = tt
parse_vsock-CanBind (some (cid, port)) =
    vsock_numbers-CanBind (parse_unsigned (2 ^ 32) cid) (parse_unsigned (2 ^ 32) port)
      (parse_unsigned-Under (2 ^ 32) cid (omega arith))
      (parse_unsigned-Under (2 ^ 32) port (omega arith))

-- A specification that `parse_listen` accepts can be bound: a TCP host is not empty and its port has 16
-- bits, the two numbers of a vsock address have 32 bits each. Anything larger is refused, not cut.
pub parse_listen-CanBind : (spec : Bytes) → CanBind (parse_listen spec)
unfolding parse_listen
parse_listen-CanBind spec = elim (Option-cases (strip_prefix (codes "tcp://") spec)) [
  | inr (rest, e) ↦ rw (parse_listen, e) (parse_tcp-CanBind (rsplit_colon rest))
  | inl e ↦ elim (Option-cases (strip_prefix (codes "vsock://") spec)) [
    | inr (rest, f) ↦ rw (parse_listen, e, f) (parse_vsock-CanBind (split_once (b':' ∷ []) rest))
    | inl f ↦ rw (parse_listen, e, f) tt
  ]
]
