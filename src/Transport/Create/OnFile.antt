-- ===== src/Transport/Create/OnFile.antt =====
-- src/transport.rs, src/platform/posix_file.rs: `Writer::create` and `Reader::open` on the file backend.
use shm2_rs.Base.{ℕ, ◌^◌, ◌<◌, ◌≡◌, refl, sym, ◌∙◌, ==_iff, ltb, Bool-cases, inl, inr, arith}
use mathlib.Core.Path.{subst}
use shm2_rs.Base.Text.{Bytes}
use shm2_rs.Platform.{Result, ok, err, Result-cases}
use shm2_rs.Transport.Layout.Sections.{arena_start}
use shm2_rs.Platform.Resolve.{OnOk}
use shm2_rs.Platform.Posix.{Libc, PosixFileRegion, create_path, TruncateSets, create_path-len}
use shm2_rs.Transport.Types.{TransportConfig, Writer}
use shm2_rs.Transport.Reader.{open_region}
use shm2_rs.Transport.Lease.{IsWriter}
use shm2_rs.Transport.Create.{create}
use shm2_rs.Transport.Create.Opening.{Created, create_lem}

-- What the transport reads of a region.
abbrev mapped_len : Result PosixFileRegion → Result ℕ
mapped_len (ok r) = ok r.len
mapped_len (err e) = err e

abbrev pub file_backend : Libc → Bytes → ℕ → ℕ → Result ℕ
file_backend libc name size perms = mapped_len (create_path libc name size perms).1

pub create-Opens :
    (backend : ℕ → ℕ → Result ℕ) (pid : ℕ) (cfg : TransportConfig)
    → OnOk (λ len. len ≡ cfg.total_size) (backend cfg.total_size cfg.perms)
    → cfg.total_size < 2 ^ 63
    → cfg.ready_capacity < 2 ^ 32
    → cfg.recycle_capacity < 2 ^ 32
    → cfg.timeline_beacon_ms < 2 ^ 32
    → 0 < cfg.ready_capacity
    → 0 < cfg.recycle_capacity
    → OnOk
        (λ w. IsWriter w × (open_region w.region cfg.total_size ≡ ok w.region))
        (create backend pid cfg)
unfolding create
create-Opens backend pid cfg sized small ready recycle beacon rs cs =
    elim (Result-cases (backend cfg.total_size cfg.perms)) [
      | inl (len, mapped) ↦
          let same = subst (OnOk (λ n. n ≡ cfg.total_size)) mapped sized in
          let (w, c, e) =
            create_lem backend pid len cfg mapped ready recycle beacon (omega (arith, same, small))
              rs cs in
          subst (OnOk Opened) (sym e)
            (elim (Bool-cases (ltb (arena_start cfg.ready_capacity cfg.recycle_capacity) len)) [
              | inl enough ↦ rw enough (c.valid, opens len same w c)
              | inr short ↦ rw short tt
            ])
      | inr (e, failed) ↦ rw (failed, create) (ground arith)
    ]
  where
    Opened : Writer → Type 0
    Opened w = IsWriter w × (open_region w.region cfg.total_size ≡ ok w.region)

    opens :
        (len : ℕ)
        → len ≡ cfg.total_size
        → (w : Writer) → Created cfg len w
        → open_region w.region cfg.total_size ≡ ok w.region
    opens len same w c =
        subst (λ n. open_region w.region n ≡ ok w.region) same
          (c.opens ∙ rw ((==_iff cfg.total_size len).1 (sym same)) refl)

len-OnOk :
    (size : ℕ) (made : Result PosixFileRegion)
    → OnOk (λ r. r.len ≡ size) made
    → OnOk (λ len. len ≡ size) (mapped_len made)
len-OnOk size (ok r) h = h
len-OnOk size (err e) h = h

-- What `Writer::create` makes on the file backend, `Reader::open` accepts on the same mapping, and the
-- writer is well formed. The size is below 2 ^ 63, the capacities are non-zero and have 32 bits, and the
-- system sets a file to the length that it is truncated to.
pub create-open_region :
    (libc : Libc) (name : Bytes) (pid : ℕ) (cfg : TransportConfig)
    → TruncateSets libc cfg.total_size
    → cfg.total_size < 2 ^ 63
    → cfg.ready_capacity < 2 ^ 32
    → cfg.recycle_capacity < 2 ^ 32
    → cfg.timeline_beacon_ms < 2 ^ 32
    → 0 < cfg.ready_capacity
    → 0 < cfg.recycle_capacity
    → OnOk
        (λ w. IsWriter w × (open_region w.region cfg.total_size ≡ ok w.region))
        (create (file_backend libc name) pid cfg)
create-open_region libc name pid cfg sets small ready recycle beacon rs cs =
    create-Opens (file_backend libc name) pid cfg
      (len-OnOk cfg.total_size (create_path libc name cfg.total_size cfg.perms).1
        (create_path-len libc name cfg.total_size cfg.perms small sets))
      small ready recycle beacon rs cs
