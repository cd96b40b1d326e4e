-- ===== src/Bin/Args.antt =====
-- src/bin/shm2_producer.rs, src/bin/shm2_consumer.rs: the command line, the same in both. `args` has the
-- program's name first. The programs are built for two systems.
use shm2_rs.Base.{ℕ, zero, suc, ◌^◌, ◌<◌, ◌≡◌, refl, List, [], ◌∷◌, Option, none, some}
use shm2_rs.Base.Text.{Bytes, codes}
use shm2_rs.Base.Decimal.{decimal, parse_unsigned, parse_unsigned-decimal}
use shm2_rs.Platform.Resolve.{Target, unix, windows}

pub data Host : Type 0 where
  on_unix on_windows : Host

abbrev pub target_of : Host → Target
target_of on_unix = unix
target_of on_windows = windows

abbrev pub demo_path : Host → Bytes
demo_path on_unix = codes "/dev/shm/gst-shm2-demo"
demo_path on_windows = codes "winshm://Local/gst-shm2-demo"

abbrev nth : List Bytes → ℕ → Option Bytes
nth [] n = none
nth (arg ∷ args) zero = some arg
nth (arg ∷ args) (suc n) = nth args n

abbrev or_else {ℓ} : {A : Type ℓ} → Option A → A → A
or_else none a = a
or_else (some b) a = b

abbrev parsed : Option Bytes → Option ℕ
parsed none = none
parsed (some arg) = parse_unsigned (2 ^ 64) arg

unfoldable pub path_of : Host → List Bytes → Bytes
path_of host args = or_else (nth args 1) (demo_path host)

-- The number of frames.
pub count_of : List Bytes → ℕ
count_of args = or_else (parsed (nth args 2)) 5000

-- A count that is written out is the count.
pub count_of-decimal :
    (program path : Bytes) (n : ℕ) → n < 2 ^ 64 → count_of (program ∷ path ∷ decimal n ∷ []) ≡ n
unfolding count_of
count_of-decimal program path n small = rw (parse_unsigned-decimal n small) refl
