-- ===== src/Bin/Tests.antt =====
-- src/bin/shm2_producer.rs, src/bin/shm2_consumer.rs: small runs.
use shm2_rs.Base.{◌*◌, ◌≡◌, refl, some, List, [], ◌∷◌, map, arith}
use shm2_rs.Base.Text.{Bytes, codes, split_once, strip_prefix}
use shm2_rs.Base.Decimal.{decimal}
use shm2_rs.Platform.{ok}
use shm2_rs.Platform.Resolve.{
  posix_file, BackendSelection, resolve_backend, resolve_backend-plain, parse_scheme,
}
use shm2_rs.Transport.Types.{Region, ReceivedBuffer, Writer, state_stopped}
use shm2_rs.Transport.Queues.{ready_queue}
use shm2_rs.Transport.Tests.{clock}
use shm2_rs.Bin.Args.{on_unix, target_of, path_of, count_of, count_of-decimal}
use shm2_rs.Bin.Producer.{run, start, publish_frames}
use shm2_rs.Bin.Producer.Frames.{now, produced, queued_frames}
use shm2_rs.Bin.Producer.Whole.{run_lem}
use shm2_rs.Bin.Consumer.{open_loop, consume}
use shm2_rs.Bin.Session.{shown, session_lem}
use shm2_rs.Bin.Consumer.Order.{at_once, returned_ids}

-- `shm2_producer /dev/shm/frames 3`
abbrev arguments : List Bytes
arguments = codes "shm2_producer" ∷ codes "/dev/shm/frames" ∷ decimal 3 ∷ []

three : count_of arguments ≡ 3
three = count_of-decimal (codes "shm2_producer") (codes "/dev/shm/frames") 3 (omega arith)

abbrev frames_file : BackendSelection
frames_file = record { backend = posix_file; name = codes "/dev/shm/frames" }

found : resolve_backend (target_of on_unix) (path_of on_unix arguments) ≡ ok frames_file
unfolding path_of parse_scheme split_once strip_prefix
found = resolve_backend-plain (codes "/dev/shm/frames") refl refl

run_lem_example :
    (w : Writer) × (run
        (λ i. now clock ∷ [])
        (λ i r. r)
        arguments
        (start on_unix (λ s size perms. ok size) 7 arguments)
      ≡ some (some w, ok tt))
    × (w.region.hdr.state ≡ state_stopped)
    × (queued_frames w ≡ produced (count_of arguments) 0)
run_lem_example =
    run_lem (λ i. clock) on_unix (λ s size perms. ok size) 7 arguments frames_file found refl
      (omega (arith, three))

session_lem_example :
    (w : Writer) × (start on_unix (λ s size perms. ok size) 7 arguments ≡ ok w)
    × (r : Region) × (open_loop (ok (w.region, 64 * 1024 * 1024) ∷ []) ≡ some r)
    × (w' : Writer) × (publish_frames
          (λ i. now clock ∷ [])
          (count_of arguments)
          0
          (record w { region = r })
        ≡ some (w', ok tt))
    × (r' : Region) × (bufs : List ReceivedBuffer) × (consume at_once
          (count_of arguments)
          0
          w'.region
        ≡ some (r', bufs, ok tt))
    × (map shown bufs ≡ produced (count_of arguments) 0)
    × (ready_queue r' ≡ [])
    × (returned_ids r' ≡ map (λ b. b.buffer_id) bufs)
session_lem_example =
    session_lem (λ i. clock) on_unix (λ s size perms. ok size) 7 arguments frames_file found refl
      (omega (arith, three))
