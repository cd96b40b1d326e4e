-- ===== src/Transport/Owners/Hold.antt =====
-- src/transport.rs: the bytes of a frame that a consumer holds.
use shm2_rs.Base.{
  some_eq, ℕ, ◌+◌, ◌-◌, ◌^◌, ◌≤◌, ◌<◌, ◌≡◌, ◌≢◌, refl, ap, sym, ◌∙◌, some, length, arith,
}
use mathlib.Core.Path.{subst}
use native.Mathlib.Decide.{dec_lt}
use shm2_rs.Base.Int.{ℤ}
use shm2_rs.Allocator.{Block, find}
use shm2_rs.Platform.{ok}
use shm2_rs.Transport.Types.{Region, Writer, AllocLease}
use shm2_rs.Transport.Timeline.{Clock}
use shm2_rs.Transport.Writer.{alloc_lease, free_lease, try_publish_lease, drain_recycles}
use shm2_rs.Transport.Reader.{read_bytes, push_recycle}
use shm2_rs.Transport.Queues.{IsRegion}
use shm2_rs.Transport.Publish.{Published, try_publish_lease_lem, try_publish_lease-full}
use shm2_rs.Transport.Lease.{IsWriter, Granted, Outcome}
use shm2_rs.Transport.Lease.Loop.{alloc_lease_lem}
use shm2_rs.Transport.Drain.{Drained, drain_recycles_lem}
use shm2_rs.Transport.Payload.{read_bytes-copy_other}
use shm2_rs.Transport.Owners.Ledger.{count, present_le, count-find, find_live}
use shm2_rs.Transport.Owners.Reads.{try_recv_desc-Read, pushed}
use shm2_rs.Transport.Owners.Latest.{try_recv_latest_desc-Read, some_queued}
use shm2_rs.Transport.Owners.System.{
  System, Step, lease, fill, publish, release, take, take_latest, give_back, drain, IsSystem,
  Step-IsSystem,
}

-- A run during all of which the consumer holds buffer `j`.
pub data Holding (j : ℕ) (b : Block) (s : System) : System → Type 0 where
  start : find j s.held ≡ some b → Holding j b s s
  more : {t u : System} → Holding j b s t → Step t u → find j u.held ≡ some b → Holding j b s u

pub alloc_lease-Granted :
    (w w' : Writer) (size align : ℕ) (l : AllocLease)
    → IsWriter w
    → size < 2 ^ 32
    → align ≤ 2 ^ 62
    → alloc_lease w size align ≡ some (w', ok l)
    → Granted w size align w' l
alloc_lease-Granted w w' size align l v p q run =
    let (out, e, o) = alloc_lease_lem w size align v p q in
    subst (Outcome w size align) (some_eq (sym e ∙ run)) o

pub try_publish_lease-Published :
    (w w' : Writer) (clock : Clock) (l : AllocLease) (pts_ns : ℤ)
    → IsRegion w.region
    → w.region.hdr.ready_head + 1 < 2 ^ 63
    → try_publish_lease w clock l pts_ns ≡ some w'
    → Published w l pts_ns w'
try_publish_lease-Published w w' clock l pts_ns v far run =
    elim (dec_lt (w.region.hdr.ready_head - w.region.hdr.ready_tail) w.region.hdr.ready_capacity) [
      | no full ↦ absurd (cc (run, try_publish_lease-full w clock l pts_ns v (omega (arith, full))))
      | yes room ↦
          let (x, e, p) = try_publish_lease_lem w clock l pts_ns v room far in
          subst (Published w l pts_ns) (some_eq (sym e ∙ run)) p
    ]

pub drain_recycles-Drained :
    (w w' : Writer) → IsWriter w → drain_recycles w ≡ some w' → Drained w w'
drain_recycles-Drained w w' v run =
    let (x, e, m) = drain_recycles_lem w v in subst (Drained w) (some_eq (sym e ∙ run)) m

pub free_lease-arena : (w : Writer) (id : ℕ) → (free_lease w id).0.region.arena ≡ w.region.arena
unfolding free_lease
free_lease-arena w id = refl

pub push_recycle-arena :
    (r : Region) (id offset len status : ℕ) → (push_recycle r id offset len status).arena ≡ r.arena
unfolding push_recycle
push_recycle-arena r id offset len status = refl

-- Who holds a buffer is not who has it leased.
held_ne-leased :
    (s : System) (i j : ℕ) (b c : Block)
    → IsSystem s
    → find i s.leased ≡ some b
    → find j s.held ≡ some c
    → i ≢ j
held_ne-leased s i j b c o fi fj same = omega (
  arith,
  o.books.one j,
  present_le (find j s.writer.allocator.used),
  count-find i s.leased b fi,
  ap (λ k. count k s.leased) same,
  count-find j s.held c fj,
)

Step-bytes :
    (s u : System) (j : ℕ) (b : Block)
    → IsSystem s
    → find j s.held ≡ some b
    → Step s u
    → read_bytes u.writer.region.arena b.0 b.1 ≡ read_bytes s.writer.region.arena b.0 b.1
Step-bytes s u j b o mine (lease size align w l p q run gen fresh e) =
    ap (λ a. read_bytes a b.0 b.1)
      (ap (λ x. x.writer.region.arena) e
        ∙ (alloc_lease-Granted s.writer w size align l o.valid p q run).same_bytes)
Step-bytes s u j b o mine (fill id ptr payload leased e) =
    ap (λ x. read_bytes x.writer.region.arena b.0 b.1) e
    ∙ read_bytes-copy_other s.writer.region.hdr.arena_size s.writer.allocator s.writer.region.arena
        payload ptr id j b o.valid.arena_valid
        (find_live (λ k. find k s.writer.allocator.used) id s.leased (ptr, length payload)
          o.books.leased_live leased)
        (find_live (λ k. find k s.writer.allocator.used) j s.held b o.books.held_live mine)
        (held_ne-leased s id j (ptr, length payload) b o leased mine)
Step-bytes s u j b o mine (publish clock l pts_ns w leased far run e) =
    ap (λ a. read_bytes a b.0 b.1)
      (ap (λ x. x.writer.region.arena) e
        ∙ (try_publish_lease-Published s.writer w clock l pts_ns o.valid.region_valid far
            run).same_arena)
Step-bytes s u j b o mine (release id c leased e) =
    ap (λ a. read_bytes a b.0 b.1)
      (ap (λ x. x.writer.region.arena) e ∙ free_lease-arena s.writer id)
Step-bytes s u j b o mine (take r d run e) =
    ap (λ a. read_bytes a b.0 b.1)
      (ap (λ x. x.writer.region.arena) e
        ∙ ap (λ out. out.0.arena) (sym run)
        ∙ (try_recv_desc-Read s.writer.region o.valid.region_valid).0.same_arena)
Step-bytes s u j b o mine (take_latest r d dropped room far run e) =
    ap (λ a. read_bytes a b.0 b.1)
      (ap (λ x. x.writer.region.arena) e
        ∙ ap (λ out. out.0.arena) (sym run)
        ∙ (try_recv_latest_desc-Read s.writer.region o.valid.region_valid
            (omega (arith, o.valid.arena_valid.small))
            (some_queued s.writer r d dropped s.leased s.held o room far run) far).same_arena)
Step-bytes s u j b o mine (give_back r id offset len status held far run e) =
    ap (λ a. read_bytes a b.0 b.1)
      (ap (λ x. x.writer.region.arena) e
        ∙ ap (λ x. x.arena)
            (sym (pushed s.writer.region r id offset len status o.valid.region_valid run).0)
        ∙ push_recycle-arena s.writer.region id offset len status)
Step-bytes s u j b o mine (drain w run e) =
    ap (λ a. read_bytes a b.0 b.1)
      (ap (λ x. x.writer.region.arena) e
        ∙ (drain_recycles-Drained s.writer w o.valid run).same_bytes)

pub Holding-held : (j : ℕ) (b : Block) (s u : System) → Holding j b s u → find j u.held ≡ some b
Holding-held j b s u (start h) = h
Holding-held j b s u (more run st h) = h

pub Holding-IsSystem :
    (j : ℕ) (b : Block) (s u : System) → Holding j b s u → IsSystem s → IsSystem u
Holding-IsSystem j b s u (start h) o = o
Holding-IsSystem j b s u (more {t} run st h) o =
    Step-IsSystem t u st (Holding-IsSystem j b s t run o)

-- While a consumer holds a frame, its bytes stay as they are, whatever the writer, the producers and
-- the reader do in the meantime, in any order: allocate, fill, publish, drop, recycle, drain.
pub Holding-bytes :
    (j : ℕ) (b : Block) (s u : System)
    → IsSystem s
    → Holding j b s u
    → read_bytes u.writer.region.arena b.0 b.1 ≡ read_bytes s.writer.region.arena b.0 b.1
Holding-bytes j b s u o (start h) = refl
Holding-bytes j b s u o (more {t} run st h) =
    Step-bytes t u j b (Holding-IsSystem j b s t run o) (Holding-held j b s t run) st
    ∙ Holding-bytes j b s t o run
