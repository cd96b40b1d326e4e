-- ===== src/Src/Owners.antt =====
-- src/shm2src.rs: the buffers that `create` hands on, as owners of their frames until they are dropped.
use shm2_rs.Base.{
  some_eq, ℕ, ◌+◌, ◌-◌, ◌^◌, ◌≤◌, ◌<◌, ◌≡◌, refl, ap, ap₂, sym, ◌∙◌, Bool, true, false, List, [],
  ◌∷◌, ◌++◌, Option, none, some, ◌⊎◌, inl, inr, length, leb, sub_u64, if◌then◌else◌, arith,
}
use shm2_rs.Allocator.{remove}
use shm2_rs.Platform.{Result, ok, err, ◌>>=◌}
use shm2_rs.Transport.Types.{Region, ReceivedDesc}
use shm2_rs.Transport.Timeline.{timeline_snapshot}
use shm2_rs.Transport.Reader.{
  payload_ptr, validate_bounds, read_bytes, try_recv_desc, try_recv_latest_desc, try_recycle_desc,
  recycle_desc,
}
use shm2_rs.Transport.Queues.{IsRegion, ready_queue}
use shm2_rs.Transport.Latest.{free_slots}
use shm2_rs.Transport.Owners.Books.{received_ticket}
use shm2_rs.Transport.Owners.Reads.{give_back-IsOwned}
use shm2_rs.Transport.Owners.System.{System, Step, take, take_latest, IsSystem, Step-IsSystem}
use shm2_rs.Transport.Owners.Hold.{Holding, Holding-bytes, Holding-held, Holding-IsSystem}
use shm2_rs.Transport.Channel
use shm2_rs.Transport.Channel.{waiting, event, Moves}
use shm2_rs.Transport.Channel.Steps.{Step-Moves}
use shm2_rs.Src.{State, Stamped, as_ref, drop_read_wrap, flushing}
use shm2_rs.Src.Create.{
  Frame, wrap_of, framed, poll_next, poll_latest, poll, ended, Outcome, attempt,
}

left_eq {ℓ κ} : {A : Type ℓ} {B : Type κ} {a b : A} → ◌≡◌ {A = A ⊎ B} (inl a) (inl b) → a ≡ b
left_eq e = cc

bind-ok {ℓ κ} :
    {T : Type ℓ} {S : Type κ} (m : Result T) (k : T → Result S) (v : S)
    → (m >>= k) ≡ ok v
    → (t : T) × (m ≡ ok t) × (k t ≡ ok v)
bind-ok (ok t) k v e = (t, refl, e)
bind-ok (err x) k v e = absurd (cc)

found_eq {ℓ} :
    {A : Type ℓ} {a b : A} → ◌≡◌ {A = Result (Option A)} (ok (some a)) (ok (some b)) → a ≡ b
found_eq e = cc

-- The address of a frame is its offset.
payload_ptr-offset :
    (r : Region) (d : ReceivedDesc) (ptr : ℕ) → payload_ptr r d ≡ ok ptr → ptr ≡ d.offset
unfolding payload_ptr
payload_ptr-offset r d ptr e =
    let (u, valid, same) = bind-ok (validate_bounds r d.offset d.len) (λ _. ok d.offset) ptr e in cc

framed-some :
    (r : Region) (d : ReceivedDesc) (dropped : ℕ) (f : Frame)
    → framed r d dropped ≡ ok (some f)
    → (d ≡ f.0) × (f.1 ≡ d.offset) × (dropped ≡ f.3)
unfolding framed
framed-some r d dropped f e =
    let (ptr, at, same) =
      bind-ok (payload_ptr r d) (λ p. ok (some (d, p, timeline_snapshot r, dropped))) (some f) e in
    let eq = found_eq same in
    (ap (λ x. x.0) eq, sym (ap (λ x. x.1) eq) ∙ payload_ptr-offset r d ptr at, ap (λ x. x.3) eq)

poll_next-some :
    (r' : Region) (out : Region × Result (Option ReceivedDesc)) (f : Frame)
    → poll_next out ≡ (r', ok (some f))
    → (out ≡ (r', ok (some f.0))) × (f.1 ≡ f.0.offset)
unfolding poll_next
poll_next-some r' (r, ok none) f e = absurd (cc)
poll_next-some r' (r, ok (some d)) f e =
    let (same, at, none_dropped) = framed-some r d 0 f (ap (λ x. x.1) e) in
    (ap₂ (λ x y. (x, ok (some y))) (ap (λ x. x.0) e) same, at ∙ ap (λ x. x.offset) same)
poll_next-some r' (r, err x) f e = absurd (cc)

poll_latest-some :
    (r' : Region) (out : Region × Result (Option (ReceivedDesc × ℕ))) (f : Frame)
    → poll_latest out ≡ (r', ok (some f))
    → (out ≡ (r', ok (some (f.0, f.3)))) × (f.1 ≡ f.0.offset)
unfolding poll_latest
poll_latest-some r' (r, ok none) f e = absurd (cc)
poll_latest-some r' (r, ok (some (d, dropped))) f e =
    let (same, at, passed) = framed-some r d dropped f (ap (λ x. x.1) e) in
    (
      ap₂ (λ x y. (x, ok (some y))) (ap (λ x. x.0) e) (ap₂ (λ x y. (x, y)) same passed),
      at ∙ ap (λ x. x.offset) same,
    )
poll_latest-some r' (r, err x) f e = absurd (cc)

ended-frame :
    (st st' : State) (now_rt : Option ℕ) (r' : Region) (out : Region × Result (Option Frame))
    (f : Frame) (stamped : Stamped)
    → ended st now_rt out ≡ some (st', r', inl (f, stamped))
    → out ≡ (r', ok (some f))
unfolding ended
ended-frame st st' now_rt r' (r, ok none) f stamped e = absurd (cc)
ended-frame st st' now_rt r' (r, ok (some (d, ptr, snap, dropped))) f stamped e =
    let eq = some_eq e in
    ap₂ (λ x y. (x, ok (some y))) (ap (λ x. x.1) eq) (ap (λ x. x.0) (left_eq (ap (λ x. x.2) eq)))
ended-frame st st' now_rt r' (r, err x) f stamped e = absurd (cc)

not_flushing :
    (b : Bool) (st st' : State) (r r' : Region) (o : Outcome) (got : Frame × Stamped)
    → (if b then some (st, r, inr flushing) else o) ≡ some (st', r', inl got)
    → o ≡ some (st', r', inl got)
not_flushing true st st' r r' o got e = absurd (cc)
not_flushing false st st' r r' o got e = e

attempt-frame :
    (st st' : State) (r r' : Region) (now_rt : Option ℕ) (f : Frame) (stamped : Stamped)
    → attempt st r now_rt ≡ some (st', r', inl (f, stamped))
    → poll st.settings.latest_only r ≡ (r', ok (some f))
unfolding attempt
attempt-frame st st' r r' now_rt f stamped e =
    ended-frame st st' now_rt r' (poll st.settings.latest_only r) f stamped
      (not_flushing st.unlocked st st' r r' _ (f, stamped) e)

-- The system as a frame taken by the element leaves it.
abbrev pub handed_on : System → Region → Frame → System
handed_on s r f = record s {
  writer = record s.writer { region = r };
  held = received_ticket f.0 ∷ s.held;
}

module _ (s : System) (o : IsSystem s) (r : Region) (f : Frame)
    (room : length (ready_queue s.writer.region) - 2 ≤ free_slots s.writer.region)
    (far : s.writer.region.hdr.rec_head
        + (s.writer.region.hdr.ready_head - s.writer.region.hdr.ready_tail)
      < 2 ^ 63) where
  -- Either way of polling is a step of the consumer, and takes a frame as it was queued.
  poll-Step :
      (latest_only : Bool)
      → poll latest_only s.writer.region ≡ (r, ok (some f))
      → Step s (handed_on s r f)
        × (f.1 ≡ f.0.offset)
        × ((skipped : List Channel.Frame) × (waiting s
              ≡ skipped
                ++ (read_bytes r.arena f.0.offset f.0.len, f.0.pts_ns) ∷ waiting (handed_on s r f)))
  unfolding poll event Moves
  poll-Step true e =
      let (run, at) = poll_latest-some r (try_recv_latest_desc s.writer.region) f e in
      let st = take_latest r f.0 f.3 room far run refl in
      let (skipped, same, short) = Step-Moves s (handed_on s r f) st o in (st, at, (skipped, same))
  poll-Step false e =
      let (run, at) = poll_next-some r (try_recv_desc s.writer.region) f e in
      let st = take r f.0 run refl in (st, at, ([], Step-Moves s (handed_on s r f) st o))

-- The drop of a memory, while the recycle ring has room.
drop_read_wrap-given :
    (r : Region) (f : Frame)
    → IsRegion r
    → r.hdr.rec_head - r.hdr.rec_tail < r.hdr.rec_capacity
    → (r' : Region) × (drop_read_wrap [] r (wrap_of f) ≡ some r')
      × (try_recycle_desc r f.0.buffer_id f.0.offset f.0.len 0 ≡ (r', true))
unfolding drop_read_wrap recycle_desc try_recycle_desc
drop_read_wrap-given r f v room = rw not_full (_, refl, refl)
  where
    not_full : leb r.hdr.rec_capacity (sub_u64 r.hdr.rec_head r.hdr.rec_tail) ≡ false
    not_full = ground (arith, v.recycle_ring, room)

-- Whatever the writer, the producers and other consumers do, in the steps of Transport/Owners/System, while a
-- buffer that `create` handed on is not dropped: what is read through its memory is one of the frames that were queued when it was created, with
-- the bytes that it had then, and with that frame's presentation time in its descriptor. With room on the
-- recycle ring its drop then ends at once, gives back this buffer, and leaves every live buffer with one
-- owner. The live policy needs room on that ring for the frames that it passes over, and counters stay
-- below 2 ^ 63.
pub create-drop :
    (s u : System) (st st' : State) (now_rt : Option ℕ) (r : Region) (f : Frame) (stamped : Stamped)
    → IsSystem s
    → length (ready_queue s.writer.region) - 2 ≤ free_slots s.writer.region
    → s.writer.region.hdr.rec_head
        + (s.writer.region.hdr.ready_head - s.writer.region.hdr.ready_tail)
      < 2 ^ 63
    → attempt st s.writer.region now_rt ≡ some (st', r, inl (f, stamped))
    → Holding f.0.buffer_id (f.0.offset, f.0.len) (handed_on s r f) u
    → u.writer.region.hdr.rec_head - u.writer.region.hdr.rec_tail < u.writer.region.hdr.rec_capacity
    → u.writer.region.hdr.rec_head + 1 < 2 ^ 63
    → ((skipped : List Channel.Frame) × (waiting s
          ≡ skipped
            ++ (as_ref u.writer.region (wrap_of f), f.0.pts_ns) ∷ waiting (handed_on s r f)))
      × ((r' : Region) × (drop_read_wrap [] u.writer.region (wrap_of f) ≡ some r')
          × IsSystem (record u {
            writer = record u.writer { region = r' };
            held = remove f.0.buffer_id u.held;
          }))
unfolding as_ref
create-drop s u st st' now_rt r f stamped o room far run keep space near =
    let (step, at, (skipped, same)) =
      poll-Step s o r f room far st.settings.latest_only
        (attempt-frame st st' s.writer.region r now_rt f stamped run) in
    let o1 = Step-IsSystem s (handed_on s r f) step o in
    let o2 = Holding-IsSystem f.0.buffer_id (f.0.offset, f.0.len) (handed_on s r f) u keep o1 in
    let (r', dropped, given) = drop_read_wrap-given u.writer.region f o2.valid.region_valid space in
    (
      (
        skipped,
        same
            ∙ ap (λ bytes. skipped ++ (bytes, f.0.pts_ns) ∷ waiting (handed_on s r f))
                (sym (Holding-bytes f.0.buffer_id (f.0.offset, f.0.len) (handed_on s r f) u o1 keep)
                  ∙ ap (λ ptr. read_bytes u.writer.region.arena ptr f.0.len) (sym at)),
      ),
      (
        r',
        dropped,
        give_back-IsOwned u.writer r' u.leased u.held f.0.buffer_id f.0.offset f.0.len 0 o2
            (Holding-held f.0.buffer_id (f.0.offset, f.0.len) (handed_on s r f) u keep) near given,
      ),
    )
