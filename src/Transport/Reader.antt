-- ===== src/Transport/Reader.antt =====
-- src/transport.rs: `impl Reader`. The reader keeps no state of its own: an operation takes the region
-- and returns it. What the writer does while the reader sleeps is an argument.
use shm2_rs.Base.{
  ℕ, zero, suc, ◌+◌, ◌-◌, ◌%◌, ◌^◌, Bool, true, false, List, [], ◌∷◌, Option, none, some, add_u64,
  sub_u64, checked_add, length, get_or, set, ltb, leb, ◌==◌, if◌then◌else◌,
}
use mathlib.Core.Option
use shm2_rs.Platform.{
  Result, ok, err, protocol, payload_bounds_overflow, payload_out_of_arena, ◌>>=◌, ◌>>◌,
}
use shm2_rs.Transport.Types.{ReadyDesc, RecycleDesc, Region, ReceivedDesc, ReceivedBuffer}
use shm2_rs.Transport.Timeline.{with_hdr}
use shm2_rs.Transport.Writer.{zero_ready}
use shm2_rs.Transport.Layout.{validate_header}

-- `open`: the backend's mapping of `len` bytes, accepted if its header is.
unfoldable pub open_region : Region → ℕ → Result Region
open_region r len = do validate_header r.hdr len; ok r

abbrev pub received : ReadyDesc → ReceivedDesc
received d = record {
  seq = d.seq;
  buffer_id = d.buffer_id;
  pts_ns = d.pts_ns;
  dts_ns = d.dts_ns;
  duration_ns = d.duration_ns;
  flags = d.flags;
  offset = d.offset;
  len = d.length;
}

in_arena : ℕ → ℕ → Result (Unit {0})
in_arena arena_size end = if ltb arena_size end then err (protocol payload_out_of_arena) else ok tt

unfoldable pub validate_bounds : Region → ℕ → ℕ → Result (Unit {0})
unfolding in_arena
validate_bounds r offset len = elim (checked_add offset len) [
  | none ↦ err (protocol payload_bounds_overflow)
  | some end ↦ in_arena r.hdr.arena_size end
]

-- An error leaves the region as it was.
unfoldable pub after :
    Region
    → Region
    → Option ReceivedDesc
    → Result (Unit {0})
    → Region × Result (Option ReceivedDesc)
after r r' out (ok _) = (r', ok out)
after r r' out (err e) = (r, err e)

unfoldable pub try_recv_desc : Region → Region × Result (Option ReceivedDesc)
try_recv_desc r =
    let hdr = r.hdr in
    let out = received (get_or r.ready (hdr.ready_tail % hdr.ready_capacity) zero_ready) in
    if hdr.ready_head == hdr.ready_tail
    then (r, ok none)
    else after r (with_hdr r (record hdr { ready_tail = add_u64 hdr.ready_tail 1 })) (some out)
        (validate_bounds r out.offset out.len)

unfoldable pub payload_ptr : Region → ReceivedDesc → Result ℕ
payload_ptr r desc = do validate_bounds r desc.offset desc.len; ok desc.offset

abbrev pub recycle_desc_of : (seq buffer_id offset length status : ℕ) → RecycleDesc
recycle_desc_of seq buffer_id offset length status = record {
  seq = seq;
  buffer_id = buffer_id;
  status = status;
  offset = offset;
  length = length;
}

-- The descriptor stored in the recycle ring, and the head moved on.
unfoldable pub push_recycle : Region → (buffer_id offset length status : ℕ) → Region
push_recycle r buffer_id offset length status = record r {
  recycle =
      set r.recycle (r.hdr.rec_head % r.hdr.rec_capacity)
        (recycle_desc_of (add_u64 r.hdr.rec_head 1) buffer_id offset length status);
  hdr = record r.hdr { rec_head = add_u64 r.hdr.rec_head 1 };
}

unfoldable pub try_recycle_desc : Region → (buffer_id offset length status : ℕ) → Region × Bool
try_recycle_desc r buffer_id offset length status =
    if leb r.hdr.rec_capacity (sub_u64 r.hdr.rec_head r.hdr.rec_tail)
    then (r, false)
    else (push_recycle r buffer_id offset length status, true)

-- `peer` lists what the writer does during each sleep; `none` means that the ring is still full.
unfoldable pub recycle_desc :
    List (Region → Region) → Region → (buffer_id offset length status : ℕ) → Option Region
recycle_desc [] r buffer_id offset length status =
    let (r', done) = try_recycle_desc r buffer_id offset length status in
    if done then some r' else none
recycle_desc (act ∷ peer) r buffer_id offset length status =
    let later = recycle_desc peer (act r) buffer_id offset length status in
    let (r', done) = try_recycle_desc r buffer_id offset length status in
    if done then some r' else later

-- A poll that ends the loop: a descriptor or an error.
unfoldable pub settled :
    Region × Result (Option ReceivedDesc) → Option (Region × Result ReceivedDesc)
settled (r, ok none) = none
settled (r, ok (some desc)) = some (r, ok desc)
settled (r, err e) = some (r, err e)

unfoldable pub recv_desc_blocking :
    List (Region → Region) → Region → Option (Region × Result ReceivedDesc)
recv_desc_blocking [] r = settled (try_recv_desc r)
recv_desc_blocking (act ∷ peer) r = elim (settled (try_recv_desc r)) [
  | some out ↦ some out
  | none ↦ recv_desc_blocking peer (act (try_recv_desc r).0)
]

-- `length` bytes of the arena from `ptr` on.
unfoldable pub read_bytes : (ℕ → ℕ) → ℕ → ℕ → List ℕ
read_bytes arena ptr zero = []
read_bytes arena ptr (suc n) = arena ptr ∷ read_bytes arena (ptr + 1) n

unfoldable pub buffer_of : Region → ReceivedDesc → Result ReceivedBuffer
buffer_of r desc = do
  ptr ← payload_ptr r desc
  ok (record {
    seq = desc.seq;
    buffer_id = desc.buffer_id;
    pts_ns = desc.pts_ns;
    dts_ns = desc.dts_ns;
    duration_ns = desc.duration_ns;
    flags = desc.flags;
    payload = read_bytes r.arena ptr desc.len;
    offset = desc.offset;
  })

unfoldable pub recv_blocking :
    List (Region → Region) → Region → Option (Region × Result ReceivedBuffer)
recv_blocking peer r =
    Option.map (λ (out : Region × Result ReceivedDesc). (out.0, out.1 >>= buffer_of out.0))
      (recv_desc_blocking peer r)

-- `recycle`, with status OK.
unfoldable pub recycle : List (Region → Region) → Region → ReceivedBuffer → Option Region
recycle peer r buf = recycle_desc peer r buf.buffer_id buf.offset (length buf.payload % 2 ^ 32) 0

-- The loop of `try_recv_latest_desc` over `rounds` entries from `cur` on: each is given back with
-- status 1, until the recycle ring is full. The count is of those given back.
unfoldable pub drop_older : ℕ → ℕ → Region → ℕ → Region × ℕ
drop_older zero cur r dropped = (r, dropped)
drop_older (suc rounds) cur r dropped =
    let desc = get_or r.ready (cur % r.hdr.ready_capacity) zero_ready in
    let (r', done) = try_recycle_desc r desc.buffer_id desc.offset desc.length 1 in
    let later = drop_older rounds (cur + 1) r' (dropped + 1) in if done then later else (r, dropped)

unfoldable pub deliver :
    Region → ℕ → ReceivedDesc × ℕ → Result (Unit {0}) → Region × Result (Option (ReceivedDesc × ℕ))
deliver r new_tail out (ok _) = (with_hdr r (record r.hdr { ready_tail = new_tail }), ok (some out))
deliver r new_tail out (err e) = (r, err e)

-- The entry chosen is handed out if it is inside the arena; the recycled ones stay recycled.
unfoldable pub hand_out :
    Region × ℕ → (chosen new_tail : ℕ) → Region × Result (Option (ReceivedDesc × ℕ))
hand_out (r, dropped) chosen new_tail =
    let out = received (get_or r.ready (chosen % r.hdr.ready_capacity) zero_ready) in
    deliver r new_tail (out, dropped) (validate_bounds r out.offset out.len)

unfoldable pub try_recv_latest_desc : Region → Region × Result (Option (ReceivedDesc × ℕ))
try_recv_latest_desc r =
    let head = r.hdr.ready_head in
    let tail = r.hdr.ready_tail in
    let len = head - tail in
    let chosen = if len == 1 then tail else sub_u64 head 2 in
    let new_tail = if leb len 1 then head else sub_u64 head 1 in
    let older = if len == 1 then (r, 0) else drop_older (chosen - tail) tail r 0 in
    if head == tail then (r, ok none) else hand_out older chosen new_tail
