-- ===== src/Relay/Lines.antt =====
-- src/bin/shm2_relayd.rs: `hold_connection` and `hold_vsock_connection`, which take what a client sends
-- apart in the same way. That a piece is shown as text is not modelled.
use shm2_rs.Base.{
  ℕ, zero, suc, ◌≤◌, ◌<◌, ◌≡◌, refl, ap, sym, ◌∙◌, ◌⊎◌, inl, inr, List, [], ◌∷◌, ◌++◌, Option, none,
  some, ◌==◌, leb, if◌then◌else◌, Option-cases, Bool-cases, length, arith,
}
use mathlib.Core.List.{append-nil, append_assoc}
use shm2_rs.Base.Text.{Bytes, push_front, is_empty}

-- `position` of the first newline and `drain` up to it: the line with its newline, and the rest.
unfoldable pub cut_line : Bytes → Option (Bytes × Bytes)
cut_line [] = none
cut_line (b ∷ pending) =
    let later = push_front b (cut_line pending) in
    if b == 10 then some (10 ∷ [], pending) else later

-- The loop over the lines, on fuel: the lines and what is left pending.
drain_lines : ℕ → Bytes → List Bytes × Bytes
drain_lines zero pending = ([], pending)
drain_lines (suc fuel) pending = elim (cut_line pending) [
  | none ↦ ([], pending)
  | some (line, rest) ↦ let (lines, left) = drain_lines fuel rest in (line ∷ lines, left)
]

-- Pending bytes without a newline are cut off at 1024.
cut_chunk : List Bytes × Bytes → List Bytes × Bytes
cut_chunk (lines, pending) =
    if leb 1024 (length pending) then (lines ++ pending ∷ [], []) else (lines, pending)

-- A read of one byte at least. A line has a byte at least, so as many rounds as bytes are enough.
pub on_read : Bytes → Bytes → List Bytes × Bytes
on_read pending buf = cut_chunk (drain_lines (length (pending ++ buf)) (pending ++ buf))

-- The bytes behind the last newline, when the client has closed.
pub on_end : Bytes → List Bytes
on_end [] = []
on_end (b ∷ pending) = (b ∷ pending) ∷ []

-- `hold_connection`, over what `read` gives: bytes, or an error, which is returned at once; the end of the
-- list is a read of none. The pieces of the connection, and the error.
pub hold : Bytes → List (Bytes ⊎ ℕ) → List Bytes × Option ℕ
hold pending [] = (on_end pending, none)
hold pending (inr errno ∷ reads) = ([], some errno)
hold pending (inl buf ∷ reads) =
    let (pieces, left) = on_read pending buf in
    let (later, e) = hold left reads in (pieces ++ later, e)

-- `trim_end_matches`: line ends at the end of a piece go; an empty piece is not shown.
trim_end : Bytes → Bytes
trim_end [] = []
trim_end (b ∷ s) =
    let rest = trim_end s in
    if is_empty rest then (if b == 13 then [] else if b == 10 then [] else b ∷ []) else b ∷ rest

shown : List Bytes → List Bytes
shown [] = []
shown (piece ∷ pieces) =
    let later = shown pieces in if is_empty (trim_end piece) then later else trim_end piece ∷ later

pub concat : List Bytes → Bytes
concat [] = []
concat (piece ∷ pieces) = piece ++ concat pieces

cut_line-append :
    (s line rest : Bytes)
    → cut_line s ≡ some (line, rest)
    → (line ++ rest ≡ s) × (length rest < length s)
unfolding cut_line
cut_line-append [] line rest e = absurd (cc)
cut_line-append (b ∷ s) line rest e = elim (Bool-cases (b == 10)) [
  | inl newline ↦ ground (arith, newline, e)
  | inr other ↦ elim (Option-cases (cut_line s)) [
    | inl absent ↦ ground (arith, other, absent, e)
    | inr ((l, r), found) ↦ ground (arith, other, found, e, cut_line-append s l r found)
  ]
]

drain_lines-concat :
    (fuel : ℕ) (s : Bytes) → concat (drain_lines fuel s).0 ++ (drain_lines fuel s).1 ≡ s
unfolding drain_lines concat
drain_lines-concat zero s = refl
drain_lines-concat (suc fuel) s = elim (Option-cases (cut_line s)) [
  | inl e ↦ rw (drain_lines, e) refl
  | inr ((line, rest), e) ↦
      rw (drain_lines, e)
        (append_assoc line (concat (drain_lines fuel rest).0) (drain_lines fuel rest).1
          ∙ ap (λ l. line ++ l) (drain_lines-concat fuel rest)
          ∙ (cut_line-append s line rest e).0)
]

-- As many rounds as there are bytes leave no newline.
drain_lines-done : (fuel : ℕ) (s : Bytes) → length s ≤ fuel → cut_line (drain_lines fuel s).1 ≡ none
unfolding drain_lines
drain_lines-done zero [] h = unfold cut_line in refl
drain_lines-done zero (b ∷ s) h = absurd (omega (arith, h))
drain_lines-done (suc fuel) s h = elim (Option-cases (cut_line s)) [
  | inl e ↦ rw (drain_lines, e) e
  | inr ((line, rest), e) ↦
      rw (drain_lines, e)
        (drain_lines-done fuel rest (omega (arith, h, (cut_line-append s line rest e).1)))
]

concat-append : (xs ys : List Bytes) → concat (xs ++ ys) ≡ concat xs ++ concat ys
unfolding concat
concat-append [] ys = refl
concat-append (x ∷ xs) ys =
    ap (λ l. x ++ l) (concat-append xs ys) ∙ sym (append_assoc x (concat xs) (concat ys))

concat-one : (s : Bytes) → concat (s ∷ []) ≡ s
unfolding concat
concat-one s = append-nil s

cut_chunk-concat :
    (lines : List Bytes) (s : Bytes)
    → concat (cut_chunk (lines, s)).0 ++ (cut_chunk (lines, s)).1 ≡ concat lines ++ s
unfolding cut_chunk
cut_chunk-concat lines s = elim (Bool-cases (leb 1024 (length s))) [
  | inr e ↦ rw (cut_chunk, e) refl
  | inl e ↦
      rw (cut_chunk, e)
        (append-nil (concat (lines ++ s ∷ []))
          ∙ concat-append lines (s ∷ [])
          ∙ ap (λ l. concat lines ++ l) (concat-one s))
]

cut_chunk-left :
    (lines : List Bytes) (s : Bytes)
    → cut_line s ≡ none
    → (cut_line (cut_chunk (lines, s)).1 ≡ none) × (length (cut_chunk (lines, s)).1 < 1024)
unfolding cut_chunk
cut_chunk-left lines s e = elim (Bool-cases (leb 1024 (length s))) [
  | inr h ↦ rw (cut_chunk, h) (e, ground (arith, h))
  | inl h ↦ rw (cut_chunk, h) (unfold cut_line in refl, omega arith)
]

on_read-concat :
    (pending buf : Bytes)
    → concat (on_read pending buf).0 ++ (on_read pending buf).1 ≡ pending ++ buf
unfolding on_read
on_read-concat pending buf =
    cut_chunk-concat (drain_lines (length (pending ++ buf)) (pending ++ buf)).0
      (drain_lines (length (pending ++ buf)) (pending ++ buf)).1
    ∙ drain_lines-concat (length (pending ++ buf)) (pending ++ buf)

-- After every read, whatever was pending before, less than 1024 bytes are pending, and no newline is
-- among them: the loop over the lines has ended. What was cut off and what is pending are the bytes
-- that were pending and those read, in their order.
pub on_read_lem :
    (pending buf : Bytes)
    → (cut_line (on_read pending buf).1 ≡ none)
      × (length (on_read pending buf).1 < 1024)
      × (concat (on_read pending buf).0 ++ (on_read pending buf).1 ≡ pending ++ buf)
unfolding on_read
on_read_lem pending buf =
    let done = drain_lines-done (length (pending ++ buf)) (pending ++ buf) (omega arith) in
    let left =
      cut_chunk-left (drain_lines (length (pending ++ buf)) (pending ++ buf)).0
        (drain_lines (length (pending ++ buf)) (pending ++ buf)).1 done in
    (left.0, left.1, on_read-concat pending buf)

on_end-concat : (pending : Bytes) → concat (on_end pending) ≡ pending
unfolding on_end concat
on_end-concat [] = refl
on_end-concat (b ∷ pending) = append-nil (b ∷ pending)

-- The bytes that are read before an error.
pub bytes_read : List (Bytes ⊎ ℕ) → Bytes
bytes_read [] = []
bytes_read (inr errno ∷ reads) = []
bytes_read (inl buf ∷ reads) = buf ++ bytes_read reads

-- What is lost: nothing, or on an error the end of a line.
abbrev pub Lost : Option ℕ → Bytes → Type 0
Lost none lost = lost ≡ []
Lost (some errno) lost = (cut_line lost ≡ none) × (length lost < 1024)

-- The pieces that a connection is taken apart into are, put together, the bytes that were pending and
-- those that were read before an error, in their order and none twice, however the reads cut the stream.
-- When the client closes, none are missing; when a read fails, fewer than 1024 bytes at the end are, and
-- no newline is among them. Fewer than 1024 bytes, without a newline, are pending at first.
pub hold-concat :
    (pending : Bytes) (reads : List (Bytes ⊎ ℕ))
    → cut_line pending ≡ none
    → length pending < 1024
    → (lost : Bytes) × Lost (hold pending reads).1 lost
      × (concat (hold pending reads).0 ++ lost ≡ pending ++ bytes_read reads)
unfolding hold bytes_read
hold-concat pending [] line short = (
  [],
  refl,
  append-nil (concat (on_end pending)) ∙ on_end-concat pending ∙ sym (append-nil pending),
)
hold-concat pending (inr errno ∷ reads) line short =
    (pending, (line, short), unfold concat in sym (append-nil pending))
hold-concat pending (inl buf ∷ reads) line short =
    let (done, small, whole) = on_read_lem pending buf in
    let (lost, is, e) = hold-concat (on_read pending buf).1 reads done small in
    (
      lost,
      is,
      ap (λ l. l ++ lost)
            (concat-append (on_read pending buf).0 (hold (on_read pending buf).1 reads).0)
          ∙ append_assoc (concat (on_read pending buf).0)
              (concat (hold (on_read pending buf).1 reads).0) lost
          ∙ ap (λ l. concat (on_read pending buf).0 ++ l) e
          ∙ sym (
              append_assoc (concat (on_read pending buf).0) (on_read pending buf).1
                (bytes_read reads))
          ∙ ap (λ l. l ++ bytes_read reads) whole
          ∙ append_assoc pending buf (bytes_read reads),
    )
