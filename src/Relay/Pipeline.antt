-- ===== src/Relay/Pipeline.antt =====
-- src/bin/shm2_relayd.rs: `normalize_pipeline`. White space is ASCII's.
use shm2_rs.Base.{
  ℕ, ◌≡◌, refl, ap, sym, ◌∙◌, Bool, true, false, ◌&&◌, ◌||◌, inl, inr, List, [], ◌∷◌, ◌++◌, ◌==◌,
  leb, if◌then◌else◌, Bool-cases, arith,
}
use shm2_rs.Base.Text.{Bytes, codes, bytes_eq, bytes_eq_iff, starts_with, strip_prefix}

-- `replace("\\!", "!")`: a backslash before `!` goes.
unescape : Bytes → Bytes
unescape [] = []
unescape (c ∷ []) = c ∷ []
unescape (c ∷ d ∷ s) =
    let after = unescape s in
    let later = unescape (d ∷ s) in if c == b'\\' && d == b'!' then b'!' ∷ after else c ∷ later

abbrev is_whitespace : ℕ → Bool
is_whitespace c = c == 32 || (leb 9 c && leb c 13)

-- The token that begins before `s`, and those behind it.
tokens_from : (token s : Bytes) → List Bytes
tokens_from [] [] = []
tokens_from (t ∷ token) [] = (t ∷ token) ∷ []
tokens_from [] (c ∷ s) =
    let skipped = tokens_from [] s in
    let begun = tokens_from (c ∷ []) s in if is_whitespace c then skipped else begun
tokens_from (t ∷ token) (c ∷ s) =
    let ended = tokens_from [] s in
    let more = tokens_from ((t ∷ token) ++ c ∷ []) s in
    if is_whitespace c then (t ∷ token) ∷ ended else more

abbrev split_whitespace : Bytes → List Bytes
split_whitespace s = tokens_from [] s

abbrev bang : Bytes
bang = b'!' ∷ []

abbrev is_bang : Bytes → Bool
is_bang t = bytes_eq t bang

abbrev is_caps : Bytes → Bool
is_caps t =
    starts_with t (codes "video/")
    || starts_with t (codes "audio/")
    || starts_with t (codes "text/")
    || starts_with t (codes "application/")

-- The loop over the tokens.
rewrite_caps : List Bytes → List Bytes
rewrite_caps [] = []
rewrite_caps (t ∷ []) = t ∷ []
rewrite_caps (t ∷ next ∷ tokens) =
    let behind = rewrite_caps tokens in
    let step = rewrite_caps (next ∷ tokens) in
    if is_bang t && is_caps next
    then bang ∷ codes "capsfilter" ∷ (codes "caps=" ++ next) ∷ behind
    else t ∷ step

join : List Bytes → Bytes
join [] = []
join (t ∷ []) = t
join (t ∷ u ∷ tokens) = t ++ b' ' ∷ join (u ∷ tokens)

abbrev joined : Bytes → List Bytes → Bytes
joined input [] = input
joined input (t ∷ tokens) = join (rewrite_caps (t ∷ tokens))

normalize_caps_filters : Bytes → Bytes
normalize_caps_filters input = joined input (split_whitespace input)

pub normalize_pipeline : Bytes → Bytes
normalize_pipeline input = normalize_caps_filters (unescape input)

-- The first token stays.
head_of-rewrite :
    (t : Bytes) (tokens : List Bytes)
    → (later : List Bytes) × (rewrite_caps (t ∷ tokens) ≡ t ∷ later)
unfolding rewrite_caps
head_of-rewrite t [] = ([], refl)
head_of-rewrite t (next ∷ tokens) = elim (Bool-cases (is_bang t && is_caps next)) [
  | inr e ↦ (rewrite_caps (next ∷ tokens), rw (rewrite_caps, e) refl)
  | inl e ↦ (
    codes "capsfilter" ∷ (codes "caps=" ++ next) ∷ rewrite_caps tokens,
    rw (rewrite_caps, e)
        (ap (λ u. u ∷ codes "capsfilter" ∷ (codes "caps=" ++ next) ∷ rewrite_caps tokens)
          (sym ((bytes_eq_iff t bang).0 (ground (arith, e))))),
  )
]

rewrite_caps-miss :
    (t next : Bytes) (tokens : List Bytes)
    → (is_bang t && is_caps next) ≡ false
    → rewrite_caps (t ∷ next ∷ tokens) ≡ t ∷ rewrite_caps (next ∷ tokens)
unfolding rewrite_caps
rewrite_caps-miss t next tokens e = rw (rewrite_caps, e) refl

rewrite_caps-other :
    (t : Bytes) (tokens : List Bytes)
    → is_bang t ≡ false
    → rewrite_caps (t ∷ tokens) ≡ t ∷ rewrite_caps tokens
unfolding rewrite_caps
rewrite_caps-other t [] e = refl
rewrite_caps-other t (next ∷ tokens) e = rewrite_caps-miss t next tokens (rw e refl)

rewrite_caps-hit :
    (t next : Bytes) (tokens : List Bytes)
    → (is_bang t && is_caps next) ≡ true
    → rewrite_caps (t ∷ next ∷ tokens)
      ≡ bang ∷ codes "capsfilter" ∷ (codes "caps=" ++ next) ∷ rewrite_caps tokens
unfolding rewrite_caps
rewrite_caps-hit t next tokens e = rw (rewrite_caps, e) refl

-- What the rewriting puts for a pair of tokens is not rewritten.
rewrite_caps-filter :
    (next : Bytes) (tokens : List Bytes)
    → rewrite_caps (bang ∷ codes "capsfilter" ∷ (codes "caps=" ++ next) ∷ tokens)
      ≡ bang ∷ codes "capsfilter" ∷ (codes "caps=" ++ next) ∷ rewrite_caps tokens
unfolding starts_with strip_prefix bytes_eq
rewrite_caps-filter next tokens =
    rewrite_caps-miss bang (codes "capsfilter") ((codes "caps=" ++ next) ∷ tokens) refl
    ∙ ap (λ l. bang ∷ l)
        (rewrite_caps-other (codes "capsfilter") ((codes "caps=" ++ next) ∷ tokens) refl
          ∙ ap (λ l. codes "capsfilter" ∷ l)
              (rewrite_caps-other (codes "caps=" ++ next) tokens refl))

-- A second run of the rewriting changes nothing: a caps token is made a `capsfilter` once.
rewrite_caps-again :
    (tokens : List Bytes) → rewrite_caps (rewrite_caps tokens) ≡ rewrite_caps tokens
rewrite_caps-again [] = unfold rewrite_caps in refl
rewrite_caps-again (t ∷ []) = unfold rewrite_caps in refl
rewrite_caps-again (t ∷ next ∷ tokens) = elim (Bool-cases (is_bang t && is_caps next)) [
  | inl e ↦ rw (rewrite_caps-hit t next tokens e) (
      rewrite_caps-filter next (rewrite_caps tokens)
      ∙ ap (λ l. bang ∷ codes "capsfilter" ∷ (codes "caps=" ++ next) ∷ l)
          (rewrite_caps-again tokens))
  | inr e ↦
      let (later, first) = head_of-rewrite next tokens in
      ap rewrite_caps (rewrite_caps-miss t next tokens e ∙ ap (λ l. t ∷ l) first)
      ∙ rewrite_caps-miss t next later e
      ∙ ap (λ l. t ∷ l) (ap rewrite_caps (sym first) ∙ rewrite_caps-again (next ∷ tokens))
      ∙ sym (rewrite_caps-miss t next tokens e)
]
