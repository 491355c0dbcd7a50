-- ===== src/Server/Tcp/Decode.antt =====
-- What a stream of bytes stands for: the messages in it and what is left at its end. This is the
-- specification that `process_buf` of server/tcp.c is held to.
use moc.Shared.{
  ℕ, zero, suc, ◌+◌, ◌≤◌, ◌<◌, ◌≡◌, refl, sym, ap, subst, ◌∙◌, none, some, Option-cases, Bool-cases,
  ◌⊎◌, inl, inr, List, [], ◌∷◌, ◌++◌, append_assoc, append-nil, arith, ltb, le→leb, length, take,
  drop, length-append, length-drop, take-length, drop-length, take-append_of_le, drop-append_of_le,
  Bytes, be32, read32, read32-be32, length-be32,
}
use moc.Server.Tcp.{max_message, totaltoget}

-- The end of a stream: an incomplete message, or a header that no message has.
pub data Tail : Type 0 where
  partial : Bytes → Tail
  illegal : Tail

-- `buf` is `ms`, one behind the other, each with its header, and then `t`.
abbrev pub Decodes : Bytes → List Bytes → Tail → Type 0
Decodes buf [] (partial r) = (r ≡ buf) × ((n : ℕ) × (totaltoget buf ≡ some n) × (length buf < n))
Decodes buf [] illegal = totaltoget buf ≡ none
Decodes buf (m ∷ ms) t =
    (n : ℕ) × (totaltoget buf ≡ some n)
    × (n ≤ length buf)
    × (m ≡ drop 4 (take n buf))
    × Decodes (drop n buf) ms t

-- The header's size, once there are four bytes.
pub totaltoget_bounds :
    (buf : Bytes) (n : ℕ)
    → totaltoget buf ≡ some n
    → ((length buf < 4) × (n ≡ 4)) ⊎ ((4 ≤ length buf) × (8 < n) × (n ≤ max_message))
unfolding totaltoget
totaltoget_bounds buf n h = ground arith

pub read32-append : (buf more : Bytes) → 4 ≤ length buf → read32 (buf ++ more) ≡ read32 buf
unfolding read32
read32-append (a ∷ b ∷ c ∷ d ∷ r) more h = refl
read32-append [] more h = absurd (omega arith)
read32-append (a ∷ []) more h = absurd (omega arith)
read32-append (a ∷ b ∷ []) more h = absurd (omega arith)
read32-append (a ∷ b ∷ c ∷ []) more h = absurd (omega arith)

pub totaltoget-append :
    (buf more : Bytes) → 4 ≤ length buf → totaltoget (buf ++ more) ≡ totaltoget buf
unfolding totaltoget
totaltoget-append buf more h = rw (
  read32-append buf more h,
  le→leb 4 (length buf) h,
  le→leb 4 (length (buf ++ more)) (omega (arith, length-append buf more)),
)

-- Every stream stands for some messages and an end.
decode_within :
    (fuel : ℕ) (buf : Bytes) → length buf < fuel → (ms : List Bytes) × (t : Tail) × Decodes buf ms t
decode_within zero buf h = absurd (omega arith)
decode_within (suc fuel) buf h = elim (Option-cases (totaltoget buf)) [
  | inl bad ↦ ([], illegal, bad)
  | inr (n, e) ↦ elim (Bool-cases (ltb (length buf) n)) [
    | inl short ↦ ([], partial buf, (refl, (n, e, ground arith)))
    | inr whole ↦
        let (ms, t, d) =
          decode_within fuel (drop n buf)
            (ground (arith, totaltoget_bounds buf n e, length-drop n buf)) in
        (drop 4 (take n buf) ∷ ms, t, (n, e, ground arith, refl, d))
  ]
]

pub decode : (buf : Bytes) → (ms : List Bytes) × (t : Tail) × Decodes buf ms t
decode buf = decode_within (length buf + 1) buf (omega arith)

-- A stream stands for one sequence of messages only.
pub Decodes-unique :
    (buf : Bytes) (ms ms' : List Bytes) (t t' : Tail)
    → Decodes buf ms t
    → Decodes buf ms' t'
    → (ms ≡ ms') × (t ≡ t')
Decodes-unique buf [] [] (partial r) (partial r') d d' = (refl, ap partial (d.0 ∙ sym d'.0))
Decodes-unique buf [] [] (partial r) illegal d d' = absurd (ground arith)
Decodes-unique buf [] [] illegal (partial r) d d' = absurd (ground arith)
Decodes-unique buf [] [] illegal illegal d d' = (refl, refl)
Decodes-unique buf [] (m ∷ ms) (partial r) t' d d' = absurd (ground arith)
Decodes-unique buf [] (m ∷ ms) illegal t' d d' = absurd (ground arith)
Decodes-unique buf (m ∷ ms) [] t (partial r) d d' = absurd (ground arith)
Decodes-unique buf (m ∷ ms) [] t illegal d d' = absurd (ground arith)
Decodes-unique buf (m ∷ ms) (m' ∷ ms') t t' (n, e, w, i, d) (n', e', w', i', d') =
    let same : n ≡ n' = ground arith in
    let (p, q) = Decodes-unique (drop n buf) ms ms' t t' d (rw same d') in (ground (arith, p), q)

none_long : (buf : Bytes) → totaltoget buf ≡ none → 4 ≤ length buf
unfolding totaltoget
none_long buf h = ground arith

-- What arrives later is decoded behind what was left.
pub Decodes-append :
    (buf more : Bytes) (ms ms' : List Bytes) (r : Bytes) (t : Tail)
    → Decodes buf ms (partial r)
    → Decodes (r ++ more) ms' t
    → Decodes (buf ++ more) (ms ++ ms') t
Decodes-append buf more [] ms' r t d d' = rw (← d.0) d'
Decodes-append buf more (m ∷ ms) ms' r t (n, e, w, i, d) d' =
    let long : 4 ≤ length buf = ground (arith, totaltoget_bounds buf n e) in
    (
      n,
      totaltoget-append buf more long ∙ e,
      omega (arith, length-append buf more),
      rw (take-append_of_le n buf more w) i,
      rw (drop-append_of_le n buf more w) (Decodes-append (drop n buf) more ms ms' r t d d'),
    )

-- An illegal header stays one, whatever arrives later.
pub Decodes-append_illegal :
    (buf more : Bytes) (ms : List Bytes) → Decodes buf ms illegal → Decodes (buf ++ more) ms illegal
Decodes-append_illegal buf more [] d = totaltoget-append buf more (none_long buf d) ∙ d
Decodes-append_illegal buf more (m ∷ ms) (n, e, w, i, d) =
    let long : 4 ≤ length buf = ground (arith, totaltoget_bounds buf n e) in
    (
      n,
      totaltoget-append buf more long ∙ e,
      omega (arith, length-append buf more),
      rw (take-append_of_le n buf more w) i,
      rw (drop-append_of_le n buf more w) (Decodes-append_illegal (drop n buf) more ms d),
    )

-- A message on the wire: its length with the header's four bytes, and its bytes.
unfoldable pub frame : Bytes → Bytes
frame m = be32 (length m + 4) ++ m

unfoldable pub frames : List Bytes → Bytes
unfolding frame
frames [] = []
frames (m ∷ ms) = frame m ++ frames ms

-- The sizes that the protocol allows.
abbrev pub IsMessage : Bytes → Type 0
IsMessage m = (4 < length m) × (length m + 4 ≤ max_message)

abbrev pub AllMessages : List Bytes → Type 0
AllMessages [] = Unit {0}
AllMessages (m ∷ ms) = IsMessage m × AllMessages ms

totaltoget-frame :
    (m tail : Bytes)
    → IsMessage m
    → totaltoget ((be32 (length m + 4) ++ m) ++ tail) ≡ some (length m + 4)
unfolding totaltoget
totaltoget-frame m tail h =
    let n = length m + 4 in
    let size : 4 ≤ length ((be32 n ++ m) ++ tail) =
      omega (arith, length-append (be32 n ++ m) tail, length-append (be32 n) m) in
    let header : read32 ((be32 n ++ m) ++ tail) ≡ some n =
      ap read32 (append_assoc (be32 n) m tail) ∙ read32-be32 n (m ++ tail) (omega arith) in
    rw (le→leb 4 (length ((be32 n ++ m) ++ tail)) size, header) (ground arith)

-- The bytes of messages stand for those messages, and an incomplete rest for itself.
pub Decodes-frames :
    (ms : List Bytes) (r : Bytes)
    → AllMessages ms
    → Decodes r [] (partial r)
    → Decodes (frames ms ++ r) ms (partial r)
unfolding frames frame be32
Decodes-frames [] r all d = d
Decodes-frames (m ∷ ms) r all d =
    let n = length m + 4 in
    let tail = frames ms ++ r in
    let size : length (be32 n ++ m) ≡ n = omega (arith, length-append (be32 n) m, length-be32 n) in
    let front : take n ((be32 n ++ m) ++ tail) ≡ be32 n ++ m =
      ap (λ k. take k ((be32 n ++ m) ++ tail)) (sym size) ∙ take-length (be32 n ++ m) tail in
    let back : drop n ((be32 n ++ m) ++ tail) ≡ tail =
      ap (λ k. drop k ((be32 n ++ m) ++ tail)) (sym size) ∙ drop-length (be32 n ++ m) tail in
    subst (λ b. Decodes b (m ∷ ms) (partial r)) (sym (append_assoc (be32 n ++ m) (frames ms) r))
      (
        n,
        totaltoget-frame m tail all.0,
        omega (arith, length-append (be32 n ++ m) tail),
        rw front refl,
        rw back (Decodes-frames ms r all.1 d),
      )

pub totaltoget-nil : totaltoget [] ≡ some 4
unfolding totaltoget
totaltoget-nil = refl

pub frames_one : (m : Bytes) (n : ℕ) → n ≡ length m + 4 → frames (m ∷ []) ++ [] ≡ be32 n ++ m
unfolding frames
frames_one m n eq = rw (eq, append-nil, append-nil) refl

-- One message by itself, of a legal size.
pub Decodes-frame :
    (m : Bytes) → IsMessage m → Decodes (be32 (length m + 4) ++ m) (m ∷ []) (partial [])
Decodes-frame m is =
    subst (λ (b : Bytes). Decodes b (m ∷ []) (partial [])) (frames_one m (length m + 4) refl)
      (Decodes-frames (m ∷ []) [] (is, tt) (refl, (4, totaltoget-nil, omega arith)))
