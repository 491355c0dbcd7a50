-- ===== src/Client/Packet/Write.antt =====
-- What `pack_data_str` and `pack_hdf` of client/packet.c leave in the buffer.
use moc.Shared.{
  ℕ, ◌+◌, ◌≤◌, ◌<◌, ◌≡◌, refl, sym, ap, ◌∙◌, Option, some, [], ◌∷◌, ◌++◌, append_assoc, append-nil,
  arith, le→leb, Bool-cases, inl, inr, false, ltb, if◌then◌else◌, length, take, drop, length-append,
  length-drop, length-take, take-length, drop-length, drop-drop, Bytes, be32, length-be32,
}
use moc.Client.Packet.{
  data_type_string, data_type_eof, blit, with_nul, value_size, pack_data_str, HdfOps, pack_hdf,
}

-- The bytes of a variable: type, name with its length, value with its length.
unfoldable pub image : Bytes → Bytes → Bytes
image key v = (((be32 data_type_string ++ be32 (length key)) ++ key) ++ be32 (length v)) ++ v

pub length-image : (key v : Bytes) → length (image key v) ≡ 12 + length key + length v
unfolding image
length-image key v = omega (
  arith,
  length-append (((be32 3 ++ be32 (length key)) ++ key) ++ be32 (length v)) v,
  length-append ((be32 3 ++ be32 (length key)) ++ key) (be32 (length v)),
  length-append (be32 3 ++ be32 (length key)) key,
  length-append (be32 3) (be32 (length key)),
  length-be32 3,
  length-be32 (length key),
  length-be32 (length v),
)

-- A write at the end of a prefix.
pub blit_at :
    (off : ℕ) (pre bs mid : Bytes)
    → off ≡ length pre
    → length bs ≤ length mid
    → blit off bs (pre ++ mid) ≡ some (pre ++ bs ++ drop (length bs) mid)
unfolding blit
blit_at off pre bs mid at fits =
    let room = length-append pre mid in
    let rest : drop (length pre + length bs) (pre ++ mid) ≡ drop (length bs) mid =
      sym (drop-drop (length bs) (length pre) (pre ++ mid))
      ∙ ap (drop (length bs)) (drop-length pre mid) in
    rw (
      at,
      le→leb (length pre + length bs) (length (pre ++ mid)) (omega (arith, room)),
      take-length pre mid,
      rest,
      append_assoc,
    )

-- A write behind what has been written so far.
blit-append :
    (off : ℕ) (pre bs buf : Bytes)
    → off ≡ length pre
    → length pre + length bs ≤ length buf
    → blit off bs (pre ++ drop (length pre) buf)
      ≡ some ((pre ++ bs) ++ drop (length (pre ++ bs)) buf)
blit-append off pre bs buf at fits =
    blit_at off pre bs (drop (length pre) buf) at (omega (arith, length-drop (length pre) buf))
    ∙ ap (λ r. some (pre ++ bs ++ r)) (drop-drop (length bs) (length pre) buf)
    ∙ ap (λ n. some (pre ++ bs ++ drop n buf)) (sym (length-append pre bs))

-- The value as it is sent: cut where it would not fit.
unfoldable pub sent : Option Bytes → ℕ → Bytes
sent val len = take (value_size val len) (with_nul val)

pub length-sent : (val : Option Bytes) (len : ℕ) → length (sent val len) ≡ value_size val len
unfolding sent value_size
length-sent val len = ground (arith, length-take (value_size val len) (with_nul val))

zero_of : (n : ℕ) → ltb 0 n ≡ false → n ≡ 0
zero_of n h = ground arith

sent_nil : (val : Option Bytes) (len : ℕ) → ltb 0 (value_size val len) ≡ false → sent val len ≡ []
unfolding sent
sent_nil val len h = rw (zero_of (value_size val len) h)

write_value :
    (off : ℕ) (pre buf : Bytes) (val : Option Bytes) (len : ℕ)
    → off ≡ length pre
    → length pre + length (sent val len) ≤ length buf
    → (if ltb 0 (value_size val len)
        then blit off (take (value_size val len) (with_nul val)) (pre ++ drop (length pre) buf)
        else some (pre ++ drop (length pre) buf))
      ≡ some ((pre ++ sent val len) ++ drop (length (pre ++ sent val len)) buf)
unfolding sent
write_value off pre buf val len at fits = elim (Bool-cases (ltb 0 (value_size val len))) [
  | inl nonempty ↦ rw nonempty (blit-append off pre (sent val len) buf at fits)
  | inr empty ↦ rw (empty, sent_nil val len empty, append-nil)
]

-- `pack_data_str` writes the variable and a NUL behind it, and nothing else.
pub pack_data_str_lem :
    (key : Bytes) (val : Option Bytes) (buf : Bytes) (len : ℕ)
    → 12 + length key + value_size val len < length buf
    → let v = sent val len in
      pack_data_str key val buf len
      ≡ some (
        (image key v ++ 0 ∷ []) ++ drop (length (image key v ++ 0 ∷ [])) buf,
        12 + length key + length v,
      )
unfolding pack_data_str image be32
pack_data_str_lem key val buf len fits =
    let k = length key in
    let v = sent val len in
    let p2 = be32 3 ++ be32 k in
    let p3 = p2 ++ key in
    let p4 = p3 ++ be32 (value_size val len) in
    let n2 : length p2 ≡ 8 = refl in
    let n3 : length p3 ≡ 8 + k = omega (arith, length-append p2 key) in
    let n4 : length p4 ≡ 12 + k =
      omega
        (arith, length-append p3 (be32 (value_size val len)), length-be32 (value_size val len)) in
    let n5 : length (p4 ++ v) ≡ 12 + k + value_size val len =
      omega (arith, length-append p4 v, length-sent val len) in
    let s1 = blit-append 0 [] (be32 3) buf refl (omega arith) in
    let s2 = blit-append 4 (be32 3) (be32 k) buf refl (omega arith) in
    let s3 = blit-append 8 p2 key buf refl (omega arith) in
    let s4 =
      blit-append (8 + k) p3 (be32 (value_size val len)) buf (omega arith)
        (omega (arith, length-be32 (value_size val len))) in
    let s5 =
      write_value (8 + k + 4) p4 buf val len (omega arith) (omega (arith, length-sent val len)) in
    let s6 =
      blit-append (8 + k + 4 + value_size val len) (p4 ++ v) (0 ∷ []) buf (omega arith)
        (omega arith) in
    let left : ℕ → Bytes = λ n.
      (((p3 ++ be32 n) ++ v) ++ 0 ∷ []) ++ drop (length (((p3 ++ be32 n) ++ v) ++ 0 ∷ [])) buf in
    let written : pack_data_str key val buf len
        ≡ some (left (value_size val len), 8 + k + 4 + value_size val len) =
      rw (s1, s2, s3, s4, s5, s6) refl in
    let size : 8 + k + 4 + length v ≡ 12 + k + length v = omega arith in
    written
    ∙ ap (λ (n : ℕ). some (left n, 8 + k + 4 + n)) (sym (length-sent val len))
    ∙ ap (λ (n : ℕ). some (left (length v), n)) size

-- `pack_hdf` writes the variable "root" with the text of the data set, cut where it would not fit,
-- and the end mark behind it; it returns the size of both.
abbrev pub root : Bytes
root = b'r' ∷ b'o' ∷ b'o' ∷ b't' ∷ []

pub pack_hdf_lem :
    (ops : HdfOps) (hdf : ops.Hdf) (text buf : Bytes) (len : ℕ)
    → ops.write_string hdf ≡ some text
    → 20 + value_size (some text) len ≤ length buf
    → let v = sent (some text) len in
      pack_hdf ops hdf buf len
      ≡ some (
        (image root v ++ be32 data_type_eof)
            ++ drop (length (image root v ++ be32 data_type_eof)) buf,
        20 + length v,
      )
unfolding pack_hdf
pack_hdf_lem ops hdf text buf len wrote fits =
    let v = sent (some text) len in
    let packed = pack_data_str_lem root (some text) buf len (omega arith) in
    let size : length (image root v) ≡ 16 + length v = length-image root v in
    let im = image root v in
    let n0 = length-append im (0 ∷ []) in
    let n4 = length-append im (be32 0) in
    let rest = drop (length (im ++ 0 ∷ [])) buf in
    let over = blit_at (16 + length v) im (be32 0) (0 ∷ rest) (sym size) (
      omega (
        arith,
        length-drop (length (im ++ 0 ∷ [])) buf,
        length-sent (some text) len,
        length-be32 0,
      )) in
    let place : length (im ++ 0 ∷ []) + 3 ≡ length (im ++ be32 0) = omega (arith, length-be32 0) in
    let again : drop 3 rest ≡ drop (length (im ++ be32 0)) buf =
      drop-drop 3 (length (im ++ 0 ∷ [])) buf ∙ ap (λ n. drop n buf) place in
    let again' : drop (length (be32 0)) (0 ∷ rest) ≡ drop (length (im ++ be32 0)) buf =
      ap (λ n. drop n (0 ∷ rest)) (length-be32 0) ∙ again in
    let total : 16 + length v + 4 ≡ 20 + length v = omega arith in
    rw (wrote, pack_hdf, packed, append_assoc, over)
      (ap (λ (r : Bytes). some (im ++ be32 0 ++ r, 16 + length v + 4)) again'
        ∙ ap (λ (n : ℕ). some (im ++ be32 0 ++ drop (length (im ++ be32 0)) buf, n)) total)
