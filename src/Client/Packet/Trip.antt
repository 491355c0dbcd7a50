-- ===== src/Client/Packet/Trip.antt =====
-- What `unpack_data_str` and `unpack_hdf` of client/packet.c read back of a packed variable.
use moc.Shared.{
  ℕ, ◌+◌, ◌-◌, ◌%◌, ◌^◌, ◌≤◌, ◌<◌, ◌≡◌, refl, sym, ap, false, Option-cases, some, [], ◌∷◌, ◌++◌,
  append_assoc, arith, le→leb, ltb, ◌==◌, if◌then◌else◌, length, take, drop, take_all,
  take-append_of_le, length-append, drop-length, Bytes, be32, read32-be32, Bool-cases, inl, inr,
  zero, suc, length-be32,
}
use moc.Client.Packet.{
  data_type_string, max_packet_len, reserve_size, advance, cstring, value_size, unpack_data_str,
  HdfOps, unpack_hdf, pack_hdf,
}
use moc.Client.Packet.Write.{image, sent, length-sent, root, pack_hdf_lem}

pub advance-append :
    (n : ℕ) (pre rest : Bytes) → n ≡ length pre → advance n (pre ++ rest) ≡ some rest
unfolding advance
advance-append n pre rest at = rw (
  at,
  le→leb (length pre) (length (pre ++ rest)) (omega (arith, length-append pre rest)),
  drop-length pre rest,
)

-- The same bytes, bracketed the way they are read.
image_flat :
    (key v rest : Bytes)
    → image key v ++ rest
      ≡ be32 data_type_string ++ (be32 (length key) ++ (key ++ (be32 (length v) ++ (v ++ rest))))
unfolding image
image_flat key v rest = simp append_assoc

-- A variable is read back, whatever follows it. The size that is returned counts four bytes more
-- than the variable has: those of the end mark behind it.
-- Conditions: the lengths of name and value fit 32 bits together with the header.
pub unpack_data_str-image :
    (key v rest : Bytes) (len : ℕ)
    → 16 + length key + length v < 2 ^ 32
    → unpack_data_str (some (image key v ++ rest)) len
      ≡ some (16 + length key + length v, some (v ++ rest))
unfolding unpack_data_str
unpack_data_str-image key v rest len fits =
    let k = length key in
    let l = length v in
    let end = be32 l ++ (v ++ rest) in
    let size : ((4 + (k + 8)) % 2 ^ 32 + (4 + l)) % 2 ^ 32 ≡ 16 + k + l = omega arith in
    rw
      (
        image_flat key v rest,
        read32-be32 3 (be32 k ++ (key ++ end)) (omega arith),
        advance-append 4 (be32 3) (be32 k ++ (key ++ end)) (sym (length-be32 3)),
        read32-be32 k (key ++ end) (omega arith),
        advance-append 4 (be32 k) (key ++ end) (sym (length-be32 k)),
        advance-append k key end refl,
        read32-be32 l (v ++ rest) (omega arith),
        advance-append 4 (be32 l) (v ++ rest) (sym (length-be32 l)),
      )
      (ap (λ (n : ℕ). some (n, some (v ++ rest))) size)

-- No byte of a string of C is NUL.
abbrev pub NoNul : Bytes → Type 0
NoNul [] = Unit {0}
NoNul (b ∷ bs) = ((b == 0) ≡ false) × NoNul bs

pub cstring-append : (s rest : Bytes) → NoNul s → cstring (s ++ 0 ∷ rest) ≡ some s
unfolding cstring
cstring-append [] rest h = refl
cstring-append (b ∷ s) rest h = rw (h.0, cstring-append s rest h.1)

NoNul-take : (n : ℕ) (s : Bytes) → NoNul s → NoNul (take n s)
NoNul-take zero s h = tt
NoNul-take (suc n) [] h = tt
NoNul-take (suc n) (b ∷ s) h = (h.0, NoNul-take n s h.1)

-- The text that arrives: all of it, or what fits the packet.
abbrev pub arrives : Bytes → ℕ → Bytes
arrives text len = take (len - reserve_size) text

value_size_cut :
    (text : Bytes) (len : ℕ)
    → reserve_size ≤ len
    → len < 2 ^ 64
    → value_size (some text) len
      ≡ (if ltb (len - reserve_size) (length text + 1) then len - reserve_size else length text + 1)
unfolding value_size
value_size_cut text len low high =
    let cap : (len + 2 ^ 64 - reserve_size) % 2 ^ 64 ≡ len - reserve_size = omega arith in
    let size : length (text ++ 0 ∷ []) ≡ length text + 1 =
      omega (arith, length-append text (0 ∷ [])) in
    rw (cap, size)

-- What stands at the place of the value reads as the text that arrives.
pub cstring-sent :
    (text rest : Bytes) (len : ℕ)
    → NoNul text
    → reserve_size ≤ len
    → len < 2 ^ 64
    → cstring (sent (some text) len ++ 0 ∷ rest) ≡ some (arrives text len)
unfolding sent
cstring-sent text rest len clean low high =
    elim (Bool-cases (ltb (len - reserve_size) (length text + 1))) [
      | inl cut ↦
          let fits : len - reserve_size ≤ length text = ground arith in
          rw
            (
              value_size_cut text len low high,
              cut,
              take-append_of_le (len - reserve_size) text (0 ∷ []) fits,
            )
            (cstring-append (arrives text len) rest (NoNul-take (len - reserve_size) text clean))
      | inr whole ↦
          let short : length text ≤ len - reserve_size = ground arith in
          let size : length (text ++ 0 ∷ []) ≤ length text + 1 =
            omega (arith, length-append text (0 ∷ [])) in
          rw
            (
              value_size_cut text len low high,
              whole,
              take_all (length text + 1) (text ++ 0 ∷ []) size,
              take_all (len - reserve_size) text short,
              append_assoc,
            )
            (cstring-append text (0 ∷ rest) clean)
    ]

pub value_size-le :
    (text : Bytes) (len : ℕ)
    → reserve_size ≤ len
    → len < 2 ^ 64
    → value_size (some text) len ≤ len - reserve_size
value_size-le text len low high = ground (arith, value_size_cut text len low high)

module _ (ops : HdfOps) (hdf : ops.Hdf) (text buf : Bytes) (len : ℕ) where
  -- A data set that `pack_hdf` writes into a buffer of the size that it is told fits that buffer, and
  -- `unpack_hdf` reads it back from there: it returns the size that was written, and the data set
  -- that the library reads from the text, which is cut where it is longer than the packet allows.
  -- Conditions: the library wrote the text, without a NUL; the buffer is larger than the reserve
  -- and smaller than 2 ^ 32 - 1 bytes.
  pub unpack_hdf-pack_hdf :
      ops.write_string hdf ≡ some text
      → NoNul text
      → reserve_size ≤ len
      → len ≤ length buf
      → len < 2 ^ 32
      → (old : ops.Hdf)
      → (packed : Bytes) × (size : ℕ) × (pack_hdf ops hdf buf len ≡ some (packed, size))
        × (size ≤ len)
        × (unpack_hdf ops (some packed) len old
            ≡ some (size, ops.read_string ops.init (arrives text len)))
  unfolding unpack_hdf be32
  unpack_hdf-pack_hdf wrote clean low room small old =
      let v = sent (some text) len in
      let size = length-sent (some text) len in
      let bound = value_size-le text len low (omega arith) in
      let end = drop (length (image root v ++ be32 0)) buf in
      let read = unpack_data_str-image root v (be32 0 ++ end) len (omega arith) in
      let line = cstring-sent text (0 ∷ 0 ∷ 0 ∷ end) len clean low (omega arith) in
      (
        (image root v ++ be32 0) ++ end,
        20 + length v,
        pack_hdf_lem ops hdf text buf len wrote (omega arith),
        omega arith,
        rw (append_assoc, read) (rw line),
      )

-- A data set is always packed into a packet, if only as nothing.
pub pack_hdf_total :
    (hdf : HdfOps) (node : hdf.Hdf) (buf : Bytes)
    → max_packet_len ≤ length buf
    → (packed : Bytes) × (vsize : ℕ) × (pack_hdf hdf node buf max_packet_len ≡ some (packed, vsize))
unfolding pack_hdf
pack_hdf_total hdf node buf room = elim (Option-cases (hdf.write_string node)) [
  | inl silent ↦ (buf, 0, rw (pack_hdf, silent) refl)
  | inr (text, wrote) ↦ (
    _,
    _,
    pack_hdf_lem hdf node text buf max_packet_len wrote
        (omega (arith, value_size-le text max_packet_len (omega arith) (omega arith))),
  )
]
