-- ===== src/Client/Packet.antt =====
-- The payload of a message, client/packet.c: a data set written as one string variable, type, name
-- and value, with lengths in network order, and read back. The data sets are those of the
-- ClearSilver library, an interface here. `none` is a fault: an access outside the buffer.
pub mod Write
pub mod Trip
use moc.Shared.{
  ℕ, ◌+◌, ◌-◌, ◌%◌, ◌^◌, ◌*◌, ◌≡◌, Bool, Option, none, some, List, [], ◌∷◌, ◌++◌, ltb, leb, ◌==◌,
  if◌then◌else◌, ◌>>=◌, length, take, drop, Bytes, be32, read32,
}

-- DATA_TYPE_EOF, DATA_TYPE_STRING, RESERVE_SIZE and MAX_PACKET_LEN.
abbrev pub data_type_eof : ℕ
data_type_eof = 0

abbrev pub data_type_string : ℕ
data_type_string = 3

abbrev pub reserve_size : ℕ
reserve_size = 512

abbrev pub max_packet_len : ℕ
max_packet_len = 64 * 1024

-- A write of `bs` at `off`, a fault past the end of the buffer.
unfoldable pub blit : ℕ → Bytes → Bytes → Option Bytes
blit off bs buf =
    if leb (off + length bs) (length buf)
    then some (take off buf ++ bs ++ drop (off + length bs) buf)
    else none

-- The memory `off` bytes further on.
unfoldable pub advance : ℕ → Bytes → Option Bytes
advance off buf = if leb off (length buf) then some (drop off buf) else none

-- A string of C as it stands in memory; NULL has no bytes to copy.
abbrev pub with_nul : Option Bytes → Bytes
with_nul none = []
with_nul (some s) = s ++ 0 ∷ []

-- The string that a pointer of C stands for, up to the first NUL.
unfoldable pub cstring : Bytes → Option Bytes
cstring [] = none
cstring (b ∷ bs) = let rest = cstring bs in if b == 0 then some [] else do s ← rest; some (b ∷ s)

-- The size that `pack_data_str` gives the value: `size_t` arithmetic.
unfoldable pub value_size : Option Bytes → ℕ → ℕ
value_size val len =
    let vsize = length (with_nul val) in
    let cap = (len + 2 ^ 64 - reserve_size) % 2 ^ 64 in if ltb cap vsize then cap else vsize

unfoldable pub pack_data_str : Bytes → Option Bytes → Bytes → ℕ → Option (Bytes × ℕ)
pack_data_str key val buf len = do
  let ksize = length key
  let vsize = value_size val len
  buf ← blit 0 (be32 data_type_string) buf
  buf ← blit 4 (be32 ksize) buf
  buf ← blit 8 key buf
  buf ← blit (8 + ksize) (be32 vsize) buf
  buf ← if ltb 0 vsize then blit (8 + ksize + 4) (take vsize (with_nul val)) buf else some buf
  buf ← blit (8 + ksize + 4 + vsize) (0 ∷ []) buf
  some (buf, 8 + ksize + 4 + vsize)

-- The size read, in 32 bits, and the place of the value. As in the source `len` is not used.
unfoldable pub unpack_data_str : Option Bytes → ℕ → Option (ℕ × Option Bytes)
unpack_data_str none len = some (0, none)
unpack_data_str (some buf) len = do
  vtype ← read32 buf
  if vtype == data_type_string
      then (do
        pos ← advance 4 buf
        ksize ← read32 pos
        pos ← advance 4 pos
        pos ← advance ksize pos
        let ttsize = (4 + (ksize + 8)) % 2 ^ 32
        vsize ← read32 pos
        pos ← advance 4 pos
        some ((ttsize + (4 + vsize)) % 2 ^ 32, some pos))
      else some (0, none)

-- What the code uses of ClearSilver's data sets: an empty one, reading a string into one, and
-- writing one to a string, which may fail.
pub record HdfOps : Type 1 where
  pub Hdf : Type 0
  pub init : Hdf
  pub read_string : Hdf → Bytes → Hdf
  pub write_string : Hdf → Option Bytes

module _ (ops : HdfOps) where
  open ops use {Hdf, init, read_string, write_string}

  -- `hdf` is the data set that the caller's variable holds before the call.
  unfoldable pub unpack_hdf : Option Bytes → ℕ → Hdf → Option (ℕ × Hdf)
  unpack_hdf none len hdf = some (0, hdf)
  unpack_hdf (some buf) len hdf = do
    (ttsize, val) ← unpack_data_str (some buf) len
    elim val [
      | none ↦ some (ttsize, init)
      | some pos ↦ do s ← cstring pos; some (ttsize, read_string init s)
    ]

  -- "root" is the name of every packet's variable.
  unfoldable pub pack_hdf : Hdf → Bytes → ℕ → Option (Bytes × ℕ)
  pack_hdf hdf buf len = elim (write_string hdf) [
    | none ↦ some (buf, 0)
    | some p ↦ do
      (buf, vsize) ← pack_data_str (b'r' ∷ b'o' ∷ b'o' ∷ b't' ∷ []) (some p) buf len
      buf ← blit vsize (be32 data_type_eof) buf
      some (buf, vsize + 4)
  ]
