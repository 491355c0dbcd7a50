-- ===== src/Client/Servers.antt =====
-- The servers of an event in client/internal.c: their order (`compare_servers`), and the choice of one
-- for a key (`select_srv`) by a sum over the key's bytes (`checksum`).
pub mod Order
pub mod Choice
use moc.Shared.{
  ℕ, zero, suc, ◌+◌, ◌-◌, ◌*◌, ◌/◌, ◌%◌, ◌^◌, Option, none, some, List, [], ◌∷◌, ltb, ◌==◌,
  if◌then◌else◌, ◌>>=◌, length, Bytes,
}

-- `moc_srv`, as far as it is compared: `sin_addr.s_addr` and `sin_port` as numbers.
pub record Srv : Type 0 where
  pub addr : ℕ
  pub port : ℕ

-- -1, 0 and 1.
pub data Sign : Type 0 where
  less same more : Sign

unfoldable pub compare_servers : Srv → Srv → Sign
compare_servers srv1 srv2 =
    if ltb srv1.addr srv2.addr
    then less
    else (if srv1.addr == srv2.addr
        then (if ltb srv1.port srv2.port
            then less
            else (if srv1.port == srv2.port then same else more))
        else more)

-- A 16-bit number at the front of a buffer, in the byte order of the machine, which is little endian;
-- `none` is a read past the end.
unfoldable pub read_le16 : Bytes → Option ℕ
read_le16 (a ∷ b ∷ rest) = some (a + b * 256)
read_le16 _ = none

-- `buf++` advances by one byte, while the size goes down by two.
unfoldable pub sum_words : Bytes → ℕ → ℕ → Option ℕ
unfolding read_le16
sum_words buf zero sum = some sum
sum_words [] (suc bsize) sum = none
sum_words (b ∷ rest) (suc zero) sum = some ((sum + b) % 2 ^ 32)
sum_words (b ∷ rest) (suc (suc bsize)) sum = do
  w ← read_le16 (b ∷ rest)
  sum_words rest bsize ((sum + w) % 2 ^ 32)

-- `while (sum >> 16)`; fuel bounds the rounds.
unfoldable pub fold_sum : ℕ → ℕ → Option ℕ
fold_sum zero sum = none
fold_sum (suc fuel) sum =
    let rest = fold_sum fuel (sum % 2 ^ 16 + sum / 2 ^ 16) in
    if sum / 2 ^ 16 == 0 then some sum else rest

-- Three rounds are enough. `~sum` has 32 bits.
unfoldable pub checksum : Bytes → Option ℕ
unfolding sum_words fold_sum
checksum buf = do
  sum ← sum_words buf (length buf) 0
  folded ← fold_sum 3 sum
  some (2 ^ 32 - 1 - folded)

-- The place of the server, an inner `none` for NULL.
unfoldable pub select_srv : ℕ → Bytes → Option (Option ℕ)
unfolding checksum
select_srv nservers key =
    if nservers == 0 then some none else (do n ← checksum key; some (some (n % nservers)))
