-- ===== src/Plugin/Message.antt =====
-- The messages that a module pushes to its users: `base_msg_new` and `base_msg_send` of
-- plugin/private/base_internal.c. `none` is a fault: an access outside a buffer.
pub mod Sends
use Prim.Native.Nat.{min}
use moc.Shared.{
  ℕ, zero, suc, arith, refl, ◌≡◌, ◌+◌, ◌-◌, ◌%◌, ◌^◌, Bool, true, false, not, Option, none, some,
  List, [], ◌∷◌, ◌++◌, ltb, ◌==◌, if◌then◌else◌, ◌>>=◌, length, take, drop, Bytes, be32,
}
use moc.Client.Packet.{max_packet_len, pack_hdf}
use moc.Client.Push.{PushOps, NeoErr, reserve_node, cmd_key}
use moc.Server.Decimal.{ℤ, pos, negsuc}
use moc.Server.Parse.{zeros, length-zeros}
use moc.Server.Reply.{Send, takes, would_block, fails}

-- "moc", the value of the node "_Reserve".
abbrev pub moc_value : Bytes
moc_value = b'm' ∷ b'o' ∷ b'c' ∷ []

-- The bytes of a pushed message: its size, the id 0, the code 10000, and the packed data set with its
-- size.
unfoldable pub push_bytes : Bytes → Bytes
push_bytes packed =
    be32 (16 + length packed) ++ be32 0 ++ be32 10000 ++ be32 (length packed) ++ packed

-- The static buffer, set to zero.
unfoldable pub static_buf : Bytes
static_buf = zeros max_packet_len

pub length-static_buf : length static_buf ≡ max_packet_len
unfolding static_buf
length-static_buf = length-zeros max_packet_len

-- What `base_msg_new` leaves: an error, or the message.
pub data Made : Type 0 where
  refused : NeoErr → Made
  made : Bytes → Made

module _ (ops : PushOps) where
  open ops use {hdf, set_attr, set_value}

  -- `memory` is whether the message is allocated.
  unfoldable pub base_msg_new : Bool → Bytes → hdf.Hdf → Option Made
  unfolding push_bytes
  base_msg_new memory cmd datanode =
      elim (set_attr (set_value datanode reserve_node moc_value) reserve_node cmd_key cmd) [
        | none ↦ some (refused NeoErr.nerr_nomem)
        | some node ↦ do
          (buf, vsize) ← pack_hdf hdf node static_buf max_packet_len
          if vsize == 0
              then some (refused NeoErr.nerr_assert)
              else (if not memory
                  then some (refused NeoErr.nerr_nomem)
                  else some (made (push_bytes (take vsize buf))))
      ]

-- The loop of `base_msg_send`. The result of send is kept in a `size_t`, so that the -1 of a failed
-- send is 2 ^ 64 - 1, and the addition to `c` wraps. `c` is how far the loop is; the result is what the
-- function returns and the bytes on the wire, `none` says that the listed calls of send were not
-- enough.
unfoldable pub send_rounds : List Send → Bytes → ℕ → Option (NeoErr × Bytes)
send_rounds [] buf c = if ltb c (length buf) then none else some (NeoErr.status_ok, [])
send_rounds (takes n ∷ sends) buf c =
    let rv = min n (length buf - c) in
    let rest = send_rounds sends buf (c + rv) in
    if ltb c (length buf)
    then (if rv == length buf
        then some (NeoErr.status_ok, take rv (drop c buf))
        else (if rv == 0
            then some (NeoErr.status_ok, [])
            else (do (err, wire) ← rest; some (err, take rv (drop c buf) ++ wire))))
    else some (NeoErr.status_ok, [])
send_rounds (would_block ∷ sends) buf c =
    let rv = 2 ^ 64 - 1 in
    let rest = send_rounds sends buf ((c + rv) % 2 ^ 64) in
    let again = send_rounds sends buf c in
    if ltb c (length buf)
    then (if rv == length buf
        then some (NeoErr.status_ok, [])
        else (if ltb rv 0 then again else rest))
    else some (NeoErr.status_ok, [])
send_rounds (fails ∷ sends) buf c =
    let rv = 2 ^ 64 - 1 in
    let rest = send_rounds sends buf ((c + rv) % 2 ^ 64) in
    if ltb c (length buf)
    then (if rv == length buf
        then some (NeoErr.status_ok, [])
        else (if ltb rv 0 then some (NeoErr.nerr_io, []) else rest))
    else some (NeoErr.status_ok, [])

-- A descriptor that is not positive is refused.
unfoldable pub base_msg_send : List Send → Bytes → ℤ → Option (NeoErr × Bytes)
unfolding send_rounds
base_msg_send sends buf (pos fd) =
    if fd == 0 then some (NeoErr.nerr_assert, []) else send_rounds sends buf 0
base_msg_send sends buf (negsuc n) = some (NeoErr.nerr_assert, [])
