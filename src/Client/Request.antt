-- ===== src/Client/Request.antt =====
-- The request that `_mevt_trigger` of client/moc.c lays out in the payload buffer of an event, and
-- the length that `tcp_srv_send` of client/tcp.c puts in front. `none` is a fault: an access outside
-- the buffer.
pub mod Layout
use moc.Shared.{
  ℕ, ◌+◌, ◌*◌, ◌%◌, ◌^◌, Bool, Option, none, some, List, [], ◌∷◌, ◌++◌, ltb, if◌then◌else◌, ◌>>=◌,
  length, take, drop, Bytes, be32, be16,
}
use moc.Client.Packet.{HdfOps, max_packet_len, data_type_eof, blit, advance, pack_hdf}

-- TCP_MSG_OFFSET, and PROTO_VER << 28.
abbrev pub tcp_msg_offset : ℕ
tcp_msg_offset = 4

abbrev pub version_bits : ℕ
version_bits = 1 * 2 ^ 28

-- `moc_t`, as far as a request is built from it.
pub record Mevt (Hdf : Type 0) : Type 0 where
  pub ename : Bytes
  pub hdfsnd : Hdf
  pub payload : Bytes
  pub psize : ℕ
  pub cmd : ℕ
  pub flags : ℕ

-- `g_reqid` after `if (g_reqid++ > 0x0FFFFFFC) g_reqid = 1`.
unfoldable pub next_reqid : ℕ → ℕ
next_reqid g_reqid = if ltb 0x0FFFFFFC g_reqid then 1 else (g_reqid + 1) % 2 ^ 32

-- The length in front of the message, and the bytes that `tcp_srv_send` gives to send.
unfoldable pub with_length : Bytes → ℕ → Option (Bytes × Bytes)
with_length buf bsize = do buf ← blit 0 (be32 bsize) buf; some (buf, take bsize buf)

-- Version and id, command, flags, and the name of the module with its size. The id is below 2 ^ 28,
-- so that `|` is a sum.
unfoldable pub lay_out_head : ℕ → ℕ → ℕ → Bytes → Bytes → Option Bytes
lay_out_head g_reqid cmd flags ename payload = do
  p ← blit tcp_msg_offset (be32 (version_bits + g_reqid)) payload
  p ← blit (tcp_msg_offset + 4) (be16 cmd) p
  p ← blit (tcp_msg_offset + 6) (be16 flags) p
  p ← blit (tcp_msg_offset + 8) (be32 (length ename)) p
  blit (tcp_msg_offset + 12) ename p

module _ (ops : HdfOps) where
  open ops use {Hdf}

  -- The event after the request is laid out, with the bytes to send.
  unfoldable pub lay_out : ℕ → ℕ → ℕ → Mevt Hdf → Option (Mevt Hdf × Bytes)
  unfolding with_length lay_out_head
  lay_out g_reqid cmd flags evt = do
    let ksize = length evt.ename
    p ← lay_out_head g_reqid cmd flags evt.ename evt.payload
    let psize = tcp_msg_offset + 12 + ksize
    body ← advance psize p
    (body, vsize) ← pack_hdf ops evt.hdfsnd body max_packet_len
    let p' = take psize p ++ body
    let psize' = psize + vsize
    (p', psize') ←
        if ltb psize' 17
        then (do p ← blit psize' (be32 data_type_eof) p'; some (p, psize' + 4))
        else some (p', psize')
    (payload, out) ← with_length p' psize'
    some (record evt { payload = payload; psize = psize'; cmd = cmd; flags = flags }, out)

  -- `_mevt_trigger` up to the sending: `g_reqid` moves on and is the id of the request. The result has
  -- the new `g_reqid`, the event and the bytes to send.
  unfoldable pub mevt_request : ℕ → ℕ → ℕ → Mevt Hdf → Option (ℕ × Mevt Hdf × Bytes)
  unfolding next_reqid
  mevt_request g_reqid cmd flags evt = do
    let id = next_reqid g_reqid
    (evt', out) ← lay_out id cmd flags evt
    some (id, evt', out)
