-- ===== src/Server/Parse/Accept.antt =====
-- A request of the client, client/moc.c, handled by `parse_message` of server/parse.c.
use moc.Shared.{
  ℕ, ◌+◌, ◌-◌, ◌/◌, ◌%◌, ◌^◌, ◌≤◌, ◌<◌, ◌≡◌, refl, sym, Bool, true, false, some, [], ◌∷◌, ◌++◌,
  arith, ltb, le→ltb, ◌==◌, length, drop, take-length, length-append, Bytes, be32, be16, read32,
  read16, read32-be32, read16-be16, length-be32,
}
use moc.Client.Packet.{HdfOps, max_packet_len, data_type_eof, unpack_hdf}
use moc.Client.Packet.Write.{sent, length-sent, root}
use moc.Client.Packet.Trip.{
  unpack_data_str-image, cstring-sent, NoNul, arrives, value_size-le, advance-append,
}
use moc.Client.Request.{version_bits}
use moc.Client.Request.Layout.{header, message, length-message, body, length-body}
use moc.Server.Queue.Order.{enqueue}
use moc.Server.Mocd.{EventEntry, find_entry_in_table, update_queue}
use moc.Server.Parse.{DataOps, plenty, QueueItem, Server, proto_ver, fill_sync_flag}
use moc.Server.Parse.Message.{is_busy, put_in_queue_long, parse_event, parse_message}

-- What the header of a message is read as.
module _ (id cmd flags : ℕ) (ename rest : Bytes) where
  pub read_header :
      id < 2 ^ 28
      → cmd < 2 ^ 16
      → flags < 2 ^ 16
      → let msg = message id cmd flags ename rest in
        (read32 msg ≡ some (version_bits + id))
        × (read16 (drop 4 msg) ≡ some cmd)
        × (read16 (drop 6 msg) ≡ some flags)
        × (drop 8 msg ≡ be32 (length ename) ++ (ename ++ rest))
  unfolding message header be32 be16
  read_header low lowc lowf = (
    read32-be32 (version_bits + id) _ (omega arith),
    read16-be16 cmd _ lowc,
    read16-be16 flags _ lowf,
    refl,
  )

-- The data set of a request is read back from the rest of the message.
module _ (ops : HdfOps) (hdf : ops.Hdf) (text : Bytes)
    (wrote : ops.write_string hdf ≡ some text) where
  pub unpack_hdf-body :
      NoNul text
      → (len : ℕ) (old : ops.Hdf)
      → unpack_hdf ops (some (body ops hdf text wrote)) len old
        ≡ some (
          20 + length (sent (some text) max_packet_len),
          ops.read_string ops.init (arrives text max_packet_len),
        )
  unfolding unpack_hdf be32
  unpack_hdf-body clean len old =
      let v = sent (some text) max_packet_len in
      let size = length-sent (some text) max_packet_len in
      let cut = value_size-le text max_packet_len (omega arith) (omega arith) in
      let read = unpack_data_str-image root v (be32 data_type_eof) len (omega arith) in
      let str =
        cstring-sent text (0 ∷ 0 ∷ 0 ∷ []) max_packet_len clean (omega arith) (omega arith) in
      rw (read, str) refl

module _ (data_ops : DataOps) where
  open data_ops use {hdf}

  -- The server after a request for `ename` was queued.
  abbrev pub queued : Bool → QueueItem hdf.Hdf → Server hdf.Hdf → Server hdf.Hdf
  queued sync item s = record s { g_moc = update_queue s.g_moc item.ename (enqueue sync item) }

  put_lem :
      (sync : Bool) (ename : Bytes) (h : hdf.Hdf) (refs : ℕ) (s : Server hdf.Hdf)
      (e : EventEntry (QueueItem hdf.Hdf))
      → find_entry_in_table s.g_moc ename ≡ some e
      → is_busy (length e.op_queue) ≡ false
      → put_in_queue_long data_ops plenty sync ename h refs s
        ≡ some (
          true,
          refs + 1,
          queued sync (record { operation = s.req.cmd; ename = ename; hdfrcv = h; req = s.req }) s,
        )
  unfolding put_in_queue_long
  put_lem sync ename h refs s e found free = ground arith

  module _ (snd : hdf.Hdf) (text : Bytes) (wrote : hdf.write_string snd ≡ some text) where
    -- The entry that a request becomes.
    abbrev pub request_item : ℕ → ℕ → ℕ → Bytes → QueueItem hdf.Hdf
    request_item id cmd flags ename = record {
      operation = cmd;
      ename = ename;
      hdfrcv = hdf.read_string hdf.init (arrives text max_packet_len);
      req = record { id = be32 id; cmd = cmd; flags = flags };
    }

    event_lem :
        (ename : Bytes) (refs : ℕ) (s : Server hdf.Hdf) (e : EventEntry (QueueItem hdf.Hdf))
        → NoNul text
        → length ename + length (body hdf snd text wrote) + 4 ≤ max_packet_len
        → find_entry_in_table s.g_moc ename ≡ some e
        → is_busy (length e.op_queue) ≡ false
        → parse_event data_ops plenty
            (be32 (length ename) ++ (ename ++ body hdf snd text wrote))
            refs
            s
          ≡ some (
            refs + 1,
            queued
                (fill_sync_flag s.req)
                (record {
                  operation = s.req.cmd;
                  ename = ename;
                  hdfrcv = hdf.read_string hdf.init (arrives text max_packet_len);
                  req = s.req;
                })
                s,
          )
    unfolding parse_event
    event_lem ename refs s e clean fits found free =
        let b = body hdf snd text wrote in
        let k = length ename in
        let v = sent (some text) max_packet_len in
        let lb = length-body hdf snd text wrote in
        let e1 = read32-be32 k (ename ++ b) (omega arith) in
        let e2 = advance-append 4 (be32 k) (ename ++ b) (sym (length-be32 k)) in
        let e3 = advance-append k ename b refl in
        let whole : length (be32 k ++ (ename ++ b)) ≡ 4 + k + length b =
          omega
            (arith, length-append (be32 k) (ename ++ b), length-be32 k, length-append ename b) in
        let e4 =
          unpack_hdf-body hdf snd text wrote clean
            ((length (be32 k ++ (ename ++ b)) + 2 ^ 64 - k - 4) % 2 ^ 64) hdf.init in
        let n = 20 + length v in
        let ok1 : (n == 0) ≡ false = ground arith in
        let ok2 : ltb max_packet_len ((n + k) % 2 ^ 32 + 4) ≡ false =
          le→ltb max_packet_len ((n + k) % 2 ^ 32 + 4) (omega arith) in
        let ok3 : ltb (length (be32 k ++ (ename ++ b))) k ≡ false =
          le→ltb (length (be32 k ++ (ename ++ b))) k (omega arith) in
        let got = hdf.read_string hdf.init (arrives text max_packet_len) in
        let put = put_lem (fill_sync_flag s.req) ename got refs s e found free in
        rw (e1, e2, e3, e4) (rw (ok1, ok2, ok3, take-length ename b) (rw put refl))

    -- A request that the client lays out for a module that the server has, and whose queue is not
    -- busy, is accepted: it is queued for that module once, in front if it is synchronous and behind
    -- all others if not, with its command, its name, the data set that was sent, and the id and flags
    -- for the reply. It holds one reference to the connection; no reply is sent.
    -- Conditions: the id has 28 bits, command and flags 16; the text of the data set has no NUL; name
    -- and data set fit a packet; there is memory.
    pub parse_message-request :
        (id cmd flags : ℕ) (ename : Bytes) (refs : ℕ) (s : Server hdf.Hdf)
        (e : EventEntry (QueueItem hdf.Hdf))
        → id < 2 ^ 28
        → cmd < 2 ^ 16
        → flags < 2 ^ 16
        → NoNul text
        → length ename + length (body hdf snd text wrote) + 4 ≤ max_packet_len
        → find_entry_in_table s.g_moc ename ≡ some e
        → is_busy (length e.op_queue) ≡ false
        → let item = request_item id cmd flags ename in
          parse_message data_ops plenty
            (message id cmd flags ename (body hdf snd text wrote))
            refs
            s
          ≡ some
              (true, refs + 1, queued (fill_sync_flag item.req) item (record s { req = item.req }))
    unfolding parse_message
    parse_message-request id cmd flags ename refs s e low lowc lowf clean fits found free =
        let b = body hdf snd text wrote in
        let msg = message id cmd flags ename b in
        let (r1, r2, r3, r4) = read_header id cmd flags ename b low lowc lowf in
        let size : length msg ≡ 12 + length ename + length b =
          length-message id cmd flags ename b in
        let long : ltb (length msg) 17 ≡ false =
          le→ltb (length msg) 17 (omega (arith, length-body hdf snd text wrote)) in
        let ver : ((version_bits + id) / 2 ^ 28 == proto_ver) ≡ true = ground arith in
        let low_id : (version_bits + id) % 2 ^ 28 ≡ id = omega arith in
        let item = request_item id cmd flags ename in
        let ev = event_lem ename refs (record s { req = item.req }) e clean fits found free in
        rw (long, r1, r2, r3, r4) (rw (ver, low_id) (rw ev refl))
