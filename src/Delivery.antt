-- ===== src/Delivery.antt =====
-- A request on its whole way: laid out by the client (client/moc.c, client/packet.c), cut into reads
-- by the network, put together by the connection (server/tcp.c), and queued for its module
-- (server/parse.c, server/mocd.c).
use moc.Shared.{
  ℕ, ◌+◌, ◌^◌, ◌≤◌, ◌<◌, ◌≡◌, refl, sym, ap, ◌∙◌, true, false, Option, some, List, [], ◌∷◌, ◌++◌,
  arith, length, length-append, length-be32, Bytes, be32,
}
use moc.Client.Packet.{max_packet_len}
use moc.Client.Packet.Trip.{NoNul}
use moc.Client.Request.{Mevt, lay_out, next_reqid, mevt_request}
use moc.Client.Request.Layout.{
  message, length-message, body, length-body, lay_out_lem, next_reqid_fits,
}
use moc.Server.Mocd.{EventEntry, find_entry_in_table}
use moc.Server.Parse.{DataOps, plenty, QueueItem, Server, fill_sync_flag}
use moc.Server.Parse.Message.{is_busy, parse_message, handled, server_calls}
use moc.Server.Parse.Accept.{request_item, queued, parse_message-request}
use moc.Server.Tcp.{TcpSocket, Calls, Parsed, receive, tcp_newconnection}
use moc.Server.Tcp.Decode.{frames, frames_one, totaltoget-nil, IsMessage}
use moc.Server.Tcp.Unwrap.{deliver, Holds}
use moc.Server.Tcp.Frames.{receive-frames}

module _ (data_ops : DataOps)
    (on_close : ℕ → Option (Server data_ops.hdf.Hdf) → Option (Server data_ops.hdf.Hdf))
    (snd : data_ops.hdf.Hdf) (text : Bytes)
    (wrote : data_ops.hdf.write_string snd ≡ some text) where
  open data_ops use {hdf}

  abbrev pub calls : Calls (Option (Server hdf.Hdf))
  calls = server_calls data_ops plenty on_close

  accept_lem :
      (m : Bytes) (refs refs' : ℕ) (s s' : Server hdf.Hdf)
      → parse_message data_ops plenty m refs
          (record s { stats = record s.stats { msg_tcp = s.stats.msg_tcp + 1 } })
        ≡ some (true, refs', s')
      → calls.parse_message m refs (calls.count_tcp (some s))
        ≡ record { accepted = true; refs = refs'; world = some s' }
  unfolding server_calls handled
  accept_lem m refs refs' s s' run = ap (handled data_ops refs) run

  deliver_one :
      (m : Bytes) (refs refs' : ℕ) (s s' : Server hdf.Hdf)
      → parse_message data_ops plenty m refs
          (record s { stats = record s.stats { msg_tcp = s.stats.msg_tcp + 1 } })
        ≡ some (true, refs', s')
      → deliver calls (m ∷ []) refs (some s)
        ≡ record { accepted = true; refs = refs'; world = some s' }
  unfolding deliver
  deliver_one m refs refs' s s' run = rw (accept_lem m refs refs' s s' run) refl

  -- The server once it has counted the message and read its header.
  abbrev pub counted : QueueItem hdf.Hdf → Server hdf.Hdf → Server hdf.Hdf
  counted item s = record s {
    stats = record s.stats { msg_tcp = s.stats.msg_tcp + 1 };
    req = item.req;
  }

  deliver_request :
      (id cmd flags : ℕ) (ename : Bytes) (s : Server hdf.Hdf) (e : EventEntry (QueueItem hdf.Hdf))
      → id < 2 ^ 28
      → cmd < 2 ^ 16
      → flags < 2 ^ 16
      → NoNul text
      → length ename + length (body hdf snd text wrote) + 4 ≤ max_packet_len
      → find_entry_in_table s.g_moc ename ≡ some e
      → is_busy (length e.op_queue) ≡ false
      → let item = request_item data_ops snd text wrote id cmd flags ename in
        deliver calls (message id cmd flags ename (body hdf snd text wrote) ∷ []) 1 (some s)
        ≡ record {
          accepted = true;
          refs = 2;
          world = some (queued data_ops (fill_sync_flag item.req) item (counted item s));
        }
  deliver_request id cmd flags ename s e low lowc lowf clean fits found free =
      let s1 : Server hdf.Hdf = record s {
        stats = record s.stats { msg_tcp = s.stats.msg_tcp + 1 };
      } in
      let item = request_item data_ops snd text wrote id cmd flags ename in
      deliver_one (message id cmd flags ename (body hdf snd text wrote)) 1 2 s
        (queued data_ops (fill_sync_flag item.req) item (counted item s))
        (parse_message-request data_ops snd text wrote id cmd flags ename 1 s1 e low lowc lowf clean
          fits found free)

  -- One message, on a connection of its own.
  receive_one :
      (newfd refs : ℕ) (m out : Bytes) (sizes : List ℕ) (s : Server hdf.Hdf)
      (w : Option (Server hdf.Hdf))
      → IsMessage m
      → frames (m ∷ []) ++ [] ≡ out
      → deliver calls (m ∷ []) 1 (some s) ≡ record { accepted = true; refs = refs; world = w }
      → length out ≤ length sizes
      → (c : TcpSocket) × (receive calls sizes out (tcp_newconnection newfd) (some s)
          ≡ some (c, w, []))
        × Holds c []
        × (c.refcount ≡ refs)
  receive_one newfd refs m out sizes s w is wire delivered enough =
      let (c, run, holds, count) =
        receive-frames calls newfd (m ∷ []) [] sizes (some s) (is, tt)
          (refl, (4, totaltoget-nil, omega arith)) (rw delivered refl) (rw wire enough) in
      (
        c,
        ap (λ b. receive calls sizes b (tcp_newconnection newfd) (some s)) (sym wire)
            ∙ run
            ∙ ap (λ (p : Parsed (Option (Server hdf.Hdf))). some (c, p.world, [])) delivered,
        holds,
        count ∙ ap (λ (p : Parsed (Option (Server hdf.Hdf))). p.refs) delivered,
      )

  mevt_request_run :
      (g_reqid cmd flags : ℕ) (evt evt' : Mevt hdf.Hdf) (out : Bytes)
      → lay_out hdf (next_reqid g_reqid) cmd flags evt ≡ some (evt', out)
      → mevt_request hdf g_reqid cmd flags evt ≡ some (next_reqid g_reqid, evt', out)
  unfolding mevt_request
  mevt_request_run g_reqid cmd flags evt evt' out laid = rw laid refl

  -- Of a request with any id.
  delivery_of :
      (newfd id cmd flags : ℕ) (evt : Mevt hdf.Hdf) (sizes : List ℕ) (s : Server hdf.Hdf)
      (e : EventEntry (QueueItem hdf.Hdf))
      → id < 2 ^ 28
      → cmd < 2 ^ 16
      → flags < 2 ^ 16
      → NoNul text
      → evt.hdfsnd ≡ snd
      → 16 + length evt.ename + length (body hdf snd text wrote) ≤ max_packet_len
      → 16 + length evt.ename + length (body hdf snd text wrote) ≤ length evt.payload
      → find_entry_in_table s.g_moc evt.ename ≡ some e
      → is_busy (length e.op_queue) ≡ false
      → 16 + length evt.ename + length (body hdf snd text wrote) ≤ length sizes
      → let item = request_item data_ops snd text wrote id cmd flags evt.ename in
        (evt' : Mevt hdf.Hdf) × (out : Bytes) × (c : TcpSocket) × (lay_out hdf id cmd flags evt
          ≡ some (evt', out))
        × (receive calls sizes out (tcp_newconnection newfd) (some s)
            ≡ some (c, some (queued data_ops (fill_sync_flag item.req) item (counted item s)), []))
        × Holds c []
        × (c.refcount ≡ 2)
  delivery_of newfd id cmd flags evt sizes s e low lowc lowf clean same fits room found free
        enough =
      let b = body hdf snd text wrote in
      let m = message id cmd flags evt.ename b in
      let lm = length-message id cmd flags evt.ename b in
      let lb = length-body hdf snd text wrote in
      let (evt', laid) = lay_out_lem hdf snd text wrote id cmd flags evt same room in
      let delivered =
        deliver_request id cmd flags evt.ename s e low lowc lowf clean (omega arith) found free in
      let out = be32 (16 + length evt.ename + length b) ++ m in
      let wire : frames (m ∷ []) ++ [] ≡ out =
        frames_one m (16 + length evt.ename + length b) (omega arith) in
      let size : length out ≡ 16 + length evt.ename + length b = omega (
        arith,
        length-append (be32 (16 + length evt.ename + length b)) m,
        length-be32 (16 + length evt.ename + length b),
      ) in
      let (c, run, holds, refs) =
        receive_one newfd 2 m out sizes s _ (omega arith, omega arith) wire delivered
          (omega arith) in
      (evt', out, c, laid, run, holds, refs)

  -- A request that the client sends on a new connection reaches its module, however the network cuts
  -- its bytes: it lays it out without leaving its buffer; the connection reads all of it, hands it
  -- over once, and waits for nothing more; and the server has it queued for the module, in front if
  -- it is synchronous, with the data set that the library reads from the text that was written. The
  -- connection has two references, its own and that of the queued entry.
  -- Conditions: `g_reqid` has not been set from outside, command and flags have 16 bits; the text of
  -- the data set has no NUL; the request fits a packet and the buffer; the module is there and not
  -- busy; there is memory; there are as many read events as bytes.
  pub request-delivery :
      (newfd g_reqid cmd flags : ℕ) (evt : Mevt hdf.Hdf) (sizes : List ℕ) (s : Server hdf.Hdf)
      (e : EventEntry (QueueItem hdf.Hdf))
      → g_reqid ≤ 0x0FFFFFFD
      → cmd < 2 ^ 16
      → flags < 2 ^ 16
      → NoNul text
      → evt.hdfsnd ≡ snd
      → 16 + length evt.ename + length (body hdf snd text wrote) ≤ max_packet_len
      → 16 + length evt.ename + length (body hdf snd text wrote) ≤ length evt.payload
      → find_entry_in_table s.g_moc evt.ename ≡ some e
      → is_busy (length e.op_queue) ≡ false
      → 16 + length evt.ename + length (body hdf snd text wrote) ≤ length sizes
      → let item = request_item data_ops snd text wrote (next_reqid g_reqid) cmd flags evt.ename in
        (evt' : Mevt hdf.Hdf) × (out : Bytes) × (c : TcpSocket) × (mevt_request hdf g_reqid cmd
            flags evt
          ≡ some (next_reqid g_reqid, evt', out))
        × (receive calls sizes out (tcp_newconnection newfd) (some s)
            ≡ some (c, some (queued data_ops (fill_sync_flag item.req) item (counted item s)), []))
        × Holds c []
        × (c.refcount ≡ 2)
  request-delivery newfd g_reqid cmd flags evt sizes s e low lowc lowf clean same fits room found
        free enough =
      let id = next_reqid g_reqid in
      let (evt', out, c, laid, run, holds, refs) =
        delivery_of newfd id cmd flags evt sizes s e
          (omega (arith, (next_reqid_fits g_reqid low).1)) lowc lowf clean same fits room found free
          enough in
      (evt', out, c, mevt_request_run g_reqid cmd flags evt evt' out laid, run, holds, refs)
