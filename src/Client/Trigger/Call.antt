-- ===== src/Client/Trigger/Call.antt =====
-- A synchronous call and the server's reply to it.
use moc.Shared.{
  ℕ, ◌+◌, ◌-◌, ◌^◌, ◌≤◌, ◌<◌, ◌≡◌, refl, sym, ap, ◌∙◌, Bool, true, false, some, List, [], ◌++◌,
  arith, lt→ltb, ◌==◌, length, take, drop, length-append, length-be32, take-length, take_all, Bytes,
  be32,
}
use moc.Client.Answer.{Event, Rep, reply, tcp_get_rep}
use moc.Client.Answer.Reads.{giving}
use moc.Client.Answer.Whole.{tcp_get_rep-tcp_reply_long}
use moc.Client.Packet.{max_packet_len, pack_hdf, unpack_hdf}
use moc.Client.Packet.Write.{sent, length-sent, pack_hdf_lem}
use moc.Client.Packet.Trip.{NoNul, arrives, value_size-le}
use moc.Client.Push.Message.{drop_of}
use moc.Client.Request.{next_reqid}
use moc.Client.Request.Layout.{body, length-body, message, length-message, lay_out_lem}
use moc.Client.Trigger.{
  System, went, is_sync, Client, take_payload, take_reply, send_request, mevt_trigger,
}
use moc.Client.Trigger.Send.{next_reqid_bounds, sent_off, request_run, send_request_lem}
use moc.Server.Parse.{DataOps, zeros, length-zeros, reply_trigger}
use moc.Server.Parse.Accept.{unpack_hdf-body}
use moc.Server.Reply.{ReqInfo, tcp_reply_long}

module _ (data_ops : DataOps) (set_value : data_ops.hdf.Hdf → Bytes → Bytes → data_ops.hdf.Hdf)
    (no_answer : Bytes) where
  open data_ops use {hdf, has_child}

  take_reply_lem :
      (again : Bool) (code rv : ℕ) (payload : Bytes) (c : Client hdf) (h : hdf.Hdf)
      → (code == 2 ^ 32 - 1) ≡ false
      → 8 < length payload
      → unpack_hdf hdf (some (drop 4 payload)) (length payload - 4) c.events.hdfrcv ≡ some (rv, h)
      → take_reply hdf set_value no_answer again (reply code payload) c
        ≡ some (code, record c { errcode = code; events = record c.events { hdfrcv = h } })
  unfolding take_reply take_payload
  take_reply_lem again code rv payload c h other more unpacked =
      rw (take_reply, other, lt→ltb 8 (length payload) more, unpacked) refl

  mevt_trigger_run :
      (sys : System) (fuel : ℕ) (es es' : List Event) (stream rest : Bytes)
      (g_reqid id cmd flags rv : ℕ) (c c' c'' : Client hdf) (rep : Rep)
      → send_request hdf set_value no_answer sys g_reqid cmd flags c ≡ some (id, true, c')
      → is_sync flags ≡ true
      → tcp_get_rep fuel id es stream max_packet_len ≡ some (rep, es', rest)
      → take_reply hdf set_value no_answer sys.again rep c' ≡ some (rv, c'')
      → mevt_trigger hdf set_value no_answer sys fuel es stream g_reqid cmd flags c
        ≡ some (rv, id, c'')
  unfolding mevt_trigger
  mevt_trigger_run sys fuel es es' stream rest g_reqid id cmd flags rv c c' c'' rep sent' sync got
        taken =
      rw (mevt_trigger, sent', got, taken, sync) refl

  -- The reply that the server's module makes of a data set with something in it.
  module _ (rep : hdf.Hdf) (text : Bytes) (wrote : hdf.write_string rep ≡ some text) where
    abbrev answer : ReqInfo → ℕ → Bytes
    answer req code =
        tcp_reply_long req code (some (body hdf rep text wrote)) (length (body hdf rep text wrote))

    answer_of :
        (req : ReqInfo) (code n : ℕ) (rest : Bytes)
        → n ≡ length (body hdf rep text wrote)
        → tcp_reply_long req code (some (body hdf rep text wrote ++ rest)) n ≡ answer req code
    unfolding tcp_reply_long
    answer_of req code n rest is =
        let b = body hdf rep text wrote in
        rw (is, take-length b rest, take_all (length b) b (omega arith)) refl

    reply_trigger_lem :
        (req : ReqInfo) (code : ℕ)
        → has_child rep ≡ true
        → reply_trigger data_ops true rep req code ≡ some (true, answer req code)
    unfolding reply_trigger
    reply_trigger_lem req code filled =
        let v = sent (some text) max_packet_len in
        let size = length-sent (some text) max_packet_len in
        let cut = value_size-le text max_packet_len (omega arith) (omega arith) in
        let b = body hdf rep text wrote in
        let lb = length-body hdf rep text wrote in
        let rest = drop (length b) (zeros max_packet_len) in
        let packed : pack_hdf hdf rep (zeros max_packet_len) max_packet_len
            ≡ some (b ++ rest, 20 + length v) =
          pack_hdf_lem hdf rep text (zeros max_packet_len) max_packet_len wrote
            (omega (arith, length-zeros max_packet_len)) in
        let used : (20 + length v == 0) ≡ false = ground arith in
        rw (reply_trigger, filled, packed, used)
          (ap (λ (m : Bytes). some (true, m)) (answer_of req code (20 + length v) rest (sym lb)))

    take_body :
        (payload : Bytes)
        → payload ≡ be32 (length (body hdf rep text wrote)) ++ body hdf rep text wrote
        → NoNul text
        → (old : hdf.Hdf)
        → (8 < length payload)
          × (unpack_hdf hdf (some (drop 4 payload)) (length payload - 4) old
              ≡ some (
                20 + length (sent (some text) max_packet_len),
                hdf.read_string hdf.init (arrives text max_packet_len),
              ))
    take_body payload is clean old =
        let b = body hdf rep text wrote in
        let size = length-append (be32 (length b)) b in
        let lb = length-body hdf rep text wrote in
        let at : drop 4 payload ≡ b =
          ap (drop 4) is ∙ drop_of (be32 (length b)) b 4 (sym (length-be32 (length b))) in
        let long : length payload ≡ 4 + length b =
          ap (λ (p : Bytes). length p) is ∙ omega (arith, length-be32 (length b)) in
        (omega arith, rw at (unpack_hdf-body hdf rep text wrote clean (length payload - 4) old))

    -- A synchronous call returns the code of the server's reply, and the data set of the reply is the one
    -- that the library reads from the text that was written, however the kernel cuts the reply; the data
    -- set that was sent is emptied.
    -- Conditions: the request fits its buffer and is sent whole over an open connection; the reply is
    -- to its id, has something in it, is written without NUL, is all that there is to read, and there are
    -- as many events as bytes; its code is below 2 ^ 32 - 1.
    pub mevt_trigger-reply_trigger :
        (snd : hdf.Hdf) (request : Bytes) (wrote' : hdf.write_string snd ≡ some request)
        (sys : System) (g_reqid cmd flags fd code : ℕ) (c : Client hdf) (ks : List ℕ)
        → c.evt.hdfsnd ≡ snd
        → 16 + length c.evt.ename + length (body hdf snd request wrote') ≤ length c.evt.payload
        → c.srv.fd ≡ some fd
        → sys.ssend ≡ went (16 + length c.evt.ename + length (body hdf snd request wrote'))
        → is_sync flags ≡ true
        → has_child rep ≡ true
        → NoNul text
        → code < 2 ^ 32 - 1
        → 16 + length (body hdf rep text wrote) ≤ length ks
        → let req : ReqInfo = record { id = be32 (next_reqid g_reqid); cmd = cmd; flags = flags } in
          (out : Bytes) × (c' : Client hdf) × (reply_trigger data_ops true rep req code
            ≡ some (true, out))
          × (mevt_trigger hdf set_value no_answer sys 1 (giving ks) out g_reqid cmd flags c
              ≡ some (code, next_reqid g_reqid, c'))
          × (c'.errcode ≡ code)
          × (c'.events.hdfrcv ≡ hdf.read_string hdf.init (arrives text max_packet_len))
          × (c'.evt.hdfsnd ≡ hdf.init)
    mevt_trigger-reply_trigger snd request wrote' sys g_reqid cmd flags fd code c ks same room open'
          all sync filled clean low enough =
        let req : ReqInfo = record { id = be32 (next_reqid g_reqid); cmd = cmd; flags = flags } in
        let id = next_reqid g_reqid in
        let b = body hdf rep text wrote in
        let rb = body hdf snd request wrote' in
        let k = length c.evt.ename in
        let (evt', laid) = lay_out_lem hdf snd request wrote' id cmd flags c.evt same room in
        let size : length (be32 (16 + k + length rb) ++ message id cmd flags c.evt.ename rb)
            ≡ 16 + k + length rb =
          omega (
            arith,
            length-append (be32 (16 + k + length rb)) (message id cmd flags c.evt.ename rb),
            length-be32 (16 + k + length rb),
            length-message id cmd flags c.evt.ename rb,
          ) in
        let sent' =
          send_request_lem hdf set_value no_answer sys g_reqid id cmd flags fd c evt' _
            (request_run hdf g_reqid cmd flags c.evt evt' _ laid) open'
            (all ∙ ap (λ (n : ℕ). went n) (sym size)) in
        let lb = length-body hdf rep text wrote in
        let ls = length-sent (some text) max_packet_len in
        let cut = value_size-le text max_packet_len (omega arith) (omega arith) in
        let (ks', got) =
          tcp_get_rep-tcp_reply_long id id code cmd flags (length b) b ks max_packet_len
            (omega arith) (omega arith) (omega arith) (next_reqid_bounds g_reqid).1 (omega arith)
            (omega arith) enough in
        let (more, unpacked) =
          take_body (be32 (length b) ++ take (length b) b)
            (ap (λ (t : Bytes). be32 (length b) ++ t) (take_all (length b) b (omega arith))) clean
            hdf.init in
        let taken =
          take_reply_lem sys.again code _ (be32 (length b) ++ take (length b) b)
            (sent_off hdf c evt') _ (ground arith) more unpacked in
        (
          answer req code,
          _,
          reply_trigger_lem req code filled,
          mevt_trigger_run sys 1 (giving ks) (giving ks') (answer req code) [] g_reqid id cmd flags
              code c (sent_off hdf c evt') _ _ sent' sync got taken,
          refl,
          refl,
          refl,
        )
