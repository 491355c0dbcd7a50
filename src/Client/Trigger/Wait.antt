-- ===== src/Client/Trigger/Wait.antt =====
-- What a call that waits while the event loop runs makes of the reply.
use moc.Shared.{
  ℕ, ◌+◌, ◌-◌, ◌^◌, ◌≤◌, ◌<◌, ◌≡◌, refl, sym, ap, ◌∙◌, true, false, some, List, [], ◌∷◌, ◌++◌,
  append_assoc, arith, ltb, leb, le→ltb, ◌==◌, length, drop, length-append, length-be32,
  read32-be32, Bytes, be32,
}
use moc.Client.Packet.{max_packet_len, unpack_hdf}
use moc.Client.Packet.Trip.{NoNul, arrives}
use moc.Client.Push.{PushOps, Events, status_ok, server_response, msparse_msg, handle_msg}
use moc.Client.Push.Message.{drop_of}
use moc.Client.Request.{Mevt, next_reqid, mevt_request}
use moc.Client.Request.Layout.{body}
use moc.Client.Trigger.{
  System, Client, went, is_sync, pre_errmsg, set_errmsg, send_request, handle_all, wait_signal,
  mevt_trigger_loop,
}
use moc.Client.Trigger.Send.{next_reqid_bounds, sent_off, send_request_lem}
use moc.Server.Parse.Accept.{unpack_hdf-body}
use moc.Server.Reply.{rep_ok, rep_err}

-- The message of a reply, behind its length.
unfoldable pub reply_message : ℕ → ℕ → Bytes → Bytes
reply_message id code packed = be32 id ++ (be32 code ++ (be32 (length packed) ++ packed))

module _ (ops : PushOps) (no_answer : Bytes) where
  open ops use {hdf, set_value}

  -- The events once a reply with the data set `h` is there.
  abbrev pub replied : hdf.Hdf → Events hdf.Hdf → Events hdf.Hdf
  replied h s = record s { hdfrcv = h; main_signals = s.main_signals + 1 }

  response_lem :
      (g_reqid id rv : ℕ) (packed : Bytes) (h : hdf.Hdf) (s : Events hdf.Hdf)
      → g_reqid ≤ id
      → unpack_hdf hdf (some packed) (length packed) s.hdfrcv ≡ some (rv, h)
      → (rv == 0) ≡ false
      → server_response ops g_reqid id (be32 (length packed) ++ packed) s
        ≡ some (status_ok, replied h s)
  unfolding server_response
  response_lem g_reqid id rv packed h s late unpacked some_bytes =
      let l = length-append (be32 (length packed)) packed in
      let size : length (be32 (length packed) ++ packed) ≡ 4 + length packed =
        omega (arith, length-be32 (length packed)) in
      let rest : drop 4 (be32 (length packed) ++ packed) ≡ packed =
        drop_of (be32 (length packed)) packed 4 (sym (length-be32 (length packed))) in
      let left : 4 + length packed - 4 ≡ length packed = omega arith in
      let enough : leb 4 (4 + length packed) ≡ true = ground arith in
      rw (server_response, le→ltb id g_reqid late, size, enough, rest, left, unpacked, some_bytes)
        refl

  msparse_msg-response :
      (g_reqid id code rv : ℕ) (packed : Bytes) (h : hdf.Hdf) (s : Events hdf.Hdf)
      → 0 < id
      → id < 2 ^ 32
      → code < 2 ^ 32
      → g_reqid ≤ id
      → unpack_hdf hdf (some packed) (length packed) s.hdfrcv ≡ some (rv, h)
      → (rv == 0) ≡ false
      → msparse_msg ops true g_reqid (reply_message id code packed) s
        ≡ some (status_ok, replied h s)
  unfolding msparse_msg reply_message
  msparse_msg-response g_reqid id code rv packed h s pos low lowc late unpacked some_bytes =
      let payload = be32 (length packed) ++ packed in
      let rest = be32 code ++ payload in
      let e1 = read32-be32 id rest low in
      let one : drop 4 (be32 id ++ rest) ≡ rest = drop_of (be32 id) rest 4 (sym (length-be32 id)) in
      let e2 = read32-be32 code payload lowc in
      let two : drop 8 (be32 id ++ rest) ≡ payload =
        ap (drop 8) (sym (append_assoc (be32 id) (be32 code) payload))
        ∙ drop_of (be32 id ++ be32 code) payload 8 (
            omega (arith, length-append (be32 id) (be32 code), length-be32 id, length-be32 code)) in
      let long : ltb (length (be32 id ++ rest)) 8 ≡ false = le→ltb (length (be32 id ++ rest)) 8 (
        omega (
          arith,
          length-append (be32 id) rest,
          length-be32 id,
          length-append (be32 code) payload,
          length-be32 code,
        )) in
      let other : (id == 0) ≡ false = ground arith in
      rw
        (
          long,
          e1,
          one,
          e2,
          two,
          other,
          response_lem g_reqid id rv packed h s late unpacked some_bytes,
        )
        refl

  wait_lem :
      (id : ℕ) (m : Bytes) (h : hdf.Hdf) (c : Client hdf)
      → msparse_msg ops true id m c.events ≡ some (status_ok, replied h c.events)
      → (wait_signal ops no_answer id [] (m ∷ []) c
          ≡ some (rep_ok, record c { events = replied h c.events }))
        × (wait_signal ops no_answer id (m ∷ []) [] c
            ≡ some (
              rep_err,
              record c { events = replied (set_value h pre_errmsg no_answer) c.events },
            ))
  unfolding wait_signal handle_all handle_msg set_errmsg
  wait_lem id m h c handled =
      let more : ltb c.events.main_signals (c.events.main_signals + 1) ≡ true = ground arith in
      let same : ltb (c.events.main_signals + 1) (c.events.main_signals + 1) ≡ false =
        ground arith in
      (rw (handled, more) refl, rw (handled, same) refl)

  loop_run :
      (sys : System) (early late : List Bytes) (g_reqid id cmd flags rv : ℕ) (c c' c'' : Client hdf)
      → send_request hdf set_value no_answer sys g_reqid cmd flags c ≡ some (id, true, c')
      → is_sync flags ≡ true
      → wait_signal ops no_answer id early late c' ≡ some (rv, c'')
      → mevt_trigger_loop ops no_answer sys early late g_reqid cmd flags c ≡ some (rv, id, c'')
  unfolding mevt_trigger_loop
  loop_run sys early late g_reqid id cmd flags rv c c' c'' sent' sync waited =
      rw (mevt_trigger_loop, sent', waited, sync) refl

  module _ (rep : hdf.Hdf) (text : Bytes) (wrote : hdf.write_string rep ≡ some text) where
    -- The data set of a reply, as it arrives.
    abbrev pub arrived : hdf.Hdf
    arrived = hdf.read_string hdf.init (arrives text max_packet_len)

    -- A synchronous call, while the event loop runs, returns REP_OK with the data set of the reply if the
    -- loop handles the reply while the call waits, whatever the code of the reply; but if the loop handles
    -- it before the call waits, the signal is lost: the call returns REP_ERR at the end of its time, and
    -- puts the message for no reply into the data set.
    -- Conditions: the request is laid out and sent whole over an open connection; the reply is to its id
    -- and written without NUL.
    pub mevt_trigger_loop-order :
        (sys : System) (g_reqid cmd flags fd code : ℕ) (c : Client hdf) (evt' : Mevt hdf.Hdf)
        (out : Bytes)
        → mevt_request hdf g_reqid cmd flags c.evt ≡ some (next_reqid g_reqid, evt', out)
        → c.srv.fd ≡ some fd
        → sys.ssend ≡ went (length out)
        → is_sync flags ≡ true
        → NoNul text
        → code < 2 ^ 32
        → let m = reply_message (next_reqid g_reqid) code (body hdf rep text wrote) in
          ((c' : Client hdf) × (mevt_trigger_loop ops no_answer sys [] (m ∷ []) g_reqid cmd flags c
              ≡ some (rep_ok, next_reqid g_reqid, c'))
            × (c'.events.hdfrcv ≡ arrived)
            × (c'.errcode ≡ c.errcode))
          × ((c' : Client hdf) × (mevt_trigger_loop ops no_answer sys
                  (m ∷ [])
                  []
                  g_reqid
                  cmd
                  flags
                  c
                ≡ some (rep_err, next_reqid g_reqid, c'))
              × (c'.events.hdfrcv ≡ set_value arrived pre_errmsg no_answer))
    mevt_trigger_loop-order sys g_reqid cmd flags fd code c evt' out laid open' all sync clean
          lowc =
        let id = next_reqid g_reqid in
        let b = body hdf rep text wrote in
        let m = reply_message id code b in
        let c1 = sent_off hdf c evt' in
        let sent' =
          send_request_lem hdf set_value no_answer sys g_reqid id cmd flags fd c evt' out laid open'
            all in
        let unpacked = unpack_hdf-body hdf rep text wrote clean (length b) c1.events.hdfrcv in
        let (pos, low) = next_reqid_bounds g_reqid in
        let handled =
          msparse_msg-response id id code _ b arrived c1.events pos low lowc (omega arith) unpacked
            (ground arith) in
        let (on_time, lost) = wait_lem id m arrived c1 handled in
        (
          (
            _,
            loop_run sys [] (m ∷ []) g_reqid id cmd flags rep_ok c c1 _ sent' sync on_time,
            refl,
            refl,
          ),
          (_, loop_run sys (m ∷ []) [] g_reqid id cmd flags rep_err c c1 _ sent' sync lost, refl),
        )
