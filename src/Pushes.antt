-- ===== src/Pushes.antt =====
-- A message that a module pushes, on its whole way: made and sent by the module
-- (plugin/private/base_internal.c), cut into reads by the network, put together by the client's event
-- loop (client/eloop.c, client/mscli.c), and queued for the callback of its command.
use moc.Shared.{
  ℕ, ◌+◌, ◌≡◌, refl, sym, ap, subst, ◌∙◌, true, false, Option, none, some, List, [], ◌∷◌, ◌++◌,
  arith, ◌==◌, ◌≤◌, ◌<◌, length, Bytes, be32,
}
use moc.Client.Loop.{MocSrv, get_elem?, set, el_reads}
use moc.Client.Loop.Reads.{handed, el_reads_within}
use moc.Client.Loop.Room.{Keeps, NonEmpty, concat}
use moc.Client.Packet.{max_packet_len}
use moc.Client.Packet.Write.{sent, length-sent}
use moc.Client.Packet.Trip.{NoNul, arrives, value_size-le}
use moc.Client.Push.{
  NeoErr, PushOps, Events, reserve_node, cmd_key, find_cmd, put_event, handle_msg,
}
use moc.Client.Push.Message.{
  push_message, push_bytes_frame, length-push_message, base_msg_new_lem, msparse_msg-push,
}
use moc.Client.Request.Layout.{body, length-body}
use moc.Plugin.Message.{moc_value, push_bytes, made, base_msg_new, base_msg_send}
use moc.Plugin.Message.Sends.{Enough, base_msg_send_all}
use moc.Server.Decimal.{pos}
use moc.Server.Parse.Accept.{unpack_hdf-body}
use moc.Server.Reply.{Send}
use moc.Server.Tcp.{sbsize}
use moc.Server.Tcp.Decode.{partial, Decodes, Decodes-frame, IsMessage}

module _ (ops : PushOps) where
  open ops use {hdf, get_attr, set_attr, set_value, remove_tree}

  module _ (node : hdf.Hdf) (text : Bytes) (wrote : hdf.write_string node ≡ some text) where
    -- The data set that arrives.
    abbrev pub received : hdf.Hdf
    received = hdf.read_string hdf.init (arrives text max_packet_len)

    -- The client once the event is queued.
    abbrev pub notified : Bytes → Events hdf.Hdf → Events hdf.Hdf
    notified cmd s =
        put_event
          (record { ename = s.ename; cmd = cmd; hdfrcv = remove_tree received reserve_node }) s

    IsMessage-push : IsMessage (push_message (body hdf node text wrote))
    IsMessage-push = omega (
      arith,
      length-push_message (body hdf node text wrote),
      length-body hdf node text wrote,
      length-sent (some text) max_packet_len,
      value_size-le text max_packet_len (omega arith) (omega arith),
    )

    small_push : length (push_bytes (body hdf node text wrote)) ≤ sbsize
    unfolding push_bytes be32
    small_push = omega (
      arith,
      length-body hdf node text wrote,
      length-sent (some text) max_packet_len,
      value_size-le text max_packet_len (omega arith) (omega arith),
    )

    Decodes-push :
        Decodes
          (push_bytes (body hdf node text wrote))
          (push_message (body hdf node text wrote) ∷ [])
          (partial [])
    Decodes-push =
        let b = body hdf node text wrote in
        let m = push_message b in
        let size : length m + 4 ≡ 16 + length b = omega (arith, length-push_message b) in
        subst (λ (s : Bytes). Decodes s (m ∷ []) (partial []))
          (ap (λ (n : ℕ). be32 n ++ m) size ∙ sym (push_bytes_frame b))
          (Decodes-frame m IsMessage-push)

    handle_lem :
        (g_reqid : ℕ) (cmd : Bytes) (s : Events hdf.Hdf)
        → NoNul text
        → find_cmd (get_attr received reserve_node) none ≡ some cmd
        → handed
            (handle_msg ops true g_reqid)
            (push_message (body hdf node text wrote) ∷ [])
            (some s)
          ≡ some (notified cmd s)
    unfolding handed handle_msg
    handle_lem g_reqid cmd s clean found =
        let b = body hdf node text wrote in
        let v = sent (some text) max_packet_len in
        let some_bytes : (20 + length v == 0) ≡ false = ground arith in
        let unpacked = unpack_hdf-body hdf node text wrote clean (length b) hdf.init in
        rw (msparse_msg-push ops g_reqid b s (20 + length v) received cmd unpacked some_bytes found)
          refl

    -- A message that a module makes of a data set, under a command, and sends to a client whose event
    -- loop runs, goes out whole, and however the network cuts it into reads it becomes one event in the callback queue of the client: with the
    -- name of the connection's module, the command, and the data set that the library reads from the
    -- text that was written, less the node for the command. Nothing else of the client changes, and
    -- the connection waits for nothing more.
    -- Conditions: the library puts the command into the data set, writes it as a text without NUL,
    -- and reads back the command; the descriptor is positive, each send takes at least a byte, and
    -- they are enough; the client's connection is open and waits for nothing; no read is empty, and
    -- together they are the message; there is memory.
    pub push-delivery :
        (g_reqid order fd sock : ℕ) (cmd : Bytes) (datanode : hdf.Hdf) (sends : List Send)
        (reads : List Bytes) (servers : List MocSrv) (c : MocSrv) (s : Events hdf.Hdf)
        → 0 < sock
        → set_attr (set_value datanode reserve_node moc_value) reserve_node cmd_key cmd ≡ some node
        → NoNul text
        → find_cmd (get_attr received reserve_node) none ≡ some cmd
        → Enough sends (length (push_bytes (body hdf node text wrote)))
        → get_elem? servers order ≡ some c
        → c.fd ≡ some fd
        → Keeps c []
        → NonEmpty reads
        → concat reads ≡ push_bytes (body hdf node text wrote)
        → let buf = push_bytes (body hdf node text wrote) in
          (c' : MocSrv) × (base_msg_new ops true cmd datanode ≡ some (made buf))
          × (base_msg_send sends buf (pos sock) ≡ some (NeoErr.status_ok, buf))
          × (el_reads (handle_msg ops true g_reqid) reads servers order fd (some s)
              ≡ some (set servers order c', some (notified cmd s)))
          × Keeps c' []
    push-delivery g_reqid order fd sock cmd datanode sends reads servers c s open_sock attr clean
          found enough at e keeps some_each whole =
        let buf = push_bytes (body hdf node text wrote) in
        let m = push_message (body hdf node text wrote) in
        let (c', run, keeps', _) =
          el_reads_within (handle_msg ops true g_reqid) reads servers order fd c [] (some s)
            (m ∷ []) [] at e keeps some_each (rw whole (omega (arith, small_push)))
            (subst (λ (t : Bytes). Decodes t (m ∷ []) (partial [])) (sym whole) Decodes-push) in
        (
          c',
          base_msg_new_lem ops cmd datanode node text wrote attr,
          base_msg_send_all sends buf sock open_sock enough,
          run
              ∙ ap (λ (w : Option (Events hdf.Hdf)). some (set servers order c', w))
                  (handle_lem g_reqid cmd s clean found),
          keeps',
        )
