-- ===== src/Client/Push/Message.antt =====
-- A message that a module makes (plugin/private/base_internal.c) and what `msparse_msg` of
-- client/mscli.c makes of it.
use moc.Shared.{
  ℕ, ◌+◌, ◌-◌, ◌≡◌, refl, sym, ap, ◌∙◌, true, false, none, some, ◌++◌, append_assoc, arith, ltb,
  ◌==◌, le→ltb, length, take, drop, length-append, take-length, drop-length, Bytes, be32,
  length-be32, read32-be32,
}
use moc.Client.Packet.{max_packet_len, unpack_hdf, pack_hdf}
use moc.Client.Packet.Write.{sent, length-sent, pack_hdf_lem}
use moc.Client.Packet.Trip.{value_size-le}
use moc.Client.Request.Layout.{body, length-body}
use moc.Client.Push.{
  PushOps, Events, status_ok, reserve_node, cmd_key, find_cmd, put_event, server_push, msparse_msg,
}
use moc.Plugin.Message.{moc_value, push_bytes, static_buf, made, base_msg_new, length-static_buf}

-- The message behind its length.
unfoldable pub push_message : Bytes → Bytes
push_message packed = be32 0 ++ (be32 10000 ++ (be32 (length packed) ++ packed))

pub drop_of : (pre rest : Bytes) (n : ℕ) → n ≡ length pre → drop n (pre ++ rest) ≡ rest
drop_of pre rest n at = ap (λ k. drop k (pre ++ rest)) at ∙ drop-length pre rest

pub push_bytes_frame :
    (packed : Bytes) → push_bytes packed ≡ be32 (16 + length packed) ++ push_message packed
unfolding push_bytes push_message
push_bytes_frame packed = simp append_assoc

pub length-push_message : (packed : Bytes) → length (push_message packed) ≡ 12 + length packed
unfolding push_message be32
length-push_message packed = omega arith

module _ (ops : PushOps) where
  open ops use {hdf, get_attr, set_attr, set_value, remove_tree}

  -- The message of a data set that the library writes as `text`.
  pub base_msg_new_lem :
      (cmd : Bytes) (datanode node : hdf.Hdf) (text : Bytes)
      (wrote : hdf.write_string node ≡ some text)
      → set_attr (set_value datanode reserve_node moc_value) reserve_node cmd_key cmd ≡ some node
      → base_msg_new ops true cmd datanode ≡ some (made (push_bytes (body hdf node text wrote)))
  unfolding base_msg_new
  base_msg_new_lem cmd datanode node text wrote attr =
      let v = sent (some text) max_packet_len in
      let size = length-sent (some text) max_packet_len in
      let cut = value_size-le text max_packet_len (omega arith) (omega arith) in
      let b = body hdf node text wrote in
      let lb = length-body hdf node text wrote in
      let rest = drop (length b) static_buf in
      let packed : pack_hdf hdf node static_buf max_packet_len ≡ some (b ++ rest, 20 + length v) =
        pack_hdf_lem hdf node text static_buf max_packet_len wrote
          (omega (arith, length-static_buf)) in
      let used : (20 + length v == 0) ≡ false = ground arith in
      let front : take (20 + length v) (b ++ rest) ≡ b =
        ap (λ n. take n (b ++ rest)) (sym lb) ∙ take-length b rest in
      rw (base_msg_new, attr, packed, used, front) refl

  push_lem :
      (packed : Bytes) (s : Events hdf.Hdf) (rv : ℕ) (h : hdf.Hdf) (cmd : Bytes)
      → unpack_hdf hdf (some packed) (length packed) hdf.init ≡ some (rv, h)
      → (rv == 0) ≡ false
      → find_cmd (get_attr h reserve_node) none ≡ some cmd
      → server_push ops true (be32 (length packed) ++ packed) s
        ≡ some (
          status_ok,
          put_event (record { ename = s.ename; cmd = cmd; hdfrcv = remove_tree h reserve_node }) s,
        )
  unfolding server_push
  push_lem packed s rv h cmd unpacked some_bytes found =
      let l = length-append (be32 (length packed)) packed in
      let size : length (be32 (length packed) ++ packed) ≡ 4 + length packed =
        omega (arith, length-be32 (length packed)) in
      let rest : drop 4 (be32 (length packed) ++ packed) ≡ packed =
        drop_of (be32 (length packed)) packed 4 (sym (length-be32 (length packed))) in
      let left : 4 + length packed - 4 ≡ length packed = omega arith in
      rw (size, rest, left, le→ltb (4 + length packed) 4 (omega arith), unpacked, some_bytes, found)
        refl

  -- What `msparse_msg` does with the message of a packed data set.
  pub msparse_msg-push :
      (g_reqid : ℕ) (packed : Bytes) (s : Events hdf.Hdf) (rv : ℕ) (h : hdf.Hdf) (cmd : Bytes)
      → unpack_hdf hdf (some packed) (length packed) hdf.init ≡ some (rv, h)
      → (rv == 0) ≡ false
      → find_cmd (get_attr h reserve_node) none ≡ some cmd
      → msparse_msg ops true g_reqid (push_message packed) s
        ≡ some (
          status_ok,
          put_event (record { ename = s.ename; cmd = cmd; hdfrcv = remove_tree h reserve_node }) s,
        )
  unfolding msparse_msg push_message
  msparse_msg-push g_reqid packed s rv h cmd unpacked some_bytes found =
      let rest = be32 10000 ++ (be32 (length packed) ++ packed) in
      let l = length-push_message packed in
      let id = read32-be32 0 rest (omega arith) in
      let one : drop 4 (be32 0 ++ rest) ≡ rest = drop_of (be32 0) rest 4 (sym (length-be32 0)) in
      let code = read32-be32 10000 (be32 (length packed) ++ packed) (omega arith) in
      let two : drop 8 (be32 0 ++ rest) ≡ be32 (length packed) ++ packed =
        ap (drop 8) (sym (append_assoc (be32 0) (be32 10000) (be32 (length packed) ++ packed)))
        ∙ drop_of (be32 0 ++ be32 10000) (be32 (length packed) ++ packed) 8 (
            omega (arith, length-append (be32 0) (be32 10000), length-be32 0, length-be32 10000)) in
      let long : ltb (length (be32 0 ++ rest)) 8 ≡ false = le→ltb (length (be32 0 ++ rest)) 8 (
        omega (
          arith,
          length-append (be32 0) rest,
          length-be32 0,
          length-append (be32 10000) (be32 (length packed) ++ packed),
          length-be32 10000,
        )) in
      rw (long, id, one, code, two, push_lem packed s rv h cmd unpacked some_bytes found) refl
