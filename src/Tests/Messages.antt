-- ===== src/Tests/Messages.antt =====
-- Requests on their way to a module.
use moc.Shared.{
  zero, suc, ◌++◌, IsBytes, ℕ, ◌≤◌, ◌≡◌, refl, true, false, none, some, [], ◌∷◌, Bytes, length,
  arith, be32,
}
use moc.Client.Packet.{unpack_hdf, pack_hdf, value_size}
use moc.Client.Packet.Write.{image, sent}
use moc.Client.Packet.Trip.{NoNul, arrives, unpack_hdf-pack_hdf}
use moc.Client.Request.{Mevt, next_reqid, mevt_request}
use moc.Client.Request.Layout.{message, body}
use moc.Server.Hash.{same_key}
use moc.Server.Mocd.{find_entry_in_table, moc_start}
use moc.Server.Mocd.Finds.{latest, moc_start-finds}
use moc.Server.Reply.{rep_err_ver}
use moc.Server.Parse.{zeros, plenty, QueueItem, fill_sync_flag}
use moc.Server.Parse.Message.{is_busy, parse_message}
use moc.Server.Parse.Accept.{request_item, queued, parse_message-request}
use moc.Server.Parse.Effect.{Effect}
use moc.Server.Parse.Whole.{parse_message-Effect}
use moc.Server.Parse.Refuse.{Verdict, is_refused, parse_message-refuses}
use moc.Server.Parse.Bound.{IsBounded, parse_message-IsBounded}
use moc.Server.Tcp.{TcpSocket, receive, tcp_newconnection}
use moc.Server.Tcp.Unwrap.{Holds}
use moc.Delivery.{counted, calls, request-delivery}
use moc.Tests.{
  text_ops, text_data, base_name, a_is_1, base_entry, base_server, base_driver, old_driver,
  bytes_of,
}

abbrev pub base_body : Bytes
base_body = body text_ops a_is_1 a_is_1 refl

abbrev pub base_event : Mevt Bytes
base_event = record {
  ename = base_name;
  hdfsnd = a_is_1;
  payload = bytes_of 60;
  psize = 0;
  cmd = 0;
  flags = 0;
}

pub clean : NoNul a_is_1
clean = (refl, (refl, (refl, tt)))

base_found : find_entry_in_table base_server.g_moc base_name ≡ some base_entry
unfolding same_key
base_found = moc_start-finds (some base_driver ∷ []) base_name (omega arith)

not_busy : is_busy (length base_entry.op_queue) ≡ false
unfolding is_busy
not_busy = refl

abbrev base_item : QueueItem Bytes
base_item = request_item text_data a_is_1 a_is_1 refl 7 1001 2 base_name

request-delivery_example :
    (evt' : Mevt Bytes) × (out : Bytes) × (c : TcpSocket) × (mevt_request text_ops 6 1001 2
        base_event
      ≡ some (next_reqid 6, evt', out))
    × (receive
          (calls text_data (λ appdata w. w) a_is_1 a_is_1 refl)
          (bytes_of 60)
          out
          (tcp_newconnection 5)
          (some base_server)
        ≡ some (
          c,
          some (
              queued text_data
                (fill_sync_flag base_item.req)
                base_item
                (counted text_data (λ appdata w. w) a_is_1 a_is_1 refl base_item base_server)),
          [],
        ))
    × Holds c []
    × (c.refcount ≡ 2)
unfolding image be32 sent value_size next_reqid
request-delivery_example =
    request-delivery text_data (λ appdata w. w) a_is_1 a_is_1 refl 5 6 1001 2 base_event
      (bytes_of 60) base_server base_entry (omega arith) (omega arith) (omega arith) clean refl
      (omega arith) (omega arith) base_found not_busy (omega arith)

parse_message-request_example :
    parse_message text_data plenty (message 7 1001 2 base_name base_body) 1 base_server
    ≡ some (
      true,
      2,
      queued text_data
          (fill_sync_flag base_item.req)
          base_item
          (record base_server { req = base_item.req }),
    )
unfolding image be32 sent value_size
parse_message-request_example =
    parse_message-request text_data a_is_1 a_is_1 refl 7 1001 2 base_name 1 base_server base_entry
      (omega arith) (omega arith) (omega arith) clean (omega arith) base_found not_busy

unpack_hdf-pack_hdf_example :
    (packed : Bytes) × (size : ℕ) × (pack_hdf text_ops a_is_1 (bytes_of 600) 600
      ≡ some (packed, size))
    × (size ≤ 600)
    × (unpack_hdf text_ops (some packed) 600 [] ≡ some (size, arrives a_is_1 600))
unpack_hdf-pack_hdf_example =
    unpack_hdf-pack_hdf text_ops a_is_1 a_is_1 (bytes_of 600) 600 refl clean (omega arith)
      (omega arith) (omega arith) []

moc_start-finds_example :
    find_entry_in_table
      (moc_start {A = ℕ} (some old_driver ∷ none ∷ some base_driver ∷ []))
      base_name
    ≡ latest (some old_driver ∷ none ∷ some base_driver ∷ []) base_name none
moc_start-finds_example =
    moc_start-finds (some old_driver ∷ none ∷ some base_driver ∷ []) base_name (omega arith)

zeros-IsBytes : (n : ℕ) → IsBytes (zeros n)
zeros-IsBytes zero = tt
zeros-IsBytes (suc n) = (omega arith, zeros-IsBytes n)

-- A message of version 2, with the id 5, 1, 2, 3.
abbrev version_2 : Bytes
version_2 = 37 ∷ 1 ∷ 2 ∷ 3 ∷ zeros 13

parse_message-refuses_example :
    Verdict
      (is_refused version_2)
      (be32 12 ++ (3 ∷ 2 ∷ 1 ∷ 5 ∷ []) ++ be32 rep_err_ver)
      1
      base_server
      (parse_message text_data plenty version_2 1 base_server)
parse_message-refuses_example =
    parse_message-refuses text_data plenty version_2 1 base_server
      (omega arith, (omega arith, (omega arith, (omega arith, zeros-IsBytes 13))))

parse_message-Effect_example : Effect base_server (
    queued text_data
      (fill_sync_flag base_item.req)
      base_item
      (record base_server { req = base_item.req }))
parse_message-Effect_example =
    parse_message-Effect text_data plenty (message 7 1001 2 base_name base_body) 1 base_server true
      2
      (queued text_data (fill_sync_flag base_item.req) base_item
        (record base_server { req = base_item.req }))
      parse_message-request_example

short_table : IsBounded base_server.g_moc
short_table key e found =
    ground (arith, moc_start-finds {A = QueueItem Bytes} (some base_driver ∷ []) key (omega arith))

parse_message-IsBounded_example :
    IsBounded
      (queued text_data
        (fill_sync_flag base_item.req)
        base_item
        (record base_server { req = base_item.req })).g_moc
parse_message-IsBounded_example =
    parse_message-IsBounded text_data plenty (message 7 1001 2 base_name base_body) 1 base_server
      true 2
      (queued text_data (fill_sync_flag base_item.req) base_item
        (record base_server { req = base_item.req }))
      parse_message-request_example short_table
