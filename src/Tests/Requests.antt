-- ===== src/Tests/Requests.antt =====
-- Calls of a module by a client, and how a module serves requests.
use moc.Shared.{
  ◌+◌, ◌≡◌, refl, true, false, none, some, List, [], ◌∷◌, ◌++◌, Bytes, length, arith, be16, be32,
  if◌then◌else◌,
}
use moc.Client.Answer.Reads.{giving}
use moc.Client.Loop.{fresh_srv}
use moc.Client.Packet.{value_size, max_packet_len}
use moc.Client.Packet.Trip.{arrives}
use moc.Client.Packet.Write.{image, sent}
use moc.Client.Request.{next_reqid}
use moc.Client.Request.Layout.{header, message, lay_out_lem}
use moc.Client.Trigger.{System, went, Client, is_sync, mevt_trigger, mevt_trigger_loop}
use moc.Client.Trigger.Call.{mevt_trigger-reply_trigger}
use moc.Client.Trigger.Send.{request_run}
use moc.Client.Trigger.Wait.{reply_message, mevt_trigger_loop-order}
use moc.Plugin.Base.{Ptr}
use moc.Plugin.Chat.{bad_param, cmd_bcst, get_uid}
use moc.Plugin.Chat.Serve.{
  ServeOps, ChatStats, Entry, ChatEntry, Served, of_chat, chat_cmd, dispatch, chat_process_driver,
  result_code,
}
use moc.Plugin.Chat.Serve.Counters.{CountsOnce, IsCounted}
use moc.Plugin.Chat.Serve.Counts.{chat_process_driver-IsCounted}
use moc.Server.Parse.{DataOps, reply_trigger}
use moc.Server.Reply.{rep_ok, rep_err}
use moc.Server.Tcp.{tcp_newconnection}
use moc.Tests.{text_ops, text_data, base_name, a_is_1, bytes_of}
use moc.Tests.Messages.{base_body, base_event, clean}
use moc.Tests.Plugins.{nobody, ann_origin}
use moc.Tests.Pushes.{text_push, no_events}
use moc.Tests.Tables.{list_hash}

-- Every data set has something in it.
abbrev filled_data : DataOps
filled_data = record text_data { has_child = λ h. true }

abbrev keep_all : Bytes → Bytes → Bytes → Bytes
keep_all h name value = h

-- All goes well; the request has 60 bytes at most.
abbrev good_system : System
good_system = record {
  memory = true;
  reconnect = none;
  ssend = went (16 + length base_name + length base_body);
  again = false;
}

abbrev base_client : Client text_ops
base_client = record { evt = base_event; errcode = 0; srv = fresh_srv 5; events = no_events }

client_fd : base_client.srv.fd ≡ some 5
unfolding fresh_srv
client_fd = refl

sync_flag : is_sync 2 ≡ true
unfolding is_sync
sync_flag = refl

mevt_trigger-reply_trigger_example :
    (out : Bytes) × (c' : Client text_ops) × (reply_trigger filled_data true a_is_1
        (record { id = be32 (next_reqid 6); cmd = 1001; flags = 2 })
        1000
      ≡ some (true, out))
    × (mevt_trigger text_ops keep_all [] good_system 1
          (giving (bytes_of 60))
          out
          6
          1001
          2
          base_client
        ≡ some (1000, next_reqid 6, c'))
    × (c'.errcode ≡ 1000)
    × (c'.events.hdfrcv ≡ arrives a_is_1 max_packet_len)
    × (c'.evt.hdfsnd ≡ [])
unfolding image be32 sent value_size
mevt_trigger-reply_trigger_example =
    mevt_trigger-reply_trigger filled_data keep_all [] a_is_1 a_is_1 refl a_is_1 a_is_1 refl
      good_system 6 1001 2 5 1000 base_client (bytes_of 60) refl (omega arith) client_fd refl
      sync_flag refl clean (omega arith) (omega arith)

all_sent :
    went (16 + length base_name + length base_body)
    ≡ went (
        length (
          be32 (16 + length base_name + length base_body)
          ++ message (next_reqid 6) 1001 2 base_name base_body))
unfolding image be32 sent value_size message header be16
all_sent = refl

mevt_trigger_loop-order_example :
    let m = reply_message (next_reqid 6) 14 base_body in
    ((c' : Client text_ops) × (mevt_trigger_loop text_push [] good_system []
          (m ∷ [])
          6
          1001
          2
          base_client
        ≡ some (rep_ok, next_reqid 6, c'))
      × (c'.events.hdfrcv ≡ arrives a_is_1 max_packet_len)
      × (c'.errcode ≡ 0))
    × ((c' : Client text_ops) × (mevt_trigger_loop text_push [] good_system
            (m ∷ [])
            []
            6
            1001
            2
            base_client
          ≡ some (rep_err, next_reqid 6, c'))
        × (c'.events.hdfrcv ≡ arrives a_is_1 max_packet_len))
unfolding image be32 sent value_size
mevt_trigger_loop-order_example =
    let laid =
      lay_out_lem text_ops a_is_1 a_is_1 refl (next_reqid 6) 1001 2 base_event refl (omega arith) in
    mevt_trigger_loop-order text_push [] a_is_1 a_is_1 refl good_system 6 1001 2 5 14 base_client
      laid.0
      (be32 (16 + length base_name + length base_body)
        ++ message (next_reqid 6) 1001 2 base_name base_body)
      (request_run text_ops 6 1001 2 base_event laid.0 _ laid.1) client_fd all_sent sync_flag clean
      (omega arith)

-- Data sets without anything in them, and errors without a text.
abbrev text_serve : ServeOps
text_serve = record {
  push = text_push;
  get_value = λ h name. none;
  get_obj = λ h name. none;
  get_node = λ h name. none;
  set_int_value = λ h name value. h;
  copy_modules = λ h node. h;
  has_child = λ h. false;
  traceback = λ code. [];
  desc = λ code. [];
}

abbrev no_requests : ChatStats
no_requests = record {
  msg_total = 0;
  msg_unrec = 0;
  msg_badparam = 0;
  msg_stats = 0;
  proc_suc = 0;
  proc_fai = 0;
}

abbrev chat_entry : ChatEntry (list_hash Ptr) text_serve
chat_entry = record { cd = none; st = no_requests; base = nobody }

abbrev chat_counted : ChatEntry (list_hash Ptr) text_serve
chat_counted = record chat_entry { st = record no_requests { msg_total = 1 } }

-- A broadcast over a connection on which no one has joined.
abbrev bcst_entry : Entry Bytes
bcst_entry = record {
  operation = 1011;
  request = record {
    req = record { id = be32 7; cmd = 1011; flags = 2 };
    hdfrcv = a_is_1;
    hdfsnd = [];
  };
  origin = ann_origin;
  memory = true;
  reply_memory = true;
  fresh = none;
  time = 0;
}

abbrev refused_bcst : Served (list_hash Ptr) text_serve
refused_bcst = of_chat (list_hash Ptr) text_serve chat_counted [] (bad_param, [], nobody)

bcst_dispatched : dispatch (list_hash Ptr) text_serve bcst_entry chat_counted ≡ some refused_bcst
unfolding dispatch chat_cmd cmd_bcst get_uid tcp_newconnection
bcst_dispatched = refl

no_requests-IsCounted : IsCounted no_requests
no_requests-IsCounted = record { total = refl; failures = omega arith; successes = omega arith }

chat_process_driver-IsCounted_example :
    (replies : List Bytes) × (e' : ChatEntry (list_hash Ptr) text_serve) × (chat_process_driver
        (list_hash Ptr)
        text_serve
        bcst_entry
        chat_entry
      ≡ some (replies, refused_bcst.pushed, e'))
    × CountsOnce (result_code refused_bcst.err) no_requests e'.st
    × IsCounted e'.st
    × (length replies ≡ (if is_sync 2 then 1 else 0))
    × (e'.base ≡ refused_bcst.entry.base)
chat_process_driver-IsCounted_example =
    chat_process_driver-IsCounted (list_hash Ptr) text_serve bcst_entry chat_entry refused_bcst
      no_requests-IsCounted bcst_dispatched
