-- ===== src/Tests/Pushes.antt =====
-- Messages that modules push to clients, and clients that take them.
use moc.Shared.{
  ℕ, suc, ◌+◌, ◌≡◌, refl, true, none, some, List, [], ◌∷◌, ◌++◌, take, drop, Bytes, length, arith,
  be32,
}
use moc.Client.Loop.{MocSrv, fresh_srv, set, parse_loop, el_reads}
use moc.Client.Loop.Same.{as_socket, as_result, client_calls, msparse_buf-process_buf}
use moc.Client.Loop.Reads.{handed, el_reads-handed}
use moc.Client.Loop.Room.{Keeps, Fit, NonEmpty, concat}
use moc.Client.Packet.Trip.{NoNul}
use moc.Client.Packet.Write.{image, sent}
use moc.Client.Packet.{value_size}
use moc.Client.Push.{NeoErr, PushOps, Events, MsqueueEntry, find_cmd, handle_msg, mcbk_regist}
use moc.Client.Push.Callbacks.{callback_rounds, calls_for, callback_rounds-regist}
use moc.Client.Request.Layout.{body}
use moc.Plugin.Message.{push_bytes, made, base_msg_new, base_msg_send}
use moc.Plugin.Message.Sends.{Enough}
use moc.Pushes.{notified, push-delivery}
use moc.Server.Decimal.{pos}
use moc.Server.Hash.{same_key}
use moc.Server.Reply.{takes}
use moc.Server.Tcp.{process_buf}
use moc.Server.Tcp.Decode.{Decodes, Decodes-frame, partial}
use moc.Tests.{text_ops, base_name, a_is_1, five}
use moc.Tests.Tables.{list_hash}

-- Data sets as texts that begin with a command of four bytes, once one is set.
abbrev pub text_push : PushOps
text_push = record {
  hdf = text_ops;
  get_attr = λ h node. (b'c' ∷ b'm' ∷ b'd' ∷ [], some (take 4 h)) ∷ [];
  set_attr = λ h node key value. some (value ++ h);
  set_value = λ h node value. h;
  remove_tree = λ h node. drop 4 h;
}

-- "join".
abbrev pub join_name : Bytes
join_name = b'j' ∷ b'o' ∷ b'i' ∷ b'n' ∷ []

abbrev pub no_events : Events Bytes
no_events = record {
  ename = base_name;
  hdfrcv = [];
  callbackqueue = [];
  main_signals = 0;
  callback_signals = 0;
}

abbrev joined_text : Bytes
joined_text = join_name ++ a_is_1

abbrev push_body : Bytes
push_body = body text_ops joined_text joined_text refl

fresh-Keeps : Keeps (fresh_srv 5) []
unfolding fresh_srv
fresh-Keeps = (refl, refl)

fresh_fd : (fresh_srv 5).fd ≡ some 5
unfolding fresh_srv
fresh_fd = refl

joined_text-NoNul : NoNul joined_text
joined_text-NoNul = (refl, (refl, (refl, (refl, (refl, (refl, (refl, tt)))))))

join_found : find_cmd (text_push.get_attr joined_text []) none ≡ some join_name
unfolding find_cmd same_key
join_found = refl

-- The message, in two reads.
abbrev push_reads : List Bytes
push_reads = take 10 (push_bytes push_body) ∷ drop 10 (push_bytes push_body) ∷ []

push_reads-NonEmpty : NonEmpty push_reads
unfolding push_bytes image be32 sent value_size
push_reads-NonEmpty = (omega arith, (omega arith, tt))

push_reads_whole : concat push_reads ≡ push_bytes push_body
unfolding push_bytes image be32 sent value_size
push_reads_whole = refl

push_sends-Enough : Enough (takes 20 ∷ takes 90 ∷ []) (length (push_bytes push_body))
unfolding push_bytes image be32 sent value_size
push_sends-Enough = (omega arith, (omega arith, refl))

push-delivery_example :
    let buf = push_bytes push_body in
    (c' : MocSrv) × (base_msg_new text_push true join_name a_is_1 ≡ some (made buf))
    × (base_msg_send (takes 20 ∷ takes 90 ∷ []) buf (pos 6) ≡ some (NeoErr.status_ok, buf))
    × (el_reads (handle_msg text_push true 7) push_reads (fresh_srv 5 ∷ []) 0 5 (some no_events)
        ≡ some (
          set (fresh_srv 5 ∷ []) 0 c',
          some (notified text_push joined_text joined_text refl join_name no_events),
        ))
    × Keeps c' []
push-delivery_example =
    push-delivery text_push joined_text joined_text refl 7 0 5 6 join_name a_is_1
      (takes 20 ∷ takes 90 ∷ []) push_reads (fresh_srv 5 ∷ []) (fresh_srv 5) no_events (omega arith)
      refl joined_text-NoNul join_found push_sends-Enough refl fresh_fd fresh-Keeps
      push_reads-NonEmpty push_reads_whole

-- A connection that counts messages.
abbrev count_message : Bytes → ℕ → ℕ
count_message m w = suc w

abbrev five_frame : Bytes
five_frame = be32 (length five + 4) ++ five

five-Decodes : Decodes five_frame (five ∷ []) (partial [])
five-Decodes = Decodes-frame five (omega arith, omega arith)

msparse_buf-process_buf_example :
    process_buf (client_calls count_message) 3 true (as_socket (fresh_srv 5)) five_frame 0
    ≡ as_result count_message (parse_loop count_message 3 true (fresh_srv 5) five_frame 0)
unfolding fresh_srv
msparse_buf-process_buf_example =
    msparse_buf-process_buf count_message 3 (fresh_srv 5) five_frame 0 (five ∷ []) [] refl
      five-Decodes

abbrev five_reads : List Bytes
five_reads = take 3 five_frame ∷ drop 3 five_frame ∷ []

five_reads-Fit : Fit five_reads
unfolding be32
five_reads-Fit = (omega arith, omega arith, (omega arith, omega arith, tt))

five_reads-Decodes : Decodes (concat five_reads) (five ∷ []) (partial [])
unfolding be32
five_reads-Decodes = five-Decodes

el_reads-handed_example :
    (c' : MocSrv) × (el_reads count_message five_reads (fresh_srv 5 ∷ []) 0 5 0
      ≡ some (set (fresh_srv 5 ∷ []) 0 c', handed count_message (five ∷ []) 0))
    × Keeps c' []
    × (c'.fd ≡ some 5)
el_reads-handed_example =
    el_reads-handed count_message five_reads (fresh_srv 5 ∷ []) 0 5 (fresh_srv 5) [] 0 (five ∷ [])
      [] refl fresh_fd fresh-Keeps five_reads-Fit five_reads-Decodes

abbrev one_event : MsqueueEntry Bytes
one_event = record { ename = base_name; cmd = join_name; hdfrcv = a_is_1 }

callback_rounds-regist_example :
    callback_rounds
      (list_hash ℕ)
      (mcbk_regist (list_hash ℕ) ([], tt) base_name join_name 3)
      2
      (one_event ∷ one_event ∷ [])
    ≡ (calls_for (list_hash ℕ) ([], tt) base_name join_name 3 (one_event ∷ one_event ∷ []), [])
callback_rounds-regist_example =
    callback_rounds-regist (list_hash ℕ) ([], tt) base_name join_name 3 (one_event ∷ one_event ∷ [])
      []
