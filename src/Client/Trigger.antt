-- ===== src/Client/Trigger.antt =====
-- A call of a module, `_mevt_trigger` of client/moc.c, and `tcp_srv_send` of client/tcp.c: a request
-- is laid out and sent, and a synchronous one waits for its reply, by reading it or, while the event
-- loop runs, until the loop has read it. `none` is a fault, or says that the listed results of recv
-- were not enough.
pub mod Send
pub mod Call
pub mod Wait
use moc.Shared.{
  ℕ, ◌-◌, ◌^◌, ◌%◌, ◌/◌, Bool, true, false, Option, none, some, List, [], ◌∷◌, ltb, ◌==◌,
  if◌then◌else◌, ◌>>=◌, length, drop, Bytes,
}
use moc.Client.Answer.{Event, Rep, no_reply, reply, tcp_get_rep}
use moc.Client.Loop.{MocSrv, fresh_srv}
use moc.Client.Packet.{HdfOps, max_packet_len, unpack_hdf}
use moc.Client.Push.{PushOps, Events, put_event, handle_msg}
use moc.Client.Request.{Mevt, mevt_request}
use moc.Server.Reply.{rep_ok, rep_err, rep_err_send}
use moc.Server.Tcp.{sbsize}

-- "_reconnect", "success", PRE_ERRMSG, and the text for no reply (in the bytes of UTF-8).
abbrev pub reconnect_cmd : Bytes
reconnect_cmd = b'_' ∷ b'r' ∷ b'e' ∷ b'c' ∷ b'o' ∷ b'n' ∷ b'n' ∷ b'e' ∷ b'c' ∷ b't' ∷ []

abbrev pub success_key : Bytes
success_key = b's' ∷ b'u' ∷ b'c' ∷ b'c' ∷ b'e' ∷ b's' ∷ b's' ∷ []

abbrev pub pre_errmsg : Bytes
pre_errmsg =
    b'O' ∷ b'u' ∷ b't' ∷ b'p' ∷ b'u' ∷ b't' ∷ b'.' ∷ b'e' ∷ b'r' ∷ b'r' ∷ b'm' ∷ b's' ∷ b'g' ∷ []

-- FLAGS_SYNC is 2.
unfoldable pub is_sync : ℕ → Bool
is_sync flags = flags / 2 % 2 == 1

-- What `ssend` does: it returns how many bytes went out, or fails because the other side has closed
-- the connection, or fails.
pub data Ssend : Type 0 where
  went : ℕ → Ssend
  pipe_closed failed : Ssend

-- What the system does with a call: whether an event can be allocated, the descriptor of a
-- reconnection, if it succeeds, the sending, and whether a recv fails with EAGAIN.
pub record System : Type 0 where
  pub memory : Bool
  pub reconnect : Option ℕ
  pub ssend : Ssend
  pub again : Bool

-- `ssend` returns the size of the request.
unfoldable pub all_went : Ssend → ℕ → Bool
all_went (went n) bsize = n == bsize
all_went _ bsize = false

unfoldable pub after_send : Ssend → MocSrv → MocSrv
after_send pipe_closed srv = record srv { fd = none }
after_send _ srv = srv

module _ (hdf : HdfOps) where
  -- What a call changes: the event's request, the code of the last reply, the connection, and the
  -- events with the data set that was received.
  pub record Client : Type 0 where
    pub evt : Mevt hdf.Hdf
    pub errcode : ℕ
    pub srv : MocSrv
    pub events : Events hdf.Hdf

-- Data sets, how a value is set in one, and the text of the message for no reply.
module _ (hdf : HdfOps) (set_value : hdf.Hdf → Bytes → Bytes → hdf.Hdf) (no_answer : Bytes) where
  -- The event that tells of a reconnection.
  unfoldable pub notify : Bool → Events hdf.Hdf → Events hdf.Hdf
  notify ok s =
      put_event
        (record {
          ename = s.ename;
          cmd = reconnect_cmd;
          hdfrcv = set_value hdf.init success_key (if ok then b'1' ∷ [] else b'0' ∷ []);
        })
        s

  -- `tcp_srv_send`, with the length in front already. Whether it returns 1, the connection, and the
  -- events. A closed connection is opened again, with a copy of the request on the stack.
  unfoldable pub tcp_srv_send :
      System → Bytes → MocSrv → Events hdf.Hdf → Option (Bool × MocSrv × Events hdf.Hdf)
  unfolding all_went after_send notify fresh_srv
  tcp_srv_send sys out srv s = elim srv.fd [
    | some fd ↦ some (all_went sys.ssend (length out), after_send sys.ssend srv, s)
    | none ↦
        let reconnected : MocSrv = elim sys.reconnect [ none ↦ srv | some fd ↦ fresh_srv fd ] in
        if ltb sbsize (length out)
        then none
        else (if sys.memory
            then elim sys.reconnect [
              | none ↦ some (false, srv, notify false s)
              | some fd ↦ some (all_went sys.ssend (length out), fresh_srv fd, notify true s)
            ]
            else some (false, reconnected, s))
  ]

  -- The event once the request is sent: both data sets are empty.
  unfoldable pub emptied : Client hdf → Client hdf
  emptied c = record c {
    evt = record c.evt { hdfsnd = hdf.init };
    events = record c.events { hdfrcv = hdf.init };
  }

  unfoldable pub set_errmsg : Bytes → Client hdf → Client hdf
  set_errmsg text c = record c {
    events = record c.events { hdfrcv = set_value c.events.hdfrcv pre_errmsg text };
  }

  -- The payload of a reply, if it is more than its size and a header.
  unfoldable pub take_payload : Bytes → Client hdf → Option (Client hdf)
  take_payload payload c =
      if ltb 8 (length payload)
      then (do
        (rv, h) ← unpack_hdf hdf (some (drop 4 payload)) (length payload - 4) c.events.hdfrcv
        some (record c { events = record c.events { hdfrcv = h } }))
      else some c

  -- The reply that `tcp_get_rep` returns; no reply is -1, and so is a reply with the code 2 ^ 32 - 1.
  unfoldable pub take_reply : Bool → Rep → Client hdf → Option (ℕ × Client hdf)
  unfolding set_errmsg take_payload
  take_reply again no_reply c =
      let srv = if again then c.srv else record c.srv { fd = none } in
      some (rep_err, set_errmsg no_answer (record c { errcode = rep_err; srv = srv }))
  take_reply again (reply code payload) c =
      if code == 2 ^ 32 - 1
      then (do
        c' ← take_payload payload (set_errmsg no_answer (record c { errcode = rep_err }))
        some (rep_err, c'))
      else (do c' ← take_payload payload (record c { errcode = code }); some (code, c'))

  -- Up to the sending: the new `g_reqid`, whether the request went out, and the client.
  unfoldable pub send_request : System → ℕ → ℕ → ℕ → Client hdf → Option (ℕ × Bool × Client hdf)
  unfolding tcp_srv_send emptied
  send_request sys g_reqid cmd flags c = do
    (id, evt', out) ← mevt_request hdf g_reqid cmd flags c.evt
    (ok, srv', s') ← tcp_srv_send sys out c.srv c.events
    let c' = record c { evt = evt'; srv = srv'; events = s' }
    some (id, ok, if ok then emptied c' else record c' { errcode = rep_err_send })

  -- `_mevt_trigger` without the event loop, which reads the reply itself, from the results `es` of recv
  -- on the bytes that come in; `fuel` bounds the replies that it reads.
  unfoldable pub mevt_trigger :
      System → ℕ → List Event → Bytes → ℕ → ℕ → ℕ → Client hdf → Option (ℕ × ℕ × Client hdf)
  unfolding send_request take_reply
  mevt_trigger sys fuel es stream g_reqid cmd flags c = do
    (id, ok, c') ← send_request sys g_reqid cmd flags c
    let waited = (do
      (rep, es', rest) ← tcp_get_rep fuel id es stream max_packet_len
      (rv, c'') ← take_reply sys.again rep c'
      some (rv, id, c''))
    if ok
        then (if is_sync flags then waited else some (rep_ok, id, c'))
        else some (rep_err_send, id, c')

module _ (ops : PushOps) (no_answer : Bytes) where
  open ops use {hdf, set_value}

  -- Messages that the event loop handles, one after the other.
  unfoldable pub handle_all : ℕ → List Bytes → Option (Events hdf.Hdf) → Option (Events hdf.Hdf)
  handle_all g_reqid [] s = s
  handle_all g_reqid (m ∷ ms) s = handle_all g_reqid ms (handle_msg ops true g_reqid m s)

  -- The wait of a call while the event loop runs. The loop may handle messages before the call waits
  -- (`early`) or while it does (`late`); only a signal during the wait ends it, and else it ends after
  -- the time that is set.
  unfoldable pub wait_signal : ℕ → List Bytes → List Bytes → Client hdf → Option (ℕ × Client hdf)
  unfolding set_errmsg handle_all
  wait_signal g_reqid early late c = do
    s1 ← handle_all g_reqid early (some c.events)
    s2 ← handle_all g_reqid late (some s1)
    let c' = record c { events = s2 }
    some (
        if ltb s1.main_signals s2.main_signals
        then (rep_ok, c')
        else (rep_err, set_errmsg hdf set_value no_answer no_answer c'))

  -- `_mevt_trigger` while the event loop runs.
  unfoldable pub mevt_trigger_loop :
      System → List Bytes → List Bytes → ℕ → ℕ → ℕ → Client hdf → Option (ℕ × ℕ × Client hdf)
  unfolding send_request wait_signal
  mevt_trigger_loop sys early late g_reqid cmd flags c = do
    (id, ok, c') ← send_request hdf set_value no_answer sys g_reqid cmd flags c
    let waited = (do (rv, c'') ← wait_signal id early late c'; some (rv, id, c''))
    if ok
        then (if is_sync flags then waited else some (rep_ok, id, c'))
        else some (rep_err_send, id, c')
