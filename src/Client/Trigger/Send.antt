-- ===== src/Client/Trigger/Send.antt =====
-- The sending of a request over an open connection.
use moc.Shared.{ℕ, ◌^◌, ◌<◌, ◌≡◌, refl, true, some, arith, ◌==◌, length, Bytes}
use moc.Client.Loop.{MocSrv}
use moc.Client.Packet.{HdfOps}
use moc.Client.Push.{Events}
use moc.Client.Request.{Mevt, next_reqid, lay_out, mevt_request}
use moc.Client.Trigger.{
  System, went, all_went, after_send, Client, emptied, tcp_srv_send, send_request,
}

-- The id of a request is a positive number of 32 bits.
pub next_reqid_bounds : (g_reqid : ℕ) → (0 < next_reqid g_reqid) × (next_reqid g_reqid < 2 ^ 32)
unfolding next_reqid
next_reqid_bounds g_reqid = (ground arith, ground arith)

module _ (hdf : HdfOps) where
  -- The client once the request has gone out.
  abbrev pub sent_off : Client hdf → Mevt hdf.Hdf → Client hdf
  sent_off c evt' = record c {
    evt = record evt' { hdfsnd = hdf.init };
    events = record c.events { hdfrcv = hdf.init };
  }

  pub request_run :
      (g_reqid cmd flags : ℕ) (evt evt' : Mevt hdf.Hdf) (out : Bytes)
      → lay_out hdf (next_reqid g_reqid) cmd flags evt ≡ some (evt', out)
      → mevt_request hdf g_reqid cmd flags evt ≡ some (next_reqid g_reqid, evt', out)
  unfolding mevt_request
  request_run g_reqid cmd flags evt evt' out laid = rw laid refl

module _ (hdf : HdfOps) (set_value : hdf.Hdf → Bytes → Bytes → hdf.Hdf) (no_answer : Bytes) where
  tcp_srv_send_lem :
      (sys : System) (fd : ℕ) (out : Bytes) (srv : MocSrv) (s : Events hdf.Hdf)
      → srv.fd ≡ some fd
      → sys.ssend ≡ went (length out)
      → tcp_srv_send hdf set_value no_answer sys out srv s ≡ some (true, srv, s)
  unfolding tcp_srv_send all_went after_send
  tcp_srv_send_lem sys fd out srv s open' all =
      let same : (length out == length out) ≡ true = ground arith in ground arith

  pub send_request_lem :
      (sys : System) (g_reqid id cmd flags fd : ℕ) (c : Client hdf) (evt' : Mevt hdf.Hdf)
      (out : Bytes)
      → mevt_request hdf g_reqid cmd flags c.evt ≡ some (id, evt', out)
      → c.srv.fd ≡ some fd
      → sys.ssend ≡ went (length out)
      → send_request hdf set_value no_answer sys g_reqid cmd flags c
        ≡ some (id, true, sent_off hdf c evt')
  unfolding send_request emptied
  send_request_lem sys g_reqid id cmd flags fd c evt' out laid open' all =
      rw (send_request, laid, tcp_srv_send_lem sys fd out c.srv c.events open' all) refl
