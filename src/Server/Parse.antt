-- ===== src/Server/Parse.antt =====
-- The handling of a message, server/parse.c and `reply_trigger` of server/syscmd.c: the header and
-- the event in it, the module that it goes to, and the server's own events.
-- `none` is a fault: a read outside the message, a read of an uninitialised pointer, or the free of
-- a connection that is in use.
pub mod Message
pub mod Effect
pub mod Whole
pub mod Refuse
pub mod Accept
pub mod Bound
use Prim.Native.Nat.{min}
use moc.Shared.{
  ℕ, zero, suc, ◌≡◌, refl, arith, ◌+◌, ◌-◌, ◌*◌, ◌/◌, ◌%◌, ◌^◌, Bool, true, false, not, ◌&&◌, ◌||◌,
  Option, none, some, List, [], ◌∷◌, ◌++◌, ltb, leb, ◌==◌, if◌then◌else◌, ◌>>=◌, length, take, drop,
  Bytes, be32, read32, read16,
}
use moc.Client.Packet.{HdfOps, max_packet_len, advance, unpack_hdf, pack_hdf}
use moc.Server.Queue.Order.{enqueue}
use moc.Server.Reply.{
  ReqInfo, tcp_reply_mini, tcp_reply_long, rep_ok, rep_err_ver, rep_err_broken, rep_err_unkreq,
  rep_err_mem, rep_err_busy, rep_err_pack,
}
use moc.Server.Mocd.{EventEntry, Moc, find_entry_in_table, update_queue}

-- MAX_QUEUE_ENTRY and PROTO_VER.
abbrev pub max_queue_entry : ℕ
max_queue_entry = 2097152

abbrev pub proto_ver : ℕ
proto_ver = 1

-- What the code uses of data sets besides reading and writing them.
pub record DataOps : Type 1 where
  pub hdf : HdfOps
  pub set_int_value : hdf.Hdf → Bytes → ℕ → hdf.Hdf
  -- `hdf_copy(to, "modules", from)`
  pub copy_modules : hdf.Hdf → hdf.Hdf → hdf.Hdf
  -- `hdf_obj_child(hdf) != NULL`
  pub has_child : hdf.Hdf → Bool

-- `struct stats`.
pub record Stats : Type 0 where
  pub msg_tipc : ℕ
  pub msg_tcp : ℕ
  pub msg_udp : ℕ
  pub msg_sctp : ℕ
  pub net_version_mismatch : ℕ
  pub net_broken_req : ℕ
  pub net_unk_req : ℕ
  pub pro_busy : ℕ

unfoldable pub sys_stats_init : Stats
sys_stats_init = record {
  msg_tipc = 0;
  msg_tcp = 0;
  msg_udp = 0;
  msg_sctp = 0;
  net_version_mismatch = 0;
  net_broken_req = 0;
  net_unk_req = 0;
  pro_busy = 0;
}

-- Which allocations succeed: those of `make_queue_long_entry`, in order, and that of
-- `reply_trigger`.
pub record Memory : Type 0 where
  pub entry : Bool
  pub ecopy : Bool
  pub req : Bool
  pub clisa : Bool
  pub reply : Bool

abbrev pub plenty : Memory
plenty = record { entry = true; ecopy = true; req = true; clisa = true; reply = true }

-- `strncmp(a, b, n) == 0`.
unfoldable pub strncmp_eq : Bytes → Bytes → ℕ → Bool
strncmp_eq a b zero = true
strncmp_eq (x ∷ a) (y ∷ b) (suc n) =
    let rest = strncmp_eq a b n in if x == y then (if x == 0 then true else rest) else false
strncmp_eq a b (suc n) = false

-- "_Reserve.Status" and "_Reserve.Clientmod".
abbrev pub reserve : Bytes
reserve = b'_' ∷ b'R' ∷ b'e' ∷ b's' ∷ b'e' ∷ b'r' ∷ b'v' ∷ b'e' ∷ b'.' ∷ []

abbrev pub status_name : Bytes
status_name = reserve ++ b'S' ∷ b't' ∷ b'a' ∷ b't' ∷ b'u' ∷ b's' ∷ 0 ∷ []

abbrev pub clientmod_name : Bytes
clientmod_name = reserve ++ b'C' ∷ b'l' ∷ b'i' ∷ b'e' ∷ b'n' ∷ b't' ∷ b'm' ∷ b'o' ∷ b'd' ∷ 0 ∷ []

-- `struct queue_entry`, what it carries; its `ename` and `esize` are one list.
pub record QueueItem (Hdf : Type 0) : Type 0 where
  pub operation : ℕ
  pub ename : Bytes
  pub hdfrcv : Hdf
  pub req : ReqInfo

-- The server as the handler of a message sees it: the counters, the table of modules, the
-- configuration's "Client.modules", the request structure of the connection that the message comes
-- from, and the replies sent, the oldest first.
pub record Server (Hdf : Type 0) : Type 0 where
  pub stats : Stats
  pub g_moc : Moc (QueueItem Hdf)
  pub clientmod : Option Hdf
  pub req : ReqInfo
  pub sent : List Bytes

-- `req->reply_mini(req, code)`
unfoldable pub reply_mini : {Hdf : Type 0} → ℕ → Server Hdf → Server Hdf
reply_mini code s = record s { sent = s.sent ++ tcp_reply_mini s.req code ∷ [] }

abbrev pub zeros : ℕ → Bytes
zeros zero = []
zeros (suc n) = 0 ∷ zeros n

pub length-zeros : (n : ℕ) → length (zeros n) ≡ n
length-zeros zero = refl
length-zeros (suc n) = omega (arith, length-zeros n)

-- `sync`: FLAGS_SYNC is 2.
unfoldable pub fill_sync_flag : ReqInfo → Bool
fill_sync_flag req = req.flags / 2 % 2 == 1

module _ (data_ops : DataOps) where
  open data_ops use {hdf, set_int_value, copy_modules, has_child}

  -- What it returns and the reply that it sends.
  unfoldable pub reply_trigger : Bool → hdf.Hdf → ReqInfo → ℕ → Option (Bool × Bytes)
  reply_trigger memory hdfsnd req reply =
      if not (has_child hdfsnd)
      then some (true, tcp_reply_mini req reply)
      else (if not memory then some (false, tcp_reply_mini req rep_err_mem) else (do
        (buf, vsize) ← pack_hdf hdf hdfsnd (zeros max_packet_len) max_packet_len
        if vsize == 0
            then some (false, tcp_reply_mini req rep_err_pack)
            else some (true, tcp_reply_long req reply (some buf) vsize)))

  -- The counters as a data set, under the names of the fields.
  unfoldable pub parse_stats : Memory → Server hdf.Hdf → Option (Server hdf.Hdf)
  unfolding reply_trigger
  parse_stats memory s = do
    let m : Bytes → Bytes = λ t. b'm' ∷ b's' ∷ b'g' ∷ b'_' ∷ t
    let n : Bytes → Bytes = λ t. b'n' ∷ b'e' ∷ b't' ∷ b'_' ∷ t
    let h1 = set_int_value hdf.init (m (b't' ∷ b'i' ∷ b'p' ∷ b'c' ∷ [])) s.stats.msg_tipc
    let h2 = set_int_value h1 (m (b't' ∷ b'c' ∷ b'p' ∷ [])) s.stats.msg_tcp
    let h3 = set_int_value h2 (m (b'u' ∷ b'd' ∷ b'p' ∷ [])) s.stats.msg_udp
    let h4 = set_int_value h3 (m (b's' ∷ b'c' ∷ b't' ∷ b'p' ∷ [])) s.stats.msg_sctp
    let version = b'v' ∷ b'e' ∷ b'r' ∷ b's' ∷ b'i' ∷ b'o' ∷ b'n' ∷ []
    let mismatch = b'_' ∷ b'm' ∷ b'i' ∷ b's' ∷ b'm' ∷ b'a' ∷ b't' ∷ b'c' ∷ b'h' ∷ []
    let h5 = set_int_value h4 (n (version ++ mismatch)) s.stats.net_version_mismatch
    let broken = b'b' ∷ b'r' ∷ b'o' ∷ b'k' ∷ b'e' ∷ b'n' ∷ b'_' ∷ b'r' ∷ b'e' ∷ b'q' ∷ []
    let h6 = set_int_value h5 (n broken) s.stats.net_broken_req
    let unk = b'u' ∷ b'n' ∷ b'k' ∷ b'_' ∷ b'r' ∷ b'e' ∷ b'q' ∷ []
    let h7 = set_int_value h6 (n unk) s.stats.net_unk_req
    let busy = b'p' ∷ b'r' ∷ b'o' ∷ b'_' ∷ b'b' ∷ b'u' ∷ b's' ∷ b'y' ∷ []
    let h8 = set_int_value h7 busy s.stats.pro_busy
    (rv, out) ← reply_trigger memory.reply h8 s.req rep_ok
    some (record s { sent = s.sent ++ out ∷ [] })

  unfoldable pub parse_clientmod : Memory → Server hdf.Hdf → Option (Server hdf.Hdf)
  unfolding reply_trigger reply_mini
  parse_clientmod memory s = elim s.clientmod [
    | none ↦ some (reply_mini rep_err_unkreq s)
    | some node ↦ do
      (rv, out) ← reply_trigger memory.reply (copy_modules hdf.init node) s.req rep_ok
      some (record s { sent = s.sent ++ out ∷ [] })
  ]
