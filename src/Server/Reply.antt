-- ===== src/Server/Reply.antt =====
-- The replies of server/tcp.c: the bytes that `tcp_reply_mini`, `tcp_reply_long` and
-- `rep_send_error` build, and the loop that sends them (`rep_send`).
pub mod Sends
use Prim.Native.Nat.{min}
use moc.Shared.{
  ℕ, zero, suc, ◌+◌, Bool, true, false, Option, none, some, List, [], ◌∷◌, ◌++◌, ltb, ◌==◌,
  if◌then◌else◌, ◌>>=◌, length, take, drop, Bytes, be32,
}

-- The codes of a reply: REP_OK of client/moc-private.h, and the errors that client/lerr.c registers,
-- in the order that its header gives from 14 on.
abbrev pub rep_ok : ℕ
rep_ok = 1000

abbrev pub rep_err : ℕ
rep_err = 14

abbrev pub rep_err_ver : ℕ
rep_err_ver = 15

abbrev pub rep_err_send : ℕ
rep_err_send = 16

abbrev pub rep_err_broken : ℕ
rep_err_broken = 17

abbrev pub rep_err_unkreq : ℕ
rep_err_unkreq = 18

abbrev pub rep_err_mem : ℕ
rep_err_mem = 19

abbrev pub rep_err_busy : ℕ
rep_err_busy = 21

abbrev pub rep_err_pack : ℕ
rep_err_pack = 22

-- `struct req_info`, as far as replies and modules use it: the four bytes of `id` as they stand in
-- memory, the command and the flags.
pub record ReqInfo : Type 0 where
  pub id : Bytes
  pub cmd : ℕ
  pub flags : ℕ

unfoldable pub tcp_reply_mini : ReqInfo → ℕ → Bytes
tcp_reply_mini req reply = be32 12 ++ req.id ++ be32 reply

-- The buffer of `rep_send_error`.
unfoldable pub error_reply : ReqInfo → ℕ → Bytes
error_reply req code = be32 (4 + 4 + 4 + 4) ++ req.id ++ be32 rep_err ++ be32 code

-- The first `vsize` bytes at `val` are sent; NULL is a miss.
unfoldable pub tcp_reply_long : ReqInfo → ℕ → Option Bytes → ℕ → Bytes
unfolding tcp_reply_mini
tcp_reply_long req reply none vsize = tcp_reply_mini req reply
tcp_reply_long req reply (some val) vsize =
    be32 (4 + 4 + 4 + 4 + vsize) ++ req.id ++ be32 reply ++ be32 vsize ++ take vsize val

-- What a call of send does: it takes up to so many bytes, or none for now, or it fails.
pub data Send : Type 0 where
  takes : ℕ → Send
  would_block fails : Send

-- EAGAIN and EWOULDBLOCK are one number on the server's platform, so that a send that would block is
-- tried again.
-- `buf` is what is left to send. The result is what rep_send returns and the bytes on the wire;
-- `none` says that the listed calls of send were not enough. A failed send is followed by an attempt
-- to send an error reply, of which as many bytes go out as the next call takes.
unfoldable pub rep_send : List Send → ReqInfo → Bytes → Option (Bool × Bytes)
unfolding error_reply
rep_send sends req [] = some (true, [])
rep_send [] req (b ∷ buf) = none
rep_send (would_block ∷ sends) req (b ∷ buf) = rep_send sends req (b ∷ buf)
rep_send (takes zero ∷ sends) req (b ∷ buf) = some (true, [])
rep_send (takes (suc n) ∷ sends) req (b ∷ buf) = do
  (rv, wire) ← rep_send sends req (drop (suc n) (b ∷ buf))
  some (rv, take (suc n) (b ∷ buf) ++ wire)
rep_send (fails ∷ takes n ∷ sends) req (b ∷ buf) =
    some (false, take n (error_reply req rep_err_send))
rep_send (fails ∷ sends) req (b ∷ buf) = some (false, [])
