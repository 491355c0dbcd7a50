-- ===== src/Client/Answer/Whole.antt =====
-- A reply of server/tcp.c is read whole by `tcp_get_rep` of client/tcp.c.
use Prim.Native.Nat.{min}
use moc.Shared.{
  cons_of_length, ℕ, suc, ◌+◌, ◌^◌, ◌≤◌, ◌<◌, ◌≡◌, refl, sym, ap, ◌∙◌, some, List, [], ◌∷◌, ◌++◌,
  arith, le→ltb, length, take, drop, length-take, Bytes, be32, read32, read32-be32,
}
use moc.Client.Answer.{read, recv_msg, reply, tcp_get_rep}
use moc.Server.Reply.{ReqInfo, tcp_reply_long}
use moc.Client.Answer.Reads.{giving, header_of, recv_msg_run, first_reads, other_reads}

-- A message that is all there is to read is read whole, however the kernel cuts it.
recv_msg_lem :
    (msg : Bytes) (ks : List ℕ) (bsize : ℕ)
    → 4 ≤ length msg
    → length msg ≤ bsize
    → read32 msg ≡ some (length msg)
    → length msg ≤ length ks
    → (ks' : List ℕ) × (recv_msg (giving ks) msg bsize ≡ some (read msg, giving ks', []))
recv_msg_lem [] ks bsize four fits size enough = absurd (omega arith)
recv_msg_lem (b ∷ stream) [] bsize four fits size enough = absurd (omega arith)
recv_msg_lem (b ∷ stream) (k ∷ ks) bsize four fits size enough =
    let msg = b ∷ stream in
    let (ks1, p, run1, long, left1) =
      first_reads (min (suc k) bsize) msg ks (omega arith) four (omega arith) in
    let (ks2, run2) = other_reads p msg ks1 left1 in
    let (c, cs, some_read) = cons_of_length (take p msg) (omega (arith, length-take p msg)) in
    (
      ks2,
      recv_msg_run k b bsize c (length msg) stream cs (giving ks) (giving ks1) (drop p msg)
            (rw some_read at run1) (ap read32 (sym some_read) ∙ header_of p msg long four ∙ size)
            fits
          ∙ rw some_read at run2,
    )

-- The reply to the request `g_reqid` or a later one is returned with its code and its payload, however
-- the kernel cuts it.
-- Conditions: the reply has a header, fits the buffer, is all that there is to read, and there are as
-- many events as bytes.
tcp_get_rep_lem :
    (fuel g_reqid id code : ℕ) (msg : Bytes) (ks : List ℕ) (bsize : ℕ)
    → 4 ≤ length msg
    → length msg ≤ bsize
    → read32 msg ≡ some (length msg)
    → read32 (drop 4 msg) ≡ some id
    → read32 (drop 8 msg) ≡ some code
    → g_reqid ≤ id
    → length msg ≤ length ks
    → (ks' : List ℕ) × (tcp_get_rep (suc fuel) g_reqid (giving ks) msg bsize
        ≡ some (reply code (drop 12 msg), giving ks', []))
unfolding tcp_get_rep
tcp_get_rep_lem fuel g_reqid id code [] ks bsize four fits size rid rcode late enough =
    absurd (omega arith)
tcp_get_rep_lem fuel g_reqid id code (b ∷ bs) ks bsize four fits size rid rcode late enough =
    let (ks', run) = recv_msg_lem (b ∷ bs) ks bsize four fits size enough in
    (ks', rw run (rw (rid, rcode, le→ltb id g_reqid late) refl))

-- What the client reads of the four numbers and the value in a long reply.
module _ (total id code vsize : ℕ) (value : Bytes) where
  reply_length :
      length (be32 total ++ be32 id ++ be32 code ++ be32 vsize ++ value) ≡ 16 + length value
  unfolding be32
  reply_length = omega arith

  reply_reads :
      total < 2 ^ 32
      → id < 2 ^ 32
      → code < 2 ^ 32
      → let msg = be32 total ++ be32 id ++ be32 code ++ be32 vsize ++ value in
        (read32 msg ≡ some total)
        × (read32 (drop 4 msg) ≡ some id)
        × (read32 (drop 8 msg) ≡ some code)
        × (drop 12 msg ≡ be32 vsize ++ value)
  unfolding be32
  reply_reads low lowi lowc =
      (read32-be32 total _ low, read32-be32 id _ lowi, read32-be32 code _ lowc, refl)

-- The long reply of the server to the request that waits is returned with its code, and with the size
-- and the bytes of its value, however the kernel cuts it.
-- Conditions: the value fits a packet with its header; code, id and size have 32 bits; the reply is all
-- that there is to read, and there are as many events as bytes.
pub tcp_get_rep-tcp_reply_long :
    (g_reqid id code cmd flags vsize : ℕ) (val : Bytes) (ks : List ℕ) (bsize : ℕ)
    → vsize ≤ length val
    → 16 + vsize ≤ bsize
    → bsize < 2 ^ 32
    → id < 2 ^ 32
    → code < 2 ^ 32
    → g_reqid ≤ id
    → 16 + vsize ≤ length ks
    → let req : ReqInfo = record { id = be32 id; cmd = cmd; flags = flags } in
      (ks' : List ℕ) × (tcp_get_rep 1 g_reqid
          (giving ks)
          (tcp_reply_long req code (some val) vsize)
          bsize
        ≡ some (reply code (be32 vsize ++ take vsize val), giving ks', []))
unfolding tcp_reply_long
tcp_get_rep-tcp_reply_long g_reqid id code cmd flags vsize val ks bsize has fits small low lowc late
      enough =
    let req : ReqInfo = record { id = be32 id; cmd = cmd; flags = flags } in
    let value = take vsize val in
    let size : length (tcp_reply_long req code (some val) vsize) ≡ 16 + vsize =
      omega (arith, length-take vsize val, reply_length (16 + vsize) id code vsize value) in
    let (r1, r2, r3, r4) = reply_reads (16 + vsize) id code vsize value (omega arith) low lowc in
    let (ks', run) =
      tcp_get_rep_lem 0 g_reqid id code (tcp_reply_long req code (some val) vsize) ks bsize
        (omega arith) (omega arith) (r1 ∙ ap some (sym size)) r2 r3 late (omega arith) in
    (ks', run ∙ ap (λ t. some (reply code t, giving ks', [])) r4)
