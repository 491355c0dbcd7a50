-- ===== src/Client/Answer.antt =====
-- The wait of a synchronous request for its reply: `srecv` of client/internal.c, `recv_msg` and
-- `tcp_get_rep` of client/tcp.c. `none` says that the listed results of recv were not enough, or is a
-- fault: a read of bytes that were not received.
pub mod Reads
pub mod Whole
use Prim.Native.Nat.{min}
use moc.Shared.{
  ℕ, zero, suc, ◌-◌, Bool, Option, none, some, List, [], ◌∷◌, ◌++◌, ltb, if◌then◌else◌, ◌>>=◌,
  length, take, drop, Bytes, read32,
}

-- What a call of recv does: it gives at least one byte and at most so many more, or the connection
-- is at its end, or it fails.
pub data Event : Type 0 where
  gives : ℕ → Event
  ended failed : Event

-- The result of a read: bytes, none of them at the end of the connection, or an error.
pub data Got : Type 0 where
  read : Bytes → Got
  error : Got

unfoldable pub behind : Bytes → Got → Got
behind bs (read more) = read (bs ++ more)
behind bs error = error

-- `count` bytes, fewer at the end of the connection; what is left of the events and of the stream.
unfoldable pub srecv : List Event → Bytes → ℕ → Option (Got × List Event × Bytes)
unfolding behind
srecv es stream zero = some (read [], es, stream)
srecv [] stream (suc n) = none
srecv (ended ∷ es) stream (suc n) = some (read [], es, stream)
srecv (failed ∷ es) stream (suc n) = some (error, es, stream)
srecv (gives k ∷ es) [] (suc n) = none
srecv (gives k ∷ es) (b ∷ stream) (suc n) = do
  let m : ℕ = min (suc k) (suc n)
  (got, es', rest) ← srecv es (drop m (b ∷ stream)) (suc n - m)
  some (behind (take m (b ∷ stream)) got, es', rest)

-- More bytes behind those of the first read: none at the end of the connection means 0.
unfoldable pub complete : Bytes → ℕ → List Event → Bytes → Option (Got × List Event × Bytes)
complete buf size es stream =
    if ltb (length buf) size
    then (do
      (got, es', rest) ← srecv es stream (size - length buf)
      elim got [
        | error ↦ some (error, es', rest)
        | read [] ↦ some (read [], es', rest)
        | read (b ∷ more) ↦ some (read (buf ++ (b ∷ more)), es', rest)
      ])
    else some (read buf, es, stream)

-- A message with its length, which the first read may have passed.
unfoldable pub recv_msg : List Event → Bytes → ℕ → Option (Got × List Event × Bytes)
recv_msg [] stream bsize = none
recv_msg (ended ∷ es) stream bsize = some (read [], es, stream)
recv_msg (failed ∷ es) stream bsize = some (error, es, stream)
recv_msg (gives k ∷ es) [] bsize = none
recv_msg (gives k ∷ es) (b ∷ stream) bsize = do
  let m : ℕ = min (suc k) bsize
  (got, es', rest) ← complete (take m (b ∷ stream)) 4 es (drop m (b ∷ stream))
  elim got [
    | error ↦ some (error, es', rest)
    | read [] ↦ some (read [], es', rest)
    | read (c ∷ cs) ↦ do
      msgsize ← read32 (c ∷ cs)
      if ltb bsize msgsize then some (error, es', rest) else complete (c ∷ cs) msgsize es' rest
  ]

-- What `tcp_get_rep` returns: -1, or the code of the reply with its payload.
pub data Rep : Type 0 where
  no_reply : Rep
  reply : ℕ → Bytes → Rep

-- A reply to an earlier request is dropped; fuel bounds how many.
unfoldable pub tcp_get_rep : ℕ → ℕ → List Event → Bytes → ℕ → Option (Rep × List Event × Bytes)
tcp_get_rep zero g_reqid es stream bsize = none
tcp_get_rep (suc fuel) g_reqid es stream bsize = do
  (got, es', rest) ← recv_msg es stream bsize
  elim got [
    | error ↦ some (no_reply, es', rest)
    | read [] ↦ some (no_reply, es', rest)
    | read (b ∷ bs) ↦ do
      id ← read32 (drop 4 (b ∷ bs))
      code ← read32 (drop 8 (b ∷ bs))
      let again = tcp_get_rep fuel g_reqid es' rest bsize
      if ltb id g_reqid then again else some (reply code (drop 12 (b ∷ bs)), es', rest)
  ]
