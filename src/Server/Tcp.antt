-- ===== src/Server/Tcp.antt =====
-- A connection of the server, server/tcp.c: its reference count, the cutting of the received bytes
-- into messages (`tcp_recv`, `process_buf`), and its end. The handler of a message, in
-- server/parse.c, and the close handler that a plugin sets are an interface here.
pub mod Decode
pub mod Close
pub mod Unwrap
pub mod Read
pub mod Stream
pub mod Frames
use Prim.Native.Nat.{min}
use moc.Shared.{
  ℕ, zero, suc, ◌+◌, ◌-◌, ◌*◌, Bool, true, false, ◌||◌, Option, none, some, List, [], ◌∷◌, ◌++◌,
  ltb, leb, ◌==◌, if◌then◌else◌, ◌>>=◌, length, take, drop, Bytes, read32,
}

-- SBSIZE, and the largest message.
abbrev pub sbsize : ℕ
sbsize = 68 * 1024

abbrev pub max_message : ℕ
max_message = 64 * 1024

-- `struct tcp_socket`. `fd` is `none` for -1, `evt` says that the read event is registered, `buf`
-- holds the first `len` bytes of the temporary buffer, `on_close` the application's data if a close
-- handler is set, and `alive` is false once the structure has been freed.
pub record TcpSocket : Type 0 where
  pub refcount : ℕ
  pub fd : Option ℕ
  pub evt : Bool
  pub buf : Option Bytes
  pub pktsize : ℕ
  pub len : ℕ
  pub excess : ℕ
  pub on_close : Option ℕ
  pub alive : Bool

-- What `parse_message` leaves: its result, the count of references to the connection, since a
-- queued entry holds one, and the rest of the server.
pub record Parsed (W : Type 0) : Type 0 where
  pub accepted : Bool
  pub refs : ℕ
  pub world : W

-- The parts of the server that a connection calls, over the server's state `W`.
pub record Calls (W : Type 0) : Type 0 where
  -- `g_stat.msg_tcp++`
  pub count_tcp : W → W
  pub parse_message : Bytes → ℕ → W → Parsed W
  -- `tcpsock->on_close(tcpsock->appdata)`
  pub on_close : ℕ → W → W

-- The socket that `tcp_newconnection` sets up on an accepted descriptor.
unfoldable pub tcp_newconnection : ℕ → TcpSocket
tcp_newconnection newfd = record {
  refcount = 1;
  fd = some newfd;
  evt = true;
  buf = none;
  pktsize = 0;
  len = 0;
  excess = 0;
  on_close = none;
  alive = true;
}

-- The size of the message at the front of the buffer, four bytes until it can be read; `none` if
-- the message is too big or too small.
unfoldable pub totaltoget : Bytes → Option ℕ
totaltoget buf =
    if leb 4 (length buf)
    then (do n ← read32 buf; if ltb max_message n || leb n 8 then none else some n)
    else some 4

unfoldable pub tcp_socket_add_ref : TcpSocket → TcpSocket
tcp_socket_add_ref c = record c { refcount = c.refcount + 1 }

-- The end of `process_buf` with no leftovers: the temporary buffer is freed.
unfoldable pub release_buf : TcpSocket → TcpSocket
release_buf c = elim c.buf [
  | none ↦ c
  | some _ ↦ record c { buf = none; len = 0; pktsize = 0; excess = 0 }
]

module _ {W : Type 0} (calls : Calls W) where
  open calls use {count_tcp, parse_message, on_close as handle_close}

  unfoldable pub tcp_socket_free : TcpSocket → W → TcpSocket × W
  tcp_socket_free c w = (
    record c { fd = none; evt = false; buf = none; on_close = none; alive = false },
    elim c.on_close [ none ↦ w | some appdata ↦ handle_close appdata w ],
  )

  unfoldable pub tcp_socket_remove_ref : TcpSocket → W → TcpSocket × W
  unfolding tcp_socket_free
  tcp_socket_remove_ref c w =
      if c.refcount == 0
      then (c, w)
      else let c' = record c { refcount = c.refcount - 1 } in
        if c'.refcount == 0 then tcp_socket_free c' w else (c', w)

  -- The label `error_exit` of `tcp_recv` and of `process_buf`.
  unfoldable pub error_exit : TcpSocket → W → TcpSocket × W
  unfolding tcp_socket_remove_ref
  error_exit c w = tcp_socket_remove_ref (record c { fd = none; evt = false }) w

  -- The branch of `process_buf` that keeps an incomplete message; `memory` is whether malloc
  -- succeeds.
  unfoldable pub keep_partial : Bool → TcpSocket → Bytes → ℕ → W → TcpSocket × W
  keep_partial memory c buf total w = elim c.buf [
    | none ↦
        if memory
        then (record c { buf = some buf; len = length buf; pktsize = total }, w)
        else error_exit c w
    | some _ ↦ (record c { buf = some buf; len = length buf; pktsize = total }, w)
  ]

  -- `buf` is the content of the buffer. One call of `process_buf` takes one round of fuel; `none`
  -- means that the fuel ran out. The leftovers of a buffer are what stands behind its first message.
  unfoldable pub process_buf : ℕ → Bool → TcpSocket → Bytes → W → Option (TcpSocket × W)
  process_buf zero memory c buf w = none
  process_buf (suc fuel) memory c buf w =
      let len = length buf in
      elim (totaltoget buf) [
        | none ↦ some (error_exit c w)
        | some total ↦
            if ltb len total
            then some (keep_partial memory c buf total w)
            else let excess = if ltb total len then len - total else c.excess in
              let done = parse_message (drop 4 (take total buf)) c.refcount (count_tcp w) in
              let c' = record c { excess = excess; refcount = done.refs } in
              let rest =
                process_buf fuel memory (record c' { len = excess; excess = 0 }) (drop total buf)
                  done.world in
              if done.accepted
              then (if excess == 0 then some (release_buf c', done.world) else rest)
              else some (error_exit c' done.world)
      ]

-- What recv returns: bytes, EAGAIN, ETIMEDOUT, or the end of the connection or another error.
pub data Recv : Type 0 where
  bytes : Bytes → Recv
  again timed_out ended : Recv

-- How many bytes `tcp_recv` asks for.
unfoldable pub maxtoread : TcpSocket → ℕ
maxtoread c = elim c.buf [ none ↦ sbsize | some _ ↦ c.pktsize - c.len ]

module _ {W : Type 0} (calls : Calls W) where
  -- One read event. `none` is a fault: a write past the end of the temporary buffer, or no fuel.
  unfoldable pub tcp_recv : Bool → TcpSocket → Recv → W → Option (TcpSocket × W)
  tcp_recv memory c (bytes rv) w = elim c.buf [
    | none ↦ process_buf calls (length rv + 1) memory c rv w
    | some buf ↦
        if ltb sbsize (length buf + length rv)
        then none
        else let len = c.len + length rv in
          process_buf calls (length (buf ++ rv) + 1) memory (record c { len = len }) (buf ++ rv) w
  ]
  tcp_recv memory c again w = some (c, w)
  tcp_recv memory c timed_out w = elim c.buf [
    | none ↦ some (c, w)
    | some _ ↦ some (error_exit calls c w)
  ]
  tcp_recv memory c ended w = some (error_exit calls c w)

  -- Read events on a stream of bytes: the kernel hands over at least one byte and at most what is
  -- asked for, as `sizes` choose, until the event is deleted. The result has the bytes left unread.
  unfoldable pub receive : List ℕ → Bytes → TcpSocket → W → Option (TcpSocket × W × Bytes)
  receive [] stream c w = some (c, w, stream)
  receive (k ∷ sizes) [] c w = some (c, w, [])
  receive (k ∷ sizes) (b ∷ stream) c w =
      let n = min (suc k) (maxtoread c) in
      if c.evt
      then (do
        (c', w') ← tcp_recv true c (bytes (take n (b ∷ stream))) w
        receive sizes (drop n (b ∷ stream)) c' w')
      else some (c, w, b ∷ stream)
