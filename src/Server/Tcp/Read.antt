-- ===== src/Server/Tcp/Read.antt =====
-- One read event of a connection, `tcp_recv` of server/tcp.c, and the delivery of messages in parts.
use moc.Shared.{
  ℕ, ◌+◌, ◌-◌, ◌≤◌, ◌<◌, ◌≡◌, refl, ◌∙◌, inl, inr, Bool, true, false, Bool-cases, none, some, List,
  [], ◌∷◌, ◌++◌, arith, length, Bytes,
}
use moc.Server.Tcp.{
  TcpSocket, Calls, bytes, sbsize, totaltoget, process_buf, maxtoread, tcp_recv, receive,
}
use moc.Server.Tcp.Decode.{Tail, partial, illegal, Decodes, totaltoget_bounds}
use moc.Server.Tcp.Unwrap.{deliver, Holds, After, process_buf-After}

-- A connection that waits keeps an incomplete message.
pub Holds-Decodes : (c : TcpSocket) (r : Bytes) → Holds c r → Decodes r [] (partial r)
unfolding totaltoget
Holds-Decodes c [] h = (refl, (4, refl, omega arith))
Holds-Decodes c (b ∷ r) h = (refl, (c.pktsize, h.3, h.4))

pub maxtoread_pos : (c : TcpSocket) (r : Bytes) → Holds c r → 0 < maxtoread c
unfolding maxtoread
maxtoread_pos c [] h = rw (h.1, maxtoread) (omega arith)
maxtoread_pos c (b ∷ r) h = rw (h.1, maxtoread) (omega arith)

module _ {W : Type 0} (calls : Calls W) where
  tcp_recv_first :
      (memory : Bool) (c : TcpSocket) (rv : Bytes) (w : W)
      → c.buf ≡ none
      → tcp_recv calls memory c (bytes rv) w ≡ process_buf calls (length rv + 1) memory c rv w
  unfolding tcp_recv
  tcp_recv_first memory c rv w e = ground arith

  tcp_recv_more :
      (memory : Bool) (c : TcpSocket) (buf rv : Bytes) (w : W)
      → c.buf ≡ some buf
      → length buf + length rv ≤ sbsize
      → tcp_recv calls memory c (bytes rv) w
        ≡ process_buf calls
            (length (buf ++ rv) + 1)
            memory
            (record c { len = c.len + length rv })
            (buf ++ rv)
            w
  unfolding tcp_recv
  tcp_recv_more memory c buf rv w e fits = ground arith

  After-len :
      (c : TcpSocket) (l : ℕ) (a : Bool) (refs : ℕ) (w : W) (t : Tail) (out : TcpSocket × W)
      → After calls (record c { len = l }) a refs w t out
      → After calls c a refs w t out
  After-len c l true refs w (partial r) out h = h
  After-len c l true refs w illegal out h = h
  After-len c l false refs w t out h = h

  -- One read: the kernel returns some bytes, at most as many as asked for.
  tcp_recv-After :
      (c : TcpSocket) (r : Bytes) (x : ℕ) (xs : Bytes) (w : W) (ms : List Bytes) (t : Tail)
      → Holds c r
      → length (x ∷ xs) ≤ maxtoread c
      → Decodes (r ++ x ∷ xs) ms t
      → let p = deliver calls ms c.refcount w in
        (out : TcpSocket × W) × (tcp_recv calls true c (bytes (x ∷ xs)) w ≡ some out)
        × After calls c p.accepted p.refs p.world t out
  unfolding maxtoread
  tcp_recv-After c [] x xs w ms t h fits d =
      let (out, run, after) =
        process_buf-After calls (length (x ∷ xs) + 1) c x xs w ms t h.0 d (omega arith) in
      (out, tcp_recv_first true c (x ∷ xs) w h.1 ∙ run, after)
  tcp_recv-After c (b ∷ r) x xs w ms t h fits d =
      let l = c.len + length (x ∷ xs) in
      let buf = b ∷ r ++ x ∷ xs in
      let (out, run, after) =
        process_buf-After calls (length buf + 1) (record c { len = l }) b (r ++ x ∷ xs) w ms t h.0 d
          (omega arith) in
      let room : maxtoread c ≡ c.pktsize - c.len = rw (h.1, maxtoread) in
      let fit : length (b ∷ r) + length (x ∷ xs) ≤ sbsize =
        ground (arith, totaltoget_bounds (b ∷ r) c.pktsize h.3) in
      (out, tcp_recv_more true c (b ∷ r) (x ∷ xs) w h.1 fit ∙ run, After-len c l _ _ _ t out after)

  pub tcp_recv-some :
      (c : TcpSocket) (r xs : Bytes) (w : W) (ms : List Bytes) (t : Tail)
      → Holds c r
      → 0 < length xs
      → length xs ≤ maxtoread c
      → Decodes (r ++ xs) ms t
      → let p = deliver calls ms c.refcount w in
        (out : TcpSocket × W) × (tcp_recv calls true c (bytes xs) w ≡ some out)
        × After calls c p.accepted p.refs p.world t out
  tcp_recv-some c r [] w ms t holds pos fits d = absurd (omega arith)
  tcp_recv-some c r (x ∷ xs) w ms t holds pos fits d = tcp_recv-After c r x xs w ms t holds fits d

  pub deliver-append :
      (ms ms' : List Bytes) (refs : ℕ) (w : W)
      → (deliver calls ms refs w).accepted ≡ true
      → let p = deliver calls ms refs w in
        deliver calls (ms ++ ms') refs w ≡ deliver calls ms' p.refs p.world
  unfolding deliver
  deliver-append [] ms' refs w ok = refl
  deliver-append (m ∷ ms) ms' refs w ok =
      let done = calls.parse_message m refs (calls.count_tcp w) in
      elim (Bool-cases done.accepted) [
        | inl yes' ↦ rw yes' (deliver-append ms ms' done.refs done.world (rw yes' at ok))
        | inr no' ↦ absurd (ground arith)
      ]

  pub receive_closed :
      (sizes : List ℕ) (stream : Bytes) (c : TcpSocket) (w : W)
      → c.evt ≡ false
      → receive calls sizes stream c w ≡ some (c, w, stream)
  unfolding receive
  receive_closed [] stream c w shut = refl
  receive_closed (k ∷ sizes) [] c w shut = refl
  receive_closed (k ∷ sizes) (b ∷ stream) c w shut = rw shut

  pub After-same :
      (c d : TcpSocket) (a : Bool) (refs : ℕ) (w : W) (t : Tail) (out : TcpSocket × W)
      → d.fd ≡ c.fd
      → d.evt ≡ c.evt
      → d.on_close ≡ c.on_close
      → d.alive ≡ c.alive
      → After calls d a refs w t out
      → After calls c a refs w t out
  After-same c d true refs w (partial r) out f e o l h =
      (h.0, h.1, h.2 ∙ f, h.3 ∙ e, h.4 ∙ o, h.5 ∙ l, h.6)
  After-same c d true refs w illegal out f e o l h = rw (← o, ← l) h
  After-same c d false refs w t out f e o l h = rw (← o, ← l) h
