-- ===== src/Server/Tcp/Frames.antt =====
-- However the bytes of whole messages are cut into reads, the messages are handed over one by one:
-- `tcp_recv` and `process_buf` of server/tcp.c together.
use moc.Shared.{
  ℕ, ◌-◌, ◌≤◌, ◌≡◌, refl, sym, ap, ◌∙◌, ◌⊎◌, inl, inr, Bool, true, false, Bool-cases, some, List,
  [], ◌∷◌, ◌++◌, append-nil, arith, length, Bytes,
}
use moc.Server.Tcp.{TcpSocket, Calls, receive, tcp_newconnection}
use moc.Server.Tcp.Decode.{
  Tail, partial, illegal, Decodes, decode, Decodes-append, Decodes-append_illegal, Decodes-unique,
  frames, AllMessages, Decodes-frames,
}
use moc.Server.Tcp.Unwrap.{deliver, Holds, After}
use moc.Server.Tcp.Stream.{receive-Received}

nothing_left :
    (left stream : Bytes) (sizes : List ℕ) (evt : Bool)
    → evt ≡ true
    → (evt ≡ false) ⊎ (length left ≤ length stream - length sizes)
    → length stream ≤ length sizes
    → left ≡ []
nothing_left [] stream sizes evt on progress enough = refl
nothing_left (x ∷ left) stream sizes evt on progress enough = absurd (ground arith)

module _ {W : Type 0} (calls : Calls W) where
  deliver_prefix :
      (ms ms' : List Bytes) (refs : ℕ) (w : W)
      → (deliver calls (ms ++ ms') refs w).accepted ≡ true
      → (deliver calls ms refs w).accepted ≡ true
  unfolding deliver
  deliver_prefix [] ms' refs w ok = refl
  deliver_prefix (m ∷ ms) ms' refs w ok =
      let done = calls.parse_message m refs (calls.count_tcp w) in
      elim (Bool-cases done.accepted) [
        | inl yes' ↦ rw yes' (deliver_prefix ms ms' done.refs done.world (rw yes' at ok))
        | inr no' ↦ absurd (ground arith)
      ]

  module _ (c : TcpSocket) (on : c.evt ≡ true) (w : W) (ms : List Bytes) (r stream : Bytes)
      (whole : Decodes stream ms (partial r))
      (ok : (deliver calls ms c.refcount w).accepted ≡ true) where
    -- A part of the stream that has been read does not close the connection.
    stays_open :
        (messages : List Bytes) (tail : Tail) (got left : Bytes) (out : TcpSocket × W)
        → Decodes got messages tail
        → got ++ left ≡ stream
        → let p = deliver calls messages c.refcount w in
          After calls c p.accepted p.refs p.world tail out → out.0.evt ≡ true
    stays_open messages (partial r') got left out d split after =
        let (later, t, d') = decode (r' ++ left) in
        let all = Decodes-append got left messages later r' t d d' in
        let (same, _) =
          Decodes-unique stream (messages ++ later) ms t (partial r) (rw split at all) whole in
        let good = deliver_prefix messages later c.refcount w (rw same ok) in
        let waits = rw good at after in waits.3 ∙ on
    stays_open messages illegal got left out d split after =
        let bad = Decodes-append_illegal got left messages d in
        let (_, same) =
          Decodes-unique stream messages ms illegal (partial r) (rw split at bad) whole in
        absurd (ground arith)

    receive_whole :
        (sizes : List ℕ)
        → length stream ≤ length sizes
        → Holds c []
        → (c' : TcpSocket) × (receive calls sizes stream c w
            ≡ some (c', (deliver calls ms c.refcount w).world, []))
          × Holds c' r
          × (c'.refcount ≡ (deliver calls ms c.refcount w).refs)
    receive_whole sizes enough holds =
        let rc = receive-Received calls sizes stream c [] w holds on in
        let opened =
          stays_open rc.messages rc.tail rc.got rc.left rc.out rc.decodes rc.split rc.after in
        let none_left : rc.left ≡ [] =
          nothing_left rc.left stream sizes rc.out.0.evt opened rc.progress enough in
        let all : rc.got ≡ stream =
          sym (append-nil rc.got) ∙ ap (λ l. rc.got ++ l) (sym none_left) ∙ rc.split in
        let (same, end) =
          Decodes-unique stream rc.messages ms rc.tail (partial r) (rw all at rc.decodes) whole in
        let waits = rw (same, end, ok) at rc.after in
        (
          rc.out.0,
          rc.run
              ∙ ap (λ l. some (rc.out.0, rc.out.1, l)) none_left
              ∙ ap (λ v. some (rc.out.0, v, [])) waits.6,
          waits.0,
          waits.1,
        )

  -- The messages `ms`, one behind the other on the wire and followed by an incomplete one, are
  -- handed to `parse_message` one by one and in order, however the kernel cuts the bytes into
  -- reads, and the new connection ends waiting for the rest of the last.
  -- Conditions: each message has a size that the protocol allows and is not refused, and there are
  -- as many read events as bytes.
  pub receive-frames :
      (newfd : ℕ) (ms : List Bytes) (r : Bytes) (sizes : List ℕ) (w : W)
      → AllMessages ms
      → Decodes r [] (partial r)
      → (deliver calls ms 1 w).accepted ≡ true
      → length (frames ms ++ r) ≤ length sizes
      → (c' : TcpSocket) × (receive calls sizes (frames ms ++ r) (tcp_newconnection newfd) w
          ≡ some (c', (deliver calls ms 1 w).world, []))
        × Holds c' r
        × (c'.refcount ≡ (deliver calls ms 1 w).refs)
  unfolding tcp_newconnection
  receive-frames newfd ms r sizes w all rest ok enough =
      receive_whole (tcp_newconnection newfd) refl w ms r (frames ms ++ r)
        (Decodes-frames ms r all rest) ok sizes enough (refl, refl)
