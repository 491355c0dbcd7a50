-- ===== src/Server/Tcp/Stream.antt =====
-- The read events of a connection, `tcp_recv` of server/tcp.c, over a stream of bytes.
use Prim.Native.Nat.{min}
use moc.Shared.{
  ℕ, suc, ◌-◌, ◌≤◌, ◌≡◌, refl, sym, ap, subst, ◌∙◌, ◌⊎◌, inl, inr, Bool, true, false, some, List,
  [], ◌∷◌, ◌++◌, append_assoc, append-nil, arith, length, take, drop, length-take, length-drop,
  take-append-drop, Bytes,
}
use moc.Server.Tcp.{TcpSocket, Calls, bytes, maxtoread, tcp_recv, receive}
use moc.Server.Tcp.Decode.{Tail, partial, illegal, Decodes, decode, Decodes-append}
use moc.Server.Tcp.Unwrap.{deliver, Holds, Waits, After}
use moc.Server.Tcp.Read.{
  Holds-Decodes, maxtoread_pos, tcp_recv-some, deliver-append, receive_closed, After-same,
}

module _ {W : Type 0} (calls : Calls W) where
  -- What a run of read events has read and left, and what it has made of the connection.
  pub record Received (c : TcpSocket) (r : Bytes) (w : W) (sizes : List ℕ) (stream : Bytes)
      : Type 0 where
    pub out : TcpSocket × W
    pub got : Bytes
    pub left : Bytes
    pub messages : List Bytes
    pub tail : Tail
    pub run : receive calls sizes stream c w ≡ some (out.0, out.1, left)
    pub split : got ++ left ≡ stream
    pub decodes : Decodes (r ++ got) messages tail
    pub after :
        let p = deliver calls messages c.refcount w in
        After calls c p.accepted p.refs p.world tail out
    pub progress : (out.0.evt ≡ false) ⊎ (length left ≤ length stream - length sizes)

  receive_still :
      (c : TcpSocket) (r : Bytes) (w : W) (sizes : List ℕ) (stream : Bytes)
      → Holds c r
      → receive calls sizes stream c w ≡ some (c, w, stream)
      → length stream ≤ length stream - length sizes
      → Received c r w sizes stream
  unfolding deliver
  receive_still c r w sizes stream h run stay = record {
    out = (c, w);
    got = [];
    left = stream;
    messages = [];
    tail = partial r;
    run = run;
    split = refl;
    decodes = rw append-nil (Holds-Decodes c r h);
    after = (h, refl, refl, refl, refl, refl, refl);
    progress = inr stay;
  }

  receive_next :
      (c : TcpSocket) (r : Bytes) (w : W) (k : ℕ) (sizes : List ℕ) (b : ℕ) (stream : Bytes)
      → c.evt ≡ true
      → (out : TcpSocket × W)
      → tcp_recv calls true c (bytes (take (min (suc k) (maxtoread c)) (b ∷ stream))) w ≡ some out
      → receive calls (k ∷ sizes) (b ∷ stream) c w
        ≡ receive calls sizes (drop (min (suc k) (maxtoread c)) (b ∷ stream)) out.0 out.1
  unfolding receive
  receive_next c r w k sizes b stream on out e = rw (e, on)

  module _ (c : TcpSocket) (r : Bytes) (w : W) (k : ℕ) (sizes : List ℕ) (b : ℕ) (stream : Bytes)
      (holds : Holds c r) (on : c.evt ≡ true) where
    abbrev asked : ℕ
    asked = min (suc k) (maxtoread c)

    abbrev chunk : Bytes
    chunk = take asked (b ∷ stream)

    abbrev unread : Bytes
    unread = drop asked (b ∷ stream)

    module _ (out : TcpSocket × W) (ms : List Bytes)
        (read : tcp_recv calls true c (bytes chunk) w ≡ some out) where
      receive_more :
          (r' : Bytes)
          → Decodes (r ++ chunk) ms (partial r')
          → (deliver calls ms c.refcount w).accepted ≡ true
          → let p = deliver calls ms c.refcount w in
            Waits calls c p.refs p.world r' out
            → Received out.0 r' out.1 sizes unread
            → Received c r w (k ∷ sizes) (b ∷ stream)
      receive_more r' d ok waits next =
          let p = deliver calls ms c.refcount w in
          let all = ms ++ next.messages in
          let same : deliver calls all c.refcount w
              ≡ deliver calls next.messages out.0.refcount out.1 =
            deliver-append calls ms next.messages c.refcount w ok
            ∙ rw (← waits.1, ← waits.6) refl in
          record {
            out = next.out;
            got = chunk ++ next.got;
            left = next.left;
            messages = all;
            tail = next.tail;
            run = receive_next c r w k sizes b stream on out read ∙ next.run;
            split =
                append_assoc chunk next.got next.left
                ∙ ap (λ s. chunk ++ s) next.split
                ∙ take-append-drop asked (b ∷ stream);
            decodes =
                subst (λ s. Decodes s all next.tail) (append_assoc r chunk next.got)
                  (Decodes-append (r ++ chunk) next.got ms next.messages r' next.tail d
                    next.decodes);
            after =
                subst (λ q. After calls c q.accepted q.refs q.world next.tail next.out) (sym same)
                  (After-same calls c out.0 _ _ _ next.tail next.out waits.2 waits.3 waits.4 waits.5
                    next.after);
            progress =
                ground
                  (arith, length-drop asked (b ∷ stream), maxtoread_pos c r holds, next.progress);
          }

      receive_end :
          (t : Tail)
          → Decodes (r ++ chunk) ms t
          → out.0.evt ≡ false
          → let p = deliver calls ms c.refcount w in
            After calls c p.accepted p.refs p.world t out → Received c r w (k ∷ sizes) (b ∷ stream)
      receive_end t d shut after = record {
        out = out;
        got = chunk;
        left = unread;
        messages = ms;
        tail = t;
        run =
            receive_next c r w k sizes b stream on out read
            ∙ receive_closed calls sizes unread out.0 out.1 shut;
        split = take-append-drop asked (b ∷ stream);
        decodes = d;
        after = after;
        progress = inl shut;
      }

      receive_read :
          (t : Tail) (accepted : Bool)
          → Decodes (r ++ chunk) ms t
          → let p = deliver calls ms c.refcount w in
            p.accepted ≡ accepted
            → After calls c accepted p.refs p.world t out
            → ((c' : TcpSocket) (r' : Bytes) (w' : W)
                → Holds c' r'
                → c'.evt ≡ true
                → Received c' r' w' sizes unread)
            → Received c r w (k ∷ sizes) (b ∷ stream)
      receive_read (partial r') true d ok after next =
          receive_more r' d ok after (next out.0 r' out.1 after.0 (after.3 ∙ on))
      receive_read illegal true d ok after next = receive_end illegal d after.1 (rw ok after)
      receive_read t false d ok after next = receive_end t d after.1 (rw ok after)

    tcp_recv-chunk :
        (ms : List Bytes) (t : Tail)
        → Decodes (r ++ chunk) ms t
        → let p = deliver calls ms c.refcount w in
          (out : TcpSocket × W) × (tcp_recv calls true c (bytes chunk) w ≡ some out)
          × After calls c p.accepted p.refs p.world t out
    tcp_recv-chunk ms t d =
        let size = length-take asked (b ∷ stream) in
        let pos = maxtoread_pos c r holds in
        tcp_recv-some calls c r chunk w ms t holds (omega arith) (omega arith) d

  -- Whatever sizes the kernel chooses for the reads of a connection that waits with `r`, no read
  -- writes outside its buffer, and the connection is at the end what the delivery of the messages in
  -- the bytes read makes of it. Unless it is closed, each event has read at least one byte.
  pub receive-Received :
      (sizes : List ℕ) (stream : Bytes) (c : TcpSocket) (r : Bytes) (w : W)
      → Holds c r
      → c.evt ≡ true
      → Received c r w sizes stream
  unfolding receive
  receive-Received [] stream c r w holds on = receive_still c r w [] stream holds refl (omega arith)
  receive-Received (k ∷ sizes) [] c r w holds on =
      receive_still c r w (k ∷ sizes) [] holds refl (omega arith)
  receive-Received (k ∷ sizes) (b ∷ stream) c r w holds on =
      let (ms, t, d) = decode (r ++ chunk c r w k sizes b stream holds on) in
      let (out, read, after) = tcp_recv-chunk c r w k sizes b stream holds on ms t d in
      receive_read c r w k sizes b stream holds on out ms read t _ d refl after
        (receive-Received sizes (unread c r w k sizes b stream holds on))
