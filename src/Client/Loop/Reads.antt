-- ===== src/Client/Loop/Reads.antt =====
-- The reads of one connection by the client's event loop (client/eloop.c, client/mscli.c).
use moc.Shared.{
  ℕ, ◌+◌, ◌≤◌, ◌<◌, ◌≡◌, refl, sym, ap, subst, ◌∙◌, true, Option, none, some, List, [], ◌∷◌, ◌++◌,
  append_assoc, append-nil, arith, ltb, length, Bytes, Bool,
}
use moc.Client.Loop.{MocSrv, get_elem?, set, same_fd, parse_loop, msparse_buf, el_read, el_reads}
use moc.Client.Loop.Room.{
  Keeps, Fit, concat, NonEmpty, Roomy, Roomy-Fit, Roomy-NonEmpty, Decodes-split, get_elem?-lt,
  get_elem?-set_self, set-set, set_same,
}
use moc.Client.Loop.Same.{as_socket, as_result, client_calls, msparse_buf-process_buf}
use moc.Server.Tcp.{TcpSocket, Parsed, sbsize}
use moc.Server.Tcp.Decode.{partial, Decodes, Decodes-unique}
use moc.Server.Tcp.Unwrap.{deliver, Holds, After, process_buf-After}
use moc.Server.Tcp.Read.{Holds-Decodes}

module _ {W : Type 0} (msg : Bytes → W → W) where
  -- The messages handed over, one after the other.
  unfoldable pub handed : List Bytes → W → W
  handed [] w = w
  handed (m ∷ ms) w = handed ms (msg m w)

  pub handed-append :
      (ms ms' : List Bytes) (w : W) → handed (ms ++ ms') w ≡ handed ms' (handed ms w)
  unfolding handed
  handed-append [] ms' w = refl
  handed-append (m ∷ ms) ms' w = handed-append ms ms' (msg m w)

  deliver-handed :
      (ms : List Bytes) (w : W)
      → deliver (client_calls msg) ms 1 w
        ≡ record { accepted = true; refs = 1; world = handed ms w }
  unfolding handed deliver
  deliver-handed [] w = refl
  deliver-handed (m ∷ ms) w = deliver-handed ms (msg m w)

  as_result-some :
      (o : Option (MocSrv × W)) (out : TcpSocket × W)
      → as_result msg o ≡ some out
      → (c : MocSrv) × (w : W) × (o ≡ some (c, w)) × (out ≡ (as_socket c, w))
  as_result-some none out h = absurd (ground arith)
  as_result-some (some (c, w)) out h = (c, w, refl, ground arith)

  loop_lem :
      (fuel : ℕ) (c : MocSrv) (b : ℕ) (bs : Bytes) (w : W) (ms : List Bytes) (r : Bytes)
      → c.excess ≡ 0
      → Decodes (b ∷ bs) ms (partial r)
      → length (b ∷ bs) < fuel
      → (c' : MocSrv) × (parse_loop msg fuel true c (b ∷ bs) w ≡ some (c', handed ms w))
        × Keeps c' r
        × (c'.fd ≡ c.fd)
  loop_lem fuel c b bs w ms r ex d enough =
      let (out, run, after) =
        process_buf-After (client_calls msg) fuel (as_socket c) b bs w ms (partial r) ex d enough in
      let after' =
        subst
          (λ (p : Parsed W).
            After (client_calls msg) (as_socket c) p.accepted p.refs p.world (partial r) out)
          (deliver-handed ms w) after in
      let same = msparse_buf-process_buf msg fuel c (b ∷ bs) w ms r ex d in
      let (c', w', done, is) = as_result-some _ out (sym same ∙ run) in
      let keeps = subst (λ (o : TcpSocket × W). Holds o.0 r) is after'.0 in
      let fd = subst (λ (o : TcpSocket × W). o.0.fd ≡ c.fd) is after'.2 in
      let world = subst (λ (o : TcpSocket × W). o.1 ≡ handed ms w) is after'.6 in
      (c', done ∙ ap (λ (v : W). some (c', v)) world, keeps, fd)

  loop_bytes :
      (c : MocSrv) (buf : Bytes) (w : W) (ms : List Bytes) (r : Bytes)
      → c.excess ≡ 0
      → Decodes buf ms (partial r)
      → 0 < length buf
      → (c' : MocSrv) × (parse_loop msg (length buf + 1) true c buf w ≡ some (c', handed ms w))
        × Keeps c' r
        × (c'.fd ≡ c.fd)
  loop_bytes c [] w ms r ex d pos = absurd (omega arith)
  loop_bytes c (b ∷ bs) w ms r ex d pos =
      loop_lem (length (b ∷ bs) + 1) c b bs w ms r ex d (omega arith)

  same_fd_lem : (c : MocSrv) (fd : ℕ) → c.fd ≡ some fd → same_fd c fd ≡ true
  unfolding same_fd
  same_fd_lem c fd e = ground arith

  in_range : (order n : ℕ) → order < n → ltb n order ≡ Bool.false
  in_range order n h = ground arith

  msparse_buf_lem :
      (servers : List MocSrv) (order fd : ℕ) (c c' : MocSrv) (buf : Bytes) (w w' : W)
      → get_elem? servers order ≡ some c
      → c.fd ≡ some fd
      → parse_loop msg (length buf + 1) true c buf w ≡ some (c', w')
      → msparse_buf msg true servers order fd buf w ≡ some (set servers order c', w')
  unfolding msparse_buf
  msparse_buf_lem servers order fd c c' buf w w' at e run = rw (
    in_range order (length servers) (get_elem?-lt servers order c at),
    at,
    same_fd_lem c fd e,
    run,
  )

  el_read_first :
      (servers : List MocSrv) (order fd : ℕ) (c : MocSrv) (rv : Bytes) (w : W)
      → get_elem? servers order ≡ some c
      → c.buf ≡ none
      → el_read msg true servers order fd rv w ≡ msparse_buf msg true servers order fd rv w
  unfolding el_read
  el_read_first servers order fd c rv w at empty = ground arith

  el_read_more :
      (servers : List MocSrv) (order fd : ℕ) (c : MocSrv) (buf rv : Bytes) (w : W)
      → get_elem? servers order ≡ some c
      → c.buf ≡ some buf
      → length buf + length rv ≤ sbsize
      → el_read msg true servers order fd rv w
        ≡ msparse_buf msg true
            (set servers order (record c { buf = some (buf ++ rv); len = c.len + length rv }))
            order
            fd
            (buf ++ rv)
            w
  unfolding el_read
  el_read_more servers order fd c buf rv w at has fits = ground arith

  -- One read that fits behind what is kept.
  el_read_lem :
      (servers : List MocSrv) (order fd : ℕ) (c : MocSrv) (r rv : Bytes) (w : W) (ms : List Bytes)
      (r' : Bytes)
      → get_elem? servers order ≡ some c
      → c.fd ≡ some fd
      → Keeps c r
      → 0 < length rv
      → length r + length rv ≤ sbsize
      → Decodes (r ++ rv) ms (partial r')
      → (c' : MocSrv) × (el_read msg true servers order fd rv w
          ≡ some (set servers order c', handed ms w))
        × Keeps c' r'
        × (c'.fd ≡ some fd)
  el_read_lem servers order fd c [] rv w ms r' at e keeps pos fits d =
      let (c', run, keeps', same) = loop_bytes c rv w ms r' keeps.0 d pos in
      (
        c',
        el_read_first servers order fd c rv w at keeps.1
            ∙ msparse_buf_lem servers order fd c c' rv w (handed ms w) at e run,
        keeps',
        same ∙ e,
      )
  el_read_lem servers order fd c (b ∷ r) rv w ms r' at e keeps pos fits d =
      let buf = b ∷ r ++ rv in
      let d1 : MocSrv = record c { buf = some buf; len = c.len + length rv } in
      let (c', run, keeps', same) = loop_bytes d1 buf w ms r' keeps.0 d (omega arith) in
      (
        c',
        el_read_more servers order fd c (b ∷ r) rv w at keeps.1 fits
            ∙ msparse_buf_lem (set servers order d1) order fd d1 c' buf w (handed ms w)
                (get_elem?-set_self servers order c d1 at) e run
            ∙ ap (λ (s : List MocSrv). some (s, handed ms w)) (set-set servers order d1 c'),
        keeps',
        same ∙ e,
      )

  el_reads_next :
      (rv : Bytes) (reads : List Bytes) (servers : List MocSrv) (order fd : ℕ) (c1 c' : MocSrv)
      (w : W) (ms ms1 ms2 : List Bytes)
      → el_read msg true servers order fd rv w ≡ some (set servers order c1, handed ms1 w)
      → el_reads msg reads (set servers order c1) order fd (handed ms1 w)
        ≡ some (set (set servers order c1) order c', handed ms2 (handed ms1 w))
      → ms ≡ ms1 ++ ms2
      → el_reads msg (rv ∷ reads) servers order fd w ≡ some (set servers order c', handed ms w)
  unfolding el_reads
  el_reads_next rv reads servers order fd c1 c' w ms ms1 ms2 run rest all =
      rw (run, rest, set-set, all, handed-append) refl

  -- The reads of a run, each with room behind what is kept by then.
  el_reads-Roomy :
      (reads : List Bytes) (servers : List MocSrv) (order fd : ℕ) (c : MocSrv) (r : Bytes) (w : W)
      (ms : List Bytes) (r' : Bytes)
      → get_elem? servers order ≡ some c
      → c.fd ≡ some fd
      → Keeps c r
      → Roomy r reads
      → Decodes (r ++ concat reads) ms (partial r')
      → (c' : MocSrv) × (el_reads msg reads servers order fd w
          ≡ some (set servers order c', handed ms w))
        × Keeps c' r'
        × (c'.fd ≡ some fd)
  unfolding el_reads handed
  el_reads-Roomy [] servers order fd c r w ms r' at e keeps fit d =
      let (none_left, tail) =
        Decodes-unique r ms [] (partial r') (partial r) (rw append-nil at d)
          (Holds-Decodes (as_socket c) r keeps) in
      let same : r' ≡ r = ground arith in
      (c, rw (set_same servers order c at, none_left) refl, rw same keeps, e)
  el_reads-Roomy (rv ∷ reads) servers order fd c r w ms r' at e keeps fit d =
      let (ms1, r1, ms2, d1, d2, all) = Decodes-split (r ++ rv) (concat reads) ms r' (
        subst (λ (s : Bytes). Decodes s ms (partial r')) (sym (append_assoc r rv (concat reads)))
          d) in
      let (c1, run, keeps1, e1) =
        el_read_lem servers order fd c r rv w ms1 r1 at e keeps fit.0 fit.1 d1 in
      let (c', rest, keeps', e') =
        el_reads-Roomy reads (set servers order c1) order fd c1 r1 (handed ms1 w) ms2 r'
          (get_elem?-set_self servers order c c1 at) e1 keeps1 (fit.2 c1 ms1 r1 keeps1 d1) d2 in
      (c', el_reads_next rv reads servers order fd c1 c' w ms ms1 ms2 run rest all, keeps', e')

  -- Whatever the sizes of the reads, so long as each fits, the messages that the server wrote one
  -- behind the other reach `msparse_msg` one by one and in order, the connection keeps what is
  -- incomplete, and no other connection is touched.
  -- Conditions: the connection is open, there is one of that order, and keeps `r`; the stream has no
  -- illegal header; the reads are not empty and of at most SBSIZE less the largest message.
  pub el_reads-handed :
      (reads : List Bytes) (servers : List MocSrv) (order fd : ℕ) (c : MocSrv) (r : Bytes) (w : W)
      (ms : List Bytes) (r' : Bytes)
      → get_elem? servers order ≡ some c
      → c.fd ≡ some fd
      → Keeps c r
      → Fit reads
      → Decodes (r ++ concat reads) ms (partial r')
      → (c' : MocSrv) × (el_reads msg reads servers order fd w
          ≡ some (set servers order c', handed ms w))
        × Keeps c' r'
        × (c'.fd ≡ some fd)
  el_reads-handed reads servers order fd c r w ms r' at e keeps fit d =
      el_reads-Roomy reads servers order fd c r w ms r' at e keeps (Roomy-Fit reads c r keeps fit) d

  -- Reads of any sizes, when what is kept and all that is read are no more than SBSIZE together.
  pub el_reads_within :
      (reads : List Bytes) (servers : List MocSrv) (order fd : ℕ) (c : MocSrv) (r : Bytes) (w : W)
      (ms : List Bytes) (r' : Bytes)
      → get_elem? servers order ≡ some c
      → c.fd ≡ some fd
      → Keeps c r
      → NonEmpty reads
      → length r + length (concat reads) ≤ sbsize
      → Decodes (r ++ concat reads) ms (partial r')
      → (c' : MocSrv) × (el_reads msg reads servers order fd w
          ≡ some (set servers order c', handed ms w))
        × Keeps c' r'
        × (c'.fd ≡ some fd)
  el_reads_within reads servers order fd c r w ms r' at e keeps some_each small d =
      el_reads-Roomy reads servers order fd c r w ms r' at e keeps
        (Roomy-NonEmpty reads r some_each small) d
