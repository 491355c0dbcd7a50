-- ===== src/Client/Loop/Same.antt =====
-- `msparse_buf` of client/mscli.c and `process_buf` of server/tcp.c cut a stream the same way.
use moc.Shared.{
  ℕ, zero, suc, ◌-◌, ◌≤◌, ◌<◌, ◌≡◌, refl, sym, ap, ◌∙◌, true, Option, none, some, Bool-cases, inl,
  inr, List, [], ◌∷◌, arith, ltb, ◌==◌, if◌then◌else◌, length, take, drop, le→ltb, lt→ltb, Bytes,
}
use moc.Client.Loop.{MocSrv, keep_rest, free_buf, parse_loop}
use moc.Server.Tcp.{TcpSocket, Calls, totaltoget, release_buf, process_buf}
use moc.Server.Tcp.Decode.{partial, Decodes}
use moc.Server.Tcp.Unwrap.{round_partial, round_message, keep_partial_lem}

-- The client's connection, seen as one of the server's.
abbrev pub as_socket : MocSrv → TcpSocket
as_socket c = record {
  refcount = 1;
  fd = c.fd;
  evt = true;
  buf = c.buf;
  pktsize = c.pktsize;
  len = c.len;
  excess = c.excess;
  on_close = none;
  alive = true;
}

-- The server's handler that hands each message to the client's.
abbrev pub client_calls : {W : Type 0} → (Bytes → W → W) → Calls W
client_calls msg = record {
  count_tcp = λ w. w;
  parse_message = λ m refs w. record { accepted = true; refs = refs; world = msg m w };
  on_close = λ appdata w. w;
}

keep_rest_lem :
    (c : MocSrv) (buf : Bytes) (n : ℕ)
    → as_socket (keep_rest true c buf n)
      ≡ record (as_socket c) { buf = some buf; len = length buf; pktsize = n }
unfolding keep_rest
keep_rest_lem c buf n = ground arith

free_buf_lem : (c : MocSrv) → as_socket (free_buf c) ≡ release_buf (as_socket c)
unfolding free_buf release_buf
free_buf_lem c = ground arith

module _ {W : Type 0} (msg : Bytes → W → W) where
  -- The client's result as the server's.
  abbrev pub as_result : Option (MocSrv × W) → Option (TcpSocket × W)
  as_result none = none
  as_result (some (c, w)) = some (as_socket c, w)

  loop_partial :
      (fuel : ℕ) (c : MocSrv) (buf : Bytes) (w : W) (n : ℕ)
      → totaltoget buf ≡ some n
      → length buf < n
      → parse_loop msg (suc fuel) true c buf w ≡ some (keep_rest true c buf n, w)
  unfolding parse_loop
  loop_partial fuel c buf w n e h = rw (e, lt→ltb (length buf) n h, parse_loop)

  loop_message :
      (fuel : ℕ) (c : MocSrv) (buf : Bytes) (w : W) (n : ℕ)
      → totaltoget buf ≡ some n
      → n ≤ length buf
      → c.excess ≡ 0
      → let left = length buf - n in
        let w' = msg (drop 4 (take n buf)) w in
        parse_loop msg (suc fuel) true c buf w ≡ (
          if left == 0
          then some (free_buf (record c { excess = left }), w')
          else parse_loop msg fuel true (record c { len = left; excess = 0 }) (drop n buf) w')
  unfolding parse_loop
  loop_message fuel c buf w n e h ex =
      let left : (if ltb n (length buf) then length buf - n else c.excess) ≡ length buf - n =
        ground arith in
      rw (e, le→ltb (length buf) n h, left, parse_loop)

  -- On a buffer without an illegal header, `msparse_buf` of the client calls `msparse_msg` for the
  -- messages for which `process_buf` of the server calls `parse_message`, in the same order, and
  -- leaves the fields of the connection as the server does, whatever the fuel. (On an illegal header
  -- the server closes the connection, and the client goes on with it.)
  -- Condition: no leftovers are noted from an earlier call.
  pub msparse_buf-process_buf :
      (fuel : ℕ) (c : MocSrv) (buf : Bytes) (w : W) (ms : List Bytes) (r : Bytes)
      → c.excess ≡ 0
      → Decodes buf ms (partial r)
      → process_buf (client_calls msg) fuel true (as_socket c) buf w
        ≡ as_result (parse_loop msg fuel true c buf w)
  unfolding process_buf parse_loop
  msparse_buf-process_buf zero c buf w ms r ex d = refl
  msparse_buf-process_buf (suc fuel) c buf w [] r ex (same, (n, e, short)) =
      round_partial (client_calls msg) fuel true (as_socket c) buf w n e short
      ∙ ap some (keep_partial_lem (client_calls msg) (as_socket c) buf n w)
      ∙ ap (λ (s : TcpSocket). some (s, w)) (sym (keep_rest_lem c buf n))
      ∙ ap as_result (sym (loop_partial fuel c buf w n e short))
  msparse_buf-process_buf (suc fuel) c buf w (m ∷ ms) r ex (n, e, whole, is, d) =
      let left = length buf - n in
      let w' = msg (drop 4 (take n buf)) w in
      let server = round_message (client_calls msg) fuel true (as_socket c) buf w n e whole ex in
      let client = loop_message fuel c buf w n e whole ex in
      elim (Bool-cases (left == 0)) [
        | inl last ↦
            rw (server, client, last)
              (ap (λ (s : TcpSocket). some (s, w'))
                (sym (free_buf_lem (record c { excess = left }))))
        | inr more ↦
            rw (server, client, more)
              (msparse_buf-process_buf fuel (record c { len = left; excess = 0 }) (drop n buf) w' ms
                r refl d)
      ]
