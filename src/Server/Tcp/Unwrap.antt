-- ===== src/Server/Tcp/Unwrap.antt =====
-- `process_buf` of server/tcp.c hands over the messages that its buffer stands for, in order.
use moc.Shared.{
  nil_of_length, cons_of_length, ℕ, zero, suc, ◌-◌, ◌≤◌, ◌<◌, ◌≡◌, refl, ap, ◌∙◌, Bool, true, false,
  none, some, Bool-cases, inl, inr, List, [], ◌∷◌, arith, ltb, ◌==◌, if◌then◌else◌, length, take,
  drop, length-drop, le→ltb, lt→ltb, Bytes,
}
use moc.Server.Tcp.{
  TcpSocket, Calls, Parsed, totaltoget, error_exit, keep_partial, release_buf, process_buf,
}
use moc.Server.Tcp.Decode.{Tail, partial, illegal, Decodes, totaltoget_bounds}
use moc.Server.Tcp.Close.{IsClosed, error_exit-IsClosed}

module _ {W : Type 0} (calls : Calls W) where
  -- The messages handed to `parse_message` one after the other, until it refuses one.
  unfoldable pub deliver : List Bytes → ℕ → W → Parsed W
  deliver [] refs w = record { accepted = true; refs = refs; world = w }
  deliver (m ∷ ms) refs w =
      let done = calls.parse_message m refs (calls.count_tcp w) in
      if done.accepted then deliver ms done.refs done.world else done

-- The connection keeps the incomplete message `r`, and no buffer if there is none.
abbrev pub Holds : TcpSocket → Bytes → Type 0
Holds c [] = (c.excess ≡ 0) × (c.buf ≡ none)
Holds c (b ∷ r) =
    (c.excess ≡ 0)
    × (c.buf ≡ some (b ∷ r))
    × (c.len ≡ length (b ∷ r))
    × (totaltoget (b ∷ r) ≡ some c.pktsize)
    × (length (b ∷ r) < c.pktsize)

module _ {W : Type 0} (calls : Calls W) where
  -- The connection stays as `c`, with `refs` references, and waits for the rest of `r`.
  abbrev pub Waits : TcpSocket → ℕ → W → Bytes → TcpSocket × W → Type 0
  Waits c refs w r out =
      Holds out.0 r
      × (out.0.refcount ≡ refs)
      × (out.0.fd ≡ c.fd)
      × (out.0.evt ≡ c.evt)
      × (out.0.on_close ≡ c.on_close)
      × (out.0.alive ≡ c.alive)
      × (out.1 ≡ w)

  -- What the delivery of the messages in front of `t` makes of the connection `c`.
  abbrev pub After : TcpSocket → Bool → ℕ → W → Tail → TcpSocket × W → Type 0
  After c true refs w (partial r) out = Waits c refs w r out
  After c true refs w illegal out = IsClosed calls c refs w out
  After c false refs w t out = IsClosed calls c refs w out

  pub keep_partial_lem :
      (c : TcpSocket) (buf : Bytes) (n : ℕ) (w : W)
      → keep_partial calls true c buf n w
        ≡ (record c { buf = some buf; len = length buf; pktsize = n }, w)
  unfolding keep_partial
  keep_partial_lem c buf n w = ground arith

  -- The steps of one round.
  round_illegal :
      (fuel : ℕ) (memory : Bool) (c : TcpSocket) (buf : Bytes) (w : W)
      → totaltoget buf ≡ none
      → process_buf calls (suc fuel) memory c buf w ≡ some (error_exit calls c w)
  unfolding process_buf
  round_illegal fuel memory c buf w e = rw (e, process_buf)

  pub round_partial :
      (fuel : ℕ) (memory : Bool) (c : TcpSocket) (buf : Bytes) (w : W) (n : ℕ)
      → totaltoget buf ≡ some n
      → length buf < n
      → process_buf calls (suc fuel) memory c buf w ≡ some (keep_partial calls memory c buf n w)
  unfolding process_buf
  round_partial fuel memory c buf w n e h = rw (e, lt→ltb (length buf) n h, process_buf)

  pub round_message :
      (fuel : ℕ) (memory : Bool) (c : TcpSocket) (buf : Bytes) (w : W) (n : ℕ)
      → totaltoget buf ≡ some n
      → n ≤ length buf
      → c.excess ≡ 0
      → let done = calls.parse_message (drop 4 (take n buf)) c.refcount (calls.count_tcp w) in
        let left = length buf - n in
        process_buf calls (suc fuel) memory c buf w ≡ (
          if done.accepted
          then (if left == 0
              then some (release_buf (record c { excess = left; refcount = done.refs }), done.world)
              else process_buf calls fuel memory
                  (record c { excess = 0; refcount = done.refs; len = left })
                  (drop n buf)
                  done.world)
          else some
              (error_exit calls (record c { excess = left; refcount = done.refs }) done.world))
  unfolding process_buf
  round_message fuel memory c buf w n e h ex =
      let left : (if ltb n (length buf) then length buf - n else c.excess) ≡ length buf - n =
        ground arith in
      rw (e, le→ltb (length buf) n h, left, process_buf)

Decodes-nil : (ms : List Bytes) (t : Tail) → Decodes [] ms t → (ms ≡ []) × (t ≡ partial [])
unfolding totaltoget
Decodes-nil [] (partial r) d = (refl, ap partial d.0)
Decodes-nil [] illegal d = absurd (ground arith)
Decodes-nil (m ∷ ms) t d = absurd (ground arith)

release_buf-Holds : (c : TcpSocket) → c.excess ≡ 0 → Holds (release_buf c) []
unfolding release_buf
release_buf-Holds c ex = ground arith

release_buf_same :
    (c : TcpSocket)
    → ((release_buf c).refcount ≡ c.refcount)
      × ((release_buf c).fd ≡ c.fd)
      × ((release_buf c).evt ≡ c.evt)
      × ((release_buf c).on_close ≡ c.on_close)
      × ((release_buf c).alive ≡ c.alive)
unfolding release_buf
release_buf_same c = ground arith

module _ {W : Type 0} (calls : Calls W) where
  -- The count and the lengths do not matter to what becomes of a connection.
  After-reset :
      (c : TcpSocket) (x k l : ℕ) (a : Bool) (refs : ℕ) (w : W) (t : Tail) (out : TcpSocket × W)
      → After calls (record c { excess = x; refcount = k; len = l }) a refs w t out
      → After calls c a refs w t out
  After-reset c x k l true refs w (partial r) out h = h
  After-reset c x k l true refs w illegal out h = h
  After-reset c x k l false refs w t out h = h

  -- `process_buf` on a buffer that is not empty hands the messages that the buffer stands for to
  -- `parse_message`, in order and none behind one that is refused, and leaves the connection
  -- waiting with the incomplete message at the end of the buffer, or closed where a message was
  -- refused or a header is illegal. It ends within one round more than the buffer has bytes.
  -- Conditions: memory is at hand, and no leftovers are noted from an earlier call.
  pub process_buf-After :
      (fuel : ℕ) (c : TcpSocket) (b : ℕ) (bs : Bytes) (w : W) (ms : List Bytes) (t : Tail)
      → c.excess ≡ 0
      → Decodes (b ∷ bs) ms t
      → length (b ∷ bs) < fuel
      → let p = deliver calls ms c.refcount w in
        (out : TcpSocket × W) × (process_buf calls fuel true c (b ∷ bs) w ≡ some out)
        × After calls c p.accepted p.refs p.world t out
  unfolding deliver
  process_buf-After zero c b bs w ms t ex d enough = absurd (omega arith)
  process_buf-After (suc fuel) c b bs w [] illegal ex d enough = (
    error_exit calls c w,
    round_illegal calls fuel true c (b ∷ bs) w d,
    error_exit-IsClosed calls c w,
  )
  process_buf-After (suc fuel) c b bs w [] (partial r) ex (same, (n, e, short)) enough = (
    (record c { buf = some (b ∷ bs); len = length (b ∷ bs); pktsize = n }, w),
    round_partial calls fuel true c (b ∷ bs) w n e short
        ∙ ap some (keep_partial_lem calls c (b ∷ bs) n w),
    rw same ((ex, refl, refl, e, short), refl, refl, refl, refl, refl, refl),
  )
  process_buf-After (suc fuel) c b bs w (m ∷ ms) t ex (n, e, whole, is, d) enough =
      let buf = b ∷ bs in
      let done = calls.parse_message m c.refcount (calls.count_tcp w) in
      let left = length buf - n in
      let kept = record c { excess = left; refcount = done.refs } in
      let next = record c { excess = 0; refcount = done.refs; len = left } in
      let step = rw (← is) at (round_message calls fuel true c buf w n e whole ex) in
      elim (Bool-cases done.accepted) [
        | inr refused ↦ rw refused (
          error_exit calls kept done.world,
          step ∙ rw refused,
          error_exit-IsClosed calls kept done.world,
        )
        | inl accepted ↦ elim (Bool-cases (left == 0)) [
          | inl last ↦
              let none_left : left ≡ 0 = ground arith in
              let empty : drop n buf ≡ [] =
                nil_of_length (drop n buf) (omega (arith, length-drop n buf)) in
              let (no_more, all) = Decodes-nil ms t (rw empty at d) in
              let (rc, fd, evt, oc, al) = release_buf_same kept in
              rw (no_more, all, accepted)
                (
                  (release_buf kept, done.world),
                  step ∙ rw (accepted, last),
                  (release_buf-Holds kept none_left, rc, fd, evt, oc, al, refl),
                )
          | inr more ↦
              let (x, xs, split) =
                cons_of_length (drop n buf) (ground (arith, length-drop n buf)) in
              let pos = totaltoget_bounds buf n e in
              let (out, run, after) =
                process_buf-After fuel next x xs done.world ms t refl (rw split at d)
                  (ground (arith, ap length split, length-drop n buf)) in
              rw accepted (
                out,
                step ∙ rw (accepted, more, split) run,
                After-reset c 0 done.refs left _ _ _ t out after,
              )
        ]
      ]
