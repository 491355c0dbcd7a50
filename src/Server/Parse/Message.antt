-- ===== src/Server/Parse/Message.antt =====
-- From the bytes of a message to the queue of its module: `make_queue_long_entry`,
-- `put_in_queue_long`, `parse_event` and `parse_message` of server/parse.c.
use moc.Shared.{
  ℕ, ◌+◌, ◌-◌, ◌/◌, ◌%◌, ◌^◌, Bool, true, false, not, ◌&&◌, ◌||◌, Option, none, some, [], ◌∷◌, ltb,
  leb, ◌==◌, if◌then◌else◌, ◌>>=◌, length, take, drop, Bytes, be32, read32, read16,
}
use moc.Client.Packet.{max_packet_len, advance, unpack_hdf}
use moc.Server.Queue.Order.{enqueue}
use moc.Server.Reply.{
  ReqInfo, rep_err_ver, rep_err_broken, rep_err_unkreq, rep_err_mem, rep_err_busy,
}
use moc.Server.Mocd.{find_entry_in_table, update_queue}
use moc.Server.Tcp.{Calls, Parsed}
use moc.Server.Parse.{
  DataOps, Memory, QueueItem, Server, max_queue_entry, proto_ver, strncmp_eq, status_name,
  clientmod_name, reply_mini, fill_sync_flag, parse_stats, parse_clientmod,
}

-- The entry, `none` for NULL, and the count of references to the connection after the call. When
-- the second allocation fails, `queue_entry_free` reads a pointer that nothing has set. When the
-- fourth fails, it gives back a reference that was not taken.
unfoldable pub make_queue_long_entry :
    {Hdf : Type 0} → Memory → ReqInfo → Bytes → Hdf → ℕ → Option (Option (QueueItem Hdf) × ℕ)
make_queue_long_entry memory req ename hdfrcv refs =
    if not memory.entry
    then some (none, refs)
    else (if not memory.ecopy
        then none
        else (if not memory.req
            then some (none, refs)
            else (if not memory.clisa
                then (if leb refs 1 then none else some (none, refs - 1))
                else some (
                  some (record { operation = req.cmd; ename = ename; hdfrcv = hdfrcv; req = req }),
                  refs + 1,
                ))))

-- A number as a little-endian machine holds it in memory.
unfoldable pub le32 : ℕ → Bytes
le32 n = (n % 256) ∷ (n / 256 % 256) ∷ (n / 65536 % 256) ∷ (n / 16777216 % 256) ∷ []

-- A module's queue takes no more, for now.
unfoldable pub is_busy : ℕ → Bool
is_busy size = ltb max_queue_entry size && size % 100 == 0

module _ (data_ops : DataOps) where
  open data_ops use {hdf}

  -- An event of the server itself: an entry is made for it, and freed after the reply.
  unfoldable pub reserved :
      (Server hdf.Hdf → Option (Server hdf.Hdf))
      → Memory
      → Bytes
      → hdf.Hdf
      → ℕ
      → Server hdf.Hdf
      → Option (Bool × ℕ × Server hdf.Hdf)
  unfolding make_queue_long_entry
  reserved answer memory ename hdfrcv refs s = do
    (e, refs') ← make_queue_long_entry memory s.req ename hdfrcv refs
    elim e [ none ↦ some (false, refs', s) | some _ ↦ do s' ← answer s; some (true, refs' - 1, s') ]

  -- The result, the references to the connection, and the server.
  unfoldable pub put_in_queue_long :
      Memory → Bool → Bytes → hdf.Hdf → ℕ → Server hdf.Hdf → Option (Bool × ℕ × Server hdf.Hdf)
  unfolding find_entry_in_table update_queue reserved make_queue_long_entry is_busy reply_mini
      enqueue parse_stats parse_clientmod strncmp_eq
  put_in_queue_long memory sync ename hdfrcv refs s = elim (find_entry_in_table s.g_moc ename) [
    | none ↦
        if strncmp_eq ename status_name (length ename)
        then reserved (parse_stats data_ops memory) memory ename hdfrcv refs s
        else (if strncmp_eq ename clientmod_name (length ename)
            then reserved (parse_clientmod data_ops memory) memory ename hdfrcv refs s
            else let stats = record s.stats { net_unk_req = s.stats.net_unk_req + 1 } in
              let s' = record s { stats = stats } in
              some (true, refs, if sync then reply_mini rep_err_unkreq s' else s'))
    | some entry ↦
        if is_busy (length entry.op_queue)
        then (let stats = record s.stats { pro_busy = s.stats.pro_busy + 1 } in
            let s' = record s { stats = stats } in
            some (true, refs, if sync then reply_mini rep_err_busy s' else s'))
        else (do
          (e, refs') ← make_queue_long_entry memory s.req ename hdfrcv refs
          elim e [
            | none ↦ some (false, refs', s)
            | some item ↦
                some
                  (true, refs', record s { g_moc = update_queue s.g_moc ename (enqueue sync item) })
          ])
  ]

  unfoldable pub parse_event : Memory → Bytes → ℕ → Server hdf.Hdf → Option (ℕ × Server hdf.Hdf)
  unfolding put_in_queue_long reply_mini fill_sync_flag
  parse_event memory payload refs s = do
    let sync = fill_sync_flag s.req
    let psize = length payload
    esize ← read32 payload
    pos ← advance 4 payload
    let ename = take esize pos
    pos ← advance esize pos
    (rsize, hdfrcv) ← unpack_hdf hdf (some pos) ((psize + 2 ^ 64 - esize - 4) % 2 ^ 64) hdf.init
    let broken = rsize == 0 || ltb max_packet_len ((rsize + esize) % 2 ^ 32 + 4) || ltb psize esize
    if broken
        then (let stats = record s.stats { net_broken_req = s.stats.net_broken_req + 1 } in
            let s' = record s { stats = stats } in
            some (refs, if sync then reply_mini rep_err_broken s' else s'))
        else (do
          (rv, refs', s') ← put_in_queue_long memory sync ename hdfrcv refs s
          some (refs', if not rv && sync then reply_mini rep_err_mem s' else s'))

  -- The result, the references to the connection, and the server. A reply to another version of the
  -- protocol has the id in the byte order of the machine, which is little endian.
  unfoldable pub parse_message :
      Memory → Bytes → ℕ → Server hdf.Hdf → Option (Bool × ℕ × Server hdf.Hdf)
  unfolding parse_event reply_mini
  parse_message memory buf refs s =
      let len = length buf in
      if ltb len 17
      then (let stats = record s.stats { net_broken_req = s.stats.net_broken_req + 1 } in
          some (false, refs, reply_mini rep_err_broken (record s { stats = stats })))
      else (do
        hdr ← read32 buf
        let ver = hdr / 2 ^ 28
        let id = hdr % 2 ^ 28
        cmd ← read16 (drop 4 buf)
        flags ← read16 (drop 6 buf)
        if not (ver == proto_ver)
            then (let stats = record s.stats {
              net_version_mismatch = s.stats.net_version_mismatch + 1;
            } in
                let req = record s.req { id = le32 id } in
                some (false, refs, reply_mini rep_err_ver (record s { stats = stats; req = req })))
            else (do
              let req : ReqInfo = record { id = be32 id; cmd = cmd; flags = flags }
              (refs', s') ← parse_event memory (drop 8 buf) refs (record s { req = req })
              some (true, refs', s')))

  -- What a connection sees of the result; nothing goes on after a fault.
  unfoldable pub handled : ℕ → Option (Bool × ℕ × Server hdf.Hdf) → Parsed (Option (Server hdf.Hdf))
  handled refs none = record { accepted = false; refs = refs; world = none }
  handled refs (some (rv, refs', s)) = record { accepted = rv; refs = refs'; world = some s }

  -- The handler as a connection calls it. The close handler is the plugin's.
  unfoldable pub server_calls :
      Memory
      → (ℕ → Option (Server hdf.Hdf) → Option (Server hdf.Hdf))
      → Calls (Option (Server hdf.Hdf))
  unfolding handled
  server_calls memory on_close = record {
    count_tcp = λ w. do
      s ← w
      some (record s { stats = record s.stats { msg_tcp = s.stats.msg_tcp + 1 } });
    parse_message = λ m refs w. handled refs (do s ← w; parse_message memory m refs s);
    on_close = on_close;
  }
