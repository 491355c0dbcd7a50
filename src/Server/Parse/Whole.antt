-- ===== src/Server/Parse/Whole.antt =====
-- The whole of `parse_message` of server/parse.c: its verdict on a message and what it changes.
use moc.Shared.{
  ℕ, ◌+◌, ◌%◌, ◌≡◌, refl, ap, Bool, true, false, not, ◌&&◌, Option, none, some, Option-cases,
  Bool-cases, inl, inr, arith, ltb, ◌==◌, if◌then◌else◌, length, take, drop, Bytes, read32, read16,
  be32, ◌^◌, ◌-◌, ◌/◌, ◌||◌,
}
use moc.Client.Packet.{max_packet_len, advance, unpack_hdf}
use moc.Server.Reply.{ReqInfo, rep_err_broken, rep_err_mem, rep_err_ver}
use moc.Server.Mocd.{find_entry_in_table}
use moc.Server.Parse.{
  DataOps, Memory, Server, strncmp_eq, status_name, clientmod_name, reply_mini, fill_sync_flag,
  parse_stats, parse_clientmod, proto_ver,
}
use moc.Server.Parse.Message.{
  make_queue_long_entry, is_busy, reserved, put_in_queue_long, parse_event, parse_message, le32,
}
use moc.Server.Parse.Effect.{Effect, told, put_lem}

module _ (data_ops : DataOps) where
  open data_ops use {hdf}

  reserved_failed :
      (answer : Server hdf.Hdf → Option (Server hdf.Hdf)) (memory : Memory) (ename : Bytes)
      (h : hdf.Hdf) (refs : ℕ) (s : Server hdf.Hdf) (refs' : ℕ) (s' : Server hdf.Hdf)
      → reserved data_ops answer memory ename h refs s ≡ some (false, refs', s')
      → s' ≡ s
  unfolding reserved
  reserved_failed answer memory ename h refs s refs' s' run =
      elim (Option-cases (make_queue_long_entry memory s.req ename h refs)) [
        | inl bad ↦ absurd (ground arith)
        | inr ((none, refs''), e) ↦ ground arith
        | inr ((some item, refs''), e) ↦ elim (Option-cases (answer s)) [
          | inl bad ↦ absurd (ground arith)
          | inr (s'', a) ↦ absurd (ground arith)
        ]
      ]

  -- Without memory nothing is done.
  put_failed :
      (memory : Memory) (sync : Bool) (ename : Bytes) (h : hdf.Hdf) (refs : ℕ) (s : Server hdf.Hdf)
      (refs' : ℕ) (s' : Server hdf.Hdf)
      → put_in_queue_long data_ops memory sync ename h refs s ≡ some (false, refs', s')
      → s' ≡ s
  unfolding put_in_queue_long
  put_failed memory sync ename h refs s refs' s' run =
      elim (Option-cases (find_entry_in_table s.g_moc ename)) [
        | inl unknown ↦ elim (Bool-cases (strncmp_eq ename status_name (length ename))) [
          | inl status ↦
              reserved_failed (parse_stats data_ops memory) memory ename h refs s refs' s'
                (ground arith)
          | inr other ↦ elim (Bool-cases (strncmp_eq ename clientmod_name (length ename))) [
            | inl clientmod ↦
                reserved_failed (parse_clientmod data_ops memory) memory ename h refs s refs' s'
                  (ground arith)
            | inr neither ↦ absurd (ground arith)
          ]
        ]
        | inr (entry, at) ↦ elim (Bool-cases (is_busy (length entry.op_queue))) [
          | inl busy ↦ absurd (ground arith)
          | inr free ↦ elim (Option-cases (make_queue_long_entry memory s.req ename h refs)) [
            | inl bad ↦ absurd (ground arith)
            | inr ((none, refs''), e) ↦ ground arith
            | inr ((some item, refs''), e) ↦ absurd (ground arith)
          ]
        ]
      ]

  then_told :
      (sync rv : Bool) (s s1 s' : Server hdf.Hdf)
      → Effect s s1
      → (rv ≡ false → s1 ≡ s)
      → s' ≡ (if not rv && sync then reply_mini rep_err_mem s1 else s1)
      → Effect s s'
  then_told sync true s s1 s' effect failed eq = rw eq effect
  then_told sync false s s1 s' effect failed eq =
      told sync rep_err_mem s s1 s' (ap (λ t. t.sent) (failed refl))
        (ap (λ t. t.g_moc) (failed refl)) eq

  event_lem :
      (memory : Memory) (payload : Bytes) (refs : ℕ) (s : Server hdf.Hdf) (refs' : ℕ)
      (s' : Server hdf.Hdf)
      → parse_event data_ops memory payload refs s ≡ some (refs', s')
      → Effect s s'
  unfolding parse_event
  event_lem memory payload refs s refs' s' run =
      let psize = length payload in
      let sync = fill_sync_flag s.req in
      elim (Option-cases (read32 payload)) [
        | inl bad ↦ absurd (ground arith)
        | inr (esize, e1) ↦ elim (Option-cases (advance 4 payload)) [
          | inl bad ↦ absurd (ground arith)
          | inr (pos, e2) ↦ elim (Option-cases (advance esize pos)) [
            | inl bad ↦ absurd (ground arith)
            | inr (rest, e3) ↦
                let unpacked =
                  unpack_hdf hdf (some rest) ((psize + 2 ^ 64 - esize - 4) % 2 ^ 64) hdf.init in
                elim (Option-cases unpacked) [
                  | inl bad ↦ absurd (ground arith)
                  | inr ((rsize, h), e4) ↦
                      let broken =
                        rsize == 0
                        || ltb max_packet_len ((rsize + esize) % 2 ^ 32 + 4)
                        || ltb psize esize in
                      elim (Bool-cases broken) [
                        | inl is ↦
                            let t : Server hdf.Hdf = record s {
                              stats = record s.stats {
                                net_broken_req = s.stats.net_broken_req + 1;
                              };
                            } in
                            told sync rep_err_broken s t s' refl refl (ground arith)
                        | inr not_broken ↦
                            let put =
                              put_in_queue_long data_ops memory sync (take esize pos) h refs s in
                            elim (Option-cases put) [
                              | inl bad ↦ absurd (ground arith)
                              | inr ((rv, refs1, s1), e5) ↦
                                  then_told sync rv s s1 s'
                                    (put_lem data_ops memory sync (take esize pos) h refs s rv refs1
                                      s1 e5)
                                    (λ no.
                                      put_failed memory sync (take esize pos) h refs s refs1 s1
                                        (rw no at e5))
                                    (ground arith)
                            ]
                      ]
                ]
          ]
        ]
      ]

  -- For any message that it handles without a fault, and whatever the memory and the modules,
  -- `parse_message` sends at most one reply, and changes the table of modules by at most one entry,
  -- in the queue of a module that is not busy.
  -- Condition: there is no fault, that is no read outside the message, and no failed allocation whose
  -- error path goes wrong.
  pub parse_message-Effect :
      (memory : Memory) (buf : Bytes) (refs : ℕ) (s : Server hdf.Hdf) (rv : Bool) (refs' : ℕ)
      (s' : Server hdf.Hdf)
      → parse_message data_ops memory buf refs s ≡ some (rv, refs', s')
      → Effect s s'
  unfolding parse_message
  parse_message-Effect memory buf refs s rv refs' s' run = elim (Bool-cases (ltb (length buf) 17)) [
    | inl short ↦
        told true rep_err_broken s
          (record s { stats = record s.stats { net_broken_req = s.stats.net_broken_req + 1 } }) s'
          refl refl (ground arith)
    | inr long ↦ elim (Option-cases (read32 buf)) [
      | inl bad ↦ absurd (ground arith)
      | inr (hdr, e1) ↦ elim (Option-cases (read16 (drop 4 buf))) [
        | inl bad ↦ absurd (ground arith)
        | inr (cmd, e2) ↦ elim (Option-cases (read16 (drop 6 buf))) [
          | inl bad ↦ absurd (ground arith)
          | inr (flags, e3) ↦ elim (Bool-cases (hdr / 2 ^ 28 == proto_ver)) [
            | inr mismatch ↦
                told true rep_err_ver s
                  (record s {
                    stats = record s.stats {
                      net_version_mismatch = s.stats.net_version_mismatch + 1;
                    };
                    req = record s.req { id = le32 (hdr % 2 ^ 28) };
                  })
                  s' refl refl (ground arith)
            | inl version ↦
                let req : ReqInfo = record { id = be32 (hdr % 2 ^ 28); cmd = cmd; flags = flags } in
                elim (Option-cases
                  (parse_event data_ops memory (drop 8 buf) refs (record s { req = req }))) [
                    | inl bad ↦ absurd (ground arith)
                    | inr ((refs1, s1), e4) ↦
                        let eff : Effect s s1 =
                          event_lem memory (drop 8 buf) refs (record s { req = req }) refs1 s1 e4 in
                        let same : s' ≡ s1 = ground arith in rw same eff
                  ]
          ]
        ]
      ]
    ]
  ]
