-- ===== src/Plugin/Chat/Serve/Counts.antt =====
-- That each request is counted and answered once.
use moc.Shared.{
  ℕ, ◌+◌, ◌≡◌, refl, subst, Bool, true, false, not, ◌&&◌, ◌||◌, Bool-cases, ◌⊎◌, inl, inr, Option,
  none, some, List, [], ◌∷◌, arith, leb, ◌==◌, if◌then◌else◌, ◌>>=◌, length, Bytes,
}
use moc.Shared.Tables.{HashOps}
use moc.Client.Packet.{max_packet_len}
use moc.Client.Packet.Trip.{pack_hdf_total}
use moc.Client.Trigger.{is_sync}
use moc.Plugin.Base.{Ptr, BaseInfo}
use moc.Plugin.Chat.{Status, Sent}
use moc.Plugin.Chat.Serve.{
  ServeOps, ChatStats, Entry, ChatEntry, Served, data_ops, of_cache, of_chat, cmd_stats,
  unknown_cmd, sys_cmd, chat_cmd, dispatch, count_result, trace_err, result_code,
  chat_process_driver,
}
use moc.Plugin.Chat.Serve.Counters.{
  IsCounted, CountsOnce, count_result-CountsOnce, count_total, count_stats, count_unknown,
}
use moc.Server.Hash.{same_key}
use moc.Server.Parse.{zeros, length-zeros, reply_trigger}
use moc.Server.Reply.{
  ReqInfo, tcp_reply_mini, tcp_reply_long, rep_ok, rep_err_unkreq, rep_err_mem, rep_err_pack,
}
use moc.Server.Commands.{Outcome}

-- What holds of the result, if there is one.
abbrev Whenever {ℓ} : {A : Type ℓ} → (A → Type 0) → Option A → Type 0
Whenever P none = Unit {0}
Whenever P (some d) = P d

Whenever-bind :
    {A B : Type 0} (P : B → Type 0) (o : Option A) (f : A → B)
    → ((a : A) → P (f a))
    → Whenever P (do a ← o; some (f a))
Whenever-bind P none f all = tt
Whenever-bind P (some a) f all = all a

Whenever-if :
    {B : Type 0} (P : B → Type 0) (b : Bool) (x y : Option B)
    → Whenever P x
    → Whenever P y
    → Whenever P (if b then x else y)
Whenever-if P true x y l r = l
Whenever-if P false x y l r = r

Whenever-some :
    {B : Type 0} (P : B → Type 0) (o : Option B) (d : B) → Whenever P o → o ≡ some d → P d
Whenever-some P o d h is = subst (Whenever P) is h

module _ (table : HashOps same_key Ptr) (ops : ServeOps) where
  open ops use {push}
  open push use {hdf}

  -- What a command does to the counters.
  abbrev Counters : ChatStats → Served table ops → Type 0
  Counters st d =
      (d.entry.st ≡ st)
      ⊎ ((d.entry.st ≡ record st { msg_stats = st.msg_stats + 1 }) × (d.err ≡ none))
      ⊎ ((d.entry.st ≡ record st { msg_unrec = st.msg_unrec + 1 }) × (d.err ≡ some rep_err_unkreq))

  dispatch-Counters :
      (t : Entry hdf.Hdf) (e : ChatEntry table ops)
      → Whenever (Counters e.st) (dispatch table ops t e)
  unfolding dispatch of_cache of_chat cmd_stats unknown_cmd
  dispatch-Counters t e =
      let h = t.request.hdfsnd in
      let stats : Whenever (Counters e.st) (some (cmd_stats table ops e h)) =
        inr (inl (refl, refl)) in
      let unknown : Whenever (Counters e.st) (some (unknown_cmd table ops e h)) =
        inr (inr (refl, refl)) in
      let op = t.operation in
      let c1 = leb 100 op && leb op 103 in
      let c2 = op == 1001 || op == 1002 || op == 1011 || op == 1012 in
      let c3 = op == 1000 in
      let of1 : Outcome hdf.Hdf → Served table ops = λ out. of_cache table ops e out in
      let of2 : Status × Sent × BaseInfo table → Served table ops =
        λ out. of_chat table ops e h out in
      let s1 : Option (Served table ops) = (do out ← sys_cmd table ops t e; some (of1 out)) in
      let s2 : Option (Served table ops) = (do out ← chat_cmd table ops t e; some (of2 out)) in
      let s3 : Option (Served table ops) = some (cmd_stats table ops e h) in
      let s4 : Option (Served table ops) = some (unknown_cmd table ops e h) in
      let p1 = Whenever-bind (Counters e.st) (sys_cmd table ops t e) of1 (λ out. inl refl) in
      let p2 = Whenever-bind (Counters e.st) (chat_cmd table ops t e) of2 (λ out. inl refl) in
      let p3 = Whenever-if (Counters e.st) c3 s3 s4 stats unknown in
      let p4 = Whenever-if (Counters e.st) c2 s2 (if c3 then s3 else s4) p2 p3 in
      Whenever-if (Counters e.st) c1 s1 (if c2 then s2 else (if c3 then s3 else s4)) p1 p4

  count_result-IsCounted :
      (st : ChatStats) (d : Served table ops)
      → IsCounted st
      → Counters (record st { msg_total = st.msg_total + 1 }) d
      → IsCounted (count_result (result_code d.err) d.entry.st)
  unfolding result_code
  count_result-IsCounted st d is (inl same) = rw same (count_total st (result_code d.err) is)
  count_result-IsCounted st d is (inr (inl (same, ok))) = rw (same, ok) (count_stats st is)
  count_result-IsCounted st d is (inr (inr (same, bad))) = rw (same, bad) (count_unknown st is)

  counted_once :
      (st : ChatStats) (d : Served table ops)
      → Counters (record st { msg_total = st.msg_total + 1 }) d
      → CountsOnce (result_code d.err) st (count_result (result_code d.err) d.entry.st)
  counted_once st d (inl same) =
      rw same (count_result-CountsOnce (result_code d.err) st.msg_stats st.msg_unrec st)
  counted_once st d (inr (inl (same, ok))) =
      rw same (count_result-CountsOnce (result_code d.err) (st.msg_stats + 1) st.msg_unrec st)
  counted_once st d (inr (inr (same, bad))) =
      rw same (count_result-CountsOnce (result_code d.err) st.msg_stats (st.msg_unrec + 1) st)

  reply_trigger_total :
      (memory : Bool) (h : hdf.Hdf) (req : ReqInfo) (ret : ℕ)
      → (rv : Bool) × (out : Bytes) × (reply_trigger (data_ops table ops) memory h req ret
          ≡ some (rv, out))
  unfolding reply_trigger
  reply_trigger_total memory h req ret =
      let (buf, vsize, packed) =
        pack_hdf_total hdf h (zeros max_packet_len) (omega (arith, length-zeros max_packet_len)) in
      elim (Bool-cases (not (ops.has_child h))) [
        | inl empty ↦ (true, tcp_reply_mini req ret, rw (reply_trigger, empty) refl)
        | inr filled ↦ elim (Bool-cases memory) [
          | inl enough ↦ elim (Bool-cases (vsize == 0)) [
            | inl nothing ↦ (
              false,
              tcp_reply_mini req rep_err_pack,
              rw (reply_trigger, filled, enough, packed, nothing) refl,
            )
            | inr something ↦ (
              true,
              tcp_reply_long req ret (some buf) vsize,
              rw (reply_trigger, filled, enough, packed, something) refl,
            )
          ]
          | inr short ↦
              (false, tcp_reply_mini req rep_err_mem, rw (reply_trigger, filled, short) refl)
        ]
      ]

  driver_run :
      (t : Entry hdf.Hdf) (e : ChatEntry table ops) (d : Served table ops) (rv : Bool) (out : Bytes)
      → dispatch table ops t (record e { st = record e.st { msg_total = e.st.msg_total + 1 } })
        ≡ some d
      → let ret = result_code d.err in
        reply_trigger
            (data_ops table ops)
            t.reply_memory
            (if leb rep_ok ret then d.hdfsnd else trace_err table ops ret d.hdfsnd)
            t.request.req
            ret
          ≡ some (rv, out)
        → chat_process_driver table ops t e
          ≡ some (
            if is_sync t.request.req.flags then out ∷ [] else [],
            d.pushed,
            record d.entry { st = count_result ret d.entry.st },
          )
  unfolding chat_process_driver
  driver_run t e d rv out ran replied = elim (Bool-cases (is_sync t.request.req.flags)) [
    | inl sync ↦ rw (chat_process_driver, ran, replied, sync) refl
    | inr async ↦ rw (chat_process_driver, ran, replied, async) refl
  ]

  -- When a command comes to an end, with a result or an error, the request is counted once: the
  -- total goes up by one, and so do either the successes or the failures, by its result, with the
  -- failures for bad parameters if it is one. A synchronous one gets just one reply, any other none; the counters
  -- fit together again, and what the command pushed is pushed.
  -- Conditions: the counters fit together before, and the command has no fault.
  pub chat_process_driver-IsCounted :
      (t : Entry hdf.Hdf) (e : ChatEntry table ops) (d : Served table ops)
      → IsCounted e.st
      → dispatch table ops t (record e { st = record e.st { msg_total = e.st.msg_total + 1 } })
        ≡ some d
      → (replies : List Bytes) × (e' : ChatEntry table ops) × (chat_process_driver table ops t e
          ≡ some (replies, d.pushed, e'))
        × CountsOnce (result_code d.err) e.st e'.st
        × IsCounted e'.st
        × (length replies ≡ (if is_sync t.request.req.flags then 1 else 0))
        × (e'.base ≡ d.entry.base)
  chat_process_driver-IsCounted t e d is ran =
      let ret = result_code d.err in
      let (rv, out, replied) =
        reply_trigger_total t.reply_memory
          (if leb rep_ok ret then d.hdfsnd else trace_err table ops ret d.hdfsnd) t.request.req
          ret in
      let e1 = record e { st = record e.st { msg_total = e.st.msg_total + 1 } } in
      let counters = Whenever-some (Counters e1.st) _ d (dispatch-Counters t e1) ran in
      (
        if is_sync t.request.req.flags then out ∷ [] else [],
        record d.entry { st = count_result ret d.entry.st },
        driver_run t e d rv out ran replied,
        counted_once e.st d counters,
        count_result-IsCounted e.st d is counters,
        ground arith,
        refl,
      )
