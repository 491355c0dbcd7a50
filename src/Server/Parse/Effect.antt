-- ===== src/Server/Parse/Effect.antt =====
-- What a message changes on any branch of server/parse.c: at most one reply is sent, and at most one
-- entry is queued, in a queue that is not busy.
use moc.Shared.{
  ℕ, ◌+◌, ◌≤◌, ◌≡◌, refl, sym, ◌∙◌, Bool, true, false, Option, none, some, Option-cases, Bool-cases,
  ◌⊎◌, inl, inr, List, [], ◌∷◌, ◌++◌, append-nil, arith, if◌then◌else◌, ◌>>=◌, length, Bytes,
}
use moc.Server.Queue.Order.{enqueue}
use moc.Server.Reply.{tcp_reply_mini, rep_err_unkreq, rep_err_busy, rep_ok}
use moc.Server.Mocd.{EventEntry, Moc, find_entry_in_table, update_queue}
use moc.Server.Parse.{
  DataOps, Memory, QueueItem, Server, strncmp_eq, status_name, clientmod_name, reply_mini,
  reply_trigger, parse_stats, parse_clientmod,
}
use moc.Server.Parse.Message.{make_queue_long_entry, is_busy, reserved, put_in_queue_long}

module _ {Hdf : Type 0} where
  -- At most one reply is sent.
  abbrev pub Replies : Server Hdf → Server Hdf → Type 0
  Replies s s' = (out : List Bytes) × (s'.sent ≡ s.sent ++ out) × (length out ≤ 1)

  -- The table as it was, or with one entry more in a queue that is not busy.
  abbrev pub Grows : Moc (QueueItem Hdf) → Moc (QueueItem Hdf) → Type 0
  Grows evt evt' =
      (evt' ≡ evt)
      ⊎ ((name : Bytes) × (sync : Bool) × (item : QueueItem Hdf) × (e : EventEntry (QueueItem Hdf))
          × (find_entry_in_table evt name ≡ some e)
          × (is_busy (length e.op_queue) ≡ false)
          × (evt' ≡ update_queue evt name (enqueue sync item)))

  abbrev pub Effect : Server Hdf → Server Hdf → Type 0
  Effect s s' = Replies s s' × Grows s.g_moc s'.g_moc

  quiet : (s s' : Server Hdf) → s'.sent ≡ s.sent → s'.g_moc ≡ s.g_moc → Effect s s'
  quiet s s' same table = (([], same ∙ sym (append-nil s.sent), omega arith), inl table)

  answered :
      (s s' : Server Hdf) (out : Bytes)
      → s'.sent ≡ s.sent ++ out ∷ []
      → s'.g_moc ≡ s.g_moc
      → Effect s s'
  answered s s' out more table = ((out ∷ [], more, omega arith), inl table)

  -- A reply that is sent only for a synchronous request.
  pub told :
      (sync : Bool) (code : ℕ) (s t s' : Server Hdf)
      → t.sent ≡ s.sent
      → t.g_moc ≡ s.g_moc
      → s' ≡ (if sync then reply_mini code t else t)
      → Effect s s'
  unfolding reply_mini
  told true code s t s' sent table eq =
      answered s s' (tcp_reply_mini t.req code) (ground arith) (ground arith)
  told false code s t s' sent table eq = quiet s s' (ground arith) (ground arith)

module _ (data_ops : DataOps) where
  open data_ops use {hdf}

  trigger_lem :
      (memory : Bool) (h : hdf.Hdf) (code : ℕ) (s s' : Server hdf.Hdf)
      → (do
        (rv, out) ← reply_trigger data_ops memory h s.req code
        some (record s { sent = s.sent ++ out ∷ [] }))
        ≡ some s'
      → Effect s s'
  trigger_lem memory h code s s' run =
      elim (Option-cases (reply_trigger data_ops memory h s.req code)) [
        | inl bad ↦ absurd (ground arith)
        | inr ((rv, out), e) ↦ answered s s' out (ground arith) (ground arith)
      ]

  stats_lem :
      (memory : Memory) (s s' : Server hdf.Hdf)
      → parse_stats data_ops memory s ≡ some s'
      → Effect s s'
  unfolding parse_stats
  stats_lem memory s s' run = trigger_lem memory.reply _ _ s s' run

  clientmod_lem :
      (memory : Memory) (s s' : Server hdf.Hdf)
      → parse_clientmod data_ops memory s ≡ some s'
      → Effect s s'
  unfolding parse_clientmod reply_mini
  clientmod_lem memory s s' run = elim (Option-cases s.clientmod) [
    | inl none_set ↦
        answered s s' (tcp_reply_mini s.req rep_err_unkreq) (ground arith) (ground arith)
    | inr (node, e) ↦
        let reply =
          reply_trigger data_ops memory.reply (data_ops.copy_modules hdf.init node) s.req rep_ok in
        elim (Option-cases reply) [
          | inl bad ↦ absurd (ground arith)
          | inr ((rv, out), sends) ↦ answered s s' out (ground arith) (ground arith)
        ]
  ]

  reserved_lem :
      (answer : Server hdf.Hdf → Option (Server hdf.Hdf))
      → ((s s' : Server hdf.Hdf) → answer s ≡ some s' → Effect s s')
      → (memory : Memory) (ename : Bytes) (h : hdf.Hdf) (refs : ℕ) (s : Server hdf.Hdf) (rv : Bool)
        (refs' : ℕ) (s' : Server hdf.Hdf)
      → reserved data_ops answer memory ename h refs s ≡ some (rv, refs', s')
      → Effect s s'
  unfolding reserved
  reserved_lem answer effect memory ename h refs s rv refs' s' run =
      elim (Option-cases (make_queue_long_entry memory s.req ename h refs)) [
        | inl bad ↦ absurd (ground arith)
        | inr ((none, refs''), e) ↦ quiet s s' (ground arith) (ground arith)
        | inr ((some item, refs''), e) ↦ elim (Option-cases (answer s)) [
          | inl bad ↦ absurd (ground arith)
          | inr (s'', a) ↦ effect s s' (ground arith)
        ]
      ]

  unknown_lem :
      (memory : Memory) (sync : Bool) (ename : Bytes) (h : hdf.Hdf) (refs : ℕ) (s : Server hdf.Hdf)
      (rv : Bool) (refs' : ℕ) (s' : Server hdf.Hdf)
      → find_entry_in_table s.g_moc ename ≡ none
      → put_in_queue_long data_ops memory sync ename h refs s ≡ some (rv, refs', s')
      → Effect s s'
  unfolding put_in_queue_long
  unknown_lem memory sync ename h refs s rv refs' s' unknown run =
      elim (Bool-cases (strncmp_eq ename status_name (length ename))) [
        | inl status ↦
            reserved_lem (parse_stats data_ops memory) (stats_lem memory) memory ename h refs s rv
              refs' s' (ground arith)
        | inr other ↦ elim (Bool-cases (strncmp_eq ename clientmod_name (length ename))) [
          | inl clientmod ↦
              reserved_lem (parse_clientmod data_ops memory) (clientmod_lem memory) memory ename h
                refs s rv refs' s' (ground arith)
          | inr neither ↦
              told sync rep_err_unkreq s
                (record s { stats = record s.stats { net_unk_req = s.stats.net_unk_req + 1 } }) s'
                refl refl (ground arith)
        ]
      ]

  pub put_lem :
      (memory : Memory) (sync : Bool) (ename : Bytes) (h : hdf.Hdf) (refs : ℕ) (s : Server hdf.Hdf)
      (rv : Bool) (refs' : ℕ) (s' : Server hdf.Hdf)
      → put_in_queue_long data_ops memory sync ename h refs s ≡ some (rv, refs', s')
      → Effect s s'
  unfolding put_in_queue_long
  put_lem memory sync ename h refs s rv refs' s' run =
      elim (Option-cases (find_entry_in_table s.g_moc ename)) [
        | inl unknown ↦ unknown_lem memory sync ename h refs s rv refs' s' unknown run
        | inr (entry, at) ↦ elim (Bool-cases (is_busy (length entry.op_queue))) [
          | inl busy ↦
              told sync rep_err_busy s
                (record s { stats = record s.stats { pro_busy = s.stats.pro_busy + 1 } }) s' refl
                refl (ground arith)
          | inr free ↦ elim (Option-cases (make_queue_long_entry memory s.req ename h refs)) [
            | inl bad ↦ absurd (ground arith)
            | inr ((none, refs''), e) ↦ quiet s s' (ground arith) (ground arith)
            | inr ((some item, refs''), e) ↦
                let same : s'.sent ≡ s.sent = ground arith in
                (
                  ([], same ∙ sym (append-nil s.sent), omega arith),
                  inr (ename, sync, item, entry, at, free, ground arith),
                )
          ]
        ]
      ]
