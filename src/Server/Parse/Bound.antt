-- ===== src/Server/Parse/Bound.antt =====
-- The bound that `put_in_queue_long` of server/parse.c keeps on the queue of a module.
use moc.Shared.{
  ℕ, ◌+◌, ◌≤◌, ◌≡◌, sym, ◌∙◌, Bool, true, false, some, Bool-cases, inl, inr, List, [], ◌∷◌, arith,
  length, length-append, Bytes,
}
use moc.Server.Queue.Order.{enqueue}
use moc.Server.Mocd.{EventEntry, Moc, find_entry_in_table}
use moc.Server.Mocd.Finds.{update_queue-finds}
use moc.Server.Hash.{same_key, same_key-≡}
use moc.Server.Parse.{DataOps, Memory, QueueItem, Server}
use moc.Server.Parse.Message.{is_busy, parse_message}
use moc.Server.Parse.Effect.{Grows}
use moc.Server.Parse.Whole.{parse_message-Effect}

-- The first size above MAX_QUEUE_ENTRY that `put_in_queue_long` looks at.
abbrev pub queue_bound : ℕ
queue_bound = 2097200

not_busy_room : (n : ℕ) → n ≤ queue_bound → is_busy n ≡ false → n + 1 ≤ queue_bound
unfolding is_busy
not_busy_room n h free = ground arith

module _ {Hdf : Type 0} where
  -- No module has more entries than the bound.
  abbrev pub IsBounded : Moc (QueueItem Hdf) → Type 0
  IsBounded evt =
      (key : Bytes) (e : EventEntry (QueueItem Hdf))
      → find_entry_in_table evt key ≡ some e
      → length e.op_queue ≤ queue_bound

  enqueue-length :
      (sync : Bool) (item : QueueItem Hdf) (xs : List (QueueItem Hdf))
      → length (enqueue sync item xs) ≡ length xs + 1
  unfolding enqueue
  enqueue-length true item xs = omega arith
  enqueue-length false item xs = omega (arith, length-append xs (item ∷ []))

  Grows-IsBounded :
      (evt evt' : Moc (QueueItem Hdf)) → IsBounded evt → Grows evt evt' → IsBounded evt'
  Grows-IsBounded evt evt' is (inl same) key e found = is key e (rw same at found)
  Grows-IsBounded evt evt' is (inr (name, sync, item, e0, at, free, eq)) key e found =
      let look = sym (update_queue-finds evt name key (enqueue sync item)) ∙ rw eq at found in
      elim (Bool-cases (same_key key name)) [
        | inr apart ↦ is key e (rw apart at look)
        | inl same ↦
            let name_eq = same_key-≡ key name same in
            let one : some (record e0 { op_queue = enqueue sync item e0.op_queue }) ≡ some e =
              rw (same, name_eq, at) at look in
            ground (
              arith,
              enqueue-length sync item e0.op_queue,
              not_busy_room (length e0.op_queue) (is name e0 at) free,
            )
      ]

module _ (data_ops : DataOps) where
  open data_ops use {hdf}

  -- No message makes the queue of a module longer than 2097200 entries, whatever its bytes.
  -- Conditions: no queue was longer before, and the message does not make `parse_message` read
  -- outside its bytes.
  pub parse_message-IsBounded :
      (memory : Memory) (buf : Bytes) (refs : ℕ) (s : Server hdf.Hdf) (rv : Bool) (refs' : ℕ)
      (s' : Server hdf.Hdf)
      → parse_message data_ops memory buf refs s ≡ some (rv, refs', s')
      → IsBounded s.g_moc
      → IsBounded s'.g_moc
  parse_message-IsBounded memory buf refs s rv refs' s' run is =
      Grows-IsBounded s.g_moc s'.g_moc is
        (parse_message-Effect data_ops memory buf refs s rv refs' s' run).1
