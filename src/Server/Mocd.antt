-- ===== src/Server/Mocd.antt =====
-- The table of modules, server/mocd.c: sixteen chains of entries, each with the queue of its module.
-- A chain is the list from `first` to `last`, its `prev` and `next` links taken as the list's order.
-- The queue of an entry is the list that server/queue.c stands for.
pub mod Finds
use moc.Shared.{
  ℕ, suc, ◌+◌, ◌%◌, Bool, true, false, Option, none, some, List, [], ◌∷◌, leb, ◌==◌, if◌then◌else◌,
  Bytes,
}
use moc.Server.Hash.{hash, same_key}

-- What `init_driver` of a plugin sets: its name, and its functions by their addresses.
pub record Driver : Type 0 where
  pub name : Bytes
  pub process_driver : ℕ
  pub stop_driver : ℕ

-- `struct event_entry`: what the driver has set, and the queue; the thread, the flag to stop it and
-- the timers are left out.
pub record EventEntry {ℓ} (A : Type ℓ) : Type ℓ where
  pub name : Bytes
  pub process_driver : ℕ
  pub stop_driver : ℕ
  pub op_queue : List A

pub record EventChain {ℓ} (A : Type ℓ) : Type ℓ where
  pub len : ℕ
  pub entries : List (EventEntry A)

-- `struct moc`.
pub record Moc {ℓ} (A : Type ℓ) : Type ℓ where
  pub numevts : ℕ
  pub hashlen : ℕ
  pub chainlen : ℕ
  pub table : ℕ → EventChain A

module _ {ℓ} {A : Type ℓ} where
  unfoldable pub find_in_chain : List (EventEntry A) → Bytes → Option (EventEntry A)
  find_in_chain [] key = none
  find_in_chain (e ∷ es) key = if same_key key e.name then some e else find_in_chain es key

  unfoldable pub find_entry_in_table : Moc A → Bytes → Option (EventEntry A)
  unfolding find_in_chain
  find_entry_in_table evt key = find_in_chain (evt.table (hash key % evt.hashlen)).entries key

  unfoldable pub set_chain : Moc A → ℕ → EventChain A → Moc A
  set_chain evt h c = record evt { table = λ i. if i == h then c else evt.table i }

  -- The entry that `init_driver` made, `none` when it failed, gets an empty queue and its place.
  unfoldable pub moc_start_driver : Moc A → Option Driver → Bool × Moc A
  unfolding set_chain
  moc_start_driver evt none = (false, evt)
  moc_start_driver evt (some d) =
      let h = hash d.name % evt.hashlen in
      let c = evt.table h in
      let e : EventEntry A = record {
        name = d.name;
        process_driver = d.process_driver;
        stop_driver = d.stop_driver;
        op_queue = [];
      } in
      if c.len == 0
      then (true, set_chain evt h (record { len = 1; entries = e ∷ [] }))
      else (if leb c.len evt.chainlen
          then (true, set_chain evt h (record { len = c.len + 1; entries = e ∷ c.entries }))
          else (false, evt))

  -- The table as `calloc` and the assignments of `moc_start` leave it.
  unfoldable pub moc_create : Moc A
  moc_create = record {
    numevts = 0;
    hashlen = 16;
    chainlen = 1000000;
    table = λ i. record { len = 0; entries = [] };
  }

  -- The loop over the configured plugins; `none` is one that cannot be opened or started.
  unfoldable pub moc_start_plugins : List (Option Driver) → Moc A → Moc A
  unfolding moc_start_driver
  moc_start_plugins [] evt = evt
  moc_start_plugins (p ∷ ps) evt =
      let (ret, evt') = moc_start_driver evt p in
      moc_start_plugins ps (if ret then record evt' { numevts = evt'.numevts + 1 } else evt')

  unfoldable pub moc_start : List (Option Driver) → Moc A
  unfolding moc_start_plugins moc_create
  moc_start plugins = moc_start_plugins plugins moc_create

  -- A write through the pointer that `find_entry_in_table` returns.
  unfoldable pub update_in_chain :
      List (EventEntry A) → Bytes → (List A → List A) → List (EventEntry A)
  update_in_chain [] key f = []
  update_in_chain (e ∷ es) key f =
      if same_key key e.name
      then record e { op_queue = f e.op_queue } ∷ es
      else e ∷ update_in_chain es key f

  unfoldable pub update_queue : Moc A → Bytes → (List A → List A) → Moc A
  unfolding update_in_chain set_chain
  update_queue evt key f =
      let h = hash key % evt.hashlen in
      let c = evt.table h in
      set_chain evt h (record c { entries = update_in_chain c.entries key f })
