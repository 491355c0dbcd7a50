-- ===== src/Server/Mocd/Finds.antt =====
-- What `find_entry_in_table` of server/mocd.c finds in a table that `moc_start` has filled.
use moc.Shared.{
  nil_of_length, ℕ, ◌+◌, ◌%◌, ◌≤◌, ◌≡◌, refl, ap, ◌∙◌, true, false, Option, none, some, List, [],
  ◌∷◌, arith, le→leb, ◌==◌, if◌then◌else◌, length, Bytes, Bool-cases, inl, inr,
}
use moc.Server.Hash.{hash, same_key, same_key-≡}
use moc.Server.Mocd.{
  Driver, EventEntry, Moc, find_in_chain, find_entry_in_table, set_chain, moc_start_driver,
  moc_create, moc_start_plugins, moc_start, update_in_chain, update_queue,
}

module _ {ℓ} {A : Type ℓ} where
  -- Every chain counts its entries, and none is longer than `n`.
  abbrev pub IsTable : Moc A → ℕ → Type 0
  IsTable evt n =
      (i : ℕ) → ((evt.table i).len ≡ length (evt.table i).entries) × ((evt.table i).len ≤ n)

  abbrev pub fresh_entry : Driver → EventEntry A
  fresh_entry d = record {
    name = d.name;
    process_driver = d.process_driver;
    stop_driver = d.stop_driver;
    op_queue = [];
  }

  -- The module that a name stands for: the plugin of that name that was started last.
  abbrev pub latest : List (Option Driver) → Bytes → Option (EventEntry A) → Option (EventEntry A)
  latest [] key found = found
  latest (none ∷ ps) key found = latest ps key found
  latest (some d ∷ ps) key found =
      latest ps key (if same_key key d.name then some (fresh_entry d) else found)

  -- The table after a driver has started.
  abbrev pub started : Moc A → Driver → Moc A
  unfolding set_chain
  started evt d =
      let h = hash d.name % evt.hashlen in
      let c = evt.table h in
      set_chain evt h (record { len = c.len + 1; entries = fresh_entry d ∷ c.entries })

  start_run :
      (evt : Moc A) (n : ℕ) (d : Driver)
      → IsTable evt n
      → n ≤ evt.chainlen
      → moc_start_driver evt (some d) ≡ (true, started evt d)
  unfolding moc_start_driver
  start_run evt n d is room =
      let h = hash d.name % evt.hashlen in
      let (count, short) = is h in
      elim (Bool-cases ((evt.table h).len == 0)) [
        | inl empty ↦
            let none_in : (evt.table h).entries ≡ [] =
              nil_of_length (evt.table h).entries (ground arith) in
            let zero_len : (evt.table h).len ≡ 0 = ground arith in rw (empty, none_in, zero_len)
        | inr some_in ↦ rw (some_in, le→leb (evt.table h).len evt.chainlen (omega arith))
      ]

  started-IsTable :
      (evt : Moc A) (n : ℕ) (d : Driver) → IsTable evt n → IsTable (started evt d) (n + 1)
  unfolding set_chain
  started-IsTable evt n d is i = ground (arith, is i, is (hash d.name % evt.hashlen))

  -- A driver that starts is found by its name, and every other name finds what it found before.
  started-finds :
      (evt : Moc A) (d : Driver) (key : Bytes)
      → find_entry_in_table (started evt d) key
        ≡ (if same_key key d.name then some (fresh_entry d) else find_entry_in_table evt key)
  unfolding find_entry_in_table find_in_chain set_chain
  started-finds evt d key = elim (Bool-cases (same_key key d.name)) [
    | inl same ↦
        let at : (hash key % evt.hashlen == hash d.name % evt.hashlen) ≡ true =
          ground (arith, ap hash (same_key-≡ key d.name same)) in
        rw (at, same)
    | inr other ↦ elim (Bool-cases (hash key % evt.hashlen == hash d.name % evt.hashlen)) [
      | inl shared ↦
          let at : hash key % evt.hashlen ≡ hash d.name % evt.hashlen = ground arith in
          rw (shared, other, at)
      | inr apart ↦ rw (other, apart)
    ]
  ]

  numevts_apart :
      (evt : Moc A) (n : ℕ) (key : Bytes)
      → find_entry_in_table (record evt { numevts = n }) key ≡ find_entry_in_table evt key
  unfolding find_entry_in_table
  numevts_apart evt n key = refl

  started_next :
      (ps : List (Option Driver)) (evt : Moc A) (d : Driver)
      → moc_start_driver evt (some d) ≡ (true, started evt d)
      → moc_start_plugins (some d ∷ ps) evt
        ≡ moc_start_plugins ps (record (started evt d) { numevts = evt.numevts + 1 })
  unfolding moc_start_plugins set_chain
  started_next ps evt d run = rw run

  skipped_next :
      (ps : List (Option Driver)) (evt : Moc A)
      → moc_start_plugins (none ∷ ps) evt ≡ moc_start_plugins ps evt
  unfolding moc_start_plugins moc_start_driver
  skipped_next ps evt = refl

  plugins_find :
      (ps : List (Option Driver)) (evt : Moc A) (n : ℕ)
      → IsTable evt n
      → n + length ps ≤ evt.chainlen
      → (key : Bytes)
      → find_entry_in_table (moc_start_plugins ps evt) key
        ≡ latest ps key (find_entry_in_table evt key)
  unfolding moc_start_plugins set_chain
  plugins_find [] evt n is room key = refl
  plugins_find (none ∷ ps) evt n is room key =
      rw (skipped_next ps evt) (plugins_find ps evt n is (omega arith) key)
  plugins_find (some d ∷ ps) evt n is room key =
      let next : Moc A = record (started evt d) { numevts = evt.numevts + 1 } in
      let rest = plugins_find ps next (n + 1) (started-IsTable evt n d is) (omega arith) key in
      rw (started_next ps evt d (start_run evt n d is (omega arith))) (
        rest
        ∙ ap (latest ps key)
            (numevts_apart (started evt d) (evt.numevts + 1) key ∙ started-finds evt d key))

  -- After `moc_start` a name finds the module of that name that was started last, with an empty
  -- queue, and a name of no started plugin finds nothing.
  -- Condition: there are at most 1000000 plugins.
  pub moc_start-finds :
      (ps : List (Option Driver)) (key : Bytes)
      → length ps ≤ 1000000
      → find_entry_in_table (moc_start ps) key ≡ latest ps key none
  unfolding moc_start moc_create find_entry_in_table find_in_chain
  moc_start-finds ps key room =
      plugins_find ps moc_create 0 (λ i. (refl, omega arith)) (omega (arith, room)) key

  abbrev pub updated : (List A → List A) → Option (EventEntry A) → Option (EventEntry A)
  updated f none = none
  updated f (some e) = some (record e { op_queue = f e.op_queue })

  in_chain :
      (es : List (EventEntry A)) (key : Bytes) (f : List A → List A)
      → find_in_chain (update_in_chain es key f) key ≡ updated f (find_in_chain es key)
  unfolding find_in_chain update_in_chain
  in_chain [] key f = refl
  in_chain (e ∷ es) key f = ground (arith, in_chain es key f)

  beside_chain :
      (es : List (EventEntry A)) (key other : Bytes) (f : List A → List A)
      → same_key other key ≡ false
      → find_in_chain (update_in_chain es key f) other ≡ find_in_chain es other
  unfolding find_in_chain update_in_chain
  beside_chain [] key other f apart = refl
  beside_chain (e ∷ es) key other f apart =
      ground (arith, beside_chain es key other f apart, same_key-≡ key e.name)

  -- A change of the queue that a name finds is found there, and no other name finds another queue.
  pub update_queue-finds :
      (evt : Moc A) (key other : Bytes) (f : List A → List A)
      → find_entry_in_table (update_queue evt key f) other ≡ (
          if same_key other key
          then updated f (find_entry_in_table evt other)
          else find_entry_in_table evt other)
  unfolding find_entry_in_table update_queue set_chain
  update_queue-finds evt key other f = elim (Bool-cases (same_key other key)) [
    | inl same ↦
        let eq = same_key-≡ other key same in
        let at : (hash other % evt.hashlen == hash key % evt.hashlen) ≡ true =
          ground (arith, ap hash eq) in
        rw (at, same, eq) (in_chain (evt.table (hash key % evt.hashlen)).entries key f)
    | inr apart ↦ elim (Bool-cases (hash other % evt.hashlen == hash key % evt.hashlen)) [
      | inl shared ↦
          let at : hash other % evt.hashlen ≡ hash key % evt.hashlen = ground arith in
          rw (shared, apart, at)
            (beside_chain (evt.table (hash key % evt.hashlen)).entries key other f apart)
      | inr distinct ↦ rw (apart, distinct)
    ]
  ]
