-- ===== src/Server/Queue/Fifo.antt =====
-- The queue of server/queue.c refines a list, over runs of any length.
use moc.Shared.{
  ℕ, zero, suc, ◌+◌, ◌-◌, ◌<◌, ◌≤◌, ◌≡◌, ◌≢◌, refl, Bool, true, false, Option, none, some, List, [],
  ◌∷◌, ◌++◌, map, ap, sym, ◌==◌, arith, if◌then◌else◌, ◌>>=◌, length, length-append,
}
use moc.Server.Queue.{
  Ptr, null, size_mod, QueueEntry, Heap, Queue, write, queue_entry_create, queue_put, queue_cas,
  queue_get, queue_free,
}
use moc.Server.Queue.Shape.{Cells, has, IsQueue, IsLoose, Linked-write}
use moc.Server.Queue.Laws.{queue_put_lem, queue_cas_lem, queue_get-cons, queue_get-nil}
use moc.Server.Queue.Order.{enqueue, dequeue}

-- What the threads of a module do with its queue, each under the lock.
pub data Call {ℓ} (A : Type ℓ) : Type ℓ where
  -- A new entry, created at the address that malloc gives, and put in its place.
  offer : (sync : Bool) → Ptr → A → Call A
  -- One entry is taken out, if there is one.
  serve : Call A

ne_null : (p : Ptr) → p ≢ null → (p == null) ≡ false
ne_null p ne = ground arith

module _ {ℓ} {A : Type ℓ} where
  -- One call. `serve` reads the entry that it got and frees it, as the loop of a module does.
  unfoldable pub call : Call A → Heap A → Queue → Option (Heap A × Queue × Option A)
  unfolding write
  call (offer sync fresh item) h q = do
    h' ← queue_entry_create fresh item h
    (h'', q') ← if sync then queue_cas q fresh h' else queue_put q fresh h'
    some (h'', q', none)
  call serve h q = do
    (e, q') ← queue_get q h
    if e == null then some (h, q', none) else do n ← h e; some (write h e none, q', some n.item)

  -- A run of calls, with their results.
  unfoldable pub run : List (Call A) → Heap A → Queue → Option (Heap A × Queue × List (Option A))
  run [] h q = some (h, q, [])
  run (c ∷ cs) h q = do
    (h', q', out) ← call c h q
    (h'', q'', outs) ← run cs h' q'
    some (h'', q'', out ∷ outs)

  -- The same calls on a list of contents: a result, and what is left.
  unfoldable pub call_list : Call A → List A → Option A × List A
  unfolding enqueue dequeue
  call_list (offer sync _ item) xs = (none, enqueue sync item xs)
  call_list serve xs = dequeue xs

  unfoldable pub run_list : List (Call A) → List A → List (Option A) × List A
  run_list [] xs = ([], xs)
  run_list (c ∷ cs) xs =
      let (out, rest) = call_list c xs in let (outs, end) = run_list cs rest in (out ∷ outs, end)

  -- What malloc promises: the address of a new entry is not NULL and not that of a live entry.
  abbrev pub IsFresh : Call A → Cells A → Type 0
  IsFresh (offer sync fresh item) xs = (fresh ≢ null) × (has fresh xs ≡ false)
  IsFresh serve xs = Unit {0}

  -- The cells that a call leaves.
  unfoldable pub call_cells : Call A → Cells A → Cells A
  unfolding enqueue dequeue
  call_cells (offer sync fresh item) xs = enqueue sync (fresh, item) xs
  call_cells serve xs = (dequeue xs).1

  abbrev pub AllFresh : List (Call A) → Cells A → Type 0
  AllFresh [] xs = Unit {0}
  AllFresh (c ∷ cs) xs = IsFresh c xs × AllFresh cs (call_cells c xs)

  abbrev pub items : Cells A → List A
  items = map (λ c. c.1)

  items-append : (xs : Cells A) (e : Ptr) (v : A) → items (xs ++ (e, v) ∷ []) ≡ items xs ++ v ∷ []
  items-append [] e v = refl
  items-append (x ∷ xs) e v = ap (◌∷◌ x.1) (items-append xs e v)

  call_list-cells :
      (c : Call A) (xs : Cells A) → (call_list c (items xs)).1 ≡ items (call_cells c xs)
  unfolding call_list call_cells
  call_list-cells (offer true p a) xs = refl
  call_list-cells (offer false p a) xs = sym (items-append xs p a)
  call_list-cells serve [] = refl
  call_list-cells serve (x ∷ xs) = refl

  call_cells-length : (c : Call A) (xs : Cells A) → length (call_cells c xs) ≤ length xs + 1
  unfolding call_cells
  call_cells-length (offer true p a) xs = omega arith
  call_cells-length (offer false p a) xs = omega (arith, length-append xs ((p, a) ∷ []))
  call_cells-length serve [] = omega arith
  call_cells-length serve (x ∷ xs) = omega arith

  IsQueue-write :
      {h : Heap A} {q : Queue} {xs : Cells A} (p : Ptr) (c : Option (QueueEntry A))
      → has p xs ≡ false
      → IsQueue h q xs
      → IsQueue (write h p c) q xs
  IsQueue-write {h} {xs} p c out is = record {
    size = is.size;
    top = is.top;
    bottom = is.bottom;
    linked = Linked-write h p xs c out is.linked;
  }

  IsLoose-create :
      (h : Heap A) (xs : Cells A) (p : Ptr) (a : A)
      → p ≢ null
      → has p xs ≡ false
      → IsLoose (write h p (some (record { item = a; prev = null }))) xs p a
  unfolding write
  IsLoose-create h xs p a ne out = record { ne_null = ne; holds = ground arith; out = out }

  create_lem :
      (h : Heap A) (p : Ptr) (a : A)
      → p ≢ null
      → queue_entry_create p a h ≡ some (write h p (some (record { item = a; prev = null })))
  unfolding queue_entry_create
  create_lem h p a ne = ground arith

  -- One call on the heap is the call on the list.
  call_lem :
      (c : Call A) {h : Heap A} {q : Queue} (xs : Cells A)
      → IsQueue h q xs
      → IsFresh c xs
      → length xs < size_mod - 1
      → (h' : Heap A) × (q' : Queue) × (call c h q ≡ some (h', q', (call_list c (items xs)).0))
        × IsQueue h' q' (call_cells c xs)
  unfolding call call_list call_cells
  call_lem (offer true p a) {h} xs is (ne, out) room =
      let (h', q', done, is') =
        queue_cas_lem (IsQueue-write p (some (record { item = a; prev = null })) out is)
          (IsLoose-create h xs p a ne out) room in
      (h', q', rw (create_lem h p a ne, done), is')
  call_lem (offer false p a) {h} xs is (ne, out) room =
      let (h', q', done, is') =
        queue_put_lem (IsQueue-write p (some (record { item = a; prev = null })) out is)
          (IsLoose-create h xs p a ne out) room in
      (h', q', rw (create_lem h p a ne, done), is')
  call_lem serve {h} {q} [] is f room = (h, q, rw (queue_get-nil is), is)
  call_lem serve {h} ((p, a) ∷ xs) is f room =
      let (q', done, is') = queue_get-cons p a xs is (omega arith) in
      (
        write h p none,
        q',
        rw (done, is.linked.1, ne_null p is.linked.0),
        IsQueue-write p none is.linked.2 is',
      )

  queue_free_cells :
      (fuel : ℕ) {h : Heap A} {q : Queue} (xs : Cells A)
      → IsQueue h q xs
      → length xs < fuel
      → length xs < size_mod - 1
      → (g : Heap A) × (queue_free fuel q h ≡ some g)
        × ((a : Ptr) → g a ≡ (if has a xs then none else h a))
  unfolding queue_free write
  queue_free_cells zero xs is enough room = absurd (omega arith)
  queue_free_cells (suc fuel) {h} [] is enough room = (h, rw (queue_get-nil is), λ a. refl)
  queue_free_cells (suc fuel) {h} ((p, v) ∷ xs) is enough room =
      let (q', done, is') = queue_get-cons p v xs is (omega arith) in
      let (g, rest, freed) =
        queue_free_cells fuel xs (IsQueue-write p none is.linked.2 is') (omega arith)
          (omega arith) in
      (g, rw (done, ne_null p is.linked.0) rest, λ a. ground (arith, freed a))

  -- `queue_free` ends within one round more than there are entries, frees every entry of the queue
  -- and nothing else, and touches no freed one.
  -- Condition: the count of entries fits a `size_t`.
  pub queue_free_lem :
      {h : Heap A} {q : Queue} (xs : Cells A)
      → IsQueue h q xs
      → length xs < size_mod - 1
      → (g : Heap A) × (queue_free (length xs + 1) q h ≡ some g)
        × ((a : Ptr) → g a ≡ (if has a xs then none else h a))
  queue_free_lem xs is room = queue_free_cells (length xs + 1) xs is (omega arith) room

  -- Any run of calls that starts on a queue standing for `xs` never faults, returns what the same
  -- calls on the list of contents return, and ends on a queue that stands for what they leave: a
  -- synchronous entry is served before all others, asynchronous ones in the order of their arrival.
  -- Conditions: malloc gives fresh addresses, and the count of entries fits a `size_t`.
  pub run-refines_list :
      (cs : List (Call A)) {h : Heap A} {q : Queue} (xs : Cells A)
      → IsQueue h q xs
      → AllFresh cs xs
      → length xs + length cs < size_mod - 1
      → (h' : Heap A) × (q' : Queue) × (ys : Cells A) × (run cs h q
          ≡ some (h', q', (run_list cs (items xs)).0))
        × IsQueue h' q' ys
        × (items ys ≡ (run_list cs (items xs)).1)
  unfolding run run_list
  run-refines_list [] {h} {q} xs is f room = (h, q, xs, refl, is, refl)
  run-refines_list (c ∷ cs) xs is f room =
      let (h', q', done, is') = call_lem c xs is f.0 (omega arith) in
      let (h'', q'', ys, rest, is'', left) =
        run-refines_list cs (call_cells c xs) is' f.1 (omega (arith, call_cells-length c xs)) in
      (h'', q'', ys, rw (done, rest, ← call_list-cells c xs), is'', rw (call_list-cells c xs) left)
