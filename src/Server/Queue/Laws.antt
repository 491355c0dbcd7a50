-- ===== src/Server/Queue/Laws.antt =====
-- What `queue_put`, `queue_cas` and `queue_get` of server/queue.c do to the list that the queue
-- stands for.
use moc.Shared.{
  ◌+◌, ◌-◌, ◌%◌, ◌<◌, ◌≡◌, ◌≢◌, ◌↔◌, refl, true, false, ◌||◌, Option, some, [], ◌∷◌, ◌++◌, arith,
  ◌==◌, length, length-append, sym,
}
use moc.Server.Queue.{
  Ptr, null, size_mod, QueueEntry, Heap, Queue, write, queue_create, queue_put, queue_cas,
  queue_get, queue_isempty,
}
use moc.Server.Queue.Shape.{Cells, has, first, last, Linked, IsQueue, IsLoose, Linked-write}

module _ {ℓ} {A : Type ℓ} where
  last-append : (xs : Cells A) (e : Ptr) (v : A) → last (xs ++ (e, v) ∷ []) ≡ e
  last-append [] e v = refl
  last-append (x ∷ []) e v = refl
  last-append (x ∷ y ∷ xs) e v = last-append (y ∷ xs) e v

  last-holds :
      (h : Heap A) (x : Ptr × A) (xs : Cells A)
      → Linked h (x ∷ xs)
      → (w : A) × (last (x ∷ xs) ≢ null)
        × (h (last (x ∷ xs)) ≡ some (record { item = w; prev = null }))
  last-holds h (p, w) [] l = (w, l.0, l.1)
  last-holds h x (y ∷ xs) l = last-holds h y xs l.3

  has-last : (x : Ptr × A) (xs : Cells A) → has (last (x ∷ xs)) (x ∷ xs) ≡ true
  has-last x [] = ground arith
  has-last x (y ∷ xs) = ground (arith, has-last y xs)

  has-append :
      (a : Ptr) (xs : Cells A) (e : Ptr) (v : A)
      → has a (xs ++ (e, v) ∷ []) ≡ (has a xs || (a == e))
  has-append a [] e v = ground arith
  has-append a (x ∷ xs) e v = ground (arith, has-append a xs e v)

  has-ne : (a b : Ptr) (xs : Cells A) → has a xs ≡ false → has b xs ≡ true → a ≢ b
  has-ne a b xs out hit e = cc

  write_apart :
      (h : Heap A) (a p : Ptr) (c : Option (QueueEntry A)) {d : Option (QueueEntry A)}
      → a ≢ p
      → h a ≡ d
      → write h p c a ≡ d
  unfolding write
  write_apart h a p c ne at = ground arith

  -- Writing the last link lengthens the chain by one entry.
  Linked-append :
      (h : Heap A) (x : Ptr × A) (xs : Cells A) (e : Ptr) (v w : A)
      → Linked h (x ∷ xs)
      → IsLoose h (x ∷ xs) e v
      → h (last (x ∷ xs)) ≡ some (record { item = w; prev = null })
      → Linked
          (write h (last (x ∷ xs)) (some (record { item = w; prev = e })))
          (x ∷ xs ++ (e, v) ∷ [])
  unfolding write
  Linked-append h (p, u) [] e v w l loose at =
      (l.0, ground arith, ground arith, (loose.ne_null, ground arith, refl, tt))
  Linked-append h (p, u) ((b, c) ∷ xs) e v w l loose at =
      let hit = has-last (b, c) xs in
      let rest : IsLoose h ((b, c) ∷ xs) e v = record {
        ne_null = loose.ne_null;
        holds = loose.holds;
        out = ground arith;
      } in
      (
        l.0,
        write_apart h p (last ((b, c) ∷ xs)) _ (has-ne p _ ((b, c) ∷ xs) l.2 hit) l.1,
        ground (arith, has-append p ((b, c) ∷ xs) e v),
        Linked-append h (b, c) xs e v w l.3 rest at,
      )

  queue_put_cells :
      (h : Heap A) (q : Queue) (xs : Cells A) (e : Ptr) (v : A)
      → IsQueue h q xs
      → IsLoose h xs e v
      → length xs < size_mod - 1
      → (h' : Heap A) × (q' : Queue) × (queue_put q e h ≡ some (h', q'))
        × IsQueue h' q' (xs ++ (e, v) ∷ [])
  unfolding queue_put
  queue_put_cells h q [] e v is loose room = (
    h,
    record { size = 1; top = e; bottom = e },
    ground arith,
    record {
      size = refl;
      top = refl;
      bottom = refl;
      linked = (loose.ne_null, loose.holds, refl, tt);
    },
  )
  queue_put_cells h q (x ∷ xs) e v is loose room =
      let (w, ne, at) = last-holds h x xs is.linked in
      (
        write h (last (x ∷ xs)) (some (record { item = w; prev = e })),
        record q { size = (q.size + 1) % size_mod; top = e },
        rw (is.top, queue_put) (ground arith),
        record {
          size = omega (arith, is.size, length-append xs ((e, v) ∷ []));
          top = sym (last-append (x ∷ xs) e v);
          bottom = is.bottom;
          linked = Linked-append h x xs e v w is.linked loose at;
        },
      )

  queue_cas_linked :
      (h : Heap A) (q : Queue) (e : Ptr) (v : A)
      → (q.top == null) ≡ false
      → (e == null) ≡ false
      → h e ≡ some (record { item = v; prev = null })
      → queue_cas q e h
        ≡ some (
          write h e (some (record { item = v; prev = q.bottom })),
          record q { size = (q.size + 1) % size_mod; bottom = e },
        )
  unfolding queue_cas
  queue_cas_linked h q e v used ne at = rw (used, ne, at)

  queue_cas_cells :
      (h : Heap A) (q : Queue) (xs : Cells A) (e : Ptr) (v : A)
      → IsQueue h q xs
      → IsLoose h xs e v
      → length xs < size_mod - 1
      → (h' : Heap A) × (q' : Queue) × (queue_cas q e h ≡ some (h', q'))
        × IsQueue h' q' ((e, v) ∷ xs)
  unfolding queue_cas write
  queue_cas_cells h q [] e v is loose room = (
    h,
    record { size = 1; top = e; bottom = e },
    ground arith,
    record {
      size = refl;
      top = refl;
      bottom = refl;
      linked = (loose.ne_null, loose.holds, refl, tt);
    },
  )
  queue_cas_cells h q (x ∷ xs) e v is loose room = (
    write h e (some (record { item = v; prev = q.bottom })),
    record q { size = (q.size + 1) % size_mod; bottom = e },
    queue_cas_linked h q e v (rw is.top (ground (arith, (last-holds h x xs is.linked).1)))
        (ground (arith, loose.ne_null)) loose.holds,
    record {
      size = omega (arith, is.size);
      top = is.top;
      bottom = refl;
      linked =
          (loose.ne_null, ground arith, loose.out, Linked-write h e (x ∷ xs) _ loose.out is.linked);
    },
  )

  module _ {h : Heap A} {q : Queue} {xs : Cells A} (is : IsQueue h q xs) where
    pub queue_put_lem :
        {e : Ptr} {v : A}
        → IsLoose h xs e v
        → length xs < size_mod - 1
        → (h' : Heap A) × (q' : Queue) × (queue_put q e h ≡ some (h', q'))
          × IsQueue h' q' (xs ++ (e, v) ∷ [])
    unfolding queue_put
    queue_put_lem {e} {v} loose room = queue_put_cells h q xs e v is loose room

    pub queue_cas_lem :
        {e : Ptr} {v : A}
        → IsLoose h xs e v
        → length xs < size_mod - 1
        → (h' : Heap A) × (q' : Queue) × (queue_cas q e h ≡ some (h', q'))
          × IsQueue h' q' ((e, v) ∷ xs)
    unfolding queue_cas
    queue_cas_lem {e} {v} loose room = queue_cas_cells h q xs e v is loose room

  pub queue_get-cons :
      {h : Heap A} {q : Queue} (e : Ptr) (v : A) (xs : Cells A)
      → IsQueue h q ((e, v) ∷ xs)
      → length xs < size_mod - 1
      → (q' : Queue) × (queue_get q h ≡ some (e, q')) × IsQueue h q' xs
  unfolding queue_get queue_create
  queue_get-cons e v [] is room =
      (queue_create, ground arith, record { size = refl; top = refl; bottom = refl; linked = tt })
  queue_get-cons {q} e v (x ∷ xs) is room = (
    record q { size = (q.size + size_mod - 1) % size_mod; bottom = first (x ∷ xs) },
    ground arith,
    record { size = omega (arith, is.size); top = is.top; bottom = refl; linked = is.linked.3 },
  )

  -- An empty queue, in size and in content, is the same thing.
  pub queue_isempty-nil :
      {h : Heap A} {q : Queue} (xs : Cells A)
      → IsQueue h q xs
      → (queue_isempty q ≡ true) ↔ (xs ≡ [])
  unfolding queue_isempty
  queue_isempty-nil [] is = (λ _. refl, λ _. ground arith)
  queue_isempty-nil (x ∷ xs) is = (λ e. absurd (ground arith), λ e. cc)

  pub queue_get-nil : {h : Heap A} {q : Queue} → IsQueue h q [] → queue_get q h ≡ some (null, q)
  unfolding queue_get
  queue_get-nil is = ground arith
