-- ===== src/Server/Queue.antt =====
-- The message queue of a module, server/queue.c: entries on a heap, linked through `prev` from
-- `bottom`, the next to be served, to `top`. `none` is a fault: an access through a pointer to no
-- live entry. The mutex and the condition variable are not modelled: the callers hold the lock, so
-- an operation is one step.
pub mod Shape
pub mod Laws
pub mod Order
pub mod Fifo
use moc.Shared.{
  ℕ, suc, ◌+◌, ◌-◌, ◌%◌, ◌^◌, Bool, Option, none, some, List, ◌==◌, if◌then◌else◌, ◌>>=◌,
}

abbrev pub Ptr : Type 0
Ptr = ℕ

abbrev pub null : Ptr
null = 0

-- A `size_t` of the server's platform.
abbrev pub size_mod : ℕ
size_mod = 2 ^ 64

-- `struct queue_entry`: what it carries, and the link.
pub record QueueEntry {ℓ} (A : Type ℓ) : Type ℓ where
  pub item : A
  pub prev : Ptr

abbrev pub Heap {ℓ} : Type ℓ → Type ℓ
Heap A = Ptr → Option (QueueEntry A)

pub record Queue : Type 0 where
  pub size : ℕ
  pub top : Ptr
  pub bottom : Ptr

module _ {ℓ} {A : Type ℓ} where
  unfoldable pub write : Heap A → Ptr → Option (QueueEntry A) → Heap A
  write h p c a = if a == p then c else h a

  -- `p->prev = q`
  unfoldable pub set_prev : Ptr → Ptr → Heap A → Option (Heap A)
  unfolding write
  set_prev p q h = do
    e ← if p == null then none else h p
    some (write h p (some (record e { prev = q })))

unfoldable pub queue_create : Queue
queue_create = record { size = 0; top = null; bottom = null }

module _ {ℓ} {A : Type ℓ} where
  -- `queue_entry_create` at the address that malloc gave; NULL is out of memory.
  unfoldable pub queue_entry_create : Ptr → A → Heap A → Option (Heap A)
  unfolding write
  queue_entry_create fresh item h =
      if fresh == null
      then none
      else some (write h fresh (some (record { item = item; prev = null })))

  unfoldable pub queue_put : Queue → Ptr → Heap A → Option (Heap A × Queue)
  unfolding set_prev
  queue_put q e h =
      if q.top == null
      then some (h, record { size = (q.size + 1) % size_mod; top = e; bottom = e })
      else do
        h' ← set_prev q.top e h
        some (h', record q { size = (q.size + 1) % size_mod; top = e })

  unfoldable pub queue_cas : Queue → Ptr → Heap A → Option (Heap A × Queue)
  unfolding set_prev
  queue_cas q e h =
      if q.top == null
      then some (h, record { size = (q.size + 1) % size_mod; top = e; bottom = e })
      else do
        h' ← set_prev e q.bottom h
        some (h', record q { size = (q.size + 1) % size_mod; bottom = e })

  -- The entry that is taken out, NULL on an empty queue, and the queue without it.
  unfoldable pub queue_get : Queue → Heap A → Option (Ptr × Queue)
  queue_get q h = if q.bottom == null then some (null, q) else do
    e ← h q.bottom
    let t : Ptr = e.prev
    let size : ℕ = (q.size + size_mod - 1) % size_mod
    some (q.bottom, record { size = size; top = if t == null then null else q.top; bottom = t })

unfoldable pub queue_isempty : Queue → Bool
queue_isempty q = q.size == 0

module _ {ℓ} {A : Type ℓ} where
  -- The loop of `queue_free`: each entry is taken out and freed. Fuel bounds the rounds.
  unfoldable pub queue_free : ℕ → Queue → Heap A → Option (Heap A)
  unfolding queue_get write
  queue_free ℕ.zero q h = none
  queue_free (suc fuel) q h = do
    (e, q') ← queue_get q h
    let rest = queue_free fuel q' (write h e none)
    if e == null then some h else rest
